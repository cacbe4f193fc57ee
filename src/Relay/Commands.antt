-- ===== src/Relay/Commands.antt =====
-- The messages that the relay task of firmware/main/relay_client.c takes from its queue: which of
-- them reach the verifier, and which commands are executed.
pub mod Guards
pub mod Order
mod Tests
use remote_wake.Base.{
  ℕ, ◌+◌, Bool, true, false, not, ◌&&◌, ◌||◌, List, [], ◌∷◌, ◌++◌, Option, some, none, ltb, leb,
  ◌==◌, if◌then◌else◌, length, codes,
}
use remote_wake.Json.{Json, string_of, is_object}
use remote_wake.Auth.Errors.{AuthErr, auth_err_str}
use remote_wake.Auth.Envelope.{peek_id, id_maxlen}
use remote_wake.Auth.Ops.{Ops, Cmd, Env}
use remote_wake.Auth.Verify.{D, verify}
use remote_wake.Auth.Replay.{CounterStore, with_counters}
use remote_wake.Relay.Lockout.{Lockout, locked_out, note_auth_failure}
use remote_wake.Relay.Assembly.{Message}

-- The failures that count toward the lockout.
abbrev pub counts : AuthErr → Bool
counts AuthErr.sig = true
counts AuthErr.unknown_key = true
counts AuthErr.replay = true
counts AuthErr.dev = true
counts AuthErr.bad_json = true
counts _ = false

-- The NUL that a text ends with is not among its bytes.
abbrev pub first_byte : List ℕ → ℕ
first_byte [] = 0
first_byte (b ∷ bs) = b

abbrev pub is_text : {A : Type 0} → Option A → Bool
is_text none = false
is_text (some s) = true

-- What a message brings about, apart from the log: a response, a command that is executed, or a text
-- that is taken for an update hint.
pub data Effect (C : Type 0) : Type 0 where
  nothing : Effect C
  responds_err : List ℕ → List ℕ → Effect C
  dispatches : C → Effect C
  hints : List ℕ → Effect C

-- The store of counters, and the lockout.
pub record State (S : Type 0) : Type 0 where
  pub store : S
  pub lockout : Lockout

-- A message with what the task reads of the clocks, the keys and the link while it handles it:
-- `looked_us` is when the lockout is asked, `failed_us` when a failure is noted; `valid_before` and
-- `valid_after` are `session_valid` before the message is looked at and after it is verified.
pub record Arrival (S : Type 0) : Type 0 where
  pub message : Message
  pub ops : Ops S
  pub looked_us : ℕ
  pub failed_us : ℕ
  pub valid_before : Bool
  pub valid_after : Bool

module _ (E : Env) {S : Type 0} (st : CounterStore S) (threshold lockout_sec : ℕ) where
  open E use {json, doubles}

  unfoldable pub looks_like_command : List ℕ → Bool
  looks_like_command text =
      if (length text == 0) || not (first_byte text == b'{')
      then false
      else elim (json.parse text) [
        | none ↦ false
        | some root ↦
            is_object (some root)
            && is_text (string_of (json.get_item root (codes "id")))
            && is_text (string_of (json.get_item root (codes "act")))
      ]

  -- `handle_envelope` after the verifier has returned.
  unfoldable pub on_verified :
      Lockout → Arrival S → S × AuthErr × Cmd (D E) → State S × Effect (Cmd (D E))
  on_verified l a (s, AuthErr.ok, c) = (
    record { store = s; lockout = l },
    if a.valid_after then Effect.dispatches c else Effect.nothing,
  )
  on_verified l a (s, e, c) =
      let peek = peek_id doubles json a.message.bytes id_maxlen in
      (
        record {
          store = s;
          lockout = if counts e then note_auth_failure threshold lockout_sec l a.failed_us else l;
        },
        Effect.responds_err (if ltb 0 (length peek) then peek else c.id) (auth_err_str e),
      )

  unfoldable pub handle_envelope : State S → Arrival S → State S × Effect (Cmd (D E))
  unfolding on_verified
  handle_envelope s a =
      let peek = peek_id doubles json a.message.bytes id_maxlen in
      if locked_out s.lockout a.looked_us
      then (s, Effect.responds_err peek (codes "locked"))
      else on_verified s.lockout a (verify E (with_counters st a.ops) s.store a.message.bytes)

  -- The branches of the relay task on a message that it has received, in its session.
  unfoldable pub on_message : ℕ → State S → Arrival S → State S × Effect (Cmd (D E))
  unfolding handle_envelope
  on_message session s a =
      if not (a.message.session == session) || not a.valid_before
      then (s, Effect.nothing)
      else if looks_like_command a.message.bytes
      then handle_envelope s a
      else (s, Effect.hints a.message.bytes)

  abbrev pub commands_of : Effect (Cmd (D E)) → List (Cmd (D E))
  commands_of (Effect.dispatches c) = c ∷ []
  commands_of _ = []

  -- The commands that are executed, each message in the session that the task is in then.
  unfoldable pub executed : State S → List (ℕ × Arrival S) → List (Cmd (D E))
  unfolding on_message
  executed s [] = []
  executed s ((session, a) ∷ rest) =
      let (s', effect) = on_message session s a in commands_of effect ++ executed s' rest
