-- ===== src/Relay/Commands/Guards.antt =====
-- The conditions under which a command is executed.
use remote_wake.Base.{ℕ, ◌<◌, ◌≡◌, refl, true, false, List, [], ◌∷◌, All, arith}
use remote_wake.Auth.Errors.{AuthErr}
use remote_wake.Auth.Ops.{Cmd, Env}
use remote_wake.Auth.Verify.{D, verify}
use remote_wake.Auth.Replay.{CounterStore, with_counters}
use remote_wake.Relay.Lockout.{Lockout, locked_out, lockout_remaining}
use remote_wake.Relay.Commands.{
  Effect, State, Arrival, on_verified, handle_envelope, on_message, commands_of, executed,
}

locks : (l : Lockout) (now : ℕ) → now < l.lock_until_us → locked_out l now ≡ true
unfolding locked_out lockout_remaining
locks l now h = ground arith

module _ (E : Env) {S : Type 0} (st : CounterStore S) (threshold lockout_sec : ℕ) where
  locked_message :
      (session : ℕ) (s : State S) (a : Arrival S)
      → a.looked_us < s.lockout.lock_until_us
      → ((on_message E st threshold lockout_sec session s a).0 ≡ s)
        × (commands_of E st threshold lockout_sec
              (on_message E st threshold lockout_sec session s a).1
            ≡ [])
  unfolding on_message handle_envelope
  locked_message session s a h = ground (arith, locks s.lockout a.looked_us h)

  -- During a lockout nothing is executed, however many messages arrive, correctly signed or not.
  locked_executes_nothing :
      (es : List (ℕ × Arrival S)) (s : State S)
      → All (λ e. e.1.looked_us < s.lockout.lock_until_us) es
      → executed E st threshold lockout_sec s es ≡ []
  unfolding executed
  locked_executes_nothing [] s h = refl
  locked_executes_nothing ((session, a) ∷ es) s (now, later) =
      let (same, nothing') = locked_message session s a now in
      rw (same, nothing') (locked_executes_nothing es s later)

  on_verified-dispatches :
      (l : Lockout) (s' : State S) (a : Arrival S) (r : S × AuthErr × Cmd (D E)) (c : Cmd (D E))
      → on_verified E st threshold lockout_sec l a r ≡ (s', Effect.dispatches c)
      → (a.valid_after ≡ true) × (r ≡ (s'.store, AuthErr.ok, c)) × (s'.lockout ≡ l)
  unfolding on_verified
  on_verified-dispatches l s' a (t, AuthErr.ok, d) c h = ground arith
  on_verified-dispatches l s' a (t, e, d) c h = absurd (ground arith)

  -- A message executes a command only in its own session, which is valid before the message is looked
  -- at and again after it is verified, outside a lockout, and only a command that the verifier accepts
  -- in that very store; its execution leaves the lockout alone.
  pub dispatch_guarded :
      (session : ℕ) (s s' : State S) (a : Arrival S) (c : Cmd (D E))
      → on_message E st threshold lockout_sec session s a ≡ (s', Effect.dispatches c)
      → (a.message.session ≡ session)
        × (a.valid_before ≡ true)
        × (a.valid_after ≡ true)
        × (locked_out s.lockout a.looked_us ≡ false)
        × (verify E (with_counters st a.ops) s.store a.message.bytes ≡ (s'.store, AuthErr.ok, c))
        × (s'.lockout ≡ s.lockout)
  unfolding on_message handle_envelope
  dispatch_guarded session s s' a c h = ground (
    arith,
    on_verified-dispatches s.lockout s' a
        (verify E (with_counters st a.ops) s.store a.message.bytes) c,
  )
