-- ===== src/Relay/Commands/Order.antt =====
-- Which commands are executed, over any run of messages.
use remote_wake.Base.{
  ℕ, ◌<◌, ◌≡◌, inl, inr, refl, sym, ap, subst, List, [], ◌∷◌, ◌++◌, All, Bool-cases, not, ◌||◌,
  ◌==◌, arith,
}
use remote_wake.Auth.Errors.{AuthErr}
use remote_wake.Auth.Ops.{Cmd, Env}
use remote_wake.Auth.Verify.{D, verify}
use remote_wake.Auth.Replay.{CounterStore, with_counters, MarkAtLeast, verify-mark, accepted-mark}
use remote_wake.Relay.Lockout.{Lockout, locked_out}
use remote_wake.Relay.Commands.{
  State, Arrival, looks_like_command, on_verified, handle_envelope, on_message, commands_of,
  executed,
}

-- Later commands of a key have greater counters.
abbrev pub Increasing : {A : Type 0} → List (Cmd A) → Type 0
Increasing [] = Unit
Increasing (c ∷ cs) = All (λ d. d.kid ≡ c.kid → c.ctr < d.ctr) cs × Increasing cs

module _ (E : Env) {S : Type 0} (st : CounterStore S) (threshold lockout_sec : ℕ) where
  -- A message leaves the store alone and executes nothing, or is verified, and executes only the
  -- command that the verifier accepts.
  data Outcome (s : State S) (a : Arrival S) : State S → List (Cmd (D E)) → Type 0 where
    ignored : (s' : State S) → s'.store ≡ s.store → Outcome s a s' []
    checked :
        (s' : State S)
        → s'.store ≡ (verify E (with_counters st a.ops) s.store a.message.bytes).0
        → Outcome s a s' []
    accepted :
        (s' : State S) (c : Cmd (D E))
        → verify E (with_counters st a.ops) s.store a.message.bytes ≡ (s'.store, AuthErr.ok, c)
        → Outcome s a s' (c ∷ [])

  on_verified-Outcome :
      (l : Lockout) (s : State S) (a : Arrival S) (r : S × AuthErr × Cmd (D E))
      → verify E (with_counters st a.ops) s.store a.message.bytes ≡ r
      → Outcome s a
          (on_verified E st threshold lockout_sec l a r).0
          (commands_of E st threshold lockout_sec (on_verified E st threshold lockout_sec l a r).1)
  unfolding on_verified
  on_verified-Outcome l s a (t, AuthErr.ok, c) h = elim (Bool-cases a.valid_after) [
    | inl valid ↦ rw valid (accepted (record { store = t; lockout = l }) c h)
    | inr over ↦ rw over (
        checked (record { store = t; lockout = l })
          (sym (ap (λ (q : S × AuthErr × Cmd (D E)). q.0) h)))
  ]
  on_verified-Outcome l s a (t, e, c) h =
      checked (on_verified E st threshold lockout_sec l a (t, e, c)).0
        (sym (ap (λ (q : S × AuthErr × Cmd (D E)). q.0) h))

  handle_envelope-Outcome :
      (s : State S) (a : Arrival S)
      → Outcome s a (handle_envelope E st threshold lockout_sec s a).0 (
          commands_of E st threshold lockout_sec (handle_envelope E st threshold lockout_sec s a).1)
  unfolding handle_envelope
  handle_envelope-Outcome s a = elim (Bool-cases (locked_out s.lockout a.looked_us)) [
    | inl locked ↦ rw locked (ignored s refl)
    | inr free ↦ rw free (
        on_verified-Outcome s.lockout s a
          (verify E (with_counters st a.ops) s.store a.message.bytes) refl)
  ]

  on_message-Outcome :
      (session : ℕ) (s : State S) (a : Arrival S)
      → Outcome s a (on_message E st threshold lockout_sec session s a).0 (
          commands_of E st threshold lockout_sec
            (on_message E st threshold lockout_sec session s a).1)
  unfolding on_message
  on_message-Outcome session s a =
      elim (Bool-cases (not (a.message.session == session) || not a.valid_before)) [
        | inl stale ↦ rw stale (ignored s refl)
        | inr current ↦
            elim (Bool-cases (looks_like_command E st threshold lockout_sec a.message.bytes)) [
              | inl command ↦ rw (current, command) (handle_envelope-Outcome s a)
              | inr other ↦ rw (current, other) (ignored s refl)
            ]
      ]

  -- No outcome lowers the mark of a key, and what it executes is above the mark.
  Outcome-mark :
      (s s' : State S) (a : Arrival S) (cs : List (Cmd (D E))) (kid : List ℕ) (m : ℕ)
      → Outcome s a s' cs
      → MarkAtLeast E st s.store kid m
      → MarkAtLeast E st s'.store kid m × All (λ d. d.kid ≡ kid → m < d.ctr) cs
  Outcome-mark s s' a cs kid m (ignored t same) h = (rw same h, tt)
  Outcome-mark s s' a cs kid m (checked t same) h =
      (rw same (verify-mark E st a.ops s.store a.message.bytes kid m h), tt)
  Outcome-mark s s' a cs kid m (accepted t c ok) h =
      let kept = verify-mark E st a.ops s.store a.message.bytes kid m h in
      let (last, read, fresh, stored) =
        accepted-mark E st a.ops s.store t.store a.message.bytes c ok in
      let (n, held, le) = h in
      (
        subst (λ (u : S). MarkAtLeast E st u kid m) (ap (λ (q : S × AuthErr × Cmd (D E)). q.0) ok)
            kept,
        ((λ e. ground (arith, ap (st.get s.store) e)), tt),
      )

  All-append :
      (xs ys : List (Cmd (D E))) (kid : List ℕ) (m : ℕ)
      → All (λ d. d.kid ≡ kid → m < d.ctr) xs
      → All (λ d. d.kid ≡ kid → m < d.ctr) ys
      → All (λ d. d.kid ≡ kid → m < d.ctr) (xs ++ ys)
  All-append [] ys kid m p q = q
  All-append (x ∷ xs) ys kid m (p, ps) q = (p, All-append xs ys kid m ps q)

  executed-above :
      (es : List (ℕ × Arrival S)) (s : State S) (kid : List ℕ) (m : ℕ)
      → MarkAtLeast E st s.store kid m
      → All (λ d. d.kid ≡ kid → m < d.ctr) (executed E st threshold lockout_sec s es)
  unfolding executed
  executed-above [] s kid m h = tt
  executed-above ((session, a) ∷ es) s kid m h =
      let r = on_message E st threshold lockout_sec session s a in
      let now = commands_of E st threshold lockout_sec r.1 in
      let (kept, above) = Outcome-mark s r.0 a now kid m (on_message-Outcome session s a) h in
      All-append now (executed E st threshold lockout_sec r.0 es) kid m above
        (executed-above es r.0 kid m kept)

  -- What is executed after an outcome continues its order.
  Outcome-Increasing :
      (s s' : State S) (a : Arrival S) (cs : List (Cmd (D E))) (es : List (ℕ × Arrival S))
      → Outcome s a s' cs
      → Increasing (executed E st threshold lockout_sec s' es)
      → Increasing (cs ++ executed E st threshold lockout_sec s' es)
  Outcome-Increasing s s' a cs es (ignored t same) ih = ih
  Outcome-Increasing s s' a cs es (checked t same) ih = ih
  Outcome-Increasing s s' a cs es (accepted t c ok) ih =
      let (last, read, fresh, stored) =
        accepted-mark E st a.ops s.store t.store a.message.bytes c ok in
      (executed-above es t c.kid c.ctr (c.ctr, stored, omega arith), ih)

  -- Over any messages, of any sessions, at any times and with any keys: of two commands of one key
  -- that are executed, the later one has the greater counter. So no command is executed twice.
  pub executed_in_order :
      (es : List (ℕ × Arrival S)) (s : State S)
      → Increasing (executed E st threshold lockout_sec s es)
  unfolding executed
  executed_in_order [] s = tt
  executed_in_order ((session, a) ∷ es) s =
      let r = on_message E st threshold lockout_sec session s a in
      Outcome-Increasing s r.0 a (commands_of E st threshold lockout_sec r.1) es
        (on_message-Outcome session s a) (executed_in_order es r.0)
