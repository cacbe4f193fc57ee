-- ===== src/Auth/Replay.antt =====
-- No command is accepted twice, whatever is sent in between.
use remote_wake.Base.{
  ℕ, ◌≤◌, ◌<◌, ◌≡◌, ◌≢◌, ◌⊎◌, inl, inr, refl, Bool, true, Option, none, some, List, [], ◌∷◌, ap,
  ◌∙◌, bytes-cases, Option-cases, Bool-cases, leb, ltb, ◌==◌, ◌||◌, length, arith,
}
use remote_wake.Auth.Errors.{AuthErr}
use remote_wake.Auth.Ops.{Ops, Cmd, Env}
use remote_wake.Auth.Verify.{
  D, Fields, check_counter, check_key, authorize, finish, on_fields, on_root, structural, verify,
}
use remote_wake.Json.{Json}
use remote_wake.Auth.Soundness.{authorize-stages, check_key-ok, check_counter-ok}
use remote_wake.Auth.Accepted.{verify-stages}

-- The counters of the operator keys: a write that succeeds is read back, one that fails leaves the
-- old mark or the new one, and no write touches another key's mark.
pub record CounterStore (S : Type 0) : Type 0 where
  pub get : S → List ℕ → Option ℕ
  pub put : S → List ℕ → ℕ → S × Bool
  pub get-put :
      (s : S) (kid : List ℕ) (n : ℕ) → (put s kid n).1 ≡ true → get (put s kid n).0 kid ≡ some n
  pub get-put_failed :
      (s : S) (kid : List ℕ) (n : ℕ)
      → (get (put s kid n).0 kid ≡ get s kid) ⊎ (get (put s kid n).0 kid ≡ some n)
  pub get-put_other :
      (s : S) (kid other : List ℕ) (n : ℕ) → kid ≢ other → get (put s kid n).0 other ≡ get s other

-- The callbacks of `ops` with the counters of a store.
abbrev pub with_counters : {S : Type 0} → CounterStore S → Ops S → Ops S
with_counters st ops = record ops { get_ctr = some st.get; set_ctr = some st.put }

module _ (E : Env) {S : Type 0} (st : CounterStore S) where
  -- One envelope after the other, each at its own time and with its own keys.
  unfoldable pub serve : S → List (Ops S × List ℕ) → S
  serve s [] = s
  serve s ((ops, text) ∷ es) = serve (verify E (with_counters st ops) s text).0 es

  -- The mark of `kid` is `m` or more.
  abbrev pub MarkAtLeast : S → List ℕ → ℕ → Type 0
  MarkAtLeast s kid m = (n : ℕ) × (st.get s kid ≡ some n) × (m ≤ n)

  -- A write of a counter above the mark of its key lowers no mark.
  put-mark :
      (s : S) (kid other : List ℕ) (ctr last m : ℕ)
      → st.get s kid ≡ some last
      → last < ctr
      → MarkAtLeast s other m
      → MarkAtLeast (st.put s kid ctr).0 other m
  put-mark s kid other ctr last m r lt (n, e, le) = elim (bytes-cases kid other) [
    | inl same ↦ elim (st.get-put_failed s kid ctr) [
      | inl old ↦ (n, cc, le)
      | inr new ↦ (ctr, rw (← same) new, ground (arith, ap (st.get s) same))
    ]
    | inr differ ↦ (n, st.get-put_other s kid other ctr differ ∙ e, le)
  ]

  -- The verifier leaves the store alone, or writes a counter above the mark of its key.
  counter_step :
      (ops : Ops S) (s : S) (c : Cmd (D E))
      → ((check_counter E (with_counters st ops) s c).0 ≡ s)
        ⊎ ((last : ℕ) × (st.get s c.kid ≡ some last)
            × (last < c.ctr)
            × ((check_counter E (with_counters st ops) s c).0 ≡ (st.put s c.kid c.ctr).0))
  unfolding check_counter
  counter_step ops s c = elim (Option-cases (st.get s c.kid)) [
    | inl missing ↦ inl (ground arith)
    | inr (last, e) ↦ elim (Bool-cases (leb c.ctr last)) [
      | inl old ↦ inl (ground arith)
      | inr new ↦ inr (last, e, ground arith, ground arith)
    ]
  ]

  -- Either `r` is the old store, or what the counter check of some command makes of it.
  abbrev Counted : Ops S → S → S → Type 0
  Counted ops s r =
      (r ≡ s) ⊎ ((c : Cmd (D E)) × (r ≡ (check_counter E (with_counters st ops) s c).0))

  check_key-Counted :
      (ops : Ops S) (s : S) (c : Cmd (D E)) (f : Fields E)
      → ((check_key E (with_counters st ops) s c f).0 ≡ s)
        ⊎ ((check_key E (with_counters st ops) s c f).0
            ≡ (check_counter E (with_counters st ops) s c).0)
  unfolding check_key
  check_key-Counted ops s c f = ground arith

  authorize-Counted :
      (ops : Ops S) (device_id : List ℕ) (s : S) (c : Cmd (D E)) (f : Fields E)
      → ((authorize E (with_counters st ops) device_id s c f).0 ≡ s)
        ⊎ ((authorize E (with_counters st ops) device_id s c f).0
            ≡ (check_counter E (with_counters st ops) s c).0)
  unfolding authorize
  authorize-Counted ops device_id s c f = ground (arith, check_key-Counted ops s c f)

  finish-store :
      (ops : Ops S) (c : Cmd (D E)) (r : S × AuthErr)
      → (finish E (with_counters st ops) c r).0 ≡ r.0
  finish-store ops c (s, AuthErr.ok) = refl
  finish-store ops c (s, _) = refl

  on_fields-Counted :
      (ops : Ops S) (device_id : List ℕ) (s : S) (p : Cmd (D E) × Option (Fields E))
      → Counted ops s (on_fields E (with_counters st ops) device_id s p).0
  on_fields-Counted ops device_id s (c, none) = inl refl
  on_fields-Counted ops device_id s (c, some f) =
      let r = authorize E (with_counters st ops) device_id s c f in
      elim (authorize-Counted ops device_id s c f) [
        | inl same ↦ inl (finish-store ops c r ∙ same)
        | inr counted ↦ inr (c, finish-store ops c r ∙ counted)
      ]

  on_root-Counted :
      (ops : Ops S) (device_id : List ℕ) (s : S) (root : Option (Json (D E)))
      → Counted ops s (on_root E (with_counters st ops) device_id s root).0
  on_root-Counted ops device_id s (some (Json.obj ms)) =
      on_fields-Counted ops device_id s (structural E (Json.obj ms))
  on_root-Counted ops device_id s _ = inl refl

  verify_step :
      (ops : Ops S) (s : S) (text : List ℕ)
      → Counted ops s (verify E (with_counters st ops) s text).0
  unfolding verify
  verify_step ops s text = elim (Option-cases ops.device_id) [
    | inl missing ↦ inl (ground arith)
    | inr (device_id, own) ↦ elim (Bool-cases ((length text == 0) || ltb 4096 (length text))) [
      | inl bad ↦ inl (ground arith)
      | inr good ↦
          let root = on_root E (with_counters st ops) device_id s (E.json.parse text) in
          let e : (verify E (with_counters st ops) s text).0 ≡ root.0 = ground arith in
          elim (on_root-Counted ops device_id s (E.json.parse text)) [
            | inl same ↦ inl (e ∙ same)
            | inr (c, counted) ↦ inr (c, e ∙ counted)
          ]
    ]
  ]

  -- No envelope lowers the mark of any key, accepted or not.
  pub verify-mark :
      (ops : Ops S) (s : S) (text kid : List ℕ) (m : ℕ)
      → MarkAtLeast s kid m
      → MarkAtLeast (verify E (with_counters st ops) s text).0 kid m
  verify-mark ops s text kid m h = elim (verify_step ops s text) [
    | inl same ↦ rw same h
    | inr (c, counted) ↦ elim (counter_step ops s c) [
      | inl same ↦ rw counted (rw same h)
      | inr (last, r, lt, put) ↦ rw counted (rw put (put-mark s c.kid kid c.ctr last m r lt h))
    ]
  ]

  serve-mark :
      (s : S) (es : List (Ops S × List ℕ)) (kid : List ℕ) (m : ℕ)
      → MarkAtLeast s kid m
      → MarkAtLeast (serve s es) kid m
  unfolding serve
  serve-mark s [] kid m h = h
  serve-mark s ((ops, text) ∷ es) kid m h =
      serve-mark (verify E (with_counters st ops) s text).0 es kid m
        (verify-mark ops s text kid m h)

  -- An accepted command has a counter above the old mark of its key, and the new mark is its counter.
  pub accepted-mark :
      (ops : Ops S) (s s' : S) (text : List ℕ) (c : Cmd (D E))
      → verify E (with_counters st ops) s text ≡ (s', AuthErr.ok, c)
      → (last : ℕ) × (st.get s c.kid ≡ some last) × (last < c.ctr) × (st.get s' c.kid ≡ some c.ctr)
  accepted-mark ops s s' text c h =
      let ops' = with_counters st ops in
      let (device_id, f, ms, own, lo, hi, parsed, fields, passed) =
        verify-stages E ops' s s' text c h in
      let stages = authorize-stages E ops' device_id s s' c f passed in
      let (pub_key, registered, sig_ok, time_ok, counter_ok) =
        check_key-ok E ops' s s' c f stages.1 in
      let (last, read, fresh, stored, enabled) = check_counter-ok E ops' s s' c counter_ok in
      (last, read, fresh, ground (arith, st.get-put s c.kid c.ctr))

  -- Replay is impossible: once a command has been accepted, then after any further envelopes, with
  -- any keys and clocks, a command of the same key is accepted only with a greater counter.
  pub accepted_once :
      (ops₁ ops₂ : Ops S) (s₀ s₁ s₂ : S) (text₁ text₂ : List ℕ) (c₁ c₂ : Cmd (D E))
      (between : List (Ops S × List ℕ))
      → verify E (with_counters st ops₁) s₀ text₁ ≡ (s₁, AuthErr.ok, c₁)
      → verify E (with_counters st ops₂) (serve s₁ between) text₂ ≡ (s₂, AuthErr.ok, c₂)
      → c₁.kid ≡ c₂.kid
      → c₁.ctr < c₂.ctr
  accepted_once ops₁ ops₂ s₀ s₁ s₂ text₁ text₂ c₁ c₂ between h₁ h₂ same =
      let (last₁, _, _, mark₁) = accepted-mark ops₁ s₀ s₁ text₁ c₁ h₁ in
      let (n, kept, le) = serve-mark s₁ between c₁.kid c₁.ctr (c₁.ctr, mark₁, omega arith) in
      let (last₂, read, lt, _) = accepted-mark ops₂ (serve s₁ between) s₂ text₂ c₂ h₂ in
      ground (arith, ap (st.get (serve s₁ between)) same)
