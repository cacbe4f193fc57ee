-- ===== src/Auth/Accepted.antt =====
-- What an accepted envelope is, from its bytes on.
use remote_wake.Base.{
  ℕ, ◌≤◌, ◌≡◌, inl, inr, refl, Option, none, some, List, length, codes, arith, Option-cases,
}
use remote_wake.Json.{Json, Members, string_of}
use remote_wake.Auth.Errors.{AuthErr}
use remote_wake.Auth.Envelope.{copy_str_field}
use remote_wake.Auth.Ops.{Ops, Cmd, Env}
use remote_wake.Auth.Verify.{D, Fields, structural, authorize, finish, on_fields, on_root, verify}
use remote_wake.Auth.Soundness.{AreBytes, IsAuthorized, authorize-ok_iff}

module _ (E : Env) where
  open E use {doubles, json}

  -- The strings of a parsed text are byte strings, as `char *` makes them.
  abbrev pub TextsAreBytes : Type 0
  TextsAreBytes =
      (text : List ℕ) (root : Json (D E)) (name s : List ℕ)
      → json.parse text ≡ some root
      → string_of (json.get_item root name) ≡ some s
      → AreBytes s

  copy_str_field-some :
      (j : Json (D E)) (name : List ℕ) (size : ℕ) (s : List ℕ)
      → copy_str_field doubles json j name size ≡ some s
      → string_of (json.get_item j name) ≡ some s
  unfolding copy_str_field
  copy_str_field-some j name size s h = ground arith

  structural-dev :
      (j : Json (D E)) (c : Cmd (D E)) (f : Fields E)
      → structural E j ≡ (c, some f)
      → copy_str_field doubles json j (codes "dev") 17 ≡ some f.dev
  unfolding structural
  structural-dev j c f h = ground arith

  -- The envelope text reads as a JSON object with these fields.
  pub record IsEnvelope (text : List ℕ) (c : Cmd (D E)) (f : Fields E) : Type 0 where
    pub not_empty : 1 ≤ length text
    pub bounded : length text ≤ 4096
    pub members : Members (D E)
    pub parsed : json.parse text ≡ some (Json.obj members)
    pub fields : structural E (Json.obj members) ≡ (c, some f)

  module _ {S : Type 0} (ops : Ops S) where
    finish-ok :
        (s' : S) (c c' : Cmd (D E)) (r : S × AuthErr)
        → finish E ops c r ≡ (s', AuthErr.ok, c')
        → (c ≡ c') × (r ≡ (s', AuthErr.ok))
    finish-ok s' c c' (s, AuthErr.ok) h = ground arith
    finish-ok s' c c' (s, _) h = ground arith

    on_fields-ok :
        (device_id : List ℕ) (s s' : S) (c : Cmd (D E)) (p : Cmd (D E) × Option (Fields E))
        → on_fields E ops device_id s p ≡ (s', AuthErr.ok, c)
        → (f : Fields E) × (p ≡ (c, some f)) × (authorize E ops device_id s c f ≡ (s', AuthErr.ok))
    on_fields-ok device_id s s' c (c₀, none) h = absurd (ground arith)
    on_fields-ok device_id s s' c (c₀, some f) h =
        let done = finish-ok s' c₀ c (authorize E ops device_id s c₀ f) h in
        (f, ground (arith, done.0), rw (← done.0) done.1)

    on_root-ok :
        (device_id : List ℕ) (s s' : S) (c : Cmd (D E)) (root : Option (Json (D E)))
        → on_root E ops device_id s root ≡ (s', AuthErr.ok, c)
        → (ms : Members (D E)) × (root ≡ some (Json.obj ms))
          × (on_fields E ops device_id s (structural E (Json.obj ms)) ≡ (s', AuthErr.ok, c))
    on_root-ok device_id s s' c (some (Json.obj ms)) h = (ms, refl, h)
    on_root-ok device_id s s' c _ h = absurd (ground arith)

    verify-root :
        (s s' : S) (text : List ℕ) (c : Cmd (D E))
        → verify E ops s text ≡ (s', AuthErr.ok, c)
        → (device_id : List ℕ) × (ops.device_id ≡ some device_id)
          × (1 ≤ length text)
          × (length text ≤ 4096)
          × (on_root E ops device_id s (json.parse text) ≡ (s', AuthErr.ok, c))
    unfolding verify
    verify-root s s' text c h = elim (Option-cases ops.device_id) [
      | inl missing ↦ absurd (ground arith)
      | inr (device_id, own) ↦ (device_id, own, ground arith, ground arith, ground arith)
    ]

    pub verify-stages :
        (s s' : S) (text : List ℕ) (c : Cmd (D E))
        → verify E ops s text ≡ (s', AuthErr.ok, c)
        → (device_id : List ℕ) × (f : Fields E) × (ms : Members (D E)) × (ops.device_id
            ≡ some device_id)
          × (1 ≤ length text)
          × (length text ≤ 4096)
          × (json.parse text ≡ some (Json.obj ms))
          × (structural E (Json.obj ms) ≡ (c, some f))
          × (authorize E ops device_id s c f ≡ (s', AuthErr.ok))
    verify-stages s s' text c h =
        let (device_id, own, lo, hi, root) = verify-root s s' text c h in
        let (ms, parsed, fields) = on_root-ok device_id s s' c (json.parse text) root in
        let (f, read, passed) = on_fields-ok device_id s s' c (structural E (Json.obj ms)) fields in
        (device_id, f, ms, own, lo, hi, parsed, read, passed)

    -- Only an authorized command is ever accepted: when the verifier returns RW_OK, the text is an
    -- envelope of 1 to 4096 bytes, the command returned holds exactly its fields, and it is
    -- authorized (`IsAuthorized`) for this device, with its counter stored before the return.
    pub verify-ok :
        (s s' : S) (text : List ℕ) (c : Cmd (D E)) (device_id : List ℕ)
        → TextsAreBytes
        → ops.device_id ≡ some device_id
        → AreBytes device_id
        → verify E ops s text ≡ (s', AuthErr.ok, c)
        → (f : Fields E) × IsEnvelope text c f × IsAuthorized E ops device_id s s' c f
    verify-ok s s' text c device_id texts own b h =
        let (device_id', f, ms, own', lo, hi, parsed, fields, passed) =
          verify-stages s s' text c h in
        let same : device_id' ≡ device_id = cc in
        let dev_bytes = texts text (Json.obj ms) (codes "dev") f.dev parsed (
          copy_str_field-some (Json.obj ms) (codes "dev") 17 f.dev
            (structural-dev (Json.obj ms) c f fields)) in
        (
          f,
          record { not_empty = lo; bounded = hi; members = ms; parsed = parsed; fields = fields },
          (authorize-ok_iff E ops device_id s s' c f b dev_bytes).0 (rw same at passed),
        )
