-- ===== src/Auth/Soundness.antt =====
-- What a verified command has proved, and that nothing more is asked of it.
use remote_wake.Base.{ℕ, ◌+◌, ◌<◌, ◌≡◌, ◌↔◌, refl, true, some, List, length, All, arith}
use remote_wake.Base.Int.{pos, ◌-ℤ◌, ◌≤ℤ◌, pos_part, neg_part}
use remote_wake.B64Url.{decode}
use remote_wake.B64Url.Compare.{ct_equal_iff}
use remote_wake.Auth.Errors.{AuthErr}
use remote_wake.Auth.Envelope.{sig_len, signing_string}
use remote_wake.Auth.Ops.{Ops, Cmd, Env, call_get_key, call_get_ctr, call_set_ctr, call_act_enabled}
use remote_wake.Auth.Verify.{
  D, Fields, check_address, check_sig, check_time, check_counter, check_key, authorize,
}

abbrev pub AreBytes : List ℕ → Type 0
AreBytes = All (λ b. b < 256)

module _ (E : Env) where
  open E use {doubles, calloc_ok, alloc, verify_detached}

  -- The signature is by `pub_key`, over exactly these fields.
  pub record IsSigned (c : Cmd (D E)) (f : Fields E) (pub_key : List ℕ) : Type 0 where
    pub sig : List ℕ
    pub msg : List ℕ
    pub decoded : decode (some f.sig_b64) (some sig_len) ≡ some sig
    pub whole : length sig ≡ sig_len
    pub signed_text :
        signing_string doubles calloc_ok alloc f.dev c.id c.ts c.ctr c.act c.args ≡ some msg
    pub verifies : verify_detached sig msg pub_key ≡ true

  check_sig-ok :
      (c : Cmd (D E)) (f : Fields E) (pub_key : List ℕ)
      → check_sig E c f pub_key ≡ AuthErr.ok
      → (sig : List ℕ) × (msg : List ℕ) × (decode (some f.sig_b64) (some sig_len) ≡ some sig)
        × (length sig ≡ sig_len)
        × (signing_string doubles calloc_ok alloc f.dev c.id c.ts c.ctr c.act c.args ≡ some msg)
        × (verify_detached sig msg pub_key ≡ true)
  unfolding check_sig
  check_sig-ok c f pub_key h = ground arith

  signed-check_sig :
      (c : Cmd (D E)) (f : Fields E) (pub_key : List ℕ)
      → IsSigned c f pub_key
      → check_sig E c f pub_key ≡ AuthErr.ok
  unfolding check_sig
  signed-check_sig c f pub_key h = ground (arith, h.decoded, h.whole, h.signed_text, h.verifies)

  check_address-ok :
      (device_id : List ℕ) (c : Cmd (D E)) (f : Fields E)
      → AreBytes device_id
      → AreBytes f.dev
      → check_address E device_id c f ≡ AuthErr.ok
      → (f.v ≡ pos 1) × (length device_id ≡ 16) × (f.dev ≡ device_id)
  unfolding check_address
  check_address-ok device_id c f b b' h =
      ground (arith, (ct_equal_iff f.dev device_id b' b (ground arith)).0)

  address-check_address :
      (device_id : List ℕ) (c : Cmd (D E)) (f : Fields E)
      → AreBytes device_id
      → f.v ≡ pos 1
      → length device_id ≡ 16
      → f.dev ≡ device_id
      → check_address E device_id c f ≡ AuthErr.ok
  unfolding check_address
  address-check_address device_id c f b v l e =
      ground (arith, (ct_equal_iff device_id device_id b b refl).1 refl)

  module _ {S : Type 0} (ops : Ops S) where
    -- What the protocol asks of a command, and what it does to the store.
    pub record IsAuthorized (device_id : List ℕ) (s s' : S) (c : Cmd (D E)) (f : Fields E)
        : Type 0 where
      pub version : f.v ≡ pos 1
      pub id_length : length device_id ≡ 16
      pub addressed : f.dev ≡ device_id
      pub pub_key : List ℕ
      pub registered : call_get_key ops.get_key s c.kid ≡ some pub_key
      pub signed : IsSigned c f pub_key
      pub in_time :
          ops.clock_valid ≡ true
          → pos (pos_part (ops.now -ℤ c.ts) + neg_part (ops.now -ℤ c.ts)) ≤ℤ ops.ts_window
      pub last : ℕ
      pub read : call_get_ctr ops.get_ctr s c.kid ≡ some last
      pub fresh : last < c.ctr
      pub stored : call_set_ctr ops.set_ctr s c.kid c.ctr ≡ (s', true)
      pub enabled : call_act_enabled ops.act_enabled s' c.act ≡ true

    check_time-ok :
        (c : Cmd (D E))
        → check_time E ops c ≡ AuthErr.ok
        → ops.clock_valid ≡ true
        → pos (pos_part (ops.now -ℤ c.ts) + neg_part (ops.now -ℤ c.ts)) ≤ℤ ops.ts_window
    unfolding check_time
    check_time-ok c h v = ground arith

    pub check_counter-ok :
        (s s' : S) (c : Cmd (D E))
        → check_counter E ops s c ≡ (s', AuthErr.ok)
        → (last : ℕ) × (call_get_ctr ops.get_ctr s c.kid ≡ some last)
          × (last < c.ctr)
          × (call_set_ctr ops.set_ctr s c.kid c.ctr ≡ (s', true))
          × (call_act_enabled ops.act_enabled s' c.act ≡ true)
    unfolding check_counter
    check_counter-ok s s' c h = ground arith

    pub check_key-ok :
        (s s' : S) (c : Cmd (D E)) (f : Fields E)
        → check_key E ops s c f ≡ (s', AuthErr.ok)
        → (pub_key : List ℕ) × (call_get_key ops.get_key s c.kid ≡ some pub_key)
          × (check_sig E c f pub_key ≡ AuthErr.ok)
          × (check_time E ops c ≡ AuthErr.ok)
          × (check_counter E ops s c ≡ (s', AuthErr.ok))
    unfolding check_key
    check_key-ok s s' c f h = ground arith

    pub authorize-stages :
        (device_id : List ℕ) (s s' : S) (c : Cmd (D E)) (f : Fields E)
        → authorize E ops device_id s c f ≡ (s', AuthErr.ok)
        → (check_address E device_id c f ≡ AuthErr.ok) × (check_key E ops s c f ≡ (s', AuthErr.ok))
    unfolding authorize
    authorize-stages device_id s s' c f h = ground arith

    in_time-check_time :
        (c : Cmd (D E))
        → (ops.clock_valid ≡ true
            → pos (pos_part (ops.now -ℤ c.ts) + neg_part (ops.now -ℤ c.ts)) ≤ℤ ops.ts_window)
        → check_time E ops c ≡ AuthErr.ok
    unfolding check_time
    in_time-check_time c h = ground arith

    authorized-check_counter :
        (s s' : S) (c : Cmd (D E)) (last : ℕ)
        → call_get_ctr ops.get_ctr s c.kid ≡ some last
        → last < c.ctr
        → call_set_ctr ops.set_ctr s c.kid c.ctr ≡ (s', true)
        → call_act_enabled ops.act_enabled s' c.act ≡ true
        → check_counter E ops s c ≡ (s', AuthErr.ok)
    unfolding check_counter
    authorized-check_counter s s' c last r f w e = ground arith

    authorized-check_key :
        (s s' : S) (c : Cmd (D E)) (f : Fields E) (pub_key : List ℕ)
        → call_get_key ops.get_key s c.kid ≡ some pub_key
        → check_sig E c f pub_key ≡ AuthErr.ok
        → check_time E ops c ≡ AuthErr.ok
        → check_counter E ops s c ≡ (s', AuthErr.ok)
        → check_key E ops s c f ≡ (s', AuthErr.ok)
    unfolding check_key
    authorized-check_key s s' c f pub_key k g t r = ground arith

    -- A command passes exactly when it is authorized: the version is 1, the envelope is for this
    -- device, its key is registered, the signature over exactly its fields verifies under that key,
    -- the time lies in the window if the clock is valid, the counter is above the stored mark and has
    -- been stored, and the action is enabled. The texts are byte strings.
    pub authorize-ok_iff :
        (device_id : List ℕ) (s s' : S) (c : Cmd (D E)) (f : Fields E)
        → AreBytes device_id
        → AreBytes f.dev
        → (authorize E ops device_id s c f ≡ (s', AuthErr.ok)) ↔ IsAuthorized device_id s s' c f
    unfolding authorize
    authorize-ok_iff device_id s s' c f b b' = (to, from)
      where
        to : authorize E ops device_id s c f ≡ (s', AuthErr.ok) → IsAuthorized device_id s s' c f
        to h =
            let passed = authorize-stages device_id s s' c f h in
            let a = check_address-ok device_id c f b b' passed.0 in
            let (pub_key, registered, sig_ok, time_ok, counter_ok) =
              check_key-ok s s' c f passed.1 in
            let (sig, msg, decoded, whole, text, verifies) = check_sig-ok c f pub_key sig_ok in
            let (last, read, fresh, stored, enabled) = check_counter-ok s s' c counter_ok in
            record {
              version = a.0;
              id_length = a.1;
              addressed = a.2;
              pub_key = pub_key;
              registered = registered;
              signed = record {
                sig = sig;
                msg = msg;
                decoded = decoded;
                whole = whole;
                signed_text = text;
                verifies = verifies;
              };
              in_time = check_time-ok c time_ok;
              last = last;
              read = read;
              fresh = fresh;
              stored = stored;
              enabled = enabled;
            }

        from : IsAuthorized device_id s s' c f → authorize E ops device_id s c f ≡ (s', AuthErr.ok)
        from h =
            let key_ok =
              authorized-check_key s s' c f h.pub_key h.registered
                (signed-check_sig c f h.pub_key h.signed) (in_time-check_time c h.in_time)
                (authorized-check_counter s s' c h.last h.read h.fresh h.stored h.enabled) in
            ground (
              arith,
              address-check_address device_id c f b h.version h.id_length h.addressed,
              key_ok,
            )
