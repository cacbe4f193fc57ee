-- ===== src/Auth/Verify.antt =====
-- `rw_auth_verify`, stage by stage in the order of the protocol.
use remote_wake.Base.{
  ℕ, ◌+◌, not, ◌&&◌, ◌||◌, Option, none, some, List, [], ltb, leb, ◌==◌, if◌then◌else◌, length,
  codes,
}
use remote_wake.Base.Int.{ℤ, pos, ◌-ℤ◌, ltb_ℤ, pos_part, neg_part}
use remote_wake.Json.{Json, is_object}
use remote_wake.B64Url.{decode, ct_equal}
use remote_wake.Auth.Envelope.{
  proto_version, device_id_len, kid_maxlen, id_maxlen, act_maxlen, sig_len, max_envelope_bytes,
  copy_str_field, num_field_i64, signing_string,
}
use remote_wake.Auth.Errors.{AuthErr}
use remote_wake.Auth.Ops.{Ops, Cmd, Env, call_get_key, call_get_ctr, call_set_ctr, call_act_enabled}

module _ (E : Env) where
  open E use {doubles, json, calloc_ok, alloc, verify_detached}

  abbrev pub D : Type 0
  D = doubles.Double

  -- `memset(out, 0, sizeof(*out))`
  abbrev pub no_cmd : Cmd D
  no_cmd = record { id = []; act = []; kid = []; ts = pos 0; ctr = 0; args = none }

  -- The fields that the structural parse puts into local variables.
  pub record Fields : Type 0 where
    pub v : ℤ
    pub dev : List ℕ
    pub sig_b64 : List ℕ

  abbrev text_field : Json D → List ℕ → ℕ → Option (List ℕ)
  text_field = copy_str_field doubles json

  abbrev int_field : Json D → List ℕ → Option ℤ
  int_field = num_field_i64 doubles json

  -- The numbers and `dev`, the first conditions of the structural parse: v, ts, ctr, dev.
  unfoldable pub parse_head : Json D → Option (ℤ × ℤ × ℕ × List ℕ)
  parse_head root = elim (int_field root (codes "v")) [
    | none ↦ none
    | some v ↦ elim (int_field root (codes "ts")) [
      | none ↦ none
      | some ts ↦ elim (int_field root (codes "ctr")) [
        | none ↦ none
        | some ctr ↦
            if ltb_ℤ ctr (pos 1)
            then none
            else elim (text_field root (codes "dev") (device_id_len + 1)) [
              | none ↦ none
              | some dev ↦ some (v, ts, pos_part ctr, dev)
            ]
      ]
    ]
  ]

  -- The texts that go straight into `out`, then `sig` and `args`. What a failed parse leaves in
  -- `out` is part of the result.
  unfoldable pub parse_tail : Json D → ℤ → ℤ → ℕ → List ℕ → Cmd D × Option Fields
  parse_tail root v ts ctr dev = elim (text_field root (codes "id") id_maxlen) [
    | none ↦ (no_cmd, none)
    | some id ↦ elim (text_field root (codes "act") act_maxlen) [
      | none ↦ (record no_cmd { id = id }, none)
      | some act ↦ elim (text_field root (codes "kid") kid_maxlen) [
        | none ↦ (record no_cmd { id = id; act = act }, none)
        | some kid ↦ elim (text_field root (codes "sig") 128) [
          | none ↦ (record no_cmd { id = id; act = act; kid = kid }, none)
          | some sig_b64 ↦
              if is_object (json.get_item root (codes "args"))
              then (
                record {
                  id = id;
                  act = act;
                  kid = kid;
                  ts = ts;
                  ctr = ctr;
                  args = json.get_item root (codes "args");
                },
                some (record { v = v; dev = dev; sig_b64 = sig_b64 }),
              )
              else (record no_cmd { id = id; act = act; kid = kid }, none)
        ]
      ]
    ]
  ]

  unfoldable pub structural : Json D → Cmd D × Option Fields
  unfolding parse_head parse_tail
  structural root = elim (parse_head root) [
    | none ↦ (no_cmd, none)
    | some (v, ts, ctr, dev) ↦ parse_tail root v ts ctr dev
  ]

  -- Step 1: the version, and the device that the envelope is for.
  unfoldable pub check_address : List ℕ → Cmd D → Fields → AuthErr
  check_address device_id c f =
      if ltb_ℤ f.v proto_version || ltb_ℤ proto_version f.v
      then AuthErr.version
      else if not (length f.dev == device_id_len)
          || not (length device_id == device_id_len)
          || not (ct_equal f.dev device_id device_id_len)
      then AuthErr.dev
      else AuthErr.ok

  -- Step 3: the signature over the signing string.
  unfoldable pub check_sig : Cmd D → Fields → List ℕ → AuthErr
  check_sig c f pub_key = elim (decode (some f.sig_b64) (some sig_len)) [
    | none ↦ AuthErr.sig
    | some sig ↦
        if not (length sig == sig_len)
        then AuthErr.sig
        else elim (signing_string doubles calloc_ok alloc f.dev c.id c.ts c.ctr c.act c.args) [
          | none ↦ AuthErr.internal
          | some msg ↦ if verify_detached sig msg pub_key then AuthErr.ok else AuthErr.sig
        ]
  ]

  module _ {S : Type 0} (ops : Ops S) where
    -- Step 4: `|now - ts| > ts_window` on a clock that is valid.
    unfoldable pub check_time : Cmd D → AuthErr
    check_time c =
        let delta = ops.now -ℤ c.ts in
        let size = pos (pos_part delta + neg_part delta) in
        if ops.clock_valid && ltb_ℤ ops.ts_window size then AuthErr.stale else AuthErr.ok

    -- Step 5 and 6: the counter, which is stored before the action is looked at.
    unfoldable pub check_counter : S → Cmd D → S × AuthErr
    check_counter s c = elim (call_get_ctr ops.get_ctr s c.kid) [
      | none ↦ (s, AuthErr.internal)
      | some last ↦
          if leb c.ctr last
          then (s, AuthErr.replay)
          else let (s', stored) = call_set_ctr ops.set_ctr s c.kid c.ctr in
            if not stored
            then (s', AuthErr.internal)
            else if call_act_enabled ops.act_enabled s' c.act
            then (s', AuthErr.ok)
            else (s', AuthErr.unknown_act)
    ]

    -- Steps 2 to 6.
    unfoldable pub check_key : S → Cmd D → Fields → S × AuthErr
    unfolding check_counter
    check_key s c f = elim (call_get_key ops.get_key s c.kid) [
      | none ↦ (s, AuthErr.unknown_key)
      | some pub_key ↦ elim (check_sig c f pub_key) [
        | AuthErr.ok ↦ elim (check_time c) [ AuthErr.ok ↦ check_counter s c | e ↦ (s, e) ]
        | e ↦ (s, e)
      ]
    ]

    -- All steps on a parsed envelope.
    unfoldable pub authorize : List ℕ → S → Cmd D → Fields → S × AuthErr
    unfolding check_key
    authorize device_id s c f = elim (check_address device_id c f) [
      | AuthErr.ok ↦ check_key s c f
      | e ↦ (s, e)
    ]

    -- The label `done`: the arguments stay only in a verified command.
    abbrev pub finish : Cmd D → S × AuthErr → S × AuthErr × Cmd D
    finish c (s, AuthErr.ok) = (s, AuthErr.ok, c)
    finish c (s, e) = (s, e, record c { args = none })

    abbrev pub on_fields : List ℕ → S → Cmd D × Option Fields → S × AuthErr × Cmd D
    on_fields device_id s (c, none) = (s, AuthErr.bad_json, c)
    on_fields device_id s (c, some f) = finish c (authorize device_id s c f)

    abbrev pub on_root : List ℕ → S → Option (Json D) → S × AuthErr × Cmd D
    on_root device_id s (some (Json.obj ms)) = on_fields device_id s (structural (Json.obj ms))
    on_root device_id s _ = (s, AuthErr.bad_json, no_cmd)

    -- The whole call: the store after it, its result, and what it leaves in `out`.
    unfoldable pub verify : S → List ℕ → S × AuthErr × Cmd D
    verify s text = elim ops.device_id [
      | none ↦ (s, AuthErr.internal, no_cmd)
      | some device_id ↦
          if (length text == 0) || ltb max_envelope_bytes (length text)
          then (s, AuthErr.bad_json, no_cmd)
          else on_root device_id s (json.parse text)
    ]
