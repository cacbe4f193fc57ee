-- ===== src/OtaManifest/Flat.antt =====
-- `flat_object` of firmware/main/ota_manifest.c, and the fields that are read from its result.
use remote_wake.Base.{
  ℕ, ◌+◌, Bool, true, false, not, ◌&&◌, ◌||◌, List, [], ◌∷◌, Option, some, none, ltb, leb, ◌==◌,
  if◌then◌else◌, length, bytes_eq, drop,
}
use remote_wake.Base.Int.{pos, pos_part}
use remote_wake.Json.{Json, Members, string_of, number_of}
use remote_wake.Auth.Ops.{Env}
use remote_wake.Auth.Verify.{D}
use remote_wake.B64Url.{enc_len, encode}
use remote_wake.B64Url as Base64
use remote_wake.OtaManifest.Text.{is_alnum, has, bounded_text}

abbrev pub is_space : ℕ → Bool
is_space c = (leb 9 c && leb c 13) || (c == 32)

-- The variables of the scan.
pub record Scan : Type 0 where
  pub string : Bool
  pub escape : Bool
  pub depth : ℕ

-- `none` is `return NULL`.
unfoldable pub scan_step : Scan → ℕ → Option Scan
scan_step s c =
    if ltb 126 c || (not s.string && ltb c 32 && not (is_space c))
    then none
    else if s.string
    then if s.escape
      then (if c == b'u' then none else some (record s { escape = false }))
      else if c == 92
      then some (record s { escape = true })
      else if c == 34
      then some (record s { string = false })
      else some s
    else if c == 34
    then some (record s { string = true })
    else if c == b'{'
    then (if s.depth == 0 then some (record s { depth = 1 }) else none)
    else if c == b'}'
    then (if s.depth == 1 then some (record s { depth = 0 }) else none)
    else if (c == b'[') || (c == b']')
    then none
    else some s

unfoldable pub scan_from : Scan → List ℕ → Option Scan
unfolding scan_step
scan_from s [] = some s
scan_from s (c ∷ cs) = elim (scan_step s c) [ none ↦ none | some t ↦ scan_from t cs ]

unfoldable pub closed : Option Scan → Bool
closed none = false
closed (some s) = not s.string && (s.depth == 0)

unfoldable pub scans : List ℕ → Bool
unfolding scan_from closed
scans text = closed (scan_from (record { string = false; escape = false; depth = 0 }) text)

unfoldable pub all_space : List ℕ → Bool
all_space [] = true
all_space (c ∷ cs) = is_space c && all_space cs

abbrev pub is_count : Option ℕ → ℕ → Bool
is_count none n = false
is_count (some m) n = m == n

module _ {D : Type 0} where
  abbrev pub is_scalar : Json D → Bool
  is_scalar (Json.str s) = true
  is_scalar (Json.num d) = true
  is_scalar _ = false

  -- Whether the key stands among the members; their keys are never NULL in an object.
  unfoldable pub key_in : List ℕ → Members D → Bool
  key_in k Members.end = false
  key_in k (Members.member a none j ms) = key_in k ms
  key_in k (Members.member a (some l) j ms) = bytes_eq k l || key_in k ms

  -- The number of members, or `none` for `goto bad`.
  unfoldable pub flat_count : Members D → ℕ → Option ℕ
  unfolding key_in
  flat_count Members.end count = some count
  flat_count (Members.member a none j ms) count = none
  flat_count (Members.member a (some k) j ms) count =
      let rest = flat_count ms (count + 1) in
      if not (is_scalar j) || key_in k ms then none else rest

  abbrev pub root_members : Option (Json D × ℕ) → Option (Members D × ℕ)
  root_members (some (Json.obj ms, end)) = some (ms, end)
  root_members _ = none

-- `parse_opts` is `cJSON_ParseWithLengthOpts`: the value, and where it ends.
module _ (E : Env) (parse_opts : List ℕ → Option (Json (D E) × ℕ)) where
  open E use {doubles, json, alloc}
  open doubles use {Double, is_nan, is_inf, lt, eq, floor, of_int, to_int}

  unfoldable pub flat_object : List ℕ → ℕ → Option (Json Double)
  unfolding scans flat_count all_space
  flat_object text expected =
      if (length text == 0) || has 0 text || not (scans text)
      then none
      else elim (root_members (parse_opts text)) [
        | none ↦ none
        | some (ms, end) ↦
            if all_space (drop end text) && is_count (flat_count ms 0) expected
            then some (Json.obj ms)
            else none
      ]

  -- `text`: what it copies out, or `none` for `false`.
  unfoldable pub text_field : Json Double → List ℕ → ℕ → Option (List ℕ)
  text_field root name size = elim (string_of (json.get_item root name)) [
    | none ↦ none
    | some s ↦ if bounded_text (some s) size false then some s else none
  ]

  unfoldable pub number_field : Json Double → List ℕ → Option ℕ
  number_field root name = elim (number_of (json.get_item root name)) [
    | none ↦ none
    | some d ↦
        if is_nan d
          || is_inf d
          || lt d (of_int (pos 0))
          || lt (of_int (pos 4294967295)) d
          || not (eq (floor d) d)
        then none
        else some (pos_part (to_int d))
  ]

  unfoldable pub url_chars : List ℕ → Bool
  url_chars [] = true
  url_chars (c ∷ cs) = (is_alnum c || (c == b'-') || (c == b'_')) && url_chars cs

  abbrev pub same_text : Option (List ℕ) → List ℕ → Bool
  same_text none text = false
  same_text (some s) text = bytes_eq s text

  -- `decode`: the bytes, or `none` for -1. Only the canonical text of some bytes is taken.
  unfoldable pub decode_canonical : List ℕ → ℕ → Option (List ℕ)
  unfolding url_chars
  decode_canonical text capacity =
      if (length text == 0) || ltb (enc_len capacity) (length text) || not (url_chars text)
      then none
      else elim (Base64.decode (some text) (some capacity)) [
        | none ↦ none
        | some bytes ↦
            if alloc (length text + 1)
              && same_text (encode (some bytes) (some (length text + 1))) text
            then some bytes
            else none
      ]
