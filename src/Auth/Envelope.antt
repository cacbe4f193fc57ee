-- ===== src/Auth/Envelope.antt =====
-- The envelope's fields and the string that is signed.
use remote_wake.Base.{
  ℕ, Bool, not, ◌||◌, Option, none, some, List, [], ◌∷◌, ltb, leb, ◌==◌, if◌then◌else◌, length,
  codes,
}
use remote_wake.Base.Int.{ℤ, pos, negsuc}
use remote_wake.Json.{Doubles, Json, string_of, number_of}
use remote_wake.CanonJson.{Chunk, write, run_chunks, putu, puti, emit, empty}

abbrev pub proto_version : ℤ
proto_version = pos 1

abbrev pub device_id_len : ℕ
device_id_len = 16

abbrev pub kid_maxlen : ℕ
kid_maxlen = 8

abbrev pub id_maxlen : ℕ
id_maxlen = 64

abbrev pub act_maxlen : ℕ
act_maxlen = 24

abbrev pub max_envelope_bytes : ℕ
max_envelope_bytes = 4096

abbrev pub sig_len : ℕ
sig_len = 64

-- What the JSON library does, as far as the code calls it: `cJSON_ParseWithLength`, and
-- `cJSON_GetObjectItemCaseSensitive`.
pub record JsonLib (D : Type 0) : Type 0 where
  pub parse : List ℕ → Option (Json D)
  pub get_item : Json D → List ℕ → Option (Json D)

module _ (F : Doubles) (L : JsonLib F.Double) where
  open F use {Double, is_nan, is_inf, lt, eq, trunc, of_int, to_int}
  open L use {parse, get_item}

  -- `copy_str_field` into a buffer of `size` bytes: `none` is `false`.
  unfoldable pub copy_str_field : Json Double → List ℕ → ℕ → Option (List ℕ)
  copy_str_field root name size = elim (string_of (get_item root name)) [
    | none ↦ none
    | some s ↦ if (length s == 0) || leb size (length s) then none else some s
  ]

  -- 9007199254740991.0 and its negation.
  abbrev max_safe : Double
  max_safe = of_int (pos 9007199254740991)

  abbrev min_safe : Double
  min_safe = of_int (negsuc 9007199254740990)

  unfoldable pub num_field_i64 : Json Double → List ℕ → Option ℤ
  num_field_i64 root name = elim (number_of (get_item root name)) [
    | none ↦ none
    | some d ↦
        if is_nan d || is_inf d || lt max_safe d || lt d min_safe || not (eq d (trunc d))
        then none
        else some (to_int d)
  ]

  -- `rw_auth_peek_id`: what it writes to a buffer of `size` bytes, which is not empty.
  unfoldable pub peek_id : List ℕ → ℕ → List ℕ
  unfolding copy_str_field
  peek_id json size =
      if (length json == 0) || ltb max_envelope_bytes (length json) then [] else elim (parse json) [
        | none ↦ []
        | some root ↦ elim (copy_str_field root (codes "id") size) [ none ↦ [] | some id ↦ id ]
      ]

-- The calls that `rw_auth_signing_string` makes on its buffer.
module _ (F : Doubles) (calloc_ok : ℕ → Bool) where
  unfoldable pub signing_chunks :
      List ℕ → List ℕ → ℤ → ℕ → List ℕ → Option (Json F.Double) → List Chunk
  signing_chunks dev id ts ctr act args =
      write (codes "remote-wake-v1")
      ∷ write (10 ∷ [])
      ∷ write dev
      ∷ write (10 ∷ [])
      ∷ write id
      ∷ write (10 ∷ [])
      ∷ write (puti ts)
      ∷ write (10 ∷ [])
      ∷ write (putu ctr)
      ∷ write (10 ∷ [])
      ∷ write act
      ∷ write (10 ∷ [])
      ∷ args_chunks args
    where
      args_chunks : Option (Json F.Double) → List Chunk
      args_chunks none = write (codes "{}") ∷ []
      args_chunks (some j) = emit F calloc_ok j

  -- `none` is NULL: an allocation failed.
  unfoldable pub signing_string :
      (ℕ → Bool) → List ℕ → List ℕ → ℤ → ℕ → List ℕ → Option (Json F.Double) → Option (List ℕ)
  unfolding signing_chunks run_chunks
  signing_string alloc dev id ts ctr act args =
      let sb = run_chunks alloc empty (signing_chunks dev id ts ctr act args) in
      if sb.err then none else sb.buf
