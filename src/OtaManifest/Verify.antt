-- ===== src/OtaManifest/Verify.antt =====
-- `rw_ota_manifest_verify` of firmware/main/ota_manifest.c. `out` is never NULL: its callers pass an
-- object. What a failed call leaves in `out` is not modelled.
use remote_wake.Base.{
  ℕ, ◌+◌, ◌-◌, ◌*◌, Bool, false, not, ◌&&◌, List, [], ◌∷◌, ◌++◌, Option, some, none, ltb, leb, ◌==◌,
  if◌then◌else◌, length, codes, bytes_eq,
}
use remote_wake.Base.Int.{ℤ, pos, ltb_ℤ, ◌+ℤ◌}
use remote_wake.Base.Results.{Result, ok, err, ◌>>=◌, ◌>>◌, require, or_err}
use remote_wake.Json.{Json, string_of}
use remote_wake.Auth.Ops.{Env}
use remote_wake.Auth.Verify.{D}
use remote_wake.OtaManifest.Text.{
  Identity, identity_magic, identity_valid, tuple_equal, url_in_source,
}
use remote_wake.OtaManifest.Flat.{flat_object, text_field, number_field, decode_canonical}

-- The results of `esp_err_t` other than ESP_OK.
pub data Esp : Type 0 where
  invalid_arg invalid_state invalid_crc not_supported no_mem : Esp

-- `rw_ota_trusted_key_t`
pub record TrustedKey : Type 0 where
  pub kid : List ℕ
  pub generation : ℕ
  pub public_key : List ℕ

-- What is read of `rw_ota_config_t`; `trusted_key_count` is the length of the list.
pub record Config : Type 0 where
  pub image_identity : Option Identity
  pub trusted_keys : List TrustedKey
  pub source_prefix : Option (List ℕ)

-- `rw_ota_manifest_t`
pub record Manifest : Type 0 where
  pub identity : Identity
  pub url : List ℕ
  pub sha256 : List ℕ
  pub size : ℕ
  pub min_flash : ℕ
  pub min_psram : ℕ
  pub published : ℕ
  pub expires : ℕ
  pub key_generation : ℕ

-- The other arguments.
pub record Setting : Type 0 where
  pub clock_valid : Bool
  pub now : ℤ
  pub flash_size : ℕ
  pub psram_size : ℕ
  pub release_floor : ℕ

-- What the envelope holds: `kid`, `sig` and the decoded payload.
pub record Envelope : Type 0 where
  pub kid : List ℕ
  pub sig : List ℕ
  pub raw : List ℕ

unfoldable pub find_key : List TrustedKey → List ℕ → Option TrustedKey
find_key [] kid = none
find_key (k ∷ ks) kid = if bytes_eq k.kid kid then some k else find_key ks kid

abbrev pub hex_value : ℕ → Option ℕ
hex_value c =
    if leb 48 c && leb c 57
    then some (c - 48)
    else if leb 97 c && leb c 102
    then some (c - 97 + 10)
    else none

-- The loop over the digits of the hash; it is a text of 64.
unfoldable pub unhex : List ℕ → Option (List ℕ)
unhex (a ∷ b ∷ rest) = elim (hex_value a) [
  | none ↦ none
  | some high ↦ elim (hex_value b) [
    | none ↦ none
    | some low ↦ elim (unhex rest) [ none ↦ none | some bytes ↦ some ((high * 16 + low) ∷ bytes) ]
  ]
]
unhex _ = some []

abbrev pub signature_domain : List ℕ
signature_domain = codes "remote-wake-firmware-v1" ++ (10 ∷ [])

abbrev pub max : ℕ → ℕ → ℕ
max a b = if ltb b a then a else b

-- Of the running image; only read where the identity is there.
abbrev pub own_release : Option Identity → ℕ
own_release none = 0
own_release (some i) = i.release

abbrev pub same_tuple : Identity → Option Identity → Bool
same_tuple i none = false
same_tuple i (some own) = tuple_equal i own

module _ (E : Env) (parse_opts : List ℕ → Option (Json (D E) × ℕ)) where
  open E use {json, alloc, verify_detached}

  abbrev text_of : Json (D E) → List ℕ → ℕ → Result Esp (List ℕ)
  text_of root name size = or_err (text_field E parse_opts root name size) Esp.invalid_arg

  abbrev number_of : Json (D E) → List ℕ → Result Esp ℕ
  number_of root name = or_err (number_field E parse_opts root name) Esp.invalid_arg

  -- From the start to the decoded payload. A result of `decode` of no bytes is an error.
  unfoldable pub open_envelope : List ℕ → Result Esp Envelope
  open_envelope text = do
    root ← or_err (flat_object E parse_opts text 4) Esp.invalid_arg
    v ← number_of root (codes "v")
    require (v == 1) Esp.invalid_arg
    kid ← text_of root (codes "kid") 16
    encoded ← or_err (string_of (json.get_item root (codes "payload"))) Esp.invalid_arg
    signature ← or_err (string_of (json.get_item root (codes "sig"))) Esp.invalid_arg
    sig ← or_err (decode_canonical E parse_opts signature 64) Esp.invalid_arg
    require (length sig == 64) Esp.invalid_arg
    require (alloc 3073) Esp.no_mem
    raw ← or_err (decode_canonical E parse_opts encoded 3072) Esp.invalid_arg
    require (ltb 0 (length raw)) Esp.invalid_arg
    ok (record { kid = kid; sig = sig; raw = raw })

  -- The key, and the signature over the domain and the payload.
  unfoldable pub check_signature : List TrustedKey → Envelope → Result Esp TrustedKey
  unfolding find_key
  check_signature keys e = do
    require (leb (length keys) 4) Esp.invalid_arg
    key ← or_err (find_key keys e.kid) Esp.not_supported
    require (alloc (length signature_domain + length e.raw)) Esp.no_mem
    require (verify_detached e.sig (signature_domain ++ e.raw) key.public_key) Esp.invalid_crc
    ok key

  unfoldable pub read_identity : Json (D E) → Result Esp Identity
  read_identity payload = do
    v ← number_of payload (codes "v")
    require (v == 1) Esp.invalid_arg
    updater_api ← number_of payload (codes "min_updater")
    release ← number_of payload (codes "release")
    product ← text_of payload (codes "product") 32
    board ← text_of payload (codes "board") 32
    profile ← text_of payload (codes "profile") 48
    channel ← text_of payload (codes "channel") 16
    layout ← text_of payload (codes "layout") 32
    version ← text_of payload (codes "version") 32
    chip ← text_of payload (codes "chip") 16
    ok (record {
      magic = identity_magic;
      format_version = 1;
      updater_api = updater_api;
      release = release;
      product = product;
      board = board;
      profile = profile;
      channel = channel;
      layout = layout;
      version = version;
      chip = chip;
    })

  unfoldable pub read_payload : List ℕ → Result Esp Manifest
  unfolding read_identity unhex
  read_payload raw = do
    payload ← or_err (flat_object E parse_opts raw 18) Esp.invalid_arg
    identity ← read_identity payload
    url ← text_of payload (codes "url") 512
    hash ← text_of payload (codes "sha256") 65
    require (length hash == 64) Esp.invalid_arg
    size ← number_of payload (codes "size")
    min_flash ← number_of payload (codes "min_flash")
    min_psram ← number_of payload (codes "min_psram")
    published ← number_of payload (codes "published")
    expires ← number_of payload (codes "expires")
    key_generation ← number_of payload (codes "key_generation")
    sha256 ← or_err (unhex hash) Esp.invalid_arg
    ok (record {
      identity = identity;
      url = url;
      sha256 = sha256;
      size = size;
      min_flash = min_flash;
      min_psram = min_psram;
      published = published;
      expires = expires;
      key_generation = key_generation;
    })

  unfoldable pub compatible : Config → Setting → TrustedKey → Manifest → Bool
  compatible config s key m =
      identity_valid (some m.identity)
      && same_tuple m.identity config.image_identity
      && (m.key_generation == key.generation)
      && not (ltb s.flash_size m.min_flash)
      && not (ltb s.psram_size m.min_psram)
      && not (m.size == 0)
      && url_in_source (some m.url) config.source_prefix

  -- The times are compared as 64-bit numbers; `now` is positive here.
  unfoldable pub current : Config → Setting → Manifest → Bool
  current config s m =
      ltb (max s.release_floor (own_release config.image_identity)) m.identity.release
      && not (ltb_ℤ (s.now +ℤ pos 300) (pos m.published))
      && ltb_ℤ s.now (pos m.expires)
      && ltb m.published m.expires

  -- From the search for the key on.
  unfoldable pub accept : Config → Setting → Envelope → Result Esp Manifest
  unfolding check_signature read_payload compatible current
  accept config s e = do
    key ← check_signature config.trusted_keys e
    m ← read_payload e.raw
    require (compatible config s key m) Esp.not_supported
    require (current config s m) Esp.invalid_state
    ok m

  unfoldable pub manifest_verify : Option Config → List ℕ → Setting → Result Esp Manifest
  unfolding open_envelope accept
  manifest_verify none text s = err Esp.invalid_arg
  manifest_verify (some config) text s = do
    require
        (identity_valid config.image_identity && not (length text == 0) && leb (length text) 6144)
        Esp.invalid_arg
    require (s.clock_valid && not (ltb_ℤ s.now (pos 1700000000))) Esp.invalid_state
    e ← open_envelope text
    accept config s e
