-- ===== src/OtaManifest/Trusted.antt =====
-- What a manifest that is accepted has been through.
use remote_wake.Base.{
  ℕ, ◌+◌, ◌≤◌, ◌<◌, ◌≡◌, ap, subst, ◌∙◌, ◌⊎◌, inl, inr, refl, true, not, ◌&&◌, List, [], ◌∷◌, ◌++◌,
  Option, some, none, leb, ◌==◌, length, bytes_eq, bytes_eq→eq, Bool-cases, arith,
}
use remote_wake.Base.Int.{pos, ltb_ℤ, ◌+ℤ◌, ◌≤ℤ◌}
use remote_wake.Base.Results.{ok, require, or_err, >>=-eq_ok, require-eq_ok, or_err-eq_ok}
use remote_wake.Json.{Json}
use remote_wake.Auth.Ops.{Env}
use remote_wake.Auth.Verify.{D}
use remote_wake.OtaManifest.Text.{Identity, identity_valid, tuple_equal, url_in_source}
use remote_wake.OtaManifest.Verify.{
  Esp, TrustedKey, Config, Manifest, Setting, Envelope, find_key, signature_domain, open_envelope,
  check_signature, read_payload, compatible, current, accept, manifest_verify,
}

-- A key of the list.
abbrev pub Listed : TrustedKey → List TrustedKey → Type 0
Listed key [] = ⊥
Listed key (k ∷ ks) = (key ≡ k) ⊎ Listed key ks

find_key-Listed :
    (keys : List TrustedKey) (kid : List ℕ) (key : TrustedKey)
    → find_key keys kid ≡ some key
    → Listed key keys × (key.kid ≡ kid)
unfolding find_key
find_key-Listed [] kid key h = absurd (ground arith)
find_key-Listed (k ∷ ks) kid key h = elim (Bool-cases (bytes_eq k.kid kid)) [
  | inl same ↦
      let this : k ≡ key = ground arith in
      (inl (ground arith), rw (← this) (bytes_eq→eq k.kid kid same))
  | inr other ↦
      let (listed, named) = find_key-Listed ks kid key (ground arith) in (inr listed, named)
]

-- The images that may replace each other have these in common.
pub record SameDevice (a b : Identity) : Type 0 where
  pub product : a.product ≡ b.product
  pub board : a.board ≡ b.board
  pub profile : a.profile ≡ b.profile
  pub channel : a.channel ≡ b.channel
  pub layout : a.layout ≡ b.layout
  pub chip : a.chip ≡ b.chip

tuple_equal-SameDevice : (a b : Identity) → tuple_equal a b ≡ true → SameDevice a b
unfolding tuple_equal
tuple_equal-SameDevice a b h = record {
  product = bytes_eq→eq a.product b.product (ground arith);
  board = bytes_eq→eq a.board b.board (ground arith);
  profile = bytes_eq→eq a.profile b.profile (ground arith);
  channel = bytes_eq→eq a.channel b.channel (ground arith);
  layout = bytes_eq→eq a.layout b.layout (ground arith);
  chip = bytes_eq→eq a.chip b.chip (ground arith);
}

module _ (E : Env) (parse_opts : List ℕ → Option (Json (D E) × ℕ)) where
  -- The signed payload of the text says just what the manifest holds.
  pub record IsSignedBy (keys : List TrustedKey) (text : List ℕ) (key : TrustedKey) (m : Manifest)
      : Type 0 where
    pub envelope : Envelope
    pub opened : open_envelope E parse_opts text ≡ ok envelope
    pub listed : Listed key keys
    pub named : key.kid ≡ envelope.kid
    pub verifies :
        E.verify_detached envelope.sig (signature_domain ++ envelope.raw) key.public_key ≡ true
    pub read : read_payload E parse_opts envelope.raw ≡ ok m

  check_signature-ok :
      (keys : List TrustedKey) (e : Envelope) (key : TrustedKey)
      → check_signature E parse_opts keys e ≡ ok key
      → (find_key keys e.kid ≡ some key)
        × (E.verify_detached e.sig (signature_domain ++ e.raw) key.public_key ≡ true)
  unfolding check_signature
  check_signature-ok keys e key h =
      let (_, few, h₁) = >>=-eq_ok (require (leb (length keys) 4) Esp.invalid_arg) _ h in
      let (found, listed, h₂) = >>=-eq_ok (or_err (find_key keys e.kid) Esp.not_supported) _ h₁ in
      let (_, room, h₃) =
        >>=-eq_ok (require (E.alloc (length signature_domain + length e.raw)) Esp.no_mem) _ h₂ in
      let (_, good, h₄) =
        >>=-eq_ok
          (require (E.verify_detached e.sig (signature_domain ++ e.raw) found.public_key)
            Esp.invalid_crc)
          _ h₃ in
      let this : found ≡ key = ground arith in
      rw (← this) (
        or_err-eq_ok (find_key keys e.kid) Esp.not_supported listed,
        require-eq_ok _ Esp.invalid_crc good,
      )

  -- What an accepted manifest is: signed by a trusted key of the right generation, for this device,
  -- newer than the running image and the floor, within its time, and to be had from the source.
  pub record IsTrusted (config : Config) (text : List ℕ) (s : Setting) (m : Manifest) : Type 0 where
    pub own : Identity
    pub running : config.image_identity ≡ some own
    pub bounded : (1 ≤ length text) × (length text ≤ 6144)
    pub key : TrustedKey
    pub signed : IsSignedBy config.trusted_keys text key m
    pub generation : m.key_generation ≡ key.generation
    pub same_device : SameDevice m.identity own
    pub fits : (m.min_flash ≤ s.flash_size) × (m.min_psram ≤ s.psram_size) × (1 ≤ m.size)
    pub from_source : url_in_source (some m.url) config.source_prefix ≡ true
    pub clock_valid : s.clock_valid ≡ true
    pub newer : (own.release < m.identity.release) × (s.release_floor < m.identity.release)
    pub in_time : (pos m.published ≤ℤ (s.now +ℤ pos 300)) × (ltb_ℤ s.now (pos m.expires) ≡ true)

  compatible-parts :
      (config : Config) (own : Identity) (s : Setting) (key : TrustedKey) (m : Manifest)
      → config.image_identity ≡ some own
      → compatible E parse_opts config s key m ≡ true
      → (tuple_equal m.identity own ≡ true)
        × (m.key_generation ≡ key.generation)
        × ((m.min_flash ≤ s.flash_size) × (m.min_psram ≤ s.psram_size) × (1 ≤ m.size))
        × (url_in_source (some m.url) config.source_prefix ≡ true)
  unfolding compatible
  compatible-parts config own s key m e h = ground arith

  current-parts :
      (config : Config) (own : Identity) (s : Setting) (m : Manifest)
      → config.image_identity ≡ some own
      → current E parse_opts config s m ≡ true
      → ((own.release < m.identity.release) × (s.release_floor < m.identity.release))
        × ((pos m.published ≤ℤ (s.now +ℤ pos 300)) × (ltb_ℤ s.now (pos m.expires) ≡ true))
  unfolding current
  current-parts config own s m e h = ground arith

  identity_there :
      (i : Option Identity) → identity_valid i ≡ true → (own : Identity) × (i ≡ some own)
  unfolding identity_valid
  identity_there none h = absurd (ground arith)
  identity_there (some own) h = (own, refl)

  accept-ok :
      (config : Config) (s : Setting) (e : Envelope) (m : Manifest)
      → accept E parse_opts config s e ≡ ok m
      → (key : TrustedKey) × (check_signature E parse_opts config.trusted_keys e ≡ ok key)
        × (read_payload E parse_opts e.raw ≡ ok m)
        × (compatible E parse_opts config s key m ≡ true)
        × (current E parse_opts config s m ≡ true)
  unfolding accept
  accept-ok config s e m h =
      let (key, checked, h₁) = >>=-eq_ok (check_signature E parse_opts config.trusted_keys e) _ h in
      let (n, read, h₂) = >>=-eq_ok (read_payload E parse_opts e.raw) _ h₁ in
      let (_, fit, h₃) =
        >>=-eq_ok (require (compatible E parse_opts config s key n) Esp.not_supported) _ h₂ in
      let (_, fresh, h₄) =
        >>=-eq_ok (require (current E parse_opts config s n) Esp.invalid_state) _ h₃ in
      let this : n ≡ m = ground arith in
      (
        key,
        checked,
        read ∙ ap ok this,
        subst (λ x. compatible E parse_opts config s key x ≡ true) this
            (require-eq_ok _ Esp.not_supported fit),
        subst (λ x. current E parse_opts config s x ≡ true) this
            (require-eq_ok _ Esp.invalid_state fresh),
      )

  -- The envelope and the key make the signed manifest.
  accept-IsTrusted :
      (config : Config) (own : Identity) (text : List ℕ) (s : Setting) (e : Envelope) (m : Manifest)
      → config.image_identity ≡ some own
      → (1 ≤ length text) × (length text ≤ 6144)
      → s.clock_valid ≡ true
      → open_envelope E parse_opts text ≡ ok e
      → accept E parse_opts config s e ≡ ok m
      → IsTrusted config text s m
  accept-IsTrusted config own text s e m running bounded clock opened h =
      let (key, checked, read, fit, fresh) = accept-ok config s e m h in
      let (found, verifies) = check_signature-ok config.trusted_keys e key checked in
      let (listed, named) = find_key-Listed config.trusted_keys e.kid key found in
      let (same, generation, fits, source) = compatible-parts config own s key m running fit in
      let (newer, in_time) = current-parts config own s m running fresh in
      record {
        own = own;
        running = running;
        bounded = bounded;
        key = key;
        signed = record {
          envelope = e;
          opened = opened;
          listed = listed;
          named = named;
          verifies = verifies;
          read = read;
        };
        generation = generation;
        same_device = tuple_equal-SameDevice m.identity own same;
        fits = fits;
        from_source = source;
        clock_valid = clock;
        newer = newer;
        in_time = in_time;
      }

  -- Only a trusted manifest is ever accepted: when the verification succeeds, the text is an envelope
  -- of 1 to 6144 bytes whose payload says just what the manifest holds and is signed by a trusted key
  -- of the right generation; the image is for this device and fits it, comes from the source, is
  -- newer than the running image and the floor, and the clock is valid and the time right.
  pub manifest_verify-ok :
      (config : Config) (text : List ℕ) (s : Setting) (m : Manifest)
      → manifest_verify E parse_opts (some config) text s ≡ ok m
      → IsTrusted config text s m
  unfolding manifest_verify
  manifest_verify-ok config text s m h =
      let (_, start, h₁) =
        >>=-eq_ok
          (require
            (identity_valid config.image_identity
              && not (length text == 0)
              && leb (length text) 6144)
            Esp.invalid_arg)
          _ h in
      let (_, clock, h₂) =
        >>=-eq_ok (require (s.clock_valid && not (ltb_ℤ s.now (pos 1700000000))) Esp.invalid_state)
          _ h₁ in
      let (e, opened, h₃) = >>=-eq_ok (open_envelope E parse_opts text) _ h₂ in
      let started = require-eq_ok _ Esp.invalid_arg start in
      let ticking = require-eq_ok _ Esp.invalid_state clock in
      let (own, running) = identity_there config.image_identity (ground arith) in
      accept-IsTrusted config own text s e m running (ground arith) (ground arith) opened h₃
