-- ===== src/OtaManifest/Tests.antt =====
-- The manifest of a release that follows the running image, and URLs under a source.
use remote_wake.Base.{
  ℕ, ◌≡◌, refl, true, false, Option, none, some, List, [], ◌∷◌, ◌++◌, ◌==◌, if◌then◌else◌, codes,
  length, replicate,
}
use remote_wake.Base.Int.{ℤ, pos}
use remote_wake.Base.Results.{ok}
use remote_wake.Json.{Json}
use remote_wake.B64Url.{
  encode, decode, strip_padding, dec_loop, dec_one, prepend, dec_end, push_digit,
}
use remote_wake.Auth.Tests.{env, members_of, text_value}
use remote_wake.OtaManifest.Text.{
  Identity, identity_magic, identity_valid, tuple_equal, has, url_in_source,
}
use remote_wake.OtaManifest.Flat.{flat_object, text_field, number_field, decode_canonical}
use remote_wake.OtaManifest.Verify.{Config, Setting, Manifest, manifest_verify}
use remote_wake.OtaManifest.Trusted.{IsTrusted, manifest_verify-ok}

-- The image with a given release.
abbrev pub image : ℕ → Identity
image release = record {
  magic = identity_magic;
  format_version = 1;
  updater_api = 1;
  release = release;
  product = codes "wake";
  board = codes "s3";
  profile = codes "full";
  channel = codes "stable";
  layout = codes "ab";
  version = codes "v2";
  chip = codes "esp32s3";
}

abbrev source : List ℕ
source = codes "https://up.example/fw/"

abbrev place : List ℕ
place = source ++ codes "2.bin"

abbrev number : ℕ → Json ℤ
number n = Json.num (pos n)

abbrev payload_fields : List (List ℕ × Json ℤ)
payload_fields =
    (codes "v", number 1)
    ∷ (codes "min_updater", number 1)
    ∷ (codes "release", number 8)
    ∷ (codes "product", text_value (codes "wake"))
    ∷ (codes "board", text_value (codes "s3"))
    ∷ (codes "profile", text_value (codes "full"))
    ∷ (codes "channel", text_value (codes "stable"))
    ∷ (codes "layout", text_value (codes "ab"))
    ∷ (codes "version", text_value (codes "v2"))
    ∷ (codes "chip", text_value (codes "esp32s3"))
    ∷ (codes "url", text_value place)
    ∷ (codes "sha256", text_value (replicate 64 b'0'))
    ∷ (codes "size", number 1000)
    ∷ (codes "min_flash", number 4096)
    ∷ (codes "min_psram", number 0)
    ∷ (codes "published", number 1800000000)
    ∷ (codes "expires", number 1900000000)
    ∷ (codes "key_generation", number 1)
    ∷ []

abbrev envelope_fields : List (List ℕ × Json ℤ)
envelope_fields =
    (codes "v", number 1)
    ∷ (codes "kid", text_value (codes "k1"))
    ∷ (codes "payload", text_value (codes "eyB9"))
    ∷ (codes "sig", text_value (replicate 86 b'A'))
    ∷ []

-- The envelope is "{}" and its payload is "{ }".
abbrev pub read_opts : List ℕ → Option (Json ℤ × ℕ)
read_opts text =
    if length text == 2
    then some (Json.obj (members_of envelope_fields), 2)
    else if length text == 3
    then some (Json.obj (members_of payload_fields), 3)
    else none

abbrev pub trusting : Config
trusting = record {
  image_identity = some (image 7);
  trusted_keys = record { kid = codes "k1"; generation = 1; public_key = replicate 32 7 } ∷ [];
  source_prefix = some source;
}

abbrev setting : Setting
setting = record {
  clock_valid = true;
  now = pos 1800000100;
  flash_size = 8192;
  psram_size = 0;
  release_floor = 7;
}

abbrev pub release_eight : Manifest
release_eight = record {
  identity = image 8;
  url = place;
  sha256 = replicate 32 0;
  size = 1000;
  min_flash = 4096;
  min_psram = 0;
  published = 1800000000;
  expires = 1900000000;
  key_generation = 1;
}

in_source : url_in_source (some place) (some source) ≡ true
unfolding url_in_source
in_source = refl

-- The manifest is accepted.
accepts_eight :
    manifest_verify env read_opts (some trusting) (codes "{}") setting ≡ ok release_eight
unfolding manifest_verify identity_valid flat_object has number_field text_field decode_canonical
    decode dec_loop strip_padding dec_one prepend dec_end push_digit encode tuple_equal
    url_in_source
accepts_eight = refl

-- The signature verifies under the listed key.
manifest_verify-ok_example : IsTrusted env read_opts trusting (codes "{}") setting release_eight
manifest_verify-ok_example =
    manifest_verify-ok env read_opts trusting (codes "{}") setting release_eight accepts_eight

-- A climbing path is refused.
refuses_climbing : url_in_source (some (source ++ codes "a/..")) (some source) ≡ false
unfolding url_in_source
refuses_climbing = refl
