-- ===== src/OtaWorker/Image.antt =====
-- The image of an update, firmware/main/ota.c, `validate_identity`: the loadable segments are read in
-- blocks and searched for the identity record. The layout of an image is that of ESP-IDF, a parameter.
use remote_wake.Base.{
  ℕ, zero, suc, ◌+◌, ◌-◌, ◌*◌, Bool, false, not, ◌||◌, List, [], ◌∷◌, ◌++◌, Option, some, none, ltb,
  ◌==◌, if◌then◌else◌, length, get_or, take, drop, bytes_eq,
}
use remote_wake.Base.Results.{Result, ok, err, ◌>>=◌, ◌>>◌, require}
use remote_wake.OtaManifest.Text.{
  Identity, identity_magic, identity_valid, tuple_equal, starts_with,
}
use remote_wake.OtaManifest.Verify.{Manifest}

-- The results of `esp_err_t` other than ESP_OK.
pub data Fault : Type 0 where
  fail invalid_arg invalid_state invalid_size invalid_crc no_mem not_supported timeout
        validate_failed other :
      Fault

-- Four bytes, the least significant first.
abbrev u32_at : ℕ → List ℕ → ℕ
u32_at i bytes =
    get_or bytes i 0
    + 256 * get_or bytes (i + 1) 0
    + 65536 * get_or bytes (i + 2) 0
    + 16777216 * get_or bytes (i + 3) 0

abbrev before_nul : List ℕ → List ℕ
before_nul [] = []
before_nul (c ∷ s) = if c == 0 then [] else c ∷ before_nul s

-- A text array of a structure.
abbrev array_at : ℕ → ℕ → List ℕ → List ℕ
array_at i size bytes = before_nul (take size (drop i bytes))

-- `memcpy(&id, buffer + p, sizeof(id))`
unfoldable pub identity_of : List ℕ → Identity
identity_of bytes = record {
  magic = take 16 bytes;
  format_version = u32_at 16 bytes;
  updater_api = u32_at 20 bytes;
  release = u32_at 24 bytes;
  product = array_at 28 32 bytes;
  board = array_at 60 32 bytes;
  profile = array_at 92 48 bytes;
  channel = array_at 140 16 bytes;
  layout = array_at 156 32 bytes;
  version = array_at 188 32 bytes;
  chip = array_at 220 16 bytes;
}

-- What the place `p` of the buffer shows: no record of this format, or one of the release or not.
pub data Seen : Type 0 where
  skipped matching foreign : Seen

-- The tests on a record of this format.
unfoldable pub is_release : Manifest → Identity → Bool
unfolding identity_valid tuple_equal
is_release m id = not (
    not (identity_valid (some id))
    || not (tuple_equal id m.identity)
    || not (id.release == m.identity.release)
    || not (bytes_eq id.version m.identity.version))

unfoldable pub look : Manifest → List ℕ → Seen
unfolding identity_of is_release starts_with
look m bytes =
    let id = identity_of bytes in
    if not (starts_with identity_magic bytes)
    then Seen.skipped
    else if not (id.format_version == 1) || not (id.updater_api == 1)
    then Seen.skipped
    else if is_release m id
    then Seen.matching
    else Seen.foreign

-- `sizeof(rw_ota_image_identity_t)`
abbrev pub record_size : ℕ
record_size = 236

module _ (see : List ℕ → Seen) where
  -- The loop over the places of a buffer at which a record fits: how many there are, added to those
  -- before; `none` is the stop at a record that is not of the release.
  unfoldable pub scan : List ℕ → ℕ → Option ℕ
  scan [] n = some n
  scan (b ∷ rest) n =
      if ltb (length (b ∷ rest)) record_size
      then some n
      else elim (see (take record_size (b ∷ rest))) [
        | Seen.skipped ↦ scan rest n
        | Seen.matching ↦ scan rest (n + 1)
        | Seen.foreign ↦ none
      ]

  -- The bytes that are kept before the next block.
  abbrev pub kept : List ℕ → List ℕ
  kept bytes = drop (length bytes - (record_size - 1)) bytes

  -- The loop over the blocks of a segment: `left` bytes from `position` on, after those kept. A round
  -- reads at least one byte, so `left` rounds are enough.
  module _ (read : ℕ → ℕ → Result Fault (List ℕ)) where
    unfoldable pub scan_blocks : ℕ → ℕ → ℕ → List ℕ → ℕ → Result Fault ℕ
    unfolding scan
    scan_blocks zero left position tail n = ok n
    scan_blocks (suc fuel) left position tail n =
        let count = if ltb 4096 left then 4096 else left in
        if left == 0 then ok n else elim (read position count) [
          | err e ↦ err e
          | ok block ↦ elim (scan (tail ++ block) n) [
            | none ↦ err Fault.not_supported
            | some n' ↦ scan_blocks fuel (left - count) (position + count) (kept (tail ++ block)) n'
          ]
        ]

-- The layout of ESP-IDF: the sizes of the two headers, whether the first has the magic byte, its count
-- of segments, and the length in the header of a segment.
pub record Layout : Type 0 where
  pub header_size : ℕ
  pub segment_size : ℕ
  pub has_magic : List ℕ → Bool
  pub segments : List ℕ → ℕ
  pub data_len : List ℕ → ℕ

-- What `esp_ota_get_partition_description` gives: whether the magic word is there, and the bytes of
-- the version.
pub record App : Type 0 where
  pub has_magic : Bool
  pub version : List ℕ

abbrev ends : List ℕ → Bool
ends [] = false
ends (c ∷ s) = (c == 0) || ends s

unfoldable pub check_app : Manifest → App → Result Fault (Unit {0})
check_app m app =
    if not app.has_magic
      || not (ends app.version)
      || not (bytes_eq (before_nul app.version) m.identity.version)
    then err Fault.not_supported
    else ok tt

abbrev pub or_size : {A : Type 0} → Result Fault A → Result Fault A
or_size (ok a) = ok a
or_size (err e) = err Fault.invalid_size

module _ (L : Layout) (m : Manifest) (read : ℕ → ℕ → Result Fault (List ℕ)) where
  -- The header of the segment at a position, and its data: where they start, and how many bytes.
  unfoldable pub segment_at : ℕ → Result Fault (ℕ × ℕ)
  segment_at position = do
    require (not (ltb m.size position || ltb (m.size - position) L.segment_size)) Fault.invalid_size
    header ← or_size (read position L.segment_size)
    let start = position + L.segment_size
    require (not (ltb (m.size - start) (L.data_len header))) Fault.invalid_size
    ok (start, L.data_len header)

  unfoldable pub scan_segments : ℕ → ℕ → ℕ → Result Fault ℕ
  unfolding segment_at scan_blocks look
  scan_segments zero position n = ok n
  scan_segments (suc left) position n = do
    segment ← segment_at position
    n' ← scan_blocks (look m) read segment.1 segment.1 segment.0 [] n
    scan_segments left (segment.0 + segment.1) n'

  unfoldable pub validate_identity : Bool → Result Fault App → Result Fault (Unit {0})
  unfolding scan_segments check_app
  validate_identity allocated description = do
    header ← read 0 L.header_size
    require
        (not (not (L.has_magic header) || (L.segments header == 0) || ltb 16 (L.segments header)))
        Fault.invalid_arg
    require allocated Fault.no_mem
    records ← scan_segments (L.segments header) L.header_size 0
    require (records == 1) Fault.invalid_arg
    app ← description
    check_app m app
