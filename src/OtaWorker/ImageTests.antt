-- ===== src/OtaWorker/ImageTests.antt =====
-- A small image: a header, one segment with some code and the identity record, in two pieces.
use remote_wake.Base.{
  ℕ, ◌+◌, ◌≡◌, inr, refl, true, List, [], ◌∷◌, ◌++◌, some, none, leb, if◌then◌else◌, length, get_or,
  replicate, take, drop, codes, ◌==◌, arith,
}
use remote_wake.Base.Results.{Result, ok, err}
use remote_wake.OtaManifest.Text.{
  Identity, identity_valid, tuple_equal, starts_with, bounded_text, text_loop, allowed,
}
use remote_wake.OtaManifest.Tests.{image, release_eight}
use remote_wake.OtaWorker.Image.{
  Fault, Layout, App, identity_of, is_release, look, scan, scan_blocks, segment_at, scan_segments,
  check_app, validate_identity,
}
use remote_wake.OtaWorker.Scanned.{Reads}
use remote_wake.OtaWorker.Carried.{IsCarried, validate_identity-IsCarried}
use remote_wake.OtaWorker.Download.{Slot, Answers, download_image}
use remote_wake.OtaWorker.Delivered.{chunks_of, Delivers, IsGood, download_image-Delivers}

abbrev padded : ℕ → List ℕ → List ℕ
padded n text = take n (text ++ replicate n 0)

abbrev record_of : Identity → List ℕ
record_of i =
    i.magic
    ++ (1 ∷ 0 ∷ 0 ∷ 0 ∷ 1 ∷ 0 ∷ 0 ∷ 0 ∷ i.release ∷ 0 ∷ 0 ∷ 0 ∷ [])
    ++ padded 32 i.product
    ++ padded 32 i.board
    ++ padded 48 i.profile
    ++ padded 16 i.channel
    ++ padded 32 i.layout
    ++ padded 32 i.version
    ++ padded 16 i.chip

-- The magic byte and one segment; then its length, of 240 bytes; and after it bytes that do not count.
abbrev pub signed_image : List ℕ
signed_image =
    (233 ∷ 1 ∷ replicate 22 0)
    ++ (0 ∷ 0 ∷ 0 ∷ 0 ∷ 240 ∷ 0 ∷ 0 ∷ 0 ∷ [])
    ++ (1 ∷ 2 ∷ 82 ∷ 4 ∷ record_of (image 8))
    ++ replicate 728 255

abbrev pub idf : Layout
idf = record {
  header_size = 24;
  segment_size = 8;
  has_magic = λ header. get_or header 0 0 == 233;
  segments = λ header. get_or header 1 0;
  data_len = λ header. get_or header 4 0;
}

abbrev pub app : App
app = record { has_magic = true; version = padded 32 (codes "v2") }

abbrev pub read_of : List ℕ → ℕ → ℕ → Result Fault (List ℕ)
read_of flash p n =
    if leb (p + n) (length flash) then ok (take n (drop p flash)) else err Fault.other

pub read_of-Reads : (flash : List ℕ) → Reads (read_of flash) flash
read_of-Reads flash p n inside =
    let h : leb (p + n) (length flash) ≡ true = ground arith in rw h refl

pub valid_image : validate_identity idf release_eight (read_of signed_image) true (ok app) ≡ ok tt
unfolding validate_identity scan_segments check_app segment_at scan_blocks scan look identity_of
    is_release identity_valid tuple_equal starts_with bounded_text text_loop allowed
valid_image = refl

validate_identity-IsCarried_example :
    IsCarried idf release_eight
      (read_of signed_image)
      signed_image
      (read_of-Reads signed_image)
      (omega arith)
validate_identity-IsCarried_example =
    validate_identity-IsCarried idf release_eight (read_of signed_image) signed_image
      (read_of-Reads signed_image) (omega arith) true (ok app) valid_image

abbrev pub checks : List ℕ → Result Fault (Unit {0})
checks bytes = validate_identity idf release_eight (read_of bytes) true (ok app)

abbrev pub sha256 : List ℕ → List ℕ
sha256 bytes = replicate 32 0

abbrev pub pieces : List (List ℕ)
pieces = take 200 signed_image ∷ drop 200 signed_image ∷ []

abbrev pub slot : Slot
slot = record { address = 131072; size = 1048576 }

abbrev pub answers : Answers
answers = record {
  next = some slot;
  running = 65536;
  opened = some 1000;
  allocated = true;
  begun = none;
  chunks = chunks_of pieces;
  drained = true;
  complete = true;
  ended = none;
}

pub answers-IsGood : IsGood 24 sha256 release_eight checks answers slot pieces
answers-IsGood = record {
  is_next = refl;
  other = refl;
  room = omega arith;
  headed = omega arith;
  body = inr refl;
  allocated = refl;
  begun = refl;
  sent = refl;
  split = ((omega arith, omega arith), ((omega arith, omega arith), tt));
  sized = refl;
  whole = refl;
  hashed = refl;
  ended = refl;
  valid = valid_image;
}

download_image-Delivers_example :
    Delivers 24 sha256 release_eight checks pieces slot
      (download_image 24 sha256 release_eight checks answers)
download_image-Delivers_example =
    download_image-Delivers 24 sha256 release_eight checks answers slot pieces answers-IsGood
