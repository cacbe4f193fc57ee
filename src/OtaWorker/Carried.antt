-- ===== src/OtaWorker/Carried.antt =====
-- What an image that passes `validate_identity` carries, firmware/main/ota.c.
use remote_wake.Base.{
  ℕ, zero, suc, ◌+◌, ◌-◌, ◌≤◌, ◌≡◌, refl, sym, ap, ◌∙◌, Bool, true, not, ◌||◌, List, [], ◌∷◌,
  Option, some, none, ltb, ◌==◌, if◌then◌else◌, length, take, drop, bytes_eq, bytes_eq→eq, arith,
}
use remote_wake.Base.Results.{Result, ok, ◌>>=◌, require, >>=-eq_ok, require-eq_ok}
use remote_wake.OtaManifest.Text.{Identity, identity_valid, tuple_equal}
use remote_wake.OtaManifest.Verify.{Manifest}
use remote_wake.OtaWorker.Image.{
  Fault, Seen, record_size, scan, scan_blocks, look, is_release, identity_of, Layout, App, or_size,
  segment_at, scan_segments, validate_identity,
}
use remote_wake.OtaWorker.Found.{scan_all, Find, scan_all-Find}
use remote_wake.OtaWorker.Scanned.{found_by, Reads, scan_blocks-whole}

four_hold :
    (a b c d : Bool)
    → not (not a || not b || not c || not d) ≡ true
    → (a ≡ true) × (b ≡ true) × (c ≡ true) × (d ≡ true)
four_hold a b c d h = ground arith

is_matching :
    (a b c : Bool)
    → (if a
        then Seen.skipped
        else if b
        then Seen.skipped
        else if c
        then Seen.matching
        else Seen.foreign)
      ≡ Seen.matching
    → c ≡ true
is_matching a b c h = ground arith

within :
    (position head len start size total bytes : ℕ)
    → not (ltb total position || ltb (total - position) head) ≡ true
    → not (ltb (total - (position + head)) len) ≡ true
    → ◌≡◌ {A = Result Fault (ℕ × ℕ)} (ok (position + head, len)) (ok (start, size))
    → total ≤ bytes
    → start + size ≤ bytes
within position head len start size total bytes room short e fits = ground arith

just_one : (n : ℕ) → (n == 1) ≡ true → n ≡ 1
just_one n h = ground arith

is_release-parts :
    (m : Manifest) (id : Identity)
    → is_release m id ≡ true
    → (identity_valid (some id) ≡ true)
      × (tuple_equal id m.identity ≡ true)
      × ((id.release == m.identity.release) ≡ true)
      × (bytes_eq id.version m.identity.version ≡ true)
unfolding is_release
is_release-parts m id h = four_hold _ _ _ _ h

look-matching :
    (m : Manifest) (bytes : List ℕ)
    → look m bytes ≡ Seen.matching
    → is_release m (identity_of bytes) ≡ true
unfolding look
look-matching m bytes h = is_matching _ _ _ h

module _ (L : Layout) (m : Manifest) (read : ℕ → ℕ → Result Fault (List ℕ)) (flash : List ℕ)
    (reads : Reads read flash) (fits : m.size ≤ length flash) where
  -- The loadable segments of the image, as whole lists of bytes.
  unfoldable pub loadable : ℕ → ℕ → Result Fault (List (List ℕ))
  unfolding segment_at
  loadable zero position = ok []
  loadable (suc left) position = do
    segment ← segment_at L m read position
    rest ← loadable left (segment.0 + segment.1)
    ok (take segment.1 (drop segment.0 flash) ∷ rest)

  segment_at-inside :
      (position start size : ℕ)
      → segment_at L m read position ≡ ok (start, size)
      → start + size ≤ length flash
  unfolding segment_at
  segment_at-inside position start size h =
      let (u, room, h₁) =
        >>=-eq_ok
          (require (not (ltb m.size position || ltb (m.size - position) L.segment_size))
            Fault.invalid_size)
          _ h in
      let (header, there, h₂) = >>=-eq_ok (or_size (read position L.segment_size)) _ h₁ in
      let (v, short, h₃) =
        >>=-eq_ok
          (require (not (ltb (m.size - (position + L.segment_size)) (L.data_len header)))
            Fault.invalid_size)
          _ h₂ in
      within position L.segment_size (L.data_len header) start size m.size (length flash)
        (require-eq_ok _ Fault.invalid_size room) (require-eq_ok _ Fault.invalid_size short) h₃ fits

  found_by-ok : (o : Option ℕ) (n : ℕ) → found_by o ≡ ok n → o ≡ some n
  found_by-ok none n h = absurd (ground arith)
  found_by-ok (some k) n h = ground arith

  one_more :
      (position start size left k n r : ℕ)
      → segment_at L m read position ≡ ok (start, size)
      → scan (look m) (take size (drop start flash)) n ≡ some k
      → (rest : List (List ℕ)) × (loadable left (start + size) ≡ ok rest)
        × (scan_all (look m) rest k ≡ some r)
      → (segments : List (List ℕ)) × (loadable (suc left) position ≡ ok segments)
        × (scan_all (look m) segments n ≡ some r)
  unfolding loadable scan_all
  one_more position start size left k n r e whole (rest, e', on) =
      (take size (drop start flash) ∷ rest, rw (e, e') refl, rw (scan_all, whole) on)

  -- What is searched in blocks is searched as a whole.
  segments-whole :
      (left position n r : ℕ)
      → scan_segments L m read left position n ≡ ok r
      → (segments : List (List ℕ)) × (loadable left position ≡ ok segments)
        × (scan_all (look m) segments n ≡ some r)
  unfolding scan_segments loadable scan_all
  segments-whole zero position n r h = ([], refl, ground arith)
  segments-whole (suc left) position n r h =
      let ((start, size), e, h₁) = >>=-eq_ok (segment_at L m read position) _ h in
      let (k, counted, h₂) = >>=-eq_ok (scan_blocks (look m) read size size start [] n) _ h₁ in
      let whole = found_by-ok (scan (look m) (take size (drop start flash)) n) k (
        sym (
          scan_blocks-whole (look m) read flash reads size start n
            (segment_at-inside position start size e))
        ∙ counted) in
      one_more position start size left k n r e whole (segments-whole left (start + size) k r h₂)

  -- What an image carries that passes the checks: its segments can be read, and searched as a whole they
  -- hold one record of this format, which is a valid identity, with the tuple, the release and the
  -- version of the manifest.
  pub record IsCarried : Type 0 where
    pub header : List ℕ
    pub segments : List (List ℕ)
    pub headed : read 0 L.header_size ≡ ok header
    pub loads : loadable (L.segments header) L.header_size ≡ ok segments
    pub one_record : scan_all (look m) segments 0 ≡ some 1
    pub find : Find (look m) segments
    pub identity : Identity
    pub is_there : identity_of (take record_size (drop find.place.at find.bytes)) ≡ identity
    pub is_valid : identity_valid (some identity) ≡ true
    pub same_tuple : tuple_equal identity m.identity ≡ true
    pub same_release : identity.release ≡ m.identity.release
    pub same_version : identity.version ≡ m.identity.version

  carried :
      (header : List ℕ) (segments : List (List ℕ))
      → read 0 L.header_size ≡ ok header
      → loadable (L.segments header) L.header_size ≡ ok segments
      → scan_all (look m) segments 0 ≡ some 1
      → IsCarried
  carried header segments headed loads one =
      let f = scan_all-Find (look m) segments 0 1 one (omega arith) in
      let record_bytes = take record_size (drop f.place.at f.bytes) in
      let id = identity_of record_bytes in
      let (valid, tuple, release, version) =
        is_release-parts m id (look-matching m record_bytes f.place.seen) in
      record {
        header = header;
        segments = segments;
        headed = headed;
        loads = loads;
        one_record = one;
        find = f;
        identity = id;
        is_there = refl;
        is_valid = valid;
        same_tuple = tuple;
        same_release = ground arith;
        same_version = bytes_eq→eq id.version m.identity.version version;
      }

  -- An image that passes `validate_identity` carries the identity of its manifest: where the bytes of the
  -- partition can be read and are no fewer than the size of the manifest, exactly one identity record
  -- stands in its loadable segments, at any place and across any border of the blocks that are read, and
  -- it is valid and has the product tuple, the release and the version that were signed.
  pub validate_identity-IsCarried :
      (allocated : Bool) (description : Result Fault App) {u : Unit {0}}
      → validate_identity L m read allocated description ≡ ok u
      → IsCarried
  unfolding validate_identity
  validate_identity-IsCarried allocated description h =
      let (header, headed, h₁) = >>=-eq_ok (read 0 L.header_size) _ h in
      let (a, is_image, h₂) =
        >>=-eq_ok
          (require
            (not
              (not (L.has_magic header) || (L.segments header == 0) || ltb 16 (L.segments header)))
            Fault.invalid_arg)
          _ h₁ in
      let (b, has_buffer, h₃) = >>=-eq_ok (require allocated Fault.no_mem) _ h₂ in
      let (records, counted, h₄) =
        >>=-eq_ok (scan_segments L m read (L.segments header) L.header_size 0) _ h₃ in
      let (c, one, h₅) = >>=-eq_ok (require (records == 1) Fault.invalid_arg) _ h₄ in
      let (segments, loads, found) =
        segments-whole (L.segments header) L.header_size 0 records counted in
      let is_one = just_one records (require-eq_ok (records == 1) Fault.invalid_arg one) in
      carried header segments headed loads (found ∙ ap some is_one)
