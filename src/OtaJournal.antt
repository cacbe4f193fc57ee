-- ===== src/OtaJournal.antt =====
-- firmware/main/ota_journal.c and ota_journal.h: the durable journal of the updater. A 32-byte hash
-- or scope is its list of bytes; `memcmp(...) == 0` is the equality of such lists.
pub mod Rejected
mod Updates
mod Tests
use remote_wake.Base.{
  ℕ, zero, suc, ◌+◌, ◌%◌, Bool, true, false, not, ◌&&◌, ◌||◌, List, [], ◌∷◌, ltb, leb, ◌==◌,
  if◌then◌else◌, bytes_eq, set, replicate,
}

abbrev pub failed_hashes : ℕ
failed_hashes = 4

abbrev pub journal_version : ℕ
journal_version = 1

pub record Journal : Type 0 where
  pub format : ℕ
  pub scope : List ℕ
  pub floor : ℕ
  pub pending_release : ℕ
  pub pending_address : ℕ
  pub pending_hash : List ℕ
  pub failed : List (List ℕ)
  pub failed_count : ℕ
  pub failed_next : ℕ

pub valid : Journal → List ℕ → Bool
valid j scope =
    j.format == journal_version
    && bytes_eq j.scope scope
    && leb j.failed_count failed_hashes
    && ltb j.failed_next failed_hashes

-- The loop over the first `n` failed hashes.
pub scan : ℕ → List (List ℕ) → List ℕ → Bool
scan zero hs hash = false
scan (suc n) [] hash = false
scan (suc n) (h ∷ hs) hash = bytes_eq h hash || scan n hs hash

unfoldable pub rejected : Journal → List ℕ → Bool
unfolding scan
rejected j hash = scan j.failed_count j.failed hash

unfoldable pub clear_pending : Journal → Journal
clear_pending j = record j {
  pending_release = 0;
  pending_address = 0;
  pending_hash = replicate 32 0;
}

unfoldable pub prepare : Journal → ℕ → ℕ → List ℕ → Journal
prepare j release address hash = record j {
  pending_release = release;
  pending_address = address;
  pending_hash = hash;
}

-- The body of the `if` of `rw_ota_journal_reject`.
pub remember : Journal → List ℕ → Journal
remember j hash = record j {
  failed = set j.failed j.failed_next hash;
  failed_next = (j.failed_next + 1) % failed_hashes;
  failed_count = if ltb j.failed_count failed_hashes then j.failed_count + 1 else j.failed_count;
}

pub reject : Journal → List ℕ → Journal
unfolding remember clear_pending
reject j hash = clear_pending (if rejected j hash then j else remember j hash)

pub confirm : Journal → ℕ → Journal
unfolding clear_pending
confirm j release = clear_pending (if ltb j.floor release then record j { floor = release } else j)
