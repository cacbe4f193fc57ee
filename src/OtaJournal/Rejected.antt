-- ===== src/OtaJournal/Rejected.antt =====
-- Which hashes the journal remembers as failed.
use remote_wake.Base.{
  ℕ, zero, suc, ◌+◌, ◌-◌, ◌%◌, ◌≤◌, ◌<◌, ◌≡◌, ◌≢◌, inl, inr, Bool-cases, true, false, List, [], ◌∷◌,
  length, length-set, get_elem?, get_elem?-set_ne, get_elem?-set_self, some, bytes_eq_refl, arith,
}
use remote_wake.OtaJournal.{Journal, scan, rejected, reject}

-- The array has its four places, the write position is the count until it is full, and every op
-- keeps within it.
pub record IsRing (j : Journal) : Type 0 where
  pub places : length j.failed ≡ 4
  pub count_fits : j.failed_count ≤ 4
  pub next_fits : j.failed_next < 4
  pub filling : j.failed_count < 4 → j.failed_next ≡ j.failed_count

reject-IsRing : (j : Journal) (hash : List ℕ) → IsRing j → IsRing (reject j hash)
unfolding reject
reject-IsRing j hash r = ground (arith, length-set j.failed j.failed_next hash)

-- The rejections of a list, in order.
pub reject_all : Journal → List (List ℕ) → Journal
reject_all j [] = j
reject_all j (h ∷ hs) = reject_all (reject j h) hs

reject_all-IsRing : (j : Journal) (hs : List (List ℕ)) → IsRing j → IsRing (reject_all j hs)
unfolding reject_all
reject_all-IsRing j [] r = r
reject_all-IsRing j (h ∷ hs) r = reject_all-IsRing (reject j h) hs (reject-IsRing j h r)

-- The place `i` is in use and holds `hash`.
abbrev Holds : Journal → ℕ → List ℕ → Type 0
Holds j i hash = (i < j.failed_count) × (get_elem? j.failed i ≡ some hash)

scan-holds :
    (n i : ℕ) (hs : List (List ℕ)) (hash : List ℕ)
    → i < n
    → get_elem? hs i ≡ some hash
    → scan n hs hash ≡ true
unfolding scan
scan-holds zero i hs hash lt h = absurd (omega arith)
scan-holds (suc n) i [] hash lt h = ground arith
scan-holds (suc n) zero (x ∷ hs) hash lt h = ground (arith, bytes_eq_refl hash)
scan-holds (suc n) (suc i) (x ∷ hs) hash lt h =
    ground (arith, scan-holds n i hs hash (omega arith) h)

-- Where the place of a remembered hash is not overwritten, it stays.
reject-Holds :
    (j : Journal) (i : ℕ) (hash other : List ℕ)
    → i ≢ j.failed_next
    → Holds j i hash
    → Holds (reject j other) i hash
unfolding reject
reject-Holds j i hash other ne h = ground (arith, get_elem?-set_ne j.failed other ne)

-- How many more rejections leave the place `i` alone.
ahead :
    (j : Journal) (x : List ℕ) (i : ℕ) (hs : List (List ℕ))
    → IsRing j
    → i < 4
    → suc (length hs) ≤ (i + 4 - j.failed_next) % 4
    → length hs ≤ (i + 4 - (reject j x).failed_next) % 4
unfolding reject
ahead j x i hs r f n = ground arith

first_ahead :
    (j : Journal) (hash : List ℕ) (hs : List (List ℕ))
    → IsRing j
    → rejected j hash ≡ false
    → length hs ≤ 3
    → length hs ≤ (j.failed_next + 4 - (reject j hash).failed_next) % 4
unfolding reject
first_ahead j hash hs r new few = ground arith

reject_all-Holds :
    (j : Journal) (i : ℕ) (hash : List ℕ) (hs : List (List ℕ))
    → IsRing j
    → i < 4
    → length hs ≤ (i + 4 - j.failed_next) % 4
    → Holds j i hash
    → rejected (reject_all j hs) hash ≡ true
unfolding reject_all
reject_all-Holds j i hash [] r f n h =
    unfold rejected in scan-holds j.failed_count i j.failed hash h.0 h.1
reject_all-Holds j i hash (x ∷ hs) r f n h =
    reject_all-Holds (reject j x) i hash hs (reject-IsRing j x r) f (ahead j x i hs r f n)
      (reject-Holds j i hash x (omega (arith, r)) h)

remember-Holds :
    (j : Journal) (hash : List ℕ)
    → IsRing j
    → rejected j hash ≡ false
    → Holds (reject j hash) j.failed_next hash
unfolding reject
remember-Holds j hash r new =
    ground (arith, get_elem?-set_self j.failed j.failed_next hash (omega (arith, r)))

-- A failed image is not offered again soon: a hash that is newly rejected is found by `rejected`
-- after it and after each of the next three rejections, of whatever hashes.
pub reject-remembers :
    (j : Journal) (hash : List ℕ) (hs : List (List ℕ))
    → IsRing j
    → rejected j hash ≡ false
    → length hs ≤ 3
    → rejected (reject_all (reject j hash) hs) hash ≡ true
reject-remembers j hash hs r new few =
    reject_all-Holds (reject j hash) j.failed_next hash hs (reject-IsRing j hash r) r.next_fits
      (first_ahead j hash hs r new few) (remember-Holds j hash r new)

-- A hash that is rejected is remembered, also where it was before.
pub reject-rejected :
    (j : Journal) (hash : List ℕ) → IsRing j → rejected (reject j hash) hash ≡ true
unfolding rejected reject reject_all
reject-rejected j hash r = elim (Bool-cases (scan j.failed_count j.failed hash)) [
  | inl known ↦ ground arith
  | inr new ↦ reject-remembers j hash [] r new (omega arith)
]
