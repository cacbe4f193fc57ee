-- ===== src/OtaJournal/Updates.antt =====
-- What holds of the journal over any sequence of its updates.
use remote_wake.Base.{ℕ, ◌≤◌, ◌≡◌, true, List, [], ◌∷◌, length-set, arith}
use remote_wake.OtaJournal.{Journal, valid, reject, confirm, prepare, clear_pending}
use remote_wake.OtaJournal.Rejected.{IsRing}

pub data Update : Type 0 where
  prepares : ℕ → ℕ → List ℕ → Update
  clears : Update
  rejects : List ℕ → Update
  confirms : ℕ → Update

pub apply : Journal → Update → Journal
apply j (prepares release address hash) = prepare j release address hash
apply j clears = clear_pending j
apply j (rejects hash) = reject j hash
apply j (confirms release) = confirm j release

pub apply_all : Journal → List Update → Journal
apply_all j [] = j
apply_all j (u ∷ us) = apply_all (apply j u) us

-- What a journal that is read back from flash is held to, and what it must never lose.
record Keeps (j k : Journal) (scope : List ℕ) : Type 0 where
  pub ring : IsRing k
  pub accepted : valid k scope ≡ true
  pub floor_kept : j.floor ≤ k.floor

apply-Keeps :
    (j k : Journal) (scope : List ℕ) (u : Update) → Keeps j k scope → Keeps j (apply k u) scope
unfolding apply valid reject confirm prepare clear_pending
apply-Keeps j k scope (prepares release address hash) h = ground arith
apply-Keeps j k scope clears h = ground arith
apply-Keeps j k scope (rejects hash) h = ground (arith, length-set k.failed k.failed_next hash)
apply-Keeps j k scope (confirms release) h = ground arith

run-Keeps :
    (j k : Journal) (scope : List ℕ) (us : List Update)
    → Keeps j k scope
    → Keeps j (apply_all k us) scope
unfolding apply_all
run-Keeps j k scope [] h = h
run-Keeps j k scope (u ∷ us) h = run-Keeps j (apply k u) scope us (apply-Keeps j k scope u h)

-- Any sequence of updates keeps a journal that passes `valid` passing it for the same scope, keeps
-- its ring of failed hashes well formed, and never lowers the release floor.
pub updates_keep :
    (j : Journal) (scope : List ℕ) (us : List Update)
    → IsRing j
    → valid j scope ≡ true
    → (valid (apply_all j us) scope ≡ true)
      × IsRing (apply_all j us)
      × (j.floor ≤ (apply_all j us).floor)
updates_keep j scope us r v =
    let k = run-Keeps j j scope us (record { ring = r; accepted = v; floor_kept = omega arith }) in
    (k.accepted, k.ring, k.floor_kept)

-- After a confirmation of `release` the floor is at least that release, after any further updates
-- too, so no later image of that release or an older one can pass the floor.
pub confirm-floor :
    (j : Journal) (release : ℕ) (scope : List ℕ) (us : List Update)
    → IsRing j
    → valid j scope ≡ true
    → release ≤ (apply_all (confirm j release) us).floor
unfolding confirm
confirm-floor j release scope us r v =
    let one =
      apply-Keeps j j scope (confirms release)
        (record { ring = r; accepted = v; floor_kept = omega arith }) in
    let rest =
      updates_keep (confirm j release) scope us (unfold apply in one.ring)
        (unfold apply in one.accepted) in
    ground (arith, rest.2)
