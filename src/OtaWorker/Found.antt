-- ===== src/OtaWorker/Found.antt =====
-- A search for identity records that counts one has seen one, firmware/main/ota.c, `validate_identity`.
use remote_wake.Base.{
  ℕ, suc, ◌+◌, ◌≤◌, ◌<◌, ◌≡◌, inl, inr, refl, List, [], ◌∷◌, Option, some, none, ltb, length,
  get_elem?, take, drop, Bool-cases, Option-cases, if-holds, arith,
}
use remote_wake.OtaWorker.Image.{Seen, record_size, scan}

module _ (see : List ℕ → Seen) where
  -- The search of several segments, each as a whole.
  unfoldable pub scan_all : List (List ℕ) → ℕ → Option ℕ
  unfolding scan
  scan_all [] n = some n
  scan_all (s ∷ rest) n = elim (scan see s n) [ none ↦ none | some n' ↦ scan_all rest n' ]

  -- A place of the segment at which a record is seen.
  pub record Place (bytes : List ℕ) : Type 0 where
    pub at : ℕ
    pub inside : at + record_size ≤ length bytes
    pub seen : see (take record_size (drop at bytes)) ≡ Seen.matching

  abbrev later : {b : ℕ} {rest : List ℕ} → Place rest → Place (b ∷ rest)
  later p = record { at = suc p.at; inside = let i = p.inside in omega arith; seen = p.seen }

  abbrev Counted : ℕ → Option ℕ → List ℕ → Type 0
  Counted n o bytes = (r : ℕ) → o ≡ some r → n < r → Place bytes

  by_seen :
      (b : ℕ) (rest : List ℕ) (n : ℕ) (v : Seen)
      → see (take record_size (b ∷ rest)) ≡ v
      → record_size ≤ length (b ∷ rest)
      → Counted n (scan see rest n) rest
      → Counted n
          (elim v [
            | Seen.skipped ↦ scan see rest n
            | Seen.matching ↦ scan see rest (n + 1)
            | Seen.foreign ↦ none
          ])
          (b ∷ rest)
  by_seen b rest n Seen.skipped e long on r h more = later (on r h more)
  by_seen b rest n Seen.matching e long on r h more = record {
    at = 0;
    inside = omega arith;
    seen = e;
  }
  by_seen b rest n Seen.foreign e long on r h more = absurd (ground arith)

  -- A search that counts a record has seen one.
  scan-Place : (bytes : List ℕ) (n : ℕ) → Counted n (scan see bytes n) bytes
  unfolding scan
  scan-Place [] n = λ r h more. absurd (ground arith)
  scan-Place (b ∷ rest) n =
      if-holds (λ o. Counted n o (b ∷ rest)) (ltb (length (b ∷ rest)) record_size) _ _
        (λ short r h more. absurd (ground arith))
        (λ long.
          by_seen b rest n (see (take record_size (b ∷ rest))) refl (ground arith)
            (scan-Place rest n))

  -- A segment, and a place in it at which a record is seen.
  pub record Find (segments : List (List ℕ)) : Type 0 where
    pub index : ℕ
    pub bytes : List ℕ
    pub there : get_elem? segments index ≡ some bytes
    pub place : Place bytes

  abbrev in_rest : {s : List ℕ} {rest : List (List ℕ)} → Find rest → Find (s ∷ rest)
  in_rest f = record { index = suc f.index; bytes = f.bytes; there = f.there; place = f.place }

  pub scan_all-Find :
      (segments : List (List ℕ)) (n r : ℕ) → scan_all segments n ≡ some r → n < r → Find segments
  unfolding scan_all
  scan_all-Find [] n r h more = absurd (ground arith)
  scan_all-Find (s ∷ rest) n r h more = elim (Option-cases (scan see s n)) [
    | inl e ↦ absurd (ground arith)
    | inr (k, e) ↦ elim (Bool-cases (ltb n k)) [
      | inl some_here ↦ record {
        index = 0;
        bytes = s;
        there = refl;
        place = scan-Place s n k e (ground arith);
      }
      | inr none_here ↦ in_rest (scan_all-Find rest k r (ground arith) (ground arith))
    ]
  ]
