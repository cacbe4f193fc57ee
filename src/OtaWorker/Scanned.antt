-- ===== src/OtaWorker/Scanned.antt =====
-- The search for the identity record, firmware/main/ota.c, `validate_identity`: no record is lost or
-- counted twice at the borders of the blocks.
use remote_wake.Base.{
  ℕ, zero, suc, ◌+◌, ◌-◌, ◌≤◌, ◌<◌, ◌≡◌, inl, inr, refl, sym, ap, ◌∙◌, false, List, [], ◌∷◌, ◌++◌,
  Option, some, none, ltb, ◌==◌, if◌then◌else◌, length, length-append, take, drop, Bool-cases,
  if-holds, arith,
}
use mathlib.Core.List.{append_assoc, append-nil}
use remote_wake.Base.Results.{Result, ok, err}
use remote_wake.OtaWorker.Image.{Fault, Seen, record_size, scan, kept, scan_blocks}

module _ {A : Type 0} where
  take-++ : (n : ℕ) (xs ys : List A) → n ≤ length xs → take n (xs ++ ys) ≡ take n xs
  take-++ zero xs ys h = refl
  take-++ (suc n) [] ys h = absurd (omega arith)
  take-++ (suc n) (x ∷ xs) ys h = ap (λ t. x ∷ t) (take-++ n xs ys (omega arith))

  take-nil : (n : ℕ) → take {A = A} n [] ≡ []
  take-nil zero = refl
  take-nil (suc n) = refl

  drop-nil : (n : ℕ) → drop {A = A} n [] ≡ []
  drop-nil zero = refl
  drop-nil (suc n) = refl

  -- A piece of a list is its front and the rest.
  take-split : (a b : ℕ) (xs : List A) → take (a + b) xs ≡ take a xs ++ take b (drop a xs)
  take-split zero b xs = let e : 0 + b ≡ b = omega arith in ap (λ n. take n xs) e
  take-split (suc a) b [] = take-nil (suc a + b) ∙ sym (take-nil b)
  take-split (suc a) b (x ∷ xs) =
      let e : suc a + b ≡ suc (a + b) = omega arith in
      ap (λ n. take n (x ∷ xs)) e ∙ ap (λ t. x ∷ t) (take-split a b xs)

  drop-drop : (a b : ℕ) (xs : List A) → drop b (drop a xs) ≡ drop (a + b) xs
  drop-drop zero b xs = let e : b ≡ 0 + b = omega arith in ap (λ n. drop n xs) e
  drop-drop (suc a) b [] = drop-nil b ∙ sym (drop-nil (suc a + b))
  drop-drop (suc a) b (x ∷ xs) =
      let e : suc (a + b) ≡ suc a + b = omega arith in
      drop-drop a b xs ∙ ap (λ n. drop n (x ∷ xs)) e

  length-drop : (n : ℕ) (xs : List A) → length (drop n xs) ≡ length xs - n
  length-drop zero xs = omega arith
  length-drop (suc n) [] = omega arith
  length-drop (suc n) (x ∷ xs) = omega (arith, length-drop n xs)

module _ (see : List ℕ → Seen) where
  -- The search goes on with another buffer, where it has not stopped.
  abbrev pub resume : Option ℕ → List ℕ → Option ℕ
  resume none bytes = none
  resume (some n) bytes = scan see bytes n

  scan-short : (bytes : List ℕ) (n : ℕ) → length bytes ≤ 235 → scan see bytes n ≡ some n
  unfolding scan
  scan-short [] n h = refl
  scan-short (b ∷ rest) n h = ground arith

  kept-short : (bytes : List ℕ) → length bytes ≤ 235 → kept see bytes ≡ bytes
  kept-short bytes h = let e : length bytes - 235 ≡ 0 = omega arith in ap (λ k. drop k bytes) e

  kept-long : (b : ℕ) (rest : List ℕ) → 235 ≤ length rest → kept see (b ∷ rest) ≡ kept see rest
  kept-long b rest h =
      let e : length (b ∷ rest) - 235 ≡ suc (length rest - 235) = omega arith in
      ap (λ k. drop k (b ∷ rest)) e

  length-kept : (bytes : List ℕ) → length (kept see bytes) ≤ 235
  length-kept bytes = omega (arith, length-drop (length bytes - 235) bytes)

  -- One place, where a record fits.
  abbrev after : Seen → ℕ → List ℕ → Option ℕ
  after v n rest = elim v [
    | Seen.skipped ↦ scan see rest n
    | Seen.matching ↦ scan see rest (n + 1)
    | Seen.foreign ↦ none
  ]

  scan-long :
      (b : ℕ) (rest : List ℕ) (n : ℕ)
      → 235 ≤ length rest
      → scan see (b ∷ rest) n ≡ after (see (take 236 (b ∷ rest))) n rest
  unfolding scan
  scan-long b rest n h =
      let e : ltb (suc (length rest)) record_size ≡ false = ground arith in rw e refl

  after-++ :
      (v : Seen) (n : ℕ) (rest more : List ℕ)
      → ((n' : ℕ) → scan see (rest ++ more) n' ≡ resume (scan see rest n') (kept see rest ++ more))
      → after v n (rest ++ more) ≡ resume (after v n rest) (kept see rest ++ more)
  after-++ Seen.skipped n rest more on = on n
  after-++ Seen.matching n rest more on = on (n + 1)
  after-++ Seen.foreign n rest more on = refl

  -- What is kept is enough to go on: a search of two buffers is a search of the first, and then of
  -- what is kept of it before the second.
  pub scan-++ :
      (bytes more : List ℕ) (n : ℕ)
      → scan see (bytes ++ more) n ≡ resume (scan see bytes n) (kept see bytes ++ more)
  scan-++ [] more n = unfold scan in refl
  scan-++ (b ∷ rest) more n = elim (Bool-cases (ltb (length rest) 235)) [
    | inl short ↦
        ap (λ t. scan see (t ++ more) n) (sym (kept-short (b ∷ rest) (ground arith)))
        ∙ ap (λ r. resume r (kept see (b ∷ rest) ++ more))
            (sym (scan-short (b ∷ rest) n (ground arith)))
    | inr long ↦
        let room : 235 ≤ length rest = ground arith in
        scan-long b (rest ++ more) n (omega (arith, length-append rest more))
        ∙ ap (λ t. after (see (b ∷ t)) n (rest ++ more)) (take-++ 235 rest more room)
        ∙ after-++ (see (take 236 (b ∷ rest))) n rest more (scan-++ rest more)
        ∙ ap (λ r. resume r (kept see rest ++ more)) (sym (scan-long b rest n room))
        ∙ ap (λ t. resume (scan see (b ∷ rest) n) (t ++ more)) (sym (kept-long b rest room))
  ]

abbrev pub found_by : Option ℕ → Result Fault ℕ
found_by none = err Fault.not_supported
found_by (some n) = ok n

-- A partition that can be read, within its bytes.
abbrev pub Reads : (ℕ → ℕ → Result Fault (List ℕ)) → List ℕ → Type 0
Reads read flash = (p n : ℕ) → p + n ≤ length flash → read p n ≡ ok (take n (drop p flash))

module _ (see : List ℕ → Seen) (read : ℕ → ℕ → Result Fault (List ℕ)) (flash : List ℕ)
    (reads : Reads read flash) where
  abbrev data_at : ℕ → ℕ → List ℕ
  data_at position left = take left (drop position flash)

  nothing_left :
      (left position : ℕ) (tail : List ℕ) (n : ℕ)
      → left ≡ 0
      → length tail ≤ 235
      → ok n ≡ found_by (scan see (tail ++ data_at position left) n)
  nothing_left left position tail n e small = sym (
      ap (λ k. found_by (scan see (tail ++ data_at position k) n)) e
      ∙ ap (λ t. found_by (scan see t n)) (append-nil tail)
      ∙ ap found_by (scan-short see tail n small))

  data-split :
      (position count left : ℕ)
      → count ≤ left
      → data_at position left ≡ data_at position count ++ data_at (position + count) (left - count)
  data-split position count left h =
      let e : left ≡ count + (left - count) = omega arith in
      ap (data_at position) e
      ∙ take-split count (left - count) (drop position flash)
      ∙ ap (λ t. data_at position count ++ take (left - count) t) (drop-drop position count flash)

  whole-split :
      (position count left : ℕ) (tail : List ℕ) (n : ℕ)
      → count ≤ left
      → let buffer = tail ++ data_at position count in
        scan see (tail ++ data_at position left) n
        ≡ resume see
            (scan see buffer n)
            (kept see buffer ++ data_at (position + count) (left - count))
  whole-split position count left tail n h =
      let later = data_at (position + count) (left - count) in
      ap (λ t. scan see (tail ++ t) n) (data-split position count left h)
      ∙ ap (λ t. scan see t n) (sym (append_assoc tail (data_at position count) later))
      ∙ scan-++ see (tail ++ data_at position count) later n

  go_on :
      (o : Option ℕ) (k : ℕ → Result Fault ℕ) (bytes : List ℕ)
      → ((n : ℕ) → k n ≡ found_by (scan see bytes n))
      → (elim o [ none ↦ err Fault.not_supported | some n ↦ k n ]) ≡ found_by (resume see o bytes)
  go_on none k bytes h = refl
  go_on (some n) k bytes h = h n

  -- The search in blocks finds what a search of the whole segment finds, after the bytes kept.
  blocks-whole :
      (fuel left position : ℕ) (tail : List ℕ) (n : ℕ)
      → left ≤ fuel
      → position + left ≤ length flash
      → length tail ≤ 235
      → scan_blocks see read fuel left position tail n
        ≡ found_by (scan see (tail ++ data_at position left) n)
  unfolding scan_blocks
  blocks-whole zero left position tail n enough inside small =
      nothing_left left position tail n (omega arith) small
  blocks-whole (suc fuel) left position tail n enough inside small =
      let Q = λ (r : Result Fault ℕ). r ≡ found_by (scan see (tail ++ data_at position left) n) in
      let count = if ltb 4096 left then 4096 else left in
      let buffer = tail ++ data_at position count in
      if-holds Q (left == 0) _ _ (λ over. nothing_left left position tail n (ground arith) small)
        (λ more.
          let some_bytes : 0 < count = ground arith in
          let fits : count ≤ left = ground arith in
          rw (reads position count (omega arith)) (
            go_on (scan see buffer n)
              (λ n'.
                scan_blocks see read fuel (left - count) (position + count) (kept see buffer) n')
              (kept see buffer ++ data_at (position + count) (left - count))
              (λ n'.
                blocks-whole fuel (left - count) (position + count) (kept see buffer) n'
                  (omega arith) (omega arith) (length-kept see buffer))
            ∙ sym (ap found_by (whole-split position count left tail n fits))))

  -- The search of a segment in blocks of 4096 bytes, with 235 bytes kept between them, is the search
  -- of the segment as a whole.
  pub scan_blocks-whole :
      (size position n : ℕ)
      → position + size ≤ length flash
      → scan_blocks see read size size position [] n
        ≡ found_by (scan see (take size (drop position flash)) n)
  scan_blocks-whole size position n inside =
      blocks-whole size size position [] n (omega arith) inside (omega arith)
