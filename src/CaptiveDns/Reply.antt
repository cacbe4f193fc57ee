-- ===== src/CaptiveDns/Reply.antt =====
-- What the reply promises, for any bytes that arrive.
use remote_wake.Base.{
  ℕ, zero, suc, ◌+◌, ◌-◌, ◌*◌, ◌%◌, ◌≤◌, ◌<◌, ◌≡◌, ◌≢◌, ◌⊎◌, inl, inr, refl, sym, ◌∙◌, Bool, true,
  false, List, [], ◌∷◌, ◌++◌, some, ltb, if◌then◌else◌, length, length-set, set, get_or-set_ne,
  Option-cases, Bool-cases, arith,
}
use remote_wake.CaptiveDns.{
  at, refused, skip_name, asks_address, rr, write_at, header, answer_at, reply,
}

skip_name_bounds :
    (fuel : ℕ) (p : List ℕ) (len pos e : ℕ)
    → 12 ≤ pos
    → skip_name fuel p len pos ≡ some e
    → (pos < e) × (e ≤ len) × (e ≤ 331)
unfolding skip_name
skip_name_bounds zero p len pos e low h = ground arith
skip_name_bounds (suc fuel) p len pos e low h =
    ground (arith, skip_name_bounds fuel p len (pos + 1 + at p pos) e)

-- More rounds than there are bytes left change nothing.
skip_name_fuel :
    (fuel : ℕ) (p : List ℕ) (len pos : ℕ)
    → len ≤ pos + fuel
    → skip_name fuel p len pos ≡ skip_name (suc fuel) p len pos
unfolding skip_name
skip_name_fuel zero p len pos h = ground arith
skip_name_fuel (suc fuel) p len pos h =
    ground (arith, skip_name_fuel fuel p len (pos + 1 + at p pos))

length-write_at : (p : List ℕ) (pos : ℕ) (bs : List ℕ) → length (write_at p pos bs) ≡ length p
unfolding write_at
length-write_at p pos [] = refl
length-write_at p pos (b ∷ bs) = length-write_at (set p pos b) (pos + 1) bs ∙ length-set p pos b

write_at-before :
    (p : List ℕ) (pos : ℕ) (bs : List ℕ) (i : ℕ) → i < pos → at (write_at p pos bs) i ≡ at p i
unfolding write_at
write_at-before p pos [] i h = refl
write_at-before p pos (b ∷ bs) i h =
    write_at-before (set p pos b) (pos + 1) bs i (omega arith)
    ∙ get_or-set_ne p pos i b 0 (λ e. omega arith)

length-header : (p : List ℕ) (answer : Bool) → length (header p answer) ≡ length p
unfolding header
length-header p answer =
    let p₁ = set p 2 (132 + at p 2 % 2) in
    let p₂ = set p₁ 3 0 in
    let p₃ = set p₂ 7 (if answer then 1 else 0) in
    let p₄ = set p₃ 10 0 in
    length-set p₄ 11 0
    ∙ length-set p₃ 10 0
    ∙ length-set p₂ 7 (if answer then 1 else 0)
    ∙ length-set p₁ 3 0
    ∙ length-set p 2 (132 + at p 2 % 2)

-- The header has its flags, and all bytes but 2, 3, 7, 10 and 11 are those of the query.
header_keeps :
    (p : List ℕ) (answer : Bool) (i : ℕ)
    → i ≢ 2
    → i ≢ 3
    → i ≢ 7
    → i ≢ 10
    → i ≢ 11
    → at (header p answer) i ≡ at p i
unfolding header
header_keeps p answer i a b c d e =
    let p₁ = set p 2 (132 + at p 2 % 2) in
    let p₂ = set p₁ 3 0 in
    let p₃ = set p₂ 7 (if answer then 1 else 0) in
    let p₄ = set p₃ 10 0 in
    get_or-set_ne p₄ 11 i 0 0 (λ h. e (sym h))
    ∙ get_or-set_ne p₃ 10 i 0 0 (λ h. d (sym h))
    ∙ get_or-set_ne p₂ 7 i (if answer then 1 else 0) 0 (λ h. c (sym h))
    ∙ get_or-set_ne p₁ 3 i 0 0 (λ h. b (sym h))
    ∙ get_or-set_ne p 2 i (132 + at p 2 % 2) 0 (λ h. a (sym h))

header_flags :
    (p : List ℕ) (answer : Bool)
    → 12 ≤ length p
    → (at (header p answer) 2 ≡ 132 + at p 2 % 2)
      × (at (header p answer) 3 ≡ 0)
      × (at (header p answer) 7 ≡ (if answer then 1 else 0))
unfolding header
header_flags (a ∷ b ∷ c ∷ d ∷ e ∷ f ∷ g ∷ h ∷ i ∷ j ∷ k ∷ l ∷ p) answer low = (refl, refl, refl)
header_flags _ answer low = absurd (omega arith)

-- A reply of `n` bytes to the query `p` of `len` bytes, in the buffer `q`.
pub record IsReply (p : List ℕ) (len : ℕ) (q : List ℕ) (n : ℕ) : Type 0 where
  pub same_buffer : length q ≡ length p
  pub fits : n ≤ length p
  pub not_amplified : n ≤ len + 16
  pub same_id : (at q 0 ≡ at p 0) × (at q 1 ≡ at p 1)
  pub flags : (at q 2 ≡ 132 + at p 2 % 2) × (at q 3 ≡ 0)
  pub question_kept : (i : ℕ) → 12 ≤ i → i + 16 * at q 7 < n → at q i ≡ at p i

plain-IsReply :
    (p : List ℕ) (len e : ℕ)
    → 12 < e
    → e + 4 ≤ len
    → len ≤ length p
    → IsReply p len (header p false) (e + 4)
plain-IsReply p len e low fits room = record {
  same_buffer = length-header p false;
  fits = omega arith;
  not_amplified = omega arith;
  same_id = (
    header_keeps p false 0 (omega arith) (omega arith) (omega arith) (omega arith) (omega arith),
    header_keeps p false 1 (omega arith) (omega arith) (omega arith) (omega arith) (omega arith),
  );
  flags = let f = header_flags p false (omega arith) in (f.0, f.1);
  question_kept = λ i from to.
      header_keeps p false i (omega arith) (omega arith) (omega arith) (omega arith) (omega arith);
}

answered-IsReply :
    (p : List ℕ) (len e : ℕ) (bytes : List ℕ)
    → 12 < e
    → e + 4 ≤ len
    → len ≤ length p
    → e + 20 ≤ length p
    → IsReply p len (write_at (header p true) (e + 4) bytes) (e + 4 + 16)
answered-IsReply p len e bytes low fits room space =
    let q = header p true in
    let before = write_at-before q (e + 4) bytes in
    let f = header_flags p true (omega arith) in
    record {
      same_buffer = length-write_at q (e + 4) bytes ∙ length-header p true;
      fits = omega arith;
      not_amplified = omega arith;
      same_id = (
        before 0 (omega arith)
            ∙ header_keeps p true 0 (omega arith) (omega arith) (omega arith) (omega arith)
                (omega arith),
        before 1 (omega arith)
            ∙ header_keeps p true 1 (omega arith) (omega arith) (omega arith) (omega arith)
                (omega arith),
      );
      flags = (before 2 (omega arith) ∙ f.0, before 3 (omega arith) ∙ f.1);
      question_kept = λ i from to.
          let seven : at (write_at q (e + 4) bytes) 7 ≡ 1 = before 7 (omega arith) ∙ f.2 in
          let early : i < e + 4 = omega (arith, seven) in
          before i early
          ∙ header_keeps p true i (omega arith) (omega arith) (omega arith) (omega arith)
              (omega arith);
    }

answer_at-IsReply :
    (p : List ℕ) (len e : ℕ) (address : List ℕ)
    → 12 < e
    → e ≤ len
    → len ≤ length p
    → (answer_at p len address e ≡ (p, 0))
      ⊎ IsReply p len (answer_at p len address e).0 (answer_at p len address e).1
unfolding answer_at
answer_at-IsReply p len e address low fits room = elim (Bool-cases (ltb (len - e) 4)) [
  | inl short ↦ inl (rw short refl)
  | inr long ↦ elim (Bool-cases (asks_address p e)) [
    | inl answer ↦ elim (Bool-cases (ltb (length p - (e + 4)) 16)) [
      | inl full ↦ inl (rw (long, answer, full) refl)
      | inr space ↦ inr (
          rw (long, answer, space)
            (answered-IsReply p len e (rr ++ address) low (ground arith) room (ground arith)))
    ]
    | inr plain ↦ inr (rw (long, plain) (plain-IsReply p len e low (ground arith) room))
  ]
]

accepted_room : (p : List ℕ) (len : ℕ) → refused p len ≡ false → len ≤ length p
unfolding refused
accepted_room p len h = ground arith

-- Whatever arrives, either nothing is sent and the buffer is as it was, or the reply lies inside the
-- buffer, is at most 16 bytes longer than the query, has the query's id, the flags of a response
-- without an error, and the query's question.
pub reply-IsReply :
    (p : List ℕ) (len : ℕ) (address : List ℕ)
    → (reply p len address ≡ (p, 0)) ⊎ IsReply p len (reply p len address).0 (reply p len address).1
unfolding reply
reply-IsReply p len address = elim (Bool-cases (refused p len)) [
  | inl no_query ↦ inl (rw no_query refl)
  | inr query ↦ elim (Option-cases (skip_name len p len 12)) [
    | inl malformed ↦ inl (rw (query, malformed) refl)
    | inr (e, found) ↦
        let (low, fits, small) = skip_name_bounds len p len 12 e (omega arith) found in
        rw (query, found) (answer_at-IsReply p len e address low fits (accepted_room p len query))
  ]
]
