-- ===== src/B64Url/Bounds.antt =====
-- What `decode` writes, on any input at all.
use Prim.Native.Nat.{bit_and}
use remote_wake.Base.{
  ℕ, zero, suc, ◌+◌, ◌-◌, ◌*◌, ◌/◌, ◌≤◌, ◌<◌, ◌≡◌, inl, inr, refl, Option, none, some, List, [],
  ◌∷◌, leb, length, All, Bool-cases, Option-cases, arith,
}
use remote_wake.Base.Bits.{shr, bit_and-mask}
use remote_wake.B64Url.{dec_one, strip_padding, dec_end, prepend, push_digit, dec_loop, decode}

-- A result: as many bytes as six bits for each character make, within the space.
abbrev Written : ℕ → ℕ → ℕ → List ℕ → Type 0
Written chars bits space bs =
    (length bs ≤ space)
    × All (λ b. b < 256) bs
    × (length bs * 8 ≤ bits + 6 * chars)
    × (bits + 6 * chars < length bs * 8 + 6)

prepend-some :
    (b : ℕ) (o : Option (List ℕ)) (bs : List ℕ)
    → prepend b o ≡ some bs
    → (rest : List ℕ) × (o ≡ some rest) × (bs ≡ b ∷ rest)
unfolding prepend
prepend-some b none bs h = ground arith
prepend-some b (some rest) bs h = (rest, refl, ground arith)

dec_end-Written :
    (acc bits space : ℕ) (bs : List ℕ) → dec_end acc bits ≡ some bs → Written 0 bits space bs
unfolding dec_end
dec_end-Written acc bits space [] h = (omega arith, tt, omega arith, ground arith)
dec_end-Written acc bits space (b ∷ bs) h = absurd (ground arith)

mask-lt : (a : ℕ) → bit_and a 0xff < 256
mask-lt a = omega (arith, bit_and-mask 8 a)

-- A character that completes a byte.
full-Written :
    (n bits left b : ℕ) (o : Option (List ℕ)) (bs : List ℕ)
    → bits < 8
    → 8 ≤ bits + 6
    → b < 256
    → prepend b o ≡ some bs
    → ((rest : List ℕ) → o ≡ some rest → Written n (bits + 6 - 8) left rest)
    → Written (suc n) bits (suc left) bs
full-Written n bits left b o bs small full byte h ih =
    let (rest, e, split) = prepend-some b o bs h in
    let w = ih rest e in
    rw split (omega (arith, w), (byte, w.1), omega (arith, w), omega (arith, w))

dec_loop-Written :
    (cs : List ℕ) (acc bits space : ℕ) (bs : List ℕ)
    → bits < 8
    → dec_loop cs acc bits space ≡ some bs
    → Written (length cs) bits space bs
unfolding dec_loop
dec_loop-Written [] acc bits space bs small h = dec_end-Written acc bits space bs h
dec_loop-Written (c ∷ cs) acc bits zero bs small h = elim (Option-cases (dec_one c)) [
  | inl bad ↦ absurd (ground arith)
  | inr (d, e) ↦ ground (arith, dec_loop-Written cs (push_digit acc d) (bits + 6) zero bs)
]
dec_loop-Written (c ∷ cs) acc bits (suc left) bs small h = elim (Option-cases (dec_one c)) [
  | inl bad ↦ absurd (ground arith)
  | inr (d, e) ↦ elim (Bool-cases (leb 8 (bits + 6))) [
    | inl full ↦
        full-Written (length cs) bits left (bit_and (shr (push_digit acc d) (bits + 6 - 8)) 0xff)
          (dec_loop cs (push_digit acc d) (bits + 6 - 8) left) bs small (ground arith) (mask-lt _)
          (ground arith)
          (λ rest r.
            dec_loop-Written cs (push_digit acc d) (bits + 6 - 8) left rest (omega arith) r)
    | inr more ↦ ground (arith, dec_loop-Written cs (push_digit acc d) (bits + 6) (suc left) bs)
  ]
]

-- `decode` is safe on any input: what it writes fits the buffer, is bytes, and there is one byte for
-- each eight bits of the characters before the padding.
pub decode_bounds :
    (chars bs : List ℕ) (space : ℕ)
    → decode (some chars) (some space) ≡ some bs
    → (length bs ≤ space)
      × All (λ b. b < 256) bs
      × (length bs ≡ 6 * length (strip_padding chars) / 8)
unfolding decode
decode_bounds chars bs space h =
    let w = dec_loop-Written (strip_padding chars) 0 0 space bs (omega arith) h in
    (w.0, w.1, omega (arith, w))
