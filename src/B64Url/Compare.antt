-- ===== src/B64Url/Compare.antt =====
-- The comparison in constant time decides equality.
use Prim.Native.Nat.{bit_or, bit_xor}
use remote_wake.Base.{
  ℕ, ◌%◌, ◌^◌, ◌<◌, ◌≡◌, ◌↔◌, refl, true, List, [], ◌∷◌, ap, ◌∙◌, length, All, ==_iff, arith,
}
use mathlib.Core.Path.{ap₂}
use remote_wake.Base.Bits.{bit_or-eq_zero, bit_xor-eq_zero, bit_xor_self, bit_xor-lt}
use remote_wake.B64Url.{diff_loop, ct_equal}

-- Bytes differ in their low eight bits if they differ.
byte-xor : (a b : ℕ) → a < 256 → b < 256 → bit_xor a b % 2 ^ 8 ≡ 0 → a ≡ b
byte-xor a b ha hb e = bit_xor-eq_zero a a b (omega arith) (omega (arith, bit_xor-lt 8 a b ha hb))

diff_loop-zero :
    (xs ys : List ℕ) (diff : ℕ)
    → All (λ b. b < 256) xs
    → All (λ b. b < 256) ys
    → length xs ≡ length ys
    → diff_loop (length xs) xs ys diff ≡ 0
    → (diff ≡ 0) × (xs ≡ ys)
unfolding diff_loop
diff_loop-zero [] [] diff hx hy l e = (e, refl)
diff_loop-zero [] (y ∷ ys) diff hx hy l e = absurd (omega arith)
diff_loop-zero (x ∷ xs) [] diff hx hy l e = absurd (omega arith)
diff_loop-zero (x ∷ xs) (y ∷ ys) diff hx hy l e =
    let rest = diff_loop-zero xs ys (bit_or diff (bit_xor x y % 2 ^ 8)) hx.1 hy.1 (omega arith) e in
    let parts = bit_or-eq_zero diff diff (bit_xor x y % 2 ^ 8) (omega arith) rest.0 in
    (parts.0, ap₂ ◌∷◌ (byte-xor x y hx.0 hy.0 parts.1) rest.1)

diff_loop_self : (xs : List ℕ) → diff_loop (length xs) xs xs 0 ≡ 0
unfolding diff_loop
diff_loop_self [] = refl
diff_loop_self (x ∷ xs) =
    let e : bit_or 0 (bit_xor x x % 2 ^ 8) ≡ 0 = rw (bit_xor_self x x (omega arith)) in
    ap (diff_loop (length xs) xs xs) e ∙ diff_loop_self xs

-- `rw_ct_equal` of two buffers of `len` bytes is true exactly when they are equal, though it reads
-- them all the way whatever they hold.
pub ct_equal_iff :
    (xs ys : List ℕ)
    → All (λ b. b < 256) xs
    → All (λ b. b < 256) ys
    → length xs ≡ length ys
    → (ct_equal xs ys (length xs) ≡ true) ↔ (xs ≡ ys)
unfolding ct_equal
ct_equal_iff xs ys hx hy l = (
  λ h. (diff_loop-zero xs ys 0 hx hy l ((==_iff _ 0).0 h)).1,
  λ e. rw (← e) (rw (diff_loop_self xs)),
)
