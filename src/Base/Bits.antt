-- ===== src/Base/Bits.antt =====
-- Bitwise operations on natural numbers: the law of the lowest digit, and what the code's
-- masks, shifts and differences come to.
use Prim.Native.Nat.{
  ℕ, zero, suc, ◌+◌, ◌-◌, ◌*◌, ◌/◌, ◌%◌, ◌^◌, ◌≤◌, ◌<◌, min, max, bit_and, bit_or, bit_xor, digits,
  bitwise, differ, bit_and-bitwise, bit_or-bitwise, bit_xor-bitwise,
}
use mathlib.Core.Path.{◌≡◌, refl, ap}
use native.Mathlib.Nat.{pow-suc, one-le-pow}
use native.Mathlib.Omega.{arith}

abbrev pub shl : ℕ → ℕ → ℕ
shl x k = x * 2 ^ k

abbrev pub shr : ℕ → ℕ → ℕ
shr x k = x / 2 ^ k

-- `digits` does not depend on its fuel, as long as that is enough.
enough_fuel :
    (z : ℕ → ℕ) (f : ℕ → ℕ → ℕ) (m n a b : ℕ) → a ≤ m → a ≤ n → digits z f m a b ≡ digits z f n a b
enough_fuel z f m n zero b p q = none_left m n
  where
    none_left : (m n : ℕ) → digits z f m 0 b ≡ digits z f n 0 b
    none_left zero zero = refl
    none_left zero (suc n) = refl
    none_left (suc m) zero = refl
    none_left (suc m) (suc n) = refl
enough_fuel z f zero n (suc a) b p q = elim p [ ]
enough_fuel z f (suc m) zero (suc a) b p q = elim q [ ]
enough_fuel z f (suc m) (suc n) (suc a) b p q =
    rw (enough_fuel z f m n (suc a / 2) (b / 2) (omega arith) (omega arith))

lowest_digit :
    (z : ℕ → ℕ) (f : ℕ → ℕ → ℕ) (a b : ℕ)
    → bitwise z f (suc a) b ≡ f (suc a % 2) (b % 2) + 2 * bitwise z f (suc a / 2) (b / 2)
lowest_digit z f a b =
    let half = suc a / 2 in
    omega (arith, enough_fuel z f a half half (b / 2) (omega arith) (omega arith))

pub bit_or_digit : (a b : ℕ) → bit_or a b ≡ max (a % 2) (b % 2) + 2 * bit_or (a / 2) (b / 2)
bit_or_digit zero b = simp bit_or-bitwise (omega arith)
bit_or_digit (suc a) b = simp bit_or-bitwise (lowest_digit (λ y. y) max a b)

pub bit_and_digit : (a b : ℕ) → bit_and a b ≡ min (a % 2) (b % 2) + 2 * bit_and (a / 2) (b / 2)
bit_and_digit zero b = simp bit_and-bitwise (omega arith)
bit_and_digit (suc a) b = simp bit_and-bitwise (lowest_digit (λ y. 0) min a b)

pub bit_xor_digit : (a b : ℕ) → bit_xor a b ≡ differ (a % 2) (b % 2) + 2 * bit_xor (a / 2) (b / 2)
bit_xor_digit zero b = simp bit_xor-bitwise (omega arith)
bit_xor_digit (suc a) b = simp bit_xor-bitwise (lowest_digit (λ y. y) differ a b)

-- The inductions go from `a / 2` to `a`, on a bound.
or_fields_zero : (n a : ℕ) → a ≤ n → bit_or a 0 ≡ a
or_fields_zero n zero h = refl
or_fields_zero zero (suc a) h = elim h [ ]
or_fields_zero (suc n) (suc a) h =
    omega (arith, bit_or_digit (suc a) 0, or_fields_zero n (suc a / 2) (omega arith))

and_zero : (n a : ℕ) → a ≤ n → bit_and a 0 ≡ 0
and_zero n zero h = refl
and_zero zero (suc a) h = elim h [ ]
and_zero (suc n) (suc a) h =
    omega (arith, bit_and_digit (suc a) 0, and_zero n (suc a / 2) (omega arith))

doubled : (q k : ℕ) → q * 2 ^ suc k ≡ q * 2 ^ k * 2
doubled q k = omega (arith, ap (λ (t : ℕ). q * t) (pow-suc 2 k))

-- `(q << k) | r` is a sum where `r` fits below the shift.
pub bit_or-shl : (k q r : ℕ) → r < 2 ^ k → bit_or (shl q k) r ≡ q * 2 ^ k + r
bit_or-shl zero q r h = ground (arith, or_fields_zero q q)
bit_or-shl (suc k) q r h =
    ground (arith, bit_or_digit (q * 2 ^ suc k) r, doubled q k, pow-suc 2 k, bit_or-shl k q (r / 2))

low_field : (k q r : ℕ) → r < 2 ^ k → bit_and (q * 2 ^ k + r) (2 ^ k - 1) ≡ r
low_field zero q r h = omega (arith, and_zero (q * 1 + r) (q * 1 + r) (omega arith))
low_field (suc k) q r h = ground (
  arith,
  bit_and_digit (q * 2 ^ suc k + r) (2 ^ suc k - 1),
  doubled q k,
  pow-suc 2 k,
  one-le-pow k 2,
  low_field k q (r / 2),
)

-- `a & ((1 << k) - 1)` is the remainder.
pub bit_and-mask : (k a : ℕ) → bit_and a (2 ^ k - 1) ≡ a % 2 ^ k
bit_and-mask k a = ground (arith, one-le-pow k 2, low_field k (a / 2 ^ k) (a % 2 ^ k))

pub bit_or-eq_zero : (n a b : ℕ) → a ≤ n → bit_or a b ≡ 0 → (a ≡ 0) × (b ≡ 0)
bit_or-eq_zero n zero b h e = (refl, ground (arith, bit_or-bitwise 0 b))
bit_or-eq_zero zero (suc a) b h e = elim h [ ]
bit_or-eq_zero (suc n) (suc a) b h e = omega (
  arith,
  bit_or_digit (suc a) b,
  bit_or-eq_zero n (suc a / 2) (b / 2) (omega arith) (omega (arith, bit_or_digit (suc a) b)),
)

differ-eq_zero : (x y : ℕ) → differ x y ≡ 0 → x ≡ y
differ-eq_zero zero y e = omega arith
differ-eq_zero (suc x) zero e = absurd (omega arith)
differ-eq_zero (suc x) (suc y) e = ap suc (differ-eq_zero x y e)

differ_self : (x : ℕ) → differ x x ≡ 0
differ_self zero = refl
differ_self (suc x) = differ_self x

pub bit_xor-eq_zero : (n a b : ℕ) → a ≤ n → bit_xor a b ≡ 0 → a ≡ b
bit_xor-eq_zero n zero b h e = omega (arith, bit_xor-bitwise 0 b)
bit_xor-eq_zero zero (suc a) b h e = elim h [ ]
bit_xor-eq_zero (suc n) (suc a) b h e =
    let d : differ (suc a % 2) (b % 2) + 2 * bit_xor (suc a / 2) (b / 2) ≡ 0 =
      omega (arith, bit_xor_digit (suc a) b) in
    omega (
      arith,
      differ-eq_zero (suc a % 2) (b % 2) (omega arith),
      bit_xor-eq_zero n (suc a / 2) (b / 2) (omega arith) (omega arith),
    )

pub bit_xor_self : (n a : ℕ) → a ≤ n → bit_xor a a ≡ 0
bit_xor_self n zero h = refl
bit_xor_self zero (suc a) h = elim h [ ]
bit_xor_self (suc n) (suc a) h = omega (
  arith,
  bit_xor_digit (suc a) (suc a),
  differ_self (suc a % 2),
  bit_xor_self n (suc a / 2) (omega arith),
)

pub bit_or_zero : (a : ℕ) → bit_or a 0 ≡ a
bit_or_zero a = or_fields_zero a a (omega arith)

digit_differ-lt : (x y : ℕ) → x < 2 → y < 2 → differ x y < 2
digit_differ-lt zero y hx hy = hy
digit_differ-lt (suc zero) zero hx hy = hx
digit_differ-lt (suc zero) (suc zero) hx hy = omega arith
digit_differ-lt (suc zero) (suc (suc y)) hx hy = absurd (omega arith)
digit_differ-lt (suc (suc x)) y hx hy = absurd (omega arith)

pub bit_xor-lt : (k a b : ℕ) → a < 2 ^ k → b < 2 ^ k → bit_xor a b < 2 ^ k
bit_xor-lt zero a b ha hb = ground (arith, bit_xor-bitwise 0 0)
bit_xor-lt (suc k) a b ha hb = ground (
  arith,
  pow-suc 2 k,
  bit_xor_digit a b,
  bit_xor-lt k (a / 2) (b / 2),
  digit_differ-lt (a % 2) (b % 2),
)
