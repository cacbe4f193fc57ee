-- ===== src/B64Url.antt =====
-- firmware/main/b64url.c and b64url.h: base64url, and the comparison in constant time. A buffer is
-- the list of its bytes, a NULL pointer is `none`, and -1 is `none` among the results.
pub mod RoundTrip
pub mod Bounds
pub mod Compare
mod Tests
use Prim.Native.Nat.{bit_and, bit_or, bit_xor}
use remote_wake.Base.{
  ℕ, zero, suc, ◌+◌, ◌-◌, ◌*◌, ◌/◌, ◌%◌, ◌^◌, Bool, true, false, not, ◌&&◌, ◌||◌, Option, none,
  some, List, [], ◌∷◌, ltb, leb, ◌==◌, if◌then◌else◌, length, get_or, codes,
}
use remote_wake.Base.Bits.{shl, shr}

unfoldable pub k_enc : List ℕ
k_enc = codes "ABCDEFGHIJKLMNOPQRSTUVWXYZabcdefghijklmnopqrstuvwxyz0123456789-_"

-- `k_enc[(v >> k) & 0x3f]`
unfoldable pub enc_at : ℕ → ℕ → ℕ
unfolding k_enc
enc_at v k = get_or k_enc (bit_and (shr v k) 0x3f) 0

unfoldable pub dec_one : ℕ → Option ℕ
dec_one c =
    if leb b'A' c && leb c b'Z'
    then some (c - b'A')
    else if leb b'a' c && leb c b'z'
    then some (c - b'a' + 26)
    else if leb b'0' c && leb c b'9'
    then some (c - b'0' + 52)
    else if c == b'-'
    then some 62
    else if c == b'_'
    then some 63
    else if c == b'+'
    then some 62
    else if c == b'/'
    then some 63
    else none

-- RW_B64URL_ENC_LEN: `size_t` has 32 bits here.
abbrev pub enc_len : ℕ → ℕ
enc_len n = (n * 4 + 2) % 2 ^ 32 / 3

-- The loop over three bytes at a time, and the one or two bytes that are left.
unfoldable pub enc_groups : List ℕ → List ℕ
unfolding enc_at
enc_groups [] = []
enc_groups (a ∷ []) = let v = shl a 16 in enc_at v 18 ∷ enc_at v 12 ∷ []
enc_groups (a ∷ b ∷ []) =
    let v = bit_or (shl a 16) (shl b 8) in enc_at v 18 ∷ enc_at v 12 ∷ enc_at v 6 ∷ []
enc_groups (a ∷ b ∷ c ∷ rest) =
    let v = bit_or (bit_or (shl a 16) (shl b 8)) c in
    enc_at v 18 ∷ enc_at v 12 ∷ enc_at v 6 ∷ enc_at v 0 ∷ enc_groups rest

-- The characters written before the NUL; their number is what the C function returns.
unfoldable pub encode : Option (List ℕ) → Option ℕ → Option (List ℕ)
unfolding enc_groups
encode none out_sz = none
encode (some bytes) none = none
encode (some bytes) (some out_sz) =
    if ltb out_sz (enc_len (length bytes) + 1) then none else some (enc_groups bytes)

unfoldable pub drop_pad : ℕ → List ℕ → List ℕ
drop_pad c [] = if c == b'=' then [] else c ∷ []
drop_pad c (d ∷ ds) = c ∷ d ∷ ds

-- `while (len > 0 && in[len - 1] == '=') len--`
unfoldable pub strip_padding : List ℕ → List ℕ
unfolding drop_pad
strip_padding [] = []
strip_padding (c ∷ cs) = drop_pad c (strip_padding cs)

-- The test after the loop: fewer than six bits are left over, and they are zero.
unfoldable pub dec_end : ℕ → ℕ → Option (List ℕ)
dec_end acc bits = if leb 6 bits || not (bit_and acc (2 ^ bits - 1) == 0) then none else some []

unfoldable pub prepend : ℕ → Option (List ℕ) → Option (List ℕ)
prepend b none = none
prepend b (some bs) = some (b ∷ bs)

-- `acc = (acc << 6) | d` on a `uint32_t`.
unfoldable pub push_digit : ℕ → ℕ → ℕ
push_digit acc d = bit_or (shl acc 6 % 2 ^ 32) d

-- The loop over the characters; `space` is `out_sz - o`.
unfoldable pub dec_loop : List ℕ → ℕ → ℕ → ℕ → Option (List ℕ)
dec_loop [] acc bits space = dec_end acc bits
dec_loop (c ∷ cs) acc bits space = elim (dec_one c) [
  | none ↦ none
  | some d ↦ elim (leb 8 (bits + 6)) [
    | true ↦ elim space [
      | zero ↦ none
      | suc left ↦
          prepend (bit_and (shr (push_digit acc d) (bits + 6 - 8)) 0xff)
            (dec_loop cs (push_digit acc d) (bits + 6 - 8) left)
    ]
    | false ↦ dec_loop cs (push_digit acc d) (bits + 6) space
  ]
]

-- The bytes written, in number what the C function returns. What a failed call leaves in the
-- buffer is not modelled.
unfoldable pub decode : Option (List ℕ) → Option ℕ → Option (List ℕ)
decode none out_sz = none
decode (some chars) none = none
decode (some chars) (some out_sz) = dec_loop (strip_padding chars) 0 0 out_sz

-- `diff |= (uint8_t)(pa[i] ^ pb[i])` over the first `len` bytes.
unfoldable pub diff_loop : ℕ → List ℕ → List ℕ → ℕ → ℕ
diff_loop zero xs ys diff = diff
diff_loop (suc n) [] ys diff = diff
diff_loop (suc n) (a ∷ xs) [] diff = diff
diff_loop (suc n) (a ∷ xs) (b ∷ ys) diff = diff_loop n xs ys (bit_or diff (bit_xor a b % 2 ^ 8))

-- Both buffers have at least `len` bytes.
unfoldable pub ct_equal : List ℕ → List ℕ → ℕ → Bool
unfolding diff_loop
ct_equal xs ys len = diff_loop len xs ys 0 == 0
