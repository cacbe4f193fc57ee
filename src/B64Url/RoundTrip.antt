-- ===== src/B64Url/RoundTrip.antt =====
-- What `encode` writes, `decode` reads back.
use Prim.Native.Nat.{bit_or}
use remote_wake.Base.{
  ℕ, zero, suc, ◌+◌, ◌-◌, ◌*◌, ◌/◌, ◌%◌, ◌^◌, ◌≤◌, ◌<◌, ◌≡◌, refl, Bool, true, false, not, ◌&&◌,
  Option, none, some, List, [], ◌∷◌, ◌==◌, leb, ap, ◌∙◌, length, get_or, All, arith,
}
use remote_wake.Base.Bits.{shl, bit_or-shl, bit_and-mask}
use mathlib.Core.Path.{ap₂}
use remote_wake.B64Url.{
  k_enc, enc_at, dec_one, enc_len, enc_groups, encode, strip_padding, dec_end, prepend, push_digit,
  dec_loop, decode,
}

-- A test of every number below `n`.
passes : (ℕ → Bool) → ℕ → Bool
passes test zero = true
passes test (suc n) = passes test n && test n

passes_at : (test : ℕ → Bool) (bound d : ℕ) → d < bound → passes test bound ≡ true → test d ≡ true
unfolding passes
passes_at test zero d low ok = elim low [ ]
passes_at test (suc n) d low ok = ground (arith, passes_at test n d)

-- The sextet `d` has its own character, and that is no padding.
reads_back : ℕ → Bool
reads_back d = elim (dec_one (get_or k_enc d 0)) [
  | some e ↦ (e == d) && not (get_or k_enc d 0 == b'=')
  | none ↦ false
]

k_enc_table : passes reads_back 64 ≡ true
unfolding passes reads_back dec_one k_enc
k_enc_table = refl

dec_one-k_enc :
    (d : ℕ) → d < 64 → (dec_one (get_or k_enc d 0) ≡ some d) × ((get_or k_enc d 0 == b'=') ≡ false)
unfolding reads_back
dec_one-k_enc d h = ground (arith, passes_at reads_back 64 d h k_enc_table)

abbrev char : ℕ → ℕ
char d = get_or k_enc d 0

enc_at-char : (v k : ℕ) → enc_at v k ≡ char (v / 2 ^ k % 64)
unfolding enc_at
enc_at-char v k = ap char (bit_and-mask 6 (v / 2 ^ k))

push_digit-eq : (acc d : ℕ) → d < 64 → push_digit acc d ≡ acc % 2 ^ 26 * 64 + d
unfolding push_digit
push_digit-eq acc d h =
    let e : shl acc 6 % 2 ^ 32 ≡ shl (acc % 2 ^ 26) 6 = omega arith in
    rw e (bit_or-shl 6 (acc % 2 ^ 26) d h)

-- One character when fewer than two bits are pending, and one when it completes a byte.
dec_loop-keep :
    (d acc space : ℕ) (cs : List ℕ)
    → d < 64
    → dec_loop (char d ∷ cs) acc 0 space ≡ dec_loop cs (push_digit acc d) 6 space
unfolding dec_loop
dec_loop-keep d acc space cs h = rw ((dec_one-k_enc d h).0, dec_loop)

dec_loop-emit :
    (k d acc space : ℕ) (cs : List ℕ)
    → d < 64
    → 2 ≤ k
    → k < 8
    → dec_loop (char d ∷ cs) acc k (suc space)
      ≡ prepend
          (push_digit acc d / 2 ^ (k + 6 - 8) % 256)
          (dec_loop cs (push_digit acc d) (k + 6 - 8) space)
unfolding dec_loop
dec_loop-emit k d acc space cs h lo hi =
    let enough : leb 8 (k + 6) ≡ true = ground arith in
    rw ((dec_one-k_enc d h).0, dec_loop)
      (rw enough (rw (bit_and-mask 8 (push_digit acc d / 2 ^ (k + 6 - 8)))))

dec_end-zero : (acc k space : ℕ) → k < 6 → acc % 2 ^ k ≡ 0 → dec_loop [] acc k space ≡ some []
unfolding dec_loop dec_end
dec_end-zero acc k space h e = ground (arith, bit_and-mask k acc)

-- Four characters are three bytes, whatever the accumulator held.
dec_loop-four :
    (a b c acc space : ℕ) (cs : List ℕ) (out : Option (List ℕ))
    → a < 256
    → b < 256
    → c < 256
    → ((acc' : ℕ) → dec_loop cs acc' 0 space ≡ out)
    → dec_loop
        (char (a / 4)
          ∷ char (a % 4 * 16 + b / 16)
          ∷ char (b % 16 * 4 + c / 64)
          ∷ char (c % 64)
          ∷ cs)
        acc
        0
        (suc (suc (suc space)))
      ≡ prepend a (prepend b (prepend c out))
dec_loop-four a b c acc space cs out ha hb hc tail =
    let d₀ = a / 4 in
    let d₁ = a % 4 * 16 + b / 16 in
    let d₂ = b % 16 * 4 + c / 64 in
    let d₃ = c % 64 in
    let acc₁ = push_digit acc d₀ in
    let acc₂ = push_digit acc₁ d₁ in
    let acc₃ = push_digit acc₂ d₂ in
    let acc₄ = push_digit acc₃ d₃ in
    let e₁ : acc₁ ≡ acc % 2 ^ 26 * 64 + d₀ = push_digit-eq acc d₀ (omega arith) in
    let e₂ : acc₂ ≡ acc₁ % 2 ^ 26 * 64 + d₁ = push_digit-eq acc₁ d₁ (omega arith) in
    let e₃ : acc₃ ≡ acc₂ % 2 ^ 26 * 64 + d₂ = push_digit-eq acc₂ d₂ (omega arith) in
    let e₄ : acc₄ ≡ acc₃ % 2 ^ 26 * 64 + d₃ = push_digit-eq acc₃ d₃ (omega arith) in
    let byte₁ : acc₂ / 2 ^ 4 % 256 ≡ a = omega arith in
    let byte₂ : acc₃ / 2 ^ 2 % 256 ≡ b = omega arith in
    let byte₃ : acc₄ / 2 ^ 0 % 256 ≡ c = omega arith in
    dec_loop-keep d₀ acc (suc (suc (suc space))) _ (omega arith)
    ∙ dec_loop-emit 6 d₁ acc₁ (suc (suc space)) _ (omega arith) (omega arith) (omega arith)
    ∙ ap₂ prepend byte₁ (
        dec_loop-emit 4 d₂ acc₂ (suc space) _ (omega arith) (omega arith) (omega arith)
        ∙ ap₂ prepend byte₂ (
            dec_loop-emit 2 d₃ acc₃ space cs (omega arith) (omega arith) (omega arith)
            ∙ ap₂ prepend byte₃ (tail acc₄)))

dec_loop-three :
    (a b acc space : ℕ)
    → a < 256
    → b < 256
    → dec_loop
        (char (a / 4) ∷ char (a % 4 * 16 + b / 16) ∷ char (b % 16 * 4) ∷ [])
        acc
        0
        (suc (suc space))
      ≡ some (a ∷ b ∷ [])
unfolding prepend
dec_loop-three a b acc space ha hb =
    let d₀ = a / 4 in
    let d₁ = a % 4 * 16 + b / 16 in
    let d₂ = b % 16 * 4 in
    let acc₁ = push_digit acc d₀ in
    let acc₂ = push_digit acc₁ d₁ in
    let acc₃ = push_digit acc₂ d₂ in
    let e₁ : acc₁ ≡ acc % 2 ^ 26 * 64 + d₀ = push_digit-eq acc d₀ (omega arith) in
    let e₂ : acc₂ ≡ acc₁ % 2 ^ 26 * 64 + d₁ = push_digit-eq acc₁ d₁ (omega arith) in
    let e₃ : acc₃ ≡ acc₂ % 2 ^ 26 * 64 + d₂ = push_digit-eq acc₂ d₂ (omega arith) in
    dec_loop-keep d₀ acc (suc (suc space)) _ (omega arith)
    ∙ dec_loop-emit 6 d₁ acc₁ (suc space) _ (omega arith) (omega arith) (omega arith)
    ∙ ap₂ prepend (omega arith) (
        dec_loop-emit 4 d₂ acc₂ space _ (omega arith) (omega arith) (omega arith)
        ∙ ap₂ prepend (omega arith) (dec_end-zero acc₃ 2 space (omega arith) (omega arith)))

dec_loop-two :
    (a acc space : ℕ)
    → a < 256
    → dec_loop (char (a / 4) ∷ char (a % 4 * 16) ∷ []) acc 0 (suc space) ≡ some (a ∷ [])
unfolding prepend
dec_loop-two a acc space ha =
    let d₀ = a / 4 in
    let d₁ = a % 4 * 16 in
    let acc₁ = push_digit acc d₀ in
    let acc₂ = push_digit acc₁ d₁ in
    let e₁ : acc₁ ≡ acc % 2 ^ 26 * 64 + d₀ = push_digit-eq acc d₀ (omega arith) in
    let e₂ : acc₂ ≡ acc₁ % 2 ^ 26 * 64 + d₁ = push_digit-eq acc₁ d₁ (omega arith) in
    dec_loop-keep d₀ acc (suc space) _ (omega arith)
    ∙ dec_loop-emit 6 d₁ acc₁ space _ (omega arith) (omega arith) (omega arith)
    ∙ ap₂ prepend (omega arith) (dec_end-zero acc₂ 4 space (omega arith) (omega arith))

word_of_two : (a b : ℕ) → b < 256 → bit_or (shl a 16) (shl b 8) ≡ a * 65536 + b * 256
word_of_two a b h = bit_or-shl 16 a (b * 256) (omega arith)

word_of_three :
    (a b c : ℕ)
    → b < 256
    → c < 256
    → bit_or (bit_or (shl a 16) (shl b 8)) c ≡ a * 65536 + b * 256 + c
word_of_three a b c hb hc =
    let e : a * 65536 + b * 256 ≡ shl (a * 256 + b) 8 = omega arith in
    rw (word_of_two a b hb) (rw e (omega (arith, bit_or-shl 8 (a * 256 + b) c hc)))

enc_at-eq : (v k d : ℕ) → v / 2 ^ k % 64 ≡ d → enc_at v k ≡ char d
enc_at-eq v k d e = enc_at-char v k ∙ ap char e

-- What the encoder writes for a group, sextet by sextet.
enc_three :
    (a b c : ℕ) (rest : List ℕ)
    → a < 256
    → b < 256
    → c < 256
    → enc_groups (a ∷ b ∷ c ∷ rest)
      ≡ char (a / 4)
        ∷ char (a % 4 * 16 + b / 16)
        ∷ char (b % 16 * 4 + c / 64)
        ∷ char (c % 64)
        ∷ enc_groups rest
unfolding enc_groups
enc_three a b c rest ha hb hc =
    let v = bit_or (bit_or (shl a 16) (shl b 8)) c in
    let e : v ≡ a * 65536 + b * 256 + c = word_of_three a b c hb hc in
    ap₂ ◌∷◌ (enc_at-eq v 18 (a / 4) (omega arith)) (
      ap₂ ◌∷◌ (enc_at-eq v 12 (a % 4 * 16 + b / 16) (omega arith)) (
        ap₂ ◌∷◌ (enc_at-eq v 6 (b % 16 * 4 + c / 64) (omega arith))
          (ap₂ ◌∷◌ (enc_at-eq v 0 (c % 64) (omega arith)) refl)))

enc_two :
    (a b : ℕ)
    → a < 256
    → b < 256
    → enc_groups (a ∷ b ∷ []) ≡ char (a / 4) ∷ char (a % 4 * 16 + b / 16) ∷ char (b % 16 * 4) ∷ []
unfolding enc_groups
enc_two a b ha hb =
    let v = bit_or (shl a 16) (shl b 8) in
    let e : v ≡ a * 65536 + b * 256 = word_of_two a b hb in
    ap₂ ◌∷◌ (enc_at-eq v 18 (a / 4) (omega arith)) (
      ap₂ ◌∷◌ (enc_at-eq v 12 (a % 4 * 16 + b / 16) (omega arith))
        (ap₂ ◌∷◌ (enc_at-eq v 6 (b % 16 * 4) (omega arith)) refl))

enc_one : (a : ℕ) → a < 256 → enc_groups (a ∷ []) ≡ char (a / 4) ∷ char (a % 4 * 16) ∷ []
unfolding enc_groups
enc_one a ha =
    ap₂ ◌∷◌ (enc_at-eq (shl a 16) 18 (a / 4) (omega arith))
      (ap₂ ◌∷◌ (enc_at-eq (shl a 16) 12 (a % 4 * 16) (omega arith)) refl)

-- A list of bytes.
abbrev pub AreBytes : List ℕ → Type 0
AreBytes = All (λ b. b < 256)

dec_loop-enc_groups :
    (bytes : List ℕ) (acc space : ℕ)
    → AreBytes bytes
    → length bytes ≤ space
    → dec_loop (enc_groups bytes) acc 0 space ≡ some bytes
unfolding prepend
dec_loop-enc_groups [] acc space h n =
    unfold enc_groups in dec_end-zero acc 0 space (omega arith) (omega arith)
dec_loop-enc_groups (a ∷ []) acc zero h n = absurd (omega arith)
dec_loop-enc_groups (a ∷ []) acc (suc space) h n = rw (enc_one a h.0) (dec_loop-two a acc space h.0)
dec_loop-enc_groups (a ∷ b ∷ []) acc (suc (suc space)) h n =
    rw (enc_two a b h.0 h.1.0) (dec_loop-three a b acc space h.0 h.1.0)
dec_loop-enc_groups (a ∷ b ∷ []) acc (suc zero) h n = absurd (omega arith)
dec_loop-enc_groups (a ∷ b ∷ []) acc zero h n = absurd (omega arith)
dec_loop-enc_groups (a ∷ b ∷ c ∷ rest) acc (suc (suc (suc space))) h n =
    rw (enc_three a b c rest h.0 h.1.0 h.1.1.0) (
      dec_loop-four a b c acc space (enc_groups rest) (some rest) h.0 h.1.0 h.1.1.0
        (λ acc'. dec_loop-enc_groups rest acc' space h.1.1.1 (omega arith)))
dec_loop-enc_groups (a ∷ b ∷ c ∷ rest) acc (suc (suc zero)) h n = absurd (omega arith)
dec_loop-enc_groups (a ∷ b ∷ c ∷ rest) acc (suc zero) h n = absurd (omega arith)
dec_loop-enc_groups (a ∷ b ∷ c ∷ rest) acc zero h n = absurd (omega arith)

-- No character of the encoder is taken for padding.
abbrev NoPadding : List ℕ → Type 0
NoPadding = All (λ c. (c == b'=') ≡ false)

enc_at-no_padding : (v k : ℕ) → (enc_at v k == b'=') ≡ false
enc_at-no_padding v k = rw (enc_at-char v k) (dec_one-k_enc (v / 2 ^ k % 64) (omega arith)).1

enc_groups-NoPadding : (bytes : List ℕ) → NoPadding (enc_groups bytes)
unfolding enc_groups
enc_groups-NoPadding [] = tt
enc_groups-NoPadding (a ∷ []) =
    let v = shl a 16 in (enc_at-no_padding v 18, (enc_at-no_padding v 12, tt))
enc_groups-NoPadding (a ∷ b ∷ []) =
    let v = bit_or (shl a 16) (shl b 8) in
    (enc_at-no_padding v 18, (enc_at-no_padding v 12, (enc_at-no_padding v 6, tt)))
enc_groups-NoPadding (a ∷ b ∷ c ∷ rest) =
    let v = bit_or (bit_or (shl a 16) (shl b 8)) c in
    (
      enc_at-no_padding v 18,
      (
        enc_at-no_padding v 12,
        (enc_at-no_padding v 6, (enc_at-no_padding v 0, enc_groups-NoPadding rest)),
      ),
    )

strip_padding-NoPadding : (cs : List ℕ) → NoPadding cs → strip_padding cs ≡ cs
unfolding strip_padding
strip_padding-NoPadding [] h = refl
strip_padding-NoPadding (c ∷ []) h = rw h.0
strip_padding-NoPadding (c ∷ d ∷ cs) h = rw (strip_padding-NoPadding (d ∷ cs) h.1)

length-enc_groups : (bytes : List ℕ) → length (enc_groups bytes) ≡ (length bytes * 4 + 2) / 3
unfolding enc_groups
length-enc_groups [] = refl
length-enc_groups (a ∷ []) = refl
length-enc_groups (a ∷ b ∷ []) = refl
length-enc_groups (a ∷ b ∷ c ∷ rest) = omega (arith, length-enc_groups rest)

-- Bytes survive the trip: with room for the characters and the NUL, and for the bytes on the way
-- back, encoding succeeds, writes exactly as many characters as the buffer macro allows for, and
-- decoding them gives the same bytes. The input must be shorter than 2 ^ 30 bytes, where the
-- macro's 32-bit product does not wrap.
pub decode-encode :
    (bytes : List ℕ) (room space : ℕ)
    → AreBytes bytes
    → length bytes < 2 ^ 30
    → enc_len (length bytes) < room
    → length bytes ≤ space
    → (chars : List ℕ) × (encode (some bytes) (some room) ≡ some chars)
      × (length chars ≡ enc_len (length bytes))
      × (decode (some chars) (some space) ≡ some bytes)
unfolding encode decode
decode-encode bytes room space h short r n = (
  enc_groups bytes,
  ground arith,
  omega (arith, length-enc_groups bytes),
  rw (strip_padding-NoPadding (enc_groups bytes) (enc_groups-NoPadding bytes))
      (dec_loop-enc_groups bytes 0 space h n),
)
