-- ===== src/B64Url/Tests.antt =====
-- The codec at concrete bytes.
use remote_wake.Base.{ℕ, ◌≡◌, refl, List, some, none, [], ◌∷◌, length, codes, arith}
use remote_wake.B64Url.{
  enc_len, encode, decode, strip_padding, dec_loop, dec_one, prepend, dec_end, push_digit,
}
use remote_wake.B64Url.RoundTrip.{decode-encode}

abbrev message : List ℕ
message = 0xfb ∷ 0xff ∷ 0x00 ∷ 0x61 ∷ []

decode-encode_example :
    (chars : List ℕ) × (encode (some message) (some 7) ≡ some chars)
    × (length chars ≡ enc_len 4)
    × (decode (some chars) (some 64) ≡ some message)
decode-encode_example =
    decode-encode message 7 64 (omega arith) (omega arith) (omega arith) (omega arith)

decodes_standard : decode (some (codes "+/8AYQ==")) (some 64) ≡ some message
unfolding decode strip_padding dec_loop dec_one prepend dec_end push_digit
decodes_standard = refl

rejects_loose_bits : decode (some (codes "AB")) (some 64) ≡ none
unfolding decode strip_padding dec_loop dec_one prepend dec_end push_digit
rejects_loose_bits = refl
