-- ===== src/Config/Identity.antt =====
-- The identity of the device, firmware/main/config.c, `ensure_identity`: an id of 16 hexadecimal digits
-- and a token of 43 characters, made from random bytes once.
use remote_wake.Base.{
  ℕ, ◌+◌, ◌/◌, ◌%◌, ◌≡◌, ◌≢◌, inl, inr, Option-cases, refl, sym, ap, ◌∙◌, Bool, true, false, List,
  [], ◌∷◌, Option, some, none, ltb, ◌==◌, if◌then◌else◌, length, codes, if-holds, arith,
}
use remote_wake.B64Url.{encode}
use remote_wake.Config.Slots.{Err, is_ok, Reading}
use remote_wake.Config.Texts.{TextStore, is_found, read_text, write_text}
use remote_wake.Config.Relay.{IsTextStore, write_text-read, write_text-other}

abbrev hex_digit : ℕ → ℕ
hex_digit n = if ltb n 10 then 48 + n else 87 + n

-- `snprintf("%02x")` of each byte.
unfoldable pub hex_of : List ℕ → List ℕ
hex_of [] = []
hex_of (b ∷ bytes) = hex_digit (b / 16 % 16) ∷ hex_digit (b % 16) ∷ hex_of bytes

-- A fresh token, or none where it has not its length.
unfoldable pub fresh_token : List ℕ → Option (List ℕ)
fresh_token raw = elim (encode (some raw) (some 44)) [
  | none ↦ none
  | some token ↦ if length token == 43 then some token else none
]

-- Whether a reading has a text of the right length.
abbrev pub usable : ℕ → Reading (List ℕ) → Bool
usable n (Reading.found text) = length text == n
usable n (Reading.fails e) = false

module _ {S : Type 0} (store : TextStore S) (default_url : List ℕ) where
  -- One of the two texts: what is stored where that is usable, and else a fresh one that is stored.
  unfoldable pub ensure_text : S → List ℕ → ℕ → Option (List ℕ) → S × Reading (List ℕ)
  unfolding read_text write_text
  ensure_text s key n none =
      let stored = read_text store default_url s key (n + 1) in
      (s, if usable n stored then stored else Reading.fails Err.other)
  ensure_text s key n (some fresh) =
      let stored = read_text store default_url s key (n + 1) in
      let (written, e) = write_text store default_url s key fresh in
      if usable n stored
      then (s, stored)
      else if is_ok e
      then (written, Reading.found fresh)
      else (written, Reading.fails e)

  -- The store after it, the id and the token; where the id fails, the token is not looked at.
  unfoldable pub ensure_identity : S → List ℕ → List ℕ → S × Reading (List ℕ) × Reading (List ℕ)
  unfolding ensure_text hex_of fresh_token
  ensure_identity s raw_id raw_token =
      let (s₁, id) = ensure_text s (codes "dev_id") 16 (some (hex_of raw_id)) in
      let (s₂, token) = ensure_text s₁ (codes "dev_tok") 43 (fresh_token raw_token) in
      if is_found id then (s₂, id, token) else (s₁, id, Reading.fails Err.other)

hex_of-length : (bytes : List ℕ) → length (hex_of bytes) ≡ length bytes + length bytes
unfolding hex_of
hex_of-length [] = omega arith
hex_of-length (b ∷ bytes) = omega (arith, hex_of-length bytes)

hex_length :
    (bytes text : List ℕ) → length bytes ≡ 8 → some (hex_of bytes) ≡ some text → length text ≡ 16
hex_length bytes text eight e =
    let this : hex_of bytes ≡ text = ground arith in
    omega (arith, sym (ap length this), hex_of-length bytes)

fresh_token-length : (raw token : List ℕ) → fresh_token raw ≡ some token → length token ≡ 43
unfolding fresh_token
fresh_token-length raw token h = elim (Option-cases (encode (some raw) (some 44))) [
  | inl bad ↦ absurd (ground arith)
  | inr (t, made) ↦ ground arith
]

module _ {S : Type 0} (store : TextStore S) (laws : IsTextStore store) (default_url : List ℕ) where
  abbrev pub reads : S → List ℕ → ℕ → Reading (List ℕ)
  reads s key n = read_text store default_url s key (n + 1)

  -- What a success leaves: the text is stored, with its length.
  abbrev Stored : List ℕ → ℕ → S × Reading (List ℕ) → Type 0
  Stored key n p = is_found p.1 ≡ true → (reads p.0 key n ≡ p.1) × (usable n p.1 ≡ true)

  ensure_text-Stored :
      (s : S) (key : List ℕ) (n : ℕ) (fresh : Option (List ℕ))
      → ((text : List ℕ) → fresh ≡ some text → length text ≡ n)
      → Stored key n (ensure_text store default_url s key n fresh)
  unfolding ensure_text
  ensure_text-Stored s key n none sized =
      if-holds (λ (r : Reading (List ℕ)). Stored key n (s, r)) (usable n (reads s key n)) _ _
        (λ good found. (refl, good)) (λ bad found. absurd (ground arith))
  ensure_text-Stored s key n (some fresh) sized =
      let w = write_text store default_url s key fresh in
      if-holds (Stored key n) (usable n (reads s key n)) _ _ (λ good found. (refl, good))
        (λ bad.
          if-holds (Stored key n) (is_ok w.1) _ _
            (λ fine found. (
              write_text-read store laws default_url s key fresh (n + 1)
                  (let l = sized fresh refl in omega arith) fine,
              let l = sized fresh refl in ground arith,
            ))
            (λ failed found. absurd (ground arith)))

  pub ensure_text-other :
      (s : S) (key other : List ℕ) (n m : ℕ) (fresh : Option (List ℕ))
      → key ≢ other
      → reads (ensure_text store default_url s key n fresh).0 other m ≡ reads s other m
  unfolding ensure_text
  ensure_text-other s key other n m none ne = refl
  ensure_text-other s key other n m (some fresh) ne =
      let Q = λ (p : S × Reading (List ℕ)). reads p.0 other m ≡ reads s other m in
      let w = write_text store default_url s key fresh in
      let same = write_text-other store laws default_url s key other fresh (m + 1) ne in
      if-holds Q (usable n (reads s key n)) _ _ (λ good. refl)
        (λ bad. if-holds Q (is_ok w.1) _ _ (λ fine. same) (λ failed. same))

  ensure_text-kept :
      (s : S) (key : List ℕ) (n : ℕ) (fresh : Option (List ℕ))
      → usable n (reads s key n) ≡ true
      → ensure_text store default_url s key n fresh ≡ (s, reads s key n)
  unfolding ensure_text
  ensure_text-kept s key n none good = rw good refl
  ensure_text-kept s key n (some fresh) good = rw good refl

  -- Both texts as they are stored after a success.
  pub stored_both :
      (s : S) (raw_id raw_token : List ℕ)
      → length raw_id ≡ 8
      → let a = ensure_text store default_url s (codes "dev_id") 16 (some (hex_of raw_id)) in
        let b = ensure_text store default_url a.0 (codes "dev_tok") 43 (fresh_token raw_token) in
        is_found a.1 ≡ true
        → is_found b.1 ≡ true
        → (reads b.0 (codes "dev_id") 16 ≡ a.1)
          × (usable 16 a.1 ≡ true)
          × (reads b.0 (codes "dev_tok") 43 ≡ b.1)
          × (usable 43 b.1 ≡ true)
  stored_both s raw_id raw_token eight id token =
      let a = ensure_text store default_url s (codes "dev_id") 16 (some (hex_of raw_id)) in
      let sized =
        λ (text : List ℕ) (e : some (hex_of raw_id) ≡ some text). hex_length raw_id text eight e in
      let (kept, good) = ensure_text-Stored s (codes "dev_id") 16 (some (hex_of raw_id)) sized id in
      let (kept', good') =
        ensure_text-Stored a.0 (codes "dev_tok") 43 (fresh_token raw_token)
          (fresh_token-length raw_token) token in
      (
        ensure_text-other a.0 (codes "dev_tok") (codes "dev_id") 43 16 (fresh_token raw_token)
              (λ e. ground arith)
            ∙ kept,
        good,
        kept',
        good',
      )

  -- A start that finds both texts.
  pub again :
      (a b : S × Reading (List ℕ)) (raw_id raw_token : List ℕ)
      → is_found a.1 ≡ true
      → (reads b.0 (codes "dev_id") 16 ≡ a.1)
        × (usable 16 a.1 ≡ true)
        × (reads b.0 (codes "dev_tok") 43 ≡ b.1)
        × (usable 43 b.1 ≡ true)
      → ensure_identity store default_url b.0 raw_id raw_token ≡ (b.0, a.1, b.1)
  unfolding ensure_identity
  again a b raw_id raw_token there (id, good, token, good') =
      let start =
        ensure_text-kept b.0 (codes "dev_id") 16 (some (hex_of raw_id)) (ap (usable 16) id ∙ good)
        ∙ ap {A = Reading (List ℕ)} {B = S × Reading (List ℕ)} (λ r. (b.0, r)) id in
      let next =
        ensure_text-kept b.0 (codes "dev_tok") 43 (fresh_token raw_token)
          (ap (usable 43) token ∙ good')
        ∙ ap {A = Reading (List ℕ)} {B = S × Reading (List ℕ)} (λ r. (b.0, r)) token in
      let G = λ (x y : S × Reading (List ℕ)).
        if◌then◌else◌ {A = S × Reading (List ℕ) × Reading (List ℕ)} (is_found x.1) (y.0, x.1, y.1)
          (x.0, x.1, Reading.fails Err.other) in
      ap
        (λ (x : S × Reading (List ℕ)).
          G x (ensure_text store default_url x.0 (codes "dev_tok") 43 (fresh_token raw_token)))
        start
      ∙ ap (λ (y : S × Reading (List ℕ)). G (b.0, a.1) y) next
      ∙ (rw there refl)
