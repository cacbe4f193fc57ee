-- ===== src/UsbHid/Chords.antt =====
-- What the report of a chord holds, firmware/main/usb_hid.c, `rw_hid_keys`.
use remote_wake.Base.{
  ℕ, suc, ◌+◌, ◌-◌, ◌≤◌, ◌≡◌, refl, ap, sym, subst, ◌∙◌, true, false, ◌&&◌, List, [], ◌∷◌, ◌++◌,
  some, none, ltb, leb, ◌==◌, if◌then◌else◌, length, length-append, replicate, set, inl, inr,
  Option-cases, Bool-cases, arith,
}
use Prim.Native.Nat.{bit_or}
use mathlib.Core.List.{append-nil, append_assoc}
use remote_wake.Base.Results.{ok, require, or_err, >>=-eq_ok, require-eq_ok, or_err-eq_ok}
use remote_wake.Json.{Json, Items}
use remote_wake.UsbHid.State.{Err}
use remote_wake.UsbHid.Keys.{
  Layout, key_of, count_normal, collect, items_size, items_of, check_chord, chord_report,
}

-- Keys and then zeros, up to six.
abbrev pub padded : List ℕ → List ℕ
padded keys = keys ++ replicate (6 - length keys) 0

set-end :
    (keys : List ℕ) (n v : ℕ)
    → set (keys ++ replicate (suc n) 0) (length keys) v ≡ (keys ++ (v ∷ [])) ++ replicate n 0
set-end [] n v = refl
set-end (k ∷ keys) n v = ap (λ l. k ∷ l) (set-end keys n v)

set-padded :
    (keys : List ℕ) (v : ℕ)
    → suc (length keys) ≤ 6
    → set (padded keys) (length keys) v ≡ padded (keys ++ (v ∷ []))
set-padded keys v room =
    let more : 6 - length keys ≡ suc (6 - suc (length keys)) = omega arith in
    let longer : length (keys ++ (v ∷ [])) ≡ suc (length keys) =
      omega (arith, length-append keys (v ∷ [])) in
    ap (λ n. set (keys ++ replicate n 0) (length keys) v) more
    ∙ set-end keys (6 - suc (length keys)) v
    ∙ ap (λ n. (keys ++ (v ∷ [])) ++ replicate (6 - n) 0) (sym longer)

pair_eq : {a b : ℕ} {k l : List ℕ} → a ≡ b → k ≡ l → ◌≡◌ {A = ℕ × List ℕ} (a, k) (b, l)
pair_eq p q = cc

module _ (L : Layout) {D : Type 0} where
  -- The key codes of a chord, in their order.
  unfoldable pub key_codes : Items D → List ℕ
  key_codes Items.nil = []
  key_codes (Items.cons j items) = elim (key_of L j) [
    | none ↦ key_codes items
    | some (kc, held) ↦ if kc == 0 then key_codes items else kc ∷ key_codes items
  ]

  -- The modifiers of a chord.
  unfoldable pub modifiers : Items D → ℕ → ℕ
  modifiers Items.nil mods = mods
  modifiers (Items.cons j items) mods = elim (key_of L j) [
    | none ↦ modifiers items mods
    | some (kc, held) ↦ modifiers items (bit_or mods held)
  ]

  collect-none :
      (j : Json D) (items : Items D) (mods : ℕ) (keys : List ℕ) (ni : ℕ)
      → key_of L j ≡ none
      → (collect L (Items.cons j items) mods keys ni ≡ collect L items mods keys ni)
        × (modifiers (Items.cons j items) mods ≡ modifiers items mods)
        × (key_codes (Items.cons j items) ≡ key_codes items)
  unfolding collect modifiers key_codes
  collect-none j items mods keys ni e = (ground arith, ground arith, ground arith)

  collect-held :
      (j : Json D) (items : Items D) (mods : ℕ) (keys : List ℕ) (ni kc held : ℕ)
      → key_of L j ≡ some (kc, held)
      → (kc == 0) ≡ true
      → (collect L (Items.cons j items) mods keys ni ≡ collect L items (bit_or mods held) keys ni)
        × (modifiers (Items.cons j items) mods ≡ modifiers items (bit_or mods held))
        × (key_codes (Items.cons j items) ≡ key_codes items)
  unfolding collect modifiers key_codes
  collect-held j items mods keys ni kc held e zero_code = (ground arith, ground arith, ground arith)

  collect-code :
      (j : Json D) (items : Items D) (mods : ℕ) (keys : List ℕ) (ni kc held : ℕ)
      → key_of L j ≡ some (kc, held)
      → (kc == 0) ≡ false
      → ltb ni 6 ≡ true
      → (collect L (Items.cons j items) mods keys ni
          ≡ collect L items (bit_or mods held) (set keys ni kc) (ni + 1))
        × (modifiers (Items.cons j items) mods ≡ modifiers items (bit_or mods held))
  unfolding collect modifiers
  collect-code j items mods keys ni kc held e code room = (ground arith, ground arith)

  key_codes-code :
      (j : Json D) (items : Items D) (kc held : ℕ)
      → key_of L j ≡ some (kc, held)
      → (kc == 0) ≡ false
      → key_codes (Items.cons j items) ≡ kc ∷ key_codes items
  unfolding key_codes
  key_codes-code j items kc held e code = ground arith

  -- The steps of the loop: a name that is not known, a modifier, and a key.
  abbrev Collects : Items D → ℕ → List ℕ → Type 0
  Collects items mods keys =
      length keys + length (key_codes items) ≤ 6
      → collect L items mods (padded keys) (length keys)
        ≡ (modifiers items mods, padded (keys ++ key_codes items))

  collect-skip :
      (j : Json D) (items : Items D) (mods : ℕ) (keys : List ℕ)
      → key_of L j ≡ none
      → Collects items mods keys
      → Collects (Items.cons j items) mods keys
  collect-skip j items mods keys unknown later room =
      let (c, m, k) = collect-none j items mods (padded keys) (length keys) unknown in
      c
      ∙ later (subst (λ l. length keys + length l ≤ 6) k room)
      ∙ pair_eq (sym m) (ap (λ l. padded (keys ++ l)) (sym k))

  collect-bit :
      (j : Json D) (items : Items D) (mods : ℕ) (keys : List ℕ) (kc held : ℕ)
      → key_of L j ≡ some (kc, held)
      → (kc == 0) ≡ true
      → Collects items (bit_or mods held) keys
      → Collects (Items.cons j items) mods keys
  collect-bit j items mods keys kc held known only later room =
      let (c, m, k) = collect-held j items mods (padded keys) (length keys) kc held known only in
      c
      ∙ later (subst (λ l. length keys + length l ≤ 6) k room)
      ∙ pair_eq (sym m) (ap (λ l. padded (keys ++ l)) (sym k))

  collect-key :
      (j : Json D) (items : Items D) (mods : ℕ) (keys : List ℕ) (kc held : ℕ)
      → key_of L j ≡ some (kc, held)
      → (kc == 0) ≡ false
      → Collects items (bit_or mods held) (keys ++ (kc ∷ []))
      → Collects (Items.cons j items) mods keys
  collect-key j items mods keys kc held known code later room =
      let k = key_codes-code j items kc held known code in
      let all : length keys + suc (length (key_codes items)) ≤ 6 =
        subst (λ l. length keys + length l ≤ 6) k room in
      let space : ltb (length keys) 6 ≡ true = ground arith in
      let (c, m) = collect-code j items mods (padded keys) (length keys) kc held known code space in
      let one_more : length keys + 1 ≡ length (keys ++ (kc ∷ [])) =
        omega (arith, length-append keys (kc ∷ [])) in
      c
      ∙ ap (λ l. collect L items (bit_or mods held) l (length keys + 1))
          (set-padded keys kc (omega arith))
      ∙ ap (λ n. collect L items (bit_or mods held) (padded (keys ++ (kc ∷ []))) n) one_more
      ∙ later (omega arith)
      ∙ pair_eq (sym m)
          (ap padded (append_assoc keys (kc ∷ []) (key_codes items) ∙ ap (λ l. keys ++ l) (sym k)))

  collect-all :
      (items : Items D) (mods : ℕ) (keys : List ℕ)
      → length keys + length (key_codes items) ≤ 6
      → collect L items mods (padded keys) (length keys)
        ≡ (modifiers items mods, padded (keys ++ key_codes items))
  unfolding collect modifiers key_codes
  collect-all Items.nil mods keys room = ap (λ l. (mods, padded l)) (sym (append-nil keys))
  collect-all (Items.cons j items) mods keys room = elim (Option-cases (key_of L j)) [
    | inl unknown ↦ collect-skip j items mods keys unknown (collect-all items mods keys) room
    | inr ((kc, held), known) ↦ elim (Bool-cases (kc == 0)) [
      | inl only ↦
          collect-bit j items mods keys kc held known only
            (collect-all items (bit_or mods held) keys) room
      | inr code ↦
          collect-key j items mods keys kc held known code
            (collect-all items (bit_or mods held) (keys ++ (kc ∷ []))) room
    ]
  ]

  count-step :
      (j : Json D) (items : Items D) (n m : ℕ) (key : ℕ × ℕ)
      → key_of L j ≡ some key
      → m ≡ (if key.0 == 0 then n else n + 1) + length (key_codes items)
      → m ≡ n + length (key_codes (Items.cons j items))
  unfolding key_codes
  count-step j items n m (kc, held) known h = ground arith

  report_of :
      (chord : Json D) (keys : Items D)
      → items_of L chord ≡ some keys
      → length (key_codes keys) ≤ 6
      → chord_report L chord ≡ 1 ∷ modifiers keys 0 ∷ 0 ∷ padded (key_codes keys)
  unfolding chord_report
  report_of chord keys there few =
      let all = collect-all keys 0 [] (omega arith) in
      let read : chord_report L chord
          ≡ 1 ∷ (collect L keys 0 (padded []) 0).0 ∷ 0 ∷ (collect L keys 0 (padded []) 0).1 =
        ground arith in
      read ∙ ap {A = ℕ × List ℕ} {B = List ℕ} (λ p. 1 ∷ p.0 ∷ 0 ∷ p.1) all

  -- Each key of a chord that passes is known, and the count is that of the key codes.
  count_normal-key_codes :
      (items : Items D) (n m : ℕ) → count_normal L items n ≡ ok m → m ≡ n + length (key_codes items)
  unfolding count_normal key_codes
  count_normal-key_codes Items.nil n m h = ground arith
  count_normal-key_codes (Items.cons j items) n m h =
      let (key, known, h') = >>=-eq_ok (or_err (key_of L j) Err.invalid_arg) _ h in
      let found = or_err-eq_ok (key_of L j) Err.invalid_arg known in
      count-step j items n m key found (count_normal-key_codes items _ m h')

  -- No key of a chord is lost: when a chord passes the checks, its report holds its modifiers, and then
  -- every key code of the chord in its order, which are at most six.
  pub check_chord-report :
      (chord : Json D) (keys : Items D) {u : Unit {0}}
      → items_of L chord ≡ some keys
      → check_chord L chord ≡ ok u
      → (length (key_codes keys) ≤ 6)
        × (chord_report L chord ≡ 1 ∷ modifiers keys 0 ∷ 0 ∷ padded (key_codes keys))
  unfolding check_chord chord_report
  check_chord-report chord keys there h =
      let (own, is_array, h₁) = >>=-eq_ok (or_err (items_of L chord) Err.invalid_arg) _ h in
      let (_, sized, h₂) =
        >>=-eq_ok (require (leb 1 (items_size L own) && leb (items_size L own) 10) Err.invalid_size)
          _ h₁ in
      let (normal, counted, h₃) = >>=-eq_ok (count_normal L own 0) _ h₂ in
      let small = require-eq_ok (leb normal 6) Err.invalid_size h₃ in
      let same : own ≡ keys =
        ground (arith, or_err-eq_ok (items_of L chord) Err.invalid_arg is_array) in
      let total =
        subst (λ k. normal ≡ 0 + length (key_codes k)) same
          (count_normal-key_codes own 0 normal counted) in
      let few : length (key_codes keys) ≤ 6 = ground arith in (few, report_of chord keys there few)
