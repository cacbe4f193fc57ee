-- ===== src/UsbHid/Keys.antt =====
-- Key names and chords, firmware/main/usb_hid.c, `lookup_keyname` and the checks of `rw_hid_keys`.
-- TinyUSB's key codes and its table of the US layout are not this repository's code: a parameter.
use remote_wake.Base.{
  ℕ, ◌+◌, ◌-◌, ◌%◌, ◌^◌, Bool, true, false, not, ◌&&◌, ◌||◌, List, [], ◌∷◌, Option, some, none, ltb,
  leb, ◌==◌, if◌then◌else◌, codes, replicate, set,
}
use Prim.Native.Nat.{bit_or}
use remote_wake.Base.Results.{Result, ok, ◌>>=◌, ◌>>◌, require, or_err}
use remote_wake.Json.{Json, Items, string_of}
use remote_wake.UsbHid.State.{Err}

-- `HID_KEY_*`, and `HID_ASCII_TO_KEYCODE`: whether shift is held, and the key, for a byte below 128.
pub record Layout : Type 0 where
  pub ascii_shift : ℕ → Bool
  pub ascii_key : ℕ → ℕ
  pub key_a : ℕ
  pub key_f1 : ℕ
  pub enter : ℕ
  pub escape : ℕ
  pub backspace : ℕ
  pub tab : ℕ
  pub space : ℕ
  pub caps_lock : ℕ
  pub print_screen : ℕ
  pub insert : ℕ
  pub home : ℕ
  pub page_up : ℕ
  pub delete : ℕ
  pub last : ℕ
  pub page_down : ℕ
  pub right : ℕ
  pub left : ℕ
  pub down : ℕ
  pub arrow_up : ℕ
  pub minus : ℕ
  pub equal : ℕ

-- `KEYBOARD_MODIFIER_*`: the bits of the byte of modifiers in a report, from the left control key on.
abbrev pub left_ctrl : ℕ
left_ctrl = 1

abbrev pub left_shift : ℕ
left_shift = 2

-- `rw_keyname_t`
pub record KeyName : Type 0 where
  pub name : List ℕ
  pub keycode : ℕ
  pub modifier : ℕ

abbrev modifier_key : List ℕ → ℕ → KeyName
modifier_key name bit = record { name = name; keycode = 0; modifier = bit }

abbrev plain_key : List ℕ → ℕ → KeyName
plain_key name code = record { name = name; keycode = code; modifier = 0 }

-- `tolower`
abbrev lower : ℕ → ℕ
lower c = if leb 65 c && leb c 90 then c + 32 else c

-- `strcasecmp(a, b) == 0`
unfoldable pub same_name : List ℕ → List ℕ → Bool
same_name [] [] = true
same_name (x ∷ xs) (y ∷ ys) = (lower x == lower y) && same_name xs ys
same_name _ _ = false

-- What a name stands for: a key code and modifiers.
unfoldable pub find_name : List KeyName → List ℕ → Option (ℕ × ℕ)
unfolding same_name
find_name [] name = none
find_name (k ∷ ks) name =
    let later = find_name ks name in
    if same_name name k.name then some (k.keycode, k.modifier) else later

-- The number of a function key, or 0. Past its end a name has a NUL.
unfoldable pub function_key : List ℕ → ℕ
function_key (f ∷ a ∷ []) = if leb 49 a && leb a 57 then a - 48 else 0
function_key (f ∷ a ∷ b ∷ []) = if (a == 49) && leb 48 b && leb b 50 then 10 + b - 48 else 0
function_key _ = 0

module _ (L : Layout) where
  -- `s_keynames`
  unfoldable pub keynames : List KeyName
  keynames =
      modifier_key (codes "LCTRL") left_ctrl
      ∷ modifier_key (codes "LSHIFT") left_shift
      ∷ modifier_key (codes "LALT") 4
      ∷ modifier_key (codes "LGUI") 8
      ∷ modifier_key (codes "RCTRL") 16
      ∷ modifier_key (codes "RSHIFT") 32
      ∷ modifier_key (codes "RALT") 64
      ∷ modifier_key (codes "RGUI") 128
      ∷ plain_key (codes "ENTER") L.enter
      ∷ plain_key (codes "RETURN") L.enter
      ∷ plain_key (codes "ESC") L.escape
      ∷ plain_key (codes "ESCAPE") L.escape
      ∷ plain_key (codes "BACKSPACE") L.backspace
      ∷ plain_key (codes "TAB") L.tab
      ∷ plain_key (codes "SPACE") L.space
      ∷ plain_key (codes "CAPSLOCK") L.caps_lock
      ∷ plain_key (codes "PRINTSCREEN") L.print_screen
      ∷ plain_key (codes "INSERT") L.insert
      ∷ plain_key (codes "HOME") L.home
      ∷ plain_key (codes "PAGEUP") L.page_up
      ∷ plain_key (codes "DELETE") L.delete
      ∷ plain_key (codes "END") L.last
      ∷ plain_key (codes "PAGEDOWN") L.page_down
      ∷ plain_key (codes "RIGHT") L.right
      ∷ plain_key (codes "LEFT") L.left
      ∷ plain_key (codes "DOWN") L.down
      ∷ plain_key (codes "UP") L.arrow_up
      ∷ plain_key (codes "MINUS") L.minus
      ∷ plain_key (codes "EQUAL") L.equal
      ∷ []

  -- A character of the layout, with shift where the layout has it.
  unfoldable pub ascii_char : ℕ → Option (ℕ × ℕ)
  ascii_char c =
      if ltb c 128 && not (L.ascii_key c == 0)
      then some (L.ascii_key c, if L.ascii_shift c then left_shift else 0)
      else none

  -- A name of one character; a letter names its key, without shift.
  unfoldable pub one_char : ℕ → Option (ℕ × ℕ)
  unfolding ascii_char
  one_char c =
      if (leb 65 c && leb c 90) || (leb 97 c && leb c 122)
      then some ((L.key_a + ((if leb 97 c then c - 32 else c) - 65)) % 2 ^ 8, 0)
      else ascii_char c

  unfoldable pub lookup_keyname : Option (List ℕ) → Option (ℕ × ℕ)
  unfolding one_char function_key find_name keynames
  lookup_keyname none = none
  lookup_keyname (some []) = none
  lookup_keyname (some (c ∷ [])) = one_char c
  lookup_keyname (some (c ∷ d ∷ name)) =
      let n = function_key (c ∷ d ∷ name) in
      let named = find_name keynames (c ∷ d ∷ name) in
      if ((c == b'F') || (c == b'f')) && not (n == 0)
      then some ((L.key_f1 + (n - 1)) % 2 ^ 8, 0)
      else named

  module _ {D : Type 0} where
    unfoldable pub key_of : Json D → Option (ℕ × ℕ)
    key_of j = lookup_keyname (string_of (some j))

    -- The loop over the keys of a chord that counts those that are no modifiers.
    unfoldable pub count_normal : Items D → ℕ → Result Err ℕ
    unfolding key_of
    count_normal Items.nil normal = ok normal
    count_normal (Items.cons j items) normal = or_err (key_of j) Err.invalid_arg >>= λ key.
        count_normal items (if key.0 == 0 then normal else normal + 1)

    -- The modifiers and the keys of a chord.
    unfoldable pub collect : Items D → ℕ → List ℕ → ℕ → ℕ × List ℕ
    unfolding key_of
    collect Items.nil mods keys ni = (mods, keys)
    collect (Items.cons j items) mods keys ni = elim (key_of j) [
      | none ↦ collect items mods keys ni
      | some (kc, held) ↦
          if not (kc == 0) && ltb ni 6
          then collect items (bit_or mods held) (set keys ni kc) (ni + 1)
          else collect items (bit_or mods held) keys ni
    ]

    unfoldable pub items_size : Items D → ℕ
    items_size Items.nil = 0
    items_size (Items.cons j items) = 1 + items_size items

    abbrev pub items_of : Json D → Option (Items D)
    items_of (Json.arr items) = some items
    items_of _ = none

    -- The checks of one chord, with `RW_KEYS_MAX_PER_CHORD` 6.
    unfoldable pub check_chord : Json D → Result Err (Unit {0})
    unfolding items_size count_normal
    check_chord chord = do
      keys ← or_err (items_of chord) Err.invalid_arg
      require (leb 1 (items_size keys) && leb (items_size keys) 10) Err.invalid_size
      normal ← count_normal keys 0
      require (leb normal 6) Err.invalid_size

    unfoldable pub check_chords : Items D → Result Err (Unit {0})
    unfolding check_chord
    check_chords Items.nil = ok tt
    check_chords (Items.cons chord chords) = check_chord chord >> check_chords chords

    -- The report of a chord: its id, the modifiers, a reserved byte and the keys.
    unfoldable pub chord_report : Json D → List ℕ
    unfolding collect
    chord_report chord = elim (items_of chord) [
      | none ↦ 1 ∷ replicate 8 0
      | some keys ↦ let (mods, kcs) = collect keys 0 (replicate 6 0) 0 in 1 ∷ mods ∷ 0 ∷ kcs
    ]

    unfoldable pub chord_reports : Items D → List (List ℕ)
    unfolding chord_report
    chord_reports Items.nil = []
    chord_reports (Items.cons chord chords) = chord_report chord ∷ chord_reports chords

  -- The report of a character, and whether every character has one.
  abbrev pub char_report : ℕ → List ℕ
  char_report c =
      1 ∷ (if L.ascii_shift c then left_shift else 0) ∷ 0 ∷ L.ascii_key c ∷ replicate 5 0

  unfoldable pub mappable : List ℕ → Bool
  mappable [] = true
  mappable (c ∷ text) = ltb c 128 && not (L.ascii_key c == 0) && mappable text

  unfoldable pub char_reports : List ℕ → List (List ℕ)
  char_reports [] = []
  char_reports (c ∷ text) = char_report c ∷ char_reports text
