-- ===== src/CanonJson/Emit.antt =====
-- What firmware/main/canon_json.c appends for a JSON value, chunk by chunk. No call of it reads the
-- buffer, so the calls of a value are a list; the buffer then takes them in order.
use remote_wake.Base.{
  ℕ, zero, suc, ◌+◌, ◌-◌, ◌/◌, ◌%◌, Bool, true, false, ◌&&◌, ◌||◌, Option, none, some, List, [],
  ◌∷◌, ◌++◌, ltb, leb, ◌==◌, if◌then◌else◌, length, codes,
}
use remote_wake.Base.Int.{ℤ, pos, negsuc}
use remote_wake.Json.{Doubles, Json, Items, Members}
use remote_wake.CanonJson.Buffer.{Sbuf, append, empty}

-- `fail` is `sb->err = true` after a failed `calloc`.
pub data Chunk : Type 0 where
  write : List ℕ → Chunk
  fail : Chunk

unfoldable pub run_chunks : (ℕ → Bool) → Sbuf → List Chunk → Sbuf
run_chunks alloc sb [] = sb
run_chunks alloc sb (write bytes ∷ cs) = run_chunks alloc (append alloc sb bytes) cs
run_chunks alloc sb (fail ∷ cs) = run_chunks alloc (record sb { err = true }) cs

-- "%llu": the decimal digits, on fuel; 20 digits are enough for 64 bits.
unfoldable pub decimal : ℕ → ℕ → List ℕ → List ℕ
decimal zero n acc = acc
decimal (suc fuel) n acc =
    let more = decimal fuel (n / 10) ((b'0' + n % 10) ∷ acc) in
    if ltb n 10 then (b'0' + n % 10) ∷ acc else more

unfoldable pub putu : ℕ → List ℕ
unfolding decimal
putu n = decimal 20 n []

-- "%lld".
unfoldable pub puti : ℤ → List ℕ
unfolding putu
puti (pos n) = putu n
puti (negsuc n) = b'-' ∷ putu (suc n)

-- One digit of "%04x".
unfoldable pub hex_digit : ℕ → ℕ
hex_digit d = if ltb d 10 then b'0' + d else b'a' + (d - 10)

-- The `switch` of `emit_string`: what one byte is written as.
unfoldable pub escape : ℕ → List ℕ
unfolding hex_digit
escape c =
    if c == 0x22
    then 0x5c ∷ 0x22 ∷ []
    else if c == 0x5c
    then 0x5c ∷ 0x5c ∷ []
    else if c == 8
    then 0x5c ∷ b'b' ∷ []
    else if c == 12
    then 0x5c ∷ b'f' ∷ []
    else if c == 10
    then 0x5c ∷ b'n' ∷ []
    else if c == 13
    then 0x5c ∷ b'r' ∷ []
    else if c == 9
    then 0x5c ∷ b't' ∷ []
    else if ltb c 0x20
    then 0x5c ∷ b'u' ∷ b'0' ∷ b'0' ∷ hex_digit (c / 16) ∷ hex_digit (c % 16) ∷ []
    else c ∷ []

unfoldable pub escapes : List ℕ → List Chunk
unfolding escape
escapes [] = []
escapes (c ∷ cs) = write (escape c) ∷ escapes cs

unfoldable pub emit_string : Option (List ℕ) → List Chunk
unfolding escapes
emit_string none = write (0x22 ∷ []) ∷ write (0x22 ∷ []) ∷ []
emit_string (some s) = write (0x22 ∷ []) ∷ escapes s ++ write (0x22 ∷ []) ∷ []

-- `strcmp(a, b) < 0` and `> 0`, as an order of three values on the bytes.
pub data Cmp : Type 0 where
  below same above : Cmp

unfoldable pub strcmp : List ℕ → List ℕ → Cmp
strcmp [] [] = same
strcmp [] (y ∷ ys) = below
strcmp (x ∷ xs) [] = above
strcmp (x ∷ xs) (y ∷ ys) = if x == y then strcmp xs ys else if ltb x y then below else above

-- A member whose value is already written out: address, key, chunks.
pub record Entry : Type 0 where
  pub address : ℕ
  pub key : Option (List ℕ)
  pub chunks : List Chunk

abbrev key_bytes : Option (List ℕ) → List ℕ
key_bytes none = []
key_bytes (some k) = k

-- `key_cmp(a, b) <= 0`: by key bytes, then by address.
unfoldable pub key_le : Entry → Entry → Bool
unfolding strcmp
key_le a b = elim (strcmp (key_bytes a.key) (key_bytes b.key)) [
  | below ↦ true
  | above ↦ false
  | same ↦ leb a.address b.address
]

unfoldable pub insert_entry : Entry → List Entry → List Entry
unfolding key_le
insert_entry e [] = e ∷ []
insert_entry e (f ∷ fs) = if key_le e f then e ∷ f ∷ fs else f ∷ insert_entry e fs

-- `qsort` by `key_cmp`. Addresses differ, so every correct sort gives this list.
unfoldable pub sort_entries : List Entry → List Entry
unfolding insert_entry
sort_entries [] = []
sort_entries (e ∷ es) = insert_entry e (sort_entries es)

-- The loop of `emit_object` over the sorted items.
unfoldable pub emit_entries : Bool → List Entry → List Chunk
unfolding emit_string
emit_entries first [] = []
emit_entries first (e ∷ es) =
    (if first then [] else write (b',' ∷ []) ∷ [])
    ++ (emit_string e.key ++ (write (b':' ∷ []) ∷ (e.chunks ++ emit_entries false es)))

-- `calloc_ok n` says whether an array of `n` pointers can be had.
unfoldable pub emit_object : (ℕ → Bool) → List Entry → List Chunk
unfolding emit_entries sort_entries
emit_object calloc_ok [] = write (b'{' ∷ []) ∷ write (b'}' ∷ []) ∷ []
emit_object calloc_ok (e ∷ es) =
    if calloc_ok (length (e ∷ es))
    then write (b'{' ∷ []) ∷ emit_entries true (sort_entries (e ∷ es)) ++ write (b'}' ∷ []) ∷ []
    else write (b'{' ∷ []) ∷ fail ∷ write (b'}' ∷ []) ∷ []

module _ (F : Doubles) (calloc_ok : ℕ → Bool) where
  open F use {Double, is_nan, is_inf, lt, eq, floor, fabs, of_int, to_int, print_g, strtod}

  -- 9007199254740992.0, which is 2 ^ 53.
  abbrev two_53 : Double
  two_53 = of_int (pos 9007199254740992)

  -- The loop over the precisions 15, 16 and 17 ends with the first text that reads back.
  unfoldable pub shortest : Double → List ℕ
  shortest d =
      if eq (strtod (print_g 15 d)) d
      then print_g 15 d
      else if eq (strtod (print_g 16 d)) d
      then print_g 16 d
      else print_g 17 d

  unfoldable pub emit_number : Double → List Chunk
  unfolding shortest puti
  emit_number d =
      if is_nan d || is_inf d
      then write (codes "null") ∷ []
      else if eq d (floor d) && lt (fabs d) two_53
      then write (puti (to_int d)) ∷ []
      else write (shortest d) ∷ []

  unfoldable mutual
    unfolding emit_number emit_object emit_string

    pub emit : Json Double → List Chunk
    emit Json.invalid = write (codes "null") ∷ []
    emit Json.null = write (codes "null") ∷ []
    emit Json.false_item = write (codes "false") ∷ []
    emit Json.true_item = write (codes "true") ∷ []
    emit Json.other = write (codes "null") ∷ []
    emit (Json.num d) = emit_number d
    emit (Json.str s) = emit_string s
    emit (Json.raw none) = write (codes "null") ∷ []
    emit (Json.raw (some s)) = write s ∷ []
    emit (Json.arr is) = write (b'[' ∷ []) ∷ emit_items true is ++ write (b']' ∷ []) ∷ []
    emit (Json.obj ms) = emit_object calloc_ok (entries ms)

    pub emit_items : Bool → Items Double → List Chunk
    emit_items first Items.nil = []
    emit_items first (Items.cons j is) =
        (if first then [] else write (b',' ∷ []) ∷ []) ++ (emit j ++ emit_items false is)

    pub entries : Members Double → List Entry
    entries Members.end = []
    entries (Members.member a k j ms) =
        record { address = a; key = k; chunks = emit j } ∷ entries ms

  -- `rw_canon_json_append` on an item that may be NULL.
  unfoldable pub emit_optional : Option (Json Double) → List Chunk
  unfolding emit
  emit_optional none = write (codes "null") ∷ []
  emit_optional (some j) = emit j

  abbrev finished : Sbuf → Option (List ℕ)
  finished sb = if sb.err then none else sb.buf

  -- `rw_canon_json`: `none` is NULL.
  unfoldable pub canon_json : (ℕ → Bool) → Option (Json Double) → Option (List ℕ)
  unfolding emit_optional run_chunks
  canon_json alloc item = finished (run_chunks alloc empty (emit_optional item))
