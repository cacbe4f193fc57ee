-- ===== src/CaptiveDns.antt =====
-- firmware/main/captive_dns_packet.c: the reply to a DNS query, in the buffer of the query.
pub mod Reply
mod Tests
use remote_wake.Base.{
  ℕ, zero, suc, ◌+◌, ◌-◌, ◌*◌, ◌/◌, ◌%◌, Bool, true, false, not, ◌&&◌, ◌||◌, List, [], ◌∷◌, ◌++◌,
  Option, some, none, ltb, leb, ◌==◌, if◌then◌else◌, length, get_or, set, take, drop,
}

-- `p[i]`
abbrev pub at : List ℕ → ℕ → ℕ
at p i = get_or p i 0

-- The first test. `p` is the whole buffer, of `length p` = `cap` bytes; `len` is that of the query.
-- `p[2] & 0xfe` is zero where bits 1 to 7 are, and `p[3] & 0x4f` where bits 0 to 3 and 6 are.
unfoldable pub refused : List ℕ → ℕ → Bool
refused p len =
    ltb len 12
    || ltb 512 len
    || ltb (length p) len
    || not (at p 2 / 2 == 0)
    || not (at p 3 % 16 == 0)
    || not (at p 3 / 64 % 2 == 0)
    || not (at p 4 == 0)
    || not (at p 5 == 1)
    || not (at p 6 == 0)
    || not (at p 7 == 0)
    || not (at p 8 == 0)
    || not (at p 9 == 0)

-- The loop over the labels from `pos` on: where the name ends, or `none` for `return 0`. Each round
-- moves on, so `len` rounds are enough.
unfoldable pub skip_name : ℕ → List ℕ → ℕ → ℕ → Option ℕ
skip_name zero p len pos = none
skip_name (suc fuel) p len pos =
    let label = at p pos in
    let next = pos + 1 in
    let rest = skip_name fuel p len (next + label) in
    if leb len pos || leb 255 (pos - 12)
    then none
    else if label == 0
    then some next
    else if ltb 63 label || ltb (len - next) label
    then none
    else rest

-- Whether the question at `pos` asks for an IPv4 address.
unfoldable pub asks_address : List ℕ → ℕ → Bool
asks_address p pos =
    (at p pos == 0) && (at p (pos + 1) == 1) && (at p (pos + 2) == 0) && (at p (pos + 3) == 1)

unfoldable pub rr : List ℕ
rr = 0xc0 ∷ 0x0c ∷ 0 ∷ 1 ∷ 0 ∷ 1 ∷ 0 ∷ 0 ∷ 0 ∷ 0 ∷ 0 ∷ 4 ∷ []

-- `memcpy(p + pos, bytes, …)`
unfoldable pub write_at : List ℕ → ℕ → List ℕ → List ℕ
write_at p pos [] = p
write_at p pos (b ∷ bs) = write_at (set p pos b) (pos + 1) bs

-- The header of the reply. `0x84 | (p[2] & 1)` is a sum.
unfoldable pub header : List ℕ → Bool → List ℕ
header p answer =
    set (set (set (set (set p 2 (132 + at p 2 % 2)) 3 0) 7 (if answer then 1 else 0)) 10 0) 11 0

-- From the end of the name on: the buffer and the length of the reply.
unfoldable pub answer_at : List ℕ → ℕ → List ℕ → ℕ → List ℕ × ℕ
unfolding asks_address header write_at rr
answer_at p len address name_end =
    let answer = asks_address p name_end in
    let pos = name_end + 4 in
    if ltb (len - name_end) 4
    then (p, 0)
    else if answer && ltb (length p - pos) 16
    then (p, 0)
    else if answer
    then (write_at (header p true) pos (rr ++ address), pos + 16)
    else (header p false, pos)

-- `address` is the four bytes of the address in memory.
unfoldable pub reply : List ℕ → ℕ → List ℕ → List ℕ × ℕ
unfolding refused skip_name answer_at
reply p len address = if refused p len then (p, 0) else elim (skip_name len p len 12) [
  | none ↦ (p, 0)
  | some name_end ↦ answer_at p len address name_end
]
