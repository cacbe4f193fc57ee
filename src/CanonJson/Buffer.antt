-- ===== src/CanonJson/Buffer.antt =====
-- The growable string buffer of firmware/main/canon_json.c. The allocator is a parameter: it says
-- whether a buffer of a given size can be had. Sizes are `size_t`, taken not to wrap: they count
-- bytes in memory.
use remote_wake.Base.{
  ℕ, zero, suc, ◌+◌, ◌*◌, Bool, true, false, Option, none, some, List, [], ◌++◌, ltb, leb, ◌==◌,
  if◌then◌else◌, length,
}

pub record Sbuf : Type 0 where
  pub buf : Option (List ℕ)  -- the bytes before the NUL, once anything has been appended
  pub cap : ℕ
  pub err : Bool

unfoldable pub empty : Sbuf
empty = record { buf = none; cap = 0; err = false }

abbrev pub content : Option (List ℕ) → List ℕ
content none = []
content (some bytes) = bytes

-- `while (cap < need) cap *= 2`, on fuel: `need` rounds are enough from any positive capacity.
unfoldable pub grow : ℕ → ℕ → ℕ → ℕ
grow zero cap need = cap
grow (suc fuel) cap need = elim (ltb cap need) [ true ↦ grow fuel (cap * 2) need | false ↦ cap ]

module _ (alloc : ℕ → Bool) where
  -- `sbuf_reserve`: the buffer with room for `extra` more bytes, and whether there is.
  unfoldable pub reserve : Sbuf → ℕ → Sbuf × Bool
  unfolding grow
  reserve sb extra =
      let need = length (content sb.buf) + extra + 1 in
      let cap = grow need (if sb.cap == 0 then 64 else sb.cap) need in
      if sb.err
      then (sb, false)
      else if leb need sb.cap
      then (sb, true)
      else if alloc cap
      then (record sb { buf = some (content sb.buf); cap = cap }, true)
      else (record sb { err = true }, false)

  unfoldable pub append : Sbuf → List ℕ → Sbuf
  unfolding reserve
  append sb bytes =
      let (sb', room) = reserve sb (length bytes) in
      if room then record sb' { buf = some (content sb'.buf ++ bytes) } else sb'
