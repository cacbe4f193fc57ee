-- ===== src/Relay/Backoff.antt =====
-- How long firmware/main/relay_client.c waits between connection attempts, in milliseconds.
use remote_wake.Base.{
  ℕ, zero, suc, ◌+◌, ◌-◌, ◌*◌, ◌/◌, ◌%◌, ◌^◌, ◌≤◌, ◌≡◌, refl, leb, ◌==◌, if◌then◌else◌, arith,
}
use Prim.Native.Nat.{min}
use native.Mathlib.Nat.{pow-suc, one-le-pow}

abbrev pub backoff_min_ms : ℕ
backoff_min_ms = 1000

abbrev pub backoff_max_ms : ℕ
backoff_max_ms = 60000

-- `random` is the 32-bit value of `esp_random`.
pub jitter : ℕ → ℕ → ℕ
jitter ms random =
    let span = ms / 5 in if span == 0 then ms else ms - span + random % (2 * span + 1)

pub next_backoff : ℕ → ℕ
next_backoff b = if leb (backoff_max_ms / 2) b then backoff_max_ms else b * 2

-- The backoff after `n` attempts in a row that failed.
pub backoff_after : ℕ → ℕ
backoff_after zero = backoff_min_ms
backoff_after (suc n) = next_backoff (backoff_after n)

backoff-doubles : (n : ℕ) → backoff_after n ≡ min (1000 * 2 ^ n) 60000
unfolding backoff_after next_backoff
backoff-doubles zero = refl
backoff-doubles (suc n) = ground (arith, backoff-doubles n, pow-suc 2 n)

jitter_bounds :
    (ms random : ℕ) → (ms - ms / 5 ≤ jitter ms random) × (jitter ms random ≤ ms + ms / 5)
unfolding jitter
jitter_bounds ms random = ground arith

-- After `n` failures in a row the wait is 1000 * 2 ^ n ms, at most 60 seconds, give or take a fifth;
-- so it always lies between 0.8 and 72 seconds, and attempts never stop.
pub wait_bounds :
    (n random : ℕ)
    → let b = min (1000 * 2 ^ n) 60000 in
      (b - b / 5 ≤ jitter (backoff_after n) random)
      × (jitter (backoff_after n) random ≤ b + b / 5)
      × (800 ≤ jitter (backoff_after n) random)
      × (jitter (backoff_after n) random ≤ 72000)
wait_bounds n random =
    ground (arith, backoff-doubles n, jitter_bounds (backoff_after n) random, one-le-pow n 2)
