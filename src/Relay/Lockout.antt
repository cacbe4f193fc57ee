-- ===== src/Relay/Lockout.antt =====
-- The rate limit on authentication failures of firmware/main/relay_client.c. Times are those of
-- `esp_timer_get_time`, in microseconds since boot. The two limits are build options.
pub mod Window
mod Tests
use remote_wake.Base.{
  ℕ, ◌+◌, ◌-◌, ◌*◌, ◌/◌, ◌%◌, Bool, true, false, not, ◌&&◌, List, [], ◌∷◌, ltb, leb, ◌==◌,
  if◌then◌else◌, set, get_or, replicate,
}

pub record Lockout : Type 0 where
  pub fail_ts : List ℕ
  pub fail_head : ℕ
  pub lock_until_us : ℕ

-- Whole seconds, rounded up.
unfoldable pub lockout_remaining : Lockout → ℕ → ℕ
lockout_remaining s now =
    if ltb now s.lock_until_us then (s.lock_until_us - now + 999999) / 1000000 else 0

unfoldable pub locked_out : Lockout → ℕ → Bool
unfolding lockout_remaining
locked_out s now = ltb 0 (lockout_remaining s now)

module _ (threshold lockout_sec : ℕ) where
  unfoldable pub boot : Lockout
  boot = record { fail_ts = replicate threshold 0; fail_head = 0; lock_until_us = 0 }

  unfoldable pub note_auth_failure : Lockout → ℕ → Lockout
  note_auth_failure s now =
      let ts = set s.fail_ts s.fail_head now in
      let head = (s.fail_head + 1) % threshold in
      let oldest = get_or ts head 0 in
      if not (oldest == 0) && leb (now - oldest) 60000000
      then record {
        fail_ts = replicate threshold 0;
        fail_head = 0;
        lock_until_us = now + lockout_sec * 1000000;
      }
      else record s { fail_ts = ts; fail_head = head }

  unfoldable pub note_all : Lockout → List ℕ → Lockout
  unfolding note_auth_failure
  note_all s [] = s
  note_all s (now ∷ times) = note_all (note_auth_failure s now) times
