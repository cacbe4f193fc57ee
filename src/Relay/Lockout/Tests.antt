-- ===== src/Relay/Lockout/Tests.antt =====
-- A run of four failures with a threshold of three.
use remote_wake.Base.{ℕ, ◌≡◌, List, [], ◌∷◌, arith}
use remote_wake.Relay.Lockout.{boot, note_all}
use remote_wake.Relay.Lockout.Window.{spec_all, lockout_window}

abbrev failures : List ℕ
failures = 1000000 ∷ 70000000 ∷ 80000000 ∷ 90000000 ∷ []

locks_after_three : (note_all 3 300 (boot 3 300) failures).lock_until_us ≡ 390000000
unfolding note_all boot
locks_after_three = ground arith

lockout_window_example :
    (note_all 3 300 (boot 3 300) failures).lock_until_us
    ≡ (spec_all 3 300 (record { recent = []; lock_until = 0 }) failures).lock_until
lockout_window_example = lockout_window 3 300 failures (omega arith) (omega arith)
