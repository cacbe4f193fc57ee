-- ===== src/WifiRecovery/Tests.antt =====
-- The policy at concrete times.
use remote_wake.Base.{ℕ, ◌≡◌, ◌≢◌, refl, List, [], ◌∷◌, some, none, arith}
use remote_wake.WifiRecovery.{
  Phase, Action, Recovery, init, step, Turn, turn, run_turns, asks, bounces,
}
use remote_wake.WifiRecovery.Pacing.{again_at, attempts_spaced}

abbrev trying : Recovery
trying = record { phase = Phase.attempt; attempts = 3; deadline_ms = 45000 }

-- The first attempt fails after 50 ms.
abbrev failing : Turn
failing = record { now = 1000; failure = some 1050 }

abbrev waits : List Turn
waits = record { now = 1500; failure = none } ∷ record { now = 2000; failure = none } ∷ []

abbrev early : Turn
early = record { now = 2049; failure = none }

failing_asks : (turn (init 0) failing).1 ≢ Action.none
unfolding turn init
failing_asks e = ground arith

one_second : again_at 1000 (turn (init 0) failing).0.attempts (some 1050) ≡ 2050
unfolding turn init
one_second = refl

attempts_spaced_example : (turn (run_turns (turn (init 0) failing).0 waits) early).1 ≡ Action.none
attempts_spaced_example =
    attempts_spaced (init 0) failing waits early (omega arith) failing_asks
      (rw one_second ((omega arith, omega arith), ((omega arith, omega arith), tt)))
      (rw one_second (omega arith, omega arith))

-- A second after the failure it is asked again.
asks_again :
    (turn (run_turns (turn (init 0) failing).0 waits) (record { now = 2050; failure = none })).1
    ≡ Action.connect
unfolding run_turns turn init
asks_again = refl

abbrev long_outage : List ℕ
long_outage =
    0 ∷ 30000 ∷ 31000 ∷ 61000 ∷ 62000 ∷ 92000 ∷ 93000 ∷ 123000 ∷ 124000 ∷ 154000 ∷ 159000 ∷ []

sixth_request : (bounces (init 0) long_outage ≡ 1) × (asks (init 0) long_outage ≡ 6)
unfolding bounces asks step init
sixth_request = (refl, refl)
