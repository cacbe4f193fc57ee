-- ===== src/PcPower/Tests.antt =====
-- The classifier at concrete samples.
use remote_wake.Base.{ℕ, ◌≤◌, refl, true, false, Bool, List, [], ◌∷◌, arith}
use remote_wake.PcPower.{Power, Classifier, init, step, run_samples}
use remote_wake.PcPower.Timing.{IsValid}
use remote_wake.PcPower.Blink.{changes, sleep_needs_changes}

abbrev asleep : Classifier
asleep = record {
  started = true;
  level = false;
  candidate = false;
  candidate_ms = 900;
  last_edge_ms = 900;
  run = 9;
  state = Power.sleep;
}

abbrev lit_for_long : List (Bool × ℕ)
lit_for_long = (true, 1010) ∷ (true, 3000) ∷ (true, 6000) ∷ []

asleep-IsValid : IsValid asleep 1000
asleep-IsValid = ground arith

abbrev flicker : List (Bool × ℕ)
flicker = (true, 1000) ∷ (true, 1049) ∷ (false, 1049) ∷ []

abbrev blinking : List (Bool × ℕ)
blinking =
    (true, 1000)
    ∷ (true, 1060)
    ∷ (false, 2000)
    ∷ (false, 2060)
    ∷ (true, 3000)
    ∷ (true, 3060)
    ∷ (false, 4000)
    ∷ (false, 4060)
    ∷ []

sleep_needs_changes_example : 4 ≤ changes false blinking
sleep_needs_changes_example =
    sleep_needs_changes false 0 blinking (unfold run_samples step init in refl)
