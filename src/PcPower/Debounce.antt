-- ===== src/PcPower/Debounce.antt =====
-- Flicker shorter than the debounce time is ignored.
use remote_wake.Base.{ℕ, ◌+◌, ◌≤◌, ◌<◌, ◌≡◌, ◌≢◌, ◌⊎◌, Bool, true, List, [], ◌∷◌, arith}
use remote_wake.PcPower.{Classifier, step, run_samples}
use remote_wake.PcPower.Timing.{InOrder, InOrder-le}

-- What is left of `c` after any flicker that began at `start`: the edges, and hence the level.
record IsUndisturbed (c d : Classifier) (start now : ℕ) : Type 0 where
  same_level : d.level ≡ c.level
  same_edge : d.last_edge_ms ≡ c.last_edge_ms
  is_started : d.started ≡ true
  recent : d.candidate ≢ c.level → start ≤ d.candidate_ms
  past : d.candidate_ms ≤ now
  run_kept : (d.run ≡ c.run) ⊎ (d.run ≡ 0)

step-IsUndisturbed :
    (c d : Classifier) (lit : Bool) (start before now : ℕ)
    → start ≤ before
    → before ≤ now
    → now < start + 50
    → IsUndisturbed c d start before
    → IsUndisturbed c (step d lit now) start now
unfolding step
step-IsUndisturbed c d lit start before now s le w u = ground arith

run-IsUndisturbed :
    (c d : Classifier) (start now finish : ℕ) (ss : List (Bool × ℕ))
    → start ≤ now
    → InOrder now ss finish
    → finish < start + 50
    → IsUndisturbed c d start now
    → IsUndisturbed c (run_samples d ss) start finish
unfolding run_samples
run-IsUndisturbed c d start now finish [] s o w u = ground arith
run-IsUndisturbed c d start now finish ((l, t) ∷ ss) s o w u =
    run-IsUndisturbed c (step d l t) start t finish ss (omega arith) o.1 w
      (step-IsUndisturbed c d l start now t s o.0 (omega (arith, InOrder-le t ss finish o.1)) u)

-- Samples of any levels within 50 ms of `start`, begun while the raw level agrees with the accepted
-- one, add no edge: the level and the time of the last edge stay, and the run never grows.
pub flicker_ignored :
    (c : Classifier) (start finish : ℕ) (ss : List (Bool × ℕ))
    → c.started ≡ true
    → c.candidate ≡ c.level
    → c.candidate_ms ≤ start
    → InOrder start ss finish
    → finish < start + 50
    → ((run_samples c ss).level ≡ c.level)
      × ((run_samples c ss).last_edge_ms ≡ c.last_edge_ms)
      × ((run_samples c ss).run ≤ c.run)
flicker_ignored c start finish ss st raw past o w =
    ground (arith, run-IsUndisturbed c c start start finish ss (omega arith) o w fresh)
  where
    fresh : IsUndisturbed c c start start
    fresh = ground arith
