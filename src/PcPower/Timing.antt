-- ===== src/PcPower/Timing.antt =====
-- The order of the classifier's times, and what a steady level leads to.
use remote_wake.Base.{ℕ, ◌+◌, ◌≤◌, ◌≡◌, Bool, true, false, List, [], ◌∷◌, if◌then◌else◌, arith}
use remote_wake.PcPower.{Power, Classifier, init, step, run_samples}

-- The samples are in order of time, from `start` to `finish`.
abbrev pub InOrder : ℕ → List (Bool × ℕ) → ℕ → Type 0
InOrder start [] finish = start ≤ finish
InOrder start ((lit, t) ∷ ss) finish = (start ≤ t) × InOrder t ss finish

pub InOrder-le :
    (start : ℕ) (ss : List (Bool × ℕ)) (finish : ℕ) → InOrder start ss finish → start ≤ finish
InOrder-le start [] finish o = o
InOrder-le start ((lit, t) ∷ ss) finish o = omega (arith, InOrder-le t ss finish o.1)

-- The times are in order, the run fits its byte, and sleep is never claimed of a fresh classifier.
pub record IsValid (c : Classifier) (now : ℕ) : Type 0 where
  pub edge_first : c.last_edge_ms ≤ c.candidate_ms
  pub candidate_past : c.candidate_ms ≤ now
  pub run_fits : c.run ≤ 255
  pub fresh : c.started ≡ false → (c.run ≡ 0) × (c.state ≡ Power.unknown)

pub init-IsValid : (now : ℕ) → IsValid init now
unfolding init
init-IsValid now = ground arith

step-IsValid :
    (c : Classifier) (lit : Bool) (before now : ℕ)
    → before ≤ now
    → IsValid c before
    → IsValid (step c lit now) now
unfolding step
step-IsValid c lit before now le v = ground arith

-- Every sequence of samples that is in order of time leaves a valid classifier valid.
pub run_samples-IsValid :
    (c : Classifier) (ss : List (Bool × ℕ)) (start finish : ℕ)
    → InOrder start ss finish
    → IsValid c start
    → IsValid (run_samples c ss) finish
unfolding run_samples
run_samples-IsValid c [] start finish o v = ground arith
run_samples-IsValid c ((lit, t) ∷ ss) start finish o v =
    run_samples-IsValid (step c lit t) ss t finish o.1 (step-IsValid c lit start t o.0 v)

-- Samples that all show the level `lit`, in order of time from `start` to `finish`.
abbrev pub HoldsAt : Bool → ℕ → List (Bool × ℕ) → ℕ → Type 0
HoldsAt lit start [] finish = start ≡ finish
HoldsAt lit start ((l, t) ∷ ss) finish = (l ≡ lit) × (start ≤ t) × HoldsAt lit t ss finish

-- The raw level has been `lit` since `since`.
record IsHeld (c : Classifier) (lit : Bool) (since now : ℕ) : Type 0 where
  is_started : c.started ≡ true
  raw : c.candidate ≡ lit
  raw_since : c.candidate_ms ≤ since
  edge_before : c.last_edge_ms ≤ c.candidate_ms
  settled : since + 5000 ≤ now → c.state ≡ (if lit then Power.on else Power.off)

step-IsHeld :
    (c : Classifier) (lit : Bool) (since before now : ℕ)
    → since ≤ before
    → before ≤ now
    → IsHeld c lit since before
    → IsHeld (step c lit now) lit since now
unfolding step
step-IsHeld c lit since before now s le h = ground arith

first-IsHeld :
    (c : Classifier) (lit : Bool) (now : ℕ)
    → c.started ≡ true
    → IsValid c now
    → IsHeld (step c lit now) lit now now
unfolding step
first-IsHeld c lit now st v = ground arith

run-IsHeld :
    (c : Classifier) (lit : Bool) (since now finish : ℕ) (ss : List (Bool × ℕ))
    → since ≤ now
    → HoldsAt lit now ss finish
    → IsHeld c lit since now
    → IsHeld (run_samples c ss) lit since finish
unfolding run_samples
run-IsHeld c lit since now finish [] le o h = rw (← o) h
run-IsHeld c lit since now finish ((l, t) ∷ ss) le o h = rw o.0 (
    run-IsHeld (step c lit t) lit since t finish ss (omega arith) o.2
      (step-IsHeld c lit since now t le o.1 h))

-- A level that is held is reported: from any valid started classifier, blinking or asleep included,
-- samples that all show `lit` and span five seconds or more end in `on` if lit and `off` if not.
pub steady_decides :
    (c : Classifier) (lit : Bool) (start finish : ℕ) (ss : List (Bool × ℕ))
    → c.started ≡ true
    → IsValid c start
    → HoldsAt lit start ss finish
    → start + 5000 ≤ finish
    → (run_samples (step c lit start) ss).state ≡ (if lit then Power.on else Power.off)
steady_decides c lit start finish ss st v o span =
    let first = first-IsHeld c lit start st v in
    (run-IsHeld (step c lit start) lit start start finish ss (omega arith) o first).settled span
