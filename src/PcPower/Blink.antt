-- ===== src/PcPower/Blink.antt =====
-- When the classifier says `sleep`.
use remote_wake.Base.{
  ℕ, suc, ◌+◌, ◌≤◌, ◌<◌, ◌≡◌, ◌≢◌, ◌⊎◌, inl, inr, not, differs, refl, Bool, true, List, [], ◌∷◌,
  if◌then◌else◌, arith,
}
use remote_wake.PcPower.{Power, Classifier, init, step, run_samples}

-- How often the raw level differs from the sample before it.
abbrev pub changes : Bool → List (Bool × ℕ) → ℕ
changes raw [] = 0
changes raw ((l, t) ∷ ss) = (if differs l raw then 1 else 0) + changes l ss

-- The run, with the raw change that is not yet accepted.
abbrev pending_run : Classifier → ℕ
pending_run c = c.run + (if differs c.candidate c.level then 1 else 0)

step-pending_run :
    (c : Classifier) (lit : Bool) (t : ℕ)
    → c.started ≡ true
    → ((step c lit t).started ≡ true)
      × ((step c lit t).candidate ≡ lit)
      × (pending_run (step c lit t) ≤ pending_run c + (if differs lit c.candidate then 1 else 0))
      × ((step c lit t).state ≡ Power.sleep
          → (c.state ≡ Power.sleep) ⊎ (4 ≤ pending_run (step c lit t)))
unfolding step
step-pending_run c lit t st = (ground arith, ground arith, ground arith, λ e. ground arith)

Power-cases : (p : Power) → (p ≡ Power.sleep) ⊎ (p ≢ Power.sleep)
Power-cases Power.sleep = inl refl
Power-cases Power.on = inr (λ e. cc)
Power-cases Power.off = inr (λ e. cc)
Power-cases Power.unknown = inr (λ e. cc)

sleep-changes :
    (c : Classifier) (ss : List (Bool × ℕ))
    → c.started ≡ true
    → c.state ≢ Power.sleep
    → (run_samples c ss).state ≡ Power.sleep
    → 4 ≤ pending_run c + changes c.candidate ss
unfolding run_samples
sleep-changes c [] st n h = absurd (n h)
sleep-changes c ((l, t) ∷ ss) st n h =
    let one = step-pending_run c l t st in
    elim (Power-cases (step c l t).state) [
      | inl asleep ↦ ground (arith, one, one.3 asleep)
      | inr awake ↦ ground (arith, one, sleep-changes (step c l t) ss one.0 awake h)
    ]

-- Sleep needs blinking: a classifier that starts fresh reports `sleep` only if the raw level has
-- changed at least four times, so neither a single edge nor a brief off-and-on reports it.
pub sleep_needs_changes :
    (lit : Bool) (t : ℕ) (ss : List (Bool × ℕ))
    → (run_samples init ((lit, t) ∷ ss)).state ≡ Power.sleep
    → 4 ≤ changes lit ss
unfolding run_samples init step
sleep_needs_changes lit t ss h = ground (arith, sleep-changes (step init lit t) ss)

-- The next edge of a blink: the raw level flips at `edge`, and is sampled again once the debounce
-- time is over.
abbrev pub blink : Classifier → ℕ → ℕ → Classifier
blink c edge seen = step (step c (not c.level) edge) (not c.level) seen

-- One blink of the light: the level is held for the debounce time and less than five seconds.
abbrev pub Blinks : ℕ → ℕ → ℕ → Type 0
Blinks last edge seen = (last ≤ edge) × (edge + 50 ≤ seen) × (seen < edge + 5000)

-- The raw level is the accepted one, the last edge was at `last`, and the run has `n` edges or more.
record IsBlinking (c : Classifier) (last n : ℕ) : Type 0 where
  is_started : c.started ≡ true
  raw : c.candidate ≡ c.level
  last_edge : c.last_edge_ms ≡ last
  run_at_least : n ≤ c.run
  asleep : 4 ≤ n → c.state ≡ Power.sleep

first-IsBlinking :
    (c : Classifier) (edge seen : ℕ)
    → c.started ≡ true
    → c.candidate ≡ c.level
    → Blinks c.last_edge_ms edge seen
    → IsBlinking (blink c edge seen) edge 1
unfolding step
first-IsBlinking c edge seen st raw b = ground arith

next-IsBlinking :
    (c : Classifier) (last n edge seen : ℕ)
    → n < 255
    → edge < last + 5000
    → Blinks last edge seen
    → IsBlinking c last n
    → IsBlinking (blink c edge seen) edge (suc n)
unfolding step
next-IsBlinking c last n edge seen few near b k = ground arith

-- Blinking is recognised: from any started classifier whose level has settled, four edges, each
-- less than five seconds after the one before it (the first may come at any time) and each held for
-- the debounce time but less than five seconds, end in `sleep`.
blinking_sleeps :
    (c : Classifier) (e₁ s₁ e₂ s₂ e₃ s₃ e₄ s₄ : ℕ)
    → c.started ≡ true
    → c.candidate ≡ c.level
    → Blinks c.last_edge_ms e₁ s₁ × Blinks e₁ e₂ s₂ × Blinks e₂ e₃ s₃ × Blinks e₃ e₄ s₄
    → (e₂ < e₁ + 5000) × (e₃ < e₂ + 5000) × (e₄ < e₃ + 5000)
    → (blink (blink (blink (blink c e₁ s₁) e₂ s₂) e₃ s₃) e₄ s₄).state ≡ Power.sleep
blinking_sleeps c e₁ s₁ e₂ s₂ e₃ s₃ e₄ s₄ st raw b near =
    let one = first-IsBlinking c e₁ s₁ st raw b.0 in
    let two = next-IsBlinking _ e₁ 1 e₂ s₂ (omega arith) near.0 b.1 one in
    let three = next-IsBlinking _ e₂ 2 e₃ s₃ (omega arith) near.1 b.2 two in
    let four = next-IsBlinking _ e₃ 3 e₄ s₄ (omega arith) near.2 b.3 three in
    four.asleep (omega arith)
