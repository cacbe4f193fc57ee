-- ===== src/PowerBtn/Presses.antt =====
-- When the pin is high: only during a pulse of a length in range, and never once quiesced.
use remote_wake.Base.{
  ℕ, ◌≤◌, ◌≡◌, ◌⊎◌, refl, Bool, true, false, List, [], ◌∷◌, All, arith, Option, some, none,
}
use remote_wake.PowerBtn.{
  Err, Button, Board, Start, power_off, release_pin, init, pulse_begin, pulse_end, tap, hold,
  quiesce, resume_actions,
}

-- What the tasks do, in any order. `ends` is the end of the delay of the pulse under way.
pub data Event : Type 0 where
  ends quiesces resumes : Event
  inits : Board → Event
  taps holds : ℕ → Event

-- The button, and the length of the pulse that is under way.
pub record World : Type 0 where
  pub button : Button
  pub pulse : Option ℕ

abbrev pub after_start : Option ℕ → Button × Start → World
after_start old (b, Start.refused e) = record { button = b; pulse = old }
after_start old (b, Start.pressing ms) = record { button = b; pulse = some ms }

abbrev pub after_end : Button → Option ℕ → World
after_end b none = record { button = b; pulse = none }
after_end b (some ms) = record { button = pulse_end b; pulse = none }

unfoldable pub step : World → Event → World
unfolding init tap hold quiesce resume_actions
step w ends = after_end w.button w.pulse
step w quiesces = record w { button = (quiesce w.button).0 }
step w resumes = record w { button = resume_actions w.button }
step w (inits board) = record w { button = (init w.button board).0 }
step w (taps ms) = after_start w.pulse (tap w.button ms)
step w (holds ms) = after_start w.pulse (hold w.button ms)

unfoldable pub run : World → List Event → World
unfolding step
run w [] = w
run w (e ∷ es) = run (step w e) es

abbrev pub InRange : ℕ → Type 0
InRange ms = ((50 ≤ ms) × (ms ≤ 1000)) ⊎ ((3000 ≤ ms) × (ms ≤ 12000))

abbrev pub Pulsing : Option ℕ → Bool → Type 0
Pulsing none high = high ≡ false
Pulsing (some ms) high = (high ≡ true) × InRange ms

-- The pin is high exactly during a pulse, whose length is that of a tap or of a hold; then the mutex
-- is held, and there is one.
pub record IsSound (w : World) : Type 0 where
  pub pulsing : Pulsing w.pulse w.button.pin
  pub busy_high : w.button.busy ≡ w.button.pin
  pub taken_high : w.button.taken ≡ w.button.pin
  pub needs_mutex : w.button.created ≡ false → (w.button.pin ≡ false) × (w.button.quiesced ≡ false)

step-IsSound : (w : World) (e : Event) → IsSound w → IsSound (step w e)
unfolding step tap hold pulse_begin pulse_end release_pin init quiesce resume_actions
step-IsSound w e r = record {
  pulsing = ground (arith, r.pulsing, r.busy_high, r.taken_high, r.needs_mutex);
  busy_high = ground (arith, r.pulsing, r.busy_high, r.taken_high, r.needs_mutex);
  taken_high = ground (arith, r.pulsing, r.busy_high, r.taken_high, r.needs_mutex);
  needs_mutex = λ no_mutex. ground (arith, r.pulsing, r.busy_high, r.taken_high, r.needs_mutex);
}

run-keeps_IsSound : (es : List Event) (w : World) → IsSound w → IsSound (run w es)
unfolding run
run-keeps_IsSound [] w r = r
run-keeps_IsSound (e ∷ es) w r = run-keeps_IsSound es (step w e) (step-IsSound w e r)

boot-IsSound : IsSound (record { button = power_off; pulse = none })
unfolding power_off
boot-IsSound = record {
  pulsing = refl;
  busy_high = refl;
  taken_high = refl;
  needs_mutex = λ h. (refl, refl);
}

-- From power-on, after any events in any order: the pin is high exactly while a pulse is under way,
-- which is then reported as busy and holds the mutex, and whose length is 50 to 1000 ms or 3 to 12 s.
pub presses_in_range :
    (es : List Event) → IsSound (run (record { button = power_off; pulse = none }) es)
presses_in_range es =
    run-keeps_IsSound es (record { button = power_off; pulse = none }) boot-IsSound

abbrev pub NoResume : Event → Type 0
NoResume resumes = ⊥
NoResume _ = Unit

record IsQuiet (w : World) : Type 0 where
  created : w.button.created ≡ true
  quiesced : w.button.quiesced ≡ true
  low : w.button.pin ≡ false
  over : w.pulse ≡ none

step-IsQuiet : (w : World) (e : Event) → NoResume e → IsQuiet w → IsQuiet (step w e)
unfolding step tap hold pulse_begin pulse_end release_pin init quiesce resume_actions
step-IsQuiet w e s r = record {
  created = ground (arith, s, r);
  quiesced = ground (arith, s, r);
  low = ground (arith, s, r);
  over = ground (arith, s, r);
}

run-IsQuiet : (es : List Event) (w : World) → All NoResume es → IsQuiet w → IsQuiet (run w es)
unfolding run
run-IsQuiet [] w s r = r
run-IsQuiet (e ∷ es) w (s, later) r = run-IsQuiet es (step w e) later (step-IsQuiet w e s r)

quiesce-IsQuiet :
    (w : World)
    → IsSound w
    → w.button.created ≡ true
    → (quiesce w.button).1 ≡ Err.ok
    → IsQuiet (step w quiesces)
unfolding step quiesce
quiesce-IsQuiet w r made ok = record {
  created = ground (arith, made);
  quiesced = ground (arith, made);
  low = ground (arith, made, r.taken_high);
  over = ground (arith, made, r.taken_high, r.pulsing);
}

-- In a state that keeps the invariant, once `quiesce` returns OK on a button with its mutex, the pin
-- is low and stays low, whatever is asked of it, until actions are resumed.
pub quiesced_stays_low :
    (w : World) (es : List Event)
    → IsSound w
    → w.button.created ≡ true
    → (quiesce w.button).1 ≡ Err.ok
    → All NoResume es
    → (run (step w quiesces) es).button.pin ≡ false
quiesced_stays_low w es r made ok stays =
    (run-IsQuiet es (step w quiesces) stays (quiesce-IsQuiet w r made ok)).low
