-- ===== src/UsbHid/Tests.antt =====
-- A keyboard on a bus that takes every report, and one on a bus where the clock only runs.
use remote_wake.Base.{
  ℕ, zero, suc, ◌≤◌, ◌<◌, ◌≡◌, ◌⊎◌, refl, ap, true, false, List, [], ◌∷◌, ◌++◌, Option, some, none,
  if◌then◌else◌, codes, length, replicate, leb, ◌&&◌, ◌-◌, arith,
}
use remote_wake.Base.Int.{ℤ}
use remote_wake.Base.Results.{ok, err}
use remote_wake.Json.{Json, Items}
use remote_wake.UsbHid.State.{Err, Callback, Slice, Hid, start, neutral, enter, bus_state}
use remote_wake.UsbHid.Report.{Run, release, release_all, press_release}
use remote_wake.UsbHid.Keys.{
  Layout, mappable, char_reports, lookup_keyname, check_chord, chord_report,
}
use remote_wake.UsbHid.Actions.{
  Attempt, text_reports, type_text, plan_keys, press_keys, init_keyboard, recovery_once,
}
use remote_wake.UsbHid.Chains.{Always}
use remote_wake.UsbHid.Release.{IsSafe}
use remote_wake.UsbHid.Order.{Pressed, pressing, reports_of}
use remote_wake.UsbHid.Finish.{Refused, HasNoKey, type_text-Pressed, press_keys-Pressed}
use remote_wake.UsbHid.Runs.{Op, run_ops}
use remote_wake.UsbHid.Completes.{cost, Completed, run_ops-IsSafe}
use remote_wake.UsbHid.Chords.{key_codes, modifiers, padded, check_chord-report}
use remote_wake.UsbHid.Returns.{Ticks, Takes}
use remote_wake.UsbHid.Bounded.{looks, type_text-Takes}

-- Small letters only, with the codes of the HID usage tables.
abbrev layout : Layout
layout = record {
  ascii_shift = λ c. false;
  ascii_key = λ c. if leb 97 c && leb c 122 then c - 93 else 0;
  key_a = 4;
  key_f1 = 58;
  enter = 40;
  escape = 41;
  backspace = 42;
  tab = 43;
  space = 44;
  caps_lock = 57;
  print_screen = 70;
  insert = 73;
  home = 74;
  page_up = 75;
  delete = 76;
  last = 77;
  page_down = 78;
  right = 79;
  left = 80;
  down = 81;
  arrow_up = 82;
  minus = 45;
  equal = 46;
}

-- A bus that is up, after some callbacks.
abbrev up : List Callback → Slice
up callbacks = record {
  callbacks = callbacks;
  mounted = true;
  suspended = false;
  ready = true;
  now = 1;
  accepts = true;
  wakes = false;
  detaches = true;
}

-- The looks of a report that the bus completes, and of a release.
abbrev sends : List ℕ → List Slice
sends report = up [] ∷ up [] ∷ up [] ∷ up [] ∷ up (Callback.completed 0 report ∷ []) ∷ []

abbrev releases : List Slice
releases = sends release ++ (up [] ∷ [])

abbrev key_report : ℕ → List ℕ
key_report code = 1 ∷ 0 ∷ 0 ∷ code ∷ replicate 5 0

-- Of an action that presses a key and Enter.
abbrev course : List Slice
course =
    (up [] ∷ up [] ∷ [])
    ++ releases
    ++ sends (key_report 4)
    ++ releases
    ++ sends (key_report 40)
    ++ releases

abbrev attempt : Attempt
attempt = record { quiesced_before = false; called = 0; taken = true }

abbrev plugged : Hid
plugged = record start { installed = true }

plugged-IsSafe : IsSafe plugged
unfolding start
plugged-IsSafe = record {
  completes = λ c. absurd (ground arith);
  claims = λ c. absurd (ground arith);
  clears = λ c. absurd (ground arith);
  guarded = tt;
}

abbrev outcome : Run → Option (Err × List (List ℕ))
outcome none = none
outcome (some (h, rest, e)) = some (e, pressing (reports_of h.log))

-- The text is typed.
types_a :
    outcome (type_text layout (some (codes "a")) true attempt plugged course)
    ≡ some (Err.ok, (key_report 4 ∷ key_report 40 ∷ []))
unfolding type_text start mappable enter release_all bus_state neutral char_reports press_release
    pressing
types_a = refl

-- A text with a character that has no key is refused.
refuses_it :
    type_text layout (some (codes "a~")) true attempt plugged course
    ≡ some (plugged, course, Err.invalid_arg)
unfolding type_text start mappable
refuses_it = refl

type_text-Pressed_example :
    Always
      (Pressed plugged (text_reports layout (codes "a") true))
      (type_text layout (some (codes "a")) true attempt plugged course)
    × ((256 < length (codes "a")) ⊎ HasNoKey layout (codes "a")
        → Refused plugged course (type_text layout (some (codes "a")) true attempt plugged course))
type_text-Pressed_example =
    type_text-Pressed layout (codes "a") true attempt plugged course plugged-IsSafe

abbrev chord : Items ℤ
chord =
    Items.cons (Json.str (some (codes "LCTRL")))
      (Items.cons (Json.str (some (codes "a"))) Items.nil)

chord_passes : check_chord layout (Json.arr chord) ≡ ok tt
unfolding check_chord lookup_keyname
chord_passes = refl

check_chord-report_example :
    (length (key_codes layout chord) ≤ 6)
    × (chord_report layout (Json.arr chord)
        ≡ 1 ∷ modifiers layout chord 0 ∷ 0 ∷ padded (key_codes layout chord))
check_chord-report_example = check_chord-report layout (Json.arr chord) chord refl chord_passes

abbrev sequence : Json ℤ
sequence = Json.arr (Items.cons (Json.arr chord) Items.nil)

press_keys-Pressed_example :
    ((e : Err)
      → plan_keys layout sequence ≡ err e
      → press_keys layout sequence attempt plugged course
        ≡ some (plugged, course, if plugged.installed then e else Err.not_supported))
    × ((plan : List (List ℕ))
        → plan_keys layout sequence ≡ ok plan
        → Always (Pressed plugged plan) (press_keys layout sequence attempt plugged course))
press_keys-Pressed_example =
    press_keys-Pressed layout sequence attempt plugged course plugged-IsSafe

abbrev session : List (Op ℤ)
session =
    Op.initialises true true Err.ok
    ∷ Op.receives (Callback.mounted ∷ [])
    ∷ Op.types (some (codes "a")) true attempt
    ∷ Op.recovers true
    ∷ []

-- Slices in which only the clock runs, by a microsecond each.
ticking : ℕ → ℕ → List Slice
ticking zero t = []
ticking (suc n) t = record (up []) { now = suc t } ∷ ticking n (suc t)

length-ticking : (n t : ℕ) → length (ticking n t) ≡ n
unfolding ticking
length-ticking zero t = refl
length-ticking (suc n) t = ap suc (length-ticking n (suc t))

ticking-Ticks : (n t : ℕ) → Ticks t (ticking n t)
unfolding ticking
ticking-Ticks zero t = tt
ticking-Ticks (suc n) t = (omega arith, ticking-Ticks n (suc t))

ticking-enough : looks 2 ≤ length (ticking (looks 2) 0)
ticking-enough = omega (arith, length-ticking (looks 2) 0)

type_text-Takes_example :
    Takes
      (looks 2)
      0
      (ticking (looks 2) 0)
      (type_text layout (some (codes "a")) true attempt plugged (ticking (looks 2) 0))
type_text-Takes_example =
    type_text-Takes layout (codes "a") true attempt 0 plugged (ticking (looks 2) 0) ticking-enough
      (ticking-Ticks (looks 2) 0)

-- The looks of a course, a microsecond apart, and then slices in which only the clock runs.
stamped : ℕ → List Slice → ℕ → List Slice
stamped t [] n = ticking n t
stamped t (s ∷ rest) n = record s { now = suc t } ∷ stamped (suc t) rest n

stamped-Ticks : (t : ℕ) (slices : List Slice) (n : ℕ) → Ticks t (stamped t slices n)
unfolding stamped
stamped-Ticks t [] n = ticking-Ticks n t
stamped-Ticks t (s ∷ rest) n = (omega arith, stamped-Ticks (suc t) rest n)

stamped-enough : (t : ℕ) (slices : List Slice) (n : ℕ) → n ≤ length (stamped t slices n)
unfolding stamped
stamped-enough t [] n = omega (arith, length-ticking n t)
stamped-enough t (s ∷ rest) n = omega (arith, stamped-enough (suc t) rest n)

-- The keyboard is mounted, a text is typed, and the recovery worker releases the keys once more.
abbrev whole_course : List Slice
whole_course = course ++ (up [] ∷ up [] ∷ releases)

abbrev whole_run : List Slice
whole_run = stamped 0 whole_course (cost layout session)

completes :
    outcome (run_ops layout session start whole_run)
    ≡ some (Err.ok, (key_report 4 ∷ key_report 40 ∷ []))
unfolding run_ops type_text start mappable enter release_all bus_state neutral char_reports
    press_release pressing stamped init_keyboard recovery_once
completes = refl

run_ops-IsSafe_example :
    Always (λ h e. IsSafe h) (run_ops layout session start whole_run)
    × ((t : ℕ)
        → cost layout session ≤ length whole_run
        → Ticks t whole_run
        → Completed (run_ops layout session start whole_run))
run_ops-IsSafe_example = run_ops-IsSafe layout session whole_run

ends_safe : Completed (run_ops layout session start whole_run)
ends_safe =
    (run_ops-IsSafe layout session whole_run).1 0
      (stamped-enough 0 whole_course (cost layout session))
      (stamped-Ticks 0 whole_course (cost layout session))
