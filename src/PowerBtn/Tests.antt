-- ===== src/PowerBtn/Tests.antt =====
-- Presses, a quiesced button, and entries that fail and succeed.
use remote_wake.Base.{◌≡◌, ◌≢◌, refl, true, false, List, [], ◌∷◌, none, arith}
use remote_wake.PowerBtn.{
  Err, Button, Board, power_off, init, tap, hold, pulse_begin, pulse_end, release_pin, quiesce,
  resume_actions,
}
use remote_wake.PowerBtn.Presses.{
  Event, World, IsSound, step, run, presses_in_range, quiesced_stays_low,
}
use remote_wake.PowerBtn.Maintenance.{
  Device, Answers, IsSettled, enter_bootloader, finish_entry, hid_quiesce, hid_resume_actions,
  failed_entry_undone,
}

abbrev board : Board
board = record { gpio_config = Err.ok; mutex_made = true }

-- A hold while a tap is under way is refused, and one afterwards is not.
abbrev presses : List Event
presses = Event.inits board ∷ Event.taps 200 ∷ Event.holds 6000 ∷ Event.ends ∷ Event.holds 6000 ∷ []

holds_last : (run (record { button = power_off; pulse = none }) presses).button.pin ≡ true
unfolding run step power_off init tap hold pulse_begin pulse_end release_pin
holds_last = refl

presses_in_range_example : IsSound (run (record { button = power_off; pulse = none }) presses)
presses_in_range_example = presses_in_range presses

abbrev idle : Button
idle = record { created = true; taken = false; busy = false; quiesced = false; pin = false }

abbrev resting : World
resting = record { button = idle; pulse = none }

abbrev requests : List Event
requests = Event.taps 200 ∷ Event.holds 6000 ∷ Event.quiesces ∷ []

quiesced_stays_low_example : (run (step resting Event.quiesces) requests).button.pin ≡ false
unfolding quiesce
quiesced_stays_low_example =
    quiesced_stays_low resting requests
      (record {
        pulsing = refl;
        busy_high = refl;
        taken_high = refl;
        needs_mutex = λ h. (refl, refl);
      })
      refl refl (tt, (tt, (tt, tt)))

abbrev plugged : Device
plugged = record {
  pending = false;
  handler = false;
  task = false;
  button = idle;
  hid = record { installed = true; locked = false; stopped = false };
}

plugged-IsSettled : IsSettled plugged
plugged-IsSettled = record { button_live = λ h. refl; hid_live = λ h. refl; no_handler = λ h. refl }

abbrev all_well : Answers
all_well = record { supported = true; released = Err.ok; registered = Err.ok; created = true }

no_task : (enter_bootloader plugged (record all_well { created = false })).1 ≢ Err.ok
unfolding enter_bootloader finish_entry quiesce resume_actions hid_quiesce hid_resume_actions
no_task = ground arith

failed_entry_undone_example :
    (enter_bootloader plugged (record all_well { created = false })).0 ≡ plugged
failed_entry_undone_example =
    failed_entry_undone plugged (record all_well { created = false }) plugged-IsSettled no_task

enters : (enter_bootloader plugged all_well).1 ≡ Err.ok
unfolding enter_bootloader finish_entry quiesce hid_quiesce
enters = refl
