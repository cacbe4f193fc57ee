-- ===== src/PowerBtn.antt =====
-- firmware/main/power_btn.c and maintenance.c: the relay's power commands press the power button, and
-- maintenance waits for them. Each function is cut where another task can run: the pulse at its delay.
pub mod Presses
pub mod Maintenance
mod Tests
use remote_wake.Base.{ℕ, Bool, true, false, not, ◌&&◌, ◌||◌, List, [], ◌∷◌, ltb, leb, if◌then◌else◌}

pub data Err : Type 0 where
  ok invalid_state invalid_arg no_mem not_supported timeout other : Err

abbrev pub is_ok : Err → Bool
is_ok Err.ok = true
is_ok _ = false

abbrev pub tap_ms_min : ℕ
tap_ms_min = 50

abbrev pub tap_ms_max : ℕ
tap_ms_max = 1000

abbrev pub hold_ms_min : ℕ
hold_ms_min = 3000

abbrev pub hold_ms_max : ℕ
hold_ms_max = 12000

-- The statics, the pin, and whether the mutex is taken. `created` is `s_lock != NULL`.
pub record Button : Type 0 where
  pub created : Bool
  pub taken : Bool
  pub busy : Bool
  pub quiesced : Bool
  pub pin : Bool

-- The results that the driver and the allocator give.
pub record Board : Type 0 where
  pub gpio_config : Err
  pub mutex_made : Bool

unfoldable pub power_off : Button
power_off = record { created = false; taken = false; busy = false; quiesced = false; pin = false }

unfoldable pub release_pin : Button → Button
release_pin b = record b { pin = false }

unfoldable pub init : Button → Board → Button × Err
init b board =
    if b.created
    then (b, Err.ok)
    else if not (is_ok board.gpio_config)
    then (b, board.gpio_config)
    else if not board.mutex_made
    then (record b { pin = false }, Err.no_mem)
    else (record b { pin = false; created = true; taken = false }, Err.ok)

-- What `pulse` decides before its delay: to return an error, or to hold the pin for `ms`.
pub data Start : Type 0 where
  refused : Err → Start
  pressing : ℕ → Start

unfoldable pub pulse_begin : Button → ℕ → ℕ → ℕ → Button × Start
pulse_begin b ms lo hi =
    if not b.created
    then (b, Start.refused Err.invalid_state)
    else if ltb ms lo || ltb hi ms
    then (b, Start.refused Err.invalid_arg)
    else if b.taken
    then (b, Start.refused Err.invalid_state)
    else if b.quiesced
    then (record b { taken = false }, Start.refused Err.invalid_state)
    else (record b { taken = true; busy = true; pin = true }, Start.pressing ms)

-- After the delay, in the task that took the mutex.
unfoldable pub pulse_end : Button → Button
unfolding release_pin
pulse_end b = record (release_pin b) { busy = false; taken = false }

unfoldable pub tap : Button → ℕ → Button × Start
unfolding pulse_begin
tap b ms = pulse_begin b ms tap_ms_min tap_ms_max

unfoldable pub hold : Button → ℕ → Button × Start
unfolding pulse_begin
hold b ms = pulse_begin b ms hold_ms_min hold_ms_max

unfoldable pub quiesce : Button → Button × Err
quiesce b =
    if not b.created
    then (b, Err.ok)
    else if b.taken
    then (b, Err.invalid_state)
    else if b.quiesced
    then (b, Err.invalid_state)
    else (record b { quiesced = true }, Err.ok)

unfoldable pub resume_actions : Button → Button
resume_actions b = record b { quiesced = false }
