-- ===== src/UsbHid/State.antt =====
-- The statics of firmware/main/usb_hid.c, the callbacks that change them, and what the code sees of
-- the bus while it runs. The task that holds `s_lock` runs the code; TinyUSB's callbacks run between
-- its critical sections. The course of the world is a list of slices: the code takes the next one
-- wherever it looks at the bus or the clock, or waits.
use remote_wake.Base.{
  ℕ, ◌+◌, ◌%◌, ◌^◌, Bool, true, false, not, ◌&&◌, ◌||◌, List, [], ◌∷◌, ◌==◌, if◌then◌else◌, length,
  bytes_eq, drop, replicate,
}

-- The values of `esp_err_t` that the code tells apart.
pub data Err : Type 0 where
  ok no_mem invalid_arg invalid_state invalid_size not_supported not_found timeout fail other : Err

abbrev pub is_ok : Err → Bool
is_ok Err.ok = true
is_ok _ = false

-- The callbacks of TinyUSB. A completed report is the `len` bytes that are passed.
pub data Callback : Type 0 where
  completed : ℕ → List ℕ → Callback
  failed : ℕ → Bool → Callback
  mounted unmounted suspended resumed : Callback

-- What happens up to the next look: the callbacks that run, then what `tud_mounted`,
-- `tud_suspended`, `tud_hid_ready`, the clock in microseconds, and the calls
-- `tud_hid_keyboard_report`, `tud_remote_wakeup` and `tud_disconnect` answer.
pub record Slice : Type 0 where
  pub callbacks : List Callback
  pub mounted : Bool
  pub suspended : Bool
  pub ready : Bool
  pub now : ℕ
  pub accepts : Bool
  pub wakes : Bool
  pub detaches : Bool

-- A report that was handed to the bus, and whether no release was owed then.
pub record Handed : Type 0 where
  pub report : List ℕ
  pub clear : Bool

-- The statics; `s_lock` is left out, since the task that holds it runs. Then the view of the bus, and
-- a history that the code does not keep: the reports handed over, and whether the bus has completed
-- the last of them since.
pub record Hid : Type 0 where
  pub installed : Bool  -- s_installed
  pub quiesced : Bool  -- s_quiesced
  pub need_release : Bool  -- s_need_release
  pub expected : List ℕ  -- s_expected_report
  pub waiting : Bool  -- s_waiting_report
  pub complete : Bool  -- s_report_complete
  pub neutral_done : Bool  -- s_neutral_completed
  pub deadline : ℕ  -- s_action_deadline
  pub bus_epoch : ℕ  -- s_bus_epoch
  pub action_epoch : ℕ  -- s_action_epoch
  pub epoch_valid : Bool  -- s_action_epoch_valid
  pub reenumerating : Bool  -- s_reenumerating
  pub was_active : Bool  -- of recovery_once
  pub observed_epoch : ℕ  -- of recovery_once
  pub view : Slice
  pub log : List Handed
  pub acked : Bool

abbrev quiet : Slice
quiet = record {
  callbacks = [];
  mounted = false;
  suspended = false;
  ready = false;
  now = 0;
  accepts = false;
  wakes = false;
  detaches = false;
}

-- The initial values.
unfoldable pub start : Hid
start = record {
  installed = false;
  quiesced = false;
  need_release = true;
  expected = replicate 9 0;
  waiting = false;
  complete = false;
  neutral_done = false;
  deadline = 0;
  bus_epoch = 0;
  action_epoch = 0;
  epoch_valid = false;
  reenumerating = false;
  was_active = false;
  observed_epoch = 0;
  view = quiet;
  log = [];
  acked = false;
}

unfoldable pub all_zero : List ℕ → Bool
all_zero [] = true
all_zero (b ∷ bs) = (b == 0) && all_zero bs

-- A report is its id, and then the modifiers, a reserved byte and six keys.
unfoldable pub neutral : List ℕ → Bool
unfolding all_zero
neutral report = all_zero (drop 1 report)

abbrev pub matches : List ℕ → List ℕ → Bool
matches report expected = (length report == 9) && bytes_eq report expected

-- `tud_hid_report_complete_cb`
unfoldable pub on_complete : Hid → ℕ → List ℕ → Hid
on_complete h instance_id report =
    let same = matches report h.expected in
    let seen = record h { acked = h.acked || ((instance_id == 0) && same) } in
    if (instance_id == 0) && h.waiting
    then record seen { complete = same; neutral_done = same && neutral h.expected; waiting = false }
    else seen

-- `tud_hid_report_failed_cb`; the flag says whether it is an input report.
unfoldable pub on_failed : Hid → ℕ → Bool → Hid
on_failed h instance_id input =
    if (instance_id == 0) && input
    then record h { waiting = false; complete = false; neutral_done = false }
    else h

unfoldable pub lifecycle_event : Hid → Bool → Bool → Hid
lifecycle_event h endpoint_reset mounts =
    let counted = record h {
      bus_epoch = (h.bus_epoch + 1) % 2 ^ 32;
      reenumerating = if mounts then false else h.reenumerating;
    } in
    if endpoint_reset
    then record counted { waiting = false; complete = false; neutral_done = false }
    else counted

unfoldable pub on_callback : Hid → Callback → Hid
unfolding on_complete on_failed lifecycle_event
on_callback h (Callback.completed instance_id report) = on_complete h instance_id report
on_callback h (Callback.failed instance_id input) = on_failed h instance_id input
on_callback h Callback.mounted = lifecycle_event h true true
on_callback h Callback.unmounted = lifecycle_event h true false
on_callback h Callback.suspended = lifecycle_event h false false
on_callback h Callback.resumed = lifecycle_event h false false

unfoldable pub on_callbacks : Hid → List Callback → Hid
unfolding on_callback
on_callbacks h [] = h
on_callbacks h (c ∷ cs) = on_callbacks (on_callback h c) cs

-- The next slice: its callbacks run, and the bus is seen as it is then.
unfoldable pub enter : Hid → Slice → Hid
unfolding on_callbacks
enter h s = record (on_callbacks h s.callbacks) { view = s }

unfoldable pub bus_state : Hid → Hid × Err
bus_state h =
    if h.reenumerating
    then (h, Err.not_found)
    else if not h.view.mounted
    then (record h { waiting = false; complete = false; neutral_done = false }, Err.not_found)
    else if h.view.suspended || (h.epoch_valid && not (h.action_epoch == h.bus_epoch))
    then (h, Err.timeout)
    else (h, Err.ok)
