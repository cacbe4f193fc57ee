-- ===== src/UsbHid/Actions.antt =====
-- The operations of firmware/main/usb_hid.c that hold `s_lock`, and the init. What a call finds when
-- it asks for the lock is an argument.
use remote_wake.Base.{
  ℕ, ◌+◌, Bool, true, false, not, ◌&&◌, ◌||◌, List, [], ◌∷◌, ◌++◌, Option, some, none, ltb, leb,
  ◌==◌, if◌then◌else◌, length, replicate,
}
use remote_wake.Base.Results.{Result, ok, err}
use remote_wake.Json.{Json}
use remote_wake.UsbHid.State.{Err, is_ok, Slice, Hid, enter, bus_state}
use remote_wake.UsbHid.Report.{Run, ◌and_then◌, look, release_all, press_release}
use remote_wake.UsbHid.Keys.{
  Layout, items_size, items_of, check_chords, chord_reports, mappable, char_reports, left_ctrl,
}

-- What follows in any case.
infixl 5 ◌finally◌
abbrev pub ◌finally◌ : Run → (Err → Hid → List Slice → Run) → Run
none finally next = none
(some (h, rest, e)) finally next = next e h rest

-- The loop of `ensure_awake`, and the `bus_state` after it.
unfoldable pub wait_awake : ℕ → Hid → List Slice → Run
wait_awake deadline h [] = none
wait_awake deadline h (s ∷ rest) =
    let again = wait_awake deadline (enter h s) rest in
    let (h', up) = bus_state (enter h s) in
    if s.mounted && s.suspended && ltb s.now deadline then again else some (h', rest, up)

unfoldable pub ensure_awake : Hid → List Slice → Run
unfolding wait_awake
ensure_awake h rest = look h rest (λ h' rest'.
    let (h'', up) = bus_state h' in
    if not h'.view.mounted
    then some (h'', rest', up)
    else if not h'.view.suspended
    then some (h', rest', Err.ok)
    else if not h'.view.wakes
    then some (h', rest', Err.timeout)
    else wait_awake (h'.view.now + 1000000) h' rest')

unfoldable pub begin_action : Hid → List Slice → Run
unfolding ensure_awake
begin_action h rest = ensure_awake h rest finally λ e h' rest'. look h' rest' (λ h'' rest''.
    let marked = record h'' { action_epoch = h''.bus_epoch; epoch_valid = true } in
    if is_ok e then release_all marked rest'' else some (marked, rest'', e))

-- A detach that fails leaves the keyboard blocked, and so does a failed `tud_connect`.
unfoldable pub restart_usb : Hid → List Slice → Err → Run
restart_usb h rest e =
    look (record h { reenumerating = true }) rest
      (λ h' rest'.
        if h'.view.detaches
        then look h' rest' (λ h'' rest''. some (record h'' { reenumerating = true }, rest'', e))
        else some (h', rest', e))

-- After a failed release: where the bus is still up, the keyboard reconnects.
unfoldable pub restart_if_up : Hid → List Slice → Err → Run
unfolding restart_usb
restart_if_up h rest e = look h rest (λ h' rest'.
    let (h'', up) = bus_state h' in
    if is_ok up then restart_usb h'' rest' e else some (h'', rest', e))

-- The release that `finish_action` makes.
unfoldable pub clean_up : Err → Hid → List Slice → Run
unfolding restart_if_up
clean_up e h rest = release_all h rest finally λ released h' rest'.
    let result = if is_ok e then released else e in
    if is_ok released then some (h', rest', result) else restart_if_up h' rest' result

unfoldable pub finish_action : Err → Hid → List Slice → Run
unfolding clean_up
finish_action e h rest =
    let over = record h { deadline = 0; epoch_valid = false } in
    if h.need_release
    then look over rest (λ h' rest'.
      let (h'', up) = bus_state h' in
      if is_ok up then clean_up e h'' rest' else some (h'', rest', e))
    else some (over, rest, e)

-- What `lock_action` finds: `s_quiesced` and the clock when it is called, and whether it gets the
-- lock within two seconds. The statics are those of the moment that it has the lock.
pub record Attempt : Type 0 where
  pub quiesced_before : Bool
  pub called : ℕ
  pub taken : Bool

unfoldable pub lock_action : Attempt → Hid → Hid × Err
lock_action a h =
    if a.quiesced_before || not a.taken || h.quiesced
    then (h, Err.invalid_state)
    else (record h { deadline = a.called + 8000000 }, Err.ok)

-- The loops of the three actions: each report is pressed and released, with a pause in between where
-- the action has one.
unfoldable pub press_each : Bool → Bool → List (List ℕ) → Hid → List Slice → Run
press_each pause first [] h rest = some (h, rest, Err.ok)
press_each pause first (r ∷ rs) h rest =
    if pause && not first
    then look h rest (λ h' rest'. press_release r h' rest' and_then press_each pause false rs)
    else press_release r h rest and_then press_each pause false rs

-- From the lock to its release.
unfoldable pub act : Bool → List (List ℕ) → Attempt → Hid → List Slice → Run
unfolding begin_action press_each finish_action lock_action
act pause reports a h rest =
    let (h', locked) = lock_action a h in
    if is_ok locked
    then begin_action h' rest and_then press_each pause true reports finally finish_action
    else some (h', rest, Err.invalid_state)

abbrev pub ctrl_report : List ℕ
ctrl_report = 1 ∷ left_ctrl ∷ replicate 7 0

-- `rw_hid_wake`
unfoldable pub wake : Attempt → Hid → List Slice → Run
unfolding act
wake a h rest =
    if h.installed
    then act true (ctrl_report ∷ ctrl_report ∷ []) a h rest
    else some (h, rest, Err.not_supported)

module _ (L : Layout) where
  -- What `rw_hid_type` presses.
  unfoldable pub text_reports : List ℕ → Bool → List (List ℕ)
  text_reports text enter =
      char_reports L text ++ (if enter then ((1 ∷ 0 ∷ 0 ∷ L.enter ∷ replicate 5 0) ∷ []) else [])

  -- `rw_hid_type`; `none` is NULL.
  unfoldable pub type_text : Option (List ℕ) → Bool → Attempt → Hid → List Slice → Run
  unfolding act text_reports
  type_text none enter a h rest =
      some (h, rest, if h.installed then Err.invalid_arg else Err.not_supported)
  type_text (some text) enter a h rest =
      if not h.installed
      then some (h, rest, Err.not_supported)
      else if ltb 256 (length text)
      then some (h, rest, Err.invalid_size)
      else if not (mappable L text)
      then some (h, rest, Err.invalid_arg)
      else act false (text_reports text enter) a h rest

  module _ {D : Type 0} where
    -- What `rw_hid_keys` presses, or why it presses nothing.
    unfoldable pub plan_keys : Json D → Result Err (List (List ℕ))
    unfolding check_chords chord_reports
    plan_keys seq = elim (items_of L seq) [
      | none ↦ err Err.invalid_arg
      | some chords ↦
          if leb 1 (items_size L chords) && leb (items_size L chords) 32
          then elim (check_chords L chords) [ err e ↦ err e | ok u ↦ ok (chord_reports L chords) ]
          else err Err.invalid_size
    ]

    -- `rw_hid_keys`
    unfoldable pub press_keys : Json D → Attempt → Hid → List Slice → Run
    unfolding plan_keys act
    press_keys seq a h rest =
        if not h.installed then some (h, rest, Err.not_supported) else elim (plan_keys seq) [
          | err e ↦ some (h, rest, e)
          | ok reports ↦ act true reports a h rest
        ]

-- The release of the recovery worker, and what it remembers.
unfoldable pub recover_active : Bool → ℕ → Hid → List Slice → Run
unfolding restart_if_up
recover_active active epoch h rest =
    let owed = not active || not h.was_active || not (epoch == h.observed_epoch) in
    let marked = record h {
      need_release = if owed then true else h.need_release;
      observed_epoch = epoch;
      was_active = active;
    } in
    if active && marked.need_release
    then (release_all marked rest finally λ released h' rest'.
        if is_ok released then some (h', rest', Err.ok) else restart_if_up h' rest' Err.ok)
    else some (marked, rest, Err.ok)

-- `recovery_once`; the result is always ESP_OK here.
unfoldable pub recovery_once : Bool → Hid → List Slice → Run
unfolding recover_active
recovery_once taken h rest =
    if not h.installed || h.quiesced || not taken
    then some (h, rest, Err.ok)
    else look h rest (λ h' rest'.
      let (h'', up) = bus_state h' in
      look h'' rest' (λ h₃ rest₃. recover_active (is_ok up) h₃.bus_epoch h₃ rest₃))

-- `rw_hid_quiesce`
unfoldable pub quiesce_keyboard : Bool → Hid → List Slice → Run
quiesce_keyboard taken h rest =
    if not h.installed
    then some (h, rest, Err.ok)
    else if not taken || h.quiesced
    then some (h, rest, Err.invalid_state)
    else look h rest (λ h' rest'.
      let (h'', up) = bus_state h' in
      (if is_ok up then release_all h'' rest' else some (h'', rest', Err.ok)) and_then λ h₃ rest₃.
      some (record h₃ { quiesced = true }, rest₃, Err.ok))

-- `init`: whether the mutex and the task can be had, and what installing the driver gives; that is
-- ESP_OK where the application has installed it.
unfoldable pub init_keyboard : Bool → Bool → Err → Hid → Hid × Err
init_keyboard mutex task driver h =
    if h.installed
    then (h, Err.ok)
    else if not mutex || not task
    then (h, Err.no_mem)
    else if is_ok driver
    then (record h { installed = true }, Err.ok)
    else (h, driver)
