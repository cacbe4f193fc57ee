-- ===== src/UsbHid/Report.antt =====
-- Sending a report, firmware/main/usb_hid.c, `ensure_awake` to `press_release`. A result `none`
-- means that the slices ran out.
use remote_wake.Base.{
  ℕ, ◌+◌, Bool, true, false, not, ◌&&◌, ◌||◌, List, [], ◌∷◌, ◌++◌, Option, some, none, ltb, leb,
  ◌==◌, if◌then◌else◌, replicate,
}
use remote_wake.UsbHid.State.{Err, is_ok, Slice, Hid, neutral, enter, bus_state}

-- What a call leaves: the statics, the slices to come and the result.
abbrev pub Run : Type 0
Run = Option (Hid × List Slice × Err)

-- `if (err == ESP_OK) err = next;`
infixl 5 ◌and_then◌
abbrev pub ◌and_then◌ : Run → (Hid → List Slice → Run) → Run
none and_then next = none
(some (h, rest, e)) and_then next = if is_ok e then next h rest else some (h, rest, e)

-- A call of the bus or the clock takes the next slice.
abbrev pub look : Hid → List Slice → (Hid → List Slice → Run) → Run
look h [] next = none
look h (s ∷ rest) next = next (enter h s) rest

abbrev pub bus_up : Hid → Bool
bus_up h = is_ok (bus_state h).1

-- The first loop of `send_report`, with the error of its last round.
unfoldable pub wait_ready : ℕ → Hid → List Slice → Run
wait_ready deadline h [] = none
wait_ready deadline h (s ∷ rest) =
    let (h', err) = bus_state (enter h s) in
    let again = wait_ready deadline h' rest in
    if not (is_ok err) || (not h'.waiting && s.ready) || leb deadline s.now
    then some (h', rest, err)
    else again

-- The second loop: until the transfer completes or fails, or the time is over.
unfoldable pub wait_complete : ℕ → Hid → List Slice → Run
wait_complete deadline h [] = none
wait_complete deadline h (s ∷ rest) =
    let (h', err) = bus_state (enter h s) in
    let again = wait_complete deadline h' rest in
    if not (is_ok err) || h'.complete
    then some (h', rest, err)
    else if not h'.waiting
    then some (h', rest, Err.fail)
    else if leb deadline s.now
    then some (h', rest, Err.timeout)
    else again

-- The report that the code expects to be completed, and the debt.
unfoldable pub hand_over : Hid → List ℕ → Hid
hand_over h report = record h {
  expected = report;
  complete = false;
  neutral_done = false;
  waiting = true;
  need_release = true;
  log = h.log ++ (record { report = report; clear = not h.need_release } ∷ []);
  acked = false;
}

abbrev is_fail : Err → Bool
is_fail Err.fail = true
is_fail _ = false

abbrev pub settle : Run → Run
settle none = none
settle (some (h, rest, e)) =
    some (record h { waiting = if is_fail e then false else h.waiting }, rest, e)

-- From the submission on.
unfoldable pub submit : ℕ → Hid → List Slice → Run
unfolding wait_complete
submit deadline h [] = none
submit deadline h (s ∷ rest) = settle (
    if s.accepts then wait_complete deadline (enter h s) rest else some (enter h s, rest, Err.fail))

-- From the second look at the clock on. A completed release that nobody has claimed is claimed.
unfoldable pub claim_or_submit : ℕ → List ℕ → Hid → List Slice → Run
unfolding hand_over submit
claim_or_submit deadline report h [] = none
claim_or_submit deadline report h (s ∷ rest) =
    let seen = enter h s in
    if leb deadline s.now
    then some (seen, rest, Err.timeout)
    else if neutral report && seen.neutral_done
    then some (record seen { neutral_done = false }, rest, Err.ok)
    else submit deadline (hand_over seen report) rest

abbrev pub report_deadline : Hid → ℕ
report_deadline h =
    let deadline = h.view.now + 200000 in
    if not (h.deadline == 0) && ltb h.deadline deadline then h.deadline else deadline

-- `send_report`; the report is its id, the modifiers, a reserved byte and the keys.
unfoldable pub send_report : List ℕ → Hid → List Slice → Run
unfolding wait_ready claim_or_submit
send_report report h rest = look h rest (λ h' rest'.
    wait_ready (report_deadline h') h' rest' and_then claim_or_submit (report_deadline h') report)

abbrev pub release : List ℕ
release = 1 ∷ replicate 8 0

unfoldable pub release_all : Hid → List Slice → Run
unfolding send_report
release_all h rest = send_report release h rest and_then λ h' rest'.
    look h' rest' (λ h'' rest''.
      some (record h'' { need_release = false; neutral_done = false }, rest'', Err.ok))

unfoldable pub press_release : List ℕ → Hid → List Slice → Run
unfolding release_all
press_release report h rest = send_report report h rest and_then release_all
