-- ===== src/PowerBtn/Maintenance.antt =====
-- firmware/main/maintenance.c, `rw_maintenance_enter_bootloader`, with the two `quiesce` operations
-- that it calls: that of the button, and that of firmware/main/usb_hid.c. An entry is one step here:
-- `s_pending` admits one at a time, and what other tasks do in between is left out.
use remote_wake.Base.{ap, sym, subst, ◌≡◌, ◌≢◌, ◌⊎◌, Bool, true, false, not, arith, if◌then◌else◌}
use remote_wake.PowerBtn.{Err, is_ok, Button, quiesce, resume_actions}

-- The statics of usb_hid.c that its `quiesce` reads: `s_installed`, whether `s_lock` is taken, and
-- `s_quiesced`.
pub record Hid : Type 0 where
  pub installed : Bool
  pub locked : Bool
  pub stopped : Bool

-- `released` is the result of sending the neutral report, which is OK where the bus is not up.
unfoldable pub hid_quiesce : Hid → Err → Hid × Err
hid_quiesce h released =
    if not h.installed
    then (h, Err.ok)
    else if h.locked
    then (h, Err.invalid_state)
    else if h.stopped
    then (h, Err.invalid_state)
    else if is_ok released
    then (record h { stopped = true }, released)
    else (h, released)

unfoldable pub hid_resume_actions : Hid → Hid
hid_resume_actions h = record h { stopped = false }

pub record Device : Type 0 where
  pub pending : Bool  -- s_pending
  pub handler : Bool  -- whether `download_shutdown` is registered
  pub task : Bool  -- whether `reboot_task` has been created
  pub button : Button
  pub hid : Hid

-- What the chip and the libraries answer: whether download mode can be entered, the neutral report,
-- the registration of the shutdown handler, and the creation of the task.
pub record Answers : Type 0 where
  pub supported : Bool
  pub released : Err
  pub registered : Err
  pub created : Bool

-- From the registration on, with both parts quiesced.
unfoldable pub finish_entry : Device → Answers → Device × Err
unfolding resume_actions hid_resume_actions
finish_entry d a =
    let undone = record d {
      pending = false;
      button = resume_actions d.button;
      hid = hid_resume_actions d.hid;
    } in
    if not (is_ok a.registered)
    then (undone, a.registered)
    else if a.created
    then (record d { handler = true; task = true }, Err.ok)
    else (record undone { handler = false }, Err.no_mem)

unfoldable pub enter_bootloader : Device → Answers → Device × Err
unfolding quiesce hid_quiesce finish_entry resume_actions
enter_bootloader d a =
    let (b, e₁) = quiesce d.button in
    let (h, e₂) = hid_quiesce d.hid a.released in
    if not a.supported
    then (d, Err.not_supported)
    else if d.pending
    then (d, Err.invalid_state)
    else if not (is_ok e₁)
    then (record d { pending = false; button = b }, e₁)
    else if not (is_ok e₂)
    then (record d { pending = false; button = resume_actions b; hid = h }, e₂)
    else finish_entry (record d { pending = true; button = b; hid = h }) a

-- A part that does not exist is not quiesced, and no handler is left over.
pub record IsSettled (d : Device) : Type 0 where
  pub button_live : d.button.created ≡ false → d.button.quiesced ≡ false
  pub hid_live : d.hid.installed ≡ false → d.hid.stopped ≡ false
  pub no_handler : d.pending ≡ false → d.handler ≡ false

-- An entry that fails changes nothing, at whatever step it fails: not the pending mark, not the
-- registered handler, not the button and not the keyboard. This is for a device where no part that
-- does not exist is quiesced, and where no handler is registered unless an entry is pending.
pub failed_entry_undone :
    (d : Device) (a : Answers)
    → IsSettled d
    → (enter_bootloader d a).1 ≢ Err.ok
    → (enter_bootloader d a).0 ≡ d
unfolding enter_bootloader finish_entry quiesce resume_actions hid_quiesce hid_resume_actions
failed_entry_undone d a r failed = ground (arith, r.button_live, r.hid_live, r.no_handler)

is_ok-ok : (e : Err) → is_ok e ≡ true → e ≡ Err.ok
is_ok-ok e h = ground arith

finish_entry-ok :
    (d : Device) (a : Answers)
    → (finish_entry d a).1 ≡ Err.ok
    → (finish_entry d a).0 ≡ record d { handler = true; task = true }
unfolding finish_entry
finish_entry-ok d a ok = ground arith

-- What a successful entry went through, and what it leaves.
enter_bootloader-ok :
    (d : Device) (a : Answers)
    → (enter_bootloader d a).1 ≡ Err.ok
    → let b = quiesce d.button in
      let h = hid_quiesce d.hid a.released in
      (d.pending ≡ false)
      × (b.1 ≡ Err.ok)
      × (h.1 ≡ Err.ok)
      × ((enter_bootloader d a).0
          ≡ record d { pending = true; handler = true; task = true; button = b.0; hid = h.0 })
unfolding enter_bootloader
enter_bootloader-ok d a ok =
    let b = quiesce d.button in
    let h = hid_quiesce d.hid a.released in
    let last = finish_entry-ok (record d { pending = true; button = b.0; hid = h.0 }) a in
    (
      ground arith,
      ground (arith, is_ok-ok b.1),
      ground (arith, is_ok-ok b.1, is_ok-ok h.1),
      ground (arith, last),
    )

quiesce-ok :
    (b : Button)
    → (quiesce b).1 ≡ Err.ok
    → ((quiesce b).0.created ≡ false) ⊎ ((quiesce b).0.quiesced ≡ true)
unfolding quiesce
quiesce-ok b ok = ground arith

hid_quiesce-ok :
    (h : Hid) (released : Err)
    → (hid_quiesce h released).1 ≡ Err.ok
    → ((hid_quiesce h released).0.installed ≡ false) ⊎ ((hid_quiesce h released).0.stopped ≡ true)
unfolding hid_quiesce
hid_quiesce-ok h released ok = ground arith

pending-refused : (d : Device) (a : Answers) → d.pending ≡ true → (enter_bootloader d a).1 ≢ Err.ok
unfolding enter_bootloader
pending-refused d a h ok = ground arith

-- An entry that succeeds was the first, has its task and its handler, and has quiesced the button and
-- the keyboard where they exist; every entry after it is refused.
entered_once :
    (d : Device) (a later : Answers)
    → (enter_bootloader d a).1 ≡ Err.ok
    → let d' = (enter_bootloader d a).0 in
      (d.pending ≡ false)
      × (d'.task ≡ true)
      × (d'.handler ≡ true)
      × ((d'.button.created ≡ false) ⊎ (d'.button.quiesced ≡ true))
      × ((d'.hid.installed ≡ false) ⊎ (d'.hid.stopped ≡ true))
      × ((enter_bootloader d' later).1 ≢ Err.ok)
entered_once d a later ok =
    let (first, b_ok, h_ok, left) = enter_bootloader-ok d a ok in
    let d' = (enter_bootloader d a).0 in
    (
      first,
      ap (λ (t : Device). t.task) left,
      ap (λ (t : Device). t.handler) left,
      subst (λ (t : Device). (t.button.created ≡ false) ⊎ (t.button.quiesced ≡ true)) (sym left)
          (quiesce-ok d.button b_ok),
      subst (λ (t : Device). (t.hid.installed ≡ false) ⊎ (t.hid.stopped ≡ true)) (sym left)
          (hid_quiesce-ok d.hid a.released h_ok),
      pending-refused d' later (ap (λ (t : Device). t.pending) left),
    )
