-- ===== src/OtaWorker.antt =====
-- The installation of an update and what follows it, firmware/main/ota.c: the durable journal, the
-- selection of the boot partition, and the first boot after it. The calls of ESP-IDF are arguments.
pub mod Attempt
pub mod Boot
pub mod Carried
pub mod Commit
pub mod Delivered
pub mod Download
pub mod Downloaded
pub mod Found
pub mod Image
pub mod Install
pub mod Scanned
pub mod Selected
pub mod Signed
pub mod Offers
mod Tests
mod ImageTests
mod SignedTests
use remote_wake.Base.{
  ℕ, ◌+◌, Bool, true, false, not, ◌&&◌, ◌||◌, List, [], ◌∷◌, ◌++◌, Option, some, none, leb, ◌==◌,
  if◌then◌else◌,
}
use remote_wake.OtaJournal.{Journal, rejected, prepare, reject, clear_pending, confirm}
use remote_wake.PowerBtn.{Err, is_ok, Button, quiesce, resume_actions}
use remote_wake.PowerBtn.Maintenance.{Hid, hid_quiesce, hid_resume_actions}

-- What survives a power cut: the stored journal and the address of the boot partition.
pub record Durable : Type 0 where
  pub journal : Journal
  pub boot : ℕ

-- The updater: what is durable, `s_journal`, `s_healthy`, and the parts that it reserves. The history
-- of what was durable, which the code does not keep, has each state that a power cut can leave.
pub record Updater : Type 0 where
  pub durable : Durable
  pub journal : Journal
  pub healthy : Bool
  pub button : Button
  pub hid : Hid
  pub history : List Durable

abbrev pub store : Updater → Durable → Updater
store u d = record u { durable = d; history = u.history ++ (d ∷ []) }

-- What `nvs_set_blob` and `nvs_commit` give, and whether a failed save has reached the flash.
pub record Saved : Type 0 where
  pub set : Err
  pub commit : Err
  pub reached : Bool

unfoldable pub save_journal : Updater → Journal → Saved → Updater × Err
save_journal u next a =
    let e = if is_ok a.set then a.commit else a.set in
    let kept = record u.durable { journal = next } in
    if is_ok e
    then (record (store u kept) { journal = next }, Err.ok)
    else (if a.reached then store u kept else u, e)

-- `esp_ota_set_boot_partition`
abbrev pub select : Updater → ℕ → Err → Updater × Err
select u address e = if is_ok e then (store u (record u.durable { boot = address }), e) else (u, e)

unfoldable pub cancel_reservations : Updater → Updater
cancel_reservations u = record u {
  hid = hid_resume_actions u.hid;
  button = resume_actions u.button;
}

-- What a candidate is: the release and hash of its manifest, and the address of its partition.
pub record Candidate : Type 0 where
  pub release : ℕ
  pub hash : List ℕ
  pub address : ℕ

-- The answers in one round of `restart_candidate`: the neutral report, the application's
-- `prepare_restart` (ESP_OK where it has none), the journal and the boot partition.
pub record Round : Type 0 where
  pub released : Err
  pub prepared : Err
  pub saved : Saved
  pub selected : Err

-- From the lock of `s_control` on. ESP_OK stands for `esp_restart`, which does not return.
unfoldable pub commit : Updater → Candidate → Round → Updater × Err
unfolding save_journal cancel_reservations
commit u c r =
    let (u₁, e₁) = save_journal u (prepare u.journal c.release c.address c.hash) r.saved in
    let (u₂, e₂) = select u₁ c.address r.selected in
    if not (is_ok e₁)
    then (cancel_reservations u₁, e₁)
    else if is_ok e₂
    then (u₂, Err.ok)
    else (cancel_reservations u₂, e₂)

-- One round; the flag says that the function returns.
unfoldable pub round : Updater → Candidate → Round → Updater × Err × Bool
unfolding commit quiesce hid_quiesce
round u c r =
    let (b, e₁) = quiesce u.button in
    let (h, e₂) = hid_quiesce u.hid r.released in
    let reserved = record u { button = b; hid = h } in
    let (done, e₃) = commit reserved c r in
    if not (is_ok e₁)
    then (record u { button = b }, e₁, false)
    else if not (is_ok e₂)
    then (record reserved { button = resume_actions b }, e₂, false)
    else if not (is_ok r.prepared)
    then (cancel_reservations reserved, r.prepared, false)
    else (done, e₃, true)

abbrev pub try_later : Err → Bool
try_later Err.invalid_state = true
try_later Err.timeout = true
try_later _ = false

-- The rounds are those that begin before the deadline.
unfoldable pub restart_candidate : List Round → Updater → Candidate → Updater × Err
unfolding round
restart_candidate [] u c = (u, Err.timeout)
restart_candidate (r ∷ rs) u c =
    let (u', e, returns) = round u c r in
    let again = restart_candidate rs u' c in if returns || not (try_later e) then (u', e) else again

-- The states of an image in the boot selection.
pub data ImageState : Type 0 where
  new pending_verify valid invalid aborted undefined : ImageState

abbrev pub is_bad : Option ImageState → Bool
is_bad (some ImageState.aborted) = true
is_bad (some ImageState.invalid) = true
is_bad _ = false

-- What a boot finds: the address and the release that runs, and for an address the state of the slot
-- there (`none` where there is no slot, or no state of it).
pub record Booted : Type 0 where
  pub running : ℕ
  pub release : ℕ
  pub state_at : ℕ → Option ImageState

unfoldable pub reconcile_boot : Updater → Booted → Saved → Updater × Err
unfolding save_journal
reconcile_boot u b a =
    let j = u.journal in
    if (j.pending_release == 0)
      || ((b.running == j.pending_address) && (b.release == j.pending_release))
    then (u, Err.ok)
    else save_journal u
        (if is_bad (b.state_at j.pending_address) then reject j j.pending_hash else clear_pending j)
        a

-- The end of `fetch_manifest`: the floor and the suppressed hashes, looked at again.
unfoldable pub recheck : Updater → ℕ → List ℕ → Err
recheck u release hash =
    if leb release u.journal.floor || rejected u.journal hash then Err.invalid_state else Err.ok

-- What `esp_ota_get_state_partition` says of the running slot.
pub data SlotState : Type 0 where
  state : ImageState → SlotState
  not_found failed : SlotState

-- For `confirm_bootloader_health`: the running slot (`none` where it is unknown), whether it is an OTA
-- slot, its state, and what the two calls that change the boot selection give.
pub record Health : Type 0 where
  pub running : Option ℕ
  pub ota_slot : Bool
  pub slot : SlotState
  pub selected : Err
  pub marked : Err

abbrev confirm_state : ImageState → Err → Err
confirm_state ImageState.new marked = marked
confirm_state ImageState.pending_verify marked = marked
confirm_state ImageState.valid marked = Err.ok
confirm_state ImageState.undefined marked = Err.ok
confirm_state _ marked = Err.invalid_state

unfoldable pub confirm_bootloader_health : Updater → Health → Bool → Updater × Err
confirm_bootloader_health u h bootstrap = elim h.running [
  | none ↦ (u, Err.invalid_state)
  | some running ↦ elim h.slot [
    | SlotState.state s ↦ (u, confirm_state s h.marked)
    | SlotState.failed ↦ if h.ota_slot then (u, Err.other) else (u, Err.ok)
    | SlotState.not_found ↦
        let (u', e) = select u running h.selected in
        if not h.ota_slot
        then (u, Err.ok)
        else if not bootstrap || not (u.durable.boot == running)
        then (u, Err.invalid_state)
        else if is_ok e
        then (u', h.marked)
        else (u', e)
  ]
]

-- `rw_ota_confirm_healthy` after the init.
unfoldable pub confirm_healthy : Updater → Health → ℕ → Saved → Updater × Err
unfolding confirm_bootloader_health save_journal
confirm_healthy u h release a =
    let (u₁, e₁) = confirm_bootloader_health u h (u.journal.pending_release == 0) in
    let (u₂, e₂) = save_journal u₁ (confirm u₁.journal release) a in
    if u.healthy
    then (u, Err.ok)
    else if not (is_ok e₁)
    then (u₁, e₁)
    else if is_ok e₂
    then (record u₂ { healthy = true }, e₂)
    else (u₂, e₂)

-- `rw_ota_reject_unhealthy` after the init, in an image that is still on trial: what it stores before
-- it asks for the rollback, which follows whatever the save gives.
unfoldable pub reject_unhealthy : Updater → Saved → Updater
unfolding save_journal
reject_unhealthy u a =
    let j = u.journal in
    (save_journal u (if j.pending_release == 0 then j else reject j j.pending_hash) a).0
