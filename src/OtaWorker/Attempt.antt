-- ===== src/OtaWorker/Attempt.antt =====
-- One attempt of the update worker, firmware/main/ota.c: `fetch_manifest`, and what `worker` does with the
-- manifest until the restart. The HTTP client and the clock are arguments.
use remote_wake.Base.{
  ℕ, ◌-◌, Bool, not, ◌&&◌, ◌||◌, List, [], ◌∷◌, ◌++◌, Option, some, none, ltb, leb, ◌==◌,
  if◌then◌else◌, length, take,
}
use remote_wake.Base.Int.{ℤ}
use remote_wake.Base.Results.{Result, ok, err, ◌>>=◌, ◌>>◌, require, or_err}
use remote_wake.Json.{Json}
use remote_wake.Auth.Ops.{Env}
use remote_wake.Auth.Verify.{D}
use remote_wake.OtaManifest.Verify.{Config, Setting, Manifest, Esp, manifest_verify}
use remote_wake.OtaJournal.{reject}
use remote_wake.PowerBtn.{Err, is_ok}
use remote_wake.OtaWorker.{
  Updater, Saved, Candidate, Round, save_journal, restart_candidate, recheck,
}
use remote_wake.OtaWorker.Image.{Fault, Layout, App, validate_identity}
use remote_wake.OtaWorker.Download.{Slot, Answers, Outcome, download_image}

abbrev pub of_esp : {A : Type 0} → Result Esp A → Result Fault A
of_esp (ok a) = ok a
of_esp (err Esp.invalid_arg) = err Fault.invalid_arg
of_esp (err Esp.invalid_state) = err Fault.invalid_state
of_esp (err Esp.invalid_crc) = err Fault.invalid_crc
of_esp (err Esp.not_supported) = err Fault.not_supported
of_esp (err Esp.no_mem) = err Fault.no_mem

abbrev pub of_err : Err → Result Fault (Unit {0})
of_err Err.ok = ok tt
of_err Err.invalid_state = err Fault.invalid_state
of_err Err.invalid_arg = err Fault.invalid_arg
of_err Err.no_mem = err Fault.no_mem
of_err Err.not_supported = err Fault.not_supported
of_err Err.timeout = err Fault.timeout
of_err Err.other = err Fault.other

-- What the calls of `fetch_manifest` give: the length of the body (`none` where it is not opened), the
-- buffer, the reads before the deadline (`none` where one fails), whether the client has all of the
-- body, the sizes of the flash and of the PSRAM, and the clock.
pub record Request : Type 0 where
  pub opened : Option ℕ
  pub allocated : Bool
  pub reads : List (Option (List ℕ))
  pub complete : Bool
  pub flash : Result Fault ℕ
  pub psram : ℕ
  pub clock_valid : Bool
  pub now : ℤ

abbrev next_read : List ℕ → List ℕ → List ℕ
next_read got bytes = take (6144 - length got) bytes

-- The loop over the reads, of which no more than was asked for counts; `none` is a read that fails.
unfoldable pub read_body : List ℕ → List (Option (List ℕ)) → Option (List ℕ)
read_body got [] = some got
read_body got (none ∷ rest) = if leb 6144 (length got) then some got else none
read_body got (some bytes ∷ rest) =
    let on = read_body (got ++ next_read got bytes) rest in
    if leb 6144 (length got) || (length (next_read got bytes) == 0) then some got else on

abbrev pub setting_of : Request → ℕ → Setting
setting_of r flash = record {
  clock_valid = r.clock_valid;
  now = r.now;
  flash_size = flash;
  psram_size = r.psram;
  release_floor = 0;
}

module _ (E : Env) (parse_opts : List ℕ → Option (Json (D E) × ℕ)) (config : Config) where
  unfoldable pub fetch_manifest : Updater → Request → Result Fault Manifest
  unfolding read_body
  fetch_manifest u r = do
    size ← or_err r.opened Fault.fail
    require (not (ltb 6144 size)) Fault.invalid_size
    require r.allocated Fault.no_mem
    body ← or_err (read_body [] r.reads) Fault.fail
    require (r.complete && not (length body == 0) && not (ltb 0 size && not (length body == size)))
        Fault.invalid_size
    flash ← r.flash
    m ← of_esp (manifest_verify E parse_opts (some config) body (setting_of r flash))
    require (is_ok (recheck u m.identity.release m.sha256)) Fault.invalid_state
    ok m

-- What a slot gives once its bytes are written: the layout of its image, its bytes and the description of
-- its application; and whether the buffer of the checks can be had.
pub record Storage : Type 0 where
  pub layout : Layout
  pub read : List ℕ → ℕ → ℕ → Result Fault (List ℕ)
  pub description : List ℕ → Result Fault App
  pub allocated : Bool

-- The checks of `validate_identity` on a slot with these bytes.
abbrev pub storage_checks : Storage → Manifest → List ℕ → Result Fault (Unit {0})
storage_checks storage m bytes =
    validate_identity storage.layout m (storage.read bytes) storage.allocated
      (storage.description bytes)

-- The download of the manifest's image, with the checks of the slot that it is written to.
abbrev pub downloads : (List ℕ → List ℕ) → Storage → Answers → Manifest → Outcome
downloads sha256 storage a m =
    download_image storage.layout.header_size sha256 m (storage_checks storage m) a

abbrev pub candidate_of : Manifest → Slot → Candidate
candidate_of m slot = record {
  release = m.identity.release;
  hash = m.sha256;
  address = slot.address;
}

-- From the end of the download on, with the updater and the result of saving a rejection.
unfoldable pub install :
    Manifest → Result Fault Slot → Updater → Err → List Round → Updater × Result Fault (Unit {0})
install m (err e) u saved rounds = (u, if is_ok saved then err e else of_err saved)
install m (ok slot) u saved rounds =
    let (v, e) = restart_candidate rounds u (candidate_of m slot) in
    if is_ok saved then (v, of_err e) else (u, of_err saved)

-- From the manifest on; `automatic` is the policy `RW_OTA_AUTO`.
unfoldable pub attempt :
    Updater
    → Result Fault Manifest
    → Bool
    → (Manifest → Outcome)
    → Saved
    → List Round
    → Updater × Result Fault (Unit {0})
unfolding install
attempt u (err e) automatic download a rounds = (u, err e)
attempt u (ok m) automatic download a rounds =
    let o = download m in
    let (u', saved) =
      if o.rejected then save_journal u (reject u.journal m.sha256) a else (u, Err.ok) in
    if automatic then install m o.result u' saved rounds else (u, ok tt)
