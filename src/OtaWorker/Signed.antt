-- ===== src/OtaWorker/Signed.antt =====
-- What an attempt that changes the boot partition has been through, firmware/main/ota.c, `worker`.
use remote_wake.Base.{
  ℕ, ◌≤◌, ◌<◌, ◌≡◌, ◌≢◌, refl, sym, subst, ◌∙◌, Bool, true, false, not, ◌&&◌, List, [], Option,
  some, ltb, ◌==◌, length, arith,
}
use remote_wake.Base.Results.{
  Result, ok, err, require, or_err, >>=-eq_ok, require-eq_ok, or_err-eq_ok,
}
use remote_wake.Json.{Json}
use remote_wake.Auth.Ops.{Env}
use remote_wake.Auth.Verify.{D}
use remote_wake.OtaManifest.Verify.{Config, Manifest, Esp, manifest_verify}
use remote_wake.OtaManifest.Trusted.{IsTrusted, manifest_verify-ok}
use remote_wake.OtaJournal.{rejected}
use remote_wake.PowerBtn.{is_ok}
use remote_wake.OtaWorker.{Updater, Saved, Round, recheck}
use remote_wake.OtaWorker.Selected.{Selects, attempt-Selects}
use remote_wake.OtaWorker.Image.{Fault}
use remote_wake.OtaWorker.Scanned.{Reads}
use remote_wake.OtaWorker.Carried.{IsCarried, validate_identity-IsCarried}
use remote_wake.OtaWorker.Download.{Slot, Answers}
use remote_wake.OtaWorker.Downloaded.{IsInstalled, download_image-IsInstalled}
use remote_wake.OtaWorker.Attempt.{
  of_esp, Storage, storage_checks, downloads, Request, read_body, setting_of, fetch_manifest,
  attempt,
}

of_esp-ok : {A : Type 0} (r : Result Esp A) {a : A} → of_esp r ≡ ok a → r ≡ ok a
of_esp-ok (ok b) h = ground arith
of_esp-ok (err Esp.invalid_arg) h = absurd (ground arith)
of_esp-ok (err Esp.invalid_state) h = absurd (ground arith)
of_esp-ok (err Esp.invalid_crc) h = absurd (ground arith)
of_esp-ok (err Esp.not_supported) h = absurd (ground arith)
of_esp-ok (err Esp.no_mem) h = absurd (ground arith)

same_ok : {E A : Type 0} {a b : A} → ◌≡◌ {A = Result E A} (ok a) (ok b) → a ≡ b
same_ok h = ground arith

not_running : (a b : ℕ) → (a == b) ≡ false → a ≢ b
not_running a b h e = ground arith

recheck-ok :
    (u : Updater) (release : ℕ) (hash : List ℕ)
    → is_ok (recheck u release hash) ≡ true
    → (u.journal.floor < release) × (rejected u.journal hash ≡ false)
unfolding recheck
recheck-ok u release hash h = ground arith

module _ (E : Env) (parse_opts : List ℕ → Option (Json (D E) × ℕ)) (config : Config) where
  -- What a manifest that is fetched has been through.
  pub record IsFetched (u : Updater) (r : Request) (m : Manifest) : Type 0 where
    pub body : List ℕ
    pub flash : ℕ
    pub read : read_body [] r.reads ≡ some body
    pub trusted : IsTrusted E parse_opts config body (setting_of r flash) m
    pub newer : u.journal.floor < m.identity.release
    pub not_failed : rejected u.journal m.sha256 ≡ false

  fetch_manifest-IsFetched :
      (u : Updater) (r : Request) (m : Manifest)
      → fetch_manifest E parse_opts config u r ≡ ok m
      → IsFetched u r m
  unfolding fetch_manifest
  fetch_manifest-IsFetched u r m h =
      let (size, opened, h₁) = >>=-eq_ok (or_err r.opened Fault.fail) _ h in
      let (_, bounded, h₂) = >>=-eq_ok (require (not (ltb 6144 size)) Fault.invalid_size) _ h₁ in
      let (_, buffer, h₃) = >>=-eq_ok (require r.allocated Fault.no_mem) _ h₂ in
      let (body, read, h₄) = >>=-eq_ok (or_err (read_body [] r.reads) Fault.fail) _ h₃ in
      let (_, whole, h₅) =
        >>=-eq_ok
          (require
            (r.complete && not (length body == 0) && not (ltb 0 size && not (length body == size)))
            Fault.invalid_size)
          _ h₄ in
      let (flash, sized, h₆) = >>=-eq_ok r.flash _ h₅ in
      let (n, verified, h₇) =
        >>=-eq_ok (of_esp (manifest_verify E parse_opts (some config) body (setting_of r flash))) _
          h₆ in
      let (_, again, h₈) =
        >>=-eq_ok (require (is_ok (recheck u n.identity.release n.sha256)) Fault.invalid_state) _
          h₇ in
      let (newer, not_failed) =
        recheck-ok u n.identity.release n.sha256 (require-eq_ok _ Fault.invalid_state again) in
      subst (IsFetched u r) (same_ok h₈) (record {
        body = body;
        flash = flash;
        read = or_err-eq_ok (read_body [] r.reads) Fault.fail read;
        trusted =
            manifest_verify-ok E parse_opts config body (setting_of r flash) n
              (of_esp-ok _ verified);
        newer = newer;
        not_failed = not_failed;
      })

  module _ (sha256 : List ℕ → List ℕ) (storage : Storage)
      (reads : (bytes : List ℕ) → Reads (storage.read bytes) bytes) where
    -- What stands behind a new boot partition.
    pub record IsSigned (u : Updater) (r : Request) (a : Answers) (v : Updater) : Type 0 where
      pub manifest : Manifest
      pub slot : Slot
      pub bytes : List ℕ
      pub fetched : IsFetched u r manifest
      pub installed :
          IsInstalled storage.layout.header_size sha256 manifest
            (storage_checks storage manifest)
            a
            slot
            bytes
      pub fits : manifest.size ≤ length bytes
      pub carried : IsCarried storage.layout manifest (storage.read bytes) bytes (reads bytes) fits
      pub selected : v.durable.boot ≡ slot.address

    signs :
        (u : Updater) (r : Request) (a : Answers) (v : Updater) (m : Manifest) (slot : Slot)
        (bytes : List ℕ)
        → IsFetched u r m
        → IsInstalled storage.layout.header_size sha256 m (storage_checks storage m) a slot bytes
        → v.durable.boot ≡ slot.address
        → IsSigned u r a v
    signs u r a v m slot bytes fetched installed selected =
        let fits : m.size ≤ length bytes = omega (arith, installed.sized) in
        record {
          manifest = m;
          slot = slot;
          bytes = bytes;
          fetched = fetched;
          installed = installed;
          fits = fits;
          carried =
              validate_identity-IsCarried storage.layout m (storage.read bytes) bytes (reads bytes)
                fits storage.allocated (storage.description bytes) installed.valid;
          selected = selected;
        }

    IsSigned-attempt :
        (u : Updater) (r : Request) (a : Answers) (automatic : Bool) (s : Saved)
        (rounds : List Round) (fetched : Result Fault Manifest)
        → fetch_manifest E parse_opts config u r ≡ fetched
        → u.history ≡ []
        → u.durable.boot ≡ a.running
        → let v = (attempt u fetched automatic (downloads sha256 storage a) s rounds).0 in
          v.durable.boot ≢ u.durable.boot → IsSigned u r a v
    unfolding attempt Selects
    IsSigned-attempt u r a automatic s rounds (err e) f new running moved = absurd (moved refl)
    IsSigned-attempt u r a automatic s rounds (ok m) f new running moved =
        let made = λ (slot : Slot) (e : (downloads sha256 storage a m).result ≡ ok slot).
          download_image-IsInstalled storage.layout.header_size sha256 m (storage_checks storage m)
            a slot e in
        let (slot, there, selected) =
          attempt-Selects u m automatic (downloads sha256 storage a) s rounds new
            (λ slot e same.
              not_running slot.address a.running (made slot e).other (sym same ∙ running))
            moved in
        signs u r a (attempt u (ok m) automatic (downloads sha256 storage a) s rounds).0 m slot
          (downloads sha256 storage a m).stream.written (fetch_manifest-IsFetched u r m f)
          (made slot there) selected

    -- Only a signed image is ever booted: where an attempt of the worker, on an updater that runs from the
    -- selected partition, changes what is booted, the manifest that it read is trusted, newer than the
    -- floor and not of an image that failed, and what is booted is the slot in which just the image of
    -- that manifest is installed, with the signed size and hash, and with one identity record, which is
    -- the manifest's. It is assumed that a partition reads as it was written.
    pub attempt-IsSigned :
        (u : Updater) (r : Request) (a : Answers) (automatic : Bool) (s : Saved)
        (rounds : List Round)
        → u.history ≡ []
        → u.durable.boot ≡ a.running
        → let v =
            (attempt u
              (fetch_manifest E parse_opts config u r)
              automatic
              (downloads sha256 storage a)
              s
              rounds).0 in
          v.durable.boot ≢ u.durable.boot → IsSigned u r a v
    attempt-IsSigned u r a automatic s rounds =
        IsSigned-attempt u r a automatic s rounds (fetch_manifest E parse_opts config u r) refl
