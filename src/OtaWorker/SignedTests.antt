-- ===== src/OtaWorker/SignedTests.antt =====
-- An attempt that fetches a signed manifest, installs its image and restarts into it.
use remote_wake.Base.{ℕ, ◌≡◌, ◌≢◌, refl, sym, ap, ◌∙◌, true, [], ◌∷◌, some, codes, arith}
use remote_wake.Base.Int.{pos}
use remote_wake.Base.Results.{Result, ok}
use remote_wake.B64Url.{
  encode, decode, strip_padding, dec_loop, dec_one, prepend, dec_end, push_digit,
}
use remote_wake.Auth.Tests.{env}
use remote_wake.OtaJournal.{rejected, prepare}
use remote_wake.PowerBtn.{resume_actions}
use remote_wake.PowerBtn.Maintenance.{hid_resume_actions}
use remote_wake.OtaManifest.Text.{identity_valid, tuple_equal, has, url_in_source}
use remote_wake.OtaManifest.Flat.{flat_object, text_field, number_field, decode_canonical}
use remote_wake.OtaManifest.Verify.{Manifest, manifest_verify}
use remote_wake.OtaManifest.Tests.{trusting, read_opts, release_eight}
use remote_wake.OtaWorker.{Updater, restart_candidate, save_journal, recheck}
use remote_wake.OtaWorker.Tests.{updater, saves, rounds}
use remote_wake.OtaWorker.Image.{validate_identity, Fault}
use remote_wake.OtaWorker.Download.{
  download_image, slot_for, check_stream, finish, transfer, open_body, receive, written_chunk,
}
use remote_wake.OtaWorker.ImageTests.{idf, app, read_of, read_of-Reads, sha256, answers}
use remote_wake.OtaWorker.Attempt.{
  Storage, downloads, Request, read_body, fetch_manifest, install, attempt,
}
use remote_wake.OtaWorker.Signed.{IsSigned, attempt-IsSigned}

abbrev request : Request
request = record {
  opened = some 2;
  allocated = true;
  reads = some (codes "{}") ∷ [];
  complete = true;
  flash = ok 8192;
  psram = 0;
  clock_valid = true;
  now = pos 1800000100;
}

fetches : fetch_manifest env read_opts trusting updater request ≡ ok release_eight
unfolding fetch_manifest read_body recheck rejected manifest_verify identity_valid flat_object has
    number_field text_field decode_canonical decode dec_loop strip_padding dec_one prepend dec_end
    push_digit encode tuple_equal url_in_source
fetches = refl

abbrev storage : Storage
storage = record { layout = idf; read = read_of; description = λ bytes. ok app; allocated = true }

abbrev after : Updater
after =
    (attempt updater (fetch_manifest env read_opts trusting updater request) true
      (downloads sha256 storage answers) saves rounds).0

selects :
    (attempt updater
      (ok release_eight)
      true
      (downloads sha256 storage answers)
      saves
      rounds).0.durable.boot
    ≡ 131072
unfolding attempt install download_image slot_for check_stream finish transfer open_body receive
    written_chunk validate_identity restart_candidate save_journal resume_actions hid_resume_actions
    prepare
selects = refl

moves : after.durable.boot ≢ updater.durable.boot
moves e =
    let there : after.durable.boot ≡ 131072 =
      ap
        (λ (f : Result Fault Manifest).
          (attempt updater f true (downloads sha256 storage answers) saves rounds).0.durable.boot)
        fetches
      ∙ selects in
    let never : ◌≡◌ {A = ℕ} 131072 65536 = sym there ∙ e in ground arith

attempt-IsSigned_example :
    IsSigned env read_opts trusting sha256 storage read_of-Reads updater request answers after
attempt-IsSigned_example =
    attempt-IsSigned env read_opts trusting sha256 storage read_of-Reads updater request answers
      true saves rounds refl refl moves
