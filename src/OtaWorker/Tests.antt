-- ===== src/OtaWorker/Tests.antt =====
-- An installation that a rollback follows, and a redirect.
use remote_wake.Base.{
  ℕ, ◌≡◌, ◌≤◌, refl, true, false, List, [], ◌∷◌, some, none, ◌==◌, if◌then◌else◌, All, codes,
  length, replicate, arith,
}
use remote_wake.OtaJournal.{Journal, prepare}
use remote_wake.OtaJournal.Rejected.{IsRing}
use remote_wake.PowerBtn.{Err, is_ok, resume_actions}
use remote_wake.PowerBtn.Maintenance.{hid_resume_actions}
use remote_wake.OtaWorker.{
  Updater, Saved, Candidate, Round, ImageState, Booted, restart_candidate, reconcile_boot, recheck,
}
use remote_wake.OtaWorker.Boot.{IsPending, rolled_back_refused}
use remote_wake.OtaWorker.Commit.{IsOutcome}
use remote_wake.OtaWorker.Install.{restart_candidate-IsOutcome}
use remote_wake.OtaWorker.Offers.{Answer, IsTrustedUrl, follow, follow-trusted}

abbrev new_journal : Journal
new_journal = record {
  format = 1;
  scope = [];
  floor = 7;
  pending_release = 0;
  pending_address = 0;
  pending_hash = replicate 32 0;
  failed = replicate 4 [];
  failed_count = 0;
  failed_next = 0;
}

abbrev pub updater : Updater
updater = record {
  durable = record { journal = new_journal; boot = 65536 };
  journal = new_journal;
  healthy = true;
  button = record { created = true; taken = false; busy = false; quiesced = false; pin = false };
  hid = record { installed = true; locked = false; stopped = false };
  history = [];
}

abbrev candidate : Candidate
candidate = record { release = 8; hash = replicate 32 9; address = 131072 }

abbrev pub saves : Saved
saves = record { set = Err.ok; commit = Err.ok; reached = true }

-- The application is busy at first.
abbrev pub rounds : List Round
rounds =
    record { released = Err.ok; prepared = Err.invalid_state; saved = saves; selected = Err.ok }
    ∷ record { released = Err.ok; prepared = Err.ok; saved = saves; selected = Err.ok }
    ∷ []

-- The second round restarts into the candidate.
restarts_second : (restart_candidate rounds updater candidate).1 ≡ Err.ok
unfolding restart_candidate resume_actions hid_resume_actions
restarts_second = refl

restart_candidate-IsOutcome_example :
    IsOutcome candidate updater
      (restart_candidate rounds updater candidate).0
      (restart_candidate rounds updater candidate).1
restart_candidate-IsOutcome_example =
    restart_candidate-IsOutcome rounds updater candidate (λ e. ground arith) tt

abbrev installed : Updater
installed = record updater { journal = prepare new_journal 8 131072 (replicate 32 9) }

installed-IsPending : IsPending installed.journal candidate
unfolding prepare
installed-IsPending = record {
  release = refl;
  address = refl;
  hash = refl;
  real = λ e. ground arith;
}

installed-IsRing : IsRing installed.journal
unfolding prepare
installed-IsRing = record {
  places = refl;
  count_fits = omega arith;
  next_fits = omega arith;
  filling = λ few. refl;
}

-- The old image runs, and the candidate's is marked.
abbrev rolled_back : Booted
rolled_back = record {
  running = 65536;
  release = 7;
  state_at = λ a. if a == 131072 then some ImageState.aborted else some ImageState.valid;
}

reconciles : is_ok (reconcile_boot installed rolled_back saves).1 ≡ true
unfolding reconcile_boot prepare
reconciles = refl

rolled_back_refused_example :
    recheck (reconcile_boot installed rolled_back saves).0 8 candidate.hash ≡ Err.invalid_state
rolled_back_refused_example =
    rolled_back_refused installed rolled_back saves candidate installed-IsRing installed-IsPending
      (λ e. ground arith) refl reconciles 8

abbrev manifest_url : List ℕ
manifest_url = codes "https://up.example/m.json"

abbrev hosts : List (List ℕ)
hosts = codes "cdn.example" ∷ []

abbrev answers : List Answer
answers =
    record {
      opened = true;
      size = some 0;
      status = 302;
      next = some (codes "https://cdn.example/m.json");
    }
    ∷ record { opened = true; size = some 900; status = 200; next = none }
    ∷ []

follow-trusted_example :
    All (IsTrustedUrl (some manifest_url) hosts) (follow (some manifest_url) hosts 0 answers).1
    × (length (follow (some manifest_url) hosts 0 answers).1 ≤ 3)
follow-trusted_example = follow-trusted (some manifest_url) hosts answers
