-- ===== src/OtaWorker/Selected.antt =====
-- Which slot an attempt selects, firmware/main/ota.c, `worker`.
use remote_wake.Base.{
  ◌≡◌, ◌≢◌, inl, inr, refl, sym, subst, ◌∙◌, Bool, List, [], if◌then◌else◌, All, Bool-cases,
  if-holds,
}
use remote_wake.Base.Results.{Result, ok, err}
use remote_wake.OtaManifest.Verify.{Manifest}
use remote_wake.OtaJournal.{Journal, reject}
use remote_wake.PowerBtn.{Err, is_ok}
use remote_wake.OtaWorker.{Updater, Saved, Round, save_journal, restart_candidate}
use remote_wake.OtaWorker.Commit.{Waits, IsRecorded, save_journal-SavedAs}
use remote_wake.OtaWorker.Install.{restart_candidate-IsOutcome}
use remote_wake.OtaWorker.Image.{Fault}
use remote_wake.OtaWorker.Download.{Slot, Outcome}
use remote_wake.OtaWorker.Attempt.{candidate_of, install, attempt}

-- The attempt went on to a slot, which is now selected.
unfoldable pub Selects : Updater → Result Fault Slot → Updater → Type 0
Selects u r v =
    v.durable.boot ≢ u.durable.boot
    → (slot : Slot) × (r ≡ ok slot) × (v.durable.boot ≡ slot.address)

restart-Selects :
    (u before : Updater) (m : Manifest) (slot : Slot) (rounds : List Round)
    → before.durable.boot ≡ u.durable.boot
    → Waits (candidate_of m slot) before
    → Selects u (ok slot) (restart_candidate rounds before (candidate_of m slot)).0
unfolding Selects
restart-Selects u before m slot rounds same w moved =
    let r = restart_candidate rounds before (candidate_of m slot) in
    let o = restart_candidate-IsOutcome rounds before (candidate_of m slot) w.elsewhere w.past in
    elim (Bool-cases (is_ok r.1)) [
      | inl good ↦ (slot, refl, o.selected good)
      | inr bad ↦ absurd (moved (o.kept bad ∙ same))
    ]

install-Selects :
    (u before : Updater) (m : Manifest) (r : Result Fault Slot) (saved : Err) (rounds : List Round)
    → before.durable.boot ≡ u.durable.boot
    → ((slot : Slot) → r ≡ ok slot → Waits (candidate_of m slot) before)
    → Selects u r (install m r before saved rounds).0
unfolding install Selects
install-Selects u before m (err e) saved rounds same w = λ moved. absurd (moved same)
install-Selects u before m (ok slot) saved rounds same w =
    let Q = λ (p : Updater × Result Fault (Unit {0})).
      p.0.durable.boot ≢ u.durable.boot
      → (slot' : Slot) × (◌≡◌ {A = Result Fault Slot} (ok slot) (ok slot'))
        × (p.0.durable.boot ≡ slot'.address) in
    if-holds Q (is_ok saved) _ _ (λ good. restart-Selects u before m slot rounds same (w slot refl))
      (λ bad moved. absurd (moved same))

save_journal-boot :
    (u : Updater) (j : Journal) (a : Saved) → (save_journal u j a).0.durable.boot ≡ u.durable.boot
unfolding save_journal
save_journal-boot u j a =
    if-holds (λ (p : Updater × Err). p.0.durable.boot ≡ u.durable.boot)
      (is_ok (if is_ok a.set then a.commit else a.set)) _ _ (λ good. refl)
      (λ bad.
        if-holds (λ (v : Updater). v.durable.boot ≡ u.durable.boot) a.reached _ _ (λ reached. refl)
          (λ lost. refl))

pub attempt-Selects :
    (u : Updater) (m : Manifest) (automatic : Bool) (download : Manifest → Outcome) (a : Saved)
    (rounds : List Round)
    → u.history ≡ []
    → ((slot : Slot) → (download m).result ≡ ok slot → u.durable.boot ≢ slot.address)
    → Selects u (download m).result (attempt u (ok m) automatic download a rounds).0
unfolding attempt Selects
attempt-Selects u m automatic download a rounds new elsewhere =
    let r = (download m).result in
    let j = reject u.journal m.sha256 in
    let waits : (slot : Slot) → r ≡ ok slot → Waits (candidate_of m slot) u = λ slot e. record {
      elsewhere = elsewhere slot e;
      past = subst (All (IsRecorded (candidate_of m slot))) (sym new) tt;
    } in
    if-holds (λ (p : Updater × Result Fault (Unit {0})). Selects u r p.0) automatic _ _
      (λ auto.
        if-holds (λ (q : Updater × Err). Selects u r (install m r q.0 q.1 rounds).0)
          (download m).rejected (save_journal u j a) (u, Err.ok)
          (λ condemned.
            install-Selects u (save_journal u j a).0 m r (save_journal u j a).1 rounds
              (save_journal-boot u j a)
              (λ slot e. (save_journal-SavedAs (candidate_of m slot) u j a (waits slot e)).waits))
          (λ fine. install-Selects u u m r Err.ok rounds refl waits))
      (λ manual moved. absurd (moved refl))
