-- ===== src/OtaWorker/Boot.antt =====
-- The boot after an installation, firmware/main/ota.c, `reconcile_boot`.
use remote_wake.Base.{
  ℕ, ◌≡◌, ◌≢◌, refl, ◌∙◌, ap, sym, true, false, ◌&&◌, ◌||◌, List, leb, ◌==◌, if◌then◌else◌,
  if-holds, arith,
}
use remote_wake.OtaJournal.{Journal, rejected, reject, clear_pending}
use remote_wake.OtaJournal.Rejected.{IsRing, reject-rejected}
use remote_wake.PowerBtn.{Err, is_ok}
use remote_wake.OtaWorker.{
  Updater, Saved, save_journal, Candidate, is_bad, Booted, reconcile_boot, recheck,
}

-- A save that succeeds has changed the journal in memory too.
save_journal-memory :
    (u : Updater) (j : Journal) (a : Saved)
    → is_ok (save_journal u j a).1 ≡ true
    → (save_journal u j a).0.journal ≡ j
unfolding save_journal
save_journal-memory u j a =
    let e = if is_ok a.set then a.commit else a.set in
    if-holds (λ (p : Updater × Err). is_ok p.1 ≡ true → p.0.journal ≡ j) (is_ok e) _ _
      (λ good fine. refl) (λ bad fine. absurd (ground arith))

recheck-rejected :
    (u : Updater) (release : ℕ) (hash : List ℕ)
    → rejected u.journal hash ≡ true
    → recheck u release hash ≡ Err.invalid_state
unfolding recheck
recheck-rejected u release hash known = ground arith

-- The journal names a candidate that waits for its first boot.
pub record IsPending (j : Journal) (c : Candidate) : Type 0 where
  pub release : j.pending_release ≡ c.release
  pub address : j.pending_address ≡ c.address
  pub hash : j.pending_hash ≡ c.hash
  pub real : c.release ≢ 0

-- What a boot into another image does with the pending candidate.
reconciled :
    (u : Updater) (b : Booted) (a : Saved) (c : Candidate)
    → IsPending u.journal c
    → b.running ≢ c.address
    → reconcile_boot u b a
      ≡ save_journal u
          (if is_bad (b.state_at c.address)
            then reject u.journal c.hash
            else clear_pending u.journal)
          a
unfolding reconcile_boot
reconciled u b a c p ne =
    let address = p.address in
    let release = p.release in
    let real = p.real in
    let due : (u.journal.pending_release == 0)
          || ((b.running == u.journal.pending_address) && (b.release == u.journal.pending_release))
        ≡ false =
      ground arith in
    rw due (
      ap
        (λ n.
          save_journal u
            (if is_bad (b.state_at n)
              then reject u.journal u.journal.pending_hash
              else clear_pending u.journal)
            a)
        address
      ∙ ap
          (λ h.
            save_journal u
              (if is_bad (b.state_at c.address)
                then reject u.journal h
                else clear_pending u.journal)
              a)
          p.hash)

-- A candidate that was rolled back is not installed again: when another image runs, the journal has
-- the candidate as pending and its image is marked as aborted or invalid, then after a reconciliation
-- that succeeds every manifest with its hash is refused, whatever release it names.
pub rolled_back_refused :
    (u : Updater) (b : Booted) (a : Saved) (c : Candidate)
    → IsRing u.journal
    → IsPending u.journal c
    → b.running ≢ c.address
    → is_bad (b.state_at c.address) ≡ true
    → is_ok (reconcile_boot u b a).1 ≡ true
    → (release : ℕ) → recheck (reconcile_boot u b a).0 release c.hash ≡ Err.invalid_state
rolled_back_refused u b a c ring p ne bad good release =
    let chosen =
      ap (λ t. save_journal u (if t then reject u.journal c.hash else clear_pending u.journal) a)
        bad in
    let step = reconciled u b a c p ne ∙ chosen in
    let stored =
      save_journal-memory u (reject u.journal c.hash) a (ap (λ x. is_ok x.1) (sym step) ∙ good) in
    let known = ap (λ j. rejected j c.hash) stored ∙ reject-rejected u.journal c.hash ring in
    ap (λ x. recheck x.0 release c.hash) step
    ∙ recheck-rejected (save_journal u (reject u.journal c.hash) a).0 release c.hash known

-- An installation that a reset cut short is tried again: where the candidate's image is not marked as
-- bad, a reconciliation that succeeds forgets the candidate, and refuses no more than before.
pub cut_short_retried :
    (u : Updater) (b : Booted) (a : Saved) (c : Candidate)
    → IsPending u.journal c
    → b.running ≢ c.address
    → is_bad (b.state_at c.address) ≡ false
    → is_ok (reconcile_boot u b a).1 ≡ true
    → (release : ℕ) (hash : List ℕ)
    → ((reconcile_boot u b a).0.journal.pending_release ≡ 0)
      × (recheck (reconcile_boot u b a).0 release hash ≡ recheck u release hash)
unfolding recheck clear_pending rejected
cut_short_retried u b a c p ne fine good release hash =
    let chosen =
      ap (λ t. save_journal u (if t then reject u.journal c.hash else clear_pending u.journal) a)
        fine in
    let step = reconciled u b a c p ne ∙ chosen in
    let stored =
      ap (λ x. x.0.journal) step
      ∙ save_journal-memory u (clear_pending u.journal) a (ap (λ x. is_ok x.1) (sym step) ∙ good) in
    (
      ap (λ j. j.pending_release) stored,
      ap (λ j. if leb release j.floor || rejected j hash then Err.invalid_state else Err.ok) stored,
    )
