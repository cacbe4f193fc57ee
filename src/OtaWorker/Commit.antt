-- ===== src/OtaWorker/Commit.antt =====
-- The commit of `restart_candidate` of firmware/main/ota.c: the journal and then the boot partition.
use remote_wake.Base.{
  ◌≡◌, ◌≢◌, inl, inr, refl, ◌∙◌, ap, true, false, not, if◌then◌else◌, All, All-snoc, Bool-cases,
  if-holds, arith,
}
use remote_wake.OtaJournal.{Journal, prepare}
use remote_wake.PowerBtn.{Err, is_ok, resume_actions}
use remote_wake.PowerBtn.Maintenance.{hid_resume_actions}
use remote_wake.OtaWorker.{
  Durable, Updater, store, Saved, save_journal, select, cancel_reservations, Candidate, Round,
  commit,
}

-- Where the candidate is selected, the journal has it as pending.
pub record IsRecorded (c : Candidate) (d : Durable) : Type 0 where
  pub release : d.boot ≡ c.address → d.journal.pending_release ≡ c.release
  pub address : d.boot ≡ c.address → d.journal.pending_address ≡ c.address
  pub hash : d.boot ≡ c.address → d.journal.pending_hash ≡ c.hash

-- Before the selection.
pub record Waits (c : Candidate) (u : Updater) : Type 0 where
  pub elsewhere : u.durable.boot ≢ c.address
  pub past : All (IsRecorded c) u.history

not_selected : (c : Candidate) (d : Durable) → d.boot ≢ c.address → IsRecorded c d
not_selected c d ne = record {
  release = λ e. absurd (ne e);
  address = λ e. absurd (ne e);
  hash = λ e. absurd (ne e);
}

store-Waits :
    (c : Candidate) (u : Updater) (j : Journal)
    → Waits c u
    → Waits c (store u (record u.durable { journal = j }))
store-Waits c u j w = record {
  elsewhere = w.elsewhere;
  past =
      All-snoc (IsRecorded c) u.history (record u.durable { journal = j }) w.past
        (not_selected c (record u.durable { journal = j }) w.elsewhere);
}

-- Still before the selection, with all else unchanged; and a success has stored the journal.
pub record SavedAs (c : Candidate) (j : Journal) (before after : Updater) (e : Err) : Type 0 where
  pub waits : Waits c after
  pub boot : after.durable.boot ≡ before.durable.boot
  pub stored : is_ok e ≡ true → after.durable.journal ≡ j

abbrev pub SavedPair : Candidate → Journal → Updater → Updater × Err → Type 0
SavedPair c j before (u, e) = SavedAs c j before u e

pub save_journal-SavedAs :
    (c : Candidate) (u : Updater) (j : Journal) (a : Saved)
    → Waits c u
    → SavedPair c j u (save_journal u j a)
unfolding save_journal
save_journal-SavedAs c u j a w =
    let e = if is_ok a.set then a.commit else a.set in
    let kept = store-Waits c u j w in
    if-holds (SavedPair c j u) (is_ok e) _ _
      (λ good. record {
        waits = record { elsewhere = kept.elsewhere; past = kept.past };
        boot = refl;
        stored = λ fine. refl;
      })
      (λ bad. record {
        waits = if-holds (Waits c) a.reached _ _ (λ reached. kept) (λ lost. w);
        boot =
            if-holds (λ (v : Updater). v.durable.boot ≡ u.durable.boot) a.reached _ _
              (λ reached. refl) (λ lost. refl);
        stored = λ good. absurd (ground arith);
      })

-- What the function leaves. Where it returns without a restart, the boot partition is the old one and
-- what it reserved is free again; a restart finds the candidate selected and recorded.
pub record IsOutcome (c : Candidate) (before after : Updater) (e : Err) : Type 0 where
  pub cuts : All (IsRecorded c) after.history
  pub kept : is_ok e ≡ false → after.durable.boot ≡ before.durable.boot
  pub button_free : is_ok e ≡ false → before.button.quiesced ≡ false → after.button.quiesced ≡ false
  pub keyboard_free : is_ok e ≡ false → before.hid.stopped ≡ false → after.hid.stopped ≡ false
  pub selected : is_ok e ≡ true → after.durable.boot ≡ c.address
  pub recorded : is_ok e ≡ true → IsRecorded c after.durable

abbrev pub OutcomePair : Candidate → Updater → Updater × Err → Type 0
OutcomePair c before (u, e) = IsOutcome c before u e

-- A failure after which everything is free.
cancelled :
    (c : Candidate) (before u : Updater) (e : Err)
    → is_ok e ≡ false
    → Waits c u
    → u.durable.boot ≡ before.durable.boot
    → IsOutcome c before (cancel_reservations u) e
unfolding cancel_reservations resume_actions hid_resume_actions
cancelled c before u e bad w same = record {
  cuts = w.past;
  kept = λ b. same;
  button_free = λ b f. refl;
  keyboard_free = λ b f. refl;
  selected = λ good. absurd (ground arith);
  recorded = λ good. absurd (ground arith);
}

-- The selection, with the journal stored.
chosen :
    (c : Candidate) (before u : Updater)
    → Waits c u
    → IsRecorded c (record u.durable { boot = c.address })
    → IsOutcome c before (store u (record u.durable { boot = c.address })) Err.ok
chosen c before u w there = record {
  cuts = All-snoc (IsRecorded c) u.history (record u.durable { boot = c.address }) w.past there;
  kept = λ bad. absurd (ground arith);
  button_free = λ bad. absurd (ground arith);
  keyboard_free = λ bad. absurd (ground arith);
  selected = λ good. refl;
  recorded = λ good. there;
}

pending-IsRecorded :
    (c : Candidate) (j : Journal) (d : Durable)
    → d.journal ≡ prepare j c.release c.address c.hash
    → IsRecorded c (record d { boot = c.address })
unfolding prepare
pending-IsRecorded c j d same = record {
  release = λ e. ap (λ k. k.pending_release) same;
  address = λ e. ap (λ k. k.pending_address) same;
  hash = λ e. ap (λ k. k.pending_hash) same;
}

-- The selection, and what follows its result.
picked :
    (c : Candidate) (before u : Updater) (e : Err)
    → Waits c u
    → u.durable.boot ≡ before.durable.boot
    → IsRecorded c (record u.durable { boot = c.address })
    → OutcomePair c before (
        if is_ok (select u c.address e).1
        then ((select u c.address e).0, Err.ok)
        else (cancel_reservations (select u c.address e).0, (select u c.address e).1))
picked c before u e w same there = elim (Bool-cases (is_ok e)) [
  | inl good ↦ rw (good, good) (chosen c before u w there)
  | inr bad ↦ rw (bad, bad) (cancelled c before u e bad w same)
]

pub commit-IsOutcome :
    (c : Candidate) (before u : Updater) (r : Round)
    → Waits c u
    → u.durable.boot ≡ before.durable.boot
    → OutcomePair c before (commit u c r)
unfolding commit
commit-IsOutcome c before u r w same =
    let j = prepare u.journal c.release c.address c.hash in
    let saved = save_journal-SavedAs c u j r.saved w in
    let (u₁, e₁) = save_journal u j r.saved in
    if-holds (OutcomePair c before) (not (is_ok e₁)) _ _
      (λ failed. cancelled c before u₁ e₁ (ground arith) saved.waits (saved.boot ∙ same))
      (λ stored.
        let there = pending-IsRecorded c u.journal u₁.durable (saved.stored (ground arith)) in
        picked c before u₁ r.selected saved.waits (saved.boot ∙ same) there)
