-- ===== src/OtaWorker/Install.antt =====
-- What a power cut can leave while `restart_candidate` of firmware/main/ota.c runs, and what it leaves
-- where it returns.
use remote_wake.Base.{
  ◌≡◌, ◌≢◌, inl, inr, refl, ◌∙◌, Bool, true, false, not, ◌||◌, List, [], ◌∷◌, if◌then◌else◌, All,
  Bool-cases, if-holds, arith,
}
use remote_wake.PowerBtn.{Err, is_ok, Button, quiesce, resume_actions}
use remote_wake.PowerBtn.Maintenance.{Hid, hid_quiesce, hid_resume_actions}
use remote_wake.OtaWorker.{
  Updater, cancel_reservations, Candidate, Round, round, try_later, restart_candidate,
}
use remote_wake.OtaWorker.Commit.{IsRecorded, Waits, IsOutcome, OutcomePair, commit-IsOutcome}

-- A round that does not return leaves the updater as it was, but for what was reserved by others.
record Back (c : Candidate) (before after : Updater) (e : Err) : Type 0 where
  waits : Waits c after
  boot : after.durable.boot ≡ before.durable.boot
  button : before.button.quiesced ≡ false → after.button.quiesced ≡ false
  keyboard : before.hid.stopped ≡ false → after.hid.stopped ≡ false
  bad : is_ok e ≡ false

abbrev RoundEnd : Candidate → Updater → Updater × Err × Bool → Type 0
RoundEnd c before (u, e, returns) =
    (returns ≡ false → Back c before u e) × (returns ≡ true → IsOutcome c before u e)

went-Back :
    {c : Candidate} {before u : Updater} {e : Err}
    → Back c before u e
    → RoundEnd c before (u, e, false)
went-Back b = (λ on. b, λ over. absurd (ground arith))

quiesce-failed :
    (b : Button) → is_ok (quiesce b).1 ≡ false → b.quiesced ≡ false → (quiesce b).0.quiesced ≡ false
unfolding quiesce
quiesce-failed b bad free = ground arith

hid_quiesce-failed :
    (h : Hid) (released : Err)
    → is_ok (hid_quiesce h released).1 ≡ false
    → h.stopped ≡ false
    → (hid_quiesce h released).0.stopped ≡ false
unfolding hid_quiesce
hid_quiesce-failed h released bad free = ground arith

-- What is reserved does not touch what is durable.
reserved-Waits :
    (c : Candidate) (u : Updater) (b : Button) (h : Hid)
    → Waits c u
    → Waits c (record u { button = b; hid = h })
reserved-Waits c u b h w = record { elsewhere = w.elsewhere; past = w.past }

round-RoundEnd : (c : Candidate) (u : Updater) (r : Round) → Waits c u → RoundEnd c u (round u c r)
unfolding round cancel_reservations resume_actions hid_resume_actions
round-RoundEnd c u r w =
    let (b, e₁) = quiesce u.button in
    let (h, e₂) = hid_quiesce u.hid r.released in
    let reserved = record u { button = b; hid = h } in
    let held = reserved-Waits c u b h w in
    if-holds (RoundEnd c u) (not (is_ok e₁)) _ _
      (λ busy. went-Back (record {
        waits = record { elsewhere = w.elsewhere; past = w.past };
        boot = refl;
        button = quiesce-failed u.button (ground arith);
        keyboard = λ f. f;
        bad = ground arith;
      }))
      (λ got.
        if-holds (RoundEnd c u) (not (is_ok e₂)) _ _
          (λ busy. went-Back (record {
            waits = record { elsewhere = w.elsewhere; past = w.past };
            boot = refl;
            button = λ f. refl;
            keyboard = hid_quiesce-failed u.hid r.released (ground arith);
            bad = ground arith;
          }))
          (λ both.
            if-holds (RoundEnd c u) (not (is_ok r.prepared)) _ _
              (λ unready. went-Back (record {
                waits = record { elsewhere = w.elsewhere; past = w.past };
                boot = refl;
                button = λ f. refl;
                keyboard = λ f. refl;
                bad = ground arith;
              }))
              (λ ready.
                (λ on. absurd (ground arith), λ over. commit-IsOutcome c u reserved r held refl))))

-- What a round that does not return leaves, as the end.
ends-Back :
    (c : Candidate) (before u : Updater) (e : Err) → Back c before u e → IsOutcome c before u e
ends-Back c before u e b = record {
  cuts = b.waits.past;
  kept = λ bad. b.boot;
  button_free = λ bad f. b.button f;
  keyboard_free = λ bad f. b.keyboard f;
  selected = λ good. absurd (let bad = b.bad in ground arith);
  recorded = λ good. absurd (let bad = b.bad in ground arith);
}

after-Back :
    (c : Candidate) (before u : Updater) (e : Err) (end : Updater × Err)
    → Back c before u e
    → OutcomePair c u end
    → OutcomePair c before end
after-Back c before u e (v, e') b o = record {
  cuts = o.cuts;
  kept = λ bad. o.kept bad ∙ b.boot;
  button_free = λ bad f. o.button_free bad (b.button f);
  keyboard_free = λ bad f. o.keyboard_free bad (b.keyboard f);
  selected = o.selected;
  recorded = o.recorded;
}

step-OutcomePair :
    (c : Candidate) (u v : Updater) (e : Err) (returns : Bool) (again : Updater × Err)
    → RoundEnd c u (v, e, returns)
    → (Waits c v → OutcomePair c v again)
    → OutcomePair c u (if returns || not (try_later e) then (v, e) else again)
step-OutcomePair c u v e returns again (on, over) later =
    if-holds (OutcomePair c u) (returns || not (try_later e)) (v, e) again
      (λ stop. elim (Bool-cases returns) [
        | inl last ↦ over last
        | inr more ↦ ends-Back c u v e (on more)
      ])
      (λ go. let back = on (ground arith) in after-Back c u v e again back (later back.waits))

install-OutcomePair :
    (rs : List Round) (u : Updater) (c : Candidate)
    → Waits c u
    → OutcomePair c u (restart_candidate rs u c)
unfolding restart_candidate
install-OutcomePair [] u c w = record {
  cuts = w.past;
  kept = λ bad. refl;
  button_free = λ bad f. f;
  keyboard_free = λ bad f. f;
  selected = λ good. absurd (ground arith);
  recorded = λ good. absurd (ground arith);
}
install-OutcomePair (r ∷ rs) u c w =
    step-OutcomePair c u (round u c r).0 (round u c r).1 (round u c r).2
      (restart_candidate rs (round u c r).0 c) (round-RoundEnd c u r w)
      (λ back. install-OutcomePair rs (round u c r).0 c back)

-- An update is never selected before it is recorded: whatever the calls answer, every state that a
-- power cut can leave while the candidate is installed either has another boot partition, or the
-- journal has the candidate's release, address and hash as pending. Where the function returns, the
-- boot partition is the old one, and the button and the keyboard are free if they were; where it
-- restarts, the candidate is selected and recorded. The candidate's partition is not the one selected
-- before.
pub restart_candidate-IsOutcome :
    (rs : List Round) (u : Updater) (c : Candidate)
    → u.durable.boot ≢ c.address
    → All (IsRecorded c) u.history
    → IsOutcome c u (restart_candidate rs u c).0 (restart_candidate rs u c).1
restart_candidate-IsOutcome rs u c elsewhere past =
    install-OutcomePair rs u c (record { elsewhere = elsewhere; past = past })
