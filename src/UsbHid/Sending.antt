-- ===== src/UsbHid/Sending.antt =====
-- What `send_report`, `release_all` and `press_release` of firmware/main/usb_hid.c leave behind.
use remote_wake.Base.{
  ℕ, ◌≡◌, ◌⊎◌, inl, inr, refl, ◌∙◌, ap, true, false, not, ◌&&◌, List, [], ◌∷◌, ◌++◌, some, none,
  leb, All-snoc, arith,
}
use remote_wake.UsbHid.State.{Err, is_ok, Slice, Handed, Hid, neutral, enter}
use remote_wake.UsbHid.Report.{
  Run, look, wait_ready, hand_over, settle, submit, claim_or_submit, send_report, release,
  report_deadline, release_all,
}
use remote_wake.UsbHid.Chains.{
  Always, if-Always, and_then-Always, look-keeps, wait_ready-keeps, wait_complete-keeps,
}
use remote_wake.UsbHid.Release.{
  IsGuarded, IsReleased, IsSafe, SameReports, SafeSince, SafeSince-IsKept, since_start,
}

-- The entry of the log.
abbrev pub entry : Hid → List ℕ → Handed
entry g report = record { report = report; clear = not g.need_release }

-- A report that presses something needs that no release is owed.
abbrev pub MayHand : Hid → List ℕ → Type 0
MayHand g report = (neutral report ≡ true) ⊎ (g.need_release ≡ false)

entry-IsGuarded : (g : Hid) (report : List ℕ) → MayHand g report → IsGuarded (entry g report)
entry-IsGuarded g report (inl plain) = inl plain
entry-IsGuarded g report (inr clear) = inr (ap not clear)

hand_over-IsSafe :
    (g : Hid) (report : List ℕ) → MayHand g report → IsSafe g → IsSafe (hand_over g report)
unfolding hand_over
hand_over-IsSafe g report may safe = record {
  completes = λ c. ground arith;
  claims = λ c. absurd (ground arith);
  clears = λ c. absurd (ground arith);
  guarded = All-snoc IsGuarded g.log (entry g report) safe.guarded (entry-IsGuarded g report may);
}

-- Once submitted: success means that the bus has completed this report.
record Submitted (g h : Hid) (e : Err) : Type 0 where
  since : SafeSince g h
  acked : is_ok e ≡ true → h.acked ≡ true

settle-Submitted :
    (g : Hid) (run : Run)
    → Always (λ h e. SafeSince g h × (is_ok e ≡ true → h.complete ≡ true)) run
    → Always (Submitted g) (settle run)
settle-Submitted g none p = tt
settle-Submitted g (some (h, rest, e)) (since, done) = record {
  since = record {
    safe = record {
      completes = since.safe.completes;
      claims = since.safe.claims;
      clears = since.safe.clears;
      guarded = since.safe.guarded;
    };
    same = record {
      debt = since.same.debt;
      report = since.same.report;
      handed = since.same.handed;
      known = since.same.known;
    };
  };
  acked = λ good. since.safe.completes (done good);
}

submit-Submitted :
    (deadline : ℕ) (g : Hid) (rest : List Slice)
    → IsSafe g
    → Always (Submitted g) (submit deadline g rest)
unfolding submit
submit-Submitted deadline g [] safe = tt
submit-Submitted deadline g (s ∷ rest) safe =
    let kept = SafeSince-IsKept g in
    let seen = kept.through_enter g s (since_start safe) in
    settle-Submitted g _ (
      if-Always (λ h e. SafeSince g h × (is_ok e ≡ true → h.complete ≡ true)) s.accepts _ _
        (λ took. wait_complete-keeps kept deadline (enter g s) rest seen)
        (λ refused. (seen, λ good. absurd (ground arith))))

-- After a report was sent, or not: the log has it at most once more, and where it has not, a success
-- means that the report was neutral. A neutral report that succeeds leaves the keys released.
pub record Sent (g : Hid) (report : List ℕ) (h : Hid) (e : Err) : Type 0 where
  pub safe : IsSafe h
  pub debt : (h.need_release ≡ g.need_release) ⊎ (h.need_release ≡ true)
  pub handed :
      ((h.log ≡ g.log) × (is_ok e ≡ true → neutral report ≡ true))
      ⊎ (h.log ≡ g.log ++ (entry g report ∷ []))
  pub released : neutral report ≡ true → is_ok e ≡ true → IsReleased h

Submitted-Sent :
    (g f : Hid) (report : List ℕ) (h : Hid) (e : Err)
    → SameReports g f
    → Submitted (hand_over f report) h e
    → Sent g report h e
unfolding hand_over
Submitted-Sent g f report h e same sub = record {
  safe = sub.since.safe;
  debt = inr sub.since.same.debt;
  handed = inr (
      sub.since.same.handed
      ∙ ap (λ l. l ++ (entry f report ∷ [])) same.handed
      ∙ ap (λ b. g.log ++ (record { report = report; clear = not b } ∷ [])) same.debt);
  released = λ plain good. (sub.acked good, ap neutral sub.since.same.report ∙ plain);
}

pub weaken :
    (P Q : Hid → Err → Type 0) (run : Run)
    → Always P run
    → ((h : Hid) (e : Err) → P h e → Q h e)
    → Always Q run
weaken P Q none p f = tt
weaken P Q (some (h, rest, e)) p f = f h e p

-- Nothing was handed over, and the call failed.
unsent :
    {g h : Hid} {report : List ℕ} {e : Err} → SafeSince g h → is_ok e ≡ false → Sent g report h e
unsent since bad = record {
  safe = since.safe;
  debt = inl since.same.debt;
  handed = inl (since.same.handed, λ good. absurd (ground arith));
  released = λ plain good. absurd (ground arith);
}

claimed-Sent :
    (g f : Hid) (report : List ℕ)
    → SafeSince g f
    → neutral report && f.neutral_done ≡ true
    → Sent g report (record f { neutral_done = false }) Err.ok
claimed-Sent g f report since there =
    let plain : neutral report ≡ true = ground arith in
    let done = since.safe.claims (ground arith) in
    record {
      safe = record {
        completes = since.safe.completes;
        claims = λ c. absurd (ground arith);
        clears = since.safe.clears;
        guarded = since.safe.guarded;
      };
      debt = inl since.same.debt;
      handed = inl (since.same.handed, λ good. plain);
      released = λ p good. done;
    }

claim_or_submit-Sent :
    (deadline : ℕ) (report : List ℕ) (g f : Hid) (rest : List Slice)
    → MayHand g report
    → SafeSince g f
    → Always (Sent g report) (claim_or_submit deadline report f rest)
unfolding claim_or_submit
claim_or_submit-Sent deadline report g f [] may since = tt
claim_or_submit-Sent deadline report g f (s ∷ rest) may since =
    let seen = (SafeSince-IsKept g).through_enter f s since in
    let now_may : MayHand (enter f s) report = elim may [
      | inl plain ↦ inl plain
      | inr clear ↦ inr (seen.same.debt ∙ clear)
    ] in
    if-Always (Sent g report) (leb deadline s.now) _ _ (λ late. unsent seen refl)
      (λ early.
        if-Always (Sent g report) (neutral report && (enter f s).neutral_done) _ _
          (λ there. claimed-Sent g (enter f s) report seen there)
          (λ fresh.
            weaken (Submitted (hand_over (enter f s) report)) (Sent g report) _
              (submit-Submitted deadline (hand_over (enter f s) report) rest
                (hand_over-IsSafe (enter f s) report now_may seen.safe))
              (λ h e sub. Submitted-Sent g (enter f s) report h e seen.same sub)))

-- `send_report` keeps the books, whatever the bus does.
pub send_report-Sent :
    (report : List ℕ) (g : Hid) (rest : List Slice)
    → MayHand g report
    → IsSafe g
    → Always (Sent g report) (send_report report g rest)
unfolding send_report
send_report-Sent report g rest may safe =
    let kept = SafeSince-IsKept g in
    look-keeps kept (Sent g report) g rest _ (since_start safe) (λ f rest' since.
      and_then-Always (Sent g report) (wait_ready (report_deadline f) f rest') _
        (wait_ready-keeps kept (report_deadline f) f rest' since)
        (λ h later e good seen. claim_or_submit-Sent (report_deadline f) report g h later may seen)
        (λ h e bad seen. unsent seen bad))

-- The neutral report is neutral.
pub neutral-release : neutral release ≡ true
unfolding neutral
neutral-release = refl

-- After a release: nothing is owed where it succeeds, and at most one neutral report is added.
pub record Released (g h : Hid) (e : Err) : Type 0 where
  pub safe : IsSafe h
  pub clear : is_ok e ≡ true → h.need_release ≡ false
  pub handed : (h.log ≡ g.log) ⊎ (h.log ≡ g.log ++ (entry g release ∷ []))

-- Released, and the keys seen as released, while the code looks on.
record Settled (g h : Hid) : Type 0 where
  safe : IsSafe h
  released : IsReleased h
  handed : (h.log ≡ g.log) ⊎ (h.log ≡ g.log ++ (entry g release ∷ []))

Settled-enter : (g h : Hid) (s : Slice) → Settled g h → Settled g (enter h s)
Settled-enter g h s p =
    let since = (SafeSince-IsKept h).through_enter h s (since_start p.safe) in
    record {
      safe = since.safe;
      released = (since.same.known p.released.0, ap neutral since.same.report ∙ p.released.1);
      handed = elim p.handed [
        | inl same ↦ inl (since.same.handed ∙ same)
        | inr more ↦ inr (since.same.handed ∙ more)
      ];
    }

cleared-Released :
    (g h : Hid)
    → Settled g h
    → Released g (record h { need_release = false; neutral_done = false }) Err.ok
cleared-Released g h p = record {
  safe = record {
    completes = p.safe.completes;
    claims = λ c. absurd (ground arith);
    clears = λ c. p.released;
    guarded = p.safe.guarded;
  };
  clear = λ good. refl;
  handed = p.handed;
}

Sent-handed :
    {g h : Hid} {e : Err}
    → Sent g release h e
    → (h.log ≡ g.log) ⊎ (h.log ≡ g.log ++ (entry g release ∷ []))
Sent-handed sent = elim sent.handed [ inl p ↦ inl p.0 | inr more ↦ inr more ]

look-Settled :
    (g h : Hid) (rest : List Slice)
    → Settled g h
    → Always (Released g) (
        look h rest (λ h' rest'.
          some (record h' { need_release = false; neutral_done = false }, rest', Err.ok)))
look-Settled g h [] p = tt
look-Settled g h (s ∷ rest) p = cleared-Released g (enter h s) (Settled-enter g h s p)

pub release_all-Released :
    (g : Hid) (rest : List Slice) → IsSafe g → Always (Released g) (release_all g rest)
unfolding release_all
release_all-Released g rest safe =
    and_then-Always (Released g) (send_report release g rest) _
      (send_report-Sent release g rest (inl neutral-release) safe)
      (λ h later e good sent. look-Settled g h later (record {
        safe = sent.safe;
        released = sent.released neutral-release good;
        handed = Sent-handed sent;
      }))
      (λ h e bad sent. record {
        safe = sent.safe;
        clear = λ good. absurd (ground arith);
        handed = Sent-handed sent;
      })
