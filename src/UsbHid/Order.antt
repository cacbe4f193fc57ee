-- ===== src/UsbHid/Order.antt =====
-- What the actions of firmware/main/usb_hid.c press: the reports of the log that are not neutral.
use remote_wake.Base.{
  ℕ, ◌≡◌, ◌⊎◌, inl, inr, refl, ◌∙◌, ap, sym, true, false, List, [], ◌∷◌, ◌++◌, if◌then◌else◌,
  Bool-cases, arith,
}
use mathlib.Core.List.{append-nil}
use remote_wake.UsbHid.State.{Err, is_ok, Slice, Handed, Hid, neutral}
use remote_wake.UsbHid.Report.{send_report, release, release_all, press_release}
use remote_wake.UsbHid.Chains.{Always, and_then-Always}
use remote_wake.UsbHid.Release.{IsSafe}
use remote_wake.UsbHid.Sending.{
  entry, Sent, send_report-Sent, Released, release_all-Released, neutral-release, weaken,
}

-- The reports that press something.
unfoldable pub pressing : List (List ℕ) → List (List ℕ)
pressing [] = []
pressing (r ∷ rs) = if neutral r then pressing rs else r ∷ pressing rs

abbrev pub reports_of : List Handed → List (List ℕ)
reports_of [] = []
reports_of (e ∷ es) = e.report ∷ reports_of es

abbrev pub pressed : Hid → List (List ℕ)
pressed h = pressing (reports_of h.log)

pub pressing-++ : (a b : List (List ℕ)) → pressing (a ++ b) ≡ pressing a ++ pressing b
unfolding pressing
pressing-++ [] b = refl
pressing-++ (r ∷ a) b = elim (Bool-cases (neutral r)) [
  | inl plain ↦ ground (arith, pressing-++ a b)
  | inr press ↦ ground (arith, pressing-++ a b)
]

reports_of-++ : (a b : List Handed) → reports_of (a ++ b) ≡ reports_of a ++ reports_of b
reports_of-++ [] b = refl
reports_of-++ (e ∷ a) b = ap (λ l. e.report ∷ l) (reports_of-++ a b)

-- What a longer log has pressed.
pressed_more :
    (g h : Hid) (r : List ℕ)
    → h.log ≡ g.log ++ (entry g r ∷ [])
    → pressed h ≡ pressed g ++ pressing (r ∷ [])
pressed_more g h r longer =
    ap (λ l. pressing (reports_of l)) longer
    ∙ ap pressing (reports_of-++ g.log (entry g r ∷ []))
    ∙ pressing-++ (reports_of g.log) (r ∷ [])

pressing-neutral : (r : List ℕ) → neutral r ≡ true → pressing (r ∷ []) ≡ []
unfolding pressing
pressing-neutral r plain = rw plain

-- From one moment to another, along a plan of reports: what was pressed since is a beginning of what
-- the plan presses, and all of it where the result is a success; then no release is owed.
pub record Pressed (g : Hid) (plan : List (List ℕ)) (h : Hid) (e : Err) : Type 0 where
  pub safe : IsSafe h
  pub clear : is_ok e ≡ true → h.need_release ≡ false
  pub done : List (List ℕ)
  pub left : List (List ℕ)
  pub since : pressed h ≡ pressed g ++ done
  pub begins : pressing plan ≡ done ++ left
  pub finished : is_ok e ≡ true → left ≡ []

pub Released-pressed : {g h : Hid} {e : Err} → Released g h e → pressed h ≡ pressed g
Released-pressed {g = g} {h = h} r = elim r.handed [
  | inl same ↦ ap (λ l. pressing (reports_of l)) same
  | inr more ↦
      pressed_more g h release more
      ∙ ap (λ l. pressed g ++ l) (pressing-neutral release neutral-release)
      ∙ append-nil (pressed g)
]

-- A report that was sent, or not.
Sent-pressed :
    {g h : Hid} {r : List ℕ} {e : Err}
    → Sent g r h e
    → ((pressed h ≡ pressed g) × (is_ok e ≡ true → pressing (r ∷ []) ≡ []))
      ⊎ (pressed h ≡ pressed g ++ pressing (r ∷ []))
Sent-pressed {g = g} {h = h} {r = r} s = elim s.handed [
  | inl p ↦ inl (ap (λ l. pressing (reports_of l)) p.0, λ good. pressing-neutral r (p.1 good))
  | inr more ↦ inr (pressed_more g h r more)
]

-- A key-down that fails.
Sent-failed :
    {g h : Hid} {r : List ℕ} {e : Err} → Sent g r h e → is_ok e ≡ false → Pressed g (r ∷ []) h e
Sent-failed {g = g} {r = r} s bad = elim (Sent-pressed s) [
  | inl p ↦ record {
    safe = s.safe;
    clear = λ good. absurd (ground arith);
    done = [];
    left = pressing (r ∷ []);
    since = p.0 ∙ sym (append-nil (pressed g));
    begins = refl;
    finished = λ good. absurd (ground arith);
  }
  | inr more ↦ record {
    safe = s.safe;
    clear = λ good. absurd (ground arith);
    done = pressing (r ∷ []);
    left = [];
    since = more;
    begins = sym (append-nil (pressing (r ∷ [])));
    finished = λ good. refl;
  }
]

-- A key-down that the bus has completed, and what the release after it gives.
Sent-Released :
    {g f h : Hid} {r : List ℕ} {e e' : Err}
    → Sent g r f e
    → is_ok e ≡ true
    → Released f h e'
    → Pressed g (r ∷ []) h e'
Sent-Released {g = g} {r = r} s good rel = record {
  safe = rel.safe;
  clear = rel.clear;
  done = pressing (r ∷ []);
  left = [];
  since = Released-pressed rel ∙ (elim (Sent-pressed s) [
    | inl p ↦ p.0 ∙ sym (append-nil (pressed g)) ∙ ap (λ l. pressed g ++ l) (sym (p.1 good))
    | inr more ↦ more
  ]);
  begins = sym (append-nil (pressing (r ∷ [])));
  finished = λ fine. refl;
}

pub press_release-Pressed :
    (r : List ℕ) (g : Hid) (rest : List Slice)
    → g.need_release ≡ false
    → IsSafe g
    → Always (Pressed g (r ∷ [])) (press_release r g rest)
unfolding press_release
press_release-Pressed r g rest clear safe =
    and_then-Always (Pressed g (r ∷ [])) (send_report r g rest) _
      (send_report-Sent r g rest (inr clear) safe)
      (λ f later e good sent.
        weaken (Released f) (Pressed g (r ∷ [])) (release_all f later)
          (release_all-Released f later sent.safe)
          (λ h e' rel. Sent-Released {f = f} {h = h} {e' = e'} sent good rel))
      (λ h e bad sent. Sent-failed sent bad)
