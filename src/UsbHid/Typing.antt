-- ===== src/UsbHid/Typing.antt =====
-- What the actions of firmware/main/usb_hid.c press, from the lock to its release.
use remote_wake.Base.{
  ℕ, ◌+◌, ◌≡◌, refl, ◌∙◌, ap, sym, Bool, true, false, not, ◌&&◌, List, [], ◌∷◌, ◌++◌, some, none,
  ltb, arith,
}
use mathlib.Core.List.{append-nil, append_assoc}
use remote_wake.UsbHid.State.{Err, is_ok, Slice, Hid, enter}
use remote_wake.UsbHid.Report.{Run, ◌and_then◌, release_all, press_release}
use remote_wake.UsbHid.Actions.{◌finally◌, wait_awake, ensure_awake, begin_action, press_each}
use remote_wake.UsbHid.Chains.{Always, if-Always, and_then-Always, look-keeps}
use remote_wake.UsbHid.Release.{IsSafe, SameReports, SafeSince, SafeSince-IsKept, since_start}
use remote_wake.UsbHid.Sending.{Released, release_all-Released, weaken}
use remote_wake.UsbHid.Order.{
  pressing, pressing-++, reports_of, pressed, Pressed, Released-pressed, press_release-Pressed,
}

-- Nothing was pressed.
pub none_pressed :
    {g h : Hid} {plan : List (List ℕ)} {e : Err}
    → IsSafe h
    → pressed h ≡ pressed g
    → is_ok e ≡ false
    → Pressed g plan h e
none_pressed {g = g} {plan = plan} safe same bad = record {
  safe = safe;
  clear = λ good. absurd (ground arith);
  done = [];
  left = pressing plan;
  since = same ∙ sym (append-nil (pressed g));
  begins = refl;
  finished = λ good. absurd (ground arith);
}

-- One plan after another.
pub both-Pressed :
    {g f h : Hid} {p q : List (List ℕ)} {e e' : Err}
    → Pressed g p f e
    → is_ok e ≡ true
    → Pressed f q h e'
    → Pressed g (p ++ q) h e'
both-Pressed {g = g} {p = p} {q = q} a good b = record {
  safe = b.safe;
  clear = b.clear;
  done = a.done ++ b.done;
  left = b.left;
  since = b.since ∙ ap (λ l. l ++ b.done) a.since ∙ append_assoc (pressed g) a.done b.done;
  begins =
      pressing-++ p q
      ∙ ap (λ l. l ++ pressing q)
          (a.begins ∙ ap (λ l. a.done ++ l) (a.finished good) ∙ append-nil a.done)
      ∙ ap (λ l. a.done ++ l) b.begins
      ∙ sym (append_assoc a.done b.done b.left);
  finished = b.finished;
}

-- A failure on the way: the rest of the plan is left.
pub cut-Pressed :
    {g h : Hid} {p : List (List ℕ)} {e : Err} (q : List (List ℕ))
    → Pressed g p h e
    → is_ok e ≡ false
    → Pressed g (p ++ q) h e
cut-Pressed {p = p} q a bad = record {
  safe = a.safe;
  clear = a.clear;
  done = a.done;
  left = a.left ++ pressing q;
  since = a.since;
  begins =
      pressing-++ p q
      ∙ ap (λ l. l ++ pressing q) a.begins
      ∙ append_assoc a.done a.left (pressing q);
  finished = λ good. absurd (ground arith);
}

-- What was pressed from an earlier moment with the same log.
pub pressed_since :
    {g f h : Hid} {plan : List (List ℕ)} {e : Err}
    → pressed f ≡ pressed g
    → Pressed f plan h e
    → Pressed g plan h e
pressed_since same p = record {
  safe = p.safe;
  clear = p.clear;
  done = p.done;
  left = p.left;
  since = p.since ∙ ap (λ l. l ++ p.done) same;
  begins = p.begins;
  finished = p.finished;
}

all_pressed :
    {g h : Hid} {e : Err}
    → IsSafe h
    → (is_ok e ≡ true → h.need_release ≡ false)
    → pressed h ≡ pressed g
    → Pressed g [] h e
unfolding pressing
all_pressed {g = g} safe clear same = record {
  safe = safe;
  clear = clear;
  done = [];
  left = [];
  since = same ∙ sym (append-nil (pressed g));
  begins = refl;
  finished = λ good. refl;
}

-- The log, as the callbacks leave it.
pub same_pressed : {g h : Hid} → SameReports g h → pressed h ≡ pressed g
same_pressed s = ap (λ l. pressing (reports_of l)) s.handed

module _ (pause : Bool) where
  -- One report, and those after it.
  press_on :
      (r : List ℕ) (rs : List (List ℕ)) (g : Hid) (rest : List Slice)
      → ((f : Hid) (later : List Slice)
          → f.need_release ≡ false
          → IsSafe f
          → Always (Pressed f rs) (press_each pause false rs f later))
      → g.need_release ≡ false
      → IsSafe g
      → Always (Pressed g (r ∷ rs)) (press_release r g rest and_then press_each pause false rs)
  press_on r rs g rest next clear safe =
      and_then-Always (Pressed g (r ∷ rs)) (press_release r g rest) (press_each pause false rs)
        (press_release-Pressed r g rest clear safe)
        (λ f later e good p.
          weaken (Pressed f rs) (Pressed g (r ∷ rs)) (press_each pause false rs f later)
            (next f later (p.clear good) p.safe)
            (λ h e' q. both-Pressed {f = f} {p = r ∷ []} p good q))
        (λ h e bad p. cut-Pressed {p = r ∷ []} rs p bad)

  pub press_each-Pressed :
      (first : Bool) (rs : List (List ℕ)) (g : Hid) (rest : List Slice)
      → g.need_release ≡ false
      → IsSafe g
      → Always (Pressed g rs) (press_each pause first rs g rest)
  unfolding press_each
  press_each-Pressed first [] g rest clear safe = all_pressed safe (λ good. clear) refl
  press_each-Pressed first (r ∷ rs) g rest clear safe =
      if-Always (Pressed g (r ∷ rs)) (pause && not first) _ _
        (λ waits.
          look-keeps (SafeSince-IsKept g) (Pressed g (r ∷ rs)) g rest _ (since_start safe)
            (λ f later seen.
              weaken (Pressed f (r ∷ rs)) (Pressed g (r ∷ rs)) _
                (press_on r rs f later (press_each-Pressed false rs) (seen.same.debt ∙ clear)
                  seen.safe)
                (λ h e p. pressed_since (same_pressed seen.same) p)))
        (λ goes. press_on r rs g rest (press_each-Pressed false rs) clear safe)

wait_awake-since :
    (g : Hid) (deadline : ℕ) (h : Hid) (rest : List Slice)
    → SafeSince g h
    → Always (λ h' e. SafeSince g h') (wait_awake deadline h rest)
unfolding wait_awake
wait_awake-since g deadline h [] p = tt
wait_awake-since g deadline h (s ∷ rest) p =
    let kept = SafeSince-IsKept g in
    let seen = kept.through_enter h s p in
    if-Always _ (s.mounted && s.suspended && ltb s.now deadline) _ _
      (λ asleep. wait_awake-since g deadline (enter h s) rest seen)
      (λ over. kept.through_state (enter h s) seen)

ensure_awake-since :
    (g : Hid) (rest : List Slice) → IsSafe g → Always (λ h e. SafeSince g h) (ensure_awake g rest)
unfolding ensure_awake
ensure_awake-since g rest safe =
    let kept = SafeSince-IsKept g in
    look-keeps kept _ g rest _ (since_start safe) (λ f later seen.
      if-Always _ (not f.view.mounted) _ _ (λ away. kept.through_state f seen)
        (λ here.
          if-Always _ (not f.view.suspended) _ _ (λ up. seen)
            (λ asleep.
              if-Always _ (not f.view.wakes) _ _ (λ refused. seen)
                (λ woken. wait_awake-since g (f.view.now + 1000000) f later seen))))

-- What follows in any case.
pub finally-Always :
    (P Q : Hid → Err → Type 0) (run : Run) (next : Err → Hid → List Slice → Run)
    → Always P run
    → ((h : Hid) (rest : List Slice) (e : Err) → P h e → Always Q (next e h rest))
    → Always Q (run finally next)
finally-Always P Q none next p on_end = tt
finally-Always P Q (some (h, rest, e)) next p on_end = on_end h rest e p

-- The statics that the bookkeeping does not read.
pub marked-IsSafe :
    (h : Hid) (epoch deadline : ℕ) (valid : Bool)
    → IsSafe h
    → IsSafe (record h { action_epoch = epoch; epoch_valid = valid; deadline = deadline })
marked-IsSafe h epoch deadline valid safe = record {
  completes = safe.completes;
  claims = safe.claims;
  clears = safe.clears;
  guarded = safe.guarded;
}

Released-nothing :
    {g f h : Hid} {e : Err} → pressed f ≡ pressed g → Released f h e → Pressed g [] h e
Released-nothing same rel = all_pressed rel.safe rel.clear (Released-pressed rel ∙ same)

-- Before any key: a neutral report has completed.
pub begin_action-Pressed :
    (g : Hid) (rest : List Slice) → IsSafe g → Always (Pressed g []) (begin_action g rest)
unfolding begin_action
begin_action-Pressed g rest safe =
    finally-Always (λ h e. SafeSince g h) (Pressed g []) (ensure_awake g rest) _
      (ensure_awake-since g rest safe)
      (λ f later e since.
        look-keeps (SafeSince-IsKept g) (Pressed g []) f later _ since (λ h more seen.
          let marked = record h { action_epoch = h.bus_epoch; epoch_valid = true } in
          let fine = marked-IsSafe h h.bus_epoch h.deadline true seen.safe in
          if-Always (Pressed g []) (is_ok e) _ _
            (λ good.
              weaken (Released marked) (Pressed g []) (release_all marked more)
                (release_all-Released marked more fine)
                (λ h' e' rel. Released-nothing {f = marked} (same_pressed seen.same) rel))
            (λ bad. all_pressed fine (λ good. absurd (ground arith)) (same_pressed seen.same))))
