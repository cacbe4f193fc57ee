-- ===== src/UsbHid/Finish.antt =====
-- The whole actions of firmware/main/usb_hid.c: what they press, and what they leave.
use remote_wake.Base.{
  ℕ, ◌+◌, ◌≤◌, ◌<◌, ◌≡◌, ◌⊎◌, inl, inr, refl, ◌∙◌, ap, Bool, true, false, not, ◌||◌, List, [], ◌∷◌,
  ◌++◌, some, ltb, if◌then◌else◌, Bool-cases, arith, length,
}
use remote_wake.Base.Results.{ok, err}
use remote_wake.Json.{Json}
use remote_wake.UsbHid.State.{Err, is_ok, Slice, Hid, bus_state}
use remote_wake.UsbHid.Report.{Run, ◌and_then◌, release_all}
use remote_wake.UsbHid.Keys.{Layout, mappable}
use remote_wake.UsbHid.Actions.{
  begin_action, restart_usb, restart_if_up, clean_up, finish_action, Attempt, lock_action,
  press_each, act, ctrl_report, wake, text_reports, type_text, plan_keys, press_keys,
}
use remote_wake.UsbHid.Chains.{Always, if-Always, and_then-Always, look-keeps}
use remote_wake.UsbHid.Release.{IsSafe, SafeSince, SafeSince-IsKept, since_start}
use remote_wake.UsbHid.Sending.{Released, release_all-Released, weaken}
use remote_wake.UsbHid.Order.{pressed, Pressed, Released-pressed}
use remote_wake.UsbHid.Typing.{
  none_pressed, both-Pressed, cut-Pressed, pressed_since, same_pressed, finally-Always,
  marked-IsSafe, press_each-Pressed, begin_action-Pressed,
}

-- Safe, with the reports of an earlier moment, and with a given result.
abbrev pub SafeWith : Hid → Err → Hid → Err → Type 0
SafeWith g e h e' = SafeSince g h × (e' ≡ e)

blocked-since : {g h : Hid} → SafeSince g h → SafeSince g (record h { reenumerating = true })
blocked-since p = record {
  safe = record {
    completes = p.safe.completes;
    claims = p.safe.claims;
    clears = p.safe.clears;
    guarded = p.safe.guarded;
  };
  same = record {
    debt = p.same.debt;
    report = p.same.report;
    handed = p.same.handed;
    known = p.same.known;
  };
}

restart_usb-since :
    (g h : Hid) (rest : List Slice) (e : Err)
    → SafeSince g h
    → Always (SafeWith g e) (restart_usb h rest e)
unfolding restart_usb
restart_usb-since g h rest e p =
    let kept = SafeSince-IsKept g in
    look-keeps kept (SafeWith g e) _ rest _ (blocked-since p) (λ f later seen.
      if-Always (SafeWith g e) f.view.detaches _ _
        (λ off.
          look-keeps kept (SafeWith g e) f later _ seen (λ h' more q. (blocked-since q, refl)))
        (λ stuck. (seen, refl)))

pub restart_if_up-since :
    (g h : Hid) (rest : List Slice) (e : Err)
    → SafeSince g h
    → Always (SafeWith g e) (restart_if_up h rest e)
unfolding restart_if_up
restart_if_up-since g h rest e p =
    let kept = SafeSince-IsKept g in
    look-keeps kept (SafeWith g e) h rest _ p (λ f later seen.
      let polled = kept.through_state f seen in
      if-Always (SafeWith g e) (is_ok (bus_state f).1) _ _
        (λ up. restart_usb-since g (bus_state f).0 later e polled) (λ down. (polled, refl)))

-- After the cleanup of a failed action.
record Cleaned (g h : Hid) (e : Err) : Type 0 where
  safe : IsSafe h
  same : pressed h ≡ pressed g
  bad : is_ok e ≡ false

clean_up-Cleaned :
    (e : Err) (g : Hid) (rest : List Slice)
    → is_ok e ≡ false
    → IsSafe g
    → Always (Cleaned g) (clean_up e g rest)
unfolding clean_up
clean_up-Cleaned e g rest bad safe =
    finally-Always (Released g) (Cleaned g) (release_all g rest) _
      (release_all-Released g rest safe)
      (λ f later released rel.
        let kept : (if is_ok e then released else e) ≡ e = rw bad in
        if-Always (Cleaned g) (is_ok released) _ _
          (λ good. record {
            safe = rel.safe;
            same = Released-pressed rel;
            bad = ap is_ok kept ∙ bad;
          })
          (λ failed.
            weaken (SafeWith f (if is_ok e then released else e)) (Cleaned g) _
              (restart_if_up-since f f later (if is_ok e then released else e)
                (since_start rel.safe))
              (λ h e' p. record {
                safe = p.0.safe;
                same = same_pressed p.0.same ∙ Released-pressed rel;
                bad = ap is_ok (p.1 ∙ kept) ∙ bad;
              })))

-- The same moment in all that counts here.
over_pressed :
    {g f : Hid} {plan : List (List ℕ)} {e : Err}
    → Pressed g plan f e
    → (h : Hid) (e' : Err) → is_ok e' ≡ false
    → IsSafe h
    → pressed h ≡ pressed f
    → Pressed g plan h e'
over_pressed {e = e} p h e' bad safe same = record {
  safe = safe;
  clear = λ good. absurd (ground arith);
  done = p.done;
  left = p.left;
  since = same ∙ p.since;
  begins = p.begins;
  finished = λ good. absurd (ground arith);
}

finish_action-Pressed :
    (g : Hid) (plan : List (List ℕ)) (f : Hid) (rest : List Slice) (e : Err)
    → Pressed g plan f e
    → Always (Pressed g plan) (finish_action e f rest)
unfolding finish_action
finish_action-Pressed g plan f rest e p =
    let over = record f { deadline = 0; epoch_valid = false } in
    let fine = marked-IsSafe f f.action_epoch 0 false p.safe in
    if-Always (Pressed g plan) f.need_release _ _
      (λ owed.
        let bad : is_ok e ≡ false = elim (Bool-cases (is_ok e)) [
          | inl good ↦ absurd (let c = p.clear good in ground arith)
          | inr b ↦ b
        ] in
        look-keeps (SafeSince-IsKept over) (Pressed g plan) over rest _ (since_start fine)
          (λ h later seen.
            let polled = (SafeSince-IsKept over).through_state h seen in
            if-Always (Pressed g plan) (is_ok (bus_state h).1) _ _
              (λ up.
                weaken (Cleaned (bus_state h).0) (Pressed g plan) (clean_up e (bus_state h).0 later)
                  (clean_up-Cleaned e (bus_state h).0 later bad polled.safe)
                  (λ h' e' c.
                    over_pressed p h' e' c.bad c.safe (c.same ∙ same_pressed polled.same)))
              (λ down.
                over_pressed p (bus_state h).0 e bad polled.safe (same_pressed polled.same))))
      (λ free. record {
        safe = fine;
        clear = p.clear;
        done = p.done;
        left = p.left;
        since = p.since;
        begins = p.begins;
        finished = p.finished;
      })

-- An action that begins and presses a plan.
begun-Pressed :
    (pause : Bool) (plan : List (List ℕ)) (g : Hid) (rest : List Slice)
    → IsSafe g
    → Always (Pressed g plan) (begin_action g rest and_then press_each pause true plan)
begun-Pressed pause plan g rest safe =
    and_then-Always (Pressed g plan) (begin_action g rest) (press_each pause true plan)
      (begin_action-Pressed g rest safe)
      (λ f later e good p.
        weaken (Pressed f plan) (Pressed g plan) (press_each pause true plan f later)
          (press_each-Pressed pause true plan f later (p.clear good) p.safe)
          (λ h e' q. both-Pressed {f = f} {p = []} p good q))
      (λ h e bad p. cut-Pressed {p = []} plan p bad)

pub act-Pressed :
    (pause : Bool) (plan : List (List ℕ)) (a : Attempt) (g : Hid) (rest : List Slice)
    → IsSafe g
    → Always (Pressed g plan) (act pause plan a g rest)
unfolding act lock_action
act-Pressed pause plan a g rest safe =
    elim (Bool-cases (a.quiesced_before || not a.taken || g.quiesced)) [
      | inl busy ↦ rw busy (none_pressed safe refl refl)
      | inr free ↦
          let fine = marked-IsSafe g g.action_epoch (a.called + 8000000) g.epoch_valid safe in
          let locked = record g { deadline = a.called + 8000000 } in
          rw free (
            finally-Always (Pressed g plan) (Pressed g plan) _ finish_action
              (weaken (Pressed locked plan) (Pressed g plan) _
                (begun-Pressed pause plan locked rest fine)
                (λ h e p. pressed_since {f = locked} refl p))
              (λ f later e p. finish_action-Pressed g plan f later e p))
    ]

-- Waking the computer presses the left control key twice, each time with its release, and only after
-- a neutral report: whatever the bus does, what was pressed is a beginning of this, all of it where
-- the call succeeds, and then no release is owed.
pub wake-Pressed :
    (a : Attempt) (g : Hid) (rest : List Slice)
    → IsSafe g
    → Always (Pressed g (ctrl_report ∷ ctrl_report ∷ [])) (wake a g rest)
unfolding wake
wake-Pressed a g rest safe =
    if-Always (Pressed g (ctrl_report ∷ ctrl_report ∷ [])) g.installed _ _
      (λ there. act-Pressed true (ctrl_report ∷ ctrl_report ∷ []) a g rest safe)
      (λ away. none_pressed safe refl refl)

either_error :
    (b : Bool) (g : Hid) (rest : List Slice) (x y : Err)
    → if◌then◌else◌ {A = Run} (not b) (some (g, rest, x)) (some (g, rest, y))
      ≡ some (g, rest, if b then y else x)
either_error true g rest x y = refl
either_error false g rest x y = refl

-- Nothing was done but to answer with an error.
abbrev pub Refused : Hid → List Slice → Run → Type 0
Refused g rest run = (e : Err) × (is_ok e ≡ false) × (run ≡ some (g, rest, e))

if-Refused :
    (g : Hid) (rest : List Slice) (b : Bool) (e : Err) (run : Run)
    → is_ok e ≡ false
    → (b ≡ false → Refused g rest run)
    → Refused g rest (if b then some (g, rest, e) else run)
if-Refused g rest true e run bad other = (e, bad, refl)
if-Refused g rest false e run bad other = other refl

module _ (L : Layout) where
  -- Somewhere in the text is a character that the keyboard has no key for.
  pub record HasNoKey (text : List ℕ) : Type 0 where
    pub before : List ℕ
    pub char : ℕ
    pub after : List ℕ
    pub there : text ≡ before ++ (char ∷ after)
    pub keyless : (128 ≤ char) ⊎ (L.ascii_key char ≡ 0)

  keyless-mappable :
      (char : ℕ) (after : List ℕ)
      → (128 ≤ char) ⊎ (L.ascii_key char ≡ 0)
      → mappable L (char ∷ after) ≡ false
  unfolding mappable
  keyless-mappable char after (inl high) = ground arith
  keyless-mappable char after (inr none) = ground arith

  HasNoKey-mappable :
      (before : List ℕ) (char : ℕ) (after : List ℕ)
      → (128 ≤ char) ⊎ (L.ascii_key char ≡ 0)
      → mappable L (before ++ (char ∷ after)) ≡ false
  unfolding mappable
  HasNoKey-mappable [] char after keyless = keyless-mappable char after keyless
  HasNoKey-mappable (b ∷ before) char after keyless =
      ground (arith, HasNoKey-mappable before char after keyless)

  type_text-Refused :
      (text : List ℕ) (enter : Bool) (a : Attempt) (g : Hid) (rest : List Slice)
      → (256 < length text) ⊎ HasNoKey text
      → Refused g rest (type_text L (some text) enter a g rest)
  unfolding type_text
  type_text-Refused text enter a g rest (inl long) =
      let over : ltb 256 (length text) ≡ true = ground arith in
      if-Refused g rest (not g.installed) Err.not_supported _ refl
        (λ there. rw over (Err.invalid_size, refl, refl))
  type_text-Refused text enter a g rest (inr strange) =
      let unknown =
        ap (mappable L) strange.there
        ∙ HasNoKey-mappable strange.before strange.char strange.after strange.keyless in
      if-Refused g rest (not g.installed) Err.not_supported _ refl (λ there.
        if-Refused g rest (ltb 256 (length text)) Err.invalid_size _ refl
          (λ short. rw unknown (Err.invalid_arg, refl, refl)))

  type_text-keeps :
      (text : List ℕ) (enter : Bool) (a : Attempt) (g : Hid) (rest : List Slice)
      → IsSafe g
      → Always (Pressed g (text_reports L text enter)) (type_text L (some text) enter a g rest)
  unfolding type_text
  type_text-keeps text enter a g rest safe =
      let plan = text_reports L text enter in
      if-Always (Pressed g plan) (not g.installed) _ _ (λ away. none_pressed safe refl refl)
        (λ there.
          if-Always (Pressed g plan) (ltb 256 (length text)) _ _
            (λ long. none_pressed safe refl refl)
            (λ short.
              if-Always (Pressed g plan) (not (mappable L text)) _ _
                (λ strange. none_pressed safe refl refl)
                (λ known. act-Pressed false plan a g rest safe)))

  -- Typing a text presses its characters in their order, and then Enter where it is asked for, and
  -- nothing else: whatever the bus and the callbacks do, the reports pressed since the call are a
  -- beginning of the text's reports, and all of them where the call succeeds; then no release is
  -- owed. A text of more than 256 characters, or with a character that is not ASCII or has no key, is
  -- refused: the call ends at once with an error, looks at nothing and hands nothing over.
  pub type_text-Pressed :
      (text : List ℕ) (enter : Bool) (a : Attempt) (g : Hid) (rest : List Slice)
      → IsSafe g
      → Always (Pressed g (text_reports L text enter)) (type_text L (some text) enter a g rest)
        × ((256 < length text) ⊎ HasNoKey text
            → Refused g rest (type_text L (some text) enter a g rest))
  type_text-Pressed text enter a g rest safe =
      (type_text-keeps text enter a g rest safe, type_text-Refused text enter a g rest)

  module _ {D : Type 0} where
    -- Pressing chords: nothing is handed over unless the whole sequence is valid; then the chords are
    -- pressed in their order as for a text.
    pub press_keys-Pressed :
        (seq : Json D) (a : Attempt) (g : Hid) (rest : List Slice)
        → IsSafe g
        → ((e : Err)
            → plan_keys L seq ≡ err e
            → press_keys L seq a g rest
              ≡ some (g, rest, if g.installed then e else Err.not_supported))
          × ((plan : List (List ℕ))
              → plan_keys L seq ≡ ok plan
              → Always (Pressed g plan) (press_keys L seq a g rest))
    unfolding press_keys
    press_keys-Pressed seq a g rest safe = (
      (λ e bad. rw bad (either_error g.installed g rest Err.not_supported e)),
      (λ plan good.
          if-Always (Pressed g plan) (not g.installed) _ _ (λ away. none_pressed safe refl refl)
            (λ there. rw good (act-Pressed true plan a g rest safe))),
    )
