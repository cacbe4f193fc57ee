-- ===== src/UsbHid/Runs.antt =====
-- Everything that firmware/main/usb_hid.c does, in any order: the tasks that take `s_lock` in turn, and
-- callbacks in between.
use remote_wake.Base.{
  ℕ, ◌≡◌, ◌⊎◌, sym, subst, inl, inr, refl, Bool, true, false, not, ◌&&◌, ◌||◌, List, [], ◌∷◌,
  Option, some, none, ◌==◌, if◌then◌else◌, arith,
}
use remote_wake.Json.{Json}
use remote_wake.UsbHid.State.{
  Err, is_ok, Callback, Slice, Hid, start, enter, bus_state, on_callbacks,
}
use remote_wake.UsbHid.Report.{Run, release_all}
use remote_wake.UsbHid.Keys.{Layout}
use remote_wake.UsbHid.Actions.{
  ◌finally◌, Attempt, ctrl_report, text_reports, wake, type_text, press_keys, plan_keys,
  recover_active, recovery_once, quiesce_keyboard, init_keyboard,
}
use remote_wake.UsbHid.Chains.{Always, if-Always, and_then-Always, look-keeps}
use remote_wake.UsbHid.Release.{IsSafe, SafeSince-IsKept, since_start, on_callbacks-IsSafe}
use remote_wake.UsbHid.Sending.{Released, release_all-Released, weaken}
use remote_wake.UsbHid.Order.{Pressed}
use remote_wake.UsbHid.Typing.{finally-Always}
use remote_wake.UsbHid.Finish.{
  wake-Pressed, type_text-Pressed, press_keys-Pressed, restart_if_up-since,
}
use remote_wake.Base.Results.{Result, ok, err}

pub data Op (D : Type 0) : Type 0 where
  initialises : Bool → Bool → Err → Op D
  wakes : Attempt → Op D
  types : Option (List ℕ) → Bool → Attempt → Op D
  presses : Json D → Attempt → Op D
  recovers quiesces : Bool → Op D
  resumes : Op D
  receives : List Callback → Op D

abbrev SafeRun : Run → Type 0
SafeRun = Always (λ h e. IsSafe h)

module _ (L : Layout) {D : Type 0} where
  -- `rw_hid_resume_actions` is among them.
  unfoldable pub run_op : Op D → Hid → List Slice → Run
  run_op (Op.initialises mutex task driver) h rest =
      let (h', e) = init_keyboard mutex task driver h in some (h', rest, e)
  run_op (Op.wakes a) h rest = wake a h rest
  run_op (Op.types text enter a) h rest = type_text L text enter a h rest
  run_op (Op.presses seq a) h rest = press_keys L seq a h rest
  run_op (Op.recovers taken) h rest = recovery_once taken h rest
  run_op (Op.quiesces taken) h rest = quiesce_keyboard taken h rest
  run_op Op.resumes h rest = some (record h { quiesced = false }, rest, Err.ok)
  run_op (Op.receives callbacks) h rest = some (on_callbacks h callbacks, rest, Err.ok)

  unfoldable pub run_ops : List (Op D) → Hid → List Slice → Run
  unfolding run_op
  run_ops [] h rest = some (h, rest, Err.ok)
  run_ops (op ∷ ops) h rest = run_op op h rest finally λ e. run_ops ops

-- A change of statics that the bookkeeping does not read, or a new debt.
changed-IsSafe :
    (h : Hid) (installed quiesced owed active : Bool) (epoch : ℕ)
    → IsSafe h
    → IsSafe (record h {
      installed = installed;
      quiesced = quiesced;
      need_release = if owed then true else h.need_release;
      was_active = active;
      observed_epoch = epoch;
    })
changed-IsSafe h installed quiesced true active epoch safe = record {
  completes = safe.completes;
  claims = safe.claims;
  clears = λ c. absurd (ground arith);
  guarded = safe.guarded;
}
changed-IsSafe h installed quiesced false active epoch safe = record {
  completes = safe.completes;
  claims = safe.claims;
  clears = safe.clears;
  guarded = safe.guarded;
}

release-IsSafe : (g : Hid) (rest : List Slice) → IsSafe g → SafeRun (release_all g rest)
release-IsSafe g rest safe =
    weaken (Released g) (λ h e. IsSafe h) (release_all g rest) (release_all-Released g rest safe)
      (λ h e r. r.safe)

recover_active-IsSafe :
    (active : Bool) (epoch : ℕ) (h : Hid) (rest : List Slice)
    → IsSafe h
    → SafeRun (recover_active active epoch h rest)
unfolding recover_active
recover_active-IsSafe active epoch h rest safe =
    let owed = not active || not h.was_active || not (epoch == h.observed_epoch) in
    let marked = record h {
      need_release = if owed then true else h.need_release;
      observed_epoch = epoch;
      was_active = active;
    } in
    let fine = changed-IsSafe h h.installed h.quiesced owed active epoch safe in
    if-Always (λ h e. IsSafe h) (active && marked.need_release) _ _
      (λ due.
        finally-Always (λ h e. IsSafe h) (λ h e. IsSafe h) (release_all marked rest) _
          (release-IsSafe marked rest fine)
          (λ f later e p.
            if-Always (λ h e. IsSafe h) (is_ok e) _ _ (λ good. p)
              (λ bad.
                weaken _ (λ h e. IsSafe h) _ (restart_if_up-since f f later Err.ok (since_start p))
                  (λ h' e' q. q.0.safe))))
      (λ idle. fine)

recovery_once-IsSafe :
    (taken : Bool) (h : Hid) (rest : List Slice) → IsSafe h → SafeRun (recovery_once taken h rest)
unfolding recovery_once
recovery_once-IsSafe taken h rest safe =
    let kept = SafeSince-IsKept h in
    if-Always (λ h e. IsSafe h) (not h.installed || h.quiesced || not taken) _ _ (λ off. safe)
      (λ on.
        look-keeps kept (λ h e. IsSafe h) h rest _ (since_start safe)
          (λ f later seen.
            look-keeps kept (λ h e. IsSafe h) (bus_state f).0 later _ (kept.through_state f seen)
              (λ f₂ later₂ seen₂.
                recover_active-IsSafe (is_ok (bus_state f).1) f₂.bus_epoch f₂ later₂ seen₂.safe)))

quiesce_keyboard-IsSafe :
    (taken : Bool) (h : Hid) (rest : List Slice)
    → IsSafe h
    → SafeRun (quiesce_keyboard taken h rest)
unfolding quiesce_keyboard
quiesce_keyboard-IsSafe taken h rest safe =
    let kept = SafeSince-IsKept h in
    if-Always (λ h e. IsSafe h) (not h.installed) _ _ (λ away. safe)
      (λ there.
        if-Always (λ h e. IsSafe h) (not taken || h.quiesced) _ _ (λ busy. safe)
          (λ free.
            look-keeps kept (λ h e. IsSafe h) h rest _ (since_start safe)
              (λ f later seen.
                let polled = kept.through_state f seen in
                and_then-Always (λ h e. IsSafe h) _ _
                  (if-Always (λ h e. IsSafe h) (is_ok (bus_state f).1) _ _
                    (λ up. release-IsSafe (bus_state f).0 later polled.safe) (λ down. polled.safe))
                  (λ h' more e good p.
                    changed-IsSafe h' h'.installed true false h'.was_active h'.observed_epoch p)
                  (λ h' e bad p. p))))

init_keyboard-IsSafe :
    (mutex task : Bool) (driver : Err) (h : Hid)
    → IsSafe h
    → IsSafe (init_keyboard mutex task driver h).0
unfolding init_keyboard
init_keyboard-IsSafe mutex task driver h safe = record {
  completes = let old = safe.completes in ground arith;
  claims = let old = safe.claims in ground arith;
  clears = let old = safe.clears in ground arith;
  guarded = let old = safe.guarded in ground arith;
}

null_text-IsSafe :
    (L : Layout) (enter : Bool) (a : Attempt) (h : Hid) (rest : List Slice)
    → IsSafe h
    → SafeRun (type_text L none enter a h rest)
unfolding type_text
null_text-IsSafe L enter a h rest safe = safe

Pressed-safe :
    (plan : List (List ℕ)) (g : Hid) (run : Run) → Always (Pressed g plan) run → SafeRun run
Pressed-safe plan g run p = weaken (Pressed g plan) (λ h e. IsSafe h) run p (λ h e q. q.safe)

pub start-IsSafe : IsSafe start
unfolding start
start-IsSafe = record {
  completes = λ c. absurd (ground arith);
  claims = λ c. absurd (ground arith);
  clears = λ c. absurd (ground arith);
  guarded = tt;
}

pub Result-cases :
    {E A : Type 0} (m : Result E A) → ((a : A) × (m ≡ ok a)) ⊎ ((e : E) × (m ≡ err e))
Result-cases (ok a) = inl (a, refl)
Result-cases (err e) = inr (e, refl)

module _ (L : Layout) {D : Type 0} where
  press_keys-IsSafe :
      (seq : Json D) (a : Attempt) (g : Hid) (rest : List Slice)
      → IsSafe g
      → SafeRun (press_keys L seq a g rest)
  press_keys-IsSafe seq a g rest safe =
      let (refused, pressed) = press_keys-Pressed L seq a g rest safe in
      elim (Result-cases (plan_keys L seq)) [
        | inl (plan, good) ↦ Pressed-safe plan g _ (pressed plan good)
        | inr (e, bad) ↦ subst SafeRun (sym (refused e bad)) safe
      ]

  run_op-IsSafe :
      (op : Op D) (h : Hid) (rest : List Slice) → IsSafe h → SafeRun (run_op L op h rest)
  unfolding run_op
  run_op-IsSafe (Op.initialises mutex task driver) h rest safe =
      init_keyboard-IsSafe mutex task driver h safe
  run_op-IsSafe (Op.wakes a) h rest safe =
      Pressed-safe (ctrl_report ∷ ctrl_report ∷ []) h _ (wake-Pressed a h rest safe)
  run_op-IsSafe (Op.types none enter a) h rest safe = null_text-IsSafe L enter a h rest safe
  run_op-IsSafe (Op.types (some text) enter a) h rest safe =
      Pressed-safe (text_reports L text enter) h _ (type_text-Pressed L text enter a h rest safe).0
  run_op-IsSafe (Op.presses seq a) h rest safe = press_keys-IsSafe seq a h rest safe
  run_op-IsSafe (Op.recovers taken) h rest safe = recovery_once-IsSafe taken h rest safe
  run_op-IsSafe (Op.quiesces taken) h rest safe = quiesce_keyboard-IsSafe taken h rest safe
  run_op-IsSafe Op.resumes h rest safe =
      changed-IsSafe h h.installed false false h.was_active h.observed_epoch safe
  run_op-IsSafe (Op.receives callbacks) h rest safe = on_callbacks-IsSafe h callbacks safe

  pub run_ops-keeps :
      (ops : List (Op D)) (h : Hid) (rest : List Slice) → IsSafe h → SafeRun (run_ops L ops h rest)
  unfolding run_ops
  run_ops-keeps [] h rest safe = safe
  run_ops-keeps (op ∷ ops) h rest safe =
      finally-Always (λ h' e. IsSafe h') (λ h' e. IsSafe h') (run_op L op h rest) _
        (run_op-IsSafe op h rest safe) (λ f later e p. run_ops-keeps ops f later p)
