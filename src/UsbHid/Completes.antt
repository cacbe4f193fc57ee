-- ===== src/UsbHid/Completes.antt =====
-- Whatever is asked of firmware/main/usb_hid.c and in whatever order, it returns, and is safe then.
use remote_wake.Base.{
  ℕ, ◌+◌, ◌≤◌, ◌≡◌, refl, Bool, true, false, not, ◌&&◌, ◌||◌, List, [], ◌∷◌, some, none, ◌==◌,
  if◌then◌else◌, length, arith,
}
use remote_wake.Base.Results.{Result, ok, err}
use remote_wake.Json.{Json}
use remote_wake.UsbHid.State.{Err, is_ok, Slice, Hid, start, enter, bus_state, on_callbacks}
use remote_wake.UsbHid.Report.{Run, release_all}
use remote_wake.UsbHid.Keys.{Layout}
use remote_wake.UsbHid.Actions.{
  Attempt, ctrl_report, wake, type_text, plan_keys, press_keys, recover_active, recovery_once,
  quiesce_keyboard, init_keyboard,
}
use remote_wake.UsbHid.Chains.{Always}
use remote_wake.UsbHid.Release.{IsSafe}
use remote_wake.UsbHid.Returns.{
  Ticks, Takes, if-Takes, returns, and_then-Takes, finally-Takes, look-Takes,
}
use remote_wake.UsbHid.Bounded.{
  looks, act-Takes, release_all-Takes, restart_if_up-Takes, type_text-Takes,
}
use remote_wake.UsbHid.Runs.{Op, run_op, run_ops, run_ops-keeps, start-IsSafe}

-- The looks that pressing a plan takes at most.
abbrev plan_cost : Result Err (List (List ℕ)) → ℕ
plan_cost (err e) = 0
plan_cost (ok plan) = looks (length plan)

module _ (L : Layout) {D : Type 0} where
  -- The looks that a call takes at most.
  abbrev op_cost : Op D → ℕ
  op_cost (Op.wakes a) = looks 2
  op_cost (Op.types none enter a) = 0
  op_cost (Op.types (some text) enter a) = looks (length text + 1)
  op_cost (Op.presses seq a) = plan_cost (plan_keys L seq)
  op_cost (Op.recovers taken) = 400011
  op_cost (Op.quiesces taken) = 400007
  op_cost _ = 0

  -- And all calls of a list.
  abbrev pub cost : List (Op D) → ℕ
  cost [] = 0
  cost (op ∷ ops) = op_cost op + cost ops

recover_active-Takes :
    (active : Bool) (epoch t : ℕ) (h : Hid) (slices : List Slice)
    → 400009 ≤ length slices
    → Ticks t slices
    → Takes 400009 t slices (recover_active active epoch h slices)
unfolding recover_active
recover_active-Takes active epoch t h slices room ticks =
    let owed = not active || not h.was_active || not (epoch == h.observed_epoch) in
    let marked = record h {
      need_release = if owed then true else h.need_release;
      observed_epoch = epoch;
      was_active = active;
    } in
    if-Takes 400009 t slices (active && marked.need_release) _ _
      (λ due.
        finally-Takes 400006 3 t slices (release_all marked slices) _ room
          (release_all-Takes t marked slices (omega arith) ticks)
          (λ e f rest u enough on.
            if-Takes 3 u rest (is_ok e) _ _ (λ good. returns 3 u rest f Err.ok on)
              (λ bad. restart_if_up-Takes u f rest Err.ok enough on)))
      (λ idle. returns 400009 t slices marked Err.ok ticks)

recovery_once-Takes :
    (taken : Bool) (t : ℕ) (h : Hid) (slices : List Slice)
    → 400011 ≤ length slices
    → Ticks t slices
    → Takes 400011 t slices (recovery_once taken h slices)
unfolding recovery_once
recovery_once-Takes taken t h slices room ticks =
    if-Takes 400011 t slices (not h.installed || h.quiesced || not taken) _ _
      (λ off. returns 400011 t slices h Err.ok ticks)
      (λ on. look-Takes 400010 t h slices _ room ticks (λ s rest fits later.
        let polled = bus_state (enter h s) in
        look-Takes 400009 s.now polled.0 rest _ fits later (λ s₂ rest₂ fits₂ later₂.
          let f = enter polled.0 s₂ in
          recover_active-Takes (is_ok polled.1) f.bus_epoch s₂.now f rest₂ fits₂ later₂)))

quiesce_keyboard-Takes :
    (taken : Bool) (t : ℕ) (h : Hid) (slices : List Slice)
    → 400007 ≤ length slices
    → Ticks t slices
    → Takes 400007 t slices (quiesce_keyboard taken h slices)
unfolding quiesce_keyboard
quiesce_keyboard-Takes taken t h slices room ticks =
    if-Takes 400007 t slices (not h.installed) _ _ (λ away. returns 400007 t slices h Err.ok ticks)
      (λ there.
        if-Takes 400007 t slices (not taken || h.quiesced) _ _
          (λ busy. returns 400007 t slices h Err.invalid_state ticks)
          (λ free. look-Takes 400006 t h slices _ room ticks (λ s rest fits later.
            let f = (bus_state (enter h s)).0 in
            and_then-Takes 400006 0 s.now rest _ _ fits
              (if-Takes 400006 s.now rest (is_ok (bus_state (enter h s)).1) _ _
                (λ up. release_all-Takes s.now f rest fits later)
                (λ down. returns 400006 s.now rest f Err.ok later))
              (λ h' more u after enough on.
                returns 0 u more (record h' { quiesced = true }) Err.ok on))))

wake-Takes :
    (a : Attempt) (t : ℕ) (h : Hid) (slices : List Slice)
    → looks 2 ≤ length slices
    → Ticks t slices
    → Takes (looks 2) t slices (wake a h slices)
unfolding wake
wake-Takes a t h slices room ticks =
    if-Takes (looks 2) t slices h.installed _ _
      (λ there. act-Takes true (ctrl_report ∷ ctrl_report ∷ []) a t h slices room ticks)
      (λ away. returns (looks 2) t slices h Err.not_supported ticks)

-- A run that returns, and is safe then.
abbrev pub Completed : Run → Type 0
Completed run = (h : Hid) × (rest' : List Slice) × (e : Err) × (run ≡ some (h, rest', e)) × IsSafe h

both :
    (n t : ℕ) (slices : List Slice) (run : Run)
    → Takes n t slices run
    → Always (λ h e. IsSafe h) run
    → Completed run
both n t slices none takes safe = absurd takes
both n t slices (some (h, rest', e)) takes safe = (h, rest', e, refl, safe)

module _ (L : Layout) {D : Type 0} where
  planned-Takes :
      (r : Result Err (List (List ℕ))) (seq : Json D) (a : Attempt) (t : ℕ) (h : Hid)
      (slices : List Slice)
      → plan_keys L seq ≡ r
      → plan_cost r ≤ length slices
      → Ticks t slices
      → Takes (plan_cost r) t slices (press_keys L seq a h slices)
  unfolding press_keys
  planned-Takes (err e) seq a t h slices bad room ticks =
      if-Takes 0 t slices (not h.installed) _ _
        (λ away. returns 0 t slices h Err.not_supported ticks)
        (λ there. rw bad (returns 0 t slices h e ticks))
  planned-Takes (ok plan) seq a t h slices good room ticks =
      let n = looks (length plan) in
      if-Takes n t slices (not h.installed) _ _
        (λ away. returns n t slices h Err.not_supported ticks)
        (λ there. rw good (act-Takes true plan a t h slices room ticks))

  run_op-Takes :
      (op : Op D) (t : ℕ) (h : Hid) (slices : List Slice)
      → op_cost L op ≤ length slices
      → Ticks t slices
      → Takes (op_cost L op) t slices (run_op L op h slices)
  unfolding run_op type_text
  run_op-Takes (Op.initialises mutex task driver) t h slices room ticks =
      let (h', e) = init_keyboard mutex task driver h in returns 0 t slices h' e ticks
  run_op-Takes (Op.wakes a) t h slices room ticks = wake-Takes a t h slices room ticks
  run_op-Takes (Op.types none enter a) t h slices room ticks =
      returns 0 t slices h (if h.installed then Err.invalid_arg else Err.not_supported) ticks
  run_op-Takes (Op.types (some text) enter a) t h slices room ticks =
      type_text-Takes L text enter a t h slices room ticks
  run_op-Takes (Op.presses seq a) t h slices room ticks =
      planned-Takes (plan_keys L seq) seq a t h slices refl room ticks
  run_op-Takes (Op.recovers taken) t h slices room ticks =
      recovery_once-Takes taken t h slices room ticks
  run_op-Takes (Op.quiesces taken) t h slices room ticks =
      quiesce_keyboard-Takes taken t h slices room ticks
  run_op-Takes Op.resumes t h slices room ticks =
      returns 0 t slices (record h { quiesced = false }) Err.ok ticks
  run_op-Takes (Op.receives callbacks) t h slices room ticks =
      returns 0 t slices (on_callbacks h callbacks) Err.ok ticks

  run_ops-Takes :
      (ops : List (Op D)) (t : ℕ) (h : Hid) (slices : List Slice)
      → cost L ops ≤ length slices
      → Ticks t slices
      → Takes (cost L ops) t slices (run_ops L ops h slices)
  unfolding run_ops
  run_ops-Takes [] t h slices room ticks = returns 0 t slices h Err.ok ticks
  run_ops-Takes (op ∷ ops) t h slices room ticks =
      finally-Takes (op_cost L op) (cost L ops) t slices (run_op L op h slices) _ room
        (run_op-Takes op t h slices (omega arith) ticks)
        (λ e f rest u enough on. run_ops-Takes ops u f rest enough on)

  -- No key is left held unknowingly: from the start, whatever the tasks, the callbacks and the bus do
  -- and in any order, after every run, whenever no release is owed, the last report handed over was
  -- neutral and the bus has completed just that report since, and every report that pressed a key was
  -- handed over at such a moment. And a run ends: where the clock runs on from look to look, by a
  -- microsecond at least, every list of calls returns within the looks that its `cost` counts.
  pub run_ops-IsSafe :
      (ops : List (Op D)) (rest : List Slice)
      → Always (λ h e. IsSafe h) (run_ops L ops start rest)
        × ((t : ℕ) → cost L ops ≤ length rest → Ticks t rest → Completed (run_ops L ops start rest))
  run_ops-IsSafe ops rest =
      let safe = run_ops-keeps L ops start rest start-IsSafe in
      (
        safe,
        λ t enough ticks.
            both (cost L ops) t rest (run_ops L ops start rest)
              (run_ops-Takes ops t start rest enough ticks) safe,
      )
