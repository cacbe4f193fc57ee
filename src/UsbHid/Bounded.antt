-- ===== src/UsbHid/Bounded.antt =====
-- How long the actions of firmware/main/usb_hid.c can take, in looks at the bus and the clock.
use remote_wake.Base.{
  ℕ, suc, ◌+◌, ◌*◌, ◌≤◌, ◌≡◌, refl, Bool, true, false, not, ◌&&◌, List, [], ◌∷◌, some, ltb,
  if◌then◌else◌, length, length-append, replicate, ap, arith,
}
use remote_wake.UsbHid.State.{Err, is_ok, Slice, Hid, enter, bus_state}
use remote_wake.UsbHid.Report.{
  wait_ready, claim_or_submit, send_report, release, report_deadline, release_all, press_release,
}
use remote_wake.UsbHid.Keys.{Layout, mappable, char_reports}
use remote_wake.UsbHid.Actions.{
  ensure_awake, begin_action, restart_usb, restart_if_up, clean_up, finish_action, Attempt,
  lock_action, press_each, act, text_reports, type_text,
}
use remote_wake.UsbHid.Returns.{
  Ticks, Takes, if-Takes, widen, returns, and_then-Takes, finally-Takes, look-Takes,
  wait_ready-Takes, wait_awake-Takes, claim_or_submit-Takes,
}

deadline-near : (h : Hid) (s : Slice) → report_deadline (enter h s) ≤ s.now + 200000
unfolding enter
deadline-near h s = ground arith

send_report-Takes :
    (report : List ℕ) (t : ℕ) (h : Hid) (slices : List Slice)
    → 400005 ≤ length slices
    → Ticks t slices
    → Takes 400005 t slices (send_report report h slices)
unfolding send_report
send_report-Takes report t h slices room ticks =
    look-Takes 400004 t h slices _ room ticks (λ s rest fits later.
      let d = report_deadline (enter h s) in
      and_then-Takes 200001 200003 s.now rest (wait_ready d (enter h s) rest)
        (claim_or_submit d report) fits
        (wait_ready-Takes 200000 d s.now (enter h s) rest (deadline-near h s) (omega arith) later)
        (λ f more u after enough on.
          claim_or_submit-Takes 200000 d u report f more (omega (arith, deadline-near h s)) enough
            on))

pub release_all-Takes :
    (t : ℕ) (h : Hid) (slices : List Slice)
    → 400006 ≤ length slices
    → Ticks t slices
    → Takes 400006 t slices (release_all h slices)
unfolding release_all
release_all-Takes t h slices room ticks =
    and_then-Takes 400005 1 t slices (send_report release h slices) _ room
      (send_report-Takes release t h slices (omega arith) ticks)
      (λ f rest u after enough on. look-Takes 0 u f rest _ enough on (λ s more fits later.
        returns 0 s.now more (record (enter f s) { need_release = false; neutral_done = false })
          Err.ok later))

press_release-Takes :
    (report : List ℕ) (t : ℕ) (h : Hid) (slices : List Slice)
    → 800011 ≤ length slices
    → Ticks t slices
    → Takes 800011 t slices (press_release report h slices)
unfolding press_release
press_release-Takes report t h slices room ticks =
    and_then-Takes 400005 400006 t slices (send_report report h slices) release_all room
      (send_report-Takes report t h slices (omega arith) ticks)
      (λ f rest u after enough on. release_all-Takes u f rest enough on)

-- A report with the pause before it takes 800012 looks at most.
press_each-Takes :
    (pause first : Bool) (plan : List (List ℕ)) (t : ℕ) (h : Hid) (slices : List Slice)
    → 800012 * length plan ≤ length slices
    → Ticks t slices
    → Takes (800012 * length plan) t slices (press_each pause first plan h slices)
unfolding press_each
press_each-Takes pause first [] t h slices room ticks = returns 0 t slices h Err.ok ticks
press_each-Takes pause first (r ∷ plan) t h slices room ticks =
    let more = 800012 * length plan in
    let pressed =
      λ (f : Hid) (rest : List Slice) (u : ℕ) (enough : 800011 + more ≤ length rest)
          (on : Ticks u rest).
        and_then-Takes 800011 more u rest (press_release r f rest) (press_each pause false plan)
          enough (press_release-Takes r u f rest (omega arith) on)
          (λ f' rest' u' after fits later.
            press_each-Takes pause false plan u' f' rest' fits later) in
    if-Takes (800012 * suc (length plan)) t slices (pause && not first) _ _
      (λ waits.
        widen (suc (800011 + more)) (800012 * suc (length plan)) 0 t t slices slices _
          (look-Takes (800011 + more) t h slices _ (omega arith) ticks
            (λ s rest fits later. pressed (enter h s) rest s.now fits later))
          (omega arith) (omega arith) (omega arith))
      (λ goes.
        widen (800011 + more) (800012 * suc (length plan)) 0 t t slices slices _
          (pressed h slices t (omega arith) ticks) (omega arith) (omega arith) (omega arith))

ensure_awake-Takes :
    (t : ℕ) (h : Hid) (slices : List Slice)
    → 1000002 ≤ length slices
    → Ticks t slices
    → Takes 1000002 t slices (ensure_awake h slices)
unfolding ensure_awake enter
ensure_awake-Takes t h slices room ticks =
    look-Takes 1000001 t h slices _ room ticks (λ s rest fits later.
      let f = enter h s in
      if-Takes 1000001 s.now rest (not f.view.mounted) _ _
        (λ away. returns 1000001 s.now rest (bus_state f).0 (bus_state f).1 later)
        (λ here.
          if-Takes 1000001 s.now rest (not f.view.suspended) _ _
            (λ up. returns 1000001 s.now rest f Err.ok later)
            (λ asleep.
              if-Takes 1000001 s.now rest (not f.view.wakes) _ _
                (λ refused. returns 1000001 s.now rest f Err.timeout later)
                (λ woken.
                  wait_awake-Takes 1000000 (f.view.now + 1000000) s.now f rest (omega arith) fits
                    later))))

begin_action-Takes :
    (t : ℕ) (h : Hid) (slices : List Slice)
    → 1400009 ≤ length slices
    → Ticks t slices
    → Takes 1400009 t slices (begin_action h slices)
unfolding begin_action
begin_action-Takes t h slices room ticks =
    finally-Takes 1000002 400007 t slices (ensure_awake h slices) _ room
      (ensure_awake-Takes t h slices (omega arith) ticks)
      (λ e f rest u enough on. look-Takes 400006 u f rest _ enough on (λ s more fits later.
        let g = enter f s in
        let marked = record g { action_epoch = g.bus_epoch; epoch_valid = true } in
        if-Takes 400006 s.now more (is_ok e) _ _
          (λ good. release_all-Takes s.now marked more fits later)
          (λ bad. returns 400006 s.now more marked e later)))

pub restart_if_up-Takes :
    (t : ℕ) (h : Hid) (slices : List Slice) (e : Err)
    → 3 ≤ length slices
    → Ticks t slices
    → Takes 3 t slices (restart_if_up h slices e)
unfolding restart_if_up restart_usb
restart_if_up-Takes t h slices e room ticks =
    look-Takes 2 t h slices _ room ticks (λ s rest fits later.
      let f = (bus_state (enter h s)).0 in
      if-Takes 2 s.now rest (is_ok (bus_state (enter h s)).1) _ _
        (λ up.
          look-Takes 1 s.now (record f { reenumerating = true }) rest _ fits later
            (λ s₂ rest₂ fits₂ later₂.
              if-Takes 1 s₂.now rest₂ (enter (record f { reenumerating = true }) s₂).view.detaches _
                _
                (λ off.
                  look-Takes 0 s₂.now (enter (record f { reenumerating = true }) s₂) rest₂ _ fits₂
                    later₂
                    (λ s₃ rest₃ fits₃ later₃.
                      returns 0 s₃.now rest₃
                        (record (enter (enter (record f { reenumerating = true }) s₂) s₃) {
                          reenumerating = true;
                        })
                        e later₃))
                (λ stuck.
                  returns 1 s₂.now rest₂ (enter (record f { reenumerating = true }) s₂) e later₂)))
        (λ down. returns 2 s.now rest f e later))

clean_up-Takes :
    (e : Err) (t : ℕ) (h : Hid) (slices : List Slice)
    → 400009 ≤ length slices
    → Ticks t slices
    → Takes 400009 t slices (clean_up e h slices)
unfolding clean_up
clean_up-Takes e t h slices room ticks =
    finally-Takes 400006 3 t slices (release_all h slices) _ room
      (release_all-Takes t h slices (omega arith) ticks)
      (λ released f rest u enough on.
        if-Takes 3 u rest (is_ok released) _ _
          (λ good. returns 3 u rest f (if is_ok e then released else e) on)
          (λ failed. restart_if_up-Takes u f rest (if is_ok e then released else e) enough on))

finish_action-Takes :
    (e : Err) (t : ℕ) (h : Hid) (slices : List Slice)
    → 400010 ≤ length slices
    → Ticks t slices
    → Takes 400010 t slices (finish_action e h slices)
unfolding finish_action
finish_action-Takes e t h slices room ticks =
    let over = record h { deadline = 0; epoch_valid = false } in
    if-Takes 400010 t slices h.need_release _ _
      (λ owed. look-Takes 400009 t over slices _ room ticks (λ s rest fits later.
        let f = (bus_state (enter over s)).0 in
        if-Takes 400009 s.now rest (is_ok (bus_state (enter over s)).1) _ _
          (λ up. clean_up-Takes e s.now f rest fits later)
          (λ down. returns 400009 s.now rest f e later)))
      (λ free. returns 400010 t slices over e ticks)

-- The looks that an action of some reports takes at most.
abbrev pub looks : ℕ → ℕ
looks reports = 1400009 + 800012 * reports + 400010

pub act-Takes :
    (pause : Bool) (plan : List (List ℕ)) (a : Attempt) (t : ℕ) (h : Hid) (slices : List Slice)
    → looks (length plan) ≤ length slices
    → Ticks t slices
    → Takes (looks (length plan)) t slices (act pause plan a h slices)
unfolding act
act-Takes pause plan a t h slices room ticks =
    let f = (lock_action a h).0 in
    let n = length plan in
    if-Takes (looks n) t slices (is_ok (lock_action a h).1) _ _
      (λ locked.
        finally-Takes (1400009 + 800012 * n) 400010 t slices _ finish_action room
          (and_then-Takes 1400009 (800012 * n) t slices (begin_action f slices)
            (press_each pause true plan) (omega arith)
            (begin_action-Takes t f slices (omega arith) ticks)
            (λ g rest u after enough on. press_each-Takes pause true plan u g rest enough on))
          (λ e g rest u enough on. finish_action-Takes e u g rest enough on))
      (λ busy. returns (looks n) t slices f Err.invalid_state ticks)

char_reports-length : (L : Layout) (text : List ℕ) → length (char_reports L text) ≡ length text
unfolding char_reports
char_reports-length L [] = refl
char_reports-length L (c ∷ text) = ap suc (char_reports-length L text)

text_reports-length :
    (L : Layout) (text : List ℕ) (enter : Bool)
    → length (text_reports L text enter) ≤ length text + 1
unfolding text_reports
text_reports-length L text true = omega (
  arith,
  length-append (char_reports L text) ((1 ∷ 0 ∷ 0 ∷ L.enter ∷ replicate 5 0) ∷ []),
  char_reports-length L text,
)
text_reports-length L text false =
    omega (arith, length-append (char_reports L text) [], char_reports-length L text)

-- Typing a text returns: when the clock runs on from look to look, by a microsecond at least, then
-- the call ends within a number of looks that is linear in the length of the text, and no answer of
-- the bus and no callback keeps it waiting.
pub type_text-Takes :
    (L : Layout) (text : List ℕ) (enter : Bool) (a : Attempt) (t : ℕ) (h : Hid)
    (slices : List Slice)
    → looks (length text + 1) ≤ length slices
    → Ticks t slices
    → Takes (looks (length text + 1)) t slices (type_text L (some text) enter a h slices)
unfolding type_text
type_text-Takes L text enter a t h slices room ticks =
    let n = looks (length text + 1) in
    let plan = text_reports L text enter in
    let short = text_reports-length L text enter in
    if-Takes n t slices (not h.installed) _ _ (λ away. returns n t slices h Err.not_supported ticks)
      (λ there.
        if-Takes n t slices (ltb 256 (length text)) _ _
          (λ long. returns n t slices h Err.invalid_size ticks)
          (λ fits.
            if-Takes n t slices (not (mappable L text)) _ _
              (λ strange. returns n t slices h Err.invalid_arg ticks)
              (λ known.
                widen (looks (length plan)) n 0 t t slices slices _
                  (act-Takes false plan a t h slices (omega (arith, short)) ticks) (omega arith)
                  (omega arith) (omega (arith, short)))))
