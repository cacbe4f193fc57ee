-- ===== src/UsbHid/Returns.antt =====
-- The waits of firmware/main/usb_hid.c end: the clock runs, and each wait has a deadline.
use remote_wake.Base.{
  ℕ, zero, suc, ◌+◌, ◌≤◌, ◌<◌, ◌≡◌, refl, Bool, true, false, not, ◌&&◌, ◌||◌, List, [], ◌∷◌, some,
  none, ltb, leb, if◌then◌else◌, length, arith,
}
use remote_wake.UsbHid.State.{Err, is_ok, Slice, Hid, neutral, enter, bus_state}
use remote_wake.UsbHid.Report.{
  Run, ◌and_then◌, look, wait_ready, wait_complete, hand_over, settle, submit, claim_or_submit,
}
use remote_wake.UsbHid.Actions.{◌finally◌, wait_awake}

-- The clock runs on from slice to slice.
abbrev pub Ticks : ℕ → List Slice → Type 0
Ticks t [] = Unit
Ticks t (s ∷ rest) = (t < s.now) × Ticks s.now rest

-- The slices run on from some later time.
abbrev pub RunsOn : ℕ → List Slice → Type 0
RunsOn t rest = (later : ℕ) × (t ≤ later) × Ticks later rest

-- A call returns, and takes no more than a number of slices.
abbrev pub Takes : ℕ → ℕ → List Slice → Run → Type 0
Takes n t slices none = ⊥
Takes n t slices (some (h, rest, e)) = (length slices ≤ length rest + n) × RunsOn t rest

pub if-Takes :
    (n t : ℕ) (slices : List Slice) (b : Bool) (x y : Run)
    → (b ≡ true → Takes n t slices x)
    → (b ≡ false → Takes n t slices y)
    → Takes n t slices (if b then x else y)
if-Takes n t slices true x y on_true on_false = on_true refl
if-Takes n t slices false x y on_true on_false = on_false refl

-- More slices before, an earlier time, and a larger bound.
pub widen :
    (m n k t u : ℕ) (slices more : List Slice) (run : Run)
    → Takes m u slices run
    → t ≤ u
    → length more ≤ length slices + k
    → m + k ≤ n
    → Takes n t more run
widen m n k t u slices more none p earlier longer bound = p
widen m n k t u slices more (some (h, rest, e)) (few, (later, after, ticks)) earlier longer bound =
    (omega arith, (later, omega arith, ticks))

-- At once.
pub returns :
    (n t : ℕ) (slices : List Slice) (h : Hid) (e : Err)
    → Ticks t slices
    → Takes n t slices (some (h, slices, e))
returns n t slices h e ticks = (omega arith, (t, omega arith, ticks))

pub and_then-Takes :
    (m n t : ℕ) (slices : List Slice) (run : Run) (next : Hid → List Slice → Run)
    → m + n ≤ length slices
    → Takes m t slices run
    → ((h : Hid) (rest : List Slice) (u : ℕ)
        → t ≤ u
        → n ≤ length rest
        → Ticks u rest
        → Takes n u rest (next h rest))
    → Takes (m + n) t slices (run and_then next)
and_then-Takes m n t slices none next room p on_ok = p
and_then-Takes m n t slices (some (h, rest, e)) next room (few, (later, after, ticks)) on_ok =
    if-Takes (m + n) t slices (is_ok e) _ _
      (λ good.
        widen n (m + n) m t later rest slices (next h rest)
          (on_ok h rest later after (omega arith) ticks) after few (omega arith))
      (λ bad. (omega arith, (later, after, ticks)))

pub finally-Takes :
    (m n t : ℕ) (slices : List Slice) (run : Run) (next : Err → Hid → List Slice → Run)
    → m + n ≤ length slices
    → Takes m t slices run
    → ((e : Err) (h : Hid) (rest : List Slice) (u : ℕ)
        → n ≤ length rest
        → Ticks u rest
        → Takes n u rest (next e h rest))
    → Takes (m + n) t slices (run finally next)
finally-Takes m n t slices none next room p on_end = p
finally-Takes m n t slices (some (h, rest, e)) next room (few, (later, after, ticks)) on_end =
    widen n (m + n) m t later rest slices (next e h rest)
      (on_end e h rest later (omega arith) ticks) after few (omega arith)

pub look-Takes :
    (n t : ℕ) (h : Hid) (slices : List Slice) (next : Hid → List Slice → Run)
    → suc n ≤ length slices
    → Ticks t slices
    → ((s : Slice) (rest : List Slice)
        → n ≤ length rest
        → Ticks s.now rest
        → Takes n s.now rest (next (enter h s) rest))
    → Takes (suc n) t slices (look h slices next)
look-Takes n t h [] next room ticks on_next = absurd (omega arith)
look-Takes n t h (s ∷ rest) next room ticks on_next =
    widen n (suc n) 1 t s.now rest (s ∷ rest) (next (enter h s) rest)
      (on_next s rest (omega arith) ticks.1) (omega (arith, ticks.0)) (omega arith) (omega arith)

-- A round that goes on has used up some of the time.
wait_again :
    (n deadline t : ℕ) (s : Slice) (rest : List Slice) (run : Run)
    → deadline ≤ t + n
    → suc n ≤ suc (length rest)
    → t < s.now
    → leb deadline s.now ≡ false
    → ((m : ℕ) → deadline ≤ s.now + m → suc m ≤ length rest → Takes (suc m) s.now rest run)
    → Takes (suc n) t (s ∷ rest) run
wait_again zero deadline t s rest run near room tick early again = absurd (ground arith)
wait_again (suc m) deadline t s rest run near room tick early again =
    widen (suc m) (suc (suc m)) 1 t s.now rest (s ∷ rest) run (again m (omega arith) (omega arith))
      (omega arith) (omega arith) (omega arith)

pub wait_ready-Takes :
    (n deadline t : ℕ) (h : Hid) (slices : List Slice)
    → deadline ≤ t + n
    → suc n ≤ length slices
    → Ticks t slices
    → Takes (suc n) t slices (wait_ready deadline h slices)
unfolding wait_ready
wait_ready-Takes n deadline t h [] near room ticks = absurd (omega arith)
wait_ready-Takes n deadline t h (s ∷ rest) near room (tick, ticks) =
    let seen = (bus_state (enter h s)).0 in
    if-Takes (suc n) t (s ∷ rest)
      (not (is_ok (bus_state (enter h s)).1) || (not seen.waiting && s.ready) || leb deadline s.now)
      _ _ (λ stop. (omega arith, (s.now, omega arith, ticks)))
      (λ go.
        wait_again n deadline t s rest _ near room tick (ground arith)
          (λ m closer fits. wait_ready-Takes m deadline s.now seen rest closer fits ticks))

wait_complete-Takes :
    (n deadline t : ℕ) (h : Hid) (slices : List Slice)
    → deadline ≤ t + n
    → suc n ≤ length slices
    → Ticks t slices
    → Takes (suc n) t slices (wait_complete deadline h slices)
unfolding wait_complete
wait_complete-Takes n deadline t h [] near room ticks = absurd (omega arith)
wait_complete-Takes n deadline t h (s ∷ rest) near room (tick, ticks) =
    let seen = (bus_state (enter h s)).0 in
    if-Takes (suc n) t (s ∷ rest) (not (is_ok (bus_state (enter h s)).1) || seen.complete) _ _
      (λ stop. (omega arith, (s.now, omega arith, ticks)))
      (λ go.
        if-Takes (suc n) t (s ∷ rest) (not seen.waiting) _ _
          (λ lost. (omega arith, (s.now, omega arith, ticks)))
          (λ on.
            if-Takes (suc n) t (s ∷ rest) (leb deadline s.now) _ _
              (λ late. (omega arith, (s.now, omega arith, ticks)))
              (λ early. wait_again n deadline t s rest _ near room tick early (λ m closer fits.
                wait_complete-Takes m deadline s.now seen rest closer fits ticks))))

pub wait_awake-Takes :
    (n deadline t : ℕ) (h : Hid) (slices : List Slice)
    → deadline ≤ t + n
    → suc n ≤ length slices
    → Ticks t slices
    → Takes (suc n) t slices (wait_awake deadline h slices)
unfolding wait_awake
wait_awake-Takes n deadline t h [] near room ticks = absurd (omega arith)
wait_awake-Takes n deadline t h (s ∷ rest) near room (tick, ticks) =
    if-Takes (suc n) t (s ∷ rest) (s.mounted && s.suspended && ltb s.now deadline) _ _
      (λ go.
        wait_again n deadline t s rest _ near room tick (ground arith)
          (λ m closer fits. wait_awake-Takes m deadline s.now (enter h s) rest closer fits ticks))
      (λ stop. (omega arith, (s.now, omega arith, ticks)))

settle-Takes :
    (n t : ℕ) (slices : List Slice) (run : Run)
    → Takes n t slices run
    → Takes n t slices (settle run)
settle-Takes n t slices none p = p
settle-Takes n t slices (some (h, rest, e)) p = p

submit-Takes :
    (n deadline t : ℕ) (h : Hid) (slices : List Slice)
    → deadline ≤ t + n
    → suc (suc n) ≤ length slices
    → Ticks t slices
    → Takes (suc (suc n)) t slices (submit deadline h slices)
unfolding submit
submit-Takes n deadline t h [] near room ticks = absurd (omega arith)
submit-Takes n deadline t h (s ∷ rest) near room (tick, ticks) =
    settle-Takes (suc (suc n)) t (s ∷ rest) _ (
      if-Takes (suc (suc n)) t (s ∷ rest) s.accepts _ _
        (λ took.
          widen (suc n) (suc (suc n)) 1 t s.now rest (s ∷ rest) _
            (wait_complete-Takes n deadline s.now (enter h s) rest (omega arith) (omega arith)
              ticks)
            (omega arith) (omega arith) (omega arith))
        (λ refused. (omega arith, (s.now, omega arith, ticks))))

pub claim_or_submit-Takes :
    (n deadline t : ℕ) (report : List ℕ) (h : Hid) (slices : List Slice)
    → deadline ≤ t + n
    → n + 3 ≤ length slices
    → Ticks t slices
    → Takes (n + 3) t slices (claim_or_submit deadline report h slices)
unfolding claim_or_submit
claim_or_submit-Takes n deadline t report h [] near room ticks = absurd (omega arith)
claim_or_submit-Takes n deadline t report h (s ∷ rest) near room (tick, ticks) =
    if-Takes (n + 3) t (s ∷ rest) (leb deadline s.now) _ _
      (λ late. (omega arith, (s.now, omega arith, ticks)))
      (λ early.
        if-Takes (n + 3) t (s ∷ rest) (neutral report && (enter h s).neutral_done) _ _
          (λ there. (omega arith, (s.now, omega arith, ticks)))
          (λ fresh.
            widen (suc (suc n)) (n + 3) 1 t s.now rest (s ∷ rest) _
              (submit-Takes n deadline s.now (hand_over (enter h s) report) rest (omega arith)
                (omega arith) ticks)
              (omega arith) (omega arith) (omega arith)))
