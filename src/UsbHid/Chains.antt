-- ===== src/UsbHid/Chains.antt =====
-- How a property of the statics of firmware/main/usb_hid.c is carried through its chains and loops.
use remote_wake.Base.{
  ℕ, ◌≡◌, refl, Bool, true, false, not, ◌&&◌, ◌||◌, List, [], ◌∷◌, some, none, leb, if◌then◌else◌,
  arith,
}
use remote_wake.UsbHid.State.{Err, is_ok, Slice, Hid, enter, bus_state}
use remote_wake.UsbHid.Report.{Run, ◌and_then◌, look, wait_ready, wait_complete}

-- What a result satisfies, where there is one.
abbrev pub Always : (Hid → Err → Type 0) → Run → Type 0
Always P none = Unit
Always P (some (h, rest, e)) = P h e

pub if-Always :
    (P : Hid → Err → Type 0) (b : Bool) (x y : Run)
    → (b ≡ true → Always P x)
    → (b ≡ false → Always P y)
    → Always P (if b then x else y)
if-Always P true x y on_true on_false = on_true refl
if-Always P false x y on_true on_false = on_false refl

pub and_then-Always :
    {P : Hid → Err → Type 0} (Q : Hid → Err → Type 0) (run : Run) (next : Hid → List Slice → Run)
    → Always P run
    → ((h : Hid) (rest : List Slice) (e : Err) → is_ok e ≡ true → P h e → Always Q (next h rest))
    → ((h : Hid) (e : Err) → is_ok e ≡ false → P h e → Q h e)
    → Always Q (run and_then next)
and_then-Always Q none next p on_ok on_err = tt
and_then-Always Q (some (h, rest, e)) next p on_ok on_err =
    if-Always Q (is_ok e) _ _ (λ good. on_ok h rest e good p) (λ bad. on_err h e bad p)

-- The same invariant throughout.
pub and_then-keeps :
    {P : Hid → Type 0} (run : Run) (next : Hid → List Slice → Run)
    → Always (λ h e. P h) run
    → ((h : Hid) (rest : List Slice) → P h → Always (λ h' e. P h') (next h rest))
    → Always (λ h e. P h) (run and_then next)
and_then-keeps run next p on_ok =
    and_then-Always _ run next p (λ h rest e good q. on_ok h rest q) (λ h e bad q. q)

-- A property that the callbacks and the looks at the bus keep.
pub record IsKept (P : Hid → Type 0) : Type 0 where
  pub through_enter : (h : Hid) (s : Slice) → P h → P (enter h s)
  pub through_state : (h : Hid) → P h → P (bus_state h).0

module _ {P : Hid → Type 0} (kept : IsKept P) where
  open kept use {through_enter, through_state}

  pub look-keeps :
      (Q : Hid → Err → Type 0) (h : Hid) (rest : List Slice) (next : Hid → List Slice → Run)
      → P h
      → ((h' : Hid) (rest' : List Slice) → P h' → Always Q (next h' rest'))
      → Always Q (look h rest next)
  look-keeps Q h [] next p on_next = tt
  look-keeps Q h (s ∷ rest) next p on_next = on_next (enter h s) rest (through_enter h s p)

  pub wait_ready-keeps :
      (deadline : ℕ) (h : Hid) (rest : List Slice)
      → P h
      → Always (λ h' e. P h') (wait_ready deadline h rest)
  unfolding wait_ready
  wait_ready-keeps deadline h [] p = tt
  wait_ready-keeps deadline h (s ∷ rest) p =
      let seen = through_state (enter h s) (through_enter h s p) in
      let again = wait_ready-keeps deadline (bus_state (enter h s)).0 rest seen in
      if-Always _
        (not (is_ok (bus_state (enter h s)).1)
          || (not (bus_state (enter h s)).0.waiting && s.ready)
          || leb deadline s.now)
        _ _ (λ stop. seen) (λ go. again)

  pub wait_complete-keeps :
      (deadline : ℕ) (h : Hid) (rest : List Slice)
      → P h
      → Always
          (λ h' e. P h' × (is_ok e ≡ true → h'.complete ≡ true))
          (wait_complete deadline h rest)
  unfolding wait_complete
  wait_complete-keeps deadline h [] p = tt
  wait_complete-keeps deadline h (s ∷ rest) p =
      let seen = through_state (enter h s) (through_enter h s p) in
      let again = wait_complete-keeps deadline (bus_state (enter h s)).0 rest seen in
      if-Always _ (not (is_ok (bus_state (enter h s)).1) || (bus_state (enter h s)).0.complete) _ _
        (λ stop. (seen, λ good. ground arith))
        (λ go.
          if-Always _ (not (bus_state (enter h s)).0.waiting) _ _
            (λ lost. (seen, λ good. absurd (ground arith)))
            (λ on.
              if-Always _ (leb deadline s.now) _ _ (λ late. (seen, λ good. absurd (ground arith)))
                (λ early. again)))
