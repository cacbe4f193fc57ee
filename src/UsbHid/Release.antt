-- ===== src/UsbHid/Release.antt =====
-- What the bookkeeping of firmware/main/usb_hid.c says of the reports: the invariant `IsSafe`, kept by
-- the callbacks and by every call that sends reports.
use remote_wake.Base.{ℕ, ◌≡◌, ◌⊎◌, refl, ◌∙◌, Bool, true, false, List, [], ◌∷◌, All, arith}
use remote_wake.UsbHid.State.{
  Callback, Slice, Handed, Hid, neutral, on_complete, on_failed, lifecycle_event, on_callback,
  on_callbacks, enter, bus_state,
}
use remote_wake.UsbHid.Chains.{IsKept}

-- A report that presses something was handed over when no release was owed.
abbrev pub IsGuarded : Handed → Type 0
IsGuarded e = (neutral e.report ≡ true) ⊎ (e.clear ≡ true)

-- The last report is neutral, and the bus has completed it.
abbrev pub IsReleased : Hid → Type 0
IsReleased h = (h.acked ≡ true) × (neutral h.expected ≡ true)

pub record IsSafe (h : Hid) : Type 0 where
  pub completes : h.complete ≡ true → h.acked ≡ true
  pub claims : h.neutral_done ≡ true → IsReleased h
  pub clears : h.need_release ≡ false → IsReleased h
  pub guarded : All IsGuarded h.log

on_complete-IsSafe :
    (h : Hid) (n : ℕ) (report : List ℕ) → IsSafe h → IsSafe (on_complete h n report)
unfolding on_complete
on_complete-IsSafe h n report safe = record {
  completes = let old = safe.completes in ground arith;
  claims = let old = safe.claims in ground arith;
  clears = let old = safe.clears in ground arith;
  guarded = let old = safe.guarded in ground arith;
}

on_failed-IsSafe : (h : Hid) (n : ℕ) (input : Bool) → IsSafe h → IsSafe (on_failed h n input)
unfolding on_failed
on_failed-IsSafe h n input safe = record {
  completes = let old = safe.completes in ground arith;
  claims = let old = safe.claims in ground arith;
  clears = let old = safe.clears in ground arith;
  guarded = let old = safe.guarded in ground arith;
}

lifecycle_event-IsSafe :
    (h : Hid) (reset mounts : Bool) → IsSafe h → IsSafe (lifecycle_event h reset mounts)
unfolding lifecycle_event
lifecycle_event-IsSafe h reset mounts safe = record {
  completes = let old = safe.completes in ground arith;
  claims = let old = safe.claims in ground arith;
  clears = let old = safe.clears in ground arith;
  guarded = let old = safe.guarded in ground arith;
}

on_callback-IsSafe : (h : Hid) (c : Callback) → IsSafe h → IsSafe (on_callback h c)
unfolding on_callback
on_callback-IsSafe h (Callback.completed n report) safe = on_complete-IsSafe h n report safe
on_callback-IsSafe h (Callback.failed n input) safe = on_failed-IsSafe h n input safe
on_callback-IsSafe h Callback.mounted safe = lifecycle_event-IsSafe h true true safe
on_callback-IsSafe h Callback.unmounted safe = lifecycle_event-IsSafe h true false safe
on_callback-IsSafe h Callback.suspended safe = lifecycle_event-IsSafe h false false safe
on_callback-IsSafe h Callback.resumed safe = lifecycle_event-IsSafe h false false safe

pub on_callbacks-IsSafe : (h : Hid) (cs : List Callback) → IsSafe h → IsSafe (on_callbacks h cs)
unfolding on_callbacks
on_callbacks-IsSafe h [] safe = safe
on_callbacks-IsSafe h (c ∷ cs) safe =
    on_callbacks-IsSafe (on_callback h c) cs (on_callback-IsSafe h c safe)

enter-IsSafe : (h : Hid) (s : Slice) → IsSafe h → IsSafe (enter h s)
unfolding enter
enter-IsSafe h s safe =
    let done = on_callbacks-IsSafe h s.callbacks safe in
    record {
      completes = done.completes;
      claims = done.claims;
      clears = done.clears;
      guarded = done.guarded;
    }

bus_state-IsSafe : (h : Hid) → IsSafe h → IsSafe (bus_state h).0
unfolding bus_state
bus_state-IsSafe h safe = record {
  completes = let old = safe.completes in ground arith;
  claims = let old = safe.claims in ground arith;
  clears = let old = safe.clears in ground arith;
  guarded = let old = safe.guarded in ground arith;
}

-- What no callback changes: the debt, the report that is expected, and the log; and a completion
-- stays known.
pub record SameReports (g h : Hid) : Type 0 where
  pub debt : h.need_release ≡ g.need_release
  pub report : h.expected ≡ g.expected
  pub handed : h.log ≡ g.log
  pub known : g.acked ≡ true → h.acked ≡ true

pub on_callback-same : (h : Hid) (c : Callback) → SameReports h (on_callback h c)
unfolding on_callback on_complete on_failed lifecycle_event
on_callback-same h (Callback.completed n report) = record {
  debt = ground arith;
  report = ground arith;
  handed = ground arith;
  known = ground arith;
}
on_callback-same h (Callback.failed n input) = record {
  debt = ground arith;
  report = ground arith;
  handed = ground arith;
  known = ground arith;
}
on_callback-same h Callback.mounted = record {
  debt = refl;
  report = refl;
  handed = refl;
  known = λ k. k;
}
on_callback-same h Callback.unmounted = record {
  debt = refl;
  report = refl;
  handed = refl;
  known = λ k. k;
}
on_callback-same h Callback.suspended = record {
  debt = refl;
  report = refl;
  handed = refl;
  known = λ k. k;
}
on_callback-same h Callback.resumed = record {
  debt = refl;
  report = refl;
  handed = refl;
  known = λ k. k;
}

pub same_trans : {f g h : Hid} → SameReports f g → SameReports g h → SameReports f h
same_trans p q = record {
  debt = q.debt ∙ p.debt;
  report = q.report ∙ p.report;
  handed = q.handed ∙ p.handed;
  known = λ k. q.known (p.known k);
}

on_callbacks-same : (h : Hid) (cs : List Callback) → SameReports h (on_callbacks h cs)
unfolding on_callbacks
on_callbacks-same h [] = record { debt = refl; report = refl; handed = refl; known = λ k. k }
on_callbacks-same h (c ∷ cs) =
    same_trans (on_callback-same h c) (on_callbacks-same (on_callback h c) cs)

enter-same : (h : Hid) (s : Slice) → SameReports h (enter h s)
unfolding enter
enter-same h s =
    let done = on_callbacks-same h s.callbacks in
    record { debt = done.debt; report = done.report; handed = done.handed; known = done.known }

bus_state-same : (h : Hid) → SameReports h (bus_state h).0
unfolding bus_state
bus_state-same h = record {
  debt = ground arith;
  report = ground arith;
  handed = ground arith;
  known = ground arith;
}

-- Safe, and with the reports of an earlier moment.
pub record SafeSince (g h : Hid) : Type 0 where
  pub safe : IsSafe h
  pub same : SameReports g h

pub SafeSince-IsKept : (g : Hid) → IsKept (SafeSince g)
SafeSince-IsKept g = record {
  through_enter =
      λ h s p. record { safe = enter-IsSafe h s p.safe; same = same_trans p.same (enter-same h s) };
  through_state = λ h p. record {
    safe = bus_state-IsSafe h p.safe;
    same = same_trans p.same (bus_state-same h);
  };
}

pub since_start : {h : Hid} → IsSafe h → SafeSince h h
since_start safe = record {
  safe = safe;
  same = record { debt = refl; report = refl; handed = refl; known = λ k. k };
}
