-- ===== src/Relay/Lockout/Window.antt =====
-- The ring of times is a sliding window over the failures.
use remote_wake.Base.{
  ℕ, zero, suc, ◌+◌, ◌-◌, ◌*◌, ◌%◌, ◌<◌, ◌≡◌, ◌≢◌, refl, sym, inl, inr, Bool, not, ◌&&◌, List, [],
  ◌∷◌, ltb, leb, ◌==◌, if◌then◌else◌, set, get_or, length, length-set, get_or-set_self,
  get_or-set_ne, length-replicate, get_or-replicate, ap, ◌∙◌, All, Bool-cases, arith,
}
use native.Mathlib.Nat.{mod-eq_of_lt, mod_self}
use remote_wake.Relay.Lockout.{Lockout, boot, note_auth_failure, note_all}

-- The specification: all failures since the last lockout, the newest first.
pub record Window : Type 0 where
  pub recent : List ℕ
  pub lock_until : ℕ

module _ (threshold lockout_sec : ℕ) where
  -- A failure at `now` locks if it and the failures before it make `threshold` within 60 seconds.
  unfoldable pub spec_note : Window → ℕ → Window
  spec_note w now =
      let recent = now ∷ w.recent in
      if leb threshold (length recent) && leb (now - get_or recent (threshold - 1) 0) 60000000
      then record { recent = []; lock_until = now + lockout_sec * 1000000 }
      else record w { recent = recent }

  unfoldable pub spec_all : Window → List ℕ → Window
  unfolding spec_note
  spec_all w [] = w
  spec_all w (now ∷ times) = spec_all (spec_note w now) times

  -- Where the ring keeps the failure that is `k` before the newest.
  place : ℕ → ℕ → ℕ
  place head k = if ltb k head then head - 1 - k else head + threshold - 1 - k

  record Represents (s : Lockout) (w : Window) : Type 0 where
    size : length s.fail_ts ≡ threshold
    head_fits : s.fail_head < threshold
    entries :
        (k : ℕ) → k < threshold → get_or s.fail_ts (place s.fail_head k) 0 ≡ get_or w.recent k 0
    same_lock : s.lock_until_us ≡ w.lock_until
    positive : All (λ t. 0 < t) w.recent

  next_head :
      (h : ℕ) → h < threshold → (h + 1) % threshold ≡ (if h + 1 == threshold then 0 else h + 1)
  next_head h lt = elim (Bool-cases (h + 1 == threshold)) [
    | inl e ↦ let same : h + 1 ≡ threshold = ground arith in rw (e, same) (mod_self threshold)
    | inr e ↦ let less : h + 1 < threshold = ground arith in rw e (mod-eq_of_lt less)
  ]

  place_newest : (h : ℕ) → h < threshold → place ((h + 1) % threshold) 0 ≡ h
  unfolding place
  place_newest h lt = ground (arith, next_head h lt)

  place_older :
      (h k : ℕ)
      → h < threshold
      → suc k < threshold
      → place ((h + 1) % threshold) (suc k) ≡ place h k
  unfolding place
  place_older h k lt le = ground (arith, next_head h lt)

  place_oldest : (h : ℕ) → h < threshold → place h (threshold - 1) ≡ h
  unfolding place
  place_oldest h lt = ground arith

  place-ne : (h k : ℕ) → h < threshold → suc k < threshold → h ≢ place h k
  unfolding place
  place-ne h k lt le = ground arith

  -- The ring after a write holds the failures with the new one in front.
  entries_after :
      (s : Lockout) (w : Window) (now k : ℕ)
      → Represents s w
      → k < threshold
      → get_or (set s.fail_ts s.fail_head now) (place ((s.fail_head + 1) % threshold) k) 0
        ≡ get_or (now ∷ w.recent) k 0
  entries_after s w now zero r lt =
      rw (place_newest s.fail_head r.head_fits)
        (get_or-set_self s.fail_ts s.fail_head now 0 (omega (arith, r)))
  entries_after s w now (suc k) r lt = rw (place_older s.fail_head k r.head_fits lt) (
      get_or-set_ne s.fail_ts s.fail_head (place s.fail_head k) now 0
        (place-ne s.fail_head k r.head_fits lt)
      ∙ r.entries k (omega arith))

  oldest_after :
      (s : Lockout) (w : Window) (now : ℕ)
      → Represents s w
      → get_or (set s.fail_ts s.fail_head now) ((s.fail_head + 1) % threshold) 0
        ≡ get_or (now ∷ w.recent) (threshold - 1) 0
  oldest_after s w now r =
      let h = (s.fail_head + 1) % threshold in
      let fits : h < threshold = ground (arith, next_head s.fail_head, r.head_fits) in
      ap (λ (i : ℕ). get_or (set s.fail_ts s.fail_head now) i 0) (sym (place_oldest h fits))
      ∙ entries_after s w now (threshold - 1) r (omega (arith, r))

  -- An entry is missing exactly where its place reads 0.
  missing_reads_zero :
      (l : List ℕ) (k : ℕ) → All (λ t. 0 < t) l → (get_or l k 0 == 0) ≡ leb (length l) k
  missing_reads_zero [] k p = ground arith
  missing_reads_zero (t ∷ l) zero p = ground arith
  missing_reads_zero (t ∷ l) (suc k) p = ground (arith, missing_reads_zero l k p.1)

  boot-Represents :
      0 < threshold
      → Represents (boot threshold lockout_sec) (record { recent = []; lock_until = 0 })
  unfolding boot
  boot-Represents pos = record {
    size = length-replicate threshold 0;
    head_fits = pos;
    entries = λ k lt. get_or-replicate threshold (place 0 k) 0;
    same_lock = refl;
    positive = tt;
  }

  code_locks : Lockout → ℕ → Bool
  code_locks s now =
      let oldest = get_or (set s.fail_ts s.fail_head now) ((s.fail_head + 1) % threshold) 0 in
      not (oldest == 0) && leb (now - oldest) 60000000

  spec_locks : Window → ℕ → Bool
  spec_locks w now =
      leb threshold (length (now ∷ w.recent))
      && leb (now - get_or (now ∷ w.recent) (threshold - 1) 0) 60000000

  same_test :
      (s : Lockout) (w : Window) (now : ℕ)
      → 0 < now
      → Represents s w
      → code_locks s now ≡ spec_locks w now
  unfolding code_locks spec_locks
  same_test s w now pos r = rw (oldest_after s w now r) (
      ground
        (arith, missing_reads_zero (now ∷ w.recent) (threshold - 1) (pos, r.positive), r.head_fits))

  note-Represents :
      (s : Lockout) (w : Window) (now : ℕ)
      → 0 < now
      → Represents s w
      → Represents (note_auth_failure threshold lockout_sec s now) (spec_note w now)
  unfolding note_auth_failure spec_note code_locks spec_locks
  note-Represents s w now pos r = elim (Bool-cases (spec_locks w now)) [
    | inl e ↦
        rw (e, same_test s w now pos r ∙ e)
          (record {
            size = length-replicate threshold 0;
            head_fits = omega (arith, r.head_fits);
            entries = λ k lt. get_or-replicate threshold (place 0 k) 0;
            same_lock = refl;
            positive = tt;
          })
    | inr e ↦
        rw (e, same_test s w now pos r ∙ e)
          (record {
            size = length-set s.fail_ts s.fail_head now ∙ r.size;
            head_fits = ground (arith, next_head s.fail_head, r.head_fits);
            entries = λ k lt. entries_after s w now k r lt;
            same_lock = r.same_lock;
            positive = (pos, r.positive);
          })
  ]

  note_all-Represents :
      (times : List ℕ) (s : Lockout) (w : Window)
      → All (λ t. 0 < t) times
      → Represents s w
      → Represents (note_all threshold lockout_sec s times) (spec_all w times)
  unfolding note_all spec_all
  note_all-Represents [] s w pos r = r
  note_all-Represents (now ∷ times) s w (p, later) r =
      note_all-Represents times (note_auth_failure threshold lockout_sec s now) (spec_note w now)
        later (note-Represents s w now p r)

-- The ring of a positive number of times, started from boot and given any failures at positive times,
-- locks exactly when, and until exactly the time that, the sliding window of all failures does.
pub lockout_window :
    (threshold lockout_sec : ℕ) (times : List ℕ)
    → 0 < threshold
    → All (λ t. 0 < t) times
    → (note_all threshold lockout_sec (boot threshold lockout_sec) times).lock_until_us
      ≡ (spec_all threshold lockout_sec (record { recent = []; lock_until = 0 }) times).lock_until
lockout_window threshold lockout_sec times some_place pos =
    (note_all-Represents threshold lockout_sec times (boot threshold lockout_sec)
      (record { recent = []; lock_until = 0 }) pos
      (boot-Represents threshold lockout_sec some_place)).same_lock
