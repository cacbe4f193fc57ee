-- ===== src/WifiRecovery/Pacing.antt =====
-- How long the recovery policy waits: never too long, never too short.
use remote_wake.Base.{
  ℕ, ◌+◌, ◌^◌, ◌≤◌, ◌<◌, ◌≡◌, ◌≢◌, refl, sym, subst, true, false, List, [], ◌∷◌, Option, none, some,
  leb, if◌then◌else◌, All, arith,
}
use remote_wake.WifiRecovery.{
  Phase, Action, Recovery, init, step, failed, is_asked, Turn, note_failure, turn, run_turns,
}

-- No 64-bit time of the model wraps for this long.
abbrev pub IsClock : ℕ → Type 0
IsClock t = t < 2 ^ 63

-- A deadline that is never more than one attempt away, as every reachable state has.
abbrev pub IsTimed : Recovery → ℕ → Type 0
IsTimed s now = s.deadline_ms ≤ now + 30000

init-IsTimed : (now : ℕ) → IsTimed (init now) now
unfolding init
init-IsTimed now = omega arith

failed-IsTimed : (s : Recovery) (now : ℕ) → IsClock now → IsTimed (failed s now) now
unfolding failed step
failed-IsTimed s now c = ground arith

step_offline-IsTimed :
    (s : Recovery) (t now : ℕ)
    → IsClock now
    → t ≤ now
    → IsTimed s t
    → IsTimed (step s now false).0 now
unfolding step
step_offline-IsTimed s t now c le h = ground arith

-- Nothing may be asked of the driver before `limit` ms.
record IsQuiet (s : Recovery) (limit : ℕ) : Type 0 where
  in_attempt : s.phase ≡ Phase.attempt → limit ≤ s.deadline_ms + 1000
  waiting : s.phase ≡ Phase.wait → limit ≤ s.deadline_ms
  offline : s.phase ≢ Phase.online

step-IsQuiet :
    (s : Recovery) (limit t : ℕ)
    → IsClock t
    → t < limit
    → IsQuiet s limit
    → IsQuiet (step s t false).0 limit × ((step s t false).1 ≡ Action.none)
unfolding step
step-IsQuiet s limit t c h q = ground arith

-- The pause after a call of the driver that fails at once, by the attempts since the outage began: one
-- second after each of the first four, five seconds up to the eleventh, and then ten.
abbrev pub pause : ℕ → ℕ
pause n = if leb 12 n then 10000 else if leb 5 n then 5000 else 1000

-- When the driver may be asked again after a turn at `start` that asked it, with the attempts then.
abbrev pub again_at : ℕ → ℕ → Option ℕ → ℕ
again_at start attempts none = start + 31000
again_at start attempts (some at) = at + pause attempts

abbrev pub IsLater : ℕ → Option ℕ → Type 0
IsLater start none = IsClock start
IsLater start (some at) = (start ≤ at) × IsClock at

failed-IsQuiet :
    (s : Recovery) (at : ℕ) → IsClock at → IsQuiet (failed s at) (at + pause s.attempts)
unfolding step
failed-IsQuiet s at c = ground arith

asked-IsQuiet :
    (s : Recovery) (t : ℕ) (failure : Option ℕ)
    → IsLater t failure
    → (step s t false).1 ≢ Action.none
    → let u = (step s t false).0 in IsQuiet (note_failure failure u) (again_at t u.attempts failure)
unfolding step
asked-IsQuiet s t none c h = ground arith
asked-IsQuiet s t (some at) c h = failed-IsQuiet (step s t false).0 at c.1

is_asked-true : (a : Action) → a ≢ Action.none → is_asked a ≡ true
is_asked-true Action.none h = absurd (h refl)
is_asked-true Action.connect h = refl
is_asked-true Action.bounce h = refl

attempts-note_failure :
    (failure : Option ℕ) (s : Recovery) → (note_failure failure s).attempts ≡ s.attempts
unfolding step
attempts-note_failure none s = refl
attempts-note_failure (some at) s = refl

turn-asked :
    (s : Recovery) (p : Turn)
    → (turn s p).1 ≢ Action.none
    → (turn s p).0 ≡ note_failure p.failure (step s p.now false).0
unfolding turn
turn-asked s p asks = rw (is_asked-true (step s p.now false).1 asks) refl

turn_asked-IsQuiet :
    (s : Recovery) (p : Turn)
    → IsLater p.now p.failure
    → (turn s p).1 ≢ Action.none
    → IsQuiet (turn s p).0 (again_at p.now (turn s p).0.attempts p.failure)
turn_asked-IsQuiet s p later asks =
    let u = (step s p.now false).0 in
    subst (λ (v : Recovery). IsQuiet v (again_at p.now v.attempts p.failure))
      (sym (turn-asked s p asks))
      (subst (λ n. IsQuiet (note_failure p.failure u) (again_at p.now n p.failure))
        (sym (attempts-note_failure p.failure u))
        (asked-IsQuiet s p.now p.failure later (unfold turn in asks)))

abbrev pub Before : ℕ → ℕ → Type 0
Before limit t = IsClock t × (t < limit)

turn-IsQuiet :
    (s : Recovery) (limit : ℕ) (p : Turn)
    → Before limit p.now
    → IsQuiet s limit
    → IsQuiet (turn s p).0 limit × ((turn s p).1 ≡ Action.none)
unfolding turn
turn-IsQuiet s limit p before q =
    let (on, none_asked) = step-IsQuiet s limit p.now before.0 before.1 q in
    (rw none_asked on, none_asked)

IsQuiet-run :
    (s : Recovery) (limit : ℕ) (ps : List Turn)
    → All (λ (p : Turn). Before limit p.now) ps
    → IsQuiet s limit
    → IsQuiet (run_turns s ps) limit
unfolding run_turns
IsQuiet-run s limit [] a q = q
IsQuiet-run s limit (p ∷ ps) a q =
    IsQuiet-run (turn s p).0 limit ps a.1 (turn-IsQuiet s limit p a.0 q).0

-- Attempts are spaced in an outage. After a turn of the station task that has asked the driver to
-- reconnect or restart, no turn before a limit asks it again, whatever turns came between: where the
-- call of the driver did not fail at once, the limit is 31 seconds after the turn; where it did, it
-- is one second after the failure for each of the first four attempts of the outage, five seconds
-- up to the eleventh, and then ten seconds.
pub attempts_spaced :
    (s : Recovery) (asking : Turn) (between : List Turn) (next : Turn)
    → IsLater asking.now asking.failure
    → (turn s asking).1 ≢ Action.none
    → let after = (turn s asking).0 in
      let limit = again_at asking.now after.attempts asking.failure in
      All (λ (p : Turn). Before limit p.now) between
      → Before limit next.now
      → (turn (run_turns after between) next).1 ≡ Action.none
attempts_spaced s asking between next later asks a b =
    let after = (turn s asking).0 in
    let limit = again_at asking.now after.attempts asking.failure in
    (turn-IsQuiet (run_turns after between) limit next b
      (IsQuiet-run after limit between a (turn_asked-IsQuiet s asking later asks))).1
