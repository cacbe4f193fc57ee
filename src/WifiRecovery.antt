-- ===== src/WifiRecovery.antt =====
-- firmware/main/wifi_recovery.c: when the station task tries to reconnect, and how hard.
mod Pacing
mod Escalation
mod Tests
use remote_wake.Base.{
  ℕ, ◌+◌, ◌%◌, ◌^◌, Bool, false, true, List, [], ◌∷◌, Option, ltb, ◌==◌, if◌then◌else◌,
}

pub data Phase : Type 0 where
  wait attempt online : Phase

-- `none` asks for nothing, `connect` for a reconnect, `bounce` for a restart of the driver.
pub data Action : Type 0 where
  none connect bounce : Action

pub record Recovery : Type 0 where
  pub phase : Phase
  pub attempts : ℕ  -- uint32_t
  pub deadline_ms : ℕ  -- uint64_t

abbrev attempt_ms : ℕ
attempt_ms = 30000

abbrev bounce_every : ℕ
bounce_every = 6

abbrev u64 : ℕ → ℕ
u64 n = n % 2 ^ 64

retry_delay_ms : ℕ → ℕ
retry_delay_ms attempts = if ltb attempts 5 then 1000 else if ltb attempts 12 then 5000 else 10000

pub init : ℕ → Recovery
init now = record { phase = Phase.wait; attempts = 0; deadline_ms = now }

pub failed : Recovery → ℕ → Recovery
failed s now = record s { phase = Phase.wait; deadline_ms = u64 (now + retry_delay_ms s.attempts) }

-- `if (s->phase == RW_WIFI_ONLINE) rw_wifi_recovery_failed(s, now_ms)`
on_outage : Phase → Recovery → ℕ → Recovery
on_outage Phase.online s now = failed s now
on_outage _ s now = s

-- The rest of the step once the deadline has passed.
on_deadline : Phase → Recovery → ℕ → Recovery × Action
on_deadline Phase.attempt s now = (failed s now, Action.none)
on_deadline _ s now =
    let n = (s.attempts + 1) % 2 ^ 32 in
    (
      record { phase = Phase.attempt; attempts = n; deadline_ms = u64 (now + attempt_ms) },
      if n % bounce_every == 0 then Action.bounce else Action.connect,
    )

pub step : Recovery → ℕ → Bool → Recovery × Action
unfolding failed on_outage on_deadline retry_delay_ms
step s now has_ip =
    if has_ip
    then (record s { phase = Phase.online; attempts = 0 }, Action.none)
    else let t = on_outage s.phase s now in
      if ltb now t.deadline_ms then (t, Action.none) else on_deadline t.phase t now

abbrev pub is_asked : Action → Bool
is_asked Action.none = false
is_asked _ = true

-- A turn of the station task without an IP address, at a time: where the policy asks for something and
-- a call of the driver fails at once, `failure` is the time at which the task tells the policy.
pub record Turn : Type 0 where
  pub now : ℕ
  pub failure : Option ℕ

abbrev pub note_failure : Option ℕ → Recovery → Recovery
note_failure Option.none s = s
note_failure (Option.some at) s = failed s at

pub turn : Recovery → Turn → Recovery × Action
unfolding step failed
turn s p =
    let (t, action) = step s p.now false in
    (if is_asked action then note_failure p.failure t else t, action)

pub run_turns : Recovery → List Turn → Recovery
unfolding turn
run_turns s [] = s
run_turns s (p ∷ ps) = run_turns (turn s p).0 ps

-- The station task through an outage: one step at each time of the list.
pub run_offline : Recovery → List ℕ → Recovery
run_offline s [] = s
run_offline s (t ∷ ts) = run_offline (step s t false).0 ts

abbrev pub asked : Action → ℕ
asked Action.none = 0
asked _ = 1

abbrev pub bounced : Action → ℕ
bounced Action.bounce = 1
bounced _ = 0

-- How often a run of polls asks the driver for anything, and how often for a restart.
pub asks : Recovery → List ℕ → ℕ
asks s [] = 0
asks s (t ∷ ts) = asked (step s t false).1 + asks (step s t false).0 ts

pub bounces : Recovery → List ℕ → ℕ
bounces s [] = 0
bounces s (t ∷ ts) = bounced (step s t false).1 + bounces (step s t false).0 ts
