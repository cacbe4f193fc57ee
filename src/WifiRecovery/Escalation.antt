-- ===== src/WifiRecovery/Escalation.antt =====
-- Which attempts restart the driver.
use remote_wake.Base.{ℕ, suc, ◌+◌, ◌/◌, ◌^◌, ◌<◌, ◌≡◌, false, List, [], ◌∷◌, length, arith}
use remote_wake.WifiRecovery.{Recovery, asked, bounced, asks, bounces, step, run_offline}

step-attempts :
    (s : Recovery) (t : ℕ)
    → suc s.attempts < 2 ^ 32
    → ((step s t false).0.attempts ≡ s.attempts + asked (step s t false).1)
      × ((step s t false).0.attempts / 6 ≡ s.attempts / 6 + bounced (step s t false).1)
unfolding step
step-attempts s t h = ground arith

run-attempts :
    (s : Recovery) (ts : List ℕ)
    → s.attempts + length ts < 2 ^ 32
    → ((run_offline s ts).attempts ≡ s.attempts + asks s ts)
      × (s.attempts / 6 + bounces s ts ≡ (s.attempts + asks s ts) / 6)
unfolding run_offline asks bounces
run-attempts s [] h = omega arith
run-attempts s (t ∷ ts) h =
    let now = step-attempts s t (omega arith) in
    let rest = run-attempts (step s t false).0 ts (ground (arith, now)) in omega (arith, now, rest)

-- Through an outage that began online or at boot, the attempt counter counts what was asked of the
-- driver, and exactly every sixth request is a restart, however the polls are timed.
every_sixth_bounces :
    (s : Recovery) (ts : List ℕ)
    → s.attempts ≡ 0
    → length ts < 2 ^ 32
    → ((run_offline s ts).attempts ≡ asks s ts) × (bounces s ts ≡ asks s ts / 6)
every_sixth_bounces s ts z h = omega (arith, run-attempts s ts (omega arith))
