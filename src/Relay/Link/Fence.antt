-- ===== src/Relay/Link/Fence.antt =====
-- A session that has ended stays ended.
use remote_wake.Base.{ℕ, suc, ◌+◌, ◌≤◌, ◌<◌, ◌^◌, ◌≡◌, ◌≢◌, ◌⊎◌, true, false, List, [], ◌∷◌, arith}
use remote_wake.Relay.Link.{
  Shared, Access, access, run, session_valid, notify_network, connected, ended, other, frame, fails,
  begins, tears_down, notifies, receives, readies,
}

-- How many sessions a run begins.
abbrev pub begun : List Access → ℕ
begun [] = 0
begun (begins ∷ rest) = suc (begun rest)
begun (_ ∷ rest) = begun rest

abbrev begins_now : Access → ℕ
begins_now begins = 1
begins_now _ = 0

-- The session is over, and its number has been given out.
record IsOver (s : Shared) (session : ℕ) : Type 0 where
  over : (s.session ≢ session) ⊎ (s.failed ≡ true)
  given : session ≤ s.next_session

access-IsOver :
    (s : Shared) (session : ℕ) (a : Access)
    → s.next_session + begins_now a < 2 ^ 32
    → IsOver s session
    → IsOver (access s a) session × ((access s a).next_session ≡ s.next_session + begins_now a)
unfolding access
access-IsOver s session fails n h = ground arith
access-IsOver s session begins n h = ground arith
access-IsOver s session tears_down n h = ground arith
access-IsOver s session (notifies up) n h = ground arith
access-IsOver s session (receives k connected now) n h = ground arith
access-IsOver s session (receives k ended now) n h = ground arith
access-IsOver s session (receives k other now) n h = ground arith
access-IsOver s session (receives k (frame op code) now) n h = ground arith
access-IsOver s session (readies k) n h = ground arith

begun-cons : (a : Access) (rest : List Access) → begun (a ∷ rest) ≡ begins_now a + begun rest
begun-cons begins rest = omega arith
begun-cons fails rest = omega arith
begun-cons tears_down rest = omega arith
begun-cons (notifies up) rest = omega arith
begun-cons (receives k e now) rest = omega arith
begun-cons (readies k) rest = omega arith

run-IsOver :
    (s : Shared) (session : ℕ) (trace : List Access)
    → s.next_session + begun trace < 2 ^ 32
    → IsOver s session
    → IsOver (run s trace) session
unfolding run
run-IsOver s session [] n h = h
run-IsOver s session (a ∷ rest) n h =
    let one = access-IsOver s session a (omega (arith, begun-cons a rest)) h in
    run-IsOver (access s a) session rest (omega (arith, begun-cons a rest, one.1)) one.0

over-invalid : (s : Shared) (session : ℕ) → IsOver s session → session_valid s.link session ≡ false
unfolding session_valid
over-invalid s session h = ground arith

-- A message that was received before the network went down is never served: after
-- `rw_relay_notify_network(false)` no session begun so far is valid again, whatever the three tasks
-- do afterwards, the return of the network included, until 2 ^ 32 sessions have been begun.
pub network_loss_fences :
    (s : Shared) (session : ℕ) (trace : List Access)
    → session ≤ s.next_session
    → s.next_session + begun trace < 2 ^ 32
    → session_valid (run (notify_network s false) trace).link session ≡ false
network_loss_fences s session trace given n =
    over-invalid (run (notify_network s false) trace) session (
      run-IsOver (notify_network s false) session trace (unfold notify_network in n)
        (lost s session given))
  where
    lost :
        (s : Shared) (session : ℕ)
        → session ≤ s.next_session
        → IsOver (notify_network s false) session
    lost s session given = unfold notify_network in ground arith

ended-IsOver :
    (s : Shared) (session : ℕ) (a : Access)
    → session ≤ s.next_session
    → s.next_session + begins_now a < 2 ^ 32
    → session_valid s.link session ≡ true
    → session_valid (access s a).link session ≡ false
    → IsOver (access s a) session
unfolding access session_valid
ended-IsOver s session fails g n v e = ground arith
ended-IsOver s session begins g n v e = ground arith
ended-IsOver s session tears_down g n v e = ground arith
ended-IsOver s session (notifies up) g n v e = ground arith
ended-IsOver s session (receives k connected now) g n v e = ground arith
ended-IsOver s session (receives k ended now) g n v e = ground arith
ended-IsOver s session (receives k other now) g n v e = ground arith
ended-IsOver s session (receives k (frame op code) now) g n v e = ground arith
ended-IsOver s session (readies k) g n v e = ground arith

access-next :
    (s : Shared) (a : Access)
    → s.next_session + begins_now a < 2 ^ 32
    → (access s a).next_session ≡ s.next_session + begins_now a
unfolding access
access-next s fails n = ground arith
access-next s begins n = ground arith
access-next s tears_down n = ground arith
access-next s (notifies up) n = ground arith
access-next s (receives k e now) n = ground arith
access-next s (readies k) n = ground arith

-- Validity is never regained: an access that ends a valid session ends it for good, whatever comes
-- after it, until 2 ^ 32 sessions have been begun.
pub session_ends_once :
    (s : Shared) (session : ℕ) (a : Access) (trace : List Access)
    → session ≤ s.next_session
    → s.next_session + begun (a ∷ trace) < 2 ^ 32
    → session_valid s.link session ≡ true
    → session_valid (access s a).link session ≡ false
    → session_valid (run s (a ∷ trace)).link session ≡ false
unfolding run
session_ends_once s session a trace g n v e =
    let over = ended-IsOver s session a g (omega (arith, begun-cons a trace)) v e in
    let next = access-next s a (omega (arith, begun-cons a trace)) in
    over-invalid (run (access s a) trace) session
      (run-IsOver (access s a) session trace (omega (arith, begun-cons a trace, next)) over)
