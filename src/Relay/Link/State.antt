-- ===== src/Relay/Link/State.antt =====
-- Which states of the link can be reached.
use remote_wake.Base.{◌≡◌, ◌≢◌, true, false, List, [], ◌∷◌, arith}
use remote_wake.Relay.Link.{
  Shared, Access, boot, access, run, connected, ended, other, frame, fails, begins, tears_down,
  notifies, receives, readies,
}

-- A link that is connected or ready has its network and has not failed, and without a network there
-- is neither.
pub record IsSound (s : Shared) : Type 0 where
  pub connected_live : s.connected ≡ true → (s.net_up ≡ true) × (s.failed ≡ false) × (s.session ≢ 0)
  pub ready_live : s.ready ≡ true → (s.net_up ≡ true) × (s.failed ≡ false)

access-IsSound : (s : Shared) (a : Access) → IsSound s → IsSound (access s a)
unfolding access
access-IsSound s fails h = ground arith
access-IsSound s begins h = ground arith
access-IsSound s tears_down h = ground arith
access-IsSound s (notifies up) h = ground arith
access-IsSound s (receives session connected now) h = ground arith
access-IsSound s (receives session ended now) h = ground arith
access-IsSound s (receives session other now) h = ground arith
access-IsSound s (receives session (frame op code) now) h = ground arith
access-IsSound s (readies session) h = ground arith

boot-IsSound : IsSound boot
unfolding boot
boot-IsSound = ground arith

run_from-IsSound : (s : Shared) (trace : List Access) → IsSound s → IsSound (run s trace)
unfolding run
run_from-IsSound s [] h = h
run_from-IsSound s (a ∷ rest) h = run_from-IsSound (access s a) rest (access-IsSound s a h)

-- From boot on, after any accesses of the three tasks in any order, a link that is connected or that
-- `rw_relay_connected` reports has its network up and no failure, and a connected one has a session.
pub run-IsSound : (trace : List Access) → IsSound (run boot trace)
run-IsSound trace = run_from-IsSound boot trace boot-IsSound
