-- ===== src/Relay/Link/Tests.antt =====
-- The link through one session and a loss of the network.
use remote_wake.Base.{◌≡◌, refl, true, false, List, [], ◌∷◌, arith}
use remote_wake.Relay.Link.{
  Shared, Access, boot, access, run, session_valid, notify_network, connected, notifies, begins,
  receives, readies, fails,
}
use remote_wake.Relay.Link.Fence.{network_loss_fences, session_ends_once}

abbrev opening : List Access
opening = notifies true ∷ begins ∷ receives 1 connected 500 ∷ readies 1 ∷ []

abbrev up : Shared
unfolding run boot
up = run boot opening

up_valid : session_valid up.link 1 ≡ true
unfolding up session_valid
up_valid = refl

abbrev regained : List Access
regained = notifies true ∷ receives 1 connected 900 ∷ begins ∷ receives 2 connected 950 ∷ []

network_loss_fences_example : session_valid (run (notify_network up false) regained).link 1 ≡ false
unfolding up
network_loss_fences_example = network_loss_fences up 1 regained (omega arith) (omega arith)

session_ends_once_example : session_valid (run up (fails ∷ regained)).link 1 ≡ false
unfolding up session_valid
session_ends_once_example =
    session_ends_once up 1 fails regained (omega arith) (omega arith) refl (unfold access in refl)
