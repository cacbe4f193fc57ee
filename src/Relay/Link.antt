-- ===== src/Relay/Link.antt =====
-- The link state of firmware/main/relay_client.c, which the Wi-Fi, WebSocket and relay tasks share.
-- Each operation is one critical section of `s_state_mux`.
pub mod Fence
pub mod State
mod Tests
use remote_wake.Base.{
  ℕ, ◌+◌, ◌%◌, ◌*◌, ◌^◌, Bool, true, false, not, ◌&&◌, ◌||◌, differs, List, [], ◌∷◌, Option, some,
  none, leb, ◌==◌, if◌then◌else◌,
}

pub record Link : Type 0 where
  pub net_up : Bool
  pub connected : Bool
  pub ready : Bool
  pub failed : Bool
  pub network_generation : ℕ  -- uint32_t
  pub session_network_generation : ℕ  -- uint32_t
  pub session : ℕ  -- uint32_t
  pub last_rx_us : ℕ  -- int64_t, from a clock that starts at 0
  pub close_code : ℕ

-- `s_link` and `s_next_session`.
pub record Shared : Type 0 where
  pub link : Link
  pub open link use *
  pub next_session : ℕ  -- uint32_t

unfoldable pub boot : Shared
boot = record {
  link = record {
    net_up = false;
    connected = false;
    ready = false;
    failed = false;
    network_generation = 0;
    session_network_generation = 0;
    session = 0;
    last_rx_us = 0;
    close_code = 0;
  };
  next_session = 0;
}

unfoldable pub session_valid : Link → ℕ → Bool
session_valid l session =
    not (session == 0)
    && (l.session == session)
    && l.net_up
    && (l.session_network_generation == l.network_generation)
    && l.connected
    && not l.failed

unfoldable pub link_failed : Shared → Shared
link_failed s = record s {
  link = record (s.link) { connected = false; ready = false; failed = true };
}

-- `if (++s_next_session == 0) ++s_next_session`
unfoldable pub bump_session : ℕ → ℕ
bump_session n = if (n + 1) % 2 ^ 32 == 0 then 1 else (n + 1) % 2 ^ 32

-- The session that it returns is the `next_session` of the new state.
unfoldable pub begin_session : Shared → Shared
unfolding bump_session
begin_session s = record s {
  link = record (s.link) {
    session = bump_session s.next_session;
    session_network_generation = s.network_generation;
    connected = false;
    ready = false;
    failed = not s.net_up;
    close_code = 0;
    last_rx_us = 0;
  };
  next_session = bump_session s.next_session;
}

unfoldable pub notify_network : Shared → Bool → Shared
notify_network s up =
    let generation =
      if differs s.net_up up then (s.network_generation + 1) % 2 ^ 32 else s.network_generation in
    record s {
      link = record (s.link) {
        network_generation = generation;
        net_up = up;
        connected = if up then s.connected else false;
        ready = if up then s.ready else false;
        failed = if up then s.failed else true;
      };
    }

-- What a WebSocket event carries for the link: a data frame has an opcode, and a close frame that
-- is complete has a code.
pub data Event : Type 0 where
  connected ended other : Event
  frame : ℕ → Option ℕ → Event

abbrev close_code_of : Option ℕ → ℕ → ℕ
close_code_of none code = code
close_code_of (some new) code = new

-- The `switch` in the critical section of `ws_event_handler`.
unfoldable pub on_event : Link → Event → ℕ → Link
on_event l connected now = record l { close_code = 0; last_rx_us = now; connected = true }
on_event l ended now = record l { connected = false; ready = false; failed = true }
on_event l (frame op code) now =
    if l.connected
    then if op == 8
      then record l {
        last_rx_us = now;
        close_code = close_code_of code l.close_code;
        connected = false;
        ready = false;
        failed = true;
      }
      else record l { last_rx_us = now }
    else l
on_event l other now = l

-- `current` in `ws_event_handler`: an event of the session that is open, on the network it began on.
unfoldable pub is_current : Link → ℕ → Bool
is_current l session =
    not (session == 0)
    && (l.session == session)
    && l.net_up
    && (l.session_network_generation == l.network_generation)
    && not l.failed

unfoldable pub ws_event : Shared → ℕ → Event → ℕ → Shared
unfolding on_event is_current
ws_event s session e now =
    if is_current s.link session then record s { link = on_event s.link e now } else s

-- `ready`, once the hello has been sent.
unfoldable pub mark_ready : Shared → ℕ → Shared
mark_ready s session =
    if (s.session == session) && s.net_up && not s.failed
    then record s { link = record (s.link) { ready = true } }
    else s

-- The fence of `teardown_client`.
unfoldable pub teardown : Shared → Shared
teardown s = record s {
  link = record (s.link) { session = 0; connected = false; ready = false; failed = true };
}

-- Every access of the three tasks, in any order.
pub data Access : Type 0 where
  fails begins tears_down : Access
  notifies : Bool → Access
  receives : ℕ → Event → ℕ → Access
  readies : ℕ → Access

unfoldable pub access : Shared → Access → Shared
unfolding link_failed begin_session notify_network ws_event mark_ready teardown
access s fails = link_failed s
access s begins = begin_session s
access s tears_down = teardown s
access s (notifies up) = notify_network s up
access s (receives session e now) = ws_event s session e now
access s (readies session) = mark_ready s session

unfoldable pub run : Shared → List Access → Shared
unfolding access
run s [] = s
run s (a ∷ rest) = run (access s a) rest
