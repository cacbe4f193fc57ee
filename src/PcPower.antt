-- ===== src/PcPower.antt =====
-- firmware/main/pc_power.c and pc_power.h: from samples of the host's power LED to on, off or sleep.
mod Timing
mod Debounce
mod Blink
mod Tests
use remote_wake.Base.{
  ℕ, suc, ◌+◌, ◌-◌, differs, Bool, true, false, not, ◌&&◌, List, [], ◌∷◌, ltb, leb, if◌then◌else◌,
  codes,
}

abbrev pub debounce_ms : ℕ
debounce_ms = 50

abbrev pub steady_ms : ℕ
steady_ms = 5000

abbrev pub blink_edges : ℕ
blink_edges = 4

pub data Power : Type 0 where
  unknown off on sleep : Power

pub record Classifier : Type 0 where
  pub started : Bool
  pub level : Bool
  pub candidate : Bool
  pub candidate_ms : ℕ  -- uint64_t
  pub last_edge_ms : ℕ  -- uint64_t
  pub run : ℕ  -- uint8_t
  pub state : Power

pub init : Classifier
init = record {
  started = false;
  level = false;
  candidate = false;
  candidate_ms = 0;
  last_edge_ms = 0;
  run = 0;
  state = Power.unknown;
}

-- `if (lit != c->candidate)`
pub note_raw : Classifier → Bool → ℕ → Classifier
note_raw c lit now =
    if differs lit c.candidate then record c { candidate = lit; candidate_ms = now } else c

-- The accepted edge, dated from the raw change. Times do not go backwards, so `-` is exact.
pub accept_edge : Classifier → ℕ → Classifier
accept_edge c now =
    if differs c.candidate c.level && leb debounce_ms (now - c.candidate_ms)
    then (let run = if leb steady_ms (c.candidate_ms - c.last_edge_ms) then 0 else c.run in
        record c {
          level = c.candidate;
          last_edge_ms = c.candidate_ms;
          run = if ltb run 255 then run + 1 else run;
        })
    else c

pub decide : Classifier → ℕ → Classifier
decide c now =
    if not (differs c.candidate c.level) && leb steady_ms (now - c.last_edge_ms)
    then record c { run = 0; state = if c.level then Power.on else Power.off }
    else if leb blink_edges c.run
    then record c { state = Power.sleep }
    else c

-- The value that the C function returns is the `state` of the new classifier.
pub step : Classifier → Bool → ℕ → Classifier
unfolding note_raw accept_edge decide
step c lit now = if c.started then decide (accept_edge (note_raw c lit now) now) now else record c {
  started = true;
  level = lit;
  candidate = lit;
  candidate_ms = now;
  last_edge_ms = now;
}

pub power_name : Power → List ℕ
power_name Power.off = codes "off"
power_name Power.on = codes "on"
power_name Power.sleep = codes "sleep"
power_name Power.unknown = codes "unknown"

-- A sequence of samples, each a level and its time.
pub run_samples : Classifier → List (Bool × ℕ) → Classifier
run_samples c [] = c
run_samples c ((lit, t) ∷ ss) = run_samples (step c lit t) ss
