-- ===== src/Watchdog.antt =====
-- The watchdog of the event loop (src/wayland/watchdog.c): the calls by which the loop reports its
-- progress, and one round of the thread that samples it. The clock's value is an argument.
pub mod Samples
mod Examples
use typiod_wayland.Prelude.{
  ℕ, ◌-◌, Bool, true, false, not, ◌&&◌, u32, ltb, leb, ◌==◌, if◌then◌else◌,
}

pub data LoopStage : Type 0 where
  idle : LoopStage
  panel_update : LoopStage
  prepare_read : LoopStage
  flush : LoopStage
  poll : LoopStage
  read_events : LoopStage
  dispatch_pending : LoopStage
  aux_io : LoopStage
  repeat : LoopStage
  config_reload : LoopStage

-- The value of the enumerator.
abbrev pub stage_code : LoopStage → ℕ
stage_code LoopStage.idle = 0
stage_code LoopStage.panel_update = 1
stage_code LoopStage.prepare_read = 2
stage_code LoopStage.flush = 3
stage_code LoopStage.poll = 4
stage_code LoopStage.read_events = 5
stage_code LoopStage.dispatch_pending = 6
stage_code LoopStage.aux_io = 7
stage_code LoopStage.repeat = 8
stage_code LoopStage.config_reload = 9

-- The atomics that the loop writes and the thread reads.
pub record Watchdog : Type 0 where
  pub heartbeat_ms : ℕ
  pub stage_since_ms : ℕ
  pub stop : Bool
  pub armed : Bool
  pub loop_stage : LoopStage

-- What the thread remembers of its last sample.
pub record LastSample : Type 0 where
  pub last_heartbeat_ms : ℕ
  pub last_stage : LoopStage
  pub last_stage_since_ms : ℕ

-- TYPIO_WL_WATCHDOG_STUCK_MS
abbrev pub stuck_limit_ms : ℕ
stuck_limit_ms = 3000

-- `typio_wl_frontend_watchdog_heartbeat`
unfoldable pub heartbeat : ℕ → Watchdog → Watchdog
heartbeat now w = record w { heartbeat_ms = now; stage_since_ms = now }

-- `typio_wl_frontend_watchdog_set_stage`
unfoldable pub set_stage : LoopStage → ℕ → Watchdog → Watchdog
set_stage stage now w = record w { loop_stage = stage; stage_since_ms = now }

-- `typio_wl_frontend_watchdog_stage_done`, which reads the clock twice.
unfoldable pub stage_done : ℕ → ℕ → Watchdog → Watchdog
stage_done now later w = set_stage LoopStage.idle later (heartbeat now w)

-- `typio_wl_frontend_watchdog_set_armed`
unfoldable pub set_armed : Bool → Watchdog → Watchdog
set_armed armed w = record w { armed = armed }

unfoldable pub stage_is_restful : LoopStage → Bool
stage_is_restful LoopStage.idle = true
stage_is_restful LoopStage.poll = true
stage_is_restful stage = false

unfoldable pub runtime_age_ms : ℕ → ℕ → ℕ
runtime_age_ms now start = if leb start now then u32 (now - start) else 0

pub data Round : Type 0 where
  go : LastSample → Round
  stopped : Round
  killed : Round

-- Nothing was reported since the last sample.
unfoldable pub unchanged : Watchdog → LastSample → Bool
unchanged w last =
    w.heartbeat_ms == last.last_heartbeat_ms
    && stage_code w.loop_stage == stage_code last.last_stage
    && w.stage_since_ms == last.last_stage_since_ms

abbrev pub remembered : Watchdog → LastSample
remembered w = record {
  last_heartbeat_ms = w.heartbeat_ms;
  last_stage = w.loop_stage;
  last_stage_since_ms = w.stage_since_ms;
}

-- A round of `watchdog_thread` after its timed wait; `killed` is the SIGKILL.
unfoldable pub sample : ℕ → Watchdog → LastSample → Round
sample now w last =
    if w.stop
    then Round.stopped
    else if not w.armed
    then Round.go last
    else if unchanged w last
        && not (stage_is_restful w.loop_stage)
        && leb stuck_limit_ms (runtime_age_ms now w.heartbeat_ms)
    then Round.killed
    else Round.go (remembered w)

-- The atomics that `typio_wl_frontend_watchdog_start` leaves.
abbrev pub started : Watchdog
started = record {
  heartbeat_ms = 0;
  stage_since_ms = 0;
  stop = false;
  armed = false;
  loop_stage = LoopStage.idle;
}

-- The locals that the thread starts with.
abbrev pub no_sample : LastSample
no_sample = record { last_heartbeat_ms = 0; last_stage = LoopStage.idle; last_stage_since_ms = 0 }
