-- ===== src/Watchdog/Examples.antt =====
-- Runs of the watchdog, and the theorems at them.
use typiod_wayland.Prelude.{◌≡◌, refl, ◌⊎◌, true, false, arith}
use typiod_wayland.Watchdog.{
  Watchdog, LoopStage, Round, heartbeat, set_stage, stage_done, set_armed, stage_is_restful,
  runtime_age_ms, unchanged, remembered, sample, started, no_sample,
}
use typiod_wayland.Watchdog.Samples.{sample-sample}

-- A loop that waited for a minute and then works for 1100 ms.
abbrev waiting : Watchdog
waiting = record {
  heartbeat_ms = 1000;
  stage_since_ms = 1000;
  stop = false;
  armed = true;
  loop_stage = LoopStage.poll;
}

abbrev working : Watchdog
working = record waiting { stage_since_ms = 61000; loop_stage = LoopStage.dispatch_pending }

working-is : set_stage LoopStage.dispatch_pending 61000 waiting ≡ working
unfolding set_stage
working-is = refl

sample-waiting : sample 60500 waiting (remembered waiting) ≡ Round.go (remembered waiting)
unfolding sample unchanged stage_is_restful runtime_age_ms
sample-waiting = refl

sample-start :
    sample 1500 (stage_done 900 1000 (set_armed true started)) no_sample
    ≡ Round.go (record {
      last_heartbeat_ms = 900;
      last_stage = LoopStage.idle;
      last_stage_since_ms = 1000;
    })
unfolding sample unchanged stage_is_restful runtime_age_ms stage_done set_armed set_stage heartbeat
sample-start = refl

sample-sample_example :
    (sample 61100 working (remembered waiting) ≡ Round.killed)
    ⊎ ((sample 61100 working (remembered waiting) ≡ Round.go (remembered working))
        × (sample 62100 working (remembered working) ≡ Round.killed))
unfolding stage_is_restful
sample-sample_example =
    sample-sample 61100 62100 working (remembered waiting) refl refl refl (omega arith)
      (omega arith)
