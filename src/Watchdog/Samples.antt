-- ===== src/Watchdog/Samples.antt =====
-- What two samples of the watchdog say of a loop that moves, and of one that does not.
use typiod_wayland.Prelude.{
  ℕ, ◌+◌, ◌<◌, ◌≤◌, ◌≡◌, ◌≢◌, refl, sym, ◌∙◌, ap, ◌⊎◌, inl, inr, Bool, true, false, not, ◌&&◌, List,
  [], ◌∷◌, leb, if◌then◌else◌, Bool-cases, if_both, if-false, if-true, arith,
}
use mathlib.Core.Bool.{false≢true}
use typiod_wayland.Watchdog.{
  Watchdog, LastSample, LoopStage, Round, heartbeat, set_stage, set_armed, stage_is_restful,
  runtime_age_ms, unchanged, remembered, sample, stuck_limit_ms,
}

-- A report of the loop.
pub data Report : Type 0 where
  beat : (now : ℕ) → Report
  stage : LoopStage → (now : ℕ) → Report
  arm : Bool → Report

abbrev pub report : Watchdog → Report → Watchdog
report w (Report.beat now) = heartbeat now w
report w (Report.stage s now) = set_stage s now w
report w (Report.arm b) = set_armed b w

abbrev pub reports : Watchdog → List Report → Watchdog
reports w [] = w
reports w (r ∷ rs) = reports (report w r) rs

-- The clock of the reports does not go back before `t`.
abbrev pub NotBefore : ℕ → List Report → Type 0
NotBefore t [] = Unit {0}
NotBefore t (Report.beat now ∷ rs) = (t ≤ now) × NotBefore now rs
NotBefore t (Report.stage s now ∷ rs) = (t ≤ now) × NotBefore now rs
NotBefore t (Report.arm b ∷ rs) = NotBefore t rs

reports-since :
    (w : Watchdog) (rs : List Report)
    → NotBefore w.stage_since_ms rs
    → w.stage_since_ms ≤ (reports w rs).stage_since_ms
unfolding heartbeat set_stage set_armed
reports-since w [] h = omega arith
reports-since w (Report.beat now ∷ rs) h =
    omega (arith, h.0, reports-since (heartbeat now w) rs h.1)
reports-since w (Report.stage s now ∷ rs) h =
    omega (arith, h.0, reports-since (set_stage s now w) rs h.1)
reports-since w (Report.arm b ∷ rs) h = reports-since (set_armed b w) rs h

changed :
    (w : Watchdog) (last : LastSample)
    → last.last_stage_since_ms < w.stage_since_ms
    → unchanged w last ≡ false
unfolding unchanged
changed w last h = ground arith

abbrev is_killed : Round → Bool
is_killed Round.killed = true
is_killed r = false

sample-changed :
    (now : ℕ) (w : Watchdog) (last : LastSample)
    → unchanged w last ≡ false
    → sample now w last ≢ Round.killed
unfolding sample
sample-changed now w last h e = false≢true (sym spared ∙ ap is_killed e)
  where
    spared : is_killed (sample now w last) ≡ false
    spared = rw h (
        if_both (λ r. is_killed r ≡ false) w.stop (λ _. refl)
          (λ _. if_both (λ r. is_killed r ≡ false) (not w.armed) (λ _. refl) (λ _. refl)))

-- When the loop, after a sample that lets it go on and remembers what it saw, reports a stage at a
-- time later than its last report, and whatever else with a clock that does not go back, then the
-- next sample does not kill it, whatever the time and however old its heartbeat is.
pub sample-reports :
    (t2 now : ℕ) (w : Watchdog) (s : LoopStage) (rs : List Report)
    → w.stage_since_ms < now
    → NotBefore now rs
    → sample t2 (reports w (Report.stage s now ∷ rs)) (remembered w) ≢ Round.killed
unfolding set_stage
sample-reports t2 now w s rs h m =
    sample-changed t2 (reports w (Report.stage s now ∷ rs)) (remembered w) (
      changed (reports w (Report.stage s now ∷ rs)) (remembered w)
        (omega (arith, h, reports-since (set_stage s now w) rs m)))

-- The test of the sample that kills.
abbrev stuck : ℕ → Watchdog → LastSample → Bool
stuck now w last =
    unchanged w last
    && not (stage_is_restful w.loop_stage)
    && leb stuck_limit_ms (runtime_age_ms now w.heartbeat_ms)

sample_armed :
    (now : ℕ) (w : Watchdog) (last : LastSample)
    → w.stop ≡ false
    → w.armed ≡ true
    → sample now w last ≡ (if stuck now w last then Round.killed else Round.go (remembered w))
unfolding sample
sample_armed now w last s a = if-false _ _ w.stop s ∙ if-false _ _ (not w.armed) (ap not a)

unchanged-remembered : (w : Watchdog) → unchanged w (remembered w) ≡ true
unfolding unchanged
unchanged-remembered w = ground arith

old_enough :
    (now start : ℕ)
    → start + 3000 ≤ now
    → now < start + 4294967296
    → leb stuck_limit_ms (runtime_age_ms now start) ≡ true
unfolding runtime_age_ms
old_enough now start old young = ground arith

stuck_again :
    (now : ℕ) (w : Watchdog)
    → stage_is_restful w.loop_stage ≡ false
    → w.heartbeat_ms + 3000 ≤ now
    → now < w.heartbeat_ms + 4294967296
    → stuck now w (remembered w) ≡ true
stuck_again now w f old young =
    rw (unchanged-remembered w, f, old_enough now w.heartbeat_ms old young) refl

-- Whatever was sampled before: an armed loop that is in a stage of work is killed by one of two
-- samples between which it reports nothing, when its heartbeat is 3000 ms old or older (and less
-- than 2 ^ 32 ms) at the second. How long it has been in the stage does not matter.
pub sample-sample :
    (t1 t2 : ℕ) (w : Watchdog) (last : LastSample)
    → w.stop ≡ false
    → w.armed ≡ true
    → stage_is_restful w.loop_stage ≡ false
    → w.heartbeat_ms + 3000 ≤ t2
    → t2 < w.heartbeat_ms + 4294967296
    → (sample t1 w last ≡ Round.killed)
      ⊎ ((sample t1 w last ≡ Round.go (remembered w)) × (sample t2 w (remembered w) ≡ Round.killed))
sample-sample t1 t2 w last s a f old young = elim (Bool-cases (stuck t1 w last)) [
  | inl k ↦ inl (sample_armed t1 w last s a ∙ if-true _ _ (stuck t1 w last) k)
  | inr k ↦ inr (
    sample_armed t1 w last s a ∙ if-false _ _ (stuck t1 w last) k,
    sample_armed t2 w (remembered w) s a
        ∙ if-true _ _ (stuck t2 w (remembered w)) (stuck_again t2 w f old young),
  )
]
