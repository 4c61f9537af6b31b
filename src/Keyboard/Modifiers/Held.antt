-- ===== src/Keyboard/Modifiers/Held.antt =====
-- Keys whose repeat may run (src/wayland/keyboard/policy).
use typiod_wayland.Prelude.{◌≡◌, refl, true, false, arith}
use typiod_wayland.Keyboard.State.{
  TrackState, idle, forwarded, basic_passthrough, app_shortcut, released_pending,
  suppressed_startup, engine_not_ready, voice_ptt, voice_ptt_unavail,
}
use typiod_wayland.Keyboard.Tracker.{is_held_by_app}
use typiod_wayland.Keyboard.Bridge.Release.{released}
use typiod_wayland.Keyboard.Modifiers.{should_run_repeat}

-- A key that the application holds may repeat, and once its release is forced it may not.
pub held-repeats :
    (st : TrackState)
    → is_held_by_app st ≡ true
    → (should_run_repeat st ≡ true) × (should_run_repeat (released st) ≡ false)
unfolding should_run_repeat
held-repeats forwarded h = (refl, refl)
held-repeats basic_passthrough h = (refl, refl)
held-repeats app_shortcut h = (refl, refl)
held-repeats idle h = absurd (ground (arith, h))
held-repeats released_pending h = absurd (ground (arith, h))
held-repeats suppressed_startup h = absurd (ground (arith, h))
held-repeats engine_not_ready h = absurd (ground (arith, h))
held-repeats voice_ptt h = absurd (ground (arith, h))
held-repeats voice_ptt_unavail h = absurd (ground (arith, h))
