-- ===== src/Keyboard/Router/Release.antt =====
-- The routing of key releases (src/wayland/keyboard/router.c).
use typiod_wayland.Prelude.{ℕ, Bool, true, false, not, ◌&&◌, ◌||◌, ◌==◌, if◌then◌else◌}
use typiod_wayland.Engine.Timing.{is_in_guard_window, should_forward_orphan_release_cleanup}
use typiod_wayland.Keyboard.State.{
  Frontend, Keyboard, ArbiterEvent, TrackState, idle, forwarded, basic_passthrough, app_shortcut,
  released_pending, suppressed_startup, engine_not_ready, voice_ptt, voice_ptt_unavail, call,
  voice_stop, hide_voice_status,
}
use typiod_wayland.Keyboard.Tracker.{get_state, owned_by_active_generation}
use typiod_wayland.Keyboard.Router.{
  action_consume, action_forward, reason_application_shortcut, reason_engine_handled,
  reason_engine_not_ready, reason_candidate_navigation, reason_released_pending,
  reason_startup_stale_cleanup, reason_forwarded_release, reason_orphan_release_cleanup,
  reason_orphan_release_consumed, reason_voice_ptt, reason_voice_ptt_unavailable, Host, Route,
  on_frontend, decide, clear, forward, holds_blocking,
}
use typiod_wayland.Keyboard.Router.Press.{key_event, ask, guard_consumes}

module _ {Context : Type 0} (host : Host Context) where
  abbrev pub if_voice : (Frontend → Frontend) → Route Context → Route Context
  if_voice step r = if host.have_voice then on_frontend step r else r

  -- A release of a key that no press of this generation claimed.
  unfoldable pub release_orphan : ℕ → Keyboard → ArbiterEvent → Route Context → Route Context
  release_orphan now k ev r =
      let stale =
        not (host.is_modifier_only (key_event host false false ev))
        && (is_in_guard_window k.created_at_epoch r.frontend.dispatch_epoch
            || should_forward_orphan_release_cleanup
                (ev.keysym == host.key_return || ev.keysym == host.key_kp_enter)
                (holds_blocking host ev.modifiers) k.saw_blocking_modifier) in
      if stale
      then clear ev.key
          (forward now ev false (decide action_forward reason_orphan_release_cleanup r))
      else clear ev.key (decide action_consume reason_orphan_release_consumed r)

  unfoldable pub release_idle : ℕ → Keyboard → ArbiterEvent → Route Context → Route Context
  release_idle now k ev r =
      let (r1, handled) =
        ask host (key_event host false false ev) (decide action_consume reason_engine_handled r) in
      if not (owned_by_active_generation r.frontend.tracker ev.key)
      then release_orphan now k ev r
      else if not handled && guard_consumes host r1.session ev.keysym
      then clear ev.key (decide action_consume reason_candidate_navigation r1)
      else clear ev.key r1

  -- The engine leaves the release to the host, and the candidate guard takes it.
  abbrev pub guard_takes : ArbiterEvent → Route Context → Bool
  guard_takes ev r =
      let (s, handled) = host.process_key (key_event host true false ev) r.session in
      not handled && guard_consumes host s ev.keysym

  unfoldable pub release_forwarded : ℕ → ArbiterEvent → Route Context → Route Context
  release_forwarded now ev r =
      let (r1, handled) =
        ask host (key_event host true false ev)
          (clear ev.key (decide action_forward reason_forwarded_release r)) in
      if not handled && guard_consumes host r1.session ev.keysym
      then clear ev.key (decide action_consume reason_candidate_navigation r1)
      else forward now ev false r1

  -- By the state of the key.
  abbrev pub release_in : TrackState → ℕ → Keyboard → ArbiterEvent → Route Context → Route Context
  release_in released_pending now k ev r =
      clear ev.key (decide action_consume reason_released_pending r)
  release_in suppressed_startup now k ev r =
      forward now ev false (clear ev.key (decide action_forward reason_startup_stale_cleanup r))
  release_in engine_not_ready now k ev r =
      clear ev.key (decide action_consume reason_engine_not_ready r)
  release_in app_shortcut now k ev r =
      forward now ev false (clear ev.key (decide action_forward reason_application_shortcut r))
  release_in voice_ptt now k ev r =
      clear ev.key (if_voice (call voice_stop) (decide action_consume reason_voice_ptt r))
  release_in voice_ptt_unavail now k ev r =
      clear ev.key
        (if_voice (call hide_voice_status) (decide action_consume reason_voice_ptt_unavailable r))
  release_in forwarded now k ev r = release_forwarded now ev r
  release_in basic_passthrough now k ev r =
      forward now ev false (clear ev.key (decide action_forward reason_forwarded_release r))
  release_in idle now k ev r = release_idle now k ev r

  -- `typio_wl_key_route_process_release` on the frontend's keyboard `k`
  unfoldable pub process_release : ℕ → Keyboard → ArbiterEvent → Route Context → Route Context
  process_release now k ev r = release_in (get_state r.frontend.tracker ev.key) now k ev r
