-- ===== src/Keyboard/Router/Releases.antt =====
-- What a release does to the router's invariant (src/wayland/keyboard/router.c).
use typiod_wayland.Prelude.{
  ℕ, ◌≡◌, ◌≢◌, refl, ◌∙◌, true, false, not, ◌&&◌, ◌||◌, if_both, arith, ◌==◌,
}
use typiod_wayland.Engine.Timing.{is_in_guard_window, should_forward_orphan_release_cleanup}
use typiod_wayland.Keyboard.State.{
  TrackState, idle, forwarded, basic_passthrough, app_shortcut, released_pending,
  suppressed_startup, engine_not_ready, voice_ptt, voice_ptt_unavail, Frontend, Keyboard,
  ArbiterEvent, call, voice_stop, hide_voice_status, is_vk_ready,
}
use typiod_wayland.Keyboard.Tracker.{get_state, clear_tracking, owned_by_active_generation}
use typiod_wayland.Keyboard.Tracker.Laws.{clear_tracking-idle, get_state_eq}
use typiod_wayland.Keyboard.Bridge.{vk_forward_key}
use typiod_wayland.Keyboard.Router.{
  Host, Route, holds_blocking, decide, action_consume, reason_engine_handled, reason_voice_ptt,
  reason_voice_ptt_unavailable,
}
use typiod_wayland.Keyboard.Router.Press.{ask, key_event, guard_consumes}
use typiod_wayland.Keyboard.Router.Release.{
  process_release, release_in, release_forwarded, release_idle, release_orphan, if_voice,
  guard_takes,
}
use typiod_wayland.Keyboard.Router.Down.{
  is_down, is_down-call, IsSame, IsSame-refl, vk_forward_key-IsSent,
}
use typiod_wayland.Keyboard.Router.Steps.{
  IsBalanced, IsStep, IsStep-trans, same-IsStep, sent-IsStep, clear-IsStep, step-IsBalanced,
  owed-down, IsOwed, owes_release,
}

-- The key alone may have changed, it is idle, and up where `up` holds.
record IsReleased (up : Type 0) (key : ℕ) (f g : Frontend) : Type 0 where
  step : IsStep key f g
  state : get_state g.tracker key ≡ idle
  down : up → is_down key g ≡ false

module _ (up : Type 0) where
  cleared-IsReleased :
      (key : ℕ) (f g : Frontend)
      → IsSame f g
      → (up → is_down key f ≡ false)
      → IsReleased up key f (record g { tracker = clear_tracking g.tracker key })
  cleared-IsReleased key f g s d = record {
    step = IsStep-trans (same-IsStep key s) (clear-IsStep key g);
    state = clear_tracking-idle g.tracker key;
    down = λ u. s.down key ∙ d u;
  }

  sent-IsReleased :
      (now time key : ℕ) (f : Frontend)
      → (up → is_vk_ready f.vk.state ≡ true)
      → IsReleased up key f
          (vk_forward_key now time key false (record f { tracker = clear_tracking f.tracker key }))
  sent-IsReleased now time key f v =
      let g : Frontend = record f { tracker = clear_tracking f.tracker key } in
      let s = vk_forward_key-IsSent now time key false g in
      record {
        step = IsStep-trans (clear-IsStep key f) (sent-IsStep s);
        state =
            get_state_eq (vk_forward_key now time key false g).tracker g.tracker key s.states
            ∙ clear_tracking-idle f.tracker key;
        down = λ u. s.ready (v u);
      }

  sent_cleared-IsReleased :
      (now time key : ℕ) (f : Frontend)
      → (up → is_vk_ready f.vk.state ≡ true)
      → let g = vk_forward_key now time key false f in
        IsReleased up key f (record g { tracker = clear_tracking g.tracker key })
  sent_cleared-IsReleased now time key f v =
      let g = vk_forward_key now time key false f in
      let s = vk_forward_key-IsSent now time key false f in
      record {
        step = IsStep-trans (sent-IsStep s) (clear-IsStep key g);
        state = clear_tracking-idle g.tracker key;
        down = λ u. s.ready (v u);
      }

  module _ {Context : Type 0} (host : Host Context) (now : ℕ) where
    abbrev ReleasedBy : ArbiterEvent → Route Context → Route Context → Type 0
    ReleasedBy ev r r' = IsReleased up ev.key r.frontend r'.frontend

    if_voice-IsSame :
        (step : Frontend → Frontend) (r : Route Context)
        → ((f : Frontend) → IsSame f (step f))
        → IsSame r.frontend (if_voice host step r).frontend
    if_voice-IsSame step r s =
        if_both (λ (r' : Route Context). IsSame r.frontend r'.frontend) host.have_voice
          (λ e. s r.frontend) (λ e. IsSame-refl r.frontend)

    release_orphan-IsReleased :
        (k : Keyboard) (ev : ArbiterEvent) (r : Route Context)
        → (up → is_vk_ready r.frontend.vk.state ≡ true)
        → (up → is_down ev.key r.frontend ≡ false)
        → ReleasedBy ev r (release_orphan host now k ev r)
    unfolding release_orphan
    release_orphan-IsReleased k ev r v d =
        if_both (ReleasedBy ev r)
          (not (host.is_modifier_only (key_event host false false ev))
            && (is_in_guard_window k.created_at_epoch r.frontend.dispatch_epoch
                || should_forward_orphan_release_cleanup
                    (ev.keysym == host.key_return || ev.keysym == host.key_kp_enter)
                    (holds_blocking host ev.modifiers) k.saw_blocking_modifier))
          (λ e. sent_cleared-IsReleased now ev.time ev.key r.frontend v)
          (λ e. cleared-IsReleased ev.key r.frontend r.frontend (IsSame-refl r.frontend) d)

    release_idle-IsReleased :
        (k : Keyboard) (ev : ArbiterEvent) (r : Route Context)
        → (up → is_vk_ready r.frontend.vk.state ≡ true)
        → (up → is_down ev.key r.frontend ≡ false)
        → ReleasedBy ev r (release_idle host now k ev r)
    unfolding release_idle
    release_idle-IsReleased k ev r v d =
        let asked =
          ask host (key_event host false false ev)
            (decide action_consume reason_engine_handled r) in
        let cleared = cleared-IsReleased ev.key r.frontend r.frontend (IsSame-refl r.frontend) d in
        if_both (ReleasedBy ev r) (not (owned_by_active_generation r.frontend.tracker ev.key))
          (λ e. release_orphan-IsReleased k ev r v d)
          (λ e.
            if_both (ReleasedBy ev r) (not asked.1 && guard_consumes host asked.0.session ev.keysym)
              (λ e'. cleared) (λ e'. cleared))

    release_forwarded-IsReleased :
        (ev : ArbiterEvent) (r : Route Context)
        → (up → is_vk_ready r.frontend.vk.state ≡ true)
        → (up → guard_takes host ev r ≡ false)
        → ReleasedBy ev r (release_forwarded host now ev r)
    unfolding release_forwarded
    release_forwarded-IsReleased ev r v g =
        if_both (ReleasedBy ev r) (guard_takes host ev r)
          (λ e.
            let f = r.frontend in
            let f1 : Frontend = record f { tracker = clear_tracking f.tracker ev.key } in
            record {
              step = IsStep-trans (clear-IsStep ev.key f) (clear-IsStep ev.key f1);
              state = clear_tracking-idle f1.tracker ev.key;
              down = λ u. absurd (ground (arith, g u, e));
            })
          (λ e. sent-IsReleased now ev.time ev.key r.frontend v)

    release_in-IsReleased :
        (st : TrackState) (k : Keyboard) (ev : ArbiterEvent) (r : Route Context)
        → (up → is_vk_ready r.frontend.vk.state ≡ true)
        → (up → st ≡ forwarded → guard_takes host ev r ≡ false)
        → (up → owes_release st ≡ false → is_down ev.key r.frontend ≡ false)
        → ReleasedBy ev r (release_in host st now k ev r)
    release_in-IsReleased idle k ev r v g d = release_idle-IsReleased k ev r v (λ u. d u refl)
    release_in-IsReleased forwarded k ev r v g d =
        release_forwarded-IsReleased ev r v (λ u. g u refl)
    release_in-IsReleased basic_passthrough k ev r v g d =
        sent-IsReleased now ev.time ev.key r.frontend v
    release_in-IsReleased app_shortcut k ev r v g d =
        sent-IsReleased now ev.time ev.key r.frontend v
    release_in-IsReleased suppressed_startup k ev r v g d =
        sent-IsReleased now ev.time ev.key r.frontend v
    release_in-IsReleased released_pending k ev r v g d =
        cleared-IsReleased ev.key r.frontend r.frontend (IsSame-refl r.frontend) (λ u. d u refl)
    release_in-IsReleased engine_not_ready k ev r v g d =
        cleared-IsReleased ev.key r.frontend r.frontend (IsSame-refl r.frontend) (λ u. d u refl)
    release_in-IsReleased voice_ptt k ev r v g d =
        cleared-IsReleased ev.key r.frontend _
          (if_voice-IsSame (call voice_stop) (decide action_consume reason_voice_ptt r)
            (λ f. record { states = refl; down = λ k'. is_down-call k' voice_stop f }))
          (λ u. d u refl)
    release_in-IsReleased voice_ptt_unavail k ev r v g d =
        cleared-IsReleased ev.key r.frontend _
          (if_voice-IsSame (call hide_voice_status)
            (decide action_consume reason_voice_ptt_unavailable r)
            (λ f. record { states = refl; down = λ k'. is_down-call k' hide_voice_status f }))
          (λ u. d u refl)

module _ {Context : Type 0} (host : Host Context) (now : ℕ) where
  -- Whatever the state of a key, the engine and the virtual keyboard: a release ends with the key
  -- idle, and no other key's state changes.
  pub process_release-idle :
      (k : Keyboard) (ev : ArbiterEvent) (r : Route Context)
      → let f' = (process_release host now k ev r).frontend in
        (get_state f'.tracker ev.key ≡ idle)
        × ((j : ℕ) → j ≢ ev.key → get_state f'.tracker j ≡ get_state r.frontend.tracker j)
  unfolding process_release
  process_release-idle k ev r =
      let s =
        release_in-IsReleased (⊥) host now (get_state r.frontend.tracker ev.key) k ev r
          (λ u. elim u [ ]) (λ u. elim u [ ]) (λ u. elim u [ ]) in
      (s.state, s.step.state)

  -- The same conditions, with the invariant of the key alone.
  pub process_release-down :
      (k : Keyboard) (ev : ArbiterEvent) (r : Route Context)
      → is_vk_ready r.frontend.vk.state ≡ true
      → (get_state r.frontend.tracker ev.key ≡ forwarded → guard_takes host ev r ≡ false)
      → IsOwed ev.key r.frontend
      → let f' = (process_release host now k ev r).frontend in
        IsStep ev.key r.frontend f' × (is_down ev.key f' ≡ false)
  unfolding process_release
  process_release-down k ev r v g own =
      let s =
        release_in-IsReleased (Unit {0}) host now (get_state r.frontend.tracker ev.key) k ev r
          (λ u. v) (λ u. g) (λ u. owed-down ev.key r.frontend own) in
      (s.step, s.down tt)

  -- With the virtual keyboard ready, and where the candidate guard does not take the release of a
  -- forwarded key: a release keeps the invariant and leaves the key up for the application.
  pub process_release-IsBalanced :
      (k : Keyboard) (ev : ArbiterEvent) (r : Route Context)
      → is_vk_ready r.frontend.vk.state ≡ true
      → (get_state r.frontend.tracker ev.key ≡ forwarded → guard_takes host ev r ≡ false)
      → IsBalanced r.frontend
      → let f' = (process_release host now k ev r).frontend in
        IsBalanced f' × (is_down ev.key f' ≡ false)
  process_release-IsBalanced k ev r v g b =
      let (step, up) = process_release-down k ev r v g (b.owed ev.key) in
      (step-IsBalanced step b (λ d. absurd (ground (arith, up, d))), up)

  -- Where the engine leaves the release of a forwarded key to the host and the candidate guard
  -- takes it, nothing is sent, and the key is tracked as idle.
  pub process_release-withheld :
      (k : Keyboard) (ev : ArbiterEvent) (r : Route Context)
      → get_state r.frontend.tracker ev.key ≡ forwarded
      → guard_takes host ev r ≡ true
      → let f' = (process_release host now k ev r).frontend in
        (f'.out ≡ r.frontend.out)
        × (get_state f'.tracker ev.key ≡ idle)
        × IsStep ev.key r.frontend f'
  unfolding process_release release_forwarded
  process_release-withheld k ev r e g =
      let s =
        release_in-IsReleased (⊥) host now (get_state r.frontend.tracker ev.key) k ev r
          (λ u. elim u [ ]) (λ u. elim u [ ]) (λ u. elim u [ ]) in
      (rw (process_release, e, release_forwarded, g) refl, s.state, s.step)
