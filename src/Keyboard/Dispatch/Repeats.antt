-- ===== src/Keyboard/Dispatch/Repeats.antt =====
-- What a repeat does to the router's invariant (src/wayland/keyboard/repeat.c).
use typiod_wayland.Prelude.{
  ◌<◌, ◌≡◌, ◌≢◌, refl, sym, ◌∙◌, ap, true, false, not, ◌||◌, length, if_both, Bool-cases,
  Option-cases, inl, inr,
}
use typiod_wayland.Engine.Focus.{can_route_keys}
use typiod_wayland.Keyboard.State.{
  TrackState, idle, forwarded, basic_passthrough, app_shortcut, released_pending,
  suppressed_startup, engine_not_ready, voice_ptt, voice_ptt_unavail, Frontend, Keyboard,
  repeat_disarm, is_vk_ready,
}
use typiod_wayland.Keyboard.Tracker.{get_state}
use typiod_wayland.Keyboard.Tracker.Laws.{get_state-set_self, get_state_eq}
use typiod_wayland.Keyboard.Lifecycle.{repeat_stop, observe}
use typiod_wayland.Keyboard.Modifiers.{should_run_repeat}
use typiod_wayland.Keyboard.Router.{Host, holds_blocking}
use typiod_wayland.Keyboard.Router.Press.{ask, guard_consumes}
use typiod_wayland.Keyboard.Router.Down.{
  is_down, is_down-call, IsSame, IsSame-refl, IsSent, vk_forward_key-IsSent,
}
use typiod_wayland.Keyboard.Router.Steps.{
  IsBalanced, IsOk, same-IsStep, sent-IsOk, sent_track-IsOk, step-IsBalanced,
}
use typiod_wayland.Keyboard.Dispatch.{
  World, Dispatcher, frontend_of, repeat_event, repeat_engine, repeat_in, repeat_forward,
  dispatch_repeat, on_frontend_of,
}

repeat_stop-IsSame : (f : Frontend) → IsSame f (repeat_stop f)
unfolding repeat_stop
repeat_stop-IsSame f = elim (Option-cases f.keyboard) [
  | inl e ↦ rw (repeat_stop, e) (record { states = refl; down = λ key. refl })
  | inr (k, e) ↦ elim (Bool-cases k.repeat_timer) [
    | inl t ↦
        rw (repeat_stop, e, t)
          (record { states = refl; down = λ key. is_down-call key repeat_disarm f })
    | inr t ↦ rw (repeat_stop, e, t) (record { states = refl; down = λ key. refl })
  ]
]

module _ {Context : Type 0} (host : Host Context) (w : World) where
  abbrev Ok : Dispatcher Context → Dispatcher Context → Type 0
  Ok d d' = IsOk d.timer.repeat_key (frontend_of d) (frontend_of d')

  same-IsOwed :
      (d : Dispatcher Context)
      → IsBalanced (frontend_of d)
      → (g : Frontend) → IsSame (frontend_of d) g
      → IsOk d.timer.repeat_key (frontend_of d) g
  same-IsOwed d b g s = record {
    step = same-IsStep d.timer.repeat_key s;
    owed = λ h.
        rw (get_state_eq g.tracker (frontend_of d).tracker d.timer.repeat_key s.states)
          (b.owed d.timer.repeat_key (sym (s.down d.timer.repeat_key) ∙ h));
  }

  repeat-IsSent :
      (d : Dispatcher Context)
      → IsSent d.timer.repeat_key true (frontend_of d) (frontend_of (repeat_forward host w d))
  repeat-IsSent d =
      vk_forward_key-IsSent w.now d.timer.repeat_time d.timer.repeat_key true (frontend_of d)

  repeat_engine-Ok :
      (k : Keyboard) (d : Dispatcher Context)
      → d.timer.repeat_key < 512
      → IsBalanced (frontend_of d)
      → Ok d (repeat_engine host w k d)
  unfolding repeat_engine
  repeat_engine-Ok k d h b =
      let asked = ask host (repeat_event host w k d.timer) d.route in
      if_both (Ok d) asked.1 (λ e. same-IsOwed d b (frontend_of d) (IsSame-refl (frontend_of d)))
        λ e.
          if_both (Ok d) (guard_consumes host asked.0.session (w.keysym_of d.timer.repeat_key))
            (λ e'. same-IsOwed d b (frontend_of d) (IsSame-refl (frontend_of d)))
            (λ e'. sent_track-IsOk forwarded h b.sized (repeat-IsSent d) refl)

  stop-Ok :
      (d : Dispatcher Context) → IsBalanced (frontend_of d) → Ok d (on_frontend_of repeat_stop d)
  stop-Ok d b = same-IsOwed d b (repeat_stop (frontend_of d)) (repeat_stop-IsSame (frontend_of d))

  repeat_in-Ok :
      (st : TrackState) (k : Keyboard) (d : Dispatcher Context)
      → get_state (frontend_of d).tracker d.timer.repeat_key ≡ st
      → st ≢ basic_passthrough
      → d.timer.repeat_key < 512
      → IsBalanced (frontend_of d)
      → Ok d (repeat_in host w st k d)
  unfolding should_run_repeat
  repeat_in-Ok app_shortcut k d e n h b =
      if_both (Ok d) (holds_blocking host k.physical_modifiers)
        (λ u. sent-IsOk (repeat-IsSent d) (rw e refl)) (λ u. stop-Ok d b)
  repeat_in-Ok forwarded k d e n h b = sent-IsOk (repeat-IsSent d) (rw e refl)
  repeat_in-Ok basic_passthrough k d e n h b = absurd (n refl)
  repeat_in-Ok idle k d e n h b = repeat_engine-Ok k d h b
  repeat_in-Ok voice_ptt k d e n h b = repeat_engine-Ok k d h b
  repeat_in-Ok voice_ptt_unavail k d e n h b = repeat_engine-Ok k d h b
  repeat_in-Ok released_pending k d e n h b = stop-Ok d b
  repeat_in-Ok suppressed_startup k d e n h b = stop-Ok d b
  repeat_in-Ok engine_not_ready k d e n h b = stop-Ok d b

  -- An expiry of the repeat timer for a tracked key that is not in the pass-through state keeps
  -- the invariant of the router: what is sent again is owed its release.
  pub dispatch_repeat-IsBalanced :
      (k : Keyboard) (d : Dispatcher Context)
      → get_state (frontend_of d).tracker d.timer.repeat_key ≢ basic_passthrough
      → d.timer.repeat_key < 512
      → IsBalanced (frontend_of d)
      → IsBalanced (frontend_of (dispatch_repeat host w k d))
  unfolding dispatch_repeat
  dispatch_repeat-IsBalanced k d n h b =
      let f = frontend_of d in
      let kept = same-IsOwed d b f (IsSame-refl f) in
      let ok : Ok d (dispatch_repeat host w k d) =
        if_both (Ok d) (not k.repeating || not k.repeat_timer) (λ e. kept)
          λ e.
            if_both (Ok d) (not (can_route_keys (observe w.focused f))) (λ e. stop-Ok d b)
              λ e.
                if_both (Ok d) (not w.expired) (λ e. kept)
                  λ e.
                    if_both (Ok d)
                      (not k.xkb_state || not f.session || not f.ctx || not (w.focused f.out))
                      (λ e. stop-Ok d b)
                      (λ e. repeat_in-Ok (get_state f.tracker d.timer.repeat_key) k d refl n h b) in
      step-IsBalanced ok.step b ok.owed

  -- A repeat of a push-to-talk key that the engine and the candidate guard leave alone gives the
  -- key to the application: the router then tracks it as forwarded, and no longer as the key whose
  -- release stops the voice, and the application sees it pressed where the virtual keyboard is
  -- ready.
  pub repeat_in-forgets_voice :
      (k : Keyboard) (d : Dispatcher Context)
      → d.timer.repeat_key < 512
      → IsBalanced (frontend_of d)
      → get_state (frontend_of d).tracker d.timer.repeat_key ≡ voice_ptt
      → (ask host (repeat_event host w k d.timer) d.route).1 ≡ false
      → guard_consumes host
          (ask host (repeat_event host w k d.timer) d.route).0.session
          (w.keysym_of d.timer.repeat_key)
        ≡ false
      → let d' = repeat_in host w (get_state (frontend_of d).tracker d.timer.repeat_key) k d in
        (get_state (frontend_of d').tracker d.timer.repeat_key ≡ forwarded)
        × (is_vk_ready (frontend_of d).vk.state ≡ true
            → is_down d.timer.repeat_key (frontend_of d') ≡ true)
  unfolding repeat_engine should_run_repeat
  repeat_in-forgets_voice k d h b e u g =
      let s = repeat-IsSent d in
      rw (e, repeat_engine, u, g)
        (
          get_state-set_self (frontend_of (repeat_forward host w d)).tracker d.timer.repeat_key
              forwarded (ap length s.states ∙ b.sized) h,
          s.ready,
        )
