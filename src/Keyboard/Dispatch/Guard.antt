-- ===== src/Keyboard/Dispatch/Guard.antt =====
-- The emergency exit and the routing guard in front of the router
-- (src/wayland/keyboard/keyboard.c).
use typiod_wayland.Prelude.{
  ℕ, ◌≡◌, refl, ◌∙◌, Bool, true, false, not, ◌&&◌, ◌||◌, List, sub64, ltb, leb, ◌==◌, if_both,
  Bool-cases, Option-cases, inl, inr, arith,
}
use typiod_wayland.Engine.Focus.{is_transitioning}
use typiod_wayland.Keyboard.State.{Frontend, Keyboard, ArbiterEvent, Call, is_vk_ready}
use typiod_wayland.Keyboard.Bridge.{release_grab, has_grab}
use typiod_wayland.Keyboard.Lifecycle.{
  repeat_stop, guard_reset, guard_note_reject, note_reject_press, observe,
}
use typiod_wayland.Keyboard.Router.{Host}
use typiod_wayland.Keyboard.Router.Down.{is_down, vk_forward_key-IsSent, release_grab-IsSame}
use typiod_wayland.Keyboard.Dispatch.{
  World, Dispatcher, frontend_of, exits, dispatched, passes_guard, is_paused, rejected_key,
  dispatch_key, on_key,
}

release_grab-grab : (f : Frontend) → has_grab (release_grab f).keyboard ≡ false
unfolding release_grab
release_grab-grab f = elim (Option-cases f.keyboard) [
  | inl e ↦ rw (release_grab, e) (rw e refl)
  | inr (k, e) ↦ elim (Bool-cases k.grab) [
    | inl g ↦ rw (release_grab, e, g) refl
    | inr g ↦ rw (release_grab, e, g) (rw e g)
  ]
]

abbrev SameStates : Frontend → Frontend → Type 0
SameStates f g = g.tracker.states ≡ f.tracker.states

repeat_stop-states : (f : Frontend) → SameStates f (repeat_stop f)
unfolding repeat_stop
repeat_stop-states f = elim (Option-cases f.keyboard) [
  | inl e ↦ rw (repeat_stop, e) refl
  | inr (k, e) ↦ elim (Bool-cases k.repeat_timer) [
    | inl t ↦ rw (repeat_stop, e, t) refl
    | inr t ↦ rw (repeat_stop, e, t) refl
  ]
]

note_reject_press-states : (now : ℕ) (f : Frontend) → SameStates f (note_reject_press now f)
unfolding note_reject_press
note_reject_press-states now f =
    let start = f.guard_reject_press_window_start_ms in
    if_both (SameStates f) ((start == 0) || ltb 1500 (sub64 now start)) (λ e. refl) (λ e. refl)

guard_note_reject-states :
    (focused : List Call → Bool) (now : ℕ) (pressed : Bool) (f : Frontend)
    → SameStates f (guard_note_reject focused now pressed f)
unfolding guard_note_reject
guard_note_reject-states focused now pressed f =
    let g = note_reject_press now f in
    let s = note_reject_press-states now f in
    if_both (SameStates f) (not pressed) (λ e. refl)
      λ e.
        if_both (SameStates f)
          (leb 8 g.guard_reject_press_streak && not (is_transitioning (observe focused g)))
          (λ e'. (release_grab-IsSame g).states ∙ s) (λ e'. s)

module _ {Context : Type 0} (host : Host Context) (w : World) where
  -- What a key that is not routed leaves: the session and the states of the keys, and while paused
  -- the key is sent.
  abbrev pub IsUnrouted : ArbiterEvent → Dispatcher Context → Dispatcher Context → Type 0
  IsUnrouted ev d d' =
      (d'.route.session ≡ d.route.session)
      × ((frontend_of d').tracker.states ≡ (frontend_of d).tracker.states)
      × (is_paused host w (frontend_of d) ≡ true → is_down ev.key (frontend_of d') ≡ ev.is_press)

  paused-ready : (f : Frontend) → is_paused host w f ≡ true → is_vk_ready f.vk.state ≡ true
  paused-ready f h = ground (arith, h)

  rejected_key-IsUnrouted :
      (ev : ArbiterEvent) (k : Keyboard) (d : Dispatcher Context)
      → IsUnrouted ev d (rejected_key host w ev k d)
  unfolding rejected_key guard_reset
  rejected_key-IsUnrouted ev k d =
      let f = frontend_of d in
      let s = guard_note_reject-states w.focused w.now ev.is_press f in
      if_both (IsUnrouted ev d) (is_paused host w f)
        (λ e.
          let t = vk_forward_key-IsSent w.now ev.time ev.key ev.is_press (guard_reset f) in
          (refl, t.states, λ h. t.ready (paused-ready f e)))
        (λ n.
          if_both (IsUnrouted ev d)
            (not ev.is_press && k.repeating && (d.timer.repeat_key == ev.key))
            (λ e. (refl, repeat_stop-states _ ∙ s, λ h. absurd (ground (arith, h, n))))
            (λ e. (refl, s, λ h. absurd (ground (arith, h, n)))))

  -- Where the guard does not pass, a key that is not the emergency exit reaches no engine: the
  -- session and the states of the keys stay. While paused, with the grab and the virtual keyboard
  -- ready and no context focused, the application gets the key as it is.
  pub on_key-IsUnrouted :
      (ev : ArbiterEvent) (k : Keyboard) (d : Dispatcher Context)
      → k.xkb_state ≡ true
      → exits host w (dispatched host w ev k (frontend_of d)) d ≡ false
      → passes_guard host w (frontend_of d) ≡ false
      → IsUnrouted ev d (on_key host w ev k d)
  unfolding on_key dispatch_key
  on_key-IsUnrouted ev k d x e g =
      rw (on_key, x, dispatch_key, e, g) (rejected_key-IsUnrouted _ _ d)

  -- With an xkb state, the emergency exit works in every state of the frontend, routable or not: the
  -- grab is released, the frontend stops, and no engine sees the key.
  on_key-stops :
      (ev : ArbiterEvent) (k : Keyboard) (d : Dispatcher Context)
      → k.xkb_state ≡ true
      → exits host w (dispatched host w ev k (frontend_of d)) d ≡ true
      → let d' = on_key host w ev k d in
        ((frontend_of d').running ≡ false)
        × (has_grab (frontend_of d').keyboard ≡ false)
        × (d'.route.session ≡ d.route.session)
  unfolding on_key dispatch_key
  on_key-stops ev k d x e = rw (on_key, x, dispatch_key, e) (refl, release_grab-grab _, refl)
