-- ===== src/Keyboard/Lifecycle/Runs.antt =====
-- Runs of the keyboard pipeline: ticks of the focus controller and Wayland events in any order
-- (src/wayland/focus_effects.c, keyboard/keyboard.c and keyboard/bridge.c).
use typiod_wayland.Prelude.{
  ℕ, ◌≤◌, ◌≡◌, Bool, true, false, not, ◌&&◌, if◌then◌else◌, List, [], ◌∷◌, arith, leb, ltb, ◌==◌,
  ◌||◌, sub64,
}
use typiod_wayland.Engine.Focus.{
  DesiredState, diff, can_route_keys, is_transitioning, absent, needs_keymap, ready, broken,
  GrabResourceState,
}
use typiod_wayland.Keyboard.State.{
  Frontend, Call, is_vk_ready, VkState, vk_absent, vk_needs_keymap, vk_ready, vk_broken,
}
use typiod_wayland.Keyboard.Bridge.{
  CancelReason, vk_cancel_keymap_wait, vk_health_check, vk_forward_key, vk_forward_modifiers,
  vk_reset_modifiers, vk_forward_keymap,
}
use typiod_wayland.Keyboard.Lifecycle.{
  Creation, apply, observe, has_keyboard, keyboard_pause, guard_note_reject, note_reject_press,
}
use typiod_wayland.Keyboard.Lifecycle.Frame.{release_grab-Frame, keyboard_pause-Frame}
use typiod_wayland.Keyboard.Lifecycle.Fence.{
  IsFenced, Frame-IsFenced, if-IsFenced, stop-IsFenced, vk_send-IsFenced,
  vk_reset_modifiers-IsFenced, vk_health_check-IsFenced, vk_forward_keymap-IsFenced,
}
use typiod_wayland.Keyboard.Lifecycle.Reset.{vk_cancel_keymap_wait-IsFenced}
use typiod_wayland.Keyboard.Lifecycle.Keymap.{apply-IsFenced, ready-needs_object}

-- The operations that reach the keyboard and the virtual keyboard.
pub data Op : Type 0 where
  focus_tick : DesiredState → Creation → Op
  keymap : Bool → Op
  forward_key : ℕ → ℕ → Bool → Op
  forward_modifiers : ℕ → ℕ → ℕ → ℕ → Op
  reset_modifiers : Op
  cancel_keymap_wait : CancelReason → Op
  health_check : Op
  key_rejected : Bool → Op
  pause : Op

abbrev pub step : (List Call → Bool) → ℕ → Op → Frontend → Frontend
step focused now (focus_tick d creation) f = apply now creation (diff d (observe focused f)) f
step focused now (keymap duplicated) f = vk_forward_keymap now duplicated f
step focused now (forward_key time key pressed) f = vk_forward_key now time key pressed f
step focused now (forward_modifiers depressed latched locked group) f =
    vk_forward_modifiers now depressed latched locked group f
step focused now reset_modifiers f = vk_reset_modifiers now f
step focused now (cancel_keymap_wait reason) f = vk_cancel_keymap_wait now reason f
step focused now health_check f = vk_health_check now f
step focused now (key_rejected pressed) f = guard_note_reject focused now pressed f
step focused now pause f = keyboard_pause now f

-- The operations of a run, each with the clock's value.
abbrev pub run : (List Call → Bool) → List (ℕ × Op) → Frontend → Frontend
run focused [] f = f
run focused ((now, op) ∷ ops) f = run focused ops (step focused now op f)

note_reject_press-IsFenced :
    (now : ℕ) (f : Frontend) → IsFenced f → IsFenced (note_reject_press now f)
unfolding note_reject_press
note_reject_press-IsFenced now f o =
    if-IsFenced
      ((f.guard_reject_press_window_start_ms == 0)
        || ltb 1500 (sub64 now f.guard_reject_press_window_start_ms))
      (λ e. record { object = o.object; numbered = o.numbered; current = o.current })
      (λ e. record { object = o.object; numbered = o.numbered; current = o.current })

guard_note_reject-IsFenced :
    (focused : List Call → Bool) (now : ℕ) (pressed : Bool) (f : Frontend)
    → IsFenced f
    → IsFenced (guard_note_reject focused now pressed f)
unfolding guard_note_reject
guard_note_reject-IsFenced focused now pressed f o =
    let counted = note_reject_press-IsFenced now f o in
    if-IsFenced (not pressed) (λ e. o)
      (λ e.
        if-IsFenced
          (leb 8 (note_reject_press now f).guard_reject_press_streak
            && not (is_transitioning (observe focused (note_reject_press now f))))
          (λ h. stop-IsFenced _ (Frame-IsFenced (release_grab-Frame _) counted)) (λ h. counted))

step-IsFenced :
    (focused : List Call → Bool) (now : ℕ) (op : Op) (f : Frontend)
    → IsFenced f
    → IsFenced (step focused now op f)
unfolding vk_forward_key vk_forward_modifiers
step-IsFenced focused now (focus_tick d creation) f o = apply-IsFenced focused now creation d f o
step-IsFenced focused now (keymap duplicated) f o = vk_forward_keymap-IsFenced now duplicated f o
step-IsFenced focused now (forward_key time key pressed) f o = vk_send-IsFenced now _ f o
step-IsFenced focused now (forward_modifiers depressed latched locked group) f o =
    vk_send-IsFenced now _ f o
step-IsFenced focused now reset_modifiers f o = vk_reset_modifiers-IsFenced now f o
step-IsFenced focused now (cancel_keymap_wait reason) f o =
    vk_cancel_keymap_wait-IsFenced now reason f o
step-IsFenced focused now health_check f o = vk_health_check-IsFenced now f o
step-IsFenced focused now (key_rejected pressed) f o =
    guard_note_reject-IsFenced focused now pressed f o
step-IsFenced focused now pause f o = Frame-IsFenced (keyboard_pause-Frame now f) o

run-IsFenced :
    (focused : List Call → Bool) (ops : List (ℕ × Op)) (f : Frontend)
    → IsFenced f
    → IsFenced (run focused ops f)
run-IsFenced focused [] f o = o
run-IsFenced focused ((now, op) ∷ ops) f o =
    run-IsFenced focused ops (step focused now op f) (step-IsFenced focused now op f o)

routing_state :
    (b : Bool) (k : Bool) (st : VkState)
    → (b
        && (elim (if not k then absent else (elim st as (λ x. GrabResourceState) [
          | vk_broken ↦ broken
          | vk_needs_keymap ↦ needs_keymap
          | vk_ready ↦ ready
          | vk_absent ↦ absent
        ])) [ ready ↦ true | _ ↦ false ]))
      ≡ true
    → (k ≡ true) × (is_vk_ready st ≡ true)
routing_state b k st h = ground (arith, h)

-- In every run from a fenced state (such as a frontend without a keyboard), whatever the order of
-- ticks and events, their times, and what the grab's creation and the descriptors' duplication
-- meet: when keys may be routed to the engine, the virtual keyboard's object exists and holds the
-- keymap of the grab's own generation, which is not 0.
pub run-routes_current_keymap :
    (focused : List Call → Bool) (ops : List (ℕ × Op)) (f : Frontend)
    → IsFenced f
    → can_route_keys (observe focused (run focused ops f)) ≡ true
    → let g = run focused ops f in
      (g.vk.vk ≡ true)
      × (1 ≤ g.tracker.active_generation)
      × (g.vk.keymap_generation ≡ g.tracker.active_generation)
unfolding can_route_keys observe
run-routes_current_keymap focused ops f o routes =
    let g = run focused ops f in
    let fenced = run-IsFenced focused ops f o in
    let (k, r) = routing_state _ (has_keyboard g) g.vk.state routes in
    (fenced.object (ready-needs_object g.vk.state r), fenced.numbered k, fenced.current k r)
