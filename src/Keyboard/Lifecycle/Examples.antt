-- ===== src/Keyboard/Lifecycle/Examples.antt =====
-- The keyboard's life at concrete states.
use typiod_wayland.Prelude.{
  ℕ, ◌≡◌, ◌≤◌, refl, Bool, true, false, List, [], ◌∷◌, none, some, replicate, arith,
}
use typiod_wayland.Engine.Focus.{DesiredState, want_yes, can_route_keys, diff}
use typiod_wayland.Engine.Focus.Converge.{Matches, perform}
use typiod_wayland.Keyboard.Lifecycle.Arrival.{apply-Matches}
use typiod_wayland.Keyboard.State.{
  Frontend, VirtualKeyboard, KeyTracker, Call, idle, vk_needs_keymap, vk_broken,
}
use typiod_wayland.Keyboard.Tracker.{tracking_reset, tracking_reset_generations}
use typiod_wayland.Keyboard.Bridge.{
  vk_forward_key, vk_send, vk_is_ready, vk_promote, vk_forward_keymap, vk_expect_keymap,
  vk_set_state, mark_forward_progress,
}
use typiod_wayland.Keyboard.Lifecycle.{
  apply_focus_in, apply_create, keyboard_create, apply_scrub, enter_generation,
  keyboard_tracking_reset, guard_reset, made, new_keyboard, observe, apply,
}
use typiod_wayland.Keyboard.Lifecycle.Fence.{IsFenced}
use typiod_wayland.Keyboard.Lifecycle.Runs.{
  Op, focus_tick, keymap, forward_key, run, run-routes_current_keymap,
}
use typiod_wayland.Keyboard.Lifecycle.Recovery.{recovery-stops}

abbrev no_keys : KeyTracker
no_keys = record {
  states = replicate 512 idle;
  generations = replicate 512 0;
  active_generation = 0;
  active_generation_owned_keys = false;
}

abbrev new_vk : VirtualKeyboard
new_vk = record {
  vk = true;
  state = vk_needs_keymap;
  has_keymap = false;
  keymap_generation = 0;
  drop_count = 0;
  keymap_cancel_count = 0;
  keymap_cancel_window_start_ms = 0;
  state_since_ms = 0;
  last_keymap_ms = 0;
  last_forward_ms = 0;
  keymap_deadline_ms = 0;
  active_generation_dirty = false;
  carried_modifiers = false;
}

abbrev bound : Frontend
bound = record {
  display = true;
  input_method = true;
  im_serial = 1;
  running = true;
  dispatch_epoch = 3;
  guard_reject_press_streak = 0;
  guard_reject_press_window_start_ms = 0;
  watchdog_armed = false;
  session = true;
  ctx = true;
  keyboard = none;
  vk = new_vk;
  tracker = no_keys;
  out = [];
}

bound-IsFenced : IsFenced bound
bound-IsFenced = record {
  object = λ h. refl;
  numbered = λ h. ground (arith, h);
  current = λ h r. ground (arith, h);
}

abbrev focusing : DesiredState
focusing = record { grab = want_yes; focus_in = true; focus_out = false; reactivate = false }

-- The context is focused once it was told to be.
abbrev told : List Call → Bool
told [] = false
told (c ∷ calls) = true

abbrev activation : List (ℕ × Op)
activation =
    (100, focus_tick focusing (made true)) ∷ (120, keymap true) ∷ (130, forward_key 7 30 true) ∷ []

activation-routes : can_route_keys (observe told (run told activation bound)) ≡ true
unfolding can_route_keys observe vk_forward_key vk_send vk_is_ready vk_promote vk_forward_keymap
    apply diff apply_focus_in apply_create vk_expect_keymap keyboard_create apply_scrub
    enter_generation keyboard_tracking_reset guard_reset vk_set_state mark_forward_progress
    tracking_reset tracking_reset_generations
activation-routes = refl

run-routes_current_keymap_example :
    ((run told activation bound).vk.vk ≡ true)
    × (1 ≤ (run told activation bound).tracker.active_generation)
    × ((run told activation bound).vk.keymap_generation
        ≡ (run told activation bound).tracker.active_generation)
run-routes_current_keymap_example =
    run-routes_current_keymap told activation bound bound-IsFenced activation-routes

abbrev damaged : Frontend
damaged = record bound {
  keyboard = some (new_keyboard true 2);
  vk = record new_vk { state = vk_broken };
}

recovery-stops_example :
    (apply 100 (made true) (diff focusing (observe told damaged)) damaged).running ≡ false
recovery-stops_example = recovery-stops told 100 (made true) focusing damaged refl refl refl

apply-Matches_example :
    let e = diff focusing (observe told damaged) in
    let g = (observe told (apply 100 (made true) e damaged)).grab in
    (g ≡ perform e (observe told damaged).grab) × Matches want_yes g
apply-Matches_example = apply-Matches told 100 true focusing damaged refl refl
