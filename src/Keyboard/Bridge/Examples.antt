-- ===== src/Keyboard/Bridge/Examples.antt =====
-- The virtual keyboard at concrete states.
use typiod_wayland.Prelude.{◌≡◌, refl, true, false, [], ◌∷◌, ◌++◌, some, map, u32}
use typiod_wayland.Keyboard.State.{
  Frontend, VirtualKeyboard, KeyTracker, Keyboard, idle, forwarded, app_shortcut, engine_not_ready,
  vk_ready, vk_needs_keymap, vk_key, arbiter_idle,
}
use typiod_wayland.Keyboard.Bridge.{vk_release_forwarded_keys}
use typiod_wayland.Keyboard.Bridge.Release.{held_keys, released, release_forwarded_keys_lem}

abbrev typing : KeyTracker
typing = record {
  states = idle ∷ forwarded ∷ engine_not_ready ∷ app_shortcut ∷ [];
  generations = 0 ∷ 4 ∷ 4 ∷ 4 ∷ [];
  active_generation = 4;
  active_generation_owned_keys = true;
}

abbrev ready_vk : VirtualKeyboard
ready_vk = record {
  vk = true;
  state = vk_ready;
  has_keymap = true;
  keymap_generation = 4;
  drop_count = 0;
  keymap_cancel_count = 0;
  keymap_cancel_window_start_ms = 0;
  state_since_ms = 10;
  last_keymap_ms = 10;
  last_forward_ms = 20;
  keymap_deadline_ms = 0;
  active_generation_dirty = true;
  carried_modifiers = false;
}

abbrev grabbed : Keyboard
grabbed = record {
  grab = true;
  xkb_state = true;
  physical_modifiers = 0;
  mods_depressed = 0;
  mods_latched = 0;
  mods_locked = 0;
  mods_group = 0;
  saw_blocking_modifier = false;
  repeat_timer = true;
  repeating = false;
  created_at_epoch = 2;
  arbiter = record { state = arbiter_idle; buffer = [] };
}

abbrev focused : Frontend
focused = record {
  display = true;
  input_method = true;
  im_serial = 1;
  running = true;
  dispatch_epoch = 3;
  guard_reject_press_streak = 0;
  guard_reject_press_window_start_ms = 0;
  watchdog_armed = true;
  session = true;
  ctx = true;
  keyboard = some grabbed;
  vk = ready_vk;
  tracker = typing;
  out = [];
}

release_forwarded_keys_example :
    ((vk_release_forwarded_keys 50 focused).out
      ≡ [] ++ map (λ key. vk_key (u32 50) key false) (held_keys 0 typing.states))
    × ((vk_release_forwarded_keys 50 focused).tracker.states ≡ map released typing.states)
    × ((vk_release_forwarded_keys 60 (vk_release_forwarded_keys 50 focused)).out
        ≡ (vk_release_forwarded_keys 50 focused).out)
release_forwarded_keys_example = release_forwarded_keys_lem 50 60 focused refl refl refl

abbrev late : Frontend
late = record focused {
  vk = record ready_vk { state = vk_needs_keymap; keymap_deadline_ms = 1600 };
}
