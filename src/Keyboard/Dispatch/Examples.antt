-- ===== src/Keyboard/Dispatch/Examples.antt =====
-- Key events and repeats at concrete states, over the router's.
use typiod_wayland.Prelude.{
  ℕ, ◌≡◌, ◌≢◌, refl, ap, Bool, true, false, ◌&&◌, ◌==◌, bit_and, some, arith,
}
use typiod_wayland.Keyboard.Modifiers.{blocking}
use typiod_wayland.Keyboard.Dispatch.Listeners.{Masks, on_modifiers, repeats, on_modifiers-repeats}
use typiod_wayland.Engine.Focus.{can_route_keys}
use typiod_wayland.Keyboard.State.{Keyboard, basic_passthrough, voice_ptt}
use typiod_wayland.Keyboard.Tracker.{get_state, set_state, is_held_by_app}
use typiod_wayland.Keyboard.Lifecycle.{observe}
use typiod_wayland.Keyboard.Router.{Route}
use typiod_wayland.Keyboard.Router.Press.{reserved_action, binding_matches_press}
use typiod_wayland.Keyboard.Router.Steps.{IsBalanced, track-IsOk, step-IsBalanced}
use typiod_wayland.Keyboard.Router.Examples.{
  silent_host, keyboard, start, start-IsBalanced, down_press,
}
use typiod_wayland.Keyboard.Dispatch.{World, Dispatcher, frontend_of, on_key, dispatch_repeat}
use typiod_wayland.Keyboard.Dispatch.Guard.{IsUnrouted, on_key-IsUnrouted}
use typiod_wayland.Keyboard.Dispatch.Repeats.{dispatch_repeat-IsBalanced}

abbrev world_with : Bool → World
world_with focused = record {
  now = 50;
  focused = λ calls. focused;
  xkb_modifiers = 0;
  lock_bits = 48;
  xkb_keymap = true;
  key_repeats = λ key. true;
  keysym_of = λ key. 65364;
  unicode_of = λ key. 0;
  expired = true;
  registry = true;
  switch_language = 3;
}

abbrev dispatcher : Route ℕ → Dispatcher ℕ
dispatcher r = record {
  route = r;
  timer = record { repeat_rate = 25; repeat_delay = 600; repeat_key = 108; repeat_time = 5 };
}

on_key-IsUnrouted_example :
    IsUnrouted silent_host
      (world_with false)
      down_press
      (dispatcher start)
      (on_key silent_host (world_with false) down_press keyboard (dispatcher start))
unfolding reserved_action binding_matches_press can_route_keys observe
on_key-IsUnrouted_example =
    on_key-IsUnrouted silent_host (world_with false) down_press keyboard (dispatcher start) refl
      refl refl

abbrev repeating : Keyboard
repeating = record keyboard { repeating = true }

start_idle : get_state start.frontend.tracker 108 ≢ basic_passthrough
unfolding get_state
start_idle e = ground (arith, ap is_held_by_app e)

dispatch_repeat-IsBalanced_example :
    IsBalanced
      (frontend_of (dispatch_repeat silent_host (world_with true) repeating (dispatcher start)))
dispatch_repeat-IsBalanced_example =
    dispatch_repeat-IsBalanced silent_host (world_with true) repeating (dispatcher start) start_idle
      (omega arith) start-IsBalanced

-- The key has started the voice.
abbrev talking : Route ℕ
talking = record start {
  frontend = record start.frontend { tracker = set_state start.frontend.tracker 108 voice_ptt };
}

talking-IsBalanced : IsBalanced talking.frontend
talking-IsBalanced =
    let ok = track-IsOk 108 voice_ptt start.frontend refl in
    step-IsBalanced ok.step start-IsBalanced ok.owed

-- A key repeats while Shift comes down.
abbrev shifted : Masks
shifted = record { depressed = 1; latched = 0; locked = 0; group = 0 }

on_modifiers-repeats_example :
    let bits = blocking silent_host.symbols in
    repeats (
      on_modifiers silent_host.symbols 50 0 1 shifted
        (record start.frontend { keyboard = some repeating }))
    ≡ (true && bit_and 0 bits == bit_and 1 bits)
on_modifiers-repeats_example =
    on_modifiers-repeats silent_host.symbols 50 0 1 shifted
      (record start.frontend { keyboard = some repeating }) repeating refl refl
