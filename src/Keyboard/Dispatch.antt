-- ===== src/Keyboard/Dispatch.antt =====
-- The dispatch of key events (`on_key` and the process helpers of src/wayland/keyboard/keyboard.c)
-- and of the repeat timer (src/wayland/keyboard/repeat.c), over the arbiter and the router.
pub mod Guard
pub mod Repeats
pub mod Listeners
mod Examples
use typiod_wayland.Prelude.{
  ℕ, ◌/◌, Bool, true, false, not, ◌&&◌, ◌||◌, List, [], ◌∷◌, Option, none, some, bit_and, bit_or,
  ltb, ◌==◌, if◌then◌else◌,
}
use typiod_wayland.Engine.Focus.{ActualState, can_route_keys}
use typiod_wayland.Keyboard.State.{
  TrackState, idle, forwarded, basic_passthrough, app_shortcut, Frontend, Keyboard, KeyArbiter,
  ArbiterEvent, Call, call, repeat_arm, frontend_stop, is_vk_ready,
}
use typiod_wayland.Keyboard.Tracker.{get_state}
use typiod_wayland.Keyboard.Bridge.{release_grab, vk_forward_key}
use typiod_wayland.Keyboard.Lifecycle.{
  repeat_stop, guard_reset, guard_note_reject, observe, has_keyboard,
}
use typiod_wayland.Keyboard.Modifiers.{
  effective_modifiers, modifiers_for_current_key, should_run_repeat,
}
use typiod_wayland.Keyboard.Arbiter.{Action, processed, consumed, consume, arbitrate}
use typiod_wayland.Keyboard.Router.{
  Host, Route, Session, KeyEvent, ReservedAction, reserved_emergency_exit, on_frontend, track,
  forward, holds_blocking,
}
use typiod_wayland.Keyboard.Router.Press.{process_press, reserved_action, ask, guard_consumes}
use typiod_wayland.Keyboard.Router.Release.{process_release}

-- The repeat's fields of `TypioWlKeyboard`; a rate or a delay that is not positive is 0.
pub record RepeatTimer : Type 0 where
  pub repeat_rate : ℕ
  pub repeat_delay : ℕ
  pub repeat_key : ℕ
  pub repeat_time : ℕ

pub record Dispatcher (Context : Type 0) : Type 0 where
  pub route : Route Context
  pub timer : RepeatTimer

-- What an event finds: the clock, whether the context is focused after the calls made, what xkb
-- says of modifiers and keys, whether the timer's expirations can be read, and the registry with
-- the modifiers of its language switch.
pub record World : Type 0 where
  pub now : ℕ
  pub focused : List Call → Bool
  pub xkb_modifiers : ℕ
  pub lock_bits : ℕ
  pub xkb_keymap : Bool
  pub key_repeats : ℕ → Bool
  pub keysym_of : ℕ → ℕ
  pub unicode_of : ℕ → ℕ
  pub expired : Bool
  pub registry : Bool
  pub switch_language : ℕ

module _ {Context : Type 0} where
  abbrev pub frontend_of : Dispatcher Context → Frontend
  frontend_of d = d.route.frontend

  abbrev pub on_route : (Route Context → Route Context) → Dispatcher Context → Dispatcher Context
  on_route step d = record d { route = step d.route }

  abbrev pub on_frontend_of : (Frontend → Frontend) → Dispatcher Context → Dispatcher Context
  on_frontend_of step d = on_route (on_frontend step) d

abbrev set_keyboard : Keyboard → Frontend → Frontend
set_keyboard k f = record f { keyboard = some k }

abbrev pub delay_ms : RepeatTimer → ℕ
delay_ms t = if ltb 0 t.repeat_delay then t.repeat_delay else 600

abbrev pub interval_ms : RepeatTimer → ℕ
interval_ms t = let ms = 1000 / t.repeat_rate in if ltb ms 1 then 1 else ms

module _ {Context : Type 0} (host : Host Context) (w : World) where
  -- `typio_wl_keyboard_repeat_maybe_start`
  unfoldable pub repeat_maybe_start : Keyboard → ℕ → ℕ → ℕ → Dispatcher Context → Dispatcher Context
  repeat_maybe_start k key time modifiers d =
      if not k.repeat_timer || (d.timer.repeat_rate == 0) || holds_blocking host modifiers
      then d
      else let t = record d.timer { repeat_key = key; repeat_time = time } in
        on_frontend_of (call (repeat_arm (delay_ms t) (interval_ms t)))
          (on_frontend_of (set_keyboard (record k { repeating = true })) (record d { timer = t }))

  abbrev with_keyboard :
      (Keyboard → Dispatcher Context → Dispatcher Context) → Dispatcher Context → Dispatcher Context
  with_keyboard step d = elim (frontend_of d).keyboard [ none ↦ d | some k ↦ step k d ]

  unfoldable pub process_key_press :
      ArbiterEvent → Keyboard → Dispatcher Context → Dispatcher Context
  process_key_press ev k d =
      let d1 = on_route (process_press host w.now k ev) d in
      if ltb 0 d1.timer.repeat_rate
        && w.xkb_keymap
        && should_run_repeat (get_state (frontend_of d1).tracker ev.key)
        && w.key_repeats ev.key
      then with_keyboard (λ k1. repeat_maybe_start k1 ev.key ev.time ev.modifiers) d1
      else d1

  unfoldable pub process_key_release :
      ArbiterEvent → Keyboard → Dispatcher Context → Dispatcher Context
  process_key_release ev k d =
      let d1 =
        if k.repeating && (d.timer.repeat_key == ev.key) then on_frontend_of repeat_stop d else d in
      on_route (process_release host w.now k ev) d1

  unfoldable pub process_event : ArbiterEvent → Dispatcher Context → Dispatcher Context
  process_event ev d =
      with_keyboard (if ev.is_press then process_key_press ev else process_key_release ev) d

  -- The arbiter's actions, in their order.
  unfoldable pub perform_actions : List Action → Dispatcher Context → Dispatcher Context
  perform_actions [] d = d
  perform_actions (processed ev ∷ actions) d = perform_actions actions (process_event ev d)
  perform_actions (consumed events ∷ actions) d =
      perform_actions actions (on_frontend_of (consume w.registry w.now events) d)

  abbrev pub context_focused : Frontend → Bool
  context_focused f = f.session && f.ctx && w.focused f.out

  -- `guard_reason` is null.
  abbrev pub passes_guard : Frontend → Bool
  passes_guard f = f.session && can_route_keys (observe w.focused f) && f.ctx && w.focused f.out

  -- The grab is ready and nothing is focused: the key goes through.
  abbrev pub is_paused : Frontend → Bool
  is_paused f = has_keyboard f && is_vk_ready f.vk.state && not (context_focused f)

  unfoldable pub rejected_key : ArbiterEvent → Keyboard → Dispatcher Context → Dispatcher Context
  rejected_key ev k d =
      let noted = on_frontend_of (guard_note_reject w.focused w.now ev.is_press) d in
      if is_paused (frontend_of d)
      then on_frontend_of (vk_forward_key w.now ev.time ev.key ev.is_press)
          (on_frontend_of guard_reset d)
      else if not ev.is_press && k.repeating && (d.timer.repeat_key == ev.key)
      then on_frontend_of repeat_stop noted
      else noted

  -- The physical modifiers follow the key before the arbiter sees it; then its actions are done.
  unfoldable pub accepted_key : ArbiterEvent → Keyboard → Dispatcher Context → Dispatcher Context
  accepted_key ev k d =
      let physical =
        modifiers_for_current_key host.symbols k.physical_modifiers ev.keysym ev.is_press in
      let (actions, arbiter) = arbitrate host.symbols w.switch_language physical ev k.arbiter in
      let k1 = record k { physical_modifiers = physical; arbiter = arbiter } in
      perform_actions actions (on_frontend_of (set_keyboard k1) (on_frontend_of guard_reset d))

  abbrev is_emergency : ReservedAction → Bool
  is_emergency reserved_emergency_exit = true
  is_emergency _ = false

  -- Whether the event is a press of the emergency exit.
  abbrev pub exits : ArbiterEvent → Dispatcher Context → Bool
  exits ev d =
      ev.is_press && is_emergency (reserved_action d.route.shortcuts ev.keysym ev.modifiers)

  -- The event as the router sees it, with its effective modifiers.
  abbrev pub dispatched : ArbiterEvent → Keyboard → Frontend → ArbiterEvent
  dispatched ev k f = record ev {
    modifiers =
        effective_modifiers host.symbols w.lock_bits k.physical_modifiers w.xkb_modifiers
          f.tracker.active_generation_owned_keys ev.keysym ev.is_press;
  }

  -- `on_key` past its xkb test, for the event with its modifiers
  unfoldable pub dispatch_key : ArbiterEvent → Keyboard → Dispatcher Context → Dispatcher Context
  dispatch_key ev k d =
      if exits ev d
      then on_frontend_of (λ f. frontend_stop (release_grab f)) d
      else if not (passes_guard (frontend_of d))
      then rejected_key ev k d
      else accepted_key ev k d

  -- `on_key`; the record of key activity for the indicator is left out.
  unfoldable pub on_key : ArbiterEvent → Keyboard → Dispatcher Context → Dispatcher Context
  on_key ev k d = if not k.xkb_state then d else dispatch_key (dispatched ev k (frontend_of d)) k d

  abbrev stop : Dispatcher Context → Dispatcher Context
  stop d = on_frontend_of repeat_stop d

  -- The event of a repeat, whose `base_keysym` is not set.
  abbrev pub repeat_event : Keyboard → RepeatTimer → KeyEvent
  repeat_event k t = record {
    struct_size = host.event_size;
    is_press = true;
    keycode = t.repeat_key;
    keysym = w.keysym_of t.repeat_key;
    modifiers = bit_or k.physical_modifiers (bit_and w.xkb_modifiers w.lock_bits);
    unicode = w.unicode_of t.repeat_key;
    time = t.repeat_time;
    is_repeat = true;
    base_keysym = 0;
  }

  abbrev pub repeat_forward : Dispatcher Context → Dispatcher Context
  repeat_forward d =
      on_frontend_of (vk_forward_key w.now d.timer.repeat_time d.timer.repeat_key true) d

  unfoldable pub repeat_engine : Keyboard → Dispatcher Context → Dispatcher Context
  repeat_engine k d =
      let (r, handled) = ask host (repeat_event k d.timer) d.route in
      let d1 = record d { route = r } in
      if handled
      then d1
      else if guard_consumes host r.session (w.keysym_of d.timer.repeat_key)
      then d1
      else on_route (track d.timer.repeat_key forwarded) (repeat_forward d1)

  -- By the state of the repeating key.
  abbrev pub repeat_in : TrackState → Keyboard → Dispatcher Context → Dispatcher Context
  repeat_in app_shortcut k d =
      if holds_blocking host k.physical_modifiers then repeat_forward d else stop d
  repeat_in forwarded k d = repeat_forward d
  repeat_in basic_passthrough k d = repeat_forward d
  repeat_in st k d = if should_run_repeat st then repeat_engine k d else stop d

  -- `typio_wl_keyboard_dispatch_repeat`
  unfoldable pub dispatch_repeat : Keyboard → Dispatcher Context → Dispatcher Context
  dispatch_repeat k d =
      let f = frontend_of d in
      if not k.repeating || not k.repeat_timer
      then d
      else if not (can_route_keys (observe w.focused f))
      then stop d
      else if not w.expired
      then d
      else if not k.xkb_state || not f.session || not f.ctx || not (w.focused f.out)
      then stop d
      else repeat_in (get_state f.tracker d.timer.repeat_key) k d
