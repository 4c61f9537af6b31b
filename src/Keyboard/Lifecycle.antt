-- ===== src/Keyboard/Lifecycle.antt =====
-- The life of the keyboard grab: src/wayland/keyboard/keyboard.c (create, destroy, pause and the
-- stuck-press guard) and src/wayland/focus_effects.c (observe and apply).
pub mod Frame
pub mod Fence
pub mod Reset
pub mod Keymap
pub mod Runs
pub mod Arrival
pub mod Recovery
mod Examples
use typiod_wayland.Prelude.{
  ℕ, ◌+◌, ◌≡◌, refl, Bool, true, false, not, ◌&&◌, ◌||◌, List, [], ◌∷◌, ◌++◌, Option, none, some,
  u64, sub64, ltb, leb, ◌==◌, if◌then◌else◌,
}
use typiod_wayland.Engine.Focus.{
  GrabResourceState, absent, needs_keymap, ready, broken, ActualState, EffectSet, can_route_keys,
  is_transitioning,
}
use typiod_wayland.Keyboard.State.{
  VkState, vk_absent, vk_needs_keymap, vk_ready, vk_broken, arbiter_idle, KeyArbiter, Keyboard,
  Frontend, Call, grab_keyboard, xkb_clear, repeat_disarm, set_preedit, im_commit, context_reset,
  context_focus_in, context_focus_out, clear_identity, refresh_identity, restore_identity_engine,
  hide_candidates, cancel_ui_tracking, reset_anchor, early_anchor_probe, show_focus_indicator, call,
  next_generation, frontend_stop,
}
use typiod_wayland.Keyboard.Tracker.{tracking_reset, tracking_reset_generations}
use typiod_wayland.Keyboard.Bridge.{
  another_reason, release_grab, vk_expect_keymap, vk_cancel_keymap_wait, vk_release_forwarded_keys,
  vk_reset_modifiers,
}

-- What `typio_wl_keyboard_create` meets: no memory, a failure after the tracker was reset, or a
-- grab, with a repeat timer or without.
pub data Creation : Type 0 where
  no_memory : Creation
  no_grab : Creation
  made : Bool → Creation

abbrev pub empty_arbiter : KeyArbiter
empty_arbiter = record { state = arbiter_idle; buffer = [] }

abbrev pub new_keyboard : Bool → ℕ → Keyboard
new_keyboard timer epoch = record {
  grab = true;
  xkb_state = false;
  physical_modifiers = 0;
  mods_depressed = 0;
  mods_latched = 0;
  mods_locked = 0;
  mods_group = 0;
  saw_blocking_modifier = false;
  repeat_timer = timer;
  repeating = false;
  created_at_epoch = epoch;
  arbiter = empty_arbiter;
}

unfoldable pub guard_reset : Frontend → Frontend
guard_reset f = record f { guard_reject_press_streak = 0; guard_reject_press_window_start_ms = 0 }

unfoldable pub keyboard_tracking_reset : Frontend → Frontend
keyboard_tracking_reset f = guard_reset (record f {
  tracker = record f.tracker {
    states = tracking_reset f.tracker.states;
    generations = tracking_reset_generations f.tracker.generations;
  };
})

-- The part of the creation that precedes the grab.
unfoldable pub enter_generation : Frontend → Frontend
enter_generation f = keyboard_tracking_reset (record f {
  tracker = record f.tracker {
    active_generation = next_generation f.tracker.active_generation;
    active_generation_owned_keys = false;
  };
  vk = record f.vk { active_generation_dirty = false };
  watchdog_armed = true;
})

-- `frontend->keyboard = typio_wl_keyboard_create(frontend)`
unfoldable pub keyboard_create : Creation → Frontend → Frontend
keyboard_create no_memory f = record f { keyboard = none }
keyboard_create no_grab f =
    if f.input_method
    then record (enter_generation f) { keyboard = none }
    else record f { keyboard = none }
keyboard_create (made timer) f =
    if f.input_method
    then call grab_keyboard
        (record (enter_generation f) { keyboard = some (new_keyboard timer f.dispatch_epoch) })
    else record f { keyboard = none }

unfoldable pub repeat_stop : Frontend → Frontend
repeat_stop f = elim f.keyboard [
  | none ↦ f
  | some k ↦
      let g = record f { keyboard = some (record k { repeating = false }) } in
      if k.repeat_timer then call repeat_disarm g else g
]

unfoldable pub cancel_repeat : Frontend → Frontend
cancel_repeat f = elim f.keyboard [ none ↦ f | some k ↦ if k.repeating then repeat_stop f else f ]

abbrev pub has_keyboard : Frontend → Bool
has_keyboard f = elim f.keyboard [ none ↦ false | some k ↦ true ]

-- `typio_wl_keyboard_destroy(frontend->keyboard); frontend->keyboard = nullptr`
unfoldable pub keyboard_destroy : ℕ → Frontend → Frontend
keyboard_destroy now f =
    record (keyboard_tracking_reset (
      repeat_stop
        (release_grab (vk_release_forwarded_keys now (record f { watchdog_armed = false }))))) {
          keyboard = none;
        }

unfoldable pub scrub_keyboard : Frontend → Frontend
scrub_keyboard f = elim f.keyboard [
  | none ↦ f
  | some k ↦
      let g = if k.xkb_state then call xkb_clear f else f in
      record g {
        keyboard = some (record k {
          physical_modifiers = 0;
          saw_blocking_modifier = false;
          arbiter = empty_arbiter;
        });
      }
]

unfoldable pub keyboard_pause : ℕ → Frontend → Frontend
keyboard_pause now f =
    if not (has_keyboard f)
    then f
    else scrub_keyboard (keyboard_tracking_reset (repeat_stop (vk_release_forwarded_keys now f)))

-- `typio_wl_set_preedit` with an empty text, and `typio_wl_commit`.
unfoldable pub clear_preedit : Frontend → Frontend
clear_preedit f = if f.input_method then call set_preedit f else f

unfoldable pub wl_commit : Frontend → Frontend
wl_commit f =
    if not f.input_method || not f.session || (f.im_serial == 0)
    then f
    else call (im_commit f.im_serial) f

-- `focused` stands for `typio_input_context_is_focused`: the answer of the context after the calls
-- that were made.
unfoldable pub observe : (List Call → Bool) → Frontend → ActualState
observe focused f = record {
  connection_alive = f.display;
  ic_focused = f.session && f.ctx && focused f.out;
  grab = if not (has_keyboard f) then absent else elim f.vk.state [
    | vk_broken ↦ broken
    | vk_needs_keymap ↦ needs_keymap
    | vk_ready ↦ ready
    | vk_absent ↦ absent
  ];
}

unfoldable pub hard_reset_keyboard : ℕ → Frontend → Frontend
hard_reset_keyboard now f =
    let g =
      if has_keyboard f
      then keyboard_destroy now (cancel_repeat (vk_release_forwarded_keys now f))
      else f in
    let h = vk_reset_modifiers now (vk_cancel_keymap_wait now another_reason g) in
    record h {
      vk = record h.vk { carried_modifiers = false; active_generation_dirty = false };
      tracker = record h.tracker { active_generation_owned_keys = false };
    }

-- The nine effects, in the order of the source.
unfoldable pub apply_discard : Frontend → Frontend
apply_discard f =
    if f.session && f.ctx
    then call cancel_ui_tracking (call hide_candidates (call context_reset f))
    else f

unfoldable pub apply_focus_out : ℕ → Frontend → Frontend
apply_focus_out now f =
    let g = call clear_identity (call context_focus_out f) in
    if not (f.session && f.ctx) then f else if has_keyboard f then keyboard_pause now g else g

unfoldable pub apply_scrub : Frontend → Frontend
apply_scrub f = record f {
  tracker = record f.tracker {
    active_generation = next_generation f.tracker.active_generation;
    states = tracking_reset f.tracker.states;
    generations = tracking_reset_generations f.tracker.generations;
  };
}

unfoldable pub apply_create : ℕ → Creation → Frontend → Frontend
apply_create now creation f = vk_expect_keymap now (keyboard_create creation f)

unfoldable pub apply_focus_in : Frontend → Frontend
apply_focus_in f =
    let g = call early_anchor_probe (call reset_anchor f) in
    if f.session && f.ctx
    then call (show_focus_indicator false)
        (call restore_identity_engine (call refresh_identity (call context_focus_in g)))
    else g

unfoldable pub apply_reactivate : Frontend → Frontend
apply_reactivate f =
    call (show_focus_indicator true) (call early_anchor_probe (call reset_anchor f))

-- An effect that is not set is left out.
abbrev pub when : Bool → (Frontend → Frontend) → Frontend → Frontend
when b step f = if b then step f else f

unfoldable pub apply : ℕ → Creation → EffectSet → Frontend → Frontend
apply now creation e f =
    let f1 = when e.discard_composition apply_discard f in
    let f2 = when e.send_focus_out (apply_focus_out now) f1 in
    let f3 = when e.destroy_grab (hard_reset_keyboard now) f2 in
    let f4 = when e.clear_preedit clear_preedit f3 in
    let f5 = when e.commit wl_commit f4 in
    let f6 = when e.scrub_generation apply_scrub f5 in
    let f7 = when e.create_grab (apply_create now creation) f6 in
    let f8 = when e.send_focus_in apply_focus_in f7 in when e.reactivate apply_reactivate f8

-- `guard_note_reject` of a press: the eighth within 1500 ms, outside a handshake, stops the
-- frontend.
unfoldable pub note_reject_press : ℕ → Frontend → Frontend
note_reject_press now f =
    let start = f.guard_reject_press_window_start_ms in
    if (start == 0) || ltb 1500 (sub64 now start)
    then record f { guard_reject_press_window_start_ms = now; guard_reject_press_streak = 1 }
    else record f { guard_reject_press_streak = u64 (f.guard_reject_press_streak + 1) }

unfoldable pub guard_note_reject : (List Call → Bool) → ℕ → Bool → Frontend → Frontend
guard_note_reject focused now pressed f =
    let g = note_reject_press now f in
    if not pressed
    then f
    else if leb 8 g.guard_reject_press_streak && not (is_transitioning (observe focused g))
    then frontend_stop (release_grab g)
    else g
