-- ===== src/Keyboard/Arbiter.antt =====
-- The chord arbiter (src/wayland/keyboard/arbiter.c) and the chord policy
-- (src/wayland/keyboard/policy/chords.c). The modifier bits and keysyms are libtypio's, and what
-- the router does with an event is a parameter, `process`; so is the registry's language switch,
-- recorded as a call.
pub mod Order
mod Examples
use typiod_wayland.Prelude.{
  ℕ, ◌+◌, ◌-◌, ◌≡◌, refl, Bool, true, false, not, ◌&&◌, ◌||◌, List, [], ◌∷◌, ◌++◌, Option, none,
  some, bit_and, bit_or, ltb, leb, ◌==◌, if◌then◌else◌, length,
}
use typiod_wayland.Keyboard.State.{
  TrackState, idle, forwarded, ArbiterEvent, ArbiterState, arbiter_idle, arbiter_buffering,
  KeyArbiter, Keyboard, Frontend, Call, call, context_reset, hide_candidates, cancel_ui_tracking,
  switch_language, max_tracked_keys,
}
use typiod_wayland.Keyboard.Tracker.{get_state, clear_tracking}
use typiod_wayland.Keyboard.Bridge.{vk_forward_key}
use typiod_wayland.Keyboard.Lifecycle.{clear_preedit, wl_commit}

-- The constants of libtypio: the four modifier bits and their left and right keysyms.
pub record Symbols : Type 0 where
  pub mod_ctrl : ℕ
  pub mod_shift : ℕ
  pub mod_alt : ℕ
  pub mod_super : ℕ
  pub control_l : ℕ
  pub control_r : ℕ
  pub shift_l : ℕ
  pub shift_r : ℕ
  pub alt_l : ℕ
  pub alt_r : ℕ
  pub super_l : ℕ
  pub super_r : ℕ

abbrev pub max_buffered : ℕ
max_buffered = 8

abbrev has : ℕ → ℕ → Bool
has mods bit = not (bit_and mods bit == 0)

-- The shortcut policy; a binding is its modifier bits.
module _ (sym : Symbols) where
  unfoldable pub is_switch_modifier : ℕ → ℕ → Bool
  is_switch_modifier binding keysym =
      (has binding sym.mod_ctrl && (keysym == sym.control_l || keysym == sym.control_r))
      || (has binding sym.mod_shift && (keysym == sym.shift_l || keysym == sym.shift_r))
      || (has binding sym.mod_alt && (keysym == sym.alt_l || keysym == sym.alt_r))
      || (has binding sym.mod_super && (keysym == sym.super_l || keysym == sym.super_r))

  abbrev pub all_modifiers : ℕ
  all_modifiers = bit_or sym.mod_ctrl (bit_or sym.mod_shift (bit_or sym.mod_alt sym.mod_super))

  -- `mods & (all & ~binding)`: the bits of `mods & all` that `binding` lacks.
  abbrev pub unsupported : ℕ → ℕ → ℕ
  unsupported binding mods = let held = bit_and mods all_modifiers in held - bit_and held binding

  unfoldable pub should_start_buffering : ℕ → ℕ → ℕ → Bool
  should_start_buffering binding keysym physical =
      is_switch_modifier binding keysym
      && (bit_and physical binding == binding)
      && (unsupported binding physical == 0)

  unfoldable pub should_cancel : ℕ → ℕ → ℕ → Bool → Bool
  should_cancel binding keysym physical is_press =
      (is_press && not (is_switch_modifier binding keysym))
      || not (unsupported binding physical == 0)

abbrev pub chord_complete : ℕ → ℕ → Bool
chord_complete binding physical = bit_and physical binding == 0

unfoldable pub buffer_push : KeyArbiter → ArbiterEvent → KeyArbiter
buffer_push a ev =
    if leb max_buffered (length a.buffer) then a else record a { buffer = a.buffer ++ ev ∷ [] }

-- `typio_wl_key_arbiter_init`, and the same for `typio_wl_key_arbiter_reset`.
abbrev pub arbiter_init : KeyArbiter
arbiter_init = record { state = arbiter_idle; buffer = [] }

-- The releases of keys that were forwarded before the chord and whose release is consumed.
unfoldable pub release_orphaned_key : ℕ → ArbiterEvent → Frontend → Frontend
release_orphaned_key now ev f =
    if ev.is_press || leb max_tracked_keys ev.key then f else elim (get_state f.tracker ev.key) [
      | forwarded ↦
          let g = vk_forward_key now ev.time ev.key false f in
          record g { tracker = clear_tracking g.tracker ev.key }
      | _ ↦ f
    ]

unfoldable pub release_orphaned_keys : ℕ → List ArbiterEvent → Frontend → Frontend
release_orphaned_keys now [] f = f
release_orphaned_keys now (ev ∷ events) f =
    release_orphaned_keys now events (release_orphaned_key now ev f)

abbrev when_context : Bool → (Frontend → Frontend) → Frontend → Frontend
when_context b step f = if b then step f else f

-- `arbiter_consume`; `registry` tells whether the instance has one.
unfoldable pub consume : Bool → ℕ → List ArbiterEvent → Frontend → Frontend
consume registry now events f =
    let f1 = release_orphaned_keys now events f in
    let f2 = when_context (f1.session && f1.ctx) (call context_reset) f1 in
    let f3 = call hide_candidates (wl_commit (clear_preedit f2)) in
    let f4 = when_context f3.session (call cancel_ui_tracking) f3 in
    when_context registry (call switch_language) f4

-- What the arbiter does to its surroundings, apart from its own state: it processes an event, or
-- consumes the buffered ones.
pub data Action : Type 0 where
  processed : ArbiterEvent → Action
  consumed : List ArbiterEvent → Action

abbrev pub replay : List ArbiterEvent → List Action
replay [] = []
replay (ev ∷ events) = processed ev ∷ replay events

-- The events of the actions, in their order.
abbrev pub events_of : List Action → List ArbiterEvent
events_of [] = []
events_of (processed ev ∷ actions) = ev ∷ events_of actions
events_of (consumed events ∷ actions) = events ++ events_of actions

module _ (sym : Symbols) (binding : ℕ) where
  -- `typio_wl_key_arbiter_press`, at the physical modifiers that hold with the key pressed.
  unfoldable pub press : ℕ → ArbiterEvent → KeyArbiter → List Action × KeyArbiter
  press physical ev a = elim a.state [
    | arbiter_idle ↦
        if should_start_buffering sym binding ev.keysym physical
        then ([], buffer_push (record a { state = arbiter_buffering }) ev)
        else (processed ev ∷ [], a)
    | arbiter_buffering ↦
        if should_cancel sym binding ev.keysym physical true
          || leb (max_buffered - 1) (length a.buffer)
        then (replay a.buffer ++ processed ev ∷ [], arbiter_init)
        else ([], buffer_push a ev)
  ]

  -- `typio_wl_key_arbiter_release`
  unfoldable pub release : ℕ → ArbiterEvent → KeyArbiter → List Action × KeyArbiter
  release physical ev a = elim a.state [
    | arbiter_idle ↦ (processed ev ∷ [], a)
    | arbiter_buffering ↦
        if should_cancel sym binding ev.keysym physical false
        then (replay a.buffer ++ processed ev ∷ [], arbiter_init)
        else let pushed = buffer_push a ev in
          if chord_complete binding physical
          then (consumed pushed.buffer ∷ [], arbiter_init)
          else ([], pushed)
  ]

  abbrev pub arbitrate : ℕ → ArbiterEvent → KeyArbiter → List Action × KeyArbiter
  arbitrate physical ev a = if ev.is_press then press physical ev a else release physical ev a

  -- The events of a run, each with the physical modifiers at it.
  unfoldable pub arbitrate_all : List (ℕ × ArbiterEvent) → KeyArbiter → List Action × KeyArbiter
  arbitrate_all [] a = ([], a)
  arbitrate_all ((physical, ev) ∷ inputs) a =
      let (actions, a') = arbitrate physical ev a in
      let (more, a'') = arbitrate_all inputs a' in (actions ++ more, a'')

-- The actions on the frontend.
unfoldable pub perform :
    (ArbiterEvent → Frontend → Frontend) → Bool → ℕ → List Action → Frontend → Frontend
perform process registry now [] f = f
perform process registry now (processed ev ∷ actions) f =
    perform process registry now actions (process ev f)
perform process registry now (consumed events ∷ actions) f =
    perform process registry now actions (consume registry now events f)
