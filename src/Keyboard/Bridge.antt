-- ===== src/Keyboard/Bridge.antt =====
-- The virtual keyboard (src/wayland/keyboard/bridge.c). `now` is the clock's value where an
-- operation reads it, and a keymap's descriptor is duplicated or not: the caller's world decides.
pub mod Release
pub mod Health
mod Examples
use typiod_wayland.Prelude.{
  ℕ, zero, suc, ◌+◌, ◌-◌, ◌≡◌, refl, Bool, true, false, not, ◌&&◌, ◌||◌, List, [], ◌∷◌, ◌++◌,
  Option, none, some, map, u32, u64, sub64, ltb, leb, ◌==◌, if◌then◌else◌,
}
use typiod_wayland.Keyboard.State.{
  TrackState, VkState, vk_absent, vk_needs_keymap, vk_ready, vk_broken, VirtualKeyboard, KeyTracker,
  Keyboard, Frontend, Call, vk_key, vk_modifiers, vk_keymap, grab_release, xkb_clear, call,
  frontend_stop, is_vk_ready, is_vk_needs_keymap, is_vk_broken, is_vk_absent,
}
use typiod_wayland.Keyboard.Tracker.{is_held_by_app, mark_released_pending}

-- The reasons that the source compares by their text.
pub data CancelReason : Type 0 where
  grab_cleared_before_keymap : CancelReason
  keymap_wait_cancelled : CancelReason
  another_reason : CancelReason

abbrev pub is_keymap_cancel : CancelReason → Bool
is_keymap_cancel another_reason = false
is_keymap_cancel _ = true

abbrev pub has_current_generation_keymap : Frontend → Bool
has_current_generation_keymap f =
    not (f.tracker.active_generation == 0)
    && (f.vk.keymap_generation == f.tracker.active_generation)

-- The window of 30 s in which cancelled waits are counted; the warnings that it leads to are
-- logging.
unfoldable pub record_keymap_cancel : ℕ → CancelReason → Frontend → Frontend
record_keymap_cancel now reason f =
    if not (is_keymap_cancel reason)
    then f
    else let start = f.vk.keymap_cancel_window_start_ms in
      let v =
        if (start == 0) || ltb 30000 (sub64 now start)
        then record f.vk { keymap_cancel_window_start_ms = now; keymap_cancel_count = 0 }
        else f.vk in
      record f { vk = record v { keymap_cancel_count = u64 (v.keymap_cancel_count + 1) } }

unfoldable pub mark_forward_progress : ℕ → Frontend → Frontend
mark_forward_progress now f = record f {
  vk = record f.vk { last_forward_ms = now; active_generation_dirty = true };
}

abbrev is_same_state : VkState → VkState → Bool
is_same_state vk_absent vk_absent = true
is_same_state vk_needs_keymap vk_needs_keymap = true
is_same_state vk_ready vk_ready = true
is_same_state vk_broken vk_broken = true
is_same_state _ _ = false

unfoldable pub vk_set_state : ℕ → VkState → Frontend → Frontend
vk_set_state now st f = record f {
  vk = record f.vk {
    state = st;
    state_since_ms = now;
    has_keymap = is_vk_ready st && has_current_generation_keymap f;
    keymap_deadline_ms = if is_vk_needs_keymap st then f.vk.keymap_deadline_ms else 0;
    drop_count = if is_vk_ready st && not (is_same_state f.vk.state st) then 0 else f.vk.drop_count;
  };
}

-- The wait for a keymap ends 1500 ms from now.
unfoldable pub vk_expect_keymap : ℕ → Frontend → Frontend
vk_expect_keymap now f =
    if f.vk.vk
    then vk_set_state now vk_needs_keymap
        (record f { vk = record f.vk { keymap_deadline_ms = u64 (now + 1500) } })
    else f

unfoldable pub vk_cancel_keymap_wait : ℕ → CancelReason → Frontend → Frontend
vk_cancel_keymap_wait now reason f =
    let g = record_keymap_cancel now reason f in
    if not (is_vk_needs_keymap f.vk.state)
    then f
    else if has_current_generation_keymap g
    then vk_set_state now vk_ready g
    else record g { vk = record g.vk { keymap_deadline_ms = 0 } }

-- `typio_wl_keyboard_release_grab` of keyboard.c, on the frontend's keyboard.
unfoldable pub release_grab : Frontend → Frontend
release_grab f = elim f.keyboard [
  | none ↦ f
  | some k ↦
      if k.grab
      then call grab_release (record f { keyboard = some (record k { grab = false }) })
      else f
]

unfoldable pub vk_trigger_fail_safe : Frontend → Frontend
vk_trigger_fail_safe f = if f.running then frontend_stop (release_grab f) else f

unfoldable pub vk_promote : ℕ → Frontend → Frontend
vk_promote now f =
    if f.vk.vk && is_vk_needs_keymap f.vk.state && has_current_generation_keymap f
    then vk_set_state now vk_ready f
    else f

unfoldable pub vk_drop : Frontend → Frontend
vk_drop f =
    let g = record f { vk = record f.vk { drop_count = u64 (f.vk.drop_count + 1) } } in
    if is_vk_broken g.vk.state then vk_trigger_fail_safe g else g

unfoldable pub vk_is_ready : ℕ → Frontend → Frontend × Bool
vk_is_ready now f =
    let g = vk_promote now f in if is_vk_ready g.vk.state then (g, true) else (vk_drop g, false)

abbrev pub has_grab : Option Keyboard → Bool
has_grab none = false
has_grab (some k) = k.grab

unfoldable pub vk_health_check : ℕ → Frontend → Frontend
vk_health_check now f =
    if not f.running
      || not (has_grab f.keyboard)
      || not (is_vk_needs_keymap f.vk.state)
      || (f.vk.keymap_deadline_ms == 0)
    then f
    else if ltb now f.vk.keymap_deadline_ms
    then f
    else vk_trigger_fail_safe f

-- What is sent through the virtual keyboard once it is ready, the drop otherwise.
unfoldable pub vk_send : ℕ → Call → Frontend → Frontend
vk_send now c f =
    let (g, ok) = vk_is_ready now f in if ok then call c (mark_forward_progress now g) else g

unfoldable pub vk_forward_key : ℕ → ℕ → ℕ → Bool → Frontend → Frontend
vk_forward_key now time key pressed f = vk_send now (vk_key time key pressed) f

unfoldable pub vk_forward_modifiers : ℕ → ℕ → ℕ → ℕ → ℕ → Frontend → Frontend
vk_forward_modifiers now depressed latched locked group f =
    vk_send now (vk_modifiers depressed latched locked group) f

-- The releases of the keys that the application holds, from the key `i` on.
unfoldable pub releases : ℕ → ℕ → List TrackState → List Call
releases time i [] = []
releases time i (st ∷ states) =
    let rest = releases time (i + 1) states in
    if is_held_by_app st then vk_key time i false ∷ rest else rest

unfoldable pub vk_release_forwarded_keys : ℕ → Frontend → Frontend
vk_release_forwarded_keys now f =
    if not f.vk.vk || is_vk_absent f.vk.state || is_vk_broken f.vk.state then f else record f {
      out = f.out ++ releases (u32 now) 0 f.tracker.states;
      tracker = record f.tracker { states = (mark_released_pending f.tracker.states).0 };
    }

unfoldable pub clear_modifiers : Frontend → Frontend
clear_modifiers f = elim f.keyboard [
  | none ↦ f
  | some k ↦
      let g = record f {
        keyboard = some (record k {
          physical_modifiers = 0;
          mods_depressed = 0;
          mods_latched = 0;
          mods_locked = 0;
          mods_group = 0;
        });
      } in
      if k.xkb_state then call xkb_clear g else g
]

unfoldable pub vk_reset_modifiers : ℕ → Frontend → Frontend
vk_reset_modifiers now f =
    let (g, ok) = vk_is_ready now f in
    let h = call (vk_modifiers 0 0 0 0) (mark_forward_progress now g) in
    if ok then clear_modifiers (record h { vk = record h.vk { carried_modifiers = false } }) else g

-- `duplicated` tells whether `dup` succeeds.
unfoldable pub vk_forward_keymap : ℕ → Bool → Frontend → Frontend
vk_forward_keymap now duplicated f =
    let g = call vk_keymap f in
    let v = record g.vk { last_keymap_ms = now; keymap_generation = g.tracker.active_generation } in
    if not f.vk.vk
    then f
    else if duplicated
    then vk_set_state now vk_ready (record g { vk = v })
    else vk_set_state now vk_broken f
