-- ===== src/Keyboard/Modifiers.antt =====
-- The modifier policy and the repeat guard (src/wayland/keyboard/policy/modifiers.c and
-- repeat_guard.c). The bits and keysyms are libtypio's and xkbcommon's.
pub mod Held
use typiod_wayland.Prelude.{
  ℕ, ◌-◌, Bool, true, false, not, ◌&&◌, ◌||◌, bit_and, bit_or, ◌==◌, if◌then◌else◌,
}
use typiod_wayland.Keyboard.State.{
  TrackState, suppressed_startup, released_pending, engine_not_ready,
}
use typiod_wayland.Keyboard.Arbiter.{Symbols, all_modifiers}

-- `a & ~b`
abbrev pub without : ℕ → ℕ → ℕ
without a b = a - bit_and a b

module _ (sym : Symbols) where
  unfoldable pub modifier_bit : ℕ → ℕ
  modifier_bit keysym =
      if keysym == sym.shift_l || keysym == sym.shift_r
      then sym.mod_shift
      else if keysym == sym.control_l || keysym == sym.control_r
      then sym.mod_ctrl
      else if keysym == sym.alt_l || keysym == sym.alt_r
      then sym.mod_alt
      else if keysym == sym.super_l || keysym == sym.super_r
      then sym.mod_super
      else 0

  unfoldable pub modifiers_for_current_key : ℕ → ℕ → Bool → ℕ
  modifiers_for_current_key modifiers keysym pressed =
      let bit = modifier_bit keysym in
      if bit == 0
      then modifiers
      else if pressed
      then bit_or modifiers bit
      else without modifiers bit

  abbrev pub blocking : ℕ
  blocking = bit_or sym.mod_ctrl (bit_or sym.mod_alt sym.mod_super)

  -- `lock_bits` are those of Caps Lock and Num Lock.
  unfoldable pub effective_modifiers : ℕ → ℕ → ℕ → Bool → ℕ → Bool → ℕ
  effective_modifiers lock_bits physical xkb owned keysym pressed =
      let locks = bit_or physical (bit_and xkb lock_bits) in
      let modifiers = if owned then locks else bit_or locks (bit_and xkb blocking) in
      modifiers_for_current_key modifiers keysym pressed

  unfoldable pub sync_physical_modifiers : ℕ → ℕ → ℕ
  sync_physical_modifiers physical xkb =
      let bits = all_modifiers sym in bit_or (without physical bits) (bit_and xkb bits)

  unfoldable pub should_cancel_repeat : ℕ → ℕ → Bool
  should_cancel_repeat previous current =
      not (bit_and previous blocking == bit_and current blocking)

unfoldable pub should_run_repeat : TrackState → Bool
should_run_repeat suppressed_startup = false
should_run_repeat released_pending = false
should_run_repeat engine_not_ready = false
should_run_repeat _ = true
