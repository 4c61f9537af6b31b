-- ===== src/Engine/Timing.antt =====
-- The timing rules of src/engine: backoff.c, resume_model.h, startup.c and boundary.c.
pub mod Laws
use typiod_wayland.Prelude.{
  ℕ, ◌+◌, ◌-◌, ◌*◌, ◌^◌, Bool, true, false, not, ◌&&◌, ◌||◌, u32, sub64, ltb, leb, ◌==◌,
  if◌then◌else◌, bit_and,
}
use typiod_wayland.Engine.Focus.{GrabWant, want_soft_pause}

abbrev pub base_delay_ms : ℕ
base_delay_ms = 250

abbrev pub max_delay_ms : ℕ
max_delay_ms = 8000

-- `base << attempt` on uint32_t; a shift that wraps is clamped as well.
unfoldable pub reconnect_delay_ms : ℕ → ℕ
reconnect_delay_ms attempt =
    if leb 16 attempt
    then max_delay_ms
    else let delay = u32 (base_delay_ms * 2 ^ attempt) in
      if ltb max_delay_ms delay || ltb delay base_delay_ms then max_delay_ms else delay

unfoldable pub should_retry : ℕ → Bool
should_retry attempt = ltb attempt 12

-- The verdict, and the gap written through `gap_ms_out`.
unfoldable pub gap_exceeded : ℕ → ℕ → ℕ → Bool × ℕ
gap_exceeded mono_delta boot_delta threshold =
    if leb boot_delta mono_delta
    then (false, 0)
    else let gap = sub64 boot_delta mono_delta in (leb threshold gap, gap)

unfoldable pub in_cooldown : ℕ → ℕ → ℕ → Bool
in_cooldown now last_fire cooldown = not (last_fire == 0) && ltb (sub64 now last_fire) cooldown

-- The window of two dispatch epochs after the creation of a grab.
unfoldable pub is_in_guard_window : ℕ → ℕ → Bool
is_in_guard_window created current =
    if ltb current created then false else leb (sub64 current created) 2

abbrev is_soft_pause : GrabWant → Bool
is_soft_pause want_soft_pause = true
is_soft_pause _ = false

unfoldable pub should_reset_carried_modifiers : GrabWant → Bool → Bool
should_reset_carried_modifiers want carried = carried && not (is_soft_pause want)

unfoldable pub should_carry_modifiers : GrabWant → Bool → ℕ → ℕ → ℕ → Bool
should_carry_modifiers want own depressed latched locked =
    if not own || not (is_soft_pause want)
    then false
    else not (depressed == 0) || not (latched == 0) || not (locked == 0)

-- `blocking_held` tells whether Ctrl, Alt or Super is among the modifiers, `enter_key` whether the
-- keysym is one of the two Enter keys.
unfoldable pub should_forward_orphan_release_cleanup : Bool → Bool → Bool → Bool
should_forward_orphan_release_cleanup enter_key blocking_held saw_blocking_modifier =
    if enter_key then true else saw_blocking_modifier || blocking_held
