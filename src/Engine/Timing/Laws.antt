-- ===== src/Engine/Timing/Laws.antt =====
-- The timing rules against their descriptions without wrap-around (src/engine).
use typiod_wayland.Prelude.{
  ℕ, ◌+◌, ◌*◌, ◌^◌, ◌≤◌, ◌<◌, ◌≡◌, ◌↔◌, ◌⊎◌, inl, inr, Bool, true, false, arith, min,
}
use native.Mathlib.Nat.{one-le-pow, pow-le-pow_right}
use typiod_wayland.Engine.Focus.{GrabWant, want_none, want_soft_pause, want_yes}
use typiod_wayland.Engine.Timing.{
  reconnect_delay_ms, gap_exceeded, in_cooldown, is_in_guard_window, should_reset_carried_modifiers,
  should_carry_modifiers,
}

-- The delay of every attempt is 250 ms doubled per attempt and capped at 8 s: no shift wraps.
pub reconnect_delay_ms_lem :
    (attempt : ℕ) → reconnect_delay_ms attempt ≡ min 8000 (250 * 2 ^ attempt)
unfolding reconnect_delay_ms
reconnect_delay_ms_lem attempt =
    let few : attempt < 16 → 2 ^ attempt ≤ 32768 =
      λ h. pow-le-pow_right {n = 2} (omega arith) {i = attempt} {j = 15} (omega arith) in
    let many : 16 ≤ attempt → 65536 ≤ 2 ^ attempt =
      λ h. pow-le-pow_right {n = 2} (omega arith) {i = 16} {j = attempt} h in
    let one : 1 ≤ 2 ^ attempt = one-le-pow attempt 2 (omega arith) in ground arith

-- A gap is found exactly when the boot clock advanced by at least the threshold more than the
-- monotonic one, and by more than it at all.
pub gap_exceeded_iff :
    (mono boot threshold : ℕ)
    → mono < 2 ^ 64
    → boot < 2 ^ 64
    → ((gap_exceeded mono boot threshold).0 ≡ true) ↔ (mono < boot) × (mono + threshold ≤ boot)
unfolding gap_exceeded
gap_exceeded_iff mono boot threshold m b = ground arith

-- A fire is dropped exactly when one came before it, less than the cooldown ago.
pub in_cooldown_iff :
    (now last cooldown : ℕ)
    → last ≤ now
    → now < 2 ^ 64
    → (in_cooldown now last cooldown ≡ true) ↔ (0 < last) × (now < last + cooldown)
unfolding in_cooldown
in_cooldown_iff now last cooldown le m = ground arith

-- The guard window is the epoch of the grab's creation and the two after it.
pub is_in_guard_window_iff :
    (created current : ℕ)
    → created < 2 ^ 64
    → current < 2 ^ 64
    → (is_in_guard_window created current ≡ true) ↔ (created ≤ current) × (current ≤ created + 2)
unfolding is_in_guard_window
is_in_guard_window_iff created current a b = ground arith

-- Modifiers are carried over a boundary or reset at it, never both.
pub carry_or_reset :
    (want : GrabWant) (own carried : Bool) (depressed latched locked : ℕ)
    → (should_carry_modifiers want own depressed latched locked ≡ false)
      ⊎ (should_reset_carried_modifiers want carried ≡ false)
unfolding should_carry_modifiers should_reset_carried_modifiers
carry_or_reset want_none own carried depressed latched locked = inl (ground arith)
carry_or_reset want_soft_pause own carried depressed latched locked = inr (ground arith)
carry_or_reset want_yes own carried depressed latched locked = inl (ground arith)
