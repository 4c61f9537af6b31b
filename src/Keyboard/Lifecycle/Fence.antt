-- ===== src/Keyboard/Lifecycle/Fence.antt =====
-- The keymap that keys are routed under (src/wayland/focus_effects.c, keyboard/keyboard.c and
-- keyboard/bridge.c): the fence between the generations of the grab.
use typiod_wayland.Prelude.{
  ℕ, ◌+◌, ◌≤◌, ◌≡◌, refl, sym, ◌∙◌, Bool, true, false, not, ◌&&◌, ◌||◌, ◌==◌, if◌then◌else◌,
  Bool-cases, inl, inr, arith, u64, sub64, ltb,
}
use typiod_wayland.Keyboard.State.{
  Frontend, Call, call, VkState, vk_needs_keymap, vk_ready, is_vk_ready, is_vk_needs_keymap,
  is_vk_broken, vk_modifiers, next_generation, frontend_stop, VirtualKeyboard,
}
use typiod_wayland.Keyboard.Bridge.{
  CancelReason, has_current_generation_keymap, vk_set_state, vk_trigger_fail_safe, vk_promote,
  vk_drop, vk_is_ready, vk_health_check, vk_send, vk_reset_modifiers, vk_forward_keymap,
  record_keymap_cancel, is_keymap_cancel, mark_forward_progress, release_grab,
}
use typiod_wayland.Keyboard.Lifecycle.{has_keyboard}
use typiod_wayland.Keyboard.Lifecycle.Frame.{Frame, release_grab-Frame, clear_modifiers-Frame}

-- The states that only a virtual keyboard object reaches.
abbrev pub needs_object : VkState → Bool
needs_object vk_needs_keymap = true
needs_object vk_ready = true
needs_object _ = false

-- A keyboard has a generation, and where it has a ready virtual keyboard, the keymap of this
-- generation was handed over.
pub record IsFenced (f : Frontend) : Type 0 where
  pub object : needs_object f.vk.state ≡ true → f.vk.vk ≡ true
  pub numbered : has_keyboard f ≡ true → 1 ≤ f.tracker.active_generation
  pub current :
      has_keyboard f ≡ true
      → is_vk_ready f.vk.state ≡ true
      → f.vk.keymap_generation ≡ f.tracker.active_generation

pub Frame-IsFenced : {f g : Frontend} → Frame f g → IsFenced f → IsFenced g
Frame-IsFenced a o = record {
  object = λ h. rw a.vk (o.object (rw a.vk at h));
  numbered = λ h. rw a.generation (o.numbered (sym a.kept ∙ h));
  current = λ h r. rw (a.vk, a.generation) (o.current (sym a.kept ∙ h) (rw a.vk at r));
}

pub next_generation-pos : (g : ℕ) → 1 ≤ next_generation g
next_generation-pos g = ground arith

-- A ready state under a current keymap.
pub set_ready-IsFenced :
    (now : ℕ) (f : Frontend)
    → IsFenced f
    → f.vk.vk ≡ true
    → f.vk.keymap_generation ≡ f.tracker.active_generation
    → IsFenced (vk_set_state now vk_ready f)
unfolding vk_set_state
set_ready-IsFenced now f o v e = record {
  object = λ h. v;
  numbered = o.numbered;
  current = λ h r. e;
}

pub current-generation :
    (f : Frontend)
    → has_current_generation_keymap f ≡ true
    → f.vk.keymap_generation ≡ f.tracker.active_generation
current-generation f h = ground arith

pub if-IsFenced :
    {g h : Frontend} (b : Bool)
    → (b ≡ true → IsFenced g)
    → (b ≡ false → IsFenced h)
    → IsFenced (if b then g else h)
if-IsFenced true a c = a refl
if-IsFenced false a c = c refl

vk_promote-IsFenced : (now : ℕ) (f : Frontend) → IsFenced f → IsFenced (vk_promote now f)
unfolding vk_promote
vk_promote-IsFenced now f o =
    if-IsFenced (f.vk.vk && is_vk_needs_keymap f.vk.state && has_current_generation_keymap f)
      (λ e. set_ready-IsFenced now f o (ground arith) (current-generation f (ground arith)))
      (λ e. o)

-- A change of counters and clocks.
pub vk-IsFenced :
    (f : Frontend) (v : VirtualKeyboard)
    → v.vk ≡ f.vk.vk
    → v.state ≡ f.vk.state
    → v.keymap_generation ≡ f.vk.keymap_generation
    → IsFenced f
    → IsFenced (record f { vk = v })
vk-IsFenced f v a b c o = record {
  object = λ h. a ∙ o.object (rw b at h);
  numbered = o.numbered;
  current = λ h r. c ∙ o.current h (rw b at r);
}

pub stop-IsFenced : (f : Frontend) → IsFenced f → IsFenced (frontend_stop f)
stop-IsFenced f o = record { object = o.object; numbered = o.numbered; current = o.current }

vk_trigger_fail_safe-IsFenced : (f : Frontend) → IsFenced f → IsFenced (vk_trigger_fail_safe f)
unfolding vk_trigger_fail_safe
vk_trigger_fail_safe-IsFenced f o =
    if-IsFenced f.running
      (λ e. stop-IsFenced (release_grab f) (Frame-IsFenced (release_grab-Frame f) o)) (λ e. o)

vk_drop-IsFenced : (f : Frontend) → IsFenced f → IsFenced (vk_drop f)
unfolding vk_drop
vk_drop-IsFenced f o =
    let counted =
      vk-IsFenced f (record f.vk { drop_count = u64 (f.vk.drop_count + 1) }) refl refl refl o in
    if-IsFenced (is_vk_broken f.vk.state) (λ e. vk_trigger_fail_safe-IsFenced _ counted)
      (λ e. counted)

vk_is_ready-IsFenced : (now : ℕ) (f : Frontend) → IsFenced f → IsFenced (vk_is_ready now f).0
unfolding vk_is_ready
vk_is_ready-IsFenced now f o =
    let promoted = vk_promote-IsFenced now f o in
    elim (Bool-cases (is_vk_ready (vk_promote now f).vk.state)) [
      | inl e ↦ rw e promoted
      | inr e ↦ rw e (vk_drop-IsFenced (vk_promote now f) promoted)
    ]

progress-IsFenced :
    (now : ℕ) (c : Call) (f : Frontend)
    → IsFenced f
    → IsFenced (call c (mark_forward_progress now f))
unfolding mark_forward_progress
progress-IsFenced now c f o = record {
  object = o.object;
  numbered = o.numbered;
  current = o.current;
}

pub vk_send-IsFenced : (now : ℕ) (c : Call) (f : Frontend) → IsFenced f → IsFenced (vk_send now c f)
unfolding vk_send
vk_send-IsFenced now c f o =
    let sent = vk_is_ready-IsFenced now f o in
    if-IsFenced (vk_is_ready now f).1 (λ e. progress-IsFenced now c _ sent) (λ e. sent)

pub vk_reset_modifiers-IsFenced :
    (now : ℕ) (f : Frontend) → IsFenced f → IsFenced (vk_reset_modifiers now f)
unfolding vk_reset_modifiers
vk_reset_modifiers-IsFenced now f o =
    let sent = vk_is_ready-IsFenced now f o in
    if-IsFenced (vk_is_ready now f).1
      (λ e.
        Frame-IsFenced (clear_modifiers-Frame _)
          (vk-IsFenced _ _ refl refl refl (progress-IsFenced now (vk_modifiers 0 0 0 0) _ sent)))
      (λ e. sent)

pub vk_health_check-IsFenced :
    (now : ℕ) (f : Frontend) → IsFenced f → IsFenced (vk_health_check now f)
unfolding vk_health_check
vk_health_check-IsFenced now f o =
    if-IsFenced _ (λ e. o)
      (λ e.
        if-IsFenced (ltb now f.vk.keymap_deadline_ms) (λ e. o)
          (λ e. vk_trigger_fail_safe-IsFenced f o))

pub vk_forward_keymap-IsFenced :
    (now : ℕ) (duplicated : Bool) (f : Frontend)
    → IsFenced f
    → IsFenced (vk_forward_keymap now duplicated f)
unfolding vk_forward_keymap vk_set_state
vk_forward_keymap-IsFenced now duplicated f o =
    if-IsFenced (not f.vk.vk) (λ e. o)
      (λ e.
        if-IsFenced duplicated
          (λ d. record { object = λ h. ground arith; numbered = o.numbered; current = λ h r. refl })
          (λ d. record {
            object = λ h. ground arith;
            numbered = o.numbered;
            current = λ h r. ground arith;
          }))

pub record_keymap_cancel-IsFenced :
    (now : ℕ) (reason : CancelReason) (f : Frontend)
    → IsFenced f
    → IsFenced (record_keymap_cancel now reason f)
unfolding record_keymap_cancel
record_keymap_cancel-IsFenced now reason f o =
    if-IsFenced (not (is_keymap_cancel reason)) (λ e. o)
      (λ e.
        elim (Bool-cases (
          (f.vk.keymap_cancel_window_start_ms == 0)
          || ltb 30000 (sub64 now f.vk.keymap_cancel_window_start_ms))) [
            | inl w ↦ rw w (vk-IsFenced f _ refl refl refl o)
            | inr w ↦ rw w (vk-IsFenced f _ refl refl refl o)
          ])
