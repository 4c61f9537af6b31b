-- ===== src/Keyboard/Lifecycle/Reset.antt =====
-- The hard reset of the keyboard (src/wayland/focus_effects.c) under the fence between the
-- generations of the grab.
use typiod_wayland.Prelude.{
  ℕ, ◌≡◌, refl, sym, ◌∙◌, Bool, true, false, not, ◌&&◌, none, if◌then◌else◌, Bool-cases, inl, inr,
  arith,
}
use typiod_wayland.Keyboard.State.{
  Frontend, VkState, vk_absent, vk_needs_keymap, vk_ready, vk_broken, is_vk_ready,
  is_vk_needs_keymap, is_vk_broken,
}
use typiod_wayland.Keyboard.Bridge.{
  CancelReason, another_reason, vk_is_ready, vk_promote, vk_drop, vk_trigger_fail_safe,
  vk_set_state, has_current_generation_keymap, vk_cancel_keymap_wait, vk_release_forwarded_keys,
  vk_reset_modifiers, record_keymap_cancel, mark_forward_progress,
}
use typiod_wayland.Keyboard.Lifecycle.{
  cancel_repeat, keyboard_destroy, hard_reset_keyboard, has_keyboard,
}
use typiod_wayland.Keyboard.Lifecycle.Frame.{
  Frame, release_grab-Frame, vk_release_forwarded_keys-Frame, keyboard_tracking_reset-Frame,
  repeat_stop-Frame, cancel_repeat-Frame, clear_modifiers-Frame,
}
use typiod_wayland.Keyboard.Lifecycle.Fence.{
  needs_object, IsFenced, if-IsFenced, set_ready-IsFenced, Frame-IsFenced, vk-IsFenced,
  record_keymap_cancel-IsFenced, current-generation, vk_reset_modifiers-IsFenced,
}

record_keymap_cancel-state :
    (now : ℕ) (reason : CancelReason) (f : Frontend)
    → (record_keymap_cancel now reason f).vk.state ≡ f.vk.state
unfolding record_keymap_cancel
record_keymap_cancel-state now reason f = ground arith

needs_object_waiting : (st : VkState) → not (is_vk_needs_keymap st) ≡ false → needs_object st ≡ true
needs_object_waiting vk_absent h = absurd (ground arith)
needs_object_waiting vk_needs_keymap h = refl
needs_object_waiting vk_ready h = refl
needs_object_waiting vk_broken h = absurd (ground arith)

pub vk_cancel_keymap_wait-IsFenced :
    (now : ℕ) (reason : CancelReason) (f : Frontend)
    → IsFenced f
    → IsFenced (vk_cancel_keymap_wait now reason f)
unfolding vk_cancel_keymap_wait
vk_cancel_keymap_wait-IsFenced now reason f o =
    let g = record_keymap_cancel now reason f in
    let counted = record_keymap_cancel-IsFenced now reason f o in
    if-IsFenced (not (is_vk_needs_keymap f.vk.state)) (λ e. o)
      (λ e.
        if-IsFenced (has_current_generation_keymap g)
          (λ h.
            set_ready-IsFenced now g counted
              (counted.object
                (rw (record_keymap_cancel-state now reason f) (needs_object_waiting f.vk.state e)))
              (current-generation g h))
          (λ h. vk-IsFenced g _ refl refl refl counted))

-- Without a keyboard only the virtual keyboard's object is claimed.
gone-IsFenced : (f : Frontend) → IsFenced f → IsFenced (record f { keyboard = none })
gone-IsFenced f o = record {
  object = o.object;
  numbered = λ h. ground arith;
  current = λ h r. ground arith;
}

keyboard_destroy-IsFenced :
    (now : ℕ) (f : Frontend) → IsFenced f → IsFenced (keyboard_destroy now f)
unfolding keyboard_destroy
keyboard_destroy-IsFenced now f o = gone-IsFenced _ (
    Frame-IsFenced (keyboard_tracking_reset-Frame _) (
      Frame-IsFenced (repeat_stop-Frame _) (
        Frame-IsFenced (release_grab-Frame _) (
          Frame-IsFenced (vk_release_forwarded_keys-Frame now _)
            (record { object = o.object; numbered = o.numbered; current = o.current })))))

-- A keyboard that is there has no ready virtual keyboard.
unfoldable pub IsClosed : Frontend → Type 0
IsClosed f = has_keyboard f ≡ true → is_vk_ready f.vk.state ≡ false

pub Frame-IsClosed : {f g : Frontend} → Frame f g → IsClosed f → IsClosed g
unfolding IsClosed
Frame-IsClosed a c = λ h. rw a.vk (c (sym a.kept ∙ h))

pub if-kept :
    (g h : Frontend) {x : Bool} (b : Bool)
    → has_keyboard g ≡ x
    → has_keyboard h ≡ x
    → has_keyboard (if b then g else h) ≡ x
if-kept g h true p q = p
if-kept g h false p q = q

vk_promote-kept : (now : ℕ) (f : Frontend) → has_keyboard (vk_promote now f) ≡ has_keyboard f
unfolding vk_promote vk_set_state
vk_promote-kept now f =
    if-kept _ _ (f.vk.vk && is_vk_needs_keymap f.vk.state && has_current_generation_keymap f) refl
      refl

vk_trigger_fail_safe-kept : (f : Frontend) → has_keyboard (vk_trigger_fail_safe f) ≡ has_keyboard f
unfolding vk_trigger_fail_safe
vk_trigger_fail_safe-kept f = if-kept _ _ f.running (release_grab-Frame f).kept refl

vk_drop-kept : (f : Frontend) → has_keyboard (vk_drop f) ≡ has_keyboard f
unfolding vk_drop
vk_drop-kept f = if-kept _ _ (is_vk_broken f.vk.state) (vk_trigger_fail_safe-kept _) refl

pub vk_is_ready-kept :
    (now : ℕ) (f : Frontend) → has_keyboard (vk_is_ready now f).0 ≡ has_keyboard f
unfolding vk_is_ready
vk_is_ready-kept now f = elim (Bool-cases (is_vk_ready (vk_promote now f).vk.state)) [
  | inl e ↦ rw e (vk_promote-kept now f)
  | inr e ↦ rw e (vk_drop-kept (vk_promote now f) ∙ vk_promote-kept now f)
]

vk_reset_modifiers-kept :
    (now : ℕ) (f : Frontend) → has_keyboard (vk_reset_modifiers now f) ≡ has_keyboard f
unfolding vk_reset_modifiers mark_forward_progress
vk_reset_modifiers-kept now f =
    if-kept _ _ (vk_is_ready now f).1 ((clear_modifiers-Frame _).kept ∙ vk_is_ready-kept now f)
      (vk_is_ready-kept now f)

vk_cancel_keymap_wait-kept :
    (now : ℕ) (f : Frontend)
    → has_keyboard (vk_cancel_keymap_wait now another_reason f) ≡ has_keyboard f
unfolding vk_cancel_keymap_wait record_keymap_cancel vk_set_state
vk_cancel_keymap_wait-kept now f =
    if-kept _ _ (not (is_vk_needs_keymap f.vk.state)) refl
      (if-kept _ _ (has_current_generation_keymap f) refl refl)

-- A hard reset leaves no keyboard.
pub hard_reset-no_keyboard :
    (now : ℕ) (f : Frontend) → has_keyboard (hard_reset_keyboard now f) ≡ false
unfolding hard_reset_keyboard keyboard_destroy
hard_reset-no_keyboard now f =
    vk_reset_modifiers-kept now _
    ∙ vk_cancel_keymap_wait-kept now _
    ∙ (elim (Bool-cases (has_keyboard f)) [ inl e ↦ rw e refl | inr e ↦ rw e e ])

pub hard_reset-IsClosed : (now : ℕ) (f : Frontend) → IsClosed (hard_reset_keyboard now f)
unfolding IsClosed
hard_reset-IsClosed now f = λ h. absurd (ground (arith, h, hard_reset-no_keyboard now f))

pub hard_reset-IsFenced :
    (now : ℕ) (f : Frontend) → IsFenced f → IsFenced (hard_reset_keyboard now f)
unfolding hard_reset_keyboard
hard_reset-IsFenced now f o =
    let g =
      if has_keyboard f
      then keyboard_destroy now (cancel_repeat (vk_release_forwarded_keys now f))
      else f in
    let destroyed : IsFenced g =
      if-IsFenced (has_keyboard f)
        (λ e. keyboard_destroy-IsFenced now _ (
          Frame-IsFenced (cancel_repeat-Frame _)
            (Frame-IsFenced (vk_release_forwarded_keys-Frame now f) o)))
        (λ e. o) in
    let reset =
      vk_reset_modifiers-IsFenced now _
        (vk_cancel_keymap_wait-IsFenced now another_reason g destroyed) in
    record { object = reset.object; numbered = reset.numbered; current = reset.current }
