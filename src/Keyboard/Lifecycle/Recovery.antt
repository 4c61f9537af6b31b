-- ===== src/Keyboard/Lifecycle/Recovery.antt =====
-- The recovery from a broken virtual keyboard (src/wayland/focus_effects.c).
use typiod_wayland.Prelude.{
  ℕ, ◌≡◌, refl, ◌∙◌, Bool, true, false, ◌&&◌, if◌then◌else◌, Bool-cases, inl, inr, List, arith,
}
use typiod_wayland.Engine.Focus.{
  DesiredState, diff, is_yes, GrabResourceState, absent, needs_keymap, ready, broken,
}
use typiod_wayland.Keyboard.State.{
  Frontend, Call, VkState, vk_absent, vk_needs_keymap, vk_ready, vk_broken, is_vk_ready,
  is_vk_needs_keymap, is_vk_broken,
}
use typiod_wayland.Keyboard.Bridge.{
  another_reason, vk_is_ready, vk_promote, vk_drop, vk_trigger_fail_safe, vk_reset_modifiers,
  vk_cancel_keymap_wait, vk_set_state, vk_expect_keymap, vk_release_forwarded_keys,
  has_current_generation_keymap,
}
use typiod_wayland.Keyboard.Lifecycle.{
  Creation, no_memory, no_grab, made, apply, observe, has_keyboard, when, hard_reset_keyboard,
  keyboard_destroy, cancel_repeat, apply_scrub, apply_create, keyboard_create, enter_generation,
  keyboard_tracking_reset, guard_reset, apply_discard, apply_focus_out, clear_preedit, wl_commit,
}
use typiod_wayland.Keyboard.Lifecycle.Frame.{
  Frame-trans, when-Frame, release_grab-Frame, vk_release_forwarded_keys-Frame,
  keyboard_tracking_reset-Frame, repeat_stop-Frame, cancel_repeat-Frame, apply_discard-Frame,
  apply_focus_out-Frame, clear_preedit-Frame, wl_commit-Frame, apply_focus_in-Frame,
  apply_reactivate-Frame,
}

vk_promote_broken :
    (now : ℕ) (f : Frontend) → is_vk_needs_keymap f.vk.state ≡ false → vk_promote now f ≡ f
unfolding vk_promote
vk_promote_broken now f b =
    elim (Bool-cases
      (f.vk.vk && is_vk_needs_keymap f.vk.state && has_current_generation_keymap f)) [
        | inl e ↦ absurd (ground (arith, e, b))
        | inr e ↦ rw e refl
      ]

fail_safe-stops : (f : Frontend) → (vk_trigger_fail_safe f).running ≡ false
unfolding vk_trigger_fail_safe
fail_safe-stops f = elim (Bool-cases f.running) [ inl e ↦ rw e refl | inr e ↦ rw e refl ]

vk_drop-stops : (f : Frontend) → is_vk_broken f.vk.state ≡ true → (vk_drop f).running ≡ false
unfolding vk_drop
vk_drop-stops f b = rw b (fail_safe-stops _)

broken_state :
    (st : VkState)
    → is_vk_broken st ≡ true
    → (is_vk_needs_keymap st ≡ false) × (is_vk_ready st ≡ false)
broken_state st b = ground (arith, b)

vk_reset_modifiers-stops :
    (now : ℕ) (f : Frontend)
    → is_vk_broken f.vk.state ≡ true
    → (vk_reset_modifiers now f).running ≡ false
unfolding vk_reset_modifiers vk_is_ready
vk_reset_modifiers-stops now f b =
    let same = vk_promote_broken now f (broken_state f.vk.state b).0 in
    rw (same, (broken_state f.vk.state b).1) (vk_drop-stops f b)

vk_cancel_keymap_wait_broken :
    (now : ℕ) (f : Frontend)
    → is_vk_broken f.vk.state ≡ true
    → vk_cancel_keymap_wait now another_reason f ≡ f
unfolding vk_cancel_keymap_wait
vk_cancel_keymap_wait_broken now f b = rw (broken_state f.vk.state b).0 refl

keyboard_destroy-vk : (now : ℕ) (f : Frontend) → (keyboard_destroy now f).vk ≡ f.vk
unfolding keyboard_destroy
keyboard_destroy-vk now f =
    (keyboard_tracking_reset-Frame _).vk
    ∙ (repeat_stop-Frame _).vk
    ∙ (release_grab-Frame _).vk
    ∙ (vk_release_forwarded_keys-Frame now _).vk

hard_reset-stops :
    (now : ℕ) (f : Frontend)
    → is_vk_broken f.vk.state ≡ true
    → (hard_reset_keyboard now f).running ≡ false
unfolding hard_reset_keyboard
hard_reset-stops now f b =
    let g =
      if has_keyboard f
      then keyboard_destroy now (cancel_repeat (vk_release_forwarded_keys now f))
      else f in
    let still : is_vk_broken g.vk.state ≡ true = elim (Bool-cases (has_keyboard f)) [
      | inl e ↦ rw e (
          rw
            (
              keyboard_destroy-vk now (cancel_repeat (vk_release_forwarded_keys now f)),
              (cancel_repeat-Frame (vk_release_forwarded_keys now f)).vk,
              (vk_release_forwarded_keys-Frame now f).vk,
            )
            b)
      | inr e ↦ rw e b
    ] in
    rw (vk_cancel_keymap_wait_broken now g still) (vk_reset_modifiers-stops now g still)

vk_expect_keymap-running : (now : ℕ) (f : Frontend) → (vk_expect_keymap now f).running ≡ f.running
unfolding vk_expect_keymap vk_set_state
vk_expect_keymap-running now f = elim (Bool-cases f.vk.vk) [ inl e ↦ rw e refl | inr e ↦ rw e refl ]

keyboard_create-running :
    (creation : Creation) (f : Frontend) → (keyboard_create creation f).running ≡ f.running
unfolding keyboard_create enter_generation keyboard_tracking_reset guard_reset
keyboard_create-running no_memory f = refl
keyboard_create-running no_grab f = elim (Bool-cases f.input_method) [
  | inl e ↦ rw e refl
  | inr e ↦ rw e refl
]
keyboard_create-running (made timer) f = elim (Bool-cases f.input_method) [
  | inl e ↦ rw e refl
  | inr e ↦ rw e refl
]

when-running :
    (step : Frontend → Frontend) (b : Bool) (f : Frontend)
    → (step f).running ≡ f.running
    → (when b step f).running ≡ f.running
when-running step true f h = h
when-running step false f h = refl

recovery-destroys :
    (d : DesiredState) (focused : List Call → Bool) (f : Frontend)
    → is_yes d.grab ≡ true
    → has_keyboard f ≡ true
    → f.vk.state ≡ vk_broken
    → (diff d (observe focused f)).destroy_grab ≡ true
unfolding diff observe
recovery-destroys d focused f wants k b =
    let named : (elim f.vk.state as (λ x. GrabResourceState) [
      | vk_broken ↦ broken
      | vk_needs_keymap ↦ needs_keymap
      | vk_ready ↦ ready
      | vk_absent ↦ absent
    ])
        ≡ broken =
      rw b refl in
    rw k (rw named (ground (arith, wants)))

-- The recovery from a broken virtual keyboard, "tear down and rebuild in the same tick", ends the
-- event loop: a tick that wants the grab and finds the keyboard there with a broken virtual
-- keyboard leaves `running` false, whatever else it wants and whatever the creation meets. The hard
-- reset sends the modifiers' reset to the broken virtual keyboard, which is the fail-safe's case.
pub recovery-stops :
    (focused : List Call → Bool) (now : ℕ) (creation : Creation) (d : DesiredState) (f : Frontend)
    → is_yes d.grab ≡ true
    → has_keyboard f ≡ true
    → f.vk.state ≡ vk_broken
    → (apply now creation (diff d (observe focused f)) f).running ≡ false
unfolding apply apply_scrub apply_create
recovery-stops focused now creation d f wants k b =
    let e = diff d (observe focused f) in
    let f1 = when e.discard_composition apply_discard f in
    let f2 = when e.send_focus_out (apply_focus_out now) f1 in
    let f3 = when e.destroy_grab (hard_reset_keyboard now) f2 in
    let f5 = when e.commit wl_commit (when e.clear_preedit clear_preedit f3) in
    let f6 = when e.scrub_generation apply_scrub f5 in
    let f7 = when e.create_grab (apply_create now creation) f6 in
    let a =
      Frame-trans (when-Frame e.discard_composition apply_discard-Frame f)
        (when-Frame e.send_focus_out (apply_focus_out-Frame now) f1) in
    let still : is_vk_broken f2.vk.state ≡ true = rw (a.vk, b) refl in
    let stopped : f3.running ≡ false =
      rw (recovery-destroys d focused f wants k b) (hard_reset-stops now f2 still) in
    (when-Frame e.reactivate apply_reactivate-Frame _).running
    ∙ (when-Frame e.send_focus_in apply_focus_in-Frame _).running
    ∙ when-running (apply_create now creation) e.create_grab f6
        (vk_expect_keymap-running now _ ∙ keyboard_create-running creation f6)
    ∙ when-running apply_scrub e.scrub_generation f5 refl
    ∙ (when-Frame e.commit wl_commit-Frame _).running
    ∙ (when-Frame e.clear_preedit clear_preedit-Frame _).running
    ∙ stopped
