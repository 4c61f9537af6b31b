-- ===== src/EventLoop/Pipeline/Silence.antt =====
-- The effects on the keyboard, which tell the application nothing of a preedit.
use typiod_wayland.Prelude.{
  ℕ, ◌+◌, ◌≡◌, refl, ◌∙◌, Bool, true, false, not, ◌&&◌, ◌||◌, List, [], ◌∷◌, Option, some, u32, u64,
  if_both, Option-cases, inl, inr, if◌then◌else◌,
}
use typiod_wayland.Keyboard.State.{
  Frontend, Call, TrackState, VkState, vk_ready, call, is_vk_absent, is_vk_broken, is_vk_ready,
  is_vk_needs_keymap, vk_modifiers, grab_keyboard, grab_release, repeat_disarm, xkb_clear,
  clear_identity, context_focus_out, Keyboard,
}
use typiod_wayland.Keyboard.Tracker.{is_held_by_app}
use typiod_wayland.Keyboard.Bridge.{
  another_reason, has_current_generation_keymap, record_keymap_cancel, mark_forward_progress,
  vk_set_state, vk_expect_keymap, vk_cancel_keymap_wait, release_grab, vk_trigger_fail_safe,
  vk_promote, vk_drop, vk_is_ready, releases, vk_release_forwarded_keys, clear_modifiers,
  vk_reset_modifiers,
}
use typiod_wayland.Keyboard.Lifecycle.{
  Creation, no_memory, no_grab, made, guard_reset, keyboard_tracking_reset, enter_generation,
  keyboard_create, repeat_stop, cancel_repeat, keyboard_destroy, scrub_keyboard, keyboard_pause,
  has_keyboard, hard_reset_keyboard, apply_focus_out, apply_scrub, apply_create,
}
use typiod_wayland.InputMethod.Seen.{
  View, view, settled, view-append, Silent, Silent-refl, Silent-trans, call-Silent,
}

module _ (app : List ℕ × Option ℕ) where
  -- A step that makes no call.
  unsaid :
      {f g : Frontend}
      → g.input_method ≡ f.input_method
      → g.session ≡ f.session
      → g.im_serial ≡ f.im_serial
      → g.out ≡ f.out
      → Silent app f g
  unsaid m s n o = record { method = m; session = s; serial = n; kept = rw o refl }

  view-releases :
      (v : View) (time i : ℕ) (states : List TrackState) → view v (releases time i states) ≡ v
  unfolding releases
  view-releases v time i [] = refl
  view-releases v time i (st ∷ states) =
      if_both (λ (cs : List Call). view v cs ≡ v) (is_held_by_app st)
        (λ _. view-releases v time (i + 1) states) (λ _. view-releases v time (i + 1) states)

  release_keys-Silent : (now : ℕ) (f : Frontend) → Silent app f (vk_release_forwarded_keys now f)
  unfolding vk_release_forwarded_keys
  release_keys-Silent now f =
      let cs = releases (u32 now) 0 f.tracker.states in
      if_both (Silent app f) (not f.vk.vk || is_vk_absent f.vk.state || is_vk_broken f.vk.state)
        (λ _. Silent-refl app f)
        (λ _. record {
          method = refl;
          session = refl;
          serial = refl;
          kept =
              view-append (settled app) f.out cs
              ∙ view-releases (view (settled app) f.out) (u32 now) 0 f.tracker.states;
        })

  release_grab-Silent : (f : Frontend) → Silent app f (release_grab f)
  unfolding release_grab
  release_grab-Silent f = elim (Option-cases f.keyboard) [
    | inl e ↦ rw e (Silent-refl app _)
    | inr (k, e) ↦ rw e (
        if_both (Silent app _) k.grab
          (λ _. Silent-trans app (unsaid refl refl refl refl) (call-Silent app grab_release _ refl))
          (λ _. Silent-refl app _))
  ]

  repeat_stop-Silent : (f : Frontend) → Silent app f (repeat_stop f)
  unfolding repeat_stop
  repeat_stop-Silent f = elim (Option-cases f.keyboard) [
    | inl e ↦ rw e (Silent-refl app _)
    | inr (k, e) ↦ rw e (
        if_both (Silent app _) k.repeat_timer
          (λ _.
            Silent-trans app (unsaid refl refl refl refl) (call-Silent app repeat_disarm _ refl))
          (λ _. unsaid refl refl refl refl))
  ]

  cancel_repeat-Silent : (f : Frontend) → Silent app f (cancel_repeat f)
  unfolding cancel_repeat
  cancel_repeat-Silent f = elim (Option-cases f.keyboard) [
    | inl e ↦ rw e (Silent-refl app _)
    | inr (k, e) ↦
        rw e
          (if_both (Silent app _) k.repeating (λ _. repeat_stop-Silent _) (λ _. Silent-refl app _))
  ]

  clear_modifiers-Silent : (f : Frontend) → Silent app f (clear_modifiers f)
  unfolding clear_modifiers
  clear_modifiers-Silent f = elim (Option-cases f.keyboard) [
    | inl e ↦ rw e (Silent-refl app _)
    | inr (k, e) ↦ rw e (
        if_both (Silent app _) k.xkb_state
          (λ _. Silent-trans app (unsaid refl refl refl refl) (call-Silent app xkb_clear _ refl))
          (λ _. unsaid refl refl refl refl))
  ]

  scrubbed-Silent :
      (f : Frontend) (k : Keyboard) (b : Bool)
      → Silent app f (record (if b then call xkb_clear f else f) { keyboard = some k })
  scrubbed-Silent f k true =
      Silent-trans app (call-Silent app xkb_clear f refl) (unsaid refl refl refl refl)
  scrubbed-Silent f k false = unsaid refl refl refl refl

  scrub_keyboard-Silent : (f : Frontend) → Silent app f (scrub_keyboard f)
  unfolding scrub_keyboard
  scrub_keyboard-Silent f = elim (Option-cases f.keyboard) [
    | inl e ↦ rw e (Silent-refl app _)
    | inr (k, e) ↦ rw e (scrubbed-Silent _ _ k.xkb_state)
  ]

  tracking_reset-Silent : (f : Frontend) → Silent app f (keyboard_tracking_reset f)
  unfolding keyboard_tracking_reset guard_reset
  tracking_reset-Silent f = unsaid refl refl refl refl

  pause-Silent : (now : ℕ) (f : Frontend) → Silent app f (keyboard_pause now f)
  unfolding keyboard_pause
  pause-Silent now f =
      if_both (Silent app f) (not (has_keyboard f)) (λ _. Silent-refl app f)
        (λ _. Silent-trans app (release_keys-Silent now f) (
          Silent-trans app (repeat_stop-Silent _)
            (Silent-trans app (tracking_reset-Silent _) (scrub_keyboard-Silent _))))

  destroy-Silent : (now : ℕ) (f : Frontend) → Silent app f (keyboard_destroy now f)
  unfolding keyboard_destroy
  destroy-Silent now f =
      let g = record f { watchdog_armed = false } in
      Silent-trans app {g = g} (unsaid refl refl refl refl) (
        Silent-trans app (release_keys-Silent now g) (
          Silent-trans app (release_grab-Silent _) (
            Silent-trans app (repeat_stop-Silent _)
              (Silent-trans app (tracking_reset-Silent _) (unsaid refl refl refl refl)))))

  vk_set_state-Silent :
      (now : ℕ) (st : VkState) (f : Frontend) → Silent app f (vk_set_state now st f)
  unfolding vk_set_state
  vk_set_state-Silent now st f = unsaid refl refl refl refl

  vk_is_ready-Silent : (now : ℕ) (f : Frontend) → Silent app f (vk_is_ready now f).0
  unfolding vk_is_ready vk_promote vk_drop vk_trigger_fail_safe
  vk_is_ready-Silent now f =
      let p = vk_promote now f in
      let q = record p { vk = record p.vk { drop_count = u64 (p.vk.drop_count + 1) } } in
      let promoted : Silent app f p =
        if_both (Silent app f)
          (f.vk.vk && is_vk_needs_keymap f.vk.state && has_current_generation_keymap f)
          (λ _. vk_set_state-Silent now vk_ready f) (λ _. Silent-refl app f) in
      let counted : Silent app f q = Silent-trans app promoted (unsaid refl refl refl refl) in
      if_both (λ (r : Frontend × Bool). Silent app f r.0) (is_vk_ready p.vk.state) (λ _. promoted)
        (λ _.
          if_both (Silent app f) (is_vk_broken p.vk.state)
            (λ _.
              if_both (Silent app f) q.running
                (λ _.
                  Silent-trans app counted
                    (Silent-trans app (release_grab-Silent q) (unsaid refl refl refl refl)))
                (λ _. counted))
            (λ _. counted))

  reset_modifiers-Silent : (now : ℕ) (f : Frontend) → Silent app f (vk_reset_modifiers now f)
  unfolding vk_reset_modifiers mark_forward_progress
  reset_modifiers-Silent now f =
      let k = vk_is_ready-Silent now f in
      let (g, ok) = vk_is_ready now f in
      if_both (Silent app f) ok
        (λ _. Silent-trans app k (
          Silent-trans app {g = mark_forward_progress now g} (unsaid refl refl refl refl) (
            Silent-trans app (call-Silent app (vk_modifiers 0 0 0 0) _ refl)
              (Silent-trans app (unsaid refl refl refl refl) (clear_modifiers-Silent _)))))
        (λ _. k)

  cancel_wait-Silent :
      (now : ℕ) (f : Frontend) → Silent app f (vk_cancel_keymap_wait now another_reason f)
  unfolding vk_cancel_keymap_wait record_keymap_cancel
  cancel_wait-Silent now f =
      if_both (Silent app f) (not (is_vk_needs_keymap f.vk.state)) (λ _. Silent-refl app f)
        (λ _.
          if_both (Silent app f) (has_current_generation_keymap f)
            (λ _. vk_set_state-Silent now vk_ready f) (λ _. unsaid refl refl refl refl))

  pub hard_reset-Silent : (now : ℕ) (f : Frontend) → Silent app f (hard_reset_keyboard now f)
  unfolding hard_reset_keyboard
  hard_reset-Silent now f =
      let torn : Silent app f _ =
        if_both (Silent app f) (has_keyboard f)
          (λ _.
            Silent-trans app (release_keys-Silent now f)
              (Silent-trans app (cancel_repeat-Silent _) (destroy-Silent now _)))
          (λ _. Silent-refl app f) in
      Silent-trans app torn (
        Silent-trans app (cancel_wait-Silent now _)
          (Silent-trans app (reset_modifiers-Silent now _) (unsaid refl refl refl refl)))

  pub focus_out-Silent : (now : ℕ) (f : Frontend) → Silent app f (apply_focus_out now f)
  unfolding apply_focus_out
  focus_out-Silent now f =
      let left =
        Silent-trans app (call-Silent app context_focus_out f refl)
          (call-Silent app clear_identity _ refl) in
      if_both (Silent app f) (not (f.session && f.ctx)) (λ _. Silent-refl app f)
        (λ _.
          if_both (Silent app f) (has_keyboard f) (λ _. Silent-trans app left (pause-Silent now _))
            (λ _. left))

  pub scrub-Silent : (f : Frontend) → Silent app f (apply_scrub f)
  unfolding apply_scrub
  scrub-Silent f = unsaid refl refl refl refl

  create_keyboard-Silent : (c : Creation) (f : Frontend) → Silent app f (keyboard_create c f)
  unfolding keyboard_create enter_generation keyboard_tracking_reset guard_reset
  create_keyboard-Silent no_memory f = unsaid refl refl refl refl
  create_keyboard-Silent no_grab f =
      if_both (Silent app f) f.input_method (λ _. unsaid refl refl refl refl)
        (λ _. unsaid refl refl refl refl)
  create_keyboard-Silent (made timer) f =
      if_both (Silent app f) f.input_method
        (λ _. Silent-trans app (unsaid refl refl refl refl) (call-Silent app grab_keyboard _ refl))
        (λ _. unsaid refl refl refl refl)

  pub create-Silent : (now : ℕ) (c : Creation) (f : Frontend) → Silent app f (apply_create now c f)
  unfolding apply_create vk_expect_keymap vk_set_state
  create-Silent now c f =
      let g = keyboard_create c f in
      let k = create_keyboard-Silent c f in
      if_both (Silent app f) g.vk.vk (λ _. Silent-trans app k (unsaid refl refl refl refl)) (λ _. k)
