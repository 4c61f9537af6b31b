-- ===== src/Keyboard/Lifecycle/Arrival.antt =====
-- What a tick does to the observed grab (src/wayland/focus_effects.c), against the pure reading of
-- the effect set.
use typiod_wayland.Prelude.{
  ℕ, ◌≡◌, refl, sym, ap, ◌∙◌, Bool, true, false, not, ◌&&◌, if◌then◌else◌, Bool-cases, inl, inr,
  List,
}
use mathlib.Core.Path.{subst}
use typiod_wayland.Engine.Focus.{
  DesiredState, EffectSet, diff, GrabResourceState, absent, needs_keymap, ready, broken,
}
use typiod_wayland.Engine.Focus.Converge.{Matches, perform, diff-Matches}
use typiod_wayland.Keyboard.State.{
  Frontend, Call, VkState, vk_absent, vk_needs_keymap, vk_ready, vk_broken, is_vk_ready,
  is_vk_needs_keymap, is_vk_broken,
}
use typiod_wayland.Keyboard.Bridge.{
  another_reason, has_current_generation_keymap, vk_is_ready, vk_promote, vk_drop,
  vk_trigger_fail_safe, vk_reset_modifiers, vk_cancel_keymap_wait, record_keymap_cancel,
  mark_forward_progress, vk_set_state, vk_expect_keymap,
}
use typiod_wayland.Keyboard.Lifecycle.{
  made, apply, observe, has_keyboard, when, hard_reset_keyboard, keyboard_destroy, apply_scrub,
  apply_create, keyboard_create, enter_generation, keyboard_tracking_reset, guard_reset,
  apply_discard, apply_focus_out, clear_preedit, wl_commit,
}
use typiod_wayland.Keyboard.Lifecycle.Frame.{
  Frame, Frame-trans, when-Frame, release_grab-Frame, vk_release_forwarded_keys-Frame,
  keyboard_tracking_reset-Frame, repeat_stop-Frame, cancel_repeat-Frame, clear_modifiers-Frame,
  apply_discard-Frame, apply_focus_out-Frame, clear_preedit-Frame, wl_commit-Frame,
  apply_focus_in-Frame, apply_reactivate-Frame,
}
use typiod_wayland.Keyboard.Lifecycle.Reset.{hard_reset-no_keyboard}

-- The objects that the compositor gave out.
record Objects (f g : Frontend) : Type 0 where
  object : g.vk.vk ≡ f.vk.vk
  method : g.input_method ≡ f.input_method

Objects-refl : (f : Frontend) → Objects f f
Objects-refl f = record { object = refl; method = refl }

Objects-trans : {f g h : Frontend} → Objects f g → Objects g h → Objects f h
Objects-trans a b = record { object = b.object ∙ a.object; method = b.method ∙ a.method }

if-Objects :
    {f g h : Frontend} (b : Bool) → Objects f g → Objects f h → Objects f (if b then g else h)
if-Objects true a c = a
if-Objects false a c = c

Frame-Objects : {f g : Frontend} → Frame f g → Objects f g
Frame-Objects a = record { object = ap (λ v. v.vk) a.vk; method = a.method }

vk_promote-Objects : (now : ℕ) (f : Frontend) → Objects f (vk_promote now f)
unfolding vk_promote vk_set_state
vk_promote-Objects now f =
    if-Objects (f.vk.vk && is_vk_needs_keymap f.vk.state && has_current_generation_keymap f)
      (record { object = refl; method = refl }) (Objects-refl f)

fail_safe-Objects : (f : Frontend) → Objects f (vk_trigger_fail_safe f)
unfolding vk_trigger_fail_safe
fail_safe-Objects f =
    let released = Frame-Objects (release_grab-Frame f) in
    if-Objects f.running (record { object = released.object; method = released.method })
      (Objects-refl f)

vk_drop-Objects : (f : Frontend) → Objects f (vk_drop f)
unfolding vk_drop
vk_drop-Objects f =
    if-Objects (is_vk_broken f.vk.state)
      (Objects-trans (record { object = refl; method = refl }) (fail_safe-Objects _))
      (record { object = refl; method = refl })

vk_is_ready-Objects : (now : ℕ) (f : Frontend) → Objects f (vk_is_ready now f).0
unfolding vk_is_ready
vk_is_ready-Objects now f = elim (Bool-cases (is_vk_ready (vk_promote now f).vk.state)) [
  | inl e ↦ rw e (vk_promote-Objects now f)
  | inr e ↦ rw e (Objects-trans (vk_promote-Objects now f) (vk_drop-Objects (vk_promote now f)))
]

vk_reset_modifiers-Objects : (now : ℕ) (f : Frontend) → Objects f (vk_reset_modifiers now f)
unfolding vk_reset_modifiers mark_forward_progress
vk_reset_modifiers-Objects now f =
    let sent = vk_is_ready-Objects now f in
    if-Objects (vk_is_ready now f).1
      (Objects-trans (record { object = sent.object; method = sent.method })
        (Frame-Objects (clear_modifiers-Frame _)))
      sent

vk_cancel_keymap_wait-Objects :
    (now : ℕ) (f : Frontend) → Objects f (vk_cancel_keymap_wait now another_reason f)
unfolding vk_cancel_keymap_wait record_keymap_cancel vk_set_state
vk_cancel_keymap_wait-Objects now f =
    if-Objects (not (is_vk_needs_keymap f.vk.state)) (Objects-refl f) (
      if-Objects (has_current_generation_keymap f) (record { object = refl; method = refl })
        (record { object = refl; method = refl }))

keyboard_destroy-Objects : (now : ℕ) (f : Frontend) → Objects f (keyboard_destroy now f)
unfolding keyboard_destroy
keyboard_destroy-Objects now f =
    let d = Frame-Objects (
      Frame-trans (vk_release_forwarded_keys-Frame now (record f { watchdog_armed = false })) (
        Frame-trans (release_grab-Frame _)
          (Frame-trans (repeat_stop-Frame _) (keyboard_tracking_reset-Frame _)))) in
    record { object = d.object; method = d.method }

hard_reset-Objects : (now : ℕ) (f : Frontend) → Objects f (hard_reset_keyboard now f)
unfolding hard_reset_keyboard
hard_reset-Objects now f =
    let released = Frame-trans (vk_release_forwarded_keys-Frame now f) (cancel_repeat-Frame _) in
    let gone =
      if-Objects (has_keyboard f)
        (Objects-trans (Frame-Objects released) (keyboard_destroy-Objects now _))
        (Objects-refl f) in
    let reset =
      Objects-trans gone
        (Objects-trans (vk_cancel_keymap_wait-Objects now _) (vk_reset_modifiers-Objects now _)) in
    record { object = reset.object; method = reset.method }

when-Objects :
    (step : Frontend → Frontend) (b : Bool) (f : Frontend)
    → Objects f (step f)
    → Objects f (when b step f)
when-Objects step true f h = h
when-Objects step false f h = Objects-refl f

-- The observed grab, by what it is observed from.
unfoldable seen : Bool → VkState → GrabResourceState
seen k st = if not k then absent else elim st [
  | vk_broken ↦ broken
  | vk_needs_keymap ↦ needs_keymap
  | vk_ready ↦ ready
  | vk_absent ↦ absent
]

abbrev grab_of : Frontend → GrabResourceState
grab_of f = seen (has_keyboard f) f.vk.state

Frame-grab_of : {f g : Frontend} → Frame f g → grab_of g ≡ grab_of f
Frame-grab_of a = rw (a.kept, a.vk) refl

-- A created grab waits for its keymap.
created-grab_of :
    (now : ℕ) (timer : Bool) (f : Frontend)
    → f.vk.vk ≡ true
    → f.input_method ≡ true
    → grab_of (apply_create now (made timer) f) ≡ needs_keymap
unfolding apply_create keyboard_create enter_generation keyboard_tracking_reset guard_reset
    vk_expect_keymap vk_set_state seen
created-grab_of now timer f v m = rw (v, m) refl

gone-grab_of : (now : ℕ) (f : Frontend) → grab_of (hard_reset_keyboard now f) ≡ absent
unfolding seen
gone-grab_of now f = rw (hard_reset-no_keyboard now f) refl

when-grab_of :
    (step : Frontend → Frontend) (b : Bool) (f : Frontend) (g : GrabResourceState)
    → grab_of (step f) ≡ g
    → grab_of (when b step f) ≡ (if b then g else grab_of f)
when-grab_of step true f g h = h
when-grab_of step false f g h = refl

scrub-grab_of : (b : Bool) (f : Frontend) → grab_of (when b apply_scrub f) ≡ grab_of f
unfolding apply_scrub
scrub-grab_of true f = refl
scrub-grab_of false f = refl

scrub-Objects : (f : Frontend) → Objects f (apply_scrub f)
unfolding apply_scrub
scrub-Objects f = record { object = refl; method = refl }

observe-grab_of : (focused : List Call → Bool) (f : Frontend) → (observe focused f).grab ≡ grab_of f
unfolding observe seen
observe-grab_of focused f = refl

apply-grab_of :
    (now : ℕ) (timer : Bool) (e : EffectSet) (f : Frontend)
    → f.vk.vk ≡ true
    → f.input_method ≡ true
    → grab_of (apply now (made timer) e f) ≡ perform e (grab_of f)
unfolding apply
apply-grab_of now timer e f v m =
    let f1 = when e.discard_composition apply_discard f in
    let f2 = when e.send_focus_out (apply_focus_out now) f1 in
    let f3 = when e.destroy_grab (hard_reset_keyboard now) f2 in
    let f4 = when e.clear_preedit clear_preedit f3 in
    let f5 = when e.commit wl_commit f4 in
    let f6 = when e.scrub_generation apply_scrub f5 in
    let f7 = when e.create_grab (apply_create now (made timer)) f6 in
    let a =
      Frame-trans (when-Frame e.discard_composition apply_discard-Frame f)
        (when-Frame e.send_focus_out (apply_focus_out-Frame now) f1) in
    let b =
      Frame-trans (when-Frame e.clear_preedit clear_preedit-Frame f3)
        (when-Frame e.commit wl_commit-Frame f4) in
    let c =
      Frame-trans (when-Frame e.send_focus_in apply_focus_in-Frame f7)
        (when-Frame e.reactivate apply_reactivate-Frame _) in
    let objects = Objects-trans (Frame-Objects a) (
      Objects-trans
        (when-Objects (hard_reset_keyboard now) e.destroy_grab f2 (hard_reset-Objects now f2))
        (Objects-trans (Frame-Objects b)
          (when-Objects apply_scrub e.scrub_generation f5 (scrub-Objects f5)))) in
    let torn =
      when-grab_of (hard_reset_keyboard now) e.destroy_grab f2 absent (gone-grab_of now f2)
      ∙ ap (λ g. if e.destroy_grab then absent else g) (Frame-grab_of a) in
    Frame-grab_of c
    ∙ when-grab_of (apply_create now (made timer)) e.create_grab f6 needs_keymap
        (created-grab_of now timer f6 (objects.object ∙ v) (objects.method ∙ m))
    ∙ ap (λ g. if e.create_grab then needs_keymap else g)
        (scrub-grab_of e.scrub_generation f5 ∙ Frame-grab_of b ∙ torn)

-- One tick brings the observed grab to what is wanted: where the input method and the virtual
-- keyboard exist and a new grab is had if one is asked for, the grab observed after the effects is
-- the one that the effect set stands for, and it matches the wish, whatever the grab was before.
pub apply-Matches :
    (focused : List Call → Bool) (now : ℕ) (timer : Bool) (d : DesiredState) (f : Frontend)
    → f.vk.vk ≡ true
    → f.input_method ≡ true
    → let e = diff d (observe focused f) in
      let g = (observe focused (apply now (made timer) e f)).grab in
      (g ≡ perform e (observe focused f).grab) × Matches d.grab g
apply-Matches focused now timer d f v m =
    let a = observe focused f in
    let e = diff d a in
    let reached =
      observe-grab_of focused (apply now (made timer) e f)
      ∙ apply-grab_of now timer e f v m
      ∙ ap (perform e) (sym (observe-grab_of focused f)) in
    (reached, subst (Matches d.grab) (sym reached) (diff-Matches d a).0)
