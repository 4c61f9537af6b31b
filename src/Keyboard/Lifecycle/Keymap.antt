-- ===== src/Keyboard/Lifecycle/Keymap.antt =====
-- The focus controller's ticks and the keyboard's events keep the fence between the generations of
-- the grab (src/wayland/focus_effects.c, keyboard/keyboard.c and keyboard/bridge.c).
use typiod_wayland.Prelude.{
  ℕ, ◌≤◌, ◌≡◌, ◌⊎◌, refl, ◌∙◌, Bool, true, false, none, if◌then◌else◌, Bool-cases, inl, inr, List,
  arith,
}
use typiod_wayland.Engine.Focus.{
  DesiredState, EffectSet, diff, ActualState, is_absent, absent, needs_keymap, ready, broken,
  GrabResourceState,
}
use typiod_wayland.Keyboard.State.{
  Frontend, Call, VkState, vk_absent, vk_needs_keymap, vk_ready, vk_broken, is_vk_ready,
}
use typiod_wayland.Keyboard.Bridge.{vk_set_state, vk_expect_keymap}
use typiod_wayland.Keyboard.Lifecycle.{
  Creation, no_memory, no_grab, made, keyboard_create, hard_reset_keyboard, apply_scrub,
  apply_create, apply, observe, has_keyboard, when, enter_generation, keyboard_tracking_reset,
  guard_reset, apply_discard, apply_focus_out, clear_preedit, wl_commit,
}
use typiod_wayland.Keyboard.Lifecycle.Frame.{
  Frame, Frame-trans, when-Frame, apply_discard-Frame, apply_focus_out-Frame, clear_preedit-Frame,
  wl_commit-Frame, apply_focus_in-Frame, apply_reactivate-Frame,
}
use typiod_wayland.Keyboard.Lifecycle.Fence.{
  needs_object, IsFenced, if-IsFenced, Frame-IsFenced, next_generation-pos,
}
use typiod_wayland.Keyboard.Lifecycle.Reset.{
  IsClosed, Frame-IsClosed, hard_reset-IsClosed, hard_reset-IsFenced,
}

apply_scrub-IsFenced : (f : Frontend) → IsClosed f → IsFenced f → IsFenced (apply_scrub f)
unfolding apply_scrub IsClosed
apply_scrub-IsFenced f c o = record {
  object = o.object;
  numbered = λ h. next_generation-pos f.tracker.active_generation;
  current = λ h r. absurd (ground (arith, c h));
}

not_ready :
    (st : VkState)
    → is_absent (elim st as (λ x. GrabResourceState) [
      | vk_broken ↦ broken
      | vk_needs_keymap ↦ needs_keymap
      | vk_ready ↦ ready
      | vk_absent ↦ absent
    ])
      ≡ true
    → is_vk_ready st ≡ false
not_ready vk_absent h = refl
not_ready vk_needs_keymap h = refl
not_ready vk_ready h = absurd (ground (arith, h))
not_ready vk_broken h = refl

observe-IsClosed :
    (focused : List Call → Bool) (f : Frontend)
    → is_absent (observe focused f).grab ≡ true
    → IsClosed f
unfolding IsClosed observe
observe-IsClosed focused f a = λ h. not_ready f.vk.state (rw h at a)

enter_generation-numbered : (f : Frontend) → 1 ≤ (enter_generation f).tracker.active_generation
unfolding enter_generation keyboard_tracking_reset guard_reset
enter_generation-numbered f = next_generation-pos f.tracker.active_generation

pub ready-needs_object : (st : VkState) → is_vk_ready st ≡ true → needs_object st ≡ true
ready-needs_object vk_absent h = absurd (ground (arith, h))
ready-needs_object vk_needs_keymap h = refl
ready-needs_object vk_ready h = refl
ready-needs_object vk_broken h = absurd (ground (arith, h))

-- The creation of a grab and the wait for its keymap.
expect-IsFenced :
    (now : ℕ) (f : Frontend)
    → (needs_object f.vk.state ≡ true → f.vk.vk ≡ true)
    → (has_keyboard f ≡ true → 1 ≤ f.tracker.active_generation)
    → IsFenced (vk_expect_keymap now f)
unfolding vk_expect_keymap vk_set_state
expect-IsFenced now f object numbered =
    if-IsFenced f.vk.vk
      (λ e. record {
        object = λ h. e;
        numbered = numbered;
        current = λ h r. absurd (ground (arith, r));
      })
      (λ e. record {
        object = object;
        numbered = numbered;
        current = λ h r. absurd (ground (arith, e, object (ready-needs_object f.vk.state r)));
      })

-- A creation leaves the virtual keyboard's object and state alone, and numbers the keyboard.
record Created (f g : Frontend) : Type 0 where
  object : g.vk.vk ≡ f.vk.vk
  state : g.vk.state ≡ f.vk.state
  numbered : has_keyboard g ≡ true → 1 ≤ g.tracker.active_generation

if-Created :
    (f : Frontend) {g h : Frontend} (b : Bool)
    → Created f g
    → Created f h
    → Created f (if b then g else h)
if-Created f true a c = a
if-Created f false a c = c

none-Created : (f : Frontend) → Created f (record f { keyboard = none })
none-Created f = record { object = refl; state = refl; numbered = λ h. absurd (ground (arith, h)) }

keyboard_create-Created :
    (creation : Creation) (f : Frontend) → Created f (keyboard_create creation f)
unfolding keyboard_create enter_generation keyboard_tracking_reset guard_reset
keyboard_create-Created no_memory f = none-Created f
keyboard_create-Created no_grab f =
    if-Created f f.input_method
      (record { object = refl; state = refl; numbered = λ h. absurd (ground (arith, h)) })
      (none-Created f)
keyboard_create-Created (made timer) f =
    if-Created f f.input_method
      (record {
        object = refl;
        state = refl;
        numbered = λ h. next_generation-pos f.tracker.active_generation;
      })
      (none-Created f)

apply_create-IsFenced :
    (now : ℕ) (creation : Creation) (f : Frontend)
    → IsFenced f
    → IsFenced (apply_create now creation f)
unfolding apply_create
apply_create-IsFenced now creation f o =
    let c = keyboard_create-Created creation f in
    expect-IsFenced now (keyboard_create creation f) (λ h. c.object ∙ o.object (rw c.state at h))
      c.numbered

when-IsFenced :
    (step : Frontend → Frontend) (b : Bool) (f : Frontend)
    → (b ≡ true → IsFenced (step f))
    → IsFenced f
    → IsFenced (when b step f)
when-IsFenced step true f h o = h refl
when-IsFenced step false f h o = o

-- What a scrub of the generation goes with.
scrub_cases :
    (d : DesiredState) (a : ActualState)
    → (diff d a).scrub_generation ≡ true
    → ((diff d a).destroy_grab ≡ true) ⊎ (is_absent a.grab ≡ true)
unfolding diff
scrub_cases d a h = ground (arith, h)

when_destroy-IsClosed :
    (focused : List Call → Bool) (now : ℕ) (e : EffectSet) (f g : Frontend)
    → Frame f g
    → (e.destroy_grab ≡ true) ⊎ (is_absent (observe focused f).grab ≡ true)
    → IsClosed (when e.destroy_grab (hard_reset_keyboard now) g)
when_destroy-IsClosed focused now e f g a (inl h) = rw h (hard_reset-IsClosed now g)
when_destroy-IsClosed focused now e f g a (inr h) = elim (Bool-cases e.destroy_grab) [
  | inl d ↦ rw d (hard_reset-IsClosed now g)
  | inr d ↦ rw d (Frame-IsClosed a (observe-IsClosed focused f h))
]

-- One tick of the focus controller, whatever it wants and whatever the creation of a grab meets.
pub apply-IsFenced :
    (focused : List Call → Bool) (now : ℕ) (creation : Creation) (d : DesiredState) (f : Frontend)
    → IsFenced f
    → IsFenced (apply now creation (diff d (observe focused f)) f)
unfolding apply
apply-IsFenced focused now creation d f o =
    let e = diff d (observe focused f) in
    let f1 = when e.discard_composition apply_discard f in
    let f2 = when e.send_focus_out (apply_focus_out now) f1 in
    let f3 = when e.destroy_grab (hard_reset_keyboard now) f2 in
    let f4 = when e.clear_preedit clear_preedit f3 in
    let f5 = when e.commit wl_commit f4 in
    let f6 = when e.scrub_generation apply_scrub f5 in
    let a =
      Frame-trans (when-Frame e.discard_composition apply_discard-Frame f)
        (when-Frame e.send_focus_out (apply_focus_out-Frame now) f1) in
    let b =
      Frame-trans (when-Frame e.clear_preedit clear_preedit-Frame f3)
        (when-Frame e.commit wl_commit-Frame f4) in
    let o2 = Frame-IsFenced a o in
    let o3 =
      when-IsFenced (hard_reset_keyboard now) e.destroy_grab f2 (λ h. hard_reset-IsFenced now f2 o2)
        o2 in
    let closed : e.scrub_generation ≡ true → IsClosed f3 =
      λ h. when_destroy-IsClosed focused now e f f2 a (scrub_cases d (observe focused f) h) in
    let o6 =
      when-IsFenced apply_scrub e.scrub_generation f5
        (λ h. apply_scrub-IsFenced f5 (Frame-IsClosed b (closed h)) (Frame-IsFenced b o3))
        (Frame-IsFenced b o3) in
    let o7 =
      when-IsFenced (apply_create now creation) e.create_grab f6
        (λ h. apply_create-IsFenced now creation f6 o6) o6 in
    Frame-IsFenced
      (Frame-trans (when-Frame e.send_focus_in apply_focus_in-Frame _)
        (when-Frame e.reactivate apply_reactivate-Frame _))
      o7
