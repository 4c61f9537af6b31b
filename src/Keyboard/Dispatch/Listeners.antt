-- ===== src/Keyboard/Dispatch/Listeners.antt =====
-- The other listeners of the grab (src/wayland/keyboard/keyboard.c and xkb.c): keymaps, modifiers
-- and the rate of the repeat. What xkb says of the modifiers is an argument.
use typiod_wayland.Prelude.{
  ℕ, ◌≡◌, refl, Bool, true, false, not, ◌&&◌, none, some, bit_and, ◌==◌, if◌then◌else◌, ◌+◌, ◌∙◌,
  u64, if_both, Bool-cases, Option-cases, inl, inr,
}
use typiod_wayland.Keyboard.State.{
  Frontend, Keyboard, Call, vk_modifiers, is_vk_ready, is_vk_broken, is_vk_needs_keymap,
}
use typiod_wayland.Keyboard.Bridge.{
  vk_forward_keymap, vk_forward_modifiers, release_grab, vk_trigger_fail_safe, vk_send, vk_is_ready,
  vk_drop, vk_promote, vk_set_state, mark_forward_progress, has_current_generation_keymap,
}
use typiod_wayland.Keyboard.Lifecycle.{repeat_stop}
use typiod_wayland.Keyboard.Arbiter.{Symbols}
use typiod_wayland.Keyboard.Modifiers.{blocking, should_cancel_repeat}
use typiod_wayland.Keyboard.Dispatch.{RepeatTimer}

-- `on_keymap`: whether the descriptor is duplicated, and whether xkb loads the keymap.
unfoldable pub on_keymap : ℕ → Bool → Bool → Frontend → Frontend
on_keymap now duplicated loaded f =
    let g = vk_forward_keymap now duplicated f in
    elim g.keyboard [
      | none ↦ g
      | some k ↦ record g { keyboard = some (if loaded then record k { xkb_state = true } else k) }
    ]

-- The masks that the compositor gives.
pub record Masks : Type 0 where
  pub depressed : ℕ
  pub latched : ℕ
  pub locked : ℕ
  pub group : ℕ

-- `xkb_apply_modifiers`
unfoldable pub apply_modifiers : Masks → Keyboard → Keyboard
apply_modifiers m k =
    if k.xkb_state
    then record k {
      mods_depressed = m.depressed;
      mods_latched = m.latched;
      mods_locked = m.locked;
      mods_group = m.group;
    }
    else k

module _ (sym : Symbols) where
  -- `on_modifiers`, by the effective modifiers that xkb has before the masks and after them.
  unfoldable pub on_modifiers : ℕ → ℕ → ℕ → Masks → Frontend → Frontend
  on_modifiers now before after m f = elim f.keyboard [
    | none ↦ f
    | some k ↦
        let previous = if k.xkb_state then before else 0 in
        let current = if k.xkb_state then after else 0 in
        let applied = apply_modifiers m k in
        let seen =
          if bit_and current (blocking sym) == 0
          then applied
          else record applied { saw_blocking_modifier = true } in
        let f1 = record f { keyboard = some seen } in
        let f2 =
          if k.repeating && should_cancel_repeat sym previous current then repeat_stop f1 else f1 in
        vk_forward_modifiers now m.depressed m.latched m.locked m.group f2
  ]

-- `on_repeat_info`
unfoldable pub on_repeat_info : ℕ → ℕ → RepeatTimer → RepeatTimer
on_repeat_info rate delay t = record t { repeat_rate = rate; repeat_delay = delay }

-- Whether a key repeats.
abbrev pub repeats : Frontend → Bool
repeats f = elim f.keyboard [ none ↦ false | some k ↦ k.repeating ]

release_grab-repeats : (f : Frontend) → repeats (release_grab f) ≡ repeats f
unfolding release_grab
release_grab-repeats f = elim (Option-cases f.keyboard) [
  | inl e ↦ rw e refl
  | inr (k, e) ↦
      rw e (if_both (λ (g : Frontend). repeats g ≡ k.repeating) k.grab (λ _. refl) (λ _. refl))
]

fail_safe-repeats : (f : Frontend) → repeats (vk_trigger_fail_safe f) ≡ repeats f
unfolding vk_trigger_fail_safe
fail_safe-repeats f =
    if_both (λ (g : Frontend). repeats g ≡ repeats f) f.running (λ _. release_grab-repeats f)
      (λ _. refl)

vk_send-repeats : (now : ℕ) (c : Call) (f : Frontend) → repeats (vk_send now c f) ≡ repeats f
unfolding vk_send vk_is_ready vk_drop vk_promote vk_set_state mark_forward_progress
vk_send-repeats now c f =
    let R = λ (g : Frontend). repeats g ≡ repeats f in
    let p = vk_promote now f in
    let promoted : repeats p ≡ repeats f =
      if_both R (f.vk.vk && is_vk_needs_keymap f.vk.state && has_current_generation_keymap f)
        (λ _. refl) (λ _. refl) in
    let dropped = record p { vk = record p.vk { drop_count = u64 (p.vk.drop_count + 1) } } in
    elim (Bool-cases (is_vk_ready p.vk.state)) [
      | inl e ↦ rw e promoted
      | inr e ↦ rw e (
          if_both R (is_vk_broken p.vk.state) (λ _. fail_safe-repeats dropped ∙ promoted)
            (λ _. promoted))
    ]

repeat_stop-repeats : (f : Frontend) → repeats (repeat_stop f) ≡ false
unfolding repeat_stop
repeat_stop-repeats f = elim (Option-cases f.keyboard) [
  | inl e ↦ rw e refl
  | inr (k, e) ↦
      rw e (if_both (λ (g : Frontend). repeats g ≡ false) k.repeat_timer (λ _. refl) (λ _. refl))
]

stopped-repeats :
    (f : Frontend) (r same : Bool)
    → repeats f ≡ r
    → repeats (if r && not same then repeat_stop f else f) ≡ (r && same)
stopped-repeats f true true h = h
stopped-repeats f true false h = repeat_stop-repeats f
stopped-repeats f false same h = h

-- After an event of modifiers that xkb takes, a key repeats where one did and where each of Ctrl,
-- Alt and Super is held as it was before, and nowhere else, whatever the virtual keyboard does.
pub on_modifiers-repeats :
    (sym : Symbols) (now before after : ℕ) (m : Masks) (f : Frontend) (k : Keyboard)
    → f.keyboard ≡ some k
    → k.xkb_state ≡ true
    → repeats (on_modifiers sym now before after m f)
      ≡ (k.repeating && bit_and before (blocking sym) == bit_and after (blocking sym))
unfolding on_modifiers apply_modifiers should_cancel_repeat vk_forward_modifiers
on_modifiers-repeats sym now before after m f k e x =
    let same = bit_and before (blocking sym) == bit_and after (blocking sym) in
    let c = vk_modifiers m.depressed m.latched m.locked m.group in
    rw (e, x)
      (vk_send-repeats now c _
        ∙ stopped-repeats _ k.repeating same (
            if_both (λ (j : Keyboard). j.repeating ≡ k.repeating)
              (bit_and after (blocking sym) == 0) (λ _. refl) (λ _. refl)))
