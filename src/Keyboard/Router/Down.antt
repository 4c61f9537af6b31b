-- ===== src/Keyboard/Router/Down.antt =====
-- What the application sees of the keys, by the calls of the virtual keyboard
-- (src/wayland/keyboard/router.c and bridge.c).
use typiod_wayland.Prelude.{
  ℕ, ◌+◌, ◌&&◌, u64, ◌≡◌, ◌≢◌, refl, ◌∙◌, Bool, true, false, ◌⊎◌, inl, inr, List, [], ◌∷◌, ◌++◌,
  ◌==◌, if◌then◌else◌, if_both, Bool-cases, Option-cases, arith,
}
use typiod_wayland.Keyboard.State.{
  Frontend, Call, vk_key, call, grab_release, is_vk_ready, is_vk_broken, is_vk_needs_keymap,
}
use typiod_wayland.Keyboard.Bridge.{
  vk_forward_key, vk_send, vk_is_ready, vk_promote, vk_drop, vk_set_state, vk_trigger_fail_safe,
  has_current_generation_keymap, release_grab, mark_forward_progress,
}

-- Whether the key is down after a call, having been so before it or not.
abbrev pub down_after : ℕ → Bool → Call → Bool
down_after key b (vk_key time k pressed) = if k == key then pressed else b
down_after key b _ = b

abbrev pub down_from : ℕ → Bool → List Call → Bool
down_from key b [] = b
down_from key b (c ∷ calls) = down_from key (down_after key b c) calls

abbrev pub is_down : ℕ → Frontend → Bool
is_down key f = down_from key false f.out

pub down_from-append :
    (key : ℕ) (b : Bool) (xs ys : List Call)
    → down_from key b (xs ++ ys) ≡ down_from key (down_from key b xs) ys
down_from-append key b [] ys = refl
down_from-append key b (x ∷ xs) ys = down_from-append key (down_after key b x) xs ys

pub is_down-call :
    (key : ℕ) (c : Call) (f : Frontend) → is_down key (call c f) ≡ down_after key (is_down key f) c
is_down-call key c f = down_from-append key false f.out (c ∷ [])

-- The same keys are down, and every key has the state it had.
pub record IsSame (f g : Frontend) : Type 0 where
  pub states : g.tracker.states ≡ f.tracker.states
  pub down : (key : ℕ) → is_down key g ≡ is_down key f

pub IsSame-refl : (f : Frontend) → IsSame f f
IsSame-refl f = record { states = refl; down = λ key. refl }

pub IsSame-trans : {f g h : Frontend} → IsSame f g → IsSame g h → IsSame f h
IsSame-trans s t = record { states = t.states ∙ s.states; down = λ key. t.down key ∙ s.down key }

pub release_grab-IsSame : (f : Frontend) → IsSame f (release_grab f)
unfolding release_grab
release_grab-IsSame f = elim (Option-cases f.keyboard) [
  | inl e ↦ rw e (IsSame-refl _)
  | inr (k, e) ↦ rw e (
      if_both (IsSame _) k.grab
        (λ h. record { states = refl; down = λ key. is_down-call key grab_release f })
        (λ h. IsSame-refl _))
]

vk_trigger_fail_safe-IsSame : (f : Frontend) → IsSame f (vk_trigger_fail_safe f)
unfolding vk_trigger_fail_safe
vk_trigger_fail_safe-IsSame f =
    if_both (IsSame f) f.running
      (λ h. record { states = (release_grab-IsSame f).states; down = (release_grab-IsSame f).down })
      (λ h. IsSame-refl f)

vk_drop-IsSame : (f : Frontend) → IsSame f (vk_drop f)
unfolding vk_drop
vk_drop-IsSame f =
    let g : Frontend = record f { vk = record f.vk { drop_count = u64 (f.vk.drop_count + 1) } } in
    let s = vk_trigger_fail_safe-IsSame g in
    elim (Bool-cases (is_vk_broken f.vk.state)) [
      | inl e ↦ rw (vk_drop, e) (record { states = s.states; down = s.down })
      | inr e ↦ rw (vk_drop, e) (record { states = refl; down = λ key. refl })
    ]

abbrev is_promoted : Frontend → Bool
is_promoted f = f.vk.vk && is_vk_needs_keymap f.vk.state && has_current_generation_keymap f

vk_promote-IsSame : (now : ℕ) (f : Frontend) → IsSame f (vk_promote now f)
unfolding vk_promote vk_set_state
vk_promote-IsSame now f = elim (Bool-cases (is_promoted f)) [
  | inl e ↦ rw (vk_promote, e) (record { states = refl; down = λ key. refl })
  | inr e ↦ rw (vk_promote, e) (IsSame-refl f)
]

-- The key alone may have changed, and it is as it was or as was sent.
pub record IsSent (key : ℕ) (pressed : Bool) (f g : Frontend) : Type 0 where
  pub states : g.tracker.states ≡ f.tracker.states
  pub others : (k : ℕ) → k ≢ key → is_down k g ≡ is_down k f
  pub own : (is_down key g ≡ is_down key f) ⊎ (is_down key g ≡ pressed)
  pub ready : is_vk_ready f.vk.state ≡ true → is_down key g ≡ pressed

eq_self : (key : ℕ) → (key == key) ≡ true
eq_self key = ground arith

eq_ne : (a b : ℕ) → b ≢ a → (a == b) ≡ false
eq_ne a b h = ground (arith, h)

record IsKeyCall (key : ℕ) (pressed : Bool) (f g : Frontend) : Type 0 where
  states : g.tracker.states ≡ f.tracker.states
  others : (k : ℕ) → k ≢ key → is_down k g ≡ is_down k f
  sent : is_down key g ≡ pressed

vk_key-IsSent :
    (time key : ℕ) (pressed : Bool) (f : Frontend)
    → IsKeyCall key pressed f (call (vk_key time key pressed) f)
vk_key-IsSent time key pressed f = record {
  states = refl;
  others = λ k h. is_down-call k (vk_key time key pressed) f ∙ rw (eq_ne key k h) refl;
  sent = is_down-call key (vk_key time key pressed) f ∙ rw (eq_self key) refl;
}

vk_promote-ready :
    (now : ℕ) (f : Frontend)
    → is_vk_ready f.vk.state ≡ true
    → is_vk_ready (vk_promote now f).vk.state ≡ true
unfolding vk_promote vk_set_state
vk_promote-ready now f h = elim (Bool-cases (is_promoted f)) [
  | inl e ↦ rw (vk_promote, e) refl
  | inr e ↦ rw (vk_promote, e) h
]

pub vk_forward_key-IsSent :
    (now time key : ℕ) (pressed : Bool) (f : Frontend)
    → IsSent key pressed f (vk_forward_key now time key pressed f)
unfolding vk_forward_key vk_send vk_is_ready mark_forward_progress
vk_forward_key-IsSent now time key pressed f =
    let g = vk_promote now f in
    let s = vk_promote-IsSame now f in
    elim (Bool-cases (is_vk_ready g.vk.state)) [
      | inl e ↦
          let t = vk_key-IsSent time key pressed (mark_forward_progress now g) in
          rw (vk_forward_key, vk_send, vk_is_ready, e)
            (record {
              states = t.states ∙ s.states;
              others = λ k h. t.others k h ∙ s.down k;
              own = inr t.sent;
              ready = λ h. t.sent;
            })
      | inr e ↦
          let t = vk_drop-IsSame g in
          rw (vk_forward_key, vk_send, vk_is_ready, e)
            (record {
              states = t.states ∙ s.states;
              others = λ k h. t.down k ∙ s.down k;
              own = inl (t.down key ∙ s.down key);
              ready = λ h. absurd (ground (arith, vk_promote-ready now f h, e));
            })
    ]
