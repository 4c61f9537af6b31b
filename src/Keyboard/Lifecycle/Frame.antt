-- ===== src/Keyboard/Lifecycle/Frame.antt =====
-- The operations of src/wayland/keyboard/keyboard.c and focus_effects.c that leave the virtual
-- keyboard alone.
use typiod_wayland.Prelude.{
  ℕ, ◌≡◌, refl, ◌∙◌, Bool, true, false, not, ◌&&◌, ◌||◌, ◌==◌, some, if◌then◌else◌, Option-cases,
  inl, inr,
}
use typiod_wayland.Keyboard.State.{
  Frontend, Call, call, Keyboard, is_vk_broken, is_vk_absent, grab_release, repeat_disarm,
  xkb_clear, context_focus_out, clear_identity, set_preedit, im_commit,
}
use typiod_wayland.Keyboard.Bridge.{release_grab, vk_release_forwarded_keys, clear_modifiers}
use typiod_wayland.Keyboard.Lifecycle.{
  guard_reset, keyboard_tracking_reset, repeat_stop, cancel_repeat, scrub_keyboard, keyboard_pause,
  clear_preedit, wl_commit, has_keyboard, apply_discard, apply_focus_out, apply_focus_in,
  apply_reactivate, when,
}

-- What these operations keep.
pub record Frame (f g : Frontend) : Type 0 where
  pub vk : g.vk ≡ f.vk
  pub running : g.running ≡ f.running
  pub generation : g.tracker.active_generation ≡ f.tracker.active_generation
  pub method : g.input_method ≡ f.input_method
  pub kept : has_keyboard g ≡ has_keyboard f

pub Frame-refl : (f : Frontend) → Frame f f
Frame-refl f = record { vk = refl; running = refl; generation = refl; method = refl; kept = refl }

pub Frame-trans : {f g h : Frontend} → Frame f g → Frame g h → Frame f h
Frame-trans a b = record {
  vk = b.vk ∙ a.vk;
  running = b.running ∙ a.running;
  generation = b.generation ∙ a.generation;
  method = b.method ∙ a.method;
  kept = b.kept ∙ a.kept;
}

pub if-Frame : {f g h : Frontend} (b : Bool) → Frame f g → Frame f h → Frame f (if b then g else h)
if-Frame true a c = a
if-Frame false a c = c

pub call-Frame : (c : Call) (f : Frontend) → Frame f (call c f)
call-Frame c f = record { vk = refl; running = refl; generation = refl; method = refl; kept = refl }

-- A change of the keyboard's fields.
clean :
    (f : Frontend) {k k' : Keyboard}
    → Frame (record f { keyboard = some k }) (record f { keyboard = some k' })
clean f = record { vk = refl; running = refl; generation = refl; method = refl; kept = refl }

pub release_grab-Frame : (f : Frontend) → Frame f (release_grab f)
unfolding release_grab
release_grab-Frame f = elim (Option-cases f.keyboard) [
  | inl e ↦ rw e (Frame-refl _)
  | inr (k, e) ↦
      rw e (if-Frame k.grab (Frame-trans (clean f) (call-Frame grab_release _)) (Frame-refl _))
]

pub vk_release_forwarded_keys-Frame :
    (now : ℕ) (f : Frontend) → Frame f (vk_release_forwarded_keys now f)
unfolding vk_release_forwarded_keys
vk_release_forwarded_keys-Frame now f =
    if-Frame (not f.vk.vk || is_vk_absent f.vk.state || is_vk_broken f.vk.state) (Frame-refl f)
      (record { vk = refl; running = refl; generation = refl; method = refl; kept = refl })

pub keyboard_tracking_reset-Frame : (f : Frontend) → Frame f (keyboard_tracking_reset f)
unfolding keyboard_tracking_reset guard_reset
keyboard_tracking_reset-Frame f = record {
  vk = refl;
  running = refl;
  generation = refl;
  method = refl;
  kept = refl;
}

pub repeat_stop-Frame : (f : Frontend) → Frame f (repeat_stop f)
unfolding repeat_stop
repeat_stop-Frame f = elim (Option-cases f.keyboard) [
  | inl e ↦ rw e (Frame-refl _)
  | inr (k, e) ↦
      rw e (if-Frame k.repeat_timer (Frame-trans (clean f) (call-Frame repeat_disarm _)) (clean f))
]

pub cancel_repeat-Frame : (f : Frontend) → Frame f (cancel_repeat f)
unfolding cancel_repeat
cancel_repeat-Frame f = elim (Option-cases f.keyboard) [
  | inl e ↦ rw e (Frame-refl _)
  | inr (k, e) ↦ rw e (if-Frame k.repeating (repeat_stop-Frame _) (Frame-refl _))
]

scrubbed :
    (f : Frontend) {k k' : Keyboard} (b : Bool)
    → Frame
        (record f { keyboard = some k })
        (record (if b
          then call xkb_clear (record f { keyboard = some k })
          else record f { keyboard = some k }) { keyboard = some k' })
scrubbed f true = record {
  vk = refl;
  running = refl;
  generation = refl;
  method = refl;
  kept = refl;
}
scrubbed f false = record {
  vk = refl;
  running = refl;
  generation = refl;
  method = refl;
  kept = refl;
}

pub scrub_keyboard-Frame : (f : Frontend) → Frame f (scrub_keyboard f)
unfolding scrub_keyboard
scrub_keyboard-Frame f = elim (Option-cases f.keyboard) [
  | inl e ↦ rw e (Frame-refl _)
  | inr (k, e) ↦ rw e (scrubbed f k.xkb_state)
]

pub clear_modifiers-Frame : (f : Frontend) → Frame f (clear_modifiers f)
unfolding clear_modifiers
clear_modifiers-Frame f = elim (Option-cases f.keyboard) [
  | inl e ↦ rw e (Frame-refl _)
  | inr (k, e) ↦
      rw e (if-Frame k.xkb_state (Frame-trans (clean f) (call-Frame xkb_clear _)) (clean f))
]

pub keyboard_pause-Frame : (now : ℕ) (f : Frontend) → Frame f (keyboard_pause now f)
unfolding keyboard_pause
keyboard_pause-Frame now f = if-Frame (not (has_keyboard f)) (Frame-refl f) (
    Frame-trans (vk_release_forwarded_keys-Frame now f) (
      Frame-trans (repeat_stop-Frame _)
        (Frame-trans (keyboard_tracking_reset-Frame _) (scrub_keyboard-Frame _))))

pub apply_discard-Frame : (f : Frontend) → Frame f (apply_discard f)
unfolding apply_discard
apply_discard-Frame f =
    if-Frame (f.session && f.ctx)
      (record { vk = refl; running = refl; generation = refl; method = refl; kept = refl })
      (Frame-refl f)

pub apply_focus_out-Frame : (now : ℕ) (f : Frontend) → Frame f (apply_focus_out now f)
unfolding apply_focus_out
apply_focus_out-Frame now f =
    let told = Frame-trans (call-Frame context_focus_out f) (call-Frame clear_identity _) in
    if-Frame (not (f.session && f.ctx)) (Frame-refl f)
      (if-Frame (has_keyboard f) (Frame-trans told (keyboard_pause-Frame now _)) told)

pub clear_preedit-Frame : (f : Frontend) → Frame f (clear_preedit f)
unfolding clear_preedit
clear_preedit-Frame f = if-Frame f.input_method (call-Frame set_preedit f) (Frame-refl f)

pub wl_commit-Frame : (f : Frontend) → Frame f (wl_commit f)
unfolding wl_commit
wl_commit-Frame f =
    if-Frame (not f.input_method || not f.session || (f.im_serial == 0)) (Frame-refl f)
      (call-Frame (im_commit f.im_serial) f)

pub apply_focus_in-Frame : (f : Frontend) → Frame f (apply_focus_in f)
unfolding apply_focus_in
apply_focus_in-Frame f =
    if-Frame (f.session && f.ctx)
      (record { vk = refl; running = refl; generation = refl; method = refl; kept = refl })
      (record { vk = refl; running = refl; generation = refl; method = refl; kept = refl })

pub apply_reactivate-Frame : (f : Frontend) → Frame f (apply_reactivate f)
unfolding apply_reactivate
apply_reactivate-Frame f = record {
  vk = refl;
  running = refl;
  generation = refl;
  method = refl;
  kept = refl;
}

pub when-Frame :
    {step : Frontend → Frontend} (b : Bool)
    → ((f : Frontend) → Frame f (step f))
    → (f : Frontend) → Frame f (when b step f)
when-Frame true h f = h f
when-Frame false h f = Frame-refl f
