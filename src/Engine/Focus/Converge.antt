-- ===== src/Engine/Focus/Converge.antt =====
-- What the effect sets of src/engine/focus_controller.c bring the grab to.
use typiod_wayland.Prelude.{◌≡◌, refl, ◌&&◌, not, ◌↔◌, arith, false, not, ◌||◌, if◌then◌else◌}
use typiod_wayland.Engine.Focus.{
  GrabWant, want_none, want_soft_pause, want_yes, GrabResourceState, absent, needs_keymap, ready,
  broken, DesiredState, ActualState, EffectSet, diff, can_route_keys, can_route_modifiers,
  is_transitioning,
}

-- The resource that satisfies a wish.
abbrev pub Matches : GrabWant → GrabResourceState → Type 0
Matches want_none absent = Unit {0}
Matches want_none _ = ⊥
Matches want_soft_pause absent = ⊥
Matches want_soft_pause _ = Unit {0}
Matches want_yes needs_keymap = Unit {0}
Matches want_yes ready = Unit {0}
Matches want_yes _ = ⊥

-- The grab after the destruction and the creation that an effect set holds, in this order. A
-- created grab waits for its keymap.
abbrev pub perform : EffectSet → GrabResourceState → GrabResourceState
perform e g = if e.create_grab then needs_keymap else if e.destroy_grab then absent else g

-- The desired state with its edges past: what the next tick sees if no fact changes.
abbrev pub settled : DesiredState → DesiredState
settled d = record d { focus_in = false; focus_out = false; reactivate = false }

abbrev nothing : EffectSet
nothing = record {
  destroy_grab = false;
  create_grab = false;
  scrub_generation = false;
  send_focus_in = false;
  send_focus_out = false;
  discard_composition = false;
  clear_preedit = false;
  commit = false;
  reactivate = false;
}

abbrev pub no_effects : EffectSet
no_effects = nothing

-- What a desired state and an actual one are brought to.
abbrev Converges : DesiredState → ActualState → Type 0
Converges d a =
    let g = perform (diff d a) a.grab in
    Matches d.grab g × (diff (settled d) (record a { grab = g }) ≡ no_effects)

Converges-each :
    (w : GrabWant) (g : GrabResourceState) (d : DesiredState) (a : ActualState)
    → Converges (record d { grab = w }) (record a { grab = g })
unfolding diff
Converges-each want_none absent d a = (tt, refl)
Converges-each want_none needs_keymap d a = (tt, refl)
Converges-each want_none ready d a = (tt, refl)
Converges-each want_none broken d a = (tt, refl)
Converges-each want_soft_pause absent d a = (tt, refl)
Converges-each want_soft_pause needs_keymap d a = (tt, refl)
Converges-each want_soft_pause ready d a = (tt, refl)
Converges-each want_soft_pause broken d a = (tt, refl)
Converges-each want_yes absent d a = (tt, refl)
Converges-each want_yes needs_keymap d a = (tt, refl)
Converges-each want_yes ready d a = (tt, refl)
Converges-each want_yes broken d a = (tt, refl)

-- The effects bring the grab to what is wanted, whatever it was, and with the edges past the
-- effect set of the resulting grab is empty: one tick converges, and the next one does nothing.
pub diff-Matches :
    (d : DesiredState) (a : ActualState)
    → let g = perform (diff d a) a.grab in
      Matches d.grab g × (diff (settled d) (record a { grab = g }) ≡ no_effects)
diff-Matches d a = Converges-each d.grab a.grab d a

-- The grab is left alone exactly when it is what is wanted.
pub diff_idle_iff :
    (d : DesiredState) (a : ActualState)
    → (((diff d a).destroy_grab || (diff d a).create_grab) ≡ false) ↔ Matches d.grab a.grab
unfolding diff
diff_idle_iff d a = ground arith

-- Keys are routed exactly to a focused context whose grab's handshake is not under way, and never
-- where modifiers are not.
pub can_route_keys_lem :
    (a : ActualState)
    → (can_route_keys a ≡ (a.ic_focused && not (is_transitioning a)))
      × ((can_route_keys a && not (can_route_modifiers a)) ≡ false)
unfolding can_route_keys can_route_modifiers is_transitioning
can_route_keys_lem a = ground arith
