-- ===== src/EventLoop/Pipeline/Leaving.antt =====
-- A tick of the focus controller that leaves the text field.
use mathlib.Core.Bool.{false≢true}
use typiod_wayland.Prelude.{
  ℕ, ◌≡◌, refl, ◌==◌, ap, sym, Bool, true, false, ◌&&◌, List, [], Option, none, arith,
}
use typiod_wayland.Engine.Focus.{DesiredState, is_yes, diff, reduce}
use typiod_wayland.Keyboard.State.{Frontend}
use typiod_wayland.Keyboard.Lifecycle.{
  observe, clear_preedit, wl_commit, hard_reset_keyboard, apply_focus_out, apply_scrub,
  apply_create,
}
use typiod_wayland.Panel.Scheduler.{cancel}
use typiod_wayland.InputMethod.{InputMethod, frontend_of, on_frontend, cancel_ui_tracking}
use typiod_wayland.InputMethod.Seen.{
  shows, view, settled, View, Holds, Silent, Silent-trans, Silent-Holds, commit-Holds,
  send_preedit-Holds,
}
use typiod_wayland.InputMethod.Synced.{tracked}
use typiod_wayland.EventLoop.Pipeline.{
  TickWorld, panel_world, discard_composition, focus_in, reactivate, when, apply_effects,
  run_focus_controller_pipeline,
}
use typiod_wayland.EventLoop.Pipeline.Silence.{scrub-Silent, create-Silent}
use typiod_wayland.EventLoop.Pipeline.Blanks.{IsBlank}
use typiod_wayland.EventLoop.Pipeline.Ticks.{discard-Silent, when-Silent, steps-Silent}

-- No preedit is remembered, and no redraw is scheduled.
record IsOver (im : InputMethod) : Type 0 where
  forgotten : tracked im.session ≡ ([], none)
  schedule : im.schedule ≡ cancel

module _ (app : List ℕ × Option ℕ) (w : TickWorld) where
  record IsGone (im : InputMethod) : Type 0 where
    front : IsBlank app (frontend_of im)
    over : IsOver im

  discard-IsOver :
      (im : InputMethod)
      → ((frontend_of im).session && (frontend_of im).ctx) ≡ true
      → IsOver (discard_composition w im)
  unfolding discard_composition cancel_ui_tracking
  discard-IsOver im here = rw here (record { forgotten = refl; schedule = refl })

  when-IsOver :
      (b : Bool) (step : Frontend → Frontend) (im : InputMethod)
      → IsOver im
      → IsOver (when w b (on_frontend step) im)
  when-IsOver true step im k = record { forgotten = k.forgotten; schedule = k.schedule }
  when-IsOver false step im k = k

  when-IsGone :
      (b : Bool) (step : Frontend → Frontend) (im : InputMethod)
      → ((f : Frontend) → Silent app f (step f))
      → IsGone im
      → IsGone (when w b (on_frontend step) im)
  when-IsGone b step im s k = record {
    front = Silent-Holds app (when-Silent app w b step im s) k.front;
    over = when-IsOver b step im k.over;
  }

  -- A step that is left out.
  skip-IsGone :
      (b : Bool) (step : InputMethod → InputMethod) (im : InputMethod)
      → b ≡ false
      → IsGone im
      → IsGone (when w b step im)
  skip-IsGone true step im e k = absurd (false≢true (sym e))
  skip-IsGone false step im e k = k

  -- The effects up to the commit of the cleared preedit, where the composition is discarded.
  cleared-IsGone :
      {told shown : List ℕ × Option ℕ} (discard out destroy : Bool) (im : InputMethod)
      → discard ≡ true
      → Holds app told shown (frontend_of im)
      → ((frontend_of im).session && (frontend_of im).ctx) ≡ true
      → IsGone (
          when w discard (on_frontend wl_commit) (
            when w discard (on_frontend clear_preedit) (
              when w destroy (on_frontend (hard_reset_keyboard (panel_world w).now)) (
                when w out
                  (on_frontend (apply_focus_out (panel_world w).now))
                  (when w discard (discard_composition w) im)))))
  cleared-IsGone false out destroy im d h here = absurd (false≢true d)
  cleared-IsGone true out destroy im d h here =
      let now = (panel_world w).now in
      let gone = discard_composition w im in
      let left = when w out (on_frontend (apply_focus_out now)) gone in
      let torn = when w destroy (on_frontend (hard_reset_keyboard now)) left in
      let cleared = on_frontend clear_preedit torn in
      let quiet =
        Silent-trans app (discard-Silent app w im here).0 (steps-Silent app w out destroy gone) in
      record {
        front =
            commit-Holds app (frontend_of cleared)
              (send_preedit-Holds app none none (frontend_of torn) (Silent-Holds app quiet h));
        over = when-IsOver true wl_commit cleared (
            when-IsOver true clear_preedit torn (
              when-IsOver destroy (hard_reset_keyboard now) left
                (when-IsOver out (apply_focus_out now) gone (discard-IsOver im here))));
      }

  -- The effects where the field is left.
  apply_effects-IsGone :
      {told shown : List ℕ × Option ℕ} (desired : DesiredState) (im : InputMethod)
      → Holds app told shown (frontend_of im)
      → ((frontend_of im).session && (frontend_of im).ctx) ≡ true
      → desired.focus_out ≡ true
      → desired.focus_in ≡ false
      → desired.reactivate ≡ false
      → IsGone
          (apply_effects w (diff desired (observe (panel_world w).focused (frontend_of im))) im)
  unfolding apply_effects diff
  apply_effects-IsGone desired im h here out entering again =
      let now = (panel_world w).now in
      let e = diff desired (observe (panel_world w).focused (frontend_of im)) in
      let discarded : e.discard_composition ≡ true = ground (arith, out) in
      let k5 =
        cleared-IsGone e.discard_composition e.send_focus_out e.destroy_grab im discarded h here in
      let k6 = when-IsGone e.scrub_generation apply_scrub _ (scrub-Silent app) k5 in
      let k7 =
        when-IsGone e.create_grab (apply_create now w.creation) _ (create-Silent app now w.creation)
          k6 in
      skip-IsGone e.reactivate (reactivate w) _ again
        (skip-IsGone e.send_focus_in (focus_in w) _ entering k7)

-- A tick that ends the wish for a grab, with the input method, the session and its context there
-- and a `done` received: whatever was told before, committed or not, the application shows no
-- preedit afterwards, the session remembers none, and no redraw is scheduled.
pub run_focus_controller_pipeline-cancel :
    (app : List ℕ × Option ℕ) (w : TickWorld) (prev : DesiredState) (im : InputMethod)
    → (frontend_of im).input_method ≡ true
    → ((frontend_of im).session && (frontend_of im).ctx) ≡ true
    → ((frontend_of im).im_serial == 0) ≡ false
    → is_yes prev.grab ≡ true
    → is_yes (run_focus_controller_pipeline w prev im).1.grab ≡ false
    → let after = (run_focus_controller_pipeline w prev im).0 in
      (shows app (frontend_of after).out ≡ ([], none))
      × (tracked after.session ≡ ([], none))
      × (after.schedule ≡ cancel)
unfolding run_focus_controller_pipeline reduce
run_focus_controller_pipeline-cancel app w prev im method here serial before left =
    let desired = (run_focus_controller_pipeline w prev im).1 in
    let v = view (settled app) (frontend_of im).out in
    let held : Holds app v.told v.shown (frontend_of im) = record {
      method = method;
      session = ground (arith, here);
      serial = serial;
      state = refl;
    } in
    let k =
      apply_effects-IsGone app w desired im held here (ground (arith, before, left))
        (ground (arith, before, left)) (ground (arith, before, left)) in
    (
      ap (λ (x : View). x.shown) (Holds.state (IsGone.front k)),
      IsOver.forgotten (IsGone.over k),
      IsOver.schedule (IsGone.over k),
    )
