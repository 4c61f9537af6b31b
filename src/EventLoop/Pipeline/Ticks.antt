-- ===== src/EventLoop/Pipeline/Ticks.antt =====
-- What the application shows of the preedit after a tick of the focus controller.
use mathlib.Core.Path.{subst}
use typiod_wayland.Prelude.{
  ◌+◌, ◌<◌, length, ℕ, ◌≡◌, ◌⊎◌, inl, inr, refl, sym, ap, ◌∙◌, Bool, true, false, ◌&&◌, List, [],
  Option, none, if-true,
}
use typiod_wayland.Engine.Focus.{DesiredState, diff, reduce}
use typiod_wayland.Text.Bytes.{text_or_empty}
use typiod_wayland.Text.Preedit
use typiod_wayland.Keyboard.State.{Frontend, call, context_reset}
use typiod_wayland.Keyboard.Lifecycle.{
  observe, clear_preedit, wl_commit, hard_reset_keyboard, apply_focus_out, apply_scrub,
  apply_create,
}
use typiod_wayland.Panel.Coordinator.{owner_candidate, hide}
use typiod_wayland.Panel.Coordinator.Frame.{hide-frontend}
use typiod_wayland.InputMethod.{
  InputMethod, ImWorld, frontend_of, on_panel, on_frontend, cancel_ui_tracking,
  flush_scheduled_ui_update,
}
use typiod_wayland.InputMethod.Events.{Event, run}
use typiod_wayland.InputMethod.Seen.{
  seen, shows, Silent, Silent-refl, Silent-trans, eq-Silent, call-Silent, Silent-Holds,
  commit-Holds, send_preedit-Holds,
}
use typiod_wayland.InputMethod.Synced.{remembered-Holds, tracked, Synced, AllCopied}
use typiod_wayland.InputMethod.Synced.Runs.{AllContinue, flush-shows}
use typiod_wayland.EventLoop.Pipeline.{
  TickWorld, panel_world, told_all, discard_composition, focus_in, reactivate, when, apply_effects,
  run_focus_controller_pipeline,
}
use typiod_wayland.EventLoop.Pipeline.Silence.{
  hard_reset-Silent, focus_out-Silent, scrub-Silent, create-Silent,
}
use typiod_wayland.EventLoop.Pipeline.Fresh.{
  IsFresh, told-same, focus_in-IsFresh, reactivate-IsFresh,
}

module _ (app : List ℕ × Option ℕ) (w : TickWorld) where
  -- What is remembered is what it was in `im`, or nothing, and it is shown.
  record Stays (im im2 : InputMethod) : Type 0 where
    synced : Synced app im2
    kept : (tracked im2.session ≡ tracked im.session) ⊎ (tracked im2.session ≡ ([], none))

  pub discard-Silent :
      (im : InputMethod)
      → ((frontend_of im).session && (frontend_of im).ctx) ≡ true
      → Silent app (frontend_of im) (frontend_of (discard_composition w im))
        × (tracked (discard_composition w im).session ≡ ([], none))
  unfolding discard_composition cancel_ui_tracking
  discard-Silent im here =
      let reset = on_frontend (call context_reset) im in
      let told = told_all w w.reset_tells reset in
      let hidden = cancel_ui_tracking (on_panel (hide (panel_world w) owner_candidate) told) in
      let s = Silent-trans app (call-Silent app context_reset (frontend_of im) refl) (
        eq-Silent app (
          hide-frontend (panel_world w) owner_candidate told.shown.panel
          ∙ told-same w w.reset_tells reset)) in
      subst
        (λ (x : InputMethod).
          Silent app (frontend_of im) (frontend_of x) × (tracked x.session ≡ ([], none)))
        (sym (if-true hidden im ((frontend_of im).session && (frontend_of im).ctx) here)) (s, refl)

  pub when-Silent :
      (b : Bool) (step : Frontend → Frontend) (im : InputMethod)
      → ((f : Frontend) → Silent app f (step f))
      → Silent app (frontend_of im) (frontend_of (when w b (on_frontend step) im))
  when-Silent true step im s = s (frontend_of im)
  when-Silent false step im s = Silent-refl app (frontend_of im)

  when-session :
      (b : Bool) (step : Frontend → Frontend) (im : InputMethod)
      → (when w b (on_frontend step) im).session ≡ im.session
  when-session true step im = refl
  when-session false step im = refl

  -- The composition is discarded, steps are taken, and the preedit is cleared and committed.
  cleared-Stays :
      (d : Bool) (steps : InputMethod → InputMethod) (im : InputMethod)
      → ((frontend_of im).session && (frontend_of im).ctx) ≡ true
      → ((x : InputMethod) → Silent app (frontend_of x) (frontend_of (steps x)))
      → ((x : InputMethod) → (steps x).session ≡ x.session)
      → Synced app im
      → Stays im (
          when w d
            (on_frontend wl_commit)
            (when w d (on_frontend clear_preedit) (steps (when w d (discard_composition w) im))))
  cleared-Stays true steps im here s same h =
      let gone = discard_composition w im in
      let (t, e) = discard-Silent im here in
      let f = frontend_of (steps gone) in
      let held = Silent-Holds app (Silent-trans app t (s gone)) h in
      let k = ap tracked (same gone) ∙ e in
      record {
        synced =
            remembered-Holds app (sym k)
              (commit-Holds app (clear_preedit f) (send_preedit-Holds app none none f held));
        kept = inr k;
      }
  cleared-Stays false steps im here s same h =
      let k = ap tracked (same im) in
      record { synced = remembered-Holds app (sym k) (Silent-Holds app (s im) h); kept = inl k }

  when-Stays :
      (b : Bool) (step : Frontend → Frontend) (im x : InputMethod)
      → ((f : Frontend) → Silent app f (step f))
      → Stays im x
      → Stays im (when w b (on_frontend step) x)
  when-Stays true step im x s k = record {
    synced = Silent-Holds app (s (frontend_of x)) k.synced;
    kept = k.kept;
  }
  when-Stays false step im x s k = k

  Stays-IsFresh :
      (im x : InputMethod) → tracked im.session ≡ ([], none) → Stays im x → IsFresh app x
  Stays-IsFresh im x e k =
      let mind : tracked x.session ≡ ([], none) = elim k.kept [ inl q ↦ q ∙ e | inr q ↦ q ] in
      record { front = remembered-Holds app mind k.synced; mind = mind }

  IsFresh-Stays : (im x : InputMethod) → IsFresh app x → Stays im x
  IsFresh-Stays im x k = record {
    synced = remembered-Holds app (sym k.mind) k.front;
    kept = inr k.mind;
  }

  -- A step that is taken only where nothing was remembered.
  fresh-Stays :
      (b : Bool) (step : InputMethod → InputMethod) (im x : InputMethod)
      → ((y : InputMethod) → IsFresh app y → IsFresh app (step y))
      → (b ≡ true → tracked im.session ≡ ([], none))
      → Stays im x
      → Stays im (when w b step x)
  fresh-Stays true step im x s e k = IsFresh-Stays im (step x) (s x (Stays-IsFresh im x (e refl) k))
  fresh-Stays false step im x s e k = k

  -- The effects on the frontend that are taken between the discarding and the clearing.
  pub steps-Silent :
      (out destroy : Bool) (x : InputMethod)
      → Silent app (frontend_of x) (
          frontend_of (
            when w destroy
              (on_frontend (hard_reset_keyboard (panel_world w).now))
              (when w out (on_frontend (apply_focus_out (panel_world w).now)) x)))
  steps-Silent out destroy x =
      let now = (panel_world w).now in
      let left = when w out (on_frontend (apply_focus_out now)) x in
      Silent-trans app (when-Silent out (apply_focus_out now) x (focus_out-Silent app now))
        (when-Silent destroy (hard_reset_keyboard now) left (hard_reset-Silent app now))

  -- The effects of a tick keep what the application shows and what is remembered the same.
  apply_effects-Synced :
      (desired : DesiredState) (im : InputMethod)
      → Synced app im
      → ((frontend_of im).session && (frontend_of im).ctx) ≡ true
      → (desired.focus_in ≡ true → tracked im.session ≡ ([], none))
      → (desired.reactivate ≡ true → tracked im.session ≡ ([], none))
      → Synced app
          (apply_effects w (diff desired (observe (panel_world w).focused (frontend_of im))) im)
  unfolding apply_effects diff
  apply_effects-Synced desired im h here entering again =
      let now = (panel_world w).now in
      let e = diff desired (observe (panel_world w).focused (frontend_of im)) in
      let steps = λ (x : InputMethod).
        when w e.destroy_grab (on_frontend (hard_reset_keyboard now))
          (when w e.send_focus_out (on_frontend (apply_focus_out now)) x) in
      let k5 =
        cleared-Stays e.discard_composition steps im here
          (steps-Silent e.send_focus_out e.destroy_grab)
          (λ x.
            when-session e.destroy_grab (hard_reset_keyboard now) _
            ∙ when-session e.send_focus_out (apply_focus_out now) x)
          h in
      let k6 = when-Stays e.scrub_generation apply_scrub im _ (scrub-Silent app) k5 in
      let k7 =
        when-Stays e.create_grab (apply_create now w.creation) im _
          (create-Silent app now w.creation) k6 in
      let k8 = fresh-Stays e.send_focus_in (focus_in w) im _ (focus_in-IsFresh app w) entering k7 in
      Stays.synced
        (fresh-Stays e.reactivate (reactivate w) im _ (reactivate-IsFresh app w) again k8)

-- Where the application shows what the session remembers and commits are sent, with a session and
-- its context, and where nothing is remembered if the tick focuses or re-anchors, as after an activation: after a tick of
-- the focus controller and any events but an activation, a flush of a session leaves the application
-- showing the preedit of the context. A preedit is shown once it is committed, and an empty one
-- counts without its cursor; texts are copied, and the serial does not wrap.
pub run_focus_controller_pipeline-shows :
    (app : List ℕ × Option ℕ) (w : TickWorld) (prev : DesiredState) (im : InputMethod)
    (evs : List Event) (after : ImWorld) (preedit : Option Preedit.Preedit)
    → Synced app im
    → ((frontend_of im).session && (frontend_of im).ctx) ≡ true
    → ((run_focus_controller_pipeline w prev im).1.focus_in ≡ true
        → tracked im.session ≡ ([], none))
    → ((run_focus_controller_pipeline w prev im).1.reactivate ≡ true
        → tracked im.session ≡ ([], none))
    → AllContinue evs
    → (frontend_of (run_focus_controller_pipeline w prev im).0).im_serial + length evs < 4294967296
    → AllCopied after
    → let last = run (run_focus_controller_pipeline w prev im).0 evs in
      ((frontend_of last).session && (frontend_of last).ctx) ≡ true
      → let (plain, cursor) = Preedit.build_plain_preedit after.resized preedit in
        shows app (frontend_of (flush_scheduled_ui_update after preedit last)).out
        ≡ seen (text_or_empty plain) cursor
unfolding run_focus_controller_pipeline
run_focus_controller_pipeline-shows app w prev im evs after preedit h here entering again c small
      all there =
    let desired = reduce (record im.facts { engine_present = w.engine_present }) prev in
    flush-shows app _ evs after preedit
      (apply_effects-Synced app w desired im h here entering again) c small all there
