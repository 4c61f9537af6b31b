-- ===== src/EventLoop/Pipeline.antt =====
-- The focus controller's part of a round (`run_focus_controller_pipeline` of
-- src/wayland/event_loop.c and `typio_wl_focus_apply` of src/wayland/focus_effects.c), where the
-- effects reach the panel, the indicator and the session. The application's identity is recorded by
-- its calls.
pub mod Silence
pub mod Blanks
pub mod Fresh
pub mod Ticks
pub mod Leaving
use typiod_wayland.Prelude.{
  ℕ, Bool, true, false, not, ◌&&◌, ◌||◌, List, [], ◌∷◌, Option, none, some, if◌then◌else◌,
}
use typiod_wayland.Engine.Focus.{DesiredState, EffectSet, reduce, diff}
use typiod_wayland.Text.Bytes.{is_empty, text_or_empty}
use typiod_wayland.Keyboard.State.{
  call, context_reset, context_focus_in, refresh_identity, restore_identity_engine,
}
use typiod_wayland.Keyboard.Lifecycle.{
  Creation, observe, clear_preedit, wl_commit, hard_reset_keyboard, apply_focus_out, apply_scrub,
  apply_create,
}
use typiod_wayland.Panel.Coordinator.{
  PanelWorld, owner_candidate, hide, reset_anchor, maybe_probe_position_anchor,
}
use typiod_wayland.Panel.Indicator.{
  EngineMode, is_quiet_mode, show_indicator_for_state, show_indicator_on_focus,
}
use typiod_wayland.InputMethod.Snapshot.{Composition}
use typiod_wayland.InputMethod.{
  InputMethod, ImWorld, frontend_of, on_panel, on_frontend, cancel_ui_tracking, on_composition,
}

-- What a tick meets: the compositions that the context tells while it is reset and as it takes the
-- focus, what the grab's creation meets, the mode that the engine told last, and whether there is an
-- active engine. A context that was reset tells nothing as it loses the focus.
pub record TickWorld : Type 0 where
  pub im_world : ImWorld
  pub reset_tells : List (Option Composition)
  pub focus_tells : List (Option Composition)
  pub creation : Creation
  pub last_mode : Option EngineMode
  pub engine_present : Bool

module _ (w : TickWorld) where
  abbrev pub panel_world : PanelWorld
  panel_world = w.im_world.indicator_world.panel_world

  abbrev pub told_all : List (Option Composition) → InputMethod → InputMethod
  told_all [] im = im
  told_all (c ∷ cs) im = told_all cs (on_composition w.im_world c im)

  unfoldable pub discard_composition : InputMethod → InputMethod
  discard_composition im =
      let reset = told_all w.reset_tells (on_frontend (call context_reset) im) in
      if (frontend_of im).session && (frontend_of im).ctx
      then cancel_ui_tracking (on_panel (hide panel_world owner_candidate) reset)
      else im

  -- `show_focus_indicator` of a mode that has a label.
  abbrev pub show_mode : Bool → Option EngineMode → InputMethod → InputMethod
  show_mode force none im = im
  show_mode force (some mode) im =
      if not w.im_world.indicator_world.instance_set || is_empty (text_or_empty mode.display_label)
      then im
      else if force
      then (if mode.is_quiet then im else record im {
        shown = show_indicator_for_state w.im_world.indicator_world (some mode) im.shown;
      })
      else record im {
        shown = show_indicator_on_focus w.im_world.indicator_world (some mode) im.shown;
      }

  -- A new generation of the anchor, with its early probe.
  abbrev pub renew_anchor : InputMethod → InputMethod
  renew_anchor im = on_panel (λ p. maybe_probe_position_anchor panel_world (reset_anchor p)) im

  unfoldable pub focus_in : InputMethod → InputMethod
  focus_in im =
      let renewed = renew_anchor im in
      let told = told_all w.focus_tells (on_frontend (call context_focus_in) renewed) in
      let entered =
        on_frontend (λ f. call restore_identity_engine (call refresh_identity f)) told in
      if (frontend_of im).session && (frontend_of im).ctx
      then show_mode false w.last_mode entered
      else renewed

  unfoldable pub reactivate : InputMethod → InputMethod
  reactivate im = show_mode true w.last_mode (renew_anchor im)

  -- An effect that is not set is left out.
  abbrev pub when : Bool → (InputMethod → InputMethod) → InputMethod → InputMethod
  when b step im = if b then step im else im

  -- `typio_wl_focus_apply`, in the order of the source.
  unfoldable pub apply_effects : EffectSet → InputMethod → InputMethod
  apply_effects e im =
      let now = panel_world.now in
      let im1 = when e.discard_composition discard_composition im in
      let im2 = when e.send_focus_out (on_frontend (apply_focus_out now)) im1 in
      let im3 = when e.destroy_grab (on_frontend (hard_reset_keyboard now)) im2 in
      let im4 = when e.clear_preedit (on_frontend clear_preedit) im3 in
      let im5 = when e.commit (on_frontend wl_commit) im4 in
      let im6 = when e.scrub_generation (on_frontend apply_scrub) im5 in
      let im7 = when e.create_grab (on_frontend (apply_create now w.creation)) im6 in
      let im8 = when e.send_focus_in focus_in im7 in when e.reactivate reactivate im8

  -- `run_focus_controller_pipeline`, and the desired state that the next tick starts from.
  unfoldable pub run_focus_controller_pipeline :
      DesiredState → InputMethod → InputMethod × DesiredState
  run_focus_controller_pipeline prev im =
      let desired = reduce (record im.facts { engine_present = w.engine_present }) prev in
      let actual = observe panel_world.focused (frontend_of im) in
      (apply_effects (diff desired actual) im, desired)
