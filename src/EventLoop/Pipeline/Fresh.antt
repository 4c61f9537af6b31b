-- ===== src/EventLoop/Pipeline/Fresh.antt =====
-- The steps that enter a field, where nothing was shown and nothing remembered.
use typiod_wayland.Prelude.{
  ℕ, ◌≡◌, refl, Bool, true, false, ◌&&◌, List, [], Option, none, some, if_both, not, ◌||◌, ◌∷◌, ◌∙◌,
}
use typiod_wayland.Text.Bytes.{is_empty, text_or_empty}
use typiod_wayland.Keyboard.State.{
  call, context_focus_in, refresh_identity, restore_identity_engine,
}
use typiod_wayland.Panel.Coordinator.{reset_anchor}
use typiod_wayland.Panel.Indicator.{EngineMode}
use typiod_wayland.InputMethod.{
  InputMethod, frontend_of, on_frontend, on_composition, request_ui_update,
}
use typiod_wayland.InputMethod.Seen.{Silent-Holds, Silent-trans, call-Silent, eq-Silent}
use typiod_wayland.InputMethod.Snapshot.{Composition}
use typiod_wayland.InputMethod.Synced.{tracked}
use typiod_wayland.EventLoop.Pipeline.{
  TickWorld, panel_world, told_all, show_mode, renew_anchor, focus_in, reactivate,
}
use typiod_wayland.EventLoop.Pipeline.Blanks.{
  IsBlank, probe-IsBlank, for_state-IsBlank, on_focus-IsBlank,
}

-- Nothing is shown, and nothing remembered.
pub record IsFresh (app : List ℕ × Option ℕ) (im : InputMethod) : Type 0 where
  pub front : IsBlank app (frontend_of im)
  pub mind : tracked im.session ≡ ([], none)

module _ (w : TickWorld) where
  pub told-same :
      (cs : List (Option Composition)) (im : InputMethod)
      → frontend_of (told_all w cs im) ≡ frontend_of im
  unfolding on_composition request_ui_update
  told-same [] im = refl
  told-same (c ∷ cs) im = told-same cs (on_composition w.im_world c im)

  told-tracked :
      (cs : List (Option Composition)) (im : InputMethod)
      → tracked (told_all w cs im).session ≡ tracked im.session
  unfolding on_composition request_ui_update
  told-tracked [] im = refl
  told-tracked (none ∷ cs) im = told-tracked cs (on_composition w.im_world none im)
  told-tracked (some c ∷ cs) im = told-tracked cs (on_composition w.im_world (some c) im)

module _ (app : List ℕ × Option ℕ) (w : TickWorld) where
  mode-IsFresh :
      (force : Bool) (mode : Option EngineMode) (im : InputMethod)
      → IsFresh app im
      → IsFresh app (show_mode w force mode im)
  mode-IsFresh force none im k = k
  mode-IsFresh force (some mode) im k =
      let iw = w.im_world.indicator_world in
      if_both (IsFresh app) (not iw.instance_set || is_empty (text_or_empty mode.display_label))
        (λ _. k)
        (λ _.
          if_both (IsFresh app) force
            (λ _.
              if_both (IsFresh app) mode.is_quiet (λ _. k)
                (λ _. record {
                  front = for_state-IsBlank app iw (some mode) im.shown k.front;
                  mind = k.mind;
                }))
            (λ _. record {
              front = on_focus-IsBlank app iw (some mode) im.shown k.front;
              mind = k.mind;
            }))

  renew-IsFresh : (im : InputMethod) → IsFresh app im → IsFresh app (renew_anchor w im)
  unfolding reset_anchor
  renew-IsFresh im k = record {
    front = probe-IsBlank app (panel_world w) (reset_anchor im.shown.panel) k.front;
    mind = k.mind;
  }

  pub focus_in-IsFresh : (im : InputMethod) → IsFresh app im → IsFresh app (focus_in w im)
  unfolding focus_in
  focus_in-IsFresh im k =
      let renewed = renew_anchor w im in
      let r = renew-IsFresh im k in
      let focused = on_frontend (call context_focus_in) renewed in
      let told = told_all w w.focus_tells focused in
      let s = Silent-trans app (call-Silent app context_focus_in (frontend_of renewed) refl) (
        Silent-trans app (eq-Silent app (told-same w w.focus_tells focused)) (
          Silent-trans app (call-Silent app refresh_identity (frontend_of told) refl)
            (call-Silent app restore_identity_engine _ refl))) in
      if_both (IsFresh app) ((frontend_of im).session && (frontend_of im).ctx)
        (λ _. mode-IsFresh false w.last_mode _ (record {
          front = Silent-Holds app s (IsFresh.front r);
          mind = told-tracked w w.focus_tells focused ∙ IsFresh.mind r;
        }))
        (λ _. r)

  pub reactivate-IsFresh : (im : InputMethod) → IsFresh app im → IsFresh app (reactivate w im)
  unfolding reactivate
  reactivate-IsFresh im k = mode-IsFresh true w.last_mode _ (renew-IsFresh im k)
