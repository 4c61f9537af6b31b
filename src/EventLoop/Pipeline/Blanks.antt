-- ===== src/EventLoop/Pipeline/Blanks.antt =====
-- The steps of the panel and the indicator, where the application shows no preedit.
use typiod_wayland.Prelude.{
  ℕ, Bool, not, ◌&&◌, ◌||◌, List, [], Option, none, some, ◌==◌, ltb, sub64, if_both,
}
use typiod_wayland.Text.Bytes.{is_empty}
use typiod_wayland.Keyboard.State.{Frontend}
use typiod_wayland.Keyboard.Lifecycle.{clear_preedit}
use typiod_wayland.Panel.Coordinator.{
  PanelFrontend, PanelWorld, UiOwner, owner_indicator, same_owner, owns_status, anchor_ready,
  has_focused_context, maybe_probe_position_anchor, queue_positioned_ui, show_now, show_status,
  cancel_pending,
}
use typiod_wayland.Panel.Indicator.{
  IndicatorWorld, EngineMode, Shown, acknowledged, is_quiet_mode, build_indicator_label, fit,
  on_indicator, show_label, show_indicator, show_indicator_for_state, show_indicator_on_focus,
}
use typiod_wayland.InputMethod.Seen.{Holds, commit-Holds, send_preedit-Holds}

-- Commits are sent, and the application was told no preedit and shows none.
abbrev pub IsBlank : List ℕ × Option ℕ → Frontend → Type 0
IsBlank app f = Holds app ([], none) ([], none) f

module _ (app : List ℕ × Option ℕ) where
  pub probe-IsBlank :
      (w : PanelWorld) (p : PanelFrontend)
      → IsBlank app p.frontend
      → IsBlank app (maybe_probe_position_anchor w p).frontend
  unfolding maybe_probe_position_anchor
  probe-IsBlank w p b =
      let g = p.coord.position_anchor_generation in
      if_both (λ (q : PanelFrontend). IsBlank app q.frontend)
        (not p.frontend.input_method
          || not p.frontend.session
          || not w.anchor_probe
          || (g == 0)
          || (p.coord.position_anchor_probe_generation == g))
        (λ _. b)
        (λ _.
          commit-Holds app (clear_preedit p.frontend)
            (send_preedit-Holds app none none p.frontend b))

  show_status-IsBlank :
      (w : PanelWorld) (owner : UiOwner) (text : List ℕ) (p : PanelFrontend)
      → IsBlank app p.frontend
      → IsBlank app (show_status w owner text p).0.frontend
  unfolding show_status queue_positioned_ui show_now cancel_pending
  show_status-IsBlank w owner text p b =
      let B = λ (r : PanelFrontend × Bool). IsBlank app r.0.frontend in
      if_both B (not p.panel || is_empty text || not (owns_status owner)) (λ _. b)
        (λ _.
          if_both B (not (anchor_ready p))
            (λ _.
              if_both B (is_empty text || not (has_focused_context w p)) (λ _. b)
                (λ _. probe-IsBlank w _ b))
            (λ _.
              if_both B (w.shown text)
                (λ _.
                  if_both (λ (q : PanelFrontend). IsBlank app q.frontend)
                    (same_owner p.ui_owner owner) (λ _. b) (λ _. b))
                (λ _.
                  if_both (λ (q : PanelFrontend). IsBlank app q.frontend)
                    (same_owner p.ui_owner owner) (λ _. b) (λ _. b))))

  show_indicator-IsBlank :
      (w : IndicatorWorld) (text : List ℕ) (s : Shown)
      → IsBlank app s.panel.frontend
      → IsBlank app (show_indicator w text s).panel.frontend
  unfolding show_indicator
  show_indicator-IsBlank w text s b =
      let B = λ (t : Shown). IsBlank app t.panel.frontend in
      let k = show_status-IsBlank w.panel_world owner_indicator text s.panel b in
      let (p, shown) = show_status w.panel_world owner_indicator text s.panel in
      if_both B (is_empty text || not w.enabled || not s.panel.panel) (λ _. b)
        (λ _. if_both B shown (λ _. k) (λ _. k))

  label-IsBlank :
      (w : IndicatorWorld) (label : Option (List ℕ)) (s : Shown)
      → IsBlank app s.panel.frontend
      → IsBlank app (show_label w label s).panel.frontend
  label-IsBlank w none s b = b
  label-IsBlank w (some label) s b = show_indicator-IsBlank w label s b

  pub for_state-IsBlank :
      (w : IndicatorWorld) (mode : Option EngineMode) (s : Shown)
      → IsBlank app s.panel.frontend
      → IsBlank app (show_indicator_for_state w mode s).panel.frontend
  unfolding show_indicator_for_state
  for_state-IsBlank w mode s b =
      let (label, i) = build_indicator_label w mode 256 s.indicator in
      if_both (λ (t : Shown). IsBlank app t.panel.frontend)
        (not w.instance_set || not w.enabled || not s.panel.panel) (λ _. b)
        (λ _. label-IsBlank w label (record s { indicator = i }) b)

  pub on_focus-IsBlank :
      (w : IndicatorWorld) (mode : Option EngineMode) (s : Shown)
      → IsBlank app s.panel.frontend
      → IsBlank app (show_indicator_on_focus w mode s).panel.frontend
  unfolding show_indicator_on_focus
  on_focus-IsBlank w mode s b =
      let B = λ (t : Shown). IsBlank app t.panel.frontend in
      let ack = acknowledged w s.indicator in
      if_both B (not (is_empty s.indicator.pending_label))
        (λ _.
          show_indicator-IsBlank w (fit 256 s.indicator.pending_label)
            (on_indicator (λ i. record i { pending_label = [] }) s) b)
        (λ _.
          if_both B (is_quiet_mode w mode || (ltb 0 ack && ltb (sub64 w.panel_world.now ack) 3000))
            (λ _. b) (λ _. for_state-IsBlank w mode s b))
