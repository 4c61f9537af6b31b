-- ===== src/Panel/Indicator/Kept.antt =====
-- A label that the indicator could not show is kept for the next focus.
use typiod_wayland.Prelude.{
  ℕ, ◌<◌, ◌≡◌, ap, ◌∙◌, true, false, not, ◌||◌, List, [], Option, length, take_all, if-false,
  if-true, arith,
}
use typiod_wayland.Text.Bytes.{is_empty}
use typiod_wayland.Panel.Coordinator.{owner_indicator, show_status}
use typiod_wayland.Panel.Indicator.{
  EngineMode, IndicatorWorld, Shown, show_indicator, show_indicator_on_focus,
}

kept :
    (w : IndicatorWorld) (text : List ℕ) (s : Shown)
    → is_empty text ≡ false
    → length text < 128
    → w.enabled ≡ true
    → s.panel.panel ≡ true
    → (show_status w.panel_world owner_indicator text s.panel).1 ≡ false
    → show_indicator w text s ≡ record {
      panel = (show_status w.panel_world owner_indicator text s.panel).0;
      indicator = record s.indicator { pending_label = text };
    }
unfolding show_indicator
kept w text s full short on panel held =
    let p = (show_status w.panel_world owner_indicator text s.panel).0 in
    let goes_on : (is_empty text || not w.enabled || not s.panel.panel) ≡ false = ground arith in
    if-false _ _ (is_empty text || not w.enabled || not s.panel.panel) goes_on
    ∙ if-false _ _ (show_status w.panel_world owner_indicator text s.panel).1 held
    ∙ ap (λ label. record { panel = p; indicator = record s.indicator { pending_label = label } })
        (take_all 127 text (omega arith))

-- A label that finds a panel and is not shown, of 127 bytes at most, is what the next focus shows,
-- whatever the mode, however recent the last input: as if it were shown for the first time then.
pub show_indicator-on_focus :
    (w w2 : IndicatorWorld) (mode : Option EngineMode) (text : List ℕ) (s : Shown)
    → is_empty text ≡ false
    → length text < 128
    → w.enabled ≡ true
    → s.panel.panel ≡ true
    → (show_status w.panel_world owner_indicator text s.panel).1 ≡ false
    → show_indicator_on_focus w2 mode (show_indicator w text s)
      ≡ show_indicator w2 text (record {
        panel = (show_status w.panel_world owner_indicator text s.panel).0;
        indicator = record s.indicator { pending_label = [] };
      })
unfolding show_indicator_on_focus
show_indicator-on_focus w w2 mode text s full short on panel held =
    let p = (show_status w.panel_world owner_indicator text s.panel).0 in
    rw (kept w text s full short on panel held) (
      if-true _ _ (not (is_empty text)) (ap not full)
      ∙ ap
          (λ label.
            show_indicator w2 label
              (record { panel = p; indicator = record s.indicator { pending_label = [] } }))
          (take_all 255 text (omega arith)))
