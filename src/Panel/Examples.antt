-- ===== src/Panel/Examples.antt =====
-- The panel at concrete states.
use typiod_wayland.Prelude.{◌≡◌, refl, true, false, [], ◌∷◌}
use typiod_wayland.Keyboard.Router.Examples.{start}
use typiod_wayland.Panel.Scheduler.{update_ok}
use typiod_wayland.Panel.Coordinator.{
  PanelFrontend, PanelWorld, owner_none, owner_indicator, anchor_ready, mark_anchor_ready, label_of,
  show_now, show_status, flush_pending,
}
use typiod_wayland.Panel.Coordinator.Deferred.{IsShown, show_status-deferred}

abbrev pub world : PanelWorld
world = record {
  now = 70;
  focused = λ calls. true;
  anchor_probe = true;
  shown = λ text. true;
  updated = update_ok;
}

abbrev pub waiting : PanelFrontend
waiting = record {
  frontend = start.frontend;
  panel = true;
  ui_owner = owner_none;
  candidate_count = 0;
  coord = record {
    position_anchor_generation = 3;
    position_anchor_ready_generation = 0;
    position_anchor_probe_generation = 0;
    position_anchor_has_caret = false;
    positioned_ui_pending = false;
    positioned_ui_pending_owner = owner_none;
    positioned_ui_pending_since_ms = 0;
    positioned_ui_pending_label = [];
  };
  drawn = [];
}

show_status-deferred_example :
    let q = (show_status world owner_indicator (69 ∷ 78 ∷ []) waiting).0 in
    (q.drawn ≡ [])
    × IsShown
        (show_now world owner_indicator (label_of (69 ∷ 78 ∷ [])) waiting).0
        (flush_pending world (mark_anchor_ready q))
unfolding anchor_ready
show_status-deferred_example =
    show_status-deferred world world owner_indicator 69 (78 ∷ []) waiting refl refl refl refl refl
