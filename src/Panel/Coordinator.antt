-- ===== src/Panel/Coordinator.antt =====
-- The one panel surface and its producers (src/wayland/panel_coordinator.c). The panel's own
-- operations draw, and are recorded; whether they succeed is the caller's world.
pub mod Deferred
pub mod Frame
use typiod_wayland.Prelude.{
  ℕ, ◌+◌, Bool, true, false, not, ◌&&◌, ◌||◌, List, [], ◌∷◌, ◌++◌, u64, ◌==◌, if◌then◌else◌, take,
}
use typiod_wayland.Text.Bytes.{is_empty}
use typiod_wayland.Keyboard.State.{Frontend, Call}
use typiod_wayland.Keyboard.Lifecycle.{clear_preedit, wl_commit}
use typiod_wayland.Panel.Scheduler.{PanelUpdateResult, update_ok, update_fail}

-- `TypioWlUiOwner`
pub data UiOwner : Type 0 where
  owner_none : UiOwner
  owner_candidate : UiOwner
  owner_indicator : UiOwner
  owner_voice : UiOwner

abbrev pub same_owner : UiOwner → UiOwner → Bool
same_owner owner_none owner_none = true
same_owner owner_candidate owner_candidate = true
same_owner owner_indicator owner_indicator = true
same_owner owner_voice owner_voice = true
same_owner _ _ = false

-- `TypioWlPanelCoordinator` without its schedule state
pub record PanelCoordinator : Type 0 where
  pub position_anchor_generation : ℕ
  pub position_anchor_ready_generation : ℕ
  pub position_anchor_probe_generation : ℕ
  pub position_anchor_has_caret : Bool
  pub positioned_ui_pending : Bool
  pub positioned_ui_pending_owner : UiOwner
  pub positioned_ui_pending_since_ms : ℕ
  pub positioned_ui_pending_label : List ℕ

pub data PanelCall : Type 0 where
  panel_hide : PanelCall
  panel_hide_status : PanelCall
  panel_update : PanelCall
  panel_show_status : List ℕ → PanelCall

-- The frontend with its panel; `candidate_count` is that of the session's snapshot.
pub record PanelFrontend : Type 0 where
  pub frontend : Frontend
  pub panel : Bool
  pub ui_owner : UiOwner
  pub candidate_count : ℕ
  pub coord : PanelCoordinator
  pub drawn : List PanelCall

pub record PanelWorld : Type 0 where
  pub now : ℕ
  pub focused : List Call → Bool
  pub anchor_probe : Bool
  pub shown : List ℕ → Bool
  pub updated : PanelUpdateResult

abbrev pub with_coord : (PanelCoordinator → PanelCoordinator) → PanelFrontend → PanelFrontend
with_coord step p = record p { coord = step p.coord }

abbrev pub draw : PanelCall → PanelFrontend → PanelFrontend
draw c p = record p { drawn = p.drawn ++ c ∷ [] }

unfoldable pub anchor_ready : PanelFrontend → Bool
anchor_ready p =
    not (p.coord.position_anchor_generation == 0)
    && (p.coord.position_anchor_ready_generation == p.coord.position_anchor_generation)

unfoldable pub reset_anchor : PanelFrontend → PanelFrontend
reset_anchor p =
    let g = u64 (p.coord.position_anchor_generation + 1) in
    with_coord
      (λ c. record c {
        position_anchor_generation = if g == 0 then 1 else g;
        position_anchor_ready_generation = 0;
        position_anchor_probe_generation = 0;
        position_anchor_has_caret = false;
      })
      p

unfoldable pub note_caret_rect : PanelFrontend → PanelFrontend
note_caret_rect p = with_coord (λ c. record c { position_anchor_has_caret = true }) p

unfoldable pub clear_caret_rect : PanelFrontend → PanelFrontend
clear_caret_rect p = with_coord (λ c. record c { position_anchor_has_caret = false }) p

unfoldable pub mark_anchor_ready : PanelFrontend → PanelFrontend
mark_anchor_ready p =
    if (p.coord.position_anchor_generation == 0) || anchor_ready p
    then p
    else with_coord
        (λ c. record c { position_anchor_ready_generation = c.position_anchor_generation }) p

unfoldable pub cancel_pending : PanelFrontend → PanelFrontend
cancel_pending p =
    with_coord
      (λ c. record c {
        positioned_ui_pending = false;
        positioned_ui_pending_owner = owner_none;
        positioned_ui_pending_since_ms = 0;
        positioned_ui_pending_label = [];
      })
      p

-- The label's array has room for 255 bytes.
abbrev pub label_of : List ℕ → List ℕ
label_of text = take 255 text

abbrev pub owns_status : UiOwner → Bool
owns_status owner_none = false
owns_status owner_candidate = false
owns_status _ = true

module _ (w : PanelWorld) where
  -- A commit with no change, once in a generation, for a fresh position of the cursor.
  unfoldable pub maybe_probe_position_anchor : PanelFrontend → PanelFrontend
  maybe_probe_position_anchor p =
      let g = p.coord.position_anchor_generation in
      if not p.frontend.input_method
        || not p.frontend.session
        || not w.anchor_probe
        || (g == 0)
        || (p.coord.position_anchor_probe_generation == g)
      then p
      else record (with_coord (λ c. record c { position_anchor_probe_generation = g }) p) {
        frontend = wl_commit (clear_preedit p.frontend);
      }

  abbrev pub has_focused_context : PanelFrontend → Bool
  has_focused_context p = p.frontend.session && p.frontend.ctx && w.focused p.frontend.out

  unfoldable pub queue_positioned_ui : UiOwner → List ℕ → PanelFrontend → PanelFrontend × Bool
  queue_positioned_ui owner text p =
      let c = p.coord in
      let again = c.positioned_ui_pending && same_owner c.positioned_ui_pending_owner owner in
      if is_empty text || not (has_focused_context p) then (p, false) else (
        maybe_probe_position_anchor (record p {
          coord = record c {
            positioned_ui_pending_since_ms =
                if again then c.positioned_ui_pending_since_ms else w.now;
            positioned_ui_pending_owner = owner;
            positioned_ui_pending_label = label_of text;
            positioned_ui_pending = true;
          };
        }),
        true,
      )

  -- At an anchor that is ready.
  unfoldable pub show_now : UiOwner → List ℕ → PanelFrontend → PanelFrontend × Bool
  show_now owner text p =
      let p1 = cancel_pending p in
      let p2 = if same_owner p1.ui_owner owner then p1 else draw panel_hide p1 in
      let p3 = draw (panel_show_status text) p2 in
      if w.shown text then (record p3 { ui_owner = owner }, true) else (p3, false)

  unfoldable pub show_status : UiOwner → List ℕ → PanelFrontend → PanelFrontend × Bool
  show_status owner text p =
      if not p.panel || is_empty text || not (owns_status owner)
      then (p, false)
      else if not (anchor_ready p)
      then queue_positioned_ui owner text p
      else show_now owner text p

  unfoldable pub hide : UiOwner → PanelFrontend → PanelFrontend
  hide owner p =
      let c = p.coord in
      let p1 =
        if c.positioned_ui_pending && same_owner c.positioned_ui_pending_owner owner
        then cancel_pending p
        else p in
      let hidden = record p1 { ui_owner = owner_none } in
      if not p.panel
      then p
      else if not (same_owner p1.ui_owner owner)
      then p1
      else if same_owner owner owner_candidate
      then draw panel_hide hidden
      else draw panel_hide_status hidden

  unfoldable pub hide_all : PanelFrontend → PanelFrontend
  hide_all p =
      if not p.panel
      then p
      else record (draw panel_hide (draw panel_hide_status (cancel_pending p))) {
        ui_owner = owner_none;
      }

  unfoldable pub show_candidates : PanelFrontend → PanelFrontend × PanelUpdateResult
  show_candidates p =
      let count = if p.frontend.session then p.candidate_count else 0 in
      let p1 = cancel_pending p in
      let p2 = if same_owner p1.ui_owner owner_candidate then p1 else draw panel_hide_status p1 in
      if not p.panel
      then (p, update_fail)
      else if count == 0
      then (hide owner_candidate p, update_ok)
      else (draw panel_update (record p2 { ui_owner = owner_candidate }), w.updated)

  unfoldable pub flush_pending : PanelFrontend → PanelFrontend
  flush_pending p =
      let c = p.coord in
      if not c.positioned_ui_pending || not (anchor_ready p)
      then p
      else (show_status c.positioned_ui_pending_owner (label_of c.positioned_ui_pending_label)
          (cancel_pending p)).0
