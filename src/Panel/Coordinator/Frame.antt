-- ===== src/Panel/Coordinator/Frame.antt =====
-- The operations of the panel's coordinator that leave the frontend alone.
use typiod_wayland.Prelude.{◌≡◌, refl, not, ◌==◌, if◌then◌else◌, if_both, arith}
use typiod_wayland.Panel.Scheduler.{PanelUpdateResult}
use typiod_wayland.Panel.Coordinator.{
  PanelFrontend, PanelWorld, UiOwner, owner_candidate, same_owner, hide, show_candidates,
  mark_anchor_ready, cancel_pending,
}

pub hide-frontend :
    (w : PanelWorld) (owner : UiOwner) (p : PanelFrontend) → (hide w owner p).frontend ≡ p.frontend
unfolding hide cancel_pending
hide-frontend w owner p = ground arith

pub mark_anchor_ready-frontend : (p : PanelFrontend) → (mark_anchor_ready p).frontend ≡ p.frontend
unfolding mark_anchor_ready
mark_anchor_ready-frontend p = ground arith

pub show_candidates-frontend :
    (w : PanelWorld) (p : PanelFrontend) → (show_candidates w p).0.frontend ≡ p.frontend
unfolding show_candidates cancel_pending
show_candidates-frontend w p =
    let P = λ (r : PanelFrontend × PanelUpdateResult). r.0.frontend ≡ p.frontend in
    if_both P (not p.panel) (λ _. refl)
      (λ _.
        if_both P ((if p.frontend.session then p.candidate_count else 0) == 0)
          (λ _. hide-frontend w owner_candidate p)
          (λ _.
            if_both (λ (q : PanelFrontend). q.frontend ≡ p.frontend)
              (same_owner p.ui_owner owner_candidate) (λ _. refl) (λ _. refl)))
