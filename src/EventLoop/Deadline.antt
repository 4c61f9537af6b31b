-- ===== src/EventLoop/Deadline.antt =====
-- The deadline of a status that waits for its anchor (`event_loop_flush_pending_panel` of
-- src/wayland/event_loop.c).
use mathlib.Core.Path.{subst}
use typiod_wayland.Prelude.{
  ℕ, ◌+◌, ◌≤◌, ◌<◌, ◌≡◌, refl, sym, ap, Bool, true, false, not, ◌&&◌, ◌||◌, List, Option, ltb, ◌==◌,
  if◌then◌else◌, if-false, if_both, Bool-cases, inl, inr, length, arith,
}
use typiod_wayland.Text.Bytes.{is_empty, text_or_empty}
use typiod_wayland.Text.Preedit
use typiod_wayland.Panel.Scheduler.{PanelUpdateResult, should_flush}
use typiod_wayland.Panel.Coordinator.{
  PanelFrontend, PanelWorld, UiOwner, owner_candidate, owner_indicator, same_owner, owns_status,
  anchor_ready, mark_anchor_ready, cancel_pending, flush_pending, show_status, show_now,
  queue_positioned_ui, hide, show_candidates, label_of,
}
use typiod_wayland.Panel.Indicator.{Shown, IndicatorWorld, fit, show_indicator}
use typiod_wayland.InputMethod.{
  InputMethod, ImWorld, frontend_of, on_panel, refresh_panel, sync_preedit,
  flush_scheduled_ui_update, is_ok, preedit_changed,
}
use typiod_wayland.EventLoop.{
  Loop, LoopWorld, plan_show, plan_cancel, positioned_ui_plan, anchor_timeout_ms, panel_world_of,
  show_pending, carry_out, resolve_positioned, flush_pending_panel,
}

-- No status waits.
abbrev pub IsResolved : PanelFrontend → Type 0
IsResolved p = p.coord.positioned_ui_pending ≡ false

show_status-IsResolved :
    (w : PanelWorld) (owner : UiOwner) (text : List ℕ) (p : PanelFrontend)
    → anchor_ready p ≡ true
    → IsResolved p
    → IsResolved (show_status w owner text p).0
unfolding show_status show_now cancel_pending
show_status-IsResolved w owner text p a r =
    if_both (λ (q : PanelFrontend × Bool). IsResolved q.0)
      (not p.panel || is_empty text || not (owns_status owner)) (λ _. r)
      (λ _.
        rw
          (sym (
            if-false (queue_positioned_ui w owner text p) (show_now w owner text p)
              (not (anchor_ready p)) (ap not a)))
          (ground arith))

show_indicator-IsResolved :
    (w : IndicatorWorld) (text : List ℕ) (s : Shown)
    → anchor_ready s.panel ≡ true
    → IsResolved s.panel
    → IsResolved (show_indicator w text s).panel
unfolding show_indicator
show_indicator-IsResolved w text s a r =
    let k = show_status-IsResolved w.panel_world owner_indicator text s.panel a r in
    let (p, shown) = show_status w.panel_world owner_indicator text s.panel in
    if_both (λ (t : Shown). IsResolved t.panel)
      (is_empty text || not w.enabled || not s.panel.panel) (λ _. r)
      (λ _. if_both (λ (t : Shown). IsResolved t.panel) shown (λ _. k) (λ _. k))

mark-ready :
    (p : PanelFrontend)
    → (p.coord.position_anchor_generation == 0) ≡ false
    → anchor_ready (mark_anchor_ready p) ≡ true
unfolding mark_anchor_ready anchor_ready
mark-ready p g = ground arith

waits_not :
    (pending ready : Bool) → ready ≡ true → (not pending || not ready) ≡ true → pending ≡ false
waits_not false ready a e = refl
waits_not true true a e = absurd (ground (arith, e))
waits_not true false a e = absurd (ground (arith, a))

flush_pending-IsResolved :
    (w : PanelWorld) (p : PanelFrontend) → anchor_ready p ≡ true → IsResolved (flush_pending w p)
unfolding flush_pending anchor_ready cancel_pending
flush_pending-IsResolved w p a =
    let c = p.coord in
    if_both (λ (q : PanelFrontend). IsResolved q)
      (not c.positioned_ui_pending || not (anchor_ready p))
      (λ e. waits_not c.positioned_ui_pending (anchor_ready p) a e)
      (λ _.
        show_status-IsResolved w c.positioned_ui_pending_owner
          (label_of c.positioned_ui_pending_label) (cancel_pending p) a refl)

show_pending-IsResolved :
    (w : LoopWorld) (im : InputMethod)
    → anchor_ready im.shown.panel ≡ true
    → IsResolved (show_pending w im).shown.panel
unfolding anchor_ready cancel_pending
show_pending-IsResolved w im a =
    let c = im.shown.panel.coord in
    if_both (λ (x : InputMethod). IsResolved x.shown.panel)
      (same_owner c.positioned_ui_pending_owner owner_indicator)
      (λ _.
        show_indicator-IsResolved w.im_world.indicator_world (fit 256 c.positioned_ui_pending_label)
          (on_panel cancel_pending im).shown a refl)
      (λ _. flush_pending-IsResolved (panel_world_of w) im.shown.panel a)

waits : (pending : Bool) → not pending ≡ false → pending ≡ true
waits true e = refl
waits false e = sym e

ready_plan :
    (pending ready : Bool) (since now timeout : ℕ)
    → pending ≡ true
    → ready ≡ true
    → positioned_ui_plan pending ready since now timeout ≡ plan_show
unfolding positioned_ui_plan
ready_plan pending ready since now timeout p a = rw (p, a) refl

overdue_plan :
    (pending ready : Bool) (since now timeout : ℕ)
    → pending ≡ true
    → ready ≡ false
    → 0 < since
    → since + timeout ≤ now
    → positioned_ui_plan pending ready since now timeout ≡ plan_cancel
unfolding positioned_ui_plan
overdue_plan pending ready since now timeout p a s d = rw (p, a) (ground (arith, s, d))

carry_out_show :
    (w : LoopWorld) (im : InputMethod)
    → anchor_ready im.shown.panel ≡ true
    → IsResolved (carry_out w plan_show im).shown.panel
unfolding carry_out
carry_out_show w im a = show_pending-IsResolved w im a

carry_out-IsResolved :
    (w : LoopWorld) (im : InputMethod)
    → (im.shown.panel.coord.position_anchor_generation == 0) ≡ false
    → IsResolved (carry_out w plan_cancel im).shown.panel
unfolding carry_out cancel_pending
carry_out-IsResolved w im g =
    let c = im.shown.panel.coord in
    let R = λ (x : InputMethod). IsResolved x.shown.panel in
    let caret =
      c.position_anchor_has_caret || same_owner c.positioned_ui_pending_owner owner_indicator in
    elim (Bool-cases caret) [
      | inl e ↦
          rw e (
            show_pending-IsResolved w (on_panel mark_anchor_ready im) (mark-ready im.shown.panel g))
      | inr e ↦ rw e refl
    ]

resolve-IsResolved :
    (w : LoopWorld) (im : InputMethod)
    → let c = im.shown.panel.coord in
      (c.position_anchor_generation == 0) ≡ false
      → 0 < c.positioned_ui_pending_since_ms
      → c.positioned_ui_pending_since_ms + anchor_timeout_ms w.probe_timeout_ms
        ≤ (panel_world_of w).now
      → IsResolved (resolve_positioned w im).shown.panel
unfolding resolve_positioned
resolve-IsResolved w im g s d =
    let c = im.shown.panel.coord in
    let now = (panel_world_of w).now in
    let timeout = anchor_timeout_ms w.probe_timeout_ms in
    let R = λ (x : InputMethod). IsResolved x.shown.panel in
    let plan =
      positioned_ui_plan c.positioned_ui_pending (anchor_ready im.shown.panel)
        c.positioned_ui_pending_since_ms now timeout in
    if_both R (not c.positioned_ui_pending) (λ e. ground (arith, e))
      (λ e. elim (Bool-cases (anchor_ready im.shown.panel)) [
        | inl a ↦
            subst (λ pl. R (carry_out w pl im))
              (sym (ready_plan _ _ c.positioned_ui_pending_since_ms now timeout (waits _ e) a))
              (carry_out_show w im a)
        | inr a ↦
            subst (λ pl. R (carry_out w pl im))
              (sym
                (overdue_plan _ _ c.positioned_ui_pending_since_ms now timeout (waits _ e) a s d))
              (carry_out-IsResolved w im g)
      ])

hide-IsResolved :
    (w : PanelWorld) (owner : UiOwner) (p : PanelFrontend)
    → IsResolved p
    → IsResolved (hide w owner p)
unfolding hide cancel_pending
hide-IsResolved w owner p r = ground (arith, r)

show_candidates-IsResolved :
    (w : PanelWorld) (p : PanelFrontend) → IsResolved p → IsResolved (show_candidates w p).0
unfolding show_candidates cancel_pending
show_candidates-IsResolved w p r =
    let R = λ (q : PanelFrontend × PanelUpdateResult). IsResolved q.0 in
    if_both R (not p.panel) (λ _. r)
      (λ _.
        if_both R ((if p.frontend.session then p.candidate_count else 0) == 0)
          (λ _. hide-IsResolved w owner_candidate p r)
          (λ _.
            if_both (λ (q : PanelFrontend). IsResolved q) (same_owner p.ui_owner owner_candidate)
              (λ _. refl) (λ _. refl)))

refresh_panel-IsResolved :
    (w : ImWorld) (im : InputMethod)
    → IsResolved im.shown.panel
    → IsResolved (refresh_panel w im).shown.panel
unfolding refresh_panel mark_anchor_ready
refresh_panel-IsResolved w im r =
    let count = length im.session.candidate_snapshot.candidates in
    let p0 = record im.shown.panel { candidate_count = count } in
    let k = show_candidates-IsResolved w.indicator_world.panel_world p0 r in
    let (p, result) = show_candidates w.indicator_world.panel_world p0 in
    if_both (λ (q : PanelFrontend). IsResolved q) (is_ok result && ltb 0 count)
      (λ _.
        if_both (λ (q : PanelFrontend). IsResolved q)
          ((p.coord.position_anchor_generation == 0) || anchor_ready p) (λ _. k) (λ _. k))
      (λ _. k)

flush_scheduled-IsResolved :
    (w : ImWorld) (preedit : Option Preedit.Preedit) (im : InputMethod)
    → IsResolved im.shown.panel
    → IsResolved (flush_scheduled_ui_update w preedit im).shown.panel
unfolding flush_scheduled_ui_update sync_preedit
flush_scheduled-IsResolved w preedit im r =
    let R = λ (x : InputMethod). IsResolved x.shown.panel in
    let (plain, cursor) = Preedit.build_plain_preedit w.resized preedit in
    let im1 = refresh_panel w im in
    let k = refresh_panel-IsResolved w im r in
    let s = im1.session in
    if_both R ((frontend_of im).session && (frontend_of im).ctx)
      (λ _.
        if_both R
          (preedit_changed s.last_preedit_text s.last_preedit_cursor (text_or_empty plain) cursor)
          (λ _. k) (λ _. k))
      (λ _. r)

-- Where a generation of the anchor has begun and the deadline of a status that waits has passed: a
-- flush of the panel, with a session, leaves no status waiting, whether the anchor came or not, who
-- owns it, and whatever the rest of the flush does.
pub flush_pending_panel-IsResolved :
    (w : LoopWorld) (preedit : Option Preedit.Preedit) (l : Loop)
    → let c = l.im.shown.panel.coord in
      (frontend_of l.im).session ≡ true
      → (c.position_anchor_generation == 0) ≡ false
      → 0 < c.positioned_ui_pending_since_ms
      → c.positioned_ui_pending_since_ms + anchor_timeout_ms w.probe_timeout_ms
        ≤ (panel_world_of w).now
      → IsResolved (flush_pending_panel w preedit l).im.shown.panel
unfolding flush_pending_panel
flush_pending_panel-IsResolved w preedit l h g s d =
    let R = λ (x : Loop). IsResolved x.im.shown.panel in
    let im = resolve_positioned w l.im in
    let f = frontend_of im in
    let r = resolve-IsResolved w l.im g s d in
    if_both R (not (frontend_of l.im).session) (λ e. absurd (ground (arith, e, h)))
      (λ _.
        if_both R
          (not (should_flush im.schedule true f.ctx (f.ctx && (panel_world_of w).focused f.out)))
          (λ _. r) (λ _. flush_scheduled-IsResolved w.im_world preedit im r))
