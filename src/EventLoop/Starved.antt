-- ===== src/EventLoop/Starved.antt =====
-- Rounds of the event loop whose polls time out: they flush nothing.
use typiod_wayland.Prelude.{
  to_int, ℕ, ◌+◌, ◌-◌, ◌==◌, u64, ◌≤◌, ◌≡◌, refl, sym, ◌∙◌, ap, Bool, true, false, not, ◌&&◌, List,
  [], ◌∷◌, Option, none, some, ltb, leb, if◌then◌else◌, if_both, arith,
}
use mathlib.Core.Path.{subst}
use typiod_wayland.Keyboard.State.{is_vk_needs_keymap}
use typiod_wayland.Panel.Scheduler.{poll_timeout_ms}
use typiod_wayland.Panel.Coordinator.{PanelCoordinator, anchor_ready}
use typiod_wayland.InputMethod.{InputMethod, frontend_of}
use typiod_wayland.EventLoop.{
  Loop, LoopWorld, panel_world_of, anchor_deadline_ms, anchor_timeout_ms, poll_timeout,
  poll_timeout_min, panel_flushable, timed_out, timed_out_rounds,
}

-- What a panel and its schedule keep.
pub record SamePanel (im im2 : InputMethod) : Type 0 where
  pub coord : im2.shown.panel.coord ≡ im.shown.panel.coord
  pub drawn : im2.shown.panel.drawn ≡ im.shown.panel.drawn
  pub schedule : im2.schedule ≡ im.schedule

SamePanel-trans : (a b c : InputMethod) → SamePanel a b → SamePanel b c → SamePanel a c
SamePanel-trans a b c s t = record {
  coord = SamePanel.coord t ∙ SamePanel.coord s;
  drawn = SamePanel.drawn t ∙ SamePanel.drawn s;
  schedule = SamePanel.schedule t ∙ SamePanel.schedule s;
}

timed_out_rounds-SamePanel :
    (ws : List LoopWorld) (l : Loop) → SamePanel l.im (timed_out_rounds ws l).im
unfolding timed_out
timed_out_rounds-SamePanel [] l = record { coord = refl; drawn = refl; schedule = refl }
timed_out_rounds-SamePanel (w ∷ ws) l =
    let next = if (frontend_of l.im).running then timed_out w l else l in
    SamePanel-trans l.im next.im (timed_out_rounds ws next).im
      (if_both (λ (l2 : Loop). SamePanel l.im l2.im) (frontend_of l.im).running
        (λ _. record { coord = refl; drawn = refl; schedule = refl })
        (λ _. record { coord = refl; drawn = refl; schedule = refl }))
      (timed_out_rounds-SamePanel ws next)

min_zero : (t : Option ℕ) → poll_timeout_min t (some 0) ≡ some 0
unfolding poll_timeout_min
min_zero none = refl
min_zero (some t) =
    if_both (λ (o : Option ℕ). o ≡ some 0) (ltb 0 t) (λ _. refl) (λ e. ap some (ground (arith, e)))

zero_min : (t : Option ℕ) → poll_timeout_min (some 0) t ≡ some 0
unfolding poll_timeout_min
zero_min none = refl
zero_min (some t) =
    if_both (λ (o : Option ℕ). o ≡ some 0) (ltb t 0) (λ e. absurd (ground (arith, e))) (λ _. refl)

overdue-poll_timeout :
    (w : LoopWorld) (im : InputMethod)
    → im.shown.panel.coord.positioned_ui_pending ≡ true
    → anchor_ready im.shown.panel ≡ false
    → anchor_deadline_ms w im ≤ (panel_world_of w).now
    → poll_timeout w im ≡ some 0
unfolding poll_timeout poll_timeout_min anchor_ready
overdue-poll_timeout w im p a d =
    let vk = (frontend_of im).vk in
    let now = (panel_world_of w).now in
    let deadline = anchor_deadline_ms w im in
    let retry = poll_timeout_ms im.schedule (panel_flushable w im) none in
    let over : ltb now deadline ≡ false = ground (arith, d) in
    rw (p, a, over, min_zero retry)
      (if_both (λ (o : Option ℕ). o ≡ some 0)
        (is_vk_needs_keymap vk.state && ltb 0 vk.keymap_deadline_ms)
        (λ _.
          zero_min (
            if leb vk.keymap_deadline_ms now then some 0 else to_int (vk.keymap_deadline_ms - now)))
        (λ _. refl))

abbrev ready_at : PanelCoordinator → Bool
ready_at c =
    not (c.position_anchor_generation == 0)
    && (c.position_anchor_ready_generation == c.position_anchor_generation)

abbrev deadline_at : LoopWorld → PanelCoordinator → ℕ
deadline_at w c = u64 (c.positioned_ui_pending_since_ms + anchor_timeout_ms w.probe_timeout_ms)

-- Where a status waits for its anchor past its deadline: after any number of rounds whose polls time
-- out it still waits, nothing was drawn and the schedule is as it was, and the next poll has the
-- timeout 0. The loop polls again and again without waiting, and without dropping or showing the
-- status, until some descriptor is ready.
pub timed_out_rounds-poll_timeout :
    (ws : List LoopWorld) (w : LoopWorld) (l : Loop)
    → l.im.shown.panel.coord.positioned_ui_pending ≡ true
    → anchor_ready l.im.shown.panel ≡ false
    → anchor_deadline_ms w l.im ≤ (panel_world_of w).now
    → let l2 = timed_out_rounds ws l in
      (poll_timeout w l2.im ≡ some 0)
      × (l2.im.shown.panel.coord ≡ l.im.shown.panel.coord)
      × (l2.im.shown.panel.drawn ≡ l.im.shown.panel.drawn)
      × (l2.im.schedule ≡ l.im.schedule)
unfolding anchor_ready
timed_out_rounds-poll_timeout ws w l p a d =
    let l2 = timed_out_rounds ws l in
    let s = timed_out_rounds-SamePanel ws l in
    let c = SamePanel.coord s in
    (
      overdue-poll_timeout w l2.im (ap (λ (x : PanelCoordinator). x.positioned_ui_pending) c ∙ p)
          (ap ready_at c ∙ a)
          (subst (λ (x : PanelCoordinator). deadline_at w x ≤ (panel_world_of w).now) (sym c) d),
      c,
      SamePanel.drawn s,
      SamePanel.schedule s,
    )
