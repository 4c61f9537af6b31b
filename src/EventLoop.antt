-- ===== src/EventLoop.antt =====
-- The panel's part in the rounds of the event loop (src/wayland/event_loop.c, src/ui/state.c): the
-- timeout of the poll, the flush of what the panel owes, and how a round ends. A timeout is none
-- where it is negative, which blocks. What is dispatched between the poll and the flush is the
-- other parts' work.
pub mod Deadline
pub mod Starved
pub mod Pipeline
mod Examples
use typiod_wayland.Prelude.{
  to_int, ℕ, ◌+◌, ◌-◌, Bool, true, false, not, ◌&&◌, ◌||◌, List, [], ◌∷◌, Option, none, some, u32,
  u64, ltb, leb, if◌then◌else◌,
}
use typiod_wayland.Text.Preedit
use typiod_wayland.Keyboard.State.{is_vk_needs_keymap}
use typiod_wayland.Keyboard.Bridge.{vk_health_check}
use typiod_wayland.Panel.Scheduler.{poll_timeout_ms, should_flush}
use typiod_wayland.Panel.Coordinator.{
  PanelWorld, owner_indicator, same_owner, anchor_ready, mark_anchor_ready, cancel_pending,
  flush_pending,
}
use typiod_wayland.Panel.Indicator.{fit, show_indicator}
use typiod_wayland.InputMethod.{
  InputMethod, ImWorld, frontend_of, on_panel, on_frontend, flush_scheduled_ui_update,
}
use typiod_wayland.Watchdog.{Watchdog, LoopStage, heartbeat, set_stage, stage_done}

-- `TypioWlPositionedUiPlan`
pub data PositionedUiPlan : Type 0 where
  plan_wait : PositionedUiPlan
  plan_show : PositionedUiPlan
  plan_cancel : PositionedUiPlan

abbrev pub is_show : PositionedUiPlan → Bool
is_show plan_show = true
is_show _ = false

abbrev pub is_cancel : PositionedUiPlan → Bool
is_cancel plan_cancel = true
is_cancel _ = false

-- `typio_wl_positioned_ui_plan`
unfoldable pub positioned_ui_plan : Bool → Bool → ℕ → ℕ → ℕ → PositionedUiPlan
positioned_ui_plan pending ready since now timeout =
    let elapsed = if ltb 0 since && leb since now then now - since else 0 in
    if not pending
    then plan_wait
    else if ready
    then plan_show
    else if ltb 0 since && leb timeout elapsed
    then plan_cancel
    else plan_wait

-- `typio_wl_panel_coordinator_anchor_timeout_ms` of the configured value; a negative one is 0.
unfoldable pub anchor_timeout_ms : ℕ → ℕ
anchor_timeout_ms ms = if ltb ms 50 then 50 else if ltb 1000 ms then 1000 else ms

pub record Loop : Type 0 where
  pub im : InputMethod
  pub watchdog : Watchdog

-- What a round meets; its clock is that of the panel's world.
pub record LoopWorld : Type 0 where
  pub im_world : ImWorld
  pub probe_timeout_ms : ℕ

abbrev pub panel_world_of : LoopWorld → PanelWorld
panel_world_of w = w.im_world.indicator_world.panel_world

unfoldable pub poll_timeout_min : Option ℕ → Option ℕ → Option ℕ
poll_timeout_min current none = current
poll_timeout_min none (some ms) = some ms
poll_timeout_min (some t) (some ms) = if ltb ms t then some ms else some t

module _ (w : LoopWorld) where
  abbrev pub panel_flushable : InputMethod → Bool
  panel_flushable im =
      let f = frontend_of im in
      should_flush im.schedule f.session (f.session && f.ctx)
        (f.session && f.ctx && (panel_world_of w).focused f.out)

  -- The deadline of the positioned status.
  abbrev pub anchor_deadline_ms : InputMethod → ℕ
  anchor_deadline_ms im =
      u64
        (im.shown.panel.coord.positioned_ui_pending_since_ms + anchor_timeout_ms w.probe_timeout_ms)

  -- The timeout that `event_loop_poll` gives to poll.
  unfoldable pub poll_timeout : InputMethod → Option ℕ
  poll_timeout im =
      let vk = (frontend_of im).vk in
      let now = (panel_world_of w).now in
      let deadline = anchor_deadline_ms im in
      let retry = poll_timeout_ms im.schedule (panel_flushable im) none in
      let anchored =
        if im.shown.panel.coord.positioned_ui_pending && not (anchor_ready im.shown.panel)
        then poll_timeout_min retry (if ltb now deadline then to_int (deadline - now) else some 0)
        else retry in
      if is_vk_needs_keymap vk.state && ltb 0 vk.keymap_deadline_ms
      then poll_timeout_min anchored
          (if leb vk.keymap_deadline_ms now then some 0 else to_int (vk.keymap_deadline_ms - now))
      else anchored

  -- The pending status is shown again by its owner.
  abbrev pub show_pending : InputMethod → InputMethod
  show_pending im =
      let c = im.shown.panel.coord in
      let cancelled = on_panel cancel_pending im in
      if same_owner c.positioned_ui_pending_owner owner_indicator
      then record cancelled {
        shown =
            show_indicator w.im_world.indicator_world (fit 256 c.positioned_ui_pending_label)
              cancelled.shown;
      }
      else on_panel (flush_pending (panel_world_of w)) im

  -- What follows from the plan, for a status that waits.
  unfoldable pub carry_out : PositionedUiPlan → InputMethod → InputMethod
  carry_out plan im =
      let c = im.shown.panel.coord in
      let caret_fallback =
        is_cancel plan
        && (c.position_anchor_has_caret
            || same_owner c.positioned_ui_pending_owner owner_indicator) in
      if is_show plan || caret_fallback
      then show_pending (if caret_fallback then on_panel mark_anchor_ready im else im)
      else if is_cancel plan
      then on_panel cancel_pending im
      else im

  -- The half of `event_loop_flush_pending_panel` on the positioned status.
  unfoldable pub resolve_positioned : InputMethod → InputMethod
  resolve_positioned im =
      let c = im.shown.panel.coord in
      if not c.positioned_ui_pending
      then im
      else carry_out
          (positioned_ui_plan c.positioned_ui_pending (anchor_ready im.shown.panel)
            c.positioned_ui_pending_since_ms (panel_world_of w).now
            (anchor_timeout_ms w.probe_timeout_ms))
          im

  -- `event_loop_flush_pending_panel`, with the preedit of the context.
  unfoldable pub flush_pending_panel : Option Preedit.Preedit → Loop → Loop
  flush_pending_panel preedit l =
      let now = (panel_world_of w).now in
      let im = resolve_positioned l.im in
      let f = frontend_of im in
      if not (frontend_of l.im).session
      then l
      else if not (should_flush im.schedule true f.ctx (f.ctx && (panel_world_of w).focused f.out))
      then record l { im = im }
      else record {
        im = flush_scheduled_ui_update w.im_world preedit im;
        watchdog = stage_done now now (set_stage LoopStage.panel_update now l.watchdog);
      }

  abbrev pub check_health : Loop → Loop
  check_health l = record l { im = on_frontend (vk_health_check (panel_world_of w).now) l.im }

  -- The rest of a round whose poll times out.
  unfoldable pub timed_out : Loop → Loop
  timed_out l =
      let l1 = check_health l in
      record l1 { watchdog = heartbeat (panel_world_of w).now l1.watchdog }

  -- The end of a round that dispatched events.
  unfoldable pub end_round : Option Preedit.Preedit → Loop → Loop
  end_round preedit l =
      let l1 = check_health l in
      let l2 = flush_pending_panel preedit l1 in
      if not (frontend_of l1.im).running
      then l1
      else record l2 { watchdog = heartbeat (panel_world_of w).now l2.watchdog }

-- Rounds in a row whose polls time out, as long as the loop runs.
abbrev pub timed_out_rounds : List LoopWorld → Loop → Loop
timed_out_rounds [] l = l
timed_out_rounds (w ∷ ws) l =
    timed_out_rounds ws (if (frontend_of l.im).running then timed_out w l else l)
