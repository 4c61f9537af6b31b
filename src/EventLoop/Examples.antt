-- ===== src/EventLoop/Examples.antt =====
-- The event loop at concrete states.
use typiod_wayland.Prelude.{◌≡◌, refl, true, false, [], ◌∷◌, none, some, arith}
use typiod_wayland.Text.Bytes.{codes}
use typiod_wayland.Panel.Coordinator.{owner_indicator, anchor_ready}
use typiod_wayland.Panel.Examples.{world, waiting}
use typiod_wayland.Panel.Indicator.Examples.{rime}
use typiod_wayland.InputMethod.Examples.{well, focused, two, typed}
use typiod_wayland.Watchdog.{started}
use typiod_wayland.Engine.Focus.{DesiredState, GrabWant, want_none, want_yes, wanted, reduce, diff}
use typiod_wayland.Text.Bytes.{text_or_empty}
use typiod_wayland.Text.Preedit
use typiod_wayland.Keyboard.Lifecycle.{
  made, observe, wl_commit, clear_preedit, apply_scrub, apply_create, keyboard_create,
  enter_generation, keyboard_tracking_reset, guard_reset,
}
use typiod_wayland.Keyboard.Bridge.{vk_expect_keymap, vk_set_state}
use typiod_wayland.Panel.Scheduler.{cancel}
use typiod_wayland.Panel.Coordinator.{reset_anchor, maybe_probe_position_anchor}
use typiod_wayland.InputMethod.{
  InputMethod, frontend_of, flush_scheduled_ui_update, on_composition, request_ui_update,
}
use typiod_wayland.InputMethod.Events.{Event, run}
use typiod_wayland.InputMethod.Seen.{seen, shows}
use typiod_wayland.InputMethod.Synced.{tracked}
use typiod_wayland.EventLoop.Pipeline.{
  TickWorld, apply_effects, focus_in, run_focus_controller_pipeline,
}
use typiod_wayland.EventLoop.Pipeline.Ticks.{run_focus_controller_pipeline-shows}
use typiod_wayland.EventLoop.Pipeline.Leaving.{run_focus_controller_pipeline-cancel}
use typiod_wayland.EventLoop.{
  Loop, LoopWorld, anchor_timeout_ms, poll_timeout, timed_out_rounds, flush_pending_panel,
}
use typiod_wayland.EventLoop.Deadline.{IsResolved, flush_pending_panel-IsResolved}
use typiod_wayland.EventLoop.Starved.{timed_out_rounds-poll_timeout}

-- 250 ms after the clock's start, with the default timeout.
abbrev late : LoopWorld
late = record {
  im_world = record well {
    indicator_world = record rime { panel_world = record world { now = 250 } };
  };
  probe_timeout_ms = 150;
}

-- A status that waits since 70 ms.
abbrev queued : Loop
queued = record {
  im = record focused {
    shown = record focused.shown {
      panel = record waiting {
        coord = record waiting.coord {
          positioned_ui_pending = true;
          positioned_ui_pending_owner = owner_indicator;
          positioned_ui_pending_since_ms = 70;
          positioned_ui_pending_label = codes "EN";
        };
      };
    };
  };
  watchdog = started;
}

timed_out_rounds-poll_timeout_example :
    let l2 = timed_out_rounds (late ∷ late ∷ []) queued in
    (poll_timeout late l2.im ≡ some 0)
    × (l2.im.shown.panel.coord ≡ queued.im.shown.panel.coord)
    × (l2.im.shown.panel.drawn ≡ queued.im.shown.panel.drawn)
    × (l2.im.schedule ≡ queued.im.schedule)
unfolding anchor_ready anchor_timeout_ms
timed_out_rounds-poll_timeout_example =
    timed_out_rounds-poll_timeout (late ∷ late ∷ []) late queued refl refl (omega arith)

flush_pending_panel-IsResolved_example :
    IsResolved (flush_pending_panel late none queued).im.shown.panel
unfolding anchor_timeout_ms
flush_pending_panel-IsResolved_example =
    flush_pending_panel-IsResolved late none queued refl refl (omega arith) (omega arith)

-- A tick of the same time, with an active engine.
abbrev tick : TickWorld
tick = record {
  im_world = well;
  reset_tells = none ∷ [];
  focus_tells = some two ∷ [];
  creation = made true;
  last_mode = none;
  engine_present = true;
}

abbrev wished : GrabWant → DesiredState
wished g = record { grab = g; focus_in = false; focus_out = false; reactivate = false }

abbrev arriving : InputMethod
arriving = record focused { facts = record focused.facts { im_activate_seen = true } }

run_focus_controller_pipeline-shows_example :
    let last =
      run
        (run_focus_controller_pipeline tick (wished want_none) arriving).0
        (Event.composition well (some two) ∷ []) in
    let (plain, cursor) = Preedit.build_plain_preedit well.resized typed in
    shows ([], none) (frontend_of (flush_scheduled_ui_update well typed last)).out
    ≡ seen (text_or_empty plain) cursor
unfolding run_focus_controller_pipeline apply_effects reduce wanted diff observe focus_in
    reset_anchor maybe_probe_position_anchor on_composition request_ui_update wl_commit
    clear_preedit apply_scrub apply_create keyboard_create enter_generation keyboard_tracking_reset
    guard_reset vk_expect_keymap vk_set_state
run_focus_controller_pipeline-shows_example =
    run_focus_controller_pipeline-shows ([], none) tick (wished want_none) arriving
      (Event.composition well (some two) ∷ []) well typed
      (record { method = refl; session = refl; serial = refl; state = refl }) refl (λ _. refl)
      (λ _. refl) (tt, tt) (omega arith) (λ text. refl) refl

-- The field is left while a preedit is shown.
abbrev left : InputMethod
left = record focused {
  facts = record focused.facts { im_deactivate_seen = true };
  session = record focused.session {
    last_preedit_text = some (codes "ni");
    last_preedit_cursor = some 2;
  };
}

run_focus_controller_pipeline-cancel_example :
    let after = (run_focus_controller_pipeline tick (wished want_yes) left).0 in
    (shows (codes "ni", some 2) (frontend_of after).out ≡ ([], none))
    × (tracked after.session ≡ ([], none))
    × (after.schedule ≡ cancel)
unfolding run_focus_controller_pipeline reduce wanted
run_focus_controller_pipeline-cancel_example =
    run_focus_controller_pipeline-cancel (codes "ni", some 2) tick (wished want_yes) left refl refl
      refl refl refl
