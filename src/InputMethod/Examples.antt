-- ===== src/InputMethod/Examples.antt =====
-- The input method at concrete states.
use typiod_wayland.Prelude.{
  ◌<◌, ◌≡◌, refl, true, false, List, [], ◌∷◌, ◌++◌, Option, none, some, length, arith,
}
use typiod_wayland.Engine.Focus.{DesiredState, want_yes, reduce}
use typiod_wayland.Text.Bytes.{codes, text_or_empty}
use typiod_wayland.Text.Preedit
use typiod_wayland.Keyboard.State.{set_preedit, commit_string, im_commit, notify_keyboard_commit}
use typiod_wayland.Keyboard.Selection.{should_consume}
use typiod_wayland.Keyboard.Router.Examples.{silent_host}
use typiod_wayland.Panel.Scheduler.{schedule_idle, cancel}
use typiod_wayland.Keyboard.Lifecycle.{clear_preedit, wl_commit}
use typiod_wayland.Panel.Coordinator.{
  show_candidates, hide, cancel_pending, mark_anchor_ready, anchor_ready,
}
use typiod_wayland.Panel.Examples.{waiting}
use typiod_wayland.Panel.Indicator.{init_indicator}
use typiod_wayland.Panel.Indicator.Examples.{rime}
use typiod_wayland.InputMethod.{
  InputMethod, ImWorld, frontend_of, new_session, im_handle_done, on_commit, on_composition,
  flush_scheduled_ui_update, sync_preedit, refresh_panel, wl_set_preedit, wl_commit_string,
  cancel_ui_tracking, session_apply_pending, preedit_changed, request_ui_update,
}
use typiod_wayland.InputMethod.Snapshot.{
  Composition, cleared, assign, equal_content, ShowsSame, assign-ShowsSame,
}
use typiod_wayland.InputMethod.Events.{Event, run}
use typiod_wayland.InputMethod.Runs.{Stamped, run-Stamped}
use typiod_wayland.InputMethod.Seen.{seen, shows}
use typiod_wayland.InputMethod.Synced.Runs.{flush-shows}
use typiod_wayland.InputMethod.Guard.{on_commit-should_consume}
use typiod_wayland.InputMethod.Batch.{batch_text, told, quiet_facts, done-batch, reduce-done}

abbrev pub well : ImWorld
well = record {
  indicator_world = rime;
  session_had = true;
  items = true;
  copied = λ text. true;
  resized = λ n. true;
}

abbrev pub focused : InputMethod
focused = record {
  shown = record { panel = waiting; indicator = init_indicator true };
  schedule = schedule_idle;
  facts = quiet_facts true;
  session = record new_session { last_preedit_cursor = none };
}

abbrev pub two : Composition
two = record {
  list = record cleared {
    candidates =
        record { text = some (codes "a"); comment = none; label = none }
        ∷ record { text = some (codes "b"); comment = none; label = some (codes "2") }
        ∷ [];
    selected = some 1;
    total = 2;
  };
  host_managed_selection = 1;
}

abbrev pub typed : Option Preedit.Preedit
typed = some (record { segments = some (codes "ni") ∷ []; cursor_pos = some 2 })

abbrev typing : List Event
typing =
    Event.composition well (some two)
    ∷ Event.flush well typed
    ∷ Event.commit well (codes "b")
    ∷ Event.done
    ∷ []

run-Stamped_example : Stamped 1 focused typing
run-Stamped_example = run-Stamped 1 focused typing refl (omega arith)

flush-shows_example :
    let (plain, cursor) = Preedit.build_plain_preedit well.resized typed in
    shows ([], none) (frontend_of (flush_scheduled_ui_update well typed (run focused typing))).out
    ≡ seen (text_or_empty plain) cursor
unfolding on_composition flush_scheduled_ui_update on_commit im_handle_done sync_preedit
    refresh_panel show_candidates hide cancel_pending mark_anchor_ready anchor_ready clear_preedit
    wl_commit wl_set_preedit wl_commit_string cancel_ui_tracking session_apply_pending
    Preedit.build_plain_preedit Preedit.append_segments Preedit.append_text preedit_changed assign
    equal_content request_ui_update
flush-shows_example =
    flush-shows ([], none) focused typing well typed
      (record { method = refl; session = refl; serial = refl; state = refl })
      (tt, ((λ text. refl), (tt, (tt, tt)))) (omega arith) (λ text. refl) refl

on_commit-should_consume_example :
    let after = on_commit well (codes "b") focused in
    ((frontend_of after).out
      ≡ (frontend_of focused).out
        ++ set_preedit ∷ commit_string (codes "b") ∷ im_commit 1 ∷ notify_keyboard_commit ∷ [])
    × (should_consume silent_host.selection_keys silent_host.selection_flags
          after.session.last_candidate_count after.session.last_host_managed_selection 65361
        ≡ false)
    × (after.session.candidate_snapshot ≡ cleared)
    × (after.schedule ≡ cancel)
on_commit-should_consume_example =
    on_commit-should_consume well (codes "b") focused silent_host.selection_keys
      silent_host.selection_flags 65361 refl refl refl refl

abbrev describing : List Event
describing =
    Event.surrounding well (some (codes "one")) 1 1
    ∷ Event.content_type 4 2
    ∷ Event.surrounding well (some (codes "two")) 3 0
    ∷ []

done-batch_example :
    let b = run focused describing in
    let t = batch_text focused.session.pending.text describing in
    ((frontend_of b).out ≡ (frontend_of focused).out)
    × (b.session.current ≡ focused.session.current)
    × ((im_handle_done b).session.current ≡ t)
    × ((im_handle_done b).session.pending.text.surrounding_text ≡ none)
    × ((frontend_of (im_handle_done b)).out ≡ (frontend_of focused).out ++ told t true)
done-batch_example = done-batch focused describing refl (tt, (tt, (tt, tt)))

abbrev grabbing : DesiredState
grabbing = record { grab = want_yes; focus_in = false; focus_out = false; reactivate = false }

reduce-done_example :
    reduce (im_handle_done (run focused describing)).facts grabbing
    ≡ record { grab = want_yes; focus_in = false; focus_out = false; reactivate = false }
reduce-done_example = reduce-done focused describing true grabbing refl (tt, (tt, (tt, tt))) refl

assign-ShowsSame_example :
    (0 < 2 → ShowsSame (assign (λ text. true) true cleared (some two)) two.list)
    × (length two.list.candidates ≡ 0 → assign (λ text. true) true cleared (some two) ≡ cleared)
    × (assign (λ text. true) true cleared none ≡ cleared)
assign-ShowsSame_example = assign-ShowsSame (λ text. true) cleared two (λ text. refl)
