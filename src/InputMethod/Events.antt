-- ===== src/InputMethod/Events.antt =====
-- The events that reach the input method, in the order of a run.
use typiod_wayland.Prelude.{ℕ, ◌+◌, List, [], ◌∷◌, Option}
use typiod_wayland.Text.Preedit
use typiod_wayland.InputMethod.Snapshot.{Composition}
use typiod_wayland.InputMethod.{
  InputMethod, ImWorld, im_handle_activate, im_handle_deactivate, im_handle_surrounding_text,
  im_handle_text_change_cause, im_handle_content_type, im_handle_done, im_handle_unavailable,
  on_commit, on_delete_surrounding, on_composition, flush_scheduled_ui_update,
}

-- An event of the compositor, of the input context or of the loop, with what it meets.
pub data Event : Type 0 where
  activate : ImWorld → Event
  deactivate : Event
  surrounding : ImWorld → Option (List ℕ) → ℕ → ℕ → Event
  change_cause : ℕ → Event
  content_type : ℕ → ℕ → Event
  done : Event
  unavailable : Event
  commit : ImWorld → List ℕ → Event
  delete : ℕ → ℕ → Event
  composition : ImWorld → Option Composition → Event
  flush : ImWorld → Option Preedit.Preedit → Event

abbrev pub step : InputMethod → Event → InputMethod
step im (Event.activate w) = im_handle_activate w im
step im Event.deactivate = im_handle_deactivate im
step im (Event.surrounding w text cursor anchor) =
    im_handle_surrounding_text w text cursor anchor im
step im (Event.change_cause cause) = im_handle_text_change_cause cause im
step im (Event.content_type hint purpose) = im_handle_content_type hint purpose im
step im Event.done = im_handle_done im
step im Event.unavailable = im_handle_unavailable im
step im (Event.commit w text) = on_commit w text im
step im (Event.delete before after) = on_delete_surrounding before after im
step im (Event.composition w c) = on_composition w c im
step im (Event.flush w preedit) = flush_scheduled_ui_update w preedit im

-- The number of `done` events so far.
abbrev pub count_done : Event → ℕ → ℕ
count_done Event.done n = n + 1
count_done _ n = n

abbrev pub run : InputMethod → List Event → InputMethod
run im [] = im
run im (ev ∷ evs) = run (step im ev) evs
