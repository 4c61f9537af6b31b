-- ===== src/InputMethod.antt =====
-- The input method and its session (src/wayland/input_method.c, src/ui/state.c): the handlers that
-- record the compositor's facts until `done`, the callbacks of the input context, and the update of
-- the preedit and the panel. A text is its bytes; a cursor is none where it is -1.
pub mod Session
pub mod Snapshot
pub mod Batch
pub mod Events
pub mod Commits
pub mod Runs
pub mod Seen
pub mod Synced
pub mod Guard
pub mod Examples
unfoldable pub use Session.*
use typiod_wayland.Prelude.{
  ℕ, ◌+◌, Bool, true, false, not, ◌&&◌, ◌||◌, List, [], ◌∷◌, Option, none, some, u32, ltb, ◌==◌,
  if◌then◌else◌, length,
}
use typiod_wayland.Engine.Focus.{InputFacts}
use typiod_wayland.Text.Bytes.{same_text, is_empty, text_or_empty}
use typiod_wayland.Text.Preedit
use typiod_wayland.Keyboard.State.{
  Frontend, call, frontend_stop, set_preedit_string, commit_string, delete_surrounding,
  set_surrounding, notify_keyboard_commit, context_focus_out, context_destroy,
}
use typiod_wayland.Keyboard.Lifecycle.{clear_preedit, wl_commit}
use typiod_wayland.Panel.Scheduler.{
  PanelScheduleState, PanelUpdateResult, update_ok, mark_dirty, complete, cancel,
}
use typiod_wayland.Panel.Coordinator.{
  PanelFrontend, owner_candidate, hide, show_candidates, mark_anchor_ready,
}
use typiod_wayland.Panel.Indicator.{IndicatorWorld, Shown, hide_indicator}
use typiod_wayland.InputMethod.Snapshot.{CandidateList, Composition, cleared, assign}

abbrev pub is_ok : PanelUpdateResult → Bool
is_ok update_ok = true
is_ok _ = false

abbrev with_session : (InputMethod → InputMethod) → InputMethod → InputMethod
with_session step im = if (frontend_of im).session then step im else im

unfoldable pub im_handle_deactivate : InputMethod → InputMethod
im_handle_deactivate im =
    with_session (on_pending (λ p. record p { active = false }))
      (record im { facts = record im.facts { im_deactivate_seen = true } })

unfoldable pub im_handle_text_change_cause : ℕ → InputMethod → InputMethod
im_handle_text_change_cause cause im =
    with_session (on_pending (λ p. record p { text_change_cause = cause })) im

unfoldable pub im_handle_content_type : ℕ → ℕ → InputMethod → InputMethod
im_handle_content_type hint purpose im =
    with_session
      (on_pending
        (λ p. record p { text = record p.text { content_hint = hint; content_purpose = purpose } }))
      im

abbrev batch_facts : InputFacts → InputFacts
batch_facts facts = record facts {
  im_done_had_activate = facts.im_activate_seen;
  im_done_had_deactivate = facts.im_deactivate_seen;
  im_activate_seen = false;
  im_deactivate_seen = false;
}

unfoldable pub im_handle_done : InputMethod → InputMethod
im_handle_done im =
    with_session (λ im1. session_apply_pending (record im1 { facts = batch_facts im1.facts }))
      (on_frontend (λ f. record f { im_serial = u32 (f.im_serial + 1) }) im)

unfoldable pub im_handle_unavailable : InputMethod → InputMethod
im_handle_unavailable im = on_frontend frontend_stop im

-- `on_delete_surrounding_callback`
unfoldable pub on_delete_surrounding : ℕ → ℕ → InputMethod → InputMethod
on_delete_surrounding before after im =
    if before == 0 && after == 0
    then im
    else on_frontend (λ f. wl_commit (wl_delete_surrounding before after f)) im

module _ (w : ImWorld) where
  -- A session is there, or is made, unless there is no memory for it.
  abbrev ensure_session : InputMethod → InputMethod
  ensure_session im =
      if (frontend_of im).session || not w.session_had
      then im
      else on_session (λ s. new_session)
          (on_frontend (λ f. record f { session = true; ctx = true }) im)

  abbrev activated : InputMethod → InputMethod
  activated im =
      let hidden = record im { shown = hide_indicator w.indicator_world im.shown } in
      let seen = record hidden { facts = record im.facts { im_activate_seen = true } } in
      on_pending (λ p. record p { active = true }) (session_reset seen)

  unfoldable pub im_handle_activate : InputMethod → InputMethod
  im_handle_activate im =
      let im1 = ensure_session im in if (frontend_of im1).session then activated im1 else im1

  unfoldable pub im_handle_surrounding_text : Option (List ℕ) → ℕ → ℕ → InputMethod → InputMethod
  im_handle_surrounding_text text cursor anchor im =
      with_session
        (on_pending (λ p. record p {
          text = record p.text {
            surrounding_text = kept_text w text;
            cursor = cursor;
            anchor = anchor;
          };
        }))
        im

  -- `on_commit_callback`
  unfoldable pub on_commit : List ℕ → InputMethod → InputMethod
  on_commit text im =
      let hidden =
        on_panel (hide w.indicator_world.panel_world owner_candidate)
          (on_frontend clear_preedit im) in
      let told =
        on_frontend (λ f. wl_commit (wl_commit_string text f))
          (on_session session_clear_candidate_state hidden) in
      if is_empty text
      then im
      else on_frontend (call notify_keyboard_commit) (cancel_ui_tracking told)

  abbrev take_composition : Option Composition → TextSession → TextSession
  take_composition none s = session_clear_candidate_state s
  take_composition (some c) s = record s {
    last_candidate_count = length c.list.candidates;
    last_candidate_selected = c.list.selected;
    last_host_managed_selection = c.host_managed_selection;
    candidate_snapshot = assign w.copied w.items s.candidate_snapshot (some c);
  }

  -- `on_composition_callback`
  unfoldable pub on_composition : Option Composition → InputMethod → InputMethod
  on_composition c im = request_ui_update (on_session (take_composition c) im)

  -- The panel's half of `update_wayland_text_ui`.
  unfoldable pub refresh_panel : InputMethod → InputMethod
  refresh_panel im =
      let count = length im.session.candidate_snapshot.candidates in
      let (p, result) =
        show_candidates w.indicator_world.panel_world
          (record im.shown.panel { candidate_count = count }) in
      record (on_panel (λ _. if is_ok result && ltb 0 count then mark_anchor_ready p else p) im) {
        schedule = complete result;
      }

  -- The preedit's half, for the plain text and the cursor of the context's preedit.
  unfoldable pub sync_preedit : Option (List ℕ) → Option ℕ → InputMethod → InputMethod
  sync_preedit plain cursor im =
      let s = im.session in
      let changed =
        preedit_changed s.last_preedit_text s.last_preedit_cursor (text_or_empty plain) cursor in
      on_session
        (λ s1. record s1 { last_preedit_text = kept_text w plain; last_preedit_cursor = cursor })
        (if changed then on_frontend (λ f. wl_commit (send_preedit plain cursor f)) im else im)

  -- `typio_wl_session_flush_scheduled_ui_update`, with the preedit of the context.
  unfoldable pub flush_scheduled_ui_update : Option Preedit.Preedit → InputMethod → InputMethod
  flush_scheduled_ui_update preedit im =
      let (plain, cursor) = Preedit.build_plain_preedit w.resized preedit in
      if (frontend_of im).session && (frontend_of im).ctx
      then sync_preedit plain cursor (refresh_panel im)
      else im
