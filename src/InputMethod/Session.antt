-- ===== src/InputMethod/Session.antt =====
-- The session of the input method and its requests (src/wayland/input_method.c), with what the
-- application was told of the preedit (src/ui/state.c).
use typiod_wayland.Prelude.{
  ℕ, Bool, true, false, not, ◌&&◌, ◌||◌, List, Option, none, some, ◌==◌, if◌then◌else◌,
}
use typiod_wayland.Engine.Focus.{InputFacts}
use typiod_wayland.Text.Bytes.{same_text, text_or_empty}
use typiod_wayland.Keyboard.State.{
  Frontend, call, set_preedit_string, commit_string, delete_surrounding, set_surrounding,
  context_focus_out, context_destroy,
}
use typiod_wayland.Keyboard.Lifecycle.{clear_preedit}
use typiod_wayland.Panel.Scheduler.{PanelScheduleState, mark_dirty, cancel}
use typiod_wayland.Panel.Coordinator.{PanelFrontend}
use typiod_wayland.Panel.Indicator.{IndicatorWorld, Shown}
use typiod_wayland.InputMethod.Snapshot.{CandidateList, cleared}

-- What `done` applies. `TypioWlSession` has it twice, as `pending` and as `current`.
pub record TextState : Type 0 where
  pub surrounding_text : Option (List ℕ)
  pub cursor : ℕ
  pub anchor : ℕ
  pub content_hint : ℕ
  pub content_purpose : ℕ

pub record Pending : Type 0 where
  pub text : TextState
  pub text_change_cause : ℕ
  pub active : Bool

-- `TypioWlSession`; the input context is the frontend's `ctx`.
pub record TextSession : Type 0 where
  pub pending : Pending
  pub current : TextState
  pub last_preedit_text : Option (List ℕ)
  pub last_preedit_cursor : Option ℕ
  pub last_candidate_count : ℕ
  pub last_candidate_selected : Option ℕ
  pub last_host_managed_selection : ℕ
  pub candidate_snapshot : CandidateList

-- The frontend with what its input method uses; the session's content is read where the frontend
-- has a session.
pub record InputMethod : Type 0 where
  pub shown : Shown
  pub schedule : PanelScheduleState
  pub facts : InputFacts
  pub session : TextSession

-- What an operation meets: whether a session and its context are had, whether the candidates' array
-- is, whether a text is copied, and whether realloc succeeds.
pub record ImWorld : Type 0 where
  pub indicator_world : IndicatorWorld
  pub session_had : Bool
  pub items : Bool
  pub copied : List ℕ → Bool
  pub resized : ℕ → Bool

abbrev pub frontend_of : InputMethod → Frontend
frontend_of im = im.shown.panel.frontend

abbrev pub on_panel : (PanelFrontend → PanelFrontend) → InputMethod → InputMethod
on_panel step im = record im { shown = record im.shown { panel = step im.shown.panel } }

abbrev pub on_frontend : (Frontend → Frontend) → InputMethod → InputMethod
on_frontend step im = on_panel (λ p. record p { frontend = step p.frontend }) im

abbrev pub on_session : (TextSession → TextSession) → InputMethod → InputMethod
on_session step im = record im { session = step im.session }

abbrev pub on_pending : (Pending → Pending) → InputMethod → InputMethod
on_pending step im = on_session (λ s. record s { pending = step s.pending }) im

abbrev pub no_text : TextState
no_text = record {
  surrounding_text = none;
  cursor = 0;
  anchor = 0;
  content_hint = 0;
  content_purpose = 0;
}

-- The zeroed session of `typio_wl_session_create`.
abbrev pub new_session : TextSession
new_session = record {
  pending = record { text = no_text; text_change_cause = 0; active = false };
  current = no_text;
  last_preedit_text = none;
  last_preedit_cursor = some 0;
  last_candidate_count = 0;
  last_candidate_selected = some 0;
  last_host_managed_selection = 0;
  candidate_snapshot = record cleared { selected = some 0 };
}

-- `typio_wl_text_ui_reset_tracking`
abbrev pub reset_tracking : TextSession → TextSession
reset_tracking s = record s { last_preedit_text = none; last_preedit_cursor = none }

-- `typio_wl_session_cancel_ui_tracking`
unfoldable pub cancel_ui_tracking : InputMethod → InputMethod
cancel_ui_tracking im = on_session reset_tracking (record im { schedule = cancel })

-- `typio_wl_session_request_ui_update`
unfoldable pub request_ui_update : InputMethod → InputMethod
request_ui_update im = record im { schedule = mark_dirty im.schedule }

abbrev pub no_pending : Pending
no_pending = record { text = no_text; text_change_cause = 0; active = false }

-- `typio_wl_session_reset`
unfoldable pub session_reset : InputMethod → InputMethod
session_reset im = on_pending (λ p. no_pending) (cancel_ui_tracking im)

-- The casts of the cursor and the anchor to int keep their 32 bits.
abbrev pub tell_surrounding : TextState → Frontend → Frontend
tell_surrounding t f = elim t.surrounding_text [
  | none ↦ f
  | some text ↦ if f.ctx then call (set_surrounding text t.cursor t.anchor) f else f
]

-- `typio_wl_session_apply_pending`
unfoldable pub session_apply_pending : InputMethod → InputMethod
session_apply_pending im =
    let t = im.session.pending.text in
    on_frontend (tell_surrounding t) (
      on_session
        (λ s. record s {
          current = t;
          pending = record s.pending { text = record t { surrounding_text = none } };
        })
        im)

abbrev pub session_clear_candidate_state : TextSession → TextSession
session_clear_candidate_state s = record s {
  last_candidate_count = 0;
  last_candidate_selected = none;
  last_host_managed_selection = 0;
  candidate_snapshot = cleared;
}

-- `typio_wl_session_destroy`, and the pointer that its caller clears.
unfoldable pub session_destroy : InputMethod → InputMethod
session_destroy im =
    on_frontend
      (λ f.
        record (if f.session && f.ctx then call context_destroy (call context_focus_out f) else f) {
          session = false;
          ctx = false;
        })
      im

-- `typio_wl_commit_string`
unfoldable pub wl_commit_string : List ℕ → Frontend → Frontend
wl_commit_string text f = if f.input_method then call (commit_string text) f else f

-- `typio_wl_delete_surrounding`
unfoldable pub wl_delete_surrounding : ℕ → ℕ → Frontend → Frontend
wl_delete_surrounding before after f =
    if not f.input_method || before == 0 && after == 0
    then f
    else call (delete_surrounding before after) f

-- `typio_wl_set_preedit` with a text
unfoldable pub wl_set_preedit : List ℕ → Option ℕ → Frontend → Frontend
wl_set_preedit text cursor f = if f.input_method then call (set_preedit_string text cursor) f else f

-- `typio_wl_text_ui_plan_update`, by whether the preedit is to be sent.
abbrev pub same_cursor : Option ℕ → Option ℕ → Bool
same_cursor none none = true
same_cursor (some a) (some b) = a == b
same_cursor none (some b) = false
same_cursor (some a) none = false

unfoldable pub preedit_changed : Option (List ℕ) → Option ℕ → List ℕ → Option ℕ → Bool
preedit_changed last_text last_cursor text cursor =
    not (same_cursor last_cursor cursor) || not (same_text (text_or_empty last_text) text)

abbrev pub send_preedit : Option (List ℕ) → Option ℕ → Frontend → Frontend
send_preedit none cursor f = clear_preedit f
send_preedit (some text) cursor f = wl_set_preedit text cursor f

abbrev pub kept_text : ImWorld → Option (List ℕ) → Option (List ℕ)
kept_text w none = none
kept_text w (some text) = if w.copied text then some text else none
