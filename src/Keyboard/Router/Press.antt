-- ===== src/Keyboard/Router/Press.antt =====
-- The routing of key presses (src/wayland/keyboard/router.c).
use typiod_wayland.Prelude.{
  ℕ, Bool, true, false, not, ◌&&◌, ◌||◌, List, [], Option, none, some, bit_and, ◌==◌, if◌then◌else◌,
}
use typiod_wayland.Text.Preedit.{build_plain_preedit}
use typiod_wayland.Keyboard.State.{
  Keyboard, ArbiterEvent, TrackState, idle, forwarded, app_shortcut, released_pending,
  suppressed_startup, engine_not_ready, voice_ptt, voice_ptt_unavail, call, frontend_stop,
  request_ui_update, voice_start, show_voice_status,
}
use typiod_wayland.Keyboard.Tracker.{get_state, claim_current_generation}
use typiod_wayland.Keyboard.Bridge.{release_grab}
use typiod_wayland.Keyboard.Selection.{
  HostSelKey, HostSelCategory, category_navigate, category_commit, category_commit_raw,
  category_index_pick, category_none, host_selection_keysym, host_selection_category,
  host_selection_resolve, should_consume,
}
use typiod_wayland.Keyboard.Router.{
  Binding, ShortcutConfig, ReservedAction, reserved_none, reserved_emergency_exit,
  reserved_voice_ptt, action_consume, action_forward, KeyReason, reason_none, reason_typio_reserved,
  reason_application_shortcut, reason_engine_handled, reason_engine_unhandled,
  reason_engine_not_ready, reason_modifier_passthrough, reason_candidate_navigation,
  reason_startup_suppressed, reason_released_pending, reason_latched_app_shortcut,
  reason_latched_forwarded, reason_voice_ptt, reason_voice_ptt_unavailable, KeyDecision, KeyEvent,
  Availability, engine_failed, is_ready, Session, Host, Route, on_frontend, decide, track, forward,
  holds_blocking,
}

unfoldable pub binding_matches_press : Binding → ℕ → ℕ → Bool
binding_matches_press binding keysym modifiers =
    if binding.keysym == 0
    then false
    else (keysym == binding.keysym) && (bit_and modifiers binding.modifiers == binding.modifiers)

unfoldable pub reserved_action : ShortcutConfig → ℕ → ℕ → ReservedAction
reserved_action shortcuts keysym modifiers =
    if binding_matches_press shortcuts.emergency_exit keysym modifiers
    then reserved_emergency_exit
    else if binding_matches_press shortcuts.voice_ptt keysym modifiers
    then reserved_voice_ptt
    else reserved_none

module _ {Context : Type 0} (host : Host Context) where
  abbrev is_modifier_keysym : ℕ → Bool
  is_modifier_keysym keysym =
      let sym = host.symbols in
      keysym == sym.shift_l
      || keysym == sym.shift_r
      || keysym == sym.control_l
      || keysym == sym.control_r
      || keysym == sym.alt_l
      || keysym == sym.alt_r
      || keysym == sym.super_l
      || keysym == sym.super_r

  unfoldable pub is_app_shortcut : ℕ → ℕ → Bool
  is_app_shortcut keysym modifiers =
      if not (holds_blocking host modifiers) then false else not (is_modifier_keysym keysym)

  unfoldable pub shortcut_decision : ShortcutConfig → ℕ → ℕ → KeyDecision × ReservedAction
  shortcut_decision shortcuts keysym modifiers =
      let decision : KeyDecision =
        if is_app_shortcut keysym modifiers
        then record { action = action_forward; reason = reason_application_shortcut }
        else record { action = action_consume; reason = reason_none } in
      elim (reserved_action shortcuts keysym modifiers) [
        | reserved_none ↦ (decision, reserved_none)
        | reserved ↦ (record { action = action_consume; reason = reason_typio_reserved }, reserved)
      ]

  -- `key_route_keyboard_availability`
  unfoldable pub availability : Route Context → Route Context × Availability
  availability r = if not host.instance_set then (r, engine_failed) else elim host.registry [
    | none ↦ (r, r.keyboard_availability)
    | some a ↦ (record r { keyboard_availability = a }, a)
  ]

  -- The event for the engine; `sized` tells whether the initializer sets `struct_size`.
  abbrev pub key_event : Bool → Bool → ArbiterEvent → KeyEvent
  key_event sized pressed ev = record {
    struct_size = if sized then host.event_size else 0;
    is_press = pressed;
    keycode = ev.key;
    keysym = ev.keysym;
    modifiers = ev.modifiers;
    unicode = ev.unicode;
    time = ev.time;
    is_repeat = false;
    base_keysym = host.base_keysym ev.key;
  }

  -- `typio_input_context_process_key`
  abbrev pub ask : KeyEvent → Route Context → Route Context × Bool
  ask event r =
      let (session, handled) = host.process_key event r.session in
      (record r { session = session }, handled)

  abbrev pub guard_consumes : Session Context → ℕ → Bool
  guard_consumes s keysym =
      should_consume host.selection_keys host.selection_flags s.last_candidate_count
        s.last_host_managed_selection keysym

  abbrev pub commit_at : Option ℕ → Route Context → Route Context × Bool
  commit_at none r = (r, false)
  commit_at (some i) r =
      let (session, ok) = host.commit_candidate i r.session in (record r { session = session }, ok)

  -- `typio_wl_host_selection_try_commit`
  unfoldable pub try_commit : HostSelKey → Route Context → Route Context × Bool
  try_commit sel r =
      let s = r.session in
      if not r.frontend.ctx
      then (r, false)
      else commit_at (host_selection_resolve sel s.last_candidate_selected s.last_candidate_count) r

  abbrev pub select : Option ℕ → Route Context → Route Context
  select none r = r
  select (some i) r = on_frontend (call request_ui_update) (record r {
    session = record r.session {
      last_candidate_selected = some i;
      candidate_snapshot_selected = some i;
    };
  })

  abbrev plain_text : Route Context → List ℕ
  plain_text r = elim (build_plain_preedit host.resized (host.get_preedit r.session.context)).0 [
    | none ↦ []
    | some text ↦ text
  ]

  -- By the category of the key.
  abbrev pub act_on : HostSelCategory → HostSelKey → Route Context → Route Context × Bool
  act_on category_navigate sel r =
      let s = r.session in
      (select (host_selection_resolve sel s.last_candidate_selected s.last_candidate_count) r, true)
  act_on category_commit sel r = try_commit sel r
  act_on category_index_pick sel r = try_commit sel r
  act_on category_commit_raw sel r =
      (record r { session = host.commit (plain_text r) r.session }, true)
  act_on category_none sel r = (r, false)

  unfoldable pub handle_host_selection : ℕ → Route Context → Route Context × Bool
  handle_host_selection keysym r =
      let sel = host_selection_keysym host.selection_keys keysym in
      act_on (host_selection_category sel) sel r

  -- A press of a key that an earlier press latched as an application shortcut.
  abbrev latched_app_shortcut : ℕ → Keyboard → ArbiterEvent → Route Context → Route Context
  latched_app_shortcut now k ev r =
      if holds_blocking host k.physical_modifiers
      then forward now ev true (decide action_forward reason_latched_app_shortcut r)
      else r

  abbrev latched_forwarded : ℕ → ArbiterEvent → Route Context → Route Context
  latched_forwarded now ev r =
      forward now ev true (decide action_forward reason_latched_forwarded r)

  abbrev emergency_exit : Route Context → Route Context
  emergency_exit r =
      on_frontend (λ f. frontend_stop (release_grab f))
        (decide action_consume reason_typio_reserved r)

  unfoldable pub press_voice : ArbiterEvent → Route Context → Route Context
  press_voice ev r =
      if host.voice_available
      then decide action_consume reason_voice_ptt
          (track ev.key voice_ptt (on_frontend (call voice_start) r))
      else decide action_consume reason_voice_ptt_unavailable
          (on_frontend (call show_voice_status) (track ev.key voice_ptt_unavail r))

  -- The engine may take a shortcut of the application first.
  unfoldable pub press_app_shortcut : ℕ → ArbiterEvent → Route Context → Route Context
  press_app_shortcut now ev r =
      let (r1, handled) = ask (key_event true true ev) r in
      if handled
      then decide action_forward reason_application_shortcut (track ev.key idle r1)
      else decide action_forward reason_application_shortcut
          (track ev.key app_shortcut (forward now ev true r1))

  unfoldable pub press_engine : ℕ → ArbiterEvent → Route Context → Route Context
  press_engine now ev r =
      let event = key_event true true ev in
      let (r1, handled) = ask event r in
      if not handled && guard_consumes r1.session ev.keysym
      then decide action_consume reason_candidate_navigation (handle_host_selection ev.keysym r1).0
      else if not handled
      then decide action_forward
          (if host.is_modifier_only event
            then reason_modifier_passthrough
            else reason_engine_unhandled)
          (track ev.key forwarded (forward now ev true r1))
      else decide action_consume reason_engine_handled r1

  -- The decision is traced unless its reason is none.
  abbrev pub is_classified : KeyReason → Bool
  is_classified reason_none = false
  is_classified _ = true

  abbrev pub classified : KeyDecision → Route Context → Route Context
  classified d r = record r { traced = if is_classified d.reason then some d else r.traced }

  abbrev pub is_app_shortcut_reason : KeyReason → Bool
  is_app_shortcut_reason reason_application_shortcut = true
  is_app_shortcut_reason _ = false

  unfoldable pub press_unreserved : ℕ → KeyDecision → ArbiterEvent → Route Context → Route Context
  press_unreserved now decision ev r =
      let (r1, a) = availability r in
      if not (is_ready a)
      then decide action_consume reason_engine_not_ready (track ev.key engine_not_ready r1)
      else if is_app_shortcut_reason decision.reason
      then press_app_shortcut now ev r1
      else press_engine now ev r1

  abbrev pub claim : ℕ → Route Context → Route Context
  claim key r = on_frontend (λ f. record f { tracker = claim_current_generation f.tracker key }) r

  -- A press reserved for the voice matches its binding.
  abbrev pub press_reserved :
      ReservedAction → ℕ → KeyDecision → ArbiterEvent → Route Context → Route Context
  press_reserved reserved_emergency_exit now decision ev r = emergency_exit r
  press_reserved reserved_voice_ptt now decision ev r =
      let ptt = r.shortcuts.voice_ptt in
      if host.have_voice
        && (ev.keysym == ptt.keysym)
        && (bit_and ev.modifiers ptt.modifiers == ptt.modifiers)
      then press_voice ev r
      else press_unreserved now decision ev r
  press_reserved reserved_none now decision ev r = press_unreserved now decision ev r

  -- A press that no earlier one has latched.
  unfoldable pub press_fresh : ℕ → ArbiterEvent → Route Context → Route Context
  press_fresh now ev r =
      let (decision, reserved) = shortcut_decision r.shortcuts ev.keysym ev.modifiers in
      press_reserved reserved now decision ev (classified decision (claim ev.key r))

  -- By the state of the key.
  abbrev pub press_in : TrackState → ℕ → Keyboard → ArbiterEvent → Route Context → Route Context
  press_in released_pending now k ev r = decide action_consume reason_released_pending r
  press_in suppressed_startup now k ev r = decide action_consume reason_startup_suppressed r
  press_in app_shortcut now k ev r = latched_app_shortcut now k ev r
  press_in forwarded now k ev r = latched_forwarded now ev r
  press_in _ now k ev r = press_fresh now ev r

  -- `typio_wl_key_route_process_press` on the frontend's keyboard `k`
  unfoldable pub process_press : ℕ → Keyboard → ArbiterEvent → Route Context → Route Context
  process_press now k ev r = press_in (get_state r.frontend.tracker ev.key) now k ev r
