-- ===== src/Keyboard/Router.antt =====
-- What the router of key events works with (src/wayland/keyboard/router.h and router.c): its
-- decisions, the session, and the parts that are not the program's own, as parameters.
pub mod Press
pub mod Release
pub mod Down
pub mod Steps
pub mod Presses
pub mod Releases
pub mod Runs
pub mod Stuck
pub mod Examples
use typiod_wayland.Prelude.{
  ℕ, Bool, true, false, not, ◌&&◌, ◌||◌, List, Option, none, some, bit_and, ◌==◌, if◌then◌else◌,
}
use typiod_wayland.Text.Preedit.{Preedit}
use typiod_wayland.Keyboard.State.{Frontend, Keyboard, ArbiterEvent, TrackState, call}
use typiod_wayland.Keyboard.State.{request_ui_update}
use typiod_wayland.Keyboard.Tracker.{set_state, clear_tracking}
use typiod_wayland.Keyboard.Bridge.{vk_forward_key}
use typiod_wayland.Keyboard.Arbiter.{Symbols}
use typiod_wayland.Keyboard.Modifiers.{blocking}
use typiod_wayland.Keyboard.Selection.{SelectionKeys, SelectionFlags}

-- `TypioShortcutBinding` and `TypioShortcutConfig`, the actions that the router reads
pub record Binding : Type 0 where
  pub keysym : ℕ
  pub modifiers : ℕ

pub record ShortcutConfig : Type 0 where
  pub emergency_exit : Binding
  pub voice_ptt : Binding

-- `TypioWlReservedAction`
pub data ReservedAction : Type 0 where
  reserved_none : ReservedAction
  reserved_emergency_exit : ReservedAction
  reserved_voice_ptt : ReservedAction

-- `TypioWlKeyAction`
pub data KeyAction : Type 0 where
  action_consume : KeyAction
  action_forward : KeyAction

-- `TypioWlKeyReason`
pub data KeyReason : Type 0 where
  reason_none : KeyReason
  reason_typio_reserved : KeyReason
  reason_application_shortcut : KeyReason
  reason_basic_passthrough : KeyReason
  reason_engine_handled : KeyReason
  reason_engine_unhandled : KeyReason
  reason_engine_not_ready : KeyReason
  reason_modifier_passthrough : KeyReason
  reason_candidate_navigation : KeyReason
  reason_startup_suppressed : KeyReason
  reason_released_pending : KeyReason
  reason_latched_app_shortcut : KeyReason
  reason_latched_forwarded : KeyReason
  reason_startup_stale_cleanup : KeyReason
  reason_forwarded_release : KeyReason
  reason_orphan_release_cleanup : KeyReason
  reason_orphan_release_consumed : KeyReason
  reason_voice_ptt : KeyReason
  reason_voice_ptt_unavailable : KeyReason

-- `TypioWlKeyDecision`
pub record KeyDecision : Type 0 where
  pub action : KeyAction
  pub reason : KeyReason

-- `TypioKeyEvent`
pub record KeyEvent : Type 0 where
  pub struct_size : ℕ
  pub is_press : Bool
  pub keycode : ℕ
  pub keysym : ℕ
  pub modifiers : ℕ
  pub unicode : ℕ
  pub time : ℕ
  pub is_repeat : Bool
  pub base_keysym : ℕ

-- `TypioEngineAvailability`: the other values than READY and FAILED are alike to the router.
pub data Availability : Type 0 where
  engine_ready : Availability
  engine_failed : Availability
  engine_otherwise : Availability

abbrev pub is_ready : Availability → Bool
is_ready engine_ready = true
is_ready _ = false

-- `TypioWlSession`, the fields that the router uses. `context` is what libtypio keeps behind the
-- input context; a selected index is none where it is negative.
pub record Session (Context : Type 0) : Type 0 where
  pub context : Context
  pub last_candidate_count : ℕ
  pub last_host_managed_selection : ℕ
  pub last_candidate_selected : Option ℕ
  pub candidate_snapshot_selected : Option ℕ

-- libtypio, xkbcommon and the build: the input context's operations act on the session, through
-- the callbacks that the frontend registers, and report whether the engine handled the event.
pub record Host (Context : Type 0) : Type 0 where
  pub symbols : Symbols
  pub selection_keys : SelectionKeys
  pub selection_flags : SelectionFlags
  pub event_size : ℕ
  pub key_return : ℕ
  pub key_kp_enter : ℕ
  pub is_modifier_only : KeyEvent → Bool
  pub base_keysym : ℕ → ℕ
  pub process_key : KeyEvent → Session Context → Session Context × Bool
  pub commit : List ℕ → Session Context → Session Context
  pub commit_candidate : ℕ → Session Context → Session Context × Bool
  pub get_preedit : Context → Option Preedit
  pub resized : ℕ → Bool
  pub instance_set : Bool
  pub registry : Option Availability
  pub have_voice : Bool
  pub voice_available : Bool

-- The frontend with the fields that only the router uses. `traced` is the decision that was
-- traced last.
pub record Route (Context : Type 0) : Type 0 where
  pub frontend : Frontend
  pub session : Session Context
  pub shortcuts : ShortcutConfig
  pub keyboard_availability : Availability
  pub traced : Option KeyDecision

module _ {Context : Type 0} where
  abbrev pub on_frontend : (Frontend → Frontend) → Route Context → Route Context
  on_frontend step r = record r { frontend = step r.frontend }

  -- `key_route_trace_decision` with the decision made for it
  abbrev pub decide : KeyAction → KeyReason → Route Context → Route Context
  decide action reason r = record r { traced = some (record { action = action; reason = reason }) }

  abbrev pub track : ℕ → TrackState → Route Context → Route Context
  track key st r = on_frontend (λ f. record f { tracker = set_state f.tracker key st }) r

  abbrev pub clear : ℕ → Route Context → Route Context
  clear key r = on_frontend (λ f. record f { tracker = clear_tracking f.tracker key }) r

  -- A key sent through the virtual keyboard at `now`.
  abbrev pub forward : ℕ → ArbiterEvent → Bool → Route Context → Route Context
  forward now ev pressed r = on_frontend (vk_forward_key now ev.time ev.key pressed) r

  abbrev pub holds_blocking : Host Context → ℕ → Bool
  holds_blocking host modifiers = not (bit_and modifiers (blocking host.symbols) == 0)
