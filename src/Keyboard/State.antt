-- ===== src/Keyboard/State.antt =====
-- The structs of src/wayland/internal.h that the keyboard pipeline reads and writes.
-- Wayland requests, timer and xkb calls, and calls into the input context, the panel and the
-- registry are recorded in `out`, latest last; logging and the runtime-state signal are left out.
use typiod_wayland.Prelude.{
  ℕ, ◌+◌, Bool, true, false, List, [], ◌∷◌, ◌++◌, Option, u32, ◌==◌, if◌then◌else◌,
}

abbrev pub max_tracked_keys : ℕ
max_tracked_keys = 512

-- `TypioKeyTrackState`
pub data TrackState : Type 0 where
  idle : TrackState
  forwarded : TrackState
  basic_passthrough : TrackState
  app_shortcut : TrackState
  released_pending : TrackState
  suppressed_startup : TrackState
  engine_not_ready : TrackState
  voice_ptt : TrackState
  voice_ptt_unavail : TrackState

-- `TypioWlVirtualKeyboardState`
pub data VkState : Type 0 where
  vk_absent : VkState
  vk_needs_keymap : VkState
  vk_ready : VkState
  vk_broken : VkState

pub record KeyTracker : Type 0 where
  pub states : List TrackState
  pub generations : List ℕ
  pub active_generation : ℕ
  pub active_generation_owned_keys : Bool

pub record VirtualKeyboard : Type 0 where
  pub vk : Bool
  pub state : VkState
  pub has_keymap : Bool
  pub keymap_generation : ℕ
  pub drop_count : ℕ
  pub keymap_cancel_count : ℕ
  pub keymap_cancel_window_start_ms : ℕ
  pub state_since_ms : ℕ
  pub last_keymap_ms : ℕ
  pub last_forward_ms : ℕ
  pub keymap_deadline_ms : ℕ
  pub active_generation_dirty : Bool
  pub carried_modifiers : Bool

-- `TypioArbiterEvent`
pub record ArbiterEvent : Type 0 where
  pub is_press : Bool
  pub key : ℕ
  pub keysym : ℕ
  pub modifiers : ℕ
  pub unicode : ℕ
  pub time : ℕ

pub data ArbiterState : Type 0 where
  arbiter_idle : ArbiterState
  arbiter_buffering : ArbiterState

-- `TypioKeyArbiter`; the buffer is the first `buffer_count` events of the array.
pub record KeyArbiter : Type 0 where
  pub state : ArbiterState
  pub buffer : List ArbiterEvent

-- `TypioWlKeyboard`: pointers and file descriptors by whether they are set.
pub record Keyboard : Type 0 where
  pub grab : Bool
  pub xkb_state : Bool
  pub physical_modifiers : ℕ
  pub mods_depressed : ℕ
  pub mods_latched : ℕ
  pub mods_locked : ℕ
  pub mods_group : ℕ
  pub saw_blocking_modifier : Bool
  pub repeat_timer : Bool
  pub repeating : Bool
  pub created_at_epoch : ℕ
  pub arbiter : KeyArbiter

pub data Call : Type 0 where
  vk_key : ℕ → ℕ → Bool → Call
  vk_modifiers : ℕ → ℕ → ℕ → ℕ → Call
  vk_keymap : Call
  grab_keyboard : Call
  grab_release : Call
  xkb_clear : Call
  repeat_disarm : Call
  set_preedit : Call
  im_commit : ℕ → Call
  context_reset : Call
  context_focus_in : Call
  context_focus_out : Call
  clear_identity : Call
  refresh_identity : Call
  restore_identity_engine : Call
  hide_candidates : Call
  cancel_ui_tracking : Call
  reset_anchor : Call
  early_anchor_probe : Call
  show_focus_indicator : Bool → Call
  switch_language : Call
  request_ui_update : Call
  voice_start : Call
  voice_stop : Call
  show_voice_status : Call
  hide_voice_status : Call
  repeat_arm : ℕ → ℕ → Call
  set_preedit_string : List ℕ → Option ℕ → Call
  commit_string : List ℕ → Call
  delete_surrounding : ℕ → ℕ → Call
  set_surrounding : List ℕ → ℕ → ℕ → Call
  notify_keyboard_commit : Call
  context_destroy : Call

-- `TypioWlFrontend`, the fields that the pipeline uses. `session` and `ctx` are set pointers.
pub record Frontend : Type 0 where
  pub display : Bool
  pub input_method : Bool
  pub im_serial : ℕ
  pub running : Bool
  pub dispatch_epoch : ℕ
  pub guard_reject_press_streak : ℕ
  pub guard_reject_press_window_start_ms : ℕ
  pub watchdog_armed : Bool
  pub session : Bool
  pub ctx : Bool
  pub keyboard : Option Keyboard
  pub vk : VirtualKeyboard
  pub tracker : KeyTracker
  pub out : List Call

-- A call made on the frontend's behalf.
abbrev pub call : Call → Frontend → Frontend
call c f = record f { out = f.out ++ c ∷ [] }

-- The generation counter, which skips 0 when it wraps.
abbrev pub next_generation : ℕ → ℕ
next_generation g = if u32 (g + 1) == 0 then 1 else u32 (g + 1)

abbrev pub frontend_stop : Frontend → Frontend
frontend_stop f = record f { running = false }

abbrev pub is_vk_ready : VkState → Bool
is_vk_ready vk_ready = true
is_vk_ready _ = false

abbrev pub is_vk_needs_keymap : VkState → Bool
is_vk_needs_keymap vk_needs_keymap = true
is_vk_needs_keymap _ = false

abbrev pub is_vk_broken : VkState → Bool
is_vk_broken vk_broken = true
is_vk_broken _ = false

abbrev pub is_vk_absent : VkState → Bool
is_vk_absent vk_absent = true
is_vk_absent _ = false
