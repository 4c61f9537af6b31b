-- ===== src/Keyboard/Router/Examples.antt =====
-- The router at concrete states: an engine that handles no key.
use typiod_wayland.Prelude.{ℕ, ◌≡◌, refl, ap, true, false, [], ◌∷◌, none, some, replicate, arith}
use typiod_wayland.Keyboard.State.{
  Frontend, VirtualKeyboard, KeyTracker, Keyboard, ArbiterEvent, idle, forwarded, vk_ready,
  arbiter_idle, vk_key, is_vk_ready,
}
use typiod_wayland.Keyboard.Arbiter.{Symbols}
use typiod_wayland.Keyboard.Selection.{SelectionKeys}
use typiod_wayland.Keyboard.Router.{Host, Route, Session, engine_ready}
use typiod_wayland.Keyboard.Tracker.{
  get_state, set_state, claim_current_generation, set_generation, clear_tracking,
}
use typiod_wayland.Keyboard.Bridge.{
  vk_forward_key, vk_send, vk_is_ready, vk_promote, mark_forward_progress,
}
use typiod_wayland.Keyboard.Selection.{should_consume}
use typiod_wayland.Keyboard.Router.Press.{
  process_press, press_fresh, shortcut_decision, reserved_action, binding_matches_press,
  press_unreserved, availability, is_app_shortcut, press_engine,
}
use typiod_wayland.Keyboard.Router.Release.{process_release, release_forwarded, guard_takes}
use typiod_wayland.Keyboard.Router.Down.{down_from, is_down}
use typiod_wayland.Keyboard.Router.Steps.{IsBalanced, owes_release}
use typiod_wayland.Keyboard.Router.Stuck.{LeavesAlone, withheld-is_down}
use typiod_wayland.Keyboard.Router.Presses.{process_press-IsBalanced}
use typiod_wayland.Keyboard.Router.Releases.{process_release-idle, process_release-IsBalanced}
use typiod_wayland.Keyboard.Router.Runs.{done, pressed, released, routed_up}

abbrev symbols : Symbols
symbols = record {
  mod_shift = 1;
  mod_ctrl = 2;
  mod_alt = 4;
  mod_super = 8;
  shift_l = 65505;
  shift_r = 65506;
  control_l = 65507;
  control_r = 65508;
  alt_l = 65513;
  alt_r = 65514;
  super_l = 65515;
  super_r = 65516;
}

abbrev selection_keys : SelectionKeys
selection_keys = record {
  up = 65362;
  down = 65364;
  left = 65361;
  right = 65363;
  space = 32;
  return_key = 65293;
  kp_enter = 65421;
  digit_0 = 48;
  digit_1 = 49;
  digit_9 = 57;
}

abbrev pub silent_host : Host ℕ
silent_host = record {
  symbols = symbols;
  selection_keys = selection_keys;
  selection_flags = record { navigate = 1; commit = 2; commit_raw = 4; index_pick = 8 };
  event_size = 40;
  key_return = 65293;
  key_kp_enter = 65421;
  is_modifier_only = λ ev. false;
  base_keysym = λ key. 0;
  process_key = λ ev s. (s, false);
  commit = λ text s. s;
  commit_candidate = λ i s. (s, true);
  get_preedit = λ c. none;
  resized = λ n. true;
  instance_set = true;
  registry = some engine_ready;
  have_voice = false;
  voice_available = false;
}

abbrev vk : VirtualKeyboard
vk = record {
  vk = true;
  state = vk_ready;
  has_keymap = true;
  keymap_generation = 4;
  drop_count = 0;
  keymap_cancel_count = 0;
  keymap_cancel_window_start_ms = 0;
  state_since_ms = 10;
  last_keymap_ms = 10;
  last_forward_ms = 20;
  keymap_deadline_ms = 0;
  active_generation_dirty = false;
  carried_modifiers = false;
}

abbrev pub keyboard : Keyboard
keyboard = record {
  grab = true;
  xkb_state = true;
  physical_modifiers = 0;
  mods_depressed = 0;
  mods_latched = 0;
  mods_locked = 0;
  mods_group = 0;
  saw_blocking_modifier = false;
  repeat_timer = true;
  repeating = false;
  created_at_epoch = 2;
  arbiter = record { state = arbiter_idle; buffer = [] };
}

abbrev no_keys : KeyTracker
no_keys = record {
  states = replicate 512 idle;
  generations = replicate 512 0;
  active_generation = 4;
  active_generation_owned_keys = false;
}

abbrev frontend : Frontend
frontend = record {
  display = true;
  input_method = true;
  im_serial = 1;
  running = true;
  dispatch_epoch = 9;
  guard_reject_press_streak = 0;
  guard_reject_press_window_start_ms = 0;
  watchdog_armed = false;
  session = true;
  ctx = true;
  keyboard = some keyboard;
  vk = vk;
  tracker = no_keys;
  out = [];
}

abbrev session_with : ℕ → Session ℕ
session_with count = record {
  context = 0;
  last_candidate_count = count;
  last_host_managed_selection = 0;
  last_candidate_selected = none;
  candidate_snapshot_selected = none;
}

abbrev pub start : Route ℕ
start = record {
  frontend = frontend;
  session = session_with 0;
  shortcuts = record {
    emergency_exit = record { keysym = 0; modifiers = 0 };
    voice_ptt = record { keysym = 0; modifiers = 0 };
  };
  keyboard_availability = engine_ready;
  traced = none;
}

-- The Down key, whose code is 108.
abbrev pub down_press : ArbiterEvent
down_press = record {
  is_press = true;
  key = 108;
  keysym = 65364;
  modifiers = 0;
  unicode = 0;
  time = 5;
}

pub start-IsBalanced : IsBalanced start.frontend
start-IsBalanced = record { sized = refl; owed = λ key d. absurd (ground (arith, d)) }

abbrev down_release : ArbiterEvent
down_release = record down_press { is_press = false; time = 9 }

abbrev held : Route ℕ
held = process_press silent_host 30 keyboard down_press start

-- While the key is held, the engine shows three candidates.
abbrev held_with_candidates : Route ℕ
held_with_candidates = record held { session = session_with 3 }

held-IsBalanced : IsBalanced held.frontend
held-IsBalanced =
    process_press-IsBalanced silent_host 30 keyboard down_press start (omega arith) start-IsBalanced

held_down : held.frontend.out ≡ vk_key 5 108 true ∷ []
unfolding process_press process_release release_forwarded get_state press_fresh shortcut_decision
    reserved_action binding_matches_press press_unreserved availability is_app_shortcut press_engine
    should_consume vk_forward_key vk_send vk_is_ready vk_promote mark_forward_progress set_state
    claim_current_generation set_generation clear_tracking
held_down = refl

held_ready : is_vk_ready held.frontend.vk.state ≡ true
unfolding process_press process_release release_forwarded get_state press_fresh shortcut_decision
    reserved_action binding_matches_press press_unreserved availability is_app_shortcut press_engine
    should_consume vk_forward_key vk_send vk_is_ready vk_promote mark_forward_progress set_state
    claim_current_generation set_generation clear_tracking
held_ready = refl

held_forwarded : get_state held.frontend.tracker 108 ≡ forwarded
unfolding process_press process_release release_forwarded get_state press_fresh shortcut_decision
    reserved_action binding_matches_press press_unreserved availability is_app_shortcut press_engine
    should_consume vk_forward_key vk_send vk_is_ready vk_promote mark_forward_progress set_state
    claim_current_generation set_generation clear_tracking
held_forwarded = refl

released_down :
    (process_release silent_host 40 keyboard down_release held).frontend.out
    ≡ vk_key 5 108 true ∷ vk_key 9 108 false ∷ []
unfolding process_press process_release release_forwarded get_state press_fresh shortcut_decision
    reserved_action binding_matches_press press_unreserved availability is_app_shortcut press_engine
    should_consume vk_forward_key vk_send vk_is_ready vk_promote mark_forward_progress set_state
    claim_current_generation set_generation clear_tracking
released_down = refl

guard_idle :
    get_state held.frontend.tracker 108 ≡ forwarded
    → guard_takes silent_host down_release held ≡ false
unfolding process_press process_release release_forwarded get_state press_fresh shortcut_decision
    reserved_action binding_matches_press press_unreserved availability is_app_shortcut press_engine
    should_consume vk_forward_key vk_send vk_is_ready vk_promote mark_forward_progress set_state
    claim_current_generation set_generation clear_tracking
guard_idle e = refl

guard_busy : guard_takes silent_host down_release held_with_candidates ≡ true
unfolding process_press process_release release_forwarded get_state press_fresh shortcut_decision
    reserved_action binding_matches_press press_unreserved availability is_app_shortcut press_engine
    should_consume vk_forward_key vk_send vk_is_ready vk_promote mark_forward_progress set_state
    claim_current_generation set_generation clear_tracking
guard_busy = refl

process_release-IsBalanced_example :
    let f' = (process_release silent_host 40 keyboard down_release held).frontend in
    IsBalanced f' × (is_down 108 f' ≡ false)
process_release-IsBalanced_example =
    process_release-IsBalanced silent_host 40 keyboard down_release held held_ready guard_idle
      held-IsBalanced

-- Another key.
abbrev other_press : ArbiterEvent
other_press = record down_press { key = 30; keysym = 97 }

withheld-is_down_example :
    let r' =
      process_press silent_host 50 keyboard other_press
        (process_release silent_host 40 keyboard down_release held_with_candidates) in
    (is_down 108 r'.frontend ≡ true) × (get_state r'.frontend.tracker 108 ≡ idle)
withheld-is_down_example =
    withheld-is_down silent_host 40 keyboard down_release held_with_candidates _ held-IsBalanced
      held_forwarded (ap (down_from 108 false) held_down) guard_busy
      (LeavesAlone.pressed 50 keyboard other_press _ _ (omega arith) (λ e. omega (arith, e))
        (LeavesAlone.done _))

abbrev typed : Route ℕ
typed = process_release silent_host 40 keyboard down_release held

typed_idle : owes_release (get_state typed.frontend.tracker 108) ≡ false
typed_idle = rw (process_release-idle silent_host 40 keyboard down_release held).0 refl

routed_up_example : is_down 108 typed.frontend ≡ false
routed_up_example =
    routed_up silent_host start typed 108 start-IsBalanced
      (pressed 30 keyboard down_press start typed (omega arith)
        (released 40 keyboard down_release held typed held_ready guard_idle (done typed)))
      typed_idle
