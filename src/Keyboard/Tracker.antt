-- ===== src/Keyboard/Tracker.antt =====
-- The per-key tracker (src/wayland/keyboard/policy/tracker.c and tracker_access.h).
pub mod Laws
use typiod_wayland.Prelude.{
  ℕ, ◌+◌, Bool, true, false, not, ◌&&◌, List, [], ◌∷◌, map, ltb, ◌==◌, if◌then◌else◌, get_or, set,
}
use typiod_wayland.Keyboard.State.{
  TrackState, idle, forwarded, basic_passthrough, app_shortcut, released_pending, KeyTracker,
  max_tracked_keys,
}

-- The states of a key that the application saw pressed: forwarded, passed through, or a shortcut.
abbrev pub is_held_by_app : TrackState → Bool
is_held_by_app forwarded = true
is_held_by_app basic_passthrough = true
is_held_by_app app_shortcut = true
is_held_by_app _ = false

-- `memset` to zero, which is the idle state.
unfoldable pub tracking_reset : List TrackState → List TrackState
tracking_reset states = map (λ st. idle) states

unfoldable pub tracking_reset_generations : List ℕ → List ℕ
tracking_reset_generations generations = map (λ g. 0) generations

-- The new states, and the number of changed ones.
unfoldable pub mark_released_pending : List TrackState → List TrackState × ℕ
mark_released_pending [] = ([], 0)
mark_released_pending (st ∷ states) =
    let (states', changed) = mark_released_pending states in
    if is_held_by_app st then (released_pending ∷ states', changed + 1) else (st ∷ states', changed)

unfoldable pub get_state : KeyTracker → ℕ → TrackState
get_state t key = if ltb key max_tracked_keys then get_or t.states key idle else idle

unfoldable pub set_state : KeyTracker → ℕ → TrackState → KeyTracker
set_state t key st =
    if ltb key max_tracked_keys then record t { states = set t.states key st } else t

unfoldable pub get_generation : KeyTracker → ℕ → ℕ
get_generation t key = if ltb key max_tracked_keys then get_or t.generations key 0 else 0

unfoldable pub set_generation : KeyTracker → ℕ → ℕ → KeyTracker
set_generation t key generation =
    if ltb key max_tracked_keys
    then record t { generations = set t.generations key generation }
    else t

unfoldable pub claim_current_generation : KeyTracker → ℕ → KeyTracker
claim_current_generation t key = record (set_generation t key t.active_generation) {
  active_generation_owned_keys = true;
}

unfoldable pub clear_tracking : KeyTracker → ℕ → KeyTracker
clear_tracking t key = set_generation (set_state t key idle) key 0

unfoldable pub owned_by_active_generation : KeyTracker → ℕ → Bool
owned_by_active_generation t key =
    not (t.active_generation == 0) && (get_generation t key == t.active_generation)
