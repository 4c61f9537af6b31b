-- ===== src/Keyboard/Tracker/Laws.antt =====
-- Reading the tracker after a write (src/wayland/keyboard/policy/tracker_access.h).
use typiod_wayland.Prelude.{
  ℕ, zero, suc, List, [], ◌∷◌, ◌<◌, ◌≤◌, ◌≡◌, ◌≢◌, refl, ◌∙◌, false, ltb, lt→ltb, length,
  length-set, get_or, set, get_or-set_self, get_or-set_ne, Bool-cases, inl, inr, arith,
}
use typiod_wayland.Keyboard.State.{TrackState, idle, KeyTracker}
use typiod_wayland.Keyboard.Tracker.{
  get_state, set_state, get_generation, set_generation, clear_tracking, claim_current_generation,
  owned_by_active_generation,
}

pub get_state-set_self :
    (t : KeyTracker) (key : ℕ) (st : TrackState)
    → length t.states ≡ 512
    → key < 512
    → get_state (set_state t key st) key ≡ st
unfolding get_state set_state
get_state-set_self t key st n h =
    rw (lt→ltb key 512 h) (get_or-set_self t.states key st idle (omega (arith, n, h)))

pub get_state-set_ne :
    (t : KeyTracker) (key k : ℕ) (st : TrackState)
    → k ≢ key
    → get_state (set_state t key st) k ≡ get_state t k
unfolding get_state set_state
get_state-set_ne t key k st h = elim (Bool-cases (ltb key 512)) [
  | inl e ↦ rw e (rw (get_or-set_ne t.states {i = key} {j = k} st idle (λ e'. h (rw e' refl))) refl)
  | inr e ↦ rw e refl
]

pub set_state-length :
    (t : KeyTracker) (key : ℕ) (st : TrackState)
    → length (set_state t key st).states ≡ length t.states
unfolding set_state
set_state-length t key st = elim (Bool-cases (ltb key 512)) [
  | inl e ↦ rw e (length-set t.states key st)
  | inr e ↦ rw e refl
]

pub set_generation-states :
    (t : KeyTracker) (key g : ℕ) → (set_generation t key g).states ≡ t.states
unfolding set_generation
set_generation-states t key g = elim (Bool-cases (ltb key 512)) [
  | inl e ↦ rw e refl
  | inr e ↦ rw e refl
]

pub claim-states : (t : KeyTracker) (key : ℕ) → (claim_current_generation t key).states ≡ t.states
unfolding claim_current_generation
claim-states t key = set_generation-states t key t.active_generation

pub clear_tracking-states :
    (t : KeyTracker) (key : ℕ) → (clear_tracking t key).states ≡ (set_state t key idle).states
unfolding clear_tracking
clear_tracking-states t key = set_generation-states (set_state t key idle) key 0

-- The state of a key is a function of the list of states.
pub get_state_eq :
    (t u : KeyTracker) (key : ℕ) → t.states ≡ u.states → get_state t key ≡ get_state u key
unfolding get_state
get_state_eq t u key e = rw e refl

pub get_state_untracked : (t : KeyTracker) (key : ℕ) → 512 ≤ key → get_state t key ≡ idle
unfolding get_state
get_state_untracked t key h = let e : ltb key 512 ≡ false = ground (arith, h) in rw e refl

set-idle : (states : List TrackState) (key : ℕ) → get_or (set states key idle) key idle ≡ idle
set-idle [] key = refl
set-idle (st ∷ states) zero = refl
set-idle (st ∷ states) (suc key) = set-idle states key

set_state-idle : (t : KeyTracker) (key : ℕ) → get_state (set_state t key idle) key ≡ idle
unfolding get_state set_state
set_state-idle t key = elim (Bool-cases (ltb key 512)) [
  | inl e ↦ rw e (set-idle t.states key)
  | inr e ↦ rw e refl
]

-- A cleared key is idle, tracked or not.
pub clear_tracking-idle : (t : KeyTracker) (key : ℕ) → get_state (clear_tracking t key) key ≡ idle
clear_tracking-idle t key =
    get_state_eq (clear_tracking t key) (set_state t key idle) key (clear_tracking-states t key)
    ∙ set_state-idle t key

pub owned_untracked :
    (t : KeyTracker) (key : ℕ) → 512 ≤ key → owned_by_active_generation t key ≡ false
unfolding owned_by_active_generation get_generation
owned_untracked t key h = let e : ltb key 512 ≡ false = ground (arith, h) in rw e (ground arith)
