-- ===== src/Keyboard/Router/Steps.antt =====
-- The invariant of the router: what the application sees pressed is tracked as held, and what the
-- parts of a handler do to it (src/wayland/keyboard/router.c).
use typiod_wayland.Prelude.{
  ℕ, ◌<◌, ◌≡◌, ◌≢◌, refl, sym, ◌∙◌, ap, Bool, true, false, inl, inr, length, ◌==◌, Bool-cases,
  arith,
}
use typiod_wayland.Keyboard.State.{TrackState, idle, forwarded, app_shortcut, Frontend}
use typiod_wayland.Keyboard.Tracker.{get_state, set_state, clear_tracking, claim_current_generation}
use typiod_wayland.Keyboard.Tracker.Laws.{
  get_state-set_self, get_state-set_ne, set_state-length, claim-states, clear_tracking-states,
  get_state_eq,
}
use typiod_wayland.Keyboard.Router.Down.{is_down, IsSame, IsSent}

-- The states in which the router owes the application a release.
abbrev pub owes_release : TrackState → Bool
owes_release forwarded = true
owes_release app_shortcut = true
owes_release _ = false

abbrev pub IsOwed : ℕ → Frontend → Type 0
IsOwed key f = is_down key f ≡ true → owes_release (get_state f.tracker key) ≡ true

-- Every key that the application sees pressed is tracked as one that it will be released from.
pub record IsBalanced (f : Frontend) : Type 0 where
  pub sized : length f.tracker.states ≡ 512
  pub owed : (key : ℕ) → IsOwed key f

-- The same of one key.
pub record IsBalancedAt (key : ℕ) (f : Frontend) : Type 0 where
  pub sized : length f.tracker.states ≡ 512
  pub owed : IsOwed key f

-- One key alone may have changed.
pub record IsStep (key : ℕ) (f g : Frontend) : Type 0 where
  pub sized : length g.tracker.states ≡ length f.tracker.states
  pub down : (k : ℕ) → k ≢ key → is_down k g ≡ is_down k f
  pub state : (k : ℕ) → k ≢ key → get_state g.tracker k ≡ get_state f.tracker k

pub IsStep-trans : {key : ℕ} {f g h : Frontend} → IsStep key f g → IsStep key g h → IsStep key f h
IsStep-trans s t = record {
  sized = t.sized ∙ s.sized;
  down = λ k n. t.down k n ∙ s.down k n;
  state = λ k n. t.state k n ∙ s.state k n;
}

pub same-IsStep : (key : ℕ) {f g : Frontend} → IsSame f g → IsStep key f g
same-IsStep key {f = f} {g = g} s = record {
  sized = ap length s.states;
  down = λ k n. s.down k;
  state = λ k n. get_state_eq g.tracker f.tracker k s.states;
}

pub sent-IsStep :
    {key : ℕ} {pressed : Bool} {f g : Frontend} → IsSent key pressed f g → IsStep key f g
sent-IsStep {f = f} {g = g} s = record {
  sized = ap length s.states;
  down = s.others;
  state = λ k n. get_state_eq g.tracker f.tracker k s.states;
}

pub set_state-IsStep :
    (key : ℕ) (st : TrackState) (f : Frontend)
    → IsStep key f (record f { tracker = set_state f.tracker key st })
set_state-IsStep key st f = record {
  sized = set_state-length f.tracker key st;
  down = λ k n. refl;
  state = λ k n. get_state-set_ne f.tracker key k st n;
}

pub clear-IsStep :
    (key : ℕ) (f : Frontend) → IsStep key f (record f { tracker = clear_tracking f.tracker key })
clear-IsStep key f =
    let e = clear_tracking-states f.tracker key in
    record {
      sized = ap length e ∙ set_state-length f.tracker key idle;
      down = λ k n. refl;
      state = λ k n.
          get_state_eq (clear_tracking f.tracker key) (set_state f.tracker key idle) k e
          ∙ get_state-set_ne f.tracker key k idle n;
    }

pub claim-IsSame :
    (key : ℕ) (f : Frontend)
    → IsSame f (record f { tracker = claim_current_generation f.tracker key })
claim-IsSame key f = record { states = claim-states f.tracker key; down = λ k. refl }

-- A step of one key keeps the invariant where the key is owed its release afterwards.
pub step-IsBalanced :
    {key : ℕ} {f g : Frontend} → IsStep key f g → IsBalanced f → IsOwed key g → IsBalanced g
step-IsBalanced {key = key} {f = f} {g = g} s b own = record {
  sized = s.sized ∙ b.sized;
  owed = λ k d. elim (Bool-cases (k == key)) [
    | inl e ↦ let eq : k ≡ key = ground (arith, e) in rw eq (own (rw (← eq) d))
    | inr e ↦
        let ne : k ≢ key = ground (arith, e) in rw (s.state k ne) (b.owed k (sym (s.down k ne) ∙ d))
  ];
}

-- A step of the key that leaves it owed its release, if the application sees it pressed.
pub record IsOk (key : ℕ) (f g : Frontend) : Type 0 where
  pub step : IsStep key f g
  pub owed : IsOwed key g

pub same-IsOk : {key : ℕ} {f g h : Frontend} → IsSame f g → IsOk key g h → IsOk key f h
same-IsOk {key = key} s k = record { step = IsStep-trans (same-IsStep key s) k.step; owed = k.owed }

pub quiet-IsOk : (key : ℕ) {f g : Frontend} → is_down key f ≡ false → IsSame f g → IsOk key f g
quiet-IsOk key n s = record {
  step = same-IsStep key s;
  owed = λ d. absurd (ground (arith, s.down key, n, d));
}

-- A key that is not down may be given any state.
pub track-IsOk :
    (key : ℕ) (st : TrackState) (f : Frontend)
    → is_down key f ≡ false
    → IsOk key f (record f { tracker = set_state f.tracker key st })
track-IsOk key st f n = record {
  step = set_state-IsStep key st f;
  owed = λ d. absurd (ground (arith, n, d));
}

-- A key that is sent and then given a state that owes the release.
pub sent_track-IsOk :
    {key : ℕ} {pressed : Bool} {f g : Frontend} (st : TrackState)
    → key < 512
    → length f.tracker.states ≡ 512
    → IsSent key pressed f g
    → owes_release st ≡ true
    → IsOk key f (record g { tracker = set_state g.tracker key st })
sent_track-IsOk {key = key} {g = g} st h n s o = record {
  step = IsStep-trans (sent-IsStep s) (set_state-IsStep key st g);
  owed = λ d. rw (get_state-set_self g.tracker key st (ap length s.states ∙ n) h) o;
}

-- A key that is sent while its state owes the release.
pub sent-IsOk :
    {key : ℕ} {pressed : Bool} {f g : Frontend}
    → IsSent key pressed f g
    → owes_release (get_state f.tracker key) ≡ true
    → IsOk key f g
sent-IsOk {key = key} {f = f} {g = g} s o = record {
  step = sent-IsStep s;
  owed = λ d. rw (get_state_eq g.tracker f.tracker key s.states) o;
}

-- A key whose state owes nothing is not down.
pub owed-down :
    (key : ℕ) (f : Frontend)
    → IsOwed key f
    → owes_release (get_state f.tracker key) ≡ false
    → is_down key f ≡ false
owed-down key f own o = elim (Bool-cases (is_down key f)) [
  | inl e ↦ absurd (ground (arith, own e, o))
  | inr e ↦ e
]

pub not_owed-down :
    (key : ℕ) (f : Frontend)
    → IsBalanced f
    → owes_release (get_state f.tracker key) ≡ false
    → is_down key f ≡ false
not_owed-down key f b o = owed-down key f (b.owed key) o
