-- ===== src/Keyboard/Arbiter/Order.antt =====
-- What the arbiter does with the order of the key events (src/wayland/keyboard/arbiter.c).
use typiod_wayland.Prelude.{
  ℕ, ◌-◌, ◌≤◌, ◌<◌, ◌≡◌, refl, sym, ap, ◌∙◌, Bool, true, false, ◌||◌, List, [], ◌∷◌, ◌++◌, leb,
  if◌then◌else◌, length, length-append, Bool-cases, inl, inr, ◌⊎◌, arith, map,
}
use mathlib.Core.Path.{subst}
use mathlib.Core.List.{append-nil, append_assoc}
use typiod_wayland.Keyboard.State.{
  ArbiterEvent, ArbiterState, arbiter_idle, arbiter_buffering, KeyArbiter,
}
use typiod_wayland.Keyboard.Arbiter.{
  Symbols, max_buffered, should_start_buffering, should_cancel, chord_complete, buffer_push,
  arbiter_init, Action, processed, consumed, replay, events_of, press, release, arbitrate,
  arbitrate_all,
}

-- An idle arbiter holds nothing, and the buffer is no longer than the array.
pub record IsArbiter (a : KeyArbiter) : Type 0 where
  pub bounded : length a.buffer ≤ 8
  pub empty : a.state ≡ arbiter_idle → a.buffer ≡ []

events_of-append : (xs ys : List Action) → events_of (xs ++ ys) ≡ events_of xs ++ events_of ys
events_of-append [] ys = refl
events_of-append (processed ev ∷ xs) ys = ap (λ t. ev ∷ t) (events_of-append xs ys)
events_of-append (consumed events ∷ xs) ys =
    ap (λ t. events ++ t) (events_of-append xs ys)
    ∙ sym (append_assoc events (events_of xs) (events_of ys))

events_of-replay : (events : List ArbiterEvent) → events_of (replay events) ≡ events
events_of-replay [] = refl
events_of-replay (ev ∷ events) = ap (λ t. ev ∷ t) (events_of-replay events)

-- What one event leads to: every event held or come in is acted on or held, in order, or the
-- event is a release that found the buffer full.
abbrev pub InOrder : KeyArbiter → ArbiterEvent → List Action × KeyArbiter → Type 0
InOrder a ev (actions, a') = events_of actions ++ a'.buffer ≡ a.buffer ++ ev ∷ []

pub record Arbitrated (fits : Type 0) (a : KeyArbiter) (ev : ArbiterEvent)
    (r : List Action × KeyArbiter) : Type 0 where
  pub kept : IsArbiter r.1
  pub ordered : fits → InOrder a ev r

if-Arbitrated :
    {fits : Type 0} (a : KeyArbiter) (ev : ArbiterEvent) {r s : List Action × KeyArbiter} (b : Bool)
    → (b ≡ true → Arbitrated fits a ev r)
    → (b ≡ false → Arbitrated fits a ev s)
    → Arbitrated fits a ev (if b then r else s)
if-Arbitrated a ev true h k = h refl
if-Arbitrated a ev false h k = k refl

pub init-IsArbiter : IsArbiter arbiter_init
init-IsArbiter = record { bounded = omega arith; empty = λ h. refl }

-- A replay followed by the event.
replayed-Arbitrated :
    (fits : Type 0) (a : KeyArbiter) (ev : ArbiterEvent)
    → Arbitrated fits a ev (replay a.buffer ++ processed ev ∷ [], arbiter_init)
replayed-Arbitrated fits a ev = record {
  kept = init-IsArbiter;
  ordered = λ h.
      append-nil _
      ∙ events_of-append (replay a.buffer) (processed ev ∷ [])
      ∙ ap (λ t. t ++ ev ∷ []) (events_of-replay a.buffer);
}

buffer_push-room :
    (a : KeyArbiter) (ev : ArbiterEvent)
    → length a.buffer < 8
    → buffer_push a ev ≡ record a { buffer = a.buffer ++ ev ∷ [] }
unfolding buffer_push
buffer_push-room a ev h =
    let room : leb max_buffered (length a.buffer) ≡ false = ground (arith, h) in rw room refl

buffer_push-full : (a : KeyArbiter) (ev : ArbiterEvent) → 8 ≤ length a.buffer → buffer_push a ev ≡ a
unfolding buffer_push
buffer_push-full a ev h =
    let full : leb max_buffered (length a.buffer) ≡ true = ground (arith, h) in rw full refl

state-cases : (s : ArbiterState) → (s ≡ arbiter_idle) ⊎ (s ≡ arbiter_buffering)
state-cases arbiter_idle = inl refl
state-cases arbiter_buffering = inr refl

buffering-not_idle : ¬ (arbiter_buffering ≡ arbiter_idle)
buffering-not_idle e = ground (arith, e)

-- An event pushed on a buffer with room.
pushed-Arbitrated :
    (fits : Type 0) (a b : KeyArbiter) (ev : ArbiterEvent)
    → b.state ≡ arbiter_buffering
    → b.buffer ≡ a.buffer
    → length a.buffer < 8
    → Arbitrated fits a ev ([], buffer_push b ev)
pushed-Arbitrated fits a b ev s e h = rw (buffer_push-room b ev (rw e h)) (record {
  kept = record {
    bounded = omega (arith, length-append b.buffer (ev ∷ []), ap length e);
    empty = λ idle. absurd (buffering-not_idle (sym s ∙ idle));
  };
  ordered = λ p. ap (λ t. t ++ ev ∷ []) e;
})

-- A release in a chord, which is pushed where there is room.
pushed_release-IsArbiter :
    (a : KeyArbiter) (ev : ArbiterEvent)
    → a.state ≡ arbiter_buffering
    → IsArbiter a
    → IsArbiter (buffer_push a ev)
pushed_release-IsArbiter a ev s o = elim (Bool-cases (leb 8 (length a.buffer))) [
  | inl e ↦ subst IsArbiter (sym (buffer_push-full a ev (ground (arith, e)))) o
  | inr e ↦ (pushed-Arbitrated Unit a a ev s refl (ground (arith, e))).kept
]

abbrev arbiter_of : ArbiterState → List ArbiterEvent → KeyArbiter
arbiter_of s buffer = record { state = s; buffer = buffer }

module _ (sy : Symbols) (binding physical : ℕ) (ev : ArbiterEvent) where
  press_at :
      (s : ArbiterState) (buffer : List ArbiterEvent)
      → let a = arbiter_of s buffer in
        IsArbiter a → Arbitrated Unit a ev (press sy binding physical ev a)
  unfolding press
  press_at arbiter_idle buffer o =
      let none = o.empty refl in
      let a = arbiter_of arbiter_idle buffer in
      if-Arbitrated a ev (should_start_buffering sy binding ev.keysym physical)
        (λ e.
          pushed-Arbitrated Unit a (record a { state = arbiter_buffering }) ev refl refl
            (rw none (omega arith)))
        (λ e. record { kept = o; ordered = λ p. rw none refl })
  press_at arbiter_buffering buffer o =
      let a = arbiter_of arbiter_buffering buffer in
      if-Arbitrated a ev
        (should_cancel sy binding ev.keysym physical true || leb (max_buffered - 1) (length buffer))
        (λ e. replayed-Arbitrated Unit a ev)
        (λ e. pushed-Arbitrated Unit a a ev refl refl (ground (arith, e)))

  release_at :
      (s : ArbiterState) (buffer : List ArbiterEvent)
      → let a = arbiter_of s buffer in
        IsArbiter a → Arbitrated (length buffer < 8) a ev (release sy binding physical ev a)
  unfolding release
  release_at arbiter_idle buffer o =
      let none = o.empty refl in record { kept = o; ordered = λ p. rw none refl }
  release_at arbiter_buffering buffer o =
      let a = arbiter_of arbiter_buffering buffer in
      if-Arbitrated a ev (should_cancel sy binding ev.keysym physical false)
        (λ e. replayed-Arbitrated (length buffer < 8) a ev)
        (λ e.
          if-Arbitrated a ev (chord_complete binding physical)
            (λ c. record {
              kept = init-IsArbiter;
              ordered =
                  λ p. append-nil _ ∙ append-nil _ ∙ ap (λ b. b.buffer) (buffer_push-room a ev p);
            })
            (λ c. record {
              kept = pushed_release-IsArbiter a ev refl o;
              ordered = λ p. ap (λ b. b.buffer) (buffer_push-room a ev p);
            }))

-- A release that comes in finds room in the buffer.
abbrev pub Fits : ArbiterEvent → KeyArbiter → Type 0
Fits ev a = ev.is_press ≡ false → length a.buffer < 8

module _ (sy : Symbols) (binding : ℕ) where
  arbitrate-Arbitrated :
      (physical : ℕ) (ev : ArbiterEvent) (a : KeyArbiter)
      → IsArbiter a
      → Arbitrated (Fits ev a) a ev (arbitrate sy binding physical ev a)
  arbitrate-Arbitrated physical ev a o =
      if-Arbitrated a ev ev.is_press
        (λ e.
          let r = press_at sy binding physical ev a.state a.buffer o in
          record { kept = r.kept; ordered = λ p. r.ordered tt })
        (λ e.
          let r = release_at sy binding physical ev a.state a.buffer o in
          record { kept = r.kept; ordered = λ p. r.ordered (p e) })

  -- Every release of a run finds room.
  abbrev pub FitAll : List (ℕ × ArbiterEvent) → KeyArbiter → Type 0
  FitAll [] a = Unit {0}
  FitAll ((physical, ev) ∷ inputs) a =
      Fits ev a × FitAll inputs (arbitrate sy binding physical ev a).1

  -- Whatever the events and the physical modifiers at them, the buffer is never longer than the
  -- array of eight, and an idle arbiter holds nothing.
  pub arbitrate_all-IsArbiter :
      (inputs : List (ℕ × ArbiterEvent)) (a : KeyArbiter)
      → IsArbiter a
      → IsArbiter (arbitrate_all sy binding inputs a).1
  unfolding arbitrate_all
  arbitrate_all-IsArbiter [] a o = o
  arbitrate_all-IsArbiter ((physical, ev) ∷ inputs) a o =
      arbitrate_all-IsArbiter inputs (arbitrate sy binding physical ev a).1
        (arbitrate-Arbitrated physical ev a o).kept

  -- In a run in which no release meets a full buffer, no key event is lost, doubled or moved past
  -- another: the events processed and consumed, followed by those still held, are the events held
  -- at first followed by those that came in.
  pub arbitrate_all-ordered :
      (inputs : List (ℕ × ArbiterEvent)) (a : KeyArbiter)
      → IsArbiter a
      → FitAll inputs a
      → let (actions, a') = arbitrate_all sy binding inputs a in
        events_of actions ++ a'.buffer ≡ a.buffer ++ map (λ i. i.1) inputs
  unfolding arbitrate_all
  arbitrate_all-ordered [] a o fits = sym (append-nil a.buffer)
  arbitrate_all-ordered ((physical, ev) ∷ inputs) a o fits =
      let (actions, a') = arbitrate sy binding physical ev a in
      let r = arbitrate-Arbitrated physical ev a o in
      let (more, a'') = arbitrate_all sy binding inputs a' in
      let ih = arbitrate_all-ordered inputs a' r.kept fits.1 in
      ap (λ t. t ++ a''.buffer) (events_of-append actions more)
      ∙ append_assoc (events_of actions) (events_of more) a''.buffer
      ∙ ap (λ t. events_of actions ++ t) ih
      ∙ sym (append_assoc (events_of actions) a'.buffer (map (λ i. i.1) inputs))
      ∙ ap (λ t. t ++ map (λ i. i.1) inputs) (r.ordered fits.0)
      ∙ append_assoc a.buffer (ev ∷ []) (map (λ i. i.1) inputs)

  -- A release that meets a full buffer is lost: unless it cancels the chord it is neither processed
  -- nor held, and where it completes the chord it is not among the events that are consumed.
  release_full-lost :
      (physical : ℕ) (ev : ArbiterEvent) (a : KeyArbiter)
      → a.state ≡ arbiter_buffering
      → 8 ≤ length a.buffer
      → should_cancel sy binding ev.keysym physical false ≡ false
      → release sy binding physical ev a ≡ (
          if chord_complete binding physical
          then (consumed a.buffer ∷ [], arbiter_init)
          else ([], a))
  unfolding release
  release_full-lost physical ev a s full go =
      rw s (rw (go, buffer_push-full (record a { state = arbiter_buffering }) ev full) refl)
