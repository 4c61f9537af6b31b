-- ===== src/InputMethod/Runs.antt =====
-- The serials of the commits of a run.
use mathlib.Core.Path.{subst}
use typiod_wayland.Prelude.{
  ℕ, ◌+◌, ◌<◌, ◌≡◌, refl, ◌∙◌, List, [], ◌∷◌, length, u32, if_both, ◌≤◌, arith,
}
use typiod_wayland.InputMethod.{
  InputMethod, frontend_of, im_handle_deactivate, im_handle_surrounding_text,
  im_handle_text_change_cause, im_handle_content_type, im_handle_unavailable, on_composition,
  request_ui_update,
}
use typiod_wayland.InputMethod.Events.{Event, step, count_done}
use typiod_wayland.InputMethod.Commits.{
  AddsCommits, Stamps-refl, same-Stamps, S, activate-S, commit-S, delete-S, flush-S, done-Stamps,
}

-- Each event's calls commit with the number of `done` events that had come by then, which started
-- at `n`, and only after the first.
abbrev pub Stamped : ℕ → InputMethod → List Event → Type 0
Stamped n im [] = Unit {0}
Stamped n im (ev ∷ evs) =
    AddsCommits (count_done ev n) (frontend_of im).out (frontend_of (step im ev)).out
    × Stamped (count_done ev n) (step im ev) evs

S-Counts :
    (n : ℕ) (im im2 : InputMethod)
    → (frontend_of im).im_serial ≡ n
    → S im im2
    → ((frontend_of im2).im_serial ≡ n) × AddsCommits n (frontend_of im).out (frontend_of im2).out
S-Counts n im im2 e s =
    (s.serial ∙ e, subst (λ m. AddsCommits m (frontend_of im).out (frontend_of im2).out) e s.adds)

pub step-Counts :
    (n : ℕ) (im : InputMethod) (ev : Event)
    → (frontend_of im).im_serial ≡ n
    → n + 1 < 4294967296
    → ((frontend_of (step im ev)).im_serial ≡ count_done ev n)
      × AddsCommits (count_done ev n) (frontend_of im).out (frontend_of (step im ev)).out
unfolding im_handle_deactivate im_handle_surrounding_text im_handle_text_change_cause
    im_handle_content_type im_handle_unavailable on_composition request_ui_update
step-Counts n im (Event.activate w) e h =
    S-Counts n im (step im (Event.activate w)) e (activate-S w im)
step-Counts n im Event.deactivate e h = S-Counts n im (step im Event.deactivate) e (
    if_both (S im) (frontend_of im).session (λ _. Stamps-refl (frontend_of im))
      (λ _. Stamps-refl (frontend_of im)))
step-Counts n im (Event.surrounding w text cursor anchor) e h =
    S-Counts n im (step im (Event.surrounding w text cursor anchor)) e (
      if_both (S im) (frontend_of im).session (λ _. Stamps-refl (frontend_of im))
        (λ _. Stamps-refl (frontend_of im)))
step-Counts n im (Event.change_cause cause) e h =
    S-Counts n im (step im (Event.change_cause cause)) e (
      if_both (S im) (frontend_of im).session (λ _. Stamps-refl (frontend_of im))
        (λ _. Stamps-refl (frontend_of im)))
step-Counts n im (Event.content_type hint purpose) e h =
    S-Counts n im (step im (Event.content_type hint purpose)) e (
      if_both (S im) (frontend_of im).session (λ _. Stamps-refl (frontend_of im))
        (λ _. Stamps-refl (frontend_of im)))
step-Counts n im Event.done e h =
    let d = done-Stamps im in
    let m : u32 ((frontend_of im).im_serial + 1) ≡ n + 1 = omega arith in
    (
      d.serial ∙ m,
      subst (λ k. AddsCommits k (frontend_of im).out (frontend_of (step im Event.done)).out) m
          d.adds,
    )
step-Counts n im Event.unavailable e h =
    S-Counts n im (step im Event.unavailable) e (same-Stamps refl refl)
step-Counts n im (Event.commit w text) e h =
    S-Counts n im (step im (Event.commit w text)) e (commit-S w text im)
step-Counts n im (Event.delete b a) e h =
    S-Counts n im (step im (Event.delete b a)) e (delete-S b a im)
step-Counts n im (Event.composition w c) e h =
    S-Counts n im (step im (Event.composition w c)) e (Stamps-refl (frontend_of im))
step-Counts n im (Event.flush w p) e h =
    S-Counts n im (step im (Event.flush w p)) e (flush-S w p im)

pub count_done_le : (ev : Event) (n : ℕ) → count_done ev n ≤ n + 1
count_done_le Event.done n = omega arith
count_done_le _ n = omega arith

-- In every run, whatever the events and their order, each commit that reaches the compositor
-- carries the number of `done` events received so far, and none is sent before the first one: for
-- fewer than 2 ^ 32 of them.
pub run-Stamped :
    (n : ℕ) (im : InputMethod) (evs : List Event)
    → (frontend_of im).im_serial ≡ n
    → n + length evs < 4294967296
    → Stamped n im evs
run-Stamped n im [] e h = tt
run-Stamped n im (ev ∷ evs) e h =
    let (serial, adds) = step-Counts n im ev e (omega arith) in
    (
      adds,
      run-Stamped (count_done ev n) (step im ev) evs serial (omega (arith, count_done_le ev n)),
    )
