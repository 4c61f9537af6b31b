-- ===== src/InputMethod/Batch.antt =====
-- A batch of the compositor: what comes before a `done` is applied at once by it, and only an
-- activation or a deactivation in the batch changes the focus.
use mathlib.Core.List.{append-nil}
use mathlib.Core.Path.{subst}
use typiod_wayland.Prelude.{
  ℕ, ◌≡◌, refl, sym, ap, ap₂, ◌∙◌, Bool, true, false, not, ◌&&◌, List, [], ◌∷◌, ◌++◌, Option, none,
  some, u32, ◌+◌, if◌then◌else◌, if-true, Option-cases, inl, inr,
}
use typiod_wayland.Engine.Focus.{
  InputFacts, DesiredState, GrabWant, want_none, want_soft_pause, want_yes, wanted, reduce, is_yes,
}
use typiod_wayland.Keyboard.State.{Frontend, Call, call, set_surrounding}
use typiod_wayland.InputMethod.{
  InputMethod, TextState, frontend_of, on_pending, kept_text, im_handle_surrounding_text,
  im_handle_text_change_cause, im_handle_content_type, im_handle_done, session_apply_pending,
  tell_surrounding, batch_facts,
}
use typiod_wayland.InputMethod.Events.{Event, run}

-- The events that describe the text field.
abbrev pub IsText : Event → Type 0
IsText (Event.surrounding w text cursor anchor) = Unit {0}
IsText (Event.change_cause cause) = Unit {0}
IsText (Event.content_type hint purpose) = Unit {0}
IsText _ = ⊥

abbrev pub AllText : List Event → Type 0
AllText [] = Unit {0}
AllText (ev ∷ evs) = IsText ev × AllText evs

-- The last of the values that the batch gives, or else the one from before.
abbrev pub last_surrounding : Option (List ℕ) × ℕ × ℕ → List Event → Option (List ℕ) × ℕ × ℕ
last_surrounding before [] = before
last_surrounding before (Event.surrounding w text cursor anchor ∷ evs) =
    last_surrounding (kept_text w text, cursor, anchor) evs
last_surrounding before (ev ∷ evs) = last_surrounding before evs

abbrev pub last_content : ℕ × ℕ → List Event → ℕ × ℕ
last_content before [] = before
last_content before (Event.content_type hint purpose ∷ evs) = last_content (hint, purpose) evs
last_content before (ev ∷ evs) = last_content before evs

abbrev pub batch_text : TextState → List Event → TextState
batch_text t evs =
    let (text, cursor, anchor) = last_surrounding (t.surrounding_text, t.cursor, t.anchor) evs in
    let (hint, purpose) = last_content (t.content_hint, t.content_purpose) evs in
    record {
      surrounding_text = text;
      cursor = cursor;
      anchor = anchor;
      content_hint = hint;
      content_purpose = purpose;
    }

-- What a batch leaves as it was, and what it leaves pending.
record IsBatch (im b : InputMethod) (evs : List Event) : Type 0 where
  frontend : frontend_of b ≡ frontend_of im
  facts : b.facts ≡ im.facts
  current : b.session.current ≡ im.session.current
  pending : b.session.pending.text ≡ batch_text im.session.pending.text evs

run-IsBatch :
    (im : InputMethod) (evs : List Event)
    → (frontend_of im).session ≡ true
    → AllText evs
    → IsBatch im (run im evs) evs
unfolding im_handle_surrounding_text im_handle_text_change_cause im_handle_content_type
run-IsBatch im [] s h = record { frontend = refl; facts = refl; current = refl; pending = refl }
run-IsBatch im (Event.surrounding w text cursor anchor ∷ evs) s h =
    let x =
      on_pending
        (λ p. record p {
          text = record p.text {
            surrounding_text = kept_text w text;
            cursor = cursor;
            anchor = anchor;
          };
        })
        im in
    let b = run-IsBatch x evs s h.1 in
    subst (λ y. IsBatch im (run y evs) (Event.surrounding w text cursor anchor ∷ evs))
      (sym (if-true _ _ (frontend_of im).session s))
      (record { frontend = b.frontend; facts = b.facts; current = b.current; pending = b.pending })
run-IsBatch im (Event.change_cause cause ∷ evs) s h =
    let x = on_pending (λ p. record p { text_change_cause = cause }) im in
    let b = run-IsBatch x evs s h.1 in
    subst (λ y. IsBatch im (run y evs) (Event.change_cause cause ∷ evs))
      (sym (if-true _ _ (frontend_of im).session s))
      (record { frontend = b.frontend; facts = b.facts; current = b.current; pending = b.pending })
run-IsBatch im (Event.content_type hint purpose ∷ evs) s h =
    let x =
      on_pending
        (λ p. record p { text = record p.text { content_hint = hint; content_purpose = purpose } })
        im in
    let b = run-IsBatch x evs s h.1 in
    subst (λ y. IsBatch im (run y evs) (Event.content_type hint purpose ∷ evs))
      (sym (if-true _ _ (frontend_of im).session s))
      (record { frontend = b.frontend; facts = b.facts; current = b.current; pending = b.pending })
run-IsBatch im (ev ∷ evs) s h = absurd h.0

-- The call that `done` makes, if any.
abbrev pub told : TextState → Bool → List Call
told t ctx = elim t.surrounding_text [
  | none ↦ []
  | some text ↦ if ctx then set_surrounding text t.cursor t.anchor ∷ [] else []
]

tell_if :
    (c : Call) (f : Frontend) (b : Bool)
    → (if b then call c f else f).out ≡ f.out ++ (if b then c ∷ [] else [])
tell_if c f true = refl
tell_if c f false = sym (append-nil f.out)

tell-out : (t : TextState) (f : Frontend) → (tell_surrounding t f).out ≡ f.out ++ told t f.ctx
tell-out t f = elim (Option-cases t.surrounding_text) [
  | inl e ↦ rw e (sym (append-nil f.out))
  | inr (text, e) ↦ rw e (tell_if (set_surrounding text t.cursor t.anchor) f f.ctx)
]

-- With a session: what the compositor says of the text field before a `done` is neither applied nor
-- told to the engine until then; the `done` applies the last text and the last content type that
-- the batch gives (those from before where it gives none, but no text from before the last `done`),
-- and tells the engine the text once, where there is one.
pub done-batch :
    (im : InputMethod) (evs : List Event)
    → (frontend_of im).session ≡ true
    → AllText evs
    → let b = run im evs in
      let t = batch_text im.session.pending.text evs in
      ((frontend_of b).out ≡ (frontend_of im).out)
      × (b.session.current ≡ im.session.current)
      × ((im_handle_done b).session.current ≡ t)
      × ((im_handle_done b).session.pending.text.surrounding_text ≡ none)
      × ((frontend_of (im_handle_done b)).out ≡ (frontend_of im).out ++ told t (frontend_of im).ctx)
unfolding im_handle_done session_apply_pending
done-batch im evs s h =
    let b = run im evs in
    let is = run-IsBatch im evs s h in
    let counted = record (frontend_of b) { im_serial = u32 ((frontend_of b).im_serial + 1) } in
    let e =
      if-true _ _ (frontend_of b).session
        (ap (λ (f : Frontend). f.session) (IsBatch.frontend is) ∙ s) in
    (
      ap (λ (f : Frontend). f.out) (IsBatch.frontend is),
      IsBatch.current is,
      ap (λ (x : InputMethod). x.session.current) e ∙ IsBatch.pending is,
      ap (λ (x : InputMethod). x.session.pending.text.surrounding_text) e,
      ap (λ (x : InputMethod). (frontend_of x).out) e
          ∙ tell-out b.session.pending.text counted
          ∙ ap₂ (λ (f : Frontend) (t : TextState). f.out ++ told t f.ctx) (IsBatch.frontend is)
              (IsBatch.pending is),
    )

-- The facts of a tick with no event yet; the connection is alive.
abbrev pub quiet_facts : Bool → InputFacts
quiet_facts engine = record {
  im_activate_seen = false;
  im_deactivate_seen = false;
  im_done_had_activate = false;
  im_done_had_deactivate = false;
  connection_alive = true;
  suspend_gap_detected = false;
  engine_present = engine;
}

same_grab : (g : GrabWant) → (is_yes g && not (is_yes g)) ≡ false
same_grab want_none = refl
same_grab want_soft_pause = refl
same_grab want_yes = refl

not_grab : (g : GrabWant) → (not (is_yes g) && is_yes g) ≡ false
not_grab want_none = refl
not_grab want_soft_pause = refl
not_grab want_yes = refl

no_reactivation : (g : GrabWant) → (is_yes g && is_yes g && false) ≡ false
no_reactivation want_none = refl
no_reactivation want_soft_pause = refl
no_reactivation want_yes = refl

-- A `done` whose batch only describes the text field, in a tick with no other event, changes no
-- focus: the controller wants what it wanted, and neither focuses, unfocuses nor reactivates the
-- engine, so that no composition is disturbed by it.
pub reduce-done :
    (im : InputMethod) (evs : List Event) (engine : Bool) (prev : DesiredState)
    → (frontend_of im).session ≡ true
    → AllText evs
    → im.facts ≡ quiet_facts engine
    → reduce (im_handle_done (run im evs)).facts prev
      ≡ record { grab = prev.grab; focus_in = false; focus_out = false; reactivate = false }
unfolding im_handle_done session_apply_pending reduce wanted
reduce-done im evs engine prev s h q =
    let b = run im evs in
    let is = run-IsBatch im evs s h in
    let e =
      if-true _ _ (frontend_of b).session
        (ap (λ (f : Frontend). f.session) (IsBatch.frontend is) ∙ s) in
    let f = ap (λ (x : InputMethod). x.facts) e ∙ ap batch_facts (IsBatch.facts is ∙ q) in
    ap (λ x. reduce x prev) f
    ∙ rw (same_grab prev.grab, not_grab prev.grab, no_reactivation prev.grab) refl
