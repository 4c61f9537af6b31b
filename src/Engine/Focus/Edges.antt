-- ===== src/Engine/Focus/Edges.antt =====
-- The edges of a run of ticks (src/engine/focus_controller.c).
use typiod_wayland.Prelude.{
  ◌≡◌, refl, ◌↔◌, arith, ◌∙◌, Bool, true, false, not, ◌&&◌, List, [], ◌∷◌, if◌then◌else◌,
}
use typiod_wayland.Engine.Focus.{
  InputFacts, GrabWant, DesiredState, is_yes, wanted, reduce, ticks, classify_done,
  done_first_activate, done_deactivate, done_reactivate,
}

pub data Edge : Type 0 where
  edge_in : Edge
  edge_out : Edge

-- The focus notifications that a run sends to the engine, in their order.
abbrev pub edges : List DesiredState → List Edge
edges [] = []
edges (d ∷ run) =
    if d.focus_in
    then edge_in ∷ edges run
    else if d.focus_out
    then edge_out ∷ edges run
    else edges run

-- The engine's view: it alternates between being focused and not, and ends as the flag says.
abbrev pub Alternates : Bool → List Edge → Bool → Type 0
Alternates focused [] end = focused ≡ end
Alternates true (edge_in ∷ es) end = ⊥
Alternates true (edge_out ∷ es) end = Alternates false es end
Alternates false (edge_in ∷ es) end = Alternates true es end
Alternates false (edge_out ∷ es) end = ⊥

abbrev pub last : DesiredState → List DesiredState → DesiredState
last d [] = d
last d (d' ∷ run) = last d' run

-- The edge that a change of the wish sends keeps the alternation.
edge-Alternates :
    (p q : Bool) (es : List Edge) (end : Bool)
    → Alternates q es end
    → Alternates p
        (if q && not p then edge_in ∷ es else if not q && p then edge_out ∷ es else es)
        end
edge-Alternates true true es end h = h
edge-Alternates true false es end h = h
edge-Alternates false true es end h = h
edge-Alternates false false es end h = h

-- Whatever the facts, the focus notifications of a run alternate, the first one being a focus-in
-- exactly when the run starts without the wish for a grab, and after the last one the engine is
-- focused exactly when the last tick wants the grab.
pub ticks-Alternates :
    (d : DesiredState) (run : List InputFacts)
    → Alternates (is_yes d.grab) (edges (ticks d run)) (is_yes (last d (ticks d run)).grab)
unfolding ticks reduce
ticks-Alternates d [] = refl
ticks-Alternates d (facts ∷ run) =
    edge-Alternates (is_yes d.grab) (is_yes (wanted facts d.grab)) _ _
      (ticks-Alternates (reduce facts d) run)

-- Without an engine a run of ticks that starts unfocused never focuses the engine's context.
abbrev pub NoEngine : List InputFacts → Type 0
NoEngine [] = Unit {0}
NoEngine (facts ∷ run) = (facts.engine_present ≡ false) × NoEngine run

wanted_no_engine :
    (facts : InputFacts) (g : GrabWant)
    → facts.engine_present ≡ false
    → is_yes g ≡ false
    → is_yes (wanted facts g) ≡ false
unfolding wanted
wanted_no_engine facts g h idle = ground arith

no_edge :
    (p q : Bool) (es : List Edge)
    → p ≡ false
    → q ≡ false
    → (if q && not p then edge_in ∷ es else if not q && p then edge_out ∷ es else es) ≡ es
no_edge p q es h k = rw (h, k) refl

-- A run of ticks in which no engine is registered, starting without the wish for a grab, sends no
-- focus notification at all, whatever it activates.
pub edges-NoEngine :
    (d : DesiredState) (run : List InputFacts)
    → is_yes d.grab ≡ false
    → NoEngine run
    → edges (ticks d run) ≡ []
unfolding ticks reduce
edges-NoEngine d [] idle none = refl
edges-NoEngine d (facts ∷ run) idle none =
    let still = wanted_no_engine facts d.grab none.0 idle in
    no_edge (is_yes d.grab) (is_yes (wanted facts d.grab)) _ idle still
    ∙ edges-NoEngine (reduce facts d) run still none.1

-- The action of a `done` is the transition of the active flag, and on a flag that stays set a
-- reactivation is one with an activation in the batch.
pub classify_done_iff :
    (was now seen : Bool)
    → ((classify_done was now seen ≡ done_first_activate) ↔ (was ≡ false) × (now ≡ true))
      × ((classify_done was now seen ≡ done_deactivate) ↔ (was ≡ true) × (now ≡ false))
      × ((classify_done was now seen ≡ done_reactivate)
          ↔ (was ≡ true) × (now ≡ true) × (seen ≡ true))
unfolding classify_done
classify_done_iff was now seen = ground arith
