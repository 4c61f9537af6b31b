-- ===== src/Engine/Focus/Resume.antt =====
-- What follows a resume of the system (`reduce` of src/engine/focus_controller.c).
use typiod_wayland.Prelude.{◌≡◌, ap, true, false, not, ◌||◌, ◌&&◌, List, [], ◌∷◌, arith}
use typiod_wayland.Engine.Focus.{InputFacts, DesiredState, is_yes, reduce, wanted, ticks}

-- No tick of the run sees an activation.
abbrev pub NoneActivates : List InputFacts → Type 0
NoneActivates [] = Unit {0}
NoneActivates (facts ∷ run) =
    ((facts.im_activate_seen || facts.im_done_had_activate) ≡ false) × NoneActivates run

-- A tick that neither wants the keyboard nor focuses the context nor re-anchors the panel.
abbrev pub Rests : DesiredState → Type 0
Rests d = (is_yes d.grab ≡ false) × (d.focus_in ≡ false) × (d.reactivate ≡ false)

abbrev pub AllRest : List DesiredState → Type 0
AllRest [] = Unit {0}
AllRest (d ∷ ds) = Rests d × AllRest ds

unwanted-Rests :
    (facts : InputFacts) (prev : DesiredState)
    → is_yes (wanted facts prev.grab) ≡ false
    → Rests (reduce facts prev)
unfolding reduce
unwanted-Rests facts prev r = (
  r,
  ap (λ b. b && not (is_yes prev.grab)) r,
  ap (λ b. b && is_yes prev.grab && facts.im_done_had_activate) r,
)

ticks-rest :
    (run : List InputFacts) (prev : DesiredState)
    → is_yes prev.grab ≡ false
    → NoneActivates run
    → AllRest (ticks prev run)
unfolding ticks reduce wanted
ticks-rest [] prev rest still = tt
ticks-rest (facts ∷ run) prev rest still =
    let r = unwanted-Rests facts prev (ground (arith, rest, still.0)) in
    (r, ticks-rest run (reduce facts prev) r.0 still.1)

-- After a gap in which the system slept, or on a dead connection, no tick wants the keyboard, focuses
-- the context or re-anchors the panel before a tick that sees an activation, whatever the other
-- facts are.
pub ticks-AllRest :
    (facts : InputFacts) (prev : DesiredState) (run : List InputFacts)
    → (not facts.connection_alive || facts.suspend_gap_detected) ≡ true
    → NoneActivates run
    → AllRest (ticks prev (facts ∷ run))
unfolding ticks reduce wanted
ticks-AllRest facts prev run gap still =
    let r = unwanted-Rests facts prev (ground (arith, gap)) in
    (r, ticks-rest run (reduce facts prev) r.0 still)
