-- ===== src/Engine/Focus/Examples.antt =====
-- Runs of the focus controller, and the theorems at them.
use typiod_wayland.Prelude.{◌≡◌, refl, true, false, List, [], ◌∷◌}
use typiod_wayland.Engine.Focus.{
  reduce, wanted, InputFacts, want_none, want_yes, needs_keymap, broken, DesiredState, ActualState,
  ticks, is_yes,
}
use typiod_wayland.Engine.Focus.Resume.{AllRest, ticks-AllRest}
use typiod_wayland.Engine.Focus.Edges.{edge_in, edge_out, edges, Alternates, ticks-Alternates, last}

-- The facts of a tick without events.
abbrev quiet : InputFacts
quiet = record {
  im_activate_seen = false;
  im_deactivate_seen = false;
  im_done_had_activate = false;
  im_done_had_deactivate = false;
  connection_alive = true;
  suspend_gap_detected = false;
  engine_present = true;
}

abbrev idle : DesiredState
idle = record { grab = want_none; focus_in = false; focus_out = false; reactivate = false }

-- A focus, a move to another field, a defocus and a focus again.
abbrev visit : List InputFacts
visit =
    record quiet { im_done_had_activate = true }
    ∷ quiet
    ∷ record quiet { im_done_had_activate = true; im_done_had_deactivate = true }
    ∷ record quiet { im_done_had_deactivate = true }
    ∷ record quiet { im_activate_seen = true }
    ∷ []

edges-visit : edges (ticks idle visit) ≡ edge_in ∷ edge_out ∷ edge_in ∷ []
unfolding ticks reduce wanted
edges-visit = refl

ticks-Alternates_example :
    Alternates false (edges (ticks idle visit)) (is_yes (last idle (ticks idle visit)).grab)
ticks-Alternates_example = ticks-Alternates idle visit

abbrev without_engine : List InputFacts
without_engine =
    record quiet { im_activate_seen = true; engine_present = false }
    ∷ record quiet { im_done_had_deactivate = true; engine_present = false }
    ∷ []

abbrev wanting : DesiredState
wanting = record { grab = want_yes; focus_in = true; focus_out = false; reactivate = false }

abbrev failed : ActualState
failed = record { connection_alive = true; ic_focused = false; grab = broken }

abbrev waiting : ActualState
waiting = record { connection_alive = true; ic_focused = true; grab = needs_keymap }

-- After the resume: other ticks, and a defocus.
abbrev slept : List InputFacts
slept = quiet ∷ record quiet { im_done_had_deactivate = true } ∷ quiet ∷ []

ticks-AllRest_example :
    AllRest (ticks wanting (record quiet { suspend_gap_detected = true } ∷ slept))
ticks-AllRest_example =
    ticks-AllRest (record quiet { suspend_gap_detected = true }) wanting slept refl
      (refl, (refl, (refl, tt)))
