-- ===== src/Engine/Focus.antt =====
-- The focus controller's pure half (src/engine/focus_controller.h and focus_controller.c).
-- The names that tracing prints are left out.
pub mod Edges
pub mod Converge
pub mod Resume
mod Examples
use typiod_wayland.Prelude.{Bool, true, false, not, ◌&&◌, ◌||◌, if◌then◌else◌, List, [], ◌∷◌}

-- The facts of one tick. The serial of the last `done` is recorded and never read here.
pub record InputFacts : Type 0 where
  pub im_activate_seen : Bool
  pub im_deactivate_seen : Bool
  pub im_done_had_activate : Bool
  pub im_done_had_deactivate : Bool
  pub connection_alive : Bool
  pub suspend_gap_detected : Bool
  pub engine_present : Bool

pub data GrabWant : Type 0 where
  want_none : GrabWant
  want_soft_pause : GrabWant
  want_yes : GrabWant

pub record DesiredState : Type 0 where
  pub grab : GrabWant
  pub focus_in : Bool
  pub focus_out : Bool
  pub reactivate : Bool

pub data GrabResourceState : Type 0 where
  absent : GrabResourceState
  needs_keymap : GrabResourceState
  ready : GrabResourceState
  broken : GrabResourceState

pub record ActualState : Type 0 where
  pub connection_alive : Bool
  pub ic_focused : Bool
  pub grab : GrabResourceState

pub record EffectSet : Type 0 where
  pub destroy_grab : Bool
  pub create_grab : Bool
  pub scrub_generation : Bool
  pub send_focus_in : Bool
  pub send_focus_out : Bool
  pub discard_composition : Bool
  pub clear_preedit : Bool
  pub commit : Bool
  pub reactivate : Bool

-- The tests `==` on the enumerations.
abbrev pub is_yes : GrabWant → Bool
is_yes want_yes = true
is_yes _ = false

abbrev pub is_none : GrabWant → Bool
is_none want_none = true
is_none _ = false

abbrev pub is_absent : GrabResourceState → Bool
is_absent absent = true
is_absent _ = false

abbrev pub is_broken : GrabResourceState → Bool
is_broken broken = true
is_broken _ = false

-- The grab that the facts of a tick ask for.
unfoldable pub wanted : InputFacts → GrabWant → GrabWant
wanted facts prev =
    if not facts.connection_alive || facts.suspend_gap_detected
    then want_none
    else if facts.im_activate_seen || facts.im_done_had_activate
    then (if facts.engine_present then want_yes else want_none)
    else if facts.im_deactivate_seen || facts.im_done_had_deactivate
    then want_soft_pause
    else prev

-- `typio_wl_focus_reduce`; only the grab of the previous desired state is read.
unfoldable pub reduce : InputFacts → DesiredState → DesiredState
reduce facts prev =
    let g = wanted facts prev.grab in
    record {
      grab = g;
      focus_in = is_yes g && not (is_yes prev.grab);
      focus_out = not (is_yes g) && is_yes prev.grab;
      reactivate = is_yes g && is_yes prev.grab && facts.im_done_had_activate;
    }

-- `typio_wl_focus_diff`: each effect is set by the branches that name it.
unfoldable pub diff : DesiredState → ActualState → EffectSet
diff desired actual =
    let teardown = is_none desired.grab && not (is_absent actual.grab) in
    let creation = not (is_none desired.grab) && is_absent actual.grab in
    let recovery = is_yes desired.grab && is_broken actual.grab in
    record {
      destroy_grab = teardown || recovery;
      create_grab = creation || recovery;
      scrub_generation = teardown || creation || recovery;
      send_focus_in = desired.focus_in;
      send_focus_out = desired.focus_out;
      discard_composition = teardown || desired.focus_out;
      clear_preedit = teardown || desired.focus_out;
      commit = teardown || desired.focus_out;
      reactivate = desired.reactivate;
    }

pub data DoneAction : Type 0 where
  done_noop : DoneAction
  done_first_activate : DoneAction
  done_deactivate : DoneAction
  done_reactivate : DoneAction

unfoldable pub classify_done : Bool → Bool → Bool → DoneAction
classify_done was_active now_active activate_seen =
    if now_active && not was_active
    then done_first_activate
    else if was_active && not now_active
    then done_deactivate
    else if was_active && (now_active && activate_seen)
    then done_reactivate
    else done_noop

unfoldable pub can_route_keys : ActualState → Bool
can_route_keys actual = actual.ic_focused && (elim actual.grab [ ready ↦ true | _ ↦ false ])

unfoldable pub can_route_modifiers : ActualState → Bool
can_route_modifiers actual = elim actual.grab [ needs_keymap ↦ true | ready ↦ true | _ ↦ false ]

unfoldable pub is_transitioning : ActualState → Bool
is_transitioning actual =
    actual.ic_focused
    && (elim actual.grab [ absent ↦ true | needs_keymap ↦ true | broken ↦ true | ready ↦ false ])

-- The desired states of a run of ticks, each reduced from the one before.
unfoldable pub ticks : DesiredState → List InputFacts → List DesiredState
ticks prev [] = []
ticks prev (facts ∷ run) = reduce facts prev ∷ ticks (reduce facts prev) run
