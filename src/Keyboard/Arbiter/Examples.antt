-- ===== src/Keyboard/Arbiter/Examples.antt =====
-- Runs of the arbiter on the Ctrl+Shift chord, and the theorems at them.
use typiod_wayland.Prelude.{ℕ, ◌≡◌, refl, Bool, true, false, List, [], ◌∷◌, ◌++◌, map, arith}
use typiod_wayland.Keyboard.State.{ArbiterEvent}
use typiod_wayland.Keyboard.Arbiter.{
  Symbols, arbiter_init, processed, consumed, events_of, arbitrate_all, press, release,
  is_switch_modifier, should_start_buffering, should_cancel, buffer_push,
}
use typiod_wayland.Keyboard.Arbiter.Order.{
  IsArbiter, init-IsArbiter, arbitrate_all-IsArbiter, arbitrate_all-ordered,
}

abbrev symbols : Symbols
symbols = record {
  mod_ctrl = 2;
  mod_shift = 1;
  mod_alt = 4;
  mod_super = 8;
  control_l = 65507;
  control_r = 65508;
  shift_l = 65505;
  shift_r = 65506;
  alt_l = 65513;
  alt_r = 65514;
  super_l = 65515;
  super_r = 65516;
}

abbrev event : Bool → ℕ → ℕ → ArbiterEvent
event is_press key keysym = record {
  is_press = is_press;
  key = key;
  keysym = keysym;
  modifiers = 0;
  unicode = 0;
  time = 0;
}

abbrev ctrl_down : ℕ × ArbiterEvent
ctrl_down = (2, event true 29 65507)

abbrev shift_down : ℕ × ArbiterEvent
shift_down = (3, event true 42 65505)

abbrev shift_up : ℕ × ArbiterEvent
shift_up = (2, event false 42 65505)

abbrev ctrl_up : ℕ × ArbiterEvent
ctrl_up = (0, event false 29 65507)

-- The chord: Ctrl goes to the application, the rest is consumed.
abbrev chord : List (ℕ × ArbiterEvent)
chord = ctrl_down ∷ shift_down ∷ shift_up ∷ ctrl_up ∷ []

chord_consumed :
    (arbitrate_all symbols 3 chord arbiter_init).0
    ≡ processed ctrl_down.1 ∷ consumed (shift_down.1 ∷ shift_up.1 ∷ ctrl_up.1 ∷ []) ∷ []
unfolding arbitrate_all press release should_start_buffering should_cancel is_switch_modifier
    buffer_push
chord_consumed = refl

-- With Ctrl held, Shift is tapped four times: the release of Ctrl is lost.
abbrev four_taps : List (ℕ × ArbiterEvent)
four_taps =
    ctrl_down ∷ shift_down ∷ shift_up ∷ shift_down ∷ shift_up ∷ shift_down ∷ shift_up ∷ shift_down
    ∷ shift_up ∷ ctrl_up ∷ []

four_taps-lose_ctrl :
    (arbitrate_all symbols 3 four_taps arbiter_init).0
    ≡ processed ctrl_down.1
      ∷ consumed (
          shift_down.1 ∷ shift_up.1 ∷ shift_down.1 ∷ shift_up.1 ∷ shift_down.1 ∷ shift_up.1
          ∷ shift_down.1 ∷ shift_up.1 ∷ [])
      ∷ []
unfolding arbitrate_all press release should_start_buffering should_cancel is_switch_modifier
    buffer_push
four_taps-lose_ctrl = refl

arbitrate_all-IsArbiter_example : IsArbiter (arbitrate_all symbols 3 four_taps arbiter_init).1
arbitrate_all-IsArbiter_example =
    arbitrate_all-IsArbiter symbols 3 four_taps arbiter_init init-IsArbiter

arbitrate_all-ordered_example :
    events_of (arbitrate_all symbols 3 chord arbiter_init).0
      ++ (arbitrate_all symbols 3 chord arbiter_init).1.buffer
    ≡ map (λ i. i.1) chord
unfolding press release should_start_buffering should_cancel is_switch_modifier buffer_push
arbitrate_all-ordered_example =
    arbitrate_all-ordered symbols 3 chord arbiter_init init-IsArbiter
      (λ h. omega arith, (λ h. omega arith, (λ h. omega arith, (λ h. omega arith, tt))))
