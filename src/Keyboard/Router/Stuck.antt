-- ===== src/Keyboard/Router/Stuck.antt =====
-- What follows a release that the candidate guard takes (src/wayland/keyboard/router.c).
use typiod_wayland.Prelude.{
  ℕ, ◌<◌, ◌≡◌, ◌≢◌, sym, ◌∙◌, ap, true, false, length, ◌==◌, Bool-cases, inl, inr, arith,
}
use typiod_wayland.Keyboard.State.{Frontend, idle, forwarded, Keyboard, ArbiterEvent, is_vk_ready}
use typiod_wayland.Keyboard.Tracker.{get_state}
use typiod_wayland.Keyboard.Router.{Host, Route}
use typiod_wayland.Keyboard.Router.Press.{process_press}
use typiod_wayland.Keyboard.Router.Release.{process_release, guard_takes}
use typiod_wayland.Keyboard.Router.Down.{is_down, down_from}
use typiod_wayland.Keyboard.Router.Steps.{IsBalanced, IsOwed, IsStep}
use typiod_wayland.Keyboard.Router.Presses.{process_press-IsOk}
use typiod_wayland.Keyboard.Router.Releases.{process_release-down, process_release-withheld}

-- Down for the application and tracked as idle, while the router's invariant holds of the others.
record IsStuck (key : ℕ) (f : Frontend) : Type 0 where
  sized : length f.tracker.states ≡ 512
  others : (k : ℕ) → k ≢ key → IsOwed k f
  down : is_down key f ≡ true
  state : get_state f.tracker key ≡ idle

-- A step of another key.
step-IsStuck :
    (key other : ℕ) (f g : Frontend)
    → other ≢ key
    → IsStep other f g
    → IsOwed other g
    → IsStuck key f
    → IsStuck key g
step-IsStuck key other f g n s own b =
    let back : key ≢ other = λ e. n (sym e) in
    record {
      sized = s.sized ∙ b.sized;
      others = λ k ne d. elim (Bool-cases (k == other)) [
        | inl e ↦ let eq : k ≡ other = ground (arith, e) in rw eq (own (rw (← eq) d))
        | inr e ↦
            let far : k ≢ other = ground (arith, e) in
            rw (s.state k far) (b.others k ne (sym (s.down k far) ∙ d))
      ];
      down = s.down key back ∙ b.down;
      state = s.state key back ∙ b.state;
    }

module _ {Context : Type 0} (host : Host Context) where
  -- A run of events of other keys, on the conditions of the router's invariant.
  pub data LeavesAlone (key : ℕ) : Route Context → Route Context → Type 0 where
    done : (r : Route Context) → LeavesAlone key r r
    pressed :
        (now : ℕ) (k : Keyboard) (ev : ArbiterEvent) (r r' : Route Context)
        → ev.key < 512
        → ev.key ≢ key
        → LeavesAlone key (process_press host now k ev r) r'
        → LeavesAlone key r r'
    released :
        (now : ℕ) (k : Keyboard) (ev : ArbiterEvent) (r r' : Route Context)
        → is_vk_ready r.frontend.vk.state ≡ true
        → (get_state r.frontend.tracker ev.key ≡ forwarded → guard_takes host ev r ≡ false)
        → ev.key ≢ key
        → LeavesAlone key (process_release host now k ev r) r'
        → LeavesAlone key r r'

  run-IsStuck :
      (key : ℕ) (r r' : Route Context)
      → LeavesAlone key r r'
      → IsStuck key r.frontend
      → IsStuck key r'.frontend
  run-IsStuck key r r' (done _) b = b
  run-IsStuck key r r' (pressed now k ev _ _ h n run) b =
      let ok =
        process_press-IsOk host now k ev r h
          (record { sized = b.sized; owed = b.others ev.key n }) in
      run-IsStuck key _ r' run (step-IsStuck key ev.key _ _ n ok.step ok.owed b)
  run-IsStuck key r r' (released now k ev _ _ v g n run) b =
      let (step, up) = process_release-down host now k ev r v g (b.others ev.key n) in
      run-IsStuck key _ r' run
        (step-IsStuck key ev.key _ _ n step (λ d. absurd (ground (arith, up, d))) b)

  -- Where the router's invariant holds, a forwarded key is down for the application, and the
  -- candidate guard takes its release: after any run of presses of tracked keys and of releases,
  -- each with the virtual keyboard ready and, of a forwarded key, not taken by the guard, none of
  -- them of that key, the key is still down for the application, and tracked as idle.
  pub withheld-is_down :
      (now : ℕ) (k : Keyboard) (ev : ArbiterEvent) (r r' : Route Context)
      → IsBalanced r.frontend
      → get_state r.frontend.tracker ev.key ≡ forwarded
      → is_down ev.key r.frontend ≡ true
      → guard_takes host ev r ≡ true
      → LeavesAlone ev.key (process_release host now k ev r) r'
      → (is_down ev.key r'.frontend ≡ true) × (get_state r'.frontend.tracker ev.key ≡ idle)
  withheld-is_down now k ev r r' b e d g run =
      let (out, state, step) = process_release-withheld host now k ev r e g in
      let s = run-IsStuck ev.key _ r' run (record {
        sized = step.sized ∙ b.sized;
        others = λ j n h. rw (step.state j n) (b.owed j (sym (step.down j n) ∙ h));
        down = ap (down_from ev.key false) out ∙ d;
        state = state;
      }) in
      (IsStuck.down s, IsStuck.state s)
