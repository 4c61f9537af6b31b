-- ===== src/Keyboard/Router/Runs.antt =====
-- Runs of the router: presses and releases in any order (src/wayland/keyboard/router.c).
use typiod_wayland.Prelude.{ℕ, ◌<◌, ◌≡◌, true, false}
use typiod_wayland.Keyboard.State.{forwarded, Keyboard, ArbiterEvent, is_vk_ready}
use typiod_wayland.Keyboard.Tracker.{get_state}
use typiod_wayland.Keyboard.Router.{Host, Route}
use typiod_wayland.Keyboard.Router.Press.{process_press}
use typiod_wayland.Keyboard.Router.Release.{process_release, guard_takes}
use typiod_wayland.Keyboard.Router.Down.{is_down}
use typiod_wayland.Keyboard.Router.Steps.{IsBalanced, owes_release, not_owed-down}
use typiod_wayland.Keyboard.Router.Presses.{process_press-IsBalanced}
use typiod_wayland.Keyboard.Router.Releases.{process_release-IsBalanced}

module _ {Context : Type 0} (host : Host Context) where
  -- One event on a frontend whose virtual keyboard is ready at a release, and whose candidate
  -- guard leaves the releases of forwarded keys alone.
  pub data IsRouted : Route Context → Route Context → Type 0 where
    done : (r : Route Context) → IsRouted r r
    pressed :
        (now : ℕ) (k : Keyboard) (ev : ArbiterEvent) (r r' : Route Context)
        → ev.key < 512
        → IsRouted (process_press host now k ev r) r'
        → IsRouted r r'
    released :
        (now : ℕ) (k : Keyboard) (ev : ArbiterEvent) (r r' : Route Context)
        → is_vk_ready r.frontend.vk.state ≡ true
        → (get_state r.frontend.tracker ev.key ≡ forwarded → guard_takes host ev r ≡ false)
        → IsRouted (process_release host now k ev r) r'
        → IsRouted r r'

  routed-IsBalanced :
      (r r' : Route Context) → IsRouted r r' → IsBalanced r.frontend → IsBalanced r'.frontend
  routed-IsBalanced r r' (done _) b = b
  routed-IsBalanced r r' (pressed now k ev _ _ h run) b =
      routed-IsBalanced _ r' run (process_press-IsBalanced host now k ev r h b)
  routed-IsBalanced r r' (released now k ev _ _ v g run) b =
      routed-IsBalanced _ r' run (process_release-IsBalanced host now k ev r v g b).0

  -- After any run of presses of tracked keys and of releases, each release with the virtual
  -- keyboard ready and not taken by the candidate guard from a forwarded key: a key whose state
  -- owes no release is up for the application.
  pub routed_up :
      (r r' : Route Context) (key : ℕ)
      → IsBalanced r.frontend
      → IsRouted r r'
      → owes_release (get_state r'.frontend.tracker key) ≡ false
      → is_down key r'.frontend ≡ false
  routed_up r r' key b run o = not_owed-down key r'.frontend (routed-IsBalanced r r' run b) o
