-- ===== src/Identity/Examples.antt =====
-- Toplevels and a memory at concrete states.
use typiod_wayland.Prelude.{ℕ, ◌≡◌, refl, true, false, List, [], ◌∷◌, none, some}
use typiod_wayland.Identity.{Toplevel, Provider, new_provider, list_toplevel, handle_text}
use typiod_wayland.Identity.Newest.{Event, run}

-- Two windows, of which the first was changed last.
abbrev windows : List Event
windows =
    Event.bound true 1
    ∷ Event.global true
    ∷ Event.toplevel true 5
    ∷ Event.text false
    ∷ Event.toplevel true 6
    ∷ Event.done 5
    ∷ []

abbrev window : ℕ → ℕ → Toplevel
window handle serial = record {
  handle = handle;
  app_id = none;
  title = none;
  identifier = none;
  serial = serial;
}

abbrev advertised : Provider
advertised = record {
  display = some 1;
  registry = true;
  list = true;
  toplevels = window 6 2 ∷ window 5 3 ∷ [];
  current = some (window 5 3);
  next_serial = 4;
}

-- A copied text makes the behaviour undefined.
titled : run (Event.toplevel true 5 ∷ Event.text true ∷ []) (some new_provider) ≡ none
unfolding list_toplevel handle_text
titled = refl
