-- ===== src/Identity/Recent.antt =====
-- Serials are handed out in the order of the compositor's events
-- (src/wayland/foreign/identity.c).
use typiod_wayland.Prelude.{ℕ, ◌≤◌, ◌<◌, List, [], ◌∷◌, Option, none, some}
use typiod_wayland.Identity.{Toplevel, Provider}

-- Every serial of the toplevels is below `n`.
abbrev Below : ℕ → List Toplevel → Type 0
Below n [] = Unit {0}
Below n (t ∷ ts) = (t.serial < n) × Below n ts

-- The next serial is above those handed out, and at most `n`.
record IsCounted (n : ℕ) (p : Provider) : Type 0 where
  below : Below p.next_serial p.toplevels
  bound : p.next_serial ≤ n

-- A provider, where it is defined, whose serials are counted.
abbrev Counted : ℕ → Option Provider → Type 0
Counted n none = Unit {0}
Counted n (some p) = IsCounted n p

-- The handle of a toplevel that may be there.
abbrev pub handle_of : Option Toplevel → Option ℕ
handle_of none = none
handle_of (some t) = some t.handle
