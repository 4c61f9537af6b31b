-- ===== src/Glyph/Pack/Examples.antt =====
-- Runs of the shelf packer, and the theorems at them.
use typiod_wayland.Prelude.{ℕ, ◌≡◌, refl, List, [], ◌∷◌, arith}
use typiod_wayland.Glyph.Pack.{empty, wrap_shelf, place_on_shelf, place, pack}
use typiod_wayland.Glyph.Pack.Bounds.{IsPacked, pack-IsPacked}

-- Two rows, and a cell that no longer fits below them.
abbrev cells : List (ℕ × ℕ)
cells = (10, 12) ∷ (15, 9) ∷ (8, 8) ∷ (30, 10) ∷ []

pack-cells :
    (pack 32 1 empty [] cells).0
    ≡ record { u = 0; v = 13; w = 8; h = 8 }
      ∷ record { u = 11; v = 0; w = 15; h = 9 }
      ∷ record { u = 0; v = 0; w = 10; h = 12 }
      ∷ []
unfolding pack place wrap_shelf place_on_shelf
pack-cells = refl

pack-IsPacked_example : IsPacked 32 1 (pack 32 1 empty [] cells).0
pack-IsPacked_example = pack-IsPacked 32 1 cells (omega arith) (omega arith)
