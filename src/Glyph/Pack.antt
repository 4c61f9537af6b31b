-- ===== src/Glyph/Pack.antt =====
-- The shelf packer of the glyph atlas (src/ui/panel/glyph_pack.h and glyph_pack.c).
pub mod Bounds
mod Examples
use typiod_wayland.Prelude.{
  ℕ, ◌+◌, Bool, ◌||◌, List, [], ◌∷◌, Option, none, some, u32, ltb, ◌==◌, if◌then◌else◌,
}

pub record GlyphPacker : Type 0 where
  pub shelf_x : ℕ
  pub shelf_y : ℕ
  pub shelf_h : ℕ

-- The zero-initialised packer of an empty atlas.
abbrev pub empty : GlyphPacker
empty = record { shelf_x = 0; shelf_y = 0; shelf_h = 0 }

-- The move to a new shelf when the row is exhausted.
unfoldable pub wrap_shelf : GlyphPacker → ℕ → ℕ → ℕ → GlyphPacker
wrap_shelf p dim pad w =
    if ltb dim (u32 (p.shelf_x + w + pad))
    then record { shelf_x = 0; shelf_y = u32 (p.shelf_y + u32 (p.shelf_h + pad)); shelf_h = 0 }
    else p

-- The reservation on the shelf that `wrap_shelf` chose.
unfoldable pub place_on_shelf : GlyphPacker → ℕ → ℕ → ℕ → ℕ → Option (ℕ × ℕ) × GlyphPacker
place_on_shelf p dim pad w h = if ltb dim (u32 (p.shelf_y + h + pad)) then (none, p) else (
  some (p.shelf_x, p.shelf_y),
  record p {
    shelf_x = u32 (p.shelf_x + u32 (w + pad));
    shelf_h = if ltb p.shelf_h h then h else p.shelf_h;
  },
)

-- `glyph_packer_place`: the option is the placement written through `out_u` and `out_v`, `none`
-- where the function returns false.
unfoldable pub place : GlyphPacker → ℕ → ℕ → ℕ → ℕ → Option (ℕ × ℕ) × GlyphPacker
place p dim pad w h =
    if w == 0 || h == 0
    then (none, p)
    else if ltb dim (u32 (w + pad)) || ltb dim (u32 (h + pad))
    then (none, p)
    else place_on_shelf (wrap_shelf p dim pad w) dim pad w h

-- A cell of the atlas.
pub record Rect : Type 0 where
  pub u : ℕ
  pub v : ℕ
  pub w : ℕ
  pub h : ℕ

abbrev pub placed : Option (ℕ × ℕ) → ℕ → ℕ → List Rect → List Rect
placed none w h rects = rects
placed (some (u, v)) w h rects = record { u = u; v = v; w = w; h = h } ∷ rects

-- The cells that a sequence of requests reserves, latest first.
unfoldable pub pack : ℕ → ℕ → GlyphPacker → List Rect → List (ℕ × ℕ) → List Rect × GlyphPacker
pack dim pad p rects [] = (rects, p)
pack dim pad p rects ((w, h) ∷ cells) =
    let (r, p') = place p dim pad w h in pack dim pad p' (placed r w h rects) cells
