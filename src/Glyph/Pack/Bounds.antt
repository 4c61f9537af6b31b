-- ===== src/Glyph/Pack/Bounds.antt =====
-- The cells of an atlas lie inside it, and a gutter of `pad` lies between any two.
use typiod_wayland.Prelude.{
  ℕ, ◌+◌, ◌≤◌, ◌<◌, ◌≡◌, refl, ◌↔◌, ◌⊎◌, inl, inr, ◌||◌, List, [], ◌∷◌, Option, some, u32, ltb,
  ◌==◌, if◌then◌else◌, Bool-cases, arith,
}
use typiod_wayland.Glyph.Pack.{
  GlyphPacker, empty, wrap_shelf, place_on_shelf, place, Rect, placed, pack,
}

-- The two cells are `pad` apart in one direction, the later one to the right or below.
abbrev pub Before : ℕ → Rect → Rect → Type 0
Before pad a b = (a.u + a.w + pad ≤ b.u) ⊎ (a.v + a.h + pad ≤ b.v)

abbrev pub Inside : ℕ → ℕ → Rect → Type 0
Inside dim pad a = (a.u + a.w + pad ≤ dim) × (a.v + a.h + pad ≤ dim)

abbrev pub AllBefore : ℕ → List Rect → Rect → Type 0
AllBefore pad [] b = Unit {0}
AllBefore pad (a ∷ rects) b = Before pad a b × AllBefore pad rects b

-- Every cell is inside, and after every cell that was placed earlier.
abbrev pub IsPacked : ℕ → ℕ → List Rect → Type 0
IsPacked dim pad [] = Unit {0}
IsPacked dim pad (a ∷ rects) = Inside dim pad a × AllBefore pad rects a × IsPacked dim pad rects

-- A placed cell is on an older shelf, or on the current one left of the cursor.
abbrev Behind : ℕ → GlyphPacker → Rect → Type 0
Behind pad p a =
    (a.v + a.h + pad ≤ p.shelf_y)
    ⊎ ((a.v ≡ p.shelf_y) × (a.u + a.w + pad ≤ p.shelf_x) × (a.h ≤ p.shelf_h))

abbrev AllBehind : ℕ → GlyphPacker → List Rect → Type 0
AllBehind pad p [] = Unit {0}
AllBehind pad p (a ∷ rects) = Behind pad p a × AllBehind pad p rects

-- The cursor stays inside the atlas, and a shelf with no cell has not moved it.
record Shelf (dim pad : ℕ) (p : GlyphPacker) : Type 0 where
  across : p.shelf_x ≤ dim
  down : (p.shelf_y + p.shelf_h + pad ≤ dim) ⊎ ((p.shelf_h ≡ 0) × (p.shelf_x ≡ 0))
  top : p.shelf_y ≤ dim

-- The requests that the renderer makes: sizes whose padded form is a uint32_t.
abbrev pub Fits32 : ℕ → List (ℕ × ℕ) → Type 0
Fits32 pad [] = Unit {0}
Fits32 pad ((w, h) ∷ cells) = (w + pad < 4294967296) × (h + pad < 4294967296) × Fits32 pad cells

module _ (dim pad : ℕ) (small : dim < 2147483648) where
  wrap-Shelf :
      (p : GlyphPacker) (w : ℕ)
      → w + pad ≤ dim
      → Shelf dim pad p
      → Shelf dim pad (wrap_shelf p dim pad w) × ((wrap_shelf p dim pad w).shelf_x + w + pad ≤ dim)
  unfolding wrap_shelf
  wrap-Shelf p w fits s = ground arith

  wrap-Behind :
      (p : GlyphPacker) (w : ℕ) (a : Rect)
      → w + pad ≤ dim
      → Shelf dim pad p
      → Behind pad p a
      → Behind pad (wrap_shelf p dim pad w) a
  unfolding wrap_shelf
  wrap-Behind p w a fits s b = ground arith

  wrap-AllBehind :
      (p : GlyphPacker) (w : ℕ) (rects : List Rect)
      → w + pad ≤ dim
      → Shelf dim pad p
      → AllBehind pad p rects
      → AllBehind pad (wrap_shelf p dim pad w) rects
  wrap-AllBehind p w [] fits s b = tt
  wrap-AllBehind p w (a ∷ rects) fits s b =
      (wrap-Behind p w a fits s b.0, wrap-AllBehind p w rects fits s b.1)

  -- The cell that the shelf gives at its cursor.
  abbrev at_cursor : GlyphPacker → ℕ → ℕ → Rect
  at_cursor p w h = record { u = p.shelf_x; v = p.shelf_y; w = w; h = h }

  -- The packer after that cell.
  abbrev advanced : GlyphPacker → ℕ → ℕ → GlyphPacker
  advanced p w h = record p {
    shelf_x = u32 (p.shelf_x + u32 (w + pad));
    shelf_h = if ltb p.shelf_h h then h else p.shelf_h;
  }

  advanced-AllBehind :
      (p : GlyphPacker) (w h : ℕ) (rects : List Rect)
      → p.shelf_x + w + pad ≤ dim
      → AllBehind pad p rects
      → AllBehind pad (advanced p w h) rects × AllBefore pad rects (at_cursor p w h)
  advanced-AllBehind p w h [] fits b = (tt, tt)
  advanced-AllBehind p w h (a ∷ rects) fits b =
      let rest = advanced-AllBehind p w h rects fits b.1 in
      ((ground arith, rest.0), (ground arith, rest.1))

  -- What is kept between two requests.
  record Packed (p : GlyphPacker) (rects : List Rect) : Type 0 where
    shelf : Shelf dim pad p
    behind : AllBehind pad p rects
    packed : IsPacked dim pad rects

  abbrev PackedAfter : Option (ℕ × ℕ) × GlyphPacker → ℕ → ℕ → List Rect → Type 0
  PackedAfter (r, p) w h rects = Packed p (placed r w h rects)

  place_on_shelf-Packed :
      (p : GlyphPacker) (w h : ℕ) (rects : List Rect)
      → p.shelf_x + w + pad ≤ dim
      → h + pad ≤ dim
      → Packed p rects
      → PackedAfter (place_on_shelf p dim pad w h) w h rects
  unfolding place_on_shelf
  place_on_shelf-Packed p w h rects fits tall s =
      elim (Bool-cases (ltb dim (u32 (p.shelf_y + h + pad)))) [
        | inl full ↦ rw full s
        | inr room ↦ rw room (record {
          shelf = ground (arith, s.shelf);
          behind = (ground (arith, s.shelf), (advanced-AllBehind p w h rects fits s.behind).0);
          packed =
              (ground (arith, s.shelf), (advanced-AllBehind p w h rects fits s.behind).1, s.packed);
        })
      ]

  place-Packed :
      (p : GlyphPacker) (w h : ℕ) (rects : List Rect)
      → w + pad < 4294967296
      → h + pad < 4294967296
      → Packed p rects
      → PackedAfter (place p dim pad w h) w h rects
  unfolding place
  place-Packed p w h rects w32 h32 s = elim (Bool-cases (w == 0 || h == 0)) [
    | inl nothing ↦ rw nothing s
    | inr cell ↦ rw cell (elim (Bool-cases (ltb dim (u32 (w + pad)) || ltb dim (u32 (h + pad)))) [
      | inl never ↦ rw never s
      | inr small_cell ↦ rw small_cell (
          place_on_shelf-Packed (wrap_shelf p dim pad w) w h rects
            (wrap-Shelf p w (ground arith) s.shelf).1 (ground arith) (wrapped (ground arith)))
    ])
  ]
    where
      wrapped : w + pad ≤ dim → Packed (wrap_shelf p dim pad w) rects
      wrapped fits = record {
        shelf = (wrap-Shelf p w fits s.shelf).0;
        behind = wrap-AllBehind p w rects fits s.shelf s.behind;
        packed = s.packed;
      }

  pack_from-Packed :
      (p : GlyphPacker) (rects : List Rect) (cells : List (ℕ × ℕ))
      → Fits32 pad cells
      → Packed p rects
      → Packed (pack dim pad p rects cells).1 (pack dim pad p rects cells).0
  unfolding pack
  pack_from-Packed p rects [] f s = s
  pack_from-Packed p rects ((w, h) ∷ cells) f s =
      let (r, p') = place p dim pad w h in
      pack_from-Packed p' (placed r w h rects) cells f.2 (place-Packed p w h rects f.0 f.1 s)

-- In an atlas of side below 2 ^ 31, whatever cells are asked for (of sizes
-- whose padded form is a uint32_t), every cell that the packer hands out lies inside the atlas with
-- its gutter, and is a gutter to the right of or below every cell that was handed out before it.
pub pack-IsPacked :
    (dim pad : ℕ) (cells : List (ℕ × ℕ))
    → dim < 2147483648
    → Fits32 pad cells
    → IsPacked dim pad (pack dim pad empty [] cells).0
pack-IsPacked dim pad cells small f =
    (pack_from-Packed dim pad small empty [] cells f (record {
      shelf = record { across = omega arith; down = inr (refl, refl); top = omega arith };
      behind = tt;
      packed = tt;
    })).packed

-- With padded sizes that are uint32_t values, a fresh packer of an atlas of side below 2 ^ 31 gives
-- the corner (0, 0) to a non-empty cell that fits the atlas with its gutter, and refuses every
-- other: so a retry after a reset tells an exhausted shelf from a cell that can never be placed.
pub place_fresh_iff :
    (dim pad w h : ℕ)
    → dim < 2147483648
    → w + pad < 4294967296
    → h + pad < 4294967296
    → ((place empty dim pad w h).0 ≡ some (0, 0))
      ↔ ((0 < w) × (0 < h) × (w + pad ≤ dim) × (h + pad ≤ dim))
unfolding place wrap_shelf place_on_shelf
place_fresh_iff dim pad w h small w32 h32 = (ground arith, ground arith)
