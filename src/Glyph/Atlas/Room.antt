-- ===== src/Glyph/Atlas/Room.antt =====
-- What the reclaim of the glyph atlas gives a glyph that found no room.
use typiod_wayland.Prelude.{
  ℕ, ◌+◌, ◌<◌, ◌≡◌, refl, ◌∙◌, ap, inl, inr, true, none, some, Option-cases, arith,
}
use typiod_wayland.Glyph.Pack.{GlyphPacker, empty, place}
use typiod_wayland.Glyph.Pack.Bounds.{place_fresh_iff}
use typiod_wayland.Glyph.Atlas.{
  GlyphSlot, blank, Slots, slot_cap, dim, pad, GlyphAtlas, Bitmap, Render, ensure, reset, reclaim,
  key_of, home, Probe, Sight, sight, probe, u16, upload, fits, rasterise, insert, get,
}
use typiod_wayland.Glyph.Atlas.Table.{put_self, probe_free}
use typiod_wayland.Glyph.Atlas.Runs.{slot_at}

-- Every call of the device and of the allocator answers well, and FreeType renders `b`.
abbrev pub all_well : Bitmap → Render
all_well b = record {
  device = true;
  zeroed = true;
  image = true;
  table = true;
  load = some b;
  tight = true;
  uploaded = true;
}

place_fresh :
    (b : Bitmap)
    → b.width + pad < 4294967296
    → b.rows + pad < 4294967296
    → fits b ≡ true
    → (place empty dim pad b.width b.rows).0 ≡ some (0, 0)
place_fresh b w32 h32 f =
    (place_fresh_iff dim pad b.width b.rows (omega arith) w32 h32).1 (ground (arith, f))

sight-blank : (key : ℕ) → sight blank key ≡ Sight.free
unfolding sight
sight-blank key = refl

-- The first slot of a fresh table is free.
probe_fresh : (key : ℕ) → probe (λ i. blank) key (home key) slot_cap ≡ Probe.vacant (home key)
probe_fresh key = probe_free (λ i. blank) key (home key) 131071 (sight-blank key)

abbrev pub drawn : ℕ → Bitmap → GlyphSlot
drawn key b = record {
  key = key;
  u = 0;
  v = 0;
  w = u16 b.width;
  h = u16 b.rows;
  left = u16 b.left;
  top = u16 b.top;
  occupied = true;
  drawable = true;
}

module _ (b : Bitmap) (w32 : b.width + pad < 4294967296) (h32 : b.rows + pad < 4294967296)
    (k : fits b ≡ true) where
  rasterise_fresh :
      (a : GlyphAtlas) (key : ℕ) → a.packer ≡ empty → (rasterise (all_well b) a key).0 ≡ drawn key b
  unfolding rasterise upload
  rasterise_fresh a key p =
      let corner : (place a.packer dim pad b.width b.rows).0 ≡ some (0, 0) =
        ap (λ (q : GlyphPacker). (place q dim pad b.width b.rows).0) p ∙ place_fresh b w32 h32 k in
      rw corner refl

  insert_fresh :
      (a : GlyphAtlas) (t : Slots) (key i : ℕ)
      → a.packer ≡ empty
      → slot_at (insert (all_well b) a t key i) i ≡ some (drawn key b)
  unfolding insert
  insert_fresh a t key i p =
      ap some (put_self t i (rasterise (all_well b) a key).0 ∙ rasterise_fresh a key p)

  -- The atlas that `ensure` builds.
  abbrev built : GlyphAtlas → GlyphAtlas
  built a = record a { slots = some (λ i. blank); packer = empty }

  ensure_fresh : (a : GlyphAtlas) → a.slots ≡ none → ensure (all_well b) a ≡ built a
  unfolding ensure
  ensure_fresh a h = rw h refl

  get_fresh :
      (a : GlyphAtlas) (font_id glyph_id : ℕ)
      → a.slots ≡ none
      → let (found, after) = get (all_well b) a font_id glyph_id in
        let key = key_of font_id glyph_id in
        (found ≡ some (home key)) × (slot_at after (home key) ≡ some (drawn key b))
  unfolding get
  get_fresh a f g h =
      let key : ℕ = key_of f g in
      rw (ensure_fresh a h, probe_fresh key)
        (refl, insert_fresh (built a) (λ i. blank) key (home key) refl)

reclaim_exhausted :
    (e : Render) (a : GlyphAtlas) (t : Slots)
    → a.slots ≡ some t
    → a.packer_exhausted ≡ true
    → reclaim e a ≡ (true, reset e a)
unfolding reclaim
reclaim_exhausted e a t h x = rw (h, x) refl

reset_slots : (e : Render) (a : GlyphAtlas) → (reset e a).slots ≡ none
unfolding reset
reset_slots e a = elim (Option-cases a.slots) [ inl h ↦ rw h refl | inr (t, h) ↦ rw h refl ]

-- When an atlas with a table has its exhausted flag set, a reclaim rebuilds it; then, where the
-- device, the allocator and FreeType answer well, the lookup of a glyph whose bitmap fits an empty
-- atlas with its gutter (and whose padded size is a uint32_t) answers with the glyph's first slot,
-- which is drawable from the corner (0, 0) at the bitmap's size.
pub get-reclaim :
    (e : Render) (a : GlyphAtlas) (t : Slots) (b : Bitmap) (font_id glyph_id : ℕ)
    → a.slots ≡ some t
    → a.packer_exhausted ≡ true
    → b.width + pad < 4294967296
    → b.rows + pad < 4294967296
    → fits b ≡ true
    → let (rebuilt, a') = reclaim e a in
      let (found, after) = get (all_well b) a' font_id glyph_id in
      let key = key_of font_id glyph_id in
      (rebuilt ≡ true) × (found ≡ some (home key)) × (slot_at after (home key) ≡ some (drawn key b))
get-reclaim e a t b f g h x w32 h32 k = rw (reclaim_exhausted e a t h x) (
    let (found, seen) = get_fresh b w32 h32 k (reset e a) f g (reset_slots e a) in
    (refl, found, seen))
