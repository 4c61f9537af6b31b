-- ===== src/Glyph/Atlas/Examples.antt =====
-- Runs of the glyph atlas, and the theorems at them.
use typiod_wayland.Prelude.{◌≡◌, refl, true, List, [], ◌∷◌, some, arith}
use typiod_wayland.Glyph.Pack.{place, wrap_shelf, place_on_shelf}
use typiod_wayland.Glyph.Atlas.{
  blank, Bitmap, GlyphAtlas, no_atlas, ensure, reclaim, home, key_of, probe, sight, repack, upload,
  rasterise, insert, get, entry_count,
}
use typiod_wayland.Glyph.Atlas.Runs.{Event, run, run-IsAtlas, get-lookups, slot_at, lookups, Lookup}
use typiod_wayland.Glyph.Atlas.Bounds.{IsAtlas}
use typiod_wayland.Glyph.Atlas.Room.{all_well, drawn, get-reclaim}

abbrev letter : Bitmap
letter = record {
  left = 1;
  top = 12;
  width = 2;
  rows = 2;
  pitch = 4;
  buffer = 1 ∷ 2 ∷ 0 ∷ 0 ∷ 3 ∷ 4 ∷ 0 ∷ 0 ∷ [];
}

abbrev poster : Bitmap
poster = record { left = 0; top = 0; width = 2000; rows = 2040; pitch = 2000; buffer = [] }

abbrev banner : Bitmap
banner = record { left = 0; top = 0; width = 100; rows = 100; pitch = 100; buffer = [] }

repack-letter : repack letter 0 2 ≡ 1 ∷ 2 ∷ 3 ∷ 4 ∷ []
unfolding repack
repack-letter = refl

-- Two fonts' glyphs, and one that is found again.
abbrev words : List Event
words =
    Event.lookup (all_well letter) 1 65
    ∷ Event.lookup (all_well letter) 2 65
    ∷ Event.lookup (all_well banner) 1 65
    ∷ []

entry_count-words : entry_count (run no_atlas words) ≡ 2
unfolding entry_count get ensure probe sight home insert rasterise upload place wrap_shelf
    place_on_shelf
entry_count-words = refl

-- A second large glyph finds no room.
flagged :
    (run no_atlas (
      Event.lookup (all_well poster) 1 1
      ∷ Event.lookup (all_well banner) 1 2
      ∷ [])).packer_exhausted
    ≡ true
unfolding get ensure probe sight home insert rasterise upload place wrap_shelf place_on_shelf
flagged = refl

get-first : (get (all_well letter) no_atlas 1 65).0 ≡ some (home (key_of 1 65))
unfolding get ensure probe sight insert home
get-first = refl

abbrev later : List Lookup
later = (all_well banner, 1, 66) ∷ (all_well letter, 2, 65) ∷ []

get-lookups_example :
    let first = (get (all_well letter) no_atlas 1 65).1 in
    let b = lookups first later in
    (slot_at b (home (key_of 1 65)) ≡ slot_at first (home (key_of 1 65)))
    × (get (all_well poster) b 1 65 ≡ (some (home (key_of 1 65)), b))
get-lookups_example =
    get-lookups (all_well letter) (all_well poster) no_atlas 1 65 (home (key_of 1 65)) later
      get-first

-- An atlas whose shelves are used up.
abbrev crowded : GlyphAtlas
crowded = record {
  slots = some (λ i. blank);
  packer = record { shelf_x = 2000; shelf_y = 1990; shelf_h = 50 };
  live_count = 0;
  packer_exhausted = true;
  rebuilds = 0;
  glyphs_rasterized = 900;
  out = [];
}

get-reclaim_example :
    let (rebuilt, a') = reclaim (all_well banner) crowded in
    let (found, after) = get (all_well banner) a' 1 2 in
    let key = key_of 1 2 in
    (rebuilt ≡ true)
    × (found ≡ some (home key))
    × (slot_at after (home key) ≡ some (drawn key banner))
get-reclaim_example =
    get-reclaim (all_well banner) crowded (λ i. blank) banner 1 2 refl refl (omega arith)
      (omega arith) refl

run-IsAtlas_example : IsAtlas (run no_atlas words)
run-IsAtlas_example = run-IsAtlas words
