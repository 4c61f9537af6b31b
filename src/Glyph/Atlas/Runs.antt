-- ===== src/Glyph/Atlas/Runs.antt =====
-- Sequences of operations of the glyph atlas: what its table keeps between two rebuilds.
use typiod_wayland.Prelude.{ℕ, ◌≡◌, refl, sym, ◌∙◌, ap, false, List, [], ◌∷◌, Option, none, some}
use mathlib.Core.Path.{subst}
use mathlib.Core.Option
use mathlib.Core.Option.{none-ne-some, some-injective}
use typiod_wayland.Glyph.Atlas.{
  GlyphSlot, Slots, slot_cap, GlyphAtlas, Render, ensure, reclaim, shutdown, key_of, home, Probe,
  probe, put, rasterise, insert, resolve, look_up, get, no_atlas,
}
use typiod_wayland.Glyph.Atlas.Table.{
  Finds, vacant_slot, put-ne, occupied_ne, Finds-entry, put-Finds, put-Finds_self,
}
use typiod_wayland.Glyph.Atlas.Bounds.{
  IsAtlas, ensure-IsAtlas, get-IsAtlas, reclaim-IsAtlas, shutdown-IsAtlas, Rasterised,
  rasterise-Rasterised,
}

-- A call of the panel, with what its environment answers.
pub data Event : Type 0 where
  image : Render → Event
  lookup : (e : Render) (font_id glyph_id : ℕ) → Event
  reclaimed : Render → Event
  shut_down : Render → Event

abbrev pub step : GlyphAtlas → Event → GlyphAtlas
step a (Event.image e) = ensure e a
step a (Event.lookup e font_id glyph_id) = (get e a font_id glyph_id).1
step a (Event.reclaimed e) = (reclaim e a).1
step a (Event.shut_down e) = shutdown e a

abbrev pub run : GlyphAtlas → List Event → GlyphAtlas
run a [] = a
run a (ev ∷ evs) = run (step a ev) evs

step-IsAtlas : (a : GlyphAtlas) (ev : Event) → IsAtlas a → IsAtlas (step a ev)
step-IsAtlas a (Event.image e) inv = ensure-IsAtlas e a inv
step-IsAtlas a (Event.lookup e f g) inv = get-IsAtlas e a f g inv
step-IsAtlas a (Event.reclaimed e) inv = reclaim-IsAtlas e a inv
step-IsAtlas a (Event.shut_down e) inv = shutdown-IsAtlas e a

run_from-IsAtlas : (a : GlyphAtlas) (evs : List Event) → IsAtlas a → IsAtlas (run a evs)
run_from-IsAtlas a [] inv = inv
run_from-IsAtlas a (ev ∷ evs) inv = run_from-IsAtlas (step a ev) evs (step-IsAtlas a ev inv)

-- Whatever is looked up, reclaimed and shut down, and whatever the device, the allocator and
-- FreeType answer: in the table, a probe for the key of an occupied slot ends at that slot, so no
-- key has two slots, and `live_count` is the number of occupied slots of the 131072; an atlas with
-- no table has a count of 0.
pub run-IsAtlas : (evs : List Event) → IsAtlas (run no_atlas evs)
run-IsAtlas evs = run_from-IsAtlas no_atlas evs refl

-- The atlas has a table, where a probe for the key ends at `i` and the slot `s` stands.
abbrev pub Holds : GlyphAtlas → ℕ → ℕ → GlyphSlot → Type 0
Holds a key i s = (t : Slots) × (a.slots ≡ some t) × Finds t key i × (t i ≡ s)

ensure_kept : (e : Render) (a : GlyphAtlas) (t : Slots) → a.slots ≡ some t → ensure e a ≡ a
unfolding ensure
ensure_kept e a t h = rw h refl

resolve-Holds :
    (e : Render) (a : GlyphAtlas) (t : Slots) (key i other : ℕ) (q : Probe)
    → a.slots ≡ some t
    → probe t other (home other) slot_cap ≡ q
    → Finds t key i
    → Holds (resolve e a t other q).1 key i (t i)
unfolding insert
resolve-Holds e a t key i other (Probe.hit j) h v k = (t, h, k, refl)
resolve-Holds e a t key i other Probe.full h v k = (t, h, k, refl)
resolve-Holds e a t key i other (Probe.vacant j) h v k =
    let off : (t j).occupied ≡ false = (vacant_slot t other j v).1 in
    let s : GlyphSlot = (rasterise e a other).0 in
    (
      put t j s,
      refl,
      put-Finds t j s key i off k,
      put-ne t j s i (occupied_ne t j i off (Finds-entry t key i k).1),
    )

get-Holds :
    (e : Render) (a : GlyphAtlas) (key i font_id glyph_id : ℕ) (s : GlyphSlot)
    → Holds a key i s
    → Holds (get e a font_id glyph_id).1 key i s
unfolding get
get-Holds e a key i f g s (t, h, k, x) =
    let other : ℕ = key_of f g in
    rw (ensure_kept e a t h) (
      subst (λ o. Holds (look_up e a o other).1 key i s) (sym h)
        (subst (Holds (resolve e a t other (probe t other (home other) slot_cap)).1 key i) x
          (resolve-Holds e a t key i other (probe t other (home other) slot_cap) h refl k)))

-- A lookup of a key that the table has changes nothing.
get_found :
    (e : Render) (a : GlyphAtlas) (font_id glyph_id i : ℕ) (s : GlyphSlot)
    → Holds a (key_of font_id glyph_id) i s
    → get e a font_id glyph_id ≡ (some i, a)
unfolding get
get_found e a f g i s (t, h, k, x) =
    let key : ℕ = key_of f g in
    rw (ensure_kept e a t h) (
      subst (λ o. look_up e a o key ≡ (some i, a)) (sym h)
        (subst (λ q. resolve e a t key q ≡ (some i, a)) (sym k) refl))

-- A lookup of a glyph with a font's number, and what its environment answers.
abbrev pub Lookup : Type 0
Lookup = Render × ℕ × ℕ

abbrev pub lookups : GlyphAtlas → List Lookup → GlyphAtlas
lookups a [] = a
lookups a ((e, f, g) ∷ ls) = lookups (get e a f g).1 ls

lookups-Holds :
    (a : GlyphAtlas) (key i : ℕ) (s : GlyphSlot) (ls : List Lookup)
    → Holds a key i s
    → Holds (lookups a ls) key i s
lookups-Holds a key i s [] h = h
lookups-Holds a key i s ((e, f, g) ∷ ls) h =
    lookups-Holds (get e a f g).1 key i s ls (get-Holds e a key i f g s h)

-- The slot that a lookup answers with is the one that holds its key.
resolve_own :
    (e : Render) (a : GlyphAtlas) (t : Slots) (key i : ℕ) (q : Probe)
    → a.slots ≡ some t
    → probe t key (home key) slot_cap ≡ q
    → (resolve e a t key q).0 ≡ some i
    → (s : GlyphSlot) × Holds (resolve e a t key q).1 key i s
unfolding insert
resolve_own e a t key i (Probe.hit j) h v r =
    (t i, (t, h, v ∙ ap Probe.hit (some-injective j i r), refl))
resolve_own e a t key i Probe.full h v r = absurd (none-ne-some i r)
resolve_own e a t key i (Probe.vacant j) h v r =
    let s : GlyphSlot = (rasterise e a key).0 in
    let x : Rasterised a key (rasterise e a key) = rasterise-Rasterised e a key in
    let probed : probe t s.key (home s.key) slot_cap ≡ Probe.vacant j =
      ap (λ k. probe t k (home k) slot_cap) (Rasterised.keyed x) ∙ v in
    let own : Finds (put t j s) key j =
      subst (λ k. Finds (put t j s) k j) (Rasterised.keyed x)
        (put-Finds_self t j s (Rasterised.on x) probed) in
    (put t j s i, (put t j s, refl, own ∙ ap Probe.hit (some-injective j i r), refl))

look_up_own :
    (e : Render) (a : GlyphAtlas) (o : Option Slots) (key i : ℕ)
    → a.slots ≡ o
    → (look_up e a o key).0 ≡ some i
    → (s : GlyphSlot) × Holds (look_up e a o key).1 key i s
look_up_own e a none key i h r = absurd (none-ne-some i r)
look_up_own e a (some t) key i h r =
    resolve_own e a t key i (probe t key (home key) slot_cap) h refl r

get_own :
    (e : Render) (a : GlyphAtlas) (font_id glyph_id i : ℕ)
    → (get e a font_id glyph_id).0 ≡ some i
    → (s : GlyphSlot) × Holds (get e a font_id glyph_id).1 (key_of font_id glyph_id) i s
unfolding get
get_own e a f g i r = look_up_own e (ensure e a) (ensure e a).slots (key_of f g) i refl r

-- The slot that a pointer into the table shows.
abbrev pub slot_at : GlyphAtlas → ℕ → Option GlyphSlot
slot_at a i = Option.map (λ (t : Slots). t i) a.slots

Holds-slot_at :
    (a : GlyphAtlas) (key i : ℕ) (s : GlyphSlot) → Holds a key i s → slot_at a i ≡ some s
Holds-slot_at a key i s (t, h, k, x) = ap (Option.map (λ (t : Slots). t i)) h ∙ ap some x

-- When a lookup of a glyph answers with a slot, then after any further lookups, whatever their
-- answers, that slot shows what it showed, and a lookup of the glyph answers with the same slot and
-- changes nothing: the glyph is not rasterised, placed or uploaded again.
pub get-lookups :
    (e e' : Render) (a : GlyphAtlas) (font_id glyph_id i : ℕ) (later : List Lookup)
    → (get e a font_id glyph_id).0 ≡ some i
    → let first = (get e a font_id glyph_id).1 in
      let b = lookups first later in
      (slot_at b i ≡ slot_at first i) × (get e' b font_id glyph_id ≡ (some i, b))
get-lookups e e' a f g i later r =
    let (s, h) = get_own e a f g i r in
    let first = (get e a f g).1 in
    let key : ℕ = key_of f g in
    let b = lookups first later in
    let k : Holds b key i s = lookups-Holds first key i s later h in
    (Holds-slot_at b key i s k ∙ sym (Holds-slot_at first key i s h), get_found e' b f g i s k)
