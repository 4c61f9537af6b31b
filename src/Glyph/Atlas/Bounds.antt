-- ===== src/Glyph/Atlas/Bounds.antt =====
-- The atlas between two operations: every slot is found by its key, and `live_count` counts them.
use typiod_wayland.Prelude.{
  ℕ, zero, suc, ◌+◌, ◌<◌, ◌≤◌, ◌≡◌, refl, sym, ◌∙◌, ap, inl, inr, Bool, true, false, ◌&&◌, Option,
  none, some, ◌==◌, if◌then◌else◌, if_both, if-false, Bool-cases, Option-cases, ==_iff, arith,
}
use mathlib.Core.Path.{subst}
use typiod_wayland.Glyph.Pack.{GlyphPacker, place}
use typiod_wayland.Glyph.Atlas.{
  GlyphSlot, blank, Slots, slot_cap, GlyphAtlas, Bitmap, Render, ensure, reset, reclaim, shutdown,
  key_of, home, Probe, probe, put, upload, place_result, fits, rasterise, insert, resolve, look_up,
  get, dim, pad, u16,
}
use typiod_wayland.Glyph.Atlas.Table.{
  IsTable, IsTable-empty, put-ne, put_self, vacant_slot, put-IsTable,
}

abbrev one_if : Bool → ℕ
one_if b = if b then 1 else 0

-- The occupied slots below `n`.
unfoldable pub count : Slots → ℕ → ℕ
count t zero = 0
count t (suc n) = one_if (t n).occupied + count t n

count_le : (t : Slots) (n : ℕ) → count t n ≤ n
unfolding count
count_le t zero = omega arith
count_le t (suc n) = ground (arith, count_le t n)

count-blank : (n : ℕ) → count (λ i. blank) n ≡ 0
unfolding count
count-blank zero = refl
count-blank (suc n) = omega (arith, count-blank n)

module _ (t : Slots) (i : ℕ) (x : GlyphSlot) where
  count-put_above : (n : ℕ) → n ≤ i → count (put t i x) n ≡ count t n
  unfolding count
  count-put_above zero h = refl
  count-put_above (suc n) h =
      rw (if-false x (t n) (n == i) (ground arith), count-put_above n (omega arith)) refl

  count-put :
      (n : ℕ)
      → (t i).occupied ≡ false
      → x.occupied ≡ true
      → i < n
      → count (put t i x) n ≡ suc (count t n)
  unfolding count
  count-put zero off on h = absurd (omega arith)
  count-put (suc n) off on h = elim (Bool-cases (n == i)) [
    | inl k ↦
        let same : n ≡ i = (==_iff n i).0 k in
        let one : one_if (put t i x n).occupied ≡ 1 =
          ap (λ (s : GlyphSlot). one_if s.occupied) (ap (put t i x) same ∙ put_self t i x)
          ∙ ap one_if on in
        let nothing : one_if (t n).occupied ≡ 0 =
          ap (λ m. one_if (t m).occupied) same ∙ ap one_if off in
        omega (arith, one, nothing, count-put_above n (omega arith))
    | inr k ↦
        let kept : one_if (put t i x n).occupied ≡ one_if (t n).occupied =
          ap (λ (s : GlyphSlot). one_if s.occupied) (put-ne t i x n (grind arith)) in
        omega (arith, kept, count-put n off on (grind arith))
  ]

-- The table is searchable and its entries are counted; no table has none.
abbrev IsSlots : Option Slots → ℕ → Type 0
IsSlots none live = live ≡ 0
IsSlots (some t) live = IsTable t × (live ≡ count t slot_cap)

abbrev pub IsAtlas : GlyphAtlas → Type 0
IsAtlas a = IsSlots a.slots a.live_count

-- What rasterising leaves as it was, and the slot's key.
pub record Rasterised (a : GlyphAtlas) (key : ℕ) (r : GlyphSlot × GlyphAtlas) : Type 0 where
  pub keyed : r.0.key ≡ key
  pub on : r.0.occupied ≡ true
  pub live : r.1.live_count ≡ a.live_count

place_result-Rasterised :
    (e : Render) (a : GlyphAtlas) (s : GlyphSlot) (b : Bitmap) (r : Option (ℕ × ℕ))
    → s.occupied ≡ true
    → Rasterised a s.key (place_result e a s b r)
unfolding upload
place_result-Rasterised e a s b none on =
    if_both (λ x. Rasterised a s.key (s, x)) (fits b)
      (λ _. record { keyed = refl; on = on; live = refl })
      (λ _. record { keyed = refl; on = on; live = refl })
place_result-Rasterised e a s b (some (u, v)) on = elim (Bool-cases e.tight) [
  | inr h ↦ rw h (record { keyed = refl; on = on; live = refl })
  | inl h ↦ rw h (elim (Bool-cases e.uploaded) [
    | inl k ↦ rw k (record { keyed = refl; on = on; live = refl })
    | inr k ↦ rw k (record { keyed = refl; on = on; live = refl })
  ])
]

repacked :
    {a : GlyphAtlas} {p : GlyphPacker} {key : ℕ} {r : GlyphSlot × GlyphAtlas}
    → Rasterised (record a { packer = p }) key r
    → Rasterised a key r
repacked x = record { keyed = x.keyed; on = x.on; live = x.live }

pub rasterise-Rasterised :
    (e : Render) (a : GlyphAtlas) (key : ℕ) → Rasterised a key (rasterise e a key)
unfolding rasterise upload
rasterise-Rasterised e a key = elim (Option-cases e.load) [
  | inl h ↦ rw h (record { keyed = refl; on = refl; live = refl })
  | inr (b, h) ↦
      let r : Option (ℕ × ℕ) × GlyphPacker = place a.packer dim pad b.width b.rows in
      rw h (
        repacked (
          place_result-Rasterised e (record a { packer = r.1 })
            (record blank { key = key; occupied = true; left = u16 b.left; top = u16 b.top }) b r.0
            refl))
]

insert-IsAtlas :
    (e : Render) (a : GlyphAtlas) (t : Slots) (key i : ℕ)
    → a.slots ≡ some t
    → probe t key (home key) slot_cap ≡ Probe.vacant i
    → IsAtlas a
    → IsAtlas (insert e a t key i)
unfolding insert
insert-IsAtlas e a t key i h v inv =
    let before : IsSlots (some t) a.live_count = subst (λ o. IsSlots o a.live_count) h inv in
    let r : Rasterised a key (rasterise e a key) = rasterise-Rasterised e a key in
    let s : GlyphSlot = (rasterise e a key).0 in
    let probed : probe t s.key (home s.key) slot_cap ≡ Probe.vacant i =
      ap (λ k. probe t k (home k) slot_cap) r.keyed ∙ v in
    let more : count (put t i s) slot_cap ≡ suc (count t slot_cap) =
      count-put t i s slot_cap (vacant_slot t key i v).1 r.on (vacant_slot t key i v).0 in
    (
      put-IsTable t i s r.on probed before.0,
      omega (arith, r.live, before.1, more, count_le (put t i s) slot_cap),
    )

resolve-IsAtlas :
    (e : Render) (a : GlyphAtlas) (t : Slots) (key : ℕ) (q : Probe)
    → a.slots ≡ some t
    → probe t key (home key) slot_cap ≡ q
    → IsAtlas a
    → IsAtlas (resolve e a t key q).1
resolve-IsAtlas e a t key (Probe.hit i) h v inv = inv
resolve-IsAtlas e a t key (Probe.vacant i) h v inv = insert-IsAtlas e a t key i h v inv
resolve-IsAtlas e a t key Probe.full h v inv = inv

look_up-IsAtlas :
    (e : Render) (a : GlyphAtlas) (o : Option Slots) (key : ℕ)
    → a.slots ≡ o
    → IsAtlas a
    → IsAtlas (look_up e a o key).1
look_up-IsAtlas e a none key h inv = inv
look_up-IsAtlas e a (some t) key h inv =
    resolve-IsAtlas e a t key (probe t key (home key) slot_cap) h refl inv

pub ensure-IsAtlas : (e : Render) (a : GlyphAtlas) → IsAtlas a → IsAtlas (ensure e a)
unfolding ensure
ensure-IsAtlas e a inv = elim (Option-cases a.slots) [
  | inr (t, h) ↦ rw (h) (subst (λ o. IsSlots o a.live_count) h inv)
  | inl h ↦
      let empty_yet : a.live_count ≡ 0 = subst (λ o. IsSlots o a.live_count) h inv in
      rw h (
        if_both IsAtlas (e.device && e.zeroed && e.image)
          (λ _.
            if_both IsAtlas e.table (λ _. (IsTable-empty, empty_yet ∙ sym (count-blank slot_cap)))
              (λ _. empty_yet))
          (λ _. empty_yet))
]

pub get-IsAtlas :
    (e : Render) (a : GlyphAtlas) (font_id glyph_id : ℕ)
    → IsAtlas a
    → IsAtlas (get e a font_id glyph_id).1
unfolding get
get-IsAtlas e a font_id glyph_id inv =
    look_up-IsAtlas e (ensure e a) (ensure e a).slots (key_of font_id glyph_id) refl
      (ensure-IsAtlas e a inv)

pub reclaim-IsAtlas : (e : Render) (a : GlyphAtlas) → IsAtlas a → IsAtlas (reclaim e a).1
unfolding reclaim reset
reclaim-IsAtlas e a inv = elim (Option-cases a.slots) [
  | inl h ↦ rw h (subst (λ o. IsSlots o a.live_count) h inv)
  | inr (t, h) ↦ rw h (
      if_both (λ (r : Bool × GlyphAtlas). IsAtlas r.1) a.packer_exhausted (λ _. refl)
        (λ _. subst (λ o. IsSlots o a.live_count) h inv))
]

pub shutdown-IsAtlas : (e : Render) (a : GlyphAtlas) → IsAtlas (shutdown e a)
unfolding shutdown
shutdown-IsAtlas e a = refl
