-- ===== src/Glyph/Atlas/Table.antt =====
-- The probe of the atlas's table: what it finds, and what a write to an empty slot leaves found.
use typiod_wayland.Prelude.{
  ℕ, zero, suc, ◌+◌, ◌%◌, ◌<◌, ◌≡◌, refl, sym, ◌∙◌, ◌≢◌, inl, inr, true, false, u32, ◌==◌, ==_iff,
  Bool-cases, if_both, if-false, if-true, arith, ap,
}
use mathlib.Core.Bool.{false≢true}
use mathlib.Core.Path.{subst}
use typiod_wayland.Glyph.Atlas.{
  GlyphSlot, blank, Slots, slot_cap, home, Probe, Sight, sight, probe, put,
}

-- The three things that a slot says, with the facts behind them.
data Saw (s : GlyphSlot) (key : ℕ) : Type 0 where
  same : sight s key ≡ Sight.same → s.occupied ≡ true → s.key ≡ key → Saw s key
  free : sight s key ≡ Sight.free → s.occupied ≡ false → Saw s key
  other : sight s key ≡ Sight.other → s.occupied ≡ true → Saw s key

saw : (s : GlyphSlot) (key : ℕ) → Saw s key
unfolding sight
saw s key = elim (Bool-cases s.occupied) [
  | inr off ↦ Saw.free (rw off refl) off
  | inl on ↦ elim (Bool-cases (s.key == key)) [
    | inl k ↦ Saw.same (rw (on, k) refl) on ((==_iff s.key key).0 k)
    | inr differs ↦ Saw.other (rw (on, differs) refl) on
  ]
]

pub sight_self : (s : GlyphSlot) → s.occupied ≡ true → sight s s.key ≡ Sight.same
unfolding sight
sight_self s on = rw on (if-true Sight.same Sight.other (s.key == s.key) (ground arith))

-- The slot after `i` in the order of the probe.
abbrev next : ℕ → ℕ
next i = u32 (i + 1) % slot_cap

module _ (t : Slots) (key i n : ℕ) where
  pub probe_same : sight (t i) key ≡ Sight.same → probe t key i (suc n) ≡ Probe.hit i
  unfolding probe
  probe_same e = rw (probe, e) refl

  pub probe_free : sight (t i) key ≡ Sight.free → probe t key i (suc n) ≡ Probe.vacant i
  unfolding probe
  probe_free e = rw (probe, e) refl

  pub probe_other : sight (t i) key ≡ Sight.other → probe t key i (suc n) ≡ probe t key (next i) n
  unfolding probe
  probe_other e = rw (probe, e) refl

-- What an answer of the probe says of the table.
abbrev pub Tells : Slots → ℕ → Probe → Type 0
Tells t key (Probe.hit j) = (j < slot_cap) × ((t j).occupied ≡ true) × ((t j).key ≡ key)
Tells t key (Probe.vacant j) = (j < slot_cap) × ((t j).occupied ≡ false)
Tells t key Probe.full = Unit {0}

pub probe-Tells : (t : Slots) (key i n : ℕ) → i < slot_cap → Tells t key (probe t key i n)
unfolding probe
probe-Tells t key i zero h = tt
probe-Tells t key i (suc n) h = elim (saw (t i) key) [
  | Saw.same e on k ↦ rw (probe, e) (h, on, k)
  | Saw.free e off ↦ rw (probe, e) (h, off)
  | Saw.other e on ↦ rw (probe, e) (probe-Tells t key (next i) n (omega arith))
]

pub put-ne : (t : Slots) (i : ℕ) (x : GlyphSlot) (s : ℕ) → s ≢ i → put t i x s ≡ t s
put-ne t i x s h = if-false x (t s) (s == i) (grind arith)

pub put_self : (t : Slots) (i : ℕ) (x : GlyphSlot) → put t i x i ≡ x
put_self t i x = if-true x (t i) (i == i) (ground arith)

-- The second answer follows the first after a slot `i` was written for the key.
abbrev Kept : Probe → Probe → Type 0
Kept (Probe.hit j) q = q ≡ Probe.hit j
Kept (Probe.vacant j) q = Unit {0}
Kept Probe.full q = Unit {0}

-- A probed slot that is occupied is not the empty one that was written.
pub occupied_ne : (t : Slots) (i s : ℕ) → (t i).occupied ≡ false → (t s).occupied ≡ true → s ≢ i
occupied_ne t i s off on e = false≢true (sym off ∙ ap (λ j. (t j).occupied) (sym e) ∙ on)

module _ (t : Slots) (i : ℕ) (x : GlyphSlot) (off : (t i).occupied ≡ false) where
  probe-Kept : (key s n : ℕ) → Kept (probe t key s n) (probe (put t i x) key s n)
  unfolding probe
  probe-Kept key s zero = tt
  probe-Kept key s (suc n) = elim (saw (t s) key) [
    | Saw.same e on k ↦
        let p : put t i x s ≡ t s = put-ne t i x s (occupied_ne t i s off on) in
        rw (probe, e) (probe_same (put t i x) key s n (ap (λ y. sight y key) p ∙ e))
    | Saw.free e f ↦ rw (probe, e) tt
    | Saw.other e on ↦
        let p : put t i x s ≡ t s = put-ne t i x s (occupied_ne t i s off on) in
        rw (probe, e)
          (rw (probe_other (put t i x) key s n (ap (λ y. sight y key) p ∙ e))
            (probe-Kept key (next s) n))
  ]

-- The first answer was the empty slot `i`, and the second finds what was written there.
abbrev Filled : ℕ → Probe → Probe → Type 0
Filled i (Probe.vacant j) q = j ≡ i → q ≡ Probe.hit i
Filled i (Probe.hit j) q = Unit {0}
Filled i Probe.full q = Unit {0}

module _ (t : Slots) (i : ℕ) (x : GlyphSlot) (off : (t i).occupied ≡ false)
    (on : x.occupied ≡ true) where
  probe-Filled : (s n : ℕ) → Filled i (probe t x.key s n) (probe (put t i x) x.key s n)
  unfolding probe
  probe-Filled s zero = tt
  probe-Filled s (suc n) = elim (saw (t s) x.key) [
    | Saw.same e f k ↦ rw (probe, e) tt
    | Saw.free e f ↦
        rw (probe, e)
          (λ k.
            probe_same (put t i x) x.key s n (ap (λ y. sight y x.key) (at k) ∙ itself)
            ∙ ap Probe.hit k)
    | Saw.other e f ↦
        let p : put t i x s ≡ t s = put-ne t i x s (occupied_ne t i s off f) in
        rw (probe, e)
          (rw (probe_other (put t i x) x.key s n (ap (λ y. sight y x.key) p ∙ e))
            (probe-Filled (next s) n))
  ]
    where
      at : s ≡ i → put t i x s ≡ x
      at k = ap (put t i x) k ∙ put_self t i x

      itself : sight x x.key ≡ Sight.same
      itself = sight_self x on

-- A probe for the slot's key from its home ends at `j`.
abbrev pub Finds : Slots → ℕ → ℕ → Type 0
Finds t key j = probe t key (home key) slot_cap ≡ Probe.hit j

-- Every entry of the table is what a probe for its key finds, so no key has two entries.
abbrev pub IsTable : Slots → Type 0
IsTable t = (j : ℕ) → (t j).occupied ≡ true → Finds t (t j).key j

pub IsTable-empty : IsTable (λ i. blank)
IsTable-empty j on = absurd (false≢true on)

home_lt : (key : ℕ) → home key < slot_cap
unfolding home
home_lt key = omega arith

pub Finds-entry : (t : Slots) (key j : ℕ) → Finds t key j → Tells t key (Probe.hit j)
Finds-entry t key j e = subst (Tells t key) e (probe-Tells t key (home key) slot_cap (home_lt key))

pub vacant_slot :
    (t : Slots) (key i : ℕ)
    → probe t key (home key) slot_cap ≡ Probe.vacant i
    → (i < slot_cap) × ((t i).occupied ≡ false)
vacant_slot t key i e = subst (Tells t key) e (probe-Tells t key (home key) slot_cap (home_lt key))

pub put-Finds :
    (t : Slots) (i : ℕ) (x : GlyphSlot) (key j : ℕ)
    → (t i).occupied ≡ false
    → Finds t key j
    → Finds (put t i x) key j
put-Finds t i x key j off e =
    subst (λ q. Kept q (probe (put t i x) key (home key) slot_cap)) e
      (probe-Kept t i x off key (home key) slot_cap)

pub put-Finds_self :
    (t : Slots) (i : ℕ) (x : GlyphSlot)
    → x.occupied ≡ true
    → probe t x.key (home x.key) slot_cap ≡ Probe.vacant i
    → Finds (put t i x) x.key i
put-Finds_self t i x on e =
    subst (λ q. Filled i q (probe (put t i x) x.key (home x.key) slot_cap)) e
      (probe-Filled t i x (vacant_slot t x.key i e).1 on (home x.key) slot_cap) refl

pub put-IsTable :
    (t : Slots) (i : ℕ) (x : GlyphSlot)
    → x.occupied ≡ true
    → probe t x.key (home x.key) slot_cap ≡ Probe.vacant i
    → IsTable t
    → IsTable (put t i x)
put-IsTable t i x on e h j =
    if_both (λ (s : GlyphSlot). s.occupied ≡ true → Finds (put t i x) s.key j) (j == i)
      (λ k f. put-Finds_self t i x on e ∙ ap Probe.hit (sym ((==_iff j i).0 k)))
      (λ k f. put-Finds t i x (t j).key j (vacant_slot t x.key i e).1 (h j f))
