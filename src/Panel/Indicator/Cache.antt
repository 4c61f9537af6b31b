-- ===== src/Panel/Indicator/Cache.antt =====
-- The labels of the engines' modes that the indicator keeps.
use mathlib.Core.Bool.{false≢true}
use typiod_wayland.Prelude.{
  ℕ, ◌-◌, ◌<◌, ◌≡◌, refl, sym, ap, ◌∙◌, ◌⊎◌, inl, inr, Bool, true, false, List, [], ◌∷◌, ◌||◌, none,
  some, ltb, lt→ltb, if◌then◌else◌, length, take_all, Bool-cases, arith,
}
use typiod_wayland.Text.Bytes.{same_text, same_text_self, same_text_eq, is_empty}
use typiod_wayland.Panel.Indicator.{
  ModeEntry, EngineMode, Indicator, mode_cache_cap, fit, mode_cache_lookup, mode_cache_write,
  mode_cache_update,
}

-- Whether the cache has an entry for the engine.
abbrev pub holds : List ModeEntry → List ℕ → Bool
holds [] engine = false
holds (m ∷ cache) engine = same_text m.engine engine || holds cache engine

is_empty_pos : (text : List ℕ) → 0 < length text → is_empty text ≡ false
is_empty_pos [] h = elim h [ ]
is_empty_pos (c ∷ cs) h = refl

holds_rest :
    (room : ℕ) (m : ModeEntry) (cache : List ModeEntry) (engine : List ℕ)
    → same_text m.engine engine ≡ false
    → (0 < room) ⊎ (holds (m ∷ cache) engine ≡ true)
    → (0 < room) ⊎ (holds cache engine ≡ true)
holds_rest room m cache engine e (inl r) = inl r
holds_rest room m cache engine e (inr h) = inr (sym (ap (λ b. b || holds cache engine) e) ∙ h)

roomy :
    (cache : List ModeEntry) (engine : List ℕ)
    → (length cache < mode_cache_cap) ⊎ (holds cache engine ≡ true)
    → (0 < mode_cache_cap - length cache) ⊎ (holds cache engine ≡ true)
roomy cache engine (inl r) = inl (omega arith)
roomy cache engine (inr h) = inr h

module _ (engine label : List ℕ) (short : length engine < 64) where
  module _ (fits : length label < 64) (pos : 0 < length label) where
    shown : (if is_empty (fit 64 label) then none else some (fit 64 label)) ≡ some label
    shown = rw (take_all 63 label (omega arith)) (rw (is_empty_pos label pos) refl)

    write-lookup :
        (room : ℕ) (cache : List ModeEntry)
        → (0 < room) ⊎ (holds cache engine ≡ true)
        → mode_cache_lookup (mode_cache_write room cache engine (some label)) engine ≡ some label
    unfolding mode_cache_write mode_cache_lookup
    write-lookup room [] (inl r) =
        rw (lt→ltb 0 room r)
          (rw (take_all 63 engine (omega arith)) (rw (same_text_self engine) shown))
    write-lookup room [] (inr r) = absurd (false≢true r)
    write-lookup room (m ∷ cache) h = elim (Bool-cases (same_text m.engine engine)) [
      | inl e ↦ rw e (rw e shown)
      | inr e ↦ rw e (rw e (write-lookup room cache (holds_rest room m cache engine e h)))
    ]

  write-lookup_other :
      (room : ℕ) (cache : List ModeEntry) (other : List ℕ)
      → same_text engine other ≡ false
      → mode_cache_lookup (mode_cache_write room cache engine (some label)) other
        ≡ mode_cache_lookup cache other
  unfolding mode_cache_write mode_cache_lookup
  write-lookup_other room [] other n = elim (Bool-cases (ltb 0 room)) [
    | inl r ↦ rw r (rw (take_all 63 engine (omega arith)) (rw n refl))
    | inr r ↦ rw r refl
  ]
  write-lookup_other room (m ∷ cache) other n = elim (Bool-cases (same_text m.engine engine)) [
    | inl e ↦
        let differs : same_text m.engine other ≡ false =
          ap (λ x. same_text x other) (same_text_eq m.engine engine e) ∙ n in
        rw e (rw differs refl)
    | inr e ↦ rw e (elim (Bool-cases (same_text m.engine other)) [
      | inl o ↦ rw o refl
      | inr o ↦ rw o (write-lookup_other room cache other n)
    ])
  ]

-- The mode's label that is kept for an engine, whose name and label have fewer than 64 bytes and
-- the label one at least, is found again for that engine, where the cache has an entry for it or
-- fewer than eight entries; and for every other engine what was found is found.
pub mode_cache_lookup-update :
    (engine label other : List ℕ) (quiet : Bool) (i : Indicator)
    → length engine < 64
    → length label < 64
    → 0 < length label
    → (length i.mode_cache < mode_cache_cap) ⊎ (holds i.mode_cache engine ≡ true)
    → same_text engine other ≡ false
    → let mode : EngineMode = record { display_label = some label; is_quiet = quiet } in
      let cache = (mode_cache_update engine mode i).mode_cache in
      (mode_cache_lookup cache engine ≡ some label)
      × (mode_cache_lookup cache other ≡ mode_cache_lookup i.mode_cache other)
unfolding mode_cache_update
mode_cache_lookup-update engine label other quiet i short fits pos room n =
    let left = mode_cache_cap - length i.mode_cache in
    (
      write-lookup engine label short fits pos left i.mode_cache (roomy i.mode_cache engine room),
      write-lookup_other engine label short left i.mode_cache other n,
    )
