-- ===== src/Keyboard/Selection/Resolve.antt =====
-- The bounds of the host-managed selection (src/wayland/candidate_guard.c).
use typiod_wayland.Prelude.{
  ℕ, zero, suc, ◌<◌, ◌≡◌, refl, Bool, true, false, Option, none, some, ltb, arith, Bool-cases, inl,
  inr,
}
use typiod_wayland.Keyboard.Selection.{
  HostSelCategory, HostSelKey, sel_none, sel_nav_up, sel_nav_down, sel_commit_selected,
  sel_commit_raw, sel_commit_index_0, sel_commit_index_1, sel_commit_index_2, sel_commit_index_3,
  sel_commit_index_4, sel_commit_index_5, sel_commit_index_6, sel_commit_index_7,
  sel_commit_index_8, sel_commit_index_9, category_none, category_navigate, host_selection_category,
  host_selection_resolve, host_selection_is_commit, picked,
}

-- The selected index, where there is one, is that of a candidate.
abbrev pub InRange : Option ℕ → ℕ → Type 0
InRange none count = Unit {0}
InRange (some i) count = i < count

picked-InRange : (index count : ℕ) → InRange (picked index count) count
picked-InRange index count = elim (Bool-cases (ltb index count)) [
  | inl e ↦ rw e (ground (arith, e))
  | inr e ↦ rw e tt
]

-- Whatever the key and the number of candidates: where the selected index is that of a candidate,
-- or there is none, the index that the key means, if any, is that of a candidate.
pub resolve-InRange :
    (sel : HostSelKey) (selected : Option ℕ) (count : ℕ)
    → InRange selected count
    → InRange (host_selection_resolve sel selected count) count
unfolding host_selection_resolve
resolve-InRange sel selected zero h = tt
resolve-InRange sel_nav_up none (suc max) h = omega arith
resolve-InRange sel_nav_up (some i) (suc max) h = omega (arith, h)
resolve-InRange sel_nav_down none (suc max) h = omega arith
resolve-InRange sel_nav_down (some i) (suc max) h = ground (arith, h)
resolve-InRange sel_commit_selected none (suc max) h = omega arith
resolve-InRange sel_commit_selected (some i) (suc max) h = h
resolve-InRange sel_commit_index_0 selected (suc max) h = picked-InRange 9 (suc max)
resolve-InRange sel_commit_index_1 selected (suc max) h = picked-InRange 0 (suc max)
resolve-InRange sel_commit_index_2 selected (suc max) h = picked-InRange 1 (suc max)
resolve-InRange sel_commit_index_3 selected (suc max) h = picked-InRange 2 (suc max)
resolve-InRange sel_commit_index_4 selected (suc max) h = picked-InRange 3 (suc max)
resolve-InRange sel_commit_index_5 selected (suc max) h = picked-InRange 4 (suc max)
resolve-InRange sel_commit_index_6 selected (suc max) h = picked-InRange 5 (suc max)
resolve-InRange sel_commit_index_7 selected (suc max) h = picked-InRange 6 (suc max)
resolve-InRange sel_commit_index_8 selected (suc max) h = picked-InRange 7 (suc max)
resolve-InRange sel_commit_index_9 selected (suc max) h = picked-InRange 8 (suc max)
resolve-InRange sel_none selected (suc max) h = tt
resolve-InRange sel_commit_raw selected (suc max) h = tt

abbrev pub is_commit_category : HostSelCategory → Bool
is_commit_category category_none = false
is_commit_category category_navigate = false
is_commit_category _ = true

-- A key commits exactly when its category is one of the three that commit.
pub host_selection_is_commit_lem :
    (sel : HostSelKey)
    → host_selection_is_commit sel ≡ is_commit_category (host_selection_category sel)
unfolding host_selection_is_commit host_selection_category
host_selection_is_commit_lem sel_none = refl
host_selection_is_commit_lem sel_nav_up = refl
host_selection_is_commit_lem sel_nav_down = refl
host_selection_is_commit_lem sel_commit_selected = refl
host_selection_is_commit_lem sel_commit_raw = refl
host_selection_is_commit_lem sel_commit_index_0 = refl
host_selection_is_commit_lem sel_commit_index_1 = refl
host_selection_is_commit_lem sel_commit_index_2 = refl
host_selection_is_commit_lem sel_commit_index_3 = refl
host_selection_is_commit_lem sel_commit_index_4 = refl
host_selection_is_commit_lem sel_commit_index_5 = refl
host_selection_is_commit_lem sel_commit_index_6 = refl
host_selection_is_commit_lem sel_commit_index_7 = refl
host_selection_is_commit_lem sel_commit_index_8 = refl
host_selection_is_commit_lem sel_commit_index_9 = refl
