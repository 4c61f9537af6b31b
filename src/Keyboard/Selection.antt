-- ===== src/Keyboard/Selection.antt =====
-- The candidate guard and the host-managed selection (src/wayland/candidate_guard.h and
-- candidate_guard.c). The keysyms are xkbcommon's and the flags libtypio's; a selected index is
-- `none` where the source has -1.
pub mod Resolve
use typiod_wayland.Prelude.{
  ℕ, zero, suc, ◌+◌, ◌-◌, Bool, true, false, not, ◌&&◌, ◌||◌, Option, none, some, bit_and, ltb, leb,
  ◌==◌, if◌then◌else◌,
}

pub record SelectionKeys : Type 0 where
  pub up : ℕ
  pub down : ℕ
  pub left : ℕ
  pub right : ℕ
  pub space : ℕ
  pub return_key : ℕ
  pub kp_enter : ℕ
  pub digit_0 : ℕ
  pub digit_1 : ℕ
  pub digit_9 : ℕ

pub record SelectionFlags : Type 0 where
  pub navigate : ℕ
  pub commit : ℕ
  pub commit_raw : ℕ
  pub index_pick : ℕ

-- `TypioWlHostSelKey`
pub data HostSelKey : Type 0 where
  sel_none : HostSelKey
  sel_nav_up : HostSelKey
  sel_nav_down : HostSelKey
  sel_commit_selected : HostSelKey
  sel_commit_raw : HostSelKey
  sel_commit_index_1 : HostSelKey
  sel_commit_index_2 : HostSelKey
  sel_commit_index_3 : HostSelKey
  sel_commit_index_4 : HostSelKey
  sel_commit_index_5 : HostSelKey
  sel_commit_index_6 : HostSelKey
  sel_commit_index_7 : HostSelKey
  sel_commit_index_8 : HostSelKey
  sel_commit_index_9 : HostSelKey
  sel_commit_index_0 : HostSelKey

-- `TypioWlHostSelCategory`
pub data HostSelCategory : Type 0 where
  category_none : HostSelCategory
  category_navigate : HostSelCategory
  category_commit : HostSelCategory
  category_commit_raw : HostSelCategory
  category_index_pick : HostSelCategory

unfoldable pub host_selection_category : HostSelKey → HostSelCategory
host_selection_category sel_none = category_none
host_selection_category sel_nav_up = category_navigate
host_selection_category sel_nav_down = category_navigate
host_selection_category sel_commit_selected = category_commit
host_selection_category sel_commit_raw = category_commit_raw
host_selection_category _ = category_index_pick

-- `TYPIO_WL_HOST_SEL_COMMIT_INDEX_1 + n`, for n below 9.
abbrev pub commit_index : ℕ → HostSelKey
commit_index n =
    if n == 0
    then sel_commit_index_1
    else if n == 1
    then sel_commit_index_2
    else if n == 2
    then sel_commit_index_3
    else if n == 3
    then sel_commit_index_4
    else if n == 4
    then sel_commit_index_5
    else if n == 5
    then sel_commit_index_6
    else if n == 6
    then sel_commit_index_7
    else if n == 7
    then sel_commit_index_8
    else sel_commit_index_9

unfoldable pub host_selection_keysym : SelectionKeys → ℕ → HostSelKey
host_selection_keysym keys keysym =
    if keysym == keys.up || keysym == keys.left
    then sel_nav_up
    else if keysym == keys.down || keysym == keys.right
    then sel_nav_down
    else if keysym == keys.space
    then sel_commit_selected
    else if keysym == keys.return_key || keysym == keys.kp_enter
    then sel_commit_raw
    else if leb keys.digit_1 keysym && leb keysym keys.digit_9
    then commit_index (keysym - keys.digit_1)
    else if keysym == keys.digit_0
    then sel_commit_index_0
    else sel_none

abbrev pub picked : ℕ → ℕ → Option ℕ
picked index count = if ltb index count then some index else none

-- The index that a key of the selection means, with `count` candidates, fewer than 2 ^ 31.
unfoldable pub host_selection_resolve : HostSelKey → Option ℕ → ℕ → Option ℕ
host_selection_resolve sel selected zero = none
host_selection_resolve sel_nav_up none (suc max) = some 0
host_selection_resolve sel_nav_up (some i) (suc max) = some (i - 1)
host_selection_resolve sel_nav_down none (suc max) = some 0
host_selection_resolve sel_nav_down (some i) (suc max) = some (if ltb i max then i + 1 else max)
host_selection_resolve sel_commit_selected none (suc max) = some 0
host_selection_resolve sel_commit_selected (some i) (suc max) = some i
host_selection_resolve sel_commit_index_0 selected (suc max) = picked 9 (suc max)
host_selection_resolve sel_commit_index_1 selected (suc max) = picked 0 (suc max)
host_selection_resolve sel_commit_index_2 selected (suc max) = picked 1 (suc max)
host_selection_resolve sel_commit_index_3 selected (suc max) = picked 2 (suc max)
host_selection_resolve sel_commit_index_4 selected (suc max) = picked 3 (suc max)
host_selection_resolve sel_commit_index_5 selected (suc max) = picked 4 (suc max)
host_selection_resolve sel_commit_index_6 selected (suc max) = picked 5 (suc max)
host_selection_resolve sel_commit_index_7 selected (suc max) = picked 6 (suc max)
host_selection_resolve sel_commit_index_8 selected (suc max) = picked 7 (suc max)
host_selection_resolve sel_commit_index_9 selected (suc max) = picked 8 (suc max)
host_selection_resolve sel_none selected (suc max) = none
host_selection_resolve sel_commit_raw selected (suc max) = none

unfoldable pub host_selection_is_commit : HostSelKey → Bool
host_selection_is_commit sel_none = false
host_selection_is_commit sel_nav_up = false
host_selection_is_commit sel_nav_down = false
host_selection_is_commit _ = true

abbrev has_flag : ℕ → ℕ → Bool
has_flag flags flag = not (bit_and flags flag == 0)

abbrev is_navigation_keysym : SelectionKeys → ℕ → Bool
is_navigation_keysym keys keysym =
    keysym == keys.up || keysym == keys.down || keysym == keys.left || keysym == keys.right

-- Whether the host takes a key of the category.
abbrev pub takes : SelectionFlags → ℕ → HostSelCategory → Bool
takes f flags category_none = false
takes f flags category_navigate = has_flag flags f.navigate
takes f flags category_commit = has_flag flags f.commit
takes f flags category_commit_raw = has_flag flags f.commit_raw
takes f flags category_index_pick = has_flag flags f.index_pick

-- `typio_wl_candidate_guard_should_consume`, by the session's candidate count and its
-- `last_host_managed_selection`. Neither none key has a category that is taken.
unfoldable pub should_consume : SelectionKeys → SelectionFlags → ℕ → ℕ → ℕ → Bool
should_consume keys f count flags keysym =
    if count == 0
    then false
    else if flags == 0
    then is_navigation_keysym keys keysym
    else takes f flags (host_selection_category (host_selection_keysym keys keysym))
