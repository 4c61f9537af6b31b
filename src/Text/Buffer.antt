-- ===== src/Text/Buffer.antt =====
-- A buffer that doubles its capacity, as in src/ipc/tip_json.c and src/ui/preedit.c. Sizes are
-- below 2 ^ 63, where no doubling wraps.
use typiod_wayland.Prelude.{
  ℕ, zero, suc, ◌*◌, ◌^◌, ◌≤◌, ◌<◌, ◌≡◌, ltb, if◌then◌else◌, arith, Bool-cases, inl, inr,
}

-- `while (cap < needed) cap *= 2`, on fuel.
unfoldable pub double_until : ℕ → ℕ → ℕ → ℕ
double_until zero needed capacity = capacity
double_until (suc fuel) needed capacity =
    let rest = double_until fuel needed (capacity * 2) in
    if ltb capacity needed then rest else capacity

-- Enough rounds for every size.
abbrev pub rounds : ℕ
rounds = 64

double_until-reaches :
    (fuel needed capacity : ℕ)
    → needed ≤ capacity * 2 ^ fuel
    → needed ≤ double_until fuel needed capacity
unfolding double_until
double_until-reaches zero needed capacity h = omega (arith, h)
double_until-reaches (suc fuel) needed capacity h =
    let double : 2 ^ suc fuel ≡ 2 * 2 ^ fuel = omega arith in
    let e : capacity * 2 * 2 ^ fuel ≡ capacity * 2 ^ suc fuel = rw double (omega arith) in
    elim (Bool-cases (ltb capacity needed)) [
      | inl l ↦ rw l (double_until-reaches fuel needed (capacity * 2) (omega (arith, e, h)))
      | inr l ↦ rw l (ground (arith, l))
    ]

-- The loop ends with the capacity that is needed, of at most 2 ^ 63, within the rounds.
pub double_until_enough :
    (needed capacity : ℕ)
    → needed ≤ 9223372036854775808
    → 0 < capacity
    → needed ≤ double_until rounds needed capacity
double_until_enough needed capacity h k =
    double_until-reaches rounds needed capacity (omega (arith, h, k))
