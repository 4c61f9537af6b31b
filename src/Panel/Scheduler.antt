-- ===== src/Panel/Scheduler.antt =====
-- When the panel is redrawn (src/wayland/panel_scheduler.c).
use typiod_wayland.Prelude.{
  ℕ, ◌≤◌, ◌≡◌, Bool, true, false, not, ◌&&◌, ◌||◌, Option, none, some, leb, if◌then◌else◌,
  Bool-cases, inl, inr, arith,
}

-- `TypioWlPanelScheduleState`
pub data PanelScheduleState : Type 0 where
  schedule_idle : PanelScheduleState
  schedule_dirty : PanelScheduleState
  schedule_retry : PanelScheduleState

-- `TypioPanelUpdateResult`
pub data PanelUpdateResult : Type 0 where
  update_ok : PanelUpdateResult
  update_retry : PanelUpdateResult
  update_fail : PanelUpdateResult

unfoldable pub mark_dirty : PanelScheduleState → PanelScheduleState
mark_dirty st = schedule_dirty

unfoldable pub complete : PanelUpdateResult → PanelScheduleState
complete update_retry = schedule_retry
complete _ = schedule_idle

abbrev pub cancel : PanelScheduleState
cancel = schedule_idle

abbrev pub is_idle : PanelScheduleState → Bool
is_idle schedule_idle = true
is_idle _ = false

abbrev pub is_retry : PanelScheduleState → Bool
is_retry schedule_retry = true
is_retry _ = false

unfoldable pub should_flush : PanelScheduleState → Bool → Bool → Bool → Bool
should_flush st has_session has_context context_focused =
    not (is_idle st) && has_session && has_context && context_focused

abbrev pub is_short : Option ℕ → Bool
is_short none = false
is_short (some ms) = leb ms 16

-- A timeout is none where it is negative, which blocks.
unfoldable pub poll_timeout_ms : PanelScheduleState → Bool → Option ℕ → Option ℕ
poll_timeout_ms st flushable timeout =
    if not (is_retry st) || not flushable || is_short timeout then timeout else some 16

-- A poll that may last no longer than another.
abbrev pub Sooner : Option ℕ → Option ℕ → Type 0
Sooner timeout none = Unit {0}
Sooner none (some ms) = ⊥
Sooner (some t) (some ms) = t ≤ ms

-- The panel never makes the poll longer, and a retry that can be flushed wakes it within 16 ms.
pub poll_timeout_ms-Sooner :
    (st : PanelScheduleState) (flushable : Bool) (timeout : Option ℕ)
    → Sooner (poll_timeout_ms st flushable timeout) timeout
      × (is_retry st ≡ true
          → flushable ≡ true
          → Sooner (poll_timeout_ms st flushable timeout) (some 16))
unfolding poll_timeout_ms
poll_timeout_ms-Sooner schedule_idle flushable none = (tt, λ r f. absurd (ground (arith, r)))
poll_timeout_ms-Sooner schedule_idle flushable (some ms) =
    (omega arith, λ r f. absurd (ground (arith, r)))
poll_timeout_ms-Sooner schedule_dirty flushable none = (tt, λ r f. absurd (ground (arith, r)))
poll_timeout_ms-Sooner schedule_dirty flushable (some ms) =
    (omega arith, λ r f. absurd (ground (arith, r)))
poll_timeout_ms-Sooner schedule_retry false none = (tt, λ r f. absurd (ground (arith, f)))
poll_timeout_ms-Sooner schedule_retry false (some ms) =
    (omega arith, λ r f. absurd (ground (arith, f)))
poll_timeout_ms-Sooner schedule_retry true none = (tt, λ r f. omega arith)
poll_timeout_ms-Sooner schedule_retry true (some ms) = elim (Bool-cases (leb ms 16)) [
  | inl e ↦ rw e (omega arith, λ r f. ground (arith, e))
  | inr e ↦ rw e (ground (arith, e), λ r f. omega arith)
]
