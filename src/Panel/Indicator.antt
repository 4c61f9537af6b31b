-- ===== src/Panel/Indicator.antt =====
-- The status indicator (src/wayland/indicator.c): its label, the pause after input, and the panel
-- that shows it. Texts are bytes before the NUL; the timer's calls are recorded in `timer`.
pub mod Label
pub mod Cache
pub mod Kept
pub mod Examples
use typiod_wayland.Prelude.{
  ℕ, ◌+◌, ◌-◌, ◌*◌, Bool, true, false, not, ◌&&◌, ◌||◌, List, [], ◌∷◌, ◌++◌, Option, none, some,
  sub64, ltb, ◌==◌, if◌then◌else◌, length, take,
}
use typiod_wayland.Text.Bytes.{same_text, is_empty, text_or_empty}
use typiod_wayland.Panel.Coordinator.{
  PanelFrontend, PanelWorld, UiOwner, owner_indicator, show_status, hide,
}

-- TYPIO_INDICATOR_MODE_CACHE_CAP
abbrev pub mode_cache_cap : ℕ
mode_cache_cap = 8

-- What `snprintf(array, size, "%s", text)` leaves in an array of `size` bytes, for a size above 0.
abbrev pub fit : ℕ → List ℕ → List ℕ
fit size text = take (size - 1) text

pub record ModeEntry : Type 0 where
  pub engine : List ℕ
  pub display_label : List ℕ

pub data TimerCall : Type 0 where
  arm_ms : ℕ → TimerCall
  disarm : TimerCall
  close_fd : TimerCall

-- `TypioWlIndicator`; the cache is the entries that are used.
pub record Indicator : Type 0 where
  pub timer_fd : Bool
  pub active : Bool
  pub last_key_activity_ms : ℕ
  pub last_indicator_ms : ℕ
  pub mode_cache : List ModeEntry
  pub pending_label : List ℕ
  pub timer : List TimerCall

-- `TypioKeyboardEngineMode`, the fields that the indicator reads.
pub record EngineMode : Type 0 where
  pub display_label : Option (List ℕ)
  pub is_quiet : Bool

-- What libtypio answers: whether there is an instance, the configuration's values (a negative
-- duration is 0), the active language's badge, the active keyboard engine and its display name.
pub record IndicatorWorld : Type 0 where
  pub panel_world : PanelWorld
  pub instance_set : Bool
  pub enabled : Bool
  pub duration_ms : ℕ
  pub badge : List ℕ
  pub engine_name : Option (List ℕ)
  pub display_name : List ℕ → Option (List ℕ)

pub record Shown : Type 0 where
  pub panel : PanelFrontend
  pub indicator : Indicator

abbrev pub on_indicator : (Indicator → Indicator) → Shown → Shown
on_indicator step s = record s { indicator = step s.indicator }

unfoldable pub mode_cache_lookup : List ModeEntry → List ℕ → Option (List ℕ)
mode_cache_lookup [] engine_name = none
mode_cache_lookup (m ∷ cache) engine_name =
    if same_text m.engine engine_name
    then if is_empty m.display_label then none else some m.display_label
    else mode_cache_lookup cache engine_name

-- The loop of `mode_cache_update` over the entries that are used; `room` is what is left behind them.
unfoldable pub mode_cache_write : ℕ → List ModeEntry → List ℕ → Option (List ℕ) → List ModeEntry
mode_cache_write room [] engine_name label =
    if ltb 0 room
    then record { engine = fit 64 engine_name; display_label = fit 64 (text_or_empty label) } ∷ []
    else []
mode_cache_write room (m ∷ cache) engine_name label =
    if same_text m.engine engine_name
    then record m { display_label = fit 64 (text_or_empty label) } ∷ cache
    else m ∷ mode_cache_write room cache engine_name label

unfoldable pub mode_cache_update : List ℕ → EngineMode → Indicator → Indicator
mode_cache_update engine_name mode i = record i {
  mode_cache =
      mode_cache_write (mode_cache_cap - length i.mode_cache) i.mode_cache engine_name
        mode.display_label;
}

-- The label's array and the length that it would have without its bound.
abbrev pub Written : Type 0
Written = List ℕ × ℕ

-- One `snprintf` at the end of a label in an array of `size` bytes, where there is room.
unfoldable pub write_at : ℕ → List ℕ → Written → Written
write_at size text (label, n) =
    if ltb n size then (label ++ take (size - n - 1) text, n + length text) else (label, n)

-- " · "
abbrev pub separator : List ℕ
separator = 32 ∷ 194 ∷ 183 ∷ 32 ∷ []

abbrev pub nonempty : Option (List ℕ) → Option (List ℕ)
nonempty none = none
nonempty (some []) = none
nonempty (some (c ∷ cs)) = some (c ∷ cs)

abbrev pub first_of : Option (List ℕ) → Option (List ℕ) → Option (List ℕ)
first_of none b = b
first_of (some a) b = some a

abbrev pub is_null : Option (List ℕ) → Bool
is_null none = true
is_null (some a) = false

-- The text of a segment that may be absent.
abbrev pub write_opt : ℕ → List ℕ → Option (List ℕ) → Written → Written
write_opt size before none w = w
write_opt size before (some text) w = write_at size (before ++ text) w

-- The segments of the label, written one behind the other; the mode's only behind an engine's.
unfoldable pub write_label : ℕ → Option (List ℕ) → Option (List ℕ) → Option (List ℕ) → Written
write_label size lang none suffix = write_opt size [] lang ([], 0)
write_label size lang (some eng) suffix =
    let (label, n) = write_opt size [] lang ([], 0) in
    write_opt size separator suffix
      (write_at size ((if ltb 0 n then separator else []) ++ eng) (label, n))

-- The label of the mode, or else the one that the cache has for the engine.
abbrev pub suffix_of : Option (List ℕ) → Option EngineMode → Indicator → Option (List ℕ)
suffix_of none mode i = none
suffix_of (some name) none i = mode_cache_lookup i.mode_cache name
suffix_of (some name) (some mode) i =
    first_of (nonempty mode.display_label) (mode_cache_lookup i.mode_cache name)

abbrev pub cached : Option (List ℕ) → Option EngineMode → Indicator → Indicator
cached (some name) (some mode) i = mode_cache_update name mode i
cached name mode i = i

abbrev pub display_of : IndicatorWorld → Option (List ℕ)
display_of w = elim w.engine_name [ none ↦ none | some name ↦ w.display_name name ]

-- `build_indicator_label`, with an instance: the label where there is one, and the cache's update.
unfoldable pub build_indicator_label :
    IndicatorWorld → Option EngineMode → ℕ → Indicator → Option (List ℕ) × Indicator
build_indicator_label w mode size i =
    let lang = nonempty (some w.badge) in
    let eng = first_of (nonempty (display_of w)) (nonempty w.engine_name) in
    let i1 = cached w.engine_name mode i in
    if is_null lang && is_null eng
    then (none, i)
    else let (label, n) = write_label size lang eng (suffix_of w.engine_name mode i1) in
      (if ltb 0 n then some label else none, i1)

-- `indicator_duration_ms`
unfoldable pub indicator_duration_ms : IndicatorWorld → ℕ
indicator_duration_ms w =
    if ltb w.duration_ms 100 then 100 else if ltb 10000 w.duration_ms then 10000 else w.duration_ms

abbrev pub set_timer : TimerCall → Indicator → Indicator
set_timer c i = if i.timer_fd then record i { timer = i.timer ++ c ∷ [] } else i

module _ (w : IndicatorWorld) where
  -- `typio_wl_frontend_show_indicator`
  unfoldable pub show_indicator : List ℕ → Shown → Shown
  show_indicator text s =
      let (p, shown) = show_status w.panel_world owner_indicator text s.panel in
      let i = s.indicator in
      if is_empty text || not w.enabled || not s.panel.panel
      then s
      else if shown
      then record {
        panel = p;
        indicator =
            record (set_timer (arm_ms (indicator_duration_ms w))
              (record i { active = true; last_indicator_ms = w.panel_world.now })) {
                pending_label = [];
              };
      }
      else record { panel = p; indicator = record i { pending_label = fit 128 text } }

  abbrev pub show_label : Option (List ℕ) → Shown → Shown
  show_label none s = s
  show_label (some label) s = show_indicator label s

  -- `typio_wl_frontend_show_indicator_for_state`
  unfoldable pub show_indicator_for_state : Option EngineMode → Shown → Shown
  show_indicator_for_state mode s =
      let (label, i) = build_indicator_label w mode 256 s.indicator in
      if not w.instance_set || not w.enabled || not s.panel.panel
      then s
      else show_label label (record s { indicator = i })

  abbrev pub is_quiet_mode : Option EngineMode → Bool
  is_quiet_mode none = false
  is_quiet_mode (some mode) = mode.is_quiet

  -- The last input or indicator, in milliseconds.
  abbrev pub acknowledged : Indicator → ℕ
  acknowledged i =
      if ltb i.last_indicator_ms i.last_key_activity_ms
      then i.last_key_activity_ms
      else i.last_indicator_ms

  -- `typio_wl_frontend_show_indicator_on_focus`; the copy of the label has 256 bytes.
  unfoldable pub show_indicator_on_focus : Option EngineMode → Shown → Shown
  show_indicator_on_focus mode s =
      let ack = acknowledged s.indicator in
      if not (is_empty s.indicator.pending_label)
      then show_indicator (fit 256 s.indicator.pending_label)
          (on_indicator (λ i. record i { pending_label = [] }) s)
      else if is_quiet_mode mode || (ltb 0 ack && ltb (sub64 w.panel_world.now ack) 3000)
      then s
      else show_indicator_for_state mode s

  -- `typio_wl_frontend_record_key_activity`
  unfoldable pub record_key_activity : Shown → Shown
  record_key_activity s =
      on_indicator (λ i. record i { last_key_activity_ms = w.panel_world.now }) s

  -- `typio_wl_frontend_hide_indicator`
  unfoldable pub hide_indicator : Shown → Shown
  hide_indicator s = record {
    panel = hide w.panel_world owner_indicator s.panel;
    indicator = set_timer disarm (record s.indicator { active = false });
  }

  -- `typio_wl_frontend_dispatch_indicator_timer`, by whether the expirations can be read.
  unfoldable pub dispatch_indicator_timer : Bool → Shown → Shown
  dispatch_indicator_timer expired s =
      if not s.indicator.timer_fd || not expired then s else hide_indicator s

  -- `typio_wl_frontend_destroy_indicator`
  unfoldable pub destroy_indicator : Shown → Shown
  destroy_indicator s =
      on_indicator (λ i. record (set_timer close_fd i) { timer_fd = false; active = false }) s

-- `typio_wl_frontend_init_indicator` on the zeroed struct: whether the timer is had.
unfoldable pub init_indicator : Bool → Indicator
init_indicator timer = record {
  timer_fd = timer;
  active = false;
  last_key_activity_ms = 0;
  last_indicator_ms = 0;
  mode_cache = [];
  pending_label = [];
  timer = [];
}
