-- ===== src/Panel/Indicator/Examples.antt =====
-- The indicator at concrete states.
use typiod_wayland.Prelude.{
  ◌≡◌, refl, true, false, ◌&&◌, [], ◌∷◌, none, some, if◌then◌else◌, take, arith,
}
use typiod_wayland.Text.Bytes.{codes}
use typiod_wayland.Panel.Coordinator.{PanelWorld}
use typiod_wayland.Panel.Examples.{world, waiting}
use typiod_wayland.Panel.Indicator.{
  EngineMode, IndicatorWorld, Shown, init_indicator, mode_cache_update, mode_cache_lookup,
  mode_cache_write, build_indicator_label, write_label, write_at, nonempty, is_null, suffix_of,
  cached,
}
use typiod_wayland.Panel.Indicator.Label.{
  build_indicator_label-join, join, segments, engine_segment,
}

abbrev pub away : PanelWorld
away = record world { focused = λ calls. false }

abbrev pub rime : IndicatorWorld
rime = record {
  panel_world = away;
  instance_set = true;
  enabled = true;
  duration_ms = 1500;
  badge = codes "EN";
  engine_name = some (codes "rime");
  display_name = λ name. some (codes "Rime");
}

abbrev ascii : EngineMode
ascii = record { display_label = some (codes "Abc"); is_quiet = false }

abbrev shown : Shown
shown = record { panel = waiting; indicator = init_indicator true }

label-rime :
    (build_indicator_label rime (some ascii) 256 shown.indicator).0
    ≡ some (
        69 ∷ 78 ∷ 32 ∷ 194 ∷ 183 ∷ 32 ∷ 82 ∷ 105 ∷ 109 ∷ 101 ∷ 32 ∷ 194 ∷ 183 ∷ 32 ∷ 65 ∷ 98 ∷ 99
        ∷ [])
unfolding build_indicator_label write_label write_at mode_cache_update mode_cache_write
    mode_cache_lookup init_indicator
label-rime = refl

build_indicator_label-join_example :
    let lang = nonempty (some rime.badge) in
    let eng = engine_segment rime in
    let suffix =
      suffix_of rime.engine_name
        (some ascii)
        (cached rime.engine_name (some ascii) shown.indicator) in
    (build_indicator_label rime (some ascii) 9 shown.indicator).0 ≡ (
      if is_null lang && is_null eng then none else some (take 8 (join (segments lang eng suffix))))
build_indicator_label-join_example =
    build_indicator_label-join rime (some ascii) 9 shown.indicator (omega arith)
