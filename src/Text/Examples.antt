-- ===== src/Text/Examples.antt =====
-- The text buffers at concrete inputs.
use typiod_wayland.Prelude.{refl, true, [], ◌∷◌, none, some, arith}
use typiod_wayland.Text.Preedit.{build_plain_preedit}
use typiod_wayland.Text.Preedit.Laws.{plain, IsPlain, build_plain_preedit-IsPlain, with_cursor}

build_plain_preedit-IsPlain_example :
    IsPlain (plain (some (110 ∷ 105 ∷ []) ∷ none ∷ some (33 ∷ []) ∷ [])) none (
      build_plain_preedit
        (λ n. true)
        (with_cursor (some (110 ∷ 105 ∷ [])) (none ∷ some (33 ∷ []) ∷ []) none))
build_plain_preedit-IsPlain_example =
    build_plain_preedit-IsPlain (λ n. true) (λ n. refl) (some (110 ∷ 105 ∷ []))
      (none ∷ some (33 ∷ []) ∷ []) none (omega arith)
