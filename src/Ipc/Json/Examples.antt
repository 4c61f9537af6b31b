-- ===== src/Ipc/Json/Examples.antt =====
-- JSON texts at concrete inputs.
use typiod_wayland.Prelude.{ℕ, ◌≡◌, refl, List, [], ◌∷◌, ◌++◌, none, some, arith}
use typiod_wayland.Text.Bytes.{codes}
use typiod_wayland.Ipc.Json.{quote, extract_string, extract_params, object_span}
use typiod_wayland.Ipc.Json.Builder.{
  build_notify, builder_new, append_string, append_raw, append_escaped, ensure_cap, escape,
}
use typiod_wayland.Ipc.Json.Written.{HasRoom}
use typiod_wayland.Ipc.Json.Strings.{append_string-HasRoom, Decodes, extract_string-build_notify}

escaped_text :
    build_notify (codes "a\"b\n") none
    ≡ codes "{\"jsonrpc\":\"2.0\",\"method\":\"a\\\"b\\n\",\"params\":{}}"
unfolding build_notify append_string append_raw append_escaped ensure_cap escape
escaped_text = refl

balanced_params :
    extract_params (codes "{\"params\": {\"a\":{\"b\":\"}\"}}, \"id\":3}")
    ≡ some (codes "{\"a\":{\"b\":\"}\"}}")
unfolding extract_params object_span
balanced_params = refl

extract_string-build_notify_example :
    (raw : List ℕ) × (extract_string (build_notify (codes "say \"hi\"") none) (codes "method")
      ≡ some raw)
    × Decodes raw (codes "say \"hi\"")
extract_string-build_notify_example = extract_string-build_notify (codes "say \"hi\"") none

append_string-HasRoom_example :
    (raw : List ℕ) × ((append_string builder_new (9 ∷ 1 ∷ [])).buf
      ≡ [] ++ (quote ∷ raw ++ quote ∷ []))
    × Decodes raw (9 ∷ 1 ∷ [])
    × HasRoom (append_string builder_new (9 ∷ 1 ∷ []))
append_string-HasRoom_example =
    append_string-HasRoom builder_new (9 ∷ 1 ∷ []) (refl, omega arith) (omega arith)
