-- ===== src/Ipc/Json/Builder.antt =====
-- Writing JSON texts (src/ipc/tip_json.c). Memory is had.
use typiod_wayland.Prelude.{
  ℕ, zero, suc, Bool, false, ◌||◌, ◌+◌, ◌*◌, ◌/◌, ◌%◌, List, [], ◌∷◌, ◌++◌, Option, none, some, ltb,
  leb, ◌==◌, if◌then◌else◌, length,
}
use typiod_wayland.Text.Bytes.{codes}
use typiod_wayland.Text.Buffer.{rounds, double_until}
use typiod_wayland.Ipc.Json.{quote, backslash, ℤ, pos, negsuc}

-- `TipJsonBuilder`; `len` is the length of `buf`. `overflowed` tells whether a byte was ever stored
-- past the capacity of that time, which C does not define.
pub record JsonBuilder : Type 0 where
  pub buf : List ℕ
  pub capacity : ℕ
  pub overflowed : Bool

abbrev pub builder_new : JsonBuilder
builder_new = record { buf = []; capacity = 256; overflowed = false }

unfoldable pub ensure_cap : JsonBuilder → ℕ → JsonBuilder
ensure_cap b need =
    if leb b.capacity (length b.buf + need)
    then record b { capacity = double_until rounds (length b.buf + need + 1) (b.capacity * 2) }
    else b

-- The bytes and their NUL are stored behind the text.
abbrev pub store : JsonBuilder → List ℕ → JsonBuilder
store b s = record b {
  buf = b.buf ++ s;
  overflowed = b.overflowed || leb b.capacity (length b.buf + length s);
}

unfoldable pub append_raw : JsonBuilder → List ℕ → JsonBuilder
append_raw b s = store (ensure_cap b (length s + 1)) s

abbrev pub hex_digit : ℕ → ℕ
hex_digit n = if ltb n 10 then 48 + n else 87 + n

-- What is written for one byte of a string.
unfoldable pub escape : ℕ → List ℕ
escape c =
    if c == quote
    then backslash ∷ quote ∷ []
    else if c == backslash
    then backslash ∷ backslash ∷ []
    else if c == 8
    then codes "\\b"
    else if c == 12
    then codes "\\f"
    else if c == 10
    then codes "\\n"
    else if c == 13
    then codes "\\r"
    else if c == 9
    then codes "\\t"
    else if ltb c 32
    then codes "\\u00" ++ hex_digit (c / 16) ∷ hex_digit (c % 16) ∷ []
    else c ∷ []

unfoldable pub append_escaped : JsonBuilder → List ℕ → JsonBuilder
append_escaped b [] = b
append_escaped b (c ∷ cs) = append_escaped (append_raw b (escape c)) cs

-- A null text is written as the empty one.
unfoldable pub append_string : JsonBuilder → List ℕ → JsonBuilder
append_string b s = append_raw (append_escaped (append_raw b (quote ∷ [])) s) (quote ∷ [])

-- The digits of a number below 10 ^ fuel in front of others.
abbrev pub decimal : ℕ → ℕ → List ℕ → List ℕ
decimal zero n rest = rest
decimal (suc fuel) n rest =
    let more = decimal fuel (n / 10) ((48 + n % 10) ∷ rest) in
    if ltb n 10 then (48 + n) ∷ rest else more

-- `%d`, which writes at most ten digits.
abbrev pub int_text : ℤ → List ℕ
int_text (pos n) = decimal 10 n []
int_text (negsuc n) = 45 ∷ decimal 10 (suc n) []

unfoldable pub append_int : JsonBuilder → ℤ → JsonBuilder
append_int b v = append_raw b (int_text v)

abbrev pub json_or : List ℕ → Option (List ℕ) → List ℕ
json_or d none = d
json_or d (some s) = s

unfoldable pub build_response : ℤ → Option (List ℕ) → List ℕ
build_response id result =
    let b1 = append_raw builder_new (codes "{\"jsonrpc\":\"2.0\",\"id\":") in
    let b2 = append_raw (append_int b1 id) (codes ",\"result\":") in
    (append_raw (append_raw b2 (json_or (codes "null") result)) (codes "}")).buf

unfoldable pub build_error : ℤ → ℤ → List ℕ → List ℕ
build_error id code message =
    let b1 = append_raw builder_new (codes "{\"jsonrpc\":\"2.0\",\"id\":") in
    let b2 = append_raw (append_int b1 id) (codes ",\"error\":{\"code\":") in
    let b3 = append_raw (append_int b2 code) (codes ",\"message\":") in
    (append_raw (append_string b3 message) (codes "}}")).buf

unfoldable pub build_notify : List ℕ → Option (List ℕ) → List ℕ
build_notify method params =
    let b1 = append_raw builder_new (codes "{\"jsonrpc\":\"2.0\",\"method\":") in
    let b2 = append_raw (append_string b1 method) (codes ",\"params\":") in
    (append_raw (append_raw b2 (json_or (codes "{}") params)) (codes "}")).buf
