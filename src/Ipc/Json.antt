-- ===== src/Ipc/Json.antt =====
-- Reading fields of a JSON text (src/ipc/tip_json.c). A string is the list of its bytes.
pub mod Builder
pub mod Written
pub mod Strings
pub mod Numbers
pub mod Params
mod Examples
use typiod_wayland.Prelude.{
  ℕ, zero, suc, ◌+◌, ◌-◌, ◌*◌, ◌%◌, Bool, true, false, not, ◌&&◌, ◌||◌, List, [], ◌∷◌, ◌++◌, Option,
  none, some, ltb, leb, ◌==◌, if◌then◌else◌, length,
}
use typiod_wayland.Text.Bytes.{codes, isspace, isdigit, after_strstr}

abbrev pub quote : ℕ
quote = 34

abbrev pub backslash : ℕ
backslash = 92

abbrev pub skip_ws : List ℕ → List ℕ
skip_ws [] = []
skip_ws (c ∷ cs) = if isspace c then skip_ws cs else c ∷ cs

-- The rest after a byte that must come next.
abbrev pub expect : ℕ → List ℕ → Option (List ℕ)
expect b [] = none
expect b (c ∷ cs) = if c == b then some cs else none

abbrev pub then_read : Option (List ℕ) → (List ℕ → Option (List ℕ)) → Option (List ℕ)
then_read none step = none
then_read (some s) step = step s

-- What follows the first occurrence of the quoted key and its colon, past white space.
abbrev pub value_of : List ℕ → List ℕ → Option (List ℕ)
value_of key json =
    then_read (after_strstr (quote ∷ key ++ quote ∷ []) json)
      λ s. then_read (expect 58 (skip_ws s)) λ s'. some (skip_ws s')

-- The bytes before the closing quote, and what is left from it on. An escaped byte closes nothing.
abbrev pub span_string : Bool → List ℕ → List ℕ × List ℕ
span_string escaped [] = ([], [])
span_string escaped (c ∷ cs) =
    let (raw, rest) = span_string (c == backslash && not escaped) cs in
    if c == quote && not escaped then ([], c ∷ cs) else (c ∷ raw, rest)

abbrev pub closed : List ℕ × List ℕ → Option (List ℕ)
closed (raw, []) = none
closed (raw, c ∷ cs) = some raw

-- `tip_json_extract_string`, where memory is had: the text between the quotes as it stands.
unfoldable pub extract_string : List ℕ → List ℕ → Option (List ℕ)
extract_string json key =
    if ltb 100 (length key)
    then none
    else then_read (value_of key json)
        λ s. then_read (expect quote s) λ s'. closed (span_string false s')

-- An `int` is a number with its sign.
pub data ℤ : Type 0 where
  pos : ℕ → ℤ
  negsuc : ℕ → ℤ

-- The value of the leading digits.
abbrev pub digits_value : ℕ → List ℕ → ℕ
digits_value acc [] = acc
digits_value acc (c ∷ cs) = if isdigit c then digits_value (10 * acc + (c - 48)) cs else acc

abbrev pub negative : ℕ → ℤ
negative zero = pos 0
negative (suc n) = negsuc n

abbrev pub signed_value : List ℕ → ℤ
signed_value [] = pos 0
signed_value (c ∷ cs) =
    if c == 45
    then negative (digits_value 0 cs)
    else if c == 43
    then pos (digits_value 0 cs)
    else pos (digits_value 0 (c ∷ cs))

-- `strtol` in base 10 for a value that fits an `int`.
abbrev pub strtol : List ℕ → ℤ
strtol s = signed_value (skip_ws s)

abbrev pub read_id : Option (List ℕ) → Option ℤ
read_id none = none
read_id (some s) = some (strtol s)

unfoldable pub extract_id : List ℕ → Option ℤ
extract_id json = read_id (value_of (codes "id") json)

-- The string of a parameter: a quote after a backslash is passed over, whatever is before that.
abbrev pub skip_string : ℕ → List ℕ → List ℕ × List ℕ
skip_string before [] = ([], [])
skip_string before (c ∷ cs) =
    let (skipped, rest) = skip_string c cs in
    if c == quote && not (before == backslash) then (c ∷ [], cs) else (c ∷ skipped, rest)

-- The object from a byte inside it, at a depth; the fuel is the length of the text.
unfoldable pub object_span : ℕ → ℕ → List ℕ → List ℕ
object_span fuel zero s = []
object_span zero (suc depth) s = []
object_span (suc fuel) (suc depth) [] = []
object_span (suc fuel) (suc depth) (c ∷ cs) =
    let (skipped, rest) = skip_string c cs in
    let after_string = object_span fuel (suc depth) rest in
    let deeper = object_span fuel (suc (suc depth)) cs in
    let shallower = object_span fuel depth cs in
    let same = object_span fuel (suc depth) cs in
    if c == quote
    then c ∷ skipped ++ after_string
    else if c == 123
    then c ∷ deeper
    else if c == 125
    then c ∷ shallower
    else c ∷ same

abbrev pub scalar_span : List ℕ → List ℕ
scalar_span [] = []
scalar_span (c ∷ cs) = if c == 44 || c == 125 then [] else c ∷ scalar_span cs

-- The text of the parameters: none where the call fails, and empty where there are none.
abbrev pub params_text : List ℕ → List ℕ
params_text [] = []
params_text (c ∷ cs) = if c == 123 then c ∷ object_span (length cs) 1 cs else scalar_span (c ∷ cs)

unfoldable pub extract_params : List ℕ → Option (List ℕ)
extract_params json = elim (after_strstr (codes "\"params\"") json) [
  | none ↦ some []
  | some s ↦ then_read (expect 58 (skip_ws s)) λ s'. some (params_text (skip_ws s'))
]
