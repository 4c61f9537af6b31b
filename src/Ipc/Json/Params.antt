-- ===== src/Ipc/Json/Params.antt =====
-- The scan of the parameters' object (src/ipc/tip_json.c).
use typiod_wayland.Prelude.{
  ℕ, zero, suc, ◌+◌, ◌≤◌, ◌≡◌, ◌≢◌, refl, sym, ◌∙◌, ap, false, not, ◌&&◌, List, [], ◌∷◌, ◌++◌, some,
  ◌==◌, length, if_both, arith,
}
use mathlib.Core.List.{append-nil}
use typiod_wayland.Text.Bytes.{codes}
use typiod_wayland.Ipc.Json.{quote, backslash, skip_string, object_span, extract_params}

skip_string_le : (before : ℕ) (s : List ℕ) → length (skip_string before s).1 ≤ length s
skip_string_le before [] = omega arith
skip_string_le before (c ∷ cs) =
    let deeper = skip_string_le c cs in
    if_both (λ (r : List ℕ × List ℕ). length r.1 ≤ suc (length cs))
      (c == quote && not (before == backslash)) (λ e. omega arith) (λ e. omega (arith, deeper))

object_span-nil : (fuel depth : ℕ) → object_span fuel depth [] ≡ []
unfolding object_span
object_span-nil fuel zero = refl
object_span-nil zero (suc depth) = refl
object_span-nil (suc fuel) (suc depth) = refl

-- The scan of an object at any depth reads no byte twice: with fuel for the length of the text it
-- ends as it does with any greater fuel.
object_span_enough :
    (more fuel depth : ℕ) (s : List ℕ)
    → length s ≤ fuel
    → object_span (fuel + more) depth s ≡ object_span fuel depth s
unfolding object_span
object_span_enough more fuel zero s h = refl
object_span_enough more fuel (suc depth) [] h =
    object_span-nil (fuel + more) (suc depth) ∙ sym (object_span-nil fuel (suc depth))
object_span_enough more zero (suc depth) (c ∷ cs) h = absurd (omega arith)
object_span_enough more (suc fuel) (suc depth) (c ∷ cs) h =
    let sum : suc fuel + more ≡ suc (fuel + more) = omega arith in
    let short : length cs ≤ fuel = omega arith in
    let rest = (skip_string c cs).1 in
    let after =
      object_span_enough more fuel (suc depth) rest (omega (arith, skip_string_le c cs, short)) in
    let deeper = object_span_enough more fuel (suc (suc depth)) cs short in
    let shallower = object_span_enough more fuel depth cs short in
    let same = object_span_enough more fuel (suc depth) cs short in
    rw (sum, after, deeper, shallower, same) refl

abbrev pub NoQuote : List ℕ → Type 0
NoQuote [] = Unit {0}
NoQuote (c ∷ cs) = (c ≢ quote) × NoQuote cs

skip_string-open : (before : ℕ) (s : List ℕ) → NoQuote s → skip_string before s ≡ (s, [])
skip_string-open before [] h = refl
skip_string-open before (c ∷ cs) (n, h) =
    let e : (c == quote) ≡ false = ground (arith, n) in
    rw (skip_string, e) (ap (λ (r : List ℕ × List ℕ). (c ∷ r.0, r.1)) (skip_string-open c cs h))

skip_string-past :
    (before : ℕ) (s tail : List ℕ)
    → NoQuote s
    → NoQuote tail
    → skip_string before (s ++ backslash ∷ backslash ∷ quote ∷ tail)
      ≡ (s ++ backslash ∷ backslash ∷ quote ∷ tail, [])
skip_string-past before [] tail h k =
    ap (λ (r : List ℕ × List ℕ). (backslash ∷ backslash ∷ quote ∷ r.0, r.1))
      (skip_string-open quote tail k)
skip_string-past before (c ∷ cs) tail (n, h) k =
    let e : (c == quote) ≡ false = ground (arith, n) in
    rw (skip_string, e)
      (ap (λ (r : List ℕ × List ℕ). (c ∷ r.0, r.1)) (skip_string-past c cs tail h k))

abbrev pub open_object : List ℕ → List ℕ → List ℕ
open_object value tail = codes "{\"v\":\"" ++ (value ++ backslash ∷ backslash ∷ quote ∷ tail)

-- A string of the parameters that ends in an escaped backslash does not end the scan of the
-- string: with no quote behind it, the parameters are the whole rest of the text, the braces that
-- close them and what follows included.
pub extract_params-overruns :
    (value tail : List ℕ)
    → NoQuote value
    → NoQuote tail
    → extract_params (codes "\"params\":" ++ open_object value tail) ≡ some (open_object value tail)
unfolding extract_params object_span
extract_params-overruns value tail h k =
    let past = skip_string-past quote value tail h k in rw (past, append-nil) refl
