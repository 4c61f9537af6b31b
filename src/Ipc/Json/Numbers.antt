-- ===== src/Ipc/Json/Numbers.antt =====
-- An id that is written and read back (src/ipc/tip_json.c).
use typiod_wayland.Prelude.{
  ℕ, zero, suc, ◌+◌, ◌*◌, ◌/◌, ◌%◌, ◌-◌, ◌^◌, ◌<◌, ◌≡◌, refl, sym, ◌∙◌, ap, true, false, List, [],
  ◌∷◌, ◌++◌, Option, some, ltb, ◌==◌, Bool-cases, inl, inr, arith,
}
use mathlib.Core.List.{append_assoc}
use typiod_wayland.Text.Bytes.{codes, isdigit, isspace}
use typiod_wayland.Ipc.Json.{
  ℤ, pos, negsuc, digits_value, strtol, signed_value, negative, extract_id, skip_ws,
}
use typiod_wayland.Ipc.Json.Builder.{decimal, int_text, build_response, append_int, json_or}
use typiod_wayland.Ipc.Json.Written.{append_raw-buf}

-- The values of an `int`.
abbrev pub IsSmall : ℤ → Type 0
IsSmall (pos n) = n < 2147483648
IsSmall (negsuc n) = n < 2147483648

digit-value :
    (n acc : ℕ) (rest : List ℕ)
    → n < 10
    → digits_value acc ((48 + n) ∷ rest) ≡ digits_value (10 * acc + n) rest
digit-value n acc rest h =
    let digit : isdigit (48 + n) ≡ true = ground (arith, h) in
    let e : 48 + n - 48 ≡ n = omega arith in rw (digit, e) refl

digits_value-decimal :
    (fuel n : ℕ) (rest : List ℕ)
    → n < 10 ^ fuel
    → digits_value 0 (decimal fuel n rest) ≡ digits_value n rest
digits_value-decimal zero n rest h = let e : n ≡ 0 = omega arith in rw e refl
digits_value-decimal (suc fuel) n rest h = elim (Bool-cases (ltb n 10)) [
  | inl e ↦
      let zeroes : 10 * 0 + n ≡ n = omega arith in
      rw e (digit-value n 0 rest (ground (arith, e)) ∙ ap (λ k. digits_value k rest) zeroes)
  | inr e ↦
      let p : 10 ^ suc fuel ≡ 10 * 10 ^ fuel = omega arith in
      let joined : 10 * (n / 10) + n % 10 ≡ n = omega arith in
      rw e (
        digits_value-decimal fuel (n / 10) ((48 + n % 10) ∷ rest) (omega (arith, p, h))
        ∙ digit-value (n % 10) (n / 10) rest (omega arith)
        ∙ ap (λ k. digits_value k rest) joined)
]

decimal-append :
    (fuel n : ℕ) (rest tail : List ℕ) → decimal fuel n rest ++ tail ≡ decimal fuel n (rest ++ tail)
decimal-append zero n rest tail = refl
decimal-append (suc fuel) n rest tail = elim (Bool-cases (ltb n 10)) [
  | inl e ↦ rw e refl
  | inr e ↦ rw e (decimal-append fuel (n / 10) ((48 + n % 10) ∷ rest) tail)
]

-- A text that starts with a digit.
abbrev StartsDigit : List ℕ → Type 0
StartsDigit [] = ⊥
StartsDigit (c ∷ cs) = isdigit c ≡ true

decimal-StartsDigit :
    (fuel n : ℕ) (rest : List ℕ)
    → n < 10 ^ fuel
    → (fuel ≡ 0 → StartsDigit rest)
    → StartsDigit (decimal fuel n rest)
decimal-StartsDigit zero n rest h k = k refl
decimal-StartsDigit (suc fuel) n rest h k = elim (Bool-cases (ltb n 10)) [
  | inl e ↦ rw e (ground (arith, e))
  | inr e ↦
      let p : 10 ^ suc fuel ≡ 10 * 10 ^ fuel = omega arith in
      rw e (
        decimal-StartsDigit fuel (n / 10) ((48 + n % 10) ∷ rest) (omega (arith, p, h))
          (λ z. ground arith))
]

skip_ws-skip_ws : (s : List ℕ) → skip_ws (skip_ws s) ≡ skip_ws s
skip_ws-skip_ws [] = refl
skip_ws-skip_ws (c ∷ cs) = elim (Bool-cases (isspace c)) [
  | inl e ↦ rw (skip_ws, e) (skip_ws-skip_ws cs)
  | inr e ↦ rw (skip_ws, e) (rw (skip_ws, e) refl)
]

skip_ws-digits : (s : List ℕ) → StartsDigit s → skip_ws s ≡ s
skip_ws-digits [] h = refl
skip_ws-digits (c ∷ cs) h = let space : isspace c ≡ false = ground (arith, h) in rw space refl

signed_value-digits : (s : List ℕ) → StartsDigit s → signed_value s ≡ pos (digits_value 0 s)
signed_value-digits [] h = absurd h
signed_value-digits (c ∷ cs) h =
    let minus : (c == 45) ≡ false = ground (arith, h) in
    let plus : (c == 43) ≡ false = ground (arith, h) in rw (signed_value, minus, plus) refl

-- The digits of a number of at most ten, followed by something else than a digit.
decimal-value :
    (n : ℕ) (c : ℕ) (tail : List ℕ)
    → n < 10000000000
    → isdigit c ≡ false
    → digits_value 0 (decimal 10 n [] ++ c ∷ tail) ≡ n
decimal-value n c tail h k =
    let power : n < 10 ^ 10 = omega (arith, h) in
    ap (digits_value 0) (decimal-append 10 n [] (c ∷ tail))
    ∙ digits_value-decimal 10 n (c ∷ tail) power
    ∙ rw k refl

strtol-int_text :
    (v : ℤ) (c : ℕ) (tail : List ℕ)
    → IsSmall v
    → isdigit c ≡ false
    → strtol (int_text v ++ c ∷ tail) ≡ v
strtol-int_text (pos n) c tail h k =
    let power : n < 10 ^ 10 = omega (arith, h) in
    let e = decimal-append 10 n [] (c ∷ tail) in
    let starts = decimal-StartsDigit 10 n (c ∷ tail) power (λ z. absurd (omega (arith, z))) in
    ap strtol e
    ∙ ap signed_value (skip_ws-digits _ starts)
    ∙ signed_value-digits _ starts
    ∙ ap pos (ap (digits_value 0) (sym e) ∙ decimal-value n c tail (omega (arith, h)) k)
strtol-int_text (negsuc n) c tail h k =
    ap negative (decimal-value (suc n) c tail (omega (arith, h)) k)

abbrev response_rest : Option (List ℕ) → List ℕ
response_rest result = codes "\"result\":" ++ (json_or (codes "null") result ++ codes "}")

abbrev response_prefix : List ℕ
response_prefix = codes "{\"jsonrpc\":\"2.0\",\"id\":"

build_response-text :
    (id : ℤ) (result : Option (List ℕ))
    → build_response id result ≡ response_prefix ++ (int_text id ++ 44 ∷ response_rest result)
unfolding build_response append_int
build_response-text id result = simp (append_raw-buf, append_assoc)

-- What follows a prefix in which no key is found.
extract_id-text : (s : List ℕ) → extract_id (response_prefix ++ s) ≡ some (strtol (skip_ws s))
unfolding extract_id
extract_id-text s = refl

-- The id of a response is read back from its text, for every `int`.
pub extract_id-build_response :
    (id : ℤ) (result : Option (List ℕ))
    → IsSmall id
    → extract_id (build_response id result) ≡ some id
extract_id-build_response id result h =
    ap extract_id (build_response-text id result)
    ∙ extract_id-text _
    ∙ ap some (
        ap signed_value (skip_ws-skip_ws (int_text id ++ 44 ∷ response_rest result))
        ∙ strtol-int_text id 44 (response_rest result) h refl)
