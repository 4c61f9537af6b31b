-- ===== src/Text/Bytes.antt =====
-- Text as C's strings hold it: the bytes before the NUL, and what the program uses of ctype.h and
-- string.h on them, in the C locale.
use Prim.Native.Char.{code}
use Prim.Native.String.{String}
use mathlib.Core.Bool.{false≢true}
use typiod_wayland.Prelude.{
  ℕ, ◌≡◌, refl, Bool, true, ◌&&◌, ◌||◌, List, [], ◌∷◌, ◌++◌, Option, none, some, leb, ◌==◌,
  if◌then◌else◌, arith, false, sym, ap, ap₂, ◌∙◌, inl, inr, Bool-cases, ==_iff,
}

-- The bytes of a literal.
abbrev pub codes : String → List ℕ
codes String.[] = []
codes (String.◌∷◌ c s) = code c ∷ codes s

abbrev pub isspace : ℕ → Bool
isspace c = c == 32 || leb 9 c && leb c 13

abbrev pub isdigit : ℕ → Bool
isdigit c = leb 48 c && leb c 57

-- What is left after a prefix, if the text has it.
abbrev pub after_prefix : List ℕ → List ℕ → Option (List ℕ)
after_prefix [] s = some s
after_prefix (p ∷ ps) [] = none
after_prefix (p ∷ ps) (c ∷ cs) = if p == c then after_prefix ps cs else none

abbrev pub or_else : Option (List ℕ) → Option (List ℕ) → Option (List ℕ)
or_else none later = later
or_else (some s) later = some s

-- What follows the first occurrence that `strstr` finds.
abbrev pub after_strstr : List ℕ → List ℕ → Option (List ℕ)
after_strstr pattern [] = after_prefix pattern []
after_strstr pattern (c ∷ cs) = or_else (after_prefix pattern (c ∷ cs)) (after_strstr pattern cs)

pub after_prefix-append : (p s : List ℕ) → after_prefix p (p ++ s) ≡ some s
after_prefix-append [] s = refl
after_prefix-append (c ∷ cs) s =
    let e : (c == c) ≡ true = ground arith in rw e (after_prefix-append cs s)

-- `strcmp(a, b) == 0`
abbrev pub same_text : List ℕ → List ℕ → Bool
same_text [] [] = true
same_text (x ∷ xs) (y ∷ ys) = (x == y) && same_text xs ys
same_text [] (y ∷ ys) = false
same_text (x ∷ xs) [] = false

pub same_text_self : (xs : List ℕ) → same_text xs xs ≡ true
same_text_self [] = refl
same_text_self (x ∷ xs) = let e : (x == x) ≡ true = ground arith in rw (e, same_text_self xs) refl

pub same_text_eq : (xs ys : List ℕ) → same_text xs ys ≡ true → xs ≡ ys
same_text_eq [] [] h = refl
same_text_eq [] (y ∷ ys) h = absurd (false≢true h)
same_text_eq (x ∷ xs) [] h = absurd (false≢true h)
same_text_eq (x ∷ xs) (y ∷ ys) h = elim (Bool-cases (x == y)) [
  | inl e ↦
      ap₂ ◌∷◌ ((==_iff x y).0 e) (same_text_eq xs ys (rw⁻¹ (ap (λ b. b && same_text xs ys) e) h))
  | inr e ↦ absurd (false≢true (sym (ap (λ b. b && same_text xs ys) e) ∙ h))
]

-- A byte string that is empty, as a test of its first byte.
abbrev pub is_empty : List ℕ → Bool
is_empty [] = true
is_empty (c ∷ cs) = false

-- The text of a pointer that may be null, as `s ? s : ""`.
abbrev pub text_or_empty : Option (List ℕ) → List ℕ
text_or_empty none = []
text_or_empty (some s) = s
