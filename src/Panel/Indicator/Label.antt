-- ===== src/Panel/Indicator/Label.antt =====
-- The label of the indicator: its segments in order, cut to its array; and the modes' cache.
use mathlib.Core.Path.{subst}
use mathlib.Core.List.{append_assoc}
use typiod_wayland.Prelude.{
  ℕ, ◌+◌, ◌-◌, ◌≤◌, ◌<◌, ◌≡◌, refl, sym, ap, ◌∙◌, inl, inr, true, false, List, [], ◌∷◌, ◌++◌, ◌&&◌,
  Option, none, some, ltb, lt→ltb, if◌then◌else◌, length, take, length-append, take-append,
  take-append_past, take_all, take-nil, Bool-cases, arith,
}
use typiod_wayland.Panel.Indicator.{
  EngineMode, Indicator, IndicatorWorld, Written, write_at, write_label, separator, nonempty,
  first_of, is_null, display_of, suffix_of, cached, build_indicator_label,
}

-- The label is the text cut to the array, and the length is the text's while there is room.
record IsCut (size : ℕ) (text : List ℕ) (w : Written) : Type 0 where
  cut : w.0 ≡ take (size - 1) text
  counted : w.1 < size → w.1 ≡ length text
  beyond : size ≤ w.1 → size ≤ length text

write_at-IsCut :
    (size : ℕ) (text more : List ℕ) (w : Written)
    → IsCut size text w
    → IsCut size (text ++ more) (write_at size more w)
unfolding write_at
write_at-IsCut size text more (label, n) c = elim (Bool-cases (ltb n size)) [
  | inl room ↦ rw room (within (ground (arith, room)))
  | inr over ↦ rw over (past (ground (arith, over)))
]
  where
    within :
        n < size → IsCut size (text ++ more) (label ++ take (size - n - 1) more, n + length more)
    within h =
        let whole : n ≡ length text = c.counted h in
        let e : size - n - 1 ≡ size - 1 - length text = omega arith in
        record {
          cut =
              ap (λ (l : List ℕ). l ++ take (size - n - 1) more)
                (c.cut ∙ take_all (size - 1) text (omega arith))
              ∙ ap (λ k. text ++ take k more) e
              ∙ sym (take-append_past (size - 1) text more (omega arith));
          counted = λ h'. omega (arith, length-append text more);
          beyond = λ h'. omega (arith, length-append text more);
        }

    past : size ≤ n → IsCut size (text ++ more) (label, n)
    past h = record {
      cut = c.cut ∙ sym (take-append (size - 1) text more (omega (arith, c.beyond h)));
      counted = λ h'. absurd (omega arith);
      beyond = λ h'. omega (arith, c.beyond h, length-append text more);
    }

counted_pos :
    (size : ℕ) (text : List ℕ) (w : Written)
    → IsCut size text w
    → 0 < size
    → 0 < length text
    → ltb 0 w.1 ≡ true
counted_pos size text w c h p = elim (Bool-cases (ltb 0 w.1)) [
  | inl e ↦ e
  | inr e ↦ let z : w.1 ≡ 0 = ground (arith, e) in absurd (omega (arith, c.counted (omega arith)))
]

-- The segments that are there, with a separator between any two.
abbrev pub join : List (List ℕ) → List ℕ
join [] = []
join (text ∷ []) = text
join (text ∷ next ∷ rest) = text ++ (separator ++ join (next ∷ rest))

abbrev pub listed : Option (List ℕ) → List (List ℕ)
listed none = []
listed (some text) = text ∷ []

-- The mode's segment stands only behind an engine's.
abbrev pub segments : Option (List ℕ) → Option (List ℕ) → Option (List ℕ) → List (List ℕ)
segments lang none suffix = listed lang
segments lang (some eng) suffix = listed lang ++ eng ∷ listed suffix

start-IsCut : (size : ℕ) → IsCut size [] ([], 0)
start-IsCut size = record { cut = sym (take-nil (size - 1)); counted = λ h. refl; beyond = λ h. h }

first-IsCut : (size : ℕ) (text : List ℕ) → IsCut size text (write_at size text ([], 0))
first-IsCut size text = write_at-IsCut size [] text ([], 0) (start-IsCut size)

counted_first :
    (size c : ℕ) (cs : List ℕ) → 0 < size → ltb 0 (write_at size (c ∷ cs) ([], 0)).1 ≡ true
unfolding write_at
counted_first size c cs h = rw (lt→ltb 0 size h) (lt→ltb 0 (0 + length (c ∷ cs)) (omega arith))

behind :
    (size c : ℕ) (cs e : List ℕ)
    → IsCut size
        ((c ∷ cs) ++ (separator ++ e))
        (write_at size (separator ++ e) (write_at size (c ∷ cs) ([], 0)))
behind size c cs e =
    write_at-IsCut size (c ∷ cs) (separator ++ e) (write_at size (c ∷ cs) ([], 0))
      (first-IsCut size (c ∷ cs))

write_label-IsCut :
    (size : ℕ) (lang eng suffix : Option (List ℕ))
    → 0 < size
    → IsCut size
        (join (segments (nonempty lang) eng suffix))
        (write_label size (nonempty lang) eng suffix)
unfolding write_label
write_label-IsCut size none none suffix h = start-IsCut size
write_label-IsCut size (some []) none suffix h = start-IsCut size
write_label-IsCut size (some (c ∷ cs)) none suffix h = first-IsCut size (c ∷ cs)
write_label-IsCut size none (some e) none h = first-IsCut size e
write_label-IsCut size (some []) (some e) none h = first-IsCut size e
write_label-IsCut size none (some e) (some s) h =
    write_at-IsCut size e (separator ++ s) (write_at size e ([], 0)) (first-IsCut size e)
write_label-IsCut size (some []) (some e) (some s) h =
    write_at-IsCut size e (separator ++ s) (write_at size e ([], 0)) (first-IsCut size e)
write_label-IsCut size (some (c ∷ cs)) (some e) none h =
    rw (counted_first size c cs h) (behind size c cs e)
write_label-IsCut size (some (c ∷ cs)) (some e) (some s) h = rw (counted_first size c cs h) (
    subst
      (λ l. IsCut size l (
        write_at size (separator ++ s)
          (write_at size (separator ++ e) (write_at size (c ∷ cs) ([], 0)))))
      (append_assoc (c ∷ cs) (separator ++ e) (separator ++ s))
      (write_at-IsCut size ((c ∷ cs) ++ (separator ++ e)) (separator ++ s)
        (write_at size (separator ++ e) (write_at size (c ∷ cs) ([], 0))) (behind size c cs e)))

-- No segment, or one with a byte.
abbrev IsFull : Option (List ℕ) → Type 0
IsFull none = Unit {0}
IsFull (some []) = ⊥
IsFull (some (c ∷ cs)) = Unit {0}

first_of-IsFull : (a b : Option (List ℕ)) → IsFull (first_of (nonempty a) (nonempty b))
first_of-IsFull none none = tt
first_of-IsFull none (some []) = tt
first_of-IsFull none (some (c ∷ cs)) = tt
first_of-IsFull (some []) none = tt
first_of-IsFull (some []) (some []) = tt
first_of-IsFull (some []) (some (c ∷ cs)) = tt
first_of-IsFull (some (c ∷ cs)) b = tt

join_pos :
    (lang eng suffix : Option (List ℕ))
    → IsFull eng
    → (is_null (nonempty lang) && is_null eng) ≡ false
    → 0 < length (join (segments (nonempty lang) eng suffix))
join_pos none none suffix f h = cc
join_pos (some []) none suffix f h = cc
join_pos (some (c ∷ cs)) none suffix f h = omega arith
join_pos none (some []) suffix f h = absurd f
join_pos none (some (c ∷ cs)) none f h = omega arith
join_pos none (some (c ∷ cs)) (some s) f h = omega arith
join_pos (some []) (some []) suffix f h = absurd f
join_pos (some []) (some (c ∷ cs)) none f h = omega arith
join_pos (some []) (some (c ∷ cs)) (some s) f h = omega arith
join_pos (some (c ∷ cs)) (some e) none f h = omega arith
join_pos (some (c ∷ cs)) (some e) (some s) f h = omega arith

-- The segment of the engine: its display name, or else its name.
abbrev pub engine_segment : IndicatorWorld → Option (List ℕ)
engine_segment w = first_of (nonempty (display_of w)) (nonempty w.engine_name)

-- The label is none where there is neither a language's badge nor an engine's name. Otherwise it is
-- the badge, the engine's name and the mode's label, those that are there, with a separator between
-- any two, cut to the array of `size` bytes with its NUL.
pub build_indicator_label-join :
    (w : IndicatorWorld) (mode : Option EngineMode) (size : ℕ) (i : Indicator)
    → 0 < size
    → let lang = nonempty (some w.badge) in
      let eng = engine_segment w in
      let suffix = suffix_of w.engine_name mode (cached w.engine_name mode i) in
      (build_indicator_label w mode size i).0 ≡ (
        if is_null lang && is_null eng
        then none
        else some (take (size - 1) (join (segments lang eng suffix))))
unfolding build_indicator_label
build_indicator_label-join w mode size i h =
    let lang = nonempty (some w.badge) in
    let eng = engine_segment w in
    let suffix = suffix_of w.engine_name mode (cached w.engine_name mode i) in
    elim (Bool-cases (is_null lang && is_null eng)) [
      | inl e ↦ rw e refl
      | inr e ↦
          let c = write_label-IsCut size (some w.badge) eng suffix h in
          let pos : ltb 0 (write_label size lang eng suffix).1 ≡ true =
            counted_pos size (join (segments lang eng suffix)) (write_label size lang eng suffix) c
              h
              (join_pos (some w.badge) eng suffix (first_of-IsFull (display_of w) w.engine_name)
                e) in
          rw e (rw pos (ap some c.cut))
    ]
