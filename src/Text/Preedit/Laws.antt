-- ===== src/Text/Preedit/Laws.antt =====
-- The preedit's text is that of its segments, and the buffer always has room for its NUL
-- (src/ui/preedit.c).
use typiod_wayland.Prelude.{
  ℕ, ◌+◌, ◌≤◌, ◌<◌, ◌≡◌, refl, sym, ◌∙◌, ap, Bool, true, List, [], ◌∷◌, ◌++◌, Option, none, some,
  ltb, ◌==◌, if◌then◌else◌, to_int, length, length-append, arith, Bool-cases, inl, inr, ◌⊎◌,
}
use mathlib.Core.List.{append-nil, append_assoc}
use typiod_wayland.Text.Buffer.{rounds, double_until, double_until_enough}
use typiod_wayland.Text.Preedit.{
  Preedit, TextBuffer, text_of, built, append_text, append_segments, build_plain_preedit,
}

-- The texts of the segments, one after another.
abbrev pub plain : List (Option (List ℕ)) → List ℕ
plain [] = []
plain (none ∷ segments) = plain segments
plain (some text ∷ segments) = text ++ plain segments

-- The text and its NUL lie in the buffer, or there is none yet.
abbrev pub HasRoom : TextBuffer → Type 0
HasRoom b = (b.buffer ≡ none) × (b.capacity ≡ 0) ⊎ (length (text_of b) < b.capacity)

-- A buffer that holds the text, with room for the NUL.
record Holds (text : List ℕ) (b : TextBuffer) : Type 0 where
  holds : text_of b ≡ text
  room : HasRoom b
  empty : text ≡ [] → b.buffer ≡ none

abbrev pub with_cursor : Option (List ℕ) → List (Option (List ℕ)) → Option ℕ → Option Preedit
with_cursor segment segments cursor =
    some (record { segments = segment ∷ segments; cursor_pos = cursor })

-- A text and a cursor for the segments' text.
abbrev pub IsPlain : List ℕ → Option ℕ → Option (List ℕ) × Option ℕ → Type 0
IsPlain text cursor (buffer, end) =
    (text_of (record { buffer = buffer; capacity = 0 }) ≡ text)
    × (text ≡ [] → buffer ≡ none)
    × (end ≡ some (elim cursor [ none ↦ length text | some i ↦ i ]))

to_int-small : (n : ℕ) → n < 2147483648 → to_int n ≡ some n
to_int-small n h = ground (arith, h)

-- A text whose size stays below 2 ^ 63.
module _ (resized : ℕ → Bool) (enough : (n : ℕ) → resized n ≡ true) where
  append_text-Holds :
      (text more : List ℕ) (b : TextBuffer)
      → length (text ++ more) < 9223372036854775807
      → Holds text b
      → (b' : TextBuffer) × (append_text resized b more ≡ some b') × Holds (text ++ more) b'
  unfolding append_text
  append_text-Holds text [] b h k = (
    b,
    refl,
    record {
      holds = k.holds ∙ sym (append-nil text);
      room = k.room;
      empty = λ e. k.empty (sym (append-nil text) ∙ e);
    },
  )
  append_text-Holds text (c ∷ cs) b h k =
      let needed = length (text_of b) + length (c ∷ cs) + 1 in
      let start = if b.capacity == 0 then 64 else b.capacity in
      let same : text_of b ++ c ∷ cs ≡ text ++ c ∷ cs = ap (λ t. t ++ c ∷ cs) k.holds in
      let size : length (text_of b ++ c ∷ cs) + 1 ≡ needed =
        omega (arith, length-append (text_of b) (c ∷ cs)) in
      let small : needed ≤ 9223372036854775808 = omega (arith, size, ap length same, h) in
      let positive : 0 < start = ground arith in
      let reached = double_until_enough needed start small positive in
      let full : text ++ c ∷ cs ≡ [] → some (text_of b ++ c ∷ cs) ≡ none =
        λ e. absurd (omega (arith, ap length e, length-append text (c ∷ cs))) in
      elim (Bool-cases (ltb b.capacity needed)) [
        | inl e ↦ (
          record {
            buffer = some (text_of b ++ c ∷ cs);
            capacity = double_until rounds needed start;
          },
          rw (e, enough (double_until rounds needed start)) refl,
          record { holds = same; room = inr (omega (arith, size, reached)); empty = full },
        )
        | inr e ↦ (
          record b { buffer = some (text_of b ++ c ∷ cs) },
          rw e refl,
          record { holds = same; room = inr (ground (arith, size, e)); empty = full },
        )
      ]

  append_segments-some :
      (more : List ℕ) (segments : List (Option (List ℕ))) (b b' : TextBuffer)
      → append_text resized b more ≡ some b'
      → append_segments resized b (some more ∷ segments) ≡ append_segments resized b' segments
  unfolding append_segments
  append_segments-some more segments b b' e = rw (append_segments, e) refl

  append_segments-Holds :
      (text : List ℕ) (segments : List (Option (List ℕ))) (b : TextBuffer)
      → length (text ++ plain segments) < 9223372036854775807
      → Holds text b
      → (b' : TextBuffer) × (append_segments resized b segments ≡ some b')
        × Holds (text ++ plain segments) b'
  unfolding append_segments
  append_segments-Holds text [] b h k = (b, refl, rw append-nil k)
  append_segments-Holds text (none ∷ segments) b h k = append_segments-Holds text segments b h k
  append_segments-Holds text (some more ∷ segments) b h k =
      let assoc : text ++ (more ++ plain segments) ≡ (text ++ more) ++ plain segments =
        sym (append_assoc text more (plain segments)) in
      let whole : length ((text ++ more) ++ plain segments) < 9223372036854775807 =
        rw (← assoc) h in
      let prefix = length-append (text ++ more) (plain segments) in
      let (b1, e, k1) = append_text-Holds text more b (omega (arith, whole, prefix)) k in
      rw (append_segments-some more segments b b1 e, assoc)
        (append_segments-Holds (text ++ more) segments b1 whole k1)

  fresh-Holds : Holds [] (record { buffer = none; capacity = 0 })
  fresh-Holds = record { holds = refl; room = inl (refl, refl); empty = λ e. refl }

  build_plain_preedit-built :
      (segment : Option (List ℕ)) (segments : List (Option (List ℕ))) (cursor : Option ℕ)
      → build_plain_preedit resized (with_cursor segment segments cursor)
        ≡ built cursor
            (append_segments resized (record { buffer = none; capacity = 0 }) (segment ∷ segments))
  unfolding build_plain_preedit
  build_plain_preedit-built segment segments cursor = refl

  built-IsPlain :
      (text : List ℕ) (cursor : Option ℕ) (b : TextBuffer)
      → length text < 2147483648
      → Holds text b
      → IsPlain text cursor (built cursor (some b))
  built-IsPlain text none b h k =
      (k.holds, k.empty, ap (λ t. to_int (length t)) k.holds ∙ to_int-small (length text) h)
  built-IsPlain text (some i) b h k = (k.holds, k.empty, refl)

  -- Where allocation succeeds and the texts are shorter than 2 ^ 31 in all: the text of a
  -- preedit with a segment is that of its segments in order, no text where they are all empty, and
  -- the cursor is the one given, or the end of the text.
  pub build_plain_preedit-IsPlain :
      (segment : Option (List ℕ)) (segments : List (Option (List ℕ))) (cursor : Option ℕ)
      → length (plain (segment ∷ segments)) < 2147483648
      → IsPlain
          (plain (segment ∷ segments))
          cursor
          (build_plain_preedit resized (with_cursor segment segments cursor))
  build_plain_preedit-IsPlain segment segments cursor h =
      let (b, e, k) =
        append_segments-Holds [] (segment ∷ segments) _ (omega (arith, h)) fresh-Holds in
      let built_e = build_plain_preedit-built segment segments cursor ∙ ap (built cursor) e in
      rw built_e (built-IsPlain _ cursor b h k)
