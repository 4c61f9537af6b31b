-- ===== src/Text/Preedit.antt =====
-- The plain text of a preedit (src/ui/preedit.c). A text is the bytes before its NUL; a segment's
-- text is none where its pointer is null, and a cursor is none where it is negative. `resized`
-- tells whether realloc succeeds for a capacity.
pub mod Laws
use typiod_wayland.Prelude.{
  ℕ, ◌+◌, Bool, true, false, not, List, [], ◌∷◌, ◌++◌, Option, none, some, ltb, ◌==◌, if◌then◌else◌,
  length, to_int,
}
use typiod_wayland.Text.Buffer.{rounds, double_until}

pub record Preedit : Type 0 where
  pub segments : List (Option (List ℕ))
  pub cursor_pos : Option ℕ

-- The buffer is none before the first allocation.
pub record TextBuffer : Type 0 where
  pub buffer : Option (List ℕ)
  pub capacity : ℕ

abbrev pub text_of : TextBuffer → List ℕ
text_of b = elim b.buffer [ none ↦ [] | some text ↦ text ]

abbrev pub built : Option ℕ → Option TextBuffer → Option (List ℕ) × Option ℕ
built cursor none = (none, none)
built none (some b) = (b.buffer, to_int (length (text_of b)))
built (some i) (some b) = (b.buffer, some i)

module _ (resized : ℕ → Bool) where
  unfoldable pub append_text : TextBuffer → List ℕ → Option TextBuffer
  append_text b [] = some b
  append_text b (c ∷ cs) =
      let needed = length (text_of b) + length (c ∷ cs) + 1 in
      let start = if b.capacity == 0 then 64 else b.capacity in
      let new_capacity = double_until rounds needed start in
      let appended = some (text_of b ++ c ∷ cs) in
      if ltb b.capacity needed
      then (if resized new_capacity
          then some (record { buffer = appended; capacity = new_capacity })
          else none)
      else some (record b { buffer = appended })

  unfoldable pub append_segments : TextBuffer → List (Option (List ℕ)) → Option TextBuffer
  append_segments b [] = some b
  append_segments b (none ∷ segments) = append_segments b segments
  append_segments b (some text ∷ segments) = elim (append_text b text) [
    | none ↦ none
    | some b' ↦ append_segments b' segments
  ]

  -- The text, and the cursor that is written through `cursor_pos`.
  unfoldable pub build_plain_preedit : Option Preedit → Option (List ℕ) × Option ℕ
  build_plain_preedit none = (none, none)
  build_plain_preedit (some p) = elim p.segments [
    | [] ↦ (none, none)
    | segment ∷ segments ↦
        built p.cursor_pos
          (append_segments (record { buffer = none; capacity = 0 }) (segment ∷ segments))
  ]
