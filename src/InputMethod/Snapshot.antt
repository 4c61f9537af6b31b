-- ===== src/InputMethod/Snapshot.antt =====
-- The session's copy of the candidates (candidate_snapshot_* of src/wayland/input_method.c). An
-- index is none where it is negative; a text is none where its pointer is null.
use mathlib.Core.Bool.{false≢true}
use typiod_wayland.Prelude.{
  ℕ, ◌<◌, ◌≡◌, refl, sym, ap₂, Bool, true, false, not, ◌&&◌, List, [], ◌∷◌, Option, none, some,
  ◌==◌, ==_iff, arith, if◌then◌else◌, length, map, if_both,
}
use typiod_wayland.Text.Bytes.{same_text, same_text_eq, text_or_empty}

-- `TypioCandidate`
pub record Candidate : Type 0 where
  pub text : Option (List ℕ)
  pub comment : Option (List ℕ)
  pub label : Option (List ℕ)

-- `TypioCandidateList`; its count is the length of the candidates.
pub record CandidateList : Type 0 where
  pub candidates : List Candidate
  pub selected : Option ℕ
  pub total : ℕ
  pub page : ℕ
  pub page_size : ℕ
  pub has_prev : Bool
  pub has_next : Bool
  pub content_signature : ℕ

-- `TypioComposition`, the fields that the frontend reads; its first eight are those of a list.
pub record Composition : Type 0 where
  pub list : CandidateList
  pub host_managed_selection : ℕ

abbrev pub cleared : CandidateList
cleared = record {
  candidates = [];
  selected = none;
  total = 0;
  page = 0;
  page_size = 0;
  has_prev = false;
  has_next = false;
  content_signature = 0;
}

abbrev same_or_empty : Option (List ℕ) → Option (List ℕ) → Bool
same_or_empty a b = same_text (text_or_empty a) (text_or_empty b)

abbrev same_candidate : Candidate → Candidate → Bool
same_candidate a b =
    same_or_empty a.text b.text
    && same_or_empty a.comment b.comment
    && same_or_empty a.label b.label

-- The loop over xs many candidates on both sides.
abbrev same_candidates : List Candidate → List Candidate → Bool
same_candidates [] [] = true
same_candidates (a ∷ xs) (b ∷ ys) = same_candidate a b && same_candidates xs ys
same_candidates [] (b ∷ ys) = false
same_candidates (a ∷ xs) [] = false

abbrev same_flag : Bool → Bool → Bool
same_flag true b = b
same_flag false b = not b

-- `candidate_snapshot_equal_content`
unfoldable pub equal_content : CandidateList → CandidateList → Bool
equal_content snap c =
    (length snap.candidates == length c.candidates)
    && (snap.page == c.page && snap.page_size == c.page_size)
    && snap.total == c.total
    && (same_flag snap.has_prev c.has_prev && same_flag snap.has_next c.has_next)
    && same_candidates snap.candidates c.candidates

-- `typio_dup_or_null`
abbrev dup_or_null : (List ℕ → Bool) → Option (List ℕ) → Option (List ℕ)
dup_or_null copied none = none
dup_or_null copied (some s) = if copied s then some s else none

abbrev copy_of : (List ℕ → Bool) → Candidate → Candidate
copy_of copied c = record {
  text = dup_or_null copied c.text;
  comment = dup_or_null copied c.comment;
  label = dup_or_null copied c.label;
}

abbrev assign_list : (List ℕ → Bool) → Bool → CandidateList → CandidateList → CandidateList
assign_list copied items snap c =
    if equal_content snap c
    then record snap { selected = c.selected; content_signature = c.content_signature }
    else if items
    then record c { candidates = map (copy_of copied) c.candidates }
    else cleared

-- `candidate_snapshot_assign`: `items` tells whether the array is had, `copied` whether a text is.
unfoldable pub assign : (List ℕ → Bool) → Bool → CandidateList → Option Composition → CandidateList
assign copied items snap none = cleared
assign copied items snap (some c) =
    if length c.list.candidates == 0 then cleared else assign_list copied items snap c.list

-- What the panel shows of a list: a null text is an empty one.
abbrev pub candidate_texts : Candidate → List ℕ × List ℕ × List ℕ
candidate_texts c = (text_or_empty c.text, text_or_empty c.comment, text_or_empty c.label)

-- Two lists show the same.
pub record ShowsSame (a b : CandidateList) : Type 0 where
  pub texts : map candidate_texts a.candidates ≡ map candidate_texts b.candidates
  pub selected : a.selected ≡ b.selected
  pub total : a.total ≡ b.total
  pub page : a.page ≡ b.page
  pub page_size : a.page_size ≡ b.page_size
  pub has_prev : a.has_prev ≡ b.has_prev
  pub has_next : a.has_next ≡ b.has_next
  pub content_signature : a.content_signature ≡ b.content_signature

and_left : (a b : Bool) → (a && b) ≡ true → a ≡ true
and_left true b h = refl
and_left false b h = absurd (false≢true h)

and_right : (a b : Bool) → (a && b) ≡ true → b ≡ true
and_right true b h = h
and_right false b h = absurd (false≢true h)

same_flag_eq : (a b : Bool) → same_flag a b ≡ true → a ≡ b
same_flag_eq true b h = sym h
same_flag_eq false true h = absurd (false≢true h)
same_flag_eq false false h = refl

same_candidate-texts :
    (a b : Candidate) → same_candidate a b ≡ true → candidate_texts a ≡ candidate_texts b
same_candidate-texts a b h =
    let t = same_text (text_or_empty a.text) (text_or_empty b.text) in
    let c = same_text (text_or_empty a.comment) (text_or_empty b.comment) in
    let l = same_text (text_or_empty a.label) (text_or_empty b.label) in
    rw
      (
        same_text_eq (text_or_empty a.text) (text_or_empty b.text)
            (and_left t c (and_left (t && c) l h)),
        same_text_eq (text_or_empty a.comment) (text_or_empty b.comment)
            (and_right t c (and_left (t && c) l h)),
        same_text_eq (text_or_empty a.label) (text_or_empty b.label) (and_right (t && c) l h),
      )
      refl

same_candidates-texts :
    (xs ys : List Candidate)
    → same_candidates xs ys ≡ true
    → map candidate_texts xs ≡ map candidate_texts ys
same_candidates-texts [] [] h = refl
same_candidates-texts (a ∷ xs) (b ∷ ys) h =
    ap₂ ◌∷◌ (same_candidate-texts a b (and_left (same_candidate a b) (same_candidates xs ys) h))
      (same_candidates-texts xs ys (and_right (same_candidate a b) (same_candidates xs ys) h))
same_candidates-texts [] (b ∷ ys) h = absurd (false≢true h)
same_candidates-texts (a ∷ xs) [] h = absurd (false≢true h)

copy_of-texts :
    (copied : List ℕ → Bool)
    → ((text : List ℕ) → copied text ≡ true)
    → (xs : List Candidate) → map candidate_texts (map (copy_of copied) xs) ≡ map candidate_texts xs
copy_of-texts copied all [] = refl
copy_of-texts copied all (x ∷ xs) = ap₂ ◌∷◌ (dup x) (copy_of-texts copied all xs)
  where
    one : (s : Option (List ℕ)) → text_or_empty (dup_or_null copied s) ≡ text_or_empty s
    one none = refl
    one (some s) = rw (all s) refl

    dup : (c : Candidate) → candidate_texts (copy_of copied c) ≡ candidate_texts c
    dup c = rw (one c.text, one c.comment, one c.label) refl

kept-ShowsSame :
    (snap c : CandidateList)
    → equal_content snap c ≡ true
    → ShowsSame (record snap { selected = c.selected; content_signature = c.content_signature }) c
unfolding equal_content
kept-ShowsSame snap c h =
    let n = length snap.candidates == length c.candidates in
    let p = snap.page == c.page && snap.page_size == c.page_size in
    let q = snap.total == c.total in
    let r = same_flag snap.has_prev c.has_prev && same_flag snap.has_next c.has_next in
    let s = same_candidates snap.candidates c.candidates in
    let hr = and_left (n && p && q && r) s h in
    let hq = and_left (n && p && q) r hr in
    let hp = and_right n p (and_left (n && p) q hq) in
    let flags = and_right (n && p && q) r hr in
    record {
      texts = same_candidates-texts snap.candidates c.candidates (and_right (n && p && q && r) s h);
      selected = refl;
      total = (==_iff snap.total c.total).0 (and_right (n && p) q hq);
      page =
          (==_iff snap.page c.page).0
            (and_left (snap.page == c.page) (snap.page_size == c.page_size) hp);
      page_size =
          (==_iff snap.page_size c.page_size).0
            (and_right (snap.page == c.page) (snap.page_size == c.page_size) hp);
      has_prev = same_flag_eq snap.has_prev c.has_prev (
          and_left (same_flag snap.has_prev c.has_prev) (same_flag snap.has_next c.has_next) flags);
      has_next = same_flag_eq snap.has_next c.has_next (
          and_right (same_flag snap.has_prev c.has_prev) (same_flag snap.has_next c.has_next)
            flags);
      content_signature = refl;
    }

copied-ShowsSame :
    (copied : List ℕ → Bool)
    → ((text : List ℕ) → copied text ≡ true)
    → (c : CandidateList)
    → ShowsSame (record c { candidates = map (copy_of copied) c.candidates }) c
copied-ShowsSame copied all c = record {
  texts = copy_of-texts copied all c.candidates;
  selected = refl;
  total = refl;
  page = refl;
  page_size = refl;
  has_prev = refl;
  has_next = refl;
  content_signature = refl;
}

-- Where allocation succeeds: after a composition with candidates the snapshot shows what the
-- composition does, whichever way it was brought there: the test that spares the copy never leaves
-- a stale candidate. After one with none, or none at all, it is the empty list.
pub assign-ShowsSame :
    (copied : List ℕ → Bool) (snap : CandidateList) (c : Composition)
    → ((text : List ℕ) → copied text ≡ true)
    → (0 < length c.list.candidates → ShowsSame (assign copied true snap (some c)) c.list)
      × (length c.list.candidates ≡ 0 → assign copied true snap (some c) ≡ cleared)
      × (assign copied true snap none ≡ cleared)
unfolding assign
assign-ShowsSame copied snap c all = (
  λ h.
      let some_item : (length c.list.candidates == 0) ≡ false = ground arith in
      rw some_item (
        if_both (λ (l : CandidateList). ShowsSame l c.list) (equal_content snap c.list)
          (λ e. kept-ShowsSame snap c.list e) (λ e. copied-ShowsSame copied all c.list)),
  λ h. let no_item : (length c.list.candidates == 0) ≡ true = ground arith in rw no_item refl,
  refl,
)
