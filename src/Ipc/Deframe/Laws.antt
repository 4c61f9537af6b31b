-- ===== src/Ipc/Deframe/Laws.antt =====
-- The frames of a stream: what they are in an encoded stream, and that they do not depend on how
-- the stream is cut.
use typiod_wayland.Prelude.{
  ℕ, zero, suc, ◌+◌, ◌≤◌, ◌<◌, ◌≡◌, refl, sym, ap, ◌∙◌, List, [], ◌∷◌, ◌++◌, length, length-append,
  take, drop, length-drop, drop-drop, drop-append, take-append, take-length, drop-length, arith,
}
use mathlib.Core.List.{append_assoc}
use native.Mathlib.Decide.{dec_lt}
use typiod_wayland.Ipc.Client.{encode}
use typiod_wayland.Ipc.Deframe.{header, deframe, encode_all}

-- The four bytes of `htonl` spell the number that they were made from.
pub header-encode :
    (json rest : List ℕ) → length json < 4294967296 → header (encode json ++ rest) ≡ length json
header-encode json rest h = omega arith

deframe_short : (fuel : ℕ) (bytes : List ℕ) → length bytes < 4 → deframe fuel bytes ≡ ([], bytes)
unfolding deframe
deframe_short zero bytes h = refl
deframe_short (suc fuel) bytes h = ground arith

-- Fuel above the number of bytes changes nothing.
pub deframe_fuel :
    (n m : ℕ) (bytes : List ℕ)
    → length bytes ≤ n
    → length bytes ≤ m
    → deframe n bytes ≡ deframe m bytes
unfolding deframe
deframe_fuel zero m bytes p q = sym (deframe_short m bytes (omega arith))
deframe_fuel (suc n) zero bytes p q = deframe_short (suc n) bytes (omega arith)
deframe_fuel (suc n) (suc m) bytes p q =
    ground (
      arith,
      length-drop (4 + header bytes) bytes,
      deframe_fuel n m (drop (4 + header bytes) bytes),
    )

-- Bytes that hold no complete frame are left as they are.
pub deframe_unfinished :
    (fuel : ℕ) (bytes : List ℕ) → length bytes < 4 + header bytes → deframe fuel bytes ≡ ([], bytes)
unfolding deframe
deframe_unfinished zero bytes h = refl
deframe_unfinished (suc fuel) bytes h = ground arith

-- A complete frame at the head is the first of the frames.
pub deframe_complete :
    (fuel : ℕ) (bytes : List ℕ)
    → 4 ≤ length bytes
    → 4 + header bytes ≤ length bytes
    → let (frames, rest) = deframe fuel (drop (4 + header bytes) bytes) in
      deframe (suc fuel) bytes ≡ (take (header bytes) (drop 4 bytes) ∷ frames, rest)
unfolding deframe
deframe_complete fuel bytes h k = ground arith

pub header-append : (a b : List ℕ) → 4 ≤ length a → header (a ++ b) ≡ header a
header-append [] b h = omega arith
header-append (x ∷ []) b h = absurd (omega arith)
header-append (x ∷ y ∷ []) b h = absurd (omega arith)
header-append (x ∷ y ∷ z ∷ []) b h = absurd (omega arith)
header-append (x ∷ y ∷ z ∷ w ∷ a) b h = refl

-- The frames of two pieces are those of the first, then those of what it leaves and the second.
pub deframe-append :
    (n m k : ℕ) (a b : List ℕ)
    → length a ≤ n
    → length (a ++ b) ≤ m
    → length ((deframe n a).1 ++ b) ≤ k
    → let (frames, rest) = deframe n a in
      deframe m (a ++ b) ≡ (frames ++ (deframe k (rest ++ b)).0, (deframe k (rest ++ b)).1)
deframe-append zero m k a b p q r =
    let e = deframe_unfinished zero a (omega arith) in
    rw e (deframe_fuel m k (a ++ b) q (rw e at r))
deframe-append (suc n) zero k a b p q r =
    let e = deframe_unfinished (suc n) a (omega (arith, length-append a b)) in
    rw e (deframe_fuel zero k (a ++ b) q (rw e at r))
deframe-append (suc n) (suc m) k a b p q r = elim (dec_lt (length a) (4 + header a)) [
  | yes part ↦
      let e = deframe_unfinished (suc n) a part in
      rw e (deframe_fuel (suc m) k (a ++ b) q (rw e at r))
  | no whole ↦
      let four : 4 ≤ length a = omega arith in
      let fits : 4 + header a ≤ length a = omega arith in
      let same = header-append a b four in
      let tail = drop (4 + header a) a in
      let shorter = length-drop (4 + header a) a in
      let e = deframe_complete n a four fits in
      let e' =
        deframe_complete m (a ++ b) (omega (arith, length-append a b))
          (rw same (omega (arith, length-append a b))) in
      let rest : drop (4 + header a) (a ++ b) ≡ tail ++ b = drop-append (4 + header a) a b fits in
      let body : take (header a) (drop 4 (a ++ b)) ≡ take (header a) (drop 4 a) =
        rw (drop-append 4 a b four)
          (take-append (header a) (drop 4 a) b (omega (arith, length-drop 4 a))) in
      let ih =
        deframe-append n m k tail b (omega arith)
          (omega (arith, length-append a b, length-append tail b)) (rw e at r) in
      rw (e, e', same) (rw (rest, body) (rw ih))
]

-- Every request is short enough for its length to be a uint32_t.
abbrev pub AllShort : ℕ → List (List ℕ) → Type 0
AllShort limit [] = Unit {0}
AllShort limit (json ∷ frames) = (length json ≤ limit) × AllShort limit frames

-- The frames of an encoded list of requests with an unfinished one behind are those requests.
pub deframe-encode_all :
    (n : ℕ) (frames : List (List ℕ)) (rest : List ℕ)
    → AllShort 4294967295 frames
    → length rest < 4 + header rest
    → length (encode_all frames ++ rest) ≤ n
    → deframe n (encode_all frames ++ rest) ≡ (frames, rest)
deframe-encode_all n [] rest short part h = deframe_unfinished n rest part
deframe-encode_all zero (json ∷ frames) rest short part h = absurd (omega arith)
deframe-encode_all (suc n) (json ∷ frames) rest short part h =
    let again = encode_all frames ++ rest in
    let regroup : encode_all (json ∷ frames) ++ rest ≡ encode json ++ again =
      append_assoc (encode json) (encode_all frames) rest in
    let size : header (encode json ++ again) ≡ length json =
      header-encode json again (omega arith) in
    let total = length-append json again in
    let e = deframe_complete n (encode json ++ again) (omega arith) (rw size (omega arith)) in
    let body : take (length json) (json ++ again) ≡ json = take-length json again in
    let tail : drop (4 + length json) (encode json ++ again) ≡ again =
      sym (drop-drop (length json) 4 (encode json ++ again)) ∙ drop-length json again in
    let ih =
      deframe-encode_all n frames rest short.1 part (omega (arith, ap length regroup, total)) in
    rw (regroup, e, size) (rw (body, tail) (rw ih))

-- What is left holds no complete frame.
pub deframe_rest :
    (n : ℕ) (bytes : List ℕ)
    → length bytes ≤ n
    → length (deframe n bytes).1 < 4 + header (deframe n bytes).1
deframe_rest zero bytes h = rw (deframe_unfinished zero bytes (omega arith)) (omega arith)
deframe_rest (suc n) bytes h = elim (dec_lt (length bytes) (4 + header bytes)) [
  | yes part ↦ rw (deframe_unfinished (suc n) bytes part) part
  | no whole ↦ rw (deframe_complete n bytes (omega arith) (omega arith)) (
      deframe_rest n (drop (4 + header bytes) bytes)
        (omega (arith, length-drop (4 + header bytes) bytes)))
]
