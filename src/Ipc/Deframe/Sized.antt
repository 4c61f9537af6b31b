-- ===== src/Ipc/Deframe/Sized.antt =====
-- Streams whose frames announce no more than a limit.
use typiod_wayland.Prelude.{
  ℕ, zero, suc, ◌+◌, ◌≤◌, ◌<◌, ◌≡◌, sym, ◌∙◌, List, [], ◌∷◌, ◌++◌, length, length-append, drop,
  length-drop, drop-drop, drop-append, drop-length, arith,
}
use mathlib.Core.List.{append_assoc}
use mathlib.Core.Path.{subst}
use native.Mathlib.Decide.{dec_lt}
use typiod_wayland.Ipc.Deframe.Laws.{
  header-encode, header-append, deframe_unfinished, deframe_complete, AllShort,
}
use typiod_wayland.Ipc.Client.{encode}
use typiod_wayland.Ipc.Deframe.{header, deframe, IsSized, encode_all}

module _ (limit : ℕ) where
  IsSized-short : (n : ℕ) (bytes : List ℕ) → length bytes < 4 → IsSized limit n bytes
  IsSized-short zero bytes h = tt
  IsSized-short (suc n) bytes h = λ four. absurd (omega arith)

  IsSized-fuel :
      (n m : ℕ) (bytes : List ℕ)
      → length bytes ≤ n
      → length bytes ≤ m
      → IsSized limit n bytes
      → IsSized limit m bytes
  IsSized-fuel zero m bytes p q s = IsSized-short m bytes (omega arith)
  IsSized-fuel (suc n) zero bytes p q s = tt
  IsSized-fuel (suc n) (suc m) bytes p q s = λ four.
      let (small, tail) = s four in
      (
        small,
        λ fits.
            IsSized-fuel n m (drop (4 + header bytes) bytes)
              (omega (arith, length-drop (4 + header bytes) bytes))
              (omega (arith, length-drop (4 + header bytes) bytes)) (tail fits),
      )

  -- What holds of a stream holds of its beginning.
  pub IsSized-front :
      (n m : ℕ) (a b : List ℕ)
      → length (a ++ b) ≤ n
      → length a ≤ m
      → IsSized limit n (a ++ b)
      → IsSized limit m a
  IsSized-front n zero a b p q s = tt
  IsSized-front zero (suc m) a b p q s = IsSized-short (suc m) a (omega (arith, length-append a b))
  IsSized-front (suc n) (suc m) a b p q s = λ four.
      let same = header-append a b four in
      let (small, tail) = s (omega (arith, length-append a b)) in
      (
        rw same at small,
        λ fits.
            let cut = drop-append (4 + header a) a b fits in
            let shorter = length-drop (4 + header a) a in
            IsSized-front n m (drop (4 + header a) a) b
              (omega (arith, length-append a b, length-append (drop (4 + header a) a) b))
              (omega arith) (rw (same, cut) at (tail (omega (arith, length-append a b)))),
      )

  -- And of what is left when the frames of the beginning are taken.
  pub IsSized-rest :
      (n m k : ℕ) (a b : List ℕ)
      → length a ≤ n
      → length (a ++ b) ≤ m
      → length ((deframe n a).1 ++ b) ≤ k
      → IsSized limit m (a ++ b)
      → IsSized limit k ((deframe n a).1 ++ b)
  IsSized-rest zero m k a b p q r s =
      let e = deframe_unfinished zero a (omega arith) in
      rw e (IsSized-fuel m k (a ++ b) q (rw e at r) s)
  IsSized-rest (suc n) zero k a b p q r s =
      let e = deframe_unfinished (suc n) a (omega (arith, length-append a b)) in
      rw e (IsSized-fuel zero k (a ++ b) q (rw e at r) s)
  IsSized-rest (suc n) (suc m) k a b p q r s = elim (dec_lt (length a) (4 + header a)) [
    | yes part ↦
        let e = deframe_unfinished (suc n) a part in
        rw e (IsSized-fuel (suc m) k (a ++ b) q (rw e at r) s)
    | no whole ↦
        let four : 4 ≤ length a = omega arith in
        let fits : 4 + header a ≤ length a = omega arith in
        let e = deframe_complete n a four fits in
        let same = header-append a b four in
        let cut = drop-append (4 + header a) a b fits in
        let shorter = length-drop (4 + header a) a in
        let tail = (s (omega (arith, length-append a b))).1 (omega (arith, length-append a b)) in
        rw e (
          IsSized-rest n m k (drop (4 + header a) a) b (omega arith)
            (omega (arith, length-append a b, length-append (drop (4 + header a) a) b)) (rw e at r)
            (rw (same, cut) at tail))
  ]

  IsSized-cons :
      (n k : ℕ) (bytes again : List ℕ)
      → header bytes ≡ k
      → k ≤ limit
      → drop (4 + k) bytes ≡ again
      → IsSized limit n again
      → IsSized limit (suc n) bytes
  IsSized-cons n k bytes again e small cut s = λ four. (rw e small, λ fits. rw (e, cut) s)

  -- Short requests make a sized stream, if the unfinished one behind them is short too.
  pub IsSized-encode_all :
      (n : ℕ) (frames : List (List ℕ)) (rest : List ℕ)
      → limit ≤ 4294967295
      → AllShort limit frames
      → length rest < 4 + header rest
      → header rest ≤ limit
      → IsSized limit n (encode_all frames ++ rest)
  IsSized-encode_all zero frames rest l short part h = tt
  IsSized-encode_all (suc n) [] rest l short part h = λ four. (h, λ fits. absurd (omega arith))
  IsSized-encode_all (suc n) (json ∷ frames) rest l short part h =
      let again = encode_all frames ++ rest in
      let regroup : encode_all (json ∷ frames) ++ rest ≡ encode json ++ again =
        append_assoc (encode json) (encode_all frames) rest in
      subst (IsSized limit (suc n)) (sym regroup) (
        IsSized-cons n (length json) (encode json ++ again) again
          (header-encode json again (omega arith)) short.0
          (sym (drop-drop (length json) 4 (encode json ++ again)) ∙ drop-length json again)
          (IsSized-encode_all n frames rest l short.1 part h))
