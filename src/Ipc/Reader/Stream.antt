-- ===== src/Ipc/Reader/Stream.antt =====
-- A client's requests do not depend on how its byte stream is cut into reads.
use typiod_wayland.Prelude.{
  ℕ, zero, suc, ◌+◌, ◌-◌, ◌≤◌, ◌<◌, ◌≡◌, refl, sym, ap, ◌∙◌, inl, inr, true, false, ◌&&◌, List, [],
  ◌∷◌, ◌++◌, Option, none, some, ltb, length, length-append, take, Bool-cases, arith,
}
use mathlib.Core.List.{append-nil, append_assoc, flatten}
use typiod_wayland.Ipc.Client.{Client, Sent, max_frame, writebuf, readbuf, encode}
use typiod_wayland.Ipc.Client.Stream.{Connected, Wrote, client_write-Done}
use typiod_wayland.Ipc.Deframe.{header, deframe, IsSized, encode_all, answered, serve_all}
use typiod_wayland.Ipc.Deframe.Laws.{
  header-append, deframe_unfinished, deframe-append, deframe_rest, deframe-encode_all, AllShort,
}
use typiod_wayland.Ipc.Deframe.Sized.{IsSized-front, IsSized-rest, IsSized-encode_all}
use typiod_wayland.Ipc.Reader.{
  Outcome, running, fault, bytes, extract, received, client_process_read, drain, dispatch_client,
  feed,
}
use typiod_wayland.Ipc.Reader.Served.{IsOpen, Served, RanTo, RanTo-trans, idle-Served}
use typiod_wayland.Ipc.Reader.Refine.{extract-Served}

take_all {ℓ} : {A : Type ℓ} (n : ℕ) (xs : List A) → length xs ≤ n → take n xs ≡ xs
take_all zero [] h = refl
take_all zero (x ∷ xs) h = absurd (omega arith)
take_all (suc n) [] h = refl
take_all (suc n) (x ∷ xs) h = ap (◌∷◌ x) (take_all n xs (omega arith))

encode_all-append : (xs ys : List (List ℕ)) → encode_all (xs ++ ys) ≡ encode_all xs ++ encode_all ys
encode_all-append [] ys = refl
encode_all-append (json ∷ xs) ys =
    ap (λ t. encode json ++ t) (encode_all-append xs ys)
    ∙ sym (append_assoc (encode json) (encode_all xs) (encode_all ys))

module _ {S : Type 0} (handler : List ℕ → S → Option (List ℕ) × S) where
  answered-append_list :
      (answer : Option (List ℕ)) (xs ys : List (List ℕ))
      → answered answer (xs ++ ys) ≡ answered answer xs ++ ys
  answered-append_list none xs ys = refl
  answered-append_list (some json) xs ys = refl

  -- The requests of two lists are served as those of the one, then those of the other.
  serve_all-append :
      (xs ys : List (List ℕ)) (s : S)
      → let (replies, s') = serve_all handler xs s in
        let (more, s'') = serve_all handler ys s' in
        serve_all handler (xs ++ ys) s ≡ (replies ++ more, s'')
  unfolding serve_all
  serve_all-append [] ys s = refl
  serve_all-append (json ∷ xs) ys s =
      let (answer, s') = handler json s in rw (serve_all-append xs ys s', answered-append_list) refl

drained-Served :
    (c d e : Client) (replies : List (List ℕ)) (rest : List ℕ)
    → Served c d replies rest
    → Wrote d e []
    → Served c e replies rest
drained-Served c d e replies rest v w = record {
  is_open = record {
    alive = w.alive;
    cursor = w.cursor;
    prefix_held = λ h. rw w.rbuf (v.is_open.prefix_held (sym w.have_len ∙ h));
    prefix_true =
        λ h. w.frame_len ∙ v.is_open.prefix_true (sym w.have_len ∙ h) ∙ ap header (sym w.rbuf);
  };
  left = w.rbuf ∙ v.left;
  out = w.out ∙ rw append-nil v.out;
  room = omega (arith, w.room, v.room);
}

AllShort-weaken : (frames : List (List ℕ)) → AllShort max_frame frames → AllShort 4294967295 frames
AllShort-weaken [] short = tt
AllShort-weaken (json ∷ frames) short = (omega (arith, short.0), AllShort-weaken frames short.1)

module _ (send : ℕ → ℕ → Sent) (peer : Connected send) {S : Type 0} where
  -- The drain of pending writes leaves a served client served.
  drain-RanTo :
      (r : Outcome S) (c : Client) (replies : List (List ℕ)) (rest : List ℕ) (s : S)
      → RanTo r c replies rest s
      → RanTo (drain send r) c replies rest s
  unfolding drain
  drain-RanTo fault c replies rest s h = h
  drain-RanTo (running d t) c replies rest s (v, e) =
      elim (Bool-cases (d.alive && ltb d.wpos (length d.wbuf))) [
        | inl pending ↦ rw pending (
          drained-Served c d _ replies rest v
              (client_write-Done send peer d v.is_open.alive v.is_open.cursor).0,
          e,
        )
        | inr idle ↦ rw idle (v, e)
      ]

module _ (send : ℕ → ℕ → Sent) (peer : Connected send) {S : Type 0}
    (handler : List ℕ → S → Option (List ℕ) × S) where
  -- The client with the bytes of one read behind those at hand.
  abbrev filled : Client → List ℕ → Client
  filled c chunk = record c { rbuf = c.rbuf ++ chunk }

  filled-IsOpen : (c : Client) (chunk : List ℕ) → IsOpen c → IsOpen (filled c chunk)
  filled-IsOpen c chunk o = record {
    alive = o.alive;
    cursor = o.cursor;
    prefix_held = λ h. omega (arith, o.prefix_held h, length-append c.rbuf chunk);
    prefix_true = λ h. o.prefix_true h ∙ sym (header-append c.rbuf chunk (o.prefix_held h));
  }

  -- A turn serves the frames that the chunk completes.
  dispatch-Served :
      (c : Client) (s : S) (chunk : List ℕ)
      → IsOpen c
      → 0 < length chunk
      → length c.rbuf + length chunk ≤ readbuf
      → let n = length (c.rbuf ++ chunk) in
        let (frames, rest) = deframe n (c.rbuf ++ chunk) in
        let (replies, s') = serve_all handler frames s in
        IsSized max_frame n (c.rbuf ++ chunk)
        → length c.wbuf + length (encode_all replies) ≤ writebuf
        → RanTo (dispatch_client send handler c s false true (bytes chunk)) c replies rest s'
  unfolding dispatch_client client_process_read received
  dispatch-Served c s [] o some_bytes fits sized room = absurd (omega arith)
  dispatch-Served c s (b ∷ bs) o some_bytes fits sized room =
      let whole = take_all (readbuf - length c.rbuf) (b ∷ bs) (omega arith) in
      let n = length (c.rbuf ++ b ∷ bs) in
      let c' = filled c (b ∷ bs) in
      rw whole (
        drain-RanTo send peer _ c _ _ _ (
          RanTo-trans (extract send handler n c' s) c c' [] _ _ c'.rbuf _ _ refl
            (idle-Served c c' (filled-IsOpen c (b ∷ bs) o) refl refl)
            (extract-Served send peer handler n c' s (omega arith) (filled-IsOpen c (b ∷ bs) o)
              sized room)))

  -- Every piece is received whole: it holds a byte, and the buffer has room for it.
  abbrev pub FitsRoom : List ℕ → List (List ℕ) → Type 0
  FitsRoom rest [] = Unit {0}
  FitsRoom rest (chunk ∷ chunks) =
      (0 < length chunk)
      × (length rest + length chunk ≤ readbuf)
      × FitsRoom (deframe (length (rest ++ chunk)) (rest ++ chunk)).1 chunks

  -- The pieces that follow are fed to the client that the first one left.
  resume-Fed :
      (r : Outcome S) (c : Client) (chunks first second : List (List ℕ)) (mid rest : List ℕ)
      (s s' : S)
      → RanTo r c first mid s
      → ((d : Client)
          → Served c d first mid
          → RanTo (feed send handler d s chunks) d second rest s')
      → RanTo
          (elim r [ fault ↦ fault | running d t ↦ feed send handler d t chunks ])
          c
          (first ++ second)
          rest
          s'
  resume-Fed fault c chunks first second mid rest s s' h go = h
  resume-Fed (running d t) c chunks first second mid rest s s' (v, e) go =
      RanTo-trans (feed send handler d t chunks) c d first second (first ++ second) mid rest s'
        (encode_all-append first second) v (rw e (go d v))

  -- The pieces of a stream are served as its frames are.
  feed-Served :
      (chunks : List (List ℕ)) (n : ℕ) (c : Client) (s : S)
      → IsOpen c
      → length c.rbuf < 4 + header c.rbuf
      → FitsRoom c.rbuf chunks
      → length (c.rbuf ++ flatten chunks) ≤ n
      → IsSized max_frame n (c.rbuf ++ flatten chunks)
      → let (frames, rest) = deframe n (c.rbuf ++ flatten chunks) in
        let (replies, s') = serve_all handler frames s in
        length c.wbuf + length (encode_all replies) ≤ writebuf
        → RanTo (feed send handler c s chunks) c replies rest s'
  unfolding feed flatten serve_all
  feed-Served [] n c s o part fits short sized room =
      rw (append-nil, deframe_unfinished n c.rbuf part) (idle-Served c c o refl refl, refl)
  feed-Served (chunk ∷ chunks) n c s o part fits short sized room =
      let x = c.rbuf ++ chunk in
      let ys = flatten chunks in
      let regroup : c.rbuf ++ (chunk ++ ys) ≡ x ++ ys = sym (append_assoc c.rbuf chunk ys) in
      let k = length x in
      let frames = (deframe k x).0 in
      let mid = (deframe k x).1 in
      let m = length (mid ++ ys) in
      let short' : length (x ++ ys) ≤ n = rw (← regroup) short in
      let sized' : IsSized max_frame n (x ++ ys) = rw (← regroup) sized in
      let later : FitsRoom mid chunks = fits.2 in
      let cut = deframe-append k n m x ys (omega arith) short' (omega arith) in
      let (first, s') = serve_all handler frames s in
      let (second, s'') = serve_all handler (deframe m (mid ++ ys)).0 s' in
      let served = serve_all-append handler frames (deframe m (mid ++ ys)).0 s in
      let space : length c.wbuf + length (encode_all (first ++ second)) ≤ writebuf =
        rw (regroup, cut, served) at room in
      let both = ap length (encode_all-append first second) in
      let total = length-append (encode_all first) (encode_all second) in
      rw (regroup, cut, served)
        (resume-Fed (dispatch_client send handler c s false true (bytes chunk)) c chunks first
          second mid (deframe m (mid ++ ys)).1 s' s''
          (dispatch-Served c s chunk o fits.0 fits.1
            (IsSized-front max_frame n k x ys short' (omega arith) sized')
            (omega (arith, space, both, total)))
          (λ d v. rw (← v.left) (
            feed-Served chunks (length (d.rbuf ++ ys)) d s' v.is_open
              (rw v.left (deframe_rest k x (omega arith))) (rw v.left later) (omega arith)
              (rw v.left
                (IsSized-rest max_frame k n m x ys (omega arith) short' (omega arith) sized'))
              (rw v.left (omega (arith, v.room, space, both, total))))))

  -- A client whose stream is the requests `frames` and an unfinished one gets the replies to
  -- `frames` in their order, and the handler is left in the state that they lead to, whatever the
  -- cut of the stream into reads; the unfinished request is what the client holds. The conditions:
  -- the peer is connected and takes no more than it is offered; the client is open and holds
  -- nothing; every read holds a byte and fits the receive buffer behind what is held; no frame
  -- announces more than 1 MiB; the write buffer has room for the replies.
  pub feed-encode_all :
      (c : Client) (s : S) (frames : List (List ℕ)) (last : List ℕ) (chunks : List (List ℕ))
      → IsOpen c
      → c.rbuf ≡ []
      → flatten chunks ≡ encode_all frames ++ last
      → AllShort max_frame frames
      → length last < 4 + header last
      → header last ≤ max_frame
      → FitsRoom [] chunks
      → length c.wbuf + length (encode_all (serve_all handler frames s).0) ≤ writebuf
      → let (replies, s') = serve_all handler frames s in
        RanTo (feed send handler c s chunks) c replies last s'
  feed-encode_all c s frames last chunks o fresh whole short part bounded fits room =
      let stream = encode_all frames ++ last in
      let n = length stream in
      let big = IsSized-encode_all max_frame n frames last (omega arith) short part bounded in
      let cut =
        deframe-encode_all n frames last (AllShort-weaken frames short) part (omega arith) in
      let all : c.rbuf ++ flatten chunks ≡ stream = ap (λ t. t ++ flatten chunks) fresh ∙ whole in
      let go =
        feed-Served chunks n c s o (rw fresh (omega arith)) (rw fresh fits)
          (omega (arith, ap length all)) (rw all big) in
      let served : length c.wbuf + length (encode_all (serve_all handler frames s).0) ≤ writebuf
          → RanTo (feed send handler c s chunks) c (serve_all handler frames s).0 last
              (serve_all handler frames s).1 =
        rw (all, cut) at go in
      served room
