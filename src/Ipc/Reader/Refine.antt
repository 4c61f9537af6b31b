-- ===== src/Ipc/Reader/Refine.antt =====
-- The reader hands the handler exactly the frames of the bytes, and enqueues its replies in order.
use typiod_wayland.Prelude.{
  ℕ, zero, suc, ◌+◌, ◌≤◌, ◌≡◌, refl, sym, ap, inl, inr, true, List, [], ◌++◌, Option, none, some,
  ltb, ◌==◌, if◌then◌else◌, length, length-append, length-drop, take, drop, Bool-cases, arith,
}
use mathlib.Core.List.{append-nil, append_assoc}
use typiod_wayland.Ipc.Client.{Client, Sent, max_frame, writebuf, encode}
use typiod_wayland.Ipc.Client.Stream.{Connected, Wrote, Wrote-calls, client_send_frame-Wrote}
use typiod_wayland.Ipc.Deframe.{header, deframe, IsSized, encode_all, answered, serve_all}
use typiod_wayland.Ipc.Deframe.Laws.{deframe_unfinished, deframe_complete}
use typiod_wayland.Ipc.Reader.{Outcome, running, fault, reply, serve_frame, extract}
use typiod_wayland.Ipc.Reader.Served.{
  IsOpen, RanTo, RanTo-trans, idle-Served, read_len-cases, consume-Served,
}

module _ (send : ℕ → ℕ → Sent) (peer : Connected send) {S : Type 0}
    (handler : List ℕ → S → Option (List ℕ) × S) where
  -- The reply to one frame, if any, is enqueued whole.
  reply-Wrote :
      (c : Client) (answer : Option (List ℕ))
      → c.alive ≡ true
      → c.wpos ≤ length c.wbuf
      → length c.wbuf + length (encode_all (answered answer [])) ≤ writebuf
      → Wrote c (reply send handler c answer) (encode_all (answered answer []))
  reply-Wrote c none a h room = Wrote-calls c c.calls a h
  reply-Wrote c (some json) a h room =
      rw append-nil
        (client_send_frame-Wrote send peer c json a h
          (omega (arith, length-append (encode json) []))).0

  answered-append :
      (answer : Option (List ℕ)) (replies : List (List ℕ))
      → encode_all (answered answer replies) ≡ encode_all (answered answer []) ++ encode_all replies
  answered-append none replies = refl
  answered-append (some json) replies = sym (append_assoc (encode json) [] (encode_all replies))

  -- One turn of the loop at a complete frame: the reply is enqueued and the frame is dropped.
  serve_frame-Served :
      (c : Client) (s : S)
      → IsOpen c
      → 4 + c.frame_len ≤ length c.rbuf
      → let (answer, s') = handler (take c.frame_len (drop 4 c.rbuf)) s in
        length c.wbuf + length (encode_all (answered answer [])) ≤ writebuf
        → RanTo
            (serve_frame send handler c s)
            c
            (answered answer [])
            (drop (4 + c.frame_len) c.rbuf)
            s'
  unfolding serve_frame
  serve_frame-Served c s o fits room =
      let (answer, s') = handler (take c.frame_len (drop 4 c.rbuf)) s in
      consume-Served c (reply send handler c answer) s' (answered answer [])
        (reply-Wrote c answer o.alive o.cursor room) fits

  -- The room that the replies to the frames of the client's bytes take.
  abbrev pub RoomFor : ℕ → Client → S → Type 0
  RoomFor fuel c s =
      length c.wbuf + length (encode_all (serve_all handler (deframe fuel c.rbuf).0 s).0) ≤ writebuf

  -- The loop serves the frames of the bytes that it finds, and leaves the unfinished one.
  abbrev pub Extracted : ℕ → Client → S → Type 0
  Extracted fuel c s =
      let (frames, rest) = deframe fuel c.rbuf in
      let (replies, s') = serve_all handler frames s in
      RanTo (extract send handler fuel c s) c replies rest s'

  -- The loop goes on after a frame that was served.
  resume-Served :
      (fuel : ℕ) (c : Client) (tail : List ℕ) (s' : S) (answer : Option (List ℕ)) (r : Outcome S)
      → ((d : Client) (t : S)
          → length d.rbuf ≤ fuel
          → IsOpen d
          → IsSized max_frame fuel d.rbuf
          → RoomFor fuel d t
          → Extracted fuel d t)
      → RanTo r c (answered answer []) tail s'
      → length tail ≤ fuel
      → IsSized max_frame fuel tail
      → let (replies, s'') = serve_all handler (deframe fuel tail).0 s' in
        length c.wbuf + length (encode_all (answered answer replies)) ≤ writebuf
        → RanTo
            (elim r [ fault ↦ fault | running d t ↦ extract send handler fuel d t ])
            c
            (answered answer replies)
            (deframe fuel tail).1
            s''
  resume-Served fuel c tail s' answer fault ih h short sized room = h
  resume-Served fuel c tail s' answer (running d t) ih h short sized room =
      let (served, same) = h in
      let frames = (deframe fuel tail).0 in
      let replies = (serve_all handler frames s').0 in
      let both = answered-append answer replies in
      let total = length-append (encode_all (answered answer [])) (encode_all replies) in
      let space : length d.wbuf + length (encode_all replies) ≤ writebuf =
        omega (arith, served.room, ap length both, total) in
      RanTo-trans (extract send handler fuel d t) c d (answered answer []) replies
        (answered answer replies) tail (deframe fuel tail).1 (serve_all handler frames s').1 both
        served
        (rw (← served.left, ← same)
          (ih d t (rw served.left short) served.is_open (rw served.left sized)
            (rw (served.left, same) space)))

  -- The client when the length prefix of the next frame is read.
  abbrev prefixed : Client → Client
  prefixed c = record c { have_len = true; frame_len = header c.rbuf }

  prefixed-IsOpen : (c : Client) → IsOpen c → 4 ≤ length c.rbuf → IsOpen (prefixed c)
  prefixed-IsOpen c o four = record {
    alive = o.alive;
    cursor = o.cursor;
    prefix_held = λ e. four;
    prefix_true = λ e. refl;
  }

  -- What a turn of the loop makes of a client with a length prefix.
  abbrev turn : ℕ → Client → S → Outcome S
  turn fuel c s =
      if ltb (length c.rbuf) (4 + c.frame_len)
      then running c s
      else elim (serve_frame send handler c s) [
        | fault ↦ fault
        | running d t ↦ extract send handler fuel d t
      ]

  turn-Served :
      (fuel : ℕ) (c : Client) (s : S)
      → ((d : Client) (t : S)
          → length d.rbuf ≤ fuel
          → IsOpen d
          → IsSized max_frame fuel d.rbuf
          → RoomFor fuel d t
          → Extracted fuel d t)
      → length c.rbuf ≤ suc fuel
      → IsOpen c
      → 4 ≤ length c.rbuf
      → IsSized max_frame (suc fuel) c.rbuf
      → RoomFor (suc fuel) c s
      → let (frames, rest) = deframe (suc fuel) c.rbuf in
        let (replies, s') = serve_all handler frames s in
        RanTo (turn fuel (prefixed c) s) c replies rest s'
  unfolding serve_all
  turn-Served fuel c s ih short o four sized room =
      elim (Bool-cases (ltb (length c.rbuf) (4 + header c.rbuf))) [
        | inl part ↦ rw part (
            rw (deframe_unfinished (suc fuel) c.rbuf (ground arith))
              (idle-Served c (prefixed c) (prefixed-IsOpen c o four) refl refl, refl))
        | inr whole ↦
            let fits : 4 + header c.rbuf ≤ length c.rbuf = ground arith in
            let e = deframe_complete fuel c.rbuf four fits in
            let tail = drop (4 + header c.rbuf) c.rbuf in
            let frame = take (header c.rbuf) (drop 4 c.rbuf) in
            let (answer, s') = handler frame s in
            let replies = (serve_all handler (deframe fuel tail).0 s').0 in
            let space : length c.wbuf + length (encode_all (answered answer replies)) ≤ writebuf =
              rw e at room in
            rw whole (
              rw e (
                RanTo-trans _ c (prefixed c) [] (answered answer replies) (answered answer replies)
                  c.rbuf (deframe fuel tail).1 _ refl
                  (idle-Served c (prefixed c) (prefixed-IsOpen c o four) refl refl)
                  (resume-Served fuel (prefixed c) tail s' answer
                    (serve_frame send handler (prefixed c) s) ih
                    (serve_frame-Served (prefixed c) s (prefixed-IsOpen c o four) fits (
                      omega (
                        arith,
                        space,
                        ap length (answered-append answer replies),
                        length-append (encode_all (answered answer [])) (encode_all replies),
                      )))
                    (omega (arith, length-drop (4 + header c.rbuf) c.rbuf)) ((sized four).1 fits)
                    space)))
      ]

  -- The reader at the bytes that it holds: the frames are served in order, nothing else changes.
  pub extract-Served :
      (fuel : ℕ) (c : Client) (s : S)
      → length c.rbuf ≤ fuel
      → IsOpen c
      → IsSized max_frame fuel c.rbuf
      → RoomFor fuel c s
      → Extracted fuel c s
  unfolding extract serve_all
  extract-Served zero c s short o sized room =
      rw (deframe_unfinished zero c.rbuf (omega arith)) (idle-Served c c o refl refl, refl)
  extract-Served (suc fuel) c s short o sized room = elim (Bool-cases (length c.rbuf == 0)) [
    | inl nothing ↦ rw nothing (
        rw (deframe_unfinished (suc fuel) c.rbuf (ground arith))
          (idle-Served c c o refl refl, refl))
    | inr some_bytes ↦ elim (read_len-cases c o (λ four. (sized four).0)) [
      | inl (few, e) ↦ rw some_bytes (
          rw (e, extract)
            (rw (deframe_unfinished (suc fuel) c.rbuf (omega arith))
              (idle-Served c c o refl refl, refl)))
      | inr (four, e) ↦
          rw some_bytes
            (rw (e, extract) (turn-Served fuel c s (extract-Served fuel) short o four sized room))
    ]
  ]
