-- ===== src/Ipc/Reader/Served.antt =====
-- What one frame leaves of a client, and how the steps of the reader follow each other.
use typiod_wayland.Prelude.{
  ℕ, ◌+◌, ◌≤◌, ◌<◌, ◌≡◌, refl, sym, ap, ap₂, ◌∙◌, ◌⊎◌, true, false, List, [], ◌++◌, ltb, length,
  length-append, drop, arith,
}
use mathlib.Core.List.{append-nil, append_assoc}
use typiod_wayland.Ipc.Client.{Client, max_frame}
use typiod_wayland.Ipc.Client.Stream.{outstream, Wrote}
use typiod_wayland.Ipc.Deframe.{header, encode_all}
use typiod_wayland.Ipc.Reader.{Outcome, running, fault, incomplete, known, consume, read_len}

-- An open client between two reads: a length prefix that was read is that of the bytes at hand.
pub record IsOpen (c : Client) : Type 0 where
  pub alive : c.alive ≡ true
  pub cursor : c.wpos ≤ length c.wbuf
  pub prefix_held : c.have_len ≡ true → 4 ≤ length c.rbuf
  pub prefix_true : c.have_len ≡ true → c.frame_len ≡ header c.rbuf

-- The client `d` has been served: `rest` is left to read, and `replies` were enqueued.
pub record Served (c d : Client) (replies : List (List ℕ)) (rest : List ℕ) : Type 0 where
  pub is_open : IsOpen d
  pub left : d.rbuf ≡ rest
  pub out : outstream d ≡ outstream c ++ encode_all replies
  pub room : length d.wbuf ≤ length c.wbuf + length (encode_all replies)

-- The outcome is a running client that has been served, with the handler in the state `s`.
abbrev pub RanTo : {S : Type 0} → Outcome S → Client → List (List ℕ) → List ℕ → S → Type 0
RanTo fault c replies rest s = ⊥
RanTo (running d t) c replies rest s = Served c d replies rest × (t ≡ s)

-- A client with nothing to do has been served with no reply.
pub idle-Served :
    (c d : Client) → IsOpen d → d.wbuf ≡ c.wbuf → outstream d ≡ outstream c → Served c d [] d.rbuf
idle-Served c d o w out = record {
  is_open = o;
  left = refl;
  out = rw append-nil out;
  room = omega (arith, ap length w);
}

-- One service after another is the service with both lists of replies.
pub RanTo-trans :
    {S : Type 0} (r : Outcome S) (c d : Client) (first second both : List (List ℕ))
    (mid rest : List ℕ) (s : S)
    → encode_all both ≡ encode_all first ++ encode_all second
    → Served c d first mid
    → RanTo r d second rest s
    → RanTo r c both rest s
RanTo-trans fault c d first second both mid rest s e p q = q
RanTo-trans (running d' t) c d first second both mid rest s e p q = (
  record {
    is_open = q.0.is_open;
    left = q.0.left;
    out =
        q.0.out
        ∙ ap (λ o. o ++ encode_all second) p.out
        ∙ append_assoc (outstream c) (encode_all first) (encode_all second)
        ∙ ap (λ o. outstream c ++ o) (sym e);
    room = omega (
      arith,
      p.room,
      q.0.room,
      ap length e,
      length-append (encode_all first) (encode_all second),
    );
  },
  q.1,
)

-- What `read_len` finds at an open client whose next frame is not oversized.
pub read_len-cases :
    (c : Client)
    → IsOpen c
    → (4 ≤ length c.rbuf → header c.rbuf ≤ max_frame)
    → ((length c.rbuf < 4) × (read_len c ≡ incomplete))
      ⊎ ((4 ≤ length c.rbuf)
          × (read_len c ≡ known (record c { have_len = true; frame_len = header c.rbuf })))
unfolding read_len
read_len-cases c o small = ground (arith, o.prefix_held, o.prefix_true, small)

-- The complete frame is dropped, once its reply left the read side as it was.
pub consume-Served :
    {S : Type 0} (c d : Client) (s : S) (replies : List (List ℕ))
    → Wrote c d (encode_all replies)
    → 4 + c.frame_len ≤ length c.rbuf
    → RanTo (consume d s) c replies (drop (4 + c.frame_len) c.rbuf) s
unfolding consume
consume-Served c d s replies w fits =
    let kept : ltb (length d.rbuf) (4 + d.frame_len) ≡ false =
      rw (w.rbuf, w.frame_len) (ground arith) in
    rw kept (
      record {
        is_open = record {
          alive = w.alive;
          cursor = w.cursor;
          prefix_held = λ e. cc;
          prefix_true = λ e. cc;
        };
        left = ap₂ (λ k b. drop (4 + k) b) w.frame_len w.rbuf;
        out = w.out;
        room = w.room;
      },
      refl,
    )
