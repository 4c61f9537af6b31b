-- ===== src/Ipc/Client/Stream.antt =====
-- The bytes that a client is owed: while the peer's socket stays up and the write buffer has room,
-- what was sent and what is pending are together the bytes enqueued, in order.
use mathlib.Core.List.{append-nil, append_assoc}
use typiod_wayland.Prelude.{
  ℕ, ◌+◌, ◌≤◌, ◌≡◌, refl, ap, sym, ◌∙◌, ◌≢◌, inl, inr, Bool, true, false, List, [], ◌++◌, ltb, leb,
  length, length-append, take, drop, length-drop, drop-drop, drop_all, drop-append,
  take-append-drop, Bool-cases, arith,
}
use typiod_wayland.Ipc.Client.{
  Client, Sent, again, error, taken, writebuf, max_frame, be32, encode, settle, after_send,
  client_write, client_enqueue, client_send_frame,
}

-- What was sent, and what waits in the write buffer.
abbrev pub outstream : Client → List ℕ
outstream c = c.sent ++ drop c.wpos c.wbuf

-- A connected peer: `send` does not fail, and takes no more than it is offered.
pub record Connected (send : ℕ → ℕ → Sent) : Type 0 where
  pub up : (k n : ℕ) → send k n ≢ error
  pub honest : (k n m : ℕ) → send k n ≡ taken m → m ≤ n

-- From `c` to `d` the read side is unchanged, `bytes` are enqueued, and the socket stays open.
pub record Wrote (c d : Client) (bytes : List ℕ) : Type 0 where
  pub alive : d.alive ≡ true
  pub cursor : d.wpos ≤ length d.wbuf
  pub out : outstream d ≡ outstream c ++ bytes
  pub room : length d.wbuf ≤ length c.wbuf + length bytes
  pub rbuf : d.rbuf ≡ c.rbuf
  pub have_len : d.have_len ≡ c.have_len
  pub frame_len : d.frame_len ≡ c.frame_len

pub Wrote-calls :
    (c : Client) (k : ℕ)
    → c.alive ≡ true
    → c.wpos ≤ length c.wbuf
    → Wrote c (record c { calls = k }) []
Wrote-calls c k a h = record {
  alive = a;
  cursor = h;
  out = simp append-nil;
  room = omega arith;
  rbuf = refl;
  have_len = refl;
  frame_len = refl;
}

settle-Wrote : (c : Client) → c.alive ≡ true → c.wpos ≤ length c.wbuf → Wrote c (settle c) []
unfolding settle
settle-Wrote c a h = elim (Bool-cases (leb (length c.wbuf) c.wpos)) [
  | inl done ↦ rw done (record {
    alive = a;
    cursor = omega arith;
    out = simp (drop_all c.wpos c.wbuf (ground arith), append-nil);
    room = omega arith;
    rbuf = refl;
    have_len = refl;
    frame_len = refl;
  })
  | inr more ↦ rw more (Wrote-calls c c.calls a h)
]

pub Wrote-trans :
    (b c d : Client) (xs ys : List ℕ) → Wrote b c xs → Wrote c d ys → Wrote b d (xs ++ ys)
Wrote-trans b c d xs ys p q = record {
  alive = q.alive;
  cursor = q.cursor;
  out = q.out ∙ ap (λ o. o ++ ys) p.out ∙ append_assoc (outstream b) xs ys;
  room = omega (arith, p.room, q.room, length-append xs ys);
  rbuf = q.rbuf ∙ p.rbuf;
  have_len = q.have_len ∙ p.have_len;
  frame_len = q.frame_len ∙ p.frame_len;
}

-- The bytes that `send` takes move from the pending ones to the sent ones.
taken-Wrote :
    (c : Client) (k n : ℕ)
    → c.alive ≡ true
    → c.wpos ≤ length c.wbuf
    → n ≤ length (drop c.wpos c.wbuf)
    → Wrote c
        (record c { wpos = c.wpos + n; sent = c.sent ++ take n (drop c.wpos c.wbuf); calls = k })
        []
taken-Wrote c k n a h fits = record {
  alive = a;
  cursor = omega (arith, length-drop c.wpos c.wbuf);
  out =
      append_assoc c.sent (take n (drop c.wpos c.wbuf)) (drop (c.wpos + n) c.wbuf)
      ∙ simp (← drop-drop n c.wpos c.wbuf, take-append-drop n (drop c.wpos c.wbuf), append-nil);
  room = omega arith;
  rbuf = refl;
  have_len = refl;
  frame_len = refl;
}

module _ (send : ℕ → ℕ → Sent) (peer : Connected send) where
  -- What a call of `client_write` and its kin has done.
  abbrev pub Done : Client → Client × Bool → List ℕ → Type 0
  Done c r bytes = Wrote c r.0 bytes × (r.1 ≡ true)

  after_send-Done :
      (c : Client) (k : ℕ) (r : Sent)
      → r ≡ send k (length (drop c.wpos c.wbuf))
      → c.alive ≡ true
      → c.wpos ≤ length c.wbuf
      → Done c (after_send send (record c { calls = c.calls + 1 }) r) []
  unfolding after_send
  after_send-Done c k again e a h = (Wrote-calls c (c.calls + 1) a h, refl)
  after_send-Done c k error e a h = absurd (peer.up k _ (sym e))
  after_send-Done c k (taken n) e a h =
      let moved = taken-Wrote c (c.calls + 1) n a h (peer.honest k _ n (sym e)) in
      (Wrote-trans c _ _ [] [] moved (settle-Wrote _ a moved.cursor), refl)

  -- A drain sends a part of what is pending.
  pub client_write-Done :
      (c : Client) → c.alive ≡ true → c.wpos ≤ length c.wbuf → Done c (client_write send c) []
  unfolding client_write
  client_write-Done c a h = elim (Bool-cases (leb (length c.wbuf) c.wpos)) [
    | inl done ↦ rw done (Wrote-calls c c.calls a h, refl)
    | inr more ↦ rw more (after_send-Done c c.calls _ refl a h)
  ]

  enqueued-Wrote :
      (c : Client) (bytes : List ℕ)
      → c.alive ≡ true
      → c.wpos ≤ length c.wbuf
      → Wrote c (record c { wbuf = c.wbuf ++ bytes }) bytes
  enqueued-Wrote c bytes a h = record {
    alive = a;
    cursor = omega (arith, length-append c.wbuf bytes);
    out = simp (drop-append c.wpos c.wbuf bytes h, append_assoc);
    room = omega (arith, length-append c.wbuf bytes);
    rbuf = refl;
    have_len = refl;
    frame_len = refl;
  }

  client_enqueue-Done :
      (c : Client) (bytes : List ℕ)
      → c.alive ≡ true
      → c.wpos ≤ length c.wbuf
      → length c.wbuf + length bytes ≤ writebuf
      → Done c (client_enqueue send c bytes) bytes
  unfolding client_enqueue
  client_enqueue-Done c bytes a h fits =
      let full : ltb writebuf (length c.wbuf + length bytes) ≡ false = ground arith in
      let queued = enqueued-Wrote c bytes a h in
      let rest = client_write-Done (record c { wbuf = c.wbuf ++ bytes }) a queued.cursor in
      rw full (append-nil-Wrote c _ bytes (Wrote-trans c _ _ bytes [] queued rest.0), rest.1)
    where
      append-nil-Wrote : (c d : Client) (bytes : List ℕ) → Wrote c d (bytes ++ []) → Wrote c d bytes
      append-nil-Wrote c d bytes w = rw append-nil at w

  -- With a connected peer and room in the write buffer, a frame is enqueued behind all that is
  -- pending, and the read side is left alone.
  pub client_send_frame-Wrote :
      (c : Client) (json : List ℕ)
      → c.alive ≡ true
      → c.wpos ≤ length c.wbuf
      → length c.wbuf + (4 + length json) ≤ writebuf
      → Done c (client_send_frame send c json) (encode json)
  unfolding client_send_frame
  client_send_frame-Wrote c json a h fits =
      let small : ltb max_frame (length json) ≡ false = ground arith in
      let prefix = client_enqueue-Done c (be32 (length json)) a h (omega arith) in
      let body =
        client_enqueue-Done (client_enqueue send c (be32 (length json))).0 json prefix.0.alive
          prefix.0.cursor (omega (arith, prefix.0.room)) in
      rw (small, prefix.1) (Wrote-trans c _ _ (be32 (length json)) json prefix.0 body.0, body.1)
