-- ===== src/Ipc/Reader.antt =====
-- The read path of a client (src/ipc/uds_server.c, `client_process_read`).
-- The request handler is a callback: its user data is a state, and it may answer with a reply.
-- Both allocations of the loop are taken to succeed.
pub mod Served
pub mod Refine
pub mod Stream
pub mod Faults
use typiod_wayland.Prelude.{
  ℕ, zero, suc, ◌+◌, ◌-◌, ◌&&◌, Bool, true, false, List, [], ◌∷◌, ◌++◌, Option, none, some, ltb,
  ◌==◌, if◌then◌else◌, length, take, drop,
}
use typiod_wayland.Ipc.Client.{
  Client, Sent, max_frame, readbuf, close_client, client_write, client_send_frame,
}
use typiod_wayland.Ipc.Deframe.{header}

-- The answer of `recv`: EAGAIN, another error, or the bytes received (none at the end of the
-- stream, and when no room was offered).
pub data Received : Type 0 where
  again : Received
  error : Received
  bytes : List ℕ → Received

-- `fault` stands for the `memmove` whose count is below zero, that is near 2 ^ 64.
pub data Outcome (S : Type 0) : Type 0 where
  running : Client → S → Outcome S
  fault : Outcome S

-- The length prefix of the frame at the head of the buffer.
pub data Prefix : Type 0 where
  incomplete : Prefix
  oversized : Client → Prefix
  known : Client → Prefix

-- The length prefix, read at most once for a frame.
unfoldable pub read_len : Client → Prefix
read_len c =
    if c.have_len
    then known c
    else if ltb (length c.rbuf) 4
    then incomplete
    else let n = header c.rbuf in
      if ltb max_frame n
      then oversized (close_client (record c { frame_len = n }))
      else known (record c { have_len = true; frame_len = n })

-- The move of the rest of the buffer to its front, with `consumed` computed after the reply.
unfoldable pub consume : {S : Type 0} → Client → S → Outcome S
consume c s =
    if ltb (length c.rbuf) (4 + c.frame_len)
    then fault
    else running
        (record c { rbuf = drop (4 + c.frame_len) c.rbuf; have_len = false; frame_len = 0 }) s

-- The drain of pending writes that ends a client's turn.
unfoldable pub drain : {S : Type 0} → (ℕ → ℕ → Sent) → Outcome S → Outcome S
drain send fault = fault
drain send (running c s) =
    if c.alive && ltb c.wpos (length c.wbuf) then running (client_write send c).0 s else running c s

module _ (send : ℕ → ℕ → Sent) {S : Type 0} (handler : List ℕ → S → Option (List ℕ) × S) where
  abbrev pub reply : Client → Option (List ℕ) → Client
  reply c none = c
  reply c (some json) = (client_send_frame send c json).0

  -- The handling of one complete frame.
  unfoldable pub serve_frame : Client → S → Outcome S
  serve_frame c s =
      let (answer, s') = handler (take c.frame_len (drop 4 c.rbuf)) s in consume (reply c answer) s'

  -- The loop over the received bytes, on fuel.
  unfoldable pub extract : ℕ → Client → S → Outcome S
  extract zero c s = running c s
  extract (suc fuel) c s = if length c.rbuf == 0 then running c s else elim (read_len c) [
    | incomplete ↦ running c s
    | oversized c' ↦ running c' s
    | known c' ↦
        if ltb (length c'.rbuf) (4 + c'.frame_len)
        then running c' s
        else elim (serve_frame c' s) [ fault ↦ fault | running c'' s'' ↦ extract fuel c'' s'' ]
  ]

  -- Every round of the loop removes at least four bytes, so the bytes received are fuel enough.
  -- `recv` returns no bytes at the end of the stream, and where it was offered no room.
  unfoldable pub received : Client → S → List ℕ → Outcome S
  received c s [] = running (close_client c) s
  received c s (b ∷ bs) =
      let rbuf = c.rbuf ++ b ∷ bs in extract (length rbuf) (record c { rbuf = rbuf }) s

  -- `recv` is offered the room that the buffer has left, and returns no more than that.
  unfoldable pub client_process_read : Client → S → Received → Outcome S
  client_process_read c s again = running c s
  client_process_read c s error = running (close_client c) s
  client_process_read c s (bytes bs) = received c s (take (readbuf - length c.rbuf) bs)

  -- One client's turn in `typio_uds_server_dispatch`, by the events that epoll reports for it.
  unfoldable pub dispatch_client : Client → S → Bool → Bool → Received → Outcome S
  dispatch_client c s hangup readable r = drain send (
      if hangup
      then running (close_client c) s
      else if readable
      then client_process_read c s r
      else running c s)

  -- The turns of a client that sends its stream in these pieces.
  unfoldable pub feed : Client → S → List (List ℕ) → Outcome S
  feed c s [] = running c s
  feed c s (chunk ∷ chunks) = elim (dispatch_client c s false true (bytes chunk)) [
    | fault ↦ fault
    | running d t ↦ feed d t chunks
  ]
