-- ===== src/Ipc/Client.antt =====
-- One client of the socket server (src/ipc/uds_server.c): its buffers, and the write path.
-- What `send` returns is the kernel's choice, so it is a parameter: the k-th call of the run is
-- offered `n` bytes and answers `send k n`.
pub mod Stream
use typiod_wayland.Prelude.{
  ℕ, ◌+◌, ◌/◌, ◌%◌, Bool, true, false, List, [], ◌∷◌, ◌++◌, ltb, leb, if◌then◌else◌, length, take,
  drop,
}

abbrev pub readbuf : ℕ
readbuf = 8192

abbrev pub writebuf : ℕ
writebuf = 65536

abbrev pub max_frame : ℕ
max_frame = 1048576

-- `struct TypioUdsClient`. `alive` says that `fd` is not negative. `rbuf` holds the `rlen` bytes
-- received and `wbuf` the `wlen` bytes enqueued; the bytes of the arrays past them are never read.
-- `sent` is what the peer's socket has taken so far, and `calls` counts the calls of `send`.
pub record Client : Type 0 where
  pub alive : Bool
  pub closed : Bool
  pub subscribed : Bool
  pub wildcard : Bool
  pub topics : List (List ℕ)
  pub rbuf : List ℕ
  pub have_len : Bool
  pub frame_len : ℕ
  pub wbuf : List ℕ
  pub wpos : ℕ
  pub sent : List ℕ
  pub calls : ℕ

-- The answer of `send`: EAGAIN, another error, or the number of bytes taken.
pub data Sent : Type 0 where
  again : Sent
  error : Sent
  taken : ℕ → Sent

unfoldable pub client_clear_subscription : Client → Client
client_clear_subscription c = record c { topics = []; wildcard = false; subscribed = false }

unfoldable pub close_client : Client → Client
close_client c =
    if c.alive
    then record (client_clear_subscription c) {
      alive = false;
      closed = true;
      rbuf = [];
      have_len = false;
      frame_len = 0;
      wbuf = [];
      wpos = 0;
    }
    else c

-- A buffer that is sent whole starts again at 0.
unfoldable pub settle : Client → Client
settle c = if leb (length c.wbuf) c.wpos then record c { wbuf = []; wpos = 0 } else c

-- The four bytes of `htonl`.
abbrev pub be32 : ℕ → List ℕ
be32 n = (n / 16777216 % 256) ∷ (n / 65536 % 256) ∷ (n / 256 % 256) ∷ (n % 256) ∷ []

-- The bytes of a frame on the wire.
abbrev pub encode : List ℕ → List ℕ
encode json = be32 (length json) ++ json

module _ (send : ℕ → ℕ → Sent) where
  -- What `client_write` does with the answer of `send`.
  unfoldable pub after_send : Client → Sent → Client × Bool
  after_send c again = (c, true)
  after_send c error = (close_client c, false)
  after_send c (taken n) =
      (settle (record c { wpos = c.wpos + n; sent = c.sent ++ take n (drop c.wpos c.wbuf) }), true)

  unfoldable pub client_write : Client → Client × Bool
  client_write c =
      if leb (length c.wbuf) c.wpos
      then (c, true)
      else after_send (record c { calls = c.calls + 1 })
          (send c.calls (length (drop c.wpos c.wbuf)))

  unfoldable pub client_enqueue : Client → List ℕ → Client × Bool
  client_enqueue c bytes =
      if ltb writebuf (length c.wbuf + length bytes)
      then (close_client c, false)
      else client_write (record c { wbuf = c.wbuf ++ bytes })

  unfoldable pub client_send_frame : Client → List ℕ → Client × Bool
  client_send_frame c json =
      if ltb max_frame (length json)
      then (c, false)
      else let (c', ok) = client_enqueue c (be32 (length json)) in
        if ok then client_enqueue c' json else (c', false)
