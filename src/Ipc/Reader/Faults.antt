-- ===== src/Ipc/Reader/Faults.antt =====
-- Two inputs of the read path that the source does not provide for (src/ipc/uds_server.c,
-- `client_process_read`).
use typiod_wayland.Prelude.{
  ℕ, suc, ◌+◌, ◌≤◌, ◌≡◌, refl, ap, true, false, List, [], Option, some, ltb, ◌==◌, length, take,
  drop, arith,
}
use typiod_wayland.Ipc.Client.{Client, Sent, readbuf, client_send_frame, close_client}
use typiod_wayland.Ipc.Reader.{
  bytes, running, fault, read_len, known, consume, serve_frame, extract, client_process_read,
  received,
}

consume-fault : {S : Type 0} (c : Client) (s : S) → c.rbuf ≡ [] → consume c s ≡ fault
unfolding consume
consume-fault c s nothing =
    let short : ltb (length c.rbuf) (4 + c.frame_len) ≡ true = ground (arith, ap length nothing) in
    rw short refl

read_len_held : (c : Client) → c.have_len ≡ true → read_len c ≡ known c
unfolding read_len
read_len_held c prefix = rw prefix refl

module _ (send : ℕ → ℕ → Sent) {S : Type 0} (handler : List ℕ → S → Option (List ℕ) × S) where
  serve_frame-fault :
      (c : Client) (s : S) (json : List ℕ)
      → (handler (take c.frame_len (drop 4 c.rbuf)) s).0 ≡ some json
      → (client_send_frame send c json).0.rbuf ≡ []
      → serve_frame send handler c s ≡ fault
  unfolding serve_frame
  serve_frame-fault c s json answer closed = rw answer (consume-fault _ _ closed)

  -- A reply that empties the receive buffer, which closing the client does, sends the loop's
  -- `memmove` a count below zero: the frame's length is read after the reply, and it is 0 then.
  pub reply-fault :
      (fuel : ℕ) (c : Client) (s : S) (json : List ℕ)
      → 4 + c.frame_len ≤ length c.rbuf
      → c.have_len ≡ true
      → (handler (take c.frame_len (drop 4 c.rbuf)) s).0 ≡ some json
      → (client_send_frame send c json).0.rbuf ≡ []
      → extract send handler (suc fuel) c s ≡ fault
  unfolding extract
  reply-fault fuel c s json whole prefix answer closed =
      let some_bytes : (length c.rbuf == 0) ≡ false = ground (arith, whole) in
      let complete : ltb (length c.rbuf) (4 + c.frame_len) ≡ false = ground (arith, whole) in
      let again = serve_frame-fault c s json answer closed in
      rw (some_bytes, read_len_held c prefix) (rw (complete, again) refl)

  -- A client that holds as many bytes as its buffer does, all of one unfinished frame, is closed by
  -- its next read, whatever it sent: frames of more than 8188 bytes never arrive.
  pub long_frame-closes :
      (c : Client) (s : S) (bs : List ℕ)
      → length c.rbuf ≡ readbuf
      → client_process_read send handler c s (bytes bs) ≡ running (close_client c) s
  unfolding client_process_read received
  long_frame-closes c s bs full = rw full refl
