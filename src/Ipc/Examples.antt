-- ===== src/Ipc/Examples.antt =====
-- Runs of the socket server's client, and the theorems at them.
use typiod_wayland.Prelude.{
  ℕ, ◌+◌, ◌≡◌, refl, true, false, List, [], ◌∷◌, Option, some, replicate, arith,
}
use mathlib.Core.List.{flatten}
use typiod_wayland.Ipc.Client.{
  Client, Sent, taken, error, client_write, after_send, client_enqueue, client_send_frame,
  close_client, client_clear_subscription,
}
use typiod_wayland.Ipc.Client.Stream.{Connected}
use typiod_wayland.Ipc.Deframe.{deframe, serve_all}
use typiod_wayland.Ipc.Reader.{fault, extract, feed}
use typiod_wayland.Ipc.Reader.Served.{IsOpen, RanTo}
use typiod_wayland.Ipc.Reader.Stream.{feed-encode_all}
use typiod_wayland.Ipc.Reader.Faults.{reply-fault}

-- A socket that takes all it is offered, and one that is broken.
abbrev send_all : ℕ → ℕ → Sent
send_all k n = taken n

abbrev send_none : ℕ → ℕ → Sent
send_none k n = error

taken-injective : {m n : ℕ} → taken m ≡ taken n → m ≡ n
taken-injective e = ground (arith, e)

send_all-Connected : Connected send_all
send_all-Connected = record {
  up = λ k n e. ground (arith, e);
  honest = λ k n m e. omega (arith, taken-injective e);
}

-- The handler echoes a request and counts it.
abbrev echo : List ℕ → ℕ → Option (List ℕ) × ℕ
echo json s = (some json, s + 1)

abbrev fresh : Client
fresh = record {
  alive = true;
  closed = false;
  subscribed = false;
  wildcard = false;
  topics = [];
  rbuf = [];
  have_len = false;
  frame_len = 0;
  wbuf = [];
  wpos = 0;
  sent = [];
  calls = 0;
}

fresh-IsOpen : IsOpen fresh
fresh-IsOpen = record {
  alive = refl;
  cursor = omega arith;
  prefix_held = λ h. ground (arith, h);
  prefix_true = λ h. ground (arith, h);
}

abbrev requests : List (List ℕ)
requests = (1 ∷ 2 ∷ 3 ∷ []) ∷ (7 ∷ []) ∷ []

-- Two requests and the start of a third, cut in the middle of the first.
abbrev pieces : List (List ℕ)
pieces = (0 ∷ 0 ∷ 0 ∷ 3 ∷ 1 ∷ []) ∷ (2 ∷ 3 ∷ 0 ∷ 0 ∷ 0 ∷ 1 ∷ 7 ∷ 0 ∷ 0 ∷ []) ∷ []

feed-encode_all_example : RanTo (feed send_all echo fresh 5 pieces) fresh requests (0 ∷ 0 ∷ []) 7
unfolding deframe serve_all flatten
feed-encode_all_example =
    feed-encode_all send_all send_all-Connected echo fresh 5 requests (0 ∷ 0 ∷ []) pieces
      fresh-IsOpen refl refl (omega arith, (omega arith, tt)) (omega arith) (omega arith)
      (omega arith, omega arith, (omega arith, omega arith, tt)) (omega arith)

-- A request of one byte on a socket that was shut.
abbrev asking : Client
asking = record fresh { rbuf = 0 ∷ 0 ∷ 0 ∷ 1 ∷ 8 ∷ []; have_len = true; frame_len = 1 }

reply-fault_example : extract send_none echo 5 asking 0 ≡ fault
unfolding client_send_frame client_enqueue client_write after_send close_client
    client_clear_subscription
reply-fault_example = reply-fault send_none echo 4 asking 0 (8 ∷ []) (omega arith) refl refl refl

abbrev stuffed : Client
stuffed = record fresh { rbuf = replicate 8192 0 }
