-- ===== src/Ipc/Topics/Broadcast/Examples.antt =====
-- A broadcast to two clients, one of them subscribed.
use typiod_wayland.Prelude.{ℕ, ◌≡◌, refl, true, false, List, [], ◌∷◌, some, get_elem?, arith}
use typiod_wayland.Ipc.Client.{Client, Sent, taken, encode}
use typiod_wayland.Ipc.Client.Stream.{Connected, Wrote}
use typiod_wayland.Ipc.Topics.{client_matches_topic, notification, emit}
use typiod_wayland.Ipc.Topics.Broadcast.{CanTake, emit-Wrote}

abbrev send_all : ℕ → ℕ → ℕ → Sent
send_all i k n = taken n

taken-injective : {m n : ℕ} → taken m ≡ taken n → m ≡ n
taken-injective e = ground (arith, e)

send_all-Connected : (i : ℕ) → Connected (send_all i)
send_all-Connected i = record {
  up = λ k n e. ground (arith, e);
  honest = λ k n m e. omega (arith, taken-injective e);
}

abbrev silent : Client
silent = record {
  alive = true;
  closed = false;
  subscribed = false;
  wildcard = false;
  topics = [];
  rbuf = [];
  have_len = false;
  frame_len = 0;
  wbuf = [];
  wpos = 0;
  sent = [];
  calls = 0;
}

-- The topic "mode".
abbrev mode : List ℕ
mode = 109 ∷ 111 ∷ 100 ∷ 101 ∷ []

abbrev listening : Client
listening = record silent { subscribed = true; topics = mode ∷ [] }

listening-CanTake : CanTake (notification mode (48 ∷ [])) listening
listening-CanTake = record {
  alive = refl;
  not_closed = refl;
  cursor = omega arith;
  room = omega arith;
}

emit-Wrote_example :
    (d : Client) × (get_elem? (emit send_all mode (48 ∷ []) (silent ∷ listening ∷ [])) 1 ≡ some d)
    × Wrote listening d (encode (notification mode (48 ∷ [])))
unfolding client_matches_topic
emit-Wrote_example =
    emit-Wrote send_all mode (48 ∷ []) (silent ∷ listening ∷ []) 1 listening refl
      (send_all-Connected 1) listening-CanTake refl
