-- ===== src/Ipc/Topics.antt =====
-- The subscriptions and the broadcast of src/ipc/uds_server.c. Topics and payloads are their bytes.
-- `copied` tells whether `strdup` succeeds on a topic.
pub mod Broadcast
use typiod_wayland.Prelude.{
  ℕ, zero, suc, ◌+◌, Bool, true, false, not, ◌&&◌, ◌||◌, List, [], ◌∷◌, ◌++◌, ◌==◌, if◌then◌else◌,
  length, take,
}
use typiod_wayland.Text.Bytes.{same_text}
use typiod_wayland.Ipc.Client.{Client, Sent, client_clear_subscription, client_send_frame}

abbrev pub max_topics : ℕ
max_topics = 16

abbrev pub copy_topics : (List ℕ → Bool) → List (List ℕ) → List (List ℕ)
copy_topics copied [] = []
copy_topics copied (t ∷ topics) =
    if copied t then t ∷ copy_topics copied topics else copy_topics copied topics

abbrev pub is_empty : List (List ℕ) → Bool
is_empty [] = true
is_empty (t ∷ topics) = false

-- `typio_uds_server_subscribe`, with no null topic in the list.
unfoldable pub subscribe : (List ℕ → Bool) → List (List ℕ) → Client → Client
subscribe copied topics c =
    let d = client_clear_subscription c in
    let kept = copy_topics copied (take max_topics topics) in
    if not c.alive
    then c
    else if is_empty topics
    then record d { wildcard = true; subscribed = true }
    else record d { topics = kept; subscribed = not (is_empty kept) }

abbrev pub is_among : List ℕ → List (List ℕ) → Bool
is_among topic [] = false
is_among topic (t ∷ topics) = same_text t topic || is_among topic topics

unfoldable pub client_matches_topic : Client → List ℕ → Bool
client_matches_topic c topic =
    if not c.subscribed then false else if c.wildcard then true else is_among topic c.topics

-- {"jsonrpc":"2.0","method":"
abbrev notification_head : List ℕ
notification_head =
    123 ∷ 34 ∷ 106 ∷ 115 ∷ 111 ∷ 110 ∷ 114 ∷ 112 ∷ 99 ∷ 34 ∷ 58 ∷ 34 ∷ 50 ∷ 46 ∷ 48 ∷ 34 ∷ 44 ∷ 34
    ∷ 109 ∷ 101 ∷ 116 ∷ 104 ∷ 111 ∷ 100 ∷ 34 ∷ 58 ∷ 34 ∷ []

-- ","params":
abbrev notification_params : List ℕ
notification_params = 34 ∷ 44 ∷ 34 ∷ 112 ∷ 97 ∷ 114 ∷ 97 ∷ 109 ∷ 115 ∷ 34 ∷ 58 ∷ []

abbrev pub notification : List ℕ → List ℕ → List ℕ
notification topic payload =
    notification_head ++ topic ++ notification_params ++ payload ++ 125 ∷ []

-- What a broadcast does to one client, whose socket answers `send`.
unfoldable pub emit_to : (ℕ → ℕ → Sent) → List ℕ → List ℕ → Client → Client
emit_to send topic frame c =
    if not c.alive || c.closed
    then c
    else if not (client_matches_topic c topic)
    then c
    else (client_send_frame send c frame).0

-- The clients from the slot `i` on; `send i` is the socket of that slot.
unfoldable pub emit_from : (ℕ → ℕ → ℕ → Sent) → List ℕ → List ℕ → ℕ → List Client → List Client
emit_from send topic frame i [] = []
emit_from send topic frame i (c ∷ clients) =
    emit_to (send i) topic frame c ∷ emit_from send topic frame (i + 1) clients

-- `typio_uds_server_emit`, where the frame is allocated.
unfoldable pub emit : (ℕ → ℕ → ℕ → Sent) → List ℕ → List ℕ → List Client → List Client
emit send topic payload clients = emit_from send topic (notification topic payload) 0 clients
