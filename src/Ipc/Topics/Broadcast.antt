-- ===== src/Ipc/Topics/Broadcast.antt =====
-- Who gets a broadcast (src/ipc/uds_server.c).
mod Examples
use typiod_wayland.Prelude.{
  ℕ, zero, suc, ◌+◌, ◌≤◌, ◌≡◌, refl, sym, ap, ◌∙◌, Bool, true, false, not, ◌&&◌, ◌||◌, List, [],
  ◌∷◌, ◌++◌, ◌==◌, if◌then◌else◌, length, take, Bool-cases, inl, inr, arith, Option, some, none,
  get_elem?,
}
use typiod_wayland.Ipc.Client.{
  Client, Sent, encode, writebuf, client_clear_subscription, client_send_frame,
}
use typiod_wayland.Ipc.Client.Stream.{Connected, Wrote, client_send_frame-Wrote}
use typiod_wayland.Ipc.Topics.{
  max_topics, copy_topics, is_empty, subscribe, is_among, client_matches_topic, notification,
  emit_to, emit_from, emit,
}

-- The client is open, with a write buffer that has room for the frame.
pub record CanTake (frame : List ℕ) (c : Client) : Type 0 where
  pub alive : c.alive ≡ true
  pub not_closed : c.closed ≡ false
  pub cursor : c.wpos ≤ length c.wbuf
  pub room : length c.wbuf + (4 + length frame) ≤ writebuf

copy_all : (topics : List (List ℕ)) → copy_topics (λ t. true) topics ≡ topics
copy_all [] = refl
copy_all (t ∷ topics) = ap (λ ts. t ∷ ts) (copy_all topics)

short_list {ℓ} : {A : Type ℓ} (n : ℕ) (xs : List A) → length xs ≤ n → take n xs ≡ xs
short_list zero [] h = refl
short_list zero (x ∷ xs) h = absurd (omega arith)
short_list (suc n) [] h = refl
short_list (suc n) (x ∷ xs) h = ap (λ ys. x ∷ ys) (short_list n xs (omega arith))

-- After a subscription of an open client to at most 16 topics, all of them copied, the client
-- matches every topic where the list was empty, and the topics of the list otherwise.
pub subscribe-matches :
    (topics : List (List ℕ)) (c : Client) (topic : List ℕ)
    → c.alive ≡ true
    → length topics ≤ 16
    → client_matches_topic (subscribe (λ t. true) topics c) topic
      ≡ (is_empty topics || is_among topic topics)
unfolding subscribe client_matches_topic client_clear_subscription
subscribe-matches [] c topic alive few = rw alive refl
subscribe-matches (t ∷ topics) c topic alive few =
    let rest : copy_topics (λ t. true) (take 15 topics) ≡ topics =
      copy_all (take 15 topics) ∙ short_list 15 topics (omega (arith, few)) in
    rw alive (rw rest refl)

emit_to-Wrote :
    (send : ℕ → ℕ → Sent) (topic frame : List ℕ) (c : Client)
    → Connected send
    → CanTake frame c
    → client_matches_topic c topic ≡ true
    → Wrote c (emit_to send topic frame c) (encode frame)
unfolding emit_to
emit_to-Wrote send topic frame c peer o m =
    let up : (not c.alive || c.closed) ≡ false = ground (arith, o.alive, o.not_closed) in
    let go : not (client_matches_topic c topic) ≡ false = ground (arith, m) in
    rw (up, go) (client_send_frame-Wrote send peer c frame o.alive o.cursor o.room).0

abbrev map_some : (Client → Client) → Option Client → Option Client
map_some f none = none
map_some f (some c) = some (f c)

emit_from-get_elem? :
    (send : ℕ → ℕ → ℕ → Sent) (topic frame : List ℕ) (i : ℕ) (clients : List Client) (k : ℕ)
    (c : Client)
    → get_elem? clients k ≡ some c
    → get_elem? (emit_from send topic frame i clients) k
      ≡ some (emit_to (send (i + k)) topic frame c)
unfolding emit_from
emit_from-get_elem? send topic frame i [] k c h = absurd (ground (arith, h))
emit_from-get_elem? send topic frame i (d ∷ clients) zero c h =
    let here : i + 0 ≡ i = omega arith in rw here (ap (map_some (emit_to (send i) topic frame)) h)
emit_from-get_elem? send topic frame i (d ∷ clients) (suc k) c h =
    let there : i + suc k ≡ i + 1 + k = omega arith in
    rw there (emit_from-get_elem? send topic frame (i + 1) clients k c h)

emit-get_elem? :
    (send : ℕ → ℕ → ℕ → Sent) (topic payload : List ℕ) (clients : List Client) (k : ℕ) (c : Client)
    → get_elem? clients k ≡ some c
    → get_elem? (emit send topic payload clients) k
      ≡ some (emit_to (send k) topic (notification topic payload) c)
unfolding emit
emit-get_elem? send topic payload clients k c h =
    let first : k ≡ 0 + k = omega arith in
    emit_from-get_elem? send topic (notification topic payload) 0 clients k c h
    ∙ ap (λ i. some (emit_to (send i) topic (notification topic payload) c)) (sym first)

-- A broadcast enqueues the notification, whole and once, for the client of every slot that is
-- open, matches the topic, has room for it, and whose peer is connected.
pub emit-Wrote :
    (send : ℕ → ℕ → ℕ → Sent) (topic payload : List ℕ) (clients : List Client) (k : ℕ) (c : Client)
    → get_elem? clients k ≡ some c
    → Connected (send k)
    → CanTake (notification topic payload) c
    → client_matches_topic c topic ≡ true
    → (d : Client) × (get_elem? (emit send topic payload clients) k ≡ some d)
      × Wrote c d (encode (notification topic payload))
emit-Wrote send topic payload clients k c h peer o m =
    let frame = notification topic payload in
    (
      emit_to (send k) topic frame c,
      emit-get_elem? send topic payload clients k c h,
      emit_to-Wrote (send k) topic frame c peer o m,
    )

emit_to_unmatched :
    (send : ℕ → ℕ → Sent) (topic frame : List ℕ) (c : Client)
    → client_matches_topic c topic ≡ false
    → emit_to send topic frame c ≡ c
unfolding emit_to
emit_to_unmatched send topic frame c m =
    let stop : not (client_matches_topic c topic) ≡ true = ground (arith, m) in
    elim (Bool-cases (not c.alive || c.closed)) [ inl e ↦ rw e refl | inr e ↦ rw (e, stop) refl ]

-- A broadcast leaves every client alone that does not match its topic.
pub emit-unmatched :
    (send : ℕ → ℕ → ℕ → Sent) (topic payload : List ℕ) (clients : List Client) (k : ℕ) (c : Client)
    → get_elem? clients k ≡ some c
    → client_matches_topic c topic ≡ false
    → get_elem? (emit send topic payload clients) k ≡ get_elem? clients k
emit-unmatched send topic payload clients k c h m =
    let frame = notification topic payload in
    emit-get_elem? send topic payload clients k c h
    ∙ ap some (emit_to_unmatched (send k) topic frame c m)
    ∙ sym h
