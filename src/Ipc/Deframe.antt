-- ===== src/Ipc/Deframe.antt =====
-- The frames of a byte stream, by their length prefixes: the specification of the reader of
-- src/ipc/uds_server.c, independent of how the stream is cut into reads.
pub mod Laws
pub mod Sized
use typiod_wayland.Prelude.{
  ℕ, zero, suc, ◌+◌, ◌*◌, ◌≤◌, List, [], ◌∷◌, ◌++◌, Option, none, some, ltb, if◌then◌else◌, length,
  take, drop,
}
use typiod_wayland.Ipc.Client.{encode}

-- The number that the first four bytes spell, most significant first. The operands of the C
-- expression's `|` are bytes in different places, so it is a sum.
abbrev pub header : List ℕ → ℕ
header (a ∷ b ∷ c ∷ d ∷ _) = a * 16777216 + b * 65536 + c * 256 + d
header _ = 0

-- The complete frames at the head of the bytes, and what is left.
unfoldable pub deframe : ℕ → List ℕ → List (List ℕ) × List ℕ
deframe zero bytes = ([], bytes)
deframe (suc fuel) bytes =
    let n = header bytes in
    let (frames, rest) = deframe fuel (drop (4 + n) bytes) in
    if ltb (length bytes) 4
    then ([], bytes)
    else if ltb (length bytes) (4 + n)
    then ([], bytes)
    else (take n (drop 4 bytes) ∷ frames, rest)

-- No frame of the bytes, the unfinished one included, announces more than `limit` bytes.
abbrev pub IsSized : ℕ → ℕ → List ℕ → Type 0
IsSized limit zero bytes = Unit {0}
IsSized limit (suc fuel) bytes =
    4 ≤ length bytes
    → (header bytes ≤ limit)
      × (4 + header bytes ≤ length bytes → IsSized limit fuel (drop (4 + header bytes) bytes))

-- The wire form of a list of frames.
abbrev pub encode_all : List (List ℕ) → List ℕ
encode_all [] = []
encode_all (json ∷ frames) = encode json ++ encode_all frames

abbrev pub answered : Option (List ℕ) → List (List ℕ) → List (List ℕ)
answered none replies = replies
answered (some json) replies = json ∷ replies

-- The replies to a list of requests, and the state that the handler is left in.
unfoldable pub serve_all :
    {S : Type 0} → (List ℕ → S → Option (List ℕ) × S) → List (List ℕ) → S → List (List ℕ) × S
serve_all handler [] s = ([], s)
serve_all handler (json ∷ frames) s =
    let (answer, s') = handler json s in
    let (replies, s'') = serve_all handler frames s' in (answered answer replies, s'')
