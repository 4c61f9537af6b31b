-- ===== src/Ipc/Json/Written.antt =====
-- What the builder holds, and that its buffer has room (src/ipc/tip_json.c).
use typiod_wayland.Prelude.{
  ℕ, false, ◌+◌, ◌*◌, ◌<◌, ◌≡◌, refl, sym, ◌∙◌, ap, List, [], ◌∷◌, ◌++◌, leb, length, length-append,
  if_both, arith,
}
use mathlib.Core.List.{append-nil, append_assoc}
use typiod_wayland.Text.Buffer.{double_until_enough}
use typiod_wayland.Ipc.Json.{quote}
use typiod_wayland.Ipc.Json.Builder.{
  JsonBuilder, ensure_cap, append_raw, append_escaped, append_string, escape,
}

-- The text as a JSON string.
abbrev pub escaped : List ℕ → List ℕ
escaped [] = []
escaped (c ∷ cs) = escape c ++ escaped cs

abbrev pub quoted : List ℕ → List ℕ
quoted s = quote ∷ escaped s ++ quote ∷ []

-- Nothing was stored past a buffer, and the text and its NUL fit the one that is there.
abbrev pub HasRoom : JsonBuilder → Type 0
HasRoom b = (b.overflowed ≡ false) × (length b.buf < b.capacity)

ensure_cap-buf : (b : JsonBuilder) (need : ℕ) → (ensure_cap b need).buf ≡ b.buf
unfolding ensure_cap
ensure_cap-buf b need =
    if_both (λ (b' : JsonBuilder). b'.buf ≡ b.buf) (leb b.capacity (length b.buf + need))
      (λ e. refl) (λ e. refl)

ensure_cap_enough :
    (b : JsonBuilder) (need : ℕ)
    → length b.buf < b.capacity
    → length b.buf + need < 9223372036854775808
    → length b.buf + need < (ensure_cap b need).capacity
unfolding ensure_cap
ensure_cap_enough b need r h =
    if_both (λ (b' : JsonBuilder). length b.buf + need < b'.capacity)
      (leb b.capacity (length b.buf + need))
      (λ e.
        let grown =
          double_until_enough (length b.buf + need + 1) (b.capacity * 2) (omega arith)
            (omega arith) in
        omega (arith, grown))
      (λ e. ground (arith, e))

ensure_cap-overflowed : (b : JsonBuilder) (need : ℕ) → (ensure_cap b need).overflowed ≡ b.overflowed
unfolding ensure_cap
ensure_cap-overflowed b need =
    if_both (λ (b' : JsonBuilder). b'.overflowed ≡ b.overflowed)
      (leb b.capacity (length b.buf + need)) (λ e. refl) (λ e. refl)

pub append_raw-buf : (b : JsonBuilder) (s : List ℕ) → (append_raw b s).buf ≡ b.buf ++ s
unfolding append_raw
append_raw-buf b s = ap (λ t. t ++ s) (ensure_cap-buf b (length s + 1))

append_raw-HasRoom :
    (b : JsonBuilder) (s : List ℕ)
    → HasRoom b
    → length b.buf + length s + 1 < 9223372036854775808
    → HasRoom (append_raw b s)
unfolding append_raw
append_raw-HasRoom b s r h =
    let n = length s + 1 in
    let wide = ensure_cap_enough b n r.1 (omega arith) in
    let same = ap length (ensure_cap-buf b n) in
    let sum = length-append (ensure_cap b n).buf s in
    let kept = ensure_cap-overflowed b n ∙ r.0 in
    (ground (arith, kept, wide, same), omega (arith, wide, same, sum))

append_escaped-buf : (b : JsonBuilder) (s : List ℕ) → (append_escaped b s).buf ≡ b.buf ++ escaped s
unfolding append_escaped
append_escaped-buf b [] = sym (append-nil b.buf)
append_escaped-buf b (c ∷ cs) =
    append_escaped-buf (append_raw b (escape c)) cs
    ∙ ap (λ t. t ++ escaped cs) (append_raw-buf b (escape c))
    ∙ append_assoc b.buf (escape c) (escaped cs)

append_escaped-HasRoom :
    (b : JsonBuilder) (s : List ℕ)
    → HasRoom b
    → length b.buf + length (escaped s) + 1 < 9223372036854775808
    → HasRoom (append_escaped b s)
unfolding append_escaped
append_escaped-HasRoom b [] r h = r
append_escaped-HasRoom b (c ∷ cs) r h =
    let both = length-append (escape c) (escaped cs) in
    let size = ap length (append_raw-buf b (escape c)) ∙ length-append b.buf (escape c) in
    append_escaped-HasRoom (append_raw b (escape c)) cs
      (append_raw-HasRoom b (escape c) r (omega (arith, both, h))) (omega (arith, both, size, h))

pub append_string-buf : (b : JsonBuilder) (s : List ℕ) → (append_string b s).buf ≡ b.buf ++ quoted s
unfolding append_string
append_string-buf b s =
    append_raw-buf (append_escaped (append_raw b (quote ∷ [])) s) (quote ∷ [])
    ∙ ap (λ t. t ++ quote ∷ []) (append_escaped-buf (append_raw b (quote ∷ [])) s)
    ∙ ap (λ t. (t ++ escaped s) ++ quote ∷ []) (append_raw-buf b (quote ∷ []))
    ∙ append_assoc (b.buf ++ quote ∷ []) (escaped s) (quote ∷ [])
    ∙ append_assoc b.buf (quote ∷ []) (escaped s ++ quote ∷ [])

pub quoted-HasRoom :
    (b : JsonBuilder) (s : List ℕ)
    → HasRoom b
    → length b.buf + length (quoted s) < 9223372036854775807
    → ((append_string b s).buf ≡ b.buf ++ quoted s) × HasRoom (append_string b s)
unfolding append_string
quoted-HasRoom b s r h =
    let b1 = append_raw b (quote ∷ []) in
    let b2 = append_escaped b1 s in
    let inner = length-append (escaped s) (quote ∷ []) in
    let n1 = ap length (append_raw-buf b (quote ∷ [])) ∙ length-append b.buf (quote ∷ []) in
    let n2 = ap length (append_escaped-buf b1 s) ∙ length-append b1.buf (escaped s) in
    let r1 = append_raw-HasRoom b (quote ∷ []) r (omega (arith, inner, h)) in
    let r2 = append_escaped-HasRoom b1 s r1 (omega (arith, inner, n1, h)) in
    (append_string-buf b s, append_raw-HasRoom b2 (quote ∷ []) r2 (omega (arith, inner, n1, n2, h)))
