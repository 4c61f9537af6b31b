-- ===== src/Ipc/Json/Strings.antt =====
-- A string that is written and read back (src/ipc/tip_json.c).
use typiod_wayland.Prelude.{
  ℕ, ◌+◌, ◌*◌, ◌/◌, ◌%◌, ◌-◌, ◌≤◌, ◌<◌, ◌≡◌, ◌≢◌, refl, ◌∙◌, ap, true, false, List, [], ◌∷◌, ◌++◌,
  Option, none, some, ltb, leb, ◌==◌, if◌then◌else◌, if_both, arith, length, length-append, ◌&&◌,
}
use mathlib.Core.Path.{subst}
use mathlib.Core.List.{append_assoc}
use typiod_wayland.Text.Bytes.{codes}
use typiod_wayland.Ipc.Json.{quote, backslash, span_string, closed, extract_string}
use typiod_wayland.Ipc.Json.Builder.{
  JsonBuilder, append_string, escape, hex_digit, build_notify, json_or,
}
use typiod_wayland.Ipc.Json.Written.{
  HasRoom, quoted-HasRoom, escaped, quoted, append_raw-buf, append_string-buf,
}

-- The characters of RFC 8259's short escapes that stand for control characters.
abbrev pub short_escape : ℕ → Option ℕ
short_escape e =
    if e == 98
    then some 8
    else if e == 102
    then some 12
    else if e == 110
    then some 10
    else if e == 114
    then some 13
    else if e == 116
    then some 9
    else none

-- The value of a hexadecimal digit, of either case.
abbrev pub hex_value : ℕ → Option ℕ
hex_value h =
    if leb 48 h && leb h 57
    then some (h - 48)
    else if leb 97 h && leb h 102
    then some (h - 87)
    else if leb 65 h && leb h 70
    then some (h - 55)
    else none

-- The text that the inside of a JSON string stands for, by RFC 8259.
pub data Decodes : List ℕ → List ℕ → Type 0 where
  ended : Decodes [] []
  plain :
      {c : ℕ} {s t : List ℕ}
      → c ≢ quote
      → c ≢ backslash
      → 32 ≤ c
      → Decodes s t
      → Decodes (c ∷ s) (c ∷ t)
  quoted_quote : {s t : List ℕ} → Decodes s t → Decodes (backslash ∷ quote ∷ s) (quote ∷ t)
  quoted_backslash :
      {s t : List ℕ} → Decodes s t → Decodes (backslash ∷ backslash ∷ s) (backslash ∷ t)
  short :
      {e c : ℕ} {s t : List ℕ}
      → short_escape e ≡ some c
      → Decodes s t
      → Decodes (backslash ∷ e ∷ s) (c ∷ t)
  unicode :
      {a b c d i j k l : ℕ} {s t : List ℕ}
      → hex_value a ≡ some i
      → hex_value b ≡ some j
      → hex_value c ≡ some k
      → hex_value d ≡ some l
      → Decodes s t
      → Decodes (backslash ∷ 117 ∷ a ∷ b ∷ c ∷ d ∷ s) ((4096 * i + 256 * j + 16 * k + l) ∷ t)

-- A fact about what is written for each byte.
escape-cases :
    (P : ℕ → List ℕ → Type 0)
    → P quote (backslash ∷ quote ∷ [])
    → P backslash (backslash ∷ backslash ∷ [])
    → P 8 (codes "\\b")
    → P 12 (codes "\\f")
    → P 10 (codes "\\n")
    → P 13 (codes "\\r")
    → P 9 (codes "\\t")
    → ((c : ℕ) → c < 32 → P c (codes "\\u00" ++ hex_digit (c / 16) ∷ hex_digit (c % 16) ∷ []))
    → ((c : ℕ) → c ≢ quote → c ≢ backslash → 32 ≤ c → P c (c ∷ []))
    → (c : ℕ) → P c (escape c)
unfolding escape
escape-cases P at_quote at_backslash at_b at_f at_n at_r at_t control other c =
    if_both (P c) (c == quote) (λ e. at e at_quote)
      λ n1.
        if_both (P c) (c == backslash) (λ e. at e at_backslash)
          λ n2.
            if_both (P c) (c == 8) (λ e. at e at_b)
              λ n3.
                if_both (P c) (c == 12) (λ e. at e at_f)
                  λ n4.
                    if_both (P c) (c == 10) (λ e. at e at_n)
                      λ n5.
                        if_both (P c) (c == 13) (λ e. at e at_r)
                          λ n6.
                            if_both (P c) (c == 9) (λ e. at e at_t)
                              λ n7.
                                if_both (P c) (ltb c 32) (λ e. control c (ground (arith, e)))
                                  λ e.
                                    other c (ground (arith, n1)) (ground (arith, n2))
                                      (ground (arith, e))
  where
    at : {k : ℕ} {s : List ℕ} → (c == k) ≡ true → P k s → P c s
    at {k = k} e h = let q : c ≡ k = ground (arith, e) in rw q h

hex_value-digit : (n : ℕ) → n < 16 → hex_value (hex_digit n) ≡ some n
hex_value-digit n h = ground (arith, h)

escape-Decodes : (s t : List ℕ) → Decodes s t → (c : ℕ) → Decodes (escape c ++ s) (c ∷ t)
escape-Decodes s t h =
    escape-cases (λ c e. Decodes (e ++ s) (c ∷ t)) (quoted_quote h) (quoted_backslash h)
      (short refl h) (short refl h) (short refl h) (short refl h) (short refl h)
      (λ c small.
        let high = hex_value-digit (c / 16) (omega arith) in
        let low = hex_value-digit (c % 16) (omega arith) in
        let e : 4096 * 0 + 256 * 0 + 16 * (c / 16) + c % 16 ≡ c = omega arith in
        subst
          (λ n.
            Decodes ((codes "\\u00" ++ hex_digit (c / 16) ∷ hex_digit (c % 16) ∷ []) ++ s) (n ∷ t))
          e (unicode refl refl high low h))
      (λ c n1 n2 k. plain n1 n2 k h)

escaped-Decodes : (s : List ℕ) → Decodes (escaped s) s
escaped-Decodes [] = ended
escaped-Decodes (c ∷ cs) = escape-Decodes (escaped cs) cs (escaped-Decodes cs) c

abbrev prefixed : List ℕ → List ℕ × List ℕ → List ℕ × List ℕ
prefixed p (raw, rest) = (p ++ raw, rest)

span_string-plain :
    (c : ℕ) (s : List ℕ)
    → c ≢ quote
    → c ≢ backslash
    → span_string false (c ∷ s) ≡ prefixed (c ∷ []) (span_string false s)
span_string-plain c s n1 n2 =
    let e1 : (c == quote) ≡ false = ground (arith, n1) in
    let e2 : (c == backslash) ≡ false = ground (arith, n2) in rw (span_string, e1, e2) refl

span_string-escape :
    (s : List ℕ) (c : ℕ)
    → span_string false (escape c ++ s) ≡ prefixed (escape c) (span_string false s)
span_string-escape s =
    escape-cases (λ c e. span_string false (e ++ s) ≡ prefixed e (span_string false s)) refl refl
      refl refl refl refl refl
      (λ c small.
        let high = hex_digit (c / 16) in
        let low = hex_digit (c % 16) in
        ap (prefixed (codes "\\u00")) (
          span_string-plain high (low ∷ s) (ground arith) (ground arith)
          ∙ ap (prefixed (high ∷ [])) (span_string-plain low s (ground arith) (ground arith))))
      (λ c n1 n2 k. span_string-plain c s n1 n2)

span_string-escaped :
    (m tail : List ℕ) → span_string false (escaped m ++ quote ∷ tail) ≡ (escaped m, quote ∷ tail)
span_string-escaped [] tail = refl
span_string-escaped (c ∷ cs) tail =
    ap (span_string false) (append_assoc (escape c) (escaped cs) (quote ∷ tail))
    ∙ span_string-escape (escaped cs ++ quote ∷ tail) c
    ∙ ap (prefixed (escape c)) (span_string-escaped cs tail)

abbrev notify_prefix : List ℕ
notify_prefix = codes "{\"jsonrpc\":\"2.0\",\"method\":"

build_notify-text :
    (method : List ℕ) (params : Option (List ℕ))
    → build_notify method params
      ≡ notify_prefix
        ++ (quoted method ++ (codes ",\"params\":" ++ (json_or (codes "{}") params ++ codes "}")))
unfolding build_notify
build_notify-text method params = simp (append_raw-buf, append_string-buf, append_assoc)

extract_string-text :
    (s : List ℕ)
    → extract_string (notify_prefix ++ quote ∷ s) (codes "method") ≡ closed (span_string false s)
unfolding extract_string
extract_string-text s = refl

-- The method of a notification is read back from its text as it was escaped, and the escaped
-- text stands for the method by the grammar of JSON strings, whatever bytes the method has and
-- whatever the parameters are.
pub extract_string-build_notify :
    (method : List ℕ) (params : Option (List ℕ))
    → (raw : List ℕ) × (extract_string (build_notify method params) (codes "method") ≡ some raw)
      × Decodes raw method
extract_string-build_notify method params =
    let tail = codes ",\"params\":" ++ (json_or (codes "{}") params ++ codes "}") in
    let e : quoted method ++ tail ≡ quote ∷ (escaped method ++ quote ∷ tail) =
      ap (λ t. quote ∷ t) (append_assoc (escaped method) (quote ∷ []) tail) in
    (
      escaped method,
      ap (λ t. extract_string t (codes "method"))
            (build_notify-text method params ∙ ap (λ t. notify_prefix ++ t) e)
          ∙ extract_string-text _
          ∙ ap closed (span_string-escaped method tail),
      escaped-Decodes method,
    )

-- At most six bytes are written for one.
length-escape : (c : ℕ) → length (escape c) ≤ 6
length-escape =
    escape-cases (λ c e. length e ≤ 6) (omega arith) (omega arith) (omega arith) (omega arith)
      (omega arith) (omega arith) (omega arith) (λ c small. omega arith) (λ c n1 n2 k. omega arith)

length-escaped : (s : List ℕ) → length (escaped s) ≤ 6 * length s
length-escaped [] = omega arith
length-escaped (c ∷ cs) =
    omega (arith, length-append (escape c) (escaped cs), length-escape c, length-escaped cs)

-- A builder that never overflowed and has room for its text, and a string: where six bytes for each
-- of the string's, with the quotes, leave the text shorter than 2 ^ 63 - 1, the builder holds its
-- text followed by a quoted text that stands for the string by the grammar of JSON strings; nothing
-- was stored past the buffer on the way, and there still is room.
pub append_string-HasRoom :
    (b : JsonBuilder) (s : List ℕ)
    → HasRoom b
    → length b.buf + 6 * length s + 2 < 9223372036854775807
    → (raw : List ℕ) × ((append_string b s).buf ≡ b.buf ++ (quote ∷ raw ++ quote ∷ []))
      × Decodes raw s
      × HasRoom (append_string b s)
append_string-HasRoom b s r h =
    let size = length-append (escaped s) (quote ∷ []) in
    let k = quoted-HasRoom b s r (omega (arith, length-escaped s, size, h)) in
    (escaped s, k.0, escaped-Decodes s, k.1)
