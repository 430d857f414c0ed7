-- ===== src/Canonical/Escape.antt =====
-- String escaping (src/canonical.c) against a reader of JSON strings.
use axioma_oracle.Prelude.{
  ℕ, ◌⊎◌, ◌+◌, ◌-◌, ◌*◌, ◌/◌, ◌%◌, ◌<◌, ◌≡◌, ◌≢◌, refl, sym, ap, ◌∙◌, ◌||◌, [], ◌∷◌, ◌++◌,
  append_assoc, append-nil, Option, none, some, arith, Bytes, c_str, ltb, ◌==◌, if◌then◌else◌,
  Bool-cases, inl, inr,
}
use axioma_oracle.Types.{done}
use axioma_oracle.Canonical.{
  write_str, hex_at, write_escaped_byte, write_escaped, string_escape, write_escaped_string,
}
use axioma_oracle.Canonical.Writer.{
  after, written, write_init-after, write_char-after, write_str-after, write_finish-after,
  written-inv,
}
use axioma_oracle.Canonical.Hex.{unhex, unhex-hex_at, hex_at-IsHexDigit}

-- The text of one byte.
unfoldable pub escape_byte : ℕ → Bytes
escape_byte c =
    if c == b'"'
    then b'\\' ∷ b'"' ∷ []
    else if c == b'\\'
    then b'\\' ∷ b'\\' ∷ []
    else if ltb c 0x20
    then b'\\' ∷ b'u' ∷ b'0' ∷ b'0' ∷ hex_at (c / 16 % 16) ∷ hex_at (c % 16) ∷ []
    else c ∷ []

pub escape : Bytes → Bytes
escape [] = []
escape (c ∷ src) = escape_byte c ++ escape src

write_two :
    (size : ℕ) (text : Bytes) (c : ℕ)
    → c ≢ 0
    → write_str (after size text) (b'\\' ∷ c ∷ []) ≡ after size (text ++ b'\\' ∷ c ∷ [])
unfolding c_str
write_two size text c h =
    write_str-after size text (b'\\' ∷ c ∷ []) ∙ ap (λ s. after size (text ++ s)) (ground arith)

write_six :
    (size : ℕ) (text : Bytes) (a b : ℕ)
    → a ≢ 0
    → b ≢ 0
    → write_str (after size text) (b'\\' ∷ b'u' ∷ b'0' ∷ b'0' ∷ a ∷ b ∷ 0 ∷ [])
      ≡ after size (text ++ b'\\' ∷ b'u' ∷ b'0' ∷ b'0' ∷ a ∷ b ∷ [])
unfolding c_str
write_six size text a b ha hb =
    write_str-after size text (b'\\' ∷ b'u' ∷ b'0' ∷ b'0' ∷ a ∷ b ∷ 0 ∷ [])
    ∙ ap (λ s. after size (text ++ s)) (ground arith)

hex_at-ne-zero : (i : ℕ) → i < 16 → hex_at i ≢ 0
hex_at-ne-zero i h = omega (arith, hex_at-IsHexDigit i h)

write_escaped_byte-after :
    (size : ℕ) (text : Bytes) (c : ℕ)
    → write_escaped_byte (after size text) c ≡ after size (text ++ escape_byte c)
unfolding write_escaped_byte escape_byte
write_escaped_byte-after size text c = elim (Bool-cases (c == b'"')) [
  | inl quote ↦ rw quote (write_two size text b'"' (omega arith))
  | inr n1 ↦ elim (Bool-cases (c == b'\\')) [
    | inl slash ↦ rw (n1, slash) (write_two size text b'\\' (omega arith))
    | inr n2 ↦ elim (Bool-cases (ltb c 0x20)) [
      | inl control ↦
          rw (n1, n2, control)
            (write_six size text (hex_at (c / 16 % 16)) (hex_at (c % 16))
              (hex_at-ne-zero (c / 16 % 16) (omega arith)) (hex_at-ne-zero (c % 16) (omega arith)))
      | inr n3 ↦ rw (n1, n2, n3) (write_char-after size text c)
    ]
  ]
]

pub write_escaped-after :
    (size : ℕ) (text src : Bytes)
    → write_escaped (after size text) src ≡ after size (text ++ escape src)
unfolding write_escaped escape
write_escaped-after size text [] = ap (after size) (sym (append-nil text))
write_escaped-after size text (c ∷ src) = ground (
  arith,
  write_escaped_byte-after size text c,
  write_escaped-after size (text ++ escape_byte c) src,
  append_assoc text (escape_byte c) (escape src),
)

pub string_escape_text :
    (size : ℕ) (src : Bytes) → string_escape size src ≡ written size (escape src)
unfolding string_escape
string_escape_text size src = ground (
  arith,
  write_init-after size,
  write_escaped-after size [] src,
  write_finish-after size (escape src),
)

-- Where a reader of a JSON string stands: in plain text, behind a backslash, or with `n` more hex
-- digits to come behind the present one, of which `v` were read.
data Mode : Type 0 where
  plain slash : Mode
  hex : ℕ → ℕ → Mode

prepend : ℕ → Option (Bytes × Bytes) → Option (Bytes × Bytes)
prepend c none = none
prepend c (some (s, rest)) = some (c ∷ s, rest)

-- Reads string content up to the closing quote: the bytes that it stands for, and what follows.
read : Mode → Bytes → Option (Bytes × Bytes)
unfolding prepend
read mode [] = none
read plain (c ∷ s) =
    let escaped = read slash s in
    let copied = prepend c (read plain s) in
    if c == b'"' then some ([], s) else if c == b'\\' then escaped else copied
read slash (c ∷ s) =
    let digits = read (hex 3 0) s in
    let copied = prepend c (read plain s) in
    if c == b'u' then digits else if c == b'"' || c == b'\\' then copied else none
read (hex n v) (c ∷ s) = elim (unhex c) [
  | none ↦ none
  | some d ↦
      let finished = prepend (v * 16 + d) (read plain s) in
      let more = read (hex (n - 1) (v * 16 + d)) s in if n == 0 then finished else more
]

pub read_string : Bytes → Option (Bytes × Bytes)
unfolding read
read_string s = read plain s

read-control :
    (c : ℕ) (t : Bytes)
    → c < 0x20
    → read plain (b'\\' ∷ b'u' ∷ b'0' ∷ b'0' ∷ hex_at (c / 16 % 16) ∷ hex_at (c % 16) ∷ t)
      ≡ prepend c (read plain t)
unfolding read unhex
read-control c t h =
    let e : (0 * 16 + c / 16 % 16) * 16 + c % 16 ≡ c = omega arith in
    simp (unhex-hex_at (c / 16 % 16) (omega arith), unhex-hex_at (c % 16) (omega arith))
      (ap (λ d. prepend d (read plain t)) e)

read-escape_byte : (c : ℕ) (t : Bytes) → read plain (escape_byte c ++ t) ≡ prepend c (read plain t)
unfolding escape_byte
read-escape_byte c t = ground (arith, read-control c t, read_plain c t, read_slash c t)
  where
    read_plain :
        (c : ℕ) (t : Bytes) → c ≢ b'"' → c ≢ b'\\' → read plain (c ∷ t) ≡ prepend c (read plain t)
    read_plain c t h k = unfold read in ground arith

    read_slash :
        (c : ℕ) (t : Bytes)
        → (c ≡ b'"') ⊎ (c ≡ b'\\')
        → read plain (b'\\' ∷ c ∷ t) ≡ prepend c (read plain t)
    read_slash c t h = unfold read in ground arith

read-escape : (src rest : Bytes) → read plain (escape src ++ b'"' ∷ rest) ≡ some (src, rest)
unfolding escape
read-escape [] rest = unfold read in refl
read-escape (c ∷ src) rest =
    ap (read plain) (append_assoc (escape_byte c) (escape src) (b'"' ∷ rest))
    ∙ read-escape_byte c (escape src ++ b'"' ∷ rest)
    ∙ ap (prepend c) (read-escape src rest)
    ∙ unfold prepend in refl

pub read_string-escape :
    (src rest : Bytes) → read_string (escape src ++ b'"' ∷ rest) ≡ some (src, rest)
unfolding read_string
read_string-escape src rest = read-escape src rest

-- A buffer of `size` bytes receives the escaped text whole or not at all, and a reader of JSON strings
-- takes it, up to the closing quote, for the source text.
pub string_escape_lem :
    (size : ℕ) (src rest : Bytes) {text : Bytes}
    → string_escape size src ≡ done text
    → read_string (text ++ b'"' ∷ rest) ≡ some (src, rest)
string_escape_lem size src rest {text} h = ground (
  arith,
  string_escape_text size src,
  written-inv size (escape src) {out = text},
  read_string-escape src rest,
)

-- Two escaped texts that end by a quote are the same only for the same sources.
pub escape_inj :
    (a b : Bytes) {r s : Bytes} → escape a ++ b'"' ∷ r ≡ escape b ++ b'"' ∷ s → (a ≡ b) × (r ≡ s)
escape_inj a b {r} {s} e =
    let same : ◌≡◌ {A = Option (Bytes × Bytes)} (some (a, r)) (some (b, s)) =
      sym (read_string-escape a r) ∙ ap read_string e ∙ read_string-escape b s in
    (ground arith, ground arith)

-- The escaped form of a nullable string; NULL prints as nothing.
unfoldable pub text_of : Option Bytes → Bytes
unfolding c_str
text_of none = []
text_of (some s) = c_str s

pub write_escaped_string-after :
    (size : ℕ) (text : Bytes) (s : Option Bytes)
    → write_escaped_string (after size text) s ≡ after size (text ++ escape (text_of s))
unfolding write_escaped_string text_of
write_escaped_string-after size text none =
    ap (after size) (sym (append-nil text) ∙ unfold escape in refl)
write_escaped_string-after size text (some s) = write_escaped-after size text (c_str s)
