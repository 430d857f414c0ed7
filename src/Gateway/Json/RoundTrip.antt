-- ===== src/Gateway/Json/RoundTrip.antt =====
-- What `gwj_escape` writes (gateway/src/gw_json.c), read back by `s_decode_string`.
use axioma_oracle.Prelude.{
  ◌>>=◌, ℕ, ◌+◌, ◌/◌, ◌%◌, ◌≤◌, ◌<◌, ◌≡◌, ◌≢◌, ◌∙◌, refl, ap, false, [], ◌∷◌, ◌++◌, none, some,
  Option, arith, Bytes, length, append_assoc, length-append, append-nil, leb, ◌==◌, if◌then◌else◌,
  le→ltb, lt→ltb, agree_below, agree_below→eq,
}
use native.Mathlib.Decide.{dec_lt, ℕ_discrete}
use axioma_oracle.Canonical.{hex_at}
use axioma_oracle.Gateway.Json.Escape.{escaped_byte, gwj_escape}
use axioma_oracle.Gateway.Json.WellFormed.{escape_all, gwj_escape_lem}
use axioma_oracle.Gateway.Json.Text.{
  s_read_u4, add_digit, hexval, utf8_bytes, put, put_utf8, simple_escape, decode_rest,
  s_decode_string,
}

-- The number behind `\u00`.
control_digits : ℕ → Option ℕ
control_digits c = s_read_u4 b'0' b'0' (hex_at (c / 16 % 16)) (hex_at (c % 16))

or_400 : Option ℕ → ℕ
or_400 none = 400
or_400 (some v) = v

some_of : (o : Option ℕ) (c : ℕ) → c < 32 → or_400 o ≡ c → o ≡ some c
unfolding or_400
some_of none c h e = absurd (omega (arith, e))
some_of (some v) c h e = ap some e

control_table : (c : ℕ) → c < 32 → or_400 (control_digits c) ≡ c
unfolding agree_below or_400 control_digits s_read_u4 add_digit hexval hex_at
control_table = agree_below→eq (λ c. or_400 (control_digits c)) (λ c. c) 32 refl

control_lem :
    (c : ℕ) → c < 32 → s_read_u4 b'0' b'0' (hex_at (c / 16 % 16)) (hex_at (c % 16)) ≡ some c
unfolding control_digits
control_lem c h = some_of (control_digits c) c h (control_table c h)

-- The rounds that follow when `put` has taken `b`.
abbrev go_on : ℕ → Bytes → Bytes → Bytes → Option (Bytes × Bytes)
go_on cap dst b s = put cap dst b >>= λ dst'. decode_rest cap dst' s

control_byte :
    (cap : ℕ) (dst : Bytes) (c : ℕ) (s : Bytes)
    → c < 32
    → decode_rest cap dst (b'\\' ∷ b'u' ∷ b'0' ∷ b'0' ∷ hex_at (c / 16 % 16) ∷ hex_at (c % 16) ∷ s)
      ≡ go_on cap dst (c ∷ []) s
unfolding decode_rest put_utf8 utf8_bytes
control_byte cap dst c s h = rw (control_lem c h) (ground arith)

plain_byte :
    (cap : ℕ) (dst : Bytes) (c : ℕ) (s : Bytes)
    → (c == b'"') ≡ false
    → (c == b'\\') ≡ false
    → decode_rest cap dst (c ∷ s) ≡ go_on cap dst (c ∷ []) s
unfolding decode_rest
plain_byte cap dst c s q b = rw (q, b) refl

escaped_control :
    (c : ℕ)
    → c < 32
    → c ≢ b'"'
    → c ≢ b'\\'
    → c ≢ b'\n'
    → c ≢ b'\r'
    → c ≢ b'\t'
    → escaped_byte c ≡ b'\\' ∷ b'u' ∷ b'0' ∷ b'0' ∷ hex_at (c / 16 % 16) ∷ hex_at (c % 16) ∷ []
unfolding escaped_byte
escaped_control c h q b n r t = ground arith

escaped_plain : (c : ℕ) → c ≢ b'"' → c ≢ b'\\' → ¬ (c < 32) → escaped_byte c ≡ c ∷ []
unfolding escaped_byte
escaped_plain c q b h = ground arith

no_test : {a b : ℕ} → a ≢ b → (a == b) ≡ false
no_test n = ground arith

decode-escaped_byte :
    (cap : ℕ) (dst : Bytes) (c : ℕ) (s : Bytes)
    → decode_rest cap dst (escaped_byte c ++ s) ≡ go_on cap dst (c ∷ []) s
unfolding escaped_byte decode_rest simple_escape
decode-escaped_byte cap dst c s = elim (ℕ_discrete c b'"') [
  | yes e ↦ rw e refl
  | no quote ↦ elim (ℕ_discrete c b'\\') [
    | yes e ↦ rw e refl
    | no slash ↦ elim (ℕ_discrete c b'\n') [
      | yes e ↦ rw e refl
      | no lf ↦ elim (ℕ_discrete c b'\r') [
        | yes e ↦ rw e refl
        | no cr ↦ elim (ℕ_discrete c b'\t') [
          | yes e ↦ rw e refl
          | no tab ↦ elim (dec_lt c 32) [
            | yes low ↦
                rw (escaped_control c low quote slash lf cr tab) (control_byte cap dst c s low)
            | no high ↦
                rw (escaped_plain c quote slash high)
                  (plain_byte cap dst c s (no_test quote) (no_test slash))
          ]
        ]
      ]
    ]
  ]
]

gwj_escape-some : (cap : ℕ) (s text : Bytes) → gwj_escape cap s ≡ some text → text ≡ escape_all s
gwj_escape-some cap s text e = ground (arith, gwj_escape_lem cap s)

-- A decoded byte that is taken, or finds no room.
go_on_fits :
    (cap : ℕ) (dst b s : Bytes)
    → length dst + length b ≤ cap
    → go_on cap dst b s ≡ decode_rest cap (dst ++ b) s
unfolding put
go_on_fits cap dst b s h = rw (le→ltb cap (length dst + length b) h) refl

go_on_full : (cap : ℕ) (dst b s : Bytes) → cap < length dst + length b → go_on cap dst b s ≡ none
unfolding put
go_on_full cap dst b s h = rw (lt→ltb cap (length dst + length b) h) refl

decode_end : (cap : ℕ) (dst rest : Bytes) → decode_rest cap dst (b'"' ∷ rest) ≡ some (dst, rest)
unfolding decode_rest
decode_end cap dst rest = refl

pub decode-escape_all :
    (cap : ℕ) (dst s rest : Bytes)
    → length dst ≤ cap
    → decode_rest cap dst (escape_all s ++ b'"' ∷ rest)
      ≡ (if leb (length dst + length s) cap then some (dst ++ s, rest) else none)
unfolding escape_all
decode-escape_all cap dst [] rest h = decode_end cap dst rest ∙ ground (arith, append-nil dst)
decode-escape_all cap dst (c ∷ s) rest h =
    rw
      (
        append_assoc (escaped_byte c) (escape_all s) (b'"' ∷ rest),
        decode-escaped_byte cap dst c (escape_all s ++ b'"' ∷ rest),
      )
      (elim (dec_lt cap (length dst + 1)) [
        | yes full ↦ go_on_full cap dst (c ∷ []) _ full ∙ ground arith
        | no fits ↦
            go_on_fits cap dst (c ∷ []) _ (omega (arith, fits))
            ∙ decode-escape_all cap (dst ++ c ∷ []) s rest
                (omega (arith, fits, length-append dst (c ∷ [])))
            ∙ rw (length-append dst (c ∷ []), append_assoc dst (c ∷ []) s) (ground arith)
      ])

-- What `gwj_escape` writes, in quotes, decodes to the text it was given, whatever follows the closing quote,
-- when the buffer has room for that text; when it has not, the decoder fails.
pub s_decode_string-gwj_escape :
    (src_cap cap : ℕ) (s text rest : Bytes)
    → gwj_escape src_cap s ≡ some text
    → s_decode_string cap [] (b'"' ∷ text ++ b'"' ∷ rest)
      ≡ (if leb (length s) cap then some (s, rest) else none)
unfolding s_decode_string
s_decode_string-gwj_escape src_cap cap s text rest e =
    rw (gwj_escape-some src_cap s text e)
      (decode-escape_all cap [] s rest (omega arith) ∙ ground arith)
