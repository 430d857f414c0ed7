-- ===== src/Gateway/Json/Body.antt =====
-- gateway/src/gw_json.c: what is read from a request and from an answer. `none` is -1. Each `for (;;)` is a
-- round, on what is left of the text and what the loop has found, that is given the rounds that follow.
use axioma_oracle.Prelude.{
  ◌>>=◌, ℕ, zero, suc, [], ◌∷◌, Option, none, some, Bytes, codes, length, c_str, same, ◌==◌,
  if◌then◌else◌,
}
use axioma_oracle.Types.{room}
use axioma_oracle.Gateway.Json.Text.{s_ws, s_decode_string}
use axioma_oracle.Gateway.Json.Value.{expect, s_skip_value}

-- A loop on fuel.
unfoldable pub repeat : {X A : Type 0} → ((X → Option A) → X → Option A) → ℕ → X → Option A
repeat round zero x = none
repeat round (suc fuel) x = round (repeat round fuel) x

-- `if (!s_eof(&s) && *s.p == c)`, and what follows in each case.
unfoldable pub at_byte :
    {A : Type 0} → ℕ → (Bytes → Option A) → (Bytes → Option A) → Bytes → Option A
at_byte c yes' no' [] = no' []
at_byte c yes' no' (a ∷ s) =
    let taken = yes' s in let other = no' (a ∷ s) in if a == c then taken else other

-- The end of a round: a comma, or the bracket that closes.
unfoldable pub after_member :
    {A : Type 0} → (Bytes → Option A) → ℕ → (Bytes → Option A) → Bytes → Option A
unfolding at_byte
after_member more close stop s =
    at_byte b',' more (λ s'. at_byte close stop (λ s''. none) s') (s_ws s)

-- A key, as a C string from a buffer with room for `cap` bytes, and what is left behind its colon.
unfoldable pub read_key : ℕ → Bytes → Option (Bytes × Bytes)
unfolding expect
read_key cap s = do
  (k, s1) ← s_decode_string cap [] s
  s2 ← expect b':' (s_ws s1)
  some (c_str k, s_ws s2)

-- A string value that is stored in `dst[0..cap)` with a terminator.
unfoldable pub string_value : ℕ → Bytes → Option Bytes
unfolding room
string_value cap s = do (text, s') ← s_decode_string (room cap) [] s; some text

-- What `gwj_top_string` does behind a key `k`.
unfoldable pub top_member : Bytes → ℕ → (Bytes → Option Bytes) → Bytes → Bytes → Option Bytes
unfolding after_member string_value
top_member key cap more k s =
    let found = string_value cap s in
    let next = s_skip_value 0 s >>= λ s'. after_member more b'}' (λ s''. none) s' in
    if same k key then found else next

unfoldable pub top_round : Bytes → ℕ → (Bytes → Option Bytes) → Bytes → Option Bytes
unfolding at_byte read_key top_member
top_round key cap more s =
    at_byte b'}' (λ s'. none) (λ s'. do (k, s2) ← read_key 63 s'; top_member key cap more k s2)
      (s_ws s)

-- `body` is `body[0..body_len)`; the result is what `dst` holds in front of the terminator.
unfoldable pub gwj_top_string : Bytes → Bytes → ℕ → Option Bytes
unfolding repeat top_round expect
gwj_top_string body key cap =
    expect b'{' (s_ws body) >>= λ s. repeat (top_round key cap) (suc (length s)) s

-- What `gwj_error_message` does behind a key `k`: the text of `message` in the object `error`.
unfoldable pub error_member : ℕ → (Bytes → Option Bytes) → Bytes → Bytes → Option Bytes
unfolding after_member at_byte gwj_top_string
error_member cap more k s =
    let found = at_byte b'{' (λ s'. gwj_top_string s (codes "message") cap) (λ s'. none) s in
    let next = s_skip_value 0 s >>= λ s'. after_member more b'}' (λ s''. none) s' in
    if same k (codes "error") then found else next

unfoldable pub error_round : ℕ → (Bytes → Option Bytes) → Bytes → Option Bytes
unfolding at_byte read_key error_member
error_round cap more s =
    at_byte b'}' (λ s'. none) (λ s'. do (k, s2) ← read_key 31 s'; error_member cap more k s2)
      (s_ws s)

unfoldable pub gwj_error_message : Bytes → ℕ → Option Bytes
unfolding repeat error_round expect
gwj_error_message body cap = do
  s ← expect b'{' (s_ws body)
  repeat (error_round cap) (suc (length s)) s
