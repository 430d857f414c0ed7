-- ===== src/Gateway/Json/Value.antt =====
-- gateway/src/gw_json.c: `s_skip_value`. `none` is -1; else the result is what is left behind the value.
use axioma_oracle.Prelude.{
  ◌>>=◌, ℕ, zero, suc, ◌+◌, ◌*◌, Bool, ◌||◌, [], ◌∷◌, Option, none, some, Bytes, codes, length, ltb,
  ◌==◌, if◌then◌else◌,
}
use axioma_oracle.Gateway.Json.Text.{s_ws, s_skip_string}

-- Whether `strchr` finds a byte in a C string: its terminator counts.
unfoldable pub strchr : Bytes → ℕ → Bool
strchr [] c = c == 0
strchr (t ∷ tok) c = (c == t) || strchr tok c

unfoldable pub is_token : ℕ → Bool
unfolding strchr
is_token c = strchr (codes "0123456789+-.eEtruefalsn") c

unfoldable pub skip_tokens : Bytes → Bytes
skip_tokens [] = []
skip_tokens (c ∷ s) = let rest = skip_tokens s in if is_token c then rest else c ∷ s

-- `if (s_eof(s) || *s->p != c) return -1; s->p++`.
unfoldable pub expect : ℕ → Bytes → Option Bytes
expect c [] = none
expect c (a ∷ s) = if a == c then some s else none

-- The key of a member with its colon; an array has none.
unfoldable pub skip_key : ℕ → Bytes → Option Bytes
unfolding expect
skip_key close s =
    let member = s_skip_string (s_ws s) >>= λ s1. expect b':' (s_ws s1) in
    if close == b'}' then member else some s

-- What follows a value in the loop; `more` is the next round.
unfoldable pub after_item : (Bytes → Option Bytes) → ℕ → Bytes → Option Bytes
after_item more close [] = none
after_item more close (c ∷ s) =
    let next = more s in if c == b',' then next else if c == close then some s else none

-- What follows the opening bracket; `items` is the loop.
unfoldable pub skip_open : (Bytes → Option Bytes) → ℕ → Bytes → Option Bytes
skip_open items close [] = items []
skip_open items close (c ∷ s) = let loop = items (c ∷ s) in if c == close then some s else loop

-- The `switch`, on the byte at `s->p`; `items` is the loop up to a closing bracket.
unfoldable pub skip_switch : (ℕ → Bytes → Option Bytes) → Bytes → Option Bytes
unfolding skip_open skip_tokens
skip_switch items [] = none
skip_switch items (c ∷ s) =
    let object = skip_open (items b'}') b'}' (s_ws s) in
    let array = skip_open (items b']') b']' (s_ws s) in
    if c == b'"'
    then s_skip_string (c ∷ s)
    else if c == b'{'
    then object
    else if c == b'['
    then array
    else if is_token c
    then some (skip_tokens (c ∷ s))
    else none

-- The function and its loop, on fuel.
unfoldable mutual
  pub skip_value : ℕ → ℕ → Bytes → Option Bytes
  skip_value zero depth s = none
  skip_value (suc fuel) depth s =
      let value = skip_switch (λ close s'. skip_items fuel depth close s') (s_ws s) in
      if ltb 64 depth then none else value

  pub skip_items : ℕ → ℕ → ℕ → Bytes → Option Bytes
  skip_items zero depth close s = none
  skip_items (suc fuel) depth close s = skip_key close s >>= λ s1.
      skip_value fuel (suc depth) s1 >>= λ s2.
      after_item (λ s'. skip_items fuel depth close s') close (s_ws s2)

-- Two calls for each byte are enough.
unfoldable pub s_skip_value : ℕ → Bytes → Option Bytes
unfolding skip_value
s_skip_value depth s = skip_value (2 * length s + 1) depth s
