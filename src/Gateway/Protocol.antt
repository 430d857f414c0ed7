-- ===== src/Gateway/Protocol.antt =====
-- gateway/src/gw_main.c: the line protocol and the ingest step of `handle_request`. What the client sends is the
-- list of its bytes, of which the end is the end of the connection.
pub mod Ingest
use axioma_oracle.Prelude.{
  ◌>>=◌, ℕ, zero, suc, ◌+◌, ◌^◌, Bool, true, false, ◌||◌, not, [], ◌∷◌, ◌++◌, Option, none, some,
  Bytes, codes, length, take, drop, c_str, leb, ltb, ◌==◌, if◌then◌else◌,
}
use axioma_oracle.Prelude.Int.{ℤ, pos, negsuc}
use axioma_oracle.Canonical.Decimal.{decimal}
use axioma_oracle.Gateway.Json.Body.{repeat}
use axioma_oracle.Gateway.Wal.{behind, skip_space, leading_digits, clamp}

-- `read_line` with room for `cap` bytes: the line and what is left to read.
unfoldable pub read_line : ℕ → Bytes → Option (Bytes × Bytes)
read_line zero s = none
read_line (suc zero) s = none
read_line (suc (suc cap)) [] = none
read_line (suc (suc cap)) (c ∷ s) =
    let rest = read_line (suc cap) s >>= λ r. some (c ∷ r.0, r.1) in
    if c == b'\n' then some ([], s) else rest

-- `%ld`: white space, a sign, and digits, of which there must be one.

unfoldable pub scan_digits : Bool → Bytes → Option ℤ
unfolding leading_digits clamp decimal
scan_digits minus s =
    if length (leading_digits s) == 0
    then none
    else some (clamp minus (decimal 0 (leading_digits s)))

unfoldable pub scan_number : Bytes → Option ℤ
unfolding scan_digits
scan_number [] = none
scan_number (c ∷ s) =
    if c == b'-'
    then scan_digits true s
    else if c == b'+'
    then scan_digits false s
    else scan_digits false (c ∷ s)

-- `sscanf(line, "key: %ld", ...) == 1`, with the number.
unfoldable pub scan_long : Bytes → Bytes → Option ℤ
unfolding behind skip_space scan_number
scan_long key line = do s ← behind (key ++ b':' ∷ []) line; scan_number (skip_space s)

-- The numbers of a request.
pub record Header : Type 0 where
  pub prompt_len : ℤ
  pub max_tokens : ℤ
  pub temp_q16 : ℤ
  pub top_p_q16 : ℤ

-- What a request line leaves; a reason is the one that `proto_error` sends.
pub data Line : Type 0 where
  keep : Header → Line
  refuse : Bytes → Line

-- The `if`s of the loop, each with the one that follows.

unfoldable pub line_seed : Bytes → Line
unfolding behind
line_seed line = elim (behind (codes "seed:") line) [
  | none ↦ refuse (codes "unknown_key")
  | some rest ↦ refuse (codes "seed_unsupported")
]

unfoldable pub line_top_p : Header → Bytes → Option ℤ → Line
unfolding line_seed
line_top_p h line (some n) = keep (record h { top_p_q16 = n })
line_top_p h line none = line_seed line

unfoldable pub line_temperature : Header → Bytes → Option ℤ → Line
unfolding line_top_p scan_long
line_temperature h line (some n) = keep (record h { temp_q16 = n })
line_temperature h line none = line_top_p h line (scan_long (codes "top_p_q16") line)

unfoldable pub line_max_tokens : Header → Bytes → Option ℤ → Line
unfolding line_temperature scan_long
line_max_tokens h line (some n) = keep (record h { max_tokens = n })
line_max_tokens h line none = line_temperature h line (scan_long (codes "temperature_q16") line)

unfoldable pub line_prompt_len : Header → Bytes → Option ℤ → Line
unfolding line_max_tokens scan_long
line_prompt_len h line (some n) = keep (record h { prompt_len = n })
line_prompt_len h line none = line_max_tokens h line (scan_long (codes "max_tokens") line)

unfoldable pub header_line : Header → Bytes → Line
unfolding line_prompt_len scan_long
header_line h line = line_prompt_len h line (scan_long (codes "prompt_len") line)

-- What the loop over the lines gives: the numbers and the bytes behind the blank line, or a reason.
pub data Lines : Type 0 where
  ended : Header → Bytes → Lines
  refused : Bytes → Lines

unfoldable pub next_line : (Header × Bytes → Option Lines) → Bytes → Line → Option Lines
next_line more s (keep h) = more (h, s)
next_line more s (refuse reason) = some (refused reason)

-- A line that was read.
unfoldable pub lines_line : (Header × Bytes → Option Lines) → Header → Bytes → Bytes → Option Lines
unfolding next_line header_line
lines_line more h line s =
    let next = next_line more s (header_line h line) in
    if length line == 0 then some (ended h s) else next

unfoldable pub lines_read :
    (Header × Bytes → Option Lines) → Header → Option (Bytes × Bytes) → Option Lines
unfolding lines_line
lines_read more h none = some (refused (codes "bad_request"))
lines_read more h (some (line, s)) = lines_line more h (c_str line) s

unfoldable pub lines_round : (Header × Bytes → Option Lines) → Header × Bytes → Option Lines
unfolding read_line lines_read
lines_round more (h, s) = lines_read more h (read_line 256 s)

-- The loop; a round takes a byte at least.
unfoldable pub read_header : Header → Bytes → Option Lines
unfolding repeat lines_round
read_header h s = repeat lines_round (suc (length s)) (h, s)

-- The checks behind the loop.

unfoldable pub above : ℤ → ℕ → Bool
above (pos n) limit = ltb limit n
above (negsuc n) limit = false

unfoldable pub negative : ℤ → Bool
negative (pos n) = false
negative (negsuc n) = true

unfoldable pub check_header : ℕ → Header → Option Bytes
unfolding above negative
check_header max_prompt_bytes h =
    if not (above h.prompt_len 0) || above h.prompt_len max_prompt_bytes
    then some (codes "bad_prompt_len")
    else if not (above h.max_tokens 0) || above h.max_tokens 200000
    then some (codes "bad_max_tokens")
    else if negative h.temp_q16
    then some (codes "temperature_required")
    else if above h.temp_q16 131072 || above h.top_p_q16 65536
    then some (codes "bad_param_range")
    else none

-- The value of a number that is not negative.
unfoldable pub amount : ℤ → ℕ
amount (pos n) = n
amount (negsuc n) = 0
