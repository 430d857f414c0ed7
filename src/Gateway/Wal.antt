-- ===== src/Gateway/Wal.antt =====
-- gateway/src/gw_wal.c: the intent that is durable before a call. The file is the list of its bytes, none
-- where there is no file; what the system calls do is an argument.
pub mod Field
pub mod Recovered
use axioma_oracle.Prelude.{
  ℕ, ◌+◌, ◌-◌, ◌*◌, ◌%◌, ◌^◌, Bool, true, false, ◌&&◌, ◌||◌, not, [], ◌∷◌, ◌++◌, Option, none, some,
  Bytes, List, codes, length, take, c_str, leb, ltb, ◌==◌, if◌then◌else◌,
}
use axioma_oracle.Prelude.Int.{ℤ, pos, negsuc}
use axioma_oracle.Types.{null_q16}
use axioma_oracle.Canonical.Decimal.{signed_text, decimal}

-- `gw_intent_t`
pub record Intent : Type 0 where
  pub input_hash_hex : Bytes
  pub model_id : Bytes
  pub max_tokens : ℤ
  pub seed : ℤ
  pub temperature_q16 : ℤ
  pub top_p_q16 : ℤ

-- `key=value\n`, in front of `rest`.
abbrev pub field : Bytes → Bytes → Bytes → Bytes
field key value rest = key ++ (b'=' ∷ (value ++ (b'\n' ∷ rest)))

-- What `snprintf` prints.
unfoldable pub intent_text : Intent → Bytes
unfolding signed_text
intent_text i = field (codes "input_hash") i.input_hash_hex (
    field (codes "model_id") i.model_id (
      field (codes "max_tokens") (signed_text i.max_tokens) (
        field (codes "seed") (signed_text i.seed) (
          field (codes "temperature_q16") (signed_text i.temperature_q16)
            (field (codes "top_p_q16") (signed_text i.top_p_q16) [])))))

-- `sizeof buf`
abbrev pub buf_size : ℕ
buf_size = 768

-- What the calls on the file do: `open` succeeds, `written` bytes are written of those asked for, the file and
-- then the directory are synced.
pub record Calls : Type 0 where
  pub opened : Bool
  pub written : ℕ
  pub synced : Bool
  pub dir_synced : Bool

-- From the `write` on: whether the function returns 0, and the file.
unfoldable pub write_buf : Calls → Bytes → Bool × Option Bytes
write_buf calls buf =
    if not (leb (length buf) calls.written)
    then (false, some (take calls.written buf))
    else if not calls.synced
    then (false, some buf)
    else (calls.dir_synced, some buf)

-- `O_CREAT | O_EXCL`: a file that is there refuses.
unfoldable pub gw_wal_write : Calls → Option Bytes → Intent → Bool × Option Bytes
unfolding write_buf intent_text
gw_wal_write calls (some file) in' = (false, some file)
gw_wal_write calls none in' =
    if not calls.opened
    then (false, none)
    else if leb buf_size (length (intent_text in'))
    then (false, some [])
    else write_buf calls (intent_text in')

-- `unlink` fails where there is no file, or by `unlinked`.
unfoldable pub gw_wal_clear : Bool → Bool → Option Bytes → Bool × Option Bytes
gw_wal_clear unlinked dir_synced none = (false, none)
gw_wal_clear unlinked dir_synced (some file) =
    if unlinked then (dir_synced, none) else (false, some file)

-- `fgets(line, sizeof line, f)` over a file: pieces of up to 599 bytes that end at a line feed. `room` and
-- `line` are those of the piece that is being read.
unfoldable pub fgets_lines : ℕ → Bytes → Bytes → List Bytes
fgets_lines room line [] = if length line == 0 then [] else line ∷ []
fgets_lines room line (c ∷ s) =
    let next = fgets_lines 599 [] s in
    let more = fgets_lines (room - 1) (line ++ c ∷ []) s in
    if c == b'\n' || leb room 1 then (line ++ c ∷ []) ∷ next else more

-- `while (l > 0 && (line[l-1] == '\n' || line[l-1] == '\r'))`
unfoldable pub strip_end : Bytes → Bytes
strip_end [] = []
strip_end (c ∷ s) =
    let rest = strip_end s in
    if (c == b'\n' || c == b'\r') && (length rest == 0) then [] else c ∷ rest

-- What follows `key` in `line`, as `strncmp` finds it.
unfoldable pub behind : Bytes → Bytes → Option Bytes
behind [] line = some line
behind (k ∷ key) [] = none
behind (k ∷ key) (c ∷ line) = let rest = behind key line in if k == c then rest else none

-- The value of a line, of at least one byte and less than `cap`.
unfoldable pub value_of : ℕ → Option Bytes → Option Bytes
value_of cap none = none
value_of cap (some []) = none
value_of cap (some (c ∷ value)) =
    if not (c == b'=')
    then none
    else if length value == 0 || leb cap (length value)
    then none
    else some value

unfoldable pub parse_field : Bytes → Bytes → ℕ → Option Bytes
unfolding behind value_of
parse_field line key cap = value_of cap (behind key line)

-- `strtol` and `strtoll` to base 10.

abbrev is_space : ℕ → Bool
is_space c = c == b' ' || (leb 9 c && leb c 13)

abbrev is_digit : ℕ → Bool
is_digit c = leb b'0' c && leb c b'9'

unfoldable pub skip_space : Bytes → Bytes
skip_space [] = []
skip_space (c ∷ s) = let rest = skip_space s in if is_space c then rest else c ∷ s

unfoldable pub leading_digits : Bytes → Bytes
leading_digits [] = []
leading_digits (c ∷ s) = let rest = leading_digits s in if is_digit c then c ∷ rest else []

-- The value of digits, held to the range of 64 bits.
unfoldable pub clamp : Bool → ℕ → ℤ
clamp true n =
    if n == 0 then pos 0 else if ltb (2 ^ 63) n then negsuc (2 ^ 63 - 1) else negsuc (n - 1)
clamp false n = if leb (2 ^ 63) n then pos (2 ^ 63 - 1) else pos n

unfoldable pub strtol_sign : Bytes → ℤ
unfolding leading_digits clamp decimal
strtol_sign [] = pos 0
strtol_sign (c ∷ s) =
    if c == b'-'
    then clamp true (decimal 0 (leading_digits s))
    else if c == b'+'
    then clamp false (decimal 0 (leading_digits s))
    else clamp false (decimal 0 (leading_digits (c ∷ s)))

unfoldable pub strtol : Bytes → ℤ
unfolding skip_space strtol_sign
strtol s = strtol_sign (skip_space s)

-- `(int32_t)`
unfoldable pub to_int32 : ℤ → ℤ
to_int32 (pos n) = let m = n % 2 ^ 32 in if ltb m (2 ^ 31) then pos m else negsuc (2 ^ 32 - 1 - m)
to_int32 (negsuc n) =
    let m = n % 2 ^ 32 in if ltb m (2 ^ 31) then negsuc m else pos (2 ^ 32 - 1 - m)

-- `*out` with the two digits of `have`.
pub record Fields : Type 0 where
  pub intent : Intent
  pub have_hash : Bool
  pub have_model : Bool

abbrev pub start : Fields
start = record {
  intent = record {
    input_hash_hex = [];
    model_id = [];
    max_tokens = negsuc 0;
    seed = negsuc 0;
    temperature_q16 = null_q16;
    top_p_q16 = null_q16;
  };
  have_hash = false;
  have_model = false;
}

-- The `if`s of the loop, each with the one that follows.

unfoldable pub set_top_p : Fields → Option Bytes → Fields
unfolding strtol to_int32
set_top_p r none = r
set_top_p r (some num) = record r { intent = record r.intent { top_p_q16 = to_int32 (strtol num) } }

unfoldable pub set_temperature : Fields → Bytes → Option Bytes → Fields
unfolding strtol to_int32 parse_field set_top_p
set_temperature r line none = set_top_p r (parse_field line (codes "top_p_q16") 64)
set_temperature r line (some num) = record r {
  intent = record r.intent { temperature_q16 = to_int32 (strtol num) };
}

unfoldable pub set_seed : Fields → Bytes → Option Bytes → Fields
unfolding strtol parse_field set_temperature
set_seed r line none = set_temperature r line (parse_field line (codes "temperature_q16") 64)
set_seed r line (some num) = record r { intent = record r.intent { seed = strtol num } }

unfoldable pub set_max_tokens : Fields → Bytes → Option Bytes → Fields
unfolding strtol to_int32 parse_field set_seed
set_max_tokens r line none = set_seed r line (parse_field line (codes "seed") 64)
set_max_tokens r line (some num) = record r {
  intent = record r.intent { max_tokens = to_int32 (strtol num) };
}

unfoldable pub set_model : Fields → Bytes → Option Bytes → Fields
unfolding parse_field set_max_tokens
set_model r line none = set_max_tokens r line (parse_field line (codes "max_tokens") 64)
set_model r line (some id) = record r {
  intent = record r.intent { model_id = id };
  have_model = true;
}

unfoldable pub set_hash : Fields → Bytes → Option Bytes → Fields
unfolding parse_field set_model
set_hash r line none = set_model r line (parse_field line (codes "model_id") 256)
set_hash r line (some hash) = record r {
  intent = record r.intent { input_hash_hex = hash };
  have_hash = true;
}

-- One turn of the loop.
unfoldable pub take_line : Fields → Bytes → Fields
unfolding c_str strip_end parse_field set_hash
take_line r piece =
    let line = strip_end (c_str piece) in set_hash r line (parse_field line (codes "input_hash") 65)

unfoldable pub read_lines : Fields → List Bytes → Fields
unfolding take_line
read_lines r [] = r
read_lines r (piece ∷ pieces) = read_lines (take_line r piece) pieces

-- 0, -1 and 1
pub data Recovery : Type 0 where
  no_intent corrupt : Recovery
  recovered : Intent → Recovery

unfoldable pub finish_recovery : Fields → Recovery
finish_recovery r =
    if not (r.have_hash && r.have_model) || not (length r.intent.input_hash_hex == 64)
    then corrupt
    else recovered r.intent

unfoldable pub gw_wal_recover : Option Bytes → Recovery
unfolding fgets_lines read_lines finish_recovery
gw_wal_recover none = no_intent
gw_wal_recover (some file) = finish_recovery (read_lines start (fgets_lines 599 [] file))
