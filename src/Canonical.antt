-- ===== src/Canonical.antt =====
-- src/canonical.c: the bounded writer, the formatting of numbers and hashes, string escaping, and the
-- canonical JSON of the sampling parameters and of a record.
pub mod Writer
pub mod Decimal
pub mod Hex
pub mod Escape
pub mod Parameters
pub mod Observation
use mathlib.Core.Bool.{cond}
use axioma_oracle.Prelude.{
  ℕ, zero, suc, ◌+◌, ◌*◌, ◌/◌, ◌%◌, Bool, true, false, ◌&&◌, not, [], ◌∷◌, ◌++◌, reverse, Option,
  none, some, Bytes, codes, length, get_or, c_str, ltb, leb, ◌==◌, if◌then◌else◌,
}
use axioma_oracle.Prelude.Int.{ℤ, pos, negsuc}
use axioma_oracle.Types
use axioma_oracle.Types.{
  Code, Result, done, fail, ◌>>=◌, Params, room, hash_hex_size, params_buffer_size,
  max_tokens_is_null, seed_is_null, temperature_is_null, top_p_is_null,
}
use axioma_oracle.Types.Completion
use axioma_oracle.Types.Failure
use axioma_oracle.Record.{Record}

-- `write_ctx_t`, where `buf` is what has been written, `buf[0..pos)`.
pub record WriteCtx : Type 0 where
  pub buf : Bytes
  pub size : ℕ
  pub pos : ℕ
  pub overflow : Bool

unfoldable pub write_init : ℕ → WriteCtx
write_init size = record { buf = []; size = size; pos = 0; overflow = false }

-- For a size of 0 the test is always true, and the byte lands out of bounds; `write_finish` tells it.
unfoldable pub write_char : WriteCtx → ℕ → WriteCtx
write_char ctx c =
    if ltb ctx.pos (room ctx.size)
    then record ctx { buf = ctx.buf ++ c ∷ []; pos = ctx.pos + 1 }
    else record ctx { overflow = true }

unfoldable pub write_str : WriteCtx → Bytes → WriteCtx
write_str ctx [] = ctx
write_str ctx (c ∷ s) = let rest = write_str (write_char ctx c) s in if c == 0 then ctx else rest

-- The bytes before the terminator; their number is what the source returns. In a buffer of size 0 the terminator, and
-- every byte before it, is written out of bounds.
unfoldable pub write_finish : WriteCtx → Result Bytes
write_finish ctx =
    if ctx.size == 0
    then fail Code.overrun
    else if ctx.overflow
    then fail Code.buffer
    else done ctx.buf

-- `sizeof temp`, and the size of each `num_buf`
abbrev pub num_buf_size : ℕ
num_buf_size = 24

-- `while (uval > 0)`, which fills `temp` with the digits, the lowest first. The fuel is the size of
-- `temp`.
unfoldable pub digit_loop : ℕ → ℕ → Bytes
digit_loop zero uval = []
digit_loop (suc fuel) uval =
    let rest = (b'0' + uval % 10) ∷ digit_loop fuel (uval / 10) in if ltb 0 uval then rest else []

unfoldable pub reversed_digits : ℕ → Bytes
unfolding digit_loop
reversed_digits uval = if uval == 0 then b'0' ∷ [] else digit_loop num_buf_size uval

-- The size check, and the copy in reverse.
unfoldable pub copy_out : ℕ → Bytes → Result Bytes
copy_out dst_size temp =
    if leb dst_size (length temp) then fail Code.buffer else done (reverse temp)

unfoldable pub format_uint64 : ℕ → ℕ → Result Bytes
unfolding reversed_digits copy_out
format_uint64 dst_size value = copy_out dst_size (reversed_digits value)

-- For a negative value, -(n + 1), the source computes `(uint64_t)(-(value + 1)) + 1`, which is n + 1.
unfoldable pub format_int64 : ℕ → ℤ → Result Bytes
unfolding reversed_digits copy_out
format_int64 dst_size (pos n) = copy_out dst_size (reversed_digits n)
format_int64 dst_size (negsuc n) = copy_out dst_size (reversed_digits (n + 1) ++ b'-' ∷ [])

unfoldable pub format_q16 : ℕ → ℤ → Result Bytes
unfolding format_int64
format_q16 dst_size value = format_int64 dst_size value

abbrev hex_digits : Bytes
hex_digits = codes "0123456789abcdef"

unfoldable pub hex_at : ℕ → ℕ
hex_at i = get_or hex_digits i 0

unfoldable pub hex_loop : Bytes → Bytes
hex_loop [] = []
hex_loop (h ∷ hash) = hex_at (h / 16 % 16) ∷ hex_at (h % 16) ∷ hex_loop hash

-- The list is the `hash_len` bytes at `hash`.
unfoldable pub format_hash_hex : ℕ → Bytes → Result Bytes
unfolding hex_loop hex_at
format_hash_hex dst_size hash =
    if ltb dst_size (length hash * 2 + 1) then fail Code.buffer else done (hex_loop hash)

-- One round of the loop of `write_escaped`.
unfoldable pub write_escaped_byte : WriteCtx → ℕ → WriteCtx
unfolding hex_at
write_escaped_byte ctx c =
    if c == b'"'
    then write_str ctx (codes "\\\"")
    else if c == b'\\'
    then write_str ctx (codes "\\\\")
    else if ltb c 0x20
    then write_str ctx
        (b'\\' ∷ b'u' ∷ b'0' ∷ b'0' ∷ hex_at (c / 16 % 16) ∷ hex_at (c % 16) ∷ 0 ∷ [])
    else write_char ctx c

unfoldable pub write_escaped : WriteCtx → Bytes → WriteCtx
unfolding write_escaped_byte write_char write_str
write_escaped ctx [] = ctx
write_escaped ctx (c ∷ src) = write_escaped (write_escaped_byte ctx c) src

unfoldable pub string_escape : ℕ → Bytes → Result Bytes
unfolding write_escaped write_init write_finish
string_escape dst_size src = write_finish (write_escaped (write_init dst_size) src)

-- `write_str(&ctx, num_buf)` behind a formatting call whose result the source does not read. The
-- second clause stands for the stale contents of `num_buf`; no call in this file takes it.
unfoldable pub write_number : WriteCtx → Result Bytes → WriteCtx
write_number ctx (done text) = write_str ctx text
write_number ctx (fail e) = ctx

unfoldable pub write_optional : WriteCtx → Bool → Result Bytes → WriteCtx
unfolding write_number
write_optional ctx is_null number =
    if is_null then write_str ctx (codes "null") else write_number ctx number

unfoldable pub params_canonicalise : ℕ → Params → Result Bytes
params_canonicalise dst_size params =
    let w0 = write_char (write_init dst_size) b'{' in
    let w1 = write_str w0 (codes "\"max_tokens\":") in
    let w2 =
      write_optional w1 (max_tokens_is_null params) (format_int64 num_buf_size params.max_tokens) in
    let w3 = write_str w2 (codes ",\"seed\":") in
    let w4 = write_optional w3 (seed_is_null params) (format_int64 num_buf_size params.seed) in
    let w5 = write_str w4 (codes ",\"temperature\":") in
    let w6 =
      write_optional w5 (temperature_is_null params) (format_q16 num_buf_size params.temperature) in
    let w7 = write_str w6 (codes ",\"top_p\":") in
    let w8 = write_optional w7 (top_p_is_null params) (format_q16 num_buf_size params.top_p) in
    write_finish (write_char w8 b'}')

-- The texts of the two `switch` statements.
unfoldable pub completion_text : ℕ → Bytes
completion_text state =
    if state == Completion.complete
    then codes "\"COMPLETE\""
    else if state == Completion.truncated
    then codes "\"TRUNCATED\""
    else if state == Completion.error
    then codes "\"ERROR\""
    else codes "\"UNKNOWN\""

unfoldable pub failure_text : ℕ → Bytes
failure_text ftype =
    if ftype == Failure.null
    then codes "null"
    else if ftype == Failure.timeout
    then codes "\"TIMEOUT\""
    else if ftype == Failure.invalid_output
    then codes "\"INVALID_OUTPUT\""
    else if ftype == Failure.transport_error
    then codes "\"TRANSPORT_ERROR\""
    else codes "\"UNKNOWN\""

unfoldable pub write_completion_state : WriteCtx → ℕ → WriteCtx
unfolding completion_text write_str
write_completion_state ctx state = write_str ctx (completion_text state)

unfoldable pub write_failure_type : WriteCtx → ℕ → WriteCtx
unfolding failure_text write_str
write_failure_type ctx ftype = write_str ctx (failure_text ftype)

-- `if (s) write_escaped(&ctx, s, strlen(s));`
unfoldable pub write_escaped_string : WriteCtx → Option Bytes → WriteCtx
unfolding write_escaped c_str
write_escaped_string ctx none = ctx
write_escaped_string ctx (some s) = write_escaped ctx (c_str s)

-- `if (obs->schema_version) write_str(&ctx, obs->schema_version);`
unfoldable pub write_string : WriteCtx → Option Bytes → WriteCtx
unfolding write_str
write_string ctx none = ctx
write_string ctx (some s) = write_str ctx s

-- `s[0] == '\0'`
unfoldable pub starts_with_nul : Bytes → Bool
starts_with_nul [] = true
starts_with_nul (c ∷ s) = c == 0

-- `if (include_hash && obs->obs_hash[0] != '\0') write_str(&ctx, obs->obs_hash);`
unfoldable pub write_obs_hash : WriteCtx → Bool → Bytes → WriteCtx
unfolding write_str starts_with_nul
write_obs_hash ctx include_hash hash =
    if include_hash && not (starts_with_nul hash) then write_str ctx hash else ctx

-- `ax_obs_canonicalise`
unfoldable pub obs_canonicalise : ℕ → Record → Bool → Result Bytes
obs_canonicalise dst_size obs include_hash = do
  let a0 = write_char (write_init dst_size) b'{'
  let a1 = write_str a0 (codes "\"completion_state\":")
  let a2 = write_completion_state a1 obs.completion_state
  let a3 = write_str a2 (codes ",\"failure_type\":")
  let a4 = write_failure_type a3 obs.failure_type
  let a5 = write_str a4 (codes ",\"input_hash\":\"")
  hash_hex ← format_hash_hex hash_hex_size obs.input_hash
  let b1 = write_char (write_str a5 hash_hex) b'"'
  let b2 = write_str b1 (codes ",\"ledger_seq\":")
  seq ← format_uint64 num_buf_size obs.ledger_seq
  let c1 = write_str b2 seq
  let c2 = write_str c1 (codes ",\"model_id\":\"")
  let c3 = write_char (write_escaped_string c2 obs.model_id) b'"'
  let c4 = write_str c3 (codes ",\"obs_hash\":\"")
  let c5 = write_char (write_obs_hash c4 include_hash obs.obs_hash) b'"'
  let c6 = write_str c5 (codes ",\"oracle_id\":\"")
  let c7 = write_char (write_escaped_string c6 obs.oracle_id) b'"'
  let c8 = write_str c7 (codes ",\"output\":\"")
  let c9 = write_char (write_escaped_string c8 obs.output) b'"'
  let d0 = write_str c9 (codes ",\"output_size\":")
  output_size ← format_uint64 num_buf_size obs.output_size
  let d1 = write_str d0 output_size
  let d2 = write_str d1 (codes ",\"params\":")
  params ← params_canonicalise params_buffer_size obs.params
  let e1 = write_str d2 params
  let e2 = write_str e1 (codes ",\"schema_version\":\"")
  let e3 = write_char (write_string e2 obs.schema_version) b'"'
  write_finish (write_char e3 b'}')
