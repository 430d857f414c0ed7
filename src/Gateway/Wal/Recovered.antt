-- ===== src/Gateway/Wal/Recovered.antt =====
-- What `gw_wal_write` leaves, as `gw_wal_recover` reads it (gateway/src/gw_wal.c).
use axioma_oracle.Prelude.{
  ◌+◌, ◌≤◌, ◌<◌, ◌≡◌, ◌∙◌, refl, sym, ap, Bool, true, false, ◌||◌, not, [], ◌∷◌, ◌++◌, Option, none,
  some, Bytes, List, codes, length, append_assoc, length-append, ◌==◌, if◌then◌else◌, arith,
  All-append,
}
use axioma_oracle.Prelude.Int.{ℤ, IsInt32, IsInt64, IsInt32-IsInt64}
use axioma_oracle.Canonical.Decimal.{signed_text, length-signed_text, signed_text_nonempty}
use axioma_oracle.Gateway.Wal.{
  Intent, Calls, field, intent_text, buf_size, gw_wal_write, write_buf, fgets_lines, parse_field,
  behind, value_of, strtol, to_int32, Fields, start, set_hash, take_line, read_lines,
  finish_recovery, recovered, gw_wal_recover,
}
use axioma_oracle.Gateway.Wal.Field.{
  IsLine, clean, fgets-piece, parse_field-own, strtol-signed_text, to_int32_lem, signed_text-IsLine,
}

-- An intent as the gateway fills it: a hash of 64 bytes, a model id that is neither empty nor longer than its
-- buffer, texts of one line, and numbers of their types.
pub record IsIntent (i : Intent) : Type 0 where
  pub hash_line : IsLine i.input_hash_hex
  pub hash_size : length i.input_hash_hex ≡ 64
  pub model_line : IsLine i.model_id
  pub model_some : 0 < length i.model_id
  pub model_size : length i.model_id < 256
  pub max_tokens : IsInt32 i.max_tokens
  pub seed : IsInt64 i.seed
  pub temperature_q16 : IsInt32 i.temperature_q16
  pub top_p_q16 : IsInt32 i.top_p_q16

abbrev line_of : Bytes → Bytes → Bytes
line_of key value = key ++ (b'=' ∷ value)

line_of-IsLine : (key value : Bytes) → IsLine key → IsLine value → IsLine (line_of key value)
line_of-IsLine key value (n, r, z) (n', r', z') = (
  All-append _ key (b'=' ∷ value) n ((λ e. omega (arith, e)), n'),
  All-append _ key (b'=' ∷ value) r ((λ e. omega (arith, e)), r'),
  All-append _ key (b'=' ∷ value) z ((λ e. omega (arith, e)), z'),
)

unfoldable pub no_ends : Bytes → Bool
no_ends [] = true
no_ends (c ∷ s) = if c == b'\n' || c == b'\r' || c == 0 then false else no_ends s

pub no_ends→IsLine : (s : Bytes) → no_ends s ≡ true → IsLine s
unfolding no_ends
no_ends→IsLine [] h = (tt, tt, tt)
no_ends→IsLine (c ∷ s) h = ground (arith, no_ends→IsLine s)

take_line_lem :
    (r : Fields) (l : Bytes)
    → IsLine l
    → take_line r (l ++ b'\n' ∷ []) ≡ set_hash r l (parse_field l (codes "input_hash") 65)
unfolding take_line
take_line_lem r l h = ap (λ t. set_hash r t (parse_field t (codes "input_hash") 65)) (clean l h)

read_lines_step :
    (r : Fields) (piece : Bytes) (pieces : List Bytes)
    → read_lines r (piece ∷ pieces) ≡ read_lines (take_line r piece) pieces
unfolding read_lines
read_lines_step r piece pieces = refl

-- The loop takes one field at a time.
read-field :
    (r : Fields) (key value rest : Bytes)
    → IsLine key
    → IsLine value
    → length key + length value < 598
    → read_lines r (fgets_lines 599 [] (field key value rest))
      ≡ read_lines
          (set_hash r (line_of key value) (parse_field (line_of key value) (codes "input_hash") 65))
          (fgets_lines 599 [] rest)
read-field r key value rest k v h =
    let line = line_of-IsLine key value k v in
    ap (λ t. read_lines r (fgets_lines 599 [] t))
      (sym (append_assoc key (b'=' ∷ value) (b'\n' ∷ rest)))
    ∙ ap (read_lines r) (
        fgets-piece 599 [] (line_of key value) rest line.0
          (omega (arith, h, length-append key (b'=' ∷ value))))
    ∙ read_lines_step r (line_of key value ++ b'\n' ∷ []) (fgets_lines 599 [] rest)
    ∙ ap (λ q. read_lines q (fgets_lines 599 [] rest)) (take_line_lem r (line_of key value) line)

module _ (r : Fields) (v : Bytes) (some_byte : 0 < length v) where
  hash-field :
      length v < 65
      → set_hash r
          (line_of (codes "input_hash") v)
          (parse_field (line_of (codes "input_hash") v) (codes "input_hash") 65)
        ≡ record r { intent = record r.intent { input_hash_hex = v }; have_hash = true }
  unfolding set_hash
  hash-field h = rw (parse_field-own (codes "input_hash") v 65 some_byte h) refl

  model-field :
      length v < 256
      → set_hash r
          (line_of (codes "model_id") v)
          (parse_field (line_of (codes "model_id") v) (codes "input_hash") 65)
        ≡ record r { intent = record r.intent { model_id = v }; have_model = true }
  unfolding set_hash parse_field behind value_of
  model-field h = ground (arith, some_byte, h)

  max_tokens-field :
      length v < 64
      → set_hash r
          (line_of (codes "max_tokens") v)
          (parse_field (line_of (codes "max_tokens") v) (codes "input_hash") 65)
        ≡ record r { intent = record r.intent { max_tokens = to_int32 (strtol v) } }
  unfolding set_hash parse_field behind value_of
  max_tokens-field h = ground (arith, some_byte, h)

  seed-field :
      length v < 64
      → set_hash r
          (line_of (codes "seed") v)
          (parse_field (line_of (codes "seed") v) (codes "input_hash") 65)
        ≡ record r { intent = record r.intent { seed = strtol v } }
  unfolding set_hash parse_field behind value_of
  seed-field h = ground (arith, some_byte, h)

  temperature_q16-field :
      length v < 64
      → set_hash r
          (line_of (codes "temperature_q16") v)
          (parse_field (line_of (codes "temperature_q16") v) (codes "input_hash") 65)
        ≡ record r { intent = record r.intent { temperature_q16 = to_int32 (strtol v) } }
  unfolding set_hash parse_field behind value_of
  temperature_q16-field h = ground (arith, some_byte, h)

  top_p_q16-field :
      length v < 64
      → set_hash r
          (line_of (codes "top_p_q16") v)
          (parse_field (line_of (codes "top_p_q16") v) (codes "input_hash") 65)
        ≡ record r { intent = record r.intent { top_p_q16 = to_int32 (strtol v) } }
  unfolding set_hash parse_field behind value_of
  top_p_q16-field h = ground (arith, some_byte, h)

-- The loop over one field of which the effect is known.
take-field :
    (r q : Fields) (key value rest : Bytes)
    → no_ends key ≡ true
    → IsLine value
    → length key + length value < 598
    → set_hash r (line_of key value) (parse_field (line_of key value) (codes "input_hash") 65) ≡ q
    → read_lines r (fgets_lines 599 [] (field key value rest))
      ≡ read_lines q (fgets_lines 599 [] rest)
take-field r q key value rest k v h e =
    read-field r key value rest (no_ends→IsLine key k) v h
    ∙ ap (λ p. read_lines p (fgets_lines 599 [] rest)) e

read_end : (r : Fields) → read_lines r (fgets_lines 599 [] []) ≡ r
unfolding read_lines fgets_lines
read_end r = refl

-- A field with a number.
take-number :
    (r q : Fields) (key : Bytes) (z : ℤ) (rest : Bytes)
    → no_ends key ≡ true
    → length key < 500
    → IsInt64 z
    → (0 < length (signed_text z)
        → length (signed_text z) < 64
        → set_hash r
            (line_of key (signed_text z))
            (parse_field (line_of key (signed_text z)) (codes "input_hash") 65)
          ≡ q)
    → read_lines r (fgets_lines 599 [] (field key (signed_text z) rest))
      ≡ read_lines q (fgets_lines 599 [] rest)
take-number r q key z rest k h i e =
    take-field r q key (signed_text z) rest k (signed_text-IsLine z)
      (omega (arith, h, length-signed_text z i))
      (e (signed_text_nonempty z) (omega (arith, length-signed_text z i)))

-- A number of 32 bits, read back.
back_32 : (z : ℤ) → IsInt32 z → to_int32 (strtol (signed_text z)) ≡ z
back_32 z h = ap to_int32 (strtol-signed_text z (IsInt32-IsInt64 z h)) ∙ to_int32_lem z h

-- What the loop has read, field by field.
abbrev read_1 : Intent → Fields
read_1 i = record start {
  intent = record start.intent { input_hash_hex = i.input_hash_hex };
  have_hash = true;
}

abbrev read_2 : Intent → Fields
read_2 i =
    let r = read_1 i in
    record r { intent = record r.intent { model_id = i.model_id }; have_model = true }

abbrev read_3 : Intent → Fields
read_3 i = let r = read_2 i in record r { intent = record r.intent { max_tokens = i.max_tokens } }

abbrev read_4 : Intent → Fields
read_4 i = let r = read_3 i in record r { intent = record r.intent { seed = i.seed } }

abbrev read_5 : Intent → Fields
read_5 i =
    let r = read_4 i in
    record r { intent = record r.intent { temperature_q16 = i.temperature_q16 } }

abbrev read_6 : Intent → Fields
read_6 i = record { intent = i; have_hash = true; have_model = true }

read-intent_text :
    (i : Intent) → IsIntent i → read_lines start (fgets_lines 599 [] (intent_text i)) ≡ read_6 i
unfolding intent_text no_ends
read-intent_text i h =
    take-field start (read_1 i) (codes "input_hash") i.input_hash_hex _ refl h.hash_line
      (omega (arith, h.hash_size))
      (hash-field start i.input_hash_hex (omega (arith, h.hash_size)) (omega (arith, h.hash_size)))
    ∙ take-field (read_1 i) (read_2 i) (codes "model_id") i.model_id _ refl h.model_line
        (omega (arith, h.model_size)) (model-field (read_1 i) i.model_id h.model_some h.model_size)
    ∙ take-number (read_2 i) (read_3 i) (codes "max_tokens") i.max_tokens _ refl (omega arith)
        (IsInt32-IsInt64 i.max_tokens h.max_tokens)
        (λ p q. max_tokens-field (read_2 i) _ p q ∙ rw (back_32 i.max_tokens h.max_tokens) refl)
    ∙ take-number (read_3 i) (read_4 i) (codes "seed") i.seed _ refl (omega arith) h.seed
        (λ p q. seed-field (read_3 i) _ p q ∙ rw (strtol-signed_text i.seed h.seed) refl)
    ∙ take-number (read_4 i) (read_5 i) (codes "temperature_q16") i.temperature_q16 _ refl
        (omega arith) (IsInt32-IsInt64 i.temperature_q16 h.temperature_q16)
        (λ p q.
          temperature_q16-field (read_4 i) _ p q
          ∙ rw (back_32 i.temperature_q16 h.temperature_q16) refl)
    ∙ take-number (read_5 i) (read_6 i) (codes "top_p_q16") i.top_p_q16 [] refl (omega arith)
        (IsInt32-IsInt64 i.top_p_q16 h.top_p_q16)
        (λ p q. top_p_q16-field (read_5 i) _ p q ∙ rw (back_32 i.top_p_q16 h.top_p_q16) refl)
    ∙ read_end (read_6 i)

gw_wal_recover-intent_text :
    (i : Intent) → IsIntent i → gw_wal_recover (some (intent_text i)) ≡ recovered i
unfolding gw_wal_recover finish_recovery
gw_wal_recover-intent_text i h = rw (read-intent_text i h) (ground (arith, h.hash_size))

length-field :
    (key value rest : Bytes)
    → length (field key value rest) ≡ length key + length value + length rest + 2
length-field key value rest = omega (
  arith,
  length-append key (b'=' ∷ (value ++ (b'\n' ∷ rest))),
  length-append value (b'\n' ∷ rest),
)

length-intent_text : (i : Intent) → IsIntent i → length (intent_text i) < buf_size
unfolding intent_text
length-intent_text i h =
    let top = field (codes "top_p_q16") (signed_text i.top_p_q16) [] in
    let temperature = field (codes "temperature_q16") (signed_text i.temperature_q16) top in
    let seed = field (codes "seed") (signed_text i.seed) temperature in
    let tokens = field (codes "max_tokens") (signed_text i.max_tokens) seed in
    let model = field (codes "model_id") i.model_id tokens in
    omega (
      arith,
      length-field (codes "input_hash") i.input_hash_hex model,
      h.hash_size,
      length-field (codes "model_id") i.model_id tokens,
      h.model_size,
      length-field (codes "max_tokens") (signed_text i.max_tokens) seed,
      length-signed_text i.max_tokens (IsInt32-IsInt64 i.max_tokens h.max_tokens),
      length-field (codes "seed") (signed_text i.seed) temperature,
      length-signed_text i.seed h.seed,
      length-field (codes "temperature_q16") (signed_text i.temperature_q16) top,
      length-signed_text i.temperature_q16 (IsInt32-IsInt64 i.temperature_q16 h.temperature_q16),
      length-field (codes "top_p_q16") (signed_text i.top_p_q16) [],
      length-signed_text i.top_p_q16 (IsInt32-IsInt64 i.top_p_q16 h.top_p_q16),
    )

-- The file that a write leaves: as it was, or the intent, of which the `write` may have landed a part.
write_cases :
    (calls : Calls) (i : Intent)
    → IsIntent i
    → gw_wal_write calls none i
      ≡ (if not calls.opened then (false, none) else write_buf calls (intent_text i))
unfolding gw_wal_write
write_cases calls i h = ground (arith, length-intent_text i h)

write_buf-true :
    (calls : Calls) (buf : Bytes)
    → (write_buf calls buf).0 ≡ true
    → write_buf calls buf ≡ (true, some buf)
unfolding write_buf
write_buf-true calls buf e = ground (arith, e)

open_refused :
    (calls : Calls) (file : Bytes) (i : Intent) → (gw_wal_write calls (some file) i).0 ≡ true → ⊥
unfolding gw_wal_write
open_refused calls file i e = cc

written_true :
    (calls : Calls) (i : Intent)
    → IsIntent i
    → (gw_wal_write calls none i).0 ≡ true
    → gw_wal_write calls none i ≡ (true, some (intent_text i))
written_true calls i h e =
    let cases = write_cases calls i h in
    ground (arith, cases, write_buf-true calls (intent_text i), e)

-- For an intent whose hash has 64 bytes and whose model id is not empty and shorter than its buffer, both lines without
-- line ends or zero bytes, and whose numbers are in range (`IsIntent`): a write that returns 0 found no open intent,
-- and leaves a file from which the intent is recovered.
pub gw_wal_write-gw_wal_recover :
    (calls : Calls) (wal : Option Bytes) (i : Intent)
    → IsIntent i
    → (gw_wal_write calls wal i).0 ≡ true
    → (wal ≡ none) × (gw_wal_recover (gw_wal_write calls wal i).1 ≡ recovered i)
gw_wal_write-gw_wal_recover calls (some file) i h e = absurd (open_refused calls file i e)
gw_wal_write-gw_wal_recover calls none i h e =
    (refl, ap (λ r. gw_wal_recover r.1) (written_true calls i h e) ∙ gw_wal_recover-intent_text i h)

-- For such an intent, with no open intent and calls that succeed, the write returns 0.
pub gw_wal_write_complete :
    (calls : Calls) (i : Intent)
    → IsIntent i
    → calls.opened ≡ true
    → buf_size ≤ calls.written
    → calls.synced ≡ true
    → calls.dir_synced ≡ true
    → gw_wal_write calls none i ≡ (true, some (intent_text i))
unfolding write_buf
gw_wal_write_complete calls i h o w s d =
    write_cases calls i h ∙ ground (arith, o, w, s, d, length-intent_text i h)
