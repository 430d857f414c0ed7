-- ===== src/Canonical/Observation.antt =====
-- The canonical JSON of a record (src/canonical.c): the text, its size and what it determines.
use axioma_oracle.Prelude.{
  ◌==◌, ℕ, ◌^◌, ◌<◌, ◌≡◌, ◌≢◌, sym, ap, ◌∙◌, Bool, true, false, [], ◌∷◌, ◌++◌, append_assoc,
  append-nil, Option, none, some, arith, Bytes, All, IsByte, codes, length, c_str, c_str_lem, Lacks,
  if◌then◌else◌, split_at, append_cancel_left, append_cancel_right,
}
use axioma_oracle.Types.{IsParams, done, fail, Code, hash_size}
use axioma_oracle.Record.{Record}
use axioma_oracle.Canonical.{
  leb, write_str, write_completion_state, completion_text, failure_text, write_failure_type,
  write_obs_hash, starts_with_nul, write_string, obs_canonicalise, hex_loop,
}
use axioma_oracle.Canonical.Writer.{
  after, written, write_init-after, write_char-after, write_str-after, write_finish-after,
  written-inv, written_cases,
}
use axioma_oracle.Canonical.Decimal.{
  digits_text, digits_text-Lacks, decimal-digits_text, decimal, format_uint64_text,
}
use axioma_oracle.Canonical.Hex.{format_hash_hex_text, hex_loop-Lacks, from_hex-hex_loop, from_hex}
use axioma_oracle.Canonical.Escape.{escape, text_of, write_escaped_string-after, escape_inj}
use axioma_oracle.Canonical.Parameters.{
  params_text, params_canonicalise_done, params_text_inj, params_text-Lacks,
}

-- The values that the fields of the structure can hold.
pub record IsRecord (obs : Record) : Type 0 where
  pub hash_len : length obs.input_hash ≡ hash_size
  pub hash_bytes : All IsByte obs.input_hash
  pub seq : obs.ledger_seq < 2 ^ 64
  pub size : obs.output_size < 2 ^ 64
  pub params : IsParams obs.params

unfoldable pub obs_hash_text : Bool → Bytes → Bytes
obs_hash_text include_hash hash = if include_hash then c_str hash else []

-- The eleven members in lexicographic order, with no space.
unfoldable pub obs_text : Record → Bool → Bytes
obs_text obs include_hash =
    codes "{\"completion_state\":"
    ++ (completion_text obs.completion_state
        ++ (codes ",\"failure_type\":"
            ++ (failure_text obs.failure_type
                ++ (codes ",\"input_hash\":\""
                    ++ (hex_loop obs.input_hash
                        ++ (codes "\",\"ledger_seq\":"
                            ++ (digits_text obs.ledger_seq
                                ++ (codes ",\"model_id\":\""
                                    ++ (escape (text_of obs.model_id)
                                        ++ (codes "\",\"obs_hash\":\""
                                            ++ (obs_hash_text include_hash obs.obs_hash
                                                ++ (codes "\",\"oracle_id\":\""
                                                    ++ (escape (text_of obs.oracle_id)
                                                        ++ (codes "\",\"output\":\""
                                                            ++ (escape (text_of obs.output)
                                                            ++ (codes "\",\"output_size\":"
                                                            ++ (digits_text obs.output_size
                                                            ++ (codes ",\"params\":"
                                                            ++ (params_text obs.params
                                                            ++ (codes ",\"schema_version\":\""
                                                            ++ (text_of obs.schema_version
                                                            ++ codes "\"}")))))))))))))))))))))

completion_text-Lacks : (c state : ℕ) → c < b'A' → c ≢ b'"' → Lacks c (completion_text state)
unfolding completion_text
completion_text-Lacks c state h k = ground arith

failure_text-Lacks : (c ftype : ℕ) → c < b'A' → c ≢ b'"' → Lacks c (failure_text ftype)
unfolding failure_text
failure_text-Lacks c ftype h k = ground arith

write_plain-after :
    (size : ℕ) (text s : Bytes) → Lacks 0 s → write_str (after size text) s ≡ after size (text ++ s)
write_plain-after size text s h =
    write_str-after size text s ∙ ap (λ t. after size (text ++ t)) (c_str_lem s h)

write_completion_state-after :
    (size : ℕ) (text : Bytes) (state : ℕ)
    → write_completion_state (after size text) state ≡ after size (text ++ completion_text state)
unfolding write_completion_state
write_completion_state-after size text state =
    write_plain-after size text (completion_text state)
      (completion_text-Lacks 0 state (omega arith) (omega arith))

write_failure_type-after :
    (size : ℕ) (text : Bytes) (ftype : ℕ)
    → write_failure_type (after size text) ftype ≡ after size (text ++ failure_text ftype)
unfolding write_failure_type
write_failure_type-after size text ftype =
    write_plain-after size text (failure_text ftype)
      (failure_text-Lacks 0 ftype (omega arith) (omega arith))

write_obs_hash-after :
    (size : ℕ) (text : Bytes) (inc : Bool) (hash : Bytes)
    → write_obs_hash (after size text) inc hash ≡ after size (text ++ obs_hash_text inc hash)
unfolding write_obs_hash starts_with_nul obs_hash_text c_str
write_obs_hash-after size text false hash = ap (after size) (sym (append-nil text))
write_obs_hash-after size text true [] = ap (after size) (sym (append-nil text))
write_obs_hash-after size text true (c ∷ hash) =
    ground (arith, write_str-after size text (c ∷ hash), append-nil text)

write_string-after :
    (size : ℕ) (text : Bytes) (s : Option Bytes)
    → write_string (after size text) s ≡ after size (text ++ text_of s)
unfolding write_string text_of
write_string-after size text none = ap (after size) (sym (append-nil text))
write_string-after size text (some s) = write_str-after size text s

-- What `ax_obs_canonicalise` writes, for every record that the structure can hold.
pub obs_canonicalise_text :
    (size : ℕ) (obs : Record) (include_hash : Bool)
    → IsRecord obs
    → obs_canonicalise size obs include_hash ≡ written size (obs_text obs include_hash)
unfolding obs_canonicalise obs_text c_str
obs_canonicalise_text size obs inc h =
    let hex = format_hash_hex_text obs.input_hash h.hash_len in
    let seq = format_uint64_text obs.ledger_seq h.seq in
    let len = format_uint64_text obs.output_size h.size in
    let params = params_canonicalise_done obs.params h.params in
    let w1 =
      c_str_lem (hex_loop obs.input_hash) (hex_loop-Lacks obs.input_hash 0 (λ d. omega arith)) in
    let w2 =
      c_str_lem (digits_text obs.ledger_seq)
        (digits_text-Lacks obs.ledger_seq 0 (λ d. omega arith)) in
    let w3 =
      c_str_lem (digits_text obs.output_size)
        (digits_text-Lacks obs.output_size 0 (λ d. omega arith)) in
    let w4 = c_str_lem (params_text obs.params) (params_text-Lacks obs.params) in
    rw (hex, seq, len, params)
      (simp (
        write_init-after, write_char-after, write_str-after, write_completion_state-after,
        write_failure_type-after, write_escaped_string-after, write_obs_hash-after,
        write_string-after, w1, w2, w3, w4, write_finish-after, append_assoc,
      ))

-- The values of the two enumerations.
pub record IsDeclared (obs : Record) : Type 0 where
  pub state : obs.completion_state < 3
  pub ftype : obs.failure_type < 4

-- The same observation, whatever pointers lead to its texts; `obs_hash` is left out.
pub record SameObservation (a b : Record) : Type 0 where
  pub completion_state : a.completion_state ≡ b.completion_state
  pub failure_type : a.failure_type ≡ b.failure_type
  pub input_hash : a.input_hash ≡ b.input_hash
  pub ledger_seq : a.ledger_seq ≡ b.ledger_seq
  pub model_id : text_of a.model_id ≡ text_of b.model_id
  pub oracle_id : text_of a.oracle_id ≡ text_of b.oracle_id
  pub output : text_of a.output ≡ text_of b.output
  pub output_size : a.output_size ≡ b.output_size
  pub params : a.params ≡ b.params
  pub schema_version : text_of a.schema_version ≡ text_of b.schema_version

completion_text_inj : (m n : ℕ) → m < 3 → n < 3 → completion_text m ≡ completion_text n → m ≡ n
unfolding completion_text
completion_text_inj m n hm hn e = ground arith

failure_text_inj : (m n : ℕ) → m < 4 → n < 4 → failure_text m ≡ failure_text n → m ≡ n
unfolding failure_text
failure_text_inj m n hm hn e = ground arith

pub hex_loop_inj : (a b : Bytes) → All IsByte a → All IsByte b → hex_loop a ≡ hex_loop b → a ≡ b
hex_loop_inj a b ha hb e =
    let same : ◌≡◌ {A = Option Bytes} (some a) (some b) =
      sym (from_hex-hex_loop a ha) ∙ ap from_hex e ∙ from_hex-hex_loop b hb in
    ground arith

digits_text_inj : (m n : ℕ) → m < 2 ^ 64 → n < 2 ^ 64 → digits_text m ≡ digits_text n → m ≡ n
digits_text_inj m n hm hn e =
    sym (decimal-digits_text m hm) ∙ ap (decimal 0) e ∙ decimal-digits_text n hn

-- Two records whose canonical forms without the hash are the same text are the same observation: the
-- payload that is hashed loses no field, and no text can pass for the end of its member.
pub obs_text_inj :
    (a b : Record)
    → IsRecord a
    → IsRecord b
    → IsDeclared a
    → IsDeclared b
    → obs_text a false ≡ obs_text b false
    → SameObservation a b
unfolding obs_text obs_hash_text
obs_text_inj a b ha hb da db e =
    let comma = λ (s : ℕ). completion_text-Lacks b',' s (omega arith) (omega arith) in
    let comma' = λ (s : ℕ). failure_text-Lacks b',' s (omega arith) (omega arith) in
    let quote = λ (s : Bytes). hex_loop-Lacks s b'"' (λ d. omega arith) in
    let digits = λ (n : ℕ). digits_text-Lacks n b',' (λ d. omega arith) in
    let e0 = append_cancel_left (codes "{\"completion_state\":") _ _ e in
    let (state, e1) = split_at b',' _ _ (comma a.completion_state) (comma b.completion_state) e0 in
    let e1' = append_cancel_left (codes "\"failure_type\":") _ _ e1 in
    let (ftype, e2) = split_at b',' _ _ (comma' a.failure_type) (comma' b.failure_type) e1' in
    let e2' = append_cancel_left (codes "\"input_hash\":\"") _ _ e2 in
    let (hash, e3) = split_at b'"' _ _ (quote a.input_hash) (quote b.input_hash) e2' in
    let e3' = append_cancel_left (codes ",\"ledger_seq\":") _ _ e3 in
    let (seq, e4) = split_at b',' _ _ (digits a.ledger_seq) (digits b.ledger_seq) e3' in
    let e4' = append_cancel_left (codes "\"model_id\":\"") _ _ e4 in
    let (model, e5) = escape_inj (text_of a.model_id) (text_of b.model_id) e4' in
    let e5' = append_cancel_left (codes ",\"obs_hash\":\"\",\"oracle_id\":\"") _ _ e5 in
    let (oracle, e6) = escape_inj (text_of a.oracle_id) (text_of b.oracle_id) e5' in
    let e6' = append_cancel_left (codes ",\"output\":\"") _ _ e6 in
    let (output, e7) = escape_inj (text_of a.output) (text_of b.output) e6' in
    let e7' = append_cancel_left (codes ",\"output_size\":") _ _ e7 in
    let (size, e8) = split_at b',' _ _ (digits a.output_size) (digits b.output_size) e7' in
    let e8' = append_cancel_left (codes "\"params\":") _ _ e8 in
    let (params, e9) = params_text_inj a.params b.params ha.params hb.params e8' in
    let e9' = append_cancel_left (codes ",\"schema_version\":\"") _ _ e9 in
    record {
      completion_state = completion_text_inj _ _ da.state db.state state;
      failure_type = failure_text_inj _ _ da.ftype db.ftype ftype;
      input_hash = hex_loop_inj _ _ ha.hash_bytes hb.hash_bytes hash;
      ledger_seq = digits_text_inj _ _ ha.seq hb.seq seq;
      model_id = model;
      oracle_id = oracle;
      output = output;
      output_size = digits_text_inj _ _ ha.size hb.size size;
      params = params;
      schema_version = append_cancel_right _ _ (codes "\"}") e9';
    }

-- `ax_obs_canonicalise` loses nothing: when it prints two records, their fields and enumerations in
-- range, without their hashes, as the same
-- text, into buffers of whatever sizes, they are the same observation.
pub obs_canonicalise_inj :
    (n m : ℕ) (a b : Record) {text : Bytes}
    → IsRecord a
    → IsRecord b
    → IsDeclared a
    → IsDeclared b
    → obs_canonicalise n a false ≡ done text
    → obs_canonicalise m b false ≡ done text
    → SameObservation a b
obs_canonicalise_inj n m a b ha hb da db p q =
    let x = written-inv n (obs_text a false) (sym (obs_canonicalise_text n a false ha) ∙ p) in
    let y = written-inv m (obs_text b false) (sym (obs_canonicalise_text m b false hb) ∙ q) in
    obs_text_inj a b ha hb da db (sym x ∙ y)

-- `ax_obs_canonicalise` on every record that the structure can hold: the whole canonical text when it
-- fits the buffer with its terminator, and AX_ERR_BUFFER when it does not fit a buffer that is not empty. In a
-- buffer of size 0 the writer writes out of bounds.
pub obs_canonicalise_lem :
    (size : ℕ) (obs : Record) (include_hash : Bool)
    → IsRecord obs
    → obs_canonicalise size obs include_hash ≡ (
        if size == 0
        then fail Code.overrun
        else if leb size (length (obs_text obs include_hash))
        then fail Code.buffer
        else done (obs_text obs include_hash))
obs_canonicalise_lem size obs inc h =
    obs_canonicalise_text size obs inc h ∙ written_cases size (obs_text obs inc)
