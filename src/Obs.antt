-- ===== src/Obs.antt =====
-- src/obs.c: initialisation, the checks on the input, admission and validation of AX:OBS:v1 records.
-- A function that fills `*out`, `*ctx` or `*faults` returns the new values.
mod Checks
pub mod Inputs
pub mod Admit
pub mod Refuse
pub mod Limits
pub mod Valid
pub mod Sequence
unfoldable pub use Checks.*
use axioma_oracle.Prelude.{
  ℕ, zero, suc, ◌+◌, Bool, true, false, ◌&&◌, ◌||◌, not, [], ◌∷◌, Option, none, some, Bytes, take,
  replicate, length, c_str, same, ltb, leb, ◌==◌, if◌then◌else◌,
}
use axioma_oracle.Types.{
  Code, Result, done, fail, Faults, params_init_null, max_output_bytes, max_obs_bytes,
  max_model_id_bytes, max_oracle_id_bytes, hash_size, hash_hex_size, canonical_buffer_size,
  schema_version_text,
}
use axioma_oracle.Types.Completion
use axioma_oracle.Types.Failure
use axioma_oracle.Record.{Record, Input, AdmissionCtx}
use axioma_oracle.Validate.{validate_utf8, validate_encoding, validate_and_normalise}
use axioma_oracle.Canonical.{format_hash_hex, obs_canonicalise}
use axioma_oracle.Hash.{Substrate, obs_tag, hex_or, compute_input_hash, obs_compute_hash}

-- `ax_obs_init`: what `memset` clears, and the four fields set behind it.
unfoldable pub obs_init : Record
obs_init = record {
  completion_state = Completion.complete;
  failure_type = Failure.null;
  input_hash = replicate hash_size 0;
  ledger_seq = 0;
  model_id = none;
  obs_hash = [];
  oracle_id = none;
  output = none;
  output_size = 0;
  params = params_init_null;
  schema_version = some schema_version_text;
}

-- What `ax_obs_admit` returns and leaves behind its pointers.
pub record Admission : Type 0 where
  pub ret : Code
  pub out : Record
  pub ctx : AdmissionCtx
  pub faults : Faults

-- The two assignments of every refusal.
abbrev pub rejected : Record → Record
rejected out = record out {
  completion_state = Completion.error;
  failure_type = Failure.invalid_output;
}

abbrev pub process_len : ℕ → ℕ
process_len len = if ltb max_output_bytes len then max_output_bytes else len

-- The size bound on the output: the record and the flags that it leaves.
unfoldable pub mark_truncated : Input → Record → Record
mark_truncated in' out =
    if ltb max_output_bytes in'.output_len
    then record out { completion_state = Completion.truncated; output_size = in'.output_len }
    else out

unfoldable pub size_fault : Input → Faults → Faults
size_fault in' faults =
    if ltb max_output_bytes in'.output_len then record faults { size = true } else faults

unfoldable pub store_text : Record → Bytes → Record
store_text out text = record out {
  output = some text;
  output_size =
      if out.completion_state == Completion.truncated then out.output_size else length text;
}

abbrev pub empty_output : Record → Record
empty_output out = record out { output = some []; output_size = 0 }

-- The bound on the complete record, and the update of the context.
unfoldable pub check_record : Input → AdmissionCtx → Faults → Record → Result Bytes → Admission
check_record in' ctx faults out (fail e) = record {
  ret = Code.size;
  out = record (rejected out) { obs_hash = [] };
  ctx = ctx;
  faults = record faults { size = true };
}
check_record in' ctx faults out (done text) = record {
  ret = Code.ok;
  out = out;
  ctx = record { last_ledger_seq = in'.ledger_seq; initialized = true };
  faults = faults;
}

-- From the call of `ax_obs_compute_hash` on.
unfoldable pub after_hash : Input → AdmissionCtx → Faults → Code × Record → Admission
after_hash in' ctx faults (Code.ok, out) =
    check_record in' ctx faults out (obs_canonicalise (max_obs_bytes + 1) out true)
after_hash in' ctx faults (e, out) = record {
  ret = e;
  out = out;
  ctx = ctx;
  faults = record faults { protocol = true };
}

-- The comparison, the size check and the encoding check of `ax_obs_validate`.

unfoldable pub compare_hash : Record → Faults → Bytes → Code × Faults
compare_hash obs faults recomputed =
    if same (c_str recomputed) (c_str obs.obs_hash)
    then (Code.ok, faults)
    else (Code.hash, record faults { protocol = true })

-- The consistency of `output_size`; the option is `obs->output`.
unfoldable pub size_is_consistent : Record → Option Bytes → Bool
size_is_consistent obs none = true
size_is_consistent obs (some s) =
    if obs.completion_state == Completion.truncated
    then not (ltb obs.output_size (length (c_str s)))
    else length (c_str s) == obs.output_size

-- The result of the encoding check, AX_OK where it is skipped.
unfoldable pub output_encoding : Record → Option Bytes → Code
output_encoding obs none = Code.ok
output_encoding obs (some s) =
    if ltb 0 obs.output_size then validate_encoding (c_str s) else Code.ok

unfoldable pub version_matches : Option Bytes → Bool
version_matches none = false
version_matches (some s) = same (c_str s) schema_version_text

module _ (sub : Substrate) where
  unfoldable pub input_hash_of : Option Bytes → ℕ → Bytes
  input_hash_of none len = replicate hash_size 0
  input_hash_of (some s) len =
      if ltb 0 len then compute_input_hash sub (take len s) else replicate hash_size 0

  -- From the copy of the completion state to the schema version.
  unfoldable pub copy_fields : Input → Record → Record
  copy_fields in' out = record out {
    completion_state =
        if out.completion_state == Completion.complete
        then in'.completion_state
        else out.completion_state;
    failure_type = if out.failure_type == Failure.null then in'.failure_type else out.failure_type;
    input_hash = input_hash_of in'.input in'.input_len;
    ledger_seq = in'.ledger_seq;
    model_id = in'.model_id;
    oracle_id = in'.oracle_id;
    params = in'.params;
    schema_version = some schema_version_text;
  }

  unfoldable pub finish : Input → AdmissionCtx → Faults → Record → Admission
  finish in' ctx faults out = after_hash in' ctx faults (obs_compute_hash sub (copy_fields in' out))

  unfoldable pub after_output : Input → AdmissionCtx → Record → Result Bytes × Faults → Admission
  after_output in' ctx out (fail e, faults) = record {
    ret = e;
    out = rejected out;
    ctx = ctx;
    faults = faults;
  }
  after_output in' ctx out (done text, faults) = finish in' ctx faults (store_text out text)

  -- The branch on `in->output != NULL && in->output_len > 0`; the option is `in->output`.
  unfoldable pub admit_output :
      ℕ → Input → AdmissionCtx → Record → Faults → Option Bytes → Admission
  admit_output buf_size in' ctx out faults none = finish in' ctx faults (empty_output out)
  admit_output buf_size in' ctx out faults (some s) =
      if ltb 0 in'.output_len
      then after_output in' ctx out
          (validate_and_normalise buf_size (take (process_len in'.output_len) s) faults)
      else finish in' ctx faults (empty_output out)

  -- `ax_obs_admit`
  unfoldable pub obs_admit : ℕ → Input → AdmissionCtx → Faults → Admission
  obs_admit buf_size in' ctx faults =
      if ctx.initialized && leb in'.ledger_seq ctx.last_ledger_seq
      then record {
        ret = Code.ordering;
        out = rejected obs_init;
        ctx = ctx;
        faults = record faults { ordering = true };
      }
      else if id_too_long in'.model_id max_model_id_bytes
          || id_too_long in'.oracle_id max_oracle_id_bytes
      then record {
        ret = Code.size;
        out = rejected obs_init;
        ctx = ctx;
        faults = record faults { size = true };
      }
      else if not (input_is_schema_valid in')
      then record {
        ret = Code.schema;
        out = rejected obs_init;
        ctx = ctx;
        faults = record faults { schema = true };
      }
      else admit_output buf_size in' ctx (mark_truncated in' obs_init) (size_fault in' faults)
          in'.output

  unfoldable pub recompute : Record → Faults → Result Bytes → Code × Faults
  recompute obs faults (fail e) = (Code.buffer, record faults { protocol = true })
  recompute obs faults (done payload) =
      if sub.commit_fault obs_tag payload
      then (Code.hash, record faults { protocol = true })
      else compare_hash obs faults
          (hex_or [] (format_hash_hex hash_hex_size (sub.commit obs_tag payload)))

  unfoldable pub validate_hash : Record → Faults → Code × Faults
  validate_hash obs faults =
      recompute obs faults
        (obs_canonicalise canonical_buffer_size (record obs { obs_hash = [] }) false)

  unfoldable pub after_encoding : Record → Faults → Code → Code × Faults
  after_encoding obs faults Code.ok =
      if not (size_is_consistent obs obs.output)
      then (Code.schema, record faults { schema = true })
      else validate_hash obs faults
  after_encoding obs faults e = (e, record faults { encoding = true })

  unfoldable pub obs_validate : Record → Faults → Code × Faults
  obs_validate obs faults =
      if not (version_matches obs.schema_version)
      then (Code.schema, record faults { schema = true })
      else after_encoding obs faults (output_encoding obs obs.output)
