-- ===== src/Admission.antt =====
-- src/admission.c: the helpers that fill an admission input, and the derivation hash of chained
-- oracles. Every helper starts from the cleared input, so the earlier content of `*in` does not matter.
pub mod Inputs
pub mod Derivation
use axioma_oracle.Prelude.{
  ℕ, ◌+◌, Bool, ◌&&◌, true, false, [], ◌++◌, Option, none, some, Bytes, take, length, c_str, ltb,
  leb, if◌then◌else◌,
}
use axioma_oracle.Types.{Params, params_init_null, hash_hex_size, max_obs_bytes}
use axioma_oracle.Types.Completion
use axioma_oracle.Types.Failure
use axioma_oracle.Record.{Record, Input}
use axioma_oracle.Hash.{Substrate}

unfoldable pub obs_input_init : Input
obs_input_init = record {
  completion_state = Completion.complete;
  failure_type = Failure.null;
  input = none;
  input_len = 0;
  ledger_seq = 0;
  model_id = none;
  oracle_id = none;
  output = none;
  output_len = 0;
  params = params_init_null;
}

-- `if (params != NULL)`
unfoldable pub params_or : Params → Option Params → Params
params_or old none = old
params_or old (some p) = p

module _ (ledger_seq : ℕ) (oracle_id model_id input : Option Bytes) (input_len : ℕ) where
  unfoldable pub obs_input_set_complete : Option Bytes → ℕ → Option Params → Input
  unfolding obs_input_init params_or
  obs_input_set_complete output output_len params = record obs_input_init {
    completion_state = Completion.complete;
    failure_type = Failure.null;
    ledger_seq = ledger_seq;
    oracle_id = oracle_id;
    model_id = model_id;
    input = input;
    input_len = input_len;
    output = output;
    output_len = output_len;
    params = params_or obs_input_init.params params;
  }

  unfoldable pub obs_input_set_timeout : Input
  unfolding obs_input_init
  obs_input_set_timeout = record obs_input_init {
    completion_state = Completion.error;
    failure_type = Failure.timeout;
    ledger_seq = ledger_seq;
    oracle_id = oracle_id;
    model_id = model_id;
    input = input;
    input_len = input_len;
    output = none;
    output_len = 0;
  }

  unfoldable pub obs_input_set_transport_error : Input
  unfolding obs_input_init
  obs_input_set_transport_error = record obs_input_init {
    completion_state = Completion.error;
    failure_type = Failure.transport_error;
    ledger_seq = ledger_seq;
    oracle_id = oracle_id;
    model_id = model_id;
    input = input;
    input_len = input_len;
    output = none;
    output_len = 0;
  }

  unfoldable pub obs_input_set_invalid_output : Option Bytes → ℕ → Input
  unfolding obs_input_init
  obs_input_set_invalid_output output output_len = record obs_input_init {
    completion_state = Completion.error;
    failure_type = Failure.invalid_output;
    ledger_seq = ledger_seq;
    oracle_id = oracle_id;
    model_id = model_id;
    input = input;
    input_len = input_len;
    output = output;
    output_len = output_len;
  }

-- `sizeof buf` in `ax_compute_derivation_hash`
abbrev pub derivation_buf_size : ℕ
derivation_buf_size = hash_hex_size + max_obs_bytes

-- `derivation != NULL && deriv_len > 0`, and then the bytes at `derivation`.
unfoldable pub derivation_bytes : Option Bytes → ℕ → Bytes
derivation_bytes none deriv_len = []
derivation_bytes (some d) deriv_len = take deriv_len d

module _ (sub : Substrate) where
  -- `ax_compute_derivation_hash`. `none` is no value of the source: it stands for a `memcpy` that
  -- writes past the end of `buf`.
  unfoldable pub compute_derivation_hash : Record → Option Bytes → ℕ → Option Bytes
  unfolding derivation_bytes c_str
  compute_derivation_hash prev_obs derivation deriv_len =
      let buf = c_str prev_obs.obs_hash ++ derivation_bytes derivation deriv_len in
      if ltb derivation_buf_size (length buf) then none else some (sub.sha256 buf)
