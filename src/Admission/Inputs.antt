-- ===== src/Admission/Inputs.antt =====
-- Which inputs the helpers of src/admission.c make, judged by the schema check of src/obs.c.
use axioma_oracle.Prelude.{ℕ, ◌≡◌, Bool, ◌&&◌, not, Option, arith, Bytes, ltb}
use axioma_oracle.Types.{Params, max_output_bytes}
use axioma_oracle.Obs.{id_is_well_formed, state_pair_is_permitted, input_is_schema_valid, is_null}
use axioma_oracle.Admission.{
  obs_input_set_complete, obs_input_set_timeout, obs_input_set_transport_error,
  obs_input_set_invalid_output,
}

-- The conditions that are left to the caller.
abbrev pub ids_and_input : Option Bytes → Option Bytes → Option Bytes → ℕ → Bool
ids_and_input oracle_id model_id input input_len =
    id_is_well_formed model_id
    && id_is_well_formed oracle_id
    && not (is_null input && ltb 0 input_len)

-- An input made by a helper passes the schema check exactly when its identifiers are well formed and
-- no pointer is NULL with a positive length; for an invalid output its length must also be within
-- the limit, since such an input is never truncated. The pair of state and failure is never at fault.
pub setters_schema_valid :
    (seq : ℕ) (oracle_id model_id input : Option Bytes) (input_len : ℕ) (output : Option Bytes)
    (output_len : ℕ) (params : Option Params)
    → let rest = ids_and_input oracle_id model_id input input_len in
      let given = not (is_null output && ltb 0 output_len) in
      (input_is_schema_valid
          (obs_input_set_complete seq oracle_id model_id input input_len output output_len params)
        ≡ (rest && given))
      × (input_is_schema_valid (obs_input_set_timeout seq oracle_id model_id input input_len)
          ≡ rest)
      × (input_is_schema_valid
            (obs_input_set_transport_error seq oracle_id model_id input input_len)
          ≡ rest)
      × (input_is_schema_valid
            (obs_input_set_invalid_output seq oracle_id model_id input input_len output output_len)
          ≡ (rest && given && not (ltb max_output_bytes output_len)))
unfolding obs_input_set_complete obs_input_set_timeout obs_input_set_transport_error
    obs_input_set_invalid_output input_is_schema_valid state_pair_is_permitted
setters_schema_valid seq o m i il out ol ps =
    (ground arith, ground arith, ground arith, ground arith)
