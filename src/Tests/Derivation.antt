-- ===== src/Tests/Derivation.antt =====
-- The admission helpers on sample values (src/admission.c).
use axioma_oracle.Prelude.{
  ◌≡◌, ◌≤◌, ◌<◌, ◌+◌, ◌⊎◌, ◌++◌, refl, ◌&&◌, not, some, none, codes, length, replicate, ltb, c_str,
}
use axioma_oracle.Types.{max_obs_bytes, max_output_bytes}
use axioma_oracle.Record.{Record}
use axioma_oracle.Obs.{obs_init, is_null, input_is_schema_valid}
use axioma_oracle.Admission.{
  obs_input_set_complete, obs_input_set_timeout, obs_input_set_transport_error,
  obs_input_set_invalid_output, compute_derivation_hash,
}
use axioma_oracle.Admission.Inputs.{ids_and_input, setters_schema_valid}
use axioma_oracle.Admission.Derivation.{compute_derivation_hash_lem}
use axioma_oracle.Tests.Data.{toy, machine}

setters_schema_valid_example :
    let oracle = some (codes "oracle") in
    let model = some (codes "model-1") in
    let asked = some (codes "why?") in
    let rest = ids_and_input oracle model asked 4 in
    let given = not (is_null none && ltb 0 3) in
    (input_is_schema_valid (obs_input_set_complete 7 oracle model asked 4 none 3 none)
      ≡ (rest && given))
    × (input_is_schema_valid (obs_input_set_timeout 7 oracle model asked 4) ≡ rest)
    × (input_is_schema_valid (obs_input_set_transport_error 7 oracle model asked 4) ≡ rest)
    × (input_is_schema_valid (obs_input_set_invalid_output 7 oracle model asked 4 none 3)
        ≡ (rest && given && not (ltb max_output_bytes 3)))
setters_schema_valid_example =
    setters_schema_valid 7 (some (codes "oracle")) (some (codes "model-1")) (some (codes "why?")) 4
      none 3 none

abbrev chained : Record
chained = record obs_init { obs_hash = replicate 64 b'0' }

compute_derivation_hash_lem_example :
    ((length (codes "summary") ≤ max_obs_bytes + 1)
      × (compute_derivation_hash toy chained (some (codes "summary")) (length (codes "summary"))
          ≡ some (toy.sha256 (c_str chained.obs_hash ++ codes "summary"))))
    ⊎ ((max_obs_bytes + 1 < length (codes "summary"))
        × (compute_derivation_hash toy chained (some (codes "summary")) (length (codes "summary"))
            ≡ none))
unfolding machine
compute_derivation_hash_lem_example = compute_derivation_hash_lem toy chained (codes "summary") refl
