-- ===== src/Tests/Data.antt =====
-- Sample values: a substrate whose digest repeats the length of the text, and an admission input.
use axioma_oracle.Prelude.{
  c_str, same, ℕ, refl, ◌%◌, false, [], ◌∷◌, some, arith, codes, All, IsByte, length, replicate,
}
use axioma_oracle.Prelude.Int.{pos}
use axioma_oracle.Types.{
  room, max_tokens_is_null, seed_is_null, temperature_is_null, top_p_is_null, hash_size,
  params_init_null, Params,
}
use axioma_oracle.Record.{Input}
use axioma_oracle.Hash.{
  Substrate, IsSubstrate, hex_or, compute_input_hash, commit_payload, obs_compute_hash,
}
use axioma_oracle.Validate.{
  validate_utf8, is_nfc, validate_encoding, contains_forbidden_control, normalise_line_endings,
  validate_and_normalise,
}
use axioma_oracle.Canonical.{
  write_init, write_char, write_str, write_finish, digit_loop, reversed_digits, copy_out,
  format_uint64, format_int64, format_q16, hex_at, hex_loop, format_hash_hex, write_escaped_byte,
  write_escaped, string_escape, write_number, write_optional, params_canonicalise,
  write_completion_state, write_failure_type, write_escaped_string, starts_with_nul, write_string,
  write_obs_hash, obs_canonicalise, completion_text, failure_text,
}
use axioma_oracle.Canonical.Escape.{text_of}
use axioma_oracle.Obs.{
  obs_init, no_nul_within, id_too_long, has_control, is_empty, id_is_well_formed,
  state_pair_is_permitted, input_is_schema_valid, obs_identifier_check, mark_truncated, size_fault,
  store_text, input_hash_of, copy_fields, check_record, after_hash, finish, after_output,
  admit_output, obs_admit, compare_hash, recompute, validate_hash, size_is_consistent,
  output_encoding, after_encoding, version_matches, obs_validate,
}
use axioma_oracle.Obs.Admit.{bytes_of}

abbrev pub toy : Substrate
toy = record {
  sha256 = λ s. replicate hash_size (length s % 256);
  commit = λ tag payload. replicate hash_size (length payload % 256);
  commit_fault = λ tag payload. false;
}

pub toy-IsSubstrate : IsSubstrate toy
toy-IsSubstrate = record {
  sha256_size = λ s. refl;
  sha256_bytes = λ s. digits (length s);
  commit_size = λ tag s. refl;
  commit_bytes = λ tag s. digits (length s);
}
  where
    digits : (n : ℕ) → All IsByte (replicate hash_size (n % 256))
    digits n = omega arith

abbrev pub sample_params : Params
sample_params = record params_init_null { max_tokens = pos 4096; temperature = pos 45875 }

-- The output has a CRLF, which is stored as LF.
abbrev pub sample : Input
sample = record {
  completion_state = 0;
  failure_type = 0;
  input = some (codes "why?");
  input_len = 4;
  ledger_seq = 7;
  model_id = some (codes "model-1");
  oracle_id = some (codes "oracle");
  output = some (b'a' ∷ b'\r' ∷ b'\n' ∷ b'"' ∷ []);
  output_len = 4;
  params = sample_params;
}

-- One name for all that a run of the writer, of admission and of validation goes through.
unfoldable pub machine : Unit {0}
unfolding room c_str same completion_text failure_text max_tokens_is_null seed_is_null
    temperature_is_null top_p_is_null validate_utf8 is_nfc validate_encoding
    contains_forbidden_control normalise_line_endings validate_and_normalise write_init write_char
    write_str write_finish digit_loop reversed_digits copy_out format_uint64 format_int64 format_q16
    hex_at hex_loop format_hash_hex write_escaped_byte write_escaped string_escape write_number
    write_optional params_canonicalise write_completion_state write_failure_type
    write_escaped_string starts_with_nul write_string write_obs_hash obs_canonicalise hex_or
    compute_input_hash commit_payload obs_compute_hash obs_init no_nul_within id_too_long
    has_control is_empty id_is_well_formed state_pair_is_permitted input_is_schema_valid
    obs_identifier_check mark_truncated size_fault store_text input_hash_of copy_fields check_record
    after_hash finish after_output admit_output obs_admit compare_hash recompute validate_hash
    size_is_consistent output_encoding after_encoding version_matches obs_validate text_of bytes_of
machine = tt
