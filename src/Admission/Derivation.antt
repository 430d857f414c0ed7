-- ===== src/Admission/Derivation.antt =====
-- `ax_compute_derivation_hash` (src/admission.c): what it hashes, and how long a context it can take.
use axioma_oracle.Prelude.{
  ◌+◌, ◌≤◌, ◌<◌, ◌≡◌, ◌⊎◌, inl, inr, ◌++◌, none, some, arith, Bytes, length, length-append,
  take-all, c_str, ltb, Bool-cases, lt→ltb, le→ltb,
}
use axioma_oracle.Types.{max_obs_bytes}
use axioma_oracle.Record.{Record}
use axioma_oracle.Hash.{Substrate}
use axioma_oracle.Admission.{derivation_buf_size, derivation_bytes, compute_derivation_hash}

-- For a record that holds a hash of 64 digits and a context of `deriv_len` bytes: up to 65537 bytes the
-- result is the plain digest of the digits followed by the context; any longer context overruns the
-- stack buffer, since the length is not checked.
pub compute_derivation_hash_lem :
    (sub : Substrate) (prev : Record) (d : Bytes)
    → length (c_str prev.obs_hash) ≡ 64
    → ((length d ≤ max_obs_bytes + 1)
        × (compute_derivation_hash sub prev (some d) (length d)
            ≡ some (sub.sha256 (c_str prev.obs_hash ++ d))))
      ⊎ ((max_obs_bytes + 1 < length d)
          × (compute_derivation_hash sub prev (some d) (length d) ≡ none))
unfolding compute_derivation_hash derivation_bytes
compute_derivation_hash_lem sub prev d h =
    let whole = take-all (length d) d (omega arith) in
    let buf = c_str prev.obs_hash ++ d in
    let size = length-append (c_str prev.obs_hash) d in
    elim (Bool-cases (ltb (max_obs_bytes + 1) (length d))) [
      | inl over ↦
          inr (ground arith, rw (whole, lt→ltb derivation_buf_size (length buf) (ground arith)))
      | inr fits ↦
          inl (ground arith, rw (whole, le→ltb derivation_buf_size (length buf) (ground arith)))
    ]
