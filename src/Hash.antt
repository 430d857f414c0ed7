-- ===== src/Hash.antt =====
-- src/hash.c: the input hash and the observation hash. `axilog_sha256` and `axilog_commit` belong to
-- the substrate library and are a parameter.
pub mod Compute
use axioma_oracle.Prelude.{◌≡◌, Bool, false, [], Bytes, All, IsByte, codes, length, if◌then◌else◌}
use axioma_oracle.Types.{Code, Result, done, fail, hash_size, hash_hex_size, canonical_buffer_size}
use axioma_oracle.Record.{Record}
use axioma_oracle.Canonical.{format_hash_hex, obs_canonicalise}

-- The two functions of libaxilog that the code calls. `commit` is the 32 bytes that
-- `axilog_commit(tag, payload, ...)` leaves in `out_commit`, and `commit_fault` whether
-- `ct_fault_any` holds of its fault flags afterwards.
pub record Substrate : Type 0 where
  pub sha256 : Bytes → Bytes
  pub commit : Bytes → Bytes → Bytes
  pub commit_fault : Bytes → Bytes → Bool

-- Both digests fill a `uint8_t[32]`.
pub record IsSubstrate (sub : Substrate) : Type 0 where
  pub sha256_size : (s : Bytes) → length (sub.sha256 s) ≡ hash_size
  pub sha256_bytes : (s : Bytes) → All IsByte (sub.sha256 s)
  pub commit_size : (tag payload : Bytes) → length (sub.commit tag payload) ≡ hash_size
  pub commit_bytes : (tag payload : Bytes) → All IsByte (sub.commit tag payload)

-- The tag of both calls of `axilog_commit`.
abbrev pub obs_tag : Bytes
obs_tag = codes "AX:OBS:v1"

-- What `obs_hash` holds after `ax_format_hash_hex(obs->obs_hash, ...)`, whose result the source does
-- not read. The second clause stands for the array left as it was.
unfoldable pub hex_or : Bytes → Result Bytes → Bytes
hex_or old (done text) = text
hex_or old (fail e) = old

module _ (sub : Substrate) where
  unfoldable pub compute_input_hash : Bytes → Bytes
  compute_input_hash input = sub.sha256 input

  -- From the canonical form on: the commitment, its fault flags and the hex digits.
  unfoldable pub commit_payload : Record → Result Bytes → Code × Record
  commit_payload obs (fail e) = (Code.buffer, obs)
  commit_payload obs (done payload) =
      if sub.commit_fault obs_tag payload then (Code.hash, obs) else (
        Code.ok,
        record obs {
          obs_hash =
              hex_or obs.obs_hash (format_hash_hex hash_hex_size (sub.commit obs_tag payload));
        },
      )

  -- `ax_obs_compute_hash`
  unfoldable pub obs_compute_hash : Record → Code × Record
  obs_compute_hash obs =
      let cleared : Record = record obs { obs_hash = [] } in
      commit_payload cleared (obs_canonicalise canonical_buffer_size cleared false)
