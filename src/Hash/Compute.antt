-- ===== src/Hash/Compute.antt =====
-- What `ax_obs_compute_hash` (src/hash.c) commits to.
use axioma_oracle.Prelude.{
  arith, ◌≡◌, inl, inr, refl, false, [], Bytes, length, ltb, if◌then◌else◌, Bool-cases, ltb→le,
  ltb→lt,
}
use axioma_oracle.Types.{Code, done, room, canonical_buffer_size}
use axioma_oracle.Record.{Record}
use axioma_oracle.Canonical.{hex_loop}
use axioma_oracle.Canonical.Writer.{written-done, written-buffer}
use axioma_oracle.Canonical.Hex.{format_hash_hex_text}
use axioma_oracle.Canonical.Observation.{IsRecord, obs_text, obs_hash_text, obs_canonicalise_text}
use axioma_oracle.Hash.{Substrate, IsSubstrate, obs_tag, hex_or, commit_payload, obs_compute_hash}

abbrev pub cleared : Record → Record
cleared obs = record obs { obs_hash = [] }

pub IsRecord-obs_hash :
    {obs : Record} (hash : Bytes) → IsRecord obs → IsRecord (record obs { obs_hash = hash })
IsRecord-obs_hash hash h = record {
  hash_len = h.hash_len;
  hash_bytes = h.hash_bytes;
  seq = h.seq;
  size = h.size;
  params = h.params;
}

-- The text that is committed does not depend on the hash in the record.
pub obs_text-obs_hash :
    (obs : Record) (hash : Bytes)
    → obs_text (record obs { obs_hash = hash }) false ≡ obs_text obs false
unfolding obs_text obs_hash_text
obs_text-obs_hash obs hash = refl

module _ (sub : Substrate) where
  -- The hash that belongs to a record.
  unfoldable pub hash_of : Record → Bytes
  hash_of obs = hex_loop (sub.commit obs_tag (obs_text obs false))

  module _ (laws : IsSubstrate sub) where
    commit_payload-done :
        (obs : Record) (payload : Bytes)
        → commit_payload sub obs (done payload) ≡ (
            if sub.commit_fault obs_tag payload
            then (Code.hash, obs)
            else (Code.ok, record obs { obs_hash = hex_loop (sub.commit obs_tag payload) }))
    unfolding commit_payload hex_or
    commit_payload-done obs payload =
        rw (format_hash_hex_text (sub.commit obs_tag payload) (laws.commit_size obs_tag payload))

    -- `ax_obs_compute_hash` clears the hash and, where the canonical form fits its buffer and the
    -- substrate raises no fault, stores the hex digits of the commitment to that form under the tag
    -- AX:OBS:v1. It returns AX_ERR_BUFFER or AX_ERR_HASH in the other cases.
    pub obs_compute_hash_lem :
        (obs : Record)
        → IsRecord obs
        → obs_compute_hash sub obs ≡ (
            if ltb (room canonical_buffer_size) (length (obs_text obs false))
            then (Code.buffer, cleared obs)
            else if sub.commit_fault obs_tag (obs_text obs false)
            then (Code.hash, cleared obs)
            else (Code.ok, record obs { obs_hash = hash_of obs }))
    unfolding obs_compute_hash hash_of
    obs_compute_hash_lem obs h =
        let text = obs_text obs false in
        let run =
          obs_canonicalise_text canonical_buffer_size (cleared obs) false
            (IsRecord-obs_hash [] h) in
        let same = obs_text-obs_hash obs [] in
        elim (Bool-cases (ltb (room canonical_buffer_size) (length text))) [
          | inl over ↦
              rw
                (
                  run,
                  same,
                  written-buffer canonical_buffer_size text (omega arith) (ltb→lt _ _ over),
                  over,
                )
                (unfold commit_payload in refl)
          | inr fits ↦
              rw
                (
                  run,
                  same,
                  written-done canonical_buffer_size text (omega arith) (ltb→le _ _ fits),
                  fits,
                )
                (commit_payload-done (cleared obs) text)
        ]
