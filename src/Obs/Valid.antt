-- ===== src/Obs/Valid.antt =====
-- `ax_obs_validate` (src/obs.c): what it accepts, that admission satisfies it, and what the hash binds.
use axioma_oracle.Prelude.{
  ℕ, ◌≡◌, ◌≢◌, ◌⊎◌, inl, inr, sym, ap, ◌∙◌, true, false, [], Option, none, some, arith, Bytes,
  Lacks, length, c_str, c_str_lem, same, same_refl, same→eq, ltb, if◌then◌else◌, Bool-cases, ltb→lt,
  ltb→le,
}
use axioma_oracle.Types.{Code, done, Faults, room, canonical_buffer_size, schema_version_text}
use axioma_oracle.Record.{Record, Input, AdmissionCtx}
use axioma_oracle.Validate.Text.{IsStored, IsPrintable-Lacks, validate_encoding-IsStored}
use axioma_oracle.Canonical.{hex_loop}
use axioma_oracle.Canonical.Writer.{written-done, written-buffer}
use axioma_oracle.Canonical.Hex.{format_hash_hex_text, hex_loop-Lacks}
use axioma_oracle.Canonical.Escape.{text_of}
use axioma_oracle.Canonical.Observation.{
  IsRecord, IsDeclared, SameObservation, hex_loop_inj, obs_text, obs_text_inj,
  obs_canonicalise_text,
}
use axioma_oracle.Hash.{Substrate, IsSubstrate, obs_tag, hex_or, obs_compute_hash}
use axioma_oracle.Hash.Compute.{hash_of, obs_text-obs_hash, obs_compute_hash_lem, IsRecord-obs_hash}
use axioma_oracle.Obs.{
  compare_hash, recompute, validate_hash, size_is_consistent, output_encoding, after_encoding,
  version_matches, obs_validate, obs_admit,
}
use axioma_oracle.Obs.Admit.{
  IsInput, stored_text, described, admitted, described-IsRecord, obs_admit_done, stored_text-le,
}

abbrev verdict : Faults → Code → Code × Faults
verdict faults e = (e, record faults { protocol = true })

module _ (sub : Substrate) (laws : IsSubstrate sub) where
  hash_of-Lacks : (obs : Record) → Lacks 0 (hash_of sub obs)
  unfolding hash_of
  hash_of-Lacks obs = hex_loop-Lacks (sub.commit obs_tag (obs_text obs false)) 0 (λ d. omega arith)

  compared :
      (obs : Record) (faults : Faults)
      → compare_hash obs faults
          (hex_or [] (done (hex_loop (sub.commit obs_tag (obs_text obs false)))))
        ≡ (if same (hash_of sub obs) (c_str obs.obs_hash)
            then (Code.ok, faults)
            else verdict faults Code.hash)
  unfolding compare_hash hex_or hash_of
  compared obs faults =
      ap (λ t. if same t (c_str obs.obs_hash) then (Code.ok, faults) else verdict faults Code.hash)
        (c_str_lem (hex_loop (sub.commit obs_tag (obs_text obs false))) (hash_of-Lacks obs))

  -- The recomputation of the hash, on every branch.
  validate_hash_lem :
      (obs : Record) (faults : Faults)
      → IsRecord obs
      → validate_hash sub obs faults ≡ (
          if ltb (room canonical_buffer_size) (length (obs_text obs false))
          then verdict faults Code.buffer
          else if sub.commit_fault obs_tag (obs_text obs false)
          then verdict faults Code.hash
          else if same (hash_of sub obs) (c_str obs.obs_hash)
          then (Code.ok, faults)
          else verdict faults Code.hash)
  unfolding validate_hash recompute
  validate_hash_lem obs faults h =
      let text = obs_text obs false in
      let run =
        obs_canonicalise_text canonical_buffer_size (record obs { obs_hash = [] }) false
          (IsRecord-obs_hash [] h) in
      let same_text = obs_text-obs_hash obs [] in
      let hex = format_hash_hex_text (sub.commit obs_tag text) (laws.commit_size obs_tag text) in
      elim (Bool-cases (ltb (room canonical_buffer_size) (length text))) [
        | inl over ↦ rw (
          run,
          same_text,
          written-buffer canonical_buffer_size text (omega arith) (ltb→lt _ _ over),
          over,
        )
        | inr fits ↦ elim (Bool-cases (sub.commit_fault obs_tag text)) [
          | inl fault ↦ rw (
            run,
            same_text,
            written-done canonical_buffer_size text (omega arith) (ltb→le _ _ fits),
            fits,
            fault,
          )
          | inr sound ↦
              rw
                (
                  run,
                  same_text,
                  written-done canonical_buffer_size text (omega arith) (ltb→le _ _ fits),
                  fits,
                  sound,
                  hex,
                )
                (compared obs faults)
        ]
      ]

  abbrev HashHolds : Record → Faults → Code × Faults → Type 0
  HashHolds obs faults r =
      (c_str obs.obs_hash ≡ hash_of sub obs)
      × (sub.commit_fault obs_tag (obs_text obs false) ≡ false)
      × (r.1 ≡ faults)

  validate_hash_sound :
      (obs : Record) (faults : Faults)
      → IsRecord obs
      → (validate_hash sub obs faults).0 ≡ Code.ok
      → HashHolds obs faults (validate_hash sub obs faults)
  validate_hash_sound obs faults h e =
      let run = validate_hash_lem obs faults h in
      (
        ground (arith, run, e, same→eq (hash_of sub obs) (c_str obs.obs_hash)),
        ground (arith, run, e),
        ground (arith, run, e),
      )

  after_encoding_sound :
      (obs : Record) (faults : Faults) (c : Code)
      → IsRecord obs
      → (after_encoding sub obs faults c).0 ≡ Code.ok
      → HashHolds obs faults (after_encoding sub obs faults c)
  unfolding after_encoding
  after_encoding_sound obs faults Code.ok h e =
      elim (Bool-cases (size_is_consistent obs obs.output)) [
        | inl fits ↦ rw fits (validate_hash_sound obs faults h (rw fits at e))
        | inr wrong ↦ absurd (ground (arith, rw wrong at e))
      ]
  after_encoding_sound obs faults c h e = absurd (ground arith)

  version_sound : (v : Option Bytes) → version_matches v ≡ true → text_of v ≡ schema_version_text
  unfolding version_matches text_of
  version_sound none t = cc
  version_sound (some s) t = same→eq (c_str s) schema_version_text t

  -- What a record, its fields in range, that passes `ax_obs_validate` satisfies: its schema version is the one of the code,
  -- its hash is the one of its own content, and the substrate raised no fault over it.
  pub obs_validate_ok :
      (obs : Record) (faults : Faults)
      → IsRecord obs
      → (obs_validate sub obs faults).0 ≡ Code.ok
      → (text_of obs.schema_version ≡ schema_version_text)
        × (c_str obs.obs_hash ≡ hash_of sub obs)
        × (sub.commit_fault obs_tag (obs_text obs false) ≡ false)
        × ((obs_validate sub obs faults).1 ≡ faults)
  unfolding obs_validate
  obs_validate_ok obs faults h e = elim (Bool-cases (version_matches obs.schema_version)) [
    | inr wrong ↦ absurd (ground (arith, rw wrong at e))
    | inl right ↦
        let (p, q, r) =
          after_encoding_sound obs faults (output_encoding obs obs.output) h (rw right at e) in
        (version_sound obs.schema_version right, p, q, rw right r)
  ]

  admitted-IsRecord : (in' : Input) → IsInput in' → IsRecord (admitted sub in')
  unfolding admitted
  admitted-IsRecord in' i =
      IsRecord-obs_hash (hash_of sub (described sub in')) (described-IsRecord sub laws in' i)

  output_encoding-admitted :
      (in' : Input)
      → IsStored (stored_text in')
      → output_encoding (admitted sub in') (some (stored_text in')) ≡ Code.ok
  unfolding output_encoding
  output_encoding-admitted in' stored =
      let text = stored_text in' in
      ground (
        arith,
        c_str_lem text (IsPrintable-Lacks text stored.printable),
        validate_encoding-IsStored text stored,
      )

  size_is_consistent-admitted :
      (in' : Input)
      → IsStored (stored_text in')
      → size_is_consistent (admitted sub in') (some (stored_text in')) ≡ true
  unfolding size_is_consistent admitted described
  size_is_consistent-admitted in' stored =
      let text = stored_text in' in
      ground (
        arith,
        c_str_lem text (IsPrintable-Lacks text stored.printable),
        stored_text-le sub laws in',
      )

  hash_of-obs_hash :
      (d : Record) (x : Bytes) → hash_of sub (record d { obs_hash = x }) ≡ hash_of sub d
  unfolding hash_of
  hash_of-obs_hash d x = ap (λ t. hex_loop (sub.commit obs_tag t)) (obs_text-obs_hash d x)

  -- Where the hash was stored, the canonical form fits and the substrate raised no fault.
  stored_hash_facts :
      (d r : Record)
      → IsRecord d
      → obs_compute_hash sub d ≡ (Code.ok, r)
      → (ltb (room canonical_buffer_size) (length (obs_text d false)) ≡ false)
        × (sub.commit_fault obs_tag (obs_text d false) ≡ false)
  stored_hash_facts d r h e =
      let run = sym (obs_compute_hash_lem sub laws d h) ∙ e in
      elim (Bool-cases (ltb (room canonical_buffer_size) (length (obs_text d false)))) [
        | inl over ↦ absurd (ok-ne-buffer (ap (λ (p : Code × Record). p.0) (rw over at run)))
        | inr fits ↦ elim (Bool-cases (sub.commit_fault obs_tag (obs_text d false))) [
          | inl fault ↦
              absurd (ok-ne-hash (ap (λ (p : Code × Record). p.0) (rw (fits, fault) at run)))
          | inr sound ↦ (fits, sound)
        ]
      ]
    where
      ok-ne-buffer : Code.buffer ≡ Code.ok → ⊥
      ok-ne-buffer e = cc

      ok-ne-hash : Code.hash ≡ Code.ok → ⊥
      ok-ne-hash e = cc

  validate_hash-stored :
      (d : Record) (faults : Faults)
      → IsRecord d
      → obs_compute_hash sub d ≡ (Code.ok, record d { obs_hash = hash_of sub d })
      → validate_hash sub (record d { obs_hash = hash_of sub d }) faults ≡ (Code.ok, faults)
  validate_hash-stored d faults h hashed =
      let r : Record = record d { obs_hash = hash_of sub d } in
      let (fits, sound) = stored_hash_facts d r h hashed in
      let again = validate_hash_lem r faults (IsRecord-obs_hash (hash_of sub d) h) in
      let text = obs_text-obs_hash d (hash_of sub d) in
      let equal : same (hash_of sub r) (c_str (hash_of sub d)) ≡ true =
        rw (hash_of-obs_hash d (hash_of sub d), c_str_lem (hash_of sub d) (hash_of-Lacks d))
          (same_refl (hash_of sub d)) in
      rw (again, text, fits, sound, equal)

  admitted_valid :
      (in' : Input) (faults : Faults)
      → IsInput in'
      → IsStored (stored_text in')
      → obs_compute_hash sub (described sub in') ≡ (Code.ok, admitted sub in')
      → obs_validate sub (admitted sub in') faults ≡ (Code.ok, faults)
  unfolding obs_validate after_encoding version_matches admitted described same c_str
  admitted_valid in' faults i stored hashed = rw (output_encoding-admitted in' stored) (
      rw (size_is_consistent-admitted in' stored) (
        validate_hash-stored (described sub in') faults (described-IsRecord sub laws in' i) hashed))

  -- Every record that `ax_obs_admit` accepts, of an input whose fields are in the range of their types,
  -- passes `ax_obs_validate`, which raises no flag.
  pub obs_validate-obs_admit :
      (buf_size : ℕ) (in' : Input) (ctx : AdmissionCtx) (faults faults' : Faults)
      → IsInput in'
      → (obs_admit sub buf_size in' ctx faults).ret ≡ Code.ok
      → obs_validate sub (obs_admit sub buf_size in' ctx faults).out faults' ≡ (Code.ok, faults')
  obs_validate-obs_admit buf_size in' ctx faults faults' i h =
      let a = obs_admit_done sub laws buf_size in' ctx faults i h in
      rw a.out (admitted_valid in' faults' i a.stored a.hashed)

  -- The payloads of the two records differ and have one commitment.
  abbrev pub Collision : Record → Record → Type 0
  Collision a b =
      (obs_text a false ≢ obs_text b false)
      × (sub.commit obs_tag (obs_text a false) ≡ sub.commit obs_tag (obs_text b false))

  hash_of_binds :
      (a b : Record)
      → IsRecord a
      → IsRecord b
      → IsDeclared a
      → IsDeclared b
      → hash_of sub a ≡ hash_of sub b
      → SameObservation a b ⊎ Collision a b
  unfolding hash_of
  hash_of_binds a b ha hb da db e =
      let x = obs_text a false in
      let y = obs_text b false in
      let commits =
        hex_loop_inj (sub.commit obs_tag x) (sub.commit obs_tag y) (laws.commit_bytes obs_tag x)
          (laws.commit_bytes obs_tag y) e in
      elim (Bool-cases (same x y)) [
        | inl equal ↦ inl (obs_text_inj a b ha hb da db (same→eq x y equal))
        | inr differ ↦ inr (apart x y differ, commits)
      ]
    where
      apart : (x y : Bytes) → same x y ≡ false → x ≢ y
      apart x y d e = true-ne-false (sym (same_refl x) ∙ ap (same x) e ∙ d)
        where
          true-ne-false : true ≡ false → ⊥
          true-ne-false k = cc

  -- Tampering is evident. Two valid records with the same `obs_hash`, their fields and enumerations in range, agree
  -- in every field of the observation; otherwise the payloads of these two records, which differ, are a collision of the
  -- substrate's commitment.
  pub obs_validate_binds :
      (a b : Record) (faults : Faults)
      → IsRecord a
      → IsRecord b
      → IsDeclared a
      → IsDeclared b
      → (obs_validate sub a faults).0 ≡ Code.ok
      → (obs_validate sub b faults).0 ≡ Code.ok
      → c_str a.obs_hash ≡ c_str b.obs_hash
      → SameObservation a b ⊎ Collision a b
  obs_validate_binds a b faults ha hb da db va vb e =
      let (_, hash_a, _, _) = obs_validate_ok a faults ha va in
      let (_, hash_b, _, _) = obs_validate_ok b faults hb vb in
      hash_of_binds a b ha hb da db (sym hash_a ∙ e ∙ hash_b)
