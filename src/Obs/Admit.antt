-- ===== src/Obs/Admit.antt =====
-- `ax_obs_admit` (src/obs.c): the record of an accepted observation, and what a refusal leaves behind.
use axioma_oracle.Prelude.{
  ℕ, ◌+◌, ◌^◌, ◌≤◌, ◌<◌, ◌≡◌, ◌≢◌, ◌⊎◌, inl, inr, refl, sym, ap, ◌∙◌, subst, true, false, ◌&&◌,
  ◌||◌, [], Option, none, some, arith, Bytes, All, All-take, IsByte, take, length, length-take, ltb,
  leb, if◌then◌else◌, Bool-cases, ltb→le,
}
use native.Mathlib.Decide.{dec_le}
use axioma_oracle.Types.{
  Code, Result-cases, Faults, IsParams, max_output_bytes, max_obs_bytes, max_model_id_bytes,
  max_oracle_id_bytes, hash_size, room, canonical_buffer_size, schema_version_text,
}
use axioma_oracle.Types.Completion
use axioma_oracle.Record.{Record, Input, AdmissionCtx}
use axioma_oracle.Validate.{is_nfc, validate_and_normalise}
use axioma_oracle.Validate.Utf8.{encode_all}
use axioma_oracle.Validate.Normalise.{unify, length-unify-false}
use axioma_oracle.Validate.Text.{IsStored, validate_and_normalise_done, validate_and_normalise_fail}
use axioma_oracle.Canonical.Escape.{text_of}
use axioma_oracle.Canonical.Observation.{IsRecord, obs_text, obs_canonicalise_text}
use axioma_oracle.Canonical.Writer.{written-done, written-buffer}
use axioma_oracle.Hash.{Substrate, IsSubstrate, obs_tag, compute_input_hash, obs_compute_hash}
use axioma_oracle.Hash.Compute.{hash_of, obs_compute_hash_lem, IsRecord-obs_hash}
use axioma_oracle.Obs.{
  obs_init, Admission, process_len, mark_truncated, size_fault, store_text, empty_output,
  input_hash_of, copy_fields, check_record, after_hash, finish, after_output, admit_output,
  obs_admit, input_is_schema_valid, id_too_long,
}
use axioma_oracle.Obs.Inputs.{
  IsIdentifier, id_is_well_formed-IsIdentifier, IsPermitted, IsSchemaValid, schema_sound,
}

unfoldable pub bytes_of : Option Bytes → Bytes
bytes_of none = []
bytes_of (some s) = s

-- The values that the fields of the structure can hold.
pub record IsInput (in' : Input) : Type 0 where
  pub seq : in'.ledger_seq < 2 ^ 64
  pub output_len : in'.output_len < 2 ^ 64
  pub output : All IsByte (bytes_of in'.output)
  pub model_id : All IsByte (text_of in'.model_id)
  pub oracle_id : All IsByte (text_of in'.oracle_id)
  pub params : IsParams in'.params

-- The text that is stored: the normal form of the output, cut at the limit.
unfoldable pub stored_text : Input → Bytes
stored_text in' = unify false (take (process_len in'.output_len) (bytes_of in'.output))

module _ (sub : Substrate) where
  -- The record that describes an input, before it is hashed.
  unfoldable pub described : Input → Record
  described in' = record {
    completion_state =
        if ltb max_output_bytes in'.output_len then Completion.truncated else in'.completion_state;
    failure_type = in'.failure_type;
    input_hash = input_hash_of sub in'.input in'.input_len;
    ledger_seq = in'.ledger_seq;
    model_id = in'.model_id;
    obs_hash = [];
    oracle_id = in'.oracle_id;
    output = some (stored_text in');
    output_size =
        if ltb max_output_bytes in'.output_len then in'.output_len else length (stored_text in');
    params = in'.params;
    schema_version = some schema_version_text;
  }

  unfoldable pub admitted : Input → Record
  admitted in' = record (described in') { obs_hash = hash_of sub (described in') }

  -- All that an accepting call of `ax_obs_admit` establishes.
  pub record IsAdmitted (in' : Input) (ctx : AdmissionCtx) (faults : Faults) (a : Admission)
      : Type 0 where
    pub out : a.out ≡ admitted in'
    pub ctx' : a.ctx ≡ record { last_ledger_seq = in'.ledger_seq; initialized = true }
    pub faults' : a.faults ≡ size_fault in' faults
    pub fits : length (obs_text (admitted in') true) ≤ max_obs_bytes
    pub hashed : obs_compute_hash sub (described in') ≡ (Code.ok, admitted in')
    pub newer : (ctx.initialized ≡ false) ⊎ (ctx.last_ledger_seq < in'.ledger_seq)
    pub model_id : IsIdentifier max_model_id_bytes in'.model_id
    pub oracle_id : IsIdentifier max_oracle_id_bytes in'.oracle_id
    pub pair : IsPermitted in'.completion_state in'.failure_type
    pub error_fits : (in'.completion_state ≢ Completion.error) ⊎ (in'.output_len ≤ max_output_bytes)
    pub stored : IsStored (stored_text in')

  module _ (laws : IsSubstrate sub) where
    input_hash_of-IsHash :
        (input : Option Bytes) (len : ℕ)
        → (length (input_hash_of sub input len) ≡ hash_size)
          × All IsByte (input_hash_of sub input len)
    unfolding input_hash_of compute_input_hash
    input_hash_of-IsHash none len = (refl, omega arith)
    input_hash_of-IsHash (some s) len = elim (Bool-cases (ltb 0 len)) [
      | inl more ↦ rw more (laws.sha256_size (take len s), laws.sha256_bytes (take len s))
      | inr empty ↦ rw empty (refl, omega arith)
    ]

    pub stored_text-le : (in' : Input) → length (stored_text in') ≤ max_output_bytes
    unfolding stored_text
    stored_text-le in' =
        let n = process_len in'.output_len in
        let s = take n (bytes_of in'.output) in
        ground (arith, length-unify-false s, length-take n (bytes_of in'.output))

    pub described-IsRecord : (in' : Input) → IsInput in' → IsRecord (described in')
    unfolding described
    described-IsRecord in' i = record {
      hash_len = (input_hash_of-IsHash in'.input in'.input_len).0;
      hash_bytes = (input_hash_of-IsHash in'.input in'.input_len).1;
      seq = i.seq;
      size = ground (arith, stored_text-le in', i.output_len);
      params = i.params;
    }

    -- What the code assigns is the description.
    copy_fields-store_text :
        (in' : Input)
        → copy_fields sub in' (store_text (mark_truncated in' obs_init) (stored_text in'))
          ≡ described in'
    unfolding copy_fields store_text mark_truncated obs_init described
    copy_fields-store_text in' = ground arith

    copy_fields-empty_output :
        (in' : Input)
        → in'.output_len ≡ 0
        → stored_text in' ≡ []
        → copy_fields sub in' (empty_output (mark_truncated in' obs_init)) ≡ described in'
    unfolding copy_fields mark_truncated obs_init described
    copy_fields-empty_output in' h k = ground arith

    -- An accepting end of the call: it stored the hash of the record, and the record fits.
    finish_done :
        (in' : Input) (ctx : AdmissionCtx) (faults : Faults) (out : Record)
        → IsRecord (copy_fields sub in' out)
        → (finish sub in' ctx faults out).ret ≡ Code.ok
        → let r = copy_fields sub in' out in
          let r' : Record = record r { obs_hash = hash_of sub r } in
          ((finish sub in' ctx faults out).out ≡ r')
          × ((finish sub in' ctx faults out).ctx
              ≡ record { last_ledger_seq = in'.ledger_seq; initialized = true })
          × ((finish sub in' ctx faults out).faults ≡ faults)
          × (length (obs_text r' true) ≤ max_obs_bytes)
          × (obs_compute_hash sub r ≡ (Code.ok, r'))
    unfolding finish after_hash check_record
    finish_done in' ctx faults out valid h =
        let r = copy_fields sub in' out in
        let r' : Record = record r { obs_hash = hash_of sub r } in
        let run = obs_compute_hash_lem sub laws r valid in
        let written =
          obs_canonicalise_text (max_obs_bytes + 1) r' true
            (IsRecord-obs_hash (hash_of sub r) valid) in
        elim (Bool-cases (ltb (room canonical_buffer_size) (length (obs_text r false)))) [
          | inl over ↦ absurd (ground (arith, h, run, over))
          | inr short ↦ elim (Bool-cases (sub.commit_fault obs_tag (obs_text r false))) [
            | inl fault ↦ absurd (ground (arith, h, run, short, fault))
            | inr sound ↦ elim (Bool-cases (ltb max_obs_bytes (length (obs_text r' true)))) [
              | inl large ↦ absurd (
                  ground (
                    arith,
                    h,
                    run,
                    short,
                    sound,
                    written,
                    large,
                    written-buffer (max_obs_bytes + 1) (obs_text r' true) (omega arith)
                        (unfold room in ground arith),
                  ))
              | inr fits ↦
                  let w =
                    written-done (max_obs_bytes + 1) (obs_text r' true) (omega arith)
                      (unfold room in ground arith) in
                  (
                    ground (arith, run, short, sound, written, w),
                    ground (arith, run, short, sound, written, w),
                    ground (arith, run, short, sound, written, w),
                    ltb→le _ _ fits,
                    run ∙ rw (short, sound),
                  )
            ]
          ]
        ]

    -- The part of the conclusion that the code below the guards establishes.
    abbrev Stores : Input → Faults → Admission → Type 0
    Stores in' faults a =
        (a.out ≡ admitted in')
        × (a.ctx ≡ record { last_ledger_seq = in'.ledger_seq; initialized = true })
        × (a.faults ≡ faults)
        × (length (obs_text (admitted in') true) ≤ max_obs_bytes)
        × (obs_compute_hash sub (described in') ≡ (Code.ok, admitted in'))
        × IsStored (stored_text in')

    finish-Stores :
        (in' : Input) (ctx : AdmissionCtx) (faults : Faults) (out : Record)
        → IsInput in'
        → copy_fields sub in' out ≡ described in'
        → IsStored (stored_text in')
        → (finish sub in' ctx faults out).ret ≡ Code.ok
        → Stores in' faults (finish sub in' ctx faults out)
    unfolding admitted
    finish-Stores in' ctx faults out i same stored h =
        let valid : IsRecord (copy_fields sub in' out) =
          subst IsRecord (sym same) (described-IsRecord in' i) in
        let (p, q, r, s, t) = finish_done in' ctx faults out valid h in
        let form = λ (d : Record). record d { obs_hash = hash_of sub d } in
        (
          p ∙ ap form same,
          q,
          r,
          subst (λ d. length (obs_text (form d) true) ≤ max_obs_bytes) same s,
          subst (λ d. obs_compute_hash sub d ≡ (Code.ok, form d)) same t,
          stored,
        )

    nil-IsStored : IsStored []
    unfolding encode_all is_nfc
    nil-IsStored = record { utf8 = ([], tt, refl); bytes = tt; printable = tt; nfc = refl }

    stored_text-none : (in' : Input) → in'.output_len ≡ 0 → stored_text in' ≡ []
    unfolding stored_text unify
    stored_text-none in' h = rw h

    admit_output_done :
        (buf_size : ℕ) (in' : Input) (ctx : AdmissionCtx) (faults : Faults) (o : Option Bytes)
        → in'.output ≡ o
        → IsInput in'
        → IsSchemaValid in'
        → (admit_output sub buf_size in' ctx (mark_truncated in' obs_init) faults o).ret ≡ Code.ok
        → Stores in' faults
            (admit_output sub buf_size in' ctx (mark_truncated in' obs_init) faults o)
    unfolding admit_output after_output stored_text bytes_of
    admit_output_done buf_size in' ctx faults none e i v h =
        let empty : in'.output_len ≡ 0 = v.output_given (rw e) in
        let nil = stored_text-none in' empty in
        finish-Stores in' ctx faults (empty_output (mark_truncated in' obs_init)) i
          (copy_fields-empty_output in' empty nil) (subst IsStored (sym nil) nil-IsStored) h
    admit_output_done buf_size in' ctx faults (some s) e i v h =
        elim (Bool-cases (ltb 0 in'.output_len)) [
          | inr none_given ↦
              let empty : in'.output_len ≡ 0 = ground arith in
              let nil = stored_text-none in' empty in
              let same : admit_output sub buf_size in' ctx (mark_truncated in' obs_init) faults
                    (some s)
                  ≡ finish sub in' ctx faults (empty_output (mark_truncated in' obs_init)) =
                rw none_given in
              subst (Stores in' faults) (sym same) (
                finish-Stores in' ctx faults (empty_output (mark_truncated in' obs_init)) i
                  (copy_fields-empty_output in' empty nil) (subst IsStored (sym nil) nil-IsStored)
                  (subst (λ (a : Admission). a.ret ≡ Code.ok) same h))
          | inl given ↦
              let marked = mark_truncated in' obs_init in
              let cut = take (process_len in'.output_len) s in
              let run = validate_and_normalise buf_size cut faults in
              let same : admit_output sub buf_size in' ctx marked faults (some s)
                  ≡ after_output sub in' ctx marked run =
                rw given in
              let h' = subst (λ (a : Admission). a.ret ≡ Code.ok) same h in
              let bytes : All IsByte cut =
                All-take IsByte (process_len in'.output_len) s
                  (subst (λ o. All IsByte (bytes_of o)) e i.output) in
              elim (Result-cases run.0) [
                | inr (code, failed) ↦ absurd (
                    ground
                      (arith, h', failed, validate_and_normalise_fail buf_size cut faults failed))
                | inl (text, accepted) ↦
                    let (_, normal, _, stored, quiet) =
                      validate_and_normalise_done buf_size cut faults bytes accepted in
                    let stores : after_output sub in' ctx marked run
                        ≡ finish sub in' ctx faults (store_text marked text) =
                      ap (after_output sub in' ctx marked) (λ k. (accepted k, quiet k)) in
                    let text_is : text ≡ stored_text in' = normal ∙ rw e in
                    let described_as : copy_fields sub in' (store_text marked text)
                        ≡ described in' =
                      ap (λ t. copy_fields sub in' (store_text marked t)) text_is
                      ∙ copy_fields-store_text in' in
                    subst (Stores in' faults) (sym (same ∙ stores)) (
                      finish-Stores in' ctx faults (store_text marked text) i described_as
                        (subst IsStored text_is stored)
                        (subst (λ (a : Admission). a.ret ≡ Code.ok) stores h'))
              ]
        ]

    -- An accepting `ax_obs_admit` of an input whose fields are in the range of their types, whatever the
    -- size of the buffer: the input was newer than the last
    -- accepted one, its identifiers and its pair of state and failure are in order, and the record
    -- is the one that describes it. The output is stored in normal form, as UTF-8 without forbidden
    -- controls and combining marks; over the limit it is cut, marked TRUNCATED with its original size
    -- and the size flag raised; no other flag changes. The hash is that of the record, and the record
    -- with it fits 65536 bytes. The context remembers the sequence number.
    pub obs_admit_done :
        (buf_size : ℕ) (in' : Input) (ctx : AdmissionCtx) (faults : Faults)
        → IsInput in'
        → (obs_admit sub buf_size in' ctx faults).ret ≡ Code.ok
        → IsAdmitted in' ctx faults (obs_admit sub buf_size in' ctx faults)
    unfolding obs_admit
    obs_admit_done buf_size in' ctx faults i h =
        let old = ctx.initialized && leb in'.ledger_seq ctx.last_ledger_seq in
        let long =
          id_too_long in'.model_id max_model_id_bytes
          || id_too_long in'.oracle_id max_oracle_id_bytes in
        elim (Bool-cases old) [
          | inl stale ↦ absurd (ground (arith, rw stale at h))
          | inr fresh ↦ elim (Bool-cases long) [
            | inl over ↦ absurd (ground (arith, rw (fresh, over) at h))
            | inr short ↦ elim (Bool-cases (input_is_schema_valid in')) [
              | inr broken ↦ absurd (ground (arith, rw (fresh, short, broken) at h))
              | inl valid ↦
                  let v = schema_sound in' valid in
                  let (out, ctx', faults', fits, hashed, stored) =
                    admit_output_done buf_size in' ctx (size_fault in' faults) in'.output refl i v
                      (rw (fresh, short, valid) at h) in
                  record {
                    out = rw (fresh, short, valid) out;
                    ctx' = rw (fresh, short, valid) ctx';
                    faults' = rw (fresh, short, valid) faults';
                    fits = fits;
                    hashed = hashed;
                    newer = ground (arith, fresh);
                    model_id =
                        id_is_well_formed-IsIdentifier in'.model_id max_model_id_bytes i.model_id
                          (ground (arith, short)) v.model_id;
                    oracle_id =
                        id_is_well_formed-IsIdentifier in'.oracle_id max_oracle_id_bytes i.oracle_id
                          (ground (arith, short)) v.oracle_id;
                    pair = v.pair;
                    error_fits = elim (dec_le in'.output_len max_output_bytes) [
                      | yes fits ↦ inr fits
                      | no over ↦ inl (λ e. over (v.error_fits e))
                    ];
                    stored = stored;
                  }
            ]
          ]
        ]
