-- ===== src/Obs/Refuse.antt =====
-- `ax_obs_admit` (src/obs.c) fails closed.
use axioma_oracle.Prelude.{
  ℕ, ◌+◌, ◌≡◌, ◌≢◌, ◌⊎◌, inl, inr, refl, true, false, ◌&&◌, ◌||◌, [], Option, none, some, arith,
  Bytes, take, ltb, leb, Bool-cases,
}
use axioma_oracle.Types.{
  Code, Result, done, fail, Faults, l3_fault_any, max_obs_bytes, max_model_id_bytes,
  max_oracle_id_bytes, canonical_buffer_size,
}
use axioma_oracle.Record.{Record, Input, AdmissionCtx}
use axioma_oracle.Validate.{validate_and_normalise}
use axioma_oracle.Validate.Text.{validate_and_normalise_fail}
use axioma_oracle.Canonical.{obs_canonicalise}
use axioma_oracle.Hash.{Substrate, obs_compute_hash, commit_payload}
use axioma_oracle.Obs.{
  obs_init, Admission, process_len, mark_truncated, size_fault, store_text, empty_output,
  copy_fields, check_record, after_hash, finish, after_output, admit_output, obs_admit, id_too_long,
  input_is_schema_valid,
}

-- What a refusal leaves: the context as it was, no hash in the record, and a fault flag.
abbrev pub Refused : AdmissionCtx → Admission → Type 0
Refused ctx a = (a.ctx ≡ ctx) × (a.out.obs_hash ≡ []) × (l3_fault_any a.faults ≡ true)

abbrev Closed : AdmissionCtx → Admission → Type 0
Closed ctx a = (a.ret ≡ Code.ok) ⊎ Refused ctx a

module _ (sub : Substrate) where
  check_record-Closed :
      (in' : Input) (ctx : AdmissionCtx) (faults : Faults) (out : Record) (r : Result Bytes)
      → Closed ctx (check_record in' ctx faults out r)
  unfolding check_record l3_fault_any
  check_record-Closed in' ctx faults out (done text) = inl refl
  check_record-Closed in' ctx faults out (fail e) = inr (refl, refl, ground arith)

  after_hash-Closed :
      (in' : Input) (ctx : AdmissionCtx) (faults : Faults) (e : Code) (out : Record)
      → (e ≢ Code.ok → out.obs_hash ≡ [])
      → Closed ctx (after_hash in' ctx faults (e, out))
  unfolding after_hash l3_fault_any
  after_hash-Closed in' ctx faults Code.ok out h =
      check_record-Closed in' ctx faults out (obs_canonicalise (max_obs_bytes + 1) out true)
  after_hash-Closed in' ctx faults e out h = inr (refl, h (cc), ground arith)

  -- A failing `ax_obs_compute_hash` leaves no hash.
  obs_compute_hash-obs_hash :
      (obs : Record)
      → (obs_compute_hash sub obs).0 ≢ Code.ok
      → (obs_compute_hash sub obs).1.obs_hash ≡ []
  unfolding obs_compute_hash
  obs_compute_hash-obs_hash obs =
      from (record obs { obs_hash = [] })
        (obs_canonicalise canonical_buffer_size (record obs { obs_hash = [] }) false) refl
    where
      from :
          (o : Record) (r : Result Bytes)
          → o.obs_hash ≡ []
          → (commit_payload sub o r).0 ≢ Code.ok
          → (commit_payload sub o r).1.obs_hash ≡ []
      from o (fail e) h k = unfold commit_payload in h
      from o (done p) h k = unfold commit_payload in ground arith

  finish-Closed :
      (in' : Input) (ctx : AdmissionCtx) (faults : Faults) (out : Record)
      → Closed ctx (finish sub in' ctx faults out)
  unfolding finish
  finish-Closed in' ctx faults out =
      let run = obs_compute_hash sub (copy_fields sub in' out) in
      after_hash-Closed in' ctx faults run.0 run.1
        (obs_compute_hash-obs_hash (copy_fields sub in' out))

  after_output-Closed :
      (in' : Input) (ctx : AdmissionCtx) (out : Record) (r : Result Bytes) (faults : Faults)
      → out.obs_hash ≡ []
      → ((e : Code) → r ≡ fail e → l3_fault_any faults ≡ true)
      → Closed ctx (after_output sub in' ctx out (r, faults))
  unfolding after_output
  after_output-Closed in' ctx out (done text) faults h k =
      finish-Closed in' ctx faults (store_text out text)
  after_output-Closed in' ctx out (fail e) faults h k = inr (refl, h, k e refl)

  normalise_flags :
      (buf_size : ℕ) (s : Bytes) (faults : Faults) (e : Code)
      → (validate_and_normalise buf_size s faults).0 ≡ fail e
      → l3_fault_any (validate_and_normalise buf_size s faults).1 ≡ true
  unfolding l3_fault_any
  normalise_flags buf_size s faults e h =
      ground (arith, validate_and_normalise_fail buf_size s faults h)

  admit_output-Closed :
      (buf_size : ℕ) (in' : Input) (ctx : AdmissionCtx) (out : Record) (faults : Faults)
      (o : Option Bytes)
      → out.obs_hash ≡ []
      → Closed ctx (admit_output sub buf_size in' ctx out faults o)
  unfolding admit_output
  admit_output-Closed buf_size in' ctx out faults none h =
      finish-Closed in' ctx faults (empty_output out)
  admit_output-Closed buf_size in' ctx out faults (some s) h =
      let cut = take (process_len in'.output_len) s in
      let run = validate_and_normalise buf_size cut faults in
      elim (Bool-cases (ltb 0 in'.output_len)) [
        | inl given ↦
            rw given
              (after_output-Closed in' ctx out run.0 run.1 h (normalise_flags buf_size cut faults))
        | inr empty ↦ rw empty (finish-Closed in' ctx faults (empty_output out))
      ]

  mark_truncated-obs_hash : (in' : Input) → (mark_truncated in' obs_init).obs_hash ≡ []
  unfolding mark_truncated obs_init
  mark_truncated-obs_hash in' = ground arith

  obs_admit-Closed :
      (buf_size : ℕ) (in' : Input) (ctx : AdmissionCtx) (faults : Faults)
      → Closed ctx (obs_admit sub buf_size in' ctx faults)
  unfolding obs_admit obs_init l3_fault_any
  obs_admit-Closed buf_size in' ctx faults =
      let old = ctx.initialized && leb in'.ledger_seq ctx.last_ledger_seq in
      let long =
        id_too_long in'.model_id max_model_id_bytes
        || id_too_long in'.oracle_id max_oracle_id_bytes in
      elim (Bool-cases old) [
        | inl stale ↦ rw stale (inr (refl, refl, ground arith))
        | inr fresh ↦ elim (Bool-cases long) [
          | inl over ↦ rw (fresh, over) (inr (refl, refl, ground arith))
          | inr short ↦ elim (Bool-cases (input_is_schema_valid in')) [
            | inr broken ↦ rw (fresh, short, broken) (inr (refl, refl, ground arith))
            | inl valid ↦
                rw (fresh, short, valid)
                  (admit_output-Closed buf_size in' ctx (mark_truncated in' obs_init)
                    (size_fault in' faults) in'.output (mark_truncated-obs_hash in'))
          ]
        ]
      ]

  -- `ax_obs_admit` fails closed, on every input and in every state: when it does not return AX_OK, the
  -- admission context is unchanged, the record holds no hash and a fault flag is raised. (A write into a buffer of
  -- size 0, where C leaves open what follows, is left aside.)
  pub obs_admit-Refused :
      (buf_size : ℕ) (in' : Input) (ctx : AdmissionCtx) (faults : Faults)
      → (obs_admit sub buf_size in' ctx faults).ret ≢ Code.ok
      → Refused ctx (obs_admit sub buf_size in' ctx faults)
  obs_admit-Refused buf_size in' ctx faults h = elim (obs_admit-Closed buf_size in' ctx faults) [
    | inl ok ↦ absurd (h ok)
    | inr refused ↦ refused
  ]
