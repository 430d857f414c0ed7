-- ===== src/Obs/Sequence.antt =====
-- The ordering guard of `ax_obs_admit` (src/obs.c): when it refuses, and what it makes of a series of
-- calls on one admission context.
use axioma_oracle.Prelude.{
  ℕ, ◌+◌, ◌<◌, ◌≡◌, ◌≢◌, ◌↔◌, ◌⊎◌, inl, inr, refl, ap, ◌∙◌, sym, subst, true, false, ◌&&◌, ◌||◌,
  List, [], ◌∷◌, Option, none, some, arith, Bytes, All, take, ltb, leb, Bool-cases,
}
use axioma_oracle.Types.{
  Code, Result, done, fail, Faults, l3_fault_init, max_obs_bytes, max_model_id_bytes,
  max_oracle_id_bytes, canonical_buffer_size,
}
use axioma_oracle.Record.{Record, Input, AdmissionCtx}
use axioma_oracle.Validate.{validate_and_normalise}
use axioma_oracle.Validate.Text.{validate_and_normalise_fail}
use axioma_oracle.Canonical.{obs_canonicalise}
use axioma_oracle.Hash.{Substrate, IsSubstrate, obs_compute_hash, commit_payload}
use axioma_oracle.Obs.{
  obs_init, process_len, mark_truncated, size_fault, store_text, empty_output, copy_fields,
  check_record, after_hash, finish, after_output, admit_output, obs_admit, id_too_long,
  input_is_schema_valid,
}
use axioma_oracle.Obs.Admit.{IsInput, admitted, described, obs_admit_done}
use axioma_oracle.Obs.Refuse.{obs_admit-Refused}

-- The codes that belong to the guards.
abbrev IsLate : Code → Type 0
IsLate e = (e ≢ Code.ordering) × (e ≢ Code.schema)

-- Each number is above the one before it, and the first above the last one that the context holds.
abbrev pub IsAscending : AdmissionCtx → List ℕ → Type 0
IsAscending ctx [] = Unit
IsAscending ctx (n ∷ ns) =
    ((ctx.initialized ≡ false) ⊎ (ctx.last_ledger_seq < n))
    × IsAscending (record { last_ledger_seq = n; initialized = true }) ns

-- The number of a record is kept when the call returned AX_OK.
unfoldable pub keep : Code → ℕ → List ℕ → List ℕ
keep Code.ok n later = n ∷ later
keep e n later = later

keep-IsAscending :
    (e : Code) (ctx ctx' : AdmissionCtx) (n : ℕ) (later : List ℕ)
    → (e ≡ Code.ok
        → (ctx' ≡ record { last_ledger_seq = n; initialized = true })
          × ((ctx.initialized ≡ false) ⊎ (ctx.last_ledger_seq < n)))
    → (e ≢ Code.ok → ctx' ≡ ctx)
    → IsAscending ctx' later
    → IsAscending ctx (keep e n later)
unfolding keep
keep-IsAscending Code.ok ctx ctx' n later good bad h =
    ((good refl).1, subst (λ c. IsAscending c later) (good refl).0 h)
keep-IsAscending e ctx ctx' n later good bad h = subst (λ c. IsAscending c later) (bad (λ k. cc)) h

module _ (sub : Substrate) where
  commit_payload-IsLate : (o : Record) (r : Result Bytes) → IsLate (commit_payload sub o r).0
  unfolding commit_payload
  commit_payload-IsLate o (fail e) = (λ k. cc, λ k. cc)
  commit_payload-IsLate o (done p) = (λ k. ground arith, λ k. ground arith)

  after_hash-IsLate :
      (in' : Input) (ctx : AdmissionCtx) (faults : Faults) (e : Code) (out : Record)
      → IsLate e
      → IsLate (after_hash in' ctx faults (e, out)).ret
  unfolding after_hash
  after_hash-IsLate in' ctx faults Code.ok out h =
      checked (obs_canonicalise (max_obs_bytes + 1) out true)
    where
      checked : (r : Result Bytes) → IsLate (check_record in' ctx faults out r).ret
      checked (done text) = unfold check_record in (λ k. cc, λ k. cc)
      checked (fail e) = unfold check_record in (λ k. cc, λ k. cc)
  after_hash-IsLate in' ctx faults e out h = h

  finish-IsLate :
      (in' : Input) (ctx : AdmissionCtx) (faults : Faults) (out : Record)
      → IsLate (finish sub in' ctx faults out).ret
  unfolding finish obs_compute_hash
  finish-IsLate in' ctx faults out =
      let cleared : Record = record (copy_fields sub in' out) { obs_hash = [] } in
      let run = commit_payload sub cleared (obs_canonicalise canonical_buffer_size cleared false) in
      after_hash-IsLate in' ctx faults run.0 run.1
        (commit_payload-IsLate cleared (obs_canonicalise canonical_buffer_size cleared false))

  after_output-IsLate :
      (in' : Input) (ctx : AdmissionCtx) (out : Record) (r : Result Bytes) (faults : Faults)
      → ((e : Code) → r ≡ fail e → IsLate e)
      → IsLate (after_output sub in' ctx out (r, faults)).ret
  unfolding after_output
  after_output-IsLate in' ctx out (done text) faults h =
      finish-IsLate in' ctx faults (store_text out text)
  after_output-IsLate in' ctx out (fail e) faults h = h e refl

  normalise-IsLate :
      (buf_size : ℕ) (s : Bytes) (faults : Faults) (e : Code)
      → (validate_and_normalise buf_size s faults).0 ≡ fail e
      → IsLate e
  normalise-IsLate buf_size s faults e h =
      let f = validate_and_normalise_fail buf_size s faults h in
      (λ k. ground (arith, f), λ k. ground (arith, f))

  admit_output-IsLate :
      (buf_size : ℕ) (in' : Input) (ctx : AdmissionCtx) (out : Record) (faults : Faults)
      (o : Option Bytes)
      → IsLate (admit_output sub buf_size in' ctx out faults o).ret
  unfolding admit_output
  admit_output-IsLate buf_size in' ctx out faults none =
      finish-IsLate in' ctx faults (empty_output out)
  admit_output-IsLate buf_size in' ctx out faults (some s) =
      let cut = take (process_len in'.output_len) s in
      let run = validate_and_normalise buf_size cut faults in
      elim (Bool-cases (ltb 0 in'.output_len)) [
        | inl given ↦
            rw given
              (after_output-IsLate in' ctx out run.0 run.1 (normalise-IsLate buf_size cut faults))
        | inr empty ↦ rw empty (finish-IsLate in' ctx faults (empty_output out))
      ]

  -- The three guards, in their order: AX_ERR_ORDERING is returned exactly when the context has accepted
  -- an observation whose sequence number is not below the new one; and AX_ERR_SCHEMA exactly when
  -- that guard and the length bounds pass and the schema check does not.
  pub obs_admit_guards :
      (buf_size : ℕ) (in' : Input) (ctx : AdmissionCtx) (faults : Faults)
      → let ret = (obs_admit sub buf_size in' ctx faults).ret in
        let stale = ctx.initialized && leb in'.ledger_seq ctx.last_ledger_seq in
        let long =
          id_too_long in'.model_id max_model_id_bytes
          || id_too_long in'.oracle_id max_oracle_id_bytes in
        ((ret ≡ Code.ordering) ↔ (stale ≡ true))
        × ((ret ≡ Code.schema)
            ↔ ((stale ≡ false) × (long ≡ false) × (input_is_schema_valid in' ≡ false)))
  unfolding obs_admit
  obs_admit_guards buf_size in' ctx faults =
      let late =
        admit_output-IsLate buf_size in' ctx (mark_truncated in' obs_init) (size_fault in' faults)
          in'.output in
      (
        (λ e. ground (arith, late), λ e. ground (arith, late)),
        (
          λ e. (ground (arith, late), ground (arith, late), ground (arith, late)),
          λ (p, q, r). ground (arith, late),
        ),
      )

  -- A caller's series of calls on one context, each with its buffer and fresh fault flags: the sequence
  -- numbers of the accepted records, in order.
  unfoldable pub accepted : AdmissionCtx → List (ℕ × Input) → List ℕ
  accepted ctx [] = []
  accepted ctx ((buf_size, in') ∷ rest) =
      let a = obs_admit sub buf_size in' ctx l3_fault_init in
      keep a.ret a.out.ledger_seq (accepted a.ctx rest)

  module _ (laws : IsSubstrate sub) where
    -- On one context, for inputs whose fields are in range, the accepted records carry strictly increasing sequence numbers, all above the one
    -- that the context held at the start, whatever calls are refused in between.
    pub accepted-IsAscending :
        (ctx : AdmissionCtx) (calls : List (ℕ × Input))
        → All (λ (c : ℕ × Input). IsInput c.1) calls
        → IsAscending ctx (accepted ctx calls)
    unfolding accepted
    accepted-IsAscending ctx [] _ = tt
    accepted-IsAscending ctx ((buf_size, in') ∷ rest) (i, is) =
        let a = obs_admit sub buf_size in' ctx l3_fault_init in
        keep-IsAscending a.ret ctx a.ctx a.out.ledger_seq (accepted a.ctx rest)
          (λ ok.
            let d = obs_admit_done sub laws buf_size in' ctx l3_fault_init i ok in
            let seq : a.out.ledger_seq ≡ in'.ledger_seq =
              ap (λ (r : Record). r.ledger_seq) d.out ∙ unfold admitted described in refl in
            (
              d.ctx' ∙ ap (λ n. record { last_ledger_seq = n; initialized = true }) (sym seq),
              subst (λ n. (ctx.initialized ≡ false) ⊎ (ctx.last_ledger_seq < n)) (sym seq) d.newer,
            ))
          (λ refused. (obs_admit-Refused sub buf_size in' ctx l3_fault_init refused).0)
          (accepted-IsAscending a.ctx rest is)
