-- ===== src/Obs/Limits.antt =====
-- How much output `ax_obs_admit` (src/obs.c) can take with a given buffer.
use axioma_oracle.Prelude.{
  ◌≤◌, ℕ, ◌<◌, ◌≡◌, sym, subst, true, false, ◌&&◌, ◌||◌, some, arith, Bytes, All, All-take, IsByte,
  take, length, ltb, leb,
}
use axioma_oracle.Types.{Code, Result, done, fail, Faults, max_model_id_bytes, max_oracle_id_bytes}
use axioma_oracle.Record.{Record, Input, AdmissionCtx}
use axioma_oracle.Validate.{validate_and_normalise, after_normalise}
use axioma_oracle.Validate.Utf8.{IsUtf8, validate_utf8_iff}
use axioma_oracle.Validate.Normalise.{unify, normalise_lem}
use axioma_oracle.Hash.{Substrate}
use axioma_oracle.Obs.{
  process_len, mark_truncated, size_fault, after_output, admit_output, obs_admit, obs_init,
  id_too_long, input_is_schema_valid,
}

normalise_over :
    (buf_size : ℕ) (s : Bytes) (faults : Faults)
    → All IsByte s
    → IsUtf8 s
    → 0 < buf_size
    → buf_size ≤ length (unify false s)
    → (validate_and_normalise buf_size s faults).0 ≡ fail Code.buffer
unfolding validate_and_normalise after_normalise
normalise_over buf_size s faults b u p h =
    ground (arith, p, h, normalise_lem buf_size s, (validate_utf8_iff s b).1 u)

module _ (sub : Substrate) where
  after_output_fail :
      (in' : Input) (ctx : AdmissionCtx) (out : Record) (run : Result Bytes × Faults) (e : Code)
      → run.0 ≡ fail e
      → (after_output sub in' ctx out run).ret ≡ e
  unfolding after_output
  after_output_fail in' ctx out (done t, f) e h = absurd (ground arith)
  after_output_fail in' ctx out (fail d, f) e h = ground arith

  -- In a buffer that is not empty, an input that passes the guards, whose output, cut at the limit, is UTF-8 but in
  -- normal form does not leave the terminator's place in the buffer, is refused with AX_ERR_BUFFER: the limit on the output
  -- does not help if the caller's buffer is one byte short of it.
  pub obs_admit_buffer :
      (buf_size : ℕ) (in' : Input) (ctx : AdmissionCtx) (faults : Faults) (s : Bytes)
      → All IsByte s
      → ctx.initialized && leb in'.ledger_seq ctx.last_ledger_seq ≡ false
      → id_too_long in'.model_id max_model_id_bytes || id_too_long in'.oracle_id max_oracle_id_bytes
        ≡ false
      → input_is_schema_valid in' ≡ true
      → in'.output ≡ some s
      → 0 < in'.output_len
      → IsUtf8 (take (process_len in'.output_len) s)
      → 0 < buf_size
      → buf_size ≤ length (unify false (take (process_len in'.output_len) s))
      → (obs_admit sub buf_size in' ctx faults).ret ≡ Code.buffer
  unfolding obs_admit admit_output
  obs_admit_buffer buf_size in' ctx faults s b fresh short valid given some_len utf8 some_room
        small =
      let cut = take (process_len in'.output_len) s in
      let run = validate_and_normalise buf_size cut (size_fault in' faults) in
      let positive : ltb 0 in'.output_len ≡ true = ground arith in
      rw (fresh, short, valid)
        (subst
          (λ o.
            (admit_output sub buf_size in' ctx (mark_truncated in' obs_init) (size_fault in' faults)
              o).ret
            ≡ Code.buffer)
          (sym given)
          (rw positive (
            after_output_fail in' ctx (mark_truncated in' obs_init) run Code.buffer (
              normalise_over buf_size cut (size_fault in' faults)
                (All-take IsByte (process_len in'.output_len) s b) utf8 some_room small))))
