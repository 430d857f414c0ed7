-- ===== src/Gateway/Commit/Landed.antt =====
-- What a commit that returns 0 has put into the ledger (gateway/src/gw_main.c).
use axioma_oracle.Prelude.{
  leb, ℕ, ◌≤◌, ◌≡◌, ◌∙◌, refl, ap, subst, Bool, true, false, List, [], ◌∷◌, ◌++◌, none, some,
  Option, arith, Bytes, length, c_str, ◌==◌,
}
use axioma_oracle.Types.{Code, done, max_obs_bytes, l3_fault_init, canonical_buffer_size}
use axioma_oracle.Record.{Record, Input, AdmissionCtx}
use axioma_oracle.Canonical.{obs_canonicalise}
use axioma_oracle.Canonical.Observation.{obs_text, obs_canonicalise_lem}
use axioma_oracle.Hash.{Substrate, IsSubstrate}
use axioma_oracle.Hash.Compute.{hash_of, IsRecord-obs_hash}
use axioma_oracle.Obs.{obs_admit, obs_validate}
use axioma_oracle.Obs.Admit.{IsInput, described, admitted, described-IsRecord, obs_admit_done}
use axioma_oracle.Obs.Valid.{obs_validate-obs_admit}
use axioma_oracle.Gateway.Ledger.{Chain, Ledger, gwl_append}
use axioma_oracle.Gateway.Ledger.Append.{IsChain, IsLedger, gwl_append_done}
use axioma_oracle.Gateway.Commit.{
  Gateway, Receipt, output_buf_size, tag_obs, hex32, after_append, after_canonical, after_validate,
  after_admit, commit_input,
}

module _ {Ctx : Type 0} (sub : Substrate) (laws : IsSubstrate sub) (chain : Chain Ctx) (disk : ℕ)
    (synced : Bool) (mirror_disk : ℕ) where
  obs_text-nonempty : (in' : Input) → (length (obs_text (admitted sub in') true) == 0) ≡ false
  unfolding obs_text
  obs_text-nonempty in' = ground arith

  canonical_lem :
      (in' : Input)
      → IsInput in'
      → length (obs_text (admitted sub in') true) ≤ max_obs_bytes
      → obs_canonicalise canonical_buffer_size (admitted sub in') true
        ≡ done (obs_text (admitted sub in') true)
  unfolding admitted
  canonical_lem in' i fits =
      let r =
        IsRecord-obs_hash (hash_of sub (described sub in')) (described-IsRecord sub laws in' i) in
      let short : leb canonical_buffer_size (length (obs_text (admitted sub in') true)) ≡ false =
        ground (arith, fits) in
      obs_canonicalise_lem canonical_buffer_size (admitted sub in') true r ∙ rw short refl

  -- Once an observation, its input's fields in range, is admitted, neither its validation nor its canonical form can stop the commit: the
  -- result is that of the append of the canonical text.
  pub commit_input_lem :
      (st : Gateway Ctx) (in' : Input)
      → IsInput in'
      → (obs_admit sub output_buf_size in' st.adm l3_fault_init).ret ≡ Code.ok
      → commit_input sub chain disk synced mirror_disk st in'
        ≡ after_append sub chain
            (admitted sub in')
            (record st { adm = record { last_ledger_seq = in'.ledger_seq; initialized = true } })
            (gwl_append chain st.ledger
              (some tag_obs)
              (some (obs_text (admitted sub in') true))
              disk
              synced
              mirror_disk)
  unfolding commit_input after_admit after_validate after_canonical
  commit_input_lem st in' i ok =
      let a = obs_admit sub output_buf_size in' st.adm l3_fault_init in
      let d = obs_admit_done sub laws output_buf_size in' st.adm l3_fault_init i ok in
      let valid : (obs_validate sub (admitted sub in') l3_fault_init).0 ≡ Code.ok =
        ap (λ v. v.0)
          (subst (λ o. obs_validate sub o l3_fault_init ≡ (Code.ok, l3_fault_init)) d.out
            (obs_validate-obs_admit sub laws output_buf_size in' st.adm l3_fault_init l3_fault_init
              i ok)) in
      let run = λ (o : Record) (c : AdmissionCtx) (e : Code).
        after_admit sub chain disk synced mirror_disk o (record st { adm = c }) e in
      let step : run a.out a.ctx a.ret
          ≡ run (admitted sub in') (record { last_ledger_seq = in'.ledger_seq; initialized = true })
              Code.ok =
        λ k. run (d.out k) (d.ctx' k) (ok k) in
      step ∙ rw (valid, canonical_lem in' i d.fits, obs_text-nonempty in') refl

  after_append-some :
      (rec : Record) (st : Gateway Ctx) (run : Option (Bytes × ℕ) × Ledger Ctx) (r : Receipt)
      → (after_append sub chain rec st run).0 ≡ some r
      → (head : Bytes) × (seq : ℕ) × (run.0 ≡ some (head, seq))
        × (r ≡ (rec.obs_hash, hex32 head, seq))
        × ((after_append sub chain rec st run).1 ≡ record st { ledger = run.1 })
  unfolding after_append
  after_append-some rec st (none, l) r h = absurd (ground arith)
  after_append-some rec st (some (head, seq), l) r h = (head, seq, refl, cc h, refl)

  after_admit_ok :
      (rec : Record) (st : Gateway Ctx) (e : Code) (r : Receipt)
      → (after_admit sub chain disk synced mirror_disk rec st e).0 ≡ some r
      → e ≡ Code.ok
  unfolding after_admit
  after_admit_ok rec st Code.ok r h = refl
  after_admit_ok rec st e r h = absurd (ground arith)

  module _ (good : IsChain chain) where
    -- A commit that returns 0, of an input whose fields are in range, on a gateway whose ledger is these entries: the ledger is the same entries
    -- and one more, the tag AX:OBS:v1 with the canonical text of the admitted record; the receipt has
    -- the record's hash and the hex digits of the new head; the context holds the new number.
    pub commit_input_done :
        (st : Gateway Ctx) (es : List (Bytes × Bytes)) (in' : Input) {r : Receipt}
        → IsInput in'
        → IsLedger chain st.ledger es
        → (commit_input sub chain disk synced mirror_disk st in').0 ≡ some r
        → let st' = (commit_input sub chain disk synced mirror_disk st in').1 in
          IsLedger chain st'.ledger (es ++ (tag_obs, obs_text (admitted sub in') true) ∷ [])
          × (r ≡ (
            hash_of sub (described sub in'),
            hex32 (chain.current_hash st'.ledger.ctx),
            chain.sequence st'.ledger.ctx,
          ))
          × (st'.adm ≡ record { last_ledger_seq = in'.ledger_seq; initialized = true })
    unfolding admitted c_str
    commit_input_done st es in' {r} i ledger h =
        let a = obs_admit sub output_buf_size in' st.adm l3_fault_init in
        let ok : a.ret ≡ Code.ok =
          unfold commit_input in after_admit_ok a.out (record st { adm = a.ctx }) a.ret r h in
        let e = commit_input_lem st in' i ok in
        let text = obs_text (admitted sub in') true in
        let run = gwl_append chain st.ledger (some tag_obs) (some text) disk synced mirror_disk in
        let st1 : Gateway Ctx = record st {
          adm = record { last_ledger_seq = in'.ledger_seq; initialized = true };
        } in
        let (head, seq, landed, receipt, after) =
          after_append-some (admitted sub in') st1 run r (rw e at h) in
        let (ledger', heads) =
          gwl_append_done chain good st.ledger es tag_obs text disk synced mirror_disk ledger
            landed in
        rw (e, after)
          (
            ledger',
            receipt
                ∙ ap (λ (p : Bytes × ℕ). (hash_of sub (described sub in'), hex32 p.0, p.1)) heads,
            refl,
          )
