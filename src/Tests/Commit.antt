-- ===== src/Tests/Commit.antt =====
-- The commit of a sample observation (gateway/src/gw_main.c).
use axioma_oracle.Prelude.{ℕ, ◌≡◌, refl, true, [], ◌∷◌, ◌++◌, some, codes, replicate}
use axioma_oracle.Types.{Code, l3_fault_init}
use axioma_oracle.Record.{admission_ctx_init}
use axioma_oracle.Canonical.Observation.{obs_text}
use axioma_oracle.Hash.Compute.{hash_of}
use axioma_oracle.Obs.{obs_admit}
use axioma_oracle.Obs.Admit.{described, admitted}
use axioma_oracle.Gateway.Ledger.{gwl_append, write_frame, frame_bytes, wr_u32le, wr_u64le, wr_loop}
use axioma_oracle.Gateway.Ledger.Append.{IsLedger}
use axioma_oracle.Gateway.Commit.{
  Gateway, Receipt, output_buf_size, tag_obs, hex32, after_append, commit_input, after_admit,
  after_validate, after_canonical,
}
use axioma_oracle.Gateway.Commit.Landed.{commit_input_done}
use axioma_oracle.Tests.Data.{toy, toy-IsSubstrate, sample, machine}
use axioma_oracle.Tests.Admission.{sample-IsInput}
use axioma_oracle.Tests.Ledger.{counter, counter-IsChain, entries, one, one-IsLedger}

abbrev pub gateway : Gateway ℕ
gateway = record {
  ledger = one;
  adm = admission_ctx_init;
  model_id = codes "model-1";
  oracle_id = codes "oracle";
}

sample_admitted :
    (obs_admit toy output_buf_size sample admission_ctx_init l3_fault_init).ret ≡ Code.ok
unfolding machine
sample_admitted = refl

abbrev receipt : Receipt
receipt = (
  (obs_admit toy output_buf_size sample admission_ctx_init l3_fault_init).out.obs_hash,
  hex32 (replicate 32 2),
  2,
)

landed : (commit_input toy counter 2000 true 2000 gateway sample).0 ≡ some receipt
unfolding machine commit_input after_admit after_validate after_canonical hex32 after_append
    gwl_append write_frame frame_bytes wr_u32le wr_u64le wr_loop
landed = refl

abbrev after : Gateway ℕ
after = (commit_input toy counter 2000 true 2000 gateway sample).1

commit_input_done_example :
    IsLedger counter after.ledger (entries ++ (tag_obs, obs_text (admitted toy sample) true) ∷ [])
    × (receipt ≡ (
      hash_of toy (described toy sample),
      hex32 (counter.current_hash after.ledger.ctx),
      counter.sequence after.ledger.ctx,
    ))
    × (after.adm ≡ record { last_ledger_seq = 7; initialized = true })
commit_input_done_example =
    commit_input_done toy toy-IsSubstrate counter 2000 true 2000 counter-IsChain gateway entries
      sample sample-IsInput one-IsLedger landed
