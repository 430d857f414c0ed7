-- ===== src/Gateway/Commit.antt =====
-- gateway/src/gw_main.c: the commit of one observation, from admission to the evidence ledger.
pub mod Landed
pub mod Recorded
use axioma_oracle.Prelude.{
  ℕ, ◌+◌, ◌/◌, ◌%◌, ◌^◌, [], ◌∷◌, Option, none, some, Bool, true, Bytes, codes, length, ◌==◌,
  if◌then◌else◌,
}
use axioma_oracle.Types.{
  Code, Result, done, fail, Params, l3_fault_init, max_output_bytes, canonical_buffer_size,
}
use axioma_oracle.Record.{Record, Input, AdmissionCtx}
use axioma_oracle.Canonical.{hex_at, obs_canonicalise}
use axioma_oracle.Hash.{Substrate}
use axioma_oracle.Obs.{Admission, obs_admit, obs_validate}
use axioma_oracle.Gateway.Ledger.{Chain, Ledger, gwl_append}

-- `sizeof g_output_buf`
abbrev pub output_buf_size : ℕ
output_buf_size = max_output_bytes

abbrev pub tag_obs : Bytes
tag_obs = codes "AX:OBS:v1"

unfoldable pub hex32 : Bytes → Bytes
hex32 [] = []
hex32 (b ∷ s) = hex_at (b / 16 % 16) ∷ hex_at (b % 16) ∷ hex32 s

-- What a commit uses of `gw_state_t` and of the configuration behind it, with the ledger.
pub record Gateway (Ctx : Type 0) : Type 0 where
  pub ledger : Ledger Ctx
  pub adm : AdmissionCtx
  pub model_id : Bytes
  pub oracle_id : Bytes

-- The assignments to `in`.
unfoldable pub observation_input :
    {Ctx : Type 0}
    → Chain Ctx
    → Gateway Ctx
    → ℕ
    → ℕ
    → Option Bytes
    → ℕ
    → Option Bytes
    → ℕ
    → Params
    → Input
observation_input chain st state ftype prompt prompt_len output output_len params = record {
  completion_state = state;
  failure_type = ftype;
  input = prompt;
  input_len = prompt_len;
  ledger_seq = (chain.sequence st.ledger.ctx + 1) % 2 ^ 64;
  model_id = some st.model_id;
  oracle_id = some st.oracle_id;
  output = output;
  output_len = output_len;
  params = params;
}

-- `obs_hash_hex`, `head_hex` and `*seq_out`.
abbrev pub Receipt : Type 0
Receipt = Bytes × Bytes × ℕ

module _ {Ctx : Type 0} (sub : Substrate) (chain : Chain Ctx) where
  unfoldable pub after_append :
      Record → Gateway Ctx → Option (Bytes × ℕ) × Ledger Ctx → Option Receipt × Gateway Ctx
  after_append rec st (none, ledger) = (none, record st { ledger = ledger })
  after_append rec st (some (head, seq), ledger) =
      (some (rec.obs_hash, hex32 head, seq), record st { ledger = ledger })

  -- `disk`, `synced` and `mirror_disk` are those of `gwl_append`.
  module _ (disk : ℕ) (synced : Bool) (mirror_disk : ℕ) where
    unfoldable pub after_canonical :
        Record → Gateway Ctx → Result Bytes → Option Receipt × Gateway Ctx
    after_canonical rec st (fail e) = (none, st)
    after_canonical rec st (done text) =
        if length text == 0
        then (none, st)
        else after_append rec st
            (gwl_append chain st.ledger (some tag_obs) (some text) disk synced mirror_disk)

    unfoldable pub after_validate : Record → Gateway Ctx → Code → Option Receipt × Gateway Ctx
    after_validate rec st Code.ok =
        after_canonical rec st (obs_canonicalise canonical_buffer_size rec true)
    after_validate rec st e = (none, st)

    unfoldable pub after_admit : Record → Gateway Ctx → Code → Option Receipt × Gateway Ctx
    after_admit rec st Code.ok = after_validate rec st (obs_validate sub rec l3_fault_init).0
    after_admit rec st e = (none, st)

    -- `commit_observation`, from the filled input on.
    unfoldable pub commit_input : Gateway Ctx → Input → Option Receipt × Gateway Ctx
    commit_input st in' =
        let a = obs_admit sub output_buf_size in' st.adm l3_fault_init in
        after_admit a.out (record st { adm = a.ctx }) a.ret

    -- `commit_observation`
    unfoldable pub commit_observation :
        Gateway Ctx
        → ℕ
        → ℕ
        → Option Bytes
        → ℕ
        → Option Bytes
        → ℕ
        → Params
        → Option Receipt × Gateway Ctx
    commit_observation st state ftype prompt prompt_len output output_len params =
        commit_input st
          (observation_input chain st state ftype prompt prompt_len output output_len params)
