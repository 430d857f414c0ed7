-- ===== src/Gateway/Serve/Evidence.antt =====
-- What one request leaves (gateway/src/gw_main.c): the calls are bounded, and each is evidenced.
use axioma_oracle.Prelude.{◌<◌, ◌≡◌, ◌⊎◌, List, some, Bytes, length}
use axioma_oracle.Types.Completion
use axioma_oracle.Types.Failure
use axioma_oracle.Hash.{Substrate}
use axioma_oracle.Record.{Input}
use axioma_oracle.Gateway.Ledger.{Chain, Ledger}
use axioma_oracle.Gateway.Commit.{Gateway, Receipt}
use axioma_oracle.Gateway.Commit.Recorded.{IsRecorded}
use axioma_oracle.Gateway.Wal.{Intent, gw_wal_recover, recovered}
use axioma_oracle.Gateway.Wal.Field.{IsLine}
use axioma_oracle.Gateway.Request.{id_max}
use axioma_oracle.Gateway.Serve.{Settings, Daemon, World, Verdict, End, served}

-- A model id that the configuration takes.
pub record IsModel (id : Bytes) : Type 0 where
  pub line : IsLine id
  pub some_byte : 0 < length id
  pub size : length id < id_max

module _ {Ctx : Type 0} (sub : Substrate) (chain : Chain Ctx) (cfg : Settings) (world : World) where
  -- A record of this prompt and of what the answer was taken for stands behind the receipt, as `IsRecorded` says.
  abbrev pub Recorded : Bytes → Verdict → Ledger Ctx → Receipt → Type 0
  Recorded norm v l receipt =
      (in' : Input) × (in'.input ≡ some norm)
      × (in'.input_len ≡ length norm)
      × (in'.completion_state ≡ v.state)
      × (in'.failure_type ≡ v.ftype)
      × (in'.output ≡ some v.output)
      × IsRecorded sub chain in' l receipt

  -- A request that was answered with a record, or that leaves the intent `i` open.
  abbrev pub Closed : Bytes → Intent → End × Daemon Ctx → Type 0
  Closed norm i r =
      ((v : Verdict) × (receipt : Receipt) × (r.0 ≡ served v receipt)
        × Recorded norm v r.1.gateway.ledger receipt)
      ⊎ (gw_wal_recover r.1.wal ≡ recovered i)

  -- Nothing was sent, or the request was closed or leaves its intent.
  abbrev Evidenced : Bytes → Intent → List Bytes → End × Daemon Ctx → Type 0
  Evidenced norm i sent r = (r.1.sent ≡ sent) ⊎ Closed norm i r
