-- ===== src/Tests/Serve.antt =====
-- A sample request (gateway/src/gw_main.c).
use axioma_oracle.Prelude.{◌∷◌, ℕ, ◌+◌, ◌<◌, ◌≡◌, ◌⊎◌, true, [], some, none, Bytes, codes}
use axioma_oracle.Prelude.Int.{pos}
use axioma_oracle.Types.{Params, params_init_null}
use axioma_oracle.Gateway.Protocol.{Lines, read_header}
use axioma_oracle.Gateway.Protocol.Ingest.{read_header_total}
use axioma_oracle.Gateway.Serve.{
  Settings, Daemon, World, Outcome, Prompt, first_header, handle_request,
}
use axioma_oracle.Gateway.Serve.Budget.{handle_request_guarded}
use axioma_oracle.Tests.Data.{toy}
use axioma_oracle.Tests.Ledger.{counter}
use axioma_oracle.Tests.Commit.{gateway}
use axioma_oracle.Tests.Wal.{working}

abbrev settings : Settings
settings = record { max_prompt_bytes = 100; default_max_tokens = pos 1024; call_budget = 3 }

abbrev daemon : Daemon ℕ
daemon = record { gateway = gateway; wal = none; calls_made = 0; sent = [] }

-- The oracle answers; the first commit fails to reach the disk, and the second does not.
abbrev world : World
world = record {
  wal_calls = working;
  unlinked = true;
  unlink_synced = true;
  first = record { disk = 0; synced = true; mirror_disk = 0 };
  second = record { disk = 2000; synced = true; mirror_disk = 2000 };
  gwc_call = λ body. some (record {
    outcome = Outcome.ok;
    body = codes "{\"content\":[{\"type\":\"text\",\"text\":\"hi\"}],\"stop_reason\":\"end_turn\"}";
  });
}

abbrev request : Bytes
request = codes "prompt_len: 5\ntemperature_q16: 0\n\nhello"

handle_request_guarded_example :
    let d' = (handle_request toy counter settings world daemon request).1 in
    ((d'.calls_made ≡ 0) × (d'.sent ≡ []))
    ⊎ ((0 < 3) × ((d'.calls_made ≡ 0 + 1) × ((body : Bytes) × (d'.sent ≡ body ∷ []))))
handle_request_guarded_example = handle_request_guarded toy counter settings world daemon request

abbrev hello : Prompt
hello = record {
  header = record (first_header settings) { prompt_len = pos 5; temp_q16 = pos 0 };
  norm = codes "hello";
}

read_header_total_example : (l : Lines) × (read_header (first_header settings) request ≡ some l)
read_header_total_example = read_header_total (first_header settings) request

abbrev params : Params
params = record params_init_null { max_tokens = pos 1024; temperature = pos 45875 }
