-- ===== src/Gateway/Serve.antt =====
-- gateway/src/gw_main.c: `handle_request`, and `recover_wal`. What the system calls do and what the client of
-- the oracle answers are arguments; the messages of the log are left out.
pub mod Evidence
pub mod Budget
pub mod Accepted
use axioma_oracle.Prelude.{
  ◌>>=◌, ℕ, suc, ◌+◌, ◌^◌, Bool, true, false, ◌&&◌, ◌||◌, not, [], ◌∷◌, ◌++◌, List, Option, none,
  some, Bytes, codes, length, take, c_str, same, leb, ltb, ◌==◌, if◌then◌else◌,
}
use axioma_oracle.Prelude.Int.{ℤ, pos, negsuc, int_eq}
use axioma_oracle.Types.{
  Params, params_init_null, max_output_bytes, int32_min, Result, done, fail, Faults, l3_fault_init,
}
use axioma_oracle.Types.Completion
use axioma_oracle.Types.Failure
use axioma_oracle.Validate.{validate_and_normalise}
use axioma_oracle.Hash.{Substrate, compute_input_hash}
use axioma_oracle.Canonical.Decimal.{digits_text, signed_text}
use axioma_oracle.Gateway.Ledger.{Chain, gwl_last_payload_contains}
use axioma_oracle.Gateway.Commit.{Gateway, Receipt, hex32, commit_observation}
use axioma_oracle.Gateway.Json.Body.{gwj_top_string}
use axioma_oracle.Gateway.Json.Content.{gwj_content_text}
use axioma_oracle.Gateway.Wal.{
  Intent, Calls, gw_wal_write, gw_wal_clear, gw_wal_recover, Recovery, no_intent, corrupt,
  recovered, to_int32,
}
use axioma_oracle.Gateway.Protocol.{
  Header, Lines, ended, refused, read_header, check_header, amount, negative,
}
use axioma_oracle.Gateway.Request.{id_max, request_body}

-- What `handle_request` uses of the configuration, beside the identifiers.
pub record Settings : Type 0 where
  pub max_prompt_bytes : ℕ
  pub default_max_tokens : ℤ
  pub call_budget : ℕ

-- `gw_state_t` with the files behind it. `sent` is what goes over the network, the last body first: `gwc_call`
-- appends to it.
pub record Daemon (Ctx : Type 0) : Type 0 where
  pub gateway : Gateway Ctx
  pub wal : Option Bytes
  pub calls_made : ℕ
  pub sent : List Bytes

-- `gwc_outcome_t`
pub data Outcome : Type 0 where
  ok http_fail timeout transport overcap : Outcome

-- `gwc_result_t`
pub record Answer : Type 0 where
  pub outcome : Outcome
  pub body : Bytes

-- What the ledger's and the mirror's files do during one commit, as for `gwl_append`.
pub record Disk : Type 0 where
  pub disk : ℕ
  pub synced : Bool
  pub mirror_disk : ℕ

-- What happens around one request: the calls on the intent file, the two commits, and what `gwc_call` gives for
-- a body, none when it returns -1.
pub record World : Type 0 where
  pub wal_calls : Calls
  pub unlinked : Bool
  pub unlink_synced : Bool
  pub first : Disk
  pub second : Disk
  pub gwc_call : Bytes → Option Answer

-- The prompt that is read and normalised, with the numbers.
pub record Prompt : Type 0 where
  pub header : Header
  pub norm : Bytes

-- Steps 1 and 2: a prompt, or the reason that is sent.
pub data Ingested : Type 0 where
  prompt : Prompt → Ingested
  turned_away : Bytes → Ingested

unfoldable pub normalised : Header → Result Bytes → Ingested
normalised h (done norm) = prompt (record { header = h; norm = norm })
normalised h (fail e) = turned_away (codes "encoding_reject")

unfoldable pub read_prompt : ℕ → Header → Bytes → Ingested
unfolding normalised amount
read_prompt max_prompt_bytes h s =
    let n = amount h.prompt_len in
    let norm = (validate_and_normalise (max_prompt_bytes + 1) (take n s) l3_fault_init).0 in
    if ltb (length s) n then turned_away (codes "short_prompt") else normalised h norm

unfoldable pub after_header_check : ℕ → Header → Bytes → Option Bytes → Ingested
unfolding read_prompt
after_header_check max_prompt_bytes h s (some reason) = turned_away reason
after_header_check max_prompt_bytes h s none = read_prompt max_prompt_bytes h s

unfoldable pub after_lines : ℕ → Option Lines → Ingested
unfolding after_header_check check_header
after_lines max_prompt_bytes none = turned_away []
after_lines max_prompt_bytes (some (refused reason)) = turned_away reason
after_lines max_prompt_bytes (some (ended h s)) =
    after_header_check max_prompt_bytes h s (check_header max_prompt_bytes h)

-- The numbers before the first line; -1 stands for one that is not given.
abbrev pub first_header : Settings → Header
first_header cfg = record {
  prompt_len = negsuc 0;
  max_tokens = cfg.default_max_tokens;
  temp_q16 = negsuc 0;
  top_p_q16 = negsuc 0;
}

unfoldable pub ingest : Settings → Bytes → Ingested
unfolding after_lines read_header
ingest cfg s = after_lines cfg.max_prompt_bytes (read_header (first_header cfg) s)

-- Step 3.
unfoldable pub params_of : Header → Params
unfolding to_int32 negative
params_of h = record params_init_null {
  max_tokens = to_int32 h.max_tokens;
  temperature = if negative h.temp_q16 then params_init_null.temperature else to_int32 h.temp_q16;
  top_p = if negative h.top_p_q16 then params_init_null.top_p else to_int32 h.top_p_q16;
}

-- What an answer is taken for.
pub record Verdict : Type 0 where
  pub state : ℕ
  pub ftype : ℕ
  pub output : Bytes
  pub ok_for_caller : Bool

abbrev pub failed : ℕ → Verdict
failed ftype = record {
  state = Completion.error;
  ftype = ftype;
  output = [];
  ok_for_caller = false;
}

-- The case of `GWC_OK`, of the text and the stop reason of the body.
unfoldable pub judge_body : Option Bytes → Option Bytes → Verdict
judge_body none reason = failed Failure.invalid_output
judge_body (some text) none = failed Failure.invalid_output
judge_body (some text) (some reason) = record {
  state =
      if same (c_str reason) (codes "max_tokens")
      then Completion.truncated
      else Completion.complete;
  ftype = Failure.null;
  output = text;
  ok_for_caller = true;
}

unfoldable pub judge : Outcome → Bytes → Verdict
unfolding judge_body gwj_content_text gwj_top_string
judge ok body =
    judge_body (gwj_content_text body max_output_bytes)
      (gwj_top_string body (codes "stop_reason") 64)
judge timeout body = failed Failure.timeout
judge overcap body = failed Failure.invalid_output
judge http_fail body = failed Failure.transport_error
judge transport body = failed Failure.transport_error

-- How a request ends: with the reason that `proto_error` sends, or with a record that is committed.
pub data End : Type 0 where
  error : Bytes → End
  served : Verdict → Receipt → End

abbrev internal : End
internal = error (codes "internal")

module _ {Ctx : Type 0} (sub : Substrate) (chain : Chain Ctx) (cfg : Settings) (world : World) where
  unfoldable pub run_commit :
      Disk → Gateway Ctx → Verdict → Bytes → Params → Option Receipt × Gateway Ctx
  unfolding commit_observation
  run_commit d st v norm params =
      commit_observation sub chain d.disk d.synced d.mirror_disk st v.state v.ftype (some norm)
        (length norm) (some v.output) (length v.output) params

  -- `gw_wal_clear`, whose failure is only logged, and the answer.
  unfoldable pub close_intent : Daemon Ctx → Gateway Ctx → Verdict → Receipt → End × Daemon Ctx
  unfolding gw_wal_clear
  close_intent d st v receipt = (
    served v receipt,
    record d { gateway = st; wal = (gw_wal_clear world.unlinked world.unlink_synced d.wal).1 },
  )

  unfoldable pub after_second : Daemon Ctx → Option Receipt × Gateway Ctx → End × Daemon Ctx
  unfolding close_intent
  after_second d (some receipt, st) = close_intent d st (failed Failure.invalid_output) receipt
  after_second d (none, st) = (internal, record d { gateway = st })

  -- The second commit, of a completion that could not be recorded.
  unfoldable pub after_first :
      Daemon Ctx → Verdict → Bytes → Params → Option Receipt × Gateway Ctx → End × Daemon Ctx
  unfolding close_intent after_second run_commit
  after_first d v norm params (some receipt, st) = close_intent d st v receipt
  after_first d v norm params (none, st) =
      let again =
        after_second d (run_commit world.second st (failed Failure.invalid_output) norm params) in
      if v.state == Completion.complete || v.state == Completion.truncated
      then again
      else (internal, record d { gateway = st })

  unfoldable pub after_call : Daemon Ctx → Bytes → Params → Option Answer → End × Daemon Ctx
  unfolding after_first run_commit judge
  after_call d norm params none = (internal, d)
  after_call d norm params (some answer) =
      let v = judge answer.outcome answer.body in
      after_first d v norm params (run_commit world.first d.gateway v norm params)

  -- `gwc_call` on a body.
  unfoldable pub call_oracle : Daemon Ctx → Bytes → Option Answer × Daemon Ctx
  call_oracle d body = (world.gwc_call body, record d { sent = body ∷ d.sent })

  -- Step 5, behind the body.
  unfoldable pub after_body : Daemon Ctx → Bytes → Params → Option Bytes → End × Daemon Ctx
  unfolding after_call gw_wal_clear call_oracle
  after_body d norm params none =
      (internal, record d { wal = (gw_wal_clear world.unlinked world.unlink_synced d.wal).1 })
  after_body d norm params (some body) =
      let run = call_oracle (record d { calls_made = d.calls_made + 1 }) body in
      after_call run.1 norm params run.0

  unfoldable pub after_intent : Daemon Ctx → Bytes → Params → Bool × Option Bytes → End × Daemon Ctx
  unfolding after_body request_body
  after_intent d norm params (false, wal) = (internal, record d { wal = wal })
  after_intent d norm params (true, wal) =
      after_body (record d { wal = wal }) norm params
        (request_body cfg.max_prompt_bytes d.gateway.model_id norm params)

  unfoldable pub intent_of : Gateway Ctx → Bytes → Params → Intent
  unfolding hex32 compute_input_hash
  intent_of st norm params = record {
    input_hash_hex = hex32 (compute_input_hash sub norm);
    model_id = take 255 (c_str st.model_id);
    max_tokens = params.max_tokens;
    seed = negsuc 0;
    temperature_q16 = params.temperature;
    top_p_q16 = params.top_p;
  }

  -- Steps 3 and 4.
  unfoldable pub serve : Daemon Ctx → Prompt → End × Daemon Ctx
  unfolding after_intent intent_of gw_wal_write params_of
  serve d p =
      let params = params_of p.header in
      let run =
        after_intent d p.norm params
          (gw_wal_write world.wal_calls d.wal (intent_of d.gateway p.norm params)) in
      if leb cfg.call_budget d.calls_made then (error (codes "budget_exhausted"), d) else run

  unfoldable pub after_ingest : Daemon Ctx → Ingested → End × Daemon Ctx
  unfolding serve
  after_ingest d (turned_away reason) = (error reason, d)
  after_ingest d (prompt p) = serve d p

  -- `handle_request`, on what the client sends.
  unfoldable pub handle_request : Daemon Ctx → Bytes → End × Daemon Ctx
  unfolding after_ingest ingest
  handle_request d s = after_ingest d (ingest cfg s)

  -- What stands for the prompt of a call that has no record. (`synth` has room for it: the hash has 64 bytes.)
  abbrev pub synth : Intent → Bytes
  synth i = codes "unclosed-intent input_hash=" ++ i.input_hash_hex

  unfoldable pub recovery_params : Intent → Params
  recovery_params i = record params_init_null {
    max_tokens = i.max_tokens;
    temperature =
        if int_eq i.temperature_q16 int32_min
        then params_init_null.temperature
        else i.temperature_q16;
    top_p = if int_eq i.top_p_q16 int32_min then params_init_null.top_p else i.top_p_q16;
  }

  -- The last statement of `recover_wal`, and whether it returns 0.
  unfoldable pub clear_recovered : Daemon Ctx → Bool × Daemon Ctx
  unfolding gw_wal_clear
  clear_recovered d =
      let run = gw_wal_clear world.unlinked world.unlink_synced d.wal in
      (run.0, record d { wal = run.1 })

  unfoldable pub after_recovery : Daemon Ctx → Option Receipt × Gateway Ctx → Bool × Daemon Ctx
  unfolding clear_recovered
  after_recovery d (none, st) = (false, record d { gateway = st })
  after_recovery d (some receipt, st) = clear_recovered (record d { gateway = st })

  unfoldable pub replay_intent : Daemon Ctx → Recovery → Bool × Daemon Ctx
  unfolding clear_recovered after_recovery run_commit recovery_params gwl_last_payload_contains
  replay_intent d no_intent = (true, d)
  replay_intent d corrupt = (false, d)
  replay_intent d (recovered i) =
      let commit = after_recovery d (
        run_commit world.first d.gateway (failed Failure.transport_error) (synth i)
          (recovery_params i)) in
      if gwl_last_payload_contains d.gateway.ledger (some i.input_hash_hex)
      then clear_recovered d
      else commit

  unfoldable pub recover_wal : Daemon Ctx → Bool × Daemon Ctx
  unfolding replay_intent gw_wal_recover
  recover_wal d = replay_intent d (gw_wal_recover d.wal)
