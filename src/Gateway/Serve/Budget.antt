-- ===== src/Gateway/Serve/Budget.antt =====
-- The spend guard of `handle_request` (gateway/src/gw_main.c).
use axioma_oracle.Prelude.{
  ◌+◌, ◌<◌, ◌≡◌, ◌⊎◌, inl, inr, refl, Bool, true, false, ◌||◌, Option, none, some, Bytes, leb, ◌==◌,
  arith, Bool-cases, ◌∷◌,
}
use axioma_oracle.Types.{Params}
use axioma_oracle.Types.Completion
use axioma_oracle.Types.Failure
use axioma_oracle.Hash.{Substrate}
use axioma_oracle.Gateway.Ledger.{Chain}
use axioma_oracle.Gateway.Commit.{Gateway, Receipt}
use axioma_oracle.Gateway.Request.{request_body}
use axioma_oracle.Gateway.Wal.{gw_wal_write}
use axioma_oracle.Gateway.Serve.{
  Settings, Daemon, Answer, World, Prompt, Ingested, prompt, turned_away, ingest, params_of,
  Verdict, failed, judge, run_commit, close_intent, after_second, after_first, after_call,
  after_body, call_oracle, after_intent, intent_of, serve, after_ingest, handle_request,
}

module _ {Ctx : Type 0} (sub : Substrate) (chain : Chain Ctx) (cfg : Settings) (world : World) where
  -- The counter and the bodies that were sent are the same.
  abbrev Silent : Daemon Ctx → Daemon Ctx → Type 0
  Silent d d' = (d'.calls_made ≡ d.calls_made) × (d'.sent ≡ d.sent)

  after_second-Silent :
      (d : Daemon Ctx) (run : Option Receipt × Gateway Ctx)
      → Silent d (after_second sub chain cfg world d run).1
  unfolding after_second close_intent
  after_second-Silent d (some receipt, st) = (refl, refl)
  after_second-Silent d (none, st) = (refl, refl)

  after_first-Silent :
      (d : Daemon Ctx) (v : Verdict) (norm : Bytes) (params : Params)
      (run : Option Receipt × Gateway Ctx)
      → Silent d (after_first sub chain cfg world d v norm params run).1
  unfolding after_first close_intent
  after_first-Silent d v norm params (some receipt, st) = (refl, refl)
  after_first-Silent d v norm params (none, st) =
      elim (Bool-cases (v.state == Completion.complete || v.state == Completion.truncated)) [
        | inl again ↦ rw again (
            after_second-Silent d (
              run_commit sub chain cfg world world.second st (failed Failure.invalid_output) norm
                params))
        | inr stop ↦ rw stop (refl, refl)
      ]

  after_call-Silent :
      (d : Daemon Ctx) (norm : Bytes) (params : Params) (answer : Option Answer)
      → Silent d (after_call sub chain cfg world d norm params answer).1
  unfolding after_call
  after_call-Silent d norm params none = (refl, refl)
  after_call-Silent d norm params (some answer) =
      let v = judge answer.outcome answer.body in
      after_first-Silent d v norm params
        (run_commit sub chain cfg world world.first d.gateway v norm params)

  -- One body was sent, and the counter counts it.
  abbrev Counted : Daemon Ctx → Daemon Ctx → Type 0
  Counted d d' = (d'.calls_made ≡ d.calls_made + 1) × ((body : Bytes) × (d'.sent ≡ body ∷ d.sent))

  after_body-Once :
      (d : Daemon Ctx) (norm : Bytes) (params : Params) (body : Option Bytes)
      → let d' = (after_body sub chain cfg world d norm params body).1 in Silent d d' ⊎ Counted d d'
  unfolding after_body call_oracle
  after_body-Once d norm params none = inl (refl, refl)
  after_body-Once d norm params (some body) =
      let (counted, one) =
        after_call-Silent (record d { calls_made = d.calls_made + 1; sent = body ∷ d.sent }) norm
          params (world.gwc_call body) in
      inr (counted, (body, one))

  after_intent-Once :
      (d : Daemon Ctx) (norm : Bytes) (params : Params) (run : Bool × Option Bytes)
      → let d' = (after_intent sub chain cfg world d norm params run).1 in
        Silent d d' ⊎ Counted d d'
  unfolding after_intent
  after_intent-Once d norm params (false, wal) = inl (refl, refl)
  after_intent-Once d norm params (true, wal) =
      after_body-Once (record d { wal = wal }) norm params
        (request_body cfg.max_prompt_bytes d.gateway.model_id norm params)

  abbrev Guarded : Daemon Ctx → Daemon Ctx → Type 0
  Guarded d d' = Silent d d' ⊎ ((d.calls_made < cfg.call_budget) × Counted d d')

  serve-Guarded : (d : Daemon Ctx) (p : Prompt) → Guarded d (serve sub chain cfg world d p).1
  unfolding serve
  serve-Guarded d p = elim (Bool-cases (leb cfg.call_budget d.calls_made)) [
    | inl spent ↦ rw spent (inl (refl, refl))
    | inr more ↦
        let params = params_of p.header in
        let below : d.calls_made < cfg.call_budget = ground (arith, more) in
        rw more
          (elim (after_intent-Once d p.norm params (
            gw_wal_write world.wal_calls d.wal
              (intent_of sub chain cfg world d.gateway p.norm params))) [
                | inl same ↦ inl same
                | inr one ↦ inr (below, one)
              ])
  ]

  after_ingest-Guarded :
      (d : Daemon Ctx) (o : Ingested) → Guarded d (after_ingest sub chain cfg world d o).1
  unfolding after_ingest
  after_ingest-Guarded d (turned_away reason) = inl (refl, refl)
  after_ingest-Guarded d (prompt p) = serve-Guarded d p

  -- A request sends no body to the oracle and leaves the counter as it is; or, while fewer calls were counted than
  -- the budget allows, it sends one body and counts one call more.
  pub handle_request_guarded :
      (d : Daemon Ctx) (s : Bytes)
      → let d' = (handle_request sub chain cfg world d s).1 in
        ((d'.calls_made ≡ d.calls_made) × (d'.sent ≡ d.sent))
        ⊎ ((d.calls_made < cfg.call_budget)
            × ((d'.calls_made ≡ d.calls_made + 1) × ((body : Bytes) × (d'.sent ≡ body ∷ d.sent))))
  unfolding handle_request
  handle_request_guarded d s = after_ingest-Guarded d (ingest cfg s)
