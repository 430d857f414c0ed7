-- ===== src/Tests/Client.antt =====
-- A call that is answered on the second attempt (gateway/src/gw_client.c).
use axioma_oracle.Prelude.{
  ℕ, zero, suc, ◌≡◌, refl, true, Bool, List, [], ◌∷◌, some, Bytes, arith, codes,
}
use axioma_oracle.Prelude.{same}
use axioma_oracle.Gateway.Serve.{ok, http_fail}
use axioma_oracle.Gateway.Client.{Transfer, performed, gwc_call}
use axioma_oracle.Gateway.Client.Attempts.{Ends, gwc_call-Ends}

abbrev answered : ℕ → List Bytes → List (Bytes × Bool) → Transfer
answered status lines pieces = record {
  handle = true;
  headers = true;
  restricted = true;
  lines = lines;
  pieces = pieces;
  rc = performed;
  status = status;
  jitter = 7;
}

abbrev busy_once : ℕ → Transfer
busy_once zero = answered 500 [] []
busy_once (suc zero) = answered 429 (codes "Retry-After: 2" ∷ []) []
busy_once (suc (suc n)) = answered 200 [] ((codes "{", true) ∷ (codes "}", true) ∷ [])

second_answers : gwc_call 10 3 busy_once ≡ (
  some (record { outcome = ok; http_status = 200; attempts = 2; body = codes "{}" }),
  2000 ∷ [],
)
unfolding gwc_call same
second_answers = refl

always_busy :
    gwc_call 10 2 (λ k. answered 503 [] [])
    ≡ (some (record { outcome = http_fail; http_status = 503; attempts = 2; body = [] }), 1007 ∷ [])
unfolding gwc_call
always_busy = refl

gwc_call-Ends_example : Ends 10 3 busy_once 1 (gwc_call 10 3 busy_once)
gwc_call-Ends_example = gwc_call-Ends 10 3 busy_once (omega arith)
