-- ===== src/Gateway/Serve/Accepted.antt =====
-- What the ingest step of `handle_request` accepts (gateway/src/gw_main.c).
use axioma_oracle.Prelude.{ℕ, ◌+◌, ◌≤◌, ◌<◌, ◌≡◌, Bytes, length}
use axioma_oracle.Prelude.Int.{pos}
use axioma_oracle.Types.{done, l3_fault_init}
use axioma_oracle.Validate.{validate_and_normalise}
use axioma_oracle.Gateway.Protocol.{Header}
use axioma_oracle.Gateway.Serve.{Prompt, Ingested, prompt, turned_away}

-- The numbers of a request that is served: the temperature is given.
pub record InRange (max_prompt_bytes : ℕ) (h : Header) : Type 0 where
  pub prompt_len : (n : ℕ) × (h.prompt_len ≡ pos n) × (0 < n) × (n ≤ max_prompt_bytes)
  pub max_tokens : (n : ℕ) × (h.max_tokens ≡ pos n) × (0 < n) × (n ≤ 200000)
  pub temp_q16 : (n : ℕ) × (h.temp_q16 ≡ pos n) × (n ≤ 131072)
  pub top_p_q16 : (n : ℕ) → h.top_p_q16 ≡ pos n → n ≤ 65536

-- What stands behind a prompt: numbers in range, and bytes that were normalised.
abbrev Accepted : ℕ → Prompt → Type 0
Accepted m p =
    InRange m p.header
    × ((bytes : Bytes) × (length bytes ≤ m)
        × ((validate_and_normalise (m + 1) bytes l3_fault_init).0 ≡ done p.norm))

the_prompt : Prompt → Ingested → Prompt
the_prompt d (prompt p) = p
the_prompt d (turned_away reason) = d
