-- ===== src/Gateway/Request/Printed.antt =====
-- The request body that gateway/src/gw_main.c builds is the text of a JSON value.
use axioma_oracle.Prelude.{
  ℕ, ◌+◌, ◌^◌, ◌<◌, ◌≡◌, ◌⊎◌, true, false, [], ◌∷◌, ◌++◌, Option, none, some, Bytes, codes, ◌==◌,
  if◌then◌else◌,
}
use axioma_oracle.Prelude.Int.{ℤ, pos}
use axioma_oracle.Types.{null_q16}
use axioma_oracle.Gateway.Json.WellFormed.{escape_all}
use axioma_oracle.Gateway.Json.Printed.{Json, text, word, group, Items, empty, item}
use axioma_oracle.Gateway.Request.{dec_text}

-- A number, by its text.
unfoldable pub number : Bytes → Json
number [] = word b'0' []
number (c ∷ w) = word c w

-- A member that may be left out.
unfoldable pub optional : Bytes → Option Bytes → Items → Items
unfolding number
optional k none vs = vs
optional k (some d) vs = item k (number d) vs

abbrev pub messages : Bytes → Items
messages norm =
    item (codes "messages")
      (group false (
        item []
          (group true
            (item (codes "role") (text (codes "user")) (item (codes "content") (text norm) empty)))
          empty))
      empty

-- The request as a value.
unfoldable pub request_value : Bytes → Bytes → Bytes → Option Bytes → Option Bytes → Json
unfolding number optional
request_value model norm max_tokens temperature top_p = group true (
    item (codes "model") (text model) (
      item (codes "max_tokens") (number max_tokens) (
        optional (codes "temperature") temperature
          (optional (codes "top_p") top_p (messages norm)))))

-- What is put for an optional member.
abbrev optional_text : Bytes → Option Bytes → Bytes
optional_text k none = []
optional_text k (some d) = b',' ∷ b'"' ∷ (k ++ (b'"' ∷ b':' ∷ d))

-- A parameter that is null or not negative, and what is put for it.
abbrev pub IsGiven : ℤ → Option Bytes → Type 0
IsGiven z o =
    ((z ≡ null_q16) × (o ≡ none)) ⊎ ((v : ℕ) × (z ≡ pos v) × (v < 2 ^ 31) × (o ≡ some (dec_text v)))

-- What `request_body` puts first.
abbrev start_text : Bytes → Bytes → Bytes
start_text model n =
    codes "{\"model\":\"" ++ (escape_all model ++ (codes "\",\"max_tokens\":" ++ n))

-- How many zeros there are.
zeros : Bytes → ℕ
zeros [] = 0
zeros (c ∷ s) = (if c == 0 then 1 else 0) + zeros s

abbrev messages_text : Bytes → Bytes
messages_text norm =
    codes ",\"messages\":[{\"role\":\"user\",\"content\":\"" ++ (escape_all norm ++ codes "\"}]}")
