-- ===== src/Gateway/Request.antt =====
-- gateway/src/gw_main.c: the request body of `handle_request`, and what it uses. `none` is -1, a buffer the list
-- of the bytes in it.
pub mod Printed
use axioma_oracle.Prelude.{
  ◌>>=◌, ℕ, ◌+◌, ◌-◌, ◌*◌, ◌/◌, ◌%◌, ◌^◌, Bool, true, false, [], ◌∷◌, ◌++◌, Option, none, some,
  Bytes, codes, length, c_str, replicate, leb, if◌then◌else◌,
}
use axioma_oracle.Prelude.Int.{ℤ, pos, negsuc}
use axioma_oracle.Types.{Params, max_tokens_is_null, temperature_is_null, top_p_is_null}
use axioma_oracle.Canonical.Decimal.{digits_text, signed_text}
use axioma_oracle.Gateway.Json.Escape.{gwj_escape_utf8}

-- `GW_ID_MAX`
abbrev pub id_max : ℕ
id_max = 256

-- `%06u`
unfoldable pub six_digits : ℕ → Bytes
unfolding digits_text
six_digits n = let d = digits_text n in replicate (6 - length d) b'0' ++ d

-- The text that `snprintf` is to print.
unfoldable pub dec_text : ℕ → Bytes
unfolding digits_text six_digits
dec_text v = digits_text (v / 2 ^ 16) ++ b'.' ∷ six_digits (v % 2 ^ 16 * 1000000 / 2 ^ 16)

unfoldable pub q16_to_dec : ℕ → ℤ → Option Bytes
unfolding dec_text
q16_to_dec cap (negsuc n) = none
q16_to_dec cap (pos v) = if leb cap (length (dec_text v)) then none else some (dec_text v)

-- `gw_reqjson_cap`, of the configured `max_prompt_bytes`.
unfoldable pub gw_reqjson_cap : ℕ → ℕ
gw_reqjson_cap max_prompt_bytes = max_prompt_bytes * 6 + id_max * 6 + 1024

-- `req_put` of a text that is formatted, behind `buf[0..*off)`.
unfoldable pub req_put : ℕ → Bytes → Bytes → Option Bytes
req_put cap buf text =
    if leb cap (length buf)
    then none
    else if leb (cap - length buf) (length text)
    then none
    else some (buf ++ text)

-- The members of a parameter, which are left out for a null.
unfoldable pub put_temperature : ℕ → Params → Bytes → Option Bytes
unfolding req_put q16_to_dec temperature_is_null
put_temperature cap params buf =
    let put = q16_to_dec 24 params.temperature >>= λ dec.
    req_put cap buf (codes ",\"temperature\":" ++ dec) in
    if temperature_is_null params then some buf else put

unfoldable pub put_top_p : ℕ → Params → Bytes → Option Bytes
unfolding req_put q16_to_dec top_p_is_null
put_top_p cap params buf =
    let put = q16_to_dec 24 params.top_p >>= λ dec. req_put cap buf (codes ",\"top_p\":" ++ dec) in
    if top_p_is_null params then some buf else put

-- The body: `model_id` is a C string, `norm` is `norm[0..prompt_len)`.
unfoldable pub request_body : ℕ → Bytes → Bytes → Params → Option Bytes
unfolding gw_reqjson_cap gwj_escape_utf8 req_put put_temperature put_top_p signed_text
request_body max_prompt_bytes model_id norm params = do
  let cap = gw_reqjson_cap max_prompt_bytes
  model_esc ← gwj_escape_utf8 (id_max * 6 + 1) (some (c_str model_id)) (length (c_str model_id))
  escaped ← gwj_escape_utf8 (max_prompt_bytes * 6 + 1) (some norm) (length norm)
  b1 ← req_put cap [] (
      codes "{\"model\":\""
      ++ (c_str model_esc ++ (codes "\",\"max_tokens\":" ++ signed_text params.max_tokens)))
  b2 ← put_temperature cap params b1
  b3 ← put_top_p cap params b2
  req_put cap b3
      (codes ",\"messages\":[{\"role\":\"user\",\"content\":\"" ++ (c_str escaped ++ codes "\"}]}"))
