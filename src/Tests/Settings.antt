-- ===== src/Tests/Settings.antt =====
-- The setters of configuration values on sample values (gateway/src/gw_config.c).
use axioma_oracle.Prelude.{◌≡◌, refl, true, none, codes, c_str}
use axioma_oracle.Gateway.Settings.{set_header_value, header_control, api_key_check}

header_refused : set_header_value 32 (codes "2023\r") ≡ none
unfolding set_header_value header_control c_str
header_refused = refl

key_accepted : api_key_check (codes "key") ≡ true
unfolding api_key_check header_control c_str
key_accepted = refl
