-- ===== src/Gateway/Settings.antt =====
-- gateway/src/gw_config.c: the setters of single configuration values, and the check of the API key in
-- gateway/src/gw_main.c. A value is a C string; `none` is -1, and the messages are left out.
pub mod Accepted
use axioma_oracle.Prelude.{
  ℕ, Bool, true, false, ◌||◌, [], ◌∷◌, Option, none, some, Bytes, length, c_str, ltb, leb, ◌==◌,
  if◌then◌else◌,
}
use axioma_oracle.Types.{Code}
use axioma_oracle.Obs.{obs_identifier_check}

unfoldable pub set_str : ℕ → Bytes → Option Bytes
set_str cap v = if length (c_str v) == 0 || leb cap (length (c_str v)) then none else some (c_str v)

unfoldable pub after_check : Code → ℕ → Bytes → Option Bytes
after_check Code.ok cap v = if leb cap (length (c_str v)) then none else set_str cap v
after_check e cap v = none

-- `ax_max` is the bound of the identifier check, `cap` the size of the field.
unfoldable pub set_id : ℕ → ℕ → Bytes → Option Bytes
set_id cap ax_max v = after_check (obs_identifier_check (some v) ax_max) cap v

-- The loop of `set_header_value` over the C string: whether it returns -1.
unfoldable pub header_control : Bytes → Bool
header_control [] = false
header_control (c ∷ s) = if ltb c 0x20 || c == 0x7F then true else header_control s

unfoldable pub set_header_value : ℕ → Bytes → Option Bytes
set_header_value cap v = if header_control (c_str v) then none else set_str cap v

-- Whether `api_key_check` returns 0.
unfoldable pub api_key_check : Bytes → Bool
api_key_check key = if header_control (c_str key) then false else true
