-- ===== src/Obs/Checks.antt =====
-- The checks that `ax_obs_admit` makes on its input (src/obs.c).
use axioma_oracle.Prelude.{
  ℕ, zero, suc, Bool, true, false, ◌&&◌, ◌||◌, not, [], ◌∷◌, Option, none, some, Bytes, c_str, ltb,
  ◌==◌, if◌then◌else◌,
}
use axioma_oracle.Types.{Code, max_output_bytes}
use axioma_oracle.Types.Completion
use axioma_oracle.Types.Failure
use axioma_oracle.Record.{Input}
use axioma_oracle.Validate.{validate_utf8}

-- `for (i = 0; i <= max; i++)`: whether the rounds left all read a byte other than zero.
unfoldable pub no_nul_within : ℕ → Bytes → Bool
no_nul_within zero s = true
no_nul_within (suc rounds) [] = false
no_nul_within (suc rounds) (c ∷ s) = if c == 0 then false else no_nul_within rounds s

unfoldable pub id_too_long : Option Bytes → ℕ → Bool
unfolding no_nul_within
id_too_long none max = false
id_too_long (some s) max = no_nul_within (suc max) s

-- The loop of `id_is_well_formed`: whether it returns 0.
unfoldable pub has_control : Bytes → Bool
has_control [] = false
has_control (c ∷ s) = if ltb c 0x20 || c == 0x7F then true else has_control s

-- `s[0] == '\0'`
unfoldable pub is_empty : Bytes → Bool
is_empty [] = true
is_empty (c ∷ s) = c == 0

unfoldable pub id_is_well_formed : Option Bytes → Bool
unfolding is_empty has_control
id_is_well_formed none = false
id_is_well_formed (some s) =
    if is_empty s then false else if has_control (c_str s) then false else validate_utf8 (c_str s)

unfoldable pub state_pair_is_permitted : ℕ → ℕ → Bool
state_pair_is_permitted s f =
    if s == Completion.complete || s == Completion.truncated
    then f == Failure.null
    else if s == Completion.error
    then f == Failure.timeout || f == Failure.invalid_output || f == Failure.transport_error
    else false

-- `p == NULL`
abbrev pub is_null : Option Bytes → Bool
is_null none = true
is_null (some s) = false

unfoldable pub input_is_schema_valid : Input → Bool
input_is_schema_valid in' =
    if not (id_is_well_formed in'.model_id) || not (id_is_well_formed in'.oracle_id)
    then false
    else if not (state_pair_is_permitted in'.completion_state in'.failure_type)
    then false
    else if in'.completion_state == Completion.error && ltb max_output_bytes in'.output_len
    then false
    else if is_null in'.input && ltb 0 in'.input_len
    then false
    else if is_null in'.output && ltb 0 in'.output_len
    then false
    else true

-- `ax_obs_identifier_check`
unfoldable pub obs_identifier_check : Option Bytes → ℕ → Code
obs_identifier_check id max_bytes =
    if id_too_long id max_bytes
    then Code.size
    else if not (id_is_well_formed id)
    then Code.schema
    else Code.ok
