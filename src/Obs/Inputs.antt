-- ===== src/Obs/Inputs.antt =====
-- The checks of src/obs.c on the admission input: identifiers, and the pairs of state and failure.
use axioma_oracle.Prelude.{
  ℕ, zero, suc, ◌≤◌, ◌≡◌, ◌≢◌, ◌⊎◌, ◌↔◌, refl, true, false, [], ◌∷◌, Option, none, some, arith,
  Bytes, All, IsByte, length, c_str, ltb, leb,
}
use axioma_oracle.Types.{Code, max_output_bytes}
use axioma_oracle.Types.Completion
use axioma_oracle.Types.Failure
use axioma_oracle.Record.{Input}
use axioma_oracle.Validate.Utf8.{IsUtf8, validate_utf8_iff}
use axioma_oracle.Canonical.Escape.{text_of}
use axioma_oracle.Obs.{
  no_nul_within, id_too_long, has_control, is_empty, id_is_well_formed, state_pair_is_permitted,
  is_null, input_is_schema_valid, obs_identifier_check,
}

no_nul_within_lem :
    (rounds : ℕ) (s : Bytes) → no_nul_within rounds s ≡ leb rounds (length (c_str s))
unfolding no_nul_within c_str
no_nul_within_lem zero s = ground arith
no_nul_within_lem (suc rounds) [] = ground arith
no_nul_within_lem (suc rounds) (c ∷ s) = ground (arith, no_nul_within_lem rounds s)

-- The bounded scan finds exactly the strings of more than `max` bytes; NULL is none.
pub id_too_long_lem :
    (id : Option Bytes) (max : ℕ) → id_too_long id max ≡ ltb max (length (text_of id))
unfolding id_too_long text_of
id_too_long_lem none max = ground arith
id_too_long_lem (some s) max = ground (arith, no_nul_within_lem (suc max) s)

-- A byte that an identifier may hold: no C0 control, LF included, and no DEL.
abbrev pub IsIdByte : ℕ → Type 0
IsIdByte c = (0x20 ≤ c) × (c ≢ 0x7F)

has_control-clean : (s : Bytes) → has_control s ≡ false → All IsIdByte s
unfolding has_control
has_control-clean [] h = tt
has_control-clean (c ∷ s) h = ground (arith, has_control-clean s)

has_control_complete : (s : Bytes) → All IsIdByte s → has_control s ≡ false
unfolding has_control
has_control_complete [] h = refl
has_control_complete (c ∷ s) (h, hs) = ground (arith, has_control_complete s hs)

is_empty-c_str : (s : Bytes) → is_empty s ≡ false → c_str s ≢ []
unfolding is_empty c_str
is_empty-c_str [] h = cc
is_empty-c_str (c ∷ s) h = ground arith

is_empty_complete : (s : Bytes) → c_str s ≢ [] → is_empty s ≡ false
unfolding is_empty c_str
is_empty_complete [] h = absurd (h refl)
is_empty_complete (c ∷ s) h = ground arith

-- An identifier as admission wants it: not empty, of at most `max` bytes, UTF-8 without controls.
pub record IsIdentifier (max : ℕ) (id : Option Bytes) : Type 0 where
  pub nonempty : text_of id ≢ []
  pub short : length (text_of id) ≤ max
  pub printable : All IsIdByte (text_of id)
  pub utf8 : IsUtf8 (text_of id)

well_formed_sound :
    (id : Option Bytes)
    → All IsByte (text_of id)
    → id_is_well_formed id ≡ true
    → (text_of id ≢ []) × All IsIdByte (text_of id) × IsUtf8 (text_of id)
unfolding id_is_well_formed text_of
well_formed_sound none b h = cc
well_formed_sound (some s) b h = (
  is_empty-c_str s (ground arith),
  has_control-clean (c_str s) (ground arith),
  (validate_utf8_iff (c_str s) b).0 (ground arith),
)

well_formed_complete :
    (id : Option Bytes)
    → All IsByte (text_of id)
    → text_of id ≢ []
    → All IsIdByte (text_of id)
    → IsUtf8 (text_of id)
    → id_is_well_formed id ≡ true
unfolding id_is_well_formed text_of
well_formed_complete none b n p u = absurd (n refl)
well_formed_complete (some s) b n p u = ground (
  arith,
  is_empty_complete s n,
  has_control_complete (c_str s) p,
  (validate_utf8_iff (c_str s) b).1 u,
)

-- The two tests that admission makes on an identifier.
pub id_is_well_formed-IsIdentifier :
    (id : Option Bytes) (max : ℕ)
    → All IsByte (text_of id)
    → id_too_long id max ≡ false
    → id_is_well_formed id ≡ true
    → IsIdentifier max id
id_is_well_formed-IsIdentifier id max b short h =
    let (n, p, u) = well_formed_sound id b h in
    record { nonempty = n; short = ground (arith, id_too_long_lem id max); printable = p; utf8 = u }

-- `ax_obs_identifier_check` returns AX_OK exactly for the identifiers: UTF-8 of 1 to `max` bytes with
-- no control character.
pub obs_identifier_check_iff :
    (id : Option Bytes) (max : ℕ)
    → All IsByte (text_of id)
    → (obs_identifier_check id max ≡ Code.ok) ↔ IsIdentifier max id
unfolding obs_identifier_check
obs_identifier_check_iff id max b = (
  λ h. id_is_well_formed-IsIdentifier id max b (ground arith) (ground arith),
  λ i. ground (
    arith,
    id_too_long_lem id max,
    i.short,
    well_formed_complete id b i.nonempty i.printable i.utf8,
  ),
)

-- The permitted pairs.
abbrev pub IsPermitted : ℕ → ℕ → Type 0
IsPermitted s f =
    (((s ≡ Completion.complete) ⊎ (s ≡ Completion.truncated)) × (f ≡ Failure.null))
    ⊎ ((s ≡ Completion.error)
        × ((f ≡ Failure.timeout) ⊎ ((f ≡ Failure.invalid_output) ⊎ (f ≡ Failure.transport_error))))

-- `state_pair_is_permitted` accepts COMPLETE and TRUNCATED without a failure and ERROR with one of
-- the three failures, and no other pair of numbers.
pub state_pair_is_permitted_iff : (s f : ℕ) → (state_pair_is_permitted s f ≡ true) ↔ IsPermitted s f
unfolding state_pair_is_permitted
state_pair_is_permitted_iff s f = (λ h. ground arith, λ h. ground arith)

-- What the schema check has established.
pub record IsSchemaValid (in' : Input) : Type 0 where
  pub model_id : id_is_well_formed in'.model_id ≡ true
  pub oracle_id : id_is_well_formed in'.oracle_id ≡ true
  pub pair : IsPermitted in'.completion_state in'.failure_type
  pub error_fits : in'.completion_state ≡ Completion.error → in'.output_len ≤ max_output_bytes
  pub output_given : is_null in'.output ≡ true → in'.output_len ≡ 0

pub schema_sound : (in' : Input) → input_is_schema_valid in' ≡ true → IsSchemaValid in'
unfolding input_is_schema_valid
schema_sound in' h = record {
  model_id = ground arith;
  oracle_id = ground arith;
  pair = (state_pair_is_permitted_iff in'.completion_state in'.failure_type).0 (ground arith);
  error_fits = λ e. ground arith;
  output_given = λ e. ground arith;
}
