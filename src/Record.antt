-- ===== src/Record.antt =====
-- The structures of include/axilog/obs.h.
--
-- A `const char *` that is a C string is `none` for NULL and else the memory at the pointer, read up
-- to the first zero byte or its end. A pointer with its own length is the memory that it names; the
-- code may read as many bytes as the length says.
use axioma_oracle.Prelude.{ℕ, Bool, false, Option, Bytes}
use axioma_oracle.Types.{Params}

-- `ax_obs_record_t`; `obs_hash` is the C string in the array.
pub record Record : Type 0 where
  pub completion_state : ℕ
  pub failure_type : ℕ
  pub input_hash : Bytes
  pub ledger_seq : ℕ
  pub model_id : Option Bytes
  pub obs_hash : Bytes
  pub oracle_id : Option Bytes
  pub output : Option Bytes
  pub output_size : ℕ
  pub params : Params
  pub schema_version : Option Bytes

-- `ax_obs_input_t`
pub record Input : Type 0 where
  pub completion_state : ℕ
  pub failure_type : ℕ
  pub input : Option Bytes
  pub input_len : ℕ
  pub ledger_seq : ℕ
  pub model_id : Option Bytes
  pub oracle_id : Option Bytes
  pub output : Option Bytes
  pub output_len : ℕ
  pub params : Params

-- `ax_admission_ctx_t`
pub record AdmissionCtx : Type 0 where
  pub last_ledger_seq : ℕ
  pub initialized : Bool

abbrev pub admission_ctx_init : AdmissionCtx
admission_ctx_init = record { last_ledger_seq = 0; initialized = false }
