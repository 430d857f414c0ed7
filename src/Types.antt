-- ===== src/Types.antt =====
-- include/axilog/l3_types.h, limits.h and oracle.h: return codes, fault flags, limits, the values of
-- the two enumerations and the sampling parameters.
--
-- An enumeration of C is a plain number here, since the code tests for values outside the declared
-- ones. An `int` that is either a length or a negative code is a `Result` of the bytes written: the
-- length is that of the bytes, and it fits an `int` for every buffer below 2 GiB.
pub mod Completion
pub mod Failure
use axioma_oracle.Prelude.{
  ◌≡◌, ◌≢◌, ◌⊎◌, inl, inr, refl, ℕ, zero, suc, ◌-◌, ◌*◌, ◌^◌, Bool, false, ◌||◌, Bytes, codes,
}
use axioma_oracle.Prelude.Int.{ℤ, negsuc, int_eq, IsInt32, IsInt64}

-- `overrun` is no code of the source: it stands for a write past the end of a buffer of size 0, behind which
-- C says nothing, so that what a call with this code leaves is no statement about the source.
pub data Code : Type 0 where
  overrun ok encoding schema ordering size hash buffer protocol : Code

pub data Result {ℓ} (A : Type ℓ) : Type ℓ where
  done : A → Result A
  fail : Code → Result A

-- `ax_l3_fault_flags_t`. The substrate's eight bytes are kept as one flag, `ct_fault_any` of them.
pub record Faults : Type 0 where
  pub base : Bool
  pub precision : Bool
  pub encoding : Bool
  pub schema : Bool
  pub ordering : Bool
  pub size : Bool
  pub protocol : Bool

unfoldable pub l3_fault_any : Faults → Bool
l3_fault_any f =
    f.base || f.precision || f.encoding || f.schema || f.ordering || f.size || f.protocol

abbrev pub l3_fault_init : Faults
l3_fault_init = record {
  base = false;
  precision = false;
  encoding = false;
  schema = false;
  ordering = false;
  size = false;
  protocol = false;
}

-- limits.h

abbrev pub max_obs_bytes : ℕ
max_obs_bytes = 65536

abbrev pub max_output_bytes : ℕ
max_output_bytes = max_obs_bytes - 1024

abbrev pub max_model_id_bytes : ℕ
max_model_id_bytes = 256

abbrev pub max_oracle_id_bytes : ℕ
max_oracle_id_bytes = 256

abbrev pub hash_size : ℕ
hash_size = 32

abbrev pub hash_hex_size : ℕ
hash_hex_size = 65

abbrev pub canonical_buffer_size : ℕ
canonical_buffer_size = max_obs_bytes * 2

abbrev pub params_buffer_size : ℕ
params_buffer_size = 256

-- `size - 1` of a `size_t`
abbrev pub size_mod : ℕ
size_mod = 2 ^ 64

unfoldable pub room : ℕ → ℕ
room zero = size_mod - 1
room (suc n) = n

-- oracle.h

abbrev pub schema_version_text : Bytes
schema_version_text = codes "AX:OBS:v1"

abbrev pub null_int32 : ℤ
null_int32 = negsuc 0

abbrev pub null_int64 : ℤ
null_int64 = negsuc 0

abbrev pub int32_min : ℤ
int32_min = negsuc (2 ^ 31 - 1)

abbrev pub null_q16 : ℤ
null_q16 = int32_min

pub record Params : Type 0 where
  pub max_tokens : ℤ
  pub seed : ℤ
  pub temperature : ℤ
  pub top_p : ℤ

-- The values that the fields of the structure can hold.
pub record IsParams (p : Params) : Type 0 where
  pub max_tokens : IsInt32 p.max_tokens
  pub seed : IsInt64 p.seed
  pub temperature : IsInt32 p.temperature
  pub top_p : IsInt32 p.top_p

abbrev pub params_init_null : Params
params_init_null = record {
  max_tokens = null_int32;
  seed = null_int64;
  temperature = null_q16;
  top_p = null_q16;
}

unfoldable pub max_tokens_is_null : Params → Bool
max_tokens_is_null p = int_eq p.max_tokens null_int32

unfoldable pub seed_is_null : Params → Bool
seed_is_null p = int_eq p.seed null_int64

unfoldable pub temperature_is_null : Params → Bool
temperature_is_null p = int_eq p.temperature null_q16

unfoldable pub top_p_is_null : Params → Bool
top_p_is_null p = int_eq p.top_p null_q16

-- Early return on a negative code.
infixl 5 ◌>>=◌
abbrev pub ◌>>=◌ {ℓ κ} : {A : Type ℓ} {B : Type κ} → Result A → (A → Result B) → Result B
done a >>= f = f a
fail e >>= f = fail e

pub Result-cases {ℓ} :
    {A : Type ℓ} (r : Result A) → ((a : A) × (r ≡ done a)) ⊎ ((e : Code) × (r ≡ fail e))
Result-cases (done a) = inl (a, refl)
Result-cases (fail e) = inr (e, refl)

pub Code-cases : (e : Code) → (e ≡ Code.ok) ⊎ (e ≢ Code.ok)
Code-cases Code.ok = inl refl
Code-cases e = inr (λ k. cc)
