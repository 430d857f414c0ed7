-- ===== src/Types/Failure.antt =====
-- `ax_failure_type_t` of include/axilog/oracle.h.
use axioma_oracle.Prelude.{ℕ}

abbrev pub null : ℕ
null = 0

abbrev pub timeout : ℕ
timeout = 1

abbrev pub invalid_output : ℕ
invalid_output = 2

abbrev pub transport_error : ℕ
transport_error = 3
