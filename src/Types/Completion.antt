-- ===== src/Types/Completion.antt =====
-- `ax_completion_state_t` of include/axilog/oracle.h.
use axioma_oracle.Prelude.{ℕ}

abbrev pub complete : ℕ
complete = 0

abbrev pub truncated : ℕ
truncated = 1

abbrev pub error : ℕ
error = 2
