-- ===== src/Gateway/Settings/Accepted.antt =====
-- Which values the setters of gateway/src/gw_config.c accept.
use axioma_oracle.Prelude.{
  ℕ, ◌<◌, ◌≡◌, ◌≢◌, ◌↔◌, refl, [], ◌∷◌, some, arith, Bytes, All, IsByte, length, c_str,
}
use axioma_oracle.Types.{Code}
use axioma_oracle.Canonical.Escape.{text_of}
use axioma_oracle.Obs.{obs_identifier_check}
use axioma_oracle.Obs.Inputs.{IsIdentifier, obs_identifier_check_iff}
use axioma_oracle.Gateway.Settings.{set_str, after_check, set_id}

after_check-some :
    (e : Code) (cap : ℕ) (v : Bytes)
    → after_check e cap v ≡ some (c_str v)
    → (e ≡ Code.ok) × (length (c_str v) < cap)
unfolding after_check
after_check-some Code.ok cap v h = (refl, ground arith)
after_check-some e cap v h = absurd (ground arith)

length-nonempty : (s : Bytes) → s ≢ [] → 0 < length s
length-nonempty [] h = absurd (h refl)
length-nonempty (c ∷ s) h = omega arith

-- `set_id` stores a configured value, whole, exactly when it is an identifier as admission wants it, of at
-- most `ax_max` bytes, and fits the field with its terminator.
pub set_id_iff :
    (cap ax_max : ℕ) (v : Bytes)
    → All IsByte (text_of (some v))
    → (set_id cap ax_max v ≡ some (c_str v))
      ↔ (IsIdentifier ax_max (some v) × (length (c_str v) < cap))
unfolding set_id text_of
set_id_iff cap ax_max v b = (
  λ h.
      let (ok, fits) = after_check-some (obs_identifier_check (some v) ax_max) cap v h in
      ((obs_identifier_check_iff (some v) ax_max b).0 ok, fits),
  λ (id, fits).
      let some_bytes = length-nonempty (c_str v) id.nonempty in
      rw ((obs_identifier_check_iff (some v) ax_max b).1 id)
        (unfold after_check set_str in ground arith),
)
