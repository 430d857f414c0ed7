-- ===== src/Validate/Text.antt =====
-- `ax_contains_forbidden_control`, `ax_validate_encoding` and `ax_validate_and_normalise`
-- (src/validate.c): what an accepted text is, and what a refusal reports.
use axioma_oracle.Prelude.{
  ◌<◌, ℕ, ◌≤◌, ◌≡◌, ◌≢◌, refl, ◌⊎◌, ◌↔◌, true, false, [], ◌∷◌, arith, Bytes, All, IsByte, Lacks,
  length,
}
use axioma_oracle.Types.{Code, done, fail, Faults}
use axioma_oracle.Validate.{
  validate_utf8, contains_forbidden_control, is_nfc, validate_encoding, check_normalised,
  after_normalise, validate_and_normalise,
}
use axioma_oracle.Validate.Utf8.{IsUtf8, validate_utf8_iff}
use axioma_oracle.Validate.Normalise.{
  unify, normalise_lem, unify-IsUtf8, unify-IsByte, length-unify-false,
}

-- No C0 control but LF, and no DEL.
abbrev pub IsPrintable : ℕ → Type 0
IsPrintable c = ((0x20 ≤ c) ⊎ (c ≡ 0x0A)) × (c ≢ 0x7F)

pub control_free : (s : Bytes) → contains_forbidden_control s ≡ false → All IsPrintable s
unfolding contains_forbidden_control
control_free [] h = tt
control_free (c ∷ s) h = ground (arith, control_free s)

pub control_free_complete : (s : Bytes) → All IsPrintable s → contains_forbidden_control s ≡ false
unfolding contains_forbidden_control
control_free_complete [] h = refl
control_free_complete (c ∷ s) (h, hs) = ground (arith, control_free_complete s hs)

-- `ax_contains_forbidden_control` returns 0 exactly when every byte is LF or at least 0x20, and none
-- is DEL.
pub contains_forbidden_control_iff :
    (s : Bytes) → (contains_forbidden_control s ≡ false) ↔ All IsPrintable s
contains_forbidden_control_iff s = (control_free s, control_free_complete s)

pub IsPrintable-Lacks : (s : Bytes) → All IsPrintable s → Lacks 0 s
IsPrintable-Lacks [] h = tt
IsPrintable-Lacks (c ∷ s) (h, hs) = (ground arith, IsPrintable-Lacks s hs)

-- A text as admission stores it.
pub record IsStored (s : Bytes) : Type 0 where
  pub utf8 : IsUtf8 s
  pub bytes : All IsByte s
  pub printable : All IsPrintable s
  pub nfc : is_nfc s ≡ true

-- What `ax_validate_and_normalise` returns when it succeeds: the source was UTF-8, the result is its
-- normal form, of no greater length, still UTF-8, free of forbidden controls and of the combining
-- marks that the NFC check knows, and no fault flag was raised.
pub validate_and_normalise_done :
    (dst_size : ℕ) (src : Bytes) (faults : Faults) {out : Bytes}
    → All IsByte src
    → (validate_and_normalise dst_size src faults).0 ≡ done out
    → IsUtf8 src
      × (out ≡ unify false src)
      × (length out ≤ length src)
      × IsStored out
      × ((validate_and_normalise dst_size src faults).1 ≡ faults)
unfolding validate_and_normalise after_normalise check_normalised
validate_and_normalise_done dst_size src faults {out} b h =
    let valid : validate_utf8 src ≡ true = ground (arith, normalise_lem dst_size src) in
    let same : out ≡ unify false src = ground (arith, normalise_lem dst_size src) in
    let clean : contains_forbidden_control out ≡ false =
      ground (arith, normalise_lem dst_size src) in
    let nfc : is_nfc out ≡ true = ground (arith, normalise_lem dst_size src) in
    let utf8 = (validate_utf8_iff src b).0 valid in
    (
      utf8,
      same,
      rw same (length-unify-false src),
      record {
        utf8 = rw same (unify-IsUtf8 false src utf8);
        bytes = rw same (unify-IsByte false src b);
        printable = control_free out clean;
        nfc = nfc;
      },
      ground (arith, normalise_lem dst_size src),
    )

-- The other direction: UTF-8 whose normal form fits with its terminator, has no forbidden control and
-- passes the NFC check is accepted.
pub validate_and_normalise_complete :
    (dst_size : ℕ) (src : Bytes) (faults : Faults)
    → All IsByte src
    → IsUtf8 src
    → length (unify false src) < dst_size
    → All IsPrintable (unify false src)
    → is_nfc (unify false src) ≡ true
    → validate_and_normalise dst_size src faults ≡ (done (unify false src), faults)
unfolding validate_and_normalise after_normalise check_normalised
validate_and_normalise_complete dst_size src faults b utf8 fits printable nfc = ground (
  arith,
  normalise_lem dst_size src,
  (validate_utf8_iff src b).1 utf8,
  control_free_complete (unify false src) printable,
)

-- A refusal of `ax_validate_and_normalise` is AX_ERR_ENCODING with the encoding flag raised or
-- AX_ERR_BUFFER with the size flag raised, and every other flag stays as it was; or the buffer has size 0, and the
-- function writes out of bounds.
pub validate_and_normalise_fail :
    (dst_size : ℕ) (src : Bytes) (faults : Faults) {e : Code}
    → (validate_and_normalise dst_size src faults).0 ≡ fail e
    → ((e ≡ Code.encoding)
        × ((validate_and_normalise dst_size src faults).1 ≡ record faults { encoding = true }))
      ⊎ ((e ≡ Code.buffer)
          × ((validate_and_normalise dst_size src faults).1 ≡ record faults { size = true }))
      ⊎ ((e ≡ Code.overrun)
          × (dst_size ≡ 0)
          × ((validate_and_normalise dst_size src faults).1 ≡ record faults { size = true }))
unfolding validate_and_normalise after_normalise check_normalised
validate_and_normalise_fail dst_size src faults h = ground (arith, normalise_lem dst_size src)

-- A stored text passes `ax_validate_encoding`.
pub validate_encoding-IsStored : (s : Bytes) → IsStored s → validate_encoding s ≡ Code.ok
unfolding validate_encoding
validate_encoding-IsStored s stored =
    ground (arith, (validate_utf8_iff s stored.bytes).1 stored.utf8, stored.nfc)
