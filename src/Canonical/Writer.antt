-- ===== src/Canonical/Writer.antt =====
-- The writer of src/canonical.c keeps the longest start of the text that fits, and knows whether
-- something is missing.
use axioma_oracle.Prelude.{
  refl, ◌==◌, zero, suc, ℕ, ◌<◌, ◌≤◌, ◌<◌, min, ◌≡◌, sym, ap, [], ◌∷◌, ◌++◌, append-nil,
  append_assoc, arith, Bytes, take, take-all, take-append, length, length-append, c_str, ltb,
  if◌then◌else◌, Bool-cases, inl, inr, ltb→le,
}
use axioma_oracle.Types.{Code, Result, done, fail, room}
use axioma_oracle.Canonical.{leb, WriteCtx, write_init, write_char, write_str, write_finish}

-- The writer over a buffer of `size` bytes when `text` has been written to it.
pub after : ℕ → Bytes → WriteCtx
after size text = record {
  buf = take (room size) text;
  size = size;
  pos = min (room size) (length text);
  overflow = ltb (room size) (length text);
}

pub write_init-after : (size : ℕ) → write_init size ≡ after size []
unfolding write_init after
write_init-after size = ground (arith, take-all {A = ℕ} (room size) [] (omega arith))

pub write_char-after :
    (size : ℕ) (text : Bytes) (c : ℕ) → write_char (after size text) c ≡ after size (text ++ c ∷ [])
unfolding write_char after
write_char-after size text c = elim (Bool-cases (ltb (length text) (room size))) [
  | inl more ↦ ground (
    arith,
    take-all (room size) text (ground arith),
    take-all (room size) (text ++ c ∷ []) (ground (arith, length-append text (c ∷ []))),
    length-append text (c ∷ []),
  )
  | inr full ↦
      ground
        (arith, take-append (room size) text (c ∷ []) (ground arith), length-append text (c ∷ []))
]

pub write_str-after :
    (size : ℕ) (text s : Bytes) → write_str (after size text) s ≡ after size (text ++ c_str s)
unfolding write_str c_str
write_str-after size text [] = ap (after size) (sym (append-nil text))
write_str-after size text (c ∷ s) = ground (
  arith,
  write_char-after size text c,
  write_str-after size (text ++ c ∷ []) s,
  append_assoc text (c ∷ []) (c_str s),
  append-nil text,
)

-- The result for a buffer that is not empty: the whole text when it fits with its terminator, else AX_ERR_BUFFER.
pub written : ℕ → Bytes → Result Bytes
written zero text = fail Code.overrun
written (suc cap) text = if ltb cap (length text) then fail Code.buffer else done text

pub write_finish-after :
    (size : ℕ) (text : Bytes) → write_finish (after size text) ≡ written size text
unfolding write_finish after written room
write_finish-after zero text = refl
write_finish-after (suc cap) text = elim (Bool-cases (ltb cap (length text))) [
  | inl more ↦ rw more (ground arith)
  | inr full ↦ rw full (ground (arith, take-all cap text (ltb→le cap (length text) full)))
]

pub written-done :
    (size : ℕ) (text : Bytes) → 0 < size → length text ≤ room size → written size text ≡ done text
unfolding written room
written-done zero text p h = absurd (omega (arith, p))
written-done (suc cap) text p h = ground (arith, h)

pub written-inv :
    (size : ℕ) (text : Bytes) {out : Bytes} → written size text ≡ done out → out ≡ text
unfolding written
written-inv zero text h = absurd (ground arith)
written-inv (suc cap) text h = ground arith

pub written-buffer :
    (size : ℕ) (text : Bytes)
    → 0 < size
    → room size < length text
    → written size text ≡ fail Code.buffer
unfolding written room
written-buffer zero text p h = absurd (omega (arith, p))
written-buffer (suc cap) text p h = ground (arith, h)

pub written_cases :
    (size : ℕ) (text : Bytes)
    → written size text ≡ (
        if size == 0
        then fail Code.overrun
        else if leb size (length text)
        then fail Code.buffer
        else done text)
unfolding written
written_cases zero text = refl
written_cases (suc cap) text = ground arith
