-- ===== src/Validate/Normalise.antt =====
-- `ax_normalise_line_endings` (src/validate.c) against a description by one pass over the text.
use axioma_oracle.Prelude.{
  zero, suc, ltb, ◌<◌, ℕ, ◌+◌, ◌≤◌, ◌≡◌, ◌≢◌, refl, sym, ap, ◌∙◌, Bool, true, false, ◌&&◌, List, [],
  ◌∷◌, ◌++◌, append_assoc, append-nil, arith, Bytes, IsByte, Lacks, All, length, length-append, leb,
  ◌==◌, if◌then◌else◌,
}
use axioma_oracle.Types.{Code, Result, done, fail}
use axioma_oracle.Validate.{normalise_loop, normalise_line_endings}
use axioma_oracle.Validate.Utf8.{IsScalar, encode, encode_all, IsUtf8}

-- Every line break becomes one LF: a CR does, and an LF behind a CR is dropped. The flag says
-- whether the byte before was a CR.
unfoldable pub unify : Bool → List ℕ → List ℕ
unify cr [] = []
unify cr (c ∷ s) =
    let after_cr = b'\n' ∷ unify true s in
    let skip = unify false s in
    let copy = c ∷ unify false s in
    if c == b'\r' then after_cr else if c == b'\n' && cr then skip else copy

abbrev fits : ℕ → Bytes → Bytes → Result Bytes
fits cap dst text =
    if leb (length dst + length text) cap then done (dst ++ text) else fail Code.buffer

unify-true : (n : ℕ) (s : List ℕ) → n ≢ b'\n' → unify true (n ∷ s) ≡ unify false (n ∷ s)
unfolding unify
unify-true n s h = ground arith

normalise_loop_lem :
    (cap : ℕ) (dst src : Bytes)
    → length dst ≤ cap
    → normalise_loop cap dst src ≡ fits cap dst (unify false src)
unfolding normalise_loop unify
normalise_loop_lem cap dst [] h = ground (arith, append-nil dst)
normalise_loop_lem cap dst (c ∷ []) h = ground arith
normalise_loop_lem cap dst (c ∷ n ∷ src) h = ground (
  arith,
  normalise_loop_lem cap (dst ++ b'\n' ∷ []) src,
  normalise_loop_lem cap (dst ++ b'\n' ∷ []) (n ∷ src),
  normalise_loop_lem cap (dst ++ c ∷ []) (n ∷ src),
  length-append dst (b'\n' ∷ []),
  length-append dst (c ∷ []),
  append_assoc dst (b'\n' ∷ []) (unify false src),
  append_assoc dst (b'\n' ∷ []) (unify false (n ∷ src)),
  append_assoc dst (c ∷ []) (unify false (n ∷ src)),
)

length-unify : (cr : Bool) (s : Bytes) → length (unify cr s) ≤ length s
unfolding unify
length-unify cr [] = omega arith
length-unify cr (c ∷ s) = ground (arith, length-unify true s, length-unify false s)

-- In a buffer that has room for it and the terminator, `ax_normalise_line_endings` returns the text in which each
-- CRLF and each other CR is one LF and every other byte is copied in its place; in a smaller buffer that is not
-- empty, it returns AX_ERR_BUFFER. Never is a shortened text returned. In a buffer of size 0 it writes out of bounds.
pub normalise_lem :
    (dst_size : ℕ) (src : Bytes)
    → normalise_line_endings dst_size src ≡ (
        if dst_size == 0
        then fail Code.overrun
        else if ltb (length (unify false src)) dst_size
        then done (unify false src)
        else fail Code.buffer)
unfolding normalise_line_endings
normalise_lem zero src = refl
normalise_lem (suc cap) src = normalise_loop_lem cap [] src (omega arith) ∙ ground arith

pub unify-Lacks : (cr : Bool) (s : Bytes) → Lacks b'\r' (unify cr s)
unfolding unify
unify-Lacks cr [] = tt
unify-Lacks cr (c ∷ s) = ground (arith, unify-Lacks true s, unify-Lacks false s)

unify_unchanged : (s : Bytes) → Lacks b'\r' s → unify false s ≡ s
unfolding unify
unify_unchanged [] h = refl
unify_unchanged (c ∷ s) (h, hs) = ground (arith, unify_unchanged s hs)

-- A text that was normalised is normalised: a second run that has the room changes nothing.
pub normalise_idempotent :
    (n m : ℕ) (src : Bytes) {out : Bytes}
    → normalise_line_endings n src ≡ done out
    → length out < m
    → normalise_line_endings m out ≡ done out
normalise_idempotent n m src {out} h k = ground (
  arith,
  normalise_lem n src,
  normalise_lem m out,
  unify_unchanged (unify false src) (unify-Lacks false src),
)

-- One code point, the rest being known.
unify-encode_step :
    (cr : Bool) (cp : ℕ) (cps : List ℕ) (s : Bytes)
    → unify true s ≡ encode_all (unify true cps)
    → unify false s ≡ encode_all (unify false cps)
    → unify cr (encode cp ++ s) ≡ encode_all (unify cr (cp ∷ cps))
unfolding unify encode encode_all
unify-encode_step cr cp cps s ht hf = ground arith

unify-encode_all :
    (cr : Bool) (cps : List ℕ) → unify cr (encode_all cps) ≡ encode_all (unify cr cps)
unfolding encode_all
unify-encode_all cr [] = unfold unify in refl
unify-encode_all cr (cp ∷ cps) =
    unify-encode_step cr cp cps (encode_all cps) (unify-encode_all true cps)
      (unify-encode_all false cps)

unify-IsScalar : (cr : Bool) (cps : List ℕ) → All IsScalar cps → All IsScalar (unify cr cps)
unfolding unify
unify-IsScalar cr [] h = tt
unify-IsScalar cr (cp ∷ cps) (h, hs) =
    ground (arith, h, unify-IsScalar true cps hs, unify-IsScalar false cps hs)

-- Normalising keeps UTF-8.
pub unify-IsUtf8 : (cr : Bool) (s : Bytes) → IsUtf8 s → IsUtf8 (unify cr s)
unify-IsUtf8 cr s (cps, scalars, encoded) = (
  unify cr cps,
  unify-IsScalar cr cps scalars,
  sym (unify-encode_all cr cps) ∙ ap (unify cr) encoded,
)

pub unify-IsByte : (cr : Bool) (s : Bytes) → All IsByte s → All IsByte (unify cr s)
unfolding unify
unify-IsByte cr [] h = tt
unify-IsByte cr (c ∷ s) (h, hs) = ground (arith, unify-IsByte true s hs, unify-IsByte false s hs)

pub length-unify-false : (s : Bytes) → length (unify false s) ≤ length s
length-unify-false s = length-unify false s
