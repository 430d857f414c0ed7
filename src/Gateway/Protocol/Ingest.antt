-- ===== src/Gateway/Protocol/Ingest.antt =====
-- The loop over the lines of a request (gateway/src/gw_main.c) ends.
use axioma_oracle.Prelude.{
  ℕ, zero, suc, ◌<◌, ◌≡◌, refl, [], ◌∷◌, Option, none, some, Bytes, c_str, length, ◌==◌, arith,
  Bool-cases, inl, inr,
}
use axioma_oracle.Gateway.Json.Strings.{bind-some}
use axioma_oracle.Gateway.Json.Body.{repeat}
use axioma_oracle.Gateway.Protocol.{
  read_line, Header, Line, keep, refuse, header_line, Lines, ended, refused, next_line, lines_line,
  lines_read, lines_round, read_header,
}

second :
    {a b c d : Bytes}
    → Path (Option (Bytes × Bytes)) (some (a, c)) (some (b, d))
    → length c ≡ length d
second e = ground arith

length-read_line :
    (cap : ℕ) (s line rest : Bytes) → read_line cap s ≡ some (line, rest) → length rest < length s
unfolding read_line
length-read_line zero s line rest e = cc
length-read_line (suc zero) s line rest e = cc
length-read_line (suc (suc cap)) [] line rest e = cc
length-read_line (suc (suc cap)) (c ∷ s) line rest e = elim (Bool-cases (c == b'\n')) [
  | inl lf ↦ omega (arith, second (rw lf at e))
  | inr no_lf ↦
      let (r, p, q) =
        bind-some (read_line (suc cap) s) (λ r. some (c ∷ r.0, r.1)) (rw no_lf at e) in
      omega (arith, length-read_line (suc cap) s r.0 r.1 p, second q)
]

abbrev Answers : Option Lines → Type 0
Answers o = (l : Lines) × (o ≡ some l)

next_line-Answers :
    (more : Header × Bytes → Option Lines) (s : Bytes) (l : Line)
    → ((h : Header) → Answers (more (h, s)))
    → Answers (next_line more s l)
unfolding next_line
next_line-Answers more s (keep h) m = m h
next_line-Answers more s (refuse reason) m = (refused reason, refl)

lines_read-Answers :
    (more : Header × Bytes → Option Lines) (h : Header) (o : Option (Bytes × Bytes))
    → ((line s : Bytes) → o ≡ some (line, s) → (h' : Header) → Answers (more (h', s)))
    → Answers (lines_read more h o)
unfolding lines_read lines_line
lines_read-Answers more h none m = (refused _, refl)
lines_read-Answers more h (some (line, s)) m = elim (Bool-cases (length (c_str line) == 0)) [
  | inl blank ↦ (ended h s, rw blank refl)
  | inr text ↦
      let (l, e) = next_line-Answers more s (header_line h (c_str line)) (m line s refl) in
      (l, rw text e)
]

repeat-Answers :
    (fuel : ℕ) (h : Header) (s : Bytes) → length s < fuel → Answers (repeat lines_round fuel (h, s))
unfolding repeat lines_round
repeat-Answers zero h s k = absurd (omega (arith, k))
repeat-Answers (suc fuel) h s k =
    lines_read-Answers (repeat lines_round fuel) h (read_line 256 s) (λ line rest e h'.
      repeat-Answers fuel h' rest (omega (arith, k, length-read_line 256 s line rest e)))

-- The loop over the lines of a request ends, on everything that a client can send: with the numbers and what is
-- left behind the blank line, or with a reason to refuse.
pub read_header_total : (h : Header) (s : Bytes) → (l : Lines) × (read_header h s ≡ some l)
unfolding read_header
read_header_total h s = repeat-Answers (suc (length s)) h s (omega arith)
