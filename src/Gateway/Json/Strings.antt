-- ===== src/Gateway/Json/Strings.antt =====
-- The two scanners of a JSON string in gateway/src/gw_json.c, `s_skip_string` and `s_decode_string`, compared.
use axioma_oracle.Prelude.{
  ◌>>=◌, ℕ, ◌≡◌, ◌∙◌, refl, not, ◌||◌, [], ◌∷◌, none, some, Option, arith, Bytes, inl, inr, ◌==◌,
  if◌then◌else◌, Bool-cases,
}
use axioma_oracle.Gateway.Json.Text.{
  s_read_u4, put, put_utf8, is_high, is_low, surrogate_pair, simple_escape, decode_rest,
  decode_escape, decode_u4, decode_low, s_decode_string, s_skip_string, skip_rest, skip_escape,
  skip_u4,
}

pub bind-some :
    {A B : Type 0} (m : Option A) (f : A → Option B) {b : B}
    → m >>= f ≡ some b
    → (a : A) × (m ≡ some a) × (f a ≡ some b)
bind-some none f e = cc
bind-some (some a) f e = (a, refl, e)

tests-pass :
    {B : Type 0} (x y : ℕ) (m : Option B) {b : B}
    → (if not (x == b'\\') || not (y == b'u') then none else m) ≡ some b
    → ((x ≡ b'\\') × (y ≡ b'u')) × (m ≡ some b)
tests-pass x y m e = ground arith

skip_unicode :
    (x y a b c d : ℕ) (s : Bytes)
    → (x ≡ b'\\') × (y ≡ b'u')
    → skip_rest (x ∷ y ∷ a ∷ b ∷ c ∷ d ∷ s) ≡ skip_rest s
unfolding skip_rest
skip_unicode x y a b c d s (p, q) = rw (p, q) refl

mutual
  unfolding decode_rest skip_rest

  rest-ends :
      (cap : ℕ) (dst s t rest : Bytes)
      → decode_rest cap dst s ≡ some (t, rest)
      → skip_rest s ≡ some rest
  rest-ends cap dst [] t rest e = cc
  rest-ends cap dst (c ∷ s) t rest e = elim (Bool-cases (c == b'"')) [
    | inl q ↦ rw q (cc (rw q at e))
    | inr q ↦ elim (Bool-cases (c == b'\\')) [
      | inl b ↦ rw (q, b) (escape-ends cap dst s t rest (rw (q, b) at e))
      | inr b ↦
          let (dst', _, more) =
            bind-some (put cap dst (c ∷ [])) (λ d. decode_rest cap d s) (rw (q, b) at e) in
          rw (q, b) (rest-ends cap dst' s t rest more)
    ]
  ]

  escape-ends :
      (cap : ℕ) (dst s t rest : Bytes)
      → decode_escape cap dst s ≡ some (t, rest)
      → skip_escape s ≡ some rest
  escape-ends cap dst [] t rest e = cc
  escape-ends cap dst (c ∷ s) t rest e = elim (Bool-cases (c == b'u')) [
    | inl u ↦ rw u (u4-ends cap dst s t rest (rw u at e))
    | inr u ↦
        let (b, _, e1) =
          bind-some (simple_escape c) (λ b. put cap dst b >>= λ d. decode_rest cap d s)
            (rw u at e) in
        let (dst', _, more) = bind-some (put cap dst b) (λ d. decode_rest cap d s) e1 in
        rw u (rest-ends cap dst' s t rest more)
  ]

  u4-ends :
      (cap : ℕ) (dst s t rest : Bytes)
      → decode_u4 cap dst s ≡ some (t, rest)
      → skip_u4 s ≡ some rest
  u4-ends cap dst [] t rest e = cc
  u4-ends cap dst (a ∷ []) t rest e = cc
  u4-ends cap dst (a ∷ b ∷ []) t rest e = cc
  u4-ends cap dst (a ∷ b ∷ c ∷ []) t rest e = cc
  u4-ends cap dst (a ∷ b ∷ c ∷ d ∷ s) t rest e =
      let (u1, _, e1) = bind-some (s_read_u4 a b c d) _ e in
      elim (Bool-cases (is_high u1)) [
        | inl h ↦ low-ends cap dst u1 s t rest (rw h at e1)
        | inr h ↦ elim (Bool-cases (is_low u1)) [
          | inl l ↦ cc (rw (h, l) at e1)
          | inr l ↦
              let (dst', _, more) =
                bind-some (put_utf8 cap dst u1) (λ d. decode_rest cap d s) (rw (h, l) at e1) in
              rest-ends cap dst' s t rest more
        ]
      ]

  low-ends :
      (cap : ℕ) (dst : Bytes) (u1 : ℕ) (s t rest : Bytes)
      → decode_low cap dst u1 s ≡ some (t, rest)
      → skip_rest s ≡ some rest
  low-ends cap dst u1 [] t rest e = cc
  low-ends cap dst u1 (x ∷ []) t rest e = cc
  low-ends cap dst u1 (x ∷ y ∷ []) t rest e = cc
  low-ends cap dst u1 (x ∷ y ∷ a ∷ []) t rest e = cc
  low-ends cap dst u1 (x ∷ y ∷ a ∷ b ∷ []) t rest e = cc
  low-ends cap dst u1 (x ∷ y ∷ a ∷ b ∷ c ∷ []) t rest e = cc
  low-ends cap dst u1 (x ∷ y ∷ a ∷ b ∷ c ∷ d ∷ s) t rest e =
      let (tests, e1) = tests-pass x y _ e in
      let (u2, _, e2) = bind-some (s_read_u4 a b c d) _ e1 in
      let (cp, _, e3) = bind-some (surrogate_pair u1 u2) _ e2 in
      let (dst', _, more) = bind-some (put_utf8 cap dst cp) (λ d. decode_rest cap d s) e3 in
      skip_unicode x y a b c d s tests ∙ rest-ends cap dst' s t rest more

-- A string that `s_decode_string` decodes is one that `s_skip_string` steps over, to the same place.
pub s_decode_string-s_skip_string :
    (cap : ℕ) (dst s t rest : Bytes)
    → s_decode_string cap dst s ≡ some (t, rest)
    → s_skip_string s ≡ some rest
unfolding s_decode_string s_skip_string
s_decode_string-s_skip_string cap dst [] t rest e = cc
s_decode_string-s_skip_string cap dst (c ∷ s) t rest e = elim (Bool-cases (c == b'"')) [
  | inl q ↦ rw q (rest-ends cap dst s t rest (rw q at e))
  | inr q ↦ cc (rw q at e)
]
