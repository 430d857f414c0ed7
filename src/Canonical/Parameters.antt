-- ===== src/Canonical/Parameters.antt =====
-- The canonical JSON of the sampling parameters (src/canonical.c).
use axioma_oracle.Prelude.{
  All-append, subst, ℕ, ◌≤◌, ◌<◌, ◌≡◌, ◌≢◌, refl, sym, ap, ◌∙◌, Bool, true, false, [], ◌∷◌, ◌++◌,
  append_assoc, arith, Bytes, codes, length, length-append, c_str, c_str_lem, Lacks, if◌then◌else◌,
  Bool-cases, inl, inr, split_at, append_cancel_left,
}
use axioma_oracle.Prelude.Int.{ℤ, IsInt64, IsInt32-IsInt64, int_eq, int_eq→eq}
use axioma_oracle.Types.{
  null_int32, null_int64, null_q16, Params, IsParams, done, params_buffer_size, room,
  max_tokens_is_null, seed_is_null, temperature_is_null, top_p_is_null,
}
use axioma_oracle.Canonical.{
  write_number, write_optional, format_int64, format_q16, num_buf_size, params_canonicalise,
}
use axioma_oracle.Canonical.Writer.{
  after, written, write_init-after, write_char-after, write_str-after, write_finish-after,
  written-done, written-inv,
}
use axioma_oracle.Canonical.Decimal.{
  signed_text, signed_text-Lacks, signed-signed_text, format_int64_text, length-signed_text, signed,
  IsDigit,
}

-- A value, or `null` for the sentinel.
pub optional_text : Bool → ℤ → Bytes
optional_text is_null z = if is_null then codes "null" else signed_text z

pub params_text : Params → Bytes
params_text p =
    codes "{\"max_tokens\":"
    ++ (optional_text (max_tokens_is_null p) p.max_tokens
        ++ (codes ",\"seed\":"
            ++ (optional_text (seed_is_null p) p.seed
                ++ (codes ",\"temperature\":"
                    ++ (optional_text (temperature_is_null p) p.temperature
                        ++ (codes ",\"top_p\":"
                            ++ (optional_text (top_p_is_null p) p.top_p ++ b'}' ∷ [])))))))

write_optional-after :
    (size : ℕ) (is_null : Bool) (z : ℤ)
    → IsInt64 z
    → (text : Bytes)
    → write_optional (after size text) is_null (format_int64 num_buf_size z)
      ≡ after size (text ++ optional_text is_null z)
unfolding write_optional optional_text c_str
write_optional-after size true z h text = write_str-after size text (codes "null")
write_optional-after size false z h text = rw (format_int64_text z h) (
    unfold write_number in
    (write_str-after size text (signed_text z)
      ∙ ap (λ s. after size (text ++ s))
          (c_str_lem (signed_text z) (signed_text-Lacks z 0 (λ d. omega arith) (omega arith)))))

-- What `ax_params_canonicalise` writes, for every value that the fields can hold.
pub params_canonicalise_text :
    (size : ℕ) (p : Params) → IsParams p → params_canonicalise size p ≡ written size (params_text p)
unfolding params_canonicalise format_q16 params_text c_str
params_canonicalise_text size p h =
    let o1 =
      write_optional-after size (max_tokens_is_null p) p.max_tokens
        (IsInt32-IsInt64 p.max_tokens h.max_tokens) in
    let o2 = write_optional-after size (seed_is_null p) p.seed h.seed in
    let o3 =
      write_optional-after size (temperature_is_null p) p.temperature
        (IsInt32-IsInt64 p.temperature h.temperature) in
    let o4 =
      write_optional-after size (top_p_is_null p) p.top_p (IsInt32-IsInt64 p.top_p h.top_p) in
    simp (
      write_init-after, write_char-after, write_str-after, o1, o2, o3, o4, write_finish-after,
      append_assoc,
    )

length-optional_text : (b : Bool) (z : ℤ) → IsInt64 z → length (optional_text b z) ≤ 21
unfolding optional_text
length-optional_text true z h = omega arith
length-optional_text false z h = length-signed_text z h

-- Every parameter object fits `params_buf`.
pub length-params_text : (p : Params) → IsParams p → length (params_text p) < params_buffer_size
unfolding params_text
length-params_text p h =
    let l1 =
      length-optional_text (max_tokens_is_null p) p.max_tokens
        (IsInt32-IsInt64 p.max_tokens h.max_tokens) in
    let l2 = length-optional_text (seed_is_null p) p.seed h.seed in
    let l3 =
      length-optional_text (temperature_is_null p) p.temperature
        (IsInt32-IsInt64 p.temperature h.temperature) in
    let l4 = length-optional_text (top_p_is_null p) p.top_p (IsInt32-IsInt64 p.top_p h.top_p) in
    omega (arith, l1, l2, l3, l4, length-append {0})

pub params_canonicalise_done :
    (p : Params) → IsParams p → params_canonicalise params_buffer_size p ≡ done (params_text p)
params_canonicalise_done p h =
    params_canonicalise_text params_buffer_size p h
    ∙ written-done params_buffer_size (params_text p) (omega arith)
        (unfold room in omega (arith, length-params_text p h))

optional_text-Lacks :
    (c : ℕ) (b : Bool) (z : ℤ)
    → ¬ (IsDigit c)
    → c ≢ b'-'
    → Lacks c (codes "null")
    → Lacks c (optional_text b z)
unfolding optional_text
optional_text-Lacks c true z h k l = l
optional_text-Lacks c false z h k l = signed_text-Lacks z c h k

optional_text_inj :
    (sentinel z w : ℤ)
    → IsInt64 z
    → IsInt64 w
    → optional_text (int_eq z sentinel) z ≡ optional_text (int_eq w sentinel) w
    → z ≡ w
unfolding optional_text
optional_text_inj sentinel z w hz hw e = elim (Bool-cases (int_eq z sentinel)) [
  | inl zn ↦ elim (Bool-cases (int_eq w sentinel)) [
    | inl wn ↦ int_eq→eq z sentinel zn ∙ sym (int_eq→eq w sentinel wn)
    | inr wv ↦ absurd (is_text w (rw (zn, wv) at e))
  ]
  | inr zv ↦ elim (Bool-cases (int_eq w sentinel)) [
    | inl wn ↦ absurd (is_text z (sym (rw (zv, wn) at e)))
    | inr wv ↦
        sym (signed-signed_text z hz) ∙ ap signed (rw (zv, wv) at e) ∙ signed-signed_text w hw
  ]
]
  where
    is_text : (v : ℤ) → codes "null" ≡ signed_text v → ⊥
    is_text v e =
        let none_there : Lacks b'n' (codes "null") =
          subst (Lacks b'n') (sym e) (signed_text-Lacks v b'n' (λ d. omega arith) (omega arith)) in
        none_there.0 refl

-- Two parameter objects print alike only if they are the same.
pub params_text_inj :
    (p q : Params) {r s : Bytes}
    → IsParams p
    → IsParams q
    → params_text p ++ r ≡ params_text q ++ s
    → (p ≡ q) × (r ≡ s)
unfolding params_text max_tokens_is_null seed_is_null temperature_is_null top_p_is_null
params_text_inj p q hp hq e =
    let comma = λ (b : Bool) (z : ℤ).
      optional_text-Lacks b',' b z (λ d. omega arith) (omega arith) (omega arith) in
    let brace = λ (b : Bool) (z : ℤ).
      optional_text-Lacks b'}' b z (λ d. omega arith) (omega arith) (omega arith) in
    let e0 = append_cancel_left (codes "{\"max_tokens\":") _ _ (simp append_assoc at e) in
    let (m, e1) = split_at b',' _ _ (comma _ p.max_tokens) (comma _ q.max_tokens) e0 in
    let e1' = append_cancel_left (codes "\"seed\":") _ _ e1 in
    let (n, e2) = split_at b',' _ _ (comma _ p.seed) (comma _ q.seed) e1' in
    let e2' = append_cancel_left (codes "\"temperature\":") _ _ e2 in
    let (t, e3) = split_at b',' _ _ (comma _ p.temperature) (comma _ q.temperature) e2' in
    let e3' = append_cancel_left (codes "\"top_p\":") _ _ e3 in
    let (u, e4) = split_at b'}' _ _ (brace _ p.top_p) (brace _ q.top_p) e3' in
    let wide = IsInt32-IsInt64 in
    let m' =
      optional_text_inj null_int32 p.max_tokens q.max_tokens (wide p.max_tokens hp.max_tokens)
        (wide q.max_tokens hq.max_tokens) m in
    let n' = optional_text_inj null_int64 p.seed q.seed hp.seed hq.seed n in
    let t' =
      optional_text_inj null_q16 p.temperature q.temperature (wide p.temperature hp.temperature)
        (wide q.temperature hq.temperature) t in
    let u' =
      optional_text_inj null_q16 p.top_p q.top_p (wide p.top_p hp.top_p) (wide q.top_p hq.top_p)
        u in
    (λ i. record { max_tokens = m' i; seed = n' i; temperature = t' i; top_p = u' i }, e4)

-- No byte of the text is zero, so `write_str` copies all of it.
pub params_text-Lacks : (p : Params) → Lacks 0 (params_text p)
unfolding params_text
params_text-Lacks p =
    let join : (xs ys : Bytes) → Lacks 0 xs → Lacks 0 ys → Lacks 0 (xs ++ ys) =
      All-append (λ c. c ≢ 0) in
    let value = λ (b : Bool) (z : ℤ).
      optional_text-Lacks 0 b z (λ d. omega arith) (omega arith) (omega arith) in
    join (codes "{\"max_tokens\":") _ (omega arith) (
      join (optional_text _ p.max_tokens) _ (value _ p.max_tokens) (
        join (codes ",\"seed\":") _ (omega arith) (
          join (optional_text _ p.seed) _ (value _ p.seed) (
            join (codes ",\"temperature\":") _ (omega arith) (
              join (optional_text _ p.temperature) _ (value _ p.temperature) (
                join (codes ",\"top_p\":") _ (omega arith)
                  (join (optional_text _ p.top_p) _ (value _ p.top_p) (omega arith))))))))

-- `ax_params_canonicalise` prints every parameter object into the 256 bytes that its caller gives.
pub params_canonicalise_fits :
    (p : Params)
    → IsParams p
    → (text : Bytes) × (params_canonicalise params_buffer_size p ≡ done text)
      × (length text < params_buffer_size)
params_canonicalise_fits p hp =
    (params_text p, params_canonicalise_done p hp, length-params_text p hp)

-- `ax_params_canonicalise` prints two parameter objects as the same text, into buffers of whatever
-- sizes, only if they are the same object.
pub params_canonicalise_inj :
    (n m : ℕ) (p q : Params) {text : Bytes}
    → IsParams p
    → IsParams q
    → params_canonicalise n p ≡ done text
    → params_canonicalise m q ≡ done text
    → p ≡ q
params_canonicalise_inj n m p q hp hq e f =
    let x = written-inv n (params_text p) (sym (params_canonicalise_text n p hp) ∙ e) in
    let y = written-inv m (params_text q) (sym (params_canonicalise_text m q hq) ∙ f) in
    (params_text_inj p q {r = []} {s = []} hp hq (ap (λ t. t ++ []) (sym x ∙ y))).0
