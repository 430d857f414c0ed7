-- ===== src/Gateway/Json/Content/Loops.antt =====
-- The loops of `gwj_content_text` (gateway/src/gw_json.c): every round moves forward, so the fuel of the model is
-- enough.
use axioma_oracle.Prelude.{
  ◌>>=◌, ℕ, zero, suc, ◌==◌, ◌≤◌, ◌<◌, ◌≡◌, ◌∙◌, refl, true, [], ◌∷◌, Option, none, some, Bytes,
  codes, length, c_str, same, if◌then◌else◌, arith, Bool-cases, Option-cases, sym, inl, inr,
}
use axioma_oracle.Gateway.Json.Text.{s_ws, s_decode_string, s_skip_string}
use axioma_oracle.Gateway.Json.Value.{expect, s_skip_value}
use axioma_oracle.Gateway.Json.Body.{repeat, at_byte, after_member, read_key}
use axioma_oracle.Gateway.Json.Strings.{bind-some}
use axioma_oracle.Gateway.Json.Fuel.{
  bind-cong, length-s_ws, length-s_skip_string, length-expect, length-s_skip_value,
}
use axioma_oracle.Gateway.Json.Loops.{
  Shrinks, Same, after-cong, members-cong, length-read_key, length-s_decode_string,
}
use axioma_oracle.Gateway.Json.Content.{
  Element, new_element, type_value, text_value, other_value, element_value, element_round,
  append_text, elements_round, content_value, Found, body_value, body_round,
}

module _ {S : Type 0} where
  -- What is left is less than `s`.
  abbrev Less : Option (S × Bytes) → Bytes → Type 0
  Less o s = (x : S) (r : Bytes) → o ≡ some (x, r) → length r < length s

  second :
      {x y : S} {a b : Bytes}
      → Path (Option (S × Bytes)) (some (x, a)) (some (y, b))
      → length a ≡ length b
  second e = ground arith

  other_value-Less : (x : S) (s : Bytes) → Less (other_value x s) s
  unfolding other_value
  other_value-Less x s y r e =
      let (t, p, q) = bind-some (s_skip_value 0 s) (λ t. some (x, t)) e in
      omega (arith, length-s_skip_value 0 s t p, second q)

type_value-Less : (e : Element) (s : Bytes) → Less (type_value e s) s
unfolding type_value
type_value-Less e s y r q =
    let ((tv, t), p, q') =
      bind-some (s_decode_string 15 [] s)
        (λ x.
          some (if same (c_str x.0) (codes "text") then record e { is_text = true } else e, x.1))
        q in
    omega (arith, length-s_decode_string 15 [] s tv t p, second q')

text_value-Less : (e : Element) (s : Bytes) → Less (text_value e s) s
unfolding text_value
text_value-Less e s y r q =
    let (t, p, q') = bind-some (s_skip_string s) (λ t. some (record e { text_at = some s }, t)) q in
    omega (arith, length-s_skip_string s t p, second q')

element_value-Less : (ek : Bytes) (e : Element) (s : Bytes) → Less (element_value ek e s) s
unfolding element_value
element_value-Less ek e s y r q = elim (Bool-cases (same ek (codes "type"))) [
  | inl type' ↦ type_value-Less e s y r (rw type' at q)
  | inr no_type ↦ elim (Bool-cases (same ek (codes "text"))) [
    | inl text' ↦ text_value-Less e s y r (rw (no_type, text') at q)
    | inr no_text ↦ other_value-Less e s y r (rw (no_type, no_text) at q)
  ]
]

-- The end of a round: what follows a value.
value-cong :
    {S A : Type 0} (o : Option (S × Bytes)) (s : Bytes) (f g : S × Bytes → Option A) (close : ℕ)
    (stop : S → Bytes → Option A)
    → Less o s
    → ((x : S) → Same (λ t. f (x, t)) (λ t. g (x, t)) (length s))
    → (o >>= λ r. after_member (λ t. f (r.0, t)) close (stop r.0) r.1)
      ≡ (o >>= λ r. after_member (λ t. g (r.0, t)) close (stop r.0) r.1)
value-cong o s f g close stop less h = bind-cong o _ _ (λ r e.
    after-cong (λ t. f (r.0, t)) (λ t. g (r.0, t)) close (stop r.0) r.1
      (λ t l. h r.0 t (omega (arith, l, less r.0 r.1 e))))

pub element_round-Shrinks : Shrinks (λ (x : Element × Bytes). length x.1) element_round
unfolding element_round
element_round-Shrinks f g (e, s) h =
    members-cong 31 (λ t. some (e, t))
      (λ ek t.
        element_value ek e t >>= λ r. after_member (λ u. f (r.0, u)) b'}' (λ u. some (r.0, u)) r.1)
      (λ ek t.
        element_value ek e t >>= λ r. after_member (λ u. g (r.0, u)) b'}' (λ u. some (r.0, u)) r.1)
      s
      (λ ek t l.
        value-cong (element_value ek e t) t f g b'}' (λ x u. some (x, u))
          (element_value-Less ek e t) (λ x u m. h (x, u) (omega (arith, l, m))))

module _ {S : Type 0} where
  -- A scanner that leaves no more than it was given.
  abbrev Keeps : (Bytes → Option (S × Bytes)) → Type 0
  Keeps f = (s : Bytes) (x : S) (r : Bytes) → f s ≡ some (x, r) → length r ≤ length s

  stop-Keeps : (x : S) → Keeps (λ t. some (x, t))
  stop-Keeps x s y r e = omega (arith, second e)

  at_byte-Keeps :
      (c : ℕ) (y n : Bytes → Option (S × Bytes)) → Keeps y → Keeps n → Keeps (at_byte c y n)
  unfolding at_byte
  at_byte-Keeps c y n hy hn [] x r e = hn [] x r e
  at_byte-Keeps c y n hy hn (a ∷ s) x r e = elim (Bool-cases (a == c)) [
    | inl same' ↦ omega (arith, hy s x r (rw same' at e))
    | inr other ↦ hn (a ∷ s) x r (rw other at e)
  ]

  after-Keeps :
      (f : Bytes → Option (S × Bytes)) (close : ℕ) (stop : Bytes → Option (S × Bytes))
      → Keeps f
      → Keeps stop
      → Keeps (after_member f close stop)
  unfolding after_member
  after-Keeps f close stop hf hs s x r e = omega (
    arith,
    length-s_ws s,
    at_byte-Keeps b',' f (at_byte close stop (λ t. none)) hf
        (at_byte-Keeps close stop (λ t. none) hs (λ t y q i. absurd (none_some i))) (s_ws s) x r e,
  )
    where
      none_some : {A : Type 0} {a : A} → Path (Option A) none (some a) → ⊥
      none_some i = cc

  -- What is left of a result, when something is scanned behind another result.
  bind-Keeps :
      {T : Type 0} (o : Option (T × Bytes)) (s : Bytes) (f : T → Bytes → Option (S × Bytes)) (x : S)
      (r : Bytes)
      → ((t : T) (u : Bytes) → o ≡ some (t, u) → length u ≤ length s)
      → ((t : T) → Keeps (f t))
      → (o >>= λ p. f p.0 p.1) ≡ some (x, r)
      → length r ≤ length s
  bind-Keeps o s f x r ho hf e =
      let ((t, u), p, q) = bind-some o (λ p. f p.0 p.1) e in omega (arith, ho t u p, hf t u x r q)

element_round-Keeps :
    (f : Element × Bytes → Option (Element × Bytes)) (e : Element)
    → ((e' : Element) → Keeps (λ t. f (e', t)))
    → Keeps (λ s. element_round f (e, s))
unfolding element_round
element_round-Keeps f e hf s x r q = omega (
  arith,
  length-s_ws s,
  at_byte-Keeps b'}' (λ t. some (e, t)) _ (stop-Keeps e)
      (λ t y u i.
        bind-Keeps (read_key 31 t) t _ y u (λ k v j. omega (arith, length-read_key 31 t k v j))
          (λ k v z w l.
            bind-Keeps (element_value k e v) v _ z w
              (λ e' v' m. omega (arith, element_value-Less k e v e' v' m))
              (λ e'.
                after-Keeps (λ t'. f (e', t')) b'}' (λ t'. some (e', t')) (hf e') (stop-Keeps e'))
              l)
          i)
      (s_ws s) x r q,
)

element_loop-Keeps : (fuel : ℕ) (e : Element) → Keeps (λ s. repeat element_round fuel (e, s))
unfolding repeat
element_loop-Keeps zero e s x r q = cc
element_loop-Keeps (suc fuel) e s x r q =
    element_round-Keeps (repeat element_round fuel) e (λ e'. element_loop-Keeps fuel e') s x r q

-- An element, with the text that it appends.
abbrev pub element : ℕ → Bytes → Bytes → Option (Bytes × Bytes)
element cap dst s = do
  s1 ← expect b'{' (s_ws s)
  (e, s2) ← repeat element_round (suc (length s1)) (new_element, s1)
  dst' ← append_text cap dst e
  some (dst', s2)

-- A round over an element is what it appends, and then the end of the round.
pub elements_round_lem :
    (cap : ℕ) (more : Bytes × Bytes → Option (Bytes × Bytes)) (dst s : Bytes)
    → elements_round cap more (dst, s)
      ≡ (element cap dst s >>= λ r. after_member (λ t. more (r.0, t)) b']' (λ t. some (r.0, t)) r.1)
unfolding elements_round
elements_round_lem cap more dst s = elim (Option-cases (expect b'{' (s_ws s))) [
  | inl bad ↦ rw bad refl
  | inr (s1, good) ↦
      rw good (elim (Option-cases (repeat element_round (suc (length s1)) (new_element, s1))) [
        | inl bad ↦ rw bad refl
        | inr ((e, s2), found) ↦ rw found (elim (Option-cases (append_text cap dst e)) [
          | inl bad ↦ rw bad refl
          | inr (dst', fits) ↦ rw fits refl
        ])
      ])
]

element-Less : (cap : ℕ) (dst s : Bytes) → Less (element cap dst s) s
element-Less cap dst s x r q =
    let (s1, p, q1) =
      bind-some (expect b'{' (s_ws s))
        (λ s1. repeat element_round (suc (length s1)) (new_element, s1) >>= λ y.
          append_text cap dst y.0 >>= λ d. some (d, y.1))
        q in
    let ((e, s2), p2, q2) =
      bind-some (repeat element_round (suc (length s1)) (new_element, s1))
        (λ y. append_text cap dst y.0 >>= λ d. some (d, y.1)) q1 in
    let (d, p3, q3) = bind-some (append_text cap dst e) (λ d. some (d, s2)) q2 in
    omega (
      arith,
      length-s_ws s,
      length-expect b'{' (s_ws s) s1 p,
      element_loop-Keeps (suc (length s1)) new_element s1 e s2 p2,
      second q3,
    )

pub elements_round-Shrinks :
    (cap : ℕ) → Shrinks (λ (x : Bytes × Bytes). length x.1) (elements_round cap)
elements_round-Shrinks cap f g (dst, s) h =
    elements_round_lem cap f dst s
    ∙ value-cong (element cap dst s) s f g b']' (λ x t. some (x, t)) (element-Less cap dst s)
        (λ x t l. h (x, t) l)
    ∙ sym (elements_round_lem cap g dst s)

elements_loop-Keeps :
    (fuel cap : ℕ) (dst : Bytes) → Keeps (λ s. repeat (elements_round cap) fuel (dst, s))
unfolding repeat
elements_loop-Keeps zero cap dst s x r q = cc
elements_loop-Keeps (suc fuel) cap dst s x r q =
    bind-Keeps (element cap dst s) s
      (λ d. after_member (λ t. repeat (elements_round cap) fuel (d, t)) b']' (λ t. some (d, t))) x r
      (λ d t e. omega (arith, element-Less cap dst s d t e))
      (λ d.
        after-Keeps (λ t. repeat (elements_round cap) fuel (d, t)) b']' (λ t. some (d, t))
          (elements_loop-Keeps fuel cap d) (stop-Keeps d))
      (sym (elements_round_lem cap (repeat (elements_round cap) fuel) dst s) ∙ q)

content_value-Less : (cap : ℕ) (dst s : Bytes) → Less (content_value cap dst s) s
unfolding content_value
content_value-Less cap dst s x r q =
    let rounds = λ (t : Bytes). repeat (elements_round cap) (suc (length t)) (dst, t) in
    let (s1, p, e) =
      bind-some (expect b'[' s) (λ s1. at_byte b']' (λ t. some (dst, t)) rounds (s_ws s1)) q in
    omega (
      arith,
      length-expect b'[' s s1 p,
      length-s_ws s1,
      at_byte-Keeps b']' (λ t. some (dst, t)) rounds (stop-Keeps dst)
          (λ t. elements_loop-Keeps (suc (length t)) cap dst t) (s_ws s1) x r e,
    )

body_value-Less : (cap : ℕ) (k : Bytes) (f : Found) (s : Bytes) → Less (body_value cap k f s) s
unfolding body_value
body_value-Less cap k (found, dst) s x r q = elim (Bool-cases (same k (codes "content"))) [
  | inl content ↦
      let ((d, t), p, e) =
        bind-some (content_value cap dst s) (λ r. some ((true, r.0), r.1)) (rw content at q) in
      omega (arith, content_value-Less cap dst s d t p, second e)
  | inr other ↦ other_value-Less (found, dst) s x r (rw other at q)
]

pub body_round-Shrinks : (cap : ℕ) → Shrinks (λ (x : Found × Bytes). length x.1) (body_round cap)
unfolding body_round
body_round-Shrinks cap f g (d, s) h =
    members-cong 63 (λ t. some d)
      (λ k t. body_value cap k d t >>= λ r. after_member (λ u. f (r.0, u)) b'}' (λ u. some r.0) r.1)
      (λ k t. body_value cap k d t >>= λ r. after_member (λ u. g (r.0, u)) b'}' (λ u. some r.0) r.1)
      s
      (λ k t l.
        value-cong (body_value cap k d t) t f g b'}' (λ x u. some x) (body_value-Less cap k d t)
          (λ x u m. h (x, u) (omega (arith, l, m))))
