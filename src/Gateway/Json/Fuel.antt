-- ===== src/Gateway/Json/Fuel.antt =====
-- `s_skip_value` (gateway/src/gw_json.c) moves forward, so the fuel of its model is enough.
use axioma_oracle.Prelude.{
  ◌>>=◌, ℕ, zero, suc, ◌+◌, ◌*◌, ◌≤◌, ◌<◌, ◌≡◌, ◌∙◌, refl, ap, [], ◌∷◌, Option, none, some, Bytes,
  length, ltb, ◌==◌, if◌then◌else◌, arith, inl, inr, Bool-cases,
}
use axioma_oracle.Gateway.Json.Text.{s_ws, s_skip_string, skip_rest, skip_escape, skip_u4}
use axioma_oracle.Gateway.Json.Value.{
  skip_tokens, expect, skip_key, after_item, skip_open, skip_switch, skip_value, skip_items,
  s_skip_value,
}
use axioma_oracle.Gateway.Json.Strings.{bind-some}

pub length-s_ws : (s : Bytes) → length (s_ws s) ≤ length s
unfolding s_ws
length-s_ws [] = omega arith
length-s_ws (c ∷ s) = ground (arith, length-s_ws s)

length-skip_tokens : (s : Bytes) → length (skip_tokens s) ≤ length s
unfolding skip_tokens
length-skip_tokens [] = omega arith
length-skip_tokens (c ∷ s) = ground (arith, length-skip_tokens s)

-- The scanner has moved.
abbrev pub Moved : Option Bytes → Bytes → Type 0
Moved o s = (rest : Bytes) → o ≡ some rest → length rest < length s

abbrev pub Kept : Option Bytes → Bytes → Type 0
Kept o s = (rest : Bytes) → o ≡ some rest → length rest ≤ length s

mutual
  unfolding skip_rest

  length-skip_rest : (s : Bytes) → Moved (skip_rest s) s
  length-skip_rest [] rest e = cc
  length-skip_rest (c ∷ s) rest e =
      ground (arith, length-skip_rest s rest, length-skip_escape s rest)

  length-skip_escape : (s : Bytes) → Moved (skip_escape s) s
  length-skip_escape [] rest e = cc
  length-skip_escape (c ∷ s) rest e = ground (arith, length-skip_rest s rest, length-skip_u4 s rest)

  length-skip_u4 : (s : Bytes) → Moved (skip_u4 s) s
  length-skip_u4 [] rest e = cc
  length-skip_u4 (a ∷ []) rest e = cc
  length-skip_u4 (a ∷ b ∷ []) rest e = cc
  length-skip_u4 (a ∷ b ∷ c ∷ []) rest e = cc
  length-skip_u4 (a ∷ b ∷ c ∷ d ∷ s) rest e = omega (arith, length-skip_rest s rest e)

pub length-s_skip_string : (s : Bytes) → Moved (s_skip_string s) s
unfolding s_skip_string
length-s_skip_string [] rest e = cc
length-s_skip_string (c ∷ s) rest e = ground (arith, length-skip_rest s rest)

pub length-expect : (c : ℕ) (s : Bytes) → Moved (expect c s) s
unfolding expect
length-expect c [] rest e = cc
length-expect c (a ∷ s) rest e = ground arith

length-skip_key : (close : ℕ) (s : Bytes) → Kept (skip_key close s) s
unfolding skip_key
length-skip_key close s rest e = elim (Bool-cases (close == b'}')) [
  | inl m ↦
      let (s1, p, q) =
        bind-some (s_skip_string (s_ws s)) (λ s1. expect b':' (s_ws s1)) (rw m at e) in
      omega (
        arith,
        length-s_ws s,
        length-s_skip_string (s_ws s) s1 p,
        length-s_ws s1,
        length-expect b':' (s_ws s1) rest q,
      )
  | inr m ↦ ground (arith, rw m at e)
]

abbrev pub Forward : (Bytes → Option Bytes) → Type 0
Forward f = (s : Bytes) → Moved (f s) s

length-after_item :
    (more : Bytes → Option Bytes) (close : ℕ) → Forward more → Forward (after_item more close)
unfolding after_item
length-after_item more close h [] rest e = cc
length-after_item more close h (c ∷ s) rest e = ground (arith, h s rest)

length-skip_open :
    (items : Bytes → Option Bytes) (close : ℕ) (s : Bytes)
    → Forward items
    → Kept (skip_open items close s) s
unfolding skip_open
length-skip_open items close [] h rest e = omega (arith, h [] rest e)
length-skip_open items close (c ∷ s) h rest e = ground (arith, h (c ∷ s) rest)

length-skip_switch :
    (items : ℕ → Bytes → Option Bytes)
    → ((close : ℕ) → Forward (items close))
    → Forward (skip_switch items)
unfolding skip_switch skip_tokens
length-skip_switch items h [] rest e = cc
length-skip_switch items h (c ∷ s) rest e =
    let inner = λ (close : ℕ). length-skip_open (items close) close (s_ws s) (h close) rest in
    ground (
      arith,
      inner b'}',
      inner b']',
      length-s_ws s,
      length-skip_tokens s,
      length-s_skip_string (c ∷ s) rest,
    )

mutual
  unfolding skip_value

  length-skip_value : (fuel depth : ℕ) → Forward (skip_value fuel depth)
  length-skip_value zero depth s rest e = cc
  length-skip_value (suc fuel) depth s rest e =
      let inner =
        length-skip_switch (λ close t. skip_items fuel depth close t)
          (λ close. length-skip_items fuel depth close) (s_ws s) rest in
      ground (arith, inner, length-s_ws s)

  length-skip_items : (fuel depth close : ℕ) → Forward (skip_items fuel depth close)
  length-skip_items zero depth close s rest e = cc
  length-skip_items (suc fuel) depth close s rest e =
      let more = λ (t : Bytes). skip_items fuel depth close t in
      let (s1, p, e1) =
        bind-some (skip_key close s)
          (λ s1. skip_value fuel (suc depth) s1 >>= λ s2. after_item more close (s_ws s2)) e in
      let (s2, q, e2) =
        bind-some (skip_value fuel (suc depth) s1) (λ s2. after_item more close (s_ws s2)) e1 in
      omega (
        arith,
        length-skip_key close s s1 p,
        length-skip_value fuel (suc depth) s1 s2 q,
        length-s_ws s2,
        length-after_item more close (length-skip_items fuel depth close) (s_ws s2) rest e2,
      )

pub bind-cong :
    {A B : Type 0} (m : Option A) (f g : A → Option B)
    → ((a : A) → m ≡ some a → f a ≡ g a)
    → m >>= f ≡ m >>= g
bind-cong none f g h = refl
bind-cong (some a) f g h = h a refl

-- Two scanners that agree on texts shorter than `n`.
abbrev pub Agree : (Bytes → Option Bytes) → (Bytes → Option Bytes) → ℕ → Type 0
Agree f g n = (s : Bytes) → length s < n → f s ≡ g s

after_item-cong :
    (f g : Bytes → Option Bytes) (close : ℕ) (s : Bytes)
    → Agree f g (length s)
    → after_item f close s ≡ after_item g close s
unfolding after_item
after_item-cong f g close [] h = refl
after_item-cong f g close (c ∷ s) h = rw (h s (omega arith)) refl

skip_open-cong :
    (f g : Bytes → Option Bytes) (close : ℕ) (s : Bytes)
    → Agree f g (suc (length s))
    → skip_open f close s ≡ skip_open g close s
unfolding skip_open
skip_open-cong f g close [] h = h [] (omega arith)
skip_open-cong f g close (c ∷ s) h = rw (h (c ∷ s) (omega arith)) refl

skip_switch-cong :
    (f g : ℕ → Bytes → Option Bytes) (s : Bytes)
    → ((close : ℕ) → Agree (f close) (g close) (length s))
    → skip_switch f s ≡ skip_switch g s
unfolding skip_switch
skip_switch-cong f g [] h = refl
skip_switch-cong f g (c ∷ s) h =
    let inner = λ (close : ℕ).
      skip_open-cong (f close) (g close) close (s_ws s)
        (λ t k. h close t (omega (arith, k, length-s_ws s))) in
    rw (inner b'}', inner b']') refl

-- One round of the loop, with the scanner of a value and the rounds that follow.
abbrev pub round : (Bytes → Option Bytes) → (Bytes → Option Bytes) → ℕ → Bytes → Option Bytes
round value more close s =
    skip_key close s >>= λ s1. value s1 >>= λ s2. after_item more close (s_ws s2)

round-cong :
    (v w f g : Bytes → Option Bytes) (close : ℕ) (s : Bytes)
    → Forward w
    → Agree v w (suc (length s))
    → Agree f g (length s)
    → round v f close s ≡ round w g close s
round-cong v w f g close s forward hv hf = bind-cong (skip_key close s) _ _ (λ s1 k1.
    let l1 = length-skip_key close s s1 k1 in
    ap (λ o. o >>= λ s2. after_item f close (s_ws s2)) (hv s1 (omega (arith, l1)))
    ∙ bind-cong (w s1) _ _ (λ s2 k2.
      after_item-cong f g close (s_ws s2)
        (λ t k. hf t (omega (arith, l1, forward s1 s2 k2, k, length-s_ws s2)))))

mutual
  unfolding skip_value

  -- More fuel changes nothing.
  skip_value_fuel :
      (f g depth : ℕ) (s : Bytes)
      → 2 * length s + 1 ≤ f
      → 2 * length s + 1 ≤ g
      → skip_value f depth s ≡ skip_value g depth s
  skip_value_fuel zero g depth s p q = absurd (omega (arith, p))
  skip_value_fuel (suc f) zero depth s p q = absurd (omega (arith, q))
  skip_value_fuel (suc f) (suc g) depth s p q =
      ap (λ v. if ltb 64 depth then none else v)
        (skip_switch-cong _ _ (s_ws s) (λ close t k.
          skip_items_fuel f g depth close t (omega (arith, p, k, length-s_ws s))
            (omega (arith, q, k, length-s_ws s))))

  skip_items_fuel :
      (f g depth close : ℕ) (s : Bytes)
      → 2 * length s + 2 ≤ f
      → 2 * length s + 2 ≤ g
      → skip_items f depth close s ≡ skip_items g depth close s
  skip_items_fuel zero g depth close s p q = absurd (omega (arith, p))
  skip_items_fuel (suc f) zero depth close s p q = absurd (omega (arith, q))
  skip_items_fuel (suc f) (suc g) depth close s p q =
      round-cong (λ t. skip_value f (suc depth) t) (λ t. skip_value g (suc depth) t)
        (λ t. skip_items f depth close t) (λ t. skip_items g depth close t) close s
        (λ t. length-skip_value g (suc depth) t)
        (λ t k. skip_value_fuel f g (suc depth) t (omega (arith, p, k)) (omega (arith, q, k)))
        (λ t k. skip_items_fuel f g depth close t (omega (arith, p, k)) (omega (arith, q, k)))

-- The fuel of `s_skip_value` is enough: with any more of it the result is the same.
pub s_skip_value_fuel :
    (fuel depth : ℕ) (s : Bytes)
    → 2 * length s + 1 ≤ fuel
    → skip_value fuel depth s ≡ s_skip_value depth s
unfolding s_skip_value
s_skip_value_fuel fuel depth s h = skip_value_fuel fuel (2 * length s + 1) depth s h (omega arith)

-- `s_skip_value` moves forward.
pub length-s_skip_value : (depth : ℕ) → Forward (s_skip_value depth)
unfolding s_skip_value
length-s_skip_value depth s = length-skip_value (2 * length s + 1) depth s

-- The loop of `s_skip_value`.
abbrev pub loop : ℕ → ℕ → Bytes → Option Bytes
loop depth close s = skip_items (2 * length s + 2) depth close s

-- The function without its fuel.
pub s_skip_value_step :
    (depth : ℕ) (s : Bytes)
    → s_skip_value depth s
      ≡ (if ltb 64 depth then none else skip_switch (λ close t. loop depth close t) (s_ws s))
unfolding s_skip_value skip_value
s_skip_value_step depth s =
    let e : 2 * length s + 1 ≡ suc (2 * length s) = omega arith in
    rw e (
      ap (λ v. if ltb 64 depth then none else v)
        (skip_switch-cong _ _ (s_ws s) (λ close t k.
          skip_items_fuel _ _ depth close t (omega (arith, k, length-s_ws s)) (omega arith))))

pub loop_step :
    (depth close : ℕ) (s : Bytes)
    → loop depth close s ≡ round (s_skip_value (suc depth)) (λ t. loop depth close t) close s
unfolding s_skip_value skip_value
loop_step depth close s =
    let e : 2 * length s + 2 ≡ suc (2 * length s + 1) = omega arith in
    rw e (
      round-cong _ (s_skip_value (suc depth)) _ (λ t. loop depth close t) close s
        (length-s_skip_value (suc depth))
        (λ t k. skip_value_fuel _ _ (suc depth) t (omega (arith, k)) (omega arith))
        (λ t k. skip_items_fuel _ _ depth close t (omega (arith, k)) (omega arith)))
