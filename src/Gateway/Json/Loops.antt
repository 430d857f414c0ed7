-- ===== src/Gateway/Json/Loops.antt =====
-- The loops of gateway/src/gw_json.c over the members of an object or the elements of an array: every round
-- moves forward, so the fuel of the model is enough.
use axioma_oracle.Prelude.{
  ◌>>=◌, ℕ, zero, suc, ◌<◌, ◌≡◌, refl, ap, [], ◌∷◌, Option, none, some, Bytes, length, c_str, same,
  if◌then◌else◌, arith,
}
use axioma_oracle.Gateway.Json.Text.{s_ws, s_decode_string}
use axioma_oracle.Gateway.Json.Value.{expect, s_skip_value}
use axioma_oracle.Gateway.Json.Body.{
  repeat, at_byte, after_member, read_key, string_value, top_member, top_round, error_member,
  error_round,
}
use axioma_oracle.Gateway.Json.Strings.{bind-some, s_decode_string-s_skip_string}
use axioma_oracle.Gateway.Json.Fuel.{
  bind-cong, length-s_ws, length-s_skip_string, length-expect, length-s_skip_value,
}

module _ {X A : Type 0} (size : X → ℕ) (round : (X → Option A) → X → Option A) where
  -- A round runs the rounds that follow on less than it was given.
  abbrev pub Shrinks : Type 0
  Shrinks =
      (f g : X → Option A) (x : X) → ((y : X) → size y < size x → f y ≡ g y) → round f x ≡ round g x

  pub repeat_fuel :
      (f g : ℕ) (x : X) → Shrinks → size x < f → size x < g → repeat round f x ≡ repeat round g x
  unfolding repeat
  repeat_fuel zero g x h p q = absurd (omega (arith, p))
  repeat_fuel (suc f) zero x h p q = absurd (omega (arith, q))
  repeat_fuel (suc f) (suc g) x h p q =
      h (repeat round f) (repeat round g) x
        (λ y k. repeat_fuel f g y h (omega (arith, p, k)) (omega (arith, q, k)))

  -- The loop without its fuel.
  pub repeat_step :
      (x : X)
      → Shrinks
      → repeat round (suc (size x)) x ≡ round (λ y. repeat round (suc (size y)) y) x
  unfolding repeat
  repeat_step x h =
      h (repeat round (size x)) (λ y. repeat round (suc (size y)) y) x
        (λ y k. repeat_fuel (size x) (suc (size y)) y h k (omega arith))

module _ {A : Type 0} where
  -- Two continuations that agree on texts shorter than `n`.
  abbrev pub Same : (Bytes → Option A) → (Bytes → Option A) → ℕ → Type 0
  Same f g n = (s : Bytes) → length s < n → f s ≡ g s

  pub at_byte-cong :
      (c : ℕ) (y y' n n' : Bytes → Option A) (s : Bytes)
      → Same y y' (length s)
      → n s ≡ n' s
      → at_byte c y n s ≡ at_byte c y' n' s
  unfolding at_byte
  at_byte-cong c y y' n n' [] hy hn = hn
  at_byte-cong c y y' n n' (a ∷ s) hy hn = rw (hy s (omega arith), hn) refl

  pub after-cong :
      (f g : Bytes → Option A) (close : ℕ) (stop : Bytes → Option A) (s : Bytes)
      → Same f g (length s)
      → after_member f close stop s ≡ after_member g close stop s
  unfolding after_member
  after-cong f g close stop s h =
      at_byte-cong b',' f g (at_byte close stop (λ s'. none)) (at_byte close stop (λ s'. none))
        (s_ws s) (λ t k. h t (omega (arith, k, length-s_ws s))) refl

pub length-s_decode_string :
    (cap : ℕ) (dst s t rest : Bytes)
    → s_decode_string cap dst s ≡ some (t, rest)
    → length rest < length s
length-s_decode_string cap dst s t rest e =
    length-s_skip_string s rest (s_decode_string-s_skip_string cap dst s t rest e)

pub length-read_key :
    (cap : ℕ) (s k rest : Bytes) → read_key cap s ≡ some (k, rest) → length rest < length s
unfolding read_key
length-read_key cap s k rest e =
    let ((t, s1), d, e1) =
      bind-some (s_decode_string cap [] s)
        (λ p. expect b':' (s_ws p.1) >>= λ s2. some (c_str p.0, s_ws s2)) e in
    let (s2, c, e2) = bind-some (expect b':' (s_ws s1)) (λ s2. some (c_str t, s_ws s2)) e1 in
    omega (
      arith,
      length-s_decode_string cap [] s t s1 d,
      length-s_ws s1,
      length-expect b':' (s_ws s1) s2 c,
      length-s_ws s2,
      pair_rest e2,
    )
  where
    pair_rest :
        {a b : Bytes} {c d : Bytes}
        → Path (Option (Bytes × Bytes)) (some (a, c)) (some (b, d))
        → length c ≡ length d
    pair_rest e = ground arith

-- A key is read, then `visit` is run: the two visits agree when they do behind the key.
pub key-cong :
    {A : Type 0} (cap : ℕ) (s : Bytes) (u v : Bytes → Bytes → Option A)
    → ((k : Bytes) → Same (u k) (v k) (length s))
    → (read_key cap s >>= λ r. u r.0 r.1) ≡ (read_key cap s >>= λ r. v r.0 r.1)
key-cong cap s u v h =
    bind-cong (read_key cap s) _ _ (λ r e. h r.0 r.1 (length-read_key cap s r.0 r.1 e))

-- A round over the members of an object.
pub members-cong :
    {A : Type 0} (cap : ℕ) (stop : Bytes → Option A) (u v : Bytes → Bytes → Option A) (s : Bytes)
    → ((k : Bytes) → Same (u k) (v k) (length s))
    → at_byte b'}' stop (λ t. read_key cap t >>= λ r. u r.0 r.1) (s_ws s)
      ≡ at_byte b'}' stop (λ t. read_key cap t >>= λ r. v r.0 r.1) (s_ws s)
members-cong cap stop u v s h =
    at_byte-cong b'}' stop stop (λ t. read_key cap t >>= λ r. u r.0 r.1)
      (λ t. read_key cap t >>= λ r. v r.0 r.1) (s_ws s) (λ t l. refl)
      (key-cong cap (s_ws s) u v (λ k t l. h k t (omega (arith, l, length-s_ws s))))

-- A member that is passed over.
passed_over : (Bytes → Option Bytes) → Bytes → Option Bytes
passed_over more s = s_skip_value 0 s >>= λ s'. after_member more b'}' (λ s''. none) s'

passed_over-cong :
    (f g : Bytes → Option Bytes) (s : Bytes)
    → Same f g (length s)
    → passed_over f s ≡ passed_over g s
unfolding passed_over
passed_over-cong f g s h =
    bind-cong (s_skip_value 0 s) (after_member f b'}' (λ s''. none))
      (after_member g b'}' (λ s''. none))
      (λ s' e.
        after-cong f g b'}' (λ s''. none) s'
          (λ t l. h t (omega (arith, l, length-s_skip_value 0 s s' e))))

top_member-cong :
    (key : Bytes) (cap : ℕ) (f g : Bytes → Option Bytes) (k s : Bytes)
    → Same f g (length s)
    → top_member key cap f k s ≡ top_member key cap g k s
unfolding top_member passed_over
top_member-cong key cap f g k s h =
    ap (λ o. if same k key then string_value cap s else o) (passed_over-cong f g s h)

pub top_round-Shrinks : (key : Bytes) (cap : ℕ) → Shrinks length (top_round key cap)
unfolding top_round
top_round-Shrinks key cap f g s h =
    members-cong 63 (λ t. none) (top_member key cap f) (top_member key cap g) s
      (λ k t l. top_member-cong key cap f g k t (λ u m. h u (omega (arith, m, l))))

error_member-cong :
    (cap : ℕ) (f g : Bytes → Option Bytes) (k s : Bytes)
    → Same f g (length s)
    → error_member cap f k s ≡ error_member cap g k s
unfolding error_member passed_over
error_member-cong cap f g k s h = rw (passed_over-cong f g s h) refl

pub error_round-Shrinks : (cap : ℕ) → Shrinks length (error_round cap)
unfolding error_round
error_round-Shrinks cap f g s h =
    members-cong 31 (λ t. none) (error_member cap f) (error_member cap g) s
      (λ k t l. error_member-cong cap f g k t (λ u m. h u (omega (arith, m, l))))
