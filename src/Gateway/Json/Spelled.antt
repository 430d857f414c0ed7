-- ===== src/Gateway/Json/Spelled.antt =====
-- What RFC 8259 takes for the text of a string and of the values around it, described without the escaper of
-- gateway/src/gw_json.c, and the texts of `print`.
use axioma_oracle.Prelude.{
  ◌∙◌, ap, subst, ℕ, ◌+◌, ◌-◌, ◌/◌, ◌%◌, ◌≤◌, ◌<◌, ◌≡◌, ◌≢◌, ◌⊎◌, inl, inr, refl, sym, Bool, true,
  false, [], ◌∷◌, ◌++◌, Bytes, arith, ltb, ◌==◌, Bool-cases, agree_below→eq, agree_below,
}
use native.Mathlib.Decide.{dec_lt}
use axioma_oracle.Canonical.{hex_at}
use axioma_oracle.Gateway.Json.Escape.{escaped_byte}
use axioma_oracle.Gateway.Json.WellFormed.{escape_all}
use axioma_oracle.Gateway.Json.Printed.{
  Json, text, word, group, Items, empty, item, opening, closing, print, print_more, print_key,
}

-- The letter behind a backslash, and the character that the two mean.
abbrev pub IsShort : ℕ → ℕ → Type 0
IsShort e c =
    ((e ≡ b'"') × (c ≡ 0x22))
    ⊎ ((e ≡ b'\\') × (c ≡ 0x5C))
    ⊎ ((e ≡ b'/') × (c ≡ 0x2F))
    ⊎ ((e ≡ b'b') × (c ≡ 0x08))
    ⊎ ((e ≡ b'f') × (c ≡ 0x0C))
    ⊎ ((e ≡ b'n') × (c ≡ 0x0A))
    ⊎ ((e ≡ b'r') × (c ≡ 0x0D))
    ⊎ ((e ≡ b't') × (c ≡ 0x09))

-- A hexadecimal digit of a value.
abbrev pub IsHex : ℕ → ℕ → Type 0
IsHex h v =
    ((v < 10) × (h ≡ b'0' + v))
    ⊎ ((10 ≤ v) × (v < 16) × ((h ≡ b'a' + (v - 10)) ⊎ (h ≡ b'A' + (v - 10))))

-- A byte that needs no escape, or one of the two kinds of escape.
abbrev pub IsPlain : ℕ → Bytes → Type 0
IsPlain c p = (0x20 ≤ c) × (c ≢ b'"') × (c ≢ b'\\') × (p ≡ c ∷ [])

abbrev pub IsPair : ℕ → Bytes → Type 0
IsPair c p = (e : ℕ) × (p ≡ b'\\' ∷ e ∷ []) × IsShort e c

abbrev pub IsUnicode : ℕ → Bytes → Type 0
IsUnicode c p =
    (h : ℕ) × (l : ℕ) × (p ≡ b'\\' ∷ b'u' ∷ b'0' ∷ b'0' ∷ h ∷ l ∷ [])
    × (c < 0x80)
    × IsHex h (c / 16)
    × IsHex l (c % 16)

abbrev pub IsChar : ℕ → Bytes → Type 0
IsChar c p = IsPlain c p ⊎ IsPair c p ⊎ IsUnicode c p

-- What stands between the quotes of a string with these bytes.
abbrev pub AreChars : Bytes → Bytes → Type 0
AreChars [] t = t ≡ []
AreChars (c ∷ s) t = (p : Bytes) × (q : Bytes) × (t ≡ p ++ q) × IsChar c p × AreChars s q

-- The text `t` is that of a string in front of `r`.
abbrev pub SpellsText : Bytes → Bytes → Bytes → Type 0
SpellsText s r t = (e : Bytes) × (t ≡ b'"' ∷ e ++ b'"' ∷ r) × AreChars s e

abbrev pub SpellsKey : Bool → Bytes → Bytes → Bytes → Type 0
SpellsKey true k r t = SpellsText k (b':' ∷ r) t
SpellsKey false k r t = t ≡ r

-- The text `t` is that of a value in front of `r`: strings as above, words and numbers as they are, arrays and
-- objects with commas between their items, and no white space.
unfoldable mutual
  pub Spells : Json → Bytes → Bytes → Type 0
  Spells (text s) r t = SpellsText s r t
  Spells (word c w) r t = t ≡ c ∷ w ++ r
  Spells (group object empty) r t = t ≡ opening object ∷ closing object ∷ r
  Spells (group object (item k v vs)) r t =
      (t1 : Bytes) × (t2 : Bytes) × (t3 : Bytes) × (t ≡ opening object ∷ t1)
      × SpellsKey object k t2 t1
      × Spells v t3 t2
      × SpellsMore object vs r t3

  pub SpellsMore : Bool → Items → Bytes → Bytes → Type 0
  SpellsMore object empty r t = t ≡ closing object ∷ r
  SpellsMore object (item k v vs) r t =
      (t1 : Bytes) × (t2 : Bytes) × (t3 : Bytes) × (t ≡ b',' ∷ t1)
      × SpellsKey object k t2 t1
      × Spells v t3 t2
      × SpellsMore object vs r t3

hex_low : (v : ℕ) → v < 10 → hex_at v ≡ b'0' + v
unfolding agree_below hex_at
hex_low = agree_below→eq (λ v. hex_at v) (λ v. b'0' + v) 10 refl

hex_high : (v : ℕ) → v < 6 → hex_at (10 + v) ≡ b'a' + v
unfolding agree_below hex_at
hex_high = agree_below→eq (λ v. hex_at (10 + v)) (λ v. b'a' + v) 6 refl

hex_at-IsHex : (v : ℕ) → v < 16 → IsHex (hex_at v) v
hex_at-IsHex v h = elim (dec_lt v 10) [
  | yes low ↦ inl (low, hex_low v low)
  | no high ↦
      let w = v - 10 in
      let k : 10 + w ≡ v = omega (arith, high) in
      inr (omega (arith, high), h, inl (ap hex_at (sym k) ∙ hex_high w (omega (arith, h, high))))
]

control :
    (c : ℕ)
    → c < 0x20
    → IsChar c (b'\\' ∷ b'u' ∷ b'0' ∷ b'0' ∷ hex_at (c / 16 % 16) ∷ hex_at (c % 16) ∷ [])
control c h = inr (
    inr (
      hex_at (c / 16 % 16),
      hex_at (c % 16),
      refl,
      omega (arith, h),
      subst (λ v. IsHex (hex_at (c / 16 % 16)) v) (omega (arith, h))
          (hex_at-IsHex (c / 16 % 16) (omega arith)),
      hex_at-IsHex (c % 16) (omega arith),
    ))

escaped_byte-IsChar : (c : ℕ) → IsChar c (escaped_byte c)
unfolding escaped_byte
escaped_byte-IsChar c = elim (Bool-cases (c == b'"')) [
  | inl y ↦ rw y (inr (inl (b'"', refl, inl (refl, ground arith))))
  | inr n1 ↦ elim (Bool-cases (c == b'\\')) [
    | inl y ↦ rw (n1, y) (inr (inl (b'\\', refl, inr (inl (refl, ground arith)))))
    | inr n2 ↦ elim (Bool-cases (c == b'\n')) [
      | inl y ↦
          rw (n1, n2, y)
            (inr (inl (b'n', refl, inr (inr (inr (inr (inr (inl (refl, ground arith)))))))))
      | inr n3 ↦ elim (Bool-cases (c == b'\r')) [
        | inl y ↦
            rw (n1, n2, n3, y)
              (inr (inl (b'r', refl, inr (inr (inr (inr (inr (inr (inl (refl, ground arith))))))))))
        | inr n4 ↦ elim (Bool-cases (c == b'\t')) [
          | inl y ↦
              rw (n1, n2, n3, n4, y)
                (inr
                  (inl (b't', refl, inr (inr (inr (inr (inr (inr (inr (refl, ground arith))))))))))
          | inr n5 ↦ elim (Bool-cases (ltb c 0x20)) [
            | inl y ↦ rw (n1, n2, n3, n4, n5, y) (control c (ground arith))
            | inr n6 ↦
                rw (n1, n2, n3, n4, n5, n6) (inl (ground arith, ground arith, ground arith, refl))
          ]
        ]
      ]
    ]
  ]
]

escape_all-AreChars : (s : Bytes) → AreChars s (escape_all s)
unfolding escape_all
escape_all-AreChars [] = refl
escape_all-AreChars (c ∷ s) =
    (escaped_byte c, escape_all s, refl, escaped_byte-IsChar c, escape_all-AreChars s)

print_key-SpellsKey : (object : Bool) (k r : Bytes) → SpellsKey object k r (print_key object k r)
unfolding print_key
print_key-SpellsKey true k r = (escape_all k, refl, escape_all-AreChars k)
print_key-SpellsKey false k r = refl

-- `print` gives the text of a value.
mutual
  unfolding print print_more Spells SpellsMore

  pub print-Spells : (v : Json) (r : Bytes) → Spells v r (print v r)
  print-Spells (text s) r = (escape_all s, refl, escape_all-AreChars s)
  print-Spells (word c w) r = refl
  print-Spells (group object empty) r = refl
  print-Spells (group object (item k v vs)) r =
      let t3 = print_more object vs r in
      let t2 = print v t3 in
      (
        print_key object k t2,
        t2,
        t3,
        refl,
        print_key-SpellsKey object k t2,
        print-Spells v t3,
        print_more-SpellsMore object vs r,
      )

  print_more-SpellsMore :
      (object : Bool) (vs : Items) (r : Bytes) → SpellsMore object vs r (print_more object vs r)
  print_more-SpellsMore object empty r = refl
  print_more-SpellsMore object (item k v vs) r =
      let t3 = print_more object vs r in
      let t2 = print v t3 in
      (
        print_key object k t2,
        t2,
        t3,
        refl,
        print_key-SpellsKey object k t2,
        print-Spells v t3,
        print_more-SpellsMore object vs r,
      )
