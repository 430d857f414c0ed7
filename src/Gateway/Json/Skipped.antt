-- ===== src/Gateway/Json/Skipped.antt =====
-- `s_skip_value` (gateway/src/gw_json.c) on the text of a JSON value.
use axioma_oracle.Prelude.{
  ℕ, suc, ◌+◌, ◌≤◌, max, ◌≡◌, ◌∙◌, refl, ap, Bool, true, false, [], ◌∷◌, ◌++◌, Option, none, some,
  Bytes, All, length, ltb, leb, ◌==◌, if◌then◌else◌, arith, inl, inr, Bool-cases,
}
use native.Mathlib.Decide.{ℕ_discrete}
use axioma_oracle.Gateway.Json.Text.{is_ws, s_ws, s_skip_string, s_decode_string}
use axioma_oracle.Gateway.Json.Value.{
  is_token, skip_tokens, expect, skip_key, after_item, skip_open, skip_switch, s_skip_value,
}
use axioma_oracle.Gateway.Json.RoundTrip.{decode-escape_all}
use axioma_oracle.Gateway.Json.Strings.{s_decode_string-s_skip_string}
use axioma_oracle.Gateway.Json.Fuel.{loop, loop_step, s_skip_value_step}
use axioma_oracle.Gateway.Json.Printed.{
  Json, text, word, group, Items, empty, item, opening, closing, quoted, print_key, print,
  print_more, nesting, nest_items, IsToken, IsJson, AreJson, Stops,
}

pub s_decode_string-quoted :
    (cap : ℕ) (dst s r : Bytes)
    → length dst ≤ cap
    → s_decode_string cap dst (quoted s r)
      ≡ (if leb (length dst + length s) cap then some (dst ++ s, r) else none)
unfolding s_decode_string
s_decode_string-quoted cap dst s r h = decode-escape_all cap dst s r h

pub s_decode_string-start :
    (cap : ℕ) (s r : Bytes)
    → s_decode_string cap [] (quoted s r) ≡ (if leb (length s) cap then some (s, r) else none)
s_decode_string-start cap s r = s_decode_string-quoted cap [] s r (omega arith) ∙ ground arith

pub s_skip_string-quoted : (s r : Bytes) → s_skip_string (quoted s r) ≡ some r
s_skip_string-quoted s r =
    s_decode_string-s_skip_string (length s) [] (quoted s r) s r
      (s_decode_string-quoted (length s) [] s r (omega arith) ∙ ground arith)

skip_tokens-word : (w r : Bytes) → All IsToken w → Stops r → skip_tokens (w ++ r) ≡ r
unfolding skip_tokens
skip_tokens-word [] [] _ h = refl
skip_tokens-word [] (c ∷ r) _ h = rw h refl
skip_tokens-word (c ∷ w) r (hc, hw) h = rw hc (skip_tokens-word w r hw h)

-- A byte that starts no word and no blank.
abbrev Differs : ℕ → ℕ → Type 0
Differs c d = (c == d) ≡ false

pub IsToken-Differs : (c d : ℕ) → IsToken c → is_token d ≡ false → Differs c d
IsToken-Differs c d h n = elim (ℕ_discrete c d) [ yes e ↦ cc (rw e at h) | no ne ↦ ground arith ]

-- The first byte of a value starts no blank and closes nothing.
abbrev pub Starts : Bytes → Type 0
Starts [] = ⊥
Starts (c ∷ s) = (is_ws c ≡ false) × Differs c b']' × Differs c b'}'

pub print-Starts : (v : Json) (r : Bytes) → IsJson v → Starts (print v r)
unfolding print IsJson is_token
print-Starts (text s) r h = (refl, refl, refl)
print-Starts (word c w) r (h, _) =
    let differs = λ (d : ℕ) (n : is_token d ≡ false). IsToken-Differs c d h n in
    (
      rw (differs b' ' refl, differs b'\t' refl, differs b'\n' refl, differs b'\r' refl) refl,
      differs b']' refl,
      differs b'}' refl,
    )
print-Starts (group true empty) r h = (refl, refl, refl)
print-Starts (group false empty) r h = (refl, refl, refl)
print-Starts (group true (item k v vs)) r h = (refl, refl, refl)
print-Starts (group false (item k v vs)) r h = (refl, refl, refl)

pub s_ws-Starts : (s : Bytes) → Starts s → s_ws s ≡ s
unfolding s_ws
s_ws-Starts [] h = absurd h
s_ws-Starts (c ∷ s) (h, _, _) = rw h refl

-- What is left behind a value of a nesting `n`.
abbrev pub bounded : ℕ → Bytes → Option Bytes
bounded n r = if leb n 64 then some r else none

step_at :
    (depth : ℕ) (s : Bytes) {o : Option Bytes}
    → s_ws s ≡ s
    → skip_switch (λ close t. loop depth close t) s ≡ o
    → s_skip_value depth s ≡ (if ltb 64 depth then none else o)
step_at depth s ws e = s_skip_value_step depth s ∙ (rw (ws, e) refl)

skip-quoted : (depth : ℕ) (s r : Bytes) → s_skip_value depth (quoted s r) ≡ bounded (depth + 0) r
unfolding s_ws skip_switch
skip-quoted depth s r = step_at depth (quoted s r) refl (s_skip_string-quoted s r) ∙ ground arith

skip_switch-word :
    (items : ℕ → Bytes → Option Bytes) (c : ℕ) (w r : Bytes)
    → IsToken c
    → All IsToken w
    → Stops r
    → skip_switch items (c ∷ w ++ r) ≡ some r
unfolding skip_switch skip_tokens is_token
skip_switch-word items c w r h hw hr =
    let differs = λ (d : ℕ) (n : is_token d ≡ false). IsToken-Differs c d h n in
    rw (differs b'"' refl, differs b'{' refl, differs b'[' refl, h)
      (ap some (skip_tokens-word w r hw hr))

skip-word :
    (depth c : ℕ) (w r : Bytes)
    → IsToken c
    → All IsToken w
    → Stops r
    → s_skip_value depth (c ∷ w ++ r) ≡ bounded (depth + 0) r
unfolding print IsJson
skip-word depth c w r h hw hr =
    step_at depth (c ∷ w ++ r) (s_ws-Starts _ (print-Starts (word c w) r (h, hw)))
      (skip_switch-word _ c w r h hw hr)
    ∙ ground arith

skip-empty :
    (depth : ℕ) (object : Bool) (r : Bytes)
    → s_skip_value depth (opening object ∷ closing object ∷ r) ≡ bounded (depth + 0) r
unfolding s_ws skip_switch skip_open
skip-empty depth true r = step_at depth _ refl refl ∙ ground arith
skip-empty depth false r = step_at depth _ refl refl ∙ ground arith

skip_key-print :
    (object : Bool) (k r : Bytes) → skip_key (closing object) (print_key object k r) ≡ some r
unfolding skip_key print_key s_ws expect
skip_key-print true k r = rw (s_skip_string-quoted k (b':' ∷ r)) refl
skip_key-print false k r = refl

-- One round of the loop, on an item whose value and followers are known.
loop-item :
    (depth : ℕ) (object : Bool) (k : Bytes) (t u r : Bytes) (n m : ℕ)
    → s_ws u ≡ u
    → s_skip_value (suc depth) t ≡ bounded (suc depth + n) u
    → after_item (λ s. loop depth (closing object) s) (closing object) u ≡ bounded (depth + m) r
    → loop depth (closing object) (print_key object k t) ≡ bounded (depth + max (suc n) m) r
loop-item depth object k t u r n m ws hv hm =
    loop_step depth (closing object) (print_key object k t)
    ∙ rw (skip_key-print object k t, hv)
        (elim (Bool-cases (leb (suc depth + n) 64)) [
          | inl fits ↦ rw (fits, ws, hm) (ground (arith, fits))
          | inr deep ↦ rw deep (ground (arith, deep))
        ])

pub s_ws-print_more :
    (object : Bool) (vs : Items) (r : Bytes)
    → s_ws (print_more object vs r) ≡ print_more object vs r
unfolding s_ws print_more
s_ws-print_more true empty r = refl
s_ws-print_more false empty r = refl
s_ws-print_more object (item k v vs) r = refl

pub print_more-Stops : (object : Bool) (vs : Items) (r : Bytes) → Stops (print_more object vs r)
unfolding is_token print_more
print_more-Stops true empty r = refl
print_more-Stops false empty r = refl
print_more-Stops object (item k v vs) r = refl

after_item-empty :
    (more : Bytes → Option Bytes) (depth : ℕ) (object : Bool) (r : Bytes)
    → depth ≤ 64
    → after_item more (closing object) (closing object ∷ r) ≡ bounded (depth + 0) r
unfolding after_item
after_item-empty more depth true r h = ground arith
after_item-empty more depth false r h = ground arith

skip_switch-opening :
    (items : ℕ → Bytes → Option Bytes) (object : Bool) (s : Bytes)
    → Starts s
    → skip_switch items (opening object ∷ s) ≡ items (closing object) s
unfolding skip_switch skip_open
skip_switch-opening items object [] h = absurd h
skip_switch-opening items true (c ∷ s) (h, a, o) = rw (s_ws-Starts (c ∷ s) (h, a, o), o) refl
skip_switch-opening items false (c ∷ s) (h, a, o) = rw (s_ws-Starts (c ∷ s) (h, a, o), a) refl

print_key-Starts : (object : Bool) (k s : Bytes) → Starts s → Starts (print_key object k s)
unfolding print_key
print_key-Starts true k s h = (refl, refl, refl)
print_key-Starts false k s h = h

skip-group :
    (depth : ℕ) (object : Bool) (s r : Bytes) (n : ℕ)
    → Starts s
    → (depth ≤ 64 → loop depth (closing object) s ≡ bounded (depth + n) r)
    → s_skip_value depth (opening object ∷ s) ≡ bounded (depth + n) r
unfolding s_ws
skip-group depth true s r n hs h =
    step_at depth (b'{' ∷ s) refl (skip_switch-opening _ true s hs) ∙ ground (arith, h)
skip-group depth false s r n hs h =
    step_at depth (b'[' ∷ s) refl (skip_switch-opening _ false s hs) ∙ ground (arith, h)

-- The loop from an item on.
loop-print :
    (depth : ℕ) (object : Bool) (k : Bytes) (v : Json) (vs : Items) (r : Bytes)
    → s_skip_value (suc depth) (print v (print_more object vs r))
      ≡ bounded (suc depth + nesting v) (print_more object vs r)
    → after_item (λ s. loop depth (closing object) s) (closing object) (print_more object vs r)
      ≡ bounded (depth + nest_items vs) r
    → loop depth (closing object) (print_key object k (print v (print_more object vs r)))
      ≡ bounded (depth + max (suc (nesting v)) (nest_items vs)) r
loop-print depth object k v vs r =
    loop-item depth object k (print v (print_more object vs r)) (print_more object vs r) r
      (nesting v) (nest_items vs) (s_ws-print_more object vs r)

mutual
  unfolding print nesting IsJson after_item

  skip-print :
      (depth : ℕ) (v : Json) (r : Bytes)
      → IsJson v
      → Stops r
      → s_skip_value depth (print v r) ≡ bounded (depth + nesting v) r
  skip-print depth (text s) r h hr = skip-quoted depth s r
  skip-print depth (word c w) r (hc, hw) hr = skip-word depth c w r hc hw hr
  skip-print depth (group object empty) r h hr = skip-empty depth object r
  skip-print depth (group object (item k v vs)) r (hv, hvs) hr =
      skip-group depth object _ r _
        (print_key-Starts object k _ (print-Starts v (print_more object vs r) hv))
        (λ d.
          loop-print depth object k v vs r
            (skip-print (suc depth) v (print_more object vs r) hv (print_more-Stops object vs r))
            (after-print depth object vs r d hvs))

  after-print :
      (depth : ℕ) (object : Bool) (vs : Items) (r : Bytes)
      → depth ≤ 64
      → AreJson vs
      → after_item (λ s. loop depth (closing object) s) (closing object) (print_more object vs r)
        ≡ bounded (depth + nest_items vs) r
  after-print depth object empty r d h =
      after_item-empty (λ s. loop depth (closing object) s) depth object r d
  after-print depth true (item k v vs) r d (hv, hvs) =
      loop-print depth true k v vs r
        (skip-print (suc depth) v (print_more true vs r) hv (print_more-Stops true vs r))
        (after-print depth true vs r d hvs)
  after-print depth false (item k v vs) r d (hv, hvs) =
      loop-print depth false k v vs r
        (skip-print (suc depth) v (print_more false vs r) hv (print_more-Stops false vs r))
        (after-print depth false vs r d hvs)

-- On the text of a value as `print` gives it, without white space and with the escapes of the gateway, where no byte of a
-- number or a word follows, `s_skip_value` stops right behind the value when its innermost value is at most at level
-- 64, and else fails. The value is at the level `depth` of the call, and each group puts the values in it, strings,
-- numbers and words included, one level further.
pub s_skip_value-print :
    (depth : ℕ) (v : Json) (r : Bytes)
    → IsJson v
    → Stops r
    → s_skip_value depth (print v r) ≡ (if leb (depth + nesting v) 64 then some r else none)
s_skip_value-print = skip-print
