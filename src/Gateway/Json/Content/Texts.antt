-- ===== src/Gateway/Json/Content/Texts.antt =====
-- `gwj_content_text` (gateway/src/gw_json.c) on the text of a value.
use axioma_oracle.Prelude.{
  ◌>>=◌, ℕ, suc, ◌≤◌, ◌≡◌, ◌∙◌, refl, ap, sym, Bool, true, false, [], ◌∷◌, Option, none, some,
  Bytes, codes, length, c_str, same, leb, if◌then◌else◌, arith, Bool-cases, Option-cases, inl, inr,
}
use axioma_oracle.Gateway.Json.Text.{s_ws}
use axioma_oracle.Gateway.Json.Value.{is_token, expect}
use axioma_oracle.Gateway.Json.Body.{repeat, at_byte, after_member}
use axioma_oracle.Gateway.Json.Strings.{bind-some}
use axioma_oracle.Gateway.Json.Printed.{
  Json, text, word, group, Items, empty, item, print_key, print, print_more, nesting, IsJson,
  AreJson,
}
use axioma_oracle.Gateway.Json.Skipped.{IsToken-Differs, Starts, print-Starts, s_ws-Starts}
use axioma_oracle.Gateway.Json.Loops.{repeat_step}
use axioma_oracle.Gateway.Json.Lookup.{members-print, after-empty, after-item, skip-member}
use axioma_oracle.Gateway.Json.Content.{
  other_value, elements_round, Found, content_value, body_value, body_round, gwj_content_text,
}
use axioma_oracle.Gateway.Json.Content.Loops.{
  element, elements_round_lem, elements_round-Shrinks, body_round-Shrinks,
}
use axioma_oracle.Gateway.Json.Content.Blocks.{
  block_of, append_block, members_text, element-members, length-append_block, with_rest,
}

-- An element that is no object is refused.
unfoldable pub append_element : ℕ → Bytes → Json → Option Bytes
unfolding block_of append_block
append_element cap dst (text s) = none
append_element cap dst (word c w) = none
append_element cap dst (group false vs) = none
append_element cap dst (group true vs) = block_of (false, none) vs >>= λ b. append_block cap dst b

unfoldable pub append_elements : ℕ → Bytes → Items → Option Bytes
unfolding append_element
append_elements cap dst empty = some dst
append_elements cap dst (item k v vs) =
    append_element cap dst v >>= λ dst'. append_elements cap dst' vs

-- What `content` appends; its value has to be an array.
unfoldable pub append_content : ℕ → Bytes → Json → Option Bytes
unfolding append_elements
append_content cap dst (text s) = none
append_content cap dst (word c w) = none
append_content cap dst (group true vs) = none
append_content cap dst (group false vs) = append_elements cap dst vs

bind-bind :
    {A B C : Type 0} (o : Option A) (f : A → Option B) (g : B → Option C)
    → ((o >>= f) >>= g) ≡ (o >>= λ a. f a >>= g)
bind-bind none f g = refl
bind-bind (some a) f g = refl

element-print :
    (cap : ℕ) (dst : Bytes) (v : Json) (r : Bytes)
    → length dst ≤ cap
    → IsJson v
    → element cap dst (print v r) ≡ with_rest (append_element cap dst v) r
unfolding print expect s_ws IsJson is_token append_element members_text print_more
element-print cap dst (text s) r h k = refl
element-print cap dst (word c w) r h (k, kw) =
    rw (s_ws-Starts _ (print-Starts (word c w) r (k, kw)), IsToken-Differs c b'{' k refl) refl
element-print cap dst (group false empty) r h k = refl
element-print cap dst (group false (item key v vs)) r h k = refl
element-print cap dst (group true empty) r h k =
    element-members cap dst empty r h k
    ∙ sym (
        bind-bind (block_of (false, none) empty) (append_block cap dst) (λ d. with_rest (some d) r))
element-print cap dst (group true (item key v vs)) r h k =
    element-members cap dst (item key v vs) r h k
    ∙ sym (
        bind-bind (block_of (false, none) (item key v vs)) (append_block cap dst)
          (λ d. with_rest (some d) r))

length-append_element :
    (cap : ℕ) (dst : Bytes) (v : Json) (d : Bytes)
    → length dst ≤ cap
    → append_element cap dst v ≡ some d
    → length d ≤ cap
unfolding append_element
length-append_element cap dst (text s) d h e = cc
length-append_element cap dst (word c w) d h e = cc
length-append_element cap dst (group false vs) d h e = cc
length-append_element cap dst (group true vs) d h e =
    let (b, _, q) = bind-some (block_of (false, none) vs) (append_block cap dst) e in
    length-append_block cap dst b d h q

-- The loop over the elements, without its fuel.
abbrev element_loop : ℕ → Bytes × Bytes → Option (Bytes × Bytes)
element_loop cap x = repeat (elements_round cap) (suc (length x.1)) x

abbrev elements_after : ℕ → Bytes → Bytes → Option (Bytes × Bytes)
elements_after cap dst s = after_member (λ t. element_loop cap (dst, t)) b']' (λ t. some (dst, t)) s

element_loop-print :
    (cap : ℕ) (dst : Bytes) (v : Json) (r : Bytes)
    → length dst ≤ cap
    → IsJson v
    → element_loop cap (dst, print v r) ≡ (append_element cap dst v >>= λ d. elements_after cap d r)
element_loop-print cap dst v r h k =
    repeat_step (λ (x : Bytes × Bytes). length x.1) (elements_round cap) (dst, print v r)
      (elements_round-Shrinks cap)
    ∙ elements_round_lem cap (element_loop cap) dst (print v r)
    ∙ ap (λ o. o >>= λ x. elements_after cap x.0 x.1) (element-print cap dst v r h k)
    ∙ bind-bind (append_element cap dst v) (λ d. with_rest (some d) r)
        (λ x. elements_after cap x.0 x.1)

elements_later :
    (cap : ℕ) (dst : Bytes) (v : Json) (vs : Items) (r : Bytes)
    → length dst ≤ cap
    → ((d : Bytes)
        → length d ≤ cap
        → elements_after cap d (print_more false vs r) ≡ with_rest (append_elements cap d vs) r)
    → (append_element cap dst v >>= λ d. elements_after cap d (print_more false vs r))
      ≡ with_rest (append_element cap dst v >>= λ d. append_elements cap d vs) r
elements_later cap dst v vs r h later = elim (Option-cases (append_element cap dst v)) [
  | inl bad ↦ rw bad refl
  | inr (d, good) ↦ rw good (later d (length-append_element cap dst v d h good))
]

-- The elements behind a first one.
elements_after-print :
    (cap : ℕ) (dst : Bytes) (vs : Items) (r : Bytes)
    → length dst ≤ cap
    → AreJson vs
    → elements_after cap dst (print_more false vs r) ≡ with_rest (append_elements cap dst vs) r
unfolding append_elements IsJson print_key
elements_after-print cap dst empty r h k =
    after-empty (λ t. element_loop cap (dst, t)) (λ t. some (dst, t)) false r
elements_after-print cap dst (item key v vs) r h (k, ks) =
    after-item (λ t. element_loop cap (dst, t)) (λ t. some (dst, t)) false key v vs r
    ∙ element_loop-print cap dst v (print_more false vs r) h k
    ∙ elements_later cap dst v vs r h (λ d g. elements_after-print cap d vs r g ks)

at_byte-Starts :
    {A : Type 0} (y n : Bytes → Option A) (s : Bytes) → Starts s → at_byte b']' y n (s_ws s) ≡ n s
unfolding at_byte s_ws
at_byte-Starts y n [] h = absurd h
at_byte-Starts y n (c ∷ s) (w, a, o) = rw (w, a) refl

content_value-print :
    (cap : ℕ) (dst : Bytes) (v : Json) (r : Bytes)
    → length dst ≤ cap
    → IsJson v
    → content_value cap dst (print v r) ≡ with_rest (append_content cap dst v) r
unfolding content_value append_content print print_key expect at_byte s_ws IsJson is_token
    append_elements
content_value-print cap dst (text s) r h k = refl
content_value-print cap dst (word c w) r h (k, kw) = rw (IsToken-Differs c b'[' k refl) refl
content_value-print cap dst (group true empty) r h k = refl
content_value-print cap dst (group true (item key v vs)) r h k = refl
content_value-print cap dst (group false empty) r h k = refl
content_value-print cap dst (group false (item key v vs)) r h (k, ks) =
    at_byte-Starts (λ t. some (dst, t)) (λ t. element_loop cap (dst, t)) _
      (print-Starts v (print_more false vs r) k)
    ∙ element_loop-print cap dst v (print_more false vs r) h k
    ∙ elements_later cap dst v vs r h (λ d g. elements_after-print cap d vs r g ks)

-- What the members of the body append; `found` tells whether `content` was one of them.
unfoldable pub body_text : ℕ → Bool → Bytes → Items → Option Bytes
unfolding append_content
body_text cap found dst empty = if found then some dst else none
body_text cap found dst (item k v vs) =
    let content = append_content cap dst v >>= λ dst'. body_text cap true dst' vs in
    let other = body_text cap found dst vs in
    if leb (length k) 63
    then if same (c_str k) (codes "content")
      then content
      else if leb (nesting v) 64
      then other
      else none
    else none

length-append_elements :
    (cap : ℕ) (dst : Bytes) (vs : Items) (d : Bytes)
    → length dst ≤ cap
    → append_elements cap dst vs ≡ some d
    → length d ≤ cap
unfolding append_elements
length-append_elements cap dst empty d h e = ground (arith, h)
length-append_elements cap dst (item k v vs) d h e =
    let (d1, p, q) = bind-some (append_element cap dst v) (λ d1. append_elements cap d1 vs) e in
    length-append_elements cap d1 vs d (length-append_element cap dst v d1 h p) q

length-append_content :
    (cap : ℕ) (dst : Bytes) (v : Json) (d : Bytes)
    → length dst ≤ cap
    → append_content cap dst v ≡ some d
    → length d ≤ cap
unfolding append_content
length-append_content cap dst (text s) d h e = cc
length-append_content cap dst (word c w) d h e = cc
length-append_content cap dst (group true vs) d h e = cc
length-append_content cap dst (group false vs) d h e = length-append_elements cap dst vs d h e

-- The rounds over the body, without their fuel, and the end of the function.
abbrev body_loop : ℕ → Found × Bytes → Option Found
body_loop cap x = repeat (body_round cap) (suc (length x.1)) x

abbrev found_text : Found → Option Bytes
found_text f = if f.0 then some f.1 else none

abbrev body_after : ℕ → Found → Bytes → Option Found
body_after cap f s = after_member (λ t. body_loop cap (f, t)) b'}' (λ t. some f) s

body_round-print :
    (cap : ℕ) (f : Found) (k : Bytes) (v : Json) (s : Bytes)
    → IsJson v
    → body_loop cap (f, print_key true k (print v s)) ≡ (
        if leb (length k) 63
        then (body_value cap (c_str k) f (print v s) >>= λ x. body_after cap x.0 x.1)
        else none)
unfolding body_round
body_round-print cap f k v s h =
    repeat_step (λ (x : Found × Bytes). length x.1) (body_round cap)
      (f, print_key true k (print v s)) (body_round-Shrinks cap)
    ∙ members-print 63 (λ t. some f) (λ k' t. body_value cap k' f t >>= λ x. body_after cap x.0 x.1)
        k _ (print-Starts v s h)

-- A member behind its key, with what is known of those that follow.
body_value-print :
    (cap : ℕ) (found : Bool) (dst ek : Bytes) (v : Json) (vs : Items) (r : Bytes)
    → length dst ≤ cap
    → IsJson v
    → ((f : Bool) (d : Bytes)
        → length d ≤ cap
        → (body_after cap (f, d) (print_more true vs r) >>= found_text) ≡ body_text cap f d vs)
    → ((body_value cap ek (found, dst) (print v (print_more true vs r)) >>= λ x.
          body_after cap x.0 x.1)
        >>= found_text)
      ≡ (if same ek (codes "content")
          then (append_content cap dst v >>= λ d. body_text cap true d vs)
          else if leb (nesting v) 64
          then body_text cap found dst vs
          else none)
unfolding body_value other_value
body_value-print cap found dst ek v vs r h j later = elim (Bool-cases (same ek (codes "content"))) [
  | inl content ↦
      rw (content, content_value-print cap dst v (print_more true vs r) h j)
        (elim (Option-cases (append_content cap dst v)) [
          | inl bad ↦ rw bad refl
          | inr (d, good) ↦ rw good (later true d (length-append_content cap dst v d h good))
        ])
  | inr other ↦
      rw (other, skip-member true v vs r j)
        (elim (Bool-cases (leb (nesting v) 64)) [
          | inl fits ↦ rw fits (later found dst h)
          | inr deep ↦ rw deep refl
        ])
]

-- One member, with what is known of those that follow.
body_item-print :
    (cap : ℕ) (found : Bool) (dst k : Bytes) (v : Json) (vs : Items) (r : Bytes)
    → length dst ≤ cap
    → IsJson v
    → ((f : Bool) (d : Bytes)
        → length d ≤ cap
        → (body_after cap (f, d) (print_more true vs r) >>= found_text) ≡ body_text cap f d vs)
    → (body_loop cap ((found, dst), print_key true k (print v (print_more true vs r)))
        >>= found_text)
      ≡ body_text cap found dst (item k v vs)
unfolding body_text body_value other_value
body_item-print cap found dst k v vs r h j later =
    ap (λ o. o >>= found_text) (body_round-print cap (found, dst) k v (print_more true vs r) j)
    ∙ elim (Bool-cases (leb (length k) 63)) [
      | inl fits ↦ rw fits (body_value-print cap found dst (c_str k) v vs r h j later)
      | inr long ↦ rw long refl
    ]

body_after-print :
    (cap : ℕ) (vs : Items) (r : Bytes) (found : Bool) (dst : Bytes)
    → AreJson vs
    → length dst ≤ cap
    → (body_after cap (found, dst) (print_more true vs r) >>= found_text)
      ≡ body_text cap found dst vs
unfolding body_text IsJson
body_after-print cap empty r found dst k h =
    ap (λ o. o >>= found_text)
      (after-empty (λ t. body_loop cap ((found, dst), t)) (λ t. some (found, dst)) true r)
body_after-print cap (item key v vs) r found dst (k, ks) h =
    ap (λ o. o >>= found_text)
      (after-item (λ t. body_loop cap ((found, dst), t)) (λ t. some (found, dst)) true key v vs r)
    ∙ body_item-print cap found dst key v vs r h k (λ f d g. body_after-print cap vs r f d ks g)

-- On the text of an object `gwj_content_text` gives the texts of the blocks of type text in the array `content`,
-- one behind the other, as `body_text` has them from the members. It fails when there is no such array, when a
-- block is no object, its type no string of up to 15 bytes or its text no string, when a key has more than 63
-- bytes, or 31 in a block, when a value that is passed over lies too deep, and when the texts do not fit.
pub gwj_content_text-print :
    (cap : ℕ) (vs : Items) (r : Bytes)
    → AreJson vs
    → gwj_content_text (print (group true vs) r) cap ≡ body_text cap false [] vs
unfolding gwj_content_text repeat body_round at_byte print s_ws expect body_text IsJson
gwj_content_text-print cap empty r h = refl
gwj_content_text-print cap (item k v vs) r (h, hs) =
    body_item-print cap false [] k v vs r (omega arith) h
      (λ f d g. body_after-print cap vs r f d hs g)
