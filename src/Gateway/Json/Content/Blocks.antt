-- ===== src/Gateway/Json/Content/Blocks.antt =====
-- The loop over an element of `content` (gateway/src/gw_json.c) on the text of a value.
use axioma_oracle.Prelude.{
  ◌>>=◌, ℕ, suc, ◌+◌, ◌≤◌, ◌≡◌, ◌∙◌, refl, ap, Bool, true, false, ◌∷◌, ◌++◌, Option, none, some,
  Bytes, codes, length, length-append, c_str, same, leb, if◌then◌else◌, arith, Bool-cases, inl, inr,
}
use axioma_oracle.Gateway.Json.Text.{s_ws, s_decode_string, s_skip_string}
use axioma_oracle.Gateway.Json.Value.{is_token}
use axioma_oracle.Gateway.Json.Body.{repeat, at_byte, after_member}
use axioma_oracle.Gateway.Json.Printed.{
  Json, text, word, group, Items, empty, item, quoted, print_key, print, print_more, nesting,
  IsJson, AreJson,
}
use axioma_oracle.Gateway.Json.Skipped.{
  IsToken-Differs, s_skip_string-quoted, s_decode_string-quoted, s_decode_string-start,
  print-Starts,
}
use axioma_oracle.Gateway.Json.Loops.{repeat_step}
use axioma_oracle.Gateway.Json.Lookup.{members-print, after-empty, after-item, skip-member}
use axioma_oracle.Gateway.Json.Content.{
  Element, new_element, type_value, text_value, other_value, element_value, element_round,
  decode_at, append_text,
}
use axioma_oracle.Gateway.Json.Content.Loops.{element_round-Shrinks}

-- What is known of an element: whether its type is text, and the last text.
abbrev pub Block : Type 0
Block = Bool × Option Bytes

unfoldable pub set_type : Block → Json → Option Block
set_type (b, t) (text s) =
    if leb (length s) 15 then some (if same (c_str s) (codes "text") then true else b, t) else none
set_type b (word c w) = none
set_type b (group object vs) = none

unfoldable pub set_text : Block → Json → Option Block
set_text (b, t) (text s) = some (b, some s)
set_text b (word c w) = none
set_text b (group object vs) = none

-- One member of an element, behind its key.
unfoldable pub block_member : Bytes → Block → Json → Option Block
unfolding set_type set_text
block_member ek b v =
    if same ek (codes "type")
    then set_type b v
    else if same ek (codes "text")
    then set_text b v
    else if leb (nesting v) 64
    then some b
    else none

unfoldable pub block_of : Block → Items → Option Block
unfolding block_member
block_of b empty = some b
block_of b (item k v vs) =
    (if leb (length k) 31 then block_member (c_str k) b v else none) >>= λ b'. block_of b' vs

-- What a scanned element knows, when it knows `b`.
abbrev pub At : Option Bytes → Option Bytes → Type 0
At none a = a ≡ none
At (some s) a = (r : Bytes) × (a ≡ some (quoted s r))

abbrev pub Knows : Element → Block → Type 0
Knows e b = (e.is_text ≡ b.0) × At b.1 e.text_at

-- The scan of an element follows its tree.
abbrev pub Follows : Option Block → Bytes → Option (Element × Bytes) → Type 0
Follows none r o = o ≡ none
Follows (some b) r o = (e : Element) × (o ≡ some (e, r)) × Knows e b

type_value-quoted :
    (e : Element) (s r : Bytes)
    → type_value e (quoted s r) ≡ (
        if leb (length s) 15
        then some (if same (c_str s) (codes "text") then record e { is_text = true } else e, r)
        else none)
unfolding type_value
type_value-quoted e s r = rw (s_decode_string-start 15 s r) (ground arith)

text_value-quoted :
    (e : Element) (s r : Bytes)
    → text_value e (quoted s r) ≡ some (record e { text_at = some (quoted s r) }, r)
unfolding text_value
text_value-quoted e s r = rw (s_skip_string-quoted s r) refl

marked :
    (e : Element) (b : Bool) (t : Option Bytes) (m : Bool)
    → Knows e (b, t)
    → Knows (if m then record e { is_text = true } else e) (if m then true else b, t)
marked e b t true (k, a) = (refl, a)
marked e b t false (k, a) = (k, a)

type_value-Follows :
    (e : Element) (b : Block) (v : Json) (r : Bytes)
    → IsJson v
    → Knows e b
    → Follows (set_type b v) r (type_value e (print v r))
unfolding set_type type_value print s_decode_string IsJson is_token
type_value-Follows e (b, t) (text s) r h (k, a) =
    let is = same (c_str s) (codes "text") in
    elim (Bool-cases (leb (length s) 15)) [
      | inl short ↦ rw short (
        if is then record e { is_text = true } else e,
        type_value-quoted e s r ∙ rw short refl,
        marked e b t is (k, a),
      )
      | inr long ↦ rw long (type_value-quoted e s r ∙ rw long refl)
    ]
type_value-Follows e b (word c w) r (h, hw) k = rw (IsToken-Differs c b'"' h refl) refl
type_value-Follows e b (group true empty) r h k = refl
type_value-Follows e b (group false empty) r h k = refl
type_value-Follows e b (group true (item k' v vs)) r h k = refl
type_value-Follows e b (group false (item k' v vs)) r h k = refl

text_value-Follows :
    (e : Element) (b : Block) (v : Json) (r : Bytes)
    → IsJson v
    → Knows e b
    → Follows (set_text b v) r (text_value e (print v r))
unfolding set_text text_value print s_skip_string IsJson is_token
text_value-Follows e (b, t) (text s) r h (k, a) =
    (record e { text_at = some (quoted s r) }, text_value-quoted e s r, (k, (r, refl)))
text_value-Follows e b (word c w) r (h, hw) k = rw (IsToken-Differs c b'"' h refl) refl
text_value-Follows e b (group true empty) r h k = refl
text_value-Follows e b (group false empty) r h k = refl
text_value-Follows e b (group true (item k' v vs)) r h k = refl
text_value-Follows e b (group false (item k' v vs)) r h k = refl

other_value-Follows :
    (e : Element) (b : Block) (v : Json) (vs : Items) (r : Bytes)
    → IsJson v
    → Knows e b
    → Follows
        (if leb (nesting v) 64 then some b else none)
        (print_more true vs r)
        (other_value e (print v (print_more true vs r)))
unfolding other_value
other_value-Follows e b v vs r h k = elim (Bool-cases (leb (nesting v) 64)) [
  | inl fits ↦ rw fits (e, rw (skip-member true v vs r h, fits) refl, k)
  | inr deep ↦ rw deep (rw (skip-member true v vs r h, deep) refl)
]

element_value-Follows :
    (ek : Bytes) (e : Element) (b : Block) (v : Json) (vs : Items) (r : Bytes)
    → IsJson v
    → Knows e b
    → Follows
        (block_member ek b v)
        (print_more true vs r)
        (element_value ek e (print v (print_more true vs r)))
unfolding block_member element_value
element_value-Follows ek e b v vs r h k = elim (Bool-cases (same ek (codes "type"))) [
  | inl type' ↦ rw type' (type_value-Follows e b v (print_more true vs r) h k)
  | inr no_type ↦ elim (Bool-cases (same ek (codes "text"))) [
    | inl text' ↦ rw (no_type, text') (text_value-Follows e b v (print_more true vs r) h k)
    | inr no_text ↦ rw (no_type, no_text) (other_value-Follows e b v vs r h k)
  ]
]

-- The loop over an element, without its fuel.
abbrev pub element_rounds : Element × Bytes → Option (Element × Bytes)
element_rounds x = repeat element_round (suc (length x.1)) x

abbrev element_after : Element → Bytes → Option (Element × Bytes)
element_after e s = after_member (λ t. element_rounds (e, t)) b'}' (λ t. some (e, t)) s

-- A round on the text of a member.
element_round-print :
    (e : Element) (k : Bytes) (v : Json) (s : Bytes)
    → IsJson v
    → element_rounds (e, print_key true k (print v s)) ≡ (
        if leb (length k) 31
        then (element_value (c_str k) e (print v s) >>= λ x. element_after x.0 x.1)
        else none)
unfolding element_round
element_round-print e k v s h =
    repeat_step (λ (x : Element × Bytes). length x.1) element_round _ element_round-Shrinks
    ∙ members-print 31 (λ t. some (e, t))
        (λ ek t. element_value ek e t >>= λ x. element_after x.0 x.1) k _ (print-Starts v s h)

Follows-bind :
    (o : Option Block) (u : Option (Element × Bytes)) (s r : Bytes) (f : Block → Option Block)
    (g : Element × Bytes → Option (Element × Bytes))
    → Follows o s u
    → ((e : Element) (b : Block) → Knows e b → Follows (f b) r (g (e, s)))
    → Follows (o >>= f) r (u >>= g)
Follows-bind none u s r f g n h = ap (λ x. x >>= g) n
Follows-bind (some b) u s r f g (e, is, k) h = rw is (h e b k)

pub element_item-Follows :
    (e : Element) (b : Block) (k : Bytes) (v : Json) (vs : Items) (r : Bytes)
    → IsJson v
    → Knows e b
    → ((e' : Element) (b' : Block)
        → Knows e' b'
        → Follows (block_of b' vs) r (element_after e' (print_more true vs r)))
    → Follows
        (block_of b (item k v vs))
        r
        (element_rounds (e, print_key true k (print v (print_more true vs r))))
unfolding block_of
element_item-Follows e b k v vs r h m later =
    rw (element_round-print e k v (print_more true vs r) h) (elim (Bool-cases (leb (length k) 31)) [
      | inl fits ↦ rw fits (
          Follows-bind (block_member (c_str k) b v)
            (element_value (c_str k) e (print v (print_more true vs r))) (print_more true vs r) r
            (λ b'. block_of b' vs) (λ x. element_after x.0 x.1)
            (element_value-Follows (c_str k) e b v vs r h m) later)
      | inr long ↦ rw long refl
    ])

pub element_after-Follows :
    (vs : Items) (e : Element) (b : Block) (r : Bytes)
    → AreJson vs
    → Knows e b
    → Follows (block_of b vs) r (element_after e (print_more true vs r))
unfolding block_of IsJson
element_after-Follows empty e b r h k =
    rw (after-empty (λ t. element_rounds (e, t)) (λ t. some (e, t)) true r) (e, refl, k)
element_after-Follows (item key v vs) e b r (h, hs) k =
    rw (after-item (λ t. element_rounds (e, t)) (λ t. some (e, t)) true key v vs r)
      (element_item-Follows e b key v vs r h k (λ e' b' k'. element_after-Follows vs e' b' r hs k'))

-- The text that an element appends.
unfoldable pub append_block : ℕ → Bytes → Block → Option Bytes
append_block cap dst (true, some s) =
    if leb (length dst + length s) cap then some (dst ++ s) else none
append_block cap dst (true, none) = some dst
append_block cap dst (false, t) = some dst

pub append_text-block :
    (cap : ℕ) (dst : Bytes) (e : Element) (b : Block)
    → length dst ≤ cap
    → Knows e b
    → append_text cap dst e ≡ append_block cap dst b
unfolding append_text decode_at append_block
append_text-block cap dst e (false, t) h (k, a) = rw k refl
append_text-block cap dst e (true, none) h (k, a) = rw (k, a) refl
append_text-block cap dst e (true, some s) h (k, (r, a)) =
    rw (k, a, s_decode_string-quoted cap dst s r h) (ground arith)

-- The text of an object from behind its brace.
unfoldable pub members_text : Items → Bytes → Bytes
members_text empty r = b'}' ∷ r
members_text (item k v vs) r = print_key true k (print v (print_more true vs r))

element_rounds-end : (e : Element) (r : Bytes) → element_rounds (e, b'}' ∷ r) ≡ some (e, r)
unfolding repeat element_round at_byte s_ws
element_rounds-end e r = refl

members_text-Follows :
    (vs : Items) (r : Bytes)
    → AreJson vs
    → Follows (block_of (false, none) vs) r (element_rounds (new_element, members_text vs r))
unfolding members_text block_of IsJson
members_text-Follows empty r h = (new_element, element_rounds-end new_element r, (refl, refl))
members_text-Follows (item k v vs) r (h, hs) =
    element_item-Follows new_element (false, none) k v vs r h (refl, refl)
      (λ e' b' k'. element_after-Follows vs e' b' r hs k')

-- A text, and what is left.
abbrev pub with_rest : Option Bytes → Bytes → Option (Bytes × Bytes)
with_rest o r = o >>= λ d. some (d, r)

-- What the element with these members appends, and what is left.
follow-append :
    (cap : ℕ) (dst : Bytes) (o : Option Block) (u : Option (Element × Bytes)) (r : Bytes)
    → length dst ≤ cap
    → Follows o r u
    → (u >>= λ y. with_rest (append_text cap dst y.0) y.1)
      ≡ (o >>= λ b. with_rest (append_block cap dst b) r)
follow-append cap dst none u r h n = ap (λ x. x >>= λ y. with_rest (append_text cap dst y.0) y.1) n
follow-append cap dst (some b) u r h (e, is, k) = rw (is, append_text-block cap dst e b h k) refl

pub element-members :
    (cap : ℕ) (dst : Bytes) (vs : Items) (r : Bytes)
    → length dst ≤ cap
    → AreJson vs
    → (element_rounds (new_element, members_text vs r) >>= λ y.
        with_rest (append_text cap dst y.0) y.1)
      ≡ (block_of (false, none) vs >>= λ b. with_rest (append_block cap dst b) r)
element-members cap dst vs r h k =
    follow-append cap dst (block_of (false, none) vs) _ r h (members_text-Follows vs r k)

pub length-append_block :
    (cap : ℕ) (dst : Bytes) (b : Block) (d : Bytes)
    → length dst ≤ cap
    → append_block cap dst b ≡ some d
    → length d ≤ cap
unfolding append_block
length-append_block cap dst (false, t) d h e = ground (arith, h)
length-append_block cap dst (true, none) d h e = ground (arith, h)
length-append_block cap dst (true, some s) d h e = ground (arith, h, length-append dst s)
