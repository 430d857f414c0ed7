-- ===== src/Gateway/Json/Lookup.antt =====
-- `gwj_top_string` and `gwj_error_message` (gateway/src/gw_json.c) on the text of an object.
use axioma_oracle.Prelude.{
  ◌>>=◌, ℕ, suc, ◌≡◌, ◌∙◌, refl, Bool, true, false, ◌∷◌, Option, none, some, Bytes, length, c_str,
  same, leb, if◌then◌else◌, arith,
}
use axioma_oracle.Types.{room}
use axioma_oracle.Gateway.Json.Text.{s_ws, s_decode_string}
use axioma_oracle.Gateway.Json.Value.{is_token, expect, s_skip_value}
use axioma_oracle.Gateway.Json.Body.{
  repeat, at_byte, after_member, read_key, string_value, top_member, top_round, gwj_top_string,
}
use axioma_oracle.Gateway.Json.Printed.{
  Json, text, word, group, Items, empty, item, closing, print_key, print, print_more, nesting,
  IsJson, AreJson,
}
use axioma_oracle.Gateway.Json.Skipped.{
  Starts, s_skip_value-print, s_decode_string-start, IsToken-Differs, print-Starts, s_ws-Starts,
  print_more-Stops,
}
use axioma_oracle.Gateway.Json.Loops.{repeat_step, top_round-Shrinks}

-- What a string value gives.
unfoldable pub value_text : ℕ → Json → Option Bytes
value_text cap (text s) = if leb (length s) cap then some s else none
value_text cap (word c w) = none
value_text cap (group object vs) = none

-- The value of the first member with the key. The members in front of it have keys of up to 63 bytes and
-- values that `s_skip_value` passes.
unfoldable pub lookup : Bytes → ℕ → Items → Option Bytes
unfolding value_text
lookup key cap empty = none
lookup key cap (item k v vs) =
    let later = lookup key cap vs in
    if leb (length k) 63
    then if same (c_str k) key
      then value_text (room cap) v
      else if leb (nesting v) 64
      then later
      else none
    else none

pub read_key-print :
    (cap : ℕ) (k s : Bytes)
    → read_key cap (print_key true k s)
      ≡ (if leb (length k) cap then some (c_str k, s_ws s) else none)
unfolding read_key print_key expect s_ws
read_key-print cap k s = rw (s_decode_string-start cap k (b':' ∷ s)) (ground arith)

string_value-print :
    (cap : ℕ) (v : Json) (r : Bytes)
    → IsJson v
    → string_value cap (print v r) ≡ value_text (room cap) v
unfolding string_value print value_text s_decode_string IsJson is_token
string_value-print cap (text s) r h = rw (s_decode_string-start (room cap) s r) (ground arith)
string_value-print cap (word c w) r (h, hw) = rw (IsToken-Differs c b'"' h refl) refl
string_value-print cap (group true empty) r h = refl
string_value-print cap (group false empty) r h = refl
string_value-print cap (group true (item k v vs)) r h = refl
string_value-print cap (group false (item k v vs)) r h = refl

members_at :
    {A : Type 0} (cap : ℕ) (stop : Bytes → Option A) (u : Bytes → Bytes → Option A) (k s : Bytes)
    → at_byte b'}' stop (λ t. read_key cap t >>= λ r. u r.0 r.1) (s_ws (print_key true k s))
      ≡ (read_key cap (print_key true k s) >>= λ r. u r.0 r.1)
unfolding at_byte s_ws print_key
members_at cap stop u k s = refl

-- A round on the text of a member.
pub members-print :
    {A : Type 0} (cap : ℕ) (stop : Bytes → Option A) (u : Bytes → Bytes → Option A) (k s : Bytes)
    → Starts s
    → at_byte b'}' stop (λ t. read_key cap t >>= λ r. u r.0 r.1) (s_ws (print_key true k s))
      ≡ (if leb (length k) cap then u (c_str k) s else none)
members-print cap stop u k s h =
    members_at cap stop u k s ∙ rw (read_key-print cap k s, s_ws-Starts s h) (ground arith)

pub after-empty :
    {A : Type 0} (f stop : Bytes → Option A) (object : Bool) (r : Bytes)
    → after_member f (closing object) stop (print_more object empty r) ≡ stop r
unfolding after_member at_byte print_more s_ws
after-empty f stop true r = refl
after-empty f stop false r = refl

pub after-item :
    {A : Type 0} (f stop : Bytes → Option A) (object : Bool) (k : Bytes) (v : Json) (vs : Items)
    (r : Bytes)
    → after_member f (closing object) stop (print_more object (item k v vs) r)
      ≡ f (print_key object k (print v (print_more object vs r)))
unfolding after_member at_byte print_more s_ws
after-item f stop object k v vs r = refl

pub skip-member :
    (object : Bool) (v : Json) (vs : Items) (r : Bytes)
    → IsJson v
    → s_skip_value 0 (print v (print_more object vs r))
      ≡ (if leb (nesting v) 64 then some (print_more object vs r) else none)
skip-member object v vs r h =
    s_skip_value-print 0 v (print_more object vs r) h (print_more-Stops object vs r) ∙ ground arith

-- The rounds of `gwj_top_string`, without their fuel.
abbrev rounds : Bytes → ℕ → Bytes → Option Bytes
rounds key cap s = repeat (top_round key cap) (suc (length s)) s

module _ (key : Bytes) (cap : ℕ) where
  top_member-print :
      (k : Bytes) (v : Json) (vs : Items) (r : Bytes)
      → IsJson v
      → after_member (rounds key cap) b'}' (λ s. none) (print_more true vs r) ≡ lookup key cap vs
      → (if leb (length k) 63
          then top_member key cap (rounds key cap) (c_str k) (print v (print_more true vs r))
          else none)
        ≡ lookup key cap (item k v vs)
  unfolding top_member lookup
  top_member-print k v vs r h more =
      rw (string_value-print cap v (print_more true vs r) h, skip-member true v vs r h)
        (ground (arith, more))

  top_item-print :
      (k : Bytes) (v : Json) (vs : Items) (r : Bytes)
      → IsJson v
      → after_member (rounds key cap) b'}' (λ s. none) (print_more true vs r) ≡ lookup key cap vs
      → rounds key cap (print_key true k (print v (print_more true vs r)))
        ≡ lookup key cap (item k v vs)
  unfolding top_round
  top_item-print k v vs r h more =
      repeat_step length (top_round key cap) _ (top_round-Shrinks key cap)
      ∙ members-print 63 (λ s. none) (top_member key cap (rounds key cap)) k _ (print-Starts v _ h)
      ∙ top_member-print k v vs r h more

  after-print :
      (vs : Items) (r : Bytes)
      → AreJson vs
      → after_member (rounds key cap) b'}' (λ s. none) (print_more true vs r) ≡ lookup key cap vs
  unfolding AreJson lookup
  after-print empty r h = after-empty (rounds key cap) (λ s. none) true r
  after-print (item k v vs) r (hv, hvs) =
      after-item (rounds key cap) (λ s. none) true k v vs r
      ∙ top_item-print k v vs r hv (after-print vs r hvs)

  -- On the text of an object as `print` gives it, with a buffer of `cap` bytes that is not empty, `gwj_top_string`
  -- gives the value of the first member whose key, up to a zero byte in it, is the one asked for, when that value is a
  -- string of less than `cap` bytes; and it fails when there is no such member, when its value is no such string, and when a member up
  -- to it has a key of more than 63 bytes or one in front of it a value with a value in more than 64 groups.
  pub gwj_top_string-print :
      (vs : Items) (r : Bytes)
      → AreJson vs
      → gwj_top_string (print (group true vs) r) key cap ≡ lookup key cap vs
  unfolding gwj_top_string repeat top_round at_byte print s_ws expect lookup AreJson
  gwj_top_string-print empty r h = refl
  gwj_top_string-print (item k v vs) r (hv, hvs) = top_item-print k v vs r hv (after-print vs r hvs)
