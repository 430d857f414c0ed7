-- ===== src/Gateway/Json/Message.antt =====
-- `gwj_error_message` (gateway/src/gw_json.c) on the text of an object.
use axioma_oracle.Prelude.{
  ℕ, suc, ◌≡◌, ◌∙◌, refl, true, false, ◌∷◌, Option, none, Bytes, codes, length, c_str, same, leb,
  if◌then◌else◌, arith,
}
use axioma_oracle.Gateway.Json.Text.{s_ws}
use axioma_oracle.Gateway.Json.Value.{is_token, expect}
use axioma_oracle.Gateway.Json.Body.{
  repeat, at_byte, after_member, gwj_top_string, error_member, error_round, gwj_error_message,
}
use axioma_oracle.Gateway.Json.Printed.{
  Json, text, word, group, Items, empty, item, print_key, print, print_more, nesting, IsJson,
  AreJson,
}
use axioma_oracle.Gateway.Json.Skipped.{IsToken-Differs, print-Starts}
use axioma_oracle.Gateway.Json.Lookup.{
  lookup, members-print, after-empty, after-item, skip-member, gwj_top_string-print,
}
use axioma_oracle.Gateway.Json.Loops.{repeat_step, error_round-Shrinks}

-- The string `message` of an object.
unfoldable pub message_of : ℕ → Json → Option Bytes
unfolding lookup
message_of cap (text s) = none
message_of cap (word c w) = none
message_of cap (group false vs) = none
message_of cap (group true vs) = lookup (codes "message") cap vs

-- The first member `error` decides. The members in front of it have keys of up to 31 bytes.
unfoldable pub error_text : ℕ → Items → Option Bytes
unfolding message_of
error_text cap empty = none
error_text cap (item k v vs) =
    let later = error_text cap vs in
    if leb (length k) 31
    then if same (c_str k) (codes "error")
      then message_of cap v
      else if leb (nesting v) 64
      then later
      else none
    else none

abbrev message_at : ℕ → Bytes → Option Bytes
message_at cap s = at_byte b'{' (λ s'. gwj_top_string s (codes "message") cap) (λ s'. none) s

message_at-group :
    (cap : ℕ) (s : Bytes)
    → message_at cap (b'{' ∷ s) ≡ gwj_top_string (b'{' ∷ s) (codes "message") cap
unfolding at_byte
message_at-group cap s = refl

message_at-print :
    (cap : ℕ) (v : Json) (r : Bytes) → IsJson v → message_at cap (print v r) ≡ message_of cap v
unfolding at_byte print IsJson is_token message_of
message_at-print cap (text s) r h = refl
message_at-print cap (word c w) r (h, hw) = rw (IsToken-Differs c b'{' h refl) refl
message_at-print cap (group false empty) r h = refl
message_at-print cap (group false (item k v vs)) r h = refl
message_at-print cap (group true empty) r h =
    message_at-group cap _ ∙ gwj_top_string-print (codes "message") cap empty r h
message_at-print cap (group true (item k v vs)) r h =
    message_at-group cap _ ∙ gwj_top_string-print (codes "message") cap (item k v vs) r h

-- The rounds of `gwj_error_message`, without their fuel.
abbrev rounds : ℕ → Bytes → Option Bytes
rounds cap s = repeat (error_round cap) (suc (length s)) s

module _ (cap : ℕ) where
  error_member-print :
      (k : Bytes) (v : Json) (vs : Items) (r : Bytes)
      → IsJson v
      → after_member (rounds cap) b'}' (λ s. none) (print_more true vs r) ≡ error_text cap vs
      → (if leb (length k) 31
          then error_member cap (rounds cap) (c_str k) (print v (print_more true vs r))
          else none)
        ≡ error_text cap (item k v vs)
  unfolding error_member error_text
  error_member-print k v vs r h more =
      rw (message_at-print cap v (print_more true vs r) h, skip-member true v vs r h)
        (ground (arith, more))

  error_item-print :
      (k : Bytes) (v : Json) (vs : Items) (r : Bytes)
      → IsJson v
      → after_member (rounds cap) b'}' (λ s. none) (print_more true vs r) ≡ error_text cap vs
      → rounds cap (print_key true k (print v (print_more true vs r)))
        ≡ error_text cap (item k v vs)
  unfolding error_round
  error_item-print k v vs r h more =
      repeat_step length (error_round cap) _ (error_round-Shrinks cap)
      ∙ members-print 31 (λ s. none) (error_member cap (rounds cap)) k _ (print-Starts v _ h)
      ∙ error_member-print k v vs r h more

  after-print :
      (vs : Items) (r : Bytes)
      → AreJson vs
      → after_member (rounds cap) b'}' (λ s. none) (print_more true vs r) ≡ error_text cap vs
  unfolding AreJson error_text
  after-print empty r h = after-empty (rounds cap) (λ s. none) true r
  after-print (item k v vs) r (hv, hvs) =
      after-item (rounds cap) (λ s. none) true k v vs r
      ∙ error_item-print k v vs r hv (after-print vs r hvs)

  -- On the text of an object as `print` gives it, with a buffer of `cap` bytes that is not empty, `gwj_error_message`
  -- gives the first member `message` of the object that the first member `error` is, when it is a string of less than
  -- `cap` bytes. It fails when there is no such string, and also when a member up to `error` has a key of more than 31
  -- bytes, or one up to `message` a key of more than 63, or a member in front of either has a value with a value in
  -- more than 64 groups. A key counts up to a zero byte in it.
  pub gwj_error_message-print :
      (vs : Items) (r : Bytes)
      → AreJson vs
      → gwj_error_message (print (group true vs) r) cap ≡ error_text cap vs
  unfolding gwj_error_message repeat error_round at_byte print s_ws expect error_text AreJson
  gwj_error_message-print empty r h = refl
  gwj_error_message-print (item k v vs) r (hv, hvs) =
      error_item-print k v vs r hv (after-print vs r hvs)
