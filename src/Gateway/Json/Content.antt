-- ===== src/Gateway/Json/Content.antt =====
-- gateway/src/gw_json.c: `gwj_content_text`. `none` is -1, `dst` is `dst[0..o)`.
pub mod Loops
pub mod Blocks
pub mod Texts
use axioma_oracle.Prelude.{
  ◌>>=◌, ℕ, suc, Bool, true, false, ◌&&◌, ◌||◌, [], ◌∷◌, Option, none, some, Bytes, codes, length,
  c_str, same, if◌then◌else◌,
}
use axioma_oracle.Gateway.Json.Text.{s_ws, s_decode_string, s_skip_string}
use axioma_oracle.Gateway.Json.Value.{expect, s_skip_value}
use axioma_oracle.Gateway.Json.Body.{repeat, at_byte, after_member, read_key}

-- What is known of an element; `text_at` is the text from the opening quote on.
pub record Element : Type 0 where
  pub is_text : Bool
  pub text_at : Option Bytes

abbrev pub new_element : Element
new_element = record { is_text = false; text_at = none }

-- The value behind a key. (That a string comes next, the scanners of strings test again.)

unfoldable pub type_value : Element → Bytes → Option (Element × Bytes)
type_value e s = do
  (tv, s') ← s_decode_string 15 [] s
  some (if same (c_str tv) (codes "text") then record e { is_text = true } else e, s')

unfoldable pub text_value : Element → Bytes → Option (Element × Bytes)
text_value e s = do s' ← s_skip_string s; some (record e { text_at = some s }, s')

unfoldable pub other_value : {S : Type 0} → S → Bytes → Option (S × Bytes)
other_value e s = do s' ← s_skip_value 0 s; some (e, s')

unfoldable pub element_value : Bytes → Element → Bytes → Option (Element × Bytes)
unfolding type_value text_value other_value
element_value ek e s =
    if same ek (codes "type")
    then type_value e s
    else if same ek (codes "text")
    then text_value e s
    else other_value e s

-- The loop over the members of an element, from behind its `{`.
unfoldable pub element_round :
    (Element × Bytes → Option (Element × Bytes)) → Element × Bytes → Option (Element × Bytes)
unfolding at_byte after_member read_key element_value
element_round more (e, s) =
    at_byte b'}' (λ s'. some (e, s'))
      (λ s'. do
        (ek, s2) ← read_key 31 s'
        (e', s3) ← element_value ek e s2
        after_member (λ s4. more (e', s4)) b'}' (λ s4. some (e', s4)) s3)
      (s_ws s)

unfoldable pub decode_at : ℕ → Bytes → Option Bytes → Option Bytes
decode_at cap dst none = some dst
decode_at cap dst (some s) = do (dst', s') ← s_decode_string cap dst s; some dst'

-- `if (is_text && text_at != NULL)`.
unfoldable pub append_text : ℕ → Bytes → Element → Option Bytes
unfolding decode_at
append_text cap dst e =
    let text' = decode_at cap dst e.text_at in if e.is_text then text' else some dst

-- The loop over the elements.
unfoldable pub elements_round :
    ℕ → (Bytes × Bytes → Option (Bytes × Bytes)) → Bytes × Bytes → Option (Bytes × Bytes)
unfolding expect repeat element_round append_text after_member
elements_round cap more (dst, s) = do
  s1 ← expect b'{' (s_ws s)
  (e, s2) ← repeat element_round (suc (length s1)) (new_element, s1)
  dst' ← append_text cap dst e
  after_member (λ s3. more (dst', s3)) b']' (λ s3. some (dst', s3)) s2

-- The value of `content`.
unfoldable pub content_value : ℕ → Bytes → Bytes → Option (Bytes × Bytes)
unfolding expect at_byte repeat elements_round
content_value cap dst s = do
  s1 ← expect b'[' s
  at_byte b']' (λ s2. some (dst, s2))
      (λ s2. repeat (elements_round cap) (suc (length s2)) (dst, s2)) (s_ws s1)

-- What the outer loop has found: whether `content` was a key, and `dst`.
abbrev pub Found : Type 0
Found = Bool × Bytes

unfoldable pub body_value : ℕ → Bytes → Found → Bytes → Option (Found × Bytes)
unfolding content_value other_value
body_value cap k (found, dst) s =
    let content = content_value cap dst s >>= λ r. some ((true, r.0), r.1) in
    if same k (codes "content") then content else other_value (found, dst) s

unfoldable pub body_round : ℕ → (Found × Bytes → Option Found) → Found × Bytes → Option Found
unfolding at_byte read_key body_value after_member
body_round cap more (f, s) =
    at_byte b'}' (λ s'. some f)
      (λ s'. do
        (k, s2) ← read_key 63 s'
        (f', s3) ← body_value cap k f s2
        after_member (λ s4. more (f', s4)) b'}' (λ s4. some f') s3)
      (s_ws s)

-- `body` is `body[0..body_len)`; the result is `dst[0..*out_len)`.
unfoldable pub gwj_content_text : Bytes → ℕ → Option Bytes
unfolding expect repeat body_round
gwj_content_text body cap = do
  s ← expect b'{' (s_ws body)
  (found, dst) ← repeat (body_round cap) (suc (length s)) ((false, []), s)
  if found then some dst else none
