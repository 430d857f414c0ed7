-- ===== src/Gateway/Json/Printed.antt =====
-- JSON values and their text, for the scanners of gateway/src/gw_json.c.
use axioma_oracle.Prelude.{ℕ, suc, max, ◌≡◌, Bool, true, false, [], ◌∷◌, ◌++◌, Bytes, All}
use axioma_oracle.Gateway.Json.Value.{is_token}
use axioma_oracle.Gateway.Json.WellFormed.{escape_all}

-- A value: a string, a number or a word, an array or an object. A key counts in an object only.
mutual
  pub data Json : Type 0 where
    text : Bytes → Json
    word : ℕ → Bytes → Json
    group : Bool → Items → Json

  pub data Items : Type 0 where
    empty : Items
    item : Bytes → Json → Items → Items

abbrev pub opening : Bool → ℕ
opening true = b'{'
opening false = b'['

abbrev pub closing : Bool → ℕ
closing true = b'}'
closing false = b']'

-- The text of a string, in front of `r`.
abbrev pub quoted : Bytes → Bytes → Bytes
quoted s r = b'"' ∷ escape_all s ++ b'"' ∷ r

unfoldable pub print_key : Bool → Bytes → Bytes → Bytes
print_key true k r = quoted k (b':' ∷ r)
print_key false k r = r

-- The text of a value in front of `r`; `print_more` is what follows an item.
unfoldable mutual
  pub print : Json → Bytes → Bytes
  print (text s) r = quoted s r
  print (word c w) r = c ∷ w ++ r
  print (group object empty) r = opening object ∷ closing object ∷ r
  print (group object (item k v vs)) r =
      opening object ∷ print_key object k (print v (print_more object vs r))

  pub print_more : Bool → Items → Bytes → Bytes
  print_more object empty r = closing object ∷ r
  print_more object (item k v vs) r = b',' ∷ print_key object k (print v (print_more object vs r))

-- In how many groups the innermost value lies, the value itself in none.
unfoldable mutual
  pub nesting : Json → ℕ
  nesting (text s) = 0
  nesting (word c w) = 0
  nesting (group object vs) = nest_items vs

  pub nest_items : Items → ℕ
  nest_items empty = 0
  nest_items (item k v vs) = max (suc (nesting v)) (nest_items vs)

abbrev pub IsToken : ℕ → Type 0
IsToken c = is_token c ≡ true

-- A word has bytes of words only.
unfoldable mutual
  pub IsJson : Json → Type 0
  IsJson (text s) = Unit
  IsJson (word c w) = IsToken c × All IsToken w
  IsJson (group object vs) = AreJson vs

  pub AreJson : Items → Type 0
  AreJson empty = Unit
  AreJson (item k v vs) = IsJson v × AreJson vs

-- No byte of a word comes next.
abbrev pub Stops : Bytes → Type 0
Stops [] = Unit
Stops (c ∷ r) = is_token c ≡ false
