-- ===== src/Tests/Text.antt =====
-- The text checks on sample texts (src/validate.c).
use axioma_oracle.Prelude.{
  ltb, ◌==◌, ℕ, ◌≡◌, ◌≤◌, ◌⊎◌, ◌↔◌, refl, true, false, [], ◌∷◌, arith, Bytes, codes, length, List,
  if◌then◌else◌,
}
use axioma_oracle.Types.{Code, done, fail, l3_fault_init}
use axioma_oracle.Validate.{validate_utf8, is_nfc, normalise_line_endings, validate_and_normalise}
use axioma_oracle.Validate.Utf8.{IsUtf8, encode, encode_all, validate_utf8_iff}
use axioma_oracle.Validate.Nfc.{no_combining, is_nfc_lem}
use axioma_oracle.Validate.Normalise.{unify, normalise_lem}
use axioma_oracle.Validate.Text.{IsStored, validate_and_normalise_done, validate_and_normalise_fail}
use axioma_oracle.Tests.Data.{machine}

-- "e", U+20AC and U+1F600
abbrev euro : Bytes
euro = 101 ∷ 0xE2 ∷ 0x82 ∷ 0xAC ∷ 0xF0 ∷ 0x9F ∷ 0x98 ∷ 0x80 ∷ []

validate_utf8_iff_example : (validate_utf8 euro ≡ true) ↔ IsUtf8 euro
validate_utf8_iff_example = validate_utf8_iff euro (omega arith)

-- "e" with the combining acute accent
abbrev accent : List ℕ
accent = 101 ∷ 0x301 ∷ []

accent_found : is_nfc (encode_all accent) ≡ false
unfolding is_nfc encode_all encode machine
accent_found = refl

is_nfc_lem_example : is_nfc (encode_all accent) ≡ no_combining accent
is_nfc_lem_example = is_nfc_lem accent (omega arith)

abbrev crlf : Bytes
crlf = codes "a\r\nb\r"

normalise_lem_example : normalise_line_endings 8 crlf ≡ (
    if 8 == 0
    then fail Code.overrun
    else if ltb (length (unify false crlf)) 8
    then done (unify false crlf)
    else fail Code.buffer)
normalise_lem_example = normalise_lem 8 crlf

validate_and_normalise_done_example :
    IsUtf8 crlf
    × (codes "a\nb\n" ≡ unify false crlf)
    × (length (codes "a\nb\n") ≤ length crlf)
    × IsStored (codes "a\nb\n")
    × ((validate_and_normalise 8 crlf l3_fault_init).1 ≡ l3_fault_init)
unfolding machine
validate_and_normalise_done_example =
    validate_and_normalise_done 8 crlf l3_fault_init (omega arith) refl

validate_and_normalise_fail_example :
    ((Code.encoding ≡ Code.encoding)
      × ((validate_and_normalise 8 (7 ∷ []) l3_fault_init).1
          ≡ record l3_fault_init { encoding = true }))
    ⊎ ((Code.encoding ≡ Code.buffer)
        × ((validate_and_normalise 8 (7 ∷ []) l3_fault_init).1
            ≡ record l3_fault_init { size = true }))
    ⊎ ((Code.encoding ≡ Code.overrun)
        × (◌≡◌ {A = ℕ} 8 0)
        × ((validate_and_normalise 8 (7 ∷ []) l3_fault_init).1
            ≡ record l3_fault_init { size = true }))
unfolding machine
validate_and_normalise_fail_example = validate_and_normalise_fail 8 (7 ∷ []) l3_fault_init refl
