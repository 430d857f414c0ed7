-- ===== src/Tests/Json.antt =====
-- The JSON scanner on sample texts (gateway/src/gw_json.c).
use axioma_oracle.Prelude.{
  ◌≡◌, refl, true, false, [], ◌∷◌, ◌++◌, some, none, arith, Bytes, codes, c_str, same,
  if◌then◌else◌,
}
use axioma_oracle.Types.{room}
use axioma_oracle.Validate.{validate_utf8}
use axioma_oracle.Gateway.Json.Escape.{escaped_byte, escape_loop, gwj_escape, gwj_escape_utf8}
use axioma_oracle.Gateway.Json.WellFormed.{escape_all, gwj_escape_utf8_lem}
use axioma_oracle.Gateway.Json.Text.{
  s_decode_string, s_skip_string, decode_rest, put, put_utf8, utf8_bytes, s_read_u4, add_digit,
  hexval, surrogate_pair,
}
use axioma_oracle.Gateway.Json.RoundTrip.{s_decode_string-gwj_escape}
use axioma_oracle.Gateway.Json.Strings.{s_decode_string-s_skip_string}
use axioma_oracle.Gateway.Json.Value.{s_skip_value, is_token}
use axioma_oracle.Gateway.Json.Printed.{
  Json, text, word, group, Items, empty, item, print, nesting, IsJson, AreJson, Stops,
}
use axioma_oracle.Gateway.Json.Skipped.{s_skip_value-print}
use axioma_oracle.Gateway.Json.Body.{gwj_top_string, gwj_error_message}
use axioma_oracle.Gateway.Json.Lookup.{lookup, gwj_top_string-print}
use axioma_oracle.Gateway.Json.Message.{error_text, gwj_error_message-print}
use axioma_oracle.Gateway.Json.Content.{gwj_content_text}
use axioma_oracle.Gateway.Json.Content.Blocks.{
  block_of, block_member, set_type, set_text, append_block,
}
use axioma_oracle.Gateway.Json.Content.Texts.{
  append_element, append_elements, append_content, body_text, gwj_content_text-print,
}

-- A quote, a line feed, U+0001 and U+20AC
abbrev sample : Bytes
sample = b'"' ∷ 10 ∷ 1 ∷ 0xE2 ∷ 0x82 ∷ 0xAC ∷ []

gwj_escape_utf8_lem_example :
    gwj_escape_utf8 40 (some sample) 6
    ≡ (if validate_utf8 sample then some (escape_all sample) else none)
gwj_escape_utf8_lem_example = gwj_escape_utf8_lem 40 sample (omega arith) (omega arith)

sample_escaped : gwj_escape 40 sample ≡ some (escape_all sample)
unfolding gwj_escape escape_loop escape_all escaped_byte
sample_escaped = refl

s_decode_string-gwj_escape_example :
    s_decode_string 6 [] (b'"' ∷ escape_all sample ++ b'"' ∷ codes ",1") ≡ some (sample, codes ",1")
s_decode_string-gwj_escape_example =
    s_decode_string-gwj_escape 40 6 sample (escape_all sample) (codes ",1") sample_escaped

-- A surrogate pair, in front of a colon
abbrev pair_text : Bytes
pair_text = codes "\"\\ud83d\\ude00\":"

pair_decoded : s_decode_string 4 [] pair_text ≡ some (0xF0 ∷ 0x9F ∷ 0x98 ∷ 0x80 ∷ [], codes ":")
unfolding s_decode_string decode_rest put put_utf8 utf8_bytes s_read_u4 add_digit hexval
    surrogate_pair
pair_decoded = refl

s_decode_string-s_skip_string_example : s_skip_string pair_text ≡ some (codes ":")
s_decode_string-s_skip_string_example =
    s_decode_string-s_skip_string 4 [] pair_text (0xF0 ∷ 0x9F ∷ 0x98 ∷ 0x80 ∷ []) (codes ":")
      pair_decoded

-- {"stop_reason":"max_tokens"} behind a list, and an error with a message
abbrev number : Json
number = word b'1' (codes "2e3")

abbrev members : Items
members =
    item (codes "content") (group false (item [] number (item [] (text sample) empty)))
      (item (codes "stop_reason") (text (codes "max_tokens")) empty)

abbrev failure : Items
failure =
    item (codes "type") (text (codes "error"))
      (item (codes "error") (group true (item (codes "message") (text (codes "busy")) empty)) empty)

members-AreJson : AreJson members
unfolding IsJson is_token
members-AreJson = (((refl, (refl, (refl, (refl, tt)))), (tt, tt)), (tt, tt))

failure-AreJson : AreJson failure
unfolding IsJson
failure-AreJson = (tt, ((tt, tt), tt))

comma-Stops : Stops (codes ",")
unfolding is_token
comma-Stops = refl

s_skip_value-print_example :
    s_skip_value 0 (print (group true members) (codes ",")) ≡ some (codes ",")
unfolding nesting IsJson
s_skip_value-print_example =
    s_skip_value-print 0 (group true members) (codes ",") members-AreJson comma-Stops

gwj_top_string-print_example :
    gwj_top_string (print (group true members) []) (codes "stop_reason") 64
    ≡ some (codes "max_tokens")
unfolding lookup room same c_str nesting
gwj_top_string-print_example =
    gwj_top_string-print (codes "stop_reason") 64 members [] members-AreJson

gwj_error_message-print_example :
    gwj_error_message (print (group true failure) []) 400 ≡ some (codes "busy")
unfolding error_text lookup room same c_str nesting
gwj_error_message-print_example = gwj_error_message-print 400 failure [] failure-AreJson

-- Two texts around a block of another type
abbrev block : Bytes → Json
block s =
    group true (item (codes "type") (text (codes "text")) (item (codes "text") (text s) empty))

abbrev image : Json
image = group true (item (codes "type") (text (codes "image")) empty)

abbrev answer : Items
answer = item (codes "id") number (
    item (codes "content")
      (group false
        (item [] (block (codes "Hi")) (item [] image (item [] (block (codes "!")) empty))))
      empty)

answer-AreJson : AreJson answer
unfolding IsJson is_token
answer-AreJson =
    ((refl, (refl, (refl, (refl, tt)))), (((tt, (tt, tt)), ((tt, tt), ((tt, (tt, tt)), tt))), tt))

gwj_content_text-print_example :
    gwj_content_text (print (group true answer) []) 3 ≡ some (codes "Hi!")
unfolding body_text append_content append_elements append_element block_of block_member set_type
    set_text append_block same c_str nesting
gwj_content_text-print_example = gwj_content_text-print 3 answer [] answer-AreJson
