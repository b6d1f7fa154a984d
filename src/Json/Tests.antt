-- ===== src/Json/Tests.antt =====
-- Runs of shared/km/json.h, and the theorems at concrete texts.
use kmvirtualcamera.Prelude.{◌≤◌, ◌≡◌, refl, true, none, some, [], ◌∷◌, arith, Bytes, ◌>>=◌}
use kmvirtualcamera.Json.{
  Value, number, string, array, object, bool, no_items, item, no_fields, field, quoted, quote,
  valid_utf8, valid_from, character, continued, scalar,
}
use kmvirtualcamera.Json.Reader.{
  parse, read_value, spaces, take_char, read_scalar, read_string, characters, read_key, literal,
  read_number, whole_part, some_digits, digits, fraction_part, exponent_part, read_items,
  read_fields,
}
use kmvirtualcamera.Json.Quote.{parse-quote}
use kmvirtualcamera.Json.Bounded.{depth, size, distinct, parse_sound}

-- { "a":[1,true]}
abbrev text : Bytes
text = 123 ∷ 32 ∷ 34 ∷ 97 ∷ 34 ∷ 58 ∷ 91 ∷ 49 ∷ 44 ∷ 116 ∷ 114 ∷ 117 ∷ 101 ∷ 93 ∷ 125 ∷ []

abbrev value : Value
value =
    object (field (97 ∷ []) (array (item (number (49 ∷ [])) (item (bool true) no_items))) no_fields)

text-parses : parse text ≡ some value
unfolding parse valid_utf8 valid_from character spaces take_char read_value read_items read_fields
    read_key read_scalar read_string characters literal read_number whole_part some_digits digits
    fraction_part exponent_part
text-parses = refl

-- {"a":1,"a":1}
repeated_key : parse (123 ∷ 34 ∷ 97 ∷ 34 ∷ 58 ∷ 49 ∷ 44 ∷ 34 ∷ 97 ∷ 34 ∷ 58 ∷ 49 ∷ 125 ∷ []) ≡ none
unfolding parse valid_utf8 valid_from character spaces take_char read_value read_items read_fields
    read_key read_scalar read_string characters literal read_number whole_part some_digits digits
    fraction_part exponent_part
repeated_key = refl

parse_sound_example : (depth value ≤ 32) × (size value ≤ 16384) × (distinct value ≡ true)
parse_sound_example = parse_sound text value text-parses

-- A quote, a line feed and an e with an accent.
abbrev words : Bytes
words = 34 ∷ 10 ∷ 195 ∷ 169 ∷ []

words-valid : valid_utf8 words ≡ true
unfolding valid_utf8 valid_from character continued scalar
words-valid = refl

parse-quote_example : (quote words >>= parse) ≡ some (string words)
unfolding quoted
parse-quote_example = parse-quote words words-valid (omega arith)
