-- ===== src/Json.antt =====
-- shared/km/json.h: the bounded reader of the signalling messages, and the quoting of strings. A text is
-- the list of its bytes, a position in it is what is left from there on, and a throw is `none`.
-- Json/Reader is the second half of the model.
pub mod Reader
pub mod Quote
mod Progress
pub mod Bounded
pub mod Fuel
pub mod Unicode
mod Tests
use kmvirtualcamera.Prelude.{
  ℕ, zero, suc, ◌+◌, ◌-◌, ◌*◌, ◌/◌, ◌%◌, ◌^◌, Bool, true, false, not, ◌&&◌, ◌||◌, Option, none,
  some, List, [], ◌∷◌, ◌++◌, ltb, leb, ◌==◌, if◌then◌else◌, length, take, drop, Bytes, ◌>>=◌,
  is_empty,
}

-- `Value`: the text of a number and of a string, the items of an array, and the fields of an object, in
-- the order in which they are read. `Items` and `Fields` are the lists inside them.
mutual
  pub data Value : Type 0 where
    null : Value
    bool : Bool → Value
    number : Bytes → Value
    string : Bytes → Value
    array : Items → Value
    object : Fields → Value

  pub data Items : Type 0 where
    no_items : Items
    item : Value → Items → Items

  pub data Fields : Type 0 where
    no_fields : Fields
    field : Bytes → Value → Fields → Fields

abbrev pub same : Bytes → Bytes → Bool
same [] [] = true
same [] (y ∷ ys) = false
same (x ∷ xs) [] = false
same (x ∷ xs) (y ∷ ys) = x == y && same xs ys

unfoldable pub lookup : Bytes → Fields → Option Value
lookup name no_fields = none
lookup name (field k v fs) = if same k name then some v else lookup name fs

-- `at` and `find`: the first throws where the second has no answer.
unfoldable pub at : Bytes → Value → Option Value
at name (object fs) = lookup name fs
at name null = none
at name (bool b) = none
at name (number t) = none
at name (string t) = none
at name (array vs) = none

unfoldable pub string_of : Value → Option Bytes
string_of (string t) = some t
string_of null = none
string_of (bool b) = none
string_of (number t) = none
string_of (array vs) = none
string_of (object fs) = none

abbrev pub is_digit : ℕ → Bool
is_digit c = leb 48 c && leb c 57

-- The value of a text of digits.
unfoldable pub decimal : ℕ → Bytes → Option ℕ
decimal n [] = some n
decimal n (c ∷ r) = if is_digit c then decimal (n * 10 + (c - 48)) r else none

-- `uint32`: the whole text is digits, and the number fits.
unfoldable pub uint32 : Value → Option ℕ
uint32 (number t) =
    if is_empty t
    then none
    else elim (decimal 0 t) [ none ↦ none | some n ↦ if ltb n (2 ^ 32) then some n else none ]
uint32 null = none
uint32 (bool b) = none
uint32 (string t) = none
uint32 (array vs) = none
uint32 (object fs) = none

-- The bytes that `appendUtf8` appends.
unfoldable pub append_utf8 : ℕ → Bytes
append_utf8 c =
    if leb c 127
    then c ∷ []
    else if leb c 2047
    then (192 + c / 2 ^ 6) ∷ (128 + c % 64) ∷ []
    else if leb c 65535
    then (224 + c / 2 ^ 12) ∷ (128 + c / 2 ^ 6 % 64) ∷ (128 + c % 64) ∷ []
    else (240 + c / 2 ^ 18) ∷ (128 + c / 2 ^ 12 % 64) ∷ (128 + c / 2 ^ 6 % 64) ∷ (128 + c % 64) ∷ []

-- The bytes that continue a character, and the code point.
unfoldable pub continued : ℕ → ℕ → Bytes → Option (ℕ × Bytes)
continued zero c b = some (c, b)
continued (suc n) c [] = none
continued (suc n) c (x ∷ r) =
    let more = continued n (c * 64 + x % 64) r in if x / 64 == 2 then more else none

-- The code point of a character of more than one byte is in its range.
unfoldable pub scalar : ℕ → Option (ℕ × Bytes) → Option Bytes
scalar minimum none = none
scalar minimum (some (c, r)) =
    if ltb c minimum || ltb 0x10ffff c || (leb 0xd800 c && leb c 0xdfff) then none else some r

-- One character at the front of a text: what is left behind it.
unfoldable pub character : ℕ → Bytes → Option Bytes
character c r =
    if ltb c 128
    then some r
    else if leb 194 c && leb c 223
    then scalar 128 (continued 1 (c % 32) r)
    else if leb 224 c && leb c 239
    then scalar 2048 (continued 2 (c % 16) r)
    else if leb 240 c && leb c 244
    then scalar 65536 (continued 3 (c % 8) r)
    else none

unfoldable pub valid_from : ℕ → Bytes → Bool
valid_from fuel [] = true
valid_from zero (c ∷ r) = false
valid_from (suc fuel) (c ∷ r) = elim (character c r) [
  | none ↦ false
  | some rest ↦ valid_from fuel rest
]

unfoldable pub valid_utf8 : Bytes → Bool
valid_utf8 b = valid_from (length b) b

abbrev pub hex_character : ℕ → ℕ
hex_character d = if ltb d 10 then 48 + d else 87 + d

unfoldable pub quoted : Bytes → Bytes
quoted [] = []
quoted (c ∷ r) =
    if c == 34 || c == 92
    then 92 ∷ c ∷ quoted r
    else if ltb c 32
    then 92 ∷ 117 ∷ 48 ∷ 48 ∷ hex_character (c / 16) ∷ hex_character (c % 16) ∷ quoted r
    else c ∷ quoted r

-- `quote`.
unfoldable pub quote : Bytes → Option Bytes
quote s = if valid_utf8 s then some (34 ∷ (quoted s ++ 34 ∷ [])) else none
