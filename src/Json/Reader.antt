-- ===== src/Json/Reader.antt =====
-- The reader of shared/km/json.h. The loops and the recursion are on fuel: a round of a loop and a call of
-- `value` each take one unit, and one byte at least where they go on.
use kmvirtualcamera.Prelude.{
  ℕ, zero, suc, ◌+◌, ◌-◌, ◌*◌, ◌^◌, Bool, true, false, not, ◌&&◌, ◌||◌, Option, none, some, List,
  [], ◌∷◌, ◌++◌, ltb, leb, ◌==◌, if◌then◌else◌, length, take, Bytes, ◌>>=◌, is_empty,
}
use kmvirtualcamera.Json.{
  Value, Items, Fields, same, is_digit, append_utf8, valid_utf8, null, bool, number, string, array,
  object, no_items, item, no_fields, field,
}

abbrev pub is_space : ℕ → Bool
is_space c = c == 32 || c == 13 || c == 10 || c == 9

unfoldable pub spaces : Bytes → Bytes
spaces [] = []
spaces (c ∷ r) = if is_space c then spaces r else c ∷ r

-- `take`: what is left behind the character, if it comes next.
unfoldable pub take_char : ℕ → Bytes → Option Bytes
take_char c [] = none
take_char c (x ∷ r) = if x == c then some r else none

unfoldable pub literal : Bytes → Bytes → Option Bytes
literal [] b = some b
literal (c ∷ cs) [] = none
literal (c ∷ cs) (x ∷ r) = if x == c then literal cs r else none

unfoldable pub hex_digit : ℕ → Option ℕ
hex_digit c =
    if is_digit c
    then some (c - 48)
    else if leb 97 c && leb c 102
    then some (c - 97 + 10)
    else if leb 65 c && leb c 70
    then some (c - 65 + 10)
    else none

-- The loop of `hex`.
unfoldable pub hex_digits : ℕ → ℕ → Bytes → Option (ℕ × Bytes)
hex_digits zero n b = some (n, b)
hex_digits (suc k) n [] = none
hex_digits (suc k) n (c ∷ r) = elim (hex_digit c) [
  | none ↦ none
  | some d ↦ hex_digits k (n * 16 + d) r
]

unfoldable pub hex : Bytes → Option (ℕ × Bytes)
hex b = if ltb (length b) 4 then none else hex_digits 4 0 b

-- The second half of a surrogate pair.
unfoldable pub low_surrogate : ℕ → Bytes → Option (ℕ × Bytes)
low_surrogate high b = do
  after_slash ← take_char 92 b
  after_u ← take_char 117 after_slash
  (low, rest) ← hex after_u
  (if ltb low 0xdc00 || ltb 0xdfff low
      then none
      else some (0x10000 + (high - 0xd800) * 2 ^ 10 + (low - 0xdc00), rest))

unfoldable pub code_point : Bytes → Option (ℕ × Bytes)
code_point b = do
  (cp, rest) ← hex b
  (if leb 0xd800 cp && leb cp 0xdbff
      then low_surrogate cp rest
      else if leb 0xdc00 cp && leb cp 0xdfff
      then none
      else some (cp, rest))

-- What stands behind a backslash: the bytes that it means.
unfoldable pub escape : Bytes → Option (Bytes × Bytes)
escape [] = none
escape (c ∷ r) =
    if c == 34 || c == 92 || c == 47
    then some (c ∷ [], r)
    else if c == 98
    then some (8 ∷ [], r)
    else if c == 102
    then some (12 ∷ [], r)
    else if c == 110
    then some (10 ∷ [], r)
    else if c == 114
    then some (13 ∷ [], r)
    else if c == 116
    then some (9 ∷ [], r)
    else if c == 117
    then elim (code_point r) [ none ↦ none | some (cp, rest) ↦ some (append_utf8 cp, rest) ]
    else none

abbrev pub prepend : Bytes → Option (Bytes × Bytes) → Option (Bytes × Bytes)
prepend bytes none = none
prepend bytes (some (text, rest)) = some (bytes ++ text, rest)

-- The loop of `string`, up to the closing quote: the text and what is left.
unfoldable pub characters : ℕ → Bytes → Option (Bytes × Bytes)
characters fuel [] = none
characters zero (c ∷ r) = none
characters (suc fuel) (c ∷ r) =
    let plain = prepend (c ∷ []) (characters fuel r) in
    if c == 34
    then some ([], r)
    else if ltb c 32
    then none
    else if not (c == 92)
    then plain
    else elim (escape r) [ none ↦ none | some (bytes, rest) ↦ prepend bytes (characters fuel rest) ]

unfoldable pub read_string : Bytes → Option (Bytes × Bytes)
read_string b = take_char 34 b >>= λ r. characters (length r) r

abbrev pub starts_digit : Bytes → Bool
starts_digit [] = false
starts_digit (c ∷ r) = is_digit c

unfoldable pub digits : Bytes → Bytes
digits [] = []
digits (c ∷ r) = if is_digit c then digits r else c ∷ r

-- One digit at least.
unfoldable pub some_digits : Bytes → Option Bytes
some_digits b = if starts_digit b then some (digits b) else none

abbrev pub optional : Option Bytes → Bytes → Bytes
optional none b = b
optional (some r) b = r

unfoldable pub whole_part : Bytes → Option Bytes
whole_part b = elim (take_char 48 b) [
  | none ↦ some_digits b
  | some r ↦ if starts_digit r then none else some r
]

unfoldable pub fraction_part : Bytes → Option Bytes
fraction_part b = elim (take_char 46 b) [ none ↦ some b | some r ↦ some_digits r ]

unfoldable pub sign : Bytes → Bytes
sign b = optional (take_char 43 b) (optional (take_char 45 b) b)

unfoldable pub exponent_part : Bytes → Option Bytes
exponent_part b = elim (take_char 101 b) [
  | none ↦ elim (take_char 69 b) [ none ↦ some b | some r ↦ some_digits (sign r) ]
  | some r ↦ some_digits (sign r)
]

-- A number: its text and what is left.
unfoldable pub read_number : Bytes → Option (Bytes × Bytes)
read_number b = do
  whole ← whole_part (optional (take_char 45 b) b)
  fraction ← fraction_part whole
  rest ← exponent_part fraction
  some (take (length b - length rest) b, rest)

-- What `value` answers where no array and no object begins.
unfoldable pub read_scalar : Bytes → Option (Value × Bytes)
read_scalar [] = none
read_scalar (c ∷ r) =
    if c == 34
    then elim (read_string (c ∷ r)) [ none ↦ none | some (t, rest) ↦ some (string t, rest) ]
    else if c == 110
    then elim (literal (110 ∷ 117 ∷ 108 ∷ 108 ∷ []) (c ∷ r)) [
      | none ↦ none
      | some rest ↦ some (null, rest)
    ]
    else if c == 116
    then elim (literal (116 ∷ 114 ∷ 117 ∷ 101 ∷ []) (c ∷ r)) [
      | none ↦ none
      | some rest ↦ some (bool true, rest)
    ]
    else if c == 102
    then elim (literal (102 ∷ 97 ∷ 108 ∷ 115 ∷ 101 ∷ []) (c ∷ r)) [
      | none ↦ none
      | some rest ↦ some (bool false, rest)
    ]
    else elim (read_number (c ∷ r)) [ none ↦ none | some (t, rest) ↦ some (number t, rest) ]

abbrev pub has_key : Bytes → List Bytes → Bool
has_key k [] = false
has_key k (n ∷ ns) = same n k || has_key k ns

-- A key and its colon.
unfoldable pub read_key : Bytes → Option (Bytes × Bytes)
read_key b = do
  (key, after_key) ← read_string (spaces b)
  rest ← take_char 58 (spaces after_key)
  some (key, rest)

-- `value`, with the count of values read, and the two loops in it.
unfoldable mutual
  pub read_value : ℕ → ℕ → ℕ → Bytes → Option (Value × ℕ × Bytes)
  read_value zero depth nodes b = none
  read_value (suc fuel) depth nodes b =
      if ltb 32 depth || leb 16384 nodes then none else elim (take_char 123 (spaces b)) [
        | some r ↦ elim (take_char 125 (spaces r)) [
          | some rest ↦ some (object no_fields, nodes + 1, rest)
          | none ↦ do
            (fs, n, rest) ← read_fields fuel depth (nodes + 1) [] (spaces r)
            some (object fs, n, rest)
        ]
        | none ↦ elim (take_char 91 (spaces b)) [
          | some r ↦ elim (take_char 93 (spaces r)) [
            | some rest ↦ some (array no_items, nodes + 1, rest)
            | none ↦ do
              (vs, n, rest) ← read_items fuel depth (nodes + 1) (spaces r)
              some (array vs, n, rest)
          ]
          | none ↦ do (v, rest) ← read_scalar (spaces b); some (v, nodes + 1, rest)
        ]
      ]

  pub read_items : ℕ → ℕ → ℕ → Bytes → Option (Items × ℕ × Bytes)
  read_items zero depth nodes b = none
  read_items (suc fuel) depth nodes b = do
    (v, n, r) ← read_value fuel (depth + 1) nodes b
    elim (take_char 93 (spaces r)) [
      | some rest ↦ some (item v no_items, n, rest)
      | none ↦ do
        r' ← take_char 44 (spaces r)
        (vs, m, rest) ← read_items fuel depth n r'
        some (item v vs, m, rest)
    ]

  -- The keys are those of the object read before.
  pub read_fields : ℕ → ℕ → ℕ → List Bytes → Bytes → Option (Fields × ℕ × Bytes)
  read_fields zero depth nodes keys b = none
  read_fields (suc fuel) depth nodes keys b = do
    (key, after_key) ← read_key b
    (v, n, r) ← read_value fuel (depth + 1) nodes after_key
    (if has_key key keys then none else elim (take_char 125 (spaces r)) [
      | some rest ↦ some (field key v no_fields, n, rest)
      | none ↦ do
        r' ← take_char 44 (spaces r)
        (fs, m, rest) ← read_fields fuel depth n (key ∷ keys) r'
        some (field key v fs, m, rest)
    ])

-- `parse`.
unfoldable pub parse : Bytes → Option Value
parse b = if ltb (2 ^ 20) (length b) || not (valid_utf8 b) then none else (do
  (v, n, rest) ← read_value (2 * length b + 2) 0 0 b
  (if is_empty (spaces rest) then some v else none))
