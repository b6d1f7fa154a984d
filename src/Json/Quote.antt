-- ===== src/Json/Quote.antt =====
-- `quote` of shared/km/json.h, and what its reader makes of the text.
use kmvirtualcamera.Prelude.{
  ℕ, zero, suc, ◌+◌, ◌*◌, ◌/◌, ◌%◌, ◌^◌, ◌≤◌, ◌<◌, ◌≡◌, refl, ap, ap₂, ◌∙◌, true, false, ◌&&◌, ◌||◌,
  none, some, [], ◌∷◌, ◌++◌, arith, ltb, leb, ◌==◌, length, Bytes, Bool-cases, Option-cases,
  length-append, inl, inr, ◌>>=◌,
}
use kmvirtualcamera.Json.{
  string, append_utf8, continued, scalar, character, valid_from, valid_utf8, hex_character, quoted,
  quote,
}
use kmvirtualcamera.Json.Reader.{
  spaces, take_char, hex_digit, hex_digits, hex, code_point, escape, characters, read_string,
  read_scalar, read_value, parse,
}

quoted-high : (c : ℕ) (r : Bytes) → 128 ≤ c → quoted (c ∷ r) ≡ c ∷ quoted r
unfolding quoted
quoted-high c r h = ground arith

continued-quoted :
    (n c cp : ℕ) (r rest t : Bytes)
    → continued n c r ≡ some (cp, rest)
    → (continued n c (quoted r ++ t) ≡ some (cp, quoted rest ++ t))
      × (length (quoted rest ++ t) ≤ length (quoted r ++ t))
unfolding continued
continued-quoted zero c cp r rest t e =
    let p : c ≡ cp = cc in
    let q : r ≡ rest = cc in (ap₂ (λ x y. some (x, quoted y ++ t)) p q, rw q (omega arith))
continued-quoted (suc n) c cp [] rest t e = cc
continued-quoted (suc n) c cp (x ∷ r) rest t e = elim (Bool-cases (x / 64 == 2)) [
  | inl u ↦
      let (k, l) = continued-quoted n (c * 64 + x % 64) cp r rest t (rw (u, continued) at e) in
      rw (quoted-high x r (ground (arith, u)), u) (k, omega (arith, l))
  | inr u ↦ cc
]

hex_character-digit : (d : ℕ) → d < 16 → hex_digit (hex_character d) ≡ some d
unfolding hex_digit
hex_character-digit d h = ground arith

hex_digits-step :
    (k n c d : ℕ) (r : Bytes)
    → hex_digit c ≡ some d
    → hex_digits (suc k) n (c ∷ r) ≡ hex_digits k (n * 16 + d) r
unfolding hex_digits
hex_digits-step k n c d r h =
    ap (λ o. elim o [ none ↦ none | some e ↦ hex_digits k (n * 16 + e) r ]) h

hex_digits-done : (n : ℕ) (r : Bytes) → hex_digits 0 n r ≡ some (n, r)
unfolding hex_digits
hex_digits-done n r = refl

hex-control :
    (c : ℕ) (r : Bytes)
    → c < 32
    → hex (48 ∷ 48 ∷ hex_character (c / 16) ∷ hex_character (c % 16) ∷ r) ≡ some (c, r)
unfolding hex
hex-control c r h =
    let l : ltb (suc (suc (suc (suc (length r))))) 4 ≡ false = ground arith in
    let a = hex_character (c / 16) in
    let b = hex_character (c % 16) in
    let z = hex_character-digit 0 (omega arith) in
    let e : ((((0 * 16 + 0) * 16 + 0) * 16 + c / 16) * 16 + c % 16) ≡ c = omega arith in
    let steps : hex_digits 4 0 (48 ∷ 48 ∷ a ∷ b ∷ r) ≡ some (c, r) =
      hex_digits-step 3 0 48 0 (48 ∷ a ∷ b ∷ r) z
      ∙ hex_digits-step 2 (0 * 16 + 0) 48 0 (a ∷ b ∷ r) z
      ∙ hex_digits-step 1 ((0 * 16 + 0) * 16 + 0) a (c / 16) (b ∷ r)
          (hex_character-digit (c / 16) (omega (arith, h)))
      ∙ hex_digits-step 0 (((0 * 16 + 0) * 16 + 0) * 16 + c / 16) b (c % 16) r
          (hex_character-digit (c % 16) (omega arith))
      ∙ hex_digits-done _ r
      ∙ ap (λ n. some (n, r)) e in
    rw l steps

control-escape :
    (c : ℕ) (r : Bytes)
    → c < 32
    → escape (117 ∷ 48 ∷ 48 ∷ hex_character (c / 16) ∷ hex_character (c % 16) ∷ r)
      ≡ some (c ∷ [], r)
unfolding escape code_point append_utf8
control-escape c r h =
    let t : leb 0xd800 c ≡ false = ground (arith, h) in
    let u : leb 0xdc00 c ≡ false = ground (arith, h) in
    let v : leb c 127 ≡ true = ground (arith, h) in rw (hex-control c r h, t, u, v) refl

quoted_grow : (c : ℕ) (s : Bytes) → length (quoted s) < length (quoted (c ∷ s))
unfolding quoted
quoted_grow c s = elim (Bool-cases (c == 34 || c == 92)) [
  | inl u ↦ rw u (omega arith)
  | inr u ↦ elim (Bool-cases (ltb c 32)) [
    | inl v ↦ rw (u, v) (omega arith)
    | inr v ↦ rw (u, v) (omega arith)
  ]
]

escape_self : (c : ℕ) (r : Bytes) → (c == 34 || c == 92) ≡ true → escape (c ∷ r) ≡ some (c ∷ [], r)
unfolding escape
escape_self c r h = ground (arith, h)

characters-quoted :
    (s t : Bytes) (fuel : ℕ)
    → length (quoted s) < fuel
    → characters fuel (quoted s ++ 34 ∷ t) ≡ some (s, t)
unfolding quoted characters
characters-quoted [] t zero h = absurd (omega arith)
characters-quoted [] t (suc fuel) h = refl
characters-quoted (c ∷ s) t zero h = absurd (omega arith)
characters-quoted (c ∷ s) t (suc fuel) h = elim (Bool-cases (c == 34 || c == 92)) [
  | inl u ↦
      rw
        (
          u,
          characters,
          escape_self c (quoted s ++ 34 ∷ t) u,
          characters-quoted s t fuel (omega (arith, h, quoted_grow c s)),
        )
        refl
  | inr u ↦ elim (Bool-cases (ltb c 32)) [
    | inl v ↦
        rw
          (
            u,
            v,
            characters,
            control-escape c (quoted s ++ 34 ∷ t) (ground (arith, v)),
            characters-quoted s t fuel (omega (arith, h, quoted_grow c s)),
          )
          refl
    | inr v ↦
        let p : (c == 34) ≡ false = ground (arith, u) in
        let q : (c == 92) ≡ false = ground (arith, u) in
        rw
          (
            u,
            v,
            characters,
            characters-quoted s t fuel (omega (arith, h, quoted_grow c s)),
            p,
            v,
            q,
          )
          refl
  ]
]

character-low : (c : ℕ) (r : Bytes) → c < 128 → character c r ≡ some r
unfolding character
character-low c r h = let t : ltb c 128 ≡ true = ground arith in rw t refl

scalar-quoted :
    (n minimum c : ℕ) (r rest t : Bytes)
    → scalar minimum (continued n c r) ≡ some rest
    → (scalar minimum (continued n c (quoted r ++ t)) ≡ some (quoted rest ++ t))
      × (length (quoted rest ++ t) ≤ length (quoted r ++ t))
unfolding scalar
scalar-quoted n minimum c r rest t e = elim (Option-cases (continued n c r)) [
  | inl f ↦ let g = rw (f, scalar) at e in cc
  | inr ((cp, x), f) ↦
      let (k, l) = continued-quoted n c cp r x t f in
      elim (Bool-cases (ltb cp minimum || ltb 0x10ffff cp || (leb 0xd800 cp && leb cp 0xdfff))) [
        | inl u ↦ let g = rw (f, scalar, u) at e in cc
        | inr u ↦
            let e' = rw (f, scalar, u) at e in
            let g : x ≡ rest = cc in
            (rw (k, scalar, u) (ap (λ y. some (quoted y ++ t)) g), rw (← g) l)
      ]
]

-- A character of more than one byte is quoted as it is.
character-quoted :
    (c : ℕ) (r rest t : Bytes)
    → 128 ≤ c
    → character c r ≡ some rest
    → (character c (quoted r ++ t) ≡ some (quoted rest ++ t))
      × (length (quoted rest ++ t) ≤ length (quoted r ++ t))
unfolding character
character-quoted c r rest t h e =
    let low : ltb c 128 ≡ false = ground (arith, h) in
    elim (Bool-cases (leb 194 c && leb c 223)) [
      | inl u ↦
          let (k, l) = scalar-quoted 1 128 (c % 32) r rest t (rw (low, u, character) at e) in
          (rw (low, u, character) k, l)
      | inr u ↦ elim (Bool-cases (leb 224 c && leb c 239)) [
        | inl v ↦
            let (k, l) = scalar-quoted 2 2048 (c % 16) r rest t (rw (low, u, v, character) at e) in
            (rw (low, u, v, character) k, l)
        | inr v ↦ elim (Bool-cases (leb 240 c && leb c 244)) [
          | inl w ↦
              let (k, l) =
                scalar-quoted 3 65536 (c % 8) r rest t (rw (low, u, v, w, character) at e) in
              (rw (low, u, v, w, character) k, l)
          | inr w ↦ let g = rw (low, u, v, w, character) at e in cc
        ]
      ]
    ]

-- A valid text, by any fuel that is enough.
abbrev IsText : Bytes → Type 0
IsText b = (n : ℕ) → length b ≤ n → valid_from n b ≡ true

IsText-character :
    (c : ℕ) (r rest : Bytes)
    → character c r ≡ some rest
    → length rest ≤ length r
    → IsText rest
    → IsText (c ∷ r)
unfolding valid_from
IsText-character c r rest e l v zero h = absurd (omega arith)
IsText-character c r rest e l v (suc n) h = rw (valid_from, e) (v n (omega (arith, h, l)))

IsText-low : (c : ℕ) (r : Bytes) → c < 128 → IsText r → IsText (c ∷ r)
IsText-low c r h v = IsText-character c r r (character-low c r h) (omega arith) v

hex_character-low : (d : ℕ) → d < 16 → hex_character d < 128
hex_character-low d h = ground (arith, h)

low-quoted : (c : ℕ) (s t : Bytes) → c < 128 → IsText (quoted s ++ t) → IsText (quoted (c ∷ s) ++ t)
unfolding quoted
low-quoted c s t h v = elim (Bool-cases (c == 34 || c == 92)) [
  | inl u ↦ rw u (IsText-low 92 _ (omega arith) (IsText-low c _ h v))
  | inr u ↦ elim (Bool-cases (ltb c 32)) [
    | inl w ↦
        let x = hex_character-low (c / 16) (omega (arith, h)) in
        let y = hex_character-low (c % 16) (omega arith) in
        let low = IsText-low _ _ x (IsText-low _ _ y v) in
        let zeros = IsText-low 48 _ (omega arith) (IsText-low 48 _ (omega arith) low) in
        rw (u, w) (IsText-low 92 _ (omega arith) (IsText-low 117 _ (omega arith) zeros))
    | inr w ↦ rw (u, w) (IsText-low c _ h v)
  ]
]

-- The quoted text of a valid one is valid, whatever valid text follows.
quoted-IsText : (k : ℕ) (s t : Bytes) → valid_from k s ≡ true → IsText t → IsText (quoted s ++ t)
unfolding valid_from quoted
quoted-IsText k [] t e v = v
quoted-IsText zero (c ∷ s) t e v = cc
quoted-IsText (suc k) (c ∷ s) t e v = elim (Bool-cases (ltb c 128)) [
  | inl u ↦
      let e' = rw (valid_from, character-low c s (ground (arith, u))) at e in
      low-quoted c s t (ground (arith, u)) (quoted-IsText k s t e' v)
  | inr u ↦ elim (Option-cases (character c s)) [
    | inl f ↦ let e' = rw (valid_from, f) at e in cc
    | inr (rest, f) ↦
        let e' = rw (valid_from, f) at e in
        let (g, l) = character-quoted c s rest t (ground (arith, u)) f in
        rw (quoted-high c s (ground (arith, u)))
          (IsText-character c (quoted s ++ t) (quoted rest ++ t) g l (quoted-IsText k rest t e' v))
  ]
]

empty-valid : (n : ℕ) → valid_from n [] ≡ true
unfolding valid_from
empty-valid zero = refl
empty-valid (suc n) = refl

read_value-quoted :
    (fuel : ℕ) (s : Bytes)
    → read_value (suc fuel) 0 0 (34 ∷ (quoted s ++ 34 ∷ [])) ≡ some (string s, 1, [])
unfolding read_value spaces take_char read_scalar read_string
read_value-quoted fuel s =
    let e : length (quoted s ++ 34 ∷ []) ≡ length (quoted s) + 1 =
      length-append (quoted s) (34 ∷ []) in
    rw (characters-quoted s [] (length (quoted s ++ 34 ∷ [])) (omega (arith, e))) refl

-- Quoted and read back: the quoted text of any valid string, of 2 ^ 20 bytes at most with its quotes and
-- escapes, parses as that string.
pub parse-quote :
    (s : Bytes)
    → valid_utf8 s ≡ true
    → length (quoted s) + 2 ≤ 2 ^ 20
    → (quote s >>= parse) ≡ some (string s)
unfolding quote parse valid_utf8 spaces
parse-quote s v h =
    let q = 34 ∷ (quoted s ++ 34 ∷ []) in
    let e : length (quoted s ++ 34 ∷ []) ≡ length (quoted s) + 1 =
      length-append (quoted s) (34 ∷ []) in
    let quote-IsText = IsText-low 34 [] (omega arith) (λ n l. empty-valid n) in
    let valid : valid_from (length q) q ≡ true =
      IsText-low 34 _ (omega arith) (quoted-IsText (length s) s (34 ∷ []) v quote-IsText) (length q)
        (omega arith) in
    let small : ltb (2 ^ 20) (length q) ≡ false = ground (arith, e, h) in
    let enough : 2 * length q + 2 ≡ suc (2 * length q + 1) = omega arith in
    rw (v, small, valid, enough, read_value-quoted (2 * length q + 1) s) refl
