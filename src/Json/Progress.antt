-- ===== src/Json/Progress.antt =====
-- How much of the text the scanners of shared/km/json.h leave.
use kmvirtualcamera.Prelude.{
  ℕ, zero, suc, ◌+◌, ◌*◌, ◌≤◌, ◌<◌, Bool, true, false, not, ◌&&◌, ◌||◌, Option, none, some, [], ◌∷◌,
  arith, ltb, leb, ◌==◌, if◌then◌else◌, length, Bytes, Bool-cases, inl, inr,
}
use kmvirtualcamera.Prelude.Ensures.{Ensures, Ensures->>=, Ensures-elim, Ensures-if, Ensures-any}
use kmvirtualcamera.Json.{Value, null, bool, append_utf8, is_digit}
use kmvirtualcamera.Json.Reader.{
  spaces, take_char, literal, hex_digit, hex_digits, hex, low_surrogate, code_point, escape,
  prepend, characters, read_string, starts_digit, digits, some_digits, optional, whole_part,
  fraction_part, sign, exponent_part, read_number, read_scalar, read_key, is_space,
}

-- A rest of fewer bytes than `n`, alone and behind an answer.
abbrev pub IsLess : ℕ → Bytes → Type 0
IsLess n r = length r < n

abbrev pub LeavesLess {ℓ} : {A : Type ℓ} → ℕ → A × Bytes → Type 0
LeavesLess n (a, r) = length r < n

pub length-spaces : (b : Bytes) → length (spaces b) ≤ length b
unfolding spaces
length-spaces [] = omega arith
length-spaces (c ∷ r) = elim (Bool-cases (is_space c)) [
  | inl t ↦ rw t (omega (arith, length-spaces r))
  | inr t ↦ rw t (omega arith)
]

pub take_char-IsLess : (c n : ℕ) (b : Bytes) → length b ≤ n → Ensures (IsLess n) (take_char c b)
unfolding take_char
take_char-IsLess c n [] h = tt
take_char-IsLess c n (x ∷ b) h =
    Ensures-if (IsLess n) (x == c) (some b) none (λ e. omega arith) (λ e. tt)

literal-IsLess : (s b : Bytes) (n : ℕ) → length b < n + length s → Ensures (IsLess n) (literal s b)
unfolding literal
literal-IsLess [] b n h = omega arith
literal-IsLess (c ∷ s) [] n h = tt
literal-IsLess (c ∷ s) (x ∷ b) n h =
    Ensures-if (IsLess n) (x == c) (literal s b) none (λ e. literal-IsLess s b n (omega arith))
      (λ e. tt)

hex_digits-LeavesLess :
    (k m n : ℕ) (b : Bytes) → length b < n + k → Ensures (LeavesLess n) (hex_digits k m b)
unfolding hex_digits
hex_digits-LeavesLess zero m n b h = omega arith
hex_digits-LeavesLess (suc k) m n [] h = tt
hex_digits-LeavesLess (suc k) m n (c ∷ b) h =
    Ensures-elim (λ d. Unit {0}) (LeavesLess n) (hex_digit c) none
      (λ d. hex_digits k (m * 16 + d) b) (Ensures-any (hex_digit c)) tt
      (λ d u. hex_digits-LeavesLess k (m * 16 + d) n b (omega arith))

hex-LeavesLess : (n : ℕ) (b : Bytes) → length b ≤ n → Ensures (LeavesLess n) (hex b)
unfolding hex
hex-LeavesLess n b h =
    Ensures-if (LeavesLess n) (ltb (length b) 4) none (hex_digits 4 0 b) (λ e. tt)
      (λ e. hex_digits-LeavesLess 4 0 n b (omega arith))

low_surrogate-LeavesLess :
    (high n : ℕ) (b : Bytes) → length b ≤ n → Ensures (LeavesLess n) (low_surrogate high b)
unfolding low_surrogate
low_surrogate-LeavesLess high n b h =
    Ensures->>= (IsLess n) (LeavesLess n) (take_char 92 b) _ (take_char-IsLess 92 n b h) (λ x p.
      Ensures->>= (IsLess n) (LeavesLess n) (take_char 117 x) _
        (take_char-IsLess 117 n x (omega (arith, p)))
        (λ y q.
          Ensures->>= (LeavesLess n) (LeavesLess n) (hex y) _
            (hex-LeavesLess n y (omega (arith, q)))
            (λ z s.
              Ensures-if (LeavesLess n) (ltb z.0 0xdc00 || ltb 0xdfff z.0) none _ (λ e. tt)
                (λ e. s))))

code_point-LeavesLess : (n : ℕ) (b : Bytes) → length b ≤ n → Ensures (LeavesLess n) (code_point b)
unfolding code_point
code_point-LeavesLess n b h =
    Ensures->>= (LeavesLess n) (LeavesLess n) (hex b) _ (hex-LeavesLess n b h) (λ z s.
      Ensures-if (LeavesLess n) (leb 0xd800 z.0 && leb z.0 0xdbff) (low_surrogate z.0 z.1) _
        (λ e. low_surrogate-LeavesLess z.0 n z.1 (omega (arith, s)))
        (λ e.
          Ensures-if (LeavesLess n) (leb 0xdc00 z.0 && leb z.0 0xdfff) none _ (λ f. tt) (λ f. s)))

escape-LeavesLess : (n : ℕ) (b : Bytes) → length b ≤ n → Ensures (LeavesLess n) (escape b)
unfolding escape
escape-LeavesLess n [] h = tt
escape-LeavesLess n (c ∷ r) h = choose (c == 34 || c == 92 || c == 47) _ _ (
    choose (c == 98) _ _ (
      choose (c == 102) _ _ (
        choose (c == 110) _ _ (
          choose (c == 114) _ _ (
            choose (c == 116) _ _
              (Ensures-if (LeavesLess n) (c == 117) _ none (λ e. unicode) (λ e. tt)))))))
  where
    choose :
        (b : Bool) (x : Bytes) (m : Option (Bytes × Bytes))
        → Ensures (LeavesLess n) m
        → Ensures (LeavesLess n) (if b then some (x, r) else m)
    choose true x m k = omega (arith, h)
    choose false x m k = k

    unicode :
        Ensures
          (LeavesLess n)
          (elim (code_point r) [ none ↦ none | some (cp, rest) ↦ some (append_utf8 cp, rest) ])
    unicode =
        Ensures-elim (LeavesLess n) (LeavesLess n) (code_point r) none _
          (code_point-LeavesLess n r (omega (arith, h))) tt (λ z s. s)

prepend-LeavesLess :
    (n : ℕ) (x : Bytes) (m : Option (Bytes × Bytes))
    → Ensures (LeavesLess n) m
    → Ensures (LeavesLess n) (prepend x m)
prepend-LeavesLess n x none h = tt
prepend-LeavesLess n x (some (t, r)) h = h

characters-LeavesLess :
    (fuel n : ℕ) (b : Bytes) → length b ≤ n → Ensures (LeavesLess n) (characters fuel b)
unfolding characters
characters-LeavesLess fuel n [] h = tt
characters-LeavesLess zero n (c ∷ b) h = tt
characters-LeavesLess (suc fuel) n (c ∷ b) h =
    let l : length b ≤ n = omega arith in
    Ensures-if (LeavesLess n) (c == 34) (some ([], b)) _ (λ e. omega arith)
      (λ e.
        Ensures-if (LeavesLess n) (ltb c 32) none _ (λ f. tt)
          (λ f.
            Ensures-if (LeavesLess n) (not (c == 92)) (prepend (c ∷ []) (characters fuel b)) _
              (λ g.
                prepend-LeavesLess n (c ∷ []) (characters fuel b)
                  (characters-LeavesLess fuel n b l))
              (λ g.
                Ensures-elim (LeavesLess n) (LeavesLess n) (escape b) none _
                  (escape-LeavesLess n b l) tt
                  (λ z s.
                    prepend-LeavesLess n z.0 (characters fuel z.1)
                      (characters-LeavesLess fuel n z.1 (omega (arith, s)))))))

read_string-LeavesLess : (n : ℕ) (b : Bytes) → length b ≤ n → Ensures (LeavesLess n) (read_string b)
unfolding read_string
read_string-LeavesLess n b h =
    Ensures->>= (IsLess n) (LeavesLess n) (take_char 34 b) _ (take_char-IsLess 34 n b h)
      (λ x p. characters-LeavesLess (length x) n x (omega (arith, p)))

length-digits : (b : Bytes) → length (digits b) ≤ length b
unfolding digits
length-digits [] = omega arith
length-digits (c ∷ r) = elim (Bool-cases (is_digit c)) [
  | inl t ↦ rw t (omega (arith, length-digits r))
  | inr t ↦ rw t (omega arith)
]

some_digits-IsLess : (n : ℕ) (b : Bytes) → length b ≤ n → Ensures (IsLess n) (some_digits b)
unfolding some_digits digits
some_digits-IsLess n [] h = tt
some_digits-IsLess n (c ∷ r) h = elim (Bool-cases (is_digit c)) [
  | inl t ↦ rw t (omega (arith, length-digits r, h))
  | inr t ↦ rw t tt
]

optional-length :
    (n : ℕ) (m : Option Bytes) (b : Bytes)
    → Ensures (IsLess n) m
    → length b ≤ n
    → length (optional m b) ≤ n
optional-length n none b h k = k
optional-length n (some r) b h k = omega (arith, h)

whole_part-IsLess : (n : ℕ) (b : Bytes) → length b ≤ n → Ensures (IsLess n) (whole_part b)
unfolding whole_part
whole_part-IsLess n b h =
    Ensures-elim (IsLess n) (IsLess n) (take_char 48 b) (some_digits b) _
      (take_char-IsLess 48 n b h) (some_digits-IsLess n b h)
      (λ r p. Ensures-if (IsLess n) (starts_digit r) none (some r) (λ e. tt) (λ e. p))

fraction_part-IsLess : (n : ℕ) (b : Bytes) → length b < n → Ensures (IsLess n) (fraction_part b)
unfolding fraction_part
fraction_part-IsLess n b h =
    Ensures-elim (IsLess n) (IsLess n) (take_char 46 b) (some b) some_digits
      (take_char-IsLess 46 n b (omega arith)) h (λ r p. some_digits-IsLess n r (omega (arith, p)))

sign-length : (n : ℕ) (b : Bytes) → length b ≤ n → length (sign b) ≤ n
unfolding sign
sign-length n b h =
    optional-length n (take_char 43 b) _ (take_char-IsLess 43 n b h)
      (optional-length n (take_char 45 b) b (take_char-IsLess 45 n b h) h)

exponent_part-IsLess : (n : ℕ) (b : Bytes) → length b < n → Ensures (IsLess n) (exponent_part b)
unfolding exponent_part
exponent_part-IsLess n b h =
    Ensures-elim (IsLess n) (IsLess n) (take_char 101 b) _ _
      (take_char-IsLess 101 n b (omega arith))
      (Ensures-elim (IsLess n) (IsLess n) (take_char 69 b) (some b) _
        (take_char-IsLess 69 n b (omega arith)) h
        (λ r p. some_digits-IsLess n (sign r) (sign-length n r (omega (arith, p)))))
      (λ r p. some_digits-IsLess n (sign r) (sign-length n r (omega (arith, p))))

read_number-LeavesLess : (n : ℕ) (b : Bytes) → length b ≤ n → Ensures (LeavesLess n) (read_number b)
unfolding read_number
read_number-LeavesLess n b h =
    let minus = optional-length n (take_char 45 b) b (take_char-IsLess 45 n b h) h in
    Ensures->>= (IsLess n) (LeavesLess n) (whole_part (optional (take_char 45 b) b)) _
      (whole_part-IsLess n _ minus)
      (λ x p.
        Ensures->>= (IsLess n) (LeavesLess n) (fraction_part x) _ (fraction_part-IsLess n x p)
          (λ y q.
            Ensures->>= (IsLess n) (LeavesLess n) (exponent_part y) _ (exponent_part-IsLess n y q)
              (λ z s. s)))

pub read_scalar-LeavesLess :
    (n : ℕ) (b : Bytes) → length b ≤ n → Ensures (LeavesLess n) (read_scalar b)
unfolding read_scalar
read_scalar-LeavesLess n [] h = tt
read_scalar-LeavesLess n (c ∷ r) h =
    Ensures-if (LeavesLess n) (c == 34) _ _
      (λ e.
        Ensures-elim (LeavesLess n) (LeavesLess n) (read_string (c ∷ r)) none _
          (read_string-LeavesLess n _ h) tt (λ z s. s))
      (λ e.
        Ensures-if (LeavesLess n) (c == 110) _ _ (λ f. word null _ (omega arith))
          (λ f.
            Ensures-if (LeavesLess n) (c == 116) _ _ (λ g. word (bool true) _ (omega arith))
              (λ g.
                Ensures-if (LeavesLess n) (c == 102) _ _ (λ i. word (bool false) _ (omega arith))
                  (λ i.
                    Ensures-elim (LeavesLess n) (LeavesLess n) (read_number (c ∷ r)) none _
                      (read_number-LeavesLess n _ h) tt (λ z s. s)))))
  where
    word :
        (v : Value) (s : Bytes)
        → 0 < length s
        → Ensures
            (LeavesLess n)
            (elim (literal s (c ∷ r)) [ none ↦ none | some rest ↦ some (v, rest) ])
    word v s k =
        Ensures-elim (IsLess n) (LeavesLess n) (literal s (c ∷ r)) none _
          (literal-IsLess s (c ∷ r) n (omega (arith, h, k))) tt (λ z p. p)

pub read_key-LeavesLess : (n : ℕ) (b : Bytes) → length b ≤ n → Ensures (LeavesLess n) (read_key b)
unfolding read_key
read_key-LeavesLess n b h =
    Ensures->>= (LeavesLess n) (LeavesLess n) (read_string (spaces b)) _
      (read_string-LeavesLess n (spaces b) (omega (arith, h, length-spaces b)))
      (λ z s.
        Ensures->>= (IsLess n) (LeavesLess n) (take_char 58 (spaces z.1)) _
          (take_char-IsLess 58 n (spaces z.1) (omega (arith, s, length-spaces z.1))) (λ y q. q))
