-- ===== src/Json/Fuel.antt =====
-- The reader of shared/km/json.h ends: fuel of twice the bytes that are left is enough.
use kmvirtualcamera.Prelude.{
  ℕ, zero, suc, ◌+◌, ◌*◌, ◌≤◌, ◌<◌, ◌≡◌, refl, ap, ◌∙◌, ◌||◌, Option, none, some, List, [], ◌∷◌,
  arith, ltb, leb, if◌then◌else◌, length, Bytes, ◌>>=◌,
}
use kmvirtualcamera.Json.{Value, Items, Fields, array, object, no_items, item, no_fields, field}
use kmvirtualcamera.Json.Reader.{
  has_key, spaces, take_char, read_key, read_value, read_items, read_fields,
}
use kmvirtualcamera.Prelude.Ensures.{Ensures}
use kmvirtualcamera.Json.Progress.{
  IsLess, LeavesLess, length-spaces, take_char-IsLess, read_key-LeavesLess,
}
use kmvirtualcamera.Json.Bounded.{GoodValue, read_value-IsGood}

module _ {ℓ κ} {A : Type ℓ} {B : Type κ} (P : A → Type 0) where
  >>=-agree :
      (m : Option A) (f g : A → Option B)
      → Ensures P m
      → ((a : A) → P a → f a ≡ g a)
      → (m >>= f) ≡ (m >>= g)
  >>=-agree none f g p h = refl
  >>=-agree (some a) f g p h = h a p

  elim-agree :
      (m : Option A) (x y : Option B) (f g : A → Option B)
      → Ensures P m
      → x ≡ y
      → ((a : A) → P a → f a ≡ g a)
      → Path (Option B) (elim m [ none ↦ x | some a ↦ f a ]) (elim m [ none ↦ y | some a ↦ g a ])
  elim-agree none x y f g p e h = e
  elim-agree (some a) x y f g p e h = h a p

abbrev pub SameValues : ℕ → ℕ → Type 0
SameValues f g =
    (d n : ℕ) (b : Bytes)
    → 2 * length b + 1 ≤ f
    → 2 * length b + 1 ≤ g
    → read_value f d n b ≡ read_value g d n b

abbrev pub SameItems : ℕ → ℕ → Type 0
SameItems f g =
    (d n : ℕ) (b : Bytes)
    → 2 * length b + 2 ≤ f
    → 2 * length b + 2 ≤ g
    → read_items f d n b ≡ read_items g d n b

abbrev pub SameFields : ℕ → ℕ → Type 0
SameFields f g =
    (d n : ℕ) (keys : List Bytes) (b : Bytes)
    → 2 * length b + 2 ≤ f
    → 2 * length b + 2 ≤ g
    → read_fields f d n keys b ≡ read_fields g d n keys b

read_value-same : (f g : ℕ) → SameItems f g → SameFields f g → SameValues (suc f) (suc g)
unfolding read_value
read_value-same f g items fields d n b h k =
    let l = length-spaces b in
    let Less = IsLess (length b) in
    ap (λ m. if ltb 32 d || leb 16384 n then none else m)
      (elim-agree Less (take_char 123 (spaces b)) _ _ _ _
        (take_char-IsLess 123 (length b) (spaces b) l)
        (elim-agree Less (take_char 91 (spaces b)) _ _ _ _
          (take_char-IsLess 91 (length b) (spaces b) l) refl
          (λ r p.
            let i : length (spaces r) < length b = omega (arith, p, length-spaces r) in
            elim-agree Less (take_char 93 (spaces r)) _ _ _ _
              (take_char-IsLess 93 (length b) (spaces r) (omega (arith, i)))
              (ap (λ m. m >>= λ (vs, j, rest). some (array vs, j, rest))
                (items d (n + 1) (spaces r) (omega (arith, i, h)) (omega (arith, i, k))))
              (λ z q. refl)))
        (λ r p.
          let i : length (spaces r) < length b = omega (arith, p, length-spaces r) in
          elim-agree Less (take_char 125 (spaces r)) _ _ _ _
            (take_char-IsLess 125 (length b) (spaces r) (omega (arith, i)))
            (ap (λ m. m >>= λ (fs, j, rest). some (object fs, j, rest))
              (fields d (n + 1) [] (spaces r) (omega (arith, i, h)) (omega (arith, i, k))))
            (λ z q. refl)))

read_items-same : (f g : ℕ) → SameValues f g → SameItems f g → SameItems (suc f) (suc g)
unfolding read_items
read_items-same f g values items d n b h k =
    ap (λ m. m >>= more f) (values (d + 1) n b (omega (arith, h)) (omega (arith, k)))
    ∙ >>=-agree (GoodValue (d + 1) n (length b)) (read_value g (d + 1) n b) (more f) (more g)
        (read_value-IsGood g (d + 1) n b)
        (λ (v, m, r) (a, s, j, t, u).
          let i : length (spaces r) < length b = omega (arith, u, length-spaces r) in
          elim-agree (IsLess (length b)) (take_char 93 (spaces r)) _ _ _ _
            (take_char-IsLess 93 (length b) (spaces r) (omega (arith, i)))
            (>>=-agree (IsLess (length (spaces r))) (take_char 44 (spaces r)) _ _
              (take_char-IsLess 44 (length (spaces r)) (spaces r) (omega arith))
              (λ r' p.
                ap (λ o. o >>= λ (vs, m', rest). some (item v vs, m', rest))
                  (items d m r' (omega (arith, i, p, h)) (omega (arith, i, p, k)))))
            (λ z q. refl))
  where
    more : ℕ → Value × ℕ × Bytes → Option (Items × ℕ × Bytes)
    more f (v, m, r) = elim (take_char 93 (spaces r)) [
      | some rest ↦ some (item v no_items, m, rest)
      | none ↦ do
        r' ← take_char 44 (spaces r)
        (vs, m', rest) ← read_items f d m r'
        some (item v vs, m', rest)
    ]

read_fields-same : (f g : ℕ) → SameValues f g → SameFields f g → SameFields (suc f) (suc g)
unfolding read_fields
read_fields-same f g values fields d n keys b h k =
    >>=-agree (LeavesLess (length b)) (read_key b) _ _
      (read_key-LeavesLess (length b) b (omega arith))
      (λ (key, x) o.
        ap (λ m. m >>= more f key) (values (d + 1) n x (omega (arith, o, h)) (omega (arith, o, k)))
        ∙ >>=-agree (GoodValue (d + 1) n (length x)) (read_value g (d + 1) n x) (more f key)
            (more g key) (read_value-IsGood g (d + 1) n x)
            (λ (v, m, r) (a, s, j, t, u).
              let i : length (spaces r) < length b = omega (arith, o, u, length-spaces r) in
              ap (λ c. if has_key key keys then none else c)
                (elim-agree (IsLess (length b)) (take_char 125 (spaces r)) _ _ _ _
                  (take_char-IsLess 125 (length b) (spaces r) (omega (arith, i)))
                  (>>=-agree (IsLess (length (spaces r))) (take_char 44 (spaces r)) _ _
                    (take_char-IsLess 44 (length (spaces r)) (spaces r) (omega arith))
                    (λ r' p.
                      ap (λ c. c >>= λ (fs, m', rest). some (field key v fs, m', rest))
                        (fields d m (key ∷ keys) r' (omega (arith, i, p, h))
                          (omega (arith, i, p, k)))))
                  (λ z q. refl))))
  where
    more : ℕ → Bytes → Value × ℕ × Bytes → Option (Fields × ℕ × Bytes)
    more f key (v, m, r) = if has_key key keys then none else elim (take_char 125 (spaces r)) [
      | some rest ↦ some (field key v no_fields, m, rest)
      | none ↦ do
        r' ← take_char 44 (spaces r)
        (fs, m', rest) ← read_fields f d m (key ∷ keys) r'
        some (field key v fs, m', rest)
    ]

same : (f g : ℕ) → SameValues f g × SameItems f g × SameFields f g
same zero g = (
  λ d n b h k. absurd (omega arith),
  λ d n b h k. absurd (omega arith),
  λ d n keys b h k. absurd (omega arith),
)
same (suc f) zero = (
  λ d n b h k. absurd (omega arith),
  λ d n b h k. absurd (omega arith),
  λ d n keys b h k. absurd (omega arith),
)
same (suc f) (suc g) =
    let (values, items, fields) = same f g in
    (
      read_value-same f g items fields,
      read_items-same f g values items,
      read_fields-same f g values fields,
    )

-- Any two amounts of fuel above twice the bytes that are left give value the same answer, at whatever
-- depth and whatever was read before.
pub read_value_fuel :
    (f g depth nodes : ℕ) (b : Bytes)
    → 2 * length b + 1 ≤ f
    → 2 * length b + 1 ≤ g
    → read_value f depth nodes b ≡ read_value g depth nodes b
read_value_fuel f g depth nodes b h k = (same f g).0 depth nodes b h k
