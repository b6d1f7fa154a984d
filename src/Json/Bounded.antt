-- ===== src/Json/Bounded.antt =====
-- What the reader of shared/km/json.h accepts.
use kmvirtualcamera.Prelude.{
  ℕ, zero, suc, ◌+◌, ◌*◌, ◌^◌, ◌≤◌, ◌<◌, ◌≡◌, refl, Bool, true, false, not, ◌&&◌, ◌||◌, Option,
  none, some, List, [], ◌∷◌, arith, ltb, leb, ◌==◌, length, max, Bytes, ◌>>=◌, is_empty,
}
use mathlib.Core.Path.{subst}
use kmvirtualcamera.Json.{
  Value, Items, Fields, null, bool, number, string, array, object, no_items, item, no_fields, field,
  valid_utf8,
}
use kmvirtualcamera.Json.Reader.{
  has_key, spaces, take_char, read_scalar, read_key, read_value, read_items, read_fields, parse,
}
use kmvirtualcamera.Prelude.Ensures.{
  Ensures, Ensures->>=, Ensures-elim, Ensures-if, Ensures-any, Ensures-both,
}
use kmvirtualcamera.Json.Progress.{
  IsLess, LeavesLess, length-spaces, take_char-IsLess, read_scalar-LeavesLess, read_key-LeavesLess,
}

-- How deep a value nests, how many values there are in it, and whether the keys of each object in it
-- differ: from each other and, for fields, from those read before.
abbrev mutual
  pub depth : Value → ℕ
  depth null = 0
  depth (bool b) = 0
  depth (number t) = 0
  depth (string t) = 0
  depth (array vs) = depth_items vs
  depth (object fs) = depth_fields fs

  pub depth_items : Items → ℕ
  depth_items no_items = 0
  depth_items (item v vs) = max (depth v + 1) (depth_items vs)

  pub depth_fields : Fields → ℕ
  depth_fields no_fields = 0
  depth_fields (field k v fs) = max (depth v + 1) (depth_fields fs)

abbrev mutual
  pub size : Value → ℕ
  size null = 1
  size (bool b) = 1
  size (number t) = 1
  size (string t) = 1
  size (array vs) = 1 + size_items vs
  size (object fs) = 1 + size_fields fs

  pub size_items : Items → ℕ
  size_items no_items = 0
  size_items (item v vs) = size v + size_items vs

  pub size_fields : Fields → ℕ
  size_fields no_fields = 0
  size_fields (field k v fs) = size v + size_fields fs

abbrev mutual
  pub distinct : Value → Bool
  distinct null = true
  distinct (bool b) = true
  distinct (number t) = true
  distinct (string t) = true
  distinct (array vs) = distinct_items vs
  distinct (object fs) = distinct_fields [] fs

  pub distinct_items : Items → Bool
  distinct_items no_items = true
  distinct_items (item v vs) = distinct v && distinct_items vs

  pub distinct_fields : List Bytes → Fields → Bool
  distinct_fields keys no_fields = true
  distinct_fields keys (field k v fs) =
      not (has_key k keys) && distinct v && distinct_fields (k ∷ keys) fs

-- What is read at a depth, after `n` values, from a text of `l` bytes.
abbrev pub GoodValue : ℕ → ℕ → ℕ → Value × ℕ × Bytes → Type 0
GoodValue d n l (v, m, r) =
    (depth v + d ≤ 32) × (m ≡ n + size v) × (m ≤ 16384) × (distinct v ≡ true) × (length r < l)

abbrev pub GoodItems : ℕ → ℕ → ℕ → Items × ℕ × Bytes → Type 0
GoodItems d n l (vs, m, r) =
    (depth_items vs + d ≤ 32)
    × (m ≡ n + size_items vs)
    × (m ≤ 16384)
    × (distinct_items vs ≡ true)
    × (length r < l)

abbrev pub GoodFields : List Bytes → ℕ → ℕ → ℕ → Fields × ℕ × Bytes → Type 0
GoodFields keys d n l (fs, m, r) =
    (depth_fields fs + d ≤ 32)
    × (m ≡ n + size_fields fs)
    × (m ≤ 16384)
    × (distinct_fields keys fs ≡ true)
    × (length r < l)

abbrev pub ReadsValues : ℕ → Type 0
ReadsValues fuel =
    (d n : ℕ) (b : Bytes) → Ensures (GoodValue d n (length b)) (read_value fuel d n b)

abbrev pub ReadsItems : ℕ → Type 0
ReadsItems fuel =
    (d n : ℕ) (b : Bytes)
    → d ≤ 32
    → n ≤ 16384
    → Ensures (GoodItems d n (length b)) (read_items fuel d n b)

abbrev pub ReadsFields : ℕ → Type 0
ReadsFields fuel =
    (d n : ℕ) (keys : List Bytes) (b : Bytes)
    → d ≤ 32
    → n ≤ 16384
    → Ensures (GoodFields keys d n (length b)) (read_fields fuel d n keys b)

-- A value that is neither an array nor an object.
abbrev IsFlat : Value × Bytes → Type 0
IsFlat (v, r) = (depth v ≡ 0) × (size v ≡ 1) × (distinct v ≡ true)

read_scalar-IsFlat : (b : Bytes) → Ensures IsFlat (read_scalar b)
unfolding read_scalar
read_scalar-IsFlat [] = tt
read_scalar-IsFlat (c ∷ r) =
    Ensures-if IsFlat (c == 34) _ _
      (λ e. on _ (λ (t, rest). some (string t, rest)) (λ z. (refl, refl, refl)))
      (λ e.
        Ensures-if IsFlat (c == 110) _ _
          (λ f. on _ (λ rest. some (null, rest)) (λ z. (refl, refl, refl)))
          (λ f.
            Ensures-if IsFlat (c == 116) _ _
              (λ g. on _ (λ rest. some (bool true, rest)) (λ z. (refl, refl, refl)))
              (λ g.
                Ensures-if IsFlat (c == 102) _ _
                  (λ i. on _ (λ rest. some (bool false, rest)) (λ z. (refl, refl, refl)))
                  (λ i. on _ (λ (t, rest). some (number t, rest)) (λ z. (refl, refl, refl))))))
  where
    on :
        {A : Type 0} (m : Option A) (f : A → Option (Value × Bytes))
        → ((a : A) → Ensures IsFlat (f a))
        → Ensures IsFlat (elim m [ none ↦ none | some a ↦ f a ])
    on m f h = Ensures-elim (λ a. Unit {0}) IsFlat m none f (Ensures-any m) tt (λ a u. h a)

read_scalar-Good :
    (d n l : ℕ) (b : Bytes)
    → d ≤ 32
    → n < 16384
    → length b ≤ l
    → Ensures (GoodValue d n l) (read_scalar b >>= λ (v, r). some (v, n + 1, r))
read_scalar-Good d n l b h k j =
    Ensures->>= (λ p. IsFlat p × LeavesLess l p) (GoodValue d n l) (read_scalar b) _
      (Ensures-both IsFlat (LeavesLess l) (read_scalar b) (read_scalar-IsFlat b)
        (read_scalar-LeavesLess l b j))
      (λ p ((e, f, g), i). (omega (arith, e, h), omega (arith, f), omega (arith, k), g, i))

read_value-Good : (fuel : ℕ) → ReadsItems fuel → ReadsFields fuel → ReadsValues (suc fuel)
unfolding read_value
read_value-Good fuel items fields d n b =
    let l = length-spaces b in
    let Good = GoodValue d n (length b) in
    let Less = IsLess (length b) in
    Ensures-if Good (ltb 32 d || leb 16384 n) none _ (λ e. tt)
      (λ e.
        let h : d ≤ 32 = ground (arith, e) in
        let k : n < 16384 = ground (arith, e) in
        Ensures-elim Less Good (take_char 123 (spaces b)) _ _
          (take_char-IsLess 123 (length b) (spaces b) l)
          (Ensures-elim Less Good (take_char 91 (spaces b)) _ _
            (take_char-IsLess 91 (length b) (spaces b) l)
            (read_scalar-Good d n (length b) (spaces b) h k l)
            (λ r p.
              let i : length (spaces r) ≤ length b = omega (arith, p, length-spaces r) in
              Ensures-elim Less Good (take_char 93 (spaces r)) _ _
                (take_char-IsLess 93 (length b) (spaces r) i)
                (Ensures->>= (GoodItems d (n + 1) (length (spaces r))) Good
                  (read_items fuel d (n + 1) (spaces r)) _
                  (items d (n + 1) (spaces r) h (omega (arith, k)))
                  (λ z (a, s, m, t, u). (a, omega (arith, s), m, t, omega (arith, u, i))))
                (λ z q. (omega (arith, h), refl, omega (arith, k), refl, q))))
          (λ r p.
            let i : length (spaces r) ≤ length b = omega (arith, p, length-spaces r) in
            Ensures-elim Less Good (take_char 125 (spaces r)) _ _
              (take_char-IsLess 125 (length b) (spaces r) i)
              (Ensures->>= (GoodFields [] d (n + 1) (length (spaces r))) Good
                (read_fields fuel d (n + 1) [] (spaces r)) _
                (fields d (n + 1) [] (spaces r) h (omega (arith, k)))
                (λ z (a, s, m, t, u). (a, omega (arith, s), m, t, omega (arith, u, i))))
              (λ z q. (omega (arith, h), refl, omega (arith, k), refl, q))))

read_items-Good : (fuel : ℕ) → ReadsValues fuel → ReadsItems fuel → ReadsItems (suc fuel)
unfolding read_items
read_items-Good fuel values items d n b h k =
    let Good = GoodItems d n (length b) in
    let Less = IsLess (length b) in
    Ensures->>= (GoodValue (d + 1) n (length b)) Good (read_value fuel (d + 1) n b) _
      (values (d + 1) n b)
      (λ (v, m, r) (a, s, j, t, u).
        let i : length (spaces r) ≤ length b = omega (arith, u, length-spaces r) in
        Ensures-elim Less Good (take_char 93 (spaces r)) _ _
          (take_char-IsLess 93 (length b) (spaces r) i)
          (Ensures->>= Less Good (take_char 44 (spaces r)) _
            (take_char-IsLess 44 (length b) (spaces r) i)
            (λ r' p.
              Ensures->>= (GoodItems d m (length r')) Good (read_items fuel d m r') _
                (items d m r' h j)
                (λ (vs, m', rest) (a', s', j', t', u'). (
                  omega (arith, a, a'),
                  omega (arith, s, s'),
                  j',
                  rw (t, t') refl,
                  omega (arith, u', p),
                ))))
          (λ z q. (omega (arith, a), omega (arith, s), j, rw t refl, q)))

read_fields-Good : (fuel : ℕ) → ReadsValues fuel → ReadsFields fuel → ReadsFields (suc fuel)
unfolding read_fields
read_fields-Good fuel values fields d n keys b h k =
    let Good = GoodFields keys d n (length b) in
    let Less = IsLess (length b) in
    Ensures->>= (LeavesLess (length b)) Good (read_key b) _
      (read_key-LeavesLess (length b) b (omega arith))
      (λ (key, x) o.
        Ensures->>= (GoodValue (d + 1) n (length x)) Good (read_value fuel (d + 1) n x) _
          (values (d + 1) n x)
          (λ (v, m, r) (a, s, j, t, u).
            let i : length (spaces r) ≤ length b = omega (arith, o, u, length-spaces r) in
            Ensures-if Good (has_key key keys) none _ (λ e. tt)
              (λ e.
                Ensures-elim Less Good (take_char 125 (spaces r)) _ _
                  (take_char-IsLess 125 (length b) (spaces r) i)
                  (Ensures->>= Less Good (take_char 44 (spaces r)) _
                    (take_char-IsLess 44 (length b) (spaces r) i)
                    (λ r' p.
                      Ensures->>= (GoodFields (key ∷ keys) d m (length r')) Good
                        (read_fields fuel d m (key ∷ keys) r') _ (fields d m (key ∷ keys) r' h j)
                        (λ (fs, m', rest) (a', s', j', t', u'). (
                          omega (arith, a, a'),
                          omega (arith, s, s'),
                          j',
                          rw (e, t, t') refl,
                          omega (arith, u', p),
                        ))))
                  (λ z q. (omega (arith, a), omega (arith, s), j, rw (e, t) refl, q)))))

reads-Good : (fuel : ℕ) → ReadsValues fuel × ReadsItems fuel × ReadsFields fuel
unfolding read_value read_items read_fields
reads-Good zero = (λ d n b. tt, λ d n b h k. tt, λ d n keys b h k. tt)
reads-Good (suc fuel) =
    let (values, items, fields) = reads-Good fuel in
    (
      read_value-Good fuel items fields,
      read_items-Good fuel values items,
      read_fields-Good fuel values fields,
    )

pub read_value-IsGood : (fuel : ℕ) → ReadsValues fuel
read_value-IsGood fuel = (reads-Good fuel).0

parsed :
    (b : Bytes) → Ensures (λ v. (depth v ≤ 32) × (size v ≤ 16384) × (distinct v ≡ true)) (parse b)
unfolding parse
parsed b =
    let Sound : Value → Type 0 = λ v. (depth v ≤ 32) × (size v ≤ 16384) × (distinct v ≡ true) in
    Ensures-if Sound (ltb (2 ^ 20) (length b) || not (valid_utf8 b)) none _ (λ e. tt)
      (λ e.
        Ensures->>= (GoodValue 0 0 (length b)) Sound (read_value (2 * length b + 2) 0 0 b) _
          (read_value-IsGood (2 * length b + 2) 0 0 b)
          (λ (v, m, r) (a, s, j, t, u).
            Ensures-if Sound (is_empty (spaces r)) (some v) none
              (λ f. (omega (arith, a), omega (arith, s, j), t)) (λ f. tt)))

-- Whatever text arrives: a value that parses nests no deeper than 32 below the root, is one of at most
-- 16384 values with those inside it, and no object in it has a key twice.
pub parse_sound :
    (b : Bytes) (v : Value)
    → parse b ≡ some v
    → (depth v ≤ 32) × (size v ≤ 16384) × (distinct v ≡ true)
parse_sound b v e =
    subst (Ensures (λ v. (depth v ≤ 32) × (size v ≤ 16384) × (distinct v ≡ true))) e (parsed b)
