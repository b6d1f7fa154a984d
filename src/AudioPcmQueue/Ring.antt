-- ===== src/AudioPcmQueue/Ring.antt =====
-- Reading a ring: the samples from the head on, and how the two block copies of `append` and `pop`
-- act on them, index by index.
use kmvirtualcamera.Prelude.{
  ℕ, zero, suc, ◌+◌, ◌-◌, ◌%◌, ◌≤◌, ◌<◌, ◌≡◌, refl, sym, ap, ap₂, ◌∙◌, List, [], ◌∷◌, ◌++◌, arith,
  ltb, if◌then◌else◌, length, get_or, take, drop, min, length-take, length-drop, length-append,
  get_or-append_left, get_or-append_right, false, not, ◌&&◌, Bool-cases, inl, inr, ltb→lt,
}
use native.Mathlib.Nat.{mod-eq_of_lt, mod-eq-sub-mod}
use kmvirtualcamera.AudioPcmQueue.{copy_to}

abbrev pub tabulate : ℕ → (ℕ → ℕ) → List ℕ
tabulate zero f = []
tabulate (suc n) f = f 0 ∷ tabulate n (λ i. f (suc i))

pub length-tabulate : (n : ℕ) (f : ℕ → ℕ) → length (tabulate n f) ≡ n
length-tabulate zero f = refl
length-tabulate (suc n) f = ap suc (length-tabulate n (λ i. f (suc i)))

pub tabulate_ext :
    (n : ℕ) (f g : ℕ → ℕ) → ((i : ℕ) → i < n → f i ≡ g i) → tabulate n f ≡ tabulate n g
tabulate_ext zero f g h = refl
tabulate_ext (suc n) f g h =
    ap₂ ◌∷◌ (h 0 (omega arith))
      (tabulate_ext n (λ i. f (suc i)) (λ i. g (suc i)) (λ i l. h (suc i) (omega arith)))

pub drop-tabulate :
    (k n m : ℕ) (f : ℕ → ℕ) → n ≡ k + m → drop k (tabulate n f) ≡ tabulate m (λ i. f (k + i))
drop-tabulate zero n m f h =
    ap (λ k. tabulate k f) h
    ∙ ap (λ k. tabulate k f) (omega arith)
    ∙ tabulate_ext m f (λ i. f (0 + i)) (λ i l. ap f (omega arith))
drop-tabulate (suc k) zero m f h = absurd (omega arith)
drop-tabulate (suc k) (suc n) m f h =
    drop-tabulate k n m (λ i. f (suc i)) (omega arith)
    ∙ tabulate_ext m (λ i. f (suc (k + i))) (λ i. f (suc k + i)) (λ i l. ap f (omega arith))

pub take-tabulate : (k n : ℕ) (f : ℕ → ℕ) → k ≤ n → take k (tabulate n f) ≡ tabulate k f
take-tabulate zero n f h = refl
take-tabulate (suc k) zero f h = absurd (omega arith)
take-tabulate (suc k) (suc n) f h =
    ap (◌∷◌ (f 0)) (take-tabulate k n (λ i. f (suc i)) (omega arith))

pub take-tabulate-min : (k n : ℕ) (f : ℕ → ℕ) → take k (tabulate n f) ≡ tabulate (min k n) f
take-tabulate-min zero n f = let z : min 0 n ≡ 0 = omega arith in rw z refl
take-tabulate-min (suc k) zero f = let z : min (suc k) 0 ≡ 0 = omega arith in rw z refl
take-tabulate-min (suc k) (suc n) f =
    let z : min (suc k) (suc n) ≡ suc (min k n) = omega arith in
    rw z (ap (◌∷◌ (f 0)) (take-tabulate-min k n (λ i. f (suc i))))

pub drop-tabulate-min :
    (k n : ℕ) (f : ℕ → ℕ) → drop k (tabulate n f) ≡ drop (min k n) (tabulate n f)
drop-tabulate-min zero n f = let z : min 0 n ≡ 0 = omega arith in rw z refl
drop-tabulate-min (suc k) zero f = let z : min (suc k) 0 ≡ 0 = omega arith in rw z refl
drop-tabulate-min (suc k) (suc n) f =
    let z : min (suc k) (suc n) ≡ suc (min k n) = omega arith in
    rw z (drop-tabulate-min k n (λ i. f (suc i)))

pub tabulate_add :
    (k m n : ℕ) (f : ℕ → ℕ) → k ≡ m + n → tabulate k f ≡ tabulate m f ++ tabulate n (λ i. f (m + i))
tabulate_add k zero n f h =
    ap (λ k. tabulate k f) h
    ∙ ap (λ k. tabulate k f) (omega arith)
    ∙ tabulate_ext n f (λ i. f (0 + i)) (λ i l. ap f (omega arith))
tabulate_add zero (suc m) n f h = absurd (omega arith)
tabulate_add (suc k) (suc m) n f h = ap (◌∷◌ (f 0)) (
    tabulate_add k m n (λ i. f (suc i)) (omega arith)
    ∙ ap (◌++◌ (tabulate m (λ i. f (suc i))))
        (tabulate_ext n (λ i. f (suc (m + i))) (λ i. f (suc m + i)) (λ i l. ap f (omega arith))))

pub tabulate-get_or : (xs : List ℕ) (d : ℕ) → tabulate (length xs) (λ i. get_or xs i d) ≡ xs
tabulate-get_or [] d = refl
tabulate-get_or (x ∷ xs) d = ap (◌∷◌ x) (tabulate-get_or xs d)

-- A list is what its reads are.
pub tabulate_reads :
    (xs : List ℕ) (n : ℕ) (f : ℕ → ℕ)
    → length xs ≡ n
    → ((i : ℕ) → i < n → get_or xs i 0 ≡ f i)
    → xs ≡ tabulate n f
tabulate_reads xs n f l h =
    sym (tabulate-get_or xs 0)
    ∙ ap (λ k. tabulate k (λ i. get_or xs i 0)) l
    ∙ tabulate_ext n (λ i. get_or xs i 0) f h

pub get_or-take : (n : ℕ) (xs : List ℕ) (i : ℕ) → i < n → get_or (take n xs) i 0 ≡ get_or xs i 0
get_or-take zero xs i h = absurd (omega arith)
get_or-take (suc n) [] i h = refl
get_or-take (suc n) (x ∷ xs) zero h = refl
get_or-take (suc n) (x ∷ xs) (suc i) h = get_or-take n xs i (omega arith)

pub get_or-drop :
    (n : ℕ) (xs : List ℕ) (i j : ℕ) → j ≡ n + i → get_or (drop n xs) i 0 ≡ get_or xs j 0
get_or-drop zero xs i j h = ap (λ k. get_or xs k 0) (omega arith)
get_or-drop (suc n) [] i j h = refl
get_or-drop (suc n) (x ∷ xs) i zero h = absurd (omega arith)
get_or-drop (suc n) (x ∷ xs) i (suc j) h = get_or-drop n xs i j (omega arith)

-- An index below twice the capacity, taken into the ring.
pub wrap_lem :
    (x size : ℕ) → 0 < size → x < size + size → x % size ≡ (if ltb x size then x else x - size)
wrap_lem x size p h = elim (Bool-cases (ltb x size)) [
  | inl e ↦ rw e (mod-eq_of_lt (ltb→lt x size e))
  | inr e ↦
      rw e
        (mod-eq-sub-mod {n = x} {m = size} (ground (arith, e)) ∙ mod-eq_of_lt (ground (arith, e)))
]

-- A block copy inside the buffer, read at an index.
pub get_or-copy_to :
    (b : List ℕ) (at : ℕ) (xs : List ℕ) (i : ℕ)
    → at + length xs ≤ length b
    → get_or (copy_to b at xs) i 0 ≡ (
        if ltb i at
        then get_or b i 0
        else if ltb i (at + length xs)
        then get_or xs (i - at) 0
        else get_or b i 0)
get_or-copy_to b at xs i h =
    let l : length (take at b) ≡ at = omega (arith, length-take at b) in
    elim (Bool-cases (ltb i at)) [
      | inl e ↦ rw e (
          get_or-append_left (take at b) (xs ++ drop (at + length xs) b) i 0 (ground (arith, e, l))
          ∙ get_or-take at b i (ltb→lt i at e))
      | inr e ↦ rw e (
          get_or-append_right (take at b) (xs ++ drop (at + length xs) b) (i - at) i 0
            (ground (arith, e, l))
          ∙ behind i e)
    ]
  where
    behind :
        (i : ℕ)
        → ltb i at ≡ false
        → get_or (xs ++ drop (at + length xs) b) (i - at) 0
          ≡ (if ltb i (at + length xs) then get_or xs (i - at) 0 else get_or b i 0)
    behind i e = elim (Bool-cases (ltb i (at + length xs))) [
      | inl e' ↦
          rw e' (get_or-append_left xs (drop (at + length xs) b) (i - at) 0 (ground (arith, e, e')))
      | inr e' ↦ rw e' (
          get_or-append_right xs (drop (at + length xs) b) (i - at - length xs) (i - at) 0
            (ground (arith, e, e'))
          ∙ get_or-drop (at + length xs) b (i - at - length xs) i (ground (arith, e, e')))
    ]

pub length-copy_to :
    (b : List ℕ) (at : ℕ) (xs : List ℕ)
    → at + length xs ≤ length b
    → length (copy_to b at xs) ≡ length b
length-copy_to b at xs h = omega (
  arith,
  length-append (take at b) (xs ++ drop (at + length xs) b),
  length-take at b,
  length-append xs (drop (at + length xs) b),
  length-drop (at + length xs) b,
)

pub get_or-copy_take :
    (b : List ℕ) (at first : ℕ) (xs : List ℕ) (p : ℕ)
    → first ≤ length xs
    → at + first ≤ length b
    → get_or (copy_to b at (take first xs)) p 0
      ≡ (if not (ltb p at) && ltb p (at + first) then get_or xs (p - at) 0 else get_or b p 0)
get_or-copy_take b at first xs p h k =
    let l : length (take first xs) ≡ first = omega (arith, length-take first xs) in
    let r = get_or-copy_to b at (take first xs) p (omega (arith, l)) in
    elim (Bool-cases (ltb (p - at) first)) [
      | inl e ↦ ground (arith, r, l, e, get_or-take first xs (p - at) (ltb→lt (p - at) first e))
      | inr e ↦ ground (arith, r, l, e)
    ]

pub get_or-copy_drop :
    (b : List ℕ) (first : ℕ) (xs : List ℕ) (p : ℕ)
    → length xs ≤ length b
    → get_or (copy_to b 0 (drop first xs)) p 0
      ≡ (if ltb p (length xs - first) then get_or xs (first + p) 0 else get_or b p 0)
get_or-copy_drop b first xs p h =
    let l = length-drop first xs in
    let r = get_or-copy_to b 0 (drop first xs) p (omega (arith, l)) in
    let g = get_or-drop first xs p (first + p) refl in
    let z : p - 0 ≡ p = omega arith in ground (arith, r, l, g, z)

-- Both copies of `append`: the second, at the front, is made if the first reached the end.
pub get_or-copies :
    (b : List ℕ) (at first : ℕ) (xs : List ℕ) (p : ℕ)
    → first ≡ min (length xs) (length b - at)
    → at ≤ length b
    → length xs ≤ length b
    → get_or
        (if ltb first (length xs)
          then copy_to (copy_to b at (take first xs)) 0 (drop first xs)
          else copy_to b at (take first xs))
        p
        0
      ≡ (if not (ltb p at) && ltb p (at + first)
          then get_or xs (p - at) 0
          else if ltb p (length xs - first)
          then get_or xs (first + p) 0
          else get_or b p 0)
get_or-copies b at first xs p f a h =
    let one = get_or-copy_take b at first xs p (omega arith) (omega arith) in
    let l : length (copy_to b at (take first xs)) ≡ length b =
      length-copy_to b at (take first xs) (omega (arith, length-take first xs)) in
    let two = get_or-copy_drop (copy_to b at (take first xs)) first xs p (omega (arith, l)) in
    elim (Bool-cases (ltb first (length xs))) [
      | inl e ↦ rw e (two ∙ rw one (ground (arith, e)))
      | inr e ↦ rw e (one ∙ ground (arith, e))
    ]
