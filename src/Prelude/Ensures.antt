-- ===== src/Prelude/Ensures.antt =====
-- What holds of the answer of a fallible step, where there is one.
use kmvirtualcamera.Prelude.{◌≡◌, refl, Bool, true, false, Option, none, some, if◌then◌else◌, ◌>>=◌}

-- What holds of an answer, where there is one.
abbrev pub Ensures {ℓ} : {A : Type ℓ} → (A → Type 0) → Option A → Type 0
Ensures P none = Unit {0}
Ensures P (some a) = P a

module _ {ℓ κ} {A : Type ℓ} {B : Type κ} (P : A → Type 0) (Q : B → Type 0) where
  pub Ensures->>= :
      (m : Option A) (f : A → Option B)
      → Ensures P m
      → ((a : A) → P a → Ensures Q (f a))
      → Ensures Q (m >>= f)
  Ensures->>= none f p h = tt
  Ensures->>= (some a) f p h = h a p

  pub Ensures-elim :
      (m : Option A) (x : Option B) (f : A → Option B)
      → Ensures P m
      → Ensures Q x
      → ((a : A) → P a → Ensures Q (f a))
      → Ensures Q (elim m [ none ↦ x | some a ↦ f a ])
  Ensures-elim none x f p q h = q
  Ensures-elim (some a) x f p q h = h a p

pub Ensures-if {κ} :
    {B : Type κ} (Q : B → Type 0) (b : Bool) (x y : Option B)
    → (b ≡ true → Ensures Q x)
    → (b ≡ false → Ensures Q y)
    → Ensures Q (if b then x else y)
Ensures-if Q true x y h k = h refl
Ensures-if Q false x y h k = k refl

pub Ensures-map {ℓ} :
    {A : Type ℓ} (P Q : A → Type 0) (m : Option A)
    → Ensures P m
    → ((a : A) → P a → Q a)
    → Ensures Q m
Ensures-map P Q none h f = tt
Ensures-map P Q (some a) h f = f a h

pub Ensures-any {ℓ} : {A : Type ℓ} (m : Option A) → Ensures (λ a. Unit {0}) m
Ensures-any none = tt
Ensures-any (some a) = tt

pub Ensures-both {ℓ} :
    {A : Type ℓ} (P Q : A → Type 0) (m : Option A)
    → Ensures P m
    → Ensures Q m
    → Ensures (λ a. P a × Q a) m
Ensures-both P Q none p q = tt
Ensures-both P Q (some a) p q = (p, q)

pub Ensures-then {ℓ κ} :
    {A : Type ℓ} {B : Type κ} (Q : B → Type 0) (m : Option A) (f : A → Option B)
    → ((a : A) → Ensures Q (f a))
    → Ensures Q (m >>= f)
Ensures-then Q m f h = Ensures->>= (λ a. Unit {0}) Q m f (Ensures-any m) (λ a u. h a)
