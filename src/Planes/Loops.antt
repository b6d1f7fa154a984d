-- ===== src/Planes/Loops.antt =====
-- Loops that keep an invariant come to their end.
use kmvirtualcamera.Prelude.{ℕ, zero, suc, ◌<◌, ◌≡◌, refl, ap, ◌∙◌, Option, some, arith, ◌>>=◌}
use kmvirtualcamera.Planes.{for_loop}

pub for_loop-invariant {ℓ κ} :
    {A : Type ℓ} (P : ℕ → A → Type κ) (f : ℕ → A → Option A) (n : ℕ) (a : A)
    → P 0 a
    → ((i : ℕ) (b : A) → i < n → P i b → (c : A) × (f i b ≡ some c) × P (suc i) c)
    → (c : A) × (for_loop n f a ≡ some c) × P n c
unfolding for_loop
for_loop-invariant P f zero a p step = (a, refl, p)
for_loop-invariant P f (suc n) a p step =
    let (b, e, q) = for_loop-invariant P f n a p (λ i b l. step i b (omega arith)) in
    let (c, g, r) = step n b (omega arith) q in (c, ap (λ o. o >>= f n) e ∙ g, r)
