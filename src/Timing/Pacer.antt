-- ===== src/Timing/Pacer.antt =====
-- shared/km/timing.h, class RationalPacer. A uint64_t is a number below 2 ^ 64; `none` is a throw.
use kmvirtualcamera.Prelude.{
  ℕ, zero, suc, ◌+◌, ◌-◌, ◌*◌, ◌/◌, ◌%◌, ◌^◌, ◌≤◌, ◌<◌, ◌≡◌, sym, ap₂, ◌∙◌, Option, none, some,
  List, [], ◌∷◌, arith, ltb, ltb→lt, lt→ltb, Bool-cases, inl, inr, ◌==◌, if◌then◌else◌, ◌||◌,
}
use native.Mathlib.Nat.{
  le_trans, mul-le-mul_right, le-div_iff_mul-le, div-mul-le_self, div-add-mod, div-le_self,
  mul-add-div, add-mod, mod-lt, zero-div, zero-mod,
}

pub record Pacer : Type 0 where
  pub numerator : ℕ
  pub deadline : ℕ
  pub whole : ℕ
  pub fraction : ℕ
  pub remainder : ℕ

-- The constructor.
unfoldable pub make : ℕ → ℕ → ℕ → Option Pacer
make numerator denominator epoch =
    if numerator == 0 || denominator == 0 || ltb 1000000 numerator || ltb 1000000 denominator
    then none
    else let period = 1000000000 * denominator in
      some (record {
        numerator = numerator;
        deadline = epoch;
        whole = period / numerator;
        fraction = period % numerator;
        remainder = 0;
      })

unfoldable pub next : Pacer → Option (ℕ × Pacer)
next p =
    let sum = p.remainder + p.fraction in
    let step = p.whole + sum / p.numerator in
    if ltb (2 ^ 64 - 1 - step) p.deadline
    then none
    else some (p.deadline, record p { deadline = p.deadline + step; remainder = sum % p.numerator })

-- The deadlines of `k` calls in a row; `none` if one of them throws.
unfoldable pub deadlines : ℕ → Pacer → Option (List ℕ)
deadlines zero p = some []
deadlines (suc k) p = elim (next p) [
  | none ↦ none
  | some (d, p') ↦ elim (deadlines k p') [ none ↦ none | some ds ↦ some (d ∷ ds) ]
]

pub due : ℕ → ℕ → ℕ → ℕ → ℕ
due numerator denominator epoch index = epoch + index * (1000000000 * denominator) / numerator

-- What the class promises: epoch + floor(index * 1e9 * denominator / numerator) for the calls
-- from `index` on.
pub exact : ℕ → ℕ → ℕ → ℕ → ℕ → List ℕ
exact numerator denominator epoch index zero = []
exact numerator denominator epoch index (suc k) =
    due numerator denominator epoch index ∷ exact numerator denominator epoch (index + 1) k

-- One more period moves the quotient and the remainder as `next` does.
step_exact :
    (i period n : ℕ)
    → 0 < n
    → ((i + 1) * period / n ≡ i * period / n + (period / n + (i * period % n + period % n) / n))
      × ((i + 1) * period % n ≡ (i * period % n + period % n) % n)
step_exact i period n h =
    let a = i * period in
    let split : (i + 1) * period ≡ n * (a / n + period / n) + (a % n + period % n) =
      omega (arith, div-add-mod a n, div-add-mod period n) in
    let sum : (i + 1) * period ≡ a + period = omega arith in
    (
      rw (split, mul-add-div h (a / n + period / n) (a % n + period % n)) (omega arith),
      rw (sum, add-mod a period n),
    )

-- The state after `i` calls.
record At (numerator denominator epoch i : ℕ) (p : Pacer) : Type 0 where
  rate : p.numerator ≡ numerator
  positive : 0 < numerator
  small : (numerator ≤ 1000000) × (denominator ≤ 1000000)
  deadline_at : p.deadline ≡ epoch + i * (1000000000 * denominator) / numerator
  whole_of : p.whole ≡ 1000000000 * denominator / numerator
  fraction_of : p.fraction ≡ 1000000000 * denominator % numerator
  remainder_at : p.remainder ≡ i * (1000000000 * denominator) % numerator

make-At : (n d e : ℕ) {p : Pacer} → make n d e ≡ some p → At n d e 0 p
unfolding make
make-At n d e h = ground (arith, zero-div n, zero-mod n)

-- `next` answers the deadline of its index, exactly while the following one is a uint64_t.
next-At :
    (n d e i : ℕ) {p : Pacer}
    → At n d e i p
    → (p' : Pacer) × At n d e (i + 1) p'
      × (next p ≡ (if ltb (due n d e (i + 1)) (2 ^ 64) then some (due n d e i, p') else none))
unfolding next due
next-At n d e i {p} a =
    let sum = p.remainder + p.fraction in
    let p' : Pacer = record p {
      deadline = p.deadline + (p.whole + sum / p.numerator);
      remainder = sum % p.numerator;
    } in
    let e_sum : sum ≡ i * (1000000000 * d) % n + 1000000000 * d % n =
      ap₂ ◌+◌ a.remainder_at a.fraction_of in
    let e_div : sum / p.numerator ≡ (i * (1000000000 * d) % n + 1000000000 * d % n) / n =
      ap₂ ◌/◌ e_sum a.rate in
    let e_mod : sum % p.numerator ≡ (i * (1000000000 * d) % n + 1000000000 * d % n) % n =
      ap₂ ◌%◌ e_sum a.rate in
    let (quotient, rest) = step_exact i (1000000000 * d) n a.positive in
    (
      p',
      record {
        rate = a.rate;
        positive = a.positive;
        small = a.small;
        deadline_at = omega (arith, e_div, quotient);
        whole_of = a.whole_of;
        fraction_of = a.fraction_of;
        remainder_at = e_mod ∙ sym rest;
      },
      ground (
        arith,
        e_div,
        quotient,
        div-le_self sum p.numerator,
        div-le_self (1000000000 * d) n,
        mod-lt (i * (1000000000 * d)) a.positive,
        mod-lt (1000000000 * d) a.positive,
      ),
    )

due_mono : (n d e i j : ℕ) → 0 < n → i ≤ j → due n d e i ≤ due n d e j
unfolding due
due_mono n d e i j h l =
    let period = 1000000000 * d in
    let less : i * period / n * n ≤ j * period =
      le_trans (div-mul-le_self (i * period) n) (mul-le-mul_right period l) in
    omega (arith, (le-div_iff_mul-le {x = i * period / n} {y = j * period} h).1 less)

deadlines-exact_from :
    (k n d e i j : ℕ) {p : Pacer}
    → i + k ≡ j
    → At n d e i p
    → due n d e i < 2 ^ 64
    → deadlines k p ≡ (if ltb (due n d e j) (2 ^ 64) then some (exact n d e i k) else none)
unfolding deadlines exact
deadlines-exact_from zero n d e i j s a h =
    let same : i ≡ j = omega arith in rw (← same, lt→ltb _ _ h)
deadlines-exact_from (suc k) n d e i j {p} s a h =
    let (p', a', step) = next-At n d e i a in
    let order = due_mono n d e (i + 1) j a.positive (omega arith) in
    elim (Bool-cases (ltb (due n d e (i + 1)) (2 ^ 64))) [
      | inl fits ↦ ground (
        arith,
        step,
        fits,
        deadlines-exact_from k n d e (i + 1) j (omega arith) a' (ltb→lt _ _ fits),
      )
      | inr over ↦ ground (arith, step, over, order)
    ]

-- From a valid frame rate and an epoch below 2 ^ 64, `k` calls answer the exact deadlines
-- epoch + floor(index * 1e9 * denominator / numerator), index 0 to k - 1, if the one of index `k` is
-- below 2 ^ 64; otherwise one of the calls throws.
pub deadlines-make :
    (k n d e : ℕ) {p : Pacer}
    → make n d e ≡ some p
    → e < 2 ^ 64
    → deadlines k p ≡ (if ltb (due n d e k) (2 ^ 64) then some (exact n d e 0 k) else none)
deadlines-make k n d e h l =
    deadlines-exact_from k n d e 0 k (omega arith) (make-At n d e h)
      (unfold due in omega (arith, zero-div n))
