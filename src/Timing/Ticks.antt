-- ===== src/Timing/Ticks.antt =====
-- shared/km/timing.h, TicksToMicroseconds. Ticks are an int64_t; `none` is a throw. Division rounds
-- towards zero, so the code works on the magnitude here, and gives the sign back at the end.
use kmvirtualcamera.Prelude.{
  ℕ, ◌+◌, ◌-◌, ◌*◌, ◌/◌, ◌%◌, ◌^◌, ◌≤◌, ◌<◌, ◌≡◌, refl, sym, ap, ◌∙◌, true, false, Option, none,
  some, arith, ltb, ◌==◌, if◌then◌else◌, Bool-cases, inl, inr,
}
use kmvirtualcamera.Prelude.Int.{ℤ, pos, negsuc, ◌-ℤ◌}
use native.Mathlib.Nat.{div-add-mod, mul-add-div}

-- The magnitude in microseconds, up to a limit.
unfoldable pub scale : ℕ → ℕ → ℕ → Option ℕ
scale limit m rate =
    let whole = m / rate in
    let us = whole * 1000000 + m % rate * 1000000 / rate in
    if ltb ((2 ^ 63 - 1) / 1000000) whole then none else if ltb limit us then none else some us

unfoldable pub ticks_to_microseconds : ℤ → ℕ → Option ℤ
ticks_to_microseconds ticks rate = if rate == 0 then none else elim ticks [
  | pos n ↦ elim (scale (2 ^ 63 - 1) n rate) [ none ↦ none | some us ↦ some (pos us) ]
  | negsuc n ↦ elim (scale (2 ^ 63) (n + 1) rate) [ none ↦ none | some us ↦ some (pos 0 -ℤ pos us) ]
]

-- Without the intermediate steps.
abbrev pub exact_scale : ℕ → ℕ → ℕ → Option ℕ
exact_scale limit m rate =
    if ltb limit (m * 1000000 / rate) then none else some (m * 1000000 / rate)

abbrev pub exact_microseconds : ℤ → ℕ → Option ℤ
exact_microseconds (pos n) rate = elim (exact_scale (2 ^ 63 - 1) n rate) [
  | none ↦ none
  | some us ↦ some (pos us)
]
exact_microseconds (negsuc n) rate = elim (exact_scale (2 ^ 63) (n + 1) rate) [
  | none ↦ none
  | some us ↦ some (pos 0 -ℤ pos us)
]

quotient_lem :
    (m rate : ℕ) → 0 < rate → m / rate * 1000000 + m % rate * 1000000 / rate ≡ m * 1000000 / rate
quotient_lem m rate h =
    let q = m / rate in
    let r = m % rate in
    let whole : m * 1000000 ≡ rate * (q * 1000000) + r * 1000000 =
      ap (λ n. n * 1000000) (sym (div-add-mod m rate)) ∙ omega arith in
    sym (ap (λ n. n / rate) whole ∙ mul-add-div h (q * 1000000) (r * 1000000))

scale-exact_scale :
    (limit m rate : ℕ) → 0 < rate → limit ≤ 2 ^ 63 → scale limit m rate ≡ exact_scale limit m rate
unfolding scale
scale-exact_scale limit m rate h k =
    let e = quotient_lem m rate h in
    elim (Bool-cases (ltb ((2 ^ 63 - 1) / 1000000) (m / rate))) [
      | inl q ↦
          let big : ltb limit (m * 1000000 / rate) ≡ true = ground (arith, e, q, k) in
          rw (q, big) refl
      | inr q ↦ rw (q, e) refl
    ]

-- For every rate but 0: the result is the product of the ticks and a million divided by the rate, rounded
-- towards zero, if that fits an int64_t, and a throw otherwise.
pub ticks_to_microseconds-exact_microseconds :
    (ticks : ℤ) (rate : ℕ)
    → 0 < rate
    → ticks_to_microseconds ticks rate ≡ exact_microseconds ticks rate
unfolding ticks_to_microseconds
ticks_to_microseconds-exact_microseconds (pos n) rate h =
    let go : (rate == 0) ≡ false = ground (arith, h) in
    rw (go, scale-exact_scale (2 ^ 63 - 1) n rate h (omega arith)) refl
ticks_to_microseconds-exact_microseconds (negsuc n) rate h =
    let go : (rate == 0) ≡ false = ground (arith, h) in
    rw (go, scale-exact_scale (2 ^ 63) (n + 1) rate h (omega arith)) refl
