-- ===== src/TestPattern/Picture.antt =====
-- The picture of windows/receiver/media/test_pattern_generator.cpp, written down by columns: the colour bars
-- of 160 columns each, and the ramp below them.
use kmvirtualcamera.Prelude.{
  ℕ, suc, ◌+◌, ◌-◌, ◌*◌, ◌/◌, ◌%◌, ◌<◌, ◌≡◌, refl, ap, ◌∙◌, List, [], ◌∷◌, arith, ltb, ◌==◌,
  if◌then◌else◌, length, get_or, min, Bool-cases, inl, inr,
}
use kmvirtualcamera.TestPattern.{YuvColor, color, smpte75, bar, bars_luma, bars_chroma}

-- The first value for 160 columns, then the next.
abbrev pub columns : List ℕ → ℕ → ℕ
columns [] x = 0
columns (v ∷ vs) x = if ltb x 160 then v else columns vs (x - 160)

-- White, yellow, cyan, green, magenta, red, blue and black; the ramp goes from 16 up to 234.
abbrev pub picture_luma : ℕ → ℕ → ℕ
picture_luma y x =
    if ltb y 480
    then columns (180 ∷ 162 ∷ 131 ∷ 112 ∷ 84 ∷ 65 ∷ 35 ∷ 16 ∷ []) x
    else 16 + x * 219 / 1280

-- In each pair of bytes the U is first; the ramp has no colour.
abbrev pub picture_chroma : ℕ → ℕ → ℕ
picture_chroma y k =
    if ltb y 240
    then if k % 2 == 0
      then columns (128 ∷ 44 ∷ 156 ∷ 72 ∷ 184 ∷ 100 ∷ 212 ∷ 128 ∷ []) k
      else columns (128 ∷ 142 ∷ 44 ∷ 58 ∷ 198 ∷ 212 ∷ 114 ∷ 128 ∷ []) k
    else 128

abbrev values : (YuvColor → ℕ) → List YuvColor → List ℕ
values f [] = []
values f (c ∷ cs) = f c ∷ values f cs

get_or-columns :
    (f : YuvColor → ℕ) (cs : List YuvColor) (x : ℕ) (d : YuvColor)
    → x < 160 * length cs
    → f (get_or cs (x / 160) d) ≡ columns (values f cs) x
get_or-columns f [] x d h = absurd (omega (arith, h))
get_or-columns f (c ∷ cs) x d h = elim (Bool-cases (ltb x 160)) [
  | inl t ↦ let e : x / 160 ≡ 0 = ground (arith, t) in rw (t, e) refl
  | inr t ↦
      let e : x / 160 ≡ suc ((x - 160) / 160) = ground (arith, t) in
      rw (t, e) (get_or-columns f cs (x - 160) d (ground (arith, t, h)))
]

bar-columns : (f : YuvColor → ℕ) (x : ℕ) → x < 1280 → f (bar x) ≡ columns (values f smpte75) x
bar-columns f x h =
    let e : min (x / 160) 7 ≡ x / 160 = omega (arith, h) in
    rw e (get_or-columns f smpte75 x (color 16 128 128) h)

pub bars_luma-picture : (y x : ℕ) → x < 1280 → bars_luma y x ≡ picture_luma y x
bars_luma-picture y x h = elim (Bool-cases (ltb y 480)) [
  | inl t ↦ rw t (bar-columns (λ c. c.y) x h)
  | inr t ↦ rw t (omega (arith, h))
]

-- A pair of bytes is in one bar.
same_bar : (k : ℕ) → bar (k / 2 * 2) ≡ bar k
same_bar k = ap (λ n. get_or smpte75 (min n 7) (color 16 128 128)) (omega arith)

pub bars_chroma-picture : (y k : ℕ) → k < 1280 → bars_chroma y k ≡ picture_chroma y k
bars_chroma-picture y k h = elim (Bool-cases (ltb y 240)) [
  | inl t ↦ elim (Bool-cases (k % 2 == 0)) [
    | inl u ↦ rw (t, u) (ap (λ c. c.u) (same_bar k) ∙ bar-columns (λ c. c.u) k h)
    | inr u ↦ rw (t, u) (ap (λ c. c.v) (same_bar k) ∙ bar-columns (λ c. c.v) k h)
  ]
  | inr t ↦ rw t refl
]
