-- ===== src/Json/Unicode.antt =====
-- The encoding and the decoding of code points in shared/km/json.h.
use kmvirtualcamera.Prelude.{
  ℕ, zero, suc, ◌+◌, ◌*◌, ◌/◌, ◌%◌, ◌≤◌, ◌<◌, ◌≡◌, refl, true, false, ◌&&◌, some, [], ◌∷◌, arith,
  ltb, leb, ◌==◌, length, Bytes, Bool-cases, inl, inr,
}
use kmvirtualcamera.Json.{append_utf8, continued, scalar, character, valid_from, valid_utf8}

continued-step :
    (n c x : ℕ) (r : Bytes)
    → x < 64
    → continued (suc n) c ((128 + x) ∷ r) ≡ continued n (c * 64 + x) r
unfolding continued
continued-step n c x r h =
    let t : ((128 + x) / 64 == 2) ≡ true = ground (arith, h) in
    let e : (128 + x) % 64 ≡ x = omega (arith, h) in rw (continued, t, e) refl

scalar-some :
    (minimum c : ℕ) (r : Bytes)
    → minimum ≤ c
    → c ≤ 0x10ffff
    → (leb 0xd800 c && leb c 0xdfff) ≡ false
    → scalar minimum (some (c, r)) ≡ some r
unfolding scalar
scalar-some minimum c r h k s =
    let t : ltb c minimum ≡ false = ground arith in
    let u : ltb 0x10ffff c ≡ false = ground arith in rw (t, u, s) refl

one : (c : ℕ) → c < 128 → character c [] ≡ some []
unfolding character
one c h = let t : ltb c 128 ≡ true = ground arith in rw t refl

two : (c : ℕ) → 128 ≤ c → c ≤ 2047 → character (192 + c / 64) ((128 + c % 64) ∷ []) ≡ some []
unfolding character continued
two c h k =
    let t : ltb (192 + c / 64) 128 ≡ false = ground arith in
    let u : (leb 194 (192 + c / 64) && leb (192 + c / 64) 223) ≡ true = ground (arith, h, k) in
    let e : (192 + c / 64) % 32 * 64 + c % 64 ≡ c = omega (arith, h, k) in
    rw (t, u, continued-step 0 ((192 + c / 64) % 32) (c % 64) [] (omega arith), e)
      (scalar-some 128 c [] h (omega arith) (ground arith))

three :
    (c : ℕ)
    → 2048 ≤ c
    → c ≤ 65535
    → (leb 0xd800 c && leb c 0xdfff) ≡ false
    → character (224 + c / 4096) ((128 + c / 64 % 64) ∷ (128 + c % 64) ∷ []) ≡ some []
unfolding character continued
three c h k s =
    let t : ltb (224 + c / 4096) 128 ≡ false = ground arith in
    let u : (leb 194 (224 + c / 4096) && leb (224 + c / 4096) 223) ≡ false = ground arith in
    let v : (leb 224 (224 + c / 4096) && leb (224 + c / 4096) 239) ≡ true = ground (arith, k) in
    let x = (224 + c / 4096) % 16 in
    let e : (x * 64 + c / 64 % 64) * 64 + c % 64 ≡ c = omega (arith, k) in
    rw
      (
        t,
        u,
        v,
        continued-step 1 x (c / 64 % 64) ((128 + c % 64) ∷ []) (omega arith),
        continued-step 0 (x * 64 + c / 64 % 64) (c % 64) [] (omega arith),
        e,
      )
      (scalar-some 2048 c [] h (omega arith) s)

four :
    (c : ℕ)
    → 65536 ≤ c
    → c ≤ 0x10ffff
    → character
        (240 + c / 262144)
        ((128 + c / 4096 % 64) ∷ (128 + c / 64 % 64) ∷ (128 + c % 64) ∷ [])
      ≡ some []
unfolding character continued
four c h k =
    let t : ltb (240 + c / 262144) 128 ≡ false = ground arith in
    let u : (leb 194 (240 + c / 262144) && leb (240 + c / 262144) 223) ≡ false = ground arith in
    let v : (leb 224 (240 + c / 262144) && leb (240 + c / 262144) 239) ≡ false = ground arith in
    let w : (leb 240 (240 + c / 262144) && leb (240 + c / 262144) 244) ≡ true = ground (arith, k) in
    let x = (240 + c / 262144) % 8 in
    let y = x * 64 + c / 4096 % 64 in
    let e : ((x * 64 + c / 4096 % 64) * 64 + c / 64 % 64) * 64 + c % 64 ≡ c = omega (arith, k) in
    rw
      (
        t,
        u,
        v,
        w,
        continued-step 2 x (c / 4096 % 64) ((128 + c / 64 % 64) ∷ (128 + c % 64) ∷ [])
            (omega arith),
        continued-step 1 y (c / 64 % 64) ((128 + c % 64) ∷ []) (omega arith),
        continued-step 0 (y * 64 + c / 64 % 64) (c % 64) [] (omega arith),
        e,
      )
      (scalar-some 65536 c [] h k (ground arith))

empty-valid : (n : ℕ) → valid_from n [] ≡ true
unfolding valid_from
empty-valid zero = refl
empty-valid (suc n) = refl

whole-valid : (c : ℕ) (r : Bytes) → character c r ≡ some [] → valid_utf8 (c ∷ r) ≡ true
unfolding valid_utf8 valid_from
whole-valid c r e = rw (valid_from, e) (empty-valid (length r))

-- Every code point but the surrogates is encoded as one character that the validator accepts.
pub append_utf8-valid :
    (c : ℕ)
    → c ≤ 0x10ffff
    → (leb 0xd800 c && leb c 0xdfff) ≡ false
    → valid_utf8 (append_utf8 c) ≡ true
unfolding append_utf8
append_utf8-valid c h s = elim (Bool-cases (leb c 127)) [
  | inl t ↦ rw t (whole-valid c [] (one c (ground (arith, t))))
  | inr t ↦ elim (Bool-cases (leb c 2047)) [
    | inl u ↦ rw (t, u) (whole-valid _ _ (two c (ground (arith, t)) (ground (arith, u))))
    | inr u ↦ elim (Bool-cases (leb c 65535)) [
      | inl v ↦ rw (t, u, v) (whole-valid _ _ (three c (ground (arith, u)) (ground (arith, v)) s))
      | inr v ↦ rw (t, u, v) (whole-valid _ _ (four c (ground (arith, v)) h))
    ]
  ]
]
