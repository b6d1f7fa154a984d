-- ===== src/Planes/Blit.antt =====
-- What a loop over rows and columns leaves in a buffer.
use kmvirtualcamera.Prelude.{
  ℕ, ◌+◌, ◌*◌, ◌/◌, ◌%◌, ◌<◌, ◌≡◌, ◌≢◌, refl, sym, ap, ◌∙◌, true, false, Option, none, some, arith,
  ◌==◌, if◌then◌else◌, ◌>>=◌, lt→ltb, ==_iff, Bool-cases, inl, inr,
}
use mathlib.Core.Path.{subst}
use native.Mathlib.Nat.{
  mul-add-div_right, mul-add-mod_self_right, div-eq_of_lt, mod-eq_of_lt, mul-le-mul_right,
  div-lt_iff_lt-mul, mul_comm,
}
use kmvirtualcamera.Planes.{Buffer, read, write, for_loop, blit}
use kmvirtualcamera.Planes.Loops.{for_loop-invariant}

pub write_lem :
    (i v : ℕ) (b : Buffer)
    → i < b.size
    → (c : Buffer) × (write i v b ≡ some c)
      × (c.size ≡ b.size)
      × (c.at i ≡ v)
      × ((j : ℕ) → j ≢ i → c.at j ≡ b.at j)
unfolding write
write_lem i v b h =
    let c : Buffer = record { size = b.size; at = λ j. if j == i then v else b.at j } in
    let l = lt→ltb i b.size h in
    let self : (i == i) ≡ true = ground arith in
    (
      c,
      rw l refl,
      refl,
      rw self refl,
      λ j n. let o : (j == i) ≡ false = ground (arith, n) in rw o refl,
    )

-- One row is done: `n` of its bytes are written, the others stay.
abbrev IsRow : ℕ → (ℕ → ℕ) → (ℕ → ℕ) → Buffer → Buffer → Type 0
IsRow n put value b c =
    (c.size ≡ b.size)
    × ((x : ℕ) → x < n → c.at (put x) ≡ value x)
    × ((j : ℕ) → ((x : ℕ) → x < n → put x ≢ j) → c.at j ≡ b.at j)

row :
    (w : ℕ) (get : ℕ → Option ℕ) (put value : ℕ → ℕ) (b : Buffer)
    → ((x : ℕ) → x < w → (get x ≡ some (value x)) × (put x < b.size))
    → ((x x' : ℕ) → x < w → x' < w → put x ≡ put x' → x ≡ x')
    → (c : Buffer) × (for_loop w (λ x b. get x >>= λ v. write (put x) v b) b ≡ some c)
      × IsRow w put value b c
row w get put value b safe apart =
    for_loop-invariant (λ n c. IsRow n put value b c) (λ x b. get x >>= λ v. write (put x) v b) w b
      (refl, λ x l. absurd (omega (arith, l)), λ j n. refl)
      (λ i d l (s, done, rest).
        let (got, room) = safe i l in
        let (c, e, s', new, old) = write_lem (put i) (value i) d (omega (arith, room, s)) in
        (
          c,
          ap (λ o. o >>= λ v. write (put i) v d) got ∙ e,
          (
            s' ∙ s,
            λ x m. elim (Bool-cases (x == i)) [
              | inl q ↦ subst (λ k. c.at (put k) ≡ value k) (sym ((==_iff x i).0 q)) new
              | inr q ↦
                  old (put x) (λ p.
                    let same = apart x i (omega (arith, m, l)) l p in
                    absurd (ground (arith, same, q)))
                  ∙ done x (ground (arith, m, q))
            ],
            λ j n. old j (λ p. n i (omega arith) (sym p)) ∙ rest j (λ x m. n x (omega (arith, m))),
          ),
        ))

-- All rows are done.
abbrev pub IsBlit : ℕ → ℕ → (ℕ → ℕ → ℕ) → (ℕ → ℕ → ℕ) → Buffer → Buffer → Type 0
IsBlit h w put value b c =
    (c.size ≡ b.size)
    × ((y x : ℕ) → y < h → x < w → c.at (put y x) ≡ value y x)
    × ((j : ℕ) → ((y x : ℕ) → y < h → x < w → put y x ≢ j) → c.at j ≡ b.at j)

-- The addresses of the writes differ.
abbrev pub IsApart : ℕ → ℕ → (ℕ → ℕ → ℕ) → Type 0
IsApart h w put =
    (y x y' x' : ℕ) → y < h → x < w → y' < h → x' < w → put y x ≡ put y' x' → (y ≡ y') × (x ≡ x')

pub blit_lem :
    (h w : ℕ) (get : ℕ → ℕ → Option ℕ) (put value : ℕ → ℕ → ℕ) (b : Buffer)
    → ((y x : ℕ) → y < h → x < w → (get y x ≡ some (value y x)) × (put y x < b.size))
    → IsApart h w put
    → (c : Buffer) × (blit h w get put b ≡ some c) × IsBlit h w put value b c
unfolding blit
blit_lem h w get put value b safe apart =
    for_loop-invariant (λ n c. IsBlit n w put value b c) _ h b
      (refl, λ y x l. absurd (omega (arith, l)), λ j n. refl)
      (λ i d l (s, done, rest).
        let (c, e, (s', new, old)) =
          row w (get i) (put i) (value i) d
            (λ x m. let (got, room) = safe i x l m in (got, omega (arith, room, s)))
            (λ x x' m m' p. (apart i x i x' l m l m' p).1) in
        (
          c,
          e,
          (
            s' ∙ s,
            λ y x k m. elim (Bool-cases (y == i)) [
              | inl q ↦ subst (λ r. c.at (put r x) ≡ value r x) (sym ((==_iff y i).0 q)) (new x m)
              | inr q ↦
                  old (put y x) (λ x' m' p.
                    let same = (apart i x' y x l m' (omega (arith, k, l)) m p).0 in
                    absurd (ground (arith, same, q)))
                  ∙ done y x (ground (arith, k, q)) m
            ],
            λ j n.
                old j (λ x m. n i x (omega arith) m)
                ∙ rest j (λ y x k m. n y x (omega (arith, k)) m),
          ),
        ))

-- Addresses of the form base + row * stride + column.
pub address_apart : (s a b c d : ℕ) → b < s → d < s → a * s + b ≡ c * s + d → (a ≡ c) × (b ≡ d)
address_apart s a b c d h k e =
    let pos : 0 < s = omega (arith, h) in
    let q =
      sym (mul-add-div_right pos a b ∙ ap (◌+◌ a) (div-eq_of_lt h) ∙ add-zero a)
      ∙ ap (λ n. n / s) e
      ∙ (mul-add-div_right pos c d ∙ ap (◌+◌ c) (div-eq_of_lt k) ∙ add-zero c) in
    let r =
      sym (mul-add-mod_self_right a s b ∙ mod-eq_of_lt h)
      ∙ ap (λ n. n % s) e
      ∙ (mul-add-mod_self_right c s d ∙ mod-eq_of_lt k) in
    (q, r)
  where
    add-zero : (n : ℕ) → n + 0 ≡ n
    add-zero n = omega arith

-- An address of `h` rows of `s` bytes.
pub address_bound : (s a h b : ℕ) → a < h → b < s → a * s + b < h * s
address_bound s a h b l m = omega (arith, m, mul-le-mul_right s l)

-- Scaling a column down to the source stays in the source.
pub scale_bound : (x w s : ℕ) → x < w → 0 < s → x * s / w < s
scale_bound x w s h k =
    let pos : 0 < w = omega (arith, h) in
    (div-lt_iff_lt-mul pos).1 (omega (arith, k, mul-le-mul_right s h, mul_comm s w))

-- What `get` answers now stands where `put` says, and nothing else has changed.
abbrev pub IsCopy : ℕ → ℕ → (ℕ → ℕ → Option ℕ) → (ℕ → ℕ → ℕ) → Buffer → Buffer → Type 0
IsCopy h w get put b c =
    (c.size ≡ b.size)
    × ((y x : ℕ) → y < h → x < w → get y x ≡ some (c.at (put y x)))
    × ((j : ℕ) → ((y x : ℕ) → y < h → x < w → put y x ≢ j) → c.at j ≡ b.at j)

or_zero : Option ℕ → ℕ
or_zero none = 0
or_zero (some v) = v

pub blit-IsCopy :
    (h w : ℕ) (get : ℕ → ℕ → Option ℕ) (put : ℕ → ℕ → ℕ) (b : Buffer)
    → ((y x : ℕ) → y < h → x < w → ((v : ℕ) × (get y x ≡ some v)) × (put y x < b.size))
    → IsApart h w put
    → (c : Buffer) × (blit h w get put b ≡ some c) × IsCopy h w get put b c
unfolding or_zero
blit-IsCopy h w get put b safe apart =
    let value : ℕ → ℕ → ℕ = λ y x. or_zero (get y x) in
    let got : (y x : ℕ) → y < h → x < w → get y x ≡ some (value y x) =
      λ y x k l. let ((v, e), room) = safe y x k l in e ∙ sym (ap (λ o. some (or_zero o)) e) in
    let (c, e, (s, done, rest)) =
      blit_lem h w get put value b (λ y x k l. (got y x k l, (safe y x k l).1)) apart in
    (c, e, (s, λ y x k l. got y x k l ∙ ap some (sym (done y x k l)), rest))

pub read_lem : (b : Buffer) (i : ℕ) → i < b.size → read b i ≡ some (b.at i)
unfolding read
read_lem b i h = rw (lt→ltb i b.size h) refl
