-- ===== src/Nv12/Source.antt =====
-- The source planes of shared/km/nv12.h, and the bytes that the letterbox takes from them.
use kmvirtualcamera.Prelude.{
  ℕ, ◌+◌, ◌-◌, ◌*◌, ◌/◌, ◌%◌, ◌≤◌, ◌<◌, ◌≡◌, refl, ap, ◌∙◌, true, some, arith, ◌==◌, if◌then◌else◌,
  ◌>>=◌, Bool-cases, inl, inr, lt→ltb,
}
use native.Mathlib.Nat.{le-div_iff_mul-le, mod-lt, mul-le-mul_right}
use kmvirtualcamera.Planes.{Buffer, read, back}
use kmvirtualcamera.Planes.Blit.{address_bound, scale_bound, read_lem}
use kmvirtualcamera.Nv12.Put.{column_bound}
use kmvirtualcamera.Nv12.{plane_fits, is_sideways, Fit, source_at, get_byte, is_rotation}

pub record IsPlane (bytes stride width rows : ℕ) : Type 0 where
  pub narrow : width ≤ stride
  pub inside : (y x : ℕ) → y < rows → x < width → y * stride + x < bytes

pub plane_fits-IsPlane :
    (bytes stride width rows : ℕ)
    → plane_fits bytes stride width rows ≡ true
    → IsPlane bytes stride width rows
unfolding plane_fits
plane_fits-IsPlane bytes stride width rows e =
    let last : rows - 1 ≤ (bytes - width) / stride = ground (arith, e) in
    let narrow : width ≤ stride = ground (arith, e) in
    let some_width : 0 < width = ground (arith, e) in
    let whole : width ≤ bytes = ground (arith, e) in
    let pos : 0 < stride = omega (arith, narrow, some_width) in
    let room = (le-div_iff_mul-le pos).0 last in
    record {
      narrow = narrow;
      inside = λ y x k l.
          let up : y ≤ rows - 1 = omega (arith, k) in
          omega (arith, room, mul-le-mul_right stride up, l, whole);
    }

-- The size of the picture once it is turned.
abbrev pub turned : ℕ → ℕ → ℕ → ℕ
turned rotation a b = if is_sideways rotation then b else a

pub source_at_lem :
    (rotation sw sh rx ry : ℕ)
    → is_rotation rotation ≡ true
    → rx < turned rotation sw sh
    → ry < turned rotation sh sw
    → (sx : ℕ) × (sy : ℕ) × (source_at rotation sw sh rx ry ≡ some (sx, sy)) × (sx < sw) × (sy < sh)
unfolding source_at is_rotation back
source_at_lem rotation sw sh rx ry r h k = elim (Bool-cases (rotation == 90)) [
  | inl q ↦
      let x : rx < sh = ground (arith, h, q) in
      let y : ry < sw = ground (arith, k, q) in
      (ry, sh - 1 - rx, rw (q, lt→ltb rx sh x) refl, y, omega (arith, x))
  | inr q ↦ elim (Bool-cases (rotation == 180)) [
    | inl p ↦
        let x : rx < sw = ground (arith, h, p) in
        let y : ry < sh = ground (arith, k, p) in
        (
          sw - 1 - rx,
          sh - 1 - ry,
          rw (q, p, lt→ltb rx sw x, lt→ltb ry sh y) refl,
          omega (arith, x),
          omega (arith, y),
        )
    | inr p ↦ elim (Bool-cases (rotation == 270)) [
      | inl o ↦
          let x : rx < sh = ground (arith, h, o) in
          let y : ry < sw = ground (arith, k, o) in
          (sw - 1 - ry, rx, rw (q, p, o, lt→ltb ry sw y) refl, omega (arith, y), x)
      | inr o ↦
          let zero_turn : rotation ≡ 0 = ground (arith, r, q, p, o) in
          (rx, ry, rw (q, p, o) refl, ground (arith, h, zero_turn), ground (arith, k, zero_turn))
    ]
  ]
]

-- A source plane of `unit` bytes to a pixel, and the picture that is turned out of it.
pub record IsSource (unit rotation sw sh : ℕ) (f : Fit) (ss : ℕ) (src : Buffer) : Type 0 where
  pub source : IsPlane src.size ss (sw / unit * unit) (sh / unit)
  pub rw : f.rw / unit ≡ turned rotation (sw / unit) (sh / unit)
  pub rh : f.rh / unit ≡ turned rotation (sh / unit) (sw / unit)
  pub some_rw : 0 < f.rw / unit
  pub some_rh : 0 < f.rh / unit

pub get_byte_in :
    (unit rotation sw sh : ℕ) (f : Fit) (ss : ℕ) (src : Buffer)
    → 0 < unit
    → is_rotation rotation ≡ true
    → IsSource unit rotation sw sh f ss src
    → (y k : ℕ) → y < f.fh / unit
    → k < f.fw / unit * unit
    → (v : ℕ) × (get_byte unit rotation sw sh f ss src y k ≡ some v)
unfolding get_byte
get_byte_in unit rotation sw sh f ss src pos r p y k l m =
    let x =
      scale_bound (k / unit) (f.fw / unit) (f.rw / unit) (column_bound unit k _ pos m) p.some_rw in
    let z = scale_bound y (f.fh / unit) (f.rh / unit) l p.some_rh in
    let (sx, sy, e, i, j) =
      source_at_lem rotation (sw / unit) (sh / unit) (k / unit * (f.rw / unit) / (f.fw / unit))
        (y * (f.rh / unit) / (f.fh / unit)) r (omega (arith, x, p.rw)) (omega (arith, z, p.rh)) in
    let col = address_bound unit sx (sw / unit) (k % unit) i (mod-lt k pos) in
    let at : sy * ss + sx * unit + k % unit < src.size =
      omega (arith, p.source.inside sy (sx * unit + k % unit) j col) in
    (
      src.at (sy * ss + sx * unit + k % unit),
      ap (λ o. o >>= λ q. read src (q.1 * ss + q.0 * unit + k % unit)) e
          ∙ read_lem src (sy * ss + sx * unit + k % unit) at,
    )
