-- ===== src/Nv12/Put.antt =====
-- Where the letterbox of shared/km/nv12.h writes in a plane.
use kmvirtualcamera.Prelude.{ℕ, ◌+◌, ◌*◌, ◌/◌, ◌%◌, ◌≤◌, ◌<◌, ◌≡◌, sym, ap₂, ◌∙◌, arith}
use native.Mathlib.Nat.{div-lt_iff_lt-mul, mod-lt, div-add-mod'}
use kmvirtualcamera.Planes.Blit.{IsApart, address_apart, address_bound}
use kmvirtualcamera.Nv12.{Fit, put_byte}

-- Column `k` of a row of pixels of `unit` bytes.
pub column_bound : (unit k n : ℕ) → 0 < unit → k < n * unit → k / unit < n
column_bound unit k n p h = (div-lt_iff_lt-mul p).1 h

module _ (unit : ℕ) (f : Fit) (pos : 0 < unit) where
  pub column_inside :
      (k : ℕ)
      → k < f.fw / unit * unit
      → (f.ox / unit + k / unit) * unit + k % unit < (f.ox / unit + f.fw / unit) * unit
  column_inside k m =
      let n = column_bound unit k (f.fw / unit) pos m in
      address_bound unit (f.ox / unit + k / unit) (f.ox / unit + f.fw / unit) (k % unit)
        (omega (arith, n)) (mod-lt k pos)

module _ (unit : ℕ) (f : Fit) (ds : ℕ) (pos : 0 < unit)
    (wide : (f.ox / unit + f.fw / unit) * unit ≤ ds) where
  pub put_bound :
      (dh y k : ℕ)
      → f.oy / unit + f.fh / unit ≤ dh
      → y < f.fh / unit
      → k < f.fw / unit * unit
      → put_byte unit f ds y k < dh * ds
  unfolding put_byte
  put_bound dh y k h l m =
      let col = column_inside unit f pos k m in
      omega (
        arith,
        address_bound ds (f.oy / unit + y) dh ((f.ox / unit + k / unit) * unit + k % unit)
            (omega (arith, h, l)) (omega (arith, col, wide)),
      )

  pub put_byte-IsApart : IsApart (f.fh / unit) (f.fw / unit * unit) (put_byte unit f ds)
  unfolding put_byte
  put_byte-IsApart y k y' k' l m l' m' e =
      let (rows, columns) =
        address_apart ds (f.oy / unit + y) ((f.ox / unit + k / unit) * unit + k % unit)
          (f.oy / unit + y') ((f.ox / unit + k' / unit) * unit + k' % unit)
          (omega (arith, column_inside unit f pos k m, wide))
          (omega (arith, column_inside unit f pos k' m', wide)) (omega (arith, e)) in
      let (pixels, bytes) =
        address_apart unit (f.ox / unit + k / unit) (k % unit) (f.ox / unit + k' / unit) (k' % unit)
          (mod-lt k pos) (mod-lt k' pos) columns in
      let same : k / unit ≡ k' / unit = omega (arith, pixels) in
      (
        omega (arith, rows),
        sym (div-add-mod' k unit) ∙ ap₂ (λ q c. q * unit + c) same bytes ∙ div-add-mod' k' unit,
      )
