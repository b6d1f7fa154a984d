-- ===== src/Nv12/Letterbox.antt =====
-- The letterbox of shared/km/nv12.h: its accesses, and the bytes it leaves.
use kmvirtualcamera.Prelude.{
  ℕ, ◌+◌, ◌*◌, ◌/◌, ◌%◌, ◌≤◌, ◌<◌, ◌≡◌, ◌⊎◌, refl, sym, true, false, not, ◌||◌, some, arith, ltb,
  Bool-cases, inl, inr, ltb→lt,
}
use native.Mathlib.Nat.{div-le_of_le-mul, mul_comm}
use mathlib.Core.Path.{subst}
use kmvirtualcamera.Planes.{Buffer}
use kmvirtualcamera.Planes.Blit.{IsBlit, blit_lem, address_apart, blit-IsCopy, IsCopy}
use kmvirtualcamera.Nv12.Source.{IsPlane, plane_fits-IsPlane, turned, IsSource, get_byte_in}
use kmvirtualcamera.Nv12.Put.{column_inside, put_byte-IsApart}
use kmvirtualcamera.Nv12.{
  View, plane_fits, valid_nv12, fill_rows, fill_planes, fill_black, Fit, fit_into, fit, get_byte,
  put_byte, copy_plane, is_rotation, copy_planes, draw, letterbox,
}

pub record IsValid (v : View) : Type 0 where
  pub wide : 0 < v.width
  pub high : 0 < v.height
  pub even_width : v.width % 2 ≡ 0
  pub even_height : v.height % 2 ≡ 0
  pub luma : IsPlane v.y.size v.stride_y v.width v.height
  pub chroma : IsPlane v.uv.size v.stride_uv v.width (v.height / 2)

pub valid_nv12-IsValid : (v : View) → valid_nv12 v ≡ true → IsValid v
unfolding valid_nv12
valid_nv12-IsValid v e =
    let luma : plane_fits v.y.size v.stride_y v.width v.height ≡ true = ground (arith, e) in
    let chroma : plane_fits v.uv.size v.stride_uv v.width (v.height / 2) ≡ true =
      ground (arith, e) in
    record {
      wide = ground (arith, e);
      high = ground (arith, e);
      even_width = ground (arith, e);
      even_height = ground (arith, e);
      luma = plane_fits-IsPlane v.y.size v.stride_y v.width v.height luma;
      chroma = plane_fits-IsPlane v.uv.size v.stride_uv v.width (v.height / 2) chroma;
    }

pub fill_rows_lem :
    (v h w stride : ℕ) (b : Buffer)
    → IsPlane b.size stride w h
    → (c : Buffer) × (fill_rows v h w stride b ≡ some c)
      × IsBlit h w (λ y x. y * stride + x) (λ y x. v) b c
unfolding fill_rows
fill_rows_lem v h w stride b p =
    blit_lem h w (λ y x. some v) (λ y x. y * stride + x) (λ y x. v) b
      (λ y x k l. (refl, p.inside y x k l))
      (λ y x y' x' k l k' l' e.
        address_apart stride y x y' x' (omega (arith, l, p.narrow)) (omega (arith, l', p.narrow)) e)

-- The picture turned fits into the destination.
pub record IsFit (pw ph dw dh : ℕ) (f : Fit) : Type 0 where
  pub rw : f.rw ≡ pw
  pub rh : f.rh ≡ ph
  pub even_width : f.fw % 2 ≡ 0
  pub even_height : f.fh % 2 ≡ 0
  pub ox : f.ox + f.fw ≤ dw
  pub oy : f.oy + f.fh ≤ dh
  pub even_ox : f.ox % 2 ≡ 0
  pub even_oy : f.oy % 2 ≡ 0

fit_into-IsFit :
    (rw' rh' dw dh : ℕ) → dw % 2 ≡ 0 → dh % 2 ≡ 0 → IsFit rw' rh' dw dh (fit_into rw' rh' dw dh)
unfolding fit_into
fit_into-IsFit rw' rh' dw dh v w = elim (Bool-cases (ltb (rh' * dw) (rw' * dh))) [
  | inl e ↦
      let less : rh' * dw < rw' * dh = ltb→lt _ _ e in
      let most : dw * rh' / rw' ≤ dh =
        div-le_of_le-mul rw' (omega (arith, less, mul_comm dw rh')) in
      rw e (record {
        rw = refl;
        rh = refl;
        even_width = v;
        even_height = omega arith;
        ox = omega arith;
        oy = omega (arith, most);
        even_ox = omega arith;
        even_oy = omega arith;
      })
  | inr e ↦
      let less : rw' * dh ≤ rh' * dw = ground (arith, e) in
      let most : dh * rw' / rh' ≤ dw =
        div-le_of_le-mul rh' (omega (arith, less, mul_comm dh rw')) in
      rw e (record {
        rw = refl;
        rh = refl;
        even_width = omega arith;
        even_height = w;
        ox = omega (arith, most);
        oy = omega arith;
        even_ox = omega arith;
        even_oy = omega arith;
      })
]

-- The source and the destination of one plane.
pub record IsPlanes (unit rotation : ℕ) (s : View) (f : Fit) (ss ds dw dh : ℕ) (src dst : Buffer)
    : Type 0 where
  pub source : IsSource unit rotation s.width s.height f ss src
  pub target : IsPlane dst.size ds dw dh
  pub ox : (f.ox / unit + f.fw / unit) * unit ≤ dw
  pub oy : f.oy / unit + f.fh / unit ≤ dh

module _ (unit rotation : ℕ) (s : View) (f : Fit) (ss ds dw dh : ℕ) (src dst : Buffer)
    (pos : 0 < unit) (r : is_rotation rotation ≡ true)
    (p : IsPlanes unit rotation s f ss ds dw dh src dst) where
  column_in : (k : ℕ) → k < f.fw / unit * unit → (f.ox / unit + k / unit) * unit + k % unit < dw
  column_in k m = omega (arith, column_inside unit f pos k m, p.ox)

  put_in : (y k : ℕ) → y < f.fh / unit → k < f.fw / unit * unit → put_byte unit f ds y k < dst.size
  unfolding put_byte
  put_in y k l m = omega (
    arith,
    p.target.inside (f.oy / unit + y) ((f.ox / unit + k / unit) * unit + k % unit)
        (omega (arith, l, p.oy)) (column_in k m),
  )

  wide : (f.ox / unit + f.fw / unit) * unit ≤ ds
  wide = omega (arith, p.ox, p.target.narrow)

  pub copy_plane-IsCopy :
      (c : Buffer) × (copy_plane unit rotation s f ss ds src dst ≡ some c)
      × IsCopy
          (f.fh / unit)
          (f.fw / unit * unit)
          (get_byte unit rotation s.width s.height f ss src)
          (put_byte unit f ds)
          dst
          c
  unfolding copy_plane
  copy_plane-IsCopy =
      blit-IsCopy (f.fh / unit) (f.fw / unit * unit)
        (get_byte unit rotation s.width s.height f ss src) (put_byte unit f ds) dst
        (λ y k l m. (
          get_byte_in unit rotation s.width s.height f ss src pos r p.source y k l m,
          put_in y k l m,
        ))
        (put_byte-IsApart unit f ds pos wide)

-- The planes of two valid views, once the fit is large enough.
fit-IsPlanes :
    (s d : View) (rotation : ℕ)
    → IsValid s
    → IsValid d
    → is_rotation rotation ≡ true
    → (let f = fit s d rotation in
        IsPlanes 1 rotation s f s.stride_y d.stride_y d.width d.height s.y d.y
        × IsPlanes 2 rotation s f s.stride_uv d.stride_uv d.width (d.height / 2) s.uv d.uv)
unfolding fit
fit-IsPlanes s d rotation v w r =
    let a = turned rotation s.width s.height in
    let b = turned rotation s.height s.width in
    let i = fit_into-IsFit a b d.width d.height w.even_width w.even_height in
    (
      record {
        source = record {
          source = record {
            narrow = omega (arith, v.luma.narrow, v.even_width);
            inside =
                λ y x k l. v.luma.inside y x (omega (arith, k)) (omega (arith, l, v.even_width));
          };
          rw = ground (arith, i.rw);
          rh = ground (arith, i.rh);
          some_rw = ground (arith, i.rw, v.wide, v.high, v.even_width, v.even_height);
          some_rh = ground (arith, i.rh, v.wide, v.high, v.even_width, v.even_height);
        };
        target = w.luma;
        ox = omega (arith, i.ox, i.even_ox, i.even_width);
        oy = omega (arith, i.oy, i.even_oy, i.even_height, w.even_height);
      },
      record {
        source = record {
          source = record {
            narrow = omega (arith, v.chroma.narrow, v.even_width);
            inside =
                λ y x k l. v.chroma.inside y x (omega (arith, k)) (omega (arith, l, v.even_width));
          };
          rw = ground (arith, i.rw);
          rh = ground (arith, i.rh);
          some_rw = ground (arith, i.rw, v.wide, v.high, v.even_width, v.even_height);
          some_rh = ground (arith, i.rh, v.wide, v.high, v.even_width, v.even_height);
        };
        target = w.chroma;
        ox = omega (arith, i.ox, i.even_ox, i.even_width);
        oy = omega (arith, i.oy, i.even_oy, i.even_height, w.even_height);
      },
    )

-- The whole operation: what it answers, and what it leaves in a destination of which it accepts the size.
pub record IsLetterbox (s d : View) (rotation : ℕ) (e : View) : Type 0 where
  pub black : View
  pub filled : fill_black d ≡ some (true, black)
  pub black_luma : IsBlit d.height d.width (λ y x. y * d.stride_y + x) (λ y x. 16) d.y black.y
  pub black_chroma :
      IsBlit (d.height / 2) d.width (λ y x. y * d.stride_uv + x) (λ y x. 128) d.uv black.uv
  pub luma :
      IsCopy
        ((fit s d rotation).fh / 1)
        ((fit s d rotation).fw / 1 * 1)
        (get_byte 1 rotation s.width s.height (fit s d rotation) s.stride_y s.y)
        (put_byte 1 (fit s d rotation) d.stride_y)
        black.y
        e.y
  pub chroma :
      IsCopy
        ((fit s d rotation).fh / 2)
        ((fit s d rotation).fw / 2 * 2)
        (get_byte 2 rotation s.width s.height (fit s d rotation) s.stride_uv s.uv)
        (put_byte 2 (fit s d rotation) d.stride_uv)
        black.uv
        e.uv

pub fill_planes_lem :
    (d : View)
    → IsValid d
    → (luma : Buffer) × (chroma : Buffer) × (fill_planes d
        ≡ some (record d { y = luma; uv = chroma }))
      × IsBlit d.height d.width (λ y x. y * d.stride_y + x) (λ y x. 16) d.y luma
      × IsBlit (d.height / 2) d.width (λ y x. y * d.stride_uv + x) (λ y x. 128) d.uv chroma
unfolding fill_planes
fill_planes_lem d w =
    let (luma, e, p) = fill_rows_lem 16 d.height d.width d.stride_y d.y w.luma in
    let (chroma, g, q) = fill_rows_lem 128 (d.height / 2) d.width d.stride_uv d.uv w.chroma in
    (luma, chroma, rw (e, g) refl, p, q)

module _ (s d : View) (rotation : ℕ) (v : IsValid s) (w : IsValid d)
    (r : is_rotation rotation ≡ true) where
  black-IsValid :
      (luma chroma : Buffer)
      → luma.size ≡ d.y.size
      → chroma.size ≡ d.uv.size
      → IsValid (record d { y = luma; uv = chroma })
  black-IsValid luma chroma p q = record {
    wide = w.wide;
    high = w.high;
    even_width = w.even_width;
    even_height = w.even_height;
    luma = subst (λ n. IsPlane n d.stride_y d.width d.height) (sym p) w.luma;
    chroma = subst (λ n. IsPlane n d.stride_uv d.width (d.height / 2)) (sym q) w.chroma;
  }

  draw_lem :
      valid_nv12 d ≡ true
      → (e : View) × (draw s d (fit s d rotation) rotation ≡ some (true, e))
        × IsLetterbox s d rotation e
  unfolding draw fill_black copy_planes fit
  draw_lem ok =
      let (luma, chroma, e, bl, bc) = fill_planes_lem d w in
      let p = bl.0 in
      let q = bc.0 in
      let black = record d { y = luma; uv = chroma } in
      let f = fit s d rotation in
      let (x, y) = fit-IsPlanes s black rotation v (black-IsValid luma chroma p q) r in
      let (luma', g, i) =
        copy_plane-IsCopy 1 rotation s f s.stride_y d.stride_y d.width d.height s.y luma
          (omega arith) r x in
      let (chroma', h, j) =
        copy_plane-IsCopy 2 rotation s f s.stride_uv d.stride_uv d.width (d.height / 2) s.uv chroma
          (omega arith) r y in
      (
        record d { y = luma'; uv = chroma' },
        rw (ok, e, g, h) refl,
        record {
          black = black;
          filled = rw (ok, e) refl;
          black_luma = bl;
          black_chroma = bc;
          luma = i;
          chroma = j;
        },
      )

pub letterbox_lem :
    (s d : View) (rotation : ℕ)
    → (letterbox s d rotation ≡ some (false, d))
      ⊎ ((e : View) × (letterbox s d rotation ≡ some (true, e)) × IsLetterbox s d rotation e)
unfolding letterbox
letterbox_lem s d rotation =
    elim (Bool-cases (not (valid_nv12 s) || not (valid_nv12 d) || not (is_rotation rotation))) [
      | inl q ↦ rw q (inl refl)
      | inr q ↦ elim (Bool-cases (ltb (fit s d rotation).fw 2 || ltb (fit s d rotation).fh 2)) [
        | inl l ↦ rw (q, l) (inl refl)
        | inr l ↦
            let a : valid_nv12 s ≡ true = ground (arith, q) in
            let b : valid_nv12 d ≡ true = ground (arith, q) in
            let c : is_rotation rotation ≡ true = ground (arith, q) in
            rw (q, l)
              (inr (draw_lem s d rotation (valid_nv12-IsValid s a) (valid_nv12-IsValid d b) c b))
      ]
    ]
