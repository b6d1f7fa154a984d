-- ===== src/Nv12Converter/Converted.antt =====
-- The conversions of windows/receiver/media/nv12_converter.cpp stay in their buffers, and what they
-- leave in the destination.
use kmvirtualcamera.Prelude.{
  ℕ, ◌+◌, ◌*◌, ◌/◌, ◌%◌, ◌≤◌, ◌<◌, ◌≡◌, ◌⊎◌, refl, Bool, true, false, ◌||◌, Option, some, arith,
  leb, ◌==◌, Bool-cases, inl, inr,
}
use native.Mathlib.Nat.{mul_comm}
use kmvirtualcamera.Planes.{Buffer, fill}
use kmvirtualcamera.Planes.Blit.{IsCopy, blit-IsCopy, read_lem, scale_bound}
use kmvirtualcamera.Nv12.{Fit, put_byte}
use kmvirtualcamera.Nv12.Put.{put_bound, put_byte-IsApart}
use kmvirtualcamera.Nv12.Source.{IsPlane}
use kmvirtualcamera.FramePipe.{payload_bytes, fill_black_nv12}
use kmvirtualcamera.Nv12Converter.{
  Aspect, IsAspect, aspect_fit, Plane, half_up, i420_luma, i420_chroma, is_empty_fit, draw_planes,
  draw_on_black, convert_i420_to_nv12,
}

pub record IsBlack (b c : Buffer) : Type 0 where
  pub size : c.size ≡ b.size
  pub luma : (j : ℕ) → j < 921600 → c.at j ≡ 16
  pub chroma : (j : ℕ) → 921600 ≤ j → j < 1382400 → c.at j ≡ 128

pub fill_black_nv12_lem :
    (b : Buffer)
    → 1382400 ≤ b.size
    → (c : Buffer) × (fill_black_nv12 payload_bytes b ≡ some c) × IsBlack b c
unfolding fill_black_nv12 fill
fill_black_nv12_lem b h =
    let one : leb 921600 b.size ≡ true = ground (arith, h) in
    let two : leb 1382400 b.size ≡ true = ground (arith, h) in
    rw (one, two)
      (
        _,
        refl,
        record {
          size = refl;
          luma = λ j l. ground (arith, l);
          chroma = λ j l m. ground (arith, l, m);
        },
      )

-- The fit lies in the destination, at even places.
pub record IsPlaced (dw dh : ℕ) (f : Fit) : Type 0 where
  pub even_width : f.fw % 2 ≡ 0
  pub even_height : f.fh % 2 ≡ 0
  pub even_ox : f.ox % 2 ≡ 0
  pub even_oy : f.oy % 2 ≡ 0
  pub ox : f.ox + f.fw ≤ dw
  pub oy : f.oy + f.fh ≤ dh

pub aspect_fit-IsPlaced :
    (a : Aspect) (sw sh dw dh : ℕ)
    → IsAspect a dw dh
    → 0 < sw
    → 0 < sh
    → IsPlaced dw dh (aspect_fit a sw sh dw dh)
unfolding aspect_fit
aspect_fit-IsPlaced a sw sh dw dh law v w = elim (Bool-cases (a.wider sw sh dw dh)) [
  | inl e ↦
      let most = law.high sw sh v w e in
      rw e (record {
        even_width = omega arith;
        even_height = omega arith;
        even_ox = omega arith;
        even_oy = omega arith;
        ox = omega arith;
        oy = omega (arith, most);
      })
  | inr e ↦
      let most = law.wide sw sh v w e in
      rw e (record {
        even_width = omega arith;
        even_height = omega arith;
        even_ox = omega arith;
        even_oy = omega arith;
        ox = omega (arith, most);
        oy = omega arith;
      })
]

-- What both loops leave: each byte of the picture from its source, the luma first.
pub record IsDrawn (luma chroma : ℕ → ℕ → Option ℕ) (f : Fit) (dw dh : ℕ) (b c : Buffer)
    : Type 0 where
  pub middle : Buffer
  pub luma_done : IsCopy (f.fh / 1) (f.fw / 1 * 1) luma (put_byte 1 f dw) b middle
  pub chroma_done :
      IsCopy (f.fh / 2) (f.fw / 2 * 2) chroma (λ y k. dw * dh + put_byte 2 f dw y k) middle c

pub draw_planes-IsDrawn :
    (luma chroma : ℕ → ℕ → Option ℕ) (f : Fit) (dw dh : ℕ) (b : Buffer)
    → dw * dh + dh / 2 * dw ≤ b.size
    → IsPlaced dw dh f
    → ((y x : ℕ) → y < f.fh / 1 → x < f.fw / 1 * 1 → (v : ℕ) × (luma y x ≡ some v))
    → ((y k : ℕ) → y < f.fh / 2 → k < f.fw / 2 * 2 → (v : ℕ) × (chroma y k ≡ some v))
    → (c : Buffer) × (draw_planes luma chroma f dw dh b ≡ some c) × IsDrawn luma chroma f dw dh b c
unfolding draw_planes
draw_planes-IsDrawn luma chroma f dw dh b room p good_luma good_chroma =
    let wide1 : (f.ox / 1 + f.fw / 1) * 1 ≤ dw = omega (arith, p.ox) in
    let wide2 : (f.ox / 2 + f.fw / 2) * 2 ≤ dw = omega (arith, p.ox, p.even_ox, p.even_width) in
    let high1 : f.oy / 1 + f.fh / 1 ≤ dh = omega (arith, p.oy) in
    let high2 : f.oy / 2 + f.fh / 2 ≤ dh / 2 = omega (arith, p.oy, p.even_oy, p.even_height) in
    let (m, e, i) =
      blit-IsCopy (f.fh / 1) (f.fw / 1 * 1) luma (put_byte 1 f dw) b
        (λ y x k l. (
          good_luma y x k l,
          omega
              (arith, put_bound 1 f dw (omega arith) wide1 dh y x high1 k l, room, mul_comm dw dh),
        ))
        (put_byte-IsApart 1 f dw (omega arith) wide1) in
    let (c, g, j) =
      blit-IsCopy (f.fh / 2) (f.fw / 2 * 2) chroma (λ y k. dw * dh + put_byte 2 f dw y k) m
        (λ y x k l. (
          good_chroma y x k l,
          omega (arith, put_bound 2 f dw (omega arith) wide2 (dh / 2) y x high2 k l, room, i.0),
        ))
        (λ y k y' k' l n l' n' q.
          put_byte-IsApart 2 f dw (omega arith) wide2 y k y' k' l n l' n' (omega (arith, q))) in
    (c, rw e g, record { middle = m; luma_done = i; chroma_done = j })

-- Black, and on it the picture, unless its fit is empty.
pub record IsConverted (empty : Bool) (luma chroma : ℕ → ℕ → Option ℕ) (f : Fit) (dw dh : ℕ)
    (b c : Buffer) : Type 0 where
  pub black : Buffer
  pub is_black : IsBlack b black
  pub drawn : ((empty ≡ true) × (c ≡ black)) ⊎ IsDrawn luma chroma f dw dh black c

pub draw_on_black-IsConverted :
    (empty : Bool) (luma chroma : ℕ → ℕ → Option ℕ) (f : Fit) (b : Buffer)
    → 1382400 ≤ b.size
    → IsPlaced 1280 720 f
    → ((y x : ℕ) → y < f.fh / 1 → x < f.fw / 1 * 1 → (v : ℕ) × (luma y x ≡ some v))
    → ((y k : ℕ) → y < f.fh / 2 → k < f.fw / 2 * 2 → (v : ℕ) × (chroma y k ≡ some v))
    → (c : Buffer) × (draw_on_black empty luma chroma f 1280 720 b ≡ some c)
      × IsConverted empty luma chroma f 1280 720 b c
unfolding draw_on_black
draw_on_black-IsConverted true luma chroma f b room p good_luma good_chroma =
    let (black, e, i) = fill_black_nv12_lem b room in
    (black, rw e refl, record { black = black; is_black = i; drawn = inl (refl, refl) })
draw_on_black-IsConverted false luma chroma f b room p good_luma good_chroma =
    let (black, e, i) = fill_black_nv12_lem b room in
    let (c, g, j) =
      draw_planes-IsDrawn luma chroma f 1280 720 black (omega (arith, room, i.size)) p good_luma
        good_chroma in
    (c, rw e g, record { black = black; is_black = i; drawn = inr j })

module _ (sw sh : ℕ) (f : Fit) (some_sw : 0 < sw) (some_sh : 0 < sh) where
  i420_luma_in :
      (p : Plane)
      → IsPlane p.bytes.size p.stride sw sh
      → (y x : ℕ) → y < f.fh / 1
      → x < f.fw / 1 * 1
      → (v : ℕ) × (i420_luma p sw sh f y x ≡ some v)
  unfolding i420_luma
  i420_luma_in p i y x l m = (
    _,
    read_lem p.bytes (y * sh / f.fh * p.stride + x * sw / f.fw) (
        i.inside (y * sh / f.fh) (x * sw / f.fw) (scale_bound y f.fh sh (omega (arith, l)) some_sh)
          (scale_bound x f.fw sw (omega (arith, m)) some_sw)),
  )

  i420_chroma_in :
      (u v : Plane)
      → IsPlane u.bytes.size u.stride (half_up sw) (half_up sh)
      → IsPlane v.bytes.size v.stride (half_up sw) (half_up sh)
      → (y k : ℕ) → y < f.fh / 2
      → k < f.fw / 2 * 2
      → (n : ℕ) × (i420_chroma u v sw sh f y k ≡ some n)
  unfolding i420_chroma
  i420_chroma_in u v i j y k l m =
      let row = scale_bound y (f.fh / 2) (half_up sh) l (omega (arith, some_sh)) in
      let col =
        scale_bound (k / 2) (f.fw / 2) (half_up sw) (omega (arith, m)) (omega (arith, some_sw)) in
      elim (Bool-cases (k % 2 == 0)) [
        | inl e ↦ rw e (_, read_lem u.bytes _ (i.inside _ _ row col))
        | inr e ↦ rw e (_, read_lem v.bytes _ (j.inside _ _ row col))
      ]

-- A picture of at least one pixel, whose planes hold the rows of its size and of half its size rounded
-- up: the conversion into a buffer of 1280 by 720 stays in its buffers and leaves black in both planes
-- and on it, unless the fit is empty, the sampled bytes of the source, exactly where the fit puts them.
-- The scaled sides are no larger than the sides that they are fitted to.
pub convert_i420_to_nv12-IsConverted :
    (a : Aspect) (y u v : Plane) (sw sh : ℕ) (dst : Buffer)
    → IsAspect a 1280 720
    → 0 < sw
    → 0 < sh
    → IsPlane y.bytes.size y.stride sw sh
    → IsPlane u.bytes.size u.stride (half_up sw) (half_up sh)
    → IsPlane v.bytes.size v.stride (half_up sw) (half_up sh)
    → 1382400 ≤ dst.size
    → (let f = aspect_fit a sw sh 1280 720 in
        (c : Buffer) × (convert_i420_to_nv12 a y u v sw sh dst 1280 720 ≡ some c)
        × IsConverted
            (is_empty_fit f)
            (i420_luma y sw sh f)
            (i420_chroma u v sw sh f)
            f
            1280
            720
            dst
            c)
unfolding convert_i420_to_nv12
convert_i420_to_nv12-IsConverted a y u v sw sh dst law sw' sh' i j k room =
    let f = aspect_fit a sw sh 1280 720 in
    let go : ((sw == 0) || (sh == 0)) ≡ false = ground (arith, sw', sh') in
    rw go (
      draw_on_black-IsConverted (is_empty_fit f) (i420_luma y sw sh f) (i420_chroma u v sw sh f) f
        dst room (aspect_fit-IsPlaced a sw sh 1280 720 law sw' sh')
        (i420_luma_in sw sh f sw' sh' y i) (i420_chroma_in sw sh f sw' sh' u v j k))
