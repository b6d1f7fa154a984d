-- ===== src/Nv12Converter/Bgra.antt =====
-- The BGRA conversion of windows/receiver/media/nv12_converter.cpp.
use kmvirtualcamera.Prelude.{
  ℕ, ◌+◌, ◌*◌, ◌/◌, ◌%◌, ◌≤◌, ◌<◌, ◌≡◌, refl, ap, ◌∙◌, false, ◌&&◌, ◌||◌, some, arith, ◌==◌,
  Bool-cases, inl, inr, IsByte,
}
use kmvirtualcamera.Planes.{Buffer, write}
use kmvirtualcamera.Planes.Loops.{for_loop-invariant}
use kmvirtualcamera.Planes.Blit.{read_lem, write_lem, scale_bound}
use kmvirtualcamera.Nv12.{Fit}
use kmvirtualcamera.Nv12.Source.{IsPlane}
use kmvirtualcamera.Nv12Converter.{
  Aspect, IsAspect, aspect_fit, clamp, luma_of, u_of, v_of, bgra_pixel, convert_bgra_to_nv12,
}
use kmvirtualcamera.Nv12Converter.Converted.{
  IsPlaced, IsBlack, aspect_fit-IsPlaced, fill_black_nv12_lem,
}

-- On bytes, the clamping changes nothing: the luma lies between 16 and 235 and both chromas between 16
-- and 240 as they are.
pub clamp_idle :
    (r g b : ℕ)
    → IsByte r
    → IsByte g
    → IsByte b
    → (clamp (luma_of r g b) 16 235 ≡ luma_of r g b)
      × (clamp (u_of r g b) 16 240 ≡ u_of r g b)
      × (clamp (v_of r g b) 16 240 ≡ v_of r g b)
unfolding luma_of u_of v_of
clamp_idle r g b h k l = (ground (arith, h, k, l), ground (arith, h, k, l), ground (arith, h, k, l))

-- Every byte of video range: 16 to 235 in the luma plane, 16 to 240 in the other.
pub record IsVideo (b c : Buffer) : Type 0 where
  pub size : c.size ≡ b.size
  pub luma : (j : ℕ) → j < 921600 → (16 ≤ c.at j) × (c.at j ≤ 235)
  pub chroma : (j : ℕ) → 921600 ≤ j → j < 1382400 → (16 ≤ c.at j) × (c.at j ≤ 240)

IsBlack-IsVideo : (b c : Buffer) → IsBlack b c → IsVideo b c
IsBlack-IsVideo b c i = record {
  size = i.size;
  luma = λ j l. (omega (arith, i.luma j l), omega (arith, i.luma j l));
  chroma = λ j l m. (omega (arith, i.chroma j l m), omega (arith, i.chroma j l m));
}

write_luma :
    (i n : ℕ) (b c : Buffer)
    → 1382400 ≤ b.size
    → IsVideo b c
    → i < 921600
    → (d : Buffer) × (write i (clamp n 16 235) c ≡ some d) × IsVideo b d
write_luma i n b c room v h =
    let (d, e, size, new, old) = write_lem i (clamp n 16 235) c (omega (arith, room, v.size, h)) in
    (
      d,
      e,
      record {
        size = size ∙ v.size;
        luma = λ j l. elim (Bool-cases (j == i)) [
          | inl q ↦
              let same : d.at j ≡ clamp n 16 235 = ap d.at (ground (arith, q)) ∙ new in
              (ground (arith, same), ground (arith, same))
          | inr q ↦
              let same = old j (ground (arith, q)) in
              (omega (arith, same, v.luma j l), omega (arith, same, v.luma j l))
        ];
        chroma = λ j l m.
            let same = old j (λ p. absurd (omega (arith, p, h, l))) in
            (omega (arith, same, v.chroma j l m), omega (arith, same, v.chroma j l m));
      },
    )

write_chroma :
    (i n : ℕ) (b c : Buffer)
    → 1382400 ≤ b.size
    → IsVideo b c
    → 921600 ≤ i
    → i < 1382400
    → (d : Buffer) × (write i (clamp n 16 240) c ≡ some d) × IsVideo b d
write_chroma i n b c room v h k =
    let (d, e, size, new, old) = write_lem i (clamp n 16 240) c (omega (arith, room, v.size, k)) in
    (
      d,
      e,
      record {
        size = size ∙ v.size;
        luma = λ j l.
            let same = old j (λ p. absurd (omega (arith, p, h, l))) in
            (omega (arith, same, v.luma j l), omega (arith, same, v.luma j l));
        chroma = λ j l m. elim (Bool-cases (j == i)) [
          | inl q ↦
              let same : d.at j ≡ clamp n 16 240 = ap d.at (ground (arith, q)) ∙ new in
              (ground (arith, same), ground (arith, same))
          | inr q ↦
              let same = old j (ground (arith, q)) in
              (omega (arith, same, v.chroma j l m), omega (arith, same, v.chroma j l m))
        ];
      },
    )

module _ (src : Buffer) (stride sw sh : ℕ) (f : Fit) (b : Buffer) (some_sw : 0 < sw)
    (some_sh : 0 < sh) (i : IsPlane src.size stride (sw * 4) sh) (p : IsPlaced 1280 720 f)
    (room : 1382400 ≤ b.size) where
  pixel_lem :
      (y x : ℕ) (c : Buffer)
      → y < f.fh
      → x < f.fw
      → IsVideo b c
      → (d : Buffer) × (bgra_pixel src stride sw sh f 1280 720 y x c ≡ some d) × IsVideo b d
  unfolding bgra_pixel
  pixel_lem y x c l m v =
      let row = scale_bound y f.fh sh l some_sh in
      let col = scale_bound x f.fw sw m some_sw in
      let at = y * sh / f.fh * stride + x * sw / f.fw * 4 in
      let uv = 1280 * 720 + (f.oy + y) / 2 * 1280 + (f.ox + x) in
      let inside : at + 2 < src.size =
        omega (arith, i.inside (y * sh / f.fh) (x * sw / f.fw * 4 + 2) row (omega (arith, col))) in
      let n0 = read_lem src at (omega (arith, inside)) in
      let n1 = read_lem src (at + 1) (omega (arith, inside)) in
      let n2 = read_lem src (at + 2) inside in
      let bl = src.at at in
      let gr = src.at (at + 1) in
      let re = src.at (at + 2) in
      let (d, e, w) =
        write_luma ((f.oy + y) * 1280 + f.ox + x) (luma_of re gr bl) b c room v
          (omega (arith, l, m, p.ox, p.oy)) in
      elim (Bool-cases ((y % 2 == 0) && (x % 2 == 0))) [
        | inl q ↦
            let (d', e', w') =
              write_chroma uv (u_of re gr bl) b d room w (omega arith)
                (omega (arith, l, m, p.ox, p.oy, p.even_oy, p.even_height)) in
            let even_x : x % 2 ≡ 0 = ground (arith, q) in
            let (d'', e'', w'') = write_chroma (uv + 1) (v_of re gr bl) b d' room w' (omega arith) (
              omega (
                arith, l, m, p.ox, p.oy, p.even_oy, p.even_height, p.even_ox, p.even_width, even_x,
              )) in
            rw (n0, n1, n2, e, q, e') (d'', e'', w'')
        | inr q ↦ rw (n0, n1, n2, e, q) (d, refl, w)
      ]

-- A picture of at least one pixel, four bytes to each, whose rows are in the source: the conversion into
-- a buffer of 1280 by 720 stays in the buffers, and leaves only bytes of video range, 16 to 235 in the
-- luma plane and 16 to 240 in the chroma plane. The scaled sides are no larger than the sides that they
-- are fitted to.
pub convert_bgra_to_nv12-IsVideo :
    (a : Aspect) (src : Buffer) (sw sh stride : ℕ) (dst : Buffer)
    → IsAspect a 1280 720
    → 0 < sw
    → 0 < sh
    → IsPlane src.size stride (sw * 4) sh
    → 1382400 ≤ dst.size
    → (c : Buffer) × (convert_bgra_to_nv12 a src sw sh stride dst 1280 720 ≡ some c) × IsVideo dst c
unfolding convert_bgra_to_nv12
convert_bgra_to_nv12-IsVideo a src sw sh stride dst law v w i room =
    let some_size : ((sw == 0) || (sh == 0)) ≡ false = ground (arith, v, w) in
    let f = aspect_fit a sw sh 1280 720 in
    let p = aspect_fit-IsPlaced a sw sh 1280 720 law v w in
    let (black, e, b) = fill_black_nv12_lem dst room in
    elim (Bool-cases ((f.fw == 0) || (f.fh == 0))) [
      | inl q ↦ rw (some_size, e, q) (black, refl, IsBlack-IsVideo dst black b)
      | inr q ↦
          rw (some_size, e, q)
            (for_loop-invariant (λ n c. IsVideo dst c) _ f.fh black (IsBlack-IsVideo dst black b)
              (λ y c l ok.
                for_loop-invariant (λ n c. IsVideo dst c) _ f.fw c ok
                  (λ x c m ok. pixel_lem src stride sw sh f dst v w i p room y x c l m ok)))
    ]
