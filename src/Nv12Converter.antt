-- ===== src/Nv12Converter.antt =====
-- windows/receiver/media/nv12_converter.cpp: pictures converted into an NV12 buffer, fitted by their
-- aspect ratio. The floating-point arithmetic of the fit is a parameter. The products of coordinates
-- are taken to fit an int, and null pointers are left out. `none` is an access out of bounds.
pub mod Turned
pub mod Converted
pub mod Rotated
pub mod Bgra
mod Tests
use kmvirtualcamera.Prelude.{
  ℕ, zero, suc, ◌+◌, ◌-◌, ◌*◌, ◌/◌, ◌%◌, ◌≤◌, ◌<◌, ◌≡◌, Bool, true, false, not, ◌&&◌, ◌||◌, Option,
  none, some, ltb, leb, ◌==◌, if◌then◌else◌, ◌>>=◌, min, max,
}
use kmvirtualcamera.Planes.{Buffer, read, write, for_loop, blit, advance, copy_bytes}
use kmvirtualcamera.Nv12.{View, Fit, even, source_at, put_byte}
use kmvirtualcamera.FramePipe.{payload_bytes, fill_black_nv12}

-- For a source of sw by sh and a destination of dw by dh: whether the source is the wider one, the
-- height of dw divided by its aspect ratio, and the width of dh times it.
pub record Aspect : Type 0 where
  pub wider : ℕ → ℕ → ℕ → ℕ → Bool
  pub scaled_height : ℕ → ℕ → ℕ → ℕ → ℕ
  pub scaled_width : ℕ → ℕ → ℕ → ℕ → ℕ

-- For a destination of dw by dh: the quotients are no larger than the side they are fitted to.
pub record IsAspect (a : Aspect) (dw dh : ℕ) : Type 0 where
  pub high :
      (sw sh : ℕ) → 0 < sw → 0 < sh → a.wider sw sh dw dh ≡ true → a.scaled_height sw sh dw dh ≤ dh
  pub wide :
      (sw sh : ℕ) → 0 < sw → 0 < sh → a.wider sw sh dw dh ≡ false → a.scaled_width sw sh dw dh ≤ dw

unfoldable pub aspect_fit : Aspect → ℕ → ℕ → ℕ → ℕ → Fit
aspect_fit a sw sh dw dh =
    let wider = a.wider sw sh dw dh in
    let fw = even (if wider then dw else a.scaled_width sw sh dw dh) in
    let fh = even (if wider then a.scaled_height sw sh dw dh else dh) in
    record { rw = sw; rh = sh; fw = fw; fh = fh; ox = (dw - fw) / 4 * 2; oy = (dh - fh) / 4 * 2 }

-- A plane of I420: its bytes and its stride.
pub record Plane : Type 0 where
  pub bytes : Buffer
  pub stride : ℕ

abbrev pub half_up : ℕ → ℕ
half_up n = (n + 1) / 2

unfoldable pub i420_luma : Plane → ℕ → ℕ → Fit → ℕ → ℕ → Option ℕ
i420_luma p sw sh f y x = read p.bytes (y * sh / f.fh * p.stride + x * sw / f.fw)

-- U in the even columns, V in the odd ones.
unfoldable pub i420_chroma : Plane → Plane → ℕ → ℕ → Fit → ℕ → ℕ → Option ℕ
i420_chroma u v sw sh f y k =
    let p = if k % 2 == 0 then u else v in
    read p.bytes (y * half_up sh / (f.fh / 2) * p.stride + k / 2 * half_up sw / (f.fw / 2))

-- Both planes of the picture, each byte where the fit puts it.
unfoldable pub draw_planes :
    (ℕ → ℕ → Option ℕ) → (ℕ → ℕ → Option ℕ) → Fit → ℕ → ℕ → Buffer → Option Buffer
draw_planes luma chroma f dw dh dst =
    blit (f.fh / 1) (f.fw / 1 * 1) luma (put_byte 1 f dw) dst
    >>= blit (f.fh / 2) (f.fw / 2 * 2) chroma (λ y k. dw * dh + put_byte 2 f dw y k)

-- The picture on black, unless the fit is empty.
unfoldable pub draw_on_black :
    Bool → (ℕ → ℕ → Option ℕ) → (ℕ → ℕ → Option ℕ) → Fit → ℕ → ℕ → Buffer → Option Buffer
draw_on_black empty luma chroma f dw dh dst = do
  black ← fill_black_nv12 payload_bytes dst
  if empty then some black else draw_planes luma chroma f dw dh black

abbrev pub is_empty_fit : Fit → Bool
is_empty_fit f = (f.fw == 0) || (f.fh == 0)

unfoldable pub convert_i420_to_nv12 :
    Aspect → Plane → Plane → Plane → ℕ → ℕ → Buffer → ℕ → ℕ → Option Buffer
convert_i420_to_nv12 a y u v sw sh dst dw dh =
    let f = aspect_fit a sw sh dw dh in
    if sw == 0 || sh == 0
    then some dst
    else draw_on_black (is_empty_fit f) (i420_luma y sw sh f) (i420_chroma u v sw sh f) f dw dh dst

-- std::clamp
abbrev pub clamp : ℕ → ℕ → ℕ → ℕ
clamp n low high = if ltb n low then low else if ltb high n then high else n

-- BT.601. The shift of a negative sum rounds down, so the 128 behind it is added before it, as 128 * 256.
unfoldable pub luma_of : ℕ → ℕ → ℕ → ℕ
luma_of r g b = (66 * r + 129 * g + 25 * b + 128) / 256 + 16

unfoldable pub u_of : ℕ → ℕ → ℕ → ℕ
u_of r g b = (112 * b + 128 + 128 * 256 - 38 * r - 74 * g) / 256

unfoldable pub v_of : ℕ → ℕ → ℕ → ℕ
v_of r g b = (112 * r + 128 + 128 * 256 - 94 * g - 18 * b) / 256

-- The body of the loop over the columns.
unfoldable pub bgra_pixel : Buffer → ℕ → ℕ → ℕ → Fit → ℕ → ℕ → ℕ → ℕ → Buffer → Option Buffer
bgra_pixel src stride sw sh f dw dh y x dst =
    let at = y * sh / f.fh * stride + x * sw / f.fw * 4 in
    let uv = dw * dh + (f.oy + y) / 2 * dw + (f.ox + x) in
    do
      b ← read src at
      g ← read src (at + 1)
      r ← read src (at + 2)
      d ← write ((f.oy + y) * dw + f.ox + x) (clamp (luma_of r g b) 16 235) dst
      if (y % 2 == 0) && (x % 2 == 0)
          then (write uv (clamp (u_of r g b) 16 240) d
              >>= write (uv + 1) (clamp (v_of r g b) 16 240))
          else some d

unfoldable pub convert_bgra_to_nv12 : Aspect → Buffer → ℕ → ℕ → ℕ → Buffer → ℕ → ℕ → Option Buffer
convert_bgra_to_nv12 a src sw sh stride dst dw dh =
    let f = aspect_fit a sw sh dw dh in
    if sw == 0 || sh == 0 then some dst else do
      black ← fill_black_nv12 payload_bytes dst
      if f.fw == 0 || f.fh == 0
          then some black
          else for_loop f.fh (λ y. for_loop f.fw (λ x. bgra_pixel src stride sw sh f dw dh y x))
              black
