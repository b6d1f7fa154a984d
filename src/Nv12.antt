-- ===== src/Nv12.antt =====
-- shared/km/nv12.h: views of a picture in two planes, black, and the letterbox. A width or a height is
-- an int that counts: one below 0 stands here as 0, which the same tests refuse. The outer `none` of
-- an operation is an access out of bounds.
pub mod Put
pub mod Source
pub mod Letterbox
mod Tests
use kmvirtualcamera.Prelude.{
  ℕ, zero, suc, ◌+◌, ◌-◌, ◌*◌, ◌/◌, ◌%◌, Bool, true, false, not, ◌&&◌, ◌||◌, Option, none, some,
  ltb, leb, ◌==◌, if◌then◌else◌, ◌>>=◌,
}
use kmvirtualcamera.Planes.{Buffer, read, back, blit}

pub record View : Type 0 where
  pub y : Buffer
  pub uv : Buffer
  pub stride_y : ℕ
  pub stride_uv : ℕ
  pub width : ℕ
  pub height : ℕ

unfoldable pub plane_fits : ℕ → ℕ → ℕ → ℕ → Bool
plane_fits bytes stride width rows =
    if width == 0 || rows == 0 || ltb stride width || ltb bytes width
    then false
    else leb (rows - 1) ((bytes - width) / stride)

unfoldable pub valid_nv12 : View → Bool
valid_nv12 v =
    ltb 0 v.width
    && ltb 0 v.height
    && leb v.width 8192
    && leb v.height 8192
    && (v.width % 2 == 0)
    && (v.height % 2 == 0)
    && plane_fits v.y.size v.stride_y v.width v.height
    && plane_fits v.uv.size v.stride_uv v.width (v.height / 2)

-- The rows of fill_n.
unfoldable pub fill_rows : ℕ → ℕ → ℕ → ℕ → Buffer → Option Buffer
fill_rows v h w stride b = blit h w (λ y x. some v) (λ y x. y * stride + x) b

unfoldable pub fill_planes : View → Option View
fill_planes d = do
  luma ← fill_rows 16 d.height d.width d.stride_y d.y
  chroma ← fill_rows 128 (d.height / 2) d.width d.stride_uv d.uv
  some (record d { y = luma; uv = chroma })

unfoldable pub fill_black : View → Option (Bool × View)
fill_black d = if not (valid_nv12 d) then some (false, d) else fill_planes d >>= λ e. some (true, e)

-- n & ~1
abbrev pub even : ℕ → ℕ
even n = n / 2 * 2

abbrev pub is_sideways : ℕ → Bool
is_sideways rotation = not (rotation % 180 == 0)

-- The picture turned (rw, rh), its size in the destination (fw, fh) and its corner there (ox, oy).
pub record Fit : Type 0 where
  pub rw : ℕ
  pub rh : ℕ
  pub fw : ℕ
  pub fh : ℕ
  pub ox : ℕ
  pub oy : ℕ

-- For a turned picture of rw by rh and a destination of dw by dh.
unfoldable pub fit_into : ℕ → ℕ → ℕ → ℕ → Fit
fit_into rw rh dw dh =
    let wide = ltb (rh * dw) (rw * dh) in
    let fw = if wide then dw else even (dh * rw / rh) in
    let fh = if wide then even (dw * rh / rw) else dh in
    record {
      rw = rw;
      rh = rh;
      fw = fw;
      fh = fh;
      ox = even ((dw - fw) / 2);
      oy = even ((dh - fh) / 2);
    }

unfoldable pub fit : View → View → ℕ → Fit
fit s d rotation =
    let rw = if is_sideways rotation then s.height else s.width in
    let rh = if is_sideways rotation then s.width else s.height in fit_into rw rh d.width d.height

-- Where the pixel (rx, ry) of the turned picture stands in the source of sw by sh pixels.
unfoldable pub source_at : ℕ → ℕ → ℕ → ℕ → ℕ → Option (ℕ × ℕ)
source_at rotation sw sh rx ry =
    if rotation == 90
    then (back sh rx >>= λ sy. some (ry, sy))
    else if rotation == 180
    then (back sw rx >>= λ sx. back sh ry >>= λ sy. some (sx, sy))
    else if rotation == 270
    then (back sw ry >>= λ sx. some (sx, rx))
    else some (rx, ry)

-- The byte that goes to column `k` of row `y` of the picture. A pixel has `unit` bytes in the plane, and
-- the loops over its columns and over the bytes of each are one here.
unfoldable pub get_byte : ℕ → ℕ → ℕ → ℕ → Fit → ℕ → Buffer → ℕ → ℕ → Option ℕ
get_byte unit rotation sw sh f stride src y k = do
  (sx, sy) ←
      source_at rotation (sw / unit) (sh / unit) (k / unit * (f.rw / unit) / (f.fw / unit))
        (y * (f.rh / unit) / (f.fh / unit))
  read src (sy * stride + sx * unit + k % unit)

unfoldable pub put_byte : ℕ → Fit → ℕ → ℕ → ℕ → ℕ
put_byte unit f stride y k = (f.oy / unit + y) * stride + (f.ox / unit + k / unit) * unit + k % unit

unfoldable pub copy_plane : ℕ → ℕ → View → Fit → ℕ → ℕ → Buffer → Buffer → Option Buffer
copy_plane unit rotation s f ss ds src dst =
    blit (f.fh / unit) (f.fw / unit * unit) (get_byte unit rotation s.width s.height f ss src)
      (put_byte unit f ds) dst

unfoldable pub is_rotation : ℕ → Bool
is_rotation r = (r == 0) || (r == 90) || (r == 180) || (r == 270)

unfoldable pub copy_planes : View → View → Fit → ℕ → Option View
copy_planes s d f rotation = do
  luma ← copy_plane 1 rotation s f s.stride_y d.stride_y s.y d.y
  chroma ← copy_plane 2 rotation s f s.stride_uv d.stride_uv s.uv d.uv
  some (record d { y = luma; uv = chroma })

unfoldable pub draw : View → View → Fit → ℕ → Option (Bool × View)
draw s d f rotation = do
  (done, black) ← fill_black d
  e ← copy_planes s black f rotation
  some (true, e)

unfoldable pub letterbox : View → View → ℕ → Option (Bool × View)
letterbox s d rotation =
    let f = fit s d rotation in
    if not (valid_nv12 s) || not (valid_nv12 d) || not (is_rotation rotation)
    then some (false, d)
    else if ltb f.fw 2 || ltb f.fh 2
    then some (false, d)
    else draw s d f rotation
