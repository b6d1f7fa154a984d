-- ===== src/TestPattern.antt =====
-- windows/receiver/media/test_pattern_generator.cpp: colour bars with a moving box, and a pattern for
-- calibration. The two bytes of a chroma pixel are two columns here. `none` is an access out of bounds.
mod Picture
pub mod Video
mod Tests
use kmvirtualcamera.Prelude.{
  ℕ, ◌+◌, ◌-◌, ◌*◌, ◌/◌, ◌%◌, ◌^◌, Bool, true, false, Option, none, some, List, [], ◌∷◌, ltb, leb,
  ◌==◌, ◌&&◌, if◌then◌else◌, ◌>>=◌, get_or, min,
}
use kmvirtualcamera.Planes.{Buffer, blit}
use kmvirtualcamera.FramePipe.{width, height, payload_bytes}

pub record YuvColor : Type 0 where
  pub y : ℕ
  pub u : ℕ
  pub v : ℕ

abbrev pub color : ℕ → ℕ → ℕ → YuvColor
color y u v = record { y = y; u = u; v = v }

abbrev pub smpte75 : List YuvColor
smpte75 =
    color 180 128 128
    ∷ color 162 44 142
    ∷ color 131 156 44
    ∷ color 112 72 58
    ∷ color 84 184 198
    ∷ color 65 100 212
    ∷ color 35 212 114
    ∷ color 16 128 128
    ∷ []

-- Of bars that are 160 pixels wide.
abbrev pub bar : ℕ → YuvColor
bar x = get_or smpte75 (min (x / 160) 7) (color 16 128 128)

-- Bars in the upper two thirds, a ramp below.
abbrev pub bars_luma : ℕ → ℕ → ℕ
bars_luma y x = if ltb y 480 then (bar x).y else (16 + x * (235 - 16) / width) % 256

abbrev pub bars_chroma : ℕ → ℕ → ℕ
bars_chroma y k =
    if ltb y (480 / 2) then if k % 2 == 0 then (bar (k / 2 * 2)).u else (bar (k / 2 * 2)).v else 128

-- A vector of `n` bytes, and what resize makes of one.
abbrev pub zeros : ℕ → Buffer
zeros n = record { size = n; at = λ i. 0 }

abbrev pub resize : ℕ → Buffer → Buffer
resize n b =
    if b.size == n then b else record { size = n; at = λ i. if ltb i b.size then b.at i else 0 }

-- Where a byte of the chroma plane is.
abbrev pub chroma_at : ℕ → ℕ → ℕ
chroma_at y k = (y * (width / 2) + k / 2) * 2 + k % 2

pub record TestPattern : Type 0 where
  pub base_bars_y : Buffer
  pub base_bars_uv : Buffer

unfoldable pub make : Option TestPattern
make = do
  luma ← blit height width (λ y x. some (bars_luma y x)) (λ y x. y * width + x) (zeros 921600)
  chroma ← blit (height / 2) width (λ y k. some (bars_chroma y k)) chroma_at (zeros 460800)
  some (record { base_bars_y = luma; base_bars_uv = chroma })

-- memcpy of all of a buffer to a place in another.
unfoldable pub copy_to : ℕ → Buffer → Buffer → Option Buffer
copy_to from src dst =
    if leb (from + src.size) dst.size
    then some (record {
      size = dst.size;
      at = λ j. if leb from j && ltb j (from + src.size) then src.at (j - from) else dst.at j;
    })
    else none

-- The left side of the box; the product is of 64 bits.
abbrev pub box_x : ℕ → ℕ
box_x frame_index = frame_index * 12 % 2 ^ 64 % (width - 80)

-- The box ends at the lower edge of the picture.
unfoldable pub draw_box : ℕ → Buffer → Option Buffer
draw_box x b =
    blit (min 40 (height - 650)) 80 (λ r c. some 235) (λ r c. (650 + r) * width + (x + c)) b
    >>= blit (min (40 / 2) (height / 2 - 650 / 2)) 80 (λ r k. some 128)
        (λ r k. width * height + ((650 / 2 + r) * (width / 2) + (x / 2 + k / 2)) * 2 + k % 2)

unfoldable pub generate_frame : TestPattern → Buffer → ℕ → Option Buffer
generate_frame t out frame_index = do
  luma ← copy_to 0 t.base_bars_y (resize payload_bytes out)
  both ← copy_to t.base_bars_y.size t.base_bars_uv luma
  draw_box (box_x frame_index) both

-- The bytes for calibration.
abbrev pub calibration_luma : ℕ → ℕ → ℕ → ℕ
calibration_luma id y x = (x * 17 + y * 31 + id * 101) % 2 ^ 32 % 256

abbrev pub calibration_chroma : ℕ → ℕ → ℕ → ℕ
calibration_chroma id y k =
    if k % 2 == 0
    then (k / 2 * 13 + y * 23 + id * 47) % 2 ^ 32 % 256
    else (k / 2 * 29 + y * 7 + id * 83) % 2 ^ 32 % 256

unfoldable pub generate_calibration_pattern : Buffer → ℕ → Option Buffer
generate_calibration_pattern out pattern_id =
    blit height width (λ y x. some (calibration_luma pattern_id y x)) (λ y x. y * width + x)
      (resize payload_bytes out)
    >>= blit (height / 2) width (λ y k. some (calibration_chroma pattern_id y k))
        (λ y k. width * height + chroma_at y k)
