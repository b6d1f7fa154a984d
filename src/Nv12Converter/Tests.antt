-- ===== src/Nv12Converter/Tests.antt =====
-- The conversions of small pictures, with an exact aspect ratio.
use kmvirtualcamera.Prelude.{
  ℕ, ◌*◌, ◌/◌, ◌≤◌, ◌≡◌, refl, true, some, arith, ltb, ltb→lt, leb, ◌>>=◌, if◌then◌else◌,
}
use native.Mathlib.Nat.{div-le_of_le-mul, mul-le-mul_right}
use kmvirtualcamera.Planes.{Buffer, advance, copy_bytes}
use kmvirtualcamera.Nv12.{get_byte, is_rotation}
use kmvirtualcamera.Nv12.Source.{IsPlane}
use kmvirtualcamera.Nv12Converter.{
  Aspect, IsAspect, Plane, aspect_fit, i420_luma, i420_chroma, is_empty_fit, convert_i420_to_nv12,
  convert_bgra_to_nv12,
}
use kmvirtualcamera.Nv12Converter.Turned.{turned_fit, bounded, sampled, turn, same_size}
use kmvirtualcamera.Nv12Converter.Converted.{IsConverted, convert_i420_to_nv12-IsConverted}
use kmvirtualcamera.Nv12Converter.Rotated.{IsNv12, turn-IsConverted}
use kmvirtualcamera.Nv12Converter.Bgra.{IsVideo, convert_bgra_to_nv12-IsVideo}

abbrev exact : Aspect
exact = record {
  wider = λ sw sh dw dh. ltb (sh * dw) (sw * dh);
  scaled_height = λ sw sh dw dh. dw * sh / sw;
  scaled_width = λ sw sh dw dh. dh * sw / sh;
}

exact-IsAspect : IsAspect exact 1280 720
exact-IsAspect = record {
  high = λ sw sh v w e.
      let less = ltb→lt (sh * 1280) (sw * 720) e in div-le_of_le-mul sw (omega (arith, less));
  wide = λ sw sh v w e.
      let less : sw * 720 ≤ sh * 1280 = ground (arith, e) in
      div-le_of_le-mul sh (omega (arith, less));
}

abbrev flat : ℕ → Buffer
flat n = record { size = n; at = λ i. 100 }

-- Four by two pixels.
abbrev luma : Plane
luma = record { bytes = flat 8; stride = 4 }

abbrev chroma : Plane
chroma = record { bytes = flat 2; stride = 2 }

rows : (bytes stride width : ℕ) → width ≤ stride → stride * 2 ≤ bytes → IsPlane bytes stride width 2
rows bytes stride width h k = record {
  narrow = h;
  inside = λ y x l m.
      let low : y ≤ 1 = omega (arith, l) in ground (arith, mul-le-mul_right stride low, m, h, k);
}

row : (bytes stride width : ℕ) → width ≤ stride → stride ≤ bytes → IsPlane bytes stride width 1
row bytes stride width h k = record {
  narrow = h;
  inside = λ y x l m.
      let low : y ≤ 0 = omega (arith, l) in ground (arith, mul-le-mul_right stride low, m, h, k);
}

convert_i420_to_nv12-IsConverted_example :
    let f = aspect_fit exact 4 2 1280 720 in
    (c : Buffer) × (convert_i420_to_nv12 exact luma chroma chroma 4 2 (flat 1382400) 1280 720
      ≡ some c)
    × IsConverted
        (is_empty_fit f)
        (i420_luma luma 4 2 f)
        (i420_chroma chroma chroma 4 2 f)
        f
        1280
        720
        (flat 1382400)
        c
convert_i420_to_nv12-IsConverted_example =
    convert_i420_to_nv12-IsConverted exact luma chroma chroma 4 2 (flat 1382400) exact-IsAspect
      (omega arith) (omega arith) (rows 8 4 4 (omega arith) (omega arith))
      (row 2 2 2 (omega arith) (omega arith)) (row 2 2 2 (omega arith) (omega arith)) (omega arith)

small-IsNv12 : IsNv12 4 4 2 (flat 12)
small-IsNv12 = record {
  wide = omega arith;
  high = omega arith;
  narrow = omega arith;
  whole = omega arith;
}

quarter_turn : is_rotation 270 ≡ true
unfolding is_rotation
quarter_turn = refl

turn-IsConverted_example :
    let f = turned_fit exact 270 (sampled 4) (sampled 2) 1280 720 in
    (c : Buffer) × (turn exact 270 4 2 (sampled 4) (sampled 2) (flat 12) (flat 1382400) 1280 720
      ≡ some c)
    × IsConverted
        (is_empty_fit f)
        (get_byte 1 270 (sampled 4) (sampled 2) (bounded f) 4 (flat 12))
        (get_byte 2 270 (sampled 4) (sampled 2) (bounded f) 4 (advance 8 (flat 12)))
        (bounded f)
        1280
        720
        (flat 1382400)
        c
turn-IsConverted_example =
    turn-IsConverted exact 270 4 4 2 (flat 12) (flat 1382400) exact-IsAspect quarter_turn
      small-IsNv12 (omega arith)

convert_bgra_to_nv12-IsVideo_example :
    (c : Buffer) × (convert_bgra_to_nv12 exact (flat 32) 4 2 16 (flat 1382400) 1280 720 ≡ some c)
    × IsVideo (flat 1382400) c
convert_bgra_to_nv12-IsVideo_example =
    convert_bgra_to_nv12-IsVideo exact (flat 32) 4 2 16 (flat 1382400) exact-IsAspect (omega arith)
      (omega arith) (rows 32 16 16 (omega arith) (omega arith)) (omega arith)

-- A picture of 1280 by 721, without rotation: the first chroma byte is a byte of the last luma row, which
-- ends at 922880.
abbrev odd : Buffer
odd = record { size = 1383680; at = λ i. if leb 922880 i then 1 else 0 }

odd_height :
    ((same_size 1280 1280 721 odd (flat 1382400) 1280 720 >>= λ c. some (c.at 921600)) ≡ some 0)
    × (odd.at (1280 * 721) ≡ 1)
unfolding same_size copy_bytes
odd_height = (refl, refl)
