-- ===== src/Nv12Converter/Turned.antt =====
-- Nv12Converter::ConvertNv12ToNv12Letterbox of windows/receiver/media/nv12_converter.cpp.
use kmvirtualcamera.Prelude.{
  ℕ, ◌+◌, ◌-◌, ◌*◌, ◌/◌, ◌%◌, Bool, ◌&&◌, ◌||◌, Option, some, ltb, ◌==◌, if◌then◌else◌, ◌>>=◌, min,
}
use kmvirtualcamera.Prelude.Int.{ℤ, pos, negsuc}
use kmvirtualcamera.Planes.{Buffer, read, blit, advance, copy_bytes}
use kmvirtualcamera.Nv12.{Fit, even, get_byte}
use kmvirtualcamera.FramePipe.{payload_bytes, fill_black_nv12}
use kmvirtualcamera.Nv12Converter.{Aspect, aspect_fit, is_empty_fit, draw_on_black}

-- (d % 360 + 360) % 360, rounded down to a quarter turn.
unfoldable pub normalize : ℤ → ℕ
normalize (pos n) = n % 360 / 90 * 90
normalize (negsuc n) = (360 - (n + 1) % 360) % 360 / 90 * 90

abbrev pub max_fit_dim : ℕ
max_fit_dim = 3840

-- The size of a side that is sampled.
abbrev pub sampled : ℕ → ℕ
sampled n = if ltb 16 n then even n else n

abbrev pub is_across : ℕ → Bool
is_across rotation = (rotation == 90) || (rotation == 270)

-- The fit of the picture turned, with the bound of the column maps.
unfoldable pub turned_fit : Aspect → ℕ → ℕ → ℕ → ℕ → ℕ → Fit
turned_fit a rotation sw sh dw dh =
    let w = if is_across rotation then sh else sw in
    let h = if is_across rotation then sw else sh in aspect_fit a w h dw dh

unfoldable pub bounded : Fit → Fit
bounded f = record f { fw = min f.fw max_fit_dim; fh = min f.fh max_fit_dim }

-- The rows of both planes, copied one to one.
unfoldable pub copy_rows : ℕ → ℕ → Buffer → Buffer → ℕ → ℕ → Option Buffer
copy_rows pitch sh src dst dw dh =
    blit dh dw (λ y x. read src (y * pitch + x)) (λ y x. y * dw + x) dst
    >>= blit (dh / 2) dw (λ y x. read (advance (pitch * sh) src) (y * pitch + x))
        (λ y x. dw * dh + (y * dw + x))

unfoldable pub same_size : ℕ → ℕ → ℕ → Buffer → Buffer → ℕ → ℕ → Option Buffer
same_size pitch sw sh src dst dw dh =
    if pitch == dw then copy_bytes (dw * dh * 3 / 2) src dst else copy_rows pitch sh src dst dw dh

unfoldable pub turn : Aspect → ℕ → ℕ → ℕ → ℕ → ℕ → Buffer → Buffer → ℕ → ℕ → Option Buffer
turn a rotation pitch sh sample_w sample_h src dst dw dh =
    let f = turned_fit a rotation sample_w sample_h dw dh in
    let g = bounded f in
    draw_on_black (is_empty_fit f) (get_byte 1 rotation sample_w sample_h g pitch src)
      (get_byte 2 rotation sample_w sample_h g pitch (advance (pitch * sh) src)) g dw dh dst

unfoldable pub convert_nv12_to_nv12_letterbox :
    Aspect → Buffer → ℕ → ℕ → ℕ → Buffer → ℕ → ℕ → ℤ → Option Buffer
convert_nv12_to_nv12_letterbox a src src_pitch sw sh dst dw dh rotation_degrees =
    let pitch = if src_pitch == 0 then sw else src_pitch in
    let rotation = normalize rotation_degrees in
    let sample_w = sampled sw in
    let sample_h = sampled sh in
    if sw == 0 || sh == 0 then some dst else do
      black ← fill_black_nv12 payload_bytes dst
      if (rotation == 0) && (sw == dw) && (sh == dh) && (pitch == dw)
          then copy_bytes payload_bytes src black
          else if (rotation == 0) && (sample_w == dw) && (sample_h == dh)
          then same_size pitch sw sh src black dw dh
          else turn a rotation pitch sh sample_w sample_h src black dw dh
