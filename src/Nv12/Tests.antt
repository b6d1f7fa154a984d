-- ===== src/Nv12/Tests.antt =====
-- The letterbox of a small picture.
use kmvirtualcamera.Prelude.{ℕ, ◌+◌, ◌≡◌, ◌⊎◌, refl, Bool, true, false, Option, some, ◌>>=◌}
use kmvirtualcamera.Planes.{read, write, back, for_loop, blit}
use kmvirtualcamera.Nv12.{
  View, plane_fits, valid_nv12, fill_rows, fill_planes, fill_black, fit_into, fit, source_at,
  get_byte, put_byte, copy_plane, is_rotation, copy_planes, draw, letterbox,
}
use kmvirtualcamera.Nv12.Letterbox.{IsLetterbox, letterbox_lem}

-- Bytes 100, 101 and so on, in two rows of four; the chroma row is 200 to 203.
abbrev source : View
source = record {
  y = record { size = 8; at = λ i. 100 + i };
  uv = record { size = 4; at = λ i. 200 + i };
  stride_y = 4;
  stride_uv = 4;
  width = 4;
  height = 2;
}

abbrev target : View
target = record {
  y = record { size = 16; at = λ i. 0 };
  uv = record { size = 8; at = λ i. 0 };
  stride_y = 4;
  stride_uv = 4;
  width = 4;
  height = 4;
}

abbrev bytes : Option (Bool × View) → ℕ → ℕ → Option (ℕ × ℕ)
bytes o i j = o >>= λ r. some (r.1.y.at i, r.1.uv.at j)

-- Turned by a quarter, the picture is two columns wide, at the left: its first row is the left column
-- of the source from below, and the pixel of the second chroma row the right one.
turned_bytes : bytes (letterbox source target 90) 0 4 ≡ some (104, 202)
unfolding letterbox draw fill_black fill_planes fill_rows copy_planes copy_plane blit for_loop write
    read back valid_nv12 plane_fits is_rotation fit fit_into source_at get_byte put_byte
turned_bytes = refl

-- Black beside it.
black_bytes : bytes (letterbox source target 90) 3 2 ≡ some (16, 128)
unfolding letterbox draw fill_black fill_planes fill_rows copy_planes copy_plane blit for_loop write
    read back valid_nv12 plane_fits is_rotation fit fit_into source_at get_byte put_byte
black_bytes = refl

letterbox_lem_example :
    (letterbox source target 90 ≡ some (false, target))
    ⊎ ((e : View) × (letterbox source target 90 ≡ some (true, e)) × IsLetterbox source target 90 e)
letterbox_lem_example = letterbox_lem source target 90
