-- ===== src/FramePipe/Tests.antt =====
-- Frame headers on the pipe: runs, and the theorems at one of them.
use kmvirtualcamera.Prelude.{
  ◌≡◌, refl, none, some, [], ◌∷◌, ◌++◌, take, Bytes, Bool, true, ◌&&◌, ltb,
}
use kmvirtualcamera.FramePipe.{
  FrameHeader, serialize_header, field_bytes, copy_header, same_bytes, is_invalid,
  deserialize_and_validate_header, create_default_header,
}

abbrev header : FrameHeader
header = record (create_default_header 300 70000 5) { header_crc32 = 7 }

abbrev buffer : Bytes
buffer = serialize_header header ++ (1 ∷ 2 ∷ [])

header_accepted : deserialize_and_validate_header buffer ≡ some header
unfolding deserialize_and_validate_header is_invalid copy_header serialize_header field_bytes
    same_bytes create_default_header
header_accepted = refl

-- A byte is missing.
short_refused : deserialize_and_validate_header (take 63 buffer) ≡ none
unfolding deserialize_and_validate_header serialize_header field_bytes create_default_header
short_refused = refl

abbrev are_small : Bytes → Bool
are_small [] = true
are_small (x ∷ b) = ltb x 256 && are_small b
