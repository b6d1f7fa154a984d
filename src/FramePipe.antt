-- ===== src/FramePipe.antt =====
-- windows/common/frame_pipe_protocol.h: the header of a frame on the pipe, and the black frame. The
-- header struct is packed and copied as it stands, so its fields are little-endian. capture_time_us is
-- the bit pattern of an int64_t.
mod Layout
pub mod Header
mod Tests
use kmvirtualcamera.Prelude.{
  ℕ, zero, suc, ◌+◌, ◌-◌, ◌*◌, ◌/◌, ◌%◌, ◌^◌, Bool, true, false, not, ◌&&◌, ◌||◌, Option, none,
  some, List, [], ◌∷◌, ◌++◌, ltb, ◌==◌, if◌then◌else◌, length, take, drop, replicate, Bytes, shr,
  ◌>>=◌,
}
use kmvirtualcamera.Planes.{Buffer, fill}

abbrev pub header_size : ℕ
header_size = 64

abbrev pub width : ℕ
width = 1280

abbrev pub height : ℕ
height = 720

abbrev pub four_cc_nv12 : ℕ
four_cc_nv12 = 0x3231564E

abbrev pub payload_bytes : ℕ
payload_bytes = 1280 * 720 + 1280 * (720 / 2)

-- "WRTCVF01"
abbrev pub magic : Bytes
magic = 87 ∷ 82 ∷ 84 ∷ 67 ∷ 86 ∷ 70 ∷ 48 ∷ 49 ∷ []

pub record FrameHeader : Type 0 where
  pub magic : Bytes
  pub version : ℕ
  pub header_size : ℕ
  pub flags : ℕ
  pub sequence : ℕ
  pub capture_time_us : ℕ
  pub width : ℕ
  pub height : ℕ
  pub fourcc : ℕ
  pub stride_y : ℕ
  pub stride_uv : ℕ
  pub payload_bytes : ℕ
  pub header_crc32 : ℕ
  pub payload_crc32 : ℕ

-- The bytes of a number in memory, and the number that bytes are.
abbrev pub le : ℕ → ℕ → Bytes
le zero v = []
le (suc n) v = v % 256 ∷ le n (v / 256)

abbrev pub from_le : ℕ → Bytes → ℕ
from_le zero b = 0
from_le (suc n) [] = 0
from_le (suc n) (x ∷ b) = x + 256 * from_le n b

-- The struct behind its magic.
unfoldable pub field_bytes : FrameHeader → Bytes
field_bytes h =
    le 2 h.version
    ++ le 2 h.header_size
    ++ le 4 h.flags
    ++ le 8 h.sequence
    ++ le 8 h.capture_time_us
    ++ le 4 h.width
    ++ le 4 h.height
    ++ le 4 h.fourcc
    ++ le 4 h.stride_y
    ++ le 4 h.stride_uv
    ++ le 4 h.payload_bytes
    ++ le 4 h.header_crc32
    ++ le 4 h.payload_crc32

unfoldable pub serialize_header : FrameHeader → Bytes
serialize_header h = h.magic ++ field_bytes h

-- memcpy into the struct.
unfoldable pub copy_header : Bytes → FrameHeader
copy_header b =
    let r = drop 8 b in
    record {
      magic = take 8 b;
      version = from_le 2 r;
      header_size = from_le 2 (drop 2 r);
      flags = from_le 4 (drop 4 r);
      sequence = from_le 8 (drop 8 r);
      capture_time_us = from_le 8 (drop 16 r);
      width = from_le 4 (drop 24 r);
      height = from_le 4 (drop 28 r);
      fourcc = from_le 4 (drop 32 r);
      stride_y = from_le 4 (drop 36 r);
      stride_uv = from_le 4 (drop 40 r);
      payload_bytes = from_le 4 (drop 44 r);
      header_crc32 = from_le 4 (drop 48 r);
      payload_crc32 = from_le 4 (drop 52 r);
    }

unfoldable pub same_bytes : Bytes → Bytes → Bool
same_bytes [] [] = true
same_bytes [] (y ∷ ys) = false
same_bytes (x ∷ xs) [] = false
same_bytes (x ∷ xs) (y ∷ ys) = (x == y) && same_bytes xs ys

-- The tests, each of which returns early. Flags from bit 4 on are reserved.
unfoldable pub is_invalid : FrameHeader → Bool
is_invalid h =
    not (same_bytes h.magic magic)
    || (not (h.version == 1) || not (h.header_size == header_size))
    || (not (h.width == width) || not (h.height == height))
    || not (h.fourcc == four_cc_nv12)
    || (not (h.stride_y == 1280) || not (h.stride_uv == 1280))
    || not (h.payload_bytes == payload_bytes)
    || not (shr h.flags 4 == 0)

unfoldable pub deserialize_and_validate_header : Bytes → Option FrameHeader
deserialize_and_validate_header b =
    if ltb (length b) header_size
    then none
    else if is_invalid (copy_header b)
    then none
    else some (copy_header b)

unfoldable pub create_default_header : ℕ → ℕ → ℕ → FrameHeader
create_default_header sequence capture_time_us flags = record {
  magic = magic;
  version = 1;
  header_size = header_size;
  flags = flags;
  sequence = sequence;
  capture_time_us = capture_time_us;
  width = width;
  height = height;
  fourcc = four_cc_nv12;
  stride_y = 1280;
  stride_uv = 1280;
  payload_bytes = payload_bytes;
  header_crc32 = 0;
  payload_crc32 = 0;
}

-- For a span of `n` bytes at the beginning of a buffer.
unfoldable pub fill_black_nv12 : ℕ → Buffer → Option Buffer
fill_black_nv12 n b =
    if ltb n payload_bytes
    then some b
    else fill 0 (1280 * height) 0x10 b >>= fill (1280 * height) (1280 * (height / 2)) 0x80
