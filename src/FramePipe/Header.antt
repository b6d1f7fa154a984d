-- ===== src/FramePipe/Header.antt =====
-- What the reader of windows/common/frame_pipe_protocol.h takes as a frame header.
use kmvirtualcamera.Prelude.{ℕ, ◌<◌, ◌≡◌, refl, [], ◌∷◌, ◌++◌, Bytes}
use kmvirtualcamera.FramePipe.{FrameHeader, le, create_default_header, four_cc_nv12, magic}

-- What the reader asks of a header.
pub record IsFrameHeader (h : FrameHeader) : Type 0 where
  pub magic : h.magic ≡ magic
  pub version : h.version ≡ 1
  pub header_size : h.header_size ≡ 64
  pub width : h.width ≡ 1280
  pub height : h.height ≡ 720
  pub fourcc : h.fourcc ≡ four_cc_nv12
  pub stride_y : h.stride_y ≡ 1280
  pub stride_uv : h.stride_uv ≡ 1280
  pub payload_bytes : h.payload_bytes ≡ 1382400
  pub flags : h.flags < 16

-- The header of a frame of 1280 by 720 pixels, byte by byte: "WRTCVF01", version 1, 64 bytes, the flags, the
-- number and the time of the frame; its width, its height, "NV12", both strides, the size of the
-- picture; the checksums.
abbrev pub image : FrameHeader → Bytes
image h =
    (87 ∷ 82 ∷ 84 ∷ 67 ∷ 86 ∷ 70 ∷ 48 ∷ 49 ∷ 1 ∷ 0 ∷ 64 ∷ 0 ∷ [])
    ++ le 4 h.flags
    ++ le 8 h.sequence
    ++ le 8 h.capture_time_us
    ++ (0 ∷ 5 ∷ 0 ∷ 0 ∷ 208 ∷ 2 ∷ 0 ∷ 0 ∷ 78 ∷ 86 ∷ 49 ∷ 50 ∷ [])
    ++ (0 ∷ 5 ∷ 0 ∷ 0 ∷ 0 ∷ 5 ∷ 0 ∷ 0 ∷ 0 ∷ 24 ∷ 21 ∷ 0 ∷ [])
    ++ le 4 h.header_crc32
    ++ le 4 h.payload_crc32

pub create_default_header-IsFrameHeader :
    (sequence time flags : ℕ)
    → flags < 16
    → IsFrameHeader (create_default_header sequence time flags)
unfolding create_default_header
create_default_header-IsFrameHeader sequence time flags h = record {
  magic = refl;
  version = refl;
  header_size = refl;
  width = refl;
  height = refl;
  fourcc = refl;
  stride_y = refl;
  stride_uv = refl;
  payload_bytes = refl;
  flags = h;
}
