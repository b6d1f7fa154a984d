-- ===== src/TestPattern/Tests.antt =====
-- Frames of the test pattern.
use kmvirtualcamera.Prelude.{◌+◌, ◌<◌, ◌≡◌, some}
use kmvirtualcamera.Planes.{Buffer}
use kmvirtualcamera.TestPattern.{TestPattern, zeros, make, generate_frame}
use kmvirtualcamera.TestPattern.Video.{IsFrame, frame_luma, frame_chroma, generate_frame-IsFrame}

generate_frame-IsFrame_example :
    (t : TestPattern) × (make ≡ some t)
    × (b : Buffer) × (generate_frame t (zeros 7) 130 ≡ some b)
    × (360 + 80 < 1280)
    × IsFrame (frame_luma 360) (frame_chroma 360) b
generate_frame-IsFrame_example = generate_frame-IsFrame (zeros 7) 130
