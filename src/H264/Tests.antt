-- ===== src/H264/Tests.antt =====
-- Runs of shared/km/h264.h, and the theorems at concrete streams.
use kmvirtualcamera.Prelude.{◌≡◌, refl, none, some, List, [], ◌∷◌, arith, Bytes}
use kmvirtualcamera.H264.{
  start_code, valid_nalu, skip_zeros, scan, strip_cons, strip_zeros, split_loop, split_annex_b,
  split_length_prefixed4, length_prefix, append_prefixed, annex_b_to_length_prefixed4,
}
use kmvirtualcamera.H264.Split.{
  IsNalu, IsSplit, annex_b, split_annex_b_sound, split_annex_b-annex_b,
}
use kmvirtualcamera.H264.Avcc.{split_length_prefixed4-annex_b_to_length_prefixed4}

abbrev sps : Bytes
sps = 0x67 ∷ 0x42 ∷ []

abbrev idr : Bytes
idr = 0x65 ∷ 0x88 ∷ 0x80 ∷ []

abbrev units : List Bytes
units = sps ∷ idr ∷ []

-- A leading zero, a three-byte start code, and zeros behind the last unit.
abbrev stream : Bytes
stream = 0 ∷ 0 ∷ 0 ∷ 1 ∷ 0x67 ∷ 0x42 ∷ 0 ∷ 0 ∷ 1 ∷ 0x65 ∷ 0x88 ∷ 0x80 ∷ 0 ∷ 0 ∷ []

stream_splits : split_annex_b stream ≡ some units
unfolding split_annex_b skip_zeros start_code split_loop scan strip_zeros strip_cons valid_nalu
stream_splits = refl

-- A forbidden bit in a unit refuses the stream.
forbidden_refused : split_annex_b (0 ∷ 0 ∷ 1 ∷ 0xe7 ∷ []) ≡ none
unfolding split_annex_b skip_zeros start_code split_loop scan strip_zeros strip_cons valid_nalu
forbidden_refused = refl

abbrev converted : Bytes
converted = 0 ∷ 0 ∷ 0 ∷ 2 ∷ 0x67 ∷ 0x42 ∷ 0 ∷ 0 ∷ 0 ∷ 3 ∷ 0x65 ∷ 0x88 ∷ 0x80 ∷ []

stream_converts : annex_b_to_length_prefixed4 stream ≡ some converted
unfolding annex_b_to_length_prefixed4 split_annex_b skip_zeros start_code split_loop scan
    strip_zeros strip_cons valid_nalu append_prefixed length_prefix
stream_converts = refl

sps-IsNalu : IsNalu sps
unfolding start_code valid_nalu
sps-IsNalu = record { valid = refl; escaped = (refl, (refl, tt)); stopped = omega arith }

idr-IsNalu : IsNalu idr
unfolding start_code valid_nalu
idr-IsNalu = record { valid = refl; escaped = (refl, (refl, (refl, tt))); stopped = omega arith }

split_annex_b_sound_example : IsSplit units
split_annex_b_sound_example = split_annex_b_sound stream stream_splits

split_annex_b-annex_b_example : split_annex_b (annex_b units) ≡ some units
split_annex_b-annex_b_example =
    split_annex_b-annex_b units (sps-IsNalu, (idr-IsNalu, tt)) (omega arith) (omega arith)
      (omega arith)

split_length_prefixed4-annex_b_to_length_prefixed4_example :
    split_length_prefixed4 converted ≡ some units
split_length_prefixed4-annex_b_to_length_prefixed4_example =
    split_length_prefixed4-annex_b_to_length_prefixed4 stream stream_splits stream_converts
      (omega arith)
