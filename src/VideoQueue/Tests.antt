-- ===== src/VideoQueue/Tests.antt =====
-- Runs of the video queue, and the theorems at concrete histories.
use kmvirtualcamera.Prelude.{◌*◌, ◌≡◌, refl, true, false, List, [], ◌∷◌, Bytes}
use kmvirtualcamera.Prelude.Int.{pos}
use kmvirtualcamera.H264.{
  start_code, valid_nalu, skip_zeros, scan, strip_cons, strip_zeros, split_loop, split_annex_b,
}
use kmvirtualcamera.VideoQueue.{
  AccessUnit, VideoQueue, Op, pushes, pops, initial, has_type, configured_idr, overloads, unit_of,
  enqueue, accept, push, pop, pop_from, current, step, run,
}
use kmvirtualcamera.VideoQueue.Invariant.{IsValid, run-initial-IsValid}
use kmvirtualcamera.VideoQueue.Epoch.{Inv, start, replay, replay-Inv}

abbrev key : Bytes
key = 0 ∷ 0 ∷ 1 ∷ 0x67 ∷ 0x42 ∷ 0 ∷ 0 ∷ 1 ∷ 0x68 ∷ 0xce ∷ 0 ∷ 0 ∷ 1 ∷ 0x65 ∷ 0x88 ∷ []

abbrev delta : Bytes
delta = 0 ∷ 0 ∷ 1 ∷ 0x41 ∷ 0x9a ∷ []

-- A delta before any key is refused; after one it is taken.
abbrev calls : List Op
calls = pushes delta (pos 0) 1 ∷ pushes key (pos 1) 1 ∷ pushes delta (pos 2) 1 ∷ pops ∷ []

key_is_configured : configured_idr key ≡ true
unfolding configured_idr split_annex_b skip_zeros start_code split_loop scan strip_zeros strip_cons
    valid_nalu has_type
key_is_configured = refl

takes_two : (run initial calls).bytes ≡ 5
unfolding run step push accept pop pop_from overloads unit_of enqueue initial configured_idr
    split_annex_b skip_zeros start_code split_loop scan strip_zeros strip_cons valid_nalu has_type
takes_two = refl

run-initial-IsValid_example : IsValid (run initial calls)
run-initial-IsValid_example = run-initial-IsValid calls

replay-Inv_example : Inv (replay start calls)
replay-Inv_example = replay-Inv calls

abbrev unit : AccessUnit
unit = record { bytes = key; timestamp_us = pos 1; generation = 1; reset_serial = 1 }

abbrev full : VideoQueue
full = record {
  queue = unit ∷ unit ∷ unit ∷ unit ∷ unit ∷ unit ∷ unit ∷ unit ∷ [];
  bytes = 8 * 15;
  generation = 1;
  reset_serial = 1;
  waiting = false;
}

full-current : current full unit ≡ true
unfolding current
full-current = refl

full-overloads : overloads full delta ≡ true
unfolding overloads
full-overloads = refl
