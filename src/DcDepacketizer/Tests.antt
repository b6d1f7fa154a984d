-- ===== src/DcDepacketizer/Tests.antt =====
-- Runs of the data-channel depacketizer, and the theorems at a concrete history.
use kmvirtualcamera.Prelude.{ℕ, ◌≡◌, refl, true, none, List, [], ◌∷◌, Bytes}
use kmvirtualcamera.Prelude.Int.{pos, ◌-ℤ◌}
use kmvirtualcamera.H264.{
  start_code, valid_nalu, skip_zeros, scan, strip_cons, strip_zeros, split_loop, split_annex_b,
  append_annex_b,
}
use kmvirtualcamera.DcDepacketizer.{
  delta, DcDepacketizer, initial, find, remove, emplace, update, erase, elapsed, recover, concat,
  has_type, last_of, split, append_others, write, assemble,
}
use kmvirtualcamera.DcDepacketizer.Drain.{
  expire, first_key, locate, settle, hand_on, nearest, drain_loop, drop_stale, increase, drain,
  with_batch, is_bad, new_frame, add_chunk, accept, process_packet_at,
}
use kmvirtualcamera.DcDepacketizer.Accounts.{IsBounded}
use kmvirtualcamera.DcDepacketizer.Bounded.{Op, packets, step, run, run-IsBounded}

abbrev chunk : ℕ → ℕ → Bytes → Bytes
chunk flags index payload = 0x4D ∷ 0x4B ∷ flags ∷ 1 ∷ index ∷ 2 ∷ 7 ∷ 0 ∷ 9 ∷ 0 ∷ 0 ∷ 0 ∷ payload

-- A key frame in two chunks, the second one first.
abbrev calls : List Op
calls =
    packets (chunk 9 1 (0xce ∷ 0 ∷ 0 ∷ 1 ∷ 0x65 ∷ 0x88 ∷ [])) (pos 1000)
    ∷ packets (chunk 5 0 (0 ∷ 0 ∷ 1 ∷ 0x67 ∷ 0x42 ∷ 0 ∷ 0 ∷ 1 ∷ 0x68 ∷ [])) (pos 1500)
    ∷ []

abbrev picture : Bytes
picture =
    0 ∷ 0 ∷ 0 ∷ 1 ∷ 9 ∷ 0xf0 ∷ 0 ∷ 0 ∷ 0 ∷ 1 ∷ 0x67 ∷ 0x42 ∷ 0 ∷ 0 ∷ 0 ∷ 1 ∷ 0x68 ∷ 0xce ∷ 0 ∷ 0 ∷ 0
    ∷ 1 ∷ 0x65 ∷ 0x88 ∷ []

assembles : (run initial calls).frames_out ≡ record { bytes = picture; timestamp = 9 } ∷ []
unfolding run step process_packet_at with_batch drain expire locate first_key drain_loop hand_on
    settle nearest drop_stale increase is_bad accept new_frame add_chunk delta initial find remove
    emplace update erase elapsed recover concat has_type last_of split append_others write assemble
    split_annex_b split_loop skip_zeros start_code scan strip_zeros strip_cons valid_nalu
    append_annex_b ◌-ℤ◌
assembles = refl

run-IsBounded_example : IsBounded (run initial calls)
run-IsBounded_example = run-IsBounded calls

-- One frame of two chunks, of which one is there, two numbers ahead and twenty milliseconds old.
abbrev held : DcDepacketizer
held = record {
  pending =
      (
        7,
        record {
          timestamp = 9;
          count = 2;
          stable_flags = 1;
          received = 1;
          bytes = 2;
          arrival = 1000;
          chunks = (1 ∷ 2 ∷ []) ∷ [] ∷ [];
        },
      )
      ∷ [];
  bytes = 2;
  expected = 5;
  initialized = true;
  waiting = true;
  last_pli = none;
  last_increase = none;
  sps = [];
  pps = [];
  rate = 3000000;
  frames = 0;
  generation = 1;
  frames_out = [];
  controls_out = [];
}
