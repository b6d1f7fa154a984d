-- ===== src/ReceiverEngine/Tests.antt =====
-- A session of the engine: two keyframe requests 60 ms apart and one between them that the throttle
-- holds back; an access unit by RTP, then one by the data channel.
use kmvirtualcamera.Prelude.{◌≡◌, refl, List, [], ◌∷◌, arith, Bytes}
use kmvirtualcamera.Prelude.Int.{pos, ◌-ℤ◌}
use kmvirtualcamera.ReceiverEngine.{initial, to_int64, try_dispatch, request_keyframe}
use kmvirtualcamera.ReceiverEngine.Orderly.{requests, domains, Spaced, Arbitrated}
use kmvirtualcamera.ReceiverEngine.History.{
  Op, rtp_packets, data_channel_packets, timers, wanted, types, opens, step, run, run-IsOrderly,
}

abbrev requesting : List Op
requesting = types (96 ∷ []) ∷ wanted 1000000 ∷ wanted 40000000 ∷ opens ∷ wanted 61000000 ∷ []

two_requests : requests (run initial requesting).signals ≡ pos 61000000 ∷ pos 1000000 ∷ []
unfolding run step request_keyframe try_dispatch to_int64 initial ◌-ℤ◌
two_requests = refl

abbrev sets : Bytes
sets =
    0x80 ∷ 96 ∷ 0 ∷ 1 ∷ 0 ∷ 0 ∷ 0 ∷ 9 ∷ 0 ∷ 0 ∷ 0 ∷ 1 ∷ 24 ∷ 0 ∷ 2 ∷ 0x67 ∷ 0x42 ∷ 0 ∷ 2 ∷ 0x68
    ∷ 0xce ∷ []

abbrev slice : Bytes
slice = 0x80 ∷ 224 ∷ 0 ∷ 2 ∷ 0 ∷ 0 ∷ 0 ∷ 9 ∷ 0 ∷ 0 ∷ 0 ∷ 1 ∷ 0x65 ∷ 0x88 ∷ []

abbrev message : Bytes
message =
    0x4D ∷ 0x4B ∷ 13 ∷ 1 ∷ 0 ∷ 1 ∷ 7 ∷ 0 ∷ 9 ∷ 0 ∷ 0 ∷ 0 ∷ 0 ∷ 0 ∷ 1 ∷ 0x67 ∷ 0x42 ∷ 0 ∷ 0 ∷ 1
    ∷ 0x68 ∷ 0xce ∷ 0 ∷ 0 ∷ 1 ∷ 0x65 ∷ 0x88 ∷ []

abbrev calls : List Op
calls =
    types (96 ∷ [])
    ∷ wanted 1000000
    ∷ rtp_packets sets 2000000
    ∷ rtp_packets slice 3000000
    ∷ wanted 40000000
    ∷ opens
    ∷ data_channel_packets message 70000000
    ∷ rtp_packets sets 80000000
    ∷ timers 90000000
    ∷ []

run-IsOrderly_example :
    Spaced (requests (run initial calls).signals) × Arbitrated (domains (run initial calls).signals)
run-IsOrderly_example = run-IsOrderly calls (omega arith)
