-- ===== src/RtpDepacketizer/Tests.antt =====
-- Runs of the RTP depacketizer, and the theorems at concrete packets.
use kmvirtualcamera.Prelude.{ℕ, ◌≡◌, refl, List, [], ◌∷◌, Bytes}
use kmvirtualcamera.Prelude.Int.{◌-ℤ◌}
use kmvirtualcamera.Wire.{
  parse_rtp, malformed, fields, skip_extension, skip_padding, packet_of, sequence_delta,
}
use kmvirtualcamera.RtpDepacketizer.{
  frame, initial, clear_au, lose, oversized, note_nalu, valid_nal, same_bytes, append_nalu, good,
  missing_sets, deliver, emit, stap_units, append_all, stap, extend_fu, fragment, by_type, finish,
  on_payload, on_boundary, on_unit, on_packet, process, run,
}
use kmvirtualcamera.RtpDepacketizer.Steps.{Decodable}
use kmvirtualcamera.RtpDepacketizer.Decodable.{run-Decodable}

abbrev header : ℕ → ℕ → Bytes → Bytes
header marker sequence payload =
    0x80 ∷ marker ∷ 0 ∷ sequence ∷ 0 ∷ 0 ∷ 0 ∷ 9 ∷ 0 ∷ 0 ∷ 0 ∷ 1 ∷ payload

-- A STAP-A of both parameter sets, then an IDR slice in two fragments.
abbrev packets : List Bytes
packets =
    header 96 1 (24 ∷ 0 ∷ 2 ∷ 0x67 ∷ 0x42 ∷ 0 ∷ 2 ∷ 0x68 ∷ 0xce ∷ [])
    ∷ header 96 2 (0x7c ∷ 0x85 ∷ 0x88 ∷ [])
    ∷ header 224 3 (0x7c ∷ 0x45 ∷ 0x80 ∷ [])
    ∷ []

-- The sets in front of the IDR, each behind a start code.
abbrev picture : Bytes
picture =
    0 ∷ 0 ∷ 0 ∷ 1 ∷ 0x67 ∷ 0x42 ∷ 0 ∷ 0 ∷ 0 ∷ 1 ∷ 0x68 ∷ 0xce ∷ 0 ∷ 0 ∷ 0 ∷ 1 ∷ 0x65 ∷ 0x88 ∷ 0x80
    ∷ []

delivers : (run initial packets).events ≡ frame picture 9 ∷ []
unfolding run process on_packet on_unit on_boundary on_payload finish by_type fragment extend_fu
    stap append_all stap_units emit deliver missing_sets good append_nalu note_nalu oversized
    same_bytes valid_nal lose clear_au initial parse_rtp malformed fields skip_extension
    skip_padding packet_of sequence_delta ◌-ℤ◌
delivers = refl

run-Decodable_example : Decodable (run initial packets).events
run-Decodable_example = run-Decodable packets
