-- ===== src/Wire/Tests.antt =====
-- Runs of shared/km/rtp_wire.h, and the theorems at concrete datagrams.
use kmvirtualcamera.Prelude.{◌≤◌, ◌≡◌, refl, true, some, List, [], ◌∷◌, arith, length, All, Bytes}
use kmvirtualcamera.Prelude.Int.{pos, negsuc, ◌-ℤ◌}
use kmvirtualcamera.Wire.{
  RtpPacket, skip_extension, skip_padding, packet_of, malformed, fields, parse_rtp, RtcpPacket,
  minimum, content_length, member, parse_members, parse_rtcp, sequence_delta,
}
use kmvirtualcamera.Wire.Rtcp.{IsMember, parse_rtcp_sound}
use kmvirtualcamera.Wire.Format.{extended, padded, Fits, rtp_bytes, parse_rtp-rtp_bytes}

abbrev packet : RtpPacket
packet = record {
  payload = 0x65 ∷ 7 ∷ [];
  timestamp = 90000;
  ssrc = 0xdeadbeef;
  sequence = 65535;
  payload_type = 96;
  marker = true;
}

-- One contributing source, one word of extension, two bytes of padding.
abbrev datagram : Bytes
datagram =
    rtp_bytes packet 1 (1 ∷ 2 ∷ 3 ∷ 4 ∷ []) (extended 0xbe 0xde 1 (0x12 ∷ 0 ∷ 5 ∷ 0 ∷ []))
      (padded (0 ∷ []))

datagram_parses : parse_rtp datagram ≡ some packet
unfolding parse_rtp malformed fields skip_extension skip_padding packet_of
datagram_parses = refl

packet-Fits :
    Fits packet 1
      (1 ∷ 2 ∷ 3 ∷ 4 ∷ [])
      (extended 0xbe 0xde 1 (0x12 ∷ 0 ∷ 5 ∷ 0 ∷ []))
      (padded (0 ∷ []))
packet-Fits = omega arith

parse_rtp-rtp_bytes_example : parse_rtp datagram ≡ some packet
parse_rtp-rtp_bytes_example =
    parse_rtp-rtp_bytes packet 1 (1 ∷ 2 ∷ 3 ∷ 4 ∷ []) (extended 0xbe 0xde 1 (0x12 ∷ 0 ∷ 5 ∷ 0 ∷ []))
      (padded (0 ∷ [])) packet-Fits

wraps : sequence_delta 2 65535 ≡ pos 3
unfolding sequence_delta
wraps = refl

behind : sequence_delta 65535 2 ≡ negsuc 2
unfolding sequence_delta ◌-ℤ◌
behind = refl

-- An empty receiver report, then a goodbye of one source.
abbrev compound : Bytes
compound = 0x80 ∷ 201 ∷ 0 ∷ 1 ∷ 0 ∷ 0 ∷ 0 ∷ 9 ∷ 0x81 ∷ 203 ∷ 0 ∷ 1 ∷ 0 ∷ 0 ∷ 0 ∷ 9 ∷ []

abbrev members : List RtcpPacket
members =
    record { body = 0x80 ∷ 201 ∷ 0 ∷ 1 ∷ 0 ∷ 0 ∷ 0 ∷ 9 ∷ []; type = 201; count = 0 }
    ∷ record { body = 0x81 ∷ 203 ∷ 0 ∷ 1 ∷ 0 ∷ 0 ∷ 0 ∷ 9 ∷ []; type = 203; count = 1 }
    ∷ []

compound_parses : parse_rtcp compound ≡ some members
unfolding parse_rtcp parse_members member content_length minimum
compound_parses = refl

parse_rtcp_sound_example : All IsMember members × (length members ≤ 64)
parse_rtcp_sound_example = parse_rtcp_sound compound compound_parses
