-- ===== src/Twcc/Tests.antt =====
-- Runs of the transport-wide feedback, and the theorems at concrete histories.
use kmvirtualcamera.Prelude.{
  ℕ, ◌+◌, ◌%◌, ◌^◌, ◌≤◌, ◌<◌, ◌≡◌, refl, none, some, List, [], ◌∷◌, arith, leb, length, get_or,
  sub16, true, false, Bytes, replicate, length-replicate,
}
use kmvirtualcamera.Prelude.Int.{pos, ◌-ℤ◌}
use kmvirtualcamera.Twcc.{
  Twcc, clear, ring_size, no_arrival, pending_count, on_packet, build_feedback,
  parse_transport_sequence, find_extension, collect, status_of, div_ℤ, clamp16, report, packet_of,
  body, fields_of, padding, encode, run_from, run_length, covered, next_chunk, pack, delta_bytes,
  to_u16, chunk_bytes, reference24,
}
use kmvirtualcamera.Twcc.Extension.{Element, lookup, extended, parse_transport_sequence-extended}
use kmvirtualcamera.Twcc.Feedback.{
  IsWhole, read_feedback, missing, pending_window, build_feedback-read,
}
use kmvirtualcamera.Twcc.Window.{IsSound}
use kmvirtualcamera.Twcc.Reported.{Op, arrives, builds, resets, replay, arrival-reported}

-- Numbers 1 and 3 have arrived, 2 is missing: 250 us after the reference time, and 80 ms later.
abbrev state : Twcc
state = record {
  records =
      no_arrival
      ∷ record { time_us = pos 64250; size = 100; received = true }
      ∷ no_arrival
      ∷ record { time_us = pos 144250; size = 100; received = true }
      ∷ [];
  base = 1;
  end = 4;
  has_pending = true;
  feedback_count = 7;
}

abbrev packet : Bytes
packet =
    143 ∷ 205 ∷ 0 ∷ 6 ∷ 0 ∷ 0 ∷ 0 ∷ 5 ∷ 0 ∷ 0 ∷ 0 ∷ 9 ∷ 0 ∷ 1 ∷ 0 ∷ 3 ∷ 0 ∷ 0 ∷ 1 ∷ 7 ∷ 0xD2 ∷ 0 ∷ 1
    ∷ 1 ∷ 64 ∷ 0 ∷ 0 ∷ 0 ∷ []

packet_built : (build_feedback 5 9 state).0 ≡ some packet
unfolding build_feedback report packet_of body fields_of padding encode run_from run_length covered
    next_chunk pack delta_bytes to_u16 chunk_bytes reference24 collect status_of div_ℤ clamp16 ◌-ℤ◌
packet_built = refl

build_feedback-read_example :
    IsWhole packet
    × ((read_feedback packet).sender ≡ 5)
    × ((read_feedback packet).media ≡ 9)
    × ((read_feedback packet).base ≡ 1)
    × ((read_feedback packet).feedback_count ≡ 7)
    × ((read_feedback packet).statuses ≡ (collect (pending_window state) 1 state.records none).0)
    × (length (collect (pending_window state) 1 state.records none).0 ≡ pending_window state)
    × ((i : ℕ)
        → i < pending_window state
        → leb 1 (get_or (read_feedback packet).statuses i missing).status
          ≡ (get_or state.records ((1 + i) % 2 ^ 16 % ring_size) no_arrival).received)
build_feedback-read_example =
    build_feedback-read 5 9 state packet (omega arith) (omega arith) (omega arith) packet_built

-- Room for the whole ring.
abbrev full_state : Twcc
full_state = record state { records = replicate ring_size no_arrival }

full_state-IsSound : IsSound full_state
full_state-IsSound = record {
  ring = length-replicate ring_size no_arrival;
  base = omega arith;
  end = omega arith;
  count = omega arith;
}

-- The numbers wrap around between the two arrivals.
abbrev calls : List Op
calls = builds 5 9 ∷ arrives 65535 (pos 1000) 100 ∷ resets ∷ []

arrival-reported_example :
    let now = on_packet 2 (pos 2000) 100 (replay state calls) in
    (sub16 2 now.base < pending_count now)
    × (sub16 2 now.base < 512
        → (p : Bytes) × ((build_feedback 5 9 now).0 ≡ some p)
          × (1 ≤ (get_or (read_feedback p).statuses (sub16 2 now.base) missing).status))
arrival-reported_example =
    arrival-reported state calls 2 (pos 2000) 100 5 9 (_, (omega arith, (_, _))) (omega arith)
      (omega arith) (omega arith)

-- No contributing source; an element of one byte, and the one that is looked for.
abbrev header : Bytes
header = 0x90 ∷ 96 ∷ 0 ∷ 1 ∷ 0 ∷ 0 ∷ 0 ∷ 0 ∷ 0 ∷ 0 ∷ 0 ∷ 1 ∷ []

abbrev elements : List Element
elements = record { id = 1; content = 7 ∷ [] } ∷ record { id = 3; content = 0x12 ∷ 0x34 ∷ [] } ∷ []

sequence_found : parse_transport_sequence (extended header 2 elements 3 (1 ∷ [])) 3 ≡ some 0x1234
unfolding parse_transport_sequence find_extension
sequence_found = refl

parse_transport_sequence-extended_example :
    parse_transport_sequence (extended header 2 elements 3 (1 ∷ [])) 3 ≡ lookup 3 elements
parse_transport_sequence-extended_example =
    parse_transport_sequence-extended 3 2 3 header (1 ∷ []) elements (omega arith) (omega arith)
      (omega arith) (refl, refl, refl)
      (
        (omega arith, omega arith, omega arith, omega arith),
        ((omega arith, omega arith, omega arith, omega arith), _),
      )
      refl

-- Two pending numbers 2048 apart share a record: the report of the earlier clears that of the later, which
-- stays pending.
abbrev aliased : Twcc
aliased = on_packet 2048 (pos 2000) 100 (on_packet 0 (pos 1000) 100 full_state)

later_lost :
    ((get_or (build_feedback 5 9 aliased).1.records 0 no_arrival).received ≡ false)
    × (pending_count (build_feedback 5 9 aliased).1 ≡ 1537)
unfolding build_feedback report collect clear on_packet status_of div_ℤ clamp16 ◌-ℤ◌ pending_count
later_lost = (refl, refl)
