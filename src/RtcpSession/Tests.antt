-- ===== src/RtcpSession/Tests.antt =====
-- Runs of shared/receiver/rtc/enhanced_rtcp_session.cpp, and the theorems at concrete sessions. The jitter
-- of these runs is 0.
use kmvirtualcamera.Prelude.{
  ℕ, ◌+◌, ◌-◌, ◌*◌, ◌/◌, ◌%◌, ◌^◌, ◌≤◌, ◌<◌, ◌≡◌, refl, true, some, List, [], ◌∷◌, arith, byte,
  length,
}
use kmvirtualcamera.Prelude.Int.{ℤ, pos, ◌-ℤ◌}
use kmvirtualcamera.Wire.{be16, be32, parse_rtcp}
use kmvirtualcamera.Twcc.{div_ℤ}
use kmvirtualcamera.RtcpSession.{
  Doubles, Session, make, reset_source, remb, pli, report, deliver, fir, put32, packet, write, stop,
}
use kmvirtualcamera.RtcpSession.Calls.{
  request_keyframe, take_sender, request_keyframe_direct, incoming, Message, binary,
}
use kmvirtualcamera.RtcpSession.Messages.{remb_read, report_read}
use kmvirtualcamera.RtcpSession.Counted.{record_all, received-bound}
use kmvirtualcamera.RtcpSession.Received.{
  Packets, sent, AreNear, in_time, without_repeats, record_all-without_repeats,
}
use kmvirtualcamera.RtcpSession.Histories.{
  Op, incomes, asks_keyframe, asks_directly, Spaced, perform, run,
}
use kmvirtualcamera.RtcpSession.Requests.{run-Spaced, stop-silent}

abbrev still : Doubles ℕ
still = record {
  no_jitter = 0;
  next_jitter = λ elapsed rate delta jitter. 0;
  clamped = λ jitter. 0;
}

abbrev session : Session ℕ
session = record (make still 90000 (pos 0)) { ssrc = 7 }

-- A repeated packet, one that wraps around, and one that is late.
abbrev packets : List (ℕ × ℕ × ℤ)
packets =
    (65534, 9000, pos 40) ∷ (1, 6000, pos 30) ∷ (65535, 3000, pos 20) ∷ (65535, 3000, pos 10) ∷ []

remb_read_example :
    let m = remb 7 5000000 in
    let mantissa = byte m 17 % 4 * 2 ^ 16 + be16 m 18 in
    let scale = 2 ^ (byte m 17 / 4) in
    (parse_rtcp m ≡ some (record { body = m; type = 206; count = 15 } ∷ []))
    × (be32 m 8 ≡ 0)
    × (be32 m 20 ≡ 7)
    × (mantissa * scale ≤ 5000000)
    × (5000000 < (mantissa + 1) * scale)
remb_read_example = remb_read 7 5000000 (omega arith) (omega arith)

abbrev reporting : Session ℕ
reporting = record session { started = true; base = 65535; highest = 65545; received = 9 }

report_read_example :
    let (m, s') = report still (pos 900) reporting in
    (parse_rtcp m ≡ some (record { body = m; type = 201; count = 1 } ∷ []))
    × (be32 m 8 ≡ 7)
    × (byte m 13 * 2 ^ 16 + be16 m 14 ≡ 2)
    × (be32 m 16 ≡ 65545)
    × (be32 m 20 ≡ 0)
    × (be32 m 24 ≡ 0)
    × (s'.previous_expected ≡ 11)
    × (s'.previous_received ≡ 9)
unfolding make
report_read_example =
    report_read still (pos 900) reporting (omega arith) (omega arith) (omega arith) (omega arith)

-- By their full numbers: the wrap-around, a repetition, one before the first, and one that is too late.
abbrev numbered : Packets
numbered =
    (65540, 9000, pos 70)
    ∷ (68000, 9000, pos 60)
    ∷ (65530, 9000, pos 50)
    ∷ (65537, 9000, pos 40)
    ∷ (65537, 6000, pos 30)
    ∷ (65535, 3000, pos 20)
    ∷ (65534, 3000, pos 10)
    ∷ []

four_counted : length (without_repeats (in_time numbered)) ≡ 4
four_counted = refl

numbered-AreNear : AreNear numbered
numbered-AreNear = (
  omega arith,
  omega arith,
  (
    omega arith,
    omega arith,
    (
      omega arith,
      omega arith,
      (
        omega arith,
        omega arith,
        (omega arith, omega arith, (omega arith, omega arith, omega arith)),
      ),
    ),
  ),
)

record_all-without_repeats_example :
    let t = record_all still (reset_source still 7 session) (sent numbered) in
    (t.received ≡ length (without_repeats (in_time numbered)))
    × (t.base ≡ 65534)
    × (t.highest ≡ 68000)
record_all-without_repeats_example =
    record_all-without_repeats still 7 session (65540, 9000, pos 70)
      ((68000, 9000, pos 60)
        ∷ (65530, 9000, pos 50)
        ∷ (65537, 9000, pos 40)
        ∷ (65537, 6000, pos 30)
        ∷ (65535, 3000, pos 20)
        ∷ (65534, 3000, pos 10)
        ∷ [])
      numbered-AreNear (omega arith)

received-bound_example :
    let t = record_all still (reset_source still 7 session) packets in
    (t.base ≤ t.highest) × (t.highest + 1 < 2 ^ 64) × (t.received ≤ t.highest - t.base + 1)
received-bound_example =
    received-bound still 7 session packets
      (omega arith, (omega arith, (omega arith, (omega arith, tt)))) (omega arith)

-- A packet of the source 7.
abbrev media : Message
media = record { kind = binary; bytes = 0x80 ∷ 96 ∷ 0 ∷ 1 ∷ 0 ∷ 0 ∷ 0 ∷ 9 ∷ 0 ∷ 0 ∷ 0 ∷ 7 ∷ 1 ∷ [] }

-- The newest call first.
abbrev calls : List Op
calls =
    asks_directly true 160000
    ∷ asks_keyframe 130000 true
    ∷ asks_keyframe 100000 true
    ∷ incomes 0 90000 true (media ∷ [])
    ∷ []

two_requests :
    (run still session
      (asks_directly true 160000 ∷ asks_keyframe 130000 true ∷ asks_keyframe 100000 true ∷ [])).0
    ≡ 160000 ∷ 100000 ∷ []
unfolding run perform request_keyframe request_keyframe_direct make div_ℤ ◌-ℤ◌ deliver pli fir put32
    packet write
two_requests = refl

-- The callback is taken before the session is stopped: the second part sends nothing.
stopped_between :
    let s : Session ℕ = record session { sender = true } in
    (take_sender still s ≡ true)
    × ((request_keyframe_direct still true (pos 160000) (stop still s)).0 ≡ [])
unfolding take_sender request_keyframe_direct request_keyframe stop make
stopped_between = (refl, refl)

run-Spaced_example : Spaced (run still (make still 90000 (pos 0)) calls).0
run-Spaced_example = run-Spaced still 90000 (pos 0) calls

stop-silent_example :
    let t = (run still (stop still session) calls).1 in
    ((perform still (asks_keyframe 900000 true) t).0 ≡ [])
    × ((incoming still 0 (pos 900000) true [] t).0 ≡ [])
stop-silent_example =
    stop-silent still session calls (asks_keyframe 900000 true) 0 (pos 900000) true []
