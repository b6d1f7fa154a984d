-- ===== src/RtcpSession.antt =====
-- shared/receiver/rtc/enhanced_rtcp_session.{h,cpp}: what a receiver reports about the packets that it
-- gets, and what it asks the sender for. A step is what a call does under the mutex, and
-- RequestKeyframeDirect, which takes the mutex twice, is two steps. The clock is an argument, in
-- microseconds. The answer of a step is what the call hands on once the mutex is released, which
-- reads nothing of the session; when the callback runs is left open. The `double` of the
-- jitter is a parameter, and so is, in each call that reads it, the current bitrate of the
-- estimator, of which the session keeps whether it has one. Bits that are or'ed into fields of their
-- own are added. RtcpSession/Calls is the second half of the model.
pub mod Calls
pub mod Messages
mod Arrivals
pub mod Counted
pub mod Received
mod Histories
pub mod Requests
mod Tests
use kmvirtualcamera.Prelude.{
  ℕ, zero, suc, ◌+◌, ◌-◌, ◌*◌, ◌/◌, ◌%◌, ◌^◌, Bool, true, false, not, ◌&&◌, ◌||◌, Option, none,
  some, List, [], ◌∷◌, ◌++◌, ltb, leb, ◌==◌, if◌then◌else◌, length, get_or, set, replicate, min,
  max, Bytes, sub32,
}
use kmvirtualcamera.Prelude.Int.{ℤ, pos, negsuc, pos_part, neg_part, ◌-ℤ◌, ltb_ℤ, leb_ℤ}
use kmvirtualcamera.Wire.{be32, be64, sequence_delta, RtpPacket, RtcpPacket, parse_rtp, parse_rtcp}
use kmvirtualcamera.Twcc.{
  Twcc, reset, pending_count, parse_transport_sequence, on_packet, build_feedback, write_be32,
  div_ℤ,
}

-- uint64_t(a - b).
abbrev pub sub64 : ℕ → ℕ → ℕ
sub64 a b = (a + 2 ^ 64 - b) % 2 ^ 64

-- The jitter: 0, the next one from the microseconds between two arrivals, the clock rate and the
-- difference of the timestamps, and the value as a uint32_t.
pub record Doubles (J : Type 0) : Type 0 where
  pub no_jitter : J
  pub next_jitter : ℤ → ℕ → ℤ → J → J
  pub clamped : J → ℕ

-- `send_` is kept as whether there is a callback.
pub record Session (J : Type 0) : Type 0 where
  pub stopped : Bool
  pub started : Bool
  pub sender : Bool
  pub estimator : Bool
  pub twcc : Twcc
  pub twcc_id : ℕ
  pub fir_sequence : ℕ
  pub ssrc : ℕ
  pub last_timestamp : ℕ
  pub clock_rate : ℕ
  pub base : ℕ
  pub highest : ℕ
  pub received : ℕ
  pub previous_expected : ℕ
  pub previous_received : ℕ
  pub seen : List ℕ
  pub last_arrival_us : ℤ
  pub jitter : J
  pub sr_ntp : ℕ
  pub sr_arrival_ms : ℤ
  pub last_rr : ℤ
  pub last_remb : ℤ
  pub last_twcc : ℤ
  pub last_pli : ℤ

-- std::memcpy and stores into a message.
unfoldable pub write : Bytes → ℕ → Bytes → Bytes
write m o [] = m
write m o (b ∷ bs) = write (set m o b) (o + 1) bs

unfoldable pub put32 : Bytes → ℕ → ℕ → Bytes
put32 m o v = write m o (write_be32 v)

unfoldable pub packet : ℕ → ℕ → ℕ → Bytes
packet size type count =
    let words = size / 4 - 1 in
    let m =
      write (replicate size 0) 0 ((128 + count) ∷ type ∷ words / 2 ^ 8 % 256 ∷ words % 256 ∷ []) in
    put32 m 4 1

unfoldable pub deliver : Bool → List Bytes → List Bytes
deliver callable messages = if callable then messages else []

-- The loop that halves the bitrate; a uint32_t takes 14 rounds at most.
unfoldable pub halve : ℕ → ℕ → ℕ → ℕ × ℕ
halve zero bitrate exponent = (bitrate, exponent)
halve (suc fuel) bitrate exponent =
    let rest = halve fuel (bitrate / 2) (exponent + 1) in
    if ltb 0x3ffff bitrate then rest else (bitrate, exponent)

unfoldable pub remb : ℕ → ℕ → Bytes
remb ssrc bitrate =
    let (mantissa, exponent) = halve 32 bitrate 0 in
    let m = write (packet 24 206 15) 12 (0x52 ∷ 0x45 ∷ 0x4d ∷ 0x42 ∷ []) in
    let m = write m 16 (1 ∷ (exponent * 4 + mantissa / 2 ^ 16) % 256 ∷ []) in
    let m = write m 18 (mantissa / 2 ^ 8 % 256 ∷ mantissa % 256 ∷ []) in put32 m 20 ssrc

unfoldable pub pli : ℕ → Bytes
pli ssrc = put32 (packet 12 206 1) 8 ssrc

unfoldable pub fir : ℕ → ℕ → Bytes
fir ssrc sequence = write (put32 (packet 20 206 4) 12 ssrc) 16 (sequence ∷ [])

-- uint32_t(a - b) as a signed difference.
unfoldable pub timestamp_delta : ℕ → ℕ → ℤ
timestamp_delta a b =
    let raw = sub32 a b in if ltb raw (2 ^ 31) then pos raw else pos raw -ℤ pos (2 ^ 32)

module _ {J : Type 0} (D : Doubles J) where
  -- The constructor, at a time in microseconds.
  unfoldable pub make : ℕ → ℤ → Session J
  make clock_rate now = record {
    stopped = false;
    started = false;
    sender = false;
    estimator = false;
    twcc =
        reset (record { records = []; base = 0; end = 0; has_pending = false; feedback_count = 0 });
    twcc_id = 0;
    fir_sequence = 0;
    ssrc = 0;
    last_timestamp = 0;
    clock_rate = clock_rate;
    base = 0;
    highest = 0;
    received = 0;
    previous_expected = 0;
    previous_received = 0;
    seen = replicate 2048 (2 ^ 64 - 1);
    last_arrival_us = pos 0;
    jitter = D.no_jitter;
    sr_ntp = 0;
    sr_arrival_ms = negsuc 0;
    last_rr = div_ℤ now 1000;
    last_remb = div_ℤ now 1000;
    last_twcc = div_ℤ now 1000;
    last_pli = negsuc 0;
  }

  unfoldable pub set_bandwidth_estimator : Bool → Session J → Session J
  set_bandwidth_estimator value s = record s { estimator = value }

  unfoldable pub set_transport_cc_extension_id : ℕ → Session J → Session J
  set_transport_cc_extension_id id s = record s { twcc_id = id }

  unfoldable pub stop : Session J → Session J
  stop s = record s { stopped = true; sender = false; estimator = false }

  unfoldable pub reset_source : ℕ → Session J → Session J
  reset_source ssrc s = record s {
    ssrc = ssrc;
    started = false;
    seen = replicate 2048 (2 ^ 64 - 1);
    twcc = reset s.twcc;
    base = 0;
    highest = 0;
    received = 0;
    previous_expected = 0;
    previous_received = 0;
    sr_ntp = 0;
    sr_arrival_ms = negsuc 0;
    jitter = D.no_jitter;
  }

  unfoldable pub admit : ℕ → Session J → Option ℕ
  admit extended s =
      if ltb extended s.base
        || (ltb extended s.highest && leb 2048 (s.highest - extended))
        || get_or s.seen (extended % 2048) 0 == extended
      then none
      else some extended

  -- The extended number of a packet behind the first, unless it is not to be counted.
  unfoldable pub extend : ℕ → Session J → Option ℕ
  extend seq s =
      let delta = sequence_delta seq (s.highest % 2 ^ 16) in
      let extended =
        if ltb_ℤ delta (pos 0)
        then s.highest - neg_part delta
        else (s.highest + pos_part delta) % 2 ^ 64 in
      if ltb_ℤ delta (pos 0) && ltb s.highest (neg_part delta) then none else admit extended s

  -- The end of `record`.
  unfoldable pub mark : ℕ → ℕ → ℤ → Session J → Session J
  mark extended timestamp arrival s = record s {
    seen = set s.seen (extended % 2048) extended;
    received = (s.received + 1) % 2 ^ 64;
    last_timestamp = timestamp;
    last_arrival_us = arrival;
  }

  -- `record`.
  unfoldable pub record_packet : ℕ → ℕ → ℤ → Session J → Session J
  record_packet seq timestamp arrival s =
      if not s.started
      then mark seq timestamp arrival (record s { base = seq; highest = seq; started = true })
      else elim (extend seq s) [
        | none ↦ s
        | some extended ↦ mark extended timestamp arrival (record s {
          highest = max s.highest extended;
          jitter =
              D.next_jitter (arrival -ℤ s.last_arrival_us) s.clock_rate
                (timestamp_delta timestamp s.last_timestamp) s.jitter;
        })
      ]

  -- The delay since the last sender report, in units of 1 / 65536 seconds.
  unfoldable pub delay_since : ℤ → ℤ → ℕ
  delay_since arrival now =
      if leb_ℤ (pos 0) arrival && leb_ℤ arrival now
      then pos_part (now -ℤ arrival) % 2 ^ 64 * 65536 % 2 ^ 64 / 1000
      else 0

  abbrev pub excess : ℕ → ℕ → ℕ
  excess a b = if ltb b a then a - b else 0

  unfoldable pub fraction : ℕ → ℕ → ℕ
  fraction expected received =
      if expected == 0 then 0 else min 255 (excess expected received * 256 % 2 ^ 64 / expected)

  unfoldable pub expected_of : Session J → ℕ
  expected_of s = (sub64 s.highest s.base + 1) % 2 ^ 64

  unfoldable pub report : ℤ → Session J → Bytes × Session J
  report now s =
      let expected = expected_of s in
      let lost = min 0x7fffff (excess expected s.received) in
      let m = put32 (packet 32 201 1) 8 s.ssrc in
      let m = write m 12 (
        fraction (sub64 expected s.previous_expected) (sub64 s.received s.previous_received)
        ∷ []) in
      let m = write m 13 (lost / 2 ^ 16 % 256 ∷ lost / 2 ^ 8 % 256 ∷ lost % 256 ∷ []) in
      let m = put32 m 16 (s.highest % 2 ^ 32) in
      let m = put32 m 20 (D.clamped s.jitter) in
      let m = put32 m 24 (s.sr_ntp / 2 ^ 16 % 2 ^ 32) in
      (
        put32 m 28 (min (2 ^ 32 - 1) (delay_since s.sr_arrival_ms now)),
        record s { previous_expected = expected; previous_received = s.received },
      )
