-- ===== src/RtcpSession/Calls.antt =====
-- The calls of shared/receiver/rtc/enhanced_rtcp_session.cpp.
use kmvirtualcamera.Prelude.{
  ℕ, ◌+◌, ◌%◌, ◌^◌, Bool, true, false, not, ◌&&◌, ◌||◌, none, some, List, [], ◌∷◌, ◌++◌, leb, ◌==◌,
  if◌then◌else◌, length, Bytes,
}
use kmvirtualcamera.Prelude.Int.{ℤ, pos, ◌-ℤ◌, ltb_ℤ, leb_ℤ}
use kmvirtualcamera.Wire.{be32, be64, RtpPacket, RtcpPacket, parse_rtp, parse_rtcp}
use kmvirtualcamera.Twcc.{pending_count, parse_transport_sequence, on_packet, build_feedback, div_ℤ}
use kmvirtualcamera.RtcpSession.{
  Doubles, Session, deliver, remb, pli, fir, reset_source, record_packet, report,
}

pub data Kind : Type 0 where
  binary control other : Kind

pub record Message : Type 0 where
  pub kind : Kind
  pub bytes : Bytes

module _ {J : Type 0} (D : Doubles J) where
  -- The three parts of `feedback`, each with what it adds to the messages.
  unfoldable pub report_part : ℤ → Session J → List Bytes × Session J
  report_part now s =
      let (m, s') = report D now s in
      if s.started && leb_ℤ (pos 500) (now -ℤ s.last_rr)
      then (m ∷ [], record s' { last_rr = now })
      else ([], s)

  unfoldable pub remb_part : ℕ → ℤ → Session J → List Bytes × Session J
  remb_part bitrate now s =
      if s.estimator && leb_ℤ (pos 1000) (now -ℤ s.last_remb)
      then (remb s.ssrc bitrate ∷ [], record s { last_remb = now })
      else ([], s)

  unfoldable pub twcc_part : ℤ → Session J → List Bytes × Session J
  twcc_part now s =
      let (bytes, twcc) = build_feedback 1 s.ssrc s.twcc in
      if not (s.twcc_id == 0)
        && (leb_ℤ (pos 25) (now -ℤ s.last_twcc) || leb 16 (pending_count s.twcc))
      then (elim bytes [ none ↦ [] | some m ↦ m ∷ [] ], record s { twcc = twcc; last_twcc = now })
      else ([], s)

  unfoldable pub feedback : ℕ → ℤ → Session J → List Bytes × Session J
  feedback bitrate now s =
      let (first, s1) = report_part now s in
      let (second, s2) = remb_part bitrate now s1 in
      let (third, s3) = twcc_part now s2 in
      if s.ssrc == 0 || s.stopped then ([], s) else (first ++ second ++ third, s3)

  -- What the transport-wide number of a packet does, if it has one.
  unfoldable pub on_transport : ℤ → Bytes → Session J → Session J
  on_transport now bytes s =
      if s.twcc_id == 0 then s else elim (parse_transport_sequence bytes s.twcc_id) [
        | none ↦ s
        | some sequence ↦ record s { twcc = on_packet sequence now (length bytes % 2 ^ 16) s.twcc }
      ]

  unfoldable pub on_rtp : ℤ → Bytes → RtpPacket → Session J → Session J
  on_rtp now bytes p s = on_transport now bytes (
      record_packet D p.sequence p.timestamp now
        (if s.ssrc == p.ssrc then s else reset_source D p.ssrc s))

  -- A sender report D of the source, or the first one.
  unfoldable pub on_member : ℤ → RtcpPacket → Session J → Session J
  on_member now part s =
      let source = be32 part.body 4 in
      if part.type == 200 && (s.ssrc == 0 || s.ssrc == source)
      then record s { ssrc = source; sr_ntp = be64 part.body 8; sr_arrival_ms = div_ℤ now 1000 }
      else s

  unfoldable pub on_members : ℤ → List RtcpPacket → Session J → Session J
  on_members now [] s = s
  on_members now (part ∷ parts) s = on_members now parts (on_member now part s)

  -- One message: whether it is handed on.
  unfoldable pub on_message : ℤ → Message → Session J → Bool × Session J
  on_message now m s = elim m.kind [
    | binary ↦ elim (parse_rtp m.bytes) [
      | none ↦ (false, s)
      | some p ↦ (true, on_rtp now m.bytes p s)
    ]
    | control ↦ elim (parse_rtcp m.bytes) [
      | none ↦ (false, s)
      | some parts ↦ (false, on_members now parts s)
    ]
    | other ↦ (false, s)
  ]

  unfoldable pub on_messages : ℤ → List Message → Session J → List Message × Session J
  on_messages now [] s = ([], s)
  on_messages now (m ∷ ms) s =
      let (kept, s1) = on_message now m s in
      let (rest, s2) = on_messages now ms s1 in (if kept then m ∷ rest else rest, s2)

  -- The messages handed on and the messages sent.
  unfoldable pub incoming :
      ℕ → ℤ → Bool → List Message → Session J → List Message × List Bytes × Session J
  incoming bitrate now callable messages s =
      let (output, s1) = on_messages now messages (record s { sender = callable }) in
      let (sent, s2) = feedback bitrate (div_ℤ now 1000) s1 in
      if s.stopped then ([], [], s) else (output, deliver callable sent, s2)

  unfoldable pub flush_feedback : ℕ → ℤ → Session J → List Bytes × Session J
  flush_feedback bitrate now s =
      let (sent, s1) = feedback bitrate (div_ℤ now 1000) s in
      if s.stopped then ([], s) else (deliver s.sender sent, s1)

  unfoldable pub request_bitrate : ℕ → Bool → Session J → Bool × List Bytes × Session J
  request_bitrate bitrate callable s = if s.stopped then (false, [], s) else (
    true,
    deliver callable (if s.ssrc == 0 then [] else remb s.ssrc bitrate ∷ []),
    record s { sender = callable },
  )

  unfoldable pub request_keyframe : ℤ → Bool → Session J → Bool × List Bytes × Session J
  request_keyframe now callable s =
      let now = div_ℤ now 1000 in
      if s.stopped
      then (false, [], s)
      else if not (s.ssrc == 0) && (ltb_ℤ s.last_pli (pos 0) || leb_ℤ (pos 50) (now -ℤ s.last_pli))
      then (
        true,
        deliver callable (pli s.ssrc ∷ fir s.ssrc s.fir_sequence ∷ []),
        record s { sender = callable; last_pli = now; fir_sequence = (s.fir_sequence + 1) % 256 },
      )
      else (true, [], record s { sender = callable })

  -- The first part of RequestKeyframeDirect, under the mutex: whether it has taken a callback.
  unfoldable pub take_sender : Session J → Bool
  take_sender s = not s.stopped && s.sender

  -- The second part, which takes the mutex anew, so that other calls may have come between.
  unfoldable pub request_keyframe_direct : Bool → ℤ → Session J → List Bytes × Session J
  request_keyframe_direct taken now s =
      let (accepted, sent, s1) = request_keyframe now true s in
      if taken then (sent, s1) else ([], s)
