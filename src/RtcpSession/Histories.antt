-- ===== src/RtcpSession/Histories.antt =====
-- Histories of calls of shared/receiver/rtc/enhanced_rtcp_session.cpp, and the calls that leave the keyframe
-- requests alone.
use kmvirtualcamera.Prelude.{
  ℕ, ◌+◌, ◌/◌, ◌≤◌, ◌<◌, ◌≡◌, refl, ◌∙◌, Bool, true, false, not, ◌&&◌, ◌||◌, Option, none, some,
  List, [], ◌∷◌, ◌++◌, arith, leb, ◌==◌, if◌then◌else◌, Bytes, byte, low_bits, All, Bool-cases,
  Option-cases, inl, inr, All-append,
}
use kmvirtualcamera.Prelude.Int.{ℤ, pos, ◌-ℤ◌, leb_ℤ}
use kmvirtualcamera.Wire.{RtpPacket, parse_rtp, parse_rtcp, RtcpPacket}
use kmvirtualcamera.Twcc.{div_ℤ, pending_count, build_feedback}
use kmvirtualcamera.Twcc.Header.{IsFeedback, build_feedback-IsFeedback}
use kmvirtualcamera.RtcpSession.{
  Doubles, Session, write, put32, packet, remb, deliver, mark, record_packet, report, reset_source,
  set_bandwidth_estimator, set_transport_cc_extension_id, stop,
}
use kmvirtualcamera.RtcpSession.Calls.{
  Message, Kind, binary, control, other, report_part, remb_part, twcc_part, feedback, on_transport,
  on_rtp, on_member, on_members, on_message, on_messages, incoming, flush_feedback, request_bitrate,
  request_keyframe, request_keyframe_direct,
}

-- The steps, with the time in microseconds, the estimator's bitrate and whether there is a callback. The
-- first part of RequestKeyframeDirect changes nothing; what it has taken goes into `asks_directly`.
pub data Op : Type 0 where
  incomes : ℕ → ℕ → Bool → List Message → Op
  flushes : ℕ → ℕ → Op
  asks_bitrate : ℕ → Bool → Op
  asks_keyframe : ℕ → Bool → Op
  asks_directly : Bool → ℕ → Op
  sets_estimator : Bool → Op
  sets_extension : ℕ → Op
  stops : Op

abbrev pub time_of : Op → ℕ
time_of (incomes bitrate now callable messages) = now
time_of (flushes bitrate now) = now
time_of (asks_bitrate bitrate callable) = 0
time_of (asks_keyframe now callable) = now
time_of (asks_directly taken now) = now
time_of (sets_estimator value) = 0
time_of (sets_extension id) = 0
time_of stops = 0

-- A picture loss indication.
abbrev pub is_pli : Bytes → Bool
is_pli m = byte m 1 == 206 && low_bits (byte m 0) 5 == 1

-- The times of the steps that send picture loss indications, in microseconds and the newest first.
abbrev pub stamps : ℕ → List Bytes → List ℕ → List ℕ
stamps now [] times = times
stamps now (m ∷ ms) times = if is_pli m then now ∷ stamps now ms times else stamps now ms times

-- By whole milliseconds, as the throttle counts, and by the microseconds between.
abbrev pub Spaced : List ℕ → Type 0
Spaced [] = Unit {0}
Spaced (t ∷ []) = Unit {0}
Spaced (t ∷ u ∷ ts) = (u / 1000 + 50 ≤ t / 1000) × (u + 49000 < t) × Spaced (u ∷ ts)

abbrev pub IsQuiet : List Bytes → Type 0
IsQuiet ms = All (λ m. is_pli m ≡ false) ms

-- The calls that do not ask for a keyframe.
abbrev pub IsOther : Op → Type 0
IsOther (asks_keyframe now callable) = ⊥
IsOther (asks_directly taken now) = ⊥
IsOther (incomes bitrate now callable messages) = Unit {0}
IsOther (flushes bitrate now) = Unit {0}
IsOther (asks_bitrate bitrate callable) = Unit {0}
IsOther (sets_estimator value) = Unit {0}
IsOther (sets_extension id) = Unit {0}
IsOther stops = Unit {0}

pub stamps-quiet : (now : ℕ) (ms : List Bytes) (ts : List ℕ) → IsQuiet ms → stamps now ms ts ≡ ts
stamps-quiet now [] ts q = refl
stamps-quiet now (m ∷ ms) ts (p, q) = rw p (stamps-quiet now ms ts q)

remb-quiet : (ssrc bitrate : ℕ) → is_pli (remb ssrc bitrate) ≡ false
unfolding remb put32 packet write
remb-quiet ssrc bitrate = refl

asked-IsQuiet : (b : Bool) (ssrc bitrate : ℕ) → IsQuiet (if b then [] else remb ssrc bitrate ∷ [])
asked-IsQuiet true ssrc bitrate = tt
asked-IsQuiet false ssrc bitrate = (remb-quiet ssrc bitrate, tt)

feedback-IsQuiet :
    (built : Option Bytes) → IsFeedback built → IsQuiet (elim built [ none ↦ [] | some m ↦ m ∷ [] ])
feedback-IsQuiet none h = tt
feedback-IsQuiet (some m) h = (rw h refl, tt)

module _ {J : Type 0} (D : Doubles J) where
  unfoldable pub perform : Op → Session J → List Bytes × Session J
  perform (incomes bitrate now callable messages) s =
      let (output, sent, s') = incoming D bitrate (pos now) callable messages s in (sent, s')
  perform (flushes bitrate now) s = flush_feedback D bitrate (pos now) s
  perform (asks_bitrate bitrate callable) s =
      let (accepted, sent, s') = request_bitrate D bitrate callable s in (sent, s')
  perform (asks_keyframe now callable) s =
      let (accepted, sent, s') = request_keyframe D (pos now) callable s in (sent, s')
  perform (asks_directly taken now) s = request_keyframe_direct D taken (pos now) s
  perform (sets_estimator value) s = ([], set_bandwidth_estimator D value s)
  perform (sets_extension id) s = ([], set_transport_cc_extension_id D id s)
  perform stops s = ([], stop D s)

  -- The calls, the newest first: the times of the keyframe requests, and the state.
  unfoldable pub run : Session J → List Op → List ℕ × Session J
  run s [] = ([], s)
  run s (o ∷ os) =
      let (times, t) = run s os in let (sent, u) = perform o t in (stamps (time_of o) sent times, u)

  -- The steps that send no request and keep the time of the last one.
  abbrev pub Keeps : Session J → List Bytes × Session J → Type 0
  Keeps s (sent, t) = IsQuiet sent × (t.last_pli ≡ s.last_pli)

  record_packet-last :
      (seq timestamp : ℕ) (now : ℤ) (s : Session J)
      → (record_packet D seq timestamp now s).last_pli ≡ s.last_pli
  unfolding record_packet mark
  record_packet-last seq timestamp now s = ground arith

  on_transport-last :
      (now : ℤ) (b : Bytes) (s : Session J) → (on_transport D now b s).last_pli ≡ s.last_pli
  unfolding on_transport
  on_transport-last now b s = ground arith

  on_members-last :
      (now : ℤ) (ps : List RtcpPacket) (s : Session J)
      → (on_members D now ps s).last_pli ≡ s.last_pli
  unfolding on_members on_member
  on_members-last now [] s = refl
  on_members-last now (p ∷ ps) s = on_members-last now ps (on_member D now p s) ∙ ground arith

  on_rtp-last :
      (now : ℤ) (b : Bytes) (p : RtpPacket) (s : Session J)
      → (on_rtp D now b p s).last_pli ≡ s.last_pli
  unfolding on_rtp reset_source
  on_rtp-last now b p s =
      let s' = if s.ssrc == p.ssrc then s else reset_source D p.ssrc s in
      on_transport-last now b (record_packet D p.sequence p.timestamp now s')
      ∙ record_packet-last p.sequence p.timestamp now s'
      ∙ ground arith

  kind-last :
      (now : ℤ) (k : Kind) (b : Bytes) (s : Session J)
      → (on_message D now (record { kind = k; bytes = b }) s).1.last_pli ≡ s.last_pli
  unfolding on_message
  kind-last now binary b s = elim (Option-cases (parse_rtp b)) [
    | inl e ↦ rw (e, on_message) refl
    | inr (p, e) ↦ rw (e, on_message) (on_rtp-last now b p s)
  ]
  kind-last now control b s = elim (Option-cases (parse_rtcp b)) [
    | inl e ↦ rw (e, on_message) refl
    | inr (ps, e) ↦ rw (e, on_message) (on_members-last now ps s)
  ]
  kind-last now other b s = refl

  on_messages-last :
      (now : ℤ) (ms : List Message) (s : Session J)
      → (on_messages D now ms s).1.last_pli ≡ s.last_pli
  unfolding on_messages
  on_messages-last now [] s = refl
  on_messages-last now (m ∷ ms) s =
      on_messages-last now ms (on_message D now m s).1 ∙ kind-last now m.kind m.bytes s

  report-Keeps : (now : ℤ) (s : Session J) → Keeps s (report_part D now s)
  unfolding report_part report put32 packet write
  report-Keeps now s = elim (Bool-cases (s.started && leb_ℤ (pos 500) (now -ℤ s.last_rr))) [
    | inl t ↦ rw t ((refl, tt), refl)
    | inr t ↦ rw t (tt, refl)
  ]

  remb-Keeps : (bitrate : ℕ) (now : ℤ) (s : Session J) → Keeps s (remb_part D bitrate now s)
  unfolding remb_part remb put32 packet write
  remb-Keeps bitrate now s =
      elim (Bool-cases (s.estimator && leb_ℤ (pos 1000) (now -ℤ s.last_remb))) [
        | inl t ↦ rw t ((refl, tt), refl)
        | inr t ↦ rw t (tt, refl)
      ]

  twcc-Keeps : (now : ℤ) (s : Session J) → Keeps s (twcc_part D now s)
  unfolding twcc_part
  twcc-Keeps now s =
      elim (Bool-cases (
        not (s.twcc_id == 0)
        && (leb_ℤ (pos 25) (now -ℤ s.last_twcc) || leb 16 (pending_count s.twcc)))) [
          | inl t ↦
              let built = (build_feedback 1 s.ssrc s.twcc).0 in
              rw t (feedback-IsQuiet built (build_feedback-IsFeedback 1 s.ssrc s.twcc), refl)
          | inr t ↦ rw t (tt, refl)
        ]

  feedback-Keeps : (bitrate : ℕ) (now : ℤ) (s : Session J) → Keeps s (feedback D bitrate now s)
  unfolding feedback
  feedback-Keeps bitrate now s =
      let (first, s1) = report_part D now s in
      let (second, s2) = remb_part D bitrate now s1 in
      let (third, s3) = twcc_part D now s2 in
      let (p, u) = report-Keeps now s in
      let (q, v) = remb-Keeps bitrate now s1 in
      let (r, w) = twcc-Keeps now s2 in
      elim (Bool-cases (s.ssrc == 0 || s.stopped)) [
        | inl t ↦ rw t (tt, refl)
        | inr t ↦ rw t (
          All-append (λ m. is_pli m ≡ false) (first ++ second) third
              (All-append (λ m. is_pli m ≡ false) first second p q) r,
          w ∙ v ∙ u,
        )
      ]

  deliver-IsQuiet : (callable : Bool) (ms : List Bytes) → IsQuiet ms → IsQuiet (deliver callable ms)
  unfolding deliver
  deliver-IsQuiet true ms q = q
  deliver-IsQuiet false ms q = tt

  unless-Keeps :
      (b : Bool) (sent : List Bytes) (s t : Session J)
      → Keeps s (sent, t)
      → Keeps s (if b then ([], s) else (sent, t))
  unless-Keeps true sent s t k = (tt, refl)
  unless-Keeps false sent s t k = k

  incoming-Keeps :
      (b : Bool) (output : List Message) (sent : List Bytes) (s t : Session J)
      → Keeps s (sent, t)
      → let (o, m, u) : List Message × List Bytes × Session J =
          if b then ([], [], s) else (output, sent, t) in
        Keeps s (m, u)
  incoming-Keeps true output sent s t k = (tt, refl)
  incoming-Keeps false output sent s t k = k

  bitrate-Keeps :
      (b : Bool) (sent : List Bytes) (s t : Session J)
      → Keeps s (sent, t)
      → let (o, m, u) : Bool × List Bytes × Session J =
          if b then (false, [], s) else (true, sent, t) in
        Keeps s (m, u)
  bitrate-Keeps true sent s t k = (tt, refl)
  bitrate-Keeps false sent s t k = k

  pub perform-Keeps : (o : Op) (s : Session J) → IsOther o → Keeps s (perform o s)
  unfolding perform incoming flush_feedback request_bitrate set_bandwidth_estimator
      set_transport_cc_extension_id stop
  perform-Keeps (incomes bitrate now callable messages) s h =
      let (output, s1) = on_messages D (pos now) messages (record s { sender = callable }) in
      let (sent, s2) = feedback D bitrate (div_ℤ (pos now) 1000) s1 in
      let (q, e) = feedback-Keeps bitrate (div_ℤ (pos now) 1000) s1 in
      incoming-Keeps s.stopped output (deliver callable sent) s s2 (
        deliver-IsQuiet callable sent q,
        e ∙ on_messages-last (pos now) messages (record s { sender = callable }),
      )
  perform-Keeps (flushes bitrate now) s h =
      let (sent, s1) = feedback D bitrate (div_ℤ (pos now) 1000) s in
      let (q, e) = feedback-Keeps bitrate (div_ℤ (pos now) 1000) s in
      unless-Keeps s.stopped (deliver s.sender sent) s s1 (deliver-IsQuiet s.sender sent q, e)
  perform-Keeps (asks_bitrate bitrate callable) s h =
      let sent = if s.ssrc == 0 then [] else remb s.ssrc bitrate ∷ [] in
      bitrate-Keeps s.stopped (deliver callable sent) s (record s { sender = callable })
        (deliver-IsQuiet callable sent (asked-IsQuiet (s.ssrc == 0) s.ssrc bitrate), refl)
  perform-Keeps (asks_keyframe now callable) s h = absurd h
  perform-Keeps (asks_directly taken now) s h = absurd h
  perform-Keeps (sets_estimator value) s h = (tt, refl)
  perform-Keeps (sets_extension id) s h = (tt, refl)
  perform-Keeps stops s h = (tt, refl)
