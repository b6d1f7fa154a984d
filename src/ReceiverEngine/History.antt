-- ===== src/ReceiverEngine/History.antt =====
-- shared/receiver/engine/receiver_engine.cpp: the signals of a session, up to the closing of the data
-- channel.
use kmvirtualcamera.Prelude.{
  ℕ, ◌^◌, ◌<◌, ◌/◌, ◌%◌, sym, refl, true, not, ◌||◌, List, [], ◌∷◌, arith, ◌==◌, if◌then◌else◌,
  Bytes, All, Bool-cases, Option-cases, inl, inr,
}
use kmvirtualcamera.Prelude.Int.{pos}
use mathlib.Core.Path.{subst}
use kmvirtualcamera.Wire.{RtpPacket, parse_rtp}
use kmvirtualcamera.Timing.Unwrap.{unwrap}
use kmvirtualcamera.DcDepacketizer.Drain.{on_timer_tick_at}
use kmvirtualcamera.RtpDepacketizer.{process}
use kmvirtualcamera.DcDepacketizer.{DcDepacketizer, Control, Output}
use kmvirtualcamera.ReceiverEngine.{
  sender_microseconds, inc64, ReceiverEngine, initial, try_dispatch, emit_frame, on_rtp_events,
  member, on_rtp_packet, process_rtp_video_packet, on_controls, on_dc_frames, on_batch,
  process_data_channel_packet, on_timer, request_keyframe,
}
use kmvirtualcamera.ReceiverEngine.Orderly.{
  requests, domains, Spaced, Arbitrated, IsOrderly, try_dispatch-IsOrderly, emit_dc-IsOrderly,
  quiet-IsOrderly, if_not-IsOrderly, on_rtp_events-IsOrderly,
}

on_rtp_packet-IsOrderly :
    (p : RtpPacket) (b : Bytes) (e : ReceiverEngine) → IsOrderly e → IsOrderly (on_rtp_packet p b e)
unfolding on_rtp_packet
on_rtp_packet-IsOrderly p b e v =
    elim (Bool-cases (not e.have_ssrc || not (e.video_ssrc == p.ssrc))) [
      | inl t ↦ rw t (filtered p b _ (quiet-IsOrderly e _ refl refl refl (λ x. x) v.clock v))
      | inr t ↦ rw t (filtered p b e v)
    ]
  where
    filtered :
        (p : RtpPacket) (b : Bytes) (k : ReceiverEngine)
        → IsOrderly k
        → let rtp = process b (record k.rtp { events = [] }) in
          IsOrderly (
            if k.dc_video
            then record k {
              stats = record k.stats { rtp_packets_dropped = inc64 k.stats.rtp_packets_dropped };
            }
            else on_rtp_events rtp.events (record k { rtp = rtp }))
    filtered p b k v =
        let rtp = process b (record k.rtp { events = [] }) in
        let entered : ReceiverEngine = record k { rtp = rtp } in
        if_not-IsOrderly k.dc_video _ _ (quiet-IsOrderly k _ refl refl refl (λ x. x) v.clock v)
          (λ d.
            on_rtp_events-IsOrderly rtp.events entered
              (quiet-IsOrderly k entered refl refl refl (λ x. x) v.clock v))

process_rtp-IsOrderly :
    (b : Bytes) (now : ℕ) (e : ReceiverEngine)
    → now < 2 ^ 63
    → IsOrderly e
    → IsOrderly (process_rtp_video_packet b now e)
unfolding process_rtp_video_packet
process_rtp-IsOrderly b now e h v = elim (Option-cases (parse_rtp b)) [
  | inl n ↦ rw (n, process_rtp_video_packet) (quiet-IsOrderly e _ refl refl refl (λ x. x) h v)
  | inr (p, n) ↦ elim (Bool-cases (member p.payload_type e.payload_types)) [
    | inl m ↦
        rw (n, m, process_rtp_video_packet)
          (on_rtp_packet-IsOrderly p b _ (quiet-IsOrderly e _ refl refl refl (λ x. x) h v))
    | inr m ↦ rw (n, m, process_rtp_video_packet) (quiet-IsOrderly e _ refl refl refl (λ x. x) h v)
  ]
]

on_controls-IsOrderly :
    (cs : List Control) (e : ReceiverEngine) → IsOrderly e → IsOrderly (on_controls cs e)
unfolding on_controls
on_controls-IsOrderly [] e v = v
on_controls-IsOrderly (c ∷ cs) e v =
    on_controls-IsOrderly cs _ (quiet-IsOrderly e _ refl refl refl (λ x. x) v.clock v)

on_dc_frames-IsOrderly :
    (os : List Output) (e : ReceiverEngine) → IsOrderly e → IsOrderly (on_dc_frames os e)
unfolding on_dc_frames
on_dc_frames-IsOrderly [] e v = v
on_dc_frames-IsOrderly (o ∷ os) e v =
    let (value, unwrapper) = unwrap e.dc_unwrapper (o.timestamp % 2 ^ 32) in
    let won : ReceiverEngine = record e { dc_video = true; dc_unwrapper = unwrapper } in
    on_dc_frames-IsOrderly os (emit_frame o.bytes value sender_microseconds won) (
      emit_dc-IsOrderly o.bytes value won refl
        (quiet-IsOrderly e won refl refl refl (λ x. cc) v.clock v))

on_batch-IsOrderly :
    (d : DcDepacketizer) (e : ReceiverEngine) → IsOrderly e → IsOrderly (on_batch d e)
unfolding on_batch
on_batch-IsOrderly d e v =
    on_dc_frames-IsOrderly d.frames_out _ (
      on_controls-IsOrderly d.controls_out _
        (quiet-IsOrderly e _ refl refl refl (λ x. x) v.clock v))

process_dc-IsOrderly :
    (b : Bytes) (now : ℕ) (e : ReceiverEngine)
    → now < 2 ^ 63
    → IsOrderly e
    → IsOrderly (process_data_channel_packet b now e)
unfolding process_data_channel_packet
process_dc-IsOrderly b now e h v =
    on_batch-IsOrderly _ _ (quiet-IsOrderly e _ refl refl refl (λ x. x) h v)

on_timer-IsOrderly :
    (now : ℕ) (e : ReceiverEngine) → now < 2 ^ 63 → IsOrderly e → IsOrderly (on_timer now e)
unfolding on_timer
on_timer-IsOrderly now e h v =
    let entered : ReceiverEngine = record e { arrival_ns = now } in
    let ticked = on_batch (on_timer_tick_at (pos (now / 1000)) e.dc) entered in
    let w : IsOrderly ticked =
      on_batch-IsOrderly (on_timer_tick_at (pos (now / 1000)) e.dc) entered
        (quiet-IsOrderly e entered refl refl refl (λ x. x) h v) in
    elim (Bool-cases ticked.need_keyframe) [
      | inl t ↦
          subst (λ b. IsOrderly (if b then try_dispatch now ticked else ticked)) (sym t)
            (try_dispatch-IsOrderly now ticked h w)
      | inr t ↦ subst (λ b. IsOrderly (if b then try_dispatch now ticked else ticked)) (sym t) w
    ]

pub data Op : Type 0 where
  -- The five calls that carry a time or a setting, and the opening of the data channel.
  rtp_packets data_channel_packets : Bytes → ℕ → Op
  timers wanted : ℕ → Op
  types : List ℕ → Op
  generations : ℕ → Op
  opens : Op

unfoldable pub step : ReceiverEngine → Op → ReceiverEngine
step e (rtp_packets b now) = process_rtp_video_packet b now e
step e (data_channel_packets b now) = process_data_channel_packet b now e
step e (timers now) = on_timer now e
step e (wanted now) = request_keyframe now e
step e (types ts) = record e { payload_types = ts }
step e (generations g) = record e { generation = g }
step e opens = record e { dc_open = true }

unfoldable pub run : ReceiverEngine → List Op → ReceiverEngine
run e [] = e
run e (o ∷ os) = run (step e o) os

-- The clock has not reached 2 ^ 63 nanoseconds, 292 years.
abbrev pub InTime : Op → Type 0
InTime (rtp_packets b now) = now < 2 ^ 63
InTime (data_channel_packets b now) = now < 2 ^ 63
InTime (timers now) = now < 2 ^ 63
InTime (wanted now) = now < 2 ^ 63
InTime (types ts) = Unit {0}
InTime (generations g) = Unit {0}
InTime opens = Unit {0}

step-IsOrderly : (o : Op) (e : ReceiverEngine) → InTime o → IsOrderly e → IsOrderly (step e o)
unfolding step request_keyframe
step-IsOrderly (rtp_packets b now) e h v = process_rtp-IsOrderly b now e h v
step-IsOrderly (data_channel_packets b now) e h v = process_dc-IsOrderly b now e h v
step-IsOrderly (timers now) e h v = on_timer-IsOrderly now e h v
step-IsOrderly (wanted now) e h v =
    try_dispatch-IsOrderly now _ h (quiet-IsOrderly e _ refl refl refl (λ x. x) v.clock v)
step-IsOrderly (types ts) e h v = quiet-IsOrderly e _ refl refl refl (λ x. x) v.clock v
step-IsOrderly (generations g) e h v = quiet-IsOrderly e _ refl refl refl (λ x. x) v.clock v
step-IsOrderly opens e h v = quiet-IsOrderly e _ refl refl refl (λ x. x) v.clock v

run_from-IsOrderly :
    (os : List Op) (e : ReceiverEngine) → All InTime os → IsOrderly e → IsOrderly (run e os)
unfolding run
run_from-IsOrderly [] e h v = v
run_from-IsOrderly (o ∷ os) e (h, hs) v =
    run_from-IsOrderly os (step e o) hs (step-IsOrderly o e h v)

-- Whatever arrives at whatever times below 2 ^ 63 ns, until the data channel closes or the session is
-- reset: each keyframe request comes at least 50 ms after the one before it, and once a frame has
-- come from the data channel, none comes from the RTP path.
pub run-IsOrderly :
    (os : List Op)
    → All InTime os
    → let e = run initial os in Spaced (requests e.signals) × Arbitrated (domains e.signals)
run-IsOrderly os h =
    let v = run_from-IsOrderly os initial h (
      unfold initial in
      (record {
        spaced = tt;
        arbitrated = tt;
        last = refl;
        path = λ x. tt;
        clock = omega arith;
      })) in
    (v.spaced, v.arbitrated)
