-- ===== src/ReceiverEngine.antt =====
-- shared/receiver/engine/receiver_engine.{h,cpp}: the policy around both depacketizers. The handlers
-- that the platform sets are a list of signals, the newest first. A depacketizer's callbacks are
-- run on its new events in order, after its own step, which reads nothing of the engine; the handlers
-- must not re-enter, so no callback of the data channel is cut short.

pub mod Orderly
pub mod History
mod Tests
use kmvirtualcamera.Prelude.{
  ℕ, suc, ◌+◌, ◌-◌, ◌/◌, ◌%◌, ◌^◌, Bool, true, false, not, ◌&&◌, ◌||◌, Option, none, some, List, [],
  ◌∷◌, ltb, ◌==◌, if◌then◌else◌, Bytes,
}
use kmvirtualcamera.Prelude.Int.{ℤ, pos, negsuc, ◌-ℤ◌, ltb_ℤ}
use kmvirtualcamera.Timing.Unwrap
use kmvirtualcamera.Timing.Unwrap.{Unwrapper, unwrap}
use kmvirtualcamera.Wire.{RtpPacket, parse_rtp}
use kmvirtualcamera.RtpDepacketizer
use kmvirtualcamera.RtpDepacketizer.{Depacketizer, Event, frame, keyframe_request, process}
use kmvirtualcamera.DcDepacketizer
use kmvirtualcamera.DcDepacketizer.{DcDepacketizer, Control, Output}
use kmvirtualcamera.DcDepacketizer.Drain.{process_packet_at, on_timer_tick_at}
use kmvirtualcamera.VideoQueue.{configured_idr}

pub data Domain : Type 0 where
  rtp_90_khz sender_microseconds : Domain

pub record VideoFrame : Type 0 where
  pub annex_b : Bytes
  pub media_ticks : ℤ
  pub domain : Domain
  pub received_ns : ℕ
  pub generation : ℕ
  pub random_access : Bool

pub data Channel : Type 0 where
  rtcp data_channel : Channel

-- The calls of the four handlers; a keyframe request keeps the time of its call.
pub data Signal : Type 0 where
  frame_ready : VideoFrame → Signal
  keyframe_wanted : Channel → ℤ → Signal
  control_sent : Control → Signal
  loss : ℕ → Signal

pub record Stats : Type 0 where
  pub rtp_packets : ℕ
  pub rtp_packets_dropped : ℕ
  pub data_channel_packets : ℕ
  pub rtp_frames : ℕ
  pub data_channel_frames : ℕ
  pub recovery_signals : ℕ
  pub keyframe_requests : ℕ
  pub control_messages : ℕ
  pub last_frame_ns : ℕ

pub record ReceiverEngine : Type 0 where
  pub rtp : Depacketizer
  pub dc : DcDepacketizer
  pub rtp_unwrapper : Unwrapper
  pub dc_unwrapper : Unwrapper
  pub payload_types : List ℕ
  pub stats : Stats
  pub generation : ℕ
  pub arrival_ns : ℕ
  pub last_request : ℤ
  pub video_ssrc : ℕ
  pub have_ssrc : Bool
  pub dc_video : Bool
  pub dc_open : Bool
  pub need_keyframe : Bool
  pub signals : List Signal

abbrev pub inc64 : ℕ → ℕ
inc64 n = (n + 1) % 2 ^ 64

-- int64_t of a uint64_t.
unfoldable pub to_int64 : ℕ → ℤ
to_int64 n = if ltb n (2 ^ 63) then pos n else pos n -ℤ pos (2 ^ 64)

unfoldable pub initial : ReceiverEngine
initial = record {
  rtp = RtpDepacketizer.initial;
  dc = DcDepacketizer.initial;
  rtp_unwrapper = Unwrap.initial;
  dc_unwrapper = Unwrap.initial;
  payload_types = [];
  stats = record {
    rtp_packets = 0;
    rtp_packets_dropped = 0;
    data_channel_packets = 0;
    rtp_frames = 0;
    data_channel_frames = 0;
    recovery_signals = 0;
    keyframe_requests = 0;
    control_messages = 0;
    last_frame_ns = 0;
  };
  generation = 0;
  arrival_ns = 0;
  last_request = negsuc 0;
  video_ssrc = 0;
  have_ssrc = false;
  dc_video = false;
  dc_open = false;
  need_keyframe = true;
  signals = [];
}

-- tryDispatchKeyframeRequest.
unfoldable pub try_dispatch : ℕ → ReceiverEngine → ReceiverEngine
try_dispatch now_ns e =
    let now = to_int64 now_ns in
    let channel = if e.dc_video || e.dc_open then data_channel else rtcp in
    if not (ltb_ℤ e.last_request (pos 0)) && ltb_ℤ (now -ℤ e.last_request) (pos 50000000)
    then e
    else record e {
      last_request = now;
      stats = record e.stats { keyframe_requests = inc64 e.stats.keyframe_requests };
      signals = keyframe_wanted channel now ∷ e.signals;
    }

unfoldable pub emit_frame : Bytes → ℤ → Domain → ReceiverEngine → ReceiverEngine
emit_frame bytes ticks domain e =
    let key = configured_idr bytes in
    let counted : Stats = elim domain [
      | sender_microseconds ↦ record e.stats {
        data_channel_frames = inc64 e.stats.data_channel_frames;
      }
      | rtp_90_khz ↦ record e.stats { rtp_frames = inc64 e.stats.rtp_frames }
    ] in
    record e {
      need_keyframe = if key then false else e.need_keyframe;
      stats = record counted { last_frame_ns = e.arrival_ns };
      signals =
          frame_ready (record {
            annex_b = bytes;
            media_ticks = ticks;
            domain = domain;
            received_ns = e.arrival_ns;
            generation = e.generation;
            random_access = key;
          })
          ∷ e.signals;
    }

-- The two callbacks of the RTP depacketizer.
unfoldable pub on_rtp_event : Event → ReceiverEngine → ReceiverEngine
on_rtp_event (frame bytes ticks) e =
    let (value, unwrapper) = unwrap e.rtp_unwrapper ticks in
    if e.dc_video
    then e
    else emit_frame bytes value rtp_90_khz (record e { rtp_unwrapper = unwrapper })
on_rtp_event keyframe_request e = try_dispatch e.arrival_ns (record e {
  stats = record e.stats { recovery_signals = inc64 e.stats.recovery_signals };
  signals = loss e.arrival_ns ∷ e.signals;
  need_keyframe = true;
})

-- The events are the newest first.
unfoldable pub on_rtp_events : List Event → ReceiverEngine → ReceiverEngine
on_rtp_events [] e = e
on_rtp_events (x ∷ older) e = on_rtp_event x (on_rtp_events older e)

unfoldable pub member : ℕ → List ℕ → Bool
member x [] = false
member x (y ∷ ys) = y == x || member x ys

-- `processRtpVideoPacket` once the packet is parsed and its payload type is one of the set.
unfoldable pub on_rtp_packet : RtpPacket → Bytes → ReceiverEngine → ReceiverEngine
on_rtp_packet p bytes e =
    let known =
      if not e.have_ssrc || not (e.video_ssrc == p.ssrc)
      then record e {
        rtp_unwrapper = Unwrap.reset e.rtp_unwrapper;
        video_ssrc = p.ssrc;
        have_ssrc = true;
      }
      else e in
    let rtp = process bytes (record known.rtp { events = [] }) in
    if known.dc_video
    then record known {
      stats = record known.stats { rtp_packets_dropped = inc64 known.stats.rtp_packets_dropped };
    }
    else on_rtp_events rtp.events (record known { rtp = rtp })

unfoldable pub process_rtp_video_packet : Bytes → ℕ → ReceiverEngine → ReceiverEngine
process_rtp_video_packet bytes arrival_ns e =
    let counted = record e {
      arrival_ns = arrival_ns;
      stats = record e.stats { rtp_packets = inc64 e.stats.rtp_packets };
    } in
    let dropped = record counted {
      stats = record counted.stats {
        rtp_packets_dropped = inc64 counted.stats.rtp_packets_dropped;
      };
    } in
    elim (parse_rtp bytes) [
      | none ↦ dropped
      | some p ↦
          if member p.payload_type e.payload_types then on_rtp_packet p bytes counted else dropped
    ]

-- The two callbacks of the data-channel depacketizer, over a batch.
unfoldable pub on_controls : List Control → ReceiverEngine → ReceiverEngine
on_controls [] e = e
on_controls (c ∷ cs) e = on_controls cs (record e {
  stats = record e.stats { control_messages = inc64 e.stats.control_messages };
  signals = control_sent c ∷ e.signals;
})

unfoldable pub on_dc_frames : List Output → ReceiverEngine → ReceiverEngine
on_dc_frames [] e = e
on_dc_frames (o ∷ os) e =
    let (value, unwrapper) = unwrap e.dc_unwrapper (o.timestamp % 2 ^ 32) in
    on_dc_frames os (
      emit_frame o.bytes value sender_microseconds
        (record e { dc_video = true; dc_unwrapper = unwrapper }))

unfoldable pub on_batch : DcDepacketizer → ReceiverEngine → ReceiverEngine
on_batch dc e = on_dc_frames dc.frames_out (
    on_controls dc.controls_out
      (record e { dc = record dc { frames_out = []; controls_out = [] } }))

unfoldable pub process_data_channel_packet : Bytes → ℕ → ReceiverEngine → ReceiverEngine
process_data_channel_packet bytes arrival_ns e =
    on_batch (process_packet_at bytes (pos (arrival_ns / 1000)) e.dc) (record e {
      arrival_ns = arrival_ns;
      stats = record e.stats { data_channel_packets = inc64 e.stats.data_channel_packets };
    })

unfoldable pub on_timer : ℕ → ReceiverEngine → ReceiverEngine
on_timer now_ns e =
    let ticked =
      on_batch (on_timer_tick_at (pos (now_ns / 1000)) e.dc) (record e { arrival_ns = now_ns }) in
    if ticked.need_keyframe then try_dispatch now_ns ticked else ticked

unfoldable pub on_data_channel_video_closed : ReceiverEngine → ReceiverEngine
on_data_channel_video_closed e = record e {
  dc_video = false;
  dc_open = false;
  dc = DcDepacketizer.reset e.dc;
  dc_unwrapper = Unwrap.reset e.dc_unwrapper;
  rtp = RtpDepacketizer.reset e.rtp;
  rtp_unwrapper = Unwrap.reset e.rtp_unwrapper;
  need_keyframe = true;
}

unfoldable pub request_keyframe : ℕ → ReceiverEngine → ReceiverEngine
request_keyframe now_ns e = try_dispatch now_ns (record e { need_keyframe = true })

unfoldable pub reset : ReceiverEngine → ReceiverEngine
reset e = record (on_data_channel_video_closed e) {
  have_ssrc = false;
  video_ssrc = 0;
  last_request = negsuc 0;
}
