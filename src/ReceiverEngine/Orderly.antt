-- ===== src/ReceiverEngine/Orderly.antt =====
-- shared/receiver/engine/receiver_engine.cpp: the order of its signals, at the throttle and where a
-- frame is handed on.
use kmvirtualcamera.Prelude.{
  ℕ, ◌+◌, ◌^◌, ◌≤◌, ◌<◌, ◌≡◌, refl, Bool, true, false, not, ◌&&◌, List, [], ◌∷◌, arith, ltb,
  if◌then◌else◌, Bytes, All, Bool-cases, inl, inr,
}
use kmvirtualcamera.Prelude.Int.{ℤ, pos, negsuc, pos_part, neg_part, ◌-ℤ◌, ltb_ℤ}
use kmvirtualcamera.Timing.Unwrap.{unwrap}
use kmvirtualcamera.RtpDepacketizer.{Event, frame, keyframe_request}
use kmvirtualcamera.ReceiverEngine.{
  Domain, rtp_90_khz, sender_microseconds, Signal, frame_ready, keyframe_wanted, control_sent, loss,
  ReceiverEngine, to_int64, try_dispatch, emit_frame, on_rtp_event, on_rtp_events,
}

-- The times of the keyframe requests and the paths of the frames, the newest first.
abbrev pub requests : List Signal → List ℤ
requests [] = []
requests (frame_ready f ∷ ss) = requests ss
requests (keyframe_wanted c t ∷ ss) = t ∷ requests ss
requests (control_sent c ∷ ss) = requests ss
requests (loss t ∷ ss) = requests ss

abbrev pub domains : List Signal → List Domain
domains [] = []
domains (frame_ready f ∷ ss) = f.domain ∷ domains ss
domains (keyframe_wanted c t ∷ ss) = domains ss
domains (control_sent c ∷ ss) = domains ss
domains (loss t ∷ ss) = domains ss

-- Each request comes 50 ms after the one before it, at least.
abbrev pub Spaced : List ℤ → Type 0
Spaced [] = Unit {0}
Spaced (t ∷ []) = neg_part t ≡ 0
Spaced (t ∷ u ∷ ts) = (neg_part t ≡ 0) × (pos_part u + 50000000 ≤ pos_part t) × Spaced (u ∷ ts)

abbrev pub IsRtp : Domain → Type 0
IsRtp d = d ≡ rtp_90_khz

-- Before a frame of the RTP path, none came from the data channel.
abbrev pub Arbitrated : List Domain → Type 0
Arbitrated [] = Unit {0}
Arbitrated (rtp_90_khz ∷ ds) = All IsRtp ds × Arbitrated ds
Arbitrated (sender_microseconds ∷ ds) = Arbitrated ds

-- `lastKeyframeRequestNs_` is the time of the newest request.
abbrev pub IsLast : ℤ → List ℤ → Type 0
IsLast l [] = l ≡ negsuc 0
IsLast l (t ∷ ts) = l ≡ t

pub record IsOrderly (e : ReceiverEngine) : Type 0 where
  pub spaced : Spaced (requests e.signals)
  pub arbitrated : Arbitrated (domains e.signals)
  pub last : IsLast e.last_request (requests e.signals)
  pub path : e.dc_video ≡ false → All IsRtp (domains e.signals)
  pub clock : e.arrival_ns < 2 ^ 63

-- A request that passes the throttle, by the request before it.
gap :
    (now : ℕ) (t : ℤ)
    → neg_part t ≡ 0
    → (not (ltb_ℤ t (pos 0)) && ltb_ℤ (pos now -ℤ t) (pos 50000000)) ≡ false
    → pos_part t + 50000000 ≤ now
unfolding ◌-ℤ◌
gap now (pos n) s e = ground (arith, e)
gap now (negsuc n) s e = absurd (omega arith)

Spaced-step :
    (now : ℕ) (l : ℤ) (ts : List ℤ)
    → IsLast l ts
    → Spaced ts
    → (not (ltb_ℤ l (pos 0)) && ltb_ℤ (pos now -ℤ l) (pos 50000000)) ≡ false
    → Spaced (pos now ∷ ts)
Spaced-step now l [] h s e = refl
Spaced-step now l (t ∷ []) h s e = (refl, gap now t s (rw (← h) e), s)
Spaced-step now l (t ∷ u ∷ ts) h (n, g, s) e = (refl, gap now t n (rw (← h) e), (n, g, s))

pub try_dispatch-IsOrderly :
    (now : ℕ) (e : ReceiverEngine) → now < 2 ^ 63 → IsOrderly e → IsOrderly (try_dispatch now e)
unfolding try_dispatch to_int64
try_dispatch-IsOrderly now e h v =
    let t : ltb now (2 ^ 63) ≡ true = ground (arith, h) in
    elim (Bool-cases
      (not (ltb_ℤ e.last_request (pos 0)) && ltb_ℤ (pos now -ℤ e.last_request) (pos 50000000))) [
        | inl b ↦ rw (t, b) v
        | inr b ↦
            rw (t, b)
              (record {
                spaced = Spaced-step now e.last_request (requests e.signals) v.last v.spaced b;
                arbitrated = v.arbitrated;
                last = refl;
                path = v.path;
                clock = v.clock;
              })
      ]

-- A frame of the RTP path while that path is active, and a frame of the data channel.
emit_rtp-IsOrderly :
    (b : Bytes) (t : ℤ) (e : ReceiverEngine)
    → e.dc_video ≡ false
    → IsOrderly e
    → IsOrderly (emit_frame b t rtp_90_khz e)
unfolding emit_frame
emit_rtp-IsOrderly b t e d v = record {
  spaced = v.spaced;
  arbitrated = (v.path d, v.arbitrated);
  last = v.last;
  path = λ p. (refl, v.path p);
  clock = v.clock;
}

pub emit_dc-IsOrderly :
    (b : Bytes) (t : ℤ) (e : ReceiverEngine)
    → e.dc_video ≡ true
    → IsOrderly e
    → IsOrderly (emit_frame b t sender_microseconds e)
unfolding emit_frame
emit_dc-IsOrderly b t e d v = record {
  spaced = v.spaced;
  arbitrated = v.arbitrated;
  last = v.last;
  path = λ p. cc;
  clock = v.clock;
}

-- A step that signals nothing new of either kind.
pub quiet-IsOrderly :
    (e f : ReceiverEngine)
    → requests f.signals ≡ requests e.signals
    → domains f.signals ≡ domains e.signals
    → f.last_request ≡ e.last_request
    → (f.dc_video ≡ false → e.dc_video ≡ false)
    → f.arrival_ns < 2 ^ 63
    → IsOrderly e
    → IsOrderly f
quiet-IsOrderly e f r d l p c v = record {
  spaced = rw r v.spaced;
  arbitrated = rw d v.arbitrated;
  last = rw (r, l) v.last;
  path = λ x. rw d (v.path (p x));
  clock = c;
}

pub if_not-IsOrderly :
    (t : Bool) (e f : ReceiverEngine)
    → IsOrderly e
    → (t ≡ false → IsOrderly f)
    → IsOrderly (if t then e else f)
if_not-IsOrderly true e f v w = v
if_not-IsOrderly false e f v w = w refl

on_rtp_event-IsOrderly :
    (x : Event) (e : ReceiverEngine) → IsOrderly e → IsOrderly (on_rtp_event x e)
unfolding on_rtp_event
on_rtp_event-IsOrderly (frame b t) e v =
    let (value, unwrapper) = unwrap e.rtp_unwrapper t in
    let known : ReceiverEngine = record e { rtp_unwrapper = unwrapper } in
    if_not-IsOrderly e.dc_video e (emit_frame b value rtp_90_khz known) v (λ d.
      emit_rtp-IsOrderly b value known d
        (quiet-IsOrderly e known refl refl refl (λ x. x) v.clock v))
on_rtp_event-IsOrderly keyframe_request e v =
    try_dispatch-IsOrderly e.arrival_ns _ v.clock
      (quiet-IsOrderly e _ refl refl refl (λ x. x) v.clock v)

pub on_rtp_events-IsOrderly :
    (xs : List Event) (e : ReceiverEngine) → IsOrderly e → IsOrderly (on_rtp_events xs e)
unfolding on_rtp_events
on_rtp_events-IsOrderly [] e v = v
on_rtp_events-IsOrderly (x ∷ xs) e v =
    on_rtp_event-IsOrderly x (on_rtp_events xs e) (on_rtp_events-IsOrderly xs e v)
