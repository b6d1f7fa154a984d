-- ===== src/BandwidthEstimator/Increase.antt =====
-- When shared/receiver/rtc/bandwidth_estimator.cpp raises its estimate, over any history of calls.
use kmvirtualcamera.Prelude.{
  ℕ, suc, ◌+◌, ◌%◌, ◌^◌, ◌≤◌, ◌<◌, ◌≡◌, refl, sym, ap, ◌∙◌, Bool, true, false, not, ◌&&◌, List, [],
  ◌∷◌, arith, ltb, if◌then◌else◌, Bool-cases, inl, inr,
}
use kmvirtualcamera.Prelude.Int.{ℤ, pos, ◌-ℤ◌, leb_ℤ}
use kmvirtualcamera.BandwidthEstimator.{
  Floats, Config, Estimator, is_zero_time, make, reset, on_rtp_packet_received,
  on_loss_event_detected, next_estimate, close_window, evaluate_estimation, window_loss,
}
use kmvirtualcamera.BandwidthEstimator.Estimate.{
  IsFloats, IsConfig, Op, receives, loses, evaluates, resets, step, replay, replay-InRange,
}

module _ {R : Type 0} (F : Floats R) where
  -- Whether a call comes at or behind the end of a window.
  abbrev pub ends_window : Op → Estimator R → Bool
  ends_window (evaluates now out) e =
      not (is_zero_time e.window_start) && leb_ℤ e.config.window_duration (now -ℤ e.window_start)
  ends_window (receives size seq now) e = false
  ends_window loses e = false
  ends_window resets e = false

  -- The end of a window without a loss.
  abbrev pub ends_clean : Op → Estimator R → Bool
  ends_clean o e =
      ends_window o e && (not (F.is_heavy (window_loss F e)) && F.is_zero (window_loss F e))

  -- A loss event, a reset, or the end of a window with heavy loss.
  abbrev pub breaks : Op → Estimator R → Bool
  breaks (evaluates now out) e = ends_window (evaluates now out) e && F.is_heavy (window_loss F e)
  breaks (receives size seq now) e = false
  breaks loses e = true
  breaks resets e = true

  -- The windows without a loss that have ended since the last of these; the newest call first.
  abbrev pub clean_ends : Config → List Op → ℕ
  clean_ends c [] = 0
  clean_ends c (o ∷ os) =
      if breaks o (replay F c os)
      then 0
      else if ends_clean o (replay F c os)
      then suc (clean_ends c os)
      else clean_ends c os

  next_estimate-clean :
      (c : Config) (loss : R) (n clean : ℕ)
      → (next_estimate F c loss n clean).1 ≡ (
          if F.is_heavy loss
          then 0
          else if not (F.is_heavy loss) && F.is_zero loss
          then suc clean
          else clean)
  unfolding next_estimate
  next_estimate-clean c loss n clean = ground arith

  evaluate-clean :
      (now : ℤ) (out : ℕ) (e : Estimator R)
      → (evaluate_estimation F now out e).2.clean_windows ≡ (
          if breaks (evaluates now out) e
          then 0
          else if ends_clean (evaluates now out) e
          then suc e.clean_windows
          else e.clean_windows)
  unfolding evaluate_estimation close_window
  evaluate-clean now out e = elim (Bool-cases (is_zero_time e.window_start)) [
    | inl q ↦ rw q refl
    | inr q ↦ elim (Bool-cases (leb_ℤ e.config.window_duration (now -ℤ e.window_start))) [
      | inl w ↦
          rw (q, w) (next_estimate-clean e.config (window_loss F e) e.estimate e.clean_windows)
      | inr w ↦ elim (Bool-cases (leb_ℤ (pos 1000) (now -ℤ e.last_evaluation))) [
        | inl v ↦ rw (q, w, v) refl
        | inr v ↦ rw (q, w, v) refl
      ]
    ]
  ]

  replay-clean : (c : Config) (os : List Op) → (replay F c os).clean_windows ≡ clean_ends c os
  unfolding replay step make reset on_rtp_packet_received on_loss_event_detected
  replay-clean c [] = refl
  replay-clean c (receives size seq now ∷ os) = replay-clean c os
  replay-clean c (loses ∷ os) = refl
  replay-clean c (resets ∷ os) = refl
  replay-clean c (evaluates now out ∷ os) =
      evaluate-clean now out (replay F c os)
      ∙ ap
          (λ n.
            if breaks (evaluates now out) (replay F c os)
            then 0
            else if ends_clean (evaluates now out) (replay F c os)
            then suc n
            else n)
          (replay-clean c os)

module _ {R : Type 0} (F : Floats R) (law : IsFloats F) where
  lost-zero :
      (e : Estimator R)
      → e.received + e.lost < 2 ^ 32
      → F.is_zero (window_loss F e) ≡ true
      → e.lost ≡ 0
  lost-zero e h z = elim (Bool-cases (ltb 0 ((e.received + e.lost) % 2 ^ 32))) [
    | inl q ↦ law.zero_loss e.lost ((e.received + e.lost) % 2 ^ 32) (ground (arith, q)) (
        ap
          (λ b.
            F.is_zero (if b then F.ratio e.lost ((e.received + e.lost) % 2 ^ 32) else F.zero_ratio))
          (sym q)
        ∙ z)
    | inr q ↦ ground (arith, q, h)
  ]

  next_estimate-increase :
      (c : Config) (loss : R) (n clean : ℕ)
      → n < (next_estimate F c loss n clean).0
      → c.min_bitrate ≤ n
      → (F.is_heavy loss ≡ false)
        × (F.is_zero loss ≡ true)
        × (1 ≤ clean)
        × ((next_estimate F c loss n clean).0 ≤ n + 100000)
  unfolding next_estimate
  next_estimate-increase c loss n clean h k =
      let low = law.low80 n in
      elim (Bool-cases (F.is_heavy loss)) [
        | inl q ↦ absurd (ground (arith, h, q, low, k))
        | inr q ↦ elim (Bool-cases (F.is_zero loss)) [
          | inl z ↦ (q, z, ground (arith, h, q, z), ground (arith, q, z))
          | inr z ↦ absurd (ground (arith, h, q, z))
        ]
      ]

  evaluate-increase :
      (now : ℤ) (out : ℕ) (e : Estimator R)
      → e.config.min_bitrate ≤ e.estimate
      → e.estimate < (evaluate_estimation F now out e).2.estimate
      → (ends_clean F (evaluates now out) e ≡ true)
        × (1 ≤ e.clean_windows)
        × ((evaluate_estimation F now out e).2.estimate ≤ e.estimate + 100000)
  unfolding evaluate_estimation close_window
  evaluate-increase now out e k = elim (Bool-cases (is_zero_time e.window_start)) [
    | inl q ↦ rw q (λ h. absurd (omega (arith, h)))
    | inr q ↦ elim (Bool-cases (leb_ℤ e.config.window_duration (now -ℤ e.window_start))) [
      | inl w ↦
          rw (q, w)
            (λ h.
              let (light, zero, clean, up) =
                next_estimate-increase e.config (window_loss F e) e.estimate e.clean_windows h k in
              (ground (arith, light, zero), clean, up))
      | inr w ↦ elim (Bool-cases (leb_ℤ (pos 1000) (now -ℤ e.last_evaluation))) [
        | inl v ↦ rw (q, w, v) (λ h. absurd (omega (arith, h)))
        | inr v ↦ rw (q, w, v) (λ h. absurd (omega (arith, h)))
      ]
    ]
  ]

  -- After any history of calls, at the end of which the window has fewer than 2 ^ 32 packets: an evaluation
  -- raises the estimate only at the end of a window of loss ratio zero, which has no lost packet, and only
  -- if one such window at least has ended since the last reset, loss event or window with heavy
  -- loss, with windows of a light loss in between or not; and it raises it by 100 kbit/s at most. A ratio is
  -- zero only if no packet is lost, the scaled rates are no larger than the rates that they scale, and in the
  -- configuration the start lies between the minimum and the maximum, which leaves room for a step up in 32
  -- bits.
  pub replay-increase :
      (c : Config) (os : List Op) (now : ℤ) (out : ℕ)
      → IsConfig c
      → let e = replay F c os in
        e.received + e.lost < 2 ^ 32
        → e.estimate < (evaluate_estimation F now out e).2.estimate
        → (ends_clean F (evaluates now out) e ≡ true)
          × (e.lost ≡ 0)
          × (1 ≤ clean_ends F c os)
          × ((evaluate_estimation F now out e).2.estimate ≤ e.estimate + 100000)
  replay-increase c os now out ok few h =
      let e = replay F c os in
      let (same, low, high) = replay-InRange F law c ok os in
      let bound : e.config.min_bitrate ≤ e.estimate =
        omega (arith, ap (λ d. d.min_bitrate) same, low) in
      let (clean, one, up) = evaluate-increase now out e bound h in
      (clean, lost-zero e few (ground (arith, clean)), omega (arith, one, replay-clean F c os), up)
