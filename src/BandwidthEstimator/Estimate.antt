-- ===== src/BandwidthEstimator/Estimate.antt =====
-- The estimate of shared/receiver/rtc/bandwidth_estimator.cpp over any history of calls.
use kmvirtualcamera.Prelude.{
  ℕ, ◌+◌, ◌^◌, ◌≤◌, ◌<◌, ◌≡◌, refl, sym, ap, true, List, [], ◌∷◌, arith, Bool-cases, inl, inr,
}
use mathlib.Core.Path.{subst}
use kmvirtualcamera.Prelude.Int.{ℤ, pos, pos_part, ◌-ℤ◌, leb_ℤ}
use kmvirtualcamera.BandwidthEstimator.{
  Floats, Config, Estimator, is_zero_time, make, reset, on_rtp_packet_received,
  on_loss_event_detected, next_estimate, close_window, evaluate_estimation, window_loss,
}

-- A multiplication by less than one, truncated, is no increase; the ratio of lost packets is zero only
-- if none is lost.
pub record IsFloats {R : Type 0} (F : Floats R) : Type 0 where
  pub low85 : (n : ℕ) → F.scale85 n ≤ n
  pub low80 : (n : ℕ) → F.scale80 n ≤ n
  pub zero_loss : (lost total : ℕ) → 0 < total → F.is_zero (F.ratio lost total) ≡ true → lost ≡ 0

-- The step up from the maximum does not wrap around.
pub record IsConfig (c : Config) : Type 0 where
  pub low : c.min_bitrate ≤ c.start_bitrate
  pub high : c.start_bitrate ≤ c.max_bitrate
  pub room : c.max_bitrate + 100000 < 2 ^ 32

pub data Op : Type 0 where
  receives : ℕ → ℕ → ℤ → Op
  loses : Op
  evaluates : ℤ → ℕ → Op
  resets : Op

module _ {R : Type 0} (F : Floats R) where
  unfoldable pub step : Op → Estimator R → Estimator R
  step (receives size seq now) e = on_rtp_packet_received F size seq now e
  step loses e = on_loss_event_detected F e
  step (evaluates now out) e = (evaluate_estimation F now out e).2
  step resets e = reset F e

  -- The calls, the newest first.
  unfoldable pub replay : Config → List Op → Estimator R
  replay c [] = make F c
  replay c (o ∷ os) = step o (replay c os)

  abbrev pub InRange : Config → Estimator R → Type 0
  InRange c e = (e.config ≡ c) × (c.min_bitrate ≤ e.estimate) × (e.estimate ≤ c.max_bitrate)

module _ {R : Type 0} (F : Floats R) (law : IsFloats F) (c : Config) (ok : IsConfig c) where
  next_estimate_bounds :
      (loss : R) (n clean : ℕ)
      → c.min_bitrate ≤ n
      → n ≤ c.max_bitrate
      → (c.min_bitrate ≤ (next_estimate F c loss n clean).0)
        × ((next_estimate F c loss n clean).0 ≤ c.max_bitrate)
  unfolding next_estimate
  next_estimate_bounds loss n clean h k = (
    ground (arith, h, k, ok.low, ok.high, ok.room, law.low80 n),
    ground (arith, h, k, ok.low, ok.high, ok.room, law.low80 n),
  )

  close_window-InRange :
      (now : ℤ) (elapsed : ℕ) (e : Estimator R)
      → InRange F c e
      → InRange F c (close_window F now elapsed e)
  unfolding close_window
  close_window-InRange now elapsed e (same, h, k) =
      let (low, high) = next_estimate_bounds (window_loss F e) e.estimate e.clean_windows h k in
      (
        same,
        subst
            (λ d.
              c.min_bitrate ≤ (next_estimate F d (window_loss F e) e.estimate e.clean_windows).0)
            (sym same) low,
        subst
            (λ d.
              (next_estimate F d (window_loss F e) e.estimate e.clean_windows).0 ≤ c.max_bitrate)
            (sym same) high,
      )

  evaluate-InRange :
      (now : ℤ) (out : ℕ) (e : Estimator R)
      → InRange F c e
      → InRange F c (evaluate_estimation F now out e).2
  unfolding evaluate_estimation
  evaluate-InRange now out e i = elim (Bool-cases (is_zero_time e.window_start)) [
    | inl q ↦ rw q i
    | inr q ↦ elim (Bool-cases (leb_ℤ e.config.window_duration (now -ℤ e.window_start))) [
      | inl w ↦ rw (q, w) (close_window-InRange now (pos_part (now -ℤ e.window_start)) e i)
      | inr w ↦ elim (Bool-cases (leb_ℤ (pos 1000) (now -ℤ e.last_evaluation))) [
        | inl v ↦ rw (q, w, v) i
        | inr v ↦ rw (q, w, v) i
      ]
    ]
  ]

  step-InRange : (o : Op) (e : Estimator R) → InRange F c e → InRange F c (step F o e)
  unfolding step on_rtp_packet_received on_loss_event_detected reset make
  step-InRange (receives size seq now) e i = i
  step-InRange loses e (same, h, k) =
      let down = law.low85 e.estimate in
      let low : c.min_bitrate ≤ e.config.min_bitrate =
        omega (arith, ap (λ d. d.min_bitrate) (sym same)) in
      let low' : e.config.min_bitrate ≤ c.min_bitrate =
        omega (arith, ap (λ d. d.min_bitrate) same) in
      (same, omega (arith, low), omega (arith, low', h, k, down))
  step-InRange (evaluates now out) e i = evaluate-InRange now out e i
  step-InRange resets e (same, h, k) = (
    same,
    omega (arith, ap (λ d. d.start_bitrate) same, ok.low),
    omega (arith, ap (λ d. d.start_bitrate) same, ok.high),
  )

  -- Whatever packets, losses, evaluations and resets come, at whatever times: the estimate stays between
  -- the minimum and the maximum of the configuration, in which the start lies between the two and the
  -- maximum leaves room for a step up in 32 bits. The scaled rates are no larger than the rates that they
  -- scale.
  pub replay-InRange : (os : List Op) → InRange F c (replay F c os)
  unfolding replay make
  replay-InRange [] = (refl, ok.low, ok.high)
  replay-InRange (o ∷ os) = step-InRange o (replay F c os) (replay-InRange os)
