-- ===== src/BandwidthEstimator/Tests.antt =====
-- Runs of the bandwidth estimator, with exact fractions in place of the floating-point numbers.
use kmvirtualcamera.Prelude.{
  ℕ, zero, suc, ◌+◌, ◌-◌, ◌^◌, ◌*◌, ◌/◌, ◌≤◌, ◌<◌, ◌≡◌, refl, true, List, [], ◌∷◌, arith, ◌==◌, leb,
}
use kmvirtualcamera.Prelude.Int.{ℤ, pos, ◌-ℤ◌}
use kmvirtualcamera.BandwidthEstimator.{
  Floats, Config, make, on_rtp_packet_received, on_loss_event_detected, next_estimate, close_window,
  evaluate_estimation,
}
use kmvirtualcamera.BandwidthEstimator.Estimate.{
  IsFloats, IsConfig, Op, receives, loses, evaluates, replay, InRange, replay-InRange, step,
}
use kmvirtualcamera.BandwidthEstimator.Increase.{ends_clean, clean_ends, replay-increase}

abbrev exact : Floats (ℕ × ℕ)
exact = record {
  scale85 = λ n. n * 85 / 100;
  scale80 = λ n. n * 80 / 100;
  ratio = λ l t. (l, t);
  zero_ratio = (0, 1);
  is_zero = λ r. r.0 == 0;
  is_heavy = λ r. leb (r.1 * 4) (r.0 * 100);
}

exact-IsFloats : IsFloats exact
exact-IsFloats = record {
  low85 = λ n. omega arith;
  low80 = λ n. omega arith;
  zero_loss = λ l t h z. ground (arith, z);
}

abbrev config : Config
config = record {
  min_bitrate = 1000000;
  max_bitrate = 2800000;
  start_bitrate = 2500000;
  window_duration = pos 1000;
}

config-IsConfig : IsConfig config
config-IsConfig = record { low = omega arith; high = omega arith; room = omega arith }

-- A loss, and a second window of which half the packets are lost.
abbrev calls : List Op
calls =
    evaluates (pos 2500) 0
    ∷ receives 1200 3 (pos 1500)
    ∷ receives 1200 65535 (pos 1400)
    ∷ loses
    ∷ []

lowered : (replay exact config calls).estimate ≡ 1700000
unfolding replay step make on_rtp_packet_received on_loss_event_detected evaluate_estimation
    close_window next_estimate ◌-ℤ◌
lowered = refl

replay-InRange_example : InRange exact config (replay exact config calls)
replay-InRange_example = replay-InRange exact exact-IsFloats config config-IsConfig calls

-- One window without a loss has ended, and a second is about to.
abbrev clean : List Op
clean =
    receives 1200 3 (pos 2500)
    ∷ evaluates (pos 2000) 0
    ∷ receives 1200 2 (pos 1500)
    ∷ receives 1200 1 (pos 1000)
    ∷ []

clean_raised :
    (replay exact config clean).estimate
    < (evaluate_estimation exact (pos 3000) 0 (replay exact config clean)).2.estimate
unfolding replay step make on_rtp_packet_received evaluate_estimation close_window next_estimate
    ◌-ℤ◌
clean_raised = omega arith

clean_few : (replay exact config clean).received + (replay exact config clean).lost < 2 ^ 32
unfolding replay step make on_rtp_packet_received evaluate_estimation close_window ◌-ℤ◌
clean_few = omega arith

-- Packets without a loss, of which the newest has the number `seq`.
abbrev packets : ℕ → ℕ → ℤ → List Op → List Op
packets zero seq now os = os
packets (suc n) seq now os = receives 1200 seq now ∷ packets n (seq - 1) now os

-- A window without a loss, one in which one packet of 31 is lost, and again one without: the estimate rises
-- at the end of the third.
light_between :
    (replay exact config (
      evaluates (pos 4000) 0
      ∷ packets 2 35 (pos 3500) (
          evaluates (pos 3000) 0
          ∷ packets 30 33
              (pos 2500)
              (evaluates (pos 2000) 0 ∷ packets 2 2 (pos 1000) [])))).estimate
    ≡ 2600000
unfolding replay step make on_rtp_packet_received evaluate_estimation close_window next_estimate
    ◌-ℤ◌
light_between = refl

replay-increase_example :
    let e = replay exact config clean in
    (ends_clean exact (evaluates (pos 3000) 0) e ≡ true)
    × (e.lost ≡ 0)
    × (1 ≤ clean_ends exact config clean)
    × ((evaluate_estimation exact (pos 3000) 0 e).2.estimate ≤ e.estimate + 100000)
replay-increase_example =
    replay-increase exact exact-IsFloats config clean (pos 3000) 0 config-IsConfig clean_few
      clean_raised
