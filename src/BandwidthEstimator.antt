-- ===== src/BandwidthEstimator.antt =====
-- shared/receiver/rtc/bandwidth_estimator.{h,cpp}: the bitrate that the sender is asked for. Each call is
-- atomic here, where the source has an atomic for each field. The floating-point arithmetic is a
-- parameter: the two decreases, and the loss ratio with its tests.
pub mod Estimate
pub mod Increase
pub mod Losses
mod Tests
use kmvirtualcamera.Prelude.{
  ℕ, ◌+◌, ◌-◌, ◌*◌, ◌/◌, ◌%◌, ◌^◌, Bool, true, false, not, ◌&&◌, ◌||◌, ltb, leb, ◌==◌,
  if◌then◌else◌, sub16, min, max,
}
use kmvirtualcamera.Prelude.Int.{ℤ, pos, pos_part, neg_part, ◌-ℤ◌, leb_ℤ}

-- current * 0.85f and current * 0.80f as a uint32_t, the ratio of lost packets, its zero, and the tests
-- `== 0.0f` and `>= lossThresholdDecrease`.
pub record Floats (R : Type 0) : Type 0 where
  pub scale85 : ℕ → ℕ
  pub scale80 : ℕ → ℕ
  pub ratio : ℕ → ℕ → R
  pub zero_ratio : R
  pub is_zero : R → Bool
  pub is_heavy : R → Bool

pub record Config : Type 0 where
  pub min_bitrate : ℕ
  pub max_bitrate : ℕ
  pub start_bitrate : ℕ
  pub window_duration : ℤ

pub record Estimator (R : Type 0) : Type 0 where
  pub config : Config
  pub estimate : ℕ
  pub throughput : ℕ
  pub loss_ratio : R
  pub window_start : ℤ
  pub last_evaluation : ℤ
  pub bytes : ℕ
  pub received : ℕ
  pub lost : ℕ
  pub has_last : Bool
  pub last_seq : ℕ
  pub clean_windows : ℕ

abbrev pub is_zero_time : ℤ → Bool
is_zero_time t = pos_part t + neg_part t == 0

module _ {R : Type 0} (F : Floats R) where
  unfoldable pub make : Config → Estimator R
  make c = record {
    config = c;
    estimate = c.start_bitrate;
    throughput = 0;
    loss_ratio = F.zero_ratio;
    window_start = pos 0;
    last_evaluation = pos 0;
    bytes = 0;
    received = 0;
    lost = 0;
    has_last = false;
    last_seq = 0;
    clean_windows = 0;
  }

  unfoldable pub reset : Estimator R → Estimator R
  reset e = make e.config

  -- The sequence numbers that a packet skips; a jump of 3000 or more counts as none.
  abbrev pub skipped : Estimator R → ℕ → ℕ
  skipped e seq =
      let diff = sub16 seq e.last_seq in
      if e.has_last && ltb 1 diff && ltb diff 3000 then diff - 1 else 0

  unfoldable pub on_rtp_packet_received : ℕ → ℕ → ℤ → Estimator R → Estimator R
  on_rtp_packet_received size seq now e = record e {
    window_start = if is_zero_time e.window_start then now else e.window_start;
    lost = (e.lost + skipped e seq) % 2 ^ 32;
    has_last = true;
    last_seq = seq;
    received = (e.received + 1) % 2 ^ 32;
    bytes = (e.bytes + size) % 2 ^ 64;
  }

  unfoldable pub on_loss_event_detected : Estimator R → Estimator R
  on_loss_event_detected e = record e {
    estimate = max e.config.min_bitrate (F.scale85 e.estimate);
    clean_windows = 0;
  }

  -- The estimate after a window, and the windows without a loss since the last decrease: a window with a
  -- light loss leaves their count as it is.
  unfoldable pub next_estimate : Config → R → ℕ → ℕ → ℕ × ℕ
  next_estimate c loss current clean =
      if F.is_heavy loss
      then (max c.min_bitrate (F.scale80 current), 0)
      else if F.is_zero loss
      then (
        if leb 2 (clean + 1) then min c.max_bitrate ((current + 100000) % 2 ^ 32) else current,
        clean + 1,
      )
      else (current, clean)

  abbrev pub window_loss : Estimator R → R
  window_loss e =
      let total = (e.received + e.lost) % 2 ^ 32 in
      if ltb 0 total then F.ratio e.lost total else F.zero_ratio

  -- The end of a window of `elapsed` milliseconds.
  unfoldable pub close_window : ℤ → ℕ → Estimator R → Estimator R
  close_window now elapsed e =
      let loss = window_loss e in
      let (estimate, clean) = next_estimate e.config loss e.estimate e.clean_windows in
      record e {
        bytes = 0;
        received = 0;
        lost = 0;
        throughput = e.bytes * 8 * 1000 % 2 ^ 64 / elapsed % 2 ^ 32;
        loss_ratio = loss;
        estimate = estimate;
        clean_windows = clean;
        window_start = now;
        last_evaluation = now;
      }

  -- Whether the target is to be sent, and the target, of which `out` is the value before the call.
  unfoldable pub evaluate_estimation : ℤ → ℕ → Estimator R → Bool × ℕ × Estimator R
  evaluate_estimation now out e =
      let elapsed = now -ℤ e.window_start in
      let closed = close_window now (pos_part elapsed) e in
      if is_zero_time e.window_start
      then (false, e.estimate, record e { window_start = now; last_evaluation = now })
      else if leb_ℤ e.config.window_duration elapsed
      then (true, closed.estimate, closed)
      else if leb_ℤ (pos 1000) (now -ℤ e.last_evaluation)
      then (true, e.estimate, record e { last_evaluation = now })
      else (false, out, e)
