-- ===== src/LatestFrame.antt =====
-- shared/km/latest_frame.h: the newest decoded frame of a generation. Each method runs under the mutex.
pub mod Newest
mod Tests
use kmvirtualcamera.Prelude.{
  ℕ, ◌+◌, ◌-◌, ◌^◌, Bool, true, false, not, ◌&&◌, ◌||◌, Option, none, some, ltb, ◌==◌,
  if◌then◌else◌,
}

pub record LatestFrame (A : Type 0) : Type 0 where
  pub frame : Option A
  pub arrival_ns : ℕ
  pub generation : ℕ

module _ {A : Type 0} where
  unfoldable pub initial : LatestFrame A
  initial = record { frame = none; arrival_ns = 0; generation = 1 }

  -- `none` is the throw.
  unfoldable pub reset : LatestFrame A → Option (ℕ × LatestFrame A)
  reset s =
      if s.generation == 2 ^ 64 - 1
      then none
      else some
          (s.generation + 1, record { frame = none; arrival_ns = 0; generation = s.generation + 1 })

  abbrev pub is_some : Option A → Bool
  is_some none = false
  is_some (some a) = true

  -- A null pointer is `none`.
  unfoldable pub publish : ℕ → Option A → ℕ → LatestFrame A → Bool × LatestFrame A
  publish generation frame arrival_ns s =
      if not (generation == s.generation)
        || not (is_some frame)
        || is_some s.frame && ltb arrival_ns s.arrival_ns
      then (false, s)
      else (true, record s { frame = frame; arrival_ns = arrival_ns })

  unfoldable pub get : ℕ → ℕ → LatestFrame A → Option A
  get now_ns max_age_ns s =
      if not (is_some s.frame) || ltb now_ns s.arrival_ns || ltb max_age_ns (now_ns - s.arrival_ns)
      then none
      else s.frame
