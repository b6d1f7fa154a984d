-- ===== src/BandwidthEstimator/Losses.antt =====
-- The loss counting of shared/receiver/rtc/bandwidth_estimator.cpp over the packets of a window.
use kmvirtualcamera.Prelude.{
  ℕ, ◌+◌, ◌-◌, ◌%◌, ◌^◌, ◌≤◌, ◌<◌, ◌≡◌, refl, true, List, [], ◌∷◌, arith, length,
}
use kmvirtualcamera.Prelude.Int.{ℤ}
use kmvirtualcamera.BandwidthEstimator.{
  Floats, Config, Estimator, make, skipped, on_rtp_packet_received,
}

-- Packets by their full numbers, each larger than the one before by less than 3000.
abbrev pub Rising : ℕ → List ℕ → Type 0
Rising p [] = Unit
Rising p (n ∷ ns) = (p < n) × (n < p + 3000) × Rising n ns

abbrev pub last : ℕ → List ℕ → ℕ
last p [] = p
last p (n ∷ ns) = last n ns

last-le : (p : ℕ) (ns : List ℕ) → Rising p ns → p ≤ last p ns
last-le p [] r = omega arith
last-le p (n ∷ ns) (h, k, r) = omega (arith, h, last-le n ns r)

module _ {R : Type 0} (F : Floats R) (size : ℕ) (now : ℤ) where
  unfoldable pub receive : Estimator R → List ℕ → Estimator R
  receive e [] = e
  receive e (n ∷ ns) = receive (on_rtp_packet_received F size (n % 2 ^ 16) now e) ns

  receive_lem :
      (p : ℕ) (ns : List ℕ) (e : Estimator R)
      → Rising p ns
      → (e.has_last ≡ true)
      → e.last_seq ≡ p % 2 ^ 16
      → e.received + e.lost + last p ns < 2 ^ 32 + p
      → ((receive e ns).received + (receive e ns).lost + p ≡ e.received + e.lost + last p ns)
        × ((receive e ns).received ≡ e.received + length ns)
  unfolding receive on_rtp_packet_received
  receive_lem p [] e r h s few = (refl, omega arith)
  receive_lem p (n ∷ ns) e (l, m, r) h s few =
      let more = last-le n ns r in
      let gap : skipped F e (n % 2 ^ 16) ≡ n - p - 1 = ground (arith, h, s, l, m) in
      let lost : (e.lost + skipped F e (n % 2 ^ 16)) % 2 ^ 32 ≡ e.lost + (n - p - 1) =
        omega (arith, gap, few, l, more) in
      let got : (e.received + 1) % 2 ^ 32 ≡ e.received + 1 = omega (arith, few, l, more) in
      let (a, b) =
        receive_lem n ns (on_rtp_packet_received F size (n % 2 ^ 16) now e) r refl refl
          (omega (arith, lost, got, few, l)) in
      (omega (arith, a, lost, got, l, more), omega (arith, b, got))

  -- On a new estimator, packets that arrive in order, with gaps below 3000 and less than 2 ^ 32 numbers in
  -- all: every number from the first to the last is counted once, as received or as lost, and the packets
  -- that arrive are the received ones.
  pub receive-make :
      (c : Config) (n : ℕ) (ns : List ℕ)
      → Rising n ns
      → last n ns < 2 ^ 32 + n - 1
      → (let e = receive (make F c) (n ∷ ns) in
          (e.received + e.lost ≡ last n ns - n + 1) × (e.received ≡ length (n ∷ ns)))
  unfolding receive on_rtp_packet_received make
  receive-make c n ns r few =
      let more = last-le n ns r in
      let (a, b) =
        receive_lem n ns (on_rtp_packet_received F size (n % 2 ^ 16) now (make F c)) r refl refl
          (omega (arith, few, more)) in
      (omega (arith, a, more), omega (arith, b))
