-- ===== src/RtcpSession/Messages.antt =====
-- The messages of shared/receiver/rtc/enhanced_rtcp_session.cpp, read back.
use kmvirtualcamera.Prelude.{
  ℕ, zero, suc, ◌+◌, ◌-◌, ◌*◌, ◌/◌, ◌%◌, ◌^◌, ◌≤◌, ◌<◌, ◌≡◌, refl, some, [], ◌∷◌, arith, ltb, min,
  byte, Bool-cases, inl, inr,
}
use kmvirtualcamera.Prelude.Int.{ℤ}
use kmvirtualcamera.Wire.{be16, be32, parse_rtcp, parse_members, member, minimum, content_length}
use kmvirtualcamera.RtcpSession.{
  write, put32, packet, halve, remb, pli, Doubles, Session, report, expected_of,
}

twice : (m k : ℕ) → m * 2 ^ suc k ≡ 2 * (m * 2 ^ k)
twice m k = let e : 2 ^ suc k ≡ 2 * 2 ^ k = omega arith in rw e (omega arith)

twice_low : (m k n : ℕ) → m * 2 ^ k ≤ n / 2 → m * 2 ^ suc k ≤ n
twice_low m k n h = omega (arith, h, twice m k)

twice_high : (m k n : ℕ) → n / 2 < m * 2 ^ k → n < m * 2 ^ suc k
twice_high m k n h = omega (arith, h, twice m k)

-- The mantissa and the number of halvings.
halve-bounds :
    (fuel bitrate exponent : ℕ)
    → bitrate < 2 ^ 18 * 2 ^ fuel
    → let (mantissa, shift) = halve fuel bitrate exponent in
      (k : ℕ) × (shift ≡ exponent + k)
      × (mantissa < 2 ^ 18)
      × (k ≤ fuel)
      × (mantissa * 2 ^ k ≤ bitrate)
      × (bitrate < (mantissa + 1) * 2 ^ k)
unfolding halve
halve-bounds zero bitrate exponent h =
    (0, omega arith, omega (arith, h), omega arith, omega arith, omega arith)
halve-bounds (suc fuel) bitrate exponent h =
    let (k, e, a, b, c, d) = halve-bounds fuel (bitrate / 2) (exponent + 1) (omega (arith, h)) in
    elim (Bool-cases (ltb 0x3ffff bitrate)) [
      | inl t ↦ rw t (
        suc k,
        omega (arith, e),
        a,
        omega (arith, b),
        twice_low _ k bitrate c,
        twice_high _ k bitrate d,
      )
      | inr t ↦ rw t (0, omega arith, ground (arith, t), omega arith, omega arith, omega arith)
    ]

-- The bitrate message of an SSRC and a bitrate of 32 bits, read back: the program's own parser takes it as
-- one payload-specific message, it names no media source but the SSRC in its list, and its mantissa,
-- scaled by its exponent, is the bitrate, rounded down in the bits that it drops.
pub remb_read :
    (ssrc bitrate : ℕ)
    → ssrc < 2 ^ 32
    → bitrate < 2 ^ 32
    → let m = remb ssrc bitrate in
      let mantissa = byte m 17 % 4 * 2 ^ 16 + be16 m 18 in
      let scale = 2 ^ (byte m 17 / 4) in
      (parse_rtcp m ≡ some (record { body = m; type = 206; count = 15 } ∷ []))
      × (be32 m 8 ≡ 0)
      × (be32 m 20 ≡ ssrc)
      × (mantissa * scale ≤ bitrate)
      × (bitrate < (mantissa + 1) * scale)
unfolding remb packet put32 write parse_rtcp parse_members member minimum content_length
remb_read ssrc bitrate h k =
    let (shift, e, a, b, c, d) = halve-bounds 32 bitrate 0 (omega (arith, k)) in
    let (mantissa, exponent) = halve 32 bitrate 0 in
    let x = (exponent * 4 + mantissa / 2 ^ 16) % 256 in
    let p : x % 4 * 2 ^ 16 + (mantissa / 2 ^ 8 % 256 * 2 ^ 8 + mantissa % 256) ≡ mantissa =
      omega (arith, e, a, b) in
    let q : x / 4 ≡ shift = omega (arith, e, a, b) in
    (refl, refl, omega (arith, h), rw (p, q) c, rw (p, q) d)

pli_read :
    (ssrc : ℕ)
    → ssrc < 2 ^ 32
    → (parse_rtcp (pli ssrc) ≡ some (record { body = pli ssrc; type = 206; count = 1 } ∷ []))
      × (be32 (pli ssrc) 8 ≡ ssrc)
unfolding pli packet put32 write parse_rtcp parse_members member minimum content_length
pli_read ssrc h = (refl, omega (arith, h))

module _ {J : Type 0} (D : Doubles J) where
  -- The receiver report of an SSRC and a jitter of 32 bits, and of extended numbers of 64, read back: the
  -- program's own parser takes it as one receiver report, its fields are the source, the packets lost
  -- since the first one, up to 2 ^ 23 - 1, and the highest number, the jitter and the middle of the NTP
  -- time of the last sender report in 32 bits; and the next interval begins at what is reported.
  pub report_read :
      (now : ℤ) (s : Session J)
      → s.ssrc < 2 ^ 32
      → D.clamped s.jitter < 2 ^ 32
      → s.base ≤ s.highest
      → s.highest + 1 < 2 ^ 64
      → let (m, s') = report D now s in
        let expected = s.highest - s.base + 1 in
        (parse_rtcp m ≡ some (record { body = m; type = 201; count = 1 } ∷ []))
        × (be32 m 8 ≡ s.ssrc)
        × (byte m 13 * 2 ^ 16 + be16 m 14 ≡ min 0x7fffff (expected - s.received))
        × (be32 m 16 ≡ s.highest % 2 ^ 32)
        × (be32 m 20 ≡ D.clamped s.jitter)
        × (be32 m 24 ≡ s.sr_ntp / 2 ^ 16 % 2 ^ 32)
        × (s'.previous_expected ≡ expected)
        × (s'.previous_received ≡ s.received)
  unfolding report packet put32 write parse_rtcp parse_members member minimum content_length
      expected_of
  report_read now s h j k l =
      let e : expected_of D s ≡ s.highest - s.base + 1 = omega (arith, k, l) in
      (
        refl,
        omega (arith, h),
        rw e (ground arith),
        omega arith,
        omega (arith, j),
        omega arith,
        e,
        refl,
      )
