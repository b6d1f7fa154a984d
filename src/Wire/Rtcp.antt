-- ===== src/Wire/Rtcp.antt =====
-- shared/km/rtp_wire.h: parseRtcp and the members of a compound packet.
use kmvirtualcamera.Prelude.{
  ℕ, zero, suc, ◌+◌, ◌*◌, ◌≤◌, ◌<◌, ◌≡◌, refl, some, List, [], ◌∷◌, ◌++◌, arith, length,
  length-append, drop, length-take, length-drop, Bytes, All, All-append, Option-cases, inl, inr,
}
use mathlib.Core.Path.{subst}
use mathlib.Core.Option.{some-injective}
use kmvirtualcamera.Wire.{
  RtcpPacket, minimum, content_length, member, parse_members, parse_rtcp, be16,
}

-- What a caller may read of a member without a further test.
pub record IsMember (p : RtcpPacket) : Type 0 where
  pub type_range : (192 ≤ p.type) × (p.type ≤ 223)
  pub count_range : p.count < 32
  pub room : minimum p.type p.count ≤ length p.body

content_length-le : (b : Bytes) (l : ℕ) {c : ℕ} → content_length b l ≡ some c → c ≤ l
unfolding content_length
content_length-le b l e = ground arith

-- A member that parses, taken apart.
member_lem :
    (b : Bytes) {p : RtcpPacket} {l : ℕ}
    → member b ≡ some (p, l)
    → IsMember p × (4 ≤ l) × (l ≤ length b)
unfolding member
member_lem b {p} {l} e =
    let size = (be16 b 2 + 1) * 4 in
    elim (Option-cases (content_length b size)) [
      | inl c ↦ ground (arith, c)
      | inr (content, c) ↦ ground (arith, c, content_length-le b size c, length-take content b)
    ]

-- A round that goes on, taken apart.
parse_members_round :
    (fuel x : ℕ) (r : Bytes) (acc : List RtcpPacket) {ps : List RtcpPacket}
    → parse_members (suc fuel) (x ∷ r) acc ≡ some ps
    → (length acc < 64)
      × (p : RtcpPacket) × (n : ℕ) × (member (x ∷ r) ≡ some (p, n))
      × (parse_members fuel (drop n (x ∷ r)) (acc ++ p ∷ []) ≡ some ps)
unfolding parse_members
parse_members_round fuel x r acc e = elim (Option-cases (member (x ∷ r))) [
  | inl m ↦ ground (arith, m)
  | inr ((p, n), m) ↦ (ground (arith, m), p, n, m, ground (arith, m))
]

parse_members_sound :
    (fuel : ℕ) (b : Bytes) (acc : List RtcpPacket) {ps : List RtcpPacket}
    → All IsMember acc
    → length acc ≤ 64
    → parse_members fuel b acc ≡ some ps
    → All IsMember ps × (length ps ≤ 64)
unfolding parse_members
parse_members_sound fuel [] acc h l e =
    subst (λ ps. All IsMember ps × (length ps ≤ 64)) (some-injective _ _ e) (h, l)
parse_members_sound zero (x ∷ r) acc h l e = cc
parse_members_sound (suc fuel) (x ∷ r) acc {ps} h l e =
    let (room, p, n, m, more) = parse_members_round fuel x r acc e in
    let (v, _, _) = member_lem (x ∷ r) m in
    parse_members_sound fuel (drop n (x ∷ r)) (acc ++ p ∷ [])
      (All-append IsMember acc (p ∷ []) h (v, tt)) (omega (arith, length-append acc (p ∷ []))) more

-- Fuel of at least the number of bytes left is enough: any two such amounts give parse_members the
-- same answer, whatever the bytes and the members read before.
pub parse_members_fuel :
    (f g : ℕ) (b : Bytes) (acc : List RtcpPacket)
    → length b ≤ f
    → length b ≤ g
    → parse_members f b acc ≡ parse_members g b acc
unfolding parse_members
parse_members_fuel f g [] acc h k = refl
parse_members_fuel zero g (x ∷ r) acc h k = absurd (omega arith)
parse_members_fuel (suc f) zero (x ∷ r) acc h k = absurd (omega arith)
parse_members_fuel (suc f) (suc g) (x ∷ r) acc h k = elim (Option-cases (member (x ∷ r))) [
  | inl e ↦ rw e
  | inr ((p, l), e) ↦
      let size = length-drop l (x ∷ r) in
      let (_, lo, hi) = member_lem (x ∷ r) e in
      rw (
        e,
        parse_members_fuel f g (drop l (x ∷ r)) (acc ++ p ∷ []) (omega (arith, size))
            (omega (arith, size)),
      )
]

-- Whatever datagram arrives, each member of a successful parse has a type from 192 to 223, a count
-- below 32, and at least the bytes that its type and count promise; there are at most 64 members.
pub parse_rtcp_sound :
    (b : Bytes) {ps : List RtcpPacket} → parse_rtcp b ≡ some ps → All IsMember ps × (length ps ≤ 64)
unfolding parse_rtcp
parse_rtcp_sound b e = parse_members_sound (length b) b [] tt (omega arith) (ground arith)
