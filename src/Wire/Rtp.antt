-- ===== src/Wire/Rtp.antt =====
-- parse_rtp against the RTP packet format: fixed header, CSRC list, one extension, padding.
use kmvirtualcamera.Prelude.{
  ℕ, ◌+◌, ◌-◌, ◌*◌, ◌≤◌, ◌<◌, ◌≡◌, sym, ap, ◌∙◌, none, some, ◌++◌, arith, length, take, drop,
  take-append-drop, length-take, length-drop, Bytes, byte, low_bits, if◌then◌else◌, >>=-eq-some,
  Bool-cases, inl, inr,
}
use kmvirtualcamera.Wire.{
  RtpPacket, skip_extension, skip_padding, packet_of, malformed, fields, parse_rtp,
}

-- Where a successful parse put the payload: behind a header, in front of the padding.
pub record IsInside (b : Bytes) (p : RtpPacket) : Type 0 where
  pub head : Bytes
  pub tail : Bytes
  pub layout : b ≡ head ++ (p.payload ++ tail)
  pub header : 12 ≤ length head
  pub nonempty : 0 < length p.payload
  pub limit : length b ≤ 65535

skip_extension-ge :
    (b : Bytes) (offset : ℕ) {start : ℕ} → skip_extension b offset ≡ some start → offset ≤ start
unfolding skip_extension
skip_extension-ge b offset e = ground arith

skip_padding-le :
    (b : Bytes) (offset : ℕ) {end : ℕ} → skip_padding b offset ≡ some end → end ≤ length b
unfolding skip_padding
skip_padding-le b offset e = ground arith

packet_of-IsInside :
    (b : Bytes) (offset end : ℕ) {p : RtpPacket}
    → 12 ≤ offset
    → end ≤ length b
    → length b ≤ 65535
    → packet_of b offset end ≡ some p
    → IsInside b p
unfolding packet_of
packet_of-IsInside b offset end {p} h l m e =
    let n = end - offset in
    let facts : (p.payload ≡ take n (drop offset b)) × (offset < end) = ground arith in
    let size = length-take n (drop offset b) in
    let rest = length-drop offset b in
    record {
      head = take offset b;
      tail = drop n (drop offset b);
      layout = sym (
          ap (λ x. take offset b ++ (x ++ drop n (drop offset b))) facts.0
          ∙ ap (◌++◌ (take offset b)) (take-append-drop n (drop offset b))
          ∙ take-append-drop offset b);
      header = omega (arith, length-take offset b, facts.1);
      nonempty = rw (facts.0) (omega (arith, size, rest, facts.1));
      limit = m;
    }

-- A successful parse, step by step.
pub record Stages (b : Bytes) (p : RtpPacket) : Type 0 where
  pub start : ℕ
  pub end : ℕ
  pub extension : skip_extension b (12 + low_bits (byte b 0) 4 * 4) ≡ some start
  pub padding : skip_padding b start ≡ some end
  pub packet : packet_of b start end ≡ some p
  pub limit : length b ≤ 65535

parse_rtp-Stages : (b : Bytes) {p : RtpPacket} → parse_rtp b ≡ some p → Stages b p
unfolding parse_rtp fields
parse_rtp-Stages b {p} e = elim (Bool-cases (malformed b)) [
  | inl r ↦ cc (ap (λ t. if t then none else fields b) r, e)
  | inr r ↦
      let e' : fields b ≡ some p = rw r at e in
      let (start, x, f) = >>=-eq-some (skip_extension b (12 + low_bits (byte b 0) 4 * 4)) _ e' in
      let (end, y, g) = >>=-eq-some (skip_padding b start) _ f in
      record {
        start = start;
        end = end;
        extension = x;
        padding = y;
        packet = g;
        limit = unfold malformed in ground arith;
      }
]

-- A packet that parses has a payload of one byte at least, which lies in the datagram behind a
-- header of 12 bytes at least; the datagram is at most 65535 bytes.
pub parse_rtp-IsInside : (b : Bytes) {p : RtpPacket} → parse_rtp b ≡ some p → IsInside b p
parse_rtp-IsInside b {p} e =
    let s : Stages b p = parse_rtp-Stages b e in
    packet_of-IsInside b s.start s.end
      (omega (arith, skip_extension-ge b (12 + low_bits (byte b 0) 4 * 4) s.extension))
      (skip_padding-le b s.start s.padding) s.limit s.packet
