-- ===== src/Wire.antt =====
-- shared/km/rtp_wire.h: the RTP and RTCP wire formats. A buffer is the list of its bytes, and a
-- span into it is the list that it covers.
pub mod Rtp
pub mod Rtcp
pub mod Format
mod Tests
use kmvirtualcamera.Prelude.{
  ℕ, zero, suc, ◌+◌, ◌-◌, ◌*◌, ◌/◌, ◌%◌, ◌^◌, Bool, true, false, not, ◌&&◌, ◌||◌, Option, none,
  some, List, [], ◌∷◌, ◌++◌, ltb, leb, ◌==◌, if◌then◌else◌, length, take, drop, Bytes, byte,
  test_bit, shr, low_bits, sub16, is_empty, ◌>>=◌,
}
use kmvirtualcamera.Prelude.Int.{ℤ, pos, ◌-ℤ◌}

-- Big-endian fields at an offset.
abbrev pub be16 : Bytes → ℕ → ℕ
be16 b o = byte b o * 2 ^ 8 + byte b (o + 1)

abbrev pub be32 : Bytes → ℕ → ℕ
be32 b o = be16 b o * 2 ^ 16 + be16 b (o + 2)

abbrev pub be64 : Bytes → ℕ → ℕ
be64 b o = be32 b o * 2 ^ 32 + be32 b (o + 4)

-- The signed distance from `b` to `a` on the circle of 16-bit sequence numbers.
unfoldable pub sequence_delta : ℕ → ℕ → ℤ
sequence_delta a b = let d = sub16 a b in if ltb d 32768 then pos d else pos d -ℤ pos 65536

pub record RtpPacket : Type 0 where
  pub payload : Bytes
  pub timestamp : ℕ
  pub ssrc : ℕ
  pub sequence : ℕ
  pub payload_type : ℕ
  pub marker : Bool

-- The extension header at `offset`: the offset behind it.
unfoldable pub skip_extension : Bytes → ℕ → Option ℕ
skip_extension b offset =
    if test_bit (byte b 0) 4
    then (let l = 4 + be16 b (offset + 2) * 4 in
        if ltb (length b - offset) 4 || ltb (length b - offset) l then none else some (offset + l))
    else some offset

-- The end of the payload, before the padding.
unfoldable pub skip_padding : Bytes → ℕ → Option ℕ
skip_padding b offset =
    if test_bit (byte b 0) 5
    then (let padding = byte b (length b - 1) in
        if padding == 0 || ltb (length b - offset) padding then none else some (length b - padding))
    else some (length b)

-- The answer, from where the payload begins to where it ends.
unfoldable pub packet_of : Bytes → ℕ → ℕ → Option RtpPacket
packet_of b offset end =
    if leb end offset
    then none
    else some (record {
      payload = take (end - offset) (drop offset b);
      timestamp = be32 b 4;
      ssrc = be32 b 8;
      sequence = be16 b 2;
      payload_type = low_bits (byte b 1) 7;
      marker = test_bit (byte b 1) 7;
    })

-- The tests on the size, the version and the CSRC count; then the fields.
unfoldable pub malformed : Bytes → Bool
malformed b =
    ltb (length b) 12
    || ltb 65535 (length b)
    || not (shr (byte b 0) 6 == 2)
    || ltb (length b) (12 + low_bits (byte b 0) 4 * 4)

unfoldable pub fields : Bytes → Option RtpPacket
fields b = do
  start ← skip_extension b (12 + low_bits (byte b 0) 4 * 4)
  end ← skip_padding b start
  packet_of b start end

unfoldable pub parse_rtp : Bytes → Option RtpPacket
parse_rtp b = if malformed b then none else fields b

pub record RtcpPacket : Type 0 where
  pub body : Bytes
  pub type : ℕ
  pub count : ℕ

-- The least length of a packet of each type.
unfoldable pub minimum : ℕ → ℕ → ℕ
minimum type count =
    if type == 200
    then 28 + count * 24
    else if type == 201
    then 8 + count * 24
    else if type == 203
    then 4 + count * 4
    else if type == 204 || type == 205 || type == 206
    then 12
    else if type == 207
    then 8
    else 4

-- The length of a member without its padding, which only the last member may have. The list is the
-- datagram from the member on.
unfoldable pub content_length : Bytes → ℕ → Option ℕ
content_length b l =
    if test_bit (byte b 0) 5
    then (let padding = byte b (l - 1) in
        if not (l == length b) || padding == 0 || ltb (l - 4) padding || not (padding % 4 == 0)
        then none
        else some (l - padding))
    else some l

-- One member at the front of the rest of the datagram, with its length.
unfoldable pub member : Bytes → Option (RtcpPacket × ℕ)
member b =
    let l = (be16 b 2 + 1) * 4 in
    let type = byte b 1 in
    let count = low_bits (byte b 0) 5 in
    if ltb (length b) 4 || not (shr (byte b 0) 6 == 2) || ltb (length b) l then none else (do
      content ← content_length b l
      (if ltb type 192 || ltb 223 type || ltb content (minimum type count)
          then none
          else some (record { body = take content b; type = type; count = count }, l)))

-- A round takes four bytes at least.
unfoldable pub parse_members : ℕ → Bytes → List RtcpPacket → Option (List RtcpPacket)
parse_members fuel [] packets = some packets
parse_members zero (x ∷ r) packets = none
parse_members (suc fuel) (x ∷ r) packets =
    if leb 64 (length packets) then none else elim (member (x ∷ r)) [
      | none ↦ none
      | some (p, l) ↦ parse_members fuel (drop l (x ∷ r)) (packets ++ p ∷ [])
    ]

-- `none` is the answer false, with the output cleared.
unfoldable pub parse_rtcp : Bytes → Option (List RtcpPacket)
parse_rtcp b =
    if is_empty b || ltb 65535 (length b) || not (length b % 4 == 0)
    then none
    else parse_members (length b) b []
