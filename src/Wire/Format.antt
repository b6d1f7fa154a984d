-- ===== src/Wire/Format.antt =====
-- shared/km/rtp_wire.h: the RTP packet format as a writer has it, beside parseRtp.
use kmvirtualcamera.Prelude.{
  ℕ, suc, ◌+◌, ◌-◌, ◌*◌, ◌/◌, ◌%◌, ◌^◌, ◌≤◌, ◌<◌, ◌≡◌, refl, sym, ap, ap₂, ◌∙◌, Bool, true, false,
  some, [], ◌∷◌, ◌++◌, append_assoc, append-nil, arith, length, length-append, drop, Bytes, byte,
  test_bit, shr, low_bits, if◌then◌else◌, ◌==◌, get_or-append_right, take_append, drop_append,
  IsU32, ◌⊎◌, inl, inr,
}
use kmvirtualcamera.Wire.{
  RtpPacket, skip_extension, skip_padding, packet_of, malformed, fields, parse_rtp, be16, be32,
}

-- A header extension, of any profile, in 32-bit words; and padding, whose last byte counts itself.
pub data Extension : Type 0 where
  plain : Extension
  extended : ℕ → ℕ → ℕ → Bytes → Extension

pub data Padding : Type 0 where
  unpadded : Padding
  padded : Bytes → Padding

abbrev pub extension_bytes : Extension → Bytes
extension_bytes plain = []
extension_bytes (extended p0 p1 words content) = p0 ∷ p1 ∷ words / 256 ∷ words % 256 ∷ content

abbrev pub padding_bytes : Padding → Bytes
padding_bytes unpadded = []
padding_bytes (padded fill) = fill ++ suc (length fill) ∷ []

abbrev pub extension_flag : Extension → ℕ
extension_flag plain = 0
extension_flag (extended _ _ _ _) = 16

abbrev pub padding_flag : Padding → ℕ
padding_flag unpadded = 0
padding_flag (padded _) = 32

abbrev pub marker_flag : Bool → ℕ
marker_flag true = 128
marker_flag false = 0

-- The four big-endian bytes of a uint32_t.
abbrev pub word : ℕ → Bytes → Bytes
word n rest = n / 2 ^ 24 ∷ n / 2 ^ 16 % 256 ∷ n / 2 ^ 8 % 256 ∷ n % 256 ∷ rest

abbrev pub rtp_bytes : RtpPacket → ℕ → Bytes → Extension → Padding → Bytes
rtp_bytes p count csrc x d =
    (128 + padding_flag d + extension_flag x + count)
    ∷ (marker_flag p.marker + p.payload_type)
    ∷ p.sequence / 256
    ∷ p.sequence % 256
    ∷ word p.timestamp (word p.ssrc (csrc ++ (extension_bytes x ++ (p.payload ++ padding_bytes d))))

abbrev ExtensionFits : Extension → Type 0
ExtensionFits plain = Unit {0}
ExtensionFits (extended p0 p1 words content) = (words < 2 ^ 16) × (length content ≡ words * 4)

abbrev PaddingFits : Padding → Type 0
PaddingFits unpadded = Unit {0}
PaddingFits (padded fill) = length fill < 255

pub record Fits (p : RtpPacket) (count : ℕ) (csrc : Bytes) (x : Extension) (d : Padding)
    : Type 0 where
  pub sequence_fits : p.sequence < 2 ^ 16
  pub timestamp_fits : IsU32 p.timestamp
  pub ssrc_fits : IsU32 p.ssrc
  pub type_fits : p.payload_type < 128
  pub csrc_fits : (count < 16) × (length csrc ≡ count * 4)
  pub extension_fits : ExtensionFits x
  pub padding_fits : PaddingFits d
  pub payload_some : 0 < length p.payload
  pub size_fits : length (rtp_bytes p count csrc x d) ≤ 65535

-- The extension at the front of what follows the CSRC list.
skip_extension-bytes :
    (front rest : Bytes) (x : Extension)
    → ExtensionFits x
    → test_bit (byte (front ++ (extension_bytes x ++ rest)) 0) 4
      ≡ (if extension_flag x == 16 then true else false)
    → skip_extension (front ++ (extension_bytes x ++ rest)) (length front)
      ≡ some (length front + length (extension_bytes x))
unfolding skip_extension
skip_extension-bytes front rest plain f h = ground arith
skip_extension-bytes front rest (extended p0 p1 words content) (u, l) h =
    let x : Bytes = p0 ∷ p1 ∷ words / 256 ∷ words % 256 ∷ content in
    ground (
      arith,
      get_or-append_right front (x ++ rest) 2 (length front + 2) 0,
      get_or-append_right front (x ++ rest) 3 (length front + 2 + 1) 0,
      length-append front (x ++ rest),
      length-append content rest,
    )

-- The padding at the end.
skip_padding-bytes :
    (front : Bytes) (offset : ℕ) (d : Padding)
    → offset ≤ length front
    → PaddingFits d
    → test_bit (byte (front ++ padding_bytes d) 0) 5
      ≡ (if padding_flag d == 32 then true else false)
    → skip_padding (front ++ padding_bytes d) offset ≡ some (length front)
unfolding skip_padding
skip_padding-bytes front offset unpadded o f h = ground (arith, append-nil front)
skip_padding-bytes front offset (padded fill) o f h =
    let d : Bytes = fill ++ suc (length fill) ∷ [] in
    let last : Bytes = suc (length fill) ∷ [] in
    ground (
      arith,
      get_or-append_right front d (length fill) (length (front ++ d) - 1) 0,
      get_or-append_right fill last 0 (length fill) 0,
      length-append front d,
      length-append fill last,
    )

packet_of-bytes :
    (p : RtpPacket) (front d : Bytes) (b : Bytes)
    → b ≡ front ++ (p.payload ++ d)
    → 0 < length p.payload
    → be32 b 4 ≡ p.timestamp
    → be32 b 8 ≡ p.ssrc
    → be16 b 2 ≡ p.sequence
    → low_bits (byte b 1) 7 ≡ p.payload_type
    → test_bit (byte b 1) 7 ≡ p.marker
    → packet_of b (length front) (length front + length p.payload) ≡ some p
unfolding packet_of
packet_of-bytes p front d b e n t s q y m =
    let skip : drop (length front) b ≡ p.payload ++ d =
      ap (drop (length front)) e ∙ drop_append (length front) front (p.payload ++ d) refl in
    let size : length front + length p.payload - length front ≡ length p.payload = omega arith in
    rw (skip, size, take_append (length p.payload) p.payload d refl) (ground arith)

extension_flag-cases : (x : Extension) → (extension_flag x ≡ 0) ⊎ (extension_flag x ≡ 16)
extension_flag-cases plain = inl refl
extension_flag-cases (extended _ _ _ _) = inr refl

padding_flag-cases : (d : Padding) → (padding_flag d ≡ 0) ⊎ (padding_flag d ≡ 32)
padding_flag-cases unpadded = inl refl
padding_flag-cases (padded _) = inr refl

marker_flag-cases :
    (m : Bool) → ((m ≡ true) × (marker_flag m ≡ 128)) ⊎ ((m ≡ false) × (marker_flag m ≡ 0))
marker_flag-cases true = inl (refl, refl)
marker_flag-cases false = inr (refl, refl)

module _ (p : RtpPacket) (count : ℕ) (csrc : Bytes) (x : Extension) (d : Padding) where
  abbrev fixed : Bytes
  fixed =
      (128 + padding_flag d + extension_flag x + count)
      ∷ (marker_flag p.marker + p.payload_type)
      ∷ p.sequence / 256
      ∷ p.sequence % 256
      ∷ word p.timestamp (word p.ssrc [])

  abbrev whole : Bytes
  whole = rtp_bytes p count csrc x d

  abbrev front : Bytes
  front = fixed ++ csrc

  abbrev before : Bytes
  before = front ++ extension_bytes x

  by_front : whole ≡ front ++ (extension_bytes x ++ (p.payload ++ padding_bytes d))
  by_front = sym (append_assoc fixed csrc (extension_bytes x ++ (p.payload ++ padding_bytes d)))

  by_before : whole ≡ before ++ (p.payload ++ padding_bytes d)
  by_before = by_front ∙ sym (append_assoc front (extension_bytes x) (p.payload ++ padding_bytes d))

  by_payload : whole ≡ (before ++ p.payload) ++ padding_bytes d
  by_payload = by_before ∙ sym (append_assoc before p.payload (padding_bytes d))

  flags_lem :
      Fits p count csrc x d
      → (shr (byte whole 0) 6 ≡ 2)
        × (low_bits (byte whole 0) 4 ≡ count)
        × (test_bit (byte whole 0) 4 ≡ (if extension_flag x == 16 then true else false))
        × (test_bit (byte whole 0) 5 ≡ (if padding_flag d == 32 then true else false))
  flags_lem f = ground (arith, extension_flag-cases x, padding_flag-cases d, f.csrc_fits)

  marker_lem :
      Fits p count csrc x d
      → (low_bits (byte whole 1) 7 ≡ p.payload_type) × (test_bit (byte whole 1) 7 ≡ p.marker)
  marker_lem f = ground (arith, marker_flag-cases p.marker, f.type_fits)

  numbers_lem :
      Fits p count csrc x d
      → (be32 whole 4 ≡ p.timestamp) × (be32 whole 8 ≡ p.ssrc) × (be16 whole 2 ≡ p.sequence)
  numbers_lem f = omega (arith, f.sequence_fits, f.timestamp_fits, f.ssrc_fits)

  length-front : Fits p count csrc x d → length front ≡ 12 + count * 4
  length-front f = omega (arith, f.csrc_fits.1, length-append fixed csrc)

  malformed-whole : Fits p count csrc x d → malformed whole ≡ false
  unfolding malformed
  malformed-whole f =
      let (version, low, _, _) = flags_lem f in
      ground (
        arith,
        version,
        low,
        f.size_fits,
        f.csrc_fits,
        length-append csrc (extension_bytes x ++ (p.payload ++ padding_bytes d)),
      )

  skip_extension-whole :
      Fits p count csrc x d
      → skip_extension whole (12 + low_bits (byte whole 0) 4 * 4) ≡ some (length before)
  skip_extension-whole f =
      let (_, low, flag, _) = flags_lem f in
      let rest = p.payload ++ padding_bytes d in
      let o : 12 + low_bits (byte whole 0) 4 * 4 ≡ length front =
        omega (arith, low, length-front f) in
      let flag' : test_bit (byte (front ++ (extension_bytes x ++ rest)) 0) 4
          ≡ (if extension_flag x == 16 then true else false) =
        flag in
      ap₂ skip_extension by_front o
      ∙ skip_extension-bytes front rest x f.extension_fits flag'
      ∙ ap some (sym (length-append front (extension_bytes x)))

  skip_padding-whole :
      Fits p count csrc x d
      → skip_padding whole (length before) ≡ some (length (before ++ p.payload))
  skip_padding-whole f =
      let (_, _, _, flag) = flags_lem f in
      let flag' : test_bit (byte ((before ++ p.payload) ++ padding_bytes d) 0) 5
          ≡ (if padding_flag d == 32 then true else false) =
        flag in
      ap (λ b. skip_padding b (length before)) by_payload
      ∙ skip_padding-bytes (before ++ p.payload) (length before) d
          (omega (arith, length-append before p.payload)) f.padding_fits flag'

  -- A packet of any CSRC count, with or without extension and padding, whose fields fit their
  -- widths and whose payload is not empty, is read back from its bytes field by field.
  pub parse_rtp-rtp_bytes : Fits p count csrc x d → parse_rtp (rtp_bytes p count csrc x d) ≡ some p
  unfolding parse_rtp fields
  parse_rtp-rtp_bytes f =
      let (t, s, q) = numbers_lem f in
      let (y, m) = marker_lem f in
      let end = length-append before p.payload in
      rw (malformed-whole f, skip_extension-whole f, skip_padding-whole f, end)
        (packet_of-bytes p before (padding_bytes d) whole by_before f.payload_some t s q y m)
