-- ===== src/Twcc.antt =====
-- shared/receiver/rtc/twcc_receiver.{h,cpp}: arrival times of transport-wide numbered packets, and the
-- RTCP feedback about them. Times are the int64_t of the source, unbounded here. A vector that is
-- returned empty is `none`. Bits that are or'ed into fields of their own are added.
pub mod Chunks
pub mod Deltas
pub mod Feedback
pub mod Window
pub mod Reported
pub mod Extension
pub mod Header
mod Tests
use kmvirtualcamera.Prelude.{
  ℕ, zero, suc, ◌+◌, ◌-◌, ◌*◌, ◌/◌, ◌%◌, ◌^◌, Bool, true, false, not, ◌&&◌, ◌||◌, Option, none,
  some, List, [], ◌∷◌, ◌++◌, ltb, leb, ◌==◌, if◌then◌else◌, length, get_or, set, take, drop,
  replicate, min, Bytes, byte, test_bit, low_bits, shr, sub16, is_empty,
}
use kmvirtualcamera.Prelude.Int.{ℤ, pos, negsuc, ◌-ℤ◌, ltb_ℤ}
use kmvirtualcamera.Wire.{be16}

pub record Arrival : Type 0 where
  pub time_us : ℤ
  pub size : ℕ
  pub received : Bool

pub record Twcc : Type 0 where
  pub records : List Arrival
  pub base : ℕ
  pub end : ℕ
  pub has_pending : Bool
  pub feedback_count : ℕ

abbrev pub ring_size : ℕ
ring_size = 2048

abbrev pub no_arrival : Arrival
no_arrival = record { time_us = pos 0; size = 0; received = false }

unfoldable pub reset : Twcc → Twcc
reset t = record {
  records = replicate ring_size no_arrival;
  base = 0;
  end = 0;
  has_pending = false;
  feedback_count = 0;
}

unfoldable pub pending_count : Twcc → ℕ
pending_count t = if t.has_pending then sub16 t.end t.base else 0

abbrev pub write_be16 : ℕ → Bytes
write_be16 v = v / 2 ^ 8 % 256 ∷ v % 256 ∷ []

abbrev pub write_be32 : ℕ → Bytes
write_be32 v = v / 2 ^ 24 % 256 ∷ v / 2 ^ 16 % 256 ∷ v / 2 ^ 8 % 256 ∷ v % 256 ∷ []

-- The walk over the one-byte header extensions, of which the list is what is left.
unfoldable pub find_extension : ℕ → ℕ → Bytes → Option ℕ
find_extension id fuel [] = none
find_extension id zero (b ∷ r) = none
find_extension id (suc fuel) (b ∷ r) =
    let l = low_bits b 4 + 1 in
    let more = find_extension id fuel (if b == 0 then r else drop l r) in
    if b == 0
    then more
    else if shr b 4 == 15 || ltb (length r) l
    then none
    else if shr b 4 == id && leb 2 l
    then some (be16 r 0)
    else more

unfoldable pub parse_transport_sequence : Bytes → ℕ → Option ℕ
parse_transport_sequence p id =
    let start = 12 + low_bits (byte p 0) 4 * 4 in
    let words = be16 p (start + 2) in
    if ltb (length p) 12
      || id == 0
      || ltb 14 id
      || not (shr (byte p 0) 6 == 2)
      || not (test_bit (byte p 0) 4)
      || ltb (length p) (start + 4)
      || not (be16 p start == 0xBEDE)
      || ltb (length p) (start + 4 + words * 4)
    then none
    else find_extension id (words * 4) (take (words * 4) (drop (start + 4) p))

-- The sign bit of a 16-bit difference.
abbrev pub is_behind : ℕ → ℕ → Bool
is_behind a b = leb 32768 (sub16 a b)

unfoldable pub on_packet : ℕ → ℤ → ℕ → Twcc → Twcc
on_packet seq time_us size t =
    let records =
      set t.records (seq % ring_size)
        (record { time_us = time_us; size = size; received = true }) in
    let next = (seq + 1) % 2 ^ 16 in
    if not t.has_pending
    then record t { records = records; base = seq; end = next; has_pending = true }
    else record t {
      records = records;
      base = if is_behind seq t.base then seq else t.base;
      end = if is_behind seq t.end then t.end else next;
    }

-- The status of a packet (0 missing, 1 a small delta, 2 a large one) and its delta in units of
-- 250 microseconds.
pub record Status : Type 0 where
  pub status : ℕ
  pub units : ℤ

-- Division that rounds towards zero.
unfoldable pub div_ℤ : ℤ → ℕ → ℤ
div_ℤ (pos n) k = pos (n / k)
div_ℤ (negsuc n) k = pos 0 -ℤ pos ((n + 1) / k)

unfoldable pub clamp16 : ℤ → ℤ
clamp16 (pos n) = pos (min 32767 n)
clamp16 (negsuc n) = negsuc (min 32767 n)

unfoldable pub status_of : ℤ → Status
status_of units =
    if not (ltb_ℤ units (pos 0)) && ltb_ℤ units (pos 256)
    then record { status = 1; units = units }
    else record { status = 2; units = clamp16 units }

-- The loop that collects the statuses, from a sequence number on. What it carries is the reference
-- time, in units of 64 ms, and the previous arrival.
unfoldable pub collect : ℕ → ℕ → List Arrival → Option (ℤ × ℤ) → List Status × Option (ℤ × ℤ)
collect zero seq records known = ([], known)
collect (suc n) seq records known =
    let a = get_or records (seq % ring_size) no_arrival in
    let reference = div_ℤ a.time_us 64000 in
    let first = status_of (div_ℤ (a.time_us -ℤ (reference_us reference)) 250) in
    let status : Status = elim known [
      | none ↦ first
      | some (r, previous) ↦ status_of (div_ℤ (a.time_us -ℤ previous) 250)
    ] in
    let known' : ℤ × ℤ = elim known [
      | none ↦ (reference, a.time_us)
      | some (r, previous) ↦ (r, a.time_us)
    ] in
    let (ss, last) =
      collect n ((seq + 1) % 2 ^ 16) records (if a.received then some known' else known) in
    ((if a.received then status else record { status = 0; units = pos 0 }) ∷ ss, last)
  where
    reference_us : ℤ → ℤ
    reference_us (pos n) = pos (n * 64000)
    reference_us (negsuc n) = pos 0 -ℤ pos ((n + 1) * 64000)

-- How many of the next statuses are the same, up to a bound.
unfoldable pub run_length : ℕ → ℕ → List Status → ℕ
run_length s zero ss = 0
run_length s (suc bound) [] = 0
run_length s (suc bound) (x ∷ ss) =
    let more = run_length s bound ss in if x.status == s then suc more else 0

-- uint16_t of a delta.
unfoldable pub to_u16 : ℤ → ℕ
to_u16 (pos n) = n % 2 ^ 16
to_u16 (negsuc n) = 2 ^ 16 - 1 - n % 2 ^ 16

unfoldable pub delta_bytes : List Status → Bytes
delta_bytes [] = []
delta_bytes (s ∷ ss) =
    let rest = delta_bytes ss in
    if s.status == 1
    then to_u16 s.units % 256 ∷ rest
    else if s.status == 2
    then to_u16 s.units / 256 ∷ to_u16 s.units % 256 ∷ rest
    else rest

-- The symbols of a status vector chunk, from the highest on.
unfoldable pub pack : ℕ → List Status → ℕ
pack zero ss = 0
pack (suc n) [] = 0
pack (suc n) (s ∷ ss) = low_bits s.status 2 * 4 ^ n + pack n ss

-- How many statuses from the first one on are the same.
unfoldable pub run_from : Status → List Status → ℕ
run_from s ss = 1 + run_length s.status 8190 ss

-- The statuses that the next chunk covers; fewer, where fewer are left.
unfoldable pub covered : Status → List Status → ℕ
covered s ss = if leb 7 (run_from s ss) then run_from s ss else 7

unfoldable pub next_chunk : Status → List Status → ℕ
next_chunk s ss =
    if leb 7 (run_from s ss)
    then s.status * 2 ^ 13 + run_from s ss % 8192
    else 0xC000 + pack 7 (s ∷ ss)

-- The loop that builds the chunks and the deltas. A round takes one status at least.
unfoldable pub encode : ℕ → List Status → List ℕ × Bytes
encode zero ss = ([], [])
encode (suc fuel) [] = ([], [])
encode (suc fuel) (s ∷ ss) =
    let (chunks, deltas) = encode fuel (drop (covered s ss) (s ∷ ss)) in
    (next_chunk s ss ∷ chunks, delta_bytes (take (covered s ss) (s ∷ ss)) ++ deltas)

unfoldable pub chunk_bytes : List ℕ → Bytes
chunk_bytes [] = []
chunk_bytes (c ∷ cs) = c / 2 ^ 8 ∷ c % 256 ∷ chunk_bytes cs

-- A reference time as 24 bits.
unfoldable pub reference24 : ℤ → ℕ
reference24 (pos n) = n % 2 ^ 24
reference24 (negsuc n) = 2 ^ 24 - 1 - n % 2 ^ 24

-- Zeros up to the next word.
unfoldable pub padding : Bytes → Bytes
padding content = replicate ((4 - length content % 4) % 4) 0

-- The packet behind its header, without the padding: what follows the media SSRC.
unfoldable pub fields_of : Twcc → ℕ → List Status → ℤ → Bytes
fields_of t count statuses reference =
    let (chunks, deltas) = encode (length statuses) statuses in
    let r = reference24 reference in
    write_be16 t.base
    ++ write_be16 count
    ++ r / 2 ^ 16 ∷ r / 2 ^ 8 % 256 ∷ r % 256 ∷ t.feedback_count ∷ []
    ++ chunk_bytes chunks
    ++ deltas

unfoldable pub body : Twcc → ℕ → List Status → ℤ → Bytes
body t count statuses reference =
    let content = fields_of t count statuses reference in content ++ padding content

unfoldable pub packet_of : ℕ → ℕ → Bytes → Bytes
packet_of sender media content =
    143 ∷ 205 ∷ write_be16 (((12 + length content) / 4 - 1) % 2 ^ 16)
    ++ write_be32 sender
    ++ write_be32 media
    ++ content

-- The records of `n` sequence numbers, cleared.
unfoldable pub clear : ℕ → ℕ → List Arrival → List Arrival
clear zero seq records = records
clear (suc n) seq records = clear n ((seq + 1) % 2 ^ 16) (set records (seq % ring_size) no_arrival)

-- The end of BuildFeedbackPacket, with the reference time if a packet has been received.
unfoldable pub report : ℕ → ℕ → Twcc → ℕ → List Status → Option (ℤ × ℤ) → Option Bytes × Twcc
report sender media t count statuses none = (none, t)
report sender media t count statuses (some (reference, previous)) =
    let base = (t.base + count) % 2 ^ 16 in
    (
      some (packet_of sender media (body t count statuses reference)),
      record t {
        records = clear count t.base t.records;
        base = base;
        has_pending = not (base == t.end);
        feedback_count = (t.feedback_count + 1) % 256;
      },
    )

unfoldable pub build_feedback : ℕ → ℕ → Twcc → Option Bytes × Twcc
build_feedback sender media t =
    let count = min 512 (sub16 t.end t.base) in
    let (statuses, known) = collect count t.base t.records none in
    if not t.has_pending || count == 0
    then (none, t)
    else report sender media t count statuses known
