-- ===== src/RtpDepacketizer.antt =====
-- shared/receiver/codec/h264_rtp_depacketizer.{h,cpp}: H.264 access units out of RTP packets.
-- The two callbacks append to `events`, the newest first; a callback that is not set is one whose
-- events nobody reads, since no state depends on it.
pub mod Steps
pub mod Emitted
pub mod Decodable
mod Tests
use kmvirtualcamera.Prelude.{
  ℕ, zero, suc, ◌+◌, ◌-◌, ◌*◌, ◌/◌, ◌%◌, ◌^◌, Bool, true, false, not, ◌&&◌, ◌||◌, Option, none,
  some, List, [], ◌∷◌, ◌++◌, ltb, leb, ◌==◌, if◌then◌else◌, length, take, drop, Bytes, byte,
  test_bit, shr, low_bits, is_empty,
}
use kmvirtualcamera.Prelude.Int.{ℤ, pos, negsuc, leb_ℤ}
use kmvirtualcamera.Wire.{RtpPacket, parse_rtp, be16, sequence_delta}

pub data Event : Type 0 where
  frame : Bytes → ℕ → Event
  keyframe_request : Event

pub record Depacketizer : Type 0 where
  pub au : Bytes
  pub fu : Bytes
  pub sps : Bytes
  pub pps : Bytes
  pub timestamp : ℕ
  pub ssrc : ℕ
  pub sequence : ℕ
  pub fu_header : ℕ
  pub have_ssrc : Bool
  pub have_sequence : Bool
  pub have_timestamp : Bool
  pub waiting : Bool
  pub damaged : Bool
  pub idr : Bool
  pub vcl : Bool
  pub has_sps : Bool
  pub has_pps : Bool
  pub events : List Event

abbrev pub max_access_unit : ℕ
max_access_unit = 4 * 1024 * 1024

pub initial : Depacketizer
initial = record {
  au = [];
  fu = [];
  sps = [];
  pps = [];
  timestamp = 0;
  ssrc = 0;
  sequence = 0;
  fu_header = 0;
  have_ssrc = false;
  have_sequence = false;
  have_timestamp = false;
  waiting = true;
  damaged = false;
  idr = false;
  vcl = false;
  has_sps = false;
  has_pps = false;
  events = [];
}

abbrev pub nal_type : Bytes → ℕ
nal_type n = low_bits (byte n 0) 5

unfoldable pub valid_nal : Bytes → Bool
valid_nal n =
    not (is_empty n) && not (test_bit (byte n 0) 7) && leb 1 (nal_type n) && leb (nal_type n) 23

abbrev pub append : Bytes → Bytes → Bytes
append dst n = dst ++ (0 ∷ 0 ∷ 0 ∷ 1 ∷ n)

-- std::equal of two byte ranges.
pub same_bytes : Bytes → Bytes → Bool
same_bytes [] [] = true
same_bytes [] (y ∷ ys) = false
same_bytes (x ∷ xs) [] = false
same_bytes (x ∷ xs) (y ∷ ys) = x == y && same_bytes xs ys

pub clear_au : Depacketizer → Depacketizer
clear_au d = record d {
  au = [];
  fu = [];
  damaged = false;
  idr = false;
  vcl = false;
  has_sps = false;
  has_pps = false;
}

pub reset : Depacketizer → Depacketizer
reset d = record (clear_au d) {
  sps = [];
  pps = [];
  waiting = true;
  have_ssrc = false;
  have_sequence = false;
  have_timestamp = false;
}

pub lose : Depacketizer → Depacketizer
lose d = record d {
  au = [];
  fu = [];
  damaged = true;
  waiting = true;
  events = keyframe_request ∷ d.events;
}

-- The size tests of `appendNalu`. The first keeps the second's subtraction from wrapping.
pub oversized : Depacketizer → Bytes → Bool
oversized d n =
    ltb (max_access_unit - 4) (length n)
    || ltb (max_access_unit - length n - 4) (length d.au)
    || ((nal_type n == 7 || nal_type n == 8) && ltb 65536 (length n))

-- The parameter sets that are kept, and the flags, after a NAL unit of each type.
pub note_nalu : Depacketizer → Bytes → Depacketizer
note_nalu d n =
    let type = nal_type n in
    record d {
      sps = if type == 7 then n else d.sps;
      pps =
          if type == 7
          then if same_bytes d.sps n then d.pps else []
          else if type == 8
          then n
          else d.pps;
      has_sps = if type == 7 then true else d.has_sps;
      has_pps = if type == 8 then true else d.has_pps;
      idr = d.idr || type == 5;
      vcl = d.vcl || leb 1 type && leb type 5;
      au = append d.au n;
    }

pub append_nalu : Depacketizer → Bytes → Bool × Depacketizer
append_nalu d n = if not (valid_nal n) || oversized d n then (false, d) else (true, note_nalu d n)

-- The test `good` of `emit`, and the parameter sets that go in front of an IDR.
pub good : Depacketizer → Bool
good d =
    not d.damaged
    && is_empty d.fu
    && d.vcl
    && (not d.waiting || d.idr)
    && (not d.idr || not (is_empty d.sps) && not (is_empty d.pps))

pub missing_sets : Depacketizer → Bytes
missing_sets d =
    if d.idr
    then (let first = if d.has_sps then [] else append [] d.sps in
        if d.has_pps then first else append first d.pps)
    else []

-- `emit` with the output that it built, which is empty if there is nothing to hand on.
pub deliver : Depacketizer → Bytes → Bool → Depacketizer
deliver d output waiting =
    let rest = record (clear_au d) { waiting = waiting } in
    if not (is_empty output)
    then record rest { events = frame output d.timestamp ∷ d.events }
    else if waiting
    then record rest { events = keyframe_request ∷ d.events }
    else rest

pub emit : Depacketizer → Depacketizer
emit d =
    let sets = missing_sets d in
    if good d
    then if ltb (max_access_unit - length sets) (length d.au)
      then deliver d [] true
      else deliver d (sets ++ d.au) (if d.idr then false else d.waiting)
    else deliver d [] (if d.vcl || not (is_empty d.fu) then true else d.waiting)

-- The walk over a STAP-A payload behind its first byte: the units and the room that they take.
-- `none` is `ok = false`. A round takes three bytes at least.
pub stap_units : ℕ → Bytes → List Bytes → ℕ → Option (List Bytes × ℕ)
stap_units fuel [] nalus total = some (nalus, total)
stap_units zero (x ∷ r) nalus total = none
stap_units (suc fuel) (x ∷ r) nalus total =
    let l = be16 (x ∷ r) 0 in
    let rest = drop 2 (x ∷ r) in
    let n = take l rest in
    let more = stap_units fuel (drop l rest) (nalus ++ n ∷ []) (total + (l + 4)) in
    if ltb (length (x ∷ r)) 2
    then none
    else if l == 0 || ltb (length rest) l || leb 1024 (length nalus) || not (valid_nal n)
    then none
    else more

-- The loop that appends them, up to the first that is refused.
pub append_all : Depacketizer → List Bytes → Bool × Depacketizer
append_all d [] = (true, d)
append_all d (n ∷ ns) =
    let (ok, d') = append_nalu d n in elim ok [ true ↦ append_all d' ns | false ↦ (false, d') ]

pub stap : Depacketizer → Option (List Bytes × ℕ) → Bool × Depacketizer
stap d none = (false, d)
stap d (some (nalus, total)) =
    if is_empty d.fu && not (is_empty nalus) && leb total (max_access_unit - length d.au)
    then append_all d nalus
    else (false, d)

-- A fragment that goes on: its bytes join `fu_`, and the last one hands the unit on.
pub extend_fu : Depacketizer → Bytes → Bool → Bool × Depacketizer
extend_fu d content last =
    let l = length content in
    let fu = d.fu ++ content in
    if ltb (max_access_unit - 4) l
      || ltb (max_access_unit - 4 - l) (length d.fu)
      || ltb (max_access_unit - 4 - l - length d.fu) (length d.au)
    then (false, d)
    else if last
    then (let (ok, d') = append_nalu (record d { fu = fu }) fu in (ok, record d' { fu = [] }))
    else (true, record d { fu = fu })

pub fragment : Depacketizer → Bytes → Bool × Depacketizer
fragment d p =
    let first = test_bit (byte p 1) 7 in
    let last = test_bit (byte p 1) 6 in
    let header = shr (byte p 0) 5 * 2 ^ 5 + low_bits (byte p 1) 5 in
    if ltb (length p) 3
      || test_bit (byte p 1) 5
      || low_bits (byte p 1) 5 == 0
      || ltb 23 (low_bits (byte p 1) 5)
      || shr (byte p 1) 6 == 3
    then (false, d)
    else if first
    then if is_empty d.fu
      then extend_fu (record d { fu_header = header; fu = header ∷ [] }) (drop 2 p) last
      else (false, d)
    else if is_empty d.fu || not (d.fu_header == header)
    then (false, d)
    else extend_fu d (drop 2 p) last

-- The test `delta == 1`.
abbrev pub is_one : ℤ → Bool
is_one (pos n) = n == 1
is_one (negsuc n) = false

-- The three kinds of payload that are negotiated.
pub by_type : Depacketizer → Bytes → Bool × Depacketizer
by_type d p =
    let type = nal_type p in
    if leb 1 type && leb type 23
    then if is_empty d.fu then append_nalu d p else (false, d)
    else if type == 24
    then stap d (stap_units (length p) (drop 1 p) [] 0)
    else if type == 28
    then fragment d p
    else (false, d)

-- What follows the payload: a damage is lost, and a marker ends the access unit.
pub finish : Bool → Bool × Depacketizer → Depacketizer
finish marker (ok, d) =
    let d' = if ok then d else lose d in
    if marker then record (emit d') { have_timestamp = false } else d'

pub on_payload : RtpPacket → Depacketizer → Depacketizer
on_payload p d =
    if test_bit (byte p.payload 0) 7 then lose d else finish p.marker (by_type d p.payload)

-- From the timestamp test on. `gap`: sequence numbers are missing.
pub on_boundary : Bool → RtpPacket → Depacketizer → Depacketizer
on_boundary gap p d =
    if d.have_timestamp && not (p.timestamp == d.timestamp)
    then emit (if gap || not (is_empty d.fu) then lose d else d)
    else d

pub on_unit : Bool → RtpPacket → Depacketizer → Depacketizer
on_unit gap p d =
    let bounded = on_boundary gap p d in
    let stamped = record bounded { timestamp = p.timestamp; have_timestamp = true } in
    let told = if gap then lose stamped else stamped in
    if told.damaged
    then if p.marker then record (clear_au told) { have_timestamp = false } else told
    else on_payload p told

pub on_packet : RtpPacket → Depacketizer → Depacketizer
on_packet p d =
    let fresh = if d.have_ssrc && not (p.ssrc == d.ssrc) then reset d else d in
    let known = record fresh { have_ssrc = true; ssrc = p.ssrc } in
    let delta = sequence_delta p.sequence known.sequence in
    let counted = record known { sequence = p.sequence; have_sequence = true } in
    if known.have_sequence && leb_ℤ delta (pos 0)
    then known
    else on_unit (known.have_sequence && not (is_one delta)) p counted

pub process : Bytes → Depacketizer → Depacketizer
process bytes d = elim (parse_rtp bytes) [ none ↦ lose d | some p ↦ on_packet p d ]

pub run : Depacketizer → List Bytes → Depacketizer
run d [] = d
run d (b ∷ bs) = run (process b d) bs
