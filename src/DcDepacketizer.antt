-- ===== src/DcDepacketizer.antt =====
-- shared/receiver/codec/dc_video_depacketizer.{h,cpp}: access units out of data-channel chunks. Times
-- are microseconds; the source's -1 for "never" is `none`, and its test for a negative time stands in
-- the two entry points. The map is a list sorted by key. The batch that is sent after the lock is let
-- go of stands in `frames_out` and `controls_out`.

pub mod Drain
pub mod Accounts
pub mod Drained
pub mod Bounded
pub mod Fuel
mod Tests
use kmvirtualcamera.Prelude.{
  ℕ, zero, suc, ◌+◌, ◌-◌, ◌*◌, ◌/◌, ◌%◌, ◌^◌, Bool, true, false, not, ◌&&◌, ◌||◌, Option, none,
  some, List, [], ◌∷◌, ◌++◌, ltb, leb, ◌==◌, if◌then◌else◌, length, get_or, set, drop, replicate,
  Bytes, byte, test_bit, low_bits, is_empty, sub16, min, max,
}
use kmvirtualcamera.Prelude.Int.{ℤ, pos, negsuc, ◌-ℤ◌, ltb_ℤ}
use kmvirtualcamera.H264.{split_annex_b, split_length_prefixed4, append_annex_b}
use kmvirtualcamera.RtpDepacketizer.{same_bytes}

abbrev pub le16 : Bytes → ℕ → ℕ
le16 b o = byte b o + byte b (o + 1) * 2 ^ 8

abbrev pub le32 : Bytes → ℕ → ℕ
le32 b o = le16 b o + le16 b (o + 2) * 2 ^ 16

unfoldable pub delta : ℕ → ℕ → ℤ
delta a b = let d = sub16 a b in if ltb d 32768 then pos d else pos d -ℤ pos 65536

abbrev pub max_dc_packet_size : ℕ
max_dc_packet_size = 12 + 1180

abbrev pub max_pending_frames : ℕ
max_pending_frames = 32

abbrev pub max_pending_bytes : ℕ
max_pending_bytes = 2 * 1024 * 1024

pub record Frame : Type 0 where
  pub timestamp : ℕ
  pub count : ℕ
  pub stable_flags : ℕ
  pub received : ℕ
  pub bytes : ℕ
  pub arrival : ℕ
  pub chunks : List Bytes

pub record Output : Type 0 where
  pub bytes : Bytes
  pub timestamp : ℕ

-- The two JSON texts of the control channel.
pub data Control : Type 0 where
  pli : Control
  bitrate : ℕ → Control

pub record DcDepacketizer : Type 0 where
  pub pending : List (ℕ × Frame)
  pub bytes : ℕ
  pub expected : ℕ
  pub initialized : Bool
  pub waiting : Bool
  pub last_pli : Option ℕ
  pub last_increase : Option ℕ
  pub sps : Bytes
  pub pps : Bytes
  pub rate : ℕ
  pub frames : ℕ
  pub generation : ℕ
  pub frames_out : List Output
  pub controls_out : List Control

unfoldable pub initial : DcDepacketizer
initial = record {
  pending = [];
  bytes = 0;
  expected = 0;
  initialized = false;
  waiting = true;
  last_pli = none;
  last_increase = none;
  sps = [];
  pps = [];
  rate = 3000000;
  frames = 0;
  generation = 1;
  frames_out = [];
  controls_out = [];
}

unfoldable pub reset : DcDepacketizer → DcDepacketizer
reset d = record d {
  pending = [];
  bytes = 0;
  expected = 0;
  initialized = false;
  waiting = true;
  last_pli = none;
  last_increase = none;
  sps = [];
  pps = [];
  rate = 3000000;
  frames = 0;
  generation = (d.generation + 1) % 2 ^ 64;
}

-- std::map: find, erase, the insertion of a new key in order, and a write through an iterator.
unfoldable pub find : ℕ → List (ℕ × Frame) → Option Frame
find k [] = none
find k ((j, f) ∷ rest) = if j == k then some f else find k rest

unfoldable pub remove : ℕ → List (ℕ × Frame) → List (ℕ × Frame)
remove k [] = []
remove k ((j, f) ∷ rest) = if j == k then rest else (j, f) ∷ remove k rest

unfoldable pub emplace : ℕ → Frame → List (ℕ × Frame) → List (ℕ × Frame)
emplace k f [] = (k, f) ∷ []
emplace k f ((j, g) ∷ rest) = if ltb k j then (k, f) ∷ (j, g) ∷ rest else (j, g) ∷ emplace k f rest

unfoldable pub update : ℕ → Frame → List (ℕ × Frame) → List (ℕ × Frame)
update k f [] = []
update k f ((j, g) ∷ rest) = if j == k then (j, f) ∷ rest else (j, g) ∷ update k f rest

-- `erase` of the frame at a key that is in the map.
unfoldable pub erase : ℕ → DcDepacketizer → DcDepacketizer
erase k d = elim (find k d.pending) [
  | none ↦ d
  | some f ↦ record d { pending = remove k d.pending; bytes = d.bytes - f.bytes }
]

-- Whether `span` has passed since a time that may be "never".
unfoldable pub elapsed : ℕ → Option ℕ → ℕ → Bool
elapsed now none span = true
elapsed now (some t) span = leb span (now - t)

unfoldable pub recover : ℕ → DcDepacketizer → DcDepacketizer
recover now d =
    let rate = max 2000000 (d.rate * 85 % 2 ^ 32 / 100) in
    if elapsed now d.last_pli 50000
    then record d {
      waiting = true;
      last_pli = some now;
      last_increase = some now;
      rate = rate;
      controls_out = d.controls_out ++ pli ∷ bitrate rate ∷ [];
    }
    else record d { waiting = true }

unfoldable pub concat : List Bytes → Bytes
concat [] = []
concat (c ∷ cs) = c ++ concat cs

abbrev pub nal_type : Bytes → ℕ
nal_type n = low_bits (byte n 0) 5

-- The loop over the NAL units: whether one has a type, and the last of a type.
unfoldable pub has_type : ℕ → List Bytes → Bool
has_type t [] = false
has_type t (n ∷ ns) = nal_type n == t || has_type t ns

unfoldable pub last_of : ℕ → List Bytes → Bytes → Bytes
last_of t [] n = n
last_of t (m ∷ ns) n = last_of t ns (if nal_type m == t then m else n)

-- Annex-B is preferred, and the length framing taken if that fails.
unfoldable pub split : Bytes → Option (List Bytes)
split raw = elim (split_annex_b raw) [ none ↦ split_length_prefixed4 raw | some nalus ↦ some nalus ]

unfoldable pub append_others : Bool → List Bytes → Bytes → Bytes
append_others idr [] out = out
append_others idr (n ∷ ns) out = append_others idr ns (
    if nal_type n == 9 || idr && (nal_type n == 7 || nal_type n == 8)
    then out
    else append_annex_b out n)

-- What stands below the parameter sets' handling in `assemble`.
unfoldable pub write : Frame → List Bytes → DcDepacketizer → Option Output × DcDepacketizer
write f nalus d =
    let idr = has_type 5 nalus in
    let start = 0 ∷ 0 ∷ 0 ∷ 1 ∷ 9 ∷ 0xf0 ∷ [] in
    let sets = if idr then append_annex_b (append_annex_b start d.sps) d.pps else start in
    if test_bit f.stable_flags 0 && not idr
      || d.waiting && not idr
      || idr && (is_empty d.sps || is_empty d.pps)
    then (none, d)
    else (
      some (record { bytes = append_others idr nalus sets; timestamp = f.timestamp }),
      record d { waiting = if idr then false else d.waiting },
    )

unfoldable pub assemble : Frame → DcDepacketizer → Option Output × DcDepacketizer
assemble f d = elim (split (concat f.chunks)) [
  | none ↦ (none, d)
  | some nalus ↦
      let sps = last_of 7 nalus [] in
      let pps = last_of 8 nalus [] in
      if is_empty sps && is_empty pps
      then write f nalus d
      else if is_empty sps || is_empty pps
      then (none, record d { sps = []; pps = [] })
      else write f nalus (record d { sps = sps; pps = pps })
]
