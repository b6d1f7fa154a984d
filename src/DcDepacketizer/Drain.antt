-- ===== src/DcDepacketizer/Drain.antt =====
-- shared/receiver/codec/dc_video_depacketizer.cpp: what is drained, and the entry points.
use kmvirtualcamera.Prelude.{
  ℕ, zero, suc, ◌+◌, ◌-◌, ◌*◌, ◌%◌, ◌/◌, ◌^◌, Bool, true, false, not, ◌&&◌, ◌||◌, Option, none,
  some, List, [], ◌∷◌, ◌++◌, ltb, leb, ◌==◌, if◌then◌else◌, length, get_or, set, drop, replicate,
  Bytes, byte, test_bit, low_bits, is_empty, min,
}
use kmvirtualcamera.Prelude.Int.{ℤ, pos, negsuc, ltb_ℤ}
use kmvirtualcamera.RtpDepacketizer.{same_bytes}
use kmvirtualcamera.DcDepacketizer.{
  le16, le32, delta, max_dc_packet_size, max_pending_frames, max_pending_bytes, Frame, Output,
  Control, bitrate, DcDepacketizer, find, emplace, update, erase, recover, assemble,
}

abbrev pub is_negative : ℤ → Bool
is_negative z = ltb_ℤ z (pos 0)

-- The first loop of `drain`, over the entries as they were: frames of 60 ms go.
unfoldable pub expire : ℕ → List (ℕ × Frame) → DcDepacketizer → DcDepacketizer
expire now [] d = d
expire now ((k, f) ∷ rest) d =
    let gone = erase k d in
    let needed = not d.initialized || not (is_negative (delta k d.expected)) in
    expire now rest (
      if leb f.arrival now && leb 60000 (now - f.arrival)
      then if needed then recover now gone else gone
      else d)

-- The complete key frame that arrived first.
unfoldable pub first_key : List (ℕ × Frame) → Option (ℕ × Frame) → Option (ℕ × Frame)
first_key [] best = best
first_key ((k, f) ∷ rest) best =
    let better : Bool = elim best [ none ↦ true | some (j, g) ↦ ltb f.arrival g.arrival ] in
    first_key rest
      (if f.received == f.count && test_bit f.stable_flags 0 && better then some (k, f) else best)

-- Whether a frame is drained from here on: `none` is the return without one.
unfoldable pub locate : DcDepacketizer → Option DcDepacketizer
locate d = if d.initialized then some d else elim (first_key d.pending none) [
  | none ↦ none
  | some (k, f) ↦ some (record d { expected = k; initialized = true })
]

-- The frame at `expected` is complete: it goes out, or a keyframe is asked for.
unfoldable pub settle : ℕ → Option Output → DcDepacketizer → DcDepacketizer
settle now none d = recover now d
settle now (some o) d = record d {
  frames_out = d.frames_out ++ o ∷ [];
  frames = (d.frames + 1) % 2 ^ 64;
}

unfoldable pub hand_on : ℕ → Frame → DcDepacketizer → DcDepacketizer
hand_on now f d =
    let (out, d') = assemble f d in
    record (erase d.expected (settle now out d')) { expected = (d.expected + 1) % 2 ^ 16 }

unfoldable pub skip_frame : ℕ → DcDepacketizer → DcDepacketizer
skip_frame now d =
    recover now (record (erase d.expected d) { expected = (d.expected + 1) % 2 ^ 16 })

-- The frame closest ahead of `expected`: the distance so far, and the frame that has it.
unfoldable pub nearest : ℕ → List (ℕ × Frame) → ℤ → Option (ℕ × Frame) → Option (ℕ × Frame)
nearest e [] distance best = best
nearest e ((k, f) ∷ rest) distance best =
    let d = delta k e in
    let closer = not (is_negative d) && ltb_ℤ d distance in
    nearest e rest (if closer then d else distance) (if closer then some (k, f) else best)

-- The while loop. Each round takes a frame off, or the next one does.
unfoldable pub drain_loop : ℕ → ℕ → DcDepacketizer → DcDepacketizer
drain_loop zero now d = d
drain_loop (suc fuel) now d = elim (find d.expected d.pending) [
  | some f ↦ elim (f.received == f.count) [
    | true ↦ drain_loop fuel now (hand_on now f d)
    | false ↦ elim (leb 10000 (now - f.arrival)) [
      | true ↦ drain_loop fuel now (skip_frame now d)
      | false ↦ d
    ]
  ]
  | none ↦ elim (nearest d.expected d.pending (pos 32768) none) [
    | none ↦ d
    | some (k, f) ↦ elim (ltb (now - f.arrival) 10000) [
      | true ↦ d
      | false ↦ drain_loop fuel now (recover now (record d { expected = k }))
    ]
  ]
]

-- The last loop: frames behind `expected` go.
unfoldable pub drop_stale : List (ℕ × Frame) → DcDepacketizer → DcDepacketizer
drop_stale [] d = d
drop_stale ((k, f) ∷ rest) d =
    drop_stale rest (if is_negative (delta k d.expected) then erase k d else d)

-- Every two seconds without a loss the bitrate goes up.
unfoldable pub increase : ℕ → DcDepacketizer → DcDepacketizer
increase now d =
    let rate = min 8000000 ((d.rate + 300000) % 2 ^ 32) in
    if d.waiting || is_empty d.frames_out then d else elim d.last_increase [
      | none ↦ record d { last_increase = some now }
      | some t ↦
          if leb 2000000 (now - t)
          then record d {
            rate = rate;
            last_increase = some now;
            controls_out = d.controls_out ++ bitrate rate ∷ [];
          }
          else d
    ]

unfoldable pub drain : ℕ → DcDepacketizer → DcDepacketizer
drain now d =
    let fresh = expire now d.pending d in
    elim (locate fresh) [
      | none ↦ fresh
      | some found ↦
          let done = drain_loop (2 * length found.pending + 1) now found in
          increase now (drop_stale done.pending done)
    ]

unfoldable pub with_batch : DcDepacketizer → DcDepacketizer
with_batch d = record d { frames_out = []; controls_out = [] }

unfoldable pub on_timer_tick_at : ℤ → DcDepacketizer → DcDepacketizer
on_timer_tick_at (negsuc n) d = d
on_timer_tick_at (pos now) d =
    let d' = drain now (with_batch d) in if d'.waiting then recover now d' else d'

-- The tests on a packet that come before the lock.
unfoldable pub is_bad : Bytes → Bool
is_bad p =
    leb (length p) 12
    || ltb max_dc_packet_size (length p)
    || not (le16 p 0 == 0x4B4D)
    || not (byte p 3 == 1)
    || not (byte p 2 / 2 ^ 4 == 0)
    || byte p 5 == 0
    || leb (byte p 5) (byte p 4)
    || not (if test_bit (byte p 2) 2 then byte p 4 == 0 else not (byte p 4 == 0))
    || not
        (if test_bit (byte p 2) 3 then byte p 4 + 1 == byte p 5 else not (byte p 4 + 1 == byte p 5))

unfoldable pub new_frame : Bytes → ℕ → Frame
new_frame p now = record {
  timestamp = le32 p 8;
  count = byte p 5;
  stable_flags = low_bits (byte p 2) 2;
  received = 0;
  bytes = 0;
  arrival = now;
  chunks = replicate (byte p 5) [];
}

-- A chunk of frame `f`, which stands in the map at key `k`.
unfoldable pub add_chunk : Bytes → ℕ → ℕ → Frame → DcDepacketizer → DcDepacketizer
add_chunk p now k f d =
    let index = byte p 4 in
    let payload = drop 12 p in
    let chunk = get_or f.chunks index [] in
    if not (f.count == byte p 5)
      || not (f.timestamp == le32 p 8)
      || not (f.stable_flags == low_bits (byte p 2) 2)
    then recover now (erase k d)
    else if is_empty chunk
    then record d {
      pending =
          update k
            (record f {
              chunks = set f.chunks index payload;
              received = f.received + 1;
              bytes = f.bytes + length payload;
            })
            d.pending;
      bytes = d.bytes + length payload;
    }
    else if not (same_bytes chunk payload)
    then recover now (erase k d)
    else d

unfoldable pub accept : Bytes → ℕ → DcDepacketizer → DcDepacketizer
accept p now d =
    let k = le16 p 6 in
    let new = new_frame p now in
    let payload = length p - 12 in
    elim (find k d.pending) [
      | none ↦
          if leb max_pending_frames (length d.pending) || ltb max_pending_bytes (d.bytes + payload)
          then recover now (record d { pending = []; bytes = 0; initialized = false })
          else drain now (add_chunk p now k new (record d { pending = emplace k new d.pending }))
      | some f ↦
          if ltb max_pending_bytes (d.bytes + payload)
          then recover now (record d { pending = []; bytes = 0; initialized = false })
          else drain now (add_chunk p now k f d)
    ]

unfoldable pub process_packet_at : Bytes → ℤ → DcDepacketizer → DcDepacketizer
process_packet_at p (negsuc n) d = d
process_packet_at p (pos now) d =
    let d' = drain now (with_batch d) in
    if is_bad p
    then d
    else if d'.initialized && is_negative (delta (le16 p 6) d'.expected)
    then d'
    else accept p now d'

-- `dispatch`: the controls, then the frames, as far as the generation read before each callback is
-- still the batch's. What is read is an argument, since a callback may reset the depacketizer.
unfoldable pub dispatched {ℓ} : {A : Type ℓ} → ℕ → List ℕ → List A → List A × Bool
dispatched generation readings [] = ([], true)
dispatched generation [] (x ∷ xs) = ([], false)
dispatched generation (g ∷ readings) (x ∷ xs) =
    let (ys, all) = dispatched generation readings xs in
    if g == generation then (x ∷ ys, all) else ([], false)

unfoldable pub dispatch : List ℕ → DcDepacketizer → List Control × List Output
dispatch readings d =
    let (controls, all) = dispatched d.generation readings d.controls_out in
    let (frames, _) =
      dispatched d.generation (drop (length d.controls_out) readings) d.frames_out in
    (controls, if all then frames else [])
