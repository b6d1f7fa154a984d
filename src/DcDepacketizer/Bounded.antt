-- ===== src/DcDepacketizer/Bounded.antt =====
-- shared/receiver/codec/dc_video_depacketizer.cpp: the accounts of the pending frames, at the entry
-- points.
use kmvirtualcamera.Prelude.{
  ℕ, zero, suc, ◌+◌, ◌-◌, ◌≤◌, ◌<◌, ◌≡◌, refl, sym, true, false, not, ◌&&◌, ◌||◌, some, List, [],
  ◌∷◌, arith, ltb, leb, ◌==◌, length, get_or, set, drop, replicate, length-replicate, low_bits,
  length-drop, Bytes, byte, is_empty, Bool-cases, Option-cases, inl, inr,
}
use kmvirtualcamera.Prelude.Int.{ℤ, pos, negsuc}
use kmvirtualcamera.DcDepacketizer.{
  Frame, DcDepacketizer, initial, reset, find, emplace, erase, recover, max_pending_frames,
  max_pending_bytes,
}
use kmvirtualcamera.DcDepacketizer.Drain.{
  drain, with_batch, on_timer_tick_at, new_frame, add_chunk, accept, process_packet_at,
}
use kmvirtualcamera.DcDepacketizer.Drain.{is_bad, is_negative}
use kmvirtualcamera.RtpDepacketizer.{same_bytes}
use kmvirtualcamera.DcDepacketizer.{le16, le32, delta}
use kmvirtualcamera.DcDepacketizer.Accounts.{
  chunk_bytes, Fine, Counted, IsBounded, emplace_lem, update_lem, erase-IsBounded, same-IsBounded,
  recover-IsBounded,
}
use kmvirtualcamera.DcDepacketizer.Drained.{if-IsBounded, drain-IsBounded}

set-chunk_bytes :
    (cs : List Bytes) (i : ℕ) (p : Bytes)
    → i < length cs
    → is_empty (get_or cs i []) ≡ true
    → (chunk_bytes (set cs i p) ≡ chunk_bytes cs + length p) × (length (set cs i p) ≡ length cs)
set-chunk_bytes [] i p h e = absurd (omega arith)
set-chunk_bytes ([] ∷ cs) zero p h e = omega arith
set-chunk_bytes ((x ∷ c) ∷ cs) zero p h e = cc
set-chunk_bytes (c ∷ cs) (suc i) p h e =
    let (b, l) = set-chunk_bytes cs i p (omega arith) e in (omega (arith, b), omega (arith, l))

add_chunk-IsBounded :
    (p : Bytes) (now k : ℕ) (f : Frame) (d : DcDepacketizer)
    → byte p 4 < byte p 5
    → find k d.pending ≡ some f
    → Fine f
    → d.bytes + (length p - 12) ≤ max_pending_bytes
    → IsBounded d
    → IsBounded (add_chunk p now k f d)
unfolding add_chunk
add_chunk-IsBounded p now k f d lt e v room b =
    let index = byte p 4 in
    let payload = drop 12 p in
    let chunk = get_or f.chunks index [] in
    let other =
      not (f.count == byte p 5)
      || not (f.timestamp == le32 p 8)
      || not (f.stable_flags == low_bits (byte p 2) 2) in
    let gone = recover-IsBounded now (erase k d) (erase-IsBounded k d b) in
    elim (Bool-cases other) [
      | inl o ↦ rw o gone
      | inr o ↦ elim (Bool-cases (is_empty chunk)) [
        | inl c ↦
            let (a, l) = set-chunk_bytes f.chunks index payload (ground (arith, v, o, lt)) c in
            let g : Frame = record f {
              chunks = set f.chunks index payload;
              received = f.received + 1;
              bytes = f.bytes + length payload;
            } in
            let (t, n, u) = update_lem k g f d.pending e b.counted (omega (arith, v, a, l)) in
            let size = length-drop 12 p in
            rw (o, c)
              (record {
                exact = omega (arith, t, b.exact);
                counted = u;
                few = omega (arith, n, b.few);
                small = omega (arith, size, room);
                rate_range = b.rate_range;
              })
        | inr c ↦ elim (Bool-cases (same_bytes chunk payload)) [
          | inl t ↦ rw (o, c, t) b
          | inr t ↦ rw (o, c, t) gone
        ]
      ]
    ]

find-Fine : (k : ℕ) (m : List (ℕ × Frame)) {f : Frame} → find k m ≡ some f → Counted m → Fine f
unfolding find
find-Fine k [] e c = cc
find-Fine k ((j, g) ∷ m) {f} e (b, c) = elim (Bool-cases (j == k)) [
  | inl t ↦ ground (arith, e, t, b)
  | inr t ↦ find-Fine k m {f = f} (ground (arith, e, t)) c
]

replicate-Fine : (n : ℕ) → chunk_bytes (replicate n []) ≡ 0
replicate-Fine zero = refl
replicate-Fine (suc n) = omega (arith, replicate-Fine n)

accept-IsBounded :
    (p : Bytes) (now : ℕ) (d : DcDepacketizer)
    → byte p 4 < byte p 5
    → IsBounded d
    → IsBounded (accept p now d)
unfolding accept new_frame
accept-IsBounded p now d lt b =
    let k = le16 p 6 in
    let new = new_frame p now in
    let fine : Fine new =
      unfold new_frame in (sym (replicate-Fine (byte p 5)), length-replicate (byte p 5) []) in
    let cleared =
      recover-IsBounded now (record d { pending = []; bytes = 0; initialized = false })
        (record {
          exact = refl;
          counted = tt;
          few = omega arith;
          small = omega arith;
          rate_range = b.rate_range;
        }) in
    elim (Option-cases (find k d.pending)) [
      | inr (f, e) ↦ elim (Bool-cases (ltb max_pending_bytes (d.bytes + (length p - 12)))) [
        | inl t ↦ rw (e, t, accept) cleared
        | inr t ↦
            rw (e, t, accept)
              (drain-IsBounded now (add_chunk p now k f d) (
                add_chunk-IsBounded p now k f d lt e (find-Fine k d.pending e b.counted)
                  (ground (arith, t)) b))
      ]
      | inl e ↦
          elim (Bool-cases (
            leb max_pending_frames (length d.pending)
            || ltb max_pending_bytes (d.bytes + (length p - 12)))) [
              | inl t ↦ rw (e, t, accept) cleared
              | inr t ↦
                  let (sum, more, counted, found) = emplace_lem k new d.pending e b.counted fine in
                  let room : length d.pending < max_pending_frames = ground (arith, t) in
                  let zero_bytes : new.bytes ≡ 0 = unfold new_frame in refl in
                  let opened : DcDepacketizer = record d { pending = emplace k new d.pending } in
                  let v : IsBounded opened = record {
                    exact = omega (arith, sum, zero_bytes, b.exact);
                    counted = counted;
                    few = omega (arith, more, room);
                    small = b.small;
                    rate_range = b.rate_range;
                  } in
                  rw (e, t, accept)
                    (drain-IsBounded now (add_chunk p now k new opened)
                      (add_chunk-IsBounded p now k new opened lt found fine (ground (arith, t)) v))
            ]
    ]

with_batch-IsBounded : (d : DcDepacketizer) → IsBounded d → IsBounded (with_batch d)
unfolding with_batch
with_batch-IsBounded d b = same-IsBounded d _ refl refl b.rate_range b

is_bad_index : (p : Bytes) → is_bad p ≡ false → byte p 4 < byte p 5
unfolding is_bad
is_bad_index p e = ground (arith, e)

process-IsBounded :
    (p : Bytes) (t : ℤ) (d : DcDepacketizer) → IsBounded d → IsBounded (process_packet_at p t d)
unfolding process_packet_at
process-IsBounded p (negsuc n) d b = b
process-IsBounded p (pos now) d b =
    let d' = drain now (with_batch d) in
    let v = drain-IsBounded now (with_batch d) (with_batch-IsBounded d b) in
    elim (Bool-cases (is_bad p)) [
      | inl e ↦ rw e b
      | inr e ↦ elim (Bool-cases (d'.initialized && is_negative (delta (le16 p 6) d'.expected))) [
        | inl s ↦ rw (e, s) v
        | inr s ↦ rw (e, s) (accept-IsBounded p now d' (is_bad_index p e) v)
      ]
    ]

tick-IsBounded : (t : ℤ) (d : DcDepacketizer) → IsBounded d → IsBounded (on_timer_tick_at t d)
unfolding on_timer_tick_at
tick-IsBounded (negsuc n) d b = b
tick-IsBounded (pos now) d b =
    let d' = drain now (with_batch d) in
    let v = drain-IsBounded now (with_batch d) (with_batch-IsBounded d b) in
    if-IsBounded d'.waiting (recover now d') d' (recover-IsBounded now d' v) v

reset-IsBounded : (d : DcDepacketizer) → IsBounded (reset d)
unfolding reset
reset-IsBounded d = record {
  exact = refl;
  counted = tt;
  few = omega arith;
  small = omega arith;
  rate_range = omega arith;
}

pub data Op : Type 0 where
  packets : Bytes → ℤ → Op
  ticks : ℤ → Op
  resets : Op

unfoldable pub step : DcDepacketizer → Op → DcDepacketizer
step d (packets p t) = process_packet_at p t d
step d (ticks t) = on_timer_tick_at t d
step d resets = reset d

unfoldable pub run : DcDepacketizer → List Op → DcDepacketizer
run d [] = d
run d (o ∷ os) = run (step d o) os

step-IsBounded : (d : DcDepacketizer) (o : Op) → IsBounded d → IsBounded (step d o)
unfolding step
step-IsBounded d (packets p t) b = process-IsBounded p t d b
step-IsBounded d (ticks t) b = tick-IsBounded t d b
step-IsBounded d resets b = reset-IsBounded d

run_from-IsBounded : (os : List Op) (d : DcDepacketizer) → IsBounded d → IsBounded (run d os)
unfolding run
run_from-IsBounded [] d b = b
run_from-IsBounded (o ∷ os) d b = run_from-IsBounded os (step d o) (step-IsBounded d o b)

-- Whatever packets, ticks and resets come, at whatever times: the bytes pending are counted exactly,
-- frame by frame and chunk by chunk, at most 2 MiB in at most 32 frames are held, and the bitrate
-- asked for stays between 2 and 8 Mbit/s.
pub run-IsBounded : (os : List Op) → IsBounded (run initial os)
run-IsBounded os = run_from-IsBounded os initial (
    unfold initial in
    (record {
      exact = refl;
      counted = tt;
      few = omega arith;
      small = omega arith;
      rate_range = omega arith;
    }))
