-- ===== src/DcDepacketizer/Drained.antt =====
-- shared/receiver/codec/dc_video_depacketizer.cpp: the accounts of the pending frames, at `drain`.
use kmvirtualcamera.Prelude.{
  ℕ, zero, suc, ◌+◌, ◌-◌, ◌*◌, ◌%◌, ◌^◌, ◌≡◌, refl, Bool, true, false, Option, none, some, List, [],
  ◌∷◌, arith, ltb, leb, ◌==◌, if◌then◌else◌, length, Bool-cases, Option-cases, inl, inr,
}
use kmvirtualcamera.Prelude.Int.{pos}
use kmvirtualcamera.DcDepacketizer.{
  Frame, DcDepacketizer, Output, split, concat, find, erase, recover, write, assemble,
}
use kmvirtualcamera.DcDepacketizer.Drain.{
  expire, first_key, locate, settle, hand_on, skip_frame, nearest, drain_loop, drop_stale, increase,
  drain,
}
use kmvirtualcamera.DcDepacketizer.Accounts.{
  IsBounded, erase-IsBounded, same-IsBounded, recover-IsBounded,
}

pub if-IsBounded :
    (t : Bool) (d e : DcDepacketizer) → IsBounded d → IsBounded e → IsBounded (if t then d else e)
if-IsBounded true d e b c = b
if-IsBounded false d e b c = c

expire-IsBounded :
    (now : ℕ) (m : List (ℕ × Frame)) (d : DcDepacketizer) → IsBounded d → IsBounded (expire now m d)
unfolding expire
expire-IsBounded now [] d b = b
expire-IsBounded now ((k, f) ∷ m) d b =
    let gone = erase k d in
    let g = erase-IsBounded k d b in
    expire-IsBounded now m _ (
      if-IsBounded _ _ d (if-IsBounded _ (recover now gone) gone (recover-IsBounded now gone g) g)
        b)

locate-IsBounded :
    (d : DcDepacketizer) {e : DcDepacketizer} → locate d ≡ some e → IsBounded d → IsBounded e
unfolding locate
locate-IsBounded d {e} h b = elim (Bool-cases d.initialized) [
  | inl t ↦
      same-IsBounded d e (ground (arith, h, t)) (ground (arith, h, t))
        (ground (arith, h, t, b.rate_range)) b
  | inr t ↦ elim (Option-cases (first_key d.pending none)) [
    | inl n ↦ ground (arith, h, t, n)
    | inr ((k, f), n) ↦
        same-IsBounded d e (ground (arith, h, t, n)) (ground (arith, h, t, n))
          (ground (arith, h, t, n, b.rate_range)) b
  ]
]

pub assemble_keeps :
    (f : Frame) (d : DcDepacketizer)
    → ((assemble f d).1.pending ≡ d.pending)
      × ((assemble f d).1.bytes ≡ d.bytes)
      × ((assemble f d).1.rate ≡ d.rate)
unfolding assemble write
assemble_keeps f d = elim (Option-cases (split (concat f.chunks))) [
  | inl e ↦ rw (e, assemble) (refl, refl, refl)
  | inr (nalus, e) ↦ ground (arith, e)
]

increase-IsBounded : (now : ℕ) (d : DcDepacketizer) → IsBounded d → IsBounded (increase now d)
increase-IsBounded now d b =
    same-IsBounded d (increase now d) (unfold increase in ground arith)
      (unfold increase in ground arith) (unfold increase in ground (arith, b.rate_range)) b

settle-IsBounded :
    (now : ℕ) (o : Option Output) (d : DcDepacketizer) → IsBounded d → IsBounded (settle now o d)
unfolding settle
settle-IsBounded now none d b = recover-IsBounded now d b
settle-IsBounded now (some o) d b = same-IsBounded d _ refl refl b.rate_range b

expect-IsBounded :
    (d : DcDepacketizer) (e : ℕ) → IsBounded d → IsBounded (record d { expected = e })
expect-IsBounded d e b = same-IsBounded d (record d { expected = e }) refl refl b.rate_range b

skip_frame-IsBounded : (now : ℕ) (d : DcDepacketizer) → IsBounded d → IsBounded (skip_frame now d)
unfolding skip_frame
skip_frame-IsBounded now d b =
    let gone = erase d.expected d in
    recover-IsBounded now (record gone { expected = (d.expected + 1) % 2 ^ 16 })
      (expect-IsBounded gone ((d.expected + 1) % 2 ^ 16) (erase-IsBounded d.expected d b))

hand_on-IsBounded :
    (now : ℕ) (f : Frame) (d : DcDepacketizer) → IsBounded d → IsBounded (hand_on now f d)
unfolding hand_on
hand_on-IsBounded now f d b =
    let (p, n, r) = assemble_keeps f d in
    let settled = settle now (assemble f d).0 (assemble f d).1 in
    let s : IsBounded settled =
      settle-IsBounded now (assemble f d).0 (assemble f d).1
        (same-IsBounded d (assemble f d).1 p n (omega (arith, r, b.rate_range)) b) in
    expect-IsBounded (erase d.expected settled) ((d.expected + 1) % 2 ^ 16)
      (erase-IsBounded d.expected settled s)

drain_loop-IsBounded :
    (fuel now : ℕ) (d : DcDepacketizer) → IsBounded d → IsBounded (drain_loop fuel now d)
unfolding drain_loop
drain_loop-IsBounded zero now d b = b
drain_loop-IsBounded (suc fuel) now d b = elim (Option-cases (find d.expected d.pending)) [
  | inr (f, e) ↦ elim (Bool-cases (f.received == f.count)) [
    | inl t ↦
        rw (e, t, drain_loop)
          (drain_loop-IsBounded fuel now (hand_on now f d) (hand_on-IsBounded now f d b))
    | inr t ↦ elim (Bool-cases (leb 10000 (now - f.arrival))) [
      | inl u ↦
          rw (e, t, u, drain_loop)
            (drain_loop-IsBounded fuel now (skip_frame now d) (skip_frame-IsBounded now d b))
      | inr u ↦ rw (e, t, u, drain_loop) b
    ]
  ]
  | inl e ↦ elim (Option-cases (nearest d.expected d.pending (pos 32768) none)) [
    | inl n ↦ rw (e, n, drain_loop) b
    | inr ((k, f), n) ↦ elim (Bool-cases (ltb (now - f.arrival) 10000)) [
      | inl t ↦ rw (e, n, t, drain_loop) b
      | inr t ↦
          let next : DcDepacketizer = record d { expected = k } in
          rw (e, n, t, drain_loop)
            (drain_loop-IsBounded fuel now (recover now next)
              (recover-IsBounded now next (expect-IsBounded d k b)))
    ]
  ]
]

drop_stale-IsBounded :
    (m : List (ℕ × Frame)) (d : DcDepacketizer) → IsBounded d → IsBounded (drop_stale m d)
unfolding drop_stale
drop_stale-IsBounded [] d b = b
drop_stale-IsBounded ((k, f) ∷ m) d b =
    drop_stale-IsBounded m _ (if-IsBounded _ (erase k d) d (erase-IsBounded k d b) b)

pub drain-IsBounded : (now : ℕ) (d : DcDepacketizer) → IsBounded d → IsBounded (drain now d)
unfolding drain
drain-IsBounded now d b =
    let fresh = expire now d.pending d in
    let v = expire-IsBounded now d.pending d b in
    elim (Option-cases (locate fresh)) [
      | inl e ↦ rw (e, drain) v
      | inr (found, e) ↦
          let done = drain_loop (2 * length found.pending + 1) now found in
          rw (e, drain)
            (increase-IsBounded now (drop_stale done.pending done) (
              drop_stale-IsBounded done.pending done (
                drain_loop-IsBounded (2 * length found.pending + 1) now found
                  (locate-IsBounded fresh e v))))
    ]
