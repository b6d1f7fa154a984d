-- ===== src/DcDepacketizer/Fuel.antt =====
-- shared/receiver/codec/dc_video_depacketizer.cpp: the rounds of the while loop of `drain`.
use kmvirtualcamera.Prelude.{
  ℕ, zero, suc, ◌+◌, ◌-◌, ◌*◌, ◌%◌, ◌^◌, ◌≤◌, ◌<◌, ◌≡◌, refl, ap, ◌∙◌, ◌⊎◌, true, not, ◌&&◌, Option,
  none, some, List, [], ◌∷◌, arith, ltb, leb, ◌==◌, if◌then◌else◌, length, Bool-cases, Option-cases,
  inl, inr,
}
use kmvirtualcamera.Prelude.Int.{ℤ, pos, ltb_ℤ}
use kmvirtualcamera.DcDepacketizer.{
  Frame, Output, DcDepacketizer, delta, find, remove, erase, recover, assemble,
}
use kmvirtualcamera.DcDepacketizer.Drain.{
  is_negative, settle, hand_on, skip_frame, nearest, drain_loop,
}
use kmvirtualcamera.DcDepacketizer.Drained.{assemble_keeps}

-- Rounds that are left at most: two for each frame, and one if none stands at `expected`.
abbrev rounds : DcDepacketizer → ℕ
rounds d = 2 * length d.pending + (elim (find d.expected d.pending) [ none ↦ 1 | some f ↦ 0 ])

length-remove :
    (k : ℕ) (m : List (ℕ × Frame)) {f : Frame}
    → find k m ≡ some f
    → length m ≡ suc (length (remove k m))
unfolding find remove
length-remove k [] e = cc
length-remove k ((j, g) ∷ m) {f} e = elim (Bool-cases (j == k)) [
  | inl t ↦ ground (arith, t)
  | inr t ↦ ground (arith, e, t, length-remove k m {f = f} (ground (arith, e, t)))
]

erase_pending :
    (k : ℕ) (d : DcDepacketizer) {f : Frame}
    → find k d.pending ≡ some f
    → (erase k d).pending ≡ remove k d.pending
unfolding erase
erase_pending k d e = ground (arith, e)

recover_pending : (now : ℕ) (d : DcDepacketizer) → (recover now d).pending ≡ d.pending
unfolding recover
recover_pending now d = ground arith

settle_pending :
    (now : ℕ) (o : Option Output) (d : DcDepacketizer) → (settle now o d).pending ≡ d.pending
unfolding settle
settle_pending now none d = recover_pending now d
settle_pending now (some o) d = refl

rounds_le : (d : DcDepacketizer) → rounds d ≤ 2 * length d.pending + 1
rounds_le d = ground arith

rounds_pos :
    (k : ℕ) (m : List (ℕ × Frame)) → 0 < 2 * length m + (elim (find k m) [ none ↦ 1 | some f ↦ 0 ])
unfolding find
rounds_pos k [] = omega arith
rounds_pos k (x ∷ m) = omega arith

hand_on-rounds :
    (now : ℕ) (f : Frame) (d : DcDepacketizer)
    → find d.expected d.pending ≡ some f
    → rounds (hand_on now f d) < 2 * length d.pending
hand_on-rounds now f d e =
    let settled = settle now (assemble f d).0 (assemble f d).1 in
    let p : settled.pending ≡ d.pending =
      settle_pending now (assemble f d).0 (assemble f d).1 ∙ (assemble_keeps f d).0 in
    let q : (hand_on now f d).pending ≡ remove d.expected d.pending =
      unfold hand_on in
      (erase_pending d.expected settled {f = f} (ap (find d.expected) p ∙ e)
        ∙ ap (remove d.expected) p) in
    omega (arith, rounds_le (hand_on now f d), ap length q, length-remove d.expected d.pending e)

skip_frame-rounds :
    (now : ℕ) (f : Frame) (d : DcDepacketizer)
    → find d.expected d.pending ≡ some f
    → rounds (skip_frame now d) < 2 * length d.pending
skip_frame-rounds now f d e =
    let gone : DcDepacketizer = record (erase d.expected d) {
      expected = (d.expected + 1) % 2 ^ 16;
    } in
    let q : (skip_frame now d).pending ≡ remove d.expected d.pending =
      unfold skip_frame in (recover_pending now gone ∙ erase_pending d.expected d {f = f} e) in
    omega (arith, rounds_le (skip_frame now d), ap length q, length-remove d.expected d.pending e)

-- What `nearest` finds stands in the map, unless it was given.
nearest_in :
    (e : ℕ) (m : List (ℕ × Frame)) (distance : ℤ) (best : Option (ℕ × Frame)) {k : ℕ} {f : Frame}
    → nearest e m distance best ≡ some (k, f)
    → (best ≡ some (k, f)) ⊎ ((g : Frame) × (find k m ≡ some g))
unfolding nearest find
nearest_in e [] distance best h = inl h
nearest_in e ((j, g) ∷ m) distance best {k} {f} h =
    let d = delta j e in
    let closer = not (is_negative d) && ltb_ℤ d distance in
    let here : (j == k) ≡ true → (h : Frame) × ((if j == k then some g else find k m) ≡ some h) =
      λ t. (g, rw t refl) in
    elim (nearest_in e m (if closer then d else distance) (if closer then some (j, g) else best)
      {k = k} {f = f} h) [
        | inl b ↦ elim (Bool-cases closer) [
          | inl t ↦ let same : j ≡ k = ground (arith, b, t) in inr (here (ground (arith, same)))
          | inr t ↦ inl (ground (arith, b, t))
        ]
        | inr (g', b) ↦ elim (Bool-cases (j == k)) [
          | inl t ↦ inr (here t)
          | inr t ↦ inr (g', rw t b)
        ]
      ]

nearest_found :
    (e : ℕ) (m : List (ℕ × Frame)) (distance : ℤ) {k : ℕ} {f : Frame}
    → nearest e m distance none ≡ some (k, f)
    → (g : Frame) × (find k m ≡ some g)
nearest_found e m distance {k} {f} h = elim (nearest_in e m distance none {k = k} {f = f} h) [
  | inl b ↦ cc
  | inr y ↦ y
]

jump-rounds :
    (now k : ℕ) (g : Frame) (d : DcDepacketizer)
    → find k d.pending ≡ some g
    → rounds (recover now (record d { expected = k })) ≤ 2 * length d.pending
unfolding recover
jump-rounds now k g d e = ground (arith, e)

drain_loop-rounds :
    (f g now : ℕ) (d : DcDepacketizer)
    → rounds d ≤ f
    → rounds d ≤ g
    → drain_loop f now d ≡ drain_loop g now d
unfolding drain_loop
drain_loop-rounds zero g now d h k = absurd (omega (arith, rounds_pos d.expected d.pending))
drain_loop-rounds (suc f) zero now d h k = absurd (omega (arith, rounds_pos d.expected d.pending))
drain_loop-rounds (suc f) (suc g) now d h k = elim (Option-cases (find d.expected d.pending)) [
  | inr (x, e) ↦
      let r : rounds d ≡ 2 * length d.pending = ground (arith, e) in
      elim (Bool-cases (x.received == x.count)) [
        | inl t ↦
            let l = hand_on-rounds now x d e in
            rw (e, t, drain_loop)
              (drain_loop-rounds f g now (hand_on now x d) (omega (arith, l, r))
                (omega (arith, l, r)))
        | inr t ↦ elim (Bool-cases (leb 10000 (now - x.arrival))) [
          | inl u ↦
              let l = skip_frame-rounds now x d e in
              rw (e, t, u, drain_loop)
                (drain_loop-rounds f g now (skip_frame now d) (omega (arith, l, r))
                  (omega (arith, l, r)))
          | inr u ↦ rw (e, t, u, drain_loop) refl
        ]
      ]
  | inl e ↦
      let r : rounds d ≡ 2 * length d.pending + 1 = ground (arith, e) in
      elim (Option-cases (nearest d.expected d.pending (pos 32768) none)) [
        | inl n ↦ rw (e, n, drain_loop) refl
        | inr ((j, x), n) ↦ elim (Bool-cases (ltb (now - x.arrival) 10000)) [
          | inl t ↦ rw (e, n, t, drain_loop) refl
          | inr t ↦
              let (y, i) = nearest_found d.expected d.pending (pos 32768) n in
              let l = jump-rounds now j y d i in
              rw (e, n, t, drain_loop)
                (drain_loop-rounds f g now (recover now (record d { expected = j }))
                  (omega (arith, l, r)) (omega (arith, l, r)))
        ]
      ]
]

-- Twice the pending frames and one round more are fuel enough for the loop: any two such amounts
-- drain the same.
pub drain_loop_fuel :
    (f g now : ℕ) (d : DcDepacketizer)
    → 2 * length d.pending + 1 ≤ f
    → 2 * length d.pending + 1 ≤ g
    → drain_loop f now d ≡ drain_loop g now d
drain_loop_fuel f g now d h k =
    drain_loop-rounds f g now d (omega (arith, rounds_le d)) (omega (arith, rounds_le d))
