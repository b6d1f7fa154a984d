-- ===== src/AudioPcmQueue/Histories.antt =====
-- macos/receiver/audio_pcm_queue.h: what is popped over a history of calls, beside a plain queue.
use kmvirtualcamera.Prelude.{
  ℕ, ◌≡◌, refl, ap, ap₂, ◌∙◌, List, [], ◌∷◌, ◌++◌, arith, ◌==◌, if◌then◌else◌, length, take, drop,
  min, length-replicate, Bool-cases, inl, inr,
}
use kmvirtualcamera.AudioPcmQueue.{AudioPcmQueue, or_else, make, push, pop, clear}
use kmvirtualcamera.AudioPcmQueue.Refine.{IsValid, contents}
use kmvirtualcamera.AudioPcmQueue.Push.{kept, contents-push_locked, push_locked-IsValid}
use kmvirtualcamera.AudioPcmQueue.Pop.{pop_out, contents-pop, pop-IsValid}

pub data Op : Type 0 where
  -- A push with the two readings of the clock around it, a pop with the room at the consumer's.
  pushes : List ℕ → ℕ → ℕ → Op
  pops : ℕ → Op
  clears : Op

-- What the pops of a history copy out, each in turn.
unfoldable pub run : AudioPcmQueue → List Op → List (List ℕ)
run q [] = []
run q (pushes xs t0 t1 ∷ os) = run (push xs t0 t1 q) os
run q (pops n ∷ os) = (pop n q).0 ∷ run (pop n q).1 os
run q (clears ∷ os) = run (clear q) os

-- The same of a plain queue that keeps its newest samples.
unfoldable pub promised : ℕ → ℕ → ℕ → List ℕ → List Op → List (List ℕ)
promised c h t xs [] = []
promised c h t xs (pushes ys t0 t1 ∷ os) =
    promised c h t (if length ys == 0 then xs else kept c h t (xs ++ ys)) os
promised c h t xs (pops n ∷ os) = take n xs ∷ promised c h t (drop n xs) os
promised c h t xs (clears ∷ os) = promised c h t [] os

pub push-IsValid :
    (xs : List ℕ) (t0 t1 : ℕ) (q : AudioPcmQueue) → IsValid q → IsValid (push xs t0 t1 q)
unfolding push
push-IsValid xs t0 t1 q v = elim (Bool-cases (length xs == 0)) [
  | inl e ↦ rw e (record {
    some_room = v.some_room;
    sized = v.sized;
    head_in = v.head_in;
    depth_in = v.depth_in;
    marks = v.marks;
  })
  | inr e ↦
      let w = (push_locked-IsValid xs q v).0 in
      rw e (record {
        some_room = w.some_room;
        sized = w.sized;
        head_in = w.head_in;
        depth_in = w.depth_in;
        marks = w.marks;
      })
]

pub clear-IsValid : (q : AudioPcmQueue) → IsValid q → IsValid (clear q)
unfolding clear
clear-IsValid q v = record {
  some_room = v.some_room;
  sized = v.sized;
  head_in = v.some_room;
  depth_in = omega arith;
  marks = v.marks;
}

push-marks :
    (xs : List ℕ) (t0 t1 : ℕ) (q : AudioPcmQueue)
    → IsValid q
    → ((push xs t0 t1 q).capacity ≡ q.capacity)
      × ((push xs t0 t1 q).high_water ≡ q.high_water)
      × ((push xs t0 t1 q).target ≡ q.target)
unfolding push
push-marks xs t0 t1 q v = elim (Bool-cases (length xs == 0)) [
  | inl e ↦ rw e (refl, refl, refl)
  | inr e ↦ let (_, c, h, t, _) = push_locked-IsValid xs q v in rw e (c, h, t)
]

pop-marks :
    (n : ℕ) (q : AudioPcmQueue)
    → ((pop n q).1.capacity ≡ q.capacity)
      × ((pop n q).1.high_water ≡ q.high_water)
      × ((pop n q).1.target ≡ q.target)
unfolding pop
pop-marks n q = elim (Bool-cases (min n q.depth == 0)) [
  | inl e ↦ elim (Bool-cases (n == 0)) [
    | inl g ↦ rw (e, g) (refl, refl, refl)
    | inr g ↦ rw (e, g) (refl, refl, refl)
  ]
  | inr e ↦ rw e (refl, refl, refl)
]

contents-push :
    (xs : List ℕ) (t0 t1 : ℕ) (q : AudioPcmQueue)
    → IsValid q
    → contents (push xs t0 t1 q) ≡ (
        if length xs == 0
        then contents q
        else kept q.capacity q.high_water q.target (contents q ++ xs))
unfolding push
contents-push xs t0 t1 q v = elim (Bool-cases (length xs == 0)) [
  | inl e ↦ rw e refl
  | inr e ↦ rw e (contents-push_locked xs q v)
]

run-promised :
    (os : List Op) (q : AudioPcmQueue) (c h t : ℕ)
    → IsValid q
    → q.capacity ≡ c
    → q.high_water ≡ h
    → q.target ≡ t
    → run q os ≡ promised c h t (contents q) os
unfolding run promised clear
run-promised [] q c h t v ec eh et = refl
run-promised (pushes xs t0 t1 ∷ os) q c h t v ec eh et =
    let (c', h', t') = push-marks xs t0 t1 q v in
    run-promised os (push xs t0 t1 q) c h t (push-IsValid xs t0 t1 q v) (c' ∙ ec) (h' ∙ eh)
      (t' ∙ et)
    ∙ ap (λ ys. promised c h t ys os) (contents-push xs t0 t1 q v)
    ∙ ap (λ k. promised c h t (if length xs == 0 then contents q else k) os) (rw (ec, eh, et) refl)
run-promised (pops n ∷ os) q c h t v ec eh et =
    let (c', h', t') = pop-marks n q in
    ap₂ ◌∷◌ (pop_out n q v) (
      run-promised os (pop n q).1 c h t (pop-IsValid n q v) (c' ∙ ec) (h' ∙ eh) (t' ∙ et)
      ∙ ap (λ ys. promised c h t ys os) (contents-pop n q v))
run-promised (clears ∷ os) q c h t v ec eh et =
    run-promised os (clear q) c h t (clear-IsValid q v) ec eh et

pub make-IsValid : (c h t : ℕ) → IsValid (make c h t)
unfolding make
make-IsValid c h t = record {
  some_room = ground arith;
  sized = length-replicate (or_else c 1) 0;
  head_in = ground arith;
  depth_in = omega arith;
  marks = omega arith;
}

-- From the constructor on, whatever is pushed, popped and cleared, and whatever the clock reads: the
-- pops copy out what a plain queue would hand out that keeps only the newest samples that fit, and
-- over the high-water mark only the newest up to the target.
pub run-make :
    (c h t : ℕ) (os : List Op)
    → run (make c h t) os
      ≡ promised (or_else c 1) (or_else h (or_else c 1)) (min t (or_else h (or_else c 1))) [] os
run-make c h t os =
    unfold make in
    run-promised os (make c h t) (or_else c 1) (or_else h (or_else c 1))
      (min t (or_else h (or_else c 1))) (make-IsValid c h t) refl refl refl
