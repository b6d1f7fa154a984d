-- ===== src/AudioPcmQueue/Account.antt =====
-- macos/receiver/audio_pcm_queue.h: the counters over a history of calls.
use kmvirtualcamera.Prelude.{
  ℕ, ◌+◌, ◌%◌, ◌^◌, ◌≤◌, ◌≡◌, List, [], ◌∷◌, arith, ◌==◌, length, min, Bool-cases, inl, inr,
}
use kmvirtualcamera.AudioPcmQueue.{AudioPcmQueue, make, push, pop, clear}
use kmvirtualcamera.AudioPcmQueue.Refine.{IsValid}
use kmvirtualcamera.AudioPcmQueue.Push.{push_locked-IsValid, push_locked-count}
use kmvirtualcamera.AudioPcmQueue.Pop.{pop-IsValid}
use kmvirtualcamera.AudioPcmQueue.Histories.{
  Op, pushes, pops, clears, push-IsValid, clear-IsValid, make-IsValid,
}

unfoldable pub step : AudioPcmQueue → Op → AudioPcmQueue
step q (pushes xs t0 t1) = push xs t0 t1 q
step q (pops n) = (pop n q).1
step q clears = clear q

unfoldable pub after : AudioPcmQueue → List Op → AudioPcmQueue
after q [] = q
after q (o ∷ os) = after (step q o) os

-- The counters account for each sample, and the depth is in its bounds.
pub record IsBalanced (q : AudioPcmQueue) : Type 0 where
  pub balance : (q.depth + q.stats.dropped + q.stats.popped) % 2 ^ 64 ≡ q.stats.pushed
  pub fits : q.depth ≤ q.capacity
  pub live : q.depth ≤ q.high_water

push-IsBalanced :
    (xs : List ℕ) (t0 t1 : ℕ) (q : AudioPcmQueue)
    → IsValid q
    → IsBalanced q
    → IsBalanced (push xs t0 t1 q)
unfolding push
push-IsBalanced xs t0 t1 q v b = elim (Bool-cases (length xs == 0)) [
  | inl e ↦ rw e (record { balance = b.balance; fits = b.fits; live = b.live })
  | inr e ↦
      let (p, o, (n, d, k)) = push_locked-count xs q v in
      let (w, c, h, _, low) = push_locked-IsValid xs q v in
      rw e (record {
        balance = omega (arith, p, o, d, k, b.balance);
        fits = w.depth_in;
        live = omega (arith, h, low);
      })
]

pop-IsBalanced : (n : ℕ) (q : AudioPcmQueue) → IsBalanced q → IsBalanced (pop n q).1
unfolding pop
pop-IsBalanced n q b = elim (Bool-cases (min n q.depth == 0)) [
  | inl e ↦ elim (Bool-cases (n == 0)) [
    | inl g ↦ rw (e, g) b
    | inr g ↦ rw (e, g) (record { balance = b.balance; fits = b.fits; live = b.live })
  ]
  | inr e ↦ rw e (record {
    balance = omega (arith, b.balance);
    fits = omega (arith, b.fits);
    live = omega (arith, b.live);
  })
]

clear-IsBalanced : (q : AudioPcmQueue) → IsBalanced q → IsBalanced (clear q)
unfolding clear
clear-IsBalanced q b = record {
  balance = omega (arith, b.balance);
  fits = omega arith;
  live = omega arith;
}

after-IsBalanced :
    (os : List Op) (q : AudioPcmQueue) → IsValid q → IsBalanced q → IsBalanced (after q os)
unfolding after step
after-IsBalanced [] q v b = b
after-IsBalanced (pushes xs t0 t1 ∷ os) q v b =
    after-IsBalanced os (push xs t0 t1 q) (push-IsValid xs t0 t1 q v)
      (push-IsBalanced xs t0 t1 q v b)
after-IsBalanced (pops n ∷ os) q v b =
    after-IsBalanced os (pop n q).1 (pop-IsValid n q v) (pop-IsBalanced n q b)
after-IsBalanced (clears ∷ os) q v b =
    after-IsBalanced os (clear q) (clear-IsValid q v) (clear-IsBalanced q b)

-- After any calls on a new queue, the depth is what was pushed less what was dropped and popped
-- (modulo 2 ^ 64, where the counters wrap), and exceeds neither the capacity nor the high-water mark.
pub after-make-IsBalanced : (c h t : ℕ) (os : List Op) → IsBalanced (after (make c h t) os)
after-make-IsBalanced c h t os =
    after-IsBalanced os (make c h t) (make-IsValid c h t)
      (unfold make in (record { balance = omega arith; fits = omega arith; live = omega arith }))
