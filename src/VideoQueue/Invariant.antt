-- ===== src/VideoQueue/Invariant.antt =====
-- shared/km/bounded_video_queue.h: the byte count, the two limits and the epoch of the queued units.
use kmvirtualcamera.Prelude.{
  ℕ, ◌+◌, ◌≤◌, ◌≡◌, refl, Bool, true, false, List, [], ◌∷◌, ◌++◌, arith, length, length-append, All,
  All-append, Bytes, is_empty,
}
use kmvirtualcamera.Prelude.Int.{ℤ}
use kmvirtualcamera.VideoQueue.{
  AccessUnit, VideoQueue, max_frames, max_bytes, initial, clear, reset, invalidate, accept, push,
  pop_from, pop, current, Op, overloads, unit_of, enqueue, pushes, pops, resets, invalidates, step,
  run, configured_idr,
}

abbrev pub sizes : List AccessUnit → ℕ
sizes [] = 0
sizes (u ∷ us) = length u.bytes + sizes us

-- The unit was queued in the queue's present generation and epoch.
pub record IsCurrent (g s : ℕ) (u : AccessUnit) : Type 0 where
  pub same_generation : u.generation ≡ g
  pub same_serial : u.reset_serial ≡ s

pub record IsValid (q : VideoQueue) : Type 0 where
  pub counted : q.bytes ≡ sizes q.queue
  pub within_bytes : q.bytes ≤ max_bytes
  pub within_frames : length q.queue ≤ max_frames
  pub one_epoch : All (IsCurrent q.generation q.reset_serial) q.queue

sizes-append : (us vs : List AccessUnit) → sizes (us ++ vs) ≡ sizes us + sizes vs
sizes-append [] vs = omega arith
sizes-append (u ∷ us) vs = omega (arith, sizes-append us vs)

initial-IsValid : IsValid initial
unfolding initial
initial-IsValid = record {
  counted = refl;
  within_bytes = omega arith;
  within_frames = omega arith;
  one_epoch = tt;
}

clear-IsValid : (q : VideoQueue) → IsValid (clear q)
unfolding clear
clear-IsValid q = omega arith

accept-IsValid :
    (q : VideoQueue) (b : Bytes) (t : ℤ) (key : Bool) → IsValid q → IsValid (accept q b t key).1
unfolding accept overloads enqueue clear unit_of
accept-IsValid q b t key v =
    let unit : AccessUnit = record {
      bytes = b;
      timestamp_us = t;
      generation = q.generation;
      reset_serial = q.reset_serial;
    } in
    let one = IsCurrent q.generation q.reset_serial in
    ground (
      arith,
      sizes-append q.queue (unit ∷ []),
      length-append q.queue (unit ∷ []),
      All-append one q.queue (unit ∷ []),
    )

pop_from-IsValid :
    (us : List AccessUnit) (q : VideoQueue)
    → IsValid q
    → IsValid (record q { queue = us })
    → IsValid (pop_from us q).1
unfolding pop_from
pop_from-IsValid [] q v w = v
pop_from-IsValid (u ∷ us) q v w = ground arith

-- Every call keeps the invariant.
pub step-IsValid : (q : VideoQueue) (o : Op) → IsValid q → IsValid (step q o)
unfolding step push pop reset invalidate clear
step-IsValid q (pushes b t g) v = ground (arith, accept-IsValid q b t (configured_idr b))
step-IsValid q pops v = pop_from-IsValid q.queue q v v
step-IsValid q resets v = omega arith
step-IsValid q invalidates v = clear-IsValid q

run-IsValid : (os : List Op) (q : VideoQueue) → IsValid q → IsValid (run q os)
unfolding run
run-IsValid [] q v = v
run-IsValid (o ∷ os) q v = run-IsValid os (step q o) (step-IsValid q o v)

-- After any calls the byte count is the exact sum of the queued sizes, at most 2 MiB and 8 units
-- are held, and every unit is of the present generation and epoch.
pub run-initial-IsValid : (os : List Op) → IsValid (run initial os)
run-initial-IsValid os = run-IsValid os initial initial-IsValid

-- A unit that is current stops being so at a reset, at an invalidation, and at a push of the
-- queue's generation that overloads it.
pub current-loss :
    (q : VideoQueue) (u : AccessUnit) (b : Bytes) (t : ℤ)
    → current q u ≡ true
    → overloads q b ≡ true
    → is_empty b ≡ false
    → (current (reset q).1 u ≡ false)
      × (current (invalidate q) u ≡ false)
      × (current (push q b t q.generation).1 u ≡ false)
unfolding current reset invalidate clear push accept
current-loss q u b t c o e = ground arith
