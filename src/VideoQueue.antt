-- ===== src/VideoQueue.antt =====
-- shared/km/bounded_video_queue.h: the compressed-video queue. Each method runs under the mutex, so
-- a history of calls from any threads is a sequence of these functions. Counters wrap at 2 ^ 64.
pub mod Invariant
pub mod Epoch
mod Tests
use kmvirtualcamera.Prelude.{
  ℕ, suc, ◌+◌, ◌-◌, ◌*◌, ◌%◌, ◌^◌, Bool, true, false, not, ◌&&◌, ◌||◌, Option, none, some, List, [],
  ◌∷◌, ◌++◌, ltb, leb, ◌==◌, if◌then◌else◌, length, Bytes, byte, is_empty,
}
use kmvirtualcamera.Prelude.Int.{ℤ}
use kmvirtualcamera.H264.{split_annex_b}

pub record AccessUnit : Type 0 where
  pub bytes : Bytes
  pub timestamp_us : ℤ
  pub generation : ℕ
  pub reset_serial : ℕ

pub record VideoQueue : Type 0 where
  pub queue : List AccessUnit
  pub bytes : ℕ
  pub generation : ℕ
  pub reset_serial : ℕ
  pub waiting : Bool

abbrev pub max_frames : ℕ
max_frames = 8

abbrev pub max_bytes : ℕ
max_bytes = 2 * 1024 * 1024

abbrev pub add64 : ℕ → ℕ → ℕ
add64 a b = (a + b) % 2 ^ 64

abbrev pub sub64 : ℕ → ℕ → ℕ
sub64 a b = (a + 2 ^ 64 - b) % 2 ^ 64

pub initial : VideoQueue
initial = record { queue = []; bytes = 0; generation = 1; reset_serial = 1; waiting = true }

-- Whether some NAL unit has the type; the three flags of the loop, each or'ed on its own.
pub has_type : ℕ → List Bytes → Bool
has_type t [] = false
has_type t (n ∷ ns) = byte n 0 % 32 == t || has_type t ns

unfoldable pub configured_idr : Bytes → Bool
configured_idr bytes = elim (split_annex_b bytes) [
  | none ↦ false
  | some nalus ↦ has_type 7 nalus && has_type 8 nalus && has_type 5 nalus
]

-- The four assignments that drop everything: the rest waits for a configured IDR.
pub clear : VideoQueue → VideoQueue
clear q = record q { queue = []; bytes = 0; waiting = true; reset_serial = add64 q.reset_serial 1 }

pub reset : VideoQueue → ℕ × VideoQueue
reset q =
    let generation = add64 q.generation 1 in
    (generation, record (clear q) { generation = generation })

pub invalidate : VideoQueue → VideoQueue
invalidate q = clear q

-- The overload test, and what an accepted unit does to the queue.
pub overloads : VideoQueue → Bytes → Bool
overloads q bytes =
    ltb max_bytes (length bytes)
    || leb max_frames (length q.queue)
    || ltb (sub64 max_bytes q.bytes) (length bytes)

pub unit_of : VideoQueue → Bytes → ℤ → AccessUnit
unit_of q bytes timestamp_us = record {
  bytes = bytes;
  timestamp_us = timestamp_us;
  generation = q.generation;
  reset_serial = q.reset_serial;
}

pub enqueue : VideoQueue → AccessUnit → Bool → VideoQueue
enqueue q u key = record q {
  queue = q.queue ++ u ∷ [];
  bytes = add64 q.bytes (length u.bytes);
  waiting = if key then false else q.waiting;
}

-- What stands below the generation test of `push`, whose generation is then the queue's own.
pub accept : VideoQueue → Bytes → ℤ → Bool → Bool × VideoQueue
accept q bytes timestamp_us key =
    if overloads q bytes
    then (false, clear q)
    else if q.waiting && not key
    then (false, q)
    else (true, enqueue q (unit_of q bytes timestamp_us) key)

pub push : VideoQueue → Bytes → ℤ → ℕ → Bool × VideoQueue
push q bytes timestamp_us generation =
    if is_empty bytes || not (generation == q.generation)
    then (false, q)
    else accept q bytes timestamp_us (configured_idr bytes)

pub pop_from : List AccessUnit → VideoQueue → Option AccessUnit × VideoQueue
pop_from [] q = (none, q)
pop_from (u ∷ rest) q = (some u, record q { queue = rest; bytes = sub64 q.bytes (length u.bytes) })

pub pop : VideoQueue → Option AccessUnit × VideoQueue
pop q = pop_from q.queue q

pub current : VideoQueue → AccessUnit → Bool
current q u = u.generation == q.generation && u.reset_serial == q.reset_serial

pub data Op : Type 0 where
  pushes : Bytes → ℤ → ℕ → Op
  pops resets invalidates : Op

pub step : VideoQueue → Op → VideoQueue
step q (pushes bytes t g) = (push q bytes t g).1
step q pops = (pop q).1
step q resets = (reset q).1
step q invalidates = invalidate q

pub run : VideoQueue → List Op → VideoQueue
run q [] = q
run q (o ∷ os) = run (step q o) os
