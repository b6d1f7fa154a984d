-- ===== src/AudioPcmQueue.antt =====
-- macos/receiver/audio_pcm_queue.h: the ring of PCM samples between the RTC callback and the audio
-- device. Each method runs under the mutex. A sample is its 16 bits, a std::vector a list; what a
-- clock would read is an argument. Counters wrap at 2 ^ 64.
pub mod Ring
pub mod Refine
pub mod Push
pub mod Pop
pub mod Histories
pub mod Account
mod Tests
use kmvirtualcamera.Prelude.{
  ℕ, ◌+◌, ◌-◌, ◌%◌, ◌^◌, Bool, true, false, ◌&&◌, List, [], ◌∷◌, ◌++◌, ltb, ◌==◌, if◌then◌else◌,
  length, take, drop, replicate, min, max,
}

pub record Stats : Type 0 where
  pub pushed : ℕ
  pub popped : ℕ
  pub dropped : ℕ
  pub underruns : ℕ
  pub push_max_ns : ℕ
  pub depth_high : ℕ

pub record AudioPcmQueue : Type 0 where
  pub capacity : ℕ
  pub high_water : ℕ
  pub target : ℕ
  pub buffer : List ℕ
  pub head : ℕ
  pub depth : ℕ
  pub stats : Stats

abbrev pub add64 : ℕ → ℕ → ℕ
add64 a b = (a + b) % 2 ^ 64

-- `x ? x : y` of a size.
abbrev pub or_else : ℕ → ℕ → ℕ
or_else x y = if x == 0 then y else x

unfoldable pub make : ℕ → ℕ → ℕ → AudioPcmQueue
make capacity high_water target =
    let size = or_else capacity 1 in
    let high = or_else high_water size in
    record {
      capacity = size;
      high_water = high;
      target = min target high;
      buffer = replicate size 0;
      head = 0;
      depth = 0;
      stats = record {
        pushed = 0;
        popped = 0;
        dropped = 0;
        underruns = 0;
        push_max_ns = 0;
        depth_high = 0;
      };
    }

-- std::copy_n of the whole of `xs` into the buffer at an index.
abbrev pub copy_to : List ℕ → ℕ → List ℕ → List ℕ
copy_to buffer at xs = take at buffer ++ (xs ++ drop (at + length xs) buffer)

-- The new state of DropFrontLocked; it drops `min elements depth`.
unfoldable pub drop_front : ℕ → AudioPcmQueue → AudioPcmQueue
drop_front elements q =
    let taken = min elements q.depth in
    record q { head = (q.head + taken) % q.capacity; depth = q.depth - taken }

unfoldable pub append : List ℕ → AudioPcmQueue → AudioPcmQueue
append samples q =
    let at = (q.head + q.depth) % q.capacity in
    let first = min (length samples) (q.capacity - at) in
    let buffer = copy_to q.buffer at (take first samples) in
    record q {
      buffer = if ltb first (length samples) then copy_to buffer 0 (drop first samples) else buffer;
    }

-- What `dropped` and the queue are after each of the three parts of `push`: room at the front, the
-- newest tail of the input, and the high-water mark.
unfoldable pub make_room : ℕ → AudioPcmQueue → ℕ × AudioPcmQueue
make_room elements q =
    if ltb (q.capacity - q.depth) elements
    then (let over = min q.depth (elements - (q.capacity - q.depth)) in
        (min over q.depth, drop_front over q))
    else (0, q)

unfoldable pub append_tail : List ℕ → AudioPcmQueue → ℕ × AudioPcmQueue
append_tail samples q =
    let room = q.capacity - q.depth in
    let skip = if ltb room (length samples) then length samples - room else 0 in
    let q' = append (drop skip samples) q in
    (skip, record q' { depth = q.depth + (length samples - skip) })

unfoldable pub drop_to_target : AudioPcmQueue → ℕ × AudioPcmQueue
drop_to_target q =
    if ltb q.high_water q.depth && ltb q.target q.depth
    then (min (q.depth - q.target) q.depth, drop_front (q.depth - q.target) q)
    else (0, q)

unfoldable pub push_locked : List ℕ → AudioPcmQueue → AudioPcmQueue
push_locked samples q =
    let (front, roomy) = make_room (length samples) q in
    let (tail, filled) = append_tail samples roomy in
    let (late, live) = drop_to_target filled in
    record live {
      stats = record q.stats {
        pushed = add64 q.stats.pushed (length samples);
        dropped = add64 q.stats.dropped (front + tail + late);
        depth_high = max q.stats.depth_high live.depth;
      };
    }

-- `push` between two readings of the clock, the second not before the first.
unfoldable pub push : List ℕ → ℕ → ℕ → AudioPcmQueue → AudioPcmQueue
push samples t0 t1 q =
    let q' = if length samples == 0 then q else push_locked samples q in
    record q' { stats = record q'.stats { push_max_ns = max q'.stats.push_max_ns (t1 - t0) } }

-- What `pop` copies out, and the queue after it; the answer of the C++ is the length.
unfoldable pub pop : ℕ → AudioPcmQueue → List ℕ × AudioPcmQueue
pop room q =
    let taken = min room q.depth in
    let first = min taken (q.capacity - q.head) in
    let out = take first (drop q.head q.buffer) ++ take (taken - first) q.buffer in
    if taken == 0
    then (
      [],
      if room == 0
          then q
          else record q { stats = record q.stats { underruns = add64 q.stats.underruns 1 } },
    )
    else (
      out,
      record q {
        head = (q.head + taken) % q.capacity;
        depth = q.depth - taken;
        stats = record q.stats { popped = add64 q.stats.popped taken };
      },
    )

unfoldable pub clear : AudioPcmQueue → AudioPcmQueue
clear q = record q {
  stats = record q.stats { dropped = add64 q.stats.dropped q.depth };
  depth = 0;
  head = 0;
}
