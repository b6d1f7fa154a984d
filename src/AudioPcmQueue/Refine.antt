-- ===== src/AudioPcmQueue/Refine.antt =====
-- macos/receiver/audio_pcm_queue.h: the queue of samples that a ring stands for, at the two locked
-- helpers.
use kmvirtualcamera.Prelude.{
  ℕ, ◌+◌, ◌-◌, ◌%◌, ◌≤◌, ◌<◌, ◌≡◌, refl, sym, ap, ap₂, ◌∙◌, not, ◌&&◌, List, ◌++◌, arith, ltb,
  if◌then◌else◌, length, get_or, take, drop, min, length-take, length-drop, Bool-cases, inl, inr,
}
use native.Mathlib.Nat.{mod-add-mod, mod-lt}
use kmvirtualcamera.AudioPcmQueue.{AudioPcmQueue, copy_to, drop_front, append}
use kmvirtualcamera.AudioPcmQueue.Ring.{
  tabulate, tabulate_ext, drop-tabulate, tabulate_add, tabulate-get_or, wrap_lem, get_or-copies,
  length-copy_to,
}

pub record IsValid (q : AudioPcmQueue) : Type 0 where
  pub some_room : 0 < q.capacity
  pub sized : length q.buffer ≡ q.capacity
  pub head_in : q.head < q.capacity
  pub depth_in : q.depth ≤ q.capacity
  pub marks : q.target ≤ q.high_water

-- The queued samples, the oldest first.
abbrev pub contents : AudioPcmQueue → List ℕ
contents q = tabulate q.depth (λ i. get_or q.buffer ((q.head + i) % q.capacity) 0)

pub drop_front-IsValid : (k : ℕ) (q : AudioPcmQueue) → IsValid q → IsValid (drop_front k q)
unfolding drop_front
drop_front-IsValid k q v = record {
  some_room = v.some_room;
  sized = v.sized;
  head_in = mod-lt (q.head + min k q.depth) v.some_room;
  depth_in = omega (arith, v.depth_in);
  marks = v.marks;
}

pub contents-drop_front :
    (k : ℕ) (q : AudioPcmQueue) → k ≤ q.depth → contents (drop_front k q) ≡ drop k (contents q)
unfolding drop_front
contents-drop_front k q h =
    let all : min k q.depth ≡ k = omega arith in
    rw all (
      tabulate_ext (q.depth - k)
        (λ i. get_or q.buffer (((q.head + k) % q.capacity + i) % q.capacity) 0)
        (λ i. get_or q.buffer ((q.head + (k + i)) % q.capacity) 0)
        (λ i l.
          ap (λ p. get_or q.buffer p 0)
            (mod-add-mod (q.head + k) q.capacity i ∙ ap (λ s. s % q.capacity) (omega arith)))
      ∙ sym (
          drop-tabulate k q.depth (q.depth - k) (λ i. get_or q.buffer ((q.head + i) % q.capacity) 0)
            (omega arith)))

-- Where an index from the head on lies: in neither copy if it is queued already, else in one.
copied :
    (size head depth n i at p first : ℕ) (f g : ℕ → ℕ)
    → head < size
    → n + depth ≤ size
    → i < depth + n
    → at ≡ (if ltb (head + depth) size then head + depth else head + depth - size)
    → p ≡ (if ltb (head + i) size then head + i else head + i - size)
    → first ≡ min n (size - at)
    → (if not (ltb p at) && ltb p (at + first)
        then f (p - at)
        else if ltb p (n - first)
        then f (first + p)
        else g p)
      ≡ (if ltb i depth then g p else f (i - depth))
copied size head depth n i at p first f g hs nd il ea ep ef = elim (Bool-cases (ltb i depth)) [
  | inl e ↦ ground (arith, e)
  | inr e ↦ elim (Bool-cases (ltb p at)) [
    | inl t ↦ let k : first + p ≡ i - depth = ground (arith, e, t) in rw k (ground (arith, e, t))
    | inr t ↦ elim (Bool-cases (ltb p (at + first))) [
      | inl u ↦
          let k : p - at ≡ i - depth = ground (arith, e, t, u) in rw k (ground (arith, e, t, u))
      | inr u ↦ ground (arith, e, t, u)
    ]
  ]
]

-- A read behind the head, before and after `append`, whose input has room.
append_reads :
    (xs : List ℕ) (q : AudioPcmQueue) (i : ℕ)
    → IsValid q
    → length xs + q.depth ≤ q.capacity
    → i < q.depth + length xs
    → get_or (append xs q).buffer ((q.head + i) % q.capacity) 0 ≡ (
        if ltb i q.depth
        then get_or q.buffer ((q.head + i) % q.capacity) 0
        else get_or xs (i - q.depth) 0)
unfolding append
append_reads xs q i v h l =
    let at = (q.head + q.depth) % q.capacity in
    let p = (q.head + i) % q.capacity in
    let first = min (length xs) (q.capacity - at) in
    let wa =
      wrap_lem (q.head + q.depth) q.capacity v.some_room (omega (arith, v.head_in, v.depth_in)) in
    let wp = wrap_lem (q.head + i) q.capacity v.some_room (omega (arith, v.head_in)) in
    get_or-copies q.buffer at first xs p (omega (arith, v.sized))
      (ground (arith, wa, v.sized, v.head_in, v.depth_in)) (omega (arith, v.sized))
    ∙ copied q.capacity q.head q.depth (length xs) i at p first (λ j. get_or xs j 0)
        (λ j. get_or q.buffer j 0) v.head_in h l wa wp refl

pub contents-append :
    (xs : List ℕ) (q : AudioPcmQueue)
    → IsValid q
    → length xs + q.depth ≤ q.capacity
    → contents (record (append xs q) { depth = q.depth + length xs }) ≡ contents q ++ xs
contents-append xs q v h =
    let new : ℕ → ℕ = λ i. get_or (append xs q).buffer ((q.head + i) % q.capacity) 0 in
    unfold append in
    (tabulate_add (q.depth + length xs) q.depth (length xs) new refl
      ∙ ap₂ ◌++◌
          (tabulate_ext q.depth new (λ i. get_or q.buffer ((q.head + i) % q.capacity) 0)
            (λ i l. append_reads xs q i v h (omega arith) ∙ ground (arith, l)))
          (tabulate_ext (length xs) (λ i. new (q.depth + i)) (λ i. get_or xs i 0)
              (λ i l.
                let k : q.depth + i - q.depth ≡ i = omega arith in
                append_reads xs q (q.depth + i) v h (omega arith) ∙ rw k (ground (arith, l)))
            ∙ tabulate-get_or xs 0))

pub append-IsValid :
    (xs : List ℕ) (q : AudioPcmQueue) (d : ℕ)
    → IsValid q
    → length xs ≤ q.capacity
    → d ≤ q.capacity
    → IsValid (record (append xs q) { depth = d })
unfolding append
append-IsValid xs q d v h l =
    let at = (q.head + q.depth) % q.capacity in
    let first = min (length xs) (q.capacity - at) in
    let low = mod-lt (q.head + q.depth) v.some_room in
    let one : length (copy_to q.buffer at (take first xs)) ≡ length q.buffer =
      length-copy_to q.buffer at (take first xs)
        (omega (arith, length-take first xs, low, v.sized)) in
    let two : length (copy_to (copy_to q.buffer at (take first xs)) 0 (drop first xs))
        ≡ length q.buffer =
      length-copy_to (copy_to q.buffer at (take first xs)) 0 (drop first xs)
        (omega (arith, length-drop first xs, one, v.sized))
      ∙ one in
    record {
      some_room = v.some_room;
      sized = ground (arith, one, two, v.sized);
      head_in = v.head_in;
      depth_in = l;
      marks = v.marks;
    }
