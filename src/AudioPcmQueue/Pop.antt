-- ===== src/AudioPcmQueue/Pop.antt =====
-- macos/receiver/audio_pcm_queue.h: `pop` and the queued samples.
use kmvirtualcamera.Prelude.{
  ℕ, ◌+◌, ◌-◌, ◌%◌, ◌≤◌, ◌<◌, ◌≡◌, refl, sym, ap, ◌∙◌, List, ltb→lt, get_or-append_left,
  get_or-append_right, ◌++◌, arith, ltb, ◌==◌, length, get_or, take, drop, min, length-take,
  length-drop, length-append, Bool-cases, inl, inr,
}
use native.Mathlib.Nat.{mod-lt}
use mathlib.Core.Path.{subst}
use kmvirtualcamera.AudioPcmQueue.{AudioPcmQueue, drop_front, pop}
use kmvirtualcamera.AudioPcmQueue.Ring.{
  tabulate, take-tabulate-min, drop-tabulate-min, tabulate_reads, get_or-take, get_or-drop,
  wrap_lem,
}
use kmvirtualcamera.AudioPcmQueue.Refine.{IsValid, contents, contents-drop_front}

-- The two block copies of `pop` read the samples from the head on.
copied_out :
    (b : List ℕ) (head size taken : ℕ)
    → length b ≡ size
    → head < size
    → taken ≤ size
    → take (min taken (size - head)) (drop head b) ++ take (taken - min taken (size - head)) b
      ≡ tabulate taken (λ i. get_or b ((head + i) % size) 0)
copied_out b head size taken l h t =
    let first = min taken (size - head) in
    let a : length (take first (drop head b)) ≡ first =
      omega (arith, length-take first (drop head b), length-drop head b) in
    let c : length (take (taken - first) b) ≡ taken - first =
      omega (arith, length-take (taken - first) b) in
    tabulate_reads (take first (drop head b) ++ take (taken - first) b) taken
      (λ i. get_or b ((head + i) % size) 0)
      (omega (arith, length-append (take first (drop head b)) (take (taken - first) b), a, c))
      (λ i k.
        let w = wrap_lem (head + i) size (omega arith) (omega arith) in
        elim (Bool-cases (ltb i first)) [
          | inl e ↦
              let p : (head + i) % size ≡ head + i = ground (arith, e, w) in
              get_or-append_left (take first (drop head b)) (take (taken - first) b) i 0
                (ground (arith, e, a))
              ∙ get_or-take first (drop head b) i (ltb→lt i first e)
              ∙ get_or-drop head b i ((head + i) % size) p
          | inr e ↦
              let p : (head + i) % size ≡ i - first = ground (arith, e, w) in
              get_or-append_right (take first (drop head b)) (take (taken - first) b) (i - first) i
                0 (ground (arith, e, a))
              ∙ get_or-take (taken - first) b (i - first) (ground (arith, e))
              ∙ ap (λ j. get_or b j 0) (sym p)
        ])

pub pop_out : (n : ℕ) (q : AudioPcmQueue) → IsValid q → (pop n q).0 ≡ take n (contents q)
unfolding pop
pop_out n q v =
    let taken = min n q.depth in
    let f : ℕ → ℕ = λ i. get_or q.buffer ((q.head + i) % q.capacity) 0 in
    let whole = take-tabulate-min n q.depth f in
    elim (Bool-cases (taken == 0)) [
      | inl e ↦ let z : taken ≡ 0 = ground (arith, e) in rw (e, whole, z) refl
      | inr e ↦
          rw (e, whole)
            (copied_out q.buffer q.head q.capacity taken v.sized v.head_in
              (omega (arith, v.depth_in)))
    ]

pub contents-pop :
    (n : ℕ) (q : AudioPcmQueue) → IsValid q → contents (pop n q).1 ≡ drop n (contents q)
unfolding pop
contents-pop n q v =
    let taken = min n q.depth in
    let f : ℕ → ℕ = λ i. get_or q.buffer ((q.head + i) % q.capacity) 0 in
    let whole : drop n (contents q) ≡ drop taken (contents q) = drop-tabulate-min n q.depth f in
    elim (Bool-cases (taken == 0)) [
      | inl e ↦
          let z : taken ≡ 0 = ground (arith, e) in
          elim (Bool-cases (n == 0)) [
            | inl g ↦ rw (e, g, whole, z) refl
            | inr g ↦ rw (e, g, whole, z) refl
          ]
      | inr e ↦
          let all : min taken q.depth ≡ taken = omega arith in
          let s : contents (record q {
            head = (q.head + min taken q.depth) % q.capacity;
            depth = q.depth - min taken q.depth;
          })
              ≡ drop taken (contents q) =
            unfold drop_front in contents-drop_front taken q (omega arith) in
          rw (e, whole)
            (subst
              (λ k.
                contents (record q { head = (q.head + k) % q.capacity; depth = q.depth - k })
                ≡ drop taken (contents q))
              all s)
    ]

pub pop-IsValid : (n : ℕ) (q : AudioPcmQueue) → IsValid q → IsValid (pop n q).1
unfolding pop
pop-IsValid n q v = elim (Bool-cases (min n q.depth == 0)) [
  | inl e ↦ elim (Bool-cases (n == 0)) [
    | inl g ↦ rw (e, g) v
    | inr g ↦
        rw (e, g)
          (record {
            some_room = v.some_room;
            sized = v.sized;
            head_in = v.head_in;
            depth_in = v.depth_in;
            marks = v.marks;
          })
  ]
  | inr e ↦ rw e (record {
    some_room = v.some_room;
    sized = v.sized;
    head_in = mod-lt (q.head + min n q.depth) v.some_room;
    depth_in = omega (arith, v.depth_in);
    marks = v.marks;
  })
]
