-- ===== src/AudioPcmQueue/Push.antt =====
-- macos/receiver/audio_pcm_queue.h: `push` and the queued samples.
use kmvirtualcamera.Prelude.{
  ℕ, zero, suc, ◌+◌, ◌-◌, ◌%◌, ◌^◌, ◌≤◌, ◌≡◌, refl, sym, ap, ap₂, ◌∙◌, ◌&&◌, List, [], ◌∷◌, ◌++◌,
  arith, ltb, if◌then◌else◌, length, get_or, drop, min, length-drop, length-append, Bool-cases, inl,
  inr,
}
use kmvirtualcamera.AudioPcmQueue.{
  AudioPcmQueue, drop_front, append, make_room, append_tail, drop_to_target, push_locked,
}
use kmvirtualcamera.AudioPcmQueue.Ring.{length-tabulate}
use kmvirtualcamera.AudioPcmQueue.Refine.{
  IsValid, contents, drop_front-IsValid, contents-drop_front, contents-append, append-IsValid,
}

-- The newest samples of a queue.
abbrev pub newest : ℕ → List ℕ → List ℕ
newest n xs = drop (length xs - n) xs

-- Over the high-water mark only the newest samples up to the target stay.
abbrev pub cut : ℕ → ℕ → ℕ → List ℕ → List ℕ
cut high_water target n xs = if ltb high_water n && ltb target n then newest target xs else xs

-- What is queued after samples came in: the newest that fit, cut.
abbrev pub kept : ℕ → ℕ → ℕ → List ℕ → List ℕ
kept capacity high_water target xs =
    let ys = newest capacity xs in cut high_water target (length ys) ys

drop_split :
    (k : ℕ) (xs ys : List ℕ)
    → drop k (xs ++ ys) ≡ drop (min k (length xs)) xs ++ drop (k - length xs) ys
drop_split zero xs ys =
    let a : min 0 (length xs) ≡ 0 = omega arith in
    let b : 0 - length xs ≡ 0 = omega arith in rw (a, b) refl
drop_split (suc k) [] ys =
    let a : min (suc k) 0 ≡ 0 = omega arith in
    let b : suc k - 0 ≡ suc k = omega arith in rw (a, b) refl
drop_split (suc k) (x ∷ xs) ys =
    let a : min (suc k) (suc (length xs)) ≡ suc (min k (length xs)) = omega arith in
    let b : suc k - suc (length xs) ≡ k - length xs = omega arith in rw (a, b) (drop_split k xs ys)

-- After room is made, the front that goes is gone.
make_room_lem :
    (n : ℕ) (q : AudioPcmQueue)
    → IsValid q
    → let q' = (make_room n q).1 in
      IsValid q'
      × (q'.depth ≡ q.depth - (n - (q.capacity - q.depth)))
      × (contents q' ≡ drop (min (q.depth + n - q.capacity) q.depth) (contents q))
      × ((make_room n q).0 ≡ min q.depth (n - (q.capacity - q.depth)))
      × (q'.capacity ≡ q.capacity)
      × (q'.high_water ≡ q.high_water)
      × (q'.target ≡ q.target)
unfolding make_room
make_room_lem n q v = elim (Bool-cases (ltb (q.capacity - q.depth) n)) [
  | inl e ↦
      let over = min q.depth (n - (q.capacity - q.depth)) in
      let same : over ≡ min (q.depth + n - q.capacity) q.depth = ground (arith, e, v.depth_in) in
      rw e (
        drop_front-IsValid over q v,
        unfold drop_front in omega (arith, v.depth_in),
        contents-drop_front over q (omega arith) ∙ ap (λ k. drop k (contents q)) same,
        omega arith,
        unfold drop_front in refl,
        unfold drop_front in refl,
        unfold drop_front in refl,
      )
  | inr e ↦
      let none_gone : min (q.depth + n - q.capacity) q.depth ≡ 0 = ground (arith, e, v.depth_in) in
      rw (e, none_gone) (v, ground (arith, e), refl, ground (arith, e), refl, refl, refl)
]

-- The input without its oldest samples goes behind what is queued.
append_tail_lem :
    (xs : List ℕ) (q : AudioPcmQueue)
    → IsValid q
    → let skip = length xs - (q.capacity - q.depth) in
      let q' = (append_tail xs q).1 in
      IsValid q'
      × (q'.depth ≡ q.depth + (length xs - skip))
      × (contents q' ≡ contents q ++ drop skip xs)
      × ((append_tail xs q).0 ≡ skip)
      × (q'.capacity ≡ q.capacity)
      × (q'.high_water ≡ q.high_water)
      × (q'.target ≡ q.target)
unfolding append_tail
append_tail_lem xs q v =
    let room = q.capacity - q.depth in
    let skip = length xs - room in
    let same : (if ltb room (length xs) then skip else 0) ≡ skip = ground arith in
    let l : length (drop skip xs) ≡ length xs - skip = length-drop skip xs in
    let fits : length (drop skip xs) + q.depth ≤ q.capacity = omega (arith, l, v.depth_in) in
    rw same (
      append-IsValid (drop skip xs) q (q.depth + (length xs - skip)) v (omega (arith, fits))
          (omega (arith, fits, l)),
      refl,
      rw (← l) (contents-append (drop skip xs) q v fits),
      refl,
      unfold append in refl,
      unfold append in refl,
      unfold append in refl,
    )

drop_to_target_lem :
    (q : AudioPcmQueue)
    → IsValid q
    → let over = ltb q.high_water q.depth && ltb q.target q.depth in
      let q' = (drop_to_target q).1 in
      IsValid q'
      × (contents q' ≡ (if over then newest q.target (contents q) else contents q))
      × (q'.depth + (drop_to_target q).0 ≡ q.depth)
      × (q'.depth ≤ q.high_water)
      × (q'.capacity ≡ q.capacity)
      × (q'.high_water ≡ q.high_water)
      × (q'.target ≡ q.target)
unfolding drop_to_target
drop_to_target_lem q v = elim (Bool-cases (ltb q.high_water q.depth && ltb q.target q.depth)) [
  | inl e ↦
      let l = length-tabulate q.depth (λ i. get_or q.buffer ((q.head + i) % q.capacity) 0) in
      rw (e, l)
        (
          drop_front-IsValid (q.depth - q.target) q v,
          contents-drop_front (q.depth - q.target) q (omega arith),
          unfold drop_front in omega arith,
          unfold drop_front in ground (arith, e, v.marks),
          unfold drop_front in refl,
          unfold drop_front in refl,
          unfold drop_front in refl,
        )
  | inr e ↦ rw e (v, refl, omega arith, ground (arith, e, v.marks), refl, refl, refl)
]

-- The first two parts of `push` keep the newest samples that fit.
filled_lem :
    (xs : List ℕ) (q : AudioPcmQueue)
    → IsValid q
    → contents (append_tail xs (make_room (length xs) q).1).1 ≡ newest q.capacity (contents q ++ xs)
filled_lem xs q v =
    let (v', d', c', _, s', _, _) = make_room_lem (length xs) q v in
    let (_, _, c, _, _, _, _) = append_tail_lem xs (make_room (length xs) q).1 v' in
    let l = length-tabulate q.depth (λ i. get_or q.buffer ((q.head + i) % q.capacity) 0) in
    let over : length (contents q ++ xs) - q.capacity ≡ q.depth + length xs - q.capacity =
      omega (arith, length-append (contents q) xs, l) in
    let tail : length xs
          - ((make_room (length xs) q).1.capacity - (make_room (length xs) q).1.depth)
        ≡ q.depth + length xs - q.capacity - q.depth =
      omega (arith, d', s', v.depth_in) in
    c
    ∙ ap₂ ◌++◌ c' (ap (λ k. drop k xs) tail)
    ∙ sym (rw over (rw (drop_split (q.depth + length xs - q.capacity) (contents q) xs, l) refl))

pub contents-push_locked :
    (xs : List ℕ) (q : AudioPcmQueue)
    → IsValid q
    → contents (push_locked xs q) ≡ kept q.capacity q.high_water q.target (contents q ++ xs)
unfolding push_locked
contents-push_locked xs q v =
    let q1 = (make_room (length xs) q).1 in
    let q2 = (append_tail xs q1).1 in
    let (v1, _, _, _, s1, h1, t1) = make_room_lem (length xs) q v in
    let (v2, _, _, _, s2, h2, t2) = append_tail_lem xs q1 v1 in
    let (_, c, _, _, _, _, _) = drop_to_target_lem q2 v2 in
    let h : q2.high_water ≡ q.high_water = h2 ∙ h1 in
    let t : q2.target ≡ q.target = t2 ∙ t1 in
    let l = length-tabulate q2.depth (λ i. get_or q2.buffer ((q2.head + i) % q2.capacity) 0) in
    c
    ∙ ap (λ k. cut q2.high_water q2.target k (contents q2)) (sym l)
    ∙ ap (λ ys. cut q2.high_water q2.target (length ys) ys) (filled_lem xs q v)
    ∙ ap₂ (λ a b. kept q.capacity a b (contents q ++ xs)) h t

pub push_locked-IsValid :
    (xs : List ℕ) (q : AudioPcmQueue)
    → IsValid q
    → IsValid (push_locked xs q)
      × ((push_locked xs q).capacity ≡ q.capacity)
      × ((push_locked xs q).high_water ≡ q.high_water)
      × ((push_locked xs q).target ≡ q.target)
      × ((push_locked xs q).depth ≤ q.high_water)
unfolding push_locked
push_locked-IsValid xs q v =
    let q1 = (make_room (length xs) q).1 in
    let q2 = (append_tail xs q1).1 in
    let (v1, _, _, _, s1, h1, t1) = make_room_lem (length xs) q v in
    let (v2, _, _, _, s2, h2, t2) = append_tail_lem xs q1 v1 in
    let (v3, _, _, low, s3, h3, t3) = drop_to_target_lem q2 v2 in
    (
      record {
        some_room = v3.some_room;
        sized = v3.sized;
        head_in = v3.head_in;
        depth_in = v3.depth_in;
        marks = v3.marks;
      },
      s3 ∙ s2 ∙ s1,
      h3 ∙ h2 ∙ h1,
      t3 ∙ t2 ∙ t1,
      omega (arith, low, h2, h1),
    )

-- Every sample offered is queued, or counted as dropped.
pub push_locked-count :
    (xs : List ℕ) (q : AudioPcmQueue)
    → IsValid q
    → ((push_locked xs q).stats.pushed ≡ (q.stats.pushed + length xs) % 2 ^ 64)
      × ((push_locked xs q).stats.popped ≡ q.stats.popped)
      × ((n : ℕ) × ((push_locked xs q).stats.dropped ≡ (q.stats.dropped + n) % 2 ^ 64)
          × ((push_locked xs q).depth + n ≡ q.depth + length xs))
unfolding push_locked
push_locked-count xs q v =
    let q1 = (make_room (length xs) q).1 in
    let q2 = (append_tail xs q1).1 in
    let (v1, d1, _, n1, s1, _, _) = make_room_lem (length xs) q v in
    let (v2, d2, _, n2, s2, _, _) = append_tail_lem xs q1 v1 in
    let (v3, _, d3, _, _, _, _) = drop_to_target_lem q2 v2 in
    (
      refl,
      refl,
      (
        (make_room (length xs) q).0 + (append_tail xs q1).0 + (drop_to_target q2).0,
        refl,
        omega (arith, d1, n1, d2, n2, d3, v.depth_in, s1),
      ),
    )
