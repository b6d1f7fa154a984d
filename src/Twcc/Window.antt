-- ===== src/Twcc/Window.antt =====
-- The pending window of shared/receiver/rtc/twcc_receiver.cpp: what enters it and what leaves it.
use kmvirtualcamera.Prelude.{
  ℕ, zero, suc, ◌+◌, ◌-◌, ◌%◌, ◌^◌, ◌≤◌, ◌<◌, ◌≡◌, ◌≢◌, refl, sym, ap, ◌∙◌, Bool, true, false, not,
  ◌||◌, Option, none, some, List, arith, ◌==◌, if◌then◌else◌, length, Bool-cases, inl, inr, get_or,
  set, ==_iff, sub16, length-set, get_or-set_self, get_or-set_ne, length-replicate,
}
use kmvirtualcamera.Prelude.Int.{ℤ}
use kmvirtualcamera.Twcc.{
  Arrival, Twcc, ring_size, no_arrival, reset, pending_count, div_ℤ, on_packet, collect, clear,
  report, build_feedback,
}
use kmvirtualcamera.Twcc.Feedback.{pending_window}

pub record IsSound (t : Twcc) : Type 0 where
  pub ring : length t.records ≡ ring_size
  pub base : t.base < 2 ^ 16
  pub end : t.end < 2 ^ 16
  pub count : t.feedback_count < 256

-- The sequence number is one of those that wait to be reported.
abbrev pub IsPending : ℕ → Twcc → Type 0
IsPending seq t = (t.has_pending ≡ true) × (sub16 seq t.base < sub16 t.end t.base)

pub reset-IsSound : (t : Twcc) → IsSound (reset t)
unfolding reset
reset-IsSound t = record {
  ring = length-replicate ring_size no_arrival;
  base = omega arith;
  end = omega arith;
  count = omega arith;
}

pub on_packet-IsSound :
    (seq : ℕ) (time : ℤ) (size : ℕ) (t : Twcc)
    → seq < 2 ^ 16
    → IsSound t
    → IsSound (on_packet seq time size t)
unfolding on_packet
on_packet-IsSound seq time size t h s = elim (Bool-cases t.has_pending) [
  | inl e ↦ rw e (record {
    ring = length-set t.records (seq % ring_size) _ ∙ s.ring;
    base = ground (arith, h, s.base);
    end = ground (arith, h, s.end);
    count = s.count;
  })
  | inr e ↦ rw e (record {
    ring = length-set t.records (seq % ring_size) _ ∙ s.ring;
    base = h;
    end = omega arith;
    count = s.count;
  })
]

pub on_packet-IsPending :
    (seq : ℕ) (time : ℤ) (size : ℕ) (t : Twcc)
    → seq < 2 ^ 16
    → IsSound t
    → IsPending seq (on_packet seq time size t)
      × (get_or (on_packet seq time size t).records (seq % ring_size) no_arrival
          ≡ record { time_us = time; size = size; received = true })
unfolding on_packet
on_packet-IsPending seq time size t h s = elim (Bool-cases t.has_pending) [
  | inl e ↦ rw e (
    (refl, ground (arith, h, s.base, s.end)),
    get_or-set_self t.records (seq % ring_size) _ no_arrival (omega (arith, s.ring)),
  )
  | inr e ↦ rw e (
    (refl, omega (arith, h)),
    get_or-set_self t.records (seq % ring_size) _ no_arrival (omega (arith, s.ring)),
  )
]

length-clear : (n seq : ℕ) (records : List Arrival) → length (clear n seq records) ≡ length records
unfolding clear
length-clear zero seq records = refl
length-clear (suc n) seq records =
    length-clear n ((seq + 1) % 2 ^ 16) (set records (seq % ring_size) no_arrival)
    ∙ length-set records (seq % ring_size) no_arrival

clear-others :
    (n seq : ℕ) (records : List Arrival) (k : ℕ)
    → ((i : ℕ) → i < n → (seq + i) % 2 ^ 16 % ring_size ≢ k)
    → get_or (clear n seq records) k no_arrival ≡ get_or records k no_arrival
unfolding clear
clear-others zero seq records k h = refl
clear-others (suc n) seq records k h =
    clear-others n ((seq + 1) % 2 ^ 16) (set records (seq % ring_size) no_arrival) k
      (λ i l e. h (suc i) (omega arith) (omega (arith, e)))
    ∙ get_or-set_ne records (seq % ring_size) k no_arrival no_arrival
        (λ e. h 0 (omega arith) (omega (arith, e)))

clear-cleared :
    (n seq : ℕ) (records : List Arrival) (i : ℕ)
    → length records ≡ ring_size
    → n ≤ ring_size
    → i < n
    → get_or (clear n seq records) ((seq + i) % 2 ^ 16 % ring_size) no_arrival ≡ no_arrival
unfolding clear
clear-cleared zero seq records i r h l = absurd (omega arith)
clear-cleared (suc n) seq records zero r h l =
    clear-others n ((seq + 1) % 2 ^ 16) (set records (seq % ring_size) no_arrival)
      ((seq + 0) % 2 ^ 16 % ring_size) (λ j k e. absurd (omega (arith, e)))
    ∙ ap (λ k. get_or (set records (seq % ring_size) no_arrival) k no_arrival) (omega arith)
    ∙ get_or-set_self records (seq % ring_size) no_arrival no_arrival (omega (arith, r))
clear-cleared (suc n) seq records (suc i) r h l =
    ap
      (λ k.
        get_or (clear n ((seq + 1) % 2 ^ 16) (set records (seq % ring_size) no_arrival)) k
          no_arrival)
      (omega arith)
    ∙ clear-cleared n ((seq + 1) % 2 ^ 16) (set records (seq % ring_size) no_arrival) i
        (length-set records (seq % ring_size) no_arrival ∙ r) (omega arith) (omega arith)

-- What a report of `n` numbers leaves of a state.
pub record IsReported (n : ℕ) (t t' : Twcc) : Type 0 where
  pub sound : IsSound t'
  pub end : t'.end ≡ t.end
  pub count : pending_count t' ≡ pending_count t - n
  pub cleared :
      (i : ℕ)
      → i < n
      → get_or t'.records ((t.base + i) % 2 ^ 16 % ring_size) no_arrival ≡ no_arrival
  pub kept :
      (i : ℕ)
      → n ≤ i
      → i < ring_size
      → get_or t'.records ((t.base + i) % 2 ^ 16 % ring_size) no_arrival
        ≡ get_or t.records ((t.base + i) % 2 ^ 16 % ring_size) no_arrival

report-IsReported :
    (sender media n : ℕ) (t : Twcc) (known : Option (ℤ × ℤ))
    → IsSound t
    → n ≤ 512
    → (t.has_pending ≡ true)
    → n ≤ sub16 t.end t.base
    → ((report sender media t n (collect n t.base t.records none).0 known).0 ≢ none)
    → IsReported n t (report sender media t n (collect n t.base t.records none).0 known).1
unfolding report pending_count
report-IsReported sender media n t none s h w k e = absurd (e refl)
report-IsReported sender media n t (some (r, previous)) s h w k e = record {
  sound = record {
    ring = length-clear n t.base t.records ∙ s.ring;
    base = omega arith;
    end = s.end;
    count = omega arith;
  };
  end = refl;
  count = counted;
  cleared = λ i l. clear-cleared n t.base t.records i s.ring (omega (arith, h)) l;
  kept = λ i l m.
      clear-others n t.base t.records ((t.base + i) % 2 ^ 16 % ring_size)
        (λ j q e. absurd (omega (arith, e, h)));
}
  where
    base : ℕ
    base = (t.base + n) % 2 ^ 16

    counted : (if not (base == t.end) then sub16 t.end base else 0) ≡ pending_count t - n
    counted = elim (Bool-cases (base == t.end)) [
      | inl q ↦ rw (q, w) (omega (arith, (==_iff base t.end).0 q, k, s.base, s.end))
      | inr q ↦ rw (q, w) (omega (arith, k, s.base, s.end))
    ]

-- Once there is a reference time, it stays.
collect-known :
    (n seq : ℕ) (records : List Arrival) (x : ℤ × ℤ) → (collect n seq records (some x)).1 ≢ none
unfolding collect
collect-known zero seq records x e = cc
collect-known (suc n) seq records (r, previous) e =
    elim (Bool-cases (get_or records (seq % ring_size) no_arrival).received) [
      | inl q ↦ collect-known n ((seq + 1) % 2 ^ 16) records _ (next q)
      | inr q ↦ collect-known n ((seq + 1) % 2 ^ 16) records (r, previous) (same q)
    ]
  where
    a : Arrival
    a = get_or records (seq % ring_size) no_arrival

    next :
        a.received ≡ true → (collect n ((seq + 1) % 2 ^ 16) records (some (r, a.time_us))).1 ≡ none
    next q =
        ap
          (λ b.
            (collect n ((seq + 1) % 2 ^ 16) records
              (if b then some (r, a.time_us) else some (r, previous))).1)
          (sym q)
        ∙ e

    same :
        a.received ≡ false → (collect n ((seq + 1) % 2 ^ 16) records (some (r, previous))).1 ≡ none
    same q =
        ap
          (λ b.
            (collect n ((seq + 1) % 2 ^ 16) records
              (if b then some (r, a.time_us) else some (r, previous))).1)
          (sym q)
        ∙ e

abbrev reference_of : ℕ → List Arrival → ℤ × ℤ
reference_of seq records =
    let a = get_or records (seq % ring_size) no_arrival in (div_ℤ a.time_us 64000, a.time_us)

collect-next :
    (n seq : ℕ) (records : List Arrival) (b : Bool)
    → (get_or records (seq % ring_size) no_arrival).received ≡ b
    → (collect (suc n) seq records none).1 ≡ none
    → (b ≡ false) × ((collect n ((seq + 1) % 2 ^ 16) records none).1 ≡ none)
unfolding collect
collect-next n seq records true q e = absurd (
    collect-known n ((seq + 1) % 2 ^ 16) records (reference_of seq records) (
      ap
        (λ b.
          (collect n ((seq + 1) % 2 ^ 16) records
            (if b then some (reference_of seq records) else none)).1)
        (sym q)
      ∙ e))
collect-next n seq records false q e = (
  refl,
  ap
        (λ b.
          (collect n ((seq + 1) % 2 ^ 16) records
            (if b then some (reference_of seq records) else none)).1)
        (sym q)
      ∙ e,
)

collect-none :
    (n seq : ℕ) (records : List Arrival) (i : ℕ)
    → (collect n seq records none).1 ≡ none
    → i < n
    → (get_or records ((seq + i) % 2 ^ 16 % ring_size) no_arrival).received ≡ false
collect-none zero seq records i e l = absurd (omega arith)
collect-none (suc n) seq records zero e l =
    ap (λ k. (get_or records k no_arrival).received) (omega arith)
    ∙ (collect-next n seq records _ refl e).0
collect-none (suc n) seq records (suc i) e l =
    ap (λ k. (get_or records k no_arrival).received) (omega arith)
    ∙ collect-none n ((seq + 1) % 2 ^ 16) records i (collect-next n seq records _ refl e).1
        (omega arith)

-- From a sound state: no feedback changes nothing and, where something is pending, is due to none of
-- the numbers of the window being received; feedback clears the records of the window, keeps the
-- others, and takes the window off what is pending.
pub build_feedback-window :
    (sender media : ℕ) (t : Twcc)
    → IsSound t
    → ((build_feedback sender media t).0 ≡ none
        → ((build_feedback sender media t).1 ≡ t)
          × (t.has_pending ≡ true
              → (i : ℕ) → i < pending_window t
              → (get_or t.records ((t.base + i) % 2 ^ 16 % ring_size) no_arrival).received ≡ false))
      × ((build_feedback sender media t).0 ≢ none
          → IsReported (pending_window t) t (build_feedback sender media t).1)
unfolding build_feedback report
build_feedback-window sender media t s = elim (Bool-cases (not t.has_pending || n == 0)) [
  | inl c ↦ rw c (λ e. (refl, λ w i l. absurd (ground (arith, c, w, l))), λ e. absurd (e refl))
  | inr c ↦ rw c (
    unreported (collect n t.base t.records none).1 refl,
    report-IsReported sender media n t _ s (omega arith) (ground (arith, c)) (omega arith),
  )
]
  where
    n : ℕ
    n = pending_window t

    unreported :
        (known : Option (ℤ × ℤ))
        → (collect n t.base t.records none).1 ≡ known
        → (report sender media t n (collect n t.base t.records none).0 known).0 ≡ none
        → ((report sender media t n (collect n t.base t.records none).0 known).1 ≡ t)
          × (t.has_pending ≡ true
              → (i : ℕ) → i < n
              → (get_or t.records ((t.base + i) % 2 ^ 16 % ring_size) no_arrival).received ≡ false)
    unreported none q e = (refl, λ w i l. collect-none n t.base t.records i q l)
    unreported (some x) q e = cc
