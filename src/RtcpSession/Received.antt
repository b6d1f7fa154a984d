-- ===== src/RtcpSession/Received.antt =====
-- The count of received packets in shared/receiver/rtc/enhanced_rtcp_session.cpp, for packets whose full
-- numbers are known: what the sender counts, of which 16 bits are on the wire.
use kmvirtualcamera.Prelude.{
  ℕ, suc, ◌+◌, ◌-◌, ◌%◌, ◌^◌, ◌≤◌, ◌<◌, ◌≡◌, ◌⊎◌, refl, sym, ap, ◌∙◌, Bool, true, false, not, ◌&&◌,
  ◌||◌, some, List, [], ◌∷◌, arith, ltb, leb, ◌==◌, if◌then◌else◌, length, max, All, Bool-cases,
  inl, inr,
}
use kmvirtualcamera.Prelude.Int.{ℤ}
use kmvirtualcamera.RtcpSession.{Doubles, Session, reset_source}
use kmvirtualcamera.RtcpSession.Arrivals.{contains, nearest, arrive, arrive_all, Arrivals}
use kmvirtualcamera.RtcpSession.Counted.{record_all, record_all-arrive_all}

-- Packets, the newest first: the full number, the timestamp and the arrival.
abbrev pub Packets : Type 0
Packets = List (ℕ × ℕ × ℤ)

-- On the wire.
abbrev pub sent : Packets → Packets
sent [] = []
sent ((n, timestamp, now) ∷ ps) = (n % 2 ^ 16, timestamp, now) ∷ sent ps

abbrev pub first_of : Packets → ℕ
first_of [] = 0
first_of (p ∷ []) = p.0
first_of (p ∷ q ∷ ps) = first_of (q ∷ ps)

abbrev pub highest_of : Packets → ℕ
highest_of [] = 0
highest_of (p ∷ ps) = max p.0 (highest_of ps)

-- The first number has 16 bits, and each further one is within half the circle of the highest before.
abbrev pub AreNear : Packets → Type 0
AreNear [] = Unit {0}
AreNear (p ∷ []) = p.0 < 2 ^ 16
AreNear (p ∷ q ∷ ps) =
    (p.0 ≤ highest_of (q ∷ ps) + 32767) × (highest_of (q ∷ ps) ≤ p.0 + 32768) × AreNear (q ∷ ps)

-- The numbers of those that come in time: not before the first, and less than 2048 behind the highest.
abbrev pub in_time : Packets → List ℕ
in_time [] = []
in_time (p ∷ []) = p.0 ∷ []
in_time (p ∷ q ∷ ps) =
    if leb (first_of (q ∷ ps)) p.0 && ltb (highest_of (q ∷ ps)) (p.0 + 2048)
    then p.0 ∷ in_time (q ∷ ps)
    else in_time (q ∷ ps)

-- Each number once.
abbrev pub without_repeats : List ℕ → List ℕ
without_repeats [] = []
without_repeats (n ∷ ns) = if contains n ns then without_repeats ns else n ∷ without_repeats ns

contains-without_repeats : (n : ℕ) (ns : List ℕ) → contains n (without_repeats ns) ≡ contains n ns
contains-without_repeats n [] = refl
contains-without_repeats n (m ∷ ns) =
    let rest = contains-without_repeats n ns in
    elim (Bool-cases (contains m ns)) [
      | inl t ↦ elim (Bool-cases (m == n)) [
        | inl e ↦
            let same : m ≡ n = ground (arith, e) in
            rw (t, e) (rest ∙ ap (λ k. contains k ns) (sym same) ∙ t)
        | inr e ↦ rw (t, e) rest
      ]
      | inr t ↦ rw t (ap (λ b. m == n || b) rest)
    ]

first_of-highest : (p : ℕ × ℕ × ℤ) (ps : Packets) → first_of (p ∷ ps) ≤ highest_of (p ∷ ps)
first_of-highest p [] = omega arith
first_of-highest p (q ∷ ps) = omega (arith, first_of-highest q ps)

contains-if :
    (b : Bool) (m n : ℕ) (ns : List ℕ)
    → contains n (if b then m ∷ ns else ns) ≡ true
    → (m ≡ n) ⊎ (contains n ns ≡ true)
contains-if true m n ns h = elim (Bool-cases (contains n ns)) [
  | inl e ↦ inr e
  | inr e ↦ inl (ground (arith, h, e))
]
contains-if false m n ns h = inr h

in_time-highest : (n : ℕ) (ps : Packets) → contains n (in_time ps) ≡ true → n ≤ highest_of ps
in_time-highest n [] h = cc
in_time-highest n (p ∷ []) h = ground (arith, h)
in_time-highest n (p ∷ q ∷ ps) h =
    let timely = leb (first_of (q ∷ ps)) p.0 && ltb (highest_of (q ∷ ps)) (p.0 + 2048) in
    elim (contains-if timely p.0 n (in_time (q ∷ ps)) h) [
      | inl e ↦ omega (arith, e)
      | inr e ↦ omega (arith, in_time-highest n (q ∷ ps) e)
    ]

nearest-sent : (n h : ℕ) → n ≤ h + 32767 → h ≤ n + 32768 → nearest (n % 65536) h ≡ some n
unfolding nearest
nearest-sent n h p q =
    let x : h + 98303 - (h + 98303 - n % 65536) % 65536 ≡ n + 65536 = omega (arith, p, q) in
    rw x (ground arith)

-- What the session has got of the packets.
record IsMeant (ps : Packets) (a : Arrivals) : Type 0 where
  started : a.started ≡ true
  base : a.base ≡ first_of ps
  highest : a.highest ≡ highest_of ps
  log : a.log ≡ without_repeats (in_time ps)

-- A packet that is late or repeated changes nothing.
passed_over :
    (p q : ℕ × ℕ × ℤ) (ps : Packets)
    → (leb (first_of (q ∷ ps)) p.0
        && ltb (highest_of (q ∷ ps)) (p.0 + 2048)
        && not (contains p.0 (in_time (q ∷ ps))))
      ≡ false
    → (highest_of (q ∷ ps) ≡ highest_of (p ∷ q ∷ ps))
      × (without_repeats (in_time (q ∷ ps)) ≡ without_repeats (in_time (p ∷ q ∷ ps)))
passed_over p q ps t =
    let order = first_of-highest q ps in
    elim (Bool-cases (leb (first_of (q ∷ ps)) p.0 && ltb (highest_of (q ∷ ps)) (p.0 + 2048))) [
      | inl u ↦
          let seen : contains p.0 (in_time (q ∷ ps)) ≡ true = ground (arith, t, u) in
          let below = in_time-highest p.0 (q ∷ ps) seen in (omega (arith, below), rw (u, seen) refl)
      | inr u ↦ (ground (arith, u, order), rw u refl)
    ]

arrive-IsMeant :
    (p q : ℕ × ℕ × ℤ) (ps : Packets) (a : Arrivals)
    → p.0 ≤ highest_of (q ∷ ps) + 32767
    → highest_of (q ∷ ps) ≤ p.0 + 32768
    → IsMeant (q ∷ ps) a
    → IsMeant (p ∷ q ∷ ps) (arrive (p.0 % 65536) a)
unfolding arrive
arrive-IsMeant p q ps a up down k =
    let n = p.0 in
    let f = first_of (q ∷ ps) in
    let h = highest_of (q ∷ ps) in
    let read : nearest (n % 65536) a.highest ≡ some n =
      nearest-sent n a.highest (omega (arith, up, k.highest)) (omega (arith, down, k.highest)) in
    let known : contains n a.log ≡ contains n (in_time (q ∷ ps)) =
      ap (contains n) k.log ∙ contains-without_repeats n (in_time (q ∷ ps)) in
    elim (Bool-cases (ltb n a.base || leb (n + 2048) a.highest || contains n a.log)) [
      | inl t ↦
          let (top, same) = passed_over p q ps (ground (arith, t, k.base, k.highest, known)) in
          rw (k.started, read, t)
            (record {
              started = k.started;
              base = k.base;
              highest = k.highest ∙ top;
              log = k.log ∙ same;
            })
      | inr t ↦
          let timely : (leb f n && ltb h (n + 2048)) ≡ true =
            ground (arith, t, k.base, k.highest) in
          let new : contains n (in_time (q ∷ ps)) ≡ false = sym known ∙ ground (arith, t) in
          rw (k.started, read, t)
            (record {
              started = k.started;
              base = k.base;
              highest = omega (arith, k.highest);
              log = rw (timely, new) (ap (◌∷◌ n) k.log);
            })
    ]

arrive_all-IsMeant :
    (p : ℕ × ℕ × ℤ) (ps : Packets)
    → AreNear (p ∷ ps)
    → IsMeant (p ∷ ps) (arrive_all (sent (p ∷ ps)))
unfolding arrive_all arrive
arrive_all-IsMeant p [] h =
    let e : p.0 % 65536 ≡ p.0 = omega (arith, h) in
    record { started = refl; base = e; highest = e ∙ omega arith; log = ap (λ n. n ∷ []) e }
arrive_all-IsMeant p (q ∷ ps) (up, down, h) =
    arrive-IsMeant p q ps (arrive_all (sent (q ∷ ps))) up down (arrive_all-IsMeant q ps h)

sent-narrow : (ps : Packets) → All (λ p. p.0 < 2 ^ 16) (sent ps) × (length (sent ps) ≡ length ps)
sent-narrow [] = (tt, refl)
sent-narrow (p ∷ ps) = let (a, b) = sent-narrow ps in ((omega arith, a), ap suc b)

module _ {J : Type 0} (D : Doubles J) where
  -- The packets of a source, one at least and fewer than 2 ^ 40, in whatever order and repeated or not, whose
  -- numbers are known in full, while 16 bits of each are on the wire: if the first number has 16
  -- bits and each further one is less than 2 ^ 15 ahead of the highest before, or up to 2 ^ 15
  -- behind it, then the session counts each number once that has come in time, which is not
  -- before the first and less than 2048 behind the highest; a number that comes later is not
  -- counted. Its first and its highest number are the full ones.
  pub record_all-without_repeats :
      (ssrc : ℕ) (s : Session J) (p : ℕ × ℕ × ℤ) (ps : Packets)
      → AreNear (p ∷ ps)
      → length (p ∷ ps) < 2 ^ 40
      → let t = record_all D (reset_source D ssrc s) (sent (p ∷ ps)) in
        (t.received ≡ length (without_repeats (in_time (p ∷ ps))))
        × (t.base ≡ first_of (p ∷ ps))
        × (t.highest ≡ highest_of (p ∷ ps))
  record_all-without_repeats ssrc s p ps h k =
      let (narrow, size) = sent-narrow (p ∷ ps) in
      let (received, base, highest, _) =
        record_all-arrive_all D ssrc s (sent (p ∷ ps)) narrow (omega (arith, size, k)) in
      let m = arrive_all-IsMeant p ps h in
      (received ∙ ap length m.log, base ∙ m.base, highest ∙ m.highest)
