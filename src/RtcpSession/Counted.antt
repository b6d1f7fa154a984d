-- ===== src/RtcpSession/Counted.antt =====
-- The count of received packets in shared/receiver/rtc/enhanced_rtcp_session.cpp, against the set of
-- the extended numbers that have arrived in time.
use kmvirtualcamera.Prelude.{
  ℕ, suc, ◌+◌, ◌-◌, ◌*◌, ◌%◌, ◌^◌, ◌≤◌, ◌<◌, ◌≡◌, refl, sym, ap, ap₂, ◌∙◌, Bool, true, false, not,
  ◌&&◌, ◌||◌, Option, none, some, List, [], ◌∷◌, arith, ltb, leb, if◌then◌else◌, length, max, All,
  Bool-cases, Option-cases, inl, inr, length-set, length-replicate,
}
use mathlib.Core.Path.{subst}
use kmvirtualcamera.Prelude.Int.{ℤ, ◌-ℤ◌}
use kmvirtualcamera.RtcpSession.{
  Doubles, Session, reset_source, timestamp_delta, admit, extend, mark, record_packet,
}
use kmvirtualcamera.RtcpSession.Arrivals.{
  contains, nearest, empty, arrive, arrive_all, nearest-bound, Distinct, ahead, delta_up,
  delta_down, nearest_up, nearest_down, below_grow, IsRing, set-IsRing, replicate-IsRing,
  arrive-grow, length-Distinct, Arrivals,
}

module _ {J : Type 0} (D : Doubles J) where
  -- The packets, the newest first.
  unfoldable pub record_all : Session J → List (ℕ × ℕ × ℤ) → Session J
  record_all s [] = s
  record_all s ((seq, timestamp, now) ∷ ps) = record_packet D seq timestamp now (record_all s ps)

  record IsCounted (s : Session J) (a : Arrivals) : Type 0 where
    started : s.started ≡ a.started
    base : s.base ≡ a.base
    highest : s.highest ≡ a.highest
    size : length s.seen ≡ 2048
    received : s.received ≡ length a.log
    below : All (λ n. n ≤ a.highest) a.log
    above : All (λ n. a.base ≤ n) a.log
    distinct : Distinct a.log
    order : a.base ≤ a.highest
    ring : IsRing s.seen a.log a.highest
    fresh : a.started ≡ false → a ≡ empty

  extend-nearest :
      (seq : ℕ) (s : Session J)
      → seq < 2 ^ 16
      → s.highest < 2 ^ 63
      → extend D seq s ≡ elim (nearest seq s.highest) [ none ↦ none | some n ↦ admit D n s ]
  unfolding extend
  extend-nearest seq s h k = elim (Bool-cases (ltb (ahead seq s.highest) 32768)) [
    | inl t ↦
        let e : (s.highest + ahead seq s.highest) % 2 ^ 64 ≡ s.highest + ahead seq s.highest =
          omega (arith, k) in
        let f : ltb (ahead seq s.highest + 0) 0 ≡ false = ground arith in
        rw
          (
            delta_up seq s.highest (ground (arith, t)),
            nearest_up seq s.highest h (ground (arith, t)),
            f,
            e,
          )
          refl
    | inr t ↦
        let g : ltb 0 (0 + suc (65535 - ahead seq s.highest)) ≡ true = ground arith in
        elim (Bool-cases (ltb (s.highest + ahead seq s.highest) 65536)) [
          | inl u ↦
              let f : ltb s.highest (suc (65535 - ahead seq s.highest)) ≡ true =
                ground (arith, u) in
              rw
                (
                  delta_down seq s.highest (ground (arith, t)),
                  nearest_down seq s.highest h (ground (arith, t)),
                  u,
                  g,
                  f,
                )
                refl
          | inr u ↦
              let f : ltb s.highest (suc (65535 - ahead seq s.highest)) ≡ false =
                ground (arith, u) in
              let e : s.highest - suc (65535 - ahead seq s.highest)
                  ≡ s.highest + ahead seq s.highest - 65536 =
                ground (arith, u) in
              rw
                (
                  delta_down seq s.highest (ground (arith, t)),
                  nearest_down seq s.highest h (ground (arith, t)),
                  u,
                  g,
                  f,
                  e,
                )
                refl
        ]
  ]

  mark-IsCounted :
      (n timestamp base low k high : ℕ) (on : Bool) (now : ℤ) (jitter : J) (s : Session J)
      (a : Arrivals)
      → IsCounted s a
      → (on ≡ true) × (low ≡ base) × (high ≡ k)
      → a.highest ≤ k
      → n ≤ k
      → base ≤ n
      → All (λ m. base ≤ m) a.log
      → contains n a.log ≡ false
      → a.highest < n + 2048
      → length a.log < 2 ^ 62
      → IsCounted
          (mark D n timestamp now
            (record s { started = on; base = low; highest = high; jitter = jitter }))
          (record { started = true; base = base; highest = k; log = n ∷ a.log })
  unfolding mark
  mark-IsCounted n timestamp base low k high on now jitter s a c (e, f, g) hk nk bn above new near
        few =
      record {
        started = e;
        base = f;
        highest = g;
        size = length-set s.seen (n % 2048) n ∙ c.size;
        received = omega (arith, c.received, few);
        below = (nk, below_grow a.highest k a.log c.below hk);
        above = (bn, above);
        distinct = (new, c.distinct);
        order = omega (arith, nk, bn);
        ring = set-IsRing s.seen a.log a.highest k n c.ring c.below c.size hk nk near;
        fresh = λ e. cc;
      }

  -- `record`, by whether there was a packet and the number of this one.
  abbrev chosen : ℕ → ℕ → ℤ → Session J → Bool → Option ℕ → Session J
  chosen seq timestamp now s on extended =
      if not on
      then mark D seq timestamp now (record s { base = seq; highest = seq; started = true })
      else elim extended [
        | none ↦ s
        | some n ↦ mark D n timestamp now (record s {
          highest = max s.highest n;
          jitter =
              D.next_jitter (now -ℤ s.last_arrival_us) s.clock_rate
                (timestamp_delta timestamp s.last_timestamp) s.jitter;
        })
      ]

  first-IsCounted :
      (seq timestamp : ℕ) (now : ℤ) (s : Session J)
      → IsCounted s empty
      → IsCounted (record_packet D seq timestamp now s) (arrive seq empty)
  unfolding record_packet arrive
  first-IsCounted seq timestamp now s c = rw c.started (
      mark-IsCounted seq timestamp seq seq seq seq true now s.jitter s empty c (refl, refl, refl)
        (omega arith) (omega arith) (omega arith) tt refl (omega arith) (omega arith))

  skipped :
      (seq timestamp : ℕ) (now : ℤ) (s : Session J)
      → s.started ≡ true
      → extend D seq s ≡ none
      → record_packet D seq timestamp now s ≡ s
  unfolding record_packet
  skipped seq timestamp now s on e = ap₂ (chosen seq timestamp now s) on e

  taken :
      (seq timestamp n : ℕ) (now : ℤ) (s : Session J)
      → s.started ≡ true
      → extend D seq s ≡ some n
      → record_packet D seq timestamp now s ≡ chosen seq timestamp now s true (some n)
  unfolding record_packet
  taken seq timestamp n now s on e = ap₂ (chosen seq timestamp now s) on e

  -- The two tests agree.
  admit-contains :
      (n : ℕ) (s : Session J) (a : Arrivals)
      → IsCounted s a
      → n < 2 ^ 63
      → admit D n s
        ≡ (if ltb n a.base || leb (n + 2048) a.highest || contains n a.log then none else some n)
  unfolding admit
  admit-contains n s a c h = elim (Bool-cases (leb (n + 2048) a.highest)) [
    | inl t ↦
        let u : (ltb n s.highest && leb 2048 (s.highest - n)) ≡ true =
          ground (arith, t, c.highest) in
        rw (u, t, c.base) (ground arith)
    | inr t ↦
        let u : (ltb n s.highest && leb 2048 (s.highest - n)) ≡ false =
          ground (arith, t, c.highest) in
        rw (u, t, c.ring n (ground (arith, t)) (omega (arith, h)), c.base) refl
  ]

  extend-IsCounted :
      (seq : ℕ) (s : Session J) (a : Arrivals)
      → seq < 2 ^ 16
      → a.highest < 2 ^ 62
      → IsCounted s a
      → extend D seq s ≡ elim (nearest seq a.highest) [
        | none ↦ none
        | some n ↦
            if ltb n a.base || leb (n + 2048) a.highest || contains n a.log then none else some n
      ]
  extend-IsCounted seq s a h k c =
      extend-nearest seq s h (omega (arith, c.highest, k))
      ∙ elim (Option-cases (nearest seq a.highest)) [
        | inl e ↦ rw (c.highest, e) refl
        | inr (n, e) ↦
            rw (c.highest, e)
              (admit-contains n s a c (omega (arith, nearest-bound seq a.highest n h e, k)))
      ]

  later-IsCounted :
      (seq timestamp : ℕ) (now : ℤ) (s : Session J) (a : Arrivals)
      → a.started ≡ true
      → seq < 2 ^ 16
      → a.highest < 2 ^ 62
      → length a.log < 2 ^ 62
      → IsCounted s a
      → IsCounted (record_packet D seq timestamp now s) (arrive seq a)
  unfolding arrive
  later-IsCounted seq timestamp now s a on h k few c =
      let x = extend-IsCounted seq s a h k c in
      elim (Option-cases (nearest seq a.highest)) [
        | inl e ↦ rw (skipped seq timestamp now s (c.started ∙ on) (rw (x, e) refl), on, e) c
        | inr (n, e) ↦
            elim (Bool-cases (ltb n a.base || leb (n + 2048) a.highest || contains n a.log)) [
              | inl t ↦
                  rw (skipped seq timestamp now s (c.started ∙ on) (rw (x, e, t) refl), on, e, t) c
              | inr t ↦
                  rw (taken seq timestamp n now s (c.started ∙ on) (rw (x, e, t) refl), on, e, t)
                    (subst
                      (λ b. IsCounted (chosen seq timestamp now s true (some n)) (record {
                        started = b;
                        base = a.base;
                        highest = max a.highest n;
                        log = n ∷ a.log;
                      }))
                      (sym on)
                      (mark-IsCounted n timestamp a.base s.base (max a.highest n) (max s.highest n)
                        s.started now
                        (D.next_jitter (now -ℤ s.last_arrival_us) s.clock_rate
                          (timestamp_delta timestamp s.last_timestamp) s.jitter)
                        s a c (c.started ∙ on, c.base, ap (λ h. max h n) c.highest) (omega arith)
                        (omega arith) (ground (arith, t)) c.above (ground (arith, t))
                        (ground (arith, t)) few))
            ]
      ]

  -- The newest packet, after any others.
  record_packet-IsCounted :
      (seq timestamp : ℕ) (now : ℤ) (s : Session J) (a : Arrivals)
      → seq < 2 ^ 16
      → a.highest < 2 ^ 62
      → length a.log < 2 ^ 62
      → IsCounted s a
      → IsCounted (record_packet D seq timestamp now s) (arrive seq a)
  record_packet-IsCounted seq timestamp now s a h k few c = elim (Bool-cases a.started) [
    | inl on ↦ later-IsCounted seq timestamp now s a on h k few c
    | inr off ↦
        subst (λ b. IsCounted (record_packet D seq timestamp now s) (arrive seq b))
          (sym (c.fresh off))
          (first-IsCounted seq timestamp now s (subst (IsCounted s) (c.fresh off) c))
  ]

  record_all-IsCounted :
      (s : Session J) (ps : List (ℕ × ℕ × ℤ))
      → IsCounted s empty
      → All (λ p. p.0 < 2 ^ 16) ps
      → length ps < 2 ^ 40
      → IsCounted (record_all s ps) (arrive_all ps)
        × (length (arrive_all ps).log ≤ length ps)
        × ((arrive_all ps).highest ≤ 65536 * length ps)
  unfolding record_all arrive_all
  record_all-IsCounted s [] c h k = (c, omega arith, omega arith)
  record_all-IsCounted s ((seq, timestamp, now) ∷ ps) c (h, hs) k =
      let (i, l, m) = record_all-IsCounted s ps c hs (omega (arith, k)) in
      let (p, q) = arrive-grow seq (arrive_all ps) h in
      (
        record_packet-IsCounted seq timestamp now (record_all s ps) (arrive_all ps) h
            (omega (arith, m, k)) (omega (arith, l, k)) i,
        omega (arith, l, p),
        omega (arith, m, q),
      )

  reset_source-IsCounted : (ssrc : ℕ) (s : Session J) → IsCounted (reset_source D ssrc s) empty
  unfolding reset_source
  reset_source-IsCounted ssrc s = record {
    started = refl;
    base = refl;
    highest = refl;
    size = length-replicate 2048 (2 ^ 64 - 1);
    received = refl;
    below = tt;
    above = tt;
    distinct = tt;
    order = omega arith;
    ring = replicate-IsRing 0;
    fresh = λ e. refl;
  }

  -- Whatever packets a source sends, fewer than 2 ^ 40 of them, in whatever order: the session counts as
  -- received as many as there are distinct extended numbers in the set of those that have come in time, not
  -- before the first and less than 2048 behind the highest, and its first and its highest number are
  -- those of the set.
  pub record_all-arrive_all :
      (ssrc : ℕ) (s : Session J) (ps : List (ℕ × ℕ × ℤ))
      → All (λ p. p.0 < 2 ^ 16) ps
      → length ps < 2 ^ 40
      → let t = record_all (reset_source D ssrc s) ps in
        (t.received ≡ length (arrive_all ps).log)
        × (t.base ≡ (arrive_all ps).base)
        × (t.highest ≡ (arrive_all ps).highest)
        × Distinct (arrive_all ps).log
  record_all-arrive_all ssrc s ps h k =
      let (i, l, m) =
        record_all-IsCounted (reset_source D ssrc s) ps (reset_source-IsCounted ssrc s) h k in
      (i.received, i.base, i.highest, i.distinct)

  -- Whatever packets a source sends, fewer than 2 ^ 40 of them, in whatever order, repeated or
  -- not: those counted as received are no more than those expected, so that the loss that is reported
  -- is not cut off at 0.
  pub received-bound :
      (ssrc : ℕ) (s : Session J) (ps : List (ℕ × ℕ × ℤ))
      → All (λ p. p.0 < 2 ^ 16) ps
      → length ps < 2 ^ 40
      → let t = record_all (reset_source D ssrc s) ps in
        (t.base ≤ t.highest) × (t.highest + 1 < 2 ^ 64) × (t.received ≤ t.highest - t.base + 1)
  received-bound ssrc s ps h k =
      let (i, l, m) =
        record_all-IsCounted (reset_source D ssrc s) ps (reset_source-IsCounted ssrc s) h k in
      let a = arrive_all ps in
      (
        omega (arith, i.base, i.highest, i.order),
        omega (arith, i.highest, m, k),
        omega (
          arith,
          i.received,
          i.base,
          i.highest,
          i.order,
          length-Distinct (a.highest - a.base + 1) a.base a.highest a.log (omega (arith, i.order))
              i.below i.above i.distinct,
        ),
      )
