-- ===== src/RtcpSession/Arrivals.antt =====
-- What the count of received packets in shared/receiver/rtc/enhanced_rtcp_session.cpp stands for: the set
-- of the extended numbers that have arrived in time, and the ring that remembers the last of them. A number
-- before the first, or 2048 or more behind the highest, is not in the set.
use kmvirtualcamera.Prelude.{
  ℕ, zero, suc, ◌+◌, ◌-◌, ◌%◌, ◌^◌, ◌≤◌, ◌<◌, ◌≡◌, ◌≢◌, refl, sym, ap, Bool, true, false, not, ◌||◌,
  Option, none, some, List, [], ◌∷◌, arith, ltb, leb, ◌==◌, if◌then◌else◌, length, get_or, set,
  replicate, max, All, Bool-cases, Option-cases, inl, inr, get_or-set_self, get_or-set_ne,
}
use mathlib.Core.Path.{subst}
use kmvirtualcamera.Prelude.Int.{ℤ, pos, negsuc, ◌-ℤ◌}
use kmvirtualcamera.Wire.{sequence_delta}

-- What the count stands for: the extended numbers that have arrived in time, the newest first.
pub record Arrivals : Type 0 where
  pub started : Bool
  pub base : ℕ
  pub highest : ℕ
  pub log : List ℕ

abbrev pub contains : ℕ → List ℕ → Bool
contains n [] = false
contains n (m ∷ ms) = m == n || contains n ms

-- The number with these low 16 bits among the 65536 around `highest`.
unfoldable pub nearest : ℕ → ℕ → Option ℕ
nearest seq highest =
    let x = highest + 98303 - (highest + 98303 - seq) % 65536 in
    if ltb x 65536 then none else some (x - 65536)

abbrev pub empty : Arrivals
empty = record { started = false; base = 0; highest = 0; log = [] }

-- A number counts if it is new, not before the first one, and not 2048 or more behind the highest.
unfoldable pub arrive : ℕ → Arrivals → Arrivals
arrive seq a =
    if not a.started
    then record { started = true; base = seq; highest = seq; log = seq ∷ [] }
    else elim (nearest seq a.highest) [
      | none ↦ a
      | some n ↦
          if ltb n a.base || leb (n + 2048) a.highest || contains n a.log
          then a
          else record a { highest = max a.highest n; log = n ∷ a.log }
    ]

unfoldable pub arrive_all : List (ℕ × ℕ × ℤ) → Arrivals
arrive_all [] = empty
arrive_all ((seq, timestamp, now) ∷ ps) = arrive seq (arrive_all ps)

pub nearest-bound : (seq h n : ℕ) → seq < 2 ^ 16 → nearest seq h ≡ some n → n ≤ h + 32767
unfolding nearest
nearest-bound seq h n k e = ground (arith, e, k)

-- Distinct numbers from `low` on, below `high`.
abbrev pub Distinct : List ℕ → Type 0
Distinct [] = Unit {0}
Distinct (n ∷ ns) = (contains n ns ≡ false) × Distinct ns

abbrev remove : ℕ → List ℕ → List ℕ
remove n [] = []
remove n (m ∷ ms) = if m == n then remove n ms else m ∷ remove n ms

-- The distance on the circle, from the highest number on.
abbrev pub ahead : ℕ → ℕ → ℕ
ahead seq highest = (seq + 2 ^ 16 - highest % 2 ^ 16) % 2 ^ 16

pub delta_up :
    (seq h : ℕ) → ahead seq h < 32768 → sequence_delta seq (h % 2 ^ 16) ≡ pos (ahead seq h)
unfolding sequence_delta
delta_up seq h k = ground (arith, k)

pub delta_down :
    (seq h : ℕ)
    → 32768 ≤ ahead seq h
    → sequence_delta seq (h % 2 ^ 16) ≡ negsuc (65535 - ahead seq h)
unfolding sequence_delta ◌-ℤ◌
delta_down seq h k = ground (arith, k)

pub nearest_up :
    (seq h : ℕ) → seq < 2 ^ 16 → ahead seq h < 32768 → nearest seq h ≡ some (h + ahead seq h)
unfolding nearest
nearest_up seq h j k = ground (arith, j, k)

pub nearest_down :
    (seq h : ℕ)
    → seq < 2 ^ 16
    → 32768 ≤ ahead seq h
    → nearest seq h ≡ (if ltb (h + ahead seq h) 65536 then none else some (h + ahead seq h - 65536))
unfolding nearest
nearest_down seq h j k = ground (arith, j, k)

contains-absent : (n h : ℕ) (ns : List ℕ) → All (λ m. m ≤ h) ns → h < n → contains n ns ≡ false
contains-absent n h [] b k = refl
contains-absent n h (m ∷ ns) (p, b) k =
    let e : (m == n) ≡ false = ground (arith, p, k) in rw e (contains-absent n h ns b k)

pub below_grow : (h k : ℕ) (ns : List ℕ) → All (λ m. m ≤ h) ns → h ≤ k → All (λ m. m ≤ k) ns
below_grow h k [] b l = tt
below_grow h k (m ∷ ns) (p, b) l = (omega (arith, p, l), below_grow h k ns b l)

abbrev pub IsRing : List ℕ → List ℕ → ℕ → Type 0
IsRing seen log h =
    (n : ℕ) → h < n + 2048 → n < 2 ^ 64 - 1 → (get_or seen (n % 2048) 0 == n) ≡ contains n log

pub set-IsRing :
    (seen log : List ℕ) (h k n : ℕ)
    → IsRing seen log h
    → All (λ m. m ≤ h) log
    → length seen ≡ 2048
    → h ≤ k
    → n ≤ k
    → h < n + 2048
    → IsRing (set seen (n % 2048) n) (n ∷ log) k
set-IsRing seen log h k n ring below size hk nk hn m km small =
    elim (Bool-cases (m % 2048 == n % 2048)) [
      | inl t ↦
          let e : m % 2048 ≡ n % 2048 = ground (arith, t) in
          let w : get_or (set seen (m % 2048) n) (m % 2048) 0 ≡ n =
            get_or-set_self seen (m % 2048) n 0 (omega (arith, size)) in
          elim (Bool-cases (n == m)) [
            | inl u ↦ rw (sym e, w, u) refl
            | inr u ↦
                rw (sym e, w, u)
                  (sym (contains-absent m h log below (ground (arith, u, e, km, nk, hn))))
          ]
      | inr t ↦
          let ne : n % 2048 ≢ m % 2048 = λ e. ground (arith, t, e) in
          let u : (n == m) ≡ false = ground (arith, t) in
          rw (get_or-set_ne seen (n % 2048) (m % 2048) n 0 ne, u)
            (ring m (omega (arith, hk, km)) small)
    ]

get_or-replicate : (k i v : ℕ) → i < k → get_or (replicate k v) i 0 ≡ v
get_or-replicate zero i v h = absurd (omega arith)
get_or-replicate (suc k) zero v h = refl
get_or-replicate (suc k) (suc i) v h = get_or-replicate k i v (omega arith)

pub replicate-IsRing : (h : ℕ) → IsRing (replicate 2048 (2 ^ 64 - 1)) [] h
replicate-IsRing h n k small =
    rw (get_or-replicate 2048 (n % 2048) (2 ^ 64 - 1) (omega arith)) (ground (arith, small))

pub arrive-grow :
    (seq : ℕ) (a : Arrivals)
    → seq < 2 ^ 16
    → (length (arrive seq a).log ≤ length a.log + 1) × ((arrive seq a).highest ≤ a.highest + 65536)
unfolding arrive
arrive-grow seq a h = elim (Option-cases (nearest seq a.highest)) [
  | inl e ↦ (ground (arith, e, h), ground (arith, e, h))
  | inr (n, e) ↦
      let b = nearest-bound seq a.highest n h e in (ground (arith, e, h), ground (arith, e, h, b))
]

remove-absent : (n m : ℕ) (ns : List ℕ) → contains m ns ≡ false → contains m (remove n ns) ≡ false
remove-absent n m [] h = refl
remove-absent n m (k ∷ ns) h =
    let rest = remove-absent n m ns (ground (arith, h)) in ground (arith, h, rest)

remove-Distinct : (n : ℕ) (ns : List ℕ) → Distinct ns → Distinct (remove n ns)
remove-Distinct n [] d = tt
remove-Distinct n (k ∷ ns) (h, d) = elim (Bool-cases (k == n)) [
  | inl t ↦ rw t (remove-Distinct n ns d)
  | inr t ↦ rw t (remove-absent n k ns h, remove-Distinct n ns d)
]

remove-idle : (n : ℕ) (ns : List ℕ) → contains n ns ≡ false → remove n ns ≡ ns
remove-idle n [] h = refl
remove-idle n (k ∷ ns) h =
    let e : (k == n) ≡ false = ground (arith, h) in
    rw e (ap (◌∷◌ k) (remove-idle n ns (ground (arith, h))))

length-remove : (n : ℕ) (ns : List ℕ) → Distinct ns → length ns ≤ length (remove n ns) + 1
length-remove n [] d = omega arith
length-remove n (k ∷ ns) (h, d) = elim (Bool-cases (k == n)) [
  | inl t ↦
      let e : k ≡ n = ground (arith, t) in
      rw (t, remove-idle n ns (subst (λ m. contains m ns ≡ false) e h)) (omega arith)
  | inr t ↦ rw t (omega (arith, length-remove n ns d))
]

remove-All : (P : ℕ → Type 0) (n : ℕ) (ns : List ℕ) → All P ns → All P (remove n ns)
remove-All P n [] a = tt
remove-All P n (k ∷ ns) (p, a) = elim (Bool-cases (k == n)) [
  | inl t ↦ rw t (remove-All P n ns a)
  | inr t ↦ rw t (p, remove-All P n ns a)
]

-- Without the lowest number, all are higher.
remove-above :
    (low : ℕ) (ns : List ℕ) → All (λ m. low ≤ m) ns → All (λ m. suc low ≤ m) (remove low ns)
remove-above low [] a = tt
remove-above low (k ∷ ns) (p, a) = elim (Bool-cases (k == low)) [
  | inl t ↦ rw t (remove-above low ns a)
  | inr t ↦ rw t (ground (arith, t, p), remove-above low ns a)
]

-- There are no more distinct numbers than places between the lowest and the highest.
pub length-Distinct :
    (k low high : ℕ) (ns : List ℕ)
    → high + 1 ≤ low + k
    → All (λ m. m ≤ high) ns
    → All (λ m. low ≤ m) ns
    → Distinct ns
    → length ns ≤ k
length-Distinct k low high [] h below above d = omega arith
length-Distinct zero low high (n ∷ ns) h (p, below) (q, above) d = absurd (omega arith)
length-Distinct (suc k) low high (n ∷ ns) h below above d =
    let rest =
      length-Distinct k (suc low) high (remove low (n ∷ ns)) (omega (arith, h))
        (remove-All (λ m. m ≤ high) low (n ∷ ns) below) (remove-above low (n ∷ ns) above)
        (remove-Distinct low (n ∷ ns) d) in
    omega (arith, rest, length-remove low (n ∷ ns) d)
