-- ===== src/Twcc/Deltas.antt =====
-- The statuses of a feedback packet and their deltas, and a reader of these by the draft's description.
use kmvirtualcamera.Prelude.{
  ℕ, zero, suc, ◌+◌, ◌-◌, ◌*◌, ◌/◌, ◌%◌, ◌^◌, ◌≤◌, ◌<◌, ◌≡◌, ◌⊎◌, refl, sym, ap, ap₂, true, false,
  Option, none, some, List, [], ◌∷◌, ◌++◌, arith, ltb, ◌==◌, if◌then◌else◌, length, drop, Bytes,
  byte, Bool-cases, inl, inr, All, get_or, ==_iff,
}
use kmvirtualcamera.Prelude.Int.{ℤ, pos, negsuc, pos_part, neg_part}
use kmvirtualcamera.Wire.{be16}
use kmvirtualcamera.Twcc.{
  Arrival, Status, ring_size, no_arrival, clamp16, status_of, collect, delta_bytes, to_u16,
}
use kmvirtualcamera.Twcc.Chunks.{IsSymbol, status_symbols}

-- Nothing for a missing packet, a byte for a small delta, a signed 16-bit number for a large one.
abbrev pub Fits : Status → Type 0
Fits s =
    ((s.status ≡ 0) × (pos_part s.units + neg_part s.units ≡ 0))
    ⊎ (((s.status ≡ 1) × (neg_part s.units ≡ 0) × (pos_part s.units < 256))
        ⊎ ((s.status ≡ 2) × (pos_part s.units < 32768) × (neg_part s.units ≤ 32768)))

unfoldable pub signed16 : ℕ → ℤ
signed16 v = if ltb v 32768 then pos v else negsuc (65535 - v)

unfoldable pub read_deltas : List ℕ → Bytes → List Status
read_deltas [] b = []
read_deltas (k ∷ ks) b =
    let small = read_deltas ks (drop 1 b) in
    let large = read_deltas ks (drop 2 b) in
    let missing = read_deltas ks b in
    if k == 1
    then record { status = 1; units = pos (byte b 0) } ∷ small
    else if k == 2
    then record { status = 2; units = signed16 (be16 b 0) } ∷ large
    else record { status = k; units = pos 0 } ∷ missing

signed16-to_u16 :
    (u : ℤ)
    → pos_part u < 32768
    → neg_part u ≤ 32768
    → signed16 (to_u16 u / 256 * 2 ^ 8 + to_u16 u % 256) ≡ u
unfolding signed16 to_u16
signed16-to_u16 (pos n) h k =
    let e : n % 2 ^ 16 / 256 * 2 ^ 8 + n % 2 ^ 16 % 256 ≡ n = omega (arith, h) in
    let l : ltb n 32768 ≡ true = ground (arith, h) in rw (e, l) refl
signed16-to_u16 (negsuc n) h k =
    let w = 2 ^ 16 - 1 - n % 2 ^ 16 in
    let e : w / 256 * 2 ^ 8 + w % 256 ≡ w = omega arith in
    let l : ltb w 32768 ≡ false = ground (arith, k) in
    let r : 65535 - w ≡ n = omega (arith, k) in rw (e, l, r) refl

small_pos : (u : ℤ) → neg_part u ≡ 0 → pos_part u < 256 → pos (to_u16 u % 256) ≡ u
unfolding to_u16
small_pos (pos n) h k = ap pos (omega (arith, k))
small_pos (negsuc n) h k = absurd (omega (arith, h))

pub read_deltas-delta_bytes :
    (ss : List Status) (rest : Bytes)
    → All Fits ss
    → read_deltas (status_symbols ss) (delta_bytes ss ++ rest) ≡ ss
unfolding read_deltas delta_bytes
read_deltas-delta_bytes [] rest v = refl
read_deltas-delta_bytes (s ∷ ss) rest (h, v) = elim (Bool-cases (s.status == 1)) [
  | inl e ↦ rw e (
      ap₂ ◌∷◌
        (ap₂ (λ k u. record { status = k; units = u }) (sym ((==_iff s.status 1).0 e))
          (small_pos s.units (ground (arith, e, h)) (ground (arith, e, h))))
        (read_deltas-delta_bytes ss rest v))
  | inr e ↦ elim (Bool-cases (s.status == 2)) [
    | inl g ↦
        rw (e, g)
          (ap₂ ◌∷◌
            (ap₂ (λ k u. record { status = k; units = u }) (sym ((==_iff s.status 2).0 g))
              (signed16-to_u16 s.units (ground (arith, g, h)) (ground (arith, g, h))))
            (read_deltas-delta_bytes ss rest v))
    | inr g ↦
        rw (e, g)
          (ap₂ ◌∷◌
            (ap (λ u. record { status = s.status; units = u })
              (no_delta s.units (ground (arith, e, g, h))))
            (read_deltas-delta_bytes ss rest v))
  ]
]
  where
    no_delta : (u : ℤ) → pos_part u + neg_part u ≡ 0 → pos 0 ≡ u
    no_delta (pos n) h = ap pos (omega (arith, h))
    no_delta (negsuc n) h = absurd (omega (arith, h))

status_of-Fits : (u : ℤ) → Fits (status_of u)
unfolding status_of clamp16
status_of-Fits (pos n) = ground arith
status_of-Fits (negsuc n) = ground arith

pub Fits-IsSymbol : (ss : List Status) → All Fits ss → All IsSymbol ss
Fits-IsSymbol [] v = v
Fits-IsSymbol (s ∷ ss) (h, v) = (ground (arith, h), Fits-IsSymbol ss v)

pub collect-Fits :
    (n seq : ℕ) (records : List Arrival) (known : Option (ℤ × ℤ))
    → All Fits (collect n seq records known).0
unfolding collect
collect-Fits zero seq records known = _
collect-Fits (suc n) seq records none =
    elim (Bool-cases (get_or records (seq % ring_size) no_arrival).received) [
      | inl e ↦ rw e (status_of-Fits _, collect-Fits n ((seq + 1) % 2 ^ 16) records (some _))
      | inr e ↦ rw e (inl (refl, refl), collect-Fits n ((seq + 1) % 2 ^ 16) records none)
    ]
collect-Fits (suc n) seq records (some (r, previous)) =
    elim (Bool-cases (get_or records (seq % ring_size) no_arrival).received) [
      | inl e ↦ rw e (status_of-Fits _, collect-Fits n ((seq + 1) % 2 ^ 16) records (some _))
      | inr e ↦
          rw e (inl (refl, refl), collect-Fits n ((seq + 1) % 2 ^ 16) records (some (r, previous)))
    ]

pub length-collect :
    (n seq : ℕ) (records : List Arrival) (known : Option (ℤ × ℤ))
    → length (collect n seq records known).0 ≡ n
unfolding collect
length-collect zero seq records known = refl
length-collect (suc n) seq records known = ap suc (length-collect n ((seq + 1) % 2 ^ 16) records _)
