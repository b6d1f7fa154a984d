-- ===== src/H264/Split.antt =====
-- SplitAnnexB of shared/km/h264.h against the Annex-B byte stream format.
use kmvirtualcamera.Prelude.{
  ℕ, zero, suc, ◌+◌, ◌≤◌, ◌<◌, ◌≡◌, refl, ap, ◌≢◌, ◌⊎◌, inl, inr, true, false, some, List, [], ◌∷◌,
  ◌++◌, append-nil, append_assoc, arith, ◌==◌, length, length-append, drop, All-append, Bytes, All,
  Bool-cases,
}
use mathlib.Core.Path.{subst}
use mathlib.Core.Option.{some-injective}
use kmvirtualcamera.H264.{
  start_code, valid_nalu, skip_zeros, scan, strip_cons, strip_zeros, split_loop, split_annex_b,
  max_nalus, max_access_unit_bytes,
}

-- No suffix of the bytes begins with a start code (emulation prevention).
abbrev pub NoStartCode : Bytes → Type 0
NoStartCode [] = Unit {0}
NoStartCode (x ∷ r) = (start_code (x ∷ r) ≡ 0) × NoStartCode r

-- There is a last byte, and it is not zero (the stop bit of an RBSP).
abbrev pub EndsNonzero : Bytes → Type 0
EndsNonzero [] = ⊥
EndsNonzero (x ∷ []) = x ≢ 0
EndsNonzero (x ∷ y ∷ r) = EndsNonzero (y ∷ r)

-- A NAL unit as an encoder writes it.
pub record IsNalu (n : Bytes) : Type 0 where
  pub valid : valid_nalu n ≡ true
  pub escaped : NoStartCode n
  pub stopped : EndsNonzero n

start_code-prefix : (u s : Bytes) → start_code (u ++ s) ≡ 0 → start_code u ≡ 0
unfolding start_code
start_code-prefix [] s h = refl
start_code-prefix (a ∷ []) s h = refl
start_code-prefix (a ∷ b ∷ []) s h = refl
start_code-prefix (a ∷ b ∷ c ∷ []) s h = ground arith
start_code-prefix (a ∷ b ∷ c ∷ d ∷ u) s h = ground arith

start_code-append : (u s : Bytes) → EndsNonzero u → start_code u ≡ 0 → start_code (u ++ s) ≡ 0
unfolding start_code
start_code-append [] s e h = absurd e
start_code-append (a ∷ []) s e h = ground arith
start_code-append (a ∷ b ∷ []) s e h = ground arith
start_code-append (a ∷ b ∷ c ∷ []) s e h = ground arith
start_code-append (a ∷ b ∷ c ∷ d ∷ u) s e h = ground arith

-- Nothing, or a suffix that a start code opens.
abbrev AtBoundary : Bytes → Type 0
AtBoundary s = (s ≡ []) ⊎ (start_code s ≢ 0)

scan_split : (b : Bytes) → ((scan b).0 ++ (scan b).1 ≡ b) × AtBoundary (scan b).1
unfolding scan
scan_split [] = (refl, inl refl)
scan_split (x ∷ r) = ground (arith, scan_split r)

scan-NoStartCode : (b : Bytes) → NoStartCode (scan b).0
unfolding scan
scan-NoStartCode [] = tt
scan-NoStartCode (x ∷ r) =
    ground (arith, scan-NoStartCode r, scan_split r, start_code-prefix (x ∷ (scan r).0) (scan r).1)

strip_cons-shape :
    (x : ℕ) (t : Bytes)
    → (t ≡ []) ⊎ EndsNonzero t
    → (strip_cons x t ≡ []) ⊎ EndsNonzero (strip_cons x t)
unfolding strip_cons
strip_cons-shape x [] h = ground arith
strip_cons-shape x (y ∷ t) (inl e) = cc
strip_cons-shape x (y ∷ t) (inr e) = inr e

strip_zeros-shape : (b : Bytes) → (strip_zeros b ≡ []) ⊎ EndsNonzero (strip_zeros b)
unfolding strip_zeros
strip_zeros-shape [] = inl refl
strip_zeros-shape (x ∷ r) = strip_cons-shape x (strip_zeros r) (strip_zeros-shape r)

-- What comes off are bytes at the end.
strip_zeros-prefix : (b : Bytes) → (zs : Bytes) × (strip_zeros b ++ zs ≡ b)
unfolding strip_zeros
strip_zeros-prefix [] = ([], refl)
strip_zeros-prefix (x ∷ r) = go (strip_zeros r) (strip_zeros-prefix r)
  where
    go : (t : Bytes) → (zs : Bytes) × (t ++ zs ≡ r) → (zs : Bytes) × (strip_cons x t ++ zs ≡ x ∷ r)
    go [] (zs, e) = elim (Bool-cases (x == 0)) [ inl z ↦ (x ∷ r, rw z) | inr z ↦ (zs, rw (z, e)) ]
    go (y ∷ t) (zs, e) = (zs, ap (◌∷◌ x) e)

strip_cons-NoStartCode :
    (x : ℕ) (t zs : Bytes)
    → start_code (x ∷ (t ++ zs)) ≡ 0
    → NoStartCode t
    → NoStartCode (strip_cons x t)
unfolding strip_cons
strip_cons-NoStartCode x [] zs h k = ground (arith, start_code-prefix (x ∷ []) zs)
strip_cons-NoStartCode x (y ∷ t) zs h k = (start_code-prefix (x ∷ y ∷ t) zs h, k)

strip_zeros-NoStartCode : (b : Bytes) → NoStartCode b → NoStartCode (strip_zeros b)
unfolding strip_zeros
strip_zeros-NoStartCode [] h = tt
strip_zeros-NoStartCode (x ∷ r) h =
    let (zs, e) = strip_zeros-prefix r in
    strip_cons-NoStartCode x (strip_zeros r) zs (rw e h.0) (strip_zeros-NoStartCode r h.1)

strip_zeros_self : (b : Bytes) → EndsNonzero b → strip_zeros b ≡ b
unfolding strip_zeros
strip_zeros_self [] e = absurd e
strip_zeros_self (x ∷ []) e = ground arith
strip_zeros_self (x ∷ y ∷ r) e = ground (arith, strip_zeros_self (y ∷ r) e)

scan_boundary : (s : Bytes) → AtBoundary s → scan s ≡ ([], s)
unfolding scan
scan_boundary [] h = refl
scan_boundary (x ∷ r) h = ground arith

-- A NAL unit in front of a boundary is found whole.
scan-append : (n s : Bytes) → NoStartCode n → EndsNonzero n → AtBoundary s → scan (n ++ s) ≡ (n, s)
unfolding scan
scan-append [] s c e h = absurd e
scan-append (x ∷ []) s c e h = ground (arith, scan_boundary s h, start_code-append (x ∷ []) s e)
scan-append (x ∷ y ∷ n) s c e h =
    ground (arith, scan-append (y ∷ n) s c.1 e h, start_code-append (x ∷ y ∷ n) s e)

not-valid_nalu-nil : valid_nalu [] ≡ false
unfolding valid_nalu
not-valid_nalu-nil = refl

IsNalu-of_shape :
    (n : Bytes) → valid_nalu n ≡ true → NoStartCode n → (n ≡ []) ⊎ EndsNonzero n → IsNalu n
IsNalu-of_shape n v c (inl e) = cc (ap valid_nalu e, not-valid_nalu-nil)
IsNalu-of_shape n v c (inr e) = record { valid = v; escaped = c; stopped = e }

found-IsNalu :
    (b : Bytes) → valid_nalu (strip_zeros (scan b).0) ≡ true → IsNalu (strip_zeros (scan b).0)
found-IsNalu b v =
    IsNalu-of_shape (strip_zeros (scan b).0) v
      (strip_zeros-NoStartCode (scan b).0 (scan-NoStartCode b)) (strip_zeros-shape (scan b).0)

-- What a successful split gives.
pub record IsSplit (ns : List Bytes) : Type 0 where
  pub nalus : All IsNalu ns
  pub some_nalu : 0 < length ns
  pub bounded : length ns ≤ max_nalus

split_loop_end :
    (fuel : ℕ) (acc : List Bytes) {ns : List Bytes}
    → All IsNalu acc
    → length acc ≤ max_nalus
    → split_loop fuel [] acc ≡ some ns
    → IsSplit ns
unfolding split_loop
split_loop_end fuel [] h l e = cc
split_loop_end fuel (n ∷ acc) h l e =
    subst IsSplit (some-injective _ _ e)
      (record { nalus = h; some_nalu = omega arith; bounded = l })

-- A round that goes on, taken apart.
split_loop_round :
    (fuel x : ℕ) (r : Bytes) (acc : List Bytes) {ns : List Bytes}
    → split_loop (suc fuel) (x ∷ r) acc ≡ some ns
    → let found = scan (drop (start_code (x ∷ r)) (x ∷ r)) in
      (valid_nalu (strip_zeros found.0) ≡ true)
      × (length acc ≢ max_nalus)
      × (split_loop fuel found.1 (acc ++ strip_zeros found.0 ∷ []) ≡ some ns)
unfolding split_loop
split_loop_round fuel x r acc e = ground arith

split_loop_sound :
    (fuel : ℕ) (b : Bytes) (acc : List Bytes) {ns : List Bytes}
    → All IsNalu acc
    → length acc ≤ max_nalus
    → split_loop fuel b acc ≡ some ns
    → IsSplit ns
split_loop_sound fuel [] acc h l e = split_loop_end fuel acc h l e
split_loop_sound zero (x ∷ r) acc h l e = unfold split_loop in cc
split_loop_sound (suc fuel) (x ∷ r) acc h l e =
    let rest = drop (start_code (x ∷ r)) (x ∷ r) in
    let n = strip_zeros (scan rest).0 in
    let (v, room, more) = split_loop_round fuel x r acc e in
    split_loop_sound fuel (scan rest).1 (acc ++ n ∷ [])
      (All-append IsNalu acc (n ∷ []) h (found-IsNalu rest v, tt))
      (omega (arith, length-append acc (n ∷ []))) more

-- Whatever bytes arrive, the NAL units of a successful split are 1 to 1024, and each is valid,
-- holds no start code, and does not end in a zero byte.
pub split_annex_b_sound : (b : Bytes) {ns : List Bytes} → split_annex_b b ≡ some ns → IsSplit ns
unfolding split_annex_b
split_annex_b_sound b e =
    let start = skip_zeros b in
    split_loop_sound (length start) start [] tt (omega arith) (ground arith)

-- The stream that AppendAnnexB writes for the NAL units in turn.
abbrev pub annex_b : List Bytes → Bytes
annex_b [] = []
annex_b (n ∷ ns) = 0 ∷ 0 ∷ 0 ∷ 1 ∷ (n ++ annex_b ns)

start_code_four : (s : Bytes) → start_code (0 ∷ 0 ∷ 0 ∷ 1 ∷ s) ≡ 4
unfolding start_code
start_code_four s = ground arith

annex_b-boundary : (ns : List Bytes) → AtBoundary (annex_b ns)
annex_b-boundary [] = inl refl
annex_b-boundary (n ∷ ns) = inr (λ e. omega (arith, start_code_four (n ++ annex_b ns)))

split_loop-annex_b :
    (ns acc : List Bytes) (fuel : ℕ)
    → All IsNalu ns
    → 0 < length acc + length ns
    → length acc + length ns ≤ max_nalus
    → length (annex_b ns) ≤ fuel
    → split_loop fuel (annex_b ns) acc ≡ some (acc ++ ns)
unfolding split_loop
split_loop-annex_b [] [] fuel h p l f = absurd (omega arith)
split_loop-annex_b [] (a ∷ acc) fuel h p l f = rw append-nil
split_loop-annex_b (n ∷ ns) acc zero h p l f = absurd (omega arith)
split_loop-annex_b (n ∷ ns) acc (suc fuel) (v, vs) p l f =
    let found = scan-append n (annex_b ns) v.escaped v.stopped (annex_b-boundary ns) in
    let own = strip_zeros_self n v.stopped in
    let size = length-append acc (n ∷ []) in
    let all = length-append n (annex_b ns) in
    let ih =
      split_loop-annex_b ns (acc ++ n ∷ []) fuel vs (omega (arith, size)) (omega (arith, size))
        (omega (arith, all)) in
    rw (start_code_four (n ++ annex_b ns), found, own, v.valid, ih)
      (ground (arith, append_assoc acc (n ∷ []) ns))

skip_zeros_start : (n s : Bytes) → skip_zeros (0 ∷ 0 ∷ 0 ∷ 1 ∷ (n ++ s)) ≡ 0 ∷ 0 ∷ 0 ∷ 1 ∷ (n ++ s)
unfolding skip_zeros
skip_zeros_start n s = ground (arith, start_code_four (n ++ s))

-- Annex-B framing loses nothing: up to 1024 well-formed NAL units, in a stream of at most 4 MiB,
-- come back from the split as they were, in order.
pub split_annex_b-annex_b :
    (ns : List Bytes)
    → All IsNalu ns
    → 0 < length ns
    → length ns ≤ max_nalus
    → length (annex_b ns) ≤ max_access_unit_bytes
    → split_annex_b (annex_b ns) ≡ some ns
unfolding split_annex_b
split_annex_b-annex_b [] h p l f = absurd (omega arith)
split_annex_b-annex_b (n ∷ ns) h p l f =
    let ih =
      split_loop-annex_b (n ∷ ns) [] (length (annex_b (n ∷ ns))) h (omega arith) (omega arith)
        (omega arith) in
    let four = start_code_four (n ++ annex_b ns) in
    rw (skip_zeros_start n (annex_b ns), four, ih) (ground arith)
