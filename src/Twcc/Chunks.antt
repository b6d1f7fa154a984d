-- ===== src/Twcc/Chunks.antt =====
-- The packet chunks of a feedback packet, and a reader of them by the draft's description.
use kmvirtualcamera.Prelude.{
  ℕ, zero, suc, ◌+◌, ◌-◌, ◌*◌, ◌/◌, ◌%◌, ◌^◌, ◌≤◌, ◌<◌, ◌≡◌, refl, sym, ap, ap₂, ◌∙◌, true, false,
  List, [], ◌∷◌, ◌++◌, arith, ltb, leb, ◌==◌, if◌then◌else◌, length, take, drop, replicate, min,
  Bytes, Bool-cases, inl, inr, All, length-drop, length-replicate, ==_iff,
}
use native.Mathlib.Nat.{
  one-le-pow, pow-suc, mul-le-mul_right, mul-add-div_right, mul-add-mod_self_right, div-eq_of_lt,
  mod-eq_of_lt,
}
use kmvirtualcamera.Wire.{be16}
use kmvirtualcamera.Twcc.{
  Status, run_length, run_from, covered, next_chunk, pack, encode, chunk_bytes, delta_bytes, to_u16,
}

-- The symbols of a status vector chunk of two-bit symbols, from the highest on.
unfoldable pub unpack : ℕ → ℕ → List ℕ
unpack zero v = []
unpack (suc n) v = v / 4 ^ n ∷ unpack n (v % 4 ^ n)

-- A run-length chunk has its highest bit clear.
unfoldable pub symbols : ℕ → List ℕ
symbols c = if ltb c 32768 then replicate (c % 8192) (c / 8192) else unpack 7 (c % 16384)

-- Chunks are read until there is a symbol for each packet; what is left are the deltas.
unfoldable pub read_chunks : ℕ → ℕ → Bytes → List ℕ × Bytes
read_chunks zero count b = ([], b)
read_chunks (suc fuel) zero b = ([], b)
read_chunks (suc fuel) (suc n) b =
    let s = symbols (be16 b 0) in
    let (more, rest) = read_chunks fuel (suc n - length s) (drop 2 b) in
    (take (suc n) s ++ more, rest)

abbrev pub status_symbols : List Status → List ℕ
status_symbols [] = []
status_symbols (s ∷ ss) = s.status ∷ status_symbols ss

abbrev pub IsSymbol : Status → Type 0
IsSymbol s = s.status < 3

pow-pos : (n : ℕ) → 0 < 4 ^ n
pow-pos n = one-le-pow n 4 (omega arith)

run_length-le : (s bound : ℕ) (ss : List Status) → run_length s bound ss ≤ min bound (length ss)
unfolding run_length
run_length-le s zero ss = omega arith
run_length-le s (suc bound) [] = omega arith
run_length-le s (suc bound) (x ∷ ss) = ground (arith, run_length-le s bound ss)

take-run_length :
    (s bound : ℕ) (ss : List Status)
    → status_symbols (take (run_length s bound ss) ss) ≡ replicate (run_length s bound ss) s
unfolding run_length
take-run_length s zero ss = refl
take-run_length s (suc bound) [] = refl
take-run_length s (suc bound) (x ∷ ss) = elim (Bool-cases (x.status == s)) [
  | inl e ↦ rw e (ap₂ ◌∷◌ ((==_iff x.status s).0 e) (take-run_length s bound ss))
  | inr e ↦ rw e refl
]

pack_bound : (n : ℕ) (ss : List Status) → pack n ss < 4 ^ n
unfolding pack
pack_bound zero ss = omega arith
pack_bound (suc n) [] = one-le-pow (suc n) 4 (omega arith)
pack_bound (suc n) (s ∷ ss) =
    let digit : s.status % 4 ≤ 3 = omega arith in
    omega (arith, pack_bound n ss, pow-suc 4 n, mul-le-mul_right (4 ^ n) digit)

-- A vector chunk has room for the symbols; those past the last status are 0.
take-unpack-pack :
    (n : ℕ) (ss : List Status)
    → All IsSymbol ss
    → take (length ss) (unpack n (pack n ss)) ≡ status_symbols (take n ss)
unfolding pack unpack
take-unpack-pack zero [] v = refl
take-unpack-pack zero (s ∷ ss) v = refl
take-unpack-pack (suc n) [] v = refl
take-unpack-pack (suc n) (s ∷ ss) (h, v) =
    let low : s.status % 4 ≡ s.status = omega (arith, h) in
    rw
      (
        low,
        mul-add-div_right (pow-pos n) s.status (pack n ss),
        div-eq_of_lt (pack_bound n ss),
        mul-add-mod_self_right s.status (4 ^ n) (pack n ss),
        mod-eq_of_lt (pack_bound n ss),
        take-unpack-pack n ss v,
      )
      (ap (λ k. k ∷ status_symbols (take n ss)) (omega arith))

covered_bounds : (s : Status) (ss : List Status) → 7 ≤ covered s ss × covered s ss < 8192
unfolding covered run_from
covered_bounds s ss = ground (arith, run_length-le s.status 8190 ss)

length-unpack : (n v : ℕ) → length (unpack n v) ≡ n
unfolding unpack
length-unpack zero v = refl
length-unpack (suc n) v = ap suc (length-unpack n (v % 4 ^ n))

take-replicate : (n k a : ℕ) → k ≤ n → take n (replicate k a) ≡ replicate k a
take-replicate zero zero a h = refl
take-replicate zero (suc k) a h = absurd (omega arith)
take-replicate (suc n) zero a h = refl
take-replicate (suc n) (suc k) a h = ap (◌∷◌ a) (take-replicate n k a (omega arith))

pub next_chunk_lem :
    (s : Status) (ss : List Status)
    → All IsSymbol (s ∷ ss)
    → (next_chunk s ss < 65536)
      × (length (symbols (next_chunk s ss)) ≡ covered s ss)
      × (take (suc (length ss)) (symbols (next_chunk s ss))
          ≡ status_symbols (take (covered s ss) (s ∷ ss)))
unfolding next_chunk covered run_from symbols
next_chunk_lem s ss (h, v) =
    let le = run_length-le s.status 8190 ss in
    elim (Bool-cases (leb 7 (1 + run_length s.status 8190 ss))) [
      | inl e ↦
          let c = s.status * 2 ^ 13 + (1 + run_length s.status 8190 ss) % 8192 in
          let low : ltb c 32768 ≡ true = ground (arith, h, le) in
          let n : c % 8192 ≡ suc (run_length s.status 8190 ss) = omega (arith, h, le) in
          let d : c / 8192 ≡ s.status = omega (arith, h, le) in
          let one : 1 + run_length s.status 8190 ss ≡ suc (run_length s.status 8190 ss) =
            omega arith in
          rw (e, low, n, d, one)
            (
              omega (arith, h, le),
              length-replicate (suc (run_length s.status 8190 ss)) s.status,
              ap (◌∷◌ s.status) (
                  take-replicate (length ss) (run_length s.status 8190 ss) s.status
                    (omega (arith, le))
                  ∙ sym (take-run_length s.status 8190 ss)),
            )
      | inr e ↦
          let b = pack_bound 7 (s ∷ ss) in
          let high : ltb (0xC000 + pack 7 (s ∷ ss)) 32768 ≡ false = ground arith in
          let low : (0xC000 + pack 7 (s ∷ ss)) % 16384 ≡ pack 7 (s ∷ ss) = omega (arith, b) in
          rw (e, high, low)
            (
              omega (arith, b),
              length-unpack 7 (pack 7 (s ∷ ss)),
              take-unpack-pack 7 (s ∷ ss) (h, v),
            )
    ]

All-drop : (n : ℕ) (ss : List Status) → All IsSymbol ss → All IsSymbol (drop n ss)
All-drop zero ss v = v
All-drop (suc n) [] v = v
All-drop (suc n) (s ∷ ss) (h, v) = All-drop n ss v

status_symbols-take-drop :
    (n : ℕ) (ss : List Status)
    → status_symbols (take n ss) ++ status_symbols (drop n ss) ≡ status_symbols ss
status_symbols-take-drop zero ss = refl
status_symbols-take-drop (suc n) [] = refl
status_symbols-take-drop (suc n) (s ∷ ss) = ap (◌∷◌ s.status) (status_symbols-take-drop n ss)

pub read_chunks-encode :
    (fuel : ℕ) (ss : List Status) (rest : Bytes)
    → All IsSymbol ss
    → length ss ≤ fuel
    → read_chunks fuel (length ss) (chunk_bytes (encode fuel ss).0 ++ rest)
      ≡ (status_symbols ss, rest)
unfolding read_chunks encode chunk_bytes
read_chunks-encode zero [] rest v h = refl
read_chunks-encode zero (s ∷ ss) rest v h = absurd (omega arith)
read_chunks-encode (suc fuel) [] rest v h = refl
read_chunks-encode (suc fuel) (s ∷ ss) rest v h =
    let (small, wide, head) = next_chunk_lem s ss v in
    let c = covered s ss in
    let left = drop c (s ∷ ss) in
    let value : next_chunk s ss / 2 ^ 8 * 256 + next_chunk s ss % 256 ≡ next_chunk s ss =
      omega (arith, small) in
    let size : suc (length ss) - c ≡ length left = omega (arith, length-drop c (s ∷ ss)) in
    rw (value, wide, size)
      (rw
        (
          read_chunks-encode fuel left rest (All-drop c (s ∷ ss) v)
              (omega (arith, length-drop c (s ∷ ss), covered_bounds s ss, h)),
          head,
        )
        (ap (λ x. (x, rest)) (status_symbols-take-drop c (s ∷ ss))))

delta_bytes-take-drop :
    (n : ℕ) (ss : List Status) → delta_bytes (take n ss) ++ delta_bytes (drop n ss) ≡ delta_bytes ss
unfolding delta_bytes
delta_bytes-take-drop zero ss = refl
delta_bytes-take-drop (suc n) [] = refl
delta_bytes-take-drop (suc n) (s ∷ ss) = elim (Bool-cases (s.status == 1)) [
  | inl e ↦ rw e (ap (◌∷◌ (to_u16 s.units % 256)) (delta_bytes-take-drop n ss))
  | inr e ↦ elim (Bool-cases (s.status == 2)) [
    | inl g ↦
        rw (e, g)
          (ap (λ b. to_u16 s.units / 256 ∷ to_u16 s.units % 256 ∷ b) (delta_bytes-take-drop n ss))
    | inr g ↦ rw (e, g) (delta_bytes-take-drop n ss)
  ]
]

pub encode-deltas :
    (fuel : ℕ) (ss : List Status) → length ss ≤ fuel → (encode fuel ss).1 ≡ delta_bytes ss
unfolding encode delta_bytes
encode-deltas zero [] h = refl
encode-deltas zero (s ∷ ss) h = absurd (omega arith)
encode-deltas (suc fuel) [] h = refl
encode-deltas (suc fuel) (s ∷ ss) h =
    let c = covered s ss in
    ap (◌++◌ (delta_bytes (take c (s ∷ ss)))) (
      encode-deltas fuel (drop c (s ∷ ss))
        (omega (arith, length-drop c (s ∷ ss), covered_bounds s ss, h)))
    ∙ delta_bytes-take-drop c (s ∷ ss)
