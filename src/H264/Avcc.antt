-- ===== src/H264/Avcc.antt =====
-- The four-byte length framing of shared/km/h264.h: SplitLengthPrefixed4, AnnexBToLengthPrefixed4.
use mathlib.Core.Option.{some-injective}
use kmvirtualcamera.Prelude.{
  sym, ℕ, zero, suc, ◌+◌, ◌%◌, ◌^◌, ◌≤◌, ◌<◌, ◌≡◌, refl, ◌∙◌, ap, true, some, List, [], ◌∷◌, ◌++◌,
  append-nil, append_assoc, arith, length, length-append, Bytes, All, take_append, drop_append,
}
use kmvirtualcamera.H264.{
  valid_nalu, split_annex_b, length_field, split_length_loop, split_length_prefixed4, length_prefix,
  append_prefixed, annex_b_to_length_prefixed4, max_nalus, max_access_unit_bytes,
}
use kmvirtualcamera.H264.Split.{IsNalu, IsSplit, EndsNonzero, split_annex_b_sound}

length_field-prefix :
    (size : ℕ) (s : Bytes) → size < 2 ^ 32 → length_field (length_prefix size ++ s) ≡ size
unfolding length_field length_prefix
length_field-prefix size s h = omega arith

-- The stream that the conversion writes.
abbrev pub prefixed : List Bytes → Bytes
prefixed [] = []
prefixed (n ∷ ns) = length_prefix (length n % 2 ^ 32) ++ (n ++ prefixed ns)

append_prefixed_lem : (ns : List Bytes) (out : Bytes) → append_prefixed out ns ≡ out ++ prefixed ns
unfolding append_prefixed
append_prefixed_lem [] out = rw append-nil
append_prefixed_lem (n ∷ ns) out =
    let p = length_prefix (length n % 2 ^ 32) in
    append_prefixed_lem ns ((out ++ p) ++ n) ∙ simp append_assoc

split_length_loop_step :
    (fuel : ℕ) (n s : Bytes) (acc : List Bytes)
    → valid_nalu n ≡ true
    → 0 < length n
    → length n < 2 ^ 32
    → length acc < max_nalus
    → split_length_loop (suc fuel) (length_prefix (length n % 2 ^ 32) ++ (n ++ s)) acc
      ≡ split_length_loop fuel s (acc ++ n ∷ [])
unfolding split_length_loop length_prefix
split_length_loop_step fuel n s acc v p l room =
    let field : length_field (length_prefix (length n % 2 ^ 32) ++ (n ++ s)) ≡ length n =
      length_field-prefix (length n % 2 ^ 32) (n ++ s) (omega arith) ∙ omega arith in
    rw (field, take_append (length n) n s refl, drop_append (length n) n s refl, v)
      (ground (arith, length-append n s))

-- What the loop needs of a NAL unit: the conversion's output has it.
abbrev Fits : Bytes → Type 0
Fits n = (valid_nalu n ≡ true) × (0 < length n) × (length n < 2 ^ 32)

split_length_loop-prefixed :
    (ns acc : List Bytes) (fuel : ℕ)
    → All Fits ns
    → 0 < length acc + length ns
    → length acc + length ns ≤ max_nalus
    → length (prefixed ns) ≤ fuel
    → split_length_loop fuel (prefixed ns) acc ≡ some (acc ++ ns)
split_length_loop-prefixed [] [] fuel h p l f = absurd (omega arith)
split_length_loop-prefixed [] (a ∷ acc) fuel h p l f = unfold split_length_loop in rw append-nil
split_length_loop-prefixed (n ∷ ns) acc zero h p l f = unfold length_prefix in absurd (omega arith)
split_length_loop-prefixed (n ∷ ns) acc (suc fuel) ((v, q, u), vs) p l f =
    let size = length-append acc (n ∷ []) in
    let all = length-append n (prefixed ns) in
    let room : length (prefixed ns) ≤ fuel = unfold length_prefix in omega (arith, all) in
    let ih =
      split_length_loop-prefixed ns (acc ++ n ∷ []) fuel vs (omega (arith, size))
        (omega (arith, size)) room in
    split_length_loop_step fuel n (prefixed ns) acc v q u (omega arith)
    ∙ ih
    ∙ ap some (append_assoc acc (n ∷ []) ns)

EndsNonzero-length : (n : Bytes) → EndsNonzero n → 0 < length n
EndsNonzero-length [] e = absurd e
EndsNonzero-length (x ∷ n) e = omega arith

Fits-of_IsNalu : (ns : List Bytes) → All IsNalu ns → length (prefixed ns) < 2 ^ 32 → All Fits ns
unfolding length_prefix
Fits-of_IsNalu [] h l = tt
Fits-of_IsNalu (n ∷ ns) (v, vs) l =
    let size = length-append n (prefixed ns) in
    (
      (v.valid, EndsNonzero-length n v.stopped, omega (arith, size)),
      Fits-of_IsNalu ns vs (omega (arith, size)),
    )

prefixed_reads :
    (ns : List Bytes)
    → IsSplit ns
    → length (prefixed ns) ≤ max_access_unit_bytes
    → split_length_prefixed4 (prefixed ns) ≡ some ns
unfolding split_length_prefixed4
prefixed_reads [] h l = absurd (omega (arith, h.some_nalu))
prefixed_reads (n ∷ ns) h l =
    let fits = Fits-of_IsNalu (n ∷ ns) h.nalus (omega arith) in
    let ih =
      split_length_loop-prefixed (n ∷ ns) [] (length (prefixed (n ∷ ns))) fits
        (omega (arith, h.some_nalu)) (omega (arith, h.bounded)) (omega arith) in
    rw ih (unfold length_prefix in ground arith)

-- The conversion succeeds wherever the Annex-B split does, with the NAL units of that split.
annex_b_to_length_prefixed4_lem :
    (b : Bytes) {ns : List Bytes}
    → split_annex_b b ≡ some ns
    → annex_b_to_length_prefixed4 b ≡ some (prefixed ns)
unfolding annex_b_to_length_prefixed4
annex_b_to_length_prefixed4_lem b {ns} e =
    rw (e, annex_b_to_length_prefixed4) (ap some (append_prefixed_lem ns []))

-- A buffer that splits as Annex-B converts to the length framing, and unless its four-byte lengths
-- push the output over 4 MiB, the output splits into the very NAL units of the input.
pub split_length_prefixed4-annex_b_to_length_prefixed4 :
    (b : Bytes) {ns : List Bytes} {out : Bytes}
    → split_annex_b b ≡ some ns
    → annex_b_to_length_prefixed4 b ≡ some out
    → length out ≤ max_access_unit_bytes
    → split_length_prefixed4 out ≡ some ns
split_length_prefixed4-annex_b_to_length_prefixed4 b {ns} {out} e o l =
    let same : prefixed ns ≡ out =
      some-injective _ _ (sym (annex_b_to_length_prefixed4_lem b e) ∙ o) in
    rw (← same) (prefixed_reads ns (split_annex_b_sound b e) (rw same l))
