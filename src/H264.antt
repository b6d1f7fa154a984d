-- ===== src/H264.antt =====
-- shared/km/h264.h: NAL unit framing. The C++ walks positions of one buffer; here the buffer from
-- position p on is the list, so `StartCode(b, p)` is `start_code` of that suffix, and a subspan is
-- the list of its bytes. A failed split clears the output, so its answer is an option.
pub mod Split
pub mod Avcc
mod Tests
use kmvirtualcamera.Prelude.{
  ℕ, zero, suc, ◌+◌, ◌*◌, ◌/◌, ◌%◌, ◌<◌, ◌^◌, Bool, true, false, not, ◌&&◌, ◌||◌, Option, none,
  some, List, [], ◌∷◌, ◌++◌, ltb, leb, ◌==◌, if◌then◌else◌, length, take, drop, Bytes, byte,
  test_bit, is_empty,
}

abbrev pub max_access_unit_bytes : ℕ
max_access_unit_bytes = 4 * 1024 * 1024

abbrev pub max_nalus : ℕ
max_nalus = 1024

-- The length of the start code at the front of the suffix, 0 if there is none.
unfoldable pub start_code : Bytes → ℕ
start_code b =
    if leb 3 (length b) && byte b 0 == 0 && byte b 1 == 0
    then if byte b 2 == 1
      then 3
      else if leb 4 (length b) && byte b 2 == 0 && byte b 3 == 1
      then 4
      else 0
    else 0

unfoldable pub valid_nalu : Bytes → Bool
valid_nalu n =
    not (is_empty n)
    && not (test_bit (byte n 0) 7)
    && ltb 0 (byte n 0 % 32)
    && ltb (byte n 0 % 32) 24

-- The first loop of SplitAnnexB: leading zeros up to the first start code.
unfoldable pub skip_zeros : Bytes → Bytes
skip_zeros [] = []
skip_zeros (x ∷ r) = if start_code (x ∷ r) == 0 && x == 0 then skip_zeros r else x ∷ r

-- The loop over `next`: the bytes before the next start code, and the suffix that begins there.
unfoldable pub scan : Bytes → Bytes × Bytes
scan [] = ([], [])
scan (x ∷ r) =
    let (n, rest) = scan r in if start_code (x ∷ r) == 0 then (x ∷ n, rest) else ([], x ∷ r)

-- The loop over `end`: trailing_zero_8bits come off.
unfoldable pub strip_cons : ℕ → Bytes → Bytes
strip_cons x [] = if x == 0 then [] else x ∷ []
strip_cons x (y ∷ t) = x ∷ y ∷ t

unfoldable pub strip_zeros : Bytes → Bytes
unfolding strip_cons
strip_zeros [] = []
strip_zeros (x ∷ r) = strip_cons x (strip_zeros r)

-- The outer loop. A round takes a start code at least, so the length is fuel enough.
unfoldable pub split_loop : ℕ → Bytes → List Bytes → Option (List Bytes)
split_loop fuel [] nalus = if is_empty nalus then none else some nalus
split_loop zero (x ∷ r) nalus = none
split_loop (suc fuel) (x ∷ r) nalus =
    let prefix = start_code (x ∷ r) in
    let found = scan (drop prefix (x ∷ r)) in
    let n = strip_zeros found.0 in
    let more = split_loop fuel found.1 (nalus ++ n ∷ []) in
    if prefix == 0
    then none
    else if not (valid_nalu n) || length nalus == max_nalus
    then none
    else more

unfoldable pub split_annex_b : Bytes → Option (List Bytes)
split_annex_b b =
    let start = skip_zeros b in
    if is_empty b || ltb max_access_unit_bytes (length b)
    then none
    else if start_code start == 0
    then none
    else split_loop (length start) start []

-- A big-endian uint32_t at the front.
pub length_field : Bytes → ℕ
length_field b = byte b 0 * 2 ^ 24 + byte b 1 * 2 ^ 16 + byte b 2 * 2 ^ 8 + byte b 3

-- A round takes the four bytes of a length at least.
pub split_length_loop : ℕ → Bytes → List Bytes → Option (List Bytes)
split_length_loop fuel [] nalus = if is_empty nalus then none else some nalus
split_length_loop zero (x ∷ r) nalus = none
split_length_loop (suc fuel) (x ∷ r) nalus =
    let n = length_field (x ∷ r) in
    let rest = drop 4 (x ∷ r) in
    let more = split_length_loop fuel (drop n rest) (nalus ++ take n rest ∷ []) in
    if ltb (length (x ∷ r)) 4
    then none
    else if n == 0
        || ltb (length rest) n
        || length nalus == max_nalus
        || not (valid_nalu (take n rest))
    then none
    else more

unfoldable pub split_length_prefixed4 : Bytes → Option (List Bytes)
split_length_prefixed4 b =
    if is_empty b || ltb max_access_unit_bytes (length b)
    then none
    else split_length_loop (length b) b []

unfoldable pub append_annex_b : Bytes → Bytes → Bytes
append_annex_b out n = out ++ (0 ∷ 0 ∷ 0 ∷ 1 ∷ n)

-- uint8_t(size >> 24), … of the NAL unit's size as a uint32_t.
pub length_prefix : ℕ → Bytes
length_prefix size =
    size / 2 ^ 24 % 256 ∷ size / 2 ^ 16 % 256 ∷ size / 2 ^ 8 % 256 ∷ size % 256 ∷ []

pub append_prefixed : Bytes → List Bytes → Bytes
append_prefixed out [] = out
append_prefixed out (n ∷ ns) = append_prefixed ((out ++ length_prefix (length n % 2 ^ 32)) ++ n) ns

pub annex_b_to_length_prefixed4 : Bytes → Option Bytes
annex_b_to_length_prefixed4 input = elim (split_annex_b input) [
  | none ↦ none
  | some nalus ↦ some (append_prefixed [] nalus)
]
