-- ===== src/Twcc/Extension.antt =====
-- TwccReceiver::ParseTransportSequence of shared/receiver/rtc/twcc_receiver.cpp, and a writer of the
-- one-byte header extensions that it reads.
use kmvirtualcamera.Prelude.{
  ℕ, zero, suc, ◌+◌, ◌-◌, ◌*◌, ◌/◌, ◌%◌, ◌^◌, ◌≤◌, ◌<◌, ◌≡◌, refl, ap, ap₂, ◌∙◌, false, not, ◌&&◌,
  ◌||◌, Option, none, some, List, [], ◌∷◌, ◌++◌, arith, ltb, leb, ◌==◌, if◌then◌else◌, length, take,
  drop, replicate, Bytes, byte, Bool-cases, inl, inr, All, length-append, length-replicate,
  take_append, drop_append, append_assoc, get_or-append_left, get_or-append_right,
}
use kmvirtualcamera.Wire.{be16}
use kmvirtualcamera.Twcc.{find_extension, parse_transport_sequence}

-- An element: its identifier and its data.
pub record Element : Type 0 where
  pub id : ℕ
  pub content : Bytes

abbrev pub IsElement : Element → Type 0
IsElement e = (1 ≤ e.id) × (e.id ≤ 14) × (1 ≤ length e.content) × (length e.content ≤ 16)

abbrev pub element_bytes : List Element → Bytes
element_bytes [] = []
element_bytes (e ∷ es) = (e.id * 16 + (length e.content - 1)) ∷ e.content ++ element_bytes es

-- The first element of the identifier that has two bytes at least.
abbrev pub lookup : ℕ → List Element → Option ℕ
lookup id [] = none
lookup id (e ∷ es) =
    if e.id == id && leb 2 (length e.content) then some (be16 e.content 0) else lookup id es

find_extension-padding : (id fuel z : ℕ) → z ≤ fuel → find_extension id fuel (replicate z 0) ≡ none
unfolding find_extension
find_extension-padding id zero zero h = refl
find_extension-padding id zero (suc z) h = absurd (omega arith)
find_extension-padding id (suc fuel) zero h = refl
find_extension-padding id (suc fuel) (suc z) h = find_extension-padding id fuel z (omega arith)

be16-append : (d r : Bytes) → 2 ≤ length d → be16 (d ++ r) 0 ≡ be16 d 0
be16-append d r h =
    ap₂ (λ a b. a * 2 ^ 8 + b) (get_or-append_left d r 0 0 (omega (arith, h)))
      (get_or-append_left d r 1 0 (omega (arith, h)))

find_extension-lookup :
    (id fuel z : ℕ) (es : List Element)
    → All IsElement es
    → length (element_bytes es ++ replicate z 0) ≤ fuel
    → find_extension id fuel (element_bytes es ++ replicate z 0) ≡ lookup id es
unfolding find_extension
find_extension-lookup id fuel z [] v h =
    find_extension-padding id fuel z (omega (arith, h, length-replicate {A = ℕ} z 0))
find_extension-lookup id zero z (e ∷ es) v h = absurd (omega (arith, h))
find_extension-lookup id (suc fuel) z (e ∷ es) ((a, b, c, d), v) h =
    let l = length e.content in
    let tail = element_bytes es ++ replicate z 0 in
    let first : (e.id * 16 + (l - 1) == 0) ≡ false = ground (arith, a) in
    let size : (e.id * 16 + (l - 1)) % 2 ^ 4 + 1 ≡ l = omega (arith, c, d) in
    let name : (e.id * 16 + (l - 1)) / 2 ^ 4 ≡ e.id = omega (arith, c, d) in
    let split : (e.content ++ element_bytes es) ++ replicate z 0 ≡ e.content ++ tail =
      append_assoc e.content (element_bytes es) (replicate z 0) in
    let long = length-append e.content tail in
    let guard : ((e.id == 15) || ltb (length (e.content ++ tail)) l) ≡ false =
      ground (arith, b, long) in
    rw (split, first, size, name, guard, drop_append l e.content tail refl)
      (elim (Bool-cases (e.id == id && leb 2 l)) [
        | inl q ↦ rw q (ap some (be16-append e.content tail (ground (arith, q))))
        | inr q ↦
            rw q (find_extension-lookup id fuel z es v (omega (arith, h, long, ap length split)))
      ])

-- A fixed header with its contributing sources: version 2, the extension bit, the number of sources.
abbrev pub IsHeader : Bytes → Type 0
IsHeader h =
    (length h ≡ 12 + byte h 0 % 16 * 4) × (byte h 0 / 2 ^ 6 ≡ 2) × (byte h 0 / 2 ^ 4 % 2 ≡ 1)

abbrev pub extended : Bytes → ℕ → List Element → ℕ → Bytes → Bytes
extended header words es z payload =
    (header ++ (0xBE ∷ 0xDE ∷ words / 256 ∷ words % 256 ∷ []))
    ++ ((element_bytes es ++ replicate z 0) ++ payload)

-- The sequence number found in an RTP packet with one-byte header extensions, padded to whole words, is
-- that of the first element that has the identifier, of 1 to 14, and at least two bytes, whatever
-- follows.
pub parse_transport_sequence-extended :
    (id words z : ℕ) (header payload : Bytes) (es : List Element)
    → 1 ≤ id
    → id ≤ 14
    → words < 2 ^ 16
    → IsHeader header
    → All IsElement es
    → length (element_bytes es ++ replicate z 0) ≡ words * 4
    → parse_transport_sequence (extended header words es z payload) id ≡ lookup id es
unfolding parse_transport_sequence
parse_transport_sequence-extended id words z header payload es a b w (n, g, x) v size =
    let four : Bytes = 0xBE ∷ 0xDE ∷ words / 256 ∷ words % 256 ∷ [] in
    let block = element_bytes es ++ replicate z 0 in
    let p = (header ++ four) ++ (block ++ payload) in
    let start = 12 + byte header 0 % 16 * 4 in
    let l1 = length-append header four in
    let l2 = length-append (header ++ four) (block ++ payload) in
    let l3 = length-append block payload in
    let at : (i : ℕ) → i < 4 → byte p (start + i) ≡ byte four i = λ i k.
      get_or-append_left (header ++ four) (block ++ payload) (start + i) 0 (omega (arith, l1, n, k))
      ∙ get_or-append_right header four i (start + i) 0 (omega (arith, n)) in
    let b0 : byte p 0 ≡ byte header 0 =
      get_or-append_left (header ++ four) (block ++ payload) 0 0 (omega (arith, l1))
      ∙ get_or-append_left header four 0 0 (omega (arith, n)) in
    let e0 : byte p start ≡ 0xBE = ap (byte p) (omega arith) ∙ at 0 (omega arith) in
    let e3 : byte p (start + 2 + 1) ≡ words % 256 =
      ap (byte p) (omega arith) ∙ at 3 (omega arith) in
    let value : words / 256 * 2 ^ 8 + words % 256 ≡ words = omega arith in
    let cut : take (words * 4) (drop (start + 4) p) ≡ block =
      ap (take (words * 4))
        (drop_append (start + 4) (header ++ four) (block ++ payload) (omega (arith, l1, n)))
      ∙ take_append (words * 4) block payload size in
    let guard : (ltb (length p) 12
          || id == 0
          || ltb 14 id
          || not (byte header 0 / 2 ^ 6 == 2)
          || not (byte header 0 / 2 ^ 4 % 2 == 1)
          || ltb (length p) (start + 4)
          || not (0xBE * 2 ^ 8 + 0xDE == 0xBEDE)
          || ltb (length p) (start + 4 + words * 4))
        ≡ false =
      ground (arith, a, b, g, x, l1, l2, l3, n, size) in
    rw (b0, e0, at 1 (omega arith), at 2 (omega arith), e3, value, cut, guard)
      (find_extension-lookup id (words * 4) z es v (omega (arith, size)))
