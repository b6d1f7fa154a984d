-- ===== src/FramePipe/Layout.antt =====
-- The bytes of the frame header of windows/common/frame_pipe_protocol.h, copied out of the struct and back
-- into it.
use kmvirtualcamera.Prelude.{
  ℕ, zero, suc, ◌+◌, ◌*◌, ◌/◌, ◌%◌, ◌^◌, ◌≤◌, ◌<◌, ◌≡◌, refl, sym, ap, ◌∙◌, [], ◌∷◌, ◌++◌, arith,
  length, take, drop, Bytes, take_append, drop_append, length-append, append_assoc,
  take-append-drop, All,
}
use native.Mathlib.Nat.{pow-suc}
use kmvirtualcamera.FramePipe.{FrameHeader, le, from_le, field_bytes, serialize_header, copy_header}

from_le-le : (n v : ℕ) (b : Bytes) → v < 256 ^ n → from_le n (le n v ++ b) ≡ v
from_le-le zero v b h = omega (arith, h)
from_le-le (suc n) v b h =
    let small : v / 256 < 256 ^ n = omega (arith, h, pow-suc 256 n) in
    ap (λ k. v % 256 + 256 * k) (from_le-le n (v / 256) b small) ∙ omega arith

field :
    (n o v : ℕ) {r s : Bytes}
    → r ≡ s
    → drop o s ≡ le n v ++ drop (o + n) s
    → v < 256 ^ n
    → from_le n (drop o r) ≡ v
field n o v {s = s} e at h =
    ap (λ r. from_le n (drop o r)) e ∙ ap (from_le n) at ∙ from_le-le n v (drop (o + n) s) h

-- Each field in its width.
pub record IsPacked (h : FrameHeader) : Type 0 where
  pub magic : length h.magic ≡ 8
  pub version : h.version < 2 ^ 16
  pub header_size : h.header_size < 2 ^ 16
  pub flags : h.flags < 2 ^ 32
  pub sequence : h.sequence < 2 ^ 64
  pub capture_time_us : h.capture_time_us < 2 ^ 64
  pub width : h.width < 2 ^ 32
  pub height : h.height < 2 ^ 32
  pub fourcc : h.fourcc < 2 ^ 32
  pub stride_y : h.stride_y < 2 ^ 32
  pub stride_uv : h.stride_uv < 2 ^ 32
  pub payload_bytes : h.payload_bytes < 2 ^ 32
  pub header_crc32 : h.header_crc32 < 2 ^ 32
  pub payload_crc32 : h.payload_crc32 < 2 ^ 32

pub copy_header-serialize_header :
    (h : FrameHeader) (b : Bytes) → IsPacked h → copy_header (serialize_header h ++ b) ≡ h
unfolding copy_header serialize_header field_bytes
copy_header-serialize_header h b p =
    let split : (h.magic ++ field_bytes h) ++ b ≡ h.magic ++ (field_bytes h ++ b) =
      append_assoc h.magic (field_bytes h) b in
    let first = ap (take 8) split ∙ take_append 8 h.magic (field_bytes h ++ b) p.magic in
    let rest : drop 8 ((h.magic ++ field_bytes h) ++ b) ≡ field_bytes h ++ b =
      ap (drop 8) split ∙ drop_append 8 h.magic (field_bytes h ++ b) p.magic in
    λ i. record {
      magic = first i;
      version = field 2 0 h.version rest refl p.version i;
      header_size = field 2 2 h.header_size rest refl p.header_size i;
      flags = field 4 4 h.flags rest refl p.flags i;
      sequence = field 8 8 h.sequence rest refl p.sequence i;
      capture_time_us = field 8 16 h.capture_time_us rest refl p.capture_time_us i;
      width = field 4 24 h.width rest refl p.width i;
      height = field 4 28 h.height rest refl p.height i;
      fourcc = field 4 32 h.fourcc rest refl p.fourcc i;
      stride_y = field 4 36 h.stride_y rest refl p.stride_y i;
      stride_uv = field 4 40 h.stride_uv rest refl p.stride_uv i;
      payload_bytes = field 4 44 h.payload_bytes rest refl p.payload_bytes i;
      header_crc32 = field 4 48 h.header_crc32 rest refl p.header_crc32 i;
      payload_crc32 = field 4 52 h.payload_crc32 rest refl p.payload_crc32 i;
    }

pub length-serialize_header :
    (h : FrameHeader) (b : Bytes) → IsPacked h → 64 ≤ length (serialize_header h ++ b)
unfolding serialize_header field_bytes
length-serialize_header h b p = omega (
  arith,
  length-append (h.magic ++ field_bytes h) b,
  length-append h.magic (field_bytes h),
  p.magic,
)

abbrev pub AreBytes : Bytes → Type 0
AreBytes b = All (λ x. x < 256) b

le-from_le : (n : ℕ) (b : Bytes) → n ≤ length b → AreBytes b → b ≡ le n (from_le n b) ++ drop n b
le-from_le zero b h k = refl
le-from_le (suc n) [] h k = absurd (omega (arith, h))
le-from_le (suc n) (x ∷ b) h (p, k) =
    let low : (x + 256 * from_le n b) % 256 ≡ x = omega (arith, p) in
    let high : (x + 256 * from_le n b) / 256 ≡ from_le n b = omega (arith, p) in
    rw (low, high) (ap (◌∷◌ x) (le-from_le n b (omega (arith, h)) k))

from_le-bound : (n : ℕ) (b : Bytes) → AreBytes b → from_le n b < 256 ^ n
from_le-bound zero b k = omega arith
from_le-bound (suc n) [] k = omega (arith, from_le-bound n [] tt, pow-suc 256 n)
from_le-bound (suc n) (x ∷ b) (p, k) = omega (arith, p, from_le-bound n b k, pow-suc 256 n)

AreBytes-drop : (o : ℕ) (b : Bytes) → AreBytes b → AreBytes (drop o b)
AreBytes-drop zero b k = k
AreBytes-drop (suc o) [] k = tt
AreBytes-drop (suc o) (x ∷ b) (p, k) = AreBytes-drop o b k

-- The number of `n` bytes at `o`, and what is behind it, from `m` on.
join :
    (o n m : ℕ) (r : Bytes) {t : Bytes}
    → o + n ≡ m
    → m ≤ length r
    → AreBytes r
    → drop m r ≡ t
    → drop o r ≡ le n (from_le n (drop o r)) ++ t
join zero n m r q h k e =
    let same : n ≡ m = omega (arith, q) in
    le-from_le n r (omega (arith, h, same)) k
    ∙ ap (λ t. le n (from_le n r) ++ t) (ap (λ l. drop l r) same ∙ e)
join (suc o) n zero r q h k e = absurd (omega (arith, q))
join (suc o) n (suc m) [] q h k e = absurd (omega (arith, h))
join (suc o) n (suc m) (x ∷ r) q h (p, k) e = join o n m r (omega (arith, q)) (omega (arith, h)) k e

length-take : (n : ℕ) (b : Bytes) → n ≤ length b → length (take n b) ≡ n
length-take zero b h = refl
length-take (suc n) [] h = absurd (omega (arith, h))
length-take (suc n) (x ∷ b) h = ap suc (length-take n b (omega (arith, h)))

length-drop : (n : ℕ) (b : Bytes) → n ≤ length b → length (drop n b) + n ≡ length b
length-drop zero b h = omega arith
length-drop (suc n) [] h = absurd (omega (arith, h))
length-drop (suc n) (x ∷ b) h = omega (arith, length-drop n b (omega (arith, h)))

pub copy_header-IsPacked : (b : Bytes) → 64 ≤ length b → AreBytes b → IsPacked (copy_header b)
unfolding copy_header
copy_header-IsPacked b h k =
    let bound : (n o : ℕ) → from_le n (drop o (drop 8 b)) < 256 ^ n =
      λ n o. from_le-bound n _ (AreBytes-drop o (drop 8 b) (AreBytes-drop 8 b k)) in
    record {
      magic = length-take 8 b (omega (arith, h));
      version = bound 2 0;
      header_size = bound 2 2;
      flags = bound 4 4;
      sequence = bound 8 8;
      capture_time_us = bound 8 16;
      width = bound 4 24;
      height = bound 4 28;
      fourcc = bound 4 32;
      stride_y = bound 4 36;
      stride_uv = bound 4 40;
      payload_bytes = bound 4 44;
      header_crc32 = bound 4 48;
      payload_crc32 = bound 4 52;
    }

pub serialize_header-copy_header :
    (b : Bytes)
    → 64 ≤ length b
    → AreBytes b
    → b ≡ serialize_header (copy_header b) ++ drop 56 (drop 8 b)
unfolding serialize_header field_bytes copy_header
serialize_header-copy_header b h k =
    let r = drop 8 b in
    let l = length-drop 8 b (omega (arith, h)) in
    let f = AreBytes-drop 8 b k in
    let g : (o n m : ℕ) (t : Bytes)
        → o + n ≡ m
        → m ≤ 56
        → drop m r ≡ t
        → drop o r ≡ le n (from_le n (drop o r)) ++ t =
      λ o n m t q v e. join o n m r q (omega (arith, h, l, v)) f e in
    let last =
      g 44 4 48 _ refl (omega arith)
        (g 48 4 52 _ refl (omega arith) (g 52 4 56 _ refl (omega arith) refl)) in
    let middle = g 28 4 32 _ refl (omega arith) (
      g 32 4 36 _ refl (omega arith)
        (g 36 4 40 _ refl (omega arith) (g 40 4 44 _ refl (omega arith) last))) in
    let first = g 4 4 8 _ refl (omega arith) (
      g 8 8 16 _ refl (omega arith)
        (g 16 8 24 _ refl (omega arith) (g 24 4 28 _ refl (omega arith) middle))) in
    sym (take-append-drop 8 b)
    ∙ ap (λ t. take 8 b ++ t) (g 0 2 2 _ refl (omega arith) (g 2 2 4 _ refl (omega arith) first))
    ∙ sym (append_assoc (take 8 b) (field_bytes (copy_header b)) (drop 56 r))
