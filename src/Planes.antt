-- ===== src/Planes.antt =====
-- Byte buffers with bounds, and the loops over the rows of a picture: an access out of bounds answers
-- `none`. For shared/km/nv12.h and windows/receiver/media.
pub mod Loops
pub mod Blit
use kmvirtualcamera.Prelude.{
  ℕ, zero, suc, ◌+◌, ◌-◌, ◌<◌, ◌≤◌, Bool, ◌&&◌, Option, none, some, ltb, leb, ◌==◌, if◌then◌else◌,
  ◌>>=◌,
}

pub record Buffer : Type 0 where
  pub size : ℕ
  pub at : ℕ → ℕ

unfoldable pub read : Buffer → ℕ → Option ℕ
read b i = if ltb i b.size then some (b.at i) else none

unfoldable pub write : ℕ → ℕ → Buffer → Option Buffer
write i v b =
    if ltb i b.size
    then some (record { size = b.size; at = λ j. if j == i then v else b.at j })
    else none

-- memset of `n` bytes.
unfoldable pub fill : ℕ → ℕ → ℕ → Buffer → Option Buffer
fill from n v b =
    if leb (from + n) b.size
    then some
        (record { size = b.size; at = λ j. if leb from j && ltb j (from + n) then v else b.at j })
    else none

-- n - 1 - k, which must not be negative.
unfoldable pub back : ℕ → ℕ → Option ℕ
back n k = if ltb k n then some (n - 1 - k) else none

-- for (i = 0; i < n; ++i)
unfoldable pub for_loop {ℓ} : {A : Type ℓ} → ℕ → (ℕ → A → Option A) → A → Option A
for_loop zero f a = some a
for_loop (suc n) f a = for_loop n f a >>= f n

-- A loop over `h` rows of `w` bytes, that writes what `get` answers where `put` says.
unfoldable pub blit : ℕ → ℕ → (ℕ → ℕ → Option ℕ) → (ℕ → ℕ → ℕ) → Buffer → Option Buffer
blit h w get put = for_loop h (λ y. for_loop w (λ x b. get y x >>= λ v. write (put y x) v b))

-- A pointer into a buffer.
unfoldable pub advance : ℕ → Buffer → Buffer
advance n b = record { size = b.size - n; at = λ i. b.at (n + i) }

-- memcpy of `n` bytes between the beginnings of two buffers.
unfoldable pub copy_bytes : ℕ → Buffer → Buffer → Option Buffer
copy_bytes n src dst =
    if leb n src.size && leb n dst.size
    then some (record { size = dst.size; at = λ j. if ltb j n then src.at j else dst.at j })
    else none
