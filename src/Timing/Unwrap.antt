-- ===== src/Timing/Unwrap.antt =====
-- shared/km/timing.h, class TimestampUnwrapper32. A uint32_t is a number below 2 ^ 32.
use kmvirtualcamera.Prelude.{
  ℕ, ◌+◌, ◌-◌, ◌*◌, ◌%◌, ◌^◌, ◌≤◌, ◌<◌, ◌≡◌, refl, Option, none, some, List, [], ◌∷◌, arith, leb,
  if◌then◌else◌, sub32, IsU32, length, All, ap,
}
use kmvirtualcamera.Prelude.Int.{ℤ, pos, pos_part, neg_part, ◌+ℤ◌, ◌-ℤ◌}

pub record Unwrapper : Type 0 where
  pub last : Option ℕ
  pub unwrapped : ℤ

unfoldable pub initial : Unwrapper
initial = record { last = none; unwrapped = pos 0 }

-- The signed reading of a 32-bit difference.
unfoldable pub signed_delta : ℕ → ℤ
signed_delta raw = if leb raw 0x7fffffff then pos raw else pos raw -ℤ pos (2 ^ 32)

-- The new state holds the value that the method returns in `unwrapped`.
unfoldable pub unwrap_step : Option ℕ → ℤ → ℕ → Unwrapper
unwrap_step none u value = record { last = some value; unwrapped = pos value }
unwrap_step (some last) u value = record {
  last = some value;
  unwrapped = u +ℤ signed_delta (sub32 value last);
}

unfoldable pub unwrap : Unwrapper → ℕ → ℤ × Unwrapper
unwrap s value = let s' = unwrap_step s.last s.unwrapped value in (s'.unwrapped, s')

pub reset : Unwrapper → Unwrapper
reset s = record { last = none; unwrapped = pos 0 }

-- The values that the calls return, one for each packet.
unfoldable pub run : Unwrapper → List ℕ → List ℤ
run s [] = []
run s (v ∷ vs) = (unwrap s v).0 ∷ run (unwrap s v).1 vs

-- Each tick lies less than 2 ^ 31 ticks from the one before, in either direction.
abbrev pub Near : ℕ → List ℕ → Type 0
Near t [] = Unit {0}
Near t (t' ∷ ts) = (t < t' + 2 ^ 31) × (t' < t + 2 ^ 31) × Near t' ts

abbrev pub wire : List ℕ → List ℕ
wire [] = []
wire (t ∷ ts) = t % 2 ^ 32 ∷ wire ts

abbrev pub from_base : ℕ → List ℕ → List ℤ
from_base base [] = []
from_base base (t ∷ ts) = (pos t -ℤ pos base) ∷ from_base base ts

unwrap_step-near :
    (base t t' : ℕ)
    → t < t' + 2 ^ 31
    → t' < t + 2 ^ 31
    → (pos t -ℤ pos base) +ℤ signed_delta (sub32 (t' % 2 ^ 32) (t % 2 ^ 32)) ≡ pos t' -ℤ pos base
unfolding signed_delta ◌+ℤ◌ ◌-ℤ◌
unwrap_step-near base t t' h k = ground arith

run_tracks_from :
    (base t : ℕ) (ts : List ℕ)
    → Near t ts
    → run (record { last = some (t % 2 ^ 32); unwrapped = pos t -ℤ pos base }) (wire ts)
      ≡ from_base base ts
unfolding run unwrap unwrap_step
run_tracks_from base t [] h = refl
run_tracks_from base t (t' ∷ ts) (h, k, rest) =
    rw (unwrap_step-near base t t' h k)
      (ap (◌∷◌ (pos t' -ℤ pos base)) (run_tracks_from base t' ts rest))

-- Sending ticks as their low 32 bits loses nothing but the multiple of 2 ^ 32 below the first one:
-- as long as consecutive ticks are less than 2 ^ 31 apart (in either direction, so reordering is
-- allowed), the values returned are the ticks themselves less that multiple.
pub run_tracks :
    (t : ℕ) (ts : List ℕ)
    → Near t ts
    → run initial (wire (t ∷ ts)) ≡ from_base (t - t % 2 ^ 32) (t ∷ ts)
unfolding run unwrap unwrap_step initial
run_tracks t ts h =
    let first : pos (t % 2 ^ 32) ≡ pos t -ℤ pos (t - t % 2 ^ 32) = unfold ◌-ℤ◌ in ground arith in
    rw first (ap (◌∷◌ (pos t -ℤ pos (t - t % 2 ^ 32))) (run_tracks_from (t - t % 2 ^ 32) t ts h))

-- What stands in `unwrapped_` after the calls.
pub last_value : Unwrapper → List ℕ → ℤ
last_value s [] = s.unwrapped
last_value s (v ∷ vs) = last_value (unwrap s v).1 vs

abbrev pub Within : ℕ → ℤ → Type 0
Within n u = (pos_part u ≤ n) × (neg_part u ≤ n)

unwrap_step-Within :
    (o : Option ℕ) (u : ℤ) (v n : ℕ)
    → IsU32 v
    → 2 ^ 32 ≤ n
    → Within n u
    → Within (n + 2 ^ 31) (unwrap_step o u v).unwrapped
unfolding unwrap_step signed_delta ◌+ℤ◌ ◌-ℤ◌
unwrap_step-Within none u v n b l h = omega arith
unwrap_step-Within (some last) u v n b l h = ground arith

last_value-Within :
    (vs : List ℕ) (s : Unwrapper) (n : ℕ)
    → All IsU32 vs
    → 2 ^ 32 ≤ n
    → Within n s.unwrapped
    → Within (n + length vs * 2 ^ 31) (last_value s vs)
unfolding last_value unwrap
last_value-Within [] s n b l h = omega arith
last_value-Within (v ∷ vs) s n (b, bs) l h =
    let ih =
      last_value-Within vs (unwrap s v).1 (n + 2 ^ 31) bs (omega arith)
        (unwrap_step-Within s.last s.unwrapped v n b l h) in
    omega arith

-- After at most 2 ^ 31 timestamps of 32 bits from a fresh start, the unwrapped value lies between
-- -(2 ^ 62 + 2 ^ 32) and 2 ^ 62 + 2 ^ 32, so the int64_t sum has not overflowed.
pub last_value_bounds :
    (vs : List ℕ)
    → All IsU32 vs
    → length vs ≤ 2 ^ 31
    → Within (2 ^ 62 + 2 ^ 32) (last_value initial vs)
unfolding initial
last_value_bounds vs b l =
    let w = last_value-Within vs initial (2 ^ 32) b (omega arith) (omega arith) in omega arith
