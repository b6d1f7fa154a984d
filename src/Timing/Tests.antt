-- ===== src/Timing/Tests.antt =====
-- Runs of shared/km/timing.h, and the theorems at concrete inputs.
use kmvirtualcamera.Prelude.{
  ◌-◌, ◌%◌, ◌^◌, ◌≡◌, refl, none, some, [], ◌∷◌, arith, List, ℕ, if◌then◌else◌, ltb,
}
use kmvirtualcamera.Prelude.Int.{pos, negsuc, ◌+ℤ◌, ◌-ℤ◌}
use kmvirtualcamera.Timing.Unwrap.{
  initial, unwrap_step, unwrap, signed_delta, run, wire, from_base, run_tracks,
}
use kmvirtualcamera.Timing.Ticks.{
  scale, ticks_to_microseconds, exact_microseconds, ticks_to_microseconds-exact_microseconds,
}
use kmvirtualcamera.Timing.Pacer.{Pacer, make, next, deadlines, due, exact, deadlines-make}

-- Across the wrap, and one packet back.
abbrev ticks : List ℕ
ticks = 4294968000 ∷ 4294967000 ∷ 4294970000 ∷ []

wraps :
    run initial (4294967000 ∷ 704 ∷ 4294967000 ∷ [])
    ≡ pos 4294967000 ∷ pos 4294968000 ∷ pos 4294967000 ∷ []
unfolding run unwrap unwrap_step signed_delta initial ◌+ℤ◌ ◌-ℤ◌
wraps = refl

run_tracks_example :
    run initial (wire (4294967000 ∷ ticks))
    ≡ from_base (4294967000 - 4294967000 % 2 ^ 32) (4294967000 ∷ ticks)
run_tracks_example = run_tracks 4294967000 ticks (omega arith)

-- 60000 / 1001 frames a second: 16,683,333 and a third nanoseconds.
abbrev ntsc : Pacer
ntsc = record { numerator = 60000; deadline = 5; whole = 16683333; fraction = 20000; remainder = 0 }

makes_ntsc : make 60000 1001 5 ≡ some ntsc
unfolding make
makes_ntsc = refl

paced : deadlines 4 ntsc ≡ some (5 ∷ 16683338 ∷ 33366671 ∷ 50050005 ∷ [])
unfolding deadlines next
paced = refl

no_rate : make 0 1 0 ≡ none
unfolding make
no_rate = refl

deadlines-make_example :
    deadlines 4 ntsc
    ≡ (if ltb (due 60000 1001 5 4) (2 ^ 64) then some (exact 60000 1001 5 0 4) else none)
deadlines-make_example = deadlines-make 4 60000 1001 5 makes_ntsc (omega arith)

-- One tick of 90 kHz before zero: eleven microseconds.
one_tick : ticks_to_microseconds (negsuc 0) 90000 ≡ some (negsuc 10)
unfolding ticks_to_microseconds scale ◌-ℤ◌
one_tick = refl

ticks_to_microseconds-exact_microseconds_example :
    ticks_to_microseconds (negsuc 89999) 48000 ≡ exact_microseconds (negsuc 89999) 48000
ticks_to_microseconds-exact_microseconds_example =
    ticks_to_microseconds-exact_microseconds (negsuc 89999) 48000 (omega arith)
