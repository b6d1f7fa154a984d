-- ===== src/LatestFrame/Tests.antt =====
-- Runs of the latest frame, and the theorem at a concrete history.
use kmvirtualcamera.Prelude.{ℕ, ◌≡◌, refl, none, some, List, [], ◌∷◌}
use kmvirtualcamera.LatestFrame.{initial, reset, publish, get}
use kmvirtualcamera.LatestFrame.Newest.{
  Op, publishes, resets, step, replay, start, fresh, Descending, get-fresh,
}

-- A frame, one that arrived before it, a newer one, and one of another generation.
abbrev calls : List (Op ℕ)
calls =
    resets
    ∷ publishes 2 (some 7) 100
    ∷ publishes 2 (some 8) 90
    ∷ publishes 2 (some 9) 120
    ∷ publishes 1 (some 3) 130
    ∷ []

newest : get 150 30 (replay start calls).now ≡ some 9
unfolding get replay step start initial reset publish
newest = refl

too_old : get 151 30 (replay start calls).now ≡ none
unfolding get replay step start initial reset publish
too_old = refl

get-fresh_example :
    (get 150 30 (replay start calls).now ≡ fresh 150 30 (replay start calls).accepted)
    × Descending (replay start calls).accepted
get-fresh_example = get-fresh calls 150 30
