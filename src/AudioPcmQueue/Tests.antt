-- ===== src/AudioPcmQueue/Tests.antt =====
-- Runs of the PCM queue, and the theorems at a concrete history.
use kmvirtualcamera.Prelude.{◌≡◌, refl, List, [], ◌∷◌, min}
use kmvirtualcamera.AudioPcmQueue.{
  or_else, make, drop_front, append, make_room, append_tail, drop_to_target, push_locked, push, pop,
}
use kmvirtualcamera.AudioPcmQueue.Histories.{Op, pushes, pops, run, promised, run-make}
use kmvirtualcamera.AudioPcmQueue.Account.{step, after}

-- Round the end of four samples, once over the high-water mark of three.
abbrev calls : List Op
calls =
    pushes (1 ∷ 2 ∷ 3 ∷ []) 5 9
    ∷ pops 2
    ∷ pushes (4 ∷ 5 ∷ []) 9 10
    ∷ pops 1
    ∷ pushes (6 ∷ 7 ∷ 8 ∷ 9 ∷ 10 ∷ []) 10 10
    ∷ pops 7
    ∷ pops 1
    ∷ []

copied_out : run (make 4 3 2) calls ≡ (1 ∷ 2 ∷ []) ∷ (3 ∷ []) ∷ (9 ∷ 10 ∷ []) ∷ [] ∷ []
unfolding run make push push_locked make_room append_tail drop_to_target drop_front append pop
copied_out = refl

dropped_three : (after (make 4 3 2) calls).stats.dropped ≡ 5
unfolding after step make push push_locked make_room append_tail drop_to_target drop_front append
    pop
dropped_three = refl

run-make_example :
    run (make 4 3 2) calls
    ≡ promised (or_else 4 1) (or_else 3 (or_else 4 1)) (min 2 (or_else 3 (or_else 4 1))) [] calls
run-make_example = run-make 4 3 2 calls
