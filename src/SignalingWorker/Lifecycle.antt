-- ===== src/SignalingWorker/Lifecycle.antt =====
-- The starting and stopping of the thread in shared/receiver/signaling/signaling_worker.cpp. The calls come
-- from one controlling thread; the run ends at any time between them. A join waits for the end of
-- the run, so it leaves `running_` false.
use kmvirtualcamera.Prelude.{◌≡◌, Bool, true, false, not, List, [], ◌∷◌, if◌then◌else◌}

pub record Worker : Type 0 where
  pub joinable : Bool
  pub running : Bool
  pub cancel_requested : Bool

abbrev pub idle : Worker
idle = record { joinable = false; running = false; cancel_requested = false }

-- `start`, with whether the thread can be created.
unfoldable pub start : Bool → Worker → Bool × Worker
start created w =
    if w.running
    then (false, w)
    else (created, record { joinable = created; running = created; cancel_requested = false })

unfoldable pub cancel : Worker → Bool × Worker
cancel w =
    if not w.joinable
    then (false, w)
    else (w.running, record { joinable = false; running = false; cancel_requested = true })

-- The end of `run`, if there is one.
unfoldable pub finish : Worker → Worker
finish w = record w { running = false }

pub data Op : Type 0 where
  starts : Bool → Op
  cancels finishes : Op

unfoldable pub step : Op → Worker → Worker
step (starts created) w = (start created w).1
step cancels w = (cancel w).1
step finishes w = finish w

-- The newest first.
unfoldable pub after : List Op → Worker
after [] = idle
after (o ∷ os) = step o (after os)

abbrev IsSound : Worker → Type 0
IsSound w = w.running ≡ true → w.joinable ≡ true

-- What a cancellation leaves.
abbrev Stops : Bool → Worker → Type 0
Stops created w =
    let (stopped, w') = cancel w in
    (stopped ≡ w.running)
    × (w'.running ≡ false)
    × ((cancel w').0 ≡ false)
    × ((start created w').0 ≡ created)
