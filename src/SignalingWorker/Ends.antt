-- ===== src/SignalingWorker/Ends.antt =====
-- How a run of shared/receiver/signaling/signaling_worker.cpp ends that is still going on when the timeout of
-- its session passes.
use kmvirtualcamera.Prelude.{
  ◌≤◌, ◌≡◌, refl, ap, ◌∙◌, Bool, true, false, List, [], ◌∷◌, ◌++◌, arith, leb, if◌then◌else◌, inl,
  inr,
}
use kmvirtualcamera.Signaling.{PollPolicy}
use kmvirtualcamera.SignalingWorker.{
  Phase, succeeded, timed_out, canceled, Round, Run, report, round, loop, start_of,
}
use kmvirtualcamera.SignalingWorker.Phases.{IsWaiting, Leaves, loop-Leaves, start-IsWaiting}

-- The phases, the newest first, when the timeout finds a run, by whether it is canceled then.
abbrev pub late_end : Bool → List Phase → List Phase
late_end true ps = canceled ∷ ps
late_end false (succeeded ∷ ps) = succeeded ∷ ps
late_end false ps = timed_out ∷ ps

-- What follows a round that has not ended the loop.
going_on :
    (canceled_now late ended : Bool) (a b d : Run) (more more' : Bool × Run)
    (next : Run → Bool × Run)
    → (more.0 ≡ false → more' ≡ next more.1)
    → (if canceled_now
        then (true, a)
        else if late
        then (true, b)
        else if ended
        then (true, d)
        else more).0
      ≡ false
    → (if canceled_now
        then (true, a)
        else if late
        then (true, b)
        else if ended
        then (true, d)
        else more')
      ≡ next
          (if canceled_now
            then (true, a)
            else if late
            then (true, b)
            else if ended
            then (true, d)
            else more).1
going_on true late ended a b d more more' next f h = cc
going_on false true ended a b d more more' next f h = cc
going_on false false true a b d more more' next f h = cc
going_on false false false a b d more more' next f h = f h

loop-append :
    (p : PollPolicy) (keep : Bool) (is js : List Round) (r : Run)
    → (loop p keep is r).0 ≡ false
    → loop p keep (is ++ js) r ≡ loop p keep js (loop p keep is r).1
unfolding loop
loop-append p keep [] js r h = refl
loop-append p keep (i ∷ is) js r h =
    let (ended, r') = round p keep i r in
    going_on i.canceled_at_start (leb p.timeout i.elapsed) ended (report canceled r)
      (if r.answered then r else report timed_out r) r' (loop p keep is r')
      (loop p keep (is ++ js) r') (loop p keep js) (loop-append p keep is js r') h

waiting : (l : Bool × Run) → Leaves l → l.0 ≡ false → IsWaiting l.1
waiting (true, r) d e = cc
waiting (false, r) w e = w

late_phases :
    (r : Run)
    → IsWaiting r
    → (if r.answered then r else report timed_out r).phases ≡ late_end false r.phases
unfolding report
late_phases r (ps, inl (e, f), t) = rw f (ap (λ x. timed_out ∷ x) e ∙ rw e refl)
late_phases r (ps, inr (e, f), t) = rw f (e ∙ rw e refl)

stopped :
    (canceled_now : Bool) (r : Run)
    → IsWaiting r
    → let (ended, end) : Bool × Run =
        if canceled_now
        then (true, report canceled r)
        else (true, if r.answered then r else report timed_out r) in
      (ended ≡ true) × (end.phases ≡ late_end canceled_now r.phases)
unfolding report
stopped true r w = (refl, refl)
stopped false r w = (refl, late_phases r w)

last_round :
    (p : PollPolicy) (keep : Bool) (i : Round) (r : Run)
    → IsWaiting r
    → p.timeout ≤ i.elapsed
    → let (ended, end) = loop p keep (i ∷ []) r in
      (ended ≡ true) × (end.phases ≡ late_end i.canceled_at_start r.phases)
unfolding loop
last_round p keep i r w h =
    let e : leb p.timeout i.elapsed ≡ true = ground (arith, h) in
    rw e (stopped i.canceled_at_start r w)

-- After any rounds that leave the loop running: the round in which the timeout of the session has passed
-- ends it. If the flag is set then, a cancellation is reported, after a success too, although the
-- comment on keepPollingAfterAnswer says that its late end reports no phase. If not, the phases stay
-- as they are where the last is a success, and a timeout is reported where it is not.
pub loop-late_end :
    (p : PollPolicy) (keep : Bool) (rounds : List Round) (i : Round)
    → (loop p keep rounds (start_of p)).0 ≡ false
    → p.timeout ≤ i.elapsed
    → let r = (loop p keep rounds (start_of p)).1 in
      let (ended, end) = loop p keep (rounds ++ i ∷ []) (start_of p) in
      (ended ≡ true) × (end.phases ≡ late_end i.canceled_at_start r.phases)
loop-late_end p keep rounds i running h =
    let l = loop p keep rounds (start_of p) in
    let w = waiting l (loop-Leaves p keep rounds (start_of p) (start-IsWaiting p)) running in
    rw (loop-append p keep rounds (i ∷ []) (start_of p) running) (last_round p keep i l.1 w h)
