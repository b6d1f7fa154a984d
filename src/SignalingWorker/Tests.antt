-- ===== src/SignalingWorker/Tests.antt =====
-- Runs of shared/receiver/signaling/signaling_worker.cpp, and the theorems at concrete ones.
use kmvirtualcamera.Prelude.{ℕ, ◌≤◌, ◌≡◌, refl, true, false, some, List, [], ◌∷◌, All, arith}
use kmvirtualcamera.Signaling.Tests.{body, session, body-decodes}
use kmvirtualcamera.SignalingWorker.{
  creating_session, session_created, waiting_for_offer, generating_answer, sending_answer,
  succeeded, canceled, Round, run, loop, start_of, round, new_offer, answer_offer, pause, report,
  fail,
}
use kmvirtualcamera.SignalingWorker.Phases.{IsTrace, EndsFinal, run-IsTrace}
use kmvirtualcamera.SignalingWorker.Answers.{Alternates, loop-Alternates}
use kmvirtualcamera.SignalingWorker.Ends.{late_end, loop-late_end}

-- Rounds that find the offer 1, at a time in milliseconds.
abbrev polled : ℕ → Round
polled elapsed = record {
  canceled_at_start = false;
  elapsed = elapsed;
  offer = some (1 ∷ []);
  canceled_after_poll = false;
  answer = some (2 ∷ []);
  canceled_after_answer = false;
  put_accepted = true;
  canceled_after_put = false;
  canceled_at_end = false;
}

abbrev rounds : List Round
rounds = polled 0 ∷ polled 50 ∷ record (polled 70) { canceled_at_start = true } ∷ []

-- The offer that is found again is not answered again; and the cancellation of a run that has succeeded
-- is reported.
late_cancel :
    (run false (some session.poll) false true rounds).1.phases
    ≡ canceled ∷ succeeded ∷ sending_answer ∷ generating_answer ∷ waiting_for_offer
      ∷ session_created ∷ creating_session ∷ []
unfolding run loop round new_offer answer_offer pause report fail
late_cancel = refl

run-IsTrace_example :
    let (ended, r) = run false (some session.poll) false true rounds in
    IsTrace r.phases × (ended ≡ true → EndsFinal r.phases)
run-IsTrace_example = run-IsTrace false false true (some session.poll) rounds

loop-Alternates_example :
    let (ended, r) = loop session.poll true rounds (start_of session.poll) in
    Alternates r.offers × All (λ n. (20 ≤ n) × (n ≤ 60000)) r.pauses
loop-Alternates_example = loop-Alternates body session true rounds body-decodes

-- The loop goes on after the answer, and the session times out in the next round.
loop-goes_on : (loop session.poll true (polled 0 ∷ []) (start_of session.poll)).0 ≡ false
unfolding loop round new_offer answer_offer pause report
loop-goes_on = refl

loop-late_end_example :
    let r = (loop session.poll true (polled 0 ∷ []) (start_of session.poll)).1 in
    let (ended, end) = loop session.poll true (polled 0 ∷ polled 90 ∷ []) (start_of session.poll) in
    (ended ≡ true) × (end.phases ≡ late_end false r.phases)
loop-late_end_example =
    loop-late_end session.poll true (polled 0 ∷ []) (polled 90) loop-goes_on (omega arith)
