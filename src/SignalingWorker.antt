-- ===== src/SignalingWorker.antt =====
-- shared/receiver/signaling/signaling_worker.{h,cpp}: one attempt to bring a session up. What the worker's
-- thread finds outside it is an argument: the answers of the session client, of the clock and of
-- `makeAnswer`, and what each read of the cancel flag sees, which another thread sets at any time. A run
-- is over one such record for each round of its loop; where they end, the run goes on. The details of
-- failures and the naps of 20 ms inside a pause are left out.
pub mod Phases
pub mod Ends
pub mod Answers
pub mod Lifecycle
mod Tests
use kmvirtualcamera.Prelude.{
  ℕ, ◌+◌, ◌-◌, ◌*◌, ◌/◌, Bool, true, false, not, ◌&&◌, ◌||◌, Option, none, some, List, [], ◌∷◌, ltb,
  leb, ◌==◌, if◌then◌else◌, min, Bytes, is_empty,
}
use kmvirtualcamera.Json.{same}
use kmvirtualcamera.Signaling.{PollPolicy}

pub data Phase : Type 0 where
  creating_session session_created waiting_for_offer generating_answer sending_answer : Phase
  succeeded timed_out failed canceled : Phase

-- What a round finds: the flag at its start, the milliseconds since the loop began, the SDP of the offer
-- that the poll gets, the flag behind the poll, the answer, the flag behind it, whether the server
-- takes the answer, the flag behind a refusal, and the flag at the end of the round.
pub record Round : Type 0 where
  pub canceled_at_start : Bool
  pub elapsed : ℕ
  pub offer : Option Bytes
  pub canceled_after_poll : Bool
  pub answer : Option Bytes
  pub canceled_after_answer : Bool
  pub put_accepted : Bool
  pub canceled_after_put : Bool
  pub canceled_at_end : Bool

-- The locals of the loop, the phases reported, the offers answered and the pauses, each the newest first.
pub record Run : Type 0 where
  pub interval : ℕ
  pub answered : Bool
  pub answered_offer : Bytes
  pub phases : List Phase
  pub offers : List Bytes
  pub pauses : List ℕ

unfoldable pub report : Phase → Run → Run
report p r = record r { phases = p ∷ r.phases }

-- `fail`, with what its read of the flag sees.
unfoldable pub fail : Bool → Run → Run
fail canceled_now r = report (if canceled_now then canceled else failed) r

-- An answer that `makeAnswer` has not given, or an empty one.
abbrev pub no_answer : Option Bytes → Bool
no_answer none = true
no_answer (some a) = is_empty a

-- An offer that is not the one answered last: whether the run ends.
unfoldable pub answer_offer : Bool → Round → Bytes → Run → Bool × Run
answer_offer keep_polling i sdp r =
    let generating = report generating_answer r in
    let sending = report sending_answer generating in
    if i.canceled_after_answer
    then (true, report canceled generating)
    else if no_answer i.answer
    then (true, report failed generating)
    else if not i.put_accepted
    then (true, fail i.canceled_after_put sending)
    else (
      not keep_polling,
      record (report succeeded sending) {
        answered = true;
        answered_offer = sdp;
        offers = sdp ∷ r.offers;
      },
    )

-- The offer of a round, unless it is to be passed over.
unfoldable pub new_offer : Round → Run → Option Bytes
new_offer i r = elim i.offer [
  | none ↦ none
  | some sdp ↦
      if not i.canceled_after_poll && not (same sdp r.answered_offer) then some sdp else none
]

-- The end of a round: the longer interval, and the pause.
unfoldable pub pause : PollPolicy → Round → Run → Run
pause p i r =
    let interval =
      if ltb p.backoff_after i.elapsed then min (r.interval + 500) p.max_interval else r.interval in
    record r { interval = interval; pauses = interval ∷ r.pauses }

unfoldable pub round : PollPolicy → Bool → Round → Run → Bool × Run
round p keep_polling i r = elim (new_offer i r) [
  | none ↦ if i.canceled_at_end then (true, report canceled r) else (false, pause p i r)
  | some sdp ↦
      let (ended, answered) = answer_offer keep_polling i sdp r in
      if ended
      then (true, answered)
      else if i.canceled_at_end
      then (true, report canceled answered)
      else (false, pause p i answered)
]

-- The loop: whether it has ended.
unfoldable pub loop : PollPolicy → Bool → List Round → Run → Bool × Run
loop p keep_polling [] r = (false, r)
loop p keep_polling (i ∷ rounds) r =
    let (ended, r') = round p keep_polling i r in
    let more = loop p keep_polling rounds r' in
    if i.canceled_at_start
    then (true, report canceled r)
    else if leb p.timeout i.elapsed
    then (true, if r.answered then r else report timed_out r)
    else if ended
    then (true, r')
    else more

abbrev pub start_of : PollPolicy → Run
start_of p = record {
  interval = p.initial_interval;
  answered = false;
  answered_offer = [];
  phases = waiting_for_offer ∷ session_created ∷ creating_session ∷ [];
  offers = [];
  pauses = [];
}

abbrev pub nothing : Run
nothing = record {
  interval = 0;
  answered = false;
  answered_offer = [];
  phases = [];
  offers = [];
  pauses = [];
}

-- `run`: the flag at the start, the session that is created, and the flag behind its creation.
unfoldable pub run : Bool → Option PollPolicy → Bool → Bool → List Round → Bool × Run
run canceled_first session canceled_after_create keep_polling rounds =
    let creating = report creating_session nothing in
    if canceled_first then (true, report canceled nothing) else elim session [
      | none ↦ (true, fail canceled_after_create creating)
      | some p ↦
          if canceled_after_create
          then (true, report canceled creating)
          else loop p keep_polling rounds (start_of p)
    ]
