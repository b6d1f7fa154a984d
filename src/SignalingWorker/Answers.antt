-- ===== src/SignalingWorker/Answers.antt =====
-- Which offers shared/receiver/signaling/signaling_worker.cpp answers, and how long it pauses.
use kmvirtualcamera.Prelude.{
  ℕ, ◌+◌, ◌≤◌, ◌≡◌, refl, Bool, true, false, not, ◌&&◌, Option, none, some, List, [], ◌∷◌, arith,
  ltb, leb, if◌then◌else◌, min, Bytes, All, Bool-cases, inl, inr,
}
use kmvirtualcamera.Json.{same}
use kmvirtualcamera.Signaling.{PollPolicy, CreateSessionResponse, decode_session}
use kmvirtualcamera.Signaling.Accepted.{decode_session_sound}
use kmvirtualcamera.SignalingWorker.{
  Phase, generating_answer, sending_answer, canceled, failed, timed_out, Round, Run, report, fail,
  no_answer, answer_offer, new_offer, pause, round, loop, start_of,
}

-- The newest first: no offer is answered twice in a row.
abbrev pub Alternates : List Bytes → Type 0
Alternates [] = Unit {0}
Alternates (o ∷ []) = Unit {0}
Alternates (o ∷ n ∷ os) = (same o n ≡ false) × Alternates (n ∷ os)

-- The last offer answered is the one that the next is compared with.
abbrev IsLast : List Bytes → Bytes → Type 0
IsLast [] last = Unit {0}
IsLast (o ∷ os) last = o ≡ last

abbrev InPolicy : PollPolicy → ℕ → Type 0
InPolicy p n = (p.initial_interval ≤ n) × (n ≤ p.max_interval)

record IsKept (p : PollPolicy) (r : Run) : Type 0 where
  alternates : Alternates r.offers
  last : IsLast r.offers r.answered_offer
  interval : InPolicy p r.interval
  pauses : All (InPolicy p) r.pauses

Alternates-new :
    (sdp last : Bytes) (os : List Bytes)
    → Alternates os
    → IsLast os last
    → same sdp last ≡ false
    → Alternates (sdp ∷ os)
Alternates-new sdp last [] a l e = tt
Alternates-new sdp last (o ∷ os) a l e = (rw l e, a)

fail-IsKept : (p : PollPolicy) (b : Bool) (r : Run) → IsKept p r → IsKept p (fail b r)
unfolding fail report
fail-IsKept p b r k = record {
  alternates = k.alternates;
  last = k.last;
  interval = k.interval;
  pauses = k.pauses;
}

if-IsKept :
    (p : PollPolicy) (b : Bool) (x y : Bool × Run)
    → IsKept p x.1
    → IsKept p y.1
    → IsKept p (if b then x else y).1
if-IsKept p true x y h k = h
if-IsKept p false x y h k = k

report-IsKept : (p : PollPolicy) (r : Run) → IsKept p r → (ph : Phase) → IsKept p (report ph r)
unfolding report
report-IsKept p r k ph = record {
  alternates = k.alternates;
  last = k.last;
  interval = k.interval;
  pauses = k.pauses;
}

answer_offer-IsKept :
    (p : PollPolicy) (keep : Bool) (i : Round) (sdp : Bytes) (r : Run)
    → same sdp r.answered_offer ≡ false
    → IsKept p r
    → IsKept p (answer_offer keep i sdp r).1
unfolding answer_offer report
answer_offer-IsKept p keep i sdp r new k =
    let g = report-IsKept p r k generating_answer in
    let s = report-IsKept p (report generating_answer r) g sending_answer in
    if-IsKept p i.canceled_after_answer _ _ (report-IsKept p _ g canceled) (
      if-IsKept p (no_answer i.answer) _ _ (report-IsKept p _ g failed) (
        if-IsKept p (not i.put_accepted) _ _ (fail-IsKept p i.canceled_after_put _ s) (record {
          alternates = Alternates-new sdp r.answered_offer r.offers k.alternates k.last new;
          last = refl;
          interval = k.interval;
          pauses = k.pauses;
        })))

pause-IsKept :
    (p : PollPolicy) (i : Round) (r : Run)
    → p.initial_interval ≤ p.max_interval
    → IsKept p r
    → IsKept p (pause p i r)
unfolding pause
pause-IsKept p i r h k =
    let n : InPolicy p (
        if ltb p.backoff_after i.elapsed
        then min (r.interval + 500) p.max_interval
        else r.interval) =
      (ground (arith, h, k.interval.0), ground (arith, k.interval.1)) in
    record { alternates = k.alternates; last = k.last; interval = n; pauses = (n, k.pauses) }

abbrev outcome : Bool × Run → Run
outcome (ended, r) = r

-- An offer that is answered is not the one answered last.
IsNew : Run → Option Bytes → Type 0
IsNew r none = Unit {0}
IsNew r (some sdp) = same sdp r.answered_offer ≡ false

new_offer-IsNew : (i : Round) (r : Run) → IsNew r (new_offer i r)
unfolding new_offer IsNew
new_offer-IsNew i r = polled i.offer
  where
    polled :
        (o : Option Bytes)
        → IsNew r (elim o [
          | none ↦ none
          | some sdp ↦
              if not i.canceled_after_poll && not (same sdp r.answered_offer)
              then some sdp
              else none
        ])
    polled none = tt
    polled (some sdp) =
        elim (Bool-cases (not i.canceled_after_poll && not (same sdp r.answered_offer))) [
          | inl e ↦ rw e (ground (arith, e))
          | inr e ↦ rw e tt
        ]

round-IsKept :
    (p : PollPolicy) (keep : Bool) (i : Round) (r : Run)
    → p.initial_interval ≤ p.max_interval
    → IsKept p r
    → IsKept p (round p keep i r).1
unfolding round IsNew
round-IsKept p keep i r h k = offered (new_offer i r) (new_offer-IsNew i r)
  where
    offered :
        (o : Option Bytes)
        → IsNew r o
        → IsKept p (
            outcome (elim o [
              | none ↦ if i.canceled_at_end then (true, report canceled r) else (false, pause p i r)
              | some sdp ↦
                  let (ended, answered) = answer_offer keep i sdp r in
                  if ended
                  then (true, answered)
                  else if i.canceled_at_end
                  then (true, report canceled answered)
                  else (false, pause p i answered)
            ]))
    offered none n =
        if-IsKept p i.canceled_at_end (true, report canceled r) (false, pause p i r)
          (report-IsKept p r k canceled) (pause-IsKept p i r h k)
    offered (some sdp) n =
        let (ended, a) = answer_offer keep i sdp r in
        let v = answer_offer-IsKept p keep i sdp r n k in
        if-IsKept p ended (true, a) _ v
          (if-IsKept p i.canceled_at_end (true, report canceled a) (false, pause p i a)
            (report-IsKept p a v canceled) (pause-IsKept p i a h v))

late-IsKept :
    (p : PollPolicy) (b : Bool) (r : Run)
    → IsKept p r
    → IsKept p (if b then r else report timed_out r)
late-IsKept p true r k = k
late-IsKept p false r k = report-IsKept p r k timed_out

loop-IsKept :
    (p : PollPolicy) (keep : Bool) (is : List Round) (r : Run)
    → p.initial_interval ≤ p.max_interval
    → IsKept p r
    → IsKept p (loop p keep is r).1
unfolding loop
loop-IsKept p keep [] r h k = k
loop-IsKept p keep (i ∷ is) r h k =
    let (ended, r') = round p keep i r in
    let v = round-IsKept p keep i r h k in
    if-IsKept p i.canceled_at_start _ _ (report-IsKept p r k canceled) (
      if-IsKept p (leb p.timeout i.elapsed) _ _ (late-IsKept p r.answered r k)
        (if-IsKept p ended _ _ v (loop-IsKept p keep is r' h v)))

All-map : (P Q : ℕ → Type 0) → ((n : ℕ) → P n → Q n) → (ns : List ℕ) → All P ns → All Q ns
All-map P Q f [] h = tt
All-map P Q f (n ∷ ns) (p, h) = (f n p, All-map P Q f ns h)

-- With the policy of any session that is accepted, whatever the server answers then: no offer is answered
-- twice in a row, and each pause between two polls is from 20 ms to a minute.
pub loop-Alternates :
    (body : Bytes) (session : CreateSessionResponse) (keep : Bool) (rounds : List Round)
    → decode_session body ≡ some session
    → let (ended, r) = loop session.poll keep rounds (start_of session.poll) in
      Alternates r.offers × All (λ n. (20 ≤ n) × (n ≤ 60000)) r.pauses
loop-Alternates body session keep rounds e =
    let p = session.poll in
    let (a, b, c, d, f, g, (low, ordered, high, u, v, w), i) =
      decode_session_sound body session e in
    let k =
      loop-IsKept p keep rounds (start_of p) ordered
        (record { alternates = tt; last = tt; interval = (omega arith, ordered); pauses = tt }) in
    (
      k.alternates,
      All-map (InPolicy p) (λ n. (20 ≤ n) × (n ≤ 60000))
          (λ n (x, y). (omega (arith, low, x), omega (arith, high, y))) _ k.pauses,
    )
