-- ===== src/SignalingWorker/Phases.antt =====
-- The order of the phases that shared/receiver/signaling/signaling_worker.cpp reports, and the end of a run.
use kmvirtualcamera.Prelude.{
  ◌≡◌, refl, sym, ◌⊎◌, Bool, true, false, not, Option, none, some, List, [], ◌∷◌, leb,
  if◌then◌else◌, Bytes, inl, inr,
}
use mathlib.Core.Path.{subst}
use kmvirtualcamera.Signaling.{PollPolicy}
use kmvirtualcamera.SignalingWorker.{
  Phase, creating_session, session_created, waiting_for_offer, generating_answer, sending_answer,
  succeeded, timed_out, failed, canceled, Round, Run, report, fail, no_answer, answer_offer,
  new_offer, pause, round, loop, start_of, run,
}

-- Whether a phase may be reported next. The last of a finished run is one of the last four.
abbrev pub follows : Phase → Phase → Bool
follows creating_session session_created = true
follows creating_session failed = true
follows creating_session canceled = true
follows session_created waiting_for_offer = true
follows waiting_for_offer generating_answer = true
follows waiting_for_offer timed_out = true
follows waiting_for_offer canceled = true
follows generating_answer sending_answer = true
follows generating_answer failed = true
follows generating_answer canceled = true
follows sending_answer succeeded = true
follows sending_answer failed = true
follows sending_answer canceled = true
follows succeeded generating_answer = true
follows succeeded canceled = true
follows _ _ = false

abbrev pub is_final : Phase → Bool
is_final succeeded = true
is_final timed_out = true
is_final failed = true
is_final canceled = true
is_final _ = false

-- Newest first: from the first one, which is the creation of the session or a cancellation.
abbrev pub IsTrace : List Phase → Type 0
IsTrace [] = Unit {0}
IsTrace (p ∷ []) = follows p session_created ≡ true ⊎ p ≡ canceled
IsTrace (q ∷ p ∷ ps) = (follows p q ≡ true) × IsTrace (p ∷ ps)

abbrev pub EndsFinal : List Phase → Type 0
EndsFinal [] = ⊥
EndsFinal (p ∷ ps) = is_final p ≡ true

-- Between two rounds: waiting for the first offer, or behind an answer.
abbrev pub IsWaiting : Run → Type 0
IsWaiting r =
    (ps : List Phase) × ((r.phases ≡ waiting_for_offer ∷ ps) × (r.answered ≡ false)
      ⊎ (r.phases ≡ succeeded ∷ ps) × (r.answered ≡ true))
    × IsTrace r.phases

abbrev pub IsDone : Run → Type 0
IsDone r = IsTrace r.phases × EndsFinal r.phases

-- What a round or the loop leaves, by whether the run has ended.
abbrev pub Leaves : Bool × Run → Type 0
Leaves (true, r) = IsDone r
Leaves (false, r) = IsWaiting r

if-Leaves : (b : Bool) (x y : Bool × Run) → Leaves x → Leaves y → Leaves (if b then x else y)
if-Leaves true x y h k = h
if-Leaves false x y h k = k

-- A phase after a wait.
report-IsTrace :
    (p : Phase) (r : Run)
    → follows waiting_for_offer p ≡ true
    → follows succeeded p ≡ true
    → IsWaiting r
    → IsTrace (p ∷ r.phases)
report-IsTrace p r h k (ps, inl (e, f), t) =
    subst (λ x. IsTrace (p ∷ x)) (sym e) (h, subst IsTrace e t)
report-IsTrace p r h k (ps, inr (e, f), t) =
    subst (λ x. IsTrace (p ∷ x)) (sym e) (k, subst IsTrace e t)

canceled-Leaves : (r : Run) → IsWaiting r → Leaves (true, report canceled r)
unfolding report
canceled-Leaves r w = (report-IsTrace canceled r refl refl w, refl)

fail-Leaves :
    (b : Bool) (r : Run) (ps : List Phase)
    → r.phases ≡ sending_answer ∷ ps
    → IsTrace r.phases
    → Leaves (true, fail b r)
unfolding fail report
fail-Leaves true r ps e t =
    (subst (λ x. IsTrace (canceled ∷ x)) (sym e) (refl, subst IsTrace e t), refl)
fail-Leaves false r ps e t =
    (subst (λ x. IsTrace (failed ∷ x)) (sym e) (refl, subst IsTrace e t), refl)

pause-IsWaiting : (p : PollPolicy) (i : Round) (r : Run) → IsWaiting r → IsWaiting (pause p i r)
unfolding pause
pause-IsWaiting p i r w = w

after-Leaves :
    (keep : Bool) (r : Run) (ps : List Phase)
    → r.phases ≡ succeeded ∷ ps
    → r.answered ≡ true
    → IsTrace r.phases
    → Leaves (not keep, r)
after-Leaves true r ps e f t = (ps, inr (e, f), t)
after-Leaves false r ps e f t = (t, subst EndsFinal (sym e) refl)

answer_offer-Leaves :
    (keep : Bool) (i : Round) (sdp : Bytes) (r : Run)
    → IsWaiting r
    → Leaves (answer_offer keep i sdp r)
unfolding answer_offer report
answer_offer-Leaves keep i sdp r w =
    let t = report-IsTrace generating_answer r refl refl w in
    if-Leaves i.canceled_after_answer _ _ ((refl, t), refl)
      (if-Leaves (no_answer i.answer) _ _ ((refl, t), refl)
        (if-Leaves (not i.put_accepted) _ _
          (fail-Leaves i.canceled_after_put _ (generating_answer ∷ r.phases) refl (refl, t))
          (after-Leaves keep _ (sending_answer ∷ generating_answer ∷ r.phases) refl refl
            (refl, (refl, t)))))

-- The end of a round behind an answer.
ended-Leaves :
    (ended canceled_now : Bool) (p : PollPolicy) (i : Round) (r : Run)
    → Leaves (ended, r)
    → Leaves (
        if ended
        then (true, r)
        else if canceled_now
        then (true, report canceled r)
        else (false, pause p i r))
ended-Leaves true b p i r d = d
ended-Leaves false true p i r w = canceled-Leaves r w
ended-Leaves false false p i r w = pause-IsWaiting p i r w

round-Leaves :
    (p : PollPolicy) (keep : Bool) (i : Round) (r : Run) → IsWaiting r → Leaves (round p keep i r)
unfolding round
round-Leaves p keep i r w = offered (new_offer i r)
  where
    offered :
        (o : Option Bytes)
        → Leaves (elim o [
          | none ↦ if i.canceled_at_end then (true, report canceled r) else (false, pause p i r)
          | some sdp ↦
              let (ended, answered) = answer_offer keep i sdp r in
              if ended
              then (true, answered)
              else if i.canceled_at_end
              then (true, report canceled answered)
              else (false, pause p i answered)
        ])
    offered none = if-Leaves i.canceled_at_end _ _ (canceled-Leaves r w) (pause-IsWaiting p i r w)
    offered (some sdp) =
        let (ended, answered) = answer_offer keep i sdp r in
        ended-Leaves ended i.canceled_at_end p i answered (answer_offer-Leaves keep i sdp r w)

late-Leaves : (r : Run) → IsWaiting r → Leaves (true, if r.answered then r else report timed_out r)
unfolding report
late-Leaves r (ps, inl (e, f), t) =
    rw f (subst (λ x. IsTrace (timed_out ∷ x)) (sym e) (refl, subst IsTrace e t), refl)
late-Leaves r (ps, inr (e, f), t) = rw f (t, subst EndsFinal (sym e) refl)

next-Leaves :
    (ended : Bool) (r : Run) (more : Bool × Run)
    → Leaves (ended, r)
    → (IsWaiting r → Leaves more)
    → Leaves (if ended then (true, r) else more)
next-Leaves true r more d h = d
next-Leaves false r more w h = h w

pub loop-Leaves :
    (p : PollPolicy) (keep : Bool) (is : List Round) (r : Run)
    → IsWaiting r
    → Leaves (loop p keep is r)
unfolding loop
loop-Leaves p keep [] r w = w
loop-Leaves p keep (i ∷ is) r w =
    let (ended, r') = round p keep i r in
    if-Leaves i.canceled_at_start _ _ (canceled-Leaves r w) (
      if-Leaves (leb p.timeout i.elapsed) _ _ (late-Leaves r w) (
        next-Leaves ended r' (loop p keep is r') (round-Leaves p keep i r w)
          (λ v. loop-Leaves p keep is r' v)))

pub start-IsWaiting : (p : PollPolicy) → IsWaiting (start_of p)
start-IsWaiting p =
    (session_created ∷ creating_session ∷ [], inl (refl, refl), (refl, (refl, inl refl)))

start-Leaves :
    (first after keep : Bool) (session : Option PollPolicy) (is : List Round)
    → Leaves (run first session after keep is)
unfolding run report fail
start-Leaves true after keep session is = (inr refl, refl)
start-Leaves false true keep none is = ((refl, inl refl), refl)
start-Leaves false false keep none is = ((refl, inl refl), refl)
start-Leaves false true keep (some p) is = ((refl, inl refl), refl)
start-Leaves false false keep (some p) is = loop-Leaves p keep is (start_of p) (start-IsWaiting p)

sound : (l : Bool × Run) → Leaves l → IsTrace l.1.phases × (l.0 ≡ true → EndsFinal l.1.phases)
sound (true, r) (t, d) = (t, λ e. d)
sound (false, r) (ps, w, t) = (t, λ e. cc)

-- Whatever the server answers, and whenever the run is canceled: each phase that is reported may follow the
-- one before it, the first is the creation of the session or a cancellation, and a run that has ended
-- has reported success, a timeout, a failure or a cancellation last. After a success, only the
-- next answer or a cancellation may follow: no timeout does, but a cancellation does, where the
-- comment on keepPollingAfterAnswer has the late end report no phase.
pub run-IsTrace :
    (first after keep : Bool) (session : Option PollPolicy) (rounds : List Round)
    → let (ended, r) = run first session after keep rounds in
      IsTrace r.phases × (ended ≡ true → EndsFinal r.phases)
run-IsTrace first after keep session rounds =
    sound (run first session after keep rounds) (start-Leaves first after keep session rounds)
