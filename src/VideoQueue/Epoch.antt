-- ===== src/VideoQueue/Epoch.antt =====
-- shared/km/bounded_video_queue.h: the queue beside a record of what it accepted and handed out since
-- the last loss.
use kmvirtualcamera.Prelude.{
  ℕ, ◌≡◌, refl, sym, ap, ◌∙◌, ◌≢◌, Bool, true, false, not, ◌&&◌, ◌||◌, Option, none, some, List, [],
  ◌∷◌, ◌++◌, append_assoc, arith, if◌then◌else◌, ◌==◌, Bytes, is_empty, Bool-cases, inl, inr, ◌↔◌,
}
use kmvirtualcamera.Prelude.Int.{ℤ}
use kmvirtualcamera.VideoQueue.{
  AccessUnit, VideoQueue, initial, clear, reset, invalidate, accept, overloads, unit_of, enqueue,
  push, pop_from, pop, Op, pushes, pops, resets, invalidates, configured_idr,
}

-- A history: the queue, with what it accepted and what it handed out since a loss (an overflow,
-- an invalidation or a reset) last emptied it.
pub record History : Type 0 where
  pub now : VideoQueue
  pub accepted : List AccessUnit
  pub handed : List AccessUnit

-- A push that empties the queue shows in the serial.
pub record_push : History → AccessUnit → Bool × VideoQueue → History
record_push h u (taken, q) =
    if q.reset_serial == h.now.reset_serial
    then record {
      now = q;
      accepted = if taken then h.accepted ++ u ∷ [] else h.accepted;
      handed = h.handed;
    }
    else record { now = q; accepted = []; handed = [] }

pub record_pop : History → Option AccessUnit × VideoQueue → History
record_pop h (none, q) = record h { now = q }
record_pop h (some u, q) = record h { now = q; handed = h.handed ++ u ∷ [] }

pub advance : History → Op → History
advance h (pushes b t g) = record_push h (unit_of h.now b t) (push h.now b t g)
advance h pops = record_pop h (pop h.now)
advance h resets = record { now = (reset h.now).1; accepted = []; handed = [] }
advance h invalidates = record { now = invalidate h.now; accepted = []; handed = [] }

pub replay : History → List Op → History
replay h [] = h
replay h (o ∷ os) = replay (advance h o) os

-- A configured IDR stands first, if anything does.
abbrev pub StartsConfigured : List AccessUnit → Type 0
StartsConfigured [] = Unit {0}
StartsConfigured (u ∷ us) = configured_idr u.bytes ≡ true

pub record Inv (h : History) : Type 0 where
  pub starts : StartsConfigured h.accepted
  pub idle : (h.now.waiting ≡ true) ↔ (h.accepted ≡ [])
  pub in_order : h.accepted ≡ h.handed ++ h.now.queue

StartsConfigured-append :
    (us : List AccessUnit) (u : AccessUnit)
    → StartsConfigured us
    → (us ≡ [] → configured_idr u.bytes ≡ true)
    → StartsConfigured (us ++ u ∷ [])
StartsConfigured-append [] u h k = k refl
StartsConfigured-append (v ∷ us) u h k = h

append-ne-nil : (us : List AccessUnit) (u : AccessUnit) → us ++ u ∷ [] ≢ []
append-ne-nil [] u e = cc
append-ne-nil (v ∷ us) u e = cc

lost-Inv : (h : History) (u : AccessUnit) → Inv (record_push h u (false, clear h.now))
unfolding record_push clear
lost-Inv h u = ground arith

kept-Inv : (h : History) (u : AccessUnit) → Inv h → Inv (record_push h u (false, h.now))
unfolding record_push
kept-Inv h u v = ground arith

queued-Inv :
    (h : History) (u : AccessUnit)
    → (h.now.waiting && not (configured_idr u.bytes)) ≡ false
    → Inv h
    → Inv (record_push h u (true, enqueue h.now u (configured_idr u.bytes)))
unfolding record_push enqueue
queued-Inv h u k v = ground (
  arith,
  StartsConfigured-append h.accepted u v.starts,
  append_assoc h.handed h.now.queue (u ∷ []),
  append-ne-nil h.accepted u,
  v.idle.0,
  v.idle.1,
)

accept-Inv :
    (h : History) (b : Bytes) (t : ℤ)
    → Inv h
    → Inv (record_push h (unit_of h.now b t) (accept h.now b t (configured_idr b)))
unfolding accept
accept-Inv h b t v = elim (Bool-cases (overloads h.now b)) [
  | inl o ↦ rw o (lost-Inv h (unit_of h.now b t))
  | inr o ↦ elim (Bool-cases (h.now.waiting && not (configured_idr b))) [
    | inl w ↦ rw (o, w) (kept-Inv h (unit_of h.now b t) v)
    | inr w ↦ rw (o, w) (unfold unit_of in queued-Inv h (unit_of h.now b t) w v)
  ]
]

push-Inv :
    (h : History) (b : Bytes) (t : ℤ) (g : ℕ)
    → Inv h
    → Inv (record_push h (unit_of h.now b t) (push h.now b t g))
unfolding push
push-Inv h b t g v = elim (Bool-cases (is_empty b || not (g == h.now.generation))) [
  | inl e ↦ rw e (kept-Inv h (unit_of h.now b t) v)
  | inr e ↦ rw e (accept-Inv h b t v)
]

pop_from-Inv :
    (us : List AccessUnit) (h : History)
    → us ≡ h.now.queue
    → Inv h
    → Inv (record_pop h (pop_from us h.now))
unfolding pop_from record_pop
pop_from-Inv [] h e v = v
pop_from-Inv (u ∷ us) h e v = record {
  starts = v.starts;
  idle = v.idle;
  in_order = v.in_order ∙ ap (◌++◌ h.handed) (sym e) ∙ sym (append_assoc h.handed (u ∷ []) us);
}

advance-Inv : (h : History) (o : Op) → Inv h → Inv (advance h o)
unfolding advance
advance-Inv h (pushes b t g) v = push-Inv h b t g v
advance-Inv h pops v = unfold pop in pop_from-Inv h.now.queue h refl v
advance-Inv h resets v = unfold reset clear in ground arith
advance-Inv h invalidates v = unfold invalidate clear in ground arith

replay-Inv_from : (os : List Op) (h : History) → Inv h → Inv (replay h os)
unfolding replay
replay-Inv_from [] h v = v
replay-Inv_from (o ∷ os) h v = replay-Inv_from os (advance h o) (advance-Inv h o v)

pub start : History
start = record { now = initial; accepted = []; handed = [] }

-- After any calls: what was accepted since the last loss is exactly what was handed out followed
-- by what is still queued, in order; if that is anything, its first unit is a configured IDR; and
-- the queue waits for one exactly when it has accepted nothing since.
pub replay-Inv : (os : List Op) → Inv (replay start os)
unfolding start initial
replay-Inv os = replay-Inv_from os start (ground arith)
