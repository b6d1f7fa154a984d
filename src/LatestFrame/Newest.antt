-- ===== src/LatestFrame/Newest.antt =====
-- shared/km/latest_frame.h: what is got over a history of calls, beside a list of the frames that were
-- accepted since the last reset.
use kmvirtualcamera.Prelude.{
  ℕ, ◌-◌, ◌^◌, ◌≤◌, ◌≡◌, refl, Bool, true, false, ◌||◌, Option, none, some, List, [], ◌∷◌, arith,
  ltb, ◌==◌, if◌then◌else◌, Bool-cases, inl, inr,
}
use kmvirtualcamera.LatestFrame.{LatestFrame, initial, reset, publish, get}

pub record History (A : Type 0) : Type 0 where
  pub now : LatestFrame A
  pub accepted : List (A × ℕ)

pub data Op (A : Type 0) : Type 0 where
  publishes : ℕ → Option A → ℕ → Op A
  resets : Op A

module _ {A : Type 0} where
  -- An accepted frame is put in front; a reset that does not throw starts anew.
  abbrev pub note : Bool → Option A → ℕ → List (A × ℕ) → List (A × ℕ)
  note true (some a) t xs = (a, t) ∷ xs
  note true none t xs = xs
  note false f t xs = xs

  unfoldable pub step : History A → Op A → History A
  step h (publishes g f t) = record {
    now = (publish g f t h.now).1;
    accepted = note (publish g f t h.now).0 f t h.accepted;
  }
  step h resets = elim (reset h.now) [ none ↦ h | some (g, s) ↦ record { now = s; accepted = [] } ]

  unfoldable pub replay : History A → List (Op A) → History A
  replay h [] = h
  replay h (o ∷ os) = replay (step h o) os

  unfoldable pub start : History A
  start = record { now = initial; accepted = [] }

  -- The newest accepted frame, if it has arrived by now and is no older than allowed.
  abbrev pub fresh : ℕ → ℕ → List (A × ℕ) → Option A
  fresh now age [] = none
  fresh now age ((a, t) ∷ xs) = if ltb now t || ltb age (now - t) then none else some a

  abbrev pub Descending : List (A × ℕ) → Type 0
  Descending [] = Unit {0}
  Descending (x ∷ []) = Unit {0}
  Descending ((a, t) ∷ (b, u) ∷ xs) = (u ≤ t) × Descending ((b, u) ∷ xs)

  abbrev Held : Option A → ℕ → List (A × ℕ) → Type 0
  Held f t [] = f ≡ none
  Held f t ((a, u) ∷ xs) = (f ≡ some a) × (t ≡ u)

  record Inv (h : History A) : Type 0 where
    held : Held h.now.frame h.now.arrival_ns h.accepted
    ordered : Descending h.accepted

  publish_keeps :
      (g : ℕ) (f : Option A) (t : ℕ) (s : LatestFrame A) (xs : List (A × ℕ))
      → Held s.frame s.arrival_ns xs
      → Descending xs
      → let (b, s') = publish g f t s in
        Held s'.frame s'.arrival_ns (note b f t xs) × Descending (note b f t xs)
  unfolding publish
  publish_keeps g none t s xs h d = elim (Bool-cases (g == s.generation)) [
    | inl e ↦ rw e (h, d)
    | inr e ↦ rw e (h, d)
  ]
  publish_keeps g (some a) t s [] h d = elim (Bool-cases (g == s.generation)) [
    | inl e ↦ rw (e, h) ((refl, refl), tt)
    | inr e ↦ rw e (h, d)
  ]
  publish_keeps g (some a) t s ((b, u) ∷ xs) (h, k) d = elim (Bool-cases (g == s.generation)) [
    | inl e ↦ elim (Bool-cases (ltb t s.arrival_ns)) [
      | inl l ↦ rw (e, h, l) ((refl, k), d)
      | inr l ↦ rw (e, h, l) ((refl, refl), (ground (arith, l, k), d))
    ]
    | inr e ↦ rw e ((h, k), d)
  ]

  publish-Inv :
      (g : ℕ) (f : Option A) (t : ℕ) (h : History A) → Inv h → Inv (step h (publishes g f t))
  unfolding step
  publish-Inv g f t h v =
      let (k, d) = publish_keeps g f t h.now h.accepted v.held v.ordered in
      record { held = k; ordered = d }

  reset-Inv : (h : History A) → Inv h → Inv (step h resets)
  unfolding step reset
  reset-Inv h v = elim (Bool-cases (h.now.generation == 2 ^ 64 - 1)) [
    | inl e ↦ rw (e, reset, step) v
    | inr e ↦ rw (e, reset, step) (record { held = refl; ordered = tt })
  ]

  replay_from-Inv : (os : List (Op A)) (h : History A) → Inv h → Inv (replay h os)
  unfolding replay
  replay_from-Inv [] h v = v
  replay_from-Inv (publishes g f t ∷ os) h v = replay_from-Inv os _ (publish-Inv g f t h v)
  replay_from-Inv (resets ∷ os) h v = replay_from-Inv os _ (reset-Inv h v)

  fresh_lem :
      (now age : ℕ) (s : LatestFrame A) (xs : List (A × ℕ))
      → Held s.frame s.arrival_ns xs
      → get now age s ≡ fresh now age xs
  unfolding get
  fresh_lem now age s [] h = rw h refl
  fresh_lem now age s ((a, t) ∷ xs) (h, k) = rw (h, k) refl

  -- After any calls, at any time and for any age allowed: the frame got is the one accepted last since
  -- the last reset, if it has arrived by then and is no older than allowed; and the arrival times of
  -- the frames accepted since then never decrease.
  pub get-fresh :
      (os : List (Op A)) (now age : ℕ)
      → let h = replay start os in
        (get now age h.now ≡ fresh now age h.accepted) × Descending h.accepted
  get-fresh os now age =
      let v =
        replay_from-Inv os start (unfold start initial in (record { held = refl; ordered = tt })) in
      (fresh_lem now age (replay start os).now (replay start os).accepted v.held, v.ordered)
