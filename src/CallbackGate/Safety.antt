-- ===== src/CallbackGate/Safety.antt =====
-- shared/km/callback_gate.h: the invariant of the gate, over the interleavings of its threads.
use kmvirtualcamera.Prelude.{
  ℕ, ◌+◌, ◌<◌, ◌≡◌, refl, ◌∙◌, ap, ◌≢◌, true, false, none, some, List, [], ◌∷◌, ◌++◌, arith, ◌==◌,
  if◌then◌else◌, Option-cases, inl, inr,
}
use kmvirtualcamera.CallbackGate.{
  Users, Gate, initial, bump, drop_user, enter, leave, begin_close, drained, System, start, Step,
  enters, refused, leaves, closes, returns, Reach, here, next,
}

-- The count of a thread in the map, and in the list of leases in use.
unfoldable pub count : ℕ → Users → ℕ
count t [] = 0
count t ((s, n) ∷ us) = (if s == t then n else 0) + count t us

unfoldable pub in_use : ℕ → List ℕ → ℕ
in_use t [] = 0
in_use t (s ∷ ls) = (if s == t then 1 else 0) + in_use t ls

in_use-append : (t : ℕ) (xs ys : List ℕ) → in_use t (xs ++ ys) ≡ in_use t xs + in_use t ys
unfolding in_use
in_use-append t [] ys = omega arith
in_use-append t (x ∷ xs) ys = omega (arith, in_use-append t xs ys)

abbrev pub AllPositive : Users → Type 0
AllPositive [] = Unit {0}
AllPositive ((s, n) ∷ us) = (0 < n) × AllPositive us

bump-count : (t u : ℕ) (us : Users) → count u (bump t us) ≡ (if t == u then 1 else 0) + count u us
unfolding count bump
bump-count t u [] = ground arith
bump-count t u ((s, n) ∷ us) = ground (arith, bump-count t u us)

bump-AllPositive : (t : ℕ) (us : Users) → AllPositive us → AllPositive (bump t us)
unfolding bump
bump-AllPositive t [] h = omega arith
bump-AllPositive t ((s, n) ∷ us) h = ground (arith, bump-AllPositive t us h.1)

drop_user_lem :
    (t u : ℕ) (us : Users) {us' : Users}
    → AllPositive us
    → drop_user t us ≡ some us'
    → (count u us ≡ (if t == u then 1 else 0) + count u us') × AllPositive us'
unfolding count drop_user
drop_user_lem t u [] h e = cc
drop_user_lem t u ((s, n) ∷ us) h e = elim (Option-cases (drop_user t us)) [
  | inl r ↦ ground (arith, r)
  | inr (w, r) ↦ ground (arith, r, drop_user_lem t u us {us' = w} h.1 r)
]

-- The map counts the leases in use, thread by thread, and holds no thread without one; once the
-- call has returned, the gate is shut and the map is empty.
pub record Inv (s : System) : Type 0 where
  pub counts : (t : ℕ) → count t s.gate.users ≡ in_use t s.leases
  pub positive : AllPositive s.gate.users
  pub shut : s.closing ≡ true → s.gate.opened ≡ false
  pub over : s.closed ≡ true → (s.gate.opened ≡ false) × (s.gate.users ≡ [])

enter_granted :
    (t : ℕ) (g : Gate) {g' : Gate}
    → enter t g ≡ (true, g')
    → (g.opened ≡ true) × (g'.opened ≡ true) × (g'.users ≡ bump t g.users)
unfolding enter
enter_granted t g e = ground arith

enter_refused : (t : ℕ) (g : Gate) {g' : Gate} → enter t g ≡ (false, g') → g ≡ g'
unfolding enter
enter_refused t g e = ground arith

leave_lem :
    (t : ℕ) (g : Gate) {g' : Gate}
    → leave t g ≡ some g'
    → (drop_user t g.users ≡ some g'.users) × (g'.opened ≡ g.opened)
unfolding leave
leave_lem t g e = ground arith

begin_close_lem :
    (t : ℕ) (g : Gate) {g' : Gate}
    → begin_close t g ≡ some g'
    → (g'.opened ≡ false) × (g'.users ≡ g.users)
unfolding begin_close
begin_close_lem t g e = ground arith

drop_user-nil : (t : ℕ) → drop_user t [] ≡ none
unfolding drop_user
drop_user-nil t = refl

drained_lem : (g : Gate) → drained g ≡ true → g.users ≡ []
unfolding drained
drained_lem g d = ground arith

Step-Inv : {s u : System} → Step s u → Inv s → Inv u
Step-Inv (enters s t g e) v =
    let (was, is, users) = enter_granted t s.gate e in
    record {
      counts =
          λ u. rw users (unfold in_use in omega (arith, bump-count t u s.gate.users, v.counts u));
      positive = rw users (bump-AllPositive t s.gate.users v.positive);
      shut = λ c. cc (was, v.shut c);
      over = λ c. cc (was, (v.over c).0);
    }
Step-Inv (refused s t g e) v = rw (← enter_refused t s.gate e) v
Step-Inv (leaves s t before after g l e) v =
    let (users, same) = leave_lem t s.gate e in
    record {
      counts = λ u.
          unfold in_use in
          omega (
            arith,
            (drop_user_lem t u s.gate.users v.positive users).0,
            v.counts u,
            ap (in_use u) l,
            in_use-append u before (t ∷ after),
            in_use-append u before after,
          );
      positive = (drop_user_lem t t s.gate.users v.positive users).1;
      shut = λ c. same ∙ v.shut c;
      over = λ c. cc (users, ap (drop_user t) (v.over c).1, drop_user-nil t);
    }
Step-Inv (closes s t g e) v =
    let (shut, users) = begin_close_lem t s.gate e in
    record {
      counts = λ u. rw users (v.counts u);
      positive = rw users v.positive;
      shut = λ c. shut;
      over = λ c. (shut, users ∙ (v.over c).1);
    }
Step-Inv (returns s c d) v =
    let empty = drained_lem s.gate d in
    record {
      counts = v.counts;
      positive = v.positive;
      shut = v.shut;
      over = λ _. (v.shut c, empty);
    }

Reach-Inv : {s : System} → Reach start s → Inv s
Reach-Inv (next r st) = Step-Inv st (Reach-Inv r)
Reach-Inv here =
    unfold start initial count in_use in
    record { counts = λ t. refl; positive = tt; shut = λ c. cc; over = λ c. cc }

none_in_use : (ls : List ℕ) → ((t : ℕ) → in_use t ls ≡ 0) → ls ≡ []
unfolding in_use
none_in_use [] h = refl
none_in_use (t ∷ ls) h = ground (arith, h t)

-- However the threads interleave: once `closeAndWait` has returned, no lease is in use, and `enter`
-- refuses every thread.
pub Reach-closed :
    {s : System}
    → Reach start s
    → s.closed ≡ true
    → (s.leases ≡ []) × ((t : ℕ) → (enter t s.gate).0 ≡ false)
unfolding enter
Reach-closed {s} r c =
    let v = Reach-Inv r in
    let (shut, empty) = v.over c in
    (
      none_in_use s.leases (λ t. unfold count in omega (arith, v.counts t, ap (count t) empty)),
      λ t. rw shut,
    )

drop_user-ne-none : (t : ℕ) (us : Users) → 0 < count t us → drop_user t us ≢ none
unfolding count drop_user
drop_user-ne-none t [] h e = absurd (omega arith)
drop_user-ne-none t ((s, n) ∷ us) h e = ground (arith, drop_user-ne-none t us)

no_users : (us : Users) → AllPositive us → ((t : ℕ) → count t us ≡ 0) → us ≡ []
unfolding count
no_users [] p h = refl
no_users ((s, n) ∷ us) p h = ground (arith, h s)

leave-eq-none : (t : ℕ) (g : Gate) → leave t g ≡ none → drop_user t g.users ≡ none
unfolding leave
leave-eq-none t g e = ground arith

-- A lease that is in use can end at any time: its destructor finds the thread in the map.
pub Reach-leave :
    {s : System} (t : ℕ) → Reach start s → 0 < in_use t s.leases → leave t s.gate ≢ none
Reach-leave {s} t r h e =
    let v = Reach-Inv r in
    drop_user-ne-none t s.gate.users (omega (arith, v.counts t)) (leave-eq-none t s.gate e)

-- The wait of `closeAndWait` is over as soon as no lease is in use.
pub Reach-drained : {s : System} → Reach start s → s.leases ≡ [] → drained s.gate ≡ true
unfolding drained
Reach-drained {s} r e =
    let v = Reach-Inv r in
    rw (
      no_users s.gate.users v.positive
        (λ u. unfold in_use in omega (arith, v.counts u, ap (in_use u) e)))
