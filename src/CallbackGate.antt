-- ===== src/CallbackGate.antt =====
-- shared/km/callback_gate.h: leases that keep an owner alive while callbacks run in it. Each method
-- body runs under the mutex, except that `closeAndWait` lets go of it while it waits: it is two
-- steps, and other threads step between them. Threads are numbers.
pub mod Safety
mod Tests
use kmvirtualcamera.Prelude.{
  ℕ, zero, suc, ◌+◌, ◌-◌, ◌≡◌, Bool, true, false, Option, none, some, List, [], ◌∷◌, ◌++◌, ◌==◌,
  if◌then◌else◌, is_empty,
}

-- `users_`, the std::map from threads to counts: an association list without repeated keys.
abbrev pub Users : Type 0
Users = List (ℕ × ℕ)

pub record Gate : Type 0 where
  pub opened : Bool
  pub users : Users

pub initial : Gate
initial = record { opened = true; users = [] }

pub contains : ℕ → Users → Bool
contains t [] = false
contains t ((s, n) ∷ us) = if s == t then true else contains t us

-- `++users_[t]`, which inserts a missing key with count 0 first.
pub bump : ℕ → Users → Users
bump t [] = (t, 1) ∷ []
bump t ((s, n) ∷ us) = if s == t then (s, n + 1) ∷ us else (s, n) ∷ bump t us

-- `if (--it->second == 0) users_.erase(it)`; `none` is the end iterator, which the source would
-- dereference.
pub drop_user : ℕ → Users → Option Users
drop_user t [] = none
drop_user t ((s, n) ∷ us) =
    if s == t
    then some (if n - 1 == 0 then us else (s, n - 1) ∷ us)
    else elim (drop_user t us) [ none ↦ none | some us' ↦ some ((s, n) ∷ us') ]

-- `enter`: whether the caller got a lease.
pub enter : ℕ → Gate → Bool × Gate
enter t g = if g.opened then (true, record g { users = bump t g.users }) else (false, g)

-- `~Lease` of a lease in use, on thread `t`.
pub leave : ℕ → Gate → Option Gate
leave t g = elim (drop_user t g.users) [ none ↦ none | some us ↦ some (record g { users = us }) ]

-- `closeAndWait` up to its wait; `none` is the throw.
pub begin_close : ℕ → Gate → Option Gate
begin_close t g = if contains t g.users then none else some (record g { opened = false })

-- The predicate of the wait.
pub drained : Gate → Bool
drained g = is_empty g.users

-- A program around one gate: the thread of each lease in use, whether a thread waits in
-- `closeAndWait`, and whether the call has returned.
pub record System : Type 0 where
  pub gate : Gate
  pub leases : List ℕ
  pub closing : Bool
  pub closed : Bool

pub start : System
start = record { gate = initial; leases = []; closing = false; closed = false }

-- Leases end on the thread that entered, in any order.
pub data Step : System → System → Type 0 where
  enters :
      (s : System) (t : ℕ) (g : Gate)
      → enter t s.gate ≡ (true, g)
      → Step s (record s { gate = g; leases = t ∷ s.leases })
  refused :
      (s : System) (t : ℕ) (g : Gate) → enter t s.gate ≡ (false, g) → Step s (record s { gate = g })
  leaves :
      (s : System) (t : ℕ) (before after : List ℕ) (g : Gate)
      → s.leases ≡ before ++ t ∷ after
      → leave t s.gate ≡ some g
      → Step s (record s { gate = g; leases = before ++ after })
  closes :
      (s : System) (t : ℕ) (g : Gate)
      → begin_close t s.gate ≡ some g
      → Step s (record s { gate = g; closing = true })
  returns :
      (s : System) → s.closing ≡ true → drained s.gate ≡ true → Step s (record s { closed = true })

pub data Reach (s : System) : System → Type 0 where
  here : Reach s s
  next : {t u : System} → Reach s t → Step t u → Reach s u
