-- ===== src/CallbackGate/Tests.antt =====
-- A run of the gate, and the theorems at it: thread 7 takes a lease, thread 1 closes and has to wait
-- until the lease is gone.
use kmvirtualcamera.Prelude.{ℕ, ◌≡◌, refl, true, false, [], ◌∷◌}
use kmvirtualcamera.CallbackGate.{
  System, start, initial, bump, contains, drop_user, enter, leave, begin_close, drained, enters,
  leaves, closes, returns, Reach, here, next,
}
use kmvirtualcamera.CallbackGate.Safety.{Reach-closed}

abbrev entered : System
entered = record {
  gate = record { opened = true; users = (7, 1) ∷ [] };
  leases = 7 ∷ [];
  closing = false;
  closed = false;
}

abbrev closing : System
closing = record {
  gate = record { opened = false; users = (7, 1) ∷ [] };
  leases = 7 ∷ [];
  closing = true;
  closed = false;
}

abbrev left : System
left = record {
  gate = record { opened = false; users = [] };
  leases = [];
  closing = true;
  closed = false;
}

abbrev closed : System
closed = record left { closed = true }

Reach-entered : Reach start entered
unfolding start initial enter bump
Reach-entered = next here (enters start 7 entered.gate refl)

Reach-closing : Reach start closing
unfolding begin_close contains
Reach-closing = next Reach-entered (closes entered 1 closing.gate refl)

Reach-left : Reach start left
unfolding leave drop_user
Reach-left = next Reach-closing (leaves closing 7 [] [] left.gate refl refl)

Reach-end : Reach start closed
unfolding drained
Reach-end = next Reach-left (returns left refl refl)

Reach-closed_example : (closed.leases ≡ []) × ((t : ℕ) → (enter t closed.gate).0 ≡ false)
Reach-closed_example = Reach-closed Reach-end refl
