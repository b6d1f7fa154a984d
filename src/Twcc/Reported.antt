-- ===== src/Twcc/Reported.antt =====
-- Histories of shared/receiver/rtc/twcc_receiver.cpp, and what becomes of the packet that comes next.
use kmvirtualcamera.Prelude.{
  ℕ, ◌+◌, ◌%◌, ◌^◌, ◌≤◌, ◌<◌, ◌≡◌, ◌≢◌, sym, ap, ◌∙◌, true, false, none, some, List, [], ◌∷◌, arith,
  Bytes, get_or, sub16, IsU32, All, Option-cases, inl, inr, leb→le,
}
use mathlib.Core.Path.{subst}
use kmvirtualcamera.Prelude.Int.{ℤ}
use kmvirtualcamera.Twcc.{
  Twcc, ring_size, no_arrival, reset, pending_count, on_packet, build_feedback,
}
use kmvirtualcamera.Twcc.Feedback.{read_feedback, missing, pending_window, build_feedback-read}
use kmvirtualcamera.Twcc.Window.{
  IsSound, reset-IsSound, on_packet-IsSound, on_packet-IsPending, build_feedback-window,
}

pub data Op : Type 0 where
  arrives : ℕ → ℤ → ℕ → Op
  builds : ℕ → ℕ → Op
  resets : Op

-- Transport-wide sequence numbers are of 16 bits.
abbrev pub IsOp : Op → Type 0
IsOp (arrives seq time size) = seq < 2 ^ 16
IsOp (builds sender media) = Unit
IsOp resets = Unit

unfoldable pub step : Op → Twcc → Twcc
step (arrives seq time size) t = on_packet seq time size t
step (builds sender media) t = (build_feedback sender media t).1
step resets t = reset t

-- The calls, the newest first.
unfoldable pub replay : Twcc → List Op → Twcc
replay t [] = reset t
replay t (o ∷ os) = step o (replay t os)

build_feedback-IsSound :
    (sender media : ℕ) (t : Twcc) → IsSound t → IsSound (build_feedback sender media t).1
build_feedback-IsSound sender media t s =
    let (idle, due) = build_feedback-window sender media t s in
    elim (Option-cases (build_feedback sender media t).0) [
      | inl e ↦ subst IsSound (sym (idle e).0) s
      | inr (p, e) ↦ (due (λ q. some_ne (sym e ∙ q))).sound
    ]
  where
    some_ne : {p : Bytes} → some p ≢ none
    some_ne e = cc

pub replay-IsSound : (t : Twcc) (os : List Op) → All IsOp os → IsSound (replay t os)
unfolding replay step
replay-IsSound t [] h = reset-IsSound t
replay-IsSound t (arrives seq time size ∷ os) (h, k) =
    on_packet-IsSound seq time size (replay t os) h (replay-IsSound t os k)
replay-IsSound t (builds sender media ∷ os) (h, k) =
    build_feedback-IsSound sender media (replay t os) (replay-IsSound t os k)
replay-IsSound t (resets ∷ os) h = reset-IsSound (replay t os)

-- Whatever packets, reports and resets came before: the next packet is pending, and if fewer than 512
-- numbers from the base on come before its own, the next feedback is built and reports it as received.
pub arrival-reported :
    (t : Twcc) (os : List Op) (seq : ℕ) (time : ℤ) (size sender media : ℕ)
    → All IsOp os
    → seq < 2 ^ 16
    → IsU32 sender
    → IsU32 media
    → (let now = on_packet seq time size (replay t os) in
        (sub16 seq now.base < pending_count now)
        × (sub16 seq now.base < 512
            → (p : Bytes) × ((build_feedback sender media now).0 ≡ some p)
              × (1 ≤ (get_or (read_feedback p).statuses (sub16 seq now.base) missing).status)))
unfolding pending_count
arrival-reported t os seq time size sender media h k u v =
    let now = on_packet seq time size (replay t os) in
    let s = on_packet-IsSound seq time size (replay t os) k (replay-IsSound t os h) in
    let ((on, inside), kept) =
      on_packet-IsPending seq time size (replay t os) k (replay-IsSound t os h) in
    let i = sub16 seq now.base in
    let at : (now.base + i) % 2 ^ 16 % ring_size ≡ seq % ring_size = omega (arith, k, s.base) in
    let got : (get_or now.records ((now.base + i) % 2 ^ 16 % ring_size) no_arrival).received
        ≡ true =
      ap (λ j. (get_or now.records j no_arrival).received) at ∙ ap (λ a. a.received) kept in
    (
      rw on inside,
      λ few.
          let within : i < pending_window now = omega (arith, few, inside) in
          elim (Option-cases (build_feedback sender media now).0) [
            | inl e ↦
                let idle = (build_feedback-window sender media now s).0 e in
                absurd (differ (sym got ∙ idle.1 on i within))
            | inr (p, e) ↦
                let (_, _, _, _, _, _, _, flags) =
                  build_feedback-read sender media now p u v s.base e in
                (p, e, leb→le 1 _ (flags i within ∙ got))
          ],
    )
  where
    differ : true ≢ false
    differ e = cc
