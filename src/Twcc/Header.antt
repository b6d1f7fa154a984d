-- ===== src/Twcc/Header.antt =====
-- The packet type of the feedback of shared/receiver/rtc/twcc_receiver.cpp.
use kmvirtualcamera.Prelude.{
  ℕ, ◌≡◌, refl, Option, none, some, List, Bytes, byte, min, sub16, not, ◌||◌, ◌==◌, Bool-cases, inl,
  inr,
}
use kmvirtualcamera.Prelude.Int.{ℤ}
use kmvirtualcamera.Twcc.{Status, Twcc, collect, packet_of, report, build_feedback}

-- Transport-layer feedback, if it is a packet.
abbrev pub IsFeedback : Option Bytes → Type 0
IsFeedback none = Unit {0}
IsFeedback (some m) = byte m 1 ≡ 205

report-IsFeedback :
    (sender media count : ℕ) (t : Twcc) (ss : List Status) (known : Option (ℤ × ℤ))
    → IsFeedback (report sender media t count ss known).0
unfolding report packet_of
report-IsFeedback sender media count t ss none = tt
report-IsFeedback sender media count t ss (some (r, p)) = refl

pub build_feedback-IsFeedback :
    (sender media : ℕ) (t : Twcc) → IsFeedback (build_feedback sender media t).0
unfolding build_feedback
build_feedback-IsFeedback sender media t =
    let count = min 512 (sub16 t.end t.base) in
    elim (Bool-cases (not t.has_pending || count == 0)) [
      | inl e ↦ rw e tt
      | inr e ↦
          let (statuses, known) = collect count t.base t.records none in
          rw e (report-IsFeedback sender media count t statuses known)
    ]
