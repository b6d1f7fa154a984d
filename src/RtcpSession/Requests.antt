-- ===== src/RtcpSession/Requests.antt =====
-- The keyframe requests of shared/receiver/rtc/enhanced_rtcp_session.cpp over any history of calls.
use kmvirtualcamera.Prelude.{
  ℕ, ◌+◌, ◌/◌, ◌%◌, ◌≤◌, ◌≡◌, refl, Bool, true, false, not, ◌&&◌, ◌||◌, List, [], ◌∷◌, arith, ◌==◌,
  if◌then◌else◌, Bytes,
}
use kmvirtualcamera.Prelude.Int.{ℤ, pos, negsuc, pos_part, neg_part, ◌-ℤ◌, ltb_ℤ, leb_ℤ, -ℤ_parts}
use kmvirtualcamera.Twcc.{div_ℤ}
use kmvirtualcamera.RtcpSession.{
  Doubles, Session, make, write, put32, packet, pli, fir, deliver, set_bandwidth_estimator,
  set_transport_cc_extension_id, stop,
}
use kmvirtualcamera.RtcpSession.Calls.{
  Message, incoming, flush_feedback, request_bitrate, request_keyframe, request_keyframe_direct,
}
use kmvirtualcamera.RtcpSession.Histories.{
  Op, incomes, flushes, asks_bitrate, asks_keyframe, asks_directly, sets_estimator, sets_extension,
  stops, time_of, stamps, Spaced, stamps-quiet, perform, run, Keeps, perform-Keeps,
}

module _ {J : Type 0} (D : Doubles J) where
  -- The last request was no later than the state has it.
  abbrev IsLast : List ℕ → ℤ → Type 0
  IsLast [] last = Unit {0}
  IsLast (t ∷ ts) last = (neg_part last ≡ 0) × (t / 1000 ≤ pos_part last)

  abbrev IsThrottled : List ℕ × Session J → Type 0
  IsThrottled (times, s) = Spaced times × IsLast times s.last_pli

  Spaced-request :
      (times : List ℕ) (last : ℤ) (now : ℕ)
      → Spaced times
      → IsLast times last
      → (neg_part last ≡ 0 → pos_part last + 50 ≤ now / 1000)
      → Spaced (now ∷ times)
  Spaced-request [] last now s l h = tt
  Spaced-request (t ∷ ts) last now s (n, l) h = (omega (arith, h n, l), omega (arith, h n, l), s)

  IsLast-later :
      (times : List ℕ) (last : ℤ) (now : ℕ)
      → IsLast times last
      → (neg_part last ≡ 0 → pos_part last + 50 ≤ now)
      → IsLast times (pos now)
  IsLast-later [] last now l h = tt
  IsLast-later (t ∷ ts) last now (n, l) h = (refl, omega (arith, h n, l))

  asked-IsThrottled :
      (b c callable : Bool) (now sequence : ℕ) (times : List ℕ) (s : Session J)
      → IsThrottled (times, s)
      → (c ≡ true → neg_part s.last_pli ≡ 0 → pos_part s.last_pli + 50 ≤ now / 1000)
      → let (accepted, sent, t) : Bool × List Bytes × Session J =
          if b
          then (false, [], s)
          else if c
          then (
            true,
            deliver callable (pli s.ssrc ∷ fir s.ssrc s.fir_sequence ∷ []),
            record s { sender = callable; last_pli = pos (now / 1000); fir_sequence = sequence },
          )
          else (true, [], record s { sender = callable }) in
        IsThrottled (stamps now sent times, t)
  unfolding deliver pli fir put32 packet write
  asked-IsThrottled true c callable now sequence times s h k = h
  asked-IsThrottled false false callable now sequence times s h k = h
  asked-IsThrottled false true false now sequence times s (p, l) k =
      (p, IsLast-later times s.last_pli (now / 1000) l (k refl))
  asked-IsThrottled false true true now sequence times s (p, l) k =
      (Spaced-request times s.last_pli now p l (k refl), (refl, omega arith))

  gap :
      (now : ℕ) (s : Session J)
      → (not (s.ssrc == 0) && (ltb_ℤ s.last_pli (pos 0) || leb_ℤ (pos 50) (pos now -ℤ s.last_pli)))
        ≡ true
      → neg_part s.last_pli ≡ 0
      → pos_part s.last_pli + 50 ≤ now
  gap now s h n = ground (arith, h, n, -ℤ_parts (pos now) s.last_pli)

  request-IsThrottled :
      (now : ℕ) (callable : Bool) (times : List ℕ) (s : Session J)
      → IsThrottled (times, s)
      → let (accepted, sent, t) = request_keyframe D (pos now) callable s in
        IsThrottled (stamps now sent times, t)
  unfolding request_keyframe div_ℤ
  request-IsThrottled now callable times s h =
      asked-IsThrottled s.stopped
        (not (s.ssrc == 0)
          && (ltb_ℤ s.last_pli (pos 0) || leb_ℤ (pos 50) (pos (now / 1000) -ℤ s.last_pli)))
        callable now ((s.fir_sequence + 1) % 256) times s h (gap (now / 1000) s)

  kept-IsThrottled :
      (now : ℕ) (times : List ℕ) (s t : Session J) (sent : List Bytes)
      → IsThrottled (times, s)
      → Keeps D s (sent, t)
      → IsThrottled (stamps now sent times, t)
  kept-IsThrottled now times s t sent h (q, e) = rw (stamps-quiet now sent times q, e) h

  direct-IsThrottled :
      (b : Bool) (now : ℕ) (times : List ℕ) (s t : Session J) (sent : List Bytes)
      → IsThrottled (times, s)
      → IsThrottled (stamps now sent times, t)
      → let (m, u) : List Bytes × Session J = if b then (sent, t) else ([], s) in
        IsThrottled (stamps now m times, u)
  direct-IsThrottled true now times s t sent h k = k
  direct-IsThrottled false now times s t sent h k = h

  perform-IsThrottled :
      (o : Op) (times : List ℕ) (s : Session J)
      → IsThrottled (times, s)
      → IsThrottled (stamps (time_of o) (perform D o s).0 times, (perform D o s).1)
  unfolding perform request_keyframe_direct set_bandwidth_estimator set_transport_cc_extension_id
      stop
  perform-IsThrottled (asks_keyframe now callable) times s h =
      request-IsThrottled now callable times s h
  perform-IsThrottled (asks_directly taken now) times s h =
      let (accepted, sent, t) = request_keyframe D (pos now) true s in
      direct-IsThrottled taken now times s t sent h (request-IsThrottled now true times s h)
  perform-IsThrottled (incomes a now b c) times s h =
      kept-IsThrottled now times s (perform D (incomes a now b c) s).1
        (perform D (incomes a now b c) s).0 h (perform-Keeps D (incomes a now b c) s tt)
  perform-IsThrottled (flushes a now) times s h =
      kept-IsThrottled now times s (perform D (flushes a now) s).1 (perform D (flushes a now) s).0 h
        (perform-Keeps D (flushes a now) s tt)
  perform-IsThrottled (asks_bitrate a b) times s h =
      kept-IsThrottled 0 times s (perform D (asks_bitrate a b) s).1
        (perform D (asks_bitrate a b) s).0 h (perform-Keeps D (asks_bitrate a b) s tt)
  perform-IsThrottled (sets_estimator b) times s h = h
  perform-IsThrottled (sets_extension id) times s h = h
  perform-IsThrottled stops times s h = h

  run_from-IsThrottled :
      (s : Session J) (os : List Op) → s.last_pli ≡ negsuc 0 → IsThrottled (run D s os)
  unfolding run
  run_from-IsThrottled s [] h = (tt, tt)
  run_from-IsThrottled s (o ∷ os) h =
      let (times, t) = run D s os in perform-IsThrottled o times t (run_from-IsThrottled s os h)

  -- Whatever calls come at whatever times, with other calls between the two parts of
  -- RequestKeyframeDirect: by the clock readings of the calls that send them, in whole milliseconds, each
  -- picture loss indication comes at least 50 after the one before it; so more than 49 ms lie between
  -- two.
  pub run-Spaced :
      (clock_rate : ℕ) (now : ℤ) (os : List Op) → Spaced (run D (make D clock_rate now) os).0
  unfolding make
  run-Spaced clock_rate now os = (run_from-IsThrottled (make D clock_rate now) os refl).0

  -- A stopped session and what is left of a call on it.
  abbrev IsSilent : List Bytes × Session J → Type 0
  IsSilent (sent, s) = (sent ≡ []) × (s.stopped ≡ true)

  perform-IsSilent : (o : Op) (s : Session J) → s.stopped ≡ true → IsSilent (perform D o s)
  unfolding perform incoming flush_feedback request_bitrate request_keyframe request_keyframe_direct
      set_bandwidth_estimator set_transport_cc_extension_id stop
  perform-IsSilent (incomes a now b c) s h = rw (h, incoming) (refl, refl)
  perform-IsSilent (flushes a now) s h = rw h (refl, refl)
  perform-IsSilent (asks_bitrate a b) s h = rw h (refl, refl)
  perform-IsSilent (asks_keyframe now b) s h = rw h (refl, refl)
  perform-IsSilent (asks_directly true now) s h = rw h (refl, refl)
  perform-IsSilent (asks_directly false now) s h = (refl, h)
  perform-IsSilent (sets_estimator b) s h = (refl, h)
  perform-IsSilent (sets_extension id) s h = (refl, h)
  perform-IsSilent stops s h = (refl, refl)

  run-stopped : (os : List Op) (s : Session J) → s.stopped ≡ true → (run D s os).1.stopped ≡ true
  unfolding run
  run-stopped [] s h = h
  run-stopped (o ∷ os) s h = (perform-IsSilent o (run D s os).1 (run-stopped os s h)).1

  -- After a stop, whatever calls have followed: no call sends a message, and no message that arrives is
  -- handed on.
  pub stop-silent :
      (s : Session J) (os : List Op) (o : Op) (bitrate : ℕ) (now : ℤ) (callable : Bool)
      (messages : List Message)
      → let t = (run D (stop D s) os).1 in
        ((perform D o t).0 ≡ []) × ((incoming D bitrate now callable messages t).0 ≡ [])
  unfolding stop incoming
  stop-silent s os o bitrate now callable messages =
      let h = run-stopped os (stop D s) refl in
      ((perform-IsSilent o (run D (stop D s) os).1 h).0, rw (h, incoming) refl)
