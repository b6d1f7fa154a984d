-- ===== src/Twcc/Feedback.antt =====
-- The feedback packet of shared/receiver/rtc/twcc_receiver.cpp, and a reader of it by the draft's
-- description.
use kmvirtualcamera.Prelude.{
  ℕ, zero, suc, ◌+◌, ◌-◌, ◌*◌, ◌/◌, ◌%◌, ◌^◌, ◌≤◌, ◌<◌, ◌≡◌, sym, ap, ◌∙◌, Bool, true, false, not,
  ◌||◌, Option, none, some, List, [], ◌∷◌, ◌++◌, append_assoc, arith, leb, ◌==◌, if◌then◌else◌,
  length, drop, replicate, min, Bytes, byte, Bool-cases, inl, inr, All, get_or, sub16, IsU32,
  length-append, length-replicate,
}
use mathlib.Core.Path.{subst}
use kmvirtualcamera.Prelude.Int.{ℤ, pos, negsuc}
use kmvirtualcamera.Wire.{be16, be32}
use kmvirtualcamera.Twcc.{
  Arrival, Status, Twcc, ring_size, no_arrival, status_of, collect, delta_bytes, encode,
  chunk_bytes, reference24, body, fields_of, padding, report, packet_of, build_feedback, covered,
}
use kmvirtualcamera.Twcc.Chunks.{read_chunks, read_chunks-encode, encode-deltas}
use kmvirtualcamera.Twcc.Deltas.{
  Fits, read_deltas, read_deltas-delta_bytes, Fits-IsSymbol, collect-Fits, length-collect,
}

-- What a feedback packet says.
pub record Report : Type 0 where
  pub sender : ℕ
  pub media : ℕ
  pub base : ℕ
  pub reference : ℕ
  pub feedback_count : ℕ
  pub statuses : List Status

unfoldable pub read_feedback : Bytes → Report
read_feedback p =
    let count = be16 p 14 in
    let (ks, rest) = read_chunks count count (drop 20 p) in
    record {
      sender = be32 p 4;
      media = be32 p 8;
      base = be16 p 12;
      reference = byte p 16 * 2 ^ 16 + be16 p 17;
      feedback_count = byte p 19;
      statuses = read_deltas ks rest;
    }

abbrev pub missing : Status
missing = record { status = 0; units = pos 0 }

-- How many numbers a packet reports.
abbrev pub pending_window : Twcc → ℕ
pending_window t = min 512 (sub16 t.end t.base)

-- The length field counts words, less one.
abbrev pub IsWhole : Bytes → Type 0
IsWhole p = (be16 p 2 + 1) * 4 ≡ length p

length-delta_bytes : (ss : List Status) → length (delta_bytes ss) ≤ 2 * length ss
unfolding delta_bytes
length-delta_bytes [] = omega arith
length-delta_bytes (s ∷ ss) = ground (arith, length-delta_bytes ss)

length-chunk_bytes :
    (fuel : ℕ) (ss : List Status) → length (chunk_bytes (encode fuel ss).0) ≤ 2 * fuel
unfolding chunk_bytes encode
length-chunk_bytes zero ss = omega arith
length-chunk_bytes (suc fuel) [] = omega arith
length-chunk_bytes (suc fuel) (s ∷ ss) =
    omega (arith, length-chunk_bytes fuel (drop (covered s ss) (s ∷ ss)))

be16_lem : (n : ℕ) → n < 2 ^ 16 → n / 2 ^ 8 % 256 * 2 ^ 8 + n % 256 ≡ n
be16_lem n h = omega (arith, h)

be32_lem :
    (n : ℕ)
    → IsU32 n
    → (n / 2 ^ 24 % 256 * 2 ^ 8 + n / 2 ^ 16 % 256) * 2 ^ 16 + (n / 2 ^ 8 % 256 * 2 ^ 8 + n % 256)
      ≡ n
be32_lem n h = omega (arith, h)

reference24_bound : (r : ℤ) → reference24 r < 2 ^ 24
unfolding reference24
reference24_bound (pos n) = omega arith
reference24_bound (negsuc n) = omega arith

read_back :
    (ss : List Status) (pad : Bytes)
    → All Fits ss
    → (let (ks, rest) =
          read_chunks
            (length ss)
            (length ss)
            ((chunk_bytes (encode (length ss) ss).0 ++ (encode (length ss) ss).1) ++ pad) in
        read_deltas ks rest ≡ ss)
read_back ss pad ok =
    let (chunks, deltas) = encode (length ss) ss in
    rw
      (
        append_assoc (chunk_bytes chunks) deltas pad,
        read_chunks-encode (length ss) ss (deltas ++ pad) (Fits-IsSymbol ss ok) (omega arith),
        encode-deltas (length ss) ss (omega arith),
      )
      (read_deltas-delta_bytes ss pad ok)

padded :
    (content : Bytes) (m : ℕ)
    → length content ≤ m
    → (length (content ++ padding content) % 4 ≡ 0) × (length (content ++ padding content) ≤ m + 3)
unfolding padding
padded content m h =
    let n = (4 - length content % 4) % 4 in
    let e = length-append content (replicate n 0) in
    let k = length-replicate {A = ℕ} n 0 in (omega (arith, e, k), omega (arith, e, k, h))

module _ (t : Twcc) (reference : ℤ) (ss : List Status) (l : length ss ≤ 512) where
  packet_of-read :
      (sender media : ℕ)
      → IsU32 sender
      → IsU32 media
      → t.base < 2 ^ 16
      → All Fits ss
      → read_feedback (packet_of sender media (body t (length ss) ss reference)) ≡ record {
        sender = sender;
        media = media;
        base = t.base;
        reference = reference24 reference;
        feedback_count = t.feedback_count;
        statuses = ss;
      }
  unfolding read_feedback packet_of body fields_of
  packet_of-read sender media u v b ok =
      let r = reference24 reference in
      let time : r / 2 ^ 16 * 2 ^ 16 + (r / 2 ^ 8 % 256 * 2 ^ 8 + r % 256) ≡ r =
        omega (arith, reference24_bound reference) in
      rw
        (
          be16_lem (length ss) (omega (arith, l)),
          be32_lem sender u,
          be32_lem media v,
          be16_lem t.base b,
          time,
        )
        (ap
          (λ x. record {
            sender = sender;
            media = media;
            base = t.base;
            reference = r;
            feedback_count = t.feedback_count;
            statuses = x;
          })
          (read_back ss _ ok))

  body_size :
      (length (body t (length ss) ss reference) % 4 ≡ 0)
      × (length (body t (length ss) ss reference) ≤ 2059)
  unfolding body fields_of
  body_size =
      let (chunks, deltas) = encode (length ss) ss in
      let size : length (chunk_bytes chunks ++ deltas) ≤ 2048 = omega (
        arith,
        length-append (chunk_bytes chunks) deltas,
        length-chunk_bytes (length ss) ss,
        length-delta_bytes ss,
        ap length (encode-deltas (length ss) ss (omega arith)),
        l,
      ) in
      padded (fields_of t (length ss) ss reference) 2056 (omega (arith, size))

  packet_of-IsWhole :
      (sender media : ℕ) → IsWhole (packet_of sender media (body t (length ss) ss reference))
  unfolding packet_of
  packet_of-IsWhole sender media = omega (arith, body_size)

status_of-received : (u : ℤ) → leb 1 (status_of u).status ≡ true
unfolding status_of
status_of-received u = ground arith

-- What the packet says of the numbers from the base on.
collect-received :
    (n seq : ℕ) (records : List Arrival) (known : Option (ℤ × ℤ)) (i : ℕ)
    → i < n
    → leb 1 (get_or (collect n seq records known).0 i missing).status
      ≡ (get_or records ((seq + i) % 2 ^ 16 % ring_size) no_arrival).received
unfolding collect
collect-received zero seq records known i h = absurd (omega arith)
collect-received (suc n) seq records known zero h =
    let at : seq % ring_size ≡ (seq + 0) % 2 ^ 16 % ring_size = omega arith in
    elim (Bool-cases (get_or records (seq % ring_size) no_arrival).received) [
      | inl e ↦ first known e ∙ sym e ∙ ap (λ k. (get_or records k no_arrival).received) at
      | inr e ↦ rw e (sym e ∙ ap (λ k. (get_or records k no_arrival).received) at)
    ]
  where
    first :
        (known : Option (ℤ × ℤ))
        → (get_or records (seq % ring_size) no_arrival).received ≡ true
        → leb 1 (get_or (collect (suc n) seq records known).0 0 missing).status ≡ true
    first none e = rw e (status_of-received _)
    first (some (r, previous)) e = rw e (status_of-received _)
collect-received (suc n) seq records known (suc i) h =
    collect-received n ((seq + 1) % 2 ^ 16) records _ i (omega arith)
    ∙ ap (λ k. (get_or records k no_arrival).received) (omega arith)

module _ (sender media : ℕ) (t : Twcc) (p : Bytes) where
  abbrev reported : List Status
  reported = (collect (pending_window t) t.base t.records none).0

  if-some :
      (c : Bool) (x : Option Bytes × Twcc) → (if c then (none, t) else x).0 ≡ some p → x.0 ≡ some p
  if-some true x e = cc
  if-some false x e = e

  report-some :
      (n : ℕ) (ss : List Status) (known : Option (ℤ × ℤ))
      → (report sender media t n ss known).0 ≡ some p
      → (r : ℤ) × (p ≡ packet_of sender media (body t n ss r))
  unfolding report
  report-some n ss none e = cc
  report-some n ss (some (r, previous)) e = (r, cc)

  -- Whatever has arrived: a packet that is built has its length field right and, read back, gives the
  -- two SSRCs, the base, the count of feedback packets, and one status for each number of the pending
  -- window, 512 at most: the status and the delta that were collected, of which the status is not 0
  -- exactly for the numbers whose record is marked received. The SSRCs are of 32 bits, the base is of 16.
  pub build_feedback-read :
      IsU32 sender
      → IsU32 media
      → t.base < 2 ^ 16
      → (build_feedback sender media t).0 ≡ some p
      → IsWhole p
        × ((read_feedback p).sender ≡ sender)
        × ((read_feedback p).media ≡ media)
        × ((read_feedback p).base ≡ t.base)
        × ((read_feedback p).feedback_count ≡ t.feedback_count)
        × ((read_feedback p).statuses ≡ reported)
        × (length reported ≡ pending_window t)
        × ((i : ℕ)
            → i < pending_window t
            → leb 1 (get_or (read_feedback p).statuses i missing).status
              ≡ (get_or t.records ((t.base + i) % 2 ^ 16 % ring_size) no_arrival).received)
  unfolding build_feedback
  build_feedback-read u v b e =
      let n = pending_window t in
      let (r, at) = report-some n reported _ (if-some (not t.has_pending || n == 0) _ e) in
      let size = length-collect n t.base t.records none in
      let few : length reported ≤ 512 = omega (arith, size) in
      let p' = packet_of sender media (body t (length reported) reported r) in
      let same : p ≡ p' = at ∙ ap (λ k. packet_of sender media (body t k reported r)) (sym size) in
      let fields =
        ap read_feedback same
        ∙ packet_of-read t r reported few sender media u v b
            (collect-Fits n t.base t.records none) in
      (
        subst (λ q. IsWhole q) (sym same) (packet_of-IsWhole t r reported few sender media),
        ap (λ f. f.sender) fields,
        ap (λ f. f.media) fields,
        ap (λ f. f.base) fields,
        ap (λ f. f.feedback_count) fields,
        ap (λ f. f.statuses) fields,
        size,
        λ i l.
            ap (λ f. leb 1 (get_or f.statuses i missing).status) fields
            ∙ collect-received n t.base t.records none i l,
      )
