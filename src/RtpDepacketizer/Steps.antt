-- ===== src/RtpDepacketizer/Steps.antt =====
-- shared/receiver/codec/h264_rtp_depacketizer.cpp: the invariant, and the steps below `emit`.
use kmvirtualcamera.Prelude.{
  ℕ, ◌+◌, ◌≤◌, ◌≡◌, refl, sym, ap, ◌∙◌, ◌⊎◌, inl, inr, Bool, true, false, not, ◌||◌, List, [], ◌∷◌,
  ◌++◌, append_assoc, append-nil, arith, length, length-append, Bytes, All, All-append, ◌==◌,
  Bool-cases, ==_iff,
}
use kmvirtualcamera.H264.Split.{annex_b}
use kmvirtualcamera.RtpDepacketizer.{
  Event, frame, keyframe_request, Depacketizer, max_access_unit, nal_type, valid_nal, same_bytes,
  clear_au, reset, lose, oversized, note_nalu, append_nalu,
}

-- NAL units of a type among those of an access unit.
abbrev pub holds : ℕ → List Bytes → Bool
holds t [] = false
holds t (n ∷ ns) = nal_type n == t || holds t ns

abbrev pub IsNal : Bytes → Type 0
IsNal n = valid_nal n ≡ true

-- An access unit that a decoder can start at: framed NAL units with a parameter set of each kind
-- and an IDR slice.
pub record IsConfigured (b : Bytes) : Type 0 where
  pub nals : List Bytes
  pub framed : b ≡ annex_b nals
  pub valid : All IsNal nals
  pub sps : holds 7 nals ≡ true
  pub pps : holds 8 nals ≡ true
  pub idr : holds 5 nals ≡ true

-- Whether a decoder must wait for a configured IDR, by the events so far (newest first).
abbrev pub expects : List Event → Bool
expects [] = true
expects (frame b t ∷ es) = false
expects (keyframe_request ∷ es) = true

-- Every frame comes where none is awaited, or is configured.
abbrev pub Decodable : List Event → Type 0
Decodable [] = Unit {0}
Decodable (frame b t ∷ es) =
    ((expects es ≡ false) ⊎ IsConfigured b) × (length b ≤ max_access_unit) × Decodable es
Decodable (keyframe_request ∷ es) = Decodable es

-- What the buffer of an undamaged access unit holds.
pub record Assembled (d : Depacketizer) : Type 0 where
  pub nals : List Bytes
  pub framed : d.au ≡ annex_b nals
  pub valid : All IsNal nals
  pub sps_in : d.has_sps ≡ true → holds 7 nals ≡ true
  pub pps_in : d.has_pps ≡ true → holds 8 nals ≡ true
  pub idr_in : d.idr ≡ true → holds 5 nals ≡ true

-- A kept parameter set.
abbrev pub Kept : ℕ → Bytes → Type 0
Kept t n = (n ≡ []) ⊎ (IsNal n × (nal_type n ≡ t) × (length n ≤ 65536))

pub record Inv (d : Depacketizer) : Type 0 where
  pub assembled : d.damaged ≡ false → Assembled d
  pub sps_kept : Kept 7 d.sps
  pub pps_kept : Kept 8 d.pps
  pub bounded : length d.au ≤ max_access_unit
  pub decodable : Decodable d.events
  pub awaited : expects d.events ≡ true → d.waiting ≡ true

pub annex_b-append : (ms ns : List Bytes) → annex_b (ms ++ ns) ≡ annex_b ms ++ annex_b ns
annex_b-append [] ns = refl
annex_b-append (m ∷ ms) ns =
    ap (λ r. 0 ∷ 0 ∷ 0 ∷ 1 ∷ r)
      (ap (◌++◌ m) (annex_b-append ms ns) ∙ sym (append_assoc m (annex_b ms) (annex_b ns)))

pub holds-append : (t : ℕ) (ms ns : List Bytes) → holds t (ms ++ ns) ≡ (holds t ms || holds t ns)
holds-append t [] ns = refl
holds-append t (m ∷ ms) ns = ground (arith, holds-append t ms ns)

pub clear_au-Inv : (d : Depacketizer) → Inv d → Inv (clear_au d)
unfolding clear_au
clear_au-Inv d v = record {
  assembled = λ _. record {
    nals = [];
    framed = refl;
    valid = tt;
    sps_in = λ e. e;
    pps_in = λ e. e;
    idr_in = λ e. e;
  };
  sps_kept = v.sps_kept;
  pps_kept = v.pps_kept;
  bounded = omega arith;
  decodable = v.decodable;
  awaited = v.awaited;
}

pub lose-Inv : (d : Depacketizer) → Inv d → Inv (lose d)
unfolding lose
lose-Inv d v = record {
  assembled = λ e. cc;
  sps_kept = v.sps_kept;
  pps_kept = v.pps_kept;
  bounded = omega arith;
  decodable = v.decodable;
  awaited = λ _. refl;
}

pub reset-Inv : (d : Depacketizer) → Inv d → Inv (reset d)
unfolding reset
reset-Inv d v =
    let w = clear_au-Inv d v in
    record {
      assembled = λ _.
          unfold clear_au in
          record {
            nals = [];
            framed = refl;
            valid = tt;
            sps_in = λ e. e;
            pps_in = λ e. e;
            idr_in = λ e. e;
          };
      sps_kept = inl refl;
      pps_kept = inl refl;
      bounded = w.bounded;
      decodable = w.decodable;
      awaited = λ _. refl;
    }

-- What `oversized` leaves.
oversized_lem :
    (d : Depacketizer) (n : Bytes)
    → oversized d n ≡ false
    → (length d.au + length n + 4 ≤ max_access_unit)
      × ((nal_type n ≡ 7) ⊎ (nal_type n ≡ 8) → length n ≤ 65536)
unfolding oversized
oversized_lem d n e = (ground arith, λ k. ground arith)

note_nalu-Assembled :
    (d : Depacketizer) (n : Bytes) → IsNal n → Assembled d → Assembled (note_nalu d n)
unfolding note_nalu
note_nalu-Assembled d n h a =
    let last = holds-append 7 a.nals (n ∷ []) in
    record {
      nals = a.nals ++ n ∷ [];
      framed =
          ap (λ u. u ++ (0 ∷ 0 ∷ 0 ∷ 1 ∷ n)) a.framed
          ∙ sym (
              annex_b-append a.nals (n ∷ [])
              ∙ ap (λ t. annex_b a.nals ++ (0 ∷ 0 ∷ 0 ∷ 1 ∷ t)) (append-nil n));
      valid = All-append IsNal a.nals (n ∷ []) a.valid (h, tt);
      sps_in = λ e. ground (arith, holds-append 7 a.nals (n ∷ []), a.sps_in);
      pps_in = λ e. ground (arith, holds-append 8 a.nals (n ∷ []), a.pps_in);
      idr_in = λ e. ground (arith, holds-append 5 a.nals (n ∷ []), a.idr_in);
    }

note_nalu-Inv :
    (d : Depacketizer) (n : Bytes) → IsNal n → oversized d n ≡ false → Inv d → Inv (note_nalu d n)
note_nalu-Inv d n h o v =
    let (fits, small) = oversized_lem d n o in
    unfold note_nalu in
    record {
      assembled = λ e. note_nalu-Assembled d n h (v.assembled e);
      sps_kept = elim (Bool-cases (nal_type n == 7)) [
        | inl t ↦
            rw t (inr (h, (==_iff (nal_type n) 7).0 t, small (inl ((==_iff (nal_type n) 7).0 t))))
        | inr f ↦ rw f v.sps_kept
      ];
      pps_kept = elim (Bool-cases (nal_type n == 7)) [
        | inl t ↦ elim (Bool-cases (same_bytes d.sps n)) [
          | inl same ↦ rw (t, same) v.pps_kept
          | inr other ↦ rw (t, other) (inl refl)
        ]
        | inr f ↦ elim (Bool-cases (nal_type n == 8)) [
          | inl t ↦
              rw (f, t)
                (inr (h, (==_iff (nal_type n) 8).0 t, small (inr ((==_iff (nal_type n) 8).0 t))))
          | inr g ↦ rw (f, g) v.pps_kept
        ]
      ];
      bounded = omega (arith, length-append d.au (0 ∷ 0 ∷ 0 ∷ 1 ∷ n));
      decodable = v.decodable;
      awaited = v.awaited;
    }

pub append_nalu-Inv : (d : Depacketizer) (n : Bytes) → Inv d → Inv (append_nalu d n).1
unfolding append_nalu
append_nalu-Inv d n v = elim (Bool-cases (not (valid_nal n) || oversized d n)) [
  | inl e ↦ rw e v
  | inr e ↦ rw e (note_nalu-Inv d n (ground arith) (ground arith) v)
]
