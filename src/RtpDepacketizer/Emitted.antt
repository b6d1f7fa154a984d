-- ===== src/RtpDepacketizer/Emitted.antt =====
-- shared/receiver/codec/h264_rtp_depacketizer.cpp: the invariant at `emit`.
use kmvirtualcamera.Prelude.{
  ℕ, ◌-◌, ◌≤◌, ◌≡◌, refl, sym, ap, ap₂, ◌∙◌, ◌⊎◌, inl, inr, Bool, true, false, not, ◌||◌, List, [],
  ◌∷◌, ◌++◌, append_assoc, append-nil, arith, length, length-append, Bytes, All, All-append,
  is_empty, ltb, if◌then◌else◌, Bool-cases,
}
use kmvirtualcamera.H264.Split.{annex_b}
use kmvirtualcamera.RtpDepacketizer.{
  Event, frame, keyframe_request, Depacketizer, max_access_unit, append, clear_au, good,
  missing_sets, deliver, emit,
}
use kmvirtualcamera.RtpDepacketizer.Steps.{
  Inv, IsNal, IsConfigured, Assembled, Kept, Decodable, expects, holds, annex_b-append,
  clear_au-Inv,
}

abbrev set_nals : Bool → Bytes → List Bytes
set_nals present n = if present then [] else n ∷ []

-- The parameter sets that `emit` puts in front, as NAL units.
sets_nals : Depacketizer → List Bytes
sets_nals d = set_nals d.has_sps d.sps ++ set_nals d.has_pps d.pps

missing_sets-annex_b : (d : Depacketizer) → d.idr ≡ true → missing_sets d ≡ annex_b (sets_nals d)
unfolding missing_sets sets_nals
missing_sets-annex_b d e = rw e (go d.has_sps d.has_pps d.sps d.pps)
  where
    go :
        (s p : Bool) (x y : Bytes)
        → (let first = if s then [] else append [] x in if p then first else append first y)
          ≡ annex_b (set_nals s x ++ set_nals p y)
    go true true x y = refl
    go true false x y = rw append-nil
    go false true x y = rw append-nil
    go false false x y = rw append-nil

-- A cleared depacketizer with other events.
cleared-Inv :
    (d : Depacketizer) (w : Bool) (es : List Event)
    → Inv d
    → Decodable es
    → (expects es ≡ true → w ≡ true)
    → Inv (record (clear_au d) { waiting = w; events = es })
unfolding clear_au
cleared-Inv d w es v k x =
    let c = clear_au-Inv d v in
    record {
      assembled = λ _.
          unfold clear_au in
          record {
            nals = [];
            framed = refl;
            valid = tt;
            sps_in = λ e. e;
            pps_in = λ e. e;
            idr_in = λ e. e;
          };
      sps_kept = c.sps_kept;
      pps_kept = c.pps_kept;
      bounded = c.bounded;
      decodable = k;
      awaited = x;
    }

-- A frame that goes out, a request, or neither.
deliver-Inv :
    (d : Depacketizer) (output : Bytes) (w : Bool)
    → Inv d
    → length output ≤ max_access_unit
    → (is_empty output ≡ false → (expects d.events ≡ false) ⊎ IsConfigured output)
    → (is_empty output ≡ true → expects d.events ≡ true → w ≡ true)
    → Inv (deliver d output w)
unfolding deliver clear_au
deliver-Inv d output w v l c r = elim (Bool-cases (is_empty output)) [
  | inl e ↦ elim (Bool-cases w) [
    | inl t ↦ rw (e, t) (cleared-Inv d true (keyframe_request ∷ d.events) v v.decodable (λ _. refl))
    | inr f ↦ rw (e, f) (cleared-Inv d false d.events v v.decodable (λ x. cc (f, r e x)))
  ]
  | inr e ↦
      rw e (cleared-Inv d w (frame output d.timestamp ∷ d.events) v (c e, l, v.decodable) (λ x. cc))
]

-- A parameter set that is kept, where `emit` finds it.
sets_nals-holds :
    (t : ℕ) (present : Bool) (n : Bytes) (ns : List Bytes)
    → Kept t n
    → is_empty n ≡ false
    → (present ≡ true → holds t ns ≡ true)
    → holds t (set_nals present n ++ ns) ≡ true
sets_nals-holds t true n ns k e h = h refl
sets_nals-holds t false n ns (inl z) e h = cc (ap is_empty z, e)
sets_nals-holds t false n ns (inr (_, y, _)) e h = ground (arith, y)

set_nals-IsNal :
    (t : ℕ) (present : Bool) (n : Bytes)
    → Kept t n
    → is_empty n ≡ false
    → All IsNal (set_nals present n)
set_nals-IsNal t true n k e = tt
set_nals-IsNal t false n (inl z) e = cc (ap is_empty z, e)
set_nals-IsNal t false n (inr (v, _, _)) e = (v, tt)

holds_right : (t : ℕ) (ms ns : List Bytes) → holds t ns ≡ true → holds t (ms ++ ns) ≡ true
holds_right t [] ns h = h
holds_right t (m ∷ ms) ns h = ground (arith, holds_right t ms ns h)

configured :
    (d : Depacketizer)
    → Inv d
    → Assembled d
    → d.idr ≡ true
    → is_empty d.sps ≡ false
    → is_empty d.pps ≡ false
    → IsConfigured (missing_sets d ++ d.au)
unfolding sets_nals
configured d v a i s p =
    let first = set_nals d.has_sps d.sps in
    let second = set_nals d.has_pps d.pps in
    let regroup = append_assoc first second a.nals in
    record {
      nals = (first ++ second) ++ a.nals;
      framed =
          ap₂ ◌++◌ (missing_sets-annex_b d i) a.framed
          ∙ sym (annex_b-append (first ++ second) a.nals);
      valid =
          All-append IsNal (first ++ second) a.nals
            (All-append IsNal first second (set_nals-IsNal 7 d.has_sps d.sps v.sps_kept s)
              (set_nals-IsNal 8 d.has_pps d.pps v.pps_kept p))
            a.valid;
      sps = rw regroup (
          sets_nals-holds 7 d.has_sps d.sps (second ++ a.nals) v.sps_kept s
            (λ h. holds_right 7 second a.nals (a.sps_in h)));
      pps = rw regroup (
          holds_right 8 first (second ++ a.nals)
            (sets_nals-holds 8 d.has_pps d.pps a.nals v.pps_kept p a.pps_in));
      idr = holds_right 5 (first ++ second) a.nals (a.idr_in i);
    }

annex_b-nonempty : (t : ℕ) (ns : List Bytes) → holds t ns ≡ true → is_empty (annex_b ns) ≡ false
annex_b-nonempty t [] h = cc
annex_b-nonempty t (n ∷ ns) h = refl

IsConfigured-nonempty : (b : Bytes) → IsConfigured b → is_empty b ≡ false
IsConfigured-nonempty b c = rw c.framed (annex_b-nonempty 5 c.nals c.idr)

-- What `good` says, part by part.
good_lem :
    (d : Depacketizer)
    → good d ≡ true
    → (d.damaged ≡ false)
      × ((d.waiting ≡ false) ⊎ (d.idr ≡ true))
      × ((d.idr ≡ false) ⊎ ((is_empty d.sps ≡ false) × (is_empty d.pps ≡ false)))
unfolding good
good_lem d g = ground arith

Kept-length : (t : ℕ) (n : Bytes) → Kept t n → length n ≤ 65536
Kept-length t n (inl e) = omega (arith, ap length e)
Kept-length t n (inr (_, _, l)) = l

-- So `kMaxAccessUnitBytes - output.size()` does not wrap.
missing_sets-le : (d : Depacketizer) → Inv d → length (missing_sets d) ≤ 131080
unfolding missing_sets
missing_sets-le d v = ground (
  arith,
  Kept-length 7 d.sps v.sps_kept,
  Kept-length 8 d.pps v.pps_kept,
  length-append (0 ∷ 0 ∷ 0 ∷ 1 ∷ d.sps) (0 ∷ 0 ∷ 0 ∷ 1 ∷ d.pps),
)

within :
    (sets au : Bytes)
    → length sets ≤ max_access_unit
    → ltb (max_access_unit - length sets) (length au) ≡ false
    → length (sets ++ au) ≤ max_access_unit
within sets au h o = ground (arith, length-append sets au)

other {ℓ} : {P : Type ℓ} {b : Bool} → (b ≡ false) ⊎ P → b ≡ true → P
other (inl e) h = cc
other (inr p) h = p

or_left {ℓ} : {P : Type ℓ} {b : Bool} → P ⊎ (b ≡ true) → b ≡ false → P
or_left (inl p) h = p
or_left (inr e) h = cc

not_awaited :
    (es : List Event) (w : Bool) → (expects es ≡ true → w ≡ true) → w ≡ false → expects es ≡ false
not_awaited es w h f = elim (Bool-cases (expects es)) [ inl e ↦ cc (h e, f) | inr e ↦ e ]

-- What goes out unless the sets do not fit in front.
sent-Inv :
    (d : Depacketizer)
    → Inv d
    → good d ≡ true
    → ltb (max_access_unit - length (missing_sets d)) (length d.au) ≡ false
    → Inv (deliver d (missing_sets d ++ d.au) (if d.idr then false else d.waiting))
sent-Inv d v g o =
    let (clean, start, sets) = good_lem d g in
    let a = v.assembled clean in
    let fits = within (missing_sets d) d.au (omega (arith, missing_sets-le d v)) o in
    elim (Bool-cases d.idr) [
      | inl i ↦
          let c : IsConfigured (missing_sets d ++ d.au) =
            configured d v a i (other sets i).0 (other sets i).1 in
          deliver-Inv d (missing_sets d ++ d.au) (if d.idr then false else d.waiting) v fits
            (λ _. inr c) (λ e. cc (e, IsConfigured-nonempty (missing_sets d ++ d.au) c))
      | inr i ↦
          deliver-Inv d (missing_sets d ++ d.au) (if d.idr then false else d.waiting) v fits
            (λ _. inl (not_awaited d.events d.waiting v.awaited (or_left start i)))
            (λ _ x. rw i (v.awaited x))
    ]

-- `emit` keeps the invariant.
pub emit-Inv : (d : Depacketizer) → Inv d → Inv (emit d)
unfolding emit
emit-Inv d v = elim (Bool-cases (good d)) [
  | inl g ↦ elim (Bool-cases (ltb (max_access_unit - length (missing_sets d)) (length d.au))) [
    | inl o ↦ rw (g, o) (deliver-Inv d [] true v (omega arith) (λ e. cc) (λ _ _. refl))
    | inr o ↦ rw (g, o) (sent-Inv d v g o)
  ]
  | inr b ↦ rw b (
      deliver-Inv d [] (if d.vcl || not (is_empty d.fu) then true else d.waiting) v (omega arith)
        (λ e. cc) (λ _ x. ground (arith, v.awaited x)))
]
