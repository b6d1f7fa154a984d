-- ===== src/DcDepacketizer/Accounts.antt =====
-- shared/receiver/codec/dc_video_depacketizer.cpp: the accounts of the pending frames, at the map.
use kmvirtualcamera.Prelude.{
  ℕ, suc, ◌+◌, ◌≤◌, ◌≡◌, sym, ap, ◌∙◌, none, some, List, [], ◌∷◌, arith, ltb, ◌==◌, length, Bytes,
  Bool-cases, Option-cases, inl, inr,
}
use mathlib.Core.Path.{subst}
use kmvirtualcamera.DcDepacketizer.{
  Frame, DcDepacketizer, find, remove, emplace, update, erase, recover, max_pending_frames,
  max_pending_bytes,
}

-- The bytes of a frame's chunks, and of all pending frames.
abbrev pub chunk_bytes : List Bytes → ℕ
chunk_bytes [] = 0
chunk_bytes (c ∷ cs) = length c + chunk_bytes cs

abbrev pub total : List (ℕ × Frame) → ℕ
total [] = 0
total ((k, f) ∷ rest) = f.bytes + total rest

-- A frame's bytes are those of its chunks, and it has a place for each.
abbrev pub Fine : Frame → Type 0
Fine f = (f.bytes ≡ chunk_bytes f.chunks) × (length f.chunks ≡ f.count)

abbrev pub Counted : List (ℕ × Frame) → Type 0
Counted [] = Unit {0}
Counted ((k, f) ∷ rest) = Fine f × Counted rest

pub record IsBounded (d : DcDepacketizer) : Type 0 where
  pub exact : d.bytes ≡ total d.pending
  pub counted : Counted d.pending
  pub few : length d.pending ≤ max_pending_frames
  pub small : d.bytes ≤ max_pending_bytes
  pub rate_range : (2000000 ≤ d.rate) × (d.rate ≤ 8000000)

remove_lem :
    (k : ℕ) (m : List (ℕ × Frame)) {f : Frame}
    → find k m ≡ some f
    → Counted m
    → (total m ≡ f.bytes + total (remove k m))
      × (length m ≡ suc (length (remove k m)))
      × Counted (remove k m)
      × Fine f
unfolding find remove
remove_lem k [] e c = cc
remove_lem k ((j, g) ∷ m) {f} e (b, c) = elim (Bool-cases (j == k)) [
  | inl t ↦ ground (arith, e, t, b, c)
  | inr t ↦ ground (arith, e, t, b, c, remove_lem k m {f = f} (ground (arith, e, t)) c)
]

pub emplace_lem :
    (k : ℕ) (f : Frame) (m : List (ℕ × Frame))
    → find k m ≡ none
    → Counted m
    → Fine f
    → (total (emplace k f m) ≡ f.bytes + total m)
      × (length (emplace k f m) ≡ suc (length m))
      × Counted (emplace k f m)
      × (find k (emplace k f m) ≡ some f)
unfolding find emplace
emplace_lem k f [] e c b = ground (arith, b)
emplace_lem k f ((j, g) ∷ m) e (a, c) b = elim (Bool-cases (ltb k j)) [
  | inl t ↦ ground (arith, e, t, a, b, c)
  | inr t ↦ elim (Bool-cases (j == k)) [
    | inl s ↦ ground (arith, e, s)
    | inr s ↦ ground (arith, e, t, s, a, b, c, emplace_lem k f m (ground (arith, e, s)) c b)
  ]
]

pub update_lem :
    (k : ℕ) (f g : Frame) (m : List (ℕ × Frame))
    → find k m ≡ some g
    → Counted m
    → Fine f
    → (total (update k f m) + g.bytes ≡ f.bytes + total m)
      × (length (update k f m) ≡ length m)
      × Counted (update k f m)
unfolding find update
update_lem k f g [] e c b = cc
update_lem k f g ((j, h) ∷ m) e (a, c) b = elim (Bool-cases (j == k)) [
  | inl t ↦ ground (arith, e, t, a, b, c)
  | inr t ↦ ground (arith, e, t, a, b, c, update_lem k f g m (ground (arith, e, t)) c b)
]

pub erase-IsBounded : (k : ℕ) (d : DcDepacketizer) → IsBounded d → IsBounded (erase k d)
unfolding erase
erase-IsBounded k d b = elim (Option-cases (find k d.pending)) [
  | inl e ↦ rw (e, erase) b
  | inr (f, e) ↦
      let (t, l, c, _) = remove_lem k d.pending e b.counted in
      rw (e, erase)
        (record {
          exact = omega (arith, t, b.exact);
          counted = c;
          few = omega (arith, l, b.few);
          small = omega (arith, b.small);
          rate_range = b.rate_range;
        })
]

-- A state with the pending frames, their bytes and a bitrate in range.
pub same-IsBounded :
    (d e : DcDepacketizer)
    → e.pending ≡ d.pending
    → e.bytes ≡ d.bytes
    → (2000000 ≤ e.rate) × (e.rate ≤ 8000000)
    → IsBounded d
    → IsBounded e
same-IsBounded d e p n r b = record {
  exact = n ∙ b.exact ∙ ap total (sym p);
  counted = subst Counted (sym p) b.counted;
  few = omega (arith, ap length p, b.few);
  small = omega (arith, n, b.small);
  rate_range = r;
}

pub recover-IsBounded : (now : ℕ) (d : DcDepacketizer) → IsBounded d → IsBounded (recover now d)
recover-IsBounded now d b =
    same-IsBounded d (recover now d) (unfold recover in ground arith)
      (unfold recover in ground arith) (unfold recover in ground (arith, b.rate_range)) b
