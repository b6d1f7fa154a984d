-- ===== src/RtpDepacketizer/Decodable.antt =====
-- shared/receiver/codec/h264_rtp_depacketizer.cpp: the invariant at the packet handler and its parts.
use kmvirtualcamera.Prelude.{
  ℕ, ◌+◌, ◌-◌, ◌*◌, refl, inl, inr, Bool, true, false, not, ◌&&◌, ◌||◌, Option, none, some, List,
  [], ◌∷◌, ◌++◌, arith, length, Bytes, is_empty, drop, leb, ◌==◌, if◌then◌else◌, Bool-cases,
  Option-cases, byte, test_bit, low_bits, shr,
}
use kmvirtualcamera.Prelude.Int.{pos, leb_ℤ}
use kmvirtualcamera.Wire.{RtpPacket, parse_rtp, sequence_delta}
use kmvirtualcamera.RtpDepacketizer.{
  Depacketizer, max_access_unit, initial, nal_type, clear_au, reset, lose, append_nalu, emit,
  append_all, stap, stap_units, extend_fu, fragment, is_one, by_type, finish, on_payload,
  on_boundary, on_unit, on_packet, process, run,
}
use kmvirtualcamera.RtpDepacketizer.Steps.{
  Inv, Decodable, clear_au-Inv, lose-Inv, reset-Inv, append_nalu-Inv,
}
use kmvirtualcamera.RtpDepacketizer.Emitted.{emit-Inv}

-- The fields that the invariant does not read.
refit-Inv :
    (d : Depacketizer) (fu : Bytes) (fu_header timestamp ssrc sequence : ℕ)
    (have_ssrc have_sequence have_timestamp : Bool)
    → Inv d
    → Inv (record d {
      fu = fu;
      fu_header = fu_header;
      timestamp = timestamp;
      ssrc = ssrc;
      sequence = sequence;
      have_ssrc = have_ssrc;
      have_sequence = have_sequence;
      have_timestamp = have_timestamp;
    })
refit-Inv d fu fu_header timestamp ssrc sequence have_ssrc have_sequence have_timestamp v = record {
  assembled = λ e.
      let a = v.assembled e in
      record {
        nals = a.nals;
        framed = a.framed;
        valid = a.valid;
        sps_in = a.sps_in;
        pps_in = a.pps_in;
        idr_in = a.idr_in;
      };
  sps_kept = v.sps_kept;
  pps_kept = v.pps_kept;
  bounded = v.bounded;
  decodable = v.decodable;
  awaited = v.awaited;
}

refu-Inv :
    (d : Depacketizer) (fu : Bytes) (header : ℕ)
    → Inv d
    → Inv (record d { fu = fu; fu_header = header })
refu-Inv d fu header v =
    refit-Inv d fu header d.timestamp d.ssrc d.sequence d.have_ssrc d.have_sequence d.have_timestamp
      v

append_all-Inv : (ns : List Bytes) (d : Depacketizer) → Inv d → Inv (append_all d ns).1
unfolding append_all
append_all-Inv [] d v = v
append_all-Inv (n ∷ ns) d v = elim (Bool-cases (append_nalu d n).0) [
  | inl t ↦ rw (t, append_all) (append_all-Inv ns (append_nalu d n).1 (append_nalu-Inv d n v))
  | inr f ↦ rw (f, append_all) (append_nalu-Inv d n v)
]

stap-Inv : (d : Depacketizer) (r : Option (List Bytes × ℕ)) → Inv d → Inv (stap d r).1
unfolding stap
stap-Inv d none v = v
stap-Inv d (some (ns, total)) v =
    elim (Bool-cases
      (is_empty d.fu && not (is_empty ns) && leb total (max_access_unit - length d.au))) [
        | inl t ↦ rw t (append_all-Inv ns d v)
        | inr f ↦ rw f v
      ]

if-Inv : (b : Bool) (x y : Bool × Depacketizer) → Inv x.1 → Inv y.1 → Inv (if b then x else y).1
if-Inv true x y v w = v
if-Inv false x y v w = w

extend_fu-Inv :
    (d : Depacketizer) (content : Bytes) (last : Bool) → Inv d → Inv (extend_fu d content last).1
unfolding extend_fu
extend_fu-Inv d content last v =
    let fu = d.fu ++ content in
    let d' : Depacketizer = record d { fu = fu } in
    let w = refu-Inv d fu d.fu_header v in
    let after = (append_nalu d' fu).1 in
    if-Inv _ (false, d) _ v
      (if-Inv last ((append_nalu d' fu).0, record after { fu = [] }) (true, d')
        (refu-Inv after [] after.fu_header (append_nalu-Inv d' fu w)) w)

fragment-Inv : (d : Depacketizer) (p : Bytes) → Inv d → Inv (fragment d p).1
unfolding fragment
fragment-Inv d p v =
    let header = shr (byte p 0) 5 * 32 + low_bits (byte p 1) 5 in
    let last = test_bit (byte p 1) 6 in
    let d' : Depacketizer = record d { fu_header = header; fu = header ∷ [] } in
    if-Inv _ (false, d) _ v
      (if-Inv (test_bit (byte p 1) 7) _ _
        (if-Inv (is_empty d.fu) (extend_fu d' (drop 2 p) last) (false, d)
          (extend_fu-Inv d' (drop 2 p) last (refu-Inv d (header ∷ []) header v)) v)
        (if-Inv _ (false, d) (extend_fu d (drop 2 p) last) v (extend_fu-Inv d (drop 2 p) last v)))

by_type-Inv : (d : Depacketizer) (p : Bytes) → Inv d → Inv (by_type d p).1
unfolding by_type
by_type-Inv d p v =
    let t = nal_type p in
    if-Inv (leb 1 t && leb t 23) _ _
      (if-Inv (is_empty d.fu) (append_nalu d p) (false, d) (append_nalu-Inv d p v) v)
      (if-Inv (t == 24) _ _ (stap-Inv d (stap_units (length p) (drop 1 p) [] 0) v)
        (if-Inv (t == 28) (fragment d p) (false, d) (fragment-Inv d p v) v))

choose-Inv : (b : Bool) (x y : Depacketizer) → Inv x → Inv y → Inv (if b then x else y)
choose-Inv true x y v w = v
choose-Inv false x y v w = w

retime-Inv :
    (d : Depacketizer) (timestamp : ℕ) (have : Bool)
    → Inv d
    → Inv (record d { timestamp = timestamp; have_timestamp = have })
retime-Inv d timestamp have v =
    refit-Inv d d.fu d.fu_header timestamp d.ssrc d.sequence d.have_ssrc d.have_sequence have v

finish-Inv : (marker ok : Bool) (d : Depacketizer) → Inv d → Inv (finish marker (ok, d))
unfolding finish
finish-Inv marker ok d v =
    let d' = if ok then d else lose d in
    let w = choose-Inv ok d (lose d) v (lose-Inv d v) in
    let e = emit d' in
    choose-Inv marker (record e { have_timestamp = false }) d'
      (retime-Inv e e.timestamp false (emit-Inv d' w)) w

on_payload-Inv : (p : RtpPacket) (d : Depacketizer) → Inv d → Inv (on_payload p d)
unfolding on_payload
on_payload-Inv p d v = choose-Inv (test_bit (byte p.payload 0) 7) (lose d) _ (lose-Inv d v) (
    finish-Inv p.marker (by_type d p.payload).0 (by_type d p.payload).1 (by_type-Inv d p.payload v))

on_boundary-Inv :
    (gap : Bool) (p : RtpPacket) (d : Depacketizer) → Inv d → Inv (on_boundary gap p d)
unfolding on_boundary
on_boundary-Inv gap p d v =
    let cut = gap || not (is_empty d.fu) in
    choose-Inv (d.have_timestamp && not (p.timestamp == d.timestamp)) _ d
      (emit-Inv (if cut then lose d else d) (choose-Inv cut (lose d) d (lose-Inv d v) v)) v

on_unit-Inv : (gap : Bool) (p : RtpPacket) (d : Depacketizer) → Inv d → Inv (on_unit gap p d)
unfolding on_unit
on_unit-Inv gap p d v =
    let b = on_boundary gap p d in
    let s : Depacketizer = record b { timestamp = p.timestamp; have_timestamp = true } in
    let told = if gap then lose s else s in
    let w = retime-Inv b p.timestamp true (on_boundary-Inv gap p d v) in
    let t = choose-Inv gap (lose s) s (lose-Inv s w) w in
    let c = clear_au told in
    choose-Inv told.damaged _ (on_payload p told)
      (choose-Inv p.marker (record c { have_timestamp = false }) told
        (retime-Inv c c.timestamp false (clear_au-Inv told t)) t)
      (on_payload-Inv p told t)

on_packet-Inv : (p : RtpPacket) (d : Depacketizer) → Inv d → Inv (on_packet p d)
unfolding on_packet
on_packet-Inv p d v =
    let f = if d.have_ssrc && not (p.ssrc == d.ssrc) then reset d else d in
    let w = choose-Inv (d.have_ssrc && not (p.ssrc == d.ssrc)) (reset d) d (reset-Inv d v) v in
    let k : Depacketizer = record f { have_ssrc = true; ssrc = p.ssrc } in
    let c : Depacketizer = record k { sequence = p.sequence; have_sequence = true } in
    let delta = sequence_delta p.sequence k.sequence in
    choose-Inv (k.have_sequence && leb_ℤ delta (pos 0)) k _
      (refit-Inv f f.fu f.fu_header f.timestamp p.ssrc f.sequence true f.have_sequence
        f.have_timestamp w)
      (on_unit-Inv (k.have_sequence && not (is_one delta)) p c
        (refit-Inv f f.fu f.fu_header f.timestamp p.ssrc p.sequence true true f.have_timestamp w))

pub process-Inv : (b : Bytes) (d : Depacketizer) → Inv d → Inv (process b d)
unfolding process
process-Inv b d v = elim (Option-cases (parse_rtp b)) [
  | inl e ↦ rw (e, process) (lose-Inv d v)
  | inr (p, e) ↦ rw (e, process) (on_packet-Inv p d v)
]

initial-Inv : Inv initial
unfolding initial
initial-Inv = record {
  assembled = λ _. record {
    nals = [];
    framed = refl;
    valid = tt;
    sps_in = λ e. e;
    pps_in = λ e. e;
    idr_in = λ e. e;
  };
  sps_kept = inl refl;
  pps_kept = inl refl;
  bounded = omega arith;
  decodable = tt;
  awaited = λ _. refl;
}

run-Inv : (bs : List Bytes) (d : Depacketizer) → Inv d → Inv (run d bs)
unfolding run
run-Inv [] d v = v
run-Inv (b ∷ bs) d v = run-Inv bs (process b d) (process-Inv b d v)

-- Whatever datagrams arrive, in whatever order: every access unit handed on is at most 4 MiB, and
-- one that comes first, or first after a keyframe request, is framed NAL units with an SPS, a PPS
-- and an IDR slice among them.
pub run-Decodable : (bs : List Bytes) → Decodable (run initial bs).events
run-Decodable bs = (run-Inv bs initial initial-Inv).decodable
