-- ===== src/Nv12Converter/Rotated.antt =====
-- The NV12 conversion of windows/receiver/media/nv12_converter.cpp, with its rotation.
use kmvirtualcamera.Prelude.{
  ℕ, ◌+◌, ◌*◌, ◌/◌, ◌≤◌, ◌<◌, ◌≡◌, ◌⊎◌, refl, sym, ap, ◌∙◌, Bool, true, false, ◌&&◌, ◌||◌, Option,
  some, arith, leb, ◌==◌, if◌then◌else◌, Bool-cases, inl, inr,
}
use kmvirtualcamera.Prelude.Int.{ℤ, pos, negsuc}
use mathlib.Core.Path.{subst}
use native.Mathlib.Nat.{mul-le-mul, mul_comm}
use kmvirtualcamera.Planes.{Buffer, read, advance, copy_bytes}
use kmvirtualcamera.Planes.Blit.{blit-IsCopy, read_lem, address_apart, address_bound}
use kmvirtualcamera.Nv12.{Fit, get_byte, is_rotation, is_sideways}
use kmvirtualcamera.Nv12.Source.{IsPlane, IsSource, get_byte_in}
use kmvirtualcamera.FramePipe.{payload_bytes}
use kmvirtualcamera.Nv12Converter.{Aspect, IsAspect, aspect_fit, is_empty_fit}
use kmvirtualcamera.Nv12Converter.Turned.{
  normalize, sampled, is_across, turned_fit, bounded, copy_rows, same_size, turn,
  convert_nv12_to_nv12_letterbox,
}
use kmvirtualcamera.Nv12Converter.Converted.{
  IsPlaced, IsConverted, aspect_fit-IsPlaced, draw_on_black-IsConverted, fill_black_nv12_lem,
}

normalize_lem : (d : ℤ) → is_rotation (normalize d) ≡ true
unfolding is_rotation normalize
normalize_lem (pos n) = ground arith
normalize_lem (negsuc n) = ground arith

-- A source in NV12: rows of `pitch` bytes, both planes one behind the other.
pub record IsNv12 (pitch sw sh : ℕ) (src : Buffer) : Type 0 where
  pub wide : 1 < sw
  pub high : 1 < sh
  pub narrow : sw ≤ pitch
  pub whole : pitch * sh + sh / 2 * pitch ≤ src.size

module _ (pitch sw sh : ℕ) (src : Buffer) (n : IsNv12 pitch sw sh src) where
  luma-IsPlane : (w h : ℕ) → w ≤ sw → h ≤ sh → IsPlane src.size pitch w h
  luma-IsPlane w h a b = record {
    narrow = omega (arith, a, n.narrow);
    inside = λ y x k l. omega (
      arith,
      address_bound pitch y sh x (omega (arith, k, b)) (omega (arith, l, a, n.narrow)),
      n.whole,
      mul_comm pitch sh,
    );
  }

  chroma-IsPlane :
      (w h : ℕ) → w ≤ sw → h ≤ sh / 2 → IsPlane (advance (pitch * sh) src).size pitch w h
  unfolding advance
  chroma-IsPlane w h a b = record {
    narrow = omega (arith, a, n.narrow);
    inside = λ y x k l. omega (
      arith,
      address_bound pitch y (sh / 2) x (omega (arith, k, b)) (omega (arith, l, a, n.narrow)),
      n.whole,
    );
  }

-- A quarter turn is a turn sideways.
across-sideways : (r : ℕ) → is_rotation r ≡ true → is_across r ≡ is_sideways r
unfolding is_rotation
across-sideways r h = elim (Bool-cases (is_across r)) [
  | inl e ↦ let s : is_sideways r ≡ true = ground (arith, e) in e ∙ sym s
  | inr e ↦ let s : is_sideways r ≡ false = ground (arith, e, h) in e ∙ sym s
]

some_units : (unit n : ℕ) → (unit ≡ 1) ⊎ (unit ≡ 2) → 1 < n → 0 < n / unit
some_units unit n (inl e) h = subst (λ u. 0 < n / u) (sym e) (omega (arith, h))
some_units unit n (inr e) h = subst (λ u. 0 < n / u) (sym e) (omega (arith, h))

turned_fit-IsSource :
    (unit rotation w h pitch : ℕ) (a : Aspect) (src : Buffer)
    → (unit ≡ 1) ⊎ (unit ≡ 2)
    → is_rotation rotation ≡ true
    → 1 < w
    → 1 < h
    → IsPlane src.size pitch (w / unit * unit) (h / unit)
    → IsSource unit rotation w h (bounded (turned_fit a rotation w h 1280 720)) pitch src
unfolding turned_fit aspect_fit bounded
turned_fit-IsSource unit rotation w h pitch a src u r some_w some_h p =
    elim (Bool-cases (is_across rotation)) [
      | inl e ↦
          let q = sym (across-sideways rotation r) ∙ e in
          rw e (record {
            source = p;
            rw = rw q refl;
            rh = rw q refl;
            some_rw = some_units unit h u some_h;
            some_rh = some_units unit w u some_w;
          })
      | inr e ↦
          let q = sym (across-sideways rotation r) ∙ e in
          rw e (record {
            source = p;
            rw = rw q refl;
            rh = rw q refl;
            some_rw = some_units unit w u some_w;
            some_rh = some_units unit h u some_h;
          })
    ]

bounded-IsPlaced : (f : Fit) → IsPlaced 1280 720 f → IsPlaced 1280 720 (bounded f)
unfolding bounded
bounded-IsPlaced f p = record {
  even_width = omega (arith, p.even_width);
  even_height = omega (arith, p.even_height);
  even_ox = p.even_ox;
  even_oy = p.even_oy;
  ox = omega (arith, p.ox);
  oy = omega (arith, p.oy);
}

turned_fit-IsPlaced :
    (a : Aspect) (rotation w h : ℕ)
    → IsAspect a 1280 720
    → 1 < w
    → 1 < h
    → IsPlaced 1280 720 (turned_fit a rotation w h 1280 720)
unfolding turned_fit
turned_fit-IsPlaced a rotation w h law v u =
    aspect_fit-IsPlaced a (if is_across rotation then h else w)
      (if is_across rotation then w else h) 1280 720 law (ground (arith, v, u))
      (ground (arith, v, u))

sampled_bounds : (n : ℕ) → 1 < n → (1 < sampled n) × (sampled n ≤ n)
sampled_bounds n h = (ground (arith, h), ground arith)

-- A source of at least two by two pixels, whose rows and planes lie one behind the other, turned by any
-- quarters: drawing it into a buffer of 1280 by 720 stays in the buffers and leaves black and on it,
-- unless the fit is empty, the sampled bytes of the source, exactly where the fit puts them. The scaled
-- sides are no larger than the sides that they are fitted to.
pub turn-IsConverted :
    (a : Aspect) (rotation pitch sw sh : ℕ) (src dst : Buffer)
    → IsAspect a 1280 720
    → is_rotation rotation ≡ true
    → IsNv12 pitch sw sh src
    → 1382400 ≤ dst.size
    → (let w = sampled sw in
        let h = sampled sh in
        let f = turned_fit a rotation w h 1280 720 in
        let g = bounded f in
        (c : Buffer) × (turn a rotation pitch sh w h src dst 1280 720 ≡ some c)
        × IsConverted
            (is_empty_fit f)
            (get_byte 1 rotation w h g pitch src)
            (get_byte 2 rotation w h g pitch (advance (pitch * sh) src))
            g
            1280
            720
            dst
            c)
unfolding turn
turn-IsConverted a rotation pitch sw sh src dst law r n room =
    let w = sampled sw in
    let h = sampled sh in
    let f = turned_fit a rotation w h 1280 720 in
    let (some_w, less_w) = sampled_bounds sw n.wide in
    let (some_h, less_h) = sampled_bounds sh n.high in
    draw_on_black-IsConverted (is_empty_fit f) (get_byte 1 rotation w h (bounded f) pitch src)
      (get_byte 2 rotation w h (bounded f) pitch (advance (pitch * sh) src)) (bounded f) dst room
      (bounded-IsPlaced f (turned_fit-IsPlaced a rotation w h law some_w some_h))
      (get_byte_in 1 rotation w h (bounded f) pitch src (omega arith) r (
        turned_fit-IsSource 1 rotation w h pitch a src (inl refl) r some_w some_h (
          luma-IsPlane pitch sw sh src n (w / 1 * 1) (h / 1) (omega (arith, less_w))
            (omega (arith, less_h)))))
      (get_byte_in 2 rotation w h (bounded f) pitch (advance (pitch * sh) src) (omega arith) r (
        turned_fit-IsSource 2 rotation w h pitch a (advance (pitch * sh) src) (inr refl) r some_w
          some_h
          (chroma-IsPlane pitch sw sh src n (w / 2 * 2) (h / 2) (omega (arith, less_w))
            (omega (arith, less_h)))))

copy_rows_lem :
    (pitch sw sh : ℕ) (src dst : Buffer)
    → IsNv12 pitch sw sh src
    → 1280 ≤ sw
    → 720 ≤ sh
    → 1382400 ≤ dst.size
    → (c : Buffer) × (copy_rows pitch sh src dst 1280 720 ≡ some c) × (c.size ≡ dst.size)
unfolding copy_rows
copy_rows_lem pitch sw sh src dst n wide high room =
    let luma = luma-IsPlane pitch sw sh src n 1280 720 wide high in
    let chroma = chroma-IsPlane pitch sw sh src n 1280 360 wide (omega (arith, high)) in
    let (m, e, (size, _, _)) =
      blit-IsCopy 720 1280 (λ y x. read src (y * pitch + x)) (λ y x. y * 1280 + x) dst
        (λ y x k l.
          ((_, read_lem src (y * pitch + x) (luma.inside y x k l)), omega (arith, k, l, room)))
        (λ y x y' x' k l k' l' q. address_apart 1280 y x y' x' l l' q) in
    let (c, g, (size', _, _)) =
      blit-IsCopy 360 1280 (λ y x. read (advance (pitch * sh) src) (y * pitch + x))
        (λ y x. 1280 * 720 + (y * 1280 + x)) m
        (λ y x k l. (
          (_, read_lem (advance (pitch * sh) src) (y * pitch + x) (chroma.inside y x k l)),
          omega (arith, k, l, room, size),
        ))
        (λ y x y' x' k l k' l' q. address_apart 1280 y x y' x' l l' (omega (arith, q))) in
    (c, rw e g, size' ∙ size)

copy_bytes_lem :
    (n : ℕ) (src dst : Buffer)
    → n ≤ src.size
    → n ≤ dst.size
    → (c : Buffer) × (copy_bytes n src dst ≡ some c) × (c.size ≡ dst.size)
unfolding copy_bytes
copy_bytes_lem n src dst h k =
    let g : (leb n src.size && leb n dst.size) ≡ true = ground (arith, h, k) in rw g (_, refl, refl)

source_room :
    (pitch sw sh : ℕ) (src : Buffer)
    → IsNv12 pitch sw sh src
    → 1280 ≤ pitch
    → 720 ≤ sh
    → 1382400 ≤ src.size
source_room pitch sw sh src n p h =
    let half : 360 ≤ sh / 2 = omega (arith, h) in
    omega (arith, mul-le-mul p h, mul-le-mul half p, n.whole)

same_size_lem :
    (pitch sw sh : ℕ) (src dst : Buffer)
    → IsNv12 pitch sw sh src
    → 1280 ≤ sw
    → 720 ≤ sh
    → 1382400 ≤ dst.size
    → (c : Buffer) × (same_size pitch sw sh src dst 1280 720 ≡ some c) × (c.size ≡ dst.size)
unfolding same_size
same_size_lem pitch sw sh src dst n wide high room = elim (Bool-cases (pitch == 1280)) [
  | inl e ↦ rw e (
      copy_bytes_lem 1382400 src dst
        (source_room pitch sw sh src n (omega (arith, wide, n.narrow)) high) room)
  | inr e ↦ rw e (copy_rows_lem pitch sw sh src dst n wide high room)
]

IsConverted-size :
    {empty : Bool} {luma chroma : ℕ → ℕ → Option ℕ} {f : Fit} {dw dh : ℕ} {b c : Buffer}
    → IsConverted empty luma chroma f dw dh b c
    → c.size ≡ b.size
IsConverted-size {b = b} {c = c} i = elim i.drawn [
  | inl (e, same) ↦ ap (λ d. d.size) same ∙ i.is_black.size
  | inr d ↦ d.chroma_done.0 ∙ d.luma_done.0 ∙ i.is_black.size
]

-- Whatever the rotation, a source of at least two by two pixels, whose rows and planes lie one behind
-- the other: the conversion into a buffer of 1280 by 720 stays in the buffers, on each of its paths.
-- The scaled sides are no larger than the sides that they are fitted to.
pub convert_nv12_total :
    (a : Aspect) (src : Buffer) (pitch sw sh : ℕ) (dst : Buffer) (degrees : ℤ)
    → IsAspect a 1280 720
    → IsNv12 pitch sw sh src
    → 1382400 ≤ dst.size
    → (c : Buffer) × (convert_nv12_to_nv12_letterbox a src pitch sw sh dst 1280 720 degrees
        ≡ some c)
      × (c.size ≡ dst.size)
unfolding convert_nv12_to_nv12_letterbox
convert_nv12_total a src pitch sw sh dst degrees law n room =
    let zero_pitch : (pitch == 0) ≡ false = ground (arith, n.narrow, n.wide) in
    let some_size : ((sw == 0) || (sh == 0)) ≡ false = ground (arith, n.wide, n.high) in
    let (black, e, b) = fill_black_nv12_lem dst room in
    let big : 1382400 ≤ black.size = omega (arith, room, b.size) in
    rw (zero_pitch, some_size, e)
      (elim (Bool-cases
        ((normalize degrees == 0) && (sw == 1280) && (sh == 720) && (pitch == 1280))) [
          | inl q ↦
              let (c, g, size) =
                copy_bytes_lem payload_bytes src black
                  (source_room pitch sw sh src n (ground (arith, q)) (ground (arith, q))) big in
              rw q (c, g, omega (arith, size, b.size))
          | inr q ↦
              elim (Bool-cases
                ((normalize degrees == 0) && (sampled sw == 1280) && (sampled sh == 720))) [
                  | inl o ↦
                      let (_, less_w) = sampled_bounds sw n.wide in
                      let (_, less_h) = sampled_bounds sh n.high in
                      let wide : sampled sw ≡ 1280 = ground (arith, o) in
                      let high : sampled sh ≡ 720 = ground (arith, o) in
                      let (c, g, size) =
                        same_size_lem pitch sw sh src black n (omega (arith, less_w, wide))
                          (omega (arith, less_h, high)) big in
                      rw (q, o) (c, g, omega (arith, size, b.size))
                  | inr o ↦
                      let (c, g, i) =
                        turn-IsConverted a (normalize degrees) pitch sw sh src black law
                          (normalize_lem degrees) n big in
                      let size = IsConverted-size i in rw (q, o) (c, g, omega (arith, size, b.size))
                ]
        ])
