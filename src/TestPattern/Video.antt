-- ===== src/TestPattern/Video.antt =====
-- The frames of windows/receiver/media/test_pattern_generator.cpp.
use kmvirtualcamera.Prelude.{
  ℕ, ◌+◌, ◌-◌, ◌*◌, ◌/◌, ◌%◌, ◌^◌, ◌<◌, ◌≡◌, refl, ap, ◌∙◌, Bool, true, false, Option, none, some,
  arith, ltb, leb, ◌&&◌, if◌then◌else◌, ◌>>=◌, Bool-cases, inl, inr,
}
use kmvirtualcamera.Planes.{Buffer}
use kmvirtualcamera.Planes.Blit.{blit_lem, address_apart}
use kmvirtualcamera.FramePipe.{width, height, payload_bytes}
use kmvirtualcamera.TestPattern.Picture.{
  picture_luma, picture_chroma, bars_luma-picture, bars_chroma-picture,
}
use kmvirtualcamera.TestPattern.{
  bars_luma, bars_chroma, zeros, resize, chroma_at, TestPattern, make, copy_to, box_x, draw_box,
  generate_frame, calibration_luma, calibration_chroma, generate_calibration_pattern,
}

-- The whole of what one call leaves: luma in 921600 bytes, chroma behind.
pub record IsFrame (f g : ℕ → ℕ → ℕ) (b : Buffer) : Type 0 where
  pub size : b.size ≡ 1382400
  pub luma : (y x : ℕ) → y < 720 → x < 1280 → b.at (y * 1280 + x) ≡ f y x
  pub chroma : (y k : ℕ) → y < 360 → k < 1280 → b.at (921600 + (y * 1280 + k)) ≡ g y k

chroma_at_lem : (y k : ℕ) → chroma_at y k ≡ y * 1280 + k
chroma_at_lem y k = omega arith

resize-size : (n : ℕ) (b : Buffer) → (resize n b).size ≡ n
resize-size n b = ground arith

-- Whatever vector is passed, and for every pattern: the calibration frame has its 1382400 bytes, each
-- the value that its coordinates and the pattern give.
pub generate_calibration_pattern-IsFrame :
    (out : Buffer) (id : ℕ)
    → (b : Buffer) × (generate_calibration_pattern out id ≡ some b)
      × IsFrame (calibration_luma id) (calibration_chroma id) b
unfolding generate_calibration_pattern
generate_calibration_pattern-IsFrame out id =
    let start = resize payload_bytes out in
    let room = resize-size payload_bytes out in
    let (m, e, (size, luma, _)) =
      blit_lem 720 1280 (λ y x. some (calibration_luma id y x)) (λ y x. y * width + x)
        (calibration_luma id) start (λ y x k l. (refl, omega (arith, room, k, l)))
        (λ y x y' x' k l k' l' q. address_apart 1280 y x y' x' l l' q) in
    let (b, g, (size', chroma, old)) =
      blit_lem 360 1280 (λ y k. some (calibration_chroma id y k))
        (λ y k. width * height + chroma_at y k) (calibration_chroma id) m
        (λ y x k l. (refl, omega (arith, room, size, k, l)))
        (λ y x y' x' k l k' l' q. address_apart 1280 y x y' x' l l' (omega (arith, q))) in
    (
      b,
      rw (e, g) refl,
      record {
        size = omega (arith, room, size, size');
        luma = λ y x k l.
            old (y * 1280 + x) (λ y' x' k' l' q. absurd (omega (arith, k, l, q))) ∙ luma y x k l;
        chroma = λ y k l m'. ap b.at (omega arith) ∙ chroma y k l m';
      },
    )

bind_then :
    (m : Option Buffer) (f g : Buffer → Option Buffer) {b : Buffer}
    → (m >>= f) ≡ some b
    → (m >>= λ a. f a >>= g) ≡ g b
bind_then none f g e = cc
bind_then (some a) f g e = ap (λ o. o >>= g) e

-- The bars in both planes of the generator.
pub record IsBars (t : TestPattern) : Type 0 where
  pub luma_size : t.base_bars_y.size ≡ 921600
  pub chroma_size : t.base_bars_uv.size ≡ 460800
  pub luma : (y x : ℕ) → y < 720 → x < 1280 → t.base_bars_y.at (y * 1280 + x) ≡ picture_luma y x
  pub chroma :
      (y k : ℕ) → y < 360 → k < 1280 → t.base_bars_uv.at (y * 1280 + k) ≡ picture_chroma y k

make-IsBars : (t : TestPattern) × (make ≡ some t) × IsBars t
unfolding make
make-IsBars =
    let (a, e, (size, luma, _)) =
      blit_lem 720 1280 (λ y x. some (bars_luma y x)) (λ y x. y * width + x) bars_luma
        (zeros 921600) (λ y x k l. (refl, omega (arith, k, l)))
        (λ y x y' x' k l k' l' q. address_apart 1280 y x y' x' l l' q) in
    let (b, g, (size', chroma, _)) =
      blit_lem 360 1280 (λ y k. some (bars_chroma y k)) chroma_at bars_chroma (zeros 460800)
        (λ y x k l. (refl, omega (arith, k, l)))
        (λ y x y' x' k l k' l' q. address_apart 1280 y x y' x' l l' (omega (arith, q))) in
    (
      record { base_bars_y = a; base_bars_uv = b },
      rw (e, g) refl,
      record {
        luma_size = size;
        chroma_size = size';
        luma = λ y x k l. luma y x k l ∙ bars_luma-picture y x l;
        chroma = λ y k l m. ap b.at (omega arith) ∙ chroma y k l m ∙ bars_chroma-picture y k m;
      },
    )

copied :
    (t : TestPattern) (out : Buffer)
    → IsBars t
    → out.size ≡ 1382400
    → (b : Buffer) × ((copy_to 0 t.base_bars_y out >>= copy_to t.base_bars_y.size t.base_bars_uv)
        ≡ some b)
      × IsFrame picture_luma picture_chroma b
unfolding copy_to
copied t out i room =
    let one : leb (0 + t.base_bars_y.size) out.size ≡ true = ground (arith, i.luma_size, room) in
    let two : leb (t.base_bars_y.size + t.base_bars_uv.size) out.size ≡ true =
      ground (arith, i.luma_size, i.chroma_size, room) in
    rw (one, two)
      (
        _,
        refl,
        record {
          size = room;
          luma = λ y x k l.
              let a : (leb t.base_bars_y.size (y * 1280 + x)
                    && ltb (y * 1280 + x) (t.base_bars_y.size + t.base_bars_uv.size))
                  ≡ false =
                ground (arith, i.luma_size, k, l) in
              let b : (leb 0 (y * 1280 + x) && ltb (y * 1280 + x) (0 + t.base_bars_y.size)) ≡ true =
                ground (arith, i.luma_size, k, l) in
              rw (a, b) (ap t.base_bars_y.at (omega arith) ∙ i.luma y x k l);
          chroma = λ y x k l.
              let a : (leb t.base_bars_y.size (921600 + (y * 1280 + x))
                    && ltb (921600 + (y * 1280 + x)) (t.base_bars_y.size + t.base_bars_uv.size))
                  ≡ true =
                ground (arith, i.luma_size, i.chroma_size, k, l) in
              rw a (ap t.base_bars_uv.at (omega (arith, i.luma_size)) ∙ i.chroma y x k l);
        },
      )

-- A white box of 80 by 40 pixels, from row 650 on, on the bars.
abbrev pub in_box : ℕ → ℕ → ℕ → Bool
in_box left y x = leb 650 y && ltb y 690 && leb left x && ltb x (left + 80)

abbrev pub frame_luma : ℕ → ℕ → ℕ → ℕ
frame_luma left y x = if in_box left y x then 235 else picture_luma y x

-- The box has an even left side, so its chroma pixels are whole.
abbrev pub frame_chroma : ℕ → ℕ → ℕ → ℕ
frame_chroma left y k = if in_box left (y * 2) k then 128 else picture_chroma y k

boxed :
    (left : ℕ) (b : Buffer)
    → left < 1200
    → left % 2 ≡ 0
    → IsFrame picture_luma picture_chroma b
    → (c : Buffer) × (draw_box left b ≡ some c) × IsFrame (frame_luma left) (frame_chroma left) c
unfolding draw_box
boxed left b small even i =
    let (m, e, (size, white, rest)) =
      blit_lem 40 80 (λ r c. some 235) (λ r c. (650 + r) * width + (left + c)) (λ r c. 235) b
        (λ r c k l. (refl, omega (arith, i.size, k, l, small)))
        (λ y x y' x' k l k' l' q.
          let (a, d) =
            address_apart 1280 (650 + y) (left + x) (650 + y') (left + x') (omega (arith, l, small))
              (omega (arith, l', small)) q in
          (omega (arith, a), omega (arith, d))) in
    let put : ℕ → ℕ → ℕ =
      λ r k. width * height + ((650 / 2 + r) * (width / 2) + (left / 2 + k / 2)) * 2 + k % 2 in
    let (c, g, (size', gray, rest')) =
      blit_lem 20 80 (λ r k. some 128) put (λ r k. 128) m
        (λ r k p l. (refl, omega (arith, i.size, size, p, l, small)))
        (λ y x y' x' k l k' l' q.
          let (a, d) =
            address_apart 1280 (325 + y) (left + x) (325 + y') (left + x') (omega (arith, l, small))
              (omega (arith, l', small)) (omega (arith, q, even)) in
          (omega (arith, a), omega (arith, d))) in
    (
      c,
      rw (e, g) refl,
      record {
        size = omega (arith, i.size, size, size');
        luma = λ y x k l.
            rest' (y * 1280 + x) (λ y' x' k' l' q. absurd (omega (arith, k, l, q)))
            ∙ elim (Bool-cases (in_box left y x)) [
              | inl w ↦ rw w (
                  ap m.at (ground (arith, w))
                  ∙ white (y - 650) (x - left) (ground (arith, w)) (ground (arith, w)))
              | inr w ↦ rw w (
                  rest (y * 1280 + x) (λ r d p o q.
                    let (a, s) =
                      address_apart 1280 (650 + r) (left + d) y x (omega (arith, o, small)) l q in
                    absurd (ground (arith, a, s, w, p, o)))
                  ∙ i.luma y x k l)
            ];
        chroma = λ y x k l. elim (Bool-cases (in_box left (y * 2) x)) [
          | inl w ↦ rw w (
              ap c.at (ground (arith, w, even))
              ∙ gray (y - 325) (x - left) (ground (arith, w)) (ground (arith, w)))
          | inr w ↦ rw w (
              rest' (921600 + (y * 1280 + x)) (λ r d p o q.
                let (a, s) =
                  address_apart 1280 (325 + r) (left + d) y x (omega (arith, o, small)) l
                    (omega (arith, q, even)) in
                absurd (ground (arith, a, s, w, p, o)))
              ∙ rest (921600 + (y * 1280 + x)) (λ r d p o q. absurd (omega (arith, p, o, q, small)))
              ∙ i.chroma y x k l)
        ];
      },
    )

-- Whatever vector is passed, and at every frame index: the generator can be made, and its frame has its
-- 1382400 bytes. They are the picture: eight bars of 160 columns with the values of a table that is written
-- down here, in the chroma plane with the U before the V, and from row 480 on a gray ramp without colour
-- and nothing else; and over it a white box of 80 by 40 pixels from row 650 on, whose left side is 12 times
-- the index in 64 bits, modulo 1200, so that its right side stays in the picture.
pub generate_frame-IsFrame :
    (out : Buffer) (frame_index : ℕ)
    → let left = frame_index * 12 % 2 ^ 64 % 1200 in
      (t : TestPattern) × (make ≡ some t)
      × (b : Buffer) × (generate_frame t out frame_index ≡ some b)
      × (left + 80 < 1280)
      × IsFrame (frame_luma left) (frame_chroma left) b
unfolding generate_frame
generate_frame-IsFrame out frame_index =
    let (t, e, i) = make-IsBars in
    let small : box_x frame_index < 1200 = omega arith in
    let (b, g, j) = copied t (resize payload_bytes out) i (resize-size payload_bytes out) in
    let (c, h, k) = boxed (box_x frame_index) b small (omega arith) j in
    (
      t,
      e,
      c,
      bind_then (copy_to 0 t.base_bars_y (resize payload_bytes out)) _
            (draw_box (box_x frame_index)) g
          ∙ h,
      omega arith,
      k,
    )
