-- ===== src/Vesa/Strobe.antt =====
-- VESA_DEBUG_STROBE of VESA.c: one frame of the pattern that it draws for ever.
use red_fox32_old.Base.{
  ℕ, zero, suc, ◌+◌, ◌-◌, ◌*◌, ◌%◌, ◌≤◌, ◌<◌, ◌≡◌, ◌⊎◌, ◌∙◌, ◌≢◌, ap₂, refl, arith, for_range,
  add32,
}
use red_fox32_old.Machine.Memory.{Memory, poke}
use red_fox32_old.Vesa.{x_resolution, phys_base_ptr, vesa_mode_info}
use red_fox32_old.Vesa.Pixels.{Mode, IsMode, IsMode-transfer}

abbrev pub y_resolution : Memory → ℕ
y_resolution m = m (vesa_mode_info + 20) + 256 * m (vesa_mode_info + 21)

abbrev pub frame_size : Memory → ℕ
frame_size m = x_resolution m * y_resolution m * 3

-- `Pos` with the memory: `Pixels[Pos++] = v`, and the two steps that bring it back into the frame.
abbrev pub put : (v : ℕ) → ℕ × Memory → ℕ × Memory
put v (pos, m) = (add32 pos 1, poke m (add32 (phys_base_ptr m) pos) v)

abbrev pub wrap : ℕ × Memory → ℕ × Memory
wrap (pos, m) = (pos % frame_size m, m)

abbrev pub row_down : ℕ × Memory → ℕ × Memory
row_down (pos, m) = wrap (add32 pos (x_resolution m * 3), m)

abbrev pub strobe_pixel : (blue green red : ℕ) → ℕ × Memory → ℕ × Memory
strobe_pixel blue green red p = wrap (put red (put green (put blue p)))

abbrev pub strobe_row : (blue green : ℕ) → ℕ × Memory → ℕ × Memory
strobe_row blue green p = row_down (for_range 255 0 (strobe_pixel blue green) p)

abbrev pub strobe_plane : (blue : ℕ) → ℕ × Memory → ℕ × Memory
strobe_plane blue p = row_down (for_range 255 0 (strobe_row blue) p)

-- The body of the endless loop, without the counting that follows it. A mode without pixels, in which the
-- remainder is a fault, is outside the model.
pub strobe_frame : Memory → Memory
strobe_frame m = (for_range 255 0 strobe_plane (1, m)).1

-- A multiple of 3 further on, less than a frame.
wrapped :
    (size q pos : ℕ)
    → size ≡ 3 * q
    → pos % 3 ≡ 1
    → pos < size + size
    → ((pos % size) % 3 ≡ 1) × (pos % size < size)
wrapped size q pos e phase lt = (grind arith, grind arith)

-- A loop keeps what its body keeps.
for_range-keeps :
    {S : Type 0} (P : S → Type 0) (body : ℕ → S → S)
    → ((i : ℕ) (s : S) → P s → P (body i s))
    → (n i : ℕ) (s : S) → P s
    → P (for_range n i body s)
unfolding for_range
for_range-keeps P body keeps zero i s h = h
for_range-keeps P body keeps (suc n) i s h =
    for_range-keeps P body keeps n (i + 1) (body i s) (keeps i s h)

-- The size of the frame of a mode.
abbrev pub size : Mode → ℕ
size v = v.width * v.height * 3

-- Between two pixels: the position is one byte into a pixel of the frame, and only the bytes from the
-- second of the frame to the one behind it have changed.
record Strobing (v : Mode) (m0 : Memory) (p : ℕ × Memory) : Type 0 where
  mode : IsMode v p.1
  rows : y_resolution p.1 ≡ v.height
  phase : p.0 % 3 ≡ 1
  inside : p.0 < size v
  outside : (x : ℕ) → (x ≤ v.base) ⊎ (v.base + size v < x) → p.1 x ≡ m0 x

module _ (v : Mode) (m0 : Memory) where
  -- Bytes that are written in the frame or right behind it leave the description as it is.
  put_mode :
      (value : ℕ) (p : ℕ × Memory)
      → IsMode v p.1
      → p.0 ≤ size v
      → IsMode v (put value p).1
        × (y_resolution (put value p).1 ≡ y_resolution p.1)
        × ((put value p).0 ≡ p.0 + 1)
        × ((x : ℕ) → x ≢ v.base + p.0 → (put value p).1 x ≡ p.1 x)
  put_mode value p mode near =
      let at : add32 (phys_base_ptr p.1) p.0 ≡ v.base + p.0 =
        omega (arith, mode.pointer, mode.fits) in
      let other : (x : ℕ) → x ≢ v.base + p.0 → (put value p).1 x ≡ p.1 x =
        λ x ne. rw at (ground (arith, ne)) in
      (
        IsMode-transfer v p.1 (put value p).1 (λ x low. other x (λ e. omega (arith, mode.above)))
            mode,
        ap₂ (λ a b. a + 256 * b) (other (vesa_mode_info + 20) (λ e. omega (arith, mode.above, e)))
            (other (vesa_mode_info + 21) (λ e. omega (arith, mode.above, e))),
        omega (arith, mode.fits),
        other,
      )

  frame_of : (m : Memory) → IsMode v m → y_resolution m ≡ v.height → frame_size m ≡ size v
  frame_of m mode rows = ap₂ (λ a b. a * b * 3) mode.resolution rows

  thirds : size v ≡ 3 * (v.width * v.height)
  thirds = omega arith

  row_fits : (w h pos : ℕ) → pos < w * h * 3 → w * 3 ≤ w * h * 3
  row_fits w zero pos lt = omega arith
  row_fits w (suc h) pos lt = omega arith

  pixel-Strobing :
      (blue green red : ℕ) (p : ℕ × Memory)
      → Strobing v m0 p
      → Strobing v m0 (strobe_pixel blue green red p)
  pixel-Strobing blue green red p h =
      let (mode1, rows1, pos1, same1) = put_mode blue p h.mode (omega (arith, h.inside)) in
      let p1 = put blue p in
      let (mode2, rows2, pos2, same2) =
        put_mode green p1 mode1 (omega (arith, pos1, h.inside, h.phase)) in
      let p2 = put green p1 in
      let (mode3, rows3, pos3, same3) =
        put_mode red p2 mode2 (omega (arith, pos1, pos2, h.inside, h.phase, thirds)) in
      let p3 = put red p2 in
      let rows = rows3 ∙ rows2 ∙ rows1 ∙ h.rows in
      let frame = frame_of p3.1 mode3 rows in
      let (phase, inside) =
        wrapped (frame_size p3.1) (v.width * v.height) p3.0 (frame ∙ thirds)
          (omega (arith, pos1, pos2, pos3, h.phase))
          (omega (arith, pos1, pos2, pos3, h.inside, h.phase, frame, thirds)) in
      record {
        mode = mode3;
        rows = rows;
        phase = phase;
        inside = omega (arith, inside, frame);
        outside = λ x out.
            same3 x (λ e.
              apart p2.0 x e out (omega (arith, pos1, pos2))
                (omega (arith, pos1, pos2, h.inside, h.phase, thirds)))
            ∙ same2 x
                (λ e. apart p1.0 x e out (omega (arith, pos1)) (omega (arith, pos1, h.inside)))
            ∙ same1 x (λ e. apart p.0 x e out (omega (arith, h.phase)) (omega (arith, h.inside)))
            ∙ h.outside x out;
      }
    where
      apart :
          (pos x : ℕ)
          → x ≡ v.base + pos
          → (x ≤ v.base) ⊎ (v.base + size v < x)
          → 0 < pos
          → pos ≤ size v
          → ⊥
      apart pos x e out lo hi = ground arith

  row_down-Strobing : (p : ℕ × Memory) → Strobing v m0 p → Strobing v m0 (row_down p)
  row_down-Strobing p h =
      let frame = frame_of p.1 h.mode h.rows in
      let width = row_fits v.width v.height p.0 h.inside in
      let next : add32 p.0 (x_resolution p.1 * 3) ≡ p.0 + v.width * 3 =
        omega (arith, h.mode.resolution, h.mode.fits, h.inside) in
      let (phase, inside) =
        wrapped (frame_size p.1) (v.width * v.height) (add32 p.0 (x_resolution p.1 * 3))
          (frame ∙ thirds) (omega (arith, next, h.phase))
          (omega (arith, next, h.inside, width, frame)) in
      record {
        mode = h.mode;
        rows = h.rows;
        phase = phase;
        inside = omega (arith, inside, frame);
        outside = h.outside;
      }

  frame-Strobing :
      (p : ℕ × Memory) → Strobing v m0 p → Strobing v m0 (for_range 255 0 strobe_plane p)
  frame-Strobing p h =
      for_range-keeps (Strobing v m0) strobe_plane
        (λ blue p1 h1. row_down-Strobing (for_range 255 0 (strobe_row blue) p1) (
          for_range-keeps (Strobing v m0) (strobe_row blue)
            (λ green p2 h2. row_down-Strobing (for_range 255 0 (strobe_pixel blue green) p2) (
              for_range-keeps (Strobing v m0) (strobe_pixel blue green)
                (λ red p3 h3. pixel-Strobing blue green red p3 h3) 255 0 p2 h2))
            255 0 p1 h1))
        255 0 p h

  -- From the last position of a pixel its red lands behind the frame.
  pixel_past :
      (blue green red : ℕ)
      → IsMode v m0
      → 2 < size v
      → (strobe_pixel blue green red (size v - 2, m0)).1 (v.base + size v) ≡ red
  pixel_past blue green red mode room =
      let p : ℕ × Memory = (size v - 2, m0) in
      let (mode1, rows1, pos1, same1) = put_mode blue p mode (omega arith) in
      let p1 = put blue p in
      let (mode2, rows2, pos2, same2) = put_mode green p1 mode1 (omega (arith, pos1)) in
      let p2 = put green p1 in
      let at : add32 (phys_base_ptr p2.1) p2.0 ≡ v.base + size v =
        omega (arith, mode2.pointer, mode2.fits, pos1, pos2, room) in
      rw at (ground arith)

-- In a mode with pixels a frame of the strobe changes nothing but the bytes from the second of the frame
-- buffer to the one behind it, and the description of the mode is left alone; a pixel drawn at the last
-- position does write the byte behind the frame buffer.
pub strobe_frame-bounds :
    (v : Mode) (m : Memory) (blue green red : ℕ)
    → IsMode v m
    → y_resolution m ≡ v.height
    → 2 < size v
    → ((x : ℕ) → (x ≤ v.base) ⊎ (v.base + size v < x) → strobe_frame m x ≡ m x)
      × IsMode v (strobe_frame m)
      × ((strobe_pixel blue green red (size v - 2, m)).1 (v.base + size v) ≡ red)
unfolding strobe_frame
strobe_frame-bounds v m blue green red mode rows room =
    let h =
      frame-Strobing v m (1, m)
        (record {
          mode = mode;
          rows = rows;
          phase = refl;
          inside = omega (arith, room);
          outside = λ x out. refl;
        }) in
    (h.outside, h.mode, pixel_past v m blue green red mode room)
