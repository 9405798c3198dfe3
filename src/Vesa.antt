-- ===== src/Vesa.antt =====
-- The graphics driver of the earlier kernel (RedFox32/Old/Source/Drivers/VESA/VESA.c), over the memory that
-- the frame buffer and the description of the mode lie in.
pub mod Rows
pub mod Pixels
pub mod Rectangles
pub mod Glyph
pub mod Bios
pub mod Strobe
use red_fox32_old.Base.{
  ℕ, ◌+◌, ◌-◌, ◌*◌, ◌/◌, ◌%◌, ◌==◌, ◌||◌, if◌then◌else◌, bit_and, add32, sub32, word, for_range,
  zero, suc, ◌^◌, not, Option, none, some, ltb,
}
use red_fox32_old.Base.Partial.{◌>>=◌}
use red_fox32_old.Machine.Memory.{Memory, poke, load32}

abbrev pub vesa_mode_info : ℕ
vesa_mode_info = 0x8600

-- The fields of the packed struct that the drawing reads.
abbrev pub x_resolution : Memory → ℕ
x_resolution m = m (vesa_mode_info + 18) + 256 * m (vesa_mode_info + 19)

abbrev pub phys_base_ptr : Memory → ℕ
phys_base_ptr m = load32 m (vesa_mode_info + 40)

-- The three arguments of the drawing functions.
pub record Colour : Type 0 where
  pub red : ℕ
  pub green : ℕ
  pub blue : ℕ

abbrev pub black : Colour
black = record { red = 0; green = 0; blue = 0 }

-- The pointer to the bytes of a pixel.
abbrev pub where_is : (x y : ℕ) → Memory → ℕ
where_is x y m = add32 (add32 (phys_base_ptr m) (x * 3 % word)) (y * (x_resolution m * 3) % word)

-- `*Where++ = B; *Where++ = G; *Where++ = R`
abbrev pub plot : Colour → ℕ × Memory → ℕ × Memory
plot c (position, m) = (
  add32 position 3,
  poke (poke (poke m position c.blue) (add32 position 1) c.green) (add32 position 2) c.red,
)

pub draw_pixel : (x y : ℕ) → Colour → Memory → Memory
draw_pixel x y c m = (plot c (where_is x y m, m)).1

-- A row, and the step to the next one.
abbrev pub draw_row : (w i : ℕ) → (ℕ → ℕ → Colour) → ℕ × Memory → ℕ × Memory
draw_row w i colour p = for_range w 0 (λ j. plot (colour i j)) p

abbrev pub next_row : (w : ℕ) → ℕ × Memory → ℕ × Memory
next_row w (position, m) = (add32 position (sub32 (x_resolution m * 3) (w * 3 % word)), m)

-- The two loops of both functions, the colour of the column j of the row i given.
abbrev pub draw_rows : (x y w h : ℕ) → (ℕ → ℕ → Colour) → Memory → Memory
draw_rows x y w h colour m =
    (for_range h 0 (λ i p. next_row w (draw_row w i colour p)) (where_is x y m, m)).1

pub draw_fill_rect : (x y w h : ℕ) → Colour → Memory → Memory
draw_fill_rect x y w h c m = draw_rows x y w h (λ i j. c) m

pub draw_rect : (x y w h : ℕ) → Colour → Memory → Memory
draw_rect x y w h c m =
    draw_rows x y w h
      (λ i j. if (i == 0) || (i == sub32 h 1) || (j == 0) || (j == sub32 w 1) then c else black) m

-- A character of the font, the eight bytes of `glyph`, at (x, y). The two counters are bytes; a unit of fuel for
-- each test of a loop.
module _ (glyph : ℕ → ℕ) (x y : ℕ) (c : Colour) (scale : ℕ) where
  -- The test of a bit, with `mask[i]` written as 2 ^ i.
  abbrev pub glyph_colour : (i j : ℕ) → Colour
  glyph_colour i j = if not (bit_and (glyph (i / scale)) (2 ^ (j / scale)) == 0) then c else black

  glyph_row : (fuel i j : ℕ) → Memory → Option Memory
  glyph_row zero i j m = none
  glyph_row (suc fuel) i j m =
      let rest =
        glyph_row fuel i ((j + 1) % 256)
          (draw_pixel (add32 x j) (add32 y i) (glyph_colour i j) m) in
      if ltb j (8 * scale % word) then rest else some m

  glyph_rows : (fuel columns i : ℕ) → Memory → Option Memory
  unfolding glyph_row
  glyph_rows zero columns i m = none
  glyph_rows (suc fuel) columns i m =
      let rest = glyph_row columns i 0 m >>= glyph_rows fuel columns ((i + 1) % 256) in
      if ltb i (8 * scale % word) then rest else some m

  pub draw_char : (fuel : ℕ) → Memory → Option Memory
  unfolding glyph_rows
  draw_char fuel m = glyph_rows fuel fuel 0 m
