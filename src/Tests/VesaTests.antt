-- ===== src/Tests/VesaTests.antt =====
-- The graphics driver with a screen of 100 by 50 pixels.
use red_fox32_old.Base.{
  ℕ, ◌+◌, ◌*◌, ◌<◌, ◌≤◌, ◌⊎◌, ◌≡◌, refl, arith, ◌==◌, if◌then◌else◌, none, some, ◌-◌,
}
use red_fox32_old.Machine.Memory.{Memory, load32}
use red_fox32_old.Vesa.{Colour, black, draw_fill_rect, draw_rect, draw_char}
use red_fox32_old.Vesa.Pixels.{Mode, IsMode, pixel}
use red_fox32_old.Vesa.Rectangles.{draw_fill_rect-pixels, draw_rect-pixels}
use red_fox32_old.Vesa.Glyph.{bit_colour, draw_char-pixels, draw_char-stuck}
use red_fox32_old.Vesa.Strobe.{strobe_pixel, strobe_frame, strobe_frame-bounds}
use red_fox32_old.Vesa.Bios.{Bios, IsVbe, cleared, vesa_init, vesa_init-IsMode}

abbrev mode : Mode
mode = record { base = 0x10000; width = 100; height = 50 }

abbrev described : Memory
described x = if x == 0x8612 then 100 else if x == 0x8614 then 50 else if x == 0x862A then 1 else 0

described-IsMode : IsMode mode described
unfolding load32
described-IsMode = record {
  resolution = refl;
  pointer = refl;
  above = omega arith;
  fits = omega arith;
}

abbrev green : Colour
green = record { red = 0; green = 255; blue = 0 }

draw_fill_rect-pixels_example : pixel mode (draw_fill_rect 10 5 4 3 green described) 12 7 ≡ green
draw_fill_rect-pixels_example =
    (draw_fill_rect-pixels mode 10 5 4 3 green described described-IsMode (omega arith)
        (omega arith)).0
      12 7 (omega arith)

draw_rect-pixels_example : pixel mode (draw_rect 10 5 4 3 green described) 12 6 ≡ black
draw_rect-pixels_example =
    draw_rect-pixels mode 10 5 4 3 green described 12 6 described-IsMode (omega arith) (omega arith)
      (omega arith) (omega arith) (omega arith)

abbrev glyph : ℕ → ℕ
glyph i = 0x18

draw_char-pixels_example :
    (m' : Memory) × (draw_char glyph 10 5 green 2 20 described ≡ some m')
    × IsMode mode m'
    × ((r k a b : ℕ)
        → r < 8
        → k < 8
        → a < 2
        → b < 2
        → pixel mode m' (10 + (k * 2 + a)) (5 + (r * 2 + b)) ≡ bit_colour glyph green r k)
    × ((px py : ℕ)
        → px < 100
        → (px < 10) ⊎ (26 ≤ px) ⊎ (py < 5) ⊎ (21 ≤ py)
        → pixel mode m' px py ≡ pixel mode described px py)
draw_char-pixels_example =
    draw_char-pixels mode glyph 10 5 green 2 20 described described-IsMode (λ r. omega arith)
      (omega arith) (omega arith) (omega arith) (omega arith) (omega arith) (omega arith)

draw_char-stuck_example : draw_char glyph 10 5 green 40 1000 described ≡ none
draw_char-stuck_example =
    draw_char-stuck glyph 10 5 green 40 1000 described (omega arith) (omega arith)

-- A BIOS that describes that mode.
abbrev bios : Bios
bios interrupt r m =
    if r.ax == 0x4F01 then (λ x. described (x + 0x8600 - (r.es * 16 + r.di))) else m

bios-IsVbe : IsVbe mode bios
unfolding load32
bios-IsVbe = record {
  width = λ r m e e'. ground (arith, e);
  pointer = λ r m e e'. ground (arith, e);
  bank = λ r m x e lt. ground (arith, e);
}

vesa_init-IsMode_example : IsMode mode (vesa_init bios cleared cleared (λ x. 0))
vesa_init-IsMode_example =
    vesa_init-IsMode mode bios cleared cleared (λ x. 0) bios-IsVbe (omega arith) (omega arith)

strobe_frame-bounds_example :
    ((x : ℕ) → (x ≤ 0x10000) ⊎ (0x10000 + 15000 < x) → strobe_frame described x ≡ described x)
    × IsMode mode (strobe_frame described)
    × ((strobe_pixel 1 2 3 (14998, described)).1 (0x10000 + 15000) ≡ 3)
strobe_frame-bounds_example =
    strobe_frame-bounds mode described 1 2 3 described-IsMode refl (omega arith)
