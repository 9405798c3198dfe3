-- ===== src/Vesa/Rectangles.antt =====
-- The two rectangles as operations on the picture.
use red_fox32_old.Base.{
  ℕ, ◌+◌, ◌-◌, ◌≤◌, ◌<◌, ◌≡◌, ◌∙◌, refl, arith, ◌==◌, ◌||◌, ◌&&◌, if◌then◌else◌, sub32, word, Bool,
  not, true, false, Bool-cases, inl, inr,
}
use red_fox32_old.Machine.Memory.{Memory}
use red_fox32_old.Vesa.{Colour, black, draw_fill_rect, draw_rect}
use red_fox32_old.Vesa.Pixels.{Mode, IsMode, pixel, between, draw_rows-pixels, draw_rows-IsMode}

-- A filled rectangle that is on the screen: its pixels have the colour and all others are as they were;
-- the description of the mode is left alone.
pub draw_fill_rect-pixels :
    (v : Mode) (x y w h : ℕ) (c : Colour) (m : Memory)
    → IsMode v m
    → x + w ≤ v.width
    → y + h ≤ v.height
    → ((px py : ℕ)
        → px < v.width
        → pixel v (draw_fill_rect x y w h c m) px py
          ≡ (if between x w px && between y h py then c else pixel v m px py))
      × IsMode v (draw_fill_rect x y w h c m)
unfolding draw_fill_rect
draw_fill_rect-pixels v x y w h c m mode right bottom = (
  λ px py lt. draw_rows-pixels v (λ i j. c) x y w h m px py mode right bottom lt,
  draw_rows-IsMode v (λ i j. c) x y w h m mode right bottom,
)

-- The first and the last of a range.
edge :
    (x w px : ℕ)
    → between x w px ≡ true
    → w < word
    → ((px - x == 0) || (px - x == sub32 w 1)) ≡ not (between (x + 1) (w - 2) px)
edge x w px on small = ground arith

border :
    (a b c d e f : Bool) → (c || d) ≡ not f → (a || b) ≡ not e → (a || b || c || d) ≡ not (f && e)
border a b c d e f p q = ground arith

both : (a b : Bool) → (a && b) ≡ true → (a ≡ true) × (b ≡ true)
both a b e = ground arith

if_not : (b : Bool) (c c' : Colour) → (if not b then c else c') ≡ (if b then c' else c)
if_not true c c' = refl
if_not false c c' = refl

-- A rectangle on a screen whose sides are 32-bit numbers: the pixels of its first and last columns and rows have
-- the colour, those between them are black, and all others are as they were.
pub draw_rect-pixels :
    (v : Mode) (x y w h : ℕ) (c : Colour) (m : Memory) (px py : ℕ)
    → IsMode v m
    → x + w ≤ v.width
    → y + h ≤ v.height
    → v.width < word
    → v.height < word
    → px < v.width
    → pixel v (draw_rect x y w h c m) px py ≡ (
        if between x w px && between y h py
        then (if between (x + 1) (w - 2) px && between (y + 1) (h - 2) py then black else c)
        else pixel v m px py)
unfolding draw_rect
draw_rect-pixels v x y w h c m px py mode right bottom small small' lt =
    draw_rows-pixels v
      (λ i j. if (i == 0) || (i == sub32 h 1) || (j == 0) || (j == sub32 w 1) then c else black) x y
      w h m px py mode right bottom lt
    ∙ elim (Bool-cases (between x w px && between y h py)) [
      | inl on ↦
          let sides = both (between x w px) (between y h py) on in
          rw
            (
              on,
              border (py - y == 0) (py - y == sub32 h 1) (px - x == 0) (px - x == sub32 w 1)
                  (between (y + 1) (h - 2) py) (between (x + 1) (w - 2) px)
                  (edge x w px sides.0 (omega arith)) (edge y h py sides.1 (omega arith)),
            )
            (if_not (between (x + 1) (w - 2) px && between (y + 1) (h - 2) py) c black)
      | inr off ↦ rw off
    ]
