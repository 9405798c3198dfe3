-- ===== src/Vesa/Glyph.antt =====
-- The characters as operations on the picture.
use red_fox32_old.Base.{
  ℕ, zero, suc, ◌+◌, ◌-◌, ◌*◌, ◌/◌, ◌%◌, ◌^◌, ◌≤◌, ◌<◌, ◌≡◌, ◌⊎◌, ◌∙◌, ap, ap₂, sym, subst, refl,
  arith, ◌==◌, ◌&&◌, not, bit_and, passes, passes-at, bool_eq, bool_eq→eq, true, if◌then◌else◌,
  add32, word, Bool, none, some, ℕ_discrete, lt→ltb, ge→ltb, for_range,
}
use red_fox32_old.Machine.Memory.{Memory}
use red_fox32_old.Vesa.{
  Colour, black, draw_pixel, draw_rows, draw_char, glyph_row, glyph_rows, glyph_colour,
}
use red_fox32_old.Vesa.Pixels.{Mode, IsMode, pixel, between, draw_rows-pixels, draw_rows-IsMode}

draw_pixel-draw_rows :
    (x y : ℕ) (c : Colour) (m : Memory) → draw_pixel x y c m ≡ draw_rows x y 1 1 (λ i j. c) m
unfolding draw_pixel for_range
draw_pixel-draw_rows x y c m = refl

single : (x y px py : ℕ) → (between x 1 px && between y 1 py) ≡ ((px == x) && (py == y))
single x y px py = ground arith

-- A pixel on the screen gets its colour and no other changes.
pub draw_pixel-pixels :
    (v : Mode) (x y : ℕ) (c : Colour) (m : Memory)
    → IsMode v m
    → x < v.width
    → y < v.height
    → ((px py : ℕ)
        → px < v.width
        → pixel v (draw_pixel x y c m) px py
          ≡ (if (px == x) && (py == y) then c else pixel v m px py))
      × IsMode v (draw_pixel x y c m)
draw_pixel-pixels v x y c m mode lt lt' = (
  λ px py p.
      ap (λ m'. pixel v m' px py) (draw_pixel-draw_rows x y c m)
      ∙ draw_rows-pixels v (λ i j. c) x y 1 1 m px py mode (omega arith) (omega arith) p
      ∙ ap (λ b. if b then c else pixel v m px py) (single x y px py),
  subst (IsMode v) (sym (draw_pixel-draw_rows x y c m))
      (draw_rows-IsMode v (λ i j. c) x y 1 1 m mode (omega arith) (omega arith)),
)

-- The next column joins the columns after it.
column_joins :
    (start n px x : ℕ) (on : Bool) (g : ℕ → Colour) (before : Colour)
    → (if between (start + (x + 1)) n px && on
        then g (px - start)
        else (if (px == start + x) && on then g x else before))
      ≡ (if between (start + x) (suc n) px && on then g (px - start) else before)
column_joins start n px x on g before = elim (ℕ_discrete px (start + x)) [
  | yes e ↦ let index : px - start ≡ x = omega arith in rw index (ground arith)
  | no ne ↦ ground arith
]

-- The next row joins the rows after it.
row_joins :
    (x y side n px py i : ℕ) (g : ℕ → Colour) (before : Colour)
    → (if between x side px && between (y + (i + 1)) n py
        then g (py - y)
        else (if between (x + 0) side px && (py == y + i) then g i else before))
      ≡ (if between x side px && between (y + i) (suc n) py then g (py - y) else before)
row_joins x y side n px py i g before = elim (ℕ_discrete py (y + i)) [
  | yes e ↦ let index : py - y ≡ i = omega arith in rw index (ground arith)
  | no ne ↦ ground arith
]

-- The character is on the screen, at a scale for which its sides are bytes.
module _ (v : Mode) (glyph : ℕ → ℕ) (x y : ℕ) (c : Colour) (scale : ℕ) (small : 8 * scale < 256)
    (right : x + 8 * scale ≤ v.width) (bottom : y + 8 * scale ≤ v.height) (narrow : v.width < word)
    (low : v.height < word) where
  end_of_side : 8 * scale % word ≡ 8 * scale
  end_of_side = omega arith

  row_done :
      (fuel i j : ℕ) (m : Memory)
      → 8 * scale ≤ j
      → glyph_row glyph x y c scale (suc fuel) i j m ≡ some m
  unfolding glyph_row
  row_done fuel i j m le = rw (end_of_side, ge→ltb j (8 * scale) le)

  row_more :
      (fuel i j : ℕ) (m : Memory)
      → j < 8 * scale
      → i < 8 * scale
      → glyph_row glyph x y c scale (suc fuel) i j m
        ≡ glyph_row glyph x y c scale fuel i
            (j + 1)
            (draw_pixel (x + j) (y + i) (glyph_colour glyph x y c scale i j) m)
  unfolding glyph_row
  row_more fuel i j m lt lt' =
      let column : add32 x j ≡ x + j = omega arith in
      let line : add32 y i ≡ y + i = omega arith in
      let next : (j + 1) % 256 ≡ j + 1 = omega arith in
      rw (end_of_side, lt→ltb j (8 * scale) lt, column, line, next)

  row-pixels :
      (n fuel i j : ℕ) (m : Memory)
      → IsMode v m
      → j + n ≡ 8 * scale
      → n < fuel
      → i < 8 * scale
      → (m' : Memory) × (glyph_row glyph x y c scale fuel i j m ≡ some m')
        × IsMode v m'
        × ((px py : ℕ)
            → px < v.width
            → pixel v m' px py ≡ (
                if between (x + j) n px && (py == y + i)
                then glyph_colour glyph x y c scale i (px - x)
                else pixel v m px py))
  row-pixels n zero i j m mode e lt lt' = ground arith
  row-pixels zero (suc fuel) i j m mode e lt lt' =
      (m, row_done fuel i j m (omega arith), mode, λ px py p. ground arith)
  row-pixels (suc n) (suc fuel) i j m mode e lt lt' =
      let colour = glyph_colour glyph x y c scale i j in
      let drawn = draw_pixel-pixels v (x + j) (y + i) colour m mode (omega arith) (omega arith) in
      let rest =
        row-pixels n fuel i (j + 1) (draw_pixel (x + j) (y + i) colour m) drawn.1 (omega arith)
          (omega arith) lt' in
      (
        rest.0,
        row_more fuel i j m (omega arith) lt' ∙ rest.1,
        rest.2,
        λ px py p.
            rest.3 px py p
            ∙ ap
                (λ q.
                  if between (x + (j + 1)) n px && (py == y + i)
                  then glyph_colour glyph x y c scale i (px - x)
                  else q)
                (drawn.0 px py p)
            ∙ column_joins x n px j (py == y + i) (glyph_colour glyph x y c scale i)
                (pixel v m px py),
      )

  rows_done :
      (fuel columns i : ℕ) (m : Memory)
      → 8 * scale ≤ i
      → glyph_rows glyph x y c scale (suc fuel) columns i m ≡ some m
  unfolding glyph_rows
  rows_done fuel columns i m le = rw (end_of_side, ge→ltb i (8 * scale) le)

  rows_more :
      (fuel columns i : ℕ) (m m1 : Memory)
      → i < 8 * scale
      → glyph_row glyph x y c scale columns i 0 m ≡ some m1
      → glyph_rows glyph x y c scale (suc fuel) columns i m
        ≡ glyph_rows glyph x y c scale fuel columns (i + 1) m1
  unfolding glyph_rows
  rows_more fuel columns i m m1 lt e =
      let next : (i + 1) % 256 ≡ i + 1 = omega arith in
      rw (end_of_side, lt→ltb i (8 * scale) lt, e, next)

  rows-pixels :
      (n fuel columns i : ℕ) (m : Memory)
      → IsMode v m
      → i + n ≡ 8 * scale
      → n < fuel
      → 8 * scale < columns
      → (m' : Memory) × (glyph_rows glyph x y c scale fuel columns i m ≡ some m')
        × IsMode v m'
        × ((px py : ℕ)
            → px < v.width
            → pixel v m' px py ≡ (
                if between x (8 * scale) px && between (y + i) n py
                then glyph_colour glyph x y c scale (py - y) (px - x)
                else pixel v m px py))
  rows-pixels n zero columns i m mode e lt enough = ground arith
  rows-pixels zero (suc fuel) columns i m mode e lt enough =
      (m, rows_done fuel columns i m (omega arith), mode, λ px py p. ground arith)
  rows-pixels (suc n) (suc fuel) columns i m mode e lt enough =
      let row = row-pixels (8 * scale) columns i 0 m mode (omega arith) enough (omega arith) in
      let rest =
        rows-pixels n fuel columns (i + 1) row.0 row.2 (omega arith) (omega arith) enough in
      (
        rest.0,
        rows_more fuel columns i m row.0 (omega arith) row.1 ∙ rest.1,
        rest.2,
        λ px py p.
            rest.3 px py p
            ∙ ap
                (λ q.
                  if between x (8 * scale) px && between (y + (i + 1)) n py
                  then glyph_colour glyph x y c scale (py - y) (px - x)
                  else q)
                (row.3 px py p)
            ∙ row_joins x y (8 * scale) n px py i (λ k. glyph_colour glyph x y c scale k (px - x))
                (pixel v m px py),
      )

bit_table :
    passes (λ g. passes (λ k. bool_eq (not (bit_and g (2 ^ k) == 0)) (g / 2 ^ k % 2 == 1)) 8) 256
    ≡ true
unfolding passes bool_eq
bit_table = refl

-- The test by the mask is about the digit of weight 2 ^ k.
mask-bit : (g k : ℕ) → g < 256 → k < 8 → not (bit_and g (2 ^ k) == 0) ≡ (g / 2 ^ k % 2 == 1)
mask-bit g k lt lt' = bool_eq→eq (not (bit_and g (2 ^ k) == 0)) (g / 2 ^ k % 2 == 1) (
    passes-at (λ k. bool_eq (not (bit_and g (2 ^ k) == 0)) (g / 2 ^ k % 2 == 1)) 8
      (passes-at (λ g. passes (λ k. bool_eq (not (bit_and g (2 ^ k) == 0)) (g / 2 ^ k % 2 == 1)) 8)
        256 bit_table g lt)
      k lt')

-- A pixel of a square, counted from the start of the character.
in_square : (k a scale : ℕ) → k < 8 → a < scale → k * scale + a < 8 * scale
in_square k a scale lt lt' = grind arith

square_index : (k a scale : ℕ) → a < scale → (k * scale + a) / scale ≡ k
square_index k a scale lt = grind arith

-- The colour of the bit k of the row r of the font.
abbrev pub bit_colour : (glyph : ℕ → ℕ) → Colour → (r k : ℕ) → Colour
bit_colour glyph c r k = if glyph r / 2 ^ k % 2 == 1 then c else black

square_colour :
    (glyph : ℕ → ℕ) (x y : ℕ) (c : Colour) (scale r k a b : ℕ)
    → glyph r < 256
    → k < 8
    → a < scale
    → b < scale
    → glyph_colour glyph x y c scale (r * scale + b) (k * scale + a) ≡ bit_colour glyph c r k
square_colour glyph x y c scale r k a b byte lt lt' lt'' =
    rw (square_index k a scale lt', square_index r b scale lt'')
      (ap (λ t. if t then c else black) (mask-bit (glyph r) k byte lt))

inside_char :
    (x i y j side : ℕ) (new old : Colour)
    → i < side
    → j < side
    → (if between x side (x + i) && between (y + 0) side (y + j) then new else old) ≡ new
inside_char x i y j side new old lt lt' = ground arith

outside_char :
    (x px y py side : ℕ) (new old : Colour)
    → (px < x) ⊎ (x + side ≤ px) ⊎ (py < y) ⊎ (y + side ≤ py)
    → (if between x side px && between (y + 0) side py then new else old) ≡ old
outside_char x px y py side new old out = ground arith

-- A character at a scale of at most 31, of a font of bytes, that is on the screen, whose sides are 32-bit
-- numbers, is drawn with enough fuel: every pixel of the square of scale by scale pixels for the bit k,
-- from the lowest, of the row r of its font has the colour if the bit is 1 and is black otherwise; the
-- pixels outside the 8 by 8 squares are as they were, and so is the description of the mode.
pub draw_char-pixels :
    (v : Mode) (glyph : ℕ → ℕ) (x y : ℕ) (c : Colour) (scale fuel : ℕ) (m : Memory)
    → IsMode v m
    → ((r : ℕ) → glyph r < 256)
    → scale < 32
    → x + 8 * scale ≤ v.width
    → y + 8 * scale ≤ v.height
    → v.width < word
    → v.height < word
    → 8 * scale < fuel
    → (m' : Memory) × (draw_char glyph x y c scale fuel m ≡ some m')
      × IsMode v m'
      × ((r k a b : ℕ)
          → r < 8
          → k < 8
          → a < scale
          → b < scale
          → pixel v m' (x + (k * scale + a)) (y + (r * scale + b)) ≡ bit_colour glyph c r k)
      × ((px py : ℕ)
          → px < v.width
          → (px < x) ⊎ (x + 8 * scale ≤ px) ⊎ (py < y) ⊎ (y + 8 * scale ≤ py)
          → pixel v m' px py ≡ pixel v m px py)
unfolding draw_char
draw_char-pixels v glyph x y c scale fuel m mode bytes small right bottom narrow low enough =
    let done =
      rows-pixels v glyph x y c scale (omega arith) right bottom narrow low (8 * scale) fuel fuel 0
        m mode (omega arith) enough enough in
    (
      done.0,
      done.1,
      done.2,
      λ r k a b lt lt' in_column in_line.
          let across = in_square k a scale lt' in_column in
          let down = in_square r b scale lt in_line in
          let column : x + (k * scale + a) - x ≡ k * scale + a = omega arith in
          let line : y + (r * scale + b) - y ≡ r * scale + b = omega arith in
          done.3 (x + (k * scale + a)) (y + (r * scale + b)) (omega (arith, across))
          ∙ inside_char x (k * scale + a) y (r * scale + b) (8 * scale) _ _ across down
          ∙ ap₂ (λ i j. glyph_colour glyph x y c scale i j) line column
          ∙ square_colour glyph x y c scale r k a b (bytes r) lt' in_column in_line,
      λ px py p out. done.3 px py p ∙ outside_char x px y py (8 * scale) _ _ out,
    )

row_endless :
    (glyph : ℕ → ℕ) (x y : ℕ) (c : Colour) (scale fuel i j : ℕ) (m : Memory)
    → 31 < scale
    → 8 * scale < word
    → j < 256
    → glyph_row glyph x y c scale fuel i j m ≡ none
unfolding glyph_row
row_endless glyph x y c scale zero i j m big fits lt = refl
row_endless glyph x y c scale (suc fuel) i j m big fits lt =
    let side : 8 * scale % word ≡ 8 * scale = omega arith in
    rw (side, lt→ltb j (8 * scale) (omega arith))
      (row_endless glyph x y c scale fuel i ((j + 1) % 256)
        (draw_pixel (add32 x j) (add32 y i) (glyph_colour glyph x y c scale i j) m) big fits
        (omega arith))

rows_endless :
    (glyph : ℕ → ℕ) (x y : ℕ) (c : Colour) (scale fuel columns : ℕ) (m : Memory)
    → 31 < scale
    → 8 * scale < word
    → glyph_rows glyph x y c scale fuel columns 0 m ≡ none
unfolding glyph_rows
rows_endless glyph x y c scale zero columns m big fits = refl
rows_endless glyph x y c scale (suc fuel) columns m big fits =
    let side : 8 * scale % word ≡ 8 * scale = omega arith in
    rw (
      side,
      lt→ltb 0 (8 * scale) (omega arith),
      row_endless glyph x y c scale columns 0 0 m big fits (omega arith),
    )

-- At a scale of 32 or more, with eight times the scale a 32-bit number, the character is never finished.
pub draw_char-stuck :
    (glyph : ℕ → ℕ) (x y : ℕ) (c : Colour) (scale fuel : ℕ) (m : Memory)
    → 31 < scale
    → 8 * scale < word
    → draw_char glyph x y c scale fuel m ≡ none
unfolding draw_char
draw_char-stuck glyph x y c scale fuel m big fits =
    rows_endless glyph x y c scale fuel fuel m big fits
