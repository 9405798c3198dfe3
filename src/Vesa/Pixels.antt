-- ===== src/Vesa/Pixels.antt =====
-- The drawing functions as operations on a picture: the colour of each pixel.
use red_fox32_old.Base.{
  Bool, Bool-cases, ℕ, ◌+◌, ◌-◌, ◌*◌, ◌≤◌, ◌<◌, ◌≡◌, ◌⊎◌, ◌∙◌, ap, ap₂, sym, subst, refl, inl, inr,
  arith, ◌&&◌, leb, ltb, if◌then◌else◌, for_range, word, dec_lt,
}
use red_fox32_old.Machine.Memory.{Memory, load32-eq}
use red_fox32_old.Vesa.{
  Colour, where_is, draw_row, next_row, x_resolution, phys_base_ptr, vesa_mode_info, draw_rows,
}
use red_fox32_old.Vesa.Rows.{Holds, rows, rows-Holds, rows_outside, IsPlaced}

-- The mode: the resolution, and the address of the frame buffer.
pub record Mode : Type 0 where
  pub base : ℕ
  pub width : ℕ
  pub height : ℕ

-- The description in memory is that of the mode, and the frame buffer lies above it, with
-- a row to spare below the end of the addresses.
pub record IsMode (v : Mode) (m : Memory) : Type 0 where
  pub resolution : x_resolution m ≡ v.width
  pub pointer : phys_base_ptr m ≡ v.base
  pub above : 0x8700 ≤ v.base
  pub fits : v.base + v.height * (v.width * 3) + v.width * 3 < word

-- The description is all that the mode depends on.
pub IsMode-transfer :
    (v : Mode) (m m' : Memory) → ((a : ℕ) → a < 0x8700 → m' a ≡ m a) → IsMode v m → IsMode v m'
IsMode-transfer v m m' same h = record {
  resolution =
      ap₂ (λ a b. a + 256 * b) (same (vesa_mode_info + 18) (omega arith))
        (same (vesa_mode_info + 19) (omega arith))
      ∙ h.resolution;
  pointer =
      load32-eq m' (vesa_mode_info + 40)
      ∙ omega (
        arith,
        same (vesa_mode_info + 40) (omega arith),
        same (vesa_mode_info + 40 + 1) (omega arith),
        same (vesa_mode_info + 40 + 2) (omega arith),
        same (vesa_mode_info + 40 + 3) (omega arith),
        load32-eq m (vesa_mode_info + 40),
        h.pointer,
      );
  above = h.above;
  fits = h.fits;
}

abbrev pub place : Mode → (x y : ℕ) → ℕ
place v x y = v.base + x * 3 + y * (v.width * 3)

-- The picture.
abbrev pub pixel : Mode → Memory → (x y : ℕ) → Colour
pixel v m x y = record {
  red = m (place v x y + 2);
  green = m (place v x y + 1);
  blue = m (place v x y);
}

mul_lt : (a b s : ℕ) → a < b → a * s + s ≤ b * s
mul_lt a b s lt =
    let split : b ≡ a + 1 + (b - a - 1) = omega arith in
    let product : (a + 1 + (b - a - 1)) * s ≡ a * s + s + (b - a - 1) * s = omega arith in
    omega (arith, product, ap (λ b. b * s) split)

mul_le : (a b s : ℕ) → a ≤ b → a * s ≤ b * s
mul_le a b s le =
    let split : b ≡ a + (b - a) = omega arith in
    let product : (a + (b - a)) * s ≡ a * s + (b - a) * s = omega arith in
    omega (arith, product, ap (λ b. b * s) split)

place_row : (v : Mode) (x y t : ℕ) → place v x (y + t) ≡ place v x y + t * (v.width * 3)
place_row v x y t = omega arith

Colour-eq :
    (c : Colour) (r g b : ℕ)
    → r ≡ c.red
    → g ≡ c.green
    → b ≡ c.blue
    → record { red = r; green = g; blue = b } ≡ c
Colour-eq c r g b e e' e'' = rw (e, e', e'') refl

-- A pixel of the screen is inside the frame buffer.
place_bound :
    (v : Mode) (x y : ℕ)
    → x < v.width
    → y < v.height
    → place v x y + 3 ≤ v.base + v.height * (v.width * 3)
place_bound v x y lt lt' = omega (arith, mul_lt y v.height (v.width * 3) lt')

where_is-place :
    (v : Mode) (x y : ℕ) (m : Memory)
    → IsMode v m
    → place v x y < word
    → where_is x y m ≡ place v x y
where_is-place v x y m h lt = rw (h.resolution, h.pointer) (omega arith)

Holds-pixel :
    (v : Mode) (m : Memory) (x y : ℕ) (c : Colour) → Holds m (place v x y) c → pixel v m x y ≡ c
Holds-pixel v m x y c h =
    Colour-eq c (m (place v x y + 2)) (m (place v x y + 1)) (m (place v x y)) h.third h.second
      h.first

-- The rectangle is on the screen.
module _ (v : Mode) (colour : ℕ → ℕ → Colour) (x y w h : ℕ) (m : Memory) (mode : IsMode v m)
    (right : x + w ≤ v.width) (bottom : y + h ≤ v.height) where
  bottom_fits : y * (v.width * 3) + h * (v.width * 3) ≤ v.height * (v.width * 3)
  bottom_fits = omega (arith, mul_le (y + h) v.height (v.width * 3) bottom)

  position_fits : place v x y + h * (v.width * 3) < word
  position_fits = omega (arith, bottom_fits, mode.fits, right)

  narrow : w * 3 ≤ v.width * 3
  narrow = omega arith

  placed : IsPlaced (v.width * 3) (place v x y) m
  placed = record { resolution = ap (λ r. r * 3) mode.resolution; high = omega (arith, mode.above) }

  drawn : Memory
  drawn = (rows colour w (v.width * 3) narrow h 0 (place v x y, m)).1

  inside : (t u : ℕ) → t < h → u < w → pixel v drawn (x + u) (y + t) ≡ colour t u
  unfolding drawn
  inside t u lt lt' =
      let holds =
        rows-Holds colour w (v.width * 3) narrow h 0 (place v x y) m t u position_fits placed lt
          lt' in
      let there : place v x y + t * (v.width * 3) + u * 3 ≡ place v (x + u) (y + t) = omega arith in
      let index : 0 + t ≡ t = omega arith in
      Holds-pixel v drawn (x + u) (y + t) (colour t u) (
        subst (λ p. Holds drawn p (colour t u)) there
          (subst (λ i. Holds drawn (place v x y + t * (v.width * 3) + u * 3) (colour i u)) index
            holds))

  outside :
      (a : ℕ)
      → ((t : ℕ) → t < h → (a < place v x (y + t)) ⊎ (place v x (y + t) + w * 3 ≤ a))
      → drawn a ≡ m a
  unfolding drawn
  outside a out =
      rows_outside colour w (v.width * 3) narrow h 0 (place v x y) m a position_fits placed
        (λ t lt. ground (arith, out t lt, place_row v x y t))

  beside :
      (t px py a : ℕ)
      → py ≡ y + t
      → (px < x) ⊎ (x + w ≤ px) ⊎ (py < y) ⊎ (y + h ≤ py)
      → t < h
      → place v px py ≤ a
      → a < place v px py + 3
      → (a < place v x (y + t)) ⊎ (place v x (y + t) + w * 3 ≤ a)
  beside t px py a e out lt low high =
      let row : py * (v.width * 3) ≡ (y + t) * (v.width * 3) = ap (λ r. r * (v.width * 3)) e in
      ground (arith, row)

  -- A row of the screen is above the rectangle, below it, or one of its rows.
  missed :
      (px py a : ℕ)
      → px < v.width
      → (px < x) ⊎ (x + w ≤ px) ⊎ (py < y) ⊎ (y + h ≤ py)
      → place v px py ≤ a
      → a < place v px py + 3
      → drawn a ≡ m a
  missed px py a lt out low high = outside a (λ t lt'. elim (dec_lt py (y + t)) [
    | yes earlier ↦ inl (omega (arith, mul_lt py (y + t) (v.width * 3) earlier))
    | no not_earlier ↦ elim (dec_lt (y + t) py) [
      | yes later ↦ inr (omega (arith, mul_lt (y + t) py (v.width * 3) later))
      | no not_later ↦ let this : py ≡ y + t = omega arith in beside t px py a this out lt' low high
    ]
  ])

  drawn-outside :
      (px py : ℕ)
      → px < v.width
      → (px < x) ⊎ (x + w ≤ px) ⊎ (py < y) ⊎ (y + h ≤ py)
      → pixel v drawn px py ≡ pixel v m px py
  drawn-outside px py lt out =
      Colour-eq (pixel v m px py) _ _ _ (missed px py _ lt out (omega arith) (omega arith))
        (missed px py _ lt out (omega arith) (omega arith))
        (missed px py _ lt out (omega arith) (omega arith))

  low_same : (a : ℕ) → a < v.base → drawn a ≡ m a
  low_same a lt = outside a (λ t lt'. inl (omega arith))

  drawn-IsMode : IsMode v drawn
  drawn-IsMode = IsMode-transfer v m drawn (λ a lt. low_same a (omega (arith, mode.above))) mode

  draw_rows-drawn : draw_rows x y w h colour m ≡ drawn
  unfolding drawn rows
  draw_rows-drawn =
      ap (λ p. (for_range h 0 (λ i p. next_row w (draw_row w i colour p)) (p, m)).1)
        (where_is-place v x y m mode (omega (arith, position_fits)))

-- The columns or rows of a rectangle.
abbrev pub between : (first n k : ℕ) → Bool
between first n k = leb first k && ltb k (first + n)

-- The picture after the loops: the rectangle in its colours, and the rest as it was.
pub draw_rows-pixels :
    (v : Mode) (colour : ℕ → ℕ → Colour) (x y w h : ℕ) (m : Memory) (px py : ℕ)
    → IsMode v m
    → x + w ≤ v.width
    → y + h ≤ v.height
    → px < v.width
    → pixel v (draw_rows x y w h colour m) px py
      ≡ (if between x w px && between y h py then colour (py - y) (px - x) else pixel v m px py)
draw_rows-pixels v colour x y w h m px py mode right bottom lt =
    rw (draw_rows-drawn v colour x y w h m mode right bottom)
      (elim (Bool-cases (between x w px && between y h py)) [
        | inl on ↦
            let column : x + (px - x) ≡ px = ground arith in
            let row : y + (py - y) ≡ py = ground arith in
            rw on (
              ap₂ (pixel v (drawn v colour x y w h m mode right bottom)) (sym column) (sym row)
              ∙ inside v colour x y w h m mode right bottom (py - y) (px - x) (ground arith)
                  (ground arith))
        | inr off ↦
            rw off (drawn-outside v colour x y w h m mode right bottom px py lt (ground arith))
      ])

pub draw_rows-IsMode :
    (v : Mode) (colour : ℕ → ℕ → Colour) (x y w h : ℕ) (m : Memory)
    → IsMode v m
    → x + w ≤ v.width
    → y + h ≤ v.height
    → IsMode v (draw_rows x y w h colour m)
draw_rows-IsMode v colour x y w h m mode right bottom =
    subst (IsMode v) (sym (draw_rows-drawn v colour x y w h m mode right bottom))
      (drawn-IsMode v colour x y w h m mode right bottom)
