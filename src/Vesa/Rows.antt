-- ===== src/Vesa/Rows.antt =====
-- What the two loops of the rectangles write, byte by byte.
use red_fox32_old.Base.{
  ℕ, zero, suc, ◌+◌, ◌*◌, ◌≤◌, ◌<◌, ◌≡◌, ◌⊎◌, ◌∙◌, ap, sym, subst, refl, inl, arith, for_range,
  add32, word,
}
use red_fox32_old.Machine.Memory.{Memory}
use red_fox32_old.Vesa.{Colour, plot, draw_row, next_row, x_resolution, vesa_mode_info}

-- The bytes of a pixel.
pub record Holds (m : Memory) (position : ℕ) (c : Colour) : Type 0 where
  pub first : m position ≡ c.blue
  pub second : m (position + 1) ≡ c.green
  pub third : m (position + 2) ≡ c.red

Holds-same :
    (c : Colour) (position : ℕ) (m m' : Memory)
    → ((x : ℕ) → x < position + 3 → m' x ≡ m x)
    → Holds m position c
    → Holds m' position c
Holds-same c position m m' same h = record {
  first = same position (omega arith) ∙ h.first;
  second = same (position + 1) (omega arith) ∙ h.second;
  third = same (position + 2) (omega arith) ∙ h.third;
}

plot-Holds :
    (c : Colour) (position : ℕ) (m : Memory)
    → position + 3 < word
    → Holds (plot c (position, m)).1 position c
plot-Holds c position m fits = record {
  first = ground arith;
  second = ground arith;
  third = ground arith;
}

plot_outside :
    (c : Colour) (position x : ℕ) (m : Memory)
    → position + 3 < word
    → (x < position) ⊎ (position + 3 ≤ x)
    → (plot c (position, m)).1 x ≡ m x
plot_outside c position x m fits out = ground arith

module _ (colour : ℕ → Colour) where
  row : (n j : ℕ) → ℕ × Memory → ℕ × Memory
  row n j p = for_range n j (λ j. plot (colour j)) p

  row_position :
      (n j position : ℕ) (m : Memory)
      → position + n * 3 < word
      → (row n j (position, m)).0 ≡ position + n * 3
  unfolding row for_range
  row_position zero j position m fits = omega arith
  row_position (suc n) j position m fits =
      let next : add32 position 3 ≡ position + 3 = omega arith in
      row_position n (j + 1) (add32 position 3) (plot (colour j) (position, m)).1
        (omega (arith, next))
      ∙ omega (arith, next)

  row_outside :
      (n j position : ℕ) (m : Memory) (x : ℕ)
      → position + n * 3 < word
      → (x < position) ⊎ (position + n * 3 ≤ x)
      → (row n j (position, m)).1 x ≡ m x
  unfolding row for_range
  row_outside zero j position m x fits out = refl
  row_outside (suc n) j position m x fits out =
      let next : add32 position 3 ≡ position + 3 = omega arith in
      row_outside n (j + 1) (add32 position 3) (plot (colour j) (position, m)).1 x
        (omega (arith, next)) (ground (arith, next))
      ∙ plot_outside (colour j) position x m (omega arith) (ground arith)

  row-Holds :
      (n j position : ℕ) (m : Memory) (t : ℕ)
      → position + n * 3 < word
      → t < n
      → Holds (row n j (position, m)).1 (position + t * 3) (colour (j + t))
  unfolding row for_range
  row-Holds zero j position m t fits lt = ground arith
  row-Holds (suc n) j position m zero fits lt =
      let next : add32 position 3 ≡ position + 3 = omega arith in
      let here = plot-Holds (colour j) position m (omega arith) in
      let later : (x : ℕ)
          → x < position + 3
          → (row (suc n) j (position, m)).1 x ≡ (plot (colour j) (position, m)).1 x =
        λ x p.
          row_outside n (j + 1) (add32 position 3) (plot (colour j) (position, m)).1 x
            (omega (arith, next)) (inl (omega (arith, next, p))) in
      let home : position ≡ position + 0 * 3 = omega arith in
      let column : j ≡ j + 0 = omega arith in
      subst (λ p. Holds (row (suc n) j (position, m)).1 p (colour (j + 0))) home
        (subst (λ k. Holds (row (suc n) j (position, m)).1 position (colour k)) column
          (Holds-same (colour j) position (plot (colour j) (position, m)).1
            (row (suc n) j (position, m)).1 later here))
  row-Holds (suc n) j position m (suc t) fits lt =
      let next : add32 position 3 ≡ position + 3 = omega arith in
      let rest =
        row-Holds n (j + 1) (add32 position 3) (plot (colour j) (position, m)).1 t
          (omega (arith, next)) (omega arith) in
      let there : add32 position 3 + t * 3 ≡ position + suc t * 3 = omega (arith, next) in
      let column : j + 1 + t ≡ j + suc t = omega arith in
      subst (λ p. Holds (row (suc n) j (position, m)).1 p (colour (j + suc t))) there
        (subst (λ k. Holds (row (suc n) j (position, m)).1 (add32 position 3 + t * 3) (colour k))
          column rest)

-- A row of the frame buffer starts there or further on, and the description of the mode lies below it.
pub record IsPlaced (stride position : ℕ) (m : Memory) : Type 0 where
  pub resolution : x_resolution m * 3 ≡ stride
  pub high : 0x8700 ≤ position

-- The rows, `stride` bytes apart.
module _ (colour : ℕ → ℕ → Colour) (w stride : ℕ) (narrow : w * 3 ≤ stride) where
  unfoldable pub rows : (n i : ℕ) → ℕ × Memory → ℕ × Memory
  rows n i p = for_range n i (λ i p. next_row w (draw_row w i colour p)) p

  one : (i : ℕ) → ℕ × Memory → ℕ × Memory
  unfolding row
  one i p = next_row w (row (colour i) w 0 p)

  one_outside :
      (i position : ℕ) (m : Memory) (x : ℕ)
      → position + w * 3 < word
      → (x < position) ⊎ (position + w * 3 ≤ x)
      → (one i (position, m)).1 x ≡ m x
  unfolding one
  one_outside i position m x fits out = row_outside (colour i) w 0 position m x fits out

  one-IsPlaced :
      (i position : ℕ) (m : Memory)
      → position + stride < word
      → IsPlaced stride position m
      → ((one i (position, m)).0 ≡ position + stride)
        × IsPlaced stride (position + stride) (one i (position, m)).1
  unfolding one
  one-IsPlaced i position m fits h =
      let p = row (colour i) w 0 (position, m) in
      let moved : p.0 ≡ position + w * 3 = row_position (colour i) w 0 position m (omega arith) in
      let low : (x : ℕ) → x < position → p.1 x ≡ m x =
        λ x lt. row_outside (colour i) w 0 position m x (omega arith) (inl lt) in
      let same : x_resolution p.1 * 3 ≡ stride = omega (
        arith,
        low (vesa_mode_info + 18) (omega arith),
        low (vesa_mode_info + 19) (omega arith),
        h.resolution,
      ) in
      (omega (arith, moved, same), record { resolution = same; high = omega arith })

  rows_step :
      (n i position : ℕ) (m : Memory)
      → position + stride < word
      → IsPlaced stride position m
      → rows (suc n) i (position, m) ≡ rows n (i + 1) (position + stride, (one i (position, m)).1)
  unfolding rows one row for_range
  rows_step n i position m fits h =
      ap (λ p. rows n (i + 1) (p, (one i (position, m)).1)) (one-IsPlaced i position m fits h).0

  rows_done : (i position : ℕ) (m : Memory) (x : ℕ) → (rows 0 i (position, m)).1 x ≡ m x
  unfolding rows for_range
  rows_done i position m x = refl

  one-Holds :
      (i position : ℕ) (m : Memory) (u : ℕ)
      → position + w * 3 < word
      → u < w
      → Holds (one i (position, m)).1 (position + u * 3) (colour i u)
  unfolding one
  one-Holds i position m u fits lt =
      let zero_plus : 0 + u ≡ u = omega arith in
      subst (λ k. Holds (row (colour i) w 0 (position, m)).1 (position + u * 3) (colour i k))
        zero_plus (row-Holds (colour i) w 0 position m u fits lt)

  pub rows_outside :
      (n i position : ℕ) (m : Memory) (x : ℕ)
      → position + n * stride < word
      → IsPlaced stride position m
      → ((t : ℕ) → t < n → (x < position + t * stride) ⊎ (position + t * stride + w * 3 ≤ x))
      → (rows n i (position, m)).1 x ≡ m x
  rows_outside zero i position m x fits h out = rows_done i position m x
  rows_outside (suc n) i position m x fits h out =
      let room : position + stride < word = omega arith in
      ap (λ q. q.1 x) (rows_step n i position m room h)
      ∙ rows_outside n (i + 1) (position + stride) (one i (position, m)).1 x (omega arith)
          (one-IsPlaced i position m room h).1 (λ t lt. ground (arith, out (suc t) (omega arith)))
      ∙ one_outside i position m x (omega arith) (ground (arith, out 0 (omega arith)))

  -- Every pixel of the rectangle has its colour.
  pub rows-Holds :
      (n i position : ℕ) (m : Memory) (t u : ℕ)
      → position + n * stride < word
      → IsPlaced stride position m
      → t < n
      → u < w
      → Holds (rows n i (position, m)).1 (position + t * stride + u * 3) (colour (i + t) u)
  rows-Holds zero i position m t u fits h lt lt' = ground arith
  rows-Holds (suc n) i position m zero u fits h lt lt' =
      let room : position + stride < word = omega arith in
      let m1 = (one i (position, m)).1 in
      let home : position + u * 3 ≡ position + 0 * stride + u * 3 = omega arith in
      let index : i ≡ i + 0 = omega arith in
      let later : (x : ℕ) → x < position + u * 3 + 3 → (rows (suc n) i (position, m)).1 x ≡ m1 x =
        λ x p.
          ap (λ q. q.1 x) (rows_step n i position m room h)
          ∙ rows_outside n (i + 1) (position + stride) m1 x (omega arith)
              (one-IsPlaced i position m room h).1 (λ t q. inl (omega (arith, p))) in
      subst (λ p. Holds (rows (suc n) i (position, m)).1 p (colour (i + 0) u)) home
        (subst (λ k. Holds (rows (suc n) i (position, m)).1 (position + u * 3) (colour k u)) index
          (Holds-same (colour i u) (position + u * 3) m1 (rows (suc n) i (position, m)).1 later
            (one-Holds i position m u (omega arith) lt')))
  rows-Holds (suc n) i position m (suc t) u fits h lt lt' =
      let room : position + stride < word = omega arith in
      let m1 = (one i (position, m)).1 in
      let rest =
        rows-Holds n (i + 1) (position + stride) m1 t u (omega arith)
          (one-IsPlaced i position m room h).1 (omega arith) lt' in
      let there : position + stride + t * stride + u * 3 ≡ position + suc t * stride + u * 3 =
        omega arith in
      let index : i + 1 + t ≡ i + suc t = omega arith in
      subst (λ p. Holds (rows (suc n) i (position, m)).1 p (colour (i + suc t) u)) there
        (subst
          (λ k.
            Holds (rows (suc n) i (position, m)).1 (position + stride + t * stride + u * 3)
              (colour k u))
          index
          (subst (λ q. Holds q.1 (position + stride + t * stride + u * 3) (colour (i + 1 + t) u))
            (sym (rows_step n i position m room h)) rest))
