-- ===== src/Base/Loops.antt =====
-- Counted loops, and the loops that fill a range of an array.
use Prim.Native.Nat.{ℕ, zero, suc, ◌+◌, ◌≤◌}
use mathlib.Core.Path.{◌≡◌, refl, ◌∙◌}
use mathlib.Core.Bool.{◌&&◌}
use mathlib.Core.List.{List}
use native.Mathlib.Omega.{arith}
use red_fox32_old.Base.Tests.{if◌then◌else◌, leb, ltb}
use red_fox32_old.Base.Lists.{length, get_or, set, length-set, get_or-set}

-- `for (k = i; k < i + n; k++) s = body(k, s)`
unfoldable pub for_range {ℓ} : {S : Type ℓ} → (n i : ℕ) → (ℕ → S → S) → S → S
for_range zero i body s = s
for_range (suc n) i body s = for_range n (i + 1) body (body i s)

module _ {ℓ} {A : Type ℓ} where
  -- `for (k = i; k < i + n; k++) xs[k] = value(k)`
  abbrev pub fill_range : (n i : ℕ) → (ℕ → A) → List A → List A
  fill_range n i value xs = for_range n i (λ k ys. set ys k (value k)) xs

  pub length-fill_range :
      (n i : ℕ) (value : ℕ → A) (xs : List A) → length (fill_range n i value xs) ≡ length xs
  unfolding for_range
  length-fill_range zero i value xs = refl
  length-fill_range (suc n) i value xs =
      length-fill_range n (i + 1) value (set xs i (value i)) ∙ length-set xs i (value i)

  -- The loop writes the range and nothing else.
  pub get_or-fill_range :
      (n i : ℕ) (value : ℕ → A) (xs : List A) (j : ℕ) (d : A)
      → i + n ≤ length xs
      → get_or (fill_range n i value xs) j d
        ≡ (if leb i j && ltb j (i + n) then value j else get_or xs j d)
  unfolding for_range
  get_or-fill_range zero i value xs j d h = ground arith
  get_or-fill_range (suc n) i value xs j d h =
      get_or-fill_range n (i + 1) value (set xs i (value i)) j d
        (omega (arith, length-set xs i (value i)))
      ∙ ground (arith, get_or-set xs i j (value i) d)
