-- ===== src/Files/Copy.antt =====
-- The loops of the second stage and of FileSystem.c that copy an object byte by byte.
use red_fox32_old.Base.{
  ℕ, zero, suc, ◌+◌, ◌-◌, ◌≤◌, ◌<◌, ◌≡◌, ◌∙◌, arith, leb, ltb, ◌&&◌, if◌then◌else◌, for_range,
  add32, word,
}
use red_fox32_old.Machine.Memory.{Memory, poke}

-- `for (i = 0; i < n; i++) target[i] = value(i)`, the value read when it is written.
unfoldable pub copy : (n target : ℕ) → (Memory → ℕ → ℕ) → Memory → Memory
copy n target value m = for_range n 0 (λ i m'. poke m' (add32 target i) (value m' i)) m

-- The copy does not write what it reads.
abbrev pub IsStable : (n target : ℕ) → (Memory → ℕ → ℕ) → Type 0
IsStable n target value =
    (m : Memory) (i j v : ℕ) → i < n → j < n → value (poke m (target + i) v) j ≡ value m j

module _ (n target : ℕ) (value : Memory → ℕ → ℕ) (fits : target + n ≤ word)
    (stable : IsStable n target value) where
  copy_from :
      (k i : ℕ) (m : Memory) (x : ℕ)
      → i + k ≡ n
      → for_range k i (λ i m'. poke m' (add32 target i) (value m' i)) m x
        ≡ (if leb (target + i) x && ltb x (target + n) then value m (x - target) else m x)
  unfolding for_range
  copy_from zero i m x e = ground arith
  copy_from (suc k) i m x e =
      let same : add32 target i ≡ target + i = ground arith in
      copy_from k (i + 1) (poke m (add32 target i) (value m i)) x (omega arith)
      ∙ rw same (ground (arith, stable m i (x - target) (value m i)))

  -- The range holds the values, and the rest is as before.
  pub copy-at :
      (m : Memory) (x : ℕ)
      → copy n target value m x
        ≡ (if leb target x && ltb x (target + n) then value m (x - target) else m x)
  unfolding copy
  copy-at m x = copy_from n 0 m x (omega arith) ∙ ground arith
