-- ===== src/Machine/Memory.antt =====
-- Memory as the bytes at 32-bit addresses, with the 32-bit fields that a packed struct has in it.
use red_fox32_old.Base.{
  ℕ, ◌+◌, ◌*◌, ◌/◌, ◌%◌, ◌≤◌, ◌<◌, ◌^◌, ◌≡◌, ◌⊎◌, refl, arith, ◌==◌, if◌then◌else◌,
}

abbrev pub Memory : Type 0
Memory = ℕ → ℕ

abbrev pub poke : Memory → ℕ → ℕ → Memory
poke m a v b = if a == b then v else m b

-- A little-endian `unsigned int` at an address.
unfoldable pub load32 : Memory → ℕ → ℕ
load32 m a = m a + 256 * m (a + 1) + 65536 * m (a + 2) + 16777216 * m (a + 3)

unfoldable pub store32 : Memory → ℕ → ℕ → Memory
store32 m a v =
    poke (poke (poke (poke m a (v % 256)) (a + 1) (v / 256 % 256)) (a + 2) (v / 65536 % 256))
      (a + 3) (v / 16777216 % 256)

pub load32-eq :
    (m : Memory) (a : ℕ)
    → load32 m a ≡ m a + 256 * m (a + 1) + 65536 * m (a + 2) + 16777216 * m (a + 3)
unfolding load32
load32-eq m a = refl

pub load32-store32_self : (m : Memory) (a v : ℕ) → v < 2 ^ 32 → load32 (store32 m a v) a ≡ v
unfolding load32 store32
load32-store32_self m a v h = ground arith

pub store32_outside : (m : Memory) (a v b : ℕ) → (b < a) ⊎ (a + 4 ≤ b) → store32 m a v b ≡ m b
unfolding store32
store32_outside m a v b h = ground arith

pub load32-store32_ne :
    (m : Memory) (a v b : ℕ) → (b + 4 ≤ a) ⊎ (a + 4 ≤ b) → load32 (store32 m a v) b ≡ load32 m b
unfolding load32 store32
load32-store32_ne m a v b h = ground arith

pub load32-poke_ne :
    (m : Memory) (a v b : ℕ) → (b + 4 ≤ a) ⊎ (a < b) → load32 (poke m a v) b ≡ load32 m b
unfolding load32
load32-poke_ne m a v b h = ground arith
