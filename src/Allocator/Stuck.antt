-- ===== src/Allocator/Stuck.antt =====
-- malloc of Memory.c where an entry of the memory map is in the way.
use red_fox32_old.Base.{
  ℕ, zero, suc, ◌+◌, ◌≤◌, ◌<◌, ◌≡◌, ◌≢◌, inl, inr, ◌⊎◌, arith, true, false, Bool-cases, word, add32,
  sub32, ℕ_discrete,
}
use red_fox32_old.Allocator.{
  Allocator, Outcome, returned, halted, out_of_fuel, ◌>>=◌, num_entries, map_entry, entry_start,
  out_of_bounds, check_entries, can_safely_allocate, malloc, finish_malloc, MemoryMapEntry,
}
use red_fox32_old.Allocator.Check.{
  Returns, blocks, InBounds, check_entries-pass, check_entries-block, malloc-zero, malloc-checks,
  can_safely_allocate-checks, can_safely_allocate-refuses,
}

-- The size that the loop asks for, up to the start of the entry, is in the way of it again.
blocks_again :
    (e : MemoryMapEntry) (position size : ℕ)
    → position < word
    → blocks e position size ≡ true
    → blocks e position (sub32 (entry_start e) position) ≡ true
blocks_again e position size h stuck = ground arith

pub not-Returns-bind :
    {A B : Type 0} (m : Outcome A) (k : A → Allocator → Outcome B)
    → ¬ Returns m
    → ¬ Returns (m >>= k)
not-Returns-bind (returned x a) k h r = h tt
not-Returns-bind (halted a) k h r = r
not-Returns-bind out_of_fuel k h r = r

-- Without fuel nothing returns.
pub check_entries-spent : (size i : ℕ) (a : Allocator) → ¬ Returns (check_entries 0 size i a)
unfolding check_entries
check_entries-spent size i a r = r

pub malloc-spent : (size : ℕ) (a : Allocator) → ¬ Returns (malloc 0 size a)
unfolding malloc
malloc-spent size a r = r

pub can_safely_allocate-spent :
    (size : ℕ) (a : Allocator) → ¬ Returns (can_safely_allocate 0 size a)
unfolding can_safely_allocate
can_safely_allocate-spent size a r = r

pub malloc_one-spent : (size : ℕ) (a : Allocator) → size ≢ 0 → ¬ Returns (malloc 1 size a)
malloc_one-spent size a n = rw (malloc-checks 0 size a n) (
    not-Returns-bind (can_safely_allocate 0 size a) (finish_malloc size)
      (can_safely_allocate-spent size a))

-- The nested call with size 0 comes back at once, and the loop starts again where it was.
malloc_zero-stuck :
    (fuel size i : ℕ) (a : Allocator)
    → ¬ Returns (check_entries fuel size 0 a)
    → ¬ Returns (malloc fuel 0 a >>= λ _ b. check_entries fuel size 0 b)
malloc_zero-stuck zero size i a h = not-Returns-bind (malloc 0 0 a) _ (malloc-spent 0 a)
malloc_zero-stuck (suc fuel) size i a h = rw (malloc-zero fuel a) h

-- The bounds accept the block or not.
pub InBounds-cases : (p s : ℕ) → InBounds p s ⊎ (¬ InBounds p s)
InBounds-cases p s = elim (Bool-cases (out_of_bounds p)) [
  | inl x ↦ inr λ b. cc
  | inr x ↦ elim (Bool-cases (out_of_bounds (add32 p s))) [
    | inl y ↦ inr λ b. cc
    | inr y ↦ inl (x, y)
  ]
]

malloc-stuck_of_loop :
    (fuel size : ℕ) (a : Allocator)
    → size ≢ 0
    → (a.next_allocation_position < word → ¬ Returns (check_entries fuel size 0 a))
    → ¬ Returns (malloc (suc (suc fuel)) size a)
malloc-stuck_of_loop fuel size a n loop = elim (InBounds-cases a.next_allocation_position size) [
  | inl b ↦
      rw (malloc-checks (suc fuel) size a n, can_safely_allocate-checks fuel size a n b)
        (not-Returns-bind (check_entries fuel size 0 a) (finish_malloc size) (loop (below_word b)))
  | inr b ↦
      rw (malloc-checks (suc fuel) size a n, can_safely_allocate-refuses fuel size a n b) λ r. r
]
  where
    below_word : InBounds a.next_allocation_position size → a.next_allocation_position < word
    below_word b = ground arith

mutual
  -- Once an entry from `i` on is in the way, the loop does not come back.
  check_entries-stuck :
      (fuel size i j : ℕ) (a : Allocator)
      → a.next_allocation_position < word
      → i ≤ j
      → j < num_entries a
      → blocks (map_entry a j) a.next_allocation_position size ≡ true
      → ¬ Returns (check_entries fuel size i a)
  check_entries-stuck zero size i j a w le lt stuck = check_entries-spent size i a
  check_entries-stuck (suc fuel) size i j a w le lt stuck =
      elim (Bool-cases (blocks (map_entry a i) a.next_allocation_position size)) [
        | inr clear ↦
            rw (check_entries-pass fuel size i a (omega arith) clear)
              (check_entries-stuck fuel size (i + 1) j a w (later clear) lt stuck)
        | inl here ↦
            rw (check_entries-block fuel size i a (omega arith) here)
              (elim (ℕ_discrete (sub32 (entry_start (map_entry a i)) a.next_allocation_position)
                0) [
                  | yes z ↦ rw z (
                      malloc_zero-stuck fuel size i a
                        (check_entries-stuck fuel size 0 j a w (omega arith) lt stuck))
                  | no nz ↦
                      not-Returns-bind
                        (malloc fuel
                          (sub32 (entry_start (map_entry a i)) a.next_allocation_position) a)
                        _
                        (malloc-stuck_rec fuel
                          (sub32 (entry_start (map_entry a i)) a.next_allocation_position) i a nz
                          (omega arith)
                          (blocks_again (map_entry a i) a.next_allocation_position size w here))
                ])
      ]
    where
      later : blocks (map_entry a i) a.next_allocation_position size ≡ false → i + 1 ≤ j
      later clear = elim (ℕ_discrete i j) [ yes e ↦ cc | no ne ↦ omega arith ]

  malloc-stuck_rec :
      (fuel size j : ℕ) (a : Allocator)
      → size ≢ 0
      → j < num_entries a
      → blocks (map_entry a j) a.next_allocation_position size ≡ true
      → ¬ Returns (malloc fuel size a)
  malloc-stuck_rec zero size j a n lt stuck = malloc-spent size a
  malloc-stuck_rec (suc zero) size j a n lt stuck = malloc_one-spent size a n
  malloc-stuck_rec (suc (suc fuel)) size j a n lt stuck =
      malloc-stuck_of_loop fuel size a n
        λ w. check_entries-stuck fuel size 0 j a w (omega arith) lt stuck

-- If the size is not 0 and an entry of the map, of whatever type, that does not end before the position
-- holds the position or the end of the requested block, as a 32-bit sum, `malloc` does not come back: with
-- any fuel the call is still running or the machine has halted.
pub malloc-stuck :
    (fuel size j : ℕ) (a : Allocator)
    → size ≢ 0
    → j < num_entries a
    → blocks (map_entry a j) a.next_allocation_position size ≡ true
    → ¬ Returns (malloc fuel size a)
malloc-stuck fuel size j a n lt stuck = malloc-stuck_rec fuel size j a n lt stuck
