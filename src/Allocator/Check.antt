-- ===== src/Allocator/Check.antt =====
-- CanSafelyAllocate and malloc of Memory.c: when an allocation is made, and when the call never
-- returns.
use red_fox32_old.Base.{
  ℕ, zero, suc, ◌+◌, ◌%◌, ◌^◌, ◌≤◌, ◌<◌, ◌⊎◌, ◌≡◌, ◌≢◌, ◌∙◌, ap, refl, inl, inr, arith, Bool, true,
  false, Bool-cases, ==_false, add32, sub32, lt→ltb, ge→ltb, if◌then◌else◌,
}
use red_fox32_old.Allocator.{
  Allocator, Outcome, returned, halted, out_of_fuel, ◌>>=◌, num_entries, map_entry, entry_start,
  ends_before, touches, out_of_bounds, check_entries, can_safely_allocate, malloc, allocate,
  header_size, finish_malloc, out_of_memory, MemoryMapEntry,
}

-- A call that comes back to its caller.
abbrev pub Returns : {A : Type 0} → Outcome A → Type 0
Returns (returned x a) = Unit {0}
Returns (halted a) = ⊥
Returns out_of_fuel = ⊥

-- The entry stands in the way of `size` bytes at `position`, as the loop tests it.
abbrev pub blocks : MemoryMapEntry → (position size : ℕ) → Bool
blocks e position size = if ends_before e position then false else touches e position size

-- A position and a size whose bounds CanSafelyAllocate accepts.
abbrev pub InBounds : (position size : ℕ) → Type 0
InBounds position size =
    (out_of_bounds position ≡ false) × (out_of_bounds (add32 position size) ≡ false)

-- The three ways of a round of the loop.
module _ (fuel size i : ℕ) (a : Allocator) where
  pub check_entries-end : num_entries a ≤ i → check_entries (suc fuel) size i a ≡ returned true a
  unfolding check_entries
  check_entries-end h = rw (ge→ltb i (num_entries a) h, check_entries)

  pub check_entries-pass :
      i < num_entries a
      → blocks (map_entry a i) a.next_allocation_position size ≡ false
      → check_entries (suc fuel) size i a ≡ check_entries fuel size (i + 1) a
  unfolding check_entries
  check_entries-pass h clear =
      elim (Bool-cases (ends_before (map_entry a i) a.next_allocation_position)) [
        | inl before ↦ rw (lt→ltb i (num_entries a) h, before, check_entries)
        | inr after ↦ rw (lt→ltb i (num_entries a) h, after, rw after at clear, check_entries)
      ]

  pub check_entries-block :
      i < num_entries a
      → blocks (map_entry a i) a.next_allocation_position size ≡ true
      → check_entries (suc fuel) size i a ≡ (
          malloc fuel (sub32 (entry_start (map_entry a i)) a.next_allocation_position) a >>= λ _ b.
          check_entries fuel size 0 b)
  unfolding check_entries
  check_entries-block h stuck =
      elim (Bool-cases (ends_before (map_entry a i) a.next_allocation_position)) [
        | inl before ↦ absurd (cc (rw before at stuck))
        | inr after ↦ rw (lt→ltb i (num_entries a) h, after, rw after at stuck, check_entries)
      ]

-- The loop passes the entries that do not block, and leaves the state as it is.
check_entries-clear :
    (n fuel size i : ℕ) (a : Allocator)
    → i + n ≡ num_entries a
    → n < fuel
    → ((j : ℕ)
        → i ≤ j
        → j < num_entries a
        → blocks (map_entry a j) a.next_allocation_position size ≡ false)
    → check_entries fuel size i a ≡ returned true a
check_entries-clear n zero size i a e h clear = absurd (omega arith)
check_entries-clear zero (suc fuel) size i a e h clear =
    check_entries-end fuel size i a (omega arith)
check_entries-clear (suc n) (suc fuel) size i a e h clear =
    check_entries-pass fuel size i a (omega arith) (clear i (omega arith) (omega arith))
    ∙ check_entries-clear n fuel size (i + 1) a (omega arith) (omega arith)
        (λ j p. clear j (omega arith))

-- The calls above the loop.
pub malloc-zero : (fuel : ℕ) (a : Allocator) → malloc (suc fuel) 0 a ≡ returned 0 a
unfolding malloc
malloc-zero fuel a = refl

pub malloc-checks :
    (fuel size : ℕ) (a : Allocator)
    → size ≢ 0
    → malloc (suc fuel) size a ≡ (can_safely_allocate fuel size a >>= finish_malloc size)
unfolding malloc
malloc-checks fuel size a n = rw (==_false n, malloc)

pub can_safely_allocate-checks :
    (fuel size : ℕ) (a : Allocator)
    → size ≢ 0
    → InBounds a.next_allocation_position size
    → can_safely_allocate (suc fuel) size a ≡ check_entries fuel size 0 a
unfolding can_safely_allocate
can_safely_allocate-checks fuel size a n b = rw (==_false n, b.0, b.1, can_safely_allocate)

pub can_safely_allocate-refuses :
    (fuel size : ℕ) (a : Allocator)
    → size ≢ 0
    → ¬ InBounds a.next_allocation_position size
    → can_safely_allocate (suc fuel) size a ≡ returned false a
unfolding can_safely_allocate
can_safely_allocate-refuses fuel size a n b =
    elim (Bool-cases (out_of_bounds a.next_allocation_position)) [
      | inl low ↦ rw (==_false n, low, can_safely_allocate)
      | inr ok ↦ elim (Bool-cases (out_of_bounds (add32 a.next_allocation_position size))) [
        | inl high ↦ rw (==_false n, ok, high, can_safely_allocate)
        | inr fits ↦ absurd (b (ok, fits))
      ]
    ]

-- Within the bounds and with no entry in the way the check says yes.
pub malloc-places :
    (fuel size : ℕ) (a : Allocator)
    → size ≢ 0
    → InBounds a.next_allocation_position size
    → ((j : ℕ) → j < num_entries a → blocks (map_entry a j) a.next_allocation_position size ≡ false)
    → num_entries a + 2 < fuel
    → malloc fuel size a ≡ returned (a.next_allocation_position + header_size) (allocate size a)
malloc-places zero size a n b clear h = absurd (omega arith)
malloc-places (suc zero) size a n b clear h = absurd (omega arith)
malloc-places (suc (suc fuel)) size a n b clear h =
    malloc-checks (suc fuel) size a n
    ∙ ap (λ r. r >>= finish_malloc size) (can_safely_allocate-checks fuel size a n b ∙ checked)
  where
    checked : check_entries fuel size 0 a ≡ returned true a
    checked =
        check_entries-clear (num_entries a) fuel size 0 a (omega arith) (omega arith)
          (λ j p. clear j)

-- Outside the bounds it says no, for any map.
pub malloc-halts :
    (fuel size : ℕ) (a : Allocator)
    → size ≢ 0
    → ¬ InBounds a.next_allocation_position size
    → malloc (suc (suc fuel)) size a ≡ halted (out_of_memory a)
malloc-halts fuel size a n b =
    malloc-checks (suc fuel) size a n
    ∙ ap (λ r. r >>= finish_malloc size) (can_safely_allocate-refuses fuel size a n b)

-- An address of the memory that is managed.
abbrev pub IsManaged : ℕ → Type 0
IsManaged p = (0x00105000 ≤ p) × (p ≤ 0xFFFF0000)

-- For a size that is not 0, with no entry of the map in the way of the position or of the end of
-- the block, a 32-bit sum: where both lie from 0x105000 to 0xFFFF0000, `malloc` returns the
-- address 17 bytes behind the position, with the block placed at the position; otherwise it halts
-- the machine with the message. Enough fuel is more than the number of entries and the two calls.
pub malloc-decides :
    (fuel size : ℕ) (a : Allocator)
    → size ≢ 0
    → ((j : ℕ) → j < num_entries a → blocks (map_entry a j) a.next_allocation_position size ≡ false)
    → num_entries a + 2 < fuel
    → let p = a.next_allocation_position in
      (IsManaged p
        × IsManaged ((p + size) % 2 ^ 32)
        × (malloc fuel size a ≡ returned (p + 17) (allocate size a)))
      ⊎ ((¬ (IsManaged p × IsManaged ((p + size) % 2 ^ 32)))
          × (malloc fuel size a ≡ halted (out_of_memory a)))
malloc-decides zero size a n clear enough = absurd (omega arith)
malloc-decides (suc zero) size a n clear enough = absurd (omega arith)
malloc-decides (suc (suc fuel)) size a n clear enough =
    elim (Bool-cases (out_of_bounds a.next_allocation_position)) [
      | inl low ↦
          inr ((λ managed. ground arith), malloc-halts fuel size a n (λ within. cc within.0))
      | inr ok ↦ elim (Bool-cases (out_of_bounds (add32 a.next_allocation_position size))) [
        | inl high ↦
            inr ((λ managed. ground arith), malloc-halts fuel size a n (λ within. cc within.1))
        | inr fits ↦ inl (
          ground arith,
          ground arith,
          malloc-places (suc (suc fuel)) size a n (ok, fits) clear enough,
        )
      ]
    ]
