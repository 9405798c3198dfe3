-- ===== src/Allocator/Malloc.antt =====
-- malloc of Memory.c, whole: what a call that returns has done.
use red_fox32_old.Base.{
  ℕ, zero, suc, ◌+◌, ◌≤◌, ◌<◌, ◌≡◌, ◌≢◌, ◌∙◌, ap, sym, subst, refl, inl, inr, ◌⊎◌, arith, ltb, true,
  false, word, List, [], ◌∷◌, ◌++◌, Bool-cases, ltb→lt, ℕ_discrete,
}
use red_fox32_old.Allocator.{
  memory_start, memory_end, Allocator, memory_start, memory_end, header_size, allocate, Outcome,
  returned, out_of_fuel, ◌>>=◌, finish_malloc, malloc, check_entries, num_entries, map_entry,
}
use red_fox32_old.Allocator.Check.{
  malloc-places, Returns, InBounds, blocks, malloc-checks, malloc-places, malloc-halts,
  can_safely_allocate-checks, check_entries-pass, check_entries-end,
}
use red_fox32_old.Allocator.Stuck.{malloc-stuck, malloc-spent, malloc_one-spent, InBounds-cases}
use red_fox32_old.Allocator.Chain.{Block, fresh_block, IsHeap}
use red_fox32_old.Allocator.Place.{allocate-IsHeap}

-- No entry of the map is in the way of `size` bytes at the next position.
abbrev pub AllClear : Allocator → ℕ → Type 0
AllClear a size =
    (j : ℕ) → j < num_entries a → blocks (map_entry a j) a.next_allocation_position size ≡ false

Returns-eq : {A : Type 0} {m : Outcome A} {x : A} {a : Allocator} → m ≡ returned x a → Returns m
Returns-eq e = subst Returns (sym e) tt

-- Either the first `n` entries are clear, or one of them is in the way.
clear_or_blocked :
    (a : Allocator) (size n : ℕ)
    → ((j : ℕ) → j < n → blocks (map_entry a j) a.next_allocation_position size ≡ false)
      ⊎ ((j : ℕ) × (j < n) × (blocks (map_entry a j) a.next_allocation_position size ≡ true))
clear_or_blocked a size zero = inl λ j h. absurd (omega arith)
clear_or_blocked a size (suc n) = elim (clear_or_blocked a size n) [
  | inr (j, h, b) ↦ inr (j, omega arith, b)
  | inl clear ↦ elim (Bool-cases (blocks (map_entry a n) a.next_allocation_position size)) [
    | inl b ↦ inr (n, omega arith, b)
    | inr c ↦ inl λ j h. elim (ℕ_discrete j n) [
      | yes e ↦
          subst (λ k. blocks (map_entry a k) a.next_allocation_position size ≡ false) (sym e) c
      | no ne ↦ clear j (omega arith)
    ]
  ]
]

-- Over a clear map the loop says yes, or has not ended within the fuel.
check_entries-cases :
    (fuel size i : ℕ) (a : Allocator)
    → AllClear a size
    → (check_entries fuel size i a ≡ returned true a) ⊎ (check_entries fuel size i a ≡ out_of_fuel)
check_entries-cases zero size i a clear = inr check_entries-zero
  where
    check_entries-zero : check_entries 0 size i a ≡ out_of_fuel
    check_entries-zero = unfold check_entries in refl
check_entries-cases (suc fuel) size i a clear = elim (Bool-cases (ltb i (num_entries a))) [
  | inl more ↦
      rw (check_entries-pass fuel size i a (ltb→lt _ _ more) (clear i (ltb→lt _ _ more)))
        (check_entries-cases fuel size (i + 1) a clear)
  | inr done ↦ inl (check_entries-end fuel size i a (ground arith))
]

-- A call for a size other than 0 that returns has found the block in bounds and the map clear, and
-- has placed the block at the next position.
pub malloc-returned :
    (fuel size : ℕ) (a : Allocator) (q : ℕ) (b : Allocator)
    → size ≢ 0
    → malloc fuel size a ≡ returned q b
    → InBounds a.next_allocation_position size
      × AllClear a size
      × (q ≡ a.next_allocation_position + header_size)
      × (b ≡ allocate size a)
malloc-returned zero size a q b n e = absurd (malloc-spent size a (Returns-eq e))
malloc-returned (suc zero) size a q b n e = absurd (malloc_one-spent size a n (Returns-eq e))
malloc-returned (suc (suc fuel)) size a q b n e =
    elim (InBounds-cases a.next_allocation_position size) [
      | inr out ↦ cc (malloc-halts fuel size a n out)
      | inl within ↦ elim (clear_or_blocked a size (num_entries a)) [
        | inr (j, h, stuck) ↦
            absurd (malloc-stuck (suc (suc fuel)) size j a n h stuck (Returns-eq e))
        | inl clear ↦ elim (check_entries-cases fuel size 0 a clear) [
          | inr spent ↦ cc (loop within, ap (λ r. r >>= finish_malloc size) spent)
          | inl done ↦ (
            within,
            clear,
            cc (loop within, ap (λ r. r >>= finish_malloc size) done),
            cc (loop within, ap (λ r. r >>= finish_malloc size) done),
          )
        ]
      ]
    ]
  where
    loop :
        InBounds a.next_allocation_position size
        → malloc (suc (suc fuel)) size a ≡ (check_entries fuel size 0 a >>= finish_malloc size)
    loop within =
        malloc-checks (suc fuel) size a n
        ∙ ap (λ r. r >>= finish_malloc size) (can_safely_allocate-checks fuel size a n within)

-- A call of `malloc` that returns, for a size that is not 0 and with the end of the block below 2^32, keeps
-- a well formed heap well formed and adds one fresh block of that size behind the others, whose data it
-- returns.
pub malloc-IsHeap :
    (fuel size : ℕ) (a : Allocator) (bs : List Block) (q : ℕ) (b : Allocator)
    → IsHeap a bs
    → size ≢ 0
    → a.next_allocation_position + size < word
    → malloc fuel size a ≡ returned q b
    → (q ≡ a.next_allocation_position + header_size) × IsHeap b (bs ++ fresh_block size ∷ [])
malloc-IsHeap fuel size a bs q b h n small e =
    let r = malloc-returned fuel size a q b n e in
    (
      r.2,
      subst (λ c. IsHeap c (bs ++ fresh_block size ∷ [])) (sym r.3)
          (allocate-IsHeap a bs size h (room r.0)),
    )
  where
    room :
        InBounds a.next_allocation_position size
        → a.next_allocation_position + size + header_size + 1 < word
    room w = ground arith

-- From a position up to 0xFFFF0000, a 32-bit size so large that the end of the block wraps round 2^32 to an
-- address at or above the start of the memory is accepted where no entry of the map is in the way: with more
-- fuel than the entries and the two calls `malloc` returns, and leaves the next position at or below the
-- returned pointer.
pub malloc_wraps :
    (fuel size : ℕ) (a : Allocator)
    → size < word
    → a.next_allocation_position ≤ memory_end
    → word + memory_start ≤ a.next_allocation_position + size
    → AllClear a size
    → num_entries a + 2 < fuel
    → (malloc fuel size a ≡ returned (a.next_allocation_position + header_size) (allocate size a))
      × ((allocate size a).next_allocation_position ≤ a.next_allocation_position + header_size)
unfolding allocate
malloc_wraps fuel size a w top wraps clear enough =
    (malloc-places fuel size a (omega arith) (ground arith, ground arith) clear enough, omega arith)
