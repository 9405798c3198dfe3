-- ===== src/Allocator/Free.antt =====
-- free of Memory.c.
use red_fox32_old.Base.{
  ℕ, ◌+◌, ◌≤◌, ◌≡◌, ◌≢◌, ◌∙◌, ap, refl, inr, arith, List, ◌∷◌, ◌++◌, true, false, ==_false, codes,
  add32,
}
use red_fox32_old.Machine.Memory.{
  Memory, poke, load32, store32, load32-store32_self, load32-store32_ne, load32-poke_ne,
  store32_outside,
}
use red_fox32_old.Console.{puts}
use red_fox32_old.Allocator.{
  Allocator, memory_start, header_size, next_offset, previous_offset, flags_offset, length_offset,
  heap, with_heap, free, release, header_of, allocation_header_magic, print,
}
use red_fox32_old.Allocator.Chain.{Block, IsHeader, IsHeap}
use red_fox32_old.Allocator.Update.{address, IsHeap-live_header, SameButHeader, IsHeap-update}

-- The memory after the two writes of a free.
pub released : Memory → ℕ → Memory
released m alloc = store32 (poke m (alloc + flags_offset) 0) alloc (allocation_header_magic + 1)

release-released :
    (alloc : ℕ) (m : Memory)
    → load32 m alloc ≡ allocation_header_magic
    → release alloc m ≡ released m alloc
unfolding released
release-released alloc m e =
    ap (λ v. store32 (poke m (alloc + flags_offset) 0) alloc (add32 v 1))
      (load32-poke_ne m (alloc + flags_offset) 0 alloc (omega arith) ∙ e)

free-released :
    (mem : ℕ) (a : Allocator)
    → load32 (heap a) (header_of mem) ≡ allocation_header_magic
    → free mem a ≡ with_heap a (released (heap a) (header_of mem))
unfolding free
free-released mem a e = rw e (ap (with_heap a) (release-released (header_of mem) (heap a) e))

free-invalid :
    (mem : ℕ) (a : Allocator)
    → load32 (heap a) (header_of mem) ≢ allocation_header_magic
    → free mem a ≡ print a (puts (codes "[MEMORY] Invalid free!\n") 0x0C a.console)
unfolding free
free-invalid mem a n = rw (==_false n)

-- A block that is freed.
abbrev pub freed : Block → Block
freed b = record b { live = false }

module _ (m : Memory) (alloc : ℕ) where
  pub released-SameButHeader : SameButHeader m (released m alloc) alloc
  unfolding released
  released-SameButHeader x out =
      store32_outside (poke m (alloc + flags_offset) 0) alloc (allocation_header_magic + 1) x
        (omega arith)
      ∙ ground arith

  released-load32 :
      (a : ℕ)
      → alloc + 4 ≤ a
      → a + 4 ≤ alloc + flags_offset
      → load32 (released m alloc) a ≡ load32 m a
  unfolding released
  released-load32 a lo hi =
      load32-store32_ne (poke m (alloc + flags_offset) 0) alloc (allocation_header_magic + 1) a
        (omega arith)
      ∙ load32-poke_ne m (alloc + flags_offset) 0 a (omega arith)

  released-magic : load32 (released m alloc) alloc ≡ allocation_header_magic + 1
  unfolding released
  released-magic = load32-store32_self _ alloc (allocation_header_magic + 1) (omega arith)

  released-flags : released m alloc (alloc + flags_offset) ≡ 0
  unfolding released
  released-flags =
      store32_outside (poke m (alloc + flags_offset) 0) alloc (allocation_header_magic + 1)
        (alloc + flags_offset) (omega arith)
      ∙ ground arith

  released-IsHeader :
      (p : ℕ) (b : Block) → IsHeader m p alloc b → IsHeader (released m alloc) p alloc (freed b)
  released-IsHeader p b h = record {
    magic = released-magic;
    back = released-load32 (alloc + previous_offset) (omega arith) (omega arith) ∙ h.back;
    size = released-load32 (alloc + length_offset) (omega arith) (omega arith) ∙ h.size;
    flags = released-flags;
    fits = h.fits;
  }

pub free_block :
    (a : Allocator) (bs cs : List Block) (b : Block)
    → IsHeap a (bs ++ b ∷ cs)
    → b.live ≡ true
    → free (address memory_start bs + header_size) a
      ≡ with_heap a (released (heap a) (address memory_start bs))
free_block a bs cs b h live =
    free-released (at + header_size) a (ap (load32 (heap a)) k.0 ∙ k.1)
    ∙ ap (λ l. with_heap a (released (heap a) l)) k.0
  where
    at : ℕ
    at = address memory_start bs

    k : (header_of (at + header_size) ≡ at) × (load32 (heap a) at ≡ allocation_header_magic)
    k = IsHeap-live_header a bs cs b h live

-- Freeing a live block writes nowhere but in its header.
pub free-data :
    (a : Allocator) (bs cs : List Block) (b : Block) (x : ℕ)
    → IsHeap a (bs ++ b ∷ cs)
    → b.live ≡ true
    → address memory_start bs + header_size ≤ x
    → heap (free (address memory_start bs + header_size) a) x ≡ heap a x
free-data a bs cs b x h live lo =
    ap (λ c. heap c x) (free_block a bs cs b h live)
    ∙ released-SameButHeader (heap a) (address memory_start bs) x (inr lo)

-- Freeing the same pointer again changes nothing but the screen, where it prints the message.
pub free_twice :
    (mem : ℕ) (a : Allocator)
    → load32 (heap a) (header_of mem) ≡ allocation_header_magic
    → free mem (free mem a)
      ≡ print (free mem a) (puts (codes "[MEMORY] Invalid free!\n") 0x0C (free mem a).console)
free_twice mem a e = free-invalid mem (free mem a) (λ f. omega (arith, marked))
  where
    marked : load32 (heap (free mem a)) (header_of mem) ≡ allocation_header_magic + 1
    marked =
        ap (λ b. load32 (heap b) (header_of mem)) (free-released mem a e)
        ∙ released-magic (heap a) (header_of mem)

-- Freeing the data of a live block of a well formed heap marks that block as freed and leaves
-- every other block, the order of the list and the next position as they are.
pub free-IsHeap :
    (a : Allocator) (bs cs : List Block) (b : Block)
    → IsHeap a (bs ++ b ∷ cs)
    → b.live ≡ true
    → IsHeap (free (address memory_start bs + header_size) a) (bs ++ freed b ∷ cs)
      × ((free (address memory_start bs + header_size) a).next_allocation_position
          ≡ a.next_allocation_position)
free-IsHeap a bs cs b h live = rw (free_block a bs cs b h live) (
  IsHeap-update a (released (heap a) at) bs cs b (freed b) h refl
      (λ x out. released-SameButHeader (heap a) at x (omega arith))
      (released-load32 (heap a) at (at + next_offset) (omega arith) (omega arith))
      (λ p k. released-IsHeader (heap a) at p b k),
  refl,
)
  where
    at : ℕ
    at = address memory_start bs
