-- ===== src/Allocator/Realloc.antt =====
-- realloc of Memory.c.
pub mod Move
use red_fox32_old.Base.{
  word, ℕ, zero, suc, ◌+◌, ◌-◌, ◌*◌, ◌%◌, ◌≤◌, ◌<◌, ◌≡◌, ◌≢◌, ◌∙◌, ap, sym, subst, refl, inl, inr,
  ◌⊎◌, arith, List, [], ◌∷◌, ◌++◌, true, false, add32, sub32, if◌then◌else◌, ◌==◌, Bool, not, leb,
  ==_false, le→leb, gt→leb,
}
use red_fox32_old.Machine.Memory.{
  Memory, poke, load32, store32, load32-store32_self, load32-store32_ne, load32-poke_ne,
  store32_outside,
}
use red_fox32_old.Allocator.{
  Allocator, Outcome, returned, ◌>>=◌, malloc, realloc, move_from, set_length, memory_start,
  header_size, next_offset, previous_offset, flags_offset, length_offset, heap, with_heap, free,
  header_of, has_magic, allocation_header_magic,
}
use red_fox32_old.Allocator.Chain.{Block, stride, IsHeader, IsHeap, last_header, Chain, fresh_block}
use red_fox32_old.Allocator.Update.{
  address, Chain-block, IsHeap-live_header, SameButHeader, IsHeap-update,
}
use red_fox32_old.Allocator.Free.{freed, free-IsHeap, free-data}
use red_fox32_old.Allocator.Place.{allocate-data}
use red_fox32_old.Allocator.Malloc.{malloc-returned}

-- A pointer that does not stand behind a live header is refused, and nothing is written.
pub realloc-invalid :
    (fuel mem size : ℕ) (a : Allocator)
    → load32 (heap a) (header_of mem) ≢ allocation_header_magic
    → realloc fuel mem size a ≡ returned 0 a
unfolding realloc
realloc-invalid fuel mem size a n = rw (==_false n)

module _ (fuel mem size : ℕ) (a : Allocator)
    (magic : load32 (heap a) (header_of mem) ≡ allocation_header_magic) where
  realloc-shrinks :
      size ≤ load32 (heap a) (header_of mem + length_offset)
      → realloc fuel mem size a
        ≡ returned (header_of mem + header_size) (set_length (header_of mem) size a)
  unfolding realloc
  realloc-shrinks h = rw (magic, le→leb _ _ h)

  realloc-grows_last :
      load32 (heap a) (header_of mem + length_offset) < size
      → load32 (heap a) (header_of mem + next_offset) ≡ 0
      → realloc fuel mem size a
        ≡ returned (header_of mem + header_size) (set_length (header_of mem) size a)
  unfolding realloc
  realloc-grows_last h z = rw (magic, gt→leb _ _ h, z)

  pub realloc-moves :
      load32 (heap a) (header_of mem + length_offset) < size
      → load32 (heap a) (header_of mem + next_offset) ≢ 0
      → realloc fuel mem size a ≡ (malloc fuel size a >>= move_from mem)
  unfolding realloc
  realloc-moves h nz = rw (magic, gt→leb _ _ h, ==_false nz)

-- A block of which the header admits `size` bytes.
abbrev pub resized : ℕ → Block → Block
resized size b = record b { size = size }

set_length-IsHeader :
    (m : Memory) (p at size : ℕ) (b : Block)
    → size ≤ b.extent
    → size < word
    → IsHeader m p at b
    → IsHeader (store32 m (at + length_offset) size) p at (resized size b)
set_length-IsHeader m p at size b fits w h = record {
  magic = load32-store32_ne m (at + length_offset) size at (omega arith) ∙ h.magic;
  back =
      load32-store32_ne m (at + length_offset) size (at + previous_offset) (omega arith) ∙ h.back;
  size = load32-store32_self m (at + length_offset) size w;
  flags = store32_outside m (at + length_offset) size (at + flags_offset) (omega arith) ∙ h.flags;
  fits = fits;
}

-- What `realloc` sees of a live block in a well formed heap.
module _ (fuel size : ℕ) (a : Allocator) (bs cs : List Block) (b : Block)
    (h : IsHeap a (bs ++ b ∷ cs)) (live : b.live ≡ true) where
  at : ℕ
  at = address memory_start bs

  found : (p : ℕ) × IsHeader (heap a) p at b × (at + stride b ≤ a.next_allocation_position)
  unfolding at
  found =
      Chain-block (heap a) 0 memory_start bs cs b (last_header a (bs ++ b ∷ cs))
        a.next_allocation_position h.chain

  header : (header_of (at + header_size) ≡ at) × (load32 (heap a) at ≡ allocation_header_magic)
  unfolding at
  header = IsHeap-live_header a bs cs b h live

  admitted : load32 (heap a) (header_of (at + header_size) + length_offset) ≡ b.size
  admitted = ap (λ k. load32 (heap a) (k + length_offset)) header.0 ∙ size_of found.1
    where
      size_of : IsHeader (heap a) found.0 at b → load32 (heap a) (at + length_offset) ≡ b.size
      size_of k = k.size

  magic : load32 (heap a) (header_of (at + header_size)) ≡ allocation_header_magic
  magic = ap (load32 (heap a)) header.0 ∙ header.1

  -- The outcome on the two branches that only set the length.
  resize-returned :
      realloc fuel (at + header_size) size a
        ≡ returned
            (header_of (at + header_size) + header_size)
            (set_length (header_of (at + header_size)) size a)
      → realloc fuel (at + header_size) size a ≡ returned (at + header_size) (set_length at size a)
  resize-returned e = e ∙ ap (λ k. returned (k + header_size) (set_length k size a)) header.0

  fits_of : IsHeader (heap a) found.0 at b → b.size ≤ b.extent
  fits_of k = k.fits

  resized_heap :
      size ≤ b.extent → size < word → IsHeap (set_length at size a) (bs ++ resized size b ∷ cs)
  unfolding at
  resized_heap fits w =
      IsHeap-update a (store32 (heap a) (at + length_offset) size) bs cs b (resized size b) h refl
        (λ x out. store32_outside (heap a) (at + length_offset) size x (omega arith))
        (load32-store32_ne (heap a) (at + length_offset) size (at + next_offset) (omega arith))
        (λ p k. set_length-IsHeader (heap a) p at size b fits w k)

  -- Asking for no more than the block admits keeps the pointer and the heap well formed, and
  -- changes nothing but the length that the block's header admits.
  realloc-IsHeap_at :
      size ≤ b.size
      → (realloc fuel (at + header_size) size a
          ≡ returned (at + header_size) (set_length at size a))
        × IsHeap (set_length at size a) (bs ++ resized size b ∷ cs)
  realloc-IsHeap_at le = (
    resize-returned
        (realloc-shrinks fuel (at + header_size) size a magic (omega (arith, admitted))),
    resized_heap (omega (arith, fits_of found.1)) (omega (arith, fits_of found.1, found.2, h.room)),
  )

-- Asking `realloc` for no more than a live block of a well formed heap admits keeps the pointer and
-- the heap well formed, and changes nothing but the length that the block's header admits.
pub realloc-IsHeap :
    (fuel size : ℕ) (a : Allocator) (bs cs : List Block) (b : Block)
    → IsHeap a (bs ++ b ∷ cs)
    → b.live ≡ true
    → size ≤ b.size
    → (realloc fuel (address memory_start bs + header_size) size a
        ≡ returned
            (address memory_start bs + header_size)
            (set_length (address memory_start bs) size a))
      × IsHeap (set_length (address memory_start bs) size a) (bs ++ resized size b ∷ cs)
unfolding at
realloc-IsHeap fuel size a bs cs b h live le = realloc-IsHeap_at fuel size a bs cs b h live le

-- The fields that `realloc` reads of a live block.
block_header :
    (size : ℕ) (a : Allocator) (bs cs : List Block) (b : Block)
    → IsHeap a (bs ++ b ∷ cs)
    → b.live ≡ true
    → let alloc = header_of (address memory_start bs + header_size) in
      (load32 (heap a) alloc ≡ allocation_header_magic)
      × (load32 (heap a) (alloc + length_offset) ≡ b.size)
      × (alloc ≡ address memory_start bs)
unfolding at
block_header size a bs cs b h live = (
  magic 0 size a bs cs b h live,
  admitted 0 size a bs cs b h live,
  (header 0 size a bs cs b h live).0,
)

-- The last block grows in place although nothing moves the next position.
Chain-last :
    (m : Memory) (previous lo : ℕ) (bs : List Block) (b : Block) (last end : ℕ)
    → Chain m previous lo (bs ++ b ∷ []) last end
    → end ≡ address lo bs + stride b
Chain-last m previous lo [] b last end c = c.2.1
Chain-last m previous lo (d ∷ bs) b last end c = Chain-last m lo (lo + stride d) bs b last end c.2

-- Growing the last block of a well formed heap by more than the one spare byte behind it, where it is live
-- and its `Next` field is 0, succeeds with the same pointer; if a call of `malloc` for a size that is not 0
-- then returns, the header of its block starts inside the data that the grown block admits.
pub realloc_overlaps :
    (fuel size fuel' n q : ℕ) (a c : Allocator) (bs : List Block) (b : Block)
    → IsHeap a (bs ++ b ∷ [])
    → b.live ≡ true
    → load32 (heap a) (address memory_start bs + next_offset) ≡ 0
    → b.size < size
    → b.extent + 1 < size
    → n ≢ 0
    → malloc fuel' n (set_length (address memory_start bs) size a) ≡ returned q c
    → let mem = address memory_start bs + header_size in
      (realloc fuel mem size a ≡ returned mem (set_length (address memory_start bs) size a))
      × (mem + header_size < q)
      × (q < mem + size + header_size)
unfolding at
realloc_overlaps fuel size fuel' n q a c bs b h live z grow past nz e = (
  resize-returned fuel size a bs [] b h live (
      realloc-grows_last fuel mem size a (magic fuel size a bs [] b h live)
        (omega (arith, admitted fuel size a bs [] b h live))
        (ap (λ k. load32 (heap a) (k + next_offset)) (header fuel size a bs [] b h live).0 ∙ z)),
  omega (arith, placed, end),
  omega (arith, placed, end),
)
  where
    mem : ℕ
    mem = address memory_start bs + header_size

    end : a.next_allocation_position ≡ address memory_start bs + stride b
    end =
        Chain-last (heap a) 0 memory_start bs b (last_header a (bs ++ b ∷ []))
          a.next_allocation_position h.chain

    placed : q ≡ a.next_allocation_position + header_size
    placed = (malloc-returned fuel' n (set_length (address memory_start bs) size a) q c nz e).2
