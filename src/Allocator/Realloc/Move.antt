-- ===== src/Allocator/Realloc/Move.antt =====
-- realloc of Memory.c where the block has to move.
use red_fox32_old.Base.{
  word, ℕ, ◌+◌, ◌≤◌, ◌<◌, ◌≡◌, ◌≢◌, ◌∙◌, ap, sym, subst, refl, arith, List, [], ◌∷◌, ◌++◌, true,
  ==_false,
}
use red_fox32_old.Machine.Memory.{Memory, load32}
use red_fox32_old.Allocator.{
  Allocator, Outcome, returned, ◌>>=◌, malloc, realloc, move_from, memory_start, header_size,
  next_offset, length_offset, heap, free, header_of, allocation_header_magic,
}
use red_fox32_old.Allocator.Chain.{Block, stride, IsHeap, last_header, Chain, fresh_block}
use red_fox32_old.Allocator.Update.{address, Chain-block}
use red_fox32_old.Allocator.Free.{freed, free-IsHeap, free-data}
use red_fox32_old.Allocator.Place.{allocate-data}
use red_fox32_old.Allocator.Malloc.{malloc-returned}
use red_fox32_old.Allocator.Check.{InBounds}
use red_fox32_old.Allocator.Malloc.{AllClear, malloc-IsHeap}
use red_fox32_old.Allocator.{halted, out_of_fuel, allocate}
use red_fox32_old.Base.{append_assoc}
use red_fox32_old.Allocator.Realloc.{block_header, realloc-moves}

-- A chain of calls that returns has come through its first call.
bind-returned :
    {A B : Type 0} (m : Outcome A) (k : A → Allocator → Outcome B) {y : B} {c : Allocator}
    → (m >>= k) ≡ returned y c
    → (x : A) × (b : Allocator) × (m ≡ returned x b) × (k x b ≡ returned y c)
bind-returned (returned x b) k e = (x, b, refl, e)
bind-returned (halted b) k e = cc
bind-returned out_of_fuel k e = cc

returned-move :
    (mem q new : ℕ) (c e : Allocator)
    → new ≢ 0
    → move_from mem new e ≡ returned q c
    → (q ≡ new) × (c ≡ free mem e)
returned-move mem q new c e n step = (cc (rw (==_false n) at step), cc (rw (==_false n) at step))

-- A block with another behind it points to that.
Chain-next :
    (m : Memory) (previous lo : ℕ) (bs cs : List Block) (b d : Block) (last end : ℕ)
    → Chain m previous lo (bs ++ b ∷ d ∷ cs) last end
    → load32 m (address lo bs + next_offset) ≡ address lo bs + stride b
Chain-next m previous lo [] cs b d last end c = c.1
Chain-next m previous lo (e ∷ bs) cs b d last end c =
    Chain-next m lo (lo + stride e) bs cs b d last end c.2

-- The two steps of a move, with the outcome of the call of `malloc` given.
moved :
    (fuel size : ℕ) (a : Allocator) (bs cs : List Block) (b : Block) (q new x : ℕ) (c e : Allocator)
    → IsHeap a (bs ++ b ∷ cs)
    → b.live ≡ true
    → size ≢ 0
    → a.next_allocation_position + size < word
    → malloc fuel size a ≡ returned new e
    → move_from (address memory_start bs + header_size) new e ≡ returned q c
    → q ≤ x
    → x < q + size
    → (q ≡ a.next_allocation_position + header_size)
      × IsHeap c (bs ++ freed b ∷ (cs ++ fresh_block size ∷ []))
      × (heap c x ≡ heap a x)
moved fuel size a bs cs b q new x c e h live n small called step lo hi = (
  same.0 ∙ placed.2,
  subst (λ k. IsHeap k (bs ++ freed b ∷ (cs ++ fresh_block size ∷ []))) (sym same.1)
      (free-IsHeap e bs (cs ++ fresh_block size ∷ []) b grown live).0,
  ap (λ k. heap k x) same.1
      ∙ free-data e bs (cs ++ fresh_block size ∷ []) b x grown live
          (omega (arith, same.0, placed.2, below))
      ∙ ap (λ k. heap k x) placed.3
      ∙ allocate-data a (bs ++ b ∷ cs) size x h (omega (arith, same.0, placed.2)),
)
  where
    placed :
        InBounds a.next_allocation_position size
        × AllClear a size
        × (new ≡ a.next_allocation_position + header_size)
        × (e ≡ allocate size a)
    placed = malloc-returned fuel size a new e n called

    same : (q ≡ new) × (c ≡ free (address memory_start bs + header_size) e)
    same =
        returned-move (address memory_start bs + header_size) q new c e (omega (arith, placed.2))
          step

    grown : IsHeap e (bs ++ b ∷ (cs ++ fresh_block size ∷ []))
    grown =
        subst (IsHeap e) (append_assoc bs (b ∷ cs) (fresh_block size ∷ []))
          (malloc-IsHeap fuel size a (bs ++ b ∷ cs) new e h n small called).1

    below : address memory_start bs + stride b ≤ a.next_allocation_position
    below =
        (Chain-block (heap a) 0 memory_start bs cs b (last_header a (bs ++ b ∷ cs))
          a.next_allocation_position h.chain).2

-- If a call of `realloc` returns that asks for more than a live block of a well formed heap admits, where
-- another block is behind it and the end of the new one is below 2^32, the block has been moved: the new one
-- is appended, the old one is freed, and the bytes of the new block are what they were before the call,
-- whatever the old block held.
pub realloc_moves_without_data :
    (fuel size : ℕ) (a : Allocator) (bs cs : List Block) (b d : Block) (q x : ℕ) (c : Allocator)
    → IsHeap a (bs ++ b ∷ d ∷ cs)
    → b.live ≡ true
    → b.size < size
    → a.next_allocation_position + size < word
    → realloc fuel (address memory_start bs + header_size) size a ≡ returned q c
    → q ≤ x
    → x < q + size
    → (q ≡ a.next_allocation_position + header_size)
      × IsHeap c (bs ++ freed b ∷ d ∷ (cs ++ fresh_block size ∷ []))
      × (heap c x ≡ heap a x)
realloc_moves_without_data fuel size a bs cs b d q x c h live grow small e lo hi =
    moved fuel size a bs (d ∷ cs) b q called.0 x c called.1 h live (omega arith) small called.2
      called.3 lo hi
  where
    mem : ℕ
    mem = address memory_start bs + header_size

    links :
        (load32 (heap a) (header_of mem) ≡ allocation_header_magic)
        × (load32 (heap a) (header_of mem + length_offset) ≡ b.size)
        × (header_of mem ≡ address memory_start bs)
    links = block_header size a bs (d ∷ cs) b h live

    next_ne : load32 (heap a) (header_of mem + next_offset) ≢ 0
    next_ne z = omega (
      arith,
      sym (ap (λ k. load32 (heap a) (k + next_offset)) links.2) ∙ z,
      Chain-next (heap a) 0 memory_start bs cs b d (last_header a (bs ++ b ∷ d ∷ cs))
          a.next_allocation_position h.chain,
    )

    called :
        (new : ℕ) × (b' : Allocator) × (malloc fuel size a ≡ returned new b')
        × (move_from mem new b' ≡ returned q c)
    called =
        bind-returned (malloc fuel size a) (move_from mem)
          (sym (realloc-moves fuel mem size a links.0 (omega (arith, links.1)) next_ne) ∙ e)
