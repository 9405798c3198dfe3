-- ===== src/Allocator/Data.antt =====
-- The data of the blocks that Memory.c hands out: what the client and the calls may do to it.
use red_fox32_old.Base.{
  ℕ, ◌+◌, ◌≤◌, ◌<◌, ◌≡◌, ◌≢◌, ◌∙◌, ap, subst, refl, inl, inr, ◌⊎◌, arith, true, List, [], ◌∷◌, ◌++◌,
}
use red_fox32_old.Machine.Memory.{Memory, poke}
use red_fox32_old.Allocator.{
  Allocator, heap, with_heap, memory_start, header_size, next_offset, allocate, link, malloc, free,
  returned,
}
use red_fox32_old.Allocator.Chain.{
  Block, stride, IsHeader, Chain, Chain-bounds, Agree, IsHeader-Agree, load32-Agree, IsHeap,
  last_header,
}
use red_fox32_old.Allocator.Update.{
  address, address-ge, Chain-block, IsHeap-update, last_header-mid,
}
use red_fox32_old.Allocator.Place.{link-IsLinked, fill_header-outside}
use red_fox32_old.Allocator.Malloc.{malloc-returned}
use red_fox32_old.Allocator.Free.{free_block, released-SameButHeader}

-- `x` is an address of the data of the block that stands at `at`.
pub record InData (at x : ℕ) (b : Block) : Type 0 where
  pub from : at + header_size ≤ x
  pub to : x < at + header_size + b.extent

-- The client's write of a byte.
abbrev pub write : ℕ → ℕ → Allocator → Allocator
write x v a = with_heap a (poke (heap a) x v)

-- A client that writes inside the data of a block, in use or freed, keeps the heap well formed.
pub write-IsHeap :
    (a : Allocator) (bs cs : List Block) (b : Block) (x v : ℕ)
    → IsHeap a (bs ++ b ∷ cs)
    → InData (address memory_start bs) x b
    → IsHeap (write x v a) (bs ++ b ∷ cs)
write-IsHeap a bs cs b x v h within =
    IsHeap-update a (poke (heap a) x v) bs cs b b h refl (λ y out. kept y (omega arith))
      (load32-Agree (heap a) (poke (heap a) x v) at (at + header_size) (at + header_size)
        (at + next_offset) agree (omega arith) (omega arith) (inl (omega arith)))
      (λ p k.
        IsHeader-Agree (heap a) (poke (heap a) x v) p at (at + header_size) (at + header_size) b
          agree (omega arith) (inr (omega arith)) k)
  where
    at : ℕ
    at = address memory_start bs

    from : at + header_size ≤ x
    from = within.from

    kept : (y : ℕ) → (y < x) ⊎ (x < y) → poke (heap a) x v y ≡ heap a y
    kept y out = ground arith

    agree : Agree (heap a) (poke (heap a) x v) at (at + header_size) (at + header_size)
    agree y lo hi out = kept y (inl (omega arith))

-- A block is the last of its chain, or ends before the last header.
Chain-last_or :
    (m : Memory) (previous at : ℕ) (bs cs : List Block) (b : Block) (last end : ℕ)
    → Chain m previous at (bs ++ b ∷ cs) last end
    → (last ≡ address at bs) ⊎ (address at bs + stride b ≤ last)
Chain-last_or m previous at [] [] b last end c = inl c.2.0
Chain-last_or m previous at [] (d ∷ cs) b last end c =
    inr (Chain-bounds m at (at + stride b) d cs last end c.2).0
Chain-last_or m previous at (d ∷ bs) cs b last end c =
    Chain-last_or m at (at + stride d) bs cs b last end c.2

-- The data of a block lies off the link of the last header and below the next position.
InData-place :
    (a : Allocator) (bs cs : List Block) (b : Block) (x : ℕ)
    → IsHeap a (bs ++ b ∷ cs)
    → InData (address memory_start bs) x b
    → (memory_start ≤ x) × (x < a.next_allocation_position) × ((x < a.last + 8) ⊎ (a.last + 12 ≤ x))
InData-place a bs cs b x h within = (
  omega (arith, address-ge memory_start bs),
  omega (arith, found.2),
  omega (
    arith,
    Chain-last_or (heap a) 0 memory_start bs cs b (last_header a (bs ++ b ∷ cs))
        a.next_allocation_position h.chain,
    last_header-mid a bs cs b,
  ),
)
  where
    found :
        (p : ℕ) × IsHeader (heap a) p (address memory_start bs) b
        × (address memory_start bs + stride b ≤ a.next_allocation_position)
    found =
        Chain-block (heap a) 0 memory_start bs cs b (last_header a (bs ++ b ∷ cs))
          a.next_allocation_position h.chain

-- Two blocks of one heap are the same block, or stand apart.
pub blocks_apart :
    (at : ℕ) (bs cs ds es : List Block) (b d : Block)
    → bs ++ b ∷ cs ≡ ds ++ d ∷ es
    → (address at bs ≡ address at ds)
      ⊎ ((address at bs + stride b ≤ address at ds) ⊎ (address at ds + stride d ≤ address at bs))
blocks_apart at [] cs [] es b d e = inl refl
blocks_apart at [] cs (x ∷ ds) es b d e =
    inr (inl (omega (arith, ap stride (head_of e), address-ge (at + stride x) ds)))
  where
    head_of : b ∷ cs ≡ x ∷ (ds ++ d ∷ es) → b ≡ x
    head_of q = cc
blocks_apart at (x ∷ bs) cs [] es b d e =
    inr (inr (omega (arith, ap stride (head_of e), address-ge (at + stride x) bs)))
  where
    head_of : x ∷ (bs ++ b ∷ cs) ≡ d ∷ es → x ≡ d
    head_of q = cc
blocks_apart at (x ∷ bs) cs (y ∷ ds) es b d e =
    subst
      (λ z.
        (address (at + stride x) bs ≡ address (at + stride z) ds)
        ⊎ ((address (at + stride x) bs + stride b ≤ address (at + stride z) ds)
            ⊎ (address (at + stride z) ds + stride d ≤ address (at + stride x) bs)))
      (head_of e) (blocks_apart (at + stride x) bs cs ds es b d (tail_of e))
  where
    head_of : x ∷ (bs ++ b ∷ cs) ≡ y ∷ (ds ++ d ∷ es) → x ≡ y
    head_of q = cc

    tail_of : x ∷ (bs ++ b ∷ cs) ≡ y ∷ (ds ++ d ∷ es) → bs ++ b ∷ cs ≡ ds ++ d ∷ es
    tail_of q = cc

-- A call of `malloc` that returns keeps every byte of the data of every block.
pub malloc-keeps_data :
    (fuel size : ℕ) (a : Allocator) (bs cs : List Block) (b : Block) (x q : ℕ) (c : Allocator)
    → IsHeap a (bs ++ b ∷ cs)
    → InData (address memory_start bs) x b
    → size ≢ 0
    → malloc fuel size a ≡ returned q c
    → heap c x ≡ heap a x
unfolding allocate
malloc-keeps_data fuel size a bs cs b x q c h within n e =
    let place = InData-place a bs cs b x h within in
    let linked = link-IsLinked a (bs ++ b ∷ cs) h in
    ap (λ d. heap d x) (malloc-returned fuel size a q c n e).3
    ∙ fill_header-outside a.next_allocation_position size x (link a) (inl place.1)
    ∙ linked.same x place.0 place.1 (omega (arith, place.2, last_header-mid a bs cs b))

-- Freeing a live block keeps every byte of the data of every block, its own included.
pub free-keeps_data :
    (a : Allocator) (bs cs ds es : List Block) (b d : Block) (x : ℕ)
    → IsHeap a (bs ++ b ∷ cs)
    → b.live ≡ true
    → bs ++ b ∷ cs ≡ ds ++ d ∷ es
    → InData (address memory_start ds) x d
    → heap (free (address memory_start bs + header_size) a) x ≡ heap a x
free-keeps_data a bs cs ds es b d x h live same within =
    ap (λ c. heap c x) (free_block a bs cs b h live)
    ∙ released-SameButHeader (heap a) (address memory_start bs) x
        (omega (arith, blocks_apart memory_start bs cs ds es b d same))
