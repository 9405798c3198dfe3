-- ===== src/Allocator/Update.antt =====
-- A change of one header in the list that Memory.c keeps.
use red_fox32_old.Base.{
  word, ℕ, ◌+◌, ◌%◌, ◌≤◌, ◌<◌, ◌≡◌, ◌≢◌, ◌∙◌, ap, sym, subst, refl, inl, inr, ◌⊎◌, arith, true,
  List, [], ◌∷◌, ◌++◌, length-append,
}
use red_fox32_old.Machine.Memory.{Memory, load32}
use red_fox32_old.Allocator.{
  Allocator, memory_start, header_size, header_of, allocation_header_magic, next_offset, heap,
  with_heap,
}
use red_fox32_old.Allocator.Chain.{
  Block, stride, IsHeader, Next, Chain, Agree, IsHeader-Agree, load32-Agree, IsHeap, last_header,
}

-- The header of the block behind the blocks `bs`, of which the first stands at `at`.
abbrev pub address : ℕ → List Block → ℕ
address at [] = at
address at (b ∷ bs) = address (at + stride b) bs

pub address-ge : (at : ℕ) (bs : List Block) → at ≤ address at bs
address-ge at [] = omega arith
address-ge at (b ∷ bs) = omega (arith, address-ge (at + stride b) bs)

-- A chain is not touched by writes below it.
pub Chain-frame :
    (m m' : Memory) (previous at : ℕ) (bs : List Block) (last end : ℕ)
    → Chain m previous at bs last end
    → ((x : ℕ) → at ≤ x → m' x ≡ m x)
    → Chain m' previous at bs last end
Chain-frame m m' previous at [] last end c same = c
Chain-frame m m' previous at (b ∷ bs) last end c same = (
  IsHeader-Agree m m' previous at (at + stride b) (at + stride b) b agree (omega arith)
      (inr (omega arith)) c.0,
  next bs c.1,
  Chain-frame m m' at (at + stride b) bs last end c.2 λ x lo. same x (omega arith),
)
  where
    agree : Agree m m' at (at + stride b) (at + stride b)
    agree x lo hi out = same x lo

    next : (cs : List Block) → Next m at b cs → Next m' at b cs
    next [] n = tt
    next (c ∷ cs) n =
        load32-Agree m m' at (at + stride b) (at + stride b) (at + next_offset) agree (omega arith)
          (omega arith) (inl (omega arith))
        ∙ n

Chain-le :
    (m : Memory) (previous at : ℕ) (bs : List Block) (last end : ℕ)
    → Chain m previous at bs last end
    → at ≤ end
Chain-le m previous at [] last end c = omega arith
Chain-le m previous at (b ∷ bs) last end c =
    omega (arith, Chain-le m at (at + stride b) bs last end c.2)

-- A block of the chain has its header at its address, and ends before the end of the chain.
pub Chain-block :
    (m : Memory) (previous at : ℕ) (bs cs : List Block) (b : Block) (last end : ℕ)
    → Chain m previous at (bs ++ b ∷ cs) last end
    → (p : ℕ) × IsHeader m p (address at bs) b × (address at bs + stride b ≤ end)
Chain-block m previous at [] cs b last end c =
    (previous, c.0, Chain-le m at (at + stride b) cs last end c.2)
Chain-block m previous at (d ∷ bs) cs b last end c =
    Chain-block m at (at + stride d) bs cs b last end c.2

-- Nothing but the header at `alloc` has been changed.
abbrev pub SameButHeader : (m m' : Memory) (alloc : ℕ) → Type 0
SameButHeader m m' alloc = (x : ℕ) → (x < alloc) ⊎ (alloc + header_size ≤ x) → m' x ≡ m x

-- Nothing but the block at `alloc`, its header and its data, has been changed.
abbrev pub SameButBlock : (m m' : Memory) (alloc : ℕ) → Block → Type 0
SameButBlock m m' alloc b = (x : ℕ) → (x < alloc) ⊎ (alloc + stride b ≤ x) → m' x ≡ m x

-- A block whose links stay may be rewritten in place.
pub Chain-update :
    (m m' : Memory) (previous at : ℕ) (bs cs : List Block) (b b' : Block) (last end : ℕ)
    → Chain m previous at (bs ++ b ∷ cs) last end
    → b'.extent ≡ b.extent
    → SameButBlock m m' (address at bs) b
    → load32 m' (address at bs + next_offset) ≡ load32 m (address at bs + next_offset)
    → ((p : ℕ) → IsHeader m p (address at bs) b → IsHeader m' p (address at bs) b')
    → Chain m' previous at (bs ++ b' ∷ cs) last end
Chain-update m m' previous at [] cs b b' last end c e same link turn = (
  turn previous c.0,
  next cs c.1,
  subst (λ k. Chain m' at (at + (k + header_size + 1)) cs last end) (sym e)
      (Chain-frame m m' at (at + stride b) cs last end c.2 λ x lo. same x (omega arith)),
)
  where
    next : (ds : List Block) → Next m at b ds → Next m' at b' ds
    next [] n = tt
    next (d ∷ ds) n = omega (arith, link, n, e)
Chain-update m m' previous at (d ∷ bs) cs b b' last end c e same link turn = (
  IsHeader-Agree m m' previous at (at + stride d) (at + stride d) d agree (omega arith)
      (inr (omega arith)) c.0,
  next bs c.1,
  Chain-update m m' at (at + stride d) bs cs b b' last end c.2 e same link turn,
)
  where
    agree : Agree m m' at (at + stride d) (at + stride d)
    agree x lo hi out = same x (inl (omega (arith, address-ge (at + stride d) bs)))

    kept : load32 m' (at + next_offset) ≡ load32 m (at + next_offset)
    kept =
        load32-Agree m m' at (at + stride d) (at + stride d) (at + next_offset) agree (omega arith)
          (omega arith) (inl (omega arith))

    next : (ds : List Block) → Next m at d (ds ++ b ∷ cs) → Next m' at d (ds ++ b' ∷ cs)
    next [] n = kept ∙ n
    next (x ∷ xs) n = kept ∙ n

pub last_header-mid :
    (a : Allocator) (bs cs : List Block) (b : Block) → last_header a (bs ++ b ∷ cs) ≡ a.last
last_header-mid a [] cs b = refl
last_header-mid a (d ∷ bs) cs b = refl

-- The same for the invariant: the block changes and its place in the list does not.
pub IsHeap-update :
    (a : Allocator) (m' : Memory) (bs cs : List Block) (b b' : Block)
    → IsHeap a (bs ++ b ∷ cs)
    → b'.extent ≡ b.extent
    → SameButBlock (heap a) m' (address memory_start bs) b
    → load32 m' (address memory_start bs + next_offset)
      ≡ load32 (heap a) (address memory_start bs + next_offset)
    → ((p : ℕ)
        → IsHeader (heap a) p (address memory_start bs) b
        → IsHeader m' p (address memory_start bs) b')
    → IsHeap (with_heap a m') (bs ++ b' ∷ cs)
IsHeap-update a m' bs cs b b' h e same link turn = record {
  chain =
      subst (λ l. Chain m' 0 memory_start (bs ++ b' ∷ cs) l a.next_allocation_position)
        (last_header-mid a bs cs b ∙ sym (last_header-mid (with_heap a m') bs cs b'))
        (Chain-update (heap a) m' 0 memory_start bs cs b b' (last_header a (bs ++ b ∷ cs))
          a.next_allocation_position h.chain e same link turn);
  head = λ n. h.head (not_empty bs);
  count =
      h.count ∙ ap (λ k. k % word) (length-append bs (b ∷ cs) ∙ sym (length-append bs (b' ∷ cs)));
  room = h.room;
}
  where
    not_empty : (ds : List Block) → ds ++ b ∷ cs ≢ []
    not_empty [] e = cc
    not_empty (d ∷ ds) e = cc

-- The data pointer of a live block leads back to its header, which has the magic.
pub IsHeap-live_header :
    (a : Allocator) (bs cs : List Block) (b : Block)
    → IsHeap a (bs ++ b ∷ cs)
    → b.live ≡ true
    → (header_of (address memory_start bs + header_size) ≡ address memory_start bs)
      × (load32 (heap a) (address memory_start bs) ≡ allocation_header_magic)
IsHeap-live_header a bs cs b h live = (omega (arith, found.2, h.room), magic_of found.1)
  where
    at : ℕ
    at = address memory_start bs

    found : (p : ℕ) × IsHeader (heap a) p at b × (at + stride b ≤ a.next_allocation_position)
    found =
        Chain-block (heap a) 0 memory_start bs cs b (last_header a (bs ++ b ∷ cs))
          a.next_allocation_position h.chain

    magic_of : IsHeader (heap a) found.0 at b → load32 (heap a) at ≡ allocation_header_magic
    magic_of k = rw live at k.magic
