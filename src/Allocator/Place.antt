-- ===== src/Allocator/Place.antt =====
-- malloc of Memory.c: the block that it places.
use red_fox32_old.Base.{
  ℕ, ◌+◌, ◌≤◌, ◌<◌, ◌≡◌, ◌≢◌, ◌∙◌, ap, sym, subst, refl, inl, inr, ◌⊎◌, arith, ◌==◌, word, add32,
  List, [], ◌∷◌, ◌++◌, if◌then◌else◌, ==_false, length-append,
}
use red_fox32_old.Machine.Memory.{
  Memory, poke, load32, store32, load32-store32_self, load32-store32_ne, store32_outside,
  load32-poke_ne,
}
use red_fox32_old.Allocator.{
  Allocator, heap, memory_start, allocation_header_magic, previous_offset, next_offset,
  length_offset, flags_offset, header_size, link, fill_header, allocate,
}
use red_fox32_old.Allocator.Chain.{
  Block, fresh_block, stride, IsHeader, Chain, Chain-bounds, Chain-grow, Agree, Linked, IsHeap,
  last_header,
}

-- `fill_header` writes inside the header only.
pub fill_header-outside :
    (p size x : ℕ) (m : Memory) → (x < p) ⊎ (p + header_size ≤ x) → fill_header p size m x ≡ m x
fill_header-outside p size x m h =
    store32_outside (poke (store32 m p allocation_header_magic) (p + flags_offset) 1)
      (p + length_offset) size x (omega arith)
    ∙ poke_outside
    ∙ store32_outside m p allocation_header_magic x (omega arith)
  where
    poke_outside :
        poke (store32 m p allocation_header_magic) (p + flags_offset) 1 x
        ≡ store32 m p allocation_header_magic x
    poke_outside = ground arith

load32-fill_header :
    (p size x : ℕ) (m : Memory) → x + 4 ≤ p → load32 (fill_header p size m) x ≡ load32 m x
load32-fill_header p size x m h =
    load32-store32_ne (poke (store32 m p allocation_header_magic) (p + flags_offset) 1)
      (p + length_offset) size x (omega arith)
    ∙ load32-poke_ne (store32 m p allocation_header_magic) (p + flags_offset) 1 x (omega arith)
    ∙ load32-store32_ne m p allocation_header_magic x (omega arith)

-- The filled header describes a fresh block; its link back is what stood there.
fill_header-IsHeader :
    (p size previous : ℕ) (m : Memory)
    → size < word
    → load32 m (p + previous_offset) ≡ previous
    → IsHeader (fill_header p size m) previous p (fresh_block size)
fill_header-IsHeader p size previous m h back = record {
  magic =
      load32-store32_ne m'' (p + length_offset) size p (omega arith)
      ∙ load32-poke_ne m' (p + flags_offset) 1 p (omega arith)
      ∙ load32-store32_self m p allocation_header_magic (omega arith);
  back =
      load32-store32_ne m'' (p + length_offset) size (p + previous_offset) (omega arith)
      ∙ load32-poke_ne m' (p + flags_offset) 1 (p + previous_offset) (omega arith)
      ∙ load32-store32_ne m p allocation_header_magic (p + previous_offset) (omega arith)
      ∙ back;
  size = load32-store32_self m'' (p + length_offset) size h;
  flags =
      store32_outside m'' (p + length_offset) size (p + flags_offset) (omega arith) ∙ ground arith;
  fits = omega arith;
}
  where
    m' : Memory
    m' = store32 m p allocation_header_magic

    m'' : Memory
    m'' = poke m' (p + flags_offset) 1

-- The links of the first block, and of any later one.
link-first :
    (a : Allocator)
    → a.next_allocation_position ≡ memory_start
    → link a ≡ store32 (heap a) (a.next_allocation_position + previous_offset) 0
link-first a e = ground arith

with_previous : Allocator → Memory
with_previous a = store32 (heap a) (a.next_allocation_position + previous_offset) a.last

link-later :
    (a : Allocator)
    → a.next_allocation_position ≢ memory_start
    → a.last < word
    → link a ≡ store32 (with_previous a) (a.last + next_offset) a.next_allocation_position
unfolding with_previous
link-later a n h =
    let p = a.next_allocation_position in
    let back : load32 (with_previous a) (p + previous_offset) ≡ a.last =
      load32-store32_self (heap a) (p + previous_offset) a.last h in
    rw (==_false n) (ap (λ l. store32 (with_previous a) (l + next_offset) p) back)

-- The links are written below the data of the new block.
link-data :
    (a : Allocator) (bs : List Block) (x : ℕ)
    → IsHeap a bs
    → a.next_allocation_position + header_size ≤ x
    → link a x ≡ heap a x
link-data a [] x h lo =
    ap (λ (m : Memory). m x) (link-first a h.chain.1)
    ∙ store32_outside (heap a) (a.next_allocation_position + previous_offset) 0 x (omega arith)
link-data a (b ∷ bs) x h lo =
    let p = a.next_allocation_position in
    let bounds : (memory_start ≤ a.last) × (a.last + header_size < p) =
      Chain-bounds (heap a) 0 memory_start b bs a.last p h.chain in
    let room : p < word = h.room in
    ap (λ (m : Memory). m x) (link-later a (omega arith) (omega arith))
    ∙ store32_outside (with_previous a) (a.last + next_offset) p x (omega arith)
    ∙ previous_outside
  where
    previous_outside : with_previous a x ≡ heap a x
    previous_outside =
        unfold with_previous in
        store32_outside (heap a) (a.next_allocation_position + previous_offset) a.last x
          (omega arith)

-- Placing a block leaves the bytes of its data as they were.
pub allocate-data :
    (a : Allocator) (bs : List Block) (size x : ℕ)
    → IsHeap a bs
    → a.next_allocation_position + header_size ≤ x
    → heap (allocate size a) x ≡ heap a x
unfolding allocate
allocate-data a bs size x h lo =
    fill_header-outside a.next_allocation_position size x (link a) (inr lo) ∙ link-data a bs x h lo

-- What is true of the memory when the links are set: they are there, and nothing below the new
-- header has changed but the last link.
pub record IsLinked (a : Allocator) (bs : List Block) (m : Memory) : Type 0 where
  pub same : Agree (heap a) m memory_start a.next_allocation_position (last_header a bs)
  back : load32 m (a.next_allocation_position + previous_offset) ≡ last_header a bs
  forth : Linked m bs (last_header a bs) a.next_allocation_position

pub link-IsLinked : (a : Allocator) (bs : List Block) → IsHeap a bs → IsLinked a bs (link a)
link-IsLinked a [] h = rw (link-first a h.chain.1) (record {
  same = λ x lo hi out.
      store32_outside (heap a) (a.next_allocation_position + previous_offset) 0 x (omega arith);
  back =
      load32-store32_self (heap a) (a.next_allocation_position + previous_offset) 0 (omega arith);
  forth = tt;
})
link-IsLinked a (b ∷ bs) h =
    let p = a.next_allocation_position in
    let bounds : (memory_start ≤ a.last) × (a.last + header_size < p) =
      Chain-bounds (heap a) 0 memory_start b bs a.last p h.chain in
    let room : p < word = h.room in
    rw (link-later a (omega arith) (omega arith)) (record {
      same = λ x lo hi out.
          store32_outside (with_previous a) (a.last + next_offset) p x (omega arith)
          ∙ previous_outside x hi;
      back =
          load32-store32_ne (with_previous a) (a.last + next_offset) p (p + previous_offset)
            (omega arith)
          ∙ previous_back (omega arith);
      forth = load32-store32_self (with_previous a) (a.last + next_offset) p (omega arith);
    })
  where
    previous_outside : (x : ℕ) → x < a.next_allocation_position → with_previous a x ≡ heap a x
    previous_outside x hi =
        unfold with_previous in
        store32_outside (heap a) (a.next_allocation_position + previous_offset) a.last x
          (omega arith)

    previous_back :
        a.last < word
        → load32 (with_previous a) (a.next_allocation_position + previous_offset) ≡ a.last
    previous_back w =
        unfold with_previous in
        load32-store32_self (heap a) (a.next_allocation_position + previous_offset) a.last w

last_header-append :
    (a : Allocator) (bs : List Block) (b : Block) → last_header a (bs ++ b ∷ []) ≡ a.last
last_header-append a [] b = refl
last_header-append a (c ∷ bs) b = refl

-- Whether the heap is empty or not, the first header is at the start after the call.
first_kept :
    (a : Allocator) (bs : List Block)
    → IsHeap a bs
    → (a.next_allocation_position ≡ memory_start) ⊎ (a.first ≡ memory_start)
first_kept a [] h = inl h.chain.1
first_kept a (b ∷ bs) h = inr (h.head λ e. cc)

first_placed :
    (p first : ℕ)
    → (p ≡ memory_start) ⊎ (first ≡ memory_start)
    → (if p == memory_start then p else first) ≡ memory_start
first_placed p first h = ground arith

allocate-Chain :
    (a : Allocator) (bs : List Block) (size : ℕ)
    → IsHeap a bs
    → size < word
    → Chain
        (fill_header a.next_allocation_position size (link a))
        0
        memory_start
        (bs ++ fresh_block size ∷ [])
        a.next_allocation_position
        (a.next_allocation_position + stride (fresh_block size))
allocate-Chain a bs size h fits =
    Chain-grow (heap a) (fill_header p size (link a)) 0 memory_start bs (last_header a bs) p
      (fresh_block size) h.chain
      (λ x lo hi out. fill_header-outside p size x (link a) (inl hi) ∙ linked.same x lo hi out)
      (keep bs h.chain linked.forth)
      (fill_header-IsHeader p size (last_header a bs) (link a) fits linked.back)
  where
    p : ℕ
    p = a.next_allocation_position

    linked : IsLinked a bs (link a)
    linked = link-IsLinked a bs h

    keep :
        (cs : List Block)
        → Chain (heap a) 0 memory_start cs (last_header a cs) p
        → Linked (link a) cs (last_header a cs) p
        → Linked (fill_header p size (link a)) cs (last_header a cs) p
    keep [] k l = tt
    keep (c ∷ cs) k l =
        let bounds : (memory_start ≤ a.last) × (a.last + header_size < p) =
          Chain-bounds (heap a) 0 memory_start c cs a.last p k in
        load32-fill_header p size (a.last + next_offset) (link a) (omega arith) ∙ l

-- Placing a block keeps the heap well formed, and appends a fresh block of that size to its blocks.
pub allocate-IsHeap :
    (a : Allocator) (bs : List Block) (size : ℕ)
    → IsHeap a bs
    → a.next_allocation_position + size + header_size + 1 < word
    → IsHeap (allocate size a) (bs ++ fresh_block size ∷ [])
unfolding allocate
allocate-IsHeap a bs size h fits = record {
  chain =
      subst (λ l. Chain m 0 memory_start grown l (add32 p (size + header_size + 1)))
        (sym (last_header-append (allocate size a) bs (fresh_block size)))
        (subst (λ e. Chain m 0 memory_start grown p e) (omega arith)
          (allocate-Chain a bs size h (omega arith)));
  head = λ n. first_placed p a.first (first_kept a bs h);
  count = omega (arith, h.count, length-append bs (fresh_block size ∷ []));
  room = omega arith;
}
  where
    p : ℕ
    p = a.next_allocation_position

    m : Memory
    m = fill_header p size (link a)

    grown : List Block
    grown = bs ++ fresh_block size ∷ []
