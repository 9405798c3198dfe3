-- ===== src/Allocator/Client.antt =====
-- A client of Memory.c: the sequences of its calls and of its writes to the data of its blocks.
use red_fox32_old.Base.{
  ℕ, ◌+◌, ◌≤◌, ◌<◌, ◌≡◌, ◌≢◌, ◌∙◌, sym, subst, ◌⊎◌, true, word, Option, none, some, List, [], ◌∷◌,
  ◌++◌,
}
use red_fox32_old.Allocator.{
  Allocator, memory_start, header_size, malloc, free, realloc, set_length, returned,
}
use red_fox32_old.Allocator.Chain.{Block, fresh_block, stride, IsHeap}
use red_fox32_old.Allocator.Update.{address}
use red_fox32_old.Allocator.Malloc.{malloc-IsHeap}
use red_fox32_old.Allocator.Free.{freed, free-IsHeap}
use red_fox32_old.Allocator.Realloc.{resized, realloc-IsHeap}
use red_fox32_old.Allocator.Data.{InData, write, write-IsHeap}

-- A step of a client that keeps to the rules, from one state and its blocks to the next: a call of
-- malloc that returns, a free of a live block, a realloc that asks for no more than the block admits,
-- a write inside the data of a live block. The first index is the address that the client writes.
pub data Call : Option ℕ → Allocator → List Block → Allocator → List Block → Type 0 where
  allocate :
      (fuel size q : ℕ) (a c : Allocator) (bs : List Block)
      → size ≢ 0
      → a.next_allocation_position + size < word
      → malloc fuel size a ≡ returned q c
      → Call none a bs c (bs ++ fresh_block size ∷ [])
  release :
      (a : Allocator) (bs cs : List Block) (b : Block)
      → b.live ≡ true
      → Call none a
          (bs ++ b ∷ cs)
          (free (address memory_start bs + header_size) a)
          (bs ++ freed b ∷ cs)
  shrink :
      (fuel size q : ℕ) (a c : Allocator) (bs cs : List Block) (b : Block)
      → b.live ≡ true
      → size ≤ b.size
      → realloc fuel (address memory_start bs + header_size) size a ≡ returned q c
      → Call none a (bs ++ b ∷ cs) c (bs ++ resized size b ∷ cs)
  store :
      (a : Allocator) (bs cs : List Block) (b : Block) (x v : ℕ)
      → b.live ≡ true
      → InData (address memory_start bs) x b
      → Call (some x) a (bs ++ b ∷ cs) (write x v a) (bs ++ b ∷ cs)

returned-injective :
    {A : Type 0} {x y : A} {a b : Allocator} → returned x a ≡ returned y b → (x ≡ y) × (a ≡ b)
returned-injective e = (cc, cc)

-- What a realloc that asks for no more than the block admits has done.
shrink-state :
    (fuel size q : ℕ) (a c : Allocator) (bs cs : List Block) (b : Block)
    → IsHeap a (bs ++ b ∷ cs)
    → b.live ≡ true
    → size ≤ b.size
    → realloc fuel (address memory_start bs + header_size) size a ≡ returned q c
    → c ≡ set_length (address memory_start bs) size a
shrink-state fuel size q a c bs cs b h live le e =
    (returned-injective (sym e ∙ (realloc-IsHeap fuel size a bs cs b h live le).0)).1

-- Every step keeps the heap well formed.
pub Call-IsHeap :
    {w : Option ℕ} {a c : Allocator} {bs cs : List Block}
    → Call w a bs c cs
    → IsHeap a bs
    → IsHeap c cs
Call-IsHeap (allocate fuel size q a c bs n small e) h =
    (malloc-IsHeap fuel size a bs q c h n small e).1
Call-IsHeap (release a bs cs b live) h = (free-IsHeap a bs cs b h live).0
Call-IsHeap (shrink fuel size q a c bs cs b live le e) h =
    subst (λ s. IsHeap s (bs ++ resized size b ∷ cs))
      (sym (shrink-state fuel size q a c bs cs b h live le e))
      (realloc-IsHeap fuel size a bs cs b h live le).1
Call-IsHeap (store a bs cs b x v live within) h = write-IsHeap a bs cs b x v h within

-- `x` is an address of the data of one of the blocks.
abbrev pub InBlocks : (at : ℕ) → List Block → (x : ℕ) → Type 0
InBlocks at [] x = ⊥
InBlocks at (b ∷ bs) x = InData at x b ⊎ InBlocks (at + stride b) bs x

-- Sequences of steps, with what each of them writes.
pub data Calls : List (Option ℕ) → Allocator → List Block → Allocator → List Block → Type 0 where
  done : (a : Allocator) (bs : List Block) → Calls [] a bs a bs
  step :
      (w : Option ℕ) (ws : List (Option ℕ)) (a c e : Allocator) (bs cs es : List Block)
      → Call w a bs c cs
      → Calls ws c cs e es
      → Calls (w ∷ ws) a bs e es

-- None of the steps writes the address.
abbrev pub Unwritten : ℕ → List (Option ℕ) → Type 0
Unwritten x [] = Unit {0}
Unwritten x (w ∷ ws) = (w ≢ some x) × Unwritten x ws
