-- ===== src/Kernel/Blocks.antt =====
-- The two blocks of KMain, and the allocator behind the text that is printed.
use red_fox32_old.Base.{
  ℕ, zero, suc, ◌+◌, ◌-◌, ◌≤◌, ◌<◌, ◌≡◌, ◌≢◌, ◌∙◌, ap, sym, subst, refl, arith, word, add32, List,
  [], ◌∷◌, ◌++◌, codes, for_range, append_assoc,
}
use red_fox32_old.Console.{Console, puts}
use red_fox32_old.Console.Scroll.{SameOffScreen}
use red_fox32_old.Console.Putch.{IsOnScreen, Kept}
use red_fox32_old.Console.Text.{puts-Kept}
use red_fox32_old.Allocator.{
  Allocator, heap, memory_start, header_size, print, returned, malloc, free, allocate,
}
use red_fox32_old.Allocator.Chain.{Block, fresh_block, stride, IsHeap, Chain, last_header}
use red_fox32_old.Machine.Memory.{Memory}
use red_fox32_old.Allocator.Update.{address, Chain-frame, Chain-block}
use red_fox32_old.Allocator.Malloc.{malloc-IsHeap, malloc-returned}
use red_fox32_old.Allocator.Free.{freed, free-IsHeap, free_block}
use red_fox32_old.Allocator.Data.{write, write-IsHeap}
use red_fox32_old.Allocator.Display.{without_backspace-NoBackspace}
use red_fox32_old.Kernel.{fill_blocks, use_blocks}

-- What is printed does not touch the heap.
pub print-IsHeap :
    (a : Allocator) (c : Console) (bs : List Block)
    → IsHeap a bs
    → SameOffScreen (heap a) c.memory
    → IsHeap (print a c) bs
print-IsHeap a c bs h same = record {
  chain =
      Chain-frame (heap a) c.memory 0 memory_start bs _ a.next_allocation_position h.chain
        (λ x lo. same x (ground arith));
  head = h.head;
  count = h.count;
  room = h.room;
}

abbrev block : Block
block = fresh_block 1024

address-append :
    (at : ℕ) (bs : List Block) (b : Block) → address at (bs ++ b ∷ []) ≡ address at bs + stride b
address-append at [] b = refl
address-append at (c ∷ bs) b = address-append (at + stride c) bs b

-- A write into one of the two last blocks, the data of the first at `magic`.
module _ (a : Allocator) (bs : List Block) (k v : ℕ) (h : IsHeap a (bs ++ block ∷ block ∷ []))
    (small : k < 1024) where
  place : ℕ
  place = address memory_start bs

  both : place + stride block + stride block ≤ a.next_allocation_position
  unfolding place
  both = omega (
    arith,
    (Chain-block (heap a) 0 memory_start (bs ++ block ∷ []) [] block _ a.next_allocation_position
        second.chain).2,
    address-append memory_start bs block,
  )
    where
      second : IsHeap a ((bs ++ block ∷ []) ++ block ∷ [])
      second = subst (IsHeap a) (sym (append_assoc bs (block ∷ []) (block ∷ []))) h

  write_first : IsHeap (write (add32 (place + header_size) k) v a) (bs ++ block ∷ block ∷ [])
  unfolding place
  write_first =
      write-IsHeap a bs (block ∷ []) block (add32 (place + header_size) k) v h
        (record { from = omega (arith, both, h.room); to = omega (arith, both, h.room) })

  write_second :
      IsHeap (write (add32 (place + stride block + header_size) k) v a) (bs ++ block ∷ block ∷ [])
  unfolding place
  write_second = subst (IsHeap _) (append_assoc bs (block ∷ []) (block ∷ [])) (
      write-IsHeap a (bs ++ block ∷ []) [] block (add32 (place + stride block + header_size) k) v
        (subst (IsHeap a) (sym (append_assoc bs (block ∷ []) (block ∷ []))) h)
        (record {
          from = omega (arith, both, h.room, address-append memory_start bs block);
          to = omega (arith, both, h.room, address-append memory_start bs block);
        }))

fill-IsHeap :
    (n i : ℕ) (a : Allocator) (bs : List Block)
    → IsHeap a (bs ++ block ∷ block ∷ [])
    → b'a' ≤ i
    → i + n ≤ b'z'
    → let magic = address memory_start bs + header_size in
      let more = address memory_start bs + stride block + header_size in
      IsHeap
        (for_range n i
          (λ i a.
            write (add32 more (i - b'a')) (b'z' - (i - b'a')) (write (add32 magic (i - b'a')) i a))
          a)
        (bs ++ block ∷ block ∷ [])
unfolding for_range place
fill-IsHeap zero i a bs h lo hi = h
fill-IsHeap (suc n) i a bs h lo hi =
    fill-IsHeap n (i + 1) _ bs
      (write_second _ bs (i - b'a') (b'z' - (i - b'a'))
        (write_first a bs (i - b'a') i h (omega arith)) (omega arith))
      (omega arith) (omega arith)

abbrev cursor : Allocator → ℕ
cursor a = a.console.screen_pos

fill-cursor :
    (n i magic more : ℕ) (a : Allocator)
    → cursor (
        for_range n i
          (λ i a.
            write (add32 more (i - b'a')) (b'z' - (i - b'a')) (write (add32 magic (i - b'a')) i a))
          a)
      ≡ cursor a
unfolding for_range
fill-cursor zero i magic more a = refl
fill-cursor (suc n) i magic more a = fill-cursor n (i + 1) magic more _

malloc-cursor :
    (fuel size : ℕ) (a : Allocator) (q : ℕ) (b : Allocator)
    → size ≢ 0
    → malloc fuel size a ≡ returned q b
    → cursor b ≡ cursor a
unfolding allocate
malloc-cursor fuel size a q b n e = ap cursor (malloc-returned fuel size a q b n e).3

Chain-end :
    (m : Memory) (previous at : ℕ) (bs : List Block) (last end : ℕ)
    → Chain m previous at bs last end
    → end ≡ address at bs
Chain-end m previous at [] last end c = c.1
Chain-end m previous at (b ∷ bs) last end c = Chain-end m at (at + stride b) bs last end c.2

heap_end :
    (a : Allocator) (bs : List Block)
    → IsHeap a bs
    → a.next_allocation_position ≡ address memory_start bs
heap_end a bs h =
    Chain-end (heap a) 0 memory_start bs (last_header a bs) a.next_allocation_position h.chain

-- Both blocks freed, the first one first.
free_both :
    (a : Allocator) (bs : List Block)
    → IsHeap a (bs ++ block ∷ block ∷ [])
    → let magic = address memory_start bs + header_size in
      let more = address memory_start bs + stride block + header_size in
      IsHeap (free more (free magic a)) (bs ++ freed block ∷ freed block ∷ [])
      × (cursor (free more (free magic a)) ≡ cursor a)
free_both a bs h = (
  subst (IsHeap _) (append_assoc bs (freed block ∷ []) (freed block ∷ [])) (
      subst
        (λ p. IsHeap (free (p + header_size) once) ((bs ++ freed block ∷ []) ++ freed block ∷ []))
        there (free-IsHeap once (bs ++ freed block ∷ []) [] block second refl).0),
  ap cursor (
        sym (ap (λ p. free (p + header_size) once) there)
        ∙ free_block once (bs ++ freed block ∷ []) [] block second refl)
      ∙ ap cursor (free_block a bs (block ∷ []) block h refl),
)
  where
    once : Allocator
    once = free (address memory_start bs + header_size) a

    second : IsHeap once ((bs ++ freed block ∷ []) ++ block ∷ [])
    second =
        subst (IsHeap once) (sym (append_assoc bs (freed block ∷ []) (block ∷ [])))
          (free-IsHeap a bs (block ∷ []) block h refl).0

    there : address memory_start (bs ++ freed block ∷ []) ≡ address memory_start bs + stride block
    there = address-append memory_start bs (freed block)

-- If the two calls of malloc in KMain return, in a machine with room for the blocks, the rest of that
-- part of KMain returns as well: the heap is well formed, with the blocks that there were and two freed
-- blocks of 1024 bytes behind them, and the position is on the screen, if it was.
pub use_blocks-IsHeap :
    (fuel : ℕ) (a b c : Allocator) (bs : List Block) (q r : ℕ)
    → IsHeap a bs
    → IsOnScreen a.console
    → a.next_allocation_position + 1024 < word
    → malloc fuel 1024 a ≡ returned q b
    → b.next_allocation_position + 1024 < word
    → malloc fuel 1024 b ≡ returned r c
    → (d : Allocator) × (use_blocks fuel a ≡ returned tt d)
      × IsHeap d (bs ++ freed block ∷ freed block ∷ [])
      × IsOnScreen d.console
unfolding use_blocks fill_blocks
use_blocks-IsHeap fuel a b c bs q r h v room first room' second = (
  print freed_both (puts text 0x0C freed_both.console),
  rw (first, second, q_at, r_at),
  print-IsHeap freed_both (puts text 0x0C freed_both.console) (bs ++ freed block ∷ freed block ∷ [])
      both.0 kept.frame,
  kept.position,
)
  where
    text : List ℕ
    text = codes "Entered debug event loop!\n"

    one : (q ≡ a.next_allocation_position + header_size) × IsHeap b (bs ++ block ∷ [])
    one = malloc-IsHeap fuel 1024 a bs q b h (omega arith) room first

    two :
        (r ≡ b.next_allocation_position + header_size) × IsHeap c ((bs ++ block ∷ []) ++ block ∷ [])
    two = malloc-IsHeap fuel 1024 b (bs ++ block ∷ []) r c one.1 (omega arith) room' second

    q_at : q ≡ address memory_start bs + header_size
    q_at = one.0 ∙ ap (λ p. p + header_size) (heap_end a bs h)

    r_at : r ≡ address memory_start bs + stride block + header_size
    r_at =
        two.0
        ∙ ap (λ p. p + header_size)
            (heap_end b (bs ++ block ∷ []) one.1 ∙ address-append memory_start bs block)

    filled : Allocator
    filled =
        fill_blocks (address memory_start bs + header_size)
          (address memory_start bs + stride block + header_size) c

    freed_both : Allocator
    freed_both =
        free (address memory_start bs + stride block + header_size)
          (free (address memory_start bs + header_size) filled)

    both :
        IsHeap freed_both (bs ++ freed block ∷ freed block ∷ [])
        × (cursor freed_both ≡ cursor filled)
    both = free_both filled bs (
        fill-IsHeap 25 b'a' c bs
          (subst (IsHeap c) (append_assoc bs (block ∷ []) (block ∷ [])) two.1) (omega arith)
          (omega arith))

    same_cursor : cursor freed_both ≡ cursor a
    same_cursor =
        both.1
        ∙ fill-cursor 25 b'a' _ _ c
        ∙ malloc-cursor fuel 1024 b r c (omega arith) second
        ∙ malloc-cursor fuel 1024 a q b (omega arith) first

    kept : Kept freed_both.console (puts text 0x0C freed_both.console)
    kept =
        puts-Kept text 0x0C freed_both.console (without_backspace-NoBackspace text refl) (record {
          bound = omega (arith, same_cursor, v.bound);
          cell = omega (arith, same_cursor, v.cell);
        })
