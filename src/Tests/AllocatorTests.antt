-- ===== src/Tests/AllocatorTests.antt =====
-- Memory.c on a memory of zeros, whose map has no entries.
use red_fox32_old.Base.{
  ◌%◌, ◌⊎◌, ◌^◌, ℕ, ◌+◌, ◌≤◌, ◌<◌, ◌≡◌, refl, arith, [], ◌∷◌, if◌then◌else◌, ◌==◌, ◌∙◌, ap,
}
use red_fox32_old.Machine.Memory.{load32, store32}
use red_fox32_old.Allocator.{
  Allocator, heap, memory_start, header_size, allocate, malloc, free, realloc, load_entry,
  move_from, ◌>>=◌, set_length, returned, halted, num_entries, out_of_memory,
}
use red_fox32_old.Allocator.Check.{Returns, malloc-places, malloc-decides, IsManaged}
use red_fox32_old.Allocator.Stuck.{malloc-stuck}
use red_fox32_old.Allocator.Chain.{fresh_block, stride, IsHeap}
use red_fox32_old.Allocator.Place.{allocate-IsHeap}
use red_fox32_old.Allocator.Malloc.{malloc-IsHeap, malloc_wraps}
use red_fox32_old.Allocator.Free.{freed, free-IsHeap}
use red_fox32_old.Allocator.Realloc.{resized, realloc-IsHeap, realloc_overlaps, realloc-moves}
use red_fox32_old.Console.Putch.{IsOnScreen}
use red_fox32_old.Kernel.{use_blocks}
use red_fox32_old.Kernel.Blocks.{use_blocks-IsHeap}
use red_fox32_old.Allocator.Realloc.Move.{realloc_moves_without_data}

abbrev unused : Allocator
unused = record {
  console = record { memory = λ _. 0; screen_pos = 0 };
  memory_mmap = 0;
  next_allocation_position = 0;
  first = 0;
  last = 0;
  num_allocs = 0;
}

-- The allocator behind its setup, and the same with an empty map.
abbrev empty : Allocator
empty = record unused { next_allocation_position = memory_start }

empty-IsHeap : IsHeap empty []
empty-IsHeap = record {
  chain = (refl, refl);
  head = λ n. absurd (n refl);
  count = refl;
  room = omega arith;
}

no_entries : (j : ℕ) → ¬ (j < num_entries empty)
unfolding load32
no_entries j h = omega arith

-- A block of 100 bytes, and one of 50 behind it.
abbrev one : Allocator
one = allocate 100 empty

abbrev two : Allocator
two = allocate 50 one

one-IsHeap : IsHeap one (fresh_block 100 ∷ [])
one-IsHeap = allocate-IsHeap empty [] 100 empty-IsHeap (omega arith)

two-IsHeap : IsHeap two (fresh_block 100 ∷ fresh_block 50 ∷ [])
unfolding allocate
two-IsHeap = allocate-IsHeap one (fresh_block 100 ∷ []) 50 one-IsHeap (omega arith)

no_entries_two : (j : ℕ) → ¬ (j < num_entries two)
unfolding load32 allocate store32
no_entries_two j h = omega arith

malloc_100 : malloc 10 100 empty ≡ returned (memory_start + header_size) one
unfolding load32
malloc_100 =
    malloc-places 10 100 empty (omega arith) (refl, refl) (λ j h. absurd (no_entries j h))
      (omega arith)

-- The map has one entry, 256 bytes from the start of the memory on.
abbrev mapped : Allocator
mapped = record empty {
  console = record {
    memory = λ b.
        if b == 0
        then 1
        else if b == 4
        then 16
        else if b == 17
        then 0x50
        else if b == 18
        then 0x10
        else if b == 25
        then 1
        else 0;
    screen_pos = 0;
  };
}

-- The position is above 2 MB.
abbrev high : Allocator
high = record empty { next_allocation_position = 0x200000 }

malloc-IsHeap_example :
    (memory_start + header_size ≡ memory_start + header_size) × IsHeap one (fresh_block 100 ∷ [])
malloc-IsHeap_example =
    malloc-IsHeap 10 100 empty [] (memory_start + header_size) one empty-IsHeap (omega arith)
      (omega arith) malloc_100

malloc-decides_example :
    let p = empty.next_allocation_position in
    (IsManaged p
      × IsManaged ((p + 7) % 2 ^ 32)
      × (malloc 5 7 empty ≡ returned (p + 17) (allocate 7 empty)))
    ⊎ ((¬ (IsManaged p × IsManaged ((p + 7) % 2 ^ 32)))
        × (malloc 5 7 empty ≡ halted (out_of_memory empty)))
unfolding load32
malloc-decides_example =
    malloc-decides 5 7 empty (omega arith) (λ j h. absurd (no_entries j h)) (omega arith)

malloc-stuck_example : ¬ Returns (malloc 100 10 mapped)
unfolding load32 load_entry
malloc-stuck_example = malloc-stuck 100 10 0 mapped (omega arith) (omega arith) refl

malloc_wraps_example :
    (malloc 5 0xFFFFFFFF high ≡ returned (0x200000 + header_size) (allocate 0xFFFFFFFF high))
    × ((allocate 0xFFFFFFFF high).next_allocation_position ≤ 0x200000 + header_size)
unfolding load32
malloc_wraps_example =
    malloc_wraps 5 0xFFFFFFFF high (omega arith) (omega arith) (omega arith)
      (λ j h. absurd (no_entries j h)) (omega arith)

free-IsHeap_example :
    IsHeap (free (memory_start + header_size) one) (freed (fresh_block 100) ∷ [])
    × ((free (memory_start + header_size) one).next_allocation_position
        ≡ one.next_allocation_position)
free-IsHeap_example = free-IsHeap one [] [] (fresh_block 100) one-IsHeap refl

realloc-IsHeap_example :
    (realloc 3 (memory_start + header_size) 40 one
      ≡ returned (memory_start + header_size) (set_length memory_start 40 one))
    × IsHeap (set_length memory_start 40 one) (resized 40 (fresh_block 100) ∷ [])
realloc-IsHeap_example =
    realloc-IsHeap 3 40 one [] [] (fresh_block 100) one-IsHeap refl (omega arith)

enlarged : Allocator
enlarged = set_length memory_start 400 one

no_entries_grown : (j : ℕ) → ¬ (j < num_entries enlarged)
unfolding load32 allocate store32 enlarged
no_entries_grown j h = omega arith

malloc_grown :
    malloc 9 7 enlarged
    ≡ returned (one.next_allocation_position + header_size) (allocate 7 enlarged)
unfolding load32 allocate store32 enlarged
malloc_grown =
    malloc-places 9 7 enlarged (omega arith) (refl, refl) (λ j h. absurd (no_entries_grown j h))
      (omega arith)

realloc_overlaps_example :
    (realloc 3 0x105011 400 one ≡ returned 0x105011 (set_length memory_start 400 one))
    × (0x105011 + header_size < one.next_allocation_position + header_size)
    × (one.next_allocation_position + header_size < 0x105011 + 400 + header_size)
unfolding load32 allocate store32 enlarged
realloc_overlaps_example =
    realloc_overlaps 3 400 9 7 (one.next_allocation_position + header_size) one
      (allocate 7 enlarged) [] (fresh_block 100) one-IsHeap refl refl (omega arith) (omega arith)
      (omega arith) malloc_grown

abbrev moved : Allocator
moved = free (memory_start + header_size) (allocate 200 two)

realloc_200 :
    realloc 9 (memory_start + header_size) 200 two
    ≡ returned (two.next_allocation_position + header_size) moved
unfolding load32 allocate store32
realloc_200 =
    realloc-moves 9 (memory_start + header_size) 200 two refl (omega arith) (omega arith)
    ∙ ap (λ r. r >>= move_from (memory_start + header_size))
        (malloc-places 9 200 two (omega arith) (refl, refl) (λ j h. absurd (no_entries_two j h))
          (omega arith))

realloc_moves_without_data_example :
    (two.next_allocation_position + header_size ≡ two.next_allocation_position + header_size)
    × IsHeap moved (freed (fresh_block 100) ∷ fresh_block 50 ∷ fresh_block 200 ∷ [])
    × (heap moved 0x1050F0 ≡ heap two 0x1050F0)
unfolding allocate
realloc_moves_without_data_example =
    realloc_moves_without_data 9 200 two [] [] (fresh_block 100) (fresh_block 50)
      (two.next_allocation_position + header_size) 0x1050F0 moved two-IsHeap refl (omega arith)
      (omega arith) realloc_200 (omega arith) (omega arith)

abbrev released : Allocator
released = free (memory_start + stride (fresh_block 100) + header_size) two

-- The two blocks of KMain on the empty heap.
abbrev magic : Allocator
magic = allocate 1024 empty

abbrev more : Allocator
more = allocate 1024 magic

first_malloc : malloc 10 1024 empty ≡ returned (memory_start + header_size) magic
unfolding load32
first_malloc =
    malloc-places 10 1024 empty (omega arith) (refl, refl) (λ j h. absurd (no_entries j h))
      (omega arith)

no_entries_magic : (j : ℕ) → ¬ (j < num_entries magic)
unfolding load32 allocate store32
no_entries_magic j h = omega arith

second_malloc :
    malloc 10 1024 magic ≡ returned (memory_start + header_size + 1024 + header_size + 1) more
unfolding load32 allocate store32
second_malloc =
    malloc-places 10 1024 magic (omega arith) (refl, refl) (λ j h. absurd (no_entries_magic j h))
      (omega arith)

room_magic : magic.next_allocation_position + 1024 < 2 ^ 32
unfolding allocate
room_magic = omega arith

use_blocks-IsHeap_example :
    (d : Allocator) × (use_blocks 10 empty ≡ returned tt d)
    × IsHeap d (freed (fresh_block 1024) ∷ freed (fresh_block 1024) ∷ [])
    × IsOnScreen d.console
use_blocks-IsHeap_example =
    use_blocks-IsHeap 10 empty magic more [] (memory_start + header_size)
      (memory_start + header_size + 1024 + header_size + 1) empty-IsHeap
      (record { bound = omega arith; cell = refl }) (omega arith) first_malloc room_magic
      second_malloc
