-- ===== src/Allocator.antt =====
-- Memory.c and Memory.h: the memory map that the bootloader leaves, and the allocator.
pub mod Check
pub mod Stuck
pub mod Chain
pub mod Place
pub mod Malloc
pub mod Update
pub mod Free
pub mod Realloc
pub mod Display
pub mod Data
pub mod Client
use red_fox32_old.Base.{
  ℕ, zero, suc, ◌+◌, ◌-◌, ◌*◌, ◌/◌, ◌%◌, ◌^◌, Bool, true, false, ◌&&◌, ◌||◌, not, ltb, leb, ◌==◌,
  if◌then◌else◌, word, add32, sub32, codes,
}
use red_fox32_old.Machine.Memory.{Memory, poke, load32, store32}
use red_fox32_old.Console.{Console, puts, putch, putch_hex, newline}

abbrev pub memory_start : ℕ
memory_start = 0x00105000

abbrev pub memory_end : ℕ
memory_end = 0xFFFF0000

abbrev pub allocation_header_magic : ℕ
allocation_header_magic = 0xA110C000

-- The offsets of the packed `struct MemoryAllocation`, and its size without `Data`.
abbrev pub previous_offset : ℕ
previous_offset = 4

abbrev pub next_offset : ℕ
next_offset = 8

abbrev pub length_offset : ℕ
length_offset = 12

abbrev pub flags_offset : ℕ
flags_offset = 16

abbrev pub header_size : ℕ
header_size = 17

-- `struct MemoryMapEntry`, 24 bytes.
pub record MemoryMapEntry : Type 0 where
  pub start : ℕ
  pub length : ℕ
  pub type : ℕ
  pub acpi : ℕ

abbrev pub entry_size : ℕ
entry_size = 24

abbrev load64 : Memory → ℕ → ℕ
load64 m a = load32 m a + word * load32 m (a + 4)

unfoldable pub load_entry : Memory → ℕ → MemoryMapEntry
load_entry m at = record {
  start = load64 m at;
  length = load64 m (at + 8);
  type = load32 m (at + 16);
  acpi = load32 m (at + 20);
}

-- The static variables of Memory.c, with the machine's memory and the screen.
pub record Allocator : Type 0 where
  pub console : Console
  pub memory_mmap : ℕ
  pub next_allocation_position : ℕ
  pub first : ℕ
  pub last : ℕ
  pub num_allocs : ℕ

abbrev pub heap : Allocator → Memory
heap a = a.console.memory

abbrev pub with_heap : Allocator → Memory → Allocator
with_heap a m = record a { console = record a.console { memory = m } }

abbrev pub print : Allocator → Console → Allocator
print a c = record a { console = c }

pub memory_management_setup : ℕ → Allocator → Allocator
memory_management_setup mmap a = record a {
  memory_mmap = mmap;
  next_allocation_position = memory_start;
}

-- `NumEntries` is at the map's address, the pointer `Entries` behind it.
abbrev pub num_entries : Allocator → ℕ
num_entries a = load32 (heap a) a.memory_mmap

-- `Memory_MMAP->Entries+i`
abbrev pub map_entry : Allocator → ℕ → MemoryMapEntry
map_entry a i = load_entry (heap a) (add32 (load32 (heap a) (a.memory_mmap + 4)) (entry_size * i))

-- `(unsigned int)Entry->Start`, and the pointer `Entry->Length` bytes on.
abbrev pub entry_start : MemoryMapEntry → ℕ
entry_start e = e.start % word

abbrev pub entry_end : MemoryMapEntry → ℕ
entry_end e = add32 (entry_start e) e.length

-- The first test of the loop: the entry ends before the position.
abbrev pub ends_before : MemoryMapEntry → ℕ → Bool
ends_before e position = ltb (entry_end e) position

abbrev pub inside : MemoryMapEntry → ℕ → Bool
inside e p = leb (entry_start e) p && leb p (entry_end e)

-- The second test: the position or the end of the allocation lies in the entry.
abbrev pub touches : MemoryMapEntry → (position size : ℕ) → Bool
touches e position size = inside e position || inside e (add32 position size)

-- The tests of the bounds at the head of CanSafelyAllocate.
abbrev pub out_of_bounds : ℕ → Bool
out_of_bounds p = ltb p memory_start || ltb memory_end p

-- A call returns, or the machine halts in it for ever; `out_of_fuel` is a call that has not
-- returned within the fuel.
pub data Outcome (A : Type 0) : Type 0 where
  returned : A → Allocator → Outcome A
  halted : Allocator → Outcome A
  out_of_fuel : Outcome A

infixl 5 ◌>>=◌
abbrev pub ◌>>=◌ : {A B : Type 0} → Outcome A → (A → Allocator → Outcome B) → Outcome B
returned x a >>= k = k x a
halted a >>= k = halted a
out_of_fuel >>= k = out_of_fuel

-- The links of the new header: `Previous`, and the last header's `Next` through it.
abbrev pub link : Allocator → Memory
link a =
    let p = a.next_allocation_position in
    if p == memory_start
    then store32 (heap a) (p + previous_offset) 0
    else let m = store32 (heap a) (p + previous_offset) a.last in
      store32 m (load32 m (p + previous_offset) + next_offset) p

-- The rest of the header.
abbrev pub fill_header : ℕ → ℕ → Memory → Memory
fill_header p size m =
    store32 (poke (store32 m p allocation_header_magic) (p + flags_offset) 1) (p + length_offset)
      size

-- The part of `malloc` behind a positive check.
unfoldable pub allocate : ℕ → Allocator → Allocator
allocate size a =
    let p = a.next_allocation_position in
    record a {
      console = record a.console { memory = fill_header p size (link a) };
      next_allocation_position = add32 p (size + header_size + 1);
      first = if p == memory_start then p else a.first;
      last = p;
      num_allocs = add32 a.num_allocs 1;
    }

abbrev pub out_of_memory : Allocator → Allocator
out_of_memory a = print a (puts (codes "[MALLOC] OUT OF MEMORY!\n") 0x0C a.console)

-- `malloc` behind the check. The loop at its end is the halt.
abbrev pub finish_malloc : ℕ → Bool → Allocator → Outcome ℕ
finish_malloc size safe a =
    if safe
    then returned (a.next_allocation_position + header_size) (allocate size a)
    else halted (out_of_memory a)

-- Each call and each round of the loop takes one unit of fuel. `*Position` is the allocator's
-- position, so that it moves with the nested calls of `malloc`.
mutual
  pub check_entries : ℕ → (size i : ℕ) → Allocator → Outcome Bool
  check_entries zero size i a = out_of_fuel
  check_entries (suc fuel) size i a = elim (ltb i (num_entries a)) [
    | true ↦ elim (ends_before (map_entry a i) a.next_allocation_position) [
      | true ↦ check_entries fuel size (i + 1) a
      | false ↦ elim (touches (map_entry a i) a.next_allocation_position size) [
        | true ↦
            malloc fuel (sub32 (entry_start (map_entry a i)) a.next_allocation_position) a
            >>= λ _ b. check_entries fuel size 0 b
        | false ↦ check_entries fuel size (i + 1) a
      ]
    ]
    | false ↦ returned true a
  ]

  pub can_safely_allocate : ℕ → ℕ → Allocator → Outcome Bool
  can_safely_allocate zero size a = out_of_fuel
  can_safely_allocate (suc fuel) size a = elim (size == 0) [
    | true ↦ returned true a
    | false ↦ elim (out_of_bounds a.next_allocation_position) [
      | true ↦ returned false a
      | false ↦ elim (out_of_bounds (add32 a.next_allocation_position size)) [
        | true ↦ returned false a
        | false ↦ check_entries fuel size 0 a
      ]
    ]
  ]

  pub malloc : ℕ → ℕ → Allocator → Outcome ℕ
  malloc zero size a = out_of_fuel
  malloc (suc fuel) size a = elim (size == 0) [
    | true ↦ returned 0 a
    | false ↦ can_safely_allocate fuel size a >>= finish_malloc size
  ]

-- The header in front of a data pointer.
abbrev pub header_of : ℕ → ℕ
header_of mem = sub32 mem header_size

abbrev pub has_magic : Memory → ℕ → Bool
has_magic m alloc = load32 m alloc == allocation_header_magic

-- `Alloc->Flags = 0; Alloc->AllocationHeader++;`
abbrev pub release : ℕ → Memory → Memory
release alloc m' =
    let m = poke m' (alloc + flags_offset) 0 in store32 m alloc (add32 (load32 m alloc) 1)

pub free : ℕ → Allocator → Allocator
free mem a =
    let alloc = header_of mem in
    if has_magic (heap a) alloc
    then with_heap a (release alloc (heap a))
    else print a (puts (codes "[MEMORY] Invalid free!\n") 0x0C a.console)

abbrev pub set_length : ℕ → ℕ → Allocator → Allocator
set_length alloc size a = with_heap a (store32 (heap a) (alloc + length_offset) size)

-- `realloc` behind its call of `malloc`.
abbrev pub move_from : ℕ → ℕ → Allocator → Outcome ℕ
move_from mem new a = if new == 0 then returned 0 a else returned new (free mem a)

pub realloc : ℕ → (mem size : ℕ) → Allocator → Outcome ℕ
realloc fuel mem size a =
    let alloc = header_of mem in
    if not (has_magic (heap a) alloc)
    then returned 0 a
    else if leb size (load32 (heap a) (alloc + length_offset))
    then returned (alloc + header_size) (set_length alloc size a)
    else if load32 (heap a) (alloc + next_offset) == 0
    then returned (alloc + header_size) (set_length alloc size a)
    else malloc fuel size a >>= move_from mem

-- The number of bytes of the map: the count and the entries.
pub mmap_length : Memory → ℕ → ℕ
mmap_length m mmap = (entry_size * load32 m mmap + 4) % word
