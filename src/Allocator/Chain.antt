-- ===== src/Allocator/Chain.antt =====
-- The list of headers that the allocator of Memory.c keeps in memory.
use red_fox32_old.Base.{
  ℕ, ◌+◌, ◌%◌, ◌≤◌, ◌<◌, ◌≡◌, ◌≢◌, ◌∙◌, ap, sym, subst, refl, inl, inr, ◌⊎◌, arith, Bool, true,
  word, List, [], ◌∷◌, ◌++◌, if◌then◌else◌, length,
}
use red_fox32_old.Machine.Memory.{Memory, load32, load32-eq}
use red_fox32_old.Allocator.{
  Allocator, heap, memory_management_setup, memory_start, allocation_header_magic, previous_offset,
  next_offset, length_offset, flags_offset, header_size,
}

-- What the allocator has handed out: a block of `extent` bytes, of which the header admits
-- `size`, in use or freed.
pub record Block : Type 0 where
  pub extent : ℕ
  pub size : ℕ
  pub live : Bool

abbrev pub fresh_block : ℕ → Block
fresh_block size = record { extent = size; size = size; live = true }

-- From one header to the next.
abbrev pub stride : Block → ℕ
stride b = b.extent + header_size + 1

-- The header at `at` describes the block; `previous` is the header before it.
pub record IsHeader (m : Memory) (previous at : ℕ) (b : Block) : Type 0 where
  pub magic :
      load32 m at ≡ (if b.live then allocation_header_magic else allocation_header_magic + 1)
  pub back : load32 m (at + previous_offset) ≡ previous
  pub size : load32 m (at + length_offset) ≡ b.size
  pub flags : m (at + flags_offset) ≡ (if b.live then 1 else 0)
  pub fits : b.size ≤ b.extent

-- A header with another behind it points to that.
abbrev pub Next : Memory → ℕ → Block → List Block → Type 0
Next m at b [] = Unit {0}
Next m at b (c ∷ bs) = load32 m (at + next_offset) ≡ at + stride b

-- The blocks stand one behind the other from `at` on, up to `end`, linked both ways; `last` is the
-- last header, or `previous` if there is none.
abbrev pub Chain : Memory → (previous at : ℕ) → List Block → (last end : ℕ) → Type 0
Chain m previous at [] last end = (last ≡ previous) × (end ≡ at)
Chain m previous at (b ∷ bs) last end =
    IsHeader m previous at b × Next m at b bs × Chain m at (at + stride b) bs last end

-- The chain lies below its end, and so does its last header.
pub Chain-bounds :
    (m : Memory) (previous at : ℕ) (b : Block) (bs : List Block) (last end : ℕ)
    → Chain m previous at (b ∷ bs) last end
    → (at ≤ last) × (last + header_size < end)
Chain-bounds m previous at b [] last end c = (omega arith, omega arith)
Chain-bounds m previous at b (c ∷ bs) last end k =
    let r = Chain-bounds m at (at + stride b) c bs last end k.2 in (omega arith, omega arith)

-- Two memories that agree from `lo` up to `hi`, the `Next` field of the header at `last` excepted.
abbrev pub Agree : (m m' : Memory) (lo hi last : ℕ) → Type 0
Agree m m' lo hi last = (x : ℕ) → lo ≤ x → x < hi → (x < last + 8) ⊎ (last + 12 ≤ x) → m' x ≡ m x

pub load32-Agree :
    (m m' : Memory) (lo hi last a : ℕ)
    → Agree m m' lo hi last
    → lo ≤ a
    → a + 4 ≤ hi
    → (a + 4 ≤ last + 8) ⊎ (last + 12 ≤ a)
    → load32 m' a ≡ load32 m a
load32-Agree m m' lo hi last a same l h out =
    ground (arith, same a, same (a + 1), same (a + 2), same (a + 3), load32-eq m a, load32-eq m' a)

IsHeader-move :
    (m : Memory) (b : Block) {p q a c : ℕ} → p ≡ q → a ≡ c → IsHeader m p a b → IsHeader m q c b
IsHeader-move m b {q = q} {a = a} e f k =
    subst (λ x. IsHeader m q x b) f (subst (λ x. IsHeader m x a b) e k)

pub IsHeader-Agree :
    (m m' : Memory) (previous at hi last : ℕ) (b : Block)
    → Agree m m' at hi last
    → at + header_size ≤ hi
    → (last ≡ at) ⊎ (at + header_size ≤ last)
    → IsHeader m previous at b
    → IsHeader m' previous at b
IsHeader-Agree m m' previous at hi last b same h l k = record {
  magic = load32-Agree m m' at hi last at same (omega arith) (omega arith) (omega arith) ∙ k.magic;
  back =
      load32-Agree m m' at hi last (at + 4) same (omega arith) (omega arith) (omega arith) ∙ k.back;
  size =
      load32-Agree m m' at hi last (at + 12) same (omega arith) (omega arith) (omega arith)
      ∙ k.size;
  flags = same (at + 16) (omega arith) (omega arith) (omega arith) ∙ k.flags;
  fits = k.fits;
}

Agree-from :
    (m m' : Memory) (lo mid hi last : ℕ) → lo ≤ mid → Agree m m' lo hi last → Agree m m' mid hi last
Agree-from m m' lo mid hi last h same x a b o = same x (omega arith) b o

-- The last header of a chain that has one points to `end`.
abbrev pub Linked : Memory → List Block → (last end : ℕ) → Type 0
Linked m [] last end = Unit {0}
Linked m (b ∷ bs) last end = load32 m (last + next_offset) ≡ end

-- A chain grows by a block: the memory agrees below its end but for the last link, which leads to
-- the new header.
pub Chain-grow :
    (m m' : Memory) (previous at : ℕ) (bs : List Block) (last end : ℕ) (b : Block)
    → Chain m previous at bs last end
    → Agree m m' at end last
    → Linked m' bs last end
    → IsHeader m' last end b
    → Chain m' previous at (bs ++ b ∷ []) end (end + stride b)
Chain-grow m m' previous at [] last end b c same linked k =
    (IsHeader-move m' b c.0 c.1 k, tt, (c.1, omega arith))
Chain-grow m m' previous at (d ∷ []) last end b c same linked k = (
  IsHeader-Agree m m' previous at end last d same (omega arith) (inl c.2.0) c.0,
  ap (λ l. load32 m' (l + next_offset)) (sym c.2.0) ∙ linked ∙ c.2.1,
  (IsHeader-move m' b c.2.0 c.2.1 k, tt, (c.2.1, omega arith)),
)
Chain-grow m m' previous at (d ∷ e ∷ bs) last end b c same linked k =
    let lo = Chain-bounds m at (at + stride d) e bs last end c.2 in
    (
      IsHeader-Agree m m' previous at end last d same (omega arith) (inr (omega arith)) c.0,
      load32-Agree m m' at end last (at + next_offset) same (omega arith) (omega arith)
            (inl (omega arith))
          ∙ c.1,
      Chain-grow m m' at (at + stride d) (e ∷ bs) last end b c.2
          (Agree-from m m' at (at + stride d) end last (omega arith) same) linked k,
    )

-- The invariant of the allocator: its blocks form a chain from the start of the memory up to the
-- next position, and the static variables describe that chain.
abbrev pub last_header : Allocator → List Block → ℕ
last_header a [] = 0
last_header a (b ∷ bs) = a.last

pub record IsHeap (a : Allocator) (bs : List Block) : Type 0 where
  pub chain : Chain (heap a) 0 memory_start bs (last_header a bs) a.next_allocation_position
  pub head : (bs ≢ []) → a.first ≡ memory_start
  pub count : a.num_allocs ≡ length bs % word
  pub room : a.next_allocation_position < word

-- Setting up the allocator makes an empty heap, if nothing has been allocated before.
pub setup-IsHeap :
    (mmap : ℕ) (a : Allocator) → a.num_allocs ≡ 0 → IsHeap (memory_management_setup mmap a) []
unfolding memory_management_setup
setup-IsHeap mmap a h = record {
  chain = (refl, refl);
  head = λ n. absurd (n refl);
  count = ground arith;
  room = omega arith;
}
