-- ===== src/Files/Directory/Chain.antt =====
-- ReadDirectory along a chain of descriptors that lack the name.
use red_fox32_old.Base.{
  ℕ, zero, suc, ◌+◌, ◌*◌, ◌/◌, ◌%◌, ◌<◌, ◌≡◌, ◌∙◌, ap, ap₂, sym, refl, arith, ◌&&◌, ◌==◌, not,
  false, some, List, [], ◌∷◌, length,
}
use red_fox32_old.Machine.Memory.{Memory}
use red_fox32_old.Stage2.SectorMap.{name_compare_same}
use red_fox32_old.Files.{Station, memory, buffer, FdcInterface, IsLawful}
use red_fox32_old.Files.Copy.{copy, copy-at}
use red_fox32_old.Files.Directory.{
  first-none, has_name, is_entry, file_name, next_descriptor_lba, read_directory,
}

-- No file of the descriptor is a directory of the name.
abbrev pub Lacks : (dir name : Memory) → Type 0
Lacks dir name = (i : ℕ) → i < 51 → is_entry dir name i ≡ false

-- The descriptors of a chain lack the name: one at hand, and those at the sectors.
unfoldable pub Chained : (disk : ℕ → Memory) → (name dir : Memory) → List ℕ → Type 0
Chained disk name dir [] = Lacks dir name × (next_descriptor_lba dir ≡ 0)
Chained disk name dir (l ∷ ls) =
    Lacks dir name
    × (next_descriptor_lba dir ≡ l)
    × (0 < l)
    × (l < 2880)
    × Chained disk name (disk l) ls

abbrev Same : (dir dir' : Memory) → Type 0
Same dir dir' = (k : ℕ) → k < 512 → dir k ≡ dir' k

has_name-Same :
    (dir dir' name : Memory) (i : ℕ)
    → i < 51
    → Same dir dir'
    → has_name dir name i ≡ has_name dir' name i
has_name-Same dir dir' name i lt same =
    ap (λ n. not (n == 0))
      (name_compare_same (file_name dir i) (file_name dir' i) name
        (λ k p. same (10 * i + k) (omega arith)))

Lacks-Same : (dir dir' name : Memory) → Same dir dir' → Lacks dir name → Lacks dir' name
Lacks-Same dir dir' name same h i lt =
    ap₂ (λ b n. not (b / 32 % 2 == 0) && n) (sym (same (10 * i + 5) (omega arith)))
      (sym (has_name-Same dir dir' name i lt same))
    ∙ h i lt

next_descriptor_lba-Same :
    (dir dir' : Memory) → Same dir dir' → next_descriptor_lba dir' ≡ next_descriptor_lba dir
next_descriptor_lba-Same dir dir' same =
    ap₂ (λ a b. a + 256 * b) (sym (same 510 (omega arith))) (sym (same 511 (omega arith)))

Chained-Same :
    (disk disk' : ℕ → Memory) (name dir dir' : Memory) (ls : List ℕ)
    → ((j i : ℕ) → disk j i ≡ disk' j i)
    → Same dir dir'
    → Chained disk name dir ls
    → Chained disk' name dir' ls
unfolding Chained
Chained-Same disk disk' name dir dir' [] on same h =
    (Lacks-Same dir dir' name same h.0, next_descriptor_lba-Same dir dir' same ∙ h.1)
Chained-Same disk disk' name dir dir' (l ∷ ls) on same (lacks, next, some_sector, in_disk, rest) = (
  Lacks-Same dir dir' name same lacks,
  next_descriptor_lba-Same dir dir' same ∙ next,
  some_sector,
  in_disk,
  Chained-Same disk disk' name (disk l) (disk' l) ls on (λ k lt. on l k) rest,
)

-- The descriptor at the end of the chain.
abbrev pub last_of : (disk : ℕ → Memory) → (dir : Memory) → List ℕ → Memory
last_of disk dir [] = dir
last_of disk dir (l ∷ ls) = last_of disk (disk l) ls

last_of-Same :
    (disk disk' : ℕ → Memory) (dir dir' : Memory) (ls : List ℕ)
    → ((j i : ℕ) → disk j i ≡ disk' j i)
    → Same dir dir'
    → Same (last_of disk dir ls) (last_of disk' dir' ls)
last_of-Same disk disk' dir dir' [] on same = same
last_of-Same disk disk' dir dir' (l ∷ ls) on same =
    last_of-Same disk disk' (disk l) (disk' l) ls on (λ k lt. on l k)

-- What the loop brings in behind a read.
pub copied :
    (d : FdcInterface)
    → IsLawful d
    → (l : ℕ) (s : Station) (old : Memory) (k : ℕ) → l < 2880
    → k < 512
    → copy 512 0 (λ m c. memory (d.read_lba l s) (buffer + c)) old k ≡ s.disk l k
copied d law l s old k lt small =
    copy-at 512 0 (λ m c. memory (d.read_lba l s) (buffer + c)) (omega arith) (λ m i j v p q. refl)
      old k
    ∙ ground (arith, law.read_buffer l k s lt small)

-- Through a lawful drive, along a chain of descriptors without a directory of the name,
-- ReadDirectory returns with the 512 bytes of the last descriptor of the chain in place of those
-- that it was given, with nothing that tells that the name was not found, and leaves the disk as
-- it was; a unit of fuel for each descriptor is enough.
pub read_directory-last :
    (fuel : ℕ) (d : FdcInterface) (name dir : Memory) (s : Station) (ls : List ℕ)
    → IsLawful d
    → Chained s.disk name dir ls
    → length ls < fuel
    → (dir' : Memory) × (s' : Station) × (read_directory fuel d name dir s ≡ some (dir', s'))
      × ((k : ℕ) → k < 512 → dir' k ≡ last_of s.disk dir ls k)
      × ((j i : ℕ) → s'.disk j i ≡ s.disk j i)
unfolding read_directory Chained
read_directory-last zero d name dir s ls law h lt = ground arith
read_directory-last (suc fuel) d name dir s [] law (lacks, next) lt = (
  dir,
  s,
  rw (
    first-none 51 0 (is_entry dir name) (λ k p q. lacks k (omega arith)),
    read_directory,
    ap (λ l. l == 0) next,
  ),
  λ k small. refl,
  λ j i. refl,
)
read_directory-last (suc fuel) d name dir s (l ∷ ls) law (lacks, next, some_sector, in_disk, rest)
      lt =
    let s1 = d.read_lba (next_descriptor_lba dir) s in
    let dir1 = copy 512 0 (λ m c. memory s1 (buffer + c)) dir in
    let same_disk : (j i : ℕ) → s1.disk j i ≡ s.disk j i =
      λ j i. law.read_disk (next_descriptor_lba dir) j i s in
    let at_disk : next_descriptor_lba dir < 2880 = omega (arith, next, in_disk) in
    let on : (next_descriptor_lba dir == 0) ≡ false = ground (arith, next, some_sector) in
    let brought : Same (s.disk l) dir1 = λ k p.
      sym (copied d law (next_descriptor_lba dir) s dir k at_disk p ∙ ap (λ j. s.disk j k) next) in
    let more =
      read_directory-last fuel d name dir1 s1 ls law
        (Chained-Same s.disk s1.disk name (s.disk l) dir1 ls (λ j i. sym (same_disk j i)) brought
          rest)
        (omega (arith, lt)) in
    (
      more.0,
      more.1,
      rw (first-none 51 0 (is_entry dir name) (λ k p q. lacks k (omega arith)), read_directory, on)
          more.2,
      λ k small.
          more.3 k small
          ∙ last_of-Same s1.disk s.disk dir1 (s.disk l) ls same_disk (λ k p. sym (brought k p)) k
              small,
      λ j i. more.4 j i ∙ same_disk j i,
    )

-- A descriptor that ends the chain is where the search stays.
pub read_directory_here :
    (fuel : ℕ) (d : FdcInterface) (name dir : Memory) (s : Station)
    → 0 < fuel
    → Lacks dir name
    → next_descriptor_lba dir ≡ 0
    → read_directory fuel d name dir s ≡ some (dir, s)
unfolding read_directory
read_directory_here zero d name dir s lt lacks next = ground arith
read_directory_here (suc fuel) d name dir s lt lacks next = rw (
  first-none 51 0 (is_entry dir name) (λ k p q. lacks k (omega arith)),
  read_directory,
  ap (λ l. l == 0) next,
)
