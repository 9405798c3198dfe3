-- ===== src/Files/Directory.antt =====
-- ReadDirectory of the earlier kernel's FileSystem.c.
pub mod Chain
use red_fox32_old.Base.{
  ℕ, zero, suc, ◌+◌, ◌-◌, ◌*◌, ◌/◌, ◌%◌, ◌^◌, ◌≤◌, ◌<◌, ◌≡◌, ◌≢◌, ◌⊎◌, ◌∙◌, ap, ap₂, sym, subst,
  refl, inl, inr, arith, leb, ltb, ◌&&◌, ◌==◌, if◌then◌else◌, not, Bool, true, false, Option, none,
  some, add32, ==_false, ℕ_discrete, List, [], ◌∷◌, length, Bool-cases, lt→ltb,
}
use red_fox32_old.Machine.Memory.{Memory, poke}
use red_fox32_old.Stage2.SectorMap.{name_compare, name_compare_same}
use red_fox32_old.Files.{Station, memory, with_memory, buffer, FdcInterface, IsLawful}
use red_fox32_old.Files.Copy.{copy, copy-at}
use red_fox32_old.Files.Sectors.{load16}

-- `for (k = i; k < i + n; k++) if (test(k)) ...`, which leaves at the first such k.
pub first : (n i : ℕ) → (ℕ → Bool) → Option ℕ
first zero i test = none
first (suc n) i test = let rest = first n (i + 1) test in if test i then some i else rest

-- A directory descriptor is its 512 bytes: 51 file descriptors of 10 bytes, and the next sector.
abbrev pub file_name : Memory → (file : ℕ) → Memory
file_name dir i k = dir (10 * i + k)

-- The sixth bit of the attributes.
abbrev pub is_directory : Memory → (file : ℕ) → Bool
is_directory dir i = not (dir (10 * i + 5) / 32 % 2 == 0)

abbrev pub start_sector : Memory → (file : ℕ) → ℕ
start_sector dir i = load16 dir (10 * i + 6)

abbrev pub sector_count : Memory → (file : ℕ) → ℕ
sector_count dir i = load16 dir (10 * i + 8)

abbrev pub next_descriptor_lba : Memory → ℕ
next_descriptor_lba dir = load16 dir 510

abbrev pub has_name : Memory → (name : Memory) → (file : ℕ) → Bool
has_name dir name i = not (name_compare (file_name dir i) name == 0)

abbrev pub is_entry : Memory → (name : Memory) → (file : ℕ) → Bool
is_entry dir name i = is_directory dir i && has_name dir name i

-- The loop that is to bring the directory in: it counts the file, not the byte.
enter_loop : (fuel c i : ℕ) → (source dir : Memory) → Option Memory
enter_loop zero c i source dir = none
enter_loop (suc fuel) c i source dir =
    let rest = enter_loop fuel c (add32 i 1) source (poke dir c (source c)) in
    if ltb c 512 then rest else some dir

-- A unit of fuel for a round of a loop and for a call.
pub read_directory :
    (fuel : ℕ) → FdcInterface → (name dir : Memory) → Station → Option (Memory × Station)
unfolding enter_loop
read_directory zero d name dir s = none
read_directory (suc fuel) d name dir s =
    let s' = d.read_lba (next_descriptor_lba dir) s in
    let source : Memory = λ c. memory s' (buffer + c) in
    let rest = read_directory fuel d name (copy 512 0 (λ m c. source c) dir) s' in
    elim (first 51 0 (is_entry dir name)) [
      | some i ↦ elim (enter_loop fuel 0 i source dir) [ some dir' ↦ some (dir', s') | none ↦ none ]
      | none ↦ if next_descriptor_lba dir == 0 then some (dir, s) else rest
    ]

pub first-some :
    (n i j : ℕ) (test : ℕ → Bool)
    → i ≤ j
    → j < i + n
    → test j ≡ true
    → ((k : ℕ) → i ≤ k → k < j → test k ≡ false)
    → first n i test ≡ some j
unfolding first
first-some zero i j test le lt h before = ground arith
first-some (suc n) i j test le lt h before = elim (ℕ_discrete i j) [
  | yes e ↦ rw (e, h)
  | no ne ↦ rw (before i (omega arith) (omega arith)) (
      first-some n (i + 1) j test (omega arith) (omega arith) h (λ k p q. before k (omega arith) q))
]

pub first-none :
    (n i : ℕ) (test : ℕ → Bool)
    → ((k : ℕ) → i ≤ k → k < i + n → test k ≡ false)
    → first n i test ≡ none
unfolding first
first-none zero i test h = refl
first-none (suc n) i test h =
    rw (h i (omega arith) (omega arith))
      (first-none n (i + 1) test (λ k p q. h k (omega arith) (omega arith)))

first-found :
    (n i j : ℕ) (test : ℕ → Bool)
    → i ≤ j
    → j < i + n
    → test j ≡ true
    → (k : ℕ) × (first n i test ≡ some k)
unfolding first
first-found zero i j test le lt h = ground arith
first-found (suc n) i j test le lt h = elim (Bool-cases (test i)) [
  | inl e ↦ (i, rw e)
  | inr e ↦
      let later : i ≢ j = λ same. ground (arith, subst (λ k. test k ≡ false) same e) in
      let found = first-found n (i + 1) j test (omega (arith, later)) (omega arith) h in
      (found.0, rw e found.1)
]

enter_loop-none :
    (fuel c i : ℕ) (source dir : Memory) → c < 512 → enter_loop fuel c i source dir ≡ none
unfolding enter_loop
enter_loop-none zero c i source dir lt = refl
enter_loop-none (suc fuel) c i source dir lt =
    rw (lt→ltb c 512 lt) (enter_loop-none fuel c (add32 i 1) source (poke dir c (source c)) lt)

-- Where a file of the descriptor is a directory of the name, ReadDirectory does not return, however
-- long it runs.
pub read_directory-stuck :
    (fuel : ℕ) (d : FdcInterface) (name dir : Memory) (s : Station) (i : ℕ)
    → i < 51
    → is_entry dir name i ≡ true
    → read_directory fuel d name dir s ≡ none
unfolding read_directory
read_directory-stuck zero d name dir s i lt e = refl
read_directory-stuck (suc fuel) d name dir s i lt e =
    let found = first-found 51 0 i (is_entry dir name) (omega arith) lt e in
    rw (
      found.1,
      read_directory,
      enter_loop-none fuel 0 found.0
          (λ c. memory (d.read_lba (next_descriptor_lba dir) s) (buffer + c)) dir (omega arith),
    )
