-- ===== src/Files/Reading/Rooted.antt =====
-- ReadFile of a path with a slash at its start, as the earlier kernel calls it.
use red_fox32_old.Base.{
  ℕ, zero, suc, ◌+◌, ◌*◌, ◌≤◌, ◌<◌, ◌≡◌, ◌≢◌, ◌∙◌, ap, fun_ext, sym, subst, refl, arith, ◌==◌,
  if◌then◌else◌, true, false, Option, some, ==_false, ℕ_discrete,
}
use red_fox32_old.Machine.Memory.{Memory, poke}
use red_fox32_old.Files.{Station, memory, FdcInterface, IsLawful}
use red_fox32_old.Files.Sectors.{FileSystem}
use red_fox32_old.Files.Directory.{
  first, first-some, has_name, read_directory, start_sector, sector_count, next_descriptor_lba,
}
use red_fox32_old.Files.Directory.Chain.{Lacks, read_directory_here}
use red_fox32_old.Files.Reading.{File, Walk, find_end, skip_slashes, walk, announce, read_file}
use red_fox32_old.Files.Reading.Plain.{Gives, read_match-last, read_named-found}

-- A path of n characters, none of them a slash.
pub record IsName (path : Memory) (n : ℕ) : Type 0 where
  pub ends : path n ≡ 0
  pub inner : (k : ℕ) → k < n → (path k ≢ 0) × (path k ≢ b'/')

-- A slash and a name.
pub record IsRooted (path : Memory) (n : ℕ) : Type 0 where
  pub slash : path 0 ≡ b'/'
  pub name : IsName (λ k. path (1 + k)) n

skip_slashes-IsRooted :
    (fuel n : ℕ) (path : Memory) → IsRooted path n → 1 < fuel → skip_slashes fuel path 0 ≡ some 1
unfolding skip_slashes
skip_slashes-IsRooted zero n path h lt = ground arith
skip_slashes-IsRooted (suc zero) n path h lt = ground arith
skip_slashes-IsRooted (suc (suc fuel)) zero path h lt = ground (arith, h.slash, h.name.ends)
skip_slashes-IsRooted (suc (suc fuel)) (suc n) path h lt =
    ground (arith, h.slash, (h.name.inner 0 (omega arith)).1)

-- A part of a path from i on, with m characters.
find_end-part :
    (m fuel i : ℕ) (path : Memory)
    → path (i + m) ≡ 0
    → ((k : ℕ) → k < m → (path (i + k) ≢ 0) × (path (i + k) ≢ b'/'))
    → m < fuel
    → find_end fuel path i ≡ some (i + m, true)
unfolding find_end
find_end-part m zero i path e inner lt = ground arith
find_end-part zero (suc fuel) i path e inner lt =
    let here : i + 0 ≡ i = omega arith in
    let ended : path i ≡ 0 = ap path (sym here) ∙ e in rw (ended, here)
find_end-part (suc m) (suc fuel) i path e inner lt =
    let here : i + 0 ≡ i = omega arith in
    let first_char = inner 0 (omega arith) in
    let some_char : path i ≢ 0 = λ z. first_char.0 (ap path here ∙ z) in
    let no_slash : path i ≢ b'/' = λ z. first_char.1 (ap path here ∙ z) in
    let next : (k : ℕ) → i + 1 + k ≡ i + suc k = λ k. omega arith in
    rw (==_false some_char, ==_false no_slash)
      (find_end-part m fuel (i + 1) path (ap path (next m) ∙ e)
          (λ k p. (
            (λ z. (inner (suc k) (omega arith)).0 (ap path (sym (next k)) ∙ z)),
            (λ z. (inner (suc k) (omega arith)).1 (ap path (sym (next k)) ∙ z)),
          ))
          (omega (arith, lt))
        ∙ ap (λ j. some (j, true)) (next m))

-- What the loop leaves: the slash is overwritten if the loop is entered.
left_path : (in_dir : ℕ) → (path : Memory) → Memory
left_path in_dir path = if in_dir == 0 then poke path 0 0 else path

abbrev before : FileSystem → Memory → Walk
before fs path = record {
  path = path;
  dirname_start = 1;
  dir = fs.root_directory;
  station = fs.station;
}

walk_on :
    (fuel : ℕ) (d : FdcInterface) (w : Walk) (end : ℕ) (dir : Memory) (s : Station)
    → find_end fuel w.path 0 ≡ some (end, false)
    → read_directory fuel d (λ k. poke w.path end 0 (w.dirname_start + k)) w.dir w.station
      ≡ some (dir, s)
    → walk (suc fuel) d 0 0 w
      ≡ walk fuel d 0
          (end + 1)
          (record { path = poke w.path end 0; dirname_start = end + 1; dir = dir; station = s })
unfolding walk
walk_on fuel d w end dir s e e' = rw (e, e')

walk_last :
    (fuel : ℕ) (d : FdcInterface) (i end : ℕ) (w : Walk)
    → find_end fuel w.path i ≡ some (end, true)
    → walk (suc fuel) d 0 i w ≡ some w
unfolding walk
walk_last fuel d i end w e = rw e

walk_none :
    (fuel in_dir : ℕ) (d : FdcInterface) (w : Walk)
    → in_dir ≢ 0
    → walk (suc fuel) d in_dir 0 w ≡ some w
unfolding walk
walk_none fuel in_dir d w ne = rw (walk, ==_false ne)

find_end-slash :
    (fuel : ℕ) (path : Memory) → path 0 ≡ b'/' → find_end (suc fuel) path 0 ≡ some (0, false)
unfolding find_end
find_end-slash fuel path e = rw e

-- The name behind the slash, which is not touched.
abbrev pub behind : Memory → Memory
behind path k = path (1 + k)

name_kept : (path : Memory) → behind (poke path 0 0) ≡ behind path
name_kept path = fun_ext (λ k. ground arith)

walk-IsRooted :
    (fuel n in_dir : ℕ) (d : FdcInterface) (path : Memory) (fs : FileSystem)
    → IsRooted path n
    → n + 1 < fuel
    → Lacks fs.root_directory (λ k. path (1 + k))
    → next_descriptor_lba fs.root_directory ≡ 0
    → walk (suc (suc fuel)) d in_dir 0 (before fs path) ≡ some (before fs (left_path in_dir path))
unfolding left_path
walk-IsRooted fuel n in_dir d path fs h lt lacks next = elim (ℕ_discrete in_dir 0) [
  | yes e ↦
      let lacks' : Lacks fs.root_directory (λ k. poke path 0 0 (1 + k)) =
        subst (Lacks fs.root_directory) (sym (name_kept path)) lacks in
      let here =
        read_directory_here (suc fuel) d (λ k. poke path 0 0 (1 + k)) fs.root_directory fs.station
          (omega arith) lacks' next in
      let w : Walk = before fs (poke path 0 0) in
      let ended =
        find_end-part n fuel 1 (poke path 0 0) (ap (λ p. p n) (name_kept path) ∙ h.name.ends)
          (λ k p. (
            (λ z. (h.name.inner k p).0 (ap (λ p. p k) (sym (name_kept path)) ∙ z)),
            (λ z. (h.name.inner k p).1 (ap (λ p. p k) (sym (name_kept path)) ∙ z)),
          ))
          (omega arith) in
      rw e (
        walk_on (suc fuel) d (before fs path) 0 fs.root_directory fs.station
          (find_end-slash fuel path h.slash) here
        ∙ walk_last fuel d 1 (1 + n) w ended)
  | no ne ↦ rw (==_false ne) (walk_none (suc fuel) in_dir d (before fs path) ne)
]

walk_enough :
    (fuel n in_dir : ℕ) (d : FdcInterface) (path : Memory) (fs : FileSystem)
    → IsRooted path n
    → n + 3 < fuel
    → Lacks fs.root_directory (λ k. path (1 + k))
    → next_descriptor_lba fs.root_directory ≡ 0
    → walk fuel d in_dir 0 (before fs path) ≡ some (before fs (left_path in_dir path))
walk_enough zero n in_dir d path fs h lt lacks next = ground arith
walk_enough (suc zero) n in_dir d path fs h lt lacks next = ground arith
walk_enough (suc (suc fuel)) n in_dir d path fs h lt lacks next =
    walk-IsRooted fuel n in_dir d path fs h (omega (arith, lt)) lacks next

left-behind : (in_dir : ℕ) (path : Memory) → behind (left_path in_dir path) ≡ behind path
unfolding left_path
left-behind in_dir path =
    elim (in_dir == 0) as (λ b. behind (if b then poke path 0 0 else path) ≡ behind path) [
      | true ↦ name_kept path
      | false ↦ refl
    ]

-- Through a lawful drive, for a path that is a slash and a name, where the root directory is one
-- descriptor without a directory of that name, ReadFile finds the first file with the name, whatever InDir
-- held, if the file has a sector or more, all on the disk, and if malloc, asked for all its sectors, returns
-- a block away from the buffer of the drive. The file then has the ten bytes of the descriptor, the size of
-- all its sectors and that block, whose first 512 bytes are those of the last sector of the file.
pub read_file-rooted :
    (fuel n screen_pos i c in_dir start : ℕ) (d : FdcInterface)
    (malloc : ℕ → Station → Option (ℕ × Station)) (path : Memory) (f : File) (fs : FileSystem)
    (t : Station)
    → IsLawful d
    → Gives malloc ((c + 1) * 512) (announce screen_pos fs.station).1 start t
    → IsRooted path n
    → n + 3 < fuel
    → Lacks fs.root_directory (λ k. path (1 + k))
    → next_descriptor_lba fs.root_directory ≡ 0
    → i < 51
    → has_name fs.root_directory (λ k. path (1 + k)) i ≡ true
    → ((j : ℕ) → j < i → has_name fs.root_directory (λ k. path (1 + k)) j ≡ false)
    → sector_count fs.root_directory i ≡ c + 1
    → c + 1 < fuel
    → start_sector fs.root_directory i + c + 1 ≤ 2880
    → (path' : Memory) × (f' : File) × (s' : Station) × (read_file fuel d malloc screen_pos in_dir
          path f fs
        ≡ some (f', path', (announce screen_pos fs.station).0, s'))
      × (f'.size ≡ (c + 1) * 512)
      × (f'.file_data ≡ start)
      × ((j : ℕ) → j < 10 → f'.descriptor j ≡ fs.root_directory (10 * i + j))
      × ((k : ℕ)
          → k < 512
          → memory s' (start + k) ≡ fs.station.disk (start_sector fs.root_directory i + c) k)
unfolding read_file
read_file-rooted fuel n screen_pos i c in_dir start d malloc path f fs t law given h lt lacks next
      is_file here earlier count lt' fits =
    let w : Walk = before fs (left_path in_dir path) in
    let found : first 51 0 (has_name fs.root_directory (behind (left_path in_dir path))) ≡ some i =
      ap (λ p. first 51 0 (has_name fs.root_directory p)) (left-behind in_dir path)
      ∙ first-some 51 0 i (has_name fs.root_directory (behind path)) (omega arith) is_file here
          (λ k p q. earlier k q) in
    let (f', s', ran, size, placed, described, last) =
      read_match-last d law malloc fuel screen_pos i c start t f w lt' count fits given in
    let walked : walk fuel d in_dir 0 (before fs path) ≡ some w =
      walk_enough fuel n in_dir d path fs h lt lacks next in
    (
      left_path in_dir path,
      f',
      s',
      rw
          (
            skip_slashes-IsRooted fuel n path h (omega arith),
            walked,
            read_named-found fuel screen_pos i d malloc f w found,
          )
          ran,
      size,
      placed,
      described,
      last,
    )
