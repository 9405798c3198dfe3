-- ===== src/Files/Reading.antt =====
-- ReadFile of the earlier kernel's FileSystem.c. `malloc` of that kernel is no part of the repository; the
-- output is that of Kernel/VGA.c, a copy of Video.c.
pub mod Plain
pub mod Rooted
use red_fox32_old.Base.{
  ℕ, zero, suc, ◌+◌, ◌-◌, ◌*◌, ◌/◌, ◌%◌, ◌^◌, ◌≤◌, ◌<◌, ◌≡◌, ◌≢◌, ◌⊎◌, ◌∙◌, ap, ap₂, sym, subst,
  refl, inl, inr, arith, leb, ltb, ◌&&◌, ◌==◌, if◌then◌else◌, not, Bool, true, false, Option, none,
  some, add32, ==_false, ℕ_discrete, List, [], ◌∷◌, codes, word,
}
use red_fox32_old.Base.Partial.{◌>>=◌}
use red_fox32_old.Machine.Memory.{Memory, poke}
use red_fox32_old.Stage2.Screen.{put_string}
use red_fox32_old.Files.{Station, memory, with_memory, buffer, FdcInterface, IsLawful}
use red_fox32_old.Files.Copy.{copy, copy-at}
use red_fox32_old.Files.Sectors.{FileSystem, load16}
use red_fox32_old.Files.Directory.{
  first, first-some, file_name, has_name, read_directory, start_sector, sector_count,
}

-- FILE, with its descriptor as 10 bytes.
pub record File : Type 0 where
  pub descriptor : Memory
  pub file_data : ℕ
  pub size : ℕ

-- `while (*start == '/') start++`
skip_slashes : (fuel : ℕ) → (path : Memory) → (start : ℕ) → Option ℕ
skip_slashes zero path start = none
skip_slashes (suc fuel) path start =
    let rest = skip_slashes fuel path (start + 1) in if path start == b'/' then rest else some start

-- The end of a part of the path, and whether it is the end of the path.
find_end : (fuel : ℕ) → (path : Memory) → (end : ℕ) → Option (ℕ × Bool)
find_end zero path end = none
find_end (suc fuel) path end =
    let rest = find_end fuel path (end + 1) in
    if path end == b'/' then some (end, false) else if path end == 0 then some (end, true) else rest

-- What the loop over the path leaves: the path with its parts ended, the start of the last one, the
-- directory and the machine.
pub record Walk : Type 0 where
  pub path : Memory
  pub dirname_start : ℕ
  pub dir : Memory
  pub station : Station

walk : (fuel : ℕ) → FdcInterface → (in_dir : ℕ) → (dirname_end : ℕ) → Walk → Option Walk
unfolding find_end
walk zero d in_dir dirname_end w = none
walk (suc fuel) d in_dir dirname_end w = elim (in_dir == 0) [
  | false ↦ some w
  | true ↦ do
    (end, last) ← find_end fuel w.path dirname_end
    let path = poke w.path end 0
    elim last [
      | true ↦ some w
      | false ↦ do
        (dir, station) ← read_directory fuel d (λ k. path (w.dirname_start + k)) w.dir w.station
        walk fuel d 0 (end + 1)
            (record { path = path; dirname_start = end + 1; dir = dir; station = station })
    ]
]

abbrev pub read_sector : FdcInterface → (lba start : ℕ) → Station → Station
read_sector d lba start s =
    let s' = d.read_lba lba s in with_memory (copy 512 start (λ m c. m (buffer + c)) (memory s')) s'

-- The sectors from `lba` up to `end`, each to the start of the data.
pub read_sectors : (fuel : ℕ) → FdcInterface → (lba end start : ℕ) → Station → Option Station
read_sectors zero d lba end start s = none
read_sectors (suc fuel) d lba end start s =
    let rest = read_sectors fuel d ((lba + 1) % 2 ^ 16) end start (read_sector d lba start s) in
    if ltb lba end then rest else some s

-- The line that ReadFile prints, at the kernel's own position, and the position behind it.
abbrev pub announce : (screen_pos : ℕ) → Station → ℕ × Station
announce screen_pos s =
    let c =
      put_string (codes "Match!\n") 0x0B (record { memory = memory s; screen_pos = screen_pos }) in
    (c.screen_pos, with_memory c.memory s)

-- The file that matches. `malloc` may not return.
pub read_match :
    (fuel : ℕ)
    → FdcInterface
    → (malloc : ℕ → Station → Option (ℕ × Station)) → (screen_pos i : ℕ) → File
    → Walk
    → Option (File × Memory × ℕ × Station)
unfolding read_sectors
read_match fuel d malloc screen_pos i f w =
    let descriptor = copy 10 0 (λ m j. w.dir (10 * i + j)) f.descriptor in
    let size = sector_count descriptor 0 * 512 in
    do
      (start, s) ← malloc size (announce screen_pos w.station).1
      s' ←
          read_sectors fuel d (start_sector descriptor 0)
            (start_sector descriptor 0 + sector_count descriptor 0) start s
      some (
        record { descriptor = descriptor; file_data = start; size = size },
        w.path,
        (announce screen_pos w.station).0,
        s',
      )

-- The search in the directory for the last part of the path.
pub read_named :
    (fuel : ℕ)
    → FdcInterface
    → (malloc : ℕ → Station → Option (ℕ × Station)) → (screen_pos : ℕ) → File
    → Walk
    → Option (File × Memory × ℕ × Station)
unfolding read_match
read_named fuel d malloc screen_pos f w =
    elim (first 51 0 (has_name w.dir (λ k. w.path (w.dirname_start + k)))) [
      | some i ↦ read_match fuel d malloc screen_pos i f w
      | none ↦ some (f, w.path, screen_pos, w.station)
    ]

-- The file, the path, the position of the kernel's screen and the machine afterwards. `in_dir` is what the
-- variable holds, which is not set before it is read.
pub read_file :
    (fuel : ℕ)
    → FdcInterface
    → (malloc : ℕ → Station → Option (ℕ × Station)) → (screen_pos in_dir : ℕ) → (path : Memory)
    → File
    → FileSystem
    → Option (File × Memory × ℕ × Station)
unfolding skip_slashes walk read_named
read_file fuel d malloc screen_pos in_dir path f fs = do
  start ← skip_slashes fuel path 0
  w ←
      walk fuel d in_dir 0 (record {
        path = path;
        dirname_start = start;
        dir = fs.root_directory;
        station = fs.station;
      })
  read_named fuel d malloc screen_pos f w
