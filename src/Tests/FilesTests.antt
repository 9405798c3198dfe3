-- ===== src/Tests/FilesTests.antt =====
-- The loader and the file system of the earlier kernel with a disk that behaves.
use red_fox32_old.Base.{
  ℕ, ◌+◌, ◌*◌, ◌%◌, ◌<◌, ◌≡◌, refl, arith, [], ◌∷◌, true, ◌==◌, if◌then◌else◌, Option, none, some,
  inr, not, ap,
}
use red_fox32_old.Machine.Memory.{Memory}
use red_fox32_old.Stage2.SectorMap.{get_sector_status, name_compare_equal}
use red_fox32_old.Files.{Station, memory, plain_drive, plain_drive-IsLawful}
use red_fox32_old.Files.Sectors.{FileSystem, load_sector_map, write_sector_map_changes}
use red_fox32_old.Files.Sectors.RoundTrip.{load_sector_map-write_sector_map_changes}
use red_fox32_old.Files.Directory.{read_directory, read_directory-stuck, has_name}
use red_fox32_old.Files.Directory.Chain.{Lacks, Chained, read_directory-last}
use red_fox32_old.Files.Reading.{File, announce, read_file}
use red_fox32_old.Files.Reading.Plain.{Gives}
use red_fox32_old.Files.Reading.Rooted.{IsRooted, read_file-rooted}

-- The first sector names the sector 2 for the map.
abbrev machine : Station
machine = record {
  screen = record { memory = λ x. if x == 0x7C0D then 2 else 0; screen_pos = 0 };
  disk = λ l i. if l == 7 then 0 else (l + i) % 256;
}

-- One file, of two sectors from 40 on.
abbrev root : Memory
root k = if k == 0 then b'A' else if k == 6 then 40 else if k == 8 then 2 else 0

abbrev system : FileSystem
system = record {
  station = machine;
  sector_map = record { sector_groups = 0xF0 ∷ 0x0F ∷ []; used_sectors = 8; free_sectors = 8 };
  root_directory = root;
}

load_sector_map-write_sector_map_changes_example :
    let t =
      (load_sector_map plain_drive (write_sector_map_changes plain_drive system)).sector_map in
    (get_sector_status 12 t ≡ get_sector_status 12 system.sector_map)
    × (t.used_sectors ≡ 8)
    × (t.free_sectors ≡ 8)
load_sector_map-write_sector_map_changes_example =
    load_sector_map-write_sector_map_changes plain_drive system 12 plain_drive-IsLawful
      (record { bound = omega arith; cell = refl }) (omega arith)
      (record { used = omega arith; free = omega arith }) (omega arith)

abbrev name : Memory
name k = if k == 0 then b'A' else 0

-- The first file is a directory.
abbrev with_directory : Memory
with_directory k = if k == 0 then b'A' else if k == 5 then 0x20 else 0

same_name : has_name with_directory name 0 ≡ true
same_name =
    ap (λ n. not (n == 0))
      (name_compare_equal (λ k. with_directory (10 * 0 + k)) name (λ k lt. ground arith))

read_directory-stuck_example : read_directory 1000 plain_drive name with_directory machine ≡ none
read_directory-stuck_example =
    read_directory-stuck 1000 plain_drive name with_directory machine 0 (omega arith) same_name

-- Two descriptors without directories, the second at the sector 7.
abbrev linked : Memory
linked k = if k == 510 then 7 else 0

linked-Lacks : Lacks linked name
linked-Lacks i lt = ground arith

read_directory-last_example :
    (dir' : Memory) × (s' : Station) × (read_directory 2 plain_drive name linked machine
      ≡ some (dir', s'))
    × ((k : ℕ) → k < 512 → dir' k ≡ machine.disk 7 k)
    × ((j i : ℕ) → s'.disk j i ≡ machine.disk j i)
unfolding Chained
read_directory-last_example =
    read_directory-last 2 plain_drive name linked machine (7 ∷ []) plain_drive-IsLawful
      (linked-Lacks, refl, omega arith, omega arith, (λ i lt. refl, refl)) (omega arith)

-- An allocator with one block, which it gives whole.
abbrev one_block : ℕ → Station → Option (ℕ × Station)
one_block n s = if n == 1024 then some (0x200000, s) else none

one_block-Gives : (s : Station) → Gives one_block 1024 s 0x200000 s
one_block-Gives s = record {
  gives = refl;
  fits = omega arith;
  away = inr (omega arith);
  same = λ j i. refl;
}

abbrev no_file : File
no_file = record { descriptor = λ k. 0; file_data = 0; size = 0 }

-- The same name behind a slash.
abbrev rooted : Memory
rooted k = if k == 0 then b'/' else if k == 1 then b'A' else 0

rooted-IsRooted : IsRooted rooted 1
rooted-IsRooted = record {
  slash = refl;
  name = record { ends = refl; inner = λ k lt. (ground arith, ground arith) };
}

root-Lacks : Lacks root (λ k. rooted (1 + k))
root-Lacks i lt = ground arith

same_behind : has_name root (λ k. rooted (1 + k)) 0 ≡ true
same_behind =
    ap (λ n. not (n == 0))
      (name_compare_equal (λ k. root (10 * 0 + k)) (λ k. rooted (1 + k)) (λ k lt. ground arith))

read_file-rooted_example :
    (path' : Memory) × (f' : File) × (s' : Station) × (read_file 9 plain_drive one_block 0 0 rooted
        no_file system
      ≡ some (f', path', (announce 0 machine).0, s'))
    × (f'.size ≡ 1024)
    × (f'.file_data ≡ 0x200000)
    × ((j : ℕ) → j < 10 → f'.descriptor j ≡ root (10 * 0 + j))
    × ((k : ℕ) → k < 512 → memory s' (0x200000 + k) ≡ machine.disk 41 k)
read_file-rooted_example =
    read_file-rooted 9 1 0 0 1 0 0x200000 plain_drive one_block rooted no_file system
      (announce 0 machine).1 plain_drive-IsLawful (one_block-Gives (announce 0 machine).1)
      rooted-IsRooted (omega arith) root-Lacks refl (omega arith) same_behind
      (λ j lt. absurd (omega (arith, lt))) refl (omega arith) (omega arith)
