-- ===== src/Files/Sectors.antt =====
-- FileSystem.c of the earlier kernel: its state, and how the root directory and the map of the sectors
-- come from the disk and go back to it.
pub mod Write
pub mod Load
pub mod RoundTrip
use red_fox32_old.Base.{
  ℕ, ◌+◌, ◌-◌, ◌*◌, ◌/◌, ◌%◌, ◌^◌, ◌<◌, ◌≡◌, ◌∙◌, ap, refl, inl, ap₂, arith, leb, ltb, ◌&&◌, ◌==◌,
  if◌then◌else◌, dec_lt, ℕ_discrete, ==_false, get_or, replicate, fill_range, length-replicate,
  get_or-fill_range,
}
use red_fox32_old.Machine.Memory.{Memory}
use red_fox32_old.Stage2.SectorMap.{SectorMap, get_sector_status, get_sector_status_same}
use red_fox32_old.Files.{Station, memory, with_memory, buffer, FdcInterface, IsLawful}
use red_fox32_old.Files.Copy.{copy, copy-at}

-- The static variables, next to the machine; the directory is its 512 bytes.
pub record FileSystem : Type 0 where
  pub station : Station
  pub sector_map : SectorMap
  pub root_directory : Memory

-- An `unsigned short` of a packed struct.
abbrev pub load16 : Memory → ℕ → ℕ
load16 m a = m a + 256 * m (a + 1)

-- The two sectors that the first sector of the disk, left at 0x7C00, names.
abbrev pub fs_root_directory_lba : Memory → ℕ
fs_root_directory_lba m = load16 m (0x7C00 + 11)

abbrev pub sector_map_lba : Memory → ℕ
sector_map_lba m = load16 m (0x7C00 + 13)

abbrev pub sector_map_size : ℕ
sector_map_size = 364

-- The bytes of the struct, and the struct of the bytes.
abbrev pub byte_of : SectorMap → Memory
byte_of t i =
    if ltb i 360
    then get_or t.sector_groups i 0
    else if i == 360
    then t.used_sectors % 256
    else if i == 361
    then t.used_sectors / 256 % 256
    else if i == 362
    then t.free_sectors % 256
    else t.free_sectors / 256 % 256

abbrev pub sector_map_of : Memory → SectorMap
sector_map_of m = record {
  sector_groups = fill_range 360 0 m (replicate 360 0);
  used_sectors = load16 m 360;
  free_sectors = load16 m 362;
}

pub load_sector_map : FdcInterface → FileSystem → FileSystem
load_sector_map d f =
    let s = d.read_lba (sector_map_lba (memory f.station)) f.station in
    record f {
      station = s;
      sector_map =
          sector_map_of
            (copy sector_map_size 0 (λ m i. memory s (buffer + i)) (byte_of f.sector_map));
    }

pub load_fs_root_directory : FdcInterface → FileSystem → FileSystem
load_fs_root_directory d f =
    let s = d.read_lba (fs_root_directory_lba (memory f.station)) f.station in
    record f {
      station = s;
      root_directory = copy 512 0 (λ m i. memory s (buffer + i)) f.root_directory;
    }

pub write_sector_map_changes : FdcInterface → FileSystem → FileSystem
write_sector_map_changes d f =
    let s1 = d.read_lba (sector_map_lba (memory f.station)) f.station in
    let s2 =
      with_memory (copy sector_map_size buffer (λ m i. byte_of f.sector_map i) (memory s1)) s1 in
    record f { station = d.write_lba (sector_map_lba (memory s2)) s2 }
