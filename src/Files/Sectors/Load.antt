-- ===== src/Files/Sectors/Load.antt =====
-- What LoadSectorMap and LoadFSRootDirectory bring in.
use red_fox32_old.Base.{
  ℕ, ◌+◌, ◌<◌, ◌≡◌, ◌∙◌, refl, arith, leb, ltb, ◌&&◌, if◌then◌else◌, get_or, replicate,
  length-replicate, get_or-fill_range,
}
use red_fox32_old.Machine.Memory.{Memory}
use red_fox32_old.Files.{memory, buffer, FdcInterface, IsLawful}
use red_fox32_old.Files.Copy.{copy, copy-at}
use red_fox32_old.Files.Sectors.{
  FileSystem, load16, sector_map_lba, sector_map_size, byte_of, load_sector_map,
  load_fs_root_directory, fs_root_directory_lba,
}

inside : (k a b : ℕ) → k < 360 → (if leb 0 k && ltb k (0 + 360) then a else b) ≡ a
inside k a b small = ground arith

-- What the map is after it has been loaded.
module _ (d : FdcInterface) (law : IsLawful d) (f : FileSystem)
    (lt : sector_map_lba (memory f.station) < 2880) where
  loaded : Memory
  loaded =
      copy sector_map_size 0
        (λ m i. memory (d.read_lba (sector_map_lba (memory f.station)) f.station) (buffer + i))
        (byte_of f.sector_map)

  loaded-at :
      (i : ℕ)
      → i < sector_map_size
      → loaded i ≡ f.station.disk (sector_map_lba (memory f.station)) i
  unfolding loaded
  loaded-at i small =
      copy-at sector_map_size 0
        (λ m i. memory (d.read_lba (sector_map_lba (memory f.station)) f.station) (buffer + i))
        (omega arith) (λ m i j v p q. refl) (byte_of f.sector_map) i
      ∙ ground
          (arith, law.read_buffer (sector_map_lba (memory f.station)) i f.station lt (omega arith))

  pub load_sector_map-groups :
      (k : ℕ)
      → k < 360
      → get_or (load_sector_map d f).sector_map.sector_groups k 0
        ≡ f.station.disk (sector_map_lba (memory f.station)) k
  unfolding load_sector_map loaded
  load_sector_map-groups k small =
      get_or-fill_range 360 0 loaded (replicate 360 0) k 0
        (omega (arith, length-replicate {A = ℕ} 360 0))
      ∙ inside k (loaded k) _ small
      ∙ loaded-at k (omega arith)

  pub load_sector_map-counts :
      ((load_sector_map d f).sector_map.used_sectors
        ≡ load16 (f.station.disk (sector_map_lba (memory f.station))) 360)
      × ((load_sector_map d f).sector_map.free_sectors
          ≡ load16 (f.station.disk (sector_map_lba (memory f.station))) 362)
  unfolding load_sector_map loaded
  load_sector_map-counts = (
    ground (arith, loaded-at 360 (omega arith), loaded-at 361 (omega arith)),
    ground (arith, loaded-at 362 (omega arith), loaded-at 363 (omega arith)),
  )

-- The directory is the bytes of its sector.
pub load_fs_root_directory-bytes :
    (d : FdcInterface) (f : FileSystem) (k : ℕ)
    → IsLawful d
    → fs_root_directory_lba (memory f.station) < 2880
    → k < 512
    → (load_fs_root_directory d f).root_directory k
      ≡ f.station.disk (fs_root_directory_lba (memory f.station)) k
unfolding load_fs_root_directory
load_fs_root_directory-bytes d f k law lt small =
    let l = fs_root_directory_lba (memory f.station) in
    copy-at 512 0 (λ m i. memory (d.read_lba l f.station) (buffer + i)) (omega arith)
      (λ m i j v p q. refl) f.root_directory k
    ∙ ground (arith, law.read_buffer l k f.station lt small)

-- The machine after the two calls, and what they leave alone.
pub load_fs_root_directory-station :
    (d : FdcInterface) (f : FileSystem)
    → (load_fs_root_directory d f).station
      ≡ d.read_lba (fs_root_directory_lba (memory f.station)) f.station
unfolding load_fs_root_directory
load_fs_root_directory-station d f = refl

pub load_sector_map-station :
    (d : FdcInterface) (f : FileSystem)
    → (load_sector_map d f).station ≡ d.read_lba (sector_map_lba (memory f.station)) f.station
unfolding load_sector_map
load_sector_map-station d f = refl

pub load_sector_map-directory :
    (d : FdcInterface) (f : FileSystem) → (load_sector_map d f).root_directory ≡ f.root_directory
unfolding load_sector_map
load_sector_map-directory d f = refl
