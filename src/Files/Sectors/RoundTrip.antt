-- ===== src/Files/Sectors/RoundTrip.antt =====
-- The map of the sectors, written and loaded again.
use red_fox32_old.Base.{ℕ, ◌/◌, ◌^◌, ◌<◌, ◌≡◌, ◌∙◌, ap, arith}
use red_fox32_old.Stage2.SectorMap.{SectorMap, get_sector_status, get_sector_status_same}
use red_fox32_old.Files.{memory, FdcInterface, IsLawful}
use red_fox32_old.Stage2.Screen.{IsOnVga}
use red_fox32_old.Files.Sectors.{
  FileSystem, sector_map_lba, sector_map_size, byte_of, load_sector_map, write_sector_map_changes,
}
use red_fox32_old.Files.Sectors.Write.{
  write_sector_map_changes-disk, sector_map_lba-write_sector_map_changes,
}
use red_fox32_old.Files.Sectors.Load.{load_sector_map-groups, load_sector_map-counts}

-- A map whose fields have the size of the struct's.
pub record IsPacked (t : SectorMap) : Type 0 where
  pub used : t.used_sectors < 2 ^ 16
  pub free : t.free_sectors < 2 ^ 16

back :
    (d : FdcInterface) (f : FileSystem)
    → IsLawful d
    → IsOnVga f.station.screen
    → sector_map_lba (memory f.station) < 2880
    → (i : ℕ) → i < sector_map_size
    → (write_sector_map_changes d f).station.disk (sector_map_lba (memory f.station)) i
      ≡ byte_of f.sector_map i
back d f law on lt i p =
    write_sector_map_changes-disk d law f on (sector_map_lba (memory f.station)) i lt (omega arith)
    ∙ ground arith

-- Through a lawful drive, from a position on the screen, with the map at a sector of the disk and counts
-- of 16 bits, loading what was written gives every sector of the disk its status, and the two counts.
pub load_sector_map-write_sector_map_changes :
    (d : FdcInterface) (f : FileSystem) (sector : ℕ)
    → IsLawful d
    → IsOnVga f.station.screen
    → sector_map_lba (memory f.station) < 2880
    → IsPacked f.sector_map
    → sector < 2880
    → let t = (load_sector_map d (write_sector_map_changes d f)).sector_map in
      (get_sector_status sector t ≡ get_sector_status sector f.sector_map)
      × (t.used_sectors ≡ f.sector_map.used_sectors)
      × (t.free_sectors ≡ f.sector_map.free_sectors)
load_sector_map-write_sector_map_changes d f sector law on lt packed small =
    let f' = write_sector_map_changes d f in
    let l = sector_map_lba (memory f.station) in
    let l' = sector_map_lba (memory f'.station) in
    let at_home : l' ≡ l = sector_map_lba-write_sector_map_changes d law f on in
    let lt' : l' < 2880 = omega (arith, at_home, lt) in
    let at_disk : (i : ℕ) → i < sector_map_size → f'.station.disk l' i ≡ byte_of f.sector_map i =
      λ i p. ap (λ k. f'.station.disk k i) at_home ∙ back d f law on lt i p in
    let groups = load_sector_map-groups d law f' lt' (sector / 8) (omega arith) in
    let counts = load_sector_map-counts d law f' lt' in
    (
      get_sector_status_same sector (load_sector_map d f').sector_map f.sector_map
          (groups ∙ at_disk (sector / 8) (omega arith) ∙ ground arith),
      counts.0 ∙ ground (arith, at_disk 360 (omega arith), at_disk 361 (omega arith), packed.used),
      counts.1 ∙ ground (arith, at_disk 362 (omega arith), at_disk 363 (omega arith), packed.free),
    )
