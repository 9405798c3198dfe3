-- ===== src/Files/Sectors/Write.antt =====
-- What WriteSectorMapChanges leaves on the disk.
use red_fox32_old.Base.{
  ℕ, ◌+◌, ◌-◌, ◌*◌, ◌<◌, ◌≡◌, ◌∙◌, ap, refl, inl, ap₂, arith, leb, ltb, ◌&&◌, ◌==◌, if◌then◌else◌,
  dec_lt, ℕ_discrete, ==_false,
}
use red_fox32_old.Files.{Station, memory, with_memory, buffer, FdcInterface, IsLawful}
use red_fox32_old.Files.Copy.{copy, copy-at}
use red_fox32_old.Stage2.Screen.{IsOnVga}
use red_fox32_old.Files.Sectors.{
  FileSystem, sector_map_lba, sector_map_size, byte_of, write_sector_map_changes,
}

module _ (d : FdcInterface) (law : IsLawful d) (f : FileSystem)
    (on : IsOnVga f.station.screen) where
  lba : ℕ
  lba = sector_map_lba (memory f.station)

  read : Station
  unfolding lba
  read = d.read_lba lba f.station

  written : Station
  unfolding read
  written =
      with_memory (copy sector_map_size buffer (λ m i. byte_of f.sector_map i) (memory read)) read

  written_on : IsOnVga written.screen
  unfolding written read
  written_on = let h = law.read_screen lba f.station on in record { bound = h.bound; cell = h.cell }

  written-at :
      (x : ℕ)
      → memory written x ≡ (
          if leb buffer x && ltb x (buffer + sector_map_size)
          then byte_of f.sector_map (x - buffer)
          else memory read x)
  unfolding written
  written-at x =
      copy-at sector_map_size buffer (λ m i. byte_of f.sector_map i) (omega arith)
        (λ m i j v p q. refl) (memory read) x

  low : (x : ℕ) → x < buffer → memory written x ≡ memory f.station x
  unfolding read lba
  low x lt = written-at x ∙ ground (arith, law.read_frame lba x f.station on (inl lt))

  lba_same : sector_map_lba (memory written) ≡ lba
  unfolding lba
  lba_same = ground (arith, low (0x7C00 + 13) (omega arith), low (0x7C00 + 14) (omega arith))

  sector_bytes :
      (i : ℕ)
      → lba < 2880
      → i < 512
      → memory written (buffer + i)
        ≡ (if ltb i sector_map_size then byte_of f.sector_map i else f.station.disk lba i)
  unfolding read
  sector_bytes i lt small =
      let back : buffer + i - buffer ≡ i = omega arith in
      written-at (buffer + i)
      ∙ rw back (elim (dec_lt i sector_map_size) [
        | yes inside ↦ ground arith
        | no outside ↦ ground (arith, law.read_buffer lba i f.station lt small)
      ])

  written-disk : (j i : ℕ) → written.disk j i ≡ f.station.disk j i
  unfolding written read
  written-disk j i = law.read_disk lba j i f.station

  changes-disk :
      (j i : ℕ)
      → lba < 2880
      → i < 512
      → (d.write_lba lba written).disk j i ≡ (
          if (j == lba) && ltb i sector_map_size
          then byte_of f.sector_map i
          else f.station.disk j i)
  changes-disk j i lt small =
      law.write_disk lba j i written written_on lt small ∙ elim (ℕ_discrete j lba) [
        | yes e ↦ rw e (ground (arith, sector_bytes i lt small))
        | no ne ↦ rw (==_false ne) (written-disk j i)
      ]

  -- The sector of the map gets the bytes of the map and keeps its other bytes; no other sector changes.
  pub write_sector_map_changes-disk :
      (j i : ℕ)
      → sector_map_lba (memory f.station) < 2880
      → i < 512
      → (write_sector_map_changes d f).station.disk j i ≡ (
          if (j == sector_map_lba (memory f.station)) && ltb i sector_map_size
          then byte_of f.sector_map i
          else f.station.disk j i)
  unfolding write_sector_map_changes lba read written
  write_sector_map_changes-disk j i lt small =
      ap (λ l. (d.write_lba l written).disk j i) lba_same ∙ changes-disk j i lt small

  pub sector_map_lba-write_sector_map_changes :
      sector_map_lba (memory (write_sector_map_changes d f).station)
      ≡ sector_map_lba (memory f.station)
  unfolding write_sector_map_changes lba read written
  sector_map_lba-write_sector_map_changes =
      let low_byte =
        law.write_memory (sector_map_lba (memory written)) (0x7C00 + 13) written written_on
          (omega arith) in
      let high_byte =
        law.write_memory (sector_map_lba (memory written)) (0x7C00 + 14) written written_on
          (omega arith) in
      ap₂ (λ a b. a + 256 * b) low_byte high_byte ∙ lba_same
