-- ===== src/Files/Reading/Plain.antt =====
-- What ReadFile does with a file whose name matches.
use red_fox32_old.Base.{
  ℕ, zero, suc, ◌+◌, ◌-◌, ◌*◌, ◌%◌, ◌^◌, ◌≤◌, ◌<◌, ◌≡◌, ◌≢◌, ◌⊎◌, ◌∙◌, ap, ap₂, subst, refl, arith,
  Option, some, word, lt→ltb, ge→ltb,
}
use red_fox32_old.Machine.Memory.{Memory}
use red_fox32_old.Files.{Station, memory, buffer, FdcInterface, IsLawful}
use red_fox32_old.Files.Copy.{copy, copy-at}
use red_fox32_old.Files.Sectors.{load16}
use red_fox32_old.Files.Directory.{first, has_name, start_sector, sector_count}
use red_fox32_old.Files.Reading.{
  File, Walk, read_sector, read_sectors, announce, read_match, read_named,
}

-- What a call of `malloc` that returns has done, as far as ReadFile relies on it: the block is away from
-- the buffer of the drive, and the disk is left alone.
pub record Gives (malloc : ℕ → Station → Option (ℕ × Station)) (n : ℕ) (s : Station) (start : ℕ)
    (t : Station) : Type 0 where
  pub gives : malloc n s ≡ some (start, t)
  pub fits : start + n ≤ word
  pub away : (start + n ≤ buffer) ⊎ (buffer + 512 ≤ start)
  pub same : (j i : ℕ) → t.disk j i ≡ s.disk j i

module _ (d : FdcInterface) (law : IsLawful d) (start : ℕ) (fits : start + 512 ≤ word)
    (away : (start + 512 ≤ buffer) ⊎ (buffer + 512 ≤ start)) where
  read_sector-at :
      (lba k : ℕ) (s : Station)
      → lba < 2880
      → k < 512
      → memory (read_sector d lba start s) (start + k) ≡ s.disk lba k
  read_sector-at lba k s lt small =
      let back : start + k - start ≡ k = omega arith in
      copy-at 512 start (λ m c. m (buffer + c)) fits (λ m i j v p q. ground arith)
        (memory (d.read_lba lba s)) (start + k)
      ∙ rw back (ground (arith, law.read_buffer lba k s lt small))

  read_sectors_done :
      (fuel lba end : ℕ) (s : Station)
      → 0 < fuel
      → end ≤ lba
      → read_sectors fuel d lba end start s ≡ some s
  unfolding read_sectors
  read_sectors_done zero lba end s lt le = ground arith
  read_sectors_done (suc fuel) lba end s lt le = rw (ge→ltb lba end le)

  read_sectors_more :
      (fuel lba end : ℕ) (s : Station)
      → lba < end
      → end ≤ 2880
      → read_sectors (suc fuel) d lba end start s
        ≡ read_sectors fuel d (lba + 1) end start (read_sector d lba start s)
  unfolding read_sectors
  read_sectors_more fuel lba end s lt le =
      let next : (lba + 1) % 2 ^ 16 ≡ lba + 1 = omega arith in rw (lt→ltb lba end lt, next)

  -- The data ends up with the last of the sectors.
  read_sectors-last :
      (c fuel lba : ℕ) (s : Station)
      → c + 1 < fuel
      → lba + c + 1 ≤ 2880
      → (s' : Station) × (read_sectors fuel d lba (lba + (c + 1)) start s ≡ some s')
        × ((k : ℕ) → k < 512 → memory s' (start + k) ≡ s.disk (lba + c) k)
  read_sectors-last c zero lba s lt le = ground arith
  read_sectors-last zero (suc fuel) lba s lt le = (
    read_sector d lba start s,
    read_sectors_more fuel lba (lba + (0 + 1)) s (omega arith) (omega arith)
        ∙ read_sectors_done fuel (lba + 1) (lba + (0 + 1)) (read_sector d lba start s) (omega arith)
            (omega arith),
    λ k small. read_sector-at lba k s (omega arith) small ∙ ap (λ l. s.disk l k) (omega arith),
  )
  read_sectors-last (suc c) (suc fuel) lba s lt le =
      let more =
        read_sectors-last c fuel (lba + 1) (read_sector d lba start s) (omega arith)
          (omega arith) in
      let end : lba + 1 + (c + 1) ≡ lba + (suc c + 1) = omega arith in
      let sector : lba + 1 + c ≡ lba + suc c = omega arith in
      (
        more.0,
        read_sectors_more fuel lba (lba + (suc c + 1)) s (omega arith) (omega arith)
            ∙ subst
                (λ e.
                  read_sectors fuel d (lba + 1) e start (read_sector d lba start s) ≡ some more.0)
                end more.1,
        λ k small.
            more.2 k small ∙ law.read_disk lba (lba + 1 + c) k s ∙ ap (λ l. s.disk l k) sector,
      )

-- A path of n characters, none of them a slash.
pub record IsName (path : Memory) (n : ℕ) : Type 0 where
  pub ends : path n ≡ 0
  pub inner : (k : ℕ) → k < n → (path k ≢ 0) × (path k ≢ b'/')

-- What a match leaves, with the sector count suc c.
module _ (d : FdcInterface) (law : IsLawful d) (malloc : ℕ → Station → Option (ℕ × Station)) where
  described :
      (i : ℕ) (f : File) (w : Walk) (j : ℕ)
      → j < 10
      → copy 10 0 (λ m j. w.dir (10 * i + j)) f.descriptor j ≡ w.dir (10 * i + j)
  described i f w j lt =
      copy-at 10 0 (λ m j. w.dir (10 * i + j)) (omega arith) (λ m i j v p q. refl) f.descriptor j
      ∙ ground arith

  described_word :
      (i : ℕ) (f : File) (w : Walk) (j : ℕ)
      → j + 1 < 10
      → load16 (copy 10 0 (λ m j. w.dir (10 * i + j)) f.descriptor) j ≡ load16 w.dir (10 * i + j)
  described_word i f w j lt =
      let next : 10 * i + (j + 1) ≡ 10 * i + j + 1 = omega arith in
      ap₂ (λ a b. a + 256 * b) (described i f w j (omega arith))
        (described i f w (j + 1) lt ∙ ap w.dir next)

  -- The whole of what `read_match` returns, with the block that malloc gave.
  pub read_match-last :
      (fuel screen_pos i c start : ℕ) (t : Station) (f : File) (w : Walk)
      → c + 1 < fuel
      → sector_count w.dir i ≡ c + 1
      → start_sector w.dir i + c + 1 ≤ 2880
      → Gives malloc ((c + 1) * 512) (announce screen_pos w.station).1 start t
      → (f' : File) × (s' : Station) × (read_match fuel d malloc screen_pos i f w
          ≡ some (f', w.path, (announce screen_pos w.station).0, s'))
        × (f'.size ≡ (c + 1) * 512)
        × (f'.file_data ≡ start)
        × ((j : ℕ) → j < 10 → f'.descriptor j ≡ w.dir (10 * i + j))
        × ((k : ℕ) → k < 512 → memory s' (start + k) ≡ w.station.disk (start_sector w.dir i + c) k)
  unfolding read_match
  read_match-last fuel screen_pos i c start t f w lt count fits given =
      let descriptor = copy 10 0 (λ m j. w.dir (10 * i + j)) f.descriptor in
      let lba = start_sector descriptor 0 in
      let counted : sector_count descriptor 0 ≡ c + 1 =
        described_word i f w 8 (omega arith) ∙ count in
      let starts : lba ≡ start_sector w.dir i = described_word i f w 6 (omega arith) in
      let gave : malloc (sector_count descriptor 0 * 512) (announce screen_pos w.station).1
          ≡ some (start, t) =
        ap (λ n. malloc (n * 512) (announce screen_pos w.station).1) counted ∙ given.gives in
      let done =
        read_sectors-last d law start (omega (arith, given.fits)) (ground (arith, given.away)) c
          fuel lba t lt (omega (arith, starts, fits)) in
      let ran : read_sectors fuel d lba (lba + sector_count descriptor 0) start t ≡ some done.0 =
        ap (λ n. read_sectors fuel d lba (lba + n) start t) counted ∙ done.1 in
      (
        record {
          descriptor = descriptor;
          file_data = start;
          size = sector_count descriptor 0 * 512;
        },
        done.0,
        rw (gave, ran) refl,
        ap (λ n. n * 512) counted,
        refl,
        λ j small. described i f w j small,
        λ k small.
            done.2 k small ∙ given.same (lba + c) k ∙ ap (λ l. w.station.disk (l + c) k) starts,
      )

pub read_named-found :
    (fuel screen_pos i : ℕ) (d : FdcInterface) (malloc : ℕ → Station → Option (ℕ × Station))
    (f : File) (w : Walk)
    → first 51 0 (has_name w.dir (λ k. w.path (w.dirname_start + k))) ≡ some i
    → read_named fuel d malloc screen_pos f w ≡ read_match fuel d malloc screen_pos i f w
unfolding read_named
read_named-found fuel screen_pos i d malloc f w e = rw (read_named, e)
