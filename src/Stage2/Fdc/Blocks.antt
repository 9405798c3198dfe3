-- ===== src/Stage2/Fdc/Blocks.antt =====
-- LBA2CHS, ReadLBA and WriteLBA of FDC.c: where a block is on the disk.
use red_fox32_old.Base.{ℕ, ◌+◌, ◌-◌, ◌*◌, ◌≤◌, ◌<◌, ◌≡◌, arith, some, le→leb}
use red_fox32_old.Stage2.Fdc.{Fdc, Board, lba2chs, read_lba, write_lba}

-- Every block of a disk of 80 cylinders, 2 heads and 18 sectors has its own place on it, with the
-- sectors counted from 1, and the block is computed back from the place.
pub lba2chs-place :
    (lba : ℕ)
    → lba < 2880
    → let (c, h, s) = lba2chs lba in
      (c < 80) × (h < 2) × (1 ≤ s) × (s ≤ 18) × ((c * 2 + h) * 18 + (s - 1) ≡ lba)
unfolding lba2chs
lba2chs-place lba h = (omega arith, omega arith, omega arith, omega arith, omega arith)

-- A block that is not on the disk is neither read nor written: nothing is sent to the controller.
pub read_lba-outside :
    (b : Board) (lba : ℕ) (f : Fdc)
    → 2880 ≤ lba
    → (read_lba b lba f ≡ some f) × (write_lba b lba f ≡ some f)
unfolding read_lba write_lba
read_lba-outside b lba f h = (rw (le→leb 2880 lba h, read_lba), rw (le→leb 2880 lba h, write_lba))
