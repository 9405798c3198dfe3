-- ===== src/Files.antt =====
-- The machine of the earlier kernel as its file system sees it: memory with the screen, and the disk
-- behind the two functions of FDCInterface (RedFox32/Old/Source/Common/FDCInterface.h).
pub mod Copy
pub mod Loader
pub mod Sectors
pub mod Directory
pub mod Reading
pub mod Drive
pub mod Mount
pub mod Kernel
pub mod Boot
use red_fox32_old.Base.{
  ℕ, zero, suc, ◌+◌, ◌-◌, ◌*◌, ◌≤◌, ◌<◌, ◌≡◌, ◌⊎◌, ◌==◌, ltb, leb, refl, arith, ap, ◌∙◌,
  if◌then◌else◌,
}
use red_fox32_old.Machine.Memory.{Memory, poke}
use red_fox32_old.Stage2.Screen.{Screen, IsOnVga, vga_memory}

-- The bytes of the sectors are a function of the sector and the offset.
pub record Station : Type 0 where
  pub screen : Screen
  pub disk : ℕ → ℕ → ℕ

abbrev pub memory : Station → Memory
memory s = s.screen.memory

abbrev pub with_memory : Memory → Station → Station
with_memory m s = record s { screen = record s.screen { memory = m } }

-- FDC_READWRITE_BUFFER, which the DMA controller is programmed for.
abbrev pub buffer : ℕ
buffer = 0x7E00

-- The two function pointers.
pub record FdcInterface : Type 0 where
  pub read_lba : ℕ → Station → Station
  pub write_lba : ℕ → Station → Station

-- What the callers rely on: a read brings a sector of the disk to the buffer, a write takes the buffer to
-- the sector, and neither changes anything else below the video memory, if the position is on the screen.
-- Both may print.
pub record IsLawful (d : FdcInterface) : Type 0 where
  pub read_buffer :
      (l i : ℕ) (s : Station)
      → l < 2880
      → i < 512
      → memory (d.read_lba l s) (buffer + i) ≡ s.disk l i
  pub read_frame :
      (l x : ℕ) (s : Station)
      → IsOnVga s.screen
      → (x < buffer) ⊎ ((buffer + 512 ≤ x) × (x < vga_memory))
      → memory (d.read_lba l s) x ≡ memory s x
  pub read_screen : (l : ℕ) (s : Station) → IsOnVga s.screen → IsOnVga (d.read_lba l s).screen
  pub read_disk : (l j i : ℕ) (s : Station) → (d.read_lba l s).disk j i ≡ s.disk j i
  pub write_disk :
      (l j i : ℕ) (s : Station)
      → IsOnVga s.screen
      → l < 2880
      → i < 512
      → (d.write_lba l s).disk j i ≡ (if j == l then memory s (buffer + i) else s.disk j i)
  pub write_memory :
      (l x : ℕ) (s : Station)
      → IsOnVga s.screen
      → x < vga_memory
      → memory (d.write_lba l s) x ≡ memory s x

-- A disk that behaves so.
abbrev pub plain_drive : FdcInterface
plain_drive = record {
  read_lba = λ l s.
      with_memory
        (λ x.
          if ltb x buffer
          then memory s x
          else if ltb x (buffer + 512)
          then s.disk l (x - buffer)
          else memory s x)
        s;
  write_lba =
      λ l s. record s { disk = λ j i. if j == l then memory s (buffer + i) else s.disk j i };
}

buffer_read :
    (l i : ℕ) (s : Station) → i < 512 → memory (plain_drive.read_lba l s) (buffer + i) ≡ s.disk l i
buffer_read l i s lt = let back : buffer + i - buffer ≡ i = omega arith in ground (arith, back)

pub plain_drive-IsLawful : IsLawful plain_drive
plain_drive-IsLawful = record {
  read_buffer = λ l i s lt lt'. buffer_read l i s lt';
  read_frame = λ l x s on out. ground arith;
  read_screen = λ l s h. record { bound = h.bound; cell = h.cell };
  read_disk = λ l j i s. refl;
  write_disk = λ l j i s on lt lt'. refl;
  write_memory = λ l x s on lt. refl;
}
