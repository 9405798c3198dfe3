-- ===== src/Files/Drive.antt =====
-- ReadLBA and WriteLBA of FDC.c (RedFox32/Old/Source/BootloaderStage2) as the two functions of
-- FDCInterface, on a floppy controller and a DMA controller that answer to what they are sent.
pub mod Laws
use red_fox32_old.Base.{
  ℕ, zero, suc, ◌+◌, ◌-◌, ◌*◌, ◌≤◌, ◌<◌, ◌≡◌, ◌⊎◌, ◌∙◌, ap, subst, refl, inl, arith, List, [], ◌∷◌,
  Option, none, some, ◌==◌, if◌then◌else◌, false, dec_lt, sym, ◌%◌,
}
use red_fox32_old.Machine.Ports.{Trace}
use red_fox32_old.Stage2.Screen.{Screen, IsOnVga, Shown, vga_memory}
use red_fox32_old.Stage2.Fdc.{Fdc, Board, lba2chs, head_drive, read_lba, write_lba}
use red_fox32_old.Stage2.Fdc.Blocks.{lba2chs-place, read_lba-outside}
use red_fox32_old.Stage2.Fdc.Ready.{IsReady, mode, sent}
use red_fox32_old.Stage2.Fdc.Transfer.{read_lba-Sends}
use red_fox32_old.Files.{Station, memory, buffer, FdcInterface, IsLawful}

-- What the controllers have been sent when the sector of the place is to be brought to memory (mode 0x56
-- and command 0xC6), or to the disk (0x5A and 0xC5).
abbrev pub request : (direction command cylinder head sector : ℕ) → List ℕ
request direction command cylinder head sector =
    15
    ∷ (head * 4)
    ∷ cylinder
    ∷ 8
    ∷ mode direction
    ∷ command
    ∷ (head * 4)
    ∷ cylinder
    ∷ head
    ∷ sector
    ∷ 2
    ∷ 18
    ∷ 0x1B
    ∷ 0xFF
    ∷ 8
    ∷ []

-- The block of a place.
abbrev pub block : (cylinder head sector : ℕ) → ℕ
block cylinder head sector = (cylinder * 2 + head) * 18 + (sector - 1)

-- The block has come to the buffer, and nothing else has changed.
pub record IsReadBy (l : ℕ) (s s' : Station) : Type 0 where
  pub inside : (i : ℕ) → i < 512 → memory s' (buffer + i) ≡ s.disk l i
  pub outside : (x : ℕ) → (x < buffer) ⊎ (buffer + 512 ≤ x) → memory s' x ≡ memory s x
  pub position : s'.screen.screen_pos ≡ s.screen.screen_pos
  pub disk : (j i : ℕ) → s'.disk j i ≡ s.disk j i

-- The buffer has come to the block, and nothing else has changed.
pub record IsWrittenBy (l : ℕ) (s s' : Station) : Type 0 where
  pub disk :
      (j i : ℕ) → i < 512 → s'.disk j i ≡ (if j == l then memory s (buffer + i) else s.disk j i)
  pub screen : s'.screen ≡ s.screen

-- The effect of the controllers on memory and disk by the end of a call, whose trace it is given.
abbrev pub Hardware : Type 0
Hardware = Trace → Station → Station

-- The controllers do nothing unasked, and what the requests ask for.
pub record IsController (hardware : Hardware) : Type 0 where
  pub quiet : (s : Station) → hardware [] s ≡ s
  pub reads :
      (t : Trace) (c h n : ℕ) (s : Station)
      → (c < 80) × (h < 2) × (1 ≤ n) × (n ≤ 18)
      → sent t ≡ request 0x56 0xC6 c h n
      → IsReadBy (block c h n) s (hardware t s)
  pub writes :
      (t : Trace) (c h n : ℕ) (s : Station)
      → (c < 80) × (h < 2) × (1 ≤ n) × (n ≤ 18)
      → sent t ≡ request 0x5A 0xC5 c h n
      → IsWrittenBy (block c h n) s (hardware t s)

-- The driver when a call begins; its trace is that of the call.
abbrev pub idle : Screen → Fdc
idle c = record { drive = 0; irq_received = false; screen = c; trace = [] }

-- A call that returns has printed, and the controllers have answered what it sent. The interface has no
-- value for a call that does not return: see `Returns`.
abbrev pub answered : Hardware → Option Fdc → Station → Station
answered hardware none s = s
answered hardware (some f) s = hardware f.trace (record s { screen = f.screen })

-- The interface that the second stage hands on. The board answers to what a call has done so far.
abbrev pub fdc_drive : Board → Hardware → FdcInterface
fdc_drive board hardware = record {
  read_lba = λ l s. answered hardware (read_lba board l (idle s.screen)) s;
  write_lba = λ l s. answered hardware (write_lba board l (idle s.screen)) s;
}

-- Both functions return.
pub record Returns (board : Board) (l : ℕ) (s : Station) : Type 0 where
  pub reads : (f : Fdc) × (read_lba board l (idle s.screen) ≡ some f)
  pub writes : (f : Fdc) × (write_lba board l (idle s.screen) ≡ some f)
