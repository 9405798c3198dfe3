-- ===== src/Vesa/Bios.antt =====
-- The calls of the video BIOS in VESA.c. `syscall(SYSCALL_ID_INT32, ...)` raises a BIOS interrupt; what the
-- BIOS then does with the registers and the memory is a parameter.
use red_fox32_old.Base.{ℕ, ◌+◌, ◌*◌, ◌/◌, ◌%◌, ◌≤◌, ◌<◌, ◌≡◌, refl, bit_and, word}
use red_fox32_old.Machine.Memory.{Memory, poke, load32}
use red_fox32_old.Vesa.{vesa_mode_info}
use red_fox32_old.Vesa.Pixels.{Mode, IsMode, IsMode-transfer}
use red_fox32_old.Files.Copy.{copy}

pub record Registers16 : Type 0 where
  pub di : ℕ
  pub si : ℕ
  pub bp : ℕ
  pub sp : ℕ
  pub bx : ℕ
  pub dx : ℕ
  pub cx : ℕ
  pub ax : ℕ
  pub gs : ℕ
  pub fs : ℕ
  pub es : ℕ
  pub ds : ℕ
  pub eflags : ℕ

-- The effect of an interrupt.
abbrev pub Bios : Type 0
Bios = (interrupt : ℕ) → Registers16 → Memory → Memory

-- `memset(&regs, 0, sizeof(regs16_t))`
abbrev pub cleared : Registers16
cleared = record {
  di = 0;
  si = 0;
  bp = 0;
  sp = 0;
  bx = 0;
  dx = 0;
  cx = 0;
  ax = 0;
  gs = 0;
  fs = 0;
  es = 0;
  ds = 0;
  eflags = 0;
}

abbrev pub vesa_info : ℕ
vesa_info = 0x8800

pub get_mode_info : Bios → (mode : ℕ) → Memory → Memory
get_mode_info bios mode m =
    bios 0x10
      (record cleared {
        ax = 0x4F01;
        cx = mode;
        es = vesa_mode_info / 16 % 0x10000;
        di = bit_and vesa_mode_info 0xF;
      })
      m

-- `regs` is what the local variable holds at the start.
pub set_video_mode : Bios → (regs : Registers16) → (mode : ℕ) → Memory → Memory
set_video_mode bios regs mode m =
    get_mode_info bios mode (bios 0x10 (record regs { ax = 0x4F02; bx = mode }) m)

pub set_bank : Bios → (regs : Registers16) → (bank_no : ℕ) → Memory → Memory
set_bank bios regs bank_no m =
    bios 0x10 (record regs { ax = 0x4F05; bx = 0; dx = bank_no % 0x10000 }) m

-- `sizeof(_VESA_Info)` is that of the pointer. The text that is printed at the end is left out.
pub vesa_init : Bios → (regs regs' : Registers16) → Memory → Memory
vesa_init bios regs regs' m =
    let m1 = copy 4 vesa_info (λ m i. 0) m in
    let m2 =
      poke (poke (poke (poke m1 vesa_info b'V') (vesa_info + 1) b'B') (vesa_info + 2) b'E')
        (vesa_info + 3) b'2' in
    let m3 =
      bios 0x10
        (record cleared { ax = 0x4F00; di = bit_and vesa_info 0xF; es = vesa_info / 16 % 0x10000 })
        m2 in
    set_bank bios regs' 0 (set_video_mode bios regs 0x011B m3)

-- What the driver relies on of the BIOS: the description of the mode 0x11B is put at es:di, and the choice
-- of a bank leaves the description alone.
pub record IsVbe (v : Mode) (bios : Bios) : Type 0 where
  pub width :
      (r : Registers16) (m : Memory)
      → r.ax ≡ 0x4F01
      → r.cx ≡ 0x011B
      → bios 0x10 r m (r.es * 16 + r.di + 18) + 256 * bios 0x10 r m (r.es * 16 + r.di + 19)
        ≡ v.width
  pub pointer :
      (r : Registers16) (m : Memory)
      → r.ax ≡ 0x4F01
      → r.cx ≡ 0x011B
      → load32 (bios 0x10 r m) (r.es * 16 + r.di + 40) ≡ v.base
  pub bank :
      (r : Registers16) (m : Memory) (x : ℕ) → r.ax ≡ 0x4F05 → x < 0x8700 → bios 0x10 r m x ≡ m x

module _ (v : Mode) (bios : Bios) (law : IsVbe v bios) (above : 0x8700 ≤ v.base)
    (fits : v.base + v.height * (v.width * 3) + v.width * 3 < word) where
  get_mode_info-IsMode : (m : Memory) → IsMode v (get_mode_info bios 0x011B m)
  unfolding get_mode_info
  get_mode_info-IsMode m =
      let r = record cleared { ax = 0x4F01; cx = 0x011B; es = 0x860; di = 0 } in
      record {
        resolution = law.width r m refl refl;
        pointer = law.pointer r m refl refl;
        above = above;
        fits = fits;
      }

  -- Choosing a bank keeps the mode.
  set_bank-IsMode :
      (regs : Registers16) (bank_no : ℕ) (m : Memory)
      → IsMode v m
      → IsMode v (set_bank bios regs bank_no m)
  unfolding set_bank
  set_bank-IsMode regs bank_no m h =
      IsMode-transfer v m (set_bank bios regs bank_no m)
        (λ x lt. law.bank (record regs { ax = 0x4F05; bx = 0; dx = bank_no % 0x10000 }) m x refl lt)
        h

-- With such a BIOS, and a frame buffer above the description with a row to spare, the initialization leaves
-- the description of the mode where the drawing functions look for it.
pub vesa_init-IsMode :
    (v : Mode) (bios : Bios) (regs regs' : Registers16) (m : Memory)
    → IsVbe v bios
    → 0x8700 ≤ v.base
    → v.base + v.height * (v.width * 3) + v.width * 3 < word
    → IsMode v (vesa_init bios regs regs' m)
unfolding vesa_init set_video_mode
vesa_init-IsMode v bios regs regs' m law above fits =
    set_bank-IsMode v bios law above fits regs' 0 _ (get_mode_info-IsMode v bios law above fits _)
