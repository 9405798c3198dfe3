-- ===== src/Files/Boot/Handover.antt =====
-- The second stage, and the earlier kernel that it calls.
use red_fox32_old.Base.{
  ℕ, ◌+◌, ◌*◌, ◌<◌, ◌≡◌, ◌∙◌, ap, ap₂, refl, arith, get_or, length, some, word,
}
use red_fox32_old.Machine.Memory.{load32}
use red_fox32_old.Stage2.Screen.{IsOnVga}
use red_fox32_old.Stage2.Gates.{Tables, Symbols}
use red_fox32_old.Stage2.Calls.{Registers32, Routines}
use red_fox32_old.Stage2.Calls.Dispatch.{IsLaidOut}
use red_fox32_old.Stage2.Fdc.{Board}
use red_fox32_old.Stage2.Fdc.Ready.{IsListening}
use red_fox32_old.Files.{Station, memory, IsLawful}
use red_fox32_old.Files.Sectors.{FileSystem, fs_root_directory_lba, sector_map_lba}
use red_fox32_old.Files.Mount.{Functions, IsPlaced}
use red_fox32_old.Files.Kernel.{Addresses, Entry, enter_kernel}
use red_fox32_old.Files.Kernel.Entered.{enter_kernel-ready}
use red_fox32_old.Files.Boot.{stage2_centry}
use red_fox32_old.Files.Boot.Booted.{IsOnStack, stage2_centry-IsStarted}

-- The kernel as the second stage calls it, with whatever its static variables hold but the position.
abbrev pub handed_over : FileSystem → Tables × Station → Entry
handed_over f s = record { tables = s.0; files = record f { station = s.1 }; screen_pos = 0 }

-- What the kernel has come to with a disk, whose first sector was left in memory by the bootloader.
pub record IsUp (s0 : Station) (a : Addresses) (k g : ℕ) (e : Entry) : Type 0 where
  pub directory : e.files.root_directory k ≡ s0.disk (fs_root_directory_lba (memory s0)) k
  pub groups : get_or e.files.sector_map.sector_groups g 0 ≡ s0.disk (sector_map_lba (memory s0)) g
  pub read_file : load32 (memory e.files.station) a.fsi ≡ a.read_file
  pub syscall : get_or e.tables.syscalls 0x20 0 ≡ a.get_fs_interface
  pub int32 : get_or e.tables.syscalls 3 0 ≡ a.int32

-- From the first line of Stage2_CEntry to the last call that KMain registers. With the functions
-- of the second stage at addresses of their own, a table of 0x256 system calls, the variable FDCI
-- of the second stage between the buffer of the drive and the place of the kernel, the structs of
-- the kernel between the buffer and the screen, ReadFile at a 32-bit address and the position on
-- the screen, on a floppy controller that always requests a byte, with functions of the disk that
-- keep to the interface, and with two sectors of the disk named in the first one, the second
-- stage reaches the call of the kernel, and the kernel then has the directory and the map of the
-- disk, the address of ReadFile in its struct and its two calls in the table, whatever its other
-- static variables held.
pub stage2_centry-enter_kernel :
    (r : Routines) (l : Symbols) (functions : Functions) (a : Addresses) (regs regs' : Registers32)
    (irq interface : ℕ) (b : Board) (t : Tables) (s : Station) (f : FileSystem) (k g : ℕ)
    → IsLaidOut r
    → length t.syscalls ≡ 0x256
    → IsOnStack interface
    → IsPlaced a.fdci × IsPlaced a.fs_fdci × IsPlaced a.fsi
    → a.read_file < word
    → IsLawful (functions r.read_lba r.write_lba)
    → IsListening b
    → IsOnVga s.screen
    → fs_root_directory_lba (memory s) < 2880
    → sector_map_lba (memory s) < 2880
    → k < 512
    → g < 360
    → (s' : Tables × Station) × (stage2_centry r l functions regs irq interface b (t, s) ≡ some s')
      × IsUp s a k g (enter_kernel r functions a regs' (handed_over f s'))
stage2_centry-enter_kernel r l functions a regs regs' irq interface b t s f k g laid n placed
      placed' small law ready on root_lt map_lt k_lt g_lt =
    let (s', returned, started) =
      stage2_centry-IsStarted r l functions regs irq interface b t s laid n placed law ready on in
    let root : fs_root_directory_lba (memory s'.1) ≡ fs_root_directory_lba (memory s) =
      ap₂ (λ x y. x + 256 * y) (started.sector (0x7C00 + 11) (omega arith))
        (started.sector (0x7C00 + 11 + 1) (omega arith)) in
    let map : sector_map_lba (memory s'.1) ≡ sector_map_lba (memory s) =
      ap₂ (λ x y. x + 256 * y) (started.sector (0x7C00 + 13) (omega arith))
        (started.sector (0x7C00 + 13 + 1) (omega arith)) in
    let (directory, groups, read_file, syscall, int32) =
      enter_kernel-ready r functions a regs' (handed_over f s') k g laid started.booted placed'
        small law started.on (record { bound = omega arith; cell = refl })
        (omega (arith, root, root_lt)) (omega (arith, map, map_lt)) k_lt g_lt in
    (
      s',
      returned,
      record {
        directory = directory ∙ started.same _ k ∙ ap (λ j. s.disk j k) root;
        groups = groups ∙ started.same _ g ∙ ap (λ j. s.disk j g) map;
        read_file = read_file;
        syscall = syscall;
        int32 = int32;
      },
    )
