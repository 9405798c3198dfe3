-- ===== src/Files/Mount.antt =====
-- FS_Initialize and SYS_GetFSInterface of FileSystem.c: the earlier kernel asks the second stage for the
-- functions of the disk, brings in the directory and the map, and registers its own call.
pub mod Mounted
use red_fox32_old.Base.{
  ℕ, ◌+◌, ◌*◌, ◌%◌, ◌≤◌, ◌<◌, ◌≡◌, ◌∙◌, ◌⊎◌, ap, ap₂, subst, sym, inl, inr, arith, get_or, length,
  get_or-set, add32,
}
use red_fox32_old.Machine.Memory.{Memory, load32, store32}
use red_fox32_old.Stage2.Screen.{IsOnVga, vga_memory}
use red_fox32_old.Stage2.Gates.{Tables, sys_register_syscall, sys_register_syscall-syscalls}
use red_fox32_old.Stage2.Calls.{Registers32, Routines, System, register_syscall, get_fdci}
use red_fox32_old.Stage2.Calls.Dispatch.{IsLaidOut, register_syscall-registered, get_fdci-called}
use red_fox32_old.Files.{memory, buffer, FdcInterface, IsLawful}
use red_fox32_old.Files.Sectors.{
  FileSystem, load16, fs_root_directory_lba, sector_map_lba, load_sector_map,
  load_fs_root_directory,
}
use red_fox32_old.Files.Sectors.Load.{
  load_sector_map-groups, load_sector_map-counts, load_fs_root_directory-bytes,
  load_fs_root_directory-station, load_sector_map-station, load_sector_map-directory,
}

-- The code at two addresses, as the functions of the disk.
abbrev pub Functions : Type 0
Functions = (read_lba write_lba : ℕ) → FdcInterface

-- The struct FDCI at its address.
abbrev pub fdci : Functions → (interface : ℕ) → FileSystem → FdcInterface
fdci functions interface f =
    functions (load32 (memory f.station) interface) (load32 (memory f.station) (add32 interface 4))

-- A system call on the tables and the screen that the file system stands on.
abbrev pub raise : (System → System) → Tables × FileSystem → Tables × FileSystem
raise call (t, f) =
    let s = call (record { tables = t; screen = f.station.screen }) in
    (s.tables, record f { station = record f.station { screen = s.screen } })

-- `interface` is the address of FDCI and `handler` that of SYS_GetFSInterface.
pub fs_initialize :
    Routines
    → Functions
    → Registers32
    → (interface handler : ℕ) → Tables × FileSystem
    → Tables × FileSystem
fs_initialize r functions regs interface handler s =
    let (t, f) = raise (get_fdci r regs interface) s in
    let f = load_fs_root_directory (fdci functions interface f) f in
    let f = load_sector_map (fdci functions interface f) f in
    raise (register_syscall r regs 0x20 handler) (t, f)

-- `read_file` is the address of ReadFile.
unfoldable pub sys_get_fs_interface : (read_file : ℕ) → Registers32 → System → System
sys_get_fs_interface read_file regs s = record s {
  screen = record s.screen { memory = store32 s.screen.memory regs.edx read_file };
}

-- The tables as the second stage leaves them, with the call of FDC_Init.
pub record IsBooted (r : Routines) (t : Tables) : Type 0 where
  pub size : length t.syscalls ≡ 0x256
  pub registers : get_or t.syscalls 0 0 ≡ r.register_syscall
  pub gives_fdci : get_or t.syscalls 0x10 0 ≡ r.get_fdci

-- The struct lies between the buffer and the screen.
abbrev pub IsPlaced : ℕ → Type 0
IsPlaced interface = (buffer + 512 ≤ interface) × (interface + 8 ≤ vga_memory)
