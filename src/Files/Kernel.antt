-- ===== src/Files/Kernel.antt =====
-- Kernel.c of the earlier kernel up to the reading of its test file, with ClearScreen of Kernel/VGA.c.
pub mod Running
pub mod Entered
use red_fox32_old.Base.{ℕ, List, codes, ◌==◌, get_or, if◌then◌else◌}
use red_fox32_old.Stage2.Screen.{Screen, put_string, vga_memory, vga_memory_size}
use red_fox32_old.Stage2.Gates.{Tables}
use red_fox32_old.Stage2.Calls.{
  Registers32, Routines, System, int_syscall, register_syscall, get_fdci,
}
use red_fox32_old.Files.{memory, with_memory}
use red_fox32_old.Files.Copy.{copy}
use red_fox32_old.Files.Sectors.{FileSystem}
use red_fox32_old.Files.Mount.{Functions, raise, fs_initialize, sys_get_fs_interface}

-- The position is another variable, and stays.
unfoldable pub clear_screen : Screen → Screen
clear_screen c = record c { memory = copy vga_memory_size vga_memory (λ m i. 0) c.memory }

-- The addresses of the kernel's three structs and of its functions.
pub record Addresses : Type 0 where
  pub fdci : ℕ
  pub fs_fdci : ℕ
  pub fsi : ℕ
  pub get_fs_interface : ℕ
  pub read_file : ℕ
  pub int32 : ℕ

-- The interrupt, with the call that the kernel has added.
pub kernel_syscall : Routines → Addresses → Registers32 → System → System
kernel_syscall r a regs s =
    if get_or s.tables.syscalls regs.eax 0 == a.get_fs_interface
    then sys_get_fs_interface a.read_file regs s
    else int_syscall r regs s

-- The kernel as it starts: the tables of the second stage, the file system, and the position of its own copy
-- of Video.c; that of the second stage is in the station.
pub record Entry : Type 0 where
  pub tables : Tables
  pub files : FileSystem
  pub screen_pos : ℕ

abbrev pub own_screen : Entry → Screen
own_screen s = record { memory = memory s.files.station; screen_pos = s.screen_pos }

abbrev pub on_screen : (Screen → Screen) → Entry → Entry
on_screen draw s =
    let c = draw (own_screen s) in
    record {
      tables = s.tables;
      files = record s.files { station = with_memory c.memory s.files.station };
      screen_pos = c.screen_pos;
    }

abbrev pub say : List ℕ → (colour : ℕ) → Entry → Entry
say str colour s = on_screen (put_string str colour) s

abbrev pub within : (Tables × FileSystem → Tables × FileSystem) → Entry → Entry
within g s = let r = g (s.tables, s.files) in record s { tables = r.0; files = r.1 }

-- Up to the first system call.
abbrev pub greet : Entry → Entry
greet s =
    say (codes "Getting FDCInterface!\n") 0x0A
      (say (codes "Kernel entered!\n") 0x0A (on_screen clear_screen s))

pub enter_kernel : Routines → Functions → Addresses → Registers32 → Entry → Entry
enter_kernel r functions a regs s =
    let s = within (raise (get_fdci r regs a.fdci)) (greet s) in
    let s = say (codes "Init FS\n") 0x0A s in
    let s = within (fs_initialize r functions regs a.fs_fdci a.get_fs_interface) s in
    let s = say (codes "Getting FS Interface\n") 0x0A s in
    let s = within (raise (kernel_syscall r a (record regs { edx = a.fsi; eax = 0x20 }))) s in
    let s = say (codes "Registering int32 syscall 0x03\n") 0x0A s in
    let s = within (raise (register_syscall r regs 3 a.int32)) s in
    say (codes "Attempting to read the test file!") 0x0B s
