-- ===== src/Files/Kernel/Entered.antt =====
-- What the earlier kernel has when it goes on to read its test file.
use red_fox32_old.Base.{
  ℕ, ◌+◌, ◌<◌, ◌≡◌, ◌∙◌, ap, refl, arith, codes, get_or, length, length-set, get_or-set, word, ◌==◌,
  if◌then◌else◌,
}
use red_fox32_old.Machine.Memory.{load32, load32-store32_self}
use red_fox32_old.Stage2.Screen.{IsOnVga, put_string-Shown}
use red_fox32_old.Stage2.Gates.{sys_register_syscall, sys_register_syscall-syscalls}
use red_fox32_old.Stage2.Calls.{Registers32, Routines, register_syscall, get_fdci}
use red_fox32_old.Stage2.Calls.Dispatch.{IsLaidOut}
use red_fox32_old.Files.{memory, IsLawful}
use red_fox32_old.Files.Sectors.{fs_root_directory_lba, sector_map_lba}
use red_fox32_old.Files.Mount.{Functions, raise, fs_initialize, IsBooted, IsPlaced}
use red_fox32_old.Files.Mount.Mounted.{raise_register, fs_initialize-mounts, fs_initialize-kept}
use red_fox32_old.Files.Kernel.{
  clear_screen, Addresses, Entry, own_screen, within, kernel_syscall, on_screen, say, greet,
  enter_kernel,
}
use red_fox32_old.Files.Kernel.Running.{
  IsRunning, on_screen-IsRunning, say-IsRunning, asks-IsRunning, place_of, asks_fsi, fsi_kept,
  clear_screen-Shown, tell, moved,
}

-- From the tables of the second stage to the registration of the last call.
module _ (r : Routines) (functions : Functions) (a : Addresses) (regs : Registers32) (s0 : Entry)
    (laid : IsLaidOut r) (booted : IsBooted r s0.tables) (placed : IsPlaced a.fdci)
    (placed' : IsPlaced a.fs_fdci) (placed'' : IsPlaced a.fsi)
    (law : IsLawful (functions r.read_lba r.write_lba)) (on : IsOnVga s0.files.station.screen)
    (own : IsOnVga (own_screen s0)) where
  before : Entry
  before = say (codes "Init FS\n") 0x0A (within (raise (get_fdci r regs a.fdci)) (greet s0))

  before-IsRunning : IsRunning r s0.files before
  unfolding before
  before-IsRunning =
      say-IsRunning r s0.files (codes "Init FS\n") 0x0A
        (within (raise (get_fdci r regs a.fdci)) (greet s0))
        (asks-IsRunning r s0.files regs a.fdci (greet s0) laid placed (
          say-IsRunning r s0.files (codes "Getting FDCInterface!\n") 0x0A _ (
            say-IsRunning r s0.files (codes "Kernel entered!\n") 0x0A (on_screen clear_screen s0) (
              on_screen-IsRunning r s0.files clear_screen s0 (clear_screen-Shown (own_screen s0))
                (record {
                  booted = booted;
                  on = on;
                  own = own;
                  disk = λ j i. refl;
                  sector = λ x lt. refl;
                })))))

  mounted : Entry
  mounted = within (fs_initialize r functions regs a.fs_fdci a.get_fs_interface) before

  mounted-kept :
      (mounted.tables ≡ sys_register_syscall 0x20 a.get_fs_interface before.tables)
      × IsOnVga mounted.files.station.screen
  unfolding mounted
  mounted-kept =
      fs_initialize-kept r functions regs a.fs_fdci a.get_fs_interface before.tables before.files
        laid before-IsRunning.booted placed' law before-IsRunning.on

  syscalls-at :
      (id : ℕ)
      → get_or mounted.tables.syscalls id 0
        ≡ (if 0x20 == id then a.get_fs_interface else get_or before.tables.syscalls id 0)
  syscalls-at id =
      ap (λ t. get_or t.syscalls id 0) mounted-kept.0
      ∙ ap (λ l. get_or l id 0)
          (sys_register_syscall-syscalls 0x20 a.get_fs_interface before.tables).0
      ∙ get_or-set before.tables.syscalls 0x20 id a.get_fs_interface 0
          (omega (arith, before-IsRunning.booted.size))

  mounted-size : length mounted.tables.syscalls ≡ 0x256
  mounted-size =
      ap (λ t. length t.syscalls) mounted-kept.0
      ∙ ap length (sys_register_syscall-syscalls 0x20 a.get_fs_interface before.tables).0
      ∙ length-set before.tables.syscalls 0x20 a.get_fs_interface
      ∙ before-IsRunning.booted.size

  -- With the address of ReadFile, and the line behind it.
  informed : Entry
  informed = say (codes "Registering int32 syscall 0x03\n") 0x0A (
      within (raise (kernel_syscall r a (record regs { edx = a.fsi; eax = 0x20 })))
        (say (codes "Getting FS Interface\n") 0x0A mounted))

  told : Entry
  told = tell a (say (codes "Getting FS Interface\n") 0x0A mounted)

  told-IsOnVga : IsOnVga (own_screen told)
  unfolding told mounted
  told-IsOnVga =
      let shown =
        (put_string-Shown (codes "Getting FS Interface\n") 0x0A (own_screen mounted)).on
          (moved (own_screen before) before-IsRunning.own) in
      record { bound = shown.bound; cell = shown.cell }

  informed-told : informed ≡ say (codes "Registering int32 syscall 0x03\n") 0x0A told
  unfolding informed told
  informed-told =
      ap (say (codes "Registering int32 syscall 0x03\n") 0x0A)
        (asks_fsi r a regs (say (codes "Getting FS Interface\n") 0x0A mounted) (syscalls-at 0x20))

  entered : Entry
  entered =
      say (codes "Attempting to read the test file!") 0x0B
        (record (say (codes "Registering int32 syscall 0x03\n") 0x0A told) {
          tables = sys_register_syscall 3 a.int32 mounted.tables;
        })

  enter_kernel-entered : enter_kernel r functions a regs s0 ≡ entered
  unfolding enter_kernel entered informed mounted before told
  enter_kernel-entered =
      let registering = say (codes "Registering int32 syscall 0x03\n") 0x0A told in
      ap (say (codes "Attempting to read the test file!") 0x0B) (
        ap (within (raise (register_syscall r regs 3 a.int32))) informed-told
        ∙ ap (λ p. record registering { tables = p.0; files = p.1 })
            (raise_register r regs 3 a.int32 mounted.tables registering.files laid
              (syscalls-at 0 ∙ before-IsRunning.booted.registers)))

  entered-fsi : a.read_file < word → load32 (memory entered.files.station) a.fsi ≡ a.read_file
  unfolding entered told
  entered-fsi small =
      let registering = say (codes "Registering int32 syscall 0x03\n") 0x0A told in
      let shown =
        (put_string-Shown (codes "Registering int32 syscall 0x03\n") 0x0A (own_screen told)).on
          told-IsOnVga in
      fsi_kept (codes "Attempting to read the test file!") 0x0B a.fsi registering placed'' shown
      ∙ fsi_kept (codes "Registering int32 syscall 0x03\n") 0x0A a.fsi told placed'' told-IsOnVga
      ∙ load32-store32_self
          (memory (say (codes "Getting FS Interface\n") 0x0A mounted).files.station) a.fsi
          a.read_file small

  entered-syscalls :
      (get_or entered.tables.syscalls 0x20 0 ≡ a.get_fs_interface)
      × (get_or entered.tables.syscalls 3 0 ≡ a.int32)
  unfolding entered
  entered-syscalls =
      let set = (sys_register_syscall-syscalls 3 a.int32 mounted.tables).0 in
      (
        ap (λ l. get_or l 0x20 0) set
            ∙ get_or-set mounted.tables.syscalls 3 0x20 a.int32 0 (omega (arith, mounted-size))
            ∙ syscalls-at 0x20,
        ap (λ l. get_or l 3 0) set
            ∙ get_or-set mounted.tables.syscalls 3 3 a.int32 0 (omega (arith, mounted-size)),
      )

  entered-disk :
      (k g : ℕ)
      → fs_root_directory_lba (memory s0.files.station) < 2880
      → sector_map_lba (memory s0.files.station) < 2880
      → k < 512
      → g < 360
      → (entered.files.root_directory k
          ≡ s0.files.station.disk (fs_root_directory_lba (memory s0.files.station)) k)
        × (get_or entered.files.sector_map.sector_groups g 0
            ≡ s0.files.station.disk (sector_map_lba (memory s0.files.station)) g)
  unfolding entered told mounted
  entered-disk k g root_lt map_lt k_lt g_lt =
      let root_same = place_of r s0.files before (0x7C00 + 11) before-IsRunning (omega arith) in
      let map_same = place_of r s0.files before (0x7C00 + 13) before-IsRunning (omega arith) in
      let (directory, groups, _, _, _) =
        fs_initialize-mounts r functions regs a.fs_fdci a.get_fs_interface before.tables
          before.files k g laid before-IsRunning.booted placed' law before-IsRunning.on
          (omega (arith, root_same, root_lt)) (omega (arith, map_same, map_lt)) k_lt g_lt in
      (
        directory ∙ before-IsRunning.disk _ k ∙ ap (λ l. s0.files.station.disk l k) root_same,
        groups ∙ before-IsRunning.disk _ g ∙ ap (λ l. s0.files.station.disk l g) map_same,
      )

-- The earlier kernel, entered with the tables that the second stage leaves, functions of the disk that keep
-- to the interface, its structs between the buffer and the screen and both positions on the screen, brings
-- in the directory and the map of the sectors from the places that the first sector names, finds the
-- address of ReadFile in its struct FSI, and has registered its two calls.
pub enter_kernel-ready :
    (r : Routines) (functions : Functions) (a : Addresses) (regs : Registers32) (s : Entry)
    (k g : ℕ)
    → IsLaidOut r
    → IsBooted r s.tables
    → IsPlaced a.fdci × IsPlaced a.fs_fdci × IsPlaced a.fsi
    → a.read_file < word
    → IsLawful (functions r.read_lba r.write_lba)
    → IsOnVga s.files.station.screen
    → IsOnVga (own_screen s)
    → fs_root_directory_lba (memory s.files.station) < 2880
    → sector_map_lba (memory s.files.station) < 2880
    → k < 512
    → g < 360
    → let s' = enter_kernel r functions a regs s in
      let disk = s.files.station.disk in
      (s'.files.root_directory k ≡ disk (fs_root_directory_lba (memory s.files.station)) k)
      × (get_or s'.files.sector_map.sector_groups g 0
          ≡ disk (sector_map_lba (memory s.files.station)) g)
      × (load32 (memory s'.files.station) a.fsi ≡ a.read_file)
      × (get_or s'.tables.syscalls 0x20 0 ≡ a.get_fs_interface)
      × (get_or s'.tables.syscalls 3 0 ≡ a.int32)
enter_kernel-ready r functions a regs s k g laid booted (p, p', p'') small law on own root_lt map_lt
      k_lt g_lt =
    let (directory, groups) =
      entered-disk r functions a regs s laid booted p p' p'' law on own k g root_lt map_lt k_lt
        g_lt in
    let (syscall, syscall') =
      entered-syscalls r functions a regs s laid booted p p' p'' law on own in
    rw (enter_kernel-entered r functions a regs s laid booted p p' p'' law on own) (
      directory,
      groups,
      entered-fsi r functions a regs s laid booted p p' p'' law on own small,
      syscall,
      syscall',
    )
