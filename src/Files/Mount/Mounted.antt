-- ===== src/Files/Mount/Mounted.antt =====
-- What FS_Initialize leaves: the directory, the map and the table of the calls.
use red_fox32_old.Base.{
  ℕ, ◌+◌, ◌*◌, ◌%◌, ◌≤◌, ◌<◌, ◌≡◌, ◌∙◌, ◌⊎◌, ap, ap₂, subst, sym, inl, inr, arith, get_or,
  get_or-set, add32,
}
use red_fox32_old.Machine.Memory.{Memory, load32}
use red_fox32_old.Stage2.Screen.{IsOnVga, vga_memory}
use red_fox32_old.Stage2.Gates.{Tables, sys_register_syscall, sys_register_syscall-syscalls}
use red_fox32_old.Stage2.Calls.{Registers32, Routines, System, register_syscall, get_fdci}
use red_fox32_old.Stage2.Calls.Dispatch.{IsLaidOut, register_syscall-registered, get_fdci-called}
use red_fox32_old.Files.{memory, buffer, FdcInterface, IsLawful}
use red_fox32_old.Files.Mount.{Functions, fdci, raise, fs_initialize, IsBooted, IsPlaced}
use red_fox32_old.Files.Sectors.{
  FileSystem, load16, fs_root_directory_lba, sector_map_lba, load_sector_map,
  load_fs_root_directory,
}
use red_fox32_old.Files.Sectors.Load.{
  load_sector_map-groups, load_sector_map-counts, load_fs_root_directory-bytes,
  load_fs_root_directory-station, load_sector_map-station, load_sector_map-directory,
}

pub load32-same :
    (m n : Memory) (a : ℕ) → ((x : ℕ) → a ≤ x → x < a + 4 → m x ≡ n x) → load32 m a ≡ load32 n a
unfolding load32
load32-same m n a h = ground (
  arith,
  h a (omega arith) (omega arith),
  h (a + 1) (omega arith) (omega arith),
  h (a + 2) (omega arith) (omega arith),
  h (a + 3) (omega arith) (omega arith),
)

pub raise_register :
    (r : Routines) (regs : Registers32) (id handler : ℕ) (t : Tables) (f : FileSystem)
    → IsLaidOut r
    → get_or t.syscalls 0 0 ≡ r.register_syscall
    → raise (register_syscall r regs id handler) (t, f) ≡ (sys_register_syscall id handler t, f)
raise_register r regs id handler t f laid there =
    ap (λ (s : System). (s.tables, record f { station = record f.station { screen = s.screen } }))
      (register_syscall-registered r regs id handler
        (record { tables = t; screen = f.station.screen }) laid there)

module _ (r : Routines) (functions : Functions) (regs : Registers32) (interface : ℕ) (t : Tables)
    (f : FileSystem) (laid : IsLaidOut r) (booted : IsBooted r t) (placed : IsPlaced interface)
    (law : IsLawful (functions r.read_lba r.write_lba)) (on : IsOnVga f.station.screen) where
  -- The functions that the struct is to have.
  disk_functions : FdcInterface
  disk_functions = functions r.read_lba r.write_lba

  -- Behind the call for the interface, and behind the first read.
  asked : Tables × FileSystem
  asked = raise (get_fdci r regs interface) (t, f)

  rooted : FileSystem
  rooted = load_fs_root_directory (fdci functions interface asked.1) asked.1

  asked-tables : asked.0 ≡ t
  unfolding asked
  asked-tables =
      (get_fdci-called r regs interface (record { tables = t; screen = f.station.screen }) laid
        booted.gives_fdci (omega arith)).0

  asked-memory :
      (x : ℕ)
      → (x < interface) ⊎ (interface + 8 ≤ x)
      → memory asked.1.station x ≡ memory f.station x
  unfolding asked
  asked-memory =
      (get_fdci-called r regs interface (record { tables = t; screen = f.station.screen }) laid
        booted.gives_fdci (omega arith)).4

  asked-IsOnVga : IsOnVga asked.1.station.screen
  unfolding asked
  asked-IsOnVga =
      let same =
        (get_fdci-called r regs interface (record { tables = t; screen = f.station.screen }) laid
          booted.gives_fdci (omega arith)).1 in
      record { bound = omega (arith, same, on.bound); cell = ap (λ p. p % 2) same ∙ on.cell }

  asked-fdci : fdci functions interface asked.1 ≡ disk_functions
  unfolding asked disk_functions
  asked-fdci =
      let called =
        get_fdci-called r regs interface (record { tables = t; screen = f.station.screen }) laid
          booted.gives_fdci (omega arith) in
      let next : add32 interface 4 ≡ interface + 4 = omega arith in
      rw next (ap₂ functions called.2 called.3)

  rooted-memory :
      (x : ℕ)
      → (x < buffer) ⊎ ((buffer + 512 ≤ x) × (x < vga_memory))
      → memory rooted.station x ≡ memory asked.1.station x
  unfolding rooted disk_functions
  rooted-memory x out =
      ap (λ s. memory s x)
        (load_fs_root_directory-station (fdci functions interface asked.1) asked.1)
      ∙ ap
          (λ (d : FdcInterface).
            memory (d.read_lba (fs_root_directory_lba (memory asked.1.station)) asked.1.station) x)
          asked-fdci
      ∙ law.read_frame _ x asked.1.station asked-IsOnVga out

  rooted-fdci : fdci functions interface rooted ≡ disk_functions
  unfolding disk_functions
  rooted-fdci =
      let next : add32 interface 4 ≡ interface + 4 = omega arith in
      ap₂ functions
        (load32-same (memory rooted.station) (memory asked.1.station) interface
          (λ x lo hi. rooted-memory x (inr (omega arith, omega arith))))
        (load32-same (memory rooted.station) (memory asked.1.station) (add32 interface 4)
          (λ x lo hi. rooted-memory x (inr (omega arith, omega arith))))
      ∙ asked-fdci

  root_place :
      fs_root_directory_lba (memory asked.1.station) ≡ fs_root_directory_lba (memory f.station)
  root_place =
      ap₂ (λ a b. a + 256 * b) (asked-memory (0x7C00 + 11) (inl (omega arith)))
        (asked-memory (0x7C00 + 11 + 1) (inl (omega arith)))

  map_place : sector_map_lba (memory rooted.station) ≡ sector_map_lba (memory f.station)
  map_place =
      ap₂ (λ a b. a + 256 * b)
        (rooted-memory (0x7C00 + 13) (inl (omega arith))
          ∙ asked-memory (0x7C00 + 13) (inl (omega arith)))
        (rooted-memory (0x7C00 + 13 + 1) (inl (omega arith))
          ∙ asked-memory (0x7C00 + 13 + 1) (inl (omega arith)))

  rooted-disk : (j i : ℕ) → rooted.station.disk j i ≡ f.station.disk j i
  unfolding rooted disk_functions asked
  rooted-disk j i =
      ap (λ s. s.disk j i)
        (load_fs_root_directory-station (fdci functions interface asked.1) asked.1)
      ∙ (subst IsLawful (sym asked-fdci) law).read_disk _ j i asked.1.station

  map_at :
      (i : ℕ)
      → rooted.station.disk (sector_map_lba (memory rooted.station)) i
        ≡ f.station.disk (sector_map_lba (memory f.station)) i
  map_at i = rooted-disk _ i ∙ ap (λ l. f.station.disk l i) map_place

  mounted : FileSystem
  mounted = load_sector_map (fdci functions interface rooted) rooted

  mounted-root :
      (k : ℕ)
      → fs_root_directory_lba (memory f.station) < 2880
      → k < 512
      → mounted.root_directory k ≡ f.station.disk (fs_root_directory_lba (memory f.station)) k
  unfolding mounted rooted asked disk_functions
  mounted-root k lt small =
      ap (λ (m : Memory). m k) (load_sector_map-directory (fdci functions interface rooted) rooted)
      ∙ load_fs_root_directory-bytes (fdci functions interface asked.1) asked.1 k
          (subst IsLawful (sym asked-fdci) law) (omega (arith, root_place, lt)) small
      ∙ ap (λ l. f.station.disk l k) root_place

  mounted-map :
      (g : ℕ)
      → sector_map_lba (memory f.station) < 2880
      → g < 360
      → (get_or mounted.sector_map.sector_groups g 0
          ≡ f.station.disk (sector_map_lba (memory f.station)) g)
        × (mounted.sector_map.used_sectors
            ≡ load16 (f.station.disk (sector_map_lba (memory f.station))) 360)
        × (mounted.sector_map.free_sectors
            ≡ load16 (f.station.disk (sector_map_lba (memory f.station))) 362)
  unfolding mounted disk_functions
  mounted-map g lt small =
      let law' = subst IsLawful (sym rooted-fdci) law in
      let lt' : sector_map_lba (memory rooted.station) < 2880 = omega (arith, map_place, lt) in
      let counts = load_sector_map-counts (fdci functions interface rooted) law' rooted lt' in
      (
        load_sector_map-groups (fdci functions interface rooted) law' rooted lt' g small ∙ map_at g,
        counts.0 ∙ ap₂ (λ a b. a + 256 * b) (map_at 360) (map_at 361),
        counts.1 ∙ ap₂ (λ a b. a + 256 * b) (map_at 362) (map_at 363),
      )

  mounted-IsOnVga : IsOnVga mounted.station.screen
  unfolding mounted rooted disk_functions
  mounted-IsOnVga =
      let rooted_on =
        subst (λ s. IsOnVga s.screen)
          (sym (load_fs_root_directory-station (fdci functions interface asked.1) asked.1))
          ((subst IsLawful (sym asked-fdci) law).read_screen _ asked.1.station asked-IsOnVga) in
      subst (λ s. IsOnVga s.screen)
        (sym (load_sector_map-station (fdci functions interface rooted) rooted))
        ((subst IsLawful (sym rooted-fdci) law).read_screen _ rooted.station rooted_on)

  registered :
      (handler : ℕ)
      → fs_initialize r functions regs interface handler (t, f)
        ≡ (sys_register_syscall 0x20 handler asked.0, mounted)
  unfolding fs_initialize mounted rooted asked
  registered handler =
      raise_register r regs 0x20 handler asked.0 mounted laid
        (ap (λ u. get_or u.syscalls 0 0) asked-tables ∙ booted.registers)

-- What else it leaves: the tables with its call, and the position on the screen.
pub fs_initialize-kept :
    (r : Routines) (functions : Functions) (regs : Registers32) (interface handler : ℕ) (t : Tables)
    (f : FileSystem)
    → IsLaidOut r
    → IsBooted r t
    → IsPlaced interface
    → IsLawful (functions r.read_lba r.write_lba)
    → IsOnVga f.station.screen
    → let s = fs_initialize r functions regs interface handler (t, f) in
      (s.0 ≡ sys_register_syscall 0x20 handler t) × IsOnVga s.1.station.screen
fs_initialize-kept r functions regs interface handler t f laid booted placed law on =
    rw (registered r functions regs interface t f laid booted placed law on handler) (
      ap (sys_register_syscall 0x20 handler)
          (asked-tables r functions regs interface t f laid booted placed law on),
      mounted-IsOnVga r functions regs interface t f laid booted placed law on,
    )

-- From the tables that the second stage leaves, with the struct FDCI between the buffer and the screen and
-- functions of the disk that keep to the interface, FS_Initialize brings in the sector that the first
-- sector names for the directory and the map and the counts from the other one, and its own call is
-- registered under 0x20.
pub fs_initialize-mounts :
    (r : Routines) (functions : Functions) (regs : Registers32) (interface handler : ℕ) (t : Tables)
    (f : FileSystem) (k g : ℕ)
    → IsLaidOut r
    → IsBooted r t
    → IsPlaced interface
    → IsLawful (functions r.read_lba r.write_lba)
    → IsOnVga f.station.screen
    → fs_root_directory_lba (memory f.station) < 2880
    → sector_map_lba (memory f.station) < 2880
    → k < 512
    → g < 360
    → let (t', f') = fs_initialize r functions regs interface handler (t, f) in
      let map_bytes = f.station.disk (sector_map_lba (memory f.station)) in
      (f'.root_directory k ≡ f.station.disk (fs_root_directory_lba (memory f.station)) k)
      × (get_or f'.sector_map.sector_groups g 0 ≡ map_bytes g)
      × (f'.sector_map.used_sectors ≡ load16 map_bytes 360)
      × (f'.sector_map.free_sectors ≡ load16 map_bytes 362)
      × (get_or t'.syscalls 0x20 0 ≡ handler)
fs_initialize-mounts r functions regs interface handler t f k g laid booted placed law on root_lt
      map_lt k_lt g_lt =
    let there = asked-tables r functions regs interface t f laid booted placed law on in
    let (groups, used, free) =
      mounted-map r functions regs interface t f laid booted placed law on g map_lt g_lt in
    rw (registered r functions regs interface t f laid booted placed law on handler) (
      mounted-root r functions regs interface t f laid booted placed law on k root_lt k_lt,
      groups,
      used,
      free,
      rw (there, (sys_register_syscall-syscalls 0x20 handler t).0)
          (get_or-set t.syscalls 0x20 0x20 handler 0 (omega (arith, booted.size)) ∙ ground arith),
    )
