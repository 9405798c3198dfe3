-- ===== src/Files/Boot/Booted.antt =====
-- What Stage2_CEntry has done when it calls the kernel.
use red_fox32_old.Base.{
  inl, inr, ℕ, ◌+◌, ◌≤◌, ◌*◌, ◌/◌, ◌%◌, ◌<◌, ◌≡◌, ◌∙◌, ap, ap₂, refl, sym, subst, arith, [], ◌∷◌,
  ◌++◌, false, codes, get_or, length, some, add32,
}
use red_fox32_old.Machine.Memory.{Memory, load32}
use red_fox32_old.Machine.Ports.{Trace, call}
use red_fox32_old.Stage2.Screen.{Screen, IsOnVga, Shown, put_string, put_string-Shown}
use red_fox32_old.Stage2.Gates.{
  Tables, Symbols, sys_register_syscall, sys_register_interrupt_handler,
}
use red_fox32_old.Stage2.Calls.{Registers32, Routines, System, get_fdci}
use red_fox32_old.Stage2.Calls.Dispatch.{IsLaidOut, get_fdci-called}
use red_fox32_old.Stage2.Fdc.{Board}
use red_fox32_old.Stage2.Fdc.Ready.{IsListening}
use red_fox32_old.Stage2.Fdc.Init.{fdc_init-returns}
use red_fox32_old.Files.{buffer, Station, memory, IsLawful}
use red_fox32_old.Files.Loader.{kernel_memory_position, kernel_start_sector, load_kernel-loaded}
use red_fox32_old.Files.Loader.Low.{IsBeside, load_kernel_low}
use red_fox32_old.Files.Loader.Steady.{load_kernel-steady}
use red_fox32_old.Files.Mount.{Functions, IsBooted}
use red_fox32_old.Files.Mount.Mounted.{load32-same}
use red_fox32_old.Files.Boot.{say, setup_fdc, prepare, interface_at, start_kernel, stage2_centry}
use red_fox32_old.Files.Boot.Prepared.{
  say-Shown, prepare-Shown, prepare-tables, register_fdc-registered, registered-IsBooted,
  IsBooted-same,
}

setup_fdc-returns :
    (r : Routines) (regs : Registers32) (irq : ℕ) (b : Board) (s : System)
    → IsLaidOut r
    → IsListening b
    → (get_or s.tables.syscalls 0 0 ≡ r.register_syscall)
      × (get_or s.tables.syscalls 1 0 ≡ r.register_interrupt_handler)
      × (length s.tables.syscalls ≡ 0x256)
    → (s' : System) × (setup_fdc r regs irq b s ≡ some s')
      × IsBooted r s'.tables
      × Shown s.screen s'.screen
unfolding setup_fdc
setup_fdc-returns r regs irq b s laid ready (zeroth, first, n) =
    let t = sys_register_syscall 0x10 r.get_fdci (sys_register_interrupt_handler 6 irq s.tables) in
    let (f, returned, drive, shown) =
      fdc_init-returns b
        (record { drive = 0; irq_received = false; screen = s.screen; trace = t.trace }) ready in
    (
      record { tables = record t { trace = f.trace }; screen = f.screen },
      rw (register_fdc-registered r regs irq s laid zeroth first, returned) refl,
      IsBooted-same r t (record t { trace = f.trace }) refl
          (registered-IsBooted r irq s.tables zeroth n),
      shown,
    )

-- The kernel has been called, with its sectors in place; `s0` is the machine at the start.
pub record IsStarted (r : Routines) (s0 : Station) (s : Tables × Station) : Type 0 where
  pub booted : IsBooted r s.0
  pub kernel :
      (k : ℕ)
      → k < 512 * 12
      → memory s.1 (kernel_memory_position + k) ≡ s0.disk (kernel_start_sector + k / 512) (k % 512)
  pub on : IsOnVga s.1.screen
  pub same : (j i : ℕ) → s.1.disk j i ≡ s0.disk j i
  pub sector : (x : ℕ) → x < buffer → memory s.1 x ≡ memory s0 x
  pub called : (t : Trace) × (s.0.trace ≡ t ++ call kernel_memory_position ∷ [])

-- From a screen that has only been printed on.
IsStarted-from :
    (r : Routines) (c : Screen) (s0 : Station) (s : Tables × Station)
    → IsStarted r (record { screen = c; disk = s0.disk }) s
    → ((x : ℕ) → x < buffer → c.memory x ≡ memory s0 x)
    → IsStarted r s0 s
IsStarted-from r c s0 s h same = record {
  booted = h.booted;
  kernel = h.kernel;
  on = h.on;
  same = h.same;
  sector = λ x low. h.sector x low ∙ same x low;
  called = h.called;
}

-- The variable FDCI, on the stack between the buffer of the drive and the place of the kernel.
abbrev pub IsOnStack : ℕ → Type 0
IsOnStack interface = (buffer + 512 ≤ interface) × (interface + 8 ≤ kernel_memory_position)

-- Where the two addresses stand in memory, so that the rounds of the loop do not write them.
interface_at-steady :
    (functions : Functions) (interface read write : ℕ) (m0 : Memory)
    → IsOnStack interface
    → load32 m0 interface ≡ read
    → load32 m0 (interface + 4) ≡ write
    → (m : Memory) → ((x : ℕ) → IsBeside x → m x ≡ m0 x)
    → interface_at functions interface m ≡ functions read write
interface_at-steady functions interface read write m0 placed e e' m same =
    let next : add32 interface 4 ≡ interface + 4 = omega arith in
    rw next (
      ap₂ functions
        (load32-same m m0 interface (λ x lo hi. same x (inr (omega arith, omega arith))) ∙ e)
        (load32-same m m0 (interface + 4) (λ x lo hi. same x (inr (omega arith, omega arith)))
          ∙ e'))

start_kernel-IsStarted :
    (r : Routines) (functions : Functions) (regs : Registers32) (interface : ℕ) (disk : ℕ → ℕ → ℕ)
    (s : System)
    → IsLaidOut r
    → IsBooted r s.tables
    → IsOnStack interface
    → IsLawful (functions r.read_lba r.write_lba)
    → IsOnVga s.screen
    → IsStarted r
        (record { screen = s.screen; disk = disk })
        (start_kernel r functions regs interface disk s)
start_kernel-IsStarted r functions regs interface disk s laid booted placed law on =
    let s1 = say (codes "Getting FDCInterface!\n") 0x0A s in
    let s2 = get_fdci r regs interface s1 in
    let (tables, position, read, write, outside) =
      get_fdci-called r regs interface s1 laid booted.gives_fdci (omega arith) in
    let on1 = (say-Shown (codes "Getting FDCInterface!\n") 0x0A s).on on in
    let on2 : IsOnVga s2.screen = record {
      bound = omega (arith, position, on1.bound);
      cell = ap (λ p. p % 2) position ∙ on1.cell;
    } in
    let shown3 = put_string-Shown (codes "Load kernel\n") 0x0A s2.screen in
    let s3 : Station = record {
      screen = put_string (codes "Load kernel\n") 0x0A s2.screen;
      disk = disk;
    } in
    let d = functions r.read_lba r.write_lba in
    let steady =
      load_kernel-steady (interface_at functions interface) d law s3
        (interface_at-steady functions interface r.read_lba r.write_lba (memory s3) placed
          (load32-same (memory s3) s2.screen.memory interface
              (λ x lo hi. shown3.outside on2 x (inl (omega arith)))
            ∙ read)
          (load32-same (memory s3) s2.screen.memory (interface + 4)
              (λ x lo hi. shown3.outside on2 x (inl (omega arith)))
            ∙ write))
        (shown3.on on2) in
    let (kernel, on4, disk_same) = load_kernel-loaded d s3 law (shown3.on on2) in
    subst
      (λ k.
        IsStarted r (record { screen = s.screen; disk = disk })
          (record s2.tables { trace = s2.tables.trace ++ call kernel_memory_position ∷ [] }, k))
      (sym steady)
      (record {
        booted = IsBooted-same r s.tables _ (ap (λ t. t.syscalls) tables) booted;
        kernel = kernel;
        on = on4;
        same = disk_same;
        sector = λ x low.
            load_kernel_low d law x (inl low) s3 (shown3.on on2)
            ∙ shown3.outside on2 x (inl (omega arith))
            ∙ outside x (inl (omega arith))
            ∙ (say-Shown (codes "Getting FDCInterface!\n") 0x0A s).outside on x (inl (omega arith));
        called = (s2.tables.trace, refl);
      })

-- With its functions at addresses of their own, a table of 0x256 system calls, the variable FDCI
-- between the buffer of the drive and the place of the kernel and the position on the screen, on
-- a floppy controller that always requests a byte, and with functions of the disk that keep to
-- the interface, Stage2_CEntry comes to its last line, although it reads FDCI from memory again
-- for every sector: the kernel, which has been called, is in memory from 0x10000 on, byte by byte
-- from the twelve sectors from 18 on, the disk and the memory below the buffer are as they were,
-- the position is on the screen, and the calls for registering and for the interface of the disk
-- are in the table of the system calls.
pub stage2_centry-IsStarted :
    (r : Routines) (l : Symbols) (functions : Functions) (regs : Registers32) (irq interface : ℕ)
    (b : Board) (t : Tables) (s : Station)
    → IsLaidOut r
    → length t.syscalls ≡ 0x256
    → IsOnStack interface
    → IsLawful (functions r.read_lba r.write_lba)
    → IsListening b
    → IsOnVga s.screen
    → (s' : Tables × Station) × (stage2_centry r l functions regs irq interface b (t, s) ≡ some s')
      × IsStarted r s s'
unfolding stage2_centry
stage2_centry-IsStarted r l functions regs irq interface b t s laid n placed law ready on =
    let s0 : System = record { tables = t; screen = s.screen } in
    let prepared = prepare r l s0 in
    let (s1, returned, booted, shown) =
      setup_fdc-returns r regs irq b prepared laid ready (prepare-tables r l s0 n) in
    (
      start_kernel r functions regs interface s.disk s1,
      rw returned refl,
      IsStarted-from r s1.screen s _
          (start_kernel-IsStarted r functions regs interface s.disk s1 laid booted placed law
            (shown.on ((prepare-Shown r l s0).on on)))
          (λ x low.
            shown.outside ((prepare-Shown r l s0).on on) x (inl (omega arith))
            ∙ (prepare-Shown r l s0).outside on x (inl (omega arith))),
    )
