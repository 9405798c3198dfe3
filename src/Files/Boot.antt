-- ===== src/Files/Boot.antt =====
-- Stage2_CEntry of Stage2.c: the second stage from its first line to the kernel.
pub mod Prepared
pub mod Booted
pub mod Handover
use red_fox32_old.Base.{ℕ, ◌+◌, List, [], ◌∷◌, ◌++◌, Option, some, codes, false, add32}
use red_fox32_old.Base.Partial.{◌>>=◌}
use red_fox32_old.Machine.Memory.{Memory, load32}
use red_fox32_old.Machine.Ports.{cli, sti, call}
use red_fox32_old.Stage2.Screen.{Screen, put_string}
use red_fox32_old.Stage2.Gates.{Tables, Symbols, idt_initialize}
use red_fox32_old.Stage2.Calls.{
  Registers32, Routines, System, register_syscall, register_interrupt_handler, get_fdci,
  syscalls_initialize,
}
use red_fox32_old.Stage2.Fdc.{Fdc, Board, fdc_init}
use red_fox32_old.Files.{Station, FdcInterface}
use red_fox32_old.Files.Loader.{load_kernel, kernel_memory_position}
use red_fox32_old.Files.Mount.{Functions}

abbrev pub say : List ℕ → (colour : ℕ) → System → System
say str colour s = record s { screen = put_string str colour s.screen }

-- The interrupts are off while the table is filled.
abbrev pub setup_interrupts : Symbols → System → System
setup_interrupts l s =
    let t = idt_initialize l (record s.tables { trace = s.tables.trace ++ cli ∷ [] }) in
    record s { tables = record t { trace = t.trace ++ sti ∷ [] } }

-- FDC_Init with its two registrations; `irq` is the address of IRQHandler.
abbrev pub register_fdc : Routines → Registers32 → (irq : ℕ) → System → System
register_fdc r regs irq s =
    register_syscall r regs 0x10 r.get_fdci (register_interrupt_handler r regs 6 irq s)

pub setup_fdc : Routines → Registers32 → (irq : ℕ) → Board → System → Option System
setup_fdc r regs irq b s' = do
  let s = register_fdc r regs irq s'
  f ←
      fdc_init b
        (record { drive = 0; irq_received = false; screen = s.screen; trace = s.tables.trace })
  some (record { tables = record s.tables { trace = f.trace }; screen = f.screen })

-- Up to FDC_Init, and from there on; `interface` is the address of the local variable FDCI.
abbrev pub prepare : Routines → Symbols → System → System
prepare r l s =
    let s = say (codes "Setting up interrupts!\n") 0x0A (say (codes "Entered C-Code!\n") 0x0A s) in
    let s = say (codes "Complete\n") 0x0A (setup_interrupts l s) in
    let s = syscalls_initialize r (say (codes "Initializing syscalls!\n") 0x0A s) in
    say (codes "Initializing Floppy Driver!\n") 0x0A s

-- The local variable FDCI as it stands in memory.
abbrev pub interface_at : Functions → (interface : ℕ) → Memory → FdcInterface
interface_at functions interface m = functions (load32 m interface) (load32 m (add32 interface 4))

abbrev pub start_kernel :
    Routines
    → Functions
    → Registers32
    → (interface : ℕ) → (disk : ℕ → ℕ → ℕ) → System
    → Tables × Station
start_kernel r functions regs interface disk s' =
    let s = get_fdci r regs interface (say (codes "Getting FDCInterface!\n") 0x0A s') in
    let screen = put_string (codes "Load kernel\n") 0x0A s.screen in
    (
      record s.tables { trace = s.tables.trace ++ call kernel_memory_position ∷ [] },
      load_kernel (interface_at functions interface) (record { screen = screen; disk = disk }),
    )

pub stage2_centry :
    Routines
    → Symbols
    → Functions
    → Registers32
    → (irq interface : ℕ) → Board
    → Tables × Station
    → Option (Tables × Station)
stage2_centry r l functions regs irq interface b (t, s) = do
  s' ← setup_fdc r regs irq b (prepare r l (record { tables = t; screen = s.screen }))
  some (start_kernel r functions regs interface s.disk s')
