-- ===== src/Files/Boot/Prepared.antt =====
-- The second stage up to FDC_Init: what it prints, and the table of the calls.
use red_fox32_old.Base.{
  ℕ, ◌≡◌, ◌∙◌, ap, arith, List, codes, get_or, length, length-set, get_or-set, set,
}
use red_fox32_old.Stage2.Screen.{Shown, Shown-trans, put_string-Shown}
use red_fox32_old.Stage2.Gates.{
  Tables, Symbols, idt_initialize-syscalls, sys_register_syscall, sys_register_syscall-syscalls,
  sys_register_interrupt_handler, sys_register_interrupt_handler-syscalls,
}
use red_fox32_old.Stage2.Calls.{Registers32, Routines, System, syscalls_initialize}
use red_fox32_old.Stage2.Calls.Dispatch.{IsLaidOut, register_syscall-registered}
use red_fox32_old.Stage2.Calls.Setup.{
  register_interrupt_handler-registered, syscalls_initialize-tables, syscalls_initialize-Shown,
}
use red_fox32_old.Files.Mount.{IsBooted}
use red_fox32_old.Files.Boot.{say, setup_interrupts, register_fdc, prepare}

pub say-Shown : (str : List ℕ) (colour : ℕ) (s : System) → Shown s.screen (say str colour s).screen
say-Shown str colour s = put_string-Shown str colour s.screen

-- The two lines before the interrupts are set up, and the two behind.
before_calls : Symbols → System → System
before_calls l s = say (codes "Initializing syscalls!\n") 0x0A (
    say (codes "Complete\n") 0x0A (
      setup_interrupts l
        (say (codes "Setting up interrupts!\n") 0x0A (say (codes "Entered C-Code!\n") 0x0A s))))

before_calls-Shown : (l : Symbols) (s : System) → Shown s.screen (before_calls l s).screen
unfolding before_calls
before_calls-Shown l s =
    let s1 = say (codes "Entered C-Code!\n") 0x0A s in
    let s2 = say (codes "Setting up interrupts!\n") 0x0A s1 in
    let s3 = say (codes "Complete\n") 0x0A (setup_interrupts l s2) in
    Shown-trans (say-Shown (codes "Entered C-Code!\n") 0x0A s) (
      Shown-trans (say-Shown (codes "Setting up interrupts!\n") 0x0A s1) (
        Shown-trans (say-Shown (codes "Complete\n") 0x0A (setup_interrupts l s2))
          (say-Shown (codes "Initializing syscalls!\n") 0x0A s3)))

pub prepare-Shown :
    (r : Routines) (l : Symbols) (s : System) → Shown s.screen (prepare r l s).screen
unfolding before_calls
prepare-Shown r l s = Shown-trans (before_calls-Shown l s) (
    Shown-trans (syscalls_initialize-Shown r (before_calls l s)) (
      say-Shown (codes "Initializing Floppy Driver!\n") 0x0A
        (syscalls_initialize r (before_calls l s))))

pub prepare-tables :
    (r : Routines) (l : Symbols) (s : System)
    → length s.tables.syscalls ≡ 0x256
    → let t = (prepare r l s).tables.syscalls in
      (get_or t 0 0 ≡ r.register_syscall)
      × (get_or t 1 0 ≡ r.register_interrupt_handler)
      × (length t ≡ 0x256)
unfolding before_calls
prepare-tables r l s n =
    syscalls_initialize-tables r (before_calls l s) (ap length (idt_initialize-syscalls l _) ∙ n)

-- The two registrations of FDC_Init.
pub register_fdc-registered :
    (r : Routines) (regs : Registers32) (irq : ℕ) (s : System)
    → IsLaidOut r
    → get_or s.tables.syscalls 0 0 ≡ r.register_syscall
    → get_or s.tables.syscalls 1 0 ≡ r.register_interrupt_handler
    → register_fdc r regs irq s ≡ record s {
      tables = sys_register_syscall 0x10 r.get_fdci (sys_register_interrupt_handler 6 irq s.tables);
    }
register_fdc-registered r regs irq s laid zeroth first =
    rw (register_interrupt_handler-registered r regs 6 irq s laid first) (
      register_syscall-registered r regs 0x10 r.get_fdci
        (record s { tables = sys_register_interrupt_handler 6 irq s.tables }) laid
        (ap (λ t. get_or t 0 0) (sys_register_interrupt_handler-syscalls 6 irq s.tables) ∙ zeroth))

pub registered-IsBooted :
    (r : Routines) (irq : ℕ) (t : Tables)
    → get_or t.syscalls 0 0 ≡ r.register_syscall
    → length t.syscalls ≡ 0x256
    → IsBooted r (sys_register_syscall 0x10 r.get_fdci (sys_register_interrupt_handler 6 irq t))
registered-IsBooted r irq t zeroth n =
    let set_to =
      (sys_register_syscall-syscalls 0x10 r.get_fdci (sys_register_interrupt_handler 6 irq t)).0
      ∙ ap (λ l. set l 0x10 r.get_fdci) (sys_register_interrupt_handler-syscalls 6 irq t) in
    record {
      size = ap length set_to ∙ length-set t.syscalls 0x10 r.get_fdci ∙ n;
      registers =
          ap (λ l. get_or l 0 0) set_to
          ∙ get_or-set t.syscalls 0x10 0 r.get_fdci 0 (omega (arith, n))
          ∙ zeroth;
      gives_fdci =
          ap (λ l. get_or l 0x10 0) set_to
          ∙ get_or-set t.syscalls 0x10 0x10 r.get_fdci 0 (omega (arith, n));
    }

pub IsBooted-same :
    (r : Routines) (t u : Tables) → u.syscalls ≡ t.syscalls → IsBooted r t → IsBooted r u
IsBooted-same r t u e h = record {
  size = ap length e ∙ h.size;
  registers = ap (λ l. get_or l 0 0) e ∙ h.registers;
  gives_fdci = ap (λ l. get_or l 0x10 0) e ∙ h.gives_fdci;
}
