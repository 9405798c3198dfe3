-- ===== src/Stage2/Calls.antt =====
-- The system calls of the earlier second stage, from the software interrupt to the function: Syscall.c, the
-- wrappers of Interrupts.c, and the call of FDC.c that hands out its two functions.
pub mod Dispatch
pub mod Setup
use red_fox32_old.Base.{
  ℕ, ◌+◌, ◌*◌, ◌%◌, ◌≤◌, ◌<◌, ◌≡◌, ◌≢◌, ◌∙◌, ap, ap₂, sym, subst, refl, inl, inr, arith, List,
  length, get_or, set, length-set, get_or-set, [], ◌∷◌, ◌++◌, ◌==◌, leb, ltb, ◌&&◌, if◌then◌else◌,
  codes, word, add32, fill_range, length-fill_range, get_or-fill_range, ==_false, true,
}
use red_fox32_old.Machine.Memory.{Memory, load32, store32, load32-store32_self, load32-store32_ne}
use red_fox32_old.Machine.Ports.{call}
use red_fox32_old.Stage2.Gates.{
  Tables, sys_register_syscall, sys_register_syscall-syscalls, sys_register_interrupt_handler,
}
use red_fox32_old.Stage2.Screen.{Screen, put_string}

pub record Registers32 : Type 0 where
  pub edi : ℕ
  pub esi : ℕ
  pub ebp : ℕ
  pub esp : ℕ
  pub ebx : ℕ
  pub edx : ℕ
  pub ecx : ℕ
  pub eax : ℕ

-- The addresses of the functions, which the linker gives.
pub record Routines : Type 0 where
  pub register_syscall : ℕ
  pub register_interrupt_handler : ℕ
  pub get_fdci : ℕ
  pub read_lba : ℕ
  pub write_lba : ℕ

-- The tables, and the screen with the memory.
pub record System : Type 0 where
  pub tables : Tables
  pub screen : Screen

-- The two fields of the struct at EDX.
pub sys_get_fdci : Routines → Registers32 → System → System
sys_get_fdci r regs s = record s {
  screen = record s.screen {
    memory = store32 (store32 s.screen.memory regs.edx r.read_lba) (add32 regs.edx 4) r.write_lba;
  };
}

-- The function at an address; one that is none of these is an action.
abbrev run_call : Routines → (f : ℕ) → Registers32 → System → System
unfolding sys_get_fdci
run_call r f regs s =
    if f == r.register_syscall
    then record s { tables = sys_register_syscall regs.ebx regs.edx s.tables }
    else if f == r.register_interrupt_handler
    then record s { tables = sys_register_interrupt_handler regs.ebx regs.edx s.tables }
    else if f == r.get_fdci
    then sys_get_fdci r regs s
    else record s { tables = record s.tables { trace = s.tables.trace ++ call f ∷ [] } }

pub int_syscall : Routines → Registers32 → System → System
int_syscall r regs s =
    let f = get_or s.tables.syscalls regs.eax 0 in if f == 0 then s else run_call r f regs s

-- The wrappers set some of the registers and raise the interrupt.
pub register_syscall : Routines → Registers32 → (id position : ℕ) → System → System
register_syscall r regs id position s =
    int_syscall r (record regs { ebx = id; edx = position; eax = 0 }) s

pub register_interrupt_handler : Routines → Registers32 → (id position : ℕ) → System → System
register_interrupt_handler r regs id position s =
    int_syscall r (record regs { ebx = id; edx = position; eax = 1 }) s

pub get_fdci : Routines → Registers32 → (interface : ℕ) → System → System
get_fdci r regs interface s = int_syscall r (record regs { edx = interface; eax = 0x10 }) s

pub syscalls_initialize : Routines → System → System
syscalls_initialize r s =
    let screen =
      put_string
        (codes
          "Setup default syscalls:\n    0=SYS_RegisterSyscall\n    1=SYS_RegisterInterruptHandler\n")
        0x0B s.screen in
    let t = set (set s.tables.syscalls 0 r.register_syscall) 1 r.register_interrupt_handler in
    record s {
      tables = record s.tables { syscalls = fill_range 253 2 (λ i. 0) t };
      screen = screen;
    }
