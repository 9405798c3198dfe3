-- ===== src/Stage2/Calls/Setup.antt =====
-- The calls of the second stage while it sets itself up.
use red_fox32_old.Base.{ℕ, ◌≡◌, refl, length, get_or, ==_false}
use red_fox32_old.Stage2.Gates.{sys_register_interrupt_handler}
use red_fox32_old.Stage2.Screen.{Shown, put_string-Shown}
use red_fox32_old.Stage2.Calls.{
  Registers32, Routines, System, run_call, int_syscall, register_interrupt_handler,
  syscalls_initialize,
}
use red_fox32_old.Stage2.Calls.Dispatch.{
  IsLaidOut, eq_self, initialized, initialized-at, length-initialized,
}

pub register_interrupt_handler-registered :
    (r : Routines) (regs : Registers32) (id f : ℕ) (s : System)
    → IsLaidOut r
    → get_or s.tables.syscalls 1 0 ≡ r.register_interrupt_handler
    → register_interrupt_handler r regs id f s
      ≡ record s { tables = sys_register_interrupt_handler id f s.tables }
unfolding register_interrupt_handler int_syscall run_call
register_interrupt_handler-registered r regs id f s h e =
    rw
      (
        e,
        ==_false h.handler_not_null,
        ==_false h.handler_apart,
        eq_self r.register_interrupt_handler,
      )
      refl

-- The table after Syscalls_Initialize, which prints.
pub syscalls_initialize-tables :
    (r : Routines) (s : System)
    → length s.tables.syscalls ≡ 0x256
    → let t = (syscalls_initialize r s).tables.syscalls in
      (get_or t 0 0 ≡ r.register_syscall)
      × (get_or t 1 0 ≡ r.register_interrupt_handler)
      × (length t ≡ 0x256)
unfolding initialized
syscalls_initialize-tables r s n =
    (initialized-at r s 0 n, initialized-at r s 1 n, length-initialized r s n)

pub syscalls_initialize-Shown :
    (r : Routines) (s : System) → Shown s.screen (syscalls_initialize r s).screen
unfolding syscalls_initialize
syscalls_initialize-Shown r s = put_string-Shown _ 0x0B s.screen
