-- ===== src/Tests/Stage2Tests.antt =====
-- The earlier second stage and file system on concrete states.
use red_fox32_old.Base.{
  ℕ, ◌≢◌, zero, suc, ◌+◌, ◌-◌, ◌*◌, ◌≤◌, ◌<◌, ◌≡◌, refl, arith, [], ◌∷◌, replicate,
}
use red_fox32_old.Stage2.Gates.{Tables, null_gate}
use red_fox32_old.Machine.Ports.{call}
use red_fox32_old.Stage2.Calls.{
  Registers32, Routines, System, int_syscall, register_syscall, syscalls_initialize,
}
use red_fox32_old.Stage2.Calls.Dispatch.{IsLaidOut, int_syscall-register_syscall}
use red_fox32_old.Stage2.SectorMap.{
  SectorMap, IsMap, get_sector_status, set_sector_status, get_sector_status-set_sector_status,
}
use red_fox32_old.Stage2.Fdc.{lba2chs}
use red_fox32_old.Stage2.Fdc.Blocks.{lba2chs-place}

abbrev tables : Tables
tables = record {
  gates = replicate 256 null_gate;
  interrupt_handlers = replicate 16 0;
  syscalls = [];
  trace = [];
}

abbrev map : SectorMap
map = record { sector_groups = 0xF0 ∷ 0x0F ∷ []; used_sectors = 8; free_sectors = 8 }

map-IsMap : IsMap map
map-IsMap zero = omega arith
map-IsMap (suc zero) = omega arith
map-IsMap (suc (suc i)) = omega arith

get_sector_status-set_sector_status_example : get_sector_status 9 (set_sector_status 9 7 map) ≡ 1
get_sector_status-set_sector_status_example =
    get_sector_status-set_sector_status 9 7 9 map map-IsMap (omega arith)

lba2chs-place_example :
    let (c, h, s) = lba2chs 100 in
    (c < 80) × (h < 2) × (1 ≤ s) × (s ≤ 18) × ((c * 2 + h) * 18 + (s - 1) ≡ 100)
lba2chs-place_example = lba2chs-place 100 (omega arith)

-- The calls with the functions at addresses of their own.
abbrev routines : Routines
routines = record {
  register_syscall = 0x1000;
  register_interrupt_handler = 0x1100;
  get_fdci = 0x1200;
  read_lba = 0x1300;
  write_lba = 0x1400;
}

routines-IsLaidOut : IsLaidOut routines
routines-IsLaidOut = record {
  not_null = λ e. omega (arith, e);
  handler_not_null = λ e. omega (arith, e);
  handler_apart = λ e. omega (arith, e);
  fdci_not_null = λ e. omega (arith, e);
  apart = λ e. omega (arith, e);
  apart' = λ e. omega (arith, e);
  small = omega arith;
  small' = omega arith;
}

abbrev no_registers : Registers32
no_registers = record { edi = 0; esi = 0; ebp = 0; esp = 0; ebx = 0; edx = 0; ecx = 0; eax = 0 }

abbrev host : System
host = record {
  tables = record tables { syscalls = replicate 0x256 0 };
  screen = record { memory = λ x. 0; screen_pos = 0 };
}

int_syscall-register_syscall_example :
    let s' = register_syscall routines no_registers 3 0x2000 (syscalls_initialize routines host) in
    ((int_syscall routines (record no_registers { eax = 3 }) s').tables.trace ≡ call 0x2000 ∷ [])
    × ((k : ℕ)
        → 2 ≤ k
        → k < 255
        → k ≢ 3
        → int_syscall routines (record no_registers { eax = k }) s' ≡ s')
int_syscall-register_syscall_example =
    int_syscall-register_syscall routines no_registers no_registers 3 0x2000 host routines-IsLaidOut
      refl (omega arith) (λ e. omega (arith, e))
      ((λ e. omega (arith, e)), (λ e. omega (arith, e)), (λ e. omega (arith, e)))
