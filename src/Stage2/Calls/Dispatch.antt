-- ===== src/Stage2/Calls/Dispatch.antt =====
-- The system calls once they have been set up.
use red_fox32_old.Base.{
  ℕ, ◌+◌, ◌≤◌, ◌<◌, ◌≡◌, ◌≢◌, ◌∙◌, ◌⊎◌, ap, refl, inl, arith, List, length, get_or, set, length-set,
  get_or-set, [], ◌∷◌, ◌++◌, ◌==◌, ltb, if◌then◌else◌, word, add32, for_range, length-fill_range,
  get_or-fill_range, ==_false, true,
}
use red_fox32_old.Machine.Memory.{
  load32, store32, load32-store32_self, load32-store32_ne, store32_outside,
}
use red_fox32_old.Machine.Ports.{call}
use red_fox32_old.Stage2.Gates.{sys_register_syscall, sys_register_syscall-syscalls}
use red_fox32_old.Stage2.Calls.{
  Registers32, Routines, System, sys_get_fdci, run_call, int_syscall, register_syscall, get_fdci,
  syscalls_initialize,
}

-- The functions have addresses of their own, none of them null.
pub record IsLaidOut (r : Routines) : Type 0 where
  pub not_null : r.register_syscall ≢ 0
  pub handler_not_null : r.register_interrupt_handler ≢ 0
  pub handler_apart : r.register_interrupt_handler ≢ r.register_syscall
  pub fdci_not_null : r.get_fdci ≢ 0
  pub apart : r.get_fdci ≢ r.register_syscall
  pub apart' : r.get_fdci ≢ r.register_interrupt_handler
  pub small : r.read_lba < word
  pub small' : r.write_lba < word

-- The table of the calls after the setup.
unfoldable pub initialized : (r : Routines) (s : System) → List ℕ
initialized r s = (syscalls_initialize r s).tables.syscalls

pub initialized-at :
    (r : Routines) (s : System) (k : ℕ)
    → length s.tables.syscalls ≡ 0x256
    → get_or (initialized r s) k 0 ≡ (
        if k == 0
        then r.register_syscall
        else if k == 1
        then r.register_interrupt_handler
        else if ltb k 255
        then 0
        else get_or s.tables.syscalls k 0)
unfolding initialized syscalls_initialize
initialized-at r s k n =
    let once = set s.tables.syscalls 0 r.register_syscall in
    let length_once : length once ≡ 0x256 = length-set s.tables.syscalls 0 r.register_syscall ∙ n in
    let twice = set once 1 r.register_interrupt_handler in
    let length_twice : length twice ≡ 0x256 =
      length-set once 1 r.register_interrupt_handler ∙ length_once in
    get_or-fill_range 253 2 (λ i. 0) twice k 0 (omega (arith, length_twice))
    ∙ ground (
      arith,
      get_or-set once 1 k r.register_interrupt_handler 0 (omega (arith, length_once)),
      get_or-set s.tables.syscalls 0 k r.register_syscall 0 (omega (arith, n)),
    )

pub length-initialized :
    (r : Routines) (s : System)
    → length s.tables.syscalls ≡ 0x256
    → length (initialized r s) ≡ 0x256
unfolding initialized syscalls_initialize
length-initialized r s n =
    length-fill_range 253 2 (λ i. 0)
      (set (set s.tables.syscalls 0 r.register_syscall) 1 r.register_interrupt_handler)
    ∙ length-set (set s.tables.syscalls 0 r.register_syscall) 1 r.register_interrupt_handler
    ∙ length-set s.tables.syscalls 0 r.register_syscall
    ∙ n

pub eq_self : (a : ℕ) → (a == a) ≡ true
eq_self a = ground arith

pub register_syscall-registered :
    (r : Routines) (regs : Registers32) (id f : ℕ) (s : System)
    → IsLaidOut r
    → get_or s.tables.syscalls 0 0 ≡ r.register_syscall
    → register_syscall r regs id f s ≡ record s { tables = sys_register_syscall id f s.tables }
unfolding register_syscall int_syscall run_call
register_syscall-registered r regs id f s h e =
    rw (e, ==_false h.not_null, eq_self r.register_syscall)

-- The state after the setup and one registration.
abbrev set_up : Routines → Registers32 → (id f : ℕ) → System → System
set_up r regs id f s = register_syscall r regs id f (syscalls_initialize r s)

set_up-at :
    (r : Routines) (regs : Registers32) (id f k : ℕ) (s : System)
    → IsLaidOut r
    → length s.tables.syscalls ≡ 0x256
    → id < 0x256
    → get_or (set_up r regs id f s).tables.syscalls k 0
      ≡ (if id == k then f else get_or (initialized r s) k 0)
unfolding initialized
set_up-at r regs id f k s h n lt =
    let start : get_or (initialized r s) 0 0 ≡ r.register_syscall = initialized-at r s 0 n in
    ap (λ z. get_or z.tables.syscalls k 0)
      (register_syscall-registered r regs id f (syscalls_initialize r s) h start)
    ∙ ap (λ l. get_or l k 0) (sys_register_syscall-syscalls id f (syscalls_initialize r s).tables).0
    ∙ get_or-set (initialized r s) id k f 0 (omega (arith, length-initialized r s n))

set_up-trace :
    (r : Routines) (regs : Registers32) (id f : ℕ) (s : System)
    → IsLaidOut r
    → length s.tables.syscalls ≡ 0x256
    → (set_up r regs id f s).tables.trace ≡ s.tables.trace
unfolding syscalls_initialize initialized for_range
set_up-trace r regs id f s h n =
    ap (λ z. z.tables.trace)
      (register_syscall-registered r regs id f (syscalls_initialize r s) h (initialized-at r s 0 n))
    ∙ (sys_register_syscall-syscalls id f (syscalls_initialize r s).tables).1

int_syscall_ignored :
    (r : Routines) (regs : Registers32) (s : System)
    → get_or s.tables.syscalls regs.eax 0 ≡ 0
    → int_syscall r regs s ≡ s
unfolding int_syscall
int_syscall_ignored r regs s e = rw e

int_syscall_called :
    (r : Routines) (regs : Registers32) (s : System) (f : ℕ)
    → get_or s.tables.syscalls regs.eax 0 ≡ f
    → f ≢ 0
    → (f ≢ r.register_syscall) × (f ≢ r.register_interrupt_handler) × (f ≢ r.get_fdci)
    → (int_syscall r regs s).tables.trace ≡ s.tables.trace ++ call f ∷ []
unfolding int_syscall run_call
int_syscall_called r regs s f e some_function (a, b, c) =
    rw (e, ==_false some_function, ==_false a, ==_false b, ==_false c)

-- After the setup, a call registered under a free number is the function that the interrupt calls for
-- this number, and the interrupt does nothing for any other number from 2 to 254.
pub int_syscall-register_syscall :
    (r : Routines) (regs regs' : Registers32) (id f : ℕ) (s : System)
    → IsLaidOut r
    → length s.tables.syscalls ≡ 0x256
    → id < 0x256
    → f ≢ 0
    → (f ≢ r.register_syscall) × (f ≢ r.register_interrupt_handler) × (f ≢ r.get_fdci)
    → let s' = register_syscall r regs id f (syscalls_initialize r s) in
      ((int_syscall r (record regs' { eax = id }) s').tables.trace ≡ s.tables.trace ++ call f ∷ [])
      × ((k : ℕ) → 2 ≤ k → k < 255 → k ≢ id → int_syscall r (record regs' { eax = k }) s' ≡ s')
int_syscall-register_syscall r regs regs' id f s h n lt some_function other =
    let s' = set_up r regs id f s in
    (
      int_syscall_called r (record regs' { eax = id }) s' f
            (set_up-at r regs id f id s h n lt ∙ ground arith) some_function other
          ∙ ap (λ t. t ++ call f ∷ []) (set_up-trace r regs id f s h n),
      λ k lo hi ne.
          int_syscall_ignored r (record regs' { eax = k }) s'
            (set_up-at r regs id f k s h n lt ∙ ground (arith, ne, initialized-at r s k n)),
    )

-- What the call of FDC.c leaves in the struct that it is given, and that it leaves the rest alone.
pub get_fdci-called :
    (r : Routines) (regs : Registers32) (interface : ℕ) (s : System)
    → IsLaidOut r
    → get_or s.tables.syscalls 0x10 0 ≡ r.get_fdci
    → interface + 8 < word
    → let s' = get_fdci r regs interface s in
      (s'.tables ≡ s.tables)
      × (s'.screen.screen_pos ≡ s.screen.screen_pos)
      × (load32 s'.screen.memory interface ≡ r.read_lba)
      × (load32 s'.screen.memory (interface + 4) ≡ r.write_lba)
      × ((x : ℕ) → (x < interface) ⊎ (interface + 8 ≤ x) → s'.screen.memory x ≡ s.screen.memory x)
unfolding get_fdci int_syscall run_call sys_get_fdci
get_fdci-called r regs interface s h there room =
    let next : add32 interface 4 ≡ interface + 4 = omega arith in
    let m = store32 s.screen.memory interface r.read_lba in
    rw
      (
        there,
        ==_false h.fdci_not_null,
        ==_false h.apart,
        ==_false h.apart',
        eq_self r.get_fdci,
        next,
      )
      (
        refl,
        refl,
        load32-store32_ne m (interface + 4) r.write_lba interface (inl (omega arith))
            ∙ load32-store32_self s.screen.memory interface r.read_lba h.small,
        load32-store32_self m (interface + 4) r.write_lba h.small',
        λ x out.
            store32_outside m (interface + 4) r.write_lba x (ground arith)
            ∙ store32_outside s.screen.memory interface r.read_lba x (ground arith),
      )

-- After the setup, the registration of FDC_Init and the call of Stage2_CEntry leave the addresses of the
-- two functions of the floppy driver in the struct that is asked for, which ends below the last address.
pub get_fdci-interface :
    (r : Routines) (regs regs' : Registers32) (interface : ℕ) (s : System)
    → IsLaidOut r
    → length s.tables.syscalls ≡ 0x256
    → interface + 8 < word
    → let m =
        (get_fdci r regs' interface
          (register_syscall r regs 0x10 r.get_fdci (syscalls_initialize r s))).screen.memory in
      (load32 m interface ≡ r.read_lba) × (load32 m (interface + 4) ≡ r.write_lba)
get_fdci-interface r regs regs' interface s h n room =
    let called =
      get_fdci-called r regs' interface (set_up r regs 0x10 r.get_fdci s) h
        (set_up-at r regs 0x10 r.get_fdci 0x10 s h n (omega arith)) room in
    (called.2, called.3)
