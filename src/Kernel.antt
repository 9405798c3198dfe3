-- ===== src/Kernel.antt =====
-- Kernel.c and Syscalls.c: the setup of the kernel, the two blocks that it tries the allocator with,
-- and what its main loop does with an event.
pub mod Blocks
pub mod Loop
use red_fox32_old.Base.{
  ℕ, zero, suc, ◌≡◌, ◌∙◌, refl, arith, [], ◌∷◌, ◌++◌, length, true, false, Option, none, some,
  bit_and, ◌==◌, if◌then◌else◌, codes, ltb, Bool-cases, inl, inr, ◌-◌, add32, for_range,
}
use red_fox32_old.Base.Partial.{◌>>=◌}
use red_fox32_old.Machine.Ports.{Trace, Device, cli, sti, outb, outw, inb}
use red_fox32_old.Console.{Console, text_mode_setup, show_colours, putch, puts}
use red_fox32_old.Allocator.{
  Allocator, memory_management_setup, print, Outcome, returned, malloc, free, ◌>>=◌ as ◌>>>◌,
}
use red_fox32_old.Allocator.Data.{write}
use red_fox32_old.Allocator.Chain.{IsHeap, setup-IsHeap}
use red_fox32_old.Allocator.Display.{mmap_display}
use red_fox32_old.Idt.{
  Idt, Linked, idt_setup, set_interrupt_handler, handler_syscalls, idt_entry_count,
  idt_interrupt_handlers_count,
}
use red_fox32_old.Idt.Setup.{idt_setup-tables}
use red_fox32_old.Idt.Dispatch.{handler_for, handler_for-set, length-set_interrupt_handler}
use red_fox32_old.Keyboard.{Keyboard, KeyboardEvent, keyboard_setup, handler_keyboard, no_modifiers}
use red_fox32_old.Keyboard.Locks.{Clear, keyboard_setup-Clear}

-- The parts of the kernel. The allocator's record has the memory and the screen; the trace of what
-- has been done to the machine is that of `idt`, which `keyboard` takes over while it is set up.
pub record Kernel : Type 0 where
  pub allocator : Allocator
  pub idt : Idt
  pub keyboard : Keyboard

-- The addresses of Keyboard_Handler and SyscallHandler.
pub record Handlers : Type 0 where
  pub keyboard_handler : ℕ
  pub syscall_handler : ℕ

pub syscalls_setup : (handler : ℕ) → Idt → Idt
syscalls_setup handler idt = set_interrupt_handler handler_syscalls handler idt

-- KMain up to the interrupts being enabled.
pub setup_kernel : Linked → Device → ℕ → Handlers → (mmap : ℕ) → Kernel → Option Kernel
unfolding syscalls_setup
setup_kernel l device fuel h mmap k =
    let idt = syscalls_setup h.syscall_handler (idt_setup l k.idt) in
    let a = memory_management_setup mmap k.allocator in
    let a = print a (text_mode_setup a.console) in
    do
      r ←
          keyboard_setup device fuel h.keyboard_handler
            (record k.keyboard { trace = idt.trace }, idt)
      some (record {
        allocator = a;
        idt = record r.1 { trace = r.0.trace ++ sti ∷ [] };
        keyboard = r.0;
      })

-- The debug output behind it.
pub show_debug : (mmap : ℕ) → Kernel → Kernel
show_debug mmap k = record k {
  allocator = print k.allocator (mmap_display mmap (show_colours k.allocator.console));
}

-- The loop of KMain that fills its two blocks, with the codes of 'a' to 'y' and of 'z' down to 'b'.
pub fill_blocks : (magic more : ℕ) → Allocator → Allocator
fill_blocks magic more =
    for_range 25 b'a'
      λ i a. write (add32 more (i - b'a')) (b'z' - (i - b'a')) (write (add32 magic (i - b'a')) i a)

-- The two blocks of KMain: allocated, filled and freed.
pub use_blocks : ℕ → Allocator → Outcome (Unit {0})
unfolding fill_blocks
use_blocks fuel a = malloc fuel 1024 a >>> λ magic b. malloc fuel 1024 b >>> λ more c.
    let d = free more (free magic (fill_blocks magic more c)) in
    returned tt (print d (puts (codes "Entered debug event loop!\n") 0x0C d.console))

-- What the main loop does with an event besides the character: it goes on, or ends in one of the two
-- functions that do not return.
pub data Step : Type 0 where
  goes_on shutdown reboot : Step

pub handle_event : KeyboardEvent → Console → Step × Console
handle_event e c =
    if e.state
    then (
      if e.keycode == 1 then (if e.modifiers.left_shift then shutdown else reboot) else goes_on,
      putch e.character 0x0B c,
    )
    else (goes_on, c)

-- The sequence of Shutdown up to its last loop, and that of Reboot, whose wait takes fuel.
pub shutdown_kernel : Trace × Console → Trace × Console
shutdown_kernel (t, c) =
    (outw 0x0604 0x2000 t, puts (codes "[SHUTDOWN] Didn't shutdown the system!") 0x0C c)

wait_controller : Device → ℕ → Trace → Option Trace
wait_controller device zero t = none
wait_controller device (suc fuel) t =
    let (status, t') = inb device 0x64 t in
    elim (bit_and status 0x02 == 0) [ true ↦ some t' | false ↦ wait_controller device fuel t' ]

pub reboot_kernel : Device → ℕ → Trace × Console → Option (Trace × Console)
unfolding wait_controller
reboot_kernel device fuel (t, c) = do
  t ← wait_controller device fuel (t ++ cli ∷ [])
  some (outb 0x64 0xFE t, puts (codes "[REBOOT] Reboot failed!") 0x0C c)

no_handlers :
    (l : Linked) (idt : Idt) (id : ℕ)
    → length idt.entries ≡ idt_entry_count
    → length idt.handlers ≡ idt_interrupt_handlers_count
    → handler_for id (idt_setup l idt) ≡ 0
no_handlers l idt id n m = elim (Bool-cases (ltb id 16)) [
  | inl low ↦ rw (low, handler_for) (idt_setup-tables l idt id n m (ground arith)).1
  | inr high ↦
      rw (high, handler_for) (ground (arith, (idt_setup-tables l idt 16 n m (omega arith)).1))
]

two_handlers :
    (l : Linked) (h : Handlers) (idt : Idt) (id : ℕ)
    → length idt.entries ≡ idt_entry_count
    → length idt.handlers ≡ idt_interrupt_handlers_count
    → handler_for id (
        set_interrupt_handler handler_keyboard h.keyboard_handler
          (syscalls_setup h.syscall_handler (idt_setup l idt)))
      ≡ (if id == 1 then h.keyboard_handler else if id == 0x80 then h.syscall_handler else 0)
unfolding syscalls_setup
two_handlers l h idt id n m =
    handler_for-set handler_keyboard h.keyboard_handler id
      (set_interrupt_handler handler_syscalls h.syscall_handler (idt_setup l idt))
      (length-set_interrupt_handler handler_syscalls h.syscall_handler (idt_setup l idt) ∙ len)
    ∙ rw
        (
          handler_for-set handler_syscalls h.syscall_handler id (idt_setup l idt) len,
          no_handlers l idt id n m,
        )
        (ground arith)
  where
    len : length (idt_setup l idt).handlers ≡ idt_interrupt_handlers_count
    len = (idt_setup-tables l idt 0 n m (omega arith)).3

at_origin : {a : Allocator} → IsHeap a [] → IsHeap (print a (text_mode_setup a.console)) []
unfolding text_mode_setup
at_origin p = record { chain = p.chain; head = p.head; count = p.count; room = p.room }

-- With a controller that is ready the setup returns. The heap is then well formed and empty, if
-- nothing had been allocated, the position is at the origin, no modifier is set, and just two
-- interrupts have a handler: the keyboard line 1 and the system call 0x80.
pub setup_kernel-ready :
    (l : Linked) (device : Device) (fuel : ℕ) (h : Handlers) (mmap id : ℕ) (k : Kernel)
    → Clear device
    → length k.idt.entries ≡ idt_entry_count
    → length k.idt.handlers ≡ idt_interrupt_handlers_count
    → k.allocator.num_allocs ≡ 0
    → (k' : Kernel) × (setup_kernel l device (suc fuel) h mmap k ≡ some k')
      × IsHeap k'.allocator []
      × (k'.allocator.console.screen_pos ≡ 0)
      × (k'.keyboard.modifiers ≡ no_modifiers)
      × (handler_for id k'.idt
          ≡ (if id == 1 then h.keyboard_handler else if id == 0x80 then h.syscall_handler else 0))
unfolding setup_kernel text_mode_setup
setup_kernel-ready l device fuel h mmap id k clear n m none_yet =
    let idt = syscalls_setup h.syscall_handler (idt_setup l k.idt) in
    let (t, e) =
      keyboard_setup-Clear device fuel h.keyboard_handler (record k.keyboard { trace = idt.trace })
        idt clear in
    (
      record {
        allocator =
            print (memory_management_setup mmap k.allocator)
              (text_mode_setup (memory_management_setup mmap k.allocator).console);
        idt = record (set_interrupt_handler handler_keyboard h.keyboard_handler idt) {
          trace = t ++ sti ∷ [];
        };
        keyboard = record k.keyboard { modifiers = no_modifiers; trace = t };
      },
      rw e,
      at_origin (setup-IsHeap mmap k.allocator none_yet),
      refl,
      refl,
      two_handlers l h k.idt id n m,
    )
