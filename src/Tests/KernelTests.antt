-- ===== src/Tests/KernelTests.antt =====
-- The setup of the kernel, the floppy counter and the display of the memory map on concrete states.
use red_fox32_old.Base.{
  ℕ, ◌≤◌, ◌≡◌, refl, arith, List, [], ◌∷◌, none, some, replicate, map, length, get_or, false,
}
use red_fox32_old.Console.{Console, memory_size, putch}
use red_fox32_old.Console.Putch.{IsOnScreen}
use red_fox32_old.Allocator.Chain.{IsHeap}
use red_fox32_old.Idt.{Linked, null_entry}
use red_fox32_old.Idt.Dispatch.{handler_for}
use red_fox32_old.Keyboard.{Keyboard, no_modifiers, no_event}
use red_fox32_old.Keyboard.Layout.{keyboard_layout, keyboard_layout_caps}
use red_fox32_old.Machine.Ports.{Device}
use red_fox32_old.Kernel.{Kernel, Handlers, reboot, setup_kernel, setup_kernel-ready}
use red_fox32_old.Kernel.Loop.{main_loop}
use red_fox32_old.Kernel.Loop.Typing.{Stroke, interrupts, session}
use red_fox32_old.Kernel.Loop.Session.{main_loop-session}
use red_fox32_old.Floppy.{
  Floppy, interrupted, others, wait_irq, floppy_setup, wait_irq-interrupted, wait_irq-overflow,
}

-- The position is past the last cell.
abbrev full : Console
full = record { memory = λ _. 65; screen_pos = memory_size }

full-IsOnScreen : IsOnScreen full
full-IsOnScreen = record { bound = omega arith; cell = refl }

abbrev started : Kernel
started = record {
  allocator = record {
    console = full;
    memory_mmap = 0;
    next_allocation_position = 0;
    first = 0;
    last = 0;
    num_allocs = 0;
  };
  idt = record { entries = replicate 256 null_entry; handlers = replicate 17 0; trace = [] };
  keyboard = record { modifiers = no_modifiers; previous_event = no_event; trace = [] };
}

abbrev linked : Linked
linked = record { idt = 0x9000; interrupts = replicate 16 0x2A00; int_syscall_handler = 0x2B00 }

abbrev handlers : Handlers
handlers = record { keyboard_handler = 0x3000; syscall_handler = 0x3100 }

abbrev quiet : Device
quiet t port = 0

setup_kernel-ready_example :
    (k : Kernel) × (setup_kernel linked quiet 1 handlers 0x8000 started ≡ some k)
    × IsHeap k.allocator []
    × (k.allocator.console.screen_pos ≡ 0)
    × (k.keyboard.modifiers ≡ no_modifiers)
    × (handler_for 0x80 k.idt ≡ 0x3100)
setup_kernel-ready_example =
    setup_kernel-ready linked quiet 0 handlers 0x8000 0x80 started (λ t. refl) refl refl refl

abbrev stopped : Floppy
stopped = record { irq_received = 77; trace = [] }

wait_irq-overflow_example :
    let g = interrupted 130 (floppy_setup stopped) in
    (g.irq_received ≡ 130) × (128 ≤ g.irq_received) × (wait_irq (others 5) g ≡ none)
wait_irq-overflow_example = wait_irq-overflow 130 5 stopped (omega arith) (omega arith)

wait_irq-interrupted_example :
    wait_irq (others 2) (interrupted 3 (floppy_setup stopped))
    ≡ some (interrupted 2 (floppy_setup stopped))
wait_irq-interrupted_example = wait_irq-interrupted 2 (others 2) stopped (omega arith)

-- Shift and A, shift released and the release of a key, Escape, each behind some other interrupts.
abbrev typed : List ℕ
typed = 0x2A ∷ 0x1E ∷ 0xAA ∷ 0x9E ∷ 1 ∷ []

abbrev typist : Device
typist t port = get_or typed (length t) 0

abbrev strokes : List Stroke
strokes =
    record { held = 0x2A ∷ []; others = 2; byte = 0x1E }
    ∷ record { held = 0xAA ∷ []; others = 0; byte = 0x9E }
    ∷ record { held = []; others = 1; byte = 1 }
    ∷ []

abbrev at_rest : Keyboard
at_rest = record { modifiers = no_modifiers; previous_event = no_event; trace = [] }

main_loop-session_example :
    (k : Keyboard) × (main_loop typist 1 (map interrupts strokes) at_rest full
      ≡ some (reboot, k, putch 0 0x0B (putch b'A' 0x0B full)))
    × (k.previous_event.ready ≡ false)
unfolding session keyboard_layout keyboard_layout_caps
main_loop-session_example =
    main_loop-session typist 1 strokes at_rest full refl
      (
        ((omega arith, refl), tt),
        (omega arith, (λ e. omega arith), refl, refl),
        (
          ((omega arith, refl), tt),
          (omega arith, (λ e. omega arith), refl, refl),
          (tt, (omega arith, (λ e. omega arith), refl, refl), tt),
        ),
      )
      ((refl, tt), refl, ((refl, tt), refl, (tt, refl, tt)))
