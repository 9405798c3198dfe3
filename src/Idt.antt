-- ===== src/Idt.antt =====
-- IDT.c and IDT.h: the interrupt descriptor table and the table of handlers behind it.
pub mod Setup
pub mod Dispatch
use red_fox32_old.Base.{
  ℕ, ◌+◌, ◌-◌, ◌*◌, ◌/◌, ◌%◌, ◌^◌, List, [], ◌∷◌, ◌++◌, set, get_or, ltb, leb, ◌==◌, for_range,
  fill_range, if◌then◌else◌,
}
use red_fox32_old.Machine.Ports.{Action, Trace, outb, cli, lidt, call}

pub record IdtEntry : Type 0 where
  pub offset_low : ℕ
  pub selector : ℕ
  pub zero : ℕ
  pub type_attributes : ℕ
  pub offset_high : ℕ

abbrev pub idt_entry_count : ℕ
idt_entry_count = 256

abbrev pub idt_interrupt_handlers_count : ℕ
idt_interrupt_handlers_count = 17

abbrev pub idt_syscall_interrupt_id : ℕ
idt_syscall_interrupt_id = 16

abbrev pub handler_syscalls : ℕ
handler_syscalls = 0x80

-- The two static arrays, and what has been done to the machine. A handler is the address of its
-- function, 0 if there is none.
pub record Idt : Type 0 where
  pub entries : List IdtEntry
  pub handlers : List ℕ
  pub trace : Trace

-- What the linker decides: the address of the table and those of the functions of IDTA.asm.
pub record Linked : Type 0 where
  pub idt : ℕ
  pub interrupts : List ℕ
  pub int_syscall_handler : ℕ

abbrev pub null_entry : IdtEntry
null_entry = record { offset_low = 0; selector = 0; zero = 0; type_attributes = 0; offset_high = 0 }

-- `(unsigned short)(Func & 0xFFFF0000) >> 16`: the cast comes first, and leaves 0 to be shifted.
abbrev pub gate : ℕ → IdtEntry
gate func = record {
  offset_low = func % 0x10000;
  offset_high = (func / 0x10000 * 0x10000) % 0x10000 / 2 ^ 16;
  zero = 0;
  type_attributes = 0x8E;
  selector = 0x08;
}

-- The address of the entry that was filled, or 0. The callers stay below 256; the source has no check
-- for that, and the model leaves the table as it is.
pub set_interrupt_entry : Linked → (eid func : ℕ) → Idt → ℕ × Idt
set_interrupt_entry l eid func s =
    if ltb eid 32
    then (0, s)
    else (l.idt + 8 * eid, record s { entries = set s.entries eid (gate func) })

pub initialize_pic : Trace → Trace
initialize_pic t =
    let t = outb 0x20 0x11 t in
    let t = outb 0xA0 0x11 t in
    let t = outb 0x21 0x20 t in
    let t = outb 0xA1 0x28 t in
    let t = outb 0x21 0x04 t in
    let t = outb 0xA1 0x02 t in
    let t = outb 0x21 0x01 t in
    let t = outb 0xA1 0x01 t in let t = outb 0x21 0x00 t in outb 0xA1 0x00 t

clear_handlers : Idt → Idt
clear_handlers s = record s {
  handlers = fill_range idt_interrupt_handlers_count 0 (λ _. 0) s.handlers;
}

clear_entries : (n i : ℕ) → Idt → Idt
clear_entries n i s = record s { entries = fill_range n i (λ _. null_entry) s.entries }

-- `for (; i < 48; i++)` from 32.
hardware_entries : Linked → Idt → Idt
unfolding set_interrupt_entry
hardware_entries l =
    for_range 16 32 (λ i s. (set_interrupt_entry l i (get_or l.interrupts (i - 32) 0) s).1)

set_idt : Linked → Idt → Idt
set_idt l s = record s { trace = s.trace ++ cli ∷ lidt (8 * idt_entry_count - 1) l.idt ∷ [] }

pub idt_setup : Linked → Idt → Idt
unfolding initialize_pic clear_handlers clear_entries hardware_entries set_interrupt_entry set_idt
idt_setup l s =
    let s = record s { trace = initialize_pic (s.trace ++ cli ∷ []) } in
    let s = clear_handlers s in
    let s = clear_entries 32 0 s in
    let s = hardware_entries l s in
    let s = clear_entries (idt_entry_count - 48) 48 s in
    let s = (set_interrupt_entry l handler_syscalls l.int_syscall_handler s).1 in set_idt l s

pub set_interrupt_handler : (id func : ℕ) → Idt → Idt
set_interrupt_handler id func s =
    let s =
      if ltb id (idt_interrupt_handlers_count - 1)
      then record s { handlers = set s.handlers id func }
      else s in
    if id == 0x80 then record s { handlers = set s.handlers idt_syscall_interrupt_id func } else s

-- A function pointer is called if it is not null.
abbrev pub call_handler : ℕ → Trace → Trace
call_handler func t = if func == 0 then t else t ++ call func ∷ []

-- The end of the stub: the slave is told first.
abbrev pub end_of_interrupt : ℕ → Trace → Trace
end_of_interrupt id t = outb 0x20 0x20 (if leb 8 id then outb 0xA0 0x20 t else t)

pub interrupt_handler_stub : ℕ → Idt → Idt
interrupt_handler_stub id s = record s {
  trace = end_of_interrupt id (
      if ltb id 16
      then call_handler (get_or s.handlers id 0) s.trace
      else if id == 0x80
      then call_handler (get_or s.handlers idt_syscall_interrupt_id 0) s.trace
      else s.trace);
}
