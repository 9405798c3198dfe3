-- ===== src/Stage2/Gates.antt =====
-- Interrupts.c and Syscall.c of the earlier second stage: its interrupt table and system calls.
use red_fox32_old.Base.{
  ℕ, zero, suc, ◌+◌, ◌-◌, ◌*◌, ◌/◌, ◌%◌, ◌<◌, ◌≡◌, ◌∙◌, ap, refl, arith, List, [], ◌∷◌, ◌++◌, set,
  get_or, length, leb, ltb, ◌==◌, ◌&&◌, for_range, fill_range, length-fill_range, get_or-fill_range,
  get_or-set, if◌then◌else◌, word,
}
use red_fox32_old.Machine.Ports.{Trace, out8, outb, cli, sti, lidt, call}

pub record Gate : Type 0 where
  pub low : ℕ
  pub selector : ℕ
  pub zero : ℕ
  pub type_attr : ℕ
  pub high : ℕ

-- The three static arrays, and what has been done to the machine. A system call handler may run any
-- code; a call of it is an action.
pub record Tables : Type 0 where
  pub gates : List Gate
  pub interrupt_handlers : List ℕ
  pub syscalls : List ℕ
  pub trace : Trace

-- What the linker decides: the address of the table, and those of the assembly functions.
pub record Symbols : Type 0 where
  pub idt : ℕ
  pub interrupt_calls : List ℕ
  pub int_syscall : ℕ

abbrev pub null_gate : Gate
null_gate = record { low = 0; selector = 0; zero = 0; type_attr = 0; high = 0 }

abbrev pub gate_to : ℕ → Gate
gate_to address = record {
  low = address % 0x10000;
  selector = 0x08;
  zero = 0;
  type_attr = 0x8E;
  high = (address / 0x10000 * 0x10000) / 0x10000;
}

pub register_irq : (id address : ℕ) → Tables → Tables
register_irq id address s = record s { gates = set s.gates id (gate_to address) }

-- The two words of the pointer that LoadIDT is given.
pub idt_pointer : ℕ → ℕ × ℕ
idt_pointer address = ((8 * 256 + (address % 0x10000) * 0x10000) % word, address / 0x10000)

-- The limit and the base that the processor takes out of the two words.
abbrev pub pointer_limit : ℕ × ℕ → ℕ
pointer_limit p = p.0 % 0x10000

abbrev pub pointer_base : ℕ × ℕ → ℕ
pointer_base p = p.0 / 0x10000 + 0x10000 * p.1

pub reload_idt : Symbols → Tables → Tables
unfolding idt_pointer
reload_idt l s = record s {
  trace =
      s.trace ++ lidt (pointer_limit (idt_pointer l.idt)) (pointer_base (idt_pointer l.idt)) ∷ [];
}

abbrev remap_pic : Trace → Trace
remap_pic t =
    t
    ++ out8 0x20 0x11
      ∷ out8 0xA0 0x11
      ∷ out8 0x21 0x20
      ∷ out8 0xA1 40
      ∷ out8 0x21 0x04
      ∷ out8 0xA1 0x02
      ∷ out8 0x21 0x01
      ∷ out8 0xA1 0x01
      ∷ out8 0x21 0
      ∷ out8 0xA1 0
      ∷ []

-- The body of the loop over the hardware interrupts.
abbrev hardware_line : Symbols → ℕ → Tables → Tables
hardware_line l i s =
    let s = record s { gates = set s.gates i (gate_to (get_or l.interrupt_calls (i - 32) 0)) } in
    record s { interrupt_handlers = set s.interrupt_handlers (i - 32) 0 }

pub idt_initialize : Symbols → Tables → Tables
unfolding register_irq reload_idt
idt_initialize l s =
    let s = record s { trace = remap_pic s.trace } in
    let s = for_range 16 32 (hardware_line l) s in reload_idt l (register_irq 0x80 l.int_syscall s)

-- `id` and `position` are EBX and EDX. The source does not check the index: what a write past the end
-- of an array does to other data is outside the model, which leaves the array as it is.
pub sys_register_interrupt_handler : (id position : ℕ) → Tables → Tables
sys_register_interrupt_handler id position s = record s {
  interrupt_handlers = set s.interrupt_handlers id position;
  trace = s.trace ++ cli ∷ sti ∷ [];
}

pub interrupt_stub : ℕ → Tables → Tables
interrupt_stub id s =
    let f = get_or s.interrupt_handlers id 0 in
    let t = if f == 0 then s.trace else s.trace ++ call f ∷ [] in
    record s { trace = outb 0x20 0x20 (if leb 8 id then outb 0xA0 0x20 t else t) }

pub sys_register_syscall : (id position : ℕ) → Tables → Tables
sys_register_syscall id position s = record s { syscalls = set s.syscalls id position }

-- `number` is EAX.
pub int_syscall_handler : (number : ℕ) → Tables → Tables
int_syscall_handler number s =
    let f = get_or s.syscalls number 0 in
    record s { trace = if f == 0 then s.trace else s.trace ++ call f ∷ [] }

-- A gate leads to the function whose address it was given.
pub register_irq-address :
    (id address : ℕ) (s : Tables)
    → id < length s.gates
    → address < word
    → let g = get_or (register_irq id address s).gates id null_gate in
      g.low + 0x10000 * g.high ≡ address
unfolding register_irq
register_irq-address id address s h w =
    rw (get_or-set s.gates id id (gate_to address) null_gate h) (ground arith)

-- The pointer that is loaded has the address of the table for its base and 2048, a byte more than the
-- last offset, for its limit.
pub idt_pointer-fields :
    (address : ℕ)
    → address < word
    → (pointer_limit (idt_pointer address) ≡ 8 * 256)
      × (pointer_base (idt_pointer address) ≡ address)
unfolding idt_pointer
idt_pointer-fields address h = (omega arith, omega arith)

entries-lines :
    (n i : ℕ) (l : Symbols) (s : Tables)
    → (for_range n i (hardware_line l) s).gates
      ≡ fill_range n i (λ k. gate_to (get_or l.interrupt_calls (k - 32) 0)) s.gates
unfolding for_range
entries-lines zero i l s = refl
entries-lines (suc n) i l s = entries-lines n (i + 1) l (hardware_line l i s)

-- After the initialization the gates 32 to 47 lead to the stubs of the hardware interrupts, the gate
-- 0x80 to that of the system calls, and every other gate is as it was.
pub idt_initialize-gates :
    (l : Symbols) (s : Tables) (v : ℕ)
    → length s.gates ≡ 256
    → get_or (idt_initialize l s).gates v null_gate ≡ (
        if v == 0x80
        then gate_to l.int_syscall
        else if leb 32 v && ltb v 48
        then gate_to (get_or l.interrupt_calls (v - 32) 0)
        else get_or s.gates v null_gate)
unfolding idt_initialize
idt_initialize-gates l s v n =
    ap (λ gs. get_or (set gs 0x80 (gate_to l.int_syscall)) v null_gate) (entries-lines 16 32 l _)
    ∙ get_or-set (lines s.gates) 0x80 v (gate_to l.int_syscall) null_gate
        (omega (arith, length-lines))
    ∙ ground (
      arith,
      get_or-fill_range 16 32 (λ k. gate_to (get_or l.interrupt_calls (k - 32) 0)) s.gates v
          null_gate (omega arith),
    )
  where
    lines : List Gate → List Gate
    lines = fill_range 16 32 (λ k. gate_to (get_or l.interrupt_calls (k - 32) 0))

    length-lines : length (lines s.gates) ≡ length s.gates
    length-lines =
        length-fill_range 16 32 (λ k. gate_to (get_or l.interrupt_calls (k - 32) 0)) s.gates

pub sys_register_syscall-syscalls :
    (id position : ℕ) (s : Tables)
    → ((sys_register_syscall id position s).syscalls ≡ set s.syscalls id position)
      × ((sys_register_syscall id position s).trace ≡ s.trace)
unfolding sys_register_syscall
sys_register_syscall-syscalls id position s = (refl, refl)

-- The calls of the system are in a table of their own.
pub sys_register_interrupt_handler-syscalls :
    (id position : ℕ) (s : Tables)
    → (sys_register_interrupt_handler id position s).syscalls ≡ s.syscalls
unfolding sys_register_interrupt_handler
sys_register_interrupt_handler-syscalls id position s = refl

lines-syscalls :
    (n i : ℕ) (l : Symbols) (s : Tables) → (for_range n i (hardware_line l) s).syscalls ≡ s.syscalls
unfolding for_range
lines-syscalls zero i l s = refl
lines-syscalls (suc n) i l s = lines-syscalls n (i + 1) l (hardware_line l i s)

pub idt_initialize-syscalls :
    (l : Symbols) (s : Tables) → (idt_initialize l s).syscalls ≡ s.syscalls
unfolding idt_initialize register_irq reload_idt
idt_initialize-syscalls l s = lines-syscalls 16 32 l (record s { trace = remap_pic s.trace })
