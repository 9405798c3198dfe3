-- ===== src/Idt/Dispatch.antt =====
-- SetInterruptHandler and InterruptHandlerStub of IDT.c.
use red_fox32_old.Base.{
  ℕ, ◌≡◌, ◌∙◌, ap, arith, [], ◌∷◌, ◌++◌, get_or, length, ltb, leb, ◌==◌, if◌then◌else◌, get_or-set,
  length-set, set, Option, none, some, append_assoc, append-nil,
}
use red_fox32_old.Machine.Ports.{Trace, out8, call}
use red_fox32_old.Idt.{
  Idt, set_interrupt_handler, interrupt_handler_stub, idt_interrupt_handlers_count, call_handler,
  end_of_interrupt, idt_syscall_interrupt_id,
}

-- The place of a handler for an interrupt, if there is one: the hardware lines and the system calls.
abbrev pub slot : ℕ → Option ℕ
slot id = if ltb id 16 then some id else if id == 0x80 then some 16 else none

-- The handler that is registered for an interrupt, 0 if none is or can be.
abbrev pub handler_for : ℕ → Idt → ℕ
handler_for id s = elim (slot id) [ none ↦ 0 | some i ↦ get_or s.handlers i 0 ]

-- Registering a handler sets it for its own interrupt, where that has a place, and for no other.
pub handler_for-set :
    (id func j : ℕ) (s : Idt)
    → length s.handlers ≡ idt_interrupt_handlers_count
    → handler_for j (set_interrupt_handler id func s)
      ≡ (if id == j then (elim (slot j) [ none ↦ 0 | some i ↦ func ]) else handler_for j s)
unfolding set_interrupt_handler
handler_for-set id func j s len = ground (
  arith,
  get_or-set s.handlers id j func 0,
  get_or-set s.handlers id 16 func 0,
  get_or-set s.handlers 16 j func 0,
  get_or-set s.handlers 16 16 func 0,
)

abbrev acknowledge : ℕ → Trace
acknowledge id = (if leb 8 id then out8 0xA0 0x20 ∷ [] else []) ++ out8 0x20 0x20 ∷ []

end_of_interrupt-append : (id : ℕ) (t : Trace) → end_of_interrupt id t ≡ t ++ acknowledge id
end_of_interrupt-append id t =
    ground (arith, append_assoc t (out8 0xA0 0x20 ∷ []) (out8 0x20 0x20 ∷ []))

called :
    (id : ℕ) (s : Idt)
    → (if ltb id 16
        then call_handler (get_or s.handlers id 0) s.trace
        else if id == 0x80
        then call_handler (get_or s.handlers idt_syscall_interrupt_id 0) s.trace
        else s.trace)
      ≡ s.trace ++ (if handler_for id s == 0 then [] else call (handler_for id s) ∷ [])
called id s = ground (arith, append-nil s.trace)

-- What the stub does for an interrupt: it calls the handler that is registered, if there is one,
-- and only then acknowledges, the slave controller too from the interrupt 8 on, the master always.
-- The system call, a software interrupt, is acknowledged like a line of the slave.
pub interrupt_handler_stub-trace :
    (id : ℕ) (s : Idt)
    → (interrupt_handler_stub id s).trace
      ≡ s.trace
        ++ ((if handler_for id s == 0 then [] else call (handler_for id s) ∷ [])
            ++ ((if leb 8 id then out8 0xA0 0x20 ∷ [] else []) ++ out8 0x20 0x20 ∷ []))
unfolding interrupt_handler_stub
interrupt_handler_stub-trace id s =
    end_of_interrupt-append id _
    ∙ ap (λ t. t ++ acknowledge id) (called id s)
    ∙ append_assoc s.trace _ (acknowledge id)

pub length-set_interrupt_handler :
    (id func : ℕ) (s : Idt) → length (set_interrupt_handler id func s).handlers ≡ length s.handlers
unfolding set_interrupt_handler
length-set_interrupt_handler id func s = ground (
  arith,
  length-set s.handlers id func,
  length-set s.handlers idt_syscall_interrupt_id func,
  length-set (set s.handlers id func) idt_syscall_interrupt_id func,
)
