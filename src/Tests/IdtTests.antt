-- ===== src/Tests/IdtTests.antt =====
-- IDT.c on tables of nulls.
use red_fox32_old.Base.{ℕ, zero, suc, ◌≡◌, refl, arith, some, List, [], ◌∷◌, get_or, length}
use red_fox32_old.Machine.Ports.{out8}
use red_fox32_old.Idt.{Idt, Linked, null_entry, idt_setup, interrupt_handler_stub}
use red_fox32_old.Idt.Setup.{IsEntryFor, idt_setup-tables}
use red_fox32_old.Idt.Dispatch.{interrupt_handler_stub-trace}

abbrev nulls {ℓ} : {A : Type ℓ} → ℕ → A → List A
nulls zero a = []
nulls (suc n) a = a ∷ nulls n a

abbrev fresh : Idt
fresh = record { entries = nulls 256 null_entry; handlers = nulls 17 0; trace = [] }

-- The table is at 0x9000, and all stubs are at one address above 64 KB.
abbrev linked : Linked
linked = record { idt = 0x9000; interrupts = nulls 16 0x12345; int_syscall_handler = 0x54321 }

idt_setup-tables_example :
    IsEntryFor (some 0x54321) (get_or (idt_setup linked fresh).entries 0x80 null_entry)
    × (get_or (idt_setup linked fresh).handlers 0x80 0 ≡ 0)
    × (length (idt_setup linked fresh).entries ≡ 256)
    × (length (idt_setup linked fresh).handlers ≡ 17)
idt_setup-tables_example = idt_setup-tables linked fresh 0x80 refl refl (omega arith)

interrupt_handler_stub-trace_example :
    (interrupt_handler_stub 0x80 fresh).trace ≡ out8 0xA0 0x20 ∷ out8 0x20 0x20 ∷ []
interrupt_handler_stub-trace_example = interrupt_handler_stub-trace 0x80 fresh
