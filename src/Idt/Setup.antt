-- ===== src/Idt/Setup.antt =====
-- IDT_Setup of IDT.c: what the tables hold afterwards.
use red_fox32_old.Base.{
  ℕ, zero, suc, ◌+◌, ◌-◌, ◌*◌, ◌%◌, ◌≤◌, ◌<◌, ◌≡◌, ◌↔◌, ◌∙◌, ap, sym, subst, refl, inl, inr, Option,
  none, some, Bool-cases, arith, List, [], ◌∷◌, ◌++◌, set, get_or, length, ltb, leb, ◌==◌, ◌&&◌,
  for_range, fill_range, length-fill_range, get_or-fill_range, get_or-set, get_or-set_self,
  get_or-ge, length-set, if◌then◌else◌, ge→ltb,
}
use red_fox32_old.Machine.Ports.{cli, lidt}
use red_fox32_old.Idt.{
  IdtEntry, Idt, Linked, null_entry, gate, set_interrupt_entry, initialize_pic, idt_setup,
  idt_entry_count, idt_interrupt_handlers_count, handler_syscalls,
}

-- The offset that the processor takes out of an entry.
abbrev pub entry_address : IdtEntry → ℕ
entry_address e = e.offset_low + 0x10000 * e.offset_high

-- The entry that IDT_SetInterruptEntry fills leads to the low 16 bits of the function's address, and
-- so to the function exactly if that lies below 2^16.
pub set_interrupt_entry-address :
    (l : Linked) (eid func : ℕ) (s : Idt)
    → length s.entries ≡ idt_entry_count
    → 32 ≤ eid
    → eid < idt_entry_count
    → let e = get_or (set_interrupt_entry l eid func s).1.entries eid null_entry in
      (entry_address e ≡ func % 0x10000) × ((entry_address e ≡ func) ↔ (func < 0x10000))
unfolding set_interrupt_entry
set_interrupt_entry-address l eid func s len lo hi =
    rw (ge→ltb eid 32 lo, get_or-set_self s.entries eid (gate func) null_entry (omega arith))
      (omega arith, (λ e. omega arith, λ h. omega arith))

step : Linked → ℕ → Idt → Idt
step l i s = (set_interrupt_entry l i (get_or l.interrupts (i - 32) 0) s).1

step-set :
    (l : Linked) (i : ℕ) (s : Idt)
    → 32 ≤ i
    → step l i s ≡ record s { entries = set s.entries i (gate (get_or l.interrupts (i - 32) 0)) }
unfolding step set_interrupt_entry
step-set l i s h = rw (ge→ltb i 32 h, step, set_interrupt_entry)

entries-hardware :
    (n i : ℕ) (l : Linked) (s : Idt)
    → 32 ≤ i
    → (for_range n i (step l) s).entries
      ≡ fill_range n i (λ k. gate (get_or l.interrupts (k - 32) 0)) s.entries
unfolding for_range
entries-hardware zero i l s h = refl
entries-hardware (suc n) i l s h =
    ap (λ t. (for_range n (i + 1) (step l) t).entries) (step-set l i s h)
    ∙ entries-hardware n (i + 1) l
        (record s { entries = set s.entries i (gate (get_or l.interrupts (i - 32) 0)) })
        (omega arith)

rest-hardware :
    (n i : ℕ) (l : Linked) (s : Idt)
    → 32 ≤ i
    → ((for_range n i (step l) s).handlers ≡ s.handlers)
      × ((for_range n i (step l) s).trace ≡ s.trace)
unfolding for_range
rest-hardware zero i l s h = (refl, refl)
rest-hardware (suc n) i l s h =
    let set_entry = ap (for_range n (i + 1) (step l)) (step-set l i s h) in
    let rest =
      rest-hardware n (i + 1) l
        (record s { entries = set s.entries i (gate (get_or l.interrupts (i - 32) 0)) })
        (omega arith) in
    (ap (λ t. t.handlers) set_entry ∙ rest.0, ap (λ t. t.trace) set_entry ∙ rest.1)

-- What a vector's entry is after the setup: a gate to the stub of the interrupt line, the gate to
-- the stub of the system calls, or null.
abbrev pub expected_entry : Linked → ℕ → IdtEntry
expected_entry l v =
    if leb 32 v && ltb v 48
    then gate (get_or l.interrupts (v - 32) 0)
    else if v == handler_syscalls
    then gate l.int_syscall_handler
    else null_entry

-- The function that the processor is to enter for a vector: the stub of the interrupt line, that of
-- the system calls, or none.
abbrev pub function_of : Linked → ℕ → Option ℕ
function_of l v =
    if leb 32 v && ltb v 48
    then some (get_or l.interrupts (v - 32) 0)
    else if v == 0x80
    then some l.int_syscall_handler
    else none

-- An entry as the processor reads it: without a function all of it is 0; for a function it is a
-- present 32-bit interrupt gate of the kernel, in the code segment 8, that leads to the low 16 bits
-- of the address.
abbrev pub IsEntryFor : Option ℕ → IdtEntry → Type 0
IsEntryFor none e =
    (entry_address e ≡ 0) × (e.selector ≡ 0) × (e.type_attributes ≡ 0) × (e.zero ≡ 0)
IsEntryFor (some func) e =
    (entry_address e ≡ func % 0x10000)
    × ((entry_address e ≡ func) ↔ (func < 0x10000))
    × (e.selector ≡ 8)
    × (e.type_attributes ≡ 0x8E)
    × (e.zero ≡ 0)

gate-IsEntryFor : (func : ℕ) → IsEntryFor (some func) (gate func)
gate-IsEntryFor func = (omega arith, (λ e. omega arith, λ h. omega arith), refl, refl, refl)

expected_entry-IsEntryFor : (l : Linked) (v : ℕ) → IsEntryFor (function_of l v) (expected_entry l v)
expected_entry-IsEntryFor l v = elim (Bool-cases (leb 32 v && ltb v 48)) [
  | inl line ↦ rw line (gate-IsEntryFor (get_or l.interrupts (v - 32) 0))
  | inr other ↦ rw other (elim (Bool-cases (v == handler_syscalls)) [
    | inl call ↦ rw call (gate-IsEntryFor l.int_syscall_handler)
    | inr none_left ↦ rw none_left (refl, refl, refl, refl)
  ])
]

-- The layers that the loops of the setup lay over the table.
abbrev hardware : Linked → List IdtEntry → List IdtEntry
hardware l es =
    fill_range 16 32 (λ k. gate (get_or l.interrupts (k - 32) 0))
      (fill_range 32 0 (λ _. null_entry) es)

abbrev layers : Linked → List IdtEntry → List IdtEntry
layers l es =
    set (fill_range 208 48 (λ _. null_entry) (hardware l es)) handler_syscalls
      (gate l.int_syscall_handler)

length-hardware : (l : Linked) (es : List IdtEntry) → length (hardware l es) ≡ length es
length-hardware l es =
    length-fill_range 16 32 (λ k. gate (get_or l.interrupts (k - 32) 0))
      (fill_range 32 0 (λ _. null_entry) es)
    ∙ length-fill_range 32 0 (λ _. null_entry) es

entries-setup : (l : Linked) (s : Idt) → (idt_setup l s).entries ≡ layers l s.entries
unfolding idt_setup step
entries-setup l s =
    ap
      (λ es.
        set (fill_range 208 48 (λ _. null_entry) es) handler_syscalls (gate l.int_syscall_handler))
      (entries-hardware 16 32 l _ (omega arith))

handlers-setup :
    (l : Linked) (s : Idt)
    → (idt_setup l s).handlers ≡ fill_range idt_interrupt_handlers_count 0 (λ _. 0) s.handlers
unfolding idt_setup step
handlers-setup l s = (rest-hardware 16 32 l _ (omega arith)).0

trace-setup :
    (l : Linked) (s : Idt)
    → (idt_setup l s).trace
      ≡ initialize_pic (s.trace ++ cli ∷ []) ++ cli ∷ lidt (8 * idt_entry_count - 1) l.idt ∷ []
unfolding idt_setup step
trace-setup l s =
    ap (λ t. t ++ cli ∷ lidt (8 * idt_entry_count - 1) l.idt ∷ [])
      (rest-hardware 16 32 l _ (omega arith)).1

length-layers : (l : Linked) (es : List IdtEntry) → length (layers l es) ≡ length es
length-layers l es =
    length-set (fill_range 208 48 (λ _. null_entry) (hardware l es)) handler_syscalls
      (gate l.int_syscall_handler)
    ∙ length-fill_range 208 48 (λ _. null_entry) (hardware l es)
    ∙ length-hardware l es

entry_at :
    (l : Linked) (es : List IdtEntry) (v : ℕ)
    → length es ≡ idt_entry_count
    → v < idt_entry_count
    → get_or (layers l es) v null_entry ≡ expected_entry l v
entry_at l es v n h =
    get_or-set (fill_range 208 48 (λ _. null_entry) (hardware l es)) handler_syscalls v
      (gate l.int_syscall_handler) null_entry
      (omega
        (arith, length-fill_range 208 48 (λ _. null_entry) (hardware l es), length-hardware l es))
    ∙ ground (
      arith,
      get_or-fill_range 208 48 (λ _. null_entry) (hardware l es) v null_entry
          (omega (arith, length-hardware l es)),
      get_or-fill_range 16 32 (λ k. gate (get_or l.interrupts (k - 32) 0))
          (fill_range 32 0 (λ _. null_entry) es) v null_entry
          (omega (arith, length-fill_range 32 0 (λ _. null_entry) es)),
      get_or-fill_range 32 0 (λ _. null_entry) es v null_entry (omega arith),
    )

handler_at :
    (hs : List ℕ) (v : ℕ)
    → length hs ≡ idt_interrupt_handlers_count
    → get_or (fill_range idt_interrupt_handlers_count 0 (λ _. 0) hs) v 0 ≡ 0
handler_at hs v m = ground (arith, get_or-fill_range 17 0 (λ _. 0) hs v 0, get_or-ge hs v 0)

-- After the setup of tables of 256 entries and 17 handlers, whatever they held before: the vectors 32
-- to 47 and 0x80 have a present 32-bit interrupt gate in the code segment 8, whose address is the low 16
-- bits of that of their stub, and so leads to the stub exactly if this lies below 2^16; all fields of the
-- other entries are 0; all handlers are null, and both tables keep their length.
pub idt_setup-tables :
    (l : Linked) (s : Idt) (v : ℕ)
    → length s.entries ≡ idt_entry_count
    → length s.handlers ≡ idt_interrupt_handlers_count
    → v < idt_entry_count
    → IsEntryFor (function_of l v) (get_or (idt_setup l s).entries v null_entry)
      × (get_or (idt_setup l s).handlers v 0 ≡ 0)
      × (length (idt_setup l s).entries ≡ idt_entry_count)
      × (length (idt_setup l s).handlers ≡ idt_interrupt_handlers_count)
idt_setup-tables l s v n m h = (
  subst (IsEntryFor (function_of l v))
      (sym (ap (λ es. get_or es v null_entry) (entries-setup l s) ∙ entry_at l s.entries v n h))
      (expected_entry-IsEntryFor l v),
  ap (λ hs. get_or hs v 0) (handlers-setup l s) ∙ handler_at s.handlers v m,
  ap length (entries-setup l s) ∙ length-layers l s.entries ∙ n,
  ap length (handlers-setup l s) ∙ length-fill_range 17 0 (λ _. 0) s.handlers ∙ m,
)
