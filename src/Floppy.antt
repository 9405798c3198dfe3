-- ===== src/Floppy.antt =====
-- Floppy.c: the counter of the floppy interrupts, and the programming of the DMA controller.
use red_fox32_old.Base.{
  ℕ, zero, suc, ◌+◌, ◌%◌, ◌≤◌, ◌<◌, ◌≡◌, ◌∙◌, ap, arith, List, [], ◌∷◌, Bool, true, false, ◌||◌,
  Option, none, some, leb, ◌==◌, if◌then◌else◌,
}
use red_fox32_old.Machine.Ports.{Trace, outb}

-- `IRQReceived` is the byte of a signed char.
pub record Floppy : Type 0 where
  pub irq_received : ℕ
  pub trace : Trace

pub irq_handler : Floppy → Floppy
irq_handler f = record f { irq_received = (f.irq_received + 1) % 256 }

-- `IRQReceived <= 0` for a signed char.
abbrev not_positive : ℕ → Bool
not_positive c = (c == 0) || leb 128 c

-- What wakes the processor from `hlt`.
pub data Wake : Type 0 where
  floppy other : Wake

abbrev take : Wake → Floppy → Floppy
take floppy f = irq_handler f
take other f = f

-- The interrupts that wake the loop, in order; `none` is a loop that still waits behind the last.
pub wait_irq : List Wake → Floppy → Option Floppy
wait_irq [] f =
    if not_positive f.irq_received
    then none
    else some (record f { irq_received = (f.irq_received + 255) % 256 })
wait_irq (w ∷ ws) f = elim (not_positive f.irq_received) [
  | true ↦ wait_irq ws (take w f)
  | false ↦ some (record f { irq_received = (f.irq_received + 255) % 256 })
]

pub dma_init : Trace → Trace
dma_init t =
    let t = outb 0x0A 0x06 t in
    let t = outb 0xD8 0xFF t in
    let t = outb 0x04 0x00 t in
    let t = outb 0x04 0x7E t in
    let t = outb 0xD8 0xFF t in
    let t = outb 0x05 0xFF t in
    let t = outb 0x05 0x01 t in let t = outb 0x80 0x00 t in outb 0x0A 0x02 t

pub dma_read : Trace → Trace
dma_read t = outb 0x0A 0x02 (outb 0x0B 0x56 (outb 0x0A 0x06 t))

pub dma_write : Trace → Trace
dma_write t = outb 0x0A 0x02 (outb 0x0B 0x5A (outb 0x0A 0x06 t))

pub floppy_setup : Floppy → Floppy
floppy_setup f = record { irq_received = 0; trace = dma_init f.trace }

-- The state behind a number of interrupts.
abbrev pub interrupted : ℕ → Floppy → Floppy
interrupted zero f = f
interrupted (suc n) f = interrupted n (irq_handler f)

interrupted_lem :
    (n : ℕ) (f : Floppy)
    → f.irq_received < 256
    → interrupted n f ≡ record f { irq_received = (f.irq_received + n) % 256 }
unfolding irq_handler
interrupted_lem zero f h = ap (λ c. record f { irq_received = c }) (omega arith)
interrupted_lem (suc n) f h =
    interrupted_lem n (irq_handler f) (omega arith)
    ∙ ap (λ c. record f { irq_received = c }) (omega arith)

abbrev pub others : ℕ → List Wake
others zero = []
others (suc n) = other ∷ others n

wait_irq-others :
    (k : ℕ) (f : Floppy) → not_positive f.irq_received ≡ true → wait_irq (others k) f ≡ none
unfolding wait_irq
wait_irq-others zero f h = rw h
wait_irq-others (suc k) f h = rw (h, wait_irq) (wait_irq-others k f h)

wait_irq-positive :
    (ws : List Wake) (f : Floppy)
    → not_positive f.irq_received ≡ false
    → wait_irq ws f ≡ some (record f { irq_received = (f.irq_received + 255) % 256 })
unfolding wait_irq
wait_irq-positive [] f h = rw h
wait_irq-positive (w ∷ ws) f h = rw (h, wait_irq)

abbrev start : Floppy → Floppy
start f = record { irq_received = 0; trace = dma_init f.trace }

-- Interrupts that come before the wait are not lost: after the setup and 1 to 127 of them the
-- wait returns, whatever wakes the processor later, and leaves the state of one interrupt less.
pub wait_irq-interrupted :
    (n : ℕ) (ws : List Wake) (f : Floppy)
    → n < 127
    → wait_irq ws (interrupted (suc n) (floppy_setup f)) ≡ some (interrupted n (floppy_setup f))
unfolding floppy_setup irq_handler
wait_irq-interrupted n ws f h =
    rw
      (
        interrupted_lem n (start f) (omega arith),
        interrupted_lem n (irq_handler (start f)) (omega arith),
      )
      (wait_irq-positive ws _ (ground arith)
        ∙ ap (λ c. some (record (start f) { irq_received = c })) (omega arith))

-- After the setup and 128 to 255 interrupts that are not waited for, the byte of the counter is their
-- number, which as a signed char is negative, and the wait does not return without a further floppy
-- interrupt.
pub wait_irq-overflow :
    (n k : ℕ) (f : Floppy)
    → 128 ≤ n
    → n < 256
    → let g = interrupted n (floppy_setup f) in
      (g.irq_received ≡ n) × (128 ≤ g.irq_received) × (wait_irq (others k) g ≡ none)
unfolding floppy_setup
wait_irq-overflow n k f lo hi =
    rw (interrupted_lem n (start f) (omega arith))
      (omega arith, omega arith, wait_irq-others k _ (ground arith))
