-- ===== src/Stage2/Fdc.antt =====
-- FDC.c of the earlier second stage: the floppy disk controller.
pub mod Blocks
pub mod Ready
pub mod Transfer
pub mod Init
use red_fox32_old.Base.{
  ℕ, zero, suc, ◌+◌, ◌-◌, ◌*◌, ◌/◌, ◌%◌, ◌^◌, ◌≡◌, List, [], ◌∷◌, ◌++◌, Bool, true, false, Option,
  none, some, bit_and, bit_or, leb, ltb, ◌==◌, if◌then◌else◌, codes,
}
use red_fox32_old.Base.Partial.{◌>>=◌}
use red_fox32_old.Machine.Ports.{Action, Trace, Device, out8, hlt, inb, outb}
use red_fox32_old.Stage2.Screen.{Screen, put_string}

abbrev pub reg_dor : ℕ
reg_dor = 0x03F2

abbrev pub reg_msr : ℕ
reg_msr = 0x03F4

abbrev pub reg_fifo : ℕ
reg_fifo = 0x03F5

abbrev pub reg_ccr : ℕ
reg_ccr = 0x03F7

-- The flags and commands of the enumerations that the code uses.
abbrev pub dor_reset_controller : ℕ
dor_reset_controller = 4

abbrev pub dor_irq : ℕ
dor_irq = 8

abbrev pub dor_mota : ℕ
dor_mota = 0x10

abbrev pub msr_rqm : ℕ
msr_rqm = 0x80

abbrev pub command_specify : ℕ
command_specify = 3

abbrev pub command_recalibrate : ℕ
command_recalibrate = 7

abbrev pub command_sense_interrupt : ℕ
command_sense_interrupt = 8

abbrev pub command_seek : ℕ
command_seek = 15

abbrev pub opt_mt : ℕ
opt_mt = 0x80

abbrev pub opt_mf : ℕ
opt_mf = 0x40

-- The two static variables, the screen, and what has been done to the machine.
pub record Fdc : Type 0 where
  pub drive : ℕ
  pub irq_received : Bool
  pub screen : Screen
  pub trace : Trace

-- The machine around the driver: its devices; whether the line of the controller is raised between
-- the last look at the flag and the one behind a trace; and the rounds that any one loop is given.
pub record Board : Type 0 where
  pub device : Device
  pub line : Trace → Bool
  pub fuel : ℕ

abbrev pub print : List ℕ → Fdc → Fdc
print str f = record f { screen = put_string str 0x0C f.screen }

pub irq_handler : Fdc → Fdc
irq_handler f = record (print (codes "IRQ_REC\n") f) { irq_received = true }

module _ (b : Board) where
  pub wait_loop : ℕ → Fdc → Option Fdc
  wait_loop zero f = none
  wait_loop (suc n) f =
      let seen = if b.line f.trace then irq_handler f else f in
      elim seen.irq_received [
        | true ↦ some seen
        | false ↦ wait_loop n (record seen { trace = seen.trace ++ hlt ∷ [] })
      ]

  pub wait_irq : Fdc → Option Fdc
  wait_irq f = do
    f ← wait_loop b.fuel (print (codes "IRQ_WAIT\n") f)
    some (print (codes "IRQ_REG\n") (record f { irq_received = false }))

  -- The loop that waits for the controller to request a byte.
  pub await_request : ℕ → Trace → Option Trace
  await_request zero t = none
  await_request (suc n) t =
      let (status, t') = inb b.device reg_msr t in
      elim (bit_and status msr_rqm == 0) [ true ↦ await_request n t' | false ↦ some t' ]

  pub read_fifo : Fdc → Option (ℕ × Fdc)
  read_fifo f = do
    t ← await_request b.fuel f.trace
    some ((inb b.device reg_fifo t).0, record f { trace = (inb b.device reg_fifo t).1 })

  pub write_fifo : ℕ → Fdc → Option Fdc
  write_fifo value f = do
    t ← await_request b.fuel f.trace
    some (record f { trace = outb reg_fifo value t })

abbrev pub write_dor : ℕ → Fdc → Fdc
write_dor value f = record f { trace = outb reg_dor value f.trace }

abbrev pub write_ccr : ℕ → Fdc → Fdc
write_ccr value f = record f { trace = outb reg_ccr value f.trace }

-- A run of bytes to ports, each pair a port and its byte.
abbrev pub outs : List (ℕ × ℕ) → Trace → Trace
outs [] t = t
outs (w ∷ ws) t = outs ws (outb w.0 w.1 t)

pub dma_init : Fdc → Fdc
dma_init f = record f {
  trace =
      outs
        ((0x0A, 0x06)
          ∷ (0xD8, 0xFF)
          ∷ (0x04, 0x00)
          ∷ (0x04, 0x7E)
          ∷ (0xD8, 0xFF)
          ∷ (0x05, 0xFF)
          ∷ (0x05, 0x01)
          ∷ (0x80, 0x00)
          ∷ (0x0A, 0x02)
          ∷ [])
        f.trace;
}

pub dma_read : Fdc → Fdc
dma_read f = record f { trace = outs ((0x0A, 0x06) ∷ (0x0B, 0x56) ∷ (0x0A, 0x02) ∷ []) f.trace }

pub dma_write : Fdc → Fdc
dma_write f = record f { trace = outs ((0x0A, 0x06) ∷ (0x0B, 0x5A) ∷ (0x0A, 0x02) ∷ []) f.trace }

pub motor_on : Fdc → Fdc
motor_on f =
    write_dor (bit_or (bit_or dor_irq dor_reset_controller) (dor_mota * 2 ^ f.drive) % 256) f

pub motor_off : Fdc → Fdc
motor_off f = write_dor (bit_or dor_irq dor_reset_controller) f

-- `(Head << 2) | Drive`
abbrev pub head_drive : ℕ → Fdc → ℕ
head_drive head f = bit_or (head * 4) f.drive % 256

module _ (b : Board) where
  -- The bytes of a command, in order.
  pub write_all : List ℕ → Fdc → Option Fdc
  write_all [] f = some f
  write_all (v ∷ vs) f = write_fifo b v f >>= write_all vs

  -- `n` bytes read and dropped.
  pub drop_bytes : ℕ → Fdc → Option Fdc
  drop_bytes zero f = some f
  drop_bytes (suc n) f = read_fifo b f >>= λ r. drop_bytes n r.1

  -- The cylinder that the controller reports; `st0` is not used by any caller.
  pub sense_interrupt : Fdc → Option (ℕ × Fdc)
  sense_interrupt f = do
    f ← write_fifo b command_sense_interrupt f
    r ← read_fifo b f
    read_fifo b r.1

  pub specify : (step_rate_time head_load_time head_unload_time : ℕ) → Fdc → Option Fdc
  specify step_rate_time head_load_time head_unload_time = write_all (
      command_specify
      ∷ bit_or (step_rate_time * 16) head_unload_time % 256
      ∷ bit_or (head_load_time * 2) 1 % 256
      ∷ [])

  sense_rounds : ℕ → Fdc → Option Fdc
  sense_rounds zero f = some f
  sense_rounds (suc n) f = do r ← sense_interrupt f; f ← drop_bytes 2 r.1; sense_rounds n f

  pub reset_controller : Fdc → Option Fdc
  unfolding sense_rounds
  reset_controller f = do
    f ← wait_irq b (write_dor (bit_or dor_reset_controller dor_irq) (write_dor 0 f))
    f ← sense_rounds 4 f
    specify 13 1 0xF (write_ccr 0 f)

  pub timeout_panic : Fdc → Option Fdc
  timeout_panic f = reset_controller (print (codes "[FDC] PANIC: Timeout! \n") f)

  -- `if (Timeout++ == 500)`
  abbrev pub count_timeout : (timeout : ℕ) → Fdc → Option Fdc
  count_timeout timeout f = if timeout == 500 then timeout_panic f else some f

  -- A round sends the command and reads the cylinder back.
  seek_round : (cylinder head : ℕ) → Fdc → Option (ℕ × Fdc)
  seek_round cylinder head f = do
    f ← write_all (command_seek ∷ head_drive head f ∷ cylinder ∷ []) f
    f ← wait_irq b f
    sense_interrupt f

  pub seek_loop : ℕ → (cylinder head timeout : ℕ) → Fdc → Option Fdc
  seek_loop zero cylinder head timeout f = none
  seek_loop (suc n) cylinder head timeout f = do
    r ← seek_round cylinder head f
    f ← count_timeout timeout r.1
    elim (r.0 == cylinder) [
      | true ↦ some f
      | false ↦ seek_loop n cylinder head ((timeout + 1) % 65536) f
    ]

  pub seek : (cylinder head : ℕ) → Fdc → Option Fdc
  unfolding seek_loop seek_round
  seek cylinder head f = seek_loop b.fuel cylinder head 0 f

  -- The nine bytes of the command; `read_write` is 1 for a read and 0 for a write.
  abbrev pub transfer_bytes : (read_write cylinder head sector : ℕ) → Fdc → List ℕ
  transfer_bytes read_write cylinder head sector f =
      bit_or (bit_or (5 + read_write) opt_mt) opt_mf % 256
      ∷ head_drive head f
      ∷ cylinder
      ∷ head
      ∷ sector
      ∷ 2
      ∷ 18
      ∷ 0x1B
      ∷ 0xFF
      ∷ []

  pub read_write_generic : (read_write cylinder head sector : ℕ) → Fdc → Option Fdc
  read_write_generic read_write cylinder head sector f = do
    f ← seek cylinder head (motor_on f)
    let ready = if read_write == 0 then dma_write f else dma_read f
    f ← write_all (transfer_bytes read_write cylinder head sector ready) ready
    f ← wait_irq b f
    f ← drop_bytes 7 f
    r ← sense_interrupt f
    some (motor_off r.1)

-- The cylinder, the head and the sector, each cut off to a byte.
unfoldable pub lba2chs : ℕ → ℕ × ℕ × ℕ
lba2chs lba = (lba / 36 % 256, lba % 36 / 18 % 256, (lba % 36 % 18 + 1) % 256)

module _ (b : Board) where
  pub read_lba : ℕ → Fdc → Option Fdc
  read_lba lba f =
      let (c, h, s) = lba2chs lba in
      elim (leb 2880 lba) [ true ↦ some f | false ↦ read_write_generic b 1 c h s f ]

  pub write_lba : ℕ → Fdc → Option Fdc
  write_lba lba f =
      let (c, h, s) = lba2chs lba in
      elim (leb 2880 lba) [ true ↦ some f | false ↦ read_write_generic b 0 c h s f ]

  calibrate_round : Fdc → Option (ℕ × Fdc)
  calibrate_round f = do
    f ← write_all b (command_recalibrate ∷ f.drive ∷ []) f
    f ← wait_irq b f
    sense_interrupt b f

  pub calibrate_loop : ℕ → (timeout : ℕ) → Fdc → Option Fdc
  calibrate_loop zero timeout f = none
  calibrate_loop (suc n) timeout f = do
    r ← calibrate_round f
    f ← count_timeout b timeout r.1
    elim (r.0 == 0) [ true ↦ some f | false ↦ calibrate_loop n ((timeout + 1) % 65536) f ]

  pub calibrate : Fdc → Option Fdc
  unfolding calibrate_loop calibrate_round
  calibrate f = do f ← calibrate_loop b.fuel 0 (motor_on f); some (motor_off f)

  -- The two registrations in between are software interrupts of the second stage.
  pub fdc_init : Fdc → Option Fdc
  fdc_init f = do
    f ← write_fifo b 0x94 (dma_init (record f { drive = 0; irq_received = false }))
    r ← read_fifo b f
    some r.1
