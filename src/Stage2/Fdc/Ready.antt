-- ===== src/Stage2/Fdc/Ready.antt =====
-- FDC.c on a controller that is ready: what a transfer sends to it.
use red_fox32_old.Base.{
  ◌+◌, ℕ, zero, suc, ◌%◌, ◌<◌, ◌≡◌, ◌≢◌, ◌∙◌, ap, sym, refl, List, [], ◌∷◌, ◌++◌, true, false,
  Option, some, bit_and, ◌==◌, ==_false, if◌then◌else◌, append_assoc, append-nil, codes,
}
use red_fox32_old.Base.Partial.{◌>>=◌}
use red_fox32_old.Machine.Ports.{
  Action, Trace, out8, out16, in8, cli, sti, hlt, lidt, call, inb, outb,
}
use red_fox32_old.Stage2.Screen.{Shown, Shown-refl, Shown-trans, put_string, put_string-Shown}
use red_fox32_old.Stage2.Fdc.{
  Fdc, Board, reg_fifo, reg_msr, msr_rqm, wait_loop, wait_irq, await_request, read_fifo, write_fifo,
  write_all, drop_bytes, sense_interrupt, irq_handler, print, command_sense_interrupt, command_seek,
}

-- What the two controllers are told: the bytes that have been written to the register for commands and
-- data, and those to the mode register for DMA, which stand 256 higher.
abbrev pub mode : ℕ → ℕ
mode value = 256 + value

abbrev pub to_fifo : Action → List ℕ
to_fifo (out8 port value) =
    if port == reg_fifo then value ∷ [] else if port == 0x0B then mode value ∷ [] else []
to_fifo (out16 port value) = []
to_fifo (in8 port value) = []
to_fifo cli = []
to_fifo sti = []
to_fifo hlt = []
to_fifo (lidt limit base) = []
to_fifo (call function) = []

abbrev pub sent : Trace → List ℕ
sent [] = []
sent (x ∷ t) = to_fifo x ++ sent t

pub sent-append : (t u : Trace) → sent (t ++ u) ≡ sent t ++ sent u
sent-append [] u = refl
sent-append (x ∷ t) u =
    ap (λ s. to_fifo x ++ s) (sent-append t u) ∙ sym (append_assoc (to_fifo x) (sent t) (sent u))

four_more :
    (t : Trace) (a b c d : Action)
    → (((t ++ a ∷ []) ++ b ∷ []) ++ c ∷ []) ++ d ∷ [] ≡ t ++ a ∷ b ∷ c ∷ d ∷ []
four_more t a b c d = simp append_assoc

-- A controller that always requests a byte; every loop is given a round.
pub record IsListening (b : Board) : Type 0 where
  pub requests : (t : Trace) → bit_and (b.device t reg_msr % 256) msr_rqm ≢ 0
  pub fuel : b.fuel ≢ 0

-- One that has also raised its line whenever it is looked at, and reports the cylinder that it was sent to:
-- the second byte of the answer to the command that follows a seek, which is the first thing that it was
-- told. All other bytes that it gives are its own.
pub record IsReady (b : Board) : Type 0 where
  pub listening : IsListening b
  pub cylinder :
      (t : Trace) (address c status st0 status' : ℕ)
      → c < 80
      → sent t ≡ command_seek ∷ address ∷ c ∷ []
      → b.device
            (t
              ++ out8 reg_fifo command_sense_interrupt
                ∷ in8 reg_msr status
                ∷ in8 reg_fifo st0
                ∷ in8 reg_msr status'
                ∷ [])
            reg_fifo
          % 256
        ≡ c
  pub raised : (t : Trace) → b.line t ≡ true

-- The drive is the same, and at most something has been printed.
pub record Keeps (f f' : Fdc) : Type 0 where
  pub drive : f'.drive ≡ f.drive
  pub shown : Shown f.screen f'.screen

pub Keeps-refl : (f : Fdc) → Keeps f f
Keeps-refl f = record { drive = refl; shown = Shown-refl f.screen }

pub Keeps-trans : {f g h : Fdc} → Keeps f g → Keeps g h → Keeps f h
Keeps-trans p q = record { drive = q.drive ∙ p.drive; shown = Shown-trans p.shown q.shown }

-- A call that returns, has sent just these bytes, and keeps the rest.
abbrev pub Sends : Option Fdc → Fdc → List ℕ → Type 0
Sends r f bytes = (f' : Fdc) × (r ≡ some f') × (sent f'.trace ≡ sent f.trace ++ bytes) × Keeps f f'

-- The same for a call that returns a byte as well.
abbrev pub Reads : Option (ℕ × Fdc) → Fdc → ℕ → List ℕ → Type 0
Reads r f value bytes =
    (f' : Fdc) × (r ≡ some (value, f')) × (sent f'.trace ≡ sent f.trace ++ bytes) × Keeps f f'

pub Sends-bind :
    (r : Option Fdc) (k : Fdc → Option Fdc) (f : Fdc) (xs ys : List ℕ)
    → Sends r f xs
    → ((f' : Fdc) → Keeps f f' → Sends (k f') f' ys)
    → Sends (r >>= k) f (xs ++ ys)
Sends-bind r k f xs ys (f1, e, s, d) rest =
    let (f2, e2, s2, d2) = rest f1 d in
    (f2, rw (e, e2), s2 ∙ ap (λ x. x ++ ys) s ∙ append_assoc (sent f.trace) xs ys, Keeps-trans d d2)

pub Reads-bind :
    (r : Option (ℕ × Fdc)) (k : ℕ × Fdc → Option Fdc) (f : Fdc) (value : ℕ) (xs ys : List ℕ)
    → Reads r f value xs
    → ((f' : Fdc) → Keeps f f' → Sends (k (value, f')) f' ys)
    → Sends (r >>= k) f (xs ++ ys)
Reads-bind r k f value xs ys (f1, e, s, d) rest =
    let (f2, e2, s2, d2) = rest f1 d in
    (f2, rw (e, e2), s2 ∙ ap (λ x. x ++ ys) s ∙ append_assoc (sent f.trace) xs ys, Keeps-trans d d2)

module _ (b : Board) (ready : IsListening b) where
  await_request-ready :
      (n : ℕ) (t : Trace) → n ≢ 0 → await_request b n t ≡ some (inb b.device reg_msr t).1
  unfolding await_request
  await_request-ready zero t nz = absurd (nz refl)
  await_request-ready (suc n) t nz = rw (==_false (ready.requests t), await_request)

  -- The status that lets a byte through.
  abbrev pub status : Trace → Trace
  status t = (inb b.device reg_msr t).1

  sent-status : (t : Trace) → sent (status t) ≡ sent t
  sent-status t = sent-append t _ ∙ append-nil (sent t)

  -- A byte that has been written, and one that has been read.
  abbrev wrote : ℕ → Fdc → Fdc
  wrote v f = record f { trace = outb reg_fifo v (status f.trace) }

  abbrev got : Fdc → Fdc
  got f = record f { trace = (inb b.device reg_fifo (status f.trace)).1 }

  abbrev pub byte : Fdc → ℕ
  byte f = b.device (status f.trace) reg_fifo % 256

  write_fifo-some : (v : ℕ) (f : Fdc) → write_fifo b v f ≡ some (wrote v f)
  unfolding write_fifo
  write_fifo-some v f = rw (await_request-ready b.fuel f.trace ready.fuel)

  read_fifo-some : (f : Fdc) → read_fifo b f ≡ some (byte f, got f)
  unfolding read_fifo
  read_fifo-some f = rw (await_request-ready b.fuel f.trace ready.fuel)

  sent-wrote : (v : ℕ) (f : Fdc) → sent (wrote v f).trace ≡ sent f.trace ++ v ∷ []
  sent-wrote v f = sent-append (status f.trace) _ ∙ ap (λ s. s ++ v ∷ []) (sent-status f.trace)

  sent-got : (f : Fdc) → sent (got f).trace ≡ sent f.trace
  sent-got f =
      sent-append (status f.trace) _ ∙ append-nil (sent (status f.trace)) ∙ sent-status f.trace

  pub write_fifo-Sends : (v : ℕ) (f : Fdc) → Sends (write_fifo b v f) f (v ∷ [])
  write_fifo-Sends v f = (
    wrote v f,
    write_fifo-some v f,
    sent-wrote v f,
    record { drive = refl; shown = Shown-refl f.screen },
  )

  pub read_fifo-Reads : (f : Fdc) → Reads (read_fifo b f) f (byte f) []
  read_fifo-Reads f = (
    got f,
    read_fifo-some f,
    sent-got f ∙ sym (append-nil (sent f.trace)),
    record { drive = refl; shown = Shown-refl f.screen },
  )

  pub write_all-Sends : (vs : List ℕ) (f : Fdc) → Sends (write_all b vs f) f vs
  unfolding write_all
  write_all-Sends [] f = (f, refl, sym (append-nil (sent f.trace)), Keeps-refl f)
  write_all-Sends (v ∷ vs) f =
      Sends-bind (write_fifo b v f) (write_all b vs) f (v ∷ []) vs (write_fifo-Sends v f)
        λ f' _. write_all-Sends vs f'

  pub drop_bytes-Sends : (n : ℕ) (f : Fdc) → Sends (drop_bytes b n f) f []
  unfolding drop_bytes
  drop_bytes-Sends zero f = (f, refl, sym (append-nil (sent f.trace)), Keeps-refl f)
  drop_bytes-Sends (suc n) f =
      Reads-bind (read_fifo b f) (λ r. drop_bytes b n r.1) f (byte f) [] [] (read_fifo-Reads f)
        λ f' _. drop_bytes-Sends n f'

  -- The answer to the command is two bytes, of which the second is kept.
  abbrev pub answer : Fdc → ℕ
  answer f = byte (got (wrote command_sense_interrupt f))

  pub sense_interrupt-Reads :
      (f : Fdc) → Reads (sense_interrupt b f) f (answer f) (command_sense_interrupt ∷ [])
  unfolding sense_interrupt
  sense_interrupt-Reads f =
      let f1 = wrote command_sense_interrupt f in
      (
        got (got f1),
        rw (write_fifo-some command_sense_interrupt f, read_fifo-some f1, read_fifo-some (got f1))
            refl,
        sent-got (got f1) ∙ sent-got f1 ∙ sent-wrote command_sense_interrupt f,
        record { drive = refl; shown = Shown-refl f.screen },
      )

module _ (b : Board) (ready : IsReady b) where
  wait_loop-ready : (n : ℕ) (f : Fdc) → n ≢ 0 → wait_loop b n f ≡ some (irq_handler f)
  unfolding wait_loop irq_handler
  wait_loop-ready zero f nz = absurd (nz refl)
  wait_loop-ready (suc n) f nz = rw (ready.raised f.trace, wait_loop, ready.raised f.trace)

  -- The three lines that the wait prints.
  printed :
      (f : Fdc)
      → Keeps f (
          print
            (codes "IRQ_REG\n")
            (record (irq_handler (print (codes "IRQ_WAIT\n") f)) { irq_received = false }))
  unfolding irq_handler
  printed f =
      let first = put_string-Shown (codes "IRQ_WAIT\n") 0x0C f.screen in
      let waiting = put_string (codes "IRQ_WAIT\n") 0x0C f.screen in
      let second = put_string-Shown (codes "IRQ_REC\n") 0x0C waiting in
      let third =
        put_string-Shown (codes "IRQ_REG\n") 0x0C (put_string (codes "IRQ_REC\n") 0x0C waiting) in
      record { drive = refl; shown = Shown-trans first (Shown-trans second third) }

  pub wait_irq-Sends : (f : Fdc) → Sends (wait_irq b f) f []
  unfolding wait_irq irq_handler
  wait_irq-Sends f = (
    print (codes "IRQ_REG\n")
        (record (irq_handler (print (codes "IRQ_WAIT\n") f)) { irq_received = false }),
    rw (wait_loop-ready b.fuel (print (codes "IRQ_WAIT\n") f) ready.listening.fuel),
    sym (append-nil (sent f.trace)),
    printed f,
  )

  pub answer-cylinder :
      (f : Fdc) (address c : ℕ)
      → c < 80
      → sent f.trace ≡ command_seek ∷ address ∷ c ∷ []
      → answer b ready.listening f ≡ c
  answer-cylinder f address c lt e =
      let t = status b ready.listening f.trace in
      let t1 = outb reg_fifo command_sense_interrupt t in
      let s1 = b.device t1 reg_msr % 256 in
      let t2 = t1 ++ in8 reg_msr s1 ∷ [] in
      let v = b.device t2 reg_fifo % 256 in
      let t3 = t2 ++ in8 reg_fifo v ∷ [] in
      let s2 = b.device t3 reg_msr % 256 in
      ap (λ t. b.device t reg_fifo % 256)
        (four_more t (out8 reg_fifo command_sense_interrupt) (in8 reg_msr s1) (in8 reg_fifo v)
          (in8 reg_msr s2))
      ∙ ready.cylinder t address c s1 v s2 lt (sent-status b ready.listening f.trace ∙ e)
