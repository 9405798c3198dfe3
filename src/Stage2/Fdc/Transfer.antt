-- ===== src/Stage2/Fdc/Transfer.antt =====
-- ReadLBA and WriteLBA of FDC.c on a controller that is ready.
use red_fox32_old.Base.{
  ℕ, zero, suc, ◌<◌, ◌≡◌, ◌≢◌, ◌∙◌, ap, subst, refl, List, [], ◌∷◌, ◌++◌, Bool, true, false, Option,
  some, ◌==◌, ==_iff, if◌then◌else◌, append_assoc, append-nil, gt→leb,
}
use red_fox32_old.Base.Partial.{◌>>=◌}
use red_fox32_old.Stage2.Fdc.{
  Fdc, Board, seek, seek_loop, seek_round, head_drive, transfer_bytes, read_write_generic, motor_on,
  motor_off, dma_read, dma_write, lba2chs, read_lba, write_lba, command_seek,
  command_sense_interrupt, wait_irq, sense_interrupt, write_all, drop_bytes,
}
use red_fox32_old.Stage2.Screen.{Shown-refl}
use red_fox32_old.Stage2.Fdc.Ready.{
  IsReady, Sends, Keeps, Keeps-trans, mode, sent, sent-append, Sends-bind, Reads-bind,
  wait_irq-Sends, write_all-Sends, drop_bytes-Sends, sense_interrupt-Reads, answer, answer-cylinder,
}
use red_fox32_old.Stage2.Fdc.Blocks.{lba2chs-place}

-- Behind a step that always returns.
Sends-after :
    (r : Option Fdc) (f f' : Fdc) (first bytes : List ℕ)
    → sent f'.trace ≡ sent f.trace ++ first
    → Keeps f f'
    → Sends r f' bytes
    → Sends r f (first ++ bytes)
Sends-after r f f' first bytes e d (g, returned, s, d') = (
  g,
  returned,
  s ∙ ap (λ x. x ++ bytes) e ∙ append_assoc (sent f.trace) first bytes,
  Keeps-trans d d',
)

module _ (b : Board) (cylinder : ℕ) (ready : IsReady b) (small : cylinder < 80) where
  seek_once :
      (n head : ℕ) (f : Fdc)
      → n ≢ 0
      → sent f.trace ≡ []
      → Sends
          (seek_loop b n cylinder head 0 f)
          f
          (command_seek ∷ head_drive head f ∷ cylinder ∷ command_sense_interrupt ∷ [])
  unfolding seek_loop seek_round
  seek_once zero head f nz empty = absurd (nz refl)
  seek_once (suc n) head f nz empty =
      let (f1, e1, s1, d1) =
        write_all-Sends b ready.listening (command_seek ∷ head_drive head f ∷ cylinder ∷ []) f in
      let (f2, e2, s2, d2) = wait_irq-Sends b ready f1 in
      let (f3, e3, s3, d3) = sense_interrupt-Reads b ready.listening f2 in
      let answered : answer b ready.listening f2 ≡ cylinder =
        answer-cylinder b ready f2 (head_drive head f) cylinder small (
          s2
          ∙ append-nil (sent f1.trace)
          ∙ s1
          ∙ ap (λ x. x ++ command_seek ∷ head_drive head f ∷ cylinder ∷ []) empty) in
      (
        f3,
        rw (e1, e2, e3, answered, (==_iff cylinder cylinder).1 refl),
        s3
            ∙ ap (λ x. x ++ command_sense_interrupt ∷ []) (s2 ∙ append-nil (sent f1.trace) ∙ s1)
            ∙ append_assoc (sent f.trace) (command_seek ∷ head_drive head f ∷ cylinder ∷ [])
                (command_sense_interrupt ∷ []),
        Keeps-trans d1 (Keeps-trans d2 d3),
      )

  -- The mode of the DMA controller.
  abbrev direction : (read_write : ℕ) → ℕ
  direction read_write = if read_write == 0 then mode 0x5A else mode 0x56

  -- The bytes of a transfer, from the seek to the last acknowledgement.
  abbrev whole : (read_write head sector : ℕ) → Fdc → List ℕ
  whole read_write head sector f =
      (command_seek ∷ head_drive head f ∷ cylinder ∷ command_sense_interrupt ∷ [])
      ++ direction read_write
        ∷ (transfer_bytes b read_write cylinder head sector f ++ (command_sense_interrupt ∷ []))

  -- The last steps: seven bytes of results, and the acknowledgement.
  finish-Sends :
      (f : Fdc)
      → Sends
          (drop_bytes b 7 f >>= λ f1. sense_interrupt b f1 >>= λ r. some (motor_off r.1))
          f
          (command_sense_interrupt ∷ [])
  unfolding motor_off
  finish-Sends f =
      Sends-bind (drop_bytes b 7 f) _ f [] (command_sense_interrupt ∷ [])
        (drop_bytes-Sends b ready.listening 7 f)
        λ f1 _.
          Reads-bind (sense_interrupt b f1) (λ r. some (motor_off r.1)) f1
            (answer b ready.listening f1) (command_sense_interrupt ∷ []) []
            (sense_interrupt-Reads b ready.listening f1)
            λ f2 _. (
              motor_off f2,
              refl,
              sent-append f2.trace _,
              record { drive = refl; shown = Shown-refl f2.screen },
            )

  -- A command with its bytes, and what follows it.
  abbrev command : List ℕ → Fdc → Option Fdc
  command bytes f = write_all b bytes f >>= λ f1. wait_irq b f1 >>= λ f2.
      drop_bytes b 7 f2 >>= λ f3. sense_interrupt b f3 >>= λ r. some (motor_off r.1)

  command-Sends :
      (bytes : List ℕ) (f : Fdc)
      → Sends (command bytes f) f (bytes ++ (command_sense_interrupt ∷ []))
  command-Sends bytes f =
      Sends-bind (write_all b bytes f) _ f bytes (command_sense_interrupt ∷ [])
        (write_all-Sends b ready.listening bytes f)
        λ f1 _.
          Sends-bind (wait_irq b f1) _ f1 [] (command_sense_interrupt ∷ [])
            (wait_irq-Sends b ready f1) λ f2 _. finish-Sends f2

  bytes-drive :
      (read_write head sector : ℕ) (g f : Fdc)
      → g.drive ≡ f.drive
      → transfer_bytes b read_write cylinder head sector g
        ≡ transfer_bytes b read_write cylinder head sector f
  bytes-drive read_write head sector g f e = rw e

  -- The DMA controller is told the direction.
  dma-sends :
      (read : Bool) (f : Fdc)
      → sent (if read then dma_write f else dma_read f).trace
        ≡ sent f.trace ++ (if read then mode 0x5A else mode 0x56) ∷ []
  unfolding dma_read dma_write
  dma-sends true f = simp (sent-append, append-nil)
  dma-sends false f = simp (sent-append, append-nil)

  dma-Keeps : (read : Bool) (f : Fdc) → Keeps f (if read then dma_write f else dma_read f)
  unfolding dma_read dma_write
  dma-Keeps true f = record { drive = refl; shown = Shown-refl f.screen }
  dma-Keeps false f = record { drive = refl; shown = Shown-refl f.screen }

  pub read_write_generic-Sends :
      (read_write head sector : ℕ) (f : Fdc)
      → sent f.trace ≡ []
      → Sends
          (read_write_generic b read_write cylinder head sector f)
          f
          (whole read_write head sector f)
  unfolding read_write_generic seek motor_on
  read_write_generic-Sends read_write head sector f empty =
      Sends-after _ f (motor_on f) [] (whole read_write head sector f) (sent-append f.trace _)
        (record { drive = refl; shown = Shown-refl f.screen })
        (Sends-bind (seek b cylinder head (motor_on f)) _ (motor_on f) _ _
          (seek_once b.fuel head (motor_on f) ready.listening.fuel
            (sent-append f.trace _ ∙ append-nil (sent f.trace) ∙ empty))
          λ f1 d.
            let set = if read_write == 0 then dma_write f1 else dma_read f1 in
            let kept = dma-Keeps (read_write == 0) f1 in
            let drive : set.drive ≡ f.drive = kept.drive ∙ d.drive in
            Sends-after _ f1 set (direction read_write ∷ []) _ (dma-sends (read_write == 0) f1) kept
              (subst
                (λ bytes.
                  Sends (command (transfer_bytes b read_write cylinder head sector set) set) set
                    (bytes ++ (command_sense_interrupt ∷ [])))
                (bytes-drive read_write head sector set f drive)
                (command-Sends (transfer_bytes b read_write cylinder head sector set) set)))

-- On a floppy controller that is ready (`IsReady`), with nothing sent to the controllers since
-- the call began, ReadLBA and WriteLBA of a block of the disk return and send the seek, its
-- acknowledgement, the mode for DMA, the nine bytes of the command for the place of the block,
-- and the last acknowledgement; the controllers get no other byte of these kinds, the drive is
-- the same, and printing stays on the screen.
pub read_lba-Sends :
    (b : Board) (lba : ℕ) (f : Fdc)
    → lba < 2880
    → IsReady b
    → sent f.trace ≡ []
    → let (c, h, s) = lba2chs lba in
      let hd = head_drive h f in
      let seeks = command_seek ∷ hd ∷ c ∷ command_sense_interrupt ∷ [] in
      let place = hd ∷ c ∷ h ∷ s ∷ 2 ∷ 18 ∷ 0x1B ∷ 0xFF ∷ command_sense_interrupt ∷ [] in
      Sends (read_lba b lba f) f (seeks ++ mode 0x56 ∷ 0xC6 ∷ place)
      × Sends (write_lba b lba f) f (seeks ++ mode 0x5A ∷ 0xC5 ∷ place)
unfolding read_lba write_lba
read_lba-Sends b lba f lt ready empty =
    let small = (lba2chs-place lba lt).0 in
    (
      rw (gt→leb 2880 lba lt, read_lba)
          (read_write_generic-Sends b (lba2chs lba).0 ready small 1 (lba2chs lba).1 (lba2chs lba).2
            f empty),
      rw (gt→leb 2880 lba lt, write_lba)
          (read_write_generic-Sends b (lba2chs lba).0 ready small 0 (lba2chs lba).1 (lba2chs lba).2
            f empty),
    )
