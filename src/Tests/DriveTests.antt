-- ===== src/Tests/DriveTests.antt =====
-- The floppy driver of the second stage behind the file system, with controllers that answer.
use red_fox32_old.Base.{
  [], some, replicate, ℕ, ◌+◌, ◌-◌, ◌%◌, ◌<◌, ◌≡◌, ◌∙◌, ap, refl, arith, List, ◌∷◌, ◌++◌, true,
  ◌==◌, if◌then◌else◌, subst, sym,
}
use red_fox32_old.Machine.Ports.{Action, Trace, out8, in8}
use red_fox32_old.Stage2.Fdc.{Board, lba2chs, read_lba, write_lba}
use red_fox32_old.Stage2.Fdc.Transfer.{read_lba-Sends}
use red_fox32_old.Stage2.Fdc.Ready.{IsListening, IsReady, Sends, mode, sent, sent-append}
use red_fox32_old.Files.{Station, buffer, plain_drive, IsLawful}
use red_fox32_old.Files.Drive.{
  request, idle, block, IsReadBy, IsWrittenBy, Hardware, IsController, fdc_drive,
}
use red_fox32_old.Files.Drive.Laws.{fdc_drive-IsLawful}
use red_fox32_old.Stage2.Gates.{Tables, Symbols}
use red_fox32_old.Stage2.Calls.{Registers32, Routines}
use red_fox32_old.Stage2.Calls.Dispatch.{IsLaidOut}
use red_fox32_old.Files.Sectors.{FileSystem}
use red_fox32_old.Files.Kernel.{Addresses, enter_kernel}
use red_fox32_old.Files.Boot.Handover.{handed_over, IsUp, stage2_centry-enter_kernel}
use red_fox32_old.Files.Boot.{stage2_centry}
use red_fox32_old.Files.Boot.Booted.{IsStarted, stage2_centry-IsStarted}

-- The controllers look at the mode and at the place in the command.
abbrev reply : List ℕ → Station → Station
reply (a ∷ b ∷ c ∷ d ∷ direction ∷ f ∷ g ∷ cylinder ∷ head ∷ sector ∷ rest) s =
    if direction == mode 0x56
    then plain_drive.read_lba (block cylinder head sector) s
    else if direction == mode 0x5A
    then plain_drive.write_lba (block cylinder head sector) s
    else s
reply _ s = s

abbrev floppy : Hardware
floppy t s = reply (sent t) s

replied : (l : ℕ) (s : Station) → IsReadBy l s (plain_drive.read_lba l s)
replied l s = record {
  inside = λ i lt. let back : buffer + i - buffer ≡ i = omega arith in ground (arith, back);
  outside = λ x out. ground arith;
  position = refl;
  disk = λ j i. refl;
}

stored : (l : ℕ) (s : Station) → IsWrittenBy l s (plain_drive.write_lba l s)
stored l s = record { disk = λ j i lt. refl; screen = refl }

floppy-IsController : IsController floppy
floppy-IsController = record {
  quiet = λ s. refl;
  reads = λ t c h n s place e.
      subst (λ bytes. IsReadBy (block c h n) s (reply bytes s)) (sym e) (replied (block c h n) s);
  writes = λ t c h n s place e.
      subst (λ bytes. IsWrittenBy (block c h n) s (reply bytes s)) (sym e) (stored (block c h n) s);
}

-- The bytes read since the last acknowledgement.
abbrev count : Action → ℕ → ℕ
count (out8 port value) n = if port == 0x03F5 then (if value == 8 then 0 else n) else n
count (in8 port value) n = if port == 0x03F5 then n + 1 else n
count _ n = n

abbrev since : ℕ → Trace → ℕ
since n [] = n
since n (x ∷ t) = since (count x n) t

since-append : (n : ℕ) (t u : Trace) → since n (t ++ u) ≡ since (since n t) u
since-append n [] u = refl
since-append n (x ∷ t) u = since-append (count x n) t u

abbrev third : List ℕ → ℕ
third (a ∷ b ∷ c ∷ rest) = c
third _ = 0

-- The status always requests a byte. The first byte of an answer is the status of a seek that has ended, the
-- second the cylinder, all others are the size of a sector.
abbrev board : Board
board = record {
  device = λ t port.
      if port == 0x03F4
      then 0x80
      else if since 0 t == 0
      then 0x20
      else if since 0 t == 1
      then third (sent t)
      else 2;
  line = λ t. true;
  fuel = 1;
}

board-cylinder :
    (t : Trace) (address c status st0 status' : ℕ)
    → c < 80
    → sent t ≡ 15 ∷ address ∷ c ∷ []
    → board.device
          (t ++ out8 0x3F5 8 ∷ in8 0x3F4 status ∷ in8 0x3F5 st0 ∷ in8 0x3F4 status' ∷ [])
          0x3F5
        % 256
      ≡ c
board-cylinder t address c status st0 status' lt e =
    let u = out8 0x3F5 8 ∷ in8 0x3F4 status ∷ in8 0x3F5 st0 ∷ in8 0x3F4 status' ∷ [] in
    let second : since 0 (t ++ u) ≡ 1 = since-append 0 t u in
    let told : sent (t ++ u) ≡ 15 ∷ address ∷ c ∷ 8 ∷ [] =
      sent-append t u ∙ ap (λ l. l ++ 8 ∷ []) e in
    rw (second, told) (omega arith)

board-IsListening : IsListening board
board-IsListening = record { requests = λ t e. omega arith; fuel = λ e. omega arith }

board-IsReady : IsReady board
board-IsReady = record {
  listening = board-IsListening;
  cylinder = board-cylinder;
  raised = λ t. refl;
}

abbrev machine : Station
machine = record {
  screen = record {
    memory = λ x. if x == 0x7C0B then 3 else if x == 0x7C0D then 2 else 0;
    screen_pos = 0;
  };
  disk = λ l i. (l + i) % 256;
}

-- The block 100 is the sector 11 on the second side of the cylinder 2.
read_lba-Sends_example :
    Sends
      (read_lba board 100 (idle machine.screen))
      (idle machine.screen)
      (request 0x56 0xC6 2 1 11)
    × Sends
        (write_lba board 100 (idle machine.screen))
        (idle machine.screen)
        (request 0x5A 0xC5 2 1 11)
unfolding lba2chs
read_lba-Sends_example =
    read_lba-Sends board 100 (idle machine.screen) (omega arith) board-IsReady refl

floppy-IsLawful : IsLawful (fdc_drive board floppy)
floppy-IsLawful = (fdc_drive-IsLawful board floppy floppy-IsController board-IsReady).1

-- The whole second stage on these controllers.
abbrev routines : Routines
routines = record {
  register_syscall = 0x1000;
  register_interrupt_handler = 0x1100;
  get_fdci = 0x1200;
  read_lba = 0x1300;
  write_lba = 0x1400;
}

routines-IsLaidOut : IsLaidOut routines
routines-IsLaidOut = record {
  not_null = λ e. omega (arith, e);
  handler_not_null = λ e. omega (arith, e);
  handler_apart = λ e. omega (arith, e);
  fdci_not_null = λ e. omega (arith, e);
  apart = λ e. omega (arith, e);
  apart' = λ e. omega (arith, e);
  small = omega arith;
  small' = omega arith;
}

abbrev registers : Registers32
registers = record { edi = 0; esi = 0; ebp = 0; esp = 0; ebx = 0; edx = 0; ecx = 0; eax = 0 }

abbrev symbols : Symbols
symbols = record { idt = 0x9000; interrupt_calls = []; int_syscall = 0x2B00 }

abbrev blank_tables : Tables
blank_tables = record {
  gates = [];
  interrupt_handlers = [];
  syscalls = replicate 0x256 0;
  trace = [];
}

stage2_centry-IsStarted_example :
    (s : Tables × Station) × (stage2_centry routines symbols
        (λ a b. fdc_drive board floppy)
        registers
        0x1500
        0xFF00
        board
        (blank_tables, machine)
      ≡ some s)
    × IsStarted routines machine s
stage2_centry-IsStarted_example =
    stage2_centry-IsStarted routines symbols (λ a b. fdc_drive board floppy) registers 0x1500 0xFF00
      board blank_tables machine routines-IsLaidOut refl (omega arith) floppy-IsLawful
      board-IsListening (record { bound = omega arith; cell = refl })

-- And the kernel behind it.
abbrev addresses : Addresses
addresses = record {
  fdci = 0x20000;
  fs_fdci = 0x20010;
  fsi = 0x20020;
  get_fs_interface = 0x30000;
  read_file = 0x30100;
  int32 = 0x30200;
}

abbrev unmounted : FileSystem
unmounted = record {
  station = machine;
  sector_map = record { sector_groups = []; used_sectors = 0; free_sectors = 0 };
  root_directory = λ _. 0;
}

stage2_centry-enter_kernel_example :
    (s : Tables × Station) × (stage2_centry routines symbols
        (λ a b. fdc_drive board floppy)
        registers
        0x1500
        0xFF00
        board
        (blank_tables, machine)
      ≡ some s)
    × IsUp machine addresses 100 7 (
        enter_kernel routines
          (λ a b. fdc_drive board floppy)
          addresses
          registers
          (handed_over unmounted s))
stage2_centry-enter_kernel_example =
    stage2_centry-enter_kernel routines symbols (λ a b. fdc_drive board floppy) addresses registers
      registers 0x1500 0xFF00 board blank_tables machine unmounted 100 7 routines-IsLaidOut refl
      (omega arith, omega arith)
      ((omega arith, omega arith), (omega arith, omega arith), (omega arith, omega arith))
      (omega arith) floppy-IsLawful board-IsListening (record { bound = omega arith; cell = refl })
      (omega arith) (omega arith) (omega arith) (omega arith)
