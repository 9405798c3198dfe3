-- ===== src/Files/Drive/Laws.antt =====
-- The functions of FDC.c keep the laws of FDCInterface.
use red_fox32_old.Base.{
  ℕ, zero, suc, ◌+◌, ◌*◌, ◌≤◌, ◌<◌, ◌≡◌, ◌⊎◌, ◌∙◌, ap, subst, refl, inl, arith, ◌==◌, if◌then◌else◌,
  dec_lt, sym, ◌%◌,
}
use red_fox32_old.Stage2.Screen.{Screen, IsOnVga, Shown, vga_memory}
use red_fox32_old.Stage2.Fdc.{Board, lba2chs, head_drive}
use red_fox32_old.Stage2.Fdc.Blocks.{lba2chs-place, read_lba-outside}
use red_fox32_old.Stage2.Fdc.Ready.{IsReady}
use red_fox32_old.Stage2.Fdc.Transfer.{read_lba-Sends}
use red_fox32_old.Files.{Station, memory, buffer, IsLawful}
use red_fox32_old.Files.Drive.{
  block, IsReadBy, IsWrittenBy, Hardware, IsController, idle, fdc_drive, Returns,
}

head_address : (h : ℕ) (c : Screen) → h < 2 → head_drive h (idle c) ≡ h * 4
head_address zero c lt = refl
head_address (suc zero) c lt = refl
head_address (suc (suc h)) c lt = absurd (omega (arith, lt))

module _ (board : Board) (hardware : Hardware) (controller : IsController hardware)
    (ready : IsReady board) where
  -- The place of the block is one of the disk.
  inside_disk :
      (l : ℕ)
      → l < 2880
      → ((lba2chs l).0 < 80) × ((lba2chs l).1 < 2) × (1 ≤ (lba2chs l).2) × ((lba2chs l).2 ≤ 18)
  inside_disk l lt = let (a, b, c, d, e) = lba2chs-place l lt in (a, b, c, d)

  same_block : (l : ℕ) → l < 2880 → block (lba2chs l).0 (lba2chs l).1 (lba2chs l).2 ≡ l
  same_block l lt = let (a, b, c, d, e) = lba2chs-place l lt in e

  read_station :
      (l : ℕ) (s : Station)
      → l < 2880
      → (c : Screen) × Shown s.screen c
        × IsReadBy l (record s { screen = c }) ((fdc_drive board hardware).read_lba l s)
  read_station l s lt =
      let ((f, returned, bytes, kept), _) = read_lba-Sends board l (idle s.screen) lt ready refl in
      (
        f.screen,
        kept.shown,
        rw returned (
            subst
              (λ b.
                IsReadBy b (record s { screen = f.screen })
                  (hardware f.trace (record s { screen = f.screen })))
              (same_block l lt)
              (controller.reads f.trace (lba2chs l).0 (lba2chs l).1 (lba2chs l).2
                (record s { screen = f.screen }) (inside_disk l lt)
                (bytes ∙ rw (head_address (lba2chs l).1 s.screen (inside_disk l lt).1) refl))),
      )

  write_station :
      (l : ℕ) (s : Station)
      → l < 2880
      → (c : Screen) × Shown s.screen c
        × IsWrittenBy l (record s { screen = c }) ((fdc_drive board hardware).write_lba l s)
  write_station l s lt =
      let (_, (f, returned, bytes, kept)) = read_lba-Sends board l (idle s.screen) lt ready refl in
      (
        f.screen,
        kept.shown,
        rw returned (
            subst
              (λ b.
                IsWrittenBy b (record s { screen = f.screen })
                  (hardware f.trace (record s { screen = f.screen })))
              (same_block l lt)
              (controller.writes f.trace (lba2chs l).0 (lba2chs l).1 (lba2chs l).2
                (record s { screen = f.screen }) (inside_disk l lt)
                (bytes ∙ rw (head_address (lba2chs l).1 s.screen (inside_disk l lt).1) refl))),
      )

  -- A block that is not on the disk asks for nothing.
  outside_disk :
      (l : ℕ) (s : Station)
      → 2880 ≤ l
      → ((fdc_drive board hardware).read_lba l s ≡ s)
        × ((fdc_drive board hardware).write_lba l s ≡ s)
  outside_disk l s h =
      let (read, write) = read_lba-outside board l (idle s.screen) h in
      (rw read (controller.quiet s), rw write (controller.quiet s))

  read_frame :
      (l x : ℕ) (s : Station)
      → IsOnVga s.screen
      → (x < buffer) ⊎ ((buffer + 512 ≤ x) × (x < vga_memory))
      → memory ((fdc_drive board hardware).read_lba l s) x ≡ memory s x
  read_frame l x s on out = elim (dec_lt l 2880) [
    | yes lt ↦
        let (c, shown, read) = read_station l s lt in
        read.outside x (ground arith) ∙ shown.outside on x (ground arith)
    | no nlt ↦ ap (λ u. memory u x) (outside_disk l s (omega arith)).0
  ]

  read_screen :
      (l : ℕ) (s : Station)
      → IsOnVga s.screen
      → IsOnVga ((fdc_drive board hardware).read_lba l s).screen
  read_screen l s on = elim (dec_lt l 2880) [
    | yes lt ↦
        let (c, shown, read) = read_station l s lt in
        record {
          bound = omega (arith, read.position, (shown.on on).bound);
          cell = ap (λ p. p % 2) read.position ∙ (shown.on on).cell;
        }
    | no nlt ↦ subst (λ u. IsOnVga u.screen) (sym (outside_disk l s (omega arith)).0) on
  ]

  read_disk :
      (l j i : ℕ) (s : Station) → ((fdc_drive board hardware).read_lba l s).disk j i ≡ s.disk j i
  read_disk l j i s = elim (dec_lt l 2880) [
    | yes lt ↦ let (c, shown, read) = read_station l s lt in read.disk j i
    | no nlt ↦ ap (λ u. u.disk j i) (outside_disk l s (omega arith)).0
  ]

  read_buffer :
      (l i : ℕ) (s : Station)
      → l < 2880
      → i < 512
      → memory ((fdc_drive board hardware).read_lba l s) (buffer + i) ≡ s.disk l i
  read_buffer l i s lt small = let (c, shown, read) = read_station l s lt in read.inside i small

  write_disk :
      (l j i : ℕ) (s : Station)
      → IsOnVga s.screen
      → l < 2880
      → i < 512
      → ((fdc_drive board hardware).write_lba l s).disk j i
        ≡ (if j == l then memory s (buffer + i) else s.disk j i)
  write_disk l j i s on lt small =
      let (c, shown, written) = write_station l s lt in
      let same : c.memory (buffer + i) ≡ memory s (buffer + i) =
        shown.outside on (buffer + i) (inl (omega arith)) in
      written.disk j i small ∙ ap (λ v. if j == l then v else s.disk j i) same

  write_memory :
      (l x : ℕ) (s : Station)
      → IsOnVga s.screen
      → x < vga_memory
      → memory ((fdc_drive board hardware).write_lba l s) x ≡ memory s x
  write_memory l x s on low = elim (dec_lt l 2880) [
    | yes lt ↦
        let (c, shown, written) = write_station l s lt in
        ap (λ (u : Screen). u.memory x) written.screen ∙ shown.outside on x (inl low)
    | no nlt ↦ ap (λ u. memory u x) (outside_disk l s (omega arith)).1
  ]

  returns : (l : ℕ) (s : Station) → Returns board l s
  returns l s = elim (dec_lt l 2880) [
    | yes lt ↦
        let ((f, read, _, _), (g, written, _, _)) =
          read_lba-Sends board l (idle s.screen) lt ready refl in
        record { reads = (f, read); writes = (g, written) }
    | no nlt ↦
        let (read, written) = read_lba-outside board l (idle s.screen) (omega arith) in
        record { reads = (idle s.screen, read); writes = (idle s.screen, written) }
  ]

pub fdc_drive-IsLawful :
    (board : Board) (hardware : Hardware)
    → IsController hardware
    → IsReady board
    → ((l : ℕ) (s : Station) → Returns board l s) × IsLawful (fdc_drive board hardware)
fdc_drive-IsLawful board hardware controller ready = (
  returns board hardware controller ready,
  record {
    read_buffer = read_buffer board hardware controller ready;
    read_frame = read_frame board hardware controller ready;
    read_screen = read_screen board hardware controller ready;
    read_disk = read_disk board hardware controller ready;
    write_disk = write_disk board hardware controller ready;
    write_memory = write_memory board hardware controller ready;
  },
)
