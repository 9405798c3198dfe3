-- ===== src/Files/Loader.antt =====
-- The part of Stage2.c that brings the kernel from the disk to 0x10000.
pub mod Low
pub mod Steady
use red_fox32_old.Base.{
  ℕ, zero, suc, ◌+◌, ◌-◌, ◌*◌, ◌/◌, ◌%◌, ◌≤◌, ◌<◌, ◌≡◌, ◌∙◌, sym, subst, refl, arith, ltb,
  if◌then◌else◌, for_range, dec_lt,
}
use red_fox32_old.Machine.Memory.{Memory}
use red_fox32_old.Stage2.Screen.{put_char, put_char-IsOnVga, put_char_outside, IsOnVga}
use red_fox32_old.Files.{Station, memory, with_memory, buffer, FdcInterface, IsLawful}
use red_fox32_old.Files.Copy.{copy, copy-at}

abbrev pub kernel_memory_position : ℕ
kernel_memory_position = 0x10000

abbrev pub kernel_start_sector : ℕ
kernel_start_sector = 18

abbrev pub kernel_end_sector : ℕ
kernel_end_sector = 30

-- A round of the loop, and the offset that it goes on with. The functions of the disk are read from memory in
-- every round.
abbrev load_sector : (Memory → FdcInterface) → (sector : ℕ) → ℕ × Station → ℕ × Station
load_sector interface sector (offset, s) =
    let s1 = record s { screen = put_char b'R' 0x0B s.screen } in
    let s2 = (interface (memory s1)).read_lba sector s1 in
    (
      offset + 512,
      with_memory (copy 512 (kernel_memory_position + offset) (λ m i. m (buffer + i)) (memory s2))
          s2,
    )

pub load_kernel : (Memory → FdcInterface) → Station → Station
load_kernel interface s =
    (for_range (kernel_end_sector - kernel_start_sector) kernel_start_sector (load_sector interface)
      (0, s)).1

-- So much of the kernel is in place, and the drive and the screen are as they should be.
record IsLoaded (disk : ℕ → ℕ → ℕ) (offset : ℕ) (s : Station) : Type 0 where
  bytes :
      (k : ℕ)
      → k < offset
      → memory s (kernel_memory_position + k) ≡ disk (kernel_start_sector + k / 512) (k % 512)
  screen : IsOnVga s.screen
  same : (j i : ℕ) → s.disk j i ≡ disk j i

module _ (d : FdcInterface) (law : IsLawful d) (disk : ℕ → ℕ → ℕ) where
  -- The memory of a round, where the sector goes to `kernel_memory_position + offset`.
  sector_loaded :
      (l offset : ℕ) (s : Station) (x : ℕ)
      → l < 2880
      → offset + 512 ≤ 0x2000
      → IsOnVga s.screen
      → (kernel_memory_position ≤ x) × (x < kernel_memory_position + offset + 512)
      → memory (load_sector (λ _. d) l (offset, s)).1 x ≡ (
          if ltb x (kernel_memory_position + offset)
          then memory s x
          else s.disk l (x - (kernel_memory_position + offset)))
  sector_loaded l offset s x lt fits on near =
      let s1 = record s { screen = put_char b'R' 0x0B s.screen } in
      let m = memory (d.read_lba l s1) in
      let at_x =
        copy-at 512 (kernel_memory_position + offset) (λ m i. m (buffer + i)) (omega arith)
          (λ m i j v p q. ground arith) m x in
      let other : m x ≡ memory s x =
        law.read_frame l x s1 (put_char-IsOnVga b'R' 0x0B s.screen on) (ground arith)
        ∙ put_char_outside b'R' 0x0B s.screen x on (ground arith) in
      elim (dec_lt x (kernel_memory_position + offset)) [
        | yes lower ↦ at_x ∙ ground (arith, other)
        | no higher ↦
            at_x
            ∙ ground (
              arith,
              law.read_buffer l (x - (kernel_memory_position + offset)) s1 lt (omega arith),
            )
      ]

  loaded_screen :
      (n : ℕ) (s : Station)
      → IsOnVga s.screen
      → IsOnVga (load_sector (λ _. d) (kernel_start_sector + n) (512 * n, s)).1.screen
  loaded_screen n s on =
      let h =
        law.read_screen (kernel_start_sector + n)
          (record s { screen = put_char b'R' 0x0B s.screen })
          (put_char-IsOnVga b'R' 0x0B s.screen on) in
      record { bound = h.bound; cell = h.cell }

  earlier_or_new :
      (n : ℕ) (s : Station)
      → IsLoaded disk (512 * n) s
      → (k : ℕ) → k < 512 * n + 512
      → (if ltb (kernel_memory_position + k) (kernel_memory_position + 512 * n)
          then memory s (kernel_memory_position + k)
          else s.disk
              (kernel_start_sector + n)
              (kernel_memory_position + k - (kernel_memory_position + 512 * n)))
        ≡ disk (kernel_start_sector + k / 512) (k % 512)
  earlier_or_new n s h k small = elim (dec_lt k (512 * n)) [
    | yes earlier ↦ ground (arith, h.bytes k earlier)
    | no later ↦
        let block : k / 512 ≡ n = omega arith in
        let place : kernel_memory_position + k - (kernel_memory_position + 512 * n) ≡ k % 512 =
          omega arith in
        rw (place, block) (ground (arith, h.same (kernel_start_sector + n) (k % 512)))
  ]

  load_sector-IsLoaded :
      (n : ℕ) (s : Station)
      → n < 12
      → IsLoaded disk (512 * n) s
      → IsLoaded disk
          (512 * n + 512)
          (load_sector (λ _. d) (kernel_start_sector + n) (512 * n, s)).1
  load_sector-IsLoaded n s lt h = record {
    bytes = λ k small.
        sector_loaded (kernel_start_sector + n) (512 * n) s (kernel_memory_position + k)
          (omega arith) (omega arith) h.screen (omega arith, omega arith)
        ∙ earlier_or_new n s h k small;
    screen = loaded_screen n s h.screen;
    same = λ j i.
        law.read_disk (kernel_start_sector + n) j i
          (record s { screen = put_char b'R' 0x0B s.screen })
        ∙ h.same j i;
  }

  load_from :
      (k n : ℕ) (s : Station)
      → n + k ≡ 12
      → IsLoaded disk (512 * n) s
      → IsLoaded disk
          (512 * 12)
          (for_range k (kernel_start_sector + n) (load_sector (λ _. d)) (512 * n, s)).1
  unfolding for_range
  load_from zero n s e h =
      let done : n ≡ 12 = omega arith in subst (λ j. IsLoaded disk (512 * j) s) done h
  load_from (suc k) n s e h =
      let s' = (load_sector (λ _. d) (kernel_start_sector + n) (512 * n, s)).1 in
      let offset : 512 * (n + 1) ≡ 512 * n + 512 = omega arith in
      let sector : kernel_start_sector + (n + 1) ≡ kernel_start_sector + n + 1 = omega arith in
      subst
        (λ j. IsLoaded disk (512 * 12) (for_range k j (load_sector (λ _. d)) (512 * n + 512, s')).1)
        sector
        (subst
          (λ o.
            IsLoaded disk (512 * 12)
              (for_range k (kernel_start_sector + (n + 1)) (load_sector (λ _. d)) (o, s')).1)
          offset
          (load_from k (n + 1) s' (omega arith) (
            subst (λ o. IsLoaded disk o s') (sym offset)
              (load_sector-IsLoaded n s (omega arith) h))))

-- Through a lawful drive that stays the same and from a position on the screen, the twelve sectors from 18 on are in memory
-- from 0x10000 on, each byte of them where it belongs; the disk is as it was and the position is on the
-- screen.
pub load_kernel-loaded :
    (d : FdcInterface) (s : Station)
    → IsLawful d
    → IsOnVga s.screen
    → ((k : ℕ)
        → k < 512 * 12
        → memory (load_kernel (λ _. d) s) (kernel_memory_position + k)
          ≡ s.disk (kernel_start_sector + k / 512) (k % 512))
      × IsOnVga (load_kernel (λ _. d) s).screen
      × ((j i : ℕ) → (load_kernel (λ _. d) s).disk j i ≡ s.disk j i)
unfolding load_kernel
load_kernel-loaded d s law on =
    let h =
      load_from d law s.disk 12 0 s refl
        (record { bytes = λ k lt. omega (arith, lt); screen = on; same = λ j i. refl }) in
    (h.bytes, h.screen, h.same)
