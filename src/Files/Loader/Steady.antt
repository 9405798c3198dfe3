-- ===== src/Files/Loader/Steady.antt =====
-- The loop that loads the kernel reads the functions of the disk from memory in every round; where they stand
-- beside what it writes, they are the same in all rounds.
use red_fox32_old.Base.{ℕ, zero, suc, ◌+◌, ◌*◌, ◌≤◌, ◌≡◌, ◌∙◌, ap, refl, inl, arith, for_range}
use red_fox32_old.Machine.Memory.{Memory}
use red_fox32_old.Stage2.Screen.{put_char, put_char_outside, IsOnVga}
use red_fox32_old.Files.{Station, memory, with_memory, buffer, FdcInterface, IsLawful}
use red_fox32_old.Files.Copy.{copy}
use red_fox32_old.Files.Loader.{load_sector, load_kernel, kernel_memory_position}
use red_fox32_old.Files.Loader.Low.{IsBeside, sector_low}

module _ (interface : Memory → FdcInterface) (d : FdcInterface) (law : IsLawful d) (s0 : Station)
    (steady : (m : Memory) → ((x : ℕ) → IsBeside x → m x ≡ memory s0 x) → interface m ≡ d) where
  round_steady :
      (l offset : ℕ) (s : Station)
      → IsOnVga s.screen
      → ((x : ℕ) → IsBeside x → memory s x ≡ memory s0 x)
      → load_sector interface l (offset, s) ≡ load_sector (λ _. d) l (offset, s)
  round_steady l offset s on same =
      let s1 = record s { screen = put_char b'R' 0x0B s.screen } in
      ap
        (λ (i : FdcInterface). (
          offset + 512,
          with_memory
              (copy 512 (kernel_memory_position + offset) (λ m i. m (buffer + i))
                (memory (i.read_lba l s1)))
              (i.read_lba l s1),
        ))
        (steady (memory s1) (λ x beside.
          put_char_outside b'R' 0x0B s.screen x on (inl (ground arith)) ∙ same x beside))

  rounds_steady :
      (k l offset : ℕ) (s : Station)
      → offset + 512 * k ≤ 0x2000
      → IsOnVga s.screen
      → ((x : ℕ) → IsBeside x → memory s x ≡ memory s0 x)
      → for_range k l (load_sector interface) (offset, s)
        ≡ for_range k l (load_sector (λ _. d)) (offset, s)
  unfolding for_range
  rounds_steady zero l offset s fits on same = refl
  rounds_steady (suc k) l offset s fits on same =
      ap (for_range k (l + 1) (load_sector interface)) (round_steady l offset s on same)
      ∙ rounds_steady k (l + 1) (offset + 512) (load_sector (λ _. d) l (offset, s)).1 (omega arith)
          (sector_low d law 0 (inl (omega arith)) l offset s (omega arith) on).1
          (λ x beside. (sector_low d law x beside l offset s (omega arith) on).0 ∙ same x beside)

  pub load_kernel-steady : IsOnVga s0.screen → load_kernel interface s0 ≡ load_kernel (λ _. d) s0
  unfolding load_kernel
  load_kernel-steady on =
      ap (λ (r : ℕ × Station). r.1) (rounds_steady 12 18 0 s0 (omega arith) on (λ x beside. refl))
