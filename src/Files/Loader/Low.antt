-- ===== src/Files/Loader/Low.antt =====
-- The loop that loads the kernel leaves the memory below the kernel alone, but for the buffer.
use red_fox32_old.Base.{
  ℕ, zero, suc, ◌+◌, ◌*◌, ◌≤◌, ◌<◌, ◌≡◌, ◌∙◌, ◌⊎◌, refl, inl, arith, for_range, ltb, leb, ◌&&◌,
  if◌then◌else◌,
}
use red_fox32_old.Stage2.Screen.{put_char, put_char-IsOnVga, put_char_outside, IsOnVga}
use red_fox32_old.Files.{Station, memory, buffer, FdcInterface, IsLawful}
use red_fox32_old.Files.Copy.{copy-at}
use red_fox32_old.Files.Loader.{load_sector, load_kernel, kernel_memory_position}

-- Below the kernel, and not in the buffer.
abbrev pub IsBeside : ℕ → Type 0
IsBeside x = (x < buffer) ⊎ ((buffer + 512 ≤ x) × (x < kernel_memory_position))

module _ (d : FdcInterface) (law : IsLawful d) (x : ℕ) (low : IsBeside x) where
  pub sector_low :
      (l offset : ℕ) (s : Station)
      → offset + 512 ≤ 0x2000
      → IsOnVga s.screen
      → (memory (load_sector (λ _. d) l (offset, s)).1 x ≡ memory s x)
        × IsOnVga (load_sector (λ _. d) l (offset, s)).1.screen
  sector_low l offset s fits on =
      let s1 = record s { screen = put_char b'R' 0x0B s.screen } in
      let on1 = put_char-IsOnVga b'R' 0x0B s.screen on in
      let on2 = law.read_screen l s1 on1 in
      (
        copy-at 512 (kernel_memory_position + offset) (λ m i. m (buffer + i)) (omega arith)
              (λ m i j v p q. ground arith) (memory (d.read_lba l s1)) x
            ∙ below (kernel_memory_position + offset) _ (memory (d.read_lba l s1) x) (ground arith)
            ∙ law.read_frame l x s1 on1 (ground arith)
            ∙ put_char_outside b'R' 0x0B s.screen x on (inl (ground arith)),
        record { bound = on2.bound; cell = on2.cell },
      )
    where
      below :
          (target a b : ℕ)
          → x < target
          → (if leb target x && ltb x (target + 512) then a else b) ≡ b
      below target a b lt = ground arith

  sectors_low :
      (k l offset : ℕ) (s : Station)
      → offset + 512 * k ≤ 0x2000
      → IsOnVga s.screen
      → memory (for_range k l (load_sector (λ _. d)) (offset, s)).1 x ≡ memory s x
  unfolding for_range
  sectors_low zero l offset s fits on = refl
  sectors_low (suc k) l offset s fits on =
      let (same, on') = sector_low l offset s (omega arith) on in
      sectors_low k (l + 1) (offset + 512) (load_sector (λ _. d) l (offset, s)).1 (omega arith) on'
      ∙ same

  pub load_kernel_low :
      (s : Station) → IsOnVga s.screen → memory (load_kernel (λ _. d) s) x ≡ memory s x
  unfolding load_kernel
  load_kernel_low s on = sectors_low 12 18 0 s (omega arith) on
