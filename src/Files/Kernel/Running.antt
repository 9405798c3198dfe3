-- ===== src/Files/Kernel/Running.antt =====
-- The earlier kernel on its way: what its single steps leave as it is.
use red_fox32_old.Base.{
  ℕ, ◌+◌, ◌*◌, ◌%◌, ◌<◌, ◌≡◌, ◌∙◌, ap, ap₂, refl, sym, inl, arith, List, get_or, ==_iff, leb, ltb,
  ◌&&◌, subst, if◌then◌else◌,
}
use red_fox32_old.Machine.Memory.{Memory, load32, store32}
use red_fox32_old.Stage2.Screen.{
  Screen, IsOnVga, Shown, put_string, put_string-Shown, vga_memory, vga_memory_size,
}
use red_fox32_old.Stage2.Calls.{Registers32, Routines, get_fdci}
use red_fox32_old.Stage2.Calls.Dispatch.{IsLaidOut, get_fdci-called}
use red_fox32_old.Files.{memory, with_memory}
use red_fox32_old.Files.Copy.{copy-at}
use red_fox32_old.Files.Sectors.{FileSystem, load16}
use red_fox32_old.Files.Mount.{raise, sys_get_fs_interface, IsBooted, IsPlaced}
use red_fox32_old.Files.Mount.Mounted.{load32-same}
use red_fox32_old.Files.Kernel.{
  clear_screen, Addresses, Entry, own_screen, within, kernel_syscall, on_screen, say,
}

-- Behind ClearScreen the screen is blank, and nothing else has changed.
pub clear_screen-at :
    (c : Screen) (x : ℕ)
    → (clear_screen c).memory x
      ≡ (if leb vga_memory x && ltb x (vga_memory + vga_memory_size) then 0 else c.memory x)
unfolding clear_screen
clear_screen-at c x =
    copy-at vga_memory_size vga_memory (λ m i. 0) (omega arith) (λ m i j v p q. refl) c.memory x

pub clear_screen-Shown : (c : Screen) → Shown c (clear_screen c)
unfolding clear_screen
clear_screen-Shown c = record {
  on = λ h. record { bound = h.bound; cell = h.cell };
  outside = λ h x out. clear_screen-at c x ∙ ground arith;
}

-- The kernel on its way: the tables of the second stage, the first sector of the disk where it was left, the
-- disk as it was, and both positions on the screen.
pub record IsRunning (r : Routines) (f0 : FileSystem) (s : Entry) : Type 0 where
  pub booted : IsBooted r s.tables
  pub on : IsOnVga s.files.station.screen
  pub own : IsOnVga (own_screen s)
  pub disk : (j i : ℕ) → s.files.station.disk j i ≡ f0.station.disk j i
  pub sector : (x : ℕ) → x < 0x7E00 → memory s.files.station x ≡ memory f0.station x

-- The position does not depend on the memory.
pub moved : {m : Memory} (c : Screen) → IsOnVga c → IsOnVga (record c { memory = m })
moved c h = record { bound = h.bound; cell = h.cell }

pub on_screen-IsRunning :
    (r : Routines) (f0 : FileSystem) (draw : Screen → Screen) (s : Entry)
    → Shown (own_screen s) (draw (own_screen s))
    → IsRunning r f0 s
    → IsRunning r f0 (on_screen draw s)
on_screen-IsRunning r f0 draw s shown h = record {
  booted = h.booted;
  on = moved s.files.station.screen h.on;
  own = shown.on h.own;
  disk = h.disk;
  sector = λ x lt. shown.outside h.own x (inl (omega arith)) ∙ h.sector x lt;
}

pub say-IsRunning :
    (r : Routines) (f0 : FileSystem) (str : List ℕ) (colour : ℕ) (s : Entry)
    → IsRunning r f0 s
    → IsRunning r f0 (say str colour s)
say-IsRunning r f0 str colour s =
    on_screen-IsRunning r f0 (put_string str colour) s (put_string-Shown str colour (own_screen s))

pub asks-IsRunning :
    (r : Routines) (f0 : FileSystem) (regs : Registers32) (interface : ℕ) (s : Entry)
    → IsLaidOut r
    → IsPlaced interface
    → IsRunning r f0 s
    → IsRunning r f0 (within (raise (get_fdci r regs interface)) s)
asks-IsRunning r f0 regs interface s laid placed h =
    let (tables, position, _, _, outside) =
      get_fdci-called r regs interface
        (record { tables = s.tables; screen = s.files.station.screen }) laid h.booted.gives_fdci
        (omega arith) in
    record {
      booted = subst (IsBooted r) (sym tables) h.booted;
      on = record {
        bound = omega (arith, position, h.on.bound);
        cell = ap (λ p. p % 2) position ∙ h.on.cell;
      };
      own = moved (own_screen s) h.own;
      disk = h.disk;
      sector = λ x lt. outside x (inl (omega arith)) ∙ h.sector x lt;
    }

pub place_of :
    (r : Routines) (f0 : FileSystem) (s : Entry) (at : ℕ)
    → IsRunning r f0 s
    → at < 0x7DFF
    → load16 (memory s.files.station) at ≡ load16 (memory f0.station) at
place_of r f0 s at h lt =
    ap₂ (λ a b. a + 256 * b) (h.sector at (omega arith)) (h.sector (at + 1) (omega arith))

-- What the call that the kernel has registered does.
abbrev pub tell : Addresses → Entry → Entry
tell a s = record s {
  files = record s.files {
    station = with_memory (store32 (memory s.files.station) a.fsi a.read_file) s.files.station;
  };
}

pub asks_fsi :
    (r : Routines) (a : Addresses) (regs : Registers32) (s : Entry)
    → get_or s.tables.syscalls 0x20 0 ≡ a.get_fs_interface
    → within (raise (kernel_syscall r a (record regs { edx = a.fsi; eax = 0x20 }))) s ≡ tell a s
unfolding kernel_syscall sys_get_fs_interface
asks_fsi r a regs s e = rw (e, (==_iff a.get_fs_interface a.get_fs_interface).1 refl) refl

pub fsi_kept :
    (str : List ℕ) (colour fsi : ℕ) (s : Entry)
    → IsPlaced fsi
    → IsOnVga (own_screen s)
    → load32 (memory (say str colour s).files.station) fsi ≡ load32 (memory s.files.station) fsi
fsi_kept str colour fsi s placed on =
    load32-same (memory (say str colour s).files.station) (memory s.files.station) fsi
      λ x lo hi. (put_string-Shown str colour (own_screen s)).outside on x (inl (omega arith))
