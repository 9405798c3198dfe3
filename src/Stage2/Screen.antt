-- ===== src/Stage2/Screen.antt =====
-- Video.c and Video.h of the earlier second stage: a text screen that scrolls by copying only.
use red_fox32_old.Base.{
  ℕ, zero, suc, ◌+◌, ◌*◌, ◌%◌, ◌≤◌, ◌<◌, ◌≡◌, ◌⊎◌, ◌∙◌, refl, arith, List, [], ◌∷◌, true, false,
  leb, ◌==◌, if◌then◌else◌, add32, sub32,
}
use red_fox32_old.Machine.Memory.{Memory, poke}

abbrev pub vga_memory : ℕ
vga_memory = 0xB8000

abbrev pub vga_x_resolution : ℕ
vga_x_resolution = 160

abbrev pub vga_memory_size : ℕ
vga_memory_size = vga_x_resolution * 25

pub record Screen : Type 0 where
  pub memory : Memory
  pub screen_pos : ℕ

copy_loop : ℕ → (write read : ℕ) → Memory → Memory
copy_loop zero write read m = m
copy_loop (suc n) write read m = copy_loop n (add32 write 1) (add32 read 1) (poke m write (m read))

pub scroll : ℕ → Screen → Screen
unfolding copy_loop
scroll lines c = record c {
  memory =
      copy_loop (sub32 vga_memory_size (vga_x_resolution * lines)) vga_memory
        (vga_memory + vga_x_resolution * lines) c.memory;
}

abbrev put_byte : ℕ → Screen → Screen
put_byte b c = record {
  memory = poke c.memory (add32 vga_memory c.screen_pos) b;
  screen_pos = add32 c.screen_pos 1;
}

scroll_if_full : Screen → Screen
scroll_if_full c =
    if leb vga_memory_size c.screen_pos
    then record (scroll 1 c) { screen_pos = sub32 c.screen_pos vga_x_resolution }
    else c

pub put_char : ℕ → ℕ → Screen → Screen
unfolding scroll_if_full scroll
put_char ch colour c' =
    let c = scroll_if_full c' in
    if ch == b'\n'
    then record c {
      screen_pos = sub32 (add32 c.screen_pos vga_x_resolution) (c.screen_pos % vga_x_resolution);
    }
    else put_byte colour (put_byte ch c)

pub put_string : List ℕ → ℕ → Screen → Screen
put_string [] colour c = c
put_string (ch ∷ str) colour c = elim (ch == 0) [
  | true ↦ c
  | false ↦ put_string str colour (put_char ch colour c)
]

-- At the start of a cell, or just past the last one.
pub record IsOnVga (c : Screen) : Type 0 where
  pub bound : c.screen_pos ≤ vga_memory_size
  pub cell : c.screen_pos % 2 ≡ 0

scroll_if_full-IsOnVga :
    (c : Screen)
    → IsOnVga c
    → ((scroll_if_full c).screen_pos + 1 < vga_memory_size)
      × ((scroll_if_full c).screen_pos % 2 ≡ 0)
unfolding scroll_if_full scroll
scroll_if_full-IsOnVga c h = (ground (arith, h.bound, h.cell), ground (arith, h.bound, h.cell))

pub put_char-IsOnVga : (ch colour : ℕ) (c : Screen) → IsOnVga c → IsOnVga (put_char ch colour c)
unfolding put_char
put_char-IsOnVga ch colour c h = record {
  bound = ground (arith, (scroll_if_full-IsOnVga c h).0, (scroll_if_full-IsOnVga c h).1);
  cell = ground (arith, (scroll_if_full-IsOnVga c h).0, (scroll_if_full-IsOnVga c h).1);
}

-- Printing any text keeps the position on the screen, at the start of a cell.
pub put_string-IsOnVga :
    (str : List ℕ) (colour : ℕ) (c : Screen) → IsOnVga c → IsOnVga (put_string str colour c)
unfolding put_string
put_string-IsOnVga [] colour c h = h
put_string-IsOnVga (ch ∷ str) colour c h =
    elim (ch == 0)
      as (λ b.
        IsOnVga (elim b [ true ↦ c | false ↦ put_string str colour (put_char ch colour c) ])) [
          | true ↦ h
          | false ↦
              put_string-IsOnVga str colour (put_char ch colour c) (put_char-IsOnVga ch colour c h)
        ]

copy_loop_outside :
    (n write read : ℕ) (m : Memory) (x : ℕ)
    → write + n ≤ 0xC0000
    → (x < write) ⊎ (write + n ≤ x)
    → copy_loop n write read m x ≡ m x
unfolding copy_loop
copy_loop_outside zero write read m x h out = refl
copy_loop_outside (suc n) write read m x h out =
    let next : add32 write 1 ≡ write + 1 = ground arith in
    copy_loop_outside n (add32 write 1) (add32 read 1) (poke m write (m read)) x (omega arith)
      (ground arith)
    ∙ ground arith

scroll_outside :
    (c : Screen) (x : ℕ)
    → (x < vga_memory) ⊎ (vga_memory + vga_memory_size ≤ x)
    → (scroll 1 c).memory x ≡ c.memory x
unfolding scroll
scroll_outside c x out =
    copy_loop_outside (sub32 vga_memory_size (vga_x_resolution * 1)) vga_memory
      (vga_memory + vga_x_resolution * 1) c.memory x (ground arith) (ground arith)

scroll_if_full_outside :
    (c : Screen) (x : ℕ)
    → (x < vga_memory) ⊎ (vga_memory + vga_memory_size ≤ x)
    → (scroll_if_full c).memory x ≡ c.memory x
unfolding scroll_if_full
scroll_if_full_outside c x out = ground (arith, scroll_outside c x out)

put_byte_outside :
    (b : ℕ) (c : Screen) (x : ℕ)
    → c.screen_pos < vga_memory_size
    → (x < vga_memory) ⊎ (vga_memory + vga_memory_size ≤ x)
    → (put_byte b c).memory x ≡ c.memory x
put_byte_outside b c x h out = ground arith

-- A character changes nothing outside the video memory.
pub put_char_outside :
    (ch colour : ℕ) (c : Screen) (x : ℕ)
    → IsOnVga c
    → (x < vga_memory) ⊎ (vga_memory + vga_memory_size ≤ x)
    → (put_char ch colour c).memory x ≡ c.memory x
unfolding put_char
put_char_outside ch colour c x h out =
    let room : (scroll_if_full c).screen_pos + 1 < vga_memory_size =
      (scroll_if_full-IsOnVga c h).0 in
    let next : (put_byte ch (scroll_if_full c)).screen_pos < vga_memory_size = ground arith in
    let first = put_byte_outside ch (scroll_if_full c) x (omega arith) out in
    let second = put_byte_outside colour (put_byte ch (scroll_if_full c)) x next out in
    elim (ch == b'\n')
      as (λ b.
        (if b
            then record (scroll_if_full c) {
              screen_pos =
                  sub32 (add32 (scroll_if_full c).screen_pos vga_x_resolution)
                    ((scroll_if_full c).screen_pos % vga_x_resolution);
            }
            else put_byte colour (put_byte ch (scroll_if_full c))).memory
          x
        ≡ c.memory x) [
          | true ↦ scroll_if_full_outside c x out
          | false ↦ second ∙ first ∙ scroll_if_full_outside c x out
        ]

-- What printing may do: from a position on the screen it stays there, and nothing outside the video memory
-- changes.
pub record Shown (c c' : Screen) : Type 0 where
  pub on : IsOnVga c → IsOnVga c'
  pub outside :
      IsOnVga c
      → (x : ℕ) → (x < vga_memory) ⊎ (vga_memory + vga_memory_size ≤ x)
      → c'.memory x ≡ c.memory x

pub Shown-refl : (c : Screen) → Shown c c
Shown-refl c = record { on = λ h. h; outside = λ h x out. refl }

pub Shown-trans : {a b c : Screen} → Shown a b → Shown b c → Shown a c
Shown-trans p q = record {
  on = λ h. q.on (p.on h);
  outside = λ h x out. q.outside (p.on h) x out ∙ p.outside h x out;
}

put_char-Shown : (ch colour : ℕ) (c : Screen) → Shown c (put_char ch colour c)
put_char-Shown ch colour c = record {
  on = put_char-IsOnVga ch colour c;
  outside = λ h x out. put_char_outside ch colour c x h out;
}

pub put_string-Shown : (str : List ℕ) (colour : ℕ) (c : Screen) → Shown c (put_string str colour c)
unfolding put_string
put_string-Shown [] colour c = Shown-refl c
put_string-Shown (ch ∷ str) colour c =
    elim (ch == 0)
      as (λ b.
        Shown c (elim b [ true ↦ c | false ↦ put_string str colour (put_char ch colour c) ])) [
          | true ↦ Shown-refl c
          | false ↦
              Shown-trans (put_char-Shown ch colour c)
                (put_string-Shown str colour (put_char ch colour c))
        ]
