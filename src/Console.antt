-- ===== src/Console.antt =====
-- TextMode.c and TextMode.h: the text screen.
pub mod Scroll
pub mod Putch
pub mod Text
pub mod Digits
pub mod Backspace
use red_fox32_old.Base.{
  ℕ, zero, suc, ◌+◌, ◌-◌, ◌*◌, ◌/◌, ◌%◌, ◌^◌, List, [], ◌∷◌, bit_and, bit_or, ltb, leb, ◌==◌, codes,
  true, false, if◌then◌else◌, word, add32, sub32,
}
use red_fox32_old.Machine.Memory.{Memory, poke}

abbrev pub video_memory : ℕ
video_memory = 0xB8000

abbrev pub x_resolution : ℕ
x_resolution = 160

abbrev pub y_resolution : ℕ
y_resolution = 25

abbrev pub memory_size : ℕ
memory_size = x_resolution * y_resolution

abbrev pub newline : ℕ
newline = 10

abbrev pub tab : ℕ
tab = 9

abbrev pub backspace : ℕ
backspace = 8

abbrev pub space : ℕ
space = 32

-- The memory with `ScreenPos`, an offset into the video memory.
pub record Console : Type 0 where
  pub memory : Memory
  pub screen_pos : ℕ

unfoldable pub text_mode_setup : Console → Console
text_mode_setup c = record c { screen_pos = 0 }

-- The body of the copying loop, `n` times over.
scroll_loop : ℕ → (write read : ℕ) → Memory → Memory
scroll_loop zero write read m = m
scroll_loop (suc n) write read m =
    scroll_loop n (add32 write 1) (add32 read 1) (poke (poke m write (m read)) read 0)

-- `ReadPos != end` stops the loop after `end - ReadPos` rounds, a pointer difference that wraps.
abbrev scroll_rounds : ℕ → ℕ
scroll_rounds lines = sub32 memory_size (x_resolution * lines)

pub scroll_screen : ℕ → Console → Console
unfolding scroll_loop
scroll_screen lines c = record c {
  memory =
      scroll_loop (scroll_rounds lines) video_memory (video_memory + x_resolution * lines) c.memory;
}

-- `TEXT_MODE_VIDEO_MEMORY[ScreenPos++] = b`
abbrev pub write_video : ℕ → Console → Console
write_video b c = record {
  memory = poke c.memory (add32 video_memory c.screen_pos) b;
  screen_pos = add32 c.screen_pos 1;
}

abbrev pub advance : (by : ℕ) → Console → Console
advance by c = record c { screen_pos = add32 c.screen_pos by }

abbrev pub retreat : (by : ℕ) → Console → Console
retreat by c = record c { screen_pos = sub32 c.screen_pos by }

-- The scroll at the head of `putch`.
pub make_room : Console → Console
make_room c = if leb memory_size c.screen_pos then retreat x_resolution (scroll_screen 1 c) else c

-- The last lines of `case '\b'`.
abbrev pub clamp_origin : Console → Console
clamp_origin c = if ltb (add32 c.screen_pos 2) c.screen_pos then record c { screen_pos = 0 } else c

-- The body of `putch`, with `self` where it calls itself.
pub putch_body : (self : ℕ → ℕ → Console → Console) → ℕ → ℕ → Console → Console
putch_body self ch colour c' =
    let c = make_room c' in
    if ch == newline
    then record c {
      screen_pos = sub32 (add32 c.screen_pos x_resolution) (c.screen_pos % x_resolution);
    }
    else if ch == tab
    then self space colour (self space colour (self space colour (self space colour c)))
    else if ch == backspace
    then clamp_origin (retreat 2 (self space colour (retreat 2 c)))
    else write_video colour (write_video ch c)

-- The recursion goes one call deep, since a space makes no further call.
putch_depth : ℕ → ℕ → ℕ → Console → Console
putch_depth zero ch colour c = c
putch_depth (suc n) ch colour c = putch_body (putch_depth n) ch colour c

pub putch : ℕ → ℕ → Console → Console
unfolding putch_depth putch_body make_room scroll_screen
putch = putch_depth 2

-- A C string is its bytes; the loop stops at the first 0.
pub puts : List ℕ → ℕ → Console → Console
puts [] colour c = c
puts (ch ∷ str) colour c = elim (ch == 0) [ true ↦ c | false ↦ puts str colour (putch ch colour c) ]

-- `c >> k` on a `char`, which is signed: the sign bit is shifted in.
abbrev sar8 : ℕ → ℕ → ℕ
sar8 c k = if ltb c 128 then c / 2 ^ k else (c + 256 * (2 ^ k - 1)) / 2 ^ k

-- `h &= 0x0F; h |= 0x30; if (h > '9') { h += 7; }`
abbrev hex_char : ℕ → ℕ
hex_char n = let h = bit_or (bit_and n 0x0F) 0x30 in if ltb b'9' h then h + 7 else h

pub hex_high : ℕ → ℕ
hex_high c = hex_char (sar8 c 4)

pub hex_low : ℕ → ℕ
hex_low c = hex_char c

pub putch_hex : ℕ → ℕ → Console → Console
putch_hex c colour s = putch (hex_low c) colour (putch (hex_high c) colour s)

-- The source ignores the colour that it is given.
binary_loop : (n i : ℕ) → ℕ → Console → Console
binary_loop zero i c s = s
binary_loop (suc n) i c s =
    binary_loop n (i + 1) c (putch (if bit_and (c * 2 ^ i) 128 == 0 then b'0' else b'1') 0x0C s)

pub putch_binary : ℕ → ℕ → Console → Console
unfolding binary_loop
putch_binary c colour s = binary_loop 8 0 c s

colours_loop : (n c : ℕ) → Console → Console
colours_loop zero c s = s
colours_loop (suc n) c s = colours_loop n (c + 1) (putch b'#' (c % 256) s)

pub show_colours : Console → Console
unfolding colours_loop
show_colours s =
    putch newline 0x0A
      (colours_loop 256 0 (puts (codes "[TEXT MODE] Showing all colour combinations.\n") 0x0C s))

clear_loop : (n i : ℕ) → Memory → Memory
clear_loop zero i m = m
clear_loop (suc n) i m = clear_loop n (i + 1) (poke m (add32 video_memory i) 0)

pub clear_screen : Console → Console
unfolding clear_loop
clear_screen c = record { memory = clear_loop memory_size 0 c.memory; screen_pos = 0 }
