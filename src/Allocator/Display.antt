-- ===== src/Allocator/Display.antt =====
-- MMAP_Display of Memory.c: the memory map printed on the screen.
use red_fox32_old.Base.{
  ℕ, zero, suc, ◌/◌, ◌%◌, ◌^◌, ◌<◌, ◌≡◌, refl, inl, arith, List, [], ◌∷◌, Bool, true, not, ◌&&◌,
  ◌==◌, ltb, if◌then◌else◌, add32, codes,
}
use red_fox32_old.Machine.Memory.{load32}
use red_fox32_old.Console.{Console, puts, putch, putch_hex, newline, backspace}
use red_fox32_old.Console.Putch.{IsOnScreen, Kept, Kept-refl, Kept-trans, putch-Kept}
use red_fox32_old.Console.Text.{NoBackspace, puts-Kept}
use red_fox32_old.Console.Digits.{digit, putch_hex-digits}

-- `n` bytes from the highest down, as hexadecimal digits.
display_bytes : (n b : ℕ) → Console → Console
display_bytes zero b c = c
display_bytes (suc n) b c = display_bytes n b (putch_hex (c.memory (add32 b n) % 256) 0x0B c)

display_word : ℕ → Console → Console
display_word b c = puts (codes "  ") 0x0B (display_bytes 4 b (puts (codes "0x") 0x0B c))

display_words : (n b : ℕ) → Console → Console
display_words zero b c = c
display_words (suc n) b c = display_words n (add32 b 4) (display_word b c)

display_entries : (n b : ℕ) → Console → Console
display_entries zero b c = c
display_entries (suc n) b c =
    display_entries n (add32 b 24) (putch newline 0x0B (display_words 6 b c))

-- The count is an `int`.
abbrev rounds : ℕ → ℕ
rounds count = if ltb count (2 ^ 31) then count else 0

-- The bytes of the local variable `MMAPEntries_Count`.
display_count : ℕ → Console → Console
display_count count c = putch_hex (count % 256) 0x0B (
    putch_hex (count / 256 % 256) 0x0B
      (putch_hex (count / 65536 % 256) 0x0B (putch_hex (count / 16777216 % 256) 0x0B c)))

pub mmap_display : ℕ → Console → Console
unfolding display_count display_entries display_words display_word display_bytes
mmap_display mmap c =
    let c = puts (codes "[MMAP] Displaying Memory Map Entries\n") 0x0C c in
    let count = load32 c.memory mmap in
    let c = display_count count (puts (codes "MMAP_Entries: 0x") 0x0B c) in
    let c =
      puts (codes "\nLOW         HIGH        LEN LOW     LEN HIGH    TYPE        ACPI\n") 0x0B c in
    display_entries (rounds count) (add32 mmap 4) c

abbrev pub without_backspace : List ℕ → Bool
without_backspace [] = true
without_backspace (ch ∷ str) = not (ch == backspace) && without_backspace str

pub without_backspace-NoBackspace : (str : List ℕ) → without_backspace str ≡ true → NoBackspace str
without_backspace-NoBackspace [] h = tt
without_backspace-NoBackspace (ch ∷ str) h =
    (λ e. ground arith, without_backspace-NoBackspace str (ground arith))

-- A step that keeps the screen in order.
abbrev Keeps : (Console → Console) → Type 0
Keeps step = (c : Console) → IsOnScreen c → Kept c (step c)

Keeps-then : (f g : Console → Console) → Keeps f → Keeps g → Keeps (λ c. g (f c))
Keeps-then f g p q c v = Kept-trans (p c v) (q (f c) (p c v).position)

text-Keeps : (str : List ℕ) (colour : ℕ) → without_backspace str ≡ true → Keeps (puts str colour)
text-Keeps str colour h c = puts-Kept str colour c (without_backspace-NoBackspace str h)

hex-Keeps : (byte colour : ℕ) → byte < 256 → Keeps (putch_hex byte colour)
hex-Keeps byte colour h c v = rw (putch_hex-digits byte colour c h) (
    Keeps-then (putch (digit (byte / 16)) colour) (putch (digit (byte % 16)) colour)
      (λ d w. putch-Kept (digit (byte / 16)) colour d w (inl (ground arith)))
      (λ d w. putch-Kept (digit (byte % 16)) colour d w (inl (ground arith))) c v)

bytes-Keeps : (n b : ℕ) → Keeps (display_bytes n b)
unfolding display_bytes
bytes-Keeps zero b c v = Kept-refl v
bytes-Keeps (suc n) b c v =
    let first = hex-Keeps (c.memory (add32 b n) % 256) 0x0B (omega arith) c v in
    Kept-trans first (bytes-Keeps n b _ first.position)

word-Keeps : (b : ℕ) → Keeps (display_word b)
unfolding display_word
word-Keeps b =
    Keeps-then (puts (codes "0x") 0x0B) (λ c. puts (codes "  ") 0x0B (display_bytes 4 b c))
      (text-Keeps (codes "0x") 0x0B refl)
      (Keeps-then (display_bytes 4 b) (puts (codes "  ") 0x0B) (bytes-Keeps 4 b)
        (text-Keeps (codes "  ") 0x0B refl))

words-Keeps : (n b : ℕ) → Keeps (display_words n b)
unfolding display_words
words-Keeps zero b c v = Kept-refl v
words-Keeps (suc n) b c v =
    let first = word-Keeps b c v in Kept-trans first (words-Keeps n (add32 b 4) _ first.position)

entries-Keeps : (n b : ℕ) → Keeps (display_entries n b)
unfolding display_entries
entries-Keeps zero b c v = Kept-refl v
entries-Keeps (suc n) b c v =
    let words = words-Keeps 6 b c v in
    let line = putch-Kept newline 0x0B (display_words 6 b c) words.position (inl (omega arith)) in
    Kept-trans words (Kept-trans line (entries-Keeps n (add32 b 24) _ line.position))

count-Keeps : (count : ℕ) → Keeps (display_count count)
unfolding display_count
count-Keeps count c v =
    let one = hex-Keeps (count / 16777216 % 256) 0x0B (omega arith) c v in
    let two = hex-Keeps (count / 65536 % 256) 0x0B (omega arith) _ one.position in
    let three = hex-Keeps (count / 256 % 256) 0x0B (omega arith) _ two.position in
    Kept-trans one (
      Kept-trans two
        (Kept-trans three (hex-Keeps (count % 256) 0x0B (omega arith) _ three.position)))

-- From a position on the screen MMAP_Display keeps the position on the screen and writes nowhere but
-- in the video memory, whatever the map holds and however many entries it has.
pub mmap_display-Kept : (mmap : ℕ) (c : Console) → IsOnScreen c → Kept c (mmap_display mmap c)
unfolding mmap_display
mmap_display-Kept mmap c v =
    let title = text-Keeps (codes "[MMAP] Displaying Memory Map Entries\n") 0x0C refl c v in
    let label = text-Keeps (codes "MMAP_Entries: 0x") 0x0B refl _ title.position in
    let count = load32 (puts (codes "[MMAP] Displaying Memory Map Entries\n") 0x0C c).memory mmap in
    let number = count-Keeps count _ label.position in
    let heads =
      text-Keeps (codes "\nLOW         HIGH        LEN LOW     LEN HIGH    TYPE        ACPI\n") 0x0B
        refl _ number.position in
    Kept-trans title (
      Kept-trans label (
        Kept-trans number
          (Kept-trans heads (entries-Keeps (rounds count) (add32 mmap 4) _ heads.position))))
