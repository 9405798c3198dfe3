-- ===== src/Console/Text.antt =====
-- puts and ClearScreen of TextMode.c.
use red_fox32_old.Base.{
  ℕ, zero, suc, ◌+◌, ◌-◌, ◌*◌, ◌/◌, ◌%◌, ◌≤◌, ◌<◌, ◌≡◌, ◌≢◌, ◌∙◌, ap, refl, inl, inr, arith, ◌==◌,
  if◌then◌else◌, List, [], ◌∷◌, length, get_or, Bool-cases, add32,
}
use red_fox32_old.Machine.Memory.{Memory, poke}
use red_fox32_old.Console.{
  Console, putch, puts, backspace, newline, tab, video_memory, memory_size, clear_loop,
  clear_screen, write_video,
}
use red_fox32_old.Console.Scroll.{within}
use red_fox32_old.Console.Putch.{
  IsOnScreen, Kept, Kept-refl, Kept-trans, putch-Kept, putch_plain, make_room-id,
}

-- A string none of whose characters is a backspace.
abbrev pub NoBackspace : List ℕ → Type 0
NoBackspace [] = Unit {0}
NoBackspace (ch ∷ str) = (ch ≢ backspace) × NoBackspace str

-- Printing any text without a backspace keeps the position on the screen and writes nowhere but in
-- the video memory, however long the text is.
pub puts-Kept :
    (str : List ℕ) (colour : ℕ) (c : Console)
    → NoBackspace str
    → IsOnScreen c
    → Kept c (puts str colour c)
unfolding puts
puts-Kept [] colour c n v = Kept-refl v
puts-Kept (ch ∷ str) colour c n v = elim (Bool-cases (ch == 0)) [
  | inl stop ↦ rw (stop, puts) (Kept-refl v)
  | inr more ↦
      rw (more, puts)
        (Kept-trans first (puts-Kept str colour (putch ch colour c) n.1 first.position))
]
  where
    first : Kept c (putch ch colour c)
    first = putch-Kept ch colour c v (inl n.0)

-- A string of characters that each take a cell, before the terminating 0.
abbrev pub IsPlain : List ℕ → Type 0
IsPlain [] = Unit {0}
IsPlain (ch ∷ str) = (ch ≢ 0) × (ch ≢ newline) × (ch ≢ tab) × (ch ≢ backspace) × IsPlain str

-- What a row of cells in one colour holds at the offset `k`.
abbrev pub cell_byte : List ℕ → ℕ → ℕ → ℕ
cell_byte str colour k = if k % 2 == 0 then get_or str (k / 2) 0 else colour

get_or-suc :
    (x : ℕ) (xs : List ℕ) (k j : ℕ) → k ≡ j + 2 → get_or (x ∷ xs) (k / 2) 0 ≡ get_or xs (j / 2) 0
get_or-suc x xs k j e = ap (λ i. get_or (x ∷ xs) i 0) half
  where
    half : k / 2 ≡ suc (j / 2)
    half = omega arith

puts-plain_cons :
    (ch : ℕ) (str : List ℕ) (colour : ℕ) (c : Console)
    → IsPlain (ch ∷ str)
    → c.screen_pos < memory_size
    → puts (ch ∷ str) colour c ≡ puts str colour (write_video colour (write_video ch c))
unfolding puts
puts-plain_cons ch str colour c p h = ground (arith, putch_plain ch colour c, make_room-id c h)

screen_pos-puts :
    (str : List ℕ) (colour : ℕ) (c : Console)
    → IsPlain str
    → c.screen_pos + 2 * length str ≤ memory_size
    → (puts str colour c).screen_pos ≡ c.screen_pos + 2 * length str
screen_pos-puts [] colour c p fits = unfold puts in omega arith
screen_pos-puts (ch ∷ str) colour c p fits = omega (
  arith,
  ap (λ (d : Console). d.screen_pos) (puts-plain_cons ch str colour c p (omega arith)),
  screen_pos-puts str colour (write_video colour (write_video ch c)) p.4 (omega arith),
)

-- The memory with a row of cells at the address `at`.
abbrev pub row : (at : ℕ) → List ℕ → ℕ → Memory → Memory
row at str colour m b = if within at (2 * length str) b then cell_byte str colour (b - at) else m b

row_cons :
    (ch : ℕ) (str : List ℕ) (colour pos : ℕ) (m : Memory) (b : ℕ)
    → pos + 2 + 2 * length str ≤ memory_size
    → row
        (video_memory + add32 (add32 pos 1) 1)
        str
        colour
        (poke (poke m (add32 video_memory pos) ch) (add32 video_memory (add32 pos 1)) colour)
        b
      ≡ row (video_memory + pos) (ch ∷ str) colour m b
row_cons ch str colour pos m b h = ground (
  arith,
  get_or-suc ch str (b - (video_memory + pos)) (b - (video_memory + add32 (add32 pos 1) 1)),
)

memory-puts :
    (str : List ℕ) (colour : ℕ) (c : Console) (b : ℕ)
    → IsPlain str
    → c.screen_pos + 2 * length str ≤ memory_size
    → (puts str colour c).memory b ≡ row (video_memory + c.screen_pos) str colour c.memory b
memory-puts [] colour c b p fits = unfold puts in ground arith
memory-puts (ch ∷ str) colour c b p fits =
    ap (λ (d : Console). d.memory b) (puts-plain_cons ch str colour c p (omega arith))
    ∙ memory-puts str colour (write_video colour (write_video ch c)) b p.4 (omega arith)
    ∙ row_cons ch str colour c.screen_pos c.memory b (omega arith)

-- A text of plain characters that fits on the rest of the screen is laid out from the position on, a
-- cell for each character with the colour behind it; the position moves past it, and every other
-- byte of memory is as it was.
pub puts-plain :
    (str : List ℕ) (colour : ℕ) (c : Console)
    → IsPlain str
    → c.screen_pos + 2 * length str ≤ memory_size
    → ((puts str colour c).screen_pos ≡ c.screen_pos + 2 * length str)
      × ((b : ℕ)
          → (puts str colour c).memory b ≡ row (video_memory + c.screen_pos) str colour c.memory b)
puts-plain str colour c p fits =
    (screen_pos-puts str colour c p fits, λ b. memory-puts str colour c b p fits)

clear_loop_lem :
    (n i : ℕ) (m : Memory) (b : ℕ)
    → i + n ≤ memory_size
    → clear_loop n i m b ≡ (if within (video_memory + i) n b then 0 else m b)
unfolding clear_loop
clear_loop_lem zero i m b h = ground arith
clear_loop_lem (suc n) i m b h =
    ground (arith, clear_loop_lem n (i + 1) (poke m (add32 video_memory i) 0) b)

-- `ClearScreen` zeroes the whole video memory and nothing else, and returns to the origin.
pub clear_screen_lem :
    (c : Console)
    → ((clear_screen c).screen_pos ≡ 0)
      × ((b : ℕ)
          → (clear_screen c).memory b
            ≡ (if within video_memory memory_size b then 0 else c.memory b))
unfolding clear_screen
clear_screen_lem c = (refl, λ b. clear_loop_lem memory_size 0 c.memory b (omega arith))
