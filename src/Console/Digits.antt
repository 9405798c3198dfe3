-- ===== src/Console/Digits.antt =====
-- putch_hex and putch_binary of TextMode.c: which characters they print.
use red_fox32_old.Base.{
  ℕ, zero, suc, ◌+◌, ◌-◌, ◌*◌, ◌/◌, ◌%◌, ◌^◌, ◌<◌, ◌≡◌, ◌∙◌, ap, sym, refl, arith, ltb, ◌==◌,
  ==_iff, if◌then◌else◌, passes, passes-at, List, [], ◌∷◌, bit_and, ◌&&◌, true,
}
use red_fox32_old.Console.{
  Console, putch, puts, hex_high, hex_low, putch_hex, binary_loop, putch_binary,
}

-- The hexadecimal digit of a number below 16.
abbrev pub digit : ℕ → ℕ
digit n = if ltb n 10 then b'0' + n else b'A' + (n - 10)

hex_table : passes (λ c. (hex_high c == digit (c / 16)) && (hex_low c == digit (c % 16))) 256 ≡ true
unfolding passes hex_high hex_low
hex_table = refl

-- Of any byte, `char` being signed, `putch_hex` prints the high and then the low hexadecimal digit.
pub putch_hex-digits :
    (c colour : ℕ) (s : Console)
    → c < 256
    → putch_hex c colour s ≡ putch (digit (c % 16)) colour (putch (digit (c / 16)) colour s)
unfolding putch_hex
putch_hex-digits c colour s h = rw (both.0, both.1)
  where
    both : (hex_high c ≡ digit (c / 16)) × (hex_low c ≡ digit (c % 16))
    both = ground (
      arith,
      passes-at (λ x. (hex_high x == digit (x / 16)) && (hex_low x == digit (x % 16))) 256 hex_table
          c h,
    )

-- The character of the bit `k`.
abbrev pub bit_char : ℕ → ℕ → ℕ
bit_char c k = if c / 2 ^ k % 2 == 0 then b'0' else b'1'

abbrev tested_char : ℕ → ℕ → ℕ
tested_char c i = if bit_and (c * 2 ^ i) 128 == 0 then b'0' else b'1'

bit_table : passes (λ c. passes (λ i. tested_char c i == bit_char c (7 - i)) 8) 256 ≡ true
unfolding passes
bit_table = refl

tested_char-bit_char : (c i : ℕ) → c < 256 → i < 8 → tested_char c i ≡ bit_char c (7 - i)
tested_char-bit_char c i h k = (==_iff _ _).0 (
    passes-at (λ i. tested_char c i == bit_char c (7 - i)) 8
      (passes-at (λ c. passes (λ i. tested_char c i == bit_char c (7 - i)) 8) 256 bit_table c h) i
      k)

-- The lowest `n` binary digits of a byte, the highest first.
abbrev pub binary_digits : (n c : ℕ) → List ℕ
binary_digits zero c = []
binary_digits (suc n) c = bit_char c n ∷ binary_digits n c

binary_loop-cons :
    (n i c : ℕ) (s : Console)
    → c < 256
    → i < 8
    → binary_loop (suc n) i c s ≡ binary_loop n (i + 1) c (putch (bit_char c (7 - i)) 0x0C s)
unfolding binary_loop
binary_loop-cons n i c s h k =
    ap (λ ch. binary_loop n (i + 1) c (putch ch 0x0C s)) (tested_char-bit_char c i h k)

-- The two loops print the same characters.
bit_char-pos : (c k : ℕ) → 0 < bit_char c k
bit_char-pos c k = ground arith

puts-bits :
    (ch : ℕ) (str : List ℕ) (s : Console)
    → 0 < ch
    → puts (ch ∷ str) 0x0C s ≡ puts str 0x0C (putch ch 0x0C s)
unfolding puts
puts-bits ch str s h = ground arith

binary_loop-digits :
    (n i c : ℕ) (s : Console)
    → c < 256
    → i + n ≡ 8
    → binary_loop n i c s ≡ puts (binary_digits n c) 0x0C s
binary_loop-digits zero i c s h e = unfold binary_loop puts in refl
binary_loop-digits (suc n) i c s h e =
    binary_loop-cons n i c s h (omega arith)
    ∙ ap (λ k. binary_loop n (i + 1) c (putch (bit_char c k) 0x0C s)) (omega arith)
    ∙ binary_loop-digits n (i + 1) c (putch (bit_char c n) 0x0C s) h (omega arith)
    ∙ sym (puts-bits (bit_char c n) (binary_digits n c) s (bit_char-pos c n))

-- `putch_binary` prints the eight binary digits of a byte, the highest first, always in the colour
-- 0x0C, whatever colour it is given.
pub putch_binary-digits :
    (c colour : ℕ) (s : Console)
    → c < 256
    → putch_binary c colour s ≡ puts (binary_digits 8 c) 0x0C s
unfolding putch_binary
putch_binary-digits c colour s h = binary_loop-digits 8 0 c s h refl
