-- ===== src/Keyboard/Keys.antt =====
-- Keyboard_Handler of Keyboard.c: the key that is read, and the character of a regular key.
use red_fox32_old.Base.{
  ℕ, ◌+◌, ◌-◌, ◌%◌, ◌≤◌, ◌<◌, ◌≡◌, refl, arith, Bool, true, not, ◌||◌, ◌&&◌, [], ◌∷◌, ◌++◌, get_or,
  length, bit_and, ◌==◌, if◌then◌else◌, leb, ltb, passes, passes-at, bool_eq, bool_eq→eq,
}
use mathlib.Core.Bool.{xor}
use red_fox32_old.Machine.Ports.{Trace, Device, in8}
use red_fox32_old.Keyboard.{KeyboardModifiers, layout_char, read_key, keyboard_data_port}
use red_fox32_old.Keyboard.Layout.{keyboard_layout, keyboard_layout_caps}

release_table : passes (λ b. bool_eq (bit_and b 0x80 == 0) (ltb b 128)) 256 ≡ true
unfolding passes bool_eq
release_table = refl

-- The release bit of a byte.
release_bit : (b : ℕ) → b < 256 → (bit_and b 0x80 == 0) ≡ ltb b 128
release_bit b h =
    bool_eq→eq _ _
      (passes-at (λ b. bool_eq (bit_and b 0x80 == 0) (ltb b 128)) 256 release_table b h)

-- The byte that the key is in: the second one behind the prefix 0xE0.
abbrev pub key_byte : Device → Trace → ℕ
key_byte device t =
    let first = device t keyboard_data_port % 256 in
    if first == 0xE0
    then device (t ++ in8 keyboard_data_port first ∷ []) keyboard_data_port % 256
    else first

key_byte-lt : (device : Device) (t : Trace) → key_byte device t < 256
key_byte-lt device t = ground arith

-- The handler reads a key going down from a byte below 128 and a key going up from one above, and in
-- both cases the scan code is the byte modulo 128.
pub read_key-decodes :
    (device : Device) (t : Trace)
    → ((read_key device t).1 ≡ ltb (key_byte device t) 128)
      × ((read_key device t).2 ≡ key_byte device t % 128)
      × ((read_key device t).0 ≡ (device t keyboard_data_port % 256 == 0xE0))
unfolding read_key
read_key-decodes device t = (state_of, code_of, refl)
  where
    state_of : (read_key device t).1 ≡ ltb (key_byte device t) 128
    state_of = ground (arith, release_bit (key_byte device t) (key_byte-lt device t))

    code_of : (read_key device t).2 ≡ key_byte device t % 128
    code_of =
        ground (arith, release_bit (key_byte device t) (key_byte-lt device t), key_byte-lt device t)

-- Every key that can be read has its place in both tables of characters.
pub read_key-bounds :
    (device : Device) (t : Trace)
    → ((read_key device t).2 < length keyboard_layout)
      × ((read_key device t).2 < length keyboard_layout_caps)
unfolding keyboard_layout keyboard_layout_caps
read_key-bounds device t =
    (omega (arith, (read_key-decodes device t).1), omega (arith, (read_key-decodes device t).1))

-- A code whose plain character is a small letter.
abbrev pub IsLetter : ℕ → Type 0
IsLetter code = (b'a' ≤ get_or keyboard_layout code 0) × (get_or keyboard_layout code 0 ≤ b'z')

abbrev letter_row : ℕ → Bool
letter_row code =
    let c = get_or keyboard_layout code 0 in
    if leb b'a' c && leb c b'z' then get_or keyboard_layout_caps code 0 + 32 == c else true

letter_table : passes letter_row 128 ≡ true
unfolding passes keyboard_layout keyboard_layout_caps
letter_table = refl

letter_caps :
    (code : ℕ)
    → code < 128
    → IsLetter code
    → get_or keyboard_layout_caps code 0 + 32 ≡ get_or keyboard_layout code 0
letter_caps code h letter = ground (arith, passes-at letter_row 128 letter_table code h)

-- The character of a letter key is the capital exactly if one of shift and caps lock is on and not
-- the other; with both or neither it is the small letter.
pub layout_char-letter :
    (m : KeyboardModifiers) (code : ℕ)
    → code < 128
    → IsLetter code
    → layout_char m code ≡ (
        if not (xor (m.left_shift || m.right_shift) m.caps_lock)
        then get_or keyboard_layout code 0
        else get_or keyboard_layout code 0 - 32)
unfolding xor
layout_char-letter m code h letter = ground (arith, letter_caps code h letter)
