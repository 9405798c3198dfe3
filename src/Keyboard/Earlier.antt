-- ===== src/Keyboard/Earlier.antt =====
-- The tables of characters of the earlier keyboard drivers: KBDUK.h and KBDUS.h in
-- RedFox32/Old/Source/Drivers/Keyboard, against those of KeyboardLayouts/GB.h.
pub mod Scancodes
use red_fox32_old.Base.{
  ℕ, ◌-◌, ◌+◌, ◌≤◌, ◌<◌, ◌≡◌, ◌≢◌, refl, arith, Bool, true, false, ◌&&◌, ◌||◌, ◌==◌, leb, ltb,
  if◌then◌else◌, List, [], ◌∷◌, ◌++◌, replicate, codes, get_or, passes, passes-at, not, bool_eq,
  bool_eq→eq,
}
use red_fox32_old.Keyboard.Layout.{keyboard_layout, keyboard_layout_caps}

-- From Alt to the end, which is the same in every table: the space bar, and the plus and minus of the
-- number pad.
abbrev rest : List ℕ
rest = (0 ∷ b' ' ∷ 0 ∷ []) ++ (replicate 15 0 ++ ((b'-' ∷ 0 ∷ 0 ∷ 0 ∷ b'+' ∷ []) ++ replicate 49 0))

unfoldable pub kbduk : List ℕ
kbduk =
    (0 ∷ 27 ∷ codes "1234567890-=")
    ++ ((8 ∷ 9 ∷ codes "qwertyuiop[]")
        ++ ((10 ∷ 0 ∷ codes "asdfghjkl;'")
            ++ ((b'`' ∷ 0 ∷ codes "#zxcvbnm,./") ++ ((0 ∷ b'*' ∷ []) ++ rest))))

unfoldable pub kbduk_shift : List ℕ
kbduk_shift =
    (0 ∷ 27 ∷ b'!' ∷ b'"' ∷ 1 ∷ codes "$%^&*()_+")
    ++ ((8 ∷ 9 ∷ codes "QWERTYUIOP{}")
        ++ ((10 ∷ 0 ∷ codes "ASDFGHJKL:@")
            ++ ((b'\\' ∷ 0 ∷ codes "~ZXCVBNM<>/") ++ ((0 ∷ b'*' ∷ []) ++ rest))))

unfoldable pub kbdus : List ℕ
kbdus =
    (0 ∷ 27 ∷ codes "1234567890-=")
    ++ ((8 ∷ 9 ∷ codes "qwertyuiop[]")
        ++ ((10 ∷ 0 ∷ codes "asdfghjkl;'")
            ++ ((b'`' ∷ 0 ∷ codes "\\zxcvbnm,./") ++ ((0 ∷ b'*' ∷ []) ++ rest))))

-- The keys that the earlier tables give no character, and Escape, which they give one.
abbrev pub is_added : ℕ → Bool
is_added code =
    code == 1
    || (code == 0x56 || (leb 0x47 code && (ltb code 0x54 && not (code == 0x4A || code == 0x4E))))

-- The shifted keys that differ: 3 with the pound sign, 0, the key left of 1, and the stroke.
abbrev pub is_changed : ℕ → Bool
is_changed code = code == 4 || (code == 0x0B || (code == 0x29 || code == 0x35))

abbrev pub agree : (t u : List ℕ) (code : ℕ) → Bool
agree t u code = get_or t code 0 == get_or u code 0

plain_table : passes (λ c. bool_eq (agree kbduk keyboard_layout c) (not (is_added c))) 128 ≡ true
unfolding passes bool_eq kbduk keyboard_layout
plain_table = refl

shifted_table :
    passes
      (λ c. bool_eq (agree kbduk_shift keyboard_layout_caps c) (not (is_added c || is_changed c)))
      128
    ≡ true
unfolding passes bool_eq kbduk_shift keyboard_layout_caps
shifted_table = refl

american_table : passes (λ c. bool_eq (agree kbdus kbduk c) (not (c == 0x2B))) 128 ≡ true
unfolding passes bool_eq kbdus kbduk
american_table = refl

-- The characters of the earlier British tables are those of the present ones exactly away from Escape, the
-- key beside the left shift and the number pad but for its plus and minus, and with shift from four keys
-- more; the earlier American table has the plain characters of the earlier British one for every key but
-- the one with the hash.
kbduk-keyboard_layout :
    (code : ℕ)
    → code < 128
    → (agree kbduk keyboard_layout code ≡ not (is_added code))
      × (agree kbduk_shift keyboard_layout_caps code ≡ not (is_added code || is_changed code))
      × (agree kbdus kbduk code ≡ not (code == 0x2B))
kbduk-keyboard_layout code lt = (
  bool_eq→eq _ _ (
      passes-at (λ c. bool_eq (agree kbduk keyboard_layout c) (not (is_added c))) 128 plain_table
        code lt),
  bool_eq→eq _ _ (
      passes-at
        (λ c. bool_eq (agree kbduk_shift keyboard_layout_caps c) (not (is_added c || is_changed c)))
        128 shifted_table code lt),
  bool_eq→eq _ _
      (passes-at (λ c. bool_eq (agree kbdus kbduk c) (not (c == 0x2B))) 128 american_table code lt),
)
