-- ===== src/Keyboard/Layout.antt =====
-- KeyboardLayouts/GB.h: the scan codes of the modifier keys, and the two tables of characters.
use red_fox32_old.Base.{ℕ, List, [], ◌∷◌, ◌++◌, replicate, codes}

abbrev pub key_control : ℕ
key_control = 0x1D

abbrev pub key_left_shift : ℕ
key_left_shift = 0x2A

abbrev pub key_right_shift : ℕ
key_right_shift = 0x36

abbrev pub key_alt : ℕ
key_alt = 0x38

abbrev pub key_caps_lock : ℕ
key_caps_lock = 0x3A

abbrev pub key_num_lock : ℕ
key_num_lock = 0x45

abbrev pub key_scroll_lock : ℕ
key_scroll_lock = 0x46

abbrev pub key_menu_left : ℕ
key_menu_left = 0x5B

abbrev pub key_menu_right : ℕ
key_menu_right = 0x5D

abbrev pub key_caps_ignore : ℕ
key_caps_ignore = 0x7A

-- The rows from the number pad's 7 on, the same in both tables: what stands between the named
-- indices is 0.
abbrev number_pad : List ℕ → List ℕ
number_pad backslash =
    replicate 13 0 ++ (codes "789-456+1230." ++ (replicate 2 0 ++ (backslash ++ replicate 41 0)))

unfoldable pub keyboard_layout : List ℕ
keyboard_layout =
    (0 ∷ 0 ∷ codes "1234567890-=")
    ++ ((8 ∷ 9 ∷ codes "qwertyuiop[]")
        ++ ((10 ∷ 0 ∷ codes "asdfghjkl;'")
            ++ ((b'`' ∷ 0 ∷ codes "#zxcvbnm,./")
                ++ ((0 ∷ b'*' ∷ 0 ∷ b' ' ∷ []) ++ number_pad (codes "\\")))))

unfoldable pub keyboard_layout_caps : List ℕ
keyboard_layout_caps =
    (0 ∷ 0 ∷ b'!' ∷ b'"' ∷ 0 ∷ codes "$%^&*(0_+")
    ++ ((8 ∷ 9 ∷ codes "QWERTYUIOP{}")
        ++ ((10 ∷ 0 ∷ codes "ASDFGHJKL:@")
            ++ ((b'`' ∷ 0 ∷ codes "~ZXCVBNM<>?")
                ++ ((0 ∷ b'*' ∷ 0 ∷ b' ' ∷ []) ++ number_pad (codes "|")))))
