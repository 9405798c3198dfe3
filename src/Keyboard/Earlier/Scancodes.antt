-- ===== src/Keyboard/Earlier/Scancodes.antt =====
-- The enumeration of scan codes in KBDUK.h (RedFox32/Old/Source/Drivers/Keyboard).
use red_fox32_old.Base.{
  ℕ, ◌<◌, ◌≡◌, refl, true, not, ◌==◌, List, [], ◌∷◌, get_or, length, passes, passes-at, bool_eq,
  bool_eq→eq,
}
use red_fox32_old.Keyboard.Earlier.{kbduk}

pub data KbdUkScancode : Type 0 where
  escape key_1 key_2 key_3 key_4 key_5 key_6 key_7 : KbdUkScancode
  key_8 key_9 key_0 dash equals backspace tab key_q : KbdUkScancode
  key_w key_e key_r key_t key_y key_u key_i key_o : KbdUkScancode
  key_p left_square_bracket right_square_bracket enter control key_a key_s key_d : KbdUkScancode
  key_f key_g key_h key_j key_k key_l semi_colon backslash : KbdUkScancode
  grave left_shift hash key_z key_x key_c key_v key_b : KbdUkScancode
  key_n key_m comma period forwardslash right_shift asterisk left_alt : KbdUkScancode
  space caps_lock f1 f2 f3 f4 f5 f6 : KbdUkScancode
  f7 f8 f9 f10 num_lock scroll_lock home up_arrow : KbdUkScancode
  page_up numpad_minus left_arrow unknownkey right_arrow numpad_plus end down_arrow : KbdUkScancode
  page_down insert delete unknownkey2 unknownkey3 unknownkey4 f11 f12 : KbdUkScancode

-- In the order of the enumeration, whose first value is 1.
abbrev pub scancodes : List KbdUkScancode
scancodes =
    escape ∷ key_1 ∷ key_2 ∷ key_3 ∷ key_4 ∷ key_5 ∷ key_6 ∷ key_7 ∷ key_8 ∷ key_9 ∷ key_0 ∷ dash
    ∷ equals ∷ backspace ∷ tab ∷ key_q ∷ key_w ∷ key_e ∷ key_r ∷ key_t ∷ key_y ∷ key_u ∷ key_i
    ∷ key_o ∷ key_p ∷ left_square_bracket ∷ right_square_bracket ∷ enter ∷ control ∷ key_a ∷ key_s
    ∷ key_d ∷ key_f ∷ key_g ∷ key_h ∷ key_j ∷ key_k ∷ key_l ∷ semi_colon ∷ backslash ∷ grave
    ∷ left_shift ∷ hash ∷ key_z ∷ key_x ∷ key_c ∷ key_v ∷ key_b ∷ key_n ∷ key_m ∷ comma ∷ period
    ∷ forwardslash ∷ right_shift ∷ asterisk ∷ left_alt ∷ space ∷ caps_lock ∷ f1 ∷ f2 ∷ f3 ∷ f4 ∷ f5
    ∷ f6 ∷ f7 ∷ f8 ∷ f9 ∷ f10 ∷ num_lock ∷ scroll_lock ∷ home ∷ up_arrow ∷ page_up ∷ numpad_minus
    ∷ left_arrow ∷ unknownkey ∷ right_arrow ∷ numpad_plus ∷ end ∷ down_arrow ∷ page_down ∷ insert
    ∷ delete ∷ unknownkey2 ∷ unknownkey3 ∷ unknownkey4 ∷ f11 ∷ f12 ∷ []

abbrev pub key_at : (code : ℕ) → KbdUkScancode
key_at code = get_or (unknownkey ∷ scancodes) code unknownkey

-- The character on the key of a name, or 0 where the key types none.
abbrev pub legend : KbdUkScancode → ℕ
legend escape = 27
legend key_1 = b'1'
legend key_2 = b'2'
legend key_3 = b'3'
legend key_4 = b'4'
legend key_5 = b'5'
legend key_6 = b'6'
legend key_7 = b'7'
legend key_8 = b'8'
legend key_9 = b'9'
legend key_0 = b'0'
legend dash = b'-'
legend equals = b'='
legend backspace = 8
legend tab = 9
legend key_q = b'q'
legend key_w = b'w'
legend key_e = b'e'
legend key_r = b'r'
legend key_t = b't'
legend key_y = b'y'
legend key_u = b'u'
legend key_i = b'i'
legend key_o = b'o'
legend key_p = b'p'
legend left_square_bracket = b'['
legend right_square_bracket = b']'
legend enter = 10
legend key_a = b'a'
legend key_s = b's'
legend key_d = b'd'
legend key_f = b'f'
legend key_g = b'g'
legend key_h = b'h'
legend key_j = b'j'
legend key_k = b'k'
legend key_l = b'l'
legend semi_colon = b';'
legend backslash = b'\\'
legend grave = b'`'
legend hash = b'#'
legend key_z = b'z'
legend key_x = b'x'
legend key_c = b'c'
legend key_v = b'v'
legend key_b = b'b'
legend key_n = b'n'
legend key_m = b'm'
legend comma = b','
legend period = b'.'
legend forwardslash = b'/'
legend asterisk = b'*'
legend space = b' '
legend numpad_minus = b'-'
legend numpad_plus = b'+'
legend _ = 0

legend_table :
    passes (λ c. bool_eq (get_or kbduk c 0 == legend (key_at c)) (not (c == 0x28))) 128 ≡ true
unfolding passes bool_eq kbduk
legend_table = refl

-- The table of plain characters has the character that the enumeration names the key after, at every code
-- but 0x28: what the enumeration calls the backslash types the quotation mark. The enumeration ends at 88
-- and names every code up to there.
pub kbduk-legend :
    (code : ℕ)
    → code < 128
    → ((get_or kbduk code 0 == legend (key_at code)) ≡ not (code == 0x28)) × (length scancodes ≡ 88)
kbduk-legend code lt = (
  bool_eq→eq _ _ (
      passes-at (λ c. bool_eq (get_or kbduk c 0 == legend (key_at c)) (not (c == 0x28))) 128
        legend_table code lt),
  refl,
)
