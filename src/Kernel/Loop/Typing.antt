-- ===== src/Kernel/Loop/Typing.antt =====
-- Keys typed at the main loop of KMain: the bytes that they send, and what they are to come to.
use red_fox32_old.Base.{
  ℕ, ◌%◌, ◌<◌, ◌≡◌, ◌≢◌, Bool, true, false, ◌||◌, ◌==◌, ltb, if◌then◌else◌, List, [], ◌∷◌, ◌++◌,
  replicate,
}
use red_fox32_old.Machine.Ports.{Trace, Device, inb}
use red_fox32_old.Console.{Console, putch}
use red_fox32_old.Keyboard.{
  KeyboardModifiers, Interrupt, keyboard, other, layout_char, keyboard_data_port,
}
use red_fox32_old.Keyboard.Layout.{
  key_control, key_left_shift, key_right_shift, key_alt, key_caps_lock, key_num_lock,
  key_scroll_lock, key_menu_left, key_menu_right, key_caps_ignore,
}
use red_fox32_old.Kernel.{Step, goes_on, shutdown, reboot}

-- The keys that are held while another is typed.
abbrev pub is_held : (code : ℕ) → Bool
is_held code =
    code == key_control
    || (code == key_left_shift
        || (code == key_right_shift
            || (code == key_alt || (code == key_menu_left || code == key_menu_right))))

abbrev pub is_lock : (code : ℕ) → Bool
is_lock code =
    code == key_caps_lock
    || (code == key_num_lock || (code == key_scroll_lock || code == key_caps_ignore))

-- The byte of a key, going down or up, that is held, or is neither held nor a lock. 0xE0 is a prefix.
abbrev pub IsHeldByte : ℕ → Type 0
IsHeldByte b = (b < 256) × (is_held (b % 128) ≡ true)

abbrev pub IsPlainByte : ℕ → Type 0
IsPlainByte b = (b < 256) × (b ≢ 0xE0) × (is_held (b % 128) ≡ false) × (is_lock (b % 128) ≡ false)

-- What a held key does to the modifiers when it goes down or up.
abbrev pub hold : ℕ → KeyboardModifiers → KeyboardModifiers
hold b m =
    let code = b % 128 in
    let down = ltb b 128 in
    if code == key_control
    then record m { control = down }
    else if code == key_left_shift
    then record m { left_shift = down }
    else if code == key_right_shift
    then record m { right_shift = down }
    else if code == key_alt
    then record m { alt = down }
    else if code == key_menu_left
    then record m { left_menu = down }
    else record m { right_menu = down }

-- One event: the bytes of the held keys that change before it, other interrupts, and the byte of a key.
pub record Stroke : Type 0 where
  pub held : List ℕ
  pub others : ℕ
  pub byte : ℕ

abbrev pub AllHeld : List ℕ → Type 0
AllHeld [] = Unit {0}
AllHeld (b ∷ bs) = IsHeldByte b × AllHeld bs

abbrev pub AllStrokes : List Stroke → Type 0
AllStrokes [] = Unit {0}
AllStrokes (s ∷ ss) = AllHeld s.held × IsPlainByte s.byte × AllStrokes ss

-- The trace behind a look at the data port for each byte.
abbrev pub looks : Device → List ℕ → Trace → Trace
looks device [] t = t
looks device (b ∷ bs) t = looks device bs (inb device keyboard_data_port t).1

-- The data port gives these bytes, one to each look.
abbrev pub Gives : Device → Trace → List ℕ → Type 0
Gives device t [] = Unit {0}
Gives device t (b ∷ bs) =
    ((inb device keyboard_data_port t).0 ≡ b) × Gives device (inb device keyboard_data_port t).1 bs

abbrev pub Types : Device → Trace → List Stroke → Type 0
Types device t [] = Unit {0}
Types device t (s ∷ ss) =
    let t' = looks device s.held t in
    Gives device t s.held
    × ((inb device keyboard_data_port t').0 ≡ s.byte)
    × Types device (inb device keyboard_data_port t').1 ss

-- The interrupts of a stroke.
abbrev pub keyboards : List ℕ → List Interrupt
keyboards [] = []
keyboards (b ∷ bs) = keyboard ∷ keyboards bs

abbrev pub interrupts : Stroke → List Interrupt
interrupts s = keyboards s.held ++ (replicate s.others other ++ keyboard ∷ [])

-- What the keys come to: the character of every key that goes down is put, with the modifiers that are
-- held, and Escape ends the session.
abbrev pub hold_all : List ℕ → KeyboardModifiers → KeyboardModifiers
hold_all [] m = m
hold_all (b ∷ bs) m = hold_all bs (hold b m)

abbrev pub type_key : ℕ → KeyboardModifiers → Console → Console
type_key b m c = if ltb b 128 then putch (layout_char m b) 0x0B c else c

abbrev pub end_step : KeyboardModifiers → Step
end_step m = if m.left_shift then shutdown else reboot

unfoldable pub session : List Stroke → KeyboardModifiers → Console → Step × Console
session [] m c = (goes_on, c)
session (s ∷ ss) m c =
    let m' = hold_all s.held m in
    let c' = type_key s.byte m' c in
    elim (s.byte == 1) [ true ↦ (end_step m', c') | false ↦ session ss m' c' ]
