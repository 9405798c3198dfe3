-- ===== src/Keyboard.antt =====
-- Keyboard.c and Keyboard.h: the keyboard interrupt, the modifier keys and the event that is kept.
pub mod Layout
pub mod Keys
pub mod Locks
pub mod Earlier
pub mod Wait
use red_fox32_old.Base.{
  ℕ, zero, suc, ◌+◌, ◌-◌, ◌*◌, ◌%◌, ◌≡◌, Bool, true, false, not, ◌||◌, Option, none, some, List, [],
  ◌∷◌, get_or, bit_and, bit_or, ◌==◌, if◌then◌else◌, leb,
}
use red_fox32_old.Machine.Ports.{Trace, Device, inb, outb}
use red_fox32_old.Idt.{Idt, set_interrupt_handler}
use red_fox32_old.Base.Partial.{◌>>=◌}
use Layout.{
  keyboard_layout, keyboard_layout_caps, key_control, key_left_shift, key_right_shift, key_alt,
  key_caps_lock, key_num_lock, key_scroll_lock, key_menu_left, key_menu_right, key_caps_ignore,
}

abbrev pub keyboard_data_port : ℕ
keyboard_data_port = 0x60

abbrev pub keyboard_ctrl_port : ℕ
keyboard_ctrl_port = 0x64

abbrev pub handler_keyboard : ℕ
handler_keyboard = 1

-- The bit-field, the lowest bit first.
pub record KeyboardModifiers : Type 0 where
  pub scroll_lock : Bool
  pub num_lock : Bool
  pub caps_lock : Bool
  pub left_shift : Bool
  pub right_shift : Bool
  pub control : Bool
  pub alt : Bool
  pub left_menu : Bool
  pub right_menu : Bool

-- `state` is true for a key that goes down.
pub record KeyboardEvent : Type 0 where
  pub ready : Bool
  pub keycode : ℕ
  pub character : ℕ
  pub state : Bool
  pub modifiers : KeyboardModifiers

-- The two global variables, and what has been done to the machine.
pub record Keyboard : Type 0 where
  pub modifiers : KeyboardModifiers
  pub previous_event : KeyboardEvent
  pub trace : Trace

abbrev pub bit : Bool → ℕ
bit b = if b then 1 else 0

-- `*(unsigned char*)&Modifiers`
abbrev pub low_byte : KeyboardModifiers → ℕ
low_byte m =
    bit m.scroll_lock
    + 2 * bit m.num_lock
    + 4 * bit m.caps_lock
    + 8 * bit m.left_shift
    + 16 * bit m.right_shift
    + 32 * bit m.control
    + 64 * bit m.alt
    + 128 * bit m.left_menu

module _ (device : Device) where
  -- The loop reads the status, and the data port as long as the input buffer is full; each round
  -- takes a unit of fuel.
  pub wait_ready : ℕ → Trace → Option Trace
  wait_ready zero t = none
  wait_ready (suc fuel) t =
      let (c, t') = inb device keyboard_ctrl_port t in
      elim (bit_and c 0x02 == 0) [
        | true ↦ some t'
        | false ↦ wait_ready fuel (inb device keyboard_data_port t').1
      ]

  pub update_leds : ℕ → Keyboard → Option Keyboard
  update_leds fuel k = do
    t ← wait_ready fuel k.trace
    t ← wait_ready fuel (outb keyboard_data_port 0xED t)
    some (record k { trace = outb keyboard_data_port (low_byte k.modifiers) t })

-- UpdateEventModifiers, with the modifiers that the key has changed.
abbrev pub change_modifiers : Keyboard → KeyboardModifiers → Keyboard
change_modifiers k m = record k {
  modifiers = m;
  previous_event = record k.previous_event { modifiers = m };
}

abbrev pub update_event_modifiers : Keyboard → Keyboard
update_event_modifiers k = change_modifiers k k.modifiers

-- `if (State == KEY_STATE_UP) { lock ^= 1; }`
abbrev pub toggle : (state lock : Bool) → Bool
toggle state lock = if state then lock else not lock

abbrev pub shifted : KeyboardModifiers → Bool
shifted m = if m.left_shift || m.right_shift then not m.caps_lock else m.caps_lock

abbrev pub layout_char : KeyboardModifiers → ℕ → ℕ
layout_char m code =
    if shifted m then get_or keyboard_layout_caps code 0 else get_or keyboard_layout code 0

-- The part of the handler behind the switch.
unfoldable pub record_event : (extended state : Bool) → (code : ℕ) → Keyboard → Keyboard
record_event extended state code k = record k {
  previous_event = record {
    ready = true;
    keycode = if extended then bit_or code 0x0E00 else code;
    character = layout_char k.modifiers code;
    state = state;
    modifiers = k.modifiers;
  };
}

-- The lock keys send the new state to the keyboard before they enter it in the event.
pub change_lock : Device → ℕ → Keyboard → KeyboardModifiers → Option Keyboard
change_lock device fuel k m = do
  k ← update_leds device fuel (record k { modifiers = m })
  some (update_event_modifiers k)

-- The switch.
unfoldable pub dispatch_key :
    Device → ℕ → (extended state : Bool) → (code : ℕ) → Keyboard → Option Keyboard
dispatch_key device fuel extended state code k =
    let m = k.modifiers in
    if code == key_control
    then some (change_modifiers k (record m { control = state }))
    else if code == key_left_shift
    then some (change_modifiers k (record m { left_shift = state }))
    else if code == key_right_shift
    then some (change_modifiers k (record m { right_shift = state }))
    else if code == key_caps_lock
    then change_lock device fuel k (record m { caps_lock = toggle state m.caps_lock })
    else if code == key_caps_ignore
    then some k
    else if code == key_num_lock
    then change_lock device fuel k (record m { num_lock = toggle state m.num_lock })
    else if code == key_scroll_lock
    then change_lock device fuel k (record m { scroll_lock = toggle state m.scroll_lock })
    else if code == key_alt
    then some (change_modifiers k (record m { alt = state }))
    else if code == key_menu_left
    then some (change_modifiers k (record m { left_menu = state }))
    else if code == key_menu_right
    then some (change_modifiers k (record m { right_menu = state }))
    else some (record_event extended state code k)

-- The key that the bytes of the data port name: whether it is an extended one, whether it goes
-- down, its scan code without the release bit, and the trace behind the reads.
unfoldable pub read_key : Device → Trace → Bool × Bool × ℕ × Trace
read_key device t =
    let (first, t') = inb device keyboard_data_port t in
    let extended = first == 0xE0 in
    let (byte, t'') = if extended then inb device keyboard_data_port t' else (first, t') in
    let state = bit_and byte 0x80 == 0 in
    (extended, state, (if state then byte else (byte + 256 - 0x80) % 256), t'')

unfoldable pub keyboard_handler : Device → ℕ → Keyboard → Option Keyboard
unfolding read_key dispatch_key change_lock update_leds wait_ready record_event
keyboard_handler device fuel k =
    let (extended, state, code, t) = read_key device k.trace in
    dispatch_key device fuel extended state code (record k { trace = t })

abbrev pub no_modifiers : KeyboardModifiers
no_modifiers = record {
  scroll_lock = false;
  num_lock = false;
  caps_lock = false;
  left_shift = false;
  right_shift = false;
  control = false;
  alt = false;
  left_menu = false;
  right_menu = false;
}

-- `handler` is the address of Keyboard_Handler.
pub keyboard_setup : Device → ℕ → (handler : ℕ) → Keyboard × Idt → Option (Keyboard × Idt)
keyboard_setup device fuel handler (k, idt) = do
  k ← update_leds device fuel (record k { modifiers = no_modifiers })
  some (k, set_interrupt_handler handler_keyboard handler idt)

-- What wakes the processor from `hlt`.
pub data Interrupt : Type 0 where
  keyboard other : Interrupt

abbrev pub wake : Device → ℕ → Interrupt → Keyboard → Option Keyboard
wake device fuel i k = elim i [ keyboard ↦ keyboard_handler device fuel k | other ↦ some k ]

abbrev pub no_event : KeyboardEvent
no_event = record {
  ready = false;
  keycode = 0;
  character = 0;
  state = false;
  modifiers = no_modifiers;
}

-- The interrupts that wake the loop, in order; `none` is a loop that still waits behind the last,
-- or a handler out of fuel.
unfoldable pub keyboard_get_event :
    Device → ℕ → List Interrupt → Keyboard → Option (KeyboardEvent × Keyboard)
keyboard_get_event device fuel [] k =
    if k.previous_event.ready
    then some (k.previous_event, record k { previous_event = no_event })
    else none
keyboard_get_event device fuel (i ∷ is) k = elim k.previous_event.ready [
  | true ↦ some (k.previous_event, record k { previous_event = no_event })
  | false ↦ wake device fuel i k >>= keyboard_get_event device fuel is
]

-- A round of the loop of Keyboard_getch: the interrupt that ends `hlt`, and the one, if any, that
-- comes between the assignment to `Ready` and the test.
pub record Round : Type 0 where
  pub first : Interrupt
  pub late : Interrupt

abbrev pub goes_on : ℕ → KeyboardEvent → Bool
goes_on c e = (c == 0) || (not e.state || not e.ready)

pub getch_loop : Device → ℕ → List Round → ℕ → Keyboard → Option (ℕ × Keyboard)
getch_loop device fuel [] c k = if goes_on c k.previous_event then none else some (c, k)
getch_loop device fuel (r ∷ rs) c k = elim (goes_on c k.previous_event) [
  | false ↦ some (c, k)
  | true ↦ do
    k ← wake device fuel r.first k
    k' ←
        wake device fuel r.late
          (record k { previous_event = record k.previous_event { ready = false } })
    getch_loop device fuel rs k.previous_event.character k'
]

pub keyboard_getch : Device → ℕ → List Round → Keyboard → Option (ℕ × Keyboard)
unfolding getch_loop
keyboard_getch device fuel rs k = getch_loop device fuel rs 0 k
