-- ===== src/Keyboard/Locks.antt =====
-- The lock keys of Keyboard_Handler, the byte that is sent for the LEDs, and the modifiers that the
-- event keeps.
use red_fox32_old.Base.{
  ℕ, suc, ◌+◌, ◌*◌, ◌%◌, ◌<◌, ◌≡◌, ◌↔◌, refl, arith, Bool, true, false, not, ◌||◌, Option, some,
  bit_and, ◌==◌, if◌then◌else◌,
}
use red_fox32_old.Base.Partial.{◌>>=◌}
use red_fox32_old.Machine.Ports.{Trace, Device, inb, outb}
use red_fox32_old.Idt.{Idt, set_interrupt_handler}
use red_fox32_old.Keyboard.{
  keyboard_setup, no_modifiers, handler_keyboard, Keyboard, KeyboardModifiers, read_key,
  record_event, dispatch_key, keyboard_handler, keyboard_data_port, keyboard_ctrl_port, update_leds,
  wait_ready, change_lock, change_modifiers, low_byte, bit,
}
use red_fox32_old.Keyboard.Layout.{
  key_control, key_left_shift, key_right_shift, key_alt, key_menu_left, key_menu_right,
  key_caps_lock, key_num_lock, key_scroll_lock, key_caps_ignore,
}

-- A controller whose input buffer is never full.
abbrev pub Clear : Device → Type 0
Clear device = (t : Trace) → bit_and (device t keyboard_ctrl_port % 256) 0x02 ≡ 0

wait_ready-Clear :
    (device : Device) (fuel : ℕ) (t : Trace)
    → Clear device
    → wait_ready device (suc fuel) t ≡ some (inb device keyboard_ctrl_port t).1
unfolding wait_ready
wait_ready-Clear device fuel t clear = rw (clear t, wait_ready)

-- What is behind a change of the LEDs.
update_leds-Clear :
    (device : Device) (fuel : ℕ) (k : Keyboard)
    → Clear device
    → (t : Trace) × (update_leds device (suc fuel) k ≡ some (record k { trace = t }))
unfolding update_leds
update_leds-Clear device fuel k clear = (
  outb keyboard_data_port (low_byte k.modifiers)
      (read_status (outb keyboard_data_port 0xED (read_status k.trace))),
  rw (
    wait_ready-Clear device fuel k.trace clear,
    wait_ready-Clear device fuel (outb keyboard_data_port 0xED (read_status k.trace)) clear,
  ),
)
  where
    read_status : Trace → Trace
    read_status t = (inb device keyboard_ctrl_port t).1

change_lock-Clear :
    (device : Device) (fuel : ℕ) (k : Keyboard) (m : KeyboardModifiers)
    → Clear device
    → (t : Trace) × (change_lock device (suc fuel) k m
        ≡ some (change_modifiers (record k { trace = t }) m))
unfolding change_lock
change_lock-Clear device fuel k m clear =
    let (t, e) = update_leds-Clear device fuel (record k { modifiers = m }) clear in (t, rw e)

-- The modifiers of the event are those of the keyboard.
abbrev pub InSync : Keyboard → Type 0
InSync k = k.previous_event.modifiers ≡ k.modifiers

-- A lock key, its code, its bit turned round.
pub data Lock : Type 0 where
  scroll num caps : Lock

abbrev pub lock_code : Lock → ℕ
lock_code scroll = key_scroll_lock
lock_code num = key_num_lock
lock_code caps = key_caps_lock

abbrev pub turned : Lock → KeyboardModifiers → KeyboardModifiers
turned scroll m = record m { scroll_lock = not m.scroll_lock }
turned num m = record m { num_lock = not m.num_lock }
turned caps m = record m { caps_lock = not m.caps_lock }

dispatch_key-lock :
    (lock : Lock) (device : Device) (fuel : ℕ) (extended state : Bool) (k : Keyboard)
    → dispatch_key device fuel extended state (lock_code lock) k
      ≡ change_lock device fuel k (if state then k.modifiers else turned lock k.modifiers)
unfolding dispatch_key
dispatch_key-lock scroll device fuel extended true k = refl
dispatch_key-lock scroll device fuel extended false k = refl
dispatch_key-lock num device fuel extended true k = refl
dispatch_key-lock num device fuel extended false k = refl
dispatch_key-lock caps device fuel extended true k = refl
dispatch_key-lock caps device fuel extended false k = refl

-- A lock key that is pressed and let go changes nothing but its own lock, in the keyboard and in the
-- event, whose other fields stay, on a controller whose input buffer is never full; one round of the
-- wait loop is enough.
pub dispatch_key-tap :
    (lock : Lock) (device : Device) (fuel : ℕ) (extended : Bool) (k : Keyboard)
    → Clear device
    → (t : Trace) × ((dispatch_key device (suc fuel) extended true (lock_code lock) k
          >>= dispatch_key device (suc fuel) extended false (lock_code lock))
        ≡ some (change_modifiers (record k { trace = t }) (turned lock k.modifiers)))
dispatch_key-tap lock device fuel extended k clear =
    let (t, down) = change_lock-Clear device fuel k k.modifiers clear in
    let k1 = change_modifiers (record k { trace = t }) k.modifiers in
    let (t', up) = change_lock-Clear device fuel k1 (turned lock k.modifiers) clear in
    (
      t',
      rw (
        dispatch_key-lock lock device (suc fuel) extended true k,
        down,
        dispatch_key-lock lock device (suc fuel) extended false k1,
        up,
      ),
    )

abbrev Done : Option Keyboard → Type 0
Done r = (k : Keyboard) × (r ≡ some k) × InSync k

if-Done : (b : Bool) (x y : Option Keyboard) → Done x → Done y → Done (if b then x else y)
if-Done true x y p q = p
if-Done false x y p q = q

change_lock-Done :
    (device : Device) (fuel : ℕ) (k : Keyboard) (m : KeyboardModifiers)
    → Clear device
    → Done (change_lock device (suc fuel) k m)
change_lock-Done device fuel k m clear =
    let (t, e) = change_lock-Clear device fuel k m clear in (_, e, refl)

dispatch_key-Done :
    (device : Device) (fuel : ℕ) (extended state : Bool) (code : ℕ) (k : Keyboard)
    → Clear device
    → InSync k
    → Done (dispatch_key device (suc fuel) extended state code k)
unfolding dispatch_key record_event
dispatch_key-Done device fuel extended state code k clear sync =
    if-Done (code == key_control) _ _ (_, refl, refl)
      (if-Done (code == key_left_shift) _ _ (_, refl, refl)
        (if-Done (code == key_right_shift) _ _ (_, refl, refl)
          (if-Done (code == key_caps_lock) _ _ (change_lock-Done device fuel k _ clear) (
            if-Done (code == key_caps_ignore) _ _ (k, refl, sync)
              (if-Done (code == key_num_lock) _ _ (change_lock-Done device fuel k _ clear) (
                if-Done (code == key_scroll_lock) _ _ (change_lock-Done device fuel k _ clear) (
                  if-Done (code == key_alt) _ _ (_, refl, refl)
                    (if-Done (code == key_menu_left) _ _ (_, refl, refl)
                      (if-Done (code == key_menu_right) _ _ (_, refl, refl) (_, refl, refl))))))))))

-- Keyboard_Handler returns on a controller whose input buffer is never full, with one round of the
-- wait loop, and the event then has the modifiers of the keyboard if it had them before.
pub keyboard_handler-InSync :
    (device : Device) (fuel : ℕ) (k : Keyboard)
    → Clear device
    → InSync k
    → (k' : Keyboard) × (keyboard_handler device (suc fuel) k ≡ some k') × InSync k'
unfolding keyboard_handler
keyboard_handler-InSync device fuel k clear sync =
    let (_, state, code, t) = read_key device k.trace in
    dispatch_key-Done device fuel (read_key device k.trace).0 state code (record k { trace = t })
      clear sync

-- The byte that update_leds sends is the three locks exactly if no other modifier in it is held.
pub low_byte-locks :
    (m : KeyboardModifiers)
    → (low_byte m < 256)
      × (low_byte m % 8 ≡ bit m.scroll_lock + 2 * bit m.num_lock + 4 * bit m.caps_lock)
      × ((low_byte m < 8)
          ↔ ((m.left_shift || (m.right_shift || (m.control || (m.alt || m.left_menu)))) ≡ false))
low_byte-locks m = (ground arith, ground arith, ((λ h. ground arith), (λ h. ground arith)))

-- Setting up on such a controller leaves no modifier set and registers the handler.
pub keyboard_setup-Clear :
    (device : Device) (fuel handler : ℕ) (k : Keyboard) (idt : Idt)
    → Clear device
    → (t : Trace) × (keyboard_setup device (suc fuel) handler (k, idt)
        ≡ some (
          record k { modifiers = no_modifiers; trace = t },
          set_interrupt_handler handler_keyboard handler idt,
        ))
unfolding keyboard_setup
keyboard_setup-Clear device fuel handler k idt clear =
    let (t, e) = update_leds-Clear device fuel (record k { modifiers = no_modifiers }) clear in
    (t, rw e)
