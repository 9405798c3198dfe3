-- ===== src/Tests/KeyboardTests.antt =====
-- Keyboard.c with a controller that is always ready and gives the same scan code.
use red_fox32_old.Base.{◌≡◌, refl, true, none, some, [], ◌∷◌, ◌==◌, if◌then◌else◌}
use red_fox32_old.Machine.Ports.{Device, in8}
use red_fox32_old.Keyboard.{
  record_event, Keyboard, KeyboardEvent, no_modifiers, no_event, read_key, dispatch_key,
  keyboard_handler, keyboard_data_port, keyboard, other, keyboard_getch,
}
use red_fox32_old.Keyboard.Layout.{keyboard_layout, keyboard_layout_caps}
use red_fox32_old.Keyboard.Locks.{InSync, keyboard_handler-InSync}
use red_fox32_old.Keyboard.Wait.{keyboard_getch-stuck}

-- The data port gives 0x1E, the key A; the status is 0.
abbrev key_a : Device
key_a t port = if port == keyboard_data_port then 0x1E else 0

abbrev idle : Keyboard
idle = record { modifiers = no_modifiers; previous_event = no_event; trace = [] }

abbrev pressed : KeyboardEvent
pressed = record {
  ready = true;
  keycode = 0x1E;
  character = b'a';
  state = true;
  modifiers = no_modifiers;
}

abbrev waiting : Keyboard
waiting = record idle { previous_event = pressed }

keyboard_handler-InSync_example :
    (k : Keyboard) × (keyboard_handler key_a 1 idle ≡ some k) × InSync k
keyboard_handler-InSync_example = keyboard_handler-InSync key_a 0 idle (λ t. refl) refl

keyboard_getch-stuck_example :
    keyboard_getch key_a 1
      (record { first = keyboard; late = other } ∷ record { first = other; late = other } ∷ [])
      idle
    ≡ none
keyboard_getch-stuck_example =
    keyboard_getch-stuck key_a 1
      (record { first = keyboard; late = other } ∷ record { first = other; late = other } ∷ []) idle
      (refl, (refl, tt))

-- The keyboard once the key has been read.
abbrev read : Keyboard
read = record waiting { trace = in8 keyboard_data_port 0x1E ∷ [] }

key_read : keyboard_handler key_a 1 idle ≡ some read
unfolding keyboard_handler read_key dispatch_key record_event keyboard_layout keyboard_layout_caps
key_read = refl
