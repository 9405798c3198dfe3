-- ===== src/Kernel/Loop/Strokes.antt =====
-- What Keyboard_GetEvent returns for a stroke.
use red_fox32_old.Base.{
  ℕ, ◌%◌, ◌≡◌, ◌≢◌, ◌∙◌, ap, refl, sym, arith, true, false, ltb, List, [], ◌∷◌, ◌++◌, replicate,
  some,
}
use red_fox32_old.Machine.Ports.{Trace, Device, inb}
use red_fox32_old.Keyboard.{
  Keyboard, KeyboardModifiers, KeyboardEvent, keyboard, other, no_event, layout_char,
  change_modifiers, record_event, dispatch_key, keyboard_handler, keyboard_get_event,
  keyboard_data_port, read_key,
}
use red_fox32_old.Keyboard.Keys.{key_byte, read_key-decodes}
use red_fox32_old.Keyboard.Wait.{keyboard_get_event-waits}
use red_fox32_old.Kernel.Loop.Typing.{
  is_held, is_lock, IsPlainByte, hold, AllHeld, looks, Gives, keyboards, hold_all,
}

-- One byte of a key that is not prefixed.
unprefixed :
    (device : Device) (t : Trace)
    → (inb device keyboard_data_port t).0 ≢ 0xE0
    → let b = (inb device keyboard_data_port t).0 in
      read_key device t ≡ (false, ltb b 128, b % 128, (inb device keyboard_data_port t).1)
unfolding read_key
unprefixed device t plain =
    let decoded = read_key-decodes device t in
    let same : key_byte device t ≡ (inb device keyboard_data_port t).0 = ground arith in
    let extended : (read_key device t).0 ≡ false = ground arith in
    let state = decoded.0 ∙ ap (λ b. ltb b 128) same in
    let code = decoded.1 ∙ ap (λ b. b % 128) same in
    let trace : (read_key device t).3 ≡ (inb device keyboard_data_port t).1 = ground arith in
    λ i. (extended i, state i, code i, trace i)

handled :
    (device : Device) (fuel : ℕ) (k : Keyboard)
    → (inb device keyboard_data_port k.trace).0 ≢ 0xE0
    → let b = (inb device keyboard_data_port k.trace).0 in
      keyboard_handler device fuel k
      ≡ dispatch_key device fuel false
          (ltb b 128)
          (b % 128)
          (record k { trace = (inb device keyboard_data_port k.trace).1 })
unfolding keyboard_handler
handled device fuel k plain =
    ap (λ r. dispatch_key device fuel r.0 r.1 r.2 (record k { trace = r.3 }))
      (unprefixed device k.trace plain)

held_key :
    (device : Device) (fuel b : ℕ) (k : Keyboard)
    → is_held (b % 128) ≡ true
    → dispatch_key device fuel false (ltb b 128) (b % 128) k
      ≡ some (change_modifiers k (hold b k.modifiers))
unfolding dispatch_key
held_key device fuel b k h = ground arith

plain_key :
    (device : Device) (fuel b : ℕ) (k : Keyboard)
    → is_held (b % 128) ≡ false
    → is_lock (b % 128) ≡ false
    → dispatch_key device fuel false (ltb b 128) (b % 128) k
      ≡ some (record_event false (ltb b 128) (b % 128) k)
unfolding dispatch_key
plain_key device fuel b k h l = ground arith

-- The event of a stroke, and the state behind it.
abbrev pub event : KeyboardModifiers → ℕ → KeyboardEvent
event m b = record {
  ready = true;
  keycode = b % 128;
  character = layout_char m (b % 128);
  state = ltb b 128;
  modifiers = m;
}

abbrev pub rested : KeyboardModifiers → Trace → Keyboard
rested m t = record { modifiers = m; previous_event = no_event; trace = t }

module _ (device : Device) (fuel : ℕ) where
  plain_event :
      (n b : ℕ) (k : Keyboard)
      → k.previous_event.ready ≡ false
      → IsPlainByte b
      → (inb device keyboard_data_port k.trace).0 ≡ b
      → keyboard_get_event device fuel (replicate n other ++ (keyboard ∷ [])) k
        ≡ some (event k.modifiers b, rested k.modifiers (inb device keyboard_data_port k.trace).1)
  unfolding record_event
  plain_event n b k idle (_, prefix, held, lock) e =
      let k1 = record k { trace = (inb device keyboard_data_port k.trace).1 } in
      keyboard_get_event-waits device fuel n [] k (record_event false (ltb b 128) (b % 128) k1) idle
        (handled device fuel k (λ p. prefix (sym e ∙ p))
          ∙ ap (λ v. dispatch_key device fuel false (ltb v 128) (v % 128) k1) e
          ∙ plain_key device fuel b k1 held lock)
        refl

  pub stroke_event :
      (held : List ℕ) (n b : ℕ) (k : Keyboard)
      → k.previous_event.ready ≡ false
      → AllHeld held
      → IsPlainByte b
      → Gives device k.trace held
      → (inb device keyboard_data_port (looks device held k.trace)).0 ≡ b
      → keyboard_get_event device fuel (keyboards held ++ (replicate n other ++ (keyboard ∷ []))) k
        ≡ some (
          event (hold_all held k.modifiers) b,
          rested
              (hold_all held k.modifiers)
              (inb device keyboard_data_port (looks device held k.trace)).1,
        )
  unfolding keyboard_get_event
  stroke_event [] n b k idle hs plain given e = plain_event n b k idle plain e
  stroke_event (h ∷ held) n b k idle (h_held, hs) plain (given, rest) e =
      let k1 = record k { trace = (inb device keyboard_data_port k.trace).1 } in
      let one : keyboard_handler device fuel k ≡ some (change_modifiers k1 (hold h k.modifiers)) =
        handled device fuel k (λ p. no_prefix h h_held.1 (sym given ∙ p))
        ∙ ap (λ v. dispatch_key device fuel false (ltb v 128) (v % 128) k1) given
        ∙ held_key device fuel h k1 h_held.1 in
      rw (idle, keyboard_get_event, one)
        (stroke_event held n b (change_modifiers k1 (hold h k.modifiers)) idle hs plain rest e)
    where
      no_prefix : (h : ℕ) → is_held (h % 128) ≡ true → h ≢ 0xE0
      no_prefix h held e = ground arith
