-- ===== src/Kernel/Loop/Session.antt =====
-- The main loop of KMain, typed at: the keys of a person against what comes to the screen.
use red_fox32_old.Base.{
  ℕ, ◌%◌, ◌<◌, ◌≡◌, ◌∙◌, ap, refl, sym, arith, true, false, ◌==◌, if◌then◌else◌, List, [], ◌∷◌, map,
  Option, some, Bool-cases, inl, inr, dec_lt, lt→ltb, ge→ltb,
}
use red_fox32_old.Machine.Ports.{Device, inb}
use red_fox32_old.Console.{Console}
use red_fox32_old.Keyboard.{
  Keyboard, KeyboardModifiers, KeyboardEvent, Interrupt, layout_char, keyboard_get_event,
  keyboard_data_port,
}
use red_fox32_old.Kernel.{Step, goes_on, shutdown, reboot, handle_event}
use red_fox32_old.Kernel.Loop.{main_loop}
use red_fox32_old.Kernel.Loop.Typing.{
  Stroke, AllStrokes, looks, Types, interrupts, hold_all, type_key, end_step, session,
}
use red_fox32_old.Kernel.Loop.Strokes.{event, rested, stroke_event}

-- What the loop does with such an event.
key_step :
    (m : KeyboardModifiers) (b : ℕ) (c : Console)
    → handle_event (event m b) c ≡ (if b == 1 then end_step m else goes_on, type_key b m c)
unfolding handle_event
key_step m b c = elim (dec_lt b 128) [
  | yes lt ↦
      let same : b % 128 ≡ b = omega (arith, lt) in
      ap (λ v. handle_event (record (event m b) { keycode = v; character = layout_char m v }) c)
        same
      ∙ rw (lt→ltb b 128 lt) refl
  | no nlt ↦ rw (ge→ltb b 128 (omega arith), above nlt)
]
  where
    above : ((b < 128) → ⊥) → (b == 1) ≡ false
    above n = ground arith

-- A round whose event and step are known.
abbrev proceed :
    Device
    → ℕ
    → List (List Interrupt)
    → Keyboard
    → Step × Console
    → Option (Step × Keyboard × Console)
proceed device fuel rounds k p = elim p.0 [
  | goes_on ↦ main_loop device fuel rounds k p.1
  | shutdown ↦ some (shutdown, k, p.1)
  | reboot ↦ some (reboot, k, p.1)
]

round_step :
    (device : Device) (fuel : ℕ) (is : List Interrupt) (rounds : List (List Interrupt))
    (k k1 : Keyboard) (c : Console) (e : KeyboardEvent) (p : Step × Console)
    → keyboard_get_event device fuel is k ≡ some (e, k1)
    → handle_event e c ≡ p
    → main_loop device fuel (is ∷ rounds) k c ≡ proceed device fuel rounds k1 p
unfolding main_loop
round_step device fuel is rounds k k1 c e p got stepped =
    rw (got, main_loop) (ap (proceed device fuel rounds k1) stepped)

session_end :
    (s : Stroke) (ss : List Stroke) (m : KeyboardModifiers) (c : Console)
    → (s.byte == 1) ≡ true
    → session (s ∷ ss) m c ≡ (end_step (hold_all s.held m), type_key s.byte (hold_all s.held m) c)
unfolding session
session_end s ss m c e = rw (e, session) refl

session_on :
    (s : Stroke) (ss : List Stroke) (m : KeyboardModifiers) (c : Console)
    → (s.byte == 1) ≡ false
    → session (s ∷ ss) m c ≡ session ss (hold_all s.held m) (type_key s.byte (hold_all s.held m) c)
unfolding session
session_on s ss m c e = rw (e, session) refl

proceed_end :
    (device : Device) (fuel : ℕ) (rounds : List (List Interrupt)) (k : Keyboard)
    (m : KeyboardModifiers) (c : Console)
    → proceed device fuel rounds k (end_step m, c) ≡ some (end_step m, k, c)
proceed_end device fuel rounds k m c = elim (Bool-cases m.left_shift) [
  | inl l ↦ rw l refl
  | inr l ↦ rw l refl
]

-- Strokes of plain keys and of keys that are held, typed at the loop from a state with no event kept, with the
-- data port giving their bytes one to each look: every call of Keyboard_GetEvent returns, the
-- way the loop ends and the screen are those of the session with the modifiers of the state, and no event
-- is kept.
pub main_loop-session :
    (device : Device) (fuel : ℕ) (ss : List Stroke) (k : Keyboard) (c : Console)
    → k.previous_event.ready ≡ false
    → AllStrokes ss
    → Types device k.trace ss
    → (k' : Keyboard) × (main_loop device fuel (map interrupts ss) k c
        ≡ some ((session ss k.modifiers c).0, k', (session ss k.modifiers c).1))
      × (k'.previous_event.ready ≡ false)
unfolding main_loop session
main_loop-session device fuel [] k c idle all typed = (k, refl, idle)
main_loop-session device fuel (s ∷ ss) k c idle (hs, plain, all) (given, byte, typed) =
    let m = hold_all s.held k.modifiers in
    let k1 = rested m (inb device keyboard_data_port (looks device s.held k.trace)).1 in
    let (k', rest, none) =
      main_loop-session device fuel ss k1 (type_key s.byte m c) refl all typed in
    let one = stroke_event device fuel s.held s.others s.byte k idle hs plain given byte in
    let step =
      round_step device fuel (interrupts s) (map interrupts ss) k k1 c (event m s.byte) _ one
        (key_step m s.byte c) in
    elim (Bool-cases (s.byte == 1)) [
      | inl e ↦ (
        k1,
        step
            ∙ rw e (proceed_end device fuel (map interrupts ss) k1 m (type_key s.byte m c))
            ∙ ap (λ p. some (p.0, k1, p.1)) (sym (session_end s ss k.modifiers c e)),
        refl,
      )
      | inr e ↦ (
        k',
        step ∙ rw e rest ∙ ap (λ p. some (p.0, k', p.1)) (sym (session_on s ss k.modifiers c e)),
        none,
      )
    ]
