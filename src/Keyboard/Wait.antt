-- ===== src/Keyboard/Wait.antt =====
-- Keyboard_GetEvent and Keyboard_getch of Keyboard.c: the loops that wait for a key.
use red_fox32_old.Base.{
  zero, suc, replicate, ◌++◌, ℕ, ◌≡◌, refl, arith, true, false, Option, none, some, List, [], ◌∷◌,
  inl, inr, Bool-cases,
}
use red_fox32_old.Base.Partial.{◌>>=◌, >>=-eq-some}
use red_fox32_old.Machine.Ports.{Device}
use red_fox32_old.Keyboard.{
  keyboard_handler, keyboard, Keyboard, KeyboardEvent, Interrupt, other, wake, no_event,
  keyboard_get_event, Round, goes_on, getch_loop, keyboard_getch,
}

-- No keyboard interrupt comes between the assignment and the test of a round.
abbrev pub NoneLate : List Round → Type 0
NoneLate [] = Unit {0}
NoneLate (r ∷ rs) = (r.late ≡ other) × NoneLate rs

bind-none :
    {A B : Type 0} (m : Option A) (f : A → Option B) → ((a : A) → f a ≡ none) → (m >>= f) ≡ none
bind-none none f h = refl
bind-none (some a) f h = h a

getch_loop-stuck :
    (device : Device) (fuel : ℕ) (rs : List Round) (c : ℕ) (k : Keyboard)
    → NoneLate rs
    → goes_on c k.previous_event ≡ true
    → getch_loop device fuel rs c k ≡ none
unfolding getch_loop
getch_loop-stuck device fuel [] c k late go = rw go
getch_loop-stuck device fuel (r ∷ rs) c k late go =
    rw (go, getch_loop)
      (bind-none (wake device fuel r.first k) _ λ k'. rw late.0 (
        getch_loop-stuck device fuel rs k'.previous_event.character
          (record k' { previous_event = record k'.previous_event { ready = false } }) late.1
          (cleared k'.previous_event.character k'.previous_event)))
  where
    cleared : (c : ℕ) (e : KeyboardEvent) → goes_on c (record e { ready = false }) ≡ true
    cleared c e = ground arith

-- Keyboard_getch does not return, whatever interrupts wake it, unless a keyboard interrupt falls
-- between the assignment that clears the event and the test that follows it.
pub keyboard_getch-stuck :
    (device : Device) (fuel : ℕ) (rs : List Round) (k : Keyboard)
    → NoneLate rs
    → keyboard_getch device fuel rs k ≡ none
unfolding keyboard_getch
keyboard_getch-stuck device fuel rs k late = getch_loop-stuck device fuel rs 0 k late refl

-- An event that Keyboard_GetEvent returns was ready, and has been taken: the one kept is empty.
pub keyboard_get_event-takes :
    (device : Device) (fuel : ℕ) (is : List Interrupt) (k : Keyboard) (e : KeyboardEvent)
    (k' : Keyboard)
    → keyboard_get_event device fuel is k ≡ some (e, k')
    → (e.ready ≡ true) × (k'.previous_event ≡ no_event)
unfolding keyboard_get_event
keyboard_get_event-takes device fuel [] k e k' h = ground arith
keyboard_get_event-takes device fuel (i ∷ is) k e k' h = elim (Bool-cases k.previous_event.ready) [
  | inl r ↦ ready_now r (taken r)
  | inr r ↦
      let (k1, _, rest) =
        >>=-eq-some (wake device fuel i k) (keyboard_get_event device fuel is) (waits r) in
      keyboard_get_event-takes device fuel is k1 e k' rest
]
  where
    taken :
        k.previous_event.ready ≡ true
        → ◌≡◌ {A = Option (KeyboardEvent × Keyboard)}
            (some (k.previous_event, record k { previous_event = no_event }))
            (some (e, k'))
    taken r = rw (r, keyboard_get_event) at h

    waits :
        k.previous_event.ready ≡ false
        → (wake device fuel i k >>= keyboard_get_event device fuel is) ≡ some (e, k')
    waits r = rw (r, keyboard_get_event) at h

    ready_now :
        k.previous_event.ready ≡ true
        → ◌≡◌ {A = Option (KeyboardEvent × Keyboard)}
            (some (k.previous_event, record k { previous_event = no_event }))
            (some (e, k'))
        → (e.ready ≡ true) × (k'.previous_event ≡ no_event)
    ready_now r q = ground arith

-- Keyboard_GetEvent waits through any number of other interrupts, and returns the event that the next
-- keyboard interrupt leaves ready; the one kept is then empty.
pub keyboard_get_event-waits :
    (device : Device) (fuel n : ℕ) (is : List Interrupt) (k k' : Keyboard)
    → k.previous_event.ready ≡ false
    → keyboard_handler device fuel k ≡ some k'
    → k'.previous_event.ready ≡ true
    → keyboard_get_event device fuel (replicate n other ++ keyboard ∷ is) k
      ≡ some (k'.previous_event, record k' { previous_event = no_event })
unfolding keyboard_get_event
keyboard_get_event-waits device fuel zero is k k' before handled after =
    rw (before, keyboard_get_event, handled) (ready_now is)
  where
    ready_now :
        (is : List Interrupt)
        → keyboard_get_event device fuel is k'
          ≡ some (k'.previous_event, record k' { previous_event = no_event })
    ready_now [] = rw after
    ready_now (i ∷ is) = simp (after, keyboard_get_event)
keyboard_get_event-waits device fuel (suc n) is k k' before handled after =
    rw (before, keyboard_get_event)
      (keyboard_get_event-waits device fuel n is k k' before handled after)
