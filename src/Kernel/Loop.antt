-- ===== src/Kernel/Loop.antt =====
-- The main loop of KMain in Kernel.c: every event that the keyboard leaves is taken and handled.
pub mod Typing
pub mod Strokes
pub mod Session
use red_fox32_old.Base.{ℕ, List, [], ◌∷◌, Option, some}
use red_fox32_old.Base.Partial.{◌>>=◌}
use red_fox32_old.Machine.Ports.{Trace, Device}
use red_fox32_old.Console.{Console}
use red_fox32_old.Keyboard.{Keyboard, Interrupt, keyboard_get_event}
use red_fox32_old.Kernel.{
  Step, goes_on, shutdown, reboot, handle_event, shutdown_kernel, reboot_kernel,
}

-- One list of interrupts for each call of Keyboard_GetEvent, up to the last one given or to the event
-- that ends the loop.
pub main_loop :
    Device → ℕ → List (List Interrupt) → Keyboard → Console → Option (Step × Keyboard × Console)
main_loop device fuel [] k c = some (goes_on, k, c)
main_loop device fuel (is ∷ rounds) k c = do
  r ← keyboard_get_event device fuel is k
  let (step, c) = handle_event r.0 c
  elim step [
    | goes_on ↦ main_loop device fuel rounds r.1 c
    | shutdown ↦ some (shutdown, r.1, c)
    | reboot ↦ some (reboot, r.1, c)
  ]
