-- ===== src/Tests/ConsoleTests.antt =====
-- TextMode.c on a blank screen.
use red_fox32_old.Base.{ℕ, ◌-◌, ◌≡◌, refl, inl, arith, codes, word}
use red_fox32_old.Console.{
  Console, video_memory, memory_size, newline, backspace, space, scroll_screen, putch, puts,
}
use red_fox32_old.Console.Scroll.{scroll_screen-lines}
use red_fox32_old.Console.Putch.{IsOnScreen, Kept, putch-Kept}
use red_fox32_old.Console.Text.{row, puts-plain}
use red_fox32_old.Console.Backspace.{backspace_at_origin}

abbrev blank : Console
blank = record { memory = λ _. 0; screen_pos = 0 }

-- The position is past the last cell.
abbrev full : Console
full = record { memory = λ _. 65; screen_pos = memory_size }

blank-IsOnScreen : IsOnScreen blank
blank-IsOnScreen = record { bound = omega arith; cell = refl }

full-IsOnScreen : IsOnScreen full
full-IsOnScreen = record { bound = omega arith; cell = refl }

putch-Kept_example : Kept full (putch newline 7 full)
putch-Kept_example = putch-Kept newline 7 full full-IsOnScreen (inl (omega arith))

puts-plain_example :
    ((puts (codes "ok") 7 blank).screen_pos ≡ 4)
    × ((b : ℕ)
        → (puts (codes "ok") 7 blank).memory b ≡ row video_memory (codes "ok") 7 blank.memory b)
puts-plain_example =
    puts-plain (codes "ok") 7 blank
      (
        (λ e. omega arith),
        (λ e. omega arith),
        (λ e. omega arith),
        (λ e. omega arith),
        ((λ e. omega arith), (λ e. omega arith), (λ e. omega arith), (λ e. omega arith), tt),
      )
      (omega arith)

scroll_screen-lines_example : (scroll_screen 1 full).memory video_memory ≡ 65
scroll_screen-lines_example = scroll_screen-lines full video_memory

backspace_at_origin_example :
    ((putch backspace 7 blank).screen_pos ≡ word - 162)
    × ((putch backspace 7 blank).memory (video_memory - 162) ≡ space)
    × ((putch backspace 7 blank).memory (video_memory - 161) ≡ 7)
    × (¬ IsOnScreen (putch backspace 7 blank))
backspace_at_origin_example = backspace_at_origin 7 blank refl
