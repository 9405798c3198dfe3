-- ===== src/Console/Backspace.antt =====
-- The `\b` case of `putch` at the top left of the screen.
use red_fox32_old.Base.{ℕ, ◌-◌, ◌≡◌, ◌∙◌, ap, refl, arith, word}
use red_fox32_old.Machine.Memory.{poke}
use red_fox32_old.Console.{
  Console, video_memory, backspace, space, putch, make_room, retreat, write_video, clamp_origin,
}
use red_fox32_old.Console.Scroll.{screen_pos-scroll_screen}
use red_fox32_old.Console.Putch.{IsOnScreen, putch_plain, putch-backspace}

module _ (colour : ℕ) (c : Console) (origin : c.screen_pos ≡ 0) where
  -- The console in which the nested `putch(' ')` writes.
  wild : Console
  wild = make_room (retreat 2 (make_room c))

  wild_pos : wild.screen_pos ≡ word - 162
  unfolding wild make_room
  wild_pos = ground (arith, screen_pos-scroll_screen c, screen_pos-scroll_screen (retreat 2 c))

  backspace-wild :
      putch backspace colour c
      ≡ clamp_origin (retreat 2 (write_video colour (write_video space wild)))
  unfolding wild
  backspace-wild =
      putch-backspace colour c
      ∙ ap (λ d. clamp_origin (retreat 2 d))
          (putch_plain space colour (retreat 2 (make_room c)) (omega arith) (omega arith)
            (omega arith))

  final : Console
  final = record {
    memory = poke (poke wild.memory (video_memory - 162) space) (video_memory - 161) colour;
    screen_pos = word - 162;
  }

  backspace-final : putch backspace colour c ≡ final
  unfolding final
  backspace-final = backspace-wild ∙ rw (wild_pos)

  -- A backspace at position 0 leaves the position at 2^32 - 162, off the screen, and writes a blank
  -- and its colour at the two addresses 162 and 161 bytes below the video memory.
  pub backspace_at_origin :
      ((putch backspace colour c).screen_pos ≡ word - 162)
      × ((putch backspace colour c).memory (video_memory - 162) ≡ space)
      × ((putch backspace colour c).memory (video_memory - 161) ≡ colour)
      × (¬ IsOnScreen (putch backspace colour c))
  unfolding final
  backspace_at_origin = rw backspace-final (refl, refl, refl, λ v. omega arith)
