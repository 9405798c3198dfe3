-- ===== src/Console/Scroll.antt =====
-- ScrollScreen of TextMode.c: what the copying loop leaves in memory.
use red_fox32_old.Base.{
  ℕ, zero, suc, ◌+◌, ◌<◌, ◌≡◌, refl, ap₂, ◌∙◌, ◌-◌, Bool, false, ◌&&◌, arith, ltb, leb,
  if◌then◌else◌, word,
}
use red_fox32_old.Machine.Memory.{Memory, poke}
use red_fox32_old.Console.{
  Console, video_memory, x_resolution, memory_size, scroll_loop, scroll_screen,
}

-- `b` is one of the `n` addresses from `lo` on.
abbrev pub within : (lo n b : ℕ) → Bool
within lo n b = leb lo b && ltb b (lo + n)

-- The loop with the read pointer one line ahead.
scroll_loop_lem :
    (n w : ℕ) (m : Memory) (b : ℕ)
    → w + 160 + n < word
    → scroll_loop n w (w + 160) m b
      ≡ (if within w n b then m (b + 160) else if within (w + 160) n b then 0 else m b)
unfolding scroll_loop
scroll_loop_lem zero w m b h = ground arith
scroll_loop_lem (suc n) w m b h =
    ap₂ (λ i j. scroll_loop n i j (poke (poke m w (m (w + 160))) (w + 160) 0) b) (omega arith)
      (omega arith)
    ∙ scroll_loop_lem n (w + 1) (poke (poke m w (m (w + 160))) (w + 160) 0) b (omega arith)
    ∙ ground arith

-- The effect of `ScrollScreen(1)` on each address: the screen moves up by a line, its last line is
-- cleared, and nothing else changes.
pub scroll_screen-lines :
    (c : Console) (b : ℕ)
    → (scroll_screen 1 c).memory b ≡ (
        if within video_memory (memory_size - x_resolution) b
        then c.memory (b + x_resolution)
        else if within (video_memory + memory_size - x_resolution) x_resolution b
        then 0
        else c.memory b)
unfolding scroll_screen
scroll_screen-lines c b = scroll_loop_lem 3840 video_memory c.memory b (omega arith) ∙ ground arith

-- What lies outside the video memory is as it was.
abbrev pub SameOffScreen : (before after : Memory) → Type 0
SameOffScreen m m' = (b : ℕ) → within video_memory memory_size b ≡ false → m' b ≡ m b

pub scroll_screen-SameOffScreen : (c : Console) → SameOffScreen c.memory (scroll_screen 1 c).memory
scroll_screen-SameOffScreen c b h = ground (arith, scroll_screen-lines c b)

pub screen_pos-scroll_screen : (c : Console) → (scroll_screen 1 c).screen_pos ≡ c.screen_pos
unfolding scroll_screen
screen_pos-scroll_screen c = refl
