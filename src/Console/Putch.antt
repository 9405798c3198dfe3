-- ===== src/Console/Putch.antt =====
-- putch of TextMode.c: the recursion it satisfies, and the bounds that it keeps.
use red_fox32_old.Base.{
  ℕ, ◌%◌, ◌≤◌, ◌<◌, ◌≡◌, ◌≢◌, refl, ◌∙◌, ◌⊎◌, arith, add32, sub32, ==_false, gt→leb, ge→ltb, ap,
  ℕ_discrete,
}
use red_fox32_old.Console.{
  Console, x_resolution, memory_size, newline, tab, backspace, space, make_room, clamp_origin,
  putch_body, putch, retreat, write_video,
}
use red_fox32_old.Console.Scroll.{
  screen_pos-scroll_screen, scroll_screen-SameOffScreen, SameOffScreen,
}

-- The bounded recursion is the one of the source: `putch` satisfies the equation of its C body,
-- in which the recursive calls are calls of `putch` itself.
pub putch-unroll : (ch colour : ℕ) (c : Console) → putch ch colour c ≡ putch_body putch ch colour c
unfolding putch
putch-unroll ch colour c = ground arith

-- `ScreenPos` is at the start of a cell, or just past the last one.
pub record IsOnScreen (c : Console) : Type 0 where
  pub bound : c.screen_pos ≤ memory_size
  pub cell : c.screen_pos % 2 ≡ 0

-- After the step the position is sound again and only the screen has been written.
pub record Kept (c c' : Console) : Type 0 where
  pub position : IsOnScreen c'
  pub frame : SameOffScreen c.memory c'.memory

pub Kept-refl : {c : Console} → IsOnScreen c → Kept c c
Kept-refl v = record { position = v; frame = λ b h. refl }

pub Kept-trans : {c d e : Console} → Kept c d → Kept d e → Kept c e
Kept-trans p q = record { position = q.position; frame = λ b h. q.frame b h ∙ p.frame b h }

pub make_room-Kept : (c : Console) → IsOnScreen c → Kept c (make_room c)
unfolding make_room
make_room-Kept c v = record {
  position = ground (arith, screen_pos-scroll_screen c);
  frame = λ b h. ground (arith, scroll_screen-SameOffScreen c b h);
}

pub make_room-id : (c : Console) → c.screen_pos < memory_size → make_room c ≡ c
unfolding make_room
make_room-id c h = rw (gt→leb _ _ h)

pub make_room-lt : (c : Console) → IsOnScreen c → (make_room c).screen_pos < memory_size
unfolding make_room
make_room-lt c v = ground (arith, screen_pos-scroll_screen c)

pub make_room-ge : (c : Console) → IsOnScreen c → 0 < c.screen_pos → 2 ≤ (make_room c).screen_pos
unfolding make_room
make_room-ge c v h = ground (arith, screen_pos-scroll_screen c)

-- A plain character is written, with its colour, at the position that has been made free.
pub putch_plain :
    (ch colour : ℕ) (c : Console)
    → ch ≢ newline
    → ch ≢ tab
    → ch ≢ backspace
    → putch ch colour c ≡ write_video colour (write_video ch (make_room c))
unfolding putch_body
putch_plain ch colour c n t b = putch-unroll ch colour c ∙ rw (==_false n, ==_false t, ==_false b)

write_cell-Kept :
    (ch colour : ℕ) (c : Console)
    → IsOnScreen c
    → c.screen_pos < memory_size
    → Kept c (write_video colour (write_video ch c))
write_cell-Kept ch colour c v h = record { position = ground arith; frame = λ b o. ground arith }

putch_plain-Kept :
    (ch colour : ℕ) (c : Console)
    → ch ≢ newline
    → ch ≢ tab
    → ch ≢ backspace
    → IsOnScreen c
    → Kept c (putch ch colour c)
putch_plain-Kept ch colour c n t b v =
    rw (putch_plain ch colour c n t b)
      (Kept-trans room (write_cell-Kept ch colour (make_room c) room.position (make_room-lt c v)))
  where
    room : Kept c (make_room c)
    room = make_room-Kept c v

-- The steps of the three special characters, with the recursive calls left shut.
putch-newline :
    (colour : ℕ) (c : Console)
    → putch newline colour c ≡ record (make_room c) {
      screen_pos =
          sub32
            (add32 (make_room c).screen_pos x_resolution)
            ((make_room c).screen_pos % x_resolution);
    }
unfolding putch_body
putch-newline colour c = putch-unroll newline colour c

putch-tab :
    (colour : ℕ) (c : Console)
    → putch tab colour c
      ≡ putch space colour
          (putch space colour (putch space colour (putch space colour (make_room c))))
unfolding putch_body
putch-tab colour c = putch-unroll tab colour c

pub putch-backspace :
    (colour : ℕ) (c : Console)
    → putch backspace colour c
      ≡ clamp_origin (retreat 2 (putch space colour (retreat 2 (make_room c))))
unfolding putch_body
putch-backspace colour c = putch-unroll backspace colour c

putch-space-Kept : (colour : ℕ) (c : Console) → IsOnScreen c → Kept c (putch space colour c)
putch-space-Kept colour c =
    putch_plain-Kept space colour c (omega arith) (omega arith) (omega arith)

putch-newline-Kept : (colour : ℕ) (c : Console) → IsOnScreen c → Kept c (putch newline colour c)
putch-newline-Kept colour c v = rw (putch-newline colour c) (
    Kept-trans room (record {
      position = newline_position room.position (make_room-lt c v);
      frame = λ b o. refl;
    }))
  where
    room : Kept c (make_room c)
    room = make_room-Kept c v

    newline_position :
        {d : Console}
        → IsOnScreen d
        → d.screen_pos < memory_size
        → IsOnScreen (record d {
          screen_pos = sub32 (add32 d.screen_pos x_resolution) (d.screen_pos % x_resolution);
        })
    newline_position w h = omega arith

putch-tab-Kept : (colour : ℕ) (c : Console) → IsOnScreen c → Kept c (putch tab colour c)
putch-tab-Kept colour c v =
    rw (putch-tab colour c) (then_space (then_space (then_space (then_space (make_room-Kept c v)))))
  where
    then_space : {d : Console} → Kept c d → Kept c (putch space colour d)
    then_space k = Kept-trans k (putch-space-Kept colour _ k.position)

-- A backspace off the origin steps back one cell, blanks it, and leaves all other cells.
pub putch-backspace-erases :
    (colour : ℕ) (c : Console)
    → IsOnScreen c
    → 0 < c.screen_pos
    → putch backspace colour c
      ≡ retreat 2 (write_video colour (write_video space (retreat 2 (make_room c))))
putch-backspace-erases colour c v h =
    putch-backspace colour c
    ∙ ap (λ d. clamp_origin (retreat 2 d))
        (putch_plain space colour (retreat 2 (make_room c)) (omega arith) (omega arith)
            (omega arith)
          ∙ ap (λ d. write_video colour (write_video space d))
              (make_room-id (retreat 2 (make_room c)) (omega (arith, lt, pos))))
    ∙ rw (
        ge→ltb (add32 (sub32 (add32 (add32 (sub32 (make_room c).screen_pos 2) 1) 1) 2) 2)
          (sub32 (add32 (add32 (sub32 (make_room c).screen_pos 2) 1) 1) 2) (omega (arith, lt, pos)))
  where
    lt : (make_room c).screen_pos < memory_size
    lt = make_room-lt c v

    pos : 2 ≤ (make_room c).screen_pos
    pos = make_room-ge c v h

putch-backspace-Kept :
    (colour : ℕ) (c : Console) → IsOnScreen c → 0 < c.screen_pos → Kept c (putch backspace colour c)
putch-backspace-Kept colour c v h =
    rw (putch-backspace-erases colour c v h)
      (Kept-trans room (erase room.position (make_room-lt c v) (make_room-ge c v h)))
  where
    room : Kept c (make_room c)
    room = make_room-Kept c v

    erase :
        {d : Console}
        → IsOnScreen d
        → d.screen_pos < memory_size
        → 2 ≤ d.screen_pos
        → Kept d (retreat 2 (write_video colour (write_video space (retreat 2 d))))
    erase w h k = record { position = omega arith; frame = λ b o. ground arith }

-- Whatever character is printed, from a position on the screen `putch` keeps the position on the
-- screen and at the start of a cell, and writes nowhere but in the video memory; a backspace is
-- excepted where the position is 0.
pub putch-Kept :
    (ch colour : ℕ) (c : Console)
    → IsOnScreen c
    → (ch ≢ backspace) ⊎ (0 < c.screen_pos)
    → Kept c (putch ch colour c)
putch-Kept ch colour c v ok = elim (ℕ_discrete ch newline) [
  | yes n ↦ rw n (putch-newline-Kept colour c v)
  | no n ↦ elim (ℕ_discrete ch tab) [
    | yes t ↦ rw t (putch-tab-Kept colour c v)
    | no t ↦ elim (ℕ_discrete ch backspace) [
      | yes b ↦ rw b (putch-backspace-Kept colour c v (ground arith))
      | no b ↦ putch_plain-Kept ch colour c n t b v
    ]
  ]
]
