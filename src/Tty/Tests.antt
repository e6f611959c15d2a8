-- ===== src/Tty/Tests.antt =====
-- Runs of the text screen, and the theorems at a concrete screen.
use elfboot.Base.{◌≡◌, refl, true, [], ◌∷◌, map, arith}
use elfboot.Base.Run.{ok, fault, ◌>>=◌}
use elfboot.Math.{div, arch_div, arch_div_upper, divl}
use elfboot.Tty.{
  Console, Tty, tty_char, memset16, move_cells, tty_scroll, make_room, put_unit, put_char,
  write_loop, tty_write,
}
use elfboot.Tty.Screen.{IsTty, tty_write-IsTty, tty_write-fault}

-- Gray on black, with the cursor on the last line.
abbrev console : Console
console = record {
  active = true;
  width = 80;
  height = 25;
  xpos = 78;
  ypos = 24;
  fgcolor = 7;
  bgcolor = 0;
}

abbrev screen : Tty
screen = record { cons = console; screen = λ i. i }

screen-IsTty : IsTty screen
screen-IsTty = record { wide = refl; high = refl; column = omega arith; row = omega arith }

-- "abc" fills the last line, and the third character scrolls the screen.
scrolls :
    (do
      t ← tty_write screen 0 (97 ∷ 98 ∷ 99 ∷ [])
      ok (map t.screen (0 ∷ 1918 ∷ 1919 ∷ 1920 ∷ 1921 ∷ [])))
    ≡ ok (80 ∷ 0x0761 ∷ 0x0762 ∷ 0x0763 ∷ 0x0720 ∷ [])
unfolding tty_write write_loop make_room tty_scroll move_cells memset16 put_char put_unit tty_char
scrolls = refl

-- Behind the 26th line the character lands outside the frame buffer.
outside : tty_write screen 2080 (97 ∷ []) ≡ fault
unfolding tty_write write_loop make_room tty_scroll move_cells memset16 put_char put_unit tty_char
    div arch_div arch_div_upper divl
outside = refl

-- A character above 127 takes the whole attribute byte.
signed : tty_char console 0xA1 ≡ 0xFFA1
unfolding tty_char
signed = refl

tty_write-IsTty_example : (s : Tty) × (tty_write screen 2000 (97 ∷ 10 ∷ 98 ∷ []) ≡ ok s) × IsTty s
tty_write-IsTty_example = tty_write-IsTty screen 2000 (97 ∷ 10 ∷ 98 ∷ []) screen-IsTty (omega arith)

tty_write-fault_example : tty_write screen 4000 (97 ∷ []) ≡ fault
tty_write-fault_example =
    tty_write-fault screen 4000 97 [] screen-IsTty (omega arith) (omega arith) (omega arith)
      (omega arith) (omega arith)
