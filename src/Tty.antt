-- ===== src/Tty.antt =====
-- src/drivers/char/tty.c and the console of src/include/elfboot/console.h: the text screen of 80 by
-- 25 cells. A cell is a 16-bit word, the frame buffer a function of the cell's index, and an access
-- outside its 2000 cells is a fault. What is sent to the ports of the cursor is left out.
pub mod Screen
mod Tests
use Prim.Native.Nat.{bit_or}
use elfboot.Base.{
  ℕ, zero, suc, ◌+◌, ◌-◌, ◌*◌, ◌%◌, ◌^◌, Bool, true, false, not, ◌&&◌, Option, none, some, List, [],
  ◌∷◌, ltb, leb, ◌==◌, if◌then◌else◌,
}
use elfboot.Base.Run.{Run, ok, fault, ◌>>=◌, ◌>>◌, assert}
use elfboot.Math.{div}

abbrev pub tty_max_width : ℕ
tty_max_width = 80

abbrev pub tty_max_height : ℕ
tty_max_height = 25

abbrev pub cells : ℕ
cells = tty_max_width * tty_max_height

-- The members that change; `xunit` and `yunit` are 1, and `bpu` is 2.
pub record Console : Type 0 where
  pub active : Bool
  pub width : ℕ
  pub height : ℕ
  pub xpos : ℕ
  pub ypos : ℕ
  pub fgcolor : ℕ
  pub bgcolor : ℕ

pub record Tty : Type 0 where
  pub cons : Console
  pub screen : ℕ → ℕ

-- `(uint16_t)c` of a signed character.
abbrev pub widen : ℕ → ℕ
widen c = if ltb c 128 then c else c + 0xFF00

unfoldable pub tty_char : Console → ℕ → ℕ
tty_char cons c =
    let color = bit_or cons.fgcolor (cons.bgcolor * 2 ^ 4) in
    bit_or (widen c) (color * 2 ^ 8) % 2 ^ 16

-- The index of a cell.
abbrev pub console_unit : Console → ℕ → ℕ → ℕ
console_unit cons xpos ypos = xpos + cons.width * ypos

abbrev pub console_line : Console → ℕ → ℕ
console_line cons ypos = console_unit cons 0 ypos

abbrev pub filled : (ℕ → ℕ) → ℕ → ℕ → ℕ → ℕ → ℕ
filled screen dst val n i = if leb dst i && ltb i (dst + n) then val else screen i

-- `memset16(dst, val, 2 * n)`
unfoldable pub memset16 : (ℕ → ℕ) → ℕ → ℕ → ℕ → Run (ℕ → ℕ)
memset16 screen dst val n = assert (leb (dst + n) cells) >> ok (filled screen dst val n)

-- `memmove(dst, src, 2 * n)`
unfoldable pub move_cells : (ℕ → ℕ) → ℕ → ℕ → ℕ → Run (ℕ → ℕ)
move_cells screen dst src n =
    assert (leb (dst + n) cells && leb (src + n) cells)
    >> ok (λ i. if leb dst i && ltb i (dst + n) then screen (src + (i - dst)) else screen i)

-- `tty_scroll` by `units` lines, up.
unfoldable pub tty_scroll : Tty → ℕ → Run Tty
tty_scroll t units =
    let cons = t.cons in
    if units == 0 then ok t else (do
      moved ←
          move_cells t.screen (console_line cons 0) (console_line cons units)
            (cons.width * (cons.height - units))
      blank ←
          memset16 moved (console_line cons (cons.height - units)) (tty_char cons 32)
            (cons.width * units)
      ok (record t { screen = blank }))

-- The scrolling case at the start of a round.
unfoldable pub make_room : Tty → Run Tty
make_room t =
    if leb t.cons.height t.cons.ypos
    then (do s ← tty_scroll t 1; ok (record s { cons = record s.cons { ypos = s.cons.ypos - 1 } }))
    else ok t

abbrev pub at : Console → ℕ → ℕ → Console
at cons xpos ypos = record cons { xpos = xpos; ypos = ypos }

-- A character that is no control character.
unfoldable pub put_unit : Tty → ℕ → Run Tty
put_unit t c =
    let cons = t.cons in
    do
      screen ← memset16 t.screen (console_unit cons cons.xpos cons.ypos) (tty_char cons c) 1
      ok (record {
        cons =
            if leb tty_max_width (cons.xpos + 1)
            then at cons 0 (cons.ypos + 1)
            else at cons (cons.xpos + 1) cons.ypos;
        screen = screen;
      })

unfoldable pub put_char : Tty → ℕ → Run Tty
put_char t c =
    if c == 13
    then ok (record t { cons = at t.cons 0 t.cons.ypos })
    else if c == 10
    then ok (record t { cons = at t.cons 0 (t.cons.ypos + 1) })
    else put_unit t c

-- The loop of `__tty_write`, over the characters of the buffer.
unfoldable pub write_loop : Tty → List ℕ → Run Tty
write_loop t [] = ok t
write_loop t (c ∷ buffer) =
    if c == 0 then ok t else (do room ← make_room t; next ← put_char room c; write_loop next buffer)

unfoldable pub tty_write : Tty → ℕ → List ℕ → Run Tty
tty_write t offset buffer = if offset == 0 then write_loop t buffer else (do
  (ypos, xpos) ← div offset tty_max_width
  write_loop (record t { cons = at t.cons xpos ypos }) buffer)

pub record Attr : Type 0 where
  pub active : Bool
  pub width : ℕ
  pub height : ℕ
  pub xpos : ℕ
  pub ypos : ℕ
  pub fgcolor : ℕ
  pub bgcolor : ℕ

unfoldable pub tty_reset : Console → Option Attr → Console
tty_reset cons none = cons
tty_reset cons (some attr) = record cons {
  xpos = attr.xpos;
  ypos = attr.ypos;
  fgcolor = attr.fgcolor;
  bgcolor = attr.bgcolor;
  active = if attr.active then true else cons.active;
}

unfoldable pub tty_clean : Tty → Option Attr → Run Tty
tty_clean t attr =
    let cons = tty_reset t.cons attr in
    do
      screen ←
          memset16 t.screen (console_line cons 0) (tty_char cons 32) (cons.width * tty_max_height)
      ok (record {
        cons = elim attr [
          | none ↦ record cons { active = false }
          | some a ↦ tty_reset cons (some a)
        ];
        screen = screen;
      })

unfoldable pub tty_gattr : Console → Attr
tty_gattr cons = record {
  active = cons.active;
  width = cons.width;
  height = cons.height;
  xpos = cons.xpos;
  ypos = cons.ypos;
  fgcolor = cons.fgcolor;
  bgcolor = cons.bgcolor;
}
