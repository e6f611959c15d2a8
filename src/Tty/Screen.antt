-- ===== src/Tty/Screen.antt =====
-- src/drivers/char/tty.c: the cursor, scrolling and writing on a well-formed state.
use elfboot.Base.{
  ◌≢◌, ◌^◌, ℕ, ◌+◌, ◌-◌, ◌*◌, ◌/◌, ◌%◌, ◌≤◌, ◌<◌, ◌≡◌, refl, ap, ◌∙◌, inl, inr, Bool-cases, true,
  false, ◌&&◌, List, [], ◌∷◌, arith, ltb, leb, ◌==◌, if◌then◌else◌,
}
use elfboot.Base.Run.{ok, fault}
use elfboot.Math.{div}
use elfboot.Math.Divide.{arch_div_lem}
use elfboot.Tty.{
  Tty, tty_char, console_unit, filled, memset16, move_cells, tty_scroll, make_room, at, put_unit,
  put_char, write_loop, tty_write,
}

-- The cursor is on the screen, or at the start of the line below it.
pub record IsTty (t : Tty) : Type 0 where
  pub wide : t.cons.width ≡ 80
  pub high : t.cons.height ≡ 25
  pub column : t.cons.xpos < 80
  pub row : t.cons.ypos ≤ 25

module _ (t : Tty) (wide : t.cons.width ≡ 80) (high : t.cons.height ≡ 25) where
  abbrev moved : ℕ → ℕ
  moved i = if leb 0 i && ltb i 1920 then t.screen (80 + (i - 0)) else t.screen i

  abbrev scrolled : ℕ → ℕ
  scrolled = filled moved 1920 (tty_char t.cons 32) 80

  -- On a console of 80 by 25 cells scrolling by one line ends without a fault, moves each line but
  -- the first one up, and clears the last one.
  pub tty_scroll_lem :
      (s : Tty) × (tty_scroll t 1 ≡ ok s)
      × (s.cons ≡ t.cons)
      × ((i : ℕ) → i < 1920 → s.screen i ≡ t.screen (i + 80))
      × ((i : ℕ) → 1920 ≤ i → i < 2000 → s.screen i ≡ tty_char t.cons 32)
  unfolding tty_scroll move_cells memset16
  tty_scroll_lem = (
    record t { screen = scrolled },
    rw (wide, high) refl,
    refl,
    λ i h.
        (let before : leb 1920 i ≡ false = ground arith in
          let low : ltb i 1920 ≡ true = ground arith in
          let start : leb 0 i ≡ true = ground arith in
          let up : 80 + (i - 0) ≡ i + 80 = omega arith in rw (before, start, low, up) refl),
    λ i h g.
        (let from : leb 1920 i ≡ true = ground arith in
          let to : ltb i 2000 ≡ true = ground arith in rw (from, to) refl),
  )

module _ (t : Tty) (inside : IsTty t) where
  -- The cursor is on the screen.
  abbrev pub OnScreen : Tty → Type 0
  OnScreen s = IsTty s × (s.cons.ypos < 25)

  make_room-OnScreen : (s : Tty) × (make_room t ≡ ok s) × OnScreen s
  unfolding make_room
  make_room-OnScreen = elim (Bool-cases (leb t.cons.height t.cons.ypos)) [
    | inr e ↦
        let low : t.cons.ypos < 25 = ground (arith, inside.high) in (t, rw e refl, (inside, low))
    | inl e ↦
        let (s, run, same, _, _) = tty_scroll_lem t inside.wide inside.high in
        let width : s.cons.width ≡ t.cons.width = ap (λ c. c.width) same in
        let height : s.cons.height ≡ t.cons.height = ap (λ c. c.height) same in
        let x : s.cons.xpos ≡ t.cons.xpos = ap (λ c. c.xpos) same in
        let y : s.cons.ypos ≡ t.cons.ypos = ap (λ c. c.ypos) same in
        (
          record s { cons = record s.cons { ypos = s.cons.ypos - 1 } },
          rw (e, run) refl,
          (
            record {
              wide = width ∙ inside.wide;
              high = height ∙ inside.high;
              column = omega (arith, x, inside.column);
              row = omega (arith, y, inside.row);
            },
            omega (arith, y, inside.row),
          ),
        )
  ]

module _ (t : Tty) (inside : IsTty t) (below : t.cons.ypos < 25) where
  put_unit-IsTty : (c : ℕ) → (s : Tty) × (put_unit t c ≡ ok s) × IsTty s
  unfolding put_unit memset16
  put_unit-IsTty c =
      let fits : leb (t.cons.xpos + t.cons.width * t.cons.ypos + 1) 2000 ≡ true =
        rw inside.wide (ground (arith, inside.column)) in
      elim (Bool-cases (leb 80 (t.cons.xpos + 1))) [
        | inl e ↦ (
          record {
            cons = at t.cons 0 (t.cons.ypos + 1);
            screen =
                filled t.screen (console_unit t.cons t.cons.xpos t.cons.ypos) (tty_char t.cons c) 1;
          },
          rw (fits, e) refl,
          record {
            wide = inside.wide;
            high = inside.high;
            column = omega arith;
            row = omega arith;
          },
        )
        | inr e ↦ (
          record {
            cons = at t.cons (t.cons.xpos + 1) t.cons.ypos;
            screen =
                filled t.screen (console_unit t.cons t.cons.xpos t.cons.ypos) (tty_char t.cons c) 1;
          },
          rw (fits, e) refl,
          record {
            wide = inside.wide;
            high = inside.high;
            column = ground arith;
            row = omega arith;
          },
        )
      ]

  put_char-IsTty : (c : ℕ) → (s : Tty) × (put_char t c ≡ ok s) × IsTty s
  unfolding put_char
  put_char-IsTty c = elim (Bool-cases (c == 13)) [
    | inl e ↦ (
      record t { cons = at t.cons 0 t.cons.ypos },
      rw e refl,
      record { wide = inside.wide; high = inside.high; column = omega arith; row = omega arith },
    )
    | inr e ↦ elim (Bool-cases (c == 10)) [
      | inl f ↦ (
        record t { cons = at t.cons 0 (t.cons.ypos + 1) },
        rw (e, f) refl,
        record { wide = inside.wide; high = inside.high; column = omega arith; row = omega arith },
      )
      | inr f ↦ let (s, run, ok_) = put_unit-IsTty c in (s, rw (e, f) run, ok_)
    ]
  ]

write_loop-IsTty :
    (buffer : List ℕ) (t : Tty) → IsTty t → (s : Tty) × (write_loop t buffer ≡ ok s) × IsTty s
unfolding write_loop
write_loop-IsTty [] t inside = (t, refl, inside)
write_loop-IsTty (c ∷ buffer) t inside = elim (Bool-cases (c == 0)) [
  | inl e ↦ (t, rw e refl, inside)
  | inr e ↦
      let (room, scroll, on) = make_room-OnScreen t inside in
      let (next, put, inside') = put_char-IsTty room on.0 on.1 c in
      let (s, run, inside'') = write_loop-IsTty buffer next inside' in
      (s, rw (e, scroll, put) run, inside'')
]

-- From a well-formed state, writing any text at an offset in the first 26 lines ends without an
-- access outside the frame buffer, and leaves a well-formed state.
pub tty_write-IsTty :
    (t : Tty) (offset : ℕ) (buffer : List ℕ)
    → IsTty t
    → offset < 2080
    → (s : Tty) × (tty_write t offset buffer ≡ ok s) × IsTty s
unfolding tty_write div
tty_write-IsTty t offset buffer inside low = elim (Bool-cases (offset == 0)) [
  | inl e ↦ let (s, run, inside') = write_loop-IsTty buffer t inside in (s, rw e run, inside')
  | inr e ↦
      let moved = record t { cons = at t.cons (offset % 80) (offset / 80) } in
      let start : IsTty moved = record {
        wide = inside.wide;
        high = inside.high;
        column = omega arith;
        row = omega arith;
      } in
      let (s, run, inside') = write_loop-IsTty buffer moved start in
      let split = arch_div_lem offset 80 (omega arith) (omega arith) (omega arith) in
      (s, rw (e, split) run, inside')
]

-- From a well-formed state, writing text at an offset behind the first 26 lines, below `2 ^ 31`,
-- accesses a cell outside the frame buffer, where the text starts with no control character.
pub tty_write-fault :
    (t : Tty) (offset c : ℕ) (buffer : List ℕ)
    → IsTty t
    → 2080 ≤ offset
    → offset < 2 ^ 31
    → c ≢ 0
    → c ≢ 10
    → c ≢ 13
    → tty_write t offset (c ∷ buffer) ≡ fault
unfolding tty_write div write_loop make_room put_char put_unit memset16
tty_write-fault t offset c buffer inside far small text line_feed carriage_return =
    let moved = record t { cons = at t.cons (offset % 80) (offset / 80) } in
    let (s, run, same, _, _) = tty_scroll_lem moved inside.wide inside.high in
    let some_offset : (offset == 0) ≡ false = ground arith in
    let some_text : (c == 0) ≡ false = ground arith in
    let no_line : (c == 10) ≡ false = ground arith in
    let no_return : (c == 13) ≡ false = ground arith in
    let below : leb t.cons.height (offset / 80) ≡ true = ground (arith, inside.high) in
    let width : s.cons.width ≡ 80 = ap (λ d. d.width) same ∙ inside.wide in
    let x : s.cons.xpos ≡ offset % 80 = ap (λ d. d.xpos) same in
    let y : s.cons.ypos ≡ offset / 80 = ap (λ d. d.ypos) same in
    let behind : leb (s.cons.xpos + s.cons.width * (s.cons.ypos - 1) + 1) 2000 ≡ false =
      rw (width, x, y) (ground arith) in
    let split = arch_div_lem offset 80 (omega arith) (omega arith) (omega arith) in
    rw (some_offset, split, some_text, below, run, no_return, no_line, behind)
