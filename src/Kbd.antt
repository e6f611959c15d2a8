-- ===== src/Kbd.antt =====
-- src/drivers/input/kbd.c and src/include/drivers/kbd.h: the keyboard driver with the German layout.
-- A scan code that the interrupt handler reads from the port is its argument.
pub mod Interrupt
pub mod Modifiers
mod Tests
use Prim.Native.Nat.{bit_and, bit_or, bit_xor}
use elfboot.Base.{
  ℕ, ◌-◌, Bool, true, false, not, ◌&&◌, ◌||◌, List, [], ◌∷◌, Option, none, some, get_elem?, leb,
  ◌==◌, if◌then◌else◌,
}
use elfboot.Base.Run.{Run, ok, fault, ◌>>=◌}
use elfboot.Input.{Input, input_copy_to_buffer}

abbrev pub kbd_meta_shift : ℕ
kbd_meta_shift = 0x01

abbrev pub kbd_meta_ctrl : ℕ
kbd_meta_ctrl = 0x02

abbrev pub kbd_meta_capslock : ℕ
kbd_meta_capslock = 0x08

abbrev pub kbd_meta_altgr : ℕ
kbd_meta_altgr = 0x40

abbrev pub kbd_layout_size : ℕ
kbd_layout_size = 96

abbrev inv : ℕ
inv = 0

unfoldable pub regular : List ℕ
regular =
    0 ∷ 0 ∷ 49 ∷ 50 ∷ 51 ∷ 52 ∷ 53 ∷ 54 ∷ 55 ∷ 56 ∷ 57 ∷ 48 ∷ 0 ∷ 63 ∷ 8 ∷ 9 ∷ 113 ∷ 119 ∷ 101 ∷ 114
    ∷ 116 ∷ 122 ∷ 117 ∷ 105 ∷ 111 ∷ 112 ∷ 0 ∷ 43 ∷ 10 ∷ 0 ∷ 97 ∷ 115 ∷ 100 ∷ 102 ∷ 103 ∷ 104 ∷ 106
    ∷ 107 ∷ 108 ∷ 0 ∷ 0 ∷ 0 ∷ 0 ∷ 35 ∷ 121 ∷ 120 ∷ 99 ∷ 118 ∷ 98 ∷ 110 ∷ 109 ∷ 44 ∷ 46 ∷ 45 ∷ 0 ∷ 0
    ∷ 0 ∷ 32 ∷ 0 ∷ 0 ∷ 0 ∷ 0 ∷ 0 ∷ 0 ∷ 0 ∷ 0 ∷ 0 ∷ 0 ∷ 0 ∷ 0 ∷ 0 ∷ 0 ∷ 161 ∷ 0 ∷ 0 ∷ 162 ∷ 0 ∷ 163
    ∷ 0 ∷ 0 ∷ 164 ∷ 0 ∷ 0 ∷ 0 ∷ 0 ∷ 0 ∷ 0 ∷ 0 ∷ 0 ∷ 0 ∷ 0 ∷ 0 ∷ 0 ∷ 0 ∷ 0 ∷ 0 ∷ []

unfoldable pub shifted : List ℕ
shifted =
    0 ∷ 0 ∷ 33 ∷ 34 ∷ 83 ∷ 36 ∷ 37 ∷ 38 ∷ 47 ∷ 40 ∷ 41 ∷ 61 ∷ 63 ∷ 96 ∷ 8 ∷ 9 ∷ 81 ∷ 87 ∷ 69 ∷ 82
    ∷ 84 ∷ 90 ∷ 85 ∷ 73 ∷ 79 ∷ 80 ∷ 63 ∷ 42 ∷ 10 ∷ 0 ∷ 65 ∷ 83 ∷ 68 ∷ 70 ∷ 71 ∷ 72 ∷ 74 ∷ 75 ∷ 76
    ∷ 0 ∷ 0 ∷ 0 ∷ 0 ∷ 39 ∷ 89 ∷ 88 ∷ 67 ∷ 86 ∷ 66 ∷ 78 ∷ 77 ∷ 59 ∷ 58 ∷ 95 ∷ 0 ∷ 0 ∷ 0 ∷ 32 ∷ 0 ∷ 0
    ∷ 0 ∷ 0 ∷ 0 ∷ 0 ∷ 0 ∷ 0 ∷ 0 ∷ 0 ∷ 0 ∷ 0 ∷ 0 ∷ 0 ∷ 161 ∷ 0 ∷ 0 ∷ 162 ∷ 0 ∷ 163 ∷ 0 ∷ 0 ∷ 164 ∷ 0
    ∷ 0 ∷ 0 ∷ 0 ∷ 0 ∷ 0 ∷ 0 ∷ 0 ∷ 0 ∷ 0 ∷ 0 ∷ 0 ∷ 0 ∷ 0 ∷ 0 ∷ []

unfoldable pub altgram : List ℕ
altgram =
    0 ∷ 0 ∷ 0 ∷ 0 ∷ 0 ∷ 0 ∷ 0 ∷ 0 ∷ 123 ∷ 91 ∷ 93 ∷ 125 ∷ 92 ∷ 0 ∷ 8 ∷ 9 ∷ 64 ∷ 0 ∷ 0 ∷ 0 ∷ 0 ∷ 0
    ∷ 0 ∷ 0 ∷ 0 ∷ 0 ∷ 0 ∷ 126 ∷ 10 ∷ 0 ∷ 0 ∷ 0 ∷ 0 ∷ 0 ∷ 0 ∷ 0 ∷ 0 ∷ 0 ∷ 0 ∷ 0 ∷ 0 ∷ 0 ∷ 0 ∷ 0 ∷ 0
    ∷ 0 ∷ 0 ∷ 0 ∷ 0 ∷ 0 ∷ 0 ∷ 0 ∷ 0 ∷ 0 ∷ 0 ∷ 0 ∷ 0 ∷ 32 ∷ 0 ∷ 0 ∷ 0 ∷ 0 ∷ 0 ∷ 0 ∷ 0 ∷ 0 ∷ 0 ∷ 0 ∷ 0
    ∷ 0 ∷ 0 ∷ 0 ∷ 161 ∷ 0 ∷ 0 ∷ 162 ∷ 0 ∷ 163 ∷ 0 ∷ 0 ∷ 164 ∷ 0 ∷ 0 ∷ 0 ∷ 0 ∷ 0 ∷ 0 ∷ 0 ∷ 0 ∷ 0 ∷ 0
    ∷ 0 ∷ 0 ∷ 0 ∷ 0 ∷ 0 ∷ []

-- The status word without the bits of `mask`.
abbrev pub clear : ℕ → ℕ → ℕ
clear status mask = bit_and status (0xffff_ffff - mask)

unfoldable pub key_release : ℕ → Bool
key_release scancode = not (bit_and scancode 0x80 == 0)

unfoldable pub key_shifted : ℕ → Bool
key_shifted scancode = scancode == 0x2A || scancode == 0x36

unfoldable pub key_altgram : ℕ → Bool
key_altgram scancode = scancode == 0x38

unfoldable pub key_control : ℕ → Bool
key_control scancode = scancode == 0x1D

unfoldable pub key_capslck : ℕ → Bool
key_capslck scancode = scancode == 0x3A

-- Reading a layout, of 96 characters.
unfoldable pub lookup : List ℕ → ℕ → Run ℕ
lookup layout i = elim (get_elem? layout i) [ none ↦ fault | some c ↦ ok c ]

unfoldable pub is_shifted : ℕ → Bool
is_shifted status =
    let shift = not (bit_and status kbd_meta_shift == 0) in
    if not (bit_and status kbd_meta_capslock == 0) then not shift else shift

unfoldable pub is_altgram : ℕ → Bool
is_altgram status = not (bit_and status kbd_meta_altgr == 0)

unfoldable pub key_getchar : ℕ → ℕ → Run ℕ
key_getchar status scancode =
    if is_shifted status && is_altgram status
    then ok inv
    else if is_shifted status
    then lookup shifted scancode
    else if is_altgram status
    then lookup altgram scancode
    else lookup regular scancode

unfoldable pub kbd_handle_release : ℕ → ℕ → ℕ
kbd_handle_release status scancode =
    if key_shifted scancode
    then clear status kbd_meta_shift
    else if key_altgram scancode
    then clear status kbd_meta_altgr
    else if key_control scancode
    then clear status kbd_meta_ctrl
    else status

-- The status that a pressed key leaves, where it is a modifier.
unfoldable pub modifier : ℕ → ℕ → Option ℕ
modifier status scancode =
    if key_shifted scancode
    then some (bit_or status kbd_meta_shift)
    else if key_altgram scancode
    then some (bit_or status kbd_meta_altgr)
    else if key_control scancode
    then some (bit_or status kbd_meta_ctrl)
    else if key_capslck scancode
    then some (bit_xor status kbd_meta_capslock)
    else none

-- A pressed key that is no modifier.
unfoldable pub type_key : ℕ → Input → ℕ → Run Input
type_key status input scancode = if leb kbd_layout_size scancode then ok input else (do
  c ← key_getchar status scancode
  if c == 0 then ok input else do (_, input') ← input_copy_to_buffer input c; ok input')

abbrev pub unless_modifier : Option ℕ → Input → Run (ℕ × Input) → Run (ℕ × Input)
unless_modifier (some status') input typed = ok (status', input)
unless_modifier none input typed = typed

unfoldable pub kbd_handle_pressed : ℕ → Input → ℕ → Run (ℕ × Input)
kbd_handle_pressed status input scancode =
    unless_modifier (modifier status scancode) input
      (do input' ← type_key status input scancode; ok (status, input'))

unfoldable pub kbd_interrupt_callback : ℕ → Input → ℕ → Run (ℕ × Input)
kbd_interrupt_callback status input scancode =
    let code = clear scancode 0x80 in
    if key_release scancode
    then ok (kbd_handle_release status code, input)
    else kbd_handle_pressed status input code
