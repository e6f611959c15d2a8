-- ===== src/Kbd/Tests.antt =====
-- Runs of the keyboard interrupt, and the theorems at a concrete state.
use elfboot.Base.{ℕ, ◌<◌, ◌≡◌, refl, [], ◌∷◌, replicate, arith}
use elfboot.Base.Run.{ok}
use elfboot.Input.{Input, input_verify, write, input_copy_to_buffer}
use elfboot.Input.Queue.{IsInput, queue}
use elfboot.Kbd.{
  regular, shifted, key_release, key_shifted, key_altgram, key_control, key_capslck, lookup,
  is_shifted, is_altgram, key_getchar, modifier, type_key, kbd_handle_release, kbd_handle_pressed,
  kbd_interrupt_callback,
}
use elfboot.Kbd.Interrupt.{Key, kbd_interrupt_callback-Key}

abbrev empty : Input
empty = record { keybuffer = replicate 128 0; index = 0 }

-- The key of "q", with and without shift.
letters :
    (a : Input) × (b : Input) × (kbd_interrupt_callback 0 empty 0x10 ≡ ok (0, a))
    × (queue a ≡ 113 ∷ [])
    × (kbd_interrupt_callback 1 empty 0x10 ≡ ok (1, b))
    × (queue b ≡ 81 ∷ [])
unfolding kbd_interrupt_callback kbd_handle_pressed kbd_handle_release modifier key_release
    key_shifted key_altgram key_control key_capslck type_key key_getchar is_shifted is_altgram
    lookup regular shifted input_copy_to_buffer input_verify write
letters = (_, _, refl, refl, refl, refl)

kbd_interrupt_callback-Key_example :
    (status' : ℕ) × (input' : Input) × (kbd_interrupt_callback 1 empty 0x10 ≡ ok (status', input'))
    × (status' < 256)
    × IsInput input'
    × Key empty input'
kbd_interrupt_callback-Key_example =
    kbd_interrupt_callback-Key 1 (omega arith) empty 0x10
      (record { size = refl; bound = omega arith }) (omega arith)
