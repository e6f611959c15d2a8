-- ===== src/Input/Tests.antt =====
-- Runs of the input buffer, and the theorems at a concrete buffer.
use elfboot.Base.{ℕ, ◌+◌, ◌≡◌, refl, Bool, List, [], ◌∷◌, length, replicate, arith}
use elfboot.Base.Run.{ok, out_of_fuel}
use elfboot.Input.{
  Input, input_verify, write, input_copy_to_buffer, shift, take_char, bgetch, bgets,
}
use elfboot.Input.Queue.{IsInput, queue, Typed, input_copy_to_buffer-Handled, take_char-queue}
use elfboot.Input.Lines.{bgets-line}

-- "a", the end of a line, and "b" wait.
abbrev waiting : Input
waiting = record { keybuffer = 97 ∷ 10 ∷ 98 ∷ replicate 125 0; index = 3 }

abbrev line : List ℕ
line = 97 ∷ []

waiting-IsInput : IsInput waiting
waiting-IsInput = record { size = refl; bound = omega arith }

abbrev empty : Input
empty = record { keybuffer = replicate 128 0; index = 0 }

-- `bgetch` takes keys as they come: "x", a backspace, "y".
waits : (s : Input) × (bgetch (8 ∷ 121 ∷ []) empty ≡ ok (121, s, [])) × (queue s ≡ [])
unfolding bgetch input_copy_to_buffer input_verify write take_char shift
waits = (_, refl, refl)

waits_for_ever : bgetch [] empty ≡ out_of_fuel
unfolding bgetch
waits_for_ever = refl

input_copy_to_buffer-Handled_example :
    (taken : Bool) × (s' : Input) × (input_copy_to_buffer waiting 99 ≡ ok (taken, s'))
    × IsInput s'
    × Typed 99 (queue waiting) taken (queue s')
input_copy_to_buffer-Handled_example = input_copy_to_buffer-Handled waiting waiting-IsInput 99

take_char-queue_example :
    (s' : Input) × (take_char waiting ≡ ok (97, s')) × IsInput s' × (queue s' ≡ 10 ∷ 98 ∷ [])
take_char-queue_example = take_char-queue waiting waiting-IsInput 97 (10 ∷ 98 ∷ []) refl

bgets-line_example :
    (s' : Input) × (bgets 80 [] waiting ≡ ok (length line + 1, line, s', []))
    × IsInput s'
    × (queue s' ≡ 98 ∷ [])
bgets-line_example =
    bgets-line line 80 [] (98 ∷ []) waiting waiting-IsInput (omega arith, tt) refl (omega arith)
