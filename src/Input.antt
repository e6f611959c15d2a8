-- ===== src/Input.antt =====
-- src/core/input.c and src/include/elfboot/input.h: the buffer of typed characters. The keys to come
-- are a list: what the keyboard interrupts store while `bgetch` waits.
pub mod Queue
pub mod Lines
mod Tests
use elfboot.Base.{
  ℕ, zero, suc, ◌+◌, ◌-◌, Bool, true, false, not, ◌&&◌, List, [], ◌∷◌, ◌++◌, length, set, take,
  drop, ltb, leb, ◌==◌, if◌then◌else◌,
}
use elfboot.Base.Run.{Run, ok, fault, out_of_fuel, ◌>>=◌, ◌>>◌, assert}
use elfboot.Str.{first, rest}

abbrev pub key_backspace : ℕ
key_backspace = 8

abbrev pub key_enter : ℕ
key_enter = 10

abbrev pub keyboard_buffer_size : ℕ
keyboard_buffer_size = 127

-- `keybuffer` and `keybuffer_index`.
pub record Input : Type 0 where
  pub keybuffer : List ℕ
  pub index : ℕ

unfoldable pub input_verify : Input → ℕ → Bool
input_verify s c =
    let is_backspace = c == key_backspace in
    if leb keyboard_buffer_size s.index && not is_backspace
    then false
    else if s.index == 0 && is_backspace
    then false
    else true

-- `keybuffer[i] = c`
unfoldable pub write : List ℕ → ℕ → ℕ → Run (List ℕ)
write buf i c = assert (ltb i (length buf)) >> ok (set buf i c)

-- Whether the character was taken (the result is 0, not -EFAULT), and the state.
unfoldable pub input_copy_to_buffer : Input → ℕ → Run (Bool × Input)
input_copy_to_buffer s c =
    if not (input_verify s c)
    then ok (false, s)
    else if c == key_backspace
    then (do
      buf ← write s.keybuffer (s.index - 1) 0
      ok (true, record { keybuffer = buf; index = s.index - 1 }))
    else (do
      buf ← write s.keybuffer s.index c
      ok (true, record { keybuffer = buf; index = s.index + 1 }))

-- `memcpy(buf, buf + 1, n)`, front to back.
unfoldable pub shift : List ℕ → ℕ → Run (List ℕ)
shift buf n = assert (ltb n (length buf)) >> ok (take n (drop 1 buf) ++ drop n buf)

-- `__bgetch`, which its callers call with a character in the buffer.
unfoldable pub take_char : Input → Run (ℕ × Input)
take_char s = do
  buf ← shift s.keybuffer s.index
  ok (first s.keybuffer, record { keybuffer = buf; index = s.index - 1 })

unfoldable pub bgetch_noblock : Input → Run (ℕ × Input)
bgetch_noblock s = if s.index == 0 then ok (0, s) else take_char s

-- `bgetch`, with the keys to come; when they are used up and the buffer is empty it waits for ever.
unfoldable pub bgetch : List ℕ → Input → Run (ℕ × Input × List ℕ)
bgetch [] s = if s.index == 0 then out_of_fuel else do (c, s') ← take_char s; ok (c, s', [])
bgetch (k ∷ keys) s =
    if s.index == 0
    then (do (taken, s') ← input_copy_to_buffer s k; bgetch keys s')
    else do (c, s') ← take_char s; ok (c, s', k ∷ keys)

-- The loop of `bgets`, with the characters that fit, and those stored so far: the result and the
-- line.
unfoldable pub bgets_loop : ℕ → List ℕ → List ℕ → Input → Run (ℕ × List ℕ × Input × List ℕ)
bgets_loop zero line keys s = ok (length line, line, s, keys)
bgets_loop (suc room) line keys s = do
  (c, s', keys') ← bgetch keys s
  if c == key_enter
      then ok (length line + 1, line, s', keys')
      else bgets_loop room (line ++ c ∷ []) keys' s'

unfoldable pub bgets : ℕ → List ℕ → Input → Run (ℕ × List ℕ × Input × List ℕ)
bgets length keys s = bgets_loop length [] keys s
