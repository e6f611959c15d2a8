-- ===== src/Input/Lines.antt =====
-- src/core/input.c: `bgets` on a line that waits in the buffer.
use mathlib.Core.List.{append_assoc, append-nil}
use elfboot.Base.{
  ℕ, zero, suc, ◌+◌, ◌<◌, ◌≡◌, ◌≢◌, refl, ap, ◌∙◌, false, List, [], ◌∷◌, ◌++◌, length, arith, ◌==◌,
}
use elfboot.Base.Run.{ok}
use elfboot.Input.{Input, key_enter, take_char, bgetch, bgets_loop, bgets}
use elfboot.Input.Queue.{IsInput, queue, queue-length, take_char-queue}

-- With a character in the queue `bgetch` does not wait.
bgetch-queue :
    (keys : List ℕ) (s : Input) (c : ℕ) (q : List ℕ)
    → IsInput s
    → queue s ≡ c ∷ q
    → (s' : Input) × (bgetch keys s ≡ ok (c, s', keys)) × IsInput s' × (queue s' ≡ q)
unfolding bgetch
bgetch-queue keys s c q inside h =
    let (s', run, inside', left) = take_char-queue s inside c q h in
    let some : (s.index == 0) ≡ false = ground (arith, ap length h, queue-length s inside) in
    (s', go keys s' some run, inside', left)
  where
    go :
        (keys : List ℕ) (s' : Input)
        → (s.index == 0) ≡ false
        → take_char s ≡ ok (c, s')
        → bgetch keys s ≡ ok (c, s', keys)
    go [] s' some run = rw (some, run) refl
    go (k ∷ keys) s' some run = rw (some, run) refl

-- No line ends in the text.
abbrev pub OneLine : List ℕ → Type 0
OneLine [] = Unit {0}
OneLine (c ∷ s) = (c ≢ key_enter) × OneLine s

bgets_loop-line :
    (text : List ℕ) (room : ℕ) (line keys q : List ℕ) (s : Input)
    → IsInput s
    → OneLine text
    → queue s ≡ text ++ key_enter ∷ q
    → length text < room
    → (s' : Input) × (bgets_loop room line keys s
        ≡ ok (length (line ++ text) + 1, line ++ text, s', keys))
      × IsInput s'
      × (queue s' ≡ q)
unfolding bgets_loop
bgets_loop-line text zero line keys q s inside one h fits = absurd (omega arith)
bgets_loop-line [] (suc room) line keys q s inside one h fits =
    let (s', run, inside', left) = bgetch-queue keys s key_enter q inside h in
    (s', rw (run, append-nil line) refl, inside', left)
bgets_loop-line (c ∷ text) (suc room) line keys q s inside one h fits =
    let (s', run, inside', left) = bgetch-queue keys s c (text ++ key_enter ∷ q) inside h in
    let goes_on : (c == key_enter) ≡ false = ground (arith, one.0) in
    let (t, more, inside'', rest_) =
      bgets_loop-line text room (line ++ c ∷ []) keys q s' inside' one.1 left (omega arith) in
    (
      t,
      rw (run, goes_on)
          (more ∙ ap (λ l. ok (length l + 1, l, t, keys)) (append_assoc line (c ∷ []) text)),
      inside'',
      rest_,
    )

-- Where a line waits in the buffer of a well-formed state and the caller has room for more than its
-- characters, `bgets` gives the line without its end, and the number of characters that it took.
pub bgets-line :
    (text : List ℕ) (room : ℕ) (keys q : List ℕ) (s : Input)
    → IsInput s
    → OneLine text
    → queue s ≡ text ++ key_enter ∷ q
    → length text < room
    → (s' : Input) × (bgets room keys s ≡ ok (length text + 1, text, s', keys))
      × IsInput s'
      × (queue s' ≡ q)
unfolding bgets
bgets-line text room keys q s inside one h fits =
    bgets_loop-line text room [] keys q s inside one h fits
