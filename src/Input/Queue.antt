-- ===== src/Input/Queue.antt =====
-- src/core/input.c: the buffer as a queue of characters.
use elfboot.Base.{
  ℕ, zero, suc, ◌+◌, ◌-◌, ◌≤◌, ◌<◌, ◌≡◌, ◌≢◌, refl, sym, ap, ◌∙◌, subst, inl, inr, Bool-cases, Bool,
  true, false, not, ◌&&◌, List, [], ◌∷◌, ◌++◌, length, length-append, length-take, length-drop,
  length-set, set, take, drop, arith, ltb, leb, ◌==◌, if◌then◌else◌,
}
use elfboot.Base.Run.{ok}
use elfboot.Str.{first, rest}
use elfboot.Input.{
  Input, key_backspace, keyboard_buffer_size, input_verify, write, input_copy_to_buffer, shift,
  take_char,
}

-- The buffer has 128 bytes, and the index leaves the last one free.
pub record IsInput (s : Input) : Type 0 where
  pub size : length s.keybuffer ≡ 128
  pub bound : s.index ≤ 127

abbrev pub queue : Input → List ℕ
queue s = take s.index s.keybuffer

take-set_snoc :
    (buf : List ℕ) (i c : ℕ) → i < length buf → take (suc i) (set buf i c) ≡ take i buf ++ c ∷ []
take-set_snoc [] i c h = absurd (omega arith)
take-set_snoc (x ∷ buf) zero c h = refl
take-set_snoc (x ∷ buf) (suc i) c h = ap (◌∷◌ x) (take-set_snoc buf i c (omega arith))

take-set : (buf : List ℕ) (i c : ℕ) → take i (set buf i c) ≡ take i buf
take-set [] zero c = refl
take-set [] (suc i) c = refl
take-set (x ∷ buf) zero c = refl
take-set (x ∷ buf) (suc i) c = ap (◌∷◌ x) (take-set buf i c)

abbrev pub drop_last : List ℕ → List ℕ
drop_last [] = []
drop_last (x ∷ []) = []
drop_last (x ∷ y ∷ s) = x ∷ drop_last (y ∷ s)

drop_last-take : (buf : List ℕ) (i : ℕ) → i < length buf → drop_last (take (suc i) buf) ≡ take i buf
drop_last-take [] i h = absurd (omega arith)
drop_last-take (x ∷ buf) zero h = refl
drop_last-take (x ∷ []) (suc i) h = absurd (omega arith)
drop_last-take (x ∷ y ∷ buf) (suc i) h = ap (◌∷◌ x) (drop_last-take (y ∷ buf) i (omega arith))

take_inner : (i : ℕ) (a b : List ℕ) → i < length a → take i (take (suc i) a ++ b) ≡ take i a
take_inner zero a b h = refl
take_inner (suc i) [] b h = absurd (omega arith)
take_inner (suc i) (x ∷ a) b h = ap (◌∷◌ x) (take_inner i a b (omega arith))

-- What a typed character does to the queue: a backspace takes the last one back, others go to the
-- end unless 127 wait. The Boolean says whether it was taken.
pub data Typed (c : ℕ) (q : List ℕ) : Bool → List ℕ → Type 0 where
  erased : c ≡ key_backspace → q ≢ [] → Typed c q true (drop_last q)
  nothing : c ≡ key_backspace → q ≡ [] → Typed c q false q
  stored : c ≢ key_backspace → length q < keyboard_buffer_size → Typed c q true (q ++ c ∷ [])
  full : c ≢ key_backspace → length q ≡ keyboard_buffer_size → Typed c q false q

module _ (s : Input) (inside : IsInput s) where
  pub queue-length : length (queue s) ≡ s.index
  queue-length = omega (arith, length-take s.index s.keybuffer, inside.size, inside.bound)

  writes : (i c : ℕ) → i < 128 → write s.keybuffer i c ≡ ok (set s.keybuffer i c)
  unfolding write
  writes i c h =
      let fits : ltb i (length s.keybuffer) ≡ true = ground (arith, inside.size) in rw fits refl

  verify-backspace : (c : ℕ) → (c == key_backspace) ≡ true → input_verify s c ≡ not (s.index == 0)
  unfolding input_verify
  verify-backspace c e = rw e (go (leb keyboard_buffer_size s.index) (s.index == 0))
    where
      go :
          (b z : Bool)
          → (if b && not true then false else if z && true then false else true) ≡ not z
      go true true = refl
      go true false = refl
      go false true = refl
      go false false = refl

  verify-other :
      (c : ℕ)
      → (c == key_backspace) ≡ false
      → input_verify s c ≡ not (leb keyboard_buffer_size s.index)
  unfolding input_verify
  verify-other c e = rw e (go (leb keyboard_buffer_size s.index) (s.index == 0))
    where
      go :
          (b z : Bool)
          → (if b && not false then false else if z && false then false else true) ≡ not b
      go true z = refl
      go false true = refl
      go false false = refl

  -- What handling a character leads to.
  abbrev pub Handled : ℕ → Type 0
  Handled c =
      (taken : Bool) × (s' : Input) × (input_copy_to_buffer s c ≡ ok (taken, s'))
      × IsInput s'
      × Typed c (queue s) taken (queue s')

  backspace-Handled : (c : ℕ) → (c == key_backspace) ≡ true → Handled c
  unfolding input_copy_to_buffer
  backspace-Handled c e =
      let back : c ≡ key_backspace = ground arith in
      let verify = verify-backspace c e in
      elim (Bool-cases (s.index == 0)) [
        | inl z ↦
            let zero_index : s.index ≡ 0 = ground arith in
            let empty : queue s ≡ [] = ap (λ i. take i s.keybuffer) zero_index in
            (false, s, rw (verify, z) refl, inside, nothing back empty)
        | inr z ↦
            let i = s.index - 1 in
            let one : s.index ≡ suc i = ground arith in
            let nonempty : queue s ≢ [] = λ h. omega (arith, ap length h, queue-length, one) in
            let shorter : drop_last (queue s) ≡ take i (set s.keybuffer i 0) =
              ap (λ n. drop_last (take n s.keybuffer)) one
              ∙ drop_last-take s.keybuffer i (omega (arith, inside.size, inside.bound))
              ∙ sym (take-set s.keybuffer i 0) in
            (
              true,
              record { keybuffer = set s.keybuffer i 0; index = i },
              rw (verify, z, e, writes i 0 (omega (arith, inside.bound))) refl,
              record {
                size = length-set s.keybuffer i 0 ∙ inside.size;
                bound = omega (arith, inside.bound);
              },
              subst (Typed c (queue s) true) shorter (erased back nonempty),
            )
      ]

  character-Handled : (c : ℕ) → (c == key_backspace) ≡ false → Handled c
  unfolding input_copy_to_buffer
  character-Handled c e =
      let other : c ≢ key_backspace = ground arith in
      let verify = verify-other c e in
      let bound = inside.bound in
      elim (Bool-cases (leb keyboard_buffer_size s.index)) [
        | inl f ↦
            let all : s.index ≡ 127 = ground arith in
            (false, s, rw (verify, f) refl, inside, full other (queue-length ∙ all))
        | inr f ↦
            let room : s.index < 127 = ground arith in
            let more : s.index + 1 ≡ suc s.index = omega arith in
            let longer : take (s.index + 1) (set s.keybuffer s.index c) ≡ queue s ++ c ∷ [] =
              ap (λ n. take n (set s.keybuffer s.index c)) more
              ∙ take-set_snoc s.keybuffer s.index c (omega (arith, inside.size)) in
            (
              true,
              record { keybuffer = set s.keybuffer s.index c; index = s.index + 1 },
              rw (verify, f, e, writes s.index c (omega arith)) refl,
              record { size = length-set s.keybuffer s.index c ∙ inside.size; bound = omega arith },
              subst (Typed c (queue s) true) (sym longer)
                  (stored other (omega (arith, queue-length))),
            )
      ]

  -- In a well-formed state a typed character is handled without a fault, the state stays
  -- well-formed, and the queue changes as `Typed` says.
  pub input_copy_to_buffer-Handled : (c : ℕ) → Handled c
  input_copy_to_buffer-Handled c = elim (Bool-cases (c == key_backspace)) [
    | inl e ↦ backspace-Handled c e
    | inr e ↦ character-Handled c e
  ]

  -- In a well-formed state with a character in the queue `__bgetch` ends without a fault, gives the
  -- first character, and leaves a well-formed state with the others.
  pub take_char-queue :
      (c : ℕ) (q : List ℕ)
      → queue s ≡ c ∷ q
      → (s' : Input) × (take_char s ≡ ok (c, s')) × IsInput s' × (queue s' ≡ q)
  unfolding take_char shift
  take_char-queue c q h = go s.keybuffer s.index inside.size inside.bound h
    where
      go :
          (buf : List ℕ) (i : ℕ)
          → length buf ≡ 128
          → i ≤ 127
          → take i buf ≡ c ∷ q
          → (s' : Input) × (take_char (record { keybuffer = buf; index = i }) ≡ ok (c, s'))
            × IsInput s'
            × (queue s' ≡ q)
      go buf zero size bound e = cc
      go [] (suc i) size bound e = cc
      go (x ∷ buf) (suc i) size bound e =
          let fits : ltb (suc i) (length (x ∷ buf)) ≡ true = ground arith in
          let less : suc i - 1 ≡ i = omega arith in
          let shifted = take (suc i) buf ++ drop (suc i) (x ∷ buf) in
          let same : x ≡ c = ap first e in
          (
            record { keybuffer = shifted; index = i },
            rw (fits, less, same) refl,
            record {
              size = omega (
                arith,
                length-append (take (suc i) buf) (drop i buf),
                length-take (suc i) buf,
                length-drop i buf,
              );
              bound = omega arith;
            },
            take_inner i buf (drop i buf) (omega arith) ∙ ap rest e,
          )
