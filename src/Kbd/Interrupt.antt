-- ===== src/Kbd/Interrupt.antt =====
-- src/drivers/input/kbd.c: the layouts, the status word and the buffer in the keyboard interrupt.
use elfboot.Base.{
  ℕ, zero, suc, ◌<◌, ◌≡◌, refl, ap, inl, inr, Bool-cases, Option-cases, Bool, true, false, ◌&&◌,
  List, [], ◌∷◌, length, Option, none, some, arith, ltb, leb, ◌==◌, if◌then◌else◌, all_below,
  all_below-lt, ltb→lt,
}
use elfboot.Base.Run.{ok}
use elfboot.Input.{Input}
use elfboot.Input.Queue.{IsInput, queue, Typed, input_copy_to_buffer-Handled}
use elfboot.Kbd.{
  kbd_layout_size, regular, shifted, altgram, clear, key_release, key_shifted, key_altgram,
  key_control, key_capslck, lookup, is_shifted, is_altgram, key_getchar, kbd_handle_release,
  modifier, type_key, kbd_handle_pressed, kbd_interrupt_callback,
}

lookup-inside : (layout : List ℕ) (i : ℕ) → i < length layout → (c : ℕ) × (lookup layout i ≡ ok c)
unfolding lookup
lookup-inside [] i h = absurd (omega arith)
lookup-inside (c ∷ layout) zero h = (c, refl)
lookup-inside (c ∷ layout) (suc i) h = lookup-inside layout i (omega arith)

lengths : (length regular ≡ 96) × (length shifted ≡ 96) × (length altgram ≡ 96)
unfolding regular shifted altgram
lengths = (refl, refl, refl)

-- Every key of the layout size has an entry in each layout.
pub key_getchar-inside :
    (status scancode : ℕ) → scancode < 96 → (c : ℕ) × (key_getchar status scancode ≡ ok c)
unfolding key_getchar
key_getchar-inside status scancode h =
    let (r, s, a) = lengths in
    go (is_shifted status) (is_altgram status) (lookup-inside regular scancode (omega arith))
      (lookup-inside shifted scancode (omega arith)) (lookup-inside altgram scancode (omega arith))
  where
    go :
        (b d : Bool)
        → (c : ℕ) × (lookup regular scancode ≡ ok c)
        → (c : ℕ) × (lookup shifted scancode ≡ ok c)
        → (c : ℕ) × (lookup altgram scancode ≡ ok c)
        → (c : ℕ) × ((if b && d
              then ok 0
              else if b
              then lookup shifted scancode
              else if d
              then lookup altgram scancode
              else lookup regular scancode)
            ≡ ok c)
    go true true r s a = (0, refl)
    go true false r s a = s
    go false true r s a = a
    go false false r s a = r

-- What a key does to the queue: nothing, or a character is typed.
pub data Key (input input' : Input) : Type 0 where
  silent : input' ≡ input → Key input input'
  types : (c : ℕ) (taken : Bool) → Typed c (queue input) taken (queue input') → Key input input'

type_key-Key :
    (status : ℕ) (input : Input) (scancode : ℕ)
    → IsInput input
    → (input' : Input) × (type_key status input scancode ≡ ok input')
      × IsInput input'
      × Key input input'
unfolding type_key
type_key-Key status input scancode inside = elim (Bool-cases (leb kbd_layout_size scancode)) [
  | inl e ↦ (input, rw e refl, inside, silent refl)
  | inr e ↦
      let (c, char) = key_getchar-inside status scancode (ground arith) in
      elim (Bool-cases (c == 0)) [
        | inl z ↦ (input, rw (e, char, z) refl, inside, silent refl)
        | inr z ↦
            let (taken, input', run, inside', typed) =
              input_copy_to_buffer-Handled input inside c in
            (input', rw (e, char, z, run) refl, inside', types c taken typed)
      ]
]

abbrev keeps_byte : ℕ → ℕ → Bool
keeps_byte status code =
    ltb (kbd_handle_release status code) 256
    && elim (modifier status code) [ none ↦ true | some status' ↦ ltb status' 256 ]

abbrev masked_below : ℕ → Bool
masked_below scancode = ltb (clear scancode 0x80) 128

abbrev value_or : ℕ → Option ℕ → ℕ
value_or d none = d
value_or d (some n) = n

-- Both by evaluation at every status byte and every scan code.
keep_byte : all_below 256 (λ s. all_below 128 (keeps_byte s)) ≡ true
unfolding all_below kbd_handle_release modifier key_shifted key_altgram key_control key_capslck
keep_byte = refl

masked : all_below 256 masked_below ≡ true
unfolding all_below
masked = refl

module _ (status : ℕ) (byte : status < 256) where
  byte-kept :
      (code : ℕ)
      → code < 128
      → (kbd_handle_release status code < 256)
        × ((status' : ℕ) → modifier status code ≡ some status' → status' < 256)
  byte-kept code h =
      let all = all_below-lt 256 (λ s. all_below 128 (keeps_byte s)) keep_byte status byte in
      let here = all_below-lt 128 (keeps_byte status) all code h in
      go (kbd_handle_release status code) (modifier status code) here
    where
      go :
          (r : ℕ) (m : Option ℕ)
          → (ltb r 256 && elim m [ none ↦ true | some status' ↦ ltb status' 256 ]) ≡ true
          → (r < 256) × ((status' : ℕ) → m ≡ some status' → status' < 256)
      go r none e = (ground arith, λ status' h. cc)
      go r (some m) e =
          let small : m < 256 = ground arith in
          (ground arith, λ status' h. omega (arith, ap (value_or m) h))

  pressed-Key :
      (input : Input) (code : ℕ)
      → IsInput input
      → code < 128
      → (status' : ℕ) × (input' : Input) × (kbd_handle_pressed status input code
          ≡ ok (status', input'))
        × (status' < 256)
        × IsInput input'
        × Key input input'
  unfolding kbd_handle_pressed
  pressed-Key input code inside h = elim (Option-cases (modifier status code)) [
    | inr (status', e) ↦
        (status', input, rw e refl, (byte-kept code h).1 status' e, inside, silent refl)
    | inl e ↦
        let (input', run, inside', key) = type_key-Key status input code inside in
        (status, input', rw (e, run) refl, byte, inside', key)
  ]

  -- For a scan code and a status of one byte and a well-formed buffer, the interrupt handler reads
  -- and writes inside its tables. The status stays a byte, the buffer stays well-formed, and the
  -- queue stays the same or is what typing one character makes of it.
  pub kbd_interrupt_callback-Key :
      (input : Input) (scancode : ℕ)
      → IsInput input
      → scancode < 256
      → (status' : ℕ) × (input' : Input) × (kbd_interrupt_callback status input scancode
          ≡ ok (status', input'))
        × (status' < 256)
        × IsInput input'
        × Key input input'
  unfolding kbd_interrupt_callback
  kbd_interrupt_callback-Key input scancode inside h =
      let code = clear scancode 0x80 in
      let below : code < 128 = ltb→lt code 128 (all_below-lt 256 masked_below masked scancode h) in
      elim (Bool-cases (key_release scancode)) [
        | inl e ↦ (
          kbd_handle_release status code,
          input,
          rw e refl,
          (byte-kept code below).0,
          inside,
          silent refl,
        )
        | inr e ↦
            let (status', input', run, byte', inside', key) = pressed-Key input code inside below in
            (status', input', rw e run, byte', inside', key)
      ]
