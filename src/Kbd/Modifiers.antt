-- ===== src/Kbd/Modifiers.antt =====
-- src/drivers/input/kbd.c: the shift and caps lock keys.
use Prim.Native.Nat.{bit_and, bit_or, bit_xor}
use elfboot.Base.{
  ℕ, ◌+◌, ◌<◌, ◌≡◌, refl, ◌⊎◌, inl, inr, Bool, true, false, not, ◌&&◌, ◌==◌, arith, all_below,
  all_below-lt,
}
use elfboot.Base.Run.{ok}
use elfboot.Input.{Input}
use elfboot.Kbd.{
  kbd_meta_shift, kbd_meta_capslock, clear, key_release, key_shifted, key_altgram, key_control,
  key_capslck, is_shifted, kbd_handle_release, modifier, kbd_handle_pressed, kbd_interrupt_callback,
}

abbrev pub is_capslock : ℕ → Bool
is_capslock status = not (bit_and status kbd_meta_capslock == 0)

abbrev same : Bool → Bool → Bool
same true b = b
same false b = not b

same-eq : (a b : Bool) → same a b ≡ true → a ≡ b
same-eq true true h = refl
same-eq true false h = cc
same-eq false true h = cc
same-eq false false h = refl

abbrev down : ℕ → ℕ
down s = bit_or s kbd_meta_shift

abbrev up : ℕ → ℕ
up s = clear s kbd_meta_shift

abbrev toggle : ℕ → ℕ
toggle s = bit_xor s kbd_meta_capslock

abbrev shifts : ℕ → Bool
shifts s =
    same (is_shifted (down s)) (not (is_capslock s)) && same (is_shifted (up s)) (is_capslock s)

abbrev toggles : ℕ → Bool
toggles s = same (is_shifted (toggle s)) (not (is_shifted s)) && toggle (toggle s) == s

all_shift : all_below 256 shifts ≡ true
unfolding all_below is_shifted
all_shift = refl

all_toggle : all_below 256 toggles ≡ true
unfolding all_below is_shifted
all_toggle = refl

both : (a b : Bool) → (a && b) ≡ true → (a ≡ true) × (b ≡ true)
both true true h = (refl, refl)
both true false h = cc
both false b h = cc

module _ (status : ℕ) (byte : status < 256) (input : Input) where
  -- For a status of one byte, pressing a shift key selects the shifted layout, and releasing it the
  -- regular one; with caps lock the other way round. The buffer stays the same.
  pub shift_key :
      (scancode : ℕ)
      → (scancode ≡ 0x2A) ⊎ (scancode ≡ 0x36)
      → (pressed released : ℕ) × (kbd_interrupt_callback status input scancode
          ≡ ok (pressed, input))
        × (kbd_interrupt_callback status input (scancode + 0x80) ≡ ok (released, input))
        × (is_shifted pressed ≡ not (is_capslock status))
        × (is_shifted released ≡ is_capslock status)
  unfolding kbd_interrupt_callback kbd_handle_pressed kbd_handle_release modifier key_release
      key_shifted
  shift_key scancode which =
      let (low, high) =
        both (same (is_shifted (down status)) (not (is_capslock status)))
          (same (is_shifted (up status)) (is_capslock status))
          (all_below-lt 256 shifts all_shift status byte) in
      let on = same-eq _ _ low in
      let off = same-eq _ _ high in
      elim which [
        | inl e ↦ (down status, up status, rw e refl, rw e refl, on, off)
        | inr e ↦ (down status, up status, rw e refl, rw e refl, on, off)
      ]

  -- For a status of one byte, pressing caps lock swaps the shifted and the regular layout, pressing
  -- it again restores the status, and the buffer stays the same.
  pub caps_lock_key :
      (toggled : ℕ) × (kbd_interrupt_callback status input 0x3A ≡ ok (toggled, input))
      × (is_shifted toggled ≡ not (is_shifted status))
      × (kbd_interrupt_callback toggled input 0x3A ≡ ok (status, input))
  unfolding kbd_interrupt_callback kbd_handle_pressed kbd_handle_release modifier key_release
      key_shifted key_altgram key_control key_capslck
  caps_lock_key =
      let (swapped, back) =
        both (same (is_shifted (toggle status)) (not (is_shifted status)))
          (toggle (toggle status) == status) (all_below-lt 256 toggles all_toggle status byte) in
      let restored : toggle (toggle status) ≡ status = ground arith in
      (toggle status, refl, same-eq _ _ swapped, rw restored refl)
