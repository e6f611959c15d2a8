-- ===== src/Printf/Roundtrip.antt =====
-- src/core/printf.c with src/core/string.c: `vsprintf_put_number`, and `strtoul` on its text.
use mathlib.Core.List.{append-nil}
use elfboot.Base.{
  ℕ, zero, suc, ◌-◌, ◌%◌, ◌^◌, ◌≤◌, ◌<◌, ◌≡◌, refl, sym, ap, subst, ◌∙◌, inl, inr, Bool-cases, Bool,
  true, false, ◌&&◌, List, [], ◌∷◌, ◌++◌, length, arith, leb, ◌==◌, if◌then◌else◌,
}
use elfboot.Base.Int.{ℤ, pos, negsuc, pos_part}
use elfboot.Base.Run.{ok}
use elfboot.Str.{strtoul, digit_value, is_digit, is_xdigit}
use elfboot.Str.Numbers.{strtoul_lem}
use elfboot.Printf.{FormatStruct, minus, digits_loop, reverse_onto, vsprintf_put_number}
use elfboot.Printf.Digits.{digits_loop_lem}
use elfboot.Printf.Number.{layout, sign_text, put_digits_lem}
use elfboot.Printf.Written.{
  length-reverse_onto, AllChars-AllDigits, unprefixed, no_digit, layout_none, is_negative,
  magnitude, Digits, Written, Collected, Collected-Digits,
}

module _ (base : ℕ) (two : 2 ≤ base) (sixteen : base ≤ 16) where
  -- The digits of a number of 64 bits, a zero for 0.
  digits_of :
      (size : ℕ)
      → size < 2 ^ 64
      → (ds : List ℕ) × ((if size == 0 then ok (48 ∷ []) else digits_loop 65 size base) ≡ ok ds)
        × Collected base size ds
  unfolding digit_value is_digit is_xdigit
  digits_of zero small =
      let below : digit_value 48 < base = omega arith in
      (
        48 ∷ [],
        refl,
        record {
          value = omega arith;
          chars = (((refl, below), refl, omega arith), tt);
          shape = inl (refl, refl);
        },
      )
  digits_of (suc n) small =
      let nonzero : (suc n == 0) ≡ false = ground arith in
      let (ds, run, value, chars, top) = digits_loop_lem base two sixteen 64 (suc n) small small in
      (ds, rw nonzero run, record { value = value; chars = chars; shape = inr (omega arith, top) })

  -- The digits of a list read from its end.
  written :
      (f : FormatStruct) (n : ℕ) (out : FormatStruct) (ds : List ℕ)
      → Collected base (magnitude f n) ds
      → out.buf
        ≡ f.buf
          ++ layout f.flags.pad_neg f.flags.pad_nul
              (pos_part f.pad - length ds - length (sign_text (is_negative f n)))
              (sign_text (is_negative f n))
              (reverse_onto ds [])
      → Written base f n out
  written f n out ds collected placed =
      let same : length ds ≡ length (reverse_onto ds []) =
        omega (arith, length-reverse_onto ds []) in
      record {
        text = reverse_onto ds [];
        digits = Collected-Digits base (magnitude f n) ds collected;
        placed =
            placed
            ∙ ap
                (λ (w : ℕ).
                  f.buf
                  ++ layout f.flags.pad_neg f.flags.pad_nul
                      (pos_part f.pad - w - length (sign_text (is_negative f n)))
                      (sign_text (is_negative f n)) (reverse_onto ds []))
                same;
      }

  minus_one : (p : ℤ) (i : ℕ) → pos_part (minus p 1) - i ≡ pos_part p - i - 1
  minus_one (pos a) i = ground arith
  minus_one (negsuc a) i = omega arith

  above : (b : Bool) (n : ℕ) → (b && leb (2 ^ 63) n) ≡ true → 2 ^ 63 ≤ n
  above true n h = ground arith
  above false n h = cc

  -- In a base from 2 to 16, with a negative precision and for a pattern of 64 bits,
  -- `vsprintf_put_number` ends. It writes the digits of the number with capital letters, or with
  -- `SGN_POS` and a negative number those of its magnitude behind a `-`: a zero for 0, and else no
  -- zero as the highest digit. They stand in a field as wide as the padding says: spaces or zeros in
  -- front, or spaces behind.
  pub vsprintf_put_number-Written :
      (k : ℕ) (f : FormatStruct) (n p : ℕ)
      → n < 2 ^ 64
      → f.pre ≡ negsuc p
      → (out : FormatStruct) × (vsprintf_put_number (suc k) f n base ≡ ok out)
        × Written base f n out
  unfolding vsprintf_put_number
  vsprintf_put_number-Written k f n p small plain =
      let some_base : (base == 0) ≡ false = ground arith in
      elim (Bool-cases (is_negative f n)) [
        | inl e ↦
            let size = (2 ^ 64 - n) % 2 ^ 64 in
            let large : 2 ^ 63 ≤ n = above f.flags.sgn_pos n e in
            let (ds, run, collected) = digits_of size (omega arith) in
            let start = record f { pad = minus f.pad 1 } in
            let (out, rest_run, placed) =
              put_digits_lem k start true ds (rw plain (ground arith)) in
            let same : magnitude f n ≡ size = rw e (omega arith) in
            (
              out,
              rw (some_base, e, run) rest_run,
              written f n out ds (subst (λ m. Collected base m ds) (sym same) collected) (
                  placed
                  ∙ ap
                      (λ w.
                        f.buf
                        ++ layout f.flags.pad_neg f.flags.pad_nul w (45 ∷ []) (reverse_onto ds []))
                      (minus_one f.pad (length ds))
                  ∙ ap
                      (λ b.
                        f.buf
                        ++ layout f.flags.pad_neg f.flags.pad_nul
                            (pos_part f.pad - length ds - length (sign_text b)) (sign_text b)
                            (reverse_onto ds []))
                      (sym e)),
            )
        | inr e ↦
            let (ds, run, collected) = digits_of n small in
            let (out, rest_run, placed) = put_digits_lem k f false ds (rw plain (ground arith)) in
            let same : magnitude f n ≡ n = rw e refl in
            let fill : pos_part f.pad - length ds ≡ pos_part f.pad - length ds - 0 = omega arith in
            (
              out,
              rw (some_base, e, run) rest_run,
              written f n out ds (subst (λ m. Collected base m ds) (sym same) collected) (
                  placed
                  ∙ ap
                      (λ w.
                        f.buf ++ layout f.flags.pad_neg f.flags.pad_nul w [] (reverse_onto ds []))
                      fill
                  ∙ ap
                      (λ b.
                        f.buf
                        ++ layout f.flags.pad_neg f.flags.pad_nul
                            (pos_part f.pad - length ds - length (sign_text b)) (sign_text b)
                            (reverse_onto ds []))
                      (sym e)),
            )
      ]

  -- Without padding there is nothing but the digits.
  pub vsprintf_put_number-Digits :
      (k : ℕ) (f : FormatStruct) (n p w : ℕ)
      → n < 2 ^ 64
      → is_negative f n ≡ false
      → f.pre ≡ negsuc p
      → f.pad ≡ negsuc w
      → (out : FormatStruct) × (text : List ℕ) × (vsprintf_put_number (suc k) f n base ≡ ok out)
        × (out.buf ≡ f.buf ++ text)
        × Digits base n text
  vsprintf_put_number-Digits k f n p w small positive plain narrow =
      let (out, run, spec) = vsprintf_put_number-Written k f n p small plain in
      let same : magnitude f n ≡ n = rw positive refl in
      let s = spec.text in
      let neg = f.flags.pad_neg in
      let nul = f.flags.pad_nul in
      let width = pos_part f.pad - length s in
      let fill : width - 0 ≡ 0 = rw narrow (omega arith) in
      let placed : out.buf ≡ f.buf ++ s =
        spec.placed
        ∙ ap (λ b. f.buf ++ layout neg nul (width - length (sign_text b)) (sign_text b) s) positive
        ∙ ap (λ u. f.buf ++ u) (layout_none neg nul (width - 0) s fill) in
      (out, s, run, placed, subst (λ m. Digits base m s) same spec.digits)

  pub Digits-strtoul :
      (n : ℕ) (text : List ℕ) → Digits base n text → strtoul text base ≡ (n % 2 ^ 32, [])
  Digits-strtoul n text h =
      let whole = append-nil text in
      let back =
        strtoul_lem base text [] (omega arith) (AllChars-AllDigits base text h.chars)
          (no_digit base) (rw whole (unprefixed base text h.chars)) in
      rw (whole, h.value) at back

  -- In a base from 2 to 16, with a negative precision and padding, the text that
  -- `vsprintf_put_number` writes for a pattern of 64 bits without a sign is read back by `strtoul`: all of it,
  -- as the number modulo `2 ^ 32`.
  pub vsprintf_put_number-strtoul :
      (k : ℕ) (f : FormatStruct) (n p w : ℕ)
      → n < 2 ^ 64
      → is_negative f n ≡ false
      → f.pre ≡ negsuc p
      → f.pad ≡ negsuc w
      → (out : FormatStruct) × (text : List ℕ) × (vsprintf_put_number (suc k) f n base ≡ ok out)
        × (out.buf ≡ f.buf ++ text)
        × (strtoul text base ≡ (n % 2 ^ 32, []))
  vsprintf_put_number-strtoul k f n p w small positive plain narrow =
      let (out, text, run, placed, digits) =
        vsprintf_put_number-Digits k f n p w small positive plain narrow in
      (out, text, run, placed, Digits-strtoul n text digits)
