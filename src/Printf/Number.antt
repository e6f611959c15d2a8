-- ===== src/Printf/Number.antt =====
-- src/core/printf.c: the field in which `vsprintf_put_number` puts its digits.
use mathlib.Core.List.{append_assoc, append-nil}
use elfboot.Base.{
  ℕ, suc, ◌-◌, ◌≡◌, refl, sym, ap, ◌∙◌, inl, inr, Bool-cases, Bool, true, false, not, ◌||◌, List,
  [], ◌∷◌, ◌++◌, length, replicate, arith, ◌==◌, if◌then◌else◌,
}
use elfboot.Base.Int.{ℤ, pos, pos_part, ltb_ℤ, ◌-ℤ◌}
use elfboot.Base.Run.{ok}
use elfboot.Printf.{
  FormatStruct, put, put_pad, count_digits, before_digits, zeros_loop, put_digits, reverse_onto,
}

-- Sign and digits in a field with `fill` more characters: the padding on the right, zeros behind
-- the sign, or spaces on the left.
abbrev pub layout : Bool → Bool → ℕ → List ℕ → List ℕ → List ℕ
layout true pad_nul fill sign text = sign ++ (text ++ replicate fill 32)
layout false true fill sign text = sign ++ (replicate fill 48 ++ text)
layout false false fill sign text = replicate fill 32 ++ (sign ++ text)

abbrev pub sign_text : Bool → List ℕ
sign_text negative = if negative then 45 ∷ [] else []

-- The precision does not ask for more than `i` digits.
abbrev pub Short : FormatStruct → ℕ → Type 0
Short fmts i = ltb_ℤ fmts.pre (pos i) ≡ true

put_pad-buf :
    (f : FormatStruct) (c : ℕ) → (put_pad f 0 c).buf ≡ f.buf ++ replicate (pos_part f.pad) c
unfolding put_pad
put_pad-buf f c = let e : pos_part f.pad - 0 ≡ pos_part f.pad = omega arith in rw e refl

put_pad-spent : (f : FormatStruct) (c : ℕ) → pos_part (put_pad f 0 c).pad ≡ 0
unfolding put_pad
put_pad-spent f c = elim (Bool-cases (pos_part f.pad - 0 == 0)) [
  | inl e ↦ rw e (ground arith)
  | inr e ↦ rw e (ground arith)
]

zeros_loop-none : (k i : ℕ) (f : FormatStruct) → f.pre ≡ pos i → zeros_loop (suc k) i f ≡ ok f
unfolding zeros_loop
zeros_loop-none k i f h = let e : ltb_ℤ (pos i) f.pre ≡ false = rw h (ground arith) in rw e

pub before_digits-pre :
    (f : FormatStruct) (negative : Bool) (i : ℕ)
    → (before_digits f negative i).pre ≡ (if ltb_ℤ f.pre (pos i) then pos i else f.pre)
unfolding before_digits put_pad
before_digits-pre f negative i = go f.flags.pad_neg f.flags.pad_nul negative
  where
    pre : ℤ
    pre = if ltb_ℤ f.pre (pos i) then pos i else f.pre

    go :
        (b c sign : Bool)
        → (let counted = count_digits f i in
            let left = if not (b || c) then put_pad counted 0 32 else counted in
            let signed = if sign then put left (45 ∷ []) else left in
            (if not b then put_pad signed 0 (if c then 48 else 32) else signed).pre)
          ≡ pre
    go true c true = refl
    go true c false = refl
    go false true true = refl
    go false true false = refl
    go false false true = refl
    go false false false = refl

-- What the sign adds to what was written.
signed-buf :
    (b : Bool) (f : FormatStruct) → (if b then put f (45 ∷ []) else f).buf ≡ f.buf ++ sign_text b
signed-buf true f = refl
signed-buf false f = sym (append-nil f.buf)

signed-pad : (b : Bool) (f : FormatStruct) → (if b then put f (45 ∷ []) else f).pad ≡ f.pad
signed-pad true f = refl
signed-pad false f = refl

counted-fill :
    (f : FormatStruct) (i : ℕ) → Short f i → pos_part (count_digits f i).pad ≡ pos_part f.pad - i
unfolding ◌-ℤ◌
counted-fill f i short = rw short (ground arith)

module _ (f : FormatStruct) (negative : Bool) (text : List ℕ) (i : ℕ) (short : Short f i) where
  abbrev counted : FormatStruct
  counted = count_digits f i

  abbrev with_sign : FormatStruct → FormatStruct
  with_sign g = if negative then put g (45 ∷ []) else g

  abbrev ending : FormatStruct → List ℕ
  ending g = (g.buf ++ text) ++ replicate (pos_part g.pad) 32

  ending-signed :
      (g : FormatStruct)
      → ending (with_sign g)
        ≡ ((g.buf ++ sign_text negative) ++ text) ++ replicate (pos_part g.pad) 32
  ending-signed g = rw (signed-buf negative g, signed-pad negative g) refl

  ending-put_pad :
      (g : FormatStruct) (c : ℕ)
      → ending (put_pad g 0 c) ≡ (g.buf ++ replicate (pos_part g.pad) c) ++ text
  ending-put_pad g c = rw (put_pad-buf g c, put_pad-spent g c) (append-nil _)

  ending-both :
      (g : FormatStruct) (c : ℕ)
      → ending (put_pad (with_sign g) 0 c)
        ≡ ((g.buf ++ sign_text negative) ++ replicate (pos_part g.pad) c) ++ text
  ending-both g c =
      ending-put_pad (with_sign g) c ∙ rw (signed-buf negative g, signed-pad negative g) refl

  -- What stands before the digits, by the flags.
  abbrev front : Bool → Bool → FormatStruct
  front true pad_nul = with_sign counted
  front false true = put_pad (with_sign counted) 0 48
  front false false = put_pad (with_sign (put_pad counted 0 32)) 0 32

  front-ending :
      (pad_neg pad_nul : Bool)
      → ending (front pad_neg pad_nul)
        ≡ f.buf ++ layout pad_neg pad_nul (pos_part f.pad - i) (sign_text negative) text
  front-ending true pad_nul =
      let n = pos_part f.pad - i in
      let sign = sign_text negative in
      ending-signed counted
      ∙ rw (counted-fill f i short) (
          append_assoc (f.buf ++ sign) text (replicate n 32)
          ∙ append_assoc f.buf sign (text ++ replicate n 32))
  front-ending false true =
      let n = pos_part f.pad - i in
      let sign = sign_text negative in
      ending-both counted 48
      ∙ rw (counted-fill f i short) (
          append_assoc (f.buf ++ sign) (replicate n 48) text
          ∙ append_assoc f.buf sign (replicate n 48 ++ text))
  front-ending false false =
      let n = pos_part f.pad - i in
      let sign = sign_text negative in
      ending-both (put_pad counted 0 32) 32
      ∙ rw (put_pad-spent counted 32, put_pad-buf counted 32, counted-fill f i short)
          (ap (λ s. s ++ text) (append-nil _)
            ∙ append_assoc (f.buf ++ replicate n 32) sign text
            ∙ append_assoc f.buf (replicate n 32) (sign ++ text))

  front_lem : before_digits f negative i ≡ front f.flags.pad_neg f.flags.pad_nul
  unfolding before_digits
  front_lem = go f.flags.pad_neg f.flags.pad_nul
    where
      go :
          (b c : Bool)
          → (let left = if not (b || c) then put_pad counted 0 32 else counted in
              if not b then put_pad (with_sign left) 0 (if c then 48 else 32) else with_sign left)
            ≡ front b c
      go true c = refl
      go false true = refl
      go false false = refl

-- With a precision of no more than its digits, the digits of a number stand in its field.
pub put_digits_lem :
    (k : ℕ) (f : FormatStruct) (negative : Bool) (ds : List ℕ)
    → Short f (length ds)
    → (out : FormatStruct) × (put_digits (suc k) f negative ds ≡ ok out)
      × (out.buf
          ≡ f.buf
            ++ layout f.flags.pad_neg f.flags.pad_nul
                (pos_part f.pad - length ds)
                (sign_text negative)
                (reverse_onto ds []))
unfolding put_digits
put_digits_lem k f negative ds short =
    let i = length ds in
    let text = reverse_onto ds [] in
    let g = before_digits f negative i in
    (
      put_pad (put g text) 0 32,
      rw (zeros_loop-none k i g (before_digits-pre f negative i ∙ rw short refl)) refl,
      put_pad-buf (put g text) 32
          ∙ ap (ending f negative text i short) (front_lem f negative text i short)
          ∙ front-ending f negative text i short f.flags.pad_neg f.flags.pad_nul,
    )
