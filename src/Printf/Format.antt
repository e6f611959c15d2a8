-- ===== src/Printf/Format.antt =====
-- src/core/printf.c: plain text, a signed number of 32 bits, and a precision that is too large.
use elfboot.Base.{
  ℕ, zero, suc, ◌+◌, ◌%◌, ◌^◌, ◌<◌, ◌≡◌, ◌≢◌, refl, sym, ap, ◌∙◌, Bool, true, false, ◌&&◌, List, [],
  ◌∷◌, ◌++◌, length, arith, leb, ◌==◌,
}
use mathlib.Core.List.{append_assoc, append-nil}
use elfboot.Base.Int.{pos, ltb_ℤ}
use elfboot.Base.Run.{ok, out_of_fuel}
use elfboot.Str.{strtoul, is_digit}
use elfboot.Str.Compare.{IsString}
use elfboot.Printf.{
  FormatStruct, put, zeros_loop, put_digits, before_digits, Arg, word, va_word, read_flags,
  read_pad, read_dot, read_length, convert, directive, vsprintf_base, vsprintf_put_number,
  vsprintf_loop, vsprintf, no_flags, no_output,
}
use elfboot.Printf.Number.{before_digits-pre}
use elfboot.Printf.Written.{is_negative, Digits}
use elfboot.Printf.Roundtrip.{vsprintf_put_number-Digits, Digits-strtoul}

-- No directive starts in the text.
abbrev pub Plain : List ℕ → Type 0
Plain [] = Unit {0}
Plain (c ∷ s) = (c ≢ 37) × Plain s

vsprintf_loop-Plain :
    (s : List ℕ) (f : FormatStruct) (args : List Arg)
    → IsString s
    → Plain s
    → (out : FormatStruct) × (vsprintf_loop (length s + 1) f s args ≡ ok out)
      × (out.buf ≡ f.buf ++ s)
unfolding vsprintf_loop
vsprintf_loop-Plain [] f args p q = (f, refl, sym (append-nil f.buf))
vsprintf_loop-Plain (c ∷ s) f args p q =
    let more : length (c ∷ s) + 1 ≡ suc (length s + 1) = omega arith in
    let some : (c == 0) ≡ false = ground arith in
    let text : (c == 37) ≡ false = ground arith in
    let (out, run, buf) = vsprintf_loop-Plain s (put f (c ∷ [])) args p.2 q.1 in
    (out, rw (more, some, text) run, buf ∙ append_assoc f.buf (c ∷ []) s)

-- A format of bytes without a `%` is written as it is, whatever the arguments are.
pub vsprintf-Plain : (s : List ℕ) (args : List Arg) → IsString s → Plain s → vsprintf s args ≡ ok s
unfolding vsprintf
vsprintf-Plain s args p q =
    let (out, run, buf) = vsprintf_loop-Plain s no_output args p q in rw (run, buf) refl

zeros_loop-endless :
    (k i : ℕ) (f : FormatStruct) → ltb_ℤ (pos i) f.pre ≡ true → zeros_loop k i f ≡ out_of_fuel
unfolding zeros_loop
zeros_loop-endless zero i f h = refl
zeros_loop-endless (suc k) i f h = rw h (zeros_loop-endless k i (put f (48 ∷ [])) h)

-- With a precision of more than one digit, writing 0 does not end: for every number of rounds the
-- loop that fills up with zeros wants more.
pub vsprintf_put_number-endless :
    (k : ℕ) (f : FormatStruct) (base p : ℕ)
    → 0 < base
    → 1 < p
    → f.pre ≡ pos p
    → vsprintf_put_number k f 0 base ≡ out_of_fuel
unfolding vsprintf_put_number put_digits
vsprintf_put_number-endless k f base p some more precise =
    let given : (base == 0) ≡ false = ground arith in
    let unsigned : is_negative f 0 ≡ false = no_sign f.flags.sgn_pos in
    let long : ltb_ℤ f.pre (pos 1) ≡ false = rw precise (ground arith) in
    let pre : (before_digits f false 1).pre ≡ pos p =
      before_digits-pre f false 1 ∙ rw long precise in
    let wants : ltb_ℤ (pos 1) (before_digits f false 1).pre ≡ true = rw pre (ground arith) in
    rw (given, unsigned, zeros_loop-endless k 1 (before_digits f false 1) wants)
  where
    no_sign : (b : Bool) → (b && leb (2 ^ 63) 0) ≡ false
    no_sign true = refl
    no_sign false = refl

-- `%d`, and an argument of 32 bits.
abbrev pub percent_d : List ℕ
percent_d = 37 ∷ 100 ∷ []

-- `%d` writes an argument of 32 bits as the number of its bit pattern, also where the argument is a
-- negative `int`: its decimal digits, a zero for 0 and else no zero in front, and no sign. `strtoul`
-- reads all of them back.
pub vsprintf-percent_d :
    (n : ℕ)
    → n < 2 ^ 32
    → (text : List ℕ) × (vsprintf percent_d (word n ∷ []) ≡ ok text)
      × Digits 10 n text
      × (strtoul text 10 ≡ (n, []))
unfolding vsprintf vsprintf_loop directive read_flags read_pad read_dot read_length convert va_word
    vsprintf_base is_digit
vsprintf-percent_d n small =
    let f = record no_output { flags = record no_flags { sgn_pos = true } } in
    let positive : is_negative f n ≡ false = ground arith in
    let (out, text, run, buf, digits) =
      vsprintf_put_number-Digits 10 (omega arith) (omega arith) 1 f n 0 0 (omega arith) positive
        refl refl in
    let back = Digits-strtoul 10 (omega arith) (omega arith) n text digits in
    let whole : n % 2 ^ 32 ≡ n = omega arith in
    (text, rw run (ap ok buf), digits, back ∙ ap (λ (m : ℕ). (m, [])) whole)
