-- ===== src/Printf.antt =====
-- src/core/printf.c: formatted output. The characters written so far are a list. An `int` is an
-- integer, and the flags are one Boolean each. `bprintf` and `dprintf` only send what `vsprintf`
-- made to the console.
pub mod Digits
pub mod Number
pub mod Written
pub mod Roundtrip
pub mod Format
mod Tests
use elfboot.Base.{
  ℕ, zero, suc, ◌+◌, ◌-◌, ◌*◌, ◌%◌, ◌^◌, Bool, true, false, not, ◌&&◌, ◌||◌, List, [], ◌∷◌, ◌++◌,
  length, take, replicate, ltb, leb, ◌==◌, if◌then◌else◌,
}
use elfboot.Base.Int.{ℤ, pos, negsuc, pos_part, neg_part, sub_ℕ, ltb_ℤ, ◌-ℤ◌}
use elfboot.Base.Run.{Run, ok, fault, out_of_fuel, ◌>>=◌, ◌>>◌, assert}
use elfboot.Math.{div}
use elfboot.Str.{first, rest, u8, is_digit, strlen}

pub record Flags : Type 0 where
  pub pad_nul : Bool
  pub pad_neg : Bool
  pub sgn_pos : Bool

pub record FormatStruct : Type 0 where
  pub buf : List ℕ
  pub flags : Flags
  pub pad : ℤ
  pub pre : ℤ

abbrev pub put : FormatStruct → List ℕ → FormatStruct
put fmts text = record fmts { buf = fmts.buf ++ text }

abbrev pub minus : ℤ → ℕ → ℤ
minus (pos a) n = sub_ℕ a n
minus (negsuc a) n = negsuc (a + n)

-- `while (fmts->pad-- > len) *fmts->buf++ = c;`
unfoldable pub put_pad : FormatStruct → ℕ → ℕ → FormatStruct
put_pad fmts len c =
    let n = pos_part fmts.pad - len in
    record fmts {
      buf = fmts.buf ++ replicate n c;
      pad = if n == 0 then minus fmts.pad 1 else sub_ℕ len 1;
    }

-- `while (--fmts->pad > 0) *fmts->buf++ = ' ';`
unfoldable pub put_pad_before : FormatStruct → FormatStruct
put_pad_before fmts =
    let n = pos_part fmts.pad - 1 in
    record fmts {
      buf = fmts.buf ++ replicate n 32;
      pad = if n == 0 then minus fmts.pad 1 else pos 0;
    }

unfoldable pub vsprintf_put_char : FormatStruct → ℕ → FormatStruct
vsprintf_put_char fmts c =
    let padded = if not fmts.flags.pad_neg then put_pad_before fmts else fmts in
    put_pad_before (put padded (u8 c ∷ []))

-- `len = strnlen(str, fmts->pre)`: a negative precision is a large `size_t`.
unfoldable pub string_length : List ℕ → ℤ → ℕ
string_length str (pos n) = if leb (strlen str) n then strlen str else n
string_length str (negsuc n) = strlen str

unfoldable pub vsprintf_put_string : FormatStruct → List ℕ → FormatStruct
vsprintf_put_string fmts str =
    let len = string_length str fmts.pre in
    let padded = if not fmts.flags.pad_neg then put_pad fmts len 32 else fmts in
    put_pad (put padded (take len str)) len 32

unfoldable pub vsprintf_base : ℕ → ℕ
vsprintf_base qual =
    if qual == 98
    then 2
    else if qual == 111
    then 8
    else if qual == 100 || qual == 117
    then 10
    else if qual == 120
    then 16
    else 0

-- `digits[d]`, in the array of 16 characters.
unfoldable pub digit_char : ℕ → Run ℕ
digit_char d = if ltb d 10 then ok (48 + d) else if ltb d 16 then ok (55 + d) else fault

-- The digits of `n`, the last one first.
unfoldable pub digits_loop : ℕ → ℕ → ℕ → Run (List ℕ)
digits_loop zero n base = out_of_fuel
digits_loop (suc k) n base = if n == 0 then ok [] else (do
  (quot, d) ← div n base
  c ← digit_char d
  more ← digits_loop k quot base
  ok (c ∷ more))

-- `while (i < fmts->pre) *fmts->buf++ = '0';`, where neither `i` nor `pre` changes.
unfoldable pub zeros_loop : ℕ → ℕ → FormatStruct → Run FormatStruct
zeros_loop zero i fmts = out_of_fuel
zeros_loop (suc k) i fmts =
    let more = zeros_loop k i (put fmts (48 ∷ [])) in
    if ltb_ℤ (pos i) fmts.pre then more else ok fmts

abbrev pub reverse_onto : List ℕ → List ℕ → List ℕ
reverse_onto [] done = done
reverse_onto (c ∷ s) done = reverse_onto s (c ∷ done)

-- The precision and the padding once the digits, `i` of them, are known.
abbrev pub count_digits : FormatStruct → ℕ → FormatStruct
count_digits fmts i =
    let pre = if ltb_ℤ fmts.pre (pos i) then pos i else fmts.pre in
    record fmts { pre = pre; pad = fmts.pad -ℤ pre }

-- What stands before the digits: spaces, the sign, and spaces or zeros.
unfoldable pub before_digits : FormatStruct → Bool → ℕ → FormatStruct
before_digits fmts negative i =
    let c = if fmts.flags.pad_nul then 48 else 32 in
    let counted = count_digits fmts i in
    let left =
      if not (fmts.flags.pad_neg || fmts.flags.pad_nul) then put_pad counted 0 32 else counted in
    let signed = if negative then put left (45 ∷ []) else left in
    if not fmts.flags.pad_neg then put_pad signed 0 c else signed

-- What `vsprintf_put_number` does once it has the digits; `k` bounds the loop of zeros.
unfoldable pub put_digits : ℕ → FormatStruct → Bool → List ℕ → Run FormatStruct
put_digits k fmts negative ds = do
  zeros ← zeros_loop k (length ds) (before_digits fmts negative (length ds))
  ok (put_pad (put zeros (reverse_onto ds [])) 0 32)

-- A `long long` is the bit pattern of 64 bits.
unfoldable pub vsprintf_put_number : ℕ → FormatStruct → ℕ → ℕ → Run FormatStruct
vsprintf_put_number k fmts n base =
    let negative = fmts.flags.sgn_pos && leb (2 ^ 63) n in
    let size = if negative then (2 ^ 64 - n) % 2 ^ 64 else n in
    let start = if negative then record fmts { pad = minus fmts.pad 1 } else fmts in
    if base == 0 then ok fmts else (do
      ds ← if size == 0 then ok (48 ∷ []) else digits_loop 65 size base
      put_digits k start negative ds)

-- A variable argument: an `int` or `unsigned long` of 32 bits, an `unsigned long long`, a string.
pub data Arg : Type 0 where
  word : ℕ → Arg
  long_long : ℕ → Arg
  string : List ℕ → Arg

-- `va_arg`: an argument of another type is undefined.
unfoldable pub va_word : List Arg → Run (ℕ × List Arg)
va_word (word n ∷ args) = ok (n, args)
va_word _ = fault

unfoldable pub va_long_long : List Arg → Run (ℕ × List Arg)
va_long_long (long_long n ∷ args) = ok (n, args)
va_long_long _ = fault

unfoldable pub va_string : List Arg → Run (List ℕ × List Arg)
va_string (string s ∷ args) = ok (s, args)
va_string _ = fault

-- A 32-bit pattern as an `int`.
abbrev pub to_int : ℕ → ℤ
to_int n = if ltb n (2 ^ 31) then pos n else sub_ℕ n (2 ^ 32)

-- An `int` that overflows is undefined.
unfoldable pub vnsprintf_number : List ℕ → ℕ → Run (ℕ × List ℕ)
vnsprintf_number [] num = ok (num, [])
vnsprintf_number (c ∷ str) num =
    let more = (do
      assert (ltb (num * 10 + c) (2 ^ 31))
      vnsprintf_number str (num * 10 + c - 48)) in
    if is_digit c then more else ok (num, c ∷ str)

-- The flags behind `%`, from the label `next_char` on.
unfoldable pub read_flags : List ℕ → Flags → Flags × List ℕ
read_flags [] flags = (flags, [])
read_flags (c ∷ fmt) flags =
    let neg = read_flags fmt (record flags { pad_neg = true }) in
    let nul = read_flags fmt (record flags { pad_nul = true }) in
    if c == 45 then neg else if c == 48 then nul else (flags, c ∷ fmt)

-- The indentation. The least `int` has no negation.
unfoldable pub read_pad : FormatStruct → List ℕ → List Arg → Run (FormatStruct × List ℕ × List Arg)
read_pad fmts fmt args =
    let number = vnsprintf_number fmt 0 in
    if is_digit (first fmt)
    then (do (num, behind) ← number; ok (record fmts { pad = pos num }, behind, args))
    else if first fmt == 42
    then (do
      (n, args') ← va_word args
      assert (not (n == 2 ^ 31))
      ok (
        if ltb_ℤ (to_int n) (pos 0)
            then record fmts {
              pad = pos (neg_part (to_int n));
              flags = record fmts.flags { pad_neg = true };
            }
            else record fmts { pad = to_int n },
        rest fmt,
        args',
      ))
    else ok (record fmts { pad = negsuc 0 }, fmt, args)

abbrev pub at_least_zero : ℤ → ℤ
at_least_zero n = pos (pos_part n)

-- The precision; `fmt` is behind the dot.
unfoldable pub read_pre : FormatStruct → List ℕ → List Arg → Run (FormatStruct × List ℕ × List Arg)
read_pre fmts fmt args =
    let number = vnsprintf_number fmt 0 in
    if is_digit (first fmt)
    then (do (num, behind) ← number; ok (record fmts { pre = pos num }, behind, args))
    else if first fmt == 42
    then (do
      (n, args') ← va_word args
      ok (record fmts { pre = at_least_zero (to_int n) }, rest fmt, args'))
    else ok (record fmts { pre = pos 0 }, fmt, args)

unfoldable pub read_dot : FormatStruct → List ℕ → List Arg → Run (FormatStruct × List ℕ × List Arg)
read_dot fmts fmt args =
    if first fmt == 46
    then read_pre fmts (rest fmt) args
    else ok (record fmts { pre = negsuc 0 }, fmt, args)

-- `l` and `ll`: whether the argument is a `long long`.
unfoldable pub read_length : List ℕ → Bool × List ℕ
read_length fmt =
    if first fmt == 108
    then (if first (rest fmt) == 108 then (true, rest (rest fmt)) else (false, rest fmt))
    else (false, fmt)

-- The letter at `fmt`, with what it writes and the arguments left.
unfoldable pub convert : ℕ → FormatStruct → List ℕ → Bool → List Arg → Run (FormatStruct × List Arg)
convert k fmts fmt is_long_long args =
    let c = first fmt in
    if c == 99
    then (do (n, args') ← va_word args; ok (vsprintf_put_char fmts n, args'))
    else if c == 115
    then (do (s, args') ← va_string args; ok (vsprintf_put_string fmts s, args'))
    else if c == 98 || c == 111 || c == 100 || c == 117 || c == 120
    then (do
      (num, args') ← if is_long_long then va_long_long args else va_word args
      let signed =
          if c == 100 then record fmts { flags = record fmts.flags { sgn_pos = true } } else fmts
      out ← vsprintf_put_number k signed num (vsprintf_base c)
      ok (out, args'))
    else ok (put fmts (37 ∷ (if c == 0 then [] else c ∷ [])), args)

abbrev pub no_flags : Flags
no_flags = record { pad_nul = false; pad_neg = false; sgn_pos = false }

-- What `%` starts; `fmt` is behind it. The rest of the format is behind the letter.
unfoldable pub directive :
    ℕ → FormatStruct → List ℕ → List Arg → Run (FormatStruct × List ℕ × List Arg)
directive k fmts fmt args =
    let (flags, padding) = read_flags fmt no_flags in
    do
      (padded, dot, args₁) ← read_pad (record fmts { flags = flags }) padding args
      (precise, long, args₂) ← read_dot padded dot args₁
      let (is_long_long, letter) = read_length long
      (out, args₃) ← convert k precise letter is_long_long args₂
      ok (out, rest letter, args₃)

-- The loop of `vsprintf`; a round takes one character of the format or more.
unfoldable pub vsprintf_loop : ℕ → FormatStruct → List ℕ → List Arg → Run FormatStruct
vsprintf_loop zero fmts fmt args = out_of_fuel
vsprintf_loop (suc k) fmts fmt args =
    let plain = vsprintf_loop k (put fmts (first fmt ∷ [])) (rest fmt) args in
    if first fmt == 0 then ok fmts else if not (first fmt == 37) then plain else (do
      (out, behind, args') ← directive k fmts (rest fmt) args
      vsprintf_loop k out behind args')

abbrev pub no_output : FormatStruct
no_output = record { buf = []; flags = no_flags; pad = negsuc 0; pre = negsuc 0 }

-- The characters written before the terminator; their number is the result.
unfoldable pub vsprintf : List ℕ → List Arg → Run (List ℕ)
vsprintf fmt args = do out ← vsprintf_loop (length fmt + 1) no_output fmt args; ok out.buf
