-- ===== src/Printf/Tests.antt =====
-- Runs of the formatted output, and the theorems at concrete arguments.
use elfboot.Base.{ℕ, ◌%◌, ◌^◌, ◌≡◌, refl, List, [], ◌∷◌, ◌++◌, true, arith}
use elfboot.Base.Int.{pos, ◌-ℤ◌}
use elfboot.Base.Run.{ok, out_of_fuel}
use elfboot.Math.{div, arch_div, arch_div_upper, divl}
use elfboot.Str.{strtoul, is_digit, strlen}
use elfboot.Printf.{
  FormatStruct, put_pad, put_pad_before, vsprintf_put_char, string_length, vsprintf_put_string,
  vsprintf_base, digit_char, digits_loop, zeros_loop, before_digits, put_digits,
  vsprintf_put_number, word, long_long, string, va_word, va_long_long, va_string, vnsprintf_number,
  read_flags, read_pad, read_pre, read_dot, read_length, convert, directive, vsprintf_loop,
  vsprintf, no_flags, no_output,
}
use elfboot.Printf.Written.{Digits, Written}
use elfboot.Printf.Roundtrip.{vsprintf_put_number-Written, vsprintf_put_number-strtoul}
use elfboot.Printf.Format.{percent_d, vsprintf_put_number-endless, vsprintf-percent_d}

-- `%05d|%-3s|%c` of 42, "a" and "b".
formats :
    vsprintf
      (37 ∷ 48 ∷ 53 ∷ 100 ∷ 124 ∷ 37 ∷ 45 ∷ 51 ∷ 115 ∷ 124 ∷ 37 ∷ 99 ∷ [])
      (word 42 ∷ string (97 ∷ []) ∷ word 98 ∷ [])
    ≡ ok (48 ∷ 48 ∷ 48 ∷ 52 ∷ 50 ∷ 124 ∷ 97 ∷ 32 ∷ 32 ∷ 124 ∷ 98 ∷ [])
unfolding vsprintf vsprintf_loop directive read_flags read_pad read_dot read_pre read_length convert
    va_word va_string vnsprintf_number is_digit vsprintf_base vsprintf_put_number put_digits
    before_digits zeros_loop digits_loop digit_char div arch_div arch_div_upper divl put_pad
    put_pad_before vsprintf_put_char vsprintf_put_string string_length strlen ◌-ℤ◌
formats = refl

-- `%lld` of -7.
negative :
    vsprintf (37 ∷ 108 ∷ 108 ∷ 100 ∷ []) (long_long (0xffff_ffff_ffff_fff9) ∷ [])
    ≡ ok (45 ∷ 55 ∷ [])
unfolding vsprintf vsprintf_loop directive read_flags read_pad read_dot read_pre read_length convert
    va_long_long is_digit vsprintf_base vsprintf_put_number put_digits before_digits zeros_loop
    digits_loop digit_char div arch_div arch_div_upper divl put_pad ◌-ℤ◌
negative = refl

abbrev field : FormatStruct
field = record no_output { flags = record no_flags { pad_nul = true }; pad = pos 8 }

vsprintf_put_number-Written_example :
    (out : FormatStruct) × (vsprintf_put_number 1 field 0xbeef 16 ≡ ok out)
    × Written 16 field 0xbeef out
vsprintf_put_number-Written_example =
    vsprintf_put_number-Written 16 (omega arith) (omega arith) 0 field 0xbeef 0 (omega arith) refl

vsprintf_put_number-strtoul_example :
    (out : FormatStruct) × (text : List ℕ) × (vsprintf_put_number 1 no_output 0xbeef 16 ≡ ok out)
    × (out.buf ≡ [] ++ text)
    × (strtoul text 16 ≡ (0xbeef % 2 ^ 32, []))
vsprintf_put_number-strtoul_example =
    vsprintf_put_number-strtoul 16 (omega arith) (omega arith) 0 no_output 0xbeef 0 0 (omega arith)
      refl refl refl

vsprintf_put_number-endless_example :
    vsprintf_put_number 1000 (record no_output { pre = pos 8 }) 0 16 ≡ out_of_fuel
vsprintf_put_number-endless_example =
    vsprintf_put_number-endless 1000 (record no_output { pre = pos 8 }) 16 8 (omega arith)
      (omega arith) refl

vsprintf-percent_d_example :
    (text : List ℕ) × (vsprintf percent_d (word 0xffff_ffff ∷ []) ≡ ok text)
    × Digits 10 0xffff_ffff text
    × (strtoul text 10 ≡ (0xffff_ffff, []))
vsprintf-percent_d_example = vsprintf-percent_d 0xffff_ffff (omega arith)
