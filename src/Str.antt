-- ===== src/Str.antt =====
-- src/core/string.c and the character tests of src/include/elfboot/string.h. A string is the list of
-- its bytes before the terminator, and a pointer into it is the rest of the list from there on.
pub mod Compare
pub mod Search
pub mod Tokens
pub mod Words
pub mod Numbers
mod Tests
use Prim.Native.Nat.{bit_or}
use elfboot.Base.{
  ℕ, zero, suc, ◌+◌, ◌-◌, ◌*◌, ◌%◌, Bool, true, false, not, ◌&&◌, ◌||◌, Option, none, some, List,
  [], ◌∷◌, ◌++◌, take, drop, ltb, leb, ◌==◌, if◌then◌else◌,
}
use elfboot.Base.Int.{ℤ, pos, negsuc, sub_ℕ}
use elfboot.Base.Run.{Run, ok, fault, ◌>>=◌}
use elfboot.Core.{u32, sub32}

-- `*str`: the terminator behind the last byte.
abbrev pub first : List ℕ → ℕ
first [] = 0
first (c ∷ s) = c

-- `str + 1`, which the code computes only before the terminator.
abbrev pub rest : List ℕ → List ℕ
rest [] = []
rest (c ∷ s) = s

-- `(char)c` of an `int`, as the bit pattern.
abbrev pub u8 : ℕ → ℕ
u8 c = c % 256

-- Two signed characters subtracted.
abbrev pub schar_delta : ℕ → ℕ → ℤ
schar_delta c d = sub_ℕ ((c + 128) % 256) ((d + 128) % 256)

-- Here a list is the object that is read, so that reading behind it is a fault.
unfoldable pub memcmp : List ℕ → List ℕ → ℕ → Run ℤ
memcmp a b zero = ok (pos 0)
memcmp [] b (suc n) = fault
memcmp (x ∷ a) [] (suc n) = fault
memcmp (x ∷ a) (y ∷ b) (suc n) =
    let more = memcmp a b n in
    if ltb x y then ok (negsuc 0) else if ltb y x then ok (pos 1) else more

unfoldable pub strcmp : List ℕ → List ℕ → ℤ
strcmp [] [] = pos 0
strcmp [] (d ∷ s2) = schar_delta 0 d
strcmp (c ∷ s1) [] = schar_delta c 0
strcmp (c ∷ s1) (d ∷ s2) = let more = strcmp s1 s2 in if c == d then more else schar_delta c d

unfoldable pub strncmp : List ℕ → List ℕ → ℕ → ℤ
strncmp s1 s2 zero = pos 0
strncmp s1 s2 (suc count) =
    let c1 = first s1 in
    let c2 = first s2 in
    let more = strncmp (rest s1) (rest s2) count in
    if not (c1 == c2)
    then (if ltb c1 c2 then negsuc 0 else pos 1)
    else if c1 == 0
    then pos 0
    else more

unfoldable pub strnlen : List ℕ → ℕ → ℕ
strnlen [] maxlen = 0
strnlen (c ∷ s) zero = 0
strnlen (c ∷ s) (suc maxlen) = suc (strnlen s maxlen)

unfoldable pub strlen : List ℕ → ℕ
strlen [] = 0
strlen (c ∷ s) = suc (strlen s)

-- `memcpy` into an object: `n` bytes of the source, then what was there.
unfoldable pub memcpy : List ℕ → List ℕ → ℕ → Run (List ℕ)
memcpy dst src zero = ok dst
memcpy [] src (suc n) = fault
memcpy (x ∷ dst) [] (suc n) = fault
memcpy (x ∷ dst) (y ∷ src) (suc n) = do tail ← memcpy dst src n; ok (y ∷ tail)

unfoldable pub strcpy : List ℕ → List ℕ → Run (List ℕ)
strcpy dst str = memcpy dst str (strlen str)

-- The loop of `strncpy` is a `memcpy` of `len` bytes, which the string has.
unfoldable pub strncpy : List ℕ → List ℕ → ℕ → Run (List ℕ)
strncpy dst str len = if leb (strlen str) len then strcpy dst str else memcpy dst str len

abbrev pub is_zero : ℤ → Bool
is_zero (pos n) = n == 0
is_zero (negsuc n) = false

-- The loop of `strstr`, by `len1`; `len2` is not 0 there.
unfoldable pub strstr_loop : List ℕ → List ℕ → ℕ → ℕ → Run (Option (List ℕ))
strstr_loop str1 str2 len2 zero = ok none
strstr_loop str1 str2 len2 (suc len1) =
    let more = strstr_loop (rest str1) str2 len2 len1 in
    if leb len2 (suc len1)
    then (do delta ← memcmp str1 str2 len2; if is_zero delta then ok (some str1) else more)
    else ok none

unfoldable pub strstr : List ℕ → List ℕ → Run (Option (List ℕ))
strstr str1 str2 =
    if strlen str2 == 0 then ok (some str1) else strstr_loop str1 str2 (strlen str2) (strlen str1)

unfoldable pub strchr : List ℕ → ℕ → Option (List ℕ)
strchr [] c = if 0 == u8 c then some [] else none
strchr (x ∷ str) c = let more = strchr str c in if x == u8 c then some (x ∷ str) else more

-- The loop of `strrchr`, from the byte at index `i` to the front.
unfoldable pub strrchr_loop : List ℕ → ℕ → ℕ → Option (List ℕ)
strrchr_loop str c zero = if first str == u8 c then some str else none
strrchr_loop str c (suc i) =
    let more = strrchr_loop str c i in
    if first (drop (suc i) str) == u8 c then some (drop (suc i) str) else more

-- In an empty string the first access lies before the string.
unfoldable pub strrchr : List ℕ → ℕ → Run (Option (List ℕ))
strrchr str c = if strlen str == 0 then fault else ok (strrchr_loop str c (strlen str - 1))

abbrev pub found : Option (List ℕ) → Bool
found none = false
found (some p) = true

unfoldable pub strspn : List ℕ → List ℕ → ℕ
strspn [] str2 = 0
strspn (c ∷ str1) str2 =
    let more = suc (strspn str1 str2) in if found (strchr str2 c) then more else 0

unfoldable pub strcspn : List ℕ → List ℕ → ℕ
strcspn [] str2 = 0
strcspn (c ∷ str1) str2 =
    let more = suc (strcspn str1 str2) in if found (strchr str2 c) then 0 else more

-- The token that starts at `str`, and where the next search starts. A zero is written behind the
-- token.
abbrev pub cut_token : List ℕ → List ℕ → Option (List ℕ) × List ℕ
cut_token str delim =
    let n = strcspn str delim in
    let end = drop n str in
    if first end == 0 then (some str, end) else (some (take n str), rest end)

abbrev pub given : Option (List ℕ) → List ℕ → List ℕ
given none store = store
given (some s) store = s

-- `strtok_r`, with a null `str` as `none`, and the new `*store`.
unfoldable pub strtok_r : Option (List ℕ) → List ℕ → List ℕ → Option (List ℕ) × List ℕ
strtok_r arg delim store =
    let str = given arg store in
    let start = drop (strspn str delim) str in
    if first str == 0
    then (none, str)
    else if first start == 0
    then (none, start)
    else cut_token start delim

-- What `strtok` does from its static pointer on, which is not null.
abbrev pub next_token : List ℕ → List ℕ → Option (List ℕ) × Option (List ℕ)
next_token from delim =
    let str = drop (strspn from delim) from in
    let n = strcspn str delim in
    let end = drop n str in
    if n == 0
    then (none, none)
    else if first end == 0
    then (some str, none)
    else (some (take n str), some (rest end))

-- `strtok`, with its static pointer before and after.
unfoldable pub strtok :
    Option (List ℕ) → List ℕ → Option (List ℕ) → Option (List ℕ) × Option (List ℕ)
strtok (some str) delim p = next_token str delim
strtok none delim none = (none, none)
strtok none delim (some p) = next_token p delim

unfoldable pub is_digit : ℕ → Bool
is_digit ch = leb 48 ch && leb ch 57

unfoldable pub is_xdigit : ℕ → Bool
is_xdigit ch = is_digit ch || leb 97 ch && leb ch 102 || leb 65 ch && leb ch 70

abbrev pub to_lower : ℕ → ℕ
to_lower x = bit_or x 0x20

unfoldable pub simple_guess_base : List ℕ → ℕ
simple_guess_base cp =
    if first cp == 48
    then (if to_lower (first (rest cp)) == 120 && is_xdigit (first (rest (rest cp))) then 16 else 8)
    else 10

unfoldable pub digit_value : ℕ → ℕ
digit_value c = if is_digit c then c - 48 else to_lower c - 97 + 10

-- The loop of `strtoul`: the result and `*endp`.
unfoldable pub strtoul_loop : ℕ → List ℕ → ℕ → ℕ × List ℕ
strtoul_loop base [] result = (result, [])
strtoul_loop base (c ∷ cp) result =
    let value = digit_value c in
    let more = strtoul_loop base cp (u32 (u32 (result * base) + value)) in
    if is_xdigit c then (if leb base value then (result, c ∷ cp) else more) else (result, c ∷ cp)

unfoldable pub strtoul : List ℕ → ℕ → ℕ × List ℕ
strtoul cp base₀ =
    let base = if base₀ == 0 then simple_guess_base cp else base₀ in
    let prefixed = base == 16 && first cp == 48 && to_lower (first (rest cp)) == 120 in
    strtoul_loop base (if prefixed then rest (rest cp) else cp) 0

-- The result is the bit pattern of the `int`.
unfoldable pub strtol : List ℕ → ℕ → ℕ × List ℕ
strtol cp base =
    let negative = strtoul (rest cp) base in
    if first cp == 45 then (sub32 0 negative.0, negative.1) else strtoul cp base
