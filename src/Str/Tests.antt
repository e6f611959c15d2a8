-- ===== src/Str/Tests.antt =====
-- Runs of the string functions, and the theorems at concrete strings.
use elfboot.Base.{ℕ, ◌%◌, ◌^◌, ◌≡◌, refl, List, [], ◌∷◌, ◌++◌, Option, none, some, arith}
use elfboot.Base.Run.{ok, fault}
use elfboot.Str.{
  memcmp, strlen, strcpy, memcpy, strstr, strstr_loop, strchr, strrchr, strrchr_loop, strspn,
  strcspn, strtok_r, strtok, strtoul, strtoul_loop, strtol, simple_guess_base, digit_value,
  is_digit, is_xdigit,
}
use elfboot.Str.Search.{FirstMatch, strstr-FirstMatch}
use elfboot.Str.Tokens.{Token, strtok_r-Token}
use elfboot.Str.Numbers.{number, strtoul_lem}

-- "ab", "ab,cd" and "0x1f".
abbrev ab : List ℕ
ab = 97 ∷ 98 ∷ []

abbrev list : List ℕ
list = 97 ∷ 98 ∷ 44 ∷ 99 ∷ 100 ∷ []

abbrev hex : List ℕ
hex = 48 ∷ 120 ∷ 49 ∷ 102 ∷ []

tokens :
    (strtok_r (some list) (44 ∷ []) [] ≡ (some ab, 99 ∷ 100 ∷ []))
    × (strtok none (44 ∷ []) (some (99 ∷ 100 ∷ [])) ≡ (some (99 ∷ 100 ∷ []), none))
unfolding strtok_r strtok strspn strcspn strchr
tokens = (refl, refl)

searches :
    (strstr list (99 ∷ []) ≡ ok (some (99 ∷ 100 ∷ [])))
    × (strrchr list 97 ≡ ok (some list))
    × (strrchr [] 97 ≡ fault)
unfolding strstr strstr_loop memcmp strlen strrchr strrchr_loop
searches = (refl, refl, refl)

numbers : (strtoul hex 0 ≡ (31, [])) × (strtol (45 ∷ 49 ∷ []) 10 ≡ (0xffff_ffff, []))
unfolding strtoul strtoul_loop strtol simple_guess_base digit_value is_xdigit is_digit
numbers = (refl, refl)

-- The byte behind the copy stays what it was.
no_terminator : strcpy (1 ∷ 2 ∷ 3 ∷ []) ab ≡ ok (97 ∷ 98 ∷ 3 ∷ [])
unfolding strcpy memcpy strlen
no_terminator = refl

strstr-FirstMatch_example :
    (r : Option (List ℕ)) × (strstr list (44 ∷ 99 ∷ []) ≡ ok r) × FirstMatch (44 ∷ 99 ∷ []) list r
strstr-FirstMatch_example = strstr-FirstMatch list (44 ∷ 99 ∷ [])

strtok_r-Token_example :
    Token (44 ∷ []) ab (strtok_r none (44 ∷ []) ab).0 (strtok_r none (44 ∷ []) ab).1
strtok_r-Token_example =
    strtok_r-Token none (44 ∷ []) ab (omega arith, omega arith, (omega arith, omega arith, tt))

strtoul_lem_example : strtoul ((49 ∷ 50 ∷ []) ++ ab) 10 ≡ (number 10 0 (49 ∷ 50 ∷ []) % 2 ^ 32, ab)
unfolding digit_value is_xdigit is_digit
strtoul_lem_example =
    strtoul_lem 10 (49 ∷ 50 ∷ []) ab (omega arith) ((refl, omega arith), ((refl, omega arith), tt))
      (λ h. let below = h.1 in omega arith) refl
