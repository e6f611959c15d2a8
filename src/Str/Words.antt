-- ===== src/Str/Words.antt =====
-- src/core/string.c: the words of a text, by `strtok`.
use elfboot.Base.{
  ℕ, suc, ◌≡◌, ◌≢◌, refl, ap, true, false, List, [], ◌∷◌, ◌++◌, length, take, drop, none, some,
  arith, ◌==◌,
}
use elfboot.Str.{strspn, strcspn, strtok}
use elfboot.Str.Tokens.{is_delim, All}

take-length : (word more : List ℕ) → take (length word) (word ++ more) ≡ word
take-length [] more = refl
take-length (c ∷ word) more = ap (◌∷◌ c) (take-length word more)

drop-length : (word more : List ℕ) → drop (length word) (word ++ more) ≡ more
drop-length [] more = refl
drop-length (c ∷ word) more = drop-length word more

module _ (delim : List ℕ) (d : ℕ) (ends : is_delim delim d ≡ true) where
  strcspn-word :
      (word more : List ℕ)
      → All (is_delim delim) false word
      → strcspn (word ++ d ∷ more) delim ≡ length word
  unfolding strcspn
  strcspn-word [] more h = rw ends refl
  strcspn-word (c ∷ word) more (plain, h) = rw plain (ap suc (strcspn-word word more h))

  -- A word at the pointer, which a delimiter ends.
  pub strtok-word :
      (c : ℕ) (word more : List ℕ)
      → d ≢ 0
      → All (is_delim delim) false (c ∷ word)
      → strtok none delim (some ((c ∷ word) ++ d ∷ more)) ≡ (some (c ∷ word), some more)
  unfolding strtok strspn
  strtok-word c word more positive (plain, h) =
      let nonempty : (suc (length word) == 0) ≡ false = ground arith in
      let no_end : (d == 0) ≡ false = ground arith in
      rw
        (
          plain,
          strcspn-word (c ∷ word) more (plain, h),
          nonempty,
          drop-length word (d ∷ more),
          no_end,
          take-length word (d ∷ more),
        )
        refl
