-- ===== src/Str/Tokens.antt =====
-- src/core/string.c: `strspn`, `strcspn` and `strtok_r`, the tokens of a string.
use elfboot.Base.{
  ℕ, zero, suc, ◌≡◌, ◌≢◌, refl, sym, ap, ◌∙◌, subst, ◌⊎◌, inl, inr, Bool-cases, Bool, true, false,
  List, [], ◌∷◌, ◌++◌, take, drop, Option, none, some, arith, ◌==◌, take-append-drop,
}
use elfboot.Str.{first, found, strchr, strspn, strcspn, given, cut_token, strtok_r}
use elfboot.Str.Compare.{IsString}

-- `c` is one of the bytes of `delim`.
abbrev pub is_delim : List ℕ → ℕ → Bool
is_delim delim c = found (strchr delim c)

-- Every byte of a list passes the test, or none does.
abbrev pub All : (ℕ → Bool) → Bool → List ℕ → Type 0
All test b [] = Unit {0}
All test b (c ∷ s) = (test c ≡ b) × All test b s

module _ (delim : List ℕ) where
  pub strspn_lem :
      (s : List ℕ)
      → All (is_delim delim) true (take (strspn s delim) s)
        × ((drop (strspn s delim) s ≡ [])
            ⊎ (is_delim delim (first (drop (strspn s delim) s)) ≡ false))
  unfolding strspn
  strspn_lem [] = (tt, inl refl)
  strspn_lem (c ∷ s) = elim (Bool-cases (is_delim delim c)) [
    | inl e ↦ let (inside, behind) = strspn_lem s in rw e ((e, inside), behind)
    | inr e ↦ rw e (tt, inr e)
  ]

  pub strcspn_lem :
      (s : List ℕ)
      → All (is_delim delim) false (take (strcspn s delim) s)
        × ((drop (strcspn s delim) s ≡ [])
            ⊎ (is_delim delim (first (drop (strcspn s delim) s)) ≡ true))
  unfolding strcspn
  strcspn_lem [] = (tt, inl refl)
  strcspn_lem (c ∷ s) = elim (Bool-cases (is_delim delim c)) [
    | inl e ↦ rw e (tt, inr e)
    | inr e ↦ let (inside, behind) = strcspn_lem s in rw e ((e, inside), behind)
  ]

-- What a string gives: no token where it holds delimiters only; or the first token, all of it
-- before the next delimiter, and the string behind that delimiter.
pub data Token (delim s : List ℕ) : Option (List ℕ) → List ℕ → Type 0 where
  over : All (is_delim delim) true s → Token delim s none []
  last :
      (skipped token : List ℕ)
      → s ≡ skipped ++ token
      → All (is_delim delim) true skipped
      → All (is_delim delim) false token
      → token ≢ []
      → Token delim s (some token) []
  more :
      (skipped token : List ℕ) (d : ℕ) (store : List ℕ)
      → s ≡ skipped ++ (token ++ d ∷ store)
      → All (is_delim delim) true skipped
      → All (is_delim delim) false token
      → token ≢ []
      → is_delim delim d ≡ true
      → Token delim s (some token) store

IsString-drop : (n : ℕ) (s : List ℕ) → IsString s → IsString (drop n s)
IsString-drop zero s p = p
IsString-drop (suc n) [] p = tt
IsString-drop (suc n) (c ∷ s) p = IsString-drop n s p.2

-- The end of a string is where its first byte is 0.
ends : (s : List ℕ) → IsString s → ((first s == 0) ≡ true) → s ≡ []
ends [] p h = refl
ends (c ∷ s) p h = absurd (ground arith)

goes_on :
    (s : List ℕ) → IsString s → ((first s == 0) ≡ false) → (c : ℕ) × (t : List ℕ) × (s ≡ c ∷ t)
goes_on [] p h = cc
goes_on (c ∷ s) p h = (c, s, refl)

take-whole : (n : ℕ) (s : List ℕ) → drop n s ≡ [] → take n s ≡ s
take-whole zero s h = sym h
take-whole (suc n) [] h = refl
take-whole (suc n) (c ∷ s) h = ap (◌∷◌ c) (take-whole n s h)

split_at : (n : ℕ) (s : List ℕ) (c : ℕ) (t : List ℕ) → drop n s ≡ c ∷ t → s ≡ take n s ++ c ∷ t
split_at n s c t h = sym (ap (◌++◌ (take n s)) (sym h) ∙ take-append-drop n s)

module _ (delim skipped : List ℕ) (before : All (is_delim delim) true skipped) where
  -- From the first byte of a token on.
  cut_token-Token :
      (c : ℕ) (s : List ℕ)
      → IsString (c ∷ s)
      → is_delim delim c ≡ false
      → Token delim (skipped ++ c ∷ s) (cut_token (c ∷ s) delim).0 (cut_token (c ∷ s) delim).1
  unfolding strcspn
  cut_token-Token c s p e =
      let n = strcspn s delim in
      let (inside, behind) = strcspn_lem delim s in
      let safe = IsString-drop n s p.2 in
      elim (Bool-cases (first (drop n s) == 0)) [
        | inl f ↦
            let nil = ends (drop n s) safe f in
            let whole = take-whole n s nil in
            rw (e, f, nil)
              (last skipped (c ∷ s) refl before (e, subst (All (is_delim delim) false) whole inside)
                (λ h. cc))
        | inr f ↦
            let (d, t, cons) = goes_on (drop n s) safe f in
            let hit : is_delim delim d ≡ true = elim behind [
              | inl nil ↦ absurd (cc)
              | inr at ↦ rw cons at at
            ] in
            let whole : s ≡ take n s ++ d ∷ t = split_at n s d t cons in
            rw (e, f, cons)
              (more skipped (c ∷ take n s) d t (ap (λ u. skipped ++ c ∷ u) whole) before (e, inside)
                (λ h. cc) hit)
      ]

Token-at :
    (delim s store : List ℕ)
    → IsString s
    → Token delim s (strtok_r (some s) delim store).0 (strtok_r (some s) delim store).1
unfolding strtok_r
Token-at delim s store p =
    let n = strspn s delim in
    let (inside, behind) = strspn_lem delim s in
    let safe = IsString-drop n s p in
    elim (Bool-cases (first s == 0)) [
      | inl e ↦ let nil = ends s p e in rw nil (over tt)
      | inr e ↦ elim (Bool-cases (first (drop n s) == 0)) [
        | inl f ↦
            let nil = ends (drop n s) safe f in
            rw (e, f, nil) (over (subst (All (is_delim delim) true) (take-whole n s nil) inside))
        | inr f ↦
            let (c, t, cons) = goes_on (drop n s) safe f in
            let open_ : is_delim delim c ≡ false = elim behind [
              | inl nil ↦ absurd (cc)
              | inr at ↦ rw cons at at
            ] in
            let whole = split_at n s c t cons in
            rw (e, f, cons)
              (subst (λ u. Token delim u (cut_token (c ∷ t) delim).0 (cut_token (c ∷ t) delim).1)
                (sym whole)
                (cut_token-Token delim (take n s) inside c t (subst IsString cons safe) open_))
      ]
    ]

-- On a string of bytes `strtok_r` returns its first token and the string behind the delimiter that
-- ends it; or the last token, or none, and then the empty string.
pub strtok_r-Token :
    (arg : Option (List ℕ)) (delim store : List ℕ)
    → IsString (given arg store)
    → Token delim (given arg store) (strtok_r arg delim store).0 (strtok_r arg delim store).1
unfolding strtok_r
strtok_r-Token none delim store p = Token-at delim store store p
strtok_r-Token (some s) delim store p = Token-at delim s store p
