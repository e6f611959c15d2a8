-- ===== src/Loader/Names.antt =====
-- src/core/loader.c: `loader_parse_name`, by `strstr` with a string of one byte.
use elfboot.Base.{
  ℕ, suc, ◌+◌, ◌-◌, ◌≡◌, ◌≢◌, refl, ap, true, false, some, List, [], ◌∷◌, ◌++◌, take, arith, ltb,
  leb, length, Bool-cases, inl, inr,
}
use elfboot.Base.Run.{ok}
use elfboot.Str.{memcmp, strlen, strstr, strstr_loop}
use elfboot.Loader.{bootentry, loader_parse_name}
use elfboot.Loader.Lines.{Letters, letters-Letters, take-word}

pub strlen-append : (a b : List ℕ) → strlen (a ++ b) ≡ strlen a + strlen b
unfolding strlen
strlen-append [] b = omega arith
strlen-append (c ∷ a) b = omega (arith, strlen-append a b)

pub strlen-length : (a : List ℕ) → strlen a ≡ length a
unfolding strlen
strlen-length [] = refl
strlen-length (c ∷ a) = ap suc (strlen-length a)

abbrev Free : ℕ → List ℕ → Type 0
Free d [] = Unit {0}
Free d (c ∷ s) = (c ≢ d) × Free d s

pub Free-Letters : (d : ℕ) (s : List ℕ) → Letters d s → Free d s
Free-Letters d [] h = tt
Free-Letters d (c ∷ s) (_, _, other, h) = (other, Free-Letters d s h)

strstr_loop-byte :
    (d : ℕ) (before behind : List ℕ)
    → Free d before
    → strstr_loop (before ++ d ∷ behind) (d ∷ []) 1 (strlen (before ++ d ∷ behind))
      ≡ ok (some (d ∷ behind))
unfolding strstr_loop strlen memcmp
strstr_loop-byte d [] behind h =
    let long : leb 1 (suc (strlen behind)) ≡ true = ground arith in
    let same : ltb d d ≡ false = ground arith in rw (long, same) refl
strstr_loop-byte d (c ∷ before) behind (other, h) =
    let long : leb 1 (suc (strlen (before ++ d ∷ behind))) ≡ true = ground arith in
    let later = strstr_loop-byte d before behind h in
    elim (Bool-cases (ltb c d)) [
      | inl below ↦ rw (long, below) later
      | inr e ↦ let above : ltb d c ≡ true = ground arith in rw (long, e, above) later
    ]

-- The first `d` of a string.
strstr-byte :
    (d : ℕ) (before behind : List ℕ)
    → Free d before
    → strstr (before ++ d ∷ behind) (d ∷ []) ≡ ok (some (d ∷ behind))
unfolding strstr strlen
strstr-byte d before behind h = strstr_loop-byte d before behind h

take-strlen : (a b : List ℕ) → take (strlen (a ++ b) - strlen b) (a ++ b) ≡ a
take-strlen a b =
    let size : strlen (a ++ b) - strlen b ≡ length a =
      omega (arith, strlen-append a b, strlen-length a) in
    rw size (take-word a b)

-- The line that begins an entry, with its name between quotes.
abbrev pub first_line : List ℕ → List ℕ
first_line name = bootentry ++ 32 ∷ 34 ∷ (name ++ 34 ∷ 32 ∷ 123 ∷ [])

pub loader_parse_name_lem :
    (name : List ℕ) → Letters 34 name → loader_parse_name (first_line name) [] ≡ ok (some name, [])
unfolding loader_parse_name
loader_parse_name_lem name h =
    let open_ =
      strstr-byte 34 (bootentry ++ 32 ∷ []) (name ++ 34 ∷ 32 ∷ 123 ∷ [])
        (Free-Letters 34 (bootentry ++ 32 ∷ []) (letters-Letters 34 (bootentry ++ 32 ∷ []) refl)) in
    let close = strstr-byte 34 name (32 ∷ 123 ∷ []) (Free-Letters 34 name h) in
    rw (open_, close, take-strlen name (34 ∷ 32 ∷ 123 ∷ [])) refl
