-- ===== src/Vfs/Paths.antt =====
-- src/fs/fs.c: the parts of a path, by `strtok`.
use mathlib.Core.List.{append-nil}
use elfboot.Base.{
  ℕ, suc, ◌≤◌, ◌≡◌, refl, ◌∙◌, false, Option, none, some, List, [], ◌∷◌, ◌++◌, length, arith, ◌==◌,
}
use elfboot.Str.{next_token, strspn, strchr, strlen, strtok}
use elfboot.Loader.Lines.{
  Letters, strcspn-word, strcspn-last, strspn-word, take-word, drop-word, drop_all,
}

-- The path of some parts.
abbrev pub join : List (List ℕ) → List ℕ
join [] = []
join (part ∷ parts) = 47 ∷ (part ++ join parts)

-- A part is not empty and has no slash.
abbrev pub IsPart : List ℕ → Type 0
IsPart [] = ⊥
IsPart (c ∷ part) = Letters 47 (c ∷ part)

abbrev pub AreParts : List (List ℕ) → Type 0
AreParts [] = Unit {0}
AreParts (part ∷ parts) = IsPart part × AreParts parts

-- Where the next search starts.
abbrev pub pointer : List (List ℕ) → Option (List ℕ)
pointer [] = none
pointer (part ∷ parts) = some (part ++ join parts)

next_token-part :
    (part : List ℕ) (parts : List (List ℕ))
    → IsPart part
    → next_token (part ++ join parts) (47 ∷ []) ≡ (some part, pointer parts)
next_token-part [] parts h = absurd h
next_token-part (c ∷ part) [] (positive, byte, other, h) =
    let nonempty : (suc (length part) == 0) ≡ false = ground arith in
    rw
      (
        append-nil part,
        strspn-word 47 (omega arith) (omega arith) c part (positive, byte, other, tt),
        strcspn-last 47 (omega arith) (omega arith) (c ∷ part) (positive, byte, other, h),
        drop_all part,
        nonempty,
      )
      refl
next_token-part (c ∷ part) (q ∷ parts) (positive, byte, other, h) =
    let nonempty : (suc (length part) == 0) ≡ false = ground arith in
    rw
      (
        strspn-word 47 (omega arith) (omega arith) c (part ++ join (q ∷ parts))
            (positive, byte, other, tt),
        strcspn-word 47 (omega arith) (omega arith) (c ∷ part) (q ++ join parts)
            (positive, byte, other, h),
        nonempty,
        drop-word part (join (q ∷ parts)),
        take-word part (join (q ∷ parts)),
      )
      refl

next_token-slash : (s : List ℕ) → next_token (47 ∷ s) (47 ∷ []) ≡ next_token s (47 ∷ [])
unfolding strspn strchr
next_token-slash s = refl

-- The first part, behind the slash, and each further one.
pub strtok_first :
    (part : List ℕ) (parts : List (List ℕ))
    → IsPart part
    → strtok (some (join (part ∷ parts))) (47 ∷ []) none ≡ (some part, pointer parts)
unfolding strtok
strtok_first part parts h = next_token-slash (part ++ join parts) ∙ next_token-part part parts h

pub strtok-pointer :
    (part : List ℕ) (parts : List (List ℕ))
    → IsPart part
    → strtok none (47 ∷ []) (pointer (part ∷ parts)) ≡ (some part, pointer parts)
unfolding strtok
strtok-pointer part parts h = next_token-part part parts h

pub length-join : (parts : List (List ℕ)) → length parts ≤ strlen (join parts)
unfolding strlen
length-join [] = omega arith
length-join ([] ∷ parts) = omega (arith, length-join parts)
length-join ((c ∷ part) ∷ parts) = omega (arith, length-join (part ∷ parts))
