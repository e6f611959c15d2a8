-- ===== src/Str/Compare.antt =====
-- src/core/string.c: comparing and copying strings.
use elfboot.Base.{
  ℕ, zero, suc, ◌≤◌, ◌<◌, ◌≡◌, ◌≢◌, refl, ap, ap₂, ◌↔◌, inl, inr, Bool-cases, true, false, List, [],
  ◌∷◌, ◌++◌, length, take, drop, min, arith, ltb, leb, ◌==◌,
}
use elfboot.Base.Int.{ℤ, pos, negsuc}
use elfboot.Base.Run.{ok}
use elfboot.Str.{first, rest, schar_delta, memcmp, strcmp, strncmp, strlen, memcpy, strcpy, strncpy}

-- Bytes, none of them the terminator.
abbrev pub IsString : List ℕ → Type 0
IsString [] = Unit {0}
IsString (c ∷ s) = (0 < c) × (c < 256) × IsString s

delta-differ : (c d : ℕ) → c < 256 → d < 256 → schar_delta c d ≡ pos 0 → c ≡ d
delta-differ c d hc hd h = ground arith

strcmp-zero : (s t : List ℕ) → IsString s → IsString t → strcmp s t ≡ pos 0 → s ≡ t
unfolding strcmp
strcmp-zero [] [] p q h = refl
strcmp-zero [] (d ∷ t) p q h = absurd (omega (arith, delta-differ 0 d (omega arith) q.1 h, q.0))
strcmp-zero (c ∷ s) [] p q h = absurd (omega (arith, delta-differ c 0 p.1 (omega arith) h, p.0))
strcmp-zero (c ∷ s) (d ∷ t) p q h = elim (Bool-cases (c == d)) [
  | inl e ↦ let same : c ≡ d = ground arith in ap₂ ◌∷◌ same (strcmp-zero s t p.2 q.2 (rw e at h))
  | inr e ↦ absurd (ground (arith, delta-differ c d p.1 q.1 (rw e at h)))
]

pub strcmp_self : (s : List ℕ) → strcmp s s ≡ pos 0
unfolding strcmp
strcmp_self [] = refl
strcmp_self (c ∷ s) = let e : (c == c) ≡ true = ground arith in rw e (strcmp_self s)

-- For strings of bytes `strcmp` returns 0 exactly where they are equal.
pub strcmp_iff : (s t : List ℕ) → IsString s → IsString t → (strcmp s t ≡ pos 0) ↔ (s ≡ t)
strcmp_iff s t p q = (strcmp-zero s t p q, λ e. rw e (strcmp_self t))

strncmp-zero :
    (s t : List ℕ) (n : ℕ) → IsString s → IsString t → strncmp s t n ≡ pos 0 → take n s ≡ take n t
unfolding strncmp
strncmp-zero s t zero p q h = refl
strncmp-zero [] [] (suc n) p q h = refl
strncmp-zero [] (d ∷ t) (suc n) p q h = absurd (ground arith)
strncmp-zero (c ∷ s) [] (suc n) p q h = absurd (ground arith)
strncmp-zero (c ∷ s) (d ∷ t) (suc n) p q h = elim (Bool-cases (c == d)) [
  | inl e ↦
      let same : c ≡ d = ground arith in
      let nonzero : (c == 0) ≡ false = ground arith in
      ap₂ ◌∷◌ same (strncmp-zero s t n p.2 q.2 (rw (e, nonzero) at h))
  | inr e ↦ absurd (ground arith)
]

strncmp-same :
    (s t : List ℕ) (n : ℕ) → IsString s → IsString t → take n s ≡ take n t → strncmp s t n ≡ pos 0
unfolding strncmp
strncmp-same s t zero p q h = refl
strncmp-same [] [] (suc n) p q h = refl
strncmp-same [] (d ∷ t) (suc n) p q h = cc
strncmp-same (c ∷ s) [] (suc n) p q h = cc
strncmp-same (c ∷ s) (d ∷ t) (suc n) p q h =
    let same : c ≡ d = ap first h in
    let e : (c == d) ≡ true = ground arith in
    let nonzero : (c == 0) ≡ false = ground arith in
    rw (e, nonzero) (strncmp-same s t n p.2 q.2 (ap rest h))

-- For strings of bytes `strncmp` returns 0 exactly where their first `n` bytes are equal.
pub strncmp_iff :
    (s t : List ℕ) (n : ℕ)
    → IsString s
    → IsString t
    → (strncmp s t n ≡ pos 0) ↔ (take n s ≡ take n t)
strncmp_iff s t n p q = (strncmp-zero s t n p q, strncmp-same s t n p q)

pub strlen-length : (s : List ℕ) → strlen s ≡ length s
unfolding strlen
strlen-length [] = refl
strlen-length (c ∷ s) = ap suc (strlen-length s)

-- Inside both objects `memcmp` reads without a fault, and returns 0 exactly where the bytes are equal.
pub memcmp_lem :
    (a b : List ℕ) (n : ℕ)
    → n ≤ length a
    → n ≤ length b
    → (z : ℤ) × (memcmp a b n ≡ ok z) × ((z ≡ pos 0) ↔ (take n a ≡ take n b))
unfolding memcmp
memcmp_lem a b zero p q = (pos 0, refl, (λ e. refl, λ e. refl))
memcmp_lem [] b (suc n) p q = absurd (omega arith)
memcmp_lem (x ∷ a) [] (suc n) p q = absurd (omega arith)
memcmp_lem (x ∷ a) (y ∷ b) (suc n) p q =
    let (z, run, same) = memcmp_lem a b n (omega arith) (omega arith) in
    elim (Bool-cases (x == y)) [
      | inl e ↦
          let eq : x ≡ y = ground arith in
          let le : ltb x y ≡ false = ground arith in
          let ge : ltb y x ≡ false = ground arith in
          (z, rw (le, ge) run, (λ h. ap₂ ◌∷◌ eq (same.0 h), λ h. same.1 (ap rest h)))
      | inr e ↦
          let ne : x ≢ y = ground arith in
          elim (Bool-cases (ltb x y)) [
            | inl le ↦ (negsuc 0, rw le refl, (λ h. cc, λ h. absurd (ne (ap first h))))
            | inr le ↦
                let ge : ltb y x ≡ true = ground arith in
                (pos 1, rw (le, ge) refl, (λ h. ground arith, λ h. absurd (ne (ap first h))))
          ]
    ]

memcpy_lem :
    (dst src : List ℕ) (n : ℕ)
    → n ≤ length dst
    → n ≤ length src
    → memcpy dst src n ≡ ok (take n src ++ drop n dst)
unfolding memcpy
memcpy_lem dst src zero p q = refl
memcpy_lem [] src (suc n) p q = absurd (omega arith)
memcpy_lem (x ∷ dst) [] (suc n) p q = absurd (omega arith)
memcpy_lem (x ∷ dst) (y ∷ src) (suc n) p q = rw (memcpy_lem dst src n (omega arith) (omega arith))

take-all : (s : List ℕ) (n : ℕ) → length s ≤ n → take n s ≡ s
take-all [] zero h = refl
take-all [] (suc n) h = refl
take-all (c ∷ s) zero h = absurd (omega arith)
take-all (c ∷ s) (suc n) h = ap (◌∷◌ c) (take-all s n (omega arith))

-- Where the destination has `min len (strlen str)` bytes, `strncpy` writes that many bytes of the
-- string, and leaves the byte behind them, where a terminator belongs, and the others.
pub strncpy_lem :
    (dst str : List ℕ) (len : ℕ)
    → min len (strlen str) ≤ length dst
    → strncpy dst str len ≡ ok (take len str ++ drop (min len (strlen str)) dst)
unfolding strncpy strcpy
strncpy_lem dst str len h =
    let size = strlen-length str in
    elim (Bool-cases (leb (strlen str) len)) [
      | inl e ↦
          let least : min len (strlen str) ≡ strlen str = ground arith in
          rw (e, least, take-all str len (ground arith))
            (rw (
              memcpy_lem dst str (strlen str) (omega arith) (omega arith),
              take-all str (strlen str) (omega arith),
            ))
      | inr e ↦
          let least : min len (strlen str) ≡ len = ground arith in
          rw (e, least) (memcpy_lem dst str len (ground arith) (ground arith))
    ]
