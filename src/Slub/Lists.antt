-- ===== src/Slub/Lists.antt =====
-- Lists of pages and of objects: permutations, removal, updates at an index.
use mathlib.Core.Logic.Or
use mathlib.Core.List.{
  foldr, Mem, Mem-prop, Perm, Nodup, Nodup-append, not-mem-nil, mem-cons_self, mem-cons_of_mem,
  mem-append, mem_of_ne_of_mem, perm_middle, dec_mem,
}
use mathlib.Core.List.Perm
use native.Mathlib.Nat.{ℕ_set}
use elfboot.Base.{
  sym, ℕ, suc, ◌≡◌, ◌≢◌, refl, ap, ◌∙◌, inl, inr, Bool-cases, true, false, List, [], ◌∷◌, ◌++◌,
  length, arith, ◌==◌, ℕ_discrete,
}
use elfboot.PageAlloc.{change, unlink}

module _ {ℓ} {A : Type ℓ} where
  length-foldr : (xs : List A) → foldr (λ (x : A) (n : ℕ). suc n) 0 xs ≡ length xs
  length-foldr [] = refl
  length-foldr (x ∷ xs) = ap suc (length-foldr xs)

  -- The length does not depend on the order.
  pub length-perm : {a b : List A} → Perm a b → length a ≡ length b
  length-perm {a} {b} p =
      sym (length-foldr a) ∙ Perm.foldr-eq ℕ_set (λ x n. suc n) (λ x y n. refl) p 0 ∙ length-foldr b

  -- An element behind the first list moves to the front of the second.
  pub perm_move : (x : A) (a b : List A) → Perm ((a ++ x ∷ []) ++ b) (a ++ x ∷ b)
  perm_move x [] b = Perm.rfl
  perm_move x (y ∷ a) b = Perm.cons y (perm_move x a b)

pub change_self {ℓ} : {A : Type ℓ} (f : ℕ → A) (i : ℕ) (v : A) → change f i v i ≡ v
change_self f i v = let test : (i == i) ≡ true = ground arith in rw test refl

pub change_ne {ℓ} : {A : Type ℓ} (f : ℕ → A) {i j : ℕ} (v : A) → j ≢ i → change f i v j ≡ f j
change_ne f {i} {j} v h = let test : (j == i) ≡ false = ground arith in rw test refl

pub unlink-not_mem : (p : ℕ) (xs : List ℕ) → ¬ Mem p xs → unlink p xs ≡ xs
unlink-not_mem p [] h = refl
unlink-not_mem p (q ∷ xs) h = elim (Bool-cases (q == p)) [
  | inl e ↦ let same : q ≡ p = ground arith in absurd (h (rw same mem-cons_self))
  | inr e ↦ rw e (ap (λ (t : List ℕ). q ∷ t) (unlink-not_mem p xs (λ m. h (mem-cons_of_mem q m))))
]

pub unlink_first : (p : ℕ) (xs : List ℕ) → unlink p (p ∷ xs) ≡ xs
unlink_first p xs = let test : (p == p) ≡ true = ground arith in rw test refl

pub perm-unlink : (p : ℕ) (xs : List ℕ) → Mem p xs → Perm (p ∷ unlink p xs) xs
perm-unlink p [] h = absurd (not-mem-nil h)
perm-unlink p (q ∷ xs) h = elim (Bool-cases (q == p)) [
  | inl e ↦ let same : p ≡ q = ground arith in rw e (Perm.cons' same Perm.rfl)
  | inr e ↦
      let other : p ≢ q = ground arith in
      rw e (
        Perm.trans (Perm.swap q p (unlink p xs))
          (Perm.cons q (perm-unlink p xs (mem_of_ne_of_mem other h))))
]

pub mem_of_mem-unlink : (p : ℕ) (xs : List ℕ) {q : ℕ} → Mem q (unlink p xs) → Mem q xs
mem_of_mem-unlink p xs {q} m = elim (dec_mem ℕ_discrete p xs) [
  | yes h ↦ (Perm.mem_iff (perm-unlink p xs h)).0 (mem-cons_of_mem p m)
  | no n ↦ rw (unlink-not_mem p xs n) at m
]

-- What removal leaves of two lists of which one has `p`.
pub perm-unlink_both :
    (p : ℕ) (xs ys : List ℕ)
    → Nodup (xs ++ ys)
    → Mem p (xs ++ ys)
    → Perm (p ∷ (unlink p xs ++ unlink p ys)) (xs ++ ys)
perm-unlink_both p xs ys once m = elim (dec_mem ℕ_discrete p xs) [
  | yes h ↦
      let (_, _, apart) = Nodup-append.0 once in
      rw (unlink-not_mem p ys (apart p h)) (Perm.append_right ys (perm-unlink p xs h))
  | no n ↦
      let h : Mem p ys = Or.resolve_left Mem-prop (mem-append.0 m) n in
      rw (unlink-not_mem p xs n) (
        Perm.trans (Perm.symm (perm_middle xs (unlink p ys)))
          (Perm.append_left xs (perm-unlink p ys h)))
]

pub first_of : (xs : List ℕ) → xs ≢ [] → (x : ℕ) × (rest : List ℕ) × (xs ≡ x ∷ rest)
first_of [] h = absurd (h refl)
first_of (x ∷ rest) h = (x, rest, refl)
