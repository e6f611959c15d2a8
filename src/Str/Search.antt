-- ===== src/Str/Search.antt =====
-- src/core/string.c: `strchr` and `strstr`, searches for the first occurrence.
use elfboot.Base.{
  ℕ, suc, ◌≤◌, ◌<◌, ◌≡◌, ◌≢◌, refl, sym, ap, ◌∙◌, subst, inl, inr, Bool-cases, true, false, List,
  [], ◌∷◌, ◌++◌, length, length-append, take, drop, Option, none, some, arith, leb, ◌==◌,
  take-append-drop,
}
use elfboot.Base.Int.{ℤ, pos, negsuc}
use elfboot.Base.Run.{ok}
use elfboot.Str.{first, rest, u8, strlen, is_zero, strchr, strstr_loop, strstr}
use elfboot.Str.Compare.{memcmp_lem, strlen-length}

-- `needle` stands in `hay` behind `before`.
abbrev pub Occurs : List ℕ → List ℕ → List ℕ → List ℕ → Type 0
Occurs needle hay before after = hay ≡ before ++ (needle ++ after)

-- The result of a search: the string from the first occurrence on.
pub data FirstMatch (needle hay : List ℕ) : Option (List ℕ) → Type 0 where
  match :
      (before after : List ℕ)
      → Occurs needle hay before after
      → ((b a : List ℕ) → Occurs needle hay b a → length before ≤ length b)
      → FirstMatch needle hay (some (needle ++ after))
  missing : ((b a : List ℕ) → ¬ Occurs needle hay b a) → FirstMatch needle hay none

-- A match further back stays the first one if there is none at the front.
FirstMatch-later :
    (needle : List ℕ) (x : ℕ) (hay : List ℕ) {r : Option (List ℕ)}
    → ((a : List ℕ) → x ∷ hay ≢ needle ++ a)
    → FirstMatch needle hay r
    → FirstMatch needle (x ∷ hay) r
FirstMatch-later needle x hay here (match before after at least) =
    match (x ∷ before) after (ap (◌∷◌ x) at) (later)
  where
    later : (b a : List ℕ) → Occurs needle (x ∷ hay) b a → suc (length before) ≤ length b
    later [] a h = absurd (here a h)
    later (y ∷ b) a h = omega (arith, least b a (ap rest h))
FirstMatch-later needle x hay here (missing none_) = missing later
  where
    later : (b a : List ℕ) → ¬ Occurs needle (x ∷ hay) b a
    later [] a h = here a h
    later (y ∷ b) a h = none_ b a (ap rest h)

take-append : (s t : List ℕ) → take (length s) (s ++ t) ≡ s
take-append [] t = refl
take-append (c ∷ s) t = ap (◌∷◌ c) (take-append s t)

take-length : (s : List ℕ) → take (length s) s ≡ s
take-length [] = refl
take-length (c ∷ s) = ap (◌∷◌ c) (take-length s)

-- Nothing longer stands in a list.
too_long : (needle hay b a : List ℕ) → length hay < length needle → ¬ Occurs needle hay b a
too_long needle hay b a h at =
    omega (arith, ap length at, length-append b (needle ++ a), length-append needle a)

strstr_loop-FirstMatch :
    (hay needle : List ℕ)
    → 0 < length needle
    → (r : Option (List ℕ)) × (strstr_loop hay needle (length needle) (length hay) ≡ ok r)
      × FirstMatch needle hay r
unfolding strstr_loop
strstr_loop-FirstMatch [] needle some_needle =
    (none, refl, missing (λ b a. too_long needle [] b a some_needle))
strstr_loop-FirstMatch (x ∷ hay) needle some_needle =
    let n = length needle in
    elim (Bool-cases (leb n (suc (length hay)))) [
      | inr short ↦
          (none, rw short refl, missing (λ b a. too_long needle (x ∷ hay) b a (ground arith)))
      | inl fits ↦
          let (z, run, same) = memcmp_lem (x ∷ hay) needle n (ground arith) (omega arith) in
          elim (Bool-cases (is_zero z)) [
            | inl hit ↦
                let zero_z : z ≡ pos 0 = is_zero_lem z hit in
                let prefix : take n (x ∷ hay) ≡ needle = same.0 zero_z ∙ take-length needle in
                let whole : x ∷ hay ≡ needle ++ drop n (x ∷ hay) =
                  sym (take-append-drop n (x ∷ hay)) ∙ ap (λ s. s ++ drop n (x ∷ hay)) prefix in
                (
                  some (needle ++ drop n (x ∷ hay)),
                  rw (fits, run, hit) (ap (λ s. ok (some s)) whole),
                  match [] (drop n (x ∷ hay)) whole (λ b a h. omega arith),
                )
            | inr miss ↦
                let (r, deeper, spec) = strstr_loop-FirstMatch hay needle some_needle in
                let here : (a : List ℕ) → x ∷ hay ≢ needle ++ a = λ a h.
                  let prefix : take n (x ∷ hay) ≡ take n needle =
                    ap (take n) h ∙ take-append needle a ∙ sym (take-length needle) in
                  absurd (nonzero z miss (same.1 prefix)) in
                (r, rw (fits, run, miss) deeper, FirstMatch-later needle x hay here spec)
          ]
    ]
  where
    is_zero_lem : (z : ℤ) → is_zero z ≡ true → z ≡ pos 0
    is_zero_lem (pos n) h = ground arith
    is_zero_lem (negsuc n) h = cc

    nonzero : (z : ℤ) → is_zero z ≡ false → z ≢ pos 0
    nonzero (pos n) h e = ground arith
    nonzero (negsuc n) h e = cc

-- `strstr` ends without reading outside its strings. It returns the string from the first
-- occurrence on, or null where there is none.
pub strstr-FirstMatch :
    (hay needle : List ℕ)
    → (r : Option (List ℕ)) × (strstr hay needle ≡ ok r) × FirstMatch needle hay r
unfolding strstr strlen
strstr-FirstMatch hay [] = (some hay, refl, match [] hay refl (λ b a h. omega arith))
strstr-FirstMatch hay (y ∷ needle) =
    let nonzero : (strlen (y ∷ needle) == 0) ≡ false = ground (arith, strlen-length (y ∷ needle)) in
    rw (nonzero, strlen-length (y ∷ needle), strlen-length hay)
      (strstr_loop-FirstMatch hay (y ∷ needle) (omega arith))

-- For a byte other than the terminator `strchr` returns the string from its first occurrence on, or
-- null where it does not occur.
pub strchr-FirstMatch : (s : List ℕ) (c : ℕ) → 0 < c → c < 256 → FirstMatch (c ∷ []) s (strchr s c)
unfolding strchr
strchr-FirstMatch [] c p h =
    let e : (0 == u8 c) ≡ false = ground arith in
    rw e (missing (λ b a at. too_long (c ∷ []) [] b a (omega arith) at))
strchr-FirstMatch (x ∷ s) c p h = elim (Bool-cases (x == u8 c)) [
  | inl e ↦
      let same : x ≡ c = ground arith in
      rw e (
        subst (λ k. FirstMatch (c ∷ []) (x ∷ s) (some (k ∷ s))) (sym same)
          (match [] s (ap (λ k. k ∷ s) same) (λ b a at. omega arith)))
  | inr e ↦
      let here : (a : List ℕ) → x ∷ s ≢ (c ∷ []) ++ a =
        λ a at. let same : x ≡ c = ap first at in absurd (ground arith) in
      rw e (FirstMatch-later (c ∷ []) x s here (strchr-FirstMatch s c p h))
]
