-- ===== src/PageAlloc/Members.antt =====
-- src/mm/page_alloc.c: what allocation and freeing leave alone.
use elfboot.Base.{
  ℕ, zero, suc, ◌+◌, ◌-◌, ◌^◌, ◌≡◌, refl, ◌∙◌, Bool-cases, inl, inr, true, false, Bool, Option,
  none, some, ltb, ◌==◌, if◌then◌else◌, arith,
}
use elfboot.Base.Run.{Run, ok, fault, out_of_fuel, ◌>>=◌}
use elfboot.PageAlloc.{
  Page, Pages, page_num, page_max_order, change, get_page, set_page, phys_to_pfn, page_buddy,
  free_page_add, is_linked, free_page_del, set_heads, page_set_compound_head, fix_loop,
  free_page_fix, find_area, take_pages, get_free_pages, alloc_pages, merge_pages, merge_loop,
  merge_free_page, free_pages, free_page,
}

-- The members of the slab allocator, and the address.
pub record SameMembers (page page' : Page) : Type 0 where
  pub paddr : page'.paddr ≡ page.paddr
  pub slab_cache : page'.slab_cache ≡ page.slab_cache
  pub inuse : page'.inuse ≡ page.inuse
  pub freelist : page'.freelist ≡ page.freelist

pub SameMembers-refl : (page : Page) → SameMembers page page
SameMembers-refl page = record { paddr = refl; slab_cache = refl; inuse = refl; freelist = refl }

abbrev pub Kept : (ℕ → Page) → (ℕ → Page) → Type 0
Kept map map' = (q : ℕ) → SameMembers (map q) (map' q)

Kept-trans : (f g h : ℕ → Page) → Kept f g → Kept g h → Kept f h
Kept-trans f g h k l q =
    let a = k q in
    let b = l q in
    record {
      paddr = b.paddr ∙ a.paddr;
      slab_cache = b.slab_cache ∙ a.slab_cache;
      inuse = b.inuse ∙ a.inuse;
      freelist = b.freelist ∙ a.freelist;
    }

-- A run that keeps the members wherever it ends with a result; `view` is the state in the result.
abbrev pub Keeps : {R : Type 0} → (ℕ → Page) → (R → Pages) → Run R → Type 0
Keeps map view (ok r) = Kept map (view r).page_map
Keeps map view fault = Unit
Keeps map view out_of_fuel = Unit

Keeps-trans :
    {R : Type 0} (f g : ℕ → Page) (view : R → Pages) (r : Run R)
    → Kept f g
    → Keeps g view r
    → Keeps f view r
Keeps-trans f g view (ok r) h k = Kept-trans f g (view r).page_map h k
Keeps-trans f g view fault h k = tt
Keeps-trans f g view out_of_fuel h k = tt

Keeps-bind :
    {Q R : Type 0} (map : ℕ → Page) (from : Q → Pages) (view : R → Pages) (r : Run Q)
    (f : Q → Run R)
    → Keeps map from r
    → ((q : Q) → Keeps (from q).page_map view (f q))
    → Keeps map view (r >>= f)
Keeps-bind map from view (ok q) f h k = Keeps-trans map (from q).page_map view (f q) h (k q)
Keeps-bind map from view fault f h k = tt
Keeps-bind map from view out_of_fuel f h k = tt

-- A page is read first.
Keeps-get :
    {R : Type 0} (s : Pages) (p : ℕ) (view : R → Pages) (f : Page → Run R)
    → Keeps s.page_map view (f (s.page_map p))
    → Keeps s.page_map view (get_page s p >>= f)
unfolding get_page
Keeps-get s p view f h = elim (Bool-cases (ltb p page_num)) [ inl e ↦ rw e h | inr e ↦ rw e tt ]

abbrev itself : Pages → Pages
itself s = s

-- A page is written with its members kept.
Keeps-set :
    (s : Pages) (p : ℕ) (page : Page)
    → SameMembers (s.page_map p) page
    → Keeps s.page_map itself (set_page s p page)
unfolding set_page
Keeps-set s p page h = elim (Bool-cases (ltb p page_num)) [
  | inl e ↦ rw e (λ q. elim (Bool-cases (q == p)) [
    | inl here ↦ let same : q ≡ p = ground arith in rw (here, same) h
    | inr there ↦ rw there (SameMembers-refl (s.page_map q))
  ])
  | inr e ↦ rw e tt
]

-- A page is read, and written with its members kept.
Keeps-update :
    {R : Type 0} (s : Pages) (p : ℕ) (view : R → Pages) (change : Page → Page) (f : Pages → Run R)
    → ((page : Page) → SameMembers page (change page))
    → ((s' : Pages) → Keeps s'.page_map view (f s'))
    → Keeps s.page_map view (get_page s p >>= λ page. set_page s p (change page) >>= f)
Keeps-update s p view change f same k =
    Keeps-get s p view (λ page. set_page s p (change page) >>= f)
      (Keeps-bind s.page_map itself view (set_page s p (change (s.page_map p))) f
        (Keeps-set s p (change (s.page_map p)) (same (s.page_map p))) k)

members : (page : Page) → SameMembers page page
members = SameMembers-refl

free_page_del-Keeps : (s : Pages) (p : ℕ) → Keeps s.page_map itself (free_page_del s p)
unfolding free_page_del
free_page_del-Keeps s p = Keeps-get s p itself _ (elim (Bool-cases (is_linked s p page_max_order)) [
  | inl e ↦ rw e (λ q. members (s.page_map q))
  | inr e ↦ rw e tt
])

set_heads-Keeps : (head n : ℕ) (s : Pages) (p : ℕ) → Keeps s.page_map itself (set_heads head s p n)
unfolding set_heads
set_heads-Keeps head zero s p = λ q. members (s.page_map q)
set_heads-Keeps head (suc n) s p =
    Keeps-update s p itself (λ page. record page { compound_head = head }) _
      (λ page. record { paddr = refl; slab_cache = refl; inuse = refl; freelist = refl })
      (λ s'. set_heads-Keeps head n s' (p + 1))

-- The other members are written.
same :
    (page : Page) (free : Bool) (order head : ℕ)
    → SameMembers page (record page { is_free = free; order = order; compound_head = head })
same page free order head = record {
  paddr = refl;
  slab_cache = refl;
  inuse = refl;
  freelist = refl;
}

fix_loop-Keeps : (p order : ℕ) (s : Pages) (n : ℕ) → Keeps s.page_map itself (fix_loop p order s n)
unfolding fix_loop free_page_add
fix_loop-Keeps p order s zero = λ q. members (s.page_map q)
fix_loop-Keeps p order s (suc n) =
    let porder = order + n in
    let b = page_buddy p (s.page_map p).paddr porder in
    Keeps-get s p itself _ (
      Keeps-update s b itself (λ page. record page { order = porder; is_free = true }) _
        (λ page. same page true porder page.compound_head)
        (λ s'. fix_loop-Keeps p order (free_page_add s' b porder) n))

free_page_fix-Keeps : (s : Pages) (p order : ℕ) → Keeps s.page_map itself (free_page_fix s p order)
unfolding free_page_fix
free_page_fix-Keeps s p order =
    Keeps-get s p itself _ (fix_loop-Keeps p order s ((s.page_map p).order - order))

take_pages-Keeps : (s : Pages) (p order : ℕ) → Keeps s.page_map itself (take_pages s p order)
unfolding take_pages page_set_compound_head
take_pages-Keeps s p order = Keeps-bind s.page_map itself itself _ _ (free_page_del-Keeps s p) λ s₁.
    Keeps-bind s₁.page_map itself itself _ _ (free_page_fix-Keeps s₁ p order) λ s₂.
      Keeps-get s₂ p itself _ (
        Keeps-bind s₂.page_map itself itself _ _
          (Keeps-set s₂ p _ (same (s₂.page_map p) false order (s₂.page_map p).compound_head))
          λ s₃.
            Keeps-bind s₃.page_map itself itself _ _ (set_heads-Keeps p (2 ^ order) s₃ p)
              λ s₄. set_heads-Keeps _ (2 ^ order) s₄ _)

abbrev pub state : Option ℕ × Pages → Pages
state r = r.1

-- Allocation keeps the members of the slab allocator in every page.
pub alloc_pages-Keeps : (s : Pages) (order : ℕ) → Keeps s.page_map state (alloc_pages s order)
unfolding alloc_pages get_free_pages
alloc_pages-Keeps s order = go (find_area s order (page_max_order - order))
  where
    go :
        (found : Option ℕ)
        → Keeps s.page_map state (elim found [
          | none ↦ ok (none, s)
          | some p ↦ take_pages s p order >>= λ s'. ok (some p, s')
        ])
    go none = λ q. members (s.page_map q)
    go (some p) =
        Keeps-bind s.page_map itself state _ _ (take_pages-Keeps s p order)
          (λ s' q. members (s'.page_map q))

abbrev merged : ℕ × Pages → Pages
merged r = r.1

merge_pages-Keeps : (s : Pages) (p b : ℕ) → Keeps s.page_map merged (merge_pages s p b)
unfolding merge_pages page_set_compound_head
merge_pages-Keeps s p b = Keeps-bind s.page_map itself merged _ _ (free_page_del-Keeps s p) λ s₁.
    Keeps-bind s₁.page_map itself merged _ _ (free_page_del-Keeps s₁ b) λ s₂.
      Keeps-get s₂ p merged _ (
        Keeps-bind s₂.page_map itself merged _ _
          (Keeps-set s₂ p _
            (same (s₂.page_map p) (s₂.page_map p).is_free _ (s₂.page_map p).compound_head))
          λ s₃. Keeps-get s₃ b merged _ (
            Keeps-bind s₃.page_map itself merged _ _
              (Keeps-set s₃ b _
                (same (s₃.page_map b) (s₃.page_map b).is_free _ (s₃.page_map b).compound_head))
              λ s₄. Keeps-get s₄ _ merged _ (
                Keeps-bind s₄.page_map itself merged _ _ (set_heads-Keeps _ _ s₄ _)
                  (λ s₅ q. members (s₅.page_map q)))))

if-Keeps :
    (map : ℕ → Page) (test : Bool) (r t : Run Pages)
    → Keeps map itself r
    → Keeps map itself t
    → Keeps map itself (if test then r else t)
if-Keeps map true r t h k = h
if-Keeps map false r t h k = k

merge_loop-Keeps : (n : ℕ) (s : Pages) (p : ℕ) → Keeps s.page_map itself (merge_loop n s p)
unfolding merge_loop free_page_add
merge_loop-Keeps zero s p = λ q. members (s.page_map q)
merge_loop-Keeps (suc n) s p = Keeps-get s p itself _ (
    Keeps-get s _ itself _ (
      if-Keeps s.page_map _ (ok s) _ (λ q. members (s.page_map q))
        (Keeps-bind s.page_map merged itself _ _ (merge_pages-Keeps s p _)
          λ r. Keeps-get r.1 r.0 itself _ (merge_loop-Keeps n (free_page_add r.1 r.0 _) r.0))))

-- So does freeing.
pub free_page-Keeps : (s : Pages) (addr : ℕ) → Keeps s.page_map itself (free_page s addr)
unfolding free_page free_pages free_page_add merge_free_page
free_page-Keeps s addr =
    let p = phys_to_pfn addr in
    Keeps-get s p itself _ (
      Keeps-update (free_page_add s p (s.page_map p).order) p itself
        (λ page. record page { is_free = true }) _
        (λ page. same page true page.order page.compound_head)
        (λ s'. Keeps-get s' p itself _ (merge_loop-Keeps _ s' p)))
