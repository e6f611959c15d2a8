-- ===== src/Menu/Options.antt =====
-- src/core/loader.c: the array of the boot entries.
use elfboot.Base.{
  ℕ, zero, suc, ◌+◌, ◌-◌, ◌≤◌, ◌<◌, ◌≡◌, refl, ap, ◌∙◌, subst, true, false, some, List, [], ◌∷◌,
  length, get_elem?, arith, ltb, ◌==◌,
}
use elfboot.Base.Run.{ok}
use elfboot.PageAlloc.{change}
use elfboot.Loader.{BootEntry, Loader}
use elfboot.Menu.{options_loop, loader_init_boot_options}

-- The array has the entries from the index `base` on, and is as it was before that.
pub record Copied (base : ℕ) (entries : List BootEntry) (before options : ℕ → BootEntry)
    : Type 0 where
  pub copies : (i : ℕ) → i < length entries → some (options (base + i)) ≡ get_elem? entries i
  pub others : (i : ℕ) → i < base → options i ≡ before i

options_loop_lem :
    (n choice : ℕ) (entries : List BootEntry) (options : ℕ → BootEntry)
    → choice ≡ length entries
    → choice ≤ n
    → (options' : ℕ → BootEntry) × (options_loop n entries choice options ≡ ok (options', 0))
      × Copied (n - choice) entries options options'
unfolding options_loop
options_loop_lem n zero [] options e le =
    (options, refl, record { copies = λ i h. absurd (omega arith); others = λ i h. refl })
options_loop_lem n zero (entry ∷ entries) options e le = absurd (omega arith)
options_loop_lem n (suc choice) [] options e le = absurd (omega arith)
options_loop_lem n (suc choice) (entry ∷ entries) options e le =
    let inside : ltb n (suc choice) ≡ false = ground arith in
    let here = n - suc choice in
    let next : n - choice ≡ here + 1 = omega arith in
    let (options', run, rest) =
      options_loop_lem n choice entries (change options here entry) (omega arith) (omega arith) in
    let rest' : Copied (here + 1) entries (change options here entry) options' =
      subst (λ (b : ℕ). Copied b entries (change options here entry) options') next rest in
    let same : (here == here) ≡ true = ground arith in
    (
      options',
      rw inside run,
      record {
        copies = go here entry entries options options' rest';
        others = λ i h.
            let other : (i == here) ≡ false = ground arith in
            rest'.others i (omega arith) ∙ rw other refl;
      },
    )
  where
    go :
        (here : ℕ) (entry : BootEntry) (entries : List BootEntry) (options options' : ℕ → BootEntry)
        → Copied (here + 1) entries (change options here entry) options'
        → (i : ℕ) → i < suc (length entries)
        → some (options' (here + i)) ≡ get_elem? (entry ∷ entries) i
    go here entry entries options options' rest zero h =
        let same : (here == here) ≡ true = ground arith in
        let first : here + 0 ≡ here = omega arith in
        rw first (ap some (rest.others here (omega arith) ∙ rw same refl))
    go here entry entries options options' rest (suc i) h =
        let next : here + suc i ≡ here + 1 + i = omega arith in
        rw next (rest.copies i (omega arith))

-- With entries on the list, `boot_number` and `boot_choice` their number, and memory, the array has the
-- entries in their order, and the first is selected.
pub loader_init_boot_options-Copied :
    (s : Loader) (options : ℕ → BootEntry)
    → s.boot_number ≡ length s.boot_list
    → s.boot_choice ≡ length s.boot_list
    → 0 < s.boot_number
    → s.allocs ≡ []
    → (options' : ℕ → BootEntry) × (loader_init_boot_options s options ≡ ok (some (options', 0)))
      × Copied 0 s.boot_list options options'
unfolding loader_init_boot_options
loader_init_boot_options-Copied s options number choice some_entry rich =
    let given : (s.boot_number == 0) ≡ false = ground arith in
    let base : s.boot_number - s.boot_choice ≡ 0 = omega arith in
    let (options', run, copied) =
      options_loop_lem s.boot_number s.boot_choice s.boot_list options choice (omega arith) in
    (
      options',
      rw (given, rich, run) refl,
      subst (λ (b : ℕ). Copied b s.boot_list options options') base copied,
    )
