-- ===== src/Menu/Highlight.antt =====
-- src/core/loader.c: what the menu shows, and the entry that the keys select.
use elfboot.Base.{
  ℕ, zero, suc, ◌+◌, ◌-◌, ◌≤◌, ◌<◌, ◌≡◌, ◌≢◌, refl, sym, ◌∙◌, true, false, Bool, Bool-cases, inl,
  inr, Option, some, List, [], ◌∷◌, ◌++◌, min, arith, leb, ◌==◌, if◌then◌else◌, ℕ_discrete,
}
use elfboot.PageAlloc.{change}
use elfboot.Menu.{
  console_ctrl_enter, console_ctrl_arrup, console_ctrl_arrdo, Menu, loader_menu_font,
  loader_menu_show_entry, loader_init_update, show_loop, boots, move, select, keys_loop,
}

-- An entry is selected, and of those shown it is the one that is inverted.
pub record IsShown (m : Menu) : Type 0 where
  pub selected : m.boot_choice < m.boot_number
  pub inverted : (i : ℕ) → i < m.boot_number → m.screen i ≡ some (i == m.boot_choice)

-- A menu with memory to draw.
abbrev pub menu : ℕ → ℕ → (ℕ → Option Bool) → Menu
menu boot_number boot_choice screen = record {
  boot_number = boot_number;
  boot_choice = boot_choice;
  allocs = [];
  screen = screen;
}

show_entry_lem :
    (n choice : ℕ) (screen : ℕ → Option Bool) (index : ℕ)
    → index < n
    → loader_menu_show_entry (menu n choice screen) index
      ≡ (true, menu n choice (change screen index (some (index == choice))))
unfolding loader_menu_show_entry loader_menu_font
show_entry_lem n choice screen index h =
    let inside : leb n index ≡ false = ground arith in rw inside refl

-- Both rows are drawn again.
abbrev pub redrawn : (ℕ → Option Bool) → ℕ → ℕ → ℕ → Option Bool
redrawn screen prev choice =
    change (change screen prev (some (prev == choice))) choice (some (choice == choice))

update_lem :
    (n choice prev : ℕ) (screen : ℕ → Option Bool)
    → prev < n
    → choice < n
    → loader_init_update (menu n choice screen) prev
      ≡ (true, menu n choice (redrawn screen prev choice))
unfolding loader_init_update
update_lem n choice prev screen h k =
    rw
      (
        show_entry_lem n choice screen prev h,
        show_entry_lem n choice (change screen prev (some (prev == choice))) choice k,
      )
      refl

-- The selection after a key, of `n` entries.
abbrev pub walk : ℕ → ℕ → ℕ → ℕ
walk n choice c =
    if c == console_ctrl_arrup
    then choice - 1
    else if c == console_ctrl_arrdo
    then min (choice + 1) (n - 1)
    else choice

abbrev pub walks : ℕ → ℕ → List ℕ → ℕ
walks n choice [] = choice
walks n choice (c ∷ keys) = walks n (walk n choice c) keys

redrawn-IsShown :
    (n choice prev : ℕ) (screen : ℕ → Option Bool)
    → IsShown (menu n prev screen)
    → choice < n
    → IsShown (menu n choice (redrawn screen prev choice))
redrawn-IsShown n choice prev screen h k = record {
  selected = k;
  inverted = λ i inside. elim (Bool-cases (i == choice)) [
    | inl here ↦
        let same : i ≡ choice = ground arith in
        let itself : (choice == choice) ≡ true = ground arith in rw (here, itself) refl
    | inr e ↦ elim (Bool-cases (i == prev)) [
      | inl before ↦ let same : i ≡ prev = ground arith in rw (e, before, sym same) (rw e refl)
      | inr f ↦ let old = h.inverted i inside in rw (e, f) (rw f at old)
    ]
  ];
}

-- What a key that is not ENTER does.
select_lem :
    (n choice c : ℕ) (screen : ℕ → Option Bool)
    → IsShown (menu n choice screen)
    → (screen' : ℕ → Option Bool) × (select (menu n choice screen) (move (menu n choice screen) c)
        ≡ (true, menu n (walk n choice c) screen'))
      × IsShown (menu n (walk n choice c) screen')
unfolding move
select_lem n choice c screen h = elim (Bool-cases (c == console_ctrl_arrup)) [
  | inl up ↦ elim (Bool-cases (choice == 0)) [
    | inl e ↦
        let same : choice - 1 ≡ choice = ground arith in
        (screen, rw (up, e, same) refl, rw (up, same) h)
    | inr e ↦
        let inside : choice - 1 < n = let old = h.selected in omega arith in
        (
          redrawn screen choice (choice - 1),
          rw (up, e, update_lem n (choice - 1) choice screen h.selected inside) refl,
          rw up (redrawn-IsShown n (choice - 1) choice screen h inside),
        )
  ]
  | inr other ↦ elim (Bool-cases (c == console_ctrl_arrdo)) [
    | inl down ↦ elim (Bool-cases (leb (n - 1) choice)) [
      | inl e ↦
          let same : min (choice + 1) (n - 1) ≡ choice = let old = h.selected in ground arith in
          (screen, rw (other, down, e, same) refl, rw (other, down, same) h)
      | inr e ↦
          let inside : choice + 1 < n = ground arith in
          let next : min (choice + 1) (n - 1) ≡ choice + 1 = ground arith in
          (
            redrawn screen choice (choice + 1),
            rw (other, down, e, next, update_lem n (choice + 1) choice screen h.selected inside)
                refl,
            rw (other, down, next) (redrawn-IsShown n (choice + 1) choice screen h inside),
          )
    ]
    | inr none_ ↦ (screen, rw (other, none_) refl, rw (other, none_) h)
  ]
]

show_loop_lem :
    (k n choice index : ℕ) (screen : ℕ → Option Bool)
    → index + k ≤ n
    → (screen' : ℕ → Option Bool) × (show_loop (menu n choice screen) index k
        ≡ (true, menu n choice screen'))
      × ((i : ℕ) → i < index → screen' i ≡ screen i)
      × ((i : ℕ) → index ≤ i → i < index + k → screen' i ≡ some (i == choice))
unfolding show_loop
show_loop_lem zero n choice index screen h =
    (screen, refl, λ i lt. refl, λ i low high. absurd (omega arith))
show_loop_lem (suc k) n choice index screen h =
    let drawn = change screen index (some (index == choice)) in
    let (screen', run, kept, shown) = show_loop_lem k n choice (index + 1) drawn (omega arith) in
    (
      screen',
      rw (show_entry_lem n choice screen index (omega arith)) run,
      λ i lt.
          let other : (i == index) ≡ false = ground arith in kept i (omega arith) ∙ rw other refl,
      λ i low high. elim (ℕ_discrete i index) [
        | yes e ↦
            let same : (index == index) ≡ true = ground arith in
            rw e (kept index (omega arith) ∙ rw same refl)
        | no other ↦ shown i (omega arith) (omega arith)
      ],
    )

-- Keys other than ENTER.
abbrev pub NoEnter : List ℕ → Type 0
NoEnter [] = Unit {0}
NoEnter (c ∷ keys) = (c ≢ console_ctrl_enter) × NoEnter keys

keys_loop_lem :
    (n choice : ℕ) (screen : ℕ → Option Bool) (before behind : List ℕ)
    → IsShown (menu n choice screen)
    → NoEnter before
    → (screen' : ℕ → Option Bool) × (keys_loop
          (menu n choice screen)
          (before ++ console_ctrl_enter ∷ behind)
        ≡ (boots (walks n choice before), menu n (walks n choice before) screen'))
      × IsShown (menu n (walks n choice before) screen')
unfolding keys_loop
keys_loop_lem n choice screen [] behind h none_ = (screen, refl, h)
keys_loop_lem n choice screen (c ∷ before) behind h (other, others) =
    let goes_on : (c == console_ctrl_enter) ≡ false = ground arith in
    let (screen₁, run, shown) = select_lem n choice c screen h in
    let (screen', runs, shown') =
      keys_loop_lem n (walk n choice c) screen₁ before behind shown others in
    (screen', rw (goes_on, run) runs, shown')

-- If there is an entry `choice` and memory to draw, the menu is shown with that entry inverted and no
-- other. Keys before an ENTER move the selection by one up or down, and not behind the first or the
-- last entry. ENTER boots the selected entry, which then is the one that is inverted.
pub menu_session :
    (n choice : ℕ) (screen : ℕ → Option Bool) (before behind : List ℕ)
    → choice < n
    → NoEnter before
    → (screen₁ : ℕ → Option Bool) × (screen₂ : ℕ → Option Bool) × (show_loop
          (menu n choice screen)
          0
          n
        ≡ (true, menu n choice screen₁))
      × IsShown (menu n choice screen₁)
      × (keys_loop (menu n choice screen₁) (before ++ console_ctrl_enter ∷ behind)
          ≡ (boots (walks n choice before), menu n (walks n choice before) screen₂))
      × IsShown (menu n (walks n choice before) screen₂)
menu_session n choice screen before behind h keys =
    let (screen₁, drawn, _, inverted) = show_loop_lem n n choice 0 screen (omega arith) in
    let first : IsShown (menu n choice screen₁) = record {
      selected = h;
      inverted = λ i inside. inverted i (omega arith) (omega arith);
    } in
    let (screen₂, run, last) = keys_loop_lem n choice screen₁ before behind first keys in
    (screen₁, screen₂, drawn, first, run, last)
