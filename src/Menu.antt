-- ===== src/Menu.antt =====
-- src/core/loader.c: the boot menu, from the array of the boot entries to the call of their loader.
-- The console is the screen of the menu: which entries it shows inverted.
pub mod Options
pub mod Highlight
mod Tests
use elfboot.Base.{
  ℕ, zero, suc, ◌+◌, ◌-◌, ◌*◌, ◌/◌, Bool, true, false, not, ◌&&◌, ◌||◌, Option, none, some, List,
  [], ◌∷◌, get_elem?, ltb, leb, ◌==◌, if◌then◌else◌,
}
use elfboot.Base.Int.{ℤ, pos, negsuc}
use elfboot.Base.Run.{Run, ok, fault, ◌>>=◌}
use elfboot.PageAlloc.{change}
use elfboot.Loader.{BootEntry, Loader, Status, success, efault, enomem, alloc}

-- `CONSOLE_CTRL_ENTER`, `CONSOLE_CTRL_ARRUP`, `CONSOLE_CTRL_ARRDO`.
abbrev pub console_ctrl_enter : ℕ
console_ctrl_enter = 10

abbrev pub console_ctrl_arrup : ℕ
console_ctrl_arrup = 0xA1

abbrev pub console_ctrl_arrdo : ℕ
console_ctrl_arrdo = 0xA4

-- The loop of `loader_init_boot_options`, which writes at `boot_number - boot_choice`. It gives the
-- array and `boot_choice`.
unfoldable pub options_loop : ℕ → List BootEntry → ℕ → (ℕ → BootEntry) → Run ((ℕ → BootEntry) × ℕ)
options_loop boot_number [] boot_choice options = ok (options, boot_choice)
options_loop boot_number (entry ∷ entries) zero options = fault
options_loop boot_number (entry ∷ entries) (suc boot_choice) options =
    if ltb boot_number (suc boot_choice)
    then fault
    else options_loop boot_number entries boot_choice
        (change options (boot_number - suc boot_choice) entry)

-- `none` where there are no entries or no memory for the array, whose contents are `options` then.
unfoldable pub loader_init_boot_options :
    Loader → (ℕ → BootEntry) → Run (Option ((ℕ → BootEntry) × ℕ))
loader_init_boot_options s options =
    if s.boot_number == 0 || not (alloc s.allocs).0 then ok none else (do
      result ← options_loop s.boot_number s.boot_list s.boot_choice options
      ok (some result))

-- `screen` says of each entry whether it is shown inverted, where it is shown.
pub record Menu : Type 0 where
  pub boot_number : ℕ
  pub boot_choice : ℕ
  pub allocs : List Bool
  pub screen : ℕ → Option Bool

-- Whether the colours are swapped.
unfoldable pub loader_menu_font : Menu → ℕ → Option Bool
loader_menu_font m index = if leb m.boot_number index then none else some (index == m.boot_choice)

-- The two buffers of `loader_menu_show_entry`.
abbrev pub buffers : List Bool → Bool × List Bool
buffers allocs =
    let (a, allocs₁) = alloc allocs in
    let (b, allocs₂) = alloc allocs₁ in if a then (b, allocs₂) else (false, allocs₁)

-- The entry with the given font, or an error.
abbrev pub show_with : Menu → ℕ → Option Bool → Bool × Menu
show_with m index none = (false, m)
show_with m index (some inverted) =
    (true, record m { screen = change m.screen index (some inverted) })

-- Whether the result is 0.
unfoldable pub loader_menu_show_entry : Menu → ℕ → Bool × Menu
loader_menu_show_entry m index =
    let (enough, allocs) = buffers m.allocs in
    let m' = record m { allocs = allocs } in
    if enough then show_with m' index (loader_menu_font m' index) else (false, m')

unfoldable pub loader_init_update : Menu → ℕ → Bool × Menu
loader_init_update m prev_choice =
    let (shown, m₁) = loader_menu_show_entry m prev_choice in
    if shown then loader_menu_show_entry m₁ m₁.boot_choice else (false, m₁)

-- The loop of `loader_menu_show`, with the entries left.
unfoldable pub show_loop : Menu → ℕ → ℕ → Bool × Menu
show_loop m index zero = (true, m)
show_loop m index (suc n) =
    let (shown, m₁) = loader_menu_show_entry m index in
    if shown then show_loop m₁ (index + 1) n else (false, m₁)

-- How the menu ends: an entry to boot, an error, or a wait for the next key.
pub data Outcome : Type 0 where
  boots : ℕ → Outcome
  fails : Outcome
  waits : Outcome

-- The selection that a key moves to, if it moves.
unfoldable pub move : Menu → ℕ → Option ℕ
move m c =
    if c == console_ctrl_arrup
    then (if m.boot_choice == 0 then none else some (m.boot_choice - 1))
    else if c == console_ctrl_arrdo
    then (if leb (m.boot_number - 1) m.boot_choice then none else some (m.boot_choice + 1))
    else none

-- One round of the loop of `loader_menu_init_selected`, from the move on: whether it goes on.
abbrev pub select : Menu → Option ℕ → Bool × Menu
select m none = (true, m)
select m (some choice) = loader_init_update (record m { boot_choice = choice }) m.boot_choice

-- The loop, by the keys to come.
unfoldable pub keys_loop : Menu → List ℕ → Outcome × Menu
keys_loop m [] = (waits, m)
keys_loop m (c ∷ keys) =
    let (goes_on, m₁) = select m (move m c) in
    let more = keys_loop m₁ keys in
    if c == console_ctrl_enter
    then (boots m.boot_choice, m)
    else if goes_on
    then more
    else (fails, m₁)

-- `c` is the key that ended the wait for the timeout, or 0.
unfoldable pub loader_menu_init_selected : Menu → ℕ → List ℕ → Outcome × Menu
loader_menu_init_selected m c keys =
    let (a, allocs) = alloc m.allocs in
    let m₁ = record m { allocs = allocs } in
    if not a
    then (fails, m₁)
    else if c == 0 || c == console_ctrl_enter
    then (boots m₁.boot_choice, m₁)
    else keys_loop m₁ (c ∷ keys)

-- `loader_timeout_callback` on `boot_timeout`: the new value, and the number of seconds to write.
unfoldable pub loader_timeout_callback : ℕ → ℕ × Option ℕ
loader_timeout_callback zero = (zero, none)
loader_timeout_callback (suc boot_timeout) = (
  boot_timeout,
  if suc boot_timeout / 1000 == boot_timeout / 1000 then none else some (boot_timeout / 1000),
)

-- The protocol and the boot function of a loader.
pub record ElfLoader : Type 0 where
  pub prot : ℕ
  pub boot : BootEntry → ℤ

abbrev pub loader_register : ElfLoader → List ElfLoader → List ElfLoader
loader_register loader loaders = loader ∷ loaders

unfoldable pub loader_get_loader : ℕ → List ElfLoader → Option ElfLoader
loader_get_loader prot [] = none
loader_get_loader prot (loader ∷ loaders) =
    let more = loader_get_loader prot loaders in if loader.prot == prot then some loader else more

-- -EFAULT and -ENOTSUP.
abbrev pub efault_result : ℤ
efault_result = negsuc 13

abbrev pub enotsup_result : ℤ
enotsup_result = negsuc 34

unfoldable pub loader_boot_kernel : List ElfLoader → BootEntry → ℤ
loader_boot_kernel loaders entry = elim (loader_get_loader entry.prot loaders) [
  | none ↦ efault_result
  | some loader ↦ loader.boot entry
]

-- `loader_modules`: "mboot1", "mboot2" and "lxboot", and null for the number that no protocol has.
abbrev pub loader_modules : List (Option (List ℕ))
loader_modules =
    none
    ∷ some (109 ∷ 98 ∷ 111 ∷ 111 ∷ 116 ∷ 49 ∷ [])
    ∷ some (109 ∷ 98 ∷ 111 ∷ 111 ∷ 116 ∷ 50 ∷ [])
    ∷ some (108 ∷ 120 ∷ 98 ∷ 111 ∷ 111 ∷ 116 ∷ [])
    ∷ []

-- `module_open` gives whether it failed, and the loaders that are registered then.
module _ (module_open : Option (List ℕ) → List ElfLoader → Bool × List ElfLoader) where
  unfoldable pub loader_init_module : List ElfLoader → BootEntry → ℤ
  loader_init_module loaders entry = elim (get_elem? loader_modules entry.prot) [
    | none ↦ enotsup_result
    | some name ↦
        let (failed, loaders') = module_open name loaders in
        if failed then efault_result else loader_boot_kernel loaders' entry
  ]
