-- ===== src/Menu/Tests.antt =====
-- A menu of three entries, the array of two, and the loader of an entry.
use elfboot.Base.{ℕ, ◌≡◌, ◌≢◌, refl, [], ◌∷◌, ◌==◌, some, none, Option, Bool, true, false, arith}
use elfboot.Base.Int.{negsuc}
use elfboot.Base.Run.{ok}
use elfboot.Loader.{Loader, BootEntry, empty_entry}
use elfboot.Menu.{
  console_ctrl_enter, show_loop, keys_loop, boots, loader_init_boot_options,
  loader_timeout_callback, loader_init_module,
}
use elfboot.Menu.Highlight.{IsShown, menu, menu_session}
use elfboot.Menu.Options.{Copied, loader_init_boot_options-Copied}

-- Down three times, up once, and another key.
menu_session_example :
    (screen₁ : ℕ → Option Bool) × (screen₂ : ℕ → Option Bool) × (show_loop
        (menu 3 0 (λ i. none))
        0
        3
      ≡ (true, menu 3 0 screen₁))
    × IsShown (menu 3 0 screen₁)
    × (keys_loop (menu 3 0 screen₁) (0xA4 ∷ 0xA4 ∷ 0xA4 ∷ 0xA1 ∷ 120 ∷ console_ctrl_enter ∷ [])
        ≡ (boots 1, menu 3 1 screen₂))
    × IsShown (menu 3 1 screen₂)
menu_session_example =
    menu_session 3 0 (λ i. none) (0xA4 ∷ 0xA4 ∷ 0xA4 ∷ 0xA1 ∷ 120 ∷ []) [] (omega arith)
      (
        other 0xA4 refl,
        (other 0xA4 refl, (other 0xA4 refl, (other 0xA1 refl, (other 120 refl, tt)))),
      )
  where
    other : (c : ℕ) → (c == 10) ≡ false → c ≢ 10
    other c h e = absurd (ground arith)

abbrev two_entries : Loader
two_entries = record {
  boot_list = empty_entry (97 ∷ []) ∷ empty_entry (98 ∷ []) ∷ [];
  boot_number = 2;
  boot_choice = 2;
  allocs = [];
}

loader_init_boot_options-Copied_example :
    (options : ℕ → BootEntry) × (loader_init_boot_options two_entries (λ i. empty_entry [])
      ≡ ok (some (options, 0)))
    × Copied 0 two_entries.boot_list (λ i. empty_entry []) options
loader_init_boot_options-Copied_example =
    loader_init_boot_options-Copied two_entries (λ i. empty_entry []) refl refl (omega arith) refl

-- The seconds are written when their number changes.
ticks :
    (loader_timeout_callback 10000 ≡ (9999, some 9)) × (loader_timeout_callback 9999 ≡ (9998, none))
unfolding loader_timeout_callback
ticks = (refl, refl)

-- An entry without a protocol asks for a module without a name.
no_protocol : loader_init_module (λ name loaders. (true, loaders)) [] (empty_entry []) ≡ negsuc 13
unfolding loader_init_module
no_protocol = refl
