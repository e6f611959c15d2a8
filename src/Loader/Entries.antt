-- ===== src/Loader/Entries.antt =====
-- src/core/loader.c: the lines of one boot entry, and a configuration of several.
use mathlib.Core.List.{append-nil, append_assoc}
use elfboot.Base.{
  ℕ, zero, suc, ◌+◌, ◌≡◌, ◌≢◌, refl, sym, ap, ◌∙◌, Bool, true, false, Option, none, some, List, [],
  ◌∷◌, ◌++◌, arith, ltb, ◌==◌, if◌then◌else◌, length, map,
}
use elfboot.Base.Run.{ok, ◌>>=◌, bind_assoc, bind_congr}
use elfboot.Str.{is_zero, strcmp, strncmp, strlen, strtok_r}
use elfboot.Loader.{
  BootEntry, Loader, success, word_delimiter, multiboot1, multiboot2, linux, bootentry, kernel,
  initrd, cmdline, empty_entry, loader_create_entry, loader_strip_entry_line, protocol, kernel_loop,
  loader_parse_kernel, initrd_loop, loader_parse_initrd, loader_parse_cmdline, skip, parse_option,
  loader_parse_entry, loader_store_entry, begin_entry, option_line, end_entry, parse_line,
  loader_parse_entries,
}
use elfboot.Loader.Lines.{
  Letters, letters, letters-Letters, finish, Letters-append, strtok_r-word, strtok_r-last, text,
  AreLines, parse_lines, loader_parse_entries_lem,
}
use elfboot.Loader.Names.{strlen-append, first_line, loader_parse_name_lem}

-- What the configuration says of an entry: `word` is the name of the protocol `prot`.
pub record Source : Type 0 where
  pub name : List ℕ
  pub word : List ℕ
  pub prot : ℕ
  pub path : List ℕ
  pub initrd_path : List ℕ
  pub arguments : List ℕ

abbrev pub kernel_line : Source → List ℕ
kernel_line e = 9 ∷ (kernel ++ 32 ∷ (e.word ++ 32 ∷ e.path))

abbrev pub initrd_line : Source → List ℕ
initrd_line e = 9 ∷ (initrd ++ 32 ∷ e.initrd_path)

abbrev pub cmdline_line : Source → List ℕ
cmdline_line e = 9 ∷ (cmdline ++ 32 ∷ e.arguments)

abbrev pub lines_of : Source → List (List ℕ)
lines_of e = first_line e.name ∷ kernel_line e ∷ initrd_line e ∷ cmdline_line e ∷ (125 ∷ []) ∷ []

-- The entry that is meant.
abbrev pub entry_of : Source → BootEntry
entry_of e = record {
  name = e.name;
  kernel_path = some e.path;
  initrd_path = some e.initrd_path;
  cmdline = some e.arguments;
  prot = e.prot;
}

-- A word is not empty and has no space and no end of line.
pub record IsWord (word : List ℕ) : Type 0 where
  pub given : word ≢ []
  pub no_space : Letters 32 word
  pub no_end : Letters 10 word

pub record IsSource (e : Source) : Type 0 where
  pub no_quote : Letters 34 e.name
  pub no_end : Letters 10 e.name
  pub word : IsWord e.word
  pub known : protocol e.word ≡ some e.prot
  pub path : IsWord e.path
  pub unknown : protocol e.path ≡ none
  pub initrd_path : IsWord e.initrd_path
  pub arguments : Letters 10 e.arguments

-- The first word of two, and the last one.
first_word : (a b : List ℕ) → IsWord a → strtok_r none word_delimiter (a ++ 32 ∷ b) ≡ (some a, b)
first_word [] b h = absurd (h.given refl)
first_word (c ∷ a) b h = strtok_r-word 32 (omega arith) (omega arith) c a b h.no_space

last_word : (a : List ℕ) → IsWord a → strtok_r none word_delimiter a ≡ (some a, [])
last_word [] h = absurd (h.given refl)
last_word (c ∷ a) h = strtok_r-last 32 (omega arith) (omega arith) c a h.no_space

pick :
    (a b c : Bool) (prot : ℕ)
    → (if a then some 1 else if b then some 2 else if c then some 3 else none) ≡ some prot
    → prot ≢ 0
pick true b c prot h e = cc
pick false true c prot h e = cc
pick false false true prot h e = cc
pick false false false prot h e = cc

protocol-positive : (word : List ℕ) (prot : ℕ) → protocol word ≡ some prot → prot ≢ 0
unfolding protocol
protocol-positive word prot h =
    pick (is_zero (strcmp word multiboot1)) (is_zero (strcmp word multiboot2))
      (is_zero (strcmp word linux)) prot h

kernel_loop_lem :
    (k : ℕ) (e : Source) (entry : BootEntry)
    → IsSource e
    → kernel_loop (suc (suc k)) entry [] (some e.word, e.path)
      ≡ ok (success, record entry { prot = e.prot; kernel_path = some e.path }, [])
unfolding kernel_loop
kernel_loop_lem k e entry h =
    let nonzero = protocol-positive e.word e.prot h.known in
    let test : (e.prot == 0) ≡ false = ground arith in
    rw (h.known, last_word e.path h.path, h.unknown, test) refl

longer : (a b : List ℕ) → (k : ℕ) × (strlen (a ++ 32 ∷ b) + 1 ≡ suc (suc k))
unfolding strlen
longer a b = let size = strlen-append a (32 ∷ b) in (strlen a + strlen b, omega arith)

loader_parse_kernel_lem :
    (e : Source) (entry : BootEntry)
    → IsSource e
    → loader_parse_kernel entry (e.word ++ 32 ∷ e.path) []
      ≡ ok (success, record entry { prot = e.prot; kernel_path = some e.path }, [])
unfolding loader_parse_kernel strtok_r
loader_parse_kernel_lem e entry h =
    let (k, size) = longer e.word e.path in
    rw (size, first_word e.word e.path h.word) (kernel_loop_lem k e entry h)

loader_parse_initrd_lem :
    (entry : BootEntry) (path : List ℕ)
    → IsWord path
    → loader_parse_initrd entry path [] ≡ ok (success, record entry { initrd_path = some path }, [])
unfolding loader_parse_initrd initrd_loop strtok_r
loader_parse_initrd_lem entry path h =
    let size : strlen path + 1 ≡ suc (strlen path) = omega arith in rw (size, last_word path h) refl

abbrev sucs : ℕ → ℕ → ℕ
sucs zero k = k
sucs (suc n) k = suc (sucs n k)

sucs-add : (n k : ℕ) → sucs n k ≡ n + k
sucs-add zero k = omega arith
sucs-add (suc n) k = omega (arith, sucs-add n k)

longer_than : (n k : ℕ) → ltb (sucs n k) n ≡ false
longer_than n k = let size = sucs-add n k in ground arith

-- A loader whose allocations succeed.
abbrev pub rich : List BootEntry → ℕ → ℕ → Loader
rich boot_list boot_number boot_choice = record {
  boot_list = boot_list;
  boot_number = boot_number;
  boot_choice = boot_choice;
  allocs = [];
}

module _ (boot_list : List BootEntry) (boot_number boot_choice : ℕ) where
  abbrev s : Loader
  s = rich boot_list boot_number boot_choice

  name_line :
      (name : List ℕ)
      → Letters 34 name
      → parse_line s none (first_line name) ≡ ok (s, some (empty_entry name))
  unfolding parse_line begin_entry strncmp loader_create_entry strlen
  name_line name h = rw (loader_parse_name_lem name h) refl

  kernel_line_lem :
      (e : Source) (entry : BootEntry)
      → IsSource e
      → parse_line s (some entry) (kernel_line e)
        ≡ ok (s, some (record entry { prot = e.prot; kernel_path = some e.path }))
  unfolding parse_line option_line loader_parse_entry parse_option loader_strip_entry_line skip
      strncmp strlen
  kernel_line_lem e entry h =
      rw (longer_than 7 (strlen (e.word ++ 32 ∷ e.path)), loader_parse_kernel_lem e entry h) refl

  initrd_line_lem :
      (e : Source) (entry : BootEntry)
      → IsSource e
      → parse_line s (some entry) (initrd_line e)
        ≡ ok (s, some (record entry { initrd_path = some e.initrd_path }))
  unfolding parse_line option_line loader_parse_entry parse_option loader_strip_entry_line skip
      strncmp strlen
  initrd_line_lem e entry h =
      rw
        (
          longer_than 7 (strlen e.initrd_path),
          loader_parse_initrd_lem entry e.initrd_path h.initrd_path,
        )
        refl

  cmdline_line_lem :
      (e : Source) (entry : BootEntry)
      → parse_line s (some entry) (cmdline_line e)
        ≡ ok (s, some (record entry { cmdline = some e.arguments }))
  unfolding parse_line option_line loader_parse_entry parse_option loader_strip_entry_line skip
      strncmp strlen loader_parse_cmdline
  cmdline_line_lem e entry = rw (longer_than 8 (strlen e.arguments)) refl

  end_line :
      (entry : BootEntry)
      → parse_line s (some entry) (125 ∷ [])
        ≡ ok (rich (boot_list ++ entry ∷ []) (boot_number + 1) (boot_choice + 1), none)
  unfolding parse_line end_entry loader_store_entry strncmp strlen
  end_line entry = refl

  last_line :
      (entry : BootEntry)
      → parse_lines s (some entry) ((125 ∷ []) ∷ [])
        ≡ ok (rich (boot_list ++ entry ∷ []) (boot_number + 1) (boot_choice + 1), none)
  last_line entry = rw (end_line entry) refl

  -- The lines of an entry, without an open entry before them.
  lines_of_lem :
      (e : Source)
      → IsSource e
      → parse_lines s none (lines_of e)
        ≡ ok (rich (boot_list ++ entry_of e ∷ []) (boot_number + 1) (boot_choice + 1), none)
  lines_of_lem e h =
      rw
        (
          name_line e.name h.no_quote,
          kernel_line_lem e (empty_entry e.name) h,
          initrd_line_lem e _ h,
          cmdline_line_lem e _,
        )
        (last_line (entry_of e))

-- A configuration of several entries.
abbrev pub config_of : List Source → List (List ℕ)
config_of [] = []
config_of (e ∷ es) = lines_of e ++ config_of es

abbrev pub AreSources : List Source → Type 0
AreSources [] = Unit {0}
AreSources (e ∷ es) = IsSource e × AreSources es

parse_lines-append :
    (s : Loader) (entry : Option BootEntry) (a b : List (List ℕ))
    → parse_lines s entry (a ++ b) ≡ (parse_lines s entry a >>= λ r. parse_lines r.0 r.1 b)
parse_lines-append s entry [] b = refl
parse_lines-append s entry (line ∷ a) b =
    bind_congr (parse_line s entry line) _ _ (λ q. parse_lines-append q.0 q.1 a b)
    ∙ sym (bind_assoc (parse_line s entry line) (λ q. parse_lines q.0 q.1 a) _)

config_of_lem :
    (boot_list : List BootEntry) (boot_number boot_choice : ℕ) (es : List Source)
    → AreSources es
    → parse_lines (rich boot_list boot_number boot_choice) none (config_of es)
      ≡ ok (
        rich (boot_list ++ map entry_of es) (boot_number + length es) (boot_choice + length es),
        none,
      )
config_of_lem boot_list boot_number boot_choice [] h =
    let number : boot_number + 0 ≡ boot_number = omega arith in
    let choice : boot_choice + 0 ≡ boot_choice = omega arith in
    rw (append-nil boot_list, number, choice) refl
config_of_lem boot_list boot_number boot_choice (e ∷ es) (h, hs) =
    let number : boot_number + suc (length es) ≡ boot_number + 1 + length es = omega arith in
    let choice : boot_choice + suc (length es) ≡ boot_choice + 1 + length es = omega arith in
    let rest =
      config_of_lem (boot_list ++ entry_of e ∷ []) (boot_number + 1) (boot_choice + 1) es hs in
    parse_lines-append (rich boot_list boot_number boot_choice) none (lines_of e) (config_of es)
    ∙ rw (lines_of_lem boot_list boot_number boot_choice e h) (
        rest ∙ rw (number, choice, append_assoc boot_list (entry_of e ∷ []) (map entry_of es)) refl)

not_comment : (c : ℕ) → (c == 35) ≡ false → c ≢ 35
not_comment c h e = absurd (ground arith)

-- A word that is written out, and what follows it.
written : (a b : List ℕ) → letters 10 a ≡ true → Letters 10 b → Letters 10 (a ++ b)
written a b h k = Letters-append 10 a b (letters-Letters 10 a h) k

IsSource-AreLines :
    (e : Source) (more : List (List ℕ)) → IsSource e → AreLines more → AreLines (lines_of e ++ more)
IsSource-AreLines e more h others =
    let name = written (bootentry ++ 32 ∷ 34 ∷ []) (e.name ++ 34 ∷ 32 ∷ 123 ∷ []) refl (
      Letters-append 10 e.name (34 ∷ 32 ∷ 123 ∷ []) h.no_end
        (letters-Letters 10 (34 ∷ 32 ∷ 123 ∷ []) refl)) in
    let word = written (9 ∷ kernel ++ 32 ∷ []) (e.word ++ 32 ∷ e.path) refl (
      Letters-append 10 e.word (32 ∷ e.path) h.word.no_end
        (written (32 ∷ []) e.path refl h.path.no_end)) in
    let path = written (9 ∷ initrd ++ 32 ∷ []) e.initrd_path refl h.initrd_path.no_end in
    let arguments = written (9 ∷ cmdline ++ 32 ∷ []) e.arguments refl h.arguments in
    let last = letters-Letters 10 (125 ∷ []) refl in
    (
      (not_comment 98 refl, name),
      (
        (not_comment 9 refl, word),
        (
          (not_comment 9 refl, path),
          ((not_comment 9 refl, arguments), ((not_comment 125 refl, last), others)),
        ),
      ),
    )

AreSources-AreLines : (es : List Source) → AreSources es → AreLines (config_of es)
AreSources-AreLines [] h = tt
AreSources-AreLines (e ∷ es) (h, hs) =
    IsSource-AreLines e (config_of es) h (AreSources-AreLines es hs)

-- If every allocation succeeds, the configuration that describes some entries, each with a name, a
-- protocol, a kernel, an initial ramdisk and a command line, gives these entries in their order.
pub loader_parse_entries-config :
    (boot_list : List BootEntry) (boot_number boot_choice : ℕ) (es : List Source)
    → AreSources es
    → loader_parse_entries (rich boot_list boot_number boot_choice) (text (config_of es))
      ≡ ok (rich (boot_list ++ map entry_of es) (boot_number + length es) (boot_choice + length es))
loader_parse_entries-config boot_list boot_number boot_choice es h =
    loader_parse_entries_lem (rich boot_list boot_number boot_choice) (config_of es)
      (AreSources-AreLines es h)
    ∙ ap finish (config_of_lem boot_list boot_number boot_choice es h)
