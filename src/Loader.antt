-- ===== src/Loader.antt =====
-- src/core/loader.c and src/include/elfboot/loader.h: the boot entries that the configuration file
-- describes. A string is the list of its bytes, and a line is that up to the end of the line.
pub mod Lines
pub mod Names
pub mod Entries
pub mod Comment
mod Tests
use elfboot.Base.{
  ℕ, zero, suc, ◌+◌, ◌-◌, Bool, true, false, not, ◌||◌, Option, none, some, List, [], ◌∷◌, ◌++◌,
  take, drop, ltb, leb, ◌==◌, if◌then◌else◌,
}
use elfboot.Base.Int.{ℤ, pos, negsuc}
use elfboot.Base.Run.{Run, ok, fault, out_of_fuel, ◌>>=◌}
use elfboot.Str.{first, rest, is_zero, strcmp, strncmp, strlen, strstr, strtok_r}

-- `LINE_DELIMITER`, `NAME_DELIMITER`, `INFO_DELIMITER`, `WORD_DELIMITER`, `BOOT_DELIMITER`,
-- `CHAR_COMMENT`.
abbrev pub line_delimiter : List ℕ
line_delimiter = 10 ∷ []

abbrev pub name_delimiter : List ℕ
name_delimiter = 34 ∷ []

abbrev pub info_delimiter : List ℕ
info_delimiter = 9 ∷ []

abbrev pub word_delimiter : List ℕ
word_delimiter = 32 ∷ []

abbrev pub boot_delimiter : List ℕ
boot_delimiter = 125 ∷ []

abbrev pub char_comment : List ℕ
char_comment = 35 ∷ []

-- "multiboot1", "multiboot2", "linux" and the words that lines start with.
abbrev pub multiboot1 : List ℕ
multiboot1 = 109 ∷ 117 ∷ 108 ∷ 116 ∷ 105 ∷ 98 ∷ 111 ∷ 111 ∷ 116 ∷ 49 ∷ []

abbrev pub multiboot2 : List ℕ
multiboot2 = 109 ∷ 117 ∷ 108 ∷ 116 ∷ 105 ∷ 98 ∷ 111 ∷ 111 ∷ 116 ∷ 50 ∷ []

abbrev pub linux : List ℕ
linux = 108 ∷ 105 ∷ 110 ∷ 117 ∷ 120 ∷ []

abbrev pub bootentry : List ℕ
bootentry = 98 ∷ 111 ∷ 111 ∷ 116 ∷ 101 ∷ 110 ∷ 116 ∷ 114 ∷ 121 ∷ []

abbrev pub kernel : List ℕ
kernel = 107 ∷ 101 ∷ 114 ∷ 110 ∷ 101 ∷ 108 ∷ []

abbrev pub initrd : List ℕ
initrd = 105 ∷ 110 ∷ 105 ∷ 116 ∷ 114 ∷ 100 ∷ []

abbrev pub cmdline : List ℕ
cmdline = 99 ∷ 109 ∷ 100 ∷ 108 ∷ 105 ∷ 110 ∷ 101 ∷ []

-- `name` is set when an entry is created; a path or a command line that is `none` is null.
pub record BootEntry : Type 0 where
  pub name : List ℕ
  pub kernel_path : Option (List ℕ)
  pub initrd_path : Option (List ℕ)
  pub cmdline : Option (List ℕ)
  pub prot : ℕ

-- `allocs` says which of the next allocations succeed; those behind its end do.
pub record Loader : Type 0 where
  pub boot_list : List BootEntry
  pub boot_number : ℕ
  pub boot_choice : ℕ
  pub allocs : List Bool

pub data Status : Type 0 where
  success : Status
  efault : Status
  enomem : Status

abbrev pub alloc : List Bool → Bool × List Bool
alloc [] = (true, [])
alloc (a ∷ allocs) = (a, allocs)

-- `bstrdup`
abbrev pub duplicate : List ℕ → List Bool → Option (List ℕ) × List Bool
duplicate str allocs = let (a, allocs') = alloc allocs in (if a then some str else none, allocs')

-- The copy of the name from `nbeg` up to `nend`.
abbrev pub copy_name : List ℕ → Option (List ℕ) → List Bool → Option (List ℕ) × List Bool
copy_name nbeg none allocs = (none, allocs)
copy_name nbeg (some nend) allocs = duplicate (take (strlen nbeg - strlen nend) nbeg) allocs

-- From the first delimiter of the name on.
abbrev pub name_from : Option (List ℕ) → List Bool → Run (Option (List ℕ) × List Bool)
name_from none allocs = ok (none, allocs)
name_from (some quote) allocs = do
  nend ← strstr (rest quote) name_delimiter
  ok (copy_name (rest quote) nend allocs)

unfoldable pub loader_parse_name : List ℕ → List Bool → Run (Option (List ℕ) × List Bool)
loader_parse_name line allocs = do quote ← strstr line name_delimiter; name_from quote allocs

unfoldable pub loader_strip_entry_line : List ℕ → List ℕ
loader_strip_entry_line [] = []
loader_strip_entry_line (c ∷ line) =
    let stripped = loader_strip_entry_line line in
    if is_zero (strncmp (c ∷ line) word_delimiter 1)
      || is_zero (strncmp (c ∷ line) info_delimiter 1)
    then stripped
    else c ∷ line

-- `prot` is 0 in the cleared memory.
abbrev pub empty_entry : List ℕ → BootEntry
empty_entry name = record {
  name = name;
  kernel_path = none;
  initrd_path = none;
  cmdline = none;
  prot = 0;
}

unfoldable pub loader_create_entry : List ℕ → List Bool → Option BootEntry × List Bool
loader_create_entry name allocs =
    let (a, allocs') = alloc allocs in (if a then some (empty_entry name) else none, allocs')

-- The number of the protocol that a word names.
unfoldable pub protocol : List ℕ → Option ℕ
protocol topt =
    if is_zero (strcmp topt multiboot1)
    then some 1
    else if is_zero (strcmp topt multiboot2)
    then some 2
    else if is_zero (strcmp topt linux)
    then some 3
    else none

-- The word that is no protocol.
abbrev pub set_kernel : BootEntry → List ℕ → List Bool → Status × BootEntry × List Bool
set_kernel entry topt allocs =
    let (path, allocs') = duplicate topt allocs in
    if entry.prot == 0 then (efault, entry, allocs) else elim path [
      | none ↦ (enomem, record entry { kernel_path = none }, allocs')
      | some p ↦ (success, record entry { kernel_path = some p }, allocs')
    ]

-- One round: a protocol and what follows it, or the path, which ends the loop.
abbrev pub kernel_word :
    Option ℕ
    → BootEntry
    → List ℕ
    → List Bool
    → (BootEntry → Run (Status × BootEntry × List Bool))
    → Run (Status × BootEntry × List Bool)
kernel_word none entry topt allocs next = ok (set_kernel entry topt allocs)
kernel_word (some prot) entry topt allocs next = next (record entry { prot = prot })

-- The loop of `loader_parse_kernel`.
unfoldable pub kernel_loop :
    ℕ → BootEntry → List Bool → Option (List ℕ) × List ℕ → Run (Status × BootEntry × List Bool)
kernel_loop k entry allocs (none, lopt) = ok (success, entry, allocs)
kernel_loop zero entry allocs (some topt, lopt) = out_of_fuel
kernel_loop (suc k) entry allocs (some topt, lopt) =
    kernel_word (protocol topt) entry topt allocs
      (λ entry'. kernel_loop k entry' allocs (strtok_r none word_delimiter lopt))

-- Each word takes a byte or more.
unfoldable pub loader_parse_kernel :
    BootEntry → List ℕ → List Bool → Run (Status × BootEntry × List Bool)
loader_parse_kernel entry option allocs =
    kernel_loop (strlen option + 1) entry allocs (strtok_r (some option) word_delimiter [])

-- The loop of `loader_parse_initrd`.
unfoldable pub initrd_loop :
    ℕ → BootEntry → List Bool → Option (List ℕ) × List ℕ → Run (Status × BootEntry × List Bool)
initrd_loop k entry allocs (none, lopt) = ok (success, entry, allocs)
initrd_loop zero entry allocs (some topt, lopt) = out_of_fuel
initrd_loop (suc k) entry allocs (some topt, lopt) =
    let (path, allocs') = duplicate topt allocs in
    let entry' = record entry { initrd_path = path } in
    elim path [
      | none ↦ ok (enomem, entry', allocs')
      | some p ↦ initrd_loop k entry' allocs' (strtok_r none word_delimiter lopt)
    ]

unfoldable pub loader_parse_initrd :
    BootEntry → List ℕ → List Bool → Run (Status × BootEntry × List Bool)
loader_parse_initrd entry option allocs =
    initrd_loop (strlen option + 1) entry allocs (strtok_r (some option) word_delimiter [])

unfoldable pub loader_parse_cmdline :
    BootEntry → List ℕ → List Bool → Status × BootEntry × List Bool
loader_parse_cmdline entry option allocs =
    let (text, allocs') = duplicate option allocs in
    let entry' = record entry { cmdline = text } in
    elim text [ none ↦ (enomem, entry', allocs') | some t ↦ (success, entry', allocs') ]

-- `option + n`; a pointer behind the end of the line leaves the string.
unfoldable pub skip : ℕ → List ℕ → Run (List ℕ)
skip n option = if ltb (strlen option) n then fault else ok (drop n option)

abbrev pub starts : List ℕ → List ℕ → Bool
starts word line = is_zero (strncmp line word (strlen word))

-- `loader_parse_entry` on the stripped line.
unfoldable pub parse_option : BootEntry → List ℕ → List Bool → Run (Status × BootEntry × List Bool)
parse_option entry option allocs =
    if starts kernel option
    then (do line ← skip 7 option; loader_parse_kernel entry line allocs)
    else if starts initrd option
    then (do line ← skip 7 option; loader_parse_initrd entry line allocs)
    else if starts cmdline option
    then (do line ← skip 8 option; ok (loader_parse_cmdline entry line allocs))
    else ok (success, entry, allocs)

unfoldable pub loader_parse_entry :
    BootEntry → List ℕ → List Bool → Run (Status × BootEntry × List Bool)
loader_parse_entry entry line allocs = parse_option entry (loader_strip_entry_line line) allocs

unfoldable pub loader_store_entry : Loader → BootEntry → Loader
loader_store_entry s entry = record s {
  boot_list = s.boot_list ++ entry ∷ [];
  boot_number = s.boot_number + 1;
  boot_choice = s.boot_choice + 1;
}

abbrev pub with_allocs : Loader → List Bool → Loader
with_allocs s allocs = record s { allocs = allocs }

-- What a line "bootentry" does with the result of `loader_parse_name`.
abbrev pub named : Loader → Option (List ℕ) × List Bool → Loader × Option BootEntry
named s (none, allocs) = (with_allocs s allocs, none)
named s (some name, allocs) =
    let (entry, allocs') = loader_create_entry name allocs in (with_allocs s allocs', entry)

-- A line "bootentry". In an entry that is still open, `list_del` goes through links that are null.
unfoldable pub begin_entry : Loader → Option BootEntry → List ℕ → Run (Loader × Option BootEntry)
begin_entry s (some entry) line = fault
begin_entry s none line = do name ← loader_parse_name line s.allocs; ok (named s name)

unfoldable pub option_line : Loader → Option BootEntry → List ℕ → Run (Loader × Option BootEntry)
option_line s none line = ok (s, none)
option_line s (some entry) line = do
  (status, entry', allocs) ← loader_parse_entry entry line s.allocs
  ok (with_allocs s allocs, some entry')

unfoldable pub end_entry : Loader → Option BootEntry → Loader × Option BootEntry
end_entry s none = (s, none)
end_entry s (some entry) = (loader_store_entry s entry, none)

-- The body of the loop of `loader_parse_entries`, for a line that is no comment.
unfoldable pub parse_line : Loader → Option BootEntry → List ℕ → Run (Loader × Option BootEntry)
parse_line s entry line =
    if starts bootentry line
    then begin_entry s entry line
    else if first line == first info_delimiter
    then option_line s entry line
    else if first line == first boot_delimiter
    then ok (end_entry s entry)
    else ok (s, entry)

-- One round of the loop: the next state, entry and line. A comment is left by `continue`, which does
-- not fetch the next line.
unfoldable pub parse_step :
    Loader
    → Option BootEntry
    → List ℕ
    → List ℕ
    → Run (Loader × Option BootEntry × (Option (List ℕ) × List ℕ))
parse_step s entry line lend =
    if first line == first char_comment then ok (s, entry, (some line, lend)) else (do
      (s', entry') ← parse_line s entry line
      ok (s', entry', strtok_r none line_delimiter lend))

unfoldable pub parse_loop : ℕ → Loader → Option BootEntry → Option (List ℕ) × List ℕ → Run Loader
parse_loop k s entry (none, lend) = ok s
parse_loop zero s entry (some line, lend) = out_of_fuel
parse_loop (suc k) s entry (some line, lend) = do
  (s', entry', next) ← parse_step s entry line lend
  parse_loop k s' entry' next

-- Each line takes a byte or more.
unfoldable pub loader_parse_entries : Loader → List ℕ → Run Loader
loader_parse_entries s config =
    parse_loop (strlen config + 1) s none (strtok_r (some config) line_delimiter [])

-- `text` is what `file_read` stored, up to a zero byte, or `none` where it failed.
unfoldable pub loader_init_boot_entries : Loader → Option (List ℕ) → Run (Status × Loader)
loader_init_boot_entries s text =
    let (a, allocs) = alloc s.allocs in
    let s' = with_allocs s allocs in
    if not a then ok (enomem, s') else elim text [
      | none ↦ ok (enomem, s')
      | some config ↦ do s'' ← loader_parse_entries s' config; ok (success, s'')
    ]
