-- ===== src/Loader/Tests.antt =====
-- A configuration of one entry, a line that is no entry, and a comment.
use elfboot.Base.{ℕ, ◌≡◌, ◌≢◌, refl, ap, List, [], ◌∷◌, length, some, none, suc, arith}
use elfboot.Base.Run.{ok, fault, out_of_fuel}
use elfboot.Str.{strcmp, strncmp, strlen}
use elfboot.Loader.{
  bootentry, multiboot1, empty_entry, protocol, parse_line, parse_loop, skip, begin_entry,
  option_line, loader_parse_entry, parse_option, loader_strip_entry_line, loader_parse_entries,
}
use elfboot.Loader.Lines.{letters-Letters, text}
use elfboot.Loader.Comment.{parse_loop-comment}
use elfboot.Loader.Entries.{
  Source, entry_of, IsSource, config_of, rich, loader_parse_entries-config,
}

-- "a", "/k", "/i" and "x y".
abbrev source : Source
source = record {
  name = 97 ∷ [];
  word = multiboot1;
  prot = 1;
  path = 47 ∷ 107 ∷ [];
  initrd_path = 47 ∷ 105 ∷ [];
  arguments = 120 ∷ 32 ∷ 121 ∷ [];
}

not_empty : (c : ℕ) (rest : List ℕ) → c ∷ rest ≢ []
not_empty c rest e = let bad : suc (length rest) ≡ 0 = ap length e in absurd (omega arith)

source-IsSource : IsSource source
unfolding protocol strcmp
source-IsSource = record {
  no_quote = letters-Letters 34 (97 ∷ []) refl;
  no_end = letters-Letters 10 (97 ∷ []) refl;
  word = record {
    given = not_empty 109 _;
    no_space = letters-Letters 32 multiboot1 refl;
    no_end = letters-Letters 10 multiboot1 refl;
  };
  known = refl;
  path = record {
    given = not_empty 47 _;
    no_space = letters-Letters 32 (47 ∷ 107 ∷ []) refl;
    no_end = letters-Letters 10 (47 ∷ 107 ∷ []) refl;
  };
  unknown = refl;
  initrd_path = record {
    given = not_empty 47 _;
    no_space = letters-Letters 32 (47 ∷ 105 ∷ []) refl;
    no_end = letters-Letters 10 (47 ∷ 105 ∷ []) refl;
  };
  arguments = letters-Letters 10 (120 ∷ 32 ∷ 121 ∷ []) refl;
}

loader_parse_entries-config_example :
    loader_parse_entries (rich [] 0 0) (text (config_of (source ∷ [])))
    ≡ ok (rich (entry_of source ∷ []) 1 1)
loader_parse_entries-config_example =
    loader_parse_entries-config [] 0 0 (source ∷ []) (source-IsSource, tt)

parse_loop-comment_example :
    parse_loop 1000 (rich [] 0 0) none (some (35 ∷ 97 ∷ []), []) ≡ out_of_fuel
parse_loop-comment_example = parse_loop-comment 1000 (rich [] 0 0) none (97 ∷ []) []

-- A second "bootentry" in an open entry, and "kernel" without a word behind it.
open_entry : parse_line (rich [] 0 0) (some (empty_entry [])) bootentry ≡ fault
unfolding parse_line begin_entry strncmp strlen
open_entry = refl

no_kernel :
    parse_line (rich [] 0 0) (some (empty_entry [])) (9 ∷ 107 ∷ 101 ∷ 114 ∷ 110 ∷ 101 ∷ 108 ∷ [])
    ≡ fault
unfolding parse_line option_line loader_parse_entry parse_option loader_strip_entry_line skip
    strncmp strlen
no_kernel = refl
