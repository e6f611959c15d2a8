-- ===== src/Loader/Lines.antt =====
-- src/core/loader.c: the lines of the configuration, and the words of a line, by `strtok_r`.
use elfboot.Base.{
  ℕ, zero, suc, ◌+◌, ◌%◌, ◌≤◌, ◌<◌, ◌≡◌, ◌≢◌, refl, ap, ◌∙◌, true, false, not, ◌&&◌, Bool,
  Bool-cases, inl, inr, ltb, Option, none, some, List, [], ◌∷◌, ◌++◌, length, take, drop, arith,
  ◌==◌, if◌then◌else◌,
}
use elfboot.Base.Run.{Run, ok, fault, out_of_fuel, ◌>>=◌}
use elfboot.Str.{first, strchr, strspn, strcspn, strtok_r, strlen}
use elfboot.Loader.{
  Loader, BootEntry, line_delimiter, parse_line, parse_step, parse_loop, loader_parse_entries,
}

-- Bytes of a string without the delimiter `d`.
abbrev pub Letters : ℕ → List ℕ → Type 0
Letters d [] = Unit {0}
Letters d (c ∷ word) = (0 < c) × (c < 256) × (c ≢ d) × Letters d word

-- The same as a test, for words that are written out.
abbrev pub letters : ℕ → List ℕ → Bool
letters d [] = true
letters d (c ∷ word) = if ltb 0 c && ltb c 256 && not (c == d) then letters d word else false

pub letters-Letters : (d : ℕ) (word : List ℕ) → letters d word ≡ true → Letters d word
letters-Letters d [] h = tt
letters-Letters d (c ∷ word) h = elim (Bool-cases (ltb 0 c && ltb c 256 && not (c == d))) [
  | inl e ↦ (ground arith, ground arith, ground arith, letters-Letters d word (rw e at h))
  | inr e ↦ absurd (let bad : false ≡ true = rw e at h in cc)
]

pub Letters-append : (d : ℕ) (a b : List ℕ) → Letters d a → Letters d b → Letters d (a ++ b)
Letters-append d [] b h k = k
Letters-append d (c ∷ a) b (positive, byte, other, h) k =
    (positive, byte, other, Letters-append d a b h k)

module _ (d : ℕ) (some_d : 0 < d) (small : d < 256) where
  pub strcspn-word :
      (word more : List ℕ) → Letters d word → strcspn (word ++ d ∷ more) (d ∷ []) ≡ length word
  unfolding strcspn strchr
  strcspn-word [] more h = let same : (d == d % 256) ≡ true = ground arith in rw same refl
  strcspn-word (c ∷ word) more (positive, byte, other, h) =
      let no_end : (0 == c % 256) ≡ false = ground arith in
      let no_delim : (d == c % 256) ≡ false = ground arith in
      rw (no_delim, no_end) (ap suc (strcspn-word word more h))

  pub strcspn-last : (word : List ℕ) → Letters d word → strcspn word (d ∷ []) ≡ length word
  unfolding strcspn strchr
  strcspn-last [] h = refl
  strcspn-last (c ∷ word) (positive, byte, other, h) =
      let no_end : (0 == c % 256) ≡ false = ground arith in
      let no_delim : (d == c % 256) ≡ false = ground arith in
      rw (no_delim, no_end) (ap suc (strcspn-last word h))

  pub strspn-word : (c : ℕ) (more : List ℕ) → Letters d (c ∷ []) → strspn (c ∷ more) (d ∷ []) ≡ 0
  unfolding strspn strchr
  strspn-word c more (positive, byte, other, _) =
      let no_end : (0 == c % 256) ≡ false = ground arith in
      let no_delim : (d == c % 256) ≡ false = ground arith in rw (no_delim, no_end) refl

pub take-word : (word more : List ℕ) → take (length word) (word ++ more) ≡ word
take-word [] more = refl
take-word (c ∷ word) more = ap (λ (t : List ℕ). c ∷ t) (take-word word more)

pub drop-word : (word more : List ℕ) → drop (length word) (word ++ more) ≡ more
drop-word [] more = refl
drop-word (c ∷ word) more = drop-word word more

pub drop_all : (word : List ℕ) → drop (length word) word ≡ []
drop_all [] = refl
drop_all (c ∷ word) = drop_all word

module _ (d : ℕ) (some_d : 0 < d) (small : d < 256) where
  -- A word that a delimiter ends.
  pub strtok_r-word :
      (c : ℕ) (word more : List ℕ)
      → Letters d (c ∷ word)
      → strtok_r none (d ∷ []) ((c ∷ word) ++ d ∷ more) ≡ (some (c ∷ word), more)
  unfolding strtok_r
  strtok_r-word c word more (positive, byte, other, h) =
      let begins : (c == 0) ≡ false = ground arith in
      let ends : (d == 0) ≡ false = ground arith in
      rw
        (
          begins,
          strspn-word d some_d small c (word ++ d ∷ more) (positive, byte, other, tt),
          begins,
          strcspn-word d some_d small (c ∷ word) more (positive, byte, other, h),
          drop-word word (d ∷ more),
          ends,
          take-word word (d ∷ more),
        )
        refl

  -- The last word.
  pub strtok_r-last :
      (c : ℕ) (word : List ℕ)
      → Letters d (c ∷ word)
      → strtok_r none (d ∷ []) (c ∷ word) ≡ (some (c ∷ word), [])
  unfolding strtok_r
  strtok_r-last c word (positive, byte, other, h) =
      let begins : (c == 0) ≡ false = ground arith in
      rw
        (
          begins,
          strspn-word d some_d small c word (positive, byte, other, tt),
          begins,
          strcspn-last d some_d small (c ∷ word) (positive, byte, other, h),
          drop_all word,
        )
        refl

-- The text of some lines, each with its end.
abbrev pub text : List (List ℕ) → List ℕ
text [] = []
text (line ∷ lines) = line ++ 10 ∷ text lines

-- Lines that are neither empty nor comments.
abbrev pub IsLine : List ℕ → Type 0
IsLine [] = ⊥
IsLine (c ∷ line) = (c ≢ 35) × Letters 10 (c ∷ line)

abbrev pub AreLines : List (List ℕ) → Type 0
AreLines [] = Unit {0}
AreLines (line ∷ lines) = IsLine line × AreLines lines

-- One line after the other.
abbrev pub parse_lines : Loader → Option BootEntry → List (List ℕ) → Run (Loader × Option BootEntry)
parse_lines s entry [] = ok (s, entry)
parse_lines s entry (line ∷ lines) = parse_line s entry line >>= λ r. parse_lines r.0 r.1 lines

abbrev pub finish : Run (Loader × Option BootEntry) → Run Loader
finish r = r >>= λ q. ok q.0

-- One round, for a line that is no comment, from what its parts give.
parse_round :
    (k : ℕ) (s : Loader) (entry : Option BootEntry) (line lend : List ℕ)
    (r : Run (Loader × Option BootEntry))
    (g : Loader × Option BootEntry → Run (Loader × Option BootEntry))
    → (first line == 35) ≡ false
    → parse_line s entry line ≡ r
    → ((q : Loader × Option BootEntry)
        → parse_loop k q.0 q.1 (strtok_r none line_delimiter lend) ≡ finish (g q))
    → parse_loop (suc k) s entry (some line, lend) ≡ finish (r >>= g)
unfolding parse_loop parse_step
parse_round k s entry line lend (ok q) g comment run h = rw (comment, run) (h q)
parse_round k s entry line lend fault g comment run h = rw (comment, run) refl
parse_round k s entry line lend out_of_fuel g comment run h = rw (comment, run) refl

parse_loop_lem :
    (k : ℕ) (s : Loader) (entry : Option BootEntry) (lines : List (List ℕ))
    → length lines < k
    → AreLines lines
    → parse_loop k s entry (strtok_r none line_delimiter (text lines))
      ≡ finish (parse_lines s entry lines)
unfolding parse_loop parse_step strtok_r
parse_loop_lem zero s entry lines fuel h = absurd (omega arith)
parse_loop_lem (suc k) s entry [] fuel h = refl
parse_loop_lem (suc k) s entry ([] ∷ lines) fuel h = absurd (h.0)
parse_loop_lem (suc k) s entry ((c ∷ line) ∷ lines) fuel ((other, letters), h) =
    let comment : (c == 35) ≡ false = ground arith in
    let fetched = strtok_r-word 10 (omega arith) (omega arith) c line (text lines) letters in
    ap (λ t. parse_loop (suc k) s entry t) fetched
    ∙ parse_round k s entry (c ∷ line) (text lines) (parse_line s entry (c ∷ line)) _ comment refl
        (λ q. parse_loop_lem k q.0 q.1 lines (omega arith) h)

length-text : (lines : List (List ℕ)) → length lines ≤ strlen (text lines)
unfolding strlen
length-text [] = omega arith
length-text ([] ∷ lines) = omega (arith, length-text lines)
length-text ((c ∷ line) ∷ lines) = omega (arith, length-text (line ∷ lines))

-- A configuration of lines is read line by line.
pub loader_parse_entries_lem :
    (s : Loader) (lines : List (List ℕ))
    → AreLines lines
    → loader_parse_entries s (text lines) ≡ finish (parse_lines s none lines)
unfolding loader_parse_entries strtok_r
loader_parse_entries_lem s lines h =
    parse_loop_lem (strlen (text lines) + 1) s none lines (omega (arith, length-text lines)) h
