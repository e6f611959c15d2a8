-- ===== src/Loader/Comment.antt =====
-- src/core/loader.c: `loader_parse_entries` at a comment.
use elfboot.Base.{ℕ, zero, suc, ◌≡◌, refl, List, ◌∷◌, Option, some}
use elfboot.Base.Run.{out_of_fuel}
use elfboot.Loader.{Loader, BootEntry, parse_step, parse_loop}

-- At a line that starts with "#", the loop of `loader_parse_entries` ends in no number of rounds.
pub parse_loop-comment :
    (k : ℕ) (s : Loader) (entry : Option BootEntry) (line lend : List ℕ)
    → parse_loop k s entry (some (35 ∷ line), lend) ≡ out_of_fuel
unfolding parse_loop parse_step
parse_loop-comment zero s entry line lend = refl
parse_loop-comment (suc k) s entry line lend = parse_loop-comment k s entry line lend
