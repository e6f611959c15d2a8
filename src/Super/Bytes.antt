-- ===== src/Super/Bytes.antt =====
-- The bytes of a device and parts of them, for src/fs/super.c.
use elfboot.Base.{
  ℕ, zero, suc, ◌+◌, ◌-◌, ◌≤◌, ◌≡◌, refl, ap, ◌∙◌, List, [], ◌∷◌, ◌++◌, take, drop, length, arith,
}
use elfboot.PageAlloc.{change}
use elfboot.Super.{Buffer, copy_at}

-- `n` bytes from `at` on.
abbrev pub bytes : (ℕ → ℕ) → ℕ → ℕ → List ℕ
bytes disk at zero = []
bytes disk at (suc n) = disk at ∷ bytes disk (at + 1) n

module _ (disk : ℕ → ℕ) where
  pub bytes-append : (at n m : ℕ) → bytes disk at n ++ bytes disk (at + n) m ≡ bytes disk at (n + m)
  bytes-append at zero m =
      let e : at + 0 ≡ at = omega arith in let f : 0 + m ≡ m = omega arith in rw (e, f) refl
  bytes-append at (suc n) m =
      let e : at + suc n ≡ at + 1 + n = omega arith in
      let f : suc n + m ≡ suc (n + m) = omega arith in
      rw (e, f) (ap (◌∷◌ (disk at)) (bytes-append (at + 1) n m))

  drop-bytes : (at k n : ℕ) → drop k (bytes disk at (k + n)) ≡ bytes disk (at + k) n
  drop-bytes at zero n =
      let e : at + 0 ≡ at = omega arith in let f : 0 + n ≡ n = omega arith in rw (e, f) refl
  drop-bytes at (suc k) n =
      let e : at + suc k ≡ at + 1 + k = omega arith in
      let f : suc k + n ≡ suc (k + n) = omega arith in rw (e, f) (drop-bytes (at + 1) k n)

  take-bytes : (at k n : ℕ) → take k (bytes disk at (k + n)) ≡ bytes disk at k
  take-bytes at zero n = refl
  take-bytes at (suc k) n =
      let f : suc k + n ≡ suc (k + n) = omega arith in
      rw f (ap (◌∷◌ (disk at)) (take-bytes (at + 1) k n))

  -- The part of `size` bytes that starts at `k` and has `n` bytes.
  pub part-bytes :
      (at size k n : ℕ)
      → k + n ≤ size
      → take n (drop k (bytes disk at size)) ≡ bytes disk (at + k) n
  part-bytes at size k n h =
      let left = size - (k + n) in
      let e : size ≡ k + (n + left) = omega arith in
      ap (λ (s : ℕ). take n (drop k (bytes disk at s))) e
      ∙ ap (take n) (drop-bytes at k (n + left))
      ∙ take-bytes (at + k) n left

  pub length-bytes : (at n : ℕ) → length (bytes disk at n) ≡ n
  length-bytes at zero = refl
  length-bytes at (suc n) = ap suc (length-bytes (at + 1) n)

-- Two copies, the second one behind the first.
pub copy_at-append :
    (buffer : Buffer) (off : ℕ) (a b : List ℕ)
    → copy_at (copy_at buffer off a) (off + length a) b ≡ copy_at buffer off (a ++ b)
copy_at-append buffer off [] b = let e : off + 0 ≡ off = omega arith in rw e refl
copy_at-append buffer off (c ∷ a) b =
    let e : off + suc (length a) ≡ off + 1 + length a = omega arith in
    rw e (copy_at-append (change buffer off c) (off + 1) a b)
