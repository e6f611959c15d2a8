-- ===== src/Modules/Words.antt =====
-- src/core/module.c: the words that relocations read and write.
use elfboot.Base.{ℕ, ◌+◌, ◌^◌, ◌≤◌, ◌<◌, ◌≡◌, ◌⊎◌, refl, true, false, arith, ◌==◌}
use elfboot.Modules.{Memory, read32, write32}

pub write32-other : (m : Memory) (a v b : ℕ) → ((b < a) ⊎ (a + 4 ≤ b)) → write32 m a v b ≡ m b
unfolding write32
write32-other m a v b apart =
    let e : (b == a + 3) ≡ false = ground arith in
    let f : (b == a + 2) ≡ false = ground arith in
    let g : (b == a + 1) ≡ false = ground arith in
    let h : (b == a) ≡ false = ground arith in rw (e, f, g, h) refl

pub read32-write32 : (m : Memory) (a v : ℕ) → v < 2 ^ 32 → read32 (write32 m a v) a ≡ v
unfolding read32 write32
read32-write32 m a v small =
    let e₀ : (a == a + 3) ≡ false = ground arith in
    let e₁ : (a == a + 2) ≡ false = ground arith in
    let e₂ : (a == a + 1) ≡ false = ground arith in
    let e : (a == a) ≡ true = ground arith in
    let f₀ : (a + 1 == a + 3) ≡ false = ground arith in
    let f₁ : (a + 1 == a + 2) ≡ false = ground arith in
    let f : (a + 1 == a + 1) ≡ true = ground arith in
    let g₀ : (a + 2 == a + 3) ≡ false = ground arith in
    let g : (a + 2 == a + 2) ≡ true = ground arith in
    let h : (a + 3 == a + 3) ≡ true = ground arith in
    rw (e₀, e₁, e₂, e, f₀, f₁, f, g₀, g, h) (omega arith)

pub read32-same :
    (m m' : Memory) (a : ℕ)
    → m' a ≡ m a
    → m' (a + 1) ≡ m (a + 1)
    → m' (a + 2) ≡ m (a + 2)
    → m' (a + 3) ≡ m (a + 3)
    → read32 m' a ≡ read32 m a
unfolding read32
read32-same m m' a e f g h = rw (e, f, g, h) refl
