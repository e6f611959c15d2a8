-- ===== src/Math/Tests.antt =====
-- Runs of the arithmetic, and the theorems at concrete inputs.
use elfboot.Base.{◌+◌, ◌/◌, ◌%◌, ◌^◌, ◌≡◌, refl, arith}
use elfboot.Base.Int.{pos, negsuc}
use elfboot.Base.Run.{ok, fault}
use elfboot.Math.{fls, log2, round_up_pow2, round_down_pow2, arch_div, pow}
use elfboot.Math.Divide.{arch_div_lem}
use elfboot.Math.Power.{pow_lem}

logs : (log2 4096 ≡ pos 12) × (log2 0 ≡ negsuc 0) × (fls 0x8000_0000 ≡ 32)
unfolding log2
logs = (refl, refl, refl)

roundings :
    (round_up_pow2 1000 ≡ ok 1024)
    × (round_down_pow2 1000 ≡ ok 512)
    × (round_up_pow2 0 ≡ fault)
    × (round_down_pow2 0 ≡ fault)
unfolding round_up_pow2 round_down_pow2
roundings = (refl, refl, refl, refl)

divisions : (arch_div 0x1234_5678_9abc 0 ≡ fault) × (arch_div (2 ^ 40 + 5) 16 ≡ ok (2 ^ 36, 5))
unfolding arch_div
divisions = (refl, refl)

powers : (pow 3 5 ≡ ok 243) × (pow 2 64 ≡ ok 0)
unfolding pow
powers = (refl, refl)

arch_div_example :
    arch_div 0x1234_5678_9abc 1000 ≡ ok (0x1234_5678_9abc / 1000, 0x1234_5678_9abc % 1000)
arch_div_example = arch_div_lem 0x1234_5678_9abc 1000 (omega arith) (omega arith) (omega arith)

pow_example : pow 7 100 ≡ ok (7 ^ 100 % 2 ^ 64)
pow_example = pow_lem 7 100 (omega arith)
