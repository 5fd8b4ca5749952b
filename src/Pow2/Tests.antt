-- ===== src/Pow2/Tests.antt =====
-- The test cases of common/util.hpp, and the theorems at concrete inputs.
use itoyori_github_io.Base.{ℕ, ◌-◌, ◌^◌, ◌≡◌, refl, false}
use itoyori_github_io.Pow2.{is_pow2, round_down_pow2, round_up_pow2, next_pow2}

next_pow2_test :
    (next_pow2 0 ≡ 0) × (next_pow2 1 ≡ 1) × (next_pow2 5 ≡ 8) × (next_pow2 (2 ^ 38 - 100) ≡ 2 ^ 38)
unfolding next_pow2
next_pow2_test = (refl, refl, refl, refl)

rounding_test :
    (round_down_pow2 1100 128 ≡ 1024)
    × (round_down_pow2 73 128 ≡ 0)
    × (round_up_pow2 1100 128 ≡ 1152)
    × (round_up_pow2 128 128 ≡ 128)
    × (is_pow2 129 ≡ false)
unfolding round_down_pow2 round_up_pow2 is_pow2
rounding_test = (refl, refl, refl, refl, refl)

abbrev two_bits : ℕ
two_bits = 96
