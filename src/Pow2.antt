-- ===== src/Pow2.antt =====
-- include/ityr/common/util.hpp: the power-of-two helpers, at 64-bit unsigned arguments. `~x` is
-- `2 ^ 64 - 1 - x`, and an unsigned difference or sum wraps at `2 ^ 64`. ITYR_CHECK(is_pow2(a)) of the
-- rounding functions is the hypothesis `a ≡ 2 ^ k` of their theorems.
pub mod Bits
pub mod Rounding
mod Tests
use Prim.Native.Nat.{bit_and, bit_or}
use itoyori_github_io.Base.{ℕ, ◌+◌, ◌-◌, ◌/◌, ◌%◌, ◌^◌, Bool, ◌==◌}

abbrev pub word : ℕ
word = 2 ^ 64

-- Unsigned 64-bit addition and subtraction.
abbrev pub add64 : ℕ → ℕ → ℕ
add64 a b = (a + b) % word

abbrev pub sub64 : ℕ → ℕ → ℕ
sub64 a b = (a + word - b) % word

-- The binary complement.
abbrev pub not64 : ℕ → ℕ
not64 a = word - 1 - a

unfoldable pub is_pow2 : ℕ → Bool
is_pow2 x = bit_and x (sub64 x 1) == 0

unfoldable pub round_down_pow2 : ℕ → ℕ → ℕ
round_down_pow2 x alignment = bit_and x (not64 (sub64 alignment 1))

unfoldable pub round_up_pow2 : ℕ → ℕ → ℕ
round_up_pow2 x alignment = bit_and (sub64 (add64 x alignment) 1) (not64 (sub64 alignment 1))

-- `x |= x >> s`
abbrev smear : ℕ → ℕ → ℕ
smear s x = bit_or x (x / 2 ^ s)

unfoldable pub next_pow2 : ℕ → ℕ
next_pow2 x = add64 (smear 32 (smear 16 (smear 8 (smear 4 (smear 2 (smear 1 (sub64 x 1))))))) 1
