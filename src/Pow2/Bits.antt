-- ===== src/Pow2/Bits.antt =====
-- Laws of `&` on the native numbers, from its recursion on the binary digits.
use Prim.Native.Nat.{bit_and, digits, bit_and-bitwise}
use mathlib.Core.WellFounded.{Acc, WellFounded, induction}
use native.Mathlib.Nat.{pow-suc, one-le-pow}
use native.Mathlib.Decide.{dec_lt}
use itoyori_github_io.Base.{
  sym, subst, ◌∙◌, ℕ, zero, suc, ◌+◌, ◌-◌, ◌*◌, ◌/◌, ◌%◌, ◌^◌, ◌≤◌, ◌<◌, min, ◌≡◌, refl, ap, arith,
}

Acc-below : (k n : ℕ) → n < k → Acc ◌<◌ n
Acc-below zero n h = elim h [ ]
Acc-below (suc k) n h = Acc.intro n (λ m hm. Acc-below k m (omega arith))

unfoldable pub lt_wf : WellFounded ◌<◌
unfolding Acc-below
lt_wf = record { apply = λ n. Acc-below (suc n) n (omega arith) }

-- What holds of zero and passes from `n / 2` to `n` holds of every number.
halving {ℓ} : (P : ℕ → Type ℓ) → P 0 → ((n : ℕ) → P (n / 2) → P n) → (n : ℕ) → P n
halving P base pass n = induction lt_wf {C = P} n λ m ih. elim (dec_lt 0 m) [
  | yes p ↦ pass m (ih (m / 2) (omega arith))
  | no p ↦ let e : m ≡ 0 = omega arith in subst P (sym e) base
]

-- The digits of `a & b`, when at most `rounds` of them are looked at.
and_rounds : ℕ → ℕ → ℕ → ℕ
and_rounds rounds a b = digits (λ b. zero) min rounds a b

-- A round more than enough changes nothing.
and_rounds-suc : (r a b : ℕ) → a ≤ r → and_rounds (suc r) a b ≡ and_rounds r a b
unfolding and_rounds
and_rounds-suc zero zero b h = refl
and_rounds-suc zero (suc a) b h = elim h [ ]
and_rounds-suc (suc r) zero b h = refl
and_rounds-suc (suc r) (suc a) b h =
    ap (λ (t : ℕ). t * 2 + min (suc a % 2) (b % 2))
      (and_rounds-suc r (suc a / 2) (b / 2) (omega arith))

and_rounds_enough : (r a b : ℕ) → a ≤ r → and_rounds r a b ≡ and_rounds a a b
and_rounds_enough zero a b h = let e : a ≡ 0 = omega arith in rw e
and_rounds_enough (suc r) a b h = elim (dec_lt r a) [
  | yes p ↦ let e : a ≡ suc r = omega arith in rw e
  | no p ↦ and_rounds-suc r a b (omega arith) ∙ and_rounds_enough r a b (omega arith)
]

-- The lowest digit of `a & b`, and the rest.
pub bit_and_step : (a b : ℕ) → bit_and a b ≡ bit_and (a / 2) (b / 2) * 2 + min (a % 2) (b % 2)
unfolding and_rounds
bit_and_step zero b = ground (arith, bit_and-bitwise 0 b, bit_and-bitwise 0 (b / 2))
bit_and_step (suc a) b =
    bit_and-bitwise (suc a) b
    ∙ ap (λ (t : ℕ). t * 2 + min (suc a % 2) (b % 2))
        (and_rounds_enough a (suc a / 2) (b / 2) (omega arith)
          ∙ sym (bit_and-bitwise (suc a / 2) (b / 2)))

pub bit_and-zero : (a : ℕ) → bit_and a 0 ≡ 0
bit_and-zero = halving (λ n. bit_and n 0 ≡ 0) refl (λ n h. omega (arith, bit_and_step n 0))

pub bit_and_self : (a : ℕ) → bit_and a a ≡ a
bit_and_self = halving (λ n. bit_and n n ≡ n) refl (λ n h. omega (arith, bit_and_step n n))

-- A multiple of the next power of two.
pub double_pow : (m k : ℕ) → m * 2 ^ suc k ≡ m * 2 ^ k + m * 2 ^ k
double_pow m k = rw pow-suc (omega arith)

-- A mask that is a multiple of `2 ^ k` clears the `k` low bits.
pub bit_and_high :
    (k q r m : ℕ) → r < 2 ^ k → bit_and (q * 2 ^ k + r) (m * 2 ^ k) ≡ bit_and q m * 2 ^ k
bit_and_high zero q r m h = ground arith
bit_and_high (suc k) q r m h = ground (
  arith,
  bit_and_step (q * 2 ^ suc k + r) (m * 2 ^ suc k),
  double_pow q k,
  double_pow m k,
  double_pow (bit_and q m) k,
  pow-suc 2 k,
  bit_and_high k q (r / 2) m (omega (arith, pow-suc 2 k)),
)

-- A mask of ones keeps a number that fits.
pub bit_and_ones : (k a : ℕ) → a < 2 ^ k → bit_and a (2 ^ k - 1) ≡ a
bit_and_ones zero a h = ground (arith, bit_and-zero a)
bit_and_ones (suc k) a h = ground (
  arith,
  bit_and_step a (2 ^ suc k - 1),
  pow-suc 2 k,
  one-le-pow k 2,
  bit_and_ones k (a / 2) (omega (arith, pow-suc 2 k)),
)
