-- ===== src/Pow2/Rounding.antt =====
-- `is_pow2`, `round_down_pow2` and `round_up_pow2` of common/util.hpp, as arithmetic.
use Prim.Native.Nat.{bit_and}
use mathlib.Core.WellFounded.{induction}
use native.Mathlib.Nat.{pow-suc, one-le-pow, div-add-mod', div-lt_iff_lt-mul, mod-lt, mul-mod_left}
use itoyori_github_io.Base.{
  ℕ, zero, suc, ◌+◌, ◌-◌, ◌*◌, ◌/◌, ◌%◌, ◌^◌, ◌≤◌, ◌<◌, ◌≡◌, refl, ap, arith, ◌∙◌, true, ◌==◌, ◌⊎◌,
  inl, inr, ==→eq, sym, ap₂, Bool-cases, ◌↔◌,
}
use itoyori_github_io.Pow2.{word, add64, sub64, not64, is_pow2, round_down_pow2, round_up_pow2}
use itoyori_github_io.Pow2.Bits.{
  lt_wf, bit_and_step, double_pow, bit_and-zero, bit_and_self, bit_and_high, bit_and_ones,
}

pub pow_add : (k d : ℕ) → 2 ^ (k + d) ≡ 2 ^ d * 2 ^ k
pow_add zero d = ground arith
pow_add (suc k) d =
    let e : suc k + d ≡ suc (k + d) = omega arith in
    rw e (omega (arith, pow-suc 2 (k + d), double_pow (2 ^ d) k, pow_add k d))

pub pow_pos : (k : ℕ) → 0 < 2 ^ k
pow_pos k = one-le-pow k 2 (omega arith)

-- The complement of `2 ^ k - 1` in 64 bits, where `a` is `2 ^ k` and `b` is `2 ^ (64 - k)`.
mask_parts : (a b : ℕ) → 0 < a → b * a ≡ word → not64 (sub64 a 1) ≡ (b - 1) * a
mask_parts a zero h p = absurd (omega arith)
mask_parts a (suc b) h p = let e : suc b - 1 ≡ b = omega arith in rw e (omega arith)

-- The mask of the rounding functions keeps the multiples of `2 ^ k`.
mask_lem : (k x : ℕ) → k ≤ 64 → x < word → bit_and x (not64 (sub64 (2 ^ k) 1)) ≡ x / 2 ^ k * 2 ^ k
mask_lem k x e h =
    let d = 64 - k in
    let p : 2 ^ d * 2 ^ k ≡ word =
      sym (pow_add k d) ∙ ap (λ (t : ℕ). 2 ^ t) (let q : k + (64 - k) ≡ 64 = omega arith in q) in
    let m : not64 (sub64 (2 ^ k) 1) ≡ (2 ^ d - 1) * 2 ^ k =
      mask_parts (2 ^ k) (2 ^ d) (pow_pos k) p in
    let split : x ≡ x / 2 ^ k * 2 ^ k + x % 2 ^ k = sym (div-add-mod' x (2 ^ k)) in
    let small : x / 2 ^ k < 2 ^ d = (div-lt_iff_lt-mul (pow_pos k)).1 (omega (arith, p)) in
    rw m (
      ap (λ (t : ℕ). bit_and t ((2 ^ d - 1) * 2 ^ k)) split
      ∙ bit_and_high k (x / 2 ^ k) (x % 2 ^ k) (2 ^ d - 1) (mod-lt x (pow_pos k))
      ∙ ap (λ (t : ℕ). t * 2 ^ k) (bit_and_ones d (x / 2 ^ k) small))

-- At a power of two, `round_down_pow2` gives the largest multiple that is at most `x`.
pub round_down_pow2_lem :
    (x k : ℕ)
    → x < word
    → k ≤ 64
    → (round_down_pow2 x (2 ^ k) % 2 ^ k ≡ 0)
      × (round_down_pow2 x (2 ^ k) ≤ x)
      × (x < round_down_pow2 x (2 ^ k) + 2 ^ k)
unfolding round_down_pow2
round_down_pow2_lem x k h e = rw (mask_lem k x e h) (
  mul-mod_left _ _,
  omega (arith, div-add-mod' x (2 ^ k)),
  omega (arith, div-add-mod' x (2 ^ k), mod-lt x (pow_pos k)),
)

-- At a power of two, and unless `x + alignment` exceeds 64 bits, `round_up_pow2` gives the least
-- multiple that is at least `x`.
pub round_up_pow2_lem :
    (x k : ℕ)
    → x + 2 ^ k ≤ word
    → k ≤ 64
    → (round_up_pow2 x (2 ^ k) % 2 ^ k ≡ 0)
      × (x ≤ round_up_pow2 x (2 ^ k))
      × (round_up_pow2 x (2 ^ k) < x + 2 ^ k)
unfolding round_up_pow2
round_up_pow2_lem x k h e =
    let y = x + 2 ^ k - 1 in
    let s : sub64 (add64 x (2 ^ k)) 1 ≡ x + 2 ^ k - 1 = omega (arith, pow_pos k) in
    rw (s, mask_lem k (x + 2 ^ k - 1) e (omega (arith, pow_pos k)))
      (
        mul-mod_left _ _,
        omega (arith, div-add-mod' (x + 2 ^ k - 1) (2 ^ k), mod-lt (x + 2 ^ k - 1) (pow_pos k)),
        omega (arith, div-add-mod' (x + 2 ^ k - 1) (2 ^ k), pow_pos k),
      )

-- `x & (x - 1)` clears the lowest one.
and_pred : (x : ℕ) → 0 < x → bit_and x (x - 1) ≡ 0 → (k : ℕ) × (x ≡ 2 ^ k)
and_pred x =
    induction lt_wf {C = λ n. 0 < n → bit_and n (n - 1) ≡ 0 → (k : ℕ) × (n ≡ 2 ^ k)} x λ n ih h e.
      elim (Bool-cases (n % 2 == 0)) [
        | inl even ↦
            let r : n % 2 ≡ 0 = ==→eq _ _ even in
            let half : (n - 1) / 2 ≡ n / 2 - 1 = omega arith in
            let rest : bit_and (n / 2) (n / 2 - 1) ≡ 0 =
              omega (arith, bit_and_step n (n - 1), ap (bit_and (n / 2)) half) in
            let (k, p) = ih (n / 2) (omega arith) (omega arith) rest in
            (suc k, omega (arith, pow-suc 2 k))
        | inr odd ↦
            let r : n % 2 ≡ 1 = ground arith in
            let half : (n - 1) / 2 ≡ n / 2 = omega arith in
            (
              0,
              omega
                  (arith, bit_and_step n (n - 1), ap (bit_and (n / 2)) half, bit_and_self (n / 2)),
            )
      ]

and_pow2 : (k : ℕ) → bit_and (2 ^ k) (2 ^ k - 1) ≡ 0
and_pow2 zero = bit_and-zero 1
and_pow2 (suc k) =
    let a : 2 ^ suc k / 2 ≡ 2 ^ k = omega (arith, pow-suc 2 k) in
    let b : (2 ^ suc k - 1) / 2 ≡ 2 ^ k - 1 = omega (arith, pow-suc 2 k) in
    omega
      (arith, bit_and_step (2 ^ suc k) (2 ^ suc k - 1), ap₂ bit_and a b, and_pow2 k, pow-suc 2 k)

-- On 64-bit arguments `is_pow2` holds of zero and of the powers of two, and of nothing else.
pub is_pow2_iff : (x : ℕ) → x < word → (is_pow2 x ≡ true) ↔ ((x ≡ 0) ⊎ ((k : ℕ) × (x ≡ 2 ^ k)))
unfolding is_pow2
is_pow2_iff zero h = (λ e. inl refl, λ e. refl)
is_pow2_iff (suc y) h =
    let s : sub64 (suc y) 1 ≡ suc y - 1 = omega arith in
    (
      λ e. inr (and_pred (suc y) (omega arith) (rw s at (==→eq _ _ e))),
      λ p. elim p [
        | inl z ↦ absurd (omega arith)
        | inr (k, q) ↦ rw (s, ap (λ (t : ℕ). bit_and t (t - 1)) q ∙ and_pow2 k)
      ],
    )
