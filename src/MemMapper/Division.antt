-- ===== src/MemMapper/Division.antt =====
-- How `n_blk` blocks are cut into `n` consecutive runs: the bounds of the runs rounded up (`block`), or
-- down (`block_adws`).
use native.Mathlib.Nat.{
  div-lt_iff_lt-mul, le-div_iff_mul-le, mul-le-mul_right, mul-lt-mul_of_pos_right, mul-le-mul_left,
}
use native.Mathlib.Decide.{dec_le}
use itoyori_github_io.Base.{ℕ, suc, ◌+◌, ◌-◌, ◌*◌, ◌/◌, ◌≤◌, ◌<◌, ◌≡◌, arith, ◌↔◌, ap, max}
use itoyori_github_io.Pow2.{word, add64, sub64}
use itoyori_github_io.MemMapper.{mul64, ceil_div}

pred_of : (a : ℕ) → 0 < a → (j : ℕ) × (a ≡ suc j)
pred_of a p = (a - 1, omega arith)

-- Rounding up, where nothing wraps.
pub ceil_le : (x n b : ℕ) → 0 < n → x + n ≤ word → (ceil_div x n ≤ b) ↔ (x ≤ b * n)
ceil_le x n b h w =
    let e : sub64 (add64 x n) 1 ≡ x + n - 1 = omega arith in
    let d = div-lt_iff_lt-mul {k = n} {x = x + n - 1} {y = suc b} h in
    rw e
      (λ p. let q = d.0 (omega arith) in omega arith, λ p. let q = d.1 (omega arith) in omega arith)

lt_of_le_iff : (a b c d : ℕ) → (a ≤ b) ↔ (c ≤ d) → (b < a) ↔ (d < c)
lt_of_le_iff a b c d (f, g) = (
  λ p. elim (dec_le c d) [ yes h ↦ let q = g h in absurd (omega arith) | no h ↦ omega arith ],
  λ p. elim (dec_le a b) [ yes h ↦ let q = f h in absurd (omega arith) | no h ↦ omega arith ],
)

pub lt_ceil : (x n b : ℕ) → 0 < n → x + n ≤ word → (b < ceil_div x n) ↔ (b * n < x)
lt_ceil x n b h w = lt_of_le_iff (ceil_div x n) b x (b * n) (ceil_le x n b h w)

-- No product or sum over the blocks and the ranks wraps.
abbrev pub Fits : ℕ → ℕ → Type 0
Fits n_blk n = (0 < n_blk) × (0 < n) × (n_blk * n + n_blk + n ≤ word)

-- The bound of run `s`, rounded up, and the run that is computed for block `b`.
abbrev pub up_bound : ℕ → ℕ → ℕ → ℕ
up_bound n_blk n s = ceil_div (mul64 s n_blk) n

abbrev pub up_run : ℕ → ℕ → ℕ → ℕ
up_run n_blk n b = mul64 b n / n_blk

mul64_lem :
    (n_blk n s : ℕ) → Fits n_blk n → s ≤ n → (mul64 s n_blk ≡ s * n_blk) × (s * n_blk ≤ n_blk * n)
mul64_lem n_blk n s f h = let m = mul-le-mul_right n_blk h in (omega arith, omega arith)

module _ (n_blk n : ℕ) (fits : Fits n_blk n) where
  pub up_bound-le : (s b : ℕ) → s ≤ n → (up_bound n_blk n s ≤ b) ↔ (s * n_blk ≤ b * n)
  up_bound-le s b h =
      let (e, l) = mul64_lem n_blk n s fits h in rw e (ceil_le (s * n_blk) n b fits.1 (omega arith))

  pub lt-up_bound : (s b : ℕ) → s ≤ n → (b < up_bound n_blk n s) ↔ (b * n < s * n_blk)
  lt-up_bound s b h =
      let (e, l) = mul64_lem n_blk n s fits h in rw e (lt_ceil (s * n_blk) n b fits.1 (omega arith))

  -- A block lies in the run that is computed for it.
  pub up_run_lem :
      (b : ℕ)
      → b < n_blk
      → (up_run n_blk n b < n)
        × (up_bound n_blk n (up_run n_blk n b) ≤ b)
        × (b < up_bound n_blk n (up_run n_blk n b + 1))
  up_run_lem b h =
      let m = mul-le-mul_right n (let y : b ≤ n_blk = omega arith in y) in
      let e : mul64 b n ≡ b * n = omega arith in
      let s = b * n / n_blk in
      let strict = mul-lt-mul_of_pos_right h fits.1 in
      let below : b * n / n_blk < n = (div-lt_iff_lt-mul fits.0).1 (omega arith) in
      let low = (le-div_iff_mul-le {x = s} {y = b * n} fits.0).0 (omega arith) in
      let high = (div-lt_iff_lt-mul {x = b * n} {y = s + 1} fits.0).0 (omega arith) in
      rw e
        (below, (up_bound-le s b (omega arith)).1 low, (lt-up_bound (s + 1) b (omega arith)).1 high)

  -- And in no other.
  pub up_run_unique :
      (b s : ℕ)
      → b < n_blk
      → s < n
      → up_bound n_blk n s ≤ b
      → b < up_bound n_blk n (s + 1)
      → up_run n_blk n b ≡ s
  up_run_unique b s h k l u =
      let m = mul-le-mul_right n (let y : b ≤ n_blk = omega arith in y) in
      let e : mul64 b n ≡ b * n = omega arith in
      let low =
        (le-div_iff_mul-le {x = s} {y = b * n} fits.0).1 ((up_bound-le s b (omega arith)).0 l) in
      let high =
        (div-lt_iff_lt-mul {x = b * n} {y = s + 1} fits.0).1
          ((lt-up_bound (s + 1) b (omega arith)).0 u) in
      rw e (omega arith)

  -- The bounds grow, from 0 to the number of blocks.
  pub up_bound_mono : (s t : ℕ) → s ≤ t → t ≤ n → up_bound n_blk n s ≤ up_bound n_blk n t
  up_bound_mono s t h k =
      let m = mul-le-mul_right n_blk h in
      (up_bound-le s (up_bound n_blk n t) (omega arith)).1
        (let q = (up_bound-le t (up_bound n_blk n t) k).0 (omega arith) in omega arith)

  pub up_bound-le-blocks : (s : ℕ) → s ≤ n → up_bound n_blk n s ≤ n_blk
  up_bound-le-blocks s h = let (e, l) = mul64_lem n_blk n s fits h in (up_bound-le s n_blk h).1 l

-- The bound of run `s`, rounded down, and the run that is computed for block `b`.
abbrev pub down_bound : ℕ → ℕ → ℕ → ℕ
down_bound n_blk n s = mul64 s n_blk / n

abbrev pub down_run : ℕ → ℕ → ℕ → ℕ
down_run n_blk n b = sub64 (ceil_div (mul64 (add64 b 1) n) n_blk) 1

module _ (n_blk n : ℕ) (fits : Fits n_blk n) where
  pub le-down_bound : (s b : ℕ) → s ≤ n → (b ≤ down_bound n_blk n s) ↔ (b * n ≤ s * n_blk)
  le-down_bound s b h = let (e, l) = mul64_lem n_blk n s fits h in rw e (le-div_iff_mul-le fits.1)

  pub down_bound-lt : (s b : ℕ) → s ≤ n → (down_bound n_blk n s < b) ↔ (s * n_blk < b * n)
  down_bound-lt s b h = let (e, l) = mul64_lem n_blk n s fits h in rw e (div-lt_iff_lt-mul fits.1)

  -- A block lies in the run that is computed for it.
  pub down_run_lem :
      (b : ℕ)
      → b < n_blk
      → (down_run n_blk n b < n)
        × (down_bound n_blk n (down_run n_blk n b) ≤ b)
        × (b < down_bound n_blk n (down_run n_blk n b + 1))
  down_run_lem b h =
      let m = mul-le-mul_right n (let y : b + 1 ≤ n_blk = omega arith in y) in
      let e : mul64 (add64 b 1) n ≡ (b + 1) * n =
        let e0 : add64 b 1 ≡ b + 1 = omega arith in rw e0 (omega arith) in
      let c = ceil_div ((b + 1) * n) n_blk in
      let cle = (ceil_le ((b + 1) * n) n_blk n fits.0 (omega arith)).1 (omega arith) in
      let pos = (lt_ceil ((b + 1) * n) n_blk 0 fits.0 (omega arith)).1 (omega arith) in
      let e' : sub64 c 1 ≡ c - 1 = omega arith in
      let low = (lt_ceil ((b + 1) * n) n_blk (c - 1) fits.0 (omega arith)).0 (omega arith) in
      let high = (ceil_le ((b + 1) * n) n_blk (c - 1 + 1) fits.0 (omega arith)).0 (omega arith) in
      rw (e, e')
        (
          omega arith,
          (let d = (down_bound-lt (c - 1) (b + 1) (omega arith)).1 low in omega arith),
          (let d = (le-down_bound (c - 1 + 1) (b + 1) (omega arith)).1 high in omega arith),
        )

  pub down_run_unique :
      (b s : ℕ)
      → b < n_blk
      → s < n
      → down_bound n_blk n s ≤ b
      → b < down_bound n_blk n (s + 1)
      → down_run n_blk n b ≡ s
  down_run_unique b s h k l u =
      let m = mul-le-mul_right n (let y : b + 1 ≤ n_blk = omega arith in y) in
      let e : mul64 (add64 b 1) n ≡ (b + 1) * n =
        let e0 : add64 b 1 ≡ b + 1 = omega arith in rw e0 (omega arith) in
      let x = (b + 1) * n in
      let above =
        (lt_ceil x n_blk s fits.0 (omega arith)).1
          ((down_bound-lt s (b + 1) (omega arith)).0 (omega arith)) in
      let below =
        (ceil_le x n_blk (s + 1) fits.0 (omega arith)).1
          ((le-down_bound (s + 1) (b + 1) (omega arith)).0 (omega arith)) in
      let c : ceil_div x n_blk ≡ s + 1 = omega arith in rw (e, c) (omega arith)

  pub down_bound_mono : (s t : ℕ) → s ≤ t → t ≤ n → down_bound n_blk n s ≤ down_bound n_blk n t
  down_bound_mono s t h k =
      let m = mul-le-mul_right n_blk h in
      (le-down_bound t (down_bound n_blk n s) k).1 (
        let q = (le-down_bound s (down_bound n_blk n s) (omega arith)).0 (omega arith) in
        omega arith)

  pub down_bound-le-blocks : (s : ℕ) → s ≤ n → down_bound n_blk n s ≤ n_blk
  down_bound-le-blocks s h =
      let (e, l) = mul64_lem n_blk n s fits h in
      let d = (down_bound-lt s (n_blk + 1) h).1 (omega (arith, fits.1)) in omega arith

-- Blocks `lo` to `hi` as a range of offsets.
pub in_blocks :
    (off bs lo hi : ℕ)
    → 0 < bs
    → hi * bs < word
    → lo ≤ off / bs
    → off / bs < hi
    → (mul64 lo bs ≤ off) × (off < mul64 hi bs)
in_blocks off bs lo hi h w l u =
    let low = (le-div_iff_mul-le {x = lo} {y = off} h).0 l in
    let high = (div-lt_iff_lt-mul {x = off} {y = hi} h).0 u in (omega arith, omega arith)

pub of_blocks :
    (off bs lo hi : ℕ)
    → 0 < bs
    → hi * bs < word
    → lo ≤ hi
    → mul64 lo bs ≤ off
    → off < mul64 hi bs
    → (lo ≤ off / bs) × (off / bs < hi)
of_blocks off bs lo hi h w k l u =
    let m = mul-le-mul_right bs k in
    (
      (le-div_iff_mul-le {x = lo} {y = off} h).1 (omega arith),
      (div-lt_iff_lt-mul {x = off} {y = hi} h).1 (omega arith),
    )

pub range_top : (bs hi n : ℕ) → hi ≤ n → n * bs < word → mul64 hi bs ≤ mul64 n bs
range_top bs hi n h w = let m = mul-le-mul_right bs h in omega arith

-- The memory of a process has room for its blocks.
pub range_room :
    (bs lo hi : ℕ)
    → 0 < bs
    → lo < hi
    → hi * bs < word
    → mul64 hi bs - mul64 lo bs ≤ mul64 (max 1 (sub64 hi lo)) bs
range_room bs lo hi h k w =
    let big : hi * 1 ≤ hi * bs = mul-le-mul_left hi h in
    let small = mul-le-mul_right bs (let y : lo ≤ hi = omega arith in y) in
    let (d, e) = gap lo hi (omega arith) in
    let c : max 1 (sub64 hi lo) ≡ d = omega arith in
    let x : hi * bs ≡ (lo + d) * bs = ap (λ (t : ℕ). t * bs) e in rw c (omega arith)
  where
    gap : (a b : ℕ) → a ≤ b → (d : ℕ) × (b ≡ a + d)
    gap a b p = (b - a, omega arith)

-- The number of blocks in that memory.
pub room_blocks : (bs k : ℕ) → 0 < bs → k * bs + bs ≤ word → ceil_div (mul64 k bs) bs ≡ k
room_blocks bs k h w =
    let e : mul64 k bs ≡ k * bs = omega arith in
    let low = (ceil_le (k * bs) bs k h w).1 (omega arith) in
    rw e (elim (dec_le k 0) [
      | yes z ↦ omega arith
      | no z ↦
          let (j, q) = pred_of k (omega arith) in
          let x : k * bs ≡ suc j * bs = ap (λ (t : ℕ). t * bs) q in
          let f : k - 1 ≡ j = omega arith in
          let y = (lt_ceil (k * bs) bs j h w).1 (omega arith) in omega arith
    ])

-- A size rounded up to whole blocks.
pub round_blocks :
    (bs size : ℕ)
    → 0 < bs
    → 0 < size
    → size + bs ≤ word
    → (0 < ceil_div size bs)
      × (size ≤ mul64 (ceil_div size bs) bs)
      × (mul64 (ceil_div size bs) bs < size + bs)
round_blocks bs size h k w =
    let c = ceil_div size bs in
    let low = (ceil_le size bs c h w).0 (omega arith) in
    let pos = (lt_ceil size bs 0 h w).1 (omega arith) in
    let (j, q) = pred_of c pos in
    let high = (lt_ceil size bs j h w).0 (omega arith) in
    let x : c * bs ≡ suc j * bs = ap (λ (t : ℕ). t * bs) q in (pos, omega arith, omega arith)
