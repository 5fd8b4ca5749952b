-- ===== src/RegionSet/Size.antt =====
-- `size` of block_region_set.hpp.
use itoyori_github_io.Base.{
  ℕ, zero, suc, ◌+◌, ◌≤◌, ◌<◌, ◌≡◌, refl, [], ◌∷◌, arith, if◌then◌else◌, ◌-◌, ◌^◌, min, max,
}
use itoyori_github_io.RegionSet.{Region, RegionSet, size, region_size}
use itoyori_github_io.RegionSet.Cover.{covers, IsValidFrom, IsValid, covers_below}

-- How many of the positions below `n` are covered.
abbrev pub count_covered : RegionSet → ℕ → ℕ
count_covered rs zero = 0
count_covered rs (suc n) = (if covers rs n then 1 else 0) + count_covered rs n

-- Every region ends within the first `n` positions.
abbrev pub EndsBy : ℕ → RegionSet → Type 0
EndsBy n [] = Unit {0}
EndsBy n (x ∷ xs) = (x.end ≤ n) × EndsBy n xs

count_nil : (n : ℕ) → count_covered [] n ≡ 0
count_nil zero = refl
count_nil (suc n) = omega (arith, count_nil n)

-- The first region adds its length to the count.
count_cons :
    (x : Region) (xs : RegionSet) (n : ℕ)
    → x.begin < x.end
    → IsValidFrom (suc x.end) xs
    → count_covered (x ∷ xs) n ≡ (min n x.end - x.begin) + count_covered xs n
count_cons x xs zero b c = omega arith
count_cons x xs (suc n) b c = ground (arith, count_cons x xs n b c, covers_below (suc x.end) xs n c)

size_from :
    (lo n : ℕ) (rs : RegionSet)
    → IsValidFrom lo rs
    → EndsBy n rs
    → n < 2 ^ 32
    → (size rs ≡ count_covered rs n) × (size rs + lo ≤ max n lo)
unfolding size region_size
size_from lo n [] v e h = (omega (arith, count_nil n), omega arith)
size_from lo n (x ∷ xs) (a, b, c) (e, es) h =
    let (p, q) = size_from (suc x.end) n xs c es h in
    let k = count_cons x xs n b c in (omega arith, omega arith)

-- On a valid set of 32-bit positions neither the differences nor the sum of `size` wraps: it is the
-- number of covered positions.
pub size-eq-count :
    (n : ℕ) (rs : RegionSet) → IsValid rs → EndsBy n rs → n < 2 ^ 32 → size rs ≡ count_covered rs n
size-eq-count n rs v e h = (size_from 0 n rs v e h).0
