-- ===== src/RegionSet/Cover.antt =====
-- The abstract view of block_region_set.hpp: the positions that a list of regions covers, and the
-- invariant of the lists that the code builds.
use itoyori_github_io.Base.{
  ℕ, suc, ◌≤◌, ◌<◌, ◌≡◌, refl, Bool, false, ◌&&◌, ◌||◌, [], ◌∷◌, arith, ltb, leb,
}
use itoyori_github_io.RegionSet.{Region, RegionSet}

-- Position `i` lies in the half-open range of a region.
abbrev pub within : Region → ℕ → Bool
within r i = leb r.begin i && ltb i r.end

-- Position `i` lies in some region of the set.
abbrev pub covers : RegionSet → ℕ → Bool
covers [] i = false
covers (x ∷ xs) i = within x i || covers xs i

-- Ordered, with no empty region and with a gap between neighbours; nothing starts below `lo`.
abbrev pub IsValidFrom : ℕ → RegionSet → Type 0
IsValidFrom lo [] = Unit {0}
IsValidFrom lo (x ∷ xs) = (lo ≤ x.begin) × (x.begin < x.end) × IsValidFrom (suc x.end) xs

abbrev pub IsValid : RegionSet → Type 0
IsValid rs = IsValidFrom 0 rs

pub IsValidFrom-mono :
    (lo lo' : ℕ) (rs : RegionSet) → lo' ≤ lo → IsValidFrom lo rs → IsValidFrom lo' rs
IsValidFrom-mono lo lo' [] h v = tt
IsValidFrom-mono lo lo' (x ∷ xs) h (a, b, c) = (omega arith, b, c)

-- Nothing below the first region is covered.
pub covers_below :
    (lo : ℕ) (rs : RegionSet) (i : ℕ) → IsValidFrom lo rs → i < lo → covers rs i ≡ false
covers_below lo [] i v h = refl
covers_below lo (x ∷ xs) i (a, b, c) h =
    ground (arith, covers_below (suc x.end) xs i c (omega arith))
