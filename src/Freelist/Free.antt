-- ===== src/Freelist/Free.antt =====
-- The abstract view of freelist.hpp: the addresses that are free, and the invariant of the list.
use itoyori_github_io.Base.{
  ℕ, suc, ◌+◌, ◌≤◌, ◌<◌, ◌≡◌, refl, Bool, false, ◌&&◌, ◌||◌, [], ◌∷◌, arith, ltb, leb,
}
use itoyori_github_io.Pow2.{word}
use itoyori_github_io.Freelist.{Freelist}

-- Address `i` lies in the `size` bytes from `addr`.
abbrev pub within : ℕ → ℕ → ℕ → Bool
within addr size i = leb addr i && ltb i (addr + size)

abbrev pub free : Freelist → ℕ → Bool
free [] i = false
free (x ∷ xs) i = within x.addr x.size i || free xs i

-- In order of address, with no empty entry, with a gap between neighbours (they are joined), and all
-- below `2 ^ 64`; nothing starts below `lo`.
abbrev pub IsValidFrom : ℕ → Freelist → Type 0
IsValidFrom lo [] = Unit {0}
IsValidFrom lo (x ∷ xs) =
    (lo ≤ x.addr) × (0 < x.size) × (x.addr + x.size < word) × IsValidFrom (suc (x.addr + x.size)) xs

abbrev pub IsValid : Freelist → Type 0
IsValid fl = IsValidFrom 0 fl

pub IsValidFrom-mono :
    (lo lo' : ℕ) (fl : Freelist) → lo' ≤ lo → IsValidFrom lo fl → IsValidFrom lo' fl
IsValidFrom-mono lo lo' [] h v = tt
IsValidFrom-mono lo lo' (x ∷ xs) h (a, b, c, d) = (omega arith, b, c, d)

pub free_below : (lo : ℕ) (fl : Freelist) (i : ℕ) → IsValidFrom lo fl → i < lo → free fl i ≡ false
free_below lo [] i v h = refl
free_below lo (x ∷ xs) i (a, b, c, d) h =
    ground (arith, free_below (suc (x.addr + x.size)) xs i d (omega arith))
