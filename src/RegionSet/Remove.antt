-- ===== src/RegionSet/Remove.antt =====
-- `remove` of block_region_set.hpp.
use itoyori_github_io.Base.{
  ℕ, suc, ◌<◌, ◌≡◌, refl, inl, inr, not, ◌&&◌, Option, some, [], ◌∷◌, arith, leb, Bool-cases,
  le→leb,
}
use itoyori_github_io.RegionSet.{Region, region, RegionSet, remove}
use itoyori_github_io.RegionSet.Cover.{
  within, covers, IsValidFrom, IsValid, IsValidFrom-mono, covers_below,
}

-- What `remove r xs` returns, when nothing of `xs` lies below `lo`.
abbrev pub Removes : ℕ → Region → RegionSet → Option RegionSet → Type 0
Removes lo r xs result =
    (out : RegionSet) × (result ≡ some out)
    × IsValidFrom lo out
    × ((i : ℕ) → covers out i ≡ covers xs i && not (within r i))

remove_from :
    (lo : ℕ) (r : Region) (xs : RegionSet)
    → r.begin < r.end
    → IsValidFrom lo xs
    → Removes lo r xs (remove r xs)
unfolding remove
remove_from lo r [] h v = ([], refl, tt, λ i. refl)
remove_from lo r (x ∷ xs) h (a, b, c) =
    let (out, p, v, q) = remove_from (suc x.end) r xs h c in
    elim (Bool-cases (leb r.end x.begin)) [
      | inl e ↦ (x ∷ xs, rw e, (a, b, c), λ i. ground (arith, covers_below (suc x.end) xs i c))
      | inr e ↦ elim (Bool-cases (leb x.end r.begin)) [
        | inl e' ↦ (x ∷ out, rw (e, e', p), (a, b, v), λ i. ground (arith, q i))
        | inr e' ↦ elim (Bool-cases (leb r.begin x.begin)) [
          | inl f ↦ elim (Bool-cases (leb x.end r.end)) [
            | inl g ↦ (
              out,
              rw (e, e', f, g, p),
              IsValidFrom-mono (suc x.end) lo out (omega arith) v,
              λ i. ground (arith, q i),
            )
            | inr g ↦ (
              region r.end x.end ∷ out,
              let g' = le→leb r.end x.end (ground arith) in rw (e, e', f, g, g', p),
              (ground arith, ground arith, v),
              λ i. ground (arith, q i, covers_below (suc x.end) xs i c),
            )
          ]
          | inr f ↦ elim (Bool-cases (leb x.end r.end)) [
            | inl g ↦ (
              region x.begin r.begin ∷ out,
              let f' = le→leb x.begin r.begin (ground arith) in rw (e, e', f, f', g, p),
              (a, ground arith, IsValidFrom-mono (suc x.end) (suc r.begin) out (ground arith) v),
              λ i. ground (arith, q i),
            )
            | inr g ↦ (
              region x.begin r.begin ∷ region r.end x.end ∷ xs,
              ground arith,
              (a, ground arith, (ground arith, ground arith, c)),
              λ i. ground (arith, covers_below (suc x.end) xs i c),
            )
          ]
        ]
      ]
    ]

-- Removing a non-empty region from a valid set never reaches the abort; the result is valid and
-- covers exactly the positions of the set that are not in the region.
pub remove_lem :
    (r : Region) (rs : RegionSet) → r.begin < r.end → IsValid rs → Removes 0 r rs (remove r rs)
remove_lem r rs h v = remove_from 0 r rs h v
