-- ===== src/RegionSet/Intersection.antt =====
-- Both `intersection` functions of block_region_set.hpp.
use itoyori_github_io.Base.{
  ℕ, zero, suc, ◌+◌, ◌≤◌, ◌<◌, ◌≡◌, refl, inl, inr, Bool, ◌&&◌, Option, some, [], ◌∷◌, arith, ltb,
  leb, Bool-cases, length, min, max,
}
use itoyori_github_io.RegionSet.{
  Region, region, RegionSet, intersection, intersect_loop, intersection_sets, get_intersection,
}
use itoyori_github_io.RegionSet.Cover.{
  within, covers, IsValidFrom, IsValid, IsValidFrom-mono, covers_below,
}

-- Regions that overlap have a common part, and the check passes.
get_intersection_overlapping :
    (x y : Region)
    → x.begin < y.end
    → y.begin < x.end
    → get_intersection x y ≡ some (region (max x.begin y.begin) (min x.end y.end))
unfolding get_intersection
get_intersection_overlapping x y h k = ground arith

-- What an intersection with the positions that `q` selects returns.
abbrev pub Intersects : ℕ → RegionSet → (ℕ → Bool) → Option RegionSet → Type 0
Intersects lo xs q result =
    (out : RegionSet) × (result ≡ some out)
    × IsValidFrom lo out
    × ((i : ℕ) → covers out i ≡ covers xs i && q i)

intersection_from :
    (lo : ℕ) (xs : RegionSet) (r : Region)
    → IsValidFrom lo xs
    → r.begin < r.end
    → Intersects lo xs (within r) (intersection xs r)
unfolding intersection
intersection_from lo [] r v h = ([], refl, tt, λ i. refl)
intersection_from lo (x ∷ xs) r (a, b, c) h =
    let (out, p, v, q) = intersection_from (suc x.end) xs r c h in
    elim (Bool-cases (leb x.end r.begin)) [
      | inl e ↦ (
        out,
        rw (e, p),
        IsValidFrom-mono (suc x.end) lo out (omega arith) v,
        λ i. ground (arith, q i),
      )
      | inr e ↦ elim (Bool-cases (leb r.end x.begin)) [
        | inl f ↦ ([], rw (e, f), tt, λ i. ground (arith, covers_below (suc x.end) xs i c))
        | inr f ↦
            let g = get_intersection_overlapping x r (ground arith) (ground arith) in
            let z = region (max x.begin r.begin) (min x.end r.end) in
            elim (Bool-cases (ltb r.end x.end)) [
              | inl t ↦ (
                z ∷ [],
                rw (e, f, g, t),
                (omega arith, ground arith, tt),
                λ i. ground (arith, covers_below (suc x.end) xs i c),
              )
              | inr t ↦ (
                z ∷ out,
                rw (e, f, g, t, p),
                (
                  omega arith,
                  ground arith,
                  IsValidFrom-mono (suc x.end) (suc (min x.end r.end)) out (omega arith) v,
                ),
                λ i. ground (arith, q i),
              )
            ]
      ]
    ]

-- Intersecting a valid set with a non-empty region never aborts; the result is valid and covers
-- exactly the positions that both cover.
pub intersection_lem :
    (rs : RegionSet) (r : Region)
    → IsValid rs
    → r.begin < r.end
    → Intersects 0 rs (within r) (intersection rs r)
intersection_lem rs r v h = intersection_from 0 rs r v h

intersect_loop_lem :
    (fuel lo hi : ℕ) (xs ys : RegionSet)
    → length xs + length ys ≤ fuel
    → IsValidFrom lo xs
    → IsValidFrom hi ys
    → Intersects (max lo hi) xs (covers ys) (intersect_loop fuel xs ys)
unfolding intersect_loop
intersect_loop_lem fuel lo hi [] ys f v w = ([], refl, tt, λ i. refl)
intersect_loop_lem fuel lo hi (x ∷ xs) [] f v w = ([], refl, tt, λ i. ground arith)
intersect_loop_lem zero lo hi (x ∷ xs) (y ∷ ys) f v w = absurd (omega arith)
intersect_loop_lem (suc fuel) lo hi (x ∷ xs) (y ∷ ys) f (a, b, c) (a', b', c') =
    let (o1, p1, v1, q1) =
      intersect_loop_lem fuel (suc x.end) hi xs (y ∷ ys) (omega arith) c (a', b', c') in
    let (o2, p2, v2, q2) =
      intersect_loop_lem fuel lo (suc y.end) (x ∷ xs) ys (omega arith) (a, b, c) c' in
    elim (Bool-cases (leb x.end y.begin)) [
      | inl e ↦ (
        o1,
        rw (e, p1),
        IsValidFrom-mono (max (suc x.end) hi) (max lo hi) o1 (omega arith) v1,
        λ i. ground (arith, q1 i, covers_below (suc y.end) ys i c'),
      )
      | inr e ↦ elim (Bool-cases (leb y.end x.begin)) [
        | inl g ↦ (
          o2,
          rw (e, g, p2),
          IsValidFrom-mono (max lo (suc y.end)) (max lo hi) o2 (omega arith) v2,
          λ i. ground (arith, q2 i, covers_below (suc x.end) xs i c),
        )
        | inr g ↦
            let m = get_intersection_overlapping x y (ground arith) (ground arith) in
            let z = region (max x.begin y.begin) (min x.end y.end) in
            elim (Bool-cases (leb x.end y.end)) [
              | inl t ↦ (
                z ∷ o1,
                rw (e, g, m, t, p1),
                (
                  omega arith,
                  ground arith,
                  IsValidFrom-mono (max (suc x.end) hi) (suc (min x.end y.end)) o1 (omega arith) v1,
                ),
                λ i. ground (arith, q1 i, covers_below (suc y.end) ys i c'),
              )
              | inr t ↦ (
                z ∷ o2,
                rw (e, g, m, t, p2),
                (
                  omega arith,
                  ground arith,
                  IsValidFrom-mono (max lo (suc y.end)) (suc (min x.end y.end)) o2 (omega arith) v2,
                ),
                λ i. ground (arith, q2 i, covers_below (suc x.end) xs i c),
              )
            ]
      ]
    ]

-- Intersecting two valid sets neither aborts nor runs out of the loop's fuel; the result is valid and
-- covers exactly the positions that both cover.
pub intersection_sets_lem :
    (xs ys : RegionSet)
    → IsValid xs
    → IsValid ys
    → Intersects 0 xs (covers ys) (intersection_sets xs ys)
unfolding intersection_sets
intersection_sets_lem xs ys v w =
    intersect_loop_lem (length xs + length ys) 0 0 xs ys (omega arith) v w
