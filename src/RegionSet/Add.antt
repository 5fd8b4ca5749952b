-- ===== src/RegionSet/Add.antt =====
-- `add` of block_region_set.hpp.
use itoyori_github_io.Base.{
  ℕ, zero, suc, ◌≤◌, ◌<◌, ◌≡◌, refl, ◌∙◌, inl, inr, ◌||◌, Option, some, [], ◌∷◌, arith, ltb, leb,
  Bool-cases, leb→le, ltb→lt, lt→ltb, get_elem?, min, max,
}
use itoyori_github_io.RegionSet.{
  Region, region, RegionSet, get_union, merge_next, add_after, add_at, add,
}
use itoyori_github_io.RegionSet.Cover.{within, covers, IsValidFrom, IsValid, IsValidFrom-mono}

-- The union of two regions that overlap or touch is the hull, and the check passes.
get_union_touching :
    (x y : Region)
    → x.begin ≤ y.end
    → y.begin ≤ x.end
    → x.begin < x.end
    → y.begin < y.end
    → get_union x y ≡ some (region (min x.begin y.begin) (max x.end y.end))
unfolding get_union
get_union_touching x y h k hx hy = ground arith

-- The merge loop takes in every following region that `x` reaches. Its result begins with a region
-- that contains `x`.
merge_next_lem :
    (x : Region) (ys : RegionSet) (lo : ℕ)
    → lo ≤ x.begin
    → x.begin < x.end
    → IsValidFrom (suc x.begin) ys
    → (z : Region) × (zs : RegionSet) × (merge_next x ys ≡ some (z ∷ zs))
      × IsValidFrom lo (z ∷ zs)
      × ((i : ℕ) → covers (z ∷ zs) i ≡ covers (x ∷ ys) i)
      × (z.begin ≤ x.begin)
      × (x.end ≤ z.end)
unfolding merge_next
merge_next_lem x [] lo h k v = (x, [], refl, (h, k, tt), λ i. refl, omega arith, omega arith)
merge_next_lem x (y ∷ ys) lo h k (a, b, c) = elim (Bool-cases (leb y.begin x.end)) [
  | inl e ↦
      let u = region (min x.begin y.begin) (max x.end y.end) in
      let (z, zs, p, v, q, l, m) =
        merge_next_lem u ys lo (omega arith) (omega arith)
          (IsValidFrom-mono (suc y.end) (suc (min x.begin y.begin)) ys (omega arith) c) in
      let g = get_union_touching x y (omega arith) (omega (arith, leb→le _ _ e)) k b in
      (z, zs, rw (e, g) p, v, λ i. q i ∙ ground (arith, leb→le _ _ e), omega arith, omega arith)
  | inr e ↦ (x, y ∷ ys, rw e, (h, k, (ground arith, b, c)), λ i. refl, omega arith, omega arith)
]

-- What `add r xs` returns, when nothing of `xs` or `r` lies below `lo`.
abbrev pub Adds : ℕ → Region → RegionSet → Option (RegionSet × ℕ) → Type 0
Adds lo r xs result =
    (out : RegionSet) × (j : ℕ) × (z : Region) × (result ≡ some (out, suc j))
    × IsValidFrom lo out
    × ((i : ℕ) → covers out i ≡ within r i || covers xs i)
    × (get_elem? out j ≡ some z)
    × (z.begin ≤ r.begin)
    × (r.end ≤ z.end)

add_after_lem :
    (lo : ℕ) (r : Region) (xs : RegionSet)
    → lo ≤ r.begin
    → r.begin < r.end
    → IsValidFrom lo xs
    → Adds lo r xs (add_after r xs)
unfolding add_after
add_after_lem lo r [] h k v =
    (r ∷ [], 0, r, refl, (h, k, tt), λ i. refl, refl, omega arith, omega arith)
add_after_lem lo r (x ∷ xs) h k (a, b, c) = elim (Bool-cases (ltb x.end r.begin)) [
  | inl e ↦
      let (out, j, z, p, v, q, g, l, m) = add_after_lem (suc x.end) r xs (ltb→lt _ _ e) k c in
      (x ∷ out, suc j, z, rw (e, p), (a, b, v), λ i. ground (arith, q i), g, l, m)
  | inr e ↦ elim (Bool-cases (ltb r.end x.begin)) [
    | inl e' ↦ (
      r ∷ x ∷ xs,
      0,
      r,
      rw (e, e'),
      (h, k, (ltb→lt _ _ e', b, c)),
      λ i. refl,
      refl,
      omega arith,
      omega arith,
    )
    | inr e' ↦
        let u = region (min x.begin r.begin) (max x.end r.end) in
        let (z, zs, p, v, q, l, m) =
          merge_next_lem u xs lo (omega arith) (omega arith)
            (IsValidFrom-mono (suc x.end) (suc (min x.begin r.begin)) xs (omega arith) c) in
        let g = get_union_touching x r (ground arith) (ground arith) b k in
        (z ∷ zs, 0, z, rw (e, e', g, p), v, λ i. q i ∙ ground arith, refl, omega arith, omega arith)
  ]
]

-- Adding a non-empty region to a valid set never aborts; the result is valid, it covers exactly the
-- positions of the set and of the region, and the returned iterator is at an element that contains
-- the region.
pub add_lem : (r : Region) (rs : RegionSet) → r.begin < r.end → IsValid rs → Adds 0 r rs (add r rs)
unfolding add
add_lem r rs h v = add_after_lem 0 r rs (omega arith) h v

-- The first `i` elements exist, and each ends before `r` begins.
abbrev pub AllBefore : Region → ℕ → RegionSet → Type 0
AllBefore r zero xs = Unit {0}
AllBefore r (suc i) [] = ⊥
AllBefore r (suc i) (x ∷ xs) = (x.end < r.begin) × AllBefore r i xs

-- A search that starts at an iterator whose elements up to it all end before `r` gives the same list
-- and the same iterator as a search from the start, for every list.
pub add_at-eq-add :
    (r : Region) (i : ℕ) (rs : RegionSet) → AllBefore r i rs → add_at r i rs ≡ add r rs
unfolding add add_after
add_at-eq-add r zero rs h = refl
add_at-eq-add r (suc i) [] h = absurd h
add_at-eq-add r (suc i) (x ∷ xs) (a, b) = rw (lt→ltb _ _ a, add_at-eq-add r i xs b)
