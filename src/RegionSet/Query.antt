-- ===== src/RegionSet/Query.antt =====
-- `include` and `complement` of block_region_set.hpp.
use itoyori_github_io.Base.{
  ℕ, suc, ◌<◌, ◌≡◌, refl, inl, inr, true, false, not, ◌&&◌, [], ◌∷◌, arith, ltb, leb, if◌then◌else◌,
  Bool-cases, leb→le, ltb→lt, ◌↔◌, min, max,
}
use itoyori_github_io.RegionSet.{Region, region, RegionSet, include, complement, complement_from}
use itoyori_github_io.RegionSet.Cover.{
  within, covers, IsValidFrom, IsValid, IsValidFrom-mono, covers_below,
}

-- One region of the code's list, with the complement of what follows it.
complement_cons :
    (lo b e : ℕ) (x : Region) (xs tail : RegionSet)
    → x.begin < x.end
    → b < e
    → IsValidFrom (max b x.end) tail
    → ((i : ℕ) → covers tail i ≡ within (region (max b x.end) e) i && not (covers xs i))
    → ((i : ℕ) → i < suc x.end → covers xs i ≡ false)
    → IsValidFrom b (if ltb b x.begin then region b (min x.begin e) ∷ tail else tail)
      × ((i : ℕ)
          → covers (if ltb b x.begin then region b (min x.begin e) ∷ tail else tail) i
            ≡ within (region b e) i && not (covers (x ∷ xs) i))
complement_cons lo b e x xs tail l k v q below = elim (Bool-cases (ltb b x.begin)) [
  | inl f ↦ rw f (
    (
      omega arith,
      ground arith,
      IsValidFrom-mono (max b x.end) (suc (min x.begin e)) tail (ground arith) v,
    ),
    λ i. ground (arith, q i, below i),
  )
  | inr f ↦
      rw f
        (IsValidFrom-mono (max b x.end) b tail (omega arith) v, λ i. ground (arith, q i, below i))
]

complement_from_lem :
    (lo b e : ℕ) (xs : RegionSet)
    → IsValidFrom lo xs
    → b < e
    → IsValidFrom b (complement_from b e xs)
      × ((i : ℕ) → covers (complement_from b e xs) i ≡ within (region b e) i && not (covers xs i))
unfolding complement_from
complement_from_lem lo b e [] v k = (ground arith, λ i. ground arith)
complement_from_lem lo b e (x ∷ xs) (a, l, c) k = elim (Bool-cases (ltb b x.end)) [
  | inl f ↦ elim (Bool-cases (leb e x.end)) [
    | inl g ↦
        rw (f, g)
          (complement_cons lo b e x xs [] l k tt (λ i. ground (arith, leb→le _ _ g))
            (λ i h. covers_below (suc x.end) xs i c h))
    | inr g ↦
        let (v, q) = complement_from_lem (suc x.end) x.end e xs c (ground arith) in
        let m = let y : max b x.end ≡ x.end = omega (arith, ltb→lt _ _ f) in y in
        rw (f, g)
          (complement_cons lo b e x xs (complement_from x.end e xs) l k (rw m v) (λ i. rw m (q i))
            (λ i h. covers_below (suc x.end) xs i c h))
  ]
  | inr f ↦
      let (v, q) = complement_from_lem (suc x.end) b e xs c k in
      let m = let y : max b x.end ≡ b = ground arith in y in
      rw f (
        complement_cons lo b e x xs (complement_from b e xs) l k (rw m v) (λ i. rw m (q i))
          (λ i h. covers_below (suc x.end) xs i c h))
]

-- The complement of a valid set within a non-empty region is valid and covers exactly the positions
-- of the region that the set does not cover.
pub complement_lem :
    (rs : RegionSet) (r : Region)
    → IsValid rs
    → r.begin < r.end
    → IsValid (complement rs r)
      × ((i : ℕ) → covers (complement rs r) i ≡ within r i && not (covers rs i))
unfolding complement
complement_lem rs r v h =
    let (w, q) = complement_from_lem 0 r.begin r.end rs v h in
    (IsValidFrom-mono r.begin 0 (complement_from r.begin r.end rs) (omega arith) w, q)

-- What is included is covered.
include_sound :
    (lo : ℕ) (r : Region) (rs : RegionSet) (i : ℕ)
    → IsValidFrom lo rs
    → include r rs ≡ true
    → within r i ≡ true
    → covers rs i ≡ true
unfolding include
include_sound lo r [] i v h w = cc
include_sound lo r (x ∷ xs) i (a, b, c) h w = ground (arith, include_sound (suc x.end) r xs i c)

-- A region that is not included has a position that is not covered.
include_complete :
    (lo : ℕ) (r : Region) (rs : RegionSet)
    → IsValidFrom lo rs
    → r.begin < r.end
    → include r rs ≡ false
    → (i : ℕ) × (within r i ≡ true) × (covers rs i ≡ false)
unfolding include
include_complete lo r [] v h e = (r.begin, ground arith, refl)
include_complete lo r (x ∷ xs) (a, b, c) h e = elim (Bool-cases (ltb r.begin x.begin)) [
  | inl f ↦ (r.begin, ground arith, ground (arith, covers_below (suc x.end) xs r.begin c))
  | inr f ↦ elim (Bool-cases (ltb r.begin x.end)) [
    | inl g ↦ (x.end, ground arith, ground (arith, covers_below (suc x.end) xs x.end c))
    | inr g ↦
        let (i, p, q) = include_complete (suc x.end) r xs c h (ground arith) in (i, p, ground arith)
  ]
]

-- On a valid set and a non-empty region `include` holds if and only if every position of the region
-- is covered.
pub include_iff :
    (r : Region) (rs : RegionSet)
    → IsValid rs
    → r.begin < r.end
    → (include r rs ≡ true) ↔ ((i : ℕ) → within r i ≡ true → covers rs i ≡ true)
include_iff r rs v h = (
  λ e i w. include_sound 0 r rs i v e w,
  λ all. elim (Bool-cases (include r rs)) [
    | inl e ↦ e
    | inr e ↦ let (i, p, q) = include_complete 0 r rs v h e in let t = all i p in cc
  ],
)
