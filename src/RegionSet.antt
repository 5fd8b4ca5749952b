-- ===== src/RegionSet.antt =====
-- include/ityr/ori/block_region_set.hpp: `region<T>` and `region_set<T>` at `T = block_size_t`.
-- The forward list is a list; an iterator of it is a number, 0 for `before_begin()` and `i` for the
-- `i`-th element. `none` is an abort by `common::die` (a failed ITYR_CHECK, or the last branch of
-- `remove`).
pub mod Cover
pub mod Add
pub mod Remove
pub mod Query
pub mod Intersection
pub mod Size
mod Tests
use itoyori_github_io.Base.{
  ℕ, zero, suc, ◌+◌, ◌-◌, ◌%◌, ◌^◌, min, max, Bool, true, false, ◌&&◌, ◌||◌, Option, none, some,
  List, [], ◌∷◌, ltb, leb, ◌==◌, if◌then◌else◌, ◌>>=◌, length,
}

pub record Region : Type 0 where
  pub begin : ℕ
  pub end : ℕ

abbrev pub region : ℕ → ℕ → Region
region b e = record { begin = b; end = e }

-- The constructor at a type of `w` bits, with its checks. Where only `region` stands, both positions are
-- of that type already.
unfoldable pub checked_region : ℕ → ℕ → ℕ → Option Region
checked_region w b e = if leb b (2 ^ w - 1) && leb e (2 ^ w - 1) then some (region b e) else none

-- `region::size`: an unsigned 32-bit difference, which wraps.
unfoldable pub region_size : Region → ℕ
region_size r = (r.end + 2 ^ 32 - r.begin) % 2 ^ 32

unfoldable pub overlap : Region → Region → Bool
overlap r1 r2 = ltb r1.begin r2.end && ltb r2.begin r1.end

unfoldable pub contiguous : Region → Region → Bool
contiguous r1 r2 = r1.begin == r2.end || r1.end == r2.begin

unfoldable pub get_union : Region → Region → Option Region
unfolding overlap contiguous
get_union r1 r2 =
    if overlap r1 r2 || contiguous r1 r2
    then some (region (min r1.begin r2.begin) (max r1.end r2.end))
    else none

unfoldable pub get_intersection : Region → Region → Option Region
unfolding overlap
get_intersection r1 r2 =
    if overlap r1 r2 then some (region (max r1.begin r2.begin) (min r1.end r2.end)) else none

abbrev pub RegionSet : Type 0
RegionSet = List Region

-- The merge loop of `add`: `x` is the element at `it`, the list is what follows it.
unfoldable pub merge_next : Region → RegionSet → Option RegionSet
merge_next x [] = some (x ∷ [])
merge_next x (y ∷ ys) =
    let merged = get_union x y >>= λ u. merge_next u ys in
    if leb y.begin x.end then merged else some (x ∷ y ∷ ys)

-- `add(r, it)` on what follows `it`: the new list, and how far the returned iterator is beyond `it`.
unfoldable pub add_after : Region → RegionSet → Option (RegionSet × ℕ)
add_after r [] = some (r ∷ [], 1)
add_after r (x ∷ xs) =
    let skipped = add_after r xs >>= λ (out, i). some (x ∷ out, suc i) in
    let merged = get_union x r >>= λ u. merge_next u xs >>= λ out. some (out, 1) in
    if ltb x.end r.begin
    then skipped
    else if ltb r.end x.begin
    then some (r ∷ x ∷ xs, 1)
    else merged

-- `add(r, begin_it)`: the elements up to `begin_it` are not looked at.
unfoldable pub add_at : Region → ℕ → RegionSet → Option (RegionSet × ℕ)
add_at r zero xs = add_after r xs
add_at r (suc i) [] = none
add_at r (suc i) (x ∷ xs) = add_at r i xs >>= λ (out, j). some (x ∷ out, suc j)

unfoldable pub add : Region → RegionSet → Option (RegionSet × ℕ)
unfolding add_at
add r rs = add_at r zero rs

-- In the sixth case the loop goes on at the right part, where its first test stops it.
unfoldable pub remove : Region → RegionSet → Option RegionSet
remove r [] = some []
remove r (x ∷ xs) =
    let rest = remove r xs in
    if leb r.end x.begin
    then some (x ∷ xs)
    else if leb x.end r.begin
    then (rest >>= λ out. some (x ∷ out))
    else if leb r.begin x.begin && leb x.end r.end
    then rest
    else if leb r.begin x.begin && leb r.end x.end
    then (rest >>= λ out. some (region r.end x.end ∷ out))
    else if leb x.begin r.begin && leb x.end r.end
    then (rest >>= λ out. some (region x.begin r.begin ∷ out))
    else if leb x.begin r.begin && leb r.end x.end
    then some (region x.begin r.begin ∷ region r.end x.end ∷ xs)
    else none

unfoldable pub include : Region → RegionSet → Bool
include r [] = false
include r (x ∷ xs) =
    let rest = include r xs in
    if ltb r.begin x.begin then false else if leb r.end x.end then true else rest

-- `b` is the running `r.begin` of the loop, which the code writes back into its copy of `r`.
unfoldable pub complement_from : ℕ → ℕ → RegionSet → RegionSet
complement_from b e [] = if ltb b e then region b e ∷ [] else []
complement_from b e (x ∷ xs) =
    let advanced = ltb b x.end in
    let rest = complement_from (if advanced then x.end else b) e xs in
    let tail = if advanced && leb e x.end then [] else rest in
    if ltb b x.begin then region b (min x.begin e) ∷ tail else tail

unfoldable pub complement : RegionSet → Region → RegionSet
unfolding complement_from
complement rs r = complement_from r.begin r.end rs

unfoldable pub intersection : RegionSet → Region → Option RegionSet
intersection [] r = some []
intersection (x ∷ xs) r =
    let rest = intersection xs r in
    if leb x.end r.begin
    then rest
    else if leb r.end x.begin
    then some []
    else get_intersection x r >>= λ y.
        if ltb r.end x.end then some (y ∷ []) else (rest >>= λ out. some (y ∷ out))

-- The loop of `intersection(rs)`: one step of fuel for each round, and each round advances one of the
-- two iterators.
unfoldable pub intersect_loop : ℕ → RegionSet → RegionSet → Option RegionSet
intersect_loop fuel [] ys = some []
intersect_loop fuel (x ∷ xs) [] = some []
intersect_loop zero (x ∷ xs) (y ∷ ys) = none
intersect_loop (suc fuel) (x ∷ xs) (y ∷ ys) =
    let advance_1 = intersect_loop fuel xs (y ∷ ys) in
    let advance_2 = intersect_loop fuel (x ∷ xs) ys in
    if leb x.end y.begin
    then advance_1
    else if leb y.end x.begin
    then advance_2
    else get_intersection x y >>= λ z.
        (if leb x.end y.end then advance_1 else advance_2) >>= λ out. some (z ∷ out)

unfoldable pub intersection_sets : RegionSet → RegionSet → Option RegionSet
unfolding intersect_loop
intersection_sets xs ys = intersect_loop (length xs + length ys) xs ys

unfoldable pub size : RegionSet → ℕ
size [] = 0
size (x ∷ xs) = (region_size x + size xs) % 2 ^ 64
