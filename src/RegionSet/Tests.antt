-- ===== src/RegionSet/Tests.antt =====
-- The test cases of block_region_set.hpp, and the theorems at concrete inputs.
use itoyori_github_io.Base.{ℕ, ◌≡◌, refl, true, Option, some, [], ◌∷◌, arith, ◌>>=◌, ◌&&◌, not, ◌↔◌}
use itoyori_github_io.RegionSet.{
  add_after, merge_next, get_union, get_intersection, Region, region, add_after, merge_next,
  get_union, get_intersection, RegionSet, add, remove, include, complement, intersection_sets, size,
}
use itoyori_github_io.RegionSet.Cover.{within, covers, IsValid}
use itoyori_github_io.RegionSet.Add.{Adds, add_lem}
use itoyori_github_io.RegionSet.Remove.{Removes, remove_lem}
use itoyori_github_io.RegionSet.Query.{complement_lem, include_iff}
use itoyori_github_io.RegionSet.Intersection.{Intersects, intersection_sets_lem}
use itoyori_github_io.RegionSet.Size.{count_covered, size-eq-count}

abbrev four : RegionSet
four = region 2 5 ∷ region 6 9 ∷ region 11 20 ∷ region 50 100 ∷ []

abbrev added : Region → RegionSet → Option RegionSet
added r rs = add r rs >>= λ (out, i). some out

add_test :
    (added (region 11 20) (region 2 5 ∷ [])
      >>= added (region 20 21)
      >>= added (region 15 23)
      >>= added (region 8 23)
      >>= added (region 7 25)
      >>= added (region 0 7))
    ≡ some (region 0 25 ∷ [])
unfolding add add_after merge_next get_union
add_test = refl

remove_test :
    (remove (region 4 10) four >>= remove (region 70 80) >>= remove (region 18 55))
    ≡ some (region 2 4 ∷ region 11 18 ∷ region 55 70 ∷ region 80 100 ∷ [])
unfolding remove
remove_test = refl

complement_test : complement four (region 8 15) ≡ region 9 11 ∷ []
unfolding complement
complement_test = refl

intersection_test :
    intersection_sets
      (region 2 5 ∷ region 11 20 ∷ region 25 27 ∷ region 50 100 ∷ [])
      (region 3 4 ∷ region 9 15 ∷ region 16 19 ∷ region 50 100 ∷ [])
    ≡ some (region 3 4 ∷ region 11 15 ∷ region 16 19 ∷ region 50 100 ∷ [])
unfolding intersection_sets get_intersection
intersection_test = refl

add_lem_example : Adds 0 (region 4 12) four (add (region 4 12) four)
add_lem_example = add_lem (region 4 12) four (omega arith) (omega arith)

remove_lem_example : Removes 0 (region 4 12) four (remove (region 4 12) four)
remove_lem_example = remove_lem (region 4 12) four (omega arith) (omega arith)

include_iff_example :
    (include (region 3 5) four ≡ true)
    ↔ ((i : ℕ) → within (region 3 5) i ≡ true → covers four i ≡ true)
include_iff_example = include_iff (region 3 5) four (omega arith) (omega arith)

complement_lem_example :
    IsValid (complement four (region 0 120))
    × ((i : ℕ)
        → covers (complement four (region 0 120)) i
          ≡ within (region 0 120) i && not (covers four i))
complement_lem_example = complement_lem four (region 0 120) (omega arith) (omega arith)

intersection_sets_lem_example :
    Intersects 0 four (covers (region 4 12 ∷ [])) (intersection_sets four (region 4 12 ∷ []))
intersection_sets_lem_example =
    intersection_sets_lem four (region 4 12 ∷ []) (omega arith) (omega arith)

size-eq-count_example : size four ≡ count_covered four 100
size-eq-count_example = size-eq-count 100 four (omega arith) (omega arith) (omega arith)
