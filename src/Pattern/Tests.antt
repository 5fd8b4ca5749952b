-- ===== src/Pattern/Tests.antt =====
-- Runs of the definitions, with the examples of the sources, and the theorems at concrete inputs.
use mathlib.Core.List.{append_assoc, append-nil}
use itoyori_github_io.Base.{
  ap, ◌∙◌, sym, subst, Option, ◌+◌, Bool-cases, get_elem?, if◌then◌else◌, suc, zero, inl, inr, ℕ,
  ◌/◌, ◌%◌, ◌≡◌, refl, Bool, true, List, [], ◌∷◌, ◌++◌, some, none, arith, ltb, ◌==◌, ◌<◌, false,
  length,
}
use itoyori_github_io.Pattern.{Policy, assert_policy}
use itoyori_github_io.Pattern.Order.{StrictWeak, Sorted}
use itoyori_github_io.Pattern.Loop.{rotate}
use itoyori_github_io.Pattern.Loop.Reversed.{rotate_lem}
use itoyori_github_io.Pattern.Merge.{
  find_split_points_for_merge, keep_equal, inplace_merge_aux, merge_sort,
}
use itoyori_github_io.Pattern.Search.{Found}
use itoyori_github_io.Pattern.Split.{find_split_points_for_merge_lem}
use itoyori_github_io.Pattern.Merged.{Sorts}
use itoyori_github_io.Pattern.Sorts.{inplace_merge_aux_lem, merge_sort_lem}
use itoyori_github_io.Pattern.Reduce.{Reducer, accumulate_all, reduce_generic}
use itoyori_github_io.Pattern.Reduced.{ReducerLaws, reduce_generic_lem}
use itoyori_github_io.Pattern.Filter.{stable_partition_aux}
use itoyori_github_io.Pattern.Filtered.{partitioned, stable_partition_aux_lem}
use itoyori_github_io.Pattern.Extremum.{min_element}
use itoyori_github_io.Pattern.Extrema.{IsFirstLeast, left_least, right_least, min_element_lem}
use itoyori_github_io.Pattern.Reference.{reference, reference-StdLaws, insert_all, count_front}

abbrev pairs : Policy
pairs = record { cutoff_count = 2; checkout_count = 2 }

abbrev tens : ℕ → ℕ → Bool
tens x y = ltb (x / 10) (y / 10)

-- the example of `stable_sort`
abbrev numbers : List ℕ
numbers = 2 ∷ 13 ∷ 4 ∷ 14 ∷ 15 ∷ []

tens-StrictWeak : StrictWeak tens
tens-StrictWeak = record {
  asymmetric = λ x y t. ground (arith, t);
  not_below_trans = λ x y z a b. ground (arith, a, b);
}

pairs_valid : assert_policy pairs ≡ true
unfolding assert_policy
pairs_valid = refl

rotate_test : rotate {A = ℕ} pairs (1 ∷ 2 ∷ 3 ∷ []) (4 ∷ 5 ∷ []) ≡ some (4 ∷ 5 ∷ 1 ∷ 2 ∷ 3 ∷ [])
unfolding rotate
rotate_test = refl

split_test :
    find_split_points_for_merge ltb (3 ∷ 4 ∷ []) (2 ∷ 2 ∷ 3 ∷ 3 ∷ 3 ∷ 3 ∷ 4 ∷ []) ≡ some (1, 3)
unfolding find_split_points_for_merge
split_test = refl

merge_sort_test : merge_sort 6 true pairs reference tens numbers ≡ some (2 ∷ 4 ∷ 13 ∷ 14 ∷ 15 ∷ [])
unfolding merge_sort inplace_merge_aux find_split_points_for_merge keep_equal rotate insert_all
    count_front
merge_sort_test = refl

merge_sort_lem_example : Sorts tens numbers (merge_sort 6 true pairs reference tens numbers)
merge_sort_lem_example =
    merge_sort_lem 6 pairs reference tens numbers tens-StrictWeak
      (reference-StdLaws tens tens-StrictWeak) pairs_valid refl (omega arith)

abbrev front : List ℕ
front = 5 ∷ 13 ∷ 31 ∷ []

abbrev back : List ℕ
back = 14 ∷ 25 ∷ []

front-Sorted : Sorted tens front
unfolding insert_all
front-Sorted = (reference-StdLaws tens tens-StrictWeak).sorts front

back-Sorted : Sorted tens back
unfolding insert_all
back-Sorted = (reference-StdLaws tens tens-StrictWeak).sorts back

inplace_merge_aux_lem_example :
    Sorts tens (front ++ back) (inplace_merge_aux 6 true pairs reference tens front back)
inplace_merge_aux_lem_example =
    inplace_merge_aux_lem 6 pairs reference tens front back tens-StrictWeak
      (reference-StdLaws tens tens-StrictWeak) pairs_valid refl front-Sorted back-Sorted
      (omega arith)

find_split_points_for_merge_lem_example :
    Found tens front back (find_split_points_for_merge tens front back)
find_split_points_for_merge_lem_example =
    find_split_points_for_merge_lem tens front back tens-StrictWeak front-Sorted back-Sorted
      (omega arith) (omega arith) (omega arith)

rotate_lem_example : rotate pairs front back ≡ some (back ++ front)
rotate_lem_example = rotate_lem pairs front back pairs_valid

-- The reduction is not commutative: it keeps the elements in order.
abbrev in_order : Reducer ℕ (List ℕ)
in_order = record {
  identity = [];
  accumulate = λ xs x. xs ++ (x ∷ []);
  combine = λ xs ys. xs ++ ys;
}

in_order-ReducerLaws : ReducerLaws in_order
in_order-ReducerLaws = record {
  combine_assoc = append_assoc;
  combine_identity = append-nil;
  accumulates = λ xs x. refl;
}

abbrev some_serialized : ℕ → ℕ → Bool
some_serialized first d = d == 3

reduce_test : reduce_generic pairs in_order some_serialized [] numbers ≡ some numbers
unfolding reduce_generic
reduce_test = refl

reduce_generic_lem_example :
    reduce_generic pairs in_order some_serialized [] numbers
    ≡ some (accumulate_all (λ xs x. xs ++ (x ∷ [])) [] numbers)
reduce_generic_lem_example =
    reduce_generic_lem pairs in_order some_serialized [] numbers in_order-ReducerLaws pairs_valid

abbrev is_even : ℕ → Bool
is_even x = x % 2 == 0

-- the example of `stable_partition`
partition_test :
    stable_partition_aux 6 pairs partitioned is_even (1 ∷ 2 ∷ 3 ∷ 4 ∷ 5 ∷ [])
    ≡ some (2 ∷ 4 ∷ 1 ∷ 3 ∷ 5 ∷ [], 2)
unfolding stable_partition_aux rotate
partition_test = refl

empty_test : stable_partition_aux 1 pairs partitioned is_even [] ≡ none
unfolding stable_partition_aux
empty_test = refl

stable_partition_aux_lem_example :
    stable_partition_aux 6 pairs partitioned is_even numbers ≡ some (partitioned is_even numbers)
stable_partition_aux_lem_example =
    stable_partition_aux_lem 6 pairs partitioned is_even numbers (λ ys. refl) pairs_valid refl
      (omega arith)

-- A search from the end of the list, which keeps to the law of `std::min_element`.
last_min : List ℕ → ℕ
last_min [] = 0
last_min (x ∷ xs) =
    let i = last_min xs in
    elim (get_elem? xs i) [ none ↦ 0 | some y ↦ if tens y x then suc i else 0 ]

single_same : (x j y : ℕ) → get_elem? (x ∷ []) j ≡ some y → tens y x ≡ false
single_same x zero y g = let q : x ≡ y = cc in ground (arith, q)
single_same x (suc j) y g = absurd (cc)

last_min_step :
    (x : ℕ) (xs : List ℕ) (z : ℕ)
    → get_elem? xs (last_min xs) ≡ some z
    → last_min (x ∷ xs) ≡ (if tens z x then suc (last_min xs) else 0)
unfolding last_min
last_min_step x xs z e =
    ap (λ (o : Option ℕ). elim o [ none ↦ 0 | some y ↦ if tens y x then suc (last_min xs) else 0 ])
      e

last_min_below :
    (x y z : ℕ) (ys : List ℕ)
    → get_elem? (y ∷ ys) (last_min (y ∷ ys)) ≡ some z
    → tens z x ≡ true
    → last_min (x ∷ y ∷ ys) ≡ suc (last_min (y ∷ ys))
last_min_below x y z ys e t =
    last_min_step x (y ∷ ys) z e ∙ ap (λ (b : Bool). if b then suc (last_min (y ∷ ys)) else 0) t

last_min_front :
    (x y z : ℕ) (ys : List ℕ)
    → get_elem? (y ∷ ys) (last_min (y ∷ ys)) ≡ some z
    → tens z x ≡ false
    → last_min (x ∷ y ∷ ys) ≡ 0
last_min_front x y z ys e t =
    last_min_step x (y ∷ ys) z e ∙ ap (λ (b : Bool). if b then suc (last_min (y ∷ ys)) else 0) t

last_min_lem : (xs : List ℕ) → 0 < length xs → (y : ℕ) × IsFirstLeast tens xs y (last_min xs)
unfolding last_min
last_min_lem [] n = absurd (omega arith)
last_min_lem (x ∷ []) n = (x, (refl, λ j y g. single_same x j y g, λ j y k g. absurd (omega arith)))
last_min_lem (x ∷ y ∷ ys) n =
    let (z, least) = last_min_lem (y ∷ ys) (omega arith) in
    let alone : IsFirstLeast tens (x ∷ []) x 0 =
      (refl, λ j y g. single_same x j y g, λ j y k g. absurd (omega arith)) in
    let i = last_min (y ∷ ys) in
    elim (Bool-cases (tens z x)) [
      | inl t ↦
          let q : suc i ≡ 1 + i = omega arith in
          let run : last_min (x ∷ y ∷ ys) ≡ suc i = last_min_below x y z ys least.0 t in
          (
            z,
            subst (IsFirstLeast tens (x ∷ y ∷ ys) z) (sym (run ∙ q))
                (right_least tens tens-StrictWeak 1 (x ∷ y ∷ ys) x z 0 i alone least t),
          )
      | inr t ↦ (
        x,
        subst (IsFirstLeast tens (x ∷ y ∷ ys) x) (sym (last_min_front x y z ys least.0 t))
            (left_least tens tens-StrictWeak 1 (x ∷ y ∷ ys) x z 0 i alone least t),
      )
    ]

min_element_test : min_element pairs last_min tens (31 ∷ 15 ∷ 42 ∷ 13 ∷ 18 ∷ []) ≡ some 1
unfolding min_element last_min
min_element_test = refl

min_element_lem_example :
    (x : ℕ) × (i : ℕ) × (min_element pairs last_min tens numbers ≡ some i)
    × IsFirstLeast tens numbers x i
min_element_lem_example =
    min_element_lem pairs last_min tens numbers tens-StrictWeak last_min_lem (omega arith)
      (omega arith)
