-- ===== src/Pattern/Reduce.antt =====
-- pattern/parallel_reduce.hpp: the parallel reduction, for one range and a combination that does not look
-- at positions.
use itoyori_github_io.Base.{
  ℕ, ◌+◌, ◌/◌, Bool, List, [], ◌∷◌, Option, some, none, zero, suc, length, if◌then◌else◌, ◌>>=◌,
  leb,
}
use itoyori_github_io.Pattern.{Policy, assert_policy}
use itoyori_github_io.Pattern.Ranges.{take, drop}

-- A reducer: the accumulator that it starts from, and its two operations.
pub record Reducer (A C : Type 0) : Type 0 where
  pub identity : C
  pub accumulate : C → A → C
  pub combine : C → C → C

module _ {A C : Type 0} where
  -- The serial loop of a leaf.
  unfoldable pub accumulate_all : (C → A → C) → C → List A → C
  accumulate_all op acc [] = acc
  accumulate_all op acc (x ∷ xs) = accumulate_all op (op acc x) xs

  -- Whether a thread has been serialized depends on the scheduler: `serialized` says it of the task for
  -- a number of elements from `first` on. The fuel bounds the depth of the recursion.
  unfoldable pub parallel_reduce_generic :
      ℕ → Policy → Reducer A C → (ℕ → ℕ → Bool) → C → ℕ → List A → Option C
  unfolding accumulate_all
  parallel_reduce_generic zero policy reducer serialized acc first xs = none
  parallel_reduce_generic (suc fuel) policy reducer serialized acc first xs =
      let d = length xs in
      let left =
        parallel_reduce_generic fuel policy reducer serialized acc first (take (d / 2) xs) in
      let right = λ (a : C).
        parallel_reduce_generic fuel policy reducer serialized a (first + d / 2)
          (drop (d / 2) xs) in
      let apart =
        right reducer.identity >>= λ acc_r. left >>= λ acc_l. some (reducer.combine acc_l acc_r) in
      if leb d policy.cutoff_count
      then some (accumulate_all reducer.accumulate acc xs)
      else if serialized first d
      then (left >>= λ acc_l. right acc_l)
      else apart

  unfoldable pub reduce_generic : Policy → Reducer A C → (ℕ → ℕ → Bool) → C → List A → Option C
  unfolding parallel_reduce_generic assert_policy
  reduce_generic policy reducer serialized acc xs =
      if assert_policy policy
      then parallel_reduce_generic (suc (length xs)) policy reducer serialized acc 0 xs
      else none
