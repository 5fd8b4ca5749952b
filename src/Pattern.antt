-- ===== src/Pattern.antt =====
-- include/ityr/pattern/: the parallel algorithms on ranges. A range is the list of its elements, an
-- iterator the index of its element. The tasks of a fork work on disjoint ranges, so each is a function
-- of its own range.
pub mod Ranges
pub mod Order
pub mod Loop
pub mod Merge
pub mod Search
pub mod Split
pub mod Probe
pub mod Cut
pub mod Merged
pub mod Forked
pub mod Sorts
pub mod Reduce
pub mod Reduced
pub mod Filter
pub mod Filtered
pub mod Reference
pub mod Extremum
pub mod Extrema
mod Tests
use itoyori_github_io.Base.{ℕ, Bool, List, ◌&&◌, ltb, leb}

-- The counts of `parallel_policy`.
pub record Policy : Type 0 where
  pub cutoff_count : ℕ
  pub checkout_count : ℕ

-- The checks of `assert_policy`.
unfoldable pub assert_policy : Policy → Bool
assert_policy policy = ltb 0 policy.checkout_count && leb policy.checkout_count policy.cutoff_count

-- The algorithms of the standard library that the leaves call: `std::stable_sort` with the comparison,
-- `std::inplace_merge` of the two parts of a range, and `std::partition_point`.
pub record Std (A : Type 0) : Type 0 where
  pub stable_sort : (A → A → Bool) → List A → List A
  pub inplace_merge : (A → A → Bool) → List A → List A → List A
  pub partition_point : (A → Bool) → List A → ℕ
