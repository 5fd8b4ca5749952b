-- ===== src/Pattern/Filter.antt =====
-- pattern/parallel_filter.hpp: the parallel stable partition. `std_partition` is `std::stable_partition`,
-- which gives the range afterwards and the index of the first element of the second group.
use itoyori_github_io.Base.{
  ltb, ◌&&◌, ℕ, ◌+◌, ◌/◌, Bool, List, ◌++◌, Option, some, none, zero, suc, length, if◌then◌else◌,
  ◌>>=◌, leb, ◌==◌,
}
use itoyori_github_io.Pattern.{Policy}
use itoyori_github_io.Pattern.Ranges.{take, drop}
use itoyori_github_io.Pattern.Loop.{rotate}

module _ {A : Type 0} where
  -- A leaf checks that there are elements to check out. The fuel bounds the depth of the recursion.
  unfoldable pub stable_partition_aux :
      ℕ → Policy → ((A → Bool) → List A → List A × ℕ) → (A → Bool) → List A → Option (List A × ℕ)
  stable_partition_aux zero policy std_partition pred xs = none
  stable_partition_aux (suc fuel) policy std_partition pred xs =
      let d = length xs in
      let leaf =
        if (policy.cutoff_count == policy.checkout_count) && ltb 0 d
        then some (std_partition pred xs)
        else none in
      let forked =
        stable_partition_aux fuel policy std_partition pred (take (d / 2) xs) >>= λ (l, m1).
        stable_partition_aux fuel policy std_partition pred (drop (d / 2) xs) >>= λ (r, m2).
        rotate policy (drop m1 l) (take m2 r) >>= λ mid.
        some (take m1 l ++ (mid ++ drop m2 r), m1 + m2) in
      if leb d policy.cutoff_count then leaf else forked
