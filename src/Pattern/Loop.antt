-- ===== src/Pattern/Loop.antt =====
-- pattern/serial_loop.hpp and pattern/parallel_loop.hpp: the serial and the parallel loop, `reverse` and `rotate`. A body is a function of the index
-- of its elements and of the state of the range; `none` is a failed check or an access out of range. The
-- two tasks of a fork come in the order in which one worker runs them.
pub mod Laws
pub mod Reversed
use itoyori_github_io.Base.{
  ℕ, ◌+◌, ◌-◌, ◌/◌, ◌≡◌, Bool, true, min, ◌||◌, List, [], ◌∷◌, ◌++◌, Option, some, none, zero, suc,
  length, get_elem?, set, if◌then◌else◌, ◌>>=◌, ltb, leb, ◌==◌,
}
use itoyori_github_io.Pattern.{Policy, assert_policy}

module _ {S : Type 0} where
  -- The serial loop over `d` indices from `lo` on.
  unfoldable pub apply_iterators : (ℕ → S → Option S) → ℕ → ℕ → S → Option S
  apply_iterators op zero lo s = some s
  apply_iterators op (suc d) lo s = op lo s >>= λ s1. apply_iterators op d (lo + 1) s1

  -- The loop over chunks of `c` elements, `n` of which are left from `lo` on. A chunk is not empty, so
  -- `n` is enough fuel.
  unfoldable pub chunks : ℕ → ℕ → (ℕ → S → Option S) → ℕ → ℕ → S → Option S
  unfolding apply_iterators
  chunks zero c op n lo s = if ltb 0 n then none else some s
  chunks (suc fuel) c op n lo s =
      let n_ = min n c in
      let chunk =
        if ltb 0 n_
        then (apply_iterators op n_ lo s >>= λ s1. chunks fuel c op (n - n_) (lo + n_) s1)
        else none in
      if ltb 0 n then chunk else some s

  -- `needs_checkout` says whether some iterator is global and gives access.
  unfoldable pub for_each_aux : ℕ → Bool → (ℕ → S → Option S) → ℕ → ℕ → S → Option S
  unfolding chunks
  for_each_aux checkout_count needs_checkout op n lo s =
      if needs_checkout then chunks n checkout_count op n lo s else apply_iterators op n lo s

  -- The fuel bounds the depth of the recursion.
  unfoldable pub parallel_loop_generic :
      ℕ → Policy → Bool → (ℕ → S → Option S) → ℕ → ℕ → S → Option S
  unfolding for_each_aux
  parallel_loop_generic zero policy needs_checkout op lo d s = none
  parallel_loop_generic (suc fuel) policy needs_checkout op lo d s =
      let fork = parallel_loop_generic fuel policy needs_checkout op lo (d / 2) s >>= λ s1.
      parallel_loop_generic fuel policy needs_checkout op (lo + d / 2) (d - d / 2) s1 in
      if leb d policy.cutoff_count
      then for_each_aux policy.checkout_count needs_checkout op d lo s
      else fork

  unfoldable pub loop_generic : Policy → Bool → (ℕ → S → Option S) → ℕ → S → Option S
  unfolding parallel_loop_generic assert_policy
  loop_generic policy needs_checkout op d s =
      if assert_policy policy
      then parallel_loop_generic (suc d) policy needs_checkout op 0 d s
      else none

module _ {A : Type 0} where
  unfoldable pub swap : ℕ → ℕ → List A → Option (List A)
  swap i j xs = get_elem? xs i >>= λ r1. get_elem? xs j >>= λ r2. some (set (set xs i r2) j r1)

  -- The iterators are global.
  unfoldable pub reverse : Policy → List A → Option (List A)
  unfolding loop_generic swap
  reverse policy xs =
      let d = length xs in loop_generic policy true (λ i ys. swap i (d - 1 - i) ys) (d / 2) xs

  -- `rotate` of a range whose two parts are `xs` and `ys`, without the iterator that it returns, which
  -- is the one after `ys`.
  unfoldable pub rotate : Policy → List A → List A → Option (List A)
  unfolding reverse
  rotate policy xs ys =
      let reversed =
        reverse policy xs >>= λ xs1. reverse policy ys >>= λ ys1. reverse policy (xs1 ++ ys1) in
      if (length xs == 0) || (length ys == 0) then some (xs ++ ys) else reversed
