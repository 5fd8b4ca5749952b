-- ===== src/Pattern/Merge.antt =====
-- pattern/parallel_merge.hpp and pattern/parallel_sort.hpp: the parallel merge of two neighbouring
-- ranges and the merge sort. `none` is a failed check, an access out of range, or that the fuel has run
-- out.
use itoyori_github_io.Base.{
  ℕ, ◌+◌, ◌-◌, ◌/◌, Bool, not, ◌&&◌, ◌||◌, List, ◌++◌, Option, some, none, zero, suc, length,
  get_elem?, if◌then◌else◌, ◌>>=◌, ltb, leb, ◌==◌,
}
use itoyori_github_io.Pattern.{Policy, Std}
use itoyori_github_io.Pattern.Ranges.{take, drop}
use itoyori_github_io.Pattern.Loop.{rotate}

-- What a round of the binary search does: it moves `high` or `low`, or returns.
pub data Round : Type 0 where
  move_high : Round
  move_low : Round
  return : (c1 c2 : ℕ) → Round

module _ {A : Type 0} where
  -- `std::prev`, dereferenced
  abbrev pub prev : List A → ℕ → Option A
  prev xs zero = none
  prev xs (suc i) = get_elem? xs i

  -- The body of the loop, with `it2` at index `c2` of the larger range.
  unfoldable pub round : (A → A → Bool) → ℕ → List A → List A → ℕ → Option Round
  round comp m xs ys c2 =
      let n1 = length xs in
      let c1 = m - c2 in
      let right_end = get_elem? xs 0 >>= λ it1r.
      prev ys c2 >>= λ it2l. some (if comp it1r it2l then Round.move_high else Round.return 0 c2) in
      let left_end = prev xs n1 >>= λ it1l. get_elem? ys c2 >>= λ it2r.
      some (if comp it2r it1l then Round.move_low else Round.return n1 c2) in
      let middle = prev xs c1 >>= λ it1l. get_elem? xs c1 >>= λ it1r. prev ys c2 >>= λ it2l.
      get_elem? ys c2 >>= λ it2r. some (
        if comp it2r it1l
        then Round.move_low
        else if comp it1r it2l
        then Round.move_high
        else Round.return c1 c2) in
      if leb m c2
      then right_end
      else if leb n1 c1
      then left_end
      else if (c1 == 0) || ((c1 == n1) || ((c2 == 0) || (c2 == length ys)))
      then none
      else middle

  -- The loop. A round shrinks the range between `low` and `high`, so its length is enough fuel.
  unfoldable pub search : (A → A → Bool) → ℕ → List A → List A → ℕ → ℕ → ℕ → Option (ℕ × ℕ)
  unfolding round
  search comp m xs ys zero low high = none
  search comp m xs ys (suc fuel) low high =
      let c2 = low + (high - low) / 2 in
      let left = search comp m xs ys fuel low c2 in
      let right = search comp m xs ys fuel (c2 + 1) high in
      if leb low high
      then (round comp m xs ys c2 >>= λ r. elim r [
        | Round.move_high ↦ if high == c2 then none else left
        | Round.move_low ↦ if low == c2 + 1 then none else right
        | Round.return c1 c ↦ some (c1, c)
      ])
      else none

  -- The function after the exchange of the ranges, `xs` not longer than `ys`.
  unfoldable pub find_ordered : (A → A → Bool) → List A → List A → Option (ℕ × ℕ)
  unfolding search
  find_ordered comp xs ys =
      let m = (length xs + length ys) / 2 in
      let single = get_elem? xs 0 >>= λ it1.
      get_elem? ys m >>= λ it2r. some (if comp it1 it2r then (1, m) else (0, m)) in
      if length xs == 0
      then none
      else if length xs == 1
      then if m == 0 then none else single
      else search comp m xs ys (suc (length ys)) 0 (length ys)

  unfoldable pub find_split_points_for_merge : (A → A → Bool) → List A → List A → Option (ℕ × ℕ)
  unfolding find_ordered
  find_split_points_for_merge comp xs ys =
      let exchanged = find_ordered comp ys xs >>= λ (p2, p1). some (p1, p2) in
      if length xs == 0
      then none
      else if ltb (length ys) (length xs)
      then exchanged
      else find_ordered comp xs ys

  -- The step for stability, which keeps equivalent elements from being exchanged.
  unfoldable pub keep_equal : Std A → (A → A → Bool) → List A → List A → ℕ → ℕ → Option (ℕ × ℕ)
  keep_equal std comp xs ys s1 s2 =
      let moved = get_elem? xs s1 >>= λ it1r. prev ys s2 >>= λ it2l. some (
        if not (comp it1r it2l) && not (comp it2l it1r)
        then if s1 == 0
          then (std.partition_point (λ r. not (comp it1r r)) xs, s2)
          else (s1, std.partition_point (λ r. comp r it2l) (take s2 ys))
        else (s1, s2)) in
      if not (s1 == length xs) && not (s2 == 0) then moved else some (s1, s2)

  -- The range from `first` to `last` is `xs` and `ys`, with `middle` between them. Both tasks have
  -- fewer elements, so their number is enough fuel.
  unfoldable pub inplace_merge_aux :
      ℕ → Bool → Policy → Std A → (A → A → Bool) → List A → List A → Option (List A)
  inplace_merge_aux zero is_stable policy std comp xs ys = none
  inplace_merge_aux (suc fuel) is_stable policy std comp xs ys =
      let d = length xs + length ys in
      let tasks = find_split_points_for_merge comp xs ys >>= λ (c1, c2).
      (if is_stable then keep_equal std comp xs ys c1 c2 else some (c1, c2)) >>= λ (s1, s2).
      rotate policy (drop s1 xs) (take s2 ys) >>= λ mid.
      let range = take s1 xs ++ (mid ++ drop s2 ys) in
      let m = s1 + s2 in
      let forked =
        inplace_merge_aux fuel is_stable policy std comp (take s1 range) (drop s1 (take m range))
        >>= λ left.
            inplace_merge_aux fuel is_stable policy std comp (take (length xs - s1) (drop m range))
              (drop (length xs - s1) (drop m range))
            >>= λ right. some (left ++ right) in
      if ltb 0 m && ltb m d then forked else none in
      let ends = prev ys (length ys) >>= λ l.
      get_elem? xs 0 >>= λ f. if comp l f then rotate policy xs ys else tasks in
      let mids = prev xs (length xs) >>= λ a.
      get_elem? ys 0 >>= λ b. if not (comp b a) then some (xs ++ ys) else ends in
      if leb d 1 || ((length xs == 0) || (length ys == 0))
      then some (xs ++ ys)
      else if leb d policy.cutoff_count
      then if policy.cutoff_count == policy.checkout_count
        then some (std.inplace_merge comp xs ys)
        else none
      else mids

  -- The halves have fewer elements, so their number is enough fuel.
  unfoldable pub merge_sort : ℕ → Bool → Policy → Std A → (A → A → Bool) → List A → Option (List A)
  merge_sort zero is_stable policy std comp xs = none
  merge_sort (suc fuel) is_stable policy std comp xs =
      let d = length xs in
      let forked = merge_sort fuel is_stable policy std comp (take (d / 2) xs) >>= λ left.
      merge_sort fuel is_stable policy std comp (drop (d / 2) xs) >>= λ right.
      inplace_merge_aux (suc (length left + length right)) is_stable policy std comp left right in
      if leb d 1
      then some xs
      else if leb d policy.cutoff_count
      then some (std.stable_sort comp xs)
      else forked
