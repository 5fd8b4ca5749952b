-- ===== src/Pattern/Extremum.antt =====
-- pattern/parallel_search.hpp: the search of a range, and the minimum and the maximum. `std_min` and
-- `std_max` are `std::min_element` and `std::max_element`, which give an index.
use itoyori_github_io.Base.{
  ℕ, ◌+◌, ◌/◌, Bool, List, Option, some, none, zero, suc, length, get_elem?, if◌then◌else◌, ◌>>=◌,
  ltb, leb,
}
use itoyori_github_io.Pattern.{Policy}
use itoyori_github_io.Pattern.Ranges.{take, drop}

module _ {A : Type 0} where
  -- What is found is an element and its index from `first` on. A leaf checks that there are elements to
  -- check out. The fuel bounds the depth of the recursion.
  unfoldable pub search_aux :
      ℕ → Policy → (List A → Option (A × ℕ)) → (A × ℕ → A × ℕ → A × ℕ) → ℕ → List A → Option (A × ℕ)
  search_aux zero policy leaf_op select_op first xs = none
  search_aux (suc fuel) policy leaf_op select_op first xs =
      let d = length xs in
      let leaf = if ltb 0 d then (leaf_op xs >>= λ (ret, i). some (ret, first + i)) else none in
      let forked = search_aux fuel policy leaf_op select_op first (take (d / 2) xs) >>= λ r1.
      search_aux fuel policy leaf_op select_op (first + d / 2) (drop (d / 2) xs) >>= λ r2.
      some (select_op r1 r2) in
      if leb d policy.cutoff_count then leaf else forked

  unfoldable pub leaf_of : (List A → ℕ) → List A → Option (A × ℕ)
  leaf_of std_op xs = get_elem? xs (std_op xs) >>= λ x. some (x, std_op xs)

  unfoldable pub min_element : Policy → (List A → ℕ) → (A → A → Bool) → List A → Option ℕ
  unfolding search_aux leaf_of
  min_element policy std_min comp xs =
      let found =
        search_aux (suc (length xs)) policy (leaf_of std_min) (λ l r. if comp r.0 l.0 then r else l)
          0 xs in
      if leb (length xs) 1 then some 0 else (found >>= λ (x, i). some i)

  unfoldable pub max_element : Policy → (List A → ℕ) → (A → A → Bool) → List A → Option ℕ
  unfolding search_aux leaf_of
  max_element policy std_max comp xs =
      let found =
        search_aux (suc (length xs)) policy (leaf_of std_max) (λ l r. if comp l.0 r.0 then r else l)
          0 xs in
      if leb (length xs) 1 then some 0 else (found >>= λ (x, i). some i)
