-- ===== src/Pattern/Split.antt =====
-- `find_split_points_for_merge` of pattern/parallel_merge.hpp.
use itoyori_github_io.Base.{
  ℕ, ◌+◌, ◌-◌, ◌/◌, ◌<◌, ◌≤◌, ◌≡◌, refl, ap, ◌∙◌, sym, subst, Bool, true, false, List, Option, some,
  suc, arith, length, get_elem?, get_elem?-total, get_elem?-lt, Bool-cases, inl, inr, ltb, ◌==◌,
  ◌>>=◌,
}
use itoyori_github_io.Pattern.Order.{StrictWeak, Sorted}
use itoyori_github_io.Pattern.Merge.{search, find_ordered, find_split_points_for_merge}
use itoyori_github_io.Pattern.Search.{Found, search_lem}

module _ {A : Type 0} where
  single_lem :
      (comp : A → A → Bool) (xs ys : List A)
      → StrictWeak comp
      → Sorted comp ys
      → length xs ≡ 1
      → 2 ≤ length ys
      → Found comp xs ys (find_ordered comp xs ys)
  unfolding find_ordered
  single_lem comp xs ys w sy n two =
      let m = (length xs + length ys) / 2 in
      let (x, e) = get_elem?-total xs 0 (omega arith) in
      let (y, f) = get_elem?-total ys m (omega arith) in
      let a : (length xs == 0) ≡ false = ground arith in
      let b : (length xs == 1) ≡ true = ground arith in
      let c : (m == 0) ≡ false = ground arith in
      let beyond : (x' : A) → ¬ (get_elem? xs 1 ≡ some x') =
        λ x' q. let l = get_elem?-lt xs 1 x' q in omega arith in
      elim (Bool-cases (comp x y)) [
        | inl t ↦
            let below : comp y x ≡ false = w.asymmetric x y t in
            (
              1,
              m,
              rw (a, b, c, e, f, t) refl,
              (omega arith, omega arith, λ x' y' q p r. cc, λ x' y' q p r. absurd (beyond x' p)),
              (
                omega arith,
                omega arith,
                λ z z'. absurd (omega arith),
                λ z z'. absurd (omega arith),
              ),
            )
        | inr g ↦ (
          0,
          m,
          rw (a, b, c, e, f, g) refl,
          (
            omega arith,
            omega arith,
            λ x' y' q p r. absurd (omega arith),
            λ x' y' q p r.
                let l : comp y y' ≡ false = sy (m - 1) m y' y (omega arith) r f in
                let l' : comp x y' ≡ false = w.not_below_trans y' y x l g in cc,
          ),
          (omega arith, omega arith, λ z z'. absurd (omega arith), λ z z'. absurd (omega arith)),
        )
      ]

  find_ordered_lem :
      (comp : A → A → Bool) (xs ys : List A)
      → StrictWeak comp
      → Sorted comp xs
      → Sorted comp ys
      → 0 < length xs
      → length xs ≤ length ys
      → 2 ≤ length ys
      → Found comp xs ys (find_ordered comp xs ys)
  find_ordered_lem comp xs ys w sx sy n le two = elim (Bool-cases (length xs == 1)) [
    | inl t ↦ single_lem comp xs ys w sy (ground (arith, t)) two
    | inr g ↦
        let m = (length xs + length ys) / 2 in
        let a : (length xs == 0) ≡ false = ground arith in
        let run : find_ordered comp xs ys ≡ search comp m xs ys (suc (length ys)) 0 (length ys) =
          unfold find_ordered in rw (a, g) refl in
        subst (Found comp xs ys) (sym run) (
          search_lem comp m xs ys w sx sy n (omega arith) (omega arith) two (suc (length ys)) 0
            (length ys) (inl refl) (inl refl) (omega arith) (omega arith) (omega arith))
  ]

  -- For a strict weak ordering and two non-empty sorted ranges with three elements at least,
  -- `find_split_points_for_merge` succeeds: no check fails, no element is read out of range, and the
  -- binary search ends. Next to the split nothing behind it is below anything in front of it; there
  -- are elements on both sides; and one range is wholly in front of the other only if its last
  -- element is below the other's first.
  pub find_split_points_for_merge_lem :
      (comp : A → A → Bool) (xs ys : List A)
      → StrictWeak comp
      → Sorted comp xs
      → Sorted comp ys
      → 0 < length xs
      → 0 < length ys
      → 3 ≤ length xs + length ys
      → Found comp xs ys (find_split_points_for_merge comp xs ys)
  find_split_points_for_merge_lem comp xs ys w sx sy n n' three =
      let a : (length xs == 0) ≡ false = ground arith in
      elim (Bool-cases (ltb (length ys) (length xs))) [
        | inr g ↦
            let (c1, c2, e, sp, pr) =
              find_ordered_lem comp xs ys w sx sy n (ground (arith, g)) (ground (arith, g)) in
            let run : find_split_points_for_merge comp xs ys ≡ find_ordered comp xs ys =
              unfold find_split_points_for_merge in rw (a, g) refl in
            (c1, c2, run ∙ e, sp, pr)
        | inl t ↦
            let (c2, c1, e, (s1, s2, s3, s4), (p1, p2, p3, p4)) =
              find_ordered_lem comp ys xs w sy sx n' (ground (arith, t)) (ground (arith, t)) in
            let run : find_split_points_for_merge comp xs ys
                ≡ (find_ordered comp ys xs >>= λ (p2, p1). some (p1, p2)) =
              unfold find_split_points_for_merge in rw (a, t) refl in
            (
              c1,
              c2,
              run ∙ ap (λ (o : Option (ℕ × ℕ)). o >>= λ (p2, p1). some (p1, p2)) e,
              (s2, s1, λ x y q p r. s4 y x q r p, λ x y q p r. s3 y x q r p),
              (
                omega (arith, p1),
                omega (arith, p2),
                λ z z' x y p r. p4 z' z y x r p,
                λ z z' x y p r. p3 z' z y x r p,
              ),
            )
      ]
