-- ===== src/Pattern/Sorts.antt =====
-- The parallel merge and the merge sort of pattern/parallel_merge.hpp and pattern/parallel_sort.hpp.
use itoyori_github_io.Base.{
  ℕ, ◌+◌, ◌/◌, ◌<◌, ◌≡◌, refl, ap, ap₂, ◌∙◌, sym, Bool, true, ◌||◌, List, ◌++◌, zero, suc, arith,
  length, get_elem?-total, get_elem?-lt, Bool-cases, inl, inr, leb, ◌==◌,
}
use itoyori_github_io.Pattern.{Std, Policy, assert_policy}
use itoyori_github_io.Pattern.Ranges.{
  take, drop, filter, length-take, length-drop, take-append-drop, filter-append,
}
use itoyori_github_io.Pattern.Order.{
  StrictWeak, Sorted, StdLaws, Sorted-append, filter-swap, equivalent,
}
use itoyori_github_io.Pattern.Loop.Reversed.{rotate_lem}
use itoyori_github_io.Pattern.Merge.{inplace_merge_aux, merge_sort}
use itoyori_github_io.Pattern.Probe.{prev-total}
use itoyori_github_io.Pattern.Merged.{Sorts}
use itoyori_github_io.Pattern.Forked.{Merges, fork_lem, in_order, other_order}

module _ {A : Type 0} (policy : Policy) (std : Std A) (comp : A → A → Bool) where
  module _ (w : StrictWeak comp) (laws : StdLaws std comp) (v : assert_policy policy ≡ true)
      (same : policy.cutoff_count ≡ policy.checkout_count) where
    -- No fuel is missing: a task has fewer elements than its range.
    merge_lem : (fuel : ℕ) → Merges policy std comp w laws v same fuel
    unfolding inplace_merge_aux
    merge_lem zero xs ys sx sy small = absurd (omega arith)
    merge_lem (suc fuel) xs ys sx sy small =
        let d = length xs + length ys in
        elim (Bool-cases (leb d 1 || ((length xs == 0) || (length ys == 0)))) [
          | inl t ↦ (
            xs ++ ys,
            rw (t) refl,
            Sorted-append comp xs ys sx sy (λ i j x y e g.
                let p = get_elem?-lt xs i x e in
                let q = get_elem?-lt ys j y g in absurd (ground (arith, t, p, q))),
            λ z. refl,
          )
          | inr long ↦ elim (Bool-cases (leb d policy.cutoff_count)) [
            | inl t ↦
                let check : (policy.cutoff_count == policy.checkout_count) ≡ true =
                  ground (arith, same) in
                (
                  std.inplace_merge comp xs ys,
                  rw (long, t, check) refl,
                  laws.merges xs ys sx sy,
                  laws.merges_stably xs ys sx sy,
                )
            | inr no_leaf ↦
                let nx : 0 < length xs = ground (arith, long) in
                let ny : 0 < length ys = ground (arith, long) in
                let (a, at_a, at_a') = prev-total xs (length xs) nx (omega arith) in
                let (b, at_b) = get_elem?-total ys 0 ny in
                let (l, at_l, at_l') = prev-total ys (length ys) ny (omega arith) in
                let (f, at_f) = get_elem?-total xs 0 nx in
                elim (Bool-cases (comp b a)) [
                  | inr m ↦ (
                    xs ++ ys,
                    rw (long, no_leaf, at_a, at_b, m) refl,
                    Sorted-append comp xs ys sx sy
                        (in_order policy std comp w laws v same xs ys sx sy a b at_a' at_b m),
                    λ z. refl,
                  )
                  | inl m ↦ elim (Bool-cases (comp l f)) [
                    | inl e ↦
                        let below =
                          other_order policy std comp w laws v same xs ys sx sy l f at_l' at_f e in
                        (
                          ys ++ xs,
                          rw (long, no_leaf, at_a, at_b, m, at_l, at_f, e)
                              (rotate_lem policy xs ys v),
                          Sorted-append comp ys xs sy sx
                              (λ i j x y p q. w.asymmetric x y (below i j x y p q)),
                          λ z.
                              filter-append (equivalent comp z) xs ys
                              ∙ filter-swap comp xs ys z w below
                              ∙ sym (filter-append (equivalent comp z) ys xs),
                        )
                    | inr e ↦
                        fork_lem policy std comp w laws v same fuel xs ys (merge_lem fuel) sx sy
                          (record {
                            long = long;
                            no_leaf = no_leaf;
                            a = a;
                            b = b;
                            l = l;
                            f = f;
                            at_a = at_a;
                            at_b = at_b;
                            at_l = at_l;
                            at_f = at_f;
                            mids = m;
                            ends = e;
                          })
                          small
                  ]
                ]
          ]
        ]

    -- The halves of a merge sort.
    sort_lem :
        (fuel : ℕ) (xs : List A)
        → length xs < fuel
        → Sorts comp xs (merge_sort fuel true policy std comp xs)
    unfolding merge_sort
    sort_lem zero xs small = absurd (omega arith)
    sort_lem (suc fuel) xs small =
        let d = length xs in
        elim (Bool-cases (leb d 1)) [
          | inl t ↦ (
            xs,
            rw (t) refl,
            λ i j x y l e f. let p = get_elem?-lt xs j y f in absurd (ground (arith, t, p, l)),
            λ z. refl,
          )
          | inr long ↦ elim (Bool-cases (leb d policy.cutoff_count)) [
            | inl t ↦
                (std.stable_sort comp xs, rw (long, t) refl, laws.sorts xs, laws.sorts_stably xs)
            | inr no_leaf ↦
                let big : 1 < d = ground (arith, long) in
                let l1 = length-take (d / 2) xs (omega arith) in
                let l2 = length-drop (d / 2) xs in
                let (ls, e1, s1, t1) = sort_lem fuel (take (d / 2) xs) (omega arith) in
                let (rs, e2, s2, t2) = sort_lem fuel (drop (d / 2) xs) (omega arith) in
                let (zs, e3, s3, t3) =
                  merge_lem (suc (length ls + length rs)) ls rs s1 s2 (omega arith) in
                (
                  zs,
                  rw (long, no_leaf, e1, e2) e3,
                  s3,
                  λ z.
                      ap (filter (equivalent comp z)) (sym (take-append-drop (d / 2) xs))
                      ∙ filter-append (equivalent comp z) (take (d / 2) xs) (drop (d / 2) xs)
                      ∙ ap₂ (λ (u v : List A). u ++ v) (t1 z) (t2 z)
                      ∙ sym (filter-append (equivalent comp z) ls rs)
                      ∙ t3 z,
                )
          ]
        ]

-- With a strict weak ordering, a valid policy of one count, and a standard library that sorts, merges
-- and partitions stably, `inplace_merge_aux` of two sorted ranges succeeds when the fuel exceeds the
-- number of elements: no check fails and no element is read out of range. The result is sorted and
-- has the elements of the two ranges, equivalent ones in the same order.
pub inplace_merge_aux_lem :
    {A : Type 0} (fuel : ℕ) (policy : Policy) (std : Std A) (comp : A → A → Bool) (xs ys : List A)
    → StrictWeak comp
    → StdLaws std comp
    → assert_policy policy ≡ true
    → policy.cutoff_count ≡ policy.checkout_count
    → Sorted comp xs
    → Sorted comp ys
    → length xs + length ys < fuel
    → Sorts comp (xs ++ ys) (inplace_merge_aux fuel true policy std comp xs ys)
inplace_merge_aux_lem fuel policy std comp xs ys w laws v same sx sy small =
    merge_lem policy std comp w laws v same fuel xs ys sx sy small

-- With a strict weak ordering, a valid policy of one count, and a standard library that sorts, merges
-- and partitions stably, `merge_sort` succeeds when the fuel exceeds the number of elements, whatever
-- the cutoff. The result is sorted and has the elements of the range, equivalent ones in the same
-- order.
pub merge_sort_lem :
    {A : Type 0} (fuel : ℕ) (policy : Policy) (std : Std A) (comp : A → A → Bool) (xs : List A)
    → StrictWeak comp
    → StdLaws std comp
    → assert_policy policy ≡ true
    → policy.cutoff_count ≡ policy.checkout_count
    → length xs < fuel
    → Sorts comp xs (merge_sort fuel true policy std comp xs)
merge_sort_lem fuel policy std comp xs w laws v same small =
    sort_lem policy std comp w laws v same fuel xs small
