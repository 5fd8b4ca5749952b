-- ===== src/Pattern/Forked.antt =====
-- The step of `inplace_merge_aux`, pattern/parallel_merge.hpp, that forks.
use itoyori_github_io.Base.{
  ℕ, ◌+◌, ◌-◌, ◌<◌, ◌≤◌, ◌≡◌, refl, ap, ap₂, ◌∙◌, sym, Bool, true, false, ◌||◌, List, ◌++◌, some,
  suc, arith, length, get_elem?, get_elem?-lt, Bool-cases, inl, inr, ltb, leb, ◌==◌, lt→ltb,
}
use itoyori_github_io.Pattern.{Std, Policy, assert_policy}
use itoyori_github_io.Pattern.Ranges.{take, drop, length-take, length-drop}
use itoyori_github_io.Pattern.Order.{
  StrictWeak, Sorted, Below, StrictlyBelow, StdLaws, Sorted-append,
}
use itoyori_github_io.Pattern.Loop.{rotate}
use itoyori_github_io.Pattern.Loop.Reversed.{rotate_lem}
use itoyori_github_io.Pattern.Merge.{
  prev, find_split_points_for_merge, keep_equal, inplace_merge_aux,
}
use itoyori_github_io.Pattern.Probe.{prev_lem}
use itoyori_github_io.Pattern.Split.{find_split_points_for_merge_lem}
use itoyori_github_io.Pattern.Cut.{Sorted-le, below_through, keep_equal_lem}
use itoyori_github_io.Pattern.Merged.{
  Sorts, Sorted-take, Sorted-drop, tasks_ranges, cut_below, cut-Stable,
}

module _ {A : Type 0} (policy : Policy) (std : Std A) (comp : A → A → Bool) where
  -- A merge of ranges that are neither in order nor the other way round, and too long for a leaf.
  pub record Forks (xs ys : List A) : Type 0 where
    pub long : (leb (length xs + length ys) 1 || ((length xs == 0) || (length ys == 0))) ≡ false
    pub no_leaf : leb (length xs + length ys) policy.cutoff_count ≡ false
    pub a : A
    pub b : A
    pub l : A
    pub f : A
    pub at_a : prev xs (length xs) ≡ some a
    pub at_b : get_elem? ys 0 ≡ some b
    pub at_l : prev ys (length ys) ≡ some l
    pub at_f : get_elem? xs 0 ≡ some f
    pub mids : comp b a ≡ true
    pub ends : comp l f ≡ false

  abbrev range_of : List A → List A → ℕ → ℕ → List A
  range_of xs ys s1 s2 = take s1 xs ++ ((take s2 ys ++ drop s1 xs) ++ drop s2 ys)

  -- What a fork gives, in terms of its tasks.
  fork_run :
      (fuel : ℕ) (xs ys : List A) (c1 c2 s1 s2 : ℕ) (left right : List A)
      → Forks xs ys
      → find_split_points_for_merge comp xs ys ≡ some (c1, c2)
      → keep_equal std comp xs ys c1 c2 ≡ some (s1, s2)
      → rotate policy (drop s1 xs) (take s2 ys) ≡ some (take s2 ys ++ drop s1 xs)
      → ltb 0 (s1 + s2) ≡ true
      → ltb (s1 + s2) (length xs + length ys) ≡ true
      → inplace_merge_aux fuel true policy std comp
          (take s1 (range_of xs ys s1 s2))
          (drop s1 (take (s1 + s2) (range_of xs ys s1 s2)))
        ≡ some left
      → inplace_merge_aux fuel true policy std comp
          (take (length xs - s1) (drop (s1 + s2) (range_of xs ys s1 s2)))
          (drop (length xs - s1) (drop (s1 + s2) (range_of xs ys s1 s2)))
        ≡ some right
      → inplace_merge_aux (suc fuel) true policy std comp xs ys ≡ some (left ++ right)
  unfolding inplace_merge_aux
  fork_run fuel xs ys c1 c2 s1 s2 left right k es ek er lo hi el er' =
      rw
        (
          k.long, k.no_leaf, k.at_a, k.at_b, k.mids, k.at_l, k.at_f, k.ends, es, ek, er, lo, hi, el,
          er',
        )
        refl

  module _ (w : StrictWeak comp) (laws : StdLaws std comp) (v : assert_policy policy ≡ true)
      (same : policy.cutoff_count ≡ policy.checkout_count) where
    abbrev pub Merges : ℕ → Type 0
    Merges fuel =
        (xs ys : List A)
        → Sorted comp xs
        → Sorted comp ys
        → length xs + length ys < fuel
        → Sorts comp (xs ++ ys) (inplace_merge_aux fuel true policy std comp xs ys)

    -- Two ranges of one element each are in order, or the other way round.
    fork_three :
        (xs ys : List A) (k : Forks xs ys)
        → 0 < length xs
        → 0 < length ys
        → get_elem? xs (length xs - 1) ≡ some k.a
        → get_elem? ys (length ys - 1) ≡ some k.l
        → 3 ≤ length xs + length ys
    fork_three xs ys k nx ny at_a at_l = elim (Bool-cases (length xs + length ys == 2)) [
      | inr g ↦ ground (arith, g)
      | inl t ↦
          let two : length xs + length ys ≡ 2 = ground (arith, t) in
          let i : length xs - 1 ≡ 0 = omega arith in
          let j : length ys - 1 ≡ 0 = omega arith in
          let p : get_elem? xs 0 ≡ some k.a = ap (get_elem? xs) (sym i) ∙ at_a in
          let q : get_elem? ys 0 ≡ some k.l = ap (get_elem? ys) (sym j) ∙ at_l in
          let at_f = k.at_f in
          let at_b = k.at_b in
          let x : k.a ≡ k.f = cc in
          let y : k.b ≡ k.l = cc in
          let mids : comp k.b k.a ≡ true = k.mids in
          let ends : comp k.l k.f ≡ false = k.ends in absurd (cc)
    ]

    pub in_order :
        (xs ys : List A)
        → Sorted comp xs
        → Sorted comp ys
        → (a b : A) → get_elem? xs (length xs - 1) ≡ some a
        → get_elem? ys 0 ≡ some b
        → comp b a ≡ false
        → Below comp xs ys
    in_order xs ys sx sy a b at_a at_b m i j x y e g =
        let p = get_elem?-lt xs i x e in
        let c = Sorted-le comp xs w sx i (length xs - 1) x a (omega arith) e at_a in
        let d = Sorted-le comp ys w sy 0 j b y (omega arith) at_b g in
        w.not_below_trans x b y (w.not_below_trans x a b c m) d

    pub other_order :
        (xs ys : List A)
        → Sorted comp xs
        → Sorted comp ys
        → (l f : A) → get_elem? ys (length ys - 1) ≡ some l
        → get_elem? xs 0 ≡ some f
        → comp l f ≡ true
        → StrictlyBelow comp ys xs
    other_order xs ys sx sy l f at_l at_f m i j y x e g =
        let p = get_elem?-lt ys i y e in
        let c = Sorted-le comp ys w sy i (length ys - 1) y l (omega arith) e at_l in
        let d = Sorted-le comp xs w sx 0 j f x (omega arith) at_f g in
        below_through comp y l f x w c m d

    pub fork_lem :
        (fuel : ℕ) (xs ys : List A)
        → Merges fuel
        → Sorted comp xs
        → Sorted comp ys
        → Forks xs ys
        → length xs + length ys < suc fuel
        → Sorts comp (xs ++ ys) (inplace_merge_aux (suc fuel) true policy std comp xs ys)
    fork_lem fuel xs ys ih sx sy k small =
        let long : leb (length xs + length ys) 1 || ((length xs == 0) || (length ys == 0)) ≡ false =
          k.long in
        let nx : 0 < length xs = ground (arith, long) in
        let ny : 0 < length ys = ground (arith, long) in
        let at_a : get_elem? xs (length xs - 1) ≡ some k.a =
          sym (prev_lem xs (length xs) nx) ∙ k.at_a in
        let at_l : get_elem? ys (length ys - 1) ≡ some k.l =
          sym (prev_lem ys (length ys) ny) ∙ k.at_l in
        let three : 3 ≤ length xs + length ys = fork_three xs ys k nx ny at_a at_l in
        let (c1, c2, es, sp, pr) = find_split_points_for_merge_lem comp xs ys w sx sy nx ny three in
        let (s1, s2, ek, cut) = keep_equal_lem std comp xs ys c1 c2 w laws sx sy sp pr (λ x y e f.
          let at_f = k.at_f in
          let ends = k.ends in
          let p : x ≡ k.f = cc in let q : y ≡ k.l = cc in ap₂ comp q p ∙ ends) in
        let (n1, n2, n3, n4, n5, n6) = cut in
        let er = rotate_lem policy (drop s1 xs) (take s2 ys) v in
        let (r1, r2, r3, r4) = tasks_ranges comp w xs ys sx sy s1 s2 n1 n2 in
        let lt = length-take s1 xs n1 in
        let lt' = length-take s2 ys n2 in
        let ld = length-drop s1 xs in
        let ld' = length-drop s2 ys in
        let (zl, el, sl, tl) =
          ih (take s1 xs) (take s2 ys) (Sorted-take comp s1 xs sx) (Sorted-take comp s2 ys sy)
            (omega arith) in
        let (zr, er', sr, tr) =
          ih (drop s1 xs) (drop s2 ys) (Sorted-drop comp s1 xs sx) (Sorted-drop comp s2 ys sy)
            (omega arith) in
        let aux = inplace_merge_aux fuel true policy std comp in
        (
          zl ++ zr,
          fork_run fuel xs ys c1 c2 s1 s2 zl zr k es ek er (lt→ltb 0 (s1 + s2) (omega arith))
              (lt→ltb (s1 + s2) (length xs + length ys) (omega arith)) (ap₂ aux r1 r2 ∙ el)
              (ap₂ aux r3 r4 ∙ er'),
          Sorted-append comp zl zr sl sr (cut_below comp w xs ys sx sy s1 s2 zl zr cut tl tr),
          cut-Stable comp w xs ys sx sy s1 s2 zl zr cut tl tr,
        )
