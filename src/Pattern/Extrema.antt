-- ===== src/Pattern/Extrema.antt =====
-- What the searches for the minimum and the maximum of pattern/parallel_search.hpp find.
use itoyori_github_io.Base.{
  ℕ, ◌+◌, ◌-◌, ◌/◌, ◌<◌, ◌≤◌, ◌≡◌, refl, ap, ◌∙◌, sym, Bool, true, false, List, some, zero, suc,
  arith, length, get_elem?, get_elem?-lt, get_elem?-total, if◌then◌else◌, ltb, leb, Bool-cases, inl,
  inr,
}
use itoyori_github_io.Pattern.{Policy}
use itoyori_github_io.Pattern.Ranges.{
  take, drop, length-take, length-drop, take-keeps, get_elem?-take, get_elem?-drop,
}
use itoyori_github_io.Pattern.Order.{StrictWeak, irreflexive}
use itoyori_github_io.Pattern.Cut.{below_through}
use itoyori_github_io.Pattern.Extremum.{search_aux, leaf_of, min_element, max_element}

module _ {A : Type 0} where
  -- The element at the index is the first of the least ones.
  abbrev pub IsFirstLeast : (A → A → Bool) → List A → A → ℕ → Type 0
  IsFirstLeast comp xs x i =
      (get_elem? xs i ≡ some x)
      × ((j : ℕ) (y : A) → get_elem? xs j ≡ some y → comp y x ≡ false)
      × ((j : ℕ) (y : A) → j < i → get_elem? xs j ≡ some y → comp x y ≡ true)

  module _ (comp : A → A → Bool) (w : StrictWeak comp) where
    in_drop :
        (h : ℕ) (xs : List A) (j : ℕ) (y : A)
        → h ≤ j
        → get_elem? xs j ≡ some y
        → get_elem? (drop h xs) (j - h) ≡ some y
    in_drop h xs j y l e =
        let q : h + (j - h) ≡ j = omega arith in
        get_elem?-drop h xs (j - h) ∙ ap (get_elem? xs) q ∙ e

    -- The first half has it, unless the other half has a lesser element.
    pub left_least :
        (h : ℕ) (xs : List A) (x1 x2 : A) (i1 i2 : ℕ)
        → IsFirstLeast comp (take h xs) x1 i1
        → IsFirstLeast comp (drop h xs) x2 i2
        → comp x2 x1 ≡ false
        → IsFirstLeast comp xs x1 i1
    left_least h xs x1 x2 i1 i2 (e1, a1, b1) (e2, a2, b2) f =
        let (l, e) = get_elem?-take h xs i1 x1 e1 in
        (
          e,
          λ j y g. elim (Bool-cases (ltb j h)) [
            | inl t ↦ a1 j y (take-keeps h xs j y (ground (arith, t)) g)
            | inr n ↦
                w.not_below_trans x1 x2 y f (a2 (j - h) y (in_drop h xs j y (ground (arith, n)) g))
          ],
          λ j y k g. b1 j y k (take-keeps h xs j y (omega arith) g),
        )

    pub right_least :
        (h : ℕ) (xs : List A) (x1 x2 : A) (i1 i2 : ℕ)
        → IsFirstLeast comp (take h xs) x1 i1
        → IsFirstLeast comp (drop h xs) x2 i2
        → comp x2 x1 ≡ true
        → IsFirstLeast comp xs x2 (h + i2)
    right_least h xs x1 x2 i1 i2 (e1, a1, b1) (e2, a2, b2) t =
        let below : (j : ℕ) (y : A) → j < h → get_elem? xs j ≡ some y → comp x2 y ≡ true =
          λ j y l g.
            below_through comp x2 x2 x1 y w (irreflexive comp w x2) t
              (a1 j y (take-keeps h xs j y l g)) in
        (
          sym (get_elem?-drop h xs i2) ∙ e2,
          λ j y g. elim (Bool-cases (ltb j h)) [
            | inl l ↦ w.asymmetric x2 y (below j y (ground (arith, l)) g)
            | inr n ↦ a2 (j - h) y (in_drop h xs j y (ground (arith, n)) g)
          ],
          λ j y k g. elim (Bool-cases (ltb j h)) [
            | inl l ↦ below j y (ground (arith, l)) g
            | inr n ↦ b2 (j - h) y (ground (arith, n, k)) (in_drop h xs j y (ground (arith, n)) g)
          ],
        )

    module _ (policy : Policy) (std_op : List A → ℕ) (select : A × ℕ → A × ℕ → A × ℕ) where
      leaf_run :
          (fuel first : ℕ) (xs : List A) (x : A)
          → leb (length xs) policy.cutoff_count ≡ true
          → ltb 0 (length xs) ≡ true
          → get_elem? xs (std_op xs) ≡ some x
          → search_aux (suc fuel) policy (leaf_of std_op) select first xs
            ≡ some (x, first + std_op xs)
      unfolding search_aux leaf_of
      leaf_run fuel first xs x t n e = rw (t, n, e) refl

      fork_run :
          (fuel first : ℕ) (xs : List A) (r1 r2 : A × ℕ)
          → leb (length xs) policy.cutoff_count ≡ false
          → search_aux fuel policy (leaf_of std_op) select first (take (length xs / 2) xs) ≡ some r1
          → search_aux fuel policy
              (leaf_of std_op)
              select
              (first + length xs / 2)
              (drop (length xs / 2) xs)
            ≡ some r2
          → search_aux (suc fuel) policy (leaf_of std_op) select first xs ≡ some (select r1 r2)
      unfolding search_aux
      fork_run fuel first xs r1 r2 g e f = rw (g, e, f) refl

    search_aux_lem :
        (policy : Policy) (std_op : List A → ℕ) (fuel first : ℕ) (xs : List A)
        → ((ys : List A) → 0 < length ys → (y : A) × IsFirstLeast comp ys y (std_op ys))
        → 0 < policy.cutoff_count
        → 0 < length xs
        → length xs < fuel
        → (x : A) × (i : ℕ) × (search_aux fuel policy
              (leaf_of std_op)
              (λ l r. if comp r.0 l.0 then r else l)
              first
              xs
            ≡ some (x, first + i))
          × IsFirstLeast comp xs x i
    search_aux_lem policy std_op zero first xs law p n f = absurd (omega arith)
    search_aux_lem policy std_op (suc fuel) first xs law p n f =
        let select : A × ℕ → A × ℕ → A × ℕ = λ l r. if comp r.0 l.0 then r else l in
        let h = length xs / 2 in
        elim (Bool-cases (leb (length xs) policy.cutoff_count)) [
          | inl t ↦
              let (x, least) = law xs n in
              let k : ltb 0 (length xs) ≡ true = ground arith in
              (x, std_op xs, leaf_run policy std_op select fuel first xs x t k least.0, least)
          | inr g ↦
              let big : policy.cutoff_count < length xs = ground (arith, g) in
              let l1 = length-take h xs (omega arith) in
              let l2 = length-drop h xs in
              let (x1, i1, e1, m1) =
                search_aux_lem policy std_op fuel first (take h xs) law p (omega arith)
                  (omega arith) in
              let (x2, i2, e2, m2) =
                search_aux_lem policy std_op fuel (first + h) (drop h xs) law p (omega arith)
                  (omega arith) in
              let run =
                fork_run policy std_op select fuel first xs (x1, first + i1) (x2, first + h + i2) g
                  e1 e2 in
              elim (Bool-cases (comp x2 x1)) [
                | inl t ↦
                    let q : first + h + i2 ≡ first + (h + i2) = omega arith in
                    (
                      x2,
                      h + i2,
                      run
                          ∙ ap
                              (λ (b : Bool).
                                some (if b then (x2, first + h + i2) else (x1, first + i1)))
                              t
                          ∙ ap (λ (k : ℕ). some (x2, k)) q,
                      right_least h xs x1 x2 i1 i2 m1 m2 t,
                    )
                | inr t ↦ (
                  x1,
                  i1,
                  run
                      ∙ ap
                          (λ (b : Bool).
                            some (if b then (x2, first + h + i2) else (x1, first + i1)))
                          t,
                  left_least h xs x1 x2 i1 i2 m1 m2 t,
                )
              ]
        ]

  -- For a strict weak ordering, a positive cutoff and a standard library that finds the first least
  -- element of a range that is not empty, `min_element` of such a range succeeds, whatever the cutoff,
  -- and gives the index of the first of its least elements.
  pub min_element_lem :
      (policy : Policy) (std_min : List A → ℕ) (comp : A → A → Bool) (xs : List A)
      → StrictWeak comp
      → ((ys : List A) → 0 < length ys → (y : A) × IsFirstLeast comp ys y (std_min ys))
      → 0 < policy.cutoff_count
      → 0 < length xs
      → (x : A) × (i : ℕ) × (min_element policy std_min comp xs ≡ some i) × IsFirstLeast comp xs x i
  unfolding min_element
  min_element_lem policy std_min comp xs w law p n = elim (Bool-cases (leb (length xs) 1)) [
    | inl t ↦
        let (x, e) = get_elem?-total xs 0 n in
        (
          x,
          0,
          rw (t) refl,
          (
            e,
            λ j y g.
                let l = get_elem?-lt xs j y g in
                let q : j ≡ 0 = ground (arith, t) in
                let g' : get_elem? xs 0 ≡ some y = ap (get_elem? xs) (sym q) ∙ g in
                let same : y ≡ x = cc in ap (λ (z : A). comp z x) same ∙ irreflexive comp w x,
            λ j y k g. absurd (omega arith),
          ),
        )
    | inr g ↦
        let (x, i, e, least) =
          search_aux_lem comp w policy std_min (suc (length xs)) 0 xs law p n (omega arith) in
        let z : 0 + i ≡ i = omega arith in (x, i, rw (g, e) (ap some z), least)
  ]

  flip-StrictWeak : (comp : A → A → Bool) → StrictWeak comp → StrictWeak (λ x y. comp y x)
  flip-StrictWeak comp w = record {
    asymmetric = λ x y t. w.asymmetric y x t;
    not_below_trans = λ x y z a b. w.not_below_trans z y x b a;
  }

  -- For a strict weak ordering, a positive cutoff and a standard library that finds the first greatest
  -- element of a range that is not empty, `max_element` of such a range succeeds, whatever the cutoff,
  -- and gives the index of the first of its greatest elements.
  pub max_element_lem :
      (policy : Policy) (std_max : List A → ℕ) (comp : A → A → Bool) (xs : List A)
      → StrictWeak comp
      → ((ys : List A) → 0 < length ys → (y : A) × IsFirstLeast (λ a b. comp b a) ys y (std_max ys))
      → 0 < policy.cutoff_count
      → 0 < length xs
      → (x : A) × (i : ℕ) × (max_element policy std_max comp xs ≡ some i)
        × IsFirstLeast (λ a b. comp b a) xs x i
  unfolding max_element min_element
  max_element_lem policy std_max comp xs w law p n =
      min_element_lem policy std_max (λ a b. comp b a) xs (flip-StrictWeak comp w) law p n
