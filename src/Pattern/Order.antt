-- ===== src/Pattern/Order.antt =====
-- What the sorting algorithms promise: sorted ranges, and the order of equivalent elements kept.
use mathlib.Core.List.{append-nil}
use itoyori_github_io.Base.{
  ℕ, ◌-◌, ◌<◌, ◌≤◌, ◌≡◌, refl, ap, ◌∙◌, sym, Bool, true, false, not, ◌&&◌, List, [], ◌++◌, some,
  arith, length, get_elem?, Bool-cases, inl, inr,
}
use itoyori_github_io.Pattern.{Std}
use itoyori_github_io.Pattern.Ranges.{
  filter, get_elem?-append, get_elem?-filter, filter-keeps, filter-none, filter-cases,
}

module _ {A : Type 0} where
  -- A strict weak ordering, as the standard library asks of a comparison.
  pub record StrictWeak (comp : A → A → Bool) : Type 0 where
    pub asymmetric : (x y : A) → comp x y ≡ true → comp y x ≡ false
    pub not_below_trans : (x y z : A) → comp y x ≡ false → comp z y ≡ false → comp z x ≡ false

  -- No element is below one that stands before it.
  abbrev pub Sorted : (A → A → Bool) → List A → Type 0
  Sorted comp xs =
      (i j : ℕ) (x y : A)
      → i < j
      → get_elem? xs i ≡ some x
      → get_elem? xs j ≡ some y
      → comp y x ≡ false

  -- No element of the second range is below one of the first.
  abbrev pub Below : (A → A → Bool) → List A → List A → Type 0
  Below comp xs ys =
      (i j : ℕ) (x y : A) → get_elem? xs i ≡ some x → get_elem? ys j ≡ some y → comp y x ≡ false

  -- All elements of the first range are below all of the second.
  abbrev pub StrictlyBelow : (A → A → Bool) → List A → List A → Type 0
  StrictlyBelow comp xs ys =
      (i j : ℕ) (x y : A) → get_elem? xs i ≡ some x → get_elem? ys j ≡ some y → comp x y ≡ true

  abbrev pub equivalent : (A → A → Bool) → A → A → Bool
  equivalent comp z x = not (comp z x) && not (comp x z)

  -- The elements that are equivalent to an element are the same in both lists, in the same order.
  abbrev pub Stable : (A → A → Bool) → List A → List A → Type 0
  Stable comp xs ys = (z : A) → filter (equivalent comp z) xs ≡ filter (equivalent comp z) ys

  pub irreflexive : (comp : A → A → Bool) → StrictWeak comp → (x : A) → comp x x ≡ false
  irreflexive comp w x = elim (Bool-cases (comp x x)) [ inl t ↦ w.asymmetric x x t | inr f ↦ f ]

  self_equivalent : (comp : A → A → Bool) → StrictWeak comp → (x : A) → equivalent comp x x ≡ true
  self_equivalent comp w x = rw (irreflexive comp w x) refl

  -- An element of one of two lists that are stable rearrangements stands in the other.
  pub Stable-element :
      (comp : A → A → Bool) (xs ys : List A)
      → StrictWeak comp
      → Stable comp xs ys
      → (i : ℕ) (z : A) → get_elem? ys i ≡ some z
      → (j : ℕ) × (get_elem? xs j ≡ some z)
  Stable-element comp xs ys w s i z e =
      let (k, q) = filter-keeps (equivalent comp z) ys i z (self_equivalent comp w z) e in
      let (t, j, r) =
        get_elem?-filter (equivalent comp z) xs k z
          (ap (λ (l : List A). get_elem? l k) (s z) ∙ q) in
      (j, r)

  pub Sorted-append :
      (comp : A → A → Bool) (xs ys : List A)
      → Sorted comp xs
      → Sorted comp ys
      → Below comp xs ys
      → Sorted comp (xs ++ ys)
  Sorted-append comp xs ys a b c i j x y l e f = elim (get_elem?-append xs ys i x e) [
    | inl (p, q) ↦ elim (get_elem?-append xs ys j y f) [
      | inl (p', q') ↦ a i j x y l q q'
      | inr (p', q') ↦ c i (j - length xs) x y q q'
    ]
    | inr (p, q) ↦ elim (get_elem?-append xs ys j y f) [
      | inl (p', q') ↦ absurd (omega arith)
      | inr (p', q') ↦ b (i - length xs) (j - length xs) x y (omega arith) q q'
    ]
  ]

  -- Nothing is equivalent to an element of each of two ranges, when one is strictly below.
  pub equivalent_lem :
      (comp : A → A → Bool) (x y z : A)
      → StrictWeak comp
      → equivalent comp z x ≡ true
      → equivalent comp z y ≡ true
      → comp x y ≡ false
  equivalent_lem comp x y z w a b =
      let p : comp x z ≡ false = ground (arith, a) in
      let q : comp z y ≡ false = ground (arith, b) in w.not_below_trans y z x q p

  -- The equivalents of an element are all in one of two ranges, when one is strictly below.
  pub filter-swap :
      (comp : A → A → Bool) (xs ys : List A) (z : A)
      → StrictWeak comp
      → StrictlyBelow comp ys xs
      → filter (equivalent comp z) xs ++ filter (equivalent comp z) ys
        ≡ filter (equivalent comp z) ys ++ filter (equivalent comp z) xs
  filter-swap comp xs ys z w s = elim (filter-cases (equivalent comp z) xs) [
    | inr n ↦
        let e = filter-none (equivalent comp z) xs n in
        rw (e) (sym (append-nil (filter (equivalent comp z) ys)))
    | inl (i, x, e, t) ↦
        let none_left : filter (equivalent comp z) ys ≡ [] =
          filter-none (equivalent comp z) ys (λ j y f. elim (Bool-cases (equivalent comp z y)) [
            | inr g ↦ g
            | inl g ↦
                let a : comp y x ≡ false = equivalent_lem comp y x z w g t in
                let b : comp y x ≡ true = s j i y x f e in absurd (cc)
          ]) in
        rw (none_left) (append-nil (filter (equivalent comp z) xs))
  ]

  -- The laws of the standard library's algorithms: a stable sort, a stable merge of sorted ranges, and
  -- the end of the part of a partitioned range that passes the test.
  pub record StdLaws (std : Std A) (comp : A → A → Bool) : Type 0 where
    pub sorts : (xs : List A) → Sorted comp (std.stable_sort comp xs)
    pub sorts_stably : (xs : List A) → Stable comp xs (std.stable_sort comp xs)
    pub merges :
        (xs ys : List A)
        → Sorted comp xs
        → Sorted comp ys
        → Sorted comp (std.inplace_merge comp xs ys)
    pub merges_stably :
        (xs ys : List A)
        → Sorted comp xs
        → Sorted comp ys
        → Stable comp (xs ++ ys) (std.inplace_merge comp xs ys)
    pub partitions :
        (p : A → Bool) (xs : List A)
        → ((i j : ℕ) (x y : A)
            → i < j
            → get_elem? xs i ≡ some x
            → get_elem? xs j ≡ some y
            → p y ≡ true
            → p x ≡ true)
        → (std.partition_point p xs ≤ length xs)
          × ((i : ℕ) (x : A)
              → get_elem? xs i ≡ some x
              → (i < std.partition_point p xs → p x ≡ true)
                × (std.partition_point p xs ≤ i → p x ≡ false))
