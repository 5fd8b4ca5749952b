-- ===== src/Pattern/Reference.antt =====
-- A standard library that keeps to the laws which the algorithms of pattern/ rely on: insertion, and a
-- count of the elements in front.
use mathlib.Core.List.{append-nil}
use itoyori_github_io.Base.{
  ℕ, ◌<◌, ◌≤◌, ◌≡◌, refl, ap, ◌∙◌, sym, subst, Bool, true, false, List, [], ◌∷◌, ◌++◌, some, zero,
  suc, arith, length, get_elem?, if◌then◌else◌, Bool-cases, inl, inr,
}
use itoyori_github_io.Pattern.{Std}
use itoyori_github_io.Pattern.Ranges.{filter, filter_yes, filter_no, get_elem?-cons}
use itoyori_github_io.Pattern.Order.{
  StrictWeak, Sorted, Stable, StdLaws, equivalent, Stable-element, equivalent_lem,
}

module _ {A : Type 0} where
  -- In front of the first element that is not below it.
  unfoldable pub insert : (A → A → Bool) → A → List A → List A
  insert comp x [] = x ∷ []
  insert comp x (y ∷ ys) = let rest = insert comp x ys in if comp y x then y ∷ rest else x ∷ y ∷ ys

  unfoldable pub insert_all : (A → A → Bool) → List A → List A → List A
  unfolding insert
  insert_all comp [] ys = ys
  insert_all comp (x ∷ xs) ys = insert comp x (insert_all comp xs ys)

  unfoldable pub count_front : (A → Bool) → List A → ℕ
  count_front p [] = 0
  count_front p (x ∷ xs) = let rest = count_front p xs in if p x then suc rest else 0

  abbrev pub reference : Std A
  reference = record {
    stable_sort = λ comp xs. insert_all comp xs [];
    inplace_merge = insert_all;
    partition_point = count_front;
  }

  module _ (comp : A → A → Bool) (w : StrictWeak comp) where
    Sorted-cons :
        (x : A) (xs : List A)
        → ((i : ℕ) (y : A) → get_elem? xs i ≡ some y → comp y x ≡ false)
        → Sorted comp xs
        → Sorted comp (x ∷ xs)
    Sorted-cons x xs h s i zero y z l e f = absurd (omega arith)
    Sorted-cons x xs h s zero (suc j) y z l e f = let q : y ≡ x = cc in ap (comp z) q ∙ h j z f
    Sorted-cons x xs h s (suc i) (suc j) y z l e f = s i j y z (omega arith) e f

    uncons : (x : A) (xs : List A) → Sorted comp (x ∷ xs) → Sorted comp xs
    uncons x xs s i j y z l e f = s (suc i) (suc j) y z (omega arith) e f

    insert_below :
        (x y : A) (ys : List A) → comp y x ≡ true → insert comp x (y ∷ ys) ≡ y ∷ insert comp x ys
    unfolding insert
    insert_below x y ys t = rw (t) refl

    insert_front : (x y : A) (ys : List A) → comp y x ≡ false → insert comp x (y ∷ ys) ≡ x ∷ y ∷ ys
    unfolding insert
    insert_front x y ys t = rw (t) refl

    insert-Stable : (x : A) (ys : List A) → Stable comp (x ∷ ys) (insert comp x ys)
    insert-Stable x [] z = unfold insert in refl
    insert-Stable x (y ∷ ys) z =
        let p = equivalent comp z in
        elim (Bool-cases (comp y x)) [
          | inr g ↦ ap (filter p) (sym (insert_front x y ys g))
          | inl t ↦
              let ih = insert-Stable x ys z in
              let out : filter p (insert comp x (y ∷ ys)) ≡ filter p (y ∷ insert comp x ys) =
                ap (filter p) (insert_below x y ys t) in
              elim (Bool-cases (p x)) [
                | inl a ↦ elim (Bool-cases (p y)) [
                  | inl b ↦
                      let c : comp y x ≡ false = equivalent_lem comp y x z w b a in absurd (cc)
                  | inr b ↦
                      filter_yes p x (y ∷ ys) a
                      ∙ ap (λ (r : List A). x ∷ r) (filter_no p y ys b)
                      ∙ sym (filter_yes p x ys a)
                      ∙ ih
                      ∙ sym (filter_no p y (insert comp x ys) b)
                      ∙ sym out
                ]
                | inr a ↦
                    let rest : filter p ys ≡ filter p (insert comp x ys) =
                      sym (filter_no p x ys a) ∙ ih in
                    let both : filter p (y ∷ ys) ≡ filter p (y ∷ insert comp x ys) =
                      ap (λ (r : List A). if p y then y ∷ r else r) rest in
                    filter_no p x (y ∷ ys) a ∙ both ∙ sym out
              ]
        ]

    insert-Sorted : (x : A) (ys : List A) → Sorted comp ys → Sorted comp (insert comp x ys)
    insert-Sorted x [] s = unfold insert in Sorted-cons x [] (λ i y e. absurd (cc)) s
    insert-Sorted x (y ∷ ys) s = elim (Bool-cases (comp y x)) [
      | inr g ↦ subst (Sorted comp) (sym (insert_front x y ys g)) (
          Sorted-cons x (y ∷ ys)
            (λ i z e. elim (get_elem?-cons y ys i z e) [
              | inl q ↦ ap (λ (t : A). comp t x) (sym q) ∙ g
              | inr (j, r, f) ↦ w.not_below_trans x y z g (s 0 (suc j) y z (omega arith) refl f)
            ])
            s)
      | inl t ↦ subst (Sorted comp) (sym (insert_below x y ys t)) (
          Sorted-cons y (insert comp x ys)
            (λ i z e.
              let (j, f) =
                Stable-element comp (x ∷ ys) (insert comp x ys) w (insert-Stable x ys) i z e in
              elim (get_elem?-cons x ys j z f) [
                | inl q ↦ ap (λ (t : A). comp t y) (sym q) ∙ w.asymmetric y x t
                | inr (j', r, f') ↦ s 0 (suc j') y z (omega arith) refl f'
              ])
            (insert-Sorted x ys (uncons y ys s)))
    ]

    insert_all-Stable : (xs ys : List A) → Stable comp (xs ++ ys) (insert_all comp xs ys)
    insert_all-Stable [] ys z = unfold insert_all in refl
    insert_all-Stable (x ∷ xs) ys z =
        let p = equivalent comp z in
        let ih = insert_all-Stable xs ys z in
        let step = insert-Stable x (insert_all comp xs ys) z in
        let whole : insert_all comp (x ∷ xs) ys ≡ insert comp x (insert_all comp xs ys) =
          unfold insert_all in refl in
        ap (λ (r : List A). if p x then x ∷ r else r) ih ∙ step ∙ ap (filter p) (sym whole)

    insert_all-Sorted : (xs ys : List A) → Sorted comp ys → Sorted comp (insert_all comp xs ys)
    insert_all-Sorted [] ys s = unfold insert_all in s
    insert_all-Sorted (x ∷ xs) ys s =
        let whole : insert_all comp (x ∷ xs) ys ≡ insert comp x (insert_all comp xs ys) =
          unfold insert_all in refl in
        subst (Sorted comp) (sym whole)
          (insert-Sorted x (insert_all comp xs ys) (insert_all-Sorted xs ys s))

  count_yes :
      (p : A → Bool) (x : A) (xs : List A)
      → p x ≡ true
      → count_front p (x ∷ xs) ≡ suc (count_front p xs)
  unfolding count_front
  count_yes p x xs t = rw (t) refl

  count_no : (p : A → Bool) (x : A) (xs : List A) → p x ≡ false → count_front p (x ∷ xs) ≡ 0
  unfolding count_front
  count_no p x xs t = rw (t) refl

  count_cons :
      (p : A → Bool) (x : A) (xs : List A)
      → p x ≡ true
      → ((i : ℕ) (y : A)
          → get_elem? xs i ≡ some y
          → (i < count_front p xs → p y ≡ true) × (count_front p xs ≤ i → p y ≡ false))
      → (i : ℕ) (y : A) → get_elem? (x ∷ xs) i ≡ some y
      → (i < count_front p (x ∷ xs) → p y ≡ true) × (count_front p (x ∷ xs) ≤ i → p y ≡ false)
  count_cons p x xs t at zero y e =
      let c = count_yes p x xs t in
      let q : y ≡ x = cc in (λ l. ap p q ∙ t, λ l. absurd (omega arith))
  count_cons p x xs t at (suc i) y e =
      let c = count_yes p x xs t in
      (λ l. (at i y e).0 (omega arith), λ l. (at i y e).1 (omega arith))

  count_front_lem :
      (p : A → Bool) (xs : List A)
      → ((i j : ℕ) (x y : A)
          → i < j
          → get_elem? xs i ≡ some x
          → get_elem? xs j ≡ some y
          → p y ≡ true
          → p x ≡ true)
      → (count_front p xs ≤ length xs)
        × ((i : ℕ) (x : A)
            → get_elem? xs i ≡ some x
            → (i < count_front p xs → p x ≡ true) × (count_front p xs ≤ i → p x ≡ false))
  count_front_lem p [] h =
      let z : count_front p [] ≡ 0 = unfold count_front in refl in
      (omega arith, λ i x e. absurd (cc))
  count_front_lem p (x ∷ xs) h =
      let (le, at) =
        count_front_lem p xs (λ i j y z l e f t. h (suc i) (suc j) y z (omega arith) e f t) in
      elim (Bool-cases (p x)) [
        | inl t ↦ let c = count_yes p x xs t in (omega arith, count_cons p x xs t at)
        | inr g ↦
            let c = count_no p x xs g in
            (
              omega arith,
              λ i y e. (
                λ l. absurd (omega arith),
                λ l. elim (get_elem?-cons x xs i y e) [
                  | inl q ↦ ap p (sym q) ∙ g
                  | inr (j, r, f) ↦ elim (Bool-cases (p y)) [
                    | inr n ↦ n
                    | inl good ↦
                        let bad : p x ≡ true = h 0 (suc j) x y (omega arith) refl f good in
                        absurd (cc)
                  ]
                ],
              ),
            )
      ]

  pub reference-StdLaws : (comp : A → A → Bool) → StrictWeak comp → StdLaws reference comp
  reference-StdLaws comp w = record {
    sorts = λ xs. insert_all-Sorted comp w xs [] (λ i j x y l e f. absurd (cc));
    sorts_stably = λ xs z.
        ap (filter (equivalent comp z)) (sym (append-nil xs)) ∙ insert_all-Stable comp w xs [] z;
    merges = λ xs ys a b. insert_all-Sorted comp w xs ys b;
    merges_stably = λ xs ys a b. insert_all-Stable comp w xs ys;
    partitions = count_front_lem;
  }
