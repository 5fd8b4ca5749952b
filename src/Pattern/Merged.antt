-- ===== src/Pattern/Merged.antt =====
-- `inplace_merge_aux` of pattern/parallel_merge.hpp.
use mathlib.Core.List.{append_assoc}
use itoyori_github_io.Base.{
  ℕ, ◌+◌, ◌-◌, ◌≤◌, ◌≡◌, ap, ap₂, ◌∙◌, sym, Bool, List, ◌++◌, Option, some, arith, length, inl, inr,
  length-append,
}
use itoyori_github_io.Pattern.Ranges.{
  take, drop, filter, get_elem?-take, get_elem?-drop, length-take, length-drop, take-append,
  drop-append, take-append-drop, get_elem?-append, filter-append,
}
use itoyori_github_io.Pattern.Order.{
  StrictWeak, Sorted, Stable, Below, Stable-element, filter-swap, equivalent,
}
use itoyori_github_io.Pattern.Cut.{Cuts}

module _ {A : Type 0} where
  -- A result that is sorted and has the elements of a list, equivalent ones in the same order.
  abbrev pub Sorts : (A → A → Bool) → List A → Option (List A) → Type 0
  Sorts comp xs o = (zs : List A) × (o ≡ some zs) × Sorted comp zs × Stable comp xs zs

  pub Sorted-take :
      (comp : A → A → Bool) (n : ℕ) (xs : List A) → Sorted comp xs → Sorted comp (take n xs)
  Sorted-take comp n xs s i j x y l e f =
      s i j x y l (get_elem?-take n xs i x e).1 (get_elem?-take n xs j y f).1

  pub Sorted-drop :
      (comp : A → A → Bool) (n : ℕ) (xs : List A) → Sorted comp xs → Sorted comp (drop n xs)
  Sorted-drop comp n xs s i j x y l e f =
      s (n + i) (n + j) x y (omega arith) (sym (get_elem?-drop n xs i) ∙ e)
        (sym (get_elem?-drop n xs j) ∙ f)

  module _ (comp : A → A → Bool) (w : StrictWeak comp) (xs ys : List A) (sx : Sorted comp xs)
      (sy : Sorted comp ys) where
    -- The ranges that the two tasks get.
    pub tasks_ranges :
        (s1 s2 : ℕ)
        → s1 ≤ length xs
        → s2 ≤ length ys
        → let range = take s1 xs ++ ((take s2 ys ++ drop s1 xs) ++ drop s2 ys) in
          (take s1 range ≡ take s1 xs)
          × (drop s1 (take (s1 + s2) range) ≡ take s2 ys)
          × (take (length xs - s1) (drop (s1 + s2) range) ≡ drop s1 xs)
          × (drop (length xs - s1) (drop (s1 + s2) range) ≡ drop s2 ys)
    tasks_ranges s1 s2 l l' =
        let a = take s1 xs in
        let b = take s2 ys in
        let c = drop s1 xs in
        let d = drop s2 ys in
        let la : length a ≡ s1 = length-take s1 xs l in
        let lb : length b ≡ s2 = length-take s2 ys l' in
        let lc : length c ≡ length xs - s1 = length-drop s1 xs in
        let lab : length (a ++ b) ≡ s1 + s2 = omega (arith, length-append a b) in
        let whole : a ++ ((b ++ c) ++ d) ≡ (a ++ b) ++ (c ++ d) =
          ap (λ (r : List A). a ++ r) (append_assoc b c d) ∙ sym (append_assoc a b (c ++ d)) in
        let front : take (s1 + s2) (a ++ ((b ++ c) ++ d)) ≡ a ++ b =
          ap (take (s1 + s2)) whole ∙ take-append (s1 + s2) (a ++ b) (c ++ d) lab in
        let back : drop (s1 + s2) (a ++ ((b ++ c) ++ d)) ≡ c ++ d =
          ap (drop (s1 + s2)) whole ∙ drop-append (s1 + s2) (a ++ b) (c ++ d) lab in
        (
          take-append s1 a ((b ++ c) ++ d) la,
          ap (drop s1) front ∙ drop-append s1 a b la,
          ap (take (length xs - s1)) back ∙ take-append (length xs - s1) c d lc,
          ap (drop (length xs - s1)) back ∙ drop-append (length xs - s1) c d lc,
        )

    -- The merged parts on the two sides of a cut are in order.
    pub cut_below :
        (s1 s2 : ℕ) (l r : List A)
        → Cuts comp xs ys s1 s2
        → Stable comp (take s1 xs ++ take s2 ys) l
        → Stable comp (drop s1 xs ++ drop s2 ys) r
        → Below comp l r
    cut_below s1 s2 l r (c1, c2, c3, c4, c5, c6) sl sr i j x y e f =
        let (i', e') = Stable-element comp (take s1 xs ++ take s2 ys) l w sl i x e in
        let (j', f') = Stable-element comp (drop s1 xs ++ drop s2 ys) r w sr j y f in
        elim (get_elem?-append (take s1 xs) (take s2 ys) i' x e') [
          | inl (k, a) ↦
              let (p, a') = get_elem?-take s1 xs i' x a in
              elim (get_elem?-append (drop s1 xs) (drop s2 ys) j' y f') [
                | inl (k', b) ↦
                    sx i' (s1 + j') x y (omega arith) a' (sym (get_elem?-drop s1 xs j') ∙ b)
                | inr (k', b) ↦
                    let n = j' - length (drop s1 xs) in
                    c5 i' (s2 + n) x y p (omega arith) a' (sym (get_elem?-drop s2 ys n) ∙ b)
              ]
          | inr (k, a) ↦
              let n = i' - length (take s1 xs) in
              let (p, a') = get_elem?-take s2 ys n x a in
              elim (get_elem?-append (drop s1 xs) (drop s2 ys) j' y f') [
                | inl (k', b) ↦
                    w.asymmetric x y
                      (c6 (s1 + j') n y x (omega arith) p (sym (get_elem?-drop s1 xs j') ∙ b) a')
                | inr (k', b) ↦
                    let n' = j' - length (drop s1 xs) in
                    sy n (s2 + n') x y (omega arith) a' (sym (get_elem?-drop s2 ys n') ∙ b)
              ]
        ]

    -- The exchange keeps the order of equivalent elements.
    pub cut-Stable :
        (s1 s2 : ℕ) (l r : List A)
        → Cuts comp xs ys s1 s2
        → Stable comp (take s1 xs ++ take s2 ys) l
        → Stable comp (drop s1 xs ++ drop s2 ys) r
        → Stable comp (xs ++ ys) (l ++ r)
    cut-Stable s1 s2 l r (c1, c2, c3, c4, c5, c6) sl sr z =
        let p = equivalent comp z in
        let a = filter p (take s1 xs) in
        let b = filter p (take s2 ys) in
        let c = filter p (drop s1 xs) in
        let d = filter p (drop s2 ys) in
        let apart : c ++ b ≡ b ++ c = filter-swap comp (drop s1 xs) (take s2 ys) z w (λ i j x y e f.
          let (k, e') = get_elem?-take s2 ys i x e in
          c6 (s1 + j) i y x (omega arith) k (sym (get_elem?-drop s1 xs j) ∙ f) e') in
        let in_xs : filter p xs ≡ a ++ c =
          ap (filter p) (sym (take-append-drop s1 xs))
          ∙ filter-append p (take s1 xs) (drop s1 xs) in
        let in_ys : filter p ys ≡ b ++ d =
          ap (filter p) (sym (take-append-drop s2 ys))
          ∙ filter-append p (take s2 ys) (drop s2 ys) in
        let left : a ++ b ≡ filter p l = sym (filter-append p (take s1 xs) (take s2 ys)) ∙ sl z in
        let right : c ++ d ≡ filter p r = sym (filter-append p (drop s1 xs) (drop s2 ys)) ∙ sr z in
        filter-append p xs ys
        ∙ ap₂ (λ (u v : List A). u ++ v) in_xs in_ys
        ∙ append_assoc a c (b ++ d)
        ∙ ap (λ (t : List A). a ++ t) (sym (append_assoc c b d))
        ∙ ap (λ (t : List A). a ++ (t ++ d)) apart
        ∙ ap (λ (t : List A). a ++ t) (append_assoc b c d)
        ∙ sym (append_assoc a b (c ++ d))
        ∙ ap₂ (λ (u v : List A). u ++ v) left right
        ∙ sym (filter-append p l r)
