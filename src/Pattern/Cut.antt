-- ===== src/Pattern/Cut.antt =====
-- `keep_equal`: the step for stability of `inplace_merge_aux`, pattern/parallel_merge.hpp.
use itoyori_github_io.Base.{
  ℕ, ◌+◌, ◌-◌, ◌<◌, ◌≤◌, ◌≡◌, ◌≢◌, refl, ap, ◌∙◌, sym, Bool, true, false, not, List, some, arith,
  length, get_elem?, get_elem?-total, get_elem?-lt, Bool-cases, inl, inr, ◌⊎◌, ltb, ◌==◌,
}
use itoyori_github_io.Pattern.{Std}
use itoyori_github_io.Pattern.Ranges.{take, get_elem?-take, length-take, take-keeps}
use itoyori_github_io.Pattern.Order.{irreflexive, StrictWeak, Sorted, StdLaws}
use itoyori_github_io.Pattern.Merge.{keep_equal}
use itoyori_github_io.Pattern.Probe.{Splits, prev-total}
use itoyori_github_io.Pattern.Search.{Proper}

module _ {A : Type 0} where
  -- The range can be cut here: of what is exchanged, all elements of `ys` are below those of `xs`, and
  -- of what stays apart none of `ys` is below one of `xs`.
  abbrev pub Cuts : (A → A → Bool) → List A → List A → ℕ → ℕ → Type 0
  Cuts comp xs ys s1 s2 =
      (s1 ≤ length xs)
      × (s2 ≤ length ys)
      × (s1 + s2 ≢ 0)
      × (s1 + s2 ≢ length xs + length ys)
      × ((i j : ℕ) (x y : A)
          → i < s1
          → s2 ≤ j
          → get_elem? xs i ≡ some x
          → get_elem? ys j ≡ some y
          → comp y x ≡ false)
      × ((i j : ℕ) (x y : A)
          → s1 ≤ i
          → j < s2
          → get_elem? xs i ≡ some x
          → get_elem? ys j ≡ some y
          → comp y x ≡ true)

  pub Sorted-le :
      (comp : A → A → Bool) (xs : List A)
      → StrictWeak comp
      → Sorted comp xs
      → (i j : ℕ) (x y : A) → i ≤ j
      → get_elem? xs i ≡ some x
      → get_elem? xs j ≡ some y
      → comp y x ≡ false
  Sorted-le comp xs w s i j x y l e f = elim (Bool-cases (i == j)) [
    | inl t ↦
        let q : i ≡ j = ground (arith, t) in
        let g : get_elem? xs j ≡ some x = ap (get_elem? xs) (sym q) ∙ e in
        let same : x ≡ y = cc in let r = irreflexive comp w x in cc
    | inr g ↦ s i j x y (ground (arith, g)) e f
  ]

  -- An element is below another if elements between them are.
  pub below_through :
      (comp : A → A → Bool) (y l r x : A)
      → StrictWeak comp
      → comp l y ≡ false
      → comp l r ≡ true
      → comp x r ≡ false
      → comp y x ≡ true
  below_through comp y l r x w a b c = elim (Bool-cases (comp y x)) [
    | inl t ↦ t
    | inr f ↦
        let d : comp l r ≡ false = w.not_below_trans r y l (w.not_below_trans r x y c f) a in
        absurd (cc)
  ]

  module _ (std : Std A) (comp : A → A → Bool) (xs ys : List A) (c1 c2 : ℕ) (w : StrictWeak comp)
      (laws : StdLaws std comp) (sx : Sorted comp xs) (sy : Sorted comp ys)
      (sp : Splits comp xs ys c1 c2) (pr : Proper comp xs ys c1 c2) where
    front :
        (i j : ℕ) (x y : A)
        → i < c1
        → c2 ≤ j
        → get_elem? xs i ≡ some x
        → get_elem? ys j ≡ some y
        → comp y x ≡ false
    front i j x y l l' e f =
        let in_ys = get_elem?-lt ys j y f in
        let (x', e') = get_elem?-total xs (c1 - 1) (omega (arith, sp.0)) in
        let (y', f') = get_elem?-total ys c2 (omega arith) in
        let a = Sorted-le comp xs w sx i (c1 - 1) x x' (omega arith) e e' in
        let b = sp.2 x' y' (omega arith) e' f' in
        let c = Sorted-le comp ys w sy c2 j y' y l' f' f in
        w.not_below_trans x y' y (w.not_below_trans x x' y' a b) c

    cut_ends : (c1 ≡ length xs) ⊎ (c2 ≡ 0) → Cuts comp xs ys c1 c2
    cut_ends e = (
      sp.0,
      sp.1,
      pr.0,
      pr.1,
      front,
      λ i j x y l l' a b.
          absurd
            (elim e [ inl q ↦ let k = get_elem?-lt xs i x a in omega arith | inr q ↦ omega arith ]),
    )

    module _ (xr yl : A) (er : get_elem? xs c1 ≡ some xr) (el : get_elem? ys (c2 - 1) ≡ some yl)
        (some_ys : 0 < c2) where
      not_above : comp xr yl ≡ false
      not_above = sp.3 xr yl some_ys er el

      after : (i : ℕ) (x : A) → c1 ≤ i → get_elem? xs i ≡ some x → comp x xr ≡ false
      after i x l e = Sorted-le comp xs w sx c1 i xr x l er e

      before : (j : ℕ) (y : A) → j < c2 → get_elem? ys j ≡ some y → comp yl y ≡ false
      before j y l f = Sorted-le comp ys w sy j (c2 - 1) y yl (omega arith) f el

      cut_strict : comp yl xr ≡ true → Cuts comp xs ys c1 c2
      cut_strict t = (
        sp.0,
        sp.1,
        pr.0,
        pr.1,
        front,
        λ i j x y l l' a b. below_through comp y yl xr x w (before j y l' b) t (after i x l a),
      )

      cut_first :
          comp yl xr ≡ false
          → c1 ≡ 0
          → ((x y : A)
              → get_elem? xs 0 ≡ some x
              → get_elem? ys (length ys - 1) ≡ some y
              → comp y x ≡ false)
          → Cuts comp xs ys (std.partition_point (λ r. not (comp xr r)) xs) c2
      cut_first q z ends =
          let parted =
            laws.partitions (λ r. not (comp xr r)) xs
              (λ i j x y l e f t.
                let a : comp xr y ≡ false = ground (arith, t) in
                let b : comp xr x ≡ false = w.not_below_trans x y xr (sx i j x y l e f) a in
                ground (arith, b)) in
          (
            parted.0,
            sp.1,
            (omega arith),
            λ e.
                let (x, ex) =
                  get_elem?-total xs 0 (let k = get_elem?-lt xs c1 xr er in omega arith) in
                let (y, ey) = get_elem?-total ys (length ys - 1) (omega (arith, sp.1)) in
                let all : c2 ≡ length ys = omega (arith, parted.0, sp.1) in
                let a : comp y x ≡ true = pr.2 z all x y ex ey in
                let b : comp y x ≡ false = ends x y ex ey in absurd (cc),
            λ i j x y l l' e f.
                let in_ys = get_elem?-lt ys j y f in
                let t : not (comp xr x) ≡ true = (parted.1 i x e).0 l in
                let a : comp xr x ≡ false = ground (arith, t) in
                let c = Sorted-le comp ys w sy (c2 - 1) j yl y (omega arith) el f in
                w.not_below_trans x yl y (w.not_below_trans x xr yl a q) c,
            λ i j x y l l' e f.
                let t : not (comp xr x) ≡ false = (parted.1 i x e).1 l in
                let a : comp xr x ≡ true = ground (arith, t) in
                below_through comp y xr x x w
                  (w.not_below_trans y yl xr (before j y l' f) not_above) a (irreflexive comp w x),
          )

      cut_last :
          comp yl xr ≡ false
          → c1 ≢ 0
          → Cuts comp xs ys c1 (std.partition_point (λ r. comp r yl) (take c2 ys))
      cut_last q nz =
          let parted =
            laws.partitions (λ r. comp r yl) (take c2 ys)
              (λ i j x y l e f t.
                let (k, e') = get_elem?-take c2 ys i x e in
                let (k', f') = get_elem?-take c2 ys j y f in
                below_through comp x y yl yl w (sy i j x y l e' f') t (irreflexive comp w yl)) in
          let len = length-take c2 ys sp.1 in
          (
            sp.0,
            omega (arith, parted.0, sp.1),
            omega arith,
            (let a = pr.1 in let b = sp.0 in let c = sp.1 in let d = parted.0 in omega arith),
            λ i j x y l l' e f. elim (Bool-cases (ltb j c2)) [
              | inl t ↦
                  let in_part = take-keeps c2 ys j y (ground (arith, t)) f in
                  let a : comp y yl ≡ false = (parted.1 j y in_part).1 l' in
                  let b = Sorted-le comp xs w sx i c1 x xr (omega arith) e er in
                  w.not_below_trans x yl y (w.not_below_trans x xr yl b q) a
              | inr g ↦ front i j x y l (ground (arith, g)) e f
            ],
            λ i j x y l l' e f.
                let in_part = take-keeps c2 ys j y (omega (arith, parted.0, len)) f in
                let a : comp y yl ≡ true = (parted.1 j y in_part).0 l' in
                below_through comp y y yl x w (irreflexive comp w y) a
                  (w.not_below_trans yl xr x not_above (after i x l e)),
          )

    -- Whatever the split that was found, unless the ranges are the other way round, the step gives a
    -- place where they can be cut.
    pub keep_equal_lem :
        ((x y : A)
          → get_elem? xs 0 ≡ some x
          → get_elem? ys (length ys - 1) ≡ some y
          → comp y x ≡ false)
        → (s1 : ℕ) × (s2 : ℕ) × (keep_equal std comp xs ys c1 c2 ≡ some (s1, s2))
          × Cuts comp xs ys s1 s2
    unfolding keep_equal
    keep_equal_lem ends = elim (Bool-cases (c1 == length xs)) [
      | inl t ↦ (c1, c2, rw (t) refl, cut_ends (inl (ground (arith, t))))
      | inr g ↦ elim (Bool-cases (c2 == 0)) [
        | inl t ↦ (c1, c2, rw (g, t) refl, cut_ends (inr (ground (arith, t))))
        | inr g' ↦
            let in_xs : c1 < length xs = let a = sp.0 in ground (arith, g) in
            let in_ys : 0 < c2 = ground (arith, g') in
            let (xr, er) = get_elem?-total xs c1 in_xs in
            let (yl, fl, el) = prev-total ys c2 in_ys sp.1 in
            let na = not_above xr yl er el in_ys in
            elim (Bool-cases (comp yl xr)) [
              | inl t ↦ (c1, c2, rw (g, g', er, fl, na, t) refl, cut_strict xr yl er el in_ys t)
              | inr q ↦ elim (Bool-cases (c1 == 0)) [
                | inl z ↦ (
                  std.partition_point (λ r. not (comp xr r)) xs,
                  c2,
                  rw (g, g', er, fl, na, q, z) refl,
                  cut_first xr yl er el in_ys q (ground (arith, z)) ends,
                )
                | inr nz ↦ (
                  c1,
                  std.partition_point (λ r. comp r yl) (take c2 ys),
                  rw (g, g', er, fl, na, q, nz) refl,
                  cut_last xr yl er el in_ys q (ground (arith, nz)),
                )
              ]
            ]
      ]
    ]
