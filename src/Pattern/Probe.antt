-- ===== src/Pattern/Probe.antt =====
-- One round of the binary search of `find_split_points_for_merge`, pattern/parallel_merge.hpp.
use itoyori_github_io.Base.{
  ℕ, ◌-◌, ◌<◌, ◌≤◌, ◌≡◌, refl, ap, ◌∙◌, Bool, true, false, ◌||◌, List, some, zero, suc, arith,
  length, get_elem?, get_elem?-total, get_elem?-lt, Bool-cases, inl, inr, min, leb, ◌==◌, le→leb,
}
use itoyori_github_io.Pattern.Merge.{Round, prev, round}

module _ {A : Type 0} where
  pub prev_lem : (xs : List A) (i : ℕ) → 0 < i → prev xs i ≡ get_elem? xs (i - 1)
  prev_lem xs zero h = absurd (omega arith)
  prev_lem xs (suc i) h = ap (get_elem? xs) (omega arith)

  pub prev-total :
      (xs : List A) (i : ℕ)
      → 0 < i
      → i ≤ length xs
      → (x : A) × (prev xs i ≡ some x) × (get_elem? xs (i - 1) ≡ some x)
  prev-total xs i h l =
      let (x, e) = get_elem?-total xs (i - 1) (omega arith) in (x, prev_lem xs i h ∙ e, e)

  -- At a split of two ranges, nothing behind it is below anything in front of it: the elements next to
  -- it are in order.
  abbrev pub Splits : (A → A → Bool) → List A → List A → ℕ → ℕ → Type 0
  Splits comp xs ys c1 c2 =
      (c1 ≤ length xs)
      × (c2 ≤ length ys)
      × ((x y : A)
          → 0 < c1
          → get_elem? xs (c1 - 1) ≡ some x
          → get_elem? ys c2 ≡ some y
          → comp y x ≡ false)
      × ((x y : A)
          → 0 < c2
          → get_elem? xs c1 ≡ some x
          → get_elem? ys (c2 - 1) ≡ some y
          → comp x y ≡ false)

  -- Why the split is in front of index `c2` of the larger range, or behind it.
  abbrev pub TooHigh : (A → A → Bool) → ℕ → List A → List A → ℕ → Type 0
  TooHigh comp m xs ys c2 =
      (x : A) × (y : A) × (m - c2 < length xs)
      × (get_elem? xs (m - c2) ≡ some x)
      × (get_elem? ys (c2 - 1) ≡ some y)
      × (comp x y ≡ true)

  abbrev pub TooLow : (A → A → Bool) → ℕ → List A → List A → ℕ → Type 0
  TooLow comp m xs ys c2 =
      (x : A) × (y : A) × (c2 < m)
      × (get_elem? xs (min (length xs - 1) (m - c2 - 1)) ≡ some x)
      × (get_elem? ys c2 ≡ some y)
      × (comp y x ≡ true)

  abbrev pub Shows : (A → A → Bool) → ℕ → List A → List A → ℕ → Round → Type 0
  Shows comp m xs ys c2 Round.move_high = TooHigh comp m xs ys c2
  Shows comp m xs ys c2 Round.move_low = TooLow comp m xs ys c2
  Shows comp m xs ys c2 (Round.return c1 c) =
      (c ≡ c2) × (c1 ≡ min (length xs) (m - c2)) × Splits comp xs ys c1 c2

  module _ (comp : A → A → Bool) (m : ℕ) (xs ys : List A) (c2 : ℕ) where
    -- A round at an index of the larger range.
    abbrev pub Ready : Type 0
    Ready = (0 < length xs) × (length xs ≤ m) × (m ≤ length ys) × (c2 ≤ length ys)

    round_right :
        Ready → m ≤ c2 → (r : Round) × (round comp m xs ys c2 ≡ some r) × Shows comp m xs ys c2 r
    unfolding round
    round_right (n, l, u, k) h =
        let (x, e) = get_elem?-total xs 0 n in
        let (y, f, f') = prev-total ys c2 (omega arith) k in
        let z : m - c2 ≡ 0 = omega arith in
        elim (Bool-cases (comp x y)) [
          | inl t ↦ (
            Round.move_high,
            rw (le→leb m c2 h, e, f, t) refl,
            (x, y, omega arith, ap (get_elem? xs) z ∙ e, f', t),
          )
          | inr g ↦ (
            Round.return 0 c2,
            rw (le→leb m c2 h, e, f, g) refl,
            (
              refl,
              omega arith,
              (omega arith, k, λ x' y' q. absurd (omega arith), λ x' y' q a b. cc),
            ),
          )
        ]

    round_left :
        Ready
        → length xs ≤ m - c2
        → (r : Round) × (round comp m xs ys c2 ≡ some r) × Shows comp m xs ys c2 r
    unfolding round
    round_left (n, l, u, k) h =
        let (x, e, e') = prev-total xs (length xs) n (omega arith) in
        let (y, f) = get_elem?-total ys c2 (omega arith) in
        let out : leb m c2 ≡ false = ground arith in
        let z : min (length xs - 1) (m - c2 - 1) ≡ length xs - 1 = omega arith in
        elim (Bool-cases (comp y x)) [
          | inl t ↦ (
            Round.move_low,
            rw (out, le→leb (length xs) (m - c2) h, e, f, t) refl,
            (x, y, omega arith, ap (get_elem? xs) z ∙ e', f, t),
          )
          | inr g ↦ (
            Round.return (length xs) c2,
            rw (out, le→leb (length xs) (m - c2) h, e, f, g) refl,
            (
              refl,
              omega arith,
              (
                omega arith,
                k,
                λ x' y' q a b. cc,
                λ x' y' q a b. absurd (let w = get_elem?-lt xs (length xs) x' a in omega arith),
              ),
            ),
          )
        ]

    round_middle :
        Ready
        → c2 < m
        → m - c2 < length xs
        → (r : Round) × (round comp m xs ys c2 ≡ some r) × Shows comp m xs ys c2 r
    unfolding round
    round_middle (n, l, u, k) h h' =
        let (xl, a, a') = prev-total xs (m - c2) (omega arith) (omega arith) in
        let (xr, b) = get_elem?-total xs (m - c2) h' in
        let (yl, c, c') = prev-total ys c2 (omega arith) k in
        let (yr, d) = get_elem?-total ys c2 (omega arith) in
        let out : leb m c2 ≡ false = ground arith in
        let out' : leb (length xs) (m - c2) ≡ false = ground arith in
        let checks : ((m - c2 == 0) || ((m - c2 == length xs) || ((c2 == 0) || (c2 == length ys))))
            ≡ false =
          ground arith in
        let z : min (length xs - 1) (m - c2 - 1) ≡ m - c2 - 1 = omega arith in
        elim (Bool-cases (comp yr xl)) [
          | inl t ↦ (
            Round.move_low,
            rw (out, out', checks, a, b, c, d, t) refl,
            (xl, yr, h, ap (get_elem? xs) z ∙ a', d, t),
          )
          | inr g ↦ elim (Bool-cases (comp xr yl)) [
            | inl t ↦ (
              Round.move_high,
              rw (out, out', checks, a, b, c, d, g, t) refl,
              (xr, yl, h', b, c', t),
            )
            | inr g' ↦ (
              Round.return (m - c2) c2,
              rw (out, out', checks, a, b, c, d, g, g') refl,
              (refl, omega arith, (omega arith, k, λ x y q p s. cc, λ x y q p s. cc)),
            )
          ]
        ]

    -- A round passes its checks and reads no element that is not there. It returns a split, or moves a
    -- bound for a reason.
    pub round_lem : Ready → (r : Round) × (round comp m xs ys c2 ≡ some r) × Shows comp m xs ys c2 r
    round_lem v = elim (Bool-cases (leb m c2)) [
      | inl t ↦ round_right v (ground (arith, t))
      | inr g ↦ elim (Bool-cases (leb (length xs) (m - c2))) [
        | inl t ↦ round_left v (ground (arith, t))
        | inr g' ↦ round_middle v (ground (arith, g)) (ground (arith, g'))
      ]
    ]
