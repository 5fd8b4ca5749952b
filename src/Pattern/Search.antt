-- ===== src/Pattern/Search.antt =====
-- The binary search of `find_split_points_for_merge`, pattern/parallel_merge.hpp.
use itoyori_github_io.Base.{
  ℕ, ◌+◌, ◌-◌, ◌/◌, ◌<◌, ◌≤◌, ◌≡◌, ◌≢◌, refl, ap, ◌∙◌, sym, subst, Bool, true, false, List, Option,
  some, zero, suc, arith, length, get_elem?, inl, inr, ◌⊎◌, min, ◌==◌, le→leb,
}
use itoyori_github_io.Pattern.Order.{StrictWeak, Sorted}
use itoyori_github_io.Pattern.Merge.{Round, search}
use itoyori_github_io.Pattern.Probe.{Splits, TooHigh, TooLow, Shows, round_lem}

module _ {A : Type 0} where
  -- A split of sorted ranges that are neither in order nor the other way round leaves elements on
  -- both sides.
  abbrev pub Proper : (A → A → Bool) → List A → List A → ℕ → ℕ → Type 0
  Proper comp xs ys c1 c2 =
      (c1 + c2 ≢ 0)
      × (c1 + c2 ≢ length xs + length ys)
      × (c1 ≡ 0
          → c2 ≡ length ys
          → (x y : A) → get_elem? xs 0 ≡ some x
          → get_elem? ys (length ys - 1) ≡ some y
          → comp y x ≡ true)
      × (c1 ≡ length xs
          → c2 ≡ 0
          → (x y : A) → get_elem? xs (length xs - 1) ≡ some x
          → get_elem? ys 0 ≡ some y
          → comp x y ≡ true)

  -- A search succeeds, and its split leaves elements on both sides.
  abbrev pub Found : (A → A → Bool) → List A → List A → Option (ℕ × ℕ) → Type 0
  Found comp xs ys o =
      (c1 : ℕ) × (c2 : ℕ) × (o ≡ some (c1, c2)) × Splits comp xs ys c1 c2 × Proper comp xs ys c1 c2

  module _ (comp : A → A → Bool) (m : ℕ) (xs ys : List A) (w : StrictWeak comp)
      (sx : Sorted comp xs) (sy : Sorted comp ys) (n : 0 < length xs) (low_m : length xs ≤ m)
      (m_high : m ≤ length ys) (two : 2 ≤ length ys) where
    -- The bounds of the search: each is an end, or was moved there for a reason.
    abbrev LowBound : ℕ → Type 0
    LowBound low = (low ≡ 0) ⊎ ((0 < low) × TooLow comp m xs ys (low - 1))

    abbrev HighBound : ℕ → Type 0
    HighBound high = (high ≡ length ys) ⊎ TooHigh comp m xs ys high

    -- No index is too high when the one before it was too low.
    not_high : (c2 : ℕ) → LowBound c2 → ¬ (TooHigh comp m xs ys c2)
    not_high c2 (inl z) (x, y, h, e, f, t) = omega arith
    not_high c2 (inr (p, (x', y', h', e', f', t'))) (x, y, h, e, f, t) =
        let same : min (length xs - 1) (m - (c2 - 1) - 1) ≡ m - c2 = omega arith in
        let q : get_elem? xs (m - c2) ≡ some x' = ap (get_elem? xs) (sym same) ∙ e' in
        let below : comp x' y' ≡ false = w.asymmetric y' x' t' in
        let above : comp x' y' ≡ true = cc in absurd (cc)

    -- No index is too low when it was too high.
    not_low : (c2 : ℕ) → HighBound c2 → ¬ (TooLow comp m xs ys c2)
    not_low c2 (inl z) (x', y', h', e', f', t') = omega arith
    not_low c2 (inr (x, y, h, e, f, t)) (x', y', h', e', f', t') =
        let same : min (length xs - 1) (m - c2 - 1) ≡ m - c2 - 1 = omega arith in
        let q : get_elem? xs (m - c2 - 1) ≡ some x' = ap (get_elem? xs) (sym same) ∙ e' in
        let a : comp x x' ≡ false = sx (m - c2 - 1) (m - c2) x' x (omega arith) q e in
        let b : comp y' y ≡ false = sy (c2 - 1) c2 y y' (omega arith) f f' in
        let c : comp y x ≡ false = w.asymmetric x y t in
        let d : comp y' x' ≡ false = w.not_below_trans x' y y' (w.not_below_trans x' x y a c) b in
        absurd (cc)

    -- At the end of the larger range the search has seen that it is wholly below the other.
    first_last :
        (low high : ℕ)
        → LowBound low
        → low ≤ high
        → high ≤ length ys
        → (x y : A) → low + (high - low) / 2 ≡ length ys
        → m - length ys ≡ 0
        → get_elem? xs 0 ≡ some x
        → get_elem? ys (length ys - 1) ≡ some y
        → comp y x ≡ true
    first_last low high (inl z) le top x y e z' a b = absurd (omega arith)
    first_last low high (inr (p, (x', y', h', e', f', t'))) le top x y e z' a b =
        let i : min (length xs - 1) (m - (low - 1) - 1) ≡ 0 = omega arith in
        let j : low - 1 ≡ length ys - 1 = omega arith in
        let q : get_elem? xs 0 ≡ some x' = ap (get_elem? xs) (sym i) ∙ e' in
        let r : get_elem? ys (length ys - 1) ≡ some y' = ap (get_elem? ys) (sym j) ∙ f' in cc

    last_first :
        (high : ℕ)
        → HighBound high
        → (x y : A) → high ≤ 1
        → length xs ≤ m
        → get_elem? xs (length xs - 1) ≡ some x
        → get_elem? ys 0 ≡ some y
        → comp x y ≡ true
    last_first high (inl z) x y l l' a b = absurd (omega arith)
    last_first high (inr (x', y', h', e', f', t')) x y l l' a b =
        let i : m - high ≡ length xs - 1 = omega arith in
        let j : high - 1 ≡ 0 = omega arith in
        let q : get_elem? xs (length xs - 1) ≡ some x' = ap (get_elem? xs) (sym i) ∙ e' in
        let r : get_elem? ys 0 ≡ some y' = ap (get_elem? ys) (sym j) ∙ f' in cc

    returned :
        (low high : ℕ)
        → LowBound low
        → HighBound high
        → low ≤ high
        → high ≤ length ys
        → (c1 c2 : ℕ) → c2 ≡ low + (high - low) / 2
        → c1 ≡ min (length xs) (m - c2)
        → Proper comp xs ys c1 c2
    returned low high l h le top c1 c2 e2 e1 = (
      (omega arith),
      (omega arith),
      (λ z z' x y a b. first_last low high l le top x y (omega arith) (omega arith) a b),
      (λ z z' x y a b. last_first high h x y (omega arith) (omega arith) a b),
    )

    round_cases :
        (c2 : ℕ) (r : Round)
        → Shows comp m xs ys c2 r
        → ((r ≡ Round.move_high) × TooHigh comp m xs ys c2)
          ⊎ ((r ≡ Round.move_low) × TooLow comp m xs ys c2)
          ⊎ ((c1 : ℕ) × (c : ℕ) × (r ≡ Round.return c1 c)
              × (c ≡ c2)
              × (c1 ≡ min (length xs) (m - c2))
              × Splits comp xs ys c1 c2)
    round_cases c2 Round.move_high s = inl (refl, s)
    round_cases c2 Round.move_low s = inr (inl (refl, s))
    round_cases c2 (Round.return c1 c) (z, z', sp) = inr (inr (c1, c, refl, z, z', sp))

    pub search_lem :
        (fuel low high : ℕ)
        → LowBound low
        → HighBound high
        → low ≤ high
        → high ≤ length ys
        → high - low < fuel
        → Found comp xs ys (search comp m xs ys fuel low high)
    unfolding search
    search_lem zero low high l h le top f = absurd (omega arith)
    search_lem (suc fuel) low high l h le top f =
        let c2 = low + (high - low) / 2 in
        let (r, e, shows) = round_lem comp m xs ys c2 (n, low_m, m_high, omega arith) in
        elim (round_cases c2 r shows) [
          | inl (q, hi) ↦
              let ne : c2 ≢ high =
                λ z. not_high c2 (subst LowBound (let y : low ≡ c2 = omega arith in y) l) hi in
              let out : (high == c2) ≡ false = ground arith in
              let (c1, c, run, sp, pr) =
                search_lem fuel low c2 l (inr hi) (omega arith) (omega arith) (omega arith) in
              (c1, c, rw (le→leb low high le, e, q, out) run, sp, pr)
          | inr (inl (q, lo)) ↦
              let ne : c2 ≢ high = λ z. not_low c2 (subst HighBound (sym z) h) lo in
              let out : (low == c2 + 1) ≡ false = ground arith in
              let lb : LowBound (c2 + 1) =
                inr (omega arith, subst (TooLow comp m xs ys) (omega arith) lo) in
              let (c1, c, run, sp, pr) =
                search_lem fuel (c2 + 1) high lb h (omega arith) top (omega arith) in
              (c1, c, rw (le→leb low high le, e, q, out) run, sp, pr)
          | inr (inr (c1, c, q, z, z', sp)) ↦ (
            c1,
            c2,
            rw (le→leb low high le, e, q) (ap (λ (t : ℕ). some (c1, t)) z),
            sp,
            returned low high l h le top c1 c2 refl z',
          )
        ]
