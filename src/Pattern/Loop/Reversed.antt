-- ===== src/Pattern/Loop/Reversed.antt =====
-- `reverse` and `rotate` of pattern/parallel_loop.hpp.
use mathlib.Core.List.{append-nil}
use itoyori_github_io.Base.{
  ℕ, ◌+◌, ◌-◌, ◌/◌, ◌<◌, ◌≤◌, ◌≡◌, refl, ap, ◌∙◌, sym, subst, Option, some, zero, suc, arith, List,
  [], ◌∷◌, ◌++◌, inl, inr, ◌>>=◌, Bool-cases, leb, ltb, true, false, Bool, if◌then◌else◌, length,
  get_elem?, set, get_elem?-total, get_elem?-set, length-set, length-append, ◌==◌, ◌≢◌, ◌⊎◌, false,
}
use itoyori_github_io.Pattern.{Policy, assert_policy}
use itoyori_github_io.Pattern.Loop.{apply_iterators, swap, reverse, rotate}
use itoyori_github_io.Pattern.Loop.Laws.{loop_generic_lem}

module _ {A : Type 0} where
  -- After `k` exchanges the first and the last `k` elements have changed places.
  abbrev Exchanged : List A → ℕ → List A → Type 0
  Exchanged xs k zs =
      (length zs ≡ length xs)
      × ((i : ℕ)
          → i < length xs
          → ((i < k) ⊎ (length xs ≤ i + k))
          → get_elem? zs i ≡ get_elem? xs (length xs - 1 - i))
      × ((i : ℕ) → k ≤ i → i + k < length xs → get_elem? zs i ≡ get_elem? xs i)

  -- What stands where after an exchange.
  exchange_at :
      (zs : List A) (k j : ℕ) (x y : A)
      → k < length zs
      → j < length zs
      → get_elem? zs k ≡ some x
      → get_elem? zs j ≡ some y
      → (get_elem? (set (set zs k y) j x) k ≡ get_elem? zs j)
        × (get_elem? (set (set zs k y) j x) j ≡ get_elem? zs k)
        × ((i : ℕ) → i ≢ k → i ≢ j → get_elem? (set (set zs k y) j x) i ≡ get_elem? zs i)
  exchange_at zs k j x y h h' e f =
      let at_j : (i : ℕ)
          → get_elem? (set (set zs k y) j x) i
            ≡ (if j == i then some x else get_elem? (set zs k y) i) =
        λ i. get_elem?-set (set zs k y) j i x (omega (arith, length-set zs k y)) in
      let at_k : (i : ℕ) → get_elem? (set zs k y) i ≡ (if k == i then some y else get_elem? zs i) =
        λ i. get_elem?-set zs k i y h in
      (
        at_j k ∙ elim (Bool-cases (j == k)) [
          | inl t ↦ let q : j ≡ k = ground (arith, t) in rw (t) (sym e ∙ ap (get_elem? zs) (sym q))
          | inr g ↦
              let r : (k == k) ≡ true = ground arith in
              let run : get_elem? (set zs k y) k ≡ some y =
                at_k k ∙ ap (λ (b : Bool). if b then some y else get_elem? zs k) r in
              rw (g) (run ∙ sym f)
        ],
        (let r : (j == j) ≡ true = ground arith in
            at_j j ∙ ap (λ (b : Bool). if b then some x else get_elem? (set zs k y) j) r ∙ sym e),
        λ i ne ne'.
            let r : (j == i) ≡ false = ground arith in
            let r' : (k == i) ≡ false = ground arith in
            at_j i
            ∙ ap (λ (b : Bool). if b then some x else get_elem? (set zs k y) i) r
            ∙ at_k i
            ∙ ap (λ (b : Bool). if b then some y else get_elem? zs i) r',
      )

  swap_lem :
      (xs zs : List A) (k : ℕ)
      → Exchanged xs k zs
      → k + k + 1 < length xs
      → (zs' : List A) × (swap k (length xs - 1 - k) zs ≡ some zs') × Exchanged xs (k + 1) zs'
  unfolding swap
  swap_lem xs zs k (l, out, mid) h =
      let j = length xs - 1 - k in
      let (x, e) = get_elem?-total zs k (omega arith) in
      let (y, f) = get_elem?-total zs j (omega arith) in
      let (at_k, at_j, other) = exchange_at zs k j x y (omega arith) (omega arith) e f in
      (
        set (set zs k y) j x,
        rw (e, f) refl,
        (
          length-set (set zs k y) j x ∙ length-set zs k y ∙ l,
          λ i small w. elim (Bool-cases (i == k)) [
            | inl t ↦
                let q : i ≡ k = ground (arith, t) in
                ap (get_elem? (set (set zs k y) j x)) q
                ∙ at_k
                ∙ mid j (omega arith) (omega arith)
                ∙ ap (λ (n : ℕ). get_elem? xs (length xs - 1 - n)) (sym q)
            | inr g ↦ elim (Bool-cases (i == j)) [
              | inl t ↦
                  let q : i ≡ j = ground (arith, t) in
                  let back : k ≡ length xs - 1 - i = omega arith in
                  ap (get_elem? (set (set zs k y) j x)) q
                  ∙ at_j
                  ∙ mid k (omega arith) (omega arith)
                  ∙ ap (get_elem? xs) back
              | inr g' ↦
                  let ne : i ≢ k = ground (arith, g) in
                  let ne' : i ≢ j = ground (arith, g') in
                  other i ne ne'
                  ∙ out i small (elim w [ inl a ↦ inl (omega arith) | inr a ↦ inr (omega arith) ])
            ]
          ],
          λ i lo hi. other i (omega arith) (omega arith) ∙ mid i (omega arith) (omega arith),
        ),
      )

  swaps_lem :
      (xs zs : List A) (d k : ℕ)
      → Exchanged xs k zs
      → k + d + (k + d) ≤ length xs
      → (zs' : List A) × (apply_iterators (λ i ys. swap i (length xs - 1 - i) ys) d k zs ≡ some zs')
        × Exchanged xs (k + d) zs'
  unfolding apply_iterators
  swaps_lem xs zs zero k x h = (zs, refl, subst (λ (t : ℕ). Exchanged xs t zs) (omega arith) x)
  swaps_lem xs zs (suc d) k x h =
      let (zs1, e, x1) = swap_lem xs zs k x (omega arith) in
      let (zs2, f, x2) = swaps_lem xs zs1 d (k + 1) x1 (omega arith) in
      (
        zs2,
        ap
              (λ (o : Option (List A)).
                o >>= λ s1. apply_iterators (λ i ys. swap i (length xs - 1 - i) ys) d (k + 1) s1)
              e
            ∙ f,
        subst (λ (t : ℕ). Exchanged xs t zs2) (let q : k + 1 + d ≡ k + suc d = omega arith in q) x2,
      )

  -- With a valid policy `reverse` succeeds, and every element stands where its mirror image stood.
  pub reverse_lem :
      (policy : Policy) (xs : List A)
      → assert_policy policy ≡ true
      → (zs : List A) × (reverse policy xs ≡ some zs)
        × (length zs ≡ length xs)
        × ((i : ℕ) → i < length xs → get_elem? zs i ≡ get_elem? xs (length xs - 1 - i))
  unfolding reverse
  reverse_lem policy xs v =
      let start : Exchanged xs 0 xs = (
        refl,
        λ i h w. elim w [ inl a ↦ absurd (omega arith) | inr a ↦ absurd (omega arith) ],
        λ i h w. refl,
      ) in
      let (zs, e, (l, out, mid)) = swaps_lem xs xs (length xs / 2) 0 start (omega arith) in
      (
        zs,
        loop_generic_lem policy true (λ i ys. swap i (length xs - 1 - i) ys) (length xs / 2) xs v
            ∙ e,
        l,
        λ i h. elim (Bool-cases (ltb i (length xs / 2))) [
          | inl t ↦ out i h (inl (ground (arith, t)))
          | inr g ↦ elim (Bool-cases (leb (length xs) (i + length xs / 2))) [
            | inl t' ↦ out i h (inr (ground (arith, t')))
            | inr g' ↦
                let low : length xs / 2 ≤ i = ground (arith, g) in
                let high : i + length xs / 2 < length xs = ground (arith, g') in
                let same : i ≡ length xs - 1 - i = omega arith in
                mid i (omega arith) (omega arith) ∙ ap (get_elem? xs) same
          ]
        ],
      )

  -- Lists with the same elements at all places are the same.
  get_elem?-ext :
      (xs ys : List A)
      → length xs ≡ length ys
      → ((i : ℕ) → i < length xs → get_elem? xs i ≡ get_elem? ys i)
      → xs ≡ ys
  get_elem?-ext [] [] l h = refl
  get_elem?-ext [] (y ∷ ys) l h = absurd (omega arith)
  get_elem?-ext (x ∷ xs) [] l h = absurd (omega arith)
  get_elem?-ext (x ∷ xs) (y ∷ ys) l h =
      let rest : xs ≡ ys = get_elem?-ext xs ys (omega arith) (λ i k. h (suc i) (omega arith)) in
      let head : some x ≡ some y = h 0 (omega arith) in let e : x ≡ y = cc in cc

  get_elem?-append_left :
      (xs ys : List A) (i : ℕ) → i < length xs → get_elem? (xs ++ ys) i ≡ get_elem? xs i
  get_elem?-append_left [] ys i h = absurd (omega arith)
  get_elem?-append_left (x ∷ xs) ys zero h = refl
  get_elem?-append_left (x ∷ xs) ys (suc i) h = get_elem?-append_left xs ys i (omega arith)

  get_elem?-append_right :
      (xs ys : List A) (i : ℕ)
      → length xs ≤ i
      → get_elem? (xs ++ ys) i ≡ get_elem? ys (i - length xs)
  get_elem?-append_right [] ys i h = ap (get_elem? ys) (omega arith)
  get_elem?-append_right (x ∷ xs) ys zero h = absurd (omega arith)
  get_elem?-append_right (x ∷ xs) ys (suc i) h =
      get_elem?-append_right xs ys i (omega arith) ∙ ap (get_elem? ys) (omega arith)

  -- With a valid policy `rotate` succeeds and exchanges the two parts of the range.
  pub rotate_lem :
      (policy : Policy) (xs ys : List A)
      → assert_policy policy ≡ true
      → rotate policy xs ys ≡ some (ys ++ xs)
  unfolding rotate
  rotate_lem policy [] ys v = ap some (sym (append-nil ys))
  rotate_lem policy (x ∷ xs') [] v =
      let r : (suc (length xs') == 0) ≡ false = ground arith in
      rw (r) (ap some (append-nil (x ∷ xs')))
  rotate_lem policy (x ∷ xs') (y ∷ ys') v =
      let xs = x ∷ xs' in
      let ys = y ∷ ys' in
      let (xr, ex, lx, gx) = reverse_lem policy xs v in
      let (yr, ey, ly, gy) = reverse_lem policy ys v in
      let (zs, ez, lz, gz) = reverse_lem policy (xr ++ yr) v in
      let total = length-append xr yr in
      let total' = length-append ys xs in
      let at : (i : ℕ) → i < length zs → get_elem? zs i ≡ get_elem? (ys ++ xs) i = λ i h.
        gz i (omega arith) ∙ elim (Bool-cases (ltb i (length ys))) [
          | inl t ↦
              let l : i < length ys = ground (arith, t) in
              let n = length (xr ++ yr) - 1 - i in
              let back : length ys - 1 - (n - length xr) ≡ i = omega arith in
              get_elem?-append_right xr yr n (omega arith)
              ∙ gy (n - length xr) (omega arith)
              ∙ ap (get_elem? ys) back
              ∙ sym (get_elem?-append_left ys xs i l)
          | inr g ↦
              let l : length ys ≤ i = ground (arith, g) in
              let n = length (xr ++ yr) - 1 - i in
              let back : length xs - 1 - n ≡ i - length ys = omega arith in
              get_elem?-append_left xr yr n (omega arith)
              ∙ gx n (omega arith)
              ∙ ap (get_elem? xs) back
              ∙ sym (get_elem?-append_right ys xs i l)
        ] in
      let same : zs ≡ ys ++ xs = get_elem?-ext zs (ys ++ xs) (omega arith) at in
      let r : (suc (length xs') == 0) ≡ false = ground arith in
      let r' : (suc (length ys') == 0) ≡ false = ground arith in
      rw (r, r', ex, ey) (ez ∙ ap some same)
