-- ===== src/Pattern/Ranges.antt =====
-- Parts of ranges: `take`, `drop` and `filter` by native numbers and Boolean tests, and what stands
-- where in them.
use itoyori_github_io.Base.{
  ℕ, ◌+◌, ◌-◌, ◌<◌, ◌≤◌, ◌≡◌, refl, ap, ◌∙◌, sym, Bool, true, false, List, [], ◌∷◌, ◌++◌, some,
  zero, suc, arith, length, get_elem?, if◌then◌else◌, Bool-cases, inl, inr, ◌⊎◌,
}

module _ {A : Type 0} where
  abbrev pub take : ℕ → List A → List A
  take zero xs = []
  take (suc n) [] = []
  take (suc n) (x ∷ xs) = x ∷ take n xs

  abbrev pub drop : ℕ → List A → List A
  drop zero xs = xs
  drop (suc n) [] = []
  drop (suc n) (x ∷ xs) = drop n xs

  abbrev pub filter : (A → Bool) → List A → List A
  filter p [] = []
  filter p (x ∷ xs) = let rest = filter p xs in if p x then x ∷ rest else rest

  pub take-append-drop : (n : ℕ) (xs : List A) → take n xs ++ drop n xs ≡ xs
  take-append-drop zero xs = refl
  take-append-drop (suc n) [] = refl
  take-append-drop (suc n) (x ∷ xs) = ap (λ (r : List A). x ∷ r) (take-append-drop n xs)

  pub take-append : (n : ℕ) (xs ys : List A) → length xs ≡ n → take n (xs ++ ys) ≡ xs
  take-append zero [] ys h = refl
  take-append zero (x ∷ xs) ys h = absurd (omega arith)
  take-append (suc n) [] ys h = absurd (omega arith)
  take-append (suc n) (x ∷ xs) ys h = ap (λ (r : List A). x ∷ r) (take-append n xs ys (omega arith))

  pub drop-append : (n : ℕ) (xs ys : List A) → length xs ≡ n → drop n (xs ++ ys) ≡ ys
  drop-append zero [] ys h = refl
  drop-append zero (x ∷ xs) ys h = absurd (omega arith)
  drop-append (suc n) [] ys h = absurd (omega arith)
  drop-append (suc n) (x ∷ xs) ys h = drop-append n xs ys (omega arith)

  pub length-take : (n : ℕ) (xs : List A) → n ≤ length xs → length (take n xs) ≡ n
  length-take zero xs h = refl
  length-take (suc n) [] h = omega arith
  length-take (suc n) (x ∷ xs) h = ap suc (length-take n xs (omega arith))

  pub length-drop : (n : ℕ) (xs : List A) → length (drop n xs) ≡ length xs - n
  length-drop zero xs = omega arith
  length-drop (suc n) [] = omega arith
  length-drop (suc n) (x ∷ xs) = omega (arith, length-drop n xs)

  pub take-all : (n : ℕ) (xs : List A) → length xs ≤ n → take n xs ≡ xs
  take-all zero [] h = refl
  take-all zero (x ∷ xs) h = absurd (omega arith)
  take-all (suc n) [] h = refl
  take-all (suc n) (x ∷ xs) h = ap (λ (r : List A). x ∷ r) (take-all n xs (omega arith))

  pub get_elem?-take :
      (n : ℕ) (xs : List A) (i : ℕ) (x : A)
      → get_elem? (take n xs) i ≡ some x
      → (i < n) × (get_elem? xs i ≡ some x)
  get_elem?-take zero xs i x e = absurd (cc)
  get_elem?-take (suc n) [] i x e = absurd (cc)
  get_elem?-take (suc n) (y ∷ xs) zero x e = (omega arith, e)
  get_elem?-take (suc n) (y ∷ xs) (suc i) x e =
      let (a, b) = get_elem?-take n xs i x e in (omega arith, b)

  pub take-keeps :
      (n : ℕ) (xs : List A) (i : ℕ) (x : A)
      → i < n
      → get_elem? xs i ≡ some x
      → get_elem? (take n xs) i ≡ some x
  take-keeps zero xs i x h e = absurd (omega arith)
  take-keeps (suc n) [] i x h e = e
  take-keeps (suc n) (y ∷ xs) zero x h e = e
  take-keeps (suc n) (y ∷ xs) (suc i) x h e = take-keeps n xs i x (omega arith) e

  pub get_elem?-drop :
      (n : ℕ) (xs : List A) (i : ℕ) → get_elem? (drop n xs) i ≡ get_elem? xs (n + i)
  get_elem?-drop zero xs i = ap (get_elem? xs) (omega arith)
  get_elem?-drop (suc n) [] i = refl
  get_elem?-drop (suc n) (x ∷ xs) i =
      get_elem?-drop n xs i
      ∙ ap (get_elem? (x ∷ xs)) (let e : suc (n + i) ≡ suc n + i = omega arith in e)

  -- An element of a concatenation stands in one of the two.
  pub get_elem?-append :
      (xs ys : List A) (i : ℕ) (x : A)
      → get_elem? (xs ++ ys) i ≡ some x
      → ((i < length xs) × (get_elem? xs i ≡ some x))
        ⊎ ((length xs ≤ i) × (get_elem? ys (i - length xs) ≡ some x))
  get_elem?-append [] ys i x e = inr (omega arith, ap (get_elem? ys) (omega arith) ∙ e)
  get_elem?-append (y ∷ xs) ys zero x e = inl (omega arith, e)
  get_elem?-append (y ∷ xs) ys (suc i) x e = elim (get_elem?-append xs ys i x e) [
    | inl (a, b) ↦ inl (omega arith, b)
    | inr (a, b) ↦ inr (omega arith, ap (get_elem? ys) (omega arith) ∙ b)
  ]

  pub filter-append :
      (p : A → Bool) (xs ys : List A) → filter p (xs ++ ys) ≡ filter p xs ++ filter p ys
  filter-append p [] ys = refl
  filter-append p (x ∷ xs) ys = elim (Bool-cases (p x)) [
    | inl t ↦ rw (t) (ap (λ (r : List A). x ∷ r) (filter-append p xs ys))
    | inr f ↦ rw (f) (filter-append p xs ys)
  ]

  -- An element of a list is its first or one of the rest.
  pub get_elem?-cons :
      (y : A) (xs : List A) (i : ℕ) (x : A)
      → get_elem? (y ∷ xs) i ≡ some x
      → (y ≡ x) ⊎ ((j : ℕ) × (i ≡ suc j) × (get_elem? xs j ≡ some x))
  get_elem?-cons y xs zero x e = inl (cc)
  get_elem?-cons y xs (suc i) x e = inr (i, refl, e)

  pub filter_yes :
      (p : A → Bool) (x : A) (xs : List A) → p x ≡ true → filter p (x ∷ xs) ≡ x ∷ filter p xs
  filter_yes p x xs t = rw (t) refl

  pub filter_no :
      (p : A → Bool) (x : A) (xs : List A) → p x ≡ false → filter p (x ∷ xs) ≡ filter p xs
  filter_no p x xs f = rw (f) refl

  -- What is left stands in the list and passes the test.
  pub get_elem?-filter :
      (p : A → Bool) (xs : List A) (i : ℕ) (x : A)
      → get_elem? (filter p xs) i ≡ some x
      → (p x ≡ true) × (j : ℕ) × (get_elem? xs j ≡ some x)
  get_elem?-filter p [] i x e = absurd (cc)
  get_elem?-filter p (y ∷ xs) i x e = elim (Bool-cases (p y)) [
    | inl t ↦
        let e' : get_elem? (y ∷ filter p xs) i ≡ some x =
          sym (ap (λ (r : List A). get_elem? r i) (filter_yes p y xs t)) ∙ e in
        elim (get_elem?-cons y (filter p xs) i x e') [
          | inl q ↦ (ap p (sym q) ∙ t, 0, ap some q)
          | inr (j, q, r) ↦ let (a, k, b) = get_elem?-filter p xs j x r in (a, suc k, b)
        ]
    | inr f ↦
        let e' : get_elem? (filter p xs) i ≡ some x =
          sym (ap (λ (r : List A). get_elem? r i) (filter_no p y xs f)) ∙ e in
        let (a, k, b) = get_elem?-filter p xs i x e' in (a, suc k, b)
  ]

  pub filter-keeps :
      (p : A → Bool) (xs : List A) (i : ℕ) (x : A)
      → p x ≡ true
      → get_elem? xs i ≡ some x
      → (j : ℕ) × (get_elem? (filter p xs) j ≡ some x)
  filter-keeps p [] i x t e = absurd (cc)
  filter-keeps p (y ∷ xs) zero x t e = let q : p y ≡ true = cc in rw (q) (0, e)
  filter-keeps p (y ∷ xs) (suc i) x t e =
      let (j, r) = filter-keeps p xs i x t e in
      elim (Bool-cases (p y)) [ inl q ↦ rw (q) (suc j, r) | inr q ↦ rw (q) (j, r) ]

  -- Without such an element nothing is left.
  pub filter-none :
      (p : A → Bool) (xs : List A)
      → ((i : ℕ) (x : A) → get_elem? xs i ≡ some x → p x ≡ false)
      → filter p xs ≡ []
  filter-none p [] h = refl
  filter-none p (x ∷ xs) h = rw (h 0 x refl) (filter-none p xs (λ i y e. h (suc i) y e))

  none_cons :
      (p : A → Bool) (y : A) (xs : List A)
      → p y ≡ false
      → ((i : ℕ) (x : A) → get_elem? xs i ≡ some x → p x ≡ false)
      → (i : ℕ) (x : A) → get_elem? (y ∷ xs) i ≡ some x
      → p x ≡ false
  none_cons p y xs f g i x e = elim (get_elem?-cons y xs i x e) [
    | inl q ↦ ap p (sym q) ∙ f
    | inr (j, q, r) ↦ g j x r
  ]

  -- Either some element passes, or none.
  pub filter-cases :
      (p : A → Bool) (xs : List A)
      → ((i : ℕ) × (x : A) × (get_elem? xs i ≡ some x) × (p x ≡ true))
        ⊎ ((i : ℕ) (x : A) → get_elem? xs i ≡ some x → p x ≡ false)
  filter-cases p [] = inr (λ i x e. absurd (cc))
  filter-cases p (x ∷ xs) = elim (Bool-cases (p x)) [
    | inl t ↦ inl (0, x, refl, t)
    | inr f ↦ elim (filter-cases p xs) [
      | inl (i, y, e, t) ↦ inl (suc i, y, e, t)
      | inr g ↦ inr (none_cons p x xs f g)
    ]
  ]
