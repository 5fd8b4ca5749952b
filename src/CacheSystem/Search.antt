-- ===== src/CacheSystem/Search.antt =====
-- `get_empty_slot` of cache_system.hpp: which slot it takes, and when it finds none.
use itoyori_github_io.Base.{
  ℕ, ◌<◌, ◌≡◌, ◌≢◌, refl, sym, subst, ap, ◌⊎◌, inl, inr, true, false, Option, some, none, List, [],
  ◌∷◌, ◌++◌, arith, get_elem?, get_elem?-total, Bool-cases, All,
}
use itoyori_github_io.CacheSystem.{
  EntryOps, Slot, CacheSystem, release_slot, scan_lru, get_empty_slot,
}
use itoyori_github_io.CacheSystem.Inv.{Inv, occurs}

module _ {E : Type 0} (ops : EntryOps E) where
  -- Slot `j` is in use and cannot be evicted.
  abbrev pub Pinned : CacheSystem E → ℕ → Type 0
  Pinned c j =
      (s : Slot E) × (get_elem? c.entries j ≡ some s)
      × (s.allocated ≡ true)
      × (ops.is_evictable s.entry ≡ false)

  -- Slot `i` with the content `ce` is free and taken as it is, or its entry is evicted.
  abbrev pub Chosen : CacheSystem E → ℕ → Slot E → Option (CacheSystem E × ℕ) → Type 0
  Chosen c i ce result =
      (ce.allocated ≡ false) × (result ≡ some (c, i))
      ⊎ (ce.allocated ≡ true)
        × (ops.is_evictable ce.entry ≡ true)
        × (result ≡ some (release_slot ops i ce c, i))

  -- What a search through the list `is` gives: the first slot that is not pinned, if there is one.
  abbrev pub Searched : CacheSystem E → List ℕ → Option (CacheSystem E × ℕ) → Type 0
  Searched c is result =
      (result ≡ none) × All (Pinned c) is
      ⊎ ((i : ℕ) × (ce : Slot E) × (pre : List ℕ) × (post : List ℕ) × (is ≡ pre ++ i ∷ post)
          × All (Pinned c) pre
          × (get_elem? c.entries i ≡ some ce)
          × Chosen c i ce result)

  Searched-cons :
      (c : CacheSystem E) (i : ℕ) (is : List ℕ) (result : Option (CacheSystem E × ℕ))
      → Pinned c i
      → Searched c is result
      → Searched c (i ∷ is) result
  Searched-cons c i is result p (inl (e, a)) = inl (e, (p, a))
  Searched-cons c i is result p (inr (j, ce, pre, post, e, a, g, h)) =
      inr (j, ce, i ∷ pre, post, ap (λ t. i ∷ t) e, (p, a), g, h)

  scan_lru_lem :
      (c : CacheSystem E) (is : List ℕ)
      → Inv c
      → ((j : ℕ) → occurs j is ≢ 0 → j < c.nentries)
      → Searched c is (scan_lru ops c is)
  unfolding scan_lru
  scan_lru_lem c [] v h = inl (refl, tt)
  scan_lru_lem c (i ∷ is) v h =
      let (ce, e) =
        get_elem?-total c.entries i (let q = h i (ground arith) in omega (arith, v.sized)) in
      let same = v.indexed i ce e in
      elim (Bool-cases ce.allocated) [
        | inl a ↦ elim (Bool-cases (ops.is_evictable ce.entry)) [
          | inl f ↦ inr (i, ce, [], is, refl, tt, e, inr (a, f, rw (e, a, f, same)))
          | inr f ↦
              let skip : scan_lru ops c (i ∷ is) ≡ scan_lru ops c is = rw (e, a, f) in
              subst (λ r. Searched c (i ∷ is) r) (sym skip)
                (Searched-cons c i is (scan_lru ops c is) (ce, e, a, f)
                  (scan_lru_lem c is v (λ j k. h j (ground arith))))
        ]
        | inr a ↦ inr (i, ce, [], is, refl, tt, e, inl (a, rw (e, a, same)))
      ]

  pub get_empty_slot_lem : (c : CacheSystem E) → Inv c → Searched c c.lru (get_empty_slot ops c)
  unfolding get_empty_slot
  get_empty_slot_lem c v = scan_lru_lem c c.lru v (λ j k. ground (arith, v.linked j))
